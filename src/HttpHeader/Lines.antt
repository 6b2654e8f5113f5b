-- ===== src/HttpHeader/Lines.antt =====
-- common/utility.hpp, HttpHeader::parse: what it makes of the lines that other programs send, with
-- any number of spaces before a value and either line end.
use juce_simpleweb.Prelude.{
  ℕ, zero, suc, ◌-◌, ◌≤◌, ◌<◌, ◌≡◌, ◌≢◌, refl, ap, ◌∙◌, Bool, true, false, List, [], ◌∷◌, ◌++◌,
  if◌then◌else◌, arith, length, length-append, take, take-append, drop-append_cons,
  take-append_last, append_assoc, Bytes, All, All-append,
}
use juce_simpleweb.Bytes.{back_is}
use juce_simpleweb.Bytes.Search.{back_is-append, Free, find-append, find-Free, getline-append}
use juce_simpleweb.CaseInsensitive.{Multimap}
use juce_simpleweb.HttpHeader.{skip_spaces, field_at, parse_line, parse_lines, parse}
use juce_simpleweb.HttpHeader.RoundTrip.{IsValue}

-- A line as it arrives, less its line feed: a name, a colon, spaces, a value, and maybe a carriage
-- return; or a name and a colon, with nothing behind.
pub data HeaderLine : Type 0 where
  valued : Bytes → ℕ → Bytes → Bool → HeaderLine
  bare : Bytes → HeaderLine

abbrev pub spaces : ℕ → Bytes
spaces zero = []
spaces (suc k) = b' ' ∷ spaces k

abbrev pub ending : Bytes → Bool → Bytes
ending value true = value ++ b'\r' ∷ []
ending value false = value

abbrev pub line_of : HeaderLine → Bytes
line_of (valued name k value carriage_return) =
    name ++ b':' ∷ (spaces k ++ ending value carriage_return)
line_of (bare name) = name ++ b':' ∷ []

abbrev pub lines_of : List HeaderLine → Bytes
lines_of [] = []
lines_of (l ∷ lines) = line_of l ++ b'\n' ∷ lines_of lines

-- The fields of the lines; a line with nothing behind its colon has none.
abbrev pub fields_of : List HeaderLine → Multimap
fields_of [] = []
fields_of (valued name k value carriage_return ∷ lines) = (name, value) ∷ fields_of lines
fields_of (bare name ∷ lines) = fields_of lines

-- Without a carriage return, the value is not empty, and does not end in one itself.
abbrev pub EndsPlain : Bytes → Bool → Type 0
EndsPlain value true = Unit {0}
EndsPlain [] false = ⊥
EndsPlain (c ∷ value) false = back_is b'\r' (c ∷ value) ≡ false

-- A name has no colon and no line feed; a value has no line feed and begins with no space.
abbrev pub IsLine : HeaderLine → Type 0
IsLine (valued name k value carriage_return) =
    Free b':' name
    × Free b'\n' name
    × Free b'\n' value
    × IsValue value
    × EndsPlain value carriage_return
IsLine (bare name) = Free b':' name × Free b'\n' name

back_is-behind :
    (c : ℕ) (s : Bytes) (x : ℕ) (t : Bytes) → back_is c (s ++ x ∷ t) ≡ back_is c (x ∷ t)
unfolding back_is
back_is-behind c [] x t = refl
back_is-behind c (y ∷ []) x t = refl
back_is-behind c (y ∷ z ∷ s) x t = back_is-behind c (z ∷ s) x t

skip_spaces-behind : (k x : ℕ) (t : Bytes) → x ≢ b' ' → skip_spaces (spaces k ++ x ∷ t) ≡ x ∷ t
unfolding skip_spaces
skip_spaces-behind zero x [] h = refl
skip_spaces-behind zero x (y ∷ t) h = ground arith
skip_spaces-behind (suc zero) x t h = skip_spaces-behind zero x t h
skip_spaces-behind (suc (suc k)) x t h = skip_spaces-behind (suc k) x t h

take_whole : (s : Bytes) → take (length s - 0) s ≡ s
take_whole s = ap (λ n. take n s) (omega arith) ∙ take_all s
  where
    take_all : (s : Bytes) → take (length s) s ≡ s
    take_all [] = refl
    take_all (x ∷ s) = ap (◌∷◌ x) (take_all s)

-- The field of a line whose part behind the spaces is not empty.
parse_line-behind :
    (name : Bytes) (k x : ℕ) (t : Bytes)
    → x ≢ b' '
    → parse_line (name ++ b':' ∷ (spaces k ++ x ∷ t)) (length name)
      ≡ (name, take (length (x ∷ t) - (if back_is b'\r' (x ∷ t) then 1 else 0)) (x ∷ t)) ∷ []
unfolding parse_line field_at
parse_line-behind name k x t h = rw (
  drop-append_cons name b':' (spaces k ++ x ∷ t),
  skip_spaces-behind k x t h,
  back_is-behind b'\r' name b':' (spaces k ++ x ∷ t),
  back_is-behind b'\r' (b':' ∷ spaces k) x t,
  take-append name (b':' ∷ (spaces k ++ x ∷ t)),
)

parse_line-valued :
    (name : Bytes) (k : ℕ) (value : Bytes) (r : Bool)
    → IsValue value
    → EndsPlain value r
    → parse_line (name ++ b':' ∷ (spaces k ++ ending value r)) (length name) ≡ (name, value) ∷ []
parse_line-valued name k [] true v e =
    parse_line-behind name k b'\r' [] (omega arith) ∙ rw (back_is-append b'\r' b'\r' []) refl
parse_line-valued name k (c ∷ value) true v e =
    parse_line-behind name k c (value ++ b'\r' ∷ []) v
    ∙ rw (back_is-append b'\r' b'\r' (c ∷ value), take-append_last (c ∷ value) b'\r')
parse_line-valued name k [] false v e = elim e [ ]
parse_line-valued name k (c ∷ value) false v e =
    parse_line-behind name k c value v ∙ rw e (ap (λ s. (name, s) ∷ []) (take_whole (c ∷ value)))

parse_line-bare : (name : Bytes) → parse_line (name ++ b':' ∷ []) (length name) ≡ []
unfolding parse_line field_at skip_spaces
parse_line-bare name = rw (drop-append_cons name b':' []) refl

spaces-Free : (k : ℕ) → Free b'\n' (spaces k)
spaces-Free zero = tt
spaces-Free (suc k) = (omega arith, spaces-Free k)

ending-Free : (value : Bytes) (r : Bool) → Free b'\n' value → Free b'\n' (ending value r)
ending-Free value true h = All-append (λ x. x ≢ b'\n') value _ h (omega arith, tt)
ending-Free value false h = h

line_of-Free : (l : HeaderLine) → IsLine l → Free b'\n' (line_of l)
line_of-Free (valued name k value r) (colon, head, tail, v, e) =
    All-append (λ x. x ≢ b'\n') name _ head
      (
        omega arith,
        All-append (λ x. x ≢ b'\n') (spaces k) _ (spaces-Free k) (ending-Free value r tail),
      )
line_of-Free (bare name) (colon, head) = All-append (λ x. x ≢ b'\n') name _ head (omega arith, tt)

-- One round on a line that has a colon.
parse_lines_round :
    (f : ℕ) (name behind rest : Bytes)
    → Free b':' name
    → Free b'\n' (name ++ b':' ∷ behind)
    → parse_lines (suc f) ((name ++ b':' ∷ behind) ++ b'\n' ∷ rest) ≡ (
      parse_line (name ++ b':' ∷ behind) (length name) ++ (parse_lines f rest).0,
      (parse_lines f rest).1,
    )
unfolding parse_lines
parse_lines_round f name behind rest colon line =
    rw (getline-append (name ++ b':' ∷ behind) rest line, parse_lines)
      (rw (find-append b':' name behind colon) refl)

parse_lines-line_of :
    (f : ℕ) (l : HeaderLine) (rest : Bytes)
    → IsLine l
    → parse_lines (suc f) (line_of l ++ b'\n' ∷ rest)
      ≡ (fields_of (l ∷ []) ++ (parse_lines f rest).0, (parse_lines f rest).1)
parse_lines-line_of f (valued name k value r) rest h =
    parse_lines_round f name (spaces k ++ ending value r) rest h.0
      (line_of-Free (valued name k value r) h)
    ∙ ap (λ fields. (fields ++ (parse_lines f rest).0, (parse_lines f rest).1))
        (parse_line-valued name k value r (h.3) (h.4))
parse_lines-line_of f (bare name) rest h =
    parse_lines_round f name [] rest h.0 (line_of-Free (bare name) h)
    ∙ ap (λ fields. (fields ++ (parse_lines f rest).0, (parse_lines f rest).1))
        (parse_line-bare name)

-- The loop ends behind a line that has no colon.
parse_lines_end :
    (f : ℕ) (last body : Bytes)
    → Free b':' last
    → Free b'\n' last
    → parse_lines (suc f) (last ++ b'\n' ∷ body) ≡ ([], body)
unfolding parse_lines
parse_lines_end f last body colon line =
    rw (getline-append last body line, parse_lines) (rw (find-Free b':' last colon) refl)

parse_lines-lines_of :
    (f : ℕ) (lines : List HeaderLine) (last body : Bytes)
    → All IsLine lines
    → Free b':' last
    → Free b'\n' last
    → length lines < f
    → parse_lines f (lines_of lines ++ (last ++ b'\n' ∷ body)) ≡ (fields_of lines, body)
parse_lines-lines_of zero lines last body h colon line l = elim l [ ]
parse_lines-lines_of (suc f) [] last body h colon line l = parse_lines_end f last body colon line
parse_lines-lines_of (suc f) (x ∷ lines) last body (h, hs) colon line l =
    ap (parse_lines (suc f))
      (append_assoc (line_of x) (b'\n' ∷ lines_of lines) (last ++ b'\n' ∷ body))
    ∙ parse_lines-line_of f x (lines_of lines ++ (last ++ b'\n' ∷ body)) h
    ∙ ap (λ r. (fields_of (x ∷ []) ++ r.0, r.1))
        (parse_lines-lines_of f lines last body hs colon line (omega arith))
    ∙ ap (λ fields. (fields, body)) (fields_of-cons x lines)
  where
    fields_of-cons :
        (x : HeaderLine) (lines : List HeaderLine)
        → fields_of (x ∷ []) ++ fields_of lines ≡ fields_of (x ∷ lines)
    fields_of-cons (valued name k value r) lines = refl
    fields_of-cons (bare name) lines = refl

length-lines_of : (lines : List HeaderLine) → length lines ≤ length (lines_of lines)
length-lines_of [] = omega arith
length-lines_of (x ∷ lines) =
    omega (arith, length-append (line_of x) (b'\n' ∷ lines_of lines), length-lines_of lines)

-- Header lines as other programs may send them, with any number of spaces behind a colon and each
-- with or without a carriage return at its end, up to a line without a colon: the names and the
-- values are read, in their order, without the spaces in front of a value and without its carriage
-- return; a line that ends with its colon is passed over; what follows the line without a colon
-- stays in the stream. Names hold no colon and no line feed, values no line feed and no leading
-- space; on a line without a carriage return the value is not empty and does not end with one.
pub parse-lines_of :
    (lines : List HeaderLine) (last body : Bytes)
    → All IsLine lines
    → Free b':' last
    → Free b'\n' last
    → parse (lines_of lines ++ (last ++ b'\n' ∷ body)) ≡ (fields_of lines, body)
unfolding parse
parse-lines_of lines last body h colon line =
    parse_lines-lines_of (suc (length (lines_of lines ++ (last ++ b'\n' ∷ body)))) lines last body h
      colon line
      (omega (arith, length-append (lines_of lines) (last ++ b'\n' ∷ body), length-lines_of lines))

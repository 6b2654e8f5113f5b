-- ===== src/HttpHeader/RoundTrip.antt =====
-- common/utility.hpp, HttpHeader::parse: the fields that are written are read back.
use juce_simpleweb.Prelude.{
  ℕ, zero, suc, ◌-◌, ◌≤◌, ◌<◌, ◌≡◌, ◌≢◌, refl, [], ◌∷◌, ◌++◌, arith, length, length-append, take,
  take-append, drop-append_cons, take-append_last, append_assoc, Bytes, All, All-append,
}
use juce_simpleweb.Bytes.{substr, find, getline, split_line}
use juce_simpleweb.Bytes.Search.{back_is-append, Free, find-append, getline-append}
use juce_simpleweb.CaseInsensitive.{Multimap}
use juce_simpleweb.HttpHeader.{
  carriage, skip_spaces, field_at, parse_line, parse_lines, parse, write_fields, crlf,
}

-- What a field must be to survive the wire: a name with no colon and no line feed, and a value
-- with no line feed that does not begin with a space.
abbrev pub IsValue : Bytes → Type 0
IsValue [] = Unit {0}
IsValue (c ∷ value) = c ≢ b' '

abbrev pub IsField : Bytes × Bytes → Type 0
IsField (first, second) = Free b':' first × Free b'\n' first × Free b'\n' second × IsValue second

skip_spaces-written :
    (second : Bytes)
    → IsValue second
    → skip_spaces (b' ' ∷ (second ++ b'\r' ∷ [])) ≡ second ++ b'\r' ∷ []
unfolding skip_spaces
skip_spaces-written [] v = refl
skip_spaces-written (c ∷ []) v = ground arith
skip_spaces-written (c ∷ d ∷ second) v = ground arith

field_at-append :
    (line : Bytes) (n : ℕ) (s : Bytes) (x : ℕ)
    → field_at line n (s ++ x ∷ [])
      ≡ (substr line 0 n, take (length (s ++ x ∷ []) - carriage line) (s ++ x ∷ [])) ∷ []
unfolding field_at
field_at-append line n [] x = refl
field_at-append line n (y ∷ s) x = refl

abbrev written_line : Bytes → Bytes → Bytes
written_line first second = first ++ (b':' ∷ b' ' ∷ (second ++ b'\r' ∷ []))

carriage-written : (first second : Bytes) → carriage (written_line first second) ≡ 1
carriage-written first second =
    rw (← append_assoc first (b':' ∷ b' ' ∷ second) (b'\r' ∷ []))
      (rw (back_is-append b'\r' b'\r' (first ++ b':' ∷ b' ' ∷ second)))

parse_line-written :
    (first second : Bytes)
    → IsValue second
    → parse_line (written_line first second) (length first) ≡ (first, second) ∷ []
unfolding parse_line
parse_line-written first second v = rw (
  drop-append_cons first b':' (b' ' ∷ (second ++ b'\r' ∷ [])),
  skip_spaces-written second v,
  field_at-append (written_line first second) (length first) second b'\r',
  carriage-written first second,
  take-append_last second b'\r',
  take-append first (b':' ∷ b' ' ∷ (second ++ b'\r' ∷ [])),
)

written_line-Free :
    (first second : Bytes)
    → Free b'\n' first
    → Free b'\n' second
    → Free b'\n' (written_line first second)
written_line-Free first second h k =
    All-append (λ x. x ≢ b'\n') first _ h
      (omega arith, (omega arith, All-append (λ x. x ≢ b'\n') second _ k (omega arith, tt)))

-- One round on a line that was written.
parse_lines-line :
    (first second rest : Bytes) (f : ℕ)
    → IsField (first, second)
    → parse_lines (suc f) (written_line first second ++ b'\n' ∷ rest)
      ≡ ((first, second) ∷ (parse_lines f rest).0, (parse_lines f rest).1)
unfolding parse_lines
parse_lines-line first second rest f (name, head, value, v) =
    rw
      (
        getline-append (written_line first second) rest (written_line-Free first second head value),
        parse_lines,
      )
      (rw (
        find-append b':' first (b' ' ∷ (second ++ b'\r' ∷ [])) name,
        parse_line-written first second v,
      ))

parse_lines_end : (f : ℕ) (body : Bytes) → parse_lines (suc f) (b'\r' ∷ b'\n' ∷ body) ≡ ([], body)
unfolding parse_lines getline split_line find
parse_lines_end f body = refl

write_fields-cons :
    (first second rest : Bytes) (fields : Multimap)
    → write_fields ((first, second) ∷ fields) ++ rest
      ≡ written_line first second ++ b'\n' ∷ (write_fields fields ++ rest)
unfolding write_fields
write_fields-cons first second rest fields = simp append_assoc

parse_lines-written :
    (fields : Multimap) (body : Bytes) (f : ℕ)
    → All IsField fields
    → length fields < f
    → parse_lines f (write_fields fields ++ (crlf ++ body)) ≡ (fields, body)
parse_lines-written fields body zero h k = elim k [ ]
parse_lines-written [] body (suc f) h k = unfold write_fields in parse_lines_end f body
parse_lines-written ((first, second) ∷ fields) body (suc f) h k = rw (
  write_fields-cons first second (crlf ++ body) fields,
  parse_lines-line first second (write_fields fields ++ (crlf ++ body)) f h.0,
  parse_lines-written fields body f h.1 (omega arith),
)

-- A field takes at least three bytes, so the fuel of `parse` covers the fields that are written.
length-write_fields : (fields : Multimap) → length fields ≤ length (write_fields fields)
unfolding write_fields
length-write_fields [] = omega arith
length-write_fields ((first, second) ∷ fields) = omega (
  arith,
  length-append first (b':' ∷ b' ' ∷ (second ++ (b'\r' ∷ b'\n' ∷ write_fields fields))),
  length-append second (b'\r' ∷ b'\n' ∷ write_fields fields),
  length-write_fields fields,
)

-- Parsing what the writers' loops wrote, closed by an empty line, gives the same fields in the
-- same order and leaves the body in the stream; names hold no colon and no line feed, values no
-- line feed and no leading space.
pub parse-write_fields :
    (fields : Multimap) (body : Bytes)
    → All IsField fields
    → parse (write_fields fields ++ (crlf ++ body)) ≡ (fields, body)
unfolding parse
parse-write_fields fields body h =
    parse_lines-written fields body (suc (length (write_fields fields ++ (crlf ++ body)))) h (
      omega (arith, length-append (write_fields fields) (crlf ++ body), length-write_fields fields))

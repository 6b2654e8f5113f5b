-- ===== src/HttpServer/Head.antt =====
-- webserver/server_http.hpp, read: where the header of a request ends in what has arrived.
use juce_simpleweb.Prelude.{
  ℕ, suc, ◌+◌, ◌≡◌, ◌≢◌, refl, sym, ap, ◌∙◌, false, some, List, [], ◌∷◌, ◌++◌, length,
  length-append, append_assoc, append-cut, Bytes, arith, All,
}
use mathlib.Core.Option
use juce_simpleweb.Bytes.Search.{Free}
use juce_simpleweb.HttpHeader.{crlf}
use juce_simpleweb.HttpServer.Arrival.{until, starts_with, blank_line}
use juce_simpleweb.HttpServer.Until.{until-on, some-eq, until-extend}

-- A line of a header, without its end.
abbrev pub IsLine : Bytes → Type 0
IsLine [] = ⊥
IsLine (c ∷ w) = Free b'\n' (c ∷ w)

abbrev pub head_text : List Bytes → Bytes
head_text [] = crlf
head_text (w ∷ ws) = w ++ b'\r' ∷ b'\n' ∷ head_text ws

second_differs : (c d : ℕ) (s : Bytes) → d ≢ b'\n' → starts_with blank_line (c ∷ d ∷ s) ≡ false
unfolding starts_with
second_differs c d s h = ground arith

first_differs : (s : Bytes) → starts_with blank_line (b'\n' ∷ s) ≡ false
unfolding starts_with
first_differs s = refl

fourth_differs :
    (a b c d : ℕ) (s : Bytes) → d ≢ b'\n' → starts_with blank_line (a ∷ b ∷ c ∷ d ∷ s) ≡ false
unfolding starts_with
fourth_differs a b c d s h = ground arith

until-blank : (s : Bytes) → until blank_line (b'\r' ∷ b'\n' ∷ b'\r' ∷ b'\n' ∷ s) ≡ some 4
unfolding until starts_with
until-blank s = refl

-- From inside a line on.
pub until-within :
    (v : Bytes) (ws : List Bytes) (more : Bytes)
    → Free b'\n' v
    → All IsLine ws
    → until blank_line (v ++ b'\r' ∷ b'\n' ∷ (head_text ws ++ more))
      ≡ some (length v + (2 + length (head_text ws)))
until-within (c ∷ []) ws more h k =
    until-on blank_line c _ (second_differs c b'\r' _ (omega arith))
    ∙ ap (Option.map suc) (until-within [] ws more tt k)
    ∙ ap some (omega arith)
until-within (c ∷ d ∷ v) ws more (h, hs) k =
    until-on blank_line c _ (second_differs c d _ hs.0)
    ∙ ap (Option.map suc) (until-within (d ∷ v) ws more hs k)
    ∙ ap some (omega arith)
until-within [] [] more h k = until-blank more
until-within [] ([] ∷ ws) more h (k, ks) = elim k [ ]
until-within [] ((c ∷ w) ∷ ws) more h (k, ks) =
    until-on blank_line b'\r' _ (fourth w k.1)
    ∙ ap (Option.map suc) (
        until-on blank_line b'\n' _ (first_differs _)
        ∙ ap (Option.map suc) (
            ap (until blank_line) (append_assoc (c ∷ w) (crlf ++ head_text ws) more)
            ∙ until-within (c ∷ w) ws more k ks))
    ∙ ap some (omega (arith, length-append w (crlf ++ head_text ws)))
  where
    fourth :
        (v : Bytes)
        → Free b'\n' v
        → starts_with blank_line (b'\r' ∷ b'\n' ∷ c ∷ ((v ++ b'\r' ∷ b'\n' ∷ head_text ws) ++ more))
          ≡ false
    fourth [] h = fourth_differs b'\r' b'\n' c b'\r' _ (omega arith)
    fourth (d ∷ v) h = fourth_differs b'\r' b'\n' c d _ h.0

-- The end of a header is found behind its last line.
pub until-head :
    (w : Bytes) (ws : List Bytes) (more : Bytes)
    → All IsLine (w ∷ ws)
    → until blank_line (head_text (w ∷ ws) ++ more) ≡ some (length (head_text (w ∷ ws)))
until-head [] ws more (h, hs) = elim h [ ]
until-head (c ∷ w) ws more (h, hs) =
    ap (until blank_line) (append_assoc (c ∷ w) (crlf ++ head_text ws) more)
    ∙ until-within (c ∷ w) ws more h hs
    ∙ ap some (omega (arith, length-append w (crlf ++ head_text ws)))

-- A buffer in which the end of the header was found holds the header, and the number of bytes is
-- the header's.
pub until-head_line :
    (buffer rest : Bytes) (w : Bytes) (ws : List Bytes) (more : Bytes) (n : ℕ)
    → All IsLine (w ∷ ws)
    → buffer ++ rest ≡ head_text (w ∷ ws) ++ more
    → until blank_line buffer ≡ some n
    → (kept : Bytes) × (buffer ≡ head_text (w ∷ ws) ++ kept)
      × (kept ++ rest ≡ more)
      × (n ≡ length (head_text (w ∷ ws)))
until-head_line buffer rest w ws more n h e u =
    let (found, _, within) = until-extend blank_line buffer rest n u in
    let size : n ≡ length (head_text (w ∷ ws)) =
      some-eq (sym found ∙ ap (until blank_line) e ∙ until-head w ws more h) in
    let (kept, p, q) = append-cut (head_text (w ∷ ws)) more buffer rest (sym e) (omega arith) in
    (kept, p, sym q, size)

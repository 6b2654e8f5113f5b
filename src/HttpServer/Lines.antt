-- ===== src/HttpServer/Lines.antt =====
-- webserver/server_http.hpp: a line in a buffer that is read up to its end.
use juce_simpleweb.Prelude.{
  ℕ, suc, ◌+◌, ◌≡◌, ◌≢◌, refl, ap, ◌∙◌, false, some, [], ◌∷◌, ◌++◌, length, length-append,
  append_assoc, append-cut, sym, Bytes, arith,
}
use mathlib.Core.Option
use juce_simpleweb.Bytes.Search.{Free}
use juce_simpleweb.HttpHeader.{crlf}
use juce_simpleweb.HttpServer.Arrival.{until, starts_with}
use juce_simpleweb.HttpServer.Until.{some-eq, until-extend}

until-skip :
    (c d : ℕ) (s : Bytes) → d ≢ b'\n' → until crlf (c ∷ d ∷ s) ≡ Option.map suc (until crlf (d ∷ s))
unfolding until starts_with
until-skip c d s h = rw (not_crlf c d s h) refl
  where
    not_crlf : (c d : ℕ) (s : Bytes) → d ≢ b'\n' → starts_with crlf (c ∷ d ∷ s) ≡ false
    not_crlf c d s h = ground arith

until-crlf : (more : Bytes) → until crlf (b'\r' ∷ b'\n' ∷ more) ≡ some 2
unfolding until starts_with
until-crlf more = refl

-- The first delimiter behind a text with no line feed is the one behind it.
pub until-append :
    (text more : Bytes)
    → Free b'\n' text
    → until crlf (text ++ b'\r' ∷ b'\n' ∷ more) ≡ some (length text + 2)
until-append [] more h = until-crlf more
until-append (c ∷ []) more h =
    until-skip c b'\r' (b'\n' ∷ more) (omega arith) ∙ ap (Option.map suc) (until-append [] more tt)
until-append (c ∷ d ∷ text) more (h, k) =
    until-skip c d (text ++ b'\r' ∷ b'\n' ∷ more) k.0
    ∙ ap (Option.map suc) (until-append (d ∷ text) more k)
    ∙ ap some (omega arith)

-- A buffer that holds the delimiter holds the line up to it.
pub until-line :
    (buffer text rest more : Bytes) (n : ℕ)
    → Free b'\n' text
    → buffer ++ rest ≡ text ++ b'\r' ∷ b'\n' ∷ more
    → until crlf buffer ≡ some n
    → (kept : Bytes) × (buffer ≡ text ++ b'\r' ∷ b'\n' ∷ kept)
      × (kept ++ rest ≡ more)
      × (n ≡ length text + 2)
until-line buffer text rest more n h e u =
    let (found, _, within) = until-extend crlf buffer rest n u in
    let size : n ≡ length text + 2 =
      some-eq (sym found ∙ ap (until crlf) e ∙ until-append text more h) in
    let whole = length-append text crlf in
    let (kept, p, q) =
      append-cut (text ++ crlf) more buffer rest (append_assoc text crlf more ∙ sym e)
        (omega arith) in
    (kept, p ∙ append_assoc text crlf kept, sym q, size)

-- ===== src/HttpServer/Until.antt =====
-- webserver/server_http.hpp: where a delimiter is found in a buffer.
use juce_simpleweb.Prelude.{
  ℕ, suc, ◌≤◌, ◌≡◌, ◌≢◌, refl, sym, ap, ◌∙◌, true, false, ◌&&◌, Option, none, some, [], ◌∷◌, ◌++◌,
  ◌==◌, length, Bytes, arith, Bool-cases, inl, inr,
}
use mathlib.Core.Option
use juce_simpleweb.HttpServer.Arrival.{until, starts_with}

starts_with-append :
    (d s rest : Bytes) → length d ≤ length s → starts_with d (s ++ rest) ≡ starts_with d s
unfolding starts_with
starts_with-append [] s rest h = refl
starts_with-append (x ∷ d) [] rest h = absurd (omega arith)
starts_with-append (x ∷ d) (c ∷ s) rest h =
    ap (λ t. x == c && t) (starts_with-append d s rest (omega arith))

starts_with-length : (d s : Bytes) → starts_with d s ≡ true → length d ≤ length s
unfolding starts_with
starts_with-length [] s h = omega arith
starts_with-length (x ∷ d) [] h = absurd (ground (arith, h))
starts_with-length (x ∷ d) (c ∷ s) h = ground (arith, starts_with-length d s)

until-found :
    (d : Bytes) (c : ℕ) (s : Bytes)
    → starts_with d (c ∷ s) ≡ true
    → until d (c ∷ s) ≡ some (length d)
unfolding until
until-found d c s h = rw h

pub until-on :
    (d : Bytes) (c : ℕ) (s : Bytes)
    → starts_with d (c ∷ s) ≡ false
    → until d (c ∷ s) ≡ Option.map suc (until d s)
unfolding until
until-on d c s h = rw h

pub some-eq : {m n : ℕ} → some m ≡ some n → m ≡ n
some-eq e = ground (arith, e)

map-suc-some :
    (o : Option ℕ) (n : ℕ) → Option.map suc o ≡ some n → (m : ℕ) × (o ≡ some m) × (n ≡ suc m)
map-suc-some none n e = cc
map-suc-some (some m) n e = (m, refl, ground (arith, e))

until-nil : (d : Bytes) (n : ℕ) → until d [] ≢ some n
unfolding until
until-nil d n e = cc

-- The delimiter lies within the buffer, and more bytes behind the buffer do not move it.
pub until-extend :
    (d s rest : Bytes) (n : ℕ)
    → until d s ≡ some n
    → (until d (s ++ rest) ≡ some n) × (length d ≤ length s) × (n ≤ length s)
until-extend d [] rest n u = absurd (until-nil d n u)
until-extend d (c ∷ s) rest n u = elim (Bool-cases (starts_with d (c ∷ s))) [
  | inl found ↦
      let fits = starts_with-length d (c ∷ s) found in
      let size : length d ≡ n = some-eq (sym (until-found d c s found) ∙ u) in
      (
        until-found d c (s ++ rest) (starts_with-append d (c ∷ s) rest fits ∙ found) ∙ ap some size,
        fits,
        omega arith,
      )
  | inr on ↦
      let (m, v, w) = map-suc-some (until d s) n (sym (until-on d c s on) ∙ u) in
      let (x, y, z) = until-extend d s rest m v in
      (
        until-on d c (s ++ rest) (starts_with-append d (c ∷ s) rest (omega arith) ∙ on)
            ∙ ap (Option.map suc) x
            ∙ ap some (sym w),
        omega arith,
        omega arith,
      )
]

-- ===== src/Prelude/Lists.antt =====
-- Lists measured and indexed by native numbers, under the library's names, and byte strings.
use Prim.Native.Nat.{ℕ, zero, suc, ◌+◌, ◌-◌, ◌<◌, ◌≤◌}
use mathlib.Core.Path.{◌≡◌, refl, ap}
use mathlib.Core.List.{List, [], ◌∷◌, ◌++◌}
use mathlib.Core.Bool.{Bool, true, false, ◌&&◌, ◌||◌}
use Prim.Native.Char.{code}
use Prim.Native.String.{String}
use native.Mathlib.Numerals.{add-one}
use native.Mathlib.Omega.{arith}
use juce_simpleweb.Prelude.Tests.{◌==◌}

module _ {ℓ} {A : Type ℓ} where
  abbrev pub length : List A → ℕ
  length [] = 0
  length (x ∷ xs) = suc (length xs)

  abbrev pub get_or : List A → ℕ → A → A
  get_or [] i d = d
  get_or (x ∷ xs) zero d = x
  get_or (x ∷ xs) (suc i) d = get_or xs i d

  abbrev pub take : ℕ → List A → List A
  take zero xs = []
  take (suc n) [] = []
  take (suc n) (x ∷ xs) = x ∷ take n xs

  abbrev pub drop : ℕ → List A → List A
  drop zero xs = xs
  drop (suc n) [] = []
  drop (suc n) (x ∷ xs) = drop n xs

  pub length-append : (xs ys : List A) → length (xs ++ ys) ≡ length xs + length ys
  length-append [] ys = omega arith
  length-append (x ∷ xs) ys = omega (arith, length-append xs ys)

  pub take-append : (xs ys : List A) → take (length xs) (xs ++ ys) ≡ xs
  take-append [] ys = refl
  take-append (x ∷ xs) ys = ap (◌∷◌ x) (take-append xs ys)

  pub drop-append : (xs ys : List A) → drop (length xs) (xs ++ ys) ≡ ys
  drop-append [] ys = refl
  drop-append (x ∷ xs) ys = drop-append xs ys

  pub drop-append_cons :
      (xs : List A) (y : A) (ys : List A) → drop (length xs + 1) (xs ++ y ∷ ys) ≡ ys
  drop-append_cons xs y ys = rw add-one (step xs y ys)
    where
      step : (xs : List A) (y : A) (ys : List A) → drop (suc (length xs)) (xs ++ y ∷ ys) ≡ ys
      step [] y ys = refl
      step (x ∷ xs) y ys = step xs y ys

  -- A list less its last entry.
  pub take-append_last :
      (xs : List A) (y : A) → take (length (xs ++ y ∷ []) - 1) (xs ++ y ∷ []) ≡ xs
  take-append_last xs y = rw (length-append_last xs y) (take-append xs (y ∷ []))
    where
      length-append_last : (xs : List A) (y : A) → length (xs ++ y ∷ []) - 1 ≡ length xs
      length-append_last xs y = omega (arith, length-append xs (y ∷ []))

-- Two ways to cut a list: the longer front is the shorter one and a part of the rest.
pub append-cut {ℓ} :
    {A : Type ℓ} (xs ys us vs : List A)
    → xs ++ ys ≡ us ++ vs
    → length xs ≤ length us
    → (w : List A) × (us ≡ xs ++ w) × (ys ≡ w ++ vs)
append-cut [] ys us vs e h = (us, refl, e)
append-cut (x ∷ xs) ys [] vs e h = absurd (omega arith)
append-cut (x ∷ xs) ys (u ∷ us) vs e h =
    let (w, p, q) = append-cut xs ys us vs (ground (arith, e)) (omega arith) in
    (w, ground (arith, e, p), q)

-- Two cuts at one place.
pub exact-cut {ℓ} :
    {A : Type ℓ} (xs ys us vs : List A)
    → xs ++ ys ≡ us ++ vs
    → length xs ≡ length us
    → (xs ≡ us) × (ys ≡ vs)
exact-cut [] ys [] vs e h = (refl, e)
exact-cut [] ys (u ∷ us) vs e h = absurd (omega arith)
exact-cut (x ∷ xs) ys [] vs e h = absurd (omega arith)
exact-cut (x ∷ xs) ys (u ∷ us) vs e h =
    let (p, q) = exact-cut xs ys us vs (ground (arith, e)) (omega arith) in
    (ground (arith, e, p), q)

-- Every entry satisfies a predicate.
abbrev pub All {ℓ ℓ'} : {A : Type ℓ} (P : A → Type ℓ') (s : List A) → Type ℓ'
All P [] = Unit
All P (c ∷ s) = P c × All P s

pub All-append {ℓ ℓ'} :
    {A : Type ℓ} (P : A → Type ℓ') (s t : List A) → All P s → All P t → All P (s ++ t)
All-append P [] t h k = k
All-append P (c ∷ s) t (h, hs) k = (h, All-append P s t hs k)

pub All-split {ℓ ℓ'} :
    {A : Type ℓ} (P : A → Type ℓ') (s t : List A) → All P (s ++ t) → All P s × All P t
All-split P [] t h = (tt, h)
All-split P (c ∷ s) t (h, hs) = let (a, b) = All-split P s t hs in ((h, a), b)

-- `std::string`: its bytes.
abbrev pub Bytes : Type 0
Bytes = List ℕ

abbrev pub IsByte : ℕ → Type 0
IsByte c = c < 256

-- The bytes of an ASCII literal.
abbrev pub codes : String → Bytes
codes String.[] = []
codes (String.◌∷◌ c s) = code c ∷ codes s

-- `==` on strings.
abbrev pub bytes_eq : Bytes → Bytes → Bool
bytes_eq [] [] = true
bytes_eq [] (y ∷ ys) = false
bytes_eq (x ∷ xs) [] = false
bytes_eq (x ∷ xs) (y ∷ ys) = x == y && bytes_eq xs ys

pub bytes_eq_refl : (xs : Bytes) → bytes_eq xs xs ≡ true
bytes_eq_refl [] = refl
bytes_eq_refl (x ∷ xs) = ground (arith, bytes_eq_refl xs)

pub bytes_eq→≡ : (xs ys : Bytes) → bytes_eq xs ys ≡ true → xs ≡ ys
bytes_eq→≡ [] [] h = refl
bytes_eq→≡ [] (y ∷ ys) h = ground arith
bytes_eq→≡ (x ∷ xs) [] h = ground arith
bytes_eq→≡ (x ∷ xs) (y ∷ ys) h = ground (arith, bytes_eq→≡ xs ys)

abbrev pub has : List ℕ → ℕ → Bool
has [] h = false
has (g ∷ held) h = h == g || has held h

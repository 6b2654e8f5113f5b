-- ===== src/HashMap/Entries.antt =====
-- juce::HashMap seen through its entries: what an iterator visits, and the first value of a key.
use juce_simpleweb.Prelude.{
  ◌≡◌, refl, Bool, true, false, Option, none, some, List, [], ◌∷◌, arith, if◌then◌else◌, Bytes,
  bytes_eq,
}

abbrev pub is_some {ℓ} : {A : Type ℓ} → Option A → Bool
is_some none = false
is_some (some a) = true

pub bytes_eq_comm : (a b : Bytes) → bytes_eq a b ≡ bytes_eq b a
bytes_eq_comm [] [] = refl
bytes_eq_comm [] (y ∷ b) = refl
bytes_eq_comm (x ∷ a) [] = refl
bytes_eq_comm (x ∷ a) (y ∷ b) = ground (arith, bytes_eq_comm a b)

module _ {V : Type 0} where
  abbrev pub lookup : Bytes → List (Bytes × V) → Option V
  lookup k [] = none
  lookup k ((j, v) ∷ entries) = if bytes_eq j k then some v else lookup k entries

  -- No key is visited twice.
  abbrev pub Apart : List (Bytes × V) → Type 0
  Apart [] = Unit {0}
  Apart ((k, v) ∷ entries) = (lookup k entries ≡ none) × Apart entries

-- ===== src/CaseInsensitive.antt =====
-- common/utility.hpp, case_insensitive_equal, CaseInsensitiveEqual, CaseInsensitiveHash and
-- CaseInsensitiveMultimap. A multimap is the list of its fields in the order of insertion; where
-- several fields share a name, `find_field` takes the first of them. `std::hash<int>` is a
-- parameter of the hash.
use Prim.Native.Nat.{bit_xor}
use juce_simpleweb.Prelude.{
  ℕ, ◌+◌, ◌*◌, ◌/◌, ◌%◌, ◌^◌, ◌≡◌, refl, sym, ◌∙◌, ◌↔◌, Bool, true, false, ◌&&◌, List, [], ◌∷◌, map,
  Option, none, some, arith, leb, ◌==◌, if◌then◌else◌, length, Bytes, bytes_eq, bytes_eq→≡,
  bytes_eq_refl,
}

-- `tolower` of the C locale.
unfoldable pub tolower : ℕ → ℕ
tolower c = if leb b'A' c && leb c b'Z' then c + 32 else c

-- `std::equal` over the range of the first string.
equal_range : Bytes → Bytes → Bool
equal_range [] ys = true
equal_range (x ∷ xs) [] = false
equal_range (x ∷ xs) (y ∷ ys) = tolower x == tolower y && equal_range xs ys

unfoldable pub case_insensitive_equal : Bytes → Bytes → Bool
unfolding equal_range tolower
case_insensitive_equal str1 str2 = length str1 == length str2 && equal_range str1 str2

abbrev size_t_mod : ℕ
size_t_mod = 2 ^ 64

-- `h ^= hash(tolower(c)) + 0x9e3779b9 + (h << 6) + (h >> 2)` on 64 bits.
hash_round : (ℕ → ℕ) → ℕ → ℕ → ℕ
hash_round hash h c =
    bit_xor h ((hash (tolower c) + 0x9e3779b9 + h * 2 ^ 6 % size_t_mod + h / 2 ^ 2) % size_t_mod)

hash_from : (ℕ → ℕ) → ℕ → Bytes → ℕ
unfolding hash_round
hash_from hash h [] = h
hash_from hash h (c ∷ str) = hash_from hash (hash_round hash h c) str

pub case_insensitive_hash : (ℕ → ℕ) → Bytes → ℕ
unfolding hash_from
case_insensitive_hash hash = hash_from hash 0

abbrev pub Multimap : Type 0
Multimap = List (Bytes × Bytes)

-- `header.find(name)`; the container may give any of several fields with this name.
unfoldable pub find_field : Bytes → Multimap → Option Bytes
find_field name [] = none
find_field name ((first, second) ∷ fields) =
    if case_insensitive_equal first name then some second else find_field name fields

equal_range_iff :
    (xs ys : Bytes)
    → (length xs == length ys && equal_range xs ys) ≡ bytes_eq (map tolower xs) (map tolower ys)
unfolding equal_range
equal_range_iff [] [] = refl
equal_range_iff [] (y ∷ ys) = ground arith
equal_range_iff (x ∷ xs) [] = ground arith
equal_range_iff (x ∷ xs) (y ∷ ys) = ground (arith, equal_range_iff xs ys)

-- Two strings are equal up to case exactly when their lower-case forms are the same string.
pub case_insensitive_equal_iff :
    (a b : Bytes) → (case_insensitive_equal a b ≡ true) ↔ (map tolower a ≡ map tolower b)
unfolding case_insensitive_equal
case_insensitive_equal_iff a b = (
  λ h. bytes_eq→≡ _ _ (sym (equal_range_iff a b) ∙ h),
  λ e. equal_range_iff a b ∙ rw e (bytes_eq_refl (map tolower b)),
)

hash_round-lower :
    (hash : ℕ → ℕ) (h x y : ℕ) → tolower x ≡ tolower y → hash_round hash h x ≡ hash_round hash h y
unfolding hash_round
hash_round-lower hash h x y e = rw e

map-cons_eq :
    (x y : ℕ) (a b : Bytes)
    → map tolower (x ∷ a) ≡ map tolower (y ∷ b)
    → (tolower x ≡ tolower y) × (map tolower a ≡ map tolower b)
map-cons_eq x y a b e = ground arith

hash_from-lower :
    (hash : ℕ → ℕ) (h : ℕ) (a b : Bytes)
    → map tolower a ≡ map tolower b
    → hash_from hash h a ≡ hash_from hash h b
unfolding hash_from
hash_from-lower hash h [] [] e = refl
hash_from-lower hash h [] (y ∷ b) e = cc
hash_from-lower hash h (x ∷ a) [] e = cc
hash_from-lower hash h (x ∷ a) (y ∷ b) e =
    let (heads, tails) = map-cons_eq x y a b e in
    rw (hash_round-lower hash h x y heads) (hash_from-lower hash (hash_round hash h y) a b tails)

-- The multimap's hash respects its equality, whatever `std::hash<int>` is: strings that
-- CaseInsensitiveEqual takes for equal have the same CaseInsensitiveHash.
pub case_insensitive_hash-eq :
    (hash : ℕ → ℕ) (a b : Bytes)
    → case_insensitive_equal a b ≡ true
    → case_insensitive_hash hash a ≡ case_insensitive_hash hash b
unfolding case_insensitive_hash
case_insensitive_hash-eq hash a b h =
    hash_from-lower hash 0 a b ((case_insensitive_equal_iff a b).0 h)

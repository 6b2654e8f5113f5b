-- ===== src/Bytes/Search.antt =====
-- Searching a string and taking lines off a stream, at strings that are built by concatenation.
use juce_simpleweb.Prelude.{
  ℕ, ◌≤◌, ◌<◌, ◌≡◌, refl, ap, ◌≢◌, Bool, true, not, ◌&&◌, none, some, [], ◌∷◌, ◌++◌, arith, ◌==◌,
  length, Bytes, All,
}
use juce_simpleweb.Bytes.{find, back_is, split_line, getline}

abbrev pub Free : ℕ → Bytes → Type 0
Free c = All (λ x. x ≢ c)

pub find-Free : (c : ℕ) (s : Bytes) → Free c s → find c s ≡ none
unfolding find
find-Free c [] h = refl
find-Free c (x ∷ s) h = ground (arith, find-Free c s h.1, h.0)

-- The first occurrence stands behind the part that has none.
pub find-append : (c : ℕ) (s rest : Bytes) → Free c s → find c (s ++ c ∷ rest) ≡ some (length s)
unfolding find
find-append c [] rest h = ground arith
find-append c (x ∷ s) rest h = ground (arith, find-append c s rest h.1, h.0)

pub split_line-append : (s rest : Bytes) → Free b'\n' s → split_line (s ++ b'\n' ∷ rest) ≡ (s, rest)
unfolding split_line
split_line-append [] rest h = refl
split_line-append (x ∷ s) rest h = ground (arith, split_line-append s rest h.1, h.0)

pub getline-append : (s rest : Bytes) → Free b'\n' s → getline (s ++ b'\n' ∷ rest) ≡ some (s, rest)
unfolding getline
getline-append [] rest h = ap some (split_line-append [] rest h)
getline-append (x ∷ s) rest h = ap some (split_line-append (x ∷ s) rest h)

-- Each line takes at least one byte off the stream.
pub split_line-length : (s : Bytes) → length (split_line s).1 ≤ length s
unfolding split_line
split_line-length [] = omega arith
split_line-length (x ∷ s) = ground (arith, split_line-length s)

pub back_is-append : (c x : ℕ) (s : Bytes) → back_is c (s ++ x ∷ []) ≡ (x == c)
unfolding back_is
back_is-append c x [] = refl
back_is-append c x (y ∷ []) = refl
back_is-append c x (y ∷ z ∷ s) = back_is-append c x (z ∷ s)

pub getline-length : (s line rest : Bytes) → getline s ≡ some (line, rest) → length rest < length s
unfolding getline split_line
getline-length [] line rest e = cc
getline-length (x ∷ s) line rest e = ground (arith, split_line-length s)

-- A test that finds no line feed in a text.
unfoldable pub one_line : Bytes → Bool
one_line [] = true
one_line (c ∷ s) = not (c == b'\n') && one_line s

pub one_line-Free : (s : Bytes) → one_line s ≡ true → Free b'\n' s
unfolding one_line
one_line-Free [] h = tt
one_line-Free (c ∷ s) h = ground (arith, one_line-Free s)

pub and_both : (a b : Bool) → (a && b) ≡ true → (a ≡ true) × (b ≡ true)
and_both a b h = ground arith

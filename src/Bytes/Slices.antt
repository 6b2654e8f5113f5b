-- ===== src/Bytes/Slices.antt =====
-- Slices by positions that are lengths of a prefix.
use juce_simpleweb.Prelude.{ℕ, ◌+◌, ◌≡◌, some, ◌∷◌, ◌++◌, length, take-append, drop-append, Bytes}
use juce_simpleweb.Bytes.{find_from, substr, substr_from}
use juce_simpleweb.Bytes.Search.{Free, find-append}

-- The middle part, found by the lengths of the first two.
pub substr-middle :
    (s xs ys zs : Bytes) (p n : ℕ)
    → s ≡ xs ++ (ys ++ zs)
    → p ≡ length xs
    → n ≡ length ys
    → substr s p n ≡ ys
substr-middle s xs ys zs p n e k l =
    rw (e, k, l) (rw (drop-append xs (ys ++ zs)) (take-append ys zs))

pub substr_from-append :
    (s xs ys : Bytes) (p : ℕ) → s ≡ xs ++ ys → p ≡ length xs → substr_from s p ≡ ys
substr_from-append s xs ys p e k = rw (e, k) (drop-append xs ys)

pub find_from-middle :
    (c : ℕ) (s xs ys zs : Bytes) (p : ℕ)
    → s ≡ xs ++ (ys ++ c ∷ zs)
    → p ≡ length xs
    → Free c ys
    → find_from c p s ≡ some (p + length ys)
unfolding find_from
find_from-middle c s xs ys zs p e k h =
    rw (e, k) (rw (drop-append xs (ys ++ c ∷ zs)) (rw (find-append c ys zs h)))

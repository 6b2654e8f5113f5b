-- ===== src/Bytes.antt =====
-- The operations of `std::string` and `std::istream` that the parsers use. A position that may
-- be `npos` is an `Option`, and a stream is the bytes that are left in it.
pub mod Search
pub mod Slices
use juce_simpleweb.Prelude.{
  ℕ, suc, ◌+◌, ◌≤◌, ◌≡◌, refl, ap, ◌≢◌, Bool, false, Option, none, some, [], ◌∷◌, ◌++◌, arith, ◌==◌,
  if◌then◌else◌, length, take, drop, Bytes, All,
}
use mathlib.Core.Option

-- `s.find(c)`.
unfoldable pub find : ℕ → Bytes → Option ℕ
find c [] = none
find c (x ∷ s) = if x == c then some 0 else Option.map suc (find c s)

-- `s.find(c, pos)`.
unfoldable pub find_from : ℕ → ℕ → Bytes → Option ℕ
unfolding find
find_from c pos s = Option.map (λ i. pos + i) (find c (drop pos s))

-- `s.substr(pos, count)` for `pos <= s.size()`.
abbrev pub substr : Bytes → ℕ → ℕ → Bytes
substr s pos count = take count (drop pos s)

-- `s.substr(pos)` for `pos <= s.size()`.
abbrev pub substr_from : Bytes → ℕ → Bytes
substr_from s pos = drop pos s

-- The last byte is `c`; false on the empty string.
unfoldable pub back_is : ℕ → Bytes → Bool
back_is c [] = false
back_is c (x ∷ []) = x == c
back_is c (x ∷ y ∷ s) = back_is c (y ∷ s)

-- The line before the first line feed, and what follows it.
unfoldable pub split_line : Bytes → Bytes × Bytes
split_line [] = ([], [])
split_line (x ∷ s) = if x == b'\n' then ([], s) else (x ∷ (split_line s).0, (split_line s).1)

-- `getline(stream, line)`: it fails on a stream that has nothing left.
unfoldable pub getline : Bytes → Option (Bytes × Bytes)
unfolding split_line
getline [] = none
getline (x ∷ s) = some (split_line (x ∷ s))

-- ===== src/Base64/Text.antt =====
-- common/WSCrypto.cpp: an encoded text is one word of one line, so a header field can hold it.
use juce_simpleweb.Prelude.{
  ℕ, zero, suc, ◌+◌, ◌*◌, ◌/◌, ◌%◌, ◌≡◌, ◌≢◌, refl, Bool, true, ◌&&◌, not, ◌==◌, inl, inr, [], ◌∷◌,
  length, ltb, get_or, Bytes, arith, All, Bool-cases,
}
use juce_simpleweb.Base64.{base64_table, digit, encode_blocks, encoded_length, base64_encode}

abbrev pub IsPlain : ℕ → Type 0
IsPlain c = (c ≢ b'\n') × (c ≢ b' ')

plain : Bytes → Bool
plain [] = true
plain (c ∷ s) = not (c == b'\n') && (not (c == b' ') && plain s)

get_or-IsPlain : (s : Bytes) (i : ℕ) → plain s ≡ true → IsPlain (get_or s i 0)
unfolding plain
get_or-IsPlain [] i h = omega arith
get_or-IsPlain (c ∷ s) zero h = (ground arith, ground arith)
get_or-IsPlain (c ∷ s) (suc i) h = get_or-IsPlain s i (ground arith)

digit-IsPlain : (i : ℕ) → IsPlain (digit i)
unfolding plain
digit-IsPlain i = get_or-IsPlain base64_table i refl

encode_blocks-IsPlain : (s : Bytes) → All IsPlain (encode_blocks s)
unfolding encode_blocks
encode_blocks-IsPlain [] = tt
encode_blocks-IsPlain (a ∷ []) = (digit-IsPlain (a / 4), (digit-IsPlain (a % 4 * 16), omega arith))
encode_blocks-IsPlain (a ∷ b ∷ []) = (
  digit-IsPlain (a / 4),
  (digit-IsPlain (a % 4 * 16 + b / 16), (digit-IsPlain (b % 16 * 4), omega arith)),
)
encode_blocks-IsPlain (a ∷ b ∷ c ∷ s) = (
  digit-IsPlain (a / 4),
  (
    digit-IsPlain (a % 4 * 16 + b / 16),
    (digit-IsPlain (b % 16 * 4 + c / 64), (digit-IsPlain (c % 64), encode_blocks-IsPlain s)),
  ),
)

pub base64_encode-IsPlain : (s : Bytes) → All IsPlain (base64_encode s)
unfolding base64_encode
base64_encode-IsPlain s = elim (Bool-cases (ltb (encoded_length (length s)) (length s))) [
  | inl e ↦ rw e tt
  | inr e ↦ rw e (encode_blocks-IsPlain s)
]

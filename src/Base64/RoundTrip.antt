-- ===== src/Base64/RoundTrip.antt =====
-- common/WSCrypto.cpp: decoding what was encoded.
use juce_simpleweb.Prelude.{
  ℕ, suc, ◌+◌, ◌-◌, ◌*◌, ◌/◌, ◌%◌, ◌^◌, ◌<◌, ◌≡◌, refl, sym, ap, ◌∙◌, Bool, true, false, [], ◌∷◌,
  ◌++◌, ◌==◌, ltb, if◌then◌else◌, not, length, Bytes, arith, All, IsByte, holds_below,
  holds_below-at, ==_iff,
}
use juce_simpleweb.Bytes.{back_is}
use juce_simpleweb.Base64.{
  digit, encode_blocks, encoded_length, base64_encode, b64_index, word, decode_quads, is_padded,
  full_length, decode_padded, base64_decode,
}

-- A character of the table stands for its index.
index-digit : (i : ℕ) → i < 64 → b64_index (digit i) ≡ i
unfolding holds_below b64_index
index-digit i h = (==_iff _ i).0 (holds_below-at (λ i. b64_index (digit i) == i) 64 i h refl)

-- No character of the table is the padding.
digit-not_padding : (i : ℕ) → i < 64 → (digit i == b'=') ≡ false
unfolding holds_below
digit-not_padding i h = ground (arith, holds_below-at (λ i. not (digit i == b'=')) 64 i h refl)

-- The three bytes of four indices.
word-digits :
    (a b c : ℕ)
    → IsByte a
    → IsByte b
    → IsByte c
    → word
        (digit (a / 4))
        (digit (a % 4 * 16 + b / 16))
        (digit (b % 16 * 4 + c / 64))
        (digit (c % 64))
      ≡ a * 65536 + b * 256 + c
word-digits a b c ha hb hc =
    rw
      (
        index-digit (a / 4) (omega arith),
        index-digit (a % 4 * 16 + b / 16) (omega arith),
        index-digit (b % 16 * 4 + c / 64) (omega arith),
        index-digit (c % 64) (omega arith),
      )
      (omega arith)

pub decode_quads-block :
    (a b c : ℕ) (s : Bytes)
    → IsByte a
    → IsByte b
    → IsByte c
    → decode_quads (
        digit (a / 4)
        ∷ digit (a % 4 * 16 + b / 16)
        ∷ digit (b % 16 * 4 + c / 64)
        ∷ digit (c % 64)
        ∷ s)
      ≡ a ∷ b ∷ c ∷ decode_quads s
unfolding decode_quads
decode_quads-block a b c s ha hb hc = rw (word-digits a b c ha hb hc, ea, eb, ec)
  where
    ea : (a * 65536 + b * 256 + c) / 2 ^ 16 % 256 ≡ a
    ea = omega arith

    eb : (a * 65536 + b * 256 + c) / 2 ^ 8 % 256 ≡ b
    eb = omega arith

    ec : (a * 65536 + b * 256 + c) % 256 ≡ c
    ec = omega arith

-- A quad in front of more characters is decoded on its own.
is_padded-quad : (w x y z v : ℕ) (s : Bytes) → is_padded (w ∷ x ∷ y ∷ z ∷ v ∷ s) ≡ is_padded (v ∷ s)
unfolding back_is
is_padded-quad w x y z v s =
    rw (positive (suc (suc (suc (suc (length s))))), positive (length s), same (length s))
  where
    positive : (n : ℕ) → ltb 0 (suc n) ≡ true
    positive n = ground arith

    same : (n : ℕ) → suc (suc (suc (suc (suc n)))) % 4 ≡ suc n % 4
    same n = omega arith

full_length-quad :
    (w x y z v : ℕ) (s : Bytes)
    → full_length (w ∷ x ∷ y ∷ z ∷ v ∷ s) ≡ suc (suc (suc (suc (full_length (v ∷ s)))))
full_length-quad w x y z v s =
    ap (λ p. ((length (w ∷ x ∷ y ∷ z ∷ v ∷ s) + 3) / 4 - (if p then 1 else 0)) * 4)
      (is_padded-quad w x y z v s)
    ∙ shift (is_padded (v ∷ s)) (length s)
  where
    shift :
        (p : Bool) (n : ℕ)
        → ((suc (suc (suc (suc (suc n)))) + 3) / 4 - (if p then 1 else 0)) * 4
          ≡ suc (suc (suc (suc (((suc n + 3) / 4 - (if p then 1 else 0)) * 4))))
    shift true n = omega arith
    shift false n = omega arith

pub base64_decode-quad :
    (w x y z v : ℕ) (s : Bytes)
    → base64_decode (w ∷ x ∷ y ∷ z ∷ v ∷ s)
      ≡ decode_quads (w ∷ x ∷ y ∷ z ∷ []) ++ base64_decode (v ∷ s)
unfolding base64_decode decode_quads
base64_decode-quad w x y z v s = rw (full_length-quad w x y z v s, is_padded-quad w x y z v s)

encode_blocks-cons : (a : ℕ) (s : Bytes) → (v : ℕ) × (t : Bytes) × (encode_blocks (a ∷ s) ≡ v ∷ t)
unfolding encode_blocks
encode_blocks-cons a [] = (digit (a / 4), _, refl)
encode_blocks-cons a (b ∷ []) = (digit (a / 4), _, refl)
encode_blocks-cons a (b ∷ c ∷ s) = (digit (a / 4), _, refl)

encode_blocks-block :
    (a b c : ℕ) (s : Bytes)
    → encode_blocks (a ∷ b ∷ c ∷ s)
      ≡ digit (a / 4)
        ∷ digit (a % 4 * 16 + b / 16)
        ∷ digit (b % 16 * 4 + c / 64)
        ∷ digit (c % 64)
        ∷ encode_blocks s
unfolding encode_blocks
encode_blocks-block a b c s = refl

decode_quads-nil : decode_quads [] ≡ []
unfolding decode_quads
decode_quads-nil = refl

base64_decode-nil : base64_decode (encode_blocks []) ≡ []
unfolding base64_decode encode_blocks decode_quads
base64_decode-nil = refl

base64_decode-one : (a : ℕ) → IsByte a → base64_decode (encode_blocks (a ∷ [])) ≡ a ∷ []
unfolding base64_decode encode_blocks decode_quads decode_padded back_is
base64_decode-one a h =
    rw (index-digit (a / 4) (omega arith), index-digit (a % 4 * 16) (omega arith))
      (ap (λ x. x ∷ []) first)
  where
    first : (a / 4 * 262144 + a % 4 * 16 * 4096) / 65536 % 256 ≡ a
    first = omega arith

base64_decode-two :
    (a b : ℕ) → IsByte a → IsByte b → base64_decode (encode_blocks (a ∷ b ∷ [])) ≡ a ∷ b ∷ []
unfolding base64_decode encode_blocks decode_quads decode_padded back_is
base64_decode-two a b h k = rw (
  index-digit (a / 4) (omega arith),
  index-digit (a % 4 * 16 + b / 16) (omega arith),
  digit-not_padding (b % 16 * 4) (omega arith),
  index-digit (b % 16 * 4) (omega arith),
  first,
  second,
)
  where
    first : (a / 4 * 262144 + (a % 4 * 16 + b / 16) * 4096) / 65536 % 256 ≡ a
    first = omega arith

    second : (a / 4 * 262144 + (a % 4 * 16 + b / 16) * 4096 + b % 16 * 4 * 64) / 256 % 256 ≡ b
    second = omega arith

base64_decode-three :
    (a b c : ℕ)
    → IsByte a
    → IsByte b
    → IsByte c
    → base64_decode (encode_blocks (a ∷ b ∷ c ∷ [])) ≡ a ∷ b ∷ c ∷ []
unfolding base64_decode encode_blocks decode_padded back_is
base64_decode-three a b c ha hb hc = rw (
  digit-not_padding (c % 64) (omega arith),
  decode_quads-block a b c [] ha hb hc,
  decode_quads-nil,
)

base64_decode-blocks : (s : Bytes) → All IsByte s → base64_decode (encode_blocks s) ≡ s
base64_decode-blocks [] h = base64_decode-nil
base64_decode-blocks (a ∷ []) (h, k) = base64_decode-one a h
base64_decode-blocks (a ∷ b ∷ []) (h, (k, l)) = base64_decode-two a b h k
base64_decode-blocks (a ∷ b ∷ c ∷ []) (h, (k, (l, m))) = base64_decode-three a b c h k l
base64_decode-blocks (a ∷ b ∷ c ∷ d ∷ s) (h, (k, (l, m))) =
    let (v, t, e) = encode_blocks-cons d s in
    ap base64_decode (encode_blocks-block a b c (d ∷ s))
    ∙ ap
        (λ r. base64_decode (
          digit (a / 4)
          ∷ digit (a % 4 * 16 + b / 16)
          ∷ digit (b % 16 * 4 + c / 64)
          ∷ digit (c % 64)
          ∷ r))
        e
    ∙ base64_decode-quad _ _ _ _ v t
    ∙ ap (λ r. r ++ base64_decode (v ∷ t)) (decode_quads-block a b c [] h k l)
    ∙ ap (λ r. a ∷ b ∷ c ∷ (r ++ base64_decode (v ∷ t))) decode_quads-nil
    ∙ ap (λ r. a ∷ b ∷ c ∷ base64_decode r) (sym e)
    ∙ ap (λ r. a ∷ b ∷ c ∷ r) (base64_decode-blocks (d ∷ s) m)

-- Decoding an encoded string gives it back, for any bytes. The string is so short that the size of
-- the encoded one fits in an `int`.
pub base64_decode-base64_encode :
    (s : Bytes) → All IsByte s → length s < 2 ^ 30 → base64_decode (base64_encode s) ≡ s
unfolding base64_encode
base64_decode-base64_encode s h b = rw (no_overflow (length s) b) (base64_decode-blocks s h)
  where
    no_overflow : (n : ℕ) → n < 2 ^ 30 → ltb (encoded_length n) n ≡ false
    no_overflow n h = ground arith

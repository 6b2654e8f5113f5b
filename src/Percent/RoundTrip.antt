-- ===== src/Percent/RoundTrip.antt =====
-- common/utility.hpp, class Percent: what `encode` writes, `decode` reads back.
use juce_simpleweb.Prelude.{
  holds_below, holds_below-at, ℕ, ◌/◌, ◌%◌, ◌<◌, ◌≡◌, refl, sym, ap, ◌∙◌, inl, inr, Bool, true,
  false, ◌||◌, [], ◌∷◌, ◌++◌, append_assoc, append-nil, arith, ◌==◌, ==_iff, Bool-cases, get_or,
  Bytes, IsByte, All, All-append,
}
use juce_simpleweb.Percent.{
  is_unreserved, hex_chars, encode_char, encode, decoded_chr, plain_chr, decode,
}

abbrev decodes : ℕ → Bool
decodes x = decoded_chr (get_or hex_chars (x / 16) 0) (get_or hex_chars (x % 16) 0) == x

decodes_table : holds_below decodes 256 ≡ true
unfolding holds_below decoded_chr
decodes_table = refl

-- The two hexadecimal digits of a byte stand for it.
decoded_chr-hex_chars :
    (x : ℕ) → IsByte x → decoded_chr (get_or hex_chars (x / 16) 0) (get_or hex_chars (x % 16) 0) ≡ x
decoded_chr-hex_chars x h = (==_iff _ x).0 (holds_below-at decodes 256 x h decodes_table)

decode-plain :
    (c : ℕ) (rest : Bytes) → (c == b'%') ≡ false → decode (c ∷ rest) ≡ plain_chr c ∷ decode rest
unfolding decode
decode-plain c [] h = refl
decode-plain c (a ∷ []) h = refl
decode-plain c (a ∷ b ∷ rest) h = rw (h, decode)

unreserved-plain : (c : ℕ) → is_unreserved c ≡ true → ((c == b'%') ≡ false) × ((c == b'+') ≡ false)
unfolding is_unreserved
unreserved-plain c h = ground arith

encode_char-copied : (c : ℕ) → is_unreserved c ≡ true → encode_char c ≡ c ∷ []
unfolding encode_char
encode_char-copied c h = rw h

encode_char-escaped :
    (c : ℕ)
    → is_unreserved c ≡ false
    → encode_char c ≡ b'%' ∷ get_or hex_chars (c / 16) 0 ∷ get_or hex_chars (c % 16) 0 ∷ []
unfolding encode_char
encode_char-escaped c h = rw h

plain_chr-unreserved : (c : ℕ) → (c == b'+') ≡ false → plain_chr c ≡ c
plain_chr-unreserved c h = rw h

decode-escape :
    (a b : ℕ) (rest : Bytes) → decode (b'%' ∷ a ∷ b ∷ rest) ≡ decoded_chr a b ∷ decode rest
unfolding decode
decode-escape a b rest = refl

decode-encode_char :
    (c : ℕ) (rest : Bytes) → IsByte c → decode (encode_char c ++ rest) ≡ c ∷ decode rest
decode-encode_char c rest b = elim (Bool-cases (is_unreserved c)) [
  | inl copied ↦
      rw (encode_char-copied c copied, decode-plain c rest (unreserved-plain c copied).0)
        (ap (λ d. d ∷ decode rest) (plain_chr-unreserved c (unreserved-plain c copied).1))
  | inr escaped ↦
      rw (encode_char-escaped c escaped)
        (decode-escape _ _ rest ∙ ap (λ d. d ∷ decode rest) (decoded_chr-hex_chars c b))
]

-- Decoding what was encoded gives the string back, whatever follows it.
pub decode-encode_append :
    (value rest : Bytes) → All IsByte value → decode (encode value ++ rest) ≡ value ++ decode rest
unfolding encode
decode-encode_append [] rest h = refl
decode-encode_append (c ∷ value) rest h = rw (append_assoc (encode_char c) (encode value) rest) (
    decode-encode_char c (encode value ++ rest) h.0
    ∙ ap (◌∷◌ c) (decode-encode_append value rest h.1))

-- Percent-decoding undoes percent-encoding on every byte string.
pub decode-encode : (value : Bytes) → All IsByte value → decode (encode value) ≡ value
unfolding decode
decode-encode value h =
    ap decode (sym (append-nil (encode value))) ∙ decode-encode_append value [] h ∙ append-nil value

abbrev pub IsUrlSafe : ℕ → Type 0
IsUrlSafe c = (is_unreserved c || c == b'%') ≡ true

hex_chars-IsUrlSafe : (x : ℕ) → x < 16 → IsUrlSafe (get_or hex_chars x 0)
unfolding holds_below is_unreserved
hex_chars-IsUrlSafe x h =
    holds_below-at (λ x. is_unreserved (get_or hex_chars x 0) || get_or hex_chars x 0 == b'%') 16 x
      h safe_table
  where
    safe_table :
        holds_below (λ x. is_unreserved (get_or hex_chars x 0) || get_or hex_chars x 0 == b'%') 16
        ≡ true
    safe_table = refl

pub ampersand_unsafe : ¬ IsUrlSafe b'&'
unfolding is_unreserved
ampersand_unsafe h = cc

percent-IsUrlSafe : IsUrlSafe b'%'
unfolding is_unreserved
percent-IsUrlSafe = refl

encode_char-IsUrlSafe : (c : ℕ) → IsByte c → All IsUrlSafe (encode_char c)
encode_char-IsUrlSafe c b = elim (Bool-cases (is_unreserved c)) [
  | inl copied ↦ rw (encode_char-copied c copied) (rw copied, tt)
  | inr escaped ↦ rw (encode_char-escaped c escaped) (
    percent-IsUrlSafe,
    (hex_chars-IsUrlSafe (c / 16) (omega arith), (hex_chars-IsUrlSafe (c % 16) (omega arith), tt)),
  )
]

-- Encoded bytes are unreserved characters and percent signs only.
pub encode-IsUrlSafe : (value : Bytes) → All IsByte value → All IsUrlSafe (encode value)
unfolding encode
encode-IsUrlSafe [] h = tt
encode-IsUrlSafe (c ∷ value) h =
    All-append IsUrlSafe (encode_char c) (encode value) (encode_char-IsUrlSafe c h.0)
      (encode-IsUrlSafe value h.1)

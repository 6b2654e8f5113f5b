-- ===== src/Base64.antt =====
-- common/WSCrypto.cpp: base64_encode and base64_decode. A shift and an or of disjoint bits is a
-- sum; `data.c_str()` ends with a NUL, so a byte behind the last is 0. The decoded string is
-- shorter than 2^31, the range of the `int` that holds its size.
pub mod RoundTrip
pub mod Text
use juce_simpleweb.Prelude.{
  ℕ, ◌+◌, ◌-◌, ◌*◌, ◌/◌, ◌%◌, ◌^◌, Bool, true, false, [], ◌∷◌, ◌++◌, ◌==◌, leb, ltb, if◌then◌else◌,
  ◌&&◌, ◌||◌, not, length, get_or, take, drop, Bytes, codes,
}
use juce_simpleweb.Bytes.{back_is}

abbrev pub base64_table : Bytes
base64_table = codes "ABCDEFGHIJKLMNOPQRSTUVWXYZabcdefghijklmnopqrstuvwxyz0123456789+/"

abbrev pub digit : ℕ → ℕ
digit i = get_or base64_table i 0

-- The loop over blocks of three bytes, and the block behind it.
unfoldable pub encode_blocks : Bytes → Bytes
encode_blocks (a ∷ b ∷ c ∷ src) =
    digit (a / 4)
    ∷ digit (a % 4 * 16 + b / 16)
    ∷ digit (b % 16 * 4 + c / 64)
    ∷ digit (c % 64)
    ∷ encode_blocks src
encode_blocks [] = []
encode_blocks (a ∷ []) = digit (a / 4) ∷ digit (a % 4 * 16) ∷ b'=' ∷ b'=' ∷ []
encode_blocks (a ∷ b ∷ []) =
    digit (a / 4) ∷ digit (a % 4 * 16 + b / 16) ∷ digit (b % 16 * 4) ∷ b'=' ∷ []

-- `olen`, in the 32 bits of `len`.
abbrev pub encoded_length : ℕ → ℕ
encoded_length len = 4 * ((len + 2) % 2 ^ 32 / 3) % 2 ^ 32

unfoldable pub base64_encode : Bytes → Bytes
base64_encode src = if ltb (encoded_length (length src)) (length src) then [] else encode_blocks src

-- The table from its first entry that is not 0, that of `+`, on.
abbrev b64_from_plus : Bytes
b64_from_plus =
    62 ∷ 63 ∷ 62 ∷ 62 ∷ 63 ∷ 52 ∷ 53 ∷ 54 ∷ 55 ∷ 56 ∷ 57 ∷ 58 ∷ 59 ∷ 60 ∷ 61 ∷ 0 ∷ 0 ∷ 0 ∷ 0 ∷ 0 ∷ 0
    ∷ 0 ∷ 0 ∷ 1 ∷ 2 ∷ 3 ∷ 4 ∷ 5 ∷ 6 ∷ 7 ∷ 8 ∷ 9 ∷ 10 ∷ 11 ∷ 12 ∷ 13 ∷ 14 ∷ 15 ∷ 16 ∷ 17 ∷ 18 ∷ 19
    ∷ 20 ∷ 21 ∷ 22 ∷ 23 ∷ 24 ∷ 25 ∷ 0 ∷ 0 ∷ 0 ∷ 0 ∷ 63 ∷ 0 ∷ 26 ∷ 27 ∷ 28 ∷ 29 ∷ 30 ∷ 31 ∷ 32 ∷ 33
    ∷ 34 ∷ 35 ∷ 36 ∷ 37 ∷ 38 ∷ 39 ∷ 40 ∷ 41 ∷ 42 ∷ 43 ∷ 44 ∷ 45 ∷ 46 ∷ 47 ∷ 48 ∷ 49 ∷ 50 ∷ 51 ∷ []

-- `B64index`.
unfoldable pub b64_index : ℕ → ℕ
b64_index c = if ltb c 43 then 0 else get_or b64_from_plus (c - 43) 0

-- `n` of four characters, and its bytes.
abbrev pub word : ℕ → ℕ → ℕ → ℕ → ℕ
word w x y z = b64_index w * 2 ^ 18 + b64_index x * 2 ^ 12 + b64_index y * 2 ^ 6 + b64_index z

unfoldable pub decode_quads : Bytes → Bytes
decode_quads (w ∷ x ∷ y ∷ z ∷ s) =
    word w x y z / 2 ^ 16 % 256 ∷ word w x y z / 2 ^ 8 % 256 ∷ word w x y z % 256 ∷ decode_quads s
decode_quads s = []

-- Whether the last quad is padded, and the size `L` of the quads before it.
abbrev pub is_padded : Bytes → Bool
is_padded encoded =
    ltb 0 (length encoded) && (not (length encoded % 4 == 0) || back_is b'=' encoded)

abbrev pub full_length : Bytes → ℕ
full_length encoded = ((length encoded + 3) / 4 - (if is_padded encoded then 1 else 0)) * 4

-- The bytes of the padded quad, whose characters from `L` on are given.
unfoldable pub decode_padded : Bytes → Bytes
decode_padded p =
    let n = b64_index (get_or p 0 0) * 2 ^ 18 + b64_index (get_or p 1 0) * 2 ^ 12 in
    n / 2 ^ 16 % 256
    ∷ (if ltb 2 (length p) && not (get_or p 2 0 == b'=')
        then (n + b64_index (get_or p 2 0) * 2 ^ 6) / 2 ^ 8 % 256 ∷ []
        else [])

unfoldable pub base64_decode : Bytes → Bytes
base64_decode encoded =
    decode_quads (take (full_length encoded) encoded)
    ++ (if is_padded encoded then decode_padded (drop (full_length encoded) encoded) else [])

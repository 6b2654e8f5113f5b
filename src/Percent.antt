-- ===== src/Percent.antt =====
-- common/utility.hpp, class Percent: percent-encoding and decoding of strings. A `char` is its
-- byte, a number below 256.
pub mod RoundTrip
use juce_simpleweb.Prelude.{
  ℕ, ◌+◌, ◌-◌, ◌*◌, ◌/◌, ◌%◌, Bool, true, false, ◌&&◌, ◌||◌, not, Option, none, some, [], ◌∷◌, ◌++◌,
  leb, ◌==◌, if◌then◌else◌, get_or, Bytes, codes,
}

-- The characters that `encode` copies.
pub is_unreserved : ℕ → Bool
is_unreserved chr =
    (leb b'0' chr && leb chr b'9')
    || (leb b'A' chr && leb chr b'Z')
    || (leb b'a' chr && leb chr b'z')
    || chr == b'-'
    || chr == b'.'
    || chr == b'_'
    || chr == b'~'

abbrev pub hex_chars : Bytes
hex_chars = codes "0123456789ABCDEF"

-- One round of the loop of `encode`.
encode_char : ℕ → Bytes
encode_char chr =
    if not (is_unreserved chr)
    then b'%' ∷ get_or hex_chars (chr / 16) 0 ∷ get_or hex_chars (chr % 16) 0 ∷ []
    else chr ∷ []

unfoldable pub encode : Bytes → Bytes
unfolding encode_char is_unreserved
encode [] = []
encode (chr ∷ value) = encode_char chr ++ encode value

-- `std::strtol(s, nullptr, 16)`, as the sign and the magnitude.
abbrev is_space : ℕ → Bool
is_space c = c == b' ' || (leb 9 c && leb c 13)

abbrev hex_digit : ℕ → Option ℕ
hex_digit c =
    if leb b'0' c && leb c b'9'
    then some (c - b'0')
    else if leb b'A' c && leb c b'F'
    then some (c - b'A' + 10)
    else if leb b'a' c && leb c b'f'
    then some (c - b'a' + 10)
    else none

strtol_digits : ℕ → Bytes → ℕ
strtol_digits n [] = n
strtol_digits n (c ∷ s) = elim (hex_digit c) [ none ↦ n | some d ↦ strtol_digits (n * 16 + d) s ]

-- A prefix 0x counts only before a digit; otherwise the number is the 0 itself.
strtol_prefix : Bytes → ℕ
unfolding strtol_digits
strtol_prefix (z ∷ x ∷ d ∷ s) =
    if z == b'0' && (x == b'x' || x == b'X')
    then elim (hex_digit d) [ none ↦ 0 | some _ ↦ strtol_digits 0 (d ∷ s) ]
    else strtol_digits 0 (z ∷ x ∷ d ∷ s)
strtol_prefix s = strtol_digits 0 s

strtol_sign : Bytes → Bool × ℕ
unfolding strtol_prefix
strtol_sign [] = (false, 0)
strtol_sign (c ∷ s) =
    if c == b'-'
    then (true, strtol_prefix s)
    else if c == b'+'
    then (false, strtol_prefix s)
    else (false, strtol_prefix (c ∷ s))

strtol_hex : Bytes → Bool × ℕ
unfolding strtol_sign
strtol_hex [] = (false, 0)
strtol_hex (c ∷ s) = elim (is_space c) [ true ↦ strtol_hex s | false ↦ strtol_sign (c ∷ s) ]

-- The cast of the `long` to `char`.
abbrev char_of_long : Bool × ℕ → ℕ
char_of_long (negative, n) = if negative then (256 - n % 256) % 256 else n % 256

unfoldable pub decoded_chr : ℕ → ℕ → ℕ
unfolding strtol_hex
decoded_chr a b = char_of_long (strtol_hex (a ∷ b ∷ []))

-- The two other branches of the loop of `decode`.
abbrev pub plain_chr : ℕ → ℕ
plain_chr chr = if chr == b'+' then b' ' else chr

-- `i + 2 < value.size()` holds where two more characters follow.
unfoldable pub decode : Bytes → Bytes
decode [] = []
decode (chr ∷ []) = plain_chr chr ∷ []
decode (chr ∷ a ∷ []) = plain_chr chr ∷ decode (a ∷ [])
decode (chr ∷ a ∷ b ∷ value) = elim (chr == b'%') [
  | true ↦ decoded_chr a b ∷ decode value
  | false ↦ plain_chr chr ∷ decode (a ∷ b ∷ value)
]

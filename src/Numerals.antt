-- ===== src/Numerals.antt =====
-- The conversions of the C++ library that the HTTP server calls: `std::stoull(s)`, `std::stoul(s,
-- 0, 16)` and `ostream << n` for a number of 64 bits. An unsigned long is taken to
-- have 64 bits, as it has on Linux and macOS; on Windows it has 32. An exception is `none`.
pub mod RoundTrip
use juce_simpleweb.Prelude.{
  ℕ, zero, suc, ◌+◌, ◌-◌, ◌*◌, ◌/◌, ◌%◌, ◌^◌, Bool, true, false, ◌&&◌, ◌||◌, Option, none, some, [],
  ◌∷◌, ◌++◌, leb, ltb, ◌==◌, if◌then◌else◌, Bytes,
}

-- The value of a digit in bases up to 36; 99 for any other byte.
abbrev pub digit_value : ℕ → ℕ
digit_value c =
    if leb b'0' c && leb c b'9'
    then c - b'0'
    else if leb b'A' c && leb c b'Z'
    then c - b'A' + 10
    else if leb b'a' c && leb c b'z'
    then c - b'a' + 10
    else 99

-- The number that the digits at the front spell, after `n`.
unfoldable pub read_digits : ℕ → ℕ → Bytes → ℕ
read_digits base n [] = n
read_digits base n (c ∷ s) = elim (ltb (digit_value c) base) [
  | true ↦ read_digits base (n * base + digit_value c) s
  | false ↦ n
]

-- At least one digit.
unfoldable pub read_number : ℕ → Bytes → Option ℕ
read_number base [] = none
read_number base (c ∷ s) =
    if ltb (digit_value c) base then some (read_digits base 0 (c ∷ s)) else none

-- In base 16 a prefix 0x counts where a digit follows it.
unfoldable pub read_prefixed : ℕ → Bytes → Option ℕ
read_prefixed base (z ∷ x ∷ d ∷ s) =
    if (base == 16 && z == b'0') && ((x == b'x' || x == b'X') && ltb (digit_value d) 16)
    then read_number base (d ∷ s)
    else read_number base (z ∷ x ∷ d ∷ s)
read_prefixed base s = read_number base s

-- A negative number wraps; one of more than 64 bits is out of range.
abbrev pub in_range : Bool → Option ℕ → Option ℕ
in_range negative none = none
in_range negative (some n) =
    if ltb n (2 ^ 64) then some (if negative then (2 ^ 64 - n) % 2 ^ 64 else n) else none

unfoldable pub read_signed : ℕ → Bytes → Option ℕ
read_signed base [] = none
read_signed base (c ∷ s) =
    if c == b'-'
    then in_range true (read_prefixed base s)
    else if c == b'+'
    then in_range false (read_prefixed base s)
    else in_range false (read_prefixed base (c ∷ s))

abbrev pub is_space : ℕ → Bool
is_space c = c == b' ' || (leb 9 c && leb c 13)

unfoldable pub stoul : ℕ → Bytes → Option ℕ
stoul base [] = none
stoul base (c ∷ s) = elim (is_space c) [ true ↦ stoul base s | false ↦ read_signed base (c ∷ s) ]

-- The decimal digits, with the fuel `n` of the number itself.
unfoldable pub decimal_fuel : ℕ → ℕ → Bytes
decimal_fuel zero n = (n % 10 + b'0') ∷ []
decimal_fuel (suc f) n = elim (ltb n 10) [
  | true ↦ (n + b'0') ∷ []
  | false ↦ decimal_fuel f (n / 10) ++ (n % 10 + b'0') ∷ []
]

unfoldable pub decimal_text : ℕ → Bytes
decimal_text n = decimal_fuel n n

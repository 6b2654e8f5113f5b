-- ===== src/Numerals/RoundTrip.antt =====
-- The conversions of the C++ library: a number that is written is read back.
use juce_simpleweb.Prelude.{
  ℕ, zero, suc, ◌+◌, ◌-◌, ◌*◌, ◌/◌, ◌%◌, ◌^◌, ◌≤◌, ◌<◌, ◌≡◌, refl, sym, ap, ◌∙◌, true, false, some,
  [], ◌∷◌, ◌++◌, ltb, Bytes, arith, All, All-append, Bool-cases, inl, inr, lt→ltb, ne→==_false,
}
use juce_simpleweb.Numerals.{
  digit_value, read_digits, read_number, read_prefixed, in_range, read_signed, is_space, stoul,
  decimal_fuel, decimal_text,
}

abbrev pub IsDecimal : ℕ → Type 0
IsDecimal c = (48 ≤ c) × (c < 58)

digit_value-decimal : (c : ℕ) → IsDecimal c → digit_value c ≡ c - 48
digit_value-decimal c h = ground arith

is_digit-decimal : (c : ℕ) → IsDecimal c → ltb (digit_value c) 10 ≡ true
is_digit-decimal c h = ground arith

read_digits-nil : (n : ℕ) → read_digits 10 n [] ≡ n
unfolding read_digits
read_digits-nil n = refl

read_digits-cons :
    (n c : ℕ) (s : Bytes)
    → IsDecimal c
    → read_digits 10 n (c ∷ s) ≡ read_digits 10 (n * 10 + (c - 48)) s
unfolding read_digits
read_digits-cons n c s h =
    rw (is_digit-decimal c h, read_digits)
      (ap (λ v. read_digits 10 (n * 10 + v) s) (digit_value-decimal c h))

read_digits-append :
    (n : ℕ) (s : Bytes) (c : ℕ)
    → All IsDecimal s
    → IsDecimal c
    → read_digits 10 n (s ++ c ∷ []) ≡ read_digits 10 n s * 10 + (c - 48)
read_digits-append n [] c h k =
    read_digits-cons n c [] k
    ∙ read_digits-nil (n * 10 + (c - 48))
    ∙ ap (λ m. m * 10 + (c - 48)) (sym (read_digits-nil n))
read_digits-append n (x ∷ s) c (h, hs) k =
    read_digits-cons n x (s ++ c ∷ []) h
    ∙ read_digits-append (n * 10 + (x - 48)) s c hs k
    ∙ ap (λ m. m * 10 + (c - 48)) (sym (read_digits-cons n x s h))

decimal_fuel-low : (f n : ℕ) → ltb n 10 ≡ true → decimal_fuel (suc f) n ≡ (n + b'0') ∷ []
unfolding decimal_fuel
decimal_fuel-low f n h = rw (h, decimal_fuel)

decimal_fuel-high :
    (f n : ℕ)
    → ltb n 10 ≡ false
    → decimal_fuel (suc f) n ≡ decimal_fuel f (n / 10) ++ (n % 10 + b'0') ∷ []
unfolding decimal_fuel
decimal_fuel-high f n h = rw (h, decimal_fuel)

decimal_fuel-zero : (n : ℕ) → decimal_fuel zero n ≡ (n % 10 + b'0') ∷ []
unfolding decimal_fuel
decimal_fuel-zero n = refl

decimal_fuel-IsDecimal : (f n : ℕ) → All IsDecimal (decimal_fuel f n)
decimal_fuel-IsDecimal zero n = rw (decimal_fuel-zero n) (omega arith, tt)
decimal_fuel-IsDecimal (suc f) n = elim (Bool-cases (ltb n 10)) [
  | inl low ↦ rw (decimal_fuel-low f n low) (ground arith, tt)
  | inr high ↦ rw (decimal_fuel-high f n high) (
      All-append IsDecimal (decimal_fuel f (n / 10)) ((n % 10 + b'0') ∷ [])
        (decimal_fuel-IsDecimal f (n / 10)) (omega arith, tt))
]

read_digits-one : (n c : ℕ) → IsDecimal c → read_digits 10 n (c ∷ []) ≡ n * 10 + (c - 48)
read_digits-one n c h = read_digits-cons n c [] h ∙ read_digits-nil (n * 10 + (c - 48))

read_digits-decimal_fuel : (f n : ℕ) → n ≤ f → read_digits 10 0 (decimal_fuel f n) ≡ n
read_digits-decimal_fuel zero n h =
    rw (decimal_fuel-zero n) (read_digits-one 0 (n % 10 + b'0') (omega arith) ∙ omega arith)
read_digits-decimal_fuel (suc f) n h = elim (Bool-cases (ltb n 10)) [
  | inl low ↦
      rw (decimal_fuel-low f n low) (read_digits-one 0 (n + b'0') (ground arith) ∙ omega arith)
  | inr high ↦ rw (decimal_fuel-high f n high) (
      read_digits-append 0 (decimal_fuel f (n / 10)) (n % 10 + b'0')
        (decimal_fuel-IsDecimal f (n / 10)) (omega arith)
      ∙ ground (arith, read_digits-decimal_fuel f (n / 10)))
]

-- The text of a number starts with a digit.
decimal_fuel-cons : (f n : ℕ) → (c : ℕ) × (s : Bytes) × (decimal_fuel f n ≡ c ∷ s)
decimal_fuel-cons zero n = (n % 10 + b'0', [], decimal_fuel-zero n)
decimal_fuel-cons (suc f) n = elim (Bool-cases (ltb n 10)) [
  | inl low ↦ (n + b'0', [], decimal_fuel-low f n low)
  | inr high ↦
      let (c, s, e) = decimal_fuel-cons f (n / 10) in
      (c, s ++ (n % 10 + b'0') ∷ [], decimal_fuel-high f n high ∙ rw e)
]

read_prefixed-ten : (s : Bytes) → read_prefixed 10 s ≡ read_number 10 s
unfolding read_prefixed
read_prefixed-ten [] = refl
read_prefixed-ten (a ∷ []) = refl
read_prefixed-ten (a ∷ b ∷ []) = refl
read_prefixed-ten (a ∷ b ∷ c ∷ s) = refl

read_number-decimal :
    (c : ℕ) (s : Bytes) → IsDecimal c → read_number 10 (c ∷ s) ≡ some (read_digits 10 0 (c ∷ s))
unfolding read_number
read_number-decimal c s h = rw (is_digit-decimal c h, read_number)

read_signed-decimal :
    (c : ℕ) (s : Bytes)
    → IsDecimal c
    → read_signed 10 (c ∷ s) ≡ in_range false (some (read_digits 10 0 (c ∷ s)))
unfolding read_signed
read_signed-decimal c s h =
    rw (ne→==_false c b'-' (omega arith), ne→==_false c b'+' (omega arith), read_signed)
      (ap (in_range false) (read_prefixed-ten (c ∷ s) ∙ read_number-decimal c s h))

stoul-decimal :
    (c : ℕ) (s : Bytes)
    → IsDecimal c
    → stoul 10 (c ∷ s) ≡ in_range false (some (read_digits 10 0 (c ∷ s)))
unfolding stoul
stoul-decimal c s h = rw (not_space, stoul) (read_signed-decimal c s h)
  where
    not_space : is_space c ≡ false
    not_space = ground arith

-- A decimal text is read as its number, if that has 64 bits.
pub stoul-decimal_text : (n : ℕ) → n < 2 ^ 64 → stoul 10 (decimal_text n) ≡ some n
unfolding decimal_text
stoul-decimal_text n h =
    let (c, s, e) = decimal_fuel-cons n n in
    let digits = rw e at (decimal_fuel-IsDecimal n n) in
    let value : read_digits 10 0 (c ∷ s) ≡ n =
      ap (read_digits 10 0) (sym e) ∙ read_digits-decimal_fuel n n (omega arith) in
    ap (stoul 10) e
    ∙ stoul-decimal c s digits.0
    ∙ ap (λ m. in_range false (some m)) value
    ∙ rw (lt→ltb n (2 ^ 64) h)

-- A decimal text is not empty, and has digits only.
pub decimal_text-IsDecimal :
    (n : ℕ) → (c : ℕ) × (s : Bytes) × (decimal_text n ≡ c ∷ s) × All IsDecimal (c ∷ s)
unfolding decimal_text
decimal_text-IsDecimal n =
    let (c, s, e) = decimal_fuel-cons n n in (c, s, e, rw e at (decimal_fuel-IsDecimal n n))

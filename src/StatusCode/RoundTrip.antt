-- ===== src/StatusCode/RoundTrip.antt =====
-- common/status_code.hpp: the codes of the texts, and the texts of the codes.
use juce_simpleweb.Prelude.{
  ℕ, ◌+◌, ◌/◌, ◌%◌, ◌<◌, ◌≡◌, ◌≢◌, refl, ◌∙◌, Bool, true, [], ◌∷◌, ◌==◌, Bytes, holds_below,
  holds_below-at, ==_iff,
}
use juce_simpleweb.StatusCode.{status_code, status_text, code_of, text_of}

-- Three decimal digits, as bytes.
abbrev pub decimal : ℕ → Bytes → Bytes
decimal n rest = (n / 100 + b'0') ∷ (n / 10 % 10 + b'0') ∷ (n % 10 + b'0') ∷ rest

status_code-take :
    (a b c : ℕ) (rest : Bytes) → status_code (a ∷ b ∷ c ∷ rest) ≡ status_code (a ∷ b ∷ c ∷ [])
unfolding status_code
status_code-take a b c rest = refl

-- A text that starts with the three digits of a number below 1000 has this number as its code,
-- whether or not the table has an entry for it.
pub status_code-decimal : (n : ℕ) (rest : Bytes) → n < 1000 → status_code (decimal n rest) ≡ n
unfolding holds_below status_code code_of
status_code-decimal n rest h =
    status_code-take (n / 100 + b'0') (n / 10 % 10 + b'0') (n % 10 + b'0') rest
    ∙ (==_iff _ n).0 (holds_below-at (λ n. status_code (decimal n []) == n) 1000 n h refl)

abbrev agrees : Bytes → ℕ → Bool
agrees [] n = true
agrees (c ∷ text) n = status_code (c ∷ text) == n

texts_agree : holds_below (λ n. agrees (status_text n) n) 1000 ≡ true
unfolding holds_below status_code status_text code_of text_of
texts_agree = refl

agrees_sound : (text : Bytes) (n : ℕ) → agrees text n ≡ true → text ≢ [] → status_code text ≡ n
agrees_sound [] n h k = absurd (k refl)
agrees_sound (c ∷ text) n h k = (==_iff _ n).0 h

-- The text of a code below 1000, where it is not empty, gives the code back.
pub status_code-status_text :
    (n : ℕ) → n < 1000 → status_text n ≢ [] → status_code (status_text n) ≡ n
status_code-status_text n h k =
    agrees_sound (status_text n) n
      (holds_below-at (λ n. agrees (status_text n) n) 1000 n h texts_agree) k

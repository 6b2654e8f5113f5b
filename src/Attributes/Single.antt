-- ===== src/Attributes/Single.antt =====
-- common/utility.hpp, SemicolonSeparatedAttributes: a field value of one attribute.
use juce_simpleweb.Prelude.{
  ℕ, ◌+◌, ◌-◌, ◌≡◌, ◌≢◌, refl, ◌∙◌, false, none, some, [], ◌∷◌, ◌++◌, append_assoc, arith,
  ne→==_false, length, length-append, Bytes,
}
use juce_simpleweb.Bytes.{back_is}
use juce_simpleweb.Bytes.Search.{Free}
use juce_simpleweb.Bytes.Slices.{substr-middle, substr_from-append}
use juce_simpleweb.CaseInsensitive.{Multimap}
use juce_simpleweb.Percent
use juce_simpleweb.Attributes.{
  Positions, nowhere, scan_char, last_attribute, parse_attributes_from, parse_attributes,
}

abbrev in_name : ℕ → Positions
in_name n = record { name_start_pos = some n; name_end_pos = none; value_start_pos = none }

abbrev in_value : ℕ → ℕ → ℕ → Positions
in_value n e v = record { name_start_pos = some n; name_end_pos = some e; value_start_pos = some v }

module _ (value : Bytes) (r : Multimap) where
  first_char :
      (x : ℕ) (s : Bytes) (c : ℕ)
      → x ≢ b' '
      → x ≢ b';'
      → parse_attributes_from value (x ∷ s) c nowhere r
        ≡ parse_attributes_from value s (c + 1) (in_name c) r
  unfolding parse_attributes_from scan_char
  first_char x s c h k = rw (ne→==_false x b' ' h, ne→==_false x b';' k)

  name_char :
      (x : ℕ) (s : Bytes) (c n : ℕ)
      → x ≢ b';'
      → x ≢ b'='
      → parse_attributes_from value (x ∷ s) c (in_name n) r
        ≡ parse_attributes_from value s (c + 1) (in_name n) r
  unfolding parse_attributes_from scan_char
  name_char x s c n h k = rw (ne→==_false x b';' h, ne→==_false x b'=' k)

  name_chars :
      (name s : Bytes) (c d n : ℕ)
      → Free b';' name
      → Free b'=' name
      → c + length name ≡ d
      → parse_attributes_from value (name ++ s) c (in_name n) r
        ≡ parse_attributes_from value s d (in_name n) r
  name_chars [] s c d n h k e = let same : c ≡ d = omega arith in rw same
  name_chars (x ∷ name) s c d n h k e =
      name_char x (name ++ s) c n h.0 k.0 ∙ name_chars name s (c + 1) d n h.1 k.1 (omega arith)

  value_first :
      (x : ℕ) (s : Bytes) (c n : ℕ)
      → x ≢ b'"'
      → parse_attributes_from value (b'=' ∷ x ∷ s) c (in_name n) r
        ≡ parse_attributes_from value s (c + 1 + 1) (in_value n c (c + 1)) r
  unfolding parse_attributes_from scan_char
  value_first x s c n h = rw (ne→==_false x b'"' h)

  value_chars :
      (s : Bytes) (c n e v : ℕ)
      → Free b'"' s
      → Free b';' s
      → parse_attributes_from value s c (in_value n e v) r ≡ last_attribute value (in_value n e v) r
  unfolding parse_attributes_from scan_char
  value_chars [] c n e v h k = refl
  value_chars (x ∷ s) c n e v h k =
      rw (ne→==_false x b'"' h.0, ne→==_false x b';' k.0) (value_chars s (c + 1) n e v h.1 k.1)

back_is-Free : (c x : ℕ) (s t : Bytes) → x ≢ c → Free c t → back_is c (s ++ x ∷ t) ≡ false
unfolding back_is
back_is-Free c x [] [] h k = ne→==_false x c h
back_is-Free c x [] (y ∷ t) h k = back_is-Free c y [] t k.0 k.1
back_is-Free c x (y ∷ []) t h k = back_is-Free c x [] t h k
back_is-Free c x (y ∷ z ∷ s) t h k = back_is-Free c x (z ∷ s) t h k

-- A field value of one name, an equals sign and a value gives this one attribute, with its value
-- decoded. The value's first byte is no quotation mark, and the bytes behind it are no quotation
-- marks and no semicolons. The first byte may be a semicolon: an empty value takes in the
-- semicolon that should end it and all that follows.
pub parse_attributes-single :
    (a : ℕ) (name : Bytes) (x : ℕ) (rest : Bytes)
    → a ≢ b' '
    → Free b';' (a ∷ name)
    → Free b'=' name
    → x ≢ b'"'
    → Free b'"' rest
    → Free b';' rest
    → parse_attributes ((a ∷ name) ++ b'=' ∷ x ∷ rest) ≡ (a ∷ name, Percent.decode (x ∷ rest)) ∷ []
unfolding parse_attributes last_attribute
parse_attributes-single a name x rest h k l m q t =
    let value = (a ∷ name) ++ b'=' ∷ x ∷ rest in
    let e = length name + 1 in
    first_char value [] a (name ++ b'=' ∷ x ∷ rest) 0 h k.0
    ∙ name_chars value [] name (b'=' ∷ x ∷ rest) 1 e 0 k.1 l (omega arith)
    ∙ value_first value [] x rest e 0 m
    ∙ value_chars value [] rest (e + 1 + 1) 0 e (e + 1) q t
    ∙ rw (
      back_is-Free b'"' b'=' (a ∷ name) (x ∷ rest) (omega arith) (m, q),
      substr-middle value [] (a ∷ name) (b'=' ∷ x ∷ rest) 0 (e - 0) refl refl (omega arith),
      substr_from-append value ((a ∷ name) ++ b'=' ∷ []) (x ∷ rest) (e + 1) (simp append_assoc)
          (omega (arith, length-append name (b'=' ∷ []))),
    )

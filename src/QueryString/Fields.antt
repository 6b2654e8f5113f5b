-- ===== src/QueryString/Fields.antt =====
-- common/utility.hpp, QueryString: what the loop of `parse` finds in a field.
use juce_simpleweb.Prelude.{
  ℕ, ◌+◌, ◌-◌, ◌<◌, ◌≡◌, ◌≢◌, refl, ap, ◌∙◌, false, Option, none, some, [], ◌∷◌, ◌++◌, append_assoc,
  arith, leb, lt→ltb, if◌then◌else◌, length, length-append, Bytes,
}
use juce_simpleweb.Bytes.Search.{Free}
use juce_simpleweb.Bytes.Slices.{substr-middle, substr_from-append}
use juce_simpleweb.Bytes.{substr, substr_from}
use juce_simpleweb.CaseInsensitive.{Multimap}
use juce_simpleweb.Percent
use juce_simpleweb.QueryString.{add_field, end_field, last_field, parse_from}

module _ (q : Bytes) where
  parse_from-name :
      (name rest : Bytes) (c d p : ℕ) (r : Multimap)
      → Free b'&' name
      → Free b'=' name
      → c + length name ≡ d
      → parse_from q (name ++ rest) c p none none r ≡ parse_from q rest d p none none r
  unfolding parse_from
  parse_from-name [] rest c d p r h k e = let same : c ≡ d = omega arith in rw same
  parse_from-name (x ∷ name) rest c d p r h k e =
      plain x (name ++ rest) h.0 k.0 ∙ parse_from-name name rest (c + 1) d p r h.1 k.1 (omega arith)
    where
      plain :
          (x : ℕ) (s : Bytes)
          → x ≢ b'&'
          → x ≢ b'='
          → parse_from q (x ∷ s) c p none none r ≡ parse_from q s (c + 1) p none none r
      plain x s h k = ground arith

  parse_from-value :
      (value rest : Bytes) (c d p e v : ℕ) (r : Multimap)
      → Free b'&' value
      → c + length value ≡ d
      → parse_from q (value ++ rest) c p (some e) (some v) r
        ≡ parse_from q rest d p (some e) (some v) r
  unfolding parse_from
  parse_from-value [] rest c d p e v r h l = let same : c ≡ d = omega arith in rw same
  parse_from-value (x ∷ value) rest c d p e v r h l =
      within x (value ++ rest) h.0 ∙ parse_from-value value rest (c + 1) d p e v r h.1 (omega arith)
    where
      within :
          (x : ℕ) (s : Bytes)
          → x ≢ b'&'
          → parse_from q (x ∷ s) c p (some e) (some v) r
            ≡ parse_from q s (c + 1) p (some e) (some v) r
      within x s h = ground arith

  parse_from-equals :
      (s : Bytes) (c p : ℕ) (r : Multimap)
      → parse_from q (b'=' ∷ s) c p none none r ≡ parse_from q s (c + 1) p (some c) (some (c + 1)) r
  unfolding parse_from
  parse_from-equals s c p r = refl

  pub parse_from-ampersand :
      (s : Bytes) (c p : ℕ) (e v : Option ℕ) (r : Multimap)
      → parse_from q (b'&' ∷ s) c p e v r
        ≡ parse_from q s (c + 1) (c + 1) none none (end_field q c p e v r)
  unfolding parse_from
  parse_from-ampersand s c p e v r = refl

  -- A name, an equals sign and a value, from position `c` on.
  pub parse_from-field :
      (name value rest : Bytes) (c d : ℕ) (r : Multimap)
      → Free b'&' name
      → Free b'=' name
      → Free b'&' value
      → c + length name + 1 + length value ≡ d
      → parse_from q (name ++ b'=' ∷ (value ++ rest)) c c none none r
        ≡ parse_from q rest d c (some (c + length name)) (some (c + length name + 1)) r
  parse_from-field name value rest c d r h k l e =
      parse_from-name name (b'=' ∷ (value ++ rest)) c (c + length name) c r h k refl
      ∙ parse_from-equals (value ++ rest) (c + length name) c r
      ∙ parse_from-value value rest (c + length name + 1) d c (c + length name)
          (c + length name + 1) r l e

pub add_field-named :
    (name value : Bytes) (r : Multimap)
    → name ≢ []
    → add_field name value r ≡ r ++ (name, Percent.decode value) ∷ []
add_field-named [] value r h = absurd (h refl)
add_field-named (c ∷ name) value r h = refl

length-before_value :
    (before name : Bytes) (v : ℕ)
    → v ≡ length before + length name + 1
    → v ≡ length (before ++ (name ++ b'=' ∷ []))
length-before_value before name v h =
    omega (arith, length-append before (name ++ b'=' ∷ []), length-append name (b'=' ∷ []))

pub end_field-lem :
    (q before name value rest : Bytes) (c p e v : ℕ) (r : Multimap)
    → q ≡ before ++ (name ++ b'=' ∷ (value ++ rest))
    → p ≡ length before
    → e ≡ p + length name
    → v ≡ p + length name + 1
    → c ≡ p + length name + 1 + length value
    → end_field q c p (some e) (some v) r ≡ add_field name value r
unfolding end_field
end_field-lem q before name value rest c p e v r s hp he hv hc = rw (
  substr-middle q before name (b'=' ∷ (value ++ rest)) p (e - p) s hp (omega arith),
  substr-middle q (before ++ (name ++ b'=' ∷ [])) value rest v (c - v) (s ∙ simp append_assoc)
      (length-before_value before name v (omega arith)) (omega arith),
)

lt→leb_false : (a b : ℕ) → b < a → leb a b ≡ false
lt→leb_false a b h = ground arith

pub last_field-lem :
    (q before name value : Bytes) (p e v : ℕ) (r : Multimap)
    → q ≡ before ++ (name ++ b'=' ∷ value)
    → p ≡ length before
    → e ≡ p + length name
    → v ≡ p + length name + 1
    → last_field q p (some e) (some v) r ≡ add_field name value r
unfolding last_field
last_field-lem q before name value p e v r s hp he hv =
    rw (lt→ltb p (length q) (omega (arith, size)), last_name, last_value value s size)
  where
    size : length q ≡ p + length name + 1 + length value
    size =
        ap length s
        ∙ omega
            (arith, length-append before (name ++ b'=' ∷ value), length-append name (b'=' ∷ value))

    last_name : substr q p (e - p) ≡ name
    last_name = substr-middle q before name (b'=' ∷ value) p (e - p) s hp (omega arith)

    last_value :
        (value : Bytes)
        → q ≡ before ++ (name ++ b'=' ∷ value)
        → length q ≡ p + length name + 1 + length value
        → (if leb (length q) v then [] else substr_from q v) ≡ value
    last_value [] s l = ground arith
    last_value (x ∷ value) s l = rw (lt→leb_false (length q) v (omega arith)) (
        substr_from-append q (before ++ (name ++ b'=' ∷ [])) (x ∷ value) v (s ∙ simp append_assoc)
          (length-before_value before name v (omega arith)))

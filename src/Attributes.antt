-- ===== src/Attributes.antt =====
-- common/utility.hpp, HttpHeader::FieldValue::SemicolonSeparatedAttributes: the attributes of a
-- field value. A position that may be `npos` is an Option.
pub mod Single
use juce_simpleweb.Prelude.{
  ℕ, ◌+◌, ◌-◌, Bool, true, false, ◌||◌, Option, none, some, [], ◌∷◌, ◌++◌, ltb, ◌==◌, if◌then◌else◌,
  length, Bytes,
}
use juce_simpleweb.Bytes.{substr, substr_from, back_is}
use juce_simpleweb.CaseInsensitive.{Multimap}
use juce_simpleweb.Percent

-- The three positions of the loop.
pub record Positions : Type 0 where
  pub name_start_pos : Option ℕ
  pub name_end_pos : Option ℕ
  pub value_start_pos : Option ℕ

abbrev pub nowhere : Positions
nowhere = record { name_start_pos = none; name_end_pos = none; value_start_pos = none }

-- What one character does, at position `c`, to the positions and the result.
unfoldable pub scan_char : Bytes → ℕ → ℕ → Positions → Multimap → Positions × Multimap
scan_char value x c p result = elim p.name_start_pos [
  | none ↦
      if x == b' ' || x == b';' then (p, result) else (record p { name_start_pos = some c }, result)
  | some n ↦ elim p.name_end_pos [
    | none ↦
        if x == b';'
        then (record p { name_start_pos = none }, result ++ (substr value n (c - n), []) ∷ [])
        else if x == b'='
        then (record p { name_end_pos = some c }, result)
        else (p, result)
    | some e ↦ elim p.value_start_pos [
      | none ↦
          if (if x == b'"' then ltb (c + 1) (length value) else false)
          then (record p { value_start_pos = some (c + 1) }, result)
          else (record p { value_start_pos = some c }, result)
      | some v ↦
          if x == b'"' || x == b';'
          then (
            nowhere,
            result ++ (substr value n (e - n), Percent.decode (substr value v (c - v))) ∷ [],
          )
          else (p, result)
    ]
  ]
]

-- What follows the loop.
unfoldable pub last_attribute : Bytes → Positions → Multimap → Multimap
last_attribute value p result = elim p.name_start_pos [
  | none ↦ result
  | some n ↦ elim p.name_end_pos [
    | none ↦ result ++ (substr_from value n, []) ∷ []
    | some e ↦ elim p.value_start_pos [
      | none ↦ result
      | some v ↦
          if back_is b'"' value
          then result
            ++ (substr value n (e - n), Percent.decode (substr value v (length value - 1))) ∷ []
          else result ++ (substr value n (e - n), Percent.decode (substr_from value v)) ∷ []
    ]
  ]
]

unfoldable pub parse_attributes_from : Bytes → Bytes → ℕ → Positions → Multimap → Multimap
parse_attributes_from value [] c p result = last_attribute value p result
parse_attributes_from value (x ∷ s) c p result =
    let next = scan_char value x c p result in parse_attributes_from value s (c + 1) next.0 next.1

unfoldable pub parse_attributes : Bytes → Multimap
parse_attributes value = parse_attributes_from value value 0 nowhere []

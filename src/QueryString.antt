-- ===== src/QueryString.antt =====
-- common/utility.hpp, QueryString: the query string of fields, and the fields of a query string.
-- The multimap of a parse holds its fields in the order in which they were put in.
pub mod Fields
pub mod RoundTrip
use juce_simpleweb.Prelude.{
  ℕ, ◌+◌, ◌-◌, Bool, true, false, Option, none, some, [], ◌∷◌, ◌++◌, ltb, leb, ◌==◌, if◌then◌else◌,
  length, Bytes,
}
use juce_simpleweb.Bytes.{substr, substr_from}
use juce_simpleweb.CaseInsensitive.{Multimap}
use juce_simpleweb.Percent

-- The loop of `create`, with its flag `first`.
unfoldable pub create_from : Bool → Multimap → Bytes
create_from first [] = []
create_from first ((name, value) ∷ fields) =
    ((if first then [] else b'&' ∷ []) ++ name ++ b'=' ∷ Percent.encode value)
    ++ create_from false fields

abbrev pub create : Multimap → Bytes
create fields = create_from true fields

-- `result.emplace(name, Percent::decode(value))`, unless the name is empty.
abbrev pub add_field : Bytes → Bytes → Multimap → Multimap
add_field [] value result = result
add_field (c ∷ name) value result = result ++ (c ∷ name, Percent.decode value) ∷ []

-- `name_end_pos`, or the position `c` where it is `npos`.
abbrev name_end_or : Option ℕ → ℕ → ℕ
name_end_or none c = c
name_end_or (some name_end_pos) c = name_end_pos

-- The field that an ampersand at `c` ends.
unfoldable pub end_field : Bytes → ℕ → ℕ → Option ℕ → Option ℕ → Multimap → Multimap
end_field query_string c name_pos name_end_pos none result =
    add_field (substr query_string name_pos (name_end_or name_end_pos c - name_pos)) [] result
end_field query_string c name_pos name_end_pos (some value_pos) result =
    add_field (substr query_string name_pos (name_end_or name_end_pos c - name_pos))
      (substr query_string value_pos (c - value_pos)) result

-- The name and the value of the last field; `npos` is beyond every size.
abbrev last_name : Bytes → ℕ → Option ℕ → Bytes
last_name query_string name_pos none = substr_from query_string name_pos
last_name query_string name_pos (some name_end_pos) =
    substr query_string name_pos (name_end_pos - name_pos)

abbrev last_value : Bytes → Option ℕ → Bytes
last_value query_string none = []
last_value query_string (some value_pos) =
    if leb (length query_string) value_pos then [] else substr_from query_string value_pos

unfoldable pub last_field : Bytes → ℕ → Option ℕ → Option ℕ → Multimap → Multimap
last_field query_string name_pos name_end_pos value_pos result =
    if ltb name_pos (length query_string)
    then add_field (last_name query_string name_pos name_end_pos)
        (last_value query_string value_pos) result
    else result

abbrev is_npos : Option ℕ → Bool
is_npos none = true
is_npos (some n) = false

-- The loop of `parse` at position `c`, where the bytes from there on are given, and what follows
-- the loop.
unfoldable pub parse_from : Bytes → Bytes → ℕ → ℕ → Option ℕ → Option ℕ → Multimap → Multimap
parse_from query_string [] c name_pos name_end_pos value_pos result =
    last_field query_string name_pos name_end_pos value_pos result
parse_from query_string (x ∷ s) c name_pos name_end_pos value_pos result = elim (x == b'&') [
  | true ↦
      parse_from query_string s (c + 1) (c + 1) none none
        (end_field query_string c name_pos name_end_pos value_pos result)
  | false ↦ elim (if x == b'=' then is_npos name_end_pos else false) [
    | true ↦ parse_from query_string s (c + 1) name_pos (some c) (some (c + 1)) result
    | false ↦ parse_from query_string s (c + 1) name_pos name_end_pos value_pos result
  ]
]

unfoldable pub parse : Bytes → Multimap
parse [] = []
parse (x ∷ s) = parse_from (x ∷ s) (x ∷ s) 0 0 none none []

-- ===== src/RequestMessage.antt =====
-- common/utility.hpp, RequestMessage::parse: the request line and the header fields of a stream.
-- The reference parameters are a record that the call takes and returns, since a failing call
-- may have written some of them.
pub mod Scan
pub mod RoundTrip
use juce_simpleweb.Prelude.{
  ℕ, ◌+◌, ◌-◌, Bool, true, false, ◌&&◌, Option, none, some, [], ◌∷◌, ◌++◌, ◌==◌, if◌then◌else◌,
  length, Bytes, bytes_eq, codes,
}
use juce_simpleweb.Bytes.{find, find_from, substr, substr_from, getline}
use juce_simpleweb.CaseInsensitive.{Multimap}
use juce_simpleweb.HttpHeader

pub record Request : Type 0 where
  pub method : Bytes
  pub path : Bytes
  pub query_string : Bytes
  pub version : Bytes
  pub header : Multimap

abbrev is_npos : Option ℕ → Bool
is_npos none = true
is_npos (some n) = false

abbrev is_empty : Bytes → Bool
is_empty [] = true
is_empty (c ∷ s) = false

-- A question mark that is not the last byte of the line starts the query, once.
abbrev starts_query : ℕ → Bytes → Option ℕ → Bool
starts_query c rest query_start =
    if c == b'?' then (if is_empty rest then false else is_npos query_start) else false

-- The loop over the line from position `i`: `query_start` and `path_and_query_string_end`.
pub scan : Bytes → ℕ → Option ℕ → Option ℕ × Option ℕ
scan [] i query_start = (query_start, none)
scan (c ∷ s) i query_start = elim (starts_query c s query_start) [
  | true ↦ scan s (i + 1) (some (i + 1))
  | false ↦ elim (c == b' ') [ true ↦ (query_start, some i) | false ↦ scan s (i + 1) query_start ]
]

-- `path` and, if there is a query, `query_string`.
pub set_target : Bytes → ℕ → Option ℕ → ℕ → Request → Request
set_target line method_end (some query_start) target_end r = record r {
  path = substr line (method_end + 1) (query_start - method_end - 2);
  query_string = substr line query_start (target_end - query_start);
}
set_target line method_end none target_end r = record r {
  path = substr line (method_end + 1) (target_end - method_end - 1);
}

-- The protocol, and then the header fields. The last byte of the line is taken for a carriage
-- return; where nothing follows the slash the source's count wraps to `npos` and the rest is empty.
parse_version : Bytes → ℕ → Bytes → Request → Bool × Request × Bytes
parse_version line target_end stream r = elim (find_from b'/' (target_end + 1) line) [
  | none ↦ (false, r, stream)
  | some protocol_end ↦
      if bytes_eq (substr line (target_end + 1) (protocol_end - target_end - 1)) (codes "HTTP")
      then (
        true,
        record r {
          version = substr line (protocol_end + 1) (length line - protocol_end - 2);
          header = (HttpHeader.parse stream).0;
        },
        (HttpHeader.parse stream).1,
      )
      else (false, r, stream)
]

parse_target : Bytes → ℕ → Option ℕ × Option ℕ → Bytes → Request → Bool × Request × Bytes
unfolding parse_version set_target
parse_target line method_end (query_start, none) stream r = (false, r, stream)
parse_target line method_end (query_start, some target_end) stream r =
    parse_version line target_end stream (set_target line method_end query_start target_end r)

unfoldable pub parse : Bytes → Request → Bool × Request × Bytes
unfolding parse_target scan
parse stream r = elim (getline stream) [
  | none ↦ (false, r, [])
  | some (line, rest) ↦ elim (find b' ' line) [
    | none ↦ (false, r, rest)
    | some method_end ↦
        parse_target line method_end
          (scan (substr_from line (method_end + 1)) (method_end + 1) none) rest
          (record r { method = substr line 0 method_end })
  ]
]

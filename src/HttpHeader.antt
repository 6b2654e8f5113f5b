-- ===== src/HttpHeader.antt =====
-- common/utility.hpp, HttpHeader::parse: header fields from the lines of a stream; and the loops
-- of webserver/server_http.hpp and websocket/server_ws.hpp that write them. Each round reads one
-- line, so the length of the stream is fuel enough.
pub mod RoundTrip
pub mod Lines
use juce_simpleweb.Prelude.{
  ℕ, zero, suc, ◌+◌, ◌-◌, Option, none, some, List, [], ◌∷◌, ◌++◌, ◌==◌, if◌then◌else◌, length,
  take, Bytes, codes,
}
use juce_simpleweb.Bytes.{find, substr, substr_from, back_is, getline}
use juce_simpleweb.CaseInsensitive.{Multimap}

-- The loop over `value_start`, on the part of the line from there.
skip_spaces : Bytes → Bytes
skip_spaces [] = []
skip_spaces (a ∷ []) = a ∷ []
skip_spaces (a ∷ b ∷ s) = if a == b' ' then skip_spaces (b ∷ s) else a ∷ b ∷ s

abbrev carriage : Bytes → ℕ
carriage line = if back_is b'\r' line then 1 else 0

-- The field of a line, from the part of it at `value_start`; none if nothing is left there.
field_at : Bytes → ℕ → Bytes → Multimap
field_at line param_end [] = []
field_at line param_end (v ∷ rest) =
    (substr line 0 param_end, take (length (v ∷ rest) - carriage line) (v ∷ rest)) ∷ []

parse_line : Bytes → ℕ → Multimap
unfolding skip_spaces field_at
parse_line line param_end = field_at line param_end (skip_spaces (substr_from line (param_end + 1)))

-- The fields, and the stream behind the line that ended the loop.
pub parse_lines : ℕ → Bytes → Multimap × Bytes
unfolding parse_line
parse_lines zero stream = ([], stream)
parse_lines (suc fuel) stream = elim (getline stream) [
  | none ↦ ([], [])
  | some (line, rest) ↦ elim (find b':' line) [
    | none ↦ ([], rest)
    | some param_end ↦
        let more = parse_lines fuel rest in (parse_line line param_end ++ more.0, more.1)
  ]
]

unfoldable pub parse : Bytes → Multimap × Bytes
unfolding parse_lines
parse stream = parse_lines (suc (length stream)) stream

abbrev pub crlf : Bytes
crlf = b'\r' ∷ b'\n' ∷ []

-- `ostream << field.first << ": " << field.second << "\r\n"` for each field.
unfoldable pub write_fields : Multimap → Bytes
write_fields [] = []
write_fields ((first, second) ∷ fields) =
    first ++ (b':' ∷ b' ' ∷ (second ++ (b'\r' ∷ b'\n' ∷ write_fields fields)))

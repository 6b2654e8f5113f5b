-- ===== src/ResponseMessage.antt =====
-- common/utility.hpp, ResponseMessage::parse: the status line and the header fields of a stream.
pub mod RoundTrip
use juce_simpleweb.Prelude.{
  ℕ, ◌+◌, ◌-◌, Bool, true, false, Option, none, some, [], ◌∷◌, ◌++◌, ltb, if◌then◌else◌, length,
  Bytes,
}
use juce_simpleweb.Bytes.{find, substr, substr_from, back_is, getline}
use juce_simpleweb.CaseInsensitive.{Multimap}
use juce_simpleweb.HttpHeader

pub record Response : Type 0 where
  pub version : Bytes
  pub status_code : Bytes
  pub header : Multimap

-- `line.substr(5, version_end - 5)`: the count wraps where the first space stands before position
-- 5, and then the slice runs to the end of the line.
version_of : Bytes → ℕ → Bytes
version_of line version_end =
    if ltb version_end 5 then substr_from line 5 else substr line 5 (version_end - 5)

abbrev carriage : Bytes → ℕ
carriage line = if back_is b'\r' line then 1 else 0

parse_status : Bytes → ℕ → Bytes → Response → Bool × Response × Bytes
parse_status line version_end stream r =
    if ltb (version_end + 1) (length line)
    then (
      true,
      record r {
        status_code =
            substr line (version_end + 1) (length line - (version_end + 1) - carriage line);
        header = (HttpHeader.parse stream).0;
      },
      (HttpHeader.parse stream).1,
    )
    else (false, r, stream)

unfoldable pub parse : Bytes → Response → Bool × Response × Bytes
unfolding parse_status version_of
parse stream r = elim (getline stream) [
  | none ↦ (false, r, [])
  | some (line, rest) ↦ elim (find b' ' line) [
    | none ↦ (false, r, rest)
    | some version_end ↦
        if ltb 5 (length line)
        then parse_status line version_end rest (record r { version = version_of line version_end })
        else (false, r, rest)
  ]
]

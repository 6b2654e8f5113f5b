-- ===== src/StatusCode.antt =====
-- common/status_code.hpp: the status codes, as the numbers of their enumeration, and their texts.
pub mod RoundTrip
use juce_simpleweb.Prelude.{
  ℕ, ◌+◌, ◌-◌, ◌*◌, Bool, true, false, Option, none, some, List, [], ◌∷◌, ◌==◌, leb, ltb, ◌&&◌,
  if◌then◌else◌, length, take, Bytes, bytes_eq, codes,
}

-- The map from the enumeration to the texts, in the order of its keys.
abbrev pub status_code_strings : List (ℕ × Bytes)
status_code_strings =
    (0, codes "")
    ∷ (100, codes "100 Continue")
    ∷ (101, codes "101 Switching Protocols")
    ∷ (102, codes "102 Processing")
    ∷ (200, codes "200 OK")
    ∷ (201, codes "201 Created")
    ∷ (202, codes "202 Accepted")
    ∷ (203, codes "203 Non-Authoritative Information")
    ∷ (204, codes "204 No Content")
    ∷ (205, codes "205 Reset Content")
    ∷ (206, codes "206 Partial Content")
    ∷ (207, codes "207 Multi-Status")
    ∷ (208, codes "208 Already Reported")
    ∷ (226, codes "226 IM Used")
    ∷ (300, codes "300 Multiple Choices")
    ∷ (301, codes "301 Moved Permanently")
    ∷ (302, codes "302 Found")
    ∷ (303, codes "303 See Other")
    ∷ (304, codes "304 Not Modified")
    ∷ (305, codes "305 Use Proxy")
    ∷ (306, codes "306 Switch Proxy")
    ∷ (307, codes "307 Temporary Redirect")
    ∷ (308, codes "308 Permanent Redirect")
    ∷ (400, codes "400 Bad Request")
    ∷ (401, codes "401 Unauthorized")
    ∷ (402, codes "402 Payment Required")
    ∷ (403, codes "403 Forbidden")
    ∷ (404, codes "404 Not Found")
    ∷ (405, codes "405 Method Not Allowed")
    ∷ (406, codes "406 Not Acceptable")
    ∷ (407, codes "407 Proxy Authentication Required")
    ∷ (408, codes "408 Request Timeout")
    ∷ (409, codes "409 Conflict")
    ∷ (410, codes "410 Gone")
    ∷ (411, codes "411 Length Required")
    ∷ (412, codes "412 Precondition Failed")
    ∷ (413, codes "413 Payload Too Large")
    ∷ (414, codes "414 URI Too Long")
    ∷ (415, codes "415 Unsupported Media Type")
    ∷ (416, codes "416 Range Not Satisfiable")
    ∷ (417, codes "417 Expectation Failed")
    ∷ (418, codes "418 I'm a teapot")
    ∷ (421, codes "421 Misdirected Request")
    ∷ (422, codes "422 Unprocessable Entity")
    ∷ (423, codes "423 Locked")
    ∷ (424, codes "424 Failed Dependency")
    ∷ (426, codes "426 Upgrade Required")
    ∷ (428, codes "428 Precondition Required")
    ∷ (429, codes "429 Too Many Requests")
    ∷ (431, codes "431 Request Header Fields Too Large")
    ∷ (451, codes "451 Unavailable For Legal Reasons")
    ∷ (500, codes "500 Internal Server Error")
    ∷ (501, codes "501 Not Implemented")
    ∷ (502, codes "502 Bad Gateway")
    ∷ (503, codes "503 Service Unavailable")
    ∷ (504, codes "504 Gateway Timeout")
    ∷ (505, codes "505 HTTP Version Not Supported")
    ∷ (506, codes "506 Variant Also Negotiates")
    ∷ (507, codes "507 Insufficient Storage")
    ∷ (508, codes "508 Loop Detected")
    ∷ (510, codes "510 Not Extended")
    ∷ (511, codes "511 Network Authentication Required")
    ∷ []

-- `status_code_strings().find(code)`.
unfoldable pub text_of : ℕ → List (ℕ × Bytes) → Option Bytes
text_of code [] = none
text_of code ((key, text) ∷ entries) = if key == code then some text else text_of code entries

-- `status_code(StatusCode)`.
unfoldable pub status_text : ℕ → Bytes
status_text code = elim (text_of code status_code_strings) [ none ↦ [] | some text ↦ text ]

-- `string_to_status_code.find(number)`: the map was filled with the first three bytes of each
-- text, and keeps the first entry of a key.
unfoldable pub code_of : Bytes → List (ℕ × Bytes) → Option ℕ
code_of number [] = none
code_of number ((key, text) ∷ entries) =
    if bytes_eq (take 3 text) number then some key else code_of number entries

abbrev is_digit : ℕ → Bool
is_digit c = leb b'0' c && leb c b'9'

-- `atoi` on three digits.
abbrev pub atoi_three : ℕ → ℕ → ℕ → ℕ
atoi_three a b c = (a - b'0') * 100 + (b - b'0') * 10 + (c - b'0')

-- `status_code(const std::string &)`.
unfoldable pub status_code : Bytes → ℕ
status_code (a ∷ b ∷ c ∷ rest) =
    if is_digit a && (is_digit b && is_digit c)
    then elim (code_of (a ∷ b ∷ c ∷ []) status_code_strings) [
      | none ↦ atoi_three a b c
      | some code ↦ code
    ]
    else 0
status_code text = 0

-- ===== src/Handshake.antt =====
-- websocket/server_ws.hpp, write_handshake, and the check of the answer in websocket/client_ws.hpp,
-- upgrade. The digest `calc_sha1` (common/WSCrypto.cpp, a copy of smallsha1) is a parameter, and
-- so are the bytes that stand in memory behind the array `hash`, and the callback on_handshake.
pub mod AcceptKey
use juce_simpleweb.Prelude.{
  ℕ, zero, suc, Bool, true, false, Option, none, some, List, [], ◌∷◌, ◌++◌, ◌==◌, if◌then◌else◌,
  length, take, Bytes, bytes_eq, codes, ◌&&◌,
}
use juce_simpleweb.CaseInsensitive.{Multimap, find_field}
use juce_simpleweb.HttpHeader.{crlf, write_fields}
use juce_simpleweb.Base64.{base64_encode, base64_decode}
use juce_simpleweb.StatusCode.{status_text}

-- `std::string(const char *)` and `c_str()`: the bytes before the first NUL.
unfoldable pub c_string : Bytes → Bytes
c_string [] = []
c_string (c ∷ s) = if c == 0 then [] else c ∷ c_string s

-- `s.resize(n)`.
unfoldable pub resize : ℕ → Bytes → Bytes
resize zero s = []
resize (suc n) [] = 0 ∷ resize n []
resize (suc n) (c ∷ s) = c ∷ resize n s

abbrev ws_magic_string : Bytes
ws_magic_string = codes "258EAFA5-E914-47DA-95CA-C5AB0DC85B11"

module _ (calc_sha1 : Bytes → Bytes) where
  -- The array `hash`.
  abbrev pub hash_of : Bytes → Bytes
  hash_of key = calc_sha1 (key ++ ws_magic_string)

  -- `hexString`, with the memory behind the array.
  unfoldable pub hex_string : Bytes → Bytes → Bytes
  hex_string memory key = resize 20 (c_string (hash_of key ++ memory))

  unfoldable pub accept_key : Bytes → Bytes → Bytes
  accept_key memory key = base64_encode (hex_string memory key)

  abbrev pub response_header : Bytes → Bytes → Multimap → Multimap
  response_header memory key config_header =
      config_header
      ++ (codes "Upgrade", codes "websocket")
        ∷ (codes "Connection", codes "Upgrade")
        ∷ (codes "Sec-WebSocket-Accept", accept_key memory key)
        ∷ []

  -- The callback on_handshake, if it is set, may change the header and choose the status.
  abbrev decided : Option (Multimap → ℕ × Multimap) → Multimap → ℕ × Multimap
  decided none response = (101, response)
  decided (some on_handshake) response = on_handshake response

  -- What is written for a status and a header.
  unfoldable pub answer : ℕ × Multimap → Bytes
  answer (status, response) =
      if status == 101
      then codes "HTTP/1.1 101 Web Socket Protocol Handshake"
        ++ (crlf ++ (write_fields response ++ crlf))
      else codes "HTTP/1.1 " ++ (status_text status ++ (crlf ++ crlf))

  -- The status and the text of the answer to a request with this header.
  unfoldable pub write_handshake :
      Bytes → Multimap → Option (Multimap → ℕ × Multimap) → Multimap → ℕ × Bytes
  write_handshake memory config_header on_handshake header =
      elim (find_field (codes "Sec-WebSocket-Key") header) [
        | none ↦ (426, answer (426, []))
        | some key ↦
            let d = decided on_handshake (response_header memory key config_header) in
            (d.0, answer d)
      ]

-- The client's verdict on the answer's header. The source reads the field before it tests that
-- there is one, so a missing field is undefined behaviour.
pub data Verdict : Type 0 where
  undefined opens refuses : Verdict

module _ (calc_sha1 : Bytes → Bytes) where
  unfoldable pub check_accept : Bytes → Bytes → Multimap → Verdict
  check_accept memory nonce_base64 header =
      elim (find_field (codes "Sec-WebSocket-Accept") header) [
        | none ↦ undefined
        | some value ↦
            if bytes_eq (c_string (base64_decode value))
              (c_string (hex_string calc_sha1 memory nonce_base64))
            then opens
            else refuses
      ]

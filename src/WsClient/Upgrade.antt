-- ===== src/WsClient/Upgrade.antt =====
-- websocket/client_ws.hpp: the address of a client, and the request that `upgrade` writes. A nonce
-- is what `std::random_device` gave.
use juce_simpleweb.Prelude.{
  ℕ, ◌+◌, ◌%◌, ◌^◌, Bool, none, some, [], ◌∷◌, ◌++◌, ◌==◌, if◌then◌else◌, take, drop, Bytes, codes,
}
use juce_simpleweb.Bytes.{find}
use juce_simpleweb.Base64.{base64_encode}
use juce_simpleweb.CaseInsensitive.{Multimap}
use juce_simpleweb.HttpHeader.{crlf, write_fields}
use juce_simpleweb.Numerals.{stoul, decimal_text}

-- What the constructor keeps of the address.
pub record Address : Type 0 where
  pub host : Bytes
  pub port : ℕ
  pub default_port : ℕ
  pub path : Bytes

-- The cast to `unsigned short` keeps the lower 16 bits.
unfoldable pub parse_host_port : Bytes → ℕ → Bytes × ℕ
parse_host_port host_port default_port = elim (find b':' host_port) [
  | none ↦ (host_port, default_port)
  | some host_end ↦ (
    take host_end host_port,
    elim (stoul 10 (drop (host_end + 1) host_port)) [ some n ↦ n % 2 ^ 16 | none ↦ default_port ],
  )
]

-- The constructor.
unfoldable pub new_client : Bytes → ℕ → Address
new_client host_port_path default_port = elim (find b'/' host_port_path) [
  | none ↦
      let (host, port) = parse_host_port host_port_path default_port in
      record { host = host; port = port; default_port = default_port; path = b'/' ∷ [] }
  | some host_port_end ↦
      let (host, port) = parse_host_port (take host_port_end host_port_path) default_port in
      record {
        host = host;
        port = port;
        default_port = default_port;
        path = drop host_port_end host_port_path;
      }
]

-- The path of the request; behind a proxy, without TLS, it is the whole address.
unfoldable pub corrected_path : Bool → Address → Bytes
corrected_path proxy a =
    if proxy then codes "http://" ++ (a.host ++ b':' ∷ (decimal_text a.port ++ a.path)) else a.path

abbrev pub host_value : Address → Bytes
host_value a = a.host ++ (if a.port == a.default_port then [] else b':' ∷ decimal_text a.port)

abbrev pub nonce_base64 : Bytes → Bytes
nonce_base64 nonce = base64_encode nonce

-- The text that `upgrade` writes.
unfoldable pub upgrade_text : Bool → Address → Bytes → Multimap → Bytes
upgrade_text proxy a nonce header =
    codes "GET "
    ++ (corrected_path proxy a
        ++ (codes " HTTP/1.1"
            ++ (crlf
                ++ (codes "Host: "
                    ++ (host_value a
                        ++ (crlf
                            ++ (codes "Upgrade: websocket"
                                ++ (crlf
                                    ++ (codes "Connection: Upgrade"
                                        ++ (crlf
                                            ++ (codes "Sec-WebSocket-Key: "
                                                ++ (nonce_base64 nonce
                                                    ++ (crlf
                                                        ++ (codes "Sec-WebSocket-Version: 13"
                                                            ++ (crlf
                                                            ++ (write_fields header
                                                            ++ crlf))))))))))))))))

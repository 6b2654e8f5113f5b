-- ===== src/WsClient/Request.antt =====
-- websocket/client_ws.hpp, upgrade: the request that the client writes is one that the parser of the
-- servers reads.
use juce_simpleweb.Prelude.{
  ℕ, ◌≡◌, ◌≢◌, ap, ◌∙◌, Bool, true, Option, none, [], ◌∷◌, ◌++◌, append_assoc, arith, ◌==◌,
  if◌then◌else◌, Bool-cases, inl, inr, Bytes, codes, All, All-append,
}
use juce_simpleweb.Bytes.Search.{Free}
use juce_simpleweb.Base64.Text.{IsPlain, base64_encode-IsPlain}
use juce_simpleweb.CaseInsensitive.{Multimap}
use juce_simpleweb.HttpHeader.{write_fields}
use juce_simpleweb.HttpHeader.RoundTrip.{IsField, IsValue}
use juce_simpleweb.Numerals.{decimal_text}
use juce_simpleweb.Numerals.RoundTrip.{decimal_text-IsDecimal, IsDecimal}
use juce_simpleweb.RequestMessage
use juce_simpleweb.RequestMessage.{Request}
use juce_simpleweb.RequestMessage.Scan.{target, query_or, IsQuery}
use juce_simpleweb.RequestMessage.RoundTrip.{IsRequestLine, write_request, parse-write_request}
use juce_simpleweb.WsClient.Upgrade.{
  Address, corrected_path, host_value, nonce_base64, upgrade_text,
}

-- The header fields of the request.
abbrev pub upgrade_fields : Address → Bytes → Multimap → Multimap
upgrade_fields a nonce header =
    (codes "Host", host_value a)
    ∷ (codes "Upgrade", codes "websocket")
    ∷ (codes "Connection", codes "Upgrade")
    ∷ (codes "Sec-WebSocket-Key", nonce_base64 nonce)
    ∷ (codes "Sec-WebSocket-Version", codes "13")
    ∷ header

pub IsPlain-Free : (s : Bytes) → All IsPlain s → Free b'\n' s
IsPlain-Free [] h = tt
IsPlain-Free (c ∷ s) ((line, space), hs) = (line, IsPlain-Free s hs)

pub IsPlain-IsValue : (s : Bytes) → All IsPlain s → IsValue s
IsPlain-IsValue [] h = tt
IsPlain-IsValue (c ∷ s) ((line, space), hs) = space

IsDecimal-Free : (s : Bytes) → All IsDecimal s → Free b'\n' s
IsDecimal-Free [] h = tt
IsDecimal-Free (c ∷ s) (h, hs) = (omega arith, IsDecimal-Free s hs)

decimal_text-Free : (n : ℕ) → Free b'\n' (decimal_text n)
decimal_text-Free n =
    let (c, s, e, digits) = decimal_text-IsDecimal n in rw e (IsDecimal-Free (c ∷ s) digits)

-- A host that a client can connect to: no line feed, and it does not begin with a space.
abbrev pub IsHost : Bytes → Type 0
IsHost [] = ⊥
IsHost (c ∷ host) = Free b'\n' (c ∷ host) × (c ≢ b' ')

host_text :
    (host port : Bytes)
    → IsHost host
    → Free b'\n' port
    → Free b'\n' (host ++ port) × IsValue (host ++ port)
host_text [] port h k = elim h [ ]
host_text (c ∷ host) port (line, space) k =
    (All-append (λ x. x ≢ b'\n') (c ∷ host) port line k, space)

port_text :
    (a : Address) → Free b'\n' (if a.port == a.default_port then [] else b':' ∷ decimal_text a.port)
port_text a = elim (Bool-cases (a.port == a.default_port)) [
  | inl e ↦ rw e tt
  | inr e ↦ rw e (omega arith, decimal_text-Free a.port)
]

host_value-IsField : (a : Address) → IsHost a.host → IsField (codes "Host", host_value a)
host_value-IsField a h =
    let (line, value) = host_text a.host _ h (port_text a) in
    (omega arith, omega arith, line, value)

upgrade_fields-IsField :
    (a : Address) (nonce : Bytes) (header : Multimap)
    → IsHost a.host
    → All IsField header
    → All IsField (upgrade_fields a nonce header)
upgrade_fields-IsField a nonce header h hs = (
  host_value-IsField a h,
  (
    (omega arith, omega arith, omega arith, omega arith),
    (
      (omega arith, omega arith, omega arith, omega arith),
      (
        (
          omega arith,
          omega arith,
          IsPlain-Free (nonce_base64 nonce) (base64_encode-IsPlain nonce),
          IsPlain-IsValue (nonce_base64 nonce) (base64_encode-IsPlain nonce),
        ),
        ((omega arith, omega arith, omega arith, omega arith), hs),
      ),
    ),
  ),
)

upgrade_text-write_request :
    (proxy : Bool) (a : Address) (nonce : Bytes) (header : Multimap)
    → upgrade_text proxy a nonce header
      ≡ write_request
          (codes "GET")
          (corrected_path proxy a)
          none
          (codes "1.1")
          (upgrade_fields a nonce header)
unfolding upgrade_text write_fields
upgrade_text-write_request proxy a nonce header = simp append_assoc

get_line :
    (path : Bytes) (query : Option Bytes)
    → Free b' ' path
    → Free b'?' path
    → Free b'\n' path
    → IsQuery query
    → IsRequestLine (codes "GET") path query (codes "1.1")
get_line path query s m l q = record {
  method_free = omega arith;
  method_line = omega arith;
  path_free = s;
  path_mark = m;
  path_line = l;
  query_free = q;
  version_line = omega arith;
}

-- The upgrade request of a client whose path, query, host and additional fields survive the wire is
-- parsed by the parser of the servers: the method GET, the path and the query of the client,
-- version 1.1, and the fields of the upgrade in their order with the client's own behind them.
pub parse-upgrade_text :
    (proxy : Bool) (a : Address) (nonce : Bytes) (header : Multimap) (path : Bytes)
    (query : Option Bytes) (rest : Bytes) (r : Request)
    → corrected_path proxy a ≡ target path query
    → Free b' ' path
    → Free b'?' path
    → Free b'\n' path
    → IsQuery query
    → IsHost a.host
    → All IsField header
    → RequestMessage.parse (upgrade_text proxy a nonce header ++ rest) r ≡ (
      true,
      record {
        method = codes "GET";
        path = path;
        query_string = query_or query r.query_string;
        version = codes "1.1";
        header = upgrade_fields a nonce header;
      },
      rest,
    )
parse-upgrade_text proxy a nonce header path query rest r t s m l q h hs =
    ap (λ text. RequestMessage.parse (text ++ rest) r)
      (upgrade_text-write_request proxy a nonce header
        ∙ ap (λ p. write_request (codes "GET") p none (codes "1.1") (upgrade_fields a nonce header))
            t)
    ∙ parse-write_request (codes "GET") path query (codes "1.1") (upgrade_fields a nonce header)
        rest r (get_line path query s m l q) (upgrade_fields-IsField a nonce header h hs)

-- ===== src/WsClient/Connect.antt =====
-- websocket/client_ws.hpp, `SocketClient<WS>::connect`: the name of the server, or of the proxy, is
-- resolved, the socket is connected, and then the upgrade is asked for.
use juce_simpleweb.Prelude.{
  ℕ, ◌+◌, ◌≡◌, refl, sym, Bool, true, false, ◌&&◌, Option, none, some, List, [], ◌∷◌, ◌++◌,
  append-nil, if◌then◌else◌, Bytes,
}
use juce_simpleweb.Numerals.{decimal_text}
use juce_simpleweb.WsClient.{
  ClientConnection, ClientError, ClientEvent, fails, told, set_timeout, cancel_timeout,
  connection_error,
}
use juce_simpleweb.WsClient.Upgrade.{Address, parse_host_port}

-- What a client that connects waits for: the resolver, with the host and the port that it was given,
-- or the socket.
pub data Awaiting : Type 0 where
  nothing connected : Awaiting
  resolved : Bytes → Bytes → Awaiting

-- A connection that is being made, and how often its upgrade was started.
pub record Connecting : Type 0 where
  pub connection : ClientConnection
  pub awaiting : Awaiting
  pub upgrades : ℕ

unfoldable pub host_port : Address → Bytes → Bytes × Bytes
host_port a [] = (a.host, decimal_text a.port)
host_port a (c ∷ proxy_server) =
    let (host, port) = parse_host_port (c ∷ proxy_server) 8080 in (host, decimal_text port)

unfoldable pub connect : Address → Bytes → ClientConnection → Connecting
unfolding host_port
connect a proxy_server c =
    let (host, port) = host_port a proxy_server in
    record {
      connection = set_timeout (some c.config.timeout_request) c;
      awaiting = resolved host port;
      upgrades = 0;
    }

-- The handler of the resolver.
unfoldable pub on_resolved : Bool → Option ClientError → Connecting → Connecting
on_resolved lock ec d =
    let c = cancel_timeout d.connection in
    let d' = record d { connection = c; awaiting = nothing } in
    if lock
    then elim ec [
      | none ↦ record d' {
        connection = set_timeout (some c.config.timeout_request) c;
        awaiting = connected;
      }
      | some e ↦ record d' { connection = connection_error e c }
    ]
    else d'

-- The handler of the socket's connection; `upgrade` is that of WsClient/Reader.
unfoldable pub on_connected : Bool → Option ClientError → Connecting → Connecting
on_connected lock ec d =
    let c = cancel_timeout d.connection in
    let d' = record d { connection = c; awaiting = nothing } in
    if lock
    then elim ec [
      | none ↦ record d' { upgrades = d.upgrades + 1 }
      | some e ↦ record d' { connection = connection_error e c }
    ]
    else d'

-- The completion that is awaited comes, if there is one.
unfoldable pub complete : Bool → Option ClientError → Connecting → Connecting
unfolding on_resolved on_connected
complete lock ec d = elim d.awaiting [
  | nothing ↦ d
  | connected ↦ on_connected lock ec d
  | resolved host port ↦ on_resolved lock ec d
]

-- The error that ends a connection which is made, if the lock of its handler was obtained.
abbrev pub first_error : Bool → Option ClientError → Bool → Option ClientError → Option ClientError
first_error false e1 lock2 e2 = none
first_error true (some e) lock2 e2 = some e
first_error true none false e2 = none
first_error true none true e2 = e2

abbrev pub succeeds : Bool → Option ClientError → Bool
succeeds lock none = lock
succeeds lock (some e) = false

abbrev pub told_error : Bool → Option ClientError → List ClientEvent
told_error is_set none = []
told_error is_set (some e) = told is_set (fails e)

-- A connection that is made to a server, or to a proxy if one is set, however its two completions
-- come: nothing is awaited any more then. The upgrade was started once if both succeeded with
-- the lock of their handlers, and otherwise not at all; on_error was told of the first error that
-- a handler with the lock has seen, if it is set, and of no other. The resolver is asked for the
-- proxy if one is set, with the default port 8080, and otherwise for the server.
pub connect-outcome :
    (a : Address) (proxy_server : Bytes) (c : ClientConnection) (lock1 lock2 : Bool)
    (e1 e2 : Option ClientError)
    → let made = connect a proxy_server c in
      let d = complete lock2 e2 (complete lock1 e1 made) in
      (made.awaiting ≡ (elim proxy_server [
        | [] ↦ resolved a.host (decimal_text a.port)
        | x ∷ rest ↦
            resolved
              (parse_host_port (x ∷ rest) 8080).0
              (decimal_text (parse_host_port (x ∷ rest) 8080).1)
      ]))
      × (d.awaiting ≡ nothing)
      × (d.upgrades ≡ (if succeeds lock1 e1 && succeeds lock2 e2 then 1 else 0))
      × (d.connection.log ≡ c.log ++ told_error c.handlers.on_error (first_error lock1 e1 lock2 e2))
unfolding connect complete set_timeout cancel_timeout connection_error
connect-outcome a proxy_server c lock1 lock2 e1 e2 =
    let (x, y, z) = ends lock1 e1 lock2 e2 in (target proxy_server, x, y, z)
  where
    target :
        (proxy_server : Bytes)
        → (connect a proxy_server c).awaiting ≡ (elim proxy_server [
          | [] ↦ resolved a.host (decimal_text a.port)
          | x ∷ rest ↦
              resolved
                (parse_host_port (x ∷ rest) 8080).0
                (decimal_text (parse_host_port (x ∷ rest) 8080).1)
        ])
    target [] = refl
    target (x ∷ rest) = refl

    ends :
        (lock1 : Bool) (e1 : Option ClientError) (lock2 : Bool) (e2 : Option ClientError)
        → let d = complete lock2 e2 (complete lock1 e1 (connect a proxy_server c)) in
          (d.awaiting ≡ nothing)
          × (d.upgrades ≡ (if succeeds lock1 e1 && succeeds lock2 e2 then 1 else 0))
          × (d.connection.log
              ≡ c.log ++ told_error c.handlers.on_error (first_error lock1 e1 lock2 e2))
    ends false none lock2 e2 = (refl, refl, sym (append-nil c.log))
    ends false (some e) lock2 e2 = (refl, refl, sym (append-nil c.log))
    ends true (some e) lock2 e2 = (refl, refl, refl)
    ends true none false none = (refl, refl, sym (append-nil c.log))
    ends true none false (some e) = (refl, refl, sym (append-nil c.log))
    ends true none true none = (refl, refl, sym (append-nil c.log))
    ends true none true (some e) = (refl, refl, refl)

-- ===== src/WsServer/Opening.antt =====
-- websocket/server_ws.hpp, read_handshake and write_handshake: the handshake of a connection before
-- it has an endpoint. The regular expressions of the endpoints are those of the C++ library, a
-- parameter that says whether a path matches. A client sends no frame before it has the answer, so
-- the reads of frames (WsServer/Reader) start from an empty buffer.
use juce_simpleweb.Prelude.{
  ℕ, Bool, true, false, Option, none, some, List, [], ◌∷◌, ◌++◌, ◌==◌, if◌then◌else◌, Bytes,
}
use juce_simpleweb.CaseInsensitive.{Multimap}
use juce_simpleweb.Handshake.{write_handshake}
use juce_simpleweb.RequestMessage
use juce_simpleweb.RequestMessage.{Request}
use juce_simpleweb.WsServer.{
  ErrorCode, Handlers, Connection, set_timeout, cancel_timeout, connection_open, connection_error,
}
use juce_simpleweb.WsServer.Reader.{read_message}

pub record Endpoint : Type 0 where
  pub regex : Bytes
  pub handlers : Handlers
  pub on_handshake : Option (Multimap → ℕ × Multimap)

-- The write of the answer: its endpoint's callbacks, its status and its text.
pub record Answering : Type 0 where
  pub handlers : Handlers
  pub status : ℕ
  pub text : Bytes

pub record Handshaking : Type 0 where
  pub connection : Connection
  pub request : Request
  pub streambuf : Bytes
  pub reading : Bool
  pub answering : Option Answering

unfoldable pub read_handshake : Handshaking → Handshaking
read_handshake h = record h {
  connection = set_timeout (some h.connection.config.timeout_request) h.connection;
  reading = true;
}

module _ (regex_match : Bytes → Bytes → Bool) where
  -- The first endpoint whose expression matches the path.
  unfoldable pub find_endpoint : Bytes → List Endpoint → Option Endpoint
  find_endpoint path [] = none
  find_endpoint path (e ∷ endpoints) =
      if regex_match e.regex path then some e else find_endpoint path endpoints

  module _ (calc_sha1 : Bytes → Bytes) (memory : Bytes) (config_header : Multimap)
      (endpoints : List Endpoint) where
    -- The answer is written; where no endpoint matches, the connection is dropped.
    unfoldable pub write_answer : Handshaking → Handshaking
    write_answer h = elim (find_endpoint h.request.path endpoints) [
      | none ↦ h
      | some e ↦
          let (status, text) =
            write_handshake calc_sha1 memory config_header e.on_handshake h.request.header in
          record h {
            connection = set_timeout (some h.connection.config.timeout_request) h.connection;
            answering = some (record { handlers = e.handlers; status = status; text = text });
          }
    ]

    -- `upgrade`: the handshake of a connection whose request was read elsewhere.
    unfoldable pub upgrade : ℕ → Handshaking → Handshaking
    unfolding write_answer
    upgrade timeout_idle h =
        write_answer (record h { connection = record h.connection { timeout_idle = timeout_idle } })

    -- What the handler of the request does with what was parsed; a request that is not parsed, and an
    -- error, drop the connection.
    unfoldable pub on_request : Bool × Request × Bytes → Handshaking → Handshaking
    on_request (parsed, request, rest) h =
        let h' = record h { request = request; streambuf = rest } in
        if parsed then write_answer h' else h'

    -- The completion of the read of the request.
    unfoldable pub on_handshake_read : Bool → Option ErrorCode → Bytes → Handshaking → Handshaking
    on_handshake_read lock ec bytes h =
        let h' = record h {
          connection = cancel_timeout h.connection;
          streambuf = h.streambuf ++ bytes;
          reading = false;
        } in
        if lock
        then elim ec [
          | none ↦ on_request (RequestMessage.parse h'.streambuf h'.request) h'
          | some e ↦ h'
        ]
        else h'

-- The completion of the write of the answer.
unfoldable pub on_answered : Bool → Option ErrorCode → Answering → Handshaking → Handshaking
on_answered lock ec a h =
    let c = record (cancel_timeout h.connection) { handlers = a.handlers } in
    let h' = record h { connection = c; answering = none } in
    if lock
    then (if a.status == 101
        then elim ec [
          | none ↦ record h' { connection = read_message (connection_open c) }
          | some e ↦ record h' { connection = connection_error e c }
        ]
        else h')
    else h'

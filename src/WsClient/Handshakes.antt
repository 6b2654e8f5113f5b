-- ===== src/WsClient/Handshakes.antt =====
-- websocket/server_ws.hpp and websocket/client_ws.hpp: both sides of a handshake.
use juce_simpleweb.Prelude.{
  ℕ, ◌≡◌, refl, ap, ◌∙◌, Bool, true, false, Option, none, some, List, [], ◌++◌, length, Bytes,
  codes, All,
}
use juce_simpleweb.Bytes.Search.{Free}
use juce_simpleweb.CaseInsensitive.{Multimap, find_field, case_insensitive_equal}
use juce_simpleweb.Handshake.{hash_of, write_handshake}
use juce_simpleweb.Handshake.AcceptKey.{IsDigest}
use juce_simpleweb.HttpHeader.RoundTrip.{IsField}
use juce_simpleweb.RequestMessage
use juce_simpleweb.RequestMessage.{Request}
use juce_simpleweb.RequestMessage.Scan.{target, query_or, IsQuery}
use juce_simpleweb.WsServer.{
  Connection, read_head, opened, set_timeout, cancel_timeout, timer_for, told, connection_open,
}
use juce_simpleweb.WsServer.Reader.{read_message}
use juce_simpleweb.WsServer.Opening.{
  Endpoint, Answering, Handshaking, find_endpoint, write_answer, on_request, on_handshake_read,
  on_answered,
}
use juce_simpleweb.WsClient.Upgrade.{Address, nonce_base64, corrected_path, upgrade_text}
use juce_simpleweb.WsClient.Request.{IsHost, upgrade_fields, parse-upgrade_text}
use juce_simpleweb.WsClient.Opening.{answer_text, on_response_read-answer}
use juce_simpleweb.WsClient
use juce_simpleweb.WsClient.{ClientConnection}
use juce_simpleweb.WsClient.Reader.{on_response_read}

module _ (regex_match : Bytes → Bytes → Bool) (calc_sha1 : Bytes → Bytes) (memory : Bytes)
    (config_header : Multimap) (endpoints : List Endpoint) where
  write_answer-found :
      (h : Handshaking) (e : Endpoint)
      → find_endpoint regex_match h.request.path endpoints ≡ some e
      → write_answer regex_match calc_sha1 memory config_header endpoints h ≡ record h {
        connection = set_timeout (some h.connection.config.timeout_request) h.connection;
        answering = some (record {
          handlers = e.handlers;
          status =
              (write_handshake calc_sha1 memory config_header e.on_handshake h.request.header).0;
          text = (write_handshake calc_sha1 memory config_header e.on_handshake h.request.header).1;
        });
      }
  unfolding write_answer
  write_answer-found h e f = rw (f, write_answer) refl

-- The connection that the server has opened: its endpoint is told and holds it, and it waits for a
-- frame.
abbrev pub open_at : Endpoint → Connection → Connection
open_at e c = record c {
  handlers = e.handlers;
  joined = true;
  reading = read_head;
  timer = timer_for c.timeout_idle;
  log = c.log ++ told e.handlers.on_open opened;
}

module _ (regex_match : Bytes → Bytes → Bool) (calc_sha1 : Bytes → Bytes) (memory : Bytes)
    (config_header : Multimap) (endpoints : List Endpoint) (a : Address) (nonce : Bytes)
    (header : Multimap) where
  -- The answer at an endpoint without a callback on_handshake.
  abbrev answer_at : Endpoint → Answering
  answer_at e = record {
    handlers = e.handlers;
    status = 101;
    text = answer_text calc_sha1 memory [] config_header a nonce header;
  }

  -- The server between the request and the end of the answer's write.
  abbrev answering_at : Endpoint → Handshaking → Request → Bytes → Handshaking
  answering_at e h request kept = record h {
    connection =
        set_timeout (some h.connection.config.timeout_request) (cancel_timeout h.connection);
    request = request;
    streambuf = kept;
    reading = false;
    answering = some (answer_at e);
  }

  answer_status :
      (o : Option (Multimap → ℕ × Multimap))
      → o ≡ none
      → write_handshake calc_sha1 memory config_header o (upgrade_fields a nonce header)
        ≡ (101, answer_text calc_sha1 memory [] config_header a nonce header)
  unfolding write_handshake find_field case_insensitive_equal
  answer_status o z = rw z refl

  on_answered-opens :
      (e : Endpoint) (h : Handshaking) (request : Request) (kept : Bytes)
      → (on_answered true none (answer_at e) (answering_at e h request kept)).connection
        ≡ open_at e h.connection
  unfolding on_answered read_message connection_open set_timeout cancel_timeout
  on_answered-opens e h request kept = refl

  -- A client's upgrade request, whose path, query, host and additional fields survive the wire, at an
  -- endpoint that matches its path and has no callback on_handshake, however much has arrived
  -- behind it, where the digest has 20 bytes, and the server's configured fields survive the wire and
  -- hold no Sec-WebSocket-Accept. The server writes an answer. When it is written without an error,
  -- the endpoint holds the connection and is told once that it is open, and a frame is awaited. A
  -- client that reads that very answer with nothing in its buffer before, and with any bytes behind
  -- it, is told once that it is open, if on_open is set, and awaits a frame with those bytes in its
  -- buffer, whatever stands in memory behind the digest on either side.
  pub upgrade-opens :
      (proxy : Bool) (path : Bytes) (query : Option Bytes) (h : Handshaking) (e : Endpoint)
      (bytes kept memory' behind : Bytes) (c : ClientConnection)
      → corrected_path proxy a ≡ target path query
      → Free b' ' path
      → Free b'?' path
      → Free b'\n' path
      → IsQuery query
      → IsHost a.host
      → All IsField header
      → find_endpoint regex_match path endpoints ≡ some e
      → e.on_handshake ≡ none
      → h.streambuf ++ bytes ≡ upgrade_text proxy a nonce header ++ kept
      → IsDigest (hash_of calc_sha1 (nonce_base64 nonce))
      → All IsField config_header
      → find_field (codes "Sec-WebSocket-Accept") config_header ≡ none
      → c.in_message.streambuf ≡ []
      → (h' : Handshaking) × (answer : Answering) × (c' : ClientConnection) × (on_handshake_read
            regex_match calc_sha1 memory config_header endpoints true none bytes h
          ≡ h')
        × (h'.answering ≡ some answer)
        × ((on_answered true none answer h').connection ≡ open_at e h.connection)
        × (on_response_read calc_sha1 memory'
              (nonce_base64 nonce)
              true
              none
              (answer.text ++ behind)
              (length answer.text)
              c
            ≡ some c')
        × (c'.log ≡ c.log ++ WsClient.told c.handlers.on_open WsClient.opened)
        × (c'.reading ≡ WsClient.read_head (length behind))
        × (c'.in_message.streambuf ≡ behind)
  unfolding on_handshake_read on_request cancel_timeout
  upgrade-opens proxy path query h e bytes kept memory' behind c t s m l q k hs f z b d fields free
        empty =
      let request : Request = record {
        method = codes "GET";
        path = path;
        query_string = query_or query h.request.query_string;
        version = codes "1.1";
        header = upgrade_fields a nonce header;
      } in
      let base = record h {
        connection = cancel_timeout h.connection;
        streambuf = h.streambuf ++ bytes;
        reading = false;
      } in
      let (c', reads, log, reading, buffer) =
        on_response_read-answer calc_sha1 memory memory' config_header a nonce header behind c d
          fields free empty in
      (
        answering_at e h request kept,
        answer_at e,
        c',
        ap (λ r. on_request regex_match calc_sha1 memory config_header endpoints r base)
              (ap (λ b. RequestMessage.parse b h.request) b
                ∙ parse-upgrade_text proxy a nonce header path query kept h.request t s m l q k hs)
            ∙ write_answer-found regex_match calc_sha1 memory config_header endpoints
                (record base { request = request; streambuf = kept }) e f
            ∙ ap
                (λ w. record base {
                  request = request;
                  streambuf = kept;
                  connection =
                      set_timeout (some h.connection.config.timeout_request)
                        (cancel_timeout h.connection);
                  answering = some (record { handlers = e.handlers; status = w.0; text = w.1 });
                })
                (answer_status e.on_handshake z),
        refl,
        on_answered-opens e h request kept,
        reads,
        log,
        reading,
        buffer,
      )

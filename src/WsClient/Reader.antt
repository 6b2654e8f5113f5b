-- ===== src/WsClient/Reader.antt =====
-- websocket/client_ws.hpp: the handler of the upgrade's response, read_message and
-- read_message_content, with the handlers of their reads. A handler is given the mask of the frame
-- that it may send, whether the scope's lock was obtained, the error code, the bytes that arrived
-- and the number that the read reports. It takes its own read off first, and has started the next
-- one when it returns. The reads count the bytes that arrived behind the response's header.
use juce_simpleweb.Prelude.{
  ℕ, ◌+◌, ◌-◌, ◌%◌, Bool, ◌&&◌, Option, none, some, ◌++◌, leb, ltb, ◌==◌, if◌then◌else◌, length,
  get_or, take, drop, Bytes, bytes_eq, codes, ◌>>=◌,
}
use juce_simpleweb.Frame.{size_t_mod, sum_length}
use juce_simpleweb.Handshake.{resize, check_accept, undefined, opens, refuses}
use juce_simpleweb.ResponseMessage
use juce_simpleweb.ResponseMessage.{Response}
use juce_simpleweb.WsServer.{InMessage}
use juce_simpleweb.WsServer.Reader.{
  is_final, set_final, opcode, fragmented_length, close_status, close_reason,
}
use juce_simpleweb.WsClient.{
  ClientError, protocol_error, permission_denied, message_size, received, pinged, ponged,
  ClientReading, no_read, read_response, read_head, read_content, read_length, ClientConnection,
  new_message, set_timeout, cancel_timeout, send, send_close, notify, connection_open,
  connection_close, connection_error,
}

unfoldable pub read_message : ℕ → ClientConnection → ClientConnection
read_message num_additional_bytes c = record (set_timeout none c) {
  reading = read_head num_additional_bytes;
}

-- What the handler of the response does with the parsed header: the client's own nonce is looked
-- for, and the bytes behind the header are left in the buffer.
unfoldable pub answered :
    (Bytes → Bytes)
    → Bytes
    → Bytes
    → Bool × Response × Bytes
    → ℕ
    → ClientConnection
    → Option ClientConnection
answered calc_sha1 memory nonce_base64 (parsed, response, rest) num_additional_bytes c =
    let c' = record c {
      response = response;
      in_message = record c.in_message { streambuf = rest };
    } in
    if parsed
    then (if bytes_eq (take 4 response.status_code) (codes "101 ")
        then elim (check_accept calc_sha1 memory nonce_base64 response.header) [
          | undefined ↦ none
          | opens ↦ some (read_message num_additional_bytes (connection_open c'))
          | refuses ↦ some (connection_error protocol_error c')
        ]
        else some (connection_error permission_denied c'))
    else some (connection_error protocol_error c')

unfoldable pub on_response :
    (Bytes → Bytes) → Bytes → Bytes → ℕ → ClientConnection → Option ClientConnection
on_response calc_sha1 memory nonce_base64 bytes_transferred c =
    answered calc_sha1 memory nonce_base64 (ResponseMessage.parse c.in_message.streambuf c.response)
      (length c.in_message.streambuf - bytes_transferred) c

module _ (mask : Bytes) where
  -- The two calls that every end of a connection makes.
  abbrev pub refuse : ℕ → Bytes → ClientConnection → Option ClientConnection
  refuse status reason c =
      send_close mask status reason none c >>= λ c'. some (connection_close status reason c')

  -- The sum of the sizes wraps at 64 bits, as that of the source does.
  unfoldable pub read_message_content : ℕ → ClientConnection → Option ClientConnection
  read_message_content num_additional_bytes c =
      if ltb c.config.max_message_size
        ((c.in_message.length + fragmented_length c.fragmented_in_message) % size_t_mod)
      then refuse 1009 (codes "message too big") (connection_error message_size c)
      else some (record (set_timeout none c) { reading = read_content num_additional_bytes })

  -- The two first bytes of a frame are taken off the buffer.
  unfoldable pub head_bytes : ℕ → ClientConnection → Option ClientConnection
  head_bytes num_additional_bytes c =
      let s = c.in_message.streambuf in
      let second = get_or s 1 0 in
      let updated = num_additional_bytes - 2 in
      let m = record c.in_message { fin_rsv_opcode = get_or s 0 0; streambuf = drop 2 s } in
      let c' = record c { in_message = m } in
      if leb 128 second
      then refuse 1002 (codes "message from server masked") c'
      else if second % 128 == 126
      then some (record (set_timeout none c') { reading = read_length 2 updated })
      else if second % 128 == 127
      then some (record (set_timeout none c') { reading = read_length 8 updated })
      else read_message_content updated
          (record c { in_message = record m { length = second % 128 } })

  unfoldable pub on_head : ℕ → ℕ → ClientConnection → Option ClientConnection
  on_head num_additional_bytes bytes_transferred c =
      if bytes_transferred == 0 && length c.in_message.streambuf == 0
      then some (read_message 0 c)
      else head_bytes num_additional_bytes c

  unfoldable pub on_length : ℕ → ℕ → ClientConnection → Option ClientConnection
  on_length num_bytes num_additional_bytes c =
      let s = c.in_message.streambuf in
      read_message_content (num_additional_bytes - num_bytes) (record c {
        in_message = record c.in_message {
          length = sum_length 0 (resize num_bytes s);
          streambuf = drop num_bytes s;
        };
      })

  -- The fragments so far with the next one.
  abbrev pub joined : InMessage → InMessage → InMessage
  joined f m = record f {
    length = (f.length + m.length) % size_t_mod;
    streambuf = f.streambuf ++ m.streambuf;
  }

  -- The message that on_message is given.
  abbrev pub whole : Option InMessage → InMessage → InMessage
  whole none m = m
  whole (some f) m = joined f m

  -- The fragments that are kept behind one that is not the last.
  abbrev pub kept : Option InMessage → InMessage → InMessage
  kept none m = record m { fin_rsv_opcode = set_final m.fin_rsv_opcode }
  kept (some f) m = joined f m

  -- The next message is read.
  abbrev pub next : ℕ → InMessage → ClientConnection → ClientConnection
  next n next_in_message c = read_message n (record c { in_message = next_in_message })

  -- What a complete frame `m` does.
  unfoldable pub handle_frame :
      ℕ → InMessage → InMessage → ClientConnection → Option ClientConnection
  handle_frame n m next_in_message c =
      if opcode m.fin_rsv_opcode == 8
      then (let reason = close_reason m.length m.streambuf in
          refuse (close_status m.length m.streambuf) reason
            (record c { in_message = record m { streambuf = reason } }))
      else if opcode m.fin_rsv_opcode == 9
      then (send mask m.streambuf none ((m.fin_rsv_opcode + 1) % 256) c >>= λ c'.
          some (next n next_in_message (notify c.handlers.on_ping pinged c')))
      else if opcode m.fin_rsv_opcode == 10
      then some (next n next_in_message (notify c.handlers.on_pong ponged c))
      else if is_final m.fin_rsv_opcode
      then (let w = whole c.fragmented_in_message m in
          some (
            next n next_in_message
              (record (notify c.handlers.on_message (received w.fin_rsv_opcode w.length w.streambuf)
                c) { fragmented_in_message = none })))
      else some (
          next n next_in_message
            (record c { fragmented_in_message = some (kept c.fragmented_in_message m) }))

  -- The bytes behind the content, if there are any, go to the next message.
  unfoldable pub on_content : ℕ → ClientConnection → Option ClientConnection
  on_content num_additional_bytes c =
      let m = c.in_message in
      let updated = num_additional_bytes - m.length in
      if ltb 0 updated
      then handle_frame updated (record m { streambuf = take m.length m.streambuf })
          (record m { streambuf = drop m.length m.streambuf }) c
      else handle_frame updated m new_message c

  unfoldable pub on_bytes : ClientReading → ℕ → ClientConnection → Option ClientConnection
  on_bytes no_read transferred c = some c
  on_bytes read_response transferred c = some c
  on_bytes (read_head n) transferred c = on_head n transferred c
  on_bytes (read_length num_bytes n) transferred c = on_length num_bytes n c
  on_bytes (read_content n) transferred c = on_content n c

  -- The completion of a read of a frame.
  unfoldable pub on_read :
      Bool → Option ClientError → Bytes → ClientConnection → Option ClientConnection
  on_read lock ec bytes c =
      let m = record c.in_message { streambuf = c.in_message.streambuf ++ bytes } in
      let c' = record (cancel_timeout c) { in_message = m; reading = no_read } in
      if lock
      then elim ec [
        | none ↦ on_bytes c.reading (length bytes) c'
        | some e ↦ some (connection_error e c')
      ]
      else some c'

-- The completion of the read of the response.
unfoldable pub on_response_read :
    (Bytes → Bytes)
    → Bytes
    → Bytes
    → Bool
    → Option ClientError
    → Bytes
    → ℕ
    → ClientConnection
    → Option ClientConnection
on_response_read calc_sha1 memory nonce_base64 lock ec bytes transferred c =
    let m = record c.in_message { streambuf = c.in_message.streambuf ++ bytes } in
    let c' = record (cancel_timeout c) { in_message = m; reading = no_read } in
    if lock
    then elim ec [
      | none ↦ on_response calc_sha1 memory nonce_base64 transferred c'
      | some e ↦ some (connection_error e c')
    ]
    else some c'

-- The completion of the upgrade's write.
unfoldable pub on_upgrade_written : Bool → Option ClientError → ClientConnection → ClientConnection
on_upgrade_written lock ec c =
    let c' = cancel_timeout c in
    if lock
    then elim ec [
      | none ↦ record (set_timeout (some c.config.timeout_request) c') { reading = read_response }
      | some e ↦ connection_error e c'
    ]
    else c'

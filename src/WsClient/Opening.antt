-- ===== src/WsClient/Opening.antt =====
-- websocket/client_ws.hpp, upgrade, and websocket/server_ws.hpp, write_handshake: the two sides of a
-- handshake, and the messages behind it.
use juce_simpleweb.Prelude.{
  ℕ, ◌-◌, ◌≡◌, refl, sym, ap, ◌∙◌, true, none, some, List, [], ◌∷◌, ◌++◌, arith, length,
  length-append, Bytes, codes, All, All-append,
}
use juce_simpleweb.Base64.Text.{base64_encode-IsPlain}
use juce_simpleweb.CaseInsensitive.{Multimap, find_field, case_insensitive_equal}
use juce_simpleweb.Handshake.{
  hash_of, accept_key, response_header, answer, write_handshake, check_accept, opens, hex_string,
}
use juce_simpleweb.Handshake.AcceptKey.{IsDigest, check_accept-accept_key}
use juce_simpleweb.HttpHeader.RoundTrip.{IsField}
use juce_simpleweb.HttpServer.Arrival.{until, blank_line}
use juce_simpleweb.HttpServer.HeadRead.{field_lines, field_lines-IsLine, head_text-fields}
use juce_simpleweb.HttpServer.Framing.{find_field-append}
use juce_simpleweb.HttpServer.Head.{IsLine, head_text, until-head_line}
use juce_simpleweb.ResponseMessage
use juce_simpleweb.ResponseMessage.{Response}
use juce_simpleweb.ResponseMessage.RoundTrip.{write_response, parse-write_response}
use juce_simpleweb.WsClient
use juce_simpleweb.WsClient.{
  read_head, no_read, told, ClientConnection, connection_open, set_timeout, cancel_timeout,
}
use juce_simpleweb.WsClient.Upgrade.{Address, nonce_base64}
use juce_simpleweb.WsClient.Request.{upgrade_fields, IsPlain-Free, IsPlain-IsValue}
use juce_simpleweb.WsClient.Reader.{read_message, answered, on_response, on_response_read}
use juce_simpleweb.WsClient.Transport.{Reaches, idle, message}
use juce_simpleweb.WsClient.Messages.{
  ServerMessage, server_frames, IsMessage, after_messages, Waits, messages-Reaches,
}

abbrev status : Bytes
status = codes "101 Web Socket Protocol Handshake"

answered-opens :
    (calc_sha1 : Bytes → Bytes) (memory nonce rest : Bytes) (header : Multimap) (n : ℕ)
    (c : ClientConnection)
    → check_accept calc_sha1 memory nonce header ≡ opens
    → answered calc_sha1 memory nonce
        (true, record { version = codes "1.1"; status_code = status; header = header }, rest)
        n
        c
      ≡ some (
          read_message n (
            connection_open (record c {
              response = record { version = codes "1.1"; status_code = status; header = header };
              in_message = record c.in_message { streambuf = rest };
            })))
unfolding answered
answered-opens calc_sha1 memory nonce rest header n c a = rw a refl

module _ (calc_sha1 : Bytes → Bytes) (memory memory' : Bytes) (config_header : Multimap)
    (a : Address) (nonce : Bytes) (header : Multimap) where
  abbrev pub accepted : Multimap
  accepted = response_header calc_sha1 memory (nonce_base64 nonce) config_header

  -- The answer of the server to the client's request, without a callback on_handshake.
  abbrev pub answer_text : Bytes
  answer_text =
      (write_handshake calc_sha1 memory config_header none (upgrade_fields a nonce header)).1

  answer_text-write_response : answer_text ≡ write_response (codes "1.1") status accepted
  unfolding write_handshake answer find_field case_insensitive_equal
  answer_text-write_response = refl

  answer_text-head : answer_text ≡ head_text ((codes "HTTP/1.1 " ++ status) ∷ field_lines accepted)
  answer_text-head =
      answer_text-write_response
      ∙ ap (λ t. codes "HTTP/1.1 101 Web Socket Protocol Handshake" ++ (b'\r' ∷ b'\n' ∷ t))
          (head_text-fields accepted)

  accepted-IsField : All IsField config_header → All IsField accepted
  unfolding accept_key
  accepted-IsField h =
      let key = base64_encode-IsPlain (hex_string calc_sha1 memory (nonce_base64 nonce)) in
      All-append IsField config_header _ h (
        (omega arith, omega arith, omega arith, omega arith),
        (
          (omega arith, omega arith, omega arith, omega arith),
          ((omega arith, omega arith, IsPlain-Free _ key, IsPlain-IsValue _ key), tt),
        ),
      )

  accepted-find :
      find_field (codes "Sec-WebSocket-Accept") config_header ≡ none
      → find_field (codes "Sec-WebSocket-Accept") accepted
        ≡ some (accept_key calc_sha1 memory (nonce_base64 nonce))
  unfolding find_field case_insensitive_equal
  accepted-find h = find_field-append (codes "Sec-WebSocket-Accept") config_header _ h

  -- The connection behind the answer.
  abbrev pub opened : ClientConnection → ClientConnection
  opened c = connection_open (record c {
    response = record { version = codes "1.1"; status_code = status; header = accepted };
  })

  -- The connection in its handler.
  abbrev handler : ClientConnection → Bytes → ClientConnection
  handler c b = record (cancel_timeout c) {
    in_message = record c.in_message { streambuf = b };
    reading = no_read;
  }

  -- The handler of the response, on a buffer that begins with the answer.
  on_response-answer :
      (kept : Bytes) (n : ℕ) (c : ClientConnection)
      → IsDigest (hash_of calc_sha1 (nonce_base64 nonce))
      → All IsField config_header
      → find_field (codes "Sec-WebSocket-Accept") config_header ≡ none
      → n ≡ length answer_text
      → on_response calc_sha1 memory'
          (nonce_base64 nonce)
          n
          (record c { in_message = record c.in_message { streambuf = answer_text ++ kept } })
        ≡ some (
            read_message
              (length kept)
              (opened (record c { in_message = record c.in_message { streambuf = kept } })))
  unfolding on_response
  on_response-answer kept n c d h k size =
      let left : length (answer_text ++ kept) - n ≡ length kept =
        omega (arith, length-append answer_text kept) in
      let c' = record c { in_message = record c.in_message { streambuf = answer_text ++ kept } } in
      ap
        (λ m.
          answered calc_sha1 memory' (nonce_base64 nonce)
            (ResponseMessage.parse (answer_text ++ kept) c.response) m c')
        left
      ∙ ap (λ r. answered calc_sha1 memory' (nonce_base64 nonce) r (length kept) c')
          (ap (λ t. ResponseMessage.parse (t ++ kept) c.response) answer_text-write_response
            ∙ parse-write_response (codes "1.1") status accepted kept c.response (omega arith)
                (omega arith) (omega arith) (accepted-IsField h))
      ∙ answered-opens calc_sha1 memory' (nonce_base64 nonce) kept accepted (length kept) c' (
          check_accept-accept_key calc_sha1 memory memory' (nonce_base64 nonce) accepted d
            (accepted-find k))

  -- The completion of the client's read, when the answer and some bytes behind it have arrived.
  pub on_response_read-answer :
      (behind : Bytes) (c : ClientConnection)
      → IsDigest (hash_of calc_sha1 (nonce_base64 nonce))
      → All IsField config_header
      → find_field (codes "Sec-WebSocket-Accept") config_header ≡ none
      → c.in_message.streambuf ≡ []
      → (c' : ClientConnection) × (on_response_read calc_sha1 memory'
            (nonce_base64 nonce)
            true
            none
            (answer_text ++ behind)
            (length answer_text)
            c
          ≡ some c')
        × (c'.log ≡ c.log ++ told c.handlers.on_open WsClient.opened)
        × (c'.reading ≡ read_head (length behind))
        × (c'.in_message.streambuf ≡ behind)
  unfolding on_response_read read_message set_timeout connection_open cancel_timeout
  on_response_read-answer behind c d h k z = (
    _,
    ap
          (λ s.
            on_response calc_sha1 memory' (nonce_base64 nonce) (length answer_text)
              (handler c (s ++ (answer_text ++ behind))))
          z
        ∙ on_response-answer behind (length answer_text) (handler c behind) d h k refl,
    refl,
    refl,
    refl,
  )

  -- The server's answer to the client's upgrade request, at an endpoint without a callback
  -- on_handshake, where the digest has 20 bytes and the server's configured fields survive the wire
  -- and hold no Sec-WebSocket-Accept; behind it the server sends messages of any number of
  -- fragments, each no control frame and within the client's limit, to a client that keeps no
  -- fragments. When the read up to the empty line completes, with whatever has arrived behind it,
  -- the client opens, and then it is told of the messages, each once and in their order, the
  -- fragments of a message put together.
  pub opens-Reaches :
      (mask : Bytes) (ms : List ServerMessage) (c : ClientConnection) (bytes stream more : Bytes)
      (n : ℕ)
      → IsDigest (hash_of calc_sha1 (nonce_base64 nonce))
      → All IsField config_header
      → find_field (codes "Sec-WebSocket-Accept") config_header ≡ none
      → c.fragmented_in_message ≡ none
      → All (IsMessage c.config.max_message_size) ms
      → (c.in_message.streambuf ++ bytes) ++ stream ≡ answer_text ++ (server_frames ms ++ more)
      → until blank_line (c.in_message.streambuf ++ bytes) ≡ some n
      → (c' : ClientConnection) × (on_response_read calc_sha1 memory'
            (nonce_base64 nonce)
            true
            none
            bytes
            n
            c
          ≡ some c')
        × Reaches mask (Waits (after_messages ms (opened c)) more) c' stream
  unfolding on_response_read read_message set_timeout connection_open cancel_timeout
  opens-Reaches mask ms c bytes stream more n d h k z l e u =
      let lines : All IsLine ((codes "HTTP/1.1 " ++ status) ∷ field_lines accepted) =
        (omega arith, field_lines-IsLine accepted (accepted-IsField h)) in
      let (kept, p, q, size) =
        until-head_line (c.in_message.streambuf ++ bytes) stream (codes "HTTP/1.1 " ++ status)
          (field_lines accepted) (server_frames ms ++ more) n lines
          (e ∙ ap (λ t. t ++ (server_frames ms ++ more)) answer_text-head) u in
      let m = message c.in_message.fin_rsv_opcode c.in_message.length kept in
      (
        idle (opened c) m (read_head (length kept)),
        ap (λ b. on_response calc_sha1 memory' (nonce_base64 nonce) n (handler c b))
              (p ∙ ap (λ t. t ++ kept) (sym answer_text-head))
            ∙ on_response-answer kept n (handler c kept) d h k
                (size ∙ ap length (sym answer_text-head)),
        messages-Reaches mask ms (opened c) m stream more z l q,
      )

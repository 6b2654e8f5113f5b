-- ===== src/WsClient/Transport.antt =====
-- websocket/client_ws.hpp: the reads of a client over a stream of bytes, some of which may be in the
-- buffer already. Each read completes with exactly the bytes that it asked for, the scope's lock
-- and no error.
use juce_simpleweb.Prelude.{
  ℕ, ◌-◌, ◌≡◌, refl, sym, ap, ◌∙◌, true, Option, none, some, ◌++◌, length, Bytes,
}
use juce_simpleweb.Buffers.{refill}
use juce_simpleweb.WsServer.{InMessage}
use juce_simpleweb.WsClient.{
  ClientReading, no_read, read_response, read_head, read_content, read_length, ClientConnection,
  cancel_timeout, idle_timer, cancelled_timer,
}
use juce_simpleweb.WsClient.Reader.{on_bytes, on_read}

-- `transfer_exactly(n)` of the read that is under way.
abbrev pub transfer : ClientConnection → ClientReading → Option ℕ
transfer c no_read = none
transfer c read_response = none
transfer c (read_head n) = some (2 - n)
transfer c (read_length num_bytes n) = some (num_bytes - n)
transfer c (read_content n) = some (c.in_message.length - n)

-- The reads take the connection to a state with the property, which may speak of the bytes that
-- are not read then.
pub data Reaches (mask : Bytes) (P : ClientConnection → Bytes → Type 0)
    : ClientConnection → Bytes → Type 0 where
  now : {c : ClientConnection} {stream : Bytes} → P c stream → Reaches mask P c stream
  read :
      {c c' : ClientConnection} (bytes : Bytes) {rest stream : Bytes}
      → transfer c c.reading ≡ some (length bytes)
      → on_read mask true none bytes c ≡ some c'
      → stream ≡ bytes ++ rest
      → Reaches mask P c' rest
      → Reaches mask P c stream

-- The connection that waits for a read, and that of its handler.
abbrev pub idle : ClientConnection → InMessage → ClientReading → ClientConnection
idle c m r = record c { timer = idle_timer c.timeout_idle; in_message = m; reading = r }

abbrev pub busy : ClientConnection → InMessage → ClientConnection
busy c m = record c {
  timer = cancelled_timer (idle_timer c.timeout_idle);
  in_message = m;
  reading = no_read;
}

abbrev pub message : ℕ → ℕ → Bytes → InMessage
message op n s = record { fin_rsv_opcode = op; length = n; streambuf = s }

module _ (mask : Bytes) (P : ClientConnection → Bytes → Type 0) where
  on_read-idle :
      (bytes : Bytes) (c : ClientConnection) (m : InMessage) (r : ClientReading)
      → on_read mask true none bytes (idle c m r)
        ≡ on_bytes mask r
            (length bytes)
            (busy c (message m.fin_rsv_opcode m.length (m.streambuf ++ bytes)))
  unfolding on_read cancel_timeout
  on_read-idle bytes c m r = refl

  -- A read that asks for what is missing of `front` has it in the buffer.
  pub one_read :
      (c : ClientConnection) (m : InMessage) (r : ClientReading) (stream front more : Bytes)
      → transfer (idle c m r) r ≡ some (length front - length m.streambuf)
      → m.streambuf ++ stream ≡ front ++ more
      → ((left stream' : Bytes)
          → left ++ stream' ≡ more
          → length left ≡ length m.streambuf - length front
          → (c' : ClientConnection) × (on_bytes mask r
                (length front - length m.streambuf)
                (busy c (message m.fin_rsv_opcode m.length (front ++ left)))
              ≡ some c')
            × Reaches mask P c' stream')
      → Reaches mask P (idle c m r) stream
  one_read c m r stream front more t e k =
      let f = refill m.streambuf stream front more e in
      let (c', p, rest) = k f.left' f.stream' f.still f.size_left in
      read f.bytes (t ∙ ap some (sym f.size))
        (on_read-idle f.bytes c m r
          ∙ ap
              (λ n.
                on_bytes mask r n
                  (busy c (message m.fin_rsv_opcode m.length (m.streambuf ++ f.bytes))))
              f.size
          ∙ ap
              (λ s.
                on_bytes mask r (length front - length m.streambuf)
                  (busy c (message m.fin_rsv_opcode m.length s)))
              f.buffer
          ∙ p)
        f.split rest

-- ===== src/WsServer/Messages.antt =====
-- websocket/server_ws.hpp: what the endpoint is told of the messages that a client sends, whole
-- or in fragments.
use juce_simpleweb.Prelude.{
  ℕ, ◌+◌, ◌<◌, ◌≡◌, ◌≢◌, refl, ap, ◌∙◌, true, false, Option, none, some, [], ◌++◌, length, Bytes,
  ne→==_false,
}
use juce_simpleweb.Frame.{size_t_mod, client_frame}
use juce_simpleweb.WsServer.{
  InMessage, read_head, received, Connection, timer_for, told, notify, set_timeout, cancel_timeout,
}
use juce_simpleweb.WsServer.Reader.{read_message, handle_frame, target, is_final, opcode}
use juce_simpleweb.WsServer.Transport.{Delivers, Delivers-client_frame, Fits, ready, receive, four}

-- A frame as a client sends it: its mask and its message.
pub record Sent : Type 0 where
  pub m0 : ℕ
  pub m1 : ℕ
  pub m2 : ℕ
  pub m3 : ℕ
  pub payload : Bytes

abbrev pub frame_of : ℕ → Sent → Bytes
frame_of op s = client_frame op (four s.m0 s.m1 s.m2 s.m3) s.payload

-- The opcodes of data frames: neither a continuation nor a control frame.
abbrev pub IsData : ℕ → Type 0
IsData op = (opcode op ≢ 0) × (opcode op ≢ 8) × (opcode op ≢ 9) × (opcode op ≢ 10)

-- The connection after a message: told to the endpoint, no fragments kept, and reading again.
abbrev pub after_message : ℕ → ℕ → Bytes → Connection → Connection
after_message op n content c = record c {
  timer = timer_for c.timeout_idle;
  reading = read_head;
  fragmented_in_message = none;
  log = c.log ++ told c.handlers.on_message (received op n content);
}

-- The last branch of the handler: a final frame that is no control frame.
pub handle_frame-message :
    (op n : ℕ) (m : InMessage) (c : Connection)
    → is_final op ≡ true
    → opcode op ≢ 8
    → opcode op ≢ 9
    → opcode op ≢ 10
    → handle_frame op n m c
      ≡ some (
          read_message
            (record (notify c.handlers.on_message
              (received m.fin_rsv_opcode m.length m.streambuf)
              c) { fragmented_in_message = none }))
unfolding handle_frame
handle_frame-message op n m c f a b d =
    rw (ne→==_false _ _ a, ne→==_false _ _ b, ne→==_false _ _ d, f)

-- The branch before it: a fragment that is not the last.
pub handle_frame-fragment :
    (op n : ℕ) (m : InMessage) (c : Connection)
    → is_final op ≡ false
    → opcode op ≢ 8
    → opcode op ≢ 9
    → opcode op ≢ 10
    → handle_frame op n m c ≡ some (read_message c)
unfolding handle_frame
handle_frame-fragment op n m c f a b d =
    rw (ne→==_false _ _ a, ne→==_false _ _ b, ne→==_false _ _ d, f)

pub read_message-notified :
    (op n : ℕ) (content : Bytes) (c : Connection)
    → read_message (record (notify c.handlers.on_message (received op n content) c) {
      fragmented_in_message = none;
    })
      ≡ after_message op n content c
unfolding read_message set_timeout
read_message-notified op n content c = refl

pub after_message-ready :
    (op n : ℕ) (content : Bytes) (c : Connection)
    → after_message op n content (ready c) ≡ after_message op n content c
unfolding set_timeout cancel_timeout
after_message-ready op n content c = refl

target-whole :
    (op n : ℕ) (kept : Option InMessage)
    → is_final op ≡ true
    → opcode op ≢ 0
    → target op n kept ≡ record { fin_rsv_opcode = op; length = n; streambuf = [] }
unfolding target
target-whole op n none f a = rw (f, ne→==_false _ _ a)
target-whole op n (some m) f a = rw (f, ne→==_false _ _ a)

receive_message :
    (op : ℕ) (payload : Bytes) (c : Connection)
    → is_final op ≡ true
    → IsData op
    → receive op payload (ready c) ≡ some (after_message op (length payload) payload c)
unfolding receive
receive_message op payload c f (a, b, d, e) =
    rw (target-whole op (length payload) (ready c).fragmented_in_message f a) (
      handle_frame-message op (length payload) _ _ f b d e
      ∙ ap some (read_message-notified op (length payload) payload (ready c))
      ∙ ap some (after_message-ready op (length payload) payload c))

-- A final data frame of a client, read by a connection that waits for a frame and keeps no
-- fragments, reaches on_message once, if that is set, with its opcode, its size and the bytes
-- that were sent; then the connection waits for the next frame. The message must fit the
-- configured size.
pub Delivers-message :
    (op : ℕ) (s : Sent) (c : Connection)
    → c.reading ≡ read_head
    → c.fragmented_in_message ≡ none
    → is_final op ≡ true
    → IsData op
    → length s.payload + 4 < size_t_mod
    → Fits (length s.payload) c
    → Delivers c (frame_of op s) (after_message op (length s.payload) s.payload c)
Delivers-message op s c r n f i h k =
    Delivers-client_frame op s.m0 s.m1 s.m2 s.m3 s.payload c _ r h k
      (receive_message op s.payload c f i)

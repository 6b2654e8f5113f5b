-- ===== src/WsServer/Control.antt =====
-- websocket/server_ws.hpp: the control frames that a client sends: ping, pong and close.
use juce_simpleweb.Prelude.{
  ℕ, ◌+◌, ◌%◌, ◌<◌, ◌≡◌, ◌≢◌, ap, ◌∙◌, Bool, true, false, Option, none, some, [], ◌++◌, arith,
  length, Bytes, ◌>>=◌, ne→==_false,
}
use juce_simpleweb.Frame.{size_t_mod, client_frame}
use juce_simpleweb.SendQueue.{SendQueue, enqueue}
use juce_simpleweb.WsServer.{
  InMessage, Frame, no_read, read_head, Event, pinged, ponged, closes, Connection, timer_for,
  close_message, told, notify, set_timeout, cancel_timeout, send,
}
use juce_simpleweb.WsServer.Reader.{
  read_message, handle_frame, target, is_fragment, is_final, opcode, refuse, close_status,
  close_reason,
}
use juce_simpleweb.WsServer.Transport.{Delivers, Delivers-client_frame, Fits, ready, receive, four}
use juce_simpleweb.WsServer.Messages.{Sent, frame_of}
use juce_simpleweb.WsServer.Limits.{frame_for, send-queues, refuse-Refused, Answer}
use juce_simpleweb.SendQueue.Total.{enqueue-total}

-- A control frame is never a fragment, so its content goes to a message of its own.
control-own :
    (op : ℕ) (kept : Option InMessage) (n : ℕ)
    → is_final op ≡ true
    → opcode op ≢ 0
    → target op n kept ≡ record { fin_rsv_opcode = op; length = n; streambuf = [] }
unfolding target
control-own op none n f a = rw (f, ne→==_false _ _ a)
control-own op (some m) n f a = rw (f, ne→==_false _ _ a)

control-apart : (op : ℕ) → is_final op ≡ true → opcode op ≢ 0 → is_fragment op ≡ false
control-apart op f a = rw (f, ne→==_false _ _ a)

receive-control :
    (op : ℕ) (payload : Bytes) (c : Connection)
    → is_final op ≡ true
    → opcode op ≢ 0
    → receive op payload c
      ≡ handle_frame op
          (length payload)
          (record { fin_rsv_opcode = op; length = length payload; streambuf = payload })
          c
unfolding receive
receive-control op payload c f a =
    rw (control-own op c.fragmented_in_message (length payload) f a, control-apart op f a)

handle_frame-ping :
    (op n : ℕ) (m : InMessage) (c : Connection)
    → opcode op ≡ 9
    → handle_frame op n m c ≡ (
        send m.streambuf none ((op + 1) % 256) c >>= λ c'.
        some (read_message (notify c.handlers.on_ping pinged c')))
unfolding handle_frame
handle_frame-ping op n m c o = rw o

handle_frame-pong :
    (op n : ℕ) (m : InMessage) (c : Connection)
    → opcode op ≡ 10
    → handle_frame op n m c ≡ some (read_message (notify c.handlers.on_pong ponged c))
unfolding handle_frame
handle_frame-pong op n m c o = rw o

handle_frame-close :
    (op n : ℕ) (m : InMessage) (c : Connection)
    → opcode op ≡ 8
    → handle_frame op n m c ≡ refuse (close_status n m.streambuf) (close_reason n m.streambuf) c
unfolding handle_frame
handle_frame-close op n m c o = rw o

-- The connection after a ping or a pong: the queue is `q`, and it reads again.
abbrev pub after_control : Event → Bool → SendQueue Frame → Connection → Connection
after_control e is_set q c = record c {
  queue = q;
  timer = timer_for c.timeout_idle;
  reading = read_head;
  log = c.log ++ told is_set e;
}

receive_ping :
    (op : ℕ) (payload : Bytes) (c : Connection) (q : SendQueue Frame)
    → is_final op ≡ true
    → opcode op ≡ 9
    → enqueue (frame_for ((op + 1) % 256) payload) none c.queue ≡ some q
    → receive op payload (ready c) ≡ some (after_control pinged c.handlers.on_ping q c)
unfolding read_message set_timeout cancel_timeout
receive_ping op payload c q f o e =
    receive-control op payload (ready c) f (λ z. omega arith)
    ∙ handle_frame-ping op (length payload) _ (ready c) o
    ∙ rw (send-queues payload none ((op + 1) % 256) (ready c) q e)

-- A final ping frame of a client, of a size that fits, read by a connection that waits for a
-- frame, is answered: one frame is queued, with the opcode byte one higher, which is that of a
-- pong, and the very bytes of the ping. on_ping is told if it is set, the kept fragments stay,
-- and the connection reads on.
pub Delivers-ping :
    (op : ℕ) (s : Sent) (c : Connection)
    → c.reading ≡ read_head
    → is_final op ≡ true
    → op < 256
    → opcode op ≡ 9
    → length s.payload + 4 < size_t_mod
    → Fits (length s.payload) c
    → (q : SendQueue Frame) × (enqueue (frame_for (op + 1) s.payload) none c.queue ≡ some q)
      × (opcode (op + 1) ≡ 10)
      × Delivers c (frame_of op s) (after_control pinged c.handlers.on_ping q c)
Delivers-ping op s c r f b o h k =
    let (q, e) = enqueue-total (frame_for ((op + 1) % 256) s.payload) none c.queue in
    (
      q,
      ap (λ p. enqueue (frame_for p s.payload) none c.queue) same ∙ e,
      omega arith,
      Delivers-client_frame op s.m0 s.m1 s.m2 s.m3 s.payload c _ r h k
          (receive_ping op s.payload c q f o e),
    )
  where
    same : op + 1 ≡ (op + 1) % 256
    same = omega arith

receive_pong :
    (op : ℕ) (payload : Bytes) (c : Connection)
    → is_final op ≡ true
    → opcode op ≡ 10
    → receive op payload (ready c) ≡ some (after_control ponged c.handlers.on_pong c.queue c)
unfolding read_message set_timeout cancel_timeout
receive_pong op payload c f o =
    receive-control op payload (ready c) f (λ z. omega arith)
    ∙ handle_frame-pong op (length payload) _ (ready c) o

-- A final pong frame of a client, of a size that fits, read by a connection that waits for a
-- frame, is told to on_pong if that is set; no frame is queued, the kept fragments stay, and
-- the connection reads on.
pub Delivers-pong :
    (op : ℕ) (s : Sent) (c : Connection)
    → c.reading ≡ read_head
    → is_final op ≡ true
    → opcode op ≡ 10
    → length s.payload + 4 < size_t_mod
    → Fits (length s.payload) c
    → Delivers c (frame_of op s) (after_control ponged c.handlers.on_pong c.queue c)
Delivers-pong op s c r f o h k =
    Delivers-client_frame op s.m0 s.m1 s.m2 s.m3 s.payload c _ r h k
      (receive_pong op s.payload c f o)

status-close_message :
    (status : ℕ) (reason : Bytes)
    → status < 65536
    → close_status (length (close_message status reason)) (close_message status reason) ≡ status
status-close_message status reason b = ground (arith)

reason-close_message :
    (status : ℕ) (reason : Bytes)
    → close_reason (length (close_message status reason)) (close_message status reason) ≡ reason
reason-close_message status reason = ground (arith)

receive_close :
    (op status : ℕ) (reason : Bytes) (c d : Connection)
    → is_final op ≡ true
    → opcode op ≡ 8
    → status < 65536
    → refuse status reason (ready c) ≡ some d
    → receive op (close_message status reason) (ready c) ≡ some d
receive_close op status reason c d f o b e =
    let message = close_message status reason in
    receive-control op (close_message status reason) (ready c) f (λ z. omega arith)
    ∙ handle_frame-close op (length (close_message status reason)) _ (ready c) o
    ∙ ap (λ r. refuse (close_status (length message) message) r (ready c))
        (reason-close_message status reason)
    ∙ ap (λ n. refuse n reason (ready c)) (status-close_message status reason b)
    ∙ e

-- A final close frame of a client that carries a status of 16 bits and a reason, of a size that
-- fits, read by a connection that waits for a frame: on_close is told that status and that
-- reason if it is set, the connection leaves its endpoint and starts no further read. A close
-- frame with the status and the reason is queued, unless one was sent before; then the queue
-- stays.
pub Delivers-close :
    (op status m0 m1 m2 m3 : ℕ) (reason : Bytes) (c : Connection)
    → c.reading ≡ read_head
    → is_final op ≡ true
    → opcode op ≡ 8
    → status < 65536
    → length reason + 6 < size_t_mod
    → Fits (length reason + 2) c
    → (d : Connection) × Delivers c
        (client_frame op (four m0 m1 m2 m3) (close_message status reason))
        d
      × (d.closed ≡ true)
      × (d.joined ≡ false)
      × (d.reading ≡ no_read)
      × (d.log ≡ c.log ++ told c.handlers.on_close (closes status reason))
      × Answer (close_message status reason) c d
unfolding cancel_timeout set_timeout
Delivers-close op status m0 m1 m2 m3 reason c r f o b h k =
    let message = close_message status reason in
    let (d, e, g) = refuse-Refused status reason (ready c) in
    (
      d,
      Delivers-client_frame op m0 m1 m2 m3 message c d r (omega arith) (omega arith, omega arith)
          (receive_close op status reason c d f o b e),
      g.is_closed,
      g.left,
      g.reads_on,
      g.on_close,
      g.answer,
    )

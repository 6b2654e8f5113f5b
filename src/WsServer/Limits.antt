-- ===== src/WsServer/Limits.antt =====
-- websocket/server_ws.hpp: the frames that a connection refuses, and the size check.
use juce_simpleweb.Prelude.{
  ℕ, ◌+◌, ◌-◌, ◌%◌, ◌≤◌, ◌<◌, ◌≡◌, refl, ◌∙◌, true, false, Option, none, some, [], ◌∷◌, ◌++◌, arith,
  ltb, lt→ltb, ltb→lt, ◌==◌, if◌then◌else◌, length, Bytes, Bool-cases, ◌⊎◌, inl, inr, codes,
}
use juce_simpleweb.Frame.{size_t_mod, server_header}
use juce_simpleweb.SendQueue.{SendQueue, enqueue}
use juce_simpleweb.SendQueue.Total.{enqueue-total}
use juce_simpleweb.WsServer.{
  InMessage, Frame, no_read, read_head, read_content, Connection, closes, fails, message_size, told,
  timer_for, close_message, cancel_timeout, send, send_close, connection_close, connection_error,
}
use juce_simpleweb.WsServer.Transport.{taken, waiting, on_read-head}
use juce_simpleweb.WsServer.Reader.{
  on_read, head_bytes, refuse, read_message_content, fragmented_length,
}

-- The frame that a send queues.
abbrev pub frame_for : ℕ → Bytes → Frame
frame_for op message = record {
  out_header = server_header op (length message);
  out_message = message;
}

-- A sent message changes the queue and perhaps the timer.
pub send-queues :
    (message : Bytes) (callback : Option ℕ) (op : ℕ) (c : Connection) (q : SendQueue Frame)
    → enqueue (frame_for op message) callback c.queue ≡ some q
    → send message callback op c
      ≡ some (record c {
        queue = q;
        timer = if length q.send_queue == 1 then timer_for c.timeout_idle else c.timer;
      })
unfolding send
send-queues message callback op c q e = rw e

-- A close frame is queued if none was sent before.
abbrev pub Answer : Bytes → Connection → Connection → Type 0
Answer message c d =
    (c.closed ≡ true) × (d.queue ≡ c.queue)
    ⊎ (c.closed ≡ false) × (enqueue (frame_for 136 message) none c.queue ≡ some d.queue)

-- What a refusal leaves alone, and what it changes.
pub record Refused (status : ℕ) (reason : Bytes) (c d : Connection) : Type 0 where
  pub is_closed : d.closed ≡ true
  pub left : d.joined ≡ false
  pub reads_on : d.reading ≡ c.reading
  pub on_close : d.log ≡ c.log ++ told c.handlers.on_close (closes status reason)
  pub answer : Answer (close_message status reason) c d

pub refuse-Refused :
    (status : ℕ) (reason : Bytes) (c : Connection)
    → (d : Connection) × (refuse status reason c ≡ some d) × Refused status reason c d
unfolding send_close connection_close
refuse-Refused status reason c = elim (Bool-cases c.closed) [
  | inl again ↦ (
    connection_close status reason c,
    rw again,
    record {
      is_closed = again;
      left = refl;
      reads_on = refl;
      on_close = refl;
      answer = inl (again, refl);
    },
  )
  | inr first ↦
      let (q, e) = enqueue-total (frame_for 136 (close_message status reason)) none c.queue in
      (
        connection_close status reason (record c {
          closed = true;
          queue = q;
          timer = if length q.send_queue == 1 then timer_for c.timeout_idle else c.timer;
        }),
        rw first (
            rw (
              send-queues (close_message status reason) none 136 (record c { closed = true }) q e)),
        record {
          is_closed = refl;
          left = refl;
          reads_on = refl;
          on_close = refl;
          answer = inr (first, e);
        },
      )
]

abbrev pub unmasked_reason : Bytes
unmasked_reason = codes "message from client not masked"

head_bytes-unmasked :
    (op second : ℕ) (c : Connection)
    → second < 128
    → head_bytes op second c ≡ refuse 1002 unmasked_reason c
unfolding head_bytes
head_bytes-unmasked op second c h = rw (lt→ltb second 128 h)

-- A connection that waits for a frame and reads a head with no mask bit refuses it: it counts
-- as closed, it leaves its endpoint, on_close is told of status 1002 if it is set, and no
-- further read is started.
pub unmasked_refused :
    (op second : ℕ) (c : Connection)
    → c.reading ≡ read_head
    → second < 128
    → (d : Connection) × (on_read true none (op ∷ second ∷ []) c ≡ some d)
      × (d.closed ≡ true)
      × (d.joined ≡ false)
      × (d.reading ≡ no_read)
      × (d.log ≡ c.log ++ told c.handlers.on_close (closes 1002 unmasked_reason))
unfolding cancel_timeout
unmasked_refused op second c r h =
    let (d, e, f) = refuse-Refused 1002 unmasked_reason (taken c) in
    (
      d,
      on_read-head op second c r ∙ head_bytes-unmasked op second (taken c) h ∙ e,
      f.is_closed,
      f.left,
      f.reads_on,
      f.on_close,
    )

abbrev pub size_reason : Bytes
size_reason = codes "message too big"

-- The size that the check compares, as 64 bits hold it.
abbrev pub checked_size : ℕ → Connection → ℕ
checked_size n c = (n + fragmented_length c.fragmented_in_message) % size_t_mod

-- What the check does with a frame of `n` bytes that it refuses.
abbrev pub TooBig : ℕ → ℕ → Connection → Type 0
TooBig n op c =
    (d : Connection) × (read_message_content n op c ≡ some d)
    × (d.closed ≡ true)
    × (d.joined ≡ false)
    × (d.reading ≡ c.reading)
    × (d.log
        ≡ (c.log ++ told c.handlers.on_error (fails message_size))
          ++ told c.handlers.on_close (closes 1009 size_reason))

too_big :
    (n op : ℕ) (c : Connection)
    → ltb c.config.max_message_size (checked_size n c) ≡ true
    → TooBig n op c
unfolding read_message_content connection_error
too_big n op c h =
    let (d, e, f) = refuse-Refused 1009 size_reason (connection_error message_size c) in
    (d, rw h e, f.is_closed, f.left, f.reads_on, f.on_close)

pub within_size :
    (n op : ℕ) (c : Connection)
    → checked_size n c ≤ c.config.max_message_size
    → read_message_content n op c ≡ some (waiting (read_content n op) c)
unfolding read_message_content
within_size n op c h = ground arith

-- Of two cases, one holds. Either the sum of a frame's length and the kept fragments, on 64 bits,
-- is within the limit, and the content is read next; or it is beyond the limit, and the connection
-- is closed with status 1009, leaves its endpoint, starts no read, and tells on_error and on_close.
pub size_checked :
    (n op : ℕ) (c : Connection)
    → (checked_size n c ≤ c.config.max_message_size)
        × (read_message_content n op c ≡ some (waiting (read_content n op) c))
      ⊎ (c.config.max_message_size < checked_size n c) × TooBig n op c
size_checked n op c = elim (Bool-cases (ltb c.config.max_message_size (checked_size n c))) [
  | inl big ↦ inr (ltb→lt _ _ big, too_big n op c big)
  | inr small ↦
      let leq : checked_size n c ≤ c.config.max_message_size = ground arith in
      inl (leq, within_size n op c leq)
]

-- The sum can wrap: with a kept fragment of at least one byte, and a limit below 2 ^ 64, some
-- announced length passes the check and its content is read, although the two lengths together
-- are beyond the limit.
pub size_check_wraps :
    (op : ℕ) (c : Connection) (m : InMessage)
    → c.fragmented_in_message ≡ some m
    → 0 < m.length
    → m.length < size_t_mod
    → c.config.max_message_size < size_t_mod
    → (n : ℕ) × (n < size_t_mod)
      × (c.config.max_message_size < n + fragmented_length c.fragmented_in_message)
      × (read_message_content n op c ≡ some (waiting (read_content n op) c))
size_check_wraps op c m k h g f = (
  size_t_mod - m.length,
  omega arith,
  rw k (omega arith),
  within_size (size_t_mod - m.length) op c (rw k (omega arith)),
)

-- ===== src/WsServer.antt =====
-- websocket/server_ws.hpp: one connection of a socket server, at its endpoint. The state is that
-- of `Connection`, whether the endpoint's `connections` holds it, the asynchronous read that is
-- under way, and the callbacks of the endpoint that were called. The program's callbacks are
-- opaque: a call is recorded, and what a callback does to the connection is a further operation.
-- A result `none` stands for undefined behaviour of the send queue.
pub mod Reader
pub mod Opening
pub mod Transport
pub mod Messages
pub mod Fragments
pub mod Limits
pub mod Control
pub mod Events
pub mod ReadEvents
use juce_simpleweb.Prelude.{
  ℕ, ◌+◌, ◌/◌, ◌%◌, Bool, true, false, Option, none, some, List, [], ◌∷◌, ◌++◌, ◌==◌, if◌then◌else◌,
  length, Bytes, ◌>>=◌,
}
use juce_simpleweb.Frame.{server_header}
use juce_simpleweb.SendQueue
use juce_simpleweb.SendQueue.{SendQueue}

pub data ErrorCode : Type 0 where
  message_size : ErrorCode
  network : ℕ → ErrorCode

pub data Event : Type 0 where
  opened pinged ponged : Event
  received : ℕ → ℕ → Bytes → Event
  closes : ℕ → Bytes → Event
  fails : ErrorCode → Event

-- Which callbacks of the `Endpoint` are set.
pub record Handlers : Type 0 where
  pub on_open : Bool
  pub on_message : Bool
  pub on_close : Bool
  pub on_error : Bool
  pub on_ping : Bool
  pub on_pong : Bool

pub record Config : Type 0 where
  pub timeout_request : ℕ
  pub timeout_idle : ℕ
  pub max_message_size : ℕ

pub data Timer : Type 0 where
  no_timer cancelled : Timer
  armed : ℕ → Timer

-- `InMessage`: its opcode byte, the `length` that `size()` gives, and its buffer.
pub record InMessage : Type 0 where
  pub fin_rsv_opcode : ℕ
  pub length : ℕ
  pub streambuf : Bytes

-- `OutData` less its callback: the header and the message of a frame.
pub record Frame : Type 0 where
  pub out_header : Bytes
  pub out_message : Bytes

-- The read that is under way, with what its handler has captured.
pub data Reading : Type 0 where
  no_read read_head : Reading
  read_length : ℕ → ℕ → Reading
  read_content : ℕ → ℕ → Reading

pub record Connection : Type 0 where
  pub config : Config
  pub handlers : Handlers
  pub timeout_idle : ℕ
  pub timer : Timer
  pub closed : Bool
  pub socket_open : Bool
  pub queue : SendQueue Frame
  pub fragmented_in_message : Option InMessage
  pub reading : Reading
  pub joined : Bool
  pub log : List Event

-- `close`: shut the socket down and cancel its operations.
unfoldable pub close : Connection → Connection
close c = record c { socket_open = false }

-- The timer after `set_timeout`: none for zero seconds, and a fresh one otherwise.
abbrev pub timer_for : ℕ → Timer
timer_for seconds = if seconds == 0 then no_timer else armed seconds

-- `set_timeout(seconds)`; `none` is the default argument -1, for the idle timeout.
unfoldable pub set_timeout : Option ℕ → Connection → Connection
set_timeout none c = record c { timer = timer_for c.timeout_idle }
set_timeout (some seconds) c = record c { timer = timer_for seconds }

abbrev pub cancelled_timer : Timer → Timer
cancelled_timer no_timer = no_timer
cancelled_timer cancelled = cancelled
cancelled_timer (armed seconds) = cancelled

unfoldable pub cancel_timeout : Connection → Connection
cancel_timeout c = record c { timer = cancelled_timer c.timer }

-- The handler of the timer: only one that was not cancelled closes the connection.
unfoldable pub on_timer : Connection → Connection
on_timer c = elim c.timer [ armed _ ↦ close c | _ ↦ c ]

-- `send`: a write that starts at once also sets the idle timeout.
unfoldable pub send : Bytes → Option ℕ → ℕ → Connection → Option Connection
send out_message callback fin_rsv_opcode c = do
  let frame : Frame = record {
    out_header = server_header fin_rsv_opcode (length out_message);
    out_message = out_message;
  }
  q ← SendQueue.enqueue frame callback c.queue
  some (record c {
    queue = q;
    timer = if length q.send_queue == 1 then timer_for c.timeout_idle else c.timer;
  })

-- The handler of a write; a write that it starts sets the same idle timeout again.
unfoldable pub on_written : Bool → Bool → Connection → Option Connection
on_written lock failed c = do
  q ← SendQueue.on_written lock failed c.queue
  some (record (set_timeout none c) { queue = q })

-- The bytes of the status and the reason.
abbrev pub close_message : ℕ → Bytes → Bytes
close_message status reason = status / 256 % 256 ∷ status % 256 ∷ reason

-- Only the first call sends a close frame.
unfoldable pub send_close : ℕ → Bytes → Option ℕ → Connection → Option Connection
send_close status reason callback c =
    if c.closed
    then some c
    else send (close_message status reason) callback 136 (record c { closed = true })

-- A call of a callback of the endpoint, if it is set.
abbrev pub told : Bool → Event → List Event
told is_set e = if is_set then e ∷ [] else []

abbrev pub notify : Bool → Event → Connection → Connection
notify is_set e c = record c { log = c.log ++ told is_set e }

unfoldable pub connection_open : Connection → Connection
connection_open c = notify c.handlers.on_open opened (record c { joined = true })

unfoldable pub connection_close : ℕ → Bytes → Connection → Connection
connection_close status reason c =
    notify c.handlers.on_close (closes status reason) (record c { joined = false })

unfoldable pub connection_error : ErrorCode → Connection → Connection
connection_error ec c = notify c.handlers.on_error (fails ec) (record c { joined = false })

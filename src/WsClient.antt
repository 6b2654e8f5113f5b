-- ===== src/WsClient.antt =====
-- websocket/client_ws.hpp: the connection of a socket client. The state is that of `Connection`,
-- the asynchronous read that is under way, and the callbacks of the client that were called. The
-- callbacks are opaque: a call is recorded, and what a callback does to the connection is a further
-- operation. A mask is what `std::random_device` gave for a frame. A result `none` stands for
-- undefined behaviour.
pub mod Upgrade
pub mod Connect
pub mod Reader
pub mod Transport
pub mod Steps
pub mod Frames
pub mod Messages
pub mod Request
pub mod Opening
pub mod Handshakes
use juce_simpleweb.Prelude.{
  ℕ, ◌+◌, Bool, true, false, Option, none, some, List, [], ◌∷◌, ◌++◌, ◌==◌, if◌then◌else◌, length,
  Bytes, codes, ◌>>=◌,
}
use juce_simpleweb.Frame.{client_frame}
use juce_simpleweb.ResponseMessage.{Response}
use juce_simpleweb.SendQueue
use juce_simpleweb.SendQueue.{SendQueue}
use juce_simpleweb.WsServer.{Config, Handlers, InMessage, close_message}

pub data ClientError : Type 0 where
  protocol_error permission_denied message_size : ClientError
  network : ℕ → ClientError

pub data ClientEvent : Type 0 where
  opened pinged ponged : ClientEvent
  received : ℕ → ℕ → Bytes → ClientEvent
  closes : ℕ → Bytes → ClientEvent
  fails : ClientError → ClientEvent

-- The timer of the idle timeout differs from the others in what it does.
pub data ClientTimer : Type 0 where
  no_timer cancelled : ClientTimer
  armed armed_idle : ℕ → ClientTimer

-- The read that is under way, with the number of bytes that its handler has captured.
pub data ClientReading : Type 0 where
  no_read read_response : ClientReading
  read_head read_content : ℕ → ClientReading
  read_length : ℕ → ℕ → ClientReading

pub record ClientConnection : Type 0 where
  pub config : Config
  pub handlers : Handlers
  pub response : Response
  pub in_message : InMessage
  pub fragmented_in_message : Option InMessage
  pub timeout_idle : ℕ
  pub timer : ClientTimer
  pub closed : Bool
  pub socket_open : Bool
  pub queue : SendQueue Bytes
  pub reading : ClientReading
  pub log : List ClientEvent

-- `InMessage()`; its opcode byte is not initialised, and is written before it is read.
abbrev pub new_message : InMessage
new_message = record { fin_rsv_opcode = 0; length = 0; streambuf = [] }

unfoldable pub close : ClientConnection → ClientConnection
close c = record c { socket_open = false }

abbrev pub idle_timer : ℕ → ClientTimer
idle_timer seconds = if seconds == 0 then no_timer else armed_idle seconds

abbrev pub timer_for : ℕ → ClientTimer
timer_for seconds = if seconds == 0 then no_timer else armed seconds

-- `set_timeout(seconds)`; `none` is the default argument -1, for the idle timeout.
unfoldable pub set_timeout : Option ℕ → ClientConnection → ClientConnection
set_timeout none c = record c { timer = idle_timer c.timeout_idle }
set_timeout (some seconds) c = record c { timer = timer_for seconds }

abbrev pub cancelled_timer : ClientTimer → ClientTimer
cancelled_timer no_timer = no_timer
cancelled_timer cancelled = cancelled
cancelled_timer (armed seconds) = cancelled
cancelled_timer (armed_idle seconds) = cancelled

unfoldable pub cancel_timeout : ClientConnection → ClientConnection
cancel_timeout c = record c { timer = cancelled_timer c.timer }

-- `send`, with its mask: a write that starts at once also sets the idle timeout.
unfoldable pub send : Bytes → Bytes → Option ℕ → ℕ → ClientConnection → Option ClientConnection
send mask out_message callback fin_rsv_opcode c = do
  q ← SendQueue.enqueue (client_frame fin_rsv_opcode mask out_message) callback c.queue
  some (record c {
    queue = q;
    timer = if length q.send_queue == 1 then idle_timer c.timeout_idle else c.timer;
  })

-- The handler of a write; a write that it starts sets the same idle timeout again.
unfoldable pub on_written : Bool → Bool → ClientConnection → Option ClientConnection
on_written lock failed c = do
  q ← SendQueue.on_written lock failed c.queue
  some (record (set_timeout none c) { queue = q })

-- Only the first call sends a close frame.
unfoldable pub send_close :
    Bytes → ℕ → Bytes → Option ℕ → ClientConnection → Option ClientConnection
send_close mask status reason callback c =
    if c.closed
    then some c
    else send mask (close_message status reason) callback 136 (record c { closed = true })

-- The handler of the timer; one that was cancelled does nothing.
unfoldable pub on_timer : Bytes → ClientConnection → Option ClientConnection
on_timer mask c = elim c.timer [
  | armed _ ↦ some (close c)
  | armed_idle _ ↦ send_close mask 1000 (codes "idle timeout") none c
  | _ ↦ some c
]

abbrev pub told : Bool → ClientEvent → List ClientEvent
told is_set e = if is_set then e ∷ [] else []

abbrev pub notify : Bool → ClientEvent → ClientConnection → ClientConnection
notify is_set e c = record c { log = c.log ++ told is_set e }

unfoldable pub connection_open : ClientConnection → ClientConnection
connection_open c = notify c.handlers.on_open opened c

unfoldable pub connection_close : ℕ → Bytes → ClientConnection → ClientConnection
connection_close status reason c = notify c.handlers.on_close (closes status reason) c

unfoldable pub connection_error : ClientError → ClientConnection → ClientConnection
connection_error ec c = notify c.handlers.on_error (fails ec) c

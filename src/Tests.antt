-- ===== src/Tests.antt =====
-- Concrete data: a connection that waits for a frame, and frames of a client.
pub mod Socket
pub mod Http
pub mod Scope
pub mod Attribute
pub mod Web
pub mod Client
pub mod App
pub mod Files
use juce_simpleweb.Prelude.{ℕ, Bool, true, false, none, [], ◌∷◌, codes, Bytes}
use juce_simpleweb.SendQueue
use juce_simpleweb.WsServer.{
  Handlers, Config, Timer, armed, Reading, read_head, Connection, InMessage,
}
use juce_simpleweb.WsServer.Messages.{Sent}

abbrev pub all_set : Handlers
all_set = record {
  on_open = true;
  on_message = true;
  on_close = true;
  on_error = true;
  on_ping = true;
  on_pong = true;
}

abbrev pub small_config : Config
small_config = record { timeout_request = 5; timeout_idle = 30; max_message_size = 100 }

abbrev pub waiting_connection : Connection
waiting_connection = record {
  config = small_config;
  handlers = all_set;
  timeout_idle = 30;
  timer = armed 30;
  closed = false;
  socket_open = true;
  queue = SendQueue.empty;
  fragmented_in_message = none;
  reading = read_head;
  joined = true;
  log = [];
}

abbrev pub hello : Sent
hello = record { m0 = 55; m1 = 250; m2 = 33; m3 = 61; payload = codes "Hello" }

abbrev pub there : Sent
there = record { m0 = 1; m1 = 2; m2 = 3; m3 = 255; payload = codes ", there" }

abbrev pub end_mark : Sent
end_mark = record { m0 = 9; m1 = 0; m2 = 7; m3 = 128; payload = codes "!" }

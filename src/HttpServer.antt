-- ===== src/HttpServer.antt =====
-- webserver/server_http.hpp: the server's settings and the state of a session. A session holds its
-- request, the buffer of the request's content, that of the chunk sizes with its capacity, the
-- asynchronous read that is under way, whether `connections` holds its connection, and what was called.
pub mod Response
pub mod Routes
pub mod Routing
pub mod Reader
pub mod Arrival
pub mod Until
pub mod Lines
pub mod Chunks
pub mod ChunkedBody
pub mod Head
pub mod HeadRead
pub mod Bodies
pub mod ChunkedRequest
pub mod Answers
pub mod Framing
pub mod Accepting
pub mod Writing
pub mod Stopping
pub mod KeepAlive
pub mod NextRequest
use juce_simpleweb.Prelude.{
  ℕ, ◌+◌, Bool, true, false, Option, none, some, List, [], ◌∷◌, ◌++◌, ◌==◌, if◌then◌else◌, Bytes,
}
use juce_simpleweb.RequestMessage.{Request}

pub data HttpError : Type 0 where
  protocol_error message_size operation_canceled : HttpError
  network : ℕ → HttpError

-- Calls of on_error, of on_upgrade, and of the function of a resource with the submatches of the
-- path; and a response that is destroyed with this text in its buffer, which nothing sends.
pub data HttpEvent : Type 0 where
  fails : HttpError → HttpEvent
  upgrades : HttpEvent
  runs : ℕ → Option (List Bytes) → HttpEvent
  discards : Bytes → HttpEvent

-- The settings; a function of a resource is a number, and a regular expression its text.
pub record HttpConfig : Type 0 where
  pub on_error : Bool
  pub on_upgrade : Bool
  pub timeout_request : ℕ
  pub timeout_content : ℕ
  pub max_request_streambuf_size : ℕ
  pub resource : List (Bytes × List (Bytes × ℕ))
  pub default_resource : List (Bytes × ℕ)

-- The read that is under way, with what it waits for.
pub data HttpReading : Type 0 where
  no_read header_read chunk_line : HttpReading
  content_read chunk_read chunk_end : ℕ → HttpReading

pub data HttpTimer : Type 0 where
  no_timer cancelled : HttpTimer
  armed : ℕ → HttpTimer

pub record Session : Type 0 where
  pub request : Request
  pub streambuf : Bytes
  pub chunk_size_streambuf : Bytes
  pub chunk_size_max : ℕ
  pub reading : HttpReading
  pub timer : HttpTimer
  pub registered : Bool
  pub log : List HttpEvent

-- `Connection::set_timeout` and `cancel_timeout`.
abbrev pub timer_for : ℕ → HttpTimer
timer_for seconds = if seconds == 0 then no_timer else armed seconds

abbrev pub cancelled_timer : HttpTimer → HttpTimer
cancelled_timer no_timer = no_timer
cancelled_timer cancelled = cancelled
cancelled_timer (armed seconds) = cancelled

abbrev pub told : Bool → HttpError → List HttpEvent
told is_set e = if is_set then fails e ∷ [] else []

-- `if(this->on_error) this->on_error(session->request, ec)`.
abbrev pub tell_error : HttpConfig → HttpError → Session → Session
tell_error config e s = record s { log = s.log ++ told config.on_error e }

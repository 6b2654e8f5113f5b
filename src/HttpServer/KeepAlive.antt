-- ===== src/HttpServer/KeepAlive.antt =====
-- webserver/server_http.hpp, write: what the server does when a response was sent. The handler is
-- given whether the scope's lock was obtained and the error code of the write.
use juce_simpleweb.Prelude.{
  ℕ, ◌+◌, Bool, true, false, Option, none, some, List, [], ◌∷◌, ◌==◌, ltb, if◌then◌else◌, ◌≡◌, leb,
  arith, Bytes, codes,
}
use juce_simpleweb.CaseInsensitive.{Multimap, case_insensitive_equal}
use juce_simpleweb.RequestMessage.{Request}
use juce_simpleweb.HttpServer.{HttpConfig, HttpError, no_read, Session, cancelled_timer, tell_error}
use juce_simpleweb.HttpServer.Reader.{read}

-- `equal_range(name)`: the values of the fields of that name.
unfoldable pub values_of : Bytes → Multimap → List Bytes
values_of name [] = []
values_of name ((first, second) ∷ fields) =
    if case_insensitive_equal first name
    then second ∷ values_of name fields
    else values_of name fields

-- `std::string::operator>=`.
unfoldable pub string_ge : Bytes → Bytes → Bool
string_ge s [] = true
string_ge [] (y ∷ ys) = false
string_ge (x ∷ xs) (y ∷ ys) = if x == y then string_ge xs ys else ltb y x

-- The loop over the Connection fields: whether one of them says to close or to go on.
unfoldable pub says : List Bytes → Option Bool
says [] = none
says (value ∷ values) =
    if case_insensitive_equal value (codes "close")
    then some false
    else if case_insensitive_equal value (codes "keep-alive")
    then some true
    else says values

unfoldable pub goes_on : Request → Bool
goes_on request = elim (says (values_of (codes "Connection") request.header)) [
  | some answer ↦ answer
  | none ↦ string_ge request.version (codes "1.1")
]

abbrev pub new_request : Request
new_request = record { method = []; path = []; query_string = []; version = []; header = [] }

-- A new session on the same connection: its buffers are empty.
abbrev pub new_session : Session → Session
new_session s = record s {
  request = new_request;
  streambuf = [];
  chunk_size_streambuf = [];
  reading = no_read;
}

-- The timer is cancelled; then the connection is read from again, or given up.
unfoldable pub on_sent : HttpConfig → Bool → Option HttpError → Bool → Session → Session
on_sent config lock ec close_connection_after_response s =
    let s' = record s { timer = cancelled_timer s.timer } in
    if lock
    then elim ec [
      | some e ↦ tell_error config e s'
      | none ↦
          if close_connection_after_response
          then s'
          else if goes_on s.request
          then read config (new_session s')
          else s'
    ]
    else s

-- On versions of two digits, the comparison of the texts is that of the numbers.
pub string_ge-digits :
    (major minor : ℕ)
    → string_ge ((b'0' + major) ∷ b'.' ∷ (b'0' + minor) ∷ []) (codes "1.1")
      ≡ (if major == 1 then leb 1 minor else ltb 1 major)
unfolding string_ge
string_ge-digits major minor = ground arith

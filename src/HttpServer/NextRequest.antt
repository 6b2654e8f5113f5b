-- ===== src/HttpServer/NextRequest.antt =====
-- webserver/server_http.hpp: the next request on a connection, after a response was sent.
use juce_simpleweb.Prelude.{
  ◌≤◌, ◌≡◌, refl, true, false, Option, none, some, List, [], ◌∷◌, ◌++◌, length, Bytes, codes, arith,
  All, Bool-cases, inl, inr,
}
use juce_simpleweb.CaseInsensitive.{Multimap, find_field, case_insensitive_equal}
use juce_simpleweb.HttpHeader.RoundTrip.{IsField}
use juce_simpleweb.Numerals.{stoul}
use juce_simpleweb.RequestMessage
use juce_simpleweb.RequestMessage.{Request}
use juce_simpleweb.RequestMessage.RoundTrip.{IsRequestLine, write_request}
use juce_simpleweb.HttpServer.{
  HttpConfig, protocol_error, Session, timer_for, cancelled_timer, tell_error,
}
use juce_simpleweb.HttpServer.Reader.{read}
use juce_simpleweb.HttpServer.Arrival.{Always}
use juce_simpleweb.HttpServer.Bodies.{HasRequest, request-Always}
use juce_simpleweb.HttpServer.HeadRead.{read_request, awaiting}
use juce_simpleweb.HttpServer.KeepAlive.{
  values_of, string_ge, says, goes_on, new_request, new_session, on_sent,
}

values_of-none :
    (name : Bytes) (fields : Multimap) → find_field name fields ≡ none → values_of name fields ≡ []
unfolding values_of find_field
values_of-none name [] h = refl
values_of-none name ((first, second) ∷ fields) h =
    elim (Bool-cases (case_insensitive_equal first name)) [
      | inl e ↦ absurd (ground (arith, e, h))
      | inr e ↦ rw e (values_of-none name fields (ground (arith, e, h)))
    ]

goes_on-default :
    (request : Request)
    → find_field (codes "Connection") request.header ≡ none
    → request.version ≡ codes "1.1"
    → goes_on request ≡ true
unfolding goes_on says string_ge
goes_on-default request h v =
    rw (values_of-none (codes "Connection") request.header h, goes_on) (rw v refl)

-- The session of the next request.
abbrev pub next : Session → Session
next s = new_session (record s { timer = cancelled_timer s.timer })

on_sent-reads :
    (config : HttpConfig) (s : Session)
    → find_field (codes "Connection") s.request.header ≡ none
    → s.request.version ≡ codes "1.1"
    → on_sent config true none false s
      ≡ awaiting (record (next s) { timer = timer_for config.timeout_request }) []
unfolding on_sent read
on_sent-reads config s h v = rw (goes_on-default s.request h v) refl

-- Behind a response to a request of version 1.1 without a Connection field, the next request on the
-- connection, however its bytes arrive, goes to its function under the conditions of a first one;
-- nothing is left of the session before.
pub next_request-Always :
    (regex_match : Bytes → Bytes → Option (List Bytes)) (config : HttpConfig) (s : Session)
    (method path : Bytes) (query : Option Bytes) (version : Bytes) (fields : Multimap)
    (text body more stream : Bytes)
    → find_field (codes "Connection") s.request.header ≡ none
    → s.request.version ≡ codes "1.1"
    → IsRequestLine method path query version
    → All IsField fields
    → find_field (codes "Content-Length") fields ≡ some text
    → stoul 10 text ≡ some (length body)
    → length body ≤ config.max_request_streambuf_size
    → length (write_request method path query version fields) ≤ config.max_request_streambuf_size
    → stream ≡ write_request method path query version fields ++ (body ++ more)
    → Always regex_match config
        (HasRequest regex_match config
          (next s)
          (read_request method path query version fields new_request)
          body
          more)
        (on_sent config true none false s)
        stream
next_request-Always regex_match config s method path query version fields text body more stream c v
      l h f z k a e =
    rw (on_sent-reads config s c v) (
      request-Always regex_match config
        (record (next s) { timer = timer_for config.timeout_request }) method path query version
        fields text body more [] stream l h f z k a (omega arith) e)

-- The next request is refused: on_error is told, and no read is under way.
abbrev pub IsRefused : HttpConfig → Session → Bytes → Session → Bytes → Type 0
IsRefused config s request d rest =
    (kept : Bytes) × (d
      ≡ tell_error config protocol_error
          (record (next s) { streambuf = kept; timer = timer_for config.timeout_content }))
    × (kept ++ rest ≡ request)

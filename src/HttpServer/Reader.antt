-- ===== src/HttpServer/Reader.antt =====
-- webserver/server_http.hpp, read and read_chunked_transfer_encoded, with the handlers of their
-- reads. A handler is given whether the scope's lock was obtained, the error code and the number
-- of bytes transferred; the bytes that arrived are in the buffer of the read before it runs. A
-- result `none` is an exception out of the handler: the call of an on_error that is not set.
use juce_simpleweb.Prelude.{
  ℕ, ◌+◌, ◌-◌, ◌%◌, Bool, false, Option, none, some, [], ◌∷◌, ◌++◌, leb, ltb, ◌==◌, if◌then◌else◌,
  length, take, drop, List, Bytes, bytes_eq, codes,
}
use juce_simpleweb.Bytes.{getline}
use juce_simpleweb.CaseInsensitive.{find_field}
use juce_simpleweb.Frame.{size_t_mod}
use juce_simpleweb.Numerals.{stoul}
use juce_simpleweb.RequestMessage
use juce_simpleweb.RequestMessage.{Request}
use juce_simpleweb.HttpServer.{
  HttpConfig, HttpError, protocol_error, message_size, discards, HttpReading, no_read, header_read,
  chunk_line, content_read, chunk_read, chunk_end, Session, timer_for, told, tell_error,
}
use juce_simpleweb.HttpServer.Response.{write_status}
use juce_simpleweb.HttpServer.Routes.{find_resource}

unfoldable pub read : HttpConfig → Session → Session
read config s = record s { timer = timer_for config.timeout_request; reading = header_read }

-- The response 413 is written, and destroyed with its scope.
abbrev pub too_large : HttpConfig → Session → Session
too_large config s = record s {
  log = s.log ++ (told config.on_error message_size ++ discards (write_status false 413 []) ∷ []);
}

module _ (regex_match : Bytes → Bytes → Option (List Bytes)) (config : HttpConfig) where
  -- The content of a request with a Content-Length, when `num_additional_bytes` of it were read.
  unfoldable pub read_content : ℕ → ℕ → Session → Session
  read_content content_length num_additional_bytes s =
      if ltb config.max_request_streambuf_size content_length
      then too_large config s
      else if ltb num_additional_bytes content_length
      then record s { reading = content_read (content_length - num_additional_bytes) }
      else find_resource regex_match config s

  -- `Transfer-Encoding: chunked`: the bytes that were read beyond the header move over
  -- to a buffer that has room for them, and for 18 bytes at least.
  unfoldable pub start_chunks : Session → Session
  start_chunks s = record s {
    chunk_size_streambuf = s.streambuf;
    chunk_size_max = if ltb 18 (length s.streambuf) then length s.streambuf else 18;
    streambuf = [];
    reading = chunk_line;
  }

  -- What the header fields say of the content.
  unfoldable pub after_header : ℕ → Session → Session
  after_header num_additional_bytes s =
      elim (find_field (codes "Content-Length") s.request.header) [
        | some text ↦ elim (stoul 10 text) [
          | none ↦ tell_error config protocol_error s
          | some content_length ↦ read_content content_length num_additional_bytes s
        ]
        | none ↦ elim (find_field (codes "Transfer-Encoding") s.request.header) [
          | some coding ↦
              if bytes_eq coding (codes "chunked")
              then start_chunks s
              else find_resource regex_match config s
          | none ↦ find_resource regex_match config s
        ]
      ]

  -- The header is complete in the buffer: it is parsed, and what follows it stays there.
  unfoldable pub on_header : ℕ → Session → Session
  on_header bytes_transferred s =
      let (parsed, request, rest) = RequestMessage.parse s.streambuf s.request in
      let s' = record s { request = request; streambuf = rest } in
      if parsed
      then after_header (length s.streambuf - bytes_transferred) s'
      else tell_error config protocol_error s'

  -- The bytes of a chunk that are in the buffer move to the content, and its end is taken off.
  -- `additional` counts the bytes behind the line of the size.
  unfoldable pub take_chunk : ℕ → ℕ → Session → Session
  take_chunk chunk_size additional s =
      let bytes_to_move = if leb chunk_size additional then chunk_size else additional in
      let left = drop bytes_to_move s.chunk_size_streambuf in
      record s {
        streambuf = s.streambuf ++ take bytes_to_move s.chunk_size_streambuf;
        chunk_size_streambuf =
            if ltb additional chunk_size
            then left
            else if ltb additional (2 + chunk_size)
            then (if 2 + chunk_size - additional == 1 then drop 1 left else left)
            else drop 2 left;
        reading =
            if ltb additional chunk_size
            then chunk_read (chunk_size - additional)
            else if ltb additional (2 + chunk_size)
            then chunk_end (2 + chunk_size - additional)
            else chunk_line;
      }

  -- The size that a chunk's line gives; the sum wraps at 64 bits.
  unfoldable pub on_chunk_size : ℕ → ℕ → Session → Session
  on_chunk_size chunk_size additional s =
      if chunk_size == 0
      then find_resource regex_match config s
      else if ltb config.max_request_streambuf_size ((chunk_size + length s.streambuf) % size_t_mod)
      then too_large config s
      else take_chunk chunk_size additional s

  -- A line up to its line feed; `getline` leaves an empty line where nothing is in the buffer.
  unfoldable pub on_chunk_line : ℕ → Session → Session
  on_chunk_line bytes_transferred s = elim (getline s.chunk_size_streambuf) [
    | none ↦ tell_error config protocol_error s
    | some (line, rest) ↦
        let s' = record s { chunk_size_streambuf = rest } in
        elim (stoul 16 line) [
          | none ↦ tell_error config protocol_error s'
          | some chunk_size ↦
              on_chunk_size chunk_size (length rest - (bytes_transferred - (length line + 1))) s'
        ]
  ]

  -- The bytes that arrived go to the buffer of the read; those behind a chunk are thrown away.
  unfoldable pub arrive : HttpReading → Bytes → Session → Session
  arrive no_read bytes s = s
  arrive header_read bytes s = record s { streambuf = s.streambuf ++ bytes }
  arrive (content_read n) bytes s = record s { streambuf = s.streambuf ++ bytes }
  arrive (chunk_read n) bytes s = record s { streambuf = s.streambuf ++ bytes }
  arrive chunk_line bytes s = record s { chunk_size_streambuf = s.chunk_size_streambuf ++ bytes }
  arrive (chunk_end n) bytes s = s

  -- The handlers, by the read that completed, when the lock was obtained and there was no error.
  unfoldable pub on_success : HttpReading → ℕ → Session → Session
  on_success no_read n s = s
  on_success header_read n s = on_header n s
  on_success (content_read k) n s = find_resource regex_match config s
  on_success chunk_line n s = on_chunk_line n s
  on_success (chunk_read k) n s = record s { reading = chunk_end 2 }
  on_success (chunk_end k) n s = record s { reading = chunk_line }

  -- An error; behind a chunk on_error is called without a test.
  unfoldable pub on_failure : HttpReading → HttpError → Session → Option Session
  on_failure (chunk_end k) e s = if config.on_error then some (tell_error config e s) else none
  on_failure no_read e s = some (tell_error config e s)
  on_failure header_read e s = some (tell_error config e s)
  on_failure (content_read k) e s = some (tell_error config e s)
  on_failure chunk_line e s = some (tell_error config e s)
  on_failure (chunk_read k) e s = some (tell_error config e s)

  -- The handler of the header sets a new timeout before it asks for the lock.
  abbrev pub timer_after : HttpReading → Session → Session
  timer_after header_read s = record s { timer = timer_for config.timeout_content }
  timer_after r s = s

  -- The completion of the read that is under way.
  unfoldable pub on_read : Bool → Option HttpError → Bytes → ℕ → Session → Option Session
  on_read lock ec bytes n s =
      let s' = timer_after s.reading (arrive s.reading bytes (record s { reading = no_read })) in
      if lock
      then elim ec [ none ↦ some (on_success s.reading n s') | some e ↦ on_failure s.reading e s' ]
      else some s'

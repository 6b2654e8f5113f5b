-- ===== src/HttpServer/Arrival.antt =====
-- webserver/server_http.hpp: the reads of a session over the bytes that its client sends. A read up
-- to a delimiter completes as soon as the buffer holds the delimiter, within its capacity, and
-- whatever has arrived behind it stays in the buffer; a read of so many bytes completes with just these.
use juce_simpleweb.Prelude.{
  ℕ, ◌≤◌, suc, ◌≡◌, refl, Bool, true, false, ◌&&◌, Option, none, some, List, [], ◌∷◌, ◌++◌, ◌==◌,
  if◌then◌else◌, length, Bytes,
}
use mathlib.Core.Option
use juce_simpleweb.HttpServer.{
  HttpConfig, HttpReading, no_read, header_read, chunk_line, content_read, chunk_read, chunk_end,
  Session,
}
use juce_simpleweb.HttpServer.Reader.{on_read, on_success, arrive, timer_after}

unfoldable pub starts_with : Bytes → Bytes → Bool
starts_with [] s = true
starts_with (d ∷ ds) [] = false
starts_with (d ∷ ds) (c ∷ s) = d == c && starts_with ds s

-- The number of bytes up to the end of the first delimiter.
unfoldable pub until : Bytes → Bytes → Option ℕ
until delimiter [] = none
until delimiter (c ∷ s) =
    if starts_with delimiter (c ∷ s)
    then some (length delimiter)
    else Option.map suc (until delimiter s)

abbrev pub blank_line : Bytes
blank_line = b'\r' ∷ b'\n' ∷ b'\r' ∷ b'\n' ∷ []

-- The read completes with these bytes, and reports that many.
abbrev pub Completes : HttpConfig → HttpReading → Session → Bytes → ℕ → Type 0
Completes config no_read s bytes n = ⊥
Completes config header_read s bytes n =
    (until blank_line (s.streambuf ++ bytes) ≡ some n)
    × (length (s.streambuf ++ bytes) ≤ config.max_request_streambuf_size)
Completes config chunk_line s bytes n =
    (until (b'\r' ∷ b'\n' ∷ []) (s.chunk_size_streambuf ++ bytes) ≡ some n)
    × (length (s.chunk_size_streambuf ++ bytes) ≤ s.chunk_size_max)
Completes config (content_read k) s bytes n = (length bytes ≡ k) × (n ≡ k)
Completes config (chunk_read k) s bytes n = (length bytes ≡ k) × (n ≡ k)
Completes config (chunk_end k) s bytes n = (length bytes ≡ k) × (n ≡ k)

-- Some part of the stream completes the read.
pub record CanComplete (config : HttpConfig) (s : Session) (stream : Bytes) : Type 0 where
  pub bytes : Bytes
  pub rest : Bytes
  pub count : ℕ
  pub split : stream ≡ bytes ++ rest
  pub completes : Completes config s.reading s bytes count

module _ (regex_match : Bytes → Bytes → Option (List Bytes)) (config : HttpConfig) where
  -- The session after a read that completed with the lock and without an error.
  abbrev pub after : Bytes → ℕ → Session → Session
  after bytes n s = on_success regex_match config s.reading n (
      timer_after regex_match config s.reading
        (arrive regex_match config s.reading bytes (record s { reading = no_read })))

  pub on_read-after :
      (bytes : Bytes) (n : ℕ) (s : Session)
      → on_read regex_match config true none bytes n s ≡ some (after bytes n s)
  unfolding on_read
  on_read-after bytes n s = refl

  -- However the stream is cut by the arrivals, the session comes to a state with the property; and
  -- until it does, the stream can complete the read that is under way.
  pub data Always (P : Session → Bytes → Type 0) : Session → Bytes → Type 0 where
    now : {s : Session} {stream : Bytes} → P s stream → Always P s stream
    later :
        {s : Session} {stream : Bytes}
        → CanComplete config s stream
        → ((bytes rest : Bytes) (n : ℕ)
            → stream ≡ bytes ++ rest
            → Completes config s.reading s bytes n
            → Always P (after bytes n s) rest)
        → Always P s stream

  -- A property may be weakened.
  pub Always-map :
      {P Q : Session → Bytes → Type 0} {s : Session} {stream : Bytes}
      → ((d : Session) (rest : Bytes) → P d rest → Q d rest)
      → Always P s stream
      → Always Q s stream
  Always-map f (now {s = s} {stream = stream} p) = now (f s stream p)
  Always-map f (later c k) = later c (λ bytes rest n e u. Always-map f (k bytes rest n e u))

-- ===== src/HttpServer/Chunks.antt =====
-- webserver/server_http.hpp, read_chunked_transfer_encoded: the content of a chunked body, however
-- its bytes arrive.
use juce_simpleweb.Prelude.{
  ℕ, ◌+◌, ◌-◌, ◌≤◌, ◌<◌, ◌≡◌, ◌≢◌, refl, sym, ap, ◌∙◌, true, false, Option, some, List, [], ◌∷◌,
  ◌++◌, ltb, leb, length, length-append, take, drop, take-append, drop-append, append-nil,
  append_assoc, exact-cut, Bytes, arith, All-append,
}
use juce_simpleweb.Bytes.Search.{Free, getline-append}
use juce_simpleweb.Frame.{size_t_mod}
use juce_simpleweb.Numerals.{stoul}
use juce_simpleweb.HttpServer.{
  HttpConfig, HttpReading, no_read, chunk_line, chunk_read, chunk_end, Session,
}
use juce_simpleweb.HttpServer.Reader.{on_chunk_line, on_chunk_size, take_chunk, on_success, arrive}
use juce_simpleweb.HttpServer.Arrival.{Always, later}

-- A chunk: the text of its size, with any extension, and its bytes. Its line fits the buffer.
pub record Chunk : Type 0 where
  pub size_text : Bytes
  pub bytes : Bytes

abbrev pub line_of : Bytes → Bytes
line_of text = text ++ b'\r' ∷ []

pub record IsChunk (c : Chunk) : Type 0 where
  pub one_line : Free b'\n' c.size_text
  pub size_is : stoul 16 (line_of c.size_text) ≡ some (length c.bytes)
  pub not_empty : 0 < length c.bytes
  pub short_line : length c.size_text + 2 ≤ 18

-- The body that a client sends, up to the line of the last chunk; `more` follows it.
abbrev pub chunked : List Chunk → Bytes → Bytes → Bytes
chunked [] last more = last ++ b'\r' ∷ b'\n' ∷ more
chunked (c ∷ cs) last more =
    c.size_text ++ b'\r' ∷ b'\n' ∷ (c.bytes ++ b'\r' ∷ b'\n' ∷ chunked cs last more)

abbrev pub contents : List Chunk → Bytes
contents [] = []
contents (c ∷ cs) = c.bytes ++ contents cs

-- A session in the middle of its body.
abbrev pub state : Session → Bytes → Bytes → HttpReading → Session
state s content left reading = record s {
  streambuf = content;
  chunk_size_streambuf = left;
  reading = reading;
}

take-whole : (s : Bytes) → take (length s) s ≡ s
take-whole s = ap (take (length s)) (sym (append-nil s)) ∙ take-append s []

drop-whole : (s : Bytes) → drop (length s) s ≡ []
drop-whole s = ap (drop (length s)) (sym (append-nil s)) ∙ drop-append s []

-- The tests of the handler.
all_there : (k n : ℕ) → k ≤ n → leb k n ≡ true
all_there k n h = ground arith

no_fewer : (k n : ℕ) → k ≤ n → ltb n k ≡ false
no_fewer k n h = ground arith

end_missing : (k n : ℕ) → n < 2 + k → ltb n (2 + k) ≡ true
end_missing k n h = ground arith

end_there : (k n : ℕ) → 2 + k ≤ n → ltb n (2 + k) ≡ false
end_there k n h = ground arith

-- What stays in the buffer behind the chunk, and the read that follows.
abbrev pub tail_of : Bytes → Bytes
tail_of [] = []
tail_of (x ∷ []) = []
tail_of (x ∷ y ∷ e) = e

abbrev pub next_of : Bytes → HttpReading
next_of [] = chunk_end 2
next_of (x ∷ []) = chunk_end 1
next_of (x ∷ y ∷ e) = chunk_line

module _ (regex_match : Bytes → Bytes → Option (List Bytes)) (config : HttpConfig) where
  -- A chunk's line, in the buffer with what follows it.
  pub on_chunk_line-size :
      (text kept : Bytes) (size : ℕ) (s : Session)
      → Free b'\n' text
      → s.chunk_size_streambuf ≡ text ++ b'\r' ∷ b'\n' ∷ kept
      → stoul 16 (line_of text) ≡ some size
      → on_chunk_line regex_match config (length text + 2) s
        ≡ on_chunk_size regex_match config size
            (length kept)
            (record s { chunk_size_streambuf = kept })
  unfolding on_chunk_line
  on_chunk_line-size text kept size s h e z =
      rw (e, on_chunk_line)
        (rw (whole, getline-append (line_of text) kept line_free, z)
          (ap
            (λ n.
              on_chunk_size regex_match config size n (record s { chunk_size_streambuf = kept }))
            count))
    where
      whole : text ++ b'\r' ∷ b'\n' ∷ kept ≡ line_of text ++ b'\n' ∷ kept
      whole = simp append_assoc

      line_free : Free b'\n' (line_of text)
      line_free = All-append (λ x. x ≢ b'\n') text (b'\r' ∷ []) h (omega arith, tt)

      count : length kept - (length text + 2 - (length (line_of text) + 1)) ≡ length kept
      count = omega (arith, length-append text (b'\r' ∷ []))

  pub on_chunk_size-take :
      (size n : ℕ) (s : Session)
      → 0 < size
      → size + length s.streambuf ≤ config.max_request_streambuf_size
      → size + length s.streambuf < size_t_mod
      → on_chunk_size regex_match config size n s ≡ take_chunk regex_match config size n s
  unfolding on_chunk_size
  on_chunk_size-take size n s h k l = ground arith

  -- The end of a chunk is read and thrown away.
  pub chunk_end-Always :
      (P : Session → Bytes → Type 0) (s : Session) (content t rest stream : Bytes) (k : ℕ)
      → stream ≡ t ++ rest
      → length t ≡ k
      → Always regex_match config P (state s content [] chunk_line) rest
      → Always regex_match config P (state s content [] (chunk_end k)) stream
  unfolding on_success arrive
  chunk_end-Always P s content t rest stream k e h r =
      later (record { bytes = t; rest = rest; count = k; split = e; completes = (h, refl) })
        (λ bytes rest' n e' (l, _).
          let (p, q) = exact-cut bytes rest' t rest (sym e' ∙ e) (l ∙ sym h) in rw q r)

  -- The bytes of a chunk that had not arrived with its line.
  pub chunk_read-Always :
      (P : Session → Bytes → Type 0) (s : Session) (content t rest stream : Bytes) (k : ℕ)
      → stream ≡ t ++ rest
      → length t ≡ k
      → Always regex_match config P (state s (content ++ t) [] (chunk_end 2)) rest
      → Always regex_match config P (state s content [] (chunk_read k)) stream
  unfolding on_success arrive
  chunk_read-Always P s content t rest stream k e h r =
      later (record { bytes = t; rest = rest; count = k; split = e; completes = (h, refl) })
        (λ bytes rest' n e' (l, _).
          let (p, q) = exact-cut bytes rest' t rest (sym e' ∙ e) (l ∙ sym h) in rw (p, q) r)

  pub take_chunk-part :
      (kept t content : Bytes) (k : ℕ) (s : Session)
      → k ≡ length kept + length t
      → 0 < length t
      → take_chunk regex_match config k (length kept) (state s content kept no_read)
        ≡ state s (content ++ kept) [] (chunk_read (length t))
  unfolding take_chunk
  take_chunk-part kept t content k s e h =
      rw (not_all, fewer) (rw (take-whole kept, drop-whole kept, left_over))
    where
      not_all : leb k (length kept) ≡ false
      not_all = ground arith

      fewer : ltb (length kept) k ≡ true
      fewer = ground arith

      left_over : k - length kept ≡ length t
      left_over = omega arith

  pub take_chunk-all :
      (bytes e content : Bytes) (n : ℕ) (s : Session)
      → n ≡ length bytes + length e
      → take_chunk regex_match config (length bytes) n (state s content (bytes ++ e) no_read)
        ≡ state s (content ++ bytes) (tail_of e) (next_of e)
  unfolding take_chunk
  take_chunk-all bytes [] content n s h =
      rw
        (
          all_there (length bytes) n (omega arith),
          no_fewer (length bytes) n (omega arith),
          end_missing (length bytes) n (omega arith),
          two (length bytes) n (omega arith),
        )
        (rw (take-append bytes [], drop-append bytes []))
    where
      two : (k n : ℕ) → n ≡ k → 2 + k - n ≡ 2
      two k n h = omega arith
  take_chunk-all bytes (x ∷ []) content n s h =
      rw
        (
          all_there (length bytes) n (omega arith),
          no_fewer (length bytes) n (omega arith),
          end_missing (length bytes) n (omega arith),
          one (length bytes) n (omega arith),
        )
        (rw (take-append bytes (x ∷ []), drop-append bytes (x ∷ [])))
    where
      one : (k n : ℕ) → n ≡ k + 1 → 2 + k - n ≡ 1
      one k n h = omega arith
  take_chunk-all bytes (x ∷ y ∷ e) content n s h =
      rw
        (
          all_there (length bytes) n (omega arith),
          no_fewer (length bytes) n (omega arith),
          end_there (length bytes) n (omega arith),
        )
        (rw (take-append bytes (x ∷ y ∷ e), drop-append bytes (x ∷ y ∷ e)))

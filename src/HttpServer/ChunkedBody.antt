-- ===== src/HttpServer/ChunkedBody.antt =====
-- webserver/server_http.hpp, read_chunked_transfer_encoded: a whole chunked body.
use juce_simpleweb.Prelude.{
  ℕ, ◌+◌, ◌≤◌, ◌<◌, ◌≡◌, refl, sym, ap, ◌∙◌, Option, some, List, [], ◌∷◌, ◌++◌, ltb, length,
  length-append, append-nil, append_assoc, append-cut, Bytes, arith, All, Bool-cases, inl, inr,
}
use juce_simpleweb.Bytes.Search.{Free}
use juce_simpleweb.Buffers.{refill}
use juce_simpleweb.Frame.{size_t_mod}
use juce_simpleweb.HttpHeader.{crlf}
use juce_simpleweb.Numerals.{stoul}
use juce_simpleweb.HttpServer.{HttpConfig, no_read, chunk_line, Session}
use juce_simpleweb.HttpServer.Routes.{find_resource}
use juce_simpleweb.HttpServer.Reader.{on_chunk_size, take_chunk, on_success, arrive}
use juce_simpleweb.HttpServer.Arrival.{until, Always, now, later}
use juce_simpleweb.HttpServer.Lines.{until-append, until-line}
use juce_simpleweb.HttpServer.Chunks.{
  Chunk, line_of, IsChunk, chunked, contents, state, on_chunk_line-size, on_chunk_size-take,
  chunk_end-Always, chunk_read-Always, take_chunk-part, take_chunk-all, tail_of, next_of,
}

-- The line of the last chunk: its size is 0.
pub record IsLast (last : Bytes) : Type 0 where
  pub one_line : Free b'\n' last
  pub size_zero : stoul 16 (line_of last) ≡ some 0
  pub short_line : length last + 2 ≤ 18

-- The request goes to its function with this content; of what the client sent, `more` is left in
-- the buffer and the stream.
abbrev pub HasContent :
    (Bytes → Bytes → Option (List Bytes))
    → HttpConfig
    → Session
    → Bytes
    → Bytes
    → Session
    → Bytes
    → Type 0
HasContent regex_match config s content more d rest =
    (left : Bytes) × (d ≡ find_resource regex_match config (state s content left no_read))
    × (left ++ rest ≡ more)

module _ (regex_match : Bytes → Bytes → Option (List Bytes)) (config : HttpConfig) (s : Session)
    (P : Session → Bytes → Type 0) where
  -- A line is awaited, and then handled with its size.
  line-Always :
      (content left stream text more : Bytes) (size : ℕ)
      → Free b'\n' text
      → stoul 16 (line_of text) ≡ some size
      → length text + 2 ≤ s.chunk_size_max
      → length left ≤ s.chunk_size_max
      → left ++ stream ≡ text ++ b'\r' ∷ b'\n' ∷ more
      → ((kept rest : Bytes)
          → length kept ≤ s.chunk_size_max
          → kept ++ rest ≡ more
          → Always regex_match config P
              (on_chunk_size regex_match config size (length kept) (state s content kept no_read))
              rest)
      → Always regex_match config P (state s content left chunk_line) stream
  unfolding on_success arrive
  line-Always content left stream text more size h z a b e k =
      let f = refill left stream (text ++ crlf) more (e ∙ sym (append_assoc text crlf more)) in
      later
        (record {
          bytes = f.bytes;
          rest = f.stream';
          count = length text + 2;
          split = f.split;
          completes = (
            ap (until crlf) (f.buffer ∙ append_assoc text crlf f.left')
                ∙ until-append text f.left' h,
            omega (arith, length-append left f.bytes, f.size, length-append text crlf),
          );
        })
        (λ bytes rest n split (c, fits).
          let (kept, p, q, r) =
            until-line (left ++ bytes) text rest more n h
              (append_assoc left bytes rest ∙ ap (◌++◌ left) (sym split) ∙ e) c in
          rw
            (
              r,
              on_chunk_line-size regex_match config text kept size
                  (state s content (left ++ bytes) no_read) h p z,
            )
            (k kept rest
              (omega (arith, fits, ap length p, length-append text (b'\r' ∷ b'\n' ∷ kept))) q))

  -- What is left of a chunk's end.
  end-Always :
      (content e rest more : Bytes)
      → b'\r' ∷ b'\n' ∷ more ≡ e ++ rest
      → length e ≤ s.chunk_size_max
      → ((left rest' : Bytes)
          → length left ≤ s.chunk_size_max
          → left ++ rest' ≡ more
          → Always regex_match config P (state s content left chunk_line) rest')
      → Always regex_match config P (state s content (tail_of e) (next_of e)) rest
  end-Always content [] rest more h b k =
      chunk_end-Always regex_match config P s content crlf more rest 2 (sym h) refl
        (k [] more (omega arith) refl)
  end-Always content (x ∷ []) rest more h b k =
      chunk_end-Always regex_match config P s content (b'\n' ∷ []) more rest 1 (ground (arith, h))
        refl (k [] more (omega arith) refl)
  end-Always content (x ∷ y ∷ e) rest more h b k = k e rest (omega arith) (ground (arith, h))

  -- A chunk that is longer than what arrived with its line, and one that is not.
  chunk-Always :
      (content kept rest bytes more : Bytes)
      → kept ++ rest ≡ bytes ++ b'\r' ∷ b'\n' ∷ more
      → length kept ≤ s.chunk_size_max
      → ((left rest' : Bytes)
          → length left ≤ s.chunk_size_max
          → left ++ rest' ≡ more
          → Always regex_match config P (state s (content ++ bytes) left chunk_line) rest')
      → Always regex_match config P
          (take_chunk regex_match config
            (length bytes)
            (length kept)
            (state s content kept no_read))
          rest
  chunk-Always content kept rest bytes more e b k =
      elim (Bool-cases (ltb (length kept) (length bytes))) [
        | inl part ↦
            let (t, p, q) = append-cut kept rest bytes (b'\r' ∷ b'\n' ∷ more) e (ground arith) in
            let size : length bytes ≡ length kept + length t = ap length p ∙ length-append kept t in
            let rejoin : (content ++ kept) ++ t ≡ content ++ bytes =
              append_assoc content kept t ∙ ap (◌++◌ content) (sym p) in
            rw
              (take_chunk-part regex_match config kept t content (length bytes) s size
                (ground arith))
              (chunk_read-Always regex_match config P s (content ++ kept) t (crlf ++ more) rest
                (length t) q refl
                (rw rejoin (
                  chunk_end-Always regex_match config P s (content ++ bytes) crlf more
                    (crlf ++ more) 2 refl refl (k [] more (omega arith) refl))))
        | inr whole ↦
            let (x, p, q) =
              append-cut bytes (b'\r' ∷ b'\n' ∷ more) kept rest (sym e) (ground arith) in
            let size : length kept ≡ length bytes + length x =
              ap length p ∙ length-append bytes x in
            rw
              (ap
                  (λ b.
                    take_chunk regex_match config (length bytes) (length kept)
                      (state s content b no_read))
                  p
                ∙ take_chunk-all regex_match config bytes x content (length kept) s size)
              (end-Always (content ++ bytes) x rest more q (omega arith) k)
      ]

module _ (regex_match : Bytes → Bytes → Option (List Bytes)) (config : HttpConfig)
    (s : Session) where
  on_chunk_size-zero :
      (n : ℕ) (content kept : Bytes)
      → on_chunk_size regex_match config 0 n (state s content kept no_read)
        ≡ find_resource regex_match config (state s content kept no_read)
  unfolding on_chunk_size
  on_chunk_size-zero n content kept = refl

  -- However a chunked body arrives, the handlers put the bytes of its chunks together and then give
  -- the request to its function. The content that is read fits the limit, and
  -- the lines of the sizes fit the buffer. What the client sends
  -- behind the line of the last chunk, and so the empty line that ends the body, is left unread.
  pub chunked-Always :
      (cs : List Chunk) (content left stream last more : Bytes)
      → All IsChunk cs
      → IsLast last
      → length content + length (contents cs) ≤ config.max_request_streambuf_size
      → length content + length (contents cs) < size_t_mod
      → 18 ≤ s.chunk_size_max
      → length left ≤ s.chunk_size_max
      → left ++ stream ≡ chunked cs last more
      → Always regex_match config
          (HasContent regex_match config s (content ++ contents cs) more)
          (state s content left chunk_line)
          stream
  chunked-Always [] content left stream last more cs_ok last_ok h k a b e =
      line-Always regex_match config s (HasContent regex_match config s (content ++ []) more)
        content left stream last more 0 last_ok.one_line last_ok.size_zero
        (omega (arith, last_ok.short_line)) b e
        λ kept rest r q. now (
          kept,
          on_chunk_size-zero (length kept) content kept
              ∙ ap (λ c. find_resource regex_match config (state s c kept no_read))
                  (sym (append-nil content)),
          q,
        )
  chunked-Always (c ∷ cs) content left stream last more (c_ok, cs_ok) last_ok h k a b e =
      let P = HasContent regex_match config s (content ++ (c.bytes ++ contents cs)) more in
      let total = length-append c.bytes (contents cs) in
      let grown = length-append content c.bytes in
      line-Always regex_match config s P content left stream c.size_text
        (c.bytes ++ b'\r' ∷ b'\n' ∷ chunked cs last more) (length c.bytes) c_ok.one_line
        c_ok.size_is (omega (arith, c_ok.short_line)) b e
        λ kept rest fits q.
          rw
            (on_chunk_size-take regex_match config (length c.bytes) (length kept)
              (state s content kept no_read) c_ok.not_empty (omega arith) (omega arith))
            (chunk-Always regex_match config s P content kept rest c.bytes (chunked cs last more) q
              fits
              λ left' rest' b' r. rw (← append_assoc content c.bytes (contents cs)) (
                chunked-Always cs (content ++ c.bytes) left' rest' last more cs_ok last_ok
                  (omega arith) (omega arith) a b' r))

-- ===== src/HttpServer/ChunkedRequest.antt =====
-- webserver/server_http.hpp, read and read_chunked_transfer_encoded: a request with a chunked body,
-- header and all, however its bytes arrive.
use juce_simpleweb.Prelude.{
  ℕ, ◌≤◌, ◌<◌, ◌≡◌, refl, Option, none, some, List, [], ◌++◌, ltb, if◌then◌else◌, length, Bytes,
  codes, arith, All,
}
use juce_simpleweb.CaseInsensitive.{Multimap, find_field}
use juce_simpleweb.Frame.{size_t_mod}
use juce_simpleweb.HttpHeader.RoundTrip.{IsField}
use juce_simpleweb.RequestMessage.{Request}
use juce_simpleweb.RequestMessage.RoundTrip.{IsRequestLine, write_request}
use juce_simpleweb.HttpServer.{HttpConfig, chunk_line, Session}
use juce_simpleweb.HttpServer.Reader.{after_header, start_chunks}
use juce_simpleweb.HttpServer.Arrival.{Always, Always-map}
use juce_simpleweb.HttpServer.HeadRead.{read_request, parsed, awaiting, header-Always}
use juce_simpleweb.HttpServer.Chunks.{Chunk, IsChunk, chunked, contents, state}
use juce_simpleweb.HttpServer.ChunkedBody.{IsLast, HasContent, chunked-Always}

abbrev pub room : ℕ → ℕ
room n = if ltb 18 n then n else 18

module _ (regex_match : Bytes → Bytes → Option (List Bytes)) (config : HttpConfig) where
  after_header-chunked :
      (n : ℕ) (s : Session)
      → find_field (codes "Content-Length") s.request.header ≡ none
      → find_field (codes "Transfer-Encoding") s.request.header ≡ some (codes "chunked")
      → after_header regex_match config n s
        ≡ state (record s { chunk_size_max = room (length s.streambuf) }) [] s.streambuf chunk_line
  unfolding after_header start_chunks
  after_header-chunked n s e f = rw (e, after_header) (rw f refl)

  -- The request goes to its function with its fields and this content, whatever room the buffer of the
  -- sizes had.
  abbrev pub HasChunks : Session → Request → Bytes → Bytes → Session → Bytes → Type 0
  HasChunks s request content more d rest =
      (n : ℕ) × HasContent regex_match config
        (record (parsed config s request []) { chunk_size_max = n }) content more d rest

  -- A request with chunked Transfer-Encoding and no Content-Length, however its bytes arrive, goes to
  -- its function with the bytes of its chunks put together, if it survives the wire, and its header,
  -- its content and the lines of its chunks fit. What the client sends behind the line of the last
  -- chunk, and so the empty line that ends the body, is left unread.
  pub chunked_request-Always :
      (s : Session) (method path : Bytes) (query : Option Bytes) (version : Bytes)
      (fields : Multimap) (cs : List Chunk) (last more left stream : Bytes)
      → IsRequestLine method path query version
      → All IsField fields
      → find_field (codes "Content-Length") fields ≡ none
      → find_field (codes "Transfer-Encoding") fields ≡ some (codes "chunked")
      → All IsChunk cs
      → IsLast last
      → length (contents cs) ≤ config.max_request_streambuf_size
      → length (contents cs) < size_t_mod
      → length (write_request method path query version fields) ≤ config.max_request_streambuf_size
      → length left ≤ config.max_request_streambuf_size
      → left ++ stream ≡ write_request method path query version fields ++ chunked cs last more
      → Always regex_match config
          (HasChunks s (read_request method path query version fields s.request) (contents cs) more)
          (awaiting s left)
          stream
  chunked_request-Always s method path query version fields cs last more left stream l h f g cs_ok
        last_ok m z a b e =
      let request = read_request method path query version fields s.request in
      header-Always regex_match config (HasChunks s request (contents cs) more) s method path query
        version fields (chunked cs last more) left stream l h a b e
        λ kept rest q. rw (after_header-chunked (length kept) (parsed config s request kept) f g) (
          Always-map regex_match config (λ d rest' p. (room (length kept), p))
            (chunked-Always regex_match config
              (record (parsed config s request []) { chunk_size_max = room (length kept) }) cs []
              kept rest last more cs_ok last_ok (omega (arith, m)) (omega (arith, z)) (ground arith)
              (ground arith) q))

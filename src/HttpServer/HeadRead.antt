-- ===== src/HttpServer/HeadRead.antt =====
-- webserver/server_http.hpp, read: the header of a request, however its bytes arrive.
use juce_simpleweb.Prelude.{
  ℕ, ◌-◌, ◌≤◌, ◌≡◌, ◌≢◌, refl, sym, ap, ◌∙◌, true, Option, List, [], ◌∷◌, ◌++◌, length,
  length-append, append_assoc, Bytes, codes, arith, All, All-append,
}
use juce_simpleweb.Buffers.{refill}
use juce_simpleweb.Bytes.Search.{Free}
use juce_simpleweb.CaseInsensitive.{Multimap}
use juce_simpleweb.HttpHeader.{crlf, write_fields}
use juce_simpleweb.HttpHeader.RoundTrip.{IsField}
use juce_simpleweb.RequestMessage
use juce_simpleweb.RequestMessage.{Request}
use juce_simpleweb.RequestMessage.Scan.{target, query_or, request_line}
use juce_simpleweb.RequestMessage.RoundTrip.{
  IsRequestLine, write_request, parse-write_request, request_line-Free,
}
use juce_simpleweb.HttpServer.{HttpConfig, no_read, header_read, Session, timer_for}
use juce_simpleweb.HttpServer.Reader.{on_header, after_header, on_success, arrive}
use juce_simpleweb.HttpServer.Arrival.{until, blank_line, Always, later}
use juce_simpleweb.HttpServer.Head.{IsLine, head_text, until-head, until-head_line}

abbrev pub request_text : Bytes → Bytes → Option Bytes → Bytes → Bytes
request_text method path query version =
    method ++ b' ' ∷ (target path query ++ b' ' ∷ (codes "HTTP/" ++ version))

abbrev field_line : Bytes × Bytes → Bytes
field_line (first, second) = first ++ b':' ∷ b' ' ∷ second

abbrev pub field_lines : Multimap → List Bytes
field_lines [] = []
field_lines (field ∷ fields) = field_line field ∷ field_lines fields

pub head_text-fields :
    (fields : Multimap) → write_fields fields ++ crlf ≡ head_text (field_lines fields)
unfolding write_fields
head_text-fields [] = refl
head_text-fields ((first, second) ∷ fields) = simp (append_assoc, head_text-fields fields)

pub head_text-request :
    (method path : Bytes) (query : Option Bytes) (version : Bytes) (fields : Multimap)
    → write_request method path query version fields
      ≡ head_text (request_text method path query version ∷ field_lines fields)
head_text-request method path query version fields =
    ap (λ t. request_line method path query version ++ b'\n' ∷ t) (head_text-fields fields)
    ∙ simp append_assoc

IsLine-append : (v : Bytes) (c : ℕ) (s : Bytes) → Free b'\n' (v ++ c ∷ s) → IsLine (v ++ c ∷ s)
IsLine-append [] c s h = h
IsLine-append (x ∷ v) c s h = h

All-front : (P : ℕ → Type 0) (s t : Bytes) → All P (s ++ t) → All P s
All-front P [] t h = tt
All-front P (c ∷ s) t (h, hs) = (h, All-front P s t hs)

pub field_lines-IsLine : (fields : Multimap) → All IsField fields → All IsLine (field_lines fields)
field_lines-IsLine [] h = tt
field_lines-IsLine ((first, second) ∷ fields) ((name, name_line, value_line, v), hs) = (
  IsLine-append first b':' (b' ' ∷ second)
      (All-append (λ x. x ≢ b'\n') first _ name_line (omega arith, (omega arith, value_line))),
  field_lines-IsLine fields hs,
)

request_text-IsLine :
    (method path : Bytes) (query : Option Bytes) (version : Bytes)
    → IsRequestLine method path query version
    → IsLine (request_text method path query version)
request_text-IsLine method path query version l = IsLine-append method b' ' _ (
    All-front (λ x. x ≢ b'\n') (request_text method path query version) (b'\r' ∷ [])
      (rw whole (request_line-Free method path query version l)))
  where
    whole :
        request_text method path query version ++ b'\r' ∷ []
        ≡ request_line method path query version
    whole = simp append_assoc

pub request_lines :
    (method path : Bytes) (query : Option Bytes) (version : Bytes) (fields : Multimap)
    → IsRequestLine method path query version
    → All IsField fields
    → All IsLine (request_text method path query version ∷ field_lines fields)
request_lines method path query version fields l h =
    (request_text-IsLine method path query version l, field_lines-IsLine fields h)

-- The request that the parser makes of it.
abbrev pub read_request : Bytes → Bytes → Option Bytes → Bytes → Multimap → Request → Request
read_request method path query version fields r = record {
  method = method;
  path = path;
  query_string = query_or query r.query_string;
  version = version;
  header = fields;
}

-- The session behind the header.
abbrev pub parsed : HttpConfig → Session → Request → Bytes → Session
parsed config s request kept = record s {
  request = request;
  streambuf = kept;
  reading = no_read;
  timer = timer_for config.timeout_content;
}

-- A session with a header to read.
abbrev pub awaiting : Session → Bytes → Session
awaiting s left = record s { reading = header_read; streambuf = left }

module _ (regex_match : Bytes → Bytes → Option (List Bytes)) (config : HttpConfig) where
  on_header-parsed :
      (b rest : Bytes) (n : ℕ) (s' : Session) (request : Request)
      → RequestMessage.parse b s'.request ≡ (true, request, rest)
      → on_header regex_match config n (record s' { streambuf = b })
        ≡ after_header regex_match config
            (length b - n)
            (record s' { request = request; streambuf = rest })
  unfolding on_header
  on_header-parsed b rest n s' request e = rw e

  -- The handler of the header, on a buffer that begins with a written request.
  on_header-request :
      (method path : Bytes) (query : Option Bytes) (version : Bytes) (fields : Multimap)
      (kept : Bytes) (s' : Session)
      → IsRequestLine method path query version
      → All IsField fields
      → on_header regex_match config
          (length (write_request method path query version fields))
          (record s' { streambuf = write_request method path query version fields ++ kept })
        ≡ after_header regex_match config (length kept) (record s' {
          request = read_request method path query version fields s'.request;
          streambuf = kept;
        })
  on_header-request method path query version fields kept s' l h =
      let W = write_request method path query version fields in
      let r = read_request method path query version fields s'.request in
      let left : length (W ++ kept) - length W ≡ length kept =
        omega (arith, length-append W kept) in
      on_header-parsed (W ++ kept) kept (length W) s' r
        (parse-write_request method path query version fields kept s'.request l h)
      ∙ ap (λ n. after_header regex_match config n (record s' { request = r; streambuf = kept }))
          left

  -- A header is read and parsed, if it survives the wire and is within the limit; what follows it is
  -- in the buffer or still to be read.
  pub header-Always :
      (P : Session → Bytes → Type 0) (s : Session) (method path : Bytes) (query : Option Bytes)
      (version : Bytes) (fields : Multimap) (behind left stream : Bytes)
      → IsRequestLine method path query version
      → All IsField fields
      → length (write_request method path query version fields) ≤ config.max_request_streambuf_size
      → length left ≤ config.max_request_streambuf_size
      → left ++ stream ≡ write_request method path query version fields ++ behind
      → ((kept rest : Bytes)
          → kept ++ rest ≡ behind
          → Always regex_match config P
              (after_header regex_match config
                (length kept)
                (parsed config s (read_request method path query version fields s.request) kept))
              rest)
      → Always regex_match config P (awaiting s left) stream
  unfolding on_success arrive
  header-Always P s method path query version fields behind left stream l h a b e k =
      let W = write_request method path query version fields in
      let w = request_text method path query version in
      let ws = field_lines fields in
      let lines = request_lines method path query version fields l h in
      let same = head_text-request method path query version fields in
      let f = refill left stream W behind e in
      later
        (record {
          bytes = f.bytes;
          rest = f.stream';
          count = length (head_text (w ∷ ws));
          split = f.split;
          completes = (
            ap (until blank_line) (f.buffer ∙ ap (λ b. b ++ f.left') same)
                ∙ until-head w ws f.left' lines,
            omega (arith, length-append left f.bytes, f.size),
          );
        })
        (λ bytes rest n split (c, fits).
          let (kept, p, q, size) =
            until-head_line (left ++ bytes) rest w ws behind n lines
              (append_assoc left bytes rest
                ∙ ap (◌++◌ left) (sym split)
                ∙ e
                ∙ ap (λ b. b ++ behind) same)
              c in
          let s' = parsed config s s.request (left ++ bytes) in
          let handled =
            ap (λ b. on_header regex_match config n (record s' { streambuf = b }))
              (p ∙ ap (λ b. b ++ kept) (sym same))
            ∙ ap (λ m. on_header regex_match config m (record s' { streambuf = W ++ kept }))
                (size ∙ ap length (sym same))
            ∙ on_header-request method path query version fields kept s' l h in
          rw handled (k kept rest q))

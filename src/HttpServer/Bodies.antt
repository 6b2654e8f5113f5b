-- ===== src/HttpServer/Bodies.antt =====
-- webserver/server_http.hpp, read: a request with a Content-Length, however its bytes arrive.
use juce_simpleweb.Prelude.{
  ℕ, ◌+◌, ◌-◌, ◌≤◌, ◌<◌, ◌≡◌, refl, sym, ap, ◌∙◌, Option, some, List, [], ◌++◌, ltb, length,
  length-append, append-nil, append-cut, exact-cut, Bytes, codes, arith, All, Bool-cases, inl, inr,
}
use juce_simpleweb.CaseInsensitive.{Multimap, find_field}
use juce_simpleweb.HttpHeader.RoundTrip.{IsField}
use juce_simpleweb.Numerals.{stoul}
use juce_simpleweb.RequestMessage.{Request}
use juce_simpleweb.RequestMessage.RoundTrip.{IsRequestLine, write_request}
use juce_simpleweb.HttpServer.{HttpConfig, no_read, content_read, Session, timer_for}
use juce_simpleweb.HttpServer.Routes.{find_resource}
use juce_simpleweb.HttpServer.Reader.{after_header, read_content, on_success, arrive}
use juce_simpleweb.HttpServer.Arrival.{Always, now, later}
use juce_simpleweb.HttpServer.HeadRead.{read_request, parsed, awaiting, header-Always}

-- The request goes to its function: its fields are those that were sent, and the content begins
-- with the body. What has arrived behind the body, `extra`, is taken for content as well.
abbrev pub HasRequest :
    (Bytes → Bytes → Option (List Bytes))
    → HttpConfig
    → Session
    → Request
    → Bytes
    → Bytes
    → Session
    → Bytes
    → Type 0
HasRequest regex_match config s request body more d rest =
    (extra : Bytes) × (d
      ≡ find_resource regex_match config (record s {
        request = request;
        streambuf = body ++ extra;
        reading = no_read;
        timer = timer_for config.timeout_content;
      }))
    × (extra ++ rest ≡ more)

module _ (regex_match : Bytes → Bytes → Option (List Bytes)) (config : HttpConfig)
    (s : Session) where
  after_header-length :
      (n k : ℕ) (text : Bytes) (s' : Session)
      → find_field (codes "Content-Length") s'.request.header ≡ some text
      → stoul 10 text ≡ some k
      → after_header regex_match config n s' ≡ read_content regex_match config k n s'
  unfolding after_header
  after_header-length n k text s' f e = rw (f, after_header) (rw e)

  read_content-all :
      (k n : ℕ) (s' : Session)
      → k ≤ config.max_request_streambuf_size
      → k ≤ n
      → read_content regex_match config k n s' ≡ find_resource regex_match config s'
  unfolding read_content
  read_content-all k n s' h l = ground arith

  read_content-part :
      (k n : ℕ) (s' : Session)
      → k ≤ config.max_request_streambuf_size
      → n < k
      → read_content regex_match config k n s' ≡ record s' { reading = content_read (k - n) }
  unfolding read_content
  read_content-part k n s' h l = ground arith

  -- The content, behind a header with `kept` in the buffer.
  content-Always :
      (request : Request) (kept rest body more : Bytes)
      → length body ≤ config.max_request_streambuf_size
      → kept ++ rest ≡ body ++ more
      → Always regex_match config
          (HasRequest regex_match config s request body more)
          (read_content regex_match config
            (length body)
            (length kept)
            (parsed config s request kept))
          rest
  unfolding on_success arrive
  content-Always request kept rest body more h e =
      elim (Bool-cases (ltb (length kept) (length body))) [
        | inl part ↦
            let (t, p, q) = append-cut kept rest body more e (ground arith) in
            let size : length body ≡ length kept + length t = ap length p ∙ length-append kept t in
            rw
              (read_content-part (length body) (length kept) (parsed config s request kept) h
                (ground arith))
              (later
                (record {
                  bytes = t;
                  rest = more;
                  count = length body - length kept;
                  split = q;
                  completes = (omega arith, refl);
                })
                λ bytes rest' n e' (l, _).
                  let (x, y) = exact-cut bytes rest' t more (sym e' ∙ q) (omega arith) in
                  now (
                    [],
                    ap (λ b. find_resource regex_match config (parsed config s request b))
                        (ap (◌++◌ kept) x ∙ sym p ∙ sym (append-nil body)),
                    y,
                  ))
        | inr whole ↦
            let (x, p, q) = append-cut body more kept rest (sym e) (ground arith) in
            rw
              (read_content-all (length body) (length kept) (parsed config s request kept) h
                (ground arith))
              (now (
                x,
                ap (λ b. find_resource regex_match config (parsed config s request b)) p,
                sym q,
              ))
      ]

-- A request with a Content-Length, however its bytes arrive, goes to its function, if it survives
-- the wire, its length is that of its body, and its header and its body are within the limit.
pub request-Always :
    (regex_match : Bytes → Bytes → Option (List Bytes)) (config : HttpConfig) (s : Session)
    (method path : Bytes) (query : Option Bytes) (version : Bytes) (fields : Multimap)
    (text body more left stream : Bytes)
    → IsRequestLine method path query version
    → All IsField fields
    → find_field (codes "Content-Length") fields ≡ some text
    → stoul 10 text ≡ some (length body)
    → length body ≤ config.max_request_streambuf_size
    → length (write_request method path query version fields) ≤ config.max_request_streambuf_size
    → length left ≤ config.max_request_streambuf_size
    → left ++ stream ≡ write_request method path query version fields ++ (body ++ more)
    → Always regex_match config
        (HasRequest regex_match config s
          (read_request method path query version fields s.request)
          body
          more)
        (awaiting s left)
        stream
request-Always regex_match config s method path query version fields text body more left stream l h
      found z k a b e =
    let request = read_request method path query version fields s.request in
    header-Always regex_match config (HasRequest regex_match config s request body more) s method
      path query version fields (body ++ more) left stream l h a b e
      λ kept rest q.
        rw
          (after_header-length regex_match config s (length kept) (length body) text
            (parsed config s request kept) found z)
          (content-Always regex_match config s request kept rest body more k q)

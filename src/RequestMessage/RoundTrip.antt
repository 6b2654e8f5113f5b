-- ===== src/RequestMessage/RoundTrip.antt =====
-- common/utility.hpp, RequestMessage::parse: a written request is read back field by field.
use juce_simpleweb.Prelude.{
  ℕ, ◌+◌, ◌-◌, ◌≡◌, ◌≢◌, refl, ◌∙◌, true, Option, none, some, [], ◌∷◌, ◌++◌, append_assoc, arith,
  length, length-append, drop-append_cons, take-append, Bytes, codes, All, All-append,
}
use juce_simpleweb.Bytes.Search.{Free, find-append, getline-append}
use juce_simpleweb.Bytes.Slices.{substr-middle, find_from-middle}
use juce_simpleweb.CaseInsensitive.{Multimap}
use juce_simpleweb.HttpHeader
use juce_simpleweb.HttpHeader.{write_fields, crlf}
use juce_simpleweb.HttpHeader.RoundTrip.{IsField, parse-write_fields}
use juce_simpleweb.RequestMessage.{Request, parse_version, parse_target, parse}
use juce_simpleweb.RequestMessage.Scan.{
  target, query_or, IsQuery, query_start, scan-target, request_line, set_target-line,
}

length-codes_http : length (codes "HTTP") ≡ 4
length-codes_http = refl

-- The protocol of a request line whose first part ends before position `n`.
parse_version-line :
    (front version stream : Bytes) (n : ℕ) (r : Request)
    → n + 1 ≡ length front
    → parse_version (front ++ (codes "HTTP/" ++ (version ++ b'\r' ∷ []))) n stream r ≡ (
      true,
      record r { version = version; header = (HttpHeader.parse stream).0 },
      (HttpHeader.parse stream).1,
    )
unfolding parse_version
parse_version-line front version stream n r e =
    let line = front ++ (codes "HTTP/" ++ (version ++ b'\r' ∷ [])) in
    rw
      (
        find_from-middle b'/' line front (codes "HTTP") (version ++ b'\r' ∷ []) (n + 1) refl e
            (omega arith),
        parse_version,
      )
      (rw (
        substr-middle line front (codes "HTTP") (b'/' ∷ (version ++ b'\r' ∷ [])) (n + 1)
            (n + 1 + 4 - n - 1) refl e (omega arith),
        substr-middle line (front ++ codes "HTTP/") version (b'\r' ∷ []) (n + 1 + 4 + 1)
            (length line - (n + 1 + 4) - 2) (simp append_assoc)
            (omega (arith, length-append front (codes "HTTP/")))
            (omega (
              arith,
              length-append front (codes "HTTP/" ++ (version ++ b'\r' ∷ [])),
              length-append version (b'\r' ∷ []),
            )),
      ))

-- What a request line must be made of: a method, a target and a version that the separators of
-- the line do not occur in.
pub record IsRequestLine (method path : Bytes) (query : Option Bytes) (version : Bytes)
    : Type 0 where
  pub method_free : Free b' ' method
  pub method_line : Free b'\n' method
  pub path_free : Free b' ' path
  pub path_mark : Free b'?' path
  pub path_line : Free b'\n' path
  pub query_free : IsQuery query
  pub version_line : Free b'\n' version

target-Free :
    (path : Bytes) (query : Option Bytes)
    → Free b'\n' path
    → IsQuery query
    → Free b'\n' (target path query)
target-Free path none h q = h
target-Free path (some query) h q =
    All-append (λ x. x ≢ b'\n') path (b'?' ∷ query) h (omega arith, q.1)

pub request_line-Free :
    (method path : Bytes) (query : Option Bytes) (version : Bytes)
    → IsRequestLine method path query version
    → Free b'\n' (request_line method path query version)
request_line-Free method path query version l =
    All-append (λ x. x ≢ b'\n') method _ l.method_line
      (
        omega arith,
        All-append (λ x. x ≢ b'\n') (target path query) _
            (target-Free path query l.path_line l.query_free)
            (
              omega arith,
              All-append (λ x. x ≢ b'\n') (codes "HTTP/") _ (omega arith)
                  (All-append (λ x. x ≢ b'\n') version _ l.version_line (omega arith)),
            ),
      )

parse_target-line :
    (method path : Bytes) (query : Option Bytes) (version stream : Bytes) (r : Request)
    → parse_target
        (request_line method path query version)
        (length method)
        (
          query_start (length method + 1 + length path) query,
          some (length method + 1 + length (target path query)),
        )
        stream
        r
      ≡ (
        true,
        record r {
          path = path;
          query_string = query_or query r.query_string;
          version = version;
          header = (HttpHeader.parse stream).0;
        },
        (HttpHeader.parse stream).1,
      )
unfolding parse_target
parse_target-line method path query version stream r =
    let front = method ++ (b' ' ∷ (target path query ++ b' ' ∷ [])) in
    let n = length method + 1 + length (target path query) in
    let rest = b' ' ∷ (codes "HTTP/" ++ (version ++ b'\r' ∷ [])) in
    let cut = set_target-line method path query rest r in
    let split : request_line method path query version
        ≡ front ++ (codes "HTTP/" ++ (version ++ b'\r' ∷ [])) =
      simp append_assoc in
    rw (set_target-line method path query rest r) (
      rw split (
        parse_version-line front version stream n _ (
          omega (
            arith,
            length-append method (b' ' ∷ (target path query ++ b' ' ∷ [])),
            length-append (target path query) (b' ' ∷ []),
          ))))

-- A request line with its end and the header fields behind it, as the clients write them.
abbrev pub write_request : Bytes → Bytes → Option Bytes → Bytes → Multimap → Bytes
write_request method path query version fields =
    request_line method path query version ++ b'\n' ∷ (write_fields fields ++ crlf)

-- A written request, whose method, target, version and fields hold none of the separators that
-- end them, is parsed successfully: its method, path, query, version and header fields are read
-- back, the query string is left alone where the target has none, and the body behind the
-- header stays in the stream.
pub parse-write_request :
    (method path : Bytes) (query : Option Bytes) (version : Bytes) (fields : Multimap)
    (body : Bytes) (r : Request)
    → IsRequestLine method path query version
    → All IsField fields
    → parse (write_request method path query version fields ++ body) r ≡ (
      true,
      record {
        method = method;
        path = path;
        query_string = query_or query r.query_string;
        version = version;
        header = fields;
      },
      body,
    )
unfolding parse
parse-write_request method path query version fields body r l h =
    let line = request_line method path query version in
    let rest = write_fields fields ++ (crlf ++ body) in
    let whole : write_request method path query version fields ++ body ≡ line ++ b'\n' ∷ rest =
      simp append_assoc in
    let tail = codes "HTTP/" ++ (version ++ b'\r' ∷ []) in
    let after = target path query ++ b' ' ∷ tail in
    rw whole (
      rw (getline-append line rest (request_line-Free method path query version l), parse)
        (rw (find-append b' ' method after l.method_free) (
          rw
            (
              drop-append_cons method b' ' after,
              scan-target path query tail (length method + 1) l.path_free l.path_mark l.query_free,
              take-append method (b' ' ∷ after),
            )
            (parse_target-line method path query version rest _
              ∙ rw (parse-write_fields fields body h)))))

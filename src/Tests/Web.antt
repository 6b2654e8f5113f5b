-- ===== src/Tests/Web.antt =====
-- The theorems on the HTTP server, each applied to concrete data.
use juce_simpleweb.Prelude.{
  ℕ, ◌≡◌, refl, ◌↔◌, true, false, Option, none, some, List, [], ◌∷◌, ◌++◌, if◌then◌else◌, arith,
  take, drop, Bytes, bytes_eq, codes, All,
}
use juce_simpleweb.CaseInsensitive.{Multimap, find_field, case_insensitive_equal}
use juce_simpleweb.HttpHeader.{crlf, write_fields}
use juce_simpleweb.HttpHeader.RoundTrip.{IsField}
use juce_simpleweb.Numerals.{
  stoul, read_signed, read_prefixed, read_number, read_digits, decimal_text, decimal_fuel,
}
use juce_simpleweb.RequestMessage.RoundTrip.{IsRequestLine, write_request}
use juce_simpleweb.ResponseMessage
use juce_simpleweb.ResponseMessage.{Response}
use juce_simpleweb.StatusCode.{status_text, text_of}
use juce_simpleweb.HttpServer.{runs, HttpConfig, Session, no_timer, no_read}
use juce_simpleweb.HttpServer.Routes.{find_resource}
use juce_simpleweb.HttpServer.Routing.{Routed, find_resource_iff}
use juce_simpleweb.HttpServer.Arrival.{Always}
use juce_simpleweb.HttpServer.Chunks.{Chunk, chunked}
use juce_simpleweb.HttpServer.ChunkedRequest.{HasChunks, chunked_request-Always}
use juce_simpleweb.HttpServer.Bodies.{HasRequest, request-Always}
use juce_simpleweb.HttpServer.HeadRead.{read_request, awaiting}
use juce_simpleweb.HttpServer.KeepAlive.{new_request, on_sent}
use juce_simpleweb.HttpServer.NextRequest.{next, next_request-Always}
use juce_simpleweb.HttpServer.Response.{note_field, note_fields, write_content}
use juce_simpleweb.HttpServer.Answers.{parse-write_content}
use juce_simpleweb.HttpServer.Framing.{write_content-delimits}

abbrev web_config : HttpConfig
web_config = record {
  on_error = true;
  on_upgrade = false;
  timeout_request = 5;
  timeout_content = 300;
  max_request_streambuf_size = 100;
  resource = (codes "^/echo$", (codes "POST", 1) ∷ []) ∷ [];
  default_resource = (codes "GET", 0) ∷ [];
}

abbrev matches : Bytes → Bytes → Option (List Bytes)
matches regex path = if bytes_eq path (codes "/echo") then some (path ∷ []) else none

abbrev web_session : Session
web_session = record {
  request = record {
    method = codes "POST";
    path = codes "/echo";
    query_string = [];
    version = codes "1.1";
    header = (codes "Transfer-Encoding", codes "chunked") ∷ [];
  };
  streambuf = [];
  chunk_size_streambuf = [];
  chunk_size_max = 18;
  reading = no_read;
  timer = no_timer;
  registered = true;
  log = [];
}

abbrev two_chunks : List Chunk
two_chunks =
    record { size_text = codes "5"; bytes = codes "Hello" }
    ∷ record { size_text = codes "7;x"; bytes = codes ", there" }
    ∷ []

abbrev post_fields : Multimap
post_fields = (codes "Host", codes "example.org") ∷ (codes "content-length", codes "5") ∷ []

abbrev post_line : IsRequestLine (codes "POST") (codes "/echo") none (codes "1.1")
post_line = record {
  method_free = omega arith;
  method_line = omega arith;
  path_free = omega arith;
  path_mark = omega arith;
  path_line = omega arith;
  query_free = tt;
  version_line = omega arith;
}

post_fields-IsField : All IsField post_fields
post_fields-IsField = (
  (omega arith, omega arith, omega arith, omega arith),
  ((omega arith, omega arith, omega arith, omega arith), tt),
)

abbrev chunked_fields : Multimap
chunked_fields = (codes "Transfer-Encoding", codes "chunked") ∷ []

chunked_request-Always_example :
    Always matches web_config
      (HasChunks matches web_config web_session
        (read_request
          (codes "POST")
          (codes "/echo")
          none
          (codes "1.1")
          chunked_fields
          web_session.request)
        (codes "Hello, there")
        crlf)
      (awaiting web_session (codes "POS"))
      (drop 3 (
        write_request (codes "POST") (codes "/echo") none (codes "1.1") chunked_fields
        ++ chunked two_chunks (codes "0") crlf))
unfolding stoul read_signed read_prefixed read_number read_digits find_field case_insensitive_equal
    write_fields
chunked_request-Always_example =
    chunked_request-Always matches web_config web_session (codes "POST") (codes "/echo") none
      (codes "1.1") chunked_fields two_chunks (codes "0") crlf (codes "POS") _ post_line
      ((omega arith, omega arith, omega arith, omega arith), tt) refl refl
      (
        record {
          one_line = omega arith;
          size_is = refl;
          not_empty = omega arith;
          short_line = omega arith;
        },
        (
          record {
            one_line = omega arith;
            size_is = refl;
            not_empty = omega arith;
            short_line = omega arith;
          },
          tt,
        ),
      )
      (record { one_line = omega arith; size_zero = refl; short_line = omega arith }) (omega arith)
      (omega arith) (omega arith) (omega arith) refl

request-Always_example :
    Always matches web_config
      (HasRequest matches web_config web_session
        (read_request
          (codes "POST")
          (codes "/echo")
          none
          (codes "1.1")
          post_fields
          web_session.request)
        (codes "Hello")
        (codes "GET"))
      (awaiting web_session (codes "POS"))
      (drop 3 (
        write_request (codes "POST") (codes "/echo") none (codes "1.1") post_fields
        ++ codes "HelloGET"))
unfolding stoul read_signed read_prefixed read_number read_digits find_field case_insensitive_equal
    write_fields
request-Always_example =
    request-Always matches web_config web_session (codes "POST") (codes "/echo") none (codes "1.1")
      post_fields (codes "5") (codes "Hello") (codes "GET") (codes "POS") _ post_line
      post_fields-IsField refl refl (omega arith) (omega arith) (omega arith) refl

next_request-Always_example :
    Always matches web_config
      (HasRequest matches web_config
        (next web_session)
        (read_request (codes "POST") (codes "/echo") none (codes "1.1") post_fields new_request)
        (codes "Hello")
        [])
      (on_sent web_config true none false web_session)
      (write_request (codes "POST") (codes "/echo") none (codes "1.1") post_fields ++ codes "Hello")
unfolding stoul read_signed read_prefixed read_number read_digits find_field case_insensitive_equal
    write_fields
next_request-Always_example =
    next_request-Always matches web_config web_session (codes "POST") (codes "/echo") none
      (codes "1.1") post_fields (codes "5") (codes "Hello") [] _ refl refl post_line
      post_fields-IsField refl refl (omega arith) (omega arith) refl

abbrev served_session : Session
served_session = record web_session { log = runs 1 (some (codes "/echo" ∷ [])) ∷ [] }

find_resource_iff_example :
    (find_resource matches web_config web_session ≡ served_session)
    ↔ Routed matches web_config web_session served_session
find_resource_iff_example = find_resource_iff matches web_config web_session served_session

abbrev plain_fields : Multimap
plain_fields = (codes "Content-Type", codes "text/plain") ∷ []

abbrev blank_response : Response
blank_response = record { version = []; status_code = []; header = [] }

parse-write_content_example :
    ResponseMessage.parse
      (write_content false 200 (codes "Hello") plain_fields ++ codes "HTTP")
      blank_response
    ≡ (
      true,
      record {
        version = codes "1.1";
        status_code = codes "200 OK";
        header =
            (codes "Content-Type", codes "text/plain") ∷ (codes "Content-Length", codes "5") ∷ [];
      },
      codes "HelloHTTP",
    )
unfolding status_text text_of note_fields note_field decimal_text decimal_fuel
    case_insensitive_equal
parse-write_content_example =
    parse-write_content false 200 (codes "Hello") (codes "HTTP") plain_fields blank_response
      ((omega arith, omega arith, omega arith, omega arith), tt)

write_content-delimits_example :
    (response : Response) × (text stream : Bytes) × (size : ℕ) × (ResponseMessage.parse
        (write_content false 200 (codes "Hello") plain_fields ++ codes "HTTP")
        blank_response
      ≡ (true, response, stream))
    × (find_field (codes "Content-Length") response.header ≡ some text)
    × (stoul 10 text ≡ some size)
    × (take size stream ≡ codes "Hello")
    × (drop size stream ≡ codes "HTTP")
unfolding find_field case_insensitive_equal
write_content-delimits_example =
    write_content-delimits 200 (codes "Hello") (codes "HTTP") plain_fields blank_response
      ((omega arith, omega arith, omega arith, omega arith), tt) refl (refl, tt) (omega arith)

-- ===== src/Tests/Http.antt =====
-- The theorems on messages, codings and the handshake, each applied to concrete data.
use juce_simpleweb.Prelude.{
  ℕ, ◌≡◌, ◌≢◌, ◌↔◌, refl, true, false, some, List, [], ◌∷◌, ◌++◌, arith, Bytes, codes, All, IsByte,
}
use juce_simpleweb.CaseInsensitive.{
  Multimap, case_insensitive_equal, case_insensitive_hash, case_insensitive_hash-eq,
}
use juce_simpleweb.Percent
use juce_simpleweb.Percent.RoundTrip.{decode-encode}
use juce_simpleweb.Bytes.{back_is}
use juce_simpleweb.HttpHeader
use juce_simpleweb.HttpHeader.RoundTrip.{IsField}
use juce_simpleweb.HttpHeader.Lines.{HeaderLine, valued, bare, lines_of, parse-lines_of}
use juce_simpleweb.RequestMessage
use juce_simpleweb.RequestMessage.{Request}
use juce_simpleweb.RequestMessage.RoundTrip.{IsRequestLine, write_request, parse-write_request}
use juce_simpleweb.QueryString.{create, parse}
use juce_simpleweb.QueryString.RoundTrip.{IsQueryField, parse-create}
use juce_simpleweb.Base64.{base64_encode, base64_decode}
use juce_simpleweb.Base64.RoundTrip.{base64_decode-base64_encode}
use juce_simpleweb.StatusCode.{text_of, status_text}
use juce_simpleweb.Handshake.{hash_of, accept_key}
use juce_simpleweb.Handshake.AcceptKey.{ZerosLast, IsDigest, accept_key_iff}

-- Some bytes, two of which are escaped in a query.
abbrev some_bytes : Bytes
some_bytes = 0 ∷ b'a' ∷ b'%' ∷ 255 ∷ []

some_bytes-IsByte : All IsByte some_bytes
some_bytes-IsByte = (omega arith, (omega arith, (omega arith, (omega arith, tt))))

decode-encode_example : Percent.decode (Percent.encode some_bytes) ≡ some_bytes
decode-encode_example = decode-encode some_bytes some_bytes-IsByte

base64_example : base64_decode (base64_encode some_bytes) ≡ some_bytes
base64_example = base64_decode-base64_encode some_bytes some_bytes-IsByte (omega arith)

case_insensitive_hash-eq_example :
    case_insensitive_hash (λ c. c) (codes "Upgrade")
    ≡ case_insensitive_hash (λ c. c) (codes "uPGRADE")
unfolding case_insensitive_equal
case_insensitive_hash-eq_example =
    case_insensitive_hash-eq (λ c. c) (codes "Upgrade") (codes "uPGRADE") refl

status_text_example : status_text 404 ≡ codes "404 Not Found"
unfolding status_text text_of
status_text_example = refl

not_found_text : status_text 404 ≢ []
not_found_text e = nonempty b'4' (codes "04 Not Found") (rw status_text_example at e)
  where
    nonempty : (c : ℕ) (s : Bytes) → c ∷ s ≢ []
    nonempty c s h = cc

abbrev host_fields : Multimap
host_fields = (codes "Host", codes "a.b") ∷ (codes "X", []) ∷ []

host_fields-IsField : All IsField host_fields
host_fields-IsField =
    ((omega arith, omega arith, omega arith, omega arith), ((omega arith, omega arith, tt, tt), tt))

-- A line with two spaces and a bare line feed, one with no value, and one as it is usual.
abbrev mixed_lines : List HeaderLine
mixed_lines =
    valued (codes "Host") 2 (codes "a.b") false
    ∷ bare (codes "X")
    ∷ valued (codes "Upgrade") 1 (codes "websocket") true
    ∷ []

parse-lines_of_example :
    HttpHeader.parse (lines_of mixed_lines ++ (b'\r' ∷ b'\n' ∷ codes "body"))
    ≡ ((codes "Host", codes "a.b") ∷ (codes "Upgrade", codes "websocket") ∷ [], codes "body")
unfolding back_is
parse-lines_of_example =
    parse-lines_of mixed_lines (b'\r' ∷ []) (codes "body")
      (
        (omega arith, omega arith, omega arith, omega arith, refl),
        (
          (omega arith, omega arith),
          ((omega arith, omega arith, omega arith, omega arith, tt), tt),
        ),
      )
      (omega arith) (omega arith)

get_line : IsRequestLine (codes "GET") (codes "/x") (some (codes "q=1")) (codes "1.1")
get_line = record {
  method_free = omega arith;
  method_line = omega arith;
  path_free = omega arith;
  path_mark = omega arith;
  path_line = omega arith;
  query_free = (omega arith, omega arith);
  version_line = omega arith;
}

abbrev no_request : Request
no_request = record { method = []; path = []; query_string = []; version = []; header = [] }

parse-write_request_example :
    RequestMessage.parse
      (write_request (codes "GET") (codes "/x") (some (codes "q=1")) (codes "1.1") host_fields
        ++ codes "body")
      no_request
    ≡ (
      true,
      record {
        method = codes "GET";
        path = codes "/x";
        query_string = codes "q=1";
        version = codes "1.1";
        header = host_fields;
      },
      codes "body",
    )
parse-write_request_example =
    parse-write_request (codes "GET") (codes "/x") (some (codes "q=1")) (codes "1.1") host_fields
      (codes "body") no_request get_line host_fields-IsField

abbrev form_fields : Multimap
form_fields = (codes "name", codes "A & B") ∷ (codes "empty", []) ∷ []

form_fields-IsQueryField : All IsQueryField form_fields
form_fields-IsQueryField = (
  record {
    named = λ e. cc;
    no_ampersand = omega arith;
    no_equals = omega arith;
    value_bytes = omega arith;
  },
  (
    record {
      named = λ e. cc;
      no_ampersand = omega arith;
      no_equals = omega arith;
      value_bytes = tt;
    },
    tt,
  ),
)

parse-create_example : parse (create form_fields) ≡ form_fields
parse-create_example = parse-create form_fields form_fields-IsQueryField

-- A digest with a zero byte in the middle.
abbrev some_digest : Bytes → Bytes
some_digest s =
    1 ∷ 2 ∷ 0 ∷ 4 ∷ 5 ∷ 6 ∷ 7 ∷ 8 ∷ 9 ∷ 10 ∷ 11 ∷ 12 ∷ 13 ∷ 14 ∷ 15 ∷ 16 ∷ 17 ∷ 18 ∷ 19 ∷ 20 ∷ []

some_digest-IsDigest : IsDigest (hash_of some_digest (codes "key"))
some_digest-IsDigest = record { size = refl; bytes = omega arith }

accept_key_iff_example :
    (accept_key some_digest [] (codes "key") ≡ base64_encode (some_digest []))
    ↔ ZerosLast (some_digest [])
accept_key_iff_example = accept_key_iff some_digest [] (codes "key") some_digest-IsDigest

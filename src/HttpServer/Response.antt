-- ===== src/HttpServer/Response.antt =====
-- webserver/server_http.hpp, Response: the text that a response writes, and what follows its
-- sending.
use juce_simpleweb.Prelude.{
  ℕ, Bool, true, false, ◌&&◌, not, Option, none, some, [], ◌∷◌, ◌++◌, if◌then◌else◌, length, Bytes,
  codes,
}
use juce_simpleweb.CaseInsensitive.{Multimap, case_insensitive_equal}
use juce_simpleweb.HttpHeader.{crlf, write_fields}
use juce_simpleweb.Numerals.{decimal_text}
use juce_simpleweb.StatusCode.{status_text}

-- The two flags of `write_header` after a field.
unfoldable pub note_field : Bool × Bool → Bytes × Bytes → Bool × Bool
note_field (content_length_written, chunked_transfer_encoding) (first, second) =
    if not content_length_written && case_insensitive_equal first (codes "content-length")
    then (true, chunked_transfer_encoding)
    else if not chunked_transfer_encoding
        && (case_insensitive_equal first (codes "transfer-encoding")
            && case_insensitive_equal second (codes "chunked"))
    then (content_length_written, true)
    else (content_length_written, chunked_transfer_encoding)

unfoldable pub note_fields : Bool × Bool → Multimap → Bool × Bool
note_fields flags [] = flags
note_fields flags (field ∷ header) = note_fields (note_field flags field) header

-- What follows the fields; a size `none` is -1.
abbrev pub header_end : Bool → Bool × Bool → Option ℕ → Bytes
header_end close_connection_after_response flags none = crlf
header_end close_connection_after_response (content_length_written, chunked_transfer_encoding)
      (some size) =
    if not content_length_written
      && (not chunked_transfer_encoding && not close_connection_after_response)
    then codes "Content-Length: " ++ (decimal_text size ++ (crlf ++ crlf))
    else crlf

unfoldable pub write_header : Bool → Multimap → Option ℕ → Bytes
write_header close_connection_after_response header size =
    write_fields header
    ++ header_end close_connection_after_response (note_fields (false, false) header) size

abbrev status_line : ℕ → Bytes
status_line status_code = codes "HTTP/1.1 " ++ (status_text status_code ++ crlf)

-- `write(status_code, header)`.
unfoldable pub write_status : Bool → ℕ → Multimap → Bytes
write_status close_connection_after_response status_code header =
    status_line status_code ++ write_header close_connection_after_response header (some 0)

-- `write(status_code, content, header)` for a string.
unfoldable pub write_content : Bool → ℕ → Bytes → Multimap → Bytes
write_content close_connection_after_response status_code content header =
    status_line status_code
    ++ (write_header close_connection_after_response header (some (length content)) ++ content)

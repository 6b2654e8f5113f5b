-- ===== src/HttpServer/Answers.antt =====
-- webserver/server_http.hpp, Response: what the parser of responses makes of a written response.
use juce_simpleweb.Prelude.{
  ℕ, ◌≡◌, refl, ap, ◌∙◌, Bool, true, false, ◌&&◌, not, Option, none, some, List, [], ◌∷◌, ◌++◌,
  ◌==◌, if◌then◌else◌, length, append_assoc, Bytes, codes, arith, All, All-append, Bool-cases, inl,
  inr,
}
use juce_simpleweb.Bytes.Search.{Free, one_line, one_line-Free, and_both}
use juce_simpleweb.CaseInsensitive.{Multimap}
use juce_simpleweb.HttpHeader.{crlf, write_fields}
use juce_simpleweb.HttpHeader.RoundTrip.{IsField}
use juce_simpleweb.Numerals.{decimal_text}
use juce_simpleweb.Numerals.RoundTrip.{decimal_text-IsDecimal, IsDecimal}
use juce_simpleweb.StatusCode.{status_text, text_of, status_code_strings}
use juce_simpleweb.ResponseMessage
use juce_simpleweb.ResponseMessage.{Response}
use juce_simpleweb.ResponseMessage.RoundTrip.{write_response, parse-write_response}
use juce_simpleweb.HttpServer.Response.{note_fields, header_end, write_header, write_content}

-- The reason phrases have no line feed.
one_lines : List (ℕ × Bytes) → Bool
one_lines [] = true
one_lines ((key, text) ∷ entries) = one_line text && one_lines entries

abbrev text_or : Option Bytes → Bytes
text_or none = []
text_or (some text) = text

text_of-Free :
    (code : ℕ) (entries : List (ℕ × Bytes))
    → one_lines entries ≡ true
    → Free b'\n' (text_or (text_of code entries))
unfolding one_lines text_of
text_of-Free code [] h = tt
text_of-Free code ((key, text) ∷ entries) h =
    let (here, there) = and_both (one_line text) (one_lines entries) h in
    elim (Bool-cases (key == code)) [
      | inl e ↦ rw e (one_line-Free text here)
      | inr e ↦ rw e (text_of-Free code entries there)
    ]

status_text-Free : (code : ℕ) → Free b'\n' (status_text code)
unfolding status_text one_lines one_line
status_text-Free code = text_of-Free code status_code_strings refl

-- The field that `write_header` adds.
abbrev pub length_field : Bool → Bool × Bool → ℕ → Multimap
length_field close_connection_after_response (content_length_written, chunked_transfer_encoding)
      size =
    if not content_length_written
      && (not chunked_transfer_encoding && not close_connection_after_response)
    then (codes "Content-Length", decimal_text size) ∷ []
    else []

header_end-length_field :
    (close : Bool) (flags : Bool × Bool) (size : ℕ)
    → header_end close flags (some size) ≡ write_fields (length_field close flags size) ++ crlf
unfolding write_fields
header_end-length_field close (written, chunked) size =
    elim (Bool-cases (not written && (not chunked && not close))) [
      | inl e ↦ rw e (simp append_assoc)
      | inr e ↦ rw e refl
    ]

write_fields-append :
    (xs ys : Multimap) → write_fields (xs ++ ys) ≡ write_fields xs ++ write_fields ys
unfolding write_fields
write_fields-append [] ys = refl
write_fields-append ((first, second) ∷ xs) ys = simp (append_assoc, write_fields-append xs ys)

IsDecimal-Free : (s : Bytes) → All IsDecimal s → Free b'\n' s
IsDecimal-Free [] h = tt
IsDecimal-Free (c ∷ s) (h, hs) = (omega arith, IsDecimal-Free s hs)

pub length_entry-IsField : (size : ℕ) → IsField (codes "Content-Length", decimal_text size)
length_entry-IsField size =
    let (c, s, e, digits) = decimal_text-IsDecimal size in
    rw e (omega arith, omega arith, IsDecimal-Free (c ∷ s) digits, omega (arith, digits.0))

length_field-IsField :
    (close : Bool) (flags : Bool × Bool) (size : ℕ) → All IsField (length_field close flags size)
length_field-IsField close (written, chunked) size =
    elim (Bool-cases (not written && (not chunked && not close))) [
      | inl e ↦ rw e (length_entry-IsField size, tt)
      | inr e ↦ rw e tt
    ]

write_content-response :
    (close : Bool) (code : ℕ) (content : Bytes) (header : Multimap)
    → write_content close code content header
      ≡ write_response
          (codes "1.1")
          (status_text code)
          (header ++ length_field close (note_fields (false, false) header) (length content))
        ++ content
unfolding write_content write_header
write_content-response close code content header =
    let flags = note_fields (false, false) header in
    let fields = length_field close flags (length content) in
    ap
      (λ e.
        codes "HTTP/1.1 " ++ (status_text code ++ crlf) ++ ((write_fields header ++ e) ++ content))
      (header_end-length_field close flags (length content))
    ∙ simp (append_assoc, write_fields-append header fields)

-- A response with a content, whose fields survive the wire, is parsed successfully: version 1.1, the
-- text of the code, and the fields that were given, behind them the one that `write_header` adds;
-- what is left in the stream is the content and what follows it.
pub parse-write_content :
    (close : Bool) (code : ℕ) (content rest : Bytes) (header : Multimap) (r : Response)
    → All IsField header
    → ResponseMessage.parse (write_content close code content header ++ rest) r ≡ (
      true,
      record {
        version = codes "1.1";
        status_code = status_text code;
        header = header ++ length_field close (note_fields (false, false) header) (length content);
      },
      content ++ rest,
    )
parse-write_content close code content rest header r h =
    let fields =
      header ++ length_field close (note_fields (false, false) header) (length content) in
    ap (λ t. ResponseMessage.parse (t ++ rest) r) (write_content-response close code content header)
    ∙ ap (λ t. ResponseMessage.parse t r)
        (append_assoc (write_response (codes "1.1") (status_text code) fields) content rest)
    ∙ parse-write_response (codes "1.1") (status_text code) fields (content ++ rest) r (omega arith)
        (omega arith) (status_text-Free code)
        (All-append IsField header _ h
          (length_field-IsField close (note_fields (false, false) header) (length content)))

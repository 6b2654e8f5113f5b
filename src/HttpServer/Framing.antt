-- ===== src/HttpServer/Framing.antt =====
-- webserver/server_http.hpp, write_header and write: the field that tells a client where a response ends.
use juce_simpleweb.Prelude.{
  ℕ, ◌<◌, ◌^◌, ◌≡◌, refl, sym, ap, ◌∙◌, Bool, true, false, ◌&&◌, none, some, [], ◌∷◌, ◌++◌, length,
  take, drop, take-append, drop-append, Bytes, codes, arith, Bool-cases, inl, inr, All,
}
use juce_simpleweb.HttpHeader.RoundTrip.{IsField}
use juce_simpleweb.CaseInsensitive.{
  Multimap, find_field, tolower, case_insensitive_equal, case_insensitive_equal_iff,
}
use juce_simpleweb.Numerals.{decimal_text, stoul}
use juce_simpleweb.Numerals.RoundTrip.{stoul-decimal_text}
use juce_simpleweb.HttpServer.Response.{note_field, note_fields, write_content}
use juce_simpleweb.ResponseMessage
use juce_simpleweb.ResponseMessage.{Response}
use juce_simpleweb.StatusCode.{status_text}
use juce_simpleweb.HttpServer.Answers.{length_field, parse-write_content}

both_ways : (a b : Bool) → (a ≡ true → b ≡ true) → (b ≡ true → a ≡ true) → a ≡ b
both_ways false false h k = refl
both_ways false true h k = k refl
both_ways true false h k = sym (h refl)
both_ways true true h k = refl

same_name :
    (first : Bytes)
    → case_insensitive_equal first (codes "content-length")
      ≡ case_insensitive_equal first (codes "Content-Length")
unfolding tolower
same_name first =
    let low = case_insensitive_equal_iff first (codes "content-length") in
    let high = case_insensitive_equal_iff first (codes "Content-Length") in
    both_ways _ _ (λ h. high.1 (low.0 h)) (λ h. low.1 (high.0 h))

find_field-miss :
    (name first second : Bytes) (fields : Multimap)
    → find_field name ((first, second) ∷ fields) ≡ none
    → (case_insensitive_equal first name ≡ false) × (find_field name fields ≡ none)
unfolding find_field
find_field-miss name first second fields h = elim (Bool-cases (case_insensitive_equal first name)) [
  | inl e ↦ absurd (ground (arith, e, h))
  | inr e ↦ (e, ground (arith, e, h))
]

pub find_field-append :
    (name : Bytes) (xs ys : Multimap)
    → find_field name xs ≡ none
    → find_field name (xs ++ ys) ≡ find_field name ys
unfolding find_field
find_field-append name [] ys h = refl
find_field-append name ((first, second) ∷ xs) ys h =
    let (miss, rest) = find_field-miss name first second xs h in
    rw miss (find_field-append name xs ys rest)

-- A field that does not announce chunks.
abbrev pub IsUnchunked : Bytes × Bytes → Type 0
IsUnchunked (first, second) =
    (case_insensitive_equal first (codes "transfer-encoding")
      && case_insensitive_equal second (codes "chunked"))
    ≡ false

note_field-other :
    (first second : Bytes)
    → case_insensitive_equal first (codes "Content-Length") ≡ false
    → IsUnchunked (first, second)
    → note_field (false, false) (first, second) ≡ (false, false)
unfolding note_field
note_field-other first second h k = rw (same_name first ∙ h, k) refl

note_fields-none :
    (header : Multimap)
    → find_field (codes "Content-Length") header ≡ none
    → All IsUnchunked header
    → note_fields (false, false) header ≡ (false, false)
unfolding note_fields
note_fields-none [] h k = refl
note_fields-none ((first, second) ∷ header) h (k, ks) =
    let (miss, rest) = find_field-miss (codes "Content-Length") first second header h in
    ap (λ flags. note_fields flags header) (note_field-other first second miss k)
    ∙ note_fields-none header rest ks

-- A response with a content of less than 2 ^ 64 bytes, on a connection that stays open, with fields
-- that survive the wire and among which is neither a Content-Length nor a chunked
-- Transfer-Encoding: the text that is written is parsed successfully, and the header that is parsed
-- has a Content-Length whose number is exactly how many of the bytes behind it are the content;
-- what follows on the connection begins there.
pub write_content-delimits :
    (code : ℕ) (content rest : Bytes) (header : Multimap) (r : Response)
    → All IsField header
    → find_field (codes "Content-Length") header ≡ none
    → All IsUnchunked header
    → length content < 2 ^ 64
    → (response : Response) × (text stream : Bytes) × (size : ℕ) × (ResponseMessage.parse
          (write_content false code content header ++ rest)
          r
        ≡ (true, response, stream))
      × (find_field (codes "Content-Length") response.header ≡ some text)
      × (stoul 10 text ≡ some size)
      × (take size stream ≡ content)
      × (drop size stream ≡ rest)
unfolding find_field case_insensitive_equal
write_content-delimits code content rest header r fields h k l =
    let size = length content in
    let text = decimal_text size in
    let announced = header ++ (codes "Content-Length", text) ∷ [] in
    (
      record { version = codes "1.1"; status_code = status_text code; header = announced },
      text,
      content ++ rest,
      size,
      parse-write_content false code content rest header r fields
          ∙ ap
              (λ flags.
                let response : Response = record {
                  version = codes "1.1";
                  status_code = status_text code;
                  header = header ++ length_field false flags size;
                } in
                (true, response, content ++ rest))
              (note_fields-none header h k),
      find_field-append (codes "Content-Length") header _ h,
      stoul-decimal_text size l,
      take-append content rest,
      drop-append content rest,
    )

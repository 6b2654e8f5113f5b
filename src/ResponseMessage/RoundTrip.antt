-- ===== src/ResponseMessage/RoundTrip.antt =====
-- common/utility.hpp, ResponseMessage::parse: a written response is read back field by field.
use juce_simpleweb.Prelude.{
  ◌+◌, ◌-◌, ◌≡◌, ◌≢◌, refl, sym, ap, ◌∙◌, true, false, some, [], ◌∷◌, ◌++◌, append_assoc, arith,
  ltb, lt→ltb, length, length-append, Bytes, codes, All, All-append,
}
use juce_simpleweb.Bytes.{find}
use juce_simpleweb.Bytes.Search.{Free, find-append, getline-append, back_is-append}
use juce_simpleweb.Bytes.Slices.{substr-middle}
use juce_simpleweb.CaseInsensitive.{Multimap}
use juce_simpleweb.HttpHeader
use juce_simpleweb.HttpHeader.{write_fields, crlf}
use juce_simpleweb.HttpHeader.RoundTrip.{IsField, parse-write_fields}
use juce_simpleweb.ResponseMessage.{Response, version_of, carriage, parse_status, parse}

-- The line less its line feed, as `write_handshake` and `Response::write` begin it.
abbrev pub status_line : Bytes → Bytes → Bytes
status_line version status = codes "HTTP/" ++ (version ++ (b' ' ∷ (status ++ b'\r' ∷ [])))

abbrev pub write_response : Bytes → Bytes → Multimap → Bytes
write_response version status fields =
    status_line version status ++ b'\n' ∷ (write_fields fields ++ crlf)

module _ (version status : Bytes) where
  length-status_line : length (status_line version status) ≡ length version + length status + 7
  length-status_line = omega (
    arith,
    length-append version (b' ' ∷ (status ++ b'\r' ∷ [])),
    length-append status (b'\r' ∷ []),
  )

  status_line-Free :
      Free b'\n' version → Free b'\n' status → Free b'\n' (status_line version status)
  status_line-Free h k =
      All-append (λ x. x ≢ b'\n') (codes "HTTP/") _ (omega arith)
        (All-append (λ x. x ≢ b'\n') version _ h
          (omega arith, All-append (λ x. x ≢ b'\n') status _ k (omega arith)))

  find-status_line :
      Free b' ' version → find b' ' (status_line version status) ≡ some (length version + 5)
  find-status_line h =
      find-append b' ' (codes "HTTP/" ++ version) (status ++ b'\r' ∷ [])
        (All-append (λ x. x ≢ b' ') (codes "HTTP/") version (omega arith) h)
      ∙ ap some (omega (arith, length-append (codes "HTTP/") version))

  version_of-status_line : version_of (status_line version status) (length version + 5) ≡ version
  unfolding version_of
  version_of-status_line =
      let far : ltb (length version + 5) 5 ≡ false = ground arith in
      rw far (
        substr-middle (status_line version status) (codes "HTTP/") version
          (b' ' ∷ (status ++ b'\r' ∷ [])) 5 (length version + 5 - 5) refl refl (omega arith))

  carriage-status_line : carriage (status_line version status) ≡ 1
  carriage-status_line =
      let split : status_line version status
          ≡ (codes "HTTP/" ++ (version ++ b' ' ∷ status)) ++ b'\r' ∷ [] =
        ap (◌++◌ (codes "HTTP/")) (sym (append_assoc version (b' ' ∷ status) (b'\r' ∷ []))) in
      rw split (rw (back_is-append b'\r' b'\r' (codes "HTTP/" ++ (version ++ b' ' ∷ status))))

  parse_status-line :
      (stream : Bytes) (r : Response)
      → parse_status (status_line version status) (length version + 5) stream r ≡ (
        true,
        record r { status_code = status; header = (HttpHeader.parse stream).0 },
        (HttpHeader.parse stream).1,
      )
  unfolding parse_status
  parse_status-line stream r =
      let line = status_line version status in
      let room : ltb (length version + 5 + 1) (length line) ≡ true =
        lt→ltb _ _ (omega (arith, length-status_line)) in
      rw room (
        rw (
          carriage-status_line,
          substr-middle line (codes "HTTP/" ++ version ++ b' ' ∷ []) status (b'\r' ∷ [])
              (length version + 5 + 1) (length line - (length version + 5 + 1) - 1)
              (simp append_assoc) (omega (arith, length-append version (b' ' ∷ [])))
              (omega (arith, length-status_line)),
        ))

-- A written response, with no space in its version, no line feed in its version and status, and
-- fields that survive the wire, is parsed successfully: its version, its status with the reason
-- phrase and its header fields are read back, and the bytes behind the header stay in the
-- stream.
pub parse-write_response :
    (version status : Bytes) (fields : Multimap) (body : Bytes) (r : Response)
    → Free b' ' version
    → Free b'\n' version
    → Free b'\n' status
    → All IsField fields
    → parse (write_response version status fields ++ body) r
      ≡ (true, record { version = version; status_code = status; header = fields }, body)
unfolding parse
parse-write_response version status fields body r h k l m =
    let line = status_line version status in
    let rest = write_fields fields ++ (crlf ++ body) in
    let whole : write_response version status fields ++ body ≡ line ++ b'\n' ∷ rest =
      simp append_assoc in
    let long : ltb 5 (length line) ≡ true =
      lt→ltb _ _ (omega (arith, length-status_line version status)) in
    rw whole (
      rw (getline-append line rest (status_line-Free version status k l), parse)
        (rw (find-status_line version status h) (
          rw long (
            rw (version_of-status_line version status)
              (parse_status-line version status rest _ ∙ rw (parse-write_fields fields body m))))))

-- ===== src/FileService/Delivered.antt =====
-- SimpleWebSocketServer.cpp, `serveFile`: what a client reads of a file that is served.
use juce_simpleweb.Prelude.{
  ◌^◌, ◌<◌, ◌≡◌, ◌⊎◌, refl, sym, ap, subst, ◌∙◌, inl, inr, Bool, true, false, some, [], ◌++◌,
  append_assoc, arith, Bytes, codes, All,
}
use juce_simpleweb.Bytes.Search.{Free}
use juce_simpleweb.CaseInsensitive.{find_field, case_insensitive_equal}
use juce_simpleweb.HashMap.{HashMap}
use juce_simpleweb.HttpHeader.RoundTrip.{IsField, IsValue}
use juce_simpleweb.MimeTypes.{MimeTypes}
use juce_simpleweb.MimeTypes.Lookup.{IsReady, get_mime_type_lem, mime_type-IsValue}
use juce_simpleweb.Numerals.{stoul, decimal_text}
use juce_simpleweb.Numerals.RoundTrip.{stoul-decimal_text}
use juce_simpleweb.StatusCode.{status_text, text_of}
use juce_simpleweb.ResponseMessage
use juce_simpleweb.ResponseMessage.{Response}
use juce_simpleweb.ResponseMessage.RoundTrip.{write_response, parse-write_response}
use juce_simpleweb.HttpServer.Response.{note_field, note_fields, write_header, write_status}
use juce_simpleweb.HttpServer.Answers.{length_entry-IsField}
use juce_simpleweb.FileService.{
  FileSystem, written, serve_file, answer_file, content_type, is_text, file_header,
}

module _ (fs : FileSystem) (maps : HashMap Bytes) (types : MimeTypes maps.Table) where
  open fs use {File, exists_as_file, is_a_child_of, get_child_file}

  -- What of a file is sent as the body.
  abbrev pub HasContent : File → Bytes → Type 0
  HasContent file content =
      ((is_text fs maps types (content_type fs maps types file) ≡ true)
        × (fs.load_file_as_string file ≡ content))
      ⊎ ((is_text fs maps types (content_type fs maps types file) ≡ false)
          × (fs.create_input_stream file ≡ some content))

  serve_file-content :
      (close : Bool) (file : File) (response content : Bytes)
      → HasContent file content
      → serve_file fs maps types close file response
        ≡ written ((response ++ write_status close 200 (file_header fs maps types file)) ++ content)
  unfolding serve_file
  serve_file-content close file response content (inl (e, f)) = rw (e, f) refl
  serve_file-content close file response content (inr (e, f)) = rw (e, f) refl

  content_type-IsField :
      (type : Bytes) → Free b'\n' type × IsValue type → IsField (codes "Content-Type", type)
  content_type-IsField type (line, value) = (omega arith, omega arith, line, value)

  file_header-IsField :
      (file : File) → IsReady maps types → All IsField (file_header fs maps types file)
  file_header-IsField file ready =
      let same = (get_mime_type_lem maps (fs.get_file_extension file) types ready).0 in
      (
        length_entry-IsField (fs.get_size file),
        (
          content_type-IsField (content_type fs maps types file) (
              subst (λ type. Free b'\n' type × IsValue type) (sym same)
                (mime_type-IsValue (fs.get_file_extension file))),
          (
            (omega arith, omega arith, omega arith, omega arith),
            ((omega arith, omega arith, omega arith, omega arith), tt),
          ),
        ),
      )

  head-response :
      (close : Bool) (file : File)
      → write_status close 200 (file_header fs maps types file)
        ≡ write_response (codes "1.1") (codes "200 OK") (file_header fs maps types file)
  unfolding write_status write_header note_fields note_field status_text text_of
      case_insensitive_equal
  head-response close file = refl

  -- A client that parses this text, whatever follows it, reads this status, the fields of the
  -- file, among them a Content-Length that is the size of the file, and then the body.
  pub record Reads (status : Bytes) (file : File) (content text : Bytes) : Type 0 where
    pub parsed :
        (rest : Bytes) (r : Response)
        → ResponseMessage.parse (text ++ rest) r ≡ (
          true,
          record {
            version = codes "1.1";
            status_code = status;
            header = file_header fs maps types file;
          },
          content ++ rest,
        )
    pub length_field :
        find_field (codes "Content-Length") (file_header fs maps types file)
        ≡ some (decimal_text (fs.get_size file))
    pub announced : stoul 10 (decimal_text (fs.get_size file)) ≡ some (fs.get_size file)

  written-Reads :
      (status : Bytes) (file : File) (content : Bytes)
      → Free b'\n' status
      → IsReady maps types
      → fs.get_size file < 2 ^ 64
      → Reads status file content
          (write_response (codes "1.1") status (file_header fs maps types file) ++ content)
  unfolding find_field case_insensitive_equal
  written-Reads status file content line ready small = record {
    parsed = λ rest r.
        ap (λ t. ResponseMessage.parse t r)
          (append_assoc (write_response (codes "1.1") status (file_header fs maps types file))
            content rest)
        ∙ parse-write_response (codes "1.1") status (file_header fs maps types file)
            (content ++ rest) r (omega arith) (omega arith) line (file_header-IsField file ready);
    length_field = refl;
    announced = stoul-decimal_text (fs.get_size file) small;
  }

  pub serve_file-Reads :
      (close : Bool) (file : File) (content : Bytes)
      → IsReady maps types
      → HasContent file content
      → fs.get_size file < 2 ^ 64
      → (text : Bytes) × (serve_file fs maps types close file [] ≡ written text)
        × Reads (codes "200 OK") file content text
  serve_file-Reads close file content ready has small = (
    _,
    serve_file-content close file [] content has
        ∙ ap (λ head. written (head ++ content)) (head-response close file),
    written-Reads (codes "200 OK") file content (omega arith) ready small,
  )

  pub answer_file-Reads :
      (close : Bool) (root file : File) (content : Bytes)
      → IsReady maps types
      → HasContent file content
      → fs.get_size file < 2 ^ 64
      → exists_as_file file ≡ true
      → is_a_child_of file root ≡ true
      → (text : Bytes) × (answer_file fs maps types close root file [] ≡ written text)
        × Reads (codes "200 OK") file content text
  unfolding answer_file
  answer_file-Reads close root file content ready has small e c =
      let (text, p, reads) = serve_file-Reads close file content ready has small in
      (text, rw (e, c) p, reads)

  -- A file that exists but is not below the root path: the line 403 Forbidden is written with no
  -- line end, and the head of the file 403.html follows it at once, so that a client reads the
  -- one status 403 ForbiddenHTTP/1.1 200 OK, the fields of 403.html and its content.
  pub answer_file-Reads_forbidden :
      (close : Bool) (root file : File) (content : Bytes)
      → IsReady maps types
      → HasContent (get_child_file (codes "403.html") root) content
      → fs.get_size (get_child_file (codes "403.html") root) < 2 ^ 64
      → exists_as_file file ≡ true
      → is_a_child_of file root ≡ false
      → (text : Bytes) × (answer_file fs maps types close root file [] ≡ written text)
        × Reads
            (codes "403 ForbiddenHTTP/1.1 200 OK")
            (get_child_file (codes "403.html") root)
            content
            text
  unfolding answer_file
  answer_file-Reads_forbidden close root file content ready has small e c =
      let page = get_child_file (codes "403.html") root in
      (
        _,
        rw (e, c)
            (serve_file-content close page (codes "HTTP/1.1 403 Forbidden") content has
              ∙ ap (λ head. written ((codes "HTTP/1.1 403 Forbidden" ++ head) ++ content))
                  (head-response close page)),
        written-Reads (codes "403 ForbiddenHTTP/1.1 200 OK") page content (omega arith) ready small,
      )

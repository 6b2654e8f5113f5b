-- ===== src/FileService.antt =====
-- SimpleWebSocketServer.cpp: `httpDefaultCallback` and `serveFile`, which answer a request with a
-- file below the root path. Files are those of juce::File, and so an interface; the handlers that
-- the program has added are functions of its own. A response is the text that was written to it.
pub mod Confined
pub mod Delivered
pub mod Secure
pub mod Responses
use juce_simpleweb.Prelude.{
  ℕ, Bool, true, false, ◌&&◌, ◌||◌, Option, none, some, List, [], ◌∷◌, ◌++◌, if◌then◌else◌, Bytes,
  codes,
}
use juce_simpleweb.CaseInsensitive.{Multimap}
use juce_simpleweb.HashMap.{HashMap}
use juce_simpleweb.MimeTypes.{MimeTypes, get_mime_type}
use juce_simpleweb.Numerals.{decimal_text}
use juce_simpleweb.RequestMessage.{Request}
use juce_simpleweb.HttpServer.Response.{write_status}

-- juce::File, and `String::contains`. A stream that cannot be created is a null pointer.
pub record FileSystem : Type 1 where
  pub File : Type 0
  pub exists : File → Bool
  pub is_directory : File → Bool
  pub exists_as_file : File → Bool
  pub get_child_file : Bytes → File → File
  pub is_a_child_of : File → File → Bool
  pub get_file_extension : File → Bytes
  pub get_size : File → ℕ
  pub load_file_as_string : File → Bytes
  pub create_input_stream : File → Option Bytes
  pub contains : Bytes → Bytes → Bool

-- How a callback ends: with the text of the response, by the exception of `substr`, or by a call
-- through a null pointer.
pub data Served : Type 0 where
  written : Bytes → Served
  out_of_range : Bytes → Served
  null_stream : Served

-- `handleHTTPRequest`: whether the handler has answered, and the text of the response afterwards.
abbrev pub Handler : Type 0
Handler = Request → Bytes → Bool × Bytes

-- The loop over the handlers.
unfoldable pub handle : List Handler → Request → Bytes → Bool × Bytes
handle [] request response = (false, response)
handle (handler ∷ handlers) request response =
    let (handled, response') = handler request response in
    let rest = handle handlers request response' in if handled then (true, response') else rest

-- A handler that has answered ends the callback.
abbrev pub settle : Bool × Bytes → (Bytes → Served) → Served
settle (true, response) rest = written response
settle (false, response) rest = rest response

-- `request->path.substr(1)`.
abbrev pub past_slash : (Bytes → Served) → Bytes → Bytes → Served
past_slash rest [] response = out_of_range response
past_slash rest (c ∷ path) response = rest path

-- `success_ok`.
abbrev pub success_ok : ℕ
success_ok = 200

module _ (fs : FileSystem) (maps : HashMap Bytes) (types : MimeTypes maps.Table) where
  open fs use {File, exists, is_directory, exists_as_file, get_child_file, is_a_child_of}

  abbrev content_type : File → Bytes
  content_type file = (get_mime_type maps (fs.get_file_extension file) types).0

  abbrev is_text : Bytes → Bool
  is_text type =
      fs.contains (codes "text") type
      || (fs.contains (codes "json") type
          || (fs.contains (codes "script") type || fs.contains (codes "css") type))

  abbrev file_header : File → Multimap
  file_header file =
      (codes "Content-Length", decimal_text (fs.get_size file))
      ∷ (codes "Content-Type", content_type file)
      ∷ (codes "Accept-range", codes "bytes")
      ∷ (codes "Access-Control-Allow-Origin", codes "*")
      ∷ []

  -- `serveFile`: the head, and the file as a text or as its bytes.
  unfoldable pub serve_file : Bool → File → Bytes → Served
  serve_file close file response =
      let head = response ++ write_status close success_ok (file_header file) in
      if is_text (content_type file)
      then written (head ++ fs.load_file_as_string file)
      else elim (fs.create_input_stream file) [
        | none ↦ null_stream
        | some bytes ↦ written (head ++ bytes)
      ]

  -- The file that a path names, less its first character.
  unfoldable pub find_file : File → Bytes → File
  find_file root path =
      let name : Bytes = elim path [ [] ↦ codes "index.html" | c ∷ s ↦ c ∷ s ] in
      let file = get_child_file name root in
      if exists file && is_directory file then get_child_file (codes "index.html") file else file

  abbrev pub not_found : Bytes → Served
  not_found response = written (response ++ codes "HTTP/1.1 404 Not Found")

  unfoldable pub answer_file : Bool → File → File → Bytes → Served
  unfolding serve_file
  answer_file close root file response =
      if exists_as_file file
      then (if is_a_child_of file root
          then serve_file close file response
          else serve_file close (get_child_file (codes "403.html") root)
              (response ++ codes "HTTP/1.1 403 Forbidden"))
      else not_found response

  -- The secure server does not ask where the file is.
  unfoldable pub answer_secure : Bool → File → Bytes → Served
  unfolding serve_file
  answer_secure close file response =
      if exists_as_file file then serve_file close file response else not_found response

  module _ (string_of : Bytes → Bytes) (close : Bool) (root : File) (handlers : List Handler) where
    -- What follows the loop over the handlers: an answer with the file that is found.
    abbrev pub below_root : (File → Bytes → Served) → Bytes → Bytes → Served
    below_root answer path response =
        if exists root && is_directory root
        then past_slash (λ name. answer (find_file root (string_of name)) response) path response
        else not_found response

    -- `SimpleWebSocketServer::httpDefaultCallback`.
    unfoldable pub http_default_callback : Request → Bytes → Served
    unfolding handle find_file answer_file
    http_default_callback request response =
        settle (handle handlers request response) (below_root (answer_file close root) request.path)

    -- `SecureWebSocketServer::httpDefaultCallback`.
    unfoldable pub https_default_callback : Request → Bytes → Served
    unfolding handle find_file serve_file
    https_default_callback request response =
        settle (handle handlers request response) (below_root (answer_secure close) request.path)

-- ===== src/FileService/Secure.antt =====
-- SimpleWebSocketServer.cpp, `SecureWebSocketServer::httpDefaultCallback` beside that of
-- SimpleWebSocketServer: what a client reads of the file that a request names.
use juce_simpleweb.Prelude.{
  ℕ, ◌^◌, ◌<◌, ◌≡◌, sym, subst, inl, inr, Bool, true, ◌&&◌, List, [], ◌∷◌, if◌then◌else◌, Bytes,
  codes, Bool-cases,
}
use juce_simpleweb.HashMap.{HashMap}
use juce_simpleweb.MimeTypes.{MimeTypes}
use juce_simpleweb.MimeTypes.Lookup.{IsReady}
use juce_simpleweb.RequestMessage.{Request}
use juce_simpleweb.FileService.{
  FileSystem, Served, written, Handler, find_file, answer_file, answer_secure,
  http_default_callback, https_default_callback,
}
use juce_simpleweb.FileService.Confined.{IsUnhandled, found}
use juce_simpleweb.FileService.Delivered.{
  HasContent, Reads, serve_file-Reads, answer_file-Reads, answer_file-Reads_forbidden,
}

module _ (fs : FileSystem) (maps : HashMap Bytes) (types : MimeTypes maps.Table)
    (string_of : Bytes → Bytes) (close : Bool) (root : fs.File) (handlers : List Handler) where
  open fs use {File, exists, is_directory, exists_as_file, get_child_file, is_a_child_of}

  -- A client that is sent this reads this status and this file.
  abbrev pub IsRead : Bytes → File → Bytes → Served → Type 0
  IsRead status file content served =
      (text : Bytes) × (served ≡ written text) × Reads fs maps types status file content text

  -- A file that can be served, with what of it is sent.
  abbrev pub IsServable : File → Bytes → Type 0
  IsServable file content = HasContent fs maps types file content × (fs.get_size file < 2 ^ 64)

  -- The file 403.html.
  abbrev pub page : File
  page = get_child_file (codes "403.html") root

  secure-IsRead :
      (file : File) (content : Bytes)
      → IsReady maps types
      → IsServable file content
      → exists_as_file file ≡ true
      → IsRead (codes "200 OK") file content (answer_secure fs maps types close file [])
  unfolding answer_secure
  secure-IsRead file content ready (has, small) e =
      rw e (serve_file-Reads fs maps types close file content ready has small)

  plain-IsRead :
      (file : File) (content denied : Bytes)
      → IsReady maps types
      → IsServable file content
      → IsServable page denied
      → exists_as_file file ≡ true
      → (if is_a_child_of file root
          then IsRead (codes "200 OK") file content (answer_file fs maps types close root file [])
          else IsRead
              (codes "403 ForbiddenHTTP/1.1 200 OK")
              page
              denied
              (answer_file fs maps types close root file []))
  plain-IsRead file content denied ready (has, small) (has', small') e =
      elim (Bool-cases (is_a_child_of file root)) [
        | inl c ↦ rw c (answer_file-Reads fs maps types close root file content ready has small e c)
        | inr c ↦
            rw c (
              answer_file-Reads_forbidden fs maps types close root file denied ready has' small' e
                c)
      ]

  -- With a path of at least one character and a root path that is a directory, a request that no
  -- handler takes or writes to, for a file that exists as a file: from the secure server a client
  -- reads the status 200 OK, the fields of that very file and its content, whether or not it is
  -- below the root path. From the plain server it reads the same if the file is below the root
  -- path, and otherwise the status 403 ForbiddenHTTP/1.1 200 OK and the file 403.html. Both files
  -- can be read, and have less than 2 ^ 64 bytes.
  pub https_default_callback-IsRead :
      (c : ℕ) (path : Bytes) (request : Request) (content denied : Bytes)
      → request.path ≡ c ∷ path
      → (exists root && is_directory root) ≡ true
      → IsUnhandled fs maps types string_of close root handlers request [] []
      → IsReady maps types
      → IsServable (find_file fs maps types root (string_of path)) content
      → IsServable page denied
      → exists_as_file (find_file fs maps types root (string_of path)) ≡ true
      → let file = find_file fs maps types root (string_of path) in
        IsRead
          (codes "200 OK")
          file
          content
          (https_default_callback fs maps types string_of close root handlers request [])
        × (if is_a_child_of file root
            then IsRead
                (codes "200 OK")
                file
                content
                (http_default_callback fs maps types string_of close root handlers request [])
            else IsRead
                (codes "403 ForbiddenHTTP/1.1 200 OK")
                page
                denied
                (http_default_callback fs maps types string_of close root handlers request []))
  unfolding http_default_callback https_default_callback
  https_default_callback-IsRead c path request content denied named dir unhandled ready servable
        servable' e =
      let file = find_file fs maps types root (string_of path) in
      let reach = λ (answer : File → Bytes → Served).
        found fs maps types string_of close root handlers answer request [] [] named dir
          unhandled in
      (
        subst (IsRead (codes "200 OK") file content)
            (sym (reach (answer_secure fs maps types close)))
            (secure-IsRead file content ready servable e),
        subst
            (λ served.
              if is_a_child_of file root
              then IsRead (codes "200 OK") file content served
              else IsRead (codes "403 ForbiddenHTTP/1.1 200 OK") page denied served)
            (sym (reach (answer_file fs maps types close root)))
            (plain-IsRead file content denied ready servable servable' e),
      )

-- ===== src/FileService/Confined.antt =====
-- SimpleWebSocketServer.cpp, `httpDefaultCallback`: which files a request can reach.
use juce_simpleweb.Prelude.{
  ℕ, ◌≡◌, ◌⊎◌, refl, sym, ap, subst, ◌∙◌, inl, inr, Bool, true, false, ◌&&◌, List, [], ◌∷◌, ◌++◌,
  if◌then◌else◌, Bytes, codes, Bool-cases,
}
use juce_simpleweb.HashMap.{HashMap}
use juce_simpleweb.MimeTypes.{MimeTypes}
use juce_simpleweb.RequestMessage.{Request}
use juce_simpleweb.FileService.{
  FileSystem, Served, out_of_range, Handler, handle, serve_file, find_file, answer_file, not_found,
  settle, past_slash, below_root, answer_secure, http_default_callback, https_default_callback,
}

module _ (fs : FileSystem) (maps : HashMap Bytes) (types : MimeTypes maps.Table)
    (string_of : Bytes → Bytes) (close : Bool) (root : fs.File) (handlers : List Handler) where
  open fs use {File, exists, is_directory, exists_as_file, get_child_file, is_a_child_of}

  -- A file was served after some text of the response.
  abbrev pub Serves : File → Bytes → Served → Type 0
  Serves file text served = served ≡ serve_file fs maps types close file text

  -- No handler took the request, and what the handlers wrote.
  abbrev pub IsUnhandled : Request → Bytes → Bytes → Type 0
  IsUnhandled request response text = handle handlers request response ≡ (false, text)

  -- What becomes of a request that no handler takes.
  abbrev pub Outcome : Request → Bytes → Served → Type 0
  Outcome request text served =
      (served ≡ not_found fs maps types text)
      ⊎ ((request.path ≡ []) × (served ≡ out_of_range text))
      ⊎ ((file : File) × (is_a_child_of file root ≡ true)
          × (exists_as_file file ≡ true)
          × Serves file text served)
      ⊎ ((file : File) × (is_a_child_of file root ≡ true)
          × Serves file (text ++ codes "HTTP/1.1 403 Forbidden") served)

  answer_file-Outcome :
      (request : Request) (text : Bytes) (file : File)
      → is_a_child_of (get_child_file (codes "403.html") root) root ≡ true
      → Outcome request text (answer_file fs maps types close root file text)
  unfolding answer_file
  answer_file-Outcome request text file child = elim (Bool-cases (exists_as_file file)) [
    | inl e ↦ elim (Bool-cases (is_a_child_of file root)) [
      | inl c ↦ inr (inr (inl (file, c, e, rw (e, c) refl)))
      | inr c ↦ inr (inr (inr (get_child_file (codes "403.html") root, child, rw (e, c) refl)))
    ]
    | inr e ↦ inl (rw e refl)
  ]

  -- A request that no handler takes, where what getChildFile gives for 403.html is below the root
  -- path: `httpDefaultCallback` writes the line 404, or the path is empty and substr throws, or a
  -- file below the root path is served, which exists as a file or follows the line 403. No file
  -- that is not below the root path is ever served, whatever the path of the request.
  pub http_default_callback-Outcome :
      (request : Request) (response text : Bytes)
      → is_a_child_of (get_child_file (codes "403.html") root) root ≡ true
      → IsUnhandled request response text
      → Outcome request text
          (http_default_callback fs maps types string_of close root handlers request response)
  unfolding http_default_callback
  http_default_callback-Outcome request response text child unhandled =
      subst (Outcome request text)
        (sym (
          ap
            (λ p. settle p (
              below_root fs maps types string_of close root handlers
                (answer_file fs maps types close root) request.path))
            unhandled))
        (elim (Bool-cases (exists root && is_directory root)) [
          | inl e ↦ rw e (by_path request.path refl)
          | inr e ↦ rw e (inl refl)
        ])
    where
      by_path :
          (path : Bytes)
          → request.path ≡ path
          → Outcome request text (
              past_slash
                (λ name.
                  answer_file fs maps types close root
                    (find_file fs maps types root (string_of name))
                    text)
                path
                text)
      by_path [] e = inr (inl (e, refl))
      by_path (c ∷ rest) e = answer_file-Outcome request text _ child

  -- What either callback answers with the file that it finds.
  pub found :
      (answer : File → Bytes → Served) {c : ℕ} {path : Bytes} (request : Request)
      (response text : Bytes)
      → request.path ≡ c ∷ path
      → (exists root && is_directory root) ≡ true
      → IsUnhandled request response text
      → settle
          (handle handlers request response)
          (below_root fs maps types string_of close root handlers answer request.path)
        ≡ answer (find_file fs maps types root (string_of path)) text
  found answer request response text named dir unhandled =
      ap
        (λ p. settle p (below_root fs maps types string_of close root handlers answer request.path))
        unhandled
      ∙ ap
          (λ b.
            if b
            then past_slash (λ name. answer (find_file fs maps types root (string_of name)) text)
                request.path text
            else not_found fs maps types text)
          dir
      ∙ ap
          (λ p.
            past_slash (λ name. answer (find_file fs maps types root (string_of name)) text) p text)
          named

  -- With a path of at least one character and a root path that is a directory, a request that no
  -- handler takes is answered by the secure server as by the plain one, if the file that is found
  -- is below the root path or is no file.
  pub https_default_callback-eq :
      (c : ℕ) (path : Bytes) (request : Request) (response text : Bytes)
      → request.path ≡ c ∷ path
      → (exists root && is_directory root) ≡ true
      → IsUnhandled request response text
      → ((is_a_child_of (find_file fs maps types root (string_of path)) root ≡ true)
          ⊎ (exists_as_file (find_file fs maps types root (string_of path)) ≡ false))
      → https_default_callback fs maps types string_of close root handlers request response
        ≡ http_default_callback fs maps types string_of close root handlers request response
  unfolding http_default_callback https_default_callback answer_secure answer_file
  https_default_callback-eq c path request response text named dir unhandled inside =
      found (answer_secure fs maps types close) request response text named dir unhandled
      ∙ same (find_file fs maps types root (string_of path)) inside
      ∙ sym (found (answer_file fs maps types close root) request response text named dir unhandled)
    where
      same :
          (file : File)
          → (is_a_child_of file root ≡ true) ⊎ (exists_as_file file ≡ false)
          → answer_secure fs maps types close file text
            ≡ answer_file fs maps types close root file text
      same file (inl e) = rw e refl
      same file (inr e) = rw e refl

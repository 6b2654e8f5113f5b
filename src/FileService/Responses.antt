-- ===== src/FileService/Responses.antt =====
-- SimpleWebSocketServer.cpp and webserver/server_http.hpp: what the web server sends for a request
-- whose callback throws.
use juce_simpleweb.Prelude.{
  ◌≡◌, ap, ◌∙◌, Bool, true, false, ◌&&◌, Option, none, some, List, [], ◌∷◌, ◌++◌, append-nil,
  if◌then◌else◌, Bytes,
}
use juce_simpleweb.HashMap.{HashMap}
use juce_simpleweb.MimeTypes.{MimeTypes}
use juce_simpleweb.RequestMessage.{Request}
use juce_simpleweb.HttpServer.{HttpConfig, Session, operation_canceled, fails}
use juce_simpleweb.HttpServer.Writing.{Ended, returns, throws, write}
use juce_simpleweb.JuceServer.Startup.{http_config}
use juce_simpleweb.FileService.{
  FileSystem, Served, written, out_of_range, null_stream, Handler, handle, find_file, answer_file,
  not_found, settle, past_slash, below_root, http_default_callback,
}

-- The end of the callback as the web server sees it; `none` is a call through a null pointer.
abbrev pub ended : Served → Option Ended
ended (written text) = some (returns text)
ended (out_of_range text) = some (throws text)
ended null_stream = none

unfoldable pub respond : HttpConfig → Served → Session → Option (Session × Bytes)
unfolding write
respond config served s = elim (ended served) [ none ↦ none | some e ↦ some (write config e s) ]

module _ (fs : FileSystem) (maps : HashMap Bytes) (types : MimeTypes maps.Table)
    (string_of : Bytes → Bytes) (close : Bool) (root : fs.File) (handlers : List Handler) where
  -- A request with an empty path that no handler takes, where the root path is a directory: the
  -- exception of substr ends the callback. A web server whose on_error is set is told once that
  -- the operation was canceled; the one that `initServer` sets up is told nothing. What is sent
  -- is what the handlers wrote, and so nothing at all if they wrote nothing.
  pub respond-empty_path :
      (config : HttpConfig) (request : Request) (response text : Bytes) (s : Session)
      → request.path ≡ []
      → (fs.exists root && fs.is_directory root) ≡ true
      → handle handlers request response ≡ (false, text)
      → let served =
          http_default_callback fs maps types string_of close root handlers request response in
        (config.on_error ≡ true
          → respond config served s
            ≡ some (record s { log = s.log ++ fails operation_canceled ∷ [] }, text))
        × (respond http_config served s ≡ some (s, text))
  unfolding http_default_callback respond write http_config
  respond-empty_path config request response text s empty dir unhandled =
      let thrown : http_default_callback fs maps types string_of close root handlers request
            response
          ≡ out_of_range text =
        ap
          (λ p. settle p (
            below_root fs maps types string_of close root handlers
              (answer_file fs maps types close root) request.path))
          unhandled
        ∙ ap
            (λ b.
              if b
              then past_slash
                  (λ name.
                    answer_file fs maps types close root
                      (find_file fs maps types root (string_of name)) text)
                  request.path text
              else not_found fs maps types text)
            dir
        ∙ ap
            (λ p.
              past_slash
                (λ name.
                  answer_file fs maps types close root
                    (find_file fs maps types root (string_of name)) text)
                p text)
            empty in
      (
        λ on.
            ap (λ v. respond config v s) thrown
            ∙ ap
                (λ b. some (
                  record s { log = s.log ++ (if b then fails operation_canceled ∷ [] else []) },
                  text,
                ))
                on,
        ap (λ v. respond http_config v s) thrown
            ∙ ap (λ l. some (record s { log = l }, text)) (append-nil s.log),
      )

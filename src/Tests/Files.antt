-- ===== src/Tests/Files.antt =====
-- The theorems on the files that SimpleWebSocketServer serves, and on the connections that a web
-- server accepts, each applied to concrete data.
use juce_simpleweb.Prelude.{
  ℕ, ◌≡◌, refl, inl, Bool, true, false, Option, none, some, List, [], ◌∷◌, ◌++◌, arith,
  if◌then◌else◌, Bytes, bytes_eq, codes,
}
use juce_simpleweb.HashMap.{HashMap}
use juce_simpleweb.HashMap.Listed.{Held, listed}
use juce_simpleweb.MimeTypes.{MimeTypes, start}
use juce_simpleweb.RequestMessage.{Request}
use juce_simpleweb.HttpServer.Accepting.{
  AcceptError, refused, started, succeeded, times, completions, completions-accepted,
}
use juce_simpleweb.FileService.{
  FileSystem, written, handle, find_file, answer_file, http_default_callback,
  https_default_callback,
}
use juce_simpleweb.FileService.Confined.{Outcome, http_default_callback-Outcome}
use juce_simpleweb.FileService.Secure.{IsRead, https_default_callback-IsRead}
use juce_simpleweb.FileService.Delivered.{Reads, answer_file-Reads_forbidden}

-- A disk with the directory /www, below which every path but /www/x is; every file is the text ok.
abbrev disk : FileSystem
disk = record {
  File = Bytes;
  exists = λ file. true;
  is_directory = λ file. bytes_eq file (codes "/www");
  exists_as_file = λ file. true;
  get_child_file = λ name file. file ++ codes "/" ++ name;
  is_a_child_of = λ file root. if bytes_eq file (codes "/www/x") then false else true;
  get_file_extension = λ file. codes ".txt";
  get_size = λ file. 2;
  load_file_as_string = λ file. codes "ok";
  create_input_stream = λ file. some (codes "ok");
  contains = λ word text. true;
}

abbrev Maps : HashMap Bytes
Maps = listed

abbrev types : MimeTypes (Held Bytes)
types = start Maps

abbrev same : Bytes → Bytes
same s = s

abbrev www : Bytes
www = codes "/www"

abbrev request_for : Bytes → Request
request_for target = record {
  method = codes "GET";
  path = target;
  query_string = [];
  version = codes "1.1";
  header = [];
}

http_default_callback-Outcome_example :
    Outcome disk Maps types same false www []
      (request_for (codes "/x"))
      []
      (http_default_callback disk Maps types same false www [] (request_for (codes "/x")) [])
unfolding handle
http_default_callback-Outcome_example =
    http_default_callback-Outcome disk Maps types same false www [] (request_for (codes "/x")) [] []
      refl refl

https_default_callback-IsRead_example :
    IsRead disk Maps types same false www []
      (codes "200 OK")
      (codes "/www/x")
      (codes "ok")
      (https_default_callback disk Maps types same false www [] (request_for (codes "/x")) [])
    × IsRead disk Maps types same false www []
        (codes "403 ForbiddenHTTP/1.1 200 OK")
        (codes "/www/403.html")
        (codes "ok")
        (http_default_callback disk Maps types same false www [] (request_for (codes "/x")) [])
unfolding handle find_file
https_default_callback-IsRead_example =
    https_default_callback-IsRead disk Maps types same false www [] b'/' (codes "x")
      (request_for (codes "/x")) (codes "ok") (codes "ok") refl refl refl (inl refl)
      (inl (refl, refl), omega arith) (inl (refl, refl), omega arith) refl

answer_file-Reads_forbidden_example :
    (text : Bytes) × (answer_file disk Maps types true www (codes "/www/x") [] ≡ written text)
    × Reads disk Maps types
        (codes "403 ForbiddenHTTP/1.1 200 OK")
        (codes "/www/403.html")
        (codes "ok")
        text
answer_file-Reads_forbidden_example =
    answer_file-Reads_forbidden disk Maps types true www (codes "/www/x") (codes "ok") (inl refl)
      (inl (refl, refl)) (omega arith) refl refl

-- One connection that is read from, one that is not.
abbrev two_done : List (Bool × Option AcceptError)
two_done = (true, none) ∷ (true, some (refused 1)) ∷ []

completions-accepted_example :
    ((completions true two_done started).under_way ≡ 2 ∷ [])
    × ((k : ℕ)
        → times k (completions true two_done started).reads
          ≡ (if succeeded two_done k then 1 else 0))
    × ((completions true two_done started).told ≡ refused 1 ∷ [])
completions-accepted_example = completions-accepted true two_done ((refl, refl), ((refl, refl), tt))

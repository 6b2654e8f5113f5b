-- ===== src/HttpServer/Routes.antt =====
-- webserver/server_http.hpp, find_resource: which function a request is given to. The regular
-- expressions are those of the C++ library, a parameter that gives the submatches of a match.
use juce_simpleweb.Prelude.{
  ℕ, Bool, true, false, ◌&&◌, Option, none, some, List, [], ◌∷◌, ◌++◌, if◌then◌else◌, Bytes,
  bytes_eq, codes,
}
use juce_simpleweb.CaseInsensitive.{find_field}
use juce_simpleweb.HttpServer.{HttpConfig, HttpEvent, upgrades, runs, Session}

-- `find(method)` of the inner map.
unfoldable pub find_method : Bytes → List (Bytes × ℕ) → Option ℕ
find_method method [] = none
find_method method ((key, f) ∷ functions) =
    if bytes_eq key method then some f else find_method method functions

module _ (regex_match : Bytes → Bytes → Option (List Bytes)) where
  -- One round of the loop over `resource`.
  abbrev pub matching : Bytes → Bytes → Bytes × List (Bytes × ℕ) → Option HttpEvent
  matching method path (regex, functions) = elim (find_method method functions) [
    | none ↦ none
    | some f ↦ elim (regex_match regex path) [ none ↦ none | some sub ↦ some (runs f (some sub)) ]
  ]

  unfoldable pub find_match : Bytes → Bytes → List (Bytes × List (Bytes × ℕ)) → Option HttpEvent
  find_match method path [] = none
  find_match method path (entry ∷ resource) = elim (matching method path entry) [
    | none ↦ find_match method path resource
    | some event ↦ some event
  ]

  -- The function of the first match, or the default one of the method, or none.
  abbrev pub chosen : HttpConfig → Session → List HttpEvent
  chosen config s = elim (find_match s.request.method s.request.path config.resource) [
    | some event ↦ event ∷ []
    | none ↦ elim (find_method s.request.method config.default_resource) [
      | some f ↦ runs f none ∷ []
      | none ↦ []
    ]
  ]

  abbrev pub asks_upgrade : Session → Bool
  asks_upgrade s = elim (find_field (codes "Upgrade") s.request.header) [
    | none ↦ false
    | some _ ↦ true
  ]

  -- An upgrade takes the connection out of the server's set.
  unfoldable pub find_resource : HttpConfig → Session → Session
  find_resource config s =
      if config.on_upgrade && asks_upgrade s
      then record s { registered = false; log = s.log ++ upgrades ∷ [] }
      else record s { log = s.log ++ chosen config s }

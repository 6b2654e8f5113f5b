-- ===== src/HttpServer/Routing.antt =====
-- webserver/server_http.hpp, find_resource: the rule by which a request is given to a function.
use juce_simpleweb.Prelude.{
  ℕ, ◌≡◌, ◌↔◌, ◌⊎◌, inl, inr, refl, sym, ap, subst, ◌∙◌, Bool, true, false, ◌&&◌, Option, none,
  some, List, [], ◌∷◌, ◌++◌, append-nil, Bytes, All,
}
use juce_simpleweb.HttpServer.{HttpConfig, HttpEvent, upgrades, runs, Session}
use juce_simpleweb.HttpServer.Routes.{
  find_method, matching, find_match, chosen, asks_upgrade, find_resource,
}

some_or_none {ℓ} : {A : Type ℓ} (o : Option A) → (o ≡ none) ⊎ ((x : A) × (o ≡ some x))
some_or_none none = inl refl
some_or_none (some x) = inr (x, refl)

module _ (regex_match : Bytes → Bytes → Option (List Bytes)) where
  -- A resource that does not serve the method, or does not match the path.
  abbrev pub Passes : Bytes → Bytes → Bytes × List (Bytes × ℕ) → Type 0
  Passes method path (regex, functions) =
      (find_method method functions ≡ none) ⊎ (regex_match regex path ≡ none)

  -- An upgrade goes to on_upgrade, if that is set, and leaves the server's connections; other requests
  -- go to the first resource that serves the method and matches the path, or else to the default
  -- function of the method; if there is none, nothing happens.
  pub data Routed (config : HttpConfig) (s : Session) : Session → Type 0 where
    upgraded :
        config.on_upgrade ≡ true
        → asks_upgrade regex_match s ≡ true
        → Routed config s (record s { registered = false; log = s.log ++ upgrades ∷ [] })
    matched :
        (before after : List (Bytes × List (Bytes × ℕ))) (regex : Bytes)
        (functions : List (Bytes × ℕ)) (f : ℕ) (sub : List Bytes)
        → (config.on_upgrade && asks_upgrade regex_match s) ≡ false
        → config.resource ≡ before ++ (regex, functions) ∷ after
        → All (Passes s.request.method s.request.path) before
        → find_method s.request.method functions ≡ some f
        → regex_match regex s.request.path ≡ some sub
        → Routed config s (record s { log = s.log ++ runs f (some sub) ∷ [] })
    defaulted :
        (f : ℕ)
        → (config.on_upgrade && asks_upgrade regex_match s) ≡ false
        → All (Passes s.request.method s.request.path) config.resource
        → find_method s.request.method config.default_resource ≡ some f
        → Routed config s (record s { log = s.log ++ runs f none ∷ [] })
    unserved :
        (config.on_upgrade && asks_upgrade regex_match s) ≡ false
        → All (Passes s.request.method s.request.path) config.resource
        → find_method s.request.method config.default_resource ≡ none
        → Routed config s s

  matching-Passes :
      (method path : Bytes) (entry : Bytes × List (Bytes × ℕ))
      → Passes method path entry
      → matching regex_match method path entry ≡ none
  matching-Passes method path (regex, functions) (inl e) = rw (e, matching) refl
  matching-Passes method path (regex, functions) (inr e) =
      elim (some_or_none (find_method method functions)) [
        | inl h ↦ rw (h, matching) refl
        | inr (f, h) ↦ rw (h, matching) (rw e refl)
      ]

  matching-finds :
      (method path regex : Bytes) (functions : List (Bytes × ℕ)) (f : ℕ) (sub : List Bytes)
      → find_method method functions ≡ some f
      → regex_match regex path ≡ some sub
      → matching regex_match method path (regex, functions) ≡ some (runs f (some sub))
  matching-finds method path regex functions f sub e h = rw (e, matching) (rw h refl)

  find_match-Passes :
      (method path : Bytes) (before rest : List (Bytes × List (Bytes × ℕ)))
      → All (Passes method path) before
      → find_match regex_match method path (before ++ rest)
        ≡ find_match regex_match method path rest
  unfolding find_match
  find_match-Passes method path [] rest h = refl
  find_match-Passes method path (entry ∷ before) rest (h, hs) =
      rw (matching-Passes method path entry h, find_match)
        (find_match-Passes method path before rest hs)

  find_match-finds :
      (method path regex : Bytes) (functions : List (Bytes × ℕ))
      (after : List (Bytes × List (Bytes × ℕ))) (f : ℕ) (sub : List Bytes)
      → find_method method functions ≡ some f
      → regex_match regex path ≡ some sub
      → find_match regex_match method path ((regex, functions) ∷ after) ≡ some (runs f (some sub))
  unfolding find_match
  find_match-finds method path regex functions after f sub e h =
      rw (matching-finds method path regex functions f sub e h, find_match) refl

  -- The loop, by what it finds.
  data Search (method path : Bytes) (resource : List (Bytes × List (Bytes × ℕ))) : Type 0 where
    passes :
        All (Passes method path) resource
        → find_match regex_match method path resource ≡ none
        → Search method path resource
    finds :
        (before after : List (Bytes × List (Bytes × ℕ))) (regex : Bytes)
        (functions : List (Bytes × ℕ)) (f : ℕ) (sub : List Bytes)
        → resource ≡ before ++ (regex, functions) ∷ after
        → All (Passes method path) before
        → find_method method functions ≡ some f
        → regex_match regex path ≡ some sub
        → find_match regex_match method path resource ≡ some (runs f (some sub))
        → Search method path resource

  behind :
      (method path : Bytes) (entry : Bytes × List (Bytes × ℕ))
      (resource : List (Bytes × List (Bytes × ℕ)))
      → Passes method path entry
      → Search method path resource
      → Search method path (entry ∷ resource)
  behind method path entry resource p (passes ps n) =
      passes (p, ps) (find_match-Passes method path (entry ∷ []) resource (p, tt) ∙ n)
  behind method path entry resource p (finds before after regex functions f sub e ps g h n) =
      finds (entry ∷ before) after regex functions f sub (ap (◌∷◌ entry) e) (p, ps) g h
        (find_match-Passes method path (entry ∷ []) resource (p, tt) ∙ n)

  find_first :
      (method path : Bytes) (resource : List (Bytes × List (Bytes × ℕ)))
      → Search method path resource
  unfolding find_match
  find_first method path [] = passes tt refl
  find_first method path ((regex, functions) ∷ resource) =
      let rest = find_first method path resource in
      elim (some_or_none (find_method method functions)) [
        | inl e ↦ behind method path (regex, functions) resource (inl e) rest
        | inr (f, e) ↦ elim (some_or_none (regex_match regex path)) [
          | inl h ↦ behind method path (regex, functions) resource (inr h) rest
          | inr (sub, h) ↦
              finds [] resource regex functions f sub refl tt e h
                (find_match-finds method path regex functions resource f sub e h)
        ]
      ]

  module _ (config : HttpConfig) (s : Session) where
    resource_of-upgrade :
        config.on_upgrade ≡ true
        → asks_upgrade regex_match s ≡ true
        → find_resource regex_match config s
          ≡ record s { registered = false; log = s.log ++ upgrades ∷ [] }
    unfolding find_resource
    resource_of-upgrade u a = rw (u, a) refl

    find_resource-chosen :
        (config.on_upgrade && asks_upgrade regex_match s) ≡ false
        → find_resource regex_match config s
          ≡ record s { log = s.log ++ chosen regex_match config s }
    unfolding find_resource
    find_resource-chosen u = rw u refl

    chosen-some :
        (event : HttpEvent)
        → find_match regex_match s.request.method s.request.path config.resource ≡ some event
        → chosen regex_match config s ≡ event ∷ []
    chosen-some event e = rw (e, chosen) refl

    chosen-default :
        (f : ℕ)
        → find_match regex_match s.request.method s.request.path config.resource ≡ none
        → find_method s.request.method config.default_resource ≡ some f
        → chosen regex_match config s ≡ runs f none ∷ []
    chosen-default f e h = rw (e, chosen) (rw h refl)

    chosen-none :
        find_match regex_match s.request.method s.request.path config.resource ≡ none
        → find_method s.request.method config.default_resource ≡ none
        → chosen regex_match config s ≡ []
    chosen-none e h = rw (e, chosen) (rw h refl)

    Passes-none :
        All (Passes s.request.method s.request.path) config.resource
        → find_match regex_match s.request.method s.request.path config.resource ≡ none
    unfolding find_match
    Passes-none h =
        ap (find_match regex_match s.request.method s.request.path)
          (sym (append-nil config.resource))
        ∙ find_match-Passes s.request.method s.request.path config.resource [] h

    logged :
        (u : (config.on_upgrade && asks_upgrade regex_match s) ≡ false) (l : List HttpEvent)
        → chosen regex_match config s ≡ l
        → find_resource regex_match config s ≡ record s { log = s.log ++ l }
    logged u l e = find_resource-chosen u ∙ ap (λ l. record s { log = s.log ++ l }) e

    find_resource-is : (d : Session) → Routed config s d → find_resource regex_match config s ≡ d
    find_resource-is d (upgraded u a) = resource_of-upgrade u a
    find_resource-is d (matched before after regex functions f sub u e ps g h) = logged u _ (
        chosen-some (runs f (some sub)) (
          ap (find_match regex_match s.request.method s.request.path) e
          ∙ find_match-Passes s.request.method s.request.path before ((regex, functions) ∷ after) ps
          ∙ find_match-finds s.request.method s.request.path regex functions after f sub g h))
    find_resource-is d (defaulted f u ps e) = logged u _ (chosen-default f (Passes-none ps) e)
    find_resource-is d (unserved u ps e) =
        logged u _ (chosen-none (Passes-none ps) e)
        ∙ ap (λ l. record s { log = l }) (append-nil s.log)

    find_resource-Routed : Routed config s (find_resource regex_match config s)
    find_resource-Routed = elim (both (config.on_upgrade) (asks_upgrade regex_match s)) [
      | inl (u, a) ↦
          subst (Routed config s) (sym (find_resource-is _ (upgraded u a))) (upgraded u a)
      | inr u ↦ elim (find_first s.request.method s.request.path config.resource) [
        | finds before after regex functions f sub e ps g h n ↦
            let r = matched before after regex functions f sub u e ps g h in
            subst (Routed config s) (sym (find_resource-is _ r)) r
        | passes ps n ↦ elim (some_or_none (find_method s.request.method config.default_resource)) [
          | inl e ↦
              let r = unserved u ps e in subst (Routed config s) (sym (find_resource-is _ r)) r
          | inr (f, e) ↦
              let r = defaulted f u ps e in subst (Routed config s) (sym (find_resource-is _ r)) r
        ]
      ]
    ]
      where
        both : (a b : Bool) → ((a ≡ true) × (b ≡ true)) ⊎ ((a && b) ≡ false)
        both true true = inl (refl, refl)
        both true false = inr refl
        both false b = inr refl

-- The server routes a request as the rule says, and the rule leaves no choice: what find_resource
-- makes of a session is the session to which the rule leads, whatever the regular expressions match.
pub find_resource_iff :
    (regex_match : Bytes → Bytes → Option (List Bytes)) (config : HttpConfig) (s d : Session)
    → (find_resource regex_match config s ≡ d) ↔ Routed regex_match config s d
find_resource_iff regex_match config s d = (
  λ e. subst (Routed regex_match config s) e (find_resource-Routed regex_match config s),
  find_resource-is regex_match config s d,
)

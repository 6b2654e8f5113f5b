-- ===== src/JuceServer/Startup.antt =====
-- SimpleWebSocketServer.cpp, `initServer`: the endpoint of the socket server and the settings of the
-- web server, with which of its requests are served.
use juce_simpleweb.Prelude.{
  ℕ, ◌≡◌, refl, ap, ◌∙◌, Bool, true, false, ◌||◌, Option, none, some, List, [], ◌∷◌, ◌++◌,
  append-nil, if◌then◌else◌, Bytes, bytes_eq, codes,
}
use juce_simpleweb.HttpServer.{HttpConfig, Session, upgrades, runs}
use juce_simpleweb.HttpServer.Routes.{find_method, find_match, find_resource, asks_upgrade}
use juce_simpleweb.WsServer.Opening.{Endpoint}

-- `ws->endpoint["^" + wsSuffix + "/?$"]`, with the four callbacks that are bound.
unfoldable pub ws_endpoint : Bytes → Endpoint
ws_endpoint ws_suffix = record {
  regex = codes "^" ++ (ws_suffix ++ codes "/?$");
  handlers = record {
    on_open = true;
    on_message = true;
    on_close = true;
    on_error = true;
    on_ping = false;
    on_pong = false;
  };
  on_handshake = none;
}

-- The settings of SimpleWebSocketServer; its default callback is number 0.
unfoldable pub http_config : HttpConfig
http_config = record {
  on_error = false;
  on_upgrade = true;
  timeout_request = 1;
  timeout_content = 300;
  max_request_streambuf_size = 1000000;
  resource = [];
  default_resource =
      (codes "GET", 0)
      ∷ (codes "POST", 0)
      ∷ (codes "PUT", 0)
      ∷ (codes "DELETE", 0)
      ∷ (codes "PATCH", 0)
      ∷ [];
}

-- Those of SecureWebSocketServer.
unfoldable pub https_config : HttpConfig
https_config = record {
  on_error = false;
  on_upgrade = true;
  timeout_request = 1;
  timeout_content = 2;
  max_request_streambuf_size = 1000000;
  resource = [];
  default_resource = (codes "GET", 0) ∷ [];
}

-- The methods with a default callback.
abbrev pub is_served : Bytes → Bool
is_served method =
    bytes_eq (codes "GET") method
    || (bytes_eq (codes "POST") method
        || (bytes_eq (codes "PUT") method
            || (bytes_eq (codes "DELETE") method || bytes_eq (codes "PATCH") method)))

module _ (regex_match : Bytes → Bytes → Option (List Bytes)) where
  abbrev pub served_as : Bool → Session → Session
  served_as true s = record s { log = s.log ++ runs 0 none ∷ [] }
  served_as false s = s

  -- One more method in front.
  or_else :
      (a b : Bool) (o : Option ℕ)
      → o ≡ (if b then some 0 else none)
      → (if a then some 0 else o) ≡ (if a || b then some 0 else none)
  or_else true b o e = refl
  or_else false b o e = e

  find_method-is_served :
      (method : Bytes)
      → find_method method http_config.default_resource
        ≡ (if is_served method then some 0 else none)
  unfolding find_method http_config
  find_method-is_served method = or_else (bytes_eq (codes "GET") method) _ _ (
      or_else (bytes_eq (codes "POST") method) _ _ (
        or_else (bytes_eq (codes "PUT") method) _ _
          (or_else (bytes_eq (codes "DELETE") method) (bytes_eq (codes "PATCH") method) _ refl)))

  -- What the web server that `initServer` sets up does with any complete request: one with an
  -- Upgrade field is given up to on_upgrade, whatever its method. Any other runs the default
  -- callback, exactly once, if its method is GET, POST, PUT, DELETE or PATCH, and with another
  -- method nothing happens: no callback, no error and no answer.
  pub find_resource-http_config :
      (s : Session)
      → find_resource regex_match http_config s ≡ (
          if asks_upgrade regex_match s
          then record s { registered = false; log = s.log ++ upgrades ∷ [] }
          else served_as (is_served s.request.method) s)
  unfolding find_resource find_match http_config
  find_resource-http_config s =
      ap
        (λ o.
          if asks_upgrade regex_match s
          then record s { registered = false; log = s.log ++ upgrades ∷ [] }
          else record s { log = s.log ++ elim o [ none ↦ [] | some f ↦ runs f none ∷ [] ] })
        (find_method-is_served s.request.method)
      ∙ ap
          (λ r.
            if asks_upgrade regex_match s
            then record s { registered = false; log = s.log ++ upgrades ∷ [] }
            else r)
          (settled (is_served s.request.method))
    where
      settled :
          (b : Bool)
          → let o : Option ℕ = if b then some 0 else none in
            (record s { log = s.log ++ elim o [ none ↦ [] | some f ↦ runs f none ∷ [] ] })
            ≡ served_as b s
      settled true = refl
      settled false = ap (λ l. record s { log = l }) (append-nil s.log)

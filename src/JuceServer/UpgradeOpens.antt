-- ===== src/JuceServer/UpgradeOpens.antt =====
-- SimpleWebSocketServer.cpp, `onHTTPUpgrade`: how a request that asks for an upgrade is answered.
use juce_simpleweb.Prelude.{
  ℕ, ◌≡◌, refl, sym, ap, ◌∙◌, Bool, true, false, Option, none, some, List, [], ◌∷◌, ◌++◌, ◌==◌,
  Bytes, codes,
}
use juce_simpleweb.CaseInsensitive.{Multimap, find_field}
use juce_simpleweb.HashMap.{HashMap}
use juce_simpleweb.Handshake.{write_handshake}
use juce_simpleweb.RequestMessage.{Request}
use juce_simpleweb.HttpServer.{HttpConfig, Session, upgrades}
use juce_simpleweb.HttpServer.Routes.{find_resource, asks_upgrade}
use juce_simpleweb.WsServer.{
  Config, ErrorCode, Connection, opened, told, set_timeout, cancel_timeout, connection_open,
}
use juce_simpleweb.WsServer.Reader.{read_message}
use juce_simpleweb.WsServer.Opening.{
  Endpoint, Answering, Handshaking, find_endpoint, write_answer, upgrade, on_answered,
}
use juce_simpleweb.WsClient.Handshakes.{open_at}
use juce_simpleweb.JuceServer.{connection_opened, JuceServer, perform}
use juce_simpleweb.JuceServer.Hearing.{updated, perform-Called}
use juce_simpleweb.JuceServer.Upgrade.{new_connection, upgraded, on_http_upgrade}

module _ (regex_match : Bytes → Bytes → Bool) (calc_sha1 : Bytes → Bytes) (memory : Bytes)
    (config : Config) (config_header : Multimap) (endpoints : List Endpoint) where
  abbrev pub upgrade_request : Request → Handshaking
  upgrade_request request =
      on_http_upgrade regex_match calc_sha1 memory config config_header endpoints request

  request_of : Request → Request
  request_of request = record {
    method = request.method;
    path = request.path;
    query_string = [];
    version = request.version;
    header = request.header;
  }

  abbrev answering_for : Endpoint → Request → Answering
  answering_for e request = record {
    handlers = e.handlers;
    status = (write_handshake calc_sha1 memory config_header e.on_handshake request.header).0;
    text = (write_handshake calc_sha1 memory config_header e.on_handshake request.header).1;
  }

  on_http_upgrade-found :
      (request : Request) (e : Endpoint)
      → find_endpoint regex_match request.path endpoints ≡ some e
      → upgrade_request request ≡ record {
        connection = set_timeout (some config.timeout_request) (upgraded config);
        request = request_of request;
        streambuf = [];
        reading = false;
        answering = some (answering_for e request);
      }
  unfolding on_http_upgrade upgrade write_answer request_of new_connection
  on_http_upgrade-found request e f = rw (f, write_answer) refl

  on_http_upgrade-missing :
      (request : Request)
      → find_endpoint regex_match request.path endpoints ≡ none
      → (upgrade_request request).answering ≡ none
  unfolding on_http_upgrade upgrade write_answer
  on_http_upgrade-missing request f = rw (f, write_answer) refl

  -- With the status 101 and no error the connection is opened, and with another status never.
  answered-opens :
      (e : Endpoint) (text : Bytes) (h : Handshaking)
      → h.connection ≡ set_timeout (some config.timeout_request) (upgraded config)
      → (on_answered true none
          (record { handlers = e.handlers; status = 101; text = text })
          h).connection
        ≡ open_at e (upgraded config)
  unfolding on_answered read_message connection_open set_timeout cancel_timeout new_connection
  answered-opens e text h same = rw same refl

  status-plain :
      (header : Multimap) (key : Bytes)
      → find_field (codes "Sec-WebSocket-Key") header ≡ some key
      → (write_handshake calc_sha1 memory config_header none header).0 ≡ 101
  unfolding write_handshake
  status-plain header key k = rw (k, write_handshake) refl

  status-keyed :
      (header : Multimap) (o : Option (Multimap → ℕ × Multimap)) (key : Bytes)
      → o ≡ none
      → find_field (codes "Sec-WebSocket-Key") header ≡ some key
      → (write_handshake calc_sha1 memory config_header o header).0 ≡ 101
  status-keyed header o key z k =
      ap (λ f. (write_handshake calc_sha1 memory config_header f header).0) z
      ∙ status-plain header key k

  status-unkeyed :
      (header : Multimap) (o : Option (Multimap → ℕ × Multimap))
      → find_field (codes "Sec-WebSocket-Key") header ≡ none
      → (write_handshake calc_sha1 memory config_header o header).0 ≡ 426
  unfolding write_handshake
  status-unkeyed header o k = rw (k, write_handshake) refl

  on_answered-refused :
      (lock : Bool) (ec : Option ErrorCode) (a : Answering) (h : Handshaking)
      → (a.status == 101) ≡ false
      → (on_answered lock ec a h).connection.joined ≡ h.connection.joined
  unfolding on_answered cancel_timeout
  on_answered-refused true ec a h n = rw n refl
  on_answered-refused false ec a h n = refl

  not_joined : (set_timeout (some config.timeout_request) (upgraded config)).joined ≡ false
  unfolding set_timeout new_connection
  not_joined = refl

  -- A request that `onHTTPUpgrade` is given, whatever its query string. If no endpoint of the
  -- socket server matches its path, nothing is answered. If one does and the request has no
  -- Sec-WebSocket-Key, the answer has the status 426, and however its write completes the
  -- endpoint does not hold the connection. If one does that has no callback on_handshake, and the
  -- request has a key, the answer has the status 101 and the text of the handshake for that key,
  -- and when it is written the endpoint holds the connection, on_open is told if it is set, and
  -- a frame is awaited.
  pub on_http_upgrade-answers :
      (request : Request)
      → (find_endpoint regex_match request.path endpoints ≡ none
          → (upgrade_request request).answering ≡ none)
        × ((e : Endpoint)
            → find_endpoint regex_match request.path endpoints ≡ some e
            → (a : Answering) × ((upgrade_request request).answering ≡ some a)
              × (find_field (codes "Sec-WebSocket-Key") request.header ≡ none
                  → (a.status ≡ 426)
                    × ((lock : Bool) (ec : Option ErrorCode)
                        → (on_answered lock ec a (upgrade_request request)).connection.joined
                          ≡ false))
              × ((key : Bytes)
                  → e.on_handshake ≡ none
                  → find_field (codes "Sec-WebSocket-Key") request.header ≡ some key
                  → (a.status ≡ 101)
                    × (a.text
                        ≡ (write_handshake calc_sha1 memory config_header none request.header).1)
                    × ((on_answered true none a (upgrade_request request)).connection
                        ≡ open_at e (upgraded config))))
  on_http_upgrade-answers request = (
    on_http_upgrade-missing request,
    λ e f.
        let found = on_http_upgrade-found request e f in
        let a = answering_for e request in
        let waits : (upgrade_request request).connection
            ≡ set_timeout (some config.timeout_request) (upgraded config) =
          ap (λ (h : Handshaking). h.connection) found in
        (
          a,
          ap (λ (h : Handshaking). h.answering) found,
          λ k. (
            status-unkeyed request.header e.on_handshake k,
            λ lock ec.
                on_answered-refused lock ec a (upgrade_request request)
                  (ap (λ n. n == 101) (status-unkeyed request.header e.on_handshake k))
                ∙ ap (λ (c : Connection). c.joined) waits
                ∙ not_joined,
          ),
          λ key z k. (
            status-keyed request.header e.on_handshake key z k,
            ap (λ o. (write_handshake calc_sha1 memory config_header o request.header).1) z,
            ap
                  (λ n.
                    (on_answered true none
                      (record { handlers = e.handlers; status = n; text = a.text })
                      (upgrade_request request)).connection)
                  (status-keyed request.header e.on_handshake key z k)
                ∙ answered-opens e a.text (upgrade_request request) waits,
          ),
        ),
  )

  module _ (maps : HashMap ℕ) (connection_string : ℕ → Bytes) (string_of : Bytes → Bytes)
      (http_match : Bytes → Bytes → Option (List Bytes)) where
    -- A web server with on_upgrade reads a request with an Upgrade field and a Sec-WebSocket-Key,
    -- whose path an endpoint of the socket server matches, with on_open and without on_handshake;
    -- the connection h is as onHTTPUpgrade has made it, before its answer is written. Then the
    -- request reaches on_upgrade and no resource, the web server gives the connection up, the
    -- answer that onHTTPUpgrade writes has the status 101, and when it is written, the listeners
    -- are told exactly once that the connection is open, which then awaits a frame.
    pub find_resource-opens :
        (http : HttpConfig) (session : Session) (e : Endpoint) (key : Bytes) (h : ℕ)
        (s : JuceServer maps.Table)
        → http.on_upgrade ≡ true
        → asks_upgrade http_match session ≡ true
        → find_endpoint regex_match session.request.path endpoints ≡ some e
        → e.on_handshake ≡ none
        → e.handlers.on_open ≡ true
        → find_field (codes "Sec-WebSocket-Key") session.request.header ≡ some key
        → s.connections h ≡ upgraded config
        → ((find_resource http_match http session).log ≡ session.log ++ upgrades ∷ [])
          × ((find_resource http_match http session).registered ≡ false)
          × ((a : Answering) × ((upgrade_request session.request).answering ≡ some a)
              × (a.status ≡ 101)
              × ((t : JuceServer maps.Table) × (perform maps connection_string string_of
                      (λ c.
                        some (on_answered true none a (upgrade_request session.request)).connection)
                      h
                      s
                    ≡ some t)
                  × (t.calls ≡ s.calls ++ connection_opened (connection_string h) ∷ [])
                  × (t.connections h ≡ open_at e (upgraded config))))
    unfolding find_resource
    find_resource-opens http session e key h s up asks found plain opens k at =
        let (a, answered, _, keyed) = (on_http_upgrade-answers session.request).1 e found in
        let (status, _, opened_at) = keyed key plain k in
        let (t, p, calls, same) =
          perform-Called maps connection_string string_of h
            (λ c. some (on_answered true none a (upgrade_request session.request)).connection) s
            (open_at e (upgraded config)) (opened ∷ []) (ap some opened_at)
            (ap (λ b. (upgraded config).log ++ told b opened) opens
              ∙ ap (λ (c : Connection). c.log ++ opened ∷ []) (sym at))
            (tt, tt) in
        (
          rw (up, asks) refl,
          rw (up, asks) refl,
          (
            a,
            answered,
            status,
            (t, p, calls, updated h (open_at e (upgraded config)) s.connections t.connections same),
          ),
        )

-- ===== src/JuceServer/Stopping.antt =====
-- websocket/server_ws.hpp: `get_connections` and `stop` of the socket server.
use juce_simpleweb.Prelude.{
  ℕ, ◌≡◌, refl, sym, ap, ◌∙◌, inl, inr, Bool, true, false, ◌||◌, Option, none, some, List, [], ◌∷◌,
  ◌==◌, ==_iff, if◌then◌else◌, has, Bool-cases,
}
use juce_simpleweb.WsServer.{Connection, close}
use juce_simpleweb.JuceServer.{update}

-- Whether the acceptor is open, `none` for a null pointer; whether the server has an io_service of
-- its own, and whether that one runs; and the sets of connections of the endpoints.
pub record SocketServer : Type 0 where
  pub acceptor : Option Bool
  pub internal_io_service : Bool
  pub io_service_runs : Bool
  pub endpoint : List (List ℕ)
  pub connections : ℕ → Connection

-- `all_connections.insert`.
unfoldable pub insert_all : List ℕ → List ℕ → List ℕ
insert_all [] all_connections = all_connections
insert_all (h ∷ held) all_connections =
    insert_all held (if has all_connections h then all_connections else h ∷ all_connections)

unfoldable pub collect : List (List ℕ) → List ℕ → List ℕ
unfolding insert_all
collect [] all_connections = all_connections
collect (held ∷ rest) all_connections = collect rest (insert_all held all_connections)

unfoldable pub get_connections : SocketServer → List ℕ
unfolding collect
get_connections w = collect w.endpoint []

-- A connection that is closed and taken out of its endpoint's set.
abbrev pub left : Connection → Connection
left c = record (close c) { joined = false }

unfoldable pub close_all : List ℕ → (ℕ → Connection) → ℕ → Connection
close_all [] connections = connections
close_all (h ∷ held) connections = close_all held (update h (left (connections h)) connections)

unfoldable pub close_endpoints : List (List ℕ) → (ℕ → Connection) → ℕ → Connection
unfolding close_all
close_endpoints [] connections = connections
close_endpoints (held ∷ rest) connections = close_endpoints rest (close_all held connections)

abbrev pub cleared : List (List ℕ) → List (List ℕ)
cleared [] = []
cleared (held ∷ rest) = [] ∷ cleared rest

-- `stop`.
unfoldable pub stop : SocketServer → SocketServer
unfolding close_endpoints
stop w = elim w.acceptor [
  | none ↦ w
  | some open_now ↦ record w {
    acceptor = some false;
    connections = close_endpoints w.endpoint w.connections;
    endpoint = cleared w.endpoint;
    io_service_runs = if w.internal_io_service then false else w.io_service_runs;
  }
]

abbrev pub in_endpoints : List (List ℕ) → ℕ → Bool
in_endpoints [] h = false
in_endpoints (held ∷ rest) h = has held h || in_endpoints rest h

or_swap : (a b c : Bool) → (a || (b || c)) ≡ ((b || a) || c)
or_swap true true c = refl
or_swap true false c = refl
or_swap false true c = refl
or_swap false false c = refl

has-inserted :
    (g h : ℕ) (all : List ℕ) → has (if has all g then all else g ∷ all) h ≡ ((h == g) || has all h)
has-inserted g h all = elim (Bool-cases (has all g)) [
  | inl e ↦ elim (Bool-cases (h == g)) [
    | inl same ↦ rw (e, same) (ap (has all) ((==_iff h g).0 same) ∙ e)
    | inr other ↦ rw (e, other) refl
  ]
  | inr e ↦ rw e refl
]

has-insert_all :
    (held all : List ℕ) (h : ℕ) → has (insert_all held all) h ≡ (has held h || has all h)
unfolding insert_all
has-insert_all [] all h = refl
has-insert_all (g ∷ held) all h =
    has-insert_all held (if has all g then all else g ∷ all) h
    ∙ ap (λ b. has held h || b) (has-inserted g h all)
    ∙ or_swap (has held h) (h == g) (has all h)

has-collect :
    (rest : List (List ℕ)) (all : List ℕ) (h : ℕ)
    → has (collect rest all) h ≡ (in_endpoints rest h || has all h)
unfolding collect
has-collect [] all h = refl
has-collect (held ∷ rest) all h =
    has-collect rest (insert_all held all) h
    ∙ ap (λ b. in_endpoints rest h || b) (has-insert_all held all h)
    ∙ or_swap (in_endpoints rest h) (has held h) (has all h)

left_twice : (c : Connection) → left (left c) ≡ left c
unfolding close
left_twice c = refl

-- What is left of a connection that is closed if a test holds, and maybe another one.
closed_if :
    (a b : Bool) (c : Connection)
    → (if b then left (if a then left c else c) else (if a then left c else c))
      ≡ (if a || b then left c else c)
closed_if true true c = left_twice c
closed_if true false c = refl
closed_if false b c = refl

close_all-left :
    (held : List ℕ) (connections : ℕ → Connection) (h : ℕ)
    → close_all held connections h ≡ (if has held h then left (connections h) else connections h)
unfolding close_all
close_all-left [] connections h = refl
close_all-left (g ∷ held) connections h =
    close_all-left held (update g (left (connections g)) connections) h
    ∙ ap (λ c. if has held h then left c else c) at_g
    ∙ closed_if (h == g) (has held h) (connections h)
  where
    at_g :
        update g (left (connections g)) connections h
        ≡ (if h == g then left (connections h) else connections h)
    at_g = elim (Bool-cases (h == g)) [
      | inl same ↦ rw same (ap (λ k. left (connections k)) (sym ((==_iff h g).0 same)))
      | inr other ↦ rw other refl
    ]

close_endpoints-left :
    (rest : List (List ℕ)) (connections : ℕ → Connection) (h : ℕ)
    → close_endpoints rest connections h
      ≡ (if in_endpoints rest h then left (connections h) else connections h)
unfolding close_endpoints
close_endpoints-left [] connections h = refl
close_endpoints-left (held ∷ rest) connections h =
    close_endpoints-left rest (close_all held connections) h
    ∙ ap (λ c. if in_endpoints rest h then left c else c) (close_all-left held connections h)
    ∙ closed_if (has held h) (in_endpoints rest h) (connections h)

cleared-empty : (rest : List (List ℕ)) (h : ℕ) → in_endpoints (cleared rest) h ≡ false
cleared-empty [] h = refl
cleared-empty (held ∷ rest) h = cleared-empty rest h

pub get_connections_lem :
    (w : SocketServer) (h : ℕ) → has (get_connections w) h ≡ in_endpoints w.endpoint h
unfolding get_connections
get_connections_lem w h = has-collect w.endpoint [] h ∙ or_nothing (in_endpoints w.endpoint h)
  where
    or_nothing : (b : Bool) → (b || false) ≡ b
    or_nothing true = refl
    or_nothing false = refl

-- `stop` of a socket server that has an acceptor, open or closed: the acceptor is closed. Every
-- connection of any endpoint is closed, taken out of its set and otherwise unchanged, so that
-- none of its callbacks is called; every other connection is unchanged. get_connections, which
-- before gave just the connections of all endpoints, gives none afterwards.
stop-closes :
    (open_now : Bool) (w : SocketServer)
    → w.acceptor ≡ some open_now
    → ((stop w).acceptor ≡ some false)
      × ((h : ℕ)
          → (stop w).connections h
            ≡ (if has (get_connections w) h then left (w.connections h) else w.connections h))
      × ((h : ℕ) → has (get_connections (stop w)) h ≡ false)
unfolding stop get_connections
stop-closes open_now w e = (
  rw e refl,
  λ h. rw e (
      close_endpoints-left w.endpoint w.connections h
      ∙ ap (λ b. if b then left (w.connections h) else w.connections h)
          (sym (get_connections_lem w h))),
  λ h. get_connections_lem (stop w) h ∙ rw e (cleared-empty w.endpoint h),
)

-- ===== src/HttpServer/Stopping.antt =====
-- webserver/server_http.hpp, `ServerBase::stop`: the connections that a web server still has are
-- closed.
use juce_simpleweb.Prelude.{
  ℕ, ◌≡◌, refl, ◌∙◌, Bool, true, false, ◌||◌, Option, none, some, List, [], ◌∷◌, ◌==◌,
  if◌then◌else◌, has,
}

-- Whether the acceptor is open, `none` for a null pointer; whether the server has an io_service of
-- its own, and whether that one runs; the set of its connections, and which sockets are open.
pub record WebServer : Type 0 where
  pub acceptor : Option Bool
  pub internal_io_service : Bool
  pub io_service_runs : Bool
  pub connections : List ℕ
  pub sockets : ℕ → Bool

-- `connection->close()` for each of the set.
unfoldable pub close_sockets : List ℕ → (ℕ → Bool) → ℕ → Bool
close_sockets [] sockets = sockets
close_sockets (h ∷ connections) sockets =
    close_sockets connections (λ k. if k == h then false else sockets k)

unfoldable pub stop : WebServer → WebServer
unfolding close_sockets
stop w = elim w.acceptor [
  | none ↦ w
  | some open_now ↦ record w {
    acceptor = some false;
    sockets = close_sockets w.connections w.sockets;
    connections = [];
    io_service_runs = if w.internal_io_service then false else w.io_service_runs;
  }
]

close_sockets_lem :
    (connections : List ℕ) (sockets : ℕ → Bool) (h : ℕ)
    → close_sockets connections sockets h ≡ (if has connections h then false else sockets h)
unfolding close_sockets
close_sockets_lem [] sockets h = refl
close_sockets_lem (g ∷ connections) sockets h =
    close_sockets_lem connections (λ k. if k == g then false else sockets k) h
    ∙ joined (h == g) (has connections h) (sockets h)
  where
    joined :
        (a b c : Bool)
        → (if b then false else (if a then false else c)) ≡ (if a || b then false else c)
    joined true true c = refl
    joined true false c = refl
    joined false b c = refl

-- A web server that was started, so that it has an acceptor.
pub stop-closes :
    (open_now : Bool) (w : WebServer)
    → w.acceptor ≡ some open_now
    → ((stop w).acceptor ≡ some false)
      × ((stop w).connections ≡ [])
      × ((h : ℕ) → (stop w).sockets h ≡ (if has w.connections h then false else w.sockets h))
unfolding stop
stop-closes open_now w e =
    (rw e refl, rw e refl, λ h. rw e (close_sockets_lem w.connections w.sockets h))

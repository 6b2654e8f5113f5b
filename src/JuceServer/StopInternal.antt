-- ===== src/JuceServer/StopInternal.antt =====
-- SimpleWebSocketServer.cpp: `stopInternal`, with the `stop` of the socket server and of the web server
-- that it calls. What JUCE's stopThread does behind it is left out, and so is the destructor of the
-- web server, which waits until no handler holds a lock of its scope and calls `stop` again.
use juce_simpleweb.Prelude.{
  ℕ, ◌≡◌, refl, sym, ap, ◌∙◌, Bool, false, Option, none, some, [], if◌then◌else◌, has, Bytes, codes,
  ◌>>=◌,
}
use juce_simpleweb.HashMap.{HashMap}
use juce_simpleweb.HttpServer
use juce_simpleweb.HttpServer.Stopping.{WebServer}
use juce_simpleweb.WsServer.{send_close}
use juce_simpleweb.JuceServer.{JuceServer, close_held}
use juce_simpleweb.JuceServer.Directed.{close_held-closes}
use juce_simpleweb.JuceServer.Stopping.{
  SocketServer, get_connections, stop, in_endpoints, get_connections_lem,
}

-- What `stopInternal` works on: whether the io_service runs, the socket server and the web server,
-- `none` for a null pointer, and the map with the connections, which are those of the socket server. Of a
-- connection that was destroyed they give the last state.
pub record Servers (Table : Type 0) : Type 0 where
  pub io_service : Option Bool
  pub ws : Option SocketServer
  pub http : Option WebServer
  pub juce : JuceServer Table

module _ (maps : HashMap ℕ) where
  abbrev pub Program : Type 0
  Program = Servers maps.Table

  -- `ioService->stop()`.
  abbrev pub stop_service : Program → Program
  stop_service p = record p {
    io_service = elim p.io_service [ none ↦ none | some runs ↦ some false ];
  }

  -- The close frames, `connectionMap.clear()` and `ws->stop()`.
  unfoldable pub stop_sockets : Program → Option Program
  unfolding get_connections stop
  stop_sockets p = elim p.ws [
    | none ↦ some p
    | some w ↦ close_held maps (get_connections w) p.juce >>= λ t.
        let w' = stop (record w { connections = t.connections }) in
        some (record p { ws = some w'; juce = record t { connections = w'.connections } })
  ]

  -- `http->stop()`.
  abbrev pub stop_web : Program → Program
  stop_web p = record p {
    http = elim p.http [ none ↦ none | some x ↦ some (HttpServer.Stopping.stop x) ];
  }

  -- `stopInternal` up to the resets.
  unfoldable pub stop_servers : Program → Option Program
  unfolding stop_sockets
  stop_servers p = stop_sockets (stop_service p) >>= λ q. some (stop_web q)

  -- `ws.reset(); http.reset(); ioService.reset();`.
  abbrev pub reset : Program → Program
  reset p = record p { ws = none; http = none; io_service = none }

  unfoldable pub stop_internal : Program → Option Program
  unfolding stop_servers
  stop_internal p = stop_servers p >>= λ q. some (reset q)

  -- A program where it comes to the resets, which was this one before, with this socket server and this web server.
  pub record IsStopped (p : Program) (w : SocketServer) (x : WebServer) (q : Program) : Type 0 where
    pub service : q.io_service ≡ some false
    pub unmapped : (k : Bytes) → maps.get k q.juce.connection_map ≡ none
    pub unheard : q.juce.calls ≡ p.juce.calls
    pub farewell :
        (h : ℕ)
        → (if in_endpoints w.endpoint h
            then send_close 1000 (codes "Server destroyed") none (p.juce.connections h)
            else some (p.juce.connections h))
          ≡ some (q.juce.connections h)
    pub socket_server : q.ws ≡ some (record w { connections = q.juce.connections })
    pub web_server : q.http ≡ some (HttpServer.Stopping.stop x)
    pub web_acceptor : (HttpServer.Stopping.stop x).acceptor ≡ some false
    pub web_connections : (HttpServer.Stopping.stop x).connections ≡ []
    pub web_sockets :
        (h : ℕ)
        → (HttpServer.Stopping.stop x).sockets h
          ≡ (if has x.connections h then false else x.sockets h)

  unstopped : (v : SocketServer) → v.acceptor ≡ none → stop v ≡ v
  unfolding stop
  unstopped v e = rw e refl

  stop_servers-IsStopped :
      (w : SocketServer) (x : WebServer) (s : JuceServer maps.Table) (runs open_now : Bool)
      → w.acceptor ≡ none
      → x.acceptor ≡ some open_now
      → let p : Program = record { io_service = some runs; ws = some w; http = some x; juce = s } in
        (q : Program) × (stop_servers p ≡ some q) × IsStopped p w x q
  unfolding stop_servers
  stop_servers-IsStopped w x s runs open_now e f =
      let (t, p, calls, empty, closed) =
        close_held-closes maps (λ h. []) (λ b. b) (get_connections w) s in
      let w' : SocketServer = record w { connections = t.connections } in
      let (acceptor, none_left, sockets) = HttpServer.Stopping.stop-closes open_now x f in
      let same : stop w' ≡ w' = unstopped w' e in
      (
        record {
          io_service = some false;
          ws = some w';
          http = some (HttpServer.Stopping.stop x);
          juce = t;
        },
        rw p (
            ap
              (λ (v : SocketServer).
                let q : Program = record {
                  io_service = some false;
                  ws = some v;
                  http = some (HttpServer.Stopping.stop x);
                  juce = record t { connections = v.connections };
                } in
                some q)
              same),
        record {
          service = refl;
          unmapped = empty;
          unheard = calls;
          farewell = λ h.
              ap
                (λ b.
                  if b
                  then send_close 1000 (codes "Server destroyed") none (s.connections h)
                  else some (s.connections h))
                (sym (get_connections_lem w h))
              ∙ closed h;
          socket_server = refl;
          web_server = refl;
          web_acceptor = acceptor;
          web_connections = none_left;
          web_sockets = sockets;
        },
      )

  stop_again : (q : Program) → stop_internal (reset q) ≡ some (reset q)
  unfolding stop_internal stop_servers
  stop_again q = refl

  -- A program with an io_service, whose socket server has no acceptor and whose web server has one,
  -- as `initServer` has set them up: `stopInternal` returns. Where it comes to the resets, the
  -- io_service is stopped; no id names a connection; every connection of an endpoint of the socket
  -- server was given the close frame with status 1000 and the reason Server destroyed, unless one
  -- was sent before, and nothing else was done to it, and it is still in the set of its endpoint,
  -- although `stop` was called; every other connection is unchanged and no listener was called; and
  -- the web server's acceptor is closed, the sockets of all connections of its set are closed and
  -- no others, and that set is empty. Afterwards both servers and the io_service are gone, no id
  -- names a connection, no listener was called, and a second `stopInternal` returns and changes
  -- nothing.
  pub stop_internal-IsStopped :
      (p : Program) (w : SocketServer) (x : WebServer) (runs open_now : Bool)
      → p.io_service ≡ some runs
      → p.ws ≡ some w
      → p.http ≡ some x
      → w.acceptor ≡ none
      → x.acceptor ≡ some open_now
      → (q last : Program) × (stop_servers p ≡ some q)
        × IsStopped p w x q
        × (stop_internal p ≡ some last)
        × (last.io_service ≡ none)
        × (last.ws ≡ none)
        × (last.http ≡ none)
        × ((k : Bytes) → maps.get k last.juce.connection_map ≡ none)
        × (last.juce.calls ≡ p.juce.calls)
        × (stop_internal last ≡ some last)
  unfolding stop_internal
  stop_internal-IsStopped p w x runs open_now i j k e f =
      let whole : p ≡ record { io_service = some runs; ws = some w; http = some x; juce = p.juce } =
        λ n. record { io_service = i n; ws = j n; http = k n; juce = p.juce } in
      let (q, returns, stopped) = stop_servers-IsStopped w x p.juce runs open_now e f in
      let returns' : stop_servers p ≡ some q = ap stop_servers whole ∙ returns in
      (
        q,
        reset q,
        returns',
        record {
          service = stopped.service;
          unmapped = stopped.unmapped;
          unheard = stopped.unheard;
          farewell = stopped.farewell;
          socket_server = stopped.socket_server;
          web_server = stopped.web_server;
          web_acceptor = stopped.web_acceptor;
          web_connections = stopped.web_connections;
          web_sockets = stopped.web_sockets;
        },
        rw returns' refl,
        refl,
        refl,
        refl,
        stopped.unmapped,
        stopped.unheard,
        stop_again q,
      )

-- ===== src/Tests/App.antt =====
-- The theorems on SimpleWebSocketServer, each applied to concrete data.
use juce_simpleweb.Prelude.{
  ℕ, ◌≡◌, refl, inl, Bool, true, false, Option, none, some, List, [], ◌∷◌, arith, Bytes, bytes_eq,
  codes, none-ne-some, false-ne-true,
}
use juce_simpleweb.CaseInsensitive.{find_field, case_insensitive_equal}
use juce_simpleweb.HashMap.Listed.{Held, set_first, listed}
use juce_simpleweb.HttpServer.{Session, upgrades, no_read, no_timer}
use juce_simpleweb.HttpServer.Routes.{find_resource}
use juce_simpleweb.RequestMessage.{Request}
use juce_simpleweb.WsServer
use juce_simpleweb.WsServer.{Connection, connection_open, send, send_close}
use juce_simpleweb.WsServer.Opening.{Endpoint, Answering, find_endpoint, on_answered}
use juce_simpleweb.WsServer.Messages.{frame_of}
use juce_simpleweb.WsClient.Handshakes.{open_at}
use juce_simpleweb.JuceServer.{
  JuceServer, connection_opened, message_received, update, perform, call_each, call_back,
  on_new_connection_callback, send_text, send_data, send_text_but, send_data_but, send_text_to,
  send_data_to, close_connection,
}
use juce_simpleweb.JuceServer.Lifecycle.{IsTracked}
use juce_simpleweb.JuceServer.Runs.{
  Run, start, then_acts, act, opens, Run-IsTracked, Broadcasts, Broadcasts-held,
}
use juce_simpleweb.JuceServer.Directed.{Reached, to_id-held}
use juce_simpleweb.HttpServer.Stopping.{WebServer}
use juce_simpleweb.JuceServer.Stopping.{SocketServer}
use juce_simpleweb.JuceServer.StopInternal.{
  Servers, stop_servers, stop_internal, IsStopped, stop_internal-IsStopped,
}
use juce_simpleweb.JuceServer.FramesHeard.{Hears, frame-Hears}
use juce_simpleweb.JuceServer.Startup.{ws_endpoint, http_config}
use juce_simpleweb.JuceServer.Upgrade.{new_connection, upgraded, on_http_upgrade}
use juce_simpleweb.JuceServer.UpgradeOpens.{find_resource-opens}
use juce_simpleweb.Tests.{waiting_connection, hello, small_config}

abbrev Server : Type 0
Server = JuceServer (Held ℕ)

abbrev address : ℕ → Bytes
address h = h ∷ []

abbrev same_text : Bytes → Bytes
same_text s = s

-- A server that holds no connection yet.
abbrev outside : ℕ → Connection
outside h = record waiting_connection { joined = false }

abbrev empty_server : Server
empty_server = record { connection_map = ([], tt); connections = outside; calls = [] }

empty_server-IsTracked : IsTracked listed address same_text empty_server
empty_server-IsTracked = record {
  agrees = λ k h. (λ q. absurd (none-ne-some q), λ (p, u). absurd (false-ne-true u));
  heard = λ h. record { opens = refl; closed = refl; failed = refl };
}

-- The server after its connection 7 was opened.
abbrev one_server : Server
one_server = record {
  connection_map = set_first (7 ∷ []) 7 ([], tt);
  connections = update 7 (connection_open (outside 7)) outside;
  calls = connection_opened (7 ∷ []) ∷ [];
}

one_run : Run listed address same_text empty_server one_server
unfolding perform act call_each call_back on_new_connection_callback connection_open
one_run = then_acts start 7 opens (λ g e u. absurd (false-ne-true u)) refl

Run-IsTracked_example : IsTracked listed address same_text one_server
Run-IsTracked_example = Run-IsTracked listed address same_text empty_server-IsTracked one_run

one_server-IsTracked : IsTracked listed address same_text one_server
one_server-IsTracked = Run-IsTracked listed address same_text empty_server-IsTracked one_run

to_id-held_example :
    Reached listed address same_text
      (send (codes "hi") none 129)
      7
      one_server
      (send_text_to listed (codes "hi") (7 ∷ []) one_server)
    × Reached listed address same_text
        (send (codes "hi") none 130)
        7
        one_server
        (send_data_to listed (codes "hi") (7 ∷ []) one_server)
    × Reached listed address same_text
        (send_close 1000 (codes "hi") none)
        7
        one_server
        (close_connection listed (7 ∷ []) 1000 (codes "hi") one_server)
unfolding connection_open
to_id-held_example =
    to_id-held listed address same_text (codes "hi") 1000 7 one_server one_server-IsTracked refl

Broadcasts-held_example :
    Broadcasts listed address same_text [] 129
      (codes "hi")
      one_server
      (send_text listed (codes "hi") one_server)
    × Broadcasts listed address same_text [] 130
        (codes "hi")
        one_server
        (send_data listed (codes "hi") one_server)
    × Broadcasts listed address same_text
        ((7 ∷ []) ∷ [])
        129
        (codes "hi")
        one_server
        (send_text_but listed (codes "hi") ((7 ∷ []) ∷ []) one_server)
    × Broadcasts listed address same_text
        ((7 ∷ []) ∷ [])
        130
        (codes "hi")
        one_server
        (send_data_but listed (codes "hi") ((7 ∷ []) ∷ []) one_server)
Broadcasts-held_example =
    Broadcasts-held listed address same_text (codes "hi") ((7 ∷ []) ∷ []) one_server
      one_server-IsTracked

-- The socket server that holds it.
abbrev upgraded_only : SocketServer
upgraded_only = record {
  acceptor = none;
  internal_io_service = false;
  io_service_runs = false;
  endpoint = (7 ∷ []) ∷ [];
  connections = one_server.connections;
}

-- A web server that reads a request of its connection 3.
abbrev web_server : WebServer
web_server = record {
  acceptor = some true;
  internal_io_service = false;
  io_service_runs = true;
  connections = 3 ∷ [];
  sockets = λ h. true;
}

abbrev running : Servers (Held ℕ)
running = record {
  io_service = some true;
  ws = some upgraded_only;
  http = some web_server;
  juce = one_server;
}

stop_internal-IsStopped_example :
    (q last : Servers (Held ℕ)) × (stop_servers listed running ≡ some q)
    × IsStopped listed running upgraded_only web_server q
    × (stop_internal listed running ≡ some last)
    × (last.io_service ≡ none)
    × (last.ws ≡ none)
    × (last.http ≡ none)
    × ((k : Bytes) → listed.get k last.juce.connection_map ≡ none)
    × (last.juce.calls ≡ one_server.calls)
    × (stop_internal listed last ≡ some last)
stop_internal-IsStopped_example =
    stop_internal-IsStopped listed running upgraded_only web_server true true refl refl refl refl
      refl

abbrev talking : Server
talking = record {
  connection_map = set_first (7 ∷ []) 7 ([], tt);
  connections = λ h. waiting_connection;
  calls = [];
}

frame-Hears_example :
    (t : Server) × Hears listed address same_text 7 talking (frame_of 129 hello) t
    × ((t.connections 7).reading ≡ WsServer.read_head)
    × (t.calls ≡ message_received (7 ∷ []) (codes "Hello") ∷ [])
frame-Hears_example =
    frame-Hears listed address same_text 7 129 hello talking refl refl
      (record { opens = refl; closed = refl; failed = refl }) refl (inl refl) (omega arith)
      (omega arith, omega arith)

-- A request for an upgrade at the path /, and a socket server without a suffix.
abbrev root_endpoint : Endpoint
root_endpoint = ws_endpoint []

abbrev is_root : Bytes → Bytes → Bool
is_root regex path = bytes_eq path (codes "/")

abbrev wants_upgrade : Request
wants_upgrade = record {
  method = codes "GET";
  path = codes "/";
  query_string = codes "room=1";
  version = codes "1.1";
  header = (codes "Upgrade", codes "websocket") ∷ (codes "sec-websocket-key", codes "abcd") ∷ [];
}

abbrev digest : Bytes → Bytes
digest key =
    1 ∷ 2 ∷ 3 ∷ 4 ∷ 5 ∷ 6 ∷ 7 ∷ 8 ∷ 9 ∷ 10 ∷ 11 ∷ 12 ∷ 13 ∷ 14 ∷ 15 ∷ 16 ∷ 17 ∷ 18 ∷ 19 ∷ 20 ∷ []

abbrev asking : Session
asking = record {
  request = wants_upgrade;
  streambuf = [];
  chunk_size_streambuf = [];
  chunk_size_max = 18;
  reading = no_read;
  timer = no_timer;
  registered = true;
  log = [];
}

abbrev new_server : Server
new_server = record {
  connection_map = ([], tt);
  connections = λ h. upgraded small_config;
  calls = [];
}

abbrev no_match : Bytes → Bytes → Option (List Bytes)
no_match regex path = none

find_resource-opens_example :
    ((find_resource no_match http_config asking).log ≡ upgrades ∷ [])
    × ((find_resource no_match http_config asking).registered ≡ false)
    × ((a : Answering) × ((on_http_upgrade is_root digest [] small_config []
            (root_endpoint ∷ [])
            wants_upgrade).answering
          ≡ some a)
        × (a.status ≡ 101)
        × ((t : Server) × (perform listed address same_text
                (λ c.
                  some
                    (on_answered true none a (
                      on_http_upgrade is_root digest [] small_config []
                        (root_endpoint ∷ [])
                        wants_upgrade)).connection)
                7
                new_server
              ≡ some t)
            × (t.calls ≡ connection_opened (7 ∷ []) ∷ [])
            × (t.connections 7 ≡ open_at root_endpoint (upgraded small_config))))
unfolding ws_endpoint http_config find_endpoint find_field case_insensitive_equal new_connection
find_resource-opens_example =
    find_resource-opens is_root digest [] small_config [] (root_endpoint ∷ []) listed address
      same_text no_match http_config asking root_endpoint (codes "abcd") 7 new_server refl refl refl
      refl refl refl refl

-- ===== src/JuceServer/Upgrade.antt =====
-- SimpleWebSocketServer.cpp, `onHTTPUpgrade`: a request of the web server becomes a connection of
-- the socket server.
use juce_simpleweb.Prelude.{Bool, true, false, none, List, [], Bytes}
use juce_simpleweb.CaseInsensitive.{Multimap}
use juce_simpleweb.RequestMessage.{Request}
use juce_simpleweb.SendQueue
use juce_simpleweb.WsServer.{Config, Connection, no_timer, no_read}
use juce_simpleweb.WsServer.Opening.{Endpoint, Handshaking, upgrade}

-- `Connection(socket)`.
unfoldable pub new_connection : Config → Connection
unfolding SendQueue.empty
new_connection config = record {
  config = config;
  handlers = record {
    on_open = false;
    on_message = false;
    on_close = false;
    on_error = false;
    on_ping = false;
    on_pong = false;
  };
  timeout_idle = 0;
  timer = no_timer;
  closed = false;
  socket_open = true;
  queue = SendQueue.empty;
  fragmented_in_message = none;
  reading = no_read;
  joined = false;
  log = [];
}

-- The connection before its handshake is answered.
abbrev pub upgraded : Config → Connection
upgraded config = record (new_connection config) { timeout_idle = config.timeout_idle }

module _ (regex_match : Bytes → Bytes → Bool) (calc_sha1 : Bytes → Bytes) (memory : Bytes)
    (config : Config) (config_header : Multimap) (endpoints : List Endpoint) where
  -- The query string of the request is not passed on.
  unfoldable pub on_http_upgrade : Request → Handshaking
  unfolding new_connection upgrade
  on_http_upgrade request =
      upgrade regex_match calc_sha1 memory config_header endpoints config.timeout_idle (record {
        connection = new_connection config;
        request = record {
          method = request.method;
          path = request.path;
          query_string = [];
          version = request.version;
          header = request.header;
        };
        streambuf = [];
        reading = false;
        answering = none;
      })

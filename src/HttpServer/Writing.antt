-- ===== src/HttpServer/Writing.antt =====
-- webserver/server_http.hpp, write: the call of a resource's function, and the response that is
-- sent when it is destroyed.
use juce_simpleweb.Prelude.{Bytes}
use juce_simpleweb.HttpServer.{HttpConfig, Session, operation_canceled, tell_error}

-- How a resource's function ends, with the text of its response: it returns, or it throws an
-- exception.
pub data Ended : Type 0 where
  returns throws : Bytes → Ended

-- `write`: the session afterwards, and the text that is then sent.
unfoldable pub write : HttpConfig → Ended → Session → Session × Bytes
write config (returns text) s = (s, text)
write config (throws text) s = (tell_error config operation_canceled s, text)

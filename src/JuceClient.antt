-- ===== src/JuceClient.antt =====
-- SimpleWebSocketClient.cpp, SimpleWebSocketClientBase and SimpleWebSocketClient: the connection
-- that a client keeps, its two flags, what the program's calls send, and the callbacks of the
-- socket client with the listeners that they call. SecureWebSocketClient repeats these over TLS,
-- but for what it makes of a binary message. The mask of a frame is what the random device gave; a text of the program is given by its
-- UTF-8 bytes. A result `none` stands for undefined behaviour.
pub mod Flags
pub mod Stopping
use juce_simpleweb.Prelude.{
  ℕ, Bool, true, false, Option, none, some, List, [], ◌∷◌, ◌++◌, ◌==◌, if◌then◌else◌, Bytes, codes,
  ◌>>=◌,
}
use juce_simpleweb.JuceServer.{memory_block}
use juce_simpleweb.WsClient.{
  ClientConnection, ClientEvent, opened, pinged, ponged, received, closes, fails, ClientError, send,
  send_close, close,
}

-- The calls of `Listener`.
pub data ClientCall : Type 0 where
  connection_opened : ClientCall
  message_received data_received : Bytes → ClientCall
  connection_closed : ℕ → Bytes → ClientCall
  connection_error : ClientError → ClientCall

-- `connection` is null before the first connection is opened, and is kept afterwards; `ws` says
-- whether the socket client was created, whose own connection is the same one.
pub record JuceClient : Type 0 where
  pub is_connected : Bool
  pub is_closing : Bool
  pub ws : Bool
  pub connection : Option ClientConnection
  pub calls : List ClientCall

abbrev pub tell : ClientCall → JuceClient → JuceClient
tell call j = record j { calls = j.calls ++ call ∷ [] }

unfoldable pub handle_new_connection_callback : JuceClient → JuceClient
handle_new_connection_callback j = tell connection_opened (record j { is_connected = true })

unfoldable pub handle_connection_closed_callback : ℕ → Bytes → JuceClient → JuceClient
handle_connection_closed_callback status reason j =
    tell (connection_closed status reason) (record j { is_connected = false })

unfoldable pub handle_error_callback : ClientError → JuceClient → JuceClient
handle_error_callback ec j =
    let j' = record j { is_connected = false } in
    if j.is_closing then j' else tell (connection_error ec) j'

-- A call through `connection`, unless it is null.
abbrev on_connection : (ClientConnection → Option ClientConnection) → JuceClient → Option JuceClient
on_connection f j = elim j.connection [
  | none ↦ some j
  | some c ↦ f c >>= λ c'. some (record j { connection = some c' })
]

-- `send(const String&)`.
unfoldable pub send_text : Bytes → Bytes → JuceClient → Option JuceClient
send_text mask message j = on_connection (send mask message none 129) j

-- `send(const char*, int)`.
unfoldable pub send_data : Bytes → Bytes → JuceClient → Option JuceClient
send_data mask bytes j = on_connection (send mask bytes none 130) j

-- `stopInternal`, with `SocketClientBase::stop` of the socket client.
unfoldable pub stop_internal : Bytes → JuceClient → Option JuceClient
stop_internal mask j =
    on_connection
      (λ c. send_close mask 1000 (codes "Time to split my friend") none c >>= λ c'.
        some (if j.ws then close c' else c'))
      j

-- The callbacks that `initWS` sets; `string_of` is the text of the `String` that JUCE makes of
-- bytes, and `c` the connection that a callback is given.
module _ (string_of : Bytes → Bytes) where
  unfoldable pub on_message_callback : ℕ → ℕ → Bytes → JuceClient → Option JuceClient
  on_message_callback fin_rsv_opcode size text j =
      if fin_rsv_opcode == 129
      then some (tell (message_received (string_of text)) j)
      else if fin_rsv_opcode == 130
      then (memory_block size text >>= λ b. some (tell (data_received b) j))
      else some j

  unfoldable pub on_new_connection_callback : ClientConnection → JuceClient → JuceClient
  unfolding handle_new_connection_callback
  on_new_connection_callback c j = handle_new_connection_callback (record j { connection = some c })

  unfoldable pub on_connection_close_callback : ℕ → Bytes → JuceClient → JuceClient
  unfolding handle_connection_closed_callback
  on_connection_close_callback status reason j =
      handle_connection_closed_callback status (string_of reason) j

  unfoldable pub on_error_callback : ClientError → JuceClient → JuceClient
  unfolding handle_error_callback
  on_error_callback ec j = handle_error_callback ec j

  unfoldable pub call_back : ClientConnection → ClientEvent → JuceClient → Option JuceClient
  unfolding on_message_callback on_new_connection_callback on_connection_close_callback
      on_error_callback
  call_back c opened j = some (on_new_connection_callback c j)
  call_back c pinged j = some j
  call_back c ponged j = some j
  call_back c (received op size text) j = on_message_callback op size text j
  call_back c (closes status reason) j = some (on_connection_close_callback status reason j)
  call_back c (fails ec) j = some (on_error_callback ec j)

  unfoldable pub call_each : ClientConnection → List ClientEvent → JuceClient → Option JuceClient
  unfolding call_back
  call_each c [] j = some j
  call_each c (e ∷ events) j = call_back c e j >>= call_each c events

  -- `run`, over the callbacks that are made before `initWS` returns.
  unfoldable pub run : ClientConnection → List ClientEvent → JuceClient → Option JuceClient
  unfolding call_each
  run c events j = call_each c events (record j { is_connected = false; ws = true }) >>= λ j'.
      some (record j' { is_connected = false })

  -- `stop`, over the callbacks that are made before the thread has ended.
  unfoldable pub stop : Bytes → ClientConnection → List ClientEvent → JuceClient → Option JuceClient
  unfolding stop_internal call_each
  stop mask c events j = stop_internal mask (record j { is_closing = true }) >>= λ j'.
      call_each c events j' >>= λ j''. some (record j'' { is_closing = false })

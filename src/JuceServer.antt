-- ===== src/JuceServer.antt =====
-- SimpleWebSocketServer.cpp, SimpleWebSocketServer: the connections that a server keeps by the text
-- of their addresses, what the program's calls send over them, and the callbacks of the endpoint
-- with the listeners that they call. SecureWebSocketServer repeats these over TLS, but for what it
-- makes of a binary message. A connection is named by a number, for the shared pointer, and a text of the program is given by its UTF-8
-- bytes (`toStdString`). A result `none` stands for undefined behaviour.
pub mod Sending
pub mod Broadcasts
pub mod Agreement
pub mod Lifecycle
pub mod Runs
pub mod Directed
pub mod Hearing
pub mod Upgrade
pub mod Startup
pub mod Stopping
pub mod StopInternal
pub mod UpgradeOpens
pub mod FramesHeard
use juce_simpleweb.Prelude.{
  ℕ, ◌+◌, Bool, true, false, Option, none, some, List, [], ◌∷◌, ◌++◌, leb, ◌==◌, ◌||◌,
  if◌then◌else◌, length, take, drop, Bytes, bytes_eq, codes, ◌>>=◌,
}
use juce_simpleweb.HashMap.{HashMap}
use juce_simpleweb.WsServer.{
  ErrorCode, Event, opened, pinged, ponged, received, closes, fails, Connection, send, send_close,
}

-- The calls of `Listener`.
pub data Call : Type 0 where
  connection_opened : Bytes → Call
  message_received data_received : Bytes → Bytes → Call
  connection_closed : Bytes → ℕ → Bytes → Call
  connection_error : Bytes → ErrorCode → Call

-- The map of the connections, the connections themselves, and the calls of the listeners.
pub record JuceServer (Table : Type 0) : Type 0 where
  pub connection_map : Table
  pub connections : ℕ → Connection
  pub calls : List Call

abbrev pub update : ℕ → Connection → (ℕ → Connection) → ℕ → Connection
update h c connections k = if k == h then c else connections k

-- A call of a method through the shared pointer.
abbrev pub on_connection :
    (Connection → Option Connection) → ℕ → (ℕ → Connection) → Option (ℕ → Connection)
on_connection f h connections = f (connections h) >>= λ c. some (update h c connections)

-- `StringArray::contains`.
abbrev pub contains : List Bytes → Bytes → Bool
contains [] id = false
contains (x ∷ xs) id = bytes_eq x id || contains xs id

-- The loop of `send`, over what an iterator visits.
unfoldable pub send_each : ℕ → Bytes → List (Bytes × ℕ) → (ℕ → Connection) → Option (ℕ → Connection)
send_each op message [] connections = some connections
send_each op message ((id, h) ∷ visited) connections =
    on_connection (send message none op) h connections >>= send_each op message visited

-- The loop of `sendExclude`.
unfoldable pub send_each_but :
    List Bytes → ℕ → Bytes → List (Bytes × ℕ) → (ℕ → Connection) → Option (ℕ → Connection)
send_each_but exclude_ids op message [] connections = some connections
send_each_but exclude_ids op message ((id, h) ∷ visited) connections =
    (if contains exclude_ids id
      then some connections
      else on_connection (send message none op) h connections)
    >>= send_each_but exclude_ids op message visited

-- The loop of `stopInternal`.
unfoldable pub close_each : List ℕ → (ℕ → Connection) → Option (ℕ → Connection)
close_each [] connections = some connections
close_each (h ∷ held) connections =
    on_connection (send_close 1000 (codes "Server destroyed") none) h connections
    >>= close_each held

-- `MemoryBlock b(in_message->string().c_str(), in_message->size())`: the bytes, with the zero that
-- ends a C string; a size beyond it would read outside.
abbrev pub memory_block : ℕ → Bytes → Option Bytes
memory_block size text =
    if leb size (length text + 1) then some (take size (text ++ 0 ∷ [])) else none

module _ (maps : HashMap ℕ) where
  open maps use {Table, get, set, remove, clear, entries, size}

  abbrev pub with_connections : JuceServer Table → (ℕ → Connection) → Option (JuceServer Table)
  with_connections s connections = some (record s { connections = connections })

  -- `send(const String&)`.
  unfoldable pub send_text : Bytes → JuceServer Table → Option (JuceServer Table)
  unfolding send_each
  send_text message s =
      send_each 129 message (entries s.connection_map) s.connections >>= with_connections s

  -- `send(const char*, int)`: one message object for all, which sending does not consume.
  unfoldable pub send_data : Bytes → JuceServer Table → Option (JuceServer Table)
  unfolding send_each
  send_data bytes s =
      send_each 130 bytes (entries s.connection_map) s.connections >>= with_connections s

  -- A call through `connectionMap[id]`, if the map contains the id.
  abbrev pub to_id :
      (Connection → Option Connection) → Bytes → JuceServer Table → Option (JuceServer Table)
  to_id f id s =
      if maps.contains id s.connection_map
      then (get id s.connection_map >>= λ h. on_connection f h s.connections >>= with_connections s)
      else some s

  -- `sendTo(const String&, id)`.
  unfoldable pub send_text_to : Bytes → Bytes → JuceServer Table → Option (JuceServer Table)
  send_text_to message id s = to_id (send message none 129) id s

  -- `sendTo(const MemoryBlock&, id)`.
  unfoldable pub send_data_to : Bytes → Bytes → JuceServer Table → Option (JuceServer Table)
  send_data_to bytes id s = to_id (send bytes none 130) id s

  -- `sendExclude(const String&, excludeIds)`.
  unfoldable pub send_text_but : Bytes → List Bytes → JuceServer Table → Option (JuceServer Table)
  unfolding send_each_but
  send_text_but message exclude_ids s =
      send_each_but exclude_ids 129 message (entries s.connection_map) s.connections
      >>= with_connections s

  -- `sendExclude(const MemoryBlock&, excludeIds)`.
  unfoldable pub send_data_but : Bytes → List Bytes → JuceServer Table → Option (JuceServer Table)
  unfolding send_each_but
  send_data_but bytes exclude_ids s =
      send_each_but exclude_ids 130 bytes (entries s.connection_map) s.connections
      >>= with_connections s

  -- `closeConnectionInternal`.
  unfoldable pub close_connection : Bytes → ℕ → Bytes → JuceServer Table → Option (JuceServer Table)
  close_connection id code reason s = to_id (send_close code reason none) id s

  unfoldable pub get_num_active_connections : JuceServer Table → ℕ
  get_num_active_connections s = size s.connection_map

  -- The part of `stopInternal` between `get_connections` and `ws->stop()`: what it does to the
  -- connections that get_connections gives, and to the map.
  unfoldable pub close_held : List ℕ → JuceServer Table → Option (JuceServer Table)
  unfolding close_each
  close_held held s = close_each held s.connections >>= λ connections.
      some (record s { connections = connections; connection_map = clear s.connection_map })

  abbrev pub tell : Call → JuceServer Table → JuceServer Table
  tell call s = record s { calls = s.calls ++ call ∷ [] }

  -- The text of a connection's address, and that of the `String` which JUCE makes of bytes.
  module _ (connection_string : ℕ → Bytes) (string_of : Bytes → Bytes) where
    unfoldable pub on_message_callback :
        ℕ → ℕ → ℕ → Bytes → JuceServer Table → Option (JuceServer Table)
    on_message_callback h fin_rsv_opcode size text s =
        let id = connection_string h in
        if fin_rsv_opcode == 129
        then some (tell (message_received id (string_of text)) s)
        else if fin_rsv_opcode == 130
        then (memory_block size text >>= λ b. some (tell (data_received id b) s))
        else some s

    unfoldable pub on_new_connection_callback : ℕ → JuceServer Table → JuceServer Table
    on_new_connection_callback h s =
        let id = connection_string h in
        tell (connection_opened id) (record s { connection_map = set id h s.connection_map })

    unfoldable pub on_connection_close_callback :
        ℕ → ℕ → Bytes → JuceServer Table → JuceServer Table
    on_connection_close_callback h status reason s =
        let id = connection_string h in
        tell (connection_closed id status (string_of reason))
          (record s { connection_map = remove id s.connection_map })

    unfoldable pub on_error_callback : ℕ → ErrorCode → JuceServer Table → JuceServer Table
    on_error_callback h ec s =
        let id = connection_string h in
        tell (connection_error id ec) (record s { connection_map = remove id s.connection_map })

    -- The callbacks that `initServer` binds to the endpoint.
    unfoldable pub call_back : ℕ → Event → JuceServer Table → Option (JuceServer Table)
    unfolding on_message_callback on_new_connection_callback on_connection_close_callback
        on_error_callback
    call_back h opened s = some (on_new_connection_callback h s)
    call_back h pinged s = some s
    call_back h ponged s = some s
    call_back h (received op size text) s = on_message_callback h op size text s
    call_back h (closes status reason) s = some (on_connection_close_callback h status reason s)
    call_back h (fails ec) s = some (on_error_callback h ec s)

    unfoldable pub call_each : ℕ → List Event → JuceServer Table → Option (JuceServer Table)
    unfolding call_back
    call_each h [] s = some s
    call_each h (e ∷ events) s = call_back h e s >>= call_each h events

    -- An operation of the socket server on a connection, with the callbacks that it makes. They
    -- change the map and the listeners alone.
    unfoldable pub perform :
        (Connection → Option Connection) → ℕ → JuceServer Table → Option (JuceServer Table)
    unfolding call_each
    perform f h s = f (s.connections h) >>= λ c.
        call_each h (drop (length (s.connections h).log) c.log)
          (record s { connections = update h c s.connections })

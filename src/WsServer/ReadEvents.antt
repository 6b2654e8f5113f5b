-- ===== src/WsServer/ReadEvents.antt =====
-- websocket/server_ws.hpp: the callbacks that a read of a connection makes when it completes.
use juce_simpleweb.Prelude.{ℕ, ◌+◌, ◌%◌, refl, Bool, Option, none, some, Bytes, ◌==◌, ◌>>=◌}
use juce_simpleweb.WsServer.{
  pinged, ponged, received, ErrorCode, message_size, InMessage, Reading, no_read, read_head,
  read_length, read_content, Connection, send, send_close, connection_error, set_timeout,
  cancel_timeout, notify,
}
use juce_simpleweb.WsServer.Reader.{
  refuse, read_message, read_message_content, head_bytes, is_final, opcode, on_head, on_length,
  handle_frame, on_content, on_bytes, on_read,
}
use juce_simpleweb.WsServer.Events.{
  IsHeard, Tells, Ends, Tells-refl, Tells-trans, Ends-trans, Ends-if, Ends-bind, goes, silent,
  Tells-IsHeard, notify-Tells, send-Ends, send_close-Ends, connection_close-Tells,
  connection_error-Tells,
}

refuse-Ends :
    (status : ℕ) (reason : Bytes) (c : Connection) → IsHeard c → Ends c (refuse status reason c)
refuse-Ends status reason c h =
    Ends-bind c (send_close status reason none c) _ h (send_close-Ends status reason none c)
      (λ d h'. goes d _ (connection_close-Tells status reason d h'))

read_message-Tells : (c : Connection) → Tells c (read_message c)
unfolding read_message set_timeout
read_message-Tells c = silent c _ refl refl refl

read_message_content-Ends :
    (n op : ℕ) (c : Connection) → IsHeard c → Ends c (read_message_content n op c)
unfolding read_message_content set_timeout
read_message_content-Ends n op c h =
    let failed = connection_error-Tells message_size c h in
    Ends-if c _ _ _
      (Ends-trans c _ _ failed
        (refuse-Ends 1009 _ (connection_error message_size c) (Tells-IsHeard c _ failed h)))
      (goes c _ (silent c _ refl refl refl))

waiting-Ends :
    (reading : Reading) (c : Connection)
    → Ends c (some (record (set_timeout none c) { reading = reading }))
unfolding set_timeout
waiting-Ends reading c = goes c _ (silent c _ refl refl refl)

head_bytes-Ends : (op second : ℕ) (c : Connection) → IsHeard c → Ends c (head_bytes op second c)
unfolding head_bytes
head_bytes-Ends op second c h =
    search (Ends-if, refuse-Ends, waiting-Ends, read_message_content-Ends)

on_head-Ends : (bytes : Bytes) (c : Connection) → IsHeard c → Ends c (on_head bytes c)
unfolding on_head
on_head-Ends bytes c h = Ends-if c _ _ _ (goes c _ (read_message-Tells c)) (head_bytes-Ends _ _ c h)

read_on-Ends : (c d : Connection) → Tells c d → Ends c (some (read_message d))
read_on-Ends c d s = goes c _ (Tells-trans c d _ s (read_message-Tells d))

pong-Ends :
    (message : Bytes) (op : ℕ) (c : Connection)
    → IsHeard c
    → Ends c
        (send message none op c >>= λ d. some (read_message (notify c.handlers.on_ping pinged d)))
pong-Ends message op c h =
    Ends-bind c (send message none op c) _ h (send-Ends message none op c)
      (λ d h'. read_on-Ends d _ (notify-Tells c.handlers.on_ping pinged d refl))

ponged-Ends : (c : Connection) → Ends c (some (read_message (notify c.handlers.on_pong ponged c)))
ponged-Ends c = read_on-Ends c _ (notify-Tells c.handlers.on_pong ponged c refl)

message-Ends :
    (op n : ℕ) (text : Bytes) (c : Connection)
    → Ends c (
        some (
          read_message (record (notify c.handlers.on_message (received op n text) c) {
            fragmented_in_message = none;
          })))
message-Ends op n text c = read_on-Ends c _ (
    Tells-trans c (notify c.handlers.on_message (received op n text) c) _
      (notify-Tells c.handlers.on_message (received op n text) c refl) (silent _ _ refl refl refl))

unread-Ends : (c : Connection) → Ends c (some (read_message c))
unread-Ends c = goes c _ (read_message-Tells c)

handle_frame-Ends :
    (op n : ℕ) (m : InMessage) (c : Connection) → IsHeard c → Ends c (handle_frame op n m c)
unfolding handle_frame
handle_frame-Ends op n m c h = Ends-if c (opcode op == 8) _ _ (refuse-Ends _ _ c h) (
    Ends-if c (opcode op == 9) _ _ (pong-Ends m.streambuf ((op + 1) % 256) c h) (
      Ends-if c (opcode op == 10) _ _ (ponged-Ends c) (
        Ends-if c (is_final op) _ _ (message-Ends m.fin_rsv_opcode m.length m.streambuf c)
          (unread-Ends c))))

on_bytes-Ends :
    (reading : Reading) (bytes : Bytes) (c : Connection)
    → IsHeard c
    → Ends c (on_bytes reading bytes c)
unfolding on_bytes on_length on_content
on_bytes-Ends no_read bytes c h = goes c c (Tells-refl c)
on_bytes-Ends read_head bytes c h = on_head-Ends bytes c h
on_bytes-Ends (read_length num_bytes op) bytes c h = read_message_content-Ends _ op c h
on_bytes-Ends (read_content n op) bytes c h =
    Ends-trans c _ _ (silent c (record c { fragmented_in_message = _ }) refl refl refl)
      (handle_frame-Ends op n _ _ (Tells-IsHeard c _ (silent c _ refl refl refl) h))

-- A read that completes, with the scope's lock or without it, with an error or without one.
pub on_read-Ends :
    (lock : Bool) (ec : Option ErrorCode) (bytes : Bytes) (c : Connection)
    → IsHeard c
    → Ends c (on_read lock ec bytes c)
unfolding on_read cancel_timeout
on_read-Ends lock ec bytes c h =
    let c' = record (cancel_timeout c) { reading = no_read } in
    let start : Tells c c' = silent c c' refl refl refl in
    Ends-if c lock _ _ (Ends-trans c c' _ start (go ec (Tells-IsHeard c c' start h)))
      (goes c c' start)
  where
    go :
        (ec : Option ErrorCode)
        → IsHeard (record (cancel_timeout c) { reading = no_read })
        → Ends
            (record (cancel_timeout c) { reading = no_read })
            (elim ec [
              | none ↦ on_bytes c.reading bytes (record (cancel_timeout c) { reading = no_read })
              | some e ↦ some (connection_error e (record (cancel_timeout c) { reading = no_read }))
            ])
    go none h = on_bytes-Ends c.reading bytes _ h
    go (some e) h = goes _ _ (connection_error-Tells e _ h)

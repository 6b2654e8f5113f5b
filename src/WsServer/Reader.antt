-- ===== src/WsServer/Reader.antt =====
-- websocket/server_ws.hpp: read_message, read_message_content and the handlers of their reads. A
-- handler is given whether the scope's lock was obtained, the error code and the bytes read. A
-- handler takes its own read off first, and has started the next one when it returns.
use juce_simpleweb.Prelude.{
  ℕ, ◌+◌, ◌*◌, ◌%◌, Bool, true, Option, none, some, [], ◌++◌, leb, ltb, ◌==◌, if◌then◌else◌, length,
  get_or, take, drop, Bytes, codes, ◌>>=◌,
}
use juce_simpleweb.Frame.{size_t_mod, sum_length, unmask}
use juce_simpleweb.WsServer.{
  ErrorCode, message_size, received, pinged, ponged, InMessage, Reading, no_read, read_head,
  read_length, read_content, Connection, set_timeout, cancel_timeout, send, send_close, notify,
  connection_close, connection_error,
}

-- The two calls that every refusal ends with.
abbrev pub refuse : ℕ → Bytes → Connection → Option Connection
refuse status reason c =
    send_close status reason none c >>= λ c'. some (connection_close status reason c')

unfoldable pub read_message : Connection → Connection
read_message c = record (set_timeout none c) { reading = read_head }

abbrev pub fragmented_length : Option InMessage → ℕ
fragmented_length none = 0
fragmented_length (some m) = m.length

-- The sum of the sizes wraps at 64 bits, as that of the source does.
unfoldable pub read_message_content : ℕ → ℕ → Connection → Option Connection
read_message_content n fin_rsv_opcode c =
    if ltb c.config.max_message_size ((n + fragmented_length c.fragmented_in_message) % size_t_mod)
    then refuse 1009 (codes "message too big") (connection_error message_size c)
    else some (record (set_timeout none c) { reading = read_content n fin_rsv_opcode })

-- The handlers below run with the timeout cancelled and the lock obtained.
unfoldable pub head_bytes : ℕ → ℕ → Connection → Option Connection
head_bytes fin_rsv_opcode second c =
    if ltb second 128
    then refuse 1002 (codes "message from client not masked") c
    else if second % 128 == 126
    then some (record (set_timeout none c) { reading = read_length 2 fin_rsv_opcode })
    else if second % 128 == 127
    then some (record (set_timeout none c) { reading = read_length 8 fin_rsv_opcode })
    else read_message_content (second % 128) fin_rsv_opcode c

unfoldable pub on_head : Bytes → Connection → Option Connection
on_head bytes c =
    if length bytes == 0
    then some (read_message c)
    else head_bytes (get_or bytes 0 0) (get_or bytes 1 0) c

unfoldable pub on_length : ℕ → ℕ → Bytes → Connection → Option Connection
on_length num_bytes fin_rsv_opcode bytes c =
    read_message_content (sum_length 0 (take num_bytes bytes)) fin_rsv_opcode c

-- `fin_rsv_opcode & 0x80`, `|= 0x80` and `& 0x0f` on a byte.
abbrev pub is_final : ℕ → Bool
is_final op = leb 128 op

abbrev pub set_final : ℕ → ℕ
set_final op = op % 128 + 128

abbrev pub opcode : ℕ → ℕ
opcode op = op % 16

-- The message that the content goes to, before the content; a fragment goes to the message that
-- the connection keeps.
abbrev pub is_fragment : ℕ → Bool
is_fragment op = if is_final op then opcode op == 0 else true

unfoldable pub target : ℕ → ℕ → Option InMessage → InMessage
target op n none = record {
  fin_rsv_opcode = if is_fragment op then set_final op else op;
  length = n;
  streambuf = [];
}
target op n (some m) =
    if is_fragment op
    then record m { length = (m.length + n) % size_t_mod }
    else record { fin_rsv_opcode = op; length = n; streambuf = [] }

-- The status of a close frame whose own length is `n`, and the reason.
abbrev pub close_status : ℕ → Bytes → ℕ
close_status n s = if leb 2 n then get_or s 0 255 * 256 + get_or s 1 255 else 0

abbrev pub close_reason : ℕ → Bytes → Bytes
close_reason n s = if leb 2 n then drop 2 s else s

-- What a complete frame does, with `m` the message that its content was put into.
unfoldable pub handle_frame : ℕ → ℕ → InMessage → Connection → Option Connection
handle_frame op n m c =
    if opcode op == 8
    then refuse (close_status n m.streambuf) (close_reason n m.streambuf) c
    else if opcode op == 9
    then (send m.streambuf none ((op + 1) % 256) c >>= λ c'.
        some (read_message (notify c.handlers.on_ping pinged c')))
    else if opcode op == 10
    then some (read_message (notify c.handlers.on_pong ponged c))
    else if is_final op
    then some (
        read_message
          (record (notify c.handlers.on_message (received m.fin_rsv_opcode m.length m.streambuf)
            c) { fragmented_in_message = none }))
    else some (read_message c)

unfoldable pub on_content : ℕ → ℕ → Bytes → Connection → Option Connection
on_content n op bytes c =
    let start = target op n c.fragmented_in_message in
    let m : InMessage = record start {
      streambuf = start.streambuf ++ unmask (take 4 bytes) 0 n (drop 4 bytes);
    } in
    handle_frame op n m (record c {
      fragmented_in_message = if is_fragment op then some m else c.fragmented_in_message;
    })

unfoldable pub on_bytes : Reading → Bytes → Connection → Option Connection
on_bytes no_read bytes c = some c
on_bytes read_head bytes c = on_head bytes c
on_bytes (read_length num_bytes op) bytes c = on_length num_bytes op bytes c
on_bytes (read_content n op) bytes c = on_content n op bytes c

-- The completion of the read that is under way.
unfoldable pub on_read : Bool → Option ErrorCode → Bytes → Connection → Option Connection
on_read lock ec bytes c =
    let c' = record (cancel_timeout c) { reading = no_read } in
    if lock
    then elim ec [ none ↦ on_bytes c.reading bytes c' | some e ↦ some (connection_error e c') ]
    else some c'

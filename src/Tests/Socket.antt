-- ===== src/Tests/Socket.antt =====
-- The theorems on connections, frames, send queues and scopes, each applied to concrete data.
use juce_simpleweb.Prelude.{
  ℕ, ◌+◌, ◌≤◌, ◌<◌, ◌≡◌, ◌⊎◌, refl, true, false, none, some, List, [], ◌∷◌, ◌++◌, arith, Bytes,
  codes, All,
}
use juce_simpleweb.Frame.{size_t_mod, client_frame}
use juce_simpleweb.SendQueue
use juce_simpleweb.SendQueue.{SendQueue, Op, empty, run}
use juce_simpleweb.SendQueue.Delivery.{run-delivers}
use juce_simpleweb.SendQueue.Traffic.{
  IsHealthy, wanted, names, pending, callbacks, behind, messages,
}
use juce_simpleweb.WsServer
use juce_simpleweb.WsServer.{
  InMessage, message_size, fails, Reading, no_read, read_head, read_content, Event, pinged, ponged,
  received, closes, Connection, close_message, told, set_timeout, cancel_timeout,
}
use juce_simpleweb.WsServer.Reader.{
  on_read, handle_frame, read_message, read_message_content, opcode,
}
use juce_simpleweb.WsServer.Transport.{Delivers, Delivers-client_frame, receive, four, waiting}
use juce_simpleweb.WsServer.Messages.{frame_of, after_message}
use juce_simpleweb.WsServer.Fragments.{frames, Delivers-fragments}
use juce_simpleweb.WsServer.Limits.{
  frame_for, unmasked_refused, unmasked_reason, size_checked, checked_size, TooBig,
  size_check_wraps, Answer,
}
use juce_simpleweb.WsServer.Control.{after_control, Delivers-ping, Delivers-close}
use juce_simpleweb.Tests.{waiting_connection, hello, there, end_mark}

abbrev text_message : Bytes
text_message = codes "Hello, there!"

Delivers-fragments_example :
    Delivers waiting_connection
      (frame_of 1 hello ++ (frames (there ∷ []) ++ frame_of 128 end_mark))
      (after_message 129 13 text_message waiting_connection)
Delivers-fragments_example =
    Delivers-fragments 1 hello (there ∷ []) end_mark waiting_connection refl refl (omega arith)
      ((λ e. omega arith), (λ e. omega arith), (λ e. omega arith), (λ e. omega arith)) (omega arith)
      (omega arith)

Delivers-client_frame_example :
    Delivers waiting_connection
      (client_frame 138 (four 1 2 3 4) (codes "Hi"))
      (after_control ponged true waiting_connection.queue waiting_connection)
unfolding receive handle_frame read_message set_timeout empty cancel_timeout
Delivers-client_frame_example =
    Delivers-client_frame 138 1 2 3 4 (codes "Hi") waiting_connection _ refl (omega arith)
      (omega arith, omega arith) refl

-- Two sends, of which the first completes.
abbrev two_sends : List (Op Bytes)
two_sends =
    SendQueue.send (codes "a") (some 7)
    ∷ SendQueue.send (codes "b") none
    ∷ SendQueue.complete true false
    ∷ []

run-delivers_example :
    (q : SendQueue Bytes) × (run two_sends empty ≡ some q)
    × (q.in_flight ≡ wanted q.send_queue)
    × (names q.called ++ pending q.send_queue ≡ callbacks two_sends)
    × (All IsHealthy two_sends → q.started ++ behind q.send_queue ≡ messages two_sends)
run-delivers_example = run-delivers two_sends (tt, (tt, (refl, tt)))

Delivers-ping_example :
    (q : SendQueue WsServer.Frame) × (SendQueue.enqueue
        (frame_for 138 (codes "Hello"))
        none
        waiting_connection.queue
      ≡ some q)
    × (opcode 138 ≡ 10)
    × Delivers waiting_connection
        (frame_of 137 hello)
        (after_control pinged true q waiting_connection)
Delivers-ping_example =
    Delivers-ping 137 hello waiting_connection refl refl (omega arith) refl (omega arith)
      (omega arith, omega arith)

Delivers-close_example :
    (d : Connection) × Delivers waiting_connection
      (client_frame 136 (four 4 3 2 1) (close_message 1000 (codes "bye")))
      d
    × (d.closed ≡ true)
    × (d.joined ≡ false)
    × (d.reading ≡ no_read)
    × (d.log ≡ closes 1000 (codes "bye") ∷ [])
    × Answer (close_message 1000 (codes "bye")) waiting_connection d
Delivers-close_example =
    Delivers-close 136 1000 4 3 2 1 (codes "bye") waiting_connection refl refl refl (omega arith)
      (omega arith) (omega arith, omega arith)

unmasked_refused_example :
    (d : Connection) × (on_read true none (129 ∷ 5 ∷ []) waiting_connection ≡ some d)
    × (d.closed ≡ true)
    × (d.joined ≡ false)
    × (d.reading ≡ no_read)
    × (d.log ≡ closes 1002 unmasked_reason ∷ [])
unmasked_refused_example = unmasked_refused 129 5 waiting_connection refl (omega arith)

size_checked_example :
    (checked_size 101 waiting_connection ≤ 100)
      × (read_message_content 101 129 waiting_connection
          ≡ some (waiting (read_content 101 129) waiting_connection))
    ⊎ (100 < checked_size 101 waiting_connection) × TooBig 101 129 waiting_connection
size_checked_example = size_checked 101 129 waiting_connection

-- The connection with five bytes of a message kept.
abbrev keeping_connection : Connection
keeping_connection = record waiting_connection {
  fragmented_in_message =
      some (record { fin_rsv_opcode = 129; length = 5; streambuf = codes "Hello" });
}

size_check_wraps_example :
    (n : ℕ) × (n < size_t_mod)
    × (100 < n + 5)
    × (read_message_content n 128 keeping_connection
        ≡ some (waiting (read_content n 128) keeping_connection))
size_check_wraps_example =
    size_check_wraps 128 keeping_connection
      (record { fin_rsv_opcode = 129; length = 5; streambuf = codes "Hello" }) refl (omega arith)
      (omega arith) (omega arith)

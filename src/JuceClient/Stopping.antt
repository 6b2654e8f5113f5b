-- ===== src/JuceClient/Stopping.antt =====
-- SimpleWebSocketClient.cpp, `stop`: the close frame that is sent, and what the listeners hear
-- while the client is closing.
use juce_simpleweb.Prelude.{
  ◌≡◌, refl, ap, ◌∙◌, Bool, true, false, Option, none, some, List, ◌++◌, if◌then◌else◌, length,
  ◌==◌, ℕ, Bytes, codes, ◌>>=◌, All,
}
use juce_simpleweb.Frame.{client_frame}
use juce_simpleweb.SendQueue.{SendQueue, enqueue}
use juce_simpleweb.SendQueue.Total.{enqueue-total}
use juce_simpleweb.WsServer.{close_message}
use juce_simpleweb.WsClient.{ClientConnection, ClientEvent, send, send_close, close, idle_timer}
use juce_simpleweb.JuceClient.{JuceClient, stop_internal, call_each, stop}
use juce_simpleweb.JuceClient.Flags.{IsSized, heard_all, connected_after_all, call_each-Told}

send-total :
    (mask message : Bytes) (op : ℕ) (c : ClientConnection)
    → (d : ClientConnection) × (send mask message none op c ≡ some d)
unfolding send
send-total mask message op c = sent (enqueue-total (client_frame op mask message) none c.queue)
  where
    sent :
        (q : SendQueue Bytes) × (enqueue (client_frame op mask message) none c.queue ≡ some q)
        → (d : ClientConnection) × (send mask message none op c ≡ some d)
    sent (q, e) = (
      _,
      ap
          (λ o. o >>= λ q'. some (record c {
            queue = q';
            timer = if length q'.send_queue == 1 then idle_timer c.timeout_idle else c.timer;
          }))
          e,
    )

send_close-total :
    (mask reason : Bytes) (status : ℕ) (c : ClientConnection)
    → (d : ClientConnection) × (send_close mask status reason none c ≡ some d)
unfolding send_close
send_close-total mask reason status c = by_flag c.closed
  where
    by_flag :
        (b : Bool)
        → (d : ClientConnection) × ((if b
              then some c
              else send mask (close_message status reason) none 136 (record c { closed = true }))
            ≡ some d)
    by_flag true = (c, refl)
    by_flag false = send-total mask (close_message status reason) 136 (record c { closed = true })

stop_internal-closes :
    (mask : Bytes) (c d : ClientConnection) (j : JuceClient)
    → j.connection ≡ some c
    → j.ws ≡ true
    → send_close mask 1000 (codes "Time to split my friend") none c ≡ some d
    → stop_internal mask j ≡ some (record j { connection = some (close d) })
unfolding stop_internal
stop_internal-closes mask c d j has created e = rw (has, e, created) refl

-- `stop` of a client that has a connection and a socket client, over the callbacks that are made
-- before its thread has ended, where a message tells the size of its buffer: it returns. First
-- the connection is given the close frame with status 1000, unless one was sent before, and its
-- socket is closed. The listeners hear those callbacks in order, but no error; afterwards the
-- client is connected only if the last of them says so, and errors are told again.
pub stop-silent :
    (string_of : Bytes → Bytes) (mask : Bytes) (c : ClientConnection) (events : List ClientEvent)
    (j : JuceClient)
    → j.connection ≡ some c
    → j.ws ≡ true
    → All IsSized events
    → (d : ClientConnection) × (send_close mask 1000 (codes "Time to split my friend") none c
        ≡ some d)
      × (stop_internal mask j ≡ some (record j { connection = some (close d) }))
      × ((k : JuceClient) × (stop string_of mask c events j ≡ some k)
          × (k.is_closing ≡ false)
          × (k.is_connected ≡ connected_after_all events j.is_connected)
          × (k.calls ≡ j.calls ++ heard_all string_of true events))
unfolding stop
stop-silent string_of mask c events j has created z =
    let (d, e) = send_close-total mask (codes "Time to split my friend") 1000 c in
    let closing : JuceClient = record j { is_closing = true } in
    let closed : JuceClient = record closing { connection = some (close d) } in
    let (k, p, told) = call_each-Told string_of c events closed z in
    let ended : JuceClient → Option JuceClient = λ x. some (record x { is_closing = false }) in
    let rest : JuceClient → Option JuceClient = λ x. call_each string_of c events x >>= ended in
    (
      d,
      e,
      stop_internal-closes mask c d j has created e,
      (
        record k { is_closing = false },
        ap (λ o. o >>= rest) (stop_internal-closes mask c d closing has created e)
            ∙ ap (λ o. o >>= ended) p,
        refl,
        told.flag,
        told.said,
      ),
    )

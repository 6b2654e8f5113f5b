-- ===== src/JuceServer/Runs.antt =====
-- SimpleWebSocketServer.cpp: whatever happens to the connections, in any order, the map holds those
-- that the endpoint holds, and the program's calls reach exactly them.
use juce_simpleweb.Prelude.{
  ℕ, ◌≡◌, refl, sym, ap, ◌∙◌, inl, inr, Bool, false, not, ◌&&◌, Option, none, some, List, [],
  ==_refl, if◌then◌else◌, Bytes, Bool-cases, Option-cases, ◌⊎◌, subst, ne→==_false, false-ne-true,
}
use juce_simpleweb.HashMap.{HashMap}
use juce_simpleweb.WsServer.{
  ErrorCode, Connection, connection_open, connection_error, on_timer, on_written, send, send_close,
}
use juce_simpleweb.WsServer.Reader.{on_read}
use juce_simpleweb.WsServer.Events.{
  IsHeard, Ends, goes, connection_open-Tells, connection_error-Tells, send-Ends, send_close-Ends,
  on_written-Ends, on_timer-Tells,
}
use juce_simpleweb.WsServer.ReadEvents.{on_read-Ends}
use juce_simpleweb.JuceServer.{
  JuceServer, contains, perform, send_text, send_data, send_text_but, send_data_but,
}
use juce_simpleweb.JuceServer.Sending.{names}
use juce_simpleweb.JuceServer.Broadcasts.{Reaches, broadcasts-Reaches}
use juce_simpleweb.JuceServer.Agreement.{IsAlone}
use juce_simpleweb.JuceServer.Lifecycle.{joined, IsTracked, perform-IsTracked}

-- What happens to a connection: its handshake is answered, the handshake fails, a read, a write or
-- a timer completes, or a frame is sent.
pub data Operation : Type 0 where
  opens times_out : Operation
  fails_with : ErrorCode → Operation
  reads : Bool → Option ErrorCode → Bytes → Operation
  writes : Bool → Bool → Operation
  sends : Bytes → Option ℕ → ℕ → Operation
  sends_close : ℕ → Bytes → Option ℕ → Operation

unfoldable pub act : Operation → Connection → Option Connection
act opens c = some (connection_open c)
act times_out c = some (on_timer c)
act (fails_with ec) c = some (connection_error ec c)
act (reads lock ec bytes) c = on_read lock ec bytes c
act (writes lock failed) c = on_written lock failed c
act (sends message callback op) c = send message callback op c
act (sends_close status reason callback) c = send_close status reason callback c

act-Ends : (o : Operation) (c : Connection) → IsHeard c → Ends c (act o c)
unfolding act
act-Ends opens c h = goes c _ (connection_open-Tells c h)
act-Ends times_out c h = goes c _ (on_timer-Tells c)
act-Ends (fails_with ec) c h = goes c _ (connection_error-Tells ec c h)
act-Ends (reads lock ec bytes) c h = on_read-Ends lock ec bytes c h
act-Ends (writes lock failed) c h = on_written-Ends lock failed c
act-Ends (sends message callback op) c h = send-Ends message callback op c
act-Ends (sends_close status reason callback) c h = send_close-Ends status reason callback c

module _ (maps : HashMap ℕ) (connection_string : ℕ → Bytes) (string_of : Bytes → Bytes) where
  open maps use {Table, get}

  -- Steps of a server: an operation on a connection whose address no other connection has that the
  -- endpoint holds.
  pub data Run (s : JuceServer Table) : JuceServer Table → Type 0 where
    start : Run s s
    then_acts :
        {t u : JuceServer Table}
        → Run s t
        → (h : ℕ) (o : Operation)
        → IsAlone maps connection_string h (joined maps connection_string string_of t)
        → perform maps connection_string string_of (act o) h t ≡ some u
        → Run s u

  -- From a state in which the map holds exactly the connections that the endpoint holds, each
  -- under the text of its address, and every connection has on_open, on_close and on_error set:
  -- any run of operations on connections ends in such a state. The operations are an opening, a
  -- failure, a completed read with what it does to a frame, a completed write, a timer, a send
  -- and a close frame, each with the callbacks that it makes; each acts on a connection whose
  -- address no other connection has that the endpoint holds.
  pub Run-IsTracked :
      {s t : JuceServer Table}
      → IsTracked maps connection_string string_of s
      → Run s t
      → IsTracked maps connection_string string_of t
  Run-IsTracked tracked start = tracked
  Run-IsTracked tracked (then_acts run h o alone e) =
      let before = Run-IsTracked tracked run in
      perform-IsTracked maps connection_string string_of (act o) h _ before alone
        (act-Ends o _ (before.heard h)) e

  -- The map names a connection under its address exactly if the endpoint holds it.
  names-joined :
      (h : ℕ) (s : JuceServer Table)
      → IsTracked maps connection_string string_of s
      → names h (get (connection_string h) s.connection_map)
        ≡ joined maps connection_string string_of s h
  names-joined h s tracked = elim (Bool-cases (joined maps connection_string string_of s h)) [
    | inl j ↦
        ap (names h) ((tracked.agrees (connection_string h) h).1 (refl, j)) ∙ ==_refl h ∙ sym j
    | inr n ↦ absent n (Option-cases (get (connection_string h) s.connection_map))
  ]
    where
      absent :
          joined maps connection_string string_of s h ≡ false
          → (get (connection_string h) s.connection_map ≡ none)
            ⊎ ((g : ℕ) × (get (connection_string h) s.connection_map ≡ some g))
          → names h (get (connection_string h) s.connection_map)
            ≡ joined maps connection_string string_of s h
      absent n (inl e) = ap (names h) e ∙ sym n
      absent n (inr (g, e)) =
          let (p, j) = (tracked.agrees (connection_string h) g).0 e in
          ap (names h) e
          ∙ ne→==_false g h (λ q.
            false-ne-true (sym n ∙ ap (joined maps connection_string string_of s) (sym q) ∙ j))
          ∙ sym n

  -- What a broadcast does to the connections that the endpoint holds, and to no others.
  pub record Broadcast (exclude_ids : List Bytes) (op : ℕ) (message : Bytes)
      (s t : JuceServer Table) : Type 0 where
    pub same_map : t.connection_map ≡ s.connection_map
    pub no_calls : t.calls ≡ s.calls
    pub sent :
        (h : ℕ)
        → (if not (contains exclude_ids (connection_string h))
              && joined maps connection_string string_of s h
            then send message none op (s.connections h)
            else some (s.connections h))
          ≡ some (t.connections h)

  abbrev pub Broadcasts :
      List Bytes → ℕ → Bytes → JuceServer Table → Option (JuceServer Table) → Type 0
  Broadcasts exclude_ids op message s result =
      (t : JuceServer Table) × (result ≡ some t) × Broadcast exclude_ids op message s t

  reached-Broadcasts :
      {exclude_ids : List Bytes} {op : ℕ} {message : Bytes} (s : JuceServer Table)
      (result : Option (JuceServer Table))
      → IsTracked maps connection_string string_of s
      → ((t : JuceServer Table) × (result ≡ some t)
          × Reaches maps connection_string exclude_ids op message s t)
      → Broadcasts exclude_ids op message s result
  reached-Broadcasts {exclude_ids} {op} {message} s result tracked (t, e, r) = (
    t,
    e,
    record {
      same_map = r.same_map;
      no_calls = r.no_calls;
      sent = λ h.
          subst
            (λ b.
              (if not (contains exclude_ids (connection_string h)) && b
                then send message none op (s.connections h)
                else some (s.connections h))
              ≡ some (t.connections h))
            (names-joined h s tracked) (r.sent h);
    },
  )

  -- In a state that is tracked (the map holds exactly the connections that the endpoint holds,
  -- each under the text of its address): `send` and `sendExclude` of a text and of bytes return.
  -- Each connection that the endpoint holds has sent the message exactly once, as a final text
  -- frame or a final binary frame, unless sendExclude was given its id. Every other connection
  -- is unchanged, and so are the map and the calls of the listeners.
  pub Broadcasts-held :
      (message : Bytes) (exclude_ids : List Bytes) (s : JuceServer Table)
      → IsTracked maps connection_string string_of s
      → Broadcasts [] 129 message s (send_text maps message s)
        × Broadcasts [] 130 message s (send_data maps message s)
        × Broadcasts exclude_ids 129 message s (send_text_but maps message exclude_ids s)
        × Broadcasts exclude_ids 130 message s (send_data_but maps message exclude_ids s)
  Broadcasts-held message exclude_ids s tracked =
      let (a, b, c, d) =
        broadcasts-Reaches maps connection_string message exclude_ids s
          (λ k h e. ((tracked.agrees k h).0 e).0) in
      (
        reached-Broadcasts s _ tracked a,
        reached-Broadcasts s _ tracked b,
        reached-Broadcasts s _ tracked c,
        reached-Broadcasts s _ tracked d,
      )

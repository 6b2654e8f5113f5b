-- ===== src/JuceServer/FramesHeard.antt =====
-- SimpleWebSocketServer.cpp: the frames that a client sends, heard by the listeners.
use juce_simpleweb.Prelude.{
  ℕ, ◌+◌, ◌<◌, ◌≡◌, refl, sym, ap, subst, ◌∙◌, inl, inr, true, none, some, List, [], ◌∷◌, ◌++◌,
  append-nil, append_assoc, arith, ◌==◌, if◌then◌else◌, length, exact-cut, Bytes, All, All-split,
  ◌⊎◌,
}
use juce_simpleweb.HashMap.{HashMap}
use juce_simpleweb.WsServer.{Event, received, Connection, read_head, told}
use juce_simpleweb.WsServer.Reader.{on_read, is_final}
use juce_simpleweb.WsServer.Transport.{Delivers, transfer, Fits}
use juce_simpleweb.WsServer.Messages.{Sent, frame_of, IsData, Delivers-message}
use juce_simpleweb.Frame.{size_t_mod}
use juce_simpleweb.WsServer.Events.{
  IsHeard, Tells, Ends, Ends-some, Tells-refl, Tells-trans, Tells-IsHeard,
}
use juce_simpleweb.WsServer.ReadEvents.{on_read-Ends}
use juce_simpleweb.JuceServer.{message_received, data_received, JuceServer, perform}
use juce_simpleweb.JuceServer.Hearing.{
  IsSized, heard_all, heard_all-append, updated, perform-Called,
}

module _ (maps : HashMap ℕ) (connection_string : ℕ → Bytes) (string_of : Bytes → Bytes)
    (h : ℕ) where
  open maps use {Table}

  -- The connection reads these bytes, each read with its callbacks.
  pub data Hears : JuceServer Table → Bytes → JuceServer Table → Type 0 where
    done : {s : JuceServer Table} → Hears s [] s
    read :
        {s t u : JuceServer Table} (bytes : Bytes) {rest whole : Bytes}
        → transfer (s.connections h).reading ≡ some (length bytes)
        → perform maps connection_string string_of (on_read true none bytes) h s ≡ some t
        → whole ≡ bytes ++ rest
        → Hears t rest u
        → Hears s whole u

  read-Tells :
      {c d : Connection} (bytes : Bytes)
      → on_read true none bytes c ≡ some d
      → IsHeard c
      → Tells c d
  read-Tells {c} bytes q is_heard =
      Ends-some (subst (Ends c) q (on_read-Ends true none bytes c is_heard))

  Delivers-Tells : {c d : Connection} {bytes : Bytes} → Delivers c bytes d → IsHeard c → Tells c d
  Delivers-Tells {c} Delivers.done is_heard = Tells-refl c
  Delivers-Tells {c} {d} (Delivers.read {c' = c'} bytes p q e more) is_heard =
      let first : Tells c c' = read-Tells bytes q is_heard in
      Tells-trans c c' d first (Delivers-Tells more (Tells-IsHeard c c' first is_heard))

  Delivers-Hears :
      {c d : Connection} {bytes : Bytes}
      → Delivers c bytes d
      → (s : JuceServer Table) (events : List Event) → s.connections h ≡ c
      → IsHeard c
      → d.log ≡ c.log ++ events
      → All IsSized events
      → (t : JuceServer Table) × Hears s bytes t
        × (t.connections h ≡ d)
        × (t.calls ≡ s.calls ++ heard_all connection_string string_of h events)
  Delivers-Hears {c} Delivers.done s events at is_heard logged z =
      let no_events : [] ≡ events =
        (exact-cut c.log [] c.log events (append-nil c.log ∙ logged) refl).1 in
      (
        s,
        done,
        at,
        sym (append-nil s.calls)
            ∙ ap (λ l. s.calls ++ heard_all connection_string string_of h l) no_events,
      )
  Delivers-Hears {c} {d} (Delivers.read {c' = c'} bytes p q e more) s events at is_heard logged z =
      let first : Tells c c' = read-Tells bytes q is_heard in
      let heard' : IsHeard c' = Tells-IsHeard c c' first is_heard in
      let later : Tells c' d = Delivers-Tells more heard' in
      let both : events ≡ first.events ++ later.events =
        all_events c.log first.events later.events logged first.logged later.logged in
      let z' : All IsSized (first.events ++ later.events) = subst (All IsSized) both z in
      let (u, performed, calls, same) =
        perform-Called maps connection_string string_of h (on_read true none bytes) s c'
          first.events (ap (on_read true none bytes) at ∙ q)
          (first.logged ∙ ap (λ (x : Connection). x.log ++ first.events) (sym at))
          (All-split IsSized first.events later.events z').0 in
      let (t, hears, at', calls') =
        Delivers-Hears more u later.events (updated h c' s.connections u.connections same) heard'
          later.logged (All-split IsSized first.events later.events z').1 in
      (
        t,
        read bytes (ap (λ (x : Connection). transfer x.reading) at ∙ p) performed e hears,
        at',
        calls'
            ∙ ap (λ l. l ++ heard_all connection_string string_of h later.events) calls
            ∙ append_assoc s.calls (heard_all connection_string string_of h first.events)
                (heard_all connection_string string_of h later.events)
            ∙ ap (◌++◌ s.calls) (
                sym (heard_all-append connection_string string_of h first.events later.events)
                ∙ ap (heard_all connection_string string_of h) (sym both)),
      )
    where
      all_events :
          (log xs ys : List Event) {log' log'' events : List Event}
          → log'' ≡ log ++ events
          → log' ≡ log ++ xs
          → log'' ≡ log' ++ ys
          → events ≡ xs ++ ys
      all_events log xs ys {events = events} a b c =
          (exact-cut log events log (xs ++ ys)
            (sym a ∙ c ∙ ap (λ l. l ++ ys) b ∙ append_assoc log xs ys) refl).1

  -- A final text or binary frame of a client, masked with any four bytes, of a size that fits,
  -- read by a connection of the server that waits for a frame and keeps no fragments, and that
  -- has the four callbacks of the server: the listeners are called exactly once, with the text
  -- of the connection's address and the text or the very bytes that the client has sent; the
  -- connection then waits for the next frame.
  pub frame-Hears :
      (op : ℕ) (sent : Sent) (s : JuceServer Table)
      → (s.connections h).reading ≡ read_head
      → (s.connections h).fragmented_in_message ≡ none
      → IsHeard (s.connections h)
      → (s.connections h).handlers.on_message ≡ true
      → ((op ≡ 129) ⊎ (op ≡ 130))
      → length sent.payload + 4 < size_t_mod
      → Fits (length sent.payload) (s.connections h)
      → (t : JuceServer Table) × Hears s (frame_of op sent) t
        × ((t.connections h).reading ≡ read_head)
        × (t.calls
            ≡ s.calls
              ++ (if op == 129
                  then message_received (connection_string h) (string_of sent.payload)
                  else data_received (connection_string h) sent.payload)
                ∷ [])
  frame-Hears op sent s waits whole is_heard tells kind small fits =
      let c = s.connections h in
      let (t, hears, at, calls) =
        Delivers-Hears
          (Delivers-message op sent c waits whole (final_data kind) (data_op kind) small fits) s
          (received op (length sent.payload) sent.payload ∷ []) refl is_heard
          (ap (λ b. c.log ++ told b (received op (length sent.payload) sent.payload)) tells)
          (refl, tt) in
      (
        t,
        hears,
        ap (λ (x : Connection). x.reading) at,
        calls ∙ ap (◌++◌ s.calls) (one_call sent.payload kind),
      )
    where
      final_data : {op : ℕ} → (op ≡ 129) ⊎ (op ≡ 130) → is_final op ≡ true
      final_data (inl e) = rw e refl
      final_data (inr e) = rw e refl

      data_op : {op : ℕ} → (op ≡ 129) ⊎ (op ≡ 130) → IsData op
      data_op (inl e) = (λ z. omega arith, λ z. omega arith, λ z. omega arith, λ z. omega arith)
      data_op (inr e) = (λ z. omega arith, λ z. omega arith, λ z. omega arith, λ z. omega arith)

      one_call :
          {op : ℕ} (text : Bytes)
          → (op ≡ 129) ⊎ (op ≡ 130)
          → heard_all connection_string string_of h (received op (length text) text ∷ [])
            ≡ (if op == 129
                then message_received (connection_string h) (string_of text)
                else data_received (connection_string h) text)
              ∷ []
      one_call text (inl e) = rw e refl
      one_call text (inr e) = rw e refl

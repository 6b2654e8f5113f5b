-- ===== src/JuceServer/Hearing.antt =====
-- SimpleWebSocketServer.cpp: what the listeners hear of the frames that a client sends.
use juce_simpleweb.Prelude.{
  ==_refl, ℕ, ◌+◌, ◌≡◌, refl, sym, ap, ◌∙◌, inl, inr, true, Option, some, List, [], ◌∷◌, ◌++◌,
  append-nil, append_assoc, arith, ◌==◌, leb, if◌then◌else◌, length, take-append, drop, drop-append,
  Bytes, Bool-cases, ◌>>=◌, All,
}
use juce_simpleweb.HashMap.{HashMap}
use juce_simpleweb.WsServer.{Event, opened, pinged, ponged, received, closes, fails, Connection}
use juce_simpleweb.JuceServer.{
  Call, connection_opened, message_received, data_received, connection_closed, connection_error,
  JuceServer, update, memory_block, perform, call_back, call_each, on_message_callback,
  on_new_connection_callback, on_connection_close_callback, on_error_callback,
}

-- The size that a message tells is that of its buffer.
abbrev pub IsSized : Event → Type 0
IsSized (received op size text) = size ≡ length text
IsSized e = Unit {0}

-- What a listener is told.
module _ (connection_string : ℕ → Bytes) (string_of : Bytes → Bytes) (h : ℕ) where
  abbrev pub heard : Event → List Call
  heard opened = connection_opened (connection_string h) ∷ []
  heard pinged = []
  heard ponged = []
  heard (received op size text) =
      if op == 129
      then message_received (connection_string h) (string_of text) ∷ []
      else if op == 130
      then data_received (connection_string h) text ∷ []
      else []
  heard (closes status reason) =
      connection_closed (connection_string h) status (string_of reason) ∷ []
  heard (fails ec) = connection_error (connection_string h) ec ∷ []

  abbrev pub heard_all : List Event → List Call
  heard_all [] = []
  heard_all (e ∷ events) = heard e ++ heard_all events

  pub heard_all-append : (xs ys : List Event) → heard_all (xs ++ ys) ≡ heard_all xs ++ heard_all ys
  heard_all-append [] ys = refl
  heard_all-append (e ∷ xs) ys = simp (heard_all-append xs ys, append_assoc)

pub memory_block-sized : (text : Bytes) → memory_block (length text) text ≡ some text
memory_block-sized text =
    let room : leb (length text) (length text + 1) ≡ true = ground arith in
    rw room (ap some (take-append text (0 ∷ [])))

pub updated :
    (h : ℕ) (c : Connection) (connections connections' : ℕ → Connection)
    → connections' ≡ update h c connections
    → connections' h ≡ c
updated h c connections connections' e = ap (λ (cs : ℕ → Connection). cs h) e ∙ here
  where
    here : update h c connections h ≡ c
    here = rw (==_refl h) refl

module _ (maps : HashMap ℕ) (connection_string : ℕ → Bytes) (string_of : Bytes → Bytes)
    (h : ℕ) where
  open maps use {Table}

  -- The outcome of callbacks: these calls, and the connections as they were.
  abbrev Called : List Event → JuceServer Table → Option (JuceServer Table) → Type 0
  Called events s result =
      (t : JuceServer Table) × (result ≡ some t)
      × (t.calls ≡ s.calls ++ heard_all connection_string string_of h events)
      × (t.connections ≡ s.connections)

  call_back-Called :
      (e : Event) (s : JuceServer Table)
      → IsSized e
      → (t : JuceServer Table) × (call_back maps connection_string string_of h e s ≡ some t)
        × (t.calls ≡ s.calls ++ heard connection_string string_of h e)
        × (t.connections ≡ s.connections)
  unfolding call_back on_message_callback on_new_connection_callback on_connection_close_callback
      on_error_callback
  call_back-Called opened s z = (_, refl, refl, refl)
  call_back-Called pinged s z = (s, refl, sym (append-nil s.calls), refl)
  call_back-Called ponged s z = (s, refl, sym (append-nil s.calls), refl)
  call_back-Called (closes status reason) s z = (_, refl, refl, refl)
  call_back-Called (fails ec) s z = (_, refl, refl, refl)
  call_back-Called (received op size text) s z = elim (Bool-cases (op == 129)) [
    | inl e ↦ rw e (_, refl, refl, refl)
    | inr e ↦ rw e (elim (Bool-cases (op == 130)) [
      | inl f ↦ rw (f, z, memory_block-sized text) (_, refl, refl, refl)
      | inr f ↦ rw f (s, refl, sym (append-nil s.calls), refl)
    ])
  ]

  pub call_each-Called :
      (events : List Event) (s : JuceServer Table)
      → All IsSized events
      → Called events s (call_each maps connection_string string_of h events s)
  unfolding call_each
  call_each-Called [] s z = (s, refl, sym (append-nil s.calls), refl)
  call_each-Called (e ∷ events) s (z, zs) =
      let (t, p, calls, same) = call_back-Called e s z in
      let (u, q, calls', same') = call_each-Called events t zs in
      (
        u,
        ap (λ o. o >>= call_each maps connection_string string_of h events) p ∙ q,
        calls'
            ∙ ap (λ l. l ++ heard_all connection_string string_of h events) calls
            ∙ append_assoc s.calls (heard connection_string string_of h e)
                (heard_all connection_string string_of h events),
        same' ∙ same,
      )

  pub perform-Called :
      (f : Connection → Option Connection) (s : JuceServer Table) (c : Connection)
      (events : List Event)
      → f (s.connections h) ≡ some c
      → c.log ≡ (s.connections h).log ++ events
      → All IsSized events
      → (t : JuceServer Table) × (perform maps connection_string string_of f h s ≡ some t)
        × (t.calls ≡ s.calls ++ heard_all connection_string string_of h events)
        × (t.connections ≡ update h c s.connections)
  unfolding perform
  perform-Called f s c events e logged z =
      let s' : JuceServer Table = record s { connections = update h c s.connections } in
      let (t, p, calls, same) = call_each-Called events s' z in
      let told : drop (length (s.connections h).log) c.log ≡ events =
        ap (drop (length (s.connections h).log)) logged
        ∙ drop-append (s.connections h).log events in
      (
        t,
        ap
              (λ o. o >>= λ d.
                call_each maps connection_string string_of h
                  (drop (length (s.connections h).log) d.log)
                  (record s { connections = update h d s.connections }))
              e
            ∙ ap (λ l. call_each maps connection_string string_of h l s') told
            ∙ p,
        calls,
        same,
      )

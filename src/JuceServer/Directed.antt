-- ===== src/JuceServer/Directed.antt =====
-- SimpleWebSocketServer.cpp: `sendTo` and `closeConnection`, which name one connection, and the
-- end of the server.
use juce_simpleweb.Prelude.{
  ℕ, ◌≡◌, refl, sym, ap, ◌∙◌, inl, inr, Bool, true, false, Option, none, some, List, [], ◌∷◌, ◌==◌,
  ==_refl, ==_iff, if◌then◌else◌, has, Bytes, codes, Bool-cases, Option-cases, some_inj,
  false-ne-true,
}
use juce_simpleweb.HashMap.{HashMap}
use juce_simpleweb.WsServer.{Connection, send, send_close, close_message}
use juce_simpleweb.WsServer.Limits.{frame_for, send-queues}
use juce_simpleweb.SendQueue.Total.{enqueue-total}
use juce_simpleweb.JuceServer.Sending.{send-total}
use juce_simpleweb.JuceServer.{
  JuceServer, update, to_id, send_text_to, send_data_to, close_connection, close_each, close_held,
}
use juce_simpleweb.JuceServer.Lifecycle.{joined, IsTracked}

send_close_again :
    (status : ℕ) (reason : Bytes) (c : Connection)
    → c.closed ≡ true
    → send_close status reason none c ≡ some c
unfolding send_close
send_close_again status reason c e =
    ap
      (λ b.
        if b
        then some c
        else send (close_message status reason) none 136 (record c { closed = true }))
      e

send_close_first :
    (status : ℕ) (reason : Bytes) (c : Connection)
    → c.closed ≡ false
    → send_close status reason none c
      ≡ send (close_message status reason) none 136 (record c { closed = true })
unfolding send_close
send_close_first status reason c e =
    ap
      (λ b.
        if b
        then some c
        else send (close_message status reason) none 136 (record c { closed = true }))
      e

send-closed :
    (message : Bytes) (op : ℕ) (c d : Connection)
    → send message none op c ≡ some d
    → d.closed ≡ c.closed
send-closed message op c d e =
    let (q, f) = enqueue-total (frame_for op message) none c.queue in
    ap (λ (x : Connection). x.closed) (some_inj (sym e ∙ send-queues message none op c q f))

-- A close frame can always be sent, and after the first one the connection stays as it is.
send_close_once :
    (status : ℕ) (reason : Bytes) (c : Connection)
    → (d : Connection) × (send_close status reason none c ≡ some d)
      × (send_close status reason none d ≡ some d)
send_close_once status reason c = elim (Bool-cases c.closed) [
  | inl e ↦ (c, send_close_again status reason c e, send_close_again status reason c e)
  | inr e ↦
      let (d, f) = send-total (close_message status reason) 136 (record c { closed = true }) in
      (
        d,
        send_close_first status reason c e ∙ f,
        send_close_again status reason d
            (send-closed (close_message status reason) 136 (record c { closed = true }) d f),
      )
]

close_each-closes :
    (held : List ℕ) (before : ℕ → Connection)
    → (after : ℕ → Connection) × (close_each held before ≡ some after)
      × ((h : ℕ)
          → (if has held h
              then send_close 1000 (codes "Server destroyed") none (before h)
              else some (before h))
            ≡ some (after h))
unfolding close_each
close_each-closes [] before = (before, refl, λ h. refl)
close_each-closes (g ∷ held) before =
    let (c, e, again) = send_close_once 1000 (codes "Server destroyed") (before g) in
    let (after, f, closed) = close_each-closes held (update g c before) in
    (
      after,
      rw e f,
      λ h. elim (Bool-cases (h == g)) [
        | inl same ↦
            let p : h ≡ g = (==_iff h g).0 same in
            rw (same, p) (e ∙ closed_first (has held g) again (rw (==_refl g) at (closed g)))
        | inr other ↦ rw other (rw other at (closed h))
      ],
    )
  where
    closed_first :
        (b : Bool) {c d : Connection}
        → send_close 1000 (codes "Server destroyed") none c ≡ some c
        → (if b then send_close 1000 (codes "Server destroyed") none c else some c) ≡ some d
        → some c ≡ some d
    closed_first true again e = sym again ∙ e
    closed_first false again e = e

module _ (maps : HashMap ℕ) (connection_string : ℕ → Bytes) (string_of : Bytes → Bytes) where
  open maps use {Table, get}

  -- The call reached this connection alone, and left the map and the listeners.
  abbrev pub Reached :
      (Connection → Option Connection) → ℕ → JuceServer Table → Option (JuceServer Table) → Type 0
  Reached f h s result =
      (c : Connection) × (f (s.connections h) ≡ some c)
      × (result ≡ some (record s { connections = update h c s.connections }))

  contains-get :
      (id : Bytes) (s : JuceServer Table) (h : ℕ)
      → get id s.connection_map ≡ some h
      → maps.contains id s.connection_map ≡ true
  contains-get id s h e = rw (maps.contains_lem id s.connection_map, e) refl

  to_id-Reached :
      (f : Connection → Option Connection) (h : ℕ) (s : JuceServer Table)
      → IsTracked maps connection_string string_of s
      → joined maps connection_string string_of s h ≡ true
      → ((c : Connection) × (f (s.connections h) ≡ some c))
      → Reached f h s (to_id maps f (connection_string h) s)
  to_id-Reached f h s tracked j (c, e) =
      let found : get (connection_string h) s.connection_map ≡ some h =
        (tracked.agrees (connection_string h) h).1 (refl, j) in
      (c, e, rw (contains-get (connection_string h) s h found, found, e) refl)

  to_id-unheld :
      (f : Connection → Option Connection) (id : Bytes) (s : JuceServer Table)
      → IsTracked maps connection_string string_of s
      → ((h : ℕ) → connection_string h ≡ id → joined maps connection_string string_of s h ≡ false)
      → to_id maps f id s ≡ some s
  to_id-unheld f id s tracked free = elim (Option-cases (get id s.connection_map)) [
    | inl e ↦ rw (maps.contains_lem id s.connection_map) (rw e refl)
    | inr (h, e) ↦
        let (k, j) = (tracked.agrees id h).0 e in absurd (false-ne-true (sym (free h k) ∙ j))
  ]

  -- In a state that is tracked (the map holds exactly the connections that the endpoint holds,
  -- each under the text of its address): `sendTo` of a text, `sendTo` of bytes and
  -- `closeConnection` with the id of a connection that the endpoint holds return. They send that
  -- connection the text frame, the binary frame or the close frame, and change no other
  -- connection, the map or the calls of the listeners.
  pub to_id-held :
      (message : Bytes) (status h : ℕ) (s : JuceServer Table)
      → IsTracked maps connection_string string_of s
      → joined maps connection_string string_of s h ≡ true
      → Reached (send message none 129) h s (send_text_to maps message (connection_string h) s)
        × Reached (send message none 130) h s (send_data_to maps message (connection_string h) s)
        × Reached
            (send_close status message none)
            h
            s
            (close_connection maps (connection_string h) status message s)
  unfolding send_text_to send_data_to close_connection
  to_id-held message status h s tracked j = (
    to_id-Reached (send message none 129) h s tracked j (send-total message 129 (s.connections h)),
    to_id-Reached (send message none 130) h s tracked j (send-total message 130 (s.connections h)),
    to_id-Reached (send_close status message none) h s tracked j
        (let (d, e, _) = send_close_once status message (s.connections h) in (d, e)),
  )

  -- With an id that no held connection has they change nothing.
  pub to_id-free :
      (message : Bytes) (status : ℕ) (id : Bytes) (s : JuceServer Table)
      → IsTracked maps connection_string string_of s
      → ((g : ℕ) → connection_string g ≡ id → joined maps connection_string string_of s g ≡ false)
      → (send_text_to maps message id s ≡ some s)
        × (send_data_to maps message id s ≡ some s)
        × (close_connection maps id status message s ≡ some s)
  unfolding send_text_to send_data_to close_connection
  to_id-free message status id s tracked free = (
    to_id-unheld (send message none 129) id s tracked free,
    to_id-unheld (send message none 130) id s tracked free,
    to_id-unheld (send_close status message none) id s tracked free,
  )

  -- The part of `stopInternal` on the connections returns. Afterwards no id names a connection. Every
  -- connection that the endpoint held, in whatever order and however often it is listed, was
  -- given the close frame with status 1000 and the reason Server destroyed, unless one was sent
  -- before; no other connection is changed, and no listener is called.
  pub close_held-closes :
      (held : List ℕ) (s : JuceServer Table)
      → (t : JuceServer Table) × (close_held maps held s ≡ some t)
        × (t.calls ≡ s.calls)
        × ((k : Bytes) → get k t.connection_map ≡ none)
        × ((h : ℕ)
            → (if has held h
                then send_close 1000 (codes "Server destroyed") none (s.connections h)
                else some (s.connections h))
              ≡ some (t.connections h))
  unfolding close_held
  close_held-closes held s =
      let (after, e, closed) = close_each-closes held s.connections in
      (_, rw e refl, refl, λ k. maps.get-clear k s.connection_map, closed)

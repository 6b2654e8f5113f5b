-- ===== src/JuceServer/Lifecycle.antt =====
-- SimpleWebSocketServer.cpp: the map of the connections against the set that the endpoint of the
-- socket server holds, over the operations on connections with the callbacks that they make.
use juce_simpleweb.Prelude.{
  ℕ, ◌≡◌, refl, sym, ap, subst, ◌∙◌, inl, inr, Bool, Option, some, List, [], ◌∷◌, arith, ◌==◌,
  ==_refl, length, drop, drop-append, Bytes, Bool-cases, Option-cases, none-ne-some, some_inj,
}
use mathlib.Core.Path.{fun_ext}
use juce_simpleweb.HashMap.{HashMap}
use juce_simpleweb.WsServer.{Event, opened, pinged, ponged, received, closes, fails, Connection}
use juce_simpleweb.WsServer.Events.{
  IsHeard, Tells, Ends, Ends-some, Tells-IsHeard, held_after, held_after_all,
}
use juce_simpleweb.JuceServer.Agreement.{
  Agrees, IsAlone, hold, hold-IsAlone, set-Agrees, remove-Agrees, hold_same, hold_twice,
}
use juce_simpleweb.JuceServer.{
  JuceServer, update, call_back, call_each, perform, on_message_callback,
  on_new_connection_callback, on_connection_close_callback, on_error_callback,
}

abbrev joined_in : (ℕ → Connection) → ℕ → Bool
joined_in connections h = (connections h).joined

module _ (maps : HashMap ℕ) (connection_string : ℕ → Bytes) (string_of : Bytes → Bytes) where
  open maps use {Table, get, set, remove}

  -- What a callback does to the map.
  abbrev map_after : ℕ → Event → Table → Table
  map_after h opened t = set (connection_string h) h t
  map_after h (closes status reason) t = remove (connection_string h) t
  map_after h (fails ec) t = remove (connection_string h) t
  map_after h e t = t

  on_message_callback-same :
      (h op size : ℕ) (text : Bytes) (s : JuceServer Table) {t : JuceServer Table}
      → on_message_callback maps connection_string string_of h op size text s ≡ some t
      → (t.connection_map ≡ s.connection_map) × (t.connections ≡ s.connections)
  unfolding on_message_callback
  on_message_callback-same h op size text s e = ground (arith, e)

  call_back-map :
      (h : ℕ) (e : Event) (s : JuceServer Table) {t : JuceServer Table}
      → call_back maps connection_string string_of h e s ≡ some t
      → (t.connection_map ≡ map_after h e s.connection_map) × (t.connections ≡ s.connections)
  unfolding call_back on_new_connection_callback on_connection_close_callback on_error_callback
  call_back-map h opened s e = ground (arith, e)
  call_back-map h pinged s e = ground (arith, e)
  call_back-map h ponged s e = ground (arith, e)
  call_back-map h (received op size text) s e = on_message_callback-same h op size text s e
  call_back-map h (closes status reason) s e = ground (arith, e)
  call_back-map h (fails ec) s e = ground (arith, e)

  map_after-Agrees :
      (h : ℕ) (e : Event) (held : ℕ → Bool) (t : Table)
      → IsAlone maps connection_string h held
      → Agrees maps connection_string held t
      → Agrees maps connection_string (hold h (held_after e (held h)) held) (map_after h e t)
  map_after-Agrees h opened held t alone a = set-Agrees maps connection_string h held t alone a
  map_after-Agrees h pinged held t alone a =
      subst (λ u. Agrees maps connection_string u t) (sym (hold_same h held)) a
  map_after-Agrees h ponged held t alone a =
      subst (λ u. Agrees maps connection_string u t) (sym (hold_same h held)) a
  map_after-Agrees h (received op size text) held t alone a =
      subst (λ u. Agrees maps connection_string u t) (sym (hold_same h held)) a
  map_after-Agrees h (closes status reason) held t alone a =
      remove-Agrees maps connection_string h held t alone a
  map_after-Agrees h (fails ec) held t alone a =
      remove-Agrees maps connection_string h held t alone a

  call_each-Agrees :
      (h : ℕ) (events : List Event) (held : ℕ → Bool) (s : JuceServer Table) {t : JuceServer Table}
      → IsAlone maps connection_string h held
      → Agrees maps connection_string held s.connection_map
      → call_each maps connection_string string_of h events s ≡ some t
      → Agrees maps connection_string
          (hold h (held_after_all events (held h)) held)
          t.connection_map
        × (t.connections ≡ s.connections)
  unfolding call_each
  call_each-Agrees h [] held s alone a e =
      subst
        (λ u.
          Agrees maps connection_string (hold h (held h) held) u.connection_map
          × (u.connections ≡ s.connections))
        (some_inj e)
        (
          subst (λ u. Agrees maps connection_string u s.connection_map) (sym (hold_same h held)) a,
          refl,
        )
  call_each-Agrees h (x ∷ events) held s {t} alone a e =
      elim (Option-cases (call_back maps connection_string string_of h x s)) [
        | inl f ↦ absurd (none-ne-some (rw f at e))
        | inr (u, f) ↦
            let b : Bool = held_after x (held h) in
            let (m, c) = call_back-map h x s f in
            let (a', c') =
              call_each-Agrees h events (hold h b held) u
                (hold-IsAlone maps connection_string h b held alone)
                (subst (Agrees maps connection_string (hold h b held)) (sym m)
                  (map_after-Agrees h x held s.connection_map alone a))
                (rw f at e) in
            (
              subst (λ v. Agrees maps connection_string v t.connection_map)
                  (hold_twice h b (held_after_all events b) held) (rw (==_refl h) at a'),
              c' ∙ c,
            )
      ]

  abbrev pub joined : JuceServer Table → ℕ → Bool
  joined s h = (s.connections h).joined

  -- The map agrees with the endpoint, and the endpoint's callbacks are set.
  pub record IsTracked (s : JuceServer Table) : Type 0 where
    pub agrees : Agrees maps connection_string (joined s) s.connection_map
    pub heard : (h : ℕ) → IsHeard (s.connections h)

  joined-update :
      (h : ℕ) (c : Connection) (connections : ℕ → Connection)
      → hold h c.joined (λ g. (connections g).joined) ≡ (λ g. (update h c connections g).joined)
  joined-update h c connections =
      fun_ext (λ g. elim (Bool-cases (g == h)) [ inl e ↦ rw e refl | inr e ↦ rw e refl ])

  update-IsHeard :
      (h : ℕ) (c : Connection) (connections : ℕ → Connection)
      → ((g : ℕ) → IsHeard (connections g))
      → IsHeard c
      → (g : ℕ) → IsHeard (update h c connections g)
  update-IsHeard h c connections all this g = elim (Bool-cases (g == h)) [
    | inl e ↦ rw e this
    | inr e ↦ rw e (all g)
  ]

  pub perform-IsTracked :
      (f : Connection → Option Connection) (h : ℕ) (s : JuceServer Table) {t : JuceServer Table}
      → IsTracked s
      → IsAlone maps connection_string h (joined s)
      → Ends (s.connections h) (f (s.connections h))
      → perform maps connection_string string_of f h s ≡ some t
      → IsTracked t
  unfolding perform
  perform-IsTracked f h s {t} tracked alone ends e = elim (Option-cases (f (s.connections h))) [
    | inl none_left ↦ absurd (none-ne-some (rw none_left at e))
    | inr (c, given) ↦
        let tells : Tells (s.connections h) c = Ends-some (rw given at ends) in
        let after : ℕ → Connection = update h c s.connections in
        let told : drop (length (s.connections h).log) c.log ≡ tells.events =
          ap (drop (length (s.connections h).log)) tells.logged
          ∙ drop-append (s.connections h).log tells.events in
        let (a, same) =
          call_each-Agrees h tells.events (joined s) (record s { connections = after }) alone
            tracked.agrees
            (subst
              (λ events.
                call_each maps connection_string string_of h events
                  (record s { connections = after })
                ≡ some t)
              told (rw given at e)) in
        record {
          agrees =
              subst (λ held. Agrees maps connection_string held t.connection_map)
                (joined-update h c s.connections ∙ ap joined_in (sym same))
                (subst (λ b. Agrees maps connection_string (hold h b (joined s)) t.connection_map)
                  (sym tells.held) a);
          heard =
              subst (λ (cs : ℕ → Connection). (g : ℕ) → IsHeard (cs g)) (sym same)
                (update-IsHeard h c s.connections tracked.heard
                  (Tells-IsHeard (s.connections h) c tells (tracked.heard h)));
        }
  ]

-- ===== src/JuceServer/Sending.antt =====
-- SimpleWebSocketServer.cpp: which connections the loops of `send` and `sendExclude` reach.
use juce_simpleweb.Prelude.{
  none-ne-some, and_false, ℕ, ◌≡◌, refl, sym, ap, subst, ◌∙◌, inl, inr, Bool, true, false, not,
  ◌&&◌, Option, none, some, List, [], ◌∷◌, arith, ◌==◌, ==_refl, ==_iff, ne→==_false, if◌then◌else◌,
  Bytes, bytes_eq, bytes_eq→≡, bytes_eq_refl, Bool-cases, All,
}
use juce_simpleweb.HashMap.{lookup, Apart}
use juce_simpleweb.WsServer.{Connection, send}
use juce_simpleweb.WsServer.Limits.{frame_for, send-queues}
use juce_simpleweb.SendQueue.Total.{enqueue-total}
use juce_simpleweb.JuceServer.{update, contains, send_each_but}

-- Whether a map names this very connection.
abbrev pub names : ℕ → Option ℕ → Bool
names h none = false
names h (some g) = g == h

pub send-total :
    (message : Bytes) (op : ℕ) (c : Connection)
    → (d : Connection) × (send message none op c ≡ some d)
send-total message op c =
    let (q, e) = enqueue-total (frame_for op message) none c.queue in
    (_, send-queues message none op c q e)

module _ (connection_string : ℕ → Bytes) where
  -- Whether a loop that leaves these ids out reaches a connection.
  abbrev pub reached : List Bytes → ℕ → Option ℕ → Bool
  reached exclude_ids h found = not (contains exclude_ids (connection_string h)) && names h found

  abbrev pub Named : List (Bytes × ℕ) → Type 0
  Named visited = All (λ (e : Bytes × ℕ). connection_string e.1 ≡ e.0) visited

  module _ (op : ℕ) (message : Bytes) (exclude_ids : List Bytes) where
    -- Each connection that is reached has sent the message once, and each other is as it was.
    abbrev pub Sent : List (Bytes × ℕ) → (ℕ → Connection) → (ℕ → Connection) → Type 0
    Sent visited before after =
        (h : ℕ)
        → (if reached exclude_ids h (lookup (connection_string h) visited)
            then send message none op (before h)
            else some (before h))
          ≡ some (after h)

    Sent-skip :
        (id : Bytes) (g : ℕ) (visited : List (Bytes × ℕ)) (before after : ℕ → Connection)
        → contains exclude_ids id ≡ true
        → Sent visited before after
        → Sent ((id, g) ∷ visited) before after
    Sent-skip id g visited before after x s h =
        elim (Bool-cases (bytes_eq id (connection_string h))) [
          | inl e ↦
              let left_out : contains exclude_ids (connection_string h) ≡ true =
                ap (contains exclude_ids) (sym (bytes_eq→≡ id (connection_string h) e)) ∙ x in
              rw left_out (rw left_out at (s h))
          | inr e ↦ rw e (s h)
        ]

    module _ (g : ℕ) (visited : List (Bytes × ℕ)) (c : Connection) (before after : ℕ → Connection)
        (x : contains exclude_ids (connection_string g) ≡ false)
        (apart : lookup (connection_string g) visited ≡ none)
        (s : Sent visited (update g c before) after) where
      sent_self : some (after g) ≡ some c
      sent_self = sym (rw (apart, x, ==_refl g) at (s g))

      unreached_other :
          (h : ℕ)
          → (h == g) ≡ false
          → bytes_eq (connection_string g) (connection_string h) ≡ true
          → some (before h) ≡ some (after h)
      unreached_other h n e =
          let same : lookup (connection_string h) visited ≡ none =
            ap (λ k. lookup k visited) (sym (bytes_eq→≡ _ _ e)) ∙ apart in
          rw (same, and_false, n) at (s h)

      sent_other :
          (h : ℕ)
          → (h == g) ≡ false
          → (if reached exclude_ids h
                (lookup (connection_string h) ((connection_string g, g) ∷ visited))
              then send message none op (before h)
              else some (before h))
            ≡ some (after h)
      sent_other h n = elim (Bool-cases (bytes_eq (connection_string g) (connection_string h))) [
        | inl e ↦
            let apart' : (g == h) ≡ false = ne→==_false g h (λ p. ground (arith, p)) in
            rw (e, apart', and_false) (unreached_other h n e)
        | inr e ↦ rw e (rw n at (s h))
      ]

      Sent-send :
          send message none op (before g) ≡ some c
          → Sent ((connection_string g, g) ∷ visited) before after
      Sent-send sent h = elim (Bool-cases (h == g)) [
        | inl e ↦
            rw ((==_iff h g).0 e)
              (rw (bytes_eq_refl (connection_string g), x, ==_refl g) (sent ∙ sym sent_self))
        | inr n ↦ sent_other h n
      ]

    -- The loop of `sendExclude` over entries that hold each connection under its own id.
    pub send_each_but-Sent :
        (visited : List (Bytes × ℕ)) (before : ℕ → Connection)
        → Apart visited
        → Named visited
        → (after : ℕ → Connection) × (send_each_but exclude_ids op message visited before
            ≡ some after)
          × Sent visited before after
    unfolding send_each_but
    send_each_but-Sent [] before a n = (before, refl, λ h. rw and_false refl)
    send_each_but-Sent ((id, g) ∷ visited) before (a, apart) (n, ns) =
        elim (Bool-cases (contains exclude_ids id)) [
          | inl x ↦
              let (after, e, s) = send_each_but-Sent visited before apart ns in
              (after, rw x e, Sent-skip id g visited before after x s)
          | inr x ↦
              let (c, f) = send-total message op (before g) in
              let (after, e, s) = send_each_but-Sent visited (update g c before) apart ns in
              (
                after,
                rw (x, f) e,
                subst (λ k. Sent ((k, g) ∷ visited) before after) n
                    (Sent-send g visited c before after (ap (contains exclude_ids) n ∙ x)
                      (ap (λ k. lookup k visited) n ∙ a) s f),
              )
        ]

  Named-tail :
      (id : Bytes) (g : ℕ) (visited : List (Bytes × ℕ))
      → Apart ((id, g) ∷ visited)
      → ((k : Bytes) (h : ℕ) → lookup k ((id, g) ∷ visited) ≡ some h → connection_string h ≡ k)
      → (k : Bytes) (h : ℕ) → lookup k visited ≡ some h
      → connection_string h ≡ k
  Named-tail id g visited (a, _) keyed k h e = elim (Bool-cases (bytes_eq id k)) [
    | inl same ↦
        let gone : lookup k visited ≡ none =
          ap (λ j. lookup j visited) (sym (bytes_eq→≡ id k same)) ∙ a in
        absurd (none-ne-some (sym gone ∙ e))
    | inr other ↦ keyed k h (rw other e)
  ]

  pub Named-entries :
      (visited : List (Bytes × ℕ))
      → Apart visited
      → ((k : Bytes) (h : ℕ) → lookup k visited ≡ some h → connection_string h ≡ k)
      → Named visited
  Named-entries [] a keyed = tt
  Named-entries ((id, g) ∷ visited) a keyed = (
    keyed id g (rw (bytes_eq_refl id) refl),
    Named-entries visited a.1 (Named-tail id g visited a keyed),
  )

-- ===== src/JuceServer/Agreement.antt =====
-- SimpleWebSocketServer.cpp: the map of the connections, by the texts of their addresses, against a
-- set of connections, when one joins it or leaves it.
use juce_simpleweb.Prelude.{
  ℕ, ◌≡◌, ◌↔◌, refl, sym, ap, ◌∙◌, inl, inr, Bool, true, false, some, arith, ◌==◌, ==_iff,
  if◌then◌else◌, Bytes, bytes_eq, bytes_eq→≡, bytes_eq_refl, Bool-cases, none-ne-some,
  false-ne-true,
}
use mathlib.Core.Path.{fun_ext}
use juce_simpleweb.HashMap.{HashMap}

-- A connection joins or leaves those that are held.
abbrev pub hold : ℕ → Bool → (ℕ → Bool) → ℕ → Bool
hold h b held g = if g == h then b else held g

pub hold_same : (h : ℕ) (held : ℕ → Bool) → hold h (held h) held ≡ held
hold_same h held = fun_ext (λ g. elim (Bool-cases (g == h)) [
  | inl e ↦ rw e (ap held (sym ((==_iff g h).0 e)))
  | inr e ↦ rw e refl
])

pub hold_twice : (h : ℕ) (a b : Bool) (held : ℕ → Bool) → hold h b (hold h a held) ≡ hold h b held
hold_twice h a b held =
    fun_ext (λ g. elim (Bool-cases (g == h)) [ inl e ↦ rw e refl | inr e ↦ rw e refl ])

module _ (maps : HashMap ℕ) (connection_string : ℕ → Bytes) where
  open maps use {Table, get, set, remove}

  -- The map holds a connection under a key exactly if the key is the text of its address and the
  -- connection is held.
  abbrev pub Agrees : (ℕ → Bool) → Table → Type 0
  Agrees held t =
      (k : Bytes) (h : ℕ) → (get k t ≡ some h) ↔ ((connection_string h ≡ k) × (held h ≡ true))

  -- No other connection that is held has the address of this one.
  abbrev pub IsAlone : ℕ → (ℕ → Bool) → Type 0
  IsAlone h held = (g : ℕ) → connection_string g ≡ connection_string h → held g ≡ true → g ≡ h

  pub hold-IsAlone :
      (h : ℕ) (b : Bool) (held : ℕ → Bool) → IsAlone h held → IsAlone h (hold h b held)
  hold-IsAlone h b held alone g e u = elim (Bool-cases (g == h)) [
    | inl same ↦ (==_iff g h).0 same
    | inr other ↦ alone g e (rw other at u)
  ]

  elsewhere :
      (h g : ℕ) (k : Bytes)
      → bytes_eq (connection_string h) k ≡ false
      → connection_string g ≡ k
      → (g == h) ≡ false
  elsewhere h g k e p = elim (Bool-cases (g == h)) [
    | inl same ↦
        let q : connection_string h ≡ k = ap connection_string (sym ((==_iff g h).0 same)) ∙ p in
        cc (sym e, ap (bytes_eq (connection_string h)) (sym q), bytes_eq_refl (connection_string h))
    | inr other ↦ other
  ]

  -- A key that is not the connection's keeps what it has.
  hold-elsewhere :
      (h : ℕ) (b : Bool) (held : ℕ → Bool) (t : Table) (k : Bytes) (g : ℕ)
      → bytes_eq (connection_string h) k ≡ false
      → Agrees held t
      → (get k t ≡ some g) ↔ ((connection_string g ≡ k) × (hold h b held g ≡ true))
  hold-elsewhere h b held t k g e agrees = (
    λ q. let (p, u) = (agrees k g).0 q in (p, rw (elsewhere h g k e p) u),
    λ (p, u). (agrees k g).1 (p, rw (elsewhere h g k e p) at u),
  )

  -- A connection that is opened takes its place in the map.
  pub set-Agrees :
      (h : ℕ) (held : ℕ → Bool) (t : Table)
      → IsAlone h held
      → Agrees held t
      → Agrees (hold h true held) (set (connection_string h) h t)
  set-Agrees h held t alone agrees k g =
      rw (maps.get-set (connection_string h) k h t)
        (elim (Bool-cases (bytes_eq (connection_string h) k)) [
          | inl e ↦
              let p : connection_string h ≡ k = bytes_eq→≡ (connection_string h) k e in
              rw e (
                λ q. (
                  ap connection_string (sym (same q)) ∙ p,
                  rw ((==_iff g h).1 (sym (same q))) refl,
                ),
                λ (r, u). ap some (sym (hold-IsAlone h true held alone g (r ∙ sym p) u)),
              )
          | inr e ↦ rw e (hold-elsewhere h true held t k g e agrees)
        ])
    where
      same : some h ≡ some g → h ≡ g
      same q = ground (arith, q)

  -- One that is closed or fails leaves it.
  pub remove-Agrees :
      (h : ℕ) (held : ℕ → Bool) (t : Table)
      → IsAlone h held
      → Agrees held t
      → Agrees (hold h false held) (remove (connection_string h) t)
  remove-Agrees h held t alone agrees k g =
      rw (maps.get-remove (connection_string h) k t)
        (elim (Bool-cases (bytes_eq (connection_string h) k)) [
          | inl e ↦
              let p : connection_string h ≡ k = bytes_eq→≡ (connection_string h) k e in
              rw e (
                λ q. absurd (none-ne-some q),
                λ (r, u). absurd (gone u (hold-IsAlone h false held alone g (r ∙ sym p) u)),
              )
          | inr e ↦ rw e (hold-elsewhere h false held t k g e agrees)
        ])
    where
      gone : hold h false held g ≡ true → g ≡ h → ⊥
      gone u s = false-ne-true (rw ((==_iff g h).1 s) at u)

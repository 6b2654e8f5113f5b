-- ===== src/SendQueue/Order.antt =====
-- The send queues: one write at a time, in the order of the sends, and each callback once.
use juce_simpleweb.Prelude.{
  ℕ, ◌≤◌, ◌≡◌, inl, inr, refl, true, false, Option, none, some, List, [], ◌∷◌, ltb, length, arith,
  Option-cases, Bool-cases,
}
use juce_simpleweb.SendQueue.{
  OutData, SendQueue, empty, send_from_queue, enqueue, call, call_all, next_write, written,
  on_written, Op, send, complete, step, run,
}

-- At most one write is under way, and it is that of a queued message.
pub record Inv {ℓ} {A : Type ℓ} (q : SendQueue A) : Type 0 where
  pub one_write : q.in_flight ≤ 1
  pub of_first : q.in_flight ≤ length q.send_queue

abbrev Keeps {ℓ} : {A : Type ℓ} → Option (SendQueue A) → Type 0
Keeps none = ⊥
Keeps (some q) = Inv q

module _ {ℓ} {A : Type ℓ} where
  call_all-Inv : (items : List (OutData A)) (q : SendQueue A) → Inv q → Inv (call_all items q)
  unfolding call_all call
  call_all-Inv [] q v = v
  call_all-Inv (item ∷ items) q v =
      call_all-Inv items (call item.callback true q) (call_lem item.callback)
    where
      call_lem : (f : Option ℕ) → Inv (call f true q)
      call_lem none = v
      call_lem (some f) = record { one_write = v.one_write; of_first = v.of_first }

  step-Keeps : (op : Op A) (q : SendQueue A) → Inv q → Keeps (step op q)
  unfolding step enqueue send_from_queue on_written written next_write call
  step-Keeps (send buffers callback) q v = split q.send_queue refl
    where
      split :
          (items : List (OutData A)) → q.send_queue ≡ items → Keeps (step (send buffers callback) q)
      split [] e = ground arith
      split (x ∷ []) e = ground arith
      split (x ∷ y ∷ items) e = ground arith
  step-Keeps (complete true true) q v = elim (Bool-cases (ltb 0 q.in_flight)) [
    | inl busy ↦ rw (busy, step) (call_all-Inv q.send_queue _ (ground arith))
    | inr free ↦ rw free v
  ]
  step-Keeps (complete false failed) q v = ground arith
  step-Keeps (complete true false) q v = split q.send_queue refl
    where
      split :
          (items : List (OutData A)) → q.send_queue ≡ items → Keeps (step (complete true false) q)
      split [] e = ground arith
      split (x ∷ []) e = ground arith
      split (x ∷ y ∷ items) e = ground arith

  run-Keeps : (ops : List (Op A)) (q : SendQueue A) → Inv q → Keeps (run ops q)
  unfolding run
  run-Keeps [] q v = v
  run-Keeps (op ∷ ops) q v = elim (Option-cases (step op q)) [
    | inl fault ↦ absurd (rw fault at (step-Keeps op q v))
    | inr (q', e) ↦ rw (e, run) (run-Keeps ops q' (rw e at (step-Keeps op q v)))
  ]

  empty-Inv : Inv (empty {A = A})
  unfolding empty
  empty-Inv = omega arith

-- Whatever is sent and however the writes end, the code never reads the first entry of an empty
-- queue, at most one write is under way, and a write is under way only while its message is queued.
pub run-empty-Inv {ℓ} :
    {A : Type ℓ} (ops : List (Op A)) → (q : SendQueue A) × (run ops empty ≡ some q) × Inv q
run-empty-Inv ops = elim (Option-cases (run ops empty)) [
  | inl fault ↦ absurd (rw fault at (run-Keeps ops empty empty-Inv))
  | inr (q, e) ↦ (q, e, rw e at (run-Keeps ops empty empty-Inv))
]

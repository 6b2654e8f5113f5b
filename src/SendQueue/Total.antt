-- ===== src/SendQueue/Total.antt =====
-- The send queue: a message can always be queued.
use juce_simpleweb.Prelude.{
  ℕ, ◌≡◌, ◌≢◌, inl, inr, Bool, Option, none, some, List, [], ◌∷◌, arith, length-append,
  Option-cases,
}
use juce_simpleweb.SendQueue.{SendQueue, OutData, enqueue, send_from_queue}

enqueue-some {ℓ} :
    {A : Type ℓ} (buffers : A) (callback : Option ℕ) (items : List (OutData A)) (n : ℕ)
    (st : List A) (ca : List (ℕ × Bool))
    → enqueue buffers callback
        (record { send_queue = items; in_flight = n; started = st; called = ca })
      ≢ none
unfolding enqueue send_from_queue
enqueue-some buffers callback [] n st ca e = cc
enqueue-some buffers callback (x ∷ items) n st ca e = ground (arith, length-append items _)

pub enqueue-total {ℓ} :
    {A : Type ℓ} (buffers : A) (callback : Option ℕ) (q : SendQueue A)
    → (q' : SendQueue A) × (enqueue buffers callback q ≡ some q')
enqueue-total buffers callback q = elim (Option-cases (enqueue buffers callback q)) [
  | inl fault ↦
      absurd (enqueue-some buffers callback q.send_queue q.in_flight q.started q.called fault)
  | inr found ↦ found
]

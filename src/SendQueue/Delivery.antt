-- ===== src/SendQueue/Delivery.antt =====
-- The send queues while their scope runs: no message waits without a write under way, the writes
-- start in the order of the sends, and every callback is called once.
use juce_simpleweb.Prelude.{
  ℕ, ◌≡◌, ◌≢◌, inl, inr, refl, sym, ap, ◌∙◌, Bool, true, false, Option, none, some, List, [], ◌∷◌,
  ◌++◌, map, ◌==◌, append-nil, append_assoc, length, length-append, arith, All, Option-cases,
}
use juce_simpleweb.SendQueue.{
  OutData, SendQueue, empty, send_from_queue, enqueue, call, call_all, next_write, written,
  on_written, Op, send, complete, step, run,
}
use juce_simpleweb.SendQueue.Traffic.{
  wanted, behind, named, pending, callback_of, message_of, callbacks, messages, names, IsLocked,
  IsHealthy, IsBusy, names-append, pending-append, map_buffers,
}

module _ {ℓ} {A : Type ℓ} where
  long :
      (x : OutData A) (items : List (OutData A)) (y : OutData A)
      → (length (x ∷ (items ++ y ∷ [])) == 1) ≡ false
  long x items y = ground (arith, length-append items (y ∷ []))

  -- What one step does, for a queue whose first entry is being written.
  record Stepped (op : Op A) (q q' : SendQueue A) : Type ℓ where
    busy : IsBusy q'
    once :
        names q'.called ++ pending q'.send_queue
        ≡ (names q.called ++ pending q.send_queue) ++ callback_of op
    order :
        IsHealthy op
        → q'.started ++ behind q'.send_queue ≡ (q.started ++ behind q.send_queue) ++ message_of op

  abbrev Steps : Op A → SendQueue A → Option (SendQueue A) → Type ℓ
  Steps op q none = q ≢ q
  Steps op q (some q') = Stepped op q q'

  abbrev mk : List (OutData A) → ℕ → List A → List (ℕ × Bool) → SendQueue A
  mk items n started called = record {
    send_queue = items;
    in_flight = n;
    started = started;
    called = called;
  }

  step-send :
      (b : A) (f : Option ℕ) (items : List (OutData A)) (n : ℕ) (st : List A) (ca : List (ℕ × Bool))
      → IsBusy (mk items n st ca)
      → Steps (send b f) (mk items n st ca) (step (send b f) (mk items n st ca))
  unfolding step enqueue send_from_queue
  step-send b f [] n st ca h = record {
    busy = omega arith;
    once = simp append-nil;
    order = λ _. simp append-nil;
  }
  step-send b f (x ∷ items) n st ca h =
      rw (long x items (record { buffers = b; callback = f })) (record {
        busy = h;
        once = rw (pending-append (x ∷ items) _) (simp (append-nil, append_assoc));
        order = λ _.
            ap (◌++◌ st) (map_buffers items (record { buffers = b; callback = f }))
            ∙ sym (append_assoc st (map (λ i. i.buffers) items) (b ∷ []));
      })

  -- A callback changes the list of the calls only.
  record Called (names_of : List ℕ) (q q' : SendQueue A) : Type ℓ where
    same_queue : q'.send_queue ≡ q.send_queue
    same_flight : q'.in_flight ≡ q.in_flight
    same_started : q'.started ≡ q.started
    calls : names q'.called ≡ names q.called ++ names_of

  call_lem : (f : Option ℕ) (failed : Bool) (q : SendQueue A) → Called (named f) q (call f failed q)
  unfolding call
  call_lem none failed q = record {
    same_queue = refl;
    same_flight = refl;
    same_started = refl;
    calls = simp append-nil;
  }
  call_lem (some f) failed q = record {
    same_queue = refl;
    same_flight = refl;
    same_started = refl;
    calls = names-append q.called ((f, failed) ∷ []);
  }

  call_all_lem :
      (items : List (OutData A)) (q : SendQueue A) → Called (pending items) q (call_all items q)
  unfolding call_all
  call_all_lem [] q = record {
    same_queue = refl;
    same_flight = refl;
    same_started = refl;
    calls = simp append-nil;
  }
  call_all_lem (item ∷ items) q =
      let first = call_lem item.callback true q in
      let rest = call_all_lem items (call item.callback true q) in
      record {
        same_queue = rest.same_queue ∙ first.same_queue;
        same_flight = rest.same_flight ∙ first.same_flight;
        same_started = rest.same_started ∙ first.same_started;
        calls = rest.calls ∙ rw (first.calls) (append_assoc (names q.called) _ _);
      }

  step-complete :
      (failed : Bool) (items : List (OutData A)) (n : ℕ) (st : List A) (ca : List (ℕ × Bool))
      → IsBusy (mk items n st ca)
      → Steps
          (complete true failed)
          (mk items n st ca)
          (step (complete true failed) (mk items n st ca))
  unfolding step on_written written next_write send_from_queue
  step-complete failed [] n st ca h =
      rw h (record { busy = refl; once = simp append-nil; order = λ _. simp append-nil })
  step-complete true (x ∷ items) n st ca h =
      let c = call_all_lem (x ∷ items) (mk [] 0 st ca) in
      rw h (record {
        busy = c.same_flight ∙ rw (c.same_queue);
        once = rw (c.same_queue, c.calls);
        order = λ e. absurd (ground (arith, e.1));
      })
  step-complete false (x ∷ []) n st ca h =
      let c = call_lem x.callback false (mk [] 0 st ca) in
      rw h (record {
        busy = c.same_flight ∙ rw (c.same_queue);
        once = rw (c.same_queue, c.calls) (simp append-nil);
        order = λ _. rw (c.same_queue, c.same_started) (simp append-nil);
      })
  step-complete false (x ∷ y ∷ items) n st ca h =
      let c = call_lem x.callback false (mk (y ∷ items) 1 (st ++ y.buffers ∷ []) ca) in
      rw h (record {
        busy = c.same_flight ∙ rw (c.same_queue);
        once = rw (c.same_queue, c.calls) (simp (append-nil, append_assoc));
        order = λ _. rw (c.same_queue, c.same_started) (simp (append-nil, append_assoc));
      })

  step-Stepped : (op : Op A) (q : SendQueue A) → IsLocked op → IsBusy q → Steps op q (step op q)
  step-Stepped (send b f) q l h = step-send b f q.send_queue q.in_flight q.started q.called h
  step-Stepped (complete true failed) q l h =
      step-complete failed q.send_queue q.in_flight q.started q.called h
  step-Stepped (complete false failed) q l h = absurd (ground (arith, l))

  -- What a run does.
  record Ran (ops : List (Op A)) (q q' : SendQueue A) : Type ℓ where
    pub busy : q'.in_flight ≡ wanted q'.send_queue
    pub once :
        names q'.called ++ pending q'.send_queue
        ≡ (names q.called ++ pending q.send_queue) ++ callbacks ops
    pub order :
        All IsHealthy ops
        → q'.started ++ behind q'.send_queue ≡ (q.started ++ behind q.send_queue) ++ messages ops

  abbrev Runs : List (Op A) → SendQueue A → Option (SendQueue A) → Type ℓ
  Runs ops q none = q ≢ q
  Runs ops q (some q') = Ran ops q q'

  join :
      (op : Op A) (ops : List (Op A)) (q q' : SendQueue A)
      → Stepped op q q'
      → (r : Option (SendQueue A)) → Runs ops q' r
      → Runs (op ∷ ops) q r
  join op ops q q' s none r = absurd (r refl)
  join op ops q q' s (some q'') r = record {
    busy = r.busy;
    once = r.once ∙ rw (s.once) (append_assoc (names q.called ++ pending q.send_queue) _ _);
    order =
        λ h. r.order h.1 ∙ rw (s.order h.0) (append_assoc (q.started ++ behind q.send_queue) _ _);
  }

  run-Runs :
      (ops : List (Op A)) (q : SendQueue A) → All IsLocked ops → IsBusy q → Runs ops q (run ops q)
  unfolding run
  run-Runs [] q l h = record { busy = h; once = simp append-nil; order = λ _. simp append-nil }
  run-Runs (op ∷ ops) q l h = elim (Option-cases (step op q)) [
    | inl fault ↦ absurd ((rw fault at (step-Stepped op q l.0 h)) refl)
    | inr (q', e) ↦
        let s = rw e at (step-Stepped op q l.0 h) in
        rw (e, run) (join op ops q q' s (run ops q') (run-Runs ops q' l.1 s.busy))
  ]

-- While the scope runs, from an empty queue: a write is under way exactly when a message is
-- queued; the callbacks that were called, followed by those of the queued messages, are those of
-- all sends, each once and in order; and if no write failed, the messages whose write has
-- started, followed by those that wait behind the first, are all that were sent, in order.
pub run-delivers {ℓ} :
    {A : Type ℓ} (ops : List (Op A))
    → All IsLocked ops
    → (q : SendQueue A) × (run ops empty ≡ some q)
      × (q.in_flight ≡ wanted q.send_queue)
      × (names q.called ++ pending q.send_queue ≡ callbacks ops)
      × (All IsHealthy ops → q.started ++ behind q.send_queue ≡ messages ops)
unfolding empty
run-delivers ops l = elim (Option-cases (run ops empty)) [
  | inl fault ↦ absurd ((rw fault at (run-Runs ops empty l refl)) refl)
  | inr (q, e) ↦ let r = rw e at (run-Runs ops empty l refl) in (q, e, r.busy, r.once, r.order)
]

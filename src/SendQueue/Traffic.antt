-- ===== src/SendQueue/Traffic.antt =====
-- The send queues: what was sent, what waits and which callbacks are due.
use juce_simpleweb.Prelude.{
  ℕ, ◌≡◌, refl, ap, Bool, true, false, Option, none, some, List, [], ◌∷◌, ◌++◌, map, append_assoc,
}
use juce_simpleweb.SendQueue.{OutData, SendQueue, Op, send, complete}

-- The number of writes that a queue asks for.
abbrev pub wanted {ℓ} : {A : Type ℓ} → List (OutData A) → ℕ
wanted [] = 0
wanted (item ∷ items) = 1

-- The buffers behind the first entry, whose write has started.
abbrev pub behind {ℓ} : {A : Type ℓ} → List (OutData A) → List A
behind [] = []
behind (item ∷ items) = map (λ i. i.buffers) items

abbrev pub named : Option ℕ → List ℕ
named none = []
named (some f) = f ∷ []

abbrev pub pending {ℓ} : {A : Type ℓ} → List (OutData A) → List ℕ
pending [] = []
pending (item ∷ items) = named item.callback ++ pending items

abbrev pub callback_of {ℓ} : {A : Type ℓ} → Op A → List ℕ
callback_of (send buffers callback) = named callback
callback_of (complete lock failed) = []

abbrev pub message_of {ℓ} : {A : Type ℓ} → Op A → List A
message_of (send buffers callback) = buffers ∷ []
message_of (complete lock failed) = []

abbrev pub callbacks {ℓ} : {A : Type ℓ} → List (Op A) → List ℕ
callbacks [] = []
callbacks (op ∷ ops) = callback_of op ++ callbacks ops

abbrev pub messages {ℓ} : {A : Type ℓ} → List (Op A) → List A
messages [] = []
messages (op ∷ ops) = message_of op ++ messages ops

abbrev pub names : List (ℕ × Bool) → List ℕ
names [] = []
names ((f, failed) ∷ rest) = f ∷ names rest

-- The scope still runs: every completion gets the lock.
abbrev pub IsLocked {ℓ} : {A : Type ℓ} → Op A → Type 0
IsLocked (send buffers callback) = Unit {0}
IsLocked (complete lock failed) = lock ≡ true

-- And it reports no error.
abbrev pub IsHealthy {ℓ} : {A : Type ℓ} → Op A → Type 0
IsHealthy (send buffers callback) = Unit {0}
IsHealthy (complete lock failed) = (lock ≡ true) × (failed ≡ false)

abbrev pub IsBusy {ℓ} : {A : Type ℓ} → SendQueue A → Type 0
IsBusy q = q.in_flight ≡ wanted q.send_queue

pub names-append : (xs ys : List (ℕ × Bool)) → names (xs ++ ys) ≡ names xs ++ names ys
names-append [] ys = refl
names-append ((f, failed) ∷ xs) ys = ap (◌∷◌ f) (names-append xs ys)

module _ {ℓ} {A : Type ℓ} where
  pub pending-append : (xs ys : List (OutData A)) → pending (xs ++ ys) ≡ pending xs ++ pending ys
  pending-append [] ys = refl
  pending-append (item ∷ xs) ys = simp (pending-append xs ys, append_assoc)

  pub map_buffers :
      (xs : List (OutData A)) (y : OutData A)
      → map (λ i. i.buffers) (xs ++ y ∷ []) ≡ map (λ i. i.buffers) xs ++ y.buffers ∷ []
  map_buffers [] y = refl
  map_buffers (x ∷ xs) y = ap (◌∷◌ x.buffers) (map_buffers xs y)

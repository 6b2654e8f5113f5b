-- ===== src/SendQueue.antt =====
-- The send queue of websocket/server_ws.hpp (`Connection::send_queue`), of
-- websocket/client_ws.hpp and of webserver/server_http.hpp: what is queued, the asynchronous
-- writes that are under way, and what has been handed to the socket and to the callbacks. The
-- callbacks of a program are named by numbers.
pub mod Order
pub mod Total
pub mod Traffic
pub mod Delivery
use juce_simpleweb.Prelude.{
  ℕ, ◌+◌, ◌-◌, Bool, true, false, Option, none, some, List, [], ◌∷◌, ◌++◌, map, ◌==◌, ltb,
  if◌then◌else◌, length,
}

-- `OutData`: the buffers of a message, and its callback if it has one.
pub record OutData {ℓ} (A : Type ℓ) : Type ℓ where
  pub buffers : A
  pub callback : Option ℕ

pub record SendQueue {ℓ} (A : Type ℓ) : Type ℓ where
  pub send_queue : List (OutData A)
  pub in_flight : ℕ
  pub started : List A
  pub called : List (ℕ × Bool)

module _ {ℓ} {A : Type ℓ} where
  unfoldable pub empty : SendQueue A
  empty = record { send_queue = []; in_flight = 0; started = []; called = [] }

  -- `send_from_queue` starts a write of the first entry; with no entry the source would read
  -- through `begin()` of an empty list, and the model has no result.
  unfoldable pub send_from_queue : SendQueue A → Option (SendQueue A)
  send_from_queue q = elim q.send_queue [
    | [] ↦ none
    | item ∷ rest ↦
        some (record q { in_flight = q.in_flight + 1; started = q.started ++ item.buffers ∷ [] })
  ]

  -- The locked part of `send`.
  unfoldable pub enqueue : A → Option ℕ → SendQueue A → Option (SendQueue A)
  unfolding send_from_queue
  enqueue buffers callback q =
      let q' = record q {
        send_queue = q.send_queue ++ record { buffers = buffers; callback = callback } ∷ [];
      } in
      if length q'.send_queue == 1 then send_from_queue q' else some q'

  call : Option ℕ → Bool → SendQueue A → SendQueue A
  call none failed q = q
  call (some f) failed q = record q { called = q.called ++ (f, failed) ∷ [] }

  call_all : List (OutData A) → SendQueue A → SendQueue A
  unfolding call
  call_all [] q = q
  call_all (item ∷ items) q = call_all items (call item.callback true q)

  -- The completion handler of a write that succeeded: the first entry goes, the next write starts,
  -- and then the callback runs.
  next_write : SendQueue A → Option (SendQueue A)
  unfolding send_from_queue
  next_write q = elim q.send_queue [ [] ↦ some q | _ ∷ _ ↦ send_from_queue q ]

  written : SendQueue A → Option (SendQueue A)
  unfolding next_write call
  written q = elim q.send_queue [
    | [] ↦ none
    | item ∷ rest ↦ elim (next_write (record q { send_queue = rest })) [
      | none ↦ none
      | some q' ↦ some (call item.callback false q')
    ]
  ]

  -- The completion handler of a write; without the scope's lock it does nothing, and an error
  -- empties the queue and hands the error to every callback.
  unfoldable pub on_written : Bool → Bool → SendQueue A → Option (SendQueue A)
  unfolding written call_all
  on_written lock failed q =
      let q' = record q { in_flight = q.in_flight - 1 } in
      if lock
      then (if failed
          then some (call_all q'.send_queue (record q' { send_queue = [] }))
          else written q')
      else some q'

-- What happens to a queue: a message is sent, or a write completes, with the scope's lock or
-- without it, with an error or without one.
pub data Op {ℓ} (A : Type ℓ) : Type ℓ where
  send : A → Option ℕ → Op A
  complete : Bool → Bool → Op A

-- Only a write that is under way can complete.
unfoldable pub step {ℓ} : {A : Type ℓ} → Op A → SendQueue A → Option (SendQueue A)
unfolding enqueue on_written
step (send buffers callback) q = enqueue buffers callback q
step (complete lock failed) q = if ltb 0 q.in_flight then on_written lock failed q else some q

unfoldable pub run {ℓ} : {A : Type ℓ} → List (Op A) → SendQueue A → Option (SendQueue A)
unfolding step
run [] q = some q
run (op ∷ ops) q = elim (step op q) [ none ↦ none | some q' ↦ run ops q' ]

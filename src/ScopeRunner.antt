-- ===== src/ScopeRunner.antt =====
-- common/utility.hpp: ScopeRunner, the atomic count of the shared locks of a scope, which a stop
-- sets to -1. Its threads interleave at each access of the count. An integer stands for the
-- `long`; the count of the locks that are held stays far below its bounds.
pub mod Moves
pub mod Locks
use juce_simpleweb.Prelude.{ℕ, zero, suc, ◌+◌, Bool, true, false, List, ◌==◌, if◌then◌else◌}

pub data ℤ : Type 0 where
  pos negsuc : ℕ → ℤ

-- `fetch_sub(1)`.
abbrev pub pred : ℤ → ℤ
pred (pos zero) = negsuc 0
pred (pos (suc n)) = pos n
pred (negsuc n) = negsuc (suc n)

abbrev pub is_pos : ℤ → ℕ → Bool
is_pos (pos n) e = n == e
is_pos (negsuc n) e = false

-- Where a thread stands: outside, in the loop of `continue_lock` with its `expected`, with
-- `nullptr` or a `SharedLock` returned, in the loop of `stop`, with `stop` returned.
pub data Thread : Type 0 where
  outside refused holding stopping stopped : Thread
  trying : ℤ → Thread

-- One round of the loop of `continue_lock`. A weak exchange may fail for no reason; a failed one
-- stores the count in `expected`.
unfoldable pub continue_round : Bool → ℤ → ℤ → ℤ × Thread
continue_round weak count (negsuc n) = (count, refused)
continue_round weak count (pos e) =
    if (if weak then false else is_pos count e)
    then (pos (suc e), holding)
    else (count, trying count)

-- One round of the loop of `stop`, whose `expected` is 0 again at the start of each.
unfoldable pub stop_round : Bool → ℤ → ℤ × Thread
stop_round weak (negsuc n) = (negsuc n, stopped)
stop_round weak (pos n) =
    if (if weak then false else is_pos (pos n) 0) then (negsuc 0, stopped) else (pos n, stopping)

-- The next access of the count that a thread makes. `locks` says which function a thread outside
-- calls; a thread that holds a lock destroys it.
unfoldable pub move : Bool → Bool → ℤ → Thread → ℤ × Thread
move locks weak count outside = (count, if locks then trying count else stopping)
move locks weak count (trying expected) = continue_round weak count expected
move locks weak count refused = (count, outside)
move locks weak count holding = (pred count, outside)
move locks weak count stopping = stop_round weak count
move locks weak count stopped = (count, outside)

-- The count, and the threads that use it.
pub record Scope : Type 0 where
  pub count : ℤ
  pub threads : List Thread

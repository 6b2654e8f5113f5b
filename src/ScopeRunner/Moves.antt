-- ===== src/ScopeRunner/Moves.antt =====
-- common/utility.hpp: what one access of the count of a ScopeRunner keeps.
use juce_simpleweb.Prelude.{
  ℕ, zero, suc, ◌≡◌, inl, inr, refl, Bool, true, false, List, [], ◌∷◌, arith, ◌==◌, Bool-cases, All,
}
use juce_simpleweb.ScopeRunner.{
  ℤ, pos, negsuc, pred, Thread, outside, refused, holding, stopping, stopped, trying,
  continue_round, stop_round, move,
}

-- How many threads hold a lock.
abbrev pub counted : Thread → ℕ → ℕ
counted holding n = suc n
counted outside n = n
counted refused n = n
counted stopping n = n
counted stopped n = n
counted (trying e) n = n

unfoldable pub holders : List Thread → ℕ
holders [] = 0
holders (t ∷ ts) = counted t (holders ts)

-- The count is that of the locks, or -1, and then there are none.
abbrev pub Counts : ℤ → ℕ → Type 0
Counts (pos n) k = k ≡ n
Counts (negsuc zero) k = k ≡ 0
Counts (negsuc (suc n)) k = ⊥

-- What a thread that was refused, or whose stop returned, knows of the count.
abbrev pub Knows : ℤ → Thread → Type 0
Knows count outside = Unit
Knows count holding = Unit
Knows count stopping = Unit
Knows count (trying (pos e)) = Unit
Knows count (trying (negsuc n)) = count ≡ negsuc 0
Knows count refused = count ≡ negsuc 0
Knows count stopped = count ≡ negsuc 0

-- What one access keeps, with the locks of the other threads given.
pub record Kept (n : ℤ) (others : ℕ) (n' : ℤ) (t' : Thread) : Type 0 where
  pub counts : Counts n' (counted t' others)
  pub known : Knows n' t'
  pub over_stays : n ≡ negsuc 0 → n' ≡ negsuc 0

module _ (others : ℕ) where
  outside-Kept :
      (locks weak : Bool) (n : ℤ)
      → Counts n others
      → Kept n others (move locks weak n outside).0 (move locks weak n outside).1
  unfolding move
  outside-Kept true weak (pos n) c = record { counts = c; known = tt; over_stays = λ e. e }
  outside-Kept true weak (negsuc zero) c = record { counts = c; known = refl; over_stays = λ e. e }
  outside-Kept true weak (negsuc (suc n)) c = elim c [ ]
  outside-Kept false weak n c = record { counts = c; known = tt; over_stays = λ e. e }

  continue_round-Kept :
      (weak : Bool) (n e : ℤ)
      → Counts n others
      → Knows n (trying e)
      → Kept n others (continue_round weak n e).0 (continue_round weak n e).1
  unfolding continue_round
  continue_round-Kept weak n (negsuc e) c k = record { counts = c; known = k; over_stays = λ z. z }
  continue_round-Kept true (pos n) (pos e) c k = record {
    counts = c;
    known = tt;
    over_stays = λ z. z;
  }
  continue_round-Kept weak (negsuc (suc n)) (pos e) c k = elim c [ ]
  continue_round-Kept true (negsuc zero) (pos e) c k = record {
    counts = c;
    known = refl;
    over_stays = λ z. z;
  }
  continue_round-Kept false (negsuc zero) (pos e) c k = record {
    counts = c;
    known = refl;
    over_stays = λ z. z;
  }
  continue_round-Kept false (pos n) (pos e) c k = elim (Bool-cases (n == e)) [
    | inl same ↦ rw same (record { counts = ground arith; known = tt; over_stays = λ z. cc })
    | inr other ↦ rw other (record { counts = c; known = tt; over_stays = λ z. z })
  ]

  stop_round-Kept :
      (weak : Bool) (n : ℤ)
      → Counts n others
      → Kept n others (stop_round weak n).0 (stop_round weak n).1
  unfolding stop_round
  stop_round-Kept weak (negsuc zero) c = record { counts = c; known = refl; over_stays = λ z. z }
  stop_round-Kept weak (negsuc (suc n)) c = elim c [ ]
  stop_round-Kept true (pos n) c = record { counts = c; known = tt; over_stays = λ z. z }
  stop_round-Kept false (pos n) c = elim (Bool-cases (n == 0)) [
    | inl same ↦ rw same (record { counts = ground arith; known = refl; over_stays = λ z. refl })
    | inr other ↦ rw other (record { counts = c; known = tt; over_stays = λ z. z })
  ]

  pred-Kept : (n : ℤ) → Counts n (suc others) → Kept n others (pred n) outside
  pred-Kept (pos zero) c = ground arith
  pred-Kept (pos (suc n)) c = record { counts = omega arith; known = tt; over_stays = λ z. cc }
  pred-Kept (negsuc zero) c = ground arith
  pred-Kept (negsuc (suc n)) c = elim c [ ]

  pub move-Kept :
      (locks weak : Bool) (n : ℤ) (t : Thread)
      → Counts n (counted t others)
      → Knows n t
      → Kept n others (move locks weak n t).0 (move locks weak n t).1
  unfolding move
  move-Kept locks weak n outside c k = outside-Kept locks weak n c
  move-Kept locks weak n (trying e) c k = continue_round-Kept weak n e c k
  move-Kept locks weak n refused c k = record { counts = c; known = tt; over_stays = λ z. z }
  move-Kept locks weak n stopped c k = record { counts = c; known = tt; over_stays = λ z. z }
  move-Kept locks weak n stopping c k = stop_round-Kept weak n c
  move-Kept locks weak n holding c k = pred-Kept n c

Knows-stays : (n n' : ℤ) (t : Thread) → (n ≡ negsuc 0 → n' ≡ negsuc 0) → Knows n t → Knows n' t
Knows-stays n n' outside f k = tt
Knows-stays n n' holding f k = tt
Knows-stays n n' stopping f k = tt
Knows-stays n n' (trying (pos e)) f k = tt
Knows-stays n n' (trying (negsuc e)) f k = f k
Knows-stays n n' refused f k = f k
Knows-stays n n' stopped f k = f k

pub All-Knows-stays :
    (n n' : ℤ) (ts : List Thread)
    → (n ≡ negsuc 0 → n' ≡ negsuc 0)
    → All (Knows n) ts
    → All (Knows n') ts
All-Knows-stays n n' [] f k = tt
All-Knows-stays n n' (t ∷ ts) f (k, l) = (Knows-stays n n' t f k, All-Knows-stays n n' ts f l)

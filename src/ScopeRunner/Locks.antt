-- ===== src/ScopeRunner/Locks.antt =====
-- common/utility.hpp: the locks of a ScopeRunner under every interleaving of its threads.
use juce_simpleweb.Prelude.{
  ℕ, zero, suc, ◌<◌, ◌≡◌, ◌⊎◌, inl, inr, refl, sym, ap, ◌∙◌, Bool, false, List, [], ◌∷◌, ◌++◌,
  arith, ◌==◌, Bool-cases, All, All-append,
}
use juce_simpleweb.ScopeRunner.{
  ℤ, pos, negsuc, Thread, outside, refused, holding, stopping, stopped, trying, stop_round, move,
  Scope,
}
use juce_simpleweb.ScopeRunner.Moves.{counted, holders, Counts, Knows, move-Kept, All-Knows-stays}

-- One thread makes one access of the count.
pub data Step : Scope → Scope → Type 0 where
  access :
      (locks weak : Bool) (before after : List Thread) (t : Thread) (n : ℤ)
      → Step
          (record { count = n; threads = before ++ t ∷ after })
          (record {
            count = (move locks weak n t).0;
            threads = before ++ (move locks weak n t).1 ∷ after;
          })

-- Any number of steps.
pub data Steps : Scope → Scope → Type 0 where
  here : {s : Scope} → Steps s s
  then_step : {s t u : Scope} → Steps s t → Step t u → Steps s u

pub record Inv (s : Scope) : Type 0 where
  pub counts : Counts s.count (holders s.threads)
  pub known : All (Knows s.count) s.threads

-- The parts of a statement on all entries.
All-parts :
    (P : Thread → Type 0) (xs : List Thread) (y : Thread) (ys : List Thread)
    → All P (xs ++ y ∷ ys)
    → All P xs × P y × All P ys
All-parts P [] y ys (h, k) = (tt, h, k)
All-parts P (x ∷ xs) y ys (h, k) = let (a, b, c) = All-parts P xs y ys k in ((h, a), b, c)

counted-counted : (t u : Thread) (n : ℕ) → counted t (counted u n) ≡ counted u (counted t n)
counted-counted holding u n = counted-suc u n
  where
    counted-suc : (u : Thread) (n : ℕ) → suc (counted u n) ≡ counted u (suc n)
    counted-suc holding n = refl
    counted-suc outside n = refl
    counted-suc refused n = refl
    counted-suc stopping n = refl
    counted-suc stopped n = refl
    counted-suc (trying e) n = refl
counted-counted outside u n = refl
counted-counted refused u n = refl
counted-counted stopping u n = refl
counted-counted stopped u n = refl
counted-counted (trying e) u n = refl

holders-middle :
    (s : List Thread) (t : Thread) (u : List Thread)
    → holders (s ++ t ∷ u) ≡ counted t (holders (s ++ u))
unfolding holders
holders-middle [] t u = refl
holders-middle (x ∷ s) t u =
    ap (counted x) (holders-middle s t u) ∙ counted-counted x t (holders (s ++ u))

Step-Inv : {s u : Scope} → Step s u → Inv s → Inv u
Step-Inv (access locks weak before after t n) v =
    let (a, b, c) = All-parts (Knows n) before t after v.known in
    let others = holders (before ++ after) in
    let kept = move-Kept others locks weak n t (ap-Counts v.counts) b in
    record {
      counts = rw (holders-middle before (move locks weak n t).1 after) kept.counts;
      known =
          All-append _ before _ (All-Knows-stays n _ before kept.over_stays a)
            (kept.known, All-Knows-stays n _ after kept.over_stays c);
    }
  where
    ap-Counts :
        Counts n (holders (before ++ t ∷ after)) → Counts n (counted t (holders (before ++ after)))
    ap-Counts h = rw (sym (holders-middle before t after)) h

-- What holds of every reachable scope.
pub Steps-Inv : {s u : Scope} → Steps s u → Inv s → Inv u
Steps-Inv here v = v
Steps-Inv (then_step r x) v = Step-Inv x (Steps-Inv r v)

-- A count of -1 stays.
Step-over : {s u : Scope} → Step s u → Inv s → s.count ≡ negsuc 0 → u.count ≡ negsuc 0
Step-over (access locks weak before after t n) v =
    let (a, b, c) = All-parts (Knows n) before t after v.known in
    (move-Kept (holders (before ++ after)) locks weak n t
      (rw (sym (holders-middle before t after)) v.counts) b).over_stays

Steps-over : {s u : Scope} → Steps s u → Inv s → s.count ≡ negsuc 0 → u.count ≡ negsuc 0
Steps-over here v e = e
Steps-over (then_step r x) v e = Step-over x (Steps-Inv r v) (Steps-over r v e)

-- The scope at its start, with threads that are all outside.
abbrev pub AllOutside : List Thread → Type 0
AllOutside = All (λ t. t ≡ outside)

start-Inv : (ts : List Thread) → AllOutside ts → Inv (record { count = pos 0; threads = ts })
unfolding holders
start-Inv [] h = record { counts = refl; known = tt }
start-Inv (t ∷ ts) (e, h) =
    let v = start-Inv ts h in rw e (record { counts = v.counts; known = (tt, v.known) })

-- From the start on, under every interleaving of any number of threads: the count is the number of
-- the locks that are held, or it is -1 and no lock is held; and a thread that was refused a lock,
-- or whose stop has returned, finds the count at -1.
pub locks_counted :
    (ts : List Thread) (s : Scope)
    → AllOutside ts
    → Steps (record { count = pos 0; threads = ts }) s
    → Inv s
locks_counted ts s h r = Steps-Inv r (start-Inv ts h)

no_locks : (s : Scope) → Inv s → s.count ≡ negsuc 0 → holders s.threads ≡ 0
no_locks s v e = counts_of s.count v.counts e
  where
    counts_of : (n : ℤ) → Counts n (holders s.threads) → n ≡ negsuc 0 → holders s.threads ≡ 0
    counts_of (pos n) c e = cc
    counts_of (negsuc zero) c e = c
    counts_of (negsuc (suc n)) c e = elim c [ ]

-- Once a stop has returned in some thread, no thread ever holds a lock again, and the count stays
-- at -1: the locks of before were all released, and no further one is given.
pub stopped_for_good :
    (ts before after : List Thread) (n : ℤ) (s : Scope)
    → AllOutside ts
    → Steps
        (record { count = pos 0; threads = ts })
        (record { count = n; threads = before ++ stopped ∷ after })
    → Steps (record { count = n; threads = before ++ stopped ∷ after }) s
    → (s.count ≡ negsuc 0) × (holders s.threads ≡ 0)
stopped_for_good ts before after n s h r l =
    let v = locks_counted ts _ h r in
    let (a, b, c) = All-parts (Knows n) before stopped after v.known in
    let e = Steps-over l v b in (e, no_locks s (Steps-Inv l v) e)

-- A stop in its loop returns at its next access of the count, weak failures aside, if no thread
-- holds a lock; and as long as one holds a lock it stays in its loop and changes nothing.
pub stop_waits :
    (ts before after : List Thread) (n : ℤ)
    → AllOutside ts
    → Steps
        (record { count = pos 0; threads = ts })
        (record { count = n; threads = before ++ stopping ∷ after })
    → (holders (before ++ after) ≡ 0) × ((move false false n stopping) ≡ (negsuc 0, stopped))
      ⊎ (0 < holders (before ++ after)) × ((move false false n stopping) ≡ (n, stopping))
unfolding move stop_round
stop_waits ts before after n h r =
    cases n (rw (sym (holders-middle before stopping after)) (locks_counted ts _ h r).counts)
  where
    cases :
        (n : ℤ)
        → Counts n (holders (before ++ after))
        → (holders (before ++ after) ≡ 0) × ((move false false n stopping) ≡ (negsuc 0, stopped))
          ⊎ (0 < holders (before ++ after)) × ((move false false n stopping) ≡ (n, stopping))
    cases (negsuc zero) c = inl (c, refl)
    cases (negsuc (suc n)) c = elim c [ ]
    cases (pos n) c = elim (Bool-cases (n == 0)) [
      | inl none_held ↦ inl (ground arith, rw none_held refl)
      | inr held ↦ inr (ground arith, rw held refl)
    ]

-- ===== src/Tests/Scope.antt =====
-- The theorems on the scope runner, each applied to two threads, one of which stops the scope.
use juce_simpleweb.Prelude.{◌<◌, ◌≡◌, ◌⊎◌, refl, true, false, List, [], ◌∷◌}
use juce_simpleweb.ScopeRunner.{
  Scope, Thread, outside, refused, trying, stopping, stopped, pos, negsuc, move, continue_round,
  stop_round,
}
use juce_simpleweb.ScopeRunner.Moves.{holders}
use juce_simpleweb.ScopeRunner.Locks.{
  Steps, here, then_step, access, Inv, AllOutside, locks_counted, stopped_for_good, stop_waits,
}

abbrev two_threads : List Thread
two_threads = outside ∷ outside ∷ []

two_threads-AllOutside : AllOutside two_threads
two_threads-AllOutside = (refl, (refl, tt))

abbrev at_start : Scope
at_start = record { count = pos 0; threads = two_threads }

abbrev one_stops : Scope
one_stops = record { count = pos 0; threads = outside ∷ stopping ∷ [] }

abbrev one_stopped : Scope
one_stopped = record { count = negsuc 0; threads = outside ∷ stopped ∷ [] }

abbrev one_refused : Scope
one_refused = record { count = negsuc 0; threads = refused ∷ stopped ∷ [] }

stops : Steps at_start one_stops
unfolding move
stops = then_step here (access false false (outside ∷ []) [] outside (pos 0))

stopped_after : Steps at_start one_stopped
unfolding move stop_round
stopped_after = then_step stops (access false false (outside ∷ []) [] stopping (pos 0))

refused_after : Steps one_stopped one_refused
unfolding move continue_round
refused_after =
    then_step (then_step here (access true false [] (stopped ∷ []) outside (negsuc 0)))
      (access true false [] (stopped ∷ []) (trying (negsuc 0)) (negsuc 0))

locks_counted_example : Inv one_stopped
locks_counted_example = locks_counted two_threads one_stopped two_threads-AllOutside stopped_after

stopped_for_good_example : (one_refused.count ≡ negsuc 0) × (holders one_refused.threads ≡ 0)
stopped_for_good_example =
    stopped_for_good two_threads (outside ∷ []) [] (negsuc 0) one_refused two_threads-AllOutside
      stopped_after refused_after

stop_waits_example :
    (holders (outside ∷ []) ≡ 0) × ((move false false (pos 0) stopping) ≡ (negsuc 0, stopped))
    ⊎ (0 < holders (outside ∷ [])) × ((move false false (pos 0) stopping) ≡ (pos 0, stopping))
stop_waits_example = stop_waits two_threads (outside ∷ []) [] (pos 0) two_threads-AllOutside stops

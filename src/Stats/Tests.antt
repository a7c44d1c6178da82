-- ===== src/Stats/Tests.antt =====
-- The theorems about stats at concrete inputs.
use helper.Base.{ℕ, ◌≡◌, refl, some, List, [], ◌∷◌, All, arith, nat_eq}
use helper.Base.Dict.{lookup}
use helper.Base.Int.{ℤ, pos}
use helper.Stats.{CountMessage, Counter, new_statistic}
use helper.Stats.Extremes.{Between, Attains, complete_all, complete_all-extremes}
use helper.Stats.Periods.{
  Event, counts, resets, handle_all, since_reset, total_of, handle_all-total,
}

abbrev second_and_hour : ℕ
second_and_hour = 10

complete_all-extremes_example :
    let ps : List (ℤ × ℤ) = (pos 3, pos 9) ∷ (pos 8, pos 8) ∷ (pos 5, pos 50) ∷ [] in
    let s = complete_all (new_statistic 60) ps in
    All (Between s.min s.max) ps × Attains s.min ps × Attains s.max ps
complete_all-extremes_example =
    complete_all-extremes 60 (pos 3, pos 9) ((pos 8, pos 8) ∷ (pos 5, pos 50) ∷ [])
      (omega arith, (omega arith, (omega arith, tt)))

abbrev message : ℤ → CountMessage
message n = record { count = n; value = pos 1; ts = pos 1000 }

abbrev events : List Event
events =
    counts (message (pos 4))
    ∷ resets 3600
    ∷ counts (message (pos 2))
    ∷ resets 60
    ∷ counts (message (pos 5))
    ∷ []

handle_all-total_example :
    total_of
      (lookup 3600 (handle_all ((60, new_statistic 60) ∷ (3600, new_statistic 3600) ∷ []) events))
    ≡ some (since_reset 3600 (pos 0) events)
unfolding lookup
handle_all-total_example =
    handle_all-total 3600 ((60, new_statistic 60) ∷ (3600, new_statistic 3600) ∷ [])
      (new_statistic 3600) events (omega arith) refl

abbrev empty_counter : Counter
empty_counter = record { name = "hits"; terms = []; start_time = pos 0 }

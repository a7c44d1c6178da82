-- ===== src/Queue/Tests.antt =====
-- The theorems about queue/queue.go at concrete queues, and a run.
use helper.Base.{ℕ, ◌≡◌, refl, inr, Option, none, some, List, [], ◌∷◌, ◌++◌, arith}
use helper.Base.Int.{pos}
use helper.Queue.{
  Value, Op, adds, ticks, new, add, flush, tick, start_flush_thread, set_flush, stop_flush_thread,
  apply, apply_all, check_value,
}
use helper.Queue.Conservation.{held, accepted_all, AddsWhileSet, apply_all-conserves}
use helper.Queue.Stopping.{
  Stopping, StopReach, IsJammed, free, locking, selecting, stop_flush_thread_can_jam,
}

abbrev num : ℕ → Option Value
num n = some (record { type_of = 2; content = n })

-- The calls of the package's own test.
abbrev starting : List Op
unfolding start_flush_thread
starting = start_flush_thread (some 1) (pos 3) (pos 3)

abbrev calls : List Op
calls =
    adds (num 1)
    ∷ adds (num 2)
    ∷ adds (num 3)
    ∷ adds (num 4)
    ∷ ticks
    ∷ adds none
    ∷ adds (num 5)
    ∷ []

three_and_one :
    (apply_all (new (some 2)) (starting ++ calls)).flushed
    ≡ (1, num 1 ∷ num 2 ∷ num 3 ∷ []) ∷ (1, num 4 ∷ []) ∷ []
unfolding apply_all apply add flush tick starting start_flush_thread set_flush stop_flush_thread new
    check_value
three_and_one = refl

apply_all-conserves_example :
    held (apply_all (new (some 2)) (starting ++ (calls ++ starting)))
    ≡ held (new (some 2)) ++ accepted_all (some 2) (starting ++ (calls ++ starting))
unfolding apply_all apply add flush tick starting start_flush_thread set_flush stop_flush_thread new
    check_value AddsWhileSet
apply_all-conserves_example =
    apply_all-conserves (new (some 2)) (starting ++ (calls ++ starting)) (inr refl) (ground arith)

abbrev about_to_stop : Stopping
about_to_stop = record { lock = free; stop = locking; thread = selecting }

stop_flush_thread_can_jam_example :
    (t : Stopping) × StopReach about_to_stop t × ((u : Stopping) → StopReach t u → IsJammed u)
stop_flush_thread_can_jam_example = stop_flush_thread_can_jam about_to_stop refl refl refl

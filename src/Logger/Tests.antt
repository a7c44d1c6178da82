-- ===== src/Logger/Tests.antt =====
-- The theorem about the loggers at concrete calls, and levels that drop or panic.
use helper.Base.{ℕ, ◌≡◌, refl, true, none, some, List, [], ◌∷◌}
use helper.Base.Int.{pos, lez}
use helper.Logger.{Logger, discarded, start, log_e, log, get_logger}
use helper.Logger.Safe.{LogCall, filter, level_to, logger_to, get, log_at, e, d}

abbrev writers : Logger ℕ ℕ
writers = start (λ i. i)

abbrev calls : List (LogCall ℕ ℕ)
calls =
    filter "urgent" (λ level m. lez level (pos 3))
    ∷ level_to (pos 100)
    ∷ logger_to (pos 50) (some 9)
    ∷ logger_to (pos 3) (some 9)
    ∷ get (pos 9)
    ∷ e 1
    ∷ d 2
    ∷ log_at (pos 0) 3
    ∷ []

-- LogE is not always printed: SetLevel can set a level below ERROR.
quiet : log_e true 1 (record writers { log_level = pos 2 }) ≡ discarded 1
unfolding log_e log
quiet = refl

-- GetLogger of the number of loggers panics.
past_the_end : get_logger (pos 8) writers ≡ none
unfolding get_logger
past_the_end = refl

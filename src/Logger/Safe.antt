-- ===== src/Logger/Safe.antt =====
-- logger/logger.go: no call that keeps to the named levels panics.
use helper.Base.{
  ◌≡◌, Bool, true, ◌&&◌, not, String, Option, none, some, List, [], ◌∷◌, is_some, length, All,
}
use helper.Base.Int.{ℤ, pos, ltz, lez, eqz}
use helper.Logger.{
  Logger, Logged, panicked, log, log_e, log_d, log_i, log_w, register_filter, set_level, get_logger,
  set_logger, logger_num,
}

pub data LogCall (L M : Type 0) : Type 0 where
  filter : String → (ℤ → M → Bool) → LogCall L M
  level_to : ℤ → LogCall L M
  logger_to : ℤ → Option L → LogCall L M
  get : ℤ → LogCall L M
  log_at : ℤ → M → LogCall L M
  e : M → LogCall L M
  w : M → LogCall L M
  i : M → LogCall L M
  d : M → LogCall L M

-- Eight loggers, none of them nil.
abbrev pub IsValid : {L M : Type 0} → Logger L M → Type 0
IsValid s = (length s.loggers ≡ logger_num) × All (λ l. is_some l ≡ true) s.loggers

-- Log has one of the eight levels. SetLogger and GetLogger have no negative level, SetLogger no nil
-- logger, and GetLogger not the level that is the number of loggers.
abbrev pub Sound : {L M : Type 0} → LogCall L M → Type 0
Sound (log_at level m) = (lez (pos 0) level && ltz level (pos logger_num)) ≡ true
Sound (logger_to level l) = (lez (pos 0) level && is_some l) ≡ true
Sound (get level) = (lez (pos 0) level && not (eqz level (pos logger_num))) ≡ true
Sound c = Unit

abbrev pub and_then : {A B : Type 0} → (A → Option B) → Option A → Option B
and_then f none = none
and_then f (some a) = f a

module _ {L M : Type 0} (caller_ok : Bool) (announce : ℤ → M) where
  abbrev pub after : Logged L M → Logger L M → Option (Logger L M)
  after panicked s = none
  after o s = some s

  abbrev pub after_get : Option (Option L) → Logger L M → Option (Logger L M)
  after_get none s = none
  after_get (some l) s = some s

  unfoldable pub run : LogCall L M → Logger L M → Option (Logger L M)
  unfolding log log_e log_w log_i log_d set_level set_logger get_logger register_filter
  run (filter name f) s = some (register_filter name f s)
  run (level_to level) s = let (s', o) = set_level caller_ok announce level s in after o s'
  run (logger_to level l) s = set_logger level l s
  run (get level) s = after_get (get_logger level s) s
  run (log_at level m) s = after (log caller_ok level m s) s
  run (e m) s = after (log_e caller_ok m s) s
  run (w m) s = after (log_w caller_ok m s) s
  run (i m) s = after (log_i caller_ok m s) s
  run (d m) s = after (log_d caller_ok m s) s

  -- The loggers after the calls, `none` for a panic.
  unfoldable pub run_all : List (LogCall L M) → Logger L M → Option (Logger L M)
  unfolding run
  run_all [] s = some s
  run_all (c ∷ cs) s = and_then (run_all cs) (run c s)

-- ===== src/Logger.antt =====
-- logger/logger.go: the level, the filters and the loggers. What a log.Logger writes is kept as a value,
-- of the logger and the message; the message is the format with its arguments. A level is an int.
use helper.Base.{
  ℕ, Bool, true, false, String, Option, none, some, List, [], ◌∷◌, map, if◌then◌else◌, get_elem?,
  set, string_eq,
}
use helper.Base.Int.{ℤ, pos, negsuc, ltz, lez}
use helper.Base.Dict.{insert}
pub mod Safe
pub mod Tests

-- `const ERROR` to `const DEBUG`, and LoggerNum.
abbrev pub error : ℤ
error = pos 3

abbrev pub warning : ℤ
warning = pos 4

abbrev pub info : ℤ
info = pos 6

abbrev pub debug : ℤ
debug = pos 7

abbrev pub logger_num : ℕ
logger_num = 8

-- A *log.Logger is `none` for nil. A filter answers of a level and a message whether to go on.
pub record Logger (L M : Type 0) : Type 0 where
  pub log_level : ℤ
  pub loggers : List (Option L)
  pub filters : List (String × (ℤ → M → Bool))

-- What became of a message: a filter or a level dropped it, a logger printed it, with the place of the
-- call or without, the discarding logger took it, or the call panicked.
pub data Logged (L M : Type 0) : Type 0 where
  dropped : Logged L M
  printed : L → Bool → M → Logged L M
  discarded : M → Logged L M
  panicked : Logged L M

-- `loggers[level]`: `none` for a panic or nil.
abbrev pub logger_of : {L : Type 0} → Option (Option L) → Option L
logger_of none = none
logger_of (some l) = l

unfoldable pub at : {L : Type 0} → ℤ → List (Option L) → Option L
at (pos n) ls = logger_of (get_elem? ls n)
at (negsuc n) ls = none

abbrev pub passes : {M : Type 0} → ℤ → M → List (String × (ℤ → M → Bool)) → Bool
passes level m [] = true
passes level m ((name, f) ∷ fs) = if f level m then passes level m fs else false

module _ {L M : Type 0} where
  abbrev pub print : Bool → M → Option L → Logged L M
  print located m none = panicked
  print located m (some l) = printed l located m

  -- `caller_ok` is the ok of runtime.Caller.
  unfoldable pub log : Bool → ℤ → M → Logger L M → Logged L M
  unfolding at
  log caller_ok level m s =
      if passes level m s.filters
      then if lez level s.log_level
        then if lez level error
          then print caller_ok m (at level s.loggers)
          else print false m (at level s.loggers)
        else discarded m
      else dropped

  unfoldable pub log_e : Bool → M → Logger L M → Logged L M
  unfolding log
  log_e caller_ok m s = log caller_ok error m s

  unfoldable pub log_d : Bool → M → Logger L M → Logged L M
  unfolding log
  log_d caller_ok m s = if ltz s.log_level debug then dropped else log caller_ok debug m s

  unfoldable pub log_i : Bool → M → Logger L M → Logged L M
  unfolding log
  log_i caller_ok m s = if ltz s.log_level info then dropped else log caller_ok info m s

  unfoldable pub log_w : Bool → M → Logger L M → Logged L M
  unfolding log
  log_w caller_ok m s = if ltz s.log_level warning then dropped else log caller_ok warning m s

  unfoldable pub register_filter : String → (ℤ → M → Bool) → Logger L M → Logger L M
  unfolding insert
  register_filter name f s = record s { filters = insert name f s.filters }

  -- The level is set before the message of it, `announce`, is logged.
  unfoldable pub set_level : Bool → (ℤ → M) → ℤ → Logger L M → Logger L M × Logged L M
  unfolding log_i
  set_level caller_ok announce level s =
      let s' : Logger L M = record s { log_level = level } in
      (s', log_i caller_ok (announce level) s')

  -- `none` for a panic.
  unfoldable pub get_logger : ℤ → Logger L M → Option (Option L)
  get_logger (negsuc n) s = none
  get_logger (pos n) s = if ltz (pos logger_num) (pos n) then some none else get_elem? s.loggers n

  -- `loggers[level] = l`.
  abbrev pub set_at : ℕ → Option L → Logger L M → Option (Option L) → Option (Logger L M)
  set_at n l s none = none
  set_at n l s (some old) = some (record s { loggers = set s.loggers n l })

  abbrev pub set_below : ℤ → Option L → Logger L M → Option (Logger L M)
  set_below (negsuc n) l s = none
  set_below (pos n) l s = set_at n l s (get_elem? s.loggers n)

  unfoldable pub set_logger : ℤ → Option L → Logger L M → Option (Logger L M)
  set_logger level l s = if lez (pos logger_num) level then some s else set_below level l s

-- The eight loggers of init, of which `to` gives the writer by its level.
abbrev pub start : {L M : Type 0} → (ℕ → L) → Logger L M
start to = record {
  log_level = info;
  loggers = map (λ i. some (to i)) (0 ∷ 1 ∷ 2 ∷ 3 ∷ 4 ∷ 5 ∷ 6 ∷ 7 ∷ []);
  filters = [];
}

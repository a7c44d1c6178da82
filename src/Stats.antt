-- ===== src/Stats.antt =====
-- stats/stats.go: counters with a statistic for each term. A term's key and `Duration` are whole
-- seconds, at least 1 by AddTerm's check; counts, values and times are `int64`.
pub mod Extremes
pub mod Periods
pub mod Terms
mod Tests
use Prim.Native.Nat.{bit_and}
use helper.Base.{
  ℕ, ◌/◌, ◌≡◌, Bool, true, false, not, ◌||◌, Option, none, some, List, [], ◌∷◌, if◌then◌else◌, ltb,
  leb, String, nat_eq,
}
use helper.Base.Dict.{lookup, insert}
use helper.Base.Int.{ℤ, pos, negsuc, ltz, lez, eqz, quot, pos_part}
use helper.Base.Int64.{◌+64◌, ◌-64◌}

-- `BuiltinTerm`: `1 << iota`, from iota 1 on.
abbrev pub term_second : ℕ
term_second = 2

abbrev pub term_minue : ℕ
term_minue = 4

abbrev pub term_hour : ℕ
term_hour = 8

abbrev pub term_day : ℕ
term_day = 16

abbrev pub term_week : ℕ
term_week = 32

abbrev pub check_thresh_hold : ℕ
check_thresh_hold = 10

pub record Statistic : Type 0 where
  pub total : ℤ
  pub min : ℤ
  pub max : ℤ
  pub value_total : ℤ
  pub value_avg : ℤ
  pub value_avg_min : ℤ
  pub value_avg_max : ℤ
  pub duration : ℕ
  pub ts_start : ℤ

pub record CountMessage : Type 0 where
  pub count : ℤ
  pub value : ℤ
  pub ts : ℤ

pub record Counter : Type 0 where
  pub name : String
  pub terms : List (ℕ × Statistic)
  pub start_time : ℤ

-- `&Statistic{Duration: key}`.
abbrev pub new_statistic : ℕ → Statistic
new_statistic key = record {
  total = pos 0;
  min = pos 0;
  max = pos 0;
  value_total = pos 0;
  value_avg = pos 0;
  value_avg_min = pos 0;
  value_avg_max = pos 0;
  duration = key;
  ts_start = pos 0;
}

unfoldable pub add : Statistic → ℤ → ℤ → Statistic
unfolding ◌+64◌
add c total value = record c { total = c.total +64 total; value_total = c.value_total +64 value }

-- `if x > m { m = x }`.
abbrev pub raise : ℤ → ℤ → ℤ
raise m x = if ltz m x then x else m

-- `if m == 0 || m > x { m = x }`.
abbrev pub lower : ℤ → ℤ → ℤ
lower m x = if eqz m (pos 0) || ltz x m then x else m

unfoldable pub reset : Statistic → Statistic
reset c =
    let avg = quot c.value_total c.total in
    if eqz c.total (pos 0) then c else record c {
      max = raise c.max c.total;
      min = lower c.min c.total;
      value_avg = avg;
      value_avg_max = raise c.value_avg_max avg;
      value_avg_min = lower c.value_avg_min avg;
      total = pos 0;
      value_total = pos 0;
    }

-- One round of the loop over the terms at `case msg := <-counter.msg`.
unfoldable pub count_message : ℕ → Statistic → CountMessage → Statistic
unfolding add reset ◌-64◌
count_message k c msg =
    if leb k check_thresh_hold
    then (if ltz (pos c.duration) (msg.ts -64 c.ts_start)
        then record (reset c) { ts_start = msg.ts }
        else add c msg.count msg.value)
    else add c msg.count msg.value

unfoldable pub count_all : List (ℕ × Statistic) → CountMessage → List (ℕ × Statistic)
unfolding count_message
count_all [] msg = []
count_all ((k, c) ∷ m) msg = (k, count_message k c msg) ∷ count_all m msg

-- `case c := <-counter.reset`, for the statistic of one key.
unfoldable pub reset_term : List (ℕ × Statistic) → ℕ → List (ℕ × Statistic)
unfolding reset
reset_term [] key = []
reset_term ((k, c) ∷ m) key =
    if nat_eq.test k key then (k, reset c) ∷ m else (k, c) ∷ reset_term m key

-- The start of the handler: every term begins at the counter's start time.
unfoldable pub start_terms : List (ℕ × Statistic) → ℤ → List (ℕ × Statistic)
start_terms [] now = []
start_terms ((k, c) ∷ m) now = (k, record c { ts_start = now }) ∷ start_terms m now

unfoldable pub start : Counter → ℤ → Counter
unfolding start_terms
start counter now = record counter { start_time = now; terms = start_terms counter.terms now }

pub data AddTermError : Type 0 where
  too_short already_started : AddTermError

abbrev second : ℕ
second = 1_000_000_000

-- `if _, found := counter.Terms[key]; found { return nil }`, then the new term.
unfoldable pub add_new_term : Option Statistic → Counter → ℕ → Counter
add_new_term (some c) counter key = counter
add_new_term none counter key = record counter {
  terms = insert key (new_statistic key) counter.terms;
}

unfoldable pub add_term : Counter → ℤ → Counter × Option AddTermError
unfolding add_new_term
add_term counter dur =
    let key = pos_part dur / second in
    if ltz dur (pos second)
    then (counter, some too_short)
    else if not (eqz counter.start_time (pos 0))
    then (counter, some already_started)
    else (add_new_term (lookup key counter.terms) counter key, none)

-- `if (terms & bit) > 0 { counter.Terms[key] = ... }`.
builtin_term : ℕ → ℕ → ℕ → List (ℕ × Statistic) → List (ℕ × Statistic)
builtin_term terms bit key m =
    if ltb 0 (bit_and terms bit) then insert key (new_statistic key) m else m

unfoldable pub new_counter : String → ℕ → Counter
unfolding builtin_term
new_counter name terms = record {
  name = name;
  terms = builtin_term terms term_week 604800 (
      builtin_term terms term_day 86400 (
        builtin_term terms term_hour 3600
          (builtin_term terms term_minue 60 (builtin_term terms term_second 1 []))));
  start_time = pos 0;
}

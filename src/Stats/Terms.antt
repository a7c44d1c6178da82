-- ===== src/Stats/Terms.antt =====
-- stats/stats.go: the terms that NewCounter and AddTerm make.
use Prim.Native.Nat.{bit_and}
use helper.Base.{
  ℕ, ◌/◌, ◌<◌, ◌≡◌, refl, ◌≢◌, true, false, Option, none, some, List, [], arith, if◌then◌else◌, ltb,
  ◌==◌, nat_eq, All, String, is_some, inl, inr, Bool-cases,
}
use helper.Base.Dict.{lookup, lookup-insert, Distinct, insert-Distinct, All-insert}
use helper.Base.Int.{ℤ, pos, ltz, eqz, pos_part}
use helper.Stats.{
  Statistic, Counter, new_statistic, builtin_term, new_counter, add_new_term, add_term,
  AddTermError, too_short, already_started, second, term_second, term_minue, term_hour, term_day,
  term_week,
}

-- The period in seconds of a bit of the mask.
abbrev pub chosen : ℕ → ℕ → ℕ → Option Statistic → Option Statistic
chosen terms bit key other = if ltb 0 (bit_and terms bit) then some (new_statistic key) else other

builtin_term-lookup :
    (terms bit key k : ℕ) (m : List (ℕ × Statistic))
    → lookup k (builtin_term terms bit key m)
      ≡ (if key == k then chosen terms bit key (lookup k m) else lookup k m)
unfolding builtin_term
builtin_term-lookup terms bit key k m = ground (arith, lookup-insert key k (new_statistic key) m)

-- What the mask says of a key.
abbrev pub expected : ℕ → ℕ → Option Statistic
expected terms k =
    if k == 604800
    then chosen terms term_week 604800 none
    else if k == 86400
    then chosen terms term_day 86400 none
    else if k == 3600
    then chosen terms term_hour 3600 none
    else if k == 60
    then chosen terms term_minue 60 none
    else if k == 1
    then chosen terms term_second 1 none
    else none

-- A new counter has a fresh statistic for exactly the periods of a second, minute, hour, day and
-- week whose bit is set in the mask, each under its length in seconds, and nothing else.
pub new_counter-terms :
    (name : String) (terms k : ℕ) → lookup k (new_counter name terms).terms ≡ expected terms k
unfolding new_counter lookup
new_counter-terms name terms k = ground (
  arith,
  builtin_term-lookup terms term_second 1 k [],
  builtin_term-lookup terms term_minue 60 k (builtin_term terms term_second 1 []),
  builtin_term-lookup terms term_hour 3600 k
      (builtin_term terms term_minue 60 (builtin_term terms term_second 1 [])),
  builtin_term-lookup terms term_day 86400 k (
      builtin_term terms term_hour 3600
        (builtin_term terms term_minue 60 (builtin_term terms term_second 1 []))),
  builtin_term-lookup terms term_week 604800 k (
      builtin_term terms term_day 86400 (
        builtin_term terms term_hour 3600
          (builtin_term terms term_minue 60 (builtin_term terms term_second 1 [])))),
)

-- Every statistic stands under its own period, which is at least a second.
abbrev pub IsTerm : ℕ × Statistic → Type 0
IsTerm (k, c) = (c.duration ≡ k) × (0 < k)

pub record IsValid (counter : Counter) : Type 0 where
  pub keyed : All IsTerm counter.terms
  pub distinct : Distinct counter.terms

second_key : (dur : ℤ) → ltz dur (pos second) ≡ false → 0 < pos_part dur / second
second_key dur h = ground arith

-- What AddTerm's caller may rely on.
pub record AddsTerm (counter counter' : Counter) (key : ℕ) (err : Option AddTermError)
    : Type 0 where
  valid : IsValid counter'
  present : err ≡ none → is_some (lookup key counter'.terms) ≡ true
  kept :
      (k : ℕ)
      → is_some (lookup k counter.terms) ≡ true
      → lookup k counter'.terms ≡ lookup k counter.terms
  failed : err ≢ none → counter' ≡ counter

unchanged_AddsTerm :
    (counter : Counter) (key : ℕ) (err : AddTermError)
    → IsValid counter
    → AddsTerm counter counter key (some err)
unchanged_AddsTerm counter key err v = record {
  valid = v;
  present = λ e. ground arith;
  kept = λ k e. refl;
  failed = λ e. refl;
}

add_new_term-AddsTerm :
    (counter : Counter) (key : ℕ) (found : Option Statistic)
    → lookup key counter.terms ≡ found
    → 0 < key
    → IsValid counter
    → AddsTerm counter (add_new_term found counter key) key none
unfolding add_new_term
add_new_term-AddsTerm counter key (some c) e p v = record {
  valid = v;
  present = λ n. ground arith;
  kept = λ k n. refl;
  failed = λ n. refl;
}
add_new_term-AddsTerm counter key none e p v = record {
  valid = record {
    keyed = All-insert IsTerm key (new_statistic key) counter.terms v.keyed (refl, p);
    distinct = insert-Distinct key (new_statistic key) counter.terms v.distinct;
  };
  present = λ n. ground (arith, lookup-insert key key (new_statistic key) counter.terms);
  kept = λ k n. ground (arith, lookup-insert key k (new_statistic key) counter.terms);
  failed = λ n. absurd (n refl);
}

-- AddTerm keeps the terms keyed by their period; after a success the counter has a statistic for the
-- period, rounded down to whole seconds, and every term that was there is unchanged; when it fails it
-- changes nothing.
pub add_term-IsValid :
    (counter : Counter) (dur : ℤ)
    → IsValid counter
    → AddsTerm counter (add_term counter dur).0 (pos_part dur / second) (add_term counter dur).1
unfolding add_term
add_term-IsValid counter dur v = elim (Bool-cases (ltz dur (pos second))) [
  | inl short ↦ rw short (unchanged_AddsTerm counter _ too_short v)
  | inr long ↦ rw long (elim (Bool-cases (eqz counter.start_time (pos 0))) [
    | inl fresh ↦ rw fresh (add_new_term-AddsTerm counter _ _ refl (second_key dur long) v)
    | inr started ↦ rw started (unchanged_AddsTerm counter _ already_started v)
  ])
]

-- ===== src/Stats/Periods.antt =====
-- stats/stats.go, the message handler: which messages are in a statistic's total.
use helper.Base.{
  ℕ, ◌≤◌, ◌<◌, ◌≡◌, refl, sym, ap, ◌∙◌, Bool, true, false, Option, none, some, List, [], ◌∷◌, arith,
  if◌then◌else◌, nat_eq, ◌==◌,
}
use helper.Base.Dict.{lookup}
use helper.Base.Int.{ℤ, pos, ltz}
use helper.Base.Int64.{◌+64◌, ◌-64◌}
use helper.Stats.{
  Statistic, CountMessage, add, reset, count_message, count_all, reset_term, check_thresh_hold,
}

-- What the handler of a running counter receives.
pub data Event : Type 0 where
  counts : CountMessage → Event
  resets : ℕ → Event

unfoldable pub handle : List (ℕ × Statistic) → Event → List (ℕ × Statistic)
handle m (counts msg) = count_all m msg
handle m (resets key) = reset_term m key

unfoldable pub handle_all : List (ℕ × Statistic) → List Event → List (ℕ × Statistic)
handle_all m [] = m
handle_all m (e ∷ es) = handle_all (handle m e) es

abbrev zero_or : Bool → ℤ → ℤ
zero_or true t = pos 0
zero_or false t = t

-- The sum of the messages since the last reset of the key, on top of a first total.
abbrev pub since_reset : ℕ → ℤ → List Event → ℤ
since_reset key t [] = t
since_reset key t (counts msg ∷ es) = since_reset key (t +64 msg.count) es
since_reset key t (resets k ∷ es) = since_reset key (zero_or (k == key) t) es

abbrev pub total_of : Option Statistic → Option ℤ
total_of none = none
total_of (some c) = some c.total

lookup-count_all :
    (key : ℕ) (m : List (ℕ × Statistic)) (msg : CountMessage)
    → lookup key (count_all m msg)
      ≡ elim (lookup key m) [ none ↦ none | some c ↦ some (count_message key c msg) ]
unfolding lookup count_all
lookup-count_all key [] msg = refl
lookup-count_all key ((k, c) ∷ m) msg = ground (arith, lookup-count_all key m msg)

lookup-reset_term :
    (key k : ℕ) (m : List (ℕ × Statistic))
    → lookup key (reset_term m k)
      ≡ elim (lookup key m) [ none ↦ none | some c ↦ some (if k == key then reset c else c) ]
unfolding lookup reset_term
lookup-reset_term key k [] = refl
lookup-reset_term key k ((j, c) ∷ m) = ground (arith, lookup-reset_term key k m)

reset-total : (c : Statistic) → (reset c).total ≡ pos 0
unfolding reset
reset-total c = ground arith

-- A term above the threshold counts every message; a reset is for one key.
handle_long :
    (key : ℕ) (m : List (ℕ × Statistic)) (c : Statistic) (e : Event)
    → check_thresh_hold < key
    → lookup key m ≡ some c
    → (c' : Statistic) × (lookup key (handle m e) ≡ some c')
      × (c'.total ≡ since_reset key c.total (e ∷ []))
unfolding handle count_message add
handle_long key m c (counts msg) l e =
    (count_message key c msg, lookup-count_all key m msg ∙ rw e refl, ground arith)
handle_long key m c (resets k) l e = (
  if k == key then reset c else c,
  lookup-reset_term key k m ∙ rw e refl,
  ground (arith, reset-total c),
)

since_reset_step :
    (key : ℕ) (t : ℤ) (e : Event) (es : List Event)
    → since_reset key t (e ∷ es) ≡ since_reset key (since_reset key t (e ∷ [])) es
since_reset_step key t (counts msg) es = refl
since_reset_step key t (resets k) es = refl

-- For a term longer than the threshold, after any messages and resets in any order, the total is the
-- `int64` sum of the counts of all messages since the last reset of that term: no message is lost,
-- and messages and resets of other terms change nothing.
pub handle_all-total :
    (key : ℕ) (m : List (ℕ × Statistic)) (c : Statistic) (es : List Event)
    → check_thresh_hold < key
    → lookup key m ≡ some c
    → total_of (lookup key (handle_all m es)) ≡ some (since_reset key c.total es)
unfolding handle_all
handle_all-total key m c [] l e = ap total_of e
handle_all-total key m c (ev ∷ es) l e =
    let (c', found, total) = handle_long key m c ev l e in
    handle_all-total key (handle m ev) c' es l found
    ∙ ap (λ t. some (since_reset key t es)) total
    ∙ ap {B = Option ℤ} (λ t. some t) (sym (since_reset_step key c.total ev es))

-- For a term at or below the threshold, the message that finds the period over is not counted: the
-- statistic afterwards, with a total of zero, does not depend on the message's count and value.
pub count_message-drops_late :
    (key : ℕ) (c : Statistic) (msg : CountMessage) (count value : ℤ)
    → key ≤ check_thresh_hold
    → ltz (pos c.duration) (msg.ts -64 c.ts_start) ≡ true
    → (count_message key c msg ≡ count_message key c (record msg { count = count; value = value }))
      × ((count_message key c msg).total ≡ pos 0)
unfolding count_message
count_message-drops_late key c msg count value l late = ground (arith, reset-total c)

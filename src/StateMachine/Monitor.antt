-- ===== src/StateMachine/Monitor.antt =====
-- The specification of StateMachine/sm.go as seen by its handlers and action functions: a monitor
-- that reads the calls in order and refuses the first one that is out of place.
use helper.Base.{
  ◌≡◌, refl, String, Bool, ◌&&◌, ◌||◌, Option, none, some, List, [], ◌∷◌, ◌++◌, if◌then◌else◌,
  str_eq,
}
use helper.StateMachine.{Call, leave, enter, run}

pub data Phase : Type 0 where
  no_state : Phase
  in_state : String → Phase
  between : String → String → Phase

abbrev require : Bool → Phase → Option Phase
require b p = if b then some p else none

-- Enter and Leave alternate and name the states that they stand between; an action runs outside
-- every state only if it asks for none, and inside a state only if it asks for none or for that one.
abbrev pub watch : Phase → Call → Option Phase
watch no_state (enter h none b) = some (in_state b)
watch no_state (run f bound) = require (str_eq bound "") no_state
watch (in_state a) (leave h a' b) = require (str_eq a' a) (between a b)
watch (in_state a) (run f bound) = require (str_eq bound "" || str_eq a bound) (in_state a)
watch (between a b) (enter h (some a') b') = require (str_eq a' a && str_eq b' b) (in_state b)
watch _ _ = none

abbrev pub then_watch : Option Phase → Call → Option Phase
then_watch none c = none
then_watch (some p) c = watch p c

abbrev pub watch_all : Option Phase → List Call → Option Phase
watch_all p [] = p
watch_all p (c ∷ cs) = watch_all (then_watch p c) cs

pub watch_all-append :
    (p : Option Phase) (cs ds : List Call) → watch_all p (cs ++ ds) ≡ watch_all (watch_all p cs) ds
watch_all-append p [] ds = refl
watch_all-append p (c ∷ cs) ds = watch_all-append (then_watch p c) cs ds

-- ===== src/StateMachine/Tests.antt =====
-- The theorems about StateMachine/sm.go at concrete machines, and runs of the model.
use helper.Base.{◌≡◌, refl, String, false, none, some, [], ◌∷◌, string_eq}
use helper.Base.Dict.{lookup, insert, delete}
use helper.Base.Int.{pos, ◌+ℤ◌}
use helper.StateMachine.{
  SmObject, Action, Message, enter, leave, default_handler, custom_handler, new_state_machine,
  register_state, get_state, find_action, on_state_message, on_add_action_message, handle_message,
  clear_actions,
}
use helper.StateMachine.Callers.{set_state}
use helper.StateMachine.Loop.{here, next, registers, asks_state, takes_message}
use helper.StateMachine.Invariant.{IsValid, register_state-IsValid, new_state_machine-IsValid}
use helper.StateMachine.Reachable.{Reach-IsValid}
use helper.StateMachine.Preserve.{on_state_message-IsValid, on_add_action_message-IsValid}
use helper.StateMachine.Adding.{adding, on_add_action_message-replaces}
use helper.StateMachine.Actions.{asking, on_state_message-transition}
use helper.StateMachine.Stopping.{
  StopMachine, StopReach, pending, start, then, IsJammed, clear_actions_can_jam,
  cleared_never_fires, locks, stops_timer, meets, unlocks, cleared, will_fire, wants_lock, free,
  spent,
}

abbrev keepalive : Message
keepalive = asking "keepalive" none

-- A machine with two states, the first of them entered, and two actions.
abbrev sample : String → String → Action
sample id bound = record {
  id = id;
  description = "";
  fire_in_state = bound;
  delay = pos 2;
  timer = none;
  f = 1;
  queued = pos 0;
}

abbrev two_states : SmObject
unfolding new_state_machine register_state on_state_message on_add_action_message
two_states =
    let m0 = register_state (new_state_machine "test") "connect" default_handler in
    let m1 = register_state m0 "keepalive" (custom_handler 1) in
    let m2 = on_state_message m1 (asking "connect" (some 5)) in
    let m3 = on_add_action_message m2 (pos 0) false (adding (sample "ping" "connect")) in
    on_add_action_message m3 (pos 0) false (adding (sample "log" ""))

entered_keepalive :
    (on_state_message two_states keepalive).calls
    ≡ enter default_handler none "connect"
      ∷ leave default_handler "connect" "keepalive"
      ∷ enter (custom_handler 1) (some "connect") "keepalive"
      ∷ []
unfolding two_states on_state_message register_state new_state_machine on_add_action_message lookup
    insert delete get_state clear_actions find_action
entered_keepalive = refl

two_states-IsValid : IsValid two_states
unfolding two_states new_state_machine register_state on_state_message on_add_action_message
two_states-IsValid = on_add_action_message-IsValid _ (pos 0) false (adding (sample "log" "")) (
    on_add_action_message-IsValid _ (pos 0) false (adding (sample "ping" "connect")) (
      on_state_message-IsValid _ (asking "connect" (some 5)) (
        register_state-IsValid _ "keepalive" (custom_handler 1)
          (register_state-IsValid _ "connect" default_handler (new_state_machine-IsValid "test")))))

on_state_message-transition_example : (on_state_message two_states keepalive).state_curr ≡ some 1
unfolding two_states on_state_message register_state new_state_machine on_add_action_message lookup
    insert delete get_state clear_actions find_action
on_state_message-transition_example =
    (on_state_message-transition two_states "keepalive" none 1 two_states-IsValid
      (λ id act e b. refl) refl refl).0

abbrev again : Action
again = record {
  id = "ping";
  description = "again";
  fire_in_state = "";
  delay = pos 9;
  timer = none;
  f = 2;
  queued = pos 0;
}

on_add_action_message-replaces_example :
    find_action (on_add_action_message two_states (pos 1) false (adding again)) "ping"
    ≡ some (record again { queued = pos 1; timer = some (pos 1 +ℤ pos 9) })
unfolding two_states
on_add_action_message-replaces_example =
    (on_add_action_message-replaces two_states (pos 1) again "log" two_states-IsValid).0

abbrev one_state : SmObject
unfolding register_state new_state_machine
one_state = register_state (new_state_machine "test") "connect" default_handler

abbrev asked : SmObject
unfolding register_state new_state_machine
asked = record one_state { msg_ctrl = asking "connect" none ∷ [] }

Reach-IsValid_example : IsValid (handle_message one_state (pos 0) false (asking "connect" none))
unfolding set_state register_state new_state_machine
Reach-IsValid_example = Reach-IsValid "test" _ (
    next {t = asked}
      (next (next here (registers "connect" default_handler refl)) (asks_state "connect" none refl))
      (takes_message (asking "connect" none) [] (pos 0) false refl refl))

clear_actions_can_jam_example :
    (t : StopMachine) × StopReach pending t × ((u : StopMachine) → StopReach t u → IsJammed u)
clear_actions_can_jam_example = clear_actions_can_jam pending refl refl refl refl refl

-- The loop and the thread meet before the timer expires.
abbrev met : StopMachine
met = record pending { lock = free; loop = cleared; thread = wants_lock false; timer = spent }

cleared_never_fires_example : (met.sent ≡ false) × (will_fire met.thread ≡ false)
cleared_never_fires_example =
    cleared_never_fires met met
      (then
        (then (then (then start (locks refl refl refl refl)) (stops_timer refl refl))
          (meets refl refl refl))
        (unlocks refl refl))
      refl start

-- ===== src/StateMachine/Reachable.antt =====
-- StateMachine/sm.go: the invariant over whole lives of a machine.
use helper.Base.{
  ℕ, string_eq, ◌≡◌, refl, Bool, true, false, String, Option, none, some, List, [], ◌∷◌, ◌++◌,
  arith,
}
use helper.Base.Dict.{insert, insert-Distinct, All-insert}
use helper.Base.Int.{ℤ}
use helper.StateMachine.{
  SmObject, Action, Message, MessageType, mt_unknown, mt_set_sm_state, mt_add_sm_action, Call, run,
  object_name, new_state_machine, set_name, stop, timer_expires, handle_message, fire_action,
  dispatch,
}
use helper.StateMachine.Callers.{set_state, add_action, send_message}
use helper.StateMachine.Loop.{
  Step, Reach, here, next, renames, registers, asks_state, asks_action, sends, stops, runs_out,
  leaves, takes_message, takes_action,
}
use helper.StateMachine.Monitor.{no_state, watch_all, watch_all-append}
use helper.StateMachine.Invariant.{
  IsValid, IsKeyed, phase, register_state-IsValid, new_state_machine-IsValid,
}
use helper.StateMachine.Preserve.{
  on_state_message-IsValid, on_add_action_message-IsValid, thread_leaves-IsValid,
}

-- An action's function is called only where the monitor allows it.
fire_watched :
    (obj : SmObject) (act : Action) (c : Option String)
    → object_name obj.heap obj.state_curr ≡ c
    → watch_all (some no_state) obj.calls ≡ some (phase c)
    → watch_all (some no_state) (fire_action obj act).calls ≡ some (phase c)
unfolding fire_action
fire_watched obj act none e w =
    ground (arith, watch_all-append (some no_state) obj.calls (run act.f act.fire_in_state ∷ []))
fire_watched obj act (some a) e w =
    ground (arith, watch_all-append (some no_state) obj.calls (run act.f act.fire_in_state ∷ []))

fire_frame :
    (obj : SmObject) (act : Action)
    → fire_action obj act ≡ record obj { calls = (fire_action obj act).calls }
unfolding fire_action
fire_frame obj act = ground arith

with_calls :
    (obj : SmObject) (cs : List Call)
    → IsValid obj
    → watch_all (some no_state) cs ≡ some (phase (object_name obj.heap obj.state_curr))
    → IsValid (record obj { calls = cs })
with_calls obj cs v w = record {
  states_entries = v.states_entries;
  states_distinct = v.states_distinct;
  curr_points = v.curr_points;
  prev_points = v.prev_points;
  next_is_nil = v.next_is_nil;
  actions_keyed = v.actions_keyed;
  actions_distinct = v.actions_distinct;
  watched = w;
}

fire_action-IsValid : (obj : SmObject) (act : Action) → IsValid obj → IsValid (fire_action obj act)
fire_action-IsValid obj act v =
    rw (fire_frame obj act)
      (with_calls obj (fire_action obj act).calls v (fire_watched obj act _ refl v.watched))

-- The channels and the name play no part in the invariant.
with_queues :
    (obj : SmObject) (n : String) (ms : List Message) (acts : List Action)
    → IsValid obj
    → IsValid (record obj { name = n; msg_ctrl = ms; act_ctrl = acts })
with_queues obj n ms acts v = record {
  states_entries = v.states_entries;
  states_distinct = v.states_distinct;
  curr_points = v.curr_points;
  prev_points = v.prev_points;
  next_is_nil = v.next_is_nil;
  actions_keyed = v.actions_keyed;
  actions_distinct = v.actions_distinct;
  watched = v.watched;
}

-- An entry that is written anew, whatever thread leaves.
with_entry :
    (obj : SmObject) (act : Action) (ls : List (String × Bool))
    → IsValid obj
    → IsValid (record obj { actions = insert act.id act obj.actions; leaving = ls })
with_entry obj act ls v = record {
  states_entries = v.states_entries;
  states_distinct = v.states_distinct;
  curr_points = v.curr_points;
  prev_points = v.prev_points;
  next_is_nil = v.next_is_nil;
  actions_keyed = All-insert IsKeyed act.id act obj.actions v.actions_keyed refl;
  actions_distinct = insert-Distinct act.id act obj.actions v.actions_distinct;
  watched = v.watched;
}

handle_message-IsValid :
    (obj : SmObject) (now : ℤ) (gone : Bool) (msg : Message)
    → IsValid obj
    → IsValid (handle_message obj now gone msg)
unfolding handle_message
handle_message-IsValid obj now gone msg v = by_type msg.msg_type
  where
    by_type : (t : MessageType) → IsValid (dispatch t obj now gone msg)
    by_type mt_unknown = v
    by_type mt_set_sm_state = on_state_message-IsValid obj msg v
    by_type mt_add_sm_action = on_add_action_message-IsValid obj now gone msg v

-- A send that does not wait only appends to its channel.
Sent : SmObject → SmObject → Type 0
Sent s t =
    (ms : List Message) × (acts : List Action) × (t
      ≡ record s { name = s.name; msg_ctrl = ms; act_ctrl = acts })

send_message-Sent :
    (s : SmObject) (msg : Message) (t : SmObject) → send_message s msg ≡ some t → Sent s t
unfolding send_message Sent
send_message-Sent s msg t e = (s.msg_ctrl ++ msg ∷ [], s.act_ctrl, ground arith)

set_state-Sent :
    (s : SmObject) (n : String) (p : Option ℕ) (t : SmObject) → set_state s n p ≡ some t → Sent s t
unfolding set_state
set_state-Sent s n p t e = send_message-Sent s _ t e

add_action-Sent :
    (s : SmObject) (id : String) (f : ℕ) (d : ℤ) (desc bound : String) (t : SmObject)
    → add_action s id f d desc bound ≡ some t
    → Sent s t
unfolding add_action Sent
add_action-Sent s id f d desc bound t e = (t.msg_ctrl, t.act_ctrl, ground arith)

Sent-IsValid : (s t : SmObject) → Sent s t → IsValid s → IsValid t
unfolding Sent
Sent-IsValid s t (ms, acts, e) v = rw e (with_queues s s.name ms acts v)

Step-IsValid : {s t : SmObject} → Step s t → IsValid s → IsValid t
unfolding set_name stop timer_expires
Step-IsValid {s} {t} (renames n e) v = rw e (with_queues s n s.msg_ctrl s.act_ctrl v)
Step-IsValid {s} {t} (registers n h e) v = rw e (register_state-IsValid s n h v)
Step-IsValid {s} {t} (asks_state n p e) v = Sent-IsValid s t (set_state-Sent s n p t e) v
Step-IsValid {s} {t} (asks_action id f d desc b e) v =
    Sent-IsValid s t (add_action-Sent s id f d desc b t e) v
Step-IsValid {s} {t} (sends msg e) v = Sent-IsValid s t (send_message-Sent s msg t e) v
Step-IsValid {s} {t} (stops act l n e) v =
    rw e (with_entry s (record act { timer = none }) (insert act.id false s.leaving) v)
Step-IsValid {s} {t} (runs_out act due l n d e) v =
    rw e (with_entry s (record act { timer = none }) (insert act.id true s.leaving) v)
Step-IsValid {s} {t} (leaves act b l o e) v = rw e (thread_leaves-IsValid s act b v)
Step-IsValid {s} {t} (takes_message msg rest now gone q e) v =
    rw e (handle_message-IsValid _ now gone msg (with_queues s s.name rest s.act_ctrl v))
Step-IsValid {s} {t} (takes_action act rest q e) v =
    rw e (fire_action-IsValid _ act (with_queues s s.name s.msg_ctrl rest v))

-- Whatever callers, timers and the loop do, and in whatever order, a machine that began with no
-- states satisfies the invariant: StateCurr, StatePrev and every entry of StateList point to live
-- objects, StateNext is nil between turns, actions are listed under their ids once each, and the
-- monitor accepts all calls made so far and ends in the phase of the current state.
pub Reach-IsValid : (name : String) (t : SmObject) → Reach (new_state_machine name) t → IsValid t
Reach-IsValid name t here = new_state_machine-IsValid name
Reach-IsValid name t (next {t = u} r st) = Step-IsValid st (Reach-IsValid name u r)

-- ===== src/StateMachine.antt =====
-- StateMachine/sm.go: a state machine whose state changes and delayed actions all run on one loop.
-- A `*StateObject` is an index into `heap`, since the loop compares pointers. A handler's call of
-- Enter or Leave, and a run of an action's function, is an entry of `calls`.
pub mod Callers
pub mod Loop
pub mod Monitor
pub mod Invariant
pub mod Preserve
pub mod Reachable
pub mod Actions
pub mod Adding
pub mod Stopping
mod Tests
use helper.Base.{
  ℕ, ◌+◌, ◌≡◌, String, Bool, true, false, not, ◌&&◌, Option, none, some, List, [], ◌∷◌, ◌++◌, ltb,
  ◌==◌, if◌then◌else◌, length, get_or, set, keep, str_eq, string_eq,
}
use helper.Base.Dict.{lookup, insert, delete}
use helper.Base.Int.{ℤ, pos, ltz, ◌+ℤ◌}

pub data MessageType : Type 0 where
  mt_unknown mt_set_sm_state mt_add_sm_action : MessageType

-- `timer` is the time at which `T` expires, `none` once it is stopped; `f` names the function.
pub record Action : Type 0 where
  pub id : String
  pub description : String
  pub fire_in_state : String
  pub delay : ℤ
  pub timer : Option ℤ
  pub f : ℕ
  pub queued : ℤ

pub record StateMessage : Type 0 where
  pub state : String
  pub priv : Option ℕ

-- The dynamic type of `Message.Data`.
pub data Payload : Type 0 where
  state_payload : StateMessage → Payload
  action_payload : Action → Payload
  other_payload : Payload

pub record Message : Type 0 where
  pub msg_type : MessageType
  pub payload : Payload

pub data Handler : Type 0 where
  default_handler : Handler
  custom_handler : ℕ → Handler

pub record StateObject : Type 0 where
  pub name : String
  pub handler : Handler
  pub priv : Option ℕ

-- What the machine calls: `Leave` with the names of StateCurr and StateNext, `Enter` with those of
-- StatePrev and StateCurr, and the function of an action with the state that the action asks for.
pub data Call : Type 0 where
  leave : Handler → String → String → Call
  enter : Handler → Option String → String → Call
  run : ℕ → String → Call

pub record SmObject : Type 0 where
  pub name : String
  pub heap : List StateObject
  pub state_next : Option ℕ
  pub state_curr : Option ℕ
  pub state_prev : Option ℕ
  pub msg_ctrl : List Message
  pub act_ctrl : List Action
  pub states : List (String × ℕ)
  pub actions : List (String × Action)
  -- The threads that are past their select and will delete their entries: `triggerAction` by the id.
  pub leaving : List (String × Bool)
  pub calls : List Call

abbrev pub nil_object : StateObject
nil_object = record { name = ""; handler = default_handler; priv = none }

abbrev pub object : List StateObject → ℕ → StateObject
object heap p = get_or heap p nil_object

abbrev pub object_name : List StateObject → Option ℕ → Option String
object_name heap none = none
object_name heap (some p) = some (object heap p).name

-- `a == b` on pointers.
abbrev pub same_pointer : Option ℕ → Option ℕ → Bool
same_pointer none none = true
same_pointer none (some q) = false
same_pointer (some p) none = false
same_pointer (some p) (some q) = p == q

unfoldable pub new_state_machine : String → SmObject
new_state_machine name = record {
  name = name;
  heap = [];
  state_next = none;
  state_curr = none;
  state_prev = none;
  msg_ctrl = [];
  act_ctrl = [];
  states = [];
  actions = [];
  leaving = [];
  calls = [];
}

unfoldable pub set_name : SmObject → String → SmObject
set_name obj name = record obj { name = name }

unfoldable pub get_state : SmObject → String → Option ℕ
get_state obj name = lookup name obj.states

unfoldable pub register_state : SmObject → String → Handler → SmObject
register_state obj state handler = record obj {
  heap = obj.heap ++ record { name = state; handler = handler; priv = none } ∷ [];
  states = insert state (length obj.heap) obj.states;
}

unfoldable pub find_action : SmObject → String → Option Action
find_action obj id = lookup id obj.actions

unfoldable pub get_actions : List (String × Action) → List Action
get_actions [] = []
get_actions ((id, act) ∷ m) = act ∷ get_actions m

-- `act.Stop()`: the timer is stopped, and the thread takes `act.Exit` and leaves. If it is leaving
-- already, the program waits for good where this goes on; StateMachine/Stopping is about that.
unfoldable pub stop : SmObject → Action → SmObject
stop obj act = record obj {
  actions = insert act.id (record act { timer = none }) obj.actions;
  leaving = insert act.id false obj.leaving;
}

-- `<-act.T.C` of ActionThread.
unfoldable pub timer_expires : SmObject → Action → SmObject
timer_expires obj act = record obj {
  actions = insert act.id (record act { timer = none }) obj.actions;
  leaving = insert act.id true obj.leaving;
}

-- The end of ActionThread: `delete`, and `obj.actCtrl <- act` if the timer ran out.
unfoldable pub thread_leaves : SmObject → Action → Bool → SmObject
thread_leaves obj act trigger_action = record obj {
  actions = delete act.id obj.actions;
  leaving = delete act.id obj.leaving;
  act_ctrl = if trigger_action then obj.act_ctrl ++ act ∷ [] else obj.act_ctrl;
}

pub stop_bound : SmObject → List (String × Action) → SmObject
unfolding stop
stop_bound obj [] = obj
stop_bound obj ((id, act) ∷ m) =
    stop_bound (if not (str_eq act.fire_in_state "") then stop obj act else obj) m

unfoldable pub clear_actions : SmObject → SmObject
unfolding stop_bound
clear_actions obj = stop_bound obj obj.actions

-- `act.T.Reset(m.Delay)` and the fields that `onAddActionMessage` writes.
abbrev pub refresh : ℤ → Action → Action → Action
refresh now m act = record act {
  queued = now;
  description = m.description;
  delay = m.delay;
  fire_in_state = m.fire_in_state;
  f = m.f;
  timer = some (now +ℤ m.delay);
}

-- The entry that FindAction gave. If it is gone by now, its thread having ended in between, what is
-- written is only seen by the loop, in the action that the thread has sent.
abbrev pub refresh_found : SmObject → ℤ → Bool → Action → Action → Option Bool → SmObject
unfolding thread_leaves
refresh_found obj now true m act (some trigger_action) =
    thread_leaves obj (refresh now m act) trigger_action
refresh_found obj now true m act none = thread_leaves obj (refresh now m act) true
refresh_found obj now false m act o = record obj {
  actions = insert m.id (refresh now m act) obj.actions;
}

pub add_action_payload : SmObject → ℤ → Bool → Payload → SmObject
unfolding find_action refresh_found
add_action_payload obj now gone (action_payload m) = elim (find_action obj m.id) [
  | some act ↦ refresh_found obj now gone m act (lookup m.id obj.leaving)
  | none ↦ record obj {
    actions = insert m.id (record m { queued = now; timer = some (now +ℤ m.delay) }) obj.actions;
  }
]
add_action_payload obj now gone other = obj

-- `gone` says whether the thread of the action deletes its entry between FindAction and the writes.
unfoldable pub on_add_action_message : SmObject → ℤ → Bool → Message → SmObject
unfolding add_action_payload
on_add_action_message obj now gone msg = add_action_payload obj now gone msg.payload

-- `obj.StateCurr.Handler.Leave(obj)`, if there is a current state.
pub leave_curr : SmObject → ℕ → Option ℕ → List Call
leave_curr obj p none = []
leave_curr obj p (some c) =
    leave (object obj.heap c).handler (object obj.heap c).name (object obj.heap p).name ∷ []

pub enter_state : SmObject → ℕ → Option ℕ → SmObject
unfolding leave_curr clear_actions
enter_state obj p priv =
    let heap = set obj.heap p (record (object obj.heap p) { priv = priv }) in
    let obj1 : SmObject = record obj { heap = heap } in
    let moved : SmObject = record obj1 {
      state_next = none;
      state_curr = some p;
      state_prev = obj1.state_curr;
      calls = obj1.calls ++ leave_curr obj1 p obj1.state_curr;
    } in
    let cleared = clear_actions moved in
    record cleared {
      calls =
          cleared.calls
          ++ enter (object cleared.heap p).handler (object_name cleared.heap cleared.state_prev)
              (object cleared.heap p).name
            ∷ [];
    }

state_payload_step : SmObject → Payload → SmObject
unfolding enter_state get_state
state_payload_step obj (state_payload m) =
    if length obj.states == 0
    then obj
    else if same_pointer obj.state_curr (get_state obj m.state)
    then obj
    else elim (get_state obj m.state) [ some p ↦ enter_state obj p m.priv | none ↦ obj ]
state_payload_step obj other = obj

unfoldable pub on_state_message : SmObject → Message → SmObject
unfolding state_payload_step
on_state_message obj msg = state_payload_step obj msg.payload

-- The `case act := <-obj.actCtrl` of the loop.
unfoldable pub fire_action : SmObject → Action → SmObject
fire_action obj act =
    let fired : SmObject = record obj { calls = obj.calls ++ run act.f act.fire_in_state ∷ [] } in
    if not (str_eq act.fire_in_state "")
    then elim obj.state_curr [
      | none ↦ obj
      | some c ↦ if str_eq (object obj.heap c).name act.fire_in_state then fired else obj
    ]
    else fired

dispatch : MessageType → SmObject → ℤ → Bool → Message → SmObject
unfolding on_state_message on_add_action_message
dispatch mt_set_sm_state obj now gone msg = on_state_message obj msg
dispatch mt_add_sm_action obj now gone msg = on_add_action_message obj now gone msg
dispatch mt_unknown obj now gone msg = obj

-- The `case msg := <-obj.msgCtrl` of the loop.
unfoldable pub handle_message : SmObject → ℤ → Bool → Message → SmObject
unfolding dispatch
handle_message obj now gone msg = dispatch msg.msg_type obj now gone msg

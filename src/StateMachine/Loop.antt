-- ===== src/StateMachine/Loop.antt =====
-- StateMachine/sm.go, `stateLoop` and the callers around it: what can happen next, one step at a time.
use helper.Base.{ℕ, ◌≡◌, Bool, none, String, string_eq, Option, some, List, ◌∷◌}
use helper.Base.Dict.{lookup}
use helper.Base.Int.{ℤ}
use helper.StateMachine.{
  SmObject, Action, Message, Handler, set_name, register_state, stop, timer_expires, thread_leaves,
  handle_message, fire_action,
}
use helper.StateMachine.Callers.{set_state, add_action, send_message}

-- A caller asks for something, an action's timer runs out or it is stopped, its thread deletes its
-- entry, or the loop takes a message or an action. A thread that sends waits in `actCtrl` if that is
-- full.
pub data Step (s : SmObject) (t : SmObject) : Type 0 where
  renames : (n : String) → t ≡ set_name s n → Step s t
  registers : (n : String) (h : Handler) → t ≡ register_state s n h → Step s t
  asks_state : (n : String) (priv : Option ℕ) → set_state s n priv ≡ some t → Step s t
  asks_action :
      (id : String) (f : ℕ) (delay : ℤ) (desc bound : String)
      → add_action s id f delay desc bound ≡ some t
      → Step s t
  sends : (msg : Message) → send_message s msg ≡ some t → Step s t
  stops :
      (act : Action)
      → lookup act.id s.actions ≡ some act
      → lookup act.id s.leaving ≡ none
      → t ≡ stop s act
      → Step s t
  runs_out :
      (act : Action) (due : ℤ)
      → lookup act.id s.actions ≡ some act
      → lookup act.id s.leaving ≡ none
      → act.timer ≡ some due
      → t ≡ timer_expires s act
      → Step s t
  leaves :
      (act : Action) (trigger_action : Bool)
      → lookup act.id s.actions ≡ some act
      → lookup act.id s.leaving ≡ some trigger_action
      → t ≡ thread_leaves s act trigger_action
      → Step s t
  takes_message :
      (msg : Message) (rest : List Message) (now : ℤ) (gone : Bool)
      → s.msg_ctrl ≡ msg ∷ rest
      → t ≡ handle_message (record s { msg_ctrl = rest }) now gone msg
      → Step s t
  takes_action :
      (act : Action) (rest : List Action)
      → s.act_ctrl ≡ act ∷ rest
      → t ≡ fire_action (record s { act_ctrl = rest }) act
      → Step s t

pub data Reach (s : SmObject) : SmObject → Type 0 where
  here : Reach s s
  next : {t u : SmObject} → Reach s t → Step t u → Reach s u

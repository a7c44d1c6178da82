-- ===== src/StateMachine/Actions.antt =====
-- StateMachine/sm.go: what a change of state does, also to the pending actions.
use helper.Base.{
  ℕ, zero, suc, ap, set, append-nil, append_assoc, ◌≡◌, refl, String, false, not, Option, none,
  some, List, [], ◌∷◌, ◌++◌, arith, length, str_eq, eq_iff, Bool, string_eq, if◌then◌else◌, All,
  ◌==◌, ◌∙◌, ◌<◌,
}
use helper.Base.Dict.{lookup, Distinct, lookup-insert}
use helper.StateMachine.{
  SmObject, StateObject, Action, Message, Call, leave, enter, state_payload, mt_set_sm_state,
  object, object_name, stop, stop_bound, clear_actions, enter_state, leave_curr, get_state,
  find_action, on_state_message, state_payload_step, same_pointer,
}
use helper.StateMachine.Invariant.{IsValid, IsKeyed, name-set_priv, IsEntry}
use helper.StateMachine.Preserve.{get_state-IsEntry, enter_state_lem, entered, new_priv}

abbrev is_bound : Action → Bool
is_bound act = not (str_eq act.fire_in_state "")

-- An entry when the actions that are bound to a state are stopped, and its thread.
abbrev pub stopped : Option Action → Option Action
stopped none = none
stopped (some act) =
    some (if not (str_eq act.fire_in_state "") then record act { timer = none } else act)

abbrev pub told_to_leave : Option Action → Option Bool → Option Bool
told_to_leave none o = o
told_to_leave (some act) o = if not (str_eq act.fire_in_state "") then some false else o

-- The same for one entry of those that ClearActions goes through.
abbrev stop_one : Option Action → Option Action → Option Action
stop_one none r = r
stop_one (some act) r = if is_bound act then some (record act { timer = none }) else r

stop_bound-lookup :
    (id : String) (obj : SmObject) (m : List (String × Action))
    → All IsKeyed m
    → Distinct m
    → lookup id (stop_bound obj m).actions ≡ stop_one (lookup id m) (lookup id obj.actions)
unfolding stop_bound stop lookup
stop_bound-lookup id obj [] k d = refl
stop_bound-lookup id obj ((j, act) ∷ m) k d = ground (
  arith,
  stop_bound-lookup id obj m k.1 d.1,
  stop_bound-lookup id (stop obj act) m k.1 d.1,
  lookup-insert act.id id (record act { timer = none }) obj.actions,
  eq_iff j id,
  eq_iff act.id id,
)

stop_bound-leaving :
    (id : String) (obj : SmObject) (m : List (String × Action))
    → All IsKeyed m
    → Distinct m
    → lookup id (stop_bound obj m).leaving ≡ told_to_leave (lookup id m) (lookup id obj.leaving)
unfolding stop_bound stop lookup
stop_bound-leaving id obj [] k d = refl
stop_bound-leaving id obj ((j, act) ∷ m) k d = ground (
  arith,
  stop_bound-leaving id obj m k.1 d.1,
  stop_bound-leaving id (stop obj act) m k.1 d.1,
  lookup-insert act.id id false obj.leaving,
  eq_iff j id,
  eq_iff act.id id,
)

stop_one_self : (r : Option Action) → stop_one r r ≡ stopped r
stop_one_self none = refl
stop_one_self (some act) = ground arith

enter_state-actions :
    (id : String) (obj : SmObject) (p : ℕ) (priv : Option ℕ)
    → IsValid obj
    → (lookup id (enter_state obj p priv).actions ≡ stopped (lookup id obj.actions))
      × (lookup id (enter_state obj p priv).leaving
          ≡ told_to_leave (lookup id obj.actions) (lookup id obj.leaving))
unfolding enter_state clear_actions
enter_state-actions id obj p priv v = (
  stop_bound-lookup id _ obj.actions v.actions_keyed v.actions_distinct
      ∙ stop_one_self (lookup id obj.actions),
  stop_bound-leaving id _ obj.actions v.actions_keyed v.actions_distinct,
)

-- A message that asks for a state.
abbrev pub asking : String → Option ℕ → Message
asking n priv = record {
  msg_type = mt_set_sm_state;
  payload = state_payload (record { state = n; priv = priv });
}

length_of_lookup :
    (n : String) (p : ℕ) (m : List (String × ℕ)) → lookup n m ≡ some p → (length m == 0) ≡ false
unfolding lookup
length_of_lookup n p [] e = ground arith
length_of_lookup n p (x ∷ m) e = ground arith

on_state_message-enters :
    (obj : SmObject) (n : String) (priv : Option ℕ) (p : ℕ)
    → get_state obj n ≡ some p
    → same_pointer obj.state_curr (some p) ≡ false
    → on_state_message obj (asking n priv) ≡ enter_state obj p priv
unfolding on_state_message state_payload_step get_state
on_state_message-enters obj n priv p e d = rw (length_of_lookup n p obj.states e, e, d)

object-set_self :
    (heap : List StateObject) (p : ℕ) (o : StateObject)
    → p < length heap
    → object (set heap p o) p ≡ o
object-set_self [] p o h = elim h [ ]
object-set_self (x ∷ heap) zero o h = refl
object-set_self (x ∷ heap) (suc p) o h = object-set_self heap p o (omega arith)

-- The calls of a transition from the object at `c` to the one at `p`.
abbrev pub transition_calls : SmObject → ℕ → Option ℕ → List Call
transition_calls obj p none = enter (object obj.heap p).handler none (object obj.heap p).name ∷ []
transition_calls obj p (some c) =
    leave (object obj.heap c).handler (object obj.heap c).name (object obj.heap p).name
    ∷ enter (object obj.heap p).handler (some (object obj.heap c).name) (object obj.heap p).name
    ∷ []

handler-set_priv :
    (heap : List StateObject) (p q : ℕ) (priv : Option ℕ)
    → (object (set heap p (record (object heap p) { priv = priv })) q).handler
      ≡ (object heap q).handler
handler-set_priv [] p q priv = refl
handler-set_priv (x ∷ heap) zero zero priv = refl
handler-set_priv (x ∷ heap) zero (suc q) priv = refl
handler-set_priv (x ∷ heap) (suc p) zero priv = refl
handler-set_priv (x ∷ heap) (suc p) (suc q) priv = handler-set_priv heap p q priv

entered-calls :
    (obj : SmObject) (p : ℕ) (priv : Option ℕ) (acts : List (String × Action))
    (ls : List (String × Bool)) (c : Option ℕ)
    → obj.state_curr ≡ c
    → (entered obj p priv acts ls).calls ≡ obj.calls ++ transition_calls obj p c
unfolding entered new_priv leave_curr
entered-calls obj p priv acts ls none e =
    rw (e, append-nil, name-set_priv obj.heap p p priv, handler-set_priv obj.heap p p priv) refl
entered-calls obj p priv acts ls (some c) e =
    rw
      (
        e,
        append_assoc,
        name-set_priv obj.heap p p priv,
        handler-set_priv obj.heap p p priv,
        name-set_priv obj.heap p c priv,
        handler-set_priv obj.heap p c priv,
      )
      refl

entered_fields :
    (obj : SmObject) (n : String) (priv : Option ℕ) (p : ℕ)
    → IsValid obj
    → IsEntry obj.heap (n, p)
    → let t = enter_state obj p priv in
      (t.state_curr ≡ some p)
      × (t.state_prev ≡ obj.state_curr)
      × (t.state_next ≡ none)
      × (object_name t.heap t.state_curr ≡ some n)
      × ((object t.heap p).priv ≡ priv)
      × ((id : String)
          → (lookup id t.actions ≡ stopped (lookup id obj.actions))
            × (lookup id t.leaving ≡ told_to_leave (lookup id obj.actions) (lookup id obj.leaving)))
      × (t.calls ≡ obj.calls ++ transition_calls obj p obj.state_curr)
unfolding entered new_priv
entered_fields obj n priv p v (h, name) =
    let (acts, ls, e, k) = enter_state_lem obj p priv (v.actions_keyed, v.actions_distinct) in
    (
      ap (λ (o : SmObject). o.state_curr) e,
      ap (λ (o : SmObject). o.state_prev) e,
      ap (λ (o : SmObject). o.state_next) e,
      ap (λ (o : SmObject). object_name o.heap o.state_curr) e
          ∙ ap some (name-set_priv obj.heap p p priv ∙ name),
      ap (λ (o : SmObject). (object o.heap p).priv) e
          ∙ ap (λ (o : StateObject). o.priv) (object-set_self obj.heap p _ h),
      λ id. enter_state-actions id obj p priv v,
      ap (λ (o : SmObject). o.calls) e ∙ entered-calls obj p priv acts ls obj.state_curr refl,
    )

-- No action that is bound to a state has a thread that is leaving, so that the program does not wait
-- for one for good.
abbrev pub BoundWait : SmObject → Type 0
unfolding find_action
BoundWait obj =
    (id : String) (act : Action)
    → find_action obj id ≡ some act
    → str_eq act.fire_in_state "" ≡ false
    → lookup id obj.leaving ≡ none

-- In a valid machine in which no thread of a bound action is leaving, a message that asks for a
-- registered state whose object is not the current one makes it the current state, keeps the old one
-- as the previous state, leaves StateNext nil, stores the message's value in the object under its name,
-- and calls Leave on the old state's handler, if there is one, and then Enter on the new one's, and
-- nothing else. Of the pending actions exactly those that are bound to a state have their timers
-- stopped and their threads told to leave without firing; their entries stay until the threads, as
-- steps of their own, delete them, and the other actions are as they were.
pub on_state_message-transition :
    (obj : SmObject) (n : String) (priv : Option ℕ) (p : ℕ)
    → IsValid obj
    → BoundWait obj
    → get_state obj n ≡ some p
    → same_pointer obj.state_curr (some p) ≡ false
    → let t = on_state_message obj (asking n priv) in
      (t.state_curr ≡ some p)
      × (t.state_prev ≡ obj.state_curr)
      × (t.state_next ≡ none)
      × (object_name t.heap t.state_curr ≡ some n)
      × ((object t.heap p).priv ≡ priv)
      × ((id : String)
          → (find_action t id ≡ stopped (find_action obj id))
            × (lookup id t.leaving ≡ told_to_leave (find_action obj id) (lookup id obj.leaving)))
      × (t.calls ≡ obj.calls ++ transition_calls obj p obj.state_curr)
unfolding find_action
on_state_message-transition obj n priv p v w e d =
    rw (on_state_message-enters obj n priv p e d)
      (entered_fields obj n priv p v (get_state-IsEntry obj n p v e))

-- ===== src/StateMachine/Adding.antt =====
-- StateMachine/sm.go: what the message of AddAction does to the pending actions.
use helper.Base.{
  suc, ◌≡◌, refl, String, false, Option, none, some, arith, length, str_eq, Bool, true, string_eq,
  if◌then◌else◌, is_some, =?-refl, ◌∙◌,
}
use helper.Base.Dict.{lookup, insert, lookup-delete, lookup-insert, length-insert, lookup_of_All}
use helper.Base.Int.{ℤ, ◌+ℤ◌}
use helper.StateMachine.{
  SmObject, Action, Message, action_payload, mt_add_sm_action, find_action, on_add_action_message,
  add_action_payload, refresh_found, thread_leaves,
}
use helper.StateMachine.Invariant.{IsValid, IsKeyed}

-- A message that adds an action.
abbrev pub adding : Action → Message
adding m = record { msg_type = mt_add_sm_action; payload = action_payload m }

-- The entry of an action that is added.
abbrev pub entry_of : ℤ → Action → Action
entry_of now m = record m { queued = now; timer = some (now +ℤ m.delay) }

added : SmObject → ℤ → Action → SmObject
added obj now m = record obj { actions = insert m.id (entry_of now m) obj.actions }

-- Both branches write the same entry, if it is not gone.
on_add_action_message_lem :
    (obj : SmObject) (now : ℤ) (m : Action) (found : Option Action)
    → find_action obj m.id ≡ found
    → IsValid obj
    → on_add_action_message obj now false (adding m) ≡ added obj now m
unfolding on_add_action_message find_action add_action_payload added refresh_found
on_add_action_message_lem obj now m none e v = rw (add_action_payload, e) refl
on_add_action_message_lem obj now m (some act) e v =
    rw (add_action_payload, e)
      (ground (arith, lookup_of_All IsKeyed m.id act obj.actions v.actions_keyed e))

-- In a valid machine, adding an action leaves exactly one entry under its id, with the new function,
-- description, delay and bound state, which is due when the new delay has passed, whether or not the
-- id was pending before, if the entry found is not deleted by its thread before it is written; other
-- ids keep their entries, the number of entries grows only if the id was new, and no thread is
-- started or ended for an id that was pending, so that a thread that was leaving still is.
pub on_add_action_message-replaces :
    (obj : SmObject) (now : ℤ) (m : Action) (id : String)
    → IsValid obj
    → let t = on_add_action_message obj now false (adding m) in
      (find_action t m.id ≡ some (record m { queued = now; timer = some (now +ℤ m.delay) }))
      × (str_eq m.id id ≡ false → find_action t id ≡ find_action obj id)
      × (length t.actions ≡ (
          if is_some (find_action obj m.id) then length obj.actions else suc (length obj.actions)))
      × (t.leaving ≡ obj.leaving)
unfolding find_action added
on_add_action_message-replaces obj now m id v =
    let act : Action = entry_of now m in
    rw (on_add_action_message_lem obj now m (find_action obj m.id) refl v) (
      lookup-insert m.id m.id act obj.actions ∙ rw (=?-refl m.id) refl,
      λ ne. lookup-insert m.id id act obj.actions ∙ rw ne refl,
      length-insert m.id act obj.actions,
      refl,
    )

refresh_found-Gone :
    (obj : SmObject) (now : ℤ) (m act : Action) (o : Option Bool)
    → act.id ≡ m.id
    → find_action (refresh_found obj now true m act o) m.id ≡ none
unfolding find_action refresh_found thread_leaves
refresh_found-Gone obj now m act none e =
    rw e (lookup-delete m.id m.id obj.actions ∙ rw (=?-refl m.id) refl)
refresh_found-Gone obj now m act (some b) e =
    rw e (lookup-delete m.id m.id obj.actions ∙ rw (=?-refl m.id) refl)

-- In a valid machine, adding an action under an id that is pending, whose thread deletes the entry
-- between FindAction and the writes, leaves no entry under the id.
pub on_add_action_message-Gone :
    (obj : SmObject) (now : ℤ) (m act : Action)
    → IsValid obj
    → find_action obj m.id ≡ some act
    → find_action (on_add_action_message obj now true (adding m)) m.id ≡ none
unfolding on_add_action_message find_action add_action_payload
on_add_action_message-Gone obj now m act v e =
    rw (add_action_payload, e)
      (refresh_found-Gone obj now m act (lookup m.id obj.leaving)
        (lookup_of_All IsKeyed m.id act obj.actions v.actions_keyed e))

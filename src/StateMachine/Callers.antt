-- ===== src/StateMachine/Callers.antt =====
-- StateMachine/sm.go: what callers send to the loop.
use helper.Base.{
  ℕ, String, Option, none, some, [], ◌∷◌, ◌++◌, ltb, if◌then◌else◌, length, string_eq,
}
use helper.Base.Int.{ℤ, pos, ltz}
use helper.StateMachine.{
  mt_set_sm_state, mt_add_sm_action, Action, state_payload, action_payload, Message, SmObject,
}

-- Both channels are made with room for 8 messages; a send waits while there is none.
abbrev channel_cap : ℕ
channel_cap = 8

unfoldable pub send_message : SmObject → Message → Option SmObject
send_message obj msg =
    if ltb (length obj.msg_ctrl) channel_cap
    then some (record obj { msg_ctrl = obj.msg_ctrl ++ msg ∷ [] })
    else none

unfoldable send_action : SmObject → Action → Option SmObject
send_action obj act =
    if ltb (length obj.act_ctrl) channel_cap
    then some (record obj { act_ctrl = obj.act_ctrl ++ act ∷ [] })
    else none

unfoldable pub set_state : SmObject → String → Option ℕ → Option SmObject
unfolding send_message
set_state obj state priv = send_message obj (record {
  msg_type = mt_set_sm_state;
  payload = state_payload (record { state = state; priv = priv });
})

unfoldable pub add_action : SmObject → String → ℕ → ℤ → String → String → Option SmObject
unfolding send_message send_action
add_action obj id f delay desc fire_in_state =
    let act : Action = record {
      id = id;
      description = desc;
      fire_in_state = fire_in_state;
      delay = delay;
      timer = none;
      f = f;
      queued = pos 0;
    } in
    if ltz (pos 0) delay
    then send_message obj (record { msg_type = mt_add_sm_action; payload = action_payload act })
    else send_action obj act

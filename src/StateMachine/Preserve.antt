-- ===== src/StateMachine/Preserve.antt =====
-- StateMachine/sm.go: every turn of the loop, and every call from outside, keeps the invariant.
use helper.Base.{
  ℕ, ◌<◌, ◌≡◌, refl, sym, ap, String, Bool, true, false, Option, none, some, List, [], ◌∷◌, ◌++◌,
  ◌∙◌, arith, length, set, All-map, length-set, string_eq, =?-refl, if◌then◌else◌, ◌==◌,
}
use helper.Base.Dict.{
  lookup, insert, insert-Distinct, delete-Distinct, All-insert, All-delete, lookup_of_All,
}
use helper.Base.Int.{ℤ}
use helper.StateMachine.{
  SmObject, StateObject, Action, Message, Payload, state_payload, action_payload, other_payload,
  enter, object, object_name, clear_actions, enter_state, leave_curr, on_state_message,
  on_add_action_message, get_state, add_action_payload, find_action, state_payload_step,
  same_pointer, thread_leaves, refresh, refresh_found,
}
use helper.StateMachine.Monitor.{no_state, in_state, watch_all, watch_all-append}
use helper.StateMachine.Invariant.{
  IsValid, IsEntry, IsKeyed, Points, phase, name-set_priv, stop_bound_frame, stop_bound-AreKeyed,
  AreKeyed,
}

unfoldable pub new_priv : SmObject → ℕ → Option ℕ → List StateObject
new_priv obj p priv = set obj.heap p (record (object obj.heap p) { priv = priv })

-- The machine after a transition to the object at `p`, with the actions that are left.
unfoldable pub entered :
    SmObject → ℕ → Option ℕ → List (String × Action) → List (String × Bool) → SmObject
unfolding new_priv leave_curr
entered obj p priv acts ls =
    let heap = new_priv obj p priv in
    record obj {
      heap = heap;
      state_next = none;
      state_curr = some p;
      state_prev = obj.state_curr;
      actions = acts;
      leaving = ls;
      calls =
          (obj.calls ++ leave_curr (record obj { heap = heap }) p obj.state_curr)
          ++ enter (object heap p).handler (object_name heap obj.state_curr) (object heap p).name
            ∷ [];
    }

pub enter_state_lem :
    (obj : SmObject) (p : ℕ) (priv : Option ℕ)
    → AreKeyed obj.actions
    → (acts : List (String × Action)) × (ls : List (String × Bool)) × (enter_state obj p priv
        ≡ entered obj p priv acts ls)
      × AreKeyed acts
unfolding enter_state entered clear_actions
enter_state_lem obj p priv k =
    let obj1 : SmObject = record obj { heap = new_priv obj p priv } in
    let moved : SmObject = record obj1 {
      state_next = none;
      state_curr = some p;
      state_prev = obj.state_curr;
      calls = obj.calls ++ leave_curr obj1 p obj.state_curr;
    } in
    (
      (clear_actions moved).actions,
      (clear_actions moved).leaving,
      ap
          (λ (o : SmObject). record o {
            calls =
                o.calls
                ++ enter (object o.heap p).handler (object_name o.heap o.state_prev)
                    (object o.heap p).name
                  ∷ [];
          })
          (stop_bound_frame moved moved.actions),
      stop_bound-AreKeyed moved moved.actions k,
    )

-- A transition is accepted by the monitor.
entered_watched :
    (obj : SmObject) (p : ℕ) (priv : Option ℕ) (acts : List (String × Action))
    (ls : List (String × Bool)) (c : Option ℕ)
    → obj.state_curr ≡ c
    → watch_all (some no_state) obj.calls ≡ some (phase (object_name obj.heap c))
    → watch_all (some no_state) (entered obj p priv acts ls).calls
      ≡ some (in_state (object obj.heap p).name)
unfolding entered new_priv leave_curr
entered_watched obj p priv acts ls none e w =
    rw (e, watch_all-append, watch_all-append, w, name-set_priv obj.heap p p priv) refl
entered_watched obj p priv acts ls (some c) e w =
    rw (e, watch_all-append, watch_all-append, w)
      (ground (
        arith,
        name-set_priv obj.heap p p priv,
        name-set_priv obj.heap p c priv,
        =?-refl (object obj.heap p).name,
        =?-refl (object obj.heap c).name,
      ))

Points-new_priv :
    (obj : SmObject) (p : ℕ) (priv : Option ℕ) (c : Option ℕ)
    → Points obj.heap c
    → Points (new_priv obj p priv) c
unfolding new_priv
Points-new_priv obj p priv none h = tt
Points-new_priv obj p priv (some c) h =
    omega (arith, h, length-set obj.heap p (record (object obj.heap p) { priv = priv }))

IsEntry-new_priv :
    (obj : SmObject) (p : ℕ) (priv : Option ℕ) (e : String × ℕ)
    → IsEntry obj.heap e
    → IsEntry (new_priv obj p priv) e
unfolding new_priv
IsEntry-new_priv obj p priv (k, q) (h, n) =
    (Points-new_priv obj p priv (some q) h, name-set_priv obj.heap p q priv ∙ n)

entered-IsValid :
    (obj : SmObject) (p : ℕ) (priv : Option ℕ) (acts : List (String × Action))
    (ls : List (String × Bool))
    → IsValid obj
    → p < length obj.heap
    → AreKeyed acts
    → IsValid (entered obj p priv acts ls)
unfolding entered
entered-IsValid obj p priv acts ls v h k = record {
  states_entries = All-map (IsEntry-new_priv obj p priv) obj.states v.states_entries;
  states_distinct = v.states_distinct;
  curr_points = Points-new_priv obj p priv (some p) h;
  prev_points = Points-new_priv obj p priv obj.state_curr v.curr_points;
  next_is_nil = refl;
  actions_keyed = k.0;
  actions_distinct = k.1;
  watched =
      entered_watched obj p priv acts ls obj.state_curr refl v.watched
      ∙ ap (λ n. some (in_state n)) (sym (name-set_priv obj.heap p p priv));
}

enter_state-IsValid :
    (obj : SmObject) (p : ℕ) (priv : Option ℕ)
    → IsValid obj
    → p < length obj.heap
    → IsValid (enter_state obj p priv)
enter_state-IsValid obj p priv v h =
    let (acts, ls, e, k) = enter_state_lem obj p priv (v.actions_keyed, v.actions_distinct) in
    rw e (entered-IsValid obj p priv acts ls v h k)

-- The object that a name leads to is on the heap and bears that name.
pub get_state-IsEntry :
    (obj : SmObject) (n : String) (p : ℕ)
    → IsValid obj
    → get_state obj n ≡ some p
    → IsEntry obj.heap (n, p)
unfolding get_state
get_state-IsEntry obj n p v e = lookup_of_All (IsEntry obj.heap) n p obj.states v.states_entries e

pub on_state_message-IsValid :
    (obj : SmObject) (msg : Message) → IsValid obj → IsValid (on_state_message obj msg)
unfolding on_state_message
on_state_message-IsValid obj msg v = by_payload msg.payload
  where
    by_pointer :
        (m : Option ℕ) (n : Option ℕ) (q : String)
        → get_state obj q ≡ n
        → IsValid (elim n [ some p ↦ enter_state obj p m | none ↦ obj ])
    by_pointer m none q e = v
    by_pointer m (some p) q e = enter_state-IsValid obj p m v (get_state-IsEntry obj q p v e).0

    by_tests :
        (b c : Bool) (x : SmObject) → IsValid x → IsValid (if b then obj else if c then obj else x)
    by_tests true c x h = v
    by_tests false true x h = v
    by_tests false false x h = h

    by_payload : (d : Payload) → IsValid (state_payload_step obj d)
    by_payload (state_payload m) =
        by_tests (length obj.states == 0) (same_pointer obj.state_curr (get_state obj m.state)) _
          (by_pointer m.priv (get_state obj m.state) m.state refl)
    by_payload (action_payload m) = v
    by_payload other_payload = v

-- What a thread does to its own entry.
pub thread_leaves-IsValid :
    (obj : SmObject) (act : Action) (b : Bool) → IsValid obj → IsValid (thread_leaves obj act b)
unfolding thread_leaves
thread_leaves-IsValid obj act b v = record {
  states_entries = v.states_entries;
  states_distinct = v.states_distinct;
  curr_points = v.curr_points;
  prev_points = v.prev_points;
  next_is_nil = v.next_is_nil;
  actions_keyed = All-delete IsKeyed act.id obj.actions v.actions_keyed;
  actions_distinct = delete-Distinct act.id obj.actions v.actions_distinct;
  watched = v.watched;
}

pub on_add_action_message-IsValid :
    (obj : SmObject) (now : ℤ) (gone : Bool) (msg : Message)
    → IsValid obj
    → IsValid (on_add_action_message obj now gone msg)
unfolding on_add_action_message refresh_found
on_add_action_message-IsValid obj now gone msg v = by_payload msg.payload
  where
    inserted :
        (id : String) (act : Action)
        → act.id ≡ id
        → IsValid (record obj { actions = insert id act obj.actions })
    inserted id act e = record {
      states_entries = v.states_entries;
      states_distinct = v.states_distinct;
      curr_points = v.curr_points;
      prev_points = v.prev_points;
      next_is_nil = v.next_is_nil;
      actions_keyed = All-insert IsKeyed id act obj.actions v.actions_keyed e;
      actions_distinct = insert-Distinct id act obj.actions v.actions_distinct;
      watched = v.watched;
    }

    left : (act : Action) (b : Bool) → IsValid (thread_leaves obj act b)
    left act b = thread_leaves-IsValid obj act b v

    refreshed :
        (m act : Action) (g : Bool) (o : Option Bool)
        → act.id ≡ m.id
        → IsValid (refresh_found obj now g m act o)
    refreshed m act true (some b) e = left (refresh now m act) b
    refreshed m act true none e = left (refresh now m act) true
    refreshed m act false o e = inserted m.id (refresh now m act) e

    by_found :
        (m : Action) (found : Option Action)
        → find_action obj m.id ≡ found
        → IsValid (add_action_payload obj now gone (action_payload m))
    by_found m none e = rw (add_action_payload, e) (inserted m.id _ refl)
    by_found m (some act) e =
        rw (add_action_payload, e)
          (refreshed m act gone (lookup m.id obj.leaving)
            (lookup_of_All IsKeyed m.id act obj.actions v.actions_keyed e))

    by_payload : (d : Payload) → IsValid (add_action_payload obj now gone d)
    by_payload (state_payload m) = v
    by_payload (action_payload m) = by_found m (find_action obj m.id) refl
    by_payload other_payload = v

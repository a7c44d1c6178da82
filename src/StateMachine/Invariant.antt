-- ===== src/StateMachine/Invariant.antt =====
-- What holds of a machine of StateMachine/sm.go between two turns of its loop.
use helper.Base.{
  ℕ, zero, suc, ◌<◌, ◌≡◌, refl, sym, ap, String, Bool, true, false, not, Option, none, some, List,
  [], ◌∷◌, ◌++◌, ◌∙◌, arith, length, get_or, set, All, All-map, length-append, str_eq, string_eq,
  if◌then◌else◌,
}
use helper.Base.Dict.{Distinct, insert-Distinct, All-insert}
use helper.StateMachine.{
  SmObject, StateObject, Action, Handler, nil_object, object, object_name, new_state_machine,
  register_state, stop, stop_bound,
}
use helper.StateMachine.Monitor.{Phase, no_state, in_state, watch_all}

-- A pointer into the heap, or nil.
abbrev pub Points : List StateObject → Option ℕ → Type 0
Points heap none = Unit {0}
Points heap (some p) = p < length heap

-- The entry of a state points to an object of that name.
abbrev pub IsEntry : List StateObject → String × ℕ → Type 0
IsEntry heap (k, p) = (p < length heap) × ((object heap p).name ≡ k)

abbrev pub IsKeyed : String × Action → Type 0
IsKeyed (k, act) = act.id ≡ k

abbrev pub phase : Option String → Phase
phase none = no_state
phase (some a) = in_state a

pub record IsValid (obj : SmObject) : Type 0 where
  pub states_entries : All (IsEntry obj.heap) obj.states
  pub states_distinct : Distinct obj.states
  pub curr_points : Points obj.heap obj.state_curr
  pub prev_points : Points obj.heap obj.state_prev
  pub next_is_nil : obj.state_next ≡ none
  pub actions_keyed : All IsKeyed obj.actions
  pub actions_distinct : Distinct obj.actions
  pub watched :
      watch_all (some no_state) obj.calls ≡ some (phase (object_name obj.heap obj.state_curr))

get_or-append :
    (xs ys : List StateObject) (p : ℕ) (d : StateObject)
    → p < length xs
    → get_or (xs ++ ys) p d ≡ get_or xs p d
get_or-append [] ys p d h = elim h [ ]
get_or-append (x ∷ xs) ys zero d h = refl
get_or-append (x ∷ xs) ys (suc p) d h = get_or-append xs ys p d (omega arith)

get_or-append_self :
    (xs : List StateObject) (y d : StateObject) → get_or (xs ++ y ∷ []) (length xs) d ≡ y
get_or-append_self [] y d = refl
get_or-append_self (x ∷ xs) y d = get_or-append_self xs y d

-- A new `Priv` changes no object's name.
pub name-set_priv :
    (heap : List StateObject) (p q : ℕ) (priv : Option ℕ)
    → (object (set heap p (record (object heap p) { priv = priv })) q).name ≡ (object heap q).name
name-set_priv [] p q priv = refl
name-set_priv (x ∷ heap) zero zero priv = refl
name-set_priv (x ∷ heap) zero (suc q) priv = refl
name-set_priv (x ∷ heap) (suc p) zero priv = refl
name-set_priv (x ∷ heap) (suc p) (suc q) priv = name-set_priv heap p q priv

-- `ClearActions` touches nothing but the actions and their threads.
pub stop_bound_frame :
    (obj : SmObject) (m : List (String × Action))
    → stop_bound obj m
      ≡ record obj { actions = (stop_bound obj m).actions; leaving = (stop_bound obj m).leaving }
unfolding stop_bound
stop_bound_frame obj [] = refl
stop_bound_frame obj ((id, act) ∷ m) =
    ground (arith, stop_bound_frame obj m, stop_bound_frame (stop obj act) m)

abbrev pub AreKeyed : List (String × Action) → Type 0
AreKeyed m = All IsKeyed m × Distinct m

stop_if-AreKeyed :
    (b : Bool) (obj : SmObject) (act : Action)
    → AreKeyed obj.actions
    → AreKeyed (if b then stop obj act else obj).actions
unfolding stop
stop_if-AreKeyed true obj act k = (
  All-insert IsKeyed act.id (record act { timer = none }) obj.actions k.0 refl,
  insert-Distinct act.id (record act { timer = none }) obj.actions k.1,
)
stop_if-AreKeyed false obj act k = k

pub stop_bound-AreKeyed :
    (obj : SmObject) (m : List (String × Action))
    → AreKeyed obj.actions
    → AreKeyed (stop_bound obj m).actions
unfolding stop_bound
stop_bound-AreKeyed obj [] k = k
stop_bound-AreKeyed obj ((id, act) ∷ m) k =
    stop_bound-AreKeyed (if not (str_eq act.fire_in_state "") then stop obj act else obj) m
      (stop_if-AreKeyed _ obj act k)

pub new_state_machine-IsValid : (name : String) → IsValid (new_state_machine name)
unfolding new_state_machine
new_state_machine-IsValid name = record {
  states_entries = tt;
  states_distinct = tt;
  curr_points = tt;
  prev_points = tt;
  next_is_nil = refl;
  actions_keyed = tt;
  actions_distinct = tt;
  watched = refl;
}

name-append :
    (heap ys : List StateObject) (p : Option ℕ)
    → Points heap p
    → object_name (heap ++ ys) p ≡ object_name heap p
name-append heap ys none h = refl
name-append heap ys (some p) h =
    ap (λ (o : StateObject). some o.name) (get_or-append heap ys p nil_object h)

Points-append : (heap ys : List StateObject) (p : Option ℕ) → Points heap p → Points (heap ++ ys) p
Points-append heap ys none h = tt
Points-append heap ys (some p) h = omega (arith, h, length-append heap ys)

IsEntry-append :
    (heap ys : List StateObject) (e : String × ℕ) → IsEntry heap e → IsEntry (heap ++ ys) e
IsEntry-append heap ys (k, p) (h, n) = (
  omega (arith, h, length-append heap ys),
  ap (λ (o : StateObject). o.name) (get_or-append heap ys p nil_object h) ∙ n,
)

pub register_state-IsValid :
    (obj : SmObject) (n : String) (h : Handler) → IsValid obj → IsValid (register_state obj n h)
unfolding register_state
register_state-IsValid obj n h v =
    let o : StateObject = record { name = n; handler = h; priv = none } in
    let ys : List StateObject = o ∷ [] in
    record {
      states_entries =
          All-insert (IsEntry (obj.heap ++ ys)) n (length obj.heap) obj.states
            (All-map (IsEntry-append obj.heap ys) obj.states v.states_entries)
            (
              omega (arith, length-append obj.heap ys),
              ap (λ (o : StateObject). o.name) (get_or-append_self obj.heap o nil_object),
            );
      states_distinct = insert-Distinct n (length obj.heap) obj.states v.states_distinct;
      curr_points = Points-append obj.heap ys obj.state_curr v.curr_points;
      prev_points = Points-append obj.heap ys obj.state_prev v.prev_points;
      next_is_nil = v.next_is_nil;
      actions_keyed = v.actions_keyed;
      actions_distinct = v.actions_distinct;
      watched =
          v.watched
          ∙ ap (λ n. some (phase n)) (sym (name-append obj.heap ys obj.state_curr v.curr_points));
    }

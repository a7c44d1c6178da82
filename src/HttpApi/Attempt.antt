-- ===== src/HttpApi/Attempt.antt =====
-- HttpAPI/api.go, preDo and postDo: OnGoingAPIs after one attempt.
use helper.Base.{
  ℕ, ◌≡◌, refl, ◌∙◌, true, false, Option, none, some, List, String, string_eq, str_eq, arith,
  if◌then◌else◌, Bool-cases, inl, inr,
}
use helper.Base.Dict.{lookup, lookup-insert, lookup-delete}
use helper.HttpApi.Context.{
  Context, ContextValue, text, Cast, is, panics, set, get, get_string, get_request_id,
  set_request_id, key_spent, key_debug_api, key_debug_res_data, key_request_id, is_api_debug,
}
use helper.HttpApi.Api.{
  Api, Result, ok, failed, State, Program, Attempted, returned, panicked, pre_do, post_do, checked,
  check_response, unmarshalled, debug_context, read_response, sent, with_id, requested, attempt,
}

get_request_id-set_request_id :
    (c : Context) (id : String) → get_request_id (set_request_id c id) ≡ is id
unfolding get_request_id set_request_id get_string get set
get_request_id-set_request_id c id =
    rw (lookup-insert key_request_id key_request_id (some (text id)) c) refl

get_request_id-set :
    (c : Context) (key : String) (v : Option ContextValue)
    → str_eq key key_request_id ≡ false
    → get_request_id (set c key v) ≡ get_request_id c
unfolding get_request_id get_string get set
get_request_id-set c key v h = rw (lookup-insert key key_request_id v c, h) refl

module _ (W Res : Type 0) (prog : Program W Res) (api : Api) where
  -- What a response check must not do: change the identifier of the request.
  abbrev pub ChecksKeepId : Option (W → Context → Res → W × Context × Option ℕ) → Type 0
  ChecksKeepId none = Unit
  ChecksKeepId (some f) =
      (w : W) (c : Context) (v : Res) → get_request_id (f w c v).1 ≡ get_request_id c

  -- No entry of OnGoingAPIs for an identifier.
  abbrev pub Absent : String → Attempted W Res → Type 0
  Absent j (returned s r) = lookup j s.ongoing ≡ none
  Absent j panicked = Unit

  -- Between preDo and postDo: the identifier is in the context and is listed.
  abbrev Listed : String → String → State W Res → Type 0
  Listed j id s =
      (get_request_id s.ctx ≡ is id)
      × (lookup j s.ongoing ≡ (if str_eq id j then some true else none))

  leave-Absent :
      (j id : String) (s : State W Res) (r : Result Res)
      → Listed j id s
      → Absent j (post_do W Res prog api s r (get_request_id s.ctx))
  unfolding post_do
  leave-Absent j id s r (e, l) = rw e (ground (arith, lookup-delete id j s.ongoing))

  checked-Absent :
      (j id : String) (s : State W Res) (v : Res) (e : Option ℕ)
      → Listed j id s
      → Absent j (checked W Res prog api s v e)
  checked-Absent j id s v none l = leave-Absent j id s _ l
  checked-Absent j id s v (some e) l = leave-Absent j id s _ l

  check_response-Absent :
      (j id : String) (s : State W Res) (v : Res)
      (f : Option (W → Context → Res → W × Context × Option ℕ))
      → ChecksKeepId f
      → Listed j id s
      → Absent j (check_response W Res prog api s v f)
  check_response-Absent j id s v none k l = leave-Absent j id s _ l
  check_response-Absent j id s v (some f) k (e, l) =
      checked-Absent j id _ v _ (k s.world s.ctx v ∙ e, l)

  unmarshalled-Absent :
      (j id : String) (s : State W Res) (r : Result Res)
      → ChecksKeepId prog.res_check_f
      → Listed j id s
      → Absent j (unmarshalled W Res prog api s r)
  unmarshalled-Absent j id s (failed e) k l = leave-Absent j id s _ l
  unmarshalled-Absent j id s (ok v) k l = check_response-Absent j id s v _ k l

  get_request_id-debug_context :
      (c : Context) (data_read : List ℕ)
      → get_request_id (debug_context W Res prog api c data_read) ≡ get_request_id c
  get_request_id-debug_context c data_read = elim (Bool-cases (is_api_debug c)) [
    | inl on ↦ rw on (
        get_request_id-set (set c key_debug_api (some (text api.name))) key_debug_res_data _ refl
        ∙ get_request_id-set c key_debug_api _ refl)
    | inr off ↦ rw off refl
  ]

  read_response-Absent :
      (j id : String) (s : State W Res)
      → ChecksKeepId prog.res_check_f
      → Listed j id s
      → Absent j (read_response W Res prog api s)
  unfolding read_response
  read_response-Absent j id s k (e, l) =
      unmarshalled-Absent j id _ _ k
        (get_request_id-debug_context _ _ ∙ get_request_id-set s.ctx key_spent _ refl ∙ e, l)

  sent-Absent :
      (j id : String) (s : State W Res) (e : Option ℕ)
      → ChecksKeepId prog.res_check_f
      → Listed j id s
      → Absent j (sent W Res prog api s e)
  sent-Absent j id s (some e) k l = leave-Absent j id s _ l
  sent-Absent j id s none k l = read_response-Absent j id s k l

  with_id-Absent :
      (j : String) (cl : Option ℕ) (s : State W Res) (id : Cast String)
      → ChecksKeepId prog.res_check_f
      → lookup j s.ongoing ≡ none
      → Absent j (with_id W Res prog api cl s id)
  unfolding pre_do
  with_id-Absent j cl s panics k l = tt
  with_id-Absent j cl s (is found) k l =
      sent-Absent j _ _ _ k
        (get_request_id-set_request_id s.ctx _, lookup-insert _ j true s.ongoing ∙ rw l refl)

  requested-Absent :
      (j : String) (cl : Option ℕ) (s : State W Res) (e : Option ℕ)
      → ChecksKeepId prog.res_check_f
      → lookup j s.ongoing ≡ none
      → Absent j (requested W Res prog api cl s e)
  requested-Absent j cl s (some e) k l = l
  requested-Absent j cl s none k l = with_id-Absent j cl s _ k l

  pub attempt-Absent :
      (j : String) (s : State W Res)
      → ChecksKeepId prog.res_check_f
      → lookup j s.ongoing ≡ none
      → Absent j (attempt W Res prog api s)
  unfolding attempt
  attempt-Absent j s k l = requested-Absent j _ _ _ k l

-- ===== src/HttpApi/Api.antt =====
-- HttpAPI/api.go: one attempt of a call, and Do with its retries. What the
-- program and the net/http and json packages do is a parameter, a function of a world `W`.
use helper.Base.{
  ℕ, zero, suc, Bool, true, Option, none, some, List, [], ◌∷◌, String, string_eq, if◌then◌else◌,
  str_eq,
}
use helper.Base.Dict.{insert, delete}
use helper.Base.Int.{ℤ, pos, ltz}
use helper.StructType.{Ty, other_type, valid_struct_type, StructError}
use helper.HttpApi.Context.{
  Context, ContextValue, text, int64, bytes, object, Cast, is, panics, set, get_request_id,
  set_request_id, is_api_debug, set_request_object, get_request_object, get_error_callback,
  get_retry_count, get_request_client, key_spent, key_debug_api, key_debug_res_data,
}

pub record Api : Type 0 where
  pub name : String
  pub request_type : Option Ty
  pub response_type : Ty

pub data ApiError : Type 0 where
  bad_response_type bad_request_type already_registered : ApiError
  bad_request_object : StructError → ApiError
  request_failed send_failed unmarshal_failed check_failed : ℕ → ApiError

pub data Result (A : Type 0) : Type 0 where
  ok : A → Result A
  failed : ApiError → Result A

pub data CallbackResult : Type 0 where
  abort retry continue : CallbackResult

module _ (W Res : Type 0) where
  -- What a call changes: the world, its context, and OnGoingAPIs, where `true` stands for this
  -- context and `false` for that of another call.
  pub record State : Type 0 where
    pub world : W
    pub ctx : Context
    pub ongoing : List (String × Bool)

  -- ReqF, with WithContext; the client's Do; reading and unmarshalling of the body, with the data
  -- that were read; ResCheckF; the error callbacks; and the identifier that preDo makes.
  pub record Program : Type 0 where
    pub req_f : W → Context → W × Context × Option ℕ
    pub client_do : Option ℕ → W → W × Option ℕ
    pub unmarshal : W → W × List ℕ × Result Res
    pub res_check_f : Option (W → Context → Res → W × Context × Option ℕ)
    pub call_back : ℕ → W → Context → ApiError → W × Context × CallbackResult
    pub make_id : W → String
    pub spent : W → ℤ

  pub data Attempted : Type 0 where
    returned : State → Result Res → Attempted
    panicked : Attempted

  module _ (prog : Program) (api : Api) where
    -- `len(reqID) == 0`.
    abbrev pub chosen_id : W → String → String
    chosen_id w id = if str_eq id "" then prog.make_id w else id

    unfoldable pub pre_do : State → String → State
    pre_do s found =
        let id = chosen_id s.world found in
        record s { ctx = set_request_id s.ctx id; ongoing = insert id true s.ongoing }

    -- The deferred postDo.
    unfoldable pub post_do : State → Result Res → Cast String → Attempted
    post_do s r (is id) = returned (record s { ongoing = delete id s.ongoing }) r
    post_do s r panics = panicked

    abbrev leave : State → Result Res → Attempted
    leave s r = post_do s r (get_request_id s.ctx)

    abbrev pub checked : State → Res → Option ℕ → Attempted
    checked s v none = leave s (ok v)
    checked s v (some e) = leave s (failed (check_failed e))

    abbrev pub check_response :
        State → Res → Option (W → Context → Res → W × Context × Option ℕ) → Attempted
    check_response s v none = leave s (ok v)
    check_response s v (some f) =
        let (w, c, e) = f s.world s.ctx v in checked (record s { world = w; ctx = c }) v e

    abbrev pub unmarshalled : State → Result Res → Attempted
    unmarshalled s (failed e) = leave s (failed e)
    unmarshalled s (ok v) = check_response s v prog.res_check_f

    -- `if ctx.IsAPIDebug()`.
    abbrev pub debug_context : Context → List ℕ → Context
    debug_context c data_read =
        if is_api_debug c
        then set (set c key_debug_api (some (text api.name))) key_debug_res_data
            (some (bytes data_read))
        else c

    unfoldable pub read_response : State → Attempted
    unfolding post_do
    read_response s =
        let c = set s.ctx key_spent (some (int64 (prog.spent s.world))) in
        let (w, data_read, r) = prog.unmarshal s.world in
        unmarshalled (record s { world = w; ctx = debug_context c data_read }) r

    abbrev pub sent : State → Option ℕ → Attempted
    sent s (some e) = leave s (failed (send_failed e))
    sent s none = read_response s

    -- `client.Do(req)`, nil being DefaultClient.
    abbrev pub send : Option ℕ → State → Attempted
    send cl s = let (w, e) = prog.client_do cl s.world in sent (record s { world = w }) e

    abbrev pub with_id : Option ℕ → State → Cast String → Attempted
    with_id cl s (is id) = send cl (pre_do s id)
    with_id cl s panics = panicked

    abbrev pub requested : Option ℕ → State → Option ℕ → Attempted
    requested cl s (some e) = returned s (failed (request_failed e))
    requested cl s none = with_id cl s (get_request_id s.ctx)

    -- `_do`.
    unfoldable pub attempt : State → Attempted
    unfolding pre_do post_do read_response
    attempt s =
        let cl = get_request_client s.ctx in
        let (w, c, e) = prog.req_f s.world s.ctx in requested cl (record s { world = w; ctx = c }) e

    abbrev pub next_callback :
        State × CallbackResult → State → CallbackResult → State × CallbackResult
    next_callback rest s abort = (s, abort)
    next_callback rest s retry = (s, retry)
    next_callback rest s continue = rest

    -- The loop over the error callbacks: the first that does not say continue decides.
    unfoldable pub run_callbacks : List ℕ → State → ApiError → State × CallbackResult
    run_callbacks [] s e = (s, continue)
    run_callbacks (cb ∷ cbs) s e =
        let (w, c, r) = prog.call_back cb s.world s.ctx e in
        let s' : State = record s { world = w; ctx = c } in
        next_callback (run_callbacks cbs s' e) s' r

    -- `tried` is the local variable at the return.
    pub data Done : Type 0 where
      done : State → Result Res → ℕ → Done
      crashed : Done

    -- What follows the callbacks.
    unfoldable pub after_callbacks :
        (State → ℕ → Option Done)
        → ℤ
        → Option ContextValue
        → ℕ
        → ApiError
        → State
        → CallbackResult
        → Option Done
    after_callbacks again max_retry req_obj tried e s abort = some (done s (failed e) tried)
    after_callbacks again max_retry req_obj tried e s continue = some (done s (failed e) tried)
    after_callbacks again max_retry req_obj tried e s retry =
        if ltz max_retry (pos tried)
        then some (done s (failed e) tried)
        else again (record s { ctx = set_request_object s.ctx req_obj }) tried

    abbrev pub with_callbacks :
        (State → ℕ → Option Done)
        → ℤ
        → Option ContextValue
        → ℕ
        → ApiError
        → State
        → Cast (List ℕ)
        → Option Done
    with_callbacks again max_retry req_obj tried e s (is cbs) =
        let r = run_callbacks cbs s e in after_callbacks again max_retry req_obj tried e r.0 r.1
    with_callbacks again max_retry req_obj tried e s panics = some crashed

    unfoldable pub after_attempt :
        (State → ℕ → Option Done) → ℤ → Option ContextValue → ℕ → Attempted → Option Done
    unfolding after_callbacks
    after_attempt again max_retry req_obj tried panicked = some crashed
    after_attempt again max_retry req_obj tried (returned s (ok v)) = some (done s (ok v) tried)
    after_attempt again max_retry req_obj tried (returned s (failed e)) =
        with_callbacks again max_retry req_obj tried e s (get_error_callback s.ctx)

    -- The loop of Do on fuel; `none` means that the fuel ran out.
    unfoldable pub do_loop : ℕ → ℤ → Option ContextValue → State → ℕ → Option Done
    do_loop zero max_retry req_obj s tried = none
    do_loop (suc fuel) max_retry req_obj s tried =
        after_attempt (do_loop fuel max_retry req_obj) max_retry req_obj (suc tried) (attempt s)

    -- The dynamic type of a request object.
    abbrev pub object_type : Option ContextValue → Option Ty
    object_type none = none
    object_type (some (object o)) = some o.type_of
    object_type (some _) = some (other_type 0)

    -- `if api.RequestObjectType != nil { ValidStructType(reqObj, api.RequestObjectType, 1) }`.
    abbrev pub check_object : Option Ty → Option ContextValue → Option StructError
    check_object none v = none
    check_object (some t) v = valid_struct_type (object_type v) (some t) (pos 1)

    abbrev pub do_checked : ℕ → State → Option StructError → Option Done
    do_checked fuel s (some e) = some (done s (failed (bad_request_object e)) 0)
    do_checked fuel s none = do_loop fuel (get_retry_count s.ctx) (get_request_object s.ctx) s 0

    -- `Do`.
    unfoldable pub do_api : ℕ → State → Option Done
    unfolding do_loop
    do_api fuel s = do_checked fuel s (check_object api.request_type (get_request_object s.ctx))

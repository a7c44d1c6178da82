-- ===== src/HttpApi/Ongoing.antt =====
-- HttpAPI/api.go, Do: OnGoingAPIs after a whole call.
use helper.Base.{
  ℕ, zero, suc, ◌≡◌, refl, ◌∙◌, ap, Option, none, some, List, [], ◌∷◌, String, string_eq,
  Bool-cases, inl, inr,
}
use helper.Base.Int.{ℤ, pos, ltz}
use helper.Base.Dict.{lookup}
use helper.StructType.{StructError}
use helper.HttpApi.Context.{ContextValue, Cast, is, panics}
use helper.HttpApi.Api.{
  Api, ApiError, ok, failed, CallbackResult, abort, retry, continue, State, Program, Attempted,
  returned, panicked, next_callback, run_callbacks, Done, done, crashed, after_callbacks,
  with_callbacks, after_attempt, do_loop, do_checked, do_api,
}
use helper.HttpApi.Attempt.{ChecksKeepId, Absent, attempt-Absent}

module _ (W Res : Type 0) (prog : Program W Res) (api : Api) where
  next_callback-ongoing :
      (rest : State W Res × CallbackResult) (s : State W Res) (r : CallbackResult)
      → rest.0.ongoing ≡ s.ongoing
      → (next_callback W Res prog api rest s r).0.ongoing ≡ s.ongoing
  next_callback-ongoing rest s abort h = refl
  next_callback-ongoing rest s retry h = refl
  next_callback-ongoing rest s continue h = h

  run_callbacks-ongoing :
      (cbs : List ℕ) (s : State W Res) (e : ApiError)
      → (run_callbacks W Res prog api cbs s e).0.ongoing ≡ s.ongoing
  unfolding run_callbacks
  run_callbacks-ongoing [] s e = refl
  run_callbacks-ongoing (cb ∷ cbs) s e =
      let (w, c, r) = prog.call_back cb s.world s.ctx e in
      let s' : State W Res = record s { world = w; ctx = c } in
      next_callback-ongoing _ s' r (run_callbacks-ongoing cbs s' e)

  abbrev pub AbsentAfter : String → Option (Done W Res prog api) → Type 0
  AbsentAfter j none = Unit
  AbsentAfter j (some crashed) = Unit
  AbsentAfter j (some (done s r tried)) = lookup j s.ongoing ≡ none

  after_callbacks-Absent :
      (j : String) (again : State W Res → ℕ → Option (Done W Res prog api)) (max_retry : ℤ)
      (req_obj : Option ContextValue) (tried : ℕ) (e : ApiError) (s : State W Res)
      (r : CallbackResult)
      → lookup j s.ongoing ≡ none
      → ((s' : State W Res) → lookup j s'.ongoing ≡ none → AbsentAfter j (again s' tried))
      → AbsentAfter j (after_callbacks W Res prog api again max_retry req_obj tried e s r)
  unfolding after_callbacks
  after_callbacks-Absent j again max_retry req_obj tried e s abort l h = l
  after_callbacks-Absent j again max_retry req_obj tried e s continue l h = l
  after_callbacks-Absent j again max_retry req_obj tried e s retry l h =
      elim (Bool-cases (ltz max_retry (pos tried))) [
        | inl over ↦ rw over l
        | inr under ↦ rw under (h _ l)
      ]

  with_callbacks-Absent :
      (j : String) (again : State W Res → ℕ → Option (Done W Res prog api)) (max_retry : ℤ)
      (req_obj : Option ContextValue) (tried : ℕ) (e : ApiError) (s : State W Res)
      (cbs : Cast (List ℕ))
      → lookup j s.ongoing ≡ none
      → ((s' : State W Res) → lookup j s'.ongoing ≡ none → AbsentAfter j (again s' tried))
      → AbsentAfter j (with_callbacks W Res prog api again max_retry req_obj tried e s cbs)
  with_callbacks-Absent j again max_retry req_obj tried e s panics l h = tt
  with_callbacks-Absent j again max_retry req_obj tried e s (is cbs) l h =
      after_callbacks-Absent j again max_retry req_obj tried e _ _
        (ap (lookup j) (run_callbacks-ongoing cbs s e) ∙ l) h

  after_attempt-Absent :
      (j : String) (again : State W Res → ℕ → Option (Done W Res prog api)) (max_retry : ℤ)
      (req_obj : Option ContextValue) (tried : ℕ) (a : Attempted W Res)
      → Absent W Res prog api j a
      → ((s' : State W Res) → lookup j s'.ongoing ≡ none → AbsentAfter j (again s' tried))
      → AbsentAfter j (after_attempt W Res prog api again max_retry req_obj tried a)
  unfolding after_attempt
  after_attempt-Absent j again max_retry req_obj tried panicked l h = tt
  after_attempt-Absent j again max_retry req_obj tried (returned s (ok v)) l h = l
  after_attempt-Absent j again max_retry req_obj tried (returned s (failed e)) l h =
      with_callbacks-Absent j again max_retry req_obj tried e s _ l h

  do_loop-Absent :
      (j : String) (fuel : ℕ) (max_retry : ℤ) (req_obj : Option ContextValue) (s : State W Res)
      (tried : ℕ)
      → ChecksKeepId W Res prog api prog.res_check_f
      → lookup j s.ongoing ≡ none
      → AbsentAfter j (do_loop W Res prog api fuel max_retry req_obj s tried)
  unfolding do_loop
  do_loop-Absent j zero max_retry req_obj s tried k l = tt
  do_loop-Absent j (suc fuel) max_retry req_obj s tried k l =
      after_attempt-Absent j _ max_retry req_obj (suc tried) _
        (attempt-Absent W Res prog api j s k l)
        (λ s' l'. do_loop-Absent j fuel max_retry req_obj s' (suc tried) k l')

  do_checked-Absent :
      (j : String) (fuel : ℕ) (s : State W Res) (e : Option StructError)
      → ChecksKeepId W Res prog api prog.res_check_f
      → lookup j s.ongoing ≡ none
      → AbsentAfter j (do_checked W Res prog api fuel s e)
  do_checked-Absent j fuel s (some e) k l = l
  do_checked-Absent j fuel s none k l = do_loop-Absent j fuel _ _ s 0 k l

  -- A call leaves nothing behind in OnGoingAPIs, however many attempts it makes and wherever they
  -- fail: an identifier that was not listed before is not listed when Do returns, if the response
  -- check does not change the identifier of the request.
  pub do_api-Absent :
      (j : String) (fuel : ℕ) (s : State W Res)
      → ChecksKeepId W Res prog api prog.res_check_f
      → lookup j s.ongoing ≡ none
      → AbsentAfter j (do_api W Res prog api fuel s)
  unfolding do_api
  do_api-Absent j fuel s k l = do_checked-Absent j fuel s _ k l

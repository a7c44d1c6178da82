-- ===== src/HttpApi/Retries.antt =====
-- HttpAPI/api.go, Do: the loop ends, after a number of attempts that the retry count bounds.
use helper.Base.{ℕ, zero, suc, ◌+◌, ◌≤◌, ◌<◌, Option, none, some, List, arith, Bool-cases, inl, inr}
use helper.Base.Int.{ℤ, pos, ltz, pos_part}
use helper.StructType.{StructError}
use helper.HttpApi.Context.{ContextValue, Cast, is, panics, get_retry_count}
use helper.HttpApi.Api.{
  Api, ApiError, ok, failed, CallbackResult, abort, retry, continue, State, Program, Attempted,
  returned, panicked, Done, done, crashed, after_callbacks, with_callbacks, after_attempt, do_loop,
  do_checked, do_api,
}

module _ (W Res : Type 0) (prog : Program W Res) (api : Api) where
  -- The number of attempts is within a bound; a panic ends the call as well.
  abbrev pub Within : ℕ → Done W Res prog api → Type 0
  Within bound (done s r tried) = tried ≤ bound
  Within bound crashed = Unit

  -- A call that returns, or crashes, within that number of attempts.
  abbrev pub EndsWithin : ℕ → Option (Done W Res prog api) → Type 0
  EndsWithin bound none = ⊥
  EndsWithin bound (some d) = Within bound d

  after_callbacks_Ends :
      (again : State W Res → ℕ → Option (Done W Res prog api)) (max_retry : ℤ)
      (req_obj : Option ContextValue) (tried : ℕ) (e : ApiError) (s : State W Res)
      (r : CallbackResult)
      → tried ≤ suc (pos_part max_retry)
      → ((s' : State W Res)
          → tried ≤ pos_part max_retry
          → EndsWithin (suc (pos_part max_retry)) (again s' tried))
      → EndsWithin
          (suc (pos_part max_retry))
          (after_callbacks W Res prog api again max_retry req_obj tried e s r)
  unfolding after_callbacks
  after_callbacks_Ends again max_retry req_obj tried e s abort l h = l
  after_callbacks_Ends again max_retry req_obj tried e s continue l h = l
  after_callbacks_Ends again max_retry req_obj tried e s retry l h =
      elim (Bool-cases (ltz max_retry (pos tried))) [
        | inl over ↦ rw over l
        | inr under ↦ rw under (h _ (ground arith))
      ]

  with_callbacks_Ends :
      (again : State W Res → ℕ → Option (Done W Res prog api)) (max_retry : ℤ)
      (req_obj : Option ContextValue) (tried : ℕ) (e : ApiError) (s : State W Res)
      (cbs : Cast (List ℕ))
      → tried ≤ suc (pos_part max_retry)
      → ((s' : State W Res)
          → tried ≤ pos_part max_retry
          → EndsWithin (suc (pos_part max_retry)) (again s' tried))
      → EndsWithin
          (suc (pos_part max_retry))
          (with_callbacks W Res prog api again max_retry req_obj tried e s cbs)
  with_callbacks_Ends again max_retry req_obj tried e s (is cbs) l h =
      after_callbacks_Ends again max_retry req_obj tried e _ _ l h
  with_callbacks_Ends again max_retry req_obj tried e s panics l h = tt

  after_attempt_Ends :
      (again : State W Res → ℕ → Option (Done W Res prog api)) (max_retry : ℤ)
      (req_obj : Option ContextValue) (tried : ℕ) (a : Attempted W Res)
      → tried ≤ suc (pos_part max_retry)
      → ((s' : State W Res)
          → tried ≤ pos_part max_retry
          → EndsWithin (suc (pos_part max_retry)) (again s' tried))
      → EndsWithin
          (suc (pos_part max_retry))
          (after_attempt W Res prog api again max_retry req_obj tried a)
  unfolding after_attempt
  after_attempt_Ends again max_retry req_obj tried panicked l h = tt
  after_attempt_Ends again max_retry req_obj tried (returned s (ok v)) l h = l
  after_attempt_Ends again max_retry req_obj tried (returned s (failed e)) l h =
      with_callbacks_Ends again max_retry req_obj tried e s _ l h

  do_loop_Ends :
      (fuel : ℕ) (max_retry : ℤ) (req_obj : Option ContextValue) (s : State W Res) (tried : ℕ)
      → tried ≤ pos_part max_retry
      → pos_part max_retry < fuel + tried
      → EndsWithin
          (suc (pos_part max_retry))
          (do_loop W Res prog api fuel max_retry req_obj s tried)
  unfolding do_loop
  do_loop_Ends zero max_retry req_obj s tried l f = absurd (omega arith)
  do_loop_Ends (suc fuel) max_retry req_obj s tried l f =
      after_attempt_Ends _ max_retry req_obj (suc tried) _ (omega arith)
        (λ s' l'. do_loop_Ends fuel max_retry req_obj s' (suc tried) l' (omega arith))

  do_checked_Ends :
      (fuel : ℕ) (s : State W Res) (e : Option StructError)
      → pos_part (get_retry_count s.ctx) < fuel
      → EndsWithin (suc (pos_part (get_retry_count s.ctx))) (do_checked W Res prog api fuel s e)
  do_checked_Ends fuel s (some e) f = omega arith
  do_checked_Ends fuel s none f = do_loop_Ends fuel _ _ s 0 (omega arith) (omega arith)

  -- Do ends, whatever the request function, the network, the response check and the error callbacks
  -- do, and makes at most one attempt more than the retry count that its context held at the start,
  -- or one attempt if that is not above zero.
  pub do_api-EndsWithin :
      (fuel : ℕ) (s : State W Res)
      → pos_part (get_retry_count s.ctx) < fuel
      → EndsWithin (suc (pos_part (get_retry_count s.ctx))) (do_api W Res prog api fuel s)
  unfolding do_api
  do_api-EndsWithin fuel s f = do_checked_Ends fuel s _ f

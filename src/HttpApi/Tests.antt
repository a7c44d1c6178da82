-- ===== src/HttpApi/Tests.antt =====
-- The theorems about HttpAPI at a program whose client fails twice and whose callback asks to retry.
-- The world is the number of requests that were sent.
use helper.Base.{
  ℕ, suc, ◌≡◌, refl, Option, none, some, [], ◌∷◌, string_eq, ltb, if◌then◌else◌, arith,
}
use helper.Base.Dict.{lookup, insert, delete}
use helper.Base.Int.{pos}
use helper.StructType.{struct_type}
use helper.HttpApi.Context.{
  Context, int64, error_callbacks, set, get, get_string, get_request_id, set_request_id,
  get_request_client, is_api_debug, set_request_object, get_request_object, get_error_callback,
  get_retry_count, key_error_callback, key_retry_count,
}
use helper.HttpApi.Api.{
  Api, ok, retry, State, Program, Done, done, pre_do, post_do, read_response, attempt,
  run_callbacks, after_callbacks, after_attempt, do_loop, do_api,
}
use helper.HttpApi.Retries.{EndsWithin, do_api-EndsWithin}
use helper.HttpApi.Ongoing.{AbsentAfter, do_api-Absent}

abbrev weather : Api
weather = record { name = "weather"; request_type = none; response_type = struct_type 3 }

abbrev flaky : Program ℕ ℕ
flaky = record {
  req_f = λ w c. (w, c, none);
  client_do = λ cl w. (suc w, if ltb w 2 then some 7 else none);
  unmarshal = λ w. (w, [], ok 42);
  res_check_f = none;
  call_back = λ cb w c e. (w, c, retry);
  make_id = λ w. "weather_1";
  spent = λ w. pos 5;
}

abbrev context : Context
context =
    (key_retry_count, some (int64 (pos 3)))
    ∷ (key_error_callback, some (error_callbacks (1 ∷ [])))
    ∷ []

abbrev state : State ℕ ℕ
state = record { world = 0; ctx = context; ongoing = [] }

abbrev tries : Option (Done ℕ ℕ flaky weather) → ℕ
tries (some (done s (ok v) n)) = n
tries _ = 0

third_try_succeeds : tries (do_api ℕ ℕ flaky weather 4 state) ≡ 3
unfolding do_api do_loop attempt after_attempt after_callbacks run_callbacks pre_do post_do
    read_response get_request_id set_request_id get_request_client is_api_debug get_retry_count
    get_request_object set_request_object get_error_callback get_string get set lookup insert delete
third_try_succeeds = refl

do_api-EndsWithin_example : EndsWithin ℕ ℕ flaky weather 4 (do_api ℕ ℕ flaky weather 4 state)
unfolding get_retry_count get lookup
do_api-EndsWithin_example = do_api-EndsWithin ℕ ℕ flaky weather 4 state (omega arith)

do_api-Absent_example : AbsentAfter ℕ ℕ flaky weather "weather_1" (do_api ℕ ℕ flaky weather 4 state)
unfolding lookup
do_api-Absent_example = do_api-Absent ℕ ℕ flaky weather "weather_1" 4 state tt refl

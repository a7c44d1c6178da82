-- ===== src/HttpApi/Context.antt =====
-- HttpAPI/context.go: the values that one API call carries. A context is the map that
-- `c.Value(apiContextKey)` finds, which NewAPIContext puts into every APIContext.
use helper.Base.{ℕ, Bool, Option, none, some, List, [], String, string_eq, is_some}
use helper.Base.Dict.{lookup, insert, delete}
use helper.Base.Int.{ℤ, pos}
use helper.Base.Int64.{◌+64◌}
use helper.StructType.{Ty}

-- The request objects, with their dynamic types.
pub record Object : Type 0 where
  pub type_of : Ty
  pub content : ℕ

-- An `interface{}` by its dynamic type; functions, clients and callbacks are named by numbers.
pub data ContextValue : Type 0 where
  text : String → ContextValue
  int int64 : ℤ → ContextValue
  flag : Bool → ContextValue
  object : Object → ContextValue
  client cancel_func : ℕ → ContextValue
  error_callbacks : List ℕ → ContextValue
  bytes raw_json : List ℕ → ContextValue

-- `none` is a key that holds nil.
abbrev pub Context : Type 0
Context = List (String × Option ContextValue)

abbrev pub key_request_id : String
key_request_id = "__api_request_id"

abbrev pub key_error_callback : String
key_error_callback = "__api_error_callback"

abbrev pub key_retry_count : String
key_retry_count = "__api_retry_count"

abbrev pub key_req_obj : String
key_req_obj = "__api_req_obj"

abbrev pub key_spent : String
key_spent = "__api_spent"

abbrev pub key_debug : String
key_debug = "__api_debug"

abbrev pub key_debug_res_data : String
key_debug_res_data = "__api_debug_response_data"

abbrev pub key_debug_api : String
key_debug_api = "__api_debug_api"

unfoldable pub set : Context → String → Option ContextValue → Context
set c key v = insert key v c

unfoldable pub unset : Context → String → Context
unset c key = delete key c

-- `m.elems[key]`, which is nil for a missing key.
abbrev pub value_of : Option (Option ContextValue) → Option ContextValue
value_of none = none
value_of (some v) = v

unfoldable pub get : Context → String → Option ContextValue
get c key = value_of (lookup key c)

-- `v.(T)` panics on a value of another type.
pub data Cast {ℓ} (A : Type ℓ) : Type ℓ where
  is : A → Cast A
  panics : Cast A

abbrev pub as_text : String → Option ContextValue → Cast String
as_text def none = is def
as_text def (some (text s)) = is s
as_text def (some _) = panics

unfoldable pub get_string : Context → String → String → Cast String
unfolding get
get_string c key def = as_text def (get c key)

abbrev pub as_int : ℤ → Option ContextValue → Cast ℤ
as_int def none = is def
as_int def (some (int n)) = is n
as_int def (some _) = panics

unfoldable pub get_int : Context → String → ℤ → Cast ℤ
unfolding get
get_int c key def = as_int def (get c key)

-- `m.elems[key].(int)`, of a key that was found; nil panics too.
abbrev pub inc_value : Option (Option ContextValue) → ℤ → Cast ℤ
inc_value none n = is n
inc_value (some (some (int m))) n = is (n +64 m)
inc_value (some _) n = panics

abbrev pub set_cast : Context → String → Cast ℤ → Cast Context
set_cast c key (is n) = is (set c key (some (int n)))
set_cast c key panics = panics

unfoldable pub inc : Context → String → ℤ → Cast Context
unfolding set
inc c key n = set_cast c key (inc_value (lookup key c) n)

abbrev pub set_nx_found :
    Context → String → Option ContextValue → Option (Option ContextValue) → Context
set_nx_found c key v none = set c key v
set_nx_found c key v (some _) = c

unfoldable pub set_nx : Context → String → Option ContextValue → Context
unfolding set
set_nx c key v = set_nx_found c key v (lookup key c)

unfoldable pub get_request_id : Context → Cast String
unfolding get_string
get_request_id c = get_string c key_request_id ""

unfoldable pub set_request_id : Context → String → Context
unfolding set
set_request_id c id = set c key_request_id (some (text id))

unfoldable pub is_api_debug : Context → Bool
unfolding get
is_api_debug c = is_some (get c key_debug)

unfoldable pub set_request_object : Context → Option ContextValue → Context
unfolding set
set_request_object c v = set c key_req_obj v

unfoldable pub get_request_object : Context → Option ContextValue
unfolding get
get_request_object c = get c key_req_obj

abbrev pub as_callbacks : Option ContextValue → Cast (List ℕ)
as_callbacks none = is []
as_callbacks (some (error_callbacks cbs)) = is cbs
as_callbacks (some _) = panics

unfoldable pub get_error_callback : Context → Cast (List ℕ)
unfolding get
get_error_callback c = as_callbacks (get c key_error_callback)

-- `DefaultRetryCount`, also for a value that is no int64.
abbrev pub as_retry_count : Option ContextValue → ℤ
as_retry_count (some (int64 n)) = n
as_retry_count _ = pos 1

unfoldable pub get_retry_count : Context → ℤ
unfolding get
get_retry_count c = as_retry_count (get c key_retry_count)

-- `GetRequestClient`: nil for a value of another type.
abbrev pub as_client : Option ContextValue → Option ℕ
as_client (some (client n)) = some n
as_client _ = none

abbrev pub key_req_client : String
key_req_client = "__api_req_client"

unfoldable pub get_request_client : Context → Option ℕ
unfolding get
get_request_client c = as_client (get c key_req_client)

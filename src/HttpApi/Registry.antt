-- ===== src/HttpApi/Registry.antt =====
-- HttpAPI/api.go, RegisterAPI and the registry that it fills.
use helper.Base.{
  ◌≡◌, refl, Bool, true, false, not, ◌&&◌, Option, none, some, List, String, string_eq, is_some,
  if◌then◌else◌, str_eq, arith,
}
use helper.Base.Dict.{lookup, insert, lookup-insert}
use helper.Base.Int.{pos}
use helper.StructType.{Ty, struct_type, ptr, valid_struct_type, walk, check_struct}
use helper.HttpApi.Api.{Api, ApiError, bad_response_type, bad_request_type, already_registered}

pub data Registered : Type 0 where
  registered : Api → Registered
  refused : ApiError → Registered

-- The dynamic type of every `reflect.Type`: `*reflect.rtype`.
abbrev pub rtype : Ty
rtype = ptr (struct_type 0)

-- `helper.ValidStructType(t, nil, 1) != nil`: the type of the argument `t` is that of a type.
unfoldable pub is_invalid_type : Option Ty → Bool
is_invalid_type none = true
is_invalid_type (some t) = is_some (valid_struct_type (some rtype) none (pos 1))

abbrev pub register_found :
    List (String × Api) → Api → Option Api → List (String × Api) × Registered
register_found apis api (some _) = (apis, refused already_registered)
register_found apis api none = (insert api.name api apis, registered api)

unfoldable pub register_api :
    List (String × Api) → String → Option Ty → Option Ty → List (String × Api) × Registered
unfolding is_invalid_type
register_api apis name req_type none = (apis, refused bad_response_type)
register_api apis name req_type (some t) =
    if is_invalid_type (some t)
    then (apis, refused bad_response_type)
    else if is_some req_type && is_invalid_type req_type
    then (apis, refused bad_request_type)
    else register_found apis (record { name = name; request_type = req_type; response_type = t })
        (lookup name apis)

is_invalid_type_never : (t : Ty) → is_invalid_type (some t) ≡ false
unfolding is_invalid_type valid_struct_type walk check_struct
is_invalid_type_never t = refl

unchecked :
    (apis : List (String × Api)) (name : String) (req_type : Option Ty) (t : Ty)
    → register_api apis name req_type (some t)
      ≡ register_found apis
          (record { name = name; request_type = req_type; response_type = t })
          (lookup name apis)
unfolding register_api
unchecked apis name none t = rw (is_invalid_type_never t) refl
unchecked apis name (some r) t = rw (is_invalid_type_never t) refl

abbrev pub outcome : Api → Bool → Registered
outcome api true = refused already_registered
outcome api false = registered api

-- RegisterAPI refuses a name that is taken, and then the registry stays as it was; any other name is
-- registered with what was given, all other names being as before. Whatever the request type and the
-- response type are, struct or not, no call with a response type is refused for its types.
pub register_api-lookup :
    (apis : List (String × Api)) (name : String) (req_type : Option Ty) (t : Ty) (k : String)
    → let api : Api = record { name = name; request_type = req_type; response_type = t } in
      let is_taken = is_some (lookup name apis) in
      let (apis', result) = register_api apis name req_type (some t) in
      (result ≡ outcome api is_taken)
      × (lookup k apis' ≡ (if str_eq name k && not is_taken then some api else lookup k apis))
register_api-lookup apis name req_type t k =
    let api : Api = record { name = name; request_type = req_type; response_type = t } in
    rw (unchecked apis name req_type t) (by_name (lookup name apis))
  where
    by_name :
        (o : Option Api)
        → let api : Api = record { name = name; request_type = req_type; response_type = t } in
          let (apis', result) = register_found apis api o in
          (result ≡ outcome api (is_some o))
          × (lookup k apis'
              ≡ (if str_eq name k && not (is_some o) then some api else lookup k apis))
    by_name (some a) = (refl, ground arith)
    by_name none = (
      refl,
      ground (
        arith,
        lookup-insert name k (record { name = name; request_type = req_type; response_type = t })
            apis,
      ),
    )

-- ===== src/FastJson/Object.antt =====
-- fastjson/object.go and fastjson/array.go: the entries of an object and of an array. A Go map is an
-- association list, in the order of one range loop over it, or `none` for nil. Objects that share
-- a map are not modelled.
use helper.Base.{
  ℕ, ◌≡◌, refl, Bool, true, false, Option, none, some, List, [], ◌∷◌, map, if◌then◌else◌, is_some,
  length, get_elem?, bytes_eq, bytes_test, arith,
}
use helper.Base.Int.{ℤ, pos, negsuc}
use helper.Base.Text.{Bytes}
use helper.Base.Dict.{lookup, insert, lookup-insert}
use helper.FastJson.{
  Value, Items, Fields, null, nil_pointer, pointer, array, object, no_item, item, no_field, field,
  Floats, get_int_value, get_float_value, get_bool_value,
}

abbrev pub Entries : Type 0
Entries = List (Bytes × Value)

pub record JsonObject : Type 0 where
  pub entries : Option Entries

pub record JsonArray : Type 0 where
  pub items : List Value

abbrev pub items_of : Items → List Value
items_of no_item = []
items_of (item v vs) = v ∷ items_of vs

abbrev pub fields_of : Fields → Entries
fields_of no_field = []
fields_of (field k v fs) = (k, v) ∷ fields_of fs

abbrev pub object_from : Option Entries → JsonObject
object_from m = record { entries = m }

abbrev pub new_object : JsonObject
new_object = record { entries = some [] }

abbrev pub new_array : JsonArray
new_array = record { items = [] }

-- Reading a nil map finds nothing.
unfoldable pub find_entry : Option Entries → Bytes → Option Value
unfolding lookup
find_entry none k = none
find_entry (some m) k = lookup k m

unfoldable pub contains_key : JsonObject → Bytes → Bool
unfolding find_entry
contains_key obj k = is_some (find_entry obj.entries k)

-- Writing into a nil map panics, as `none`.
abbrev put_entry : Bytes → Value → Option Entries → Option JsonObject
put_entry k v none = none
put_entry k v (some m) = some (record { entries = some (insert k v m) })

unfoldable pub put : JsonObject → Bytes → Value → Option JsonObject
unfolding insert
put obj k v = put_entry k v obj.entries

abbrev pub or_null : Option Value → Value
or_null none = null
or_null (some v) = v

-- The value returned; the object stays as it is.
unfoldable pub remove : JsonObject → Bytes → JsonObject × Value
unfolding find_entry
remove obj k = (obj, or_null (find_entry obj.entries k))

-- The loop over pointers; `v.Interface()` after a nil one panics, as `none`.
unfoldable pub deref : Value → Option Value
deref nil_pointer = none
deref (pointer v) = deref v
deref v = some v

unfoldable pub get : JsonObject → Bytes → Option Value
unfolding find_entry deref
get obj k = deref (or_null (find_entry obj.entries k))

infixl 5 ◌>>=◌
abbrev pub ◌>>=◌ {ℓ κ} : {A : Type ℓ} {B : Type κ} → Option A → (A → Option B) → Option B
none >>= f = none
some a >>= f = f a

unfoldable pub get_int : Floats → JsonObject → Bytes → Option ℤ
unfolding get get_int_value
get_int fl obj k = do v ← get obj k; get_int_value fl v

unfoldable pub get_float : Floats → JsonObject → Bytes → Option ℕ
unfolding get get_float_value
get_float fl obj k = do v ← get obj k; get_float_value fl v

abbrev bool_of : Option Value → Bool
bool_of none = false
bool_of (some v) = get_bool_value v

-- The entry itself, whose pointers are not followed.
unfoldable pub get_bool : JsonObject → Bytes → Bool
unfolding find_entry get_bool_value
get_bool obj k = bool_of (find_entry obj.entries k)

pub data ArrayResult : Type 0 where
  found : JsonArray → ArrayResult
  not_array : Value → ArrayResult

abbrev array_of : Value → ArrayResult
array_of null = found new_array
array_of (array vs) = found (record { items = items_of vs })
array_of v = not_array v

unfoldable pub get_json_array : JsonObject → Bytes → Option ArrayResult
unfolding get
get_json_array obj k = do v ← get obj k; some (array_of v)

abbrev pub first_of : Bytes × Value → Bytes
first_of e = e.0

abbrev pub second_of : Bytes × Value → Value
second_of e = e.1

abbrev pub entry_list : Option Entries → Entries
entry_list none = []
entry_list (some m) = m

unfoldable pub keys : JsonObject → List Bytes
keys obj = map first_of (entry_list obj.entries)

unfoldable pub values : JsonObject → List Value
values obj = map second_of (entry_list obj.entries)

unfoldable pub entries_of : JsonObject → List Bytes × List Value
entries_of obj = (map first_of (entry_list obj.entries), map second_of (entry_list obj.entries))

pub size : JsonArray → ℕ
size arr = length arr.items

-- `arr.entries[index]`, which panics, as `none`, on a negative index.
unfoldable pub get_item : JsonArray → ℤ → Option Value
get_item arr (negsuc n) = none
get_item arr (pos i) = some (or_null (get_elem? arr.items i))

unfoldable pub get_int_item : Floats → JsonArray → ℤ → Option ℤ
unfolding get_item get_int_value
get_int_item fl arr i = do v ← get_item arr i; get_int_value fl v

unfoldable pub get_float_item : Floats → JsonArray → ℤ → Option ℕ
unfolding get_item get_float_value
get_float_item fl arr i = do v ← get_item arr i; get_float_value fl v

unfoldable pub get_bool_item : JsonArray → ℤ → Option Bool
unfolding get_item get_bool_value
get_bool_item arr i = do v ← get_item arr i; some (get_bool_value v)

abbrev object_of : Value → Option JsonObject
object_of (object fs) = some (record { entries = some (fields_of fs) })
object_of v = none

-- The inner `none` is a nil object.
unfoldable pub get_json_object : JsonArray → ℤ → Option (Option JsonObject)
unfolding get_item
get_json_object arr i = do v ← get_item arr i; some (object_of v)

-- After Put into an object made by NewObject or from a map that is not nil, Get of the key gives
-- what the pointers of the value lead to, panics if they end in nil, and ContainsKey finds the key;
-- Get of any other key and ContainsKey of it answer as before.
pub get-put :
    (m : Entries) (k j : Bytes) (v : Value)
    → (obj : JsonObject) × (put (object_from (some m)) k v ≡ some obj)
      × (get obj j ≡ (if bytes_eq k j then deref v else get (object_from (some m)) j))
      × (contains_key obj j
          ≡ (if bytes_eq k j then true else contains_key (object_from (some m)) j))
unfolding put get contains_key find_entry
get-put m k j v = (
  object_from (some (insert k v m)),
  refl,
  rw (lookup-insert k j v m) (ground arith),
  rw (lookup-insert k j v m) (ground arith),
)

-- ===== src/SyncMap.antt =====
-- syncmap/syncmap.go: a map whose keys and values are checked against two types. The lock makes each
-- method one step.
pub mod Refines
pub mod Typed
mod Tests
use helper.Base.{
  ℕ, suc, ◌≡◌, refl, ◌↔◌, Bool, true, false, ◌&&◌, Option, none, some, List, [], ◌∷◌, if◌then◌else◌,
  ◌==◌, ==_iff, length, is_some, EqTest, arith,
}
use helper.Base.Dict.{lookup, insert, delete}

-- `reflect.Type`, and whether `==` works on its values.
pub record GoType : Type 0 where
  pub id : ℕ
  pub is_comparable : Bool

-- An `interface{}` that is not nil: its dynamic type and what it is.
pub record Value : Type 0 where
  pub type_of : ℕ
  pub content : ℕ

abbrev pub same_value : Value → Value → Bool
same_value a b = (a.type_of == b.type_of) && (a.content == b.content)

pub same_value_iff : (a b : Value) → (same_value a b ≡ true) ↔ (a ≡ b)
same_value_iff a b = ground arith

instance abbrev pub value_test : EqTest Value
value_test = record { test = same_value; test_iff = same_value_iff }

pub record Map : Type 0 where
  pub elems : List (Value × Value)
  pub key_type : ℕ
  pub value_type : ℕ

pub data NewError : Type 0 where
  nil_type not_comparable : NewError

pub data NewResult : Type 0 where
  made : Map → NewResult
  refused : NewError → NewResult

unfoldable pub new : Option GoType → Option GoType → NewResult
new none value_type = refused nil_type
new (some k) none = refused nil_type
new (some k) (some v) =
    if k.is_comparable
    then made (record { elems = []; key_type = k.id; value_type = v.id })
    else refused not_comparable

pub data AddError : Type 0 where
  nil_key wrong_key_type wrong_value_type : AddError

-- `m.elems.SetMapIndex(k, v)`: the zero `v` deletes the key.
unfoldable pub set_map_index : Map → Value → Option Value → Map
set_map_index m k (some v) = record m { elems = insert k v m.elems }
set_map_index m k none = record m { elems = delete k m.elems }

-- `if value != nil { if v.Type() != m.valueType ...`.
unfoldable pub is_value_of : Map → Option Value → Bool
is_value_of m none = true
is_value_of m (some v) = v.type_of == m.value_type

unfoldable pub add : Map → Option Value → Option Value → Map × Option AddError
unfolding set_map_index is_value_of
add m none value = (m, some nil_key)
add m (some k) value =
    if k.type_of == m.key_type
    then (if is_value_of m value
        then (set_map_index m k value, none)
        else (m, some wrong_value_type))
    else (m, some wrong_key_type)

unfoldable pub delete_key : Map → Option Value → Map × Option AddError
unfolding add
delete_key m key = add m key none

-- `_get`; `none` is the invalid `reflect.Value`.
unfoldable pub find : Map → Option Value → Option Value
find m none = none
find m (some k) = if k.type_of == m.key_type then lookup k m.elems else none

unfoldable pub has : Map → Option Value → Bool
unfolding find
has m key = is_some (find m key)

unfoldable pub get : Map → Option Value → Option Value
unfolding find
get m key = find m key

abbrev pub keys_of : List (Value × Value) → List Value
keys_of [] = []
keys_of ((k, v) ∷ m) = k ∷ keys_of m

abbrev pub values_of : List (Value × Value) → List Value
values_of [] = []
values_of ((k, v) ∷ m) = v ∷ values_of m

unfoldable pub key_slice : Map → List Value
key_slice m = keys_of m.elems

unfoldable pub value_slice : Map → List Value
value_slice m = values_of m.elems

-- `ForEach` with a callback that changes a state of the caller's.
abbrev pub visit {ℓ} : {S : Type ℓ} → (S → Value → Value → S) → S → List (Value × Value) → S
visit cb s [] = s
visit cb s ((k, v) ∷ m) = visit cb (cb s k v) m

unfoldable pub for_each {ℓ} : {S : Type ℓ} → Map → (S → Value → Value → S) → S → S
for_each m cb s = visit cb s m.elems

unfoldable pub size : Map → ℕ
size m = length m.elems

-- The calls that change a map.
pub data Op : Type 0 where
  adds : Option Value → Option Value → Op
  deletes : Option Value → Op

unfoldable pub apply : Map → Op → Map
unfolding add delete_key
apply m (adds k v) = (add m k v).0
apply m (deletes k) = (delete_key m k).0

unfoldable pub apply_all : Map → List Op → Map
apply_all m [] = m
apply_all m (o ∷ os) = apply_all (apply m o) os

-- ===== src/SyncMap/Refines.antt =====
-- syncmap/syncmap.go: a map is a function from keys, which every accepted call changes at one key.
use helper.Base.{
  ◌≡◌, refl, ◌∙◌, ap, false, ◌&&◌, Option, none, some, List, [], ◌∷◌, if◌then◌else◌, ◌==◌, ==_iff,
  arith, Bool-cases, inl, inr,
}
use helper.Base.Dict.{lookup-insert, lookup-delete}
use helper.SyncMap.{
  Value, same_value, same_value_iff, value_test, Map, Op, adds, deletes, add, delete_key,
  set_map_index, is_value_of, find, get, apply, apply_all,
}

-- The abstract map: a value for each key, and the call's effect on one key.
abbrev pub change : Map → Value → Option Value → Option Value → Option Value → Option Value
change m k none value old = old
change m k (some key) value old =
    if (key.type_of == m.key_type) && is_value_of m value && same_value key k then value else old

abbrev pub change_op : Map → Value → Op → Option Value → Option Value
change_op m k (adds key value) old = change m k key value old
change_op m k (deletes key) old = change m k key none old

abbrev pub change_all : Map → Value → List Op → Option Value → Option Value
change_all m k [] old = old
change_all m k (o ∷ os) old = change_all m k os (change_op m k o old)

SameTypes : Map → Map → Type 0
SameTypes m n = (n.key_type ≡ m.key_type) × (n.value_type ≡ m.value_type)

get-set_map_index :
    (m : Map) (k key : Value) (value : Option Value)
    → k.type_of ≡ m.key_type
    → get (set_map_index m key value) (some k)
      ≡ (if same_value key k then value else get m (some k))
unfolding get find set_map_index
get-set_map_index m k key (some v) e =
    ground (arith, ==_iff k.type_of m.key_type, lookup-insert key k v m.elems)
get-set_map_index m k key none e =
    ground (arith, ==_iff k.type_of m.key_type, lookup-delete key k m.elems)

get_untyped : (m : Map) (k : Value) → (k.type_of == m.key_type) ≡ false → get m (some k) ≡ none
unfolding get find
get_untyped m k e = rw e refl

types-set_map_index :
    (m : Map) (key : Value) (value : Option Value) → SameTypes m (set_map_index m key value)
unfolding set_map_index SameTypes
types-set_map_index m key (some v) = (refl, refl)
types-set_map_index m key none = (refl, refl)

types-add : (m : Map) (key value : Option Value) → SameTypes m (add m key value).0
unfolding add SameTypes
types-add m none value = (refl, refl)
types-add m (some k) value = ground (arith, types-set_map_index m k value)

get-add_typed :
    (m : Map) (k key : Value) (value : Option Value)
    → k.type_of ≡ m.key_type
    → get (add m (some key) value).0 (some k) ≡ change m k (some key) value (get m (some k))
unfolding add
get-add_typed m k key value e =
    ground (arith, get-set_map_index m k key value e, same_value_iff key k)

get-add_untyped :
    (m : Map) (k key : Value) (value : Option Value)
    → (k.type_of == m.key_type) ≡ false
    → get (add m (some key) value).0 (some k) ≡ change m k (some key) value (get m (some k))
unfolding SameTypes
get-add_untyped m k key value e =
    let m' = (add m (some key) value).0 in
    let (same_type, _) = types-add m (some key) value in
    let before : get m (some k) ≡ none = get_untyped m k e in
    let after : get m' (some k) ≡ none = get_untyped m' k (rw same_type e) in
    rw (after, before) (ground (arith, same_value_iff key k))

get-add :
    (m : Map) (k : Value) (key value : Option Value)
    → get (add m key value).0 (some k) ≡ change m k key value (get m (some k))
unfolding add
get-add m k none value = refl
get-add m k (some key) value = elim (Bool-cases (k.type_of == m.key_type)) [
  | inl e ↦ get-add_typed m k key value ((==_iff k.type_of m.key_type).0 e)
  | inr e ↦ get-add_untyped m k key value e
]

get-apply :
    (m : Map) (k : Value) (o : Op) → get (apply m o) (some k) ≡ change_op m k o (get m (some k))
unfolding apply delete_key
get-apply m k (adds key value) = get-add m k key value
get-apply m k (deletes key) = get-add m k key none

types-apply : (m : Map) (o : Op) → SameTypes m (apply m o)
unfolding apply delete_key
types-apply m (adds key value) = types-add m key value
types-apply m (deletes key) = types-add m key none

change_op_same :
    (m n : Map) (k : Value) (o : Op) (old : Option Value)
    → SameTypes m n
    → change_op n k o old ≡ change_op m k o old
unfolding SameTypes is_value_of
change_op_same m n k (adds none value) old e = refl
change_op_same m n k (adds (some key) none) old e = rw e.0 refl
change_op_same m n k (adds (some key) (some v)) old e = rw (e.0, e.1) refl
change_op_same m n k (deletes none) old e = refl
change_op_same m n k (deletes (some key)) old e = rw e.0 refl

change_all_same :
    (m n : Map) (k : Value) (os : List Op) (old : Option Value)
    → SameTypes m n
    → change_all n k os old ≡ change_all m k os old
change_all_same m n k [] old e = refl
change_all_same m n k (o ∷ os) old e =
    change_all_same m n k os (change_op n k o old) e
    ∙ ap (change_all m k os) (change_op_same m n k o old e)

-- The map refines a function from keys to values: after any calls, Get of a key is what the calls
-- make of its value before, where a call changes the key it names, if key and value have the types
-- of the map, and no other.
pub get-apply_all :
    (m : Map) (k : Value) (os : List Op)
    → get (apply_all m os) (some k) ≡ change_all m k os (get m (some k))
unfolding apply_all
get-apply_all m k [] = refl
get-apply_all m k (o ∷ os) =
    get-apply_all (apply m o) k os
    ∙ change_all_same m (apply m o) k os (get (apply m o) (some k)) (types-apply m o)
    ∙ ap (change_all m k os) (get-apply m k o)

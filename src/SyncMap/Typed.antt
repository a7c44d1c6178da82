-- ===== src/SyncMap/Typed.antt =====
-- syncmap/syncmap.go: the keys and values of a map have its types, and Size counts the keys of which
-- Has holds.
use helper.Base.{
  ℕ, ◌+◌, ◌≡◌, Bool, true, false, Option, none, some, List, [], ◌∷◌, ==_iff, is_some, arith,
  Bool-cases, inl, inr, All,
}
use helper.Base.Dict.{
  Distinct, insert-Distinct, delete-Distinct, All-insert, All-delete, length-insert, length-delete,
}
use helper.SyncMap.{
  Value, value_test, Map, Op, adds, deletes, add, delete_key, set_map_index, is_value_of, find, has,
  size, apply, apply_all, new, made, GoType,
}

abbrev pub HasTypes : Map → Value × Value → Type 0
HasTypes m (k, v) = (k.type_of ≡ m.key_type) × (v.type_of ≡ m.value_type)

pub record IsValid (m : Map) : Type 0 where
  pub typed : All (HasTypes m) m.elems
  pub distinct : Distinct m.elems

set_map_index-IsValid :
    (m : Map) (k : Value) (value : Option Value)
    → k.type_of ≡ m.key_type
    → is_value_of m value ≡ true
    → IsValid m
    → IsValid (set_map_index m k value)
unfolding set_map_index is_value_of
set_map_index-IsValid m k none e w h = record {
  typed = All-delete (HasTypes m) k m.elems h.typed;
  distinct = delete-Distinct k m.elems h.distinct;
}
set_map_index-IsValid m k (some v) e w h = record {
  typed = All-insert (HasTypes m) k v m.elems h.typed (e, (==_iff v.type_of m.value_type).0 w);
  distinct = insert-Distinct k v m.elems h.distinct;
}

add-IsValid : (m : Map) (key value : Option Value) → IsValid m → IsValid (add m key value).0
unfolding add
add-IsValid m none value h = h
add-IsValid m (some k) value h =
    ground (arith, ==_iff k.type_of m.key_type, set_map_index-IsValid m k value)

apply-IsValid : (m : Map) (o : Op) → IsValid m → IsValid (apply m o)
unfolding apply delete_key
apply-IsValid m (adds key value) h = add-IsValid m key value h
apply-IsValid m (deletes key) h = add-IsValid m key none h

apply_all-IsValid : (m : Map) (os : List Op) → IsValid m → IsValid (apply_all m os)
unfolding apply_all
apply_all-IsValid m [] h = h
apply_all-IsValid m (o ∷ os) h = apply_all-IsValid (apply m o) os (apply-IsValid m o h)

new-IsValid : (k v : Option GoType) (m : Map) → new k v ≡ made m → IsValid m
unfolding new
new-IsValid none v m e = cc
new-IsValid (some k) none m e = cc
new-IsValid (some k) (some v) m e = elim (Bool-cases k.is_comparable) [
  | inl b ↦ ground arith
  | inr b ↦ ground arith
]

-- After any calls on a map that New made, every key and value in it has the type that the map was
-- made for, and no key is listed twice.
pub apply_all-new-IsValid :
    (k v : Option GoType) (m : Map) (os : List Op) → new k v ≡ made m → IsValid (apply_all m os)
apply_all-new-IsValid k v m os e = apply_all-IsValid m os (new-IsValid k v m e)

abbrev pub count : Bool → ℕ
count true = 1
count false = 0

-- In a valid map, with distinct keys, an accepted Add makes Size what it was, less one if the key was there, plus one if
-- the value is not nil; a refused one leaves the map as it was.
pub add-size :
    (m : Map) (key value : Option Value)
    → IsValid m
    → let (m', err) = add m key value in
      (err ≡ none → size m' + count (has m key) ≡ size m + count (is_some value))
      × (is_some err ≡ true → m' ≡ m)
unfolding add set_map_index size has find
add-size m none value h = ground arith
add-size m (some k) none h = ground (arith, length-delete k m.elems h.distinct)
add-size m (some k) (some v) h = ground (arith, length-insert k v m.elems)

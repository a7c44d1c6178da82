-- ===== src/SyncMap/Tests.antt =====
-- The theorems about syncmap at concrete inputs: a map from values of type 1 to values of type 2.
use helper.Base.{ℕ, ◌≡◌, some, List, [], ◌∷◌}
use helper.SyncMap.{Value, Map, Op, adds, deletes, get, apply_all}
use helper.SyncMap.Refines.{change_all, get-apply_all}

abbrev key : ℕ → Value
key n = record { type_of = 1; content = n }

abbrev val : ℕ → Value
val n = record { type_of = 2; content = n }

abbrev empty_map : Map
empty_map = record { elems = []; key_type = 1; value_type = 2 }

abbrev calls : List Op
calls =
    adds (some (key 5)) (some (val 6))
    ∷ adds (some (key 7)) (some (key 7))
    ∷ deletes (some (key 1))
    ∷ []

get-apply_all_example :
    get (apply_all empty_map calls) (some (key 5))
    ≡ change_all empty_map (key 5) calls (get empty_map (some (key 5)))
get-apply_all_example = get-apply_all empty_map (key 5) calls

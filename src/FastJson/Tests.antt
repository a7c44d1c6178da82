-- ===== src/FastJson/Tests.antt =====
-- The theorems about fastjson at concrete inputs.
use helper.Base.{◌≡◌, ◌↔◌, ◌≢◌, ◌&&◌, true, none, some, [], leb, if◌then◌else◌, bytes_eq}
use helper.Base.Int.{pos}
use helper.Base.Text.{codes}
use helper.FastJson.{
  Floats, natural, uint8, kind, bool, pointer, get_int_value, get_float_value, get_int_value-panics,
}
use helper.FastJson.Object.{JsonObject, object_from, put, get, deref, contains_key, get-put}

abbrev zeros : Floats
zeros = record { to_int = λ f. pos 0; of_int = λ n. 0; parse = λ s. 0 }

get_int_value-panics_example :
    ((get_int_value zeros (natural uint8 5) ≡ none)
      ↔ ((leb 7 (kind (natural uint8 5)) && leb (kind (natural uint8 5)) 12) ≡ true))
    × (get_float_value zeros (natural uint8 5) ≢ none)
get_int_value-panics_example = get_int_value-panics zeros (natural uint8 5)

get-put_example :
    (obj : JsonObject) × (put (object_from (some [])) (codes "on") (pointer (bool true)) ≡ some obj)
    × (get obj (codes "on") ≡ (
        if bytes_eq (codes "on") (codes "on")
        then deref (pointer (bool true))
        else get (object_from (some [])) (codes "on")))
    × (contains_key obj (codes "on") ≡ (
        if bytes_eq (codes "on") (codes "on")
        then true
        else contains_key (object_from (some [])) (codes "on")))
get-put_example = get-put [] (codes "on") (codes "on") (pointer (bool true))

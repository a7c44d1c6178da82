-- ===== src/Preferences/Tests.antt =====
-- The theorem about SharedPreference at a concrete input.
use helper.Base.{List, [], ◌∷◌}
use helper.Base.Int.{pos}
use helper.Preferences.{SharedPreference, get_string, get_int, get_bool}
use helper.Preferences.Latest.{
  Put, string, int, ReadsLatest, strings_of, ints_of, bools_of, apply_all, apply_all-ReadsLatest,
}

abbrev before : SharedPreference
before = record {
  s_elems =
      record { name = "host"; value = "old" } ∷ record { name = "host"; value = "hidden" } ∷ [];
  i_elems = [];
  b_elems = [];
}

abbrev puts : List Put
puts = string "host" "new" ∷ int "host" (pos 3) ∷ string "user" "me" ∷ []

apply_all-ReadsLatest_example :
    ReadsLatest "host"
      (strings_of puts)
      (get_string "host" before)
      before.s_elems
      (get_string "host" (apply_all puts before))
      (apply_all puts before).s_elems
    × ReadsLatest "host"
        (ints_of puts)
        (get_int "host" before)
        before.i_elems
        (get_int "host" (apply_all puts before))
        (apply_all puts before).i_elems
    × ReadsLatest "host"
        (bools_of puts)
        (get_bool "host" before)
        before.b_elems
        (get_bool "host" (apply_all puts before))
        (apply_all puts before).b_elems
apply_all-ReadsLatest_example = apply_all-ReadsLatest puts before "host"

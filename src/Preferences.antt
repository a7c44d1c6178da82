-- ===== src/Preferences.antt =====
-- iohelper/shared_preference.go: the typed elements of a SharedPreference and their Get and Put. An
-- element is its position, which stands for its pointer: none is moved or taken out.
pub mod Latest
pub mod Tests
use helper.Base.{
  ℕ, zero, suc, ◌≡◌, Bool, String, Option, none, some, List, [], ◌∷◌, if◌then◌else◌, ◌=?◌,
  string_eq, get_elem?,
}
use helper.Base.Int.{ℤ}

-- StrElem, IntElem and BoolElem.
pub record Elem (V : Type 0) : Type 0 where
  pub name : String
  pub value : V

pub record SharedPreference : Type 0 where
  pub s_elems : List (Elem String)
  pub i_elems : List (Elem ℤ)
  pub b_elems : List (Elem Bool)

abbrev pub next_elem : Option ℕ → Option ℕ
next_elem none = none
next_elem (some i) = some (suc i)

module _ {V : Type 0} where
  -- The pointer to the value of the first element with the name, or nil.
  unfoldable pub get : String → List (Elem V) → Option ℕ
  get name [] = none
  get name (e ∷ es) = if e.name =? name then some zero else next_elem (get name es)

  unfoldable pub put : String → V → List (Elem V) → List (Elem V)
  put name val [] = record { name = name; value = val } ∷ []
  put name val (e ∷ es) =
      if e.name =? name then (record e { value = val }) ∷ es else e ∷ put name val es

  abbrev pub value_of : Option (Elem V) → Option V
  value_of none = none
  value_of (some e) = some e.value

  -- What a pointer reads.
  unfoldable pub read_at : Option ℕ → List (Elem V) → Option V
  read_at none es = none
  read_at (some i) es = value_of (get_elem? es i)

unfoldable pub get_string : String → SharedPreference → Option ℕ
unfolding get
get_string name sp = get name sp.s_elems

unfoldable pub get_int : String → SharedPreference → Option ℕ
unfolding get
get_int name sp = get name sp.i_elems

unfoldable pub get_bool : String → SharedPreference → Option ℕ
unfolding get
get_bool name sp = get name sp.b_elems

unfoldable pub put_string : String → String → SharedPreference → SharedPreference
unfolding put
put_string name val sp = record sp { s_elems = put name val sp.s_elems }

unfoldable pub put_int : String → ℤ → SharedPreference → SharedPreference
unfolding put
put_int name val sp = record sp { i_elems = put name val sp.i_elems }

unfoldable pub put_bool : String → Bool → SharedPreference → SharedPreference
unfolding put
put_bool name val sp = record sp { b_elems = put name val sp.b_elems }

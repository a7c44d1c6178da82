-- ===== src/Preferences/Latest.antt =====
-- iohelper/shared_preference.go: what the pointers of Get read after any calls of Put.
use helper.Base.{
  ℕ, ◌≡◌, refl, sym, subst, ◌∙◌, ap, Bool, String, Option, none, some, List, [], ◌∷◌, if◌then◌else◌,
  ◌=?◌, string_eq, eq_iff, arith,
}
use helper.Base.Int.{ℤ}
use helper.Preferences.{
  Elem, SharedPreference, next_elem, get, put, read_at, get_string, get_int, get_bool, put_string,
  put_int, put_bool,
}

pub data Put : Type 0 where
  string : String → String → Put
  int : String → ℤ → Put
  boolean : String → Bool → Put

abbrev pub apply : Put → SharedPreference → SharedPreference
unfolding put_string put_int put_bool
apply (string name val) sp = put_string name val sp
apply (int name val) sp = put_int name val sp
apply (boolean name val) sp = put_bool name val sp

abbrev pub apply_all : List Put → SharedPreference → SharedPreference
unfolding put_string put_int put_bool
apply_all [] sp = sp
apply_all (p ∷ ps) sp = apply_all ps (apply p sp)

-- The calls of one type, as names and values.
abbrev pub strings_of : List Put → List (String × String)
strings_of [] = []
strings_of (string name val ∷ ps) = (name, val) ∷ strings_of ps
strings_of (p ∷ ps) = strings_of ps

abbrev pub ints_of : List Put → List (String × ℤ)
ints_of [] = []
ints_of (int name val ∷ ps) = (name, val) ∷ ints_of ps
ints_of (p ∷ ps) = ints_of ps

abbrev pub bools_of : List Put → List (String × Bool)
bools_of [] = []
bools_of (boolean name val ∷ ps) = (name, val) ∷ bools_of ps
bools_of (p ∷ ps) = bools_of ps

next_elem-keeps :
    (o o' : Option ℕ)
    → ((p : ℕ) → o ≡ some p → o' ≡ some p)
    → (p : ℕ) → next_elem o ≡ some p
    → next_elem o' ≡ some p
next_elem-keeps none o' h p e = cc
next_elem-keeps (some i) o' h p e = ap next_elem (h i refl) ∙ e

module _ {V : Type 0} where
  -- The value that the last call for the name wrote, or the one before the calls.
  abbrev pub latest : String → List (String × V) → Option V → Option V
  latest name [] v = v
  latest name ((k, val) ∷ calls) v = latest name calls (if k =? name then some val else v)

  abbrev pub put_all : List (String × V) → List (Elem V) → List (Elem V)
  unfolding put
  put_all [] es = es
  put_all ((k, val) ∷ calls) es = put_all calls (put k val es)

  -- The pointer after the calls reads the latest value, and one that was given before the calls is the
  -- one that is given after them.
  abbrev pub ReadsLatest :
      String → List (String × V) → Option ℕ → List (Elem V) → Option ℕ → List (Elem V) → Type 0
  unfolding read_at
  ReadsLatest name calls ptr es ptr' es' =
      (read_at ptr' es' ≡ latest name calls (read_at ptr es))
      × ((p : ℕ) → ptr ≡ some p → ptr' ≡ some p)

  abbrev GetsLatest : String → List (String × V) → List (Elem V) → List (Elem V) → Type 0
  unfolding get read_at
  GetsLatest name calls es es' = ReadsLatest name calls (get name es) es (get name es') es'

  read_at-next_elem :
      (o : Option ℕ) (e : Elem V) (es : List (Elem V))
      → read_at (next_elem o) (e ∷ es) ≡ read_at o es
  unfolding read_at
  read_at-next_elem none e es = refl
  read_at-next_elem (some i) e es = refl

  read_at-put :
      (name k : String) (val : V) (es : List (Elem V))
      → read_at (get name (put k val es)) (put k val es)
        ≡ (if k =? name then some val else read_at (get name es) es)
  unfolding read_at get put
  read_at-put name k val [] = ground arith
  read_at-put name k val (e ∷ es) = ground (
    arith,
    read_at-put name k val es,
    read_at-next_elem (get name es) e es,
    read_at-next_elem (get name (put k val es)) e (put k val es),
    eq_iff e.name name,
    eq_iff k name,
    eq_iff e.name k,
  )

  get-put :
      (name k : String) (val : V) (es : List (Elem V)) (p : ℕ)
      → get name es ≡ some p
      → get name (put k val es) ≡ some p
  unfolding get put
  get-put name k val [] p h = cc
  get-put name k val (e ∷ es) p h = ground (
    arith,
    next_elem-keeps (get name es) (get name (put k val es)) (get-put name k val es) p,
    eq_iff e.name name,
    eq_iff k name,
    eq_iff e.name k,
  )

  put_all-GetsLatest :
      (name : String) (calls : List (String × V)) (es : List (Elem V))
      → GetsLatest name calls es (put_all calls es)
  unfolding get read_at put
  put_all-GetsLatest name [] es = (refl, λ p h. h)
  put_all-GetsLatest name ((k, val) ∷ calls) es =
      let (reads, keeps) = put_all-GetsLatest name calls (put k val es) in
      (
        reads ∙ ap (latest name calls) (read_at-put name k val es),
        λ p h. keeps p (get-put name k val es p h),
      )

s_elems-apply_all :
    (ps : List Put) (sp : SharedPreference)
    → (apply_all ps sp).s_elems ≡ put_all (strings_of ps) sp.s_elems
unfolding put_string put_int put_bool
s_elems-apply_all [] sp = refl
s_elems-apply_all (string name val ∷ ps) sp = s_elems-apply_all ps (put_string name val sp)
s_elems-apply_all (int name val ∷ ps) sp = s_elems-apply_all ps (put_int name val sp)
s_elems-apply_all (boolean name val ∷ ps) sp = s_elems-apply_all ps (put_bool name val sp)

i_elems-apply_all :
    (ps : List Put) (sp : SharedPreference)
    → (apply_all ps sp).i_elems ≡ put_all (ints_of ps) sp.i_elems
unfolding put_string put_int put_bool
i_elems-apply_all [] sp = refl
i_elems-apply_all (string name val ∷ ps) sp = i_elems-apply_all ps (put_string name val sp)
i_elems-apply_all (int name val ∷ ps) sp = i_elems-apply_all ps (put_int name val sp)
i_elems-apply_all (boolean name val ∷ ps) sp = i_elems-apply_all ps (put_bool name val sp)

b_elems-apply_all :
    (ps : List Put) (sp : SharedPreference)
    → (apply_all ps sp).b_elems ≡ put_all (bools_of ps) sp.b_elems
unfolding put_string put_int put_bool
b_elems-apply_all [] sp = refl
b_elems-apply_all (string name val ∷ ps) sp = b_elems-apply_all ps (put_string name val sp)
b_elems-apply_all (int name val ∷ ps) sp = b_elems-apply_all ps (put_int name val sp)
b_elems-apply_all (boolean name val ∷ ps) sp = b_elems-apply_all ps (put_bool name val sp)

-- After any calls of PutString, PutInt and PutBool, the pointers of GetString, GetInt and GetBool for
-- a name read the value that the last Put of the same type for the name wrote, or what they read
-- before if there was none; a pointer that was not nil before the calls is the one that is given after
-- them.
pub apply_all-ReadsLatest :
    (ps : List Put) (sp : SharedPreference) (name : String)
    → (ReadsLatest name
          (strings_of ps)
          (get_string name sp)
          sp.s_elems
          (get_string name (apply_all ps sp))
          (apply_all ps sp).s_elems
        × ReadsLatest name
            (ints_of ps)
            (get_int name sp)
            sp.i_elems
            (get_int name (apply_all ps sp))
            (apply_all ps sp).i_elems
        × ReadsLatest name
            (bools_of ps)
            (get_bool name sp)
            sp.b_elems
            (get_bool name (apply_all ps sp))
            (apply_all ps sp).b_elems)
unfolding get_string get_int get_bool get read_at
apply_all-ReadsLatest ps sp name = (
  subst (GetsLatest name (strings_of ps) sp.s_elems) (sym (s_elems-apply_all ps sp))
      (put_all-GetsLatest name (strings_of ps) sp.s_elems),
  subst (GetsLatest name (ints_of ps) sp.i_elems) (sym (i_elems-apply_all ps sp))
      (put_all-GetsLatest name (ints_of ps) sp.i_elems),
  subst (GetsLatest name (bools_of ps) sp.b_elems) (sym (b_elems-apply_all ps sp))
      (put_all-GetsLatest name (bools_of ps) sp.b_elems),
)

-- ===== src/FastJson.antt =====
-- fastjson: values by their kinds, and their readings as numbers and Booleans.
pub mod Object
mod Tests
use helper.Base.{
  ℕ, ◌+◌, ◌≡◌, refl, ◌↔◌, ◌≢◌, Bool, true, false, not, ◌&&◌, ◌||◌, Option, none, some, List, [],
  ◌∷◌, if◌then◌else◌, leb, ◌==◌, arith,
}
use helper.Base.Int.{ℤ, pos}
use helper.Base.Int64.{wrap64}
use helper.Base.Text.{Bytes}

pub data IntKind : Type 0 where
  int int8 int16 int32 : IntKind
  int64 : IntKind

pub data UintKind : Type 0 where
  uint uint8 uint16 uint32 uint64 : UintKind
  uintptr : UintKind

pub data FloatKind : Type 0 where
  float32 : FloatKind
  float64 : FloatKind

-- `interface{}`. A float is its IEEE 754 bits as a float64; a pointer is one to a variable of a
-- concrete type; `other` is a value of a kind that the package treats as no other.
mutual
  pub data Value : Type 0 where
    null nil_pointer : Value
    bool : Bool → Value
    integer : IntKind → ℤ → Value
    natural : UintKind → ℕ → Value
    float : FloatKind → ℕ → Value
    text : Bytes → Value
    pointer : Value → Value
    array : Items → Value
    object : Fields → Value
    other : ℕ → Value

  -- A list of values.
  pub data Items : Type 0 where
    no_item : Items
    item : Value → Items → Items

  -- The entries of a map.
  pub data Fields : Type 0 where
    no_field : Fields
    field : Bytes → Value → Fields → Fields

abbrev pub int_kind : IntKind → ℕ
int_kind int = 2
int_kind int8 = 3
int_kind int16 = 4
int_kind int32 = 5
int_kind int64 = 6

abbrev pub uint_kind : UintKind → ℕ
uint_kind uint = 7
uint_kind uint8 = 8
uint_kind uint16 = 9
uint_kind uint32 = 10
uint_kind uint64 = 11
uint_kind uintptr = 12

abbrev pub float_kind : FloatKind → ℕ
float_kind float32 = 13
float_kind float64 = 14

-- The numbers of the constants of reflect.Kind.
abbrev pub kind : Value → ℕ
kind null = 0
kind (bool b) = 1
kind (integer k n) = int_kind k
kind (natural k n) = uint_kind k
kind (float k f) = float_kind k
kind (other n) = 25
kind (object fs) = 21
kind nil_pointer = 22
kind (pointer v) = 22
kind (array vs) = 23
kind (text s) = 24

-- Go's conversions of floats, and strconv.ParseFloat with what it returns beside an error.
pub record Floats : Type 0 where
  pub to_int : ℕ → ℤ
  pub of_int : ℤ → ℕ
  pub parse : Bytes → ℕ

-- `v.Int()`, `v.Uint()`, `v.Float()`; each panics, as `none`, on the kinds that are not its own.
abbrev pub value_int : Value → Option ℤ
value_int (integer k n) = some n
value_int v = none

abbrev pub value_uint : Value → Option ℕ
value_uint (natural k n) = some n
value_uint v = none

abbrev pub value_float : Value → Option ℕ
value_float (float k f) = some f
value_float v = none

-- `v.String()`, which is no panic but another text on other kinds.
abbrev pub value_string : Value → Bytes
value_string (text s) = s
value_string v = 60 ∷ []

abbrev pub is_float : ℕ → Bool
is_float k = (k == 13) || (k == 14)

abbrev map_some {ℓ κ} : {A : Type ℓ} {B : Type κ} → (A → B) → Option A → Option B
map_some f none = none
map_some f (some a) = some (f a)

-- Two conditions that both fail, or both hold.
fine {ℓ κ μ} :
    {A : Type ℓ} {B : Type κ} {C : Type μ} → (A → ⊥) → (B → ⊥) → (C → ⊥) → (A ↔ B) × (C → ⊥)
fine a b c = ((λ h. absurd (a h), λ h. absurd (b h)), c)

panics {ℓ κ μ} : {A : Type ℓ} {B : Type κ} {C : Type μ} → A → B → (C → ⊥) → (A ↔ B) × (C → ⊥)
panics a b c = ((λ h. b, λ h. a), c)

module _ (fl : Floats) where
  abbrev pub float_by_kind : ℕ → Value → Option ℕ
  float_by_kind k v =
      if k == 24
      then some (fl.parse (value_string v))
      else if leb 2 k && leb k 6
      then map_some fl.of_int (value_int v)
      else if leb 7 k && leb k 11
      then map_some (λ n. fl.of_int (pos n)) (value_uint v)
      else if is_float k
      then value_float v
      else some 0

  unfoldable pub get_float_value : Value → Option ℕ
  get_float_value null = some 0
  get_float_value v = float_by_kind (kind v) v

  abbrev pub int_by_kind : ℕ → Value → Option ℤ
  int_by_kind k v =
      if is_float k
      then map_some fl.to_int (value_float v)
      else if k == 24
      then some (fl.to_int (fl.parse (value_string v)))
      else if leb 2 k && leb k 14
      then value_int v
      else if leb 7 k && leb k 11
      then map_some (λ n. wrap64 (pos n)) (value_uint v)
      else some (pos 0)

  unfoldable pub get_int_value : Value → Option ℤ
  get_int_value null = some (pos 0)
  get_int_value v = int_by_kind (kind v) v

  -- GetIntValue panics on exactly the values of an unsigned integer kind; GetFloatValue on none.
  pub get_int_value-panics :
      (v : Value)
      → ((get_int_value v ≡ none) ↔ ((leb 7 (kind v) && leb (kind v) 12) ≡ true))
        × (get_float_value v ≢ none)
  unfolding get_int_value get_float_value
  get_int_value-panics null = fine (λ h. cc) (λ h. cc) (λ h. cc)
  get_int_value-panics nil_pointer = fine (λ h. cc) (λ h. cc) (λ h. cc)
  get_int_value-panics (bool b) = fine (λ h. cc) (λ h. cc) (λ h. cc)
  get_int_value-panics (integer int n) = fine (λ h. cc) (λ h. cc) (λ h. cc)
  get_int_value-panics (integer int8 n) = fine (λ h. cc) (λ h. cc) (λ h. cc)
  get_int_value-panics (integer int16 n) = fine (λ h. cc) (λ h. cc) (λ h. cc)
  get_int_value-panics (integer int32 n) = fine (λ h. cc) (λ h. cc) (λ h. cc)
  get_int_value-panics (integer int64 n) = fine (λ h. cc) (λ h. cc) (λ h. cc)
  get_int_value-panics (float float32 f) = fine (λ h. cc) (λ h. cc) (λ h. cc)
  get_int_value-panics (float float64 f) = fine (λ h. cc) (λ h. cc) (λ h. cc)
  get_int_value-panics (text s) = fine (λ h. cc) (λ h. cc) (λ h. cc)
  get_int_value-panics (pointer v) = fine (λ h. cc) (λ h. cc) (λ h. cc)
  get_int_value-panics (array vs) = fine (λ h. cc) (λ h. cc) (λ h. cc)
  get_int_value-panics (object fs) = fine (λ h. cc) (λ h. cc) (λ h. cc)
  get_int_value-panics (other n) = fine (λ h. cc) (λ h. cc) (λ h. cc)
  get_int_value-panics (natural uint n) = panics refl refl (λ h. cc)
  get_int_value-panics (natural uint8 n) = panics refl refl (λ h. cc)
  get_int_value-panics (natural uint16 n) = panics refl refl (λ h. cc)
  get_int_value-panics (natural uint32 n) = panics refl refl (λ h. cc)
  get_int_value-panics (natural uint64 n) = panics refl refl (λ h. cc)
  get_int_value-panics (natural uintptr n) = panics refl refl (λ h. cc)

unfoldable pub get_bool_value : Value → Bool
get_bool_value (bool b) = b
get_bool_value v = false

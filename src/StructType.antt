-- ===== src/StructType.antt =====
-- helper.go, ValidStructType: whether the type of a value, behind a number of pointers, is a struct.
pub mod Depth
mod Tests
use helper.Base.{ℕ, suc, ◌≡◌, Bool, true, false, Option, none, some, if◌then◌else◌, ◌==◌, is_some}
use helper.Base.Int.{ℤ, pos, negsuc, ltz, eqz, ◌-ℤ◌}

-- A `reflect.Type`: a struct, a pointer, or a type of another kind, by name. No pointer type is its
-- own element, as in `type T *T`.
pub data Ty : Type 0 where
  struct_type : ℕ → Ty
  ptr : Ty → Ty
  other_type : ℕ → Ty

pub data StructError : Type 0 where
  nil_object bad_expected too_few_dereferences not_expected not_struct : StructError

abbrev pub same_struct : Ty → ℕ → Bool
same_struct (struct_type m) n = m == n
same_struct (ptr t) n = false
same_struct (other_type m) n = false

-- `case reflect.Struct`.
unfoldable pub check_struct : Option Ty → ℕ → Option StructError
check_struct none n = none
check_struct (some t) n = if same_struct t n then none else some not_expected

-- The loop over the pointers.
unfoldable pub walk : Option Ty → Ty → ℤ → Option StructError
unfolding check_struct
walk expected (ptr t) count =
    let rest = walk expected t (if ltz (pos 0) count then count -ℤ pos 1 else count) in
    if eqz count (pos 0) then some too_few_dereferences else rest
walk expected (struct_type n) count = check_struct expected n
walk expected (other_type n) count = some not_struct

abbrev pub is_struct : Ty → Bool
is_struct (struct_type n) = true
is_struct (ptr t) = false
is_struct (other_type n) = false

-- `expected != nil && expected.Kind() != reflect.Struct`.
abbrev pub is_bad : Option Ty → Bool
is_bad none = false
is_bad (some t) = if is_struct t then false else true

-- The arguments are the dynamic type of `obj`, nil for nil, `expected` and `dereference`.
unfoldable pub valid_struct_type : Option Ty → Option Ty → ℤ → Option StructError
unfolding walk
valid_struct_type none expected dereference = some nil_object
valid_struct_type (some t) expected dereference =
    if is_bad expected then some bad_expected else walk expected t dereference

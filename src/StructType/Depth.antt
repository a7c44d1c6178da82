-- ===== src/StructType/Depth.antt =====
-- helper.go, ValidStructType against the number of pointers in front of the struct.
use helper.Base.{ℕ, zero, suc, ap, ◌≤◌, ◌≡◌, ◌↔◌, true, Option, none, some, arith}
use helper.Base.Int.{ℤ, pos, negsuc, ◌-ℤ◌}
use helper.StructType.{
  Ty, struct_type, ptr, other_type, same_struct, check_struct, walk, is_struct, valid_struct_type,
}

-- The pointers in front, and what is behind them.
abbrev pub depth : Ty → ℕ
depth (ptr t) = suc (depth t)
depth (struct_type n) = 0
depth (other_type n) = 0

abbrev pub pointee : Ty → Ty
pointee (ptr t) = pointee t
pointee (struct_type n) = struct_type n
pointee (other_type n) = other_type n

-- `dereference` allows this many pointers: any number if it is below 0.
abbrev pub Reaches : ℤ → ℕ → Type 0
Reaches (pos d) n = n ≤ d
Reaches (negsuc d) n = Unit

-- Behind the pointers is a struct, and it is the expected type, if there is one.
abbrev pub IsExpected : Option Ty → Ty → Type 0
IsExpected none t = is_struct t ≡ true
IsExpected (some e) t = (is_struct t ≡ true) × (t ≡ e)

same_struct_iff : (t : Ty) (n : ℕ) → (same_struct t n ≡ true) ↔ (struct_type n ≡ t)
same_struct_iff (struct_type m) n = ground arith
same_struct_iff (ptr t) n = ground arith
same_struct_iff (other_type m) n = ground arith

walk_iff :
    (expected : Option Ty) (t : Ty) (count : ℤ)
    → (walk expected t count ≡ none) ↔ (Reaches count (depth t) × IsExpected expected (pointee t))
unfolding walk check_struct ◌-ℤ◌
walk_iff none (struct_type n) (pos c) = ground arith
walk_iff none (struct_type n) (negsuc c) = ground arith
walk_iff (some e) (struct_type n) (pos c) = ground (arith, same_struct_iff e n)
walk_iff (some e) (struct_type n) (negsuc c) = ground (arith, same_struct_iff e n)
walk_iff none (other_type n) count = ground arith
walk_iff (some e) (other_type n) count = ground arith
walk_iff expected (ptr t) (pos zero) = ground arith
walk_iff expected (ptr t) (pos (suc c)) = ground (arith, walk_iff expected t (pos c))
walk_iff expected (ptr t) (negsuc c) = ground (arith, walk_iff expected t (negsuc c))

-- ValidStructType accepts exactly the values whose type is a struct behind pointers, no more of them
-- than `dereference` unless that is below zero, where an expected type, which must be a struct
-- itself, is the very struct that was found.
pub valid_struct_type_iff :
    (t : Ty) (expected : Option Ty) (dereference : ℤ)
    → (valid_struct_type (some t) expected dereference ≡ none)
      ↔ (Reaches dereference (depth t) × IsExpected expected (pointee t))
unfolding valid_struct_type
valid_struct_type_iff t none d = walk_iff none t d
valid_struct_type_iff t (some (struct_type n)) d = walk_iff (some (struct_type n)) t d
valid_struct_type_iff t (some (ptr e)) d = (λ h. cc, λ h. cc (ap is_struct h.1.1))
valid_struct_type_iff t (some (other_type n)) d = (λ h. cc, λ h. cc (ap is_struct h.1.1))

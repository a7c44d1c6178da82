-- ===== src/StructType/Tests.antt =====
-- The theorem about ValidStructType at a concrete type: a pointer to a pointer to a struct.
use helper.Base.{◌≡◌, ◌↔◌, none, some}
use helper.Base.Int.{pos}
use helper.StructType.{Ty, struct_type, ptr, valid_struct_type}
use helper.StructType.Depth.{Reaches, depth, IsExpected, pointee, valid_struct_type_iff}

abbrev two_pointers : Ty
two_pointers = ptr (ptr (struct_type 4))

valid_struct_type_iff_example :
    (valid_struct_type (some two_pointers) (some (struct_type 4)) (pos 1) ≡ none) ↔ (
      Reaches (pos 1) (depth two_pointers)
      × IsExpected (some (struct_type 4)) (pointee two_pointers))
valid_struct_type_iff_example = valid_struct_type_iff two_pointers (some (struct_type 4)) (pos 1)

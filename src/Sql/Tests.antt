-- ===== src/Sql/Tests.antt =====
-- The theorems about sqlimpl at concrete inputs.
use helper.Base.{
  ◌≡◌, refl, true, false, none, some, List, [], ◌∷◌, ◌++◌, length, inl, if◌then◌else◌, ltb,
}
use helper.Base.Text.{Bytes, codes}
use helper.FastJson.{null, text}
use helper.FastJson.Object.{Entries, object_from, keys, values}
use helper.Sql.{Database, begin, DataTable, insert_object, prepare_exec, act_of}
use helper.Sql.Bindings.{BindsInsert, insert_object-BindsInsert}
use helper.Sql.Tables.{init_tables, init_tables-Transaction, Transaction}
use helper.Sql.Scan.{Field, columns_of, struct_scan_one, struct_scan_one-last, one, scanned, Source}

abbrev accepting : Database
accepting = record { error = λ h c. none; result = λ h. length h }

-- A database that refuses the second call.
abbrev refusing : Database
refusing = record { error = λ h c. if ltb 1 (length h) then some 7 else none; result = λ h. 0 }

abbrev user : Entries
user = (codes "age", null) ∷ []

insert_object-BindsInsert_example :
    (q : Bytes) × (insert_object accepting
        (codes "users")
        false
        (some (object_from (some ((codes "name", text (codes "ann")) ∷ user))))
        []
      ≡ prepare_exec accepting q
          (values (object_from (some ((codes "name", text (codes "ann")) ∷ user))))
          [])
    × BindsInsert
        (act_of false)
        (codes "users")
        (keys (object_from (some ((codes "name", text (codes "ann")) ∷ user))))
        (values (object_from (some ((codes "name", text (codes "ann")) ∷ user))))
        q
unfolding keys
insert_object-BindsInsert_example =
    insert_object-BindsInsert accepting (codes "users") false (codes "name", text (codes "ann"))
      user [] refl ((refl, refl), ((refl, refl), tt))

abbrev table : Bytes → DataTable
table n = record { name = n; create_statement = codes "create " ++ n; connected = false }

abbrev two_tables : List DataTable
two_tables = table (codes "a") ∷ table (codes "b") ∷ []

init_tables-Transaction_example :
    Transaction refusing
      (codes "mysql")
      two_tables
      (begin ∷ [])
      (init_tables refusing (codes "mysql") two_tables [])
init_tables-Transaction_example =
    init_tables-Transaction refusing (codes "mysql") two_tables [] refl

abbrev name_field : Field
name_field = record { name = codes "Name"; has_tag = true; column = codes "name"; option = none }

abbrev ann_and_bob : Source
ann_and_bob q = inl (record {
  rows = scanned ((some (codes "ann") ∷ []) ∷ (some (codes "bob") ∷ []) ∷ []);
  cancelled = λ n. none;
})

struct_scan_one-last_example :
    struct_scan_one ann_and_bob
      (codes "users")
      (codes "order by name")
      true
      (name_field ∷ [])
      (none ∷ [])
    ≡ one (some (codes "bob") ∷ [])
unfolding columns_of
struct_scan_one-last_example =
    struct_scan_one-last ann_and_bob (codes "users") (codes "order by name") [] name_field
      (codes "name" ∷ []) (λ n. none) (some (codes "ann") ∷ []) ((some (codes "bob") ∷ []) ∷ [])
      (none ∷ []) refl refl (λ i. refl)

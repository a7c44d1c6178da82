-- ===== src/Sql/Bindings.antt =====
-- sqlimpl/sqlimpl.go: every statement of Insert and Update has a placeholder for each value.
use helper.Base.{
  ℕ, suc, ◌+◌, ◌-◌, ◌≡◌, refl, sym, ap, ◌∙◌, Bool, true, false, some, List, [], ◌∷◌, ◌++◌, map,
  length, length-append, All, All-map, arith,
}
use helper.Base.Text.{
  Bytes, codes, join, join_more, repeat, count_byte, Lacks, count_byte-append, count_byte-repeat,
  split, split-join,
}
use helper.FastJson.{Value}
use helper.FastJson.Object.{Entries, keys, values, entries_of, object_from, first_of, second_of}
use helper.Sql.{
  Database, History, place_holders, insert_string, set_of, update_string, update_where_string,
  prepare_exec, insert_object, update_object, act_of,
}

-- A text without a question mark, and a column without one and without a comma.
abbrev pub Plain : Bytes → Type 0
Plain s = Lacks 63 s

abbrev pub Column : Bytes → Type 0
Column s = Lacks 63 s × Lacks 44 s

count_holders : (n : ℕ) → count_byte 63 (place_holders (suc n)) ≡ suc n
count_holders n = omega (
  arith,
  count_byte-append 63 (repeat (codes "?,") (suc n - 1)) (codes "?"),
  count_byte-repeat 63 (codes "?,") (suc n - 1) refl,
)

join_more-Plain : (cs : List Bytes) → All Plain cs → Plain (join_more cs (codes ","))
join_more-Plain [] h = refl
join_more-Plain (c ∷ cs) h =
    omega (arith, h.0, count_byte-append 63 c (join_more cs (codes ",")), join_more-Plain cs h.1)

join-Plain : (cs : List Bytes) → All Plain cs → Plain (join cs (codes ","))
join-Plain [] h = refl
join-Plain (c ∷ cs) h =
    omega (arith, h.0, count_byte-append 63 c (join_more cs (codes ",")), join_more-Plain cs h.1)

insert_string-count :
    (act table cols holders : Bytes)
    → Plain act
    → Plain table
    → Plain cols
    → count_byte 63 (insert_string act table cols holders) ≡ count_byte 63 holders
insert_string-count act table cols holders a t c = simp count_byte-append (omega (arith, a, t, c))

length-map {ℓ κ} :
    {A : Type ℓ} {B : Type κ} (f : A → B) (xs : List A) → length (map f xs) ≡ length xs
length-map f [] = refl
length-map f (x ∷ xs) = ap suc (length-map f xs)

sets_more-count :
    (cs : List Bytes)
    → All Plain cs
    → count_byte 63 (join_more (map set_of cs) (codes ",")) ≡ length cs
sets_more-count [] h = refl
sets_more-count (c ∷ cs) h = simp count_byte-append (omega (arith, h.0, sets_more-count cs h.1))

sets-count :
    (cs : List Bytes) → All Plain cs → count_byte 63 (join (map set_of cs) (codes ",")) ≡ length cs
sets-count [] h = refl
sets-count (c ∷ cs) h = simp count_byte-append (omega (arith, h.0, sets_more-count cs h.1))

Column-Plain : (cs : List Bytes) → All Column cs → All Plain cs
Column-Plain cs h = All-map (λ c p. p.0) cs h

Column-Lacks : (cs : List Bytes) → All Column cs → All (Lacks 44) cs
Column-Lacks cs h = All-map (λ c p. p.1) cs h

-- A statement that inserts into the columns one value each.
abbrev pub BindsInsert : Bytes → Bytes → List Bytes → List Value → Bytes → Type 0
BindsInsert act table columns args q =
    (cols : Bytes) × (holders : Bytes) × (q ≡ insert_string act table cols holders)
    × (split 44 cols ≡ columns)
    × (count_byte 63 q ≡ length args)

insert_string-BindsInsert :
    (act table : Bytes) (c : Bytes) (cs : List Bytes) (args : List Value)
    → Plain act
    → Plain table
    → All Column (c ∷ cs)
    → length (c ∷ cs) ≡ length args
    → BindsInsert act table
        (c ∷ cs)
        args
        (insert_string act table (join (c ∷ cs) (codes ",")) (place_holders (length (c ∷ cs))))
insert_string-BindsInsert act table c cs args a t h l =
    let cols = join (c ∷ cs) (codes ",") in
    let holders = place_holders (length (c ∷ cs)) in
    (
      cols,
      holders,
      refl,
      split-join 44 c cs (Column-Lacks (c ∷ cs) h),
      insert_string-count act table cols holders a t (join-Plain (c ∷ cs) (Column-Plain (c ∷ cs) h))
          ∙ count_holders (length cs)
          ∙ l,
    )

update_where_string-count :
    (table sets condition : Bytes)
    → Plain table
    → count_byte 63 (update_where_string table sets condition)
      ≡ count_byte 63 sets + count_byte 63 condition
update_where_string-count table sets condition t = simp count_byte-append (omega (arith, t))

update_string-count :
    (table sets condition : Bytes)
    → Plain table
    → count_byte 63 (update_string table sets condition)
      ≡ count_byte 63 sets + count_byte 63 condition
update_string-count table sets condition t = simp count_byte-append (omega (arith, t))

keys-values : (m : Entries) → length (map first_of m) ≡ length (map second_of m)
keys-values m = length-map first_of m ∙ sym (length-map second_of m)

act-Plain : (replace : Bool) → Plain (act_of replace)
act-Plain true = refl
act-Plain false = refl

module _ (db : Database) where
  -- Insert of an object with at least one entry prepares one statement and executes it with the values
  -- of the entries: it names the keys as its columns, in the order of the values, and has one
  -- placeholder for each value, if no key has a question mark or a comma and the table no question
  -- mark.
  pub insert_object-BindsInsert :
      (table : Bytes) (replace : Bool) (e : Bytes × Value) (m : Entries) (h : History)
      → Plain table
      → All Column (keys (object_from (some (e ∷ m))))
      → (q : Bytes) × (insert_object db table replace (some (object_from (some (e ∷ m)))) h
          ≡ prepare_exec db q (values (object_from (some (e ∷ m)))) h)
        × BindsInsert
            (act_of replace)
            table
            (keys (object_from (some (e ∷ m))))
            (values (object_from (some (e ∷ m))))
            q
  unfolding insert_object keys values entries_of
  insert_object-BindsInsert table replace e m h t c =
      let obj = object_from (some (e ∷ m)) in
      (
        insert_string (act_of replace) table (join (keys obj) (codes ","))
            (place_holders (length (keys obj))),
        refl,
        insert_string-BindsInsert (act_of replace) table e.0 (map first_of m) (values obj)
            (act-Plain replace) t c (keys-values (e ∷ m)),
      )

  -- Update of an object with at least one entry, whose keys have no question mark, prepares one
  -- statement and executes it with the values of the entries and then those of the condition, and the
  -- statement has one placeholder for each of them if the condition has one for each of its own.
  pub update_object-count :
      (table condition : Bytes) (e : Bytes × Value) (m : Entries) (where_args : List Value)
      (h : History)
      → Plain table
      → All Plain (keys (object_from (some (e ∷ m))))
      → count_byte 63 condition ≡ length where_args
      → (q : Bytes) × (update_object db table
            (some (object_from (some (e ∷ m))))
            condition
            where_args
            h
          ≡ prepare_exec db q (values (object_from (some (e ∷ m))) ++ where_args) h)
        × (count_byte 63 q ≡ length (values (object_from (some (e ∷ m))) ++ where_args))
  unfolding update_object keys values entries_of
  update_object-count table condition e m where_args h t c w =
      let obj = object_from (some (e ∷ m)) in
      (
        update_where_string table (join (map set_of (keys obj)) (codes ",")) condition,
        refl,
        update_where_string-count table (join (map set_of (keys obj)) (codes ",")) condition t
            ∙ omega (
              arith,
              w,
              sets-count (keys obj) c,
              keys-values (e ∷ m),
              length-append (values obj) where_args,
            ),
      )

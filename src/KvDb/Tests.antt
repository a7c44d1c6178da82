-- ===== src/KvDb/Tests.antt =====
-- The theorems about the stores at concrete inputs: bolt is a database in memory.
use helper.Base.Dict.{lookup, insert}
use helper.Base.{◌≡◌, refl, none, some, List, [], ◌∷◌, false, inl, arith, ◌++◌}
use helper.Base.Int.{negsuc}
use helper.KvDb.{Bytes, default_set, ok, get_existing, put_int64, get_int64}
use helper.KvDb.Bolt.{BoltDb, Caller, range, bolt_impl, put}
use helper.KvDb.Order.{between}
use helper.KvDb.Ranges.{visit, contents, range-visit}
use helper.KvDb.Refines.{
  Op, puts, deletes, apply_all, replay, values, found, get_existing-apply_all,
}
use helper.KvDb.Numbers.{get_int64-put_int64}
use helper.KvDb.Memory.{memory, memory_reads, memory_writes, four_keys}

-- The keys that Range calls back on.
abbrev gather : Caller (List Bytes)
gather = record { cancelled = λ n s. false; f = λ s it. s ++ (it.key ∷ []) }

abbrev db : BoltDb memory
db = record { h = four_keys; path = [] }

-- From 2 to 7: the keys 3 and 5.
range-visit_example : range memory gather 5 db none (2 ∷ []) (7 ∷ []) [] ≡ (
  some (
      visit gather 0
        (between
          (2 ∷ [])
          (7 ∷ [])
          (contents memory memory_reads gather (7 ∷ []) (inl four_keys) default_set))
        []),
  none,
)
unfolding lookup
range-visit_example =
    range-visit memory memory_reads gather (7 ∷ []) db none (2 ∷ []) [] 5 (omega arith)

visited :
    visit gather 0
      (between
        (2 ∷ [])
        (7 ∷ [])
        (contents memory memory_reads gather (7 ∷ []) (inl four_keys) default_set))
      []
    ≡ (3 ∷ []) ∷ (5 ∷ []) ∷ []
unfolding lookup
visited = refl

abbrev calls : List Op
calls = puts none (4 ∷ []) (8 ∷ []) ∷ deletes (some (1 ∷ [])) (4 ∷ []) ∷ deletes none (1 ∷ []) ∷ []

get_existing-apply_all_example :
    get_existing (bolt_impl memory) (apply_all memory db calls).0 none (4 ∷ [])
    ≡ found memory
        (replay calls (apply_all memory db calls).1 (values memory db) default_set (4 ∷ []))
get_existing-apply_all_example = get_existing-apply_all memory memory_writes db calls none (4 ∷ [])

get_int64-put_int64_example :
    get_int64
      (bolt_impl memory)
      (put_int64 (bolt_impl memory) db none (7 ∷ []) (negsuc 41)).0
      none
      (7 ∷ [])
    ≡ ok (negsuc 41)
unfolding put_int64 put lookup insert
get_int64-put_int64_example =
    get_int64-put_int64 memory memory_writes db none (7 ∷ []) (negsuc 41) (omega arith)
      (omega arith) refl

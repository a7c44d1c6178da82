-- ===== src/Rocks/Tests.antt =====
-- The theorems about rocksdb at concrete inputs: column families in memory.
use helper.Base.{
  if◌then◌else◌, ◌&&◌, ℕ, false, Option, ◌≡◌, refl, none, some, List, [], ◌∷◌, ◌++◌, arith,
  bytes_test,
}
use helper.Base.Int.{negsuc, pos}
use helper.Base.Dict.{lookup}
use helper.KvDb.{Bytes, Iterator, default_set}
use helper.KvDb.Order.{bytes_le, until, Entry, between, find_key}
use helper.KvDb.Bolt
use helper.KvDb.Bolt.{BoltDb}
use helper.KvDb.Memory.{Database, Bucket, memory, memory_reads, four_keys, entry}
use helper.Rocks.{returned, RangeOption, Ranger, range_foreach, range}
use helper.Base.Text.{codes}
use helper.KvDb.Decimal.{format_int}
use helper.Rocks.ByTime.{TimeOption, range_foreach_by_ts, range_foreach_by_ts-Ends}
use helper.Rocks.Get
use helper.Rocks.Get.{Encoder, Pair, kv_raw, GetOption, output, get_range, get_range-writes}
use helper.Rocks.Memory.{store, store_reads, store_deletes, entries}
use helper.Rocks.Delete.{DeleteOption, delete_range, delete_range-removes, outcome}
use helper.Rocks.Limits.{limited_calls, range_foreach-limited_calls}
use helper.Rocks.Ranges.{range-agrees, forever, uncancelled}

abbrev gather : Ranger (List Bytes)
gather = record { ctx_err = λ n s. none; oper = λ s e. s ++ (e.0 ∷ []) }

abbrev two_of_them : RangeOption
two_of_them = record { start_key = 2 ∷ []; end_key = []; cf = default_set; limit = pos 2 }

abbrev bucket : Bucket
bucket = record {
  entries = entry 1 ∷ entry 3 ∷ entry 5 ∷ entry 9 ∷ [];
  ascend = ((refl, (refl, (refl, tt))), ((refl, (refl, tt)), ((refl, tt), (tt, tt))));
}

range_foreach-limited_calls_example :
    range_foreach store gather 5 four_keys two_of_them []
    ≡ returned (limited_calls gather (pos 2) (between (2 ∷ []) [] bucket.entries) [])
unfolding lookup
range_foreach-limited_calls_example =
    range_foreach-limited_calls store store_reads gather four_keys two_of_them default_set [] 5 refl
      (omega arith)

visited :
    limited_calls gather (pos 2) (between (2 ∷ []) [] bucket.entries) []
    ≡ (some ((3 ∷ []) ∷ (5 ∷ []) ∷ []), none)
visited = refl

abbrev keys_seen : List Bytes → Iterator → List Bytes
keys_seen s it = s ++ (it.key ∷ [])

abbrev db : BoltDb memory
db = record { h = four_keys; path = [] }

range-agrees_example :
    (range store (forever keys_seen) 5 four_keys (some default_set) [] (6 ∷ []) []
      ≡ returned (
        (Bolt.range memory (uncancelled keys_seen) 5 db (some default_set) [] (6 ∷ []) []).0,
        none,
      ))
    × ((Bolt.range memory (uncancelled keys_seen) 5 db (some default_set) [] (6 ∷ []) []).1 ≡ none)
unfolding lookup
range-agrees_example =
    range-agrees store store_reads memory memory_reads keys_seen four_keys db default_set []
      (6 ∷ []) default_set four_keys bucket [] 5 refl refl refl refl (omega arith)

-- Keys of a name, a comma and a time.
abbrev stamped : Bytes → Entry
stamped k = (k, [])

abbrev times : Bucket
times = record {
  entries = stamped (codes "a,1") ∷ stamped (codes "a,7") ∷ stamped (codes "b,3") ∷ [];
  ascend = ((refl, (refl, tt)), ((refl, tt), (tt, tt)));
}

abbrev from_two : TimeOption
from_two = record {
  start_ts = pos 2;
  end_ts = pos 8;
  ts_field_index = 1;
  key_separator = codes ",";
  cf = default_set;
  limit = negsuc 0;
}

range_foreach_by_ts-Ends_example :
    (r : List Bytes × Option ℕ) × (range_foreach_by_ts store gather 4
        ((default_set, times) ∷ [])
        from_two
        []
      ≡ returned (some r))
unfolding lookup
range_foreach_by_ts-Ends_example =
    range_foreach_by_ts-Ends store store_reads gather ((default_set, times) ∷ []) from_two
      default_set [] 4 refl (λ e. cc) (refl, (refl, (refl, tt))) (omega arith)

timed :
    range_foreach_by_ts store gather 4 ((default_set, times) ∷ []) from_two []
    ≡ returned (some ((codes "a,7" ∷ codes "b,3" ∷ []), none))
unfolding lookup range_foreach_by_ts format_int
timed = refl

-- A name of 0xff bytes alone has no next key: the enumeration finds it again and again.
again_and_again :
    range_foreach_by_ts store gather 4
      ((default_set, record { entries = stamped (255 ∷ codes ",1") ∷ []; ascend = (tt, tt) }) ∷ [])
      from_two
      []
    ≡ returned none
unfolding lookup range_foreach_by_ts format_int
again_and_again = refl

abbrev up_to_five : DeleteOption
up_to_five = record {
  key = [];
  range = record { start_key = 2 ∷ []; end_key = 5 ∷ []; cf = default_set; limit = negsuc 0 };
  times = record from_two { start_ts = pos 0; end_ts = pos 0 };
  ctx_err = λ n. none;
}

delete_range-removes_example :
    (db' : Database) × (delete_range store 5 (pos 100) four_keys up_to_five
      ≡ outcome (returned (some db')))
    × ((j : Bytes)
        → find_key j (entries db' default_set) ≡ (
            if bytes_le (2 ∷ []) j && until (5 ∷ []) j
            then none
            else find_key j (entries four_keys default_set)))
unfolding lookup
delete_range-removes_example =
    delete_range-removes store store_reads store_deletes four_keys up_to_five default_set (pos 100)
      5 refl refl refl (λ db k. refl) (λ i. refl) refl (omega arith)

-- A writer that keeps what it was given: lists of pairs.
abbrev notes : Encoder
notes = record {
  W = List (List Pair);
  encode = λ w p. (w ++ ((p ∷ []) ∷ []), none);
  encode_all = λ w ps. (w ++ (ps ∷ []), none);
  write = λ w p. w ++ ((p ∷ []) ∷ []);
}

abbrev to_five : GetOption
to_five = record {
  key = [];
  range = record { start_key = 2 ∷ []; end_key = 5 ∷ []; cf = default_set; limit = negsuc 0 };
  times = record from_two { start_ts = pos 0; end_ts = pos 0 };
  is_json_value = false;
  stream_output = false;
  ctx_err = λ n. none;
}

get_range-writes_example :
    get_range notes store 5 (pos 100) four_keys to_five []
    ≡ Get.outcome (
        returned (
          some (
            output notes false false []
              (between (2 ∷ []) (5 ∷ []) (entries four_keys default_set)))))
unfolding lookup
get_range-writes_example =
    get_range-writes notes store store_reads four_keys to_five default_set (pos 100) 5 [] refl refl
      refl (λ i. refl) refl refl (omega arith)

two_written :
    output notes false false [] (between (2 ∷ []) (5 ∷ []) (entries four_keys default_set))
    ≡ ((kv_raw (3 ∷ []) (3 ∷ 3 ∷ []) ∷ kv_raw (5 ∷ []) (5 ∷ 5 ∷ []) ∷ []) ∷ [], none)
unfolding lookup
two_written = refl

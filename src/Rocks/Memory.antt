-- ===== src/Rocks/Memory.antt =====
-- A RocksDB in memory: column families by name. Put is refused.
use helper.Base.{
  ◌≡◌, refl, ap, ◌∙◌, Option, none, some, List, [], inl, if◌then◌else◌, bytes_eq, bytes_eq_refl,
  bytes_test, arith,
}
use helper.Base.Dict.{lookup, insert, lookup-insert}
use helper.KvDb.{Bytes}
use helper.KvDb.Order.{Entry, Ascending, from_key, find_key}
use helper.KvDb.Memory.{Database, Bucket, remove_entry, find-delete_entry, head, tail, last_of}
use helper.Rocks.{RocksDb}
use helper.Rocks.Ranges.{CursorLaws}
use helper.Rocks.Delete.{DeleteLaws}

abbrev pub entries_of : Option Bucket → List Entry
entries_of none = []
entries_of (some b) = b.entries

abbrev pub name_of : Bytes → Option Bucket → Option Bytes
name_of s none = none
name_of s (some b) = some s

abbrev pub delete_from : Database → Bytes → Bytes → Option Bucket → Database
delete_from db s k none = db
delete_from db s k (some b) = insert s (remove_entry k b) db

abbrev pub entries : Database → Bytes → List Entry
entries db cf = entries_of (lookup cf db)

abbrev pub store : RocksDb
store = record {
  Db = Database;
  Family = Bytes;
  Cursor = List Entry;
  family = λ db s. name_of s (lookup s db);
  get_cf = λ db cf k. inl (find_key k (entries db cf));
  put_cf = λ db cf k v. (db, some 1);
  delete_cf = λ db cf k. (delete_from db cf k (lookup cf db), none);
  seek_to_first = λ db cf. entries db cf;
  seek_to_last = λ db cf. last_of (entries db cf);
  seek_from = λ db cf k. from_key k (entries db cf);
  next = tail;
  current = head;
  freed = λ v. [];
}

entries_of-Ascending : (ob : Option Bucket) → Ascending (entries_of ob)
entries_of-Ascending none = tt
entries_of-Ascending (some b) = b.ascend

pub entries-Ascending : (db : Database) (cf : Bytes) → Ascending (entries db cf)
entries-Ascending db cf = entries_of-Ascending (lookup cf db)

abbrev pub store_reads : CursorLaws store
store_reads = record {
  entries = entries;
  ahead = λ c. c;
  entries_ascend = entries-Ascending;
  first_of = λ db cf. refl;
  seek_of = λ db cf k. refl;
  current_end = λ c h. rw h refl;
  current_at = λ c e es h. rw h refl;
  next_of = λ c e es h. rw h refl;
}

delete_from-find_key :
    (db : Database) (cf k j : Bytes) (ob : Option Bucket)
    → lookup cf db ≡ ob
    → find_key j (entries (delete_from db cf k ob) cf)
      ≡ (if bytes_eq k j then none else find_key j (entries_of ob))
delete_from-find_key db cf k j none h = ap (λ o. find_key j (entries_of o)) h ∙ ground arith
delete_from-find_key db cf k j (some b) h =
    let there : lookup cf (insert cf (remove_entry k b) db) ≡ some (remove_entry k b) =
      lookup-insert cf cf (remove_entry k b) db ∙ rw (bytes_eq_refl cf) refl in
    ap (λ o. find_key j (entries_of o)) there ∙ find-delete_entry k j b.entries

pub store_deletes : DeleteLaws store store_reads
store_deletes = record {
  deletes = λ db cf k j e. delete_from-find_key db cf k j (lookup cf db) refl;
}

-- ===== src/Rocks/Delete.antt =====
-- rocksdb/rocksdb.go, DeleteRange: the entries that it deletes. The cursor is over the entries as they
-- were when the range began, as that of RocksDB is.
use helper.Base.{
  ℕ, suc, ◌<◌, ◌≡◌, refl, ap, ◌∙◌, Bool, true, false, ◌&&◌, ◌||◌, Option, none, some, List, [], ◌∷◌,
  if◌then◌else◌, is_empty, length, keep, bytes_eq, bytes_eq_iff, arith,
}
use helper.Base.Int.{ℤ, pos, ltz, eqz}
use helper.KvDb.{Bytes}
use helper.KvDb.Order.{bytes_le, Entry, until, between, find_key}
use helper.Rocks.{
  RocksDb, Outcome, returned, no_value, failed, panicked, RangeOption, Ranger, after_oper,
  range_foreach, outcome_of,
}
use helper.Rocks.Ranges.{CursorLaws, visit_some, range_foreach-visit_some}
use helper.Rocks.ByTime.{TimeOption, range_foreach_by_ts}

-- The option as a whole: a key, times, or a range of keys, and the error of its context, which is asked
-- with the number of calls.
pub record DeleteOption : Type 0 where
  pub key : Bytes
  pub range : RangeOption
  pub times : TimeOption
  pub ctx_err : ℕ → Option ℕ

-- What DeleteRange returns, or that the column family is not open.
pub data Deleted (D : Type 0) : Type 0 where
  outcome : Outcome (Option D) → Deleted D
  invalid_family : Deleted D

abbrev pub map_outcome : {A B : Type 0} → (A → B) → Outcome A → Outcome B
map_outcome f (returned a) = returned (f a)
map_outcome f (no_value k) = no_value k
map_outcome f (failed e) = failed e
map_outcome f panicked = panicked

-- The database after, `none` for out of fuel: the error of the enumeration is dropped.
abbrev pub state_of : {D : Type 0} → Option (D × Option ℕ) → Option D
state_of none = none
state_of (some (db, err)) = some db

-- `if opt.EndTS == 0`, and the fields that the two options share.
abbrev pub until_now : ℤ → TimeOption → RangeOption → TimeOption
until_now now times range = record times {
  end_ts = if eqz times.end_ts (pos 0) then now else times.end_ts;
  cf = range.cf;
  limit = range.limit;
}

module _ (rocks : RocksDb) where
  open rocks use {Db, Family, family, delete_cf}

  -- DeleteCF of each key, its error only written out.
  abbrev pub deleter : Family → (ℕ → Option ℕ) → Ranger Db
  deleter cf ctx_err = record {
    ctx_err = λ n db. ctx_err n;
    oper = λ db e. (delete_cf db cf e.0).0;
  }

  unfoldable pub delete_range_by_key :
      ℕ → Db → Family → RangeOption → (ℕ → Option ℕ) → Outcome (Option Db)
  unfolding range_foreach
  delete_range_by_key fuel db cf opt ctx_err =
      map_outcome (λ r. r.0) (range_foreach rocks (deleter cf ctx_err) fuel db opt db)

  unfoldable pub delete_range_by_ts :
      ℕ → Db → Family → TimeOption → (ℕ → Option ℕ) → Outcome (Option Db)
  unfolding range_foreach_by_ts
  delete_range_by_ts fuel db cf opt ctx_err =
      map_outcome state_of (range_foreach_by_ts rocks (deleter cf ctx_err) fuel db opt db)

  abbrev pub delete_in : ℕ → ℤ → Db → DeleteOption → Option Family → Deleted Db
  unfolding delete_range_by_key delete_range_by_ts
  delete_in fuel now db opt none = invalid_family
  delete_in fuel now db opt (some cf) =
      if is_empty opt.key
      then if ltz (pos 0) opt.times.start_ts || ltz (pos 0) opt.times.end_ts
        then outcome (delete_range_by_ts fuel db cf (until_now now opt.times opt.range) opt.ctx_err)
        else outcome (delete_range_by_key fuel db cf opt.range opt.ctx_err)
      else outcome (map_outcome some (outcome_of (delete_cf db cf opt.key)))

  unfoldable pub delete_range : ℕ → ℤ → Db → DeleteOption → Deleted Db
  unfolding delete_range_by_key delete_range_by_ts
  delete_range fuel now db opt = delete_in fuel now db opt (family db opt.range.cf)

-- What RocksDB documents of DeleteCF: one that is not refused takes one key out of the entries.
pub record DeleteLaws (rocks : RocksDb) (reads : CursorLaws rocks) : Type 0 where
  pub deletes :
      (db : rocks.Db) (cf : rocks.Family) (k j : Bytes)
      → (rocks.delete_cf db cf k).1 ≡ none
      → find_key j (reads.entries (rocks.delete_cf db cf k).0 cf)
        ≡ (if bytes_eq k j then none else find_key j (reads.entries db cf))

abbrev has_key : Bytes → List Entry → Bool
has_key j [] = false
has_key j (e ∷ es) = bytes_eq e.0 j || has_key j es

has_key-keep :
    (p : Bytes → Bool) (j : Bytes) (es : List Entry)
    → has_key j (keep (λ e. p e.0) es) ≡ (has_key j es && p j)
has_key-keep p j [] = refl
has_key-keep p j (e ∷ es) = ground (arith, has_key-keep p j es, bytes_eq_iff e.0 j)

no_key : (j : Bytes) (es : List Entry) → has_key j es ≡ false → find_key j es ≡ none
no_key j [] h = refl
no_key j ((k, v) ∷ es) h = ground (arith, no_key j es)

in_between :
    (p : Bytes → Bool) (j : Bytes) (es : List Entry)
    → (if has_key j (keep (λ e. p e.0) es) then none else find_key j es)
      ≡ (if p j then none else find_key j es)
in_between p j es = ground (arith, has_key-keep p j es, no_key j es)

module _ (rocks : RocksDb) (reads : CursorLaws rocks) (laws : DeleteLaws rocks reads) where
  -- No deletion in the column family is refused.
  abbrev pub Deletes : rocks.Family → Type 0
  Deletes cf = (db : rocks.Db) (k : Bytes) → (rocks.delete_cf db cf k).1 ≡ none

  visit_some-deleter :
      (cf : rocks.Family) (ctx_err : ℕ → Option ℕ) (limit : ℤ) (n : ℕ) (es : List Entry)
      (db : rocks.Db)
      → Deletes cf
      → ((i : ℕ) → ctx_err i ≡ none)
      → ltz (pos 0) limit ≡ false
      → (db' : rocks.Db) × (visit_some (deleter rocks cf ctx_err) limit n es db ≡ (some db', none))
        × ((j : Bytes)
            → find_key j (reads.entries db' cf)
              ≡ (if has_key j es then none else find_key j (reads.entries db cf)))
  visit_some-deleter cf ctx_err limit n [] db d c l = (db, refl, λ j. refl)
  visit_some-deleter cf ctx_err limit n (e ∷ es) db d c l =
      let next = (rocks.delete_cf db cf e.0).0 in
      let (db', done, found) = visit_some-deleter cf ctx_err limit (suc n) es next d c l in
      (
        db',
        ap
              (after_oper limit (suc n) next
                (visit_some (deleter rocks cf ctx_err) limit (suc n) es next))
              (c (suc n))
            ∙ rw l done,
        λ j. found j ∙ rw (laws.deletes db cf e.0 j (d db e.0)) (ground arith),
      )

  -- DeleteRange without a key or a time, in a column family that is open, deletes exactly the keys from
  -- the start key to the end key, both included, if no deletion is refused, the context is never
  -- done and the limit is not positive; an empty end is no bound, and fuel above the number of
  -- entries is enough.
  pub delete_range-removes :
      (db : rocks.Db) (opt : DeleteOption) (cf : rocks.Family) (now : ℤ) (fuel : ℕ)
      → rocks.family db opt.range.cf ≡ some cf
      → is_empty opt.key ≡ true
      → (ltz (pos 0) opt.times.start_ts || ltz (pos 0) opt.times.end_ts) ≡ false
      → Deletes cf
      → ((i : ℕ) → opt.ctx_err i ≡ none)
      → ltz (pos 0) opt.range.limit ≡ false
      → length (reads.entries db cf) < fuel
      → (db' : rocks.Db) × (delete_range rocks fuel now db opt ≡ outcome (returned (some db')))
        × ((j : Bytes)
            → find_key j (reads.entries db' cf) ≡ (
                if bytes_le opt.range.start_key j && until opt.range.end_key j
                then none
                else find_key j (reads.entries db cf)))
  unfolding delete_range delete_range_by_key
  delete_range-removes db opt cf now fuel f k t d c l n =
      let es = reads.entries db cf in
      let in_range = between opt.range.start_key opt.range.end_key es in
      let (db', done, found) =
        visit_some-deleter cf opt.ctx_err opt.range.limit 0 in_range db d c l in
      (
        db',
        ap (delete_in rocks fuel now db opt) f
            ∙ rw (k, t)
                (ap (λ o. outcome (map_outcome (λ r. r.0) o))
                  (range_foreach-visit_some rocks reads (deleter rocks cf opt.ctx_err) db opt.range
                      cf db fuel f n
                    ∙ ap returned done)),
        λ j.
            found j
            ∙ in_between (λ x. bytes_le opt.range.start_key x && until opt.range.end_key x) j es,
      )

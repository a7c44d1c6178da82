-- ===== src/KvDb/Ranges.antt =====
-- boltdb/kvdb.go, Range: the entries that it visits, and that it ends.
use helper.Base.{
  ℕ, zero, suc, ◌<◌, ◌≡◌, refl, ap, ◌∙◌, Option, none, some, List, [], ◌∷◌, if◌then◌else◌, length,
  keep, arith, Bool-cases, inl, inr, ◌⊎◌,
}
use helper.KvDb.{Bytes, Error, backend}
use helper.KvDb.Order.{
  bytes_le, Entry, Ascending, from_key, find_key, from_key-keep, until, between, keep-none,
  keep-keep, from_key-Ascending, length-from_key,
}
use helper.KvDb.Bolt.{
  Bolt, BoltDb, Caller, range_from, range_loop, range_in, range, bucket_or_default, iterator_at,
}

-- What bolt documents of its buckets and cursors: the entries of a bucket are in the order of their
-- keys, Get finds the value of a key, and a cursor, at the entries that are still ahead of it, starts
-- at the first one, or at the first whose key is not below a given one, and moves on one by one.
pub record ReadLaws (bolt : Bolt) : Type 0 where
  pub entries : bolt.Bucket → List Entry
  pub ahead : bolt.Cursor → List Entry
  pub entries_ascend : (b : bolt.Bucket) → Ascending (entries b)
  pub get_of : (b : bolt.Bucket) (k : Bytes) → bolt.bucket_get b k ≡ find_key k (entries b)
  pub first_of : (b : bolt.Bucket) → ahead (bolt.cursor_first b) ≡ entries b
  pub seek_of :
      (b : bolt.Bucket) (k : Bytes) → ahead (bolt.cursor_seek b k) ≡ from_key k (entries b)
  pub current_end : (c : bolt.Cursor) → ahead c ≡ [] → bolt.current c ≡ none
  pub current_at :
      (c : bolt.Cursor) (e : Entry) (es : List Entry) → ahead c ≡ e ∷ es → bolt.current c ≡ some e
  pub next_of :
      (c : bolt.Cursor) (e : Entry) (es : List Entry)
      → ahead c ≡ e ∷ es
      → ahead (bolt.cursor_next c) ≡ es

-- The callback on the entries in turn, until the context is done.
abbrev pub visit : {S : Type 0} → Caller S → ℕ → List Entry → S → S
visit caller n [] s = s
visit caller n (e ∷ es) s =
    if caller.cancelled n s then s else visit caller (suc n) es (caller.f s (iterator_at (some e)))

module _ (bolt : Bolt) (laws : ReadLaws bolt) {S : Type 0} (caller : Caller S) (end : Bytes) where
  range_loop-visit :
      (es : List Entry) (fuel n : ℕ) (c : bolt.Cursor) (s : S)
      → laws.ahead c ≡ es
      → length es < fuel
      → Ascending es
      → range_loop bolt caller fuel end n c s
        ≡ some (visit caller n (keep (λ e. until end e.0) es) s)
  unfolding range_loop
  range_loop-visit es zero n c s a l asc = absurd (omega (arith, l))
  range_loop-visit [] (suc fuel) n c s a l asc = rw (laws.current_end c a) refl
  range_loop-visit ((k, v) ∷ es) (suc fuel) n c s a l asc =
      let next = laws.next_of c (k, v) es a in
      let s' = caller.f s (iterator_at (some (k, v))) in
      let ih =
        range_loop-visit es fuel (suc n) (bolt.cursor_next c) s' next (omega (arith, l)) asc.1 in
      rw (laws.current_at c (k, v) es a) (elim (Bool-cases (until end k)) [
        | inl e ↦ elim (Bool-cases (caller.cancelled n s)) [
          | inl d ↦ rw (e, d) refl
          | inr d ↦ rw (e, d) ih
        ]
        | inr e ↦ rw (e, keep-none end k es e asc.0) refl
      ])

  -- What a read transaction of the set sees: the entries, and bolt's error when it cannot begin.
  abbrev pub entries_of : Option bolt.Bucket → List Entry
  entries_of none = []
  entries_of (some b) = laws.entries b

  abbrev pub contents : bolt.Tx ⊎ ℕ → Bytes → List Entry
  contents (inr e) s = []
  contents (inl t) s = entries_of (bolt.bucket t s)

  abbrev pub view_error : bolt.Tx ⊎ ℕ → Option Error
  view_error (inr e) = some (backend e)
  view_error (inl t) = none

  range_in-visit :
      (ob : Option bolt.Bucket) (start : Bytes) (w : S) (fuel : ℕ)
      → length (entries_of ob) < fuel
      → range_in bolt caller fuel ob start end w
        ≡ some (visit caller 0 (between start end (entries_of ob)) w)
  range_in-visit none start w fuel l = refl
  range_in-visit (some b) start w fuel l =
      let es = laws.entries b in
      let asc = laws.entries_ascend b in
      let same : keep (λ e. until end e.0) (from_key start es) ≡ between start end es =
        ap (keep (λ e. until end e.0)) (from_key-keep start es asc)
        ∙ keep-keep (λ e. until end e.0) (λ e. bytes_le start e.0) es in
      range_loop-visit (from_key start es) fuel 0 (bolt.cursor_seek b start) w
        (laws.seek_of b start) (omega (arith, l, length-from_key start es))
        (from_key-Ascending start es asc)
      ∙ ap (λ xs. some (visit caller 0 xs w)) same

  -- Range calls back on exactly the entries of the set whose keys lie from start to end, both
  -- included, in the order of the keys, up to the first call before which the context is done, and
  -- then ends, with bolt's error when no transaction begins. A set that does not exist has no entries,
  -- an empty end is no bound, and fuel above the number of entries is enough.
  pub range-visit :
      (db : BoltDb bolt) (s : Option Bytes) (start : Bytes) (w : S) (fuel : ℕ)
      → length (contents (bolt.begin_view db.h) (bucket_or_default s)) < fuel
      → range bolt caller fuel db s start end w ≡ (
        some (
            visit caller 0
              (between start end (contents (bolt.begin_view db.h) (bucket_or_default s)))
              w),
        view_error (bolt.begin_view db.h),
      )
  unfolding range
  range-visit db s start w fuel l = by_view (bolt.begin_view db.h) l
    where
      by_view :
          (r : bolt.Tx ⊎ ℕ)
          → length (contents r (bucket_or_default s)) < fuel
          → range_from bolt caller fuel (bucket_or_default s) start end w r ≡ (
            some (visit caller 0 (between start end (contents r (bucket_or_default s))) w),
            view_error r,
          )
      by_view (inr e) l = refl
      by_view (inl t) l =
          ap (λ r. (r, none)) (range_in-visit (bolt.bucket t (bucket_or_default s)) start w fuel l)

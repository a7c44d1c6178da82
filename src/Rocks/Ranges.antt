-- ===== src/Rocks/Ranges.antt =====
-- rocksdb/rocksdb.go, RangeForeach: the entries that it visits, and that Range of the interface is
-- then the same over RocksDB as over bolt.
use helper.Base.{
  ℕ, zero, suc, ◌<◌, ◌≡◌, refl, sym, ap, subst, ◌∙◌, false, Option, none, some, List, [], ◌∷◌, inl,
  inr, length, keep, arith, Bool-cases,
}
use helper.Base.Int.{ℤ, pos}
use helper.KvDb.{Bytes, Iterator}
use helper.KvDb.Order.{
  bytes_le, Entry, Ascending, from_key, from_key-keep, until, between, keep-none, keep-keep,
  from_key-Ascending, length-from_key,
}
use helper.KvDb.Bolt
use helper.KvDb.Bolt.{Bolt, BoltDb, Caller, bucket_or_default, iterator_at}
use helper.KvDb.Ranges.{ReadLaws, visit, range-visit, contents, entries_of}
use helper.Rocks.{
  RocksDb, returned, RangeOption, Ranger, after_oper, foreach_step, foreach_loop, start_at,
  range_foreach, range,
}

-- What RocksDB documents of a column family and its cursors, as for bolt.
pub record CursorLaws (rocks : RocksDb) : Type 0 where
  pub entries : rocks.Db → rocks.Family → List Entry
  pub ahead : rocks.Cursor → List Entry
  pub entries_ascend : (db : rocks.Db) (cf : rocks.Family) → Ascending (entries db cf)
  pub first_of :
      (db : rocks.Db) (cf : rocks.Family) → ahead (rocks.seek_to_first db cf) ≡ entries db cf
  pub seek_of :
      (db : rocks.Db) (cf : rocks.Family) (k : Bytes)
      → ahead (rocks.seek_from db cf k) ≡ from_key k (entries db cf)
  pub current_end : (c : rocks.Cursor) → ahead c ≡ [] → rocks.current c ≡ none
  pub current_at :
      (c : rocks.Cursor) (e : Entry) (es : List Entry) → ahead c ≡ e ∷ es → rocks.current c ≡ some e
  pub next_of :
      (c : rocks.Cursor) (e : Entry) (es : List Entry)
      → ahead c ≡ e ∷ es
      → ahead (rocks.next c) ≡ es

-- The callback on the entries in turn, up to the limit or the first error of the context; both are
-- looked at after a call.
abbrev pub visit_some : {S : Type 0} → Ranger S → ℤ → ℕ → List Entry → S → Option S × Option ℕ
visit_some r limit cnt [] s = (some s, none)
visit_some r limit cnt (e ∷ es) s =
    after_oper limit (suc cnt) (r.oper s e) (visit_some r limit (suc cnt) es (r.oper s e))
      (r.ctx_err (suc cnt) (r.oper s e))

pub from_key-nil : (es : List Entry) → from_key [] es ≡ es
from_key-nil [] = refl
from_key-nil (e ∷ es) = refl

module _ (rocks : RocksDb) (laws : CursorLaws rocks) {S : Type 0} (r : Ranger S) where
  start_at-from_key :
      (db : rocks.Db) (cf : rocks.Family) (start : Bytes)
      → laws.ahead (start_at rocks db cf start) ≡ from_key start (laws.entries db cf)
  start_at-from_key db cf [] = laws.first_of db cf ∙ sym (from_key-nil (laws.entries db cf))
  start_at-from_key db cf (b ∷ bs) = laws.seek_of db cf (b ∷ bs)

  foreach_loop-visit_some :
      (es : List Entry) (fuel cnt : ℕ) (opt : RangeOption) (c : rocks.Cursor) (s : S)
      → laws.ahead c ≡ es
      → length es < fuel
      → Ascending es
      → foreach_loop rocks r fuel opt cnt c s
        ≡ visit_some r opt.limit cnt (keep (λ e. until opt.end_key e.0) es) s
  unfolding foreach_loop
  foreach_loop-visit_some es zero cnt opt c s a l asc = absurd (omega (arith, l))
  foreach_loop-visit_some [] (suc fuel) cnt opt c s a l asc =
      ap (foreach_step rocks r opt cnt s (foreach_loop rocks r fuel opt (suc cnt) (rocks.next c)))
        (laws.current_end c a)
  foreach_loop-visit_some ((k, v) ∷ es) (suc fuel) cnt opt c s a l asc =
      let s' = r.oper s (k, v) in
      let ih =
        foreach_loop-visit_some es fuel (suc cnt) opt (rocks.next c) s' (laws.next_of c (k, v) es a)
          (omega (arith, l)) asc.1 in
      ap (foreach_step rocks r opt cnt s (foreach_loop rocks r fuel opt (suc cnt) (rocks.next c)))
        (laws.current_at c (k, v) es a)
      ∙ elim (Bool-cases (until opt.end_key k)) [
        | inl e ↦ rw e (ap (λ x. after_oper opt.limit (suc cnt) s' x (r.ctx_err (suc cnt) s')) ih)
        | inr e ↦ rw (e, keep-none opt.end_key k es e asc.0) refl
      ]

  -- The loop visits the entries between the ends.
  pub range_foreach-visit_some :
      (db : rocks.Db) (opt : RangeOption) (cf : rocks.Family) (s : S) (fuel : ℕ)
      → rocks.family db opt.cf ≡ some cf
      → length (laws.entries db cf) < fuel
      → range_foreach rocks r fuel db opt s
        ≡ returned
            (visit_some r opt.limit 0 (between opt.start_key opt.end_key (laws.entries db cf)) s)
  unfolding range_foreach
  range_foreach-visit_some db opt cf s fuel f l =
      let es = laws.entries db cf in
      let asc = laws.entries_ascend db cf in
      let kept : keep (λ e. until opt.end_key e.0) (from_key opt.start_key es)
          ≡ between opt.start_key opt.end_key es =
        ap (keep (λ e. until opt.end_key e.0)) (from_key-keep opt.start_key es asc)
        ∙ keep-keep (λ e. until opt.end_key e.0) (λ e. bytes_le opt.start_key e.0) es in
      rw f (
        ap returned (
          foreach_loop-visit_some (from_key opt.start_key es) fuel 0 opt
            (start_at rocks db cf opt.start_key) s (start_at-from_key db cf opt.start_key)
            (omega (arith, l, length-from_key opt.start_key es))
            (from_key-Ascending opt.start_key es asc)
          ∙ ap (λ xs. visit_some r opt.limit 0 xs s) kept))

-- A callback with a context that is never done, or none.
abbrev pub forever : {S : Type 0} → (S → Iterator → S) → Ranger S
forever f = record { ctx_err = λ n s. none; oper = λ s e. f s (iterator_at (some e)) }

abbrev pub uncancelled : {S : Type 0} → (S → Iterator → S) → Caller S
uncancelled f = record { cancelled = λ n s. false; f = f }

visit_some-visit :
    {S : Type 0} (f : S → Iterator → S) (n : ℕ) (es : List Entry) (s : S)
    → visit_some (forever f) (pos 0) n es s ≡ (some (visit (uncancelled f) n es s), none)
visit_some-visit f n [] s = refl
visit_some-visit f n (e ∷ es) s = visit_some-visit f (suc n) es (f s (iterator_at (some e)))

bolt_range :
    (bolt : Bolt) (reads : ReadLaws bolt) {S : Type 0} (f : S → Iterator → S) (db : BoltDb bolt)
    (set start end : Bytes) (t : bolt.Tx) (b : bolt.Bucket) (w : S) (fuel : ℕ)
    → bolt.begin_view db.h ≡ inl t
    → bolt.bucket t set ≡ some b
    → length (reads.entries b) < fuel
    → Bolt.range bolt (uncancelled f) fuel db (some set) start end w
      ≡ (some (visit (uncancelled f) 0 (between start end (reads.entries b)) w), none)
bolt_range bolt reads f db set start end t b w fuel v k l =
    let same =
      ap (λ r. contents bolt reads (uncancelled f) end r set) v
      ∙ ap (entries_of bolt reads (uncancelled f) end) k in
    range-visit bolt reads (uncancelled f) end db (some set) start w fuel
      (subst (λ es. length es < fuel) (sym same) l)
    ∙ cc (same, v)

rocks_range :
    (rocks : RocksDb) (laws : CursorLaws rocks) {S : Type 0} (f : S → Iterator → S) (rdb : rocks.Db)
    (set start end : Bytes) (cf : rocks.Family) (w : S) (fuel : ℕ)
    → rocks.family rdb set ≡ some cf
    → length (laws.entries rdb cf) < fuel
    → range rocks (forever f) fuel rdb (some set) start end w
      ≡ returned (some (visit (uncancelled f) 0 (between start end (laws.entries rdb cf)) w), none)
unfolding range
rocks_range rocks laws f rdb set start end cf w fuel c l =
    range_foreach-visit_some rocks laws (forever f) rdb
      (record { start_key = start; end_key = end; cf = set; limit = pos 0 }) cf w fuel c l
    ∙ ap returned (visit_some-visit f 0 (between start end (laws.entries rdb cf)) w)

-- Range of the interface is the same over RocksDB as over bolt, for a set that both have with the
-- same entries and a context that is never done: the callback ends in the same state, and neither
-- returns an error.
pub range-agrees :
    (rocks : RocksDb) (laws : CursorLaws rocks) (bolt : Bolt) (reads : ReadLaws bolt) {S : Type 0}
    (f : S → Iterator → S) (rdb : rocks.Db) (db : BoltDb bolt) (set start end : Bytes)
    (cf : rocks.Family) (t : bolt.Tx) (b : bolt.Bucket) (w : S) (fuel : ℕ)
    → rocks.family rdb set ≡ some cf
    → bolt.begin_view db.h ≡ inl t
    → bolt.bucket t set ≡ some b
    → laws.entries rdb cf ≡ reads.entries b
    → length (reads.entries b) < fuel
    → (range rocks (forever f) fuel rdb (some set) start end w
        ≡ returned ((Bolt.range bolt (uncancelled f) fuel db (some set) start end w).0, none))
      × ((Bolt.range bolt (uncancelled f) fuel db (some set) start end w).1 ≡ none)
range-agrees rocks laws bolt reads f rdb db set start end cf t b w fuel c v k same l =
    let ended = bolt_range bolt reads f db set start end t b w fuel v k l in
    let more : length (laws.entries rdb cf) < fuel = subst (λ es. length es < fuel) (sym same) l in
    let shared = ap (λ es. (some (visit (uncancelled f) 0 (between start end es) w))) same in
    (
      rocks_range rocks laws f rdb set start end cf w fuel c more
          ∙ ap (λ x. returned (x, none)) (shared ∙ sym (ap (λ p. p.0) ended)),
      ap (λ p. p.1) ended,
    )

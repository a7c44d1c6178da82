-- ===== src/KvDb/Numbers.antt =====
-- kvdb/kvdb.go, PutInt64 and GetInt64 over boltdb, and what Get says of a key that is not there.
use helper.Base.{
  ℕ, ◌-◌, ◌^◌, ◌≡◌, refl, ap, ◌∙◌, Option, none, some, ◌⊎◌, inl, inr, bytes_eq, bytes_eq_refl, ◌&&◌,
  true,
}
use helper.Base.Int.{ℤ, pos, negsuc, ◌≤ℤ◌}
use helper.KvDb.{Bytes, ok, failed, backend, put_int64, get_int64, parse_data}
use helper.KvDb.Decimal.{format_int, parse_int-format_int}
use helper.KvDb.Bolt.{Bolt, BoltDb, view, get_in, get, put, bolt_impl, bucket_or_default}
use helper.KvDb.Refines.{WriteLaws, puts, apply, apply-values, values, values_of, value_in}

module _ (bolt : Bolt) where
  -- A value that a view sees is what Get returns.
  get_of_value :
      (db : BoltDb bolt) (s : Option Bytes) (k v : Bytes)
      → values bolt db (bucket_or_default s) k ≡ some v
      → get bolt db s k ≡ ok v
  unfolding get
  get_of_value db s k v h = by_view (bolt.begin_view db.h) h
    where
      by_bucket : (ob : Option bolt.Bucket) → value_in bolt ob k ≡ some v → get_in bolt ob k ≡ ok v
      by_bucket none h = absurd cc
      by_bucket (some b) h = rw h refl

      by_view :
          (r : bolt.Tx ⊎ ℕ)
          → values_of bolt r (bucket_or_default s) k ≡ some v
          → view bolt
              (λ e. failed (backend e))
              (λ t. get_in bolt (bolt.bucket t (bucket_or_default s)) k)
              r
            ≡ ok v
      by_view (inr e) h = absurd cc
      by_view (inl t) h = by_bucket (bolt.bucket t (bucket_or_default s)) h

  module _ (laws : WriteLaws bolt) where
    put-values :
        (db : BoltDb bolt) (s : Option Bytes) (k v : Bytes)
        → (put bolt db s k v).1 ≡ none
        → values bolt (put bolt db s k v).0 (bucket_or_default s) k ≡ some v
    unfolding apply
    put-values db s k v h =
        let here : (bytes_eq (bucket_or_default s) (bucket_or_default s) && bytes_eq k k) ≡ true =
          rw (bytes_eq_refl (bucket_or_default s), bytes_eq_refl k) refl in
        apply-values bolt laws db (puts s k v) (bucket_or_default s) k ∙ rw (h, here) refl

    -- An int64 that PutInt64 stored without an error is what GetInt64 then returns.
    pub get_int64-put_int64 :
        (db : BoltDb bolt) (s : Option Bytes) (k : Bytes) (n : ℤ)
        → negsuc (2 ^ 63 - 1) ≤ℤ n
        → n ≤ℤ pos (2 ^ 63 - 1)
        → (put_int64 (bolt_impl bolt) db s k n).1 ≡ none
        → get_int64 (bolt_impl bolt) (put_int64 (bolt_impl bolt) db s k n).0 s k ≡ ok n
    unfolding put_int64 get_int64
    get_int64-put_int64 db s k n l u h =
        let db' = (put bolt db s k (format_int n)).0 in
        let read = get_of_value db' s k (format_int n) (put-values db s k (format_int n) h) in
        ap parse_data read ∙ rw (parse_int-format_int n l u) refl

-- ===== src/KvDb/Refines.antt =====
-- boltdb/kvdb.go and kvdb/kvdb.go: what Get, Exist and kvdb.Get say after any calls of Put and Delete.
use helper.Base.{
  ℕ, ◌≡◌, refl, sym, ap, ◌∙◌, false, ◌&&◌, Option, none, some, List, [], ◌∷◌, ◌⊎◌, inl, inr,
  if◌then◌else◌, bytes_eq, arith, Option-cases,
}
use helper.KvDb.{Bytes, Error, Result, ok, failed, backend, err_key_not_existed, get_existing}
use helper.KvDb.Bolt.{
  Bolt, BoltDb, view, update as update_with, exist_in, get_in, bucket_or_default, bolt_impl, put,
  delete, get, exist, finish, put_in, delete_in, delete_from, from_bolt,
}

-- The value of a key of a set in a transaction.
abbrev pub value_in : (bolt : Bolt) → Option bolt.Bucket → Bytes → Option Bytes
value_in bolt none k = none
value_in bolt (some b) k = bolt.bucket_get b k

abbrev pub Values : Type 0
Values = Bytes → Bytes → Option Bytes

abbrev pub value_of : (bolt : Bolt) → bolt.Tx → Values
value_of bolt t s k = value_in bolt (bolt.bucket t s) k

-- The values, changed at one key of one set.
abbrev pub update : Values → Bytes → Bytes → Option Bytes → Values
update f s k w r j = if bytes_eq s r && bytes_eq k j then w else f r j

-- What bolt documents of its transactions: an update starts from what a view sees, Put and Delete
-- change one key of one bucket, a bucket made is empty, and a commit is seen by the next view, or has
-- changed nothing when it fails.
pub record WriteLaws (bolt : Bolt) : Type 0 where
  pub begin_same :
      (h : bolt.Handle) (t : bolt.Tx) → bolt.begin_update h ≡ inl t → bolt.begin_view h ≡ inl t
  pub commit_seen :
      (h : bolt.Handle) (t : bolt.Tx)
      → (bolt.commit h t).1 ≡ none
      → bolt.begin_view (bolt.commit h t).0 ≡ inl t
  pub commit_refused :
      (h : bolt.Handle) (t : bolt.Tx) (e : ℕ)
      → (bolt.commit h t).1 ≡ some e
      → bolt.begin_view (bolt.commit h t).0 ≡ bolt.begin_view h
  pub create_keeps :
      (t t' : bolt.Tx) (s : Bytes)
      → bolt.create_bucket_if_not_exists t s ≡ inl t'
      → (r j : Bytes) → value_of bolt t' r j ≡ value_of bolt t r j
  pub put_changes :
      (t t' : bolt.Tx) (s k v : Bytes)
      → bolt.bucket_put t s k v ≡ inl t'
      → (r j : Bytes) → value_of bolt t' r j ≡ update (value_of bolt t) s k (some v) r j
  pub delete_changes :
      (t t' : bolt.Tx) (s k : Bytes)
      → bolt.bucket_delete t s k ≡ inl t'
      → (r j : Bytes) → value_of bolt t' r j ≡ update (value_of bolt t) s k none r j

pub data Op : Type 0 where
  puts : Option Bytes → Bytes → Bytes → Op
  deletes : Option Bytes → Bytes → Op

-- The values after the calls that returned no error.
abbrev pub accepted : Option Error → Values → Values → Values
accepted none new old = new
accepted (some e) new old = old

abbrev pub replay_op : Op → Option Error → Values → Values
replay_op (puts s k v) err f = accepted err (update f (bucket_or_default s) k (some v)) f
replay_op (deletes s k) err f = accepted err (update f (bucket_or_default s) k none) f

abbrev pub replay : List Op → List (Option Error) → Values → Values
replay [] errs f = f
replay (op ∷ ops) [] f = f
replay (op ∷ ops) (err ∷ errs) f = replay ops errs (replay_op op err f)

module _ (bolt : Bolt) where
  abbrev pub values_of : bolt.Tx ⊎ ℕ → Values
  values_of (inr e) s k = none
  values_of (inl t) s k = value_of bolt t s k

  -- What a view of the database sees.
  abbrev pub values : BoltDb bolt → Values
  values db = values_of (bolt.begin_view db.h)

  unfoldable pub apply : BoltDb bolt → Op → BoltDb bolt × Option Error
  unfolding put delete
  apply db (puts s k v) = put bolt db s k v
  apply db (deletes s k) = delete bolt db s k

  -- The database after the calls, and what each of them returned.
  unfoldable pub apply_all : BoltDb bolt → List Op → BoltDb bolt × List (Option Error)
  unfolding apply
  apply_all db [] = (db, [])
  apply_all db (op ∷ ops) =
      let (db', err) = apply db op in let (db'', errs) = apply_all db' ops in (db'', err ∷ errs)

  abbrev pub found : Option Bytes → Result Bytes
  found none = failed err_key_not_existed
  found (some v) = ok v

  pub get_existing-values :
      (db : BoltDb bolt) (s : Option Bytes) (k : Bytes)
      → get_existing (bolt_impl bolt) db s k ≡ found (values db (bucket_or_default s) k)
  unfolding get_existing exist get
  get_existing-values db s k = by_view (bolt.begin_view db.h)
    where
      by_bucket :
          (ob : Option bolt.Bucket)
          → (if exist_in bolt ob k then get_in bolt ob k else failed err_key_not_existed)
            ≡ found (value_in bolt ob k)
      by_bucket none = refl
      by_bucket (some b) = ground arith

      by_view :
          (r : bolt.Tx ⊎ ℕ)
          → (if view bolt
                (λ e. false)
                (λ t. exist_in bolt (bolt.bucket t (bucket_or_default s)) k)
                r
              then view bolt
                  (λ e. failed (backend e))
                  (λ t. get_in bolt (bolt.bucket t (bucket_or_default s)) k)
                  r
              else failed err_key_not_existed)
            ≡ found (values_of r (bucket_or_default s) k)
      by_view (inr e) = refl
      by_view (inl t) = by_bucket (bolt.bucket t (bucket_or_default s))

module _ (bolt : Bolt) (laws : WriteLaws bolt) where
  commit-values :
      (db : BoltDb bolt) (t : bolt.Tx) (f : Values) (r j : Bytes)
      → value_of bolt t r j ≡ f r j
      → values bolt (finish bolt db (inl t)).0 r j
        ≡ accepted (finish bolt db (inl t)).1 f (values bolt db) r j
  commit-values db t f r j h = elim (Option-cases (bolt.commit db.h t).1) [
    | inl e ↦ rw (e, laws.commit_seen db.h t e) h
    | inr (n, e) ↦ rw (e, laws.commit_refused db.h t n e) refl
  ]

  finish-values :
      (db : BoltDb bolt) (res : bolt.Tx ⊎ Error) (f : Values) (r j : Bytes)
      → ((t' : bolt.Tx) → res ≡ inl t' → value_of bolt t' r j ≡ f r j)
      → values bolt (finish bolt db res).0 r j
        ≡ accepted (finish bolt db res).1 f (values bolt db) r j
  finish-values db (inr e) f r j h = refl
  finish-values db (inl t) f r j h = commit-values db t f r j (h t refl)

  -- An update whose function makes the values f of what a view sees.
  update-values :
      (db : BoltDb bolt) (fn : bolt.Tx → bolt.Tx ⊎ Error) (f : Values) (r j : Bytes)
      → ((t t' : bolt.Tx)
          → bolt.begin_view db.h ≡ inl t
          → fn t ≡ inl t'
          → value_of bolt t' r j ≡ f r j)
      → values bolt (update_with bolt db fn).0 r j
        ≡ accepted (update_with bolt db fn).1 f (values bolt db) r j
  update-values db fn f r j h = by_begin (bolt.begin_update db.h) refl
    where
      by_begin :
          (b : bolt.Tx ⊎ ℕ)
          → bolt.begin_update db.h ≡ b
          → values bolt
              (view bolt (λ e. (db, some (backend e))) (λ t. finish bolt db (fn t)) b).0
              r
              j
            ≡ accepted
                (view bolt (λ e. (db, some (backend e))) (λ t. finish bolt db (fn t)) b).1
                f
                (values bolt db)
                r
                j
      by_begin (inr e) g = refl
      by_begin (inl t) g =
          finish-values db (fn t) f r j (λ t' k. h t t' (laws.begin_same db.h t g) k)

  from_bolt-inl : (r : bolt.Tx ⊎ ℕ) (t' : bolt.Tx) → from_bolt bolt r ≡ inl t' → r ≡ inl t'
  from_bolt-inl (inl t) t' h = cc
  from_bolt-inl (inr e) t' h = cc

  -- The updates at one place agree where the values before do.
  update-at :
      (f g : Values) (s k : Bytes) (w : Option Bytes) (r j : Bytes)
      → f r j ≡ g r j
      → update f s k w r j ≡ update g s k w r j
  update-at f g s k w r j h = ap (λ old. if bytes_eq s r && bytes_eq k j then w else old) h

  put_in-values :
      (t t' : bolt.Tx) (s k v r j : Bytes)
      → put_in bolt t s k v ≡ inl t'
      → value_of bolt t' r j ≡ update (value_of bolt t) s k (some v) r j
  put_in-values t t' s k v r j h = by_create (bolt.create_bucket_if_not_exists t s) refl h
    where
      by_create :
          (b : bolt.Tx ⊎ ℕ)
          → bolt.create_bucket_if_not_exists t s ≡ b
          → view bolt (λ e. inr (backend e)) (λ t1. from_bolt bolt (bolt.bucket_put t1 s k v)) b
            ≡ inl t'
          → value_of bolt t' r j ≡ update (value_of bolt t) s k (some v) r j
      by_create (inr e) g h = absurd cc
      by_create (inl t1) g h =
          laws.put_changes t1 t' s k v (from_bolt-inl (bolt.bucket_put t1 s k v) t' h) r j
          ∙ update-at (value_of bolt t1) (value_of bolt t) s k (some v) r j
              (laws.create_keeps t t1 s g r j)

  delete_in-values :
      (t t' : bolt.Tx) (s k r j : Bytes)
      → delete_in bolt t s k ≡ inl t'
      → value_of bolt t' r j ≡ update (value_of bolt t) s k none r j
  delete_in-values t t' s k r j h = by_bucket (bolt.bucket t s) h
    where
      by_bucket :
          (ob : Option bolt.Bucket)
          → delete_from bolt t s k ob ≡ inl t'
          → value_of bolt t' r j ≡ update (value_of bolt t) s k none r j
      by_bucket none h = absurd cc
      by_bucket (some b) h =
          laws.delete_changes t t' s k (from_bolt-inl (bolt.bucket_delete t s k) t' h) r j

  pub apply-values :
      (db : BoltDb bolt) (op : Op) (r j : Bytes)
      → values bolt (apply bolt db op).0 r j
        ≡ replay_op op (apply bolt db op).1 (values bolt db) r j
  unfolding apply put delete
  apply-values db (puts s k v) r j =
      update-values db (λ t. put_in bolt t (bucket_or_default s) k v)
        (update (values bolt db) (bucket_or_default s) k (some v)) r j
        (λ t t' b h.
          put_in-values t t' (bucket_or_default s) k v r j h
          ∙ update-at (value_of bolt t) (values bolt db) (bucket_or_default s) k (some v) r j
              (ap (λ x. values_of bolt x r j) (sym b)))
  apply-values db (deletes s k) r j =
      update-values db (λ t. delete_in bolt t (bucket_or_default s) k)
        (update (values bolt db) (bucket_or_default s) k none) r j
        (λ t t' b h.
          delete_in-values t t' (bucket_or_default s) k r j h
          ∙ update-at (value_of bolt t) (values bolt db) (bucket_or_default s) k none r j
              (ap (λ x. values_of bolt x r j) (sym b)))

  replay_op-at :
      (op : Op) (err : Option Error) (f g : Values)
      → ((r j : Bytes) → f r j ≡ g r j)
      → (r j : Bytes) → replay_op op err f r j ≡ replay_op op err g r j
  replay_op-at (puts s k v) none f g h r j =
      update-at f g (bucket_or_default s) k (some v) r j (h r j)
  replay_op-at (puts s k v) (some e) f g h r j = h r j
  replay_op-at (deletes s k) none f g h r j = update-at f g (bucket_or_default s) k none r j (h r j)
  replay_op-at (deletes s k) (some e) f g h r j = h r j

  replay-at :
      (ops : List Op) (errs : List (Option Error)) (f g : Values)
      → ((r j : Bytes) → f r j ≡ g r j)
      → (r j : Bytes) → replay ops errs f r j ≡ replay ops errs g r j
  replay-at [] errs f g h r j = h r j
  replay-at (op ∷ ops) [] f g h r j = h r j
  replay-at (op ∷ ops) (err ∷ errs) f g h r j =
      replay-at ops errs (replay_op op err f) (replay_op op err g) (replay_op-at op err f g h) r j

  apply_all-values :
      (db : BoltDb bolt) (ops : List Op) (r j : Bytes)
      → values bolt (apply_all bolt db ops).0 r j
        ≡ replay ops (apply_all bolt db ops).1 (values bolt db) r j
  unfolding apply_all
  apply_all-values db [] r j = refl
  apply_all-values db (op ∷ ops) r j =
      let db' = (apply bolt db op).0 in
      apply_all-values db' ops r j
      ∙ replay-at ops (apply_all bolt db' ops).1 (values bolt db')
          (replay_op op (apply bolt db op).1 (values bolt db)) (apply-values db op) r j

  -- The store refines a function from sets and keys to values. After any calls of Put and Delete,
  -- the kvdb function Get answers with the value that the calls without an error made of the values
  -- before, where Put and Delete change the key they name in their set, the default set for nil, and
  -- no other key, and with ErrKeyNotExisted where there is none.
  pub get_existing-apply_all :
      (db : BoltDb bolt) (ops : List Op) (s : Option Bytes) (k : Bytes)
      → get_existing (bolt_impl bolt) (apply_all bolt db ops).0 s k
        ≡ found bolt (replay ops (apply_all bolt db ops).1 (values bolt db) (bucket_or_default s) k)
  get_existing-apply_all db ops s k =
      get_existing-values bolt (apply_all bolt db ops).0 s k
      ∙ ap (found bolt) (apply_all-values db ops (bucket_or_default s) k)

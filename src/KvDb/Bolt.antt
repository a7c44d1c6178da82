-- ===== src/KvDb/Bolt.antt =====
-- boltdb/kvdb.go and boltdb/boltdb.go: the store over a bolt database. Bolt is a parameter: its
-- handle, its transactions, its buckets and its cursors. `View` and `Update` are written out as bolt
-- documents them: begin, run the function, and commit what an update wrote if no error came of it.
use helper.Base.{
  ℕ, zero, suc, Bool, true, false, Option, none, some, [], is_some, if◌then◌else◌, ◌⊎◌, inl, inr,
}
use helper.KvDb.{
  Bytes, Error, Result, ok, failed, err_set_not_existed, backend, default_set, Iterator,
  KeyValueImpl,
}
use helper.KvDb.Order.{until, Entry}

-- A failed call of bolt is told by a number. A position of a cursor is at an entry or past the end.
pub record Bolt : Type 1 where
  pub Handle : Type 0
  pub Tx : Type 0
  pub Bucket : Type 0
  pub Cursor : Type 0
  pub open_file : Bytes → Bool → Handle × Option ℕ
  pub begin_view : Handle → Tx ⊎ ℕ
  pub begin_update : Handle → Tx ⊎ ℕ
  pub commit : Handle → Tx → Handle × Option ℕ
  pub close_handle : Handle → Handle × Option ℕ
  pub bucket : Tx → Bytes → Option Bucket
  pub create_bucket_if_not_exists : Tx → Bytes → Tx ⊎ ℕ
  pub bucket_get : Bucket → Bytes → Option Bytes
  pub bucket_put : Tx → Bytes → Bytes → Bytes → Tx ⊎ ℕ
  pub bucket_delete : Tx → Bytes → Bytes → Tx ⊎ ℕ
  pub next_sequence : Tx → Bytes → (Tx × ℕ) ⊎ ℕ
  pub cursor_first : Bucket → Cursor
  pub cursor_last : Bucket → Cursor
  pub cursor_seek : Bucket → Bytes → Cursor
  pub cursor_next : Cursor → Cursor
  pub current : Cursor → Option Entry

-- `if bucket == nil { bucket = DefaultBucket }`.
abbrev pub bucket_or_default : Option Bytes → Bytes
bucket_or_default none = default_set
bucket_or_default (some b) = b

abbrev pub bolt_error : Option ℕ → Option Error
bolt_error none = none
bolt_error (some e) = some (backend e)

pub data CursorFunc : Type 0 where
  cursor_func_first cursor_func_last : CursorFunc
  cursor_func_seek : CursorFunc

abbrev pub iterator_close : Iterator → Iterator
iterator_close it = record { key = []; value = []; valid = false }

-- `res = append(res, b.Get(key)...)`.
abbrev pub bytes_of : Option Bytes → Bytes
bytes_of none = []
bytes_of (some v) = v

abbrev pub iterator_at : Option Entry → Iterator
iterator_at none = record { key = []; value = []; valid = false }
iterator_at (some (k, v)) = record { key = k; value = v; valid = true }

-- What Range is given: whether the context is done before the call of the callback with the given
-- number, and the callback, a step of the caller's state.
pub record Caller (S : Type 0) : Type 0 where
  pub cancelled : ℕ → S → Bool
  pub f : S → Iterator → S

module _ (bolt : Bolt) where
  open bolt use {
    Handle, Tx, Bucket, Cursor, open_file, begin_view, begin_update, commit, close_handle, bucket,
    create_bucket_if_not_exists, bucket_get, bucket_put, bucket_delete, next_sequence, cursor_first,
    cursor_last, cursor_seek, cursor_next, current,
  }

  pub record BoltDb : Type 0 where
    pub h : Handle
    pub path : Bytes

  unfoldable pub new_bolt_db : Bytes → Bool → BoltDb × Option Error
  new_bolt_db fn readonly =
      let (h, err) = open_file fn readonly in (record { h = h; path = fn }, bolt_error err)

  unfoldable pub close : BoltDb → BoltDb × Option Error
  close db = let (h, err) = close_handle db.h in (record { h = h; path = db.path }, bolt_error err)

  -- A transaction that begins, with its function, or bolt's error.
  abbrev pub view {ℓ} : {A : Type ℓ} → (ℕ → A) → (Tx → A) → Tx ⊎ ℕ → A
  view on_error fn (inr e) = on_error e
  view on_error fn (inl t) = fn t

  -- The function of `Get` in its transaction.
  abbrev pub get_in : Option Bucket → Bytes → Result Bytes
  get_in none k = failed err_set_not_existed
  get_in (some b) k = ok (bytes_of (bucket_get b k))

  unfoldable pub get : BoltDb → Option Bytes → Bytes → Result Bytes
  get db s k =
      view (λ e. failed (backend e)) (λ t. get_in (bucket t (bucket_or_default s)) k)
        (begin_view db.h)

  -- The end of `Update`: a failed function is rolled back, the other committed.
  abbrev pub finish : BoltDb → Tx ⊎ Error → BoltDb × Option Error
  finish db (inr e) = (db, some e)
  finish db (inl t) =
      let (h, err) = commit db.h t in (record { h = h; path = db.path }, bolt_error err)

  abbrev pub update : BoltDb → (Tx → Tx ⊎ Error) → BoltDb × Option Error
  update db fn = view (λ e. (db, some (backend e))) (λ t. finish db (fn t)) (begin_update db.h)

  abbrev pub from_bolt {ℓ} : {A : Type ℓ} → A ⊎ ℕ → A ⊎ Error
  from_bolt (inl t) = inl t
  from_bolt (inr e) = inr (backend e)

  -- The functions of `Put` and of `Delete` in their transactions.
  abbrev pub put_in : Tx → Bytes → Bytes → Bytes → Tx ⊎ Error
  put_in t s k v =
      view (λ e. inr (backend e)) (λ t'. from_bolt (bucket_put t' s k v))
        (create_bucket_if_not_exists t s)

  abbrev pub delete_from : Tx → Bytes → Bytes → Option Bucket → Tx ⊎ Error
  delete_from t s k none = inr err_set_not_existed
  delete_from t s k (some b) = from_bolt (bucket_delete t s k)

  abbrev pub delete_in : Tx → Bytes → Bytes → Tx ⊎ Error
  delete_in t s k = delete_from t s k (bucket t s)

  unfoldable pub put : BoltDb → Option Bytes → Bytes → Bytes → BoltDb × Option Error
  put db s k v = update db (λ t. put_in t (bucket_or_default s) k v)

  unfoldable pub delete : BoltDb → Option Bytes → Bytes → BoltDb × Option Error
  delete db s k = update db (λ t. delete_in t (bucket_or_default s) k)

  abbrev pub exist_in : Option Bucket → Bytes → Bool
  exist_in none k = false
  exist_in (some b) k = is_some (bucket_get b k)

  unfoldable pub exist : BoltDb → Option Bytes → Bytes → Bool
  exist db s k =
      view (λ e. false) (λ t. exist_in (bucket t (bucket_or_default s)) k) (begin_view db.h)

  abbrev pub cursor_of : Bucket → CursorFunc → Bytes → Cursor
  cursor_of b cursor_func_first k = cursor_first b
  cursor_of b cursor_func_last k = cursor_last b
  cursor_of b cursor_func_seek k = cursor_seek b k

  abbrev pub iterator_in : Option Bucket → CursorFunc → Bytes → Iterator
  iterator_in none name k = iterator_at none
  iterator_in (some b) name k = iterator_at (current (cursor_of b name k))

  unfoldable pub cursor_func : BoltDb → Option Bytes → CursorFunc → Bytes → Iterator
  cursor_func db s name k =
      view (λ e. iterator_at none) (λ t. iterator_in (bucket t (bucket_or_default s)) name k)
        (begin_view db.h)

  unfoldable pub seek : BoltDb → Option Bytes → Bytes → Iterator
  unfolding cursor_func
  seek db s k = cursor_func db s cursor_func_seek k

  unfoldable pub first : BoltDb → Option Bytes → Iterator
  unfolding cursor_func
  first db s = cursor_func db s cursor_func_first []

  unfoldable pub last : BoltDb → Option Bytes → Iterator
  unfolding cursor_func
  last db s = cursor_func db s cursor_func_last []

  -- `tx.Commit()` after the number was taken; a failed one returns the number with the error.
  abbrev pub commit_sequence : BoltDb → (Tx × ℕ) ⊎ ℕ → BoltDb × ℕ × Option Error
  commit_sequence db (inr e) = (db, 0, some (backend e))
  commit_sequence db (inl (t, seq)) =
      let (h, err) = commit db.h t in (record { h = h; path = db.path }, seq, bolt_error err)

  abbrev pub sequence_in : BoltDb → Bytes → Tx ⊎ ℕ → BoltDb × ℕ × Option Error
  sequence_in db s (inr e) = (db, 0, some (backend e))
  sequence_in db s (inl t) = commit_sequence db (next_sequence t s)

  unfoldable pub get_next_sequence : BoltDb → Option Bytes → BoltDb × ℕ × Option Error
  get_next_sequence db s =
      view (λ e. (db, 0, some (backend e)))
        (λ t.
          sequence_in db (bucket_or_default s)
            (create_bucket_if_not_exists t (bucket_or_default s)))
        (begin_update db.h)

  module _ {S : Type 0} (caller : Caller S) where
    -- One round of the loop of `Range`, at the entry under the cursor.
    abbrev pub range_step : Bytes → ℕ → S → (S → Option S) → Option Entry → Option S
    range_step end n s rest none = some s
    range_step end n s rest (some (k, v)) =
        if until end k
        then if caller.cancelled n s then some s else rest (caller.f s (iterator_at (some (k, v))))
        else some s

    -- The fuel bounds the rounds, and `none` is out of fuel.
    unfoldable pub range_loop : ℕ → Bytes → ℕ → Cursor → S → Option S
    range_loop zero end n c s = none
    range_loop (suc fuel) end n c s =
        range_step end n s (range_loop fuel end (suc n) (cursor_next c)) (current c)

    -- The function of `Range` in its transaction.
    abbrev pub range_in : ℕ → Option Bucket → Bytes → Bytes → S → Option S
    range_in fuel none start end s = some s
    range_in fuel (some b) start end s = range_loop fuel end 0 (cursor_seek b start) s

    abbrev pub range_from : ℕ → Bytes → Bytes → Bytes → S → Tx ⊎ ℕ → Option S × Option Error
    range_from fuel s start end w (inr e) = (some w, some (backend e))
    range_from fuel s start end w (inl t) = (range_in fuel (bucket t s) start end w, none)

    -- The state after the calls, and the error.
    unfoldable pub range : ℕ → BoltDb → Option Bytes → Bytes → Bytes → S → Option S × Option Error
    unfolding range_loop
    range fuel db s start end w =
        range_from fuel (bucket_or_default s) start end w (begin_view db.h)

  abbrev pub bolt_impl : KeyValueImpl
  bolt_impl = record {
    Db = BoltDb;
    put = put;
    get = get;
    delete = delete;
    exist = exist;
    seek = seek;
    first = first;
    last = last;
  }

-- ===== src/Rocks.antt =====
-- rocksdb/kvdb.go and the ranges of rocksdb/rocksdb.go. RocksDB is a parameter: column families by
-- name, and cursors over their entries. A column family that is not open is a nil handle, whose use
-- panics.
pub mod Ranges
pub mod Hijack
pub mod ByTime
pub mod Delete
pub mod Get
pub mod Limits
pub mod Memory
mod Tests
use helper.Base.{
  ℕ, zero, suc, ◌+◌, Bool, true, false, ◌&&◌, Option, none, some, List, [], ◌∷◌, ◌⊎◌, inl, inr,
  if◌then◌else◌, bytes_eq,
}
use helper.Base.Int.{ℤ, pos, ltz, lez}
use helper.KvDb.{Bytes, Iterator}
use helper.KvDb.Order.{Entry, until}
use helper.KvDb.Bolt.{iterator_at}

pub record RocksDb : Type 1 where
  pub Db : Type 0
  pub Family : Type 0
  pub Cursor : Type 0
  pub family : Db → Bytes → Option Family
  pub get_cf : Db → Family → Bytes → Option Bytes ⊎ ℕ
  pub put_cf : Db → Family → Bytes → Bytes → Db × Option ℕ
  pub delete_cf : Db → Family → Bytes → Db × Option ℕ
  pub seek_to_first : Db → Family → Cursor
  pub seek_to_last : Db → Family → Cursor
  pub seek_from : Db → Family → Bytes → Cursor
  pub next : Cursor → Cursor
  pub current : Cursor → Option Entry
  -- What the memory of a value holds when its cursor has moved on or is closed.
  pub freed : Bytes → Bytes

-- The value, an error, or the panic of a nil handle.
pub data Outcome {ℓ} (A : Type ℓ) : Type ℓ where
  returned : A → Outcome A
  no_value : Bytes → Outcome A
  failed : ℕ → Outcome A
  panicked : Outcome A

-- The fields of RangeOption that RangeForeach reads.
pub record RangeOption : Type 0 where
  pub start_key : Bytes
  pub end_key : Bytes
  pub cf : Bytes
  pub limit : ℤ

-- The callback, and the error of the context after the call with the given number.
pub record Ranger (S : Type 0) : Type 0 where
  pub ctx_err : ℕ → S → Option ℕ
  pub oper : S → Entry → S

-- A nil set is the name of no bytes.
abbrev pub set_name : Option Bytes → Bytes
set_name none = []
set_name (some s) = s

abbrev pub key_is : Bytes → Option Entry → Bool
key_is k none = false
key_is k (some (j, v)) = bytes_eq j k

abbrev pub data_of : Bytes → Option Bytes ⊎ ℕ → Outcome Bytes
data_of k (inr e) = failed e
data_of k (inl none) = no_value k
data_of k (inl (some v)) = returned v

abbrev pub outcome_of {ℓ} : {A : Type ℓ} → A × Option ℕ → Outcome A
outcome_of (a, none) = returned a
outcome_of (a, some e) = failed e

-- After a call: the limit, then the context, then the next round.
abbrev pub limited : ℤ → ℕ → Bool
limited limit cnt = ltz (pos 0) limit && lez limit (pos cnt)

abbrev pub after_oper :
    {S : Type 0} → ℤ → ℕ → S → Option S × Option ℕ → Option ℕ → Option S × Option ℕ
after_oper limit cnt s rest none = if limited limit cnt then (some s, none) else rest
after_oper limit cnt s rest (some e) =
    if limited limit cnt then (some s, none) else (some s, some e)

module _ (rocks : RocksDb) where
  open rocks use {
    Db, Family, Cursor, family, get_cf, put_cf, delete_cf, seek_to_first, seek_to_last, seek_from,
    next, current,
  }

  -- A call with the handle of a set.
  abbrev pub with_family {ℓ} : {A : Type ℓ} → Option Family → (Family → Outcome A) → Outcome A
  with_family none call = panicked
  with_family (some cf) call = call cf

  unfoldable pub put : Db → Option Bytes → Bytes → Bytes → Outcome Db
  put db s k v = with_family (family db (set_name s)) (λ cf. outcome_of (put_cf db cf k v))

  unfoldable pub get : Db → Option Bytes → Bytes → Outcome Bytes
  get db s k = with_family (family db (set_name s)) (λ cf. data_of k (get_cf db cf k))

  unfoldable pub delete : Db → Option Bytes → Bytes → Outcome Db
  delete db s k = with_family (family db (set_name s)) (λ cf. outcome_of (delete_cf db cf k))

  unfoldable pub key_exist : Db → Family → Bytes → Bool
  key_exist db cf k = key_is k (current (seek_from db cf k))

  unfoldable pub exist : Db → Option Bytes → Bytes → Outcome Bool
  unfolding key_exist
  exist db s k = with_family (family db (set_name s)) (λ cf. returned (key_exist db cf k))

  unfoldable pub seek : Db → Option Bytes → Bytes → Outcome Iterator
  seek db s k =
      with_family (family db (set_name s))
        (λ cf. returned (iterator_at (current (seek_from db cf k))))

  unfoldable pub first : Db → Option Bytes → Outcome Iterator
  first db s =
      with_family (family db (set_name s))
        (λ cf. returned (iterator_at (current (seek_to_first db cf))))

  unfoldable pub last : Db → Option Bytes → Outcome Iterator
  last db s =
      with_family (family db (set_name s))
        (λ cf. returned (iterator_at (current (seek_to_last db cf))))

  -- `len(opt.StartKey) > 0`.
  abbrev pub start_at : Db → Family → Bytes → Cursor
  start_at db cf [] = seek_to_first db cf
  start_at db cf (b ∷ bs) = seek_from db cf (b ∷ bs)

  module _ {S : Type 0} (ranger : Ranger S) where
    -- The loop, cnt being the calls before; a state that is `none` is out of fuel.
    abbrev pub foreach_step :
        RangeOption → ℕ → S → (S → Option S × Option ℕ) → Option Entry → Option S × Option ℕ
    foreach_step opt cnt s again none = (some s, none)
    foreach_step opt cnt s again (some (k, v)) =
        let s' = ranger.oper s (k, v) in
        if until opt.end_key k
        then after_oper opt.limit (suc cnt) s' (again s') (ranger.ctx_err (suc cnt) s')
        else (some s, none)

    unfoldable pub foreach_loop : ℕ → RangeOption → ℕ → Cursor → S → Option S × Option ℕ
    foreach_loop zero opt cnt c s = (none, none)
    foreach_loop (suc fuel) opt cnt c s =
        foreach_step opt cnt s (foreach_loop fuel opt (suc cnt) (next c)) (current c)

    unfoldable pub range_foreach : ℕ → Db → RangeOption → S → Outcome (Option S × Option ℕ)
    unfolding foreach_loop
    range_foreach fuel db opt s =
        with_family (family db opt.cf)
          (λ cf. returned (foreach_loop fuel opt 0 (start_at db cf opt.start_key) s))

    -- Range of the interface: no limit.
    unfoldable pub range : ℕ → Db → Option Bytes → Bytes → Bytes → S → Outcome (Option S × Option ℕ)
    unfolding range_foreach
    range fuel db set start end s =
        range_foreach fuel db
          (record { start_key = start; end_key = end; cf = set_name set; limit = pos 0 }) s

-- ===== src/KvDb.antt =====
-- kvdb/kvdb.go: stores of byte strings under keys, in named sets. A set that is nil is `none`; a nil
-- and an empty key or value are the same list of bytes.
pub mod Order
pub mod Decimal
pub mod Bolt
pub mod Ranges
pub mod Refines
pub mod Numbers
pub mod Memory
mod Tests
use helper.Base.{ℕ, ◌≡◌, Bool, true, false, Option, none, some, if◌then◌else◌, List, [], ◌∷◌}
use helper.Base.Int.{ℤ, pos}
use helper.KvDb.Decimal.{format_int, parse_int, ParseResult, ParseError, parsed, not_parsed}

abbrev pub Bytes : Type 0
Bytes = List ℕ

-- What a store reports; `backend` is an error of the database below, by a number.
pub data Error : Type 0 where
  err_key_not_existed err_set_not_existed : Error
  parse_failed : ParseError → Error
  backend : ℕ → Error

pub data Result {ℓ} (A : Type ℓ) : Type ℓ where
  ok : A → Result A
  failed : Error → Result A

-- `default`.
abbrev pub default_set : Bytes
default_set = 100 ∷ 101 ∷ 102 ∷ 97 ∷ 117 ∷ 108 ∷ 116 ∷ []

pub record Iterator : Type 0 where
  pub key : Bytes
  pub value : Bytes
  pub valid : Bool

-- The callback of `range` is a step of the caller's state; the context, nil for one that is never
-- cancelled, is asked with the number of calls so far and that state.
pub record KeyValueImpl : Type 1 where
  pub Db : Type 0
  pub put : Db → Option Bytes → Bytes → Bytes → Db × Option Error
  pub get : Db → Option Bytes → Bytes → Result Bytes
  pub delete : Db → Option Bytes → Bytes → Db × Option Error
  pub exist : Db → Option Bytes → Bytes → Bool
  pub seek : Db → Option Bytes → Bytes → Iterator
  pub first : Db → Option Bytes → Iterator
  pub last : Db → Option Bytes → Iterator

abbrev number_of : ParseResult → Result ℤ
number_of (parsed n) = ok n
number_of (not_parsed e n) = failed (parse_failed e)

-- `return impl.Get(...)` with the number parsed.
abbrev pub parse_data : Result Bytes → Result ℤ
parse_data (failed e) = failed e
parse_data (ok bytes) = number_of (parse_int bytes)

module _ (impl : KeyValueImpl) where
  open impl use {Db, put, get, delete, exist}

  unfoldable pub put_int64 : Db → Option Bytes → Bytes → ℤ → Db × Option Error
  put_int64 db s k n = put db s k (format_int n)

  unfoldable pub get_int64 : Db → Option Bytes → Bytes → Result ℤ
  get_int64 db s k = parse_data (get db s k)

  unfoldable pub get_existing : Db → Option Bytes → Bytes → Result Bytes
  get_existing db s k = if exist db s k then get db s k else failed err_key_not_existed

  unfoldable pub delete_in_set : Db → Option Bytes → Bytes → Db × Option Error
  delete_in_set db s k = delete db s k

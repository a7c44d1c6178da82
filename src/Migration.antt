-- ===== src/Migration.antt =====
-- redisw/cmd: the measurements of a table that are copied into Redis, batch by batch. Redis and the
-- table are parameters.
pub mod Order
pub mod Advance
pub mod Outlasts
mod Tests
use helper.Base.{
  is_empty, ℕ, zero, suc, ◌+◌, ◌%◌, ◌≡◌, Bool, true, false, not, ◌&&◌, Option, none, some, List, [],
  ◌∷◌, ◌++◌, if◌then◌else◌, ltb, ◌==◌, length, take, keep, bytes_eq,
}
use helper.Base.Int.{ℤ, pos, ltz, lez, eqz}
use helper.Base.Text.{Bytes, codes}
use helper.KvDb.Decimal.{format_int}

-- A row: ch_record. A float is told by its bits.
pub record Record : Type 0 where
  pub id : ℤ
  pub ac_mac : Bytes
  pub wid : ℤ
  pub app_id : Bytes
  pub open_id : Bytes
  pub union_id : Bytes
  pub height : ℕ
  pub weight : ℕ
  pub bmi : ℕ
  pub subscribe : ℤ
  pub subscribe_time : ℤ
  pub scale_time : ℤ
  pub add_time : ℤ
  pub update_time : ℤ

-- The fields of a JSON object.
pub data Scalar : Type 0 where
  str : Bytes → Scalar
  num : ℤ → Scalar
  real : ℕ → Scalar

-- A member of a sorted set: a text, or the JSON of an object.
pub data Member : Type 0 where
  plain : Bytes → Member
  json : List (Bytes × Scalar) → Member

pub data Command : Type 0 where
  z_add : Bytes → ℤ → Member → Command
  z_rem : Bytes → Bytes → Command
  h_set : Bytes → Bytes → Bytes → Command
  set : Bytes → ℤ → Command

-- Redis, and the date of a time as time.Format writes it.
pub record Redis : Type 1 where
  pub State : Type 0
  pub call : State → Command → State × Option ℕ
  pub date : ℤ → Bytes

pub data Failure : Type 0 where
  no_ac_mac : ℤ → Failure
  refused : ℕ → Failure

unfoldable pub is_public_account : Bytes → Bool
is_public_account id = (length id == 18) && bytes_eq (take 2 id) (codes "wx")

-- The calls of each function, in order.
abbrev pub unfollow_calls : Bytes → Bytes → ℤ → List Command
unfollow_calls union_id app_id ts =
    z_add (codes "unfollow:all") ts (
      json
        ((codes "unionid", str union_id) ∷ (codes "appid", str app_id) ∷ (codes "ts", num ts) ∷ []))
    ∷ z_add (codes "unfollow:user:" ++ union_id) ts
        (json ((codes "appid", str app_id) ∷ (codes "ts", num ts) ∷ []))
    ∷ z_rem (codes "followset:user:" ++ union_id) app_id
    ∷ []

abbrev pub measure_calls : Bytes → Record → List Command
measure_calls union_id r =
    z_add (codes "measure:user:" ++ union_id) r.add_time (
      json (
        (codes "weight", real r.weight)
        ∷ (codes "height", real r.height)
        ∷ (codes "bmi", real r.bmi)
        ∷ (codes "scale", str r.ac_mac)
        ∷ (codes "scale_ts", num r.scale_time)
        ∷ (codes "add_ts", num r.add_time)
        ∷ []))
    ∷ z_add (codes "measure:scale:" ++ r.ac_mac) r.add_time
        (json ((codes "unionid", str union_id) ∷ (codes "ts", num r.add_time) ∷ []))
    ∷ z_add (codes "measure:all") r.add_time
        (json ((codes "scale", str r.ac_mac) ∷ (codes "ts", num r.add_time) ∷ []))
    ∷ []

module _ (redis : Redis) where
  open redis use {State, call, date}

  abbrev pub follow_calls : Bytes → Bytes → Bytes → Bytes → ℤ → List Command
  follow_calls scale union_id app_id open_id ts =
      z_add (codes "follow:all") ts (
        json (
          (codes "scale", str scale)
          ∷ (codes "unionid", str union_id)
          ∷ (codes "appid", str app_id)
          ∷ (codes "ts", num ts)
          ∷ []))
      ∷ z_add (codes "followset:all") ts
          (json ((codes "unionid", str union_id) ∷ (codes "appid", str app_id) ∷ []))
      ∷ z_add (codes "follow:user:" ++ union_id) ts (
          json
            ((codes "scale", str scale) ∷ (codes "appid", str app_id) ∷ (codes "ts", num ts) ∷ []))
      ∷ h_set (codes "openid:user:" ++ union_id) app_id open_id
      ∷ z_add (codes "followset:user:" ++ union_id) ts (plain app_id)
      ∷ z_add (codes "followset:appid:" ++ app_id) ts (plain union_id)
      ∷ z_add (codes "followset:scale:" ++ scale) ts (
          json (
            (codes "unionid", str union_id)
            ∷ (codes "appid", str app_id)
            ∷ (codes "sub_date", str (date ts))
            ∷ []))
      ∷ []

  abbrev pub run_step : State × Option ℕ → State → Option ℕ → State × Option ℕ
  run_step rest s none = rest
  run_step rest s (some e) = (s, some e)

  -- Calls one after the other up to the first error.
  unfoldable pub run : State → List Command → State × Option ℕ
  run s [] = (s, none)
  run s (c ∷ cs) = let rest = run (call s c).0 cs in run_step rest (call s c).0 (call s c).1

  -- `if len(r.UnionID) == 0`.
  abbrev pub union_id_of : Record → Bytes
  union_id_of r = if is_empty r.union_id then format_int r.wid else r.union_id

  -- The calls for a row: measure, follow and unfollow.
  abbrev pub row_calls : Bytes → Record → List Command
  row_calls union_id r =
      measure_calls union_id r
      ++ (if not (is_empty r.open_id) && ltz (pos 0) r.subscribe_time
          then follow_calls r.ac_mac union_id r.app_id r.open_id r.subscribe_time
            ++ (if eqz r.subscribe (pos 0) && ltz r.subscribe_time r.update_time
                then unfollow_calls union_id r.app_id r.update_time
                else [])
          else [])

  -- What the process keeps.
  pub record Progress : Type 0 where
    pub store : State
    pub id_processed : ℤ
    pub processed : ℕ

  abbrev pub set_processed_id : Progress → Progress
  set_processed_id p = record p {
    store = (call p.store (set (codes "ch_records_processed") p.id_processed)).0;
  }

  -- A row that was copied; every thousandth is written down.
  abbrev pub advance : Progress → Record → Progress
  advance p r =
      let p' = record p { id_processed = r.id; processed = suc p.processed } in
      if suc p.processed % 1000 == 0 then set_processed_id p' else p'

  abbrev pub after_calls : Progress → Record → State × Option ℕ → Progress × Option Failure
  after_calls p r (s, some e) = (record p { store = s }, some (refused e))
  after_calls p r (s, none) = (advance (record p { store = s }) r, none)

  -- After sanityCheck.
  abbrev pub sanity_checked : Progress → Record → Bool → Progress × Option Failure
  unfolding run
  sanity_checked p r true = (p, some (no_ac_mac r.id))
  sanity_checked p r false = after_calls p r (run p.store (row_calls (union_id_of r) r))

  unfoldable pub migrate_to_redis : Progress → Record → Progress × Option Failure
  unfolding run
  migrate_to_redis p r = sanity_checked p r (is_empty r.ac_mac)

  -- A row that fails is only reported.
  unfoldable pub on_row : Progress → Record → Progress
  unfolding migrate_to_redis
  on_row p r = (migrate_to_redis p r).0

  abbrev pub scan_step : Progress × Option ℕ → Progress → Option ℕ → Progress × Option ℕ
  scan_step rest p none = rest
  scan_step rest p (some e) = (p, some e)

  -- StructScan of the rows: the error of the context, by a number, before each of them.
  unfoldable pub scan_batch : (Progress → Option ℕ) → Progress → List Record → Progress × Option ℕ
  unfolding on_row
  scan_batch ctx_err p [] = (p, none)
  scan_batch ctx_err p (r ∷ rows) =
      let rest = scan_batch ctx_err (on_row p r) rows in scan_step rest p (ctx_err p)

  -- `where id > %d order by id asc limit 1000`, of a table in the order of its ids.
  abbrev pub next_batch : List Record → ℤ → List Record
  next_batch table id = take 1000 (keep (λ r. ltz id r.id) table)

  abbrev pub after_batch : (Progress → Option Progress) → Progress × Option ℕ → Option Progress
  after_batch again (p, none) = again p
  after_batch again (p, some e) = some (set_processed_id p)

  -- No row is sql.ErrNoRows, which ends the loop like any error.
  abbrev pub batch_step :
      (Progress → Option ℕ)
      → (Progress → Option Progress)
      → Progress
      → List Record
      → Option Progress
  unfolding scan_batch
  batch_step ctx_err again p [] = some (set_processed_id p)
  batch_step ctx_err again p (r ∷ rows) = after_batch again (scan_batch ctx_err p (r ∷ rows))

  -- The loop of main; `none` is out of fuel.
  unfoldable pub main_loop : ℕ → (Progress → Option ℕ) → List Record → Progress → Option Progress
  unfolding scan_batch
  main_loop zero ctx_err table p = none
  main_loop (suc fuel) ctx_err table p =
      batch_step ctx_err (main_loop fuel ctx_err table) p (next_batch table p.id_processed)

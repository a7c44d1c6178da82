-- ===== src/Rocks/Get.antt =====
-- rocksdb/rocksdb.go, GetRange: what it writes of a key or of a range.
use helper.Base.{
  ℕ, suc, ◌<◌, ◌≡◌, refl, sym, ap, ◌∙◌, Bool, true, false, not, ◌||◌, Option, none, some, List, [],
  ◌∷◌, ◌++◌, map, append-nil, append_assoc, if◌then◌else◌, is_empty, length, bytes_eq,
}
use helper.Base.Int.{ℤ, pos, ltz}
use helper.KvDb.{Bytes}
use helper.KvDb.Order.{Entry, between}
use helper.Rocks.{RocksDb, Outcome, returned, RangeOption, Ranger, after_oper, range_foreach}
use helper.Rocks.Ranges.{CursorLaws, visit_some, range_foreach-visit_some}
use helper.Rocks.ByTime.{TimeOption, range_foreach_by_ts}
use helper.Rocks.Delete.{map_outcome, until_now}

-- KVJson and KVRaw, whose values the encoder writes as JSON and as a string. KVRaw has a copy of its
-- value, KVJson the memory of the cursor, which is gone once the cursor moves or is closed.
pub data Pair : Type 0 where
  kv_json : Bytes → Bytes → Pair
  kv_raw : Bytes → Bytes → Pair

-- The fields of RangeOption that GetRange reads. The error of its context is asked with the number
-- of calls.
pub record GetOption : Type 0 where
  pub key : Bytes
  pub range : RangeOption
  pub times : TimeOption
  pub is_json_value : Bool
  pub stream_output : Bool
  pub ctx_err : ℕ → Option ℕ

pub data GetError : Type 0 where
  can_not_find : GetError
  range_error : ℕ → GetError
  marshal_error : ℕ → GetError

-- A writer: json.Encoder on it, with one element or the list of them, and Write of what
-- json.Marshal gives.
pub record Encoder : Type 1 where
  pub W : Type 0
  pub encode : W → Pair → W × Option ℕ
  pub encode_all : W → List Pair → W × Option ℕ
  pub write : W → Pair → W

-- The writer after and the error, `none` for out of fuel, or no column family.
pub data Got (W : Type 0) : Type 0 where
  outcome : Outcome (Option (W × Option GetError)) → Got W
  invalid_family : Got W

abbrev pub pair_of : Bool → Entry → Pair
pair_of true e = kv_json e.0 e.1
pair_of false e = kv_raw e.0 e.1

-- The pair when its cursor is closed.
abbrev pub settle : (Bytes → Bytes) → Pair → Pair
settle freed (kv_json k v) = kv_json k (freed v)
settle freed (kv_raw k v) = kv_raw k v

abbrev pub encoded : {W : Type 0} → W × Option ℕ → W × Option GetError
encoded (w, none) = (w, none)
encoded (w, some e) = (w, some (marshal_error e))

module _ (encoder : Encoder) where
  open encoder use {W, encode, encode_all, write}

  -- An error of Encode is only written out.
  abbrev pub gather_pair : Bool → Bool → W × List Pair → Entry → W × List Pair
  gather_pair true json (w, elems) e = ((encode w (pair_of json e)).0, elems)
  gather_pair false json (w, elems) e = (w, elems ++ (pair_of json e ∷ []))

  abbrev pub getter : GetOption → Ranger (W × List Pair)
  getter opt = record {
    ctx_err = λ n s. opt.ctx_err n;
    oper = gather_pair opt.stream_output opt.is_json_value;
  }

  -- The entries in turn, or as one list.
  abbrev pub output : Bool → Bool → W → List Entry → W × Option GetError
  output true json w [] = (w, none)
  output true json w (e ∷ es) = output true json (encode w (pair_of json e)).0 es
  output false json w es = encoded (encode_all w (map (pair_of json) es))

  module _ (rocks : RocksDb) where
    open rocks use {Db, Family, family, seek_from, current, freed}

    -- The list is encoded after the cursor is closed.
    abbrev pub write_all : Bool → W × List Pair → W × Option GetError
    write_all true (w, elems) = (w, none)
    write_all false (w, elems) = encoded (encode_all w (map (settle freed) elems))

    abbrev pub finish_get : Bool → Option (W × List Pair) → Option ℕ → Option (W × Option GetError)
    finish_get stream none err = none
    finish_get stream (some s) (some e) = some (s.0, some (range_error e))
    finish_get stream (some s) none = some (write_all stream s)

    abbrev pub finish_times :
        Bool → Option ((W × List Pair) × Option ℕ) → Option (W × Option GetError)
    finish_times stream none = none
    finish_times stream (some (s, err)) = finish_get stream (some s) err

    abbrev pub write_found : Bytes → W → Option Entry → W × Option GetError
    write_found key w none = (w, some can_not_find)
    write_found key w (some (k, v)) =
        if bytes_eq k key then (write w (kv_raw k v), none) else (w, some can_not_find)

    unfoldable pub write_to : Db → Family → Bytes → W → W × Option GetError
    write_to db cf key w = write_found key w (current (seek_from db cf key))

    unfoldable pub get_range_by_key :
        ℕ → Db → GetOption → W → Outcome (Option (W × Option GetError))
    unfolding range_foreach
    get_range_by_key fuel db opt w =
        map_outcome (λ r. finish_get opt.stream_output r.0 r.1)
          (range_foreach rocks (getter opt) fuel db opt.range (w, []))

    unfoldable pub get_range_by_ts :
        ℕ → Db → TimeOption → GetOption → W → Outcome (Option (W × Option GetError))
    unfolding range_foreach_by_ts
    get_range_by_ts fuel db times opt w =
        map_outcome (finish_times opt.stream_output)
          (range_foreach_by_ts rocks (getter opt) fuel db times (w, []))

    abbrev pub get_in : ℕ → ℤ → Db → GetOption → W → Option Family → Got W
    unfolding write_to get_range_by_key get_range_by_ts
    get_in fuel now db opt w none = invalid_family
    get_in fuel now db opt w (some cf) =
        if is_empty opt.key
        then if ltz (pos 0) opt.times.start_ts || ltz (pos 0) opt.times.end_ts
          then outcome (get_range_by_ts fuel db (until_now now opt.times opt.range) opt w)
          else outcome (get_range_by_key fuel db opt w)
        else outcome (returned (some (write_to db cf opt.key w)))

    unfoldable pub get_range : ℕ → ℤ → Db → GetOption → W → Got W
    unfolding write_to get_range_by_key get_range_by_ts
    get_range fuel now db opt w = get_in fuel now db opt w (family db opt.range.cf)

module _ (encoder : Encoder) where
  open encoder use {W, encode_all}

  -- The pairs of the entries in order, behind those before.
  abbrev gather_all : Bool → Bool → W × List Pair → List Entry → W × List Pair
  gather_all stream json s [] = s
  gather_all stream json s (e ∷ es) =
      gather_all stream json (gather_pair encoder stream json s e) es

  visit_some-gather_all :
      (opt : GetOption) (n : ℕ) (s : W × List Pair) (es : List Entry)
      → ((i : ℕ) → opt.ctx_err i ≡ none)
      → ltz (pos 0) opt.range.limit ≡ false
      → visit_some (getter encoder opt) opt.range.limit n es s
        ≡ (some (gather_all opt.stream_output opt.is_json_value s es), none)
  visit_some-gather_all opt n s [] c l = refl
  visit_some-gather_all opt n s (e ∷ es) c l =
      let next = gather_pair encoder opt.stream_output opt.is_json_value s e in
      ap
        (after_oper opt.range.limit (suc n) next
          (visit_some (getter encoder opt) opt.range.limit (suc n) es next))
        (c (suc n))
      ∙ rw l (visit_some-gather_all opt (suc n) next es c l)

  listed :
      (json : Bool) (w : W) (acc : List Pair) (es : List Entry)
      → gather_all false json (w, acc) es ≡ (w, acc ++ map (pair_of json) es)
  listed json w acc [] = ap (λ x. (w, x)) (sym (append-nil acc))
  listed json w acc (e ∷ es) =
      listed json w (acc ++ (pair_of json e ∷ [])) es
      ∙ ap (λ x. (w, x)) (append_assoc acc (pair_of json e ∷ []) (map (pair_of json) es))

  settle-raw :
      (freed : Bytes → Bytes) (es : List Entry)
      → map (settle freed) (map (pair_of false) es) ≡ map (pair_of false) es
  settle-raw freed [] = refl
  settle-raw freed (e ∷ es) = ap (λ ps. pair_of false e ∷ ps) (settle-raw freed es)

  streamed :
      (rocks : RocksDb) (json : Bool) (s : W × List Pair) (es : List Entry)
      → write_all encoder rocks true (gather_all true json s es) ≡ output encoder true json s.0 es
  streamed rocks json s [] = refl
  streamed rocks json s (e ∷ es) = streamed rocks json (gather_pair encoder true json s e) es

  write_all-output :
      (rocks : RocksDb) (stream json : Bool) (w : W) (es : List Entry)
      → (stream || not json) ≡ true
      → write_all encoder rocks stream (gather_all stream json (w, []) es)
        ≡ output encoder stream json w es
  write_all-output rocks true json w es h = streamed rocks json (w, []) es
  write_all-output rocks false true w es h = absurd cc
  write_all-output rocks false false w es h =
      ap (write_all encoder rocks false) (listed false w [] es)
      ∙ ap (λ ps. encoded (encode_all w ps)) (settle-raw rocks.freed es)

  module _ (rocks : RocksDb) (reads : CursorLaws rocks) where
    -- GetRange without a key or a time, in a column family that is open, writes the entries from the
    -- start key to the end key, both included, in order, if the context is never done, the limit is
    -- not positive, and it is to stream or its values are not to be JSON: for a stream each entry by
    -- itself, and no error, otherwise all as one list, whose error it returns. An empty end is no
    -- bound, and fuel above the number of entries is enough.
    pub get_range-writes :
        (db : rocks.Db) (opt : GetOption) (cf : rocks.Family) (now : ℤ) (fuel : ℕ) (w : W)
        → rocks.family db opt.range.cf ≡ some cf
        → is_empty opt.key ≡ true
        → (ltz (pos 0) opt.times.start_ts || ltz (pos 0) opt.times.end_ts) ≡ false
        → ((i : ℕ) → opt.ctx_err i ≡ none)
        → ltz (pos 0) opt.range.limit ≡ false
        → (opt.stream_output || not opt.is_json_value) ≡ true
        → length (reads.entries db cf) < fuel
        → get_range encoder rocks fuel now db opt w
          ≡ outcome (
              returned (
                some (
                  output encoder opt.stream_output opt.is_json_value w
                    (between opt.range.start_key opt.range.end_key (reads.entries db cf)))))
    unfolding get_range get_range_by_key
    get_range-writes db opt cf now fuel w f k t c l raw n =
        let in_range = between opt.range.start_key opt.range.end_key (reads.entries db cf) in
        ap (get_in encoder rocks fuel now db opt w) f
        ∙ rw (k, t)
            (ap
              (λ o.
                outcome (map_outcome (λ r. finish_get encoder rocks opt.stream_output r.0 r.1) o))
              (range_foreach-visit_some rocks reads (getter encoder opt) db opt.range cf (w, [])
                  fuel f n
                ∙ ap returned (visit_some-gather_all opt 0 (w, []) in_range c l)))
        ∙ ap (λ r. outcome (returned (some r)))
            (write_all-output rocks opt.stream_output opt.is_json_value w in_range raw)

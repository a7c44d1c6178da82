-- ===== src/Rocks/ByTime.antt =====
-- rocksdb/rocksdb.go, RangeForeachByTS: the entries by the time in their keys, and that it ends.
use helper.Base.{
  ℕ, zero, suc, ◌<◌, ◌≡◌, ◌≢◌, refl, sym, ap, subst, ◌∙◌, Bool, true, false, Option, none, some,
  List, [], ◌∷◌, if◌then◌else◌, length, All, arith, Bool-cases, inl, inr, is_some,
}
use helper.Base.Int.{ℤ}
use helper.KvDb.{Bytes}
use helper.KvDb.Order.{
  bytes_le, bytes_le_trans, bytes_le_total, Entry, Ascending, from_key, until, length-from_key,
}
use helper.KvDb.Decimal.{format_int}
use helper.Rocks.{RocksDb, Outcome, returned, Ranger, limited, with_family}
use helper.Rocks.Hijack.{hijack, hijack-above, bump_last, prefix}
use helper.Rocks.Ranges.{CursorLaws, from_key-nil}

-- The fields of RangeOption that the enumeration by time reads.
pub record TimeOption : Type 0 where
  pub start_ts : ℤ
  pub end_ts : ℤ
  pub ts_field_index : ℕ
  pub key_separator : Bytes
  pub cf : Bytes
  pub limit : ℤ

-- The inner loop goes on to the next key with its calls and state, or leaves with an error or none.
pub data Inner (S : Type 0) : Type 0 where
  more : ℕ → S → Inner S
  out : S → Option ℕ → Inner S

-- After a call: the limit, then the context, then the next round.
abbrev pub after_call : {S : Type 0} → ℤ → ℕ → S → Option (Inner S) → Option ℕ → Option (Inner S)
after_call limit cnt s rest none = if limited limit cnt then some (out s none) else rest
after_call limit cnt s rest (some e) =
    if limited limit cnt then some (out s none) else some (out s (some e))

-- What follows the inner loop: leave, or seek the next key.
abbrev pub after_inner :
    {S : Type 0} → (ℕ → S → Option (S × Option ℕ)) → Option (Inner S) → Option (S × Option ℕ)
after_inner again none = none
after_inner again (some (out s err)) = some (s, err)
after_inner again (some (more cnt s)) = again cnt s

abbrev pub key_of : TimeOption → ℤ → Bytes → Bytes × Option Bytes
unfolding hijack
key_of opt ts k = hijack opt.ts_field_index opt.key_separator (format_int ts) k

module _ (rocks : RocksDb) {S : Type 0} (ranger : Ranger S) where
  open rocks use {Db, Family, Cursor, family, seek_to_first, seek_from, next, current}

  abbrev pub inner_step :
      ℤ → Bytes → ℕ → S → (S → Option (Inner S)) → Option Entry → Option (Inner S)
  inner_step limit key_end cnt s again none = some (more cnt s)
  inner_step limit key_end cnt s again (some (k, v)) =
      let s' = ranger.oper s (k, v) in
      if until key_end k
      then after_call limit (suc cnt) s' (again s') (ranger.ctx_err (suc cnt) s')
      else some (more cnt s)

  -- The loop from keyStart to keyEnd.
  unfoldable pub inner_loop : ℕ → ℤ → Bytes → ℕ → Cursor → S → Option (Inner S)
  inner_loop zero limit key_end cnt c s = none
  inner_loop (suc fuel) limit key_end cnt c s =
      inner_step limit key_end cnt s (inner_loop fuel limit key_end (suc cnt) (next c)) (current c)

  -- One round, at a key; `again` is the rest of the loop from a next key.
  abbrev pub time_round :
      ℕ
      → Db
      → Family
      → TimeOption
      → ℕ
      → S
      → (Bytes → ℕ → S → Option (S × Option ℕ))
      → Bytes
      → Option Bytes
      → Option (S × Option ℕ)
  unfolding inner_loop hijack
  time_round fuel db cf opt cnt s again k none = some (s, none)
  time_round fuel db cf opt cnt s again k (some next_key) = after_inner (again next_key) (
      inner_loop fuel opt.limit (key_of opt opt.end_ts k).0 cnt
        (seek_from db cf (key_of opt opt.start_ts k).0) s)

  abbrev pub time_step :
      ℕ
      → Db
      → Family
      → TimeOption
      → ℕ
      → S
      → (Bytes → ℕ → S → Option (S × Option ℕ))
      → Option Entry
      → Option (S × Option ℕ)
  unfolding inner_loop hijack
  time_step fuel db cf opt cnt s again none = some (s, none)
  time_step fuel db cf opt cnt s again (some (k, v)) =
      time_round fuel db cf opt cnt s again k (key_of opt opt.start_ts k).1

  -- The outer loop; the first fuel is for each inner loop.
  unfoldable pub time_loop :
      ℕ → ℕ → Db → Family → TimeOption → ℕ → Cursor → S → Option (S × Option ℕ)
  unfolding inner_loop hijack
  time_loop inner zero db cf opt cnt c s = none
  time_loop inner (suc fuel) db cf opt cnt c s =
      time_step inner db cf opt cnt s
        (λ next_key n s'. time_loop inner fuel db cf opt n (seek_from db cf next_key) s')
        (current c)

  unfoldable pub range_foreach_by_ts : ℕ → Db → TimeOption → S → Outcome (Option (S × Option ℕ))
  unfolding time_loop
  range_foreach_by_ts fuel db opt s =
      with_family rocks (family db opt.cf)
        (λ cf. returned (time_loop fuel fuel db cf opt 0 (seek_to_first db cf) s))

-- It has not run out of fuel.
abbrev pub Ends {ℓ} : {A : Type ℓ} → Option A → Type ℓ
Ends {A = A} o = (a : A) × (o ≡ some a)

after_call-Ends :
    {S : Type 0} (limit : ℤ) (cnt : ℕ) (s : S) (rest : Option (Inner S)) (err : Option ℕ)
    → Ends rest
    → Ends (after_call limit cnt s rest err)
after_call-Ends limit cnt s rest err e = elim (Bool-cases (limited limit cnt)) [
  | inl t ↦ by_error true t err
  | inr t ↦ by_error false t err
]
  where
    by_error :
        (b : Bool) → limited limit cnt ≡ b → (o : Option ℕ) → Ends (after_call limit cnt s rest o)
    by_error true t none = rw t (out s none, refl)
    by_error true t (some n) = rw t (out s none, refl)
    by_error false t none = rw t e
    by_error false t (some n) = rw t (out s (some n), refl)

All-from_key {κ} :
    (P : Entry → Type κ) (q : Bytes) (es : List Entry) → All P es → All P (from_key q es)
All-from_key P q [] h = tt
All-from_key P q (e ∷ es) h = elim (Bool-cases (bytes_le q e.0)) [
  | inl t ↦ rw t h
  | inr t ↦ rw t (All-from_key P q es h.1)
]

not_from : (nk e x : Bytes) → bytes_le x e ≡ false → bytes_le nk x ≡ false → bytes_le nk e ≡ false
not_from nk e x below l = elim (Bool-cases (bytes_le nk e)) [
  | inl t ↦ absurd (cc (l, bytes_le_trans nk e x t (bytes_le_total x e below)))
  | inr t ↦ t
]

-- From a key above the first entry ahead, fewer entries are ahead.
from_key-above :
    (q nk : Bytes) (x : Entry) (xs es : List Entry)
    → Ascending es
    → from_key q es ≡ x ∷ xs
    → bytes_le nk x.0 ≡ false
    → from_key nk es ≡ from_key nk xs
from_key-above q nk x xs [] asc f l = absurd cc
from_key-above q nk x xs (e ∷ es) asc f l = elim (Bool-cases (bytes_le q e.0)) [
  | inl t ↦ let same : e ∷ es ≡ x ∷ xs = rw t at f in ap (from_key nk) same ∙ rw l refl
  | inr t ↦
      let rest : from_key q es ≡ x ∷ xs = rw t at f in
      let below : All (λ y. bytes_le y.0 e.0 ≡ false) (x ∷ xs) =
        subst (All (λ y. bytes_le y.0 e.0 ≡ false)) rest
          (All-from_key (λ y. bytes_le y.0 e.0 ≡ false) q es asc.0) in
      rw (not_from nk e.0 x.0 below.0 l) (from_key-above q nk x xs es asc.1 rest l)
]

module _ (rocks : RocksDb) (laws : CursorLaws rocks) {S : Type 0} (ranger : Ranger S) where
  -- With fuel for the entries ahead, the inner loop does not run out.
  inner_loop-Ends :
      (es : List Entry) (fuel : ℕ) (limit : ℤ) (key_end : Bytes) (cnt : ℕ) (c : rocks.Cursor)
      (s : S)
      → laws.ahead c ≡ es
      → length es < fuel
      → Ends (inner_loop rocks ranger fuel limit key_end cnt c s)
  unfolding inner_loop
  inner_loop-Ends es zero limit key_end cnt c s a l = absurd (omega (arith, l))
  inner_loop-Ends [] (suc fuel) limit key_end cnt c s a l =
      subst
        (λ o. Ends (
          inner_step rocks ranger limit key_end cnt s
            (inner_loop rocks ranger fuel limit key_end (suc cnt) (rocks.next c)) o))
        (sym (laws.current_end c a)) (more cnt s, refl)
  inner_loop-Ends ((k, v) ∷ es) (suc fuel) limit key_end cnt c s a l =
      let s' = ranger.oper s (k, v) in
      let ih =
        inner_loop-Ends es fuel limit key_end (suc cnt) (rocks.next c) s'
          (laws.next_of c (k, v) es a) (omega (arith, l)) in
      subst
        (λ o. Ends (
          inner_step rocks ranger limit key_end cnt s
            (inner_loop rocks ranger fuel limit key_end (suc cnt) (rocks.next c)) o))
        (sym (laws.current_at c (k, v) es a))
        (elim (Bool-cases (until key_end k)) [
          | inl e ↦ rw e (
              after_call-Ends limit (suc cnt) s'
                (inner_loop rocks ranger fuel limit key_end (suc cnt) (rocks.next c) s')
                (ranger.ctx_err (suc cnt) s') ih)
          | inr e ↦ rw e (more cnt s, refl)
        ])

  -- The fields before the time are not all 0xff bytes.
  abbrev pub HasNext : TimeOption → Entry → Type 0
  HasNext opt e = is_some (bump_last (prefix opt.ts_field_index opt.key_separator e.0)) ≡ true

  module _ (db : rocks.Db) (cf : rocks.Family) (opt : TimeOption) where
    after_inner-Ends :
        (again : ℕ → S → Option (S × Option ℕ)) (o : Option (Inner S))
        → Ends o
        → ((m : ℕ) (s : S) → Ends (again m s))
        → Ends (after_inner again o)
    after_inner-Ends again none (i, e) go = absurd cc
    after_inner-Ends again (some (out s err)) e go = ((s, err), refl)
    after_inner-Ends again (some (more m s)) e go = go m s

    time_loop-Ends :
        (fuel inner cnt : ℕ) (q : Bytes) (es : List Entry) (c : rocks.Cursor) (s : S)
        → opt.key_separator ≢ []
        → All (HasNext opt) (laws.entries db cf)
        → laws.ahead c ≡ from_key q (laws.entries db cf)
        → from_key q (laws.entries db cf) ≡ es
        → length (laws.entries db cf) < inner
        → length es < fuel
        → Ends (time_loop rocks ranger inner fuel db cf opt cnt c s)
    unfolding time_loop
    time_loop-Ends zero inner cnt q es c s n h a f li l = absurd (omega (arith, l))
    time_loop-Ends (suc fuel) inner cnt q [] c s n h a f li l =
        let again : Bytes → ℕ → S → Option (S × Option ℕ) =
          λ nk m s'. time_loop rocks ranger inner fuel db cf opt m (rocks.seek_from db cf nk) s' in
        subst (λ o. Ends (time_step rocks ranger inner db cf opt cnt s again o))
          (sym (laws.current_end c (a ∙ f))) ((s, none), refl)
    time_loop-Ends (suc fuel) inner cnt q ((k, v) ∷ es) c s n h a f li l =
        let again : Bytes → ℕ → S → Option (S × Option ℕ) =
          λ nk m s'. time_loop rocks ranger inner fuel db cf opt m (rocks.seek_from db cf nk) s' in
        subst (λ o. Ends (time_step rocks ranger inner db cf opt cnt s again o))
          (sym (laws.current_at c (k, v) es (a ∙ f)))
          (by_next (key_of opt opt.start_ts k).1 (λ nk e m s'.
            let here =
              subst (All (HasNext opt)) f (All-from_key (HasNext opt) q (laws.entries db cf) h) in
            let above =
              hijack-above opt.ts_field_index opt.key_separator (format_int opt.start_ts) k nk n
                here.0 e in
            let fewer =
              from_key-above q nk (k, v) es (laws.entries db cf) (laws.entries_ascend db cf) f
                above in
            time_loop-Ends fuel inner m nk (from_key nk (laws.entries db cf))
              (rocks.seek_from db cf nk) s' n h (laws.seek_of db cf nk) refl li
              (omega (arith, l, length-from_key nk es, ap length fewer))))
      where
        by_next :
            (o : Option Bytes)
            → ((nk : Bytes)
                → o ≡ some nk
                → (m : ℕ) (s' : S)
                → Ends
                    (time_loop rocks ranger inner fuel db cf opt m (rocks.seek_from db cf nk) s'))
            → Ends (
                time_round rocks ranger inner db cf opt cnt s
                  (λ nk m s'.
                    time_loop rocks ranger inner fuel db cf opt m (rocks.seek_from db cf nk) s')
                  k
                  o)
        by_next none go = ((s, none), refl)
        by_next (some nk) go =
            let start = (key_of opt opt.start_ts k).0 in
            after_inner-Ends
              (λ m s'. time_loop rocks ranger inner fuel db cf opt m (rocks.seek_from db cf nk) s')
              (inner_loop rocks ranger inner opt.limit (key_of opt opt.end_ts k).0 cnt
                (rocks.seek_from db cf start) s)
              (inner_loop-Ends (from_key start (laws.entries db cf)) inner opt.limit
                (key_of opt opt.end_ts k).0 cnt (rocks.seek_from db cf start) s
                (laws.seek_of db cf start)
                (omega (arith, li, length-from_key start (laws.entries db cf))))
              (go nk refl)

  -- RangeForeachByTS ends, with fuel above the number of entries of the column family, if the
  -- separator is not empty and in no key are all bytes of the fields before the time 0xff.
  pub range_foreach_by_ts-Ends :
      (db : rocks.Db) (opt : TimeOption) (cf : rocks.Family) (s : S) (fuel : ℕ)
      → rocks.family db opt.cf ≡ some cf
      → opt.key_separator ≢ []
      → All (HasNext opt) (laws.entries db cf)
      → length (laws.entries db cf) < fuel
      → (r : S × Option ℕ) × (range_foreach_by_ts rocks ranger fuel db opt s ≡ returned (some r))
  unfolding range_foreach_by_ts
  range_foreach_by_ts-Ends db opt cf s fuel f n h l =
      let (r, e) =
        time_loop-Ends db cf opt fuel fuel 0 [] (laws.entries db cf) (rocks.seek_to_first db cf) s n
          h (laws.first_of db cf ∙ sym (from_key-nil (laws.entries db cf)))
          (from_key-nil (laws.entries db cf)) l l in
      (r, rw f (ap returned e))

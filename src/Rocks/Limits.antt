-- ===== src/Rocks/Limits.antt =====
-- rocksdb/rocksdb.go, RangeForeach: which calls the limit and the context let it make.
use helper.Base.{
  ℕ, zero, suc, ◌+◌, ◌<◌, ◌≡◌, refl, sym, ap, ◌∙◌, false, Option, none, some, List, [], ◌∷◌,
  if◌then◌else◌, leb, length, take, get_elem?, arith, Bool-cases, inl, inr,
}
use helper.Base.Int.{ℤ, pos, negsuc, ltz}
use helper.KvDb.Order.{Entry, between}
use helper.Rocks.{RocksDb, returned, RangeOption, Ranger, after_oper, range_foreach}
use helper.Rocks.Ranges.{CursorLaws, visit_some, range_foreach-visit_some}

abbrev pub or_error : {S : Type 0} → Option ℕ → S → Option S × Option ℕ → Option S × Option ℕ
or_error none s rest = rest
or_error (some e) s rest = (some s, some e)

-- A call on each of the entries, the first of which is number `suc cnt`, up to one after which the
-- context is done.
abbrev pub until_done : {S : Type 0} → Ranger S → ℕ → List Entry → S → Option S × Option ℕ
until_done r cnt [] s = (some s, none)
until_done r cnt (e ∷ es) s =
    or_error (r.ctx_err (suc cnt) (r.oper s e)) (r.oper s e)
      (until_done r (suc cnt) es (r.oper s e))

-- One more call, if there was no error.
abbrev pub last_call :
    {S : Type 0} → Ranger S → Option Entry → Option S × Option ℕ → Option S × Option ℕ
last_call r (some e) (some s, none) = (some (r.oper s e), none)
last_call r e o = o

-- With a positive limit that there are entries for, the call that reaches it is the last, and the
-- context is not asked after it.
abbrev pub limited_calls : {S : Type 0} → Ranger S → ℤ → List Entry → S → Option S × Option ℕ
limited_calls r (pos (suc n)) es s =
    if leb (suc n) (length es)
    then last_call r (get_elem? es n) (until_done r 0 (take n es) s)
    else until_done r 0 es s
limited_calls r limit es s = until_done r 0 es s

one_more : (cnt : ℕ) → cnt + 1 ≡ suc cnt
one_more cnt = omega arith

from_zero : (n : ℕ) → suc n ≡ 0 + suc n
from_zero n = omega arith

shifted : (cnt n : ℕ) → cnt + suc (suc n) ≡ suc cnt + suc n
shifted cnt n = omega arith

leb-suc : (m n : ℕ) → leb (suc m) (suc n) ≡ leb m n
leb-suc m n = ground arith

module _ {S : Type 0} (r : Ranger S) where
  after_oper-unlimited :
      (limit : ℤ) (cnt : ℕ) (s : S) (rest : Option S × Option ℕ) (err : Option ℕ)
      → ltz (pos 0) limit ≡ false
      → after_oper limit cnt s rest err ≡ or_error err s rest
  after_oper-unlimited limit cnt s rest none h = rw h refl
  after_oper-unlimited limit cnt s rest (some e) h = rw h refl

  visit_some-unlimited :
      (limit : ℤ) (cnt : ℕ) (es : List Entry) (s : S)
      → ltz (pos 0) limit ≡ false
      → visit_some r limit cnt es s ≡ until_done r cnt es s
  visit_some-unlimited limit cnt [] s h = refl
  visit_some-unlimited limit cnt (e ∷ es) s h =
      let s' = r.oper s e in
      after_oper-unlimited limit (suc cnt) s' (visit_some r limit (suc cnt) es s')
        (r.ctx_err (suc cnt) s') h
      ∙ ap (or_error (r.ctx_err (suc cnt) s') s') (visit_some-unlimited limit (suc cnt) es s' h)

  -- The call that reaches the limit.
  after_oper-last :
      (cnt : ℕ) (s : S) (rest : Option S × Option ℕ) (err : Option ℕ)
      → after_oper (pos (suc cnt)) (suc cnt) s rest err ≡ (some s, none)
  after_oper-last cnt s rest none = ground arith
  after_oper-last cnt s rest (some e) = ground arith

  after_oper-below :
      (m cnt : ℕ) (s : S) (rest : Option S × Option ℕ) (err : Option ℕ)
      → cnt < m
      → after_oper (pos m) cnt s rest err ≡ or_error err s rest
  after_oper-below m cnt s rest none h = ground arith
  after_oper-below m cnt s rest (some e) h = ground arith

  last_call-or_error :
      (e : Option Entry) (err : Option ℕ) (s : S) (rest : Option S × Option ℕ)
      → last_call r e (or_error err s rest) ≡ or_error err s (last_call r e rest)
  last_call-or_error e none s rest = refl
  last_call-or_error none (some x) s rest = refl
  last_call-or_error (some e) (some x) s rest = refl

  -- Of n calls and the one that reaches the limit, if there are entries for them.
  abbrev counted : ℕ → ℕ → List Entry → S → Option S × Option ℕ
  counted n cnt es s =
      if leb (suc n) (length es)
      then last_call r (get_elem? es n) (until_done r cnt (take n es) s)
      else until_done r cnt es s

  counted-next :
      (n cnt : ℕ) (e : Entry) (es : List Entry) (s : S)
      → counted (suc n) cnt (e ∷ es) s
        ≡ or_error
            (r.ctx_err (suc cnt) (r.oper s e))
            (r.oper s e)
            (counted n (suc cnt) es (r.oper s e))
  counted-next n cnt e es s = elim (Bool-cases (leb (suc n) (length es))) [
    | inl t ↦
        rw (t, leb-suc (suc n) (length es))
          (rw t (
            last_call-or_error (get_elem? es n) (r.ctx_err (suc cnt) (r.oper s e)) (r.oper s e)
              (until_done r (suc cnt) (take n es) (r.oper s e))))
    | inr t ↦ rw (t, leb-suc (suc n) (length es)) (rw t refl)
  ]

  visit_some-counted :
      (n cnt : ℕ) (es : List Entry) (s : S)
      → visit_some r (pos (cnt + suc n)) cnt es s ≡ counted n cnt es s
  visit_some-counted n cnt [] s = ground arith
  visit_some-counted zero cnt (e ∷ es) s =
      let s' = r.oper s e in
      ap (λ m. visit_some r (pos m) cnt (e ∷ es) s) (one_more cnt)
      ∙ after_oper-last cnt s' (visit_some r (pos (suc cnt)) (suc cnt) es s')
          (r.ctx_err (suc cnt) s')
      ∙ ground arith
  visit_some-counted (suc n) cnt (e ∷ es) s =
      let s' = r.oper s e in
      let err = r.ctx_err (suc cnt) s' in
      after_oper-below (cnt + suc (suc n)) (suc cnt) s'
        (visit_some r (pos (cnt + suc (suc n))) (suc cnt) es s') err (omega arith)
      ∙ ap (or_error err s') (
          ap (λ m. visit_some r (pos m) (suc cnt) es s') (shifted cnt n)
          ∙ visit_some-counted n (suc cnt) es s')
      ∙ sym (counted-next n cnt e es s)

  visit_some-limited_calls :
      (limit : ℤ) (es : List Entry) (s : S) → visit_some r limit 0 es s ≡ limited_calls r limit es s
  visit_some-limited_calls (negsuc n) es s = visit_some-unlimited (negsuc n) 0 es s (ground arith)
  visit_some-limited_calls (pos zero) es s = visit_some-unlimited (pos 0) 0 es s refl
  visit_some-limited_calls (pos (suc n)) es s =
      ap (λ m. visit_some r (pos m) 0 es s) (from_zero n) ∙ visit_some-counted n 0 es s

-- RangeForeach calls back on the entries of the column family whose keys lie from the start key to
-- the end key, both included, in order. It ends with the call after which the context is done and
-- returns its error, or with the call that reaches a positive limit, after which it does not ask the
-- context. An empty end is no bound, and fuel above the number of entries is enough.
pub range_foreach-limited_calls :
    (rocks : RocksDb) (laws : CursorLaws rocks) {S : Type 0} (r : Ranger S) (db : rocks.Db)
    (opt : RangeOption) (cf : rocks.Family) (s : S) (fuel : ℕ)
    → rocks.family db opt.cf ≡ some cf
    → length (laws.entries db cf) < fuel
    → range_foreach rocks r fuel db opt s
      ≡ returned
          (limited_calls r opt.limit (between opt.start_key opt.end_key (laws.entries db cf)) s)
range_foreach-limited_calls rocks laws r db opt cf s fuel f l =
    let es = between opt.start_key opt.end_key (laws.entries db cf) in
    range_foreach-visit_some rocks laws r db opt cf s fuel f l
    ∙ ap returned (visit_some-limited_calls r opt.limit es s)

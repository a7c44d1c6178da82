-- ===== src/Rocks/Hijack.antt =====
-- rocksdb/rocksdb.go, GenHijackTsInKeyByIndex: a key with its time replaced, and the key to go on from.
use helper.Base.{
  ℕ, zero, suc, ◌+◌, ◌-◌, ◌≡◌, refl, sym, ap, ◌∙◌, Bool, true, false, ◌&&◌, ◌||◌, Option, none,
  some, List, [], ◌∷◌, ◌++◌, append_assoc, if◌then◌else◌, ltb, ◌==◌, length, take, drop, replicate,
  arith, Bool-cases, Option-cases, is_some, inl, inr, ◌≢◌,
}
use helper.Base.Text.{Bytes, join, join_more}
use helper.KvDb.Order.{bytes_le}

abbrev pub has_prefix : Bytes → Bytes → Bool
has_prefix [] s = true
has_prefix (c ∷ sep) [] = false
has_prefix (c ∷ sep) (x ∷ s) = (c == x) && has_prefix sep s

-- bytes.Split with a separator that is not empty: the bytes of a separator that are still to be
-- skipped, and the part that is being read.
abbrev pub split_from : Bytes → ℕ → Bytes → Bytes → List Bytes
split_from sep k part [] = part ∷ []
split_from sep (suc k) part (x ∷ s) = split_from sep k part s
split_from sep zero part (x ∷ s) =
    let next = split_from sep (length sep - 1) [] s in
    let same = split_from sep zero (part ++ x ∷ []) s in
    if has_prefix sep (x ∷ s) then part ∷ next else same

abbrev pub split : Bytes → Bytes → List Bytes
split sep s = split_from sep zero [] s

-- The loop from the last byte on that adds one to the first that is not 0xff; `none` if all are.
abbrev pub bump_step : ℕ → Bytes → Option Bytes → Option Bytes
bump_step x s (some t) = some (x ∷ t)
bump_step x s none = if x == 255 then none else some ((x + 1) ∷ s)

abbrev pub bump_last : Bytes → Option Bytes
bump_last [] = none
bump_last (x ∷ s) = bump_step x s (bump_last s)

abbrev or_same : Bytes → Option Bytes → Bytes
or_same s none = s
or_same s (some t) = t

-- The fields before the time, joined. One empty field alone joins to nil.
abbrev pub prefix : ℕ → Bytes → Bytes → Bytes
prefix idx sep key = join (take idx (split sep key)) sep

abbrev joins_to_nil : ℕ → Bytes → Bool
joins_to_nil idx [] = idx == 1
joins_to_nil idx (x ∷ s) = false

abbrev next_key_of : ℕ → Bytes → Option Bytes
next_key_of zero p = none
next_key_of (suc i) p = if joins_to_nil (suc i) p then none else some (or_same p (bump_last p))

-- `copy` into as many zeros as the field is long.
abbrev replaced : Bytes → Bytes → Bytes
replaced field ts = take (length field) ts ++ replicate (length field - length ts) 0

abbrev pub set_field : List Bytes → ℕ → Bytes → List Bytes
set_field [] i ts = []
set_field (f ∷ fs) zero ts = replaced f ts ∷ fs
set_field (f ∷ fs) (suc i) ts = f ∷ set_field fs i ts

-- The key with the time, and the next key, nil as `none`. A negative index, which panics, is left out.
unfoldable pub hijack : ℕ → Bytes → Bytes → Bytes → Bytes × Option Bytes
hijack idx sep ts key =
    let fields = split sep key in
    if (length fields == 1) || ltb (length fields) (idx + 1)
    then (key, none)
    else (join (set_field fields idx ts) sep, next_key_of idx (prefix idx sep key))

bump_last-above : (p q rest : Bytes) → bump_last p ≡ some q → bytes_le q (p ++ rest) ≡ false
bump_last-above [] q rest h = cc
bump_last-above (x ∷ p) q rest h = by_rest (bump_last p) (bump_last-above p) h
  where
    by_rest :
        (o : Option Bytes)
        → ((q rest : Bytes) → o ≡ some q → bytes_le q (p ++ rest) ≡ false)
        → bump_step x p o ≡ some q
        → bytes_le q (x ∷ (p ++ rest)) ≡ false
    by_rest (some t) ih h =
        let same : x ∷ t ≡ q = cc h in
        ap (λ y. bytes_le y (x ∷ (p ++ rest))) (sym same) ∙ ground (arith, ih t rest refl)
    by_rest none ih h = elim (Bool-cases (x == 255)) [
      | inl e ↦ absurd (cc (h, e))
      | inr e ↦
          let same : (x + 1) ∷ p ≡ q = cc (h, e) in
          ap (λ y. bytes_le y (x ∷ (p ++ rest))) (sym same) ∙ ground arith
    ]

skip-has_prefix : (sep s : Bytes) → has_prefix sep s ≡ true → sep ++ drop (length sep) s ≡ s
skip-has_prefix [] s h = refl
skip-has_prefix (c ∷ sep) [] h = cc
skip-has_prefix (c ∷ sep) (x ∷ s) h = ground (arith, skip-has_prefix sep s)

join_more-cons :
    (sep : Bytes) (k : ℕ) (part s : Bytes)
    → join_more (split_from sep k part s) sep ≡ sep ++ join (split_from sep k part s) sep
join_more-cons sep k part [] = refl
join_more-cons sep (suc k) part (x ∷ s) = join_more-cons sep k part s
join_more-cons sep zero part (x ∷ s) = elim (Bool-cases (has_prefix sep (x ∷ s))) [
  | inl e ↦ rw e refl
  | inr e ↦ rw e (join_more-cons sep zero (part ++ x ∷ []) s)
]

join-split_from :
    (c : ℕ) (sep : Bytes) (k : ℕ) (part s : Bytes)
    → join (split_from (c ∷ sep) k part s) (c ∷ sep) ≡ part ++ drop k s
join-split_from c sep zero part [] = refl
join-split_from c sep (suc k) part [] = refl
join-split_from c sep (suc k) part (x ∷ s) = join-split_from c sep k part s
join-split_from c sep zero part (x ∷ s) = elim (Bool-cases (has_prefix (c ∷ sep) (x ∷ s))) [
  | inl e ↦
      let n = length (c ∷ sep) - 1 in
      let skipped : n ≡ length sep = omega arith in
      rw e (
        ap (λ t. part ++ t)
          (join_more-cons (c ∷ sep) n [] s
            ∙ ap (λ t. (c ∷ sep) ++ t) (join-split_from c sep n [] s ∙ ap (λ m. drop m s) skipped)
            ∙ skip-has_prefix (c ∷ sep) (x ∷ s) e))
  | inr e ↦ rw e (join-split_from c sep zero (part ++ x ∷ []) s ∙ append_assoc part (x ∷ []) s)
]

join_more-take :
    (i : ℕ) (fs : List Bytes) (sep : Bytes)
    → (rest : Bytes) × (join_more fs sep ≡ join_more (take i fs) sep ++ rest)
join_more-take zero fs sep = (join_more fs sep, refl)
join_more-take (suc i) [] sep = ([], refl)
join_more-take (suc i) (f ∷ fs) sep =
    let (rest, e) = join_more-take i fs sep in
    (
      rest,
      ap (λ t. sep ++ (f ++ t)) e
          ∙ ap (λ t. sep ++ t) (sym (append_assoc f (join_more (take i fs) sep) rest))
          ∙ sym (append_assoc sep (f ++ join_more (take i fs) sep) rest),
    )

join-take :
    (i : ℕ) (fs : List Bytes) (sep : Bytes)
    → (rest : Bytes) × (join fs sep ≡ join (take i fs) sep ++ rest)
join-take zero fs sep = (join fs sep, refl)
join-take (suc i) [] sep = ([], refl)
join-take (suc i) (f ∷ fs) sep =
    let (rest, e) = join_more-take i fs sep in
    (rest, ap (λ t. f ++ t) e ∙ sym (append_assoc f (join_more (take i fs) sep) rest))

-- The fields before the time are the beginning of the key.
prefix-append :
    (idx c : ℕ) (sep key : Bytes) → (rest : Bytes) × (key ≡ prefix idx (c ∷ sep) key ++ rest)
prefix-append idx c sep key =
    let (rest, e) = join-take idx (split (c ∷ sep) key) (c ∷ sep) in
    (rest, sym (join-split_from c sep zero [] key) ∙ e)

next_key_of-bump_last :
    (idx : ℕ) (p q t : Bytes) → next_key_of idx p ≡ some q → bump_last p ≡ some t → q ≡ t
next_key_of-bump_last zero p q t h b = absurd cc
next_key_of-bump_last (suc i) p q t h b = elim (Bool-cases (joins_to_nil (suc i) p)) [
  | inl e ↦ absurd (cc (h, e))
  | inr e ↦ cc (h, e, b)
]

hijack-above_cons :
    (idx c : ℕ) (sep ts key p q : Bytes)
    → (hijack idx (c ∷ sep) ts key).1 ≡ some q
    → bump_last (prefix idx (c ∷ sep) key) ≡ some p
    → bytes_le q key ≡ false
unfolding hijack
hijack-above_cons idx c sep ts key p q h b =
    let fields = split (c ∷ sep) key in
    let (rest, e) = prefix-append idx c sep key in
    elim (Bool-cases ((length fields == 1) || ltb (length fields) (idx + 1))) [
      | inl few ↦ absurd (cc (h, few))
      | inr more ↦
          let next : next_key_of idx (prefix idx (c ∷ sep) key) ≡ some q = cc (h, more) in
          let same = next_key_of-bump_last idx (prefix idx (c ∷ sep) key) q p next b in
          ap (λ k. bytes_le q k) e
          ∙ ap (λ y. bytes_le y (prefix idx (c ∷ sep) key ++ rest)) same
          ∙ bump_last-above (prefix idx (c ∷ sep) key) p rest b
    ]

-- With a separator, the key to go on from is above the key, if the fields before the time have a byte other than 0xff.
pub hijack-above :
    (idx : ℕ) (sep ts key q : Bytes)
    → sep ≢ []
    → is_some (bump_last (prefix idx sep key)) ≡ true
    → (hijack idx sep ts key).1 ≡ some q
    → bytes_le q key ≡ false
hijack-above idx [] ts key q n b h = absurd (n refl)
hijack-above idx (c ∷ sep) ts key q n b h =
    elim (Option-cases (bump_last (prefix idx (c ∷ sep) key))) [
      | inl e ↦ absurd (cc (e, b))
      | inr (p, e) ↦ hijack-above_cons idx c sep ts key p q h e
    ]

-- ===== src/Migration/Order.antt =====
-- redisw/cmd/migrate.go: the rows of a table in the order of its ids, and those after an id.
use helper.Base.{
  ℕ, zero, suc, ◌≡◌, refl, sym, ap, subst, ◌∙◌, Bool, true, false, List, [], ◌∷◌, ◌++◌, take, drop,
  keep, All, All-map, arith, Bool-cases, inl, inr,
}
use helper.Base.Int.{ℤ, ltz}
use helper.Migration.{Record}

ltz_trans : (a b c : ℤ) → ltz a b ≡ true → ltz b c ≡ true → ltz a c ≡ true
ltz_trans a b c h g = ground arith

ltz_asym : (a b : ℤ) → ltz a b ≡ true → ltz b a ≡ false
ltz_asym a b h = ground arith

ltz_irrefl : (a : ℤ) → ltz a a ≡ false
ltz_irrefl a = ground arith

-- The ids of a table grow.
abbrev pub Ascending : List Record → Type 0
Ascending [] = Unit
Ascending (r ∷ rs) = All (λ x. ltz r.id x.id ≡ true) rs × Ascending rs

keep-all : (p : Record → Bool) (rs : List Record) → All (λ x. p x ≡ true) rs → keep p rs ≡ rs
keep-all p [] h = refl
keep-all p (r ∷ rs) h = rw (h.0, keep-all p rs h.1) refl

abbrev pub after_id : ℤ → List Record → List Record
after_id id = keep (λ r. ltz id r.id)

pub keep_of_All {κ} :
    (P : Record → Type κ) (p : Record → Bool) (rs : List Record) → All P rs → All P (keep p rs)
keep_of_All P p [] h = tt
keep_of_All P p (r ∷ rs) h = elim (Bool-cases (p r)) [
  | inl e ↦ rw e (h.0, keep_of_All P p rs h.1)
  | inr e ↦ rw e (keep_of_All P p rs h.1)
]

-- Past the first row that is left, the others are left.
pub after_id-next :
    (id : ℤ) (t : List Record) (r : Record) (rs : List Record)
    → Ascending t
    → after_id id t ≡ r ∷ rs
    → after_id r.id t ≡ rs
after_id-next id [] r rs asc h = absurd cc
after_id-next id (x ∷ t) r rs asc h = elim (Bool-cases (ltz id x.id)) [
  | inl e ↦
      let later : All (λ y. ltz id y.id ≡ true) t =
        All-map (λ y l. ltz_trans id x.id y.id e l) t asc.0 in
      let same : x ∷ after_id id t ≡ r ∷ rs = rw e at h in
      let tail : after_id id t ≡ rs = cc same in
      let head : x ≡ r = cc same in
      ap (λ y. after_id y.id (x ∷ t)) (sym head)
      ∙ rw (ltz_irrefl x.id)
          (keep-all (λ y. ltz x.id y.id) t asc.0 ∙ sym (keep-all (λ y. ltz id y.id) t later) ∙ tail)
  | inr e ↦
      let same : after_id id t ≡ r ∷ rs = rw e at h in
      let above : All (λ y. ltz x.id y.id ≡ true) (r ∷ rs) =
        subst (All (λ y. ltz x.id y.id ≡ true)) same
          (keep_of_All (λ y. ltz x.id y.id ≡ true) (λ y. ltz id y.id) t asc.0) in
      rw (ltz_asym x.id r.id above.0) (after_id-next id t r rs asc.1 same)
]

abbrev pub last_id : ℤ → List Record → ℤ
last_id id [] = id
last_id id (r ∷ rs) = last_id r.id rs

pub last_id-append :
    (id : ℤ) (xs ys : List Record) → last_id (last_id id xs) ys ≡ last_id id (xs ++ ys)
last_id-append id [] ys = refl
last_id-append id (r ∷ xs) ys = last_id-append r.id xs ys

pub take-drop : (n : ℕ) (xs : List Record) → take n xs ++ drop n xs ≡ xs
take-drop zero xs = refl
take-drop (suc n) [] = refl
take-drop (suc n) (x ∷ xs) = ap (λ ys. x ∷ ys) (take-drop n xs)

-- ===== src/Stats/Extremes.antt =====
-- stats/stats.go, Reset: Min and Max against the totals of the periods that have ended.
use helper.Base.{ℕ, ◌<◌, ◌≡◌, sym, subst, ◌⊎◌, inl, inr, List, [], ◌∷◌, arith, All}
use helper.Base.Int.{ℤ, pos, pos_part, neg_part, ◌≤ℤ◌}
use helper.Stats.{Statistic, new_statistic, reset, raise, lower}

abbrev pub IsPositive : ℤ → Type 0
IsPositive t = neg_part t < pos_part t

abbrev pub Attains : ℤ → List (ℤ × ℤ) → Type 0
Attains m [] = ⊥
Attains m ((t, v) ∷ ps) = (m ≡ t) ⊎ Attains m ps

-- A period that ends with this total and these values, and all of a history, the newest first.
pub complete : Statistic → ℤ × ℤ → Statistic
complete c (t, v) = reset (record c { total = t; value_total = v })

pub complete_all : Statistic → List (ℤ × ℤ) → Statistic
complete_all c [] = c
complete_all c (p ∷ ps) = complete (complete_all c ps) p

abbrev pub Between : ℤ → ℤ → ℤ × ℤ → Type 0
Between low high (t, v) = (low ≤ℤ t) × (t ≤ℤ high)

record Tracks (low high : ℤ) (ps : List (ℤ × ℤ)) : Type 0 where
  between : All (Between low high) ps
  low_attained : Attains low ps
  high_attained : Attains high ps
  low_positive : IsPositive low

complete_lem :
    (c : Statistic) (t v : ℤ)
    → IsPositive t
    → ((complete c (t, v)).min ≡ lower c.min t) × ((complete c (t, v)).max ≡ raise c.max t)
unfolding complete reset
complete_lem c t v p = ground arith

raise_lem : (m x : ℤ) → (m ≤ℤ raise m x) × (x ≤ℤ raise m x) × ((raise m x ≡ m) ⊎ (raise m x ≡ x))
raise_lem m x = ground arith

lower_lem :
    (m x : ℤ)
    → IsPositive m
    → IsPositive x
    → (lower m x ≤ℤ m)
      × (lower m x ≤ℤ x)
      × ((lower m x ≡ m) ⊎ (lower m x ≡ x))
      × IsPositive (lower m x)
lower_lem m x h k = ground arith

widen :
    (l h l' h' : ℤ) (ps : List (ℤ × ℤ))
    → l' ≤ℤ l
    → h ≤ℤ h'
    → All (Between l h) ps
    → All (Between l' h') ps
widen l h l' h' [] a b c = tt
widen l h l' h' ((t, v) ∷ ps) a b c = (omega arith, widen l h l' h' ps a b c.1)

attain_next :
    (m m' t v : ℤ) (ps : List (ℤ × ℤ))
    → (m' ≡ m) ⊎ (m' ≡ t)
    → Attains m ps
    → Attains m' ((t, v) ∷ ps)
attain_next m m' t v ps (inl e) a = inr (subst (λ x. Attains x ps) (sym e) a)
attain_next m m' t v ps (inr e) a = inl e

next_Tracks :
    (l h t v : ℤ) (ps : List (ℤ × ℤ))
    → IsPositive t
    → Tracks l h ps
    → Tracks (lower l t) (raise h t) ((t, v) ∷ ps)
next_Tracks l h t v ps p k =
    let (low_le, low_le_t, low_is, low_pos) = lower_lem l t k.low_positive p in
    let (high_ge, high_ge_t, high_is) = raise_lem h t in
    record {
      between = ((low_le_t, high_ge_t), widen l h _ _ ps low_le high_ge k.between);
      low_attained = attain_next l (lower l t) t v ps low_is k.low_attained;
      high_attained = attain_next h (raise h t) t v ps high_is k.high_attained;
      low_positive = low_pos;
    }

first_Tracks : (t v : ℤ) → IsPositive t → Tracks (lower (pos 0) t) (raise (pos 0) t) ((t, v) ∷ [])
first_Tracks t v p = ground arith

complete_all-Tracks :
    (d : ℕ) (p : ℤ × ℤ) (ps : List (ℤ × ℤ))
    → All (λ (q : ℤ × ℤ). IsPositive q.0) (p ∷ ps)
    → let s = complete_all (new_statistic d) (p ∷ ps) in Tracks s.min s.max (p ∷ ps)
unfolding complete_all
complete_all-Tracks d (t, v) [] h =
    let (e, f) = complete_lem (new_statistic d) t v h.0 in rw (e, f) (first_Tracks t v h.0)
complete_all-Tracks d (t, v) (q ∷ ps) h =
    let (e, f) = complete_lem (complete_all (new_statistic d) (q ∷ ps)) t v h.0 in
    rw (e, f) (next_Tracks _ _ t v (q ∷ ps) h.0 (complete_all-Tracks d q ps h.1))

-- After any periods with totals above zero, and at least one, Min and Max are totals of periods, and
-- the total of every period lies between them. The history is listed with the newest period first.
pub complete_all-extremes :
    (d : ℕ) (p : ℤ × ℤ) (ps : List (ℤ × ℤ))
    → All (λ (q : ℤ × ℤ). IsPositive q.0) (p ∷ ps)
    → let s = complete_all (new_statistic d) (p ∷ ps) in
      All (Between s.min s.max) (p ∷ ps) × Attains s.min (p ∷ ps) × Attains s.max (p ∷ ps)
complete_all-extremes d p ps h =
    let k = complete_all-Tracks d p ps h in (k.between, k.low_attained, k.high_attained)

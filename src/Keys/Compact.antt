-- ===== src/Keys/Compact.antt =====
-- helper.go, CompactString: its length, and when it panics.
use helper.Base.{
  ℕ, ◌+◌, ◌-◌, ◌/◌, ◌≤◌, ◌<◌, ◌≡◌, refl, sym, zero, suc, ◌∙◌, ap, ◌⊎◌, Bool, true, false, ◌||◌,
  none, some, List, [], ◌∷◌, ◌++◌, if◌then◌else◌, leb, ltb, length, length-append, take, drop,
  length-take, length-drop, arith, Bool-cases, inl, inr,
}
use helper.Base.Int.{pos, lez, quot, ◌-ℤ◌}
use helper.Keys.{join_ends, compact_string}

half_lem : (n : ℕ) → 3 ≤ n → quot (pos n -ℤ pos 3) (pos 2) ≡ pos ((n - 3) / 2)
unfolding quot ◌-ℤ◌
half_lem n l = elim (Bool-cases (leb 3 n)) [ inl e ↦ ground arith | inr e ↦ absurd (ground arith) ]

-- The message itself, if it is within the limit or shorter than 5, and otherwise as many of its first
-- as of its last bytes, with three dots between them, that the length is the limit or one less.
abbrev pub Compacted : ℕ → List ℕ → List ℕ → Type 0
Compacted n msg s =
    (((length msg ≤ n) ⊎ (length msg < 5)) × (s ≡ msg))
    ⊎ ((k : ℕ) × (first : List ℕ) × (middle : List ℕ) × (last : List ℕ) × (msg
          ≡ first ++ (middle ++ last))
        × (s ≡ first ++ (46 ∷ 46 ∷ 46 ∷ last))
        × (length first ≡ k)
        × (length last ≡ k)
        × (length s ≤ n)
        × (n ≤ length s + 1))

take-drop : (k : ℕ) (xs : List ℕ) → take k xs ++ drop k xs ≡ xs
take-drop zero xs = refl
take-drop (suc k) [] = refl
take-drop (suc k) (x ∷ xs) = ap (λ ys. x ∷ ys) (take-drop k xs)

sum_suc : (k j : ℕ) → suc (k + j) ≡ suc k + j
sum_suc k j = omega arith

drop-drop : (j k : ℕ) (xs : List ℕ) → drop j (drop k xs) ≡ drop (k + j) xs
drop-drop j zero xs = ap (λ i. drop i xs) (omega arith)
drop-drop zero (suc k) [] = ap (λ i. drop i []) (sum_suc k zero)
drop-drop (suc j) (suc k) [] = ap (λ i. drop i []) (sum_suc k (suc j))
drop-drop j (suc k) (x ∷ xs) = drop-drop j k xs ∙ ap (λ i. drop i (x ∷ xs)) (sum_suc k j)

join_ends-Compacted :
    (msg : List ℕ) (n : ℕ)
    → 3 ≤ n
    → n < length msg
    → (s : List ℕ) × (join_ends msg (pos ((n - 3) / 2)) ≡ some s) × Compacted n msg s
unfolding join_ends
join_ends-Compacted msg n l m =
    let cnt = (n - 3) / 2 in
    let rest = drop cnt msg in
    let gap = length msg - cnt - cnt in
    let first = take cnt msg in
    let last = drop (length msg - cnt) msg in
    let small : leb cnt (length msg) ≡ true = ground arith in
    let last_of : drop gap rest ≡ last =
      drop-drop gap cnt msg ∙ ap (λ k. drop k msg) (omega (arith, l, m)) in
    let parts : msg ≡ first ++ (take gap rest ++ last) = sym (
      ap (λ xs. first ++ (take gap rest ++ xs)) (sym last_of)
      ∙ ap (λ xs. first ++ xs) (take-drop gap rest)
      ∙ take-drop cnt msg) in
    let sizes : (length first ≡ cnt) × (length last ≡ cnt) = (
      omega (arith, l, m, length-take cnt msg),
      omega (arith, l, m, length-drop (length msg - cnt) msg),
    ) in
    let size = length-append first (46 ∷ 46 ∷ 46 ∷ last) in
    (
      first ++ (46 ∷ 46 ∷ 46 ∷ last),
      rw small refl,
      inr (
        cnt,
        first,
        take gap rest,
        last,
        parts,
        refl,
        sizes.0,
        sizes.1,
        omega (arith, l, size, sizes.0, sizes.1),
        omega (arith, l, size, sizes.0, sizes.1),
      ),
    )

-- With a limit of at least 3, CompactString does not panic. A message within the limit or shorter
-- than 5 is returned as it is; of any other it gives as many of the first as of the last bytes with
-- three dots between them, and the result is as long as the limit or one less.
pub compact_string-Compacted :
    (msg : List ℕ) (n : ℕ)
    → 3 ≤ n
    → (s : List ℕ) × (compact_string msg (pos n) ≡ some s) × Compacted n msg s
unfolding compact_string
compact_string-Compacted msg n l = rw (half_lem n l) (
    by_length (lez (pos n) (pos 0)) (leb (length msg + 0) (n + 0)) (ltb (length msg) 5) refl refl
      refl)
  where
    by_length :
        (z b c : Bool)
        → lez (pos n) (pos 0) ≡ z
        → leb (length msg + 0) (n + 0) ≡ b
        → ltb (length msg) 5 ≡ c
        → (s : List ℕ) × ((if z
              then some msg
              else if b || c
              then some msg
              else join_ends msg (pos ((n - 3) / 2)))
            ≡ some s)
          × Compacted n msg s
    by_length true b c p q r = absurd (ground arith)
    by_length false true c p q r = (msg, refl, inl (inl (ground arith), refl))
    by_length false false true p q r = (msg, refl, inl (inr (ground arith), refl))
    by_length false false false p q r = join_ends-Compacted msg n l (ground arith)

drop-length : (msg : List ℕ) → drop (length msg) msg ≡ []
drop-length [] = refl
drop-length (b ∷ msg) = drop-length msg

-- On a message of 5 bytes or more, a limit of 1 makes CompactString panic, and a limit of 2 gives the
-- three dots, which are longer than the limit.
pub compact_string_small :
    (msg : List ℕ)
    → 5 ≤ length msg
    → (compact_string msg (pos 1) ≡ none) × (compact_string msg (pos 2) ≡ some (46 ∷ 46 ∷ 46 ∷ []))
unfolding compact_string join_ends quot ◌-ℤ◌
compact_string_small msg l =
    let tail : drop (length msg - 0) msg ≡ [] =
      ap (λ k. drop k msg) (omega arith) ∙ drop-length msg in
    (ground arith, rw tail (ground arith))

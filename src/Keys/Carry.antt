-- ===== src/Keys/Carry.antt =====
-- bytes.go, NextKey: the carry, and the number that the digits stand for.
use helper.Base.{
  ℕ, suc, ◌+◌, ◌-◌, ◌*◌, ◌%◌, ◌≤◌, ◌≡◌, refl, ◌≢◌, ◌∙◌, sym, ap, ◌⊎◌, true, false, Option, some,
  List, [], ◌∷◌, ◌++◌, append-nil, if◌then◌else◌, leb, length, length-append, length-replicate,
  get_or, set, replicate, All, arith,
}
use helper.Keys.{is_f, next_from, next_key, key_result, next}

-- `onto rs ys` is rs backwards in front of ys.
abbrev onto : List ℕ → List ℕ → List ℕ
onto [] ys = ys
onto (r ∷ rs) ys = onto rs (r ∷ ys)

get_or-onto : (rs ys : List ℕ) (k d : ℕ) → get_or (onto rs ys) (length rs + k) d ≡ get_or ys k d
get_or-onto [] ys k d = ap (λ i. get_or ys i d) (omega arith)
get_or-onto (r ∷ rs) ys k d =
    ap (λ i. get_or (onto rs (r ∷ ys)) i d) (omega arith) ∙ get_or-onto rs (r ∷ ys) (suc k) d

set-onto : (rs ys : List ℕ) (k v : ℕ) → set (onto rs ys) (length rs + k) v ≡ onto rs (set ys k v)
set-onto [] ys k v = ap (λ i. set ys i v) (omega arith)
set-onto (r ∷ rs) ys k v =
    ap (λ i. set (onto rs (r ∷ ys)) i v) (omega arith) ∙ set-onto rs (r ∷ ys) (suc k) v

onto-onto : (xs rs ys : List ℕ) → onto (onto xs rs) ys ≡ onto rs (xs ++ ys)
onto-onto [] rs ys = refl
onto-onto (x ∷ xs) rs ys = onto-onto xs (x ∷ rs) ys

length-onto : (xs rs : List ℕ) → length (onto xs rs) ≡ length xs + length rs
length-onto [] rs = omega arith
length-onto (x ∷ xs) rs = omega (arith, length-onto xs (x ∷ rs))

All-onto : (P : ℕ → Type 0) (xs rs : List ℕ) → All P xs → All P rs → All P (onto xs rs)
All-onto P [] rs h k = k
All-onto P (x ∷ xs) rs h k = All-onto P xs (x ∷ rs) h.1 (h.0, k)

abbrev pub IsF : ℕ → Type 0
IsF b = is_f b ≡ true

-- One round at the byte in front of ys.
next_from_step :
    (b : ℕ) (rs ys : List ℕ)
    → next_from (suc (length rs)) (onto (b ∷ rs) ys) ≡ (
        if is_f b
        then next_from (length rs) (onto rs (48 ∷ ys))
        else some (onto rs ((b + 1) % 256 ∷ ys)))
unfolding next_from
next_from_step b rs ys =
    let at_b : get_or (onto rs (b ∷ ys)) (length rs) 0 ≡ b =
      ap (λ i. get_or (onto rs (b ∷ ys)) i 0) (omega arith) ∙ get_or-onto rs (b ∷ ys) 0 0 in
    let put : (v : ℕ) → set (onto rs (b ∷ ys)) (length rs) v ≡ onto rs (v ∷ ys) =
      λ v. ap (λ i. set (onto rs (b ∷ ys)) i v) (omega arith) ∙ set-onto rs (b ∷ ys) 0 v in
    rw (at_b, put 48, put ((b + 1) % 256)) refl

-- Over digits f, which become 0.
next_from_fs :
    (fs rs : List ℕ) (k : ℕ)
    → All IsF fs
    → next_from (length (fs ++ rs)) (onto (fs ++ rs) (replicate k 48))
      ≡ next_from (length rs) (onto rs (replicate (length fs + k) 48))
next_from_fs [] rs k h = ap (λ n. next_from (length rs) (onto rs (replicate n 48))) (omega arith)
next_from_fs (f ∷ fs) rs k h =
    rw (next_from_step f (fs ++ rs) (replicate k 48), h.0)
      (next_from_fs fs rs (suc k) h.1
        ∙ ap (λ n. next_from (length rs) (onto rs (replicate n 48))) (omega arith))

next_key-some : (key s : List ℕ) → next_from (length key) key ≡ some s → next_key key ≡ next s
unfolding next_key next_from
next_key-some [] s e = cc
next_key-some (b ∷ key) s e = ap (key_result (b ∷ key)) e

onto-append : (xs rs ys : List ℕ) → onto (xs ++ rs) ys ≡ onto rs (onto xs ys)
onto-append [] rs ys = refl
onto-append (x ∷ xs) rs ys = onto-append xs rs (x ∷ ys)

-- A key from its bytes in the order of the loop, from the last to the first.
split_lem :
    (before fs : List ℕ) (d : ℕ) → onto (onto fs [] ++ d ∷ onto before []) [] ≡ before ++ d ∷ fs
split_lem before fs d =
    onto-append (onto fs []) (d ∷ onto before []) []
    ∙ onto-onto before [] (d ∷ onto (onto fs []) [])
    ∙ ap (λ ds. before ++ d ∷ ds) (onto-onto fs [] [] ∙ append-nil fs)

-- The loop on a key in that form.
next_from-key :
    (rs fs : List ℕ) (d : ℕ)
    → is_f d ≡ false
    → All IsF fs
    → let key = onto (fs ++ d ∷ rs) [] in
      next_from (length key) key ≡ some (onto rs ((d + 1) % 256 ∷ replicate (length fs) 48))
next_from-key rs fs d n h =
    ap (λ i. next_from i (onto (fs ++ d ∷ rs) [])) (length-onto (fs ++ d ∷ rs) [] ∙ omega arith)
    ∙ next_from_fs fs (d ∷ rs) 0 h
    ∙ next_from_step d rs (replicate (length fs + 0) 48)
    ∙ rw n (
        ap {B = Option (List ℕ)} (λ k. some (onto rs ((d + 1) % 256 ∷ replicate k 48)))
          (omega arith))

-- The last byte that is no digit f goes up by one, modulo 256, all behind it become 0, and all in
-- front of it stays.
pub next_key-carries :
    (before fs : List ℕ) (d : ℕ)
    → is_f d ≡ false
    → All IsF fs
    → next_key (before ++ d ∷ fs) ≡ next (before ++ (d + 1) % 256 ∷ replicate (length fs) 48)
next_key-carries before fs d n h = next_key-some _ _ (
    rw (← split_lem before fs d)
      (next_from-key (onto before []) (onto fs []) d n (All-onto IsF fs [] h tt))
    ∙ ap {B = Option (List ℕ)} (λ ds. some ds)
        (onto-onto before [] _
          ∙ ap (λ k. before ++ (d + 1) % 256 ∷ replicate k 48) (length-onto fs [] ∙ omega arith)))

abbrev pub IsHex : ℕ → Type 0
IsHex b = ((48 ≤ b) × (b ≤ 57)) ⊎ (((65 ≤ b) × (b ≤ 70)) ⊎ ((97 ≤ b) × (b ≤ 102)))

-- The number that a digit stands for, and digits behind a number.
abbrev pub digit : ℕ → ℕ
digit b = if leb b 57 then b - 48 else if leb b 70 then b - 55 else b - 87

abbrev pub value : ℕ → List ℕ → ℕ
value a [] = a
value a (b ∷ bs) = value (a * 16 + digit b) bs

value-append : (a : ℕ) (xs ys : List ℕ) → value a (xs ++ ys) ≡ value (value a xs) ys
value-append a [] ys = refl
value-append a (x ∷ xs) ys = value-append (a * 16 + digit x) xs ys

value-zeros :
    (a : ℕ) (fs : List ℕ) → All IsF fs → value (suc a) (replicate (length fs) 48) ≡ suc (value a fs)
value-zeros a [] h = refl
value-zeros a (f ∷ fs) h =
    let e : a * 16 + digit f ≡ a * 16 + 15 = ground arith in
    ap (λ v. value v (replicate (length fs) 48)) (omega arith)
    ∙ value-zeros (a * 16 + 15) fs h.1
    ∙ ap (λ v. suc (value v fs)) (sym e)

digit-next : (d : ℕ) → IsHex d → is_f d ≡ false → d ≢ 57 → digit ((d + 1) % 256) ≡ suc (digit d)
digit-next d x n e = ground arith

-- NextKey of a text whose last digit other than f is a hexadecimal digit but not 9 gives a text of the same
-- length that stands for the next number.
pub next_key-value :
    (before fs : List ℕ) (d : ℕ)
    → IsHex d
    → is_f d ≡ false
    → All IsF fs
    → d ≢ 57
    → (s : List ℕ) × (next_key (before ++ d ∷ fs) ≡ next s)
      × (value 0 s ≡ suc (value 0 (before ++ d ∷ fs)))
      × (length s ≡ length (before ++ d ∷ fs))
next_key-value before fs d x n h e = (
  before ++ (d + 1) % 256 ∷ replicate (length fs) 48,
  next_key-carries before fs d n h,
  value-append 0 before _
      ∙ ap (λ v. value (value 0 before * 16 + v) (replicate (length fs) 48)) (digit-next d x n e)
      ∙ ap (λ v. value v (replicate (length fs) 48)) (omega arith)
      ∙ value-zeros (value 0 before * 16 + digit d) fs h
      ∙ ap suc (sym (value-append 0 before (d ∷ fs))),
  omega (
    arith,
    length-append before ((d + 1) % 256 ∷ replicate (length fs) 48),
    length-append before (d ∷ fs),
    length-replicate {A = ℕ} (length fs) 48,
  ),
)

-- After a 9, the digit in its place is a colon, which is no hexadecimal digit.
pub next_key-nine :
    (before fs : List ℕ)
    → All IsF fs
    → (next_key (before ++ 57 ∷ fs) ≡ next (before ++ 58 ∷ replicate (length fs) 48)) × ¬ IsHex 58
next_key-nine before fs h = (next_key-carries before fs 57 refl h, ground arith)

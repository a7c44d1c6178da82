-- ===== src/KvDb/Order.antt =====
-- bytes.Compare of the standard library, and the entries of a bucket in the order of their keys.
use helper.Base.{
  ℕ, ◌≡◌, ◌≤◌, refl, Bool, true, false, ◌&&◌, ◌||◌, Option, none, some, List, [], ◌∷◌,
  if◌then◌else◌, ltb, ◌==◌, arith, All, keep, length, bytes_eq, Bool-cases, inl, inr,
}

-- `bytes.Compare(a, b) <= 0`.
abbrev pub bytes_le : List ℕ → List ℕ → Bool
bytes_le [] b = true
bytes_le (x ∷ a) [] = false
bytes_le (x ∷ a) (y ∷ b) = ltb x y || ((x == y) && bytes_le a b)

pub bytes_le_trans :
    (a b c : List ℕ) → bytes_le a b ≡ true → bytes_le b c ≡ true → bytes_le a c ≡ true
bytes_le_trans [] b c h g = refl
bytes_le_trans (x ∷ a) [] c h g = cc
bytes_le_trans (x ∷ a) (y ∷ b) [] h g = cc
bytes_le_trans (x ∷ a) (y ∷ b) (z ∷ c) h g = ground (arith, bytes_le_trans a b c)

pub bytes_le_total : (a b : List ℕ) → bytes_le a b ≡ false → bytes_le b a ≡ true
bytes_le_total [] b h = cc
bytes_le_total (x ∷ a) [] h = refl
bytes_le_total (x ∷ a) (y ∷ b) h = ground (arith, bytes_le_total a b)

abbrev pub Entry : Type 0
Entry = List ℕ × List ℕ

abbrev pub find_key : List ℕ → List Entry → Option (List ℕ)
find_key k [] = none
find_key k ((j, v) ∷ es) = if bytes_eq j k then some v else find_key k es

-- Every key is below the keys after it.
abbrev pub Ascending : List Entry → Type 0
Ascending [] = Unit
Ascending (e ∷ es) = All (λ x. bytes_le x.0 e.0 ≡ false) es × Ascending es

abbrev pub from_key : List ℕ → List Entry → List Entry
from_key start [] = []
from_key start (e ∷ es) = if bytes_le start e.0 then e ∷ es else from_key start es

keep-all : (p : Entry → Bool) (es : List Entry) → All (λ x. p x ≡ true) es → keep p es ≡ es
keep-all p [] h = refl
keep-all p (e ∷ es) h = rw (h.0, keep-all p es h.1) refl

above :
    (start : List ℕ) (e : Entry) (es : List Entry)
    → bytes_le start e.0 ≡ true
    → All (λ x. bytes_le x.0 e.0 ≡ false) es
    → All (λ x. bytes_le start x.0 ≡ true) es
above start e [] h a = tt
above start e (x ∷ es) h a =
    (bytes_le_trans start e.0 x.0 h (bytes_le_total x.0 e.0 a.0), above start e es h a.1)

-- In order, the entries from a key on are those whose key is at least it.
pub from_key-keep :
    (start : List ℕ) (es : List Entry)
    → Ascending es
    → from_key start es ≡ keep (λ x. bytes_le start x.0) es
from_key-keep start [] h = refl
from_key-keep start (e ∷ es) h = elim (Bool-cases (bytes_le start e.0)) [
  | inl at ↦ ground (arith, keep-all (λ x. bytes_le start x.0) es (above start e es at h.0))
  | inr before ↦ ground (arith, from_key-keep start es h.1)
]

-- `len(end) == 0 || bytes.Compare(k, end) <= 0`.
abbrev pub until : List ℕ → List ℕ → Bool
until [] k = true
until (b ∷ bs) k = bytes_le k (b ∷ bs)

-- The keys from start to end, both included; an empty end is no bound.
abbrev pub between : List ℕ → List ℕ → List Entry → List Entry
between start end = keep (λ e. bytes_le start e.0 && until end e.0)

until_of_above :
    (end : List ℕ) (k j : List ℕ) → until end k ≡ false → bytes_le j k ≡ false → until end j ≡ false
until_of_above [] k j h a = h
until_of_above (b ∷ bs) k j h a = elim (Bool-cases (bytes_le j (b ∷ bs))) [
  | inl e ↦ cc (bytes_le_trans k j (b ∷ bs) (bytes_le_total j k a) e)
  | inr e ↦ e
]

pub keep-none :
    (end k : List ℕ) (es : List Entry)
    → until end k ≡ false
    → All (λ x. bytes_le x.0 k ≡ false) es
    → keep (λ e. until end e.0) es ≡ []
keep-none end k [] h a = refl
keep-none end k (e ∷ es) h a = rw (until_of_above end k e.0 h a.0) (keep-none end k es h a.1)

pub keep-keep :
    (p q : Entry → Bool) (es : List Entry) → keep p (keep q es) ≡ keep (λ e. q e && p e) es
keep-keep p q [] = refl
keep-keep p q (e ∷ es) = ground (arith, keep-keep p q es)

pub length-from_key : (start : List ℕ) (es : List Entry) → length (from_key start es) ≤ length es
length-from_key start [] = omega arith
length-from_key start (e ∷ es) = ground (arith, length-from_key start es)

pub from_key-Ascending :
    (start : List ℕ) (es : List Entry) → Ascending es → Ascending (from_key start es)
from_key-Ascending start [] h = tt
from_key-Ascending start (e ∷ es) h = elim (Bool-cases (bytes_le start e.0)) [
  | inl at ↦ rw at h
  | inr before ↦ rw before (from_key-Ascending start es h.1)
]

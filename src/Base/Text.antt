-- ===== src/Base/Text.antt =====
-- Go's strings as lists of bytes: literals, strings.Join, strings.Repeat, and counts of a byte.
use Prim.Native.Nat.{ℕ, zero, suc, ◌+◌}
use Prim.Native.Char.{code}
use Prim.Native.String.{String}
use mathlib.Core.Path.{◌≡◌, refl, ap, sym, ◌∙◌}
use mathlib.Core.Logic.{inl, inr}
use mathlib.Core.List.{List, [], ◌∷◌, ◌++◌, append_assoc, append-nil}
use native.Mathlib.Omega.{arith}
use helper.Base.Tests.{if◌then◌else◌, ◌==◌, ==_iff, Bool-cases}
use helper.Base.Lists.{All}

abbrev pub Bytes : Type 0
Bytes = List ℕ

-- The bytes of an ASCII literal.
abbrev pub codes : String → Bytes
codes String.[] = []
codes (String.◌∷◌ c s) = code c ∷ codes s

abbrev pub join_more : List Bytes → Bytes → Bytes
join_more [] sep = []
join_more (f ∷ fs) sep = sep ++ (f ++ join_more fs sep)

-- strings.Join.
abbrev pub join : List Bytes → Bytes → Bytes
join [] sep = []
join (f ∷ fs) sep = f ++ join_more fs sep

-- strings.Repeat.
abbrev pub repeat : Bytes → ℕ → Bytes
repeat s zero = []
repeat s (suc n) = s ++ repeat s n

-- How often a byte stands in a text.
abbrev pub count_byte : ℕ → Bytes → ℕ
count_byte c [] = 0
count_byte c (x ∷ s) = (if x == c then 1 else 0) + count_byte c s

abbrev pub Lacks : ℕ → Bytes → Type 0
Lacks c s = count_byte c s ≡ 0

pub count_byte-append :
    (c : ℕ) (s t : Bytes) → count_byte c (s ++ t) ≡ count_byte c s + count_byte c t
count_byte-append c [] t = omega arith
count_byte-append c (x ∷ s) t = omega (arith, count_byte-append c s t)

pub count_byte-repeat :
    (c : ℕ) (s : Bytes) (n : ℕ) → count_byte c s ≡ 1 → count_byte c (repeat s n) ≡ n
count_byte-repeat c s zero h = refl
count_byte-repeat c s (suc n) h =
    omega (arith, h, count_byte-append c s (repeat s n), count_byte-repeat c s n h)

-- The parts of a text between the bytes c, the part being read first.
abbrev pub split_from : ℕ → Bytes → Bytes → List Bytes
split_from c part [] = part ∷ []
split_from c part (x ∷ s) =
    let done = split_from c [] s in
    let more = split_from c (part ++ x ∷ []) s in if x == c then part ∷ done else more

abbrev pub split : ℕ → Bytes → List Bytes
split c s = split_from c [] s

split_from-part :
    (c : ℕ) (part f s : Bytes) → Lacks c f → split_from c part (f ++ s) ≡ split_from c (part ++ f) s
split_from-part c part [] s h = ap (λ p. split_from c p s) (sym (append-nil part))
split_from-part c part (x ∷ f) s h = elim (Bool-cases (x == c)) [
  | inl e ↦ absurd (ground (arith, h))
  | inr e ↦
      let rest : Lacks c f = ground (arith, h, e) in
      rw e (
        split_from-part c (part ++ x ∷ []) f s rest
        ∙ ap (λ p. split_from c p s) (append_assoc part (x ∷ []) f))
]

split_from-join :
    (c : ℕ) (part f : Bytes) (fs : List Bytes)
    → All (Lacks c) (f ∷ fs)
    → split_from c part (f ++ join_more fs (c ∷ [])) ≡ (part ++ f) ∷ fs
split_from-join c part f [] h = split_from-part c part f [] h.0
split_from-join c part f (g ∷ fs) h =
    split_from-part c part f (c ∷ g ++ join_more fs (c ∷ [])) h.0
    ∙ rw ((==_iff c c).1 refl) (ap (λ xs. (part ++ f) ∷ xs) (split_from-join c [] g fs h.1))

-- Parts without the separator are read back from their join.
pub split-join :
    (c : ℕ) (f : Bytes) (fs : List Bytes)
    → All (Lacks c) (f ∷ fs)
    → split c (join (f ∷ fs) (c ∷ [])) ≡ f ∷ fs
split-join c f fs h = split_from-join c [] f fs h

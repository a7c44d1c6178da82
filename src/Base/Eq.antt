-- ===== src/Base/Eq.antt =====
-- Go's `==` on the keys of a map: one interface for numbers and texts.
use Prim.Native.Nat.{ℕ}
use Prim.Native.String.{String}
use text.Mathlib.Text.{◌==◌ as text_eq}
use text.Mathlib.TextEquality.{eq_iff as text_eq_iff}
use mathlib.Core.Path.{◌≡◌, refl}
use mathlib.Core.Logic.{◌↔◌}
use mathlib.Core.Bool.{Bool, true, false, ◌&&◌}
use mathlib.Core.List.{List, [], ◌∷◌}
use native.Mathlib.Omega.{arith}
use helper.Base.Tests.{◌==◌, ==_iff}

pub record EqTest {ℓ} (A : Type ℓ) : Type ℓ where
  pub test : A → A → Bool
  pub test_iff : (a b : A) → (test a b ≡ true) ↔ (a ≡ b)

infix 50 ◌=?◌
abbrev pub ◌=?◌ {ℓ} : {A : Type ℓ} ⦃e : EqTest A⦄ → A → A → Bool
◌=?◌ ⦃e⦄ = e.test

pub =?-refl {ℓ} : {A : Type ℓ} ⦃e : EqTest A⦄ (a : A) → (a =? a) ≡ true
=?-refl ⦃e⦄ a = (e.test_iff a a).1 refl

abbrev pub str_eq : String → String → Bool
str_eq = text_eq

pub eq_iff : (a b : String) → (str_eq a b ≡ true) ↔ (a ≡ b)
eq_iff = text_eq_iff

instance abbrev pub nat_eq : EqTest ℕ
nat_eq = record { test = ◌==◌; test_iff = ==_iff }

instance abbrev pub string_eq : EqTest String
string_eq = record { test = str_eq; test_iff = eq_iff }

-- Go's `==` on strings, for texts kept as their bytes.
abbrev pub bytes_eq : List ℕ → List ℕ → Bool
bytes_eq [] [] = true
bytes_eq [] (y ∷ ys) = false
bytes_eq (x ∷ xs) [] = false
bytes_eq (x ∷ xs) (y ∷ ys) = (x == y) && bytes_eq xs ys

pub bytes_eq→eq : (xs ys : List ℕ) → bytes_eq xs ys ≡ true → xs ≡ ys
bytes_eq→eq [] [] h = refl
bytes_eq→eq [] (y ∷ ys) h = cc
bytes_eq→eq (x ∷ xs) [] h = cc
bytes_eq→eq (x ∷ xs) (y ∷ ys) h = ground (arith, bytes_eq→eq xs ys)

pub bytes_eq_refl : (xs : List ℕ) → bytes_eq xs xs ≡ true
bytes_eq_refl [] = refl
bytes_eq_refl (x ∷ xs) = ground (arith, bytes_eq_refl xs)

pub bytes_eq_iff : (xs ys : List ℕ) → (bytes_eq xs ys ≡ true) ↔ (xs ≡ ys)
bytes_eq_iff xs ys = (bytes_eq→eq xs ys, λ e. rw e (bytes_eq_refl ys))

instance abbrev pub bytes_test : EqTest (List ℕ)
bytes_test = record { test = bytes_eq; test_iff = bytes_eq_iff }

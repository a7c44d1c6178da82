-- ===== src/Keys/Tests.antt =====
-- The theorems about keys and cut texts at concrete inputs: 19ff, and a message of eight bytes.
use helper.Base.{ℕ, suc, ◌≡◌, refl, some, List, [], ◌∷◌, length, arith, inr}
use helper.Base.Int.{pos}
use helper.Keys.{next, next_key, compact_string}
use helper.Keys.Carry.{value, next_key-value}
use helper.Keys.Compact.{Compacted, compact_string-Compacted}

next_key-value_example :
    (s : List ℕ) × (next_key (49 ∷ 97 ∷ 102 ∷ []) ≡ next s)
    × (value 0 s ≡ suc (value 0 (49 ∷ 97 ∷ 102 ∷ [])))
    × (length s ≡ 3)
next_key-value_example =
    next_key-value (49 ∷ []) (102 ∷ []) 97 (inr (inr (omega arith, omega arith))) refl (refl, tt)
      (λ e. omega (arith, e))

abbrev message : List ℕ
message = 97 ∷ 98 ∷ 99 ∷ 100 ∷ 101 ∷ 102 ∷ 103 ∷ 104 ∷ []

compact_string-Compacted_example :
    (s : List ℕ) × (compact_string message (pos 7) ≡ some s) × Compacted 7 message s
compact_string-Compacted_example = compact_string-Compacted message 7 (omega arith)

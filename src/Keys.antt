-- ===== src/Keys.antt =====
-- bytes.go and helper.go: the next key of a hexadecimal text, and texts cut to a length. A text is
-- the list of its bytes.
pub mod Carry
pub mod Compact
mod Tests
use helper.Base.{
  ℕ, zero, suc, ◌+◌, ◌-◌, ◌%◌, ◌≡◌, Bool, true, false, ◌||◌, Option, none, some, List, [], ◌∷◌,
  ◌++◌, if◌then◌else◌, ltb, leb, ◌==◌, length, get_or, set, take, drop,
}
use helper.Base.Int.{ℤ, pos, negsuc, ltz, lez, quot, ◌-ℤ◌, pos_part}

-- `s[i] == 'f' || s[i] == 'F'`.
abbrev pub is_f : ℕ → Bool
is_f b = (b == 102) || (b == 70)

-- The loop of NextKey from index i down, the first argument being i + 1; `none` is i < 0.
unfoldable pub next_from : ℕ → List ℕ → Option (List ℕ)
next_from zero s = none
next_from (suc i) s =
    if is_f (get_or s i 0)
    then next_from i (set s i 48)
    else some (set s i ((get_or s i 0 + 1) % 256))

pub data KeyError : Type 0 where
  empty_key all_f : KeyError

pub data KeyResult : Type 0 where
  next : List ℕ → KeyResult
  failed : List ℕ → KeyError → KeyResult

abbrev pub key_result : List ℕ → Option (List ℕ) → KeyResult
key_result key none = failed key all_f
key_result key (some s) = next s

unfoldable pub next_key : List ℕ → KeyResult
unfolding next_from
next_key [] = failed [] empty_key
next_key (b ∷ key) = key_result (b ∷ key) (next_from (length (b ∷ key)) (b ∷ key))

-- `%s...%s` of the two ends, `msg[0:cnt]` and `msg[l-cnt:l]`; a slice out of bounds panics, which is
-- `none`.
unfoldable pub join_ends : List ℕ → ℤ → Option (List ℕ)
join_ends msg (negsuc n) = none
join_ends msg (pos cnt) =
    if leb cnt (length msg)
    then some (take cnt msg ++ (46 ∷ 46 ∷ 46 ∷ drop (length msg - cnt) msg))
    else none

unfoldable pub compact_string : List ℕ → ℤ → Option (List ℕ)
unfolding quot ◌-ℤ◌ join_ends
compact_string msg max_len =
    let l = length msg in
    if lez max_len (pos 0)
    then some msg
    else if lez (pos l) max_len || ltb l 5
    then some msg
    else join_ends msg (quot (max_len -ℤ pos 3) (pos 2))

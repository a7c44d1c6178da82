-- ===== src/IoHelper/Filter.antt =====
-- iohelper/filter/filter.go: the interface of a filter, and the filters of the library.
use helper.Base.{
  ℕ, ◌+◌, ◌/◌, ◌%◌, Bool, true, false, Option, none, some, List, [], ◌∷◌, if◌then◌else◌, ltb,
  length,
}

-- `io.EOF`, the two errors of package source, the one that Read makes for a filter which returns
-- no io.EOF at the end, and all others.
pub data IoError : Type 0 where
  eof modified_not_in_place eof_modified_not_in_place filter_without_eof : IoError
  other_error : ℕ → IoError

-- A slice: its bytes, whether it ends where the buffer's memory ends (`SameSliceBackend`), and
-- whether it begins where the slice that it came from begins.
pub record Chunk : Type 0 where
  pub bytes : List ℕ
  pub same_end : Bool
  pub same_start : Bool

abbrev pub fresh : List ℕ → Chunk
fresh bs = record { bytes = bs; same_end = false; same_start = false }

-- `hash.Hash` of the standard library: what `Write` and `Sum(nil)` do.
pub record HashType : Type 1 where
  pub State : Type 0
  pub write : State → List ℕ → State
  pub sum : State → List ℕ

abbrev pub eof_if : Bool → Option IoError
eof_if true = some eof
eof_if false = none

-- `hex.Encode` writes two digits for each byte.
abbrev pub hex_digit : ℕ → ℕ
hex_digit d = if ltb d 10 then d + 48 else d + 87

abbrev pub to_hex_bytes : List ℕ → List ℕ
to_hex_bytes [] = []
to_hex_bytes (b ∷ bs) = hex_digit (b / 16) ∷ hex_digit (b % 16) ∷ to_hex_bytes bs

module _ (H : HashType) where
  open H use {State, write, sum}

  -- The filters of the package: a `*Hash` with its `onTheFly`, and `ToHex`.
  pub data Filter : Type 0 where
    hash : Bool → State → Filter
    to_hex : Filter

  unfoldable pub new_hash : State → Bool → Filter
  new_hash h on_the_fly = hash on_the_fly h

  -- `if len(p) > 0 { h.Write(p) }`.
  write_some : State → List ℕ → State
  write_some h p = if ltb 0 (length p) then write h p else h

  unfoldable pub process_hash : Bool → State → Chunk → Bool → Filter × Chunk × Option IoError
  unfolding write_some
  process_hash true h p at_end = (hash true (write_some h p.bytes), p, eof_if at_end)
  process_hash false h p true = (hash false h, fresh (sum h), some eof)
  process_hash false h p false = (hash false (write h p.bytes), fresh [], none)

  unfoldable pub process_to_hex : Chunk → Bool → Chunk × Option IoError
  process_to_hex p at_end =
      (if ltb 0 (length p.bytes) then fresh (to_hex_bytes p.bytes) else fresh [], eof_if at_end)

  unfoldable pub process : Filter → Chunk → Bool → Filter × Chunk × Option IoError
  unfolding process_hash process_to_hex
  process (hash on_the_fly h) p at_end = process_hash on_the_fly h p at_end
  process to_hex p at_end = (to_hex, (process_to_hex p at_end).0, (process_to_hex p at_end).1)

-- ===== src/Codec.antt =====
-- codec/aescbc.go and codec/aescfb.go: the ciphers as filters. What crypto/cipher does to blocks and
-- streams is a parameter.
pub mod Streaming
pub mod Padding
mod Tests
use helper.Base.{
  ℕ, ◌-◌, ◌%◌, ◌≡◌, Bool, true, false, Option, none, some, List, [], ◌∷◌, ◌++◌, if◌then◌else◌, ◌==◌,
  length, replicate,
}
use helper.IoHelper.Filter.{IoError, Chunk, fresh, eof_if}

-- A `cipher.Stream` or a `cipher.BlockMode`: what it makes of its state and of the bytes.
pub record Cipher : Type 1 where
  pub State : Type 0
  pub block_size : ℕ
  pub crypt : State → List ℕ → State × List ℕ

-- `append(p, bytes.Repeat([]byte{byte(pad)}, pad)...)`, unless the length is a multiple.
unfoldable pub pad : ℕ → List ℕ → List ℕ
pad size p =
    let remainder = length p % size in
    let missing = size - remainder in
    if remainder == 0 then p else p ++ replicate missing (missing % 256)

module _ (C : Cipher) where
  open C use {State, block_size, crypt}

  -- `if len(p) > 0 { obj.BC.CryptBlocks(out, p) }`.
  unfoldable pub crypt_some : State → List ℕ → State × List ℕ
  crypt_some s [] = (s, [])
  crypt_some s (b ∷ p) = crypt s (b ∷ p)

  -- `CBCCrypto.Process`; the filter is the state of its BlockMode.
  unfoldable pub process_cbc : State → Chunk → Bool → State × Chunk × Option IoError
  unfolding crypt_some pad
  process_cbc s p at_end =
      let (s', out) = crypt_some s (pad block_size p.bytes) in (s', fresh out, eof_if at_end)

  -- `CFBCrypto.Process`.
  unfoldable pub process_cfb : State → Chunk → Bool → State × Chunk × Option IoError
  process_cfb s p at_end = let (s', out) = crypt s p.bytes in (s', fresh out, eof_if at_end)

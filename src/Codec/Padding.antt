-- ===== src/Codec/Padding.antt =====
-- codec/aescbc.go: All through a CBC filter.
use helper.Base.{
  ℕ, suc, ◌+◌, ◌-◌, ◌%◌, ◌<◌, ◌≡◌, refl, ◌∙◌, sym, ap, Bool, true, false, none, some, List, [], ◌∷◌,
  ◌++◌, arith, length, length-append, length-replicate, append_assoc, replicate, ◌==◌, Bool-cases,
  inl, inr, ==_iff, All,
}
use native.Mathlib.Nat.{mod-lt, mod-add-mod, mod_self, add-mod, zero-mod}
use helper.IoHelper.Filter.{eof, fresh, eof_if}
use helper.IoHelper.Source.{Reader}
use helper.IoHelper.Pump.{all, Pumped}
use helper.IoHelper.Stream.{
  concat, reads, source_of, plain_sink, Ended, Behaviour, nexts, outputs, all-ends,
}
use helper.IoHelper.Fresh.{whole_chunk, kept_of, fresh_data, fresh_eof}
use helper.Codec.{Cipher, pad, crypt_some, process_cbc}

-- What `cipher.BlockMode` promises of whole blocks: it goes on where it stopped.
pub record BlockLaws (C : Cipher) : Type 0 where
  pub size_positive : 0 < C.block_size
  pub crypt_append :
      (s : C.State) (a b : List ℕ)
      → length a % C.block_size ≡ 0
      → C.crypt s (a ++ b)
        ≡ ((C.crypt (C.crypt s a).0 b).0, (C.crypt s a).1 ++ (C.crypt (C.crypt s a).0 b).1)
  pub crypt_nil : (s : C.State) → C.crypt s [] ≡ (s, [])

-- Every read padded on its own.
abbrev pub pad_each : ℕ → List (List ℕ) → List ℕ
pad_each size [] = []
pad_each size (bs ∷ bss) = pad size bs ++ pad_each size bss

abbrev IsBlocks : ℕ → List ℕ → Type 0
IsBlocks size p = length p % size ≡ 0

pad-IsBlocks : (size : ℕ) (p : List ℕ) → 0 < size → IsBlocks size (pad size p)
unfolding pad
pad-IsBlocks size p l = elim (Bool-cases (length p % size == 0)) [
  | inl whole ↦ rw whole ((==_iff (length p % size) 0).0 whole)
  | inr part ↦
      let missing = size - length p % size in
      let filled : length p % size + missing ≡ size = omega (arith, mod-lt (length p) l) in
      rw
        (
          part,
          length-append p (replicate missing (missing % 256)),
          length-replicate missing (missing % 256),
        )
        (sym (mod-add-mod (length p) size missing) ∙ ap (λ n. n % size) filled ∙ mod_self size)
]

pad_whole : (size : ℕ) (p : List ℕ) → IsBlocks size p → pad size p ≡ p
unfolding pad
pad_whole size p e = rw e refl

pad_each-blocks :
    (size : ℕ) (bss : List (List ℕ)) → All (IsBlocks size) bss → pad_each size bss ≡ concat bss
pad_each-blocks size [] h = refl
pad_each-blocks size (bs ∷ bss) h = rw (pad_whole size bs h.0, pad_each-blocks size bss h.1) refl

append-IsBlocks :
    (size : ℕ) (a b : List ℕ) → IsBlocks size a → IsBlocks size b → IsBlocks size (a ++ b)
append-IsBlocks size a b h k =
    ap (λ n. n % size) (length-append a b)
    ∙ add-mod (length a) (length b) size
    ∙ rw (h, k) (zero-mod size)

pad_each-IsBlocks : (size : ℕ) (bss : List (List ℕ)) → 0 < size → IsBlocks size (pad_each size bss)
pad_each-IsBlocks size [] l = zero-mod size
pad_each-IsBlocks size (bs ∷ bss) l =
    append-IsBlocks size (pad size bs) (pad_each size bss) (pad-IsBlocks size bs l)
      (pad_each-IsBlocks size bss l)

module _ (C : Cipher) (laws : BlockLaws C) where
  open C use {State, block_size, crypt}
  open laws use {size_positive, crypt_append, crypt_nil}

  crypt_some_lem : (s : State) (p : List ℕ) → crypt_some C s p ≡ crypt s p
  unfolding crypt_some
  crypt_some_lem s [] = sym (crypt_nil s)
  crypt_some_lem s (b ∷ p) = refl

  pub cbc_lem :
      (s : State) (bs : List ℕ) (at_end : Bool)
      → process_cbc C s (whole_chunk bs) at_end
        ≡ ((crypt s (pad block_size bs)).0, fresh (crypt s (pad block_size bs)).1, eof_if at_end)
  unfolding process_cbc
  cbc_lem s bs at_end = rw (crypt_some_lem s (pad block_size bs)) refl

  abbrev blockwise : Behaviour (process_cbc C) State
  blockwise = record {
    filters = λ s. s ∷ [];
    next = λ s bs. (crypt s (pad block_size bs)).0;
    output = λ s bs. (crypt s (pad block_size bs)).1;
    kept = λ s bs _. kept_of (crypt s (pad block_size bs)).1;
    last_filters = λ s bs. (crypt s (pad block_size bs)).0 ∷ [];
    last_output = λ s bs. (crypt s (pad block_size bs)).1;
    last_kept = λ s bs _. kept_of (crypt s (pad block_size bs)).1;
    on_data = λ s bs r o ws. fresh_data (process_cbc C) s _ bs _ r o ws (cbc_lem s bs false);
    on_eof = λ s bs r o ws. fresh_eof (process_cbc C) s _ bs _ r o ws (cbc_lem s bs true);
  }

  outputs-blockwise :
      (s : State) (bss : List (List ℕ)) (last : List ℕ)
      → outputs (process_cbc C) blockwise s bss
          ++ (crypt (nexts (process_cbc C) blockwise s bss) (pad block_size last)).1
        ≡ (crypt s (pad_each block_size bss ++ pad block_size last)).1
  outputs-blockwise s [] last = refl
  outputs-blockwise s (bs ∷ bss) last =
      let p = pad block_size bs in
      let rest = pad_each block_size bss ++ pad block_size last in
      append_assoc (crypt s p).1 _ _
      ∙ ap (λ out. (crypt s p).1 ++ out) (outputs-blockwise (crypt s p).0 bss last)
      ∙ rw (append_assoc, crypt_append s p rest (pad-IsBlocks block_size bs size_positive)) refl

  state-blockwise :
      (s : State) (bss : List (List ℕ)) (last : List ℕ)
      → (crypt (nexts (process_cbc C) blockwise s bss) (pad block_size last)).0
        ≡ (crypt s (pad_each block_size bss ++ pad block_size last)).0
  state-blockwise s [] last = refl
  state-blockwise s (bs ∷ bss) last =
      let p = pad block_size bs in
      let rest = pad_each block_size bss ++ pad block_size last in
      state-blockwise (crypt s p).0 bss last
      ∙ rw (append_assoc, crypt_append s p rest (pad-IsBlocks block_size bs size_positive)) refl

  -- All through a CBC filter writes what the cipher makes of the reads, each padded on its own.
  pub all-pads_each :
      (s : State) (bss : List (List ℕ)) (last : List ℕ) (r : Reader) (extra : ℕ) (c : Bool)
      → let (s', out) = crypt s (pad_each block_size bss ++ pad block_size last) in
        Ended
          (process_cbc C)
          (all
            (process_cbc C)
            (length bss + suc extra)
            (source_of (process_cbc C) (s ∷ []) (reads bss ((last, some eof) ∷ r)) none)
            (plain_sink (process_cbc C) [])
            c)
          (length out)
          none
          out
          (s' ∷ [])
          c
  all-pads_each s bss last r extra c =
      rw (outputs-blockwise s bss last, state-blockwise s bss last) at
        (all-ends (process_cbc C) blockwise s bss last r extra c)

module _ (E : Cipher) (e_laws : BlockLaws E) (start : Cipher.State E) (D : Cipher)
    (d_laws : BlockLaws D) (d_start : Cipher.State D) where
  -- A text that All encrypts through a CBC filter and decrypts again, from reads of whole blocks,
  -- comes out with padding in it: every read of the text that was not a whole number of blocks has
  -- its padding behind it, also in the middle of the text, and the padding is never taken off.
  pub all-leaves_padding :
      (text_reads : List (List ℕ)) (text_last : List ℕ) (code_reads : List (List ℕ))
      (code_last : List ℕ) (extra : ℕ) (c : Bool) (written : Pumped (process_cbc E))
      → ((p : List ℕ) → length p % E.block_size ≡ 0 → (D.crypt d_start (E.crypt start p).1).1 ≡ p)
      → all
          (process_cbc E)
          (length text_reads + suc extra)
          (source_of
            (process_cbc E)
            (start ∷ [])
            (reads text_reads ((text_last, some eof) ∷ []))
            none)
          (plain_sink (process_cbc E) [])
          c
        ≡ some written
      → concat code_reads ++ code_last ≡ written.sink.writer.written
      → All (λ bs. length bs % D.block_size ≡ 0) code_reads
      → length code_last % D.block_size ≡ 0
      → (read_back : Pumped (process_cbc D)) × (all
            (process_cbc D)
            (length code_reads + suc extra)
            (source_of
              (process_cbc D)
              (d_start ∷ [])
              (reads code_reads ((code_last, some eof) ∷ []))
              none)
            (plain_sink (process_cbc D) [])
            c
          ≡ some read_back)
        × (read_back.sink.writer.written
            ≡ pad_each E.block_size text_reads ++ pad E.block_size text_last)
        × (read_back.err ≡ none)
  all-leaves_padding text_reads text_last code_reads code_last extra c written inverse ran cut whole
        whole_last =
      let first = all-pads_each E e_laws start text_reads text_last [] extra c in
      let second = all-pads_each D d_laws d_start code_reads code_last [] extra c in
      let same : written ≡ first.result = cc (ran, first.returns) in
      let size = E.block_size in
      let padded = pad_each size text_reads ++ pad size text_last in
      (
        second.result,
        second.returns,
        second.written_is
            ∙ ap (λ p. (D.crypt d_start p).1)
                (rw
                  (
                    pad_each-blocks D.block_size code_reads whole,
                    pad_whole D.block_size code_last whole_last,
                  )
                  (cut
                    ∙ ap (λ (w : Pumped (process_cbc E)). w.sink.writer.written) same
                    ∙ first.written_is))
            ∙ inverse padded (
                append-IsBlocks size _ _ (pad_each-IsBlocks size text_reads e_laws.size_positive)
                  (pad-IsBlocks size text_last e_laws.size_positive)),
        second.err_is,
      )

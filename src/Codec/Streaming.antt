-- ===== src/Codec/Streaming.antt =====
-- codec/aescfb.go: All through a CFB filter, and back.
use helper.Base.{
  ℕ, suc, ◌+◌, ◌≡◌, refl, ◌∙◌, ap, Bool, true, false, none, some, List, [], ◌∷◌, ◌++◌, length,
  append_assoc,
}
use helper.IoHelper.Filter.{eof, fresh, eof_if}
use helper.IoHelper.Source.{Reader}
use helper.IoHelper.Pump.{all, Pumped}
use helper.IoHelper.Stream.{
  concat, reads, source_of, plain_sink, Ended, Behaviour, nexts, outputs, all-ends,
}
use helper.IoHelper.Fresh.{whole_chunk, kept_of, fresh_data, fresh_eof}
use helper.Codec.{Cipher, process_cfb}

-- What `cipher.Stream` promises: it goes on where it stopped, however its input is cut.
pub record StreamLaws (C : Cipher) : Type 0 where
  pub crypt_nil : (s : C.State) → C.crypt s [] ≡ (s, [])
  pub crypt_append :
      (s : C.State) (a b : List ℕ)
      → C.crypt s (a ++ b)
        ≡ ((C.crypt (C.crypt s a).0 b).0, (C.crypt s a).1 ++ (C.crypt (C.crypt s a).0 b).1)

module _ (C : Cipher) (laws : StreamLaws C) where
  open C use {State, crypt}
  open laws use {crypt_nil, crypt_append}

  cfb_lem :
      (s : State) (bs : List ℕ) (at_end : Bool)
      → process_cfb C s (whole_chunk bs) at_end
        ≡ ((crypt s bs).0, fresh (crypt s bs).1, eof_if at_end)
  unfolding process_cfb
  cfb_lem s bs at_end = refl

  abbrev streaming : Behaviour (process_cfb C) State
  streaming = record {
    filters = λ s. s ∷ [];
    next = λ s bs. (crypt s bs).0;
    output = λ s bs. (crypt s bs).1;
    kept = λ s bs _. kept_of (crypt s bs).1;
    last_filters = λ s bs. (crypt s bs).0 ∷ [];
    last_output = λ s bs. (crypt s bs).1;
    last_kept = λ s bs _. kept_of (crypt s bs).1;
    on_data = λ s bs r o ws. fresh_data (process_cfb C) s _ bs _ r o ws (cfb_lem s bs false);
    on_eof = λ s bs r o ws. fresh_eof (process_cfb C) s _ bs _ r o ws (cfb_lem s bs true);
  }

  outputs-streaming :
      (s : State) (bss : List (List ℕ)) (last : List ℕ)
      → outputs (process_cfb C) streaming s bss
          ++ (crypt (nexts (process_cfb C) streaming s bss) last).1
        ≡ (crypt s (concat bss ++ last)).1
  outputs-streaming s [] last = refl
  outputs-streaming s (bs ∷ bss) last =
      append_assoc (crypt s bs).1 _ _
      ∙ ap (λ out. (crypt s bs).1 ++ out) (outputs-streaming (crypt s bs).0 bss last)
      ∙ rw (append_assoc, crypt_append s bs (concat bss ++ last)) refl

  state-streaming :
      (s : State) (bss : List (List ℕ)) (last : List ℕ)
      → (crypt (nexts (process_cfb C) streaming s bss) last).0 ≡ (crypt s (concat bss ++ last)).0
  state-streaming s [] last = refl
  state-streaming s (bs ∷ bss) last =
      state-streaming (crypt s bs).0 bss last
      ∙ rw (append_assoc, crypt_append s bs (concat bss ++ last)) refl

  -- All through a CFB filter writes what the cipher makes of the whole text, however the source is
  -- cut into reads.
  pub all-streams :
      (s : State) (bss : List (List ℕ)) (last : List ℕ) (r : Reader) (extra : ℕ) (c : Bool)
      → let out = (crypt s (concat bss ++ last)).1 in
        Ended
          (process_cfb C)
          (all
            (process_cfb C)
            (length bss + suc extra)
            (source_of (process_cfb C) (s ∷ []) (reads bss ((last, some eof) ∷ r)) none)
            (plain_sink (process_cfb C) [])
            c)
          (length out)
          none
          out
          ((crypt s (concat bss ++ last)).0 ∷ [])
          c
  all-streams s bss last r extra c =
      rw (outputs-streaming s bss last, state-streaming s bss last) at
        (all-ends (process_cfb C) streaming s bss last r extra c)

module _ (E : Cipher) (e_laws : StreamLaws E) (start : Cipher.State E) (D : Cipher)
    (d_laws : StreamLaws D) (d_start : Cipher.State D) where
  -- A text that All writes through a CFB encrypter comes out unchanged, with no error, when All
  -- reads what was written through the decrypter that inverts it, and both runs may cut their reads
  -- in any way.
  pub all-decrypts :
      (text_reads : List (List ℕ)) (text_last : List ℕ) (code_reads : List (List ℕ))
      (code_last : List ℕ) (extra : ℕ) (c : Bool) (written : Pumped (process_cfb E))
      → ((p : List ℕ) → (D.crypt d_start (E.crypt start p).1).1 ≡ p)
      → all
          (process_cfb E)
          (length text_reads + suc extra)
          (source_of
            (process_cfb E)
            (start ∷ [])
            (reads text_reads ((text_last, some eof) ∷ []))
            none)
          (plain_sink (process_cfb E) [])
          c
        ≡ some written
      → concat code_reads ++ code_last ≡ written.sink.writer.written
      → (read_back : Pumped (process_cfb D)) × (all
            (process_cfb D)
            (length code_reads + suc extra)
            (source_of
              (process_cfb D)
              (d_start ∷ [])
              (reads code_reads ((code_last, some eof) ∷ []))
              none)
            (plain_sink (process_cfb D) [])
            c
          ≡ some read_back)
        × (read_back.sink.writer.written ≡ concat text_reads ++ text_last)
        × (read_back.err ≡ none)
  all-decrypts text_reads text_last code_reads code_last extra c written inverse ran cut =
      let first = all-streams E e_laws start text_reads text_last [] extra c in
      let second = all-streams D d_laws d_start code_reads code_last [] extra c in
      let same : written ≡ first.result = cc (ran, first.returns) in
      (
        second.result,
        second.returns,
        second.written_is
            ∙ ap (λ p. (D.crypt d_start p).1)
                (cut
                  ∙ ap (λ (w : Pumped (process_cfb E)). w.sink.writer.written) same
                  ∙ first.written_is)
            ∙ inverse (concat text_reads ++ text_last),
        second.err_is,
      )

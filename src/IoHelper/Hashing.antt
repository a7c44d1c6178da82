-- ===== src/IoHelper/Hashing.antt =====
-- iohelper/filter/filter.go under iohelper/pump/pump.go: a source with one filter of the library.
use helper.Base.{
  ℕ, suc, ◌+◌, ◌≡◌, refl, ◌<◌, Bool, true, false, Option, none, some, List, [], ◌∷◌, ◌++◌, arith,
  length, append-nil, take-length, ◌∙◌, sym,
}
use helper.IoHelper.Filter.{eof, HashType, hash, to_hex, to_hex_bytes, process}
use helper.IoHelper.Source.{Reader, read}
use helper.IoHelper.Sink.{write as write_sink}
use helper.IoHelper.Pump.{step, all}
use helper.IoHelper.Stream.{
  concat, reads, source_of, plain_sink, write_plain, Ended, Behaviour, outputs, nexts, all-ends,
}

-- What `hash.Hash` promises: writes add up, an empty one adds nothing, and a sum is not empty.
pub record HashLaws (H : HashType) : Type 0 where
  pub write_append : (h : H.State) (a b : List ℕ) → H.write (H.write h a) b ≡ H.write h (a ++ b)
  pub write_nil : (h : H.State) → H.write h [] ≡ h
  pub sum_some : (h : H.State) → 0 < length (H.sum h)

-- DataFilterOutput after a read through ToHex.
abbrev hex_kept : List ℕ → Option (List ℕ)
hex_kept [] = none
hex_kept (b ∷ bs) = some (to_hex_bytes (b ∷ bs))

module _ (H : HashType) (laws : HashLaws H) where
  open H use {State, write, sum}
  open laws use {write_append, write_nil, sum_some}

  snooping_data :
      (h : State) (bs : List ℕ) (r : Reader) (o : Option (List ℕ)) (ws : List ℕ)
      → step
          (process H)
          (source_of (process H) (hash true h ∷ []) ((bs, none) ∷ r) o)
          (plain_sink (process H) ws)
        ≡ record {
          source = source_of (process H) (hash true (write h bs) ∷ []) r none;
          sink = plain_sink (process H) (ws ++ bs);
          n = length bs;
          err = none;
        }
  unfolding step read process write_sink
  snooping_data h [] r o ws = rw (append-nil, write_nil h) refl
  snooping_data h (b ∷ bs) r o ws =
      ground (arith, take-length bs, write_plain (process H) ws (b ∷ bs))

  snooping_eof :
      (h : State) (bs : List ℕ) (r : Reader) (o : Option (List ℕ)) (ws : List ℕ)
      → step
          (process H)
          (source_of (process H) (hash true h ∷ []) ((bs, some eof) ∷ r) o)
          (plain_sink (process H) ws)
        ≡ record {
          source = source_of (process H) (hash true (write h bs) ∷ []) r none;
          sink = plain_sink (process H) (ws ++ bs);
          n = length bs;
          err = some eof;
        }
  unfolding step read process write_sink
  snooping_eof h [] r o ws = rw (append-nil, write_nil h) refl
  snooping_eof h (b ∷ bs) r o ws =
      ground (arith, take-length bs, write_plain (process H) ws (b ∷ bs))

  consuming_data :
      (h : State) (bs : List ℕ) (r : Reader) (o : Option (List ℕ)) (ws : List ℕ)
      → step
          (process H)
          (source_of (process H) (hash false h ∷ []) ((bs, none) ∷ r) o)
          (plain_sink (process H) ws)
        ≡ record {
          source = source_of (process H) (hash false (write h bs) ∷ []) r none;
          sink = plain_sink (process H) (ws ++ []);
          n = 0;
          err = none;
        }
  unfolding step read process write_sink
  consuming_data h bs r o ws = rw append-nil refl

  consuming_eof :
      (h : State) (bs : List ℕ) (r : Reader) (o : Option (List ℕ)) (ws : List ℕ)
      → step
          (process H)
          (source_of (process H) (hash false h ∷ []) ((bs, some eof) ∷ r) o)
          (plain_sink (process H) ws)
        ≡ record {
          source = source_of (process H) (hash false h ∷ []) r (some (sum h));
          sink = plain_sink (process H) (ws ++ sum h);
          n = length (sum h);
          err = some eof;
        }
  unfolding step read process write_sink
  consuming_eof h bs r o ws = ground (arith, sum_some h, write_plain (process H) ws (sum h))

  hex_data :
      (bs : List ℕ) (r : Reader) (o : Option (List ℕ)) (ws : List ℕ)
      → step
          (process H)
          (source_of (process H) (to_hex ∷ []) ((bs, none) ∷ r) o)
          (plain_sink (process H) ws)
        ≡ record {
          source = source_of (process H) (to_hex ∷ []) r (hex_kept bs);
          sink = plain_sink (process H) (ws ++ to_hex_bytes bs);
          n = length (to_hex_bytes bs);
          err = none;
        }
  unfolding step read process write_sink
  hex_data [] r o ws = rw (append-nil) refl
  hex_data (b ∷ bs) r o ws = ground (arith, write_plain (process H) ws (to_hex_bytes (b ∷ bs)))

  hex_eof :
      (bs : List ℕ) (r : Reader) (o : Option (List ℕ)) (ws : List ℕ)
      → step
          (process H)
          (source_of (process H) (to_hex ∷ []) ((bs, some eof) ∷ r) o)
          (plain_sink (process H) ws)
        ≡ record {
          source = source_of (process H) (to_hex ∷ []) r (hex_kept bs);
          sink = plain_sink (process H) (ws ++ to_hex_bytes bs);
          n = length (to_hex_bytes bs);
          err = some eof;
        }
  unfolding step read process write_sink
  hex_eof [] r o ws = rw (append-nil) refl
  hex_eof (b ∷ bs) r o ws = ground (arith, write_plain (process H) ws (to_hex_bytes (b ∷ bs)))

  abbrev snooping : Behaviour (process H) State
  snooping = record {
    filters = λ h. hash true h ∷ [];
    next = λ h bs. write h bs;
    output = λ _ bs. bs;
    kept = λ _ _ _. none;
    last_filters = λ h bs. hash true (write h bs) ∷ [];
    last_output = λ _ bs. bs;
    last_kept = λ _ _ _. none;
    on_data = λ h bs r o ws. snooping_data h bs r o ws;
    on_eof = λ h bs r o ws. snooping_eof h bs r o ws;
  }

  abbrev consuming : Behaviour (process H) State
  consuming = record {
    filters = λ h. hash false h ∷ [];
    next = λ h bs. write h bs;
    output = λ _ _. [];
    kept = λ _ _ _. none;
    last_filters = λ h _. hash false h ∷ [];
    last_output = λ h _. sum h;
    last_kept = λ h _ _. some (sum h);
    on_data = λ h bs r o ws. consuming_data h bs r o ws;
    on_eof = λ h bs r o ws. consuming_eof h bs r o ws;
  }

  abbrev hexing : Behaviour (process H) (Unit {0})
  hexing = record {
    filters = λ _. to_hex ∷ [];
    next = λ s _. s;
    output = λ _ bs. to_hex_bytes bs;
    kept = λ _ bs _. hex_kept bs;
    last_filters = λ _ _. to_hex ∷ [];
    last_output = λ _ bs. to_hex_bytes bs;
    last_kept = λ _ bs _. hex_kept bs;
    on_data = λ _ bs r o ws. hex_data bs r o ws;
    on_eof = λ _ bs r o ws. hex_eof bs r o ws;
  }

  nexts-snooping :
      (h : State) (bss : List (List ℕ)) → nexts (process H) snooping h bss ≡ write h (concat bss)
  nexts-snooping h [] = sym (write_nil h)
  nexts-snooping h (bs ∷ bss) = nexts-snooping (write h bs) bss ∙ write_append h bs (concat bss)

  nexts-consuming :
      (h : State) (bss : List (List ℕ)) → nexts (process H) consuming h bss ≡ write h (concat bss)
  nexts-consuming h [] = sym (write_nil h)
  nexts-consuming h (bs ∷ bss) = nexts-consuming (write h bs) bss ∙ write_append h bs (concat bss)

  outputs-snooping :
      (h : State) (bss : List (List ℕ)) → outputs (process H) snooping h bss ≡ concat bss
  outputs-snooping h [] = refl
  outputs-snooping h (bs ∷ bss) = rw (outputs-snooping (write h bs) bss) refl

  outputs-consuming : (h : State) (bss : List (List ℕ)) → outputs (process H) consuming h bss ≡ []
  outputs-consuming h [] = refl
  outputs-consuming h (bs ∷ bss) = outputs-consuming (write h bs) bss

  to_hex_bytes-append : (a b : List ℕ) → to_hex_bytes (a ++ b) ≡ to_hex_bytes a ++ to_hex_bytes b
  to_hex_bytes-append [] b = refl
  to_hex_bytes-append (x ∷ a) b = rw (to_hex_bytes-append a b) refl

  outputs-hexing :
      (bss : List (List ℕ)) → outputs (process H) hexing tt bss ≡ to_hex_bytes (concat bss)
  outputs-hexing [] = refl
  outputs-hexing (bs ∷ bss) = rw (outputs-hexing bss, to_hex_bytes-append bs (concat bss)) refl

  -- A hash filter on the fly passes a source through unchanged, however it is cut into reads, and
  -- has then digested all its bytes, those of the last read included.
  pub all-hashes_on_the_fly :
      (h : State) (bss : List (List ℕ)) (last : List ℕ) (r : Reader) (extra : ℕ) (c : Bool)
      → let bs = concat bss ++ last in
        Ended
          (process H)
          (all
            (process H)
            (length bss + suc extra)
            (source_of (process H) (hash true h ∷ []) (reads bss ((last, some eof) ∷ r)) none)
            (plain_sink (process H) [])
            c)
          (length bs)
          none
          bs
          (hash true (write h bs) ∷ [])
          c
  all-hashes_on_the_fly h bss last r extra c =
      rw (← write_append h (concat bss) last, ← nexts-snooping h bss)
        (rw (outputs-snooping h bss) at (all-ends (process H) snooping h bss last r extra c))

  -- A hash filter that consumes its input writes one thing into the sink: the sum of all bytes read
  -- before the read that returns io.EOF. Bytes which come together with io.EOF are left out.
  pub all-sums_consumed :
      (h : State) (bss : List (List ℕ)) (last : List ℕ) (r : Reader) (extra : ℕ) (c : Bool)
      → let digest = sum (write h (concat bss)) in
        Ended
          (process H)
          (all
            (process H)
            (length bss + suc extra)
            (source_of (process H) (hash false h ∷ []) (reads bss ((last, some eof) ∷ r)) none)
            (plain_sink (process H) [])
            c)
          (length digest)
          none
          digest
          (hash false (write h (concat bss)) ∷ [])
          c
  all-sums_consumed h bss last r extra c =
      rw (← nexts-consuming h bss)
        (rw (outputs-consuming h bss) at (all-ends (process H) consuming h bss last r extra c))

  -- ToHex writes the two hexadecimal digits of every byte, however the source is cut into reads.
  pub all-writes_hex :
      (bss : List (List ℕ)) (last : List ℕ) (r : Reader) (extra : ℕ) (c : Bool)
      → let digits = to_hex_bytes (concat bss ++ last) in
        Ended
          (process H)
          (all
            (process H)
            (length bss + suc extra)
            (source_of (process H) (to_hex ∷ []) (reads bss ((last, some eof) ∷ r)) none)
            (plain_sink (process H) [])
            c)
          (length digits)
          none
          digits
          (to_hex ∷ [])
          c
  all-writes_hex bss last r extra c =
      rw (to_hex_bytes-append (concat bss) last)
        (rw (outputs-hexing bss) at (all-ends (process H) hexing tt bss last r extra c))

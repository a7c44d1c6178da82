-- ===== src/IoHelper/Stream.antt =====
-- iohelper/pump/pump.go: the loop of All, once for every kind of filter chain. A `Behaviour` says
-- what one step does with a read that gives data and with the read that ends the input.
use helper.Base.{
  ℕ, suc, ◌+◌, ◌≡◌, refl, ap, ◌∙◌, Bool, true, false, Option, none, some, List, [], ◌∷◌, ◌++◌,
  arith, length, length-append, append_assoc, append-nil,
}
use helper.IoHelper.Filter.{IoError, eof, Chunk}
use helper.IoHelper.Source.{Source, Reader, close as close_source}
use helper.IoHelper.Sink.{Sink, write, close as close_sink}
use helper.IoHelper.Pump.{Pumped, step, pump, all, after_step}

abbrev pub concat : List (List ℕ) → List ℕ
concat [] = []
concat (bs ∷ bss) = bs ++ concat bss

-- Reads that return these bytes and no error, and then the reads of `r`.
abbrev pub reads : List (List ℕ) → Reader → Reader
reads [] r = r
reads (bs ∷ bss) r = (bs, none) ∷ reads bss r

module _ {F : Type 0} (process : F → Chunk → Bool → F × Chunk × Option IoError) where
  abbrev pub source_of : List F → Reader → Option (List ℕ) → Source process
  source_of fs r out = record {
    reader = r;
    filters = fs;
    data_filter_output = out;
    is_closed = false;
  }

  abbrev pub plain_sink : List ℕ → Sink process
  plain_sink bs = record {
    writer = record { written = bs; failures = [] };
    filters = [];
    is_closed = false;
  }

  pub write_plain :
      (ws bs : List ℕ) → write process (plain_sink ws) bs ≡ (plain_sink (ws ++ bs), length bs, none)
  unfolding write
  write_plain ws [] = rw append-nil refl
  write_plain ws (b ∷ bs) = ground arith

  -- How a run of All ended: its total, its error, what the sink's writer holds, the filters of the
  -- source, and whether both ends are closed.
  pub record Ended (o : Option (Pumped process)) (total : ℕ) (err : Option IoError) (bs : List ℕ)
      (fs : List F) (closed : Bool) : Type 0 where
    pub result : Pumped process
    pub returns : o ≡ some result
    pub total_is : result.total ≡ total
    pub err_is : result.err ≡ err
    pub written_is : result.sink.writer.written ≡ bs
    pub filters_are : result.source.filters ≡ fs
    pub source_closed : result.source.is_closed ≡ closed
    pub sink_closed : result.sink.is_closed ≡ closed

  -- `S` is what the filters remember: `filters` are the filters then, `next` and `output` what a
  -- read with data makes of them, `last_filters` and `last_output` what the last read does.
  pub record Behaviour (S : Type 0) : Type 0 where
    pub filters : S → List F
    pub next : S → List ℕ → S
    pub output : S → List ℕ → List ℕ
    pub kept : S → List ℕ → Option (List ℕ) → Option (List ℕ)
    pub last_filters : S → List ℕ → List F
    pub last_output : S → List ℕ → List ℕ
    pub last_kept : S → List ℕ → Option (List ℕ) → Option (List ℕ)
    pub on_data :
        (s : S) (bs : List ℕ) (r : Reader) (o : Option (List ℕ)) (ws : List ℕ)
        → step process (source_of (filters s) ((bs, none) ∷ r) o) (plain_sink ws) ≡ record {
          source = source_of (filters (next s bs)) r (kept s bs o);
          sink = plain_sink (ws ++ output s bs);
          n = length (output s bs);
          err = none;
        }
    pub on_eof :
        (s : S) (bs : List ℕ) (r : Reader) (o : Option (List ℕ)) (ws : List ℕ)
        → step process (source_of (filters s) ((bs, some eof) ∷ r) o) (plain_sink ws) ≡ record {
          source = source_of (last_filters s bs) r (last_kept s bs o);
          sink = plain_sink (ws ++ last_output s bs);
          n = length (last_output s bs);
          err = some eof;
        }

  module _ {S : Type 0} (b : Behaviour S) where
    open b use {filters, next, output, kept, last_filters, last_output, last_kept, on_data, on_eof}

    abbrev pub nexts : S → List (List ℕ) → S
    nexts s [] = s
    nexts s (bs ∷ bss) = nexts (next s bs) bss

    abbrev pub outputs : S → List (List ℕ) → List ℕ
    outputs s [] = []
    outputs s (bs ∷ bss) = output s bs ++ outputs (next s bs) bss

    abbrev keeps : S → List (List ℕ) → Option (List ℕ) → Option (List ℕ)
    keeps s [] o = o
    keeps s (bs ∷ bss) o = keeps (next s bs) bss (kept s bs o)

    -- The rounds of the loop that read data.
    pub pump-reads :
        (bss : List (List ℕ)) (s : S) (fuel : ℕ) (c : Bool) (r : Reader) (o : Option (List ℕ))
        (ws : List ℕ) (total : ℕ)
        → pump process
            (length bss + fuel)
            c
            (source_of (filters s) (reads bss r) o)
            (plain_sink ws)
            total
          ≡ pump process fuel c
              (source_of (filters (nexts s bss)) r (keeps s bss o))
              (plain_sink (ws ++ outputs s bss))
              (total + length (outputs s bss))
    unfolding pump after_step
    pump-reads [] s fuel c r o ws total =
        let e : 0 + fuel ≡ fuel = omega arith in
        let t : total + 0 ≡ total = omega arith in rw (e, t, append-nil) refl
    pump-reads (bs ∷ bss) s fuel c r o ws total =
        let e : suc (length bss) + fuel ≡ suc (length bss + fuel) = omega arith in
        let t : total + length (outputs s (bs ∷ bss))
            ≡ total + length (output s bs) + length (outputs (next s bs) bss) =
          omega (arith, length-append (output s bs) (outputs (next s bs) bss)) in
        rw (e, t, ← append_assoc)
          (ap (after_step process (pump process (length bss + fuel) c) c total)
              (on_data s bs (reads bss r) o ws)
            ∙ pump-reads bss (next s bs) fuel c r (kept s bs o) (ws ++ output s bs)
                (total + length (output s bs)))

    last_read :
        (c : Bool) (s : S) (last : List ℕ) (r : Reader) (o : Option (List ℕ)) (ws : List ℕ)
        (extra total : ℕ)
        → total ≡ length ws
        → Ended
            (pump process
              (suc extra)
              c
              (source_of (filters s) ((last, some eof) ∷ r) o)
              (plain_sink ws)
              total)
            (length (ws ++ last_output s last))
            none
            (ws ++ last_output s last)
            (last_filters s last)
            c
    unfolding pump after_step close_source close_sink
    last_read true s last r o ws extra total e = rw (on_eof s last r o ws) (record {
      result = _;
      returns = refl;
      total_is = omega (arith, length-append ws (last_output s last));
      err_is = refl;
      written_is = refl;
      filters_are = refl;
      source_closed = refl;
      sink_closed = refl;
    })
    last_read false s last r o ws extra total e = rw (on_eof s last r o ws) (record {
      result = _;
      returns = refl;
      total_is = omega (arith, length-append ws (last_output s last));
      err_is = refl;
      written_is = refl;
      filters_are = refl;
      source_closed = refl;
      sink_closed = refl;
    })

    -- All reads the input to its end and writes each step's output in order.
    pub all-ends :
        (s : S) (bss : List (List ℕ)) (last : List ℕ) (r : Reader) (extra : ℕ) (c : Bool)
        → let bs = outputs s bss ++ last_output (nexts s bss) last in
          Ended
            (all process
              (length bss + suc extra)
              (source_of (filters s) (reads bss ((last, some eof) ∷ r)) none)
              (plain_sink [])
              c)
            (length bs)
            none
            bs
            (last_filters (nexts s bss) last)
            c
    unfolding all
    all-ends s bss last r extra c =
        rw (pump-reads bss s (suc extra) c ((last, some eof) ∷ r) none [] 0) (
          last_read c (nexts s bss) last r (keeps s bss none) (outputs s bss) extra
            (0 + length (outputs s bss)) (omega arith))

-- ===== src/IoHelper/Copy.antt =====
-- iohelper/pump/pump.go: what All does with a source and a sink that have no filters.
use helper.Base.{
  ℕ, suc, ◌+◌, ◌≡◌, refl, Bool, true, false, Option, none, some, List, [], ◌∷◌, ◌++◌, arith, length,
  length-append, append-nil, take-length,
}
use helper.IoHelper.Filter.{IoError, eof, other_error, Chunk}
use helper.IoHelper.Source.{Reader, read, close as close_source}
use helper.IoHelper.Sink.{close as close_sink}
use helper.IoHelper.Pump.{step, pump, all, after_step}
use helper.IoHelper.Stream.{
  concat, reads, source_of, plain_sink, write_plain, Ended, Behaviour, outputs, pump-reads,
  all-ends,
}

module _ {F : Type 0} (process : F → Chunk → Bool → F × Chunk × Option IoError) where
  step_data :
      (bs : List ℕ) (r : Reader) (o : Option (List ℕ)) (ws : List ℕ)
      → step process (source_of process [] ((bs, none) ∷ r) o) (plain_sink process ws) ≡ record {
        source = source_of process [] r o;
        sink = plain_sink process (ws ++ bs);
        n = length bs;
        err = none;
      }
  unfolding step read
  step_data bs r o ws = rw (take-length bs, write_plain process ws bs) refl

  step_eof :
      (bs : List ℕ) (r : Reader) (o : Option (List ℕ)) (ws : List ℕ)
      → step process (source_of process [] ((bs, some eof) ∷ r) o) (plain_sink process ws)
        ≡ record {
          source = source_of process [] r o;
          sink = plain_sink process (ws ++ bs);
          n = length bs;
          err = some eof;
        }
  unfolding step read
  step_eof [] r o ws = rw append-nil refl
  step_eof (b ∷ bs) r o ws = rw (take-length bs, write_plain process ws (b ∷ bs)) (ground arith)

  step_error :
      (bs : List ℕ) (k : ℕ) (r : Reader) (o : Option (List ℕ)) (ws : List ℕ)
      → step process
          (source_of process [] ((bs, some (other_error k)) ∷ r) o)
          (plain_sink process ws)
        ≡ record {
          source = source_of process [] r o;
          sink = plain_sink process ws;
          n = length bs;
          err = some (other_error k);
        }
  unfolding step read
  step_error bs k r o ws = refl

  abbrev copying : Behaviour process (Unit {0})
  copying = record {
    filters = λ _. [];
    next = λ s _. s;
    output = λ _ bs. bs;
    kept = λ _ _ o. o;
    last_filters = λ _ _. [];
    last_output = λ _ bs. bs;
    last_kept = λ _ _ o. o;
    on_data = λ _ bs r o ws. step_data bs r o ws;
    on_eof = λ _ bs r o ws. step_eof bs r o ws;
  }

  outputs-copying : (bss : List (List ℕ)) → outputs process copying tt bss ≡ concat bss
  outputs-copying [] = refl
  outputs-copying (bs ∷ bss) = rw (outputs-copying bss) refl

  -- A source whose reads give data and then end, the last one with or without data of its own, is
  -- copied whole by a sink that takes every write: All returns, in one round for each read, with no
  -- error and the number of bytes, the sink holds all the bytes in their order, and both ends are
  -- closed exactly if that was asked.
  pub all-copies :
      (bss : List (List ℕ)) (last : List ℕ) (r : Reader) (extra : ℕ) (c : Bool)
      → let bs = concat bss ++ last in
        Ended process
          (all process
            (length bss + suc extra)
            (source_of process [] (reads bss ((last, some eof) ∷ r)) none)
            (plain_sink process [])
            c)
          (length bs)
          none
          bs
          []
          c
  all-copies bss last r extra c =
      rw (outputs-copying bss) at (all-ends process copying tt bss last r extra c)

  failed_read :
      (c : Bool) (last : List ℕ) (k : ℕ) (r : Reader) (o : Option (List ℕ)) (ws : List ℕ)
      (extra total : ℕ)
      → total ≡ length ws
      → Ended process
          (pump process
            (suc extra)
            c
            (source_of process [] ((last, some (other_error k)) ∷ r) o)
            (plain_sink process ws)
            total)
          (length (ws ++ last))
          (some (other_error k))
          ws
          []
          c
  unfolding pump after_step close_source close_sink
  failed_read true last k r o ws extra total e = rw (step_error last k r o ws) (record {
    result = _;
    returns = refl;
    total_is = omega (arith, length-append ws last);
    err_is = refl;
    written_is = refl;
    filters_are = refl;
    source_closed = refl;
    sink_closed = refl;
  })
  failed_read false last k r o ws extra total e = rw (step_error last k r o ws) (record {
    result = _;
    returns = refl;
    total_is = omega (arith, length-append ws last);
    err_is = refl;
    written_is = refl;
    filters_are = refl;
    source_closed = refl;
    sink_closed = refl;
  })

  -- If a read fails instead, All returns that error, the sink holds the bytes of the reads before
  -- it, and the bytes of the failed read are counted in the total but not written.
  pub all-reports_error :
      (bss : List (List ℕ)) (last : List ℕ) (k : ℕ) (r : Reader) (extra : ℕ) (c : Bool)
      → Ended process
          (all process
            (length bss + suc extra)
            (source_of process [] (reads bss ((last, some (other_error k)) ∷ r)) none)
            (plain_sink process [])
            c)
          (length (concat bss ++ last))
          (some (other_error k))
          (concat bss)
          []
          c
  unfolding all
  all-reports_error bss last k r extra c =
      rw
        (
          pump-reads process copying bss tt (suc extra) c ((last, some (other_error k)) ∷ r) none []
              0,
          outputs-copying bss,
        )
        (failed_read c last k r _ (concat bss) extra (0 + length (concat bss)) (omega arith))

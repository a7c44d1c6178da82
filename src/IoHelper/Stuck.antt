-- ===== src/IoHelper/Stuck.antt =====
-- iohelper/source/source.go: what happens to an error of the reader below a filter.
use helper.Base.{
  ℕ, zero, suc, ◌+◌, ◌≤◌, ◌≡◌, refl, ap, ◌∙◌, Bool, true, false, Option, none, some, List, [], ◌∷◌,
  arith, replicate,
}
use helper.IoHelper.Filter.{IoError, other_error, Chunk, HashType, hash, process}
use helper.IoHelper.Source.{Source, Reader, read}
use helper.IoHelper.Sink.{Sink, write as write_sink}
use helper.IoHelper.Pump.{step, pump, all, after_step}

module _ {F : Type 0} (p : F → Chunk → Bool → F × Chunk × Option IoError) where
  -- With a filter in place, a read that fails with any error but io.EOF gives the same results as a
  -- read of the same bytes that succeeds: the error of the reader is lost.
  pub read_forgets_error :
      (f : F) (fs : List F) (bs : List ℕ) (k : ℕ) (r : Reader) (o : Option (List ℕ)) (c : Bool)
      → let source = λ (e : Option IoError).
        let src : Source p = record {
          reader = (bs, e) ∷ r;
          filters = f ∷ fs;
          data_filter_output = o;
          is_closed = c;
        } in
        src in
        read p (source (some (other_error k))) ≡ read p (source none)
  unfolding read
  read_forgets_error f fs bs k r o c = ground arith

-- A reader that fails n times and gives nothing.
abbrev pub failing : ℕ → ℕ → Reader
failing k n = replicate n ([], some (other_error k))

module _ (H : HashType) where
  failed_step :
      (h : HashType.State H) (k : ℕ) (r : Reader) (o : Option (List ℕ)) (c : Bool)
      (snk : Sink (process H))
      → step
          (process H)
          (record {
            reader = ([], some (other_error k)) ∷ r;
            filters = hash true h ∷ [];
            data_filter_output = o;
            is_closed = c;
          })
          snk
        ≡ record {
          source = record {
            reader = r;
            filters = hash true h ∷ [];
            data_filter_output = none;
            is_closed = c;
          };
          sink = snk;
          n = 0;
          err = none;
        }
  unfolding step read process write_sink
  failed_step h k r o c snk = refl

  pump-failing :
      (fuel n : ℕ) (h : HashType.State H) (k : ℕ) (o : Option (List ℕ)) (c close : Bool)
      (snk : Sink (process H)) (total : ℕ)
      → fuel ≤ n
      → pump
          (process H)
          fuel
          close
          (record {
            reader = failing k n;
            filters = hash true h ∷ [];
            data_filter_output = o;
            is_closed = c;
          })
          snk
          total
        ≡ none
  unfolding pump after_step
  pump-failing zero n h k o c close snk total l = refl
  pump-failing (suc fuel) zero h k o c close snk total l = absurd (omega arith)
  pump-failing (suc fuel) (suc n) h k o c close snk total l =
      ap (after_step (process H) (pump (process H) fuel close) close total)
        (failed_step h k (failing k n) o c snk)
      ∙ pump-failing fuel n h k none c close snk (total + 0) (omega arith)

  -- While a reader under a hash filter on the fly goes on failing, All does not return: it spends
  -- any number of rounds on as many failing reads.
  pub all-outlasts_errors :
      (fuel n : ℕ) (h : HashType.State H) (k : ℕ) (close : Bool) (snk : Sink (process H))
      → fuel ≤ n
      → all
          (process H)
          fuel
          (record {
            reader = failing k n;
            filters = hash true h ∷ [];
            data_filter_output = none;
            is_closed = false;
          })
          snk
          close
        ≡ none
  unfolding all
  all-outlasts_errors fuel n h k close snk l = pump-failing fuel n h k none false close snk 0 l

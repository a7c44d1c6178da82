-- ===== src/IoHelper/Sink.antt =====
-- iohelper/sink/sink.go: a writer with filters.
use helper.Base.{
  ℕ, Bool, true, false, not, ◌||◌, Option, none, some, List, [], ◌∷◌, ◌++◌, if◌then◌else◌, ◌==◌,
  length,
}
use helper.IoHelper.Filter.{IoError, other_error, Chunk}
use helper.IoHelper.Source.{is_nil}

-- An `io.Writer` that takes all it is given until it fails: the bytes written so far, and the
-- errors of the writes to come, `none` for a write that succeeds, as all do after the last entry.
pub record Writer : Type 0 where
  pub written : List ℕ
  pub failures : List (Option ℕ)

abbrev pub write_with : List ℕ → List ℕ → List (Option ℕ) → Writer × ℕ × Option IoError
write_with bs p [] = (record { written = bs ++ p; failures = [] }, length p, none)
write_with bs p (none ∷ fs) = (record { written = bs ++ p; failures = fs }, length p, none)
write_with bs p (some e ∷ fs) = (record { written = bs; failures = fs }, 0, some (other_error e))

abbrev pub write_writer : Writer → List ℕ → Writer × ℕ × Option IoError
write_writer w p = write_with w.written p w.failures

module _ {F : Type 0} (process : F → Chunk → Bool → F × Chunk × Option IoError) where
  pub record Sink : Type 0 where
    pub writer : Writer
    pub filters : List F
    pub is_closed : Bool

  pub data SinkFiltered : Type 0 where
    passed : List F → Chunk → SinkFiltered
    failed : List F → ℕ → Option IoError → SinkFiltered

  abbrev pub behind : F → SinkFiltered → SinkFiltered
  behind f (passed fs p) = passed (f ∷ fs) p
  behind f (failed fs n e) = failed (f ∷ fs) n e

  unfoldable pub run_filters : List F → Chunk → SinkFiltered
  run_filters [] p = passed [] p
  run_filters (f ∷ fs) p =
      let step = process f p false in
      let rest = run_filters fs step.1 in
      if is_nil step.2
      then behind step.0 rest
      else failed (step.0 ∷ fs) (length step.1.bytes) step.2

  finish_write : Sink → List ℕ → SinkFiltered → Sink × ℕ × Option IoError
  finish_write snk p (failed fs n e) = (record snk { filters = fs }, n, e)
  finish_write snk p (passed fs out) =
      let (w, n, e) = write_writer snk.writer out.bytes in
      (
        record snk { filters = fs; writer = w },
        if not (length p == length out.bytes) || not out.same_start then length p else n,
        e,
      )

  unfoldable pub write : Sink → List ℕ → Sink × ℕ × Option IoError
  unfolding run_filters finish_write
  write snk p =
      if length p == 0
      then (snk, 0, none)
      else finish_write snk p
          (run_filters snk.filters (record { bytes = p; same_end = true; same_start = true }))

  unfoldable pub chain : Sink → List F → Sink
  chain snk fs = record snk { filters = snk.filters ++ fs }

  unfoldable pub close : Sink → Sink
  close snk = record snk { is_closed = true }

  -- `NewBuffer`: a `bytes.Buffer` takes every write.
  unfoldable pub new_buffer : Sink
  new_buffer = record {
    writer = record { written = []; failures = [] };
    filters = [];
    is_closed = false;
  }

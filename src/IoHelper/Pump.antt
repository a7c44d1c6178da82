-- ===== src/IoHelper/Pump.antt =====
-- iohelper/pump/pump.go: from a source into a sink, one read after the other.
use helper.Base.{
  ℕ, zero, suc, ◌+◌, Bool, true, false, Option, none, some, List, [], if◌then◌else◌, ltb, take,
}
use helper.IoHelper.Filter.{IoError, eof, modified_not_in_place, eof_modified_not_in_place, Chunk}
use helper.IoHelper.Source
use helper.IoHelper.Sink
use helper.IoHelper.Source.{Source, ReadResult, is_nil, is_eof}
use helper.IoHelper.Sink.{Sink}

module _ {F : Type 0} (process : F → Chunk → Bool → F × Chunk × Option IoError) where
  pub record Stepped : Type 0 where
    pub source : Source process
    pub sink : Sink process
    pub n : ℕ
    pub err : Option IoError

  -- `toWrite`.
  abbrev output : Option (List ℕ) → List ℕ
  output none = []
  output (some bs) = bs

  -- The first switch of Step: what is written, `(*bufp)[:n]` by default, and the error that is left.
  to_write : ReadResult process → Option IoError → List ℕ × Option IoError
  to_write r (some modified_not_in_place) = (output r.source.data_filter_output, none)
  to_write r (some eof_modified_not_in_place) = (output r.source.data_filter_output, some eof)
  to_write r e = (take r.n r.buffer, e)

  write_out : ReadResult process → Sink process → List ℕ → Stepped
  write_out r w bs =
      let (w', n, e) = Sink.write process w bs in
      record { source = r.source; sink = w'; n = n; err = e }

  -- The second switch of Step.
  finish_step : ReadResult process → Sink process → List ℕ → Option IoError → Stepped
  unfolding write_out
  finish_step r w bs (some eof) =
      let wrote = write_out r w bs in
      if ltb 0 r.n
      then (if is_nil wrote.err then record wrote { err = some eof } else wrote)
      else record { source = r.source; sink = w; n = r.n; err = some eof }
  finish_step r w bs none = write_out r w bs
  finish_step r w bs e = record { source = r.source; sink = w; n = r.n; err = e }

  unfoldable pub step : Source process → Sink process → Stepped
  unfolding to_write finish_step
  step src snk =
      let r = Source.read process src in let out = to_write r r.err in finish_step r snk out.0 out.1

  pub record Pumped : Type 0 where
    pub source : Source process
    pub sink : Sink process
    pub total : ℕ
    pub err : Option IoError

  close_both : Bool → Pumped → Pumped
  close_both true p = record p {
    source = Source.close process p.source;
    sink = Sink.close process p.sink;
  }
  close_both false p = p

  -- What the loop of All does with the results of a step; `again` is its next round.
  unfoldable pub after_step :
      (Source process → Sink process → ℕ → Option Pumped) → Bool → ℕ → Stepped → Option Pumped
  unfolding close_both
  after_step again close_when_done total s =
      if is_nil s.err
      then again s.source s.sink (total + s.n)
      else some (
          close_both close_when_done (record {
            source = s.source;
            sink = s.sink;
            total = total + s.n;
            err = if is_eof s.err then none else s.err;
          }))

  -- The loop of All on fuel; `none` means that the fuel ran out.
  unfoldable pub pump : ℕ → Bool → Source process → Sink process → ℕ → Option Pumped
  pump zero close_when_done src snk total = none
  pump (suc fuel) close_when_done src snk total =
      after_step (pump fuel close_when_done) close_when_done total (step src snk)

  unfoldable pub all : ℕ → Source process → Sink process → Bool → Option Pumped
  unfolding pump
  all fuel src snk close_when_done = pump fuel close_when_done src snk 0

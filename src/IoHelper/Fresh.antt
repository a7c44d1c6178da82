-- ===== src/IoHelper/Fresh.antt =====
-- iohelper/pump/pump.go: a step over one filter that returns its output in a slice of its own.
use helper.Base.{
  ℕ, ◌≡◌, refl, Bool, true, false, Option, none, some, List, [], ◌∷◌, ◌++◌, arith, length,
  append-nil,
}
use helper.IoHelper.Filter.{IoError, eof, Chunk, fresh}
use helper.IoHelper.Source.{read}
use helper.IoHelper.Sink.{write as write_sink}
use helper.IoHelper.Pump.{step}
use helper.IoHelper.Stream.{source_of, plain_sink, write_plain}

-- The chunk that a filter gets from a read.
abbrev pub whole_chunk : List ℕ → Chunk
whole_chunk bs = record { bytes = bs; same_end = true; same_start = true }

-- DataFilterOutput after the read.
abbrev pub kept_of : List ℕ → Option (List ℕ)
kept_of [] = none
kept_of (b ∷ bs) = some (b ∷ bs)

module _ {F : Type 0} (process : F → Chunk → Bool → F × Chunk × Option IoError) where
  pub fresh_data :
      (f g : F) (bs out : List ℕ) (r : List (List ℕ × Option IoError)) (o : Option (List ℕ))
      (ws : List ℕ)
      → process f (whole_chunk bs) false ≡ (g, fresh out, none)
      → step process (source_of process (f ∷ []) ((bs, none) ∷ r) o) (plain_sink process ws)
        ≡ record {
          source = source_of process (g ∷ []) r (kept_of out);
          sink = plain_sink process (ws ++ out);
          n = length out;
          err = none;
        }
  unfolding step read write_sink
  fresh_data f g bs [] r o ws e = rw (e, append-nil) refl
  fresh_data f g bs (x ∷ out) r o ws e = rw e (ground (arith, write_plain process ws (x ∷ out)))

  pub fresh_eof :
      (f g : F) (bs out : List ℕ) (r : List (List ℕ × Option IoError)) (o : Option (List ℕ))
      (ws : List ℕ)
      → process f (whole_chunk bs) true ≡ (g, fresh out, some eof)
      → step process (source_of process (f ∷ []) ((bs, some eof) ∷ r) o) (plain_sink process ws)
        ≡ record {
          source = source_of process (g ∷ []) r (kept_of out);
          sink = plain_sink process (ws ++ out);
          n = length out;
          err = some eof;
        }
  unfolding step read write_sink
  fresh_eof f g bs [] r o ws e = rw (e, append-nil) refl
  fresh_eof f g bs (x ∷ out) r o ws e = rw e (ground (arith, write_plain process ws (x ∷ out)))

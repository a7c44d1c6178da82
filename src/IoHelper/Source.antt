-- ===== src/IoHelper/Source.antt =====
-- iohelper/source/source.go: a reader with filters.
use helper.Base.{
  ℕ, Bool, true, false, not, ◌&&◌, ◌||◌, Option, none, some, List, [], ◌∷◌, ◌++◌, if◌then◌else◌,
  ◌==◌, length,
}
use helper.IoHelper.Filter.{
  IoError, eof, modified_not_in_place, eof_modified_not_in_place, filter_without_eof, Chunk,
}

abbrev pub is_eof : Option IoError → Bool
is_eof (some eof) = true
is_eof _ = false

abbrev pub is_nil : Option IoError → Bool
is_nil none = true
is_nil (some _) = false

-- What an `io.Reader` returns, read by read; after the last entry it returns io.EOF.
abbrev pub Reader : Type 0
Reader = List (List ℕ × Option IoError)

abbrev pub read_reader : Reader → Reader × List ℕ × Option IoError
read_reader [] = ([], [], some eof)
read_reader ((bs, e) ∷ r) = (r, bs, e)

-- The filters of any program: `F` is their type and `process` their method.
module _ {F : Type 0} (process : F → Chunk → Bool → F × Chunk × Option IoError) where
  pub record Source : Type 0 where
    pub reader : Reader
    pub filters : List F
    pub data_filter_output : Option (List ℕ)
    pub is_closed : Bool

  -- The end of the loop over the filters: by its last round, or by a return inside it.
  pub data Filtered : Type 0 where
    passed : List F → Chunk → Option IoError → Filtered
    returned : List F → ℕ → Option IoError → Filtered

  abbrev pub behind : F → Filtered → Filtered
  behind f (passed fs p e) = passed (f ∷ fs) p e
  behind f (returned fs n e) = returned (f ∷ fs) n e

  unfoldable pub run_filters : List F → Chunk → Bool → Option IoError → Filtered
  run_filters [] p at_end e = passed [] p e
  run_filters (f ∷ fs) p at_end e =
      let step = process f p at_end in
      let rest = run_filters fs step.1 at_end step.2 in
      if not (is_nil step.2 || is_eof step.2)
      then returned (step.0 ∷ fs) (length step.1.bytes) step.2
      else if (length step.1.bytes == 0) && is_nil step.2
      then returned (step.0 ∷ fs) 0 (if at_end then some filter_without_eof else none)
      else behind step.0 rest

  -- The source, `n`, the first bytes of the buffer, and `err`.
  pub record ReadResult : Type 0 where
    pub source : Source
    pub n : ℕ
    pub buffer : List ℕ
    pub err : Option IoError

  finish_read : Source → List ℕ → Bool → Filtered → ReadResult
  finish_read src raw at_end (returned fs n e) = record {
    source = record src { filters = fs; data_filter_output = none };
    n = n;
    buffer = raw;
    err = e;
  }
  finish_read src raw at_end (passed fs p e) =
      let src' : Source = record src { filters = fs; data_filter_output = none } in
      let whole : ℕ = length p.bytes in
      if whole == 0
      then record { source = src'; n = 0; buffer = raw; err = e }
      else if p.same_end
      then record {
        source = src';
        n = whole;
        buffer = p.bytes;
        err = if at_end then some eof else e;
      }
      else record {
        source = record src' { data_filter_output = some p.bytes };
        n = whole;
        buffer = raw;
        err = if at_end then some eof_modified_not_in_place else some modified_not_in_place;
      }

  unfoldable pub read : Source → ReadResult
  unfolding run_filters finish_read
  read src =
      let (r, raw, e) = read_reader src.reader in
      let src' : Source = record src { reader = r } in
      if length src.filters == 0
      then record { source = src'; n = length raw; buffer = raw; err = e }
      else finish_read src' raw (is_eof e) (
          run_filters src.filters (record { bytes = raw; same_end = true; same_start = true })
            (is_eof e) e)

  unfoldable pub chain : Source → List F → Source
  chain src fs = record src { filters = src.filters ++ fs }

  unfoldable pub close : Source → Source
  close src = record src { is_closed = true }

  unfoldable pub new : Reader → Source
  new r = record { reader = r; filters = []; data_filter_output = none; is_closed = false }

-- ===== src/IoHelper/Files.antt =====
-- iohelper/iohelper.go: sums of files, copies and downloads, over the pump.
use helper.Base.{
  ℕ, ◌+◌, ◌≡◌, refl, ap, ◌∙◌, String, Bool, true, false, Option, none, some, List, [], ◌∷◌, ◌++◌,
  append-nil, arith, length, if◌then◌else◌, bytes_eq, bytes_eq_iff, str_eq, string_eq,
}
use helper.Base.Dict.{lookup, insert, lookup-insert}
use helper.IoHelper.Filter.{IoError, eof, HashType, Filter, to_hex_bytes, process, new_hash}
use helper.IoHelper.Source.{Reader, new as new_source, chain}
use helper.IoHelper.Sink.{new_buffer}
use helper.IoHelper.Pump.{Pumped, all}
use helper.IoHelper.Stream.{concat, reads, Ended}
use helper.IoHelper.Copy.{all-copies}
use helper.IoHelper.Hashing.{HashLaws, all-sums_consumed}

-- The regular files by path, and the paths that cannot be opened or created.
pub record Disk : Type 0 where
  pub files : List (String × List ℕ)
  pub is_locked : String → Bool

pub data FileError : Type 0 where
  no_hash not_a_file cannot_open cannot_create sum_differs get_failed status_not_ok : FileError
  io_failed : IoError → FileError

-- `spins` is a call that does not return.
pub data Outcome {ℓ} (A : Type ℓ) : Type ℓ where
  ok : A → Outcome A
  failed : FileError → Outcome A
  spins : Outcome A

-- An `*os.File` cuts its bytes into reads in some way and then returns 0 and io.EOF.
pub record Cutting : Type 0 where
  pub cut : List ℕ → List (List ℕ)
  pub concat-cut : (bs : List ℕ) → concat (cut bs) ≡ bs

module _ (H : HashType) (laws : HashLaws H) (start : HashType.State H) (cutting : Cutting) where
  open H use {write, sum}
  open cutting use {cut, concat-cut}

  abbrev pub file_reader : List ℕ → Reader
  file_reader bs = reads (cut bs) (([], some eof) ∷ [])

  -- `pump.All` with a round for every read of the file and the one that ends it.
  abbrev pub rounds : List ℕ → ℕ
  rounds bs = length (cut bs) + 1

  abbrev pub sum_result : Option IoError → List ℕ → Outcome (List ℕ)
  sum_result none bs = ok bs
  sum_result (some e) bs = failed (io_failed e)

  abbrev pub finish_sum : Option (Pumped (process H)) → Outcome (List ℕ)
  finish_sum none = spins
  finish_sum (some p) = sum_result p.err p.sink.writer.written

  -- `snk.Bytes()` after the source has gone through a hash filter that consumes it.
  sum_found : Bool → Option (List ℕ) → Outcome (List ℕ)
  unfolding new_source chain new_buffer new_hash
  sum_found is_locked none = failed not_a_file
  sum_found true (some bs) = failed cannot_open
  sum_found false (some bs) = finish_sum (
      all (process H) (rounds bs)
        (chain (process H) (new_source (process H) (file_reader bs)) (new_hash H start false ∷ []))
        (new_buffer (process H)) true)

  unfoldable pub hashsum_from_file : Bool → Disk → String → Outcome (List ℕ)
  unfolding sum_found
  hashsum_from_file true d fn = sum_found (d.is_locked fn) (lookup fn d.files)
  hashsum_from_file false d fn = failed no_hash

  abbrev compare_sum : List ℕ → Outcome (List ℕ) → Outcome (Unit {0})
  compare_sum expected (ok digest) =
      if bytes_eq (to_hex_bytes digest) expected then ok tt else failed sum_differs
  compare_sum expected (failed e) = failed e
  compare_sum expected spins = spins

  unfoldable pub valid_file_sum : Bool → Disk → String → List ℕ → Outcome (Unit {0})
  unfolding hashsum_from_file
  valid_file_sum is_available d fn expected =
      compare_sum expected (hashsum_from_file is_available d fn)

  Ended-sum :
      (bs : List ℕ) (o : Option (Pumped (process H))) {n : ℕ} {fs : List (Filter H)}
      → Ended (process H) o n none (sum (write start (concat (cut bs)))) fs true
      → finish_sum o ≡ ok (sum (write start bs))
  Ended-sum bs o e =
      ap finish_sum e.returns
      ∙ ap (λ r. sum_result r e.result.sink.writer.written) e.err_is
      ∙ ap (λ ws. ok ws) (e.written_is ∙ ap (λ ws. sum (write start ws)) (concat-cut bs))

  unlisted :
      (d : Disk) (fn : String)
      → lookup fn d.files ≡ none
      → hashsum_from_file true d fn ≡ failed not_a_file
  unfolding hashsum_from_file
  unlisted d fn e = rw e refl

  locked :
      (d : Disk) (fn : String) (bs : List ℕ)
      → lookup fn d.files ≡ some bs
      → d.is_locked fn ≡ true
      → hashsum_from_file true d fn ≡ failed cannot_open
  unfolding hashsum_from_file
  locked d fn bs e l = rw (e, l) refl

  -- The sum of a file that can be read is the sum of its bytes, however its reads are cut.
  pub hashsum_from_file-sums :
      (d : Disk) (fn : String) (bs : List ℕ)
      → lookup fn d.files ≡ some bs
      → d.is_locked fn ≡ false
      → hashsum_from_file true d fn ≡ ok (sum (write start bs))
  unfolding hashsum_from_file
  hashsum_from_file-sums d fn bs found free =
      let ended = all-sums_consumed H laws start (cut bs) [] [] 0 true in
      rw (found, free) (Ended-sum bs _ ended)

  -- A file that passes the check can be read, and its sum in hexadecimal is the expected one.
  pub valid_file_sum_sound :
      (d : Disk) (fn : String) (expected : List ℕ)
      → valid_file_sum true d fn expected ≡ ok tt
      → (bs : List ℕ) × (lookup fn d.files ≡ some bs)
        × (to_hex_bytes (sum (write start bs)) ≡ expected)
  unfolding valid_file_sum
  valid_file_sum_sound d fn expected passed = by_file (lookup fn d.files) (d.is_locked fn) refl refl
    where
      by_file :
          (f : Option (List ℕ)) (b : Bool)
          → lookup fn d.files ≡ f
          → d.is_locked fn ≡ b
          → (bs : List ℕ) × (lookup fn d.files ≡ some bs)
            × (to_hex_bytes (sum (write start bs)) ≡ expected)
      by_file none b e l = cc (unlisted d fn e)
      by_file (some bs) true e l = cc (locked d fn bs e l)
      by_file (some bs) false e l = (
        bs,
        e,
        ground (
          arith,
          hashsum_from_file-sums d fn bs e l,
          bytes_eq_iff (to_hex_bytes (sum (write start bs))) expected,
        ),
      )

  copied_result : Option IoError → ℕ → Outcome ℕ
  copied_result none n = ok n
  copied_result (some e) n = failed (io_failed e)

  copied_to : Disk → String → Option (Pumped (process H)) → Disk × Outcome ℕ
  unfolding copied_result
  copied_to d dst none = (d, spins)
  copied_to d dst (some p) =
      (record d { files = insert dst p.sink.writer.written d.files }, copied_result p.err p.total)

  -- `pump.All` from the file's bytes at that moment.
  copy_into : Disk → String → Option (List ℕ) → Disk × Outcome ℕ
  unfolding copied_to new_source new_buffer
  copy_into d dst none = (d, failed cannot_open)
  copy_into d dst (some bs) = copied_to d dst (
      all (process H) (rounds bs) (new_source (process H) (file_reader bs)) (new_buffer (process H))
        true)

  copy_open : Disk → String → String → Bool → Bool → Option (List ℕ) → Disk × Outcome ℕ
  unfolding copy_into
  copy_open d dst src is_src_locked is_dst_locked none = (d, failed cannot_open)
  copy_open d dst src true is_dst_locked (some _) = (d, failed cannot_open)
  copy_open d dst src false true (some _) = (d, failed cannot_create)
  copy_open d dst src false false (some _) =
      let d1 : Disk = record d { files = insert dst [] d.files } in
      copy_into d1 dst (lookup src d1.files)

  -- `sink.NewFile` empties the destination before a byte of the source is read.
  unfoldable pub copy_file : Disk → String → String → Disk × Outcome ℕ
  unfolding copy_open
  copy_file d dst src = copy_open d dst src (d.is_locked src) (d.is_locked dst) (lookup src d.files)

  copied_to_lem :
      (d : Disk) (dst : String) (bs : List ℕ) (o : Option (Pumped (process H))) {n : ℕ}
      {fs : List (Filter H)}
      → Ended (process H) o n none (concat (cut bs) ++ []) fs true
      → n ≡ length (concat (cut bs) ++ [])
      → let (d', result) = copied_to (record d { files = insert dst [] d.files }) dst o in
        (result ≡ ok (length bs))
        × ((path : String)
            → lookup path d'.files ≡ (if str_eq dst path then some bs else lookup path d.files))
  unfolding copied_to copied_result
  copied_to_lem d dst bs o {n} e m =
      let whole : concat (cut bs) ++ [] ≡ bs = append-nil (concat (cut bs)) ∙ concat-cut bs in
      let p = e.result in
      let ws = p.sink.writer.written in
      let same : ws ≡ bs = e.written_is ∙ whole in
      rw e.returns (
        ap (λ r. copied_result r p.total) e.err_is
            ∙ ap {B = Outcome ℕ} (λ k. ok k) (e.total_is ∙ m ∙ ap length whole),
        λ path. ground (
          arith,
          same,
          lookup-insert dst path ws (insert dst [] d.files),
          lookup-insert dst path [] d.files,
        ),
      )

  -- Of two files that can be opened, a copy makes the destination's bytes those of the source, and
  -- leaves every other path as it was, the source included; its result is the number of bytes. A
  -- file that is copied onto itself is emptied.
  pub copy_file-copies :
      (d : Disk) (dst src : String) (bs : List ℕ)
      → lookup src d.files ≡ some bs
      → d.is_locked src ≡ false
      → d.is_locked dst ≡ false
      → let copied = if str_eq dst src then [] else bs in
        let (d', result) = copy_file d dst src in
        (result ≡ ok (length copied))
        × ((path : String)
            → lookup path d'.files ≡ (if str_eq dst path then some copied else lookup path d.files))
  unfolding copy_file
  copy_file-copies d dst src bs found free_src free_dst =
      rw (found, free_src, free_dst, lookup-insert dst src [] d.files, found)
        (by_same (str_eq dst src))
    where
      copy_of :
          (bs : List ℕ)
          → let (d', result) =
              copy_into (record d { files = insert dst [] d.files }) dst (some bs) in
            (result ≡ ok (length bs))
            × ((path : String)
                → lookup path d'.files ≡ (if str_eq dst path then some bs else lookup path d.files))
      copy_of bs = copied_to_lem d dst bs _ (all-copies (process H) (cut bs) [] [] 0 true) refl

      by_same :
          (b : Bool)
          → let copied = if b then [] else bs in
            let (d', result) =
              copy_into
                (record d { files = insert dst [] d.files })
                dst
                (if b then some [] else some bs) in
            (result ≡ ok (length copied))
            × ((path : String)
                → lookup path d'.files
                  ≡ (if str_eq dst path then some copied else lookup path d.files))
      by_same true = copy_of []
      by_same false = copy_of bs

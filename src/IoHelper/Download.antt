-- ===== src/IoHelper/Download.antt =====
-- iohelper/iohelper.go, HttpDownload: a download with a check before and after.
use helper.Base.{
  ℕ, suc, ◌+◌, ◌≡◌, refl, ap, sym, ◌∙◌, String, Bool, true, false, not, ◌&&◌, ◌<◌, Option, none,
  some, List, [], ◌∷◌, ◌++◌, arith, length, if◌then◌else◌, ltb, ◌==◌, bytes_eq, bytes_eq_iff,
  string_eq, =?-refl,
}
use helper.Base.Dict.{lookup, insert, lookup-insert}
use helper.IoHelper.Filter.{
  IoError, eof, HashType, Filter, hash, to_hex, to_hex_bytes, process, new_hash,
}
use helper.IoHelper.Source.{Reader, new as new_source, chain}
use helper.IoHelper.Sink.{new_buffer}
use helper.IoHelper.Pump.{Pumped, all}
use helper.IoHelper.Stream.{concat, reads, Ended}
use helper.IoHelper.Hashing.{HashLaws, all-hashes_on_the_fly}
use helper.IoHelper.Files.{
  Disk, Outcome, ok, failed, spins, sum_differs, get_failed, status_not_ok, cannot_create,
  io_failed, Cutting, valid_file_sum, valid_file_sum_sound,
}

-- What `http.Get` returns: a status and what reading the body gives, or an error.
pub record Response : Type 0 where
  pub status : ℕ
  pub body : Reader

module _ (H : HashType) (laws : HashLaws H) (start : HashType.State H) (cutting : Cutting) where
  open H use {write, sum}

  -- `h.Sum(nil)` of the filter that was chained.
  digest : List (Filter H) → List ℕ
  digest [] = []
  digest (hash b h ∷ fs) = sum h
  digest (to_hex ∷ fs) = []

  after_sum : List ℕ → List ℕ → Outcome (Unit {0})
  after_sum expected found =
      if ltb 0 (length expected) && not (bytes_eq (to_hex_bytes found) expected)
      then failed sum_differs
      else ok tt

  saved_result : List ℕ → Option IoError → List ℕ → Outcome (Unit {0})
  unfolding after_sum
  saved_result expected none found = after_sum expected found
  saved_result expected (some e) found = failed (io_failed e)

  unfoldable pub saved :
      Disk → String → List ℕ → Option (Pumped (process H)) → Disk × Outcome (Unit {0})
  unfolding saved_result digest
  saved d dst expected none = (d, spins)
  saved d dst expected (some p) = (
    record d { files = insert dst p.sink.writer.written d.files },
    saved_result expected p.err (digest p.source.filters),
  )

  save : ℕ → Disk → String → List ℕ → Bool → Reader → Disk × Outcome (Unit {0})
  unfolding saved new_source chain new_buffer new_hash
  save rounds d dst expected true body = (d, failed cannot_create)
  save rounds d dst expected false body =
      saved (record d { files = insert dst [] d.files }) dst expected
        (all (process H) rounds
          (chain (process H) (new_source (process H) body) (new_hash H start true ∷ []))
          (new_buffer (process H)) false)

  fetch : ℕ → Disk → String → List ℕ → Option Response → Disk × Outcome (Unit {0})
  unfolding save
  fetch rounds d dst expected none = (d, failed get_failed)
  fetch rounds d dst expected (some r) =
      if not (r.status == 200)
      then (d, failed status_not_ok)
      else save rounds d dst expected (d.is_locked dst) r.body

  after_check :
      ℕ → Disk → String → List ℕ → Option Response → Outcome (Unit {0}) → Disk × Outcome (Unit {0})
  unfolding fetch
  after_check rounds d dst expected web (ok _) = (d, ok tt)
  after_check rounds d dst expected web (failed _) = fetch rounds d dst expected web
  after_check rounds d dst expected web spins = (d, spins)

  -- `web` is what a request for the URL returns; `rounds` is fuel for the pump.
  unfoldable pub http_download :
      ℕ → Disk → String → List ℕ → Option Response → Disk × Outcome (Unit {0})
  unfolding after_check
  http_download rounds d dst expected web =
      after_check rounds d dst expected web
        (valid_file_sum H laws start cutting true d dst expected)

  abbrev pub HasSum : Disk → String → List ℕ → Type 0
  HasSum d dst expected =
      (bs : List ℕ) × (lookup dst d.files ≡ some bs)
      × (to_hex_bytes (sum (write start bs)) ≡ expected)

  pub saved_lem :
      (d : Disk) (dst : String) (expected bs : List ℕ) (o : Option (Pumped (process H))) {n : ℕ}
      {c : Bool}
      → Ended (process H) o n none bs (hash true (write start bs) ∷ []) c
      → 0 < length expected
      → (saved d dst expected o).1 ≡ ok tt
      → HasSum (saved d dst expected o).0 dst expected
  unfolding saved saved_result after_sum digest
  saved_lem d dst expected bs o e some_sum done =
      let p = e.result in
      let checked : (saved d dst expected o).1 ≡ after_sum expected (sum (write start bs)) =
        ap (λ o. (saved d dst expected o).1) e.returns
        ∙ ap (λ r. saved_result expected r (digest p.source.filters)) e.err_is
        ∙ ap (λ fs. after_sum expected (digest fs)) e.filters_are in
      (
        bs,
        rw e.returns (
            lookup-insert dst dst p.sink.writer.written d.files
            ∙ rw (=?-refl dst) (ap {B = Option (List ℕ)} (λ ws. some ws) e.written_is)),
        ground (
          arith,
          sym checked ∙ done,
          bytes_eq_iff (to_hex_bytes (sum (write start bs))) expected,
        ),
      )

  -- A download that reports success for an expected sum leaves a file with that sum at the
  -- destination, whether the file was there already or has been fetched; the body of the response
  -- may be cut into reads in any way and end with or without data.
  pub http_download_sound :
      (d : Disk) (dst : String) (expected : List ℕ) (bss : List (List ℕ)) (last : List ℕ)
      (r : Reader) (status extra : ℕ)
      → 0 < length expected
      → let web : Response = record { status = status; body = reads bss ((last, some eof) ∷ r) } in
        let (d', result) = http_download (length bss + suc extra) d dst expected (some web) in
        result ≡ ok tt → HasSum d' dst expected
  unfolding http_download
  http_download_sound d dst expected bss last r status extra some_sum =
      by_check (valid_file_sum H laws start cutting true d dst expected) refl
    where
      web : Response
      web = record { status = status; body = reads bss ((last, some eof) ∷ r) }

      by_lock :
          (b : Bool)
          → let (d', result) = save (length bss + suc extra) d dst expected b web.body in
            result ≡ ok tt → HasSum d' dst expected
      by_lock true done = cc
      by_lock false done =
          saved_lem _ dst expected (concat bss ++ last) _
            (all-hashes_on_the_fly H laws start bss last r extra false) some_sum done

      by_status :
          (b : Bool)
          → let (d', result) =
              (if b
                then (d, failed status_not_ok)
                else save (length bss + suc extra) d dst expected (d.is_locked dst) web.body) in
            result ≡ ok tt → HasSum d' dst expected
      by_status true done = cc
      by_status false done = by_lock (d.is_locked dst) done

      by_check :
          (v : Outcome (Unit {0}))
          → valid_file_sum H laws start cutting true d dst expected ≡ v
          → let (d', result) = after_check (length bss + suc extra) d dst expected (some web) v in
            result ≡ ok tt → HasSum d' dst expected
      by_check (ok u) v done = valid_file_sum_sound H laws start cutting d dst expected v
      by_check (failed e) v done = by_status (not (status == 200)) done
      by_check spins v done = cc

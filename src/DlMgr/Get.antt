-- ===== src/DlMgr/Get.antt =====
-- dlmgr/dlmgr.go, get: the check of a file that is there, the request and the saving. The disk, the
-- hash and the pump are those of iohelper.
use helper.Base.{
  ℕ, suc, ◌+◌, ◌≡◌, ◌≢◌, refl, ◌<◌, ◌⊎◌, inl, inr, String, string_eq, Bool, true, false, Option,
  none, some, List, [], ◌∷◌, ◌++◌, arith, length, append-nil, ltb, bytes_eq, bytes_eq_iff, ap, ◌∙◌,
}
use helper.Base.Dict.{lookup, insert}
use helper.IoHelper.Filter.{eof, HashType, to_hex_bytes, process, new_hash}
use helper.IoHelper.Source.{Source, Reader, new as new_source, chain}
use helper.IoHelper.Sink.{new_buffer}
use helper.IoHelper.Pump.{all}
use helper.IoHelper.Stream.{concat, reads}
use helper.IoHelper.Copy.{all-copies}
use helper.IoHelper.Hashing.{HashLaws, all-hashes_on_the_fly}
use helper.IoHelper.Files.{
  Disk, Outcome, ok, failed, spins, cannot_open, cannot_create, get_failed, Cutting, file_reader,
  rounds, sum_result, finish_sum,
}
use helper.IoHelper.Download.{saved, saved_lem, HasSum}

-- What `get` finds when the context is done: the error of the client, its response, or neither.
pub data Fetched : Type 0 where
  errored timed_out : Fetched
  responded : Reader → Fetched

module _ (H : HashType) (laws : HashLaws H) (start : HashType.State H) (cutting : Cutting) where
  open H use {write, sum}

  abbrev pub same_sum : List ℕ → Outcome (List ℕ) → Outcome Bool
  same_sum hashsum (ok bs) = ok (bytes_eq (to_hex_bytes bs) hashsum)
  same_sum hashsum (failed e) = failed e
  same_sum hashsum spins = spins

  -- `if helper.IsFile(fp)`: the filter that is made for the sum is not chained to the source.
  unfoldable pub check_file : Bool → List ℕ → Option (List ℕ) → Outcome Bool
  unfolding new_source new_buffer
  check_file is_locked hashsum none = ok false
  check_file true hashsum (some bs) = failed cannot_open
  check_file false hashsum (some bs) = same_sum hashsum (
      finish_sum H laws start cutting (
        all (process H) (rounds H laws start cutting bs)
          (new_source (process H) (file_reader H laws start cutting bs)) (new_buffer (process H))
          true))

  -- `if len(dl.Hashsum) != 0 { src.Chain(h) }`.
  unfoldable pub with_hash : Bool → Source (process H) → Source (process H)
  unfolding chain new_hash
  with_hash true src = chain (process H) src (new_hash H start true ∷ [])
  with_hash false src = src

  unfoldable pub save_body : ℕ → Disk → String → List ℕ → Bool → Reader → Disk × Outcome (Unit {0})
  unfolding new_source new_buffer with_hash saved
  save_body fuel d fp hashsum true body = (d, failed cannot_create)
  save_body fuel d fp hashsum false body =
      saved H laws start cutting (record d { files = insert fp [] d.files }) fp hashsum
        (all (process H) fuel (with_hash (ltb 0 (length hashsum)) (new_source (process H) body))
          (new_buffer (process H)) true)

  unfoldable pub after_fetch : ℕ → Disk → String → List ℕ → Fetched → Disk × Outcome (Unit {0})
  unfolding save_body
  after_fetch fuel d fp hashsum errored = (d, failed get_failed)
  after_fetch fuel d fp hashsum timed_out = (d, failed get_failed)
  after_fetch fuel d fp hashsum (responded body) = save_body fuel d fp hashsum (d.is_locked fp) body

  unfoldable pub after_file :
      ℕ → Disk → String → List ℕ → Fetched → Outcome Bool → Disk × Outcome (Unit {0})
  unfolding after_fetch
  after_file fuel d fp hashsum web (ok true) = (d, ok tt)
  after_file fuel d fp hashsum web (ok false) = after_fetch fuel d fp hashsum web
  after_file fuel d fp hashsum web (failed e) = (d, failed e)
  after_file fuel d fp hashsum web spins = (d, spins)

  -- `get`, with fuel for the pump over the body.
  unfoldable pub get_file : ℕ → Disk → String → List ℕ → Fetched → Disk × Outcome (Unit {0})
  unfolding after_file check_file
  get_file fuel d fp hashsum web =
      after_file fuel d fp hashsum web (check_file (d.is_locked fp) hashsum (lookup fp d.files))

  check_file_lem :
      (hashsum bs : List ℕ)
      → check_file false hashsum (some bs) ≡ ok (bytes_eq (to_hex_bytes bs) hashsum)
  unfolding check_file
  check_file_lem hashsum bs =
      let e = all-copies (process H) (cutting.cut bs) [] [] 0 true in
      ap (λ o. same_sum hashsum (finish_sum H laws start cutting o)) e.returns
      ∙ ap (λ r. same_sum hashsum (sum_result H laws start cutting r e.result.sink.writer.written))
          e.err_is
      ∙ ap (λ ws. same_sum hashsum (ok ws))
          (e.written_is ∙ append-nil (concat (cutting.cut bs)) ∙ cutting.concat-cut bs)

  -- What a download that reports success promises of the file: its sum is the expected one, or the
  -- check before the request has found its content to be the expected text.
  abbrev pub IsFetched : Disk → String → List ℕ → Type 0
  IsFetched d fp hashsum =
      HasSum H laws start cutting d fp hashsum
      ⊎ ((bs : List ℕ) × (lookup fp d.files ≡ some bs) × (to_hex_bytes bs ≡ hashsum))

  save_body_lem :
      (d : Disk) (fp : String) (hashsum : List ℕ) (is_locked : Bool) (bss : List (List ℕ))
      (last : List ℕ) (r : Reader) (extra : ℕ)
      → 0 < length hashsum
      → let (d', result) =
          save_body
            (length bss + suc extra)
            d
            fp
            hashsum
            is_locked
            (reads bss ((last, some eof) ∷ r)) in
        result ≡ ok tt → HasSum H laws start cutting d' fp hashsum
  unfolding save_body
  save_body_lem d fp hashsum true bss last r extra l = cc
  save_body_lem d fp hashsum false bss last r extra l =
      let some_sum : ltb 0 (length hashsum) ≡ true = ground arith in
      rw some_sum (
        saved_lem H laws start cutting _ fp hashsum (concat bss ++ last) _
          (all-hashes_on_the_fly H laws start bss last r extra true) l)

  -- A download with an expected sum that reports success leaves a file with that sum, or has found
  -- a file whose very content, in hexadecimal, is the expected sum, which the check before the
  -- request compares instead of its hash. The body may be cut into reads in any way.
  pub get_file-IsFetched :
      (d : Disk) (fp : String) (hashsum : List ℕ) (bss : List (List ℕ)) (last : List ℕ) (r : Reader)
      (extra : ℕ)
      → 0 < length hashsum
      → let (d', result) =
          get_file
            (length bss + suc extra)
            d
            fp
            hashsum
            (responded (reads bss ((last, some eof) ∷ r))) in
        result ≡ ok tt → IsFetched d' fp hashsum
  unfolding get_file
  get_file-IsFetched d fp hashsum bss last r extra l =
      by_file (d.is_locked fp) (lookup fp d.files) refl
    where
      web : Fetched
      web = responded (reads bss ((last, some eof) ∷ r))

      by_fetch :
          let (d', result) = after_fetch (length bss + suc extra) d fp hashsum web in
          result ≡ ok tt → IsFetched d' fp hashsum
      by_fetch done = inl (save_body_lem d fp hashsum (d.is_locked fp) bss last r extra l done)

      by_check :
          (b : Bool)
          → (b ≡ true → IsFetched d fp hashsum)
          → let (d', result) = after_file (length bss + suc extra) d fp hashsum web (ok b) in
            result ≡ ok tt → IsFetched d' fp hashsum
      by_check true found done = found refl
      by_check false found done = by_fetch done

      by_file :
          (is_locked : Bool) (f : Option (List ℕ))
          → lookup fp d.files ≡ f
          → let (d', result) =
              after_file
                (length bss + suc extra)
                d
                fp
                hashsum
                web
                (check_file is_locked hashsum f) in
            result ≡ ok tt → IsFetched d' fp hashsum
      by_file is_locked none e = by_fetch
      by_file true (some bs) e = cc
      by_file false (some bs) e = rw (check_file_lem hashsum bs) (
          by_check (bytes_eq (to_hex_bytes bs) hashsum)
            (λ h. inr (bs, e, (bytes_eq_iff (to_hex_bytes bs) hashsum).0 h)))

  -- A file that is there already does not help, even one with the expected sum, unless its content
  -- in hexadecimal is that sum: when the request comes to nothing, so does the download.
  pub get_file-refetches :
      (fuel : ℕ) (d : Disk) (fp : String) (hashsum bs : List ℕ)
      → lookup fp d.files ≡ some bs
      → d.is_locked fp ≡ false
      → to_hex_bytes bs ≢ hashsum
      → get_file fuel d fp hashsum timed_out ≡ (d, failed get_failed)
  unfolding get_file
  get_file-refetches fuel d fp hashsum bs found free differs =
      let unequal : bytes_eq (to_hex_bytes bs) hashsum ≡ false =
        ground (arith, differs, bytes_eq_iff (to_hex_bytes bs) hashsum) in
      rw (found, free, check_file_lem hashsum bs, unequal) refl

-- ===== src/IoHelper/Tests.antt =====
-- The theorems about iohelper at concrete inputs. The hash of the examples keeps its input.
use helper.Base.{
  ℕ, ◌+◌, ◌≡◌, refl, true, false, Option, none, some, List, [], ◌∷◌, ◌++◌, append_assoc, append-nil,
  arith, length, string_eq,
}
use helper.Base.Dict.{lookup, insert}
use helper.IoHelper.Filter.{IoError, eof, HashType, hash, to_hex_bytes, process}
use helper.IoHelper.Source.{Source, read}
use helper.IoHelper.Pump.{all, pump, after_step, step}
use helper.IoHelper.Sink.{write}
use helper.IoHelper.Stream.{reads, source_of, plain_sink, Ended}
use helper.IoHelper.Copy.{all-copies}
use helper.IoHelper.Hashing.{HashLaws, all-hashes_on_the_fly}
use helper.IoHelper.Stuck.{failing, all-outlasts_errors}
use helper.IoHelper.Files.{Disk, ok, valid_file_sum, Cutting, hashsum_from_file}
use helper.IoHelper.Download.{HasSum, http_download, http_download_sound}

-- A hash that keeps all that was written; its sum is that behind a first byte.
abbrev keeper : HashType
keeper = record { State = List ℕ; write = λ h bs. h ++ bs; sum = λ h. 7 ∷ h }

keeper-HashLaws : HashLaws keeper
keeper-HashLaws = record {
  write_append = λ h a b. append_assoc h a b;
  write_nil = λ h. append-nil h;
  sum_some = λ h. omega arith;
}

abbrev whole : Cutting
whole = record { cut = λ bs. bs ∷ []; concat-cut = λ bs. append-nil bs }

abbrev two_reads : List (List ℕ)
two_reads = (1 ∷ 2 ∷ []) ∷ (3 ∷ []) ∷ []

all-copies_example :
    Ended
      (process keeper)
      (all
        (process keeper)
        (length two_reads + 1)
        (source_of (process keeper) [] (reads two_reads ((4 ∷ [], some eof) ∷ [])) none)
        (plain_sink (process keeper) [])
        true)
      4
      none
      (1 ∷ 2 ∷ 3 ∷ 4 ∷ [])
      []
      true
all-copies_example = all-copies (process keeper) two_reads (4 ∷ []) [] 0 true

all-hashes_on_the_fly_example :
    Ended
      (process keeper)
      (all
        (process keeper)
        (length two_reads + 1)
        (source_of
          (process keeper)
          (hash true [] ∷ [])
          (reads two_reads ((4 ∷ [], some eof) ∷ []))
          none)
        (plain_sink (process keeper) [])
        true)
      4
      none
      (1 ∷ 2 ∷ 3 ∷ 4 ∷ [])
      (hash true (1 ∷ 2 ∷ 3 ∷ 4 ∷ []) ∷ [])
      true
all-hashes_on_the_fly_example =
    all-hashes_on_the_fly keeper keeper-HashLaws [] two_reads (4 ∷ []) [] 0 true

abbrev reading : Option IoError → Source (process keeper)
reading e = record {
  reader = (1 ∷ [], e) ∷ [];
  filters = hash true [] ∷ [];
  data_filter_output = none;
  is_closed = false;
}

all-outlasts_errors_example :
    all
      (process keeper)
      3
      (record {
        reader = failing 5 3;
        filters = hash true [] ∷ [];
        data_filter_output = none;
        is_closed = false;
      })
      (plain_sink (process keeper) [])
      true
    ≡ none
all-outlasts_errors_example =
    all-outlasts_errors keeper 3 3 [] 5 true (plain_sink (process keeper) []) (omega arith)

abbrev disk : Disk
disk = record { files = ("a", 1 ∷ 2 ∷ []) ∷ ("b", 9 ∷ []) ∷ []; is_locked = λ _. false }

fetched :
    (http_download keeper keeper-HashLaws [] whole 3 disk "c"
      (to_hex_bytes (7 ∷ 1 ∷ 2 ∷ 3 ∷ 4 ∷ []))
      (some (record { status = 200; body = reads two_reads ((4 ∷ [], some eof) ∷ []) }))).1
    ≡ ok tt
unfolding http_download valid_file_sum hashsum_from_file all pump after_step step read process write
    lookup insert
fetched = refl

http_download_sound_example :
    HasSum keeper keeper-HashLaws [] whole
      (http_download keeper keeper-HashLaws [] whole 3 disk "c"
        (to_hex_bytes (7 ∷ 1 ∷ 2 ∷ 3 ∷ 4 ∷ []))
        (some (record { status = 200; body = reads two_reads ((4 ∷ [], some eof) ∷ []) }))).0
      "c"
      (to_hex_bytes (7 ∷ 1 ∷ 2 ∷ 3 ∷ 4 ∷ []))
http_download_sound_example =
    http_download_sound keeper keeper-HashLaws [] whole disk "c"
      (to_hex_bytes (7 ∷ 1 ∷ 2 ∷ 3 ∷ 4 ∷ [])) two_reads (4 ∷ []) [] 200 0 (omega arith) fetched

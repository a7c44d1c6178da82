-- ===== src/DlMgr/Tests.antt =====
-- The theorems about dlmgr at concrete inputs.
use helper.Base.{◌≡◌, refl, true, none, some, List, [], ◌∷◌, ◌++◌, String, arith}
use helper.Base.{append_assoc, append-nil, ℕ, false}
use helper.Base.Dict.{lookup, insert}
use helper.IoHelper.Filter.{HashType, to_hex_bytes, eof, process}
use helper.IoHelper.Source.{read, chain, new as new_source, close as close_source}
use helper.IoHelper.Sink.{write, new_buffer, close as close_sink}
use helper.IoHelper.Pump.{all, pump, after_step, step}
use helper.IoHelper.Stream.{reads}
use helper.IoHelper.Hashing.{HashLaws}
use helper.IoHelper.Files.{Disk, Cutting, ok, failed, get_failed}
use helper.IoHelper.Download.{saved}
use helper.DlMgr.Get.{
  get_file, after_file, after_fetch, check_file, save_body, with_hash, IsFetched, responded,
  timed_out, get_file-IsFetched, get_file-refetches,
}
use helper.DlMgr.{
  ContentDl, Downloader, new_downloader, Op, downloads, enqueues, takes, begins, times_out, returns,
  finishes, apply_all,
}
use helper.DlMgr.Order.{pipeline, added_all, apply_all-in_order}
use helper.DlMgr.Cancelling.{late_request_crashes}

abbrev file : String → ContentDl
file name = record {
  hashsum = "";
  url = "http://host/f";
  name = name;
  timeout = 5;
  cb = 0;
  basename = "f";
}

abbrev ops : List Op
ops =
    downloads (file "a") none (some "f")
    ∷ downloads (file "b") (some 3) (some "/")
    ∷ enqueues
    ∷ takes
    ∷ begins
    ∷ times_out
    ∷ finishes true
    ∷ []

apply_all-in_order_example :
    pipeline (apply_all new_downloader ops)
    ≡ pipeline new_downloader ++ added_all new_downloader ops
apply_all-in_order_example =
    apply_all-in_order new_downloader ops
      ((λ r. r, (λ r. r, (λ r. r, (λ r. r, (λ r. r, (λ r. r, (λ r. r, tt))))))))

abbrev queued : Downloader
queued = record new_downloader { q = file "a" ∷ file "b" ∷ [] }

abbrev busy : Downloader
busy = record new_downloader { worker = record { job = some (file "a"); cancel = none } }

late_request_crashes_example :
    (apply_all busy (begins ∷ times_out ∷ finishes true ∷ returns busy.next_context ∷ [])).crashed
    ≡ true
unfolding new_downloader
late_request_crashes_example = late_request_crashes busy (file "a") true refl (omega arith)

-- A hash that keeps all that was written; its sum is that behind a first byte.
abbrev keeper : HashType
keeper = record { State = List ℕ; write = λ h bs. h ++ bs; sum = λ h. 7 ∷ h }

keeper-HashLaws : HashLaws keeper
keeper-HashLaws = record {
  write_append = λ h a b. append_assoc h a b;
  write_nil = λ h. append-nil h;
  sum_some = λ h. omega arith;
}

abbrev in_one_read : Cutting
in_one_read = record { cut = λ bs. bs ∷ []; concat-cut = λ bs. append-nil bs }

abbrev disk : Disk
disk = record { files = ("f", 1 ∷ 2 ∷ []) ∷ []; is_locked = λ _. false }

abbrev hashsum : List ℕ
hashsum = to_hex_bytes (7 ∷ 1 ∷ 2 ∷ [])

fetched :
    (get_file keeper keeper-HashLaws [] in_one_read 2 disk "f" hashsum
      (responded (reads ((1 ∷ []) ∷ []) ((2 ∷ [], some eof) ∷ [])))).1
    ≡ ok tt
unfolding get_file after_file after_fetch check_file save_body with_hash saved new_source new_buffer
    chain all pump after_step step read process write lookup insert close_source close_sink
fetched = refl

get_file-IsFetched_example :
    IsFetched keeper keeper-HashLaws [] in_one_read
      (get_file keeper keeper-HashLaws [] in_one_read 2 disk "f" hashsum
        (responded (reads ((1 ∷ []) ∷ []) ((2 ∷ [], some eof) ∷ [])))).0
      "f"
      hashsum
get_file-IsFetched_example =
    get_file-IsFetched keeper keeper-HashLaws [] in_one_read disk "f" hashsum ((1 ∷ []) ∷ [])
      (2 ∷ []) [] 0 (omega arith) fetched

get_file-refetches_example :
    get_file keeper keeper-HashLaws [] in_one_read 2 disk "f" hashsum timed_out
    ≡ (disk, failed get_failed)
unfolding lookup
get_file-refetches_example =
    get_file-refetches keeper keeper-HashLaws [] in_one_read 2 disk "f" hashsum (1 ∷ 2 ∷ []) refl
      refl (λ e. cc e)

-- ===== src/DlMgr/Order.antt =====
-- dlmgr/dlmgr.go: where an accepted download is, and in which order downloads are made.
use helper.Base.{
  ℕ, ◌≡◌, refl, ◌∙◌, sym, ap, Bool, Option, none, some, List, [], ◌∷◌, ◌++◌, append_assoc,
  append-nil, if◌then◌else◌, ltb, length, String, All, Bool-cases, inl, inr,
}
use helper.DlMgr.{
  ContentDl, Downloader, is_queued, channel_cap, chosen_cb, chosen_basename, send_download,
  download, cancel_worker, call_cancel, stop_all_worker, stop_job, queue_loop_step, work_take,
  begin_request, request_returns, time_out, work_finish, is_released, is_in, remove, expire,
  enqueue_from, take_from, begin_job, finish_job, Op, downloads, cancels, clears, stops, enqueues,
  takes, begins, returns, times_out, finishes, apply, apply_all,
}

abbrev pub job_list : Option ContentDl → List ContentDl
job_list none = []
job_list (some dl) = dl ∷ []

abbrev pub dls_of : List (ContentDl × Bool) → List ContentDl
dls_of [] = []
dls_of ((dl, err) ∷ fs) = dl ∷ dls_of fs

-- All downloads that were accepted and not cancelled: those whose callback was made, the one in the
-- worker, the queue, and the channel.
abbrev pub pipeline : Downloader → List ContentDl
pipeline o = dls_of o.finished ++ (job_list o.worker.job ++ (o.q ++ o.c))

-- What a call adds.
abbrev pub entry : ContentDl → Option ℕ → Option String → List ContentDl
entry v cb none = []
entry v cb (some base) = record v { cb = chosen_cb cb; basename = chosen_basename base v.name } ∷ []

abbrev pub added : Downloader → Op → List ContentDl
added o (downloads v cb base) =
    if is_queued v.name o.q
    then []
    else if ltb (length o.c) channel_cap
    then entry v cb base
    else []
added o _ = []

abbrev pub added_all : Downloader → List Op → List ContentDl
added_all o [] = []
added_all o (x ∷ xs) = added o x ++ added_all (apply o x) xs

-- The calls that take entries out of the queue.
abbrev pub Removes : Op → Type 0
Removes (cancels name) = Unit
Removes clears = Unit
Removes _ = ⊥

dls_of-append :
    (fs : List (ContentDl × Bool)) (dl : ContentDl) (err : Bool)
    → dls_of (fs ++ (dl, err) ∷ []) ≡ dls_of fs ++ dl ∷ []
dls_of-append [] dl err = refl
dls_of-append ((d, e) ∷ fs) dl err = ap (λ ds. d ∷ ds) (dls_of-append fs dl err)

send_lem :
    (o : Downloader) (v : ContentDl) (cb : Option ℕ) (base : Option String)
    → pipeline (send_download o v cb base).0
      ≡ pipeline o ++ (if ltb (length o.c) channel_cap then entry v cb base else [])
unfolding send_download
send_lem o v cb none = elim (Bool-cases (ltb (length o.c) channel_cap)) [
  | inl room ↦ rw room (sym (append-nil (pipeline o)))
  | inr full ↦ rw full (sym (append-nil (pipeline o)))
]
send_lem o v cb (some base) = elim (Bool-cases (ltb (length o.c) channel_cap)) [
  | inl room ↦ rw room (rw (append_assoc, append_assoc, append_assoc) refl)
  | inr full ↦ rw full (sym (append-nil (pipeline o)))
]

download_lem :
    (o : Downloader) (v : ContentDl) (cb : Option ℕ) (base : Option String)
    → pipeline (download o v cb base).0 ≡ pipeline o ++ added o (downloads v cb base)
unfolding download
download_lem o v cb base = elim (Bool-cases (is_queued v.name o.q)) [
  | inl queued ↦ rw queued (sym (append-nil (pipeline o)))
  | inr absent ↦ rw absent (send_lem o v cb base)
]

stop_job_lem :
    (o : Downloader) (job : Option ContentDl) (cancel : Option ℕ)
    → o.worker.cancel ≡ cancel
    → pipeline (stop_job o job) ≡ pipeline o
unfolding stop_job cancel_worker call_cancel
stop_job_lem o none cancel e = refl
stop_job_lem o (some dl) none e = rw e refl
stop_job_lem o (some dl) (some g) e = rw e refl

enqueue_lem :
    (o : Downloader) (c : List ContentDl) → o.c ≡ c → pipeline (enqueue_from o c) ≡ pipeline o
enqueue_lem o [] e = refl
enqueue_lem o (dl ∷ c) e = rw (e, append_assoc) refl

take_lem :
    (o : Downloader) (job : Option ContentDl) (q : List ContentDl)
    → o.worker.job ≡ job
    → o.q ≡ q
    → pipeline (take_from o job q) ≡ pipeline o
take_lem o (some dl) q e f = refl
take_lem o none [] e f = refl
take_lem o none (dl ∷ q) e f = rw (e, f) refl

begin_lem : (o : Downloader) (job : Option ContentDl) → pipeline (begin_job o job) ≡ pipeline o
begin_lem o none = refl
begin_lem o (some dl) = refl

call_cancel_lem : (o : Downloader) (c : Option ℕ) → pipeline (call_cancel o c) ≡ pipeline o
unfolding call_cancel
call_cancel_lem o none = refl
call_cancel_lem o (some g) = refl

returns_lem : (o : Downloader) (g : ℕ) → pipeline (request_returns o g) ≡ pipeline o
unfolding request_returns
returns_lem o g = elim (Bool-cases (is_in g o.in_flight)) [
  | inl there ↦
      rw there (call_cancel_lem (record o { in_flight = remove g o.in_flight }) o.worker.cancel)
  | inr gone ↦ rw gone refl
]

expire_lem :
    (o : Downloader) (job : Option ContentDl) (c : Option ℕ)
    → pipeline (expire o job c) ≡ pipeline o
expire_lem o none c = refl
expire_lem o (some dl) none = refl
expire_lem o (some dl) (some g) = elim (Bool-cases (ltb 0 dl.timeout)) [
  | inl timed ↦ rw timed refl
  | inr untimed ↦ rw untimed refl
]

finish_lem :
    (o : Downloader) (job : Option ContentDl) (err : Bool)
    → o.worker.job ≡ job
    → pipeline (finish_job o job err) ≡ pipeline o
finish_lem o none err e = refl
finish_lem o (some dl) err e = elim (Bool-cases (is_released o.done_contexts o.worker.cancel)) [
  | inl free ↦ rw free (rw (e, dls_of-append o.finished dl err, append_assoc) refl)
  | inr held ↦ rw held refl
]

apply_lem : (o : Downloader) (x : Op) → ¬ Removes x → pipeline (apply o x) ≡ pipeline o ++ added o x
unfolding apply stop_all_worker queue_loop_step work_take begin_request time_out work_finish
apply_lem o (downloads v cb base) n = download_lem o v cb base
apply_lem o (cancels name) n = absurd (n tt)
apply_lem o clears n = absurd (n tt)
apply_lem o stops n = stop_job_lem o o.worker.job _ refl ∙ sym (append-nil (pipeline o))
apply_lem o enqueues n = enqueue_lem o o.c refl ∙ sym (append-nil (pipeline o))
apply_lem o takes n = take_lem o o.worker.job o.q refl refl ∙ sym (append-nil (pipeline o))
apply_lem o begins n = begin_lem o o.worker.job ∙ sym (append-nil (pipeline o))
apply_lem o (returns g) n = returns_lem o g ∙ sym (append-nil (pipeline o))
apply_lem o times_out n = expire_lem o o.worker.job o.worker.cancel ∙ sym (append-nil (pipeline o))
apply_lem o (finishes err) n = finish_lem o o.worker.job err refl ∙ sym (append-nil (pipeline o))

-- Downloads are made in the order in which they were accepted, and none is lost or made twice: in any
-- interleaving of callers, loop, worker and clock in which nothing is taken out of the queue, the
-- downloads whose callback was made, then the one in the worker, the queue and the channel are those
-- of before followed by the accepted ones.
pub apply_all-in_order :
    (o : Downloader) (xs : List Op)
    → All (λ x. ¬ Removes x) xs
    → pipeline (apply_all o xs) ≡ pipeline o ++ added_all o xs
unfolding apply_all
apply_all-in_order o [] n = sym (append-nil (pipeline o))
apply_all-in_order o (x ∷ xs) n =
    apply_all-in_order (apply o x) xs n.1
    ∙ ap (λ ds. ds ++ added_all (apply o x) xs) (apply_lem o x n.0)
    ∙ append_assoc (pipeline o) (added o x) (added_all (apply o x) xs)

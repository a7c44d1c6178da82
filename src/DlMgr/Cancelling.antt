-- ===== src/DlMgr/Cancelling.antt =====
-- dlmgr/dlmgr.go: CancelDownload, and the goroutine of a request that outlives its download.
use helper.Base.{
  ◌<◌, ◌≡◌, refl, ap, Bool, true, false, none, some, List, [], ◌∷◌, ◌++◌, String, arith, Bool-cases,
  inl, inr,
}
use helper.DlMgr.{
  ContentDl, Downloader, has_name, is_queued, remove_first, cancel_download, call_cancel,
  begin_request, request_returns, time_out, work_finish, begins, returns, times_out, finishes,
  apply, apply_all,
}

-- The entry that CancelDownload removes stands between these two parts of the queue.
pub record Removed (name : String) (q q' : List ContentDl) : Type 0 where
  before : List ContentDl
  entry : ContentDl
  after : List ContentDl
  whole : q ≡ before ++ entry ∷ after
  rest : q' ≡ before ++ after
  named : has_name name entry ≡ true
  is_first : is_queued name before ≡ false

remove_first-Removed :
    (name : String) (q : List ContentDl)
    → is_queued name q ≡ true
    → Removed name q (remove_first name q)
remove_first-Removed name [] e = cc
remove_first-Removed name (d ∷ q) e = elim (Bool-cases (has_name name d)) [
  | inl here ↦ record {
    before = [];
    entry = d;
    after = q;
    whole = refl;
    rest = rw here refl;
    named = here;
    is_first = refl;
  }
  | inr there ↦
      let r = remove_first-Removed name q (ground (arith, there, e)) in
      record {
        before = d ∷ r.before;
        entry = r.entry;
        after = r.after;
        whole = ap (λ ds. d ∷ ds) r.whole;
        rest = rw there (ap (λ ds. d ∷ ds) r.rest);
        named = r.named;
        is_first = rw there r.is_first;
      }
]

-- CancelDownload of a name that is queued succeeds, and takes exactly the first entry of that name
-- out of the queue; all other entries keep their order, and nothing else changes.
pub cancel_download-Removed :
    (o : Downloader) (name : String)
    → is_queued name o.q ≡ true
    → let (o', err) = cancel_download o name in
      (err ≡ none) × Removed name o.q o'.q × (o' ≡ record o { q = o'.q })
unfolding cancel_download
cancel_download-Removed o name e = rw e ((refl, remove_first-Removed name o.q e, refl))

-- The deadline passes, `get` returns and the worker forgets its Cancel, and then the request, which
-- does not know the context, returns: for any download with a timeout in the worker whose request begins, this
-- order of events ends with a call of a nil function.
pub late_request_crashes :
    (o : Downloader) (dl : ContentDl) (err : Bool)
    → o.worker.job ≡ some dl
    → 0 < dl.timeout
    → (apply_all o (begins ∷ times_out ∷ finishes err ∷ returns o.next_context ∷ [])).crashed ≡ true
unfolding apply_all apply begin_request time_out work_finish request_returns call_cancel
late_request_crashes o dl err e t = rw e (ground arith)

-- ===== src/DlMgr.antt =====
-- dlmgr/dlmgr.go: downloads pass from a channel to a queue and from there to the one worker that
-- NewDownloader makes. The lock of the queue makes each access one step. A context is named by a
-- number, and `w.Cancel` is the function that cancels it.
pub mod Order
pub mod Cancelling
pub mod Get
mod Tests
use helper.Base.{
  ℕ, suc, ◌+◌, ◌≡◌, Bool, true, false, not, ◌&&◌, ◌||◌, Option, none, some, List, [], ◌∷◌, ◌++◌,
  if◌then◌else◌, ltb, length, String, str_eq, nat_eq, is_some, ◌==◌,
}

pub record ContentDl : Type 0 where
  pub hashsum : String
  pub url : String
  pub name : String
  pub timeout : ℕ
  pub cb : ℕ
  pub basename : String

pub record Worker : Type 0 where
  pub job : Option ContentDl
  pub cancel : Option ℕ

-- `finished` lists the callbacks that were made, with whether there was an error; `done_contexts`
-- the contexts that are done; `in_flight` the goroutines of `get`, by the contexts they began with;
-- `crashed` says that a nil function was called.
pub record Downloader : Type 0 where
  pub q : List ContentDl
  pub c : List ContentDl
  pub worker : Worker
  pub finished : List (ContentDl × Bool)
  pub next_context : ℕ
  pub done_contexts : List ℕ
  pub in_flight : List ℕ
  pub crashed : Bool

abbrev channel_cap : ℕ
channel_cap = 8

unfoldable pub new_downloader : Downloader
new_downloader = record {
  q = [];
  c = [];
  worker = record { job = none; cancel = none };
  finished = [];
  next_context = 0;
  done_contexts = [];
  in_flight = [];
  crashed = false;
}

abbrev pub has_name : String → ContentDl → Bool
has_name name e = str_eq e.name name

abbrev pub is_queued : String → List ContentDl → Bool
is_queued name [] = false
is_queued name (e ∷ q) = has_name name e || is_queued name q

unfoldable pub clear_queue : Downloader → Downloader
clear_queue o = record o { q = [] }

-- A call of `w.Cancel`.
unfoldable pub call_cancel : Downloader → Option ℕ → Downloader
call_cancel o none = record o { crashed = true }
call_cancel o (some g) = record o { done_contexts = g ∷ o.done_contexts }

pub data CancelError : Type 0 where
  not_cancellable not_found : CancelError

-- `if w.Cancel != nil { w.Cancel() }`.
unfoldable pub cancel_worker : Downloader → Option ℕ → Downloader × Option CancelError
unfolding call_cancel
cancel_worker o none = (o, some not_cancellable)
cancel_worker o (some g) = (call_cancel o (some g), none)

unfoldable pub stop_job : Downloader → Option ContentDl → Downloader
unfolding cancel_worker
stop_job o none = o
stop_job o (some dl) = (cancel_worker o o.worker.cancel).0

unfoldable pub stop_all_worker : Downloader → Downloader
unfolding stop_job
stop_all_worker o = stop_job o o.worker.job

-- `copy(o.Q[idx:], o.Q[idx+1:])` with `idx` that of the first entry of the name.
abbrev pub remove_first : String → List ContentDl → List ContentDl
remove_first name [] = []
remove_first name (e ∷ q) = if has_name name e then q else e ∷ remove_first name q

unfoldable pub cancel_job : Downloader → String → Option ContentDl → Downloader × Option CancelError
unfolding cancel_worker
cancel_job o name none = (o, some not_found)
cancel_job o name (some dl) =
    if has_name name dl then cancel_worker o o.worker.cancel else (o, some not_found)

unfoldable pub cancel_download : Downloader → String → Downloader × Option CancelError
unfolding cancel_job
cancel_download o name =
    if is_queued name o.q
    then (record o { q = remove_first name o.q }, none)
    else cancel_job o name o.worker.job

-- `blocks`: the channel is full.
pub data Downloaded : Type 0 where
  sent blocks already_queued bad_url : Downloaded

-- `cb == nil` gives the default callback, number 0.
abbrev pub chosen_cb : Option ℕ → ℕ
chosen_cb none = 0
chosen_cb (some cb) = cb

abbrev pub chosen_basename : String → String → String
chosen_basename base name = if str_eq base "." || str_eq base "/" then name else base

unfoldable pub send_download :
    Downloader → ContentDl → Option ℕ → Option String → Downloader × Downloaded
send_download o v cb none = (o, bad_url)
send_download o v cb (some base) =
    let v' : ContentDl = record v { cb = chosen_cb cb; basename = chosen_basename base v.name } in
    if ltb (length o.c) channel_cap then (record o { c = o.c ++ v' ∷ [] }, sent) else (o, blocks)

-- `base` is `path.Base(u.Path)` of the parsed URL, `none` if it does not parse.
unfoldable pub download :
    Downloader → ContentDl → Option ℕ → Option String → Downloader × Downloaded
unfolding send_download
download o v cb base =
    if is_queued v.name o.q then (o, already_queued) else send_download o v cb base

-- `case dl := <-o.c: o.EnQueue(dl)`.
abbrev pub enqueue_from : Downloader → List ContentDl → Downloader
enqueue_from o [] = o
enqueue_from o (dl ∷ c) = record o { c = c; q = o.q ++ dl ∷ [] }

unfoldable pub queue_loop_step : Downloader → Downloader
queue_loop_step o = enqueue_from o o.c

-- An idle worker takes the front of the queue.
abbrev pub take_from : Downloader → Option ContentDl → List ContentDl → Downloader
take_from o (some dl) q = o
take_from o none [] = o
take_from o none (dl ∷ q) = record o { q = q; worker = record o.worker { job = some dl } }

unfoldable pub work_take : Downloader → Downloader
work_take o = take_from o o.worker.job o.q

-- `get` makes a context and starts the goroutine of the request.
abbrev pub begin_job : Downloader → Option ContentDl → Downloader
begin_job o none = o
begin_job o (some dl) = record o {
  worker = record o.worker { cancel = some o.next_context };
  next_context = suc o.next_context;
  in_flight = o.next_context ∷ o.in_flight;
}

unfoldable pub begin_request : Downloader → Downloader
begin_request o = begin_job o o.worker.job

abbrev pub is_in : ℕ → List ℕ → Bool
is_in g [] = false
is_in g (h ∷ gs) = (g == h) || is_in g gs

abbrev pub remove : ℕ → List ℕ → List ℕ
remove g [] = []
remove g (h ∷ gs) = if g == h then gs else h ∷ remove g gs

-- The goroutine: `client.Do` returns, and then `w.Cancel()` calls what is there by then.
unfoldable pub request_returns : Downloader → ℕ → Downloader
unfolding call_cancel
request_returns o g =
    if is_in g o.in_flight
    then call_cancel (record o { in_flight = remove g o.in_flight }) o.worker.cancel
    else o

-- The deadline of the worker's context, which has one unless the timeout is 0.
abbrev pub expire : Downloader → Option ContentDl → Option ℕ → Downloader
expire o none cancel = o
expire o (some dl) none = o
expire o (some dl) (some g) =
    if ltb 0 dl.timeout then record o { done_contexts = g ∷ o.done_contexts } else o

unfoldable pub time_out : Downloader → Downloader
time_out o = expire o o.worker.job o.worker.cancel

-- `get` waits for the context that it made.
abbrev pub is_released : List ℕ → Option ℕ → Bool
is_released gs none = true
is_released gs (some g) = is_in g gs

-- The rest of `do`: the callback, then no job and no Cancel.
abbrev pub finish_job : Downloader → Option ContentDl → Bool → Downloader
finish_job o none err = o
finish_job o (some dl) err =
    if is_released o.done_contexts o.worker.cancel
    then record o {
      finished = o.finished ++ (dl, err) ∷ [];
      worker = record { job = none; cancel = none };
    }
    else o

unfoldable pub work_finish : Downloader → Bool → Downloader
work_finish o err = finish_job o o.worker.job err

-- All that callers, the loop, the worker, its goroutines and the clock do.
pub data Op : Type 0 where
  downloads : ContentDl → Option ℕ → Option String → Op
  cancels : String → Op
  clears stops enqueues takes begins times_out : Op
  returns : ℕ → Op
  finishes : Bool → Op

unfoldable pub apply : Downloader → Op → Downloader
apply o (downloads v cb base) = (download o v cb base).0
apply o (cancels name) = (cancel_download o name).0
apply o clears = clear_queue o
apply o stops = stop_all_worker o
apply o enqueues = queue_loop_step o
apply o takes = work_take o
apply o begins = begin_request o
apply o (returns g) = request_returns o g
apply o times_out = time_out o
apply o (finishes err) = work_finish o err

unfoldable pub apply_all : Downloader → List Op → Downloader
apply_all o [] = o
apply_all o (x ∷ xs) = apply_all (apply o x) xs

-- ===== src/Queue/Stopping.antt =====
-- queue/queue.go: StopFlushThread waits for the thread while it holds the queue's lock.
use helper.Base.{◌≡◌, refl, arith}

pub data Owner : Type 0 where
  free held_by_stop held_by_thread : Owner

-- StopFlushThread: at Lock, at the send to abortChan, at the receive from threadDone, returned.
pub data StopAt : Type 0 where
  locking aborting waiting stopped : StopAt

-- flushThread: in its select, at Lock after a tick, at its flush and Unlock, at the send to
-- threadDone, ended.
pub data FlushAt : Type 0 where
  selecting wants_lock flushing reporting ended : FlushAt

pub record Stopping : Type 0 where
  pub lock : Owner
  pub stop : StopAt
  pub thread : FlushAt

-- One step of either goroutine; both channels have no buffer, so a send and its receive are one step.
pub data StopStep (s : Stopping) (t : Stopping) : Type 0 where
  stop_locks :
      s.stop ≡ locking
      → s.lock ≡ free
      → t ≡ record s { lock = held_by_stop; stop = aborting }
      → StopStep s t
  abort_meets :
      s.stop ≡ aborting
      → s.thread ≡ selecting
      → t ≡ record s { stop = waiting; thread = reporting }
      → StopStep s t
  done_meets :
      s.stop ≡ waiting
      → s.thread ≡ reporting
      → t ≡ record s { lock = free; stop = stopped; thread = ended }
      → StopStep s t
  ticks : s.thread ≡ selecting → t ≡ record s { thread = wants_lock } → StopStep s t
  thread_locks :
      s.thread ≡ wants_lock
      → s.lock ≡ free
      → t ≡ record s { lock = held_by_thread; thread = flushing }
      → StopStep s t
  flushes : s.thread ≡ flushing → t ≡ record s { lock = free; thread = selecting } → StopStep s t

pub data StopReach (s : Stopping) : Stopping → Type 0 where
  start : StopReach s s
  then : {t u : Stopping} → StopReach s t → StopStep t u → StopReach s u

pub record IsJammed (s : Stopping) : Type 0 where
  pub stop_holds : s.lock ≡ held_by_stop
  pub stop_aborts : s.stop ≡ aborting
  pub thread_waits : s.thread ≡ wants_lock

StopStep-IsJammed : {s t : Stopping} → StopStep s t → IsJammed s → IsJammed t
StopStep-IsJammed (stop_locks a b e) j = ground arith
StopStep-IsJammed (abort_meets a b e) j = ground arith
StopStep-IsJammed (done_meets a b e) j = ground arith
StopStep-IsJammed (ticks a e) j = ground arith
StopStep-IsJammed (thread_locks a b e) j = ground arith
StopStep-IsJammed (flushes a e) j = ground arith

StopReach-IsJammed : {s t : Stopping} → IsJammed s → StopReach s t → IsJammed t
StopReach-IsJammed j start = j
StopReach-IsJammed j (then r st) = StopStep-IsJammed st (StopReach-IsJammed j r)

-- Whenever StopFlushThread is about to take the free lock while the thread is in its select, a tick
-- can come just after, so that StopFlushThread waits at abortChan with the lock held, the thread
-- waits for that lock, and neither ever moves again.
pub stop_flush_thread_can_jam :
    (s : Stopping)
    → s.lock ≡ free
    → s.stop ≡ locking
    → s.thread ≡ selecting
    → (t : Stopping) × StopReach s t × ((u : Stopping) → StopReach t u → IsJammed u)
stop_flush_thread_can_jam s l p th = (
  record { lock = held_by_stop; stop = aborting; thread = wants_lock },
  then (then start (stop_locks p l refl)) (ticks th refl),
  λ u r.
      StopReach-IsJammed (record { stop_holds = refl; stop_aborts = refl; thread_waits = refl }) r,
)

-- ===== src/Queue.antt =====
-- queue/queue.go: values collected until a count or a ticker hands them to a flush function.
-- Each critical section of the lock is one step: a method is one, but StartFlushThread is two, between
-- which other calls can come. `flushed` lists the calls of flush functions, which are named
-- by numbers, with the values that they got.
pub mod Conservation
pub mod Bounds
pub mod Stopping
mod Tests
use helper.Base.{
  ℕ, suc, ◌+◌, ◌≡◌, Bool, true, false, not, ◌&&◌, ◌||◌, Option, none, some, List, [], ◌∷◌, ◌++◌,
  if◌then◌else◌, ltb, leb, ◌==◌, length, is_some,
}
use helper.Base.Int.{ℤ, pos, ltz, pos_part}

-- A value in an `interface{}`: its dynamic type and what it is.
pub record Value : Type 0 where
  pub type_of : ℕ
  pub content : ℕ

-- A `*time.Ticker` with its period, and whether `Stop` was called.
pub record Ticker : Type 0 where
  pub period : ℤ
  pub is_stopped : Bool

-- The goroutine of `flushThread`; a nil ticker makes it panic, which ends the program.
pub data Thread : Type 0 where
  no_thread running panicked : Thread

pub record Queue : Type 0 where
  pub elem_type : Option ℕ
  pub elems : List (Option Value)
  pub flush_cap : ℕ
  pub flush_ticker : Option Ticker
  pub f : Option ℕ
  pub thread : Thread
  pub flushed : List (ℕ × List (Option Value))

pub data AddError : Type 0 where
  nil_value wrong_type : AddError

unfoldable pub new : Option ℕ → Queue
new t = record {
  elem_type = t;
  elems = [];
  flush_cap = 0;
  flush_ticker = none;
  f = none;
  thread = no_thread;
  flushed = [];
}

-- `if q.f != nil { q.f(q.elems) }`.
call_flush : Queue → Option ℕ → Queue
call_flush q none = q
call_flush q (some g) = record q { flushed = q.flushed ++ (g, q.elems) ∷ [] }

unfoldable pub flush_queue : Queue → Queue
unfolding call_flush
flush_queue q = if length q.elems == 0 then q else record (call_flush q q.f) { elems = [] }

unfoldable pub flush : Queue → Queue
unfolding flush_queue
flush q = flush_queue q

-- The two checks of Add: a nil value, and `reflect.TypeOf(val)`, which is nil for nil.
unfoldable pub check_value : Option ℕ → Option Value → Option AddError
check_value none v = none
check_value (some t) none = some nil_value
check_value (some t) (some v) = if v.type_of == t then none else some wrong_type

unfoldable pub append_value : Queue → Option Value → Queue
unfolding flush_queue
append_value q v =
    let q' : Queue = record q { elems = q.elems ++ v ∷ [] } in
    if ltb 0 q'.flush_cap && leb q'.flush_cap (length q'.elems) then flush_queue q' else q'

pub finish_add : Queue → Option Value → Option AddError → Queue × Option AddError
finish_add q v (some e) = (q, some e)
finish_add q v none = (append_value q v, none)

unfoldable pub add : Queue → Option Value → Queue × Option AddError
unfolding check_value finish_add append_value
add q v = finish_add q v (check_value q.elem_type v)

unfoldable pub elements : Queue → List (Option Value)
elements q = q.elems

-- `case <-q.flushTicker.C` of flushThread.
unfoldable pub tick : Queue → Queue
unfolding flush_queue
tick q = if is_some q.f then flush_queue q else q

abbrev stop_ticker : Option Ticker → Option Ticker
stop_ticker none = none
stop_ticker (some t) = some (record t { is_stopped = true })

-- `abortChan` ends the thread, which stops its ticker.
unfoldable pub stop_flush_thread : Queue → Queue
unfolding flush_queue
stop_flush_thread q =
    let flushed : Queue = flush_queue q in
    let stopped : Queue = record flushed {
      flush_ticker = stop_ticker flushed.flush_ticker;
      thread = no_thread;
    } in
    record (if is_some q.f then stopped else q) { f = none }

-- The thread begins with a read of `q.flushTicker.C`.
abbrev begin_thread : Option Ticker → Thread
begin_thread none = panicked
begin_thread (some t) = running

-- What StartFlushThread does under its own lock, after StopFlushThread.
unfoldable pub set_flush : Queue → ℕ → ℤ → ℤ → Queue
set_flush q g cap t =
    let ticker =
      if ltz (pos 0) t then some (record { period = t; is_stopped = false }) else q.flush_ticker in
    record q {
      f = some g;
      flush_cap = if ltz (pos 0) cap then pos_part cap else q.flush_cap;
      flush_ticker = ticker;
      thread = begin_thread ticker;
    }

-- The critical sections that a program enters, and the ticks of the ticker.
pub data Op : Type 0 where
  adds : Option Value → Op
  flushes ticks stops : Op
  sets : ℕ → ℤ → ℤ → Op

-- StartFlushThread as its critical sections.
unfoldable pub start_flush_thread : Option ℕ → ℤ → ℤ → List Op
start_flush_thread none cap t = []
start_flush_thread (some g) cap t = stops ∷ sets g cap t ∷ []

unfoldable pub apply : Queue → Op → Queue
apply q (adds v) = (add q v).0
apply q flushes = flush q
apply q ticks = tick q
apply q stops = stop_flush_thread q
apply q (sets g cap t) = set_flush q g cap t

unfoldable pub apply_all : Queue → List Op → Queue
apply_all q [] = q
apply_all q (o ∷ os) = apply_all (apply q o) os

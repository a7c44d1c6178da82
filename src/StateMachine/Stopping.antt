-- ===== src/StateMachine/Stopping.antt =====
-- StateMachine/sm.go: `ClearActions` stops an action while it holds the lock of the action list.
-- The loop's `act.Exit <- 0` and the thread's receive are one meeting, since Exit has no buffer.
use helper.Base.{◌≡◌, refl, ◌≢◌, Bool, true, false, arith}

-- `ActionList.RWMutex`.
pub data Lock : Type 0 where
  free held_by_loop held_by_thread : Lock

-- `ClearActions` at one action: before Lock, at `act.T.Stop()`, at `act.Exit <- 0`, at Unlock, after.
pub data LoopAt : Type 0 where
  locking stopping_timer sending_exit unlocking cleared : LoopAt

-- `ActionThread`: in its select, at Lock, at `delete` and Unlock, at `obj.actCtrl <- act`, ended.
-- The Boolean is `triggerAction`.
pub data ThreadAt : Type 0 where
  selecting : ThreadAt
  wants_lock : Bool → ThreadAt
  deleting : Bool → ThreadAt
  firing : ThreadAt
  ended : ThreadAt

-- `act.T`: counting, expired with its time in `T.C`, or stopped or read.
pub data Timer : Type 0 where
  counting expired spent : Timer

pub record StopMachine : Type 0 where
  pub lock : Lock
  pub loop : LoopAt
  pub thread : ThreadAt
  pub timer : Timer
  pub listed : Bool  -- the action is in ActionList
  pub sent : Bool  -- the thread has sent it to the loop

abbrev pub stop_timer : Timer → Timer
stop_timer counting = spent
stop_timer expired = expired
stop_timer spent = spent

abbrev pub after_delete : Bool → ThreadAt
after_delete true = firing
after_delete false = ended

-- One step of the clock, the loop or the thread.
pub data StopStep (s : StopMachine) (t : StopMachine) : Type 0 where
  expires : s.timer ≡ counting → t ≡ record s { timer = expired } → StopStep s t
  locks :
      s.loop ≡ locking
      → s.lock ≡ free
      → s.listed ≡ true
      → t ≡ record s { lock = held_by_loop; loop = stopping_timer }
      → StopStep s t
  stops_timer :
      s.loop ≡ stopping_timer
      → t ≡ record s { loop = sending_exit; timer = stop_timer s.timer }
      → StopStep s t
  meets :
      s.loop ≡ sending_exit
      → s.thread ≡ selecting
      → t ≡ record s { loop = unlocking; thread = wants_lock false }
      → StopStep s t
  unlocks : s.loop ≡ unlocking → t ≡ record s { lock = free; loop = cleared } → StopStep s t
  reads_timer :
      s.thread ≡ selecting
      → s.timer ≡ expired
      → t ≡ record s { thread = wants_lock true; timer = spent }
      → StopStep s t
  thread_locks :
      (b : Bool)
      → s.thread ≡ wants_lock b
      → s.lock ≡ free
      → t ≡ record s { lock = held_by_thread; thread = deleting b }
      → StopStep s t
  deletes :
      (b : Bool)
      → s.thread ≡ deleting b
      → t ≡ record s { lock = free; thread = after_delete b; listed = false }
      → StopStep s t
  fires : s.thread ≡ firing → t ≡ record s { thread = ended; sent = true } → StopStep s t

pub data StopReach (s : StopMachine) : StopMachine → Type 0 where
  start : StopReach s s
  then : {t u : StopMachine} → StopReach s t → StopStep t u → StopReach s u

-- The loop waits for the thread, and the thread for the lock that the loop holds.
pub record IsJammed (s : StopMachine) : Type 0 where
  pub loop_holds : s.lock ≡ held_by_loop
  pub loop_sends : s.loop ≡ sending_exit
  pub thread_waits : s.thread ≡ wants_lock true

StopStep-IsJammed : {s t : StopMachine} → StopStep s t → IsJammed s → IsJammed t
StopStep-IsJammed (expires a e) j = ground arith
StopStep-IsJammed (locks a b c e) j = ground arith
StopStep-IsJammed (stops_timer a e) j = ground arith
StopStep-IsJammed (meets a b e) j = ground arith
StopStep-IsJammed (unlocks a e) j = ground arith
StopStep-IsJammed (reads_timer a b e) j = ground arith
StopStep-IsJammed (thread_locks b a c e) j = ground arith
StopStep-IsJammed (deletes b a e) j = ground arith
StopStep-IsJammed (fires a e) j = ground arith

StopReach-IsJammed : {s t : StopMachine} → IsJammed s → StopReach s t → IsJammed t
StopReach-IsJammed j start = j
StopReach-IsJammed j (then r st) = StopStep-IsJammed st (StopReach-IsJammed j r)

jam_at : StopMachine → StopMachine
jam_at s = record s {
  lock = held_by_loop;
  loop = sending_exit;
  thread = wants_lock true;
  timer = spent;
}

-- Whenever ClearActions is about to stop a listed action whose timer still counts, the timer can
-- expire in such a moment that the loop waits at `act.Exit <- 0` with the lock held and the thread
-- waits for that lock; and from there neither ever moves again, whatever happens.
pub clear_actions_can_jam :
    (s : StopMachine)
    → s.lock ≡ free
    → s.loop ≡ locking
    → s.thread ≡ selecting
    → s.timer ≡ counting
    → s.listed ≡ true
    → (t : StopMachine) × StopReach s t × ((u : StopMachine) → StopReach t u → IsJammed u)
unfolding jam_at
clear_actions_can_jam s l p th ti li =
    let s1 : StopMachine = record s { lock = held_by_loop; loop = stopping_timer } in
    let s2 : StopMachine = record s1 { timer = expired } in
    let s3 : StopMachine = record s2 { thread = wants_lock true; timer = spent } in
    (
      jam_at s,
      then
          (then (then (then start (locks p l li refl)) (expires ti refl))
            (reads_timer th refl refl))
          (stops_timer refl refl),
      λ u r.
          StopReach-IsJammed (record { loop_holds = refl; loop_sends = refl; thread_waits = refl })
            r,
    )

abbrev is_past : LoopAt → Bool
is_past unlocking = true
is_past cleared = true
is_past _ = false

abbrev pub will_fire : ThreadAt → Bool
will_fire selecting = true
will_fire (wants_lock b) = b
will_fire (deleting b) = b
will_fire firing = true
will_fire ended = false

-- Once the loop is past the action, its thread is on the way out without sending it.
record IsSafe (s : StopMachine) : Type 0 where
  listed_unsent : s.listed ≡ true → (s.sent ≡ false) × (s.thread ≢ firing) × (s.thread ≢ ended)
  loop_listed : s.lock ≡ held_by_loop → s.listed ≡ true
  thread_deletes : (b : Bool) → s.thread ≡ deleting b → s.lock ≡ held_by_thread
  timer_locked : s.loop ≡ stopping_timer → s.lock ≡ held_by_loop
  exit_locked : s.loop ≡ sending_exit → s.lock ≡ held_by_loop
  unlock_locked : s.loop ≡ unlocking → s.lock ≡ held_by_loop
  past_quiet : is_past s.loop ≡ true → (will_fire s.thread ≡ false) × (s.sent ≡ false)

StopStep-IsSafe : {s t : StopMachine} → StopStep s t → IsSafe s → IsSafe t
StopStep-IsSafe (expires a e) j = grind arith
StopStep-IsSafe (locks a b c e) j = grind arith
StopStep-IsSafe (stops_timer a e) j = grind arith
StopStep-IsSafe (meets a b e) j = grind arith
StopStep-IsSafe (unlocks a e) j = grind arith
StopStep-IsSafe (reads_timer a b e) j = grind arith
StopStep-IsSafe (thread_locks b a c e) j = grind arith
StopStep-IsSafe (deletes b a e) j = grind arith
StopStep-IsSafe (fires a e) j = grind arith

StopReach-IsSafe : {s t : StopMachine} → IsSafe s → StopReach s t → IsSafe t
StopReach-IsSafe v start = v
StopReach-IsSafe v (then r st) = StopStep-IsSafe st (StopReach-IsSafe v r)

StopStep-cleared : {s t : StopMachine} → StopStep s t → s.loop ≡ cleared → t.loop ≡ cleared
StopStep-cleared (expires a e) c = ground arith
StopStep-cleared (locks a b d e) c = ground arith
StopStep-cleared (stops_timer a e) c = ground arith
StopStep-cleared (meets a b e) c = ground arith
StopStep-cleared (unlocks a e) c = ground arith
StopStep-cleared (reads_timer a b e) c = ground arith
StopStep-cleared (thread_locks b a d e) c = ground arith
StopStep-cleared (deletes b a e) c = ground arith
StopStep-cleared (fires a e) c = ground arith

StopReach-cleared : {s t : StopMachine} → s.loop ≡ cleared → StopReach s t → t.loop ≡ cleared
StopReach-cleared c start = c
StopReach-cleared c (then r st) = StopStep-cleared st (StopReach-cleared c r)

-- An action whose timer was just started, before any turn of the loop.
abbrev pub pending : StopMachine
pending = record {
  lock = free;
  loop = locking;
  thread = selecting;
  timer = counting;
  listed = true;
  sent = false;
}

pending-IsSafe : IsSafe pending
pending-IsSafe = grind arith

-- If ClearActions does get past an action, in any interleaving of the clock, the loop and the
-- action's thread, then the thread has not sent the action to the loop and never will: it is gone,
-- or about to leave without firing.
pub cleared_never_fires :
    (t u : StopMachine)
    → StopReach pending t
    → t.loop ≡ cleared
    → StopReach t u
    → (u.sent ≡ false) × (will_fire u.thread ≡ false)
cleared_never_fires t u r e q =
    let v = StopReach-IsSafe (StopReach-IsSafe pending-IsSafe r) q in
    let c = StopReach-cleared e q in let quiet = v.past_quiet (ground arith) in (quiet.1, quiet.0)

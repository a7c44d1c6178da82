-- ===== src/Queue/Bounds.antt =====
-- queue/queue.go: how long the queue gets, what is in it, and whether its thread lives.
use helper.Base.{
  ℕ, ◌<◌, ◌≡◌, refl, inl, inr, true, Option, none, some, List, [], ◌∷◌, ◌++◌, arith, length,
  length-append, All, All-append, All-split, if◌then◌else◌, Option-cases, Bool-cases, ◌==◌, ==_iff,
}
use helper.Base.Int.{ℤ, pos, ltz}
use helper.Queue.{
  Queue, Value, Op, adds, flushes, ticks, stops, sets, set_flush, new, add, flush, tick,
  flush_queue, stop_flush_thread, start_flush_thread, apply, apply_all, check_value, append_value,
  running, panicked,
}
use helper.Queue.Conservation.{delivered}

-- After an Add that succeeds, a capability above zero has not been reached: the queue has fewer
-- values than that, those that Add has just flushed being gone.
pub add-lt-flush_cap :
    (q : Queue) (v : Option Value)
    → (add q v).1 ≡ none
    → 0 < q.flush_cap
    → length (add q v).0.elems < q.flush_cap
unfolding add append_value flush_queue
add-lt-flush_cap q v ok c = ground (arith, length-append q.elems (v ∷ []))

-- A value that is not nil and has this dynamic type.
abbrev pub HasType : ℕ → Option Value → Type 0
HasType t none = ⊥
HasType t (some v) = v.type_of ≡ t

record IsTyped (t : ℕ) (q : Queue) : Type 0 where
  type_set : q.elem_type ≡ some t
  waiting : All (HasType t) q.elems
  handed_out : All (HasType t) (delivered q.flushed)

delivered_one :
    (t : ℕ) (calls : List (ℕ × List (Option Value))) (g : ℕ) (vs : List (Option Value))
    → All (HasType t) (delivered calls)
    → All (HasType t) vs
    → All (HasType t) (delivered (calls ++ (g, vs) ∷ []))
delivered_one t [] g vs h k = All-append (HasType t) vs [] k tt
delivered_one t ((g', ws) ∷ calls) g vs h k =
    let (first, rest) = All-split (HasType t) ws (delivered calls) h in
    All-append (HasType t) ws _ first (delivered_one t calls g vs rest k)

flush_queue-IsTyped : (t : ℕ) (q : Queue) → IsTyped t q → IsTyped t (flush_queue q)
unfolding flush_queue
flush_queue-IsTyped t q v = elim (Option-cases q.f) [
  | inl e ↦ ground arith
  | inr (g, e) ↦ ground (arith, delivered_one t q.flushed g q.elems v.handed_out v.waiting)
]

add-IsTyped : (t : ℕ) (q : Queue) (v : Option Value) → IsTyped t q → IsTyped t (add q v).0
unfolding add check_value append_value
add-IsTyped t q none v = ground arith
add-IsTyped t q (some x) v = elim (Bool-cases (x.type_of == t)) [
  | inl same ↦ ground (arith, appended same, flush_queue-IsTyped t _ (appended same))
  | inr other ↦ ground arith
]
  where
    appended : (x.type_of == t) ≡ true → IsTyped t (record q { elems = q.elems ++ some x ∷ [] })
    appended same = record {
      type_set = v.type_set;
      waiting =
          All-append (HasType t) q.elems (some x ∷ []) v.waiting ((==_iff x.type_of t).0 same, tt);
      handed_out = v.handed_out;
    }

apply-IsTyped : (t : ℕ) (q : Queue) (o : Op) → IsTyped t q → IsTyped t (apply q o)
unfolding apply flush tick stop_flush_thread set_flush
apply-IsTyped t q (adds x) v = add-IsTyped t q x v
apply-IsTyped t q flushes v = flush_queue-IsTyped t q v
apply-IsTyped t q ticks v = ground (arith, flush_queue-IsTyped t q v)
apply-IsTyped t q stops v = ground (arith, flush_queue-IsTyped t q v)
apply-IsTyped t q (sets g cap d) v = record {
  type_set = v.type_set;
  waiting = v.waiting;
  handed_out = v.handed_out;
}

apply_all-IsTyped : (t : ℕ) (q : Queue) (os : List Op) → IsTyped t q → IsTyped t (apply_all q os)
unfolding apply_all
apply_all-IsTyped t q [] v = v
apply_all-IsTyped t q (o ∷ os) v = apply_all-IsTyped t (apply q o) os (apply-IsTyped t q o v)

-- In a queue made for one type, after any calls, every value that waits and every value that a flush
-- function ever got is of that type, and none is nil.
pub apply_all-typed :
    (t : ℕ) (os : List Op)
    → let q = apply_all (new (some t)) os in
      All (HasType t) q.elems × All (HasType t) (delivered q.flushed)
unfolding new
apply_all-typed t os =
    let v =
      apply_all-IsTyped t (new (some t)) os
        (record { type_set = refl; waiting = tt; handed_out = tt }) in
    (v.waiting, v.handed_out)

-- StartFlushThread with a duration that is not above zero, on a queue that never had a ticker,
-- starts a thread that panics on the nil ticker, whatever the capability; with a positive duration
-- the thread runs.
pub start_flush_thread-panics :
    (q : Queue) (g : ℕ) (cap t : ℤ)
    → q.flush_ticker ≡ none
    → (apply_all q (start_flush_thread (some g) cap t)).thread
      ≡ (if ltz (pos 0) t then running else panicked)
unfolding start_flush_thread apply_all apply set_flush stop_flush_thread flush_queue
start_flush_thread-panics q g cap t e = ground arith

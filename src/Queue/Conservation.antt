-- ===== src/Queue/Conservation.antt =====
-- queue/queue.go: no value that Add took is lost or handed out twice while a flush function is set.
use helper.Base.{
  ℕ, ◌+◌, ◌≤◌, ◌<◌, ◌≡◌, refl, ◌⊎◌, sym, ◌∙◌, inl, inr, true, Option, none, List, [], ◌∷◌, ◌++◌,
  append-nil, append_assoc, arith, length, is_some, if◌then◌else◌, length-append, Option-cases,
}
use helper.Queue.{
  Queue, Value, Op, adds, flushes, ticks, stops, sets, set_flush, add, flush, tick, flush_queue,
  stop_flush_thread, apply, apply_all, check_value, append_value,
}

-- All that flush functions got, in order.
abbrev pub delivered : List (ℕ × List (Option Value)) → List (Option Value)
delivered [] = []
delivered ((g, vs) ∷ calls) = vs ++ delivered calls

delivered-append :
    (cs ds : List (ℕ × List (Option Value))) → delivered (cs ++ ds) ≡ delivered cs ++ delivered ds
delivered-append [] ds = refl
delivered-append ((g, vs) ∷ calls) ds = rw (delivered-append calls ds, append_assoc) refl

-- All that was taken and not forgotten: what flush functions got and what still waits.
abbrev pub held : Queue → List (Option Value)
held q = delivered q.flushed ++ q.elems

-- What a call adds to that: the value, if Add accepts it.
abbrev pub accepted : Option ℕ → Op → List (Option Value)
accepted t (adds v) = if is_some (check_value t v) then [] else v ∷ []
accepted t _ = []

abbrev pub accepted_all : Option ℕ → List Op → List (Option Value)
accepted_all t [] = []
accepted_all t (o ∷ os) = accepted t o ++ accepted_all t os

-- A flush function is set, or nothing waits.
abbrev pub IsCovered : Queue → Type 0
IsCovered q = (is_some q.f ≡ true) ⊎ (q.elems ≡ [])

-- Add comes only while a flush function is set.
abbrev pub Ready : Queue → Op → Type 0
Ready q (adds v) = is_some q.f ≡ true
Ready q o = Unit

unfoldable pub AddsWhileSet : Queue → List Op → Type 0
unfolding apply
AddsWhileSet q [] = Unit
AddsWhileSet q (o ∷ os) = Ready q o × AddsWhileSet (apply q o) os

flush_queue_lem :
    (q : Queue)
    → IsCovered q
    → (held (flush_queue q) ≡ held q)
      × ((flush_queue q).elems ≡ [])
      × ((flush_queue q).f ≡ q.f)
      × ((flush_queue q).elem_type ≡ q.elem_type)
unfolding flush_queue
flush_queue_lem q (inl e) = elim (Option-cases q.f) [
  | inl n ↦ ground arith
  | inr (g, n) ↦ ground (
    arith,
    delivered-append q.flushed ((g, q.elems) ∷ []),
    append-nil q.elems,
    append-nil (delivered q.flushed ++ q.elems),
  )
]
flush_queue_lem q (inr e) = ground arith

-- A step keeps a queue covered, and adds what it accepts behind the rest.
Keeps : Queue → Queue → List (Option Value) → Type 0
Keeps q r vs = IsCovered r × (r.elem_type ≡ q.elem_type) × (held r ≡ held q ++ vs)

add-Keeps :
    (q : Queue) (v : Option Value)
    → is_some q.f ≡ true
    → Keeps q (apply q (adds v)) (accepted q.elem_type (adds v))
unfolding apply add append_value Keeps check_value
add-Keeps q v e = ground (
  arith,
  flush_queue_lem (record q { elems = q.elems ++ v ∷ [] }) (inl e),
  append_assoc (delivered q.flushed) q.elems (v ∷ []),
  append-nil (held q),
)

stop-Keeps : (q : Queue) → IsCovered q → Keeps q (stop_flush_thread q) []
unfolding stop_flush_thread Keeps
stop-Keeps q c = ground (arith, flush_queue_lem q c, append-nil (held q))

apply-Keeps :
    (q : Queue) (o : Op) → IsCovered q → Ready q o → Keeps q (apply q o) (accepted q.elem_type o)
unfolding apply Keeps flush tick set_flush
apply-Keeps q (adds v) c h = add-Keeps q v h
apply-Keeps q flushes c h = ground (arith, flush_queue_lem q c, append-nil (held q))
apply-Keeps q ticks c h = ground (arith, flush_queue_lem q c, append-nil (held q))
apply-Keeps q stops c h = stop-Keeps q c
apply-Keeps q (sets g cap t) c h = (inl refl, refl, sym (append-nil (held q)))

-- If a queue has a flush function or nothing waits in it, then whatever calls, starts and stops of the
-- flush thread, and ticks come, in any order of their critical sections, no value is lost, repeated or
-- moved as long as Add comes only while a flush function is set, which it is not between the two
-- critical sections of StartFlushThread: what flush functions got, followed by what still waits, is
-- what it was before followed by the values that Add accepted, in their order.
pub apply_all-conserves :
    (q : Queue) (os : List Op)
    → IsCovered q
    → AddsWhileSet q os
    → held (apply_all q os) ≡ held q ++ accepted_all q.elem_type os
unfolding apply_all Keeps AddsWhileSet
apply_all-conserves q [] c h = sym (append-nil (held q))
apply_all-conserves q (o ∷ os) c h =
    let (covered, same_type, kept) = apply-Keeps q o c h.0 in
    apply_all-conserves (apply q o) os covered h.1
    ∙ rw (kept, same_type)
        (append_assoc (held q) (accepted q.elem_type o) (accepted_all q.elem_type os))

-- Without a flush function, as after StopFlushThread and in the midst of StartFlushThread, which leave
-- the capability set, the Add that
-- reaches the capability takes its value without an error and drops it with all that waited.
pub add_forgets :
    (q : Queue) (v : Option Value)
    → q.f ≡ none
    → 0 < q.flush_cap
    → q.flush_cap ≤ length q.elems + 1
    → check_value q.elem_type v ≡ none
    → let (q', err) = add q v in (err ≡ none) × (q'.elems ≡ []) × (q'.flushed ≡ q.flushed)
unfolding add append_value flush_queue
add_forgets q v e c l ok = ground (arith, length-append q.elems (v ∷ []))

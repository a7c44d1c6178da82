-- ===== src/Migration/Advance.antt =====
-- redisw/cmd/migrate.go: when the loop of main ends, and with which rows copied.
use helper.Base.{
  is_empty, ℕ, zero, suc, ◌+◌, ◌%◌, ◌<◌, ◌≡◌, refl, sym, ap, subst, append_assoc, if◌then◌else◌,
  ◌∙◌, false, Option, none, some, List, [], ◌∷◌, ◌++◌, ◌==◌, length, length-append, length-drop,
  length-keep-le, take, drop, All, All-split, arith, Bool-cases, inl, inr,
}
use helper.Base.Int.{ℤ, ltz}
use helper.Base.Text.{codes}
use helper.Migration.{
  Record, Redis, Command, set, Progress, run, run_step, scan_step, sanity_checked, row_calls,
  union_id_of, advance, set_processed_id, migrate_to_redis, after_calls, on_row, scan_batch,
  after_batch, batch_step, main_loop,
}
use helper.Migration.Order.{
  Ascending, after_id, keep_of_All, after_id-next, last_id, last_id-append, take-drop,
}

shifted : (n m : ℕ) → suc n + m ≡ n + suc m
shifted n m = omega arith

module _ (redis : Redis) where
  -- Redis refuses no call.
  abbrev pub Accepts : Type 0
  Accepts = (s : redis.State) (c : Command) → (redis.call s c).1 ≡ none

  abbrev pub HasMac : Record → Type 0
  HasMac r = is_empty r.ac_mac ≡ false

  run-Accepts : Accepts → (s : redis.State) (cs : List Command) → (run redis s cs).1 ≡ none
  unfolding run
  run-Accepts ok s [] = refl
  run-Accepts ok s (c ∷ cs) =
      let s' = (redis.call s c).0 in
      ap (λ o. (run_step redis (run redis s' cs) s' o).1) (ok s c) ∙ run-Accepts ok s' cs

  -- Redis after calls, whose errors are not looked at.
  abbrev pub execute : redis.State → List Command → redis.State
  execute s [] = s
  execute s (c ∷ cs) = execute (redis.call s c).0 cs

  execute-append :
      (s : redis.State) (cs ds : List Command) → execute s (cs ++ ds) ≡ execute (execute s cs) ds
  execute-append s [] ds = refl
  execute-append s (c ∷ cs) ds = execute-append (redis.call s c).0 cs ds

  run-execute : Accepts → (s : redis.State) (cs : List Command) → (run redis s cs).0 ≡ execute s cs
  unfolding run
  run-execute ok s [] = refl
  run-execute ok s (c ∷ cs) =
      let s' = (redis.call s c).0 in
      ap (λ o. (run_step redis (run redis s' cs) s' o).0) (ok s c) ∙ run-execute ok s' cs

  -- The id of every thousandth row is written down.
  abbrev pub written : ℕ → ℤ → List Command
  written n id = if n % 1000 == 0 then set (codes "ch_records_processed") id ∷ [] else []

  -- The calls that copy rows, of which `n` were copied before.
  abbrev pub copying : ℕ → List Record → List Command
  copying n [] = []
  copying n (r ∷ rs) =
      (row_calls redis (union_id_of redis r) r ++ written (suc n) r.id) ++ copying (suc n) rs

  copying-append :
      (n : ℕ) (xs ys : List Record)
      → copying n (xs ++ ys) ≡ copying n xs ++ copying (n + length xs) ys
  copying-append n [] ys = ap (λ m. copying m ys) (omega arith)
  copying-append n (r ∷ xs) ys =
      let calls = row_calls redis (union_id_of redis r) r ++ written (suc n) r.id in
      ap (λ cs. calls ++ cs)
        (copying-append (suc n) xs ys
          ∙ ap (λ m. copying (suc n) xs ++ copying m ys) (shifted n (length xs)))
      ∙ sym (append_assoc calls (copying (suc n) xs) (copying (n + suc (length xs)) ys))

  -- A row that is copied.
  abbrev Advances : Progress redis → Record → Progress redis → Type 0
  Advances p r p' =
      (p'.id_processed ≡ r.id)
      × (p'.processed ≡ suc p.processed)
      × (p'.store
          ≡ execute p.store
              (row_calls redis (union_id_of redis r) r ++ written (suc p.processed) r.id))

  advance_lem :
      (p : Progress redis) (r : Record) (s : redis.State)
      → let p' = advance redis (record p { store = s }) r in
        (p'.id_processed ≡ r.id)
        × (p'.processed ≡ suc p.processed)
        × (p'.store ≡ execute s (written (suc p.processed) r.id))
  advance_lem p r s = elim (Bool-cases (suc p.processed % 1000 == 0)) [
    | inl e ↦ rw e (refl, refl, refl)
    | inr e ↦ rw e (refl, refl, refl)
  ]

  after_calls-Advances :
      (p : Progress redis) (r : Record) (res : redis.State × Option ℕ)
      → res.1 ≡ none
      → res.0 ≡ execute p.store (row_calls redis (union_id_of redis r) r)
      → Advances p r (after_calls redis p r res).0
  after_calls-Advances p r (s, none) e st =
      let (id, count, stored) = advance_lem p r s in
      let calls = row_calls redis (union_id_of redis r) r in
      (
        id,
        count,
        stored
            ∙ ap (λ x. execute x (written (suc p.processed) r.id)) st
            ∙ sym (execute-append p.store calls (written (suc p.processed) r.id)),
      )
  after_calls-Advances p r (s, some n) e st = absurd cc

  on_row-Advances :
      (p : Progress redis) (r : Record) → Accepts → HasMac r → Advances p r (on_row redis p r)
  unfolding on_row migrate_to_redis
  on_row-Advances p r ok m =
      let calls = row_calls redis (union_id_of redis r) r in
      subst (λ b. Advances p r (sanity_checked redis p r b).0) (sym m)
        (after_calls-Advances p r (run redis p.store calls) (run-Accepts ok p.store calls)
          (run-execute ok p.store calls))

  -- A batch, when the context is not done and no row fails.
  scan_batch-Accepts :
      (table xs ys : List Record) (ctx_err : Progress redis → Option ℕ) (p : Progress redis)
      → Accepts
      → ((q : Progress redis) → ctx_err q ≡ none)
      → Ascending table
      → All HasMac xs
      → after_id p.id_processed table ≡ xs ++ ys
      → (q : Progress redis) × (scan_batch redis ctx_err p xs ≡ (q, none))
        × (after_id q.id_processed table ≡ ys)
        × (q.id_processed ≡ last_id p.id_processed xs)
        × (q.processed ≡ p.processed + length xs)
        × (q.store ≡ execute p.store (copying p.processed xs))
  unfolding scan_batch
  scan_batch-Accepts table [] ys ctx_err p ok c asc m h = (p, refl, h, refl, omega arith, refl)
  scan_batch-Accepts table (r ∷ xs) ys ctx_err p ok c asc m h =
      let p' = on_row redis p r in
      let (at, one, copied) = on_row-Advances p r ok m.0 in
      let calls = row_calls redis (union_id_of redis r) r ++ written (suc p.processed) r.id in
      let next =
        ap (λ n. after_id n table) at ∙ after_id-next p.id_processed table r (xs ++ ys) asc h in
      let (q, e, left, id, count, stored) =
        scan_batch-Accepts table xs ys ctx_err p' ok c asc m.1 next in
      (
        q,
        ap (scan_step redis (scan_batch redis ctx_err p' xs) p) (c p) ∙ e,
        left,
        id ∙ ap (λ n. last_id n xs) at,
        omega (arith, one, count),
        stored
            ∙ ap (λ n. execute p'.store (copying n xs)) one
            ∙ ap (λ s. execute s (copying (suc p.processed) xs)) copied
            ∙ sym (execute-append p.store calls (copying (suc p.processed) xs)),
      )

  -- The last id is written down when the loop ends.
  abbrev pub finally : ℤ → List Record → List Command
  finally id rs = set (codes "ch_records_processed") (last_id id rs) ∷ []

  both_stored :
      (p : Progress redis) (xs ys : List Record) (q : Progress redis)
      → q.store ≡ execute p.store (copying p.processed xs)
      → q.processed ≡ p.processed + length xs
      → q.id_processed ≡ last_id p.id_processed xs
      → execute q.store (copying q.processed ys ++ finally q.id_processed ys)
        ≡ execute p.store (copying p.processed (xs ++ ys) ++ finally p.id_processed (xs ++ ys))
  both_stored p xs ys q stored count id =
      let n = p.processed + length xs in
      let last = finally p.id_processed (xs ++ ys) in
      ap (λ s. execute s (copying q.processed ys ++ finally q.id_processed ys)) stored
      ∙ sym (
          execute-append p.store (copying p.processed xs)
            (copying q.processed ys ++ finally q.id_processed ys))
      ∙ ap (execute p.store) (
          ap (λ m. copying p.processed xs ++ (copying m ys ++ finally q.id_processed ys)) count
          ∙ ap
              (λ i.
                copying p.processed xs
                ++ (copying n ys ++ (set (codes "ch_records_processed") i ∷ [])))
              (ap (λ i. last_id i ys) id ∙ last_id-append p.id_processed xs ys)
          ∙ sym (append_assoc (copying p.processed xs) (copying n ys) last)
          ∙ ap (λ cs. cs ++ last) (sym (copying-append p.processed xs ys)))

  main_loop-Accepts :
      (fuel : ℕ) (table rest : List Record) (ctx_err : Progress redis → Option ℕ)
      (p : Progress redis)
      → Accepts
      → ((q : Progress redis) → ctx_err q ≡ none)
      → Ascending table
      → All HasMac rest
      → after_id p.id_processed table ≡ rest
      → length rest < fuel
      → (q : Progress redis) × (main_loop redis fuel ctx_err table p ≡ some q)
        × (q.id_processed ≡ last_id p.id_processed rest)
        × (q.processed ≡ p.processed + length rest)
        × (q.store ≡ execute p.store (copying p.processed rest ++ finally p.id_processed rest))
  unfolding main_loop
  main_loop-Accepts zero table rest ctx_err p ok c asc m h l = absurd (omega (arith, l))
  main_loop-Accepts (suc fuel) table [] ctx_err p ok c asc m h l = (
    set_processed_id redis p,
    ap (λ rs. batch_step redis ctx_err (main_loop redis fuel ctx_err table) p (take 1000 rs)) h,
    refl,
    omega arith,
    refl,
  )
  main_loop-Accepts (suc fuel) table (r ∷ rs) ctx_err p ok c asc m h l =
      let xs = r ∷ take 999 rs in
      let ys = drop 999 rs in
      let whole : xs ++ ys ≡ r ∷ rs = ap (λ t. r ∷ t) (take-drop 999 rs) in
      let (mx, my) = All-split HasMac xs ys (subst (All HasMac) (sym whole) m) in
      let (q, e, left, id, count, stored) =
        scan_batch-Accepts table xs ys ctx_err p ok c asc mx (h ∙ sym whole) in
      let (z, e', id', count', stored') =
        main_loop-Accepts fuel table ys ctx_err q ok c asc my left
          (omega (arith, l, length-drop 999 rs)) in
      let again = main_loop redis fuel ctx_err table in
      (
        z,
        ap (λ b. batch_step redis ctx_err again p (take 1000 b)) h
            ∙ ap (after_batch redis again) e
            ∙ e',
        id'
            ∙ ap (λ n. last_id n ys) id
            ∙ last_id-append p.id_processed xs ys
            ∙ ap (last_id p.id_processed) whole,
        omega (arith, count', count, length-append xs ys, ap length whole),
        stored'
            ∙ both_stored p xs ys q stored count id
            ∙ ap (λ t. execute p.store (copying p.processed t ++ finally p.id_processed t)) whole,
      )

  -- If Redis refuses no call, the context is never done, and every row has an acmac, the loop of main
  -- ends, and Redis is then as after the calls for every row after the last processed id, in the order
  -- of the growing ids of the table, with the id of every thousandth row that is processed and at the
  -- end that of the last row written down; the processed id is that of the last row, and as many more
  -- are processed as there are such rows. Fuel above the number of rows is enough.
  pub main_loop-migrates :
      (fuel : ℕ) (table : List Record) (ctx_err : Progress redis → Option ℕ) (p : Progress redis)
      → Accepts
      → ((q : Progress redis) → ctx_err q ≡ none)
      → Ascending table
      → All HasMac table
      → length table < fuel
      → (q : Progress redis) × (main_loop redis fuel ctx_err table p ≡ some q)
        × (q.id_processed ≡ last_id p.id_processed (after_id p.id_processed table))
        × (q.processed ≡ p.processed + length (after_id p.id_processed table))
        × (q.store
            ≡ execute p.store (
                copying p.processed (after_id p.id_processed table)
                ++ finally p.id_processed (after_id p.id_processed table)))
  main_loop-migrates fuel table ctx_err p ok c asc m l =
      main_loop-Accepts fuel table (after_id p.id_processed table) ctx_err p ok c asc
        (keep_of_All HasMac (λ r. ltz p.id_processed r.id) table m) refl
        (omega (arith, l, length-keep-le (λ r. ltz p.id_processed r.id) table))

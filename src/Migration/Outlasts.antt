-- ===== src/Migration/Outlasts.antt =====
-- redisw/cmd/migrate.go: when the loop of main does not end.
use helper.Base.{is_empty, ℕ, zero, suc, ◌≡◌, refl, ap, ◌∙◌, true, Option, none, List, [], ◌∷◌, All}
use helper.Migration.{
  Record, Redis, Progress, scan_step, sanity_checked, migrate_to_redis, on_row, scan_batch,
  next_batch, after_batch, batch_step, main_loop,
}

module _ (redis : Redis) where
  -- A row without an acmac.
  abbrev pub LacksMac : Record → Type 0
  LacksMac r = is_empty r.ac_mac ≡ true

  scan_batch-LacksMac :
      (rows : List Record) (ctx_err : Progress redis → Option ℕ) (p : Progress redis)
      → ((q : Progress redis) → ctx_err q ≡ none)
      → All LacksMac rows
      → scan_batch redis ctx_err p rows ≡ (p, none)
  unfolding scan_batch on_row migrate_to_redis
  scan_batch-LacksMac [] ctx_err p c m = refl
  scan_batch-LacksMac (r ∷ rows) ctx_err p c m =
      let same : on_row redis p r ≡ p = ap (λ b. (sanity_checked redis p r b).0) m.0 in
      ap (scan_step redis (scan_batch redis ctx_err (on_row redis p r) rows) p) (c p)
      ∙ ap (λ q. scan_batch redis ctx_err q rows) same
      ∙ scan_batch-LacksMac rows ctx_err p c m.1

  -- If the next batch is not empty and none of its rows has an acmac, the loop of main asks for the
  -- same batch again and again, and ends after no number of rounds while the context is not done.
  pub main_loop-outlasts :
      (fuel : ℕ) (table : List Record) (ctx_err : Progress redis → Option ℕ) (p : Progress redis)
      (r : Record) (rows : List Record)
      → ((q : Progress redis) → ctx_err q ≡ none)
      → next_batch redis table p.id_processed ≡ r ∷ rows
      → All LacksMac (r ∷ rows)
      → main_loop redis fuel ctx_err table p ≡ none
  unfolding main_loop
  main_loop-outlasts zero table ctx_err p r rows c b m = refl
  main_loop-outlasts (suc fuel) table ctx_err p r rows c b m =
      let again = main_loop redis fuel ctx_err table in
      ap (batch_step redis ctx_err again p) b
      ∙ ap (after_batch redis again) (scan_batch-LacksMac (r ∷ rows) ctx_err p c m)
      ∙ main_loop-outlasts fuel table ctx_err p r rows c b m

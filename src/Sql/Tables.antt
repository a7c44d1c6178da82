-- ===== src/Sql/Tables.antt =====
-- sqlimpl/sqlimpl.go, InitTables: the transaction that creates the tables.
use helper.Base.{
  ℕ, ◌≡◌, refl, ap, ◌∙◌, Bool, true, Option, none, some, List, [], ◌∷◌, ◌++◌, map, if◌then◌else◌,
  bytes_eq, Option-cases, subst, append_assoc, append-nil, ◌⊎◌, sym, inl, inr,
}
use helper.Base.Text.{Bytes, codes, join}
use helper.Sql.{
  Database, Command, begin, commit, rollback, exec_tx, History, after, DataTable, SqlError,
  database,
}

abbrev pub drop_string : List DataTable → Bytes
drop_string tables = codes "DROP TABLE IF EXISTS " ++ join (map (λ t. t.name) tables) (codes ",")

abbrev pub connect : DataTable → DataTable
connect t = record t { connected = true }

abbrev pub error_of : Option ℕ → Option SqlError
error_of none = none
error_of (some e) = some (database e)

-- What InitTables leaves: the calls, the tables and the error.
pub record Created : Type 0 where
  pub history : History
  pub tables : List DataTable
  pub error : Option SqlError

abbrev pub prepend : DataTable → Created → Created
prepend t c = record c { tables = t ∷ c.tables }

-- A table that is created, or refused, which ends the loop.
abbrev pub create_step : DataTable → List DataTable → History → Created → Option ℕ → Created
create_step t ts h rest none = prepend (connect t) rest
create_step t ts h rest (some e) = record {
  history = h;
  tables = t ∷ ts;
  error = some (database e);
}

module _ (db : Database) where
  -- The loop over the tables.
  unfoldable pub create_all : List DataTable → History → Created
  create_all [] h = record { history = h; tables = []; error = none }
  create_all (t ∷ ts) h =
      let c = exec_tx t.create_statement in
      let rest = create_all ts (after h c) in create_step t ts (after h c) rest (db.error h c)

  abbrev pub is_mysql : Bytes → Bool
  is_mysql driver = bytes_eq driver (codes "mysql")

  -- From `out:` on; the DROP names the tables of the whole list.
  abbrev pub finish : Bytes → List DataTable → Created → Option SqlError → Created
  finish driver tables c none = record c {
    history = after c.history commit;
    error = error_of (db.error c.history commit);
  }
  finish driver tables c (some e) = record c {
    history = after c.history (if is_mysql driver then exec_tx (drop_string tables) else rollback);
  }

  abbrev pub init_from : Bytes → List DataTable → History → Option ℕ → Created
  unfolding create_all
  init_from driver tables h (some e) = record {
    history = h;
    tables = tables;
    error = some (database e);
  }
  init_from driver tables h none = let c = create_all tables h in finish driver tables c c.error

  unfoldable pub init_tables : Bytes → List DataTable → History → Created
  unfolding create_all
  init_tables driver tables h = init_from driver tables (after h begin) (db.error h begin)

  -- The statements of tables.
  abbrev pub creations : List DataTable → List Command
  creations = map (λ t. exec_tx t.create_statement)

  -- The calls after the history, none of which is refused.
  abbrev pub Accepted : History → List Command → Type 0
  Accepted h [] = Unit
  Accepted h (c ∷ cs) = (db.error h c ≡ none) × Accepted (h ++ (c ∷ [])) cs

  -- All tables are created; or the first that is refused, and those before it.
  abbrev AllCreated : List DataTable → History → Created → Type 0
  AllCreated ts h c =
      Accepted h (creations ts)
      × (c.history ≡ h ++ creations ts)
      × (c.tables ≡ map connect ts)
      × (c.error ≡ none)

  abbrev OneRefused : List DataTable → History → Created → Type 0
  OneRefused ts h c =
      (xs : List DataTable) × (t : DataTable) × (ys : List DataTable) × (e : ℕ) × (ts
        ≡ xs ++ (t ∷ ys))
      × Accepted h (creations xs)
      × (db.error (h ++ creations xs) (exec_tx t.create_statement) ≡ some e)
      × (c.history ≡ h ++ (creations xs ++ (exec_tx t.create_statement ∷ [])))
      × (c.tables ≡ map connect xs ++ (t ∷ ys))
      × (c.error ≡ some (database e))

  prepend-all :
      (t : DataTable) (ts : List DataTable) (h : History) (rest : Created)
      → db.error h (exec_tx t.create_statement) ≡ none
      → AllCreated ts (after h (exec_tx t.create_statement)) rest
      → AllCreated (t ∷ ts) h (prepend (connect t) rest)
  prepend-all t ts h rest n (ok, hist, tabs, err) = (
    (n, ok),
    hist ∙ append_assoc h (exec_tx t.create_statement ∷ []) (creations ts),
    ap (λ xs. connect t ∷ xs) tabs,
    err,
  )

  prepend-refused :
      (t : DataTable) (ts : List DataTable) (h : History) (rest : Created)
      → db.error h (exec_tx t.create_statement) ≡ none
      → OneRefused ts (after h (exec_tx t.create_statement)) rest
      → OneRefused (t ∷ ts) h (prepend (connect t) rest)
  prepend-refused t ts h rest n (xs, u, ys, e, split, ok, ref, hist, tabs, err) =
      let c = exec_tx t.create_statement in
      let d = exec_tx u.create_statement in
      (
        t ∷ xs,
        u,
        ys,
        e,
        ap (λ zs. t ∷ zs) split,
        (n, ok),
        ap (λ g. db.error g d) (sym (append_assoc h (c ∷ []) (creations xs))) ∙ ref,
        hist ∙ append_assoc h (c ∷ []) (creations xs ++ (d ∷ [])),
        ap (λ zs. connect t ∷ zs) tabs,
        err,
      )

  prepend-either :
      (t : DataTable) (ts : List DataTable) (h : History) (rest : Created)
      → db.error h (exec_tx t.create_statement) ≡ none
      → AllCreated ts (after h (exec_tx t.create_statement)) rest
        ⊎ OneRefused ts (after h (exec_tx t.create_statement)) rest
      → AllCreated (t ∷ ts) h (prepend (connect t) rest)
        ⊎ OneRefused (t ∷ ts) h (prepend (connect t) rest)
  prepend-either t ts h rest n (inl a) = inl (prepend-all t ts h rest n a)
  prepend-either t ts h rest n (inr b) = inr (prepend-refused t ts h rest n b)

  create_all-either :
      (ts : List DataTable) (h : History)
      → AllCreated ts h (create_all ts h) ⊎ OneRefused ts h (create_all ts h)
  unfolding create_all
  create_all-either [] h = inl (tt, sym (append-nil h), refl, refl)
  create_all-either (t ∷ ts) h =
      let c = exec_tx t.create_statement in
      let rest = create_all ts (after h c) in
      elim (Option-cases (db.error h c)) [
        | inl n ↦
            subst
              (λ o.
                AllCreated (t ∷ ts) h (create_step t ts (after h c) rest o)
                ⊎ OneRefused (t ∷ ts) h (create_step t ts (after h c) rest o))
              (sym n) (prepend-either t ts h rest n (create_all-either ts (after h c)))
        | inr (e, r) ↦
            subst
              (λ o.
                AllCreated (t ∷ ts) h (create_step t ts (after h c) rest o)
                ⊎ OneRefused (t ∷ ts) h (create_step t ts (after h c) rest o))
              (sym r)
              (inr (
                [],
                t,
                ts,
                e,
                refl,
                tt,
                ap (λ g. db.error g c) (append-nil h) ∙ r,
                refl,
                refl,
                refl,
              ))
      ]

  -- What InitTables does after the calls `begun`, the last of which is Begin: it executes the statement
  -- of every table, none is refused, and it commits; or it executes them up to the first that is
  -- refused, whose error it returns, and then a DROP of all tables for mysql, else a rollback.
  abbrev pub Transaction : Bytes → List DataTable → History → Created → Type 0
  Transaction driver ts begun r =
      (Accepted begun (creations ts)
        × (r.history ≡ begun ++ (creations ts ++ (commit ∷ [])))
        × (r.tables ≡ map connect ts)
        × (r.error ≡ error_of (db.error (begun ++ creations ts) commit)))
      ⊎ ((xs : List DataTable) × (t : DataTable) × (ys : List DataTable) × (e : ℕ) × (ts
            ≡ xs ++ (t ∷ ys))
          × Accepted begun (creations xs)
          × (db.error (begun ++ creations xs) (exec_tx t.create_statement) ≡ some e)
          × (r.history
              ≡ begun
                ++ (creations xs
                    ++ (exec_tx t.create_statement
                        ∷ (if is_mysql driver then exec_tx (drop_string ts) else rollback)
                        ∷ [])))
          × (r.tables ≡ map connect xs ++ (t ∷ ys))
          × (r.error ≡ some (database e)))

  finish-Transaction :
      (driver : Bytes) (ts : List DataTable) (h : History) (c : Created)
      → AllCreated ts h c ⊎ OneRefused ts h c
      → Transaction driver ts h (finish driver ts c c.error)
  finish-Transaction driver ts h c (inl (ok, hist, tabs, err)) =
      subst (λ o. Transaction driver ts h (finish driver ts c o)) (sym err)
        (inl (
          ok,
          ap (λ g. g ++ (commit ∷ [])) hist ∙ append_assoc h (creations ts) (commit ∷ []),
          tabs,
          ap (λ g. error_of (db.error g commit)) hist,
        ))
  finish-Transaction driver ts h c (inr (xs, t, ys, e, split, ok, ref, hist, tabs, err)) =
      let last = if is_mysql driver then exec_tx (drop_string ts) else rollback in
      let d = exec_tx t.create_statement in
      subst (λ o. Transaction driver ts h (finish driver ts c o)) (sym err)
        (inr (
          xs,
          t,
          ys,
          e,
          split,
          ok,
          ref,
          ap (λ g. g ++ (last ∷ [])) hist
              ∙ append_assoc h (creations xs ++ (d ∷ [])) (last ∷ [])
              ∙ ap (λ g. h ++ g) (append_assoc (creations xs) (d ∷ []) (last ∷ [])),
          tabs,
          err,
        ))

  -- Once its transaction has begun, InitTables executes the CREATE statements of all tables, in order,
  -- and commits, if none of them is refused, with every table connected and the error of the commit;
  -- otherwise it executes them up to the first that is refused, connects the tables before it, ends
  -- with a rollback, or for mysql with a DROP of all tables in place of it, and returns the error of
  -- the refused one.
  pub init_tables-Transaction :
      (driver : Bytes) (ts : List DataTable) (h : History)
      → db.error h begin ≡ none
      → Transaction driver ts (h ++ (begin ∷ [])) (init_tables driver ts h)
  unfolding init_tables
  init_tables-Transaction driver ts h b = rw b (
      finish-Transaction driver ts (after h begin) (create_all ts (after h begin))
        (create_all-either ts (after h begin)))

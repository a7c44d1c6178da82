-- ===== src/Sql.antt =====
-- sqlimpl/sqlimpl.go: the statements that are built from tables, columns and values. The package
-- database/sql is a parameter that answers every command from the commands before it.
pub mod Bindings
pub mod Tables
pub mod Rows
pub mod Scan
mod Tests
use helper.Base.{
  is_empty, ℕ, ◌+◌, ◌-◌, ◌≡◌, refl, Bool, true, false, not, Option, none, some, List, [], ◌∷◌, ◌++◌,
  map, if◌then◌else◌, ◌==◌, length,
}
use helper.Base.Text.{Bytes, codes, join, repeat}
use helper.FastJson.{Value}
use helper.FastJson.Object.{JsonObject, keys, entries_of}

-- The calls of database/sql; a statement is told by its text.
pub data Command : Type 0 where
  begin commit rollback : Command
  exec_tx : Bytes → Command
  prepare : Bytes → Command
  exec_stmt : Bytes → List Value → Command
  query_row : Bytes → Command
  close_stmt : Bytes → Command
  exec : Bytes → List Value → Command

-- The calls so far, in order.
abbrev pub History : Type 0
History = List Command

-- The error of a call, if any, by a number, and the result of an accepted Exec.
pub record Database : Type 0 where
  pub error : History → Command → Option ℕ
  pub result : History → ℕ

pub data SqlError : Type 0 where
  length_mismatch : ℕ → ℕ → SqlError
  empty_keys empty_condition empty_args empty_column join_required no_result : SqlError
  database : ℕ → SqlError

pub data ExecResult : Type 0 where
  executed : ℕ → ExecResult
  refused : SqlError → ExecResult

abbrev pub after : History → Command → History
after h c = h ++ (c ∷ [])

abbrev pub exec_result : ℕ → Option ℕ → ExecResult
exec_result r none = executed r
exec_result r (some e) = refused (database e)

pub record DataTable : Type 0 where
  pub name : Bytes
  pub create_statement : Bytes
  pub connected : Bool

-- `strings.Repeat("?,", n-1) + "?"`.
abbrev pub place_holders : ℕ → Bytes
place_holders n = repeat (codes "?,") (n - 1) ++ codes "?"

-- `%s into %s (%s) values (%s);`.
abbrev pub insert_string : Bytes → Bytes → Bytes → Bytes → Bytes
insert_string act table cols holders =
    act
    ++ codes " into "
    ++ table
    ++ codes " ("
    ++ cols
    ++ codes ") values ("
    ++ holders
    ++ codes ");"

abbrev pub set_of : Bytes → Bytes
set_of key = key ++ codes "=?"

-- `delete from %s %s;`.
abbrev pub delete_string : Bytes → Bytes → Bytes
delete_string table condition = codes "delete from " ++ table ++ codes " " ++ condition ++ codes ";"

-- `update %s set %s %s;`.
abbrev pub update_string : Bytes → Bytes → Bytes → Bytes
update_string table sets condition =
    codes "update " ++ table ++ codes " set " ++ sets ++ codes " " ++ condition ++ codes ";"

-- `update %s set %s where %s`.
abbrev pub update_where_string : Bytes → Bytes → Bytes → Bytes
update_where_string table sets condition =
    codes "update " ++ table ++ codes " set " ++ sets ++ codes " where " ++ condition

-- `select %s from %s %s;`.
abbrev pub select_string : Bytes → Bytes → Bytes → Bytes
select_string column table condition =
    codes "select " ++ column ++ codes " from " ++ table ++ codes " " ++ condition ++ codes ";"

-- `select %s from %s inner join %s on %s %s;`.
abbrev pub join_string : Bytes → Bytes → Bytes → Bytes → Bytes → Bytes
join_string columns table another join_cond where_cond =
    codes "select "
    ++ columns
    ++ codes " from "
    ++ table
    ++ codes " inner join "
    ++ another
    ++ codes " on "
    ++ join_cond
    ++ codes " "
    ++ where_cond
    ++ codes ";"

abbrev pub act_of : Bool → Bytes
act_of true = codes "replace"
act_of false = codes "insert"

module _ (db : Database) where
  -- Prepare, Exec and Close of a statement.
  abbrev pub exec_prepared : Bytes → List Value → History → Option ℕ → History × ExecResult
  exec_prepared q args h (some e) = (h, refused (database e))
  exec_prepared q args h none = (
    after (after h (exec_stmt q args)) (close_stmt q),
    exec_result (db.result (after h (exec_stmt q args))) (db.error h (exec_stmt q args)),
  )

  unfoldable pub prepare_exec : Bytes → List Value → History → History × ExecResult
  prepare_exec q args h = exec_prepared q args (after h (prepare q)) (db.error h (prepare q))

  -- Prepare, QueryRow and Scan, and Close.
  abbrev pub query_prepared :
      (ℕ → SqlError) → Bytes → History → Option ℕ → History × Option SqlError
  query_prepared row_error q h (some e) = (h, some (database e))
  query_prepared row_error q h none = (
    after (after h (query_row q)) (close_stmt q),
    elim (db.error h (query_row q)) [ none ↦ none | some e ↦ some (row_error e) ],
  )

  unfoldable pub prepare_query : (ℕ → SqlError) → Bytes → History → History × Option SqlError
  prepare_query row_error q h =
      query_prepared row_error q (after h (prepare q)) (db.error h (prepare q))

  unfoldable pub delete : DataTable → Bytes → History → History × ExecResult
  unfolding prepare_exec
  delete t condition h = prepare_exec (delete_string t.name condition) [] h

  unfoldable pub find : DataTable → Bytes → Bytes → History → History × Option SqlError
  unfolding prepare_query
  find t column condition h =
      if is_empty column
      then (h, some empty_column)
      else prepare_query database (select_string column t.name condition) h

  -- The error of no row is sql.ErrNoRows, told by the number 0.
  abbrev pub row_error : ℕ → SqlError
  row_error e = if e == 0 then no_result else database e

  -- `vals` are as many pointers.
  unfoldable pub inner_join :
      DataTable → DataTable → Bytes → Bytes → List Bytes → ℕ → History → History × Option SqlError
  unfolding prepare_query
  inner_join t another join_cond where_cond columns vals h =
      if not (length columns == vals)
      then (h, some (length_mismatch (length columns) vals))
      else if is_empty join_cond
      then (h, some join_required)
      else prepare_query row_error
          (join_string (join columns (codes ",")) t.name another.name join_cond where_cond) h

  unfoldable pub insert : DataTable → List Bytes → List Value → History → History × ExecResult
  unfolding prepare_exec
  insert t columns args h =
      if not (length columns == length args)
      then (h, refused (length_mismatch (length columns) (length args)))
      else if is_empty columns
      then (h, refused empty_keys)
      else prepare_exec
          (insert_string (codes "insert") t.name (join columns (codes ","))
            (place_holders (length columns)))
          args h

  -- `DB.Exec` prepares nothing.
  abbrev pub exec_direct : Bytes → List Value → History → History × ExecResult
  exec_direct q args h = (
    after h (exec q args),
    exec_result (db.result (after h (exec q args))) (db.error h (exec q args)),
  )

  unfoldable pub update :
      DataTable → Bytes → List Bytes → List Value → History → History × ExecResult
  update t condition columns args h =
      if is_empty condition
      then (h, refused empty_condition)
      else if not (length columns == length args)
      then (h, refused (length_mismatch (length columns) (length args)))
      else if is_empty columns
      then (h, refused empty_keys)
      else exec_direct (update_string t.name (join (map set_of columns) (codes ",")) condition) args
          h

  abbrev pub insert_entries :
      Bytes → Bool → List Bytes × List Value → History → History × ExecResult
  unfolding prepare_exec
  insert_entries table replace (columns, args) h =
      prepare_exec
        (insert_string (act_of replace) table (join columns (codes ","))
          (place_holders (length columns)))
        args h

  abbrev pub update_entries :
      Bytes → List Bytes × List Value → Bytes → List Value → History → History × ExecResult
  unfolding prepare_exec
  update_entries table (columns, args) condition where_args h =
      prepare_exec (update_where_string table (join (map set_of columns) (codes ",")) condition)
        (args ++ where_args) h

  -- Insert and Update of SQLImpl; `none` is a nil object.
  unfoldable pub insert_object : Bytes → Bool → Option JsonObject → History → History × ExecResult
  unfolding keys entries_of prepare_exec
  insert_object table replace none h = (h, refused empty_args)
  insert_object table replace (some obj) h =
      if is_empty (keys obj)
      then (h, refused empty_args)
      else insert_entries table replace (entries_of obj) h

  unfoldable pub update_object :
      Bytes → Option JsonObject → Bytes → List Value → History → History × ExecResult
  unfolding keys entries_of prepare_exec
  update_object table none condition where_args h = (h, refused empty_args)
  update_object table (some obj) condition where_args h =
      if is_empty (keys obj)
      then (h, refused empty_args)
      else update_entries table (entries_of obj) condition where_args h

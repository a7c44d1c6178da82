-- ===== src/Sql/Rows.antt =====
-- sqlimpl/sqlimpl.go, FetchAll and FetchOne: the rows of a query as objects. The rows of
-- database/sql are a parameter: for each the cells, one for each column and `none` for NULL, or the
-- error of its Scan, and the error after the last one.
use helper.Base.{ℕ, Option, none, some, List, [], ◌∷◌, ◌++◌, ◌⊎◌, inl, inr, bytes_test}
use helper.Base.Text.{Bytes}
use helper.Base.Dict.{insert}
use helper.FastJson.{Value, null, text}
use helper.FastJson.Object.{JsonObject, Entries, object_from}

-- NullString.
abbrev pub Cell : Type 0
Cell = Option Bytes

pub record Rows : Type 0 where
  pub columns : List Bytes
  pub scans : List (List Cell ⊎ ℕ)
  pub err : Option ℕ

-- Prepare and Query of a statement with its arguments; their errors by numbers.
pub record RowSource : Type 0 where
  pub prepare : Bytes → Option ℕ
  pub query : Bytes → List Value → Rows ⊎ ℕ

-- A list of objects, an error, or a panic.
pub data Fetched {ℓ} (A : Type ℓ) : Type ℓ where
  returned : A → Fetched A
  refused : ℕ → Fetched A
  panicked : Fetched A

abbrev pub cell_value : Cell → Value
cell_value none = null
cell_value (some s) = text s

-- The loop over the columns.
unfoldable pub put_cells : List Bytes → List Cell → Entries → Entries
unfolding insert
put_cells [] cells m = m
put_cells (col ∷ cols) [] m = m
put_cells (col ∷ cols) (v ∷ vs) m = put_cells cols vs (insert col (cell_value v) m)

unfoldable pub scan_to_json_object : List Bytes → List Cell → JsonObject
unfolding put_cells
scan_to_json_object columns cells = object_from (some (put_cells columns cells []))

abbrev end_rows : List JsonObject → Option ℕ → Fetched (List JsonObject)
end_rows ret none = returned ret
end_rows ret (some e) = refused e

-- The loop over the rows.
unfoldable pub fetch_rows :
    List Bytes → List (List Cell ⊎ ℕ) → Option ℕ → List JsonObject → Fetched (List JsonObject)
unfolding scan_to_json_object
fetch_rows columns [] err ret = end_rows ret err
fetch_rows columns (inr e ∷ scans) err ret = refused e
fetch_rows columns (inl cells ∷ scans) err ret =
    fetch_rows columns scans err (ret ++ (scan_to_json_object columns cells ∷ []))

-- The error of Query is not tested: the rows are nil then, and their Columns panics.
abbrev pub rows_of : Rows ⊎ ℕ → Fetched (List JsonObject)
unfolding fetch_rows
rows_of (inl rows) = fetch_rows rows.columns rows.scans rows.err []
rows_of (inr e) = panicked

abbrev pub prepared : RowSource → Bytes → List Value → Option ℕ → Fetched (List JsonObject)
unfolding fetch_rows
prepared src query args (some e) = refused e
prepared src query args none = rows_of (src.query query args)

unfoldable pub fetch_all : RowSource → Bytes → List Value → Fetched (List JsonObject)
unfolding fetch_rows
fetch_all src query args = prepared src query args (src.prepare query)

abbrev pub first_object : Fetched (List JsonObject) → Fetched (Option JsonObject)
first_object (refused e) = refused e
first_object panicked = panicked
first_object (returned []) = returned none
first_object (returned (obj ∷ objs)) = returned (some obj)

unfoldable pub fetch_one : RowSource → Bytes → List Value → Fetched (Option JsonObject)
unfolding fetch_all
fetch_one src query args = first_object (fetch_all src query args)

-- ===== src/Sql/Scan.antt =====
-- sqlimpl/structscan.go: rows scanned into the fields of one struct. Its fields are a list of their
-- contents; a callback gets a pointer to the struct, which the next row overwrites.
use helper.Base.{
  is_empty, ℕ, suc, ◌≡◌, refl, ap, ◌∙◌, Bool, true, false, Option, none, some, List, [], ◌∷◌, ◌++◌,
  ◌⊎◌, inl, inr, if◌then◌else◌, bytes_eq,
}
use helper.Base.Text.{Bytes, codes, join}
use helper.Sql.Rows.{Cell}

-- A field of the struct: its name, whether it has a tag, and the two parts of the tag's `sql` entry
-- that SplitN gives, the second `none` without a comma.
pub record Field : Type 0 where
  pub name : Bytes
  pub has_tag : Bool
  pub column : Bytes
  pub option : Option Bytes

pub data ScanError : Type 0 where
  not_struct no_fields two_distinct no_rows : ScanError
  database : ℕ → ScanError

-- What a field adds to the columns; `left_out` is a field tagged "-".
pub data Column : Type 0 where
  left_out refused_column : Column
  plain : Bytes → Column
  distinct : Bytes → Column

abbrev is_distinct : Option Bytes → Bool
is_distinct none = false
is_distinct (some o) = bytes_eq o (codes "distinct")

unfoldable pub column_of : Field → Bool → Column
column_of f distinct_exist =
    if f.has_tag
    then if is_empty f.column
      then plain f.name
      else if bytes_eq f.column (codes "-")
      then left_out
      else if is_distinct f.option
      then if distinct_exist then refused_column else distinct f.column
      else plain f.column
    else plain f.name

abbrev push : Bytes → Option (List Bytes) → Option (List Bytes)
push c none = none
push c (some cs) = some (c ∷ cs)

-- The loop over the fields; `none` is a second distinct column.
unfoldable pub columns_of : List Field → Bool → Option (List Bytes)
unfolding column_of
columns_of [] d = some []
columns_of (f ∷ fs) d =
    let rest = columns_of fs d in
    let after_distinct = columns_of fs true in
    elim (column_of f d) [
      | left_out ↦ rest
      | refused_column ↦ none
      | plain c ↦ push c rest
      | distinct c ↦ push (codes "distinct(" ++ c ++ codes ")") after_distinct
    ]

abbrev pub Struct : Type 0
Struct = List Cell

-- The rows of the query, or the error of Scan, and the error of the context before each Scan.
pub record Scans : Type 0 where
  pub rows : List (Struct ⊎ ℕ)
  pub cancelled : ℕ → Option ℕ

pub data ScanEnd : Type 0 where
  all_scanned : ScanEnd
  stopped : ScanError → ScanEnd

-- What the rounds leave: the caller's state, the struct, and how they ended.
pub record Scanned (S : Type 0) : Type 0 where
  pub state : S
  pub dest : Struct
  pub ended : ScanEnd

-- The context is asked before the row is scanned.
abbrev pub round : {S : Type 0} → Scanned S → S → Struct → Option ℕ → Scanned S
round rest s dest none = rest
round rest s dest (some c) = record { state = s; dest = dest; ended = stopped (database c) }

module _ {S : Type 0} (on_row : S → Struct → S) where
  -- One round: the struct is overwritten and the callback sees it.
  unfoldable pub scan_rows : ℕ → (ℕ → Option ℕ) → List (Struct ⊎ ℕ) → S → Struct → Scanned S
  scan_rows n cancelled [] s dest = record { state = s; dest = dest; ended = all_scanned }
  scan_rows n cancelled (inr e ∷ rows) s dest =
      round (record { state = s; dest = dest; ended = stopped (database e) }) s dest (cancelled n)
  scan_rows n cancelled (inl row ∷ rows) s dest =
      let rest = scan_rows (suc n) cancelled rows (on_row s row) row in
      round rest s dest (cancelled n)

  -- The loop; without a row it is sql.ErrNoRows.
  abbrev pub scan_all : Scans → S → Struct → Scanned S
  unfolding scan_rows
  scan_all src s dest =
      if is_empty src.rows
      then record { state = s; dest = dest; ended = stopped no_rows }
      else scan_rows 0 src.cancelled src.rows s dest

-- Prepare and Query with a context, by the text of the query.
abbrev pub Source : Type 0
Source = Bytes → Scans ⊎ ℕ

-- `select %s from %s %s`.
abbrev pub scan_string : List Bytes → Bytes → Bytes → Bytes
scan_string columns table condition =
    codes "select " ++ join columns (codes ",") ++ codes " from " ++ table ++ codes " " ++ condition

module _ {S : Type 0} (on_row : S → Struct → S) (source : Source) where
  abbrev pub stop : S → Struct → ScanError → Scanned S
  stop s dest e = record { state = s; dest = dest; ended = stopped e }

  abbrev pub scan_queried : S → Struct → Scans ⊎ ℕ → Scanned S
  unfolding scan_rows
  scan_queried s dest (inr e) = stop s dest (database e)
  scan_queried s dest (inl scans) = scan_all on_row scans s dest

  abbrev pub scan_columns : Bytes → Bytes → S → Struct → Option (List Bytes) → Scanned S
  unfolding scan_rows
  scan_columns table condition s dest none = stop s dest two_distinct
  scan_columns table condition s dest (some columns) =
      scan_queried s dest (source (scan_string columns table condition))

  unfoldable pub struct_scan : Bytes → Bytes → Bool → List Field → S → Struct → Scanned S
  unfolding scan_rows columns_of
  struct_scan table condition is_struct fields s dest =
      if is_struct
      then if is_empty fields
        then stop s dest no_fields
        else scan_columns table condition s dest (columns_of fields false)
      else stop s dest not_struct

pub data OneResult : Type 0 where
  nothing : OneResult
  one : Struct → OneResult
  one_failed : ScanError → OneResult

-- The pointer that was kept, if any, is read when the rows have been scanned.
abbrev pub read_kept : Scanned Bool → OneResult
read_kept r = elim r.ended [
  | stopped e ↦ one_failed e
  | all_scanned ↦ if r.state then one r.dest else nothing
]

abbrev pub or_limit : Bytes → Bytes
or_limit condition = if is_empty condition then codes "limit 1" else condition

unfoldable pub struct_scan_one : Source → Bytes → Bytes → Bool → List Field → Struct → OneResult
unfolding struct_scan
struct_scan_one source table condition is_struct fields zeros =
    read_kept (
      struct_scan (λ kept row. true) source table (or_limit condition) is_struct fields false zeros)

abbrev pub last_row : Struct → List Struct → Struct
last_row r [] = r
last_row r (x ∷ rows) = last_row x rows

abbrev pub scanned : List Struct → List (Struct ⊎ ℕ)
scanned [] = []
scanned (r ∷ rows) = inl r ∷ scanned rows

scan_rows-last :
    (n : ℕ) (cancelled : ℕ → Option ℕ) (rows : List Struct) (dest : Struct)
    → ((i : ℕ) → cancelled i ≡ none)
    → read_kept (scan_rows (λ k row. true) n cancelled (scanned rows) true dest)
      ≡ one (last_row dest rows)
unfolding scan_rows
scan_rows-last n cancelled [] dest c = refl
scan_rows-last n cancelled (r ∷ rows) dest c =
    let rest = scan_rows (λ k row. true) (suc n) cancelled (scanned rows) true r in
    ap (λ o. read_kept (round rest true dest o)) (c n) ∙ scan_rows-last (suc n) cancelled rows r c

-- StructScanOne returns the last row of the query, not the first, when all of them are scanned: the
-- pointer that it keeps at the first row is the struct that every row overwrites.
pub struct_scan_one-last :
    (source : Source) (table condition : Bytes) (fields : List Field) (f : Field)
    (columns : List Bytes) (cancelled : ℕ → Option ℕ) (r : Struct) (rows : List Struct)
    (zeros : Struct)
    → columns_of (f ∷ fields) false ≡ some columns
    → source (scan_string columns table (or_limit condition))
      ≡ inl (record { rows = scanned (r ∷ rows); cancelled = cancelled })
    → ((i : ℕ) → cancelled i ≡ none)
    → struct_scan_one source table condition true (f ∷ fields) zeros ≡ one (last_row r rows)
unfolding struct_scan_one struct_scan
struct_scan_one-last source table condition fields f columns cancelled r rows zeros cs q c =
    let keep_pointer : Bool → Struct → Bool = λ k row. true in
    let rest = scan_rows keep_pointer 1 cancelled (scanned rows) true r in
    ap (λ x. read_kept (scan_columns keep_pointer source table (or_limit condition) false zeros x))
      cs
    ∙ ap (λ x. read_kept (scan_queried keep_pointer source false zeros x)) q
    ∙ ap (λ o. read_kept (round rest false zeros o)) (c 0)
    ∙ scan_rows-last 1 cancelled rows r c

-- ===== src/Dashboard/Csv.antt =====
-- The rows of a CSV that are imported: parseImportCSV of cli/internal/webui/handlers_users.go.
use patrabahok.Base.{
  ◌&&◌, ℕ, zero, suc, Bool, true, false, ◌||◌, Option, none, some, List, [], ◌∷◌, map,
  if◌then◌else◌,
}
use patrabahok.Base.Text.{Text, codes, text_eq, is_empty, to_lower, trim_space}

-- An element of a row, empty where the row is too short.
unfoldable pub column : ℕ → List Text → Text
column n [] = []
column zero (a ∷ row) = a
column (suc n) (a ∷ row) = column n row

unfoldable pub is_header : Text → Bool
is_header a =
    let h = to_lower a in
    text_eq h (codes "email")
    || (text_eq h (codes "username") || (text_eq h (codes "user") || text_eq h (codes "address")))

-- The records that are kept; the Boolean is that of the first one.
unfoldable pub kept_rows : Bool → List (List Text) → List (List Text)
unfolding column is_header
kept_rows first [] = []
kept_rows first (record_ ∷ records) =
    let rest = kept_rows false records in
    let row = map trim_space record_ in
    if is_empty (column 0 row)
    then rest
    else (if first && is_header (column 0 row) then rest else row ∷ rest)

-- `read_csv` is the reader of encoding/csv.
unfoldable pub parse_import_csv :
    (Text → Option (List (List Text))) → Text → Option (List (List Text))
unfolding kept_rows
parse_import_csv read_csv raw = elim (read_csv raw) [
  | none ↦ none
  | some records ↦ some (kept_rows true records)
]

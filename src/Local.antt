-- ===== src/Local.antt =====
-- agent/internal/db: the agent's database of watched files. Its table is used through gorm, so it is
-- an interface; the insert that updates on a conflict of paths stands beside the table's operations.
use sagiri_guard.Base.{
  ℕ, ◌≡◌, Bool, List, [], ◌∷◌, ◌++◌, Option, some, String, ◌==◌, if◌then◌else◌, map, any,
}
use sagiri_guard.Base.Table.{Table, list_table, next_key, eq_of_some-eq}

-- `MonitoredFile`; times are numbers
pub record MonitoredFile : Type 0 where
  pub id : ℕ
  pub path : String
  pub item_id : String
  pub last_action : String
  pub last_event_at : ℕ
  pub last_backup_at : Option ℕ
  pub change_pending : Bool

abbrev pub row_key : MonitoredFile → ℕ
row_key r = r.id

abbrev pub with_key : ℕ → MonitoredFile → MonitoredFile
with_key n r = record r { id = n }

abbrev pub has_path : String → MonitoredFile → Bool
has_path p r = r.path == p

-- the rows after an insert that updates the row of the same path
abbrev pub upserted :
    ℕ → MonitoredFile → (MonitoredFile → MonitoredFile) → List MonitoredFile → List MonitoredFile
upserted n r f rows =
    if any (has_path r.path) rows
    then map (λ x. if has_path r.path x then f x else x) rows
    else rows ++ (with_key n r ∷ [])

pub record LocalDb : Type 1 where
  pub table : Table MonitoredFile row_key with_key
  -- `Clauses(OnConflict{Columns: path, DoUpdates: f}).Create(&r)`
  pub upsert : MonitoredFile → (MonitoredFile → MonitoredFile) → table.State → Option table.State
  pub upsert_rows :
      (r : MonitoredFile) (f : MonitoredFile → MonitoredFile) (s t : table.State)
      → upsert r f s ≡ some t
      → (n : ℕ) × (table.rows t ≡ upserted n r f (table.rows s))

pub list_upsert_rows :
    (r : MonitoredFile) (f : MonitoredFile → MonitoredFile) (s t : List MonitoredFile)
    → ◌≡◌ {A = Option (List MonitoredFile)} (some (upserted (next_key row_key s) r f s)) (some t)
    → (n : ℕ) × (t ≡ upserted n r f s)
list_upsert_rows r f s t e = (next_key row_key s, eq_of_some-eq e)

-- A database that never fails, kept as its rows.
abbrev pub list_db : LocalDb
list_db = record {
  table = list_table row_key with_key;
  upsert = λ r f s. some (upserted (next_key row_key s) r f s);
  upsert_rows = list_upsert_rows;
}

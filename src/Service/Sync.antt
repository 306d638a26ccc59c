-- ===== src/Service/Sync.antt =====
-- agent/internal/service/filetree_sync.go: the rows of the table of watched files that are due are
-- sent to the backend as changes, the oldest 256 at a time.
use sagiri_guard.Base.{
  ℕ, Bool, true, false, ◌||◌, List, [], ◌∷◌, ◌++◌, Option, none, some, String, ◌==◌, if◌then◌else◌,
  nat_eq, ltb, leb, take, select, any, map, is_nil,
}
use sagiri_guard.Base.Results.{Result, ok, err}
use sagiri_guard.Base.Text.{Text, lit, trim_space, to_lower, join}
use sagiri_guard.Changes.{FileChange}
use sagiri_guard.Local.{LocalDb, MonitoredFile}
use sagiri_guard.Segments.{slash, Filepath, agent_segments, last_or}
pub mod Batch
pub mod Starvation

-- what os.Stat answers
pub data FileStat : Type 0 where
  gone : FileStat
  failed : FileStat
  found : Bool → ℕ → FileStat

-- The device and its configuration; Ext of package filepath; the decimal form of a number; the text
-- of uuid.NewSHA1 in the namespace of URLs; the clock while a row is handled; the file system.
pub record Env : Type 0 where
  pub device : String
  pub roots : List Text
  pub files : Filepath
  pub ext : Text → Text
  pub decimal : ℕ → Text
  pub sha1 : Text → String
  pub now : MonitoredFile → ℕ
  pub stat : Text → FileStat

abbrev pub bar : Text
bar = lit "|"

-- `uniqueID`
unfoldable pub unique_id : Env → List Text → ℕ → ℕ → ℕ → String
unique_id E [] id last now = ""
unique_id E (s ∷ ss) id last now = E.sha1 (
    lit E.device
    ++ (bar
        ++ (join slash (s ∷ ss)
            ++ (bar ++ (E.decimal id ++ (bar ++ (E.decimal last ++ (bar ++ E.decimal now))))))))

-- a file whose last action is one of those that take it away
abbrev pub is_removed : MonitoredFile → Bool
is_removed r = r.last_action == "delete" || r.last_action == "move_out"

-- the last backup is missing, or before the last event
abbrev pub needs_backup : Option ℕ → ℕ → Bool
needs_backup none event = true
needs_backup (some at) event = ltb at event

-- the condition of the query
unfoldable pub is_due : MonitoredFile → Bool
is_due r = r.change_pending || (needs_backup r.last_backup_at r.last_event_at || is_removed r)

-- `Order("last_event_at ASC")`; rows of the same time in the order of their keys
unfoldable pub insert_row : MonitoredFile → List MonitoredFile → List MonitoredFile
insert_row r [] = r ∷ []
insert_row r (x ∷ rows) =
    let rest = insert_row r rows in
    if leb r.last_event_at x.last_event_at then r ∷ x ∷ rows else x ∷ rest

unfoldable pub oldest_first : List MonitoredFile → List MonitoredFile
unfolding insert_row
oldest_first [] = []
oldest_first (r ∷ rows) = insert_row r (oldest_first rows)

abbrev pub batch_limit : ℕ
batch_limit = 256

-- what `Limit` leaves of the rows
unfoldable pub batch : List MonitoredFile → List MonitoredFile
unfolding oldest_first
batch rows = take batch_limit (oldest_first rows)

-- `strings.TrimPrefix(ext, ".")`
abbrev pub trim_dot : Text → Text
trim_dot [] = []
trim_dot (c ∷ s) = if nat_eq c 46 then s else c ∷ s

-- the segments of a path, or of the path as it stands
unfoldable pub segments_of : Env → Text → List Text
unfolding agent_segments
segments_of E path = agent_segments E.files E.roots path

-- the item's ID: the one that the row has, or a new one
unfoldable pub item_id_of : Env → MonitoredFile → List Text → String
unfolding unique_id
item_id_of E r segments =
    if r.item_id == "" then unique_id E segments r.id r.last_event_at (E.now r) else r.item_id

abbrev pub name_of : Env → Text → List Text → Text
name_of E path [] = E.files.base path
name_of E path (s ∷ ss) = last_or s (s ∷ ss)

-- the change of a row, whose path has no blanks around it
unfoldable pub change_of : Env → MonitoredFile → Text → Bool → Bool → ℕ → FileChange
unfolding segments_of item_id_of
change_of E r path deleted is_dir size =
    let segments = segments_of E path in
    record {
      id = item_id_of E r segments;
      origin_path = join slash segments;
      current_path = join slash segments;
      current_name = name_of E path segments;
      extension = if is_dir then lit "folder" else trim_dot (to_lower (E.ext path));
      size = size;
      snapshot_number = 0;
      is_dir = is_dir;
      deleted = deleted;
      change_pending = needs_backup r.last_backup_at r.last_event_at;
      content_types = [];
    }

-- what the answer of os.Stat makes of a row; a row whose file cannot be asked for is skipped
unfoldable pub change_at : Env → MonitoredFile → Text → FileStat → Option FileChange
unfolding change_of
change_at E r path gone = some (change_of E r path (is_removed r) false 0)
change_at E r path failed = none
change_at E r path (found true size) = some (change_of E r path false true 0)
change_at E r path (found false size) = some (change_of E r path false false size)

-- the change of a row, if it is not skipped
unfoldable pub row_change : Env → MonitoredFile → Option FileChange
unfolding change_at
row_change E r =
    let path = trim_space (lit r.path) in
    if is_nil path then none else change_at E r path (E.stat path)

unfoldable pub with_item_id : String → MonitoredFile → MonitoredFile
with_item_id i r = record r { item_id = i }

unfoldable pub cleared : MonitoredFile → MonitoredFile
cleared r = record r { change_pending = false }

-- `collectIDs`
unfoldable pub collect_ids : List MonitoredFile → List ℕ
collect_ids = map (λ r. r.id)

abbrev pub among : List ℕ → MonitoredFile → Bool
among ids r = any (λ n. nat_eq n r.id) ids

module _ (D : LocalDb) where
  -- a write whose error is only logged
  unfoldable pub try_update :
      (MonitoredFile → Bool) → (MonitoredFile → MonitoredFile) → D.table.State → D.table.State
  try_update p f s = elim (D.table.update p f s) [ none ↦ s | some t ↦ t ]

  -- a new item ID is stored in the row
  unfoldable pub store_item_id : MonitoredFile → Option FileChange → D.table.State → D.table.State
  unfolding try_update
  store_item_id r none s = s
  store_item_id r (some c) s =
      if r.item_id == "" then try_update (λ x. nat_eq x.id r.id) (with_item_id c.id) s else s

  abbrev pub onto : Option FileChange → List FileChange → List FileChange
  onto none cs = cs
  onto (some c) cs = c ∷ cs

  -- the loop over the rows
  unfoldable pub sync_rows :
      Env → List MonitoredFile → D.table.State → List FileChange × D.table.State
  unfolding row_change store_item_id
  sync_rows E [] s = ([], s)
  sync_rows E (r ∷ rows) s =
      let change = row_change E r in
      let rest = sync_rows E rows (store_item_id r change s) in (onto change rest.0, rest.1)

  -- after the changes were sent, the rows of the batch are not pending
  abbrev pub after_send :
      Option String → List MonitoredFile → D.table.State → Result String Bool × D.table.State
  after_send (some e) rows s = (err e, s)
  after_send none rows s = (ok true, try_update (among (collect_ids rows)) cleared s)

  -- the rows of the query, if it succeeded
  unfoldable pub sync_batch :
      Env
      → (List FileChange → Option String)
      → Option (List MonitoredFile)
      → D.table.State
      → Result String Bool × D.table.State
  unfolding sync_rows collect_ids cleared
  sync_batch E send none s = (err "query failed", s)
  sync_batch E send (some due) s =
      let rows = batch due in
      let done = sync_rows E rows s in
      if is_nil done.0 then (ok true, done.1) else after_send (send done.0) rows done.1

  -- `syncFileTreeOnce` with the database opened; `send` gives the error of sending, if there is one
  unfoldable pub sync_file_tree_once :
      Env → (List FileChange → Option String) → D.table.State → Result String Bool × D.table.State
  unfolding sync_batch
  sync_file_tree_once E send s =
      if E.device == ""
      then (err "device UUID not set", s)
      else sync_batch E send (D.table.find is_due s) s

  -- `syncFileTreeOnce`
  unfoldable pub sync_if_opened :
      Env
      → (List FileChange → Option String)
      → Option D.table.State
      → Result String Bool × Option D.table.State
  unfolding sync_file_tree_once
  sync_if_opened E send none = (ok true, none)
  sync_if_opened E send (some s) = let done = sync_file_tree_once E send s in (done.0, some done.1)

-- ===== src/Service/Backups.antt =====
-- agent/internal/service/service.go: automatic backups. The state behind the lock is a record; the
-- goroutines that wait for a file and upload it are a list of the paths they work on.
use sagiri_guard.Base.{
  ℕ, ◌-◌, Bool, true, false, not, ◌&&◌, List, [], ◌∷◌, ◌++◌, Option, none, some, is_some, String,
  ◌==◌, if◌then◌else◌, ltb, head?,
}
use sagiri_guard.Base.Results.{Result, ok, err}
use sagiri_guard.Base.Map.{Map, lookup, insert, delete}
use sagiri_guard.Local.{LocalDb, MonitoredFile, has_path}
use sagiri_guard.Monitor.{Action, FileEvent}
pub mod Single
pub mod Cooldown
pub mod Uploads

-- `backupState`; times are in nanoseconds
pub record Scheduler : Type 0 where
  pub enabled : Bool
  pub in_flight : Map Bool
  pub recent : Map ℕ
  pub workers : List String

abbrev pub backup_cooldown : ℕ
backup_cooldown = 10000000000

abbrev pub initial : Scheduler
initial = record { enabled = true; in_flight = []; recent = []; workers = [] }

-- `SetBackupEnabled`
unfoldable pub set_backup_enabled : Bool → Scheduler → Scheduler
set_backup_enabled b s = record s { enabled = b }

-- `IsBackupEnabled`
unfoldable pub is_backup_enabled : Scheduler → Bool
is_backup_enabled s = s.enabled

-- `time.Since(last) < backupCooldown`, for a path that has a last backup
abbrev pub is_recent : ℕ → Option ℕ → Bool
is_recent now none = false
is_recent now (some last) = ltb (now - last) backup_cooldown

-- `scheduleBackup`
unfoldable pub schedule_backup : ℕ → String → Scheduler → Scheduler
schedule_backup now path s =
    if not s.enabled
    then s
    else if is_recent now (lookup path s.recent)
    then s
    else if is_some (lookup path s.in_flight)
    then s
    else record s { in_flight = insert path true s.in_flight; workers = s.workers ++ (path ∷ []) }

-- one goroutine of a path ends
unfoldable pub without_one : String → List String → List String
without_one path [] = []
without_one path (w ∷ ws) = if w == path then ws else w ∷ without_one path ws

-- the deferred end of the goroutine
unfoldable pub finish_backup : ℕ → String → Scheduler → Scheduler
unfolding without_one
finish_backup now path s = record s {
  in_flight = delete path s.in_flight;
  recent = insert path now s.recent;
  workers = without_one path s.workers;
}

-- the switch over the actions of events
unfoldable pub asks_for_backup : Action → Bool
asks_for_backup Action.create = true
asks_for_backup Action.modify = true
asks_for_backup Action.rename = true
asks_for_backup Action.move = true
asks_for_backup Action.delete = false
asks_for_backup Action.move_out = false

-- an event that the service reads from the monitor's channel
unfoldable pub on_event : ℕ → FileEvent → Scheduler → Scheduler
unfolding asks_for_backup schedule_backup
on_event now e s =
    if e.path == "" then s else if asks_for_backup e.action then schedule_backup now e.path s else s

-- What an upload meets: the file's status, the token without its surrounding blanks, and the calls
-- of package backup, which get the path and the file's ID.
pub record Upload : Type 0 where
  pub stat : String → Result String Bool
  pub token : String
  pub init_upload : String → String → String → Result String String
  pub upload_file : String → String → Result String Bool

module _ (D : LocalDb) where
  -- the item ID that the database has for a path
  unfoldable pub first_item : Option (List MonitoredFile) → String
  first_item none = ""
  first_item (some []) = ""
  first_item (some (r ∷ rows)) = r.item_id

  unfoldable pub file_id_of : String → Option D.table.State → String
  unfolding first_item
  file_id_of path none = ""
  file_id_of path (some s) = first_item (D.table.find (has_path path) s)

  -- a failed update is only logged
  unfoldable pub mark_backed_up : ℕ → String → Option D.table.State → Option D.table.State
  mark_backed_up now path none = none
  mark_backed_up now path (some s) =
      some (elim (D.table.update (has_path path) (λ r. record r { last_backup_at = some now }) s) [
        | none ↦ s
        | some t ↦ t
      ])

  -- the calls of package backup, and the mark that follows them
  unfoldable pub uploaded :
      ℕ
      → String
      → Result String Bool
      → Option D.table.State
      → Result String Bool × Option D.table.State
  unfolding mark_backed_up
  uploaded now path (err e) db = (err e, db)
  uploaded now path (ok b) db = (ok b, mark_backed_up now path db)

  unfoldable pub with_session :
      ℕ
      → Upload
      → String
      → Result String String
      → Option D.table.State
      → Result String Bool × Option D.table.State
  unfolding uploaded
  with_session now u path (err e) db = (err e, db)
  with_session now u path (ok session) db = uploaded now path (u.upload_file session path) db

  unfoldable pub with_stat :
      ℕ
      → Upload
      → String
      → Result String Bool
      → Option D.table.State
      → Result String Bool × Option D.table.State
  unfolding with_session file_id_of
  with_stat now u path (err e) db = (err e, db)
  with_stat now u path (ok is_dir) db =
      if is_dir
      then (ok true, db)
      else if u.token == ""
      then (ok true, db)
      else with_session now u path (u.init_upload u.token path (file_id_of path db)) db

  -- `backupFile`
  unfoldable pub backup_file :
      ℕ → Upload → String → Option D.table.State → Result String Bool × Option D.table.State
  unfolding with_stat
  backup_file now u path db = with_stat now u path (u.stat path) db

-- ===== src/Monitor.antt =====
-- agent/internal/monitor: the parts that file_monitor.go (Windows) and file_monitor_linux.go share
-- word for word. An event is stored in the agent's database and then put on a channel of bounded
-- size, from which the service reads; a full channel drops it.
use sagiri_guard.Base.{
  ℕ, ◌≡◌, Bool, true, false, not, ◌&&◌, ◌||◌, List, [], ◌∷◌, ◌++◌, Option, none, some, String, ◌==◌,
  if◌then◌else◌, nat_eq, ltb, length,
}
use sagiri_guard.Local.{LocalDb, MonitoredFile}
pub mod Windows
pub mod Linux
pub mod Emitted
pub mod Stored
mod Tests

-- `ActionType`
pub data Action : Type 0 where
  create modify delete rename move move_out : Action

-- the value of the constant
abbrev pub action_name : Action → String
action_name create = "create"
action_name modify = "modify"
action_name delete = "delete"
action_name rename = "rename"
action_name move = "move"
action_name move_out = "move_out"

-- `FileEvent`; a time of zero is the zero time
pub record FileEvent : Type 0 where
  pub action : Action
  pub path : String
  pub old_path : String
  pub timestamp : ℕ

abbrev pub event_queue_size : ℕ
event_queue_size = 128

-- `shouldMarkPending`
unfoldable pub should_mark_pending : Action → Bool
should_mark_pending create = true
should_mark_pending modify = true
should_mark_pending delete = false
should_mark_pending rename = true
should_mark_pending move = true
should_mark_pending move_out = false

-- the record that an event inserts, and the columns that it updates
abbrev pub new_row : String → String → ℕ → Bool → MonitoredFile
new_row path action at pending = record {
  id = 0;
  path = path;
  item_id = "";
  last_action = action;
  last_event_at = at;
  last_backup_at = none;
  change_pending = pending;
}

abbrev pub touched : String → ℕ → Bool → MonitoredFile → MonitoredFile
touched action at pending r = record r {
  last_action = action;
  last_event_at = at;
  change_pending = pending;
}

-- What a monitor writes to: the database, if it was opened, and the channel of events.
pub record Sink (S : Type 0) : Type 0 where
  pub db : Option S
  pub out : List FileEvent

module _ (D : LocalDb) where
  -- an upsert whose error is only logged
  unfoldable pub store_row : String → String → ℕ → Bool → D.table.State → D.table.State
  store_row path action at pending s =
      elim (D.upsert (new_row path action at pending) (touched action at pending) s) [
        | none ↦ s
        | some t ↦ t
      ]

  -- `persistOldPath`
  unfoldable pub persist_old_path : String → ℕ → D.table.State → D.table.State
  unfolding store_row
  persist_old_path old at s = store_row old (action_name move_out) at false s

  -- the writes of `persistMonitoredFile`, at a time
  unfoldable pub persist_at : FileEvent → ℕ → D.table.State → D.table.State
  unfolding store_row persist_old_path should_mark_pending
  persist_at evt at s =
      let t = store_row evt.path (action_name evt.action) at (should_mark_pending evt.action) s in
      if not (evt.old_path == "") && not (evt.old_path == evt.path)
      then persist_old_path evt.old_path at t
      else t

  unfoldable pub persist_in : ℕ → FileEvent → Option D.table.State → Option D.table.State
  unfolding persist_at
  persist_in now evt none = none
  persist_in now evt (some s) =
      some (persist_at evt (if nat_eq evt.timestamp 0 then now else evt.timestamp) s)

  -- `persistMonitoredFile`
  unfoldable pub persist_monitored_file :
      ℕ → FileEvent → Option D.table.State → Option D.table.State
  unfolding persist_in
  persist_monitored_file now evt db = if evt.path == "" then db else persist_in now evt db

  -- `emitEvent`
  unfoldable pub emit_event : ℕ → FileEvent → Sink D.table.State → Sink D.table.State
  unfolding persist_monitored_file
  emit_event now evt k = record {
    db = persist_monitored_file now evt k.db;
    out = if ltb (length k.out) event_queue_size then k.out ++ (evt ∷ []) else k.out;
  }

  -- events emitted one after another
  unfoldable pub emit_all : ℕ → List FileEvent → Sink D.table.State → Sink D.table.State
  unfolding emit_event
  emit_all now [] k = k
  emit_all now (e ∷ es) k = emit_all now es (emit_event now e k)

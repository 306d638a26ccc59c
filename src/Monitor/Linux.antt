-- ===== src/Monitor/Linux.antt =====
-- agent/internal/monitor/file_monitor_linux.go: the directories that are watched, and what an event
-- of fsnotify does. The watcher of fsnotify, the file system and path functions are parameters.
use sagiri_guard.Base.{
  ℕ, Bool, true, false, not, List, [], ◌∷◌, Option, none, some, is_some, String, if◌then◌else◌,
  is_nil, ◌||◌,
}
use sagiri_guard.Base.Map.{Map, lookup, insert, delete}
use sagiri_guard.Local.{LocalDb}
use sagiri_guard.Monitor.{
  Action, create, modify, delete as removed, move_out, FileEvent, Sink, emit_event,
}
pub mod Watched

-- `Add` and `Remove` of the watcher, whose results say whether they succeeded
pub record Watcher : Type 1 where
  pub State : Type 0
  pub add : String → State → Bool × State
  pub remove : String → State → Bool × State

-- what WalkDir gives to its callback
pub record Visit : Type 0 where
  pub path : String
  pub is_dir : Bool
  pub failed : Bool

-- the file system while an event is handled: `stat` says whether a path is a directory
pub record Files : Type 0 where
  pub abs : String → Option String
  pub clean : String → String
  pub dir : String → String
  pub stat : String → Option Bool
  pub walk : String → List Visit

-- the bits of an operation
pub record Op : Type 0 where
  pub create : Bool
  pub write : Bool
  pub remove : Bool
  pub rename : Bool

-- `FileMonitor`: the watcher and `watchedDir`
pub record Watches (W : Watcher) : Type 0 where
  pub watcher : W.State
  pub watched_dir : Map Bool

module _ (W : Watcher) where
  -- `addWatch`; the result says whether it succeeded
  unfoldable pub add_watch : String → Watches W → Bool × Watches W
  add_watch dir f =
      let added = W.add dir f.watcher in
      if is_some (lookup dir f.watched_dir)
      then (true, f)
      else if added.0
      then (true, record { watcher = added.1; watched_dir = insert dir true f.watched_dir })
      else (false, record f { watcher = added.1 })

  -- the callback of WalkDir, until it returns an error
  unfoldable pub watch_visits : List Visit → Watches W → Bool × Watches W
  unfolding add_watch
  watch_visits [] f = (true, f)
  watch_visits (v ∷ vs) f =
      let skipped = watch_visits vs f in
      let added = add_watch v.path f in
      let rest = watch_visits vs added.1 in
      if v.failed || not v.is_dir then skipped else if added.0 then rest else added

  unfoldable pub watch_recursive : Files → String → Watches W → Bool × Watches W
  unfolding watch_visits
  watch_recursive F root f = watch_visits (F.walk root) f

  -- `removeWatch`: a failure of the watcher is logged
  unfoldable pub remove_watch : String → Watches W → Watches W
  remove_watch path f =
      if is_some (lookup path f.watched_dir)
      then record { watcher = (W.remove path f.watcher).1; watched_dir = delete path f.watched_dir }
      else f

  unfoldable pub is_dir : Files → String → Bool
  is_dir F path = elim (F.stat path) [ none ↦ false | some d ↦ d ]

  -- the directory that is watched for a path
  abbrev pub watched_for : Files → String → Bool → String
  watched_for F path d = F.clean (if d then path else F.dir path)

  -- the loop of `NewFileMonitor` over the paths, with the directories that it has seen
  unfoldable pub open_paths : Files → List String → Map Bool → Watches W → Watches W
  unfolding watch_recursive
  open_paths F [] seen f = f
  open_paths F (raw ∷ raws) seen f =
      let rest : Map Bool → Watches W → Watches W = open_paths F raws in
      elim (F.abs raw) [
        | none ↦ rest seen f
        | some path ↦ elim (F.stat path) [
          | none ↦ rest seen f
          | some d ↦
              let dir : String = watched_for F path d in
              let watched = watch_recursive F dir f in
              if is_some (lookup dir seen)
              then rest seen f
              else if watched.0
              then rest (insert dir true seen) watched.1
              else rest seen watched.1
        ]
      ]

  -- `NewFileMonitor` with a new watcher
  unfoldable pub new_file_monitor : Files → List String → W.State → Option (Watches W)
  unfolding open_paths
  new_file_monitor F raws w =
      let f : Watches W = open_paths F raws [] (record { watcher = w; watched_dir = [] }) in
      if is_nil f.watched_dir then none else some f

module _ (D : LocalDb) (W : Watcher) where
  pub record LinuxMonitor : Type 0 where
    pub watches : Watches W
    pub sink : Sink D.table.State

  abbrev pub emit : Action → String → String → ℕ → LinuxMonitor → LinuxMonitor
  emit a path old now m = record m {
    sink =
        emit_event D now (record { action = a; path = path; old_path = old; timestamp = now })
          m.sink;
  }

  abbrev pub unwatch : String → LinuxMonitor → LinuxMonitor
  unwatch path m = record m { watches = remove_watch W path m.watches }

  -- the four parts of `handleEvent`
  unfoldable pub on_create : Files → String → ℕ → LinuxMonitor → LinuxMonitor
  unfolding watch_recursive is_dir
  on_create F path now m =
      let m = emit create path "" now m in
      if is_dir W F path then record m { watches = (watch_recursive W F path m.watches).1 } else m

  unfoldable pub on_write : String → ℕ → LinuxMonitor → LinuxMonitor
  on_write path now m = emit modify path "" now m

  unfoldable pub on_remove : String → ℕ → LinuxMonitor → LinuxMonitor
  unfolding remove_watch
  on_remove path now m = unwatch path (emit removed path "" now m)

  unfoldable pub on_rename : String → ℕ → LinuxMonitor → LinuxMonitor
  unfolding remove_watch
  on_rename path now m = unwatch path (emit move_out path path now m)

  -- `handleEvent`
  unfoldable pub handle_event : Files → String → Op → ℕ → LinuxMonitor → LinuxMonitor
  unfolding on_create on_write on_remove on_rename
  handle_event F name op now m =
      let path : String = F.clean name in
      let created = if op.create then on_create F path now m else m in
      let written = if op.write then on_write path now created else created in
      let gone = if op.remove then on_remove path now written else written in
      if op.rename then on_rename path now gone else gone

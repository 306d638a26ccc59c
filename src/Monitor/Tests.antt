-- ===== src/Monitor/Tests.antt =====
-- Small runs of the monitors.
use sagiri_guard.Base.{
  ℕ, suc, ◌+◌, ◌≤◌, ◌≡◌, refl, true, false, List, [], ◌∷◌, ◌++◌, Option, String, none, some, map,
  is_nil, ltb, if◌then◌else◌, All, length, take, arith,
}
use sagiri_guard.Base.Map.{lookup}
use sagiri_guard.Base.Strings.{append}
use sagiri_guard.Local.{MonitoredFile, list_db}
use sagiri_guard.Monitor.{create, rename, FileEvent, Sink, emit_all, event_queue_size}
use sagiri_guard.Monitor.Stored.{IsUp, IsView, seen, status, table_follows}
use sagiri_guard.Monitor.Emitted.{channel_bound}
use sagiri_guard.Monitor.Windows.Targets.{
  System, WatchTarget, Closing, IsOpen, new_file_monitor, open_targets, open_target, wanted_dir,
  valid_handle, with_target, close, handles_closed_once,
}
use sagiri_guard.Monitor.Windows.Retries.{IsTransient, gives_up}
use sagiri_guard.Monitor.Windows.{
  ReadError, errno, other, failed, stop_asked, ended, max_retries, stream_directory,
  is_terminal_watcher_err, is_invalid_handle, Paths, read_notices, file_action_renamed_old,
  file_action_renamed_new, file_action_added,
}
use sagiri_guard.Monitor.Windows.Renames.{
  Notice, run_notices, reported, waiting, brought, old_names_kept,
}
use sagiri_guard.Monitor.Windows.Buffer.{Written, encode, notices, emitted, buffer_read}
use sagiri_guard.Monitor.Linux.{Watcher, Files, Op, LinuxMonitor, handle_event}
use sagiri_guard.Monitor.Linux.Watched.{path_forgotten}

abbrev made : FileEvent
made = record { action = create; path = "a"; old_path = ""; timestamp = 3 }

abbrev renamed : FileEvent
renamed = record { action = rename; path = "b"; old_path = "a"; timestamp = 4 }

abbrev empty_sink : Sink (List MonitoredFile)
empty_sink = record { db = some []; out = [] }

list-IsUp : IsUp list_db
list-IsUp r f s = (_, refl)

table_follows_example :
    IsView list_db
      (seen 9 (made ∷ renamed ∷ []) [])
      (emit_all list_db 9 (made ∷ renamed ∷ []) empty_sink).db
table_follows_example =
    table_follows list_db list-IsUp 9 (made ∷ renamed ∷ []) [] empty_sink
      (λ p. unfold status lookup in refl)

channel_bound_example :
    (length (emit_all list_db 9 (made ∷ renamed ∷ []) empty_sink).out ≤ event_queue_size)
    × ((emit_all list_db 9 (made ∷ renamed ∷ []) empty_sink).out
        ≡ take event_queue_size (made ∷ renamed ∷ []))
channel_bound_example = channel_bound list_db 9 (made ∷ renamed ∷ []) empty_sink (omega arith)

abbrev paths : Paths
paths = record { clean = λ p. p; join = append; dir = λ p. "d"; decode = λ us. "n" }

abbrev rename_pair : List Notice
rename_pair =
    record { action = file_action_renamed_old; path = "a"; at = 1 }
    ∷ record { action = file_action_renamed_new; path = "b"; at = 2 }
    ∷ record { action = file_action_renamed_old; path = "c"; at = 3 }
    ∷ []

old_names_kept_example :
    reported (run_notices paths rename_pair []).0 ++ waiting (run_notices paths rename_pair []).1
    ≡ brought rename_pair
old_names_kept_example = old_names_kept paths rename_pair []

abbrev written : Written
written = record { action = file_action_added; units = 120 ∷ []; padding = 0 ∷ (0 ∷ []) }

buffer_read_example :
    read_notices paths
      (suc (length (encode written (written ∷ []))))
      "root/"
      (λ n. n)
      0
      (encode written (written ∷ []))
      0
      []
    ≡ emitted (run_notices paths (notices paths "root/" (λ n. n) 0 (written ∷ written ∷ [])) [])
buffer_read_example = buffer_read paths "root/" (λ n. n) [] written (written ∷ [])

abbrev watcher : Watcher
watcher = record { State = ℕ; add = λ p n. (true, n + 1); remove = λ p n. (true, n + 1) }

abbrev files : Files
files = record {
  abs = λ p. some p;
  clean = λ p. p;
  dir = λ p. "d";
  stat = λ p. some true;
  walk = λ p. [];
}

abbrev removal : Op
removal = record { create = false; write = false; remove = true; rename = false }

abbrev watching : LinuxMonitor list_db watcher
watching = record {
  watches = record { watcher = 2; watched_dir = ("d", true) ∷ ("d/e", true) ∷ [] };
  sink = empty_sink;
}

-- what was below the removed directory is still said to be watched
path_forgotten_example :
    lookup "d/e" (handle_event list_db watcher files "d" removal 7 watching).watches.watched_dir
    ≡ some true
unfolding lookup
path_forgotten_example = path_forgotten list_db watcher files "d" removal 7 watching refl refl "d/e"

-- every path is a directory with the handle 5
abbrev windows : System
windows = record {
  abs = λ p. some p;
  clean = λ p. p;
  dir = λ p. p;
  stat = λ p. some true;
  can_open = λ p. true;
  open_handle = λ p. some 5;
}

abbrev target : WatchTarget
target = record { path = "a"; handle = 5 }

one_target : new_file_monitor windows ("a" ∷ "a" ∷ []) ≡ some (target ∷ [])
unfolding new_file_monitor open_targets open_target wanted_dir valid_handle with_target
one_target = refl

handles_closed_once_example :
    let fails : ℕ → Option String = λ h. none in
    (is_nil (target ∷ []) ≡ false)
    × (IsOpen (target ∷ [])
        × (let fresh : Closing = record { done = false; closed = [] } in
            (close fails (target ∷ []) (close fails (target ∷ []) fresh).1).1.closed ≡ 5 ∷ []))
handles_closed_once_example =
    handles_closed_once windows (λ h. none) ("a" ∷ "a" ∷ []) (target ∷ []) one_target

abbrev errors : List ReadError
errors = errno 5 ∷ (other ∷ [])

transient : All IsTransient errors
unfolding is_terminal_watcher_err is_invalid_handle
transient = (refl, (refl, tt))

gives_up_example :
    stream_directory paths "root/" (λ n k. n) (map failed errors ++ (stop_asked ∷ [])) 0 [] ≡ (
      if ltb (length errors) max_retries
      then stream_directory paths "root/" (λ n k. n) (stop_asked ∷ []) (length errors) []
      else ([], ended))
gives_up_example = gives_up paths "root/" (λ n k. n) errors (stop_asked ∷ []) [] transient

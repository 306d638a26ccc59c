-- ===== src/Monitor/Windows.antt =====
-- agent/internal/monitor/file_monitor.go: the notices that ReadDirectoryChangesW puts into a buffer,
-- the pairing of the two notices of a rename, and the loop that reads again after an error. Path
-- functions and the decoding of UTF-16 are those of Go's library, and parameters.
use sagiri_guard.Base.{
  ℕ, zero, suc, ◌+◌, ◌-◌, ◌*◌, ◌/◌, Bool, true, false, not, ◌||◌, ◌&&◌, List, [], ◌∷◌, ◌++◌, Option,
  none, some, String, ◌==◌, if◌then◌else◌, nat_eq, ltb, leb, length, take, drop, is_nil,
}
use sagiri_guard.Monitor.{Action, create, modify, delete, rename, move, move_out, FileEvent}
pub mod Renames
pub mod Buffer
pub mod Retries
pub mod Targets

-- what the monitor takes from packages filepath and utf16
pub record Paths : Type 0 where
  pub clean : String → String
  pub join : String → String → String
  pub dir : String → String
  pub decode : List ℕ → String

-- `pendingRename`; times are in nanoseconds
pub record PendingRename : Type 0 where
  pub path : String
  pub when : ℕ

abbrev pub rename_pair_ttl : ℕ
rename_pair_ttl = 2000000000

abbrev pub max_retries : ℕ
max_retries = 10

abbrev pub file_action_added : ℕ
file_action_added = 1

abbrev pub file_action_removed : ℕ
file_action_removed = 2

abbrev pub file_action_modified : ℕ
file_action_modified = 3

abbrev pub file_action_renamed_old : ℕ
file_action_renamed_old = 4

abbrev pub file_action_renamed_new : ℕ
file_action_renamed_new = 5

abbrev pub file_action_added_stream : ℕ
file_action_added_stream = 6

abbrev pub file_action_removed_stream : ℕ
file_action_removed_stream = 7

abbrev pub file_action_modified_stream : ℕ
file_action_modified_stream = 8

-- an event without an old path
abbrev pub plain_event : Action → String → ℕ → FileEvent
plain_event a p ts = record { action = a; path = p; old_path = ""; timestamp = ts }

-- the events that a step emits, in order, and the queue of old names that it leaves
abbrev pub Step : Type 0
Step = List FileEvent × List PendingRename

abbrev pub one_event : FileEvent → List PendingRename → Step
one_event e queue = (e ∷ [], queue)

-- the event that a move out of the watched directory gives
abbrev pub moved_out : String → ℕ → FileEvent
moved_out p ts = record { action = move_out; path = p; old_path = p; timestamp = ts }

-- the loop of `flushExpiredRenames`: what has waited for longer than the limit goes
unfoldable pub flush_expired_renames : List PendingRename → ℕ → Step
flush_expired_renames [] now = ([], [])
flush_expired_renames (r ∷ queue) now =
    let rest = flush_expired_renames queue now in
    if ltb rename_pair_ttl (now - r.when)
    then (moved_out r.path now ∷ rest.0, rest.1)
    else ([], r ∷ queue)

-- `binary.LittleEndian.Uint16` over a buffer, whose odd last byte is dropped
unfoldable pub code_units : List ℕ → List ℕ
code_units [] = []
code_units (a ∷ []) = []
code_units (a ∷ b ∷ bytes) = (a + 256 * b) ∷ code_units bytes

-- `binary.LittleEndian.Uint32` at the head of a buffer of at least four bytes
unfoldable pub uint32 : List ℕ → ℕ
uint32 (a ∷ b ∷ c ∷ d ∷ rest) = a + 256 * (b + 256 * (c + 256 * d))
uint32 bytes = 0

-- what the loop over a buffer has emitted when it ends, and the queue that it leaves; a panic, which
-- the events before it precede, leaves none
abbrev pub Read : Type 0
Read = List FileEvent × Option (List PendingRename)

-- what follows a notice, from the events before it
abbrev pub after_step : List FileEvent → Read → Read
after_step before (events, end) = (before ++ events, end)

module _ (P : Paths) where
  -- the case `fileActionRenamedNew`
  unfoldable pub pair_rename : String → ℕ → List PendingRename → Step
  pair_rename path ts [] = one_event (plain_event create path ts) []
  pair_rename path ts (old ∷ queue) =
      one_event
        (record {
          action = if P.dir old.path == P.dir path then rename else move;
          path = path;
          old_path = old.path;
          timestamp = ts;
        })
        queue

  unfoldable pub dispatch_action : ℕ → String → ℕ → List PendingRename → Step
  unfolding pair_rename
  dispatch_action action path ts queue =
      if nat_eq action file_action_added
      then one_event (plain_event create path ts) queue
      else if nat_eq action file_action_removed
      then one_event (plain_event delete path ts) queue
      else if nat_eq action file_action_modified
          || (nat_eq action file_action_added_stream
              || (nat_eq action file_action_removed_stream
                  || nat_eq action file_action_modified_stream))
      then one_event (plain_event modify path ts) queue
      else if nat_eq action file_action_renamed_old
      then ([], queue ++ (record { path = path; when = ts } ∷ []))
      else if nat_eq action file_action_renamed_new
      then pair_rename path ts queue
      else one_event (plain_event modify path ts) queue

  -- one notice: the queue is flushed first
  unfoldable pub handle_notice : ℕ → String → ℕ → List PendingRename → Step
  unfolding flush_expired_renames dispatch_action
  handle_notice action path ts queue =
      let flushed = flush_expired_renames queue ts in
      let done = dispatch_action action path ts flushed.1 in (flushed.0 ++ done.0, done.1)

  unfoldable pub decode_utf16 : List ℕ → String
  unfolding code_units
  decode_utf16 bytes = if is_nil bytes then "" else P.decode (code_units bytes)

  -- The loop over the notices of a buffer, on fuel; `clock n` is the time of the n-th. A slice that
  -- starts behind the buffer's end is a panic.
  unfoldable pub read_notices : ℕ → String → (ℕ → ℕ) → ℕ → List ℕ → ℕ → List PendingRename → Read
  unfolding decode_utf16 uint32 handle_notice
  read_notices zero target clock n bytes offset queue = ([], some queue)
  read_notices (suc fuel) target clock n bytes offset queue =
      let here = drop offset bytes in
      let next = uint32 here in
      let name_len = uint32 (drop 8 here) in
      let name = decode_utf16 (take name_len (drop 12 here)) in
      let step =
        handle_notice (uint32 (drop 4 here)) (P.clean (P.join target name)) (clock n) queue in
      let rest = read_notices fuel target clock (suc n) bytes (offset + next) step.1 in
      if ltb (length bytes) offset
      then ([], none)
      else if ltb (length here) 12
      then ([], some queue)
      else if ltb (length bytes) (offset + 12 + name_len)
      then ([], some queue)
      else if nat_eq next 0
      then (step.0, some step.1)
      else after_step step.0 rest

-- An error of ReadDirectoryChangesW: a number of Windows, or another error.
pub data ReadError : Type 0 where
  errno : ℕ → ReadError
  other : ReadError

abbrev pub error_invalid_handle : ℕ
error_invalid_handle = 6

abbrev pub error_invalid_parameter : ℕ
error_invalid_parameter = 87

abbrev pub error_operation_aborted : ℕ
error_operation_aborted = 995

abbrev pub error_access_violation : ℕ
error_access_violation = 3221225477

-- `isTerminalWatcherErr`
unfoldable pub is_terminal_watcher_err : ReadError → Bool
is_terminal_watcher_err (errno n) =
    nat_eq n error_operation_aborted
    || (nat_eq n error_invalid_handle || nat_eq n error_access_violation)
is_terminal_watcher_err other = false

-- the test of the two numbers that also end the watch
unfoldable pub is_invalid_handle : ReadError → Bool
is_invalid_handle (errno n) = nat_eq n error_invalid_handle || nat_eq n error_invalid_parameter
is_invalid_handle other = false

-- what one round of the loop meets: a request to stop, an error, or bytes that were read
pub data Round : Type 0 where
  stop_asked : Round
  failed : ReadError → Round
  data_read : List ℕ → Round

-- how the loop stands after the rounds it was given
pub data Watch : Type 0 where
  watching : ℕ → List PendingRename → Watch
  ended : Watch
  panicked : Watch

-- the rest of the loop after a buffer was read
abbrev pub resumed : (List PendingRename → List FileEvent × Watch) → Read → List FileEvent × Watch
resumed rest (events, none) = (events, panicked)
resumed rest (events, some queue) = let r = rest queue in (events ++ r.0, r.1)

module _ (P : Paths) where
  -- `streamDirectory` over rounds, with the count of errors in a row
  unfoldable pub stream_directory :
      String → (ℕ → ℕ → ℕ) → List Round → ℕ → List PendingRename → List FileEvent × Watch
  unfolding read_notices is_terminal_watcher_err is_invalid_handle
  stream_directory target clock [] retries queue = ([], watching retries queue)
  stream_directory target clock (stop_asked ∷ rounds) retries queue = ([], ended)
  stream_directory target clock (failed e ∷ rounds) retries queue =
      let again = stream_directory target clock rounds (suc retries) queue in
      if is_terminal_watcher_err e || (is_invalid_handle e || leb max_retries (suc retries))
      then ([], ended)
      else again
  stream_directory target clock (data_read bytes ∷ rounds) retries queue =
      let rest : List PendingRename → List FileEvent × Watch =
        stream_directory target clock rounds 0 in
      if is_nil bytes
      then rest queue
      else resumed rest
          (read_notices P (suc (length bytes)) target (clock (length rounds)) 0 bytes 0 queue)

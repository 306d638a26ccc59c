-- ===== src/Backend/Backup/Sessions.antt =====
-- backend/app/services/backup_service.go: the methods on one session. Each looks the session up
-- under the lock and answers `session_not_found` when it is not there.
use sagiri_guard.Base.{ℕ, ◌+◌, ◌%◌, ◌^◌, not, Option, none, some, String, ◌==◌, if◌then◌else◌}
use sagiri_guard.Base.Map.{lookup, insert}
use sagiri_guard.Base.Results.{Result, ok, err}
use sagiri_guard.Backend.Backup.{
  Direction, completed, BackupSession, Sessions, BackupError, session_not_found, invalid_session,
  direction_mismatch, SessionResponse, to_response, same_direction,
}

-- `GetSession`
unfoldable pub get_session : String → Sessions → Result BackupError SessionResponse
unfolding lookup
get_session id ss = elim (lookup id ss) [
  | none ↦ err session_not_found
  | some s ↦ ok (to_response s)
]

unfoldable pub check_session :
    String → Direction → Option BackupSession → Result BackupError BackupSession
check_session token dir none = err session_not_found
check_session token dir (some s) =
    if not (s.token == token)
    then err invalid_session
    else if not (same_direction s.direction dir)
    then err direction_mismatch
    else ok s

-- `ValidateSession`
unfoldable pub validate_session :
    String → String → Direction → Sessions → Result BackupError BackupSession
unfolding check_session lookup
validate_session id token dir ss = check_session token dir (lookup id ss)

-- `BytesDone += delta` on int64
abbrev pub advanced : ℕ → ℕ → BackupSession → BackupSession
advanced delta now s = record s { bytes_done = (s.bytes_done + delta) % 2 ^ 64; updated_at = now }

unfoldable pub advance_found :
    String → ℕ → ℕ → Option BackupSession → Sessions → Result BackupError ℕ × Sessions
unfolding insert
advance_found id delta now none ss = (err session_not_found, ss)
advance_found id delta now (some s) ss =
    (ok ((advanced delta now s).bytes_done), insert id (advanced delta now s) ss)

-- `Advance`
unfoldable pub advance : String → ℕ → ℕ → Sessions → Result BackupError ℕ × Sessions
unfolding advance_found lookup
advance id delta now ss = advance_found id delta now (lookup id ss) ss

-- `CurrentOffset`
unfoldable pub current_offset : String → Sessions → Result BackupError ℕ
unfolding lookup
current_offset id ss = elim (lookup id ss) [
  | none ↦ err session_not_found
  | some s ↦ ok s.bytes_done
]

-- the fields that end a session
abbrev pub complete : ℕ → BackupSession → BackupSession
complete now s = record s { status = completed; bytes_done = s.file_size; updated_at = now }

unfoldable pub complete_found :
    String → ℕ → Option BackupSession → Sessions → Option BackupError × Sessions
unfolding insert
complete_found id now none ss = (some session_not_found, ss)
complete_found id now (some s) ss = (none, insert id (complete now s) ss)

-- `MarkCompleted`
unfoldable pub mark_completed : String → ℕ → Sessions → Option BackupError × Sessions
unfolding complete_found lookup
mark_completed id now ss = complete_found id now (lookup id ss) ss

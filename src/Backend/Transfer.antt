-- ===== src/Backend/Transfer.antt =====
-- backend/app/controllers/protocol_backup.go and `isAuthorized` of protocol_controller.go: the
-- messages of an upload, over the backup service. The messages of one connection come in order and
-- a handler's accesses to the shared maps are each under a lock, so a handler is one step here.
pub mod Client
pub mod Receive
pub mod Finish
pub mod Roundtrip
pub mod Refused
use sagiri_guard.Base.{
  ℕ, ◌+◌, ◌%◌, ◌^◌, ◌≡◌, Bool, true, false, not, ◌||◌, List, [], ◌∷◌, Option, none, some, String,
  ◌==◌, if◌then◌else◌, nat_eq, is_nil,
}
use sagiri_guard.Base.Text.{Text}
use sagiri_guard.Base.Map.{Map, lookup, insert, delete}
use sagiri_guard.Base.Results.{Result, ok, err}
use sagiri_guard.Base.Table.{Table}
use sagiri_guard.Network.{ProtocolMessage}
use sagiri_guard.Backend.Files.{Files, Written, done, open_failed, write_failed, open_write}
use sagiri_guard.Backend.Backup.{
  BackupSession, Sessions, BackupError, SessionResponse, UploadRequest, Paths, Fresh,
  prepare_upload, prepare_download, upload,
}
use sagiri_guard.Backend.Backup.Sessions.{validate_session, advance, mark_completed}
use sagiri_guard.Backend.Backup.Versions.{BackupVersion, key, fill}
use sagiri_guard.Backend.Backup.Finalize.{finalize_upload}

-- `backupSessionCtx`
pub record SessionCtx : Type 0 where
  pub id : String
  pub token : String

-- The parts of `ProtocolController` that a transfer uses, the backup service's state included.
-- `enabled` is whether there is a backup service.
pub record Transfer (V : Type 0) : Type 0 where
  pub device_tokens : Map String
  pub active_upload : Map SessionCtx
  pub enabled : Bool
  pub sessions : Sessions
  pub files : Files
  pub versions : Option V

-- the entry of a Go map of strings, "" when it is missing
abbrev pub token_of : Option String → String
token_of none = ""
token_of (some t) = t

pub data TransferError : Type 0 where
  unauthorized missing_device bad_payload : TransferError
  service : BackupError → TransferError

unfoldable pub validated :
    SessionCtx → Result BackupError BackupSession → Option (SessionCtx × BackupSession)
validated c (err e) = none
validated c (ok s) = some (c, s)

module _ {V : Type 0} where
  -- `isAuthorized`
  unfoldable pub is_authorized : String → Transfer V → Bool
  unfolding lookup
  is_authorized device st =
      if device == "" then false else not (token_of (lookup device st.device_tokens) == "")

  unfoldable pub with_ctx :
      String → Option SessionCtx → Transfer V → Option (SessionCtx × BackupSession)
  unfolding validated validate_session
  with_ctx token none st = none
  with_ctx token (some c) st =
      if not (c.token == token)
      then none
      else validated c (validate_session c.id c.token upload st.sessions)

  -- the checks that `handleFileChunk` and `handleFileDone` both start with
  unfoldable pub accepted : ProtocolMessage → Transfer V → Option (SessionCtx × BackupSession)
  unfolding is_authorized with_ctx lookup
  accepted msg st =
      if not (is_authorized msg.device_id st)
      then none
      else if not st.enabled
      then none
      else if msg.session_id == "" || msg.token == ""
      then none
      else with_ctx msg.token (lookup msg.session_id st.active_upload) st

  unfoldable pub after_write : ℕ → SessionCtx → ℕ → Written × Files → Transfer V → Transfer V
  unfolding advance
  after_write now c len (done, fs) st = record st {
    files = fs;
    sessions = (advance c.id len now st.sessions).1;
  }
  after_write now c len (open_failed, fs) st = record st { files = fs }
  after_write now c len (write_failed, fs) st = record st { files = fs }

  unfoldable pub write_chunk :
      ℕ → Option (SessionCtx × BackupSession) → ℕ → ℕ → Option Text → Transfer V → Transfer V
  unfolding after_write open_write lookup
  write_chunk now none offset len bytes st = st
  write_chunk now (some (c, s)) offset len none st = st
  write_chunk now (some (c, s)) offset len (some bytes) st =
      if nat_eq len 0
      then st
      else after_write now c len
          (open_write s.temp_path offset bytes (lookup s.temp_path st.files.contents) st.files) st

  -- `handleFileChunk`, at a time
  unfoldable pub handle_file_chunk : ℕ → ProtocolMessage → Transfer V → Transfer V
  unfolding accepted write_chunk
  handle_file_chunk now msg st =
      write_chunk now (accepted msg st) msg.chunk_offset msg.chunk_len msg.chunk_data st

-- `handleBackupInitUpload`; a payload that does not parse is `none`, and the answer `ok none` is
-- the nil of a controller without a backup service
module _ {V : Type 0} (paths : Paths) (fresh : Fresh) where
  unfoldable pub track_upload :
      Result BackupError SessionResponse × Sessions × Files
      → Transfer V
      → Result TransferError (Option SessionResponse) × Transfer V
  unfolding insert
  track_upload (err e, ss, fs) st = (err (service e), record st { sessions = ss; files = fs })
  track_upload (ok r, ss, fs) st = (
    ok (some r),
    record st {
      sessions = ss;
      files = fs;
      active_upload =
          insert r.session_id (record { id = r.session_id; token = r.token }) st.active_upload;
    },
  )

  unfoldable pub handle_backup_init_upload :
      String
      → Option UploadRequest
      → Transfer V
      → Result TransferError (Option SessionResponse) × Transfer V
  unfolding is_authorized track_upload prepare_upload
  handle_backup_init_upload device req st =
      if not (is_authorized device st)
      then (err unauthorized, st)
      else if not st.enabled
      then (ok none, st)
      else if device == ""
      then (err missing_device, st)
      else elim req [
        | none ↦ (err bad_payload, st)
        | some r ↦ track_upload (prepare_upload paths fresh device r st.sessions st.files) st
      ]

  abbrev pub answer_download :
      Result BackupError SessionResponse × Sessions
      → Transfer V
      → Result TransferError (Option SessionResponse) × Transfer V
  answer_download (err e, ss) st = (err (service e), record st { sessions = ss })
  answer_download (ok r, ss) st = (ok (some r), record st { sessions = ss })

  -- `handleBackupInitDownload`, on the name that is asked for
  unfoldable pub handle_backup_init_download :
      String
      → Option String
      → Transfer V
      → Result TransferError (Option SessionResponse) × Transfer V
  unfolding is_authorized prepare_download
  handle_backup_init_download device name st =
      if not (is_authorized device st)
      then (err unauthorized, st)
      else if not st.enabled
      then (ok none, st)
      else if device == ""
      then (err missing_device, st)
      else elim name [
        | none ↦ (err bad_payload, st)
        | some n ↦ answer_download (prepare_download paths fresh device n st.sessions st.files) st
      ]

module _ (paths : Paths) (T : Table BackupVersion key fill) where
  unfoldable pub close_upload :
      String
      → Option BackupError × Sessions × Files × Option T.State
      → Transfer T.State
      → Transfer T.State
  unfolding delete
  close_upload id (some e, ss, fs, t) st = record st { sessions = ss; files = fs; versions = t }
  close_upload id (none, ss, fs, t) st = record st {
    sessions = ss;
    files = fs;
    versions = t;
    active_upload = delete id st.active_upload;
  }

  unfoldable pub finish_transfer :
      ℕ → String → String → Option BackupError × Sessions → Transfer T.State → Transfer T.State
  unfolding close_upload finalize_upload
  finish_transfer now id sid (some e, ss) st = record st { sessions = ss }
  finish_transfer now id sid (none, ss) st =
      close_upload id (finalize_upload paths T sid now ss st.files st.versions) st

  unfoldable pub done_for :
      ℕ → String → Option (SessionCtx × BackupSession) → Transfer T.State → Transfer T.State
  unfolding finish_transfer mark_completed
  done_for now id none st = st
  done_for now id (some (c, s)) st =
      finish_transfer now id s.id (mark_completed s.id now st.sessions) st

  -- `handleFileDone`, at a time
  unfoldable pub handle_file_done : ℕ → ProtocolMessage → Transfer T.State → Transfer T.State
  unfolding done_for accepted
  handle_file_done now msg st = done_for now msg.session_id (accepted msg st) st

-- ===== src/Backend/Download.antt =====
-- Downloads: handleBackupDownloadStart of backend/app/controllers/protocol_backup.go, and
-- the loop of DownloadFile in agent/internal/backup/backup.go over the frames that arrive, which
-- stands behind its connection and request. The number of a send says whether it succeeds. Fuel above the length of the file is enough for the loop that sends.
pub mod Received
use sagiri_guard.Base.{
  ℕ, zero, suc, ◌+◌, ◌%◌, ◌^◌, ◌*◌, ◌≡◌, Bool, true, false, not, ◌||◌, List, [], ◌∷◌, ◌++◌, Option,
  none, some, String, ◌==◌, if◌then◌else◌, length, take, drop, is_nil,
}
use sagiri_guard.Base.Text.{Text}
use sagiri_guard.Base.Map.{lookup}
use sagiri_guard.Base.Results.{Result, ok, err}
use sagiri_guard.Backend.Files.{Files, write_at}
use sagiri_guard.Backend.Backup.{BackupError, BackupSession, download}
use sagiri_guard.Backend.Backup.Sessions.{validate_session}
use sagiri_guard.Backend.Transfer.{Transfer, is_authorized}
use sagiri_guard.Backend.Transfer.Client.{sent_chunk}

-- the frames of a download, as far as the agent reads them
pub data Frame : Type 0 where
  file_meta : String → ℕ → Frame
  file_chunk : ℕ → Text → Frame
  file_done : Frame
  refusal : ℕ → Frame
  other_frame : Frame

-- `dto.BackupDownloadStartRequest`
pub record StartRequest : Type 0 where
  pub session_id : String
  pub token : String
  pub offset : ℕ

pub data DownloadError : Type 0 where
  unauthorized disabled bad_payload missing_credentials open_failed send_failed : DownloadError
  invalid : BackupError → DownloadError

abbrev pub buffer_size : ℕ
buffer_size = 512 * 1024

-- the loop over the reads: the chunks that were sent, and whether it came to the end of the file
unfoldable pub serve_loop : ℕ → ℕ → (ℕ → Bool) → ℕ → ℕ → Text → List (ℕ × Text) × Bool
serve_loop zero size sends k offset rest = ([], false)
serve_loop (suc fuel) size sends k offset rest =
    if is_nil rest
    then ([], true)
    else let chunk = take size rest in
      let more =
        serve_loop fuel size sends (suc k) ((offset + length chunk) % 2 ^ 32) (drop size rest) in
      if sends k then sent_chunk (offset, chunk) more else ([], false)

abbrev pub chunk_frames : List (ℕ × Text) → List Frame
chunk_frames [] = []
chunk_frames ((o, bytes) ∷ cs) = file_chunk o bytes ∷ chunk_frames cs

-- the end of the file, behind the chunks
unfoldable pub close_file :
    Bool → List Frame → List (ℕ × Text) × Bool → Option DownloadError × List Frame
close_file sends_done frames (cs, false) = (some send_failed, frames ++ chunk_frames cs)
close_file false frames (cs, true) = (some send_failed, frames ++ chunk_frames cs)
close_file true frames (cs, true) = (none, frames ++ (chunk_frames cs ++ (file_done ∷ [])))

module _ (sends : ℕ → Bool) (sends_done : Bool) where
  unfoldable pub send_file :
      ℕ → BackupSession → Option Text → Files → Option DownloadError × List Frame
  unfolding serve_loop close_file
  send_file offset s none fs = (some open_failed, file_meta s.file_name s.file_size ∷ [])
  send_file offset s (some content) fs =
      if fs.open_works
      then close_file sends_done (file_meta s.file_name s.file_size ∷ [])
          (serve_loop (suc (length content)) buffer_size sends 1 offset (drop offset content))
      else (some open_failed, file_meta s.file_name s.file_size ∷ [])

  unfoldable pub send_session :
      ℕ → Result BackupError BackupSession → Files → Option DownloadError × List Frame
  unfolding send_file lookup
  send_session offset (err e) fs = (some (invalid e), [])
  send_session offset (ok s) fs =
      if sends 0
      then send_file offset s (lookup s.final_path fs.contents) fs
      else (some send_failed, [])

  -- `handleBackupDownloadStart`: the error, and the frames that were sent
  unfoldable pub handle_backup_download_start :
      {V : Type 0} → String → Option StartRequest → Transfer V → Option DownloadError × List Frame
  unfolding is_authorized send_session validate_session
  handle_backup_download_start device req st =
      if not (is_authorized device st)
      then (some unauthorized, [])
      else if not st.enabled
      then (some disabled, [])
      else elim req [
        | none ↦ (some bad_payload, [])
        | some r ↦
            if r.session_id == "" || r.token == ""
            then (some missing_credentials, [])
            else send_session r.offset (validate_session r.session_id r.token download st.sessions)
                st.files
      ]

-- What the agent has of the file: the position of the next write, and the content. The name, the
-- size and the count of bytes that the loop notes in its session are not read by it.
pub record Destination : Type 0 where
  pub position : ℕ
  pub content : Text

-- How a download ended: whole, refused with a code, or with the connection lost.
pub data Ended : Type 0 where
  finished lost : Ended
  refused : ℕ → Ended

-- the loop of `DownloadFile` over the frames that arrive
unfoldable pub receive_file : List Frame → Destination → Ended × Destination
unfolding write_at
receive_file [] d = (lost, d)
receive_file (file_meta name size ∷ fs) d = receive_file fs (record d { position = 0 })
receive_file (file_chunk o bytes ∷ fs) d =
    receive_file fs (record {
      position = d.position + length bytes;
      content = write_at d.position bytes d.content;
    })
receive_file (file_done ∷ fs) d = (finished, d)
receive_file (refusal code ∷ fs) d = (refused code, d)
receive_file (other_frame ∷ fs) d = receive_file fs d

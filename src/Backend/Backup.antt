-- ===== src/Backend/Backup.antt =====
-- backend/app/services/backup_service.go and backend/app/repo/backup_version_repo.go: upload and
-- download sessions, and the versions of each file. Sessions are guarded by one lock, so a method
-- is one step. Time, random tokens and the spelling of paths come as arguments; the two 64-bit
-- counters keep their wrap-around.
pub mod Sessions
pub mod Versions
pub mod Finalize
pub mod Laws
pub mod Newest
use sagiri_guard.Base.{
  ℕ, zero, suc, ◌+◌, ◌%◌, ◌^◌, ◌≡◌, Bool, true, false, not, ◌&&◌, ◌||◌, List, [], ◌∷◌, ◌++◌, Option,
  none, some, String, ◌==◌, if◌then◌else◌, leb, ltb, nat_eq, length, is_some, select,
}
use sagiri_guard.Base.Strings.{append}
use sagiri_guard.Base.Text.{Text}
use sagiri_guard.Base.Map.{Map, lookup, insert}
use sagiri_guard.Base.Results.{Result, ok, err}
use sagiri_guard.Base.Table.{Table}
use sagiri_guard.Backend.Files.{Files, Stat, present, absent, failed, stat, create, rename}

pub data Direction : Type 0 where
  upload download : Direction

pub data Status : Type 0 where
  pending active completed error : Status

abbrev pub same_direction : Direction → Direction → Bool
same_direction upload upload = true
same_direction download download = true
same_direction _ _ = false

-- `BackupSession`; the bytes done are the bit pattern of an int64
pub record BackupSession : Type 0 where
  pub id : String
  pub token : String
  pub device_id : String
  pub file_id : String
  pub logical_path : String
  pub file_name : String
  pub file_size : ℕ
  pub checksum : String
  pub direction : Direction
  pub status : Status
  pub temp_path : String
  pub final_path : String
  pub bytes_done : ℕ
  pub created_at : ℕ
  pub updated_at : ℕ

abbrev pub Sessions : Type 0
Sessions = Map BackupSession

pub data BackupError : Type 0 where
  missing_device_id invalid_metadata mkdir_failed stat_failed create_failed : BackupError
  missing_download_parameters session_not_found invalid_session : BackupError
  direction_mismatch missing_temp_path finalize_failed next_version_failed store_version_failed :
      BackupError

-- `dto.BackupUploadInitRequest`; a negative size is `none`
pub record UploadRequest : Type 0 where
  pub file_name : String
  pub file_size : Option ℕ
  pub checksum : String
  pub logical_path : String
  pub file_id : String

-- `dto.BackupSessionResponse`, less what it copies from the service's configuration
pub record SessionResponse : Type 0 where
  pub session_id : String
  pub token : String
  pub file_name : String
  pub file_size : ℕ
  pub offset : ℕ
  pub direction : Direction
  pub status : Status

-- `toResponse`
abbrev pub to_response : BackupSession → SessionResponse
to_response s = record {
  session_id = s.id;
  token = s.token;
  file_name = s.file_name;
  file_size = s.file_size;
  offset = s.bytes_done;
  direction = s.direction;
  status = s.status;
}

-- filepath.Base, and filepath.Join of the storage folder, the device and a stored name (with the
-- time in front for an upload)
pub record Paths : Type 0 where
  pub base : String → String
  pub stored_name : ℕ → String → String
  pub join : String → String → String

abbrev pub part_suffix : String
part_suffix = ".part"

abbrev pub path_suffix : String
path_suffix = ".path"

-- what `crypto/rand` and the clock give to one call
pub record Fresh : Type 0 where
  pub session_id : String
  pub token : String
  pub now : ℕ

-- `os.Stat` of the temporary file, and its creation when it is not there
unfoldable pub open_temp : String → Stat → Files → Result BackupError (ℕ × Files)
open_temp p (present n) fs = ok (n, fs)
open_temp p failed fs = err stat_failed
open_temp p absent fs = elim (create p fs) [ none ↦ err create_failed | some fs' ↦ ok (0, fs') ]

-- the offset is cut down to the size of the file
abbrev pub clamp_offset : ℕ → ℕ → ℕ
clamp_offset offset size = if ltb size offset && ltb 0 size then size else offset

module _ (paths : Paths) (fresh : Fresh) where
  abbrev pub final_of_upload : String → UploadRequest → String
  final_of_upload device req =
      paths.join device (paths.stored_name fresh.now (paths.base req.file_name))

  abbrev pub temp_of_upload : String → UploadRequest → String
  temp_of_upload device req = append (final_of_upload device req) part_suffix

  abbrev pub new_upload : String → UploadRequest → ℕ → ℕ → BackupSession
  new_upload device req size offset = record {
    id = fresh.session_id;
    token = fresh.token;
    device_id = device;
    file_id = req.file_id;
    logical_path = if req.logical_path == "" then paths.base req.file_name else req.logical_path;
    file_name = paths.base req.file_name;
    file_size = size;
    checksum = req.checksum;
    direction = upload;
    status = active;
    temp_path = temp_of_upload device req;
    final_path = final_of_upload device req;
    bytes_done = clamp_offset offset size;
    created_at = fresh.now;
    updated_at = fresh.now;
  }

  unfoldable pub add_upload :
      String
      → UploadRequest
      → ℕ
      → Result BackupError (ℕ × Files)
      → Sessions
      → Files
      → Result BackupError SessionResponse × Sessions × Files
  unfolding insert
  add_upload device req size (err e) ss fs = (err e, ss, fs)
  add_upload device req size (ok (offset, fs')) ss fs =
      let s = new_upload device req size offset in (ok (to_response s), insert s.id s ss, fs')

  unfoldable pub prepare_sized :
      String
      → UploadRequest
      → ℕ
      → Sessions
      → Files
      → Result BackupError SessionResponse × Sessions × Files
  unfolding add_upload open_temp
  prepare_sized device req size ss fs =
      if not fs.mkdir_works
      then (err mkdir_failed, ss, fs)
      else let temp = temp_of_upload device req in
        add_upload device req size (open_temp temp (stat temp fs) fs) ss fs

  -- `PrepareUpload`
  unfoldable pub prepare_upload :
      String
      → UploadRequest
      → Sessions
      → Files
      → Result BackupError SessionResponse × Sessions × Files
  unfolding prepare_sized
  prepare_upload device req ss fs =
      if device == ""
      then (err missing_device_id, ss, fs)
      else if req.file_name == ""
      then (err invalid_metadata, ss, fs)
      else elim req.file_size [
        | none ↦ (err invalid_metadata, ss, fs)
        | some size ↦
            if nat_eq size 0
            then (err invalid_metadata, ss, fs)
            else prepare_sized device req size ss fs
      ]

  -- the session that `PrepareDownload` registers
  abbrev pub new_download : String → String → String → ℕ → BackupSession
  new_download device name final size = record {
    id = fresh.session_id;
    token = fresh.token;
    device_id = device;
    file_id = "";
    logical_path = "";
    file_name = name;
    file_size = size;
    checksum = "";
    direction = download;
    status = active;
    temp_path = "";
    final_path = final;
    bytes_done = 0;
    created_at = fresh.now;
    updated_at = fresh.now;
  }

  unfoldable pub add_download :
      BackupSession → Sessions → Result BackupError SessionResponse × Sessions
  unfolding insert
  add_download s ss = (ok (to_response s), insert s.id s ss)

  -- `PrepareDownload`, for the name that is asked for
  unfoldable pub prepare_download :
      String → String → Sessions → Files → Result BackupError SessionResponse × Sessions
  unfolding add_download stat
  prepare_download device file_name ss fs =
      if device == "" || file_name == ""
      then (err missing_download_parameters, ss)
      else let name = paths.base file_name in
        let final = paths.join device name in
        elim (stat final fs) [
          | present n ↦ add_download (new_download device name final n) ss
          | absent ↦ (err stat_failed, ss)
          | failed ↦ (err stat_failed, ss)
        ]

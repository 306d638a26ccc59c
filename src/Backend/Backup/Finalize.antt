-- ===== src/Backend/Backup/Finalize.antt =====
-- backend/app/services/backup_service.go: `FinalizeUpload`, which moves the uploaded file to its
-- place and stores a version of it.
use sagiri_guard.Base.Strings.{append, ends_with}
use sagiri_guard.Base.{ℕ, not, Option, none, some, String, ◌==◌, if◌then◌else◌}
use sagiri_guard.Base.Map.{lookup, insert}
use sagiri_guard.Base.Table.{Table}
use sagiri_guard.Backend.Files.{Files, present, absent, failed, stat, rename}
use sagiri_guard.Backend.Backup.{
  Paths, BackupSession, Sessions, BackupError, session_not_found, direction_mismatch,
  missing_temp_path, finalize_failed, next_version_failed, store_version_failed, same_direction,
  upload, path_suffix,
}
use sagiri_guard.Backend.Backup.Sessions.{complete}
use sagiri_guard.Backend.Backup.Versions.{BackupVersion, key, fill, next_version, create_version}

-- the attempts after a first rename that failed
unfoldable pub fallback_rename : BackupSession → Files → Option Files
unfolding rename stat
fallback_rename s fs =
    let alt = append s.final_path path_suffix in
    if ends_with s.temp_path path_suffix
    then rename s.temp_path s.final_path fs
    else if ends_with alt path_suffix
    then elim (stat alt fs) [
      | present n ↦ rename alt s.final_path fs
      | absent ↦ none
      | failed ↦ none
    ]
    else none

unfoldable pub or_fallback : Option Files → BackupSession → Files → Option Files
unfolding fallback_rename
or_fallback (some fs') s fs = some fs'
or_fallback none s fs = fallback_rename s fs

-- from the temporary path to the final one
unfoldable pub move_file : BackupSession → Files → Option Files
unfolding or_fallback rename
move_file s fs = or_fallback (rename s.temp_path s.final_path fs) s fs

module _ (paths : Paths) (T : Table BackupVersion key fill) where
  -- the row that is stored
  abbrev pub version_row : BackupSession → ℕ → BackupVersion
  version_row s n = record {
    id = 0;
    device_id = s.device_id;
    file_id = s.file_id;
    logical_path = s.logical_path;
    file_name = s.file_name;
    stored_name = paths.base s.final_path;
    version = n;
    size = s.file_size;
  }

  unfoldable pub store_version : BackupSession → Option ℕ → T.State → Option BackupError × T.State
  unfolding create_version
  store_version s none t = (some next_version_failed, t)
  store_version s (some n) t = elim (create_version T (version_row s n) t) [
    | none ↦ (some store_version_failed, t)
    | some t' ↦ (none, t')
  ]

  -- the version of a finished upload; a service without a repository stores none
  unfoldable pub add_version : BackupSession → Option T.State → Option BackupError × Option T.State
  unfolding store_version next_version
  add_version s none = (none, none)
  add_version s (some t) =
      if s.logical_path == ""
      then (none, some t)
      else let (e, t') = store_version s (next_version T s.device_id s.logical_path t) t in
        (e, some t')

  unfoldable pub finish_upload :
      String
      → ℕ
      → BackupSession
      → Option Files
      → Sessions
      → Files
      → Option T.State
      → Option BackupError × Sessions × Files × Option T.State
  unfolding add_version insert
  finish_upload id now s none ss fs t = (some finalize_failed, ss, fs, t)
  finish_upload id now s (some fs') ss fs t =
      let (e, t') = add_version s t in (e, insert id (complete now s) ss, fs', t')

  unfoldable pub finalize_found :
      String
      → ℕ
      → Option BackupSession
      → Sessions
      → Files
      → Option T.State
      → Option BackupError × Sessions × Files × Option T.State
  unfolding finish_upload move_file
  finalize_found id now none ss fs t = (some session_not_found, ss, fs, t)
  finalize_found id now (some s) ss fs t =
      if not (same_direction s.direction upload)
      then (some direction_mismatch, ss, fs, t)
      else if s.temp_path == ""
      then (some missing_temp_path, ss, fs, t)
      else finish_upload id now s (move_file s fs) ss fs t

  -- `FinalizeUpload`
  unfoldable pub finalize_upload :
      String
      → ℕ
      → Sessions
      → Files
      → Option T.State
      → Option BackupError × Sessions × Files × Option T.State
  unfolding finalize_found lookup
  finalize_upload id now ss fs t = finalize_found id now (lookup id ss) ss fs t

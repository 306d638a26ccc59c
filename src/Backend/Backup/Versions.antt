-- ===== src/Backend/Backup/Versions.antt =====
-- backend/app/repo/backup_version_repo.go: the stored versions of each file, kept in the table of
-- `BackupFileVersion` rows. A query that fails is `none`. Version numbers start at one and grow one
-- by one, so a natural number stands for the int.
use sagiri_guard.Base.{
  ℕ, suc, Bool, ◌&&◌, List, [], ◌∷◌, Option, none, some, String, ◌==◌, if◌then◌else◌, ltb, leb,
  nat_eq, head?,
}
use Prim.Native.Nat.{max}
use sagiri_guard.Base.Table.{Table}

-- `BackupFileVersion`
pub record BackupVersion : Type 0 where
  pub id : ℕ
  pub device_id : String
  pub file_id : String
  pub logical_path : String
  pub file_name : String
  pub stored_name : String
  pub version : ℕ
  pub size : ℕ

abbrev pub key : BackupVersion → ℕ
key v = v.id

abbrev pub fill : ℕ → BackupVersion → BackupVersion
fill n v = record v { id = n }

-- `device_id = ? AND logical_path = ?`
abbrev pub of_path : String → String → BackupVersion → Bool
of_path device path v = v.device_id == device && v.logical_path == path

-- `device_id = ? AND file_id = ?`
abbrev pub of_file : String → String → BackupVersion → Bool
of_file device file v = v.device_id == device && v.file_id == file

-- `MAX(version)`, zero for no rows
unfoldable pub max_version : List BackupVersion → ℕ
max_version [] = 0
max_version (v ∷ vs) = max v.version (max_version vs)

-- the first of the rows with the highest version
unfoldable pub newest_from : BackupVersion → List BackupVersion → BackupVersion
newest_from best [] = best
newest_from best (v ∷ vs) = newest_from (if ltb best.version v.version then v else best) vs

unfoldable pub newest : List BackupVersion → Option BackupVersion
unfolding newest_from
newest [] = none
newest (v ∷ vs) = some (newest_from v vs)

unfoldable pub place :
    (BackupVersion → BackupVersion → Bool) → BackupVersion → List BackupVersion → List BackupVersion
place le v [] = v ∷ []
place le v (w ∷ ws) = if le v w then v ∷ w ∷ ws else w ∷ place le v ws

-- `ORDER BY`
unfoldable pub sort :
    (BackupVersion → BackupVersion → Bool) → List BackupVersion → List BackupVersion
unfolding place
sort le [] = []
sort le (v ∷ vs) = place le v (sort le vs)

abbrev pub older : BackupVersion → BackupVersion → Bool
older v w = leb v.version w.version

abbrev pub newer : BackupVersion → BackupVersion → Bool
newer v w = leb w.version v.version

module _ (T : Table BackupVersion key fill) where
  -- `NextVersion`: no rows give version one
  unfoldable pub next_version : String → String → T.State → Option ℕ
  unfolding max_version
  next_version device path s = elim (T.find (of_path device path) s) [
    | none ↦ none
    | some vs ↦ some (suc (max_version vs))
  ]

  -- `Create`
  unfoldable pub create_version : BackupVersion → T.State → Option T.State
  create_version v s = elim (T.create v s) [ none ↦ none | some r ↦ some r.1 ]

  -- `List`
  unfoldable pub list_versions : String → String → T.State → Option (List BackupVersion)
  unfolding sort
  list_versions device path s = elim (T.find (of_path device path) s) [
    | none ↦ none
    | some vs ↦ some (sort older vs)
  ]

  -- `Get`: the version zero asks for the latest
  unfoldable pub get_version : String → String → ℕ → T.State → Option (Option BackupVersion)
  unfolding newest
  get_version device path n s =
      if ltb 0 n
      then elim (T.find (λ v. of_path device path v && nat_eq v.version n) s) [
        | none ↦ none
        | some vs ↦ some (head? vs)
      ]
      else elim (T.find (of_path device path) s) [ none ↦ none | some vs ↦ some (newest vs) ]

  -- `GetByID`
  unfoldable pub get_by_id : ℕ → T.State → Option (Option BackupVersion)
  get_by_id n s = elim (T.find (λ v. nat_eq v.id n) s) [ none ↦ none | some vs ↦ some (head? vs) ]

  -- `ListByFileID`
  unfoldable pub list_by_file_id : String → String → T.State → Option (List BackupVersion)
  unfolding sort
  list_by_file_id device file s = elim (T.find (of_file device file) s) [
    | none ↦ none
    | some vs ↦ some (sort newer vs)
  ]

  -- `GetLatestByFileID`
  unfoldable pub get_latest_by_file_id : String → String → T.State → Option (Option BackupVersion)
  unfolding newest
  get_latest_by_file_id device file s = elim (T.find (of_file device file) s) [
    | none ↦ none
    | some vs ↦ some (newest vs)
  ]

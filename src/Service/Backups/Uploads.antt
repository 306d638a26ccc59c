-- ===== src/Service/Backups/Uploads.antt =====
-- agent/internal/service/service.go: backupFile marks a file as backed up only after its upload.
use sagiri_guard.Base.{
  ℕ, ◌≡◌, ◌⊎◌, refl, sym, ap, ◌∙◌, Bool, true, false, Bool-cases, Option-cases, inl, inr, List,
  Option, none, some, String, ◌==◌, if◌then◌else◌, map,
}
use sagiri_guard.Base.Results.{Result, ok, err}
use sagiri_guard.Local.{LocalDb, MonitoredFile, has_path}
use sagiri_guard.Service.Backups.{
  Upload, file_id_of, mark_backed_up, uploaded, with_session, with_stat, backup_file,
}

abbrev pub marked : ℕ → String → MonitoredFile → MonitoredFile
marked now path r = if has_path path r then record r { last_backup_at = some now } else r

module _ (D : LocalDb) where
  -- the rows of a database, if it was opened
  abbrev pub rows_of : Option D.table.State → Option (List MonitoredFile)
  rows_of none = none
  rows_of (some s) = some (D.table.rows s)

  -- an upload that was made: the file is no directory, there is a token, and the calls of package
  -- backup succeeded
  abbrev pub IsUploaded : Upload → String → Option D.table.State → Type 0
  IsUploaded u path db =
      (u.stat path ≡ ok false)
      × (((u.token == "") ≡ false)
          × ((session : String) × ((u.init_upload u.token path (file_id_of D path db) ≡ ok session)
                × ((b : Bool) × (u.upload_file session path ≡ ok b)))))

  -- the rows of the path have the time of the backup, and the others are as they were
  abbrev pub IsMarked : ℕ → String → Option D.table.State → Option D.table.State → Type 0
  IsMarked now path db after =
      rows_of after ≡ elim (rows_of db) as (λ _. Option (List MonitoredFile)) [
        | none ↦ none
        | some rows ↦ some (map (marked now path) rows)
      ]

  -- the result of an update, or the state before it
  abbrev or_old : D.table.State → Option D.table.State → D.table.State
  or_old s none = s
  or_old s (some t) = t

  mark_cases :
      (now : ℕ) (path : String) (db : Option D.table.State)
      → (mark_backed_up D now path db ≡ db) ⊎ IsMarked now path db (mark_backed_up D now path db)
  unfolding mark_backed_up
  mark_cases now path none = inl refl
  mark_cases now path (some s) =
      let set : MonitoredFile → MonitoredFile = λ r. record r { last_backup_at = some now } in
      elim (Option-cases (D.table.update (has_path path) set s)) [
        | inl e ↦ inl (ap (λ o. some (or_old s o)) e)
        | inr (t, e) ↦ inr (
            ap (λ o. some (D.table.rows (or_old s o))) e
            ∙ ap some (D.table.update_rows (has_path path) set s t e))
      ]

  -- what the calls of package backup leave
  abbrev IsDone :
      ℕ → String → Option D.table.State → Result String Bool × Option D.table.State → Type 0
  IsDone now path db r = IsMarked now path db r.1 × ((b : Bool) × (r.0 ≡ ok b))

  uploaded_cases :
      (now : ℕ) (path : String) (r : Result String Bool) (db : Option D.table.State)
      → ((uploaded D now path r db).1 ≡ db)
        ⊎ (((b : Bool) × (r ≡ ok b)) × IsDone now path db (uploaded D now path r db))
  unfolding uploaded
  uploaded_cases now path (err e) db = inl refl
  uploaded_cases now path (ok b) db = elim (mark_cases now path db) [
    | inl e ↦ inl e
    | inr m ↦ inr ((b, refl), (m, (b, refl)))
  ]

  session_cases :
      (now : ℕ) (u : Upload) (path : String) (r : Result String String) (db : Option D.table.State)
      → ((with_session D now u path r db).1 ≡ db)
        ⊎ (((session : String) × ((r ≡ ok session)
                × ((b : Bool) × (u.upload_file session path ≡ ok b))))
            × IsDone now path db (with_session D now u path r db))
  unfolding with_session
  session_cases now u path (err e) db = inl refl
  session_cases now u path (ok session) db =
      elim (uploaded_cases now path (u.upload_file session path) db) [
        | inl e ↦ inl e
        | inr (b, d) ↦ inr ((session, (refl, b)), d)
      ]

  stat_cases :
      (now : ℕ) (u : Upload) (path : String) (r : Result String Bool) (db : Option D.table.State)
      → r ≡ u.stat path
      → ((with_stat D now u path r db).1 ≡ db)
        ⊎ (IsUploaded u path db × IsDone now path db (with_stat D now u path r db))
  unfolding with_stat
  stat_cases now u path (err e) db q = inl refl
  stat_cases now u path (ok true) db q = inl refl
  stat_cases now u path (ok false) db q = elim (Bool-cases (u.token == "")) [
    | inl t ↦ inl (rw t)
    | inr f ↦
        elim (session_cases now u path (u.init_upload u.token path (file_id_of D path db)) db) [
          | inl e ↦ inl (rw f e)
          | inr (up, d) ↦ inr ((sym q, (f, up)), rw f d)
        ]
  ]

  -- For all databases, uploads and paths: after a backup either the database is as it was, or the
  -- upload was made and exactly the rows of the path have the time of the backup. The backup fails
  -- only in the first case.
  IsMarked-after_upload :
      (now : ℕ) (u : Upload) (path : String) (db : Option D.table.State)
      → ((backup_file D now u path db).1 ≡ db)
        ⊎ (IsUploaded u path db
            × (IsMarked now path db (backup_file D now u path db).1
                × ((b : Bool) × ((backup_file D now u path db).0 ≡ ok b))))
  unfolding backup_file
  IsMarked-after_upload now u path db = stat_cases now u path (u.stat path) db refl

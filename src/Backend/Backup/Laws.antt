-- ===== src/Backend/Backup/Laws.antt =====
-- Sessions: who may use one, and what preparing an upload leaves.
use sagiri_guard.Base.{
  ℕ, ◌≡◌, refl, ◌≤◌, ◌↔◌, Bool, true, false, not, Option, none, some, String, ◌==◌, if◌then◌else◌,
  ◌≢◌, nat_eq, arith, eq_iff,
}
use sagiri_guard.Base.Map.{lookup, insert, lookup-insert_same}
use sagiri_guard.Base.Results.{Result, ok, err}
use sagiri_guard.Backend.Backup.{
  invalid_metadata, Direction, upload, BackupSession, Sessions, BackupError, same_direction,
  SessionResponse, clamp_offset, Paths, Fresh, new_upload, UploadRequest, open_temp, add_upload,
  prepare_upload, prepare_sized, temp_of_upload,
}
use sagiri_guard.Backend.Files.{Files, stat}
use sagiri_guard.Backend.Backup.Sessions.{validate_session, check_session}

check_session-ok :
    (token : String) (dir : Direction) (o : Option BackupSession) (s : BackupSession)
    → (check_session token dir o ≡ ok s)
      ↔ ((o ≡ some s) × (s.token ≡ token) × (same_direction s.direction dir ≡ true))
unfolding check_session
check_session-ok token dir none s = ground arith
check_session-ok token dir (some r) s = ground (arith, eq_iff r.token token)

-- A session validates just when it is registered under the id and has the token and the direction.
pub validate_session-ok :
    (id token : String) (dir : Direction) (ss : Sessions) (s : BackupSession)
    → (validate_session id token dir ss ≡ ok s)
      ↔ ((lookup id ss ≡ some s) × (s.token ≡ token) × (same_direction s.direction dir ≡ true))
unfolding validate_session
validate_session-ok id token dir ss s = check_session-ok token dir (lookup id ss) s

clamp_offset-le : (offset size : ℕ) → size ≢ 0 → clamp_offset offset size ≤ size
clamp_offset-le offset size h = ground arith

-- What a client holds after an upload was prepared: its answer's id and token open a session, whose
-- offset is within the file's size.
abbrev pub Opens : Sessions → Result BackupError SessionResponse × Sessions × Files → Type 0
Opens old (err e, ss, fs) = ss ≡ old
Opens old (ok r, ss, fs) =
    (s : BackupSession) × (validate_session r.session_id r.token upload ss ≡ ok s)
    × (s.bytes_done ≡ r.offset)
    × (s.file_size ≡ r.file_size)
    × (r.offset ≤ r.file_size)

Opens-if :
    (old : Sessions) (b : Bool) (x y : Result BackupError SessionResponse × Sessions × Files)
    → Opens old x
    → (b ≡ false → Opens old y)
    → Opens old (if b then x else y)
Opens-if old true x y p q = p
Opens-if old false x y p q = q refl

nonzero : (n : ℕ) → nat_eq n 0 ≡ false → n ≢ 0
nonzero n e = ground arith

module _ (paths : Paths) (fresh : Fresh) where
  add_upload-Opens :
      (device : String) (req : UploadRequest) (size : ℕ) (o : Result BackupError (ℕ × Files))
      (ss : Sessions) (fs : Files)
      → size ≢ 0
      → Opens ss (add_upload paths fresh device req size o ss fs)
  unfolding add_upload
  add_upload-Opens device req size (err e) ss fs h = refl
  add_upload-Opens device req size (ok (offset, fs')) ss fs h =
      let s = new_upload paths fresh device req size offset in
      (
        s,
        (validate_session-ok s.id s.token upload (insert s.id s ss) s).1
            (lookup-insert_same s.id s ss, refl, refl),
        refl,
        refl,
        clamp_offset-le offset size h,
      )

  prepare_sized-Opens :
      (device : String) (req : UploadRequest) (size : ℕ) (ss : Sessions) (fs : Files)
      → size ≢ 0
      → Opens ss (prepare_sized paths fresh device req size ss fs)
  unfolding prepare_sized
  prepare_sized-Opens device req size ss fs h =
      let temp = temp_of_upload paths fresh device req in
      Opens-if ss (not fs.mkdir_works) _ _ refl
        (λ _. add_upload-Opens device req size (open_temp temp (stat temp fs) fs) ss fs h)

  prepare_some-Opens :
      (device : String) (req : UploadRequest) (o : Option ℕ) (ss : Sessions) (fs : Files)
      → Opens ss (elim o [
        | none ↦ (err invalid_metadata, ss, fs)
        | some size ↦
            if nat_eq size 0
            then (err invalid_metadata, ss, fs)
            else prepare_sized paths fresh device req size ss fs
      ])
  prepare_some-Opens device req none ss fs = refl
  prepare_some-Opens device req (some n) ss fs =
      Opens-if ss (nat_eq n 0) _ _ refl (λ e. prepare_sized-Opens device req n ss fs (nonzero n e))

  -- When `PrepareUpload` answers, the id and the token of the answer validate as an upload whose
  -- session has the offset and the size of the answer, and the offset is not above the size. When
  -- it fails, the sessions are as they were.
  pub prepare_upload-Opens :
      (device : String) (req : UploadRequest) (ss : Sessions) (fs : Files)
      → Opens ss (prepare_upload paths fresh device req ss fs)
  unfolding prepare_upload
  prepare_upload-Opens device req ss fs = Opens-if ss (device == "") _ _ refl (λ _.
      Opens-if ss (req.file_name == "") _ _ refl
        (λ _. prepare_some-Opens device req req.file_size ss fs))

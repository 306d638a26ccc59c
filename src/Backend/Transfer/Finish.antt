-- ===== src/Backend/Transfer/Finish.antt =====
-- `handleFileDone` of protocol_backup.go on an open upload.
use mathlib.Core.Path.{subst}
use sagiri_guard.Base.{
  ℕ, ◌≡◌, refl, sym, ap, ◌∙◌, true, false, Option, none, some, String, ◌==◌, if◌then◌else◌,
}
use sagiri_guard.Base.Text.{Text}
use sagiri_guard.Base.Table.{Table}
use sagiri_guard.Base.Map.{lookup, insert, delete, lookup-insert_same}
use sagiri_guard.Network.{msg_file_done}
use sagiri_guard.Backend.Files.{Files, rename}
use sagiri_guard.Backend.Backup.{
  BackupSession, Sessions, BackupError, Paths, completed, same_direction, upload,
}
use sagiri_guard.Backend.Backup.Sessions.{complete, mark_completed, complete_found}
use sagiri_guard.Backend.Backup.Versions.{BackupVersion, key, fill}
use sagiri_guard.Backend.Backup.Finalize.{
  finalize_upload, finalize_found, finish_upload, move_file, or_fallback, add_version,
}
use sagiri_guard.Backend.Transfer.{
  Transfer, handle_file_done, done_for, finish_transfer, close_upload,
}
use sagiri_guard.Backend.Transfer.Receive.{Receiving, transfer_message, accepted-Receiving}

rename-done :
    (old new : String) (fs : Files) (content : Text)
    → lookup old fs.contents ≡ some content
    → fs.rename_works ≡ true
    → (fs' : Files) × (rename old new fs ≡ some fs') × (lookup new fs'.contents ≡ some content)
unfolding rename
rename-done old new fs content e w =
    let fs' : Files = record fs { contents = insert new content (delete old fs.contents) } in
    let moved : Text → Files =
      λ t. record fs { contents = insert new t (delete old fs.contents) } in
    (
      fs',
      ap
            (λ o. elim o as (λ _. Option Files) [
              | none ↦ none
              | some t ↦ if fs.rename_works then some (moved t) else none
            ])
            e
          ∙ ap (λ b. if b then some fs' else none) w,
      lookup-insert_same new content (delete old fs.contents),
    )

move_file-done :
    (s : BackupSession) (fs : Files) (content : Text)
    → lookup s.temp_path fs.contents ≡ some content
    → fs.rename_works ≡ true
    → (fs' : Files) × (move_file s fs ≡ some fs')
      × (lookup s.final_path fs'.contents ≡ some content)
unfolding move_file or_fallback
move_file-done s fs content e w =
    let (fs', renamed, there) = rename-done s.temp_path s.final_path fs content e w in
    (fs', ap (λ o. or_fallback o s fs) renamed, there)

mark_completed-registered :
    (id : String) (now : ℕ) (ss : Sessions) (s : BackupSession)
    → lookup id ss ≡ some s
    → mark_completed id now ss ≡ (none, insert id (complete now s) ss)
unfolding mark_completed complete_found
mark_completed-registered id now ss s e = rw e refl

module _ (paths : Paths) (T : Table BackupVersion key fill) (now : ℕ) (id : String) where
  -- The final file has the content, and the session is completed.
  abbrev pub Stored : String → Text → Transfer T.State → Type 0
  Stored final content st =
      (lookup final st.files.contents ≡ some content)
      × (s : BackupSession) × (lookup id st.sessions ≡ some s)
      × (s.status ≡ completed)

  close_upload-Stored :
      (sid final : String) (content : Text) (e : Option BackupError) (s : BackupSession)
      (ss : Sessions) (fs : Files) (t : Option T.State) (st : Transfer T.State)
      → lookup final fs.contents ≡ some content
      → Stored final content (close_upload paths T sid (e, insert id (complete now s) ss, fs, t) st)
  unfolding close_upload
  close_upload-Stored sid final content none s ss fs t st h =
      (h, complete now s, lookup-insert_same id (complete now s) ss, refl)
  close_upload-Stored sid final content (some e) s ss fs t st h =
      (h, complete now s, lookup-insert_same id (complete now s) ss, refl)

  finalize_upload-registered :
      (s : BackupSession) (ss : Sessions) (fs fs' : Files) (t : Option T.State)
      → lookup id ss ≡ some s
      → same_direction s.direction upload ≡ true
      → (s.temp_path == "") ≡ false
      → move_file s fs ≡ some fs'
      → finalize_upload paths T id now ss fs t ≡ finish_upload paths T id now s (some fs') ss fs t
  unfolding finalize_upload finalize_found
  finalize_upload-registered s ss fs fs' t e u n m = rw (e, u, n, m) refl

  finish_transfer-Stored :
      (sid : String) (s : BackupSession) (content : Text) (st : Transfer T.State)
      → same_direction s.direction upload ≡ true
      → (s.temp_path == "") ≡ false
      → lookup s.temp_path st.files.contents ≡ some content
      → st.files.rename_works ≡ true
      → Stored s.final_path content
          (finish_transfer paths T now sid id (none, insert id s st.sessions) st)
  unfolding finish_transfer finish_upload
  finish_transfer-Stored sid s content st u n c w =
      let (fs', moved, there) = move_file-done s st.files content c w in
      subst (λ r. Stored s.final_path content (close_upload paths T sid r st))
        (sym (
          finalize_upload-registered s (insert id s st.sessions) st.files fs' st.versions
            (lookup-insert_same id s st.sessions) u n moved))
        (close_upload-Stored sid s.final_path content (add_version paths T s st.versions).0 s
          (insert id s st.sessions) fs' (add_version paths T s st.versions).1 st there)

module _ (paths : Paths) (T : Table BackupVersion key fill) (now : ℕ)
    (device id token temp final : String) where
  pub handle_file_done-Stored :
      (st : Transfer T.State) (content : Text)
      → Receiving device id token temp final st content
      → (temp == "") ≡ false
      → st.files.rename_works ≡ true
      → Stored paths T now id final content (
          handle_file_done paths T now (transfer_message device id token msg_file_done 0 none 0) st)
  unfolding handle_file_done done_for
  handle_file_done-Stored st content r n w =
      let msg = transfer_message device id token msg_file_done 0 none 0 in
      let s = r.session in
      let stored : Stored paths T now id s.final_path content
          (finish_transfer paths T now id id (none, insert id (complete now s) st.sessions) st) =
        finish_transfer-Stored paths T now id id (complete now s) content st r.uploads
          (ap (λ p. p == "") r.own_temp ∙ n)
          (ap (λ p. lookup p st.files.contents) r.own_temp ∙ r.content_of) w in
      let marked : mark_completed s.id now st.sessions
          ≡ (none, insert id (complete now s) st.sessions) =
        ap (λ i. mark_completed i now st.sessions) r.own_id
        ∙ mark_completed-registered id now st.sessions s r.registered in
      let finished : finish_transfer paths T now id s.id (mark_completed s.id now st.sessions) st
          ≡ finish_transfer paths T now id id (none, insert id (complete now s) st.sessions) st =
        ap (λ i. finish_transfer paths T now id i (mark_completed s.id now st.sessions) st) r.own_id
        ∙ ap (λ m. finish_transfer paths T now id id m st) marked in
      subst (λ o. Stored paths T now id final content (done_for paths T now id o st))
        (sym (accepted-Receiving device id token temp final st content r msg refl refl refl))
        (subst (λ x. Stored paths T now id final content x) (sym finished)
          (subst
            (λ f.
              Stored paths T now id f content (
                finish_transfer paths T now id id (none, insert id (complete now s) st.sessions)
                  st))
            r.own_final stored))

-- ===== src/Backend/Transfer/Roundtrip.antt =====
-- An upload from the client's loop to the stored file.
use mathlib.Core.Path.{subst}
use mathlib.Core.List.{append-nil, append_assoc}
use sagiri_guard.Base.{
  ℕ, ◌+◌, ◌^◌, ◌<◌, ◌≡◌, refl, sym, ap, ◌∙◌, Bool, true, false, List, [], ◌∷◌, ◌++◌, none, some,
  String, ◌==◌, if◌then◌else◌, nat_eq, is_some, length, arith, eq_iff, length-append, Bool-cases,
  inl, inr,
}
use sagiri_guard.Base.Text.{Text}
use sagiri_guard.Base.Table.{Table}
use sagiri_guard.Base.Map.{lookup, insert, lookup-insert_same}
use sagiri_guard.Network.{msg_file_chunk, msg_file_done}
use sagiri_guard.Backend.Files.{Files, write_at}
use sagiri_guard.Backend.Files.Writes.{write_at-append, write_at_whole}
use sagiri_guard.Backend.Backup.{BackupError, Paths}
use sagiri_guard.Backend.Backup.Versions.{BackupVersion, key, fill}
use sagiri_guard.Base.Strings.{append}
use Prim.Native.String.{len}
use sagiri_guard.Base.Results.{Result, ok, err}
use sagiri_guard.Backend.Backup.{
  Fresh, UploadRequest, temp_of_upload, final_of_upload, new_upload, part_suffix, open_temp,
  create_failed, to_response, prepare_upload, prepare_sized, add_upload,
}
use text.Mathlib.TextPositions.{len-append}
use sagiri_guard.Backend.Files.{stat, create, absent}
use sagiri_guard.Backend.Transfer.Finish.{Stored, handle_file_done-Stored}
use sagiri_guard.Backend.Transfer.{
  is_authorized, handle_backup_init_upload, track_upload, Transfer, handle_file_chunk,
  handle_file_done,
}
use sagiri_guard.Backend.Transfer.Client.{
  upload_loop, delivered_by, Laid, upload_loop-Ends, upload_loop-ends,
}
use sagiri_guard.Backend.Transfer.Receive.{
  Receiving, transfer_message, received, received-Receiving, handle_file_chunk-received,
}

module _ {V : Type 0} (now : ℕ) (device id token temp final : String) where
  -- the chunks handled one after another
  abbrev pub deliver : List (ℕ × Text) → Transfer V → Transfer V
  deliver [] st = st
  deliver ((o, chunk) ∷ cs) st = deliver cs (
      handle_file_chunk now
        (transfer_message device id token msg_file_chunk o (some chunk) (length chunk)) st)

  deliver-Receiving :
      (before rest old : Text) (cs : List (ℕ × Text)) (st : Transfer V)
      → Laid (length before) rest cs
      → Receiving device id token temp final st (write_at 0 before old)
      → Receiving device id token temp final (deliver cs st) (write_at 0 (before ++ rest) old)
  deliver-Receiving before rest old [] st l r =
      subst (λ t. Receiving device id token temp final st (write_at 0 t old))
        (sym (ap (λ t. before ++ t) l ∙ append-nil before)) r
  deliver-Receiving before rest old ((o, chunk) ∷ cs) st (at, n, rest', split, l) r =
      let step =
        handle_file_chunk-received device id token temp final now msg_file_chunk o chunk st
          (write_at 0 before old) r n in
      let r' =
        received-Receiving device id token temp final now o chunk st (write_at 0 before old) r in
      let content : write_at o chunk (write_at 0 before old) ≡ write_at 0 (before ++ chunk) old =
        ap (λ k. write_at k chunk (write_at 0 before old)) at ∙ write_at-append before chunk old in
      subst
        (λ t.
          Receiving device id token temp final
            (deliver cs (
              handle_file_chunk now
                (transfer_message device id token msg_file_chunk o (some chunk) (length chunk)) st))
            (write_at 0 t old))
        (append_assoc before chunk rest' ∙ ap (λ t. before ++ t) (sym split))
        (deliver-Receiving (before ++ chunk) rest' old cs _
          (subst (λ k. Laid k rest' cs) (sym (length-append before chunk)) l)
          (subst (λ s. Receiving device id token temp final s (write_at 0 (before ++ chunk) old))
            (sym step)
            (subst
              (λ t.
                Receiving device id token temp final
                  (received device id token temp final now o chunk st (write_at 0 before old) r) t)
              content r')))

module _ (paths : Paths) (fresh : Fresh) where
  -- A device may start an upload of a file of some size: it is authorized, the names in its request
  -- are there, and the storage folder takes a new temporary file.
  pub record CanUpload {V : Type 0} (device : String) (req : UploadRequest) (st : Transfer V)
      : Type 0 where
    pub authorized : is_authorized device st ≡ true
    pub enabled : st.enabled ≡ true
    pub device_named : (device == "") ≡ false
    pub file_named : (req.file_name == "") ≡ false
    pub size : ℕ
    pub sized : req.file_size ≡ some size
    pub positive : nat_eq size 0 ≡ false
    pub id_named : (fresh.session_id == "") ≡ false
    pub token_named : (fresh.token == "") ≡ false
    pub mkdir : st.files.mkdir_works ≡ true
    pub stats : st.files.stat_works ≡ true
    pub creates : st.files.create_works ≡ true
    pub opens : st.files.open_works ≡ true
    pub renames : st.files.rename_works ≡ true
    pub unlimited : st.files.quota ≡ none
    pub new_temp : lookup (temp_of_upload paths fresh device req) st.files.contents ≡ none

  -- the state after the temporary file and the session were made
  abbrev opened : {V : Type 0} → String → UploadRequest → ℕ → Transfer V → Transfer V
  opened device req size st =
      let s = new_upload paths fresh device req size 0 in
      record st {
        sessions = insert s.id s st.sessions;
        files = record st.files { contents = insert s.temp_path [] st.files.contents };
        active_upload = insert s.id (record { id = s.id; token = s.token }) st.active_upload;
      }

  append-part-named : (p : String) → (append p part_suffix == "") ≡ false
  append-part-named p = elim (Bool-cases (append p part_suffix == "")) [
    | inl e ↦
        let total : len p + 5 ≡ 0 =
          sym (len-append p part_suffix) ∙ ap len ((eq_iff (append p part_suffix) "").0 e) in
        ground (arith, total)
    | inr e ↦ e
  ]

  open_temp-new :
      (p : String) (fs : Files)
      → fs.stat_works ≡ true
      → fs.create_works ≡ true
      → lookup p fs.contents ≡ none
      → open_temp p (stat p fs) fs ≡ ok (0, record fs { contents = insert p [] fs.contents })
  unfolding open_temp stat create
  open_temp-new p fs s c e =
      let there : stat p fs ≡ absent = rw (s, e) refl in
      let made : create p fs ≡ some (record fs { contents = insert p [] fs.contents }) =
        ap (λ b. if b then some (record fs { contents = insert p [] fs.contents }) else none) c in
      ap (λ t. open_temp p t fs) there
      ∙ ap
          (λ o. elim o as (λ _. Result BackupError (ℕ × Files)) [
            | none ↦ err create_failed
            | some fs' ↦ ok (0, fs')
          ])
          made

  handle_backup_init_upload-opened :
      {V : Type 0} (device : String) (req : UploadRequest) (st : Transfer V)
      (c : CanUpload device req st)
      → handle_backup_init_upload paths fresh device (some req) st ≡ (
        ok (some (to_response (new_upload paths fresh device req c.size 0))),
        opened device req c.size st,
      )
  unfolding handle_backup_init_upload prepare_upload prepare_sized add_upload track_upload
  handle_backup_init_upload-opened device req st c =
      let temp = temp_of_upload paths fresh device req in
      rw (c.authorized, c.device_named, c.file_named)
        (simp
          (
            c.sized,
            c.positive,
            c.enabled,
            c.mkdir,
            open_temp-new temp st.files c.stats c.creates c.new_temp,
          )
          refl)

  opened-Receiving :
      {V : Type 0} (device : String) (req : UploadRequest) (st : Transfer V)
      (c : CanUpload device req st)
      → Receiving device fresh.session_id fresh.token
          (temp_of_upload paths fresh device req)
          (final_of_upload paths fresh device req)
          (opened device req c.size st)
          (write_at 0 [] [])
  unfolding is_authorized write_at
  opened-Receiving device req st c =
      let s = new_upload paths fresh device req c.size 0 in
      record {
        authorized = c.authorized;
        enabled = c.enabled;
        id_named = c.id_named;
        token_named = c.token_named;
        tracked = lookup-insert_same s.id (record { id = s.id; token = s.token }) st.active_upload;
        session = s;
        registered = lookup-insert_same s.id s st.sessions;
        own_id = refl;
        own_token = refl;
        uploads = refl;
        own_temp = refl;
        own_final = refl;
        opens = c.opens;
        renames = c.renames;
        temp_named = append-part-named (final_of_upload paths fresh device req);
        unlimited = c.unlimited;
        content_of = lookup-insert_same s.temp_path [] st.files.contents;
      }

module _ (paths : Paths) (fresh : Fresh) (T : Table BackupVersion key fill) (now : ℕ) where
  -- one upload: the request, the chunks that the client's loop sends, and the end of the file
  abbrev pub transfer :
      String → UploadRequest → List (ℕ × Text) → Transfer T.State → Transfer T.State
  transfer device req cs st =
      let temp = temp_of_upload paths fresh device req in
      let final = final_of_upload paths fresh device req in
      handle_file_done paths T now
        (transfer_message device fresh.session_id fresh.token msg_file_done 0 none 0)
        (deliver now device fresh.session_id fresh.token temp final cs
          (handle_backup_init_upload paths fresh device (some req) st).1)

  -- An upload that a device may start ends with the file's bytes, and no others, at the final path
  -- and with a completed session, for any buffer that is not empty and on fuel above the file's
  -- length, if the file is shorter than 2^32 bytes and of any two attempts to send in a row at
  -- least one succeeds.
  pub upload_roundtrip :
      (device : String) (req : UploadRequest) (st : Transfer T.State) (size fuel : ℕ)
      (sends : ℕ → Bool) (bytes : Text)
      → CanUpload paths fresh device req st
      → 0 < size
      → length bytes < 2 ^ 32
      → length bytes < fuel
      → ((j : ℕ) → is_some (delivered_by sends j) ≡ true)
      → Stored paths T now fresh.session_id
          (final_of_upload paths fresh device req)
          bytes
          (transfer device req (upload_loop fuel size sends 0 0 bytes).0 st)
  upload_roundtrip device req st size fuel sends bytes c h b f d =
      let temp = temp_of_upload paths fresh device req in
      let final = final_of_upload paths fresh device req in
      let cs = (upload_loop fuel size sends 0 0 bytes).0 in
      let laid =
        upload_loop-Ends fuel size sends 0 0 bytes h (omega (arith, b))
          (upload_loop-ends fuel size sends 0 0 bytes h f d) in
      let r =
        deliver-Receiving now device fresh.session_id fresh.token temp final [] bytes [] cs
          (opened paths fresh device req c.size st) laid
          (opened-Receiving paths fresh device req st c) in
      subst
        (λ s. Stored paths T now fresh.session_id final bytes (
          handle_file_done paths T now
            (transfer_message device fresh.session_id fresh.token msg_file_done 0 none 0)
            (deliver now device fresh.session_id fresh.token temp final cs s.1)))
        (sym (handle_backup_init_upload-opened paths fresh device req st c))
        (subst
          (λ t. Stored paths T now fresh.session_id final t (
            handle_file_done paths T now
              (transfer_message device fresh.session_id fresh.token msg_file_done 0 none 0)
              (deliver now device fresh.session_id fresh.token temp final cs
                (opened paths fresh device req c.size st))))
          (write_at_whole bytes)
          (handle_file_done-Stored paths T now device fresh.session_id fresh.token temp final _ _ r
            r.temp_named r.renames))

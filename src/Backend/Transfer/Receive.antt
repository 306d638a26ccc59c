-- ===== src/Backend/Transfer/Receive.antt =====
-- What a controller that receives an upload holds, and what one chunk does to it.
use sagiri_guard.Base.{
  ℕ, ◌≡◌, refl, ap, ◌∙◌, true, false, [], ◌∷◌, Option, none, some, String, ◌==◌, if◌then◌else◌,
  nat_eq, is_nil, length, take, leb, arith, eq_refl,
}
use sagiri_guard.Base.Text.{Text}
use sagiri_guard.Base.Map.{lookup, insert, lookup-insert_same}
use sagiri_guard.Network.{ProtocolMessage}
use sagiri_guard.Backend.Files.{
  Files, done, open_failed, write_failed, open_write, store_at, write_at,
}
use sagiri_guard.Backend.Backup.{BackupSession, Sessions, same_direction, upload}
use sagiri_guard.Backend.Backup.Sessions.{advance, advance_found, advanced}
use sagiri_guard.Backend.Backup.Laws.{validate_session-ok}
use sagiri_guard.Backend.Transfer.{
  Transfer, is_authorized, accepted, with_ctx, validated, write_chunk, after_write,
  handle_file_chunk,
}

open_write-opens :
    (p : String) (offset : ℕ) (bytes content : Text) (fs : Files)
    → fs.open_works ≡ true
    → fs.quota ≡ none
    → open_write p offset bytes (some content) fs
      ≡ (done, record fs { contents = insert p (write_at offset bytes content) fs.contents })
unfolding open_write store_at
open_write-opens p offset bytes content fs o q =
    let stored : Text → Files =
      λ b. record fs { contents = insert p (write_at offset b content) fs.contents } in
    ap (λ b. if b then store_at p offset bytes content fs else (open_failed, fs)) o
    ∙ ap
        (λ o. elim o [
          | none ↦ (done, stored bytes)
          | some n ↦
              if leb (length bytes) n
              then (done, stored bytes)
              else (write_failed, stored (take n bytes))
        ])
        q

advance_found-registered :
    (id : String) (len now : ℕ) (ss : Sessions) (s : BackupSession)
    → lookup id ss ≡ some s
    → (advance id len now ss).1 ≡ insert id (advanced len now s) ss
unfolding advance advance_found
advance_found-registered id len now ss s e = rw e refl

length-nonzero : (bytes : Text) → is_nil bytes ≡ false → nat_eq (length bytes) 0 ≡ false
length-nonzero [] h = ground arith
length-nonzero (x ∷ bytes) h = ground arith

module _ (device id token : String) where
  -- a message of the upload
  abbrev pub transfer_message : ℕ → ℕ → Option Text → ℕ → ProtocolMessage
  transfer_message type offset bytes len = record {
    type = type;
    raw = [];
    device_id = device;
    token = token;
    session_id = id;
    command_json = [];
    file_name = "";
    file_size = 0;
    chunk_offset = offset;
    chunk_len = len;
    chunk_data = bytes;
    status_code = 0;
    status_msg = [];
  }

module _ {V : Type 0} (device id token temp final : String) where
  -- An authorized device has an upload open, and its temporary file has the given content.
  pub record Receiving (st : Transfer V) (content : Text) : Type 0 where
    pub authorized : is_authorized device st ≡ true
    pub enabled : st.enabled ≡ true
    pub id_named : (id == "") ≡ false
    pub token_named : (token == "") ≡ false
    pub tracked : lookup id st.active_upload ≡ some (record { id = id; token = token })
    pub session : BackupSession
    pub registered : lookup id st.sessions ≡ some session
    pub own_id : session.id ≡ id
    pub own_token : session.token ≡ token
    pub uploads : same_direction session.direction upload ≡ true
    pub own_temp : session.temp_path ≡ temp
    pub own_final : session.final_path ≡ final
    pub opens : st.files.open_works ≡ true
    pub renames : st.files.rename_works ≡ true
    pub temp_named : (temp == "") ≡ false
    pub unlimited : st.files.quota ≡ none
    pub content_of : lookup temp st.files.contents ≡ some content

  pub accepted-Receiving :
      (st : Transfer V) (content : Text) (r : Receiving st content) (msg : ProtocolMessage)
      → msg.device_id ≡ device
      → msg.session_id ≡ id
      → msg.token ≡ token
      → accepted msg st ≡ some (record { id = id; token = token }, r.session)
  unfolding accepted with_ctx validated
  accepted-Receiving st content r msg d i t =
      let valid =
        (validate_session-ok id token upload st.sessions r.session).1
          (r.registered, r.own_token, r.uploads) in
      rw (d, i, t, r.authorized, r.enabled, r.id_named, r.token_named, r.tracked)
        (rw (eq_refl token, valid) refl)

  -- the state after a chunk
  abbrev pub received :
      ℕ → ℕ → Text → (st : Transfer V) → (content : Text) → Receiving st content → Transfer V
  received now offset bytes st content r = record st {
    files = record st.files {
      contents = insert temp (write_at offset bytes content) st.files.contents;
    };
    sessions = insert id (advanced (length bytes) now r.session) st.sessions;
  }

  pub handle_file_chunk-received :
      (now type offset : ℕ) (bytes : Text) (st : Transfer V) (content : Text)
      (r : Receiving st content)
      → is_nil bytes ≡ false
      → handle_file_chunk now
          (transfer_message device id token type offset (some bytes) (length bytes))
          st
        ≡ received now offset bytes st content r
  unfolding handle_file_chunk write_chunk after_write
  handle_file_chunk-received now type offset bytes st content r h =
      let msg = transfer_message device id token type offset (some bytes) (length bytes) in
      rw (accepted-Receiving st content r msg refl refl refl) (
        simp (
          length-nonzero bytes h,
          r.own_temp,
          r.content_of,
          open_write-opens temp offset bytes content st.files r.opens r.unlimited,
          advance_found-registered id (length bytes) now st.sessions r.session r.registered,
        ))

  -- A chunk is written at its offset, and the upload stays open.
  pub received-Receiving :
      (now offset : ℕ) (bytes : Text) (st : Transfer V) (content : Text) (r : Receiving st content)
      → Receiving (received now offset bytes st content r) (write_at offset bytes content)
  unfolding is_authorized
  received-Receiving now offset bytes st content r = record {
    authorized = r.authorized;
    enabled = r.enabled;
    id_named = r.id_named;
    token_named = r.token_named;
    tracked = r.tracked;
    session = advanced (length bytes) now r.session;
    registered = lookup-insert_same id (advanced (length bytes) now r.session) st.sessions;
    own_id = r.own_id;
    own_token = r.own_token;
    uploads = r.uploads;
    own_temp = r.own_temp;
    own_final = r.own_final;
    opens = r.opens;
    renames = r.renames;
    temp_named = r.temp_named;
    unlimited = r.unlimited;
    content_of = lookup-insert_same temp (write_at offset bytes content) st.files.contents;
  }

-- ===== src/Backend/Transfer/Refused.antt =====
-- Messages of an upload that the controller does not take.
use sagiri_guard.Base.{
  ◌≡◌, refl, ap, ◌∙◌, ℕ, Bool, true, false, not, ◌||◌, Option, none, some, String, ◌==◌,
  if◌then◌else◌, ◌⊎◌, inl, inr,
}
use sagiri_guard.Base.Map.{lookup}
use sagiri_guard.Base.Table.{Table}
use sagiri_guard.Network.{ProtocolMessage}
use sagiri_guard.Backend.Backup.{Paths, BackupSession}
use sagiri_guard.Backend.Backup.Versions.{BackupVersion, key, fill}
use sagiri_guard.Backend.Transfer.{
  Transfer, SessionCtx, is_authorized, accepted, with_ctx, write_chunk, handle_file_chunk, done_for,
  handle_file_done,
}

-- The device of the message is not authorized, or the upload has another token.
abbrev pub IsForeign : {V : Type 0} → ProtocolMessage → Transfer V → Type 0
IsForeign msg st =
    (is_authorized msg.device_id st ≡ false)
    ⊎ ((c : SessionCtx) × (lookup msg.session_id st.active_upload ≡ some c)
        × ((c.token == msg.token) ≡ false))

stays_none :
    (b : Bool) (o : Option (SessionCtx × BackupSession)) → o ≡ none → (if b then none else o) ≡ none
stays_none true o h = refl
stays_none false o h = h

module _ {V : Type 0} where
  with_ctx-foreign :
      (token : String) (c : SessionCtx) (st : Transfer V)
      → (c.token == token) ≡ false
      → with_ctx token (some c) st ≡ none
  unfolding with_ctx
  with_ctx-foreign token c st h = rw h refl

  accepted-foreign :
      (msg : ProtocolMessage) (st : Transfer V) → IsForeign msg st → accepted msg st ≡ none
  unfolding accepted
  accepted-foreign msg st (inl h) = rw h refl
  accepted-foreign msg st (inr (c, e, h)) = stays_none (not (is_authorized msg.device_id st)) _ (
      stays_none (not st.enabled) _ (
        stays_none (msg.session_id == "" || msg.token == "") _
          (ap (λ o. with_ctx msg.token o st) e ∙ with_ctx-foreign msg.token c st h)))

module _ (paths : Paths) (T : Table BackupVersion key fill) where
  -- A chunk or an end of file from a device that is not authorized, or with another token than the
  -- upload has, changes nothing: neither the files nor the sessions nor the stored versions.
  pub foreign_message_ignored :
      (now : ℕ) (msg : ProtocolMessage) (st : Transfer T.State)
      → IsForeign msg st
      → (handle_file_chunk now msg st ≡ st) × (handle_file_done paths T now msg st ≡ st)
  unfolding handle_file_chunk write_chunk handle_file_done done_for
  foreign_message_ignored now msg st f = (
    ap (λ o. write_chunk now o msg.chunk_offset msg.chunk_len msg.chunk_data st)
        (accepted-foreign msg st f),
    ap (λ o. done_for paths T now msg.session_id o st) (accepted-foreign msg st f),
  )

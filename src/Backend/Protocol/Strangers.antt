-- ===== src/Backend/Protocol/Strangers.antt =====
-- The frames of a device that is not authorized, through `HandleMessage`.
use sagiri_guard.Base.{
  ℕ, ◌≡◌, refl, Bool, true, false, Option, none, some, String, if◌then◌else◌, nat_eq, is_nil, inl,
}
use sagiri_guard.Base.Text.{Text}
use sagiri_guard.Base.Table.{Table}
use sagiri_guard.Network.{ProtocolMessage, msg_login, msg_command, msg_file_chunk, msg_file_done}
use sagiri_guard.Backend.Backup.{Paths}
use sagiri_guard.Backend.Backup.Versions.{BackupVersion, key, fill}
use sagiri_guard.Backend.Transfer.{is_authorized}
use sagiri_guard.Backend.Transfer.Refused.{foreign_message_ignored}
use sagiri_guard.Backend.Protocol.{
  Controller, Envelope, Phrases, Handlers, is_open, run_envelope, handle_sub_command,
  handle_message,
}

-- At most acknowledgements were added.
abbrev pub OnlyAcks : {V : Type 0} → Controller V → Controller V → Type 0
OnlyAcks c d = (d.transfer ≡ c.transfer) × (d.hub ≡ c.hub) × (d.retries ≡ c.retries)

OnlyAcks-if :
    {V : Type 0} (c : Controller V) (b : Bool) (x y : Controller V)
    → OnlyAcks c x
    → OnlyAcks c y
    → OnlyAcks c (if b then x else y)
OnlyAcks-if c true x y p q = p
OnlyAcks-if c false x y p q = q

module _ {V : Type 0} (say : Phrases) (client : Option ℕ) (h : Handlers V) where
  run_envelope-OnlyAcks :
      (device : String) (o : Option Envelope) (c : Controller V)
      → is_authorized device c.transfer ≡ false
      → ((env : Envelope) → o ≡ some env → is_open env.action ≡ false)
      → OnlyAcks c (run_envelope say client h device o c)
  unfolding run_envelope
  run_envelope-OnlyAcks device none c u f = (refl, refl, refl)
  run_envelope-OnlyAcks device (some env) c u f = rw (f env refl, u) (refl, refl, refl)

module _ (paths : Paths) (T : Table BackupVersion key fill) (say : Phrases) where
  -- A frame that is not a login, and not a sub-command that works without one, from a device that
  -- is not authorized changes neither the transfers, with their files, sessions, tokens and stored
  -- versions, nor the hub, and starts no retry.
  pub stranger_changes_nothing :
      (signer : Option (String → Option String)) (parse : Text → Option Envelope)
      (h : Handlers T.State) (now : ℕ) (client : Option ℕ) (msg : ProtocolMessage)
      (c : Controller T.State)
      → nat_eq msg.type msg_login ≡ false
      → is_authorized msg.device_id c.transfer ≡ false
      → ((env : Envelope) → parse msg.command_json ≡ some env → is_open env.action ≡ false)
      → OnlyAcks c (handle_message paths T say signer parse h now client msg c)
  unfolding handle_message handle_sub_command
  stranger_changes_nothing signer parse h now client msg c l u f =
      let ignored = foreign_message_ignored paths T now msg c.transfer (inl u) in
      rw l (
        OnlyAcks-if c (nat_eq msg.type msg_command) _ _
          (OnlyAcks-if c (is_nil msg.command_json) _ _ (refl, refl, refl)
            (run_envelope-OnlyAcks say client h msg.device_id (parse msg.command_json) c u f))
          (OnlyAcks-if c (nat_eq msg.type msg_file_chunk) _ _ (ignored.0, refl, refl)
            (OnlyAcks-if c (nat_eq msg.type msg_file_done) _ _ (ignored.1, refl, refl)
              (refl, refl, refl))))

-- ===== src/Backend/Tests/Messages.antt =====
-- Small runs of the message handlers.
use sagiri_guard.Base.{
  if◌then◌else◌, Option, String, ◌⊎◌, ℕ, ◌≡◌, refl, true, false, not, ◌&&◌, List, [], ◌∷◌, none,
  some, ◌==◌, inl, arith, is_some, Bool, ap, sym,
}
use sagiri_guard.Base.Text.{lit}
use sagiri_guard.Base.Map.{lookup}
use sagiri_guard.Base.Results.{ok}
use sagiri_guard.Network.{ProtocolMessage, msg_file_chunk}
use sagiri_guard.Backend.Backup.Versions.{BackupVersion}
use sagiri_guard.Backend.Transfer.{Transfer, is_authorized, handle_file_chunk, handle_file_done}
use sagiri_guard.Backend.Transfer.Client.{upload_loop, delivered_by}
use sagiri_guard.Backend.Transfer.Finish.{Stored}
use sagiri_guard.Backend.Transfer.Receive.{transfer_message}
use sagiri_guard.Backend.Transfer.Refused.{foreign_message_ignored, IsForeign}
use sagiri_guard.Backend.Transfer.Roundtrip.{CanUpload, transfer, upload_roundtrip}
use sagiri_guard.Backend.Protocol.{
  Controller, Envelope, Phrases, Handlers, Acts, Answers, handle_login_frame, handle_disconnect,
  is_open, handle_message,
}
use sagiri_guard.Backend.Protocol.Strangers.{OnlyAcks, stranger_changes_nothing}
use sagiri_guard.Backend.Protocol.Access.{login_authorizes, disconnect_revokes, Refused}
use sagiri_guard.Backend.Tests.{paths, fresh, a_request, storage, versions}

abbrev controller : Transfer (List BackupVersion)
controller = record {
  device_tokens = ("pc", "tok") ∷ [];
  active_upload = [];
  enabled = true;
  sessions = [];
  files = storage;
  versions = some [];
}

upload_allowed : CanUpload paths fresh "pc" a_request controller
unfolding is_authorized lookup
upload_allowed = record {
  authorized = refl;
  enabled = refl;
  device_named = refl;
  file_named = refl;
  size = 3;
  sized = refl;
  positive = refl;
  id_named = refl;
  token_named = refl;
  mkdir = refl;
  stats = refl;
  creates = refl;
  opens = refl;
  renames = refl;
  unlimited = refl;
  new_temp = refl;
}

each_sends : (j : ℕ) → is_some (delivered_by (λ k. true) j) ≡ true
unfolding delivered_by
each_sends j = refl

upload_roundtrip_example : Stored paths versions 6 "up-1" "a.txt" (lit "abc") (
    transfer paths fresh versions 6 "pc" a_request
      (upload_loop 4 2 (λ k. true) 0 0 (lit "abc")).0
      controller)
upload_roundtrip_example =
    upload_roundtrip paths fresh versions 6 "pc" a_request controller 2 4 (λ k. true) (lit "abc")
      upload_allowed (omega arith) (omega arith) (omega arith) each_sends

abbrev stray : ProtocolMessage
stray = transfer_message "mac" "up-1" "secret" msg_file_chunk 0 (some (lit "x")) 1

stray_device : IsForeign stray controller
unfolding is_authorized lookup
stray_device = inl refl

foreign_message_ignored_example :
    (handle_file_chunk 6 stray controller ≡ controller)
    × (handle_file_done paths versions 6 stray controller ≡ controller)
foreign_message_ignored_example =
    foreign_message_ignored paths versions 6 stray controller stray_device

abbrev phrases : Phrases
phrases = record {
  empty_command = lit "empty command payload";
  invalid_json = lit "invalid command json";
  unauthorized = lit "unauthorized";
  pong = lit "pong";
  unknown_action = lit "unknown action";
  too_large = lit "response too large";
  device_registered = lit "device registered";
  filetree_synced = lit "filetree synced";
  log_stored = lit "log stored";
}

abbrev does_nothing : Acts (List BackupVersion)
does_nothing device payload c = (none, c)

abbrev says_nothing : Answers (List BackupVersion)
says_nothing device payload c = (ok none, c)

abbrev handlers : Handlers (List BackupVersion)
handlers = record {
  login = says_nothing;
  device_register = does_nothing;
  filetree_sync = does_nothing;
  agent_log = does_nothing;
  backup_init_upload = says_nothing;
  backup_init_download = says_nothing;
  backup_download_start = does_nothing;
  admin_send_command = says_nothing;
  admin_list_devices = says_nothing;
  admin_list_online = says_nothing;
  admin_list_tree = says_nothing;
}

abbrev protocol : Controller (List BackupVersion)
protocol = record { transfer = controller; hub = []; retries = []; acks = [] }

abbrev log_lines : Envelope
log_lines = record { action = "agent_log"; payload = lit "x" }

abbrev log_message : ProtocolMessage
log_message = record stray { command_json = lit "{}" }

not_authorized : is_authorized "mac" controller ≡ false
unfolding is_authorized lookup
not_authorized = refl

-- a signer that reads the claims of one token, for another device
abbrev signer : Option (String → Option String)
signer = some (λ t. if t == "a.b.c" then some "tablet" else none)

login_authorizes_example :
    let c' = handle_login_frame signer (some 7) "mac" "a.b.c" protocol in
    (lookup "mac" c'.hub ≡ some (some 7))
    × ((other : String)
        → ("mac" == other) ≡ false
        → is_authorized other c'.transfer ≡ is_authorized other controller)
    × ((("a.b.c" == "") ≡ true) ⊎ Refused signer "a.b.c" "mac"
        → is_authorized "mac" c'.transfer ≡ is_authorized "mac" controller)
    × (("a.b.c" == "") ≡ false
        → (Refused signer "a.b.c" "mac" → ⊥)
        → is_authorized "mac" c'.transfer ≡ true)
login_authorizes_example = login_authorizes signer (some 7) "mac" "a.b.c" protocol refl

disconnect_revokes_example :
    is_authorized "pc" (handle_disconnect (some 7) "pc" protocol).transfer
    ≡ (not ("pc" == "pc") && is_authorized "pc" controller)
disconnect_revokes_example = disconnect_revokes (some 7) "pc" "pc" protocol refl

only_log_lines : (env : Envelope) → some log_lines ≡ some env → is_open env.action ≡ false
only_log_lines env e =
    ap (λ o. elim o as (λ _. Bool) [ none ↦ false | some x ↦ is_open x.action ]) (sym e)

stranger_changes_nothing_example : OnlyAcks protocol (
    handle_message paths versions phrases none
      (λ b. some log_lines)
      handlers
      6
      (some 7)
      log_message
      protocol)
stranger_changes_nothing_example =
    stranger_changes_nothing paths versions phrases none (λ b. some log_lines) handlers 6 (some 7)
      log_message protocol refl not_authorized only_log_lines

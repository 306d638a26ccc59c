-- ===== src/Backend/Protocol.antt =====
-- backend/app/controllers/protocol_router.go and protocol_controller.go: what a frame does to the
-- controller. A frame of a connection is handled to its end. The controller's part in transfers is
-- Backend/Transfer.antt's; the goroutine that retries a device's queue after a login is
-- Backend/Queue.antt's, and `retries` records that it was started. The handlers behind the other
-- sub-commands are an argument, `Handlers`.
pub mod Access
pub mod Strangers
use sagiri_guard.Base.Strings.{dots}
use sagiri_guard.Base.{
  ℕ, suc, ◌≡◌, Bool, true, false, not, ◌&&◌, ◌||◌, List, [], ◌∷◌, ◌++◌, Option, none, some, String,
  ◌==◌, if◌then◌else◌, nat_eq, ltb, leb, is_nil, length,
}
use sagiri_guard.Base.Text.{Text}
use sagiri_guard.Base.Map.{Map, lookup, insert, delete}
use sagiri_guard.Base.Results.{Result, ok, err}
use sagiri_guard.Base.Table.{Table}
use sagiri_guard.Network.{ProtocolMessage, msg_login, msg_command, msg_file_chunk, msg_file_done}
use sagiri_guard.Backend.Backup.{Paths}
use sagiri_guard.Backend.Backup.Versions.{BackupVersion, key, fill}
use sagiri_guard.Backend.Hub.{Hub, register, unregister}
use sagiri_guard.Backend.Transfer.{Transfer, is_authorized, handle_file_chunk, handle_file_done}

-- An acknowledgement that was sent: the client's connection, the code and the message.
pub record Ack : Type 0 where
  pub client : Option ℕ
  pub code : ℕ
  pub body : Text

-- The state of `ProtocolController`.
pub record Controller (V : Type 0) : Type 0 where
  pub transfer : Transfer V
  pub hub : Hub
  pub retries : List String
  pub acks : List Ack

-- `ProtocolSubCommandEnvelope`
pub record Envelope : Type 0 where
  pub action : String
  pub payload : Text

-- The texts that the source spells out.
pub record Phrases : Type 0 where
  pub empty_command : Text
  pub invalid_json : Text
  pub unauthorized : Text
  pub pong : Text
  pub unknown_action : Text
  pub too_large : Text
  pub device_registered : Text
  pub filetree_synced : Text
  pub log_stored : Text

-- a handler that answers with an error or nothing, and one that answers with an error or a value;
-- a nil value is `none` and one that does not marshal is `some (err e)`
abbrev pub Acts : Type 0 → Type 0
Acts V = String → Text → Controller V → Option Text × Controller V

abbrev pub Answers : Type 0 → Type 0
Answers V = String → Text → Controller V → Result Text (Option (Result Text Text)) × Controller V

pub record Handlers (V : Type 0) : Type 0 where
  pub login : Answers V
  pub device_register : Acts V
  pub filetree_sync : Acts V
  pub agent_log : Acts V
  pub backup_init_upload : Answers V
  pub backup_init_download : Answers V
  pub backup_download_start : Acts V
  pub admin_send_command : Answers V
  pub admin_list_devices : Answers V
  pub admin_list_online : Answers V
  pub admin_list_tree : Answers V

-- `looksLikeJWT`
unfoldable pub looks_like_jwt : String → Bool
unfolding dots
looks_like_jwt token = if token == "" then false else leb 2 (dots token)

-- the claims' device fits the frame's, when the token parses
abbrev pub claims_fit : Option String → String → Bool
claims_fit none device = false
claims_fit (some claimed) device = not (not (claimed == "") && not (claimed == device))

-- whether a login frame's token authorizes its device; a signer's parser gives the claims' device
unfoldable pub accepts_token : Option (String → Option String) → String → String → Bool
unfolding looks_like_jwt
accepts_token none token device = true
accepts_token (some parse) token device =
    if looks_like_jwt token then claims_fit (parse token) device else true

module _ {V : Type 0} where
  -- the write to the cache of tokens
  abbrev pub with_token : String → String → Controller V → Controller V
  with_token device token c = record c {
    transfer = record c.transfer { device_tokens = insert device token c.transfer.device_tokens };
  }

  -- the case of a login frame in `HandleMessage`
  unfoldable pub handle_login_frame :
      Option (String → Option String) → Option ℕ → String → String → Controller V → Controller V
  unfolding accepts_token register insert
  handle_login_frame signer client device token c =
      if device == ""
      then c
      else let d =
          if not (token == "") && accepts_token signer token device
          then with_token device token c
          else c in
        record d { hub = register device client d.hub; retries = d.retries ++ (device ∷ []) }

  -- `HandleDisconnect`
  unfoldable pub handle_disconnect : Option ℕ → String → Controller V → Controller V
  unfolding unregister delete
  handle_disconnect client device c = if device == "" then c else record c {
    hub = unregister device client c.hub;
    transfer = record c.transfer { device_tokens = delete device c.transfer.device_tokens };
  }

  -- `SendAck`
  abbrev pub send_ack : Option ℕ → ℕ → Text → Controller V → Controller V
  send_ack client code body c = record c {
    acks = c.acks ++ (record { client = client; code = code; body = body } ∷ []);
  }

-- the actions that need no token of the device
abbrev pub is_open : String → Bool
is_open a =
    a == "login"
    || a == "admin_send_command"
    || a == "admin_list_devices"
    || a == "admin_list_online"
    || a == "admin_list_tree"

module _ {V : Type 0} (say : Phrases) (client : Option ℕ) where
  -- `sendAckJSON`
  abbrev pub send_ack_json : ℕ → Option (Result Text Text) → Controller V → Controller V
  send_ack_json code none c = send_ack client code [] c
  send_ack_json code (some (err e)) c = send_ack client code e c
  send_ack_json code (some (ok bytes)) c =
      if ltb 3800 (length bytes)
      then send_ack client 413 say.too_large c
      else send_ack client code bytes c

  abbrev pub answer_value :
      ℕ → Result Text (Option (Result Text Text)) × Controller V → Controller V
  answer_value code (err e, c) = send_ack client code e c
  answer_value code (ok v, c) = send_ack_json 200 v c

  abbrev pub answer_act : Text → Option Text × Controller V → Controller V
  answer_act done (some e, c) = send_ack client 500 e c
  answer_act done (none, c) = send_ack client 200 done c

  abbrev pub answer_start : Option Text × Controller V → Controller V
  answer_start (some e, c) = send_ack client 500 e c
  answer_start (none, c) = c

  -- the switch on the action
  unfoldable pub run_action : Handlers V → String → String → Text → Controller V → Controller V
  run_action h action device payload c =
      if action == "ping"
      then send_ack client 200 say.pong c
      else if action == "login"
      then answer_value 401 (h.login device payload c)
      else if action == "device_register"
      then answer_act say.device_registered (h.device_register device payload c)
      else if action == "filetree_sync"
      then answer_act say.filetree_synced (h.filetree_sync device payload c)
      else if action == "agent_log"
      then answer_act say.log_stored (h.agent_log device payload c)
      else if action == "backup_init_upload"
      then answer_value 500 (h.backup_init_upload device payload c)
      else if action == "backup_init_download"
      then answer_value 500 (h.backup_init_download device payload c)
      else if action == "backup_download_start"
      then answer_start (h.backup_download_start device payload c)
      else if action == "admin_send_command"
      then answer_value 500 (h.admin_send_command device payload c)
      else if action == "admin_list_devices"
      then answer_value 500 (h.admin_list_devices device payload c)
      else if action == "admin_list_online"
      then answer_value 500 (h.admin_list_online device payload c)
      else if action == "admin_list_tree"
      then answer_value 500 (h.admin_list_tree device payload c)
      else send_ack client 400 say.unknown_action c

  -- a sub-command whose envelope was parsed
  unfoldable pub run_envelope : Handlers V → String → Option Envelope → Controller V → Controller V
  unfolding run_action is_authorized
  run_envelope h device none c = send_ack client 400 say.invalid_json c
  run_envelope h device (some env) c =
      if not (is_open env.action) && not (is_authorized device c.transfer)
      then send_ack client 401 say.unauthorized c
      else run_action h env.action device env.payload c

  -- `handleSubCommand`
  unfoldable pub handle_sub_command :
      (Text → Option Envelope) → Handlers V → ProtocolMessage → Controller V → Controller V
  unfolding run_envelope
  handle_sub_command parse h msg c =
      if is_nil msg.command_json
      then send_ack client 400 say.empty_command c
      else run_envelope h msg.device_id (parse msg.command_json) c

module _ (paths : Paths) (T : Table BackupVersion key fill) (say : Phrases) where
  -- `HandleMessage`, at a time
  unfoldable pub handle_message :
      Option (String → Option String)
      → (Text → Option Envelope)
      → Handlers T.State
      → ℕ
      → Option ℕ
      → ProtocolMessage
      → Controller T.State
      → Controller T.State
  unfolding handle_login_frame handle_sub_command handle_file_chunk handle_file_done
  handle_message signer parse h now client msg c =
      if nat_eq msg.type msg_login
      then handle_login_frame signer client msg.device_id msg.token c
      else if nat_eq msg.type msg_command
      then handle_sub_command say client parse h msg c
      else if nat_eq msg.type msg_file_chunk
      then record c { transfer = handle_file_chunk now msg c.transfer }
      else if nat_eq msg.type msg_file_done
      then record c { transfer = handle_file_done paths T now msg c.transfer }
      else c

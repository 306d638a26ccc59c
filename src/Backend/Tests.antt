-- ===== src/Backend/Tests.antt =====
-- Small runs of the backend's parts.
mod Messages
use sagiri_guard.Base.{
  ℕ, ◌≡◌, refl, true, false, not, ◌||◌, ◌&&◌, List, [], ◌∷◌, Option, none, some, ◌==◌, inl, ◌<◌,
  ◌↔◌, arith, is_some, All, if◌then◌else◌, select,
}
use sagiri_guard.Base.Text.{Text, lit}
use sagiri_guard.Base.Map.{lookup}
use sagiri_guard.Base.Results.{ok}
use sagiri_guard.Base.Table.{Table, list_table}
use sagiri_guard.Network.{ProtocolMessage, msg_file_chunk}
use sagiri_guard.Backend.Hub.{Hub, Net, same_client, register, unregister, send, registry_get, clip}
use sagiri_guard.Backend.Hub.Laws.{unregister-register, send_outcome, Sent}
use sagiri_guard.Backend.Queue.{
  AgentCommand, no_failure, command_key, fill_id, CommandRequest, AdminRequest, is_waiting,
  list_by_device, retry_pending_commands,
}
use sagiri_guard.Backend.Queue.Drain.{retry_drains, IsReachable}
use sagiri_guard.Backend.Files.{Files}
use sagiri_guard.Backend.Backup.{
  BackupSession, Paths, Fresh, UploadRequest, upload, active, prepare_upload,
}
use sagiri_guard.Backend.Backup.Sessions.{validate_session}
use sagiri_guard.Backend.Backup.Laws.{Opens, prepare_upload-Opens, validate_session-ok}
use sagiri_guard.Backend.Backup.Versions.{
  BackupVersion, key, fill, of_path, next_version, max_version, create_version, get_version,
}
use sagiri_guard.Backend.Backup.Finalize.{version_row}
use sagiri_guard.Backend.Backup.Newest.{stored_version_latest}
use sagiri_guard.Backend.Transfer.{Transfer, is_authorized, handle_file_chunk, handle_file_done}
use sagiri_guard.Backend.Transfer.Client.{upload_loop, delivered_by, upload_loop-ends}
use sagiri_guard.Backend.Transfer.Finish.{Stored}
use sagiri_guard.Backend.Transfer.Receive.{transfer_message}
use sagiri_guard.Backend.Transfer.Refused.{foreign_message_ignored, IsForeign}
use sagiri_guard.Backend.Transfer.Roundtrip.{CanUpload, transfer, upload_roundtrip}
use sagiri_guard.Backend.Protocol.{
  Controller, Envelope, Phrases, Handlers, Acts, Answers, accepts_token, handle_login_frame,
  handle_disconnect, handle_sub_command, send_ack,
}
use sagiri_guard.Backend.Protocol.Access.{login_authorizes, disconnect_revokes}
use sagiri_guard.Backend.Backup.{download}
use sagiri_guard.Backend.Download.{
  StartRequest, handle_backup_download_start, receive_file, finished,
}
use sagiri_guard.Backend.Download.Received.{CanDownload, download_roundtrip}

abbrev net : Net
net = record {
  registry = ("pc", 7) ∷ [];
  reachable = λ fd. true;
  takes = λ fd. 0;
  sent = [];
  torn = [];
}

abbrev hub : Hub
hub = ("pc", some 7) ∷ []

unregister-register_example :
    lookup "pc" (unregister "pc" (some 7) (register "pc" (some 9) hub)) ≡ (
      if "pc" == "pc"
      then if same_client (some 9) (some 7) then none else some (some 9)
      else lookup "pc" hub)
unregister-register_example = unregister-register "pc" "pc" (some 7) (some 9) hub

send_outcome_example : Sent "pc" (lit "hi") hub net (send "pc" (lit "hi") hub net)
send_outcome_example = send_outcome "pc" (lit "hi") hub net

abbrev commands : Table AgentCommand command_key fill_id
commands = list_table command_key fill_id

abbrev marshal : CommandRequest → Option Text
marshal r = some (lit "{}")

abbrev queued : AgentCommand
queued = record {
  id = 0;
  device_id = "pc";
  command = "get_logs";
  kind = "once";
  payload = [];
  status = "pending";
  last_error = no_failure;
  sent_at = false;
}

pc_answers : IsReachable "pc" 7 net
unfolding registry_get clip lookup
pc_answers = record { named = refl; registered = refl; takes = refl }

listed : list_by_device commands "pc" false (queued ∷ []) ≡ some (queued ∷ [])
unfolding list_by_device
listed = refl

retry_drains_example :
    let (t', n') = retry_pending_commands commands marshal hub "pc" (queued ∷ []) net in
    (select (is_waiting "pc") t' ≡ []) × (n'.sent ≡ (7, lit "{}") ∷ [])
retry_drains_example =
    retry_drains commands marshal hub "pc" 7 (λ p f s. (_, refl)) (queued ∷ []) net
      {cs = queued ∷ []} pc_answers listed ((lit "{}", refl, (refl, refl)), tt)

abbrev request : AdminRequest
request = record { device_id = "pc"; command = "get_logs"; kind = "once"; payload = [] }

abbrev paths : Paths
paths = record { base = λ s. s; stored_name = λ n s. s; join = λ d s. s }

abbrev fresh : Fresh
fresh = record { session_id = "up-1"; token = "secret"; now = 5 }

abbrev a_request : UploadRequest
a_request = record {
  file_name = "a.txt";
  file_size = some 3;
  checksum = "";
  logical_path = "/a.txt";
  file_id = "";
}

abbrev storage : Files
storage = record {
  contents = [];
  mkdir_works = true;
  stat_works = true;
  create_works = true;
  open_works = true;
  rename_works = true;
  quota = none;
}

prepare_upload-Opens_example : Opens [] (prepare_upload paths fresh "pc" a_request [] storage)
prepare_upload-Opens_example = prepare_upload-Opens paths fresh "pc" a_request [] storage

abbrev session : BackupSession
session = record {
  id = "up-1";
  token = "secret";
  device_id = "pc";
  file_id = "";
  logical_path = "/a.txt";
  file_name = "a.txt";
  file_size = 3;
  checksum = "";
  direction = upload;
  status = active;
  temp_path = "a.txt.part";
  final_path = "a.txt";
  bytes_done = 0;
  created_at = 5;
  updated_at = 5;
}

validate_session-ok_example :
    (validate_session "up-1" "secret" upload (("up-1", session) ∷ []) ≡ ok session) ↔ (
      (lookup "up-1" (("up-1", session) ∷ []) ≡ some session)
      × (session.token ≡ "secret")
      × (true ≡ true))
validate_session-ok_example =
    validate_session-ok "up-1" "secret" upload (("up-1", session) ∷ []) session

abbrev versions : Table BackupVersion key fill
versions = list_table key fill

abbrev first : BackupVersion
first = fill 0 (version_row paths versions session 1)

abbrev second : BackupVersion
second = fill 1 (version_row paths versions session 2)

next_is_two : next_version versions "pc" "/a.txt" (first ∷ []) ≡ some 2
unfolding next_version max_version
next_is_two = refl

second_created :
    create_version versions (version_row paths versions session 2) (first ∷ [])
    ≡ some (first ∷ second ∷ [])
unfolding create_version
second_created = refl

stored_version_latest_example :
    All (λ v. v.version < 2) (select (of_path "pc" "/a.txt") (first ∷ []))
    × (k : ℕ) × (get_version versions "pc" "/a.txt" 0 (first ∷ second ∷ [])
        ≡ some (some (fill k (version_row paths versions session 2))))
stored_version_latest_example =
    stored_version_latest paths versions session (first ∷ []) (first ∷ second ∷ []) 2
      (first ∷ second ∷ []) next_is_two second_created refl

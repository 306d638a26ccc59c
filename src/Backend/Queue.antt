-- ===== src/Backend/Queue.antt =====
-- The durable queue of commands: backend/app/repo/agent_command_repo.go, `retryPendingCommands` of
-- backend/app/controllers/protocol_controller.go and `handleAdminSendCommand` of
-- backend/app/controllers/protocol_admin.go. The table is a parameter (Base/Table), and so is
-- `json.Marshal`, which may fail.
pub mod Drain
pub mod Admin
use sagiri_guard.Base.{
  ℕ, ◌≡◌, Bool, true, false, not, ◌&&◌, ◌||◌, List, [], ◌∷◌, ◌++◌, Option, none, some, String, ◌==◌,
  is_nil, is_some, if◌then◌else◌, nat_eq, select,
}
use sagiri_guard.Base.Text.{Text}
use sagiri_guard.Base.Results.{Result, ok, err}
use sagiri_guard.Base.Table.{Table}
use sagiri_guard.Backend.Hub.{Hub, Net, SendError, send, is_online}

-- what `last_error` may hold
pub data Failure : Type 0 where
  no_failure marshal_failed : Failure
  not_sent : SendError → Failure

-- `AgentCommand`; `sent_at` is reduced to whether it is set
pub record AgentCommand : Type 0 where
  pub id : ℕ
  pub device_id : String
  pub command : String
  pub kind : String
  pub payload : Text
  pub status : String
  pub last_error : Failure
  pub sent_at : Bool

abbrev pub command_key : AgentCommand → ℕ
command_key c = c.id

abbrev pub fill_id : ℕ → AgentCommand → AgentCommand
fill_id n c = record c { id = n }

-- `dto.CommandRequest`
pub record CommandRequest : Type 0 where
  pub device_id : String
  pub command : String
  pub kind : String
  pub argument : Text

-- the columns that the two updates write
abbrev pub with_status : String → Failure → AgentCommand → AgentCommand
with_status status e c = record c { status = status; last_error = e }

abbrev pub as_sent : AgentCommand → AgentCommand
as_sent c = record c { status = "sent"; sent_at = true }

-- the rows that `ListByDevice` selects without the sent ones
abbrev pub is_waiting : String → AgentCommand → Bool
is_waiting device c = c.device_id == device && (c.status == "pending" || c.status == "failed")

-- the state that an update leaves; its error is ignored
abbrev pub or_same : {S : Type 0} → S → Option S → S
or_same s none = s
or_same s (some t) = t

-- `dto.AdminSendCommandRequest` and its response
pub record AdminRequest : Type 0 where
  pub device_id : String
  pub command : String
  pub kind : String
  pub payload : Text

pub record AdminResponse : Type 0 where
  pub id : ℕ
  pub status : String
  pub sent : Bool

pub data AdminError : Type 0 where
  missing_fields queue_failed : AdminError

module _ (table : Table AgentCommand command_key fill_id) where
  -- `UpdateStatus`
  unfoldable pub update_status : ℕ → String → Failure → table.State → Option table.State
  update_status id status e t = table.update (λ c. nat_eq c.id id) (with_status status e) t

  -- `MarkSent`
  unfoldable pub mark_sent : ℕ → table.State → Option table.State
  mark_sent id t = table.update (λ c. nat_eq c.id id) as_sent t

  -- `ListByDevice`
  unfoldable pub list_by_device : String → Bool → table.State → Option (List AgentCommand)
  list_by_device device include_sent t =
      table.find (λ c. if include_sent then c.device_id == device else is_waiting device c) t

-- the row that is queued, and the request that goes out at once
abbrev pub queued_row : AdminRequest → AgentCommand
queued_row req = record {
  id = 0;
  device_id = req.device_id;
  command = req.command;
  kind = req.kind;
  payload = req.payload;
  status = "pending";
  last_error = no_failure;
  sent_at = false;
}

abbrev pub immediate_request : AdminRequest → CommandRequest
immediate_request req = record {
  device_id = req.device_id;
  command = req.command;
  kind = req.kind;
  argument = req.payload;
}

abbrev pub wire_request : String → AgentCommand → CommandRequest
wire_request device c = record {
  device_id = device;
  command = c.command;
  kind = c.kind;
  argument = c.payload;
}

module _ (table : Table AgentCommand command_key fill_id) (marshal : CommandRequest → Option Text)
    (h : Hub) where
  -- after the send of a queued command: whether the loop goes on, the table, the network
  unfoldable pub record_attempt :
      ℕ → table.State → Option SendError × Net → Bool × table.State × Net
  unfolding update_status mark_sent
  record_attempt id t (none, n) = (true, or_same t (mark_sent table id t), n)
  record_attempt id t (some e, n) =
      (false, or_same t (update_status table id "failed" (not_sent e) t), n)

  unfoldable pub attempt_bytes :
      String → ℕ → Option Text → table.State → Net → Bool × table.State × Net
  unfolding update_status record_attempt
  attempt_bytes device id none t n =
      (true, or_same t (update_status table id "failed" marshal_failed t), n)
  attempt_bytes device id (some bytes) t n = record_attempt id t (send device bytes h n)

  -- the loop of `retryPendingCommands`
  unfoldable pub retry_from : String → List AgentCommand → table.State → Net → table.State × Net
  unfolding attempt_bytes
  retry_from device [] t n = (t, n)
  retry_from device (c ∷ cs) t n =
      let (go_on, t', n') = attempt_bytes device c.id (marshal (wire_request device c)) t n in
      let rest = retry_from device cs t' n' in if go_on then rest else (t', n')

  -- a query that fails ends `retryPendingCommands`
  unfoldable pub retry_listed :
      String → Option (List AgentCommand) → table.State → Net → table.State × Net
  retry_listed device none t n = (t, n)
  retry_listed device (some cs) t n = retry_from device cs t n

  -- `retryPendingCommands`
  unfoldable pub retry_pending_commands : String → table.State → Net → table.State × Net
  retry_pending_commands device t n = retry_listed device (list_by_device table device false t) t n

  -- after the immediate send: whether it was sent, the table, the network
  unfoldable pub record_immediate :
      ℕ → table.State → Option SendError × Net → Bool × table.State × Net
  unfolding update_status mark_sent
  record_immediate id t (none, n) = (true, or_same t (mark_sent table id t), n)
  record_immediate id t (some e, n) =
      (false, or_same t (update_status table id "pending" (not_sent e) t), n)

  unfoldable pub immediate_bytes :
      String → ℕ → Option Text → table.State → Net → Bool × table.State × Net
  unfolding record_immediate
  immediate_bytes device id none t n = (false, t, n)
  immediate_bytes device id (some bytes) t n = record_immediate id t (send device bytes h n)

  -- `handleAdminSendCommand`, once the command is in the queue
  unfoldable pub answer_queued :
      AdminRequest → ℕ → table.State → Net → Result AdminError AdminResponse × table.State × Net
  unfolding immediate_bytes is_online
  answer_queued req id t n =
      let (sent, t', n') =
        if is_online req.device_id h n
        then immediate_bytes req.device_id id (marshal (immediate_request req)) t n
        else (false, t, n) in
      (ok (record { id = id; status = if sent then "sent" else "pending"; sent = sent }), t', n')

  unfoldable pub answer_created :
      AdminRequest
      → Option (ℕ × table.State)
      → table.State
      → Net
      → Result AdminError AdminResponse × table.State × Net
  answer_created req none t n = (err queue_failed, t, n)
  answer_created req (some (id, t')) t n = answer_queued req id t' n

  -- `handleAdminSendCommand`
  unfoldable pub handle_admin_send_command :
      AdminRequest → table.State → Net → Result AdminError AdminResponse × table.State × Net
  unfolding answer_created
  handle_admin_send_command req t n =
      if req.device_id == "" || req.command == ""
      then (err missing_fields, t, n)
      else answer_created req (table.create (queued_row req) t) t n

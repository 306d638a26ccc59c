-- ===== src/Backend/Queue/Admin.antt =====
-- The branches of `handleAdminSendCommand` in backend/app/controllers/protocol_admin.go.
use sagiri_guard.Base.{
  ℕ, ◌≡◌, Bool, true, false, [], ◌∷◌, ◌++◌, Option, none, some, nat_eq, ◌⊎◌, if◌then◌else◌,
}
use sagiri_guard.Base.Map.{lookup}
use sagiri_guard.Base.Text.{Text}
use sagiri_guard.Base.Results.{Result, ok, err}
use sagiri_guard.Base.Table.{Table}
use sagiri_guard.Backend.Hub.{Hub, Net, SendError, registry_get}
use sagiri_guard.Backend.Hub.Laws.{Delivered, Unsent, Candidate, Fits}
use sagiri_guard.Backend.Queue.{
  AgentCommand, command_key, fill_id, CommandRequest, or_same, AdminRequest, AdminResponse,
  AdminError, immediate_request, missing_fields, queue_failed, no_failure, not_sent,
}

module _ (table : Table AgentCommand command_key fill_id) (marshal : CommandRequest → Option Text)
    (h : Hub) where
  -- Why nothing was sent, and what became of the row: the device has no connection, or the request
  -- does not marshal, and the table is as it was; or none of the device's sockets can be reached (or
  -- the payload does not fit), and the row waits, with the error.
  abbrev Held : AdminRequest → ℕ → table.State → Net → table.State → Type 0
  Held req id t n t' =
      ((registry_get req.device_id n ≡ none) × (lookup req.device_id h ≡ none) × (t' ≡ t))
      ⊎ (((marshal (immediate_request req) ≡ none) × (t' ≡ t))
          ⊎ ((b : Text) × (e : SendError) × (marshal (immediate_request req) ≡ some b)
              × (Fits b → (fd : ℕ) → Candidate req.device_id h n fd → n.reachable fd ≡ false)
              × (t'
                  ≡ or_same t (
                      table.update (λ c. nat_eq c.id id)
                        (λ c. record c { status = "pending"; last_error = not_sent e }) t))))

  -- As the flag says: one whole frame with the request's bytes went to the device and the row is
  -- marked sent, or no whole frame was sent.
  abbrev Told : AdminRequest → ℕ → table.State → Net → Bool × table.State × Net → Type 0
  Told req id t n (true, t', n') =
      (b : Text) × (fd : ℕ) × (marshal (immediate_request req) ≡ some b)
      × Candidate req.device_id h n fd
      × Delivered fd b n n'
      × (t'
          ≡ or_same t (
              table.update (λ c. nat_eq c.id id) (λ c. record c { status = "sent"; sent_at = true })
                t))
  Told req id t n (false, t', n') = Unsent n n' × Held req id t n t'

  -- What an answer says of the table and the network. An error has queued and sent nothing, and is
  -- about an empty device or command, or about the queue. An answer names a new row of the queue,
  -- and says whether a frame went to the device.
  abbrev pub Answered :
      AdminRequest
      → table.State
      → Net
      → Result AdminError AdminResponse × table.State × Net
      → Type 0
  Answered req t n (err missing_fields, t', n') =
      (t' ≡ t) × (n' ≡ n) × ((req.device_id ≡ "") ⊎ (req.command ≡ ""))
  Answered req t n (err queue_failed, t', n') = (t' ≡ t) × (n' ≡ n)
  Answered req t n (ok a, t', n') =
      (u : table.State) × (table.rows u
        ≡ table.rows t
          ++ (record {
            id = a.id;
            device_id = req.device_id;
            command = req.command;
            kind = req.kind;
            payload = req.payload;
            status = "pending";
            last_error = no_failure;
            sent_at = false;
          }
              ∷ []))
      × Told req a.id u n (a.sent, t', n')
      × (a.status ≡ (if a.sent then "sent" else "pending"))

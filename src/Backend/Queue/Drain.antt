-- ===== src/Backend/Queue/Drain.antt =====
-- `retryPendingCommands` of protocol_controller.go, for a device that can be reached.
use mathlib.Core.Path.{ap₂, subst}
use mathlib.Core.List.{append_assoc, append-nil}
use sagiri_guard.Base.{
  ℕ, ◌≡◌, refl, ap, ◌∙◌, sym, Bool, true, false, List, [], ◌∷◌, ◌++◌, Option, none, some, String,
  ◌==◌, is_nil, any, All, map, arith, length, ltb, eq_iff, Bool-cases, inl, inr, if◌then◌else◌,
  nat_eq, select, select-yes, select-no,
}
use sagiri_guard.Base.Text.{Text}
use sagiri_guard.Base.Table.{Table}
use sagiri_guard.Backend.Hub.{Hub, Net, send, send_to_device, send_frame, registry_get, max_payload}
use sagiri_guard.Backend.Queue.{
  AgentCommand, command_key, fill_id, CommandRequest, wire_request, is_waiting, as_sent,
  list_by_device, attempt_bytes, record_attempt, retry_from, retry_pending_commands, retry_listed,
}

-- The registry has the device's socket, and the socket takes frames.
pub record IsReachable (device : String) (fd : ℕ) (n : Net) : Type 0 where
  pub named : (device == "") ≡ false
  pub registered : registry_get device n ≡ some fd
  pub takes : n.reachable fd ≡ true

-- A payload that fits into a frame.
abbrev pub Fits : Text → Type 0
Fits b = (is_nil b ≡ false) × (ltb max_payload (length b) ≡ false)

abbrev with_frame : ℕ → Text → Net → Net
with_frame fd b n = record n { sent = n.sent ++ ((fd, b) ∷ []) }

send_frame-reachable :
    (fd : ℕ) (b : Text) (n : Net)
    → Fits b
    → n.reachable fd ≡ true
    → send_frame fd b n ≡ (none, with_frame fd b n)
unfolding send_frame
send_frame-reachable fd b n f t = rw (f.0, f.1) (rw t)

send-reachable :
    (device : String) (fd : ℕ) (b : Text) (h : Hub) (n : Net)
    → IsReachable device fd n
    → Fits b
    → send device b h n ≡ (none, with_frame fd b n)
unfolding send send_to_device
send-reachable device fd b h n r f =
    ground (arith, send_frame-reachable fd b n f r.takes, r.named, r.registered)

IsReachable-with_frame :
    {device : String} {fd : ℕ} {n : Net} (b : Text)
    → IsReachable device fd n
    → IsReachable device fd (with_frame fd b n)
unfolding registry_get
IsReachable-with_frame b r = record { named = r.named; registered = r.registered; takes = r.takes }

-- the row after the marks of the listed commands
abbrev marked : List AgentCommand → AgentCommand → AgentCommand
marked cs r = if any (λ c. nat_eq r.id c.id) cs then as_sent r else r

abbrev mark_one : ℕ → AgentCommand → AgentCommand
mark_one id r = if nat_eq r.id id then as_sent r else r

marked-mark_one :
    (c : AgentCommand) (cs : List AgentCommand) (r : AgentCommand)
    → marked cs (mark_one c.id r) ≡ marked (c ∷ cs) r
marked-mark_one c cs r = elim (Bool-cases (nat_eq r.id c.id)) [
  | inl same ↦ simp same (ground arith)
  | inr other ↦ simp other
]

map-marked :
    (c : AgentCommand) (cs rs : List AgentCommand)
    → map (marked cs) (map (mark_one c.id) rs) ≡ map (marked (c ∷ cs)) rs
map-marked c cs [] = refl
map-marked c cs (r ∷ rs) = ap₂ (λ x xs. x ∷ xs) (marked-mark_one c cs r) (map-marked c cs rs)

marked_waiting : (device : String) (r : AgentCommand) → is_waiting device (as_sent r) ≡ false
marked_waiting device r = ground (arith, eq_iff "sent" "pending")

-- Every write to the table works: the database is up.
abbrev pub IsUp : Table AgentCommand command_key fill_id → Type 0
IsUp table =
    (p : AgentCommand → Bool) (f : AgentCommand → AgentCommand) (s : table.State)
    → (t : table.State) × (table.update p f s ≡ some t)

map-marked_nil : (rs : List AgentCommand) → map (marked []) rs ≡ rs
map-marked_nil [] = refl
map-marked_nil (r ∷ rs) = ap (λ l. r ∷ l) (map-marked_nil rs)

abbrev to_frame : ℕ → Option Text → List (ℕ × Text)
to_frame fd none = []
to_frame fd (some b) = (fd, b) ∷ []

-- the row of a waiting command is marked by the list of those that wait
any_self : (cs : List AgentCommand) (c : AgentCommand) → any (λ w. nat_eq c.id w.id) (c ∷ cs) ≡ true
any_self cs c = ground arith

-- Every row that waits is among the listed commands.
abbrev Covers : String → List AgentCommand → List AgentCommand → Type 0
Covers device cs rs =
    All (λ r. is_waiting device r ≡ true → any (λ c. nat_eq r.id c.id) cs ≡ true) rs

Covers-cons :
    (device : String) (c : AgentCommand) (cs rs : List AgentCommand)
    → Covers device cs rs
    → Covers device (c ∷ cs) rs
Covers-cons device c cs [] k = tt
Covers-cons device c cs (r ∷ rs) k =
    (λ w. let e = k.0 w in ground arith, Covers-cons device c cs rs k.1)

Covers-select :
    (device : String) (rs : List AgentCommand) → Covers device (select (is_waiting device) rs) rs
Covers-select device [] = tt
Covers-select device (r ∷ rs) = elim (Bool-cases (is_waiting device r)) [
  | inl w ↦
      subst (λ l. Covers device l (r ∷ rs)) (sym (select-yes (is_waiting device) r rs w))
        (
          λ _. any_self (select (is_waiting device) rs) r,
          Covers-cons device r (select (is_waiting device) rs) rs (Covers-select device rs),
        )
  | inr n ↦
      subst (λ l. Covers device l (r ∷ rs)) (sym (select-no (is_waiting device) r rs n))
        (λ w. cc, Covers-select device rs)
]

not_waiting :
    (device : String) (cs : List AgentCommand) (r : AgentCommand)
    → (is_waiting device r ≡ true → any (λ c. nat_eq r.id c.id) cs ≡ true)
    → is_waiting device (marked cs r) ≡ false
not_waiting device cs r k = elim (Bool-cases (any (λ c. nat_eq r.id c.id) cs)) [
  | inl e ↦ simp e (marked_waiting device r)
  | inr e ↦ simp e (ground arith)
]

select-marked :
    (device : String) (rs cs : List AgentCommand)
    → Covers device cs rs
    → select (is_waiting device) (map (marked cs) rs) ≡ []
select-marked device [] cs k = refl
select-marked device (r ∷ rs) cs k =
    rw (not_waiting device cs r k.0) (select-marked device rs cs k.1)

module _ (table : Table AgentCommand command_key fill_id) (marshal : CommandRequest → Option Text)
    (h : Hub) (device : String) (fd : ℕ) where
  -- the frames of the commands, in their order
  abbrev pub frames : List AgentCommand → List (ℕ × Text)
  frames [] = []
  frames (c ∷ cs) = to_frame fd (marshal (wire_request device c)) ++ frames cs

  listed :
      (t : table.State) {cs : List AgentCommand}
      → list_by_device table device false t ≡ some cs
      → cs ≡ select (is_waiting device) (table.rows t)
  unfolding list_by_device
  listed t e = table.find_rows (is_waiting device) t _ e

  -- Each command has a payload, which fits.
  abbrev pub IsWired : AgentCommand → Type 0
  IsWired c = (b : Text) × (marshal (wire_request device c) ≡ some b) × Fits b

  module _ (up : IsUp table) where
    attempt-reachable :
        (id : ℕ) (b : Text) (t : table.State) (n : Net)
        → IsReachable device fd n
        → Fits b
        → attempt_bytes table marshal h device id (some b) t n
          ≡ (true, (up (λ c. nat_eq c.id id) as_sent t).0, with_frame fd b n)
    unfolding attempt_bytes
    attempt-reachable id b t n r f =
        rw (send-reachable device fd b h n r f)
          (unfold record_attempt in rw ((up (λ c. nat_eq c.id id) as_sent t).1))

    retry_from-reachable :
        (cs : List AgentCommand) (t : table.State) (n : Net)
        → IsReachable device fd n
        → All IsWired cs
        → (table.rows (retry_from table marshal h device cs t n).0 ≡ map (marked cs) (table.rows t))
          × ((retry_from table marshal h device cs t n).1.sent ≡ n.sent ++ frames cs)
    unfolding retry_from
    retry_from-reachable [] t n r w = (sym (map-marked_nil (table.rows t)), sym (append-nil n.sent))
    retry_from-reachable (c ∷ cs) t n r ((b, mb, f), w) =
        let (t1, e1) = up (λ x. nat_eq x.id c.id) as_sent t in
        let (rows, sent) =
          retry_from-reachable cs t1 (with_frame fd b n) (IsReachable-with_frame b r) w in
        rw (mb, attempt-reachable c.id b t n r f)
          (
            rows
                ∙ ap (map (marked cs)) (table.update_rows (λ x. nat_eq x.id c.id) as_sent t t1 e1)
                ∙ map-marked c cs (table.rows t),
            sent ∙ append_assoc n.sent ((fd, b) ∷ []) (frames cs),
          )

    -- Where the database's updates work, the list of waiting commands is read, the device can be
    -- reached and each command's payload marshals and fits into a frame, a login sends every
    -- waiting command of the device, once and in the order of the queue, and leaves none waiting.
    pub retry_drains :
        (t : table.State) (n : Net) {cs : List AgentCommand}
        → IsReachable device fd n
        → list_by_device table device false t ≡ some cs
        → All IsWired cs
        → let (t', n') = retry_pending_commands table marshal h device t n in
          (select (is_waiting device) (table.rows t') ≡ []) × (n'.sent ≡ n.sent ++ frames cs)
    unfolding retry_pending_commands retry_listed
    retry_drains t n {cs} r found w =
        let (rows, sent) = retry_from-reachable cs t n r w in
        rw found (
          rw rows (
              select-marked device (table.rows t) cs
                (rw (listed t found) (Covers-select device (table.rows t)))),
          sent,
        )

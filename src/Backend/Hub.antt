-- ===== src/Backend/Hub.antt =====
-- backend/app/socket/hub.go over network/client.go, network/server.go and the device registry of
-- network/protocol_server.c. A connection is its socket's number; INVALID_SOCKET is `none`. Whether
-- a socket still takes a frame is up to the network, so it is part of the state, `reachable`.
pub mod Laws
use sagiri_guard.Base.{
  ℕ, ◌≡◌, Bool, true, false, not, ◌&&◌, ◌||◌, List, [], ◌∷◌, ◌++◌, Option, none, some, String, ◌==◌,
  is_nil, is_some, if◌then◌else◌, nat_eq, ltb, length, select,
}
use Prim.Native.String.{slice}
use sagiri_guard.Base.Text.{Text}
use sagiri_guard.Base.Map.{Map, lookup, insert, delete}

-- PROTOCOL_MAX_PAYLOAD
abbrev pub max_payload : ℕ
max_payload = 1048576

-- The registry, and the network: `sent` are the frames that went out whole, and `torn` those that a
-- failure cut off, with the number of bytes (of the header and the payload) that went out before.
-- Where a socket is not reachable, `takes` is how many bytes it takes before the failure.
pub record Net : Type 0 where
  pub registry : Map ℕ
  pub reachable : ℕ → Bool
  pub takes : ℕ → ℕ
  pub sent : List (ℕ × Text)
  pub torn : List (ℕ × ℕ)

-- PROTOCOL_MAX_DEVICE_ID
abbrev pub max_device_id : ℕ
max_device_id = 255

-- the part of a name that the registry keeps and compares
unfoldable pub clip : String → String
clip device = slice device 0 max_device_id

pub data SendError : Type 0 where
  not_open empty_payload no_device send_failed : SendError

-- `registry_set`
unfoldable pub registry_set : String → ℕ → Net → Net
unfolding insert clip
registry_set device fd n =
    if device == "" then n else record n { registry = insert (clip device) fd n.registry }

-- the loop of `registry_remove_fd`, which unlinks the first entry of the socket
unfoldable pub drop_fd : ℕ → Map ℕ → Map ℕ
drop_fd fd [] = []
drop_fd fd ((d, f) ∷ m) = if nat_eq f fd then m else (d, f) ∷ drop_fd fd m

-- `registry_remove_fd`
unfoldable pub registry_remove_fd : ℕ → Net → Net
unfolding drop_fd
registry_remove_fd fd n = record n { registry = drop_fd fd n.registry }

-- `registry_get`
unfoldable pub registry_get : String → Net → Option ℕ
unfolding lookup clip
registry_get device n = if device == "" then none else lookup (clip device) n.registry

-- `DeviceIsOnline`
unfoldable pub device_is_online : String → Net → Bool
unfolding registry_get
device_is_online device n = if device == "" then false else is_some (registry_get device n)

-- `protocol_send_command` on a valid socket, with the two calls of `send_all` in
-- `protocol_send_frame`
unfoldable pub send_frame : ℕ → Text → Net → Option SendError × Net
send_frame fd bytes n =
    if is_nil bytes || ltb max_payload (length bytes)
    then (some send_failed, n)
    else if n.reachable fd
    then (none, record n { sent = n.sent ++ ((fd, bytes) ∷ []) })
    else (some send_failed, record n { torn = n.torn ++ ((fd, n.takes fd) ∷ []) })

-- `protocol_send_to_device`
unfoldable pub send_registered : Option ℕ → Text → Net → Option SendError × Net
unfolding send_frame
send_registered none bytes n = (some send_failed, n)
send_registered (some fd) bytes n = send_frame fd bytes n

-- `SendToDevice`
unfoldable pub send_to_device : String → Text → Net → Option SendError × Net
unfolding send_registered registry_get
send_to_device device bytes n =
    if device == ""
    then (some no_device, n)
    else if is_nil bytes
    then (some empty_payload, n)
    else send_registered (registry_get device n) bytes n

-- `TCPClient.SendCommand`
unfoldable pub client_send_command : Option ℕ → Text → Net → Option SendError × Net
unfolding send_frame
client_send_command none bytes n = (some not_open, n)
client_send_command (some fd) bytes n =
    if is_nil bytes then (some empty_payload, n) else send_frame fd bytes n

-- `TCPClient.Equal`
abbrev pub same_client : Option ℕ → Option ℕ → Bool
same_client none none = true
same_client none (some b) = false
same_client (some a) none = false
same_client (some a) (some b) = nat_eq a b

abbrev pub Hub : Type 0
Hub = Map (Option ℕ)

-- `Register`
unfoldable pub register : String → Option ℕ → Hub → Hub
unfolding insert
register device c h = insert device c h

-- `Unregister`
unfoldable pub unregister : String → Option ℕ → Hub → Hub
unfolding lookup delete
unregister device c h = elim (lookup device h) [
  | none ↦ h
  | some cur ↦ if same_client cur c then delete device h else h
]

-- `IsOnline`
unfoldable pub is_online : String → Hub → Net → Bool
unfolding device_is_online lookup
is_online device h n = if device_is_online device n then true else is_some (lookup device h)

-- `OnlineDevices`, in the order of the map's entries
unfoldable pub online_devices : Hub → Net → List String
unfolding device_is_online
online_devices [] n = []
online_devices ((d, c) ∷ h) n =
    let rest = online_devices h n in if device_is_online d n then d ∷ rest else rest

abbrev pub keep_error : SendError → Option SendError × Net → Option SendError × Net
keep_error e (none, n) = (none, n)
keep_error e (some _, n) = (some e, n)

-- the second attempt of `Send`, which keeps the first attempt's error
unfoldable pub send_cached : Option (Option ℕ) → SendError → Text → Net → Option SendError × Net
unfolding client_send_command
send_cached none e bytes n = (some e, n)
send_cached (some none) e bytes n = (some e, n)
send_cached (some (some fd)) e bytes n = keep_error e (client_send_command (some fd) bytes n)

-- `Send`, once the first attempt has ended
unfoldable pub after_first :
    Option (Option ℕ) → Text → Option SendError × Net → Option SendError × Net
unfolding send_cached
after_first cached bytes (none, n) = (none, n)
after_first cached bytes (some e, n) = send_cached cached e bytes n

-- `Send`
unfoldable pub send : String → Text → Hub → Net → Option SendError × Net
unfolding send_to_device after_first lookup
send device bytes h n = after_first (lookup device h) bytes (send_to_device device bytes n)

-- ===== src/Firewall.antt =====
-- agent/internal/firewall/hosts.go: the block list of domains, and the section of the hosts file
-- that the agent owns. The file is a text on a modelled disk; package `os` and `bufio` are modelled
-- as far as the manager uses them. A range over the map of domains takes any order, so the order
-- is a parameter, `range`.
pub mod Categories
pub mod Lines
pub mod Section
pub mod Restore
pub mod Block
pub mod Names
mod Tests
use sagiri_guard.Base.{
  ℕ, ◌+◌, ◌≡◌, Bool, true, false, not, ◌&&◌, List, [], ◌∷◌, ◌++◌, map, Option, none, some, leb,
  nat_eq, if◌then◌else◌, length, take, is_nil, any, select,
}
use sagiri_guard.Base.Text.{
  onto_first, Text, lit, text_eq, elem, trim_space, to_lower, has_prefix, contains,
}
use sagiri_guard.Base.Results.{Result, ok, err}

pub data HostsError : Type 0 where
  empty_domain read_failed open_failed write_failed : HostsError

-- The hosts file, its backup beside it, and what the operating system allows: `room` is how many
-- bytes a write can store before the device fails, if it fails.
pub record Disk : Type 0 where
  pub hosts : Option Text
  pub backup : Option Text
  pub can_read : Bool
  pub can_write : Bool
  pub can_backup : Bool
  pub room : Option ℕ

-- `HostsManager`, with the disk that its methods work on
pub record Manager : Type 0 where
  pub enabled : Bool
  pub domains : List Text
  pub disk : Disk

abbrev pub block_marker_start : Text
block_marker_start = lit "# === SAGIRI-GUARD BLOCK START ==="

abbrev pub block_marker_end : Text
block_marker_end = lit "# === SAGIRI-GUARD BLOCK END ==="

abbrev pub is_newline : ℕ → Bool
is_newline c = nat_eq c 10

abbrev pub is_cr : ℕ → Bool
is_cr c = nat_eq c 13

-- The lines of a text, with a last one that no newline ends.
unfoldable pub raw_lines : Text → List Text
raw_lines [] = []
raw_lines (c ∷ s) = let rest = raw_lines s in if is_newline c then [] ∷ rest else onto_first c rest

-- bufio.ScanLines drops one carriage return at the end of a line.
unfoldable pub drop_cr : Text → Text
drop_cr [] = []
drop_cr (c ∷ s) = let rest = drop_cr s in if is_cr c && is_nil s then [] else c ∷ rest

unfoldable pub scan_lines : Text → List Text
unfolding raw_lines drop_cr
scan_lines s = map drop_cr (raw_lines s)

-- bufio.MaxScanTokenSize
abbrev pub max_token : ℕ
max_token = 65536

abbrev pub too_long : Text → Bool
too_long l = leb max_token (length l)

-- `readHostsFile`: a missing file has no lines, and a line that does not fit ends the scan.
unfoldable pub read_hosts_file : Disk → Result HostsError (List Text)
read_hosts_file d = elim d.hosts [
  | none ↦ ok []
  | some s ↦
      if not d.can_read
      then err read_failed
      else if any too_long (raw_lines s)
      then err read_failed
      else ok (scan_lines s)
]

-- the bytes of `line + "\n"` for every line
unfoldable pub unlines : List Text → Text
unlines [] = []
unlines (l ∷ ls) = l ++ (10 ∷ unlines ls)

-- `backupHostsFile`, whose error is only logged
unfoldable pub backup_hosts_file : Disk → Disk
backup_hosts_file d = elim d.hosts [
  | none ↦ d
  | some s ↦ if d.can_read && d.can_backup then record d { backup = some s } else d
]

-- what a write of the bytes stores
unfoldable pub store : Text → Disk → Option HostsError × Disk
store s d = elim d.room [
  | none ↦ (none, record d { hosts = some s })
  | some n ↦
      if leb (length s) n
      then (none, record d { hosts = some s })
      else (some write_failed, record d { hosts = some (take n s) })
]

-- `writeHostsFile`
unfoldable pub write_hosts_file : List Text → Disk → Option HostsError × Disk
unfolding unlines backup_hosts_file store
write_hosts_file lines d =
    let b = backup_hosts_file d in
    if b.can_write then store (unlines lines) b else (some open_failed, b)

-- the loop of `removeBlockSection`, on its variable `inBlock`
unfoldable pub remove_from : Bool → List Text → List Text
remove_from in_block [] = []
remove_from in_block (line ∷ rest) =
    let opened = remove_from true rest in
    let closed = remove_from false rest in
    let same = remove_from in_block rest in
    if contains line block_marker_start
    then opened
    else if contains line block_marker_end
    then closed
    else if in_block
    then same
    else line ∷ same

-- `removeBlockSection`
unfoldable pub remove_block_section : List Text → List Text
unfolding remove_from
remove_block_section lines = remove_from false lines

-- The lines that block a domain and, unless it has that prefix, its `www.` name.
unfoldable pub domain_lines : Text → List Text
domain_lines domain =
    (lit "127.0.0.1 " ++ domain)
    ∷ (if has_prefix domain (lit "www.") then [] else (lit "127.0.0.1 www." ++ domain) ∷ [])

unfoldable pub all_domain_lines : List Text → List Text
unfolding domain_lines
all_domain_lines [] = []
all_domain_lines (d ∷ ds) = domain_lines d ++ all_domain_lines ds

unfoldable pub block_lines : List Text → List Text
unfolding all_domain_lines
block_lines [] = []
block_lines (d ∷ ds) = block_marker_start ∷ (all_domain_lines (d ∷ ds) ++ (block_marker_end ∷ []))

-- `delete(h.domains, domain)` and `h.domains[domain] = true`
unfoldable pub without : Text → List Text → List Text
without d ds = select (λ e. not (text_eq d e)) ds

unfoldable pub with_domain : Text → List Text → List Text
with_domain d ds = if elem d ds then ds else d ∷ ds

-- the domain as the manager keeps it
unfoldable pub normalize : Text → Text
unfolding trim_space to_lower
normalize d = to_lower (trim_space d)

-- the loop of `SetDomains` over its argument
unfoldable pub collect : List Text → List Text → List Text
unfolding normalize with_domain
collect acc [] = acc
collect acc (d ∷ ds) = collect (if is_nil d then acc else with_domain (normalize d) acc) ds

-- What both `applyBlocks` and `removeBlocks` do with the lines that were read.
unfoldable pub save :
    (List Text → List Text) → Manager → Result HostsError (List Text) → Option HostsError × Manager
unfolding remove_block_section write_hosts_file
save add h (err e) = (some e, h)
save add h (ok content) =
    let (e, d) = write_hosts_file (add (remove_block_section content)) h.disk in
    (e, record h { disk = d })

module _ (range : List Text → List Text) where
  -- `applyBlocks`
  unfoldable pub apply_blocks : Manager → Option HostsError × Manager
  unfolding read_hosts_file block_lines save
  apply_blocks h =
      save (λ content. content ++ block_lines (range h.domains)) h (read_hosts_file h.disk)

  -- `removeBlocks`
  unfoldable pub remove_blocks : Manager → Option HostsError × Manager
  unfolding read_hosts_file save
  remove_blocks h = save (λ content. content) h (read_hosts_file h.disk)

  unfoldable pub apply_if_enabled : Manager → Option HostsError × Manager
  unfolding apply_blocks
  apply_if_enabled h = if h.enabled then apply_blocks h else (none, h)

  -- `SetEnabled`
  unfoldable pub set_enabled : Bool → Manager → Option HostsError × Manager
  unfolding apply_blocks remove_blocks
  set_enabled on h =
      let h' = record h { enabled = on } in if on then apply_blocks h' else remove_blocks h'

  -- `AddDomain`
  unfoldable pub add_domain : Text → Manager → Option HostsError × Manager
  unfolding normalize with_domain apply_if_enabled
  add_domain domain h =
      if is_nil domain
      then (some empty_domain, h)
      else apply_if_enabled (record h { domains = with_domain (normalize domain) h.domains })

  -- `RemoveDomain`
  unfoldable pub remove_domain : Text → Manager → Option HostsError × Manager
  unfolding normalize without apply_if_enabled
  remove_domain domain h =
      apply_if_enabled (record h { domains = without (normalize domain) h.domains })

  -- `SetDomains`
  unfoldable pub set_domains : List Text → Manager → Option HostsError × Manager
  unfolding collect apply_if_enabled
  set_domains ds h = apply_if_enabled (record h { domains = collect [] ds })

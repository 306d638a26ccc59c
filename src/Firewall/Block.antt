-- ===== src/Firewall/Block.antt =====
-- What a successful call writes to the hosts file, and what a refused one leaves.
use mathlib.Core.List.{append-nil}
use sagiri_guard.Base.{
  ◌≡◌, refl, ap, sym, ◌∙◌, Bool, true, false, ◌||◌, List, [], ◌∷◌, ◌++◌, map, is_nil, arith, none,
  some, is_some, if◌then◌else◌, Bool-cases, inl, inr,
}
use sagiri_guard.Base.Text.{Text, lit, has_prefix, text_eq, text_eq→eq, elem, text_eq_refl}
use sagiri_guard.Base.Results.{Result, ok, err}
use sagiri_guard.Firewall.{
  Disk, Manager, HostsError, block_marker_start, block_marker_end, save, unlines, read_hosts_file,
  write_hosts_file, remove_block_section, block_lines, domain_lines, all_domain_lines, apply_blocks,
  remove_blocks, set_enabled,
}
use sagiri_guard.Firewall.Lines.{IsClean, reread, reread-append, reread-line}
use sagiri_guard.Firewall.Section.{Split, Split-removed}
use sagiri_guard.Firewall.Restore.{Visits, file_lines, read_hosts_file-lines}

-- the lines outside the section, as a write takes them up again
abbrev kept_lines : Disk → List Text
kept_lines d = remove_block_section (file_lines d.hosts)

-- what a successful write stores
write_hosts_file-ok :
    (lines : List Text) (d : Disk)
    → (write_hosts_file lines d).0 ≡ none
    → (write_hosts_file lines d).1.hosts ≡ some (unlines lines)
unfolding write_hosts_file
write_hosts_file-ok lines d h = ground arith

save-ok :
    (add : List Text → List Text) (h : Manager) (r : Result HostsError (List Text))
    → read_hosts_file h.disk ≡ r
    → (save add h r).0 ≡ none
    → (save add h r).1.disk.hosts ≡ some (unlines (add (kept_lines h.disk)))
unfolding save
save-ok add h (err e) read fine = cc
save-ok add h (ok content) read fine =
    rw (← read_hosts_file-lines h.disk content read)
      (write_hosts_file-ok (add (remove_block_section content)) h.disk fine)

-- A write that may not open the file leaves its bytes and fails.
save-denied :
    (add : List Text → List Text) (h : Manager) (r : Result HostsError (List Text))
    → h.disk.can_write ≡ false
    → (is_some (save add h r).0 ≡ true)
      × ((save add h r).1.disk.hosts ≡ h.disk.hosts)
      × ((save add h r).1.enabled ≡ h.enabled)
unfolding save write_hosts_file
save-denied add h (err e) d = (refl, refl, refl)
save-denied add h (ok content) d = ground arith

abbrev pub blocking_line : Text → Text
blocking_line d = lit "127.0.0.1 " ++ d

-- the names that blocking a list of domains blocks
unfoldable pub blocked_names : List Text → List Text
blocked_names [] = []
blocked_names (d ∷ ds) =
    let rest = blocked_names ds in
    if has_prefix d (lit "www.") then d ∷ rest else d ∷ ((lit "www." ++ d) ∷ rest)

-- the section that blocks names; there is none when there are no names
unfoldable pub section_of : List Text → List Text
section_of [] = []
section_of (k ∷ ks) = block_marker_start ∷ (map blocking_line (k ∷ ks) ++ (block_marker_end ∷ []))

all_domain_lines-names :
    (ds : List Text) → all_domain_lines ds ≡ map blocking_line (blocked_names ds)
unfolding all_domain_lines domain_lines blocked_names
all_domain_lines-names [] = refl
all_domain_lines-names (d ∷ ds) = elim (Bool-cases (has_prefix d (lit "www."))) [
  | inl e ↦ rw (e, all_domain_lines-names ds) refl
  | inr e ↦ rw (e, all_domain_lines-names ds) refl
]

section_of-cons :
    (ks : List Text)
    → is_nil ks ≡ false
    → section_of ks ≡ block_marker_start ∷ (map blocking_line ks ++ (block_marker_end ∷ []))
unfolding section_of
section_of-cons [] h = cc
section_of-cons (k ∷ ks) h = refl

block_lines-section_of : (ds : List Text) → block_lines ds ≡ section_of (blocked_names ds)
unfolding block_lines
block_lines-section_of [] = unfold blocked_names section_of in refl
block_lines-section_of (d ∷ ds) =
    ap (λ l. block_marker_start ∷ (l ++ (block_marker_end ∷ []))) (all_domain_lines-names (d ∷ ds))
    ∙ sym (section_of-cons (blocked_names (d ∷ ds)) (unfold blocked_names in ground arith))

module _ (range : List Text → List Text) where
  -- what a call that succeeds writes
  set_enabled-saved :
      (on : Bool) (h : Manager)
      → (set_enabled range on h).0 ≡ none
      → (set_enabled range on h).1.disk.hosts
        ≡ some (unlines (kept_lines h.disk ++ (if on then block_lines (range h.domains) else [])))
  unfolding set_enabled apply_blocks remove_blocks
  set_enabled-saved true h fine =
      save-ok (λ c. c ++ block_lines (range h.domains)) (record h { enabled = true })
        (read_hosts_file h.disk) refl fine
  set_enabled-saved false h fine =
      rw append-nil
        (save-ok (λ c. c) (record h { enabled = false }) (read_hosts_file h.disk) refl fine)

  -- When the lines outside the section of the hosts file, which may stand before and behind it, are
  -- `us`, the file after `SetEnabled(true)` without an error is `us`, then, if the manager has
  -- domains, the start marker, one line `127.0.0.1 <name>` for each domain and each `www.` name of a
  -- domain without that prefix, and the end marker; after `SetEnabled(false)` without an error it is
  -- `us` alone.
  pub set_enabled-content :
      (on : Bool) (us : List Text) (h : Manager)
      → Split us (file_lines h.disk.hosts)
      → (set_enabled range on h).0 ≡ none
      → (set_enabled range on h).1.disk.hosts
        ≡ some (unlines (us ++ (if on then section_of (blocked_names (range h.domains)) else [])))
  set_enabled-content true us h split fine =
      rw
        (
          ← Split-removed us (file_lines h.disk.hosts) split,
          ← block_lines-section_of (range h.domains),
        )
        (set_enabled-saved true h fine)
  set_enabled-content false us h split fine =
      rw (← Split-removed us (file_lines h.disk.hosts) split) (set_enabled-saved false h fine)

  -- Without the right to write, `SetEnabled` fails and leaves the file, but the flag has changed.
  pub set_enabled_denied :
      (on : Bool) (h : Manager)
      → h.disk.can_write ≡ false
      → (is_some (set_enabled range on h).0 ≡ true)
        × ((set_enabled range on h).1.disk.hosts ≡ h.disk.hosts)
        × ((set_enabled range on h).1.enabled ≡ on)
  unfolding set_enabled apply_blocks remove_blocks
  set_enabled_denied true h d =
      save-denied (λ c. c ++ block_lines (range h.domains)) (record h { enabled = true })
        (read_hosts_file h.disk) d
  set_enabled_denied false h d =
      save-denied (λ c. c) (record h { enabled = false }) (read_hosts_file h.disk) d

elem-append : (k : Text) (xs ys : List Text) → elem k (xs ++ ys) ≡ (elem k xs || elem k ys)
unfolding elem
elem-append k [] ys = refl
elem-append k (x ∷ xs) ys = ground (arith, elem-append k xs ys)

elem-append_left : (k : Text) (xs ys : List Text) → elem k xs ≡ true → elem k (xs ++ ys) ≡ true
elem-append_left k xs ys h = elem-append k xs ys ∙ ground arith

elem-append_right : (k : Text) (xs ys : List Text) → elem k ys ≡ true → elem k (xs ++ ys) ≡ true
elem-append_right k xs ys h = elem-append k xs ys ∙ ground arith

elem-head : (k : Text) (xs : List Text) → elem k (k ∷ xs) ≡ true
unfolding elem
elem-head k xs = rw (text_eq_refl k)

-- A clean line that is written is found by the next scan, whatever stands round it.
elem-reread : (l : Text) (ls : List Text) → IsClean l → elem l ls ≡ true → elem l (reread ls) ≡ true
elem-reread l [] c h = unfold elem in cc h
elem-reread l (x ∷ ls) c h = elim (Bool-cases (text_eq l x)) [
  | inl same ↦
      rw (reread-append (x ∷ []) ls, ← text_eq→eq l x same, reread-line l c)
        (elem-append_left l (l ∷ []) (reread ls) (elem-head l []))
  | inr other ↦ rw (reread-append (x ∷ []) ls) (
      elem-append_right l (reread (x ∷ [])) (reread ls)
        (elem-reread l ls c (unfold elem in ground arith)))
]

elem-domain_lines : (d : Text) → elem (blocking_line d) (domain_lines d) ≡ true
unfolding domain_lines
elem-domain_lines d = elem-head (blocking_line d) _

elem-all_domain_lines :
    (d : Text) (ds : List Text)
    → elem d ds ≡ true
    → elem (blocking_line d) (all_domain_lines ds) ≡ true
unfolding all_domain_lines
elem-all_domain_lines d [] h = unfold elem in cc h
elem-all_domain_lines d (x ∷ ds) h = elim (Bool-cases (text_eq d x)) [
  | inl same ↦ rw (← text_eq→eq d x same) (
      elem-append_left (blocking_line d) (domain_lines d) (all_domain_lines ds)
        (elem-domain_lines d))
  | inr other ↦
      elem-append_right (blocking_line d) (domain_lines x) (all_domain_lines ds)
        (elem-all_domain_lines d ds (unfold elem in ground arith))
]

elem-block_lines :
    (d : Text) (ds : List Text) → elem d ds ≡ true → elem (blocking_line d) (block_lines ds) ≡ true
unfolding block_lines
elem-block_lines d [] h = unfold elem in cc h
elem-block_lines d (x ∷ ds) h = elem-append_right (blocking_line d) (block_marker_start ∷ []) _ (
    elem-append_left (blocking_line d) (all_domain_lines (x ∷ ds)) _
      (elem-all_domain_lines d (x ∷ ds) h))

-- After `SetEnabled(true)` without an error, where the range over the domains visits exactly
-- these, each domain of the manager whose line has no line break inside has its line `127.0.0.1
-- <domain>` in the file, as a reader scans it.
pub set_enabled_blocks :
    (range : List Text → List Text) (h : Manager) (d : Text)
    → Visits range
    → (set_enabled range true h).0 ≡ none
    → elem d h.domains ≡ true
    → IsClean (blocking_line d)
    → elem (blocking_line d) (file_lines (set_enabled range true h).1.disk.hosts) ≡ true
unfolding reread
set_enabled_blocks range h d visits fine mem clean = rw (set_enabled-saved range true h fine) (
    elem-reread (blocking_line d) (kept_lines h.disk ++ block_lines (range h.domains)) clean (
      elem-append_right (blocking_line d) (kept_lines h.disk) (block_lines (range h.domains))
        (elem-block_lines d (range h.domains) (visits h.domains d ∙ mem))))

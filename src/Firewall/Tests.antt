-- ===== src/Firewall/Tests.antt =====
-- Runs of the firewall's methods on small hosts files.
use sagiri_guard.Base.{◌≡◌, refl, true, false, List, [], ◌∷◌, ◌++◌, none, some, is_some}
use sagiri_guard.Base.Text.{Text, lit, elem, text_eq, contains}
use sagiri_guard.Firewall.{
  Disk, Manager, block_marker_start, block_marker_end, set_enabled, scan_lines, raw_lines, drop_cr,
  unlines, read_hosts_file, write_hosts_file, backup_hosts_file, store, save, apply_blocks,
}
use sagiri_guard.Firewall.Section.{Split, around}
use sagiri_guard.Firewall.Restore.{enable, add, Owns, run, run-Owns, file_lines, Visits}
use sagiri_guard.Firewall.Block.{
  set_enabled-content, set_enabled_denied, set_enabled_blocks, blocking_line, blocked_names,
  section_of,
}

abbrev host_line : Text
host_line = lit "127.0.0.1 localhost"

abbrev writable : Disk
writable = record {
  hosts = some (unlines (host_line ∷ []));
  backup = none;
  can_read = true;
  can_write = true;
  can_backup = true;
  room = none;
}

abbrev one_domain : Manager
one_domain = record { enabled = false; domains = lit "ads.example" ∷ []; disk = writable }

abbrev in_order : List Text → List Text
in_order ds = ds

abbrev visits_all : Visits in_order
visits_all ds d = refl

abbrev own_lines : List Text
own_lines = host_line ∷ (lit "10.0.0.1 printer" ∷ [])

-- a section stands between the two lines of the user
abbrev with_section : Manager
with_section = record one_domain {
  disk = record writable {
    hosts = some (
        unlines (
          host_line
          ∷ (block_marker_start
              ∷ (lit "127.0.0.1 old.example"
                  ∷ (block_marker_end ∷ (lit "10.0.0.1 printer" ∷ []))))));
  };
}

own_lines-Split : Split own_lines (file_lines with_section.disk.hosts)
unfolding scan_lines raw_lines drop_cr unlines contains
own_lines-Split =
    around (host_line ∷ []) (lit "127.0.0.1 old.example" ∷ []) (lit "10.0.0.1 printer" ∷ []) refl
      refl ((refl, refl), tt) ((refl, refl), tt) ((refl, refl), tt)

run-Owns_example :
    Owns own_lines
      (run in_order (enable true ∷ add (lit "b.example") ∷ enable false ∷ []) with_section)
run-Owns_example =
    run-Owns in_order visits_all own_lines ((refl, refl), ((refl, refl), tt))
      (enable true ∷ add (lit "b.example") ∷ enable false ∷ []) with_section
      (record { names = (refl, tt); kept = own_lines-Split; unlimited = refl })

applied : (set_enabled in_order true one_domain).0 ≡ none
unfolding set_enabled apply_blocks save read_hosts_file write_hosts_file backup_hosts_file store
    scan_lines raw_lines drop_cr unlines
applied = refl

applied_again : (set_enabled in_order true with_section).0 ≡ none
unfolding set_enabled apply_blocks save read_hosts_file write_hosts_file backup_hosts_file store
    scan_lines raw_lines drop_cr unlines
applied_again = refl

set_enabled-content_example :
    (set_enabled in_order true with_section).1.disk.hosts
    ≡ some (unlines (own_lines ++ section_of (blocked_names (lit "ads.example" ∷ []))))
set_enabled-content_example =
    set_enabled-content in_order true own_lines with_section own_lines-Split applied_again

set_enabled_denied_example :
    let locked : Manager = record one_domain { disk = record writable { can_write = false } } in
    (is_some (set_enabled in_order true locked).0 ≡ true)
    × ((set_enabled in_order true locked).1.disk.hosts ≡ writable.hosts)
    × ((set_enabled in_order true locked).1.enabled ≡ true)
set_enabled_denied_example =
    set_enabled_denied in_order true
      (record one_domain { disk = record writable { can_write = false } }) refl

listed : elem (lit "ads.example") one_domain.domains ≡ true
unfolding elem text_eq
listed = refl

set_enabled_blocks_example :
    elem
      (blocking_line (lit "ads.example"))
      (file_lines (set_enabled in_order true one_domain).1.disk.hosts)
    ≡ true
set_enabled_blocks_example =
    set_enabled_blocks in_order one_domain (lit "ads.example") visits_all applied listed
      (refl, refl)

-- ===== src/Commands/BlockWebsite/Tests.antt =====
-- Runs of the command on one rule.
use sagiri_guard.Base.{◌≡◌, refl, true, false, List, [], ◌∷◌, none, some, inl}
use sagiri_guard.Base.Text.{
  Text, lit, elem, text_eq, contains, has_prefix, to_lower, trim_space, trim_left, trim_right,
}
use sagiri_guard.Firewall.{
  Manager, block_marker_start, block_marker_end, unlines, normalize, with_domain, set_domains,
  collect, without, set_enabled, apply_if_enabled, apply_blocks, remove_blocks, save,
  read_hosts_file, write_hosts_file, backup_hosts_file, store, scan_lines, raw_lines, drop_cr,
  remove_block_section, remove_from,
}
use sagiri_guard.Firewall.Restore.{file_lines, Visits}
use sagiri_guard.Firewall.Section.{Split, around}
use sagiri_guard.Commands.BlockWebsite.{Arg, handle_once, add_rules, add_rule, enable_with}
use sagiri_guard.Commands.BlockWebsite.Domains.{handle_once_blocks, handle_once_unblocks, Asked}

abbrev manager : Manager
manager = record {
  enabled = true;
  domains = [];
  disk = record {
    hosts = some (unlines (lit "127.0.0.1 localhost" ∷ []));
    backup = none;
    can_read = true;
    can_write = true;
    can_backup = true;
    room = none;
  };
}

abbrev sync_one : Arg
sync_one = record {
  action = "sync";
  rules =
      record { id = 1; type = "domain"; category = ""; domain = lit "Ads.example"; enabled = true }
      ∷ [];
  status = some true;
}

abbrev remove_all : Arg
remove_all = record { action = "remove"; rules = []; status = none }

abbrev in_order : List Text → List Text
in_order ds = ds

abbrev visits_all : Visits in_order
visits_all ds d = refl

synced : (handle_once in_order (some sync_one) manager).0 ≡ none
unfolding handle_once add_rules add_rule with_domain enable_with set_domains collect without elem
    text_eq normalize to_lower trim_space trim_left trim_right set_enabled apply_if_enabled
    apply_blocks save read_hosts_file write_hosts_file backup_hosts_file store scan_lines raw_lines
    drop_cr unlines contains
synced = refl

handle_once_blocks_example :
    ((handle_once in_order (some sync_one) manager).1.enabled ≡ true)
    × ((e : Text)
        → Asked sync_one.rules e
        → elem (normalize e) (handle_once in_order (some sync_one) manager).1.domains ≡ true)
    × ((k : Text)
        → elem k (handle_once in_order (some sync_one) manager).1.domains ≡ true
        → (e : Text) × Asked sync_one.rules e × (k ≡ normalize e))
handle_once_blocks_example =
    handle_once_blocks in_order sync_one manager visits_all (inl refl) refl synced

-- a hosts file with a section between two lines of the user's
abbrev blocking : Manager
blocking = record manager {
  disk = record manager.disk {
    hosts = some (
        unlines (
          lit "127.0.0.1 localhost"
          ∷ (block_marker_start
              ∷ (lit "127.0.0.1 ads.example"
                  ∷ (block_marker_end ∷ (lit "10.0.0.1 printer" ∷ []))))));
  };
}

abbrev own_lines : List Text
own_lines = lit "127.0.0.1 localhost" ∷ (lit "10.0.0.1 printer" ∷ [])

own_lines-Split : Split own_lines (file_lines blocking.disk.hosts)
unfolding scan_lines raw_lines drop_cr unlines contains
own_lines-Split =
    around (lit "127.0.0.1 localhost" ∷ []) (lit "127.0.0.1 ads.example" ∷ [])
      (lit "10.0.0.1 printer" ∷ []) refl refl ((refl, refl), tt) ((refl, refl), tt)
      ((refl, refl), tt)

removed : (handle_once in_order (some remove_all) blocking).0 ≡ none
unfolding handle_once set_enabled remove_blocks save read_hosts_file write_hosts_file
    backup_hosts_file store scan_lines raw_lines drop_cr unlines remove_block_section remove_from
    contains has_prefix
removed = refl

handle_once_unblocks_example :
    ((handle_once in_order (some remove_all) blocking).1.disk.hosts ≡ some (unlines own_lines))
    × ((handle_once in_order (some remove_all) blocking).1.enabled ≡ false)
    × ((handle_once in_order (some remove_all) blocking).1.domains ≡ blocking.domains)
handle_once_unblocks_example =
    handle_once_unblocks in_order remove_all own_lines blocking own_lines-Split (inl refl) removed

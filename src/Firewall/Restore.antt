-- ===== src/Firewall/Restore.antt =====
-- The user's lines of the hosts file under every method of the manager.
use mathlib.Core.List.{append-nil}
use sagiri_guard.Base.{
  ◌≡◌, refl, ap, sym, ◌∙◌, Bool, true, false, List, [], ◌∷◌, ◌++◌, arith, is_nil, All, Option, none,
  some, if◌then◌else◌, Bool-cases, inl, inr,
}
use sagiri_guard.Base.Text.{
  Text, text_eq, text_eq→eq, elem, to_lower-any-is_upper, text_eq_refl, trim_space,
}
use sagiri_guard.Base.Results.{Result, ok, err}
use sagiri_guard.Firewall.{
  Disk, Manager, HostsError, empty_domain, save, scan_lines, unlines, read_hosts_file,
  write_hosts_file, remove_block_section, block_lines, without, with_domain, normalize, collect,
  apply_blocks, remove_blocks, apply_if_enabled, set_enabled, add_domain, remove_domain,
  set_domains,
}
use sagiri_guard.Firewall.Lines.{IsClean, reread}
use sagiri_guard.Firewall.Section.{IsLower, Split, Split-removed, Split-IsUser, Split-reread}

-- the lines that a scan of the file finds; a missing file has none
abbrev pub file_lines : Option Text → List Text
file_lines none = []
file_lines (some s) = scan_lines s

-- Every name that the manager keeps has gone through `strings.ToLower`.
normalize-IsLower : (d : Text) → IsLower (normalize d)
unfolding normalize
normalize-IsLower d = to_lower-any-is_upper (trim_space d)

with_domain-IsLower :
    (d : Text) (ds : List Text) → IsLower d → All IsLower ds → All IsLower (with_domain d ds)
unfolding with_domain
with_domain-IsLower d ds h k = ground arith

without-IsLower : (d : Text) (ds : List Text) → All IsLower ds → All IsLower (without d ds)
unfolding without
without-IsLower d [] h = tt
without-IsLower d (e ∷ ds) h = ground (arith, without-IsLower d ds h.1)

collect-IsLower : (acc ds : List Text) → All IsLower acc → All IsLower (collect acc ds)
unfolding collect
collect-IsLower acc [] h = h
collect-IsLower acc (d ∷ ds) h =
    collect-IsLower (if is_nil d then acc else with_domain (normalize d) acc) ds
      (ground (arith, with_domain-IsLower (normalize d) acc (normalize-IsLower d)))

IsLower_of_elem : (ds : List Text) (d : Text) → All IsLower ds → elem d ds ≡ true → IsLower d
unfolding elem
IsLower_of_elem [] d h e = cc
IsLower_of_elem (x ∷ ds) d h e = elim (Bool-cases (text_eq d x)) [
  | inl same ↦ rw (text_eq→eq d x same) h.0
  | inr other ↦ IsLower_of_elem ds d h.1 (ground arith)
]

elem-cons : (d x : Text) (ds : List Text) → elem d ds ≡ true → elem d (x ∷ ds) ≡ true
unfolding elem
elem-cons d x ds h = ground arith

elem_self : (d : Text) (ds : List Text) → elem d (d ∷ ds) ≡ true
unfolding elem
elem_self d ds = rw (text_eq_refl d)

All_of_elem :
    (P : Text → Type 0) (ds : List Text) → ((d : Text) → elem d ds ≡ true → P d) → All P ds
All_of_elem P [] h = tt
All_of_elem P (x ∷ ds) h =
    (h x (elem_self x ds), All_of_elem P ds (λ d e. h d (elem-cons d x ds e)))

-- A write that does not fail stores exactly the lines; one that fails to open the file stores none.
abbrev Written : List Text → Disk → Option HostsError × Disk → Type 0
Written lines d (none, d') = (d'.hosts ≡ some (unlines lines)) × (d'.room ≡ none)
Written lines d (some e, d') = (d'.hosts ≡ d.hosts) × (d'.room ≡ none)

write_hosts_file-Written :
    (lines : List Text) (d : Disk) → d.room ≡ none → Written lines d (write_hosts_file lines d)
unfolding write_hosts_file
write_hosts_file-Written lines d r = ground arith

pub read_hosts_file-lines :
    (d : Disk) (ls : List Text) → read_hosts_file d ≡ ok ls → ls ≡ file_lines d.hosts
unfolding read_hosts_file
read_hosts_file-lines d ls h = ground arith

-- The user's lines survive a write of themselves and a block, whether or not the file opens.
rewritten :
    (us ds : List Text) (d : Disk) (r : Option HostsError × Disk)
    → All IsClean us
    → All IsLower ds
    → Split us (file_lines d.hosts)
    → Written (us ++ block_lines ds) d r
    → Split us (file_lines r.1.hosts) × (r.1.room ≡ none)
unfolding reread
rewritten us ds d (none, d') clean low kept w =
    (rw w.0 (Split-reread us ds clean (Split-IsUser us (file_lines d.hosts) kept) low), w.1)
rewritten us ds d (some e, d') clean low kept w = (rw w.0 kept, w.1)

-- The manager of a host whose own lines are `us`: its names are in lower case, and the device has
-- room for every write.
pub record Owns (us : List Text) (h : Manager) : Type 0 where
  pub names : All IsLower h.domains
  pub kept : Split us (file_lines h.disk.hosts)
  pub unlimited : h.disk.room ≡ none

module _ {us : List Text} where
  Owns-if :
      (b : Bool) (x y : Option HostsError × Manager)
      → Owns us x.1
      → Owns us y.1
      → Owns us (if b then x else y).1
  Owns-if true x y h k = h
  Owns-if false x y h k = k

  Owns-written :
      (h : Manager) {d : Disk}
      → Owns us h
      → Split us (file_lines d.hosts) × (d.room ≡ none)
      → Owns us (record h { disk = d })
  Owns-written h o k = record { names = o.names; kept = k.0; unlimited = k.1 }

-- one call of a method, or a change of what the operating system permits
pub data Op : Type 0 where
  enable : Bool → Op
  add remove : Text → Op
  replace : List Text → Op
  permit : Bool → Bool → Bool → Op

-- A range over a map visits each key once, in any order: what the program relies on.
abbrev pub Visits : (List Text → List Text) → Type 0
Visits range = (ds : List Text) (d : Text) → elem d (range ds) ≡ elem d ds

module _ (range : List Text → List Text) where
  -- a call's new state, whether or not it fails
  pub step : Op → Manager → Manager
  unfolding set_enabled add_domain remove_domain set_domains
  step (enable on) h = (set_enabled range on h).1
  step (add d) h = (add_domain range d h).1
  step (remove d) h = (remove_domain range d h).1
  step (replace ds) h = (set_domains range ds h).1
  step (permit r w b) h = record h {
    disk = record h.disk { can_read = r; can_write = w; can_backup = b };
  }

  pub run : List Op → Manager → Manager
  run [] h = h
  run (o ∷ os) h = run os (step o h)

module _ (range : List Text → List Text) (visits : Visits range) (us : List Text)
    (clean : All IsClean us) where
  range-IsLower : (ds : List Text) → All IsLower ds → All IsLower (range ds)
  range-IsLower ds h =
      All_of_elem IsLower (range ds) (λ d e. IsLower_of_elem ds d h (sym (visits ds d) ∙ e))

  save-Owns :
      (ds : List Text) (h : Manager) (r : Result HostsError (List Text))
      → All IsLower ds
      → Owns us h
      → read_hosts_file h.disk ≡ r
      → Owns us (save (λ content. content ++ block_lines ds) h r).1
  unfolding save
  save-Owns ds h (err e) low o read = o
  save-Owns ds h (ok content) low o read =
      let lines : remove_block_section content ≡ us =
        ap remove_block_section (read_hosts_file-lines h.disk content read)
        ∙ Split-removed us (file_lines h.disk.hosts) o.kept in
      rw lines (
        Owns-written h o (
          rewritten us ds h.disk (write_hosts_file (us ++ block_lines ds) h.disk) clean low o.kept
            (write_hosts_file-Written (us ++ block_lines ds) h.disk o.unlimited)))

  apply_blocks-Owns : (h : Manager) → Owns us h → Owns us (apply_blocks range h).1
  unfolding apply_blocks
  apply_blocks-Owns h o =
      save-Owns (range h.domains) h (read_hosts_file h.disk) (range-IsLower h.domains o.names) o
        refl

  save-nothing :
      (h : Manager) (r : Result HostsError (List Text))
      → save (λ content. content ++ block_lines []) h r ≡ save (λ content. content) h r
  unfolding save block_lines
  save-nothing h (err e) = refl
  save-nothing h (ok content) = rw append-nil

  remove_blocks-Owns : (h : Manager) → Owns us h → Owns us (remove_blocks range h).1
  unfolding remove_blocks
  remove_blocks-Owns h o =
      rw (save-nothing h (read_hosts_file h.disk)) at
        (save-Owns [] h (read_hosts_file h.disk) tt o refl)

  apply_if_enabled-Owns : (h : Manager) → Owns us h → Owns us (apply_if_enabled range h).1
  unfolding apply_if_enabled
  apply_if_enabled-Owns h o =
      Owns-if h.enabled (apply_blocks range h) (none, h) (apply_blocks-Owns h o) o

  step-Owns : (o : Op) (h : Manager) → Owns us h → Owns us (step range o h)
  unfolding step set_enabled add_domain remove_domain set_domains
  step-Owns (enable true) h o =
      apply_blocks-Owns (record h { enabled = true })
        (record { names = o.names; kept = o.kept; unlimited = o.unlimited })
  step-Owns (enable false) h o =
      remove_blocks-Owns (record h { enabled = false })
        (record { names = o.names; kept = o.kept; unlimited = o.unlimited })
  step-Owns (add d) h o =
      let h' = record h { domains = with_domain (normalize d) h.domains } in
      Owns-if (is_nil d) (some empty_domain, h) (apply_if_enabled range h') o
        (apply_if_enabled-Owns h' (record {
          names = with_domain-IsLower (normalize d) h.domains (normalize-IsLower d) o.names;
          kept = o.kept;
          unlimited = o.unlimited;
        }))
  step-Owns (remove d) h o =
      apply_if_enabled-Owns (record h { domains = without (normalize d) h.domains })
        (record {
          names = without-IsLower (normalize d) h.domains o.names;
          kept = o.kept;
          unlimited = o.unlimited;
        })
  step-Owns (replace ds) h o =
      apply_if_enabled-Owns (record h { domains = collect [] ds })
        (record { names = collect-IsLower [] ds tt; kept = o.kept; unlimited = o.unlimited })
  step-Owns (permit r w b) h o = record { names = o.names; kept = o.kept; unlimited = o.unlimited }

  -- When the user's lines of the hosts file are `us`, which stand round at most one section between
  -- the two markers and hold neither, any methods and changes of permission, in any order, failing
  -- or not, leave a file whose lines outside its section, if it has one, are again `us`. The
  -- conditions: the user's lines have no line breaks inside, the manager's names start out in lower
  -- case, writes do not run out of room, and a range over the domains visits exactly these.
  pub run-Owns : (os : List Op) (h : Manager) → Owns us h → Owns us (run range os h)
  unfolding run
  run-Owns [] h o = o
  run-Owns (op ∷ os) h o = run-Owns os (step range op h) (step-Owns op h o)

-- ===== src/Commands/BlockWebsite/Domains.antt =====
-- Which domains a `block_website` command blocks.
use sagiri_guard.Base.{
  ◌≡◌, refl, sym, ◌∙◌, Bool, true, false, not, ◌&&◌, ◌||◌, List, [], ◌∷◌, arith, is_nil, any,
  Option, none, some, ◌==◌, eq_iff, if◌then◌else◌, inl, inr, ◌⊎◌,
}
use sagiri_guard.Base.Text.{Text, text_eq, elem}
use sagiri_guard.Firewall.{
  unlines, Manager, HostsError, with_domain, normalize, collect, set_enabled, set_domains,
}
use sagiri_guard.Firewall.Categories.{get_domains_by_category}
use sagiri_guard.Firewall.Names.{
  From, elem-with_domain, elem-collect, elem-collect-origin, domains-set_enabled,
  enabled-set_enabled, domains-set_domains,
}
use mathlib.Core.List.{append-nil}
use sagiri_guard.Firewall.Section.{Split}
use sagiri_guard.Firewall.Block.{set_enabled-content}
use sagiri_guard.Firewall.Restore.{Visits, file_lines}
use sagiri_guard.Commands.BlockWebsite.{
  Rule, Arg, add_all, add_rule, add_rules, is_disabled, failing, enable_with, handle_once,
  disable_failed,
}

-- Whether an enabled rule asks for the name: by its category, or as its domain.
abbrev pub names : Text → Rule → Bool
names d rule =
    rule.enabled
    && (if rule.type == "category"
        then elem d (get_domains_by_category rule.category)
        else (rule.type == "domain" && not (is_nil rule.domain)) && text_eq d rule.domain)

elem-add_all : (k : Text) (ds acc : List Text) → elem k (add_all ds acc) ≡ (elem k ds || elem k acc)
unfolding add_all elem
elem-add_all k [] acc = refl
elem-add_all k (d ∷ ds) acc =
    ground (arith, elem-add_all k ds (with_domain d acc), elem-with_domain k d acc)

elem-add_rule :
    (k : Text) (rule : Rule) (acc : List Text)
    → elem k (add_rule rule acc) ≡ (names k rule || elem k acc)
unfolding add_rule
elem-add_rule k rule acc = ground (
  arith,
  elem-add_all k (get_domains_by_category rule.category) acc,
  elem-with_domain k rule.domain acc,
)

elem-add_rules :
    (k : Text) (rules : List Rule) (acc : List Text)
    → elem k (add_rules rules acc) ≡ (any (names k) rules || elem k acc)
unfolding add_rules
elem-add_rules k [] acc = refl
elem-add_rules k (rule ∷ rules) acc =
    ground (arith, elem-add_rules k rules (add_rule rule acc), elem-add_rule k rule acc)

-- A name that an enabled rule asks for.
abbrev pub Asked : List Rule → Text → Type 0
Asked rules e = (any (names e) rules ≡ true) × (is_nil e ≡ false)

module _ (range : List Text → List Text) where
  enable_with-domains :
      (r : Option HostsError × Manager) → (enable_with range r).1.domains ≡ r.1.domains
  unfolding enable_with
  enable_with-domains (some e, h) = refl
  enable_with-domains (none, h) = ground (arith, domains-set_enabled range true h)

  enable_with-enabled :
      (r : Option HostsError × Manager)
      → (enable_with range r).0 ≡ none
      → (enable_with range r).1.enabled ≡ true
  unfolding enable_with
  enable_with-enabled (some e, h) fine = cc
  enable_with-enabled (none, h) fine = ground (arith, enabled-set_enabled range true h)

  elem-asked :
      Visits range
      → (rules : List Rule) (e : Text) → elem e (range (add_rules rules [])) ≡ any (names e) rules
  elem-asked visits rules e =
      visits (add_rules rules []) e ∙ elem-add_rules e rules [] ∙ unfold elem in ground arith

  -- What the branch that enables leaves in the manager, whatever the disk does.
  collected :
      (rules : List Rule) (h : Manager)
      → (enable_with range (set_domains range (range (add_rules rules [])) h)).1.domains
        ≡ collect [] (range (add_rules rules []))
  collected rules h =
      enable_with-domains (set_domains range (range (add_rules rules [])) h)
      ∙ domains-set_domains range (range (add_rules rules [])) h

  name_origin :
      Visits range
      → (rules : List Rule) (k : Text) → From k (range (add_rules rules []))
      → (e : Text) × Asked rules e × (k ≡ normalize e)
  name_origin visits rules k (e, mem, n, q) = (e, (sym (elem-asked visits rules e) ∙ mem, n), q)

  enabling_lem :
      Visits range
      → (rules : List Rule) (h : Manager)
      → let (x, h') = enable_with range (set_domains range (range (add_rules rules [])) h) in
        x ≡ none
        → (h'.enabled ≡ true)
          × ((e : Text) → Asked rules e → elem (normalize e) h'.domains ≡ true)
          × ((k : Text) → elem k h'.domains ≡ true → (e : Text) × Asked rules e × (k ≡ normalize e))
  enabling_lem visits rules h fine =
      let ds = range (add_rules rules []) in
      (
        enable_with-enabled (set_domains range ds h) fine,
        λ e asked.
            rw (collected rules h)
              (elem-collect e [] ds (elem-asked visits rules e ∙ asked.0) asked.1),
        λ k mem. elim (elem-collect-origin k [] ds (rw (collected rules h) at mem)) [
          | inl absurd_mem ↦ unfold elem in cc absurd_mem
          | inr f ↦ name_origin visits rules k f
        ],
      )

  handle_once-enabling :
      (a : Arg) (h : Manager)
      → (a.action ≡ "sync") ⊎ (a.action ≡ "apply")
      → is_disabled a.status ≡ false
      → handle_once range (some a) h
        ≡ enable_with range (set_domains range (range (add_rules a.rules [])) h)
  unfolding handle_once
  handle_once-enabling a h act on = ground (arith, eq_iff a.action "sync", eq_iff a.action "apply")

  -- A command "sync" or "apply" that does not switch blocking off and returns no error, where
  -- ranges over maps visit exactly their keys, leaves the manager enabled, with exactly the names
  -- that the enabled rules ask for: every such name that is not empty is in its list, trimmed and
  -- in lower case, and nothing else is.
  pub handle_once_blocks :
      (a : Arg) (h : Manager)
      → Visits range
      → (a.action ≡ "sync") ⊎ (a.action ≡ "apply")
      → is_disabled a.status ≡ false
      → (handle_once range (some a) h).0 ≡ none
      → ((handle_once range (some a) h).1.enabled ≡ true)
        × ((e : Text)
            → Asked a.rules e
            → elem (normalize e) (handle_once range (some a) h).1.domains ≡ true)
        × ((k : Text)
            → elem k (handle_once range (some a) h).1.domains ≡ true
            → (e : Text) × Asked a.rules e × (k ≡ normalize e))
  handle_once_blocks a h visits act on fine =
      let e = handle_once-enabling a h act on in rw e (enabling_lem visits a.rules h (rw e at fine))

  switch_off :
      (us : List Text) (h : Manager)
      → Split us (file_lines h.disk.hosts)
      → (failing disable_failed (set_enabled range false h)).0 ≡ none
      → let h' = (failing disable_failed (set_enabled range false h)).1 in
        (h'.disk.hosts ≡ some (unlines us)) × (h'.enabled ≡ false) × (h'.domains ≡ h.domains)
  switch_off us h split fine = ground (
    arith,
    set_enabled-content range false us h split,
    enabled-set_enabled range false h,
    domains-set_enabled range false h,
    append-nil us,
  )

  handle_once-disabling :
      (a : Arg) (h : Manager)
      → (a.action ≡ "remove")
        ⊎ (((a.action ≡ "sync") ⊎ (a.action ≡ "apply")) × (is_disabled a.status ≡ true))
      → handle_once range (some a) h ≡ failing disable_failed (set_enabled range false h)
  unfolding handle_once
  handle_once-disabling a h (inl e) = rw e
  handle_once-disabling a h (inr e) =
      ground (arith, eq_iff a.action "sync", eq_iff a.action "apply")

  -- When the lines outside the section of the hosts file, which may stand before and behind it, are
  -- `us`, a command that switches blocking off and returns no error leaves the file with exactly
  -- these lines, switches the manager off, and keeps its list of names.
  pub handle_once_unblocks :
      (a : Arg) (us : List Text) (h : Manager)
      → Split us (file_lines h.disk.hosts)
      → (a.action ≡ "remove")
        ⊎ (((a.action ≡ "sync") ⊎ (a.action ≡ "apply")) × (is_disabled a.status ≡ true))
      → (handle_once range (some a) h).0 ≡ none
      → ((handle_once range (some a) h).1.disk.hosts ≡ some (unlines us))
        × ((handle_once range (some a) h).1.enabled ≡ false)
        × ((handle_once range (some a) h).1.domains ≡ h.domains)
  handle_once_unblocks a us h split off fine =
      let e = handle_once-disabling a h off in rw e (switch_off us h split (rw e at fine))

-- ===== src/Commands/BlockWebsite.antt =====
-- The `block_website` command of agent/internal/command/handlers.go: from the rules that the
-- backend sends to calls of the hosts manager.
pub mod Domains
mod Tests
use sagiri_guard.Base.{
  ℕ, ◌≡◌, Bool, true, false, not, ◌&&◌, ◌||◌, List, [], ◌∷◌, ◌++◌, Option, none, some, String, ◌==◌,
  is_nil, if◌then◌else◌,
}
use sagiri_guard.Base.Text.{Text, elem}
use sagiri_guard.Firewall.{HostsError, Manager, set_domains, set_enabled, with_domain}
use sagiri_guard.Firewall.Categories.{get_domains_by_category}

-- `blockWebsiteRule`; its field `Type`
pub record Rule : Type 0 where
  pub id : ℕ
  pub type : String
  pub category : String
  pub domain : Text
  pub enabled : Bool

-- `blockWebsiteArg`, and the flag of its `blockWebsiteStatus`
pub record Arg : Type 0 where
  pub action : String
  pub rules : List Rule
  pub status : Option Bool

pub data HandleError : Type 0 where
  disable_failed set_domains_failed enable_failed : HostsError → HandleError
  unknown_action invalid_argument : HandleError

-- the keys that a list of names leaves in `domainsToBlock`
pub add_all : List Text → List Text → List Text
unfolding with_domain
add_all [] acc = acc
add_all (d ∷ ds) acc = add_all ds (with_domain d acc)

-- one round of the loop over the rules, on `domainsToBlock`
pub add_rule : Rule → List Text → List Text
unfolding add_all with_domain get_domains_by_category
add_rule rule acc =
    if not rule.enabled
    then acc
    else if rule.type == "category"
    then add_all (get_domains_by_category rule.category) acc
    else if rule.type == "domain" && not (is_nil rule.domain)
    then with_domain rule.domain acc
    else acc

pub add_rules : List Rule → List Text → List Text
unfolding add_rule
add_rules [] acc = acc
add_rules (rule ∷ rules) acc = add_rules rules (add_rule rule acc)

-- `a.Status != nil && !a.Status.Enabled`
abbrev pub is_disabled : Option Bool → Bool
is_disabled none = false
is_disabled (some on) = not on

abbrev pub failing :
    (HostsError → HandleError) → Option HostsError × Manager → Option HandleError × Manager
failing wrap (none, h) = (none, h)
failing wrap (some e, h) = (some (wrap e), h)

module _ (range : List Text → List Text) where
  -- the end of the case "sync", "apply": `SetDomains` and then `SetEnabled(true)`
  pub enable_with : Option HostsError × Manager → Option HandleError × Manager
  unfolding set_enabled
  enable_with (some e, h) = (some (set_domains_failed e), h)
  enable_with (none, h) = failing enable_failed (set_enabled range true h)

  -- `HandleOnce`; a nil argument is `none`, and both ranges over maps take the order that `range`
  -- gives
  pub handle_once : Option Arg → Manager → Option HandleError × Manager
  unfolding add_rules enable_with set_domains set_enabled
  handle_once none h = (some invalid_argument, h)
  handle_once (some a) h =
      if a.action == "sync" || a.action == "apply"
      then if is_disabled a.status
        then failing disable_failed (set_enabled range false h)
        else enable_with (set_domains range (range (add_rules a.rules [])) h)
      else if a.action == "remove"
      then failing disable_failed (set_enabled range false h)
      else (some unknown_action, h)

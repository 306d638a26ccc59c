-- ===== src/Firewall/Names.antt =====
-- The manager's list of domains as a set: which names each method leaves in it.
use sagiri_guard.Base.{
  ◌≡◌, refl, ◌∙◌, Bool, true, false, ◌||◌, List, [], ◌∷◌, ◌++◌, arith, is_nil, if◌then◌else◌,
  Bool-cases, inl, inr, ◌⊎◌,
}
use sagiri_guard.Base.Text.{Text, text_eq, text_eq→eq, elem, text_eq_refl}
use sagiri_guard.Base.Results.{Result, ok, err}
use sagiri_guard.Firewall.{
  Manager, HostsError, save, read_hosts_file, block_lines, with_domain, normalize, collect,
  apply_blocks, remove_blocks, set_enabled, set_domains,
}

elem_of_eq :
    (k d : Text) (ds : List Text) → text_eq k d ≡ true → elem d ds ≡ true → elem k ds ≡ true
elem_of_eq k d ds e h = rw (text_eq→eq k d e) h

pub elem-with_domain :
    (k d : Text) (ds : List Text) → elem k (with_domain d ds) ≡ (text_eq k d || elem k ds)
unfolding with_domain elem
elem-with_domain k d ds = ground (arith, elem_of_eq k d ds)

pub elem-collect_acc :
    (k : Text) (acc ds : List Text) → elem k acc ≡ true → elem k (collect acc ds) ≡ true
unfolding collect
elem-collect_acc k acc [] h = h
elem-collect_acc k acc (d ∷ ds) h =
    elem-collect_acc k (if is_nil d then acc else with_domain (normalize d) acc) ds
      (ground (arith, elem-with_domain k (normalize d) acc))

-- Each name that is not empty is in the list, trimmed and in lower case.
pub elem-collect :
    (e : Text) (acc ds : List Text)
    → elem e ds ≡ true
    → is_nil e ≡ false
    → elem (normalize e) (collect acc ds) ≡ true
unfolding collect
elem-collect e acc [] h n = unfold elem in cc h
elem-collect e acc (d ∷ ds) h n = elim (Bool-cases (text_eq e d)) [
  | inl same ↦
      rw (← text_eq→eq e d same, n)
        (elem-collect_acc (normalize e) (with_domain (normalize e) acc) ds
          (elem-with_domain (normalize e) (normalize e) acc ∙ rw (text_eq_refl (normalize e))))
  | inr other ↦
      elem-collect e (if is_nil d then acc else with_domain (normalize d) acc) ds
        (unfold elem in ground arith) n
]

-- where a name of the list comes from
abbrev pub From : Text → List Text → Type 0
From k ds = (e : Text) × (elem e ds ≡ true) × (is_nil e ≡ false) × (k ≡ normalize e)

From-cons : (k d : Text) (ds : List Text) → From k ds → From k (d ∷ ds)
From-cons k d ds (e, h, n, q) = (e, unfold elem in ground arith, n, q)

elem-collect_step :
    (k d : Text) (acc : List Text)
    → elem k (if is_nil d then acc else with_domain (normalize d) acc) ≡ true
    → (elem k acc ≡ true) ⊎ ((is_nil d ≡ false) × (text_eq k (normalize d) ≡ true))
elem-collect_step k d acc h = ground (arith, elem-with_domain k (normalize d) acc)

-- A name of the list was there before, or it is one of the arguments.
pub elem-collect-origin :
    (k : Text) (acc ds : List Text)
    → elem k (collect acc ds) ≡ true
    → (elem k acc ≡ true) ⊎ From k ds
unfolding collect
elem-collect-origin k acc [] h = inl h
elem-collect-origin k acc (d ∷ ds) h =
    elim (elem-collect-origin k (if is_nil d then acc else with_domain (normalize d) acc) ds h) [
      | inr f ↦ inr (From-cons k d ds f)
      | inl g ↦ elim (elem-collect_step k d acc g) [
        | inl old ↦ inl old
        | inr (n, e) ↦ inr (d, unfold elem in rw (text_eq_refl d), n, text_eq→eq k (normalize d) e)
      ]
    ]

domains-save :
    (add : List Text → List Text) (h : Manager) (r : Result HostsError (List Text))
    → (save add h r).1.domains ≡ h.domains
unfolding save
domains-save add h (err e) = refl
domains-save add h (ok content) = refl

enabled-save :
    (add : List Text → List Text) (h : Manager) (r : Result HostsError (List Text))
    → (save add h r).1.enabled ≡ h.enabled
unfolding save
enabled-save add h (err e) = refl
enabled-save add h (ok content) = refl

module _ (range : List Text → List Text) where
  pub enabled-set_enabled : (on : Bool) (h : Manager) → (set_enabled range on h).1.enabled ≡ on
  unfolding set_enabled apply_blocks remove_blocks
  enabled-set_enabled true h =
      enabled-save (λ c. c ++ block_lines (range h.domains)) (record h { enabled = true })
        (read_hosts_file h.disk)
  enabled-set_enabled false h =
      enabled-save (λ c. c) (record h { enabled = false }) (read_hosts_file h.disk)

  pub domains-set_enabled :
      (on : Bool) (h : Manager) → (set_enabled range on h).1.domains ≡ h.domains
  unfolding set_enabled apply_blocks remove_blocks
  domains-set_enabled true h =
      domains-save (λ c. c ++ block_lines (range h.domains)) (record h { enabled = true })
        (read_hosts_file h.disk)
  domains-set_enabled false h =
      domains-save (λ c. c) (record h { enabled = false }) (read_hosts_file h.disk)

  pub domains-set_domains :
      (ds : List Text) (h : Manager) → (set_domains range ds h).1.domains ≡ collect [] ds
  unfolding set_domains apply_blocks
  domains-set_domains ds h = ground (
    arith,
    domains-save (λ c. c ++ block_lines (range (collect [] ds)))
        (record h { domains = collect [] ds }) (read_hosts_file h.disk),
  )

-- ===== src/Backend/Tree/Deletion/Laws.antt =====
-- backend/app/repo/filetree_repo.go: what a deletion of an item leaves, and that an upsert does not
-- bring back what was deleted.
use mathlib.Core.Path.{subst}
use sagiri_guard.Base.{
  ℕ, ◌≡◌, refl, sym, ap, ◌∙◌, Bool, true, false, ◌&&◌, Bool-cases, inl, inr, Option, none, some,
  String, ◌==◌, eq_iff, eq_refl, if◌then◌else◌,
}
use sagiri_guard.Base.Results.{ok}
use sagiri_guard.Base.Keyed.{passing, changed}
use sagiri_guard.Backend.Tree.{Database, Item, Tree, is_item, found_item, remove_links}
use sagiri_guard.Backend.Tree.Runs.{and_then-ok, wrote-ok, transaction-ok, wrote_keeps, found-ok}
use sagiri_guard.Backend.Tree.Deletion.{
  delete_row, delete_file_of, delete_folder_of, delete_item_row, soft_delete_item, delete_found,
  delete_item,
}

module _ (B : Database) where
  -- the items are those of a tree
  abbrev Same : Tree B → Tree B → Type 0
  Same t u = u.items ≡ t.items

  links_keep : (id : String) (t v : Tree B) → Same v t → Same v (remove_links B id t).1
  unfolding remove_links
  links_keep id t v h =
      wrote_keeps B (Same v) (B.links.remove id t.links) (λ s. record t { links = s }) t (λ s. h) h

  file_keeps :
      (now : ℕ) (device : String) (o : Option String) (t v : Tree B)
      → Same v t
      → Same v (delete_file_of B now device o t).1
  unfolding delete_file_of
  file_keeps now device none t v h = h
  file_keeps now device (some id) t v h =
      wrote_keeps B (Same v) _ (λ s. record t { files = s }) t (λ s. h) h

  folder_keeps :
      (now : ℕ) (device : String) (o : Option String) (t v : Tree B)
      → Same v t
      → Same v (delete_folder_of B now device o t).1
  unfolding delete_folder_of
  folder_keeps now device none t v h = h
  folder_keeps now device (some id) t v h =
      wrote_keeps B (Same v) _ (λ s. record t { folders = s }) t (λ s. h) h

  -- the same, with a condition on the other IDs
  abbrev Clears : String → String → Tree B → Tree B → Type 0
  Clears device id t u =
      (passing (is_item B device) (B.items.at id u.items) ≡ none)
      × ((j : String) → (id == j) ≡ false → B.items.at j u.items ≡ B.items.at j t.items)

  passing-changed :
      (now : ℕ) (device : String) (o : Option Item)
      → passing (is_item B device) (changed (is_item B device) (delete_row now) o) ≡ none
  unfolding delete_row
  passing-changed now device none = refl
  passing-changed now device (some r) = elim (Bool-cases (is_item B device r)) [
    | inl e ↦
        rw e
          (ap (λ b. if b then some (delete_row now r) else none) (and_no (r.device_uuid == device)))
    | inr e ↦ rw (e, e)
  ]
    where
      and_no : (b : Bool) → (b && false) ≡ false
      and_no true = refl
      and_no false = refl

  row_gone :
      (now : ℕ) (device id : String) (t v : Tree B) (b : Bool) (u : Tree B)
      → Same v t
      → delete_item_row B now device id t ≡ (ok b, u)
      → Clears device id v u
  unfolding delete_item_row
  row_gone now device id t v b u h e =
      let done =
        wrote-ok B (B.items.update id (is_item B device) (delete_row now) t.items)
          (λ s. record t { items = s }) t b u e in
      let same : u.items ≡ done.0 = sym (ap (λ x. x.items) done.1.1) in
      let at = B.items.update_at id (is_item B device) (delete_row now) t.items done.0 done.1.0 in
      (
        ap (λ s. passing (is_item B device) (B.items.at id s)) same
            ∙ (ap (passing (is_item B device)) (at id)
                ∙ (ap
                      (λ c. passing (is_item B device) (
                        if c
                        then changed (is_item B device) (delete_row now) (B.items.at id t.items)
                        else B.items.at id t.items))
                      (eq_refl id)
                    ∙ passing-changed now device (B.items.at id t.items))),
        λ j n.
            ap (B.items.at j) same
            ∙ (at j
                ∙ (ap
                      (λ c.
                        if c
                        then changed (is_item B device) (delete_row now) (B.items.at id t.items)
                        else B.items.at j t.items)
                      n
                    ∙ ap (B.items.at j) h)),
      )

  soft_gone :
      (now : ℕ) (device id : String) (item : Item) (t : Tree B) (b : Bool) (u : Tree B)
      → soft_delete_item B now device id item t ≡ (ok b, u)
      → Clears device id t u
  unfolding soft_delete_item
  soft_gone now device id item t b u e =
      let one = and_then-ok B (remove_links B id t) _ b u e in
      let two = and_then-ok B (delete_file_of B now device item.file_id one.1.0) _ b u one.1.1.1 in
      let three =
        and_then-ok B (delete_folder_of B now device item.folder_id two.1.0) _ b u two.1.1.1 in
      let k1 : Same t one.1.0 = sym (ap (λ r. r.1.items) one.1.1.0) ∙ links_keep id t t refl in
      let k2 : Same t two.1.0 =
        sym (ap (λ r. r.1.items) two.1.1.0) ∙ file_keeps now device item.file_id one.1.0 t k1 in
      let k3 : Same t three.1.0 =
        sym (ap (λ r. r.1.items) three.1.1.0)
        ∙ folder_keeps now device item.folder_id two.1.0 t k2 in
      row_gone now device id three.1.0 t b u k3 three.1.1.1

  found_gone :
      (now : ℕ) (device id : String) (o : Option Item) (t : Tree B) (b : Bool) (u : Tree B)
      → o ≡ passing (is_item B device) (B.items.at id t.items)
      → delete_found B now device id o t ≡ (ok b, u)
      → Clears device id t u
  unfolding delete_found
  found_gone now device id none t b u q e =
      let same : u ≡ t = sym (ap (λ r. r.1) e) in
      subst (Clears device id t) (sym same) (sym q, λ j n. refl)
  found_gone now device id (some item) t b u q e = soft_gone now device id item t b u e

  -- the item of an ID is not live, and every other item is as it was
  abbrev pub IsGone : String → String → Tree B → Tree B → Type 0
  IsGone device id t u =
      (passing (is_item B device) (B.items.at id u.items) ≡ none)
      × ((j : String)
          → B.items.at j u.items
            ≡ (if id == j then B.items.at id u.items else B.items.at j t.items))

  Clears-IsGone : (device id : String) (t u : Tree B) → Clears device id t u → IsGone device id t u
  Clears-IsGone device id t u h = (
    h.0,
    λ j. elim (Bool-cases (id == j)) [
      | inl e ↦ rw e (ap (λ k. B.items.at k u.items) (sym ((eq_iff id j).0 e)))
      | inr e ↦ rw e (h.1 j e)
    ],
  )

  -- For all databases, times, devices and IDs that are not empty: after a deletion by ID that
  -- succeeds, no live item of the device has the ID, and the items of all other IDs are as they were.
  pub deleted-IsGone :
      (now : ℕ) (device id : String) (t : Tree B) (b : Bool) (u : Tree B)
      → (id == "") ≡ false
      → delete_item B now device id t ≡ (ok b, u)
      → IsGone device id t u
  unfolding delete_item
  deleted-IsGone now device id t b u n e =
      let run = transaction-ok B t _ b u (rw n at e) in
      let found =
        and_then-ok B (found_item B (B.items.get id (is_item B device) t.items) t)
          (λ o t. delete_found B now device id o t) b u run in
      let q =
        found-ok B (B.items.get id (is_item B device) t.items) t found.0 found.1.0 found.1.1.0 in
      Clears-IsGone device id t u (
        found_gone now device id found.0 t b u
          (B.items.get_at id (is_item B device) t.items found.0 q.0)
          (ap (delete_found B now device id found.0) (sym q.1) ∙ found.1.1.1))

-- ===== src/Backend/Tree/Paths/Upward.antt =====
-- backend/app/services/filetree_service.go and backend/app/repo/filetree_repo.go: after upsertPath,
-- going up from the item gives the path back.
use mathlib.Core.Path.{subst}
use sagiri_guard.Base.{
  ℕ, ◌≡◌, refl, sym, ap, ◌∙◌, Bool, true, false, not, ◌&&◌, Bool-cases, inl, inr, List, [], ◌∷◌,
  ◌++◌, Option, none, some, String, ◌==◌, eq_refl, if◌then◌else◌, is_nil, All,
}
use sagiri_guard.Base.Results.{ok, ok_eq}
use sagiri_guard.Base.Keyed.{updated}
use sagiri_guard.Base.Text.{Text}
use sagiri_guard.Changes.{FileChange}
use sagiri_guard.Backend.Tree.{
  Database, Item, Tree, Run, and_then, replace_content_types, update_item, upsert_file,
  upsert_folder, upsert_item, upsert_last, upsert_step, upsert_segments, deterministic_id,
  file_node, file_item, folder_node, folder_item,
}
use sagiri_guard.Backend.Tree.Runs.{failed_not_ok, and_then-ok, wrote-ok, types_keep}
use sagiri_guard.Backend.Tree.Paths.Chains.{Entries, top, IsPlaced, IsChain, IsChain-keep}

module _ (B : Database) (device : String) where
  -- the entries that an upsert of a change stores, above those that it has
  unfoldable pub grown : FileChange → List Text → List Text → Entries → Entries
  grown c before [] up = up
  grown c before (s ∷ ss) up =
      let rest : Entries =
        grown c (before ++ (s ∷ [])) ss
          ((deterministic_id B device (before ++ (s ∷ [])), s) ∷ up) in
      if is_nil ss && not c.is_dir then (c.id, c.current_name) ∷ up else rest

  -- no ID is empty, and each differs from those above it
  abbrev pub IsApart : Entries → Type 0
  IsApart [] = Unit
  IsApart ((id, name) ∷ up) =
      ((id == "") ≡ false) × (All (λ e. (id == e.0) ≡ false) up × IsApart up)

  grown-IsApart :
      (c : FileChange) (before ss : List Text) (up : Entries)
      → IsApart (grown c before ss up)
      → IsApart up
  unfolding grown
  grown-IsApart c before [] up h = h
  grown-IsApart c before (s ∷ ss) up h = elim (Bool-cases (is_nil ss && not c.is_dir)) [
    | inl e ↦ let k : IsApart ((c.id, c.current_name) ∷ up) = rw e at h in k.1.1
    | inr e ↦
        let id : String = deterministic_id B device (before ++ (s ∷ [])) in
        let k : IsApart (grown c (before ++ (s ∷ [])) ss ((id, s) ∷ up)) = rw e at h in
        (grown-IsApart c (before ++ (s ∷ [])) ss ((id, s) ∷ up) k).1.1
  ]

  updated-IsPlaced :
      (item : Item) (name : Text) (parent : Option String) (o : Option Item)
      → IsPlaced device name parent item
      → IsPlaced device name parent (updated (update_item item) item o)
  unfolding update_item
  updated-IsPlaced item name parent none h = h
  updated-IsPlaced item name parent (some old) h = h

  -- an upsert of an item on top of a chain
  upsert-IsChain :
      (item : Item) (name : Text) (up : Entries) (t : Tree B) (b : Bool) (u : Tree B)
      → upsert_item B item t ≡ (ok b, u)
      → (item.id == "") ≡ false
      → IsPlaced device name (top up) item
      → All (λ e. (item.id == e.0) ≡ false) up
      → IsChain B device up t.items
      → IsChain B device ((item.id, name) ∷ up) u.items
  unfolding upsert_item
  upsert-IsChain item name up t b u e n placed fresh chain =
      let done = wrote-ok B (B.items.upsert item.id item (update_item item) t.items) _ t b u e in
      let at = B.items.upsert_at item.id item (update_item item) t.items done.0 done.1.0 in
      let old : Option Item = B.items.at item.id t.items in
      let row : Item = updated (update_item item) item old in
      let stored : B.items.at item.id done.0 ≡ some row =
        at item.id ∙ ap (λ c. if c then some row else old) (eq_refl item.id) in
      let others : (j : String)
          → (item.id == j) ≡ false
          → B.items.at j done.0 ≡ B.items.at j t.items =
        λ j d. at j ∙ ap (λ c. if c then some row else B.items.at j t.items) d in
      subst (IsChain B device ((item.id, name) ∷ up)) (ap (λ x. x.items) done.1.1) (
        n,
        (
          (row, (stored, updated-IsPlaced item name (top up) old placed)),
          IsChain-keep B device up item.id t.items done.0 fresh others chain,
        ),
      )

  file_same :
      (node : _) (t : Tree B) (b : Bool) (u : Tree B)
      → upsert_file B node t ≡ (ok b, u)
      → t.items ≡ u.items
  unfolding upsert_file
  file_same node t b u e =
      ap (λ x. x.items) (wrote-ok B _ (λ s. record t { files = s }) t b u e).1.1

  folder_same :
      (node : _) (t : Tree B) (b : Bool) (u : Tree B)
      → upsert_folder B node t ≡ (ok b, u)
      → t.items ≡ u.items
  unfolding upsert_folder
  folder_same node t b u e =
      ap (λ x. x.items) (wrote-ok B _ (λ s. record t { folders = s }) t b u e).1.1

  -- content types do not touch the items
  types_same :
      (id : String) (ids : List ℕ) (t v : Tree B)
      → t.items ≡ v.items
      → (replace_content_types B id ids t).1.items ≡ v.items
  types_same id ids t v h = types_keep B (λ x. x.items ≡ v.items) id ids t (λ u s k. k) h

  step-IsChain :
      (id : String) (name : Text) (up : Entries) (t : Tree B) (item : Item) (u : Tree B)
      → upsert_step B device id name (top up) t ≡ (ok item, u)
      → (id == "") ≡ false
      → All (λ e. (id == e.0) ≡ false) up
      → IsChain B device up t.items
      → IsChain B device ((id, name) ∷ up) u.items
        × ((item.name ≡ name) × (item.parent_id ≡ top up))
  unfolding upsert_step
  step-IsChain id name up t item u e n fresh chain =
      let new : Item = folder_item B device id name (top up) in
      let one = and_then-ok B (upsert_folder B (folder_node B device id) t) _ item u e in
      let two = and_then-ok B (upsert_item B new one.1.0) (λ _ t. (ok new, t)) item u one.1.1.1 in
      let same = folder_same (folder_node B device id) t one.0 one.1.0 one.1.1.0 in
      let grew =
        upsert-IsChain new name up one.1.0 two.0 two.1.0 two.1.1.0 n (eq_refl device, (refl, refl))
          fresh (subst (IsChain B device up) same chain) in
      (
        subst (λ x. IsChain B device ((id, name) ∷ up) x.items) (ap (λ r. r.1) two.1.1.1) grew,
        subst (λ i. (i.name ≡ name) × (i.parent_id ≡ top up)) (ok_eq (ap (λ r. r.0) two.1.1.1))
            (refl, refl),
      )

  last_result :
      (b : Bool) (new : Item) (t : Tree B) (r : Run B Bool) (item : Option Item) (u : Tree B)
      → r.1.items ≡ t.items
      → (if b then (ok (some new), t) else and_then B r (λ _ t. (ok (some new), t))) ≡ (ok item, u)
      → (u.items ≡ t.items) × (item ≡ some new)
  last_result true new t r item u h e = (sym (ap (λ x. x.1.items) e), sym (ok_eq (ap (λ x. x.0) e)))
  last_result false new t r item u h e =
      let done = and_then-ok B r (λ _ t. (ok (some new), t)) item u e in
      (
        sym (ap (λ x. x.1.items) done.1.1.1) ∙ (sym (ap (λ x. x.1.items) done.1.1.0) ∙ h),
        sym (ok_eq (ap (λ x. x.0) done.1.1.1)),
      )

  -- the tree after a file was stored
  last-IsChain :
      (now : ℕ) (c : FileChange) (up : Entries) (t : Tree B) (item : Option Item) (u : Tree B)
      → upsert_last B now device c (top up) t ≡ (ok item, u)
      → All (λ e. (c.id == e.0) ≡ false) up
      → IsChain B device up t.items
      → IsChain B device ((c.id, c.current_name) ∷ up) u.items
        × (item ≡ some (file_item B device c (top up)))
  unfolding upsert_last
  last-IsChain now c up t item u e fresh chain = elim (Bool-cases (c.id == "")) [
    | inl n ↦ absurd (failed_not_ok B _ t u item (rw n at e))
    | inr n ↦
        let new : Item = file_item B device c (top up) in
        let run = rw n at e in
        let one = and_then-ok B (upsert_file B (file_node B device c now) t) _ item u run in
        let two = and_then-ok B (upsert_item B new one.1.0) _ item u one.1.1.1 in
        let same = file_same (file_node B device c now) t one.0 one.1.0 one.1.1.0 in
        let grew =
          upsert-IsChain new c.current_name up one.1.0 two.0 two.1.0 two.1.1.0 n
            (eq_refl device, (refl, refl)) fresh (subst (IsChain B device up) same chain) in
        let end =
          last_result (is_nil c.content_types) new two.1.0
            (replace_content_types B c.id c.content_types two.1.0) item u
            (types_same c.id c.content_types two.1.0 two.1.0 refl) two.1.1.1 in
        (subst (IsChain B device ((c.id, c.current_name) ∷ up)) (sym end.0) grew, end.1)
  ]

  -- the last item of an upsert stands at the end of a chain
  abbrev pub IsEnd : Entries → Option Item → Type 0
  IsEnd [] item = item ≡ none
  IsEnd ((id, name) ∷ up) item =
      (i : Item) × ((item ≡ some i) × ((i.name ≡ name) × (i.parent_id ≡ top up)))

  pub segments-IsChain :
      (now : ℕ) (c : FileChange) (before ss : List Text) (up : Entries) (last : Option Item)
      (t : Tree B) (item : Option Item) (u : Tree B)
      → upsert_segments B now device c before ss (top up) last t ≡ (ok item, u)
      → IsApart (grown c before ss up)
      → IsEnd up last
      → IsChain B device up t.items
      → IsChain B device (grown c before ss up) u.items × IsEnd (grown c before ss up) item
  unfolding upsert_segments grown
  segments-IsChain now c before [] up last t item u e apart end chain = (
    subst (λ x. IsChain B device up x.items) (ap (λ r. r.1) e) chain,
    subst (IsEnd up) (ok_eq (ap (λ r. r.0) e)) end,
  )
  segments-IsChain now c before (s ∷ ss) up last t item u e apart end chain =
      elim (Bool-cases (is_nil ss && not c.is_dir)) [
        | inl f ↦
            let a : IsApart ((c.id, c.current_name) ∷ up) = rw f at apart in
            let done = last-IsChain now c up t item u (rw f at e) a.1.0 chain in
            rw f (done.0, (file_item B device c (top up), (done.1, (refl, refl))))
        | inr f ↦
            let id : String = deterministic_id B device (before ++ (s ∷ [])) in
            let a : IsApart (grown c (before ++ (s ∷ [])) ss ((id, s) ∷ up)) = rw f at apart in
            let here = grown-IsApart c (before ++ (s ∷ [])) ss ((id, s) ∷ up) a in
            let one =
              and_then-ok B (upsert_step B device id s (top up) t)
                (λ i t. upsert_segments B now device c (before ++ (s ∷ [])) ss (some id) (some i) t)
                item u (rw f at e) in
            let step = step-IsChain id s up t one.0 one.1.0 one.1.1.0 here.0 here.1.0 chain in
            rw f (
              segments-IsChain now c (before ++ (s ∷ [])) ss ((id, s) ∷ up) (some one.0) one.1.0
                item u one.1.1.1 a (one.0, (refl, step.1)) step.0)
      ]

-- ===== src/Backend/Tree/Deletion/Stays.antt =====
-- backend/app/services/filetree_service.go: an upsert of a path keeps the time of deletion of the
-- items that it overwrites.
use sagiri_guard.Base.{
  ℕ, ◌≡◌, refl, ap, ◌∙◌, not, ◌&&◌, Bool-cases, inl, inr, List, [], ◌∷◌, ◌++◌, Option, none, some,
  String, ◌==◌, eq_iff, if◌then◌else◌, is_nil,
}
use sagiri_guard.Base.Results.{ok}
use sagiri_guard.Base.Keyed.{updated}
use sagiri_guard.Base.Text.{Text}
use sagiri_guard.Changes.{FileChange}
use sagiri_guard.Backend.Tree.{
  Database, Item, Tree, Run, and_then, wrote, replace_content_types, update_item, upsert_file,
  upsert_folder, upsert_item, upsert_last, upsert_step, upsert_segments, upsert_path, file_node,
  file_item, folder_node, folder_item, deterministic_id,
}
use sagiri_guard.Backend.Tree.Runs.{wrote_keeps, run_keeps, if_keeps, types_keep}

module _ (B : Database) (id : String) (d : ℕ) where
  -- the item of the ID was deleted at the time
  unfoldable pub IsDeleted : Tree B → Type 0
  IsDeleted t = (i : Item) × ((B.items.at id t.items ≡ some i) × (i.deleted_at ≡ some d))

  and_then_keeps :
      {A C : Type 0} (r : Run B A) (k : A → Tree B → Run B C)
      → IsDeleted r.1
      → ((a : A) (t : Tree B) → IsDeleted t → IsDeleted (k a t).1)
      → IsDeleted (and_then B r k).1
  and_then_keeps r k h f = run_keeps B IsDeleted r k h f

  upsert_item_keeps : (item : Item) (t : Tree B) → IsDeleted t → IsDeleted (upsert_item B item t).1
  unfolding IsDeleted upsert_item
  upsert_item_keeps item t h = written (B.items.upsert item.id item (update_item item) t.items) refl
    where
      written :
          (o : Option B.items.State)
          → B.items.upsert item.id item (update_item item) t.items ≡ o
          → IsDeleted (wrote B o (λ s. record t { items = s }) t).1
      written none e = h
      written (some s) e =
          let at = B.items.upsert_at item.id item (update_item item) t.items s e id in
          elim (Bool-cases (item.id == id)) [
            | inl q ↦
                let found : B.items.at item.id t.items ≡ some h.0 =
                  ap (λ k. B.items.at k t.items) ((eq_iff item.id id).0 q) ∙ h.1.0 in
                (
                  update_item item h.0,
                  (
                    at
                        ∙ (ap
                              (λ b.
                                if b
                                then some
                                    (updated (update_item item) item (B.items.at item.id t.items))
                                else B.items.at id t.items)
                              q
                            ∙ ap (λ o. some (updated (update_item item) item o)) found),
                    unfold update_item in h.1.1,
                  ),
                )
            | inr q ↦ (
              h.0,
              (
                at
                    ∙ (ap
                          (λ b.
                            if b
                            then some (updated (update_item item) item (B.items.at item.id t.items))
                            else B.items.at id t.items)
                          q
                        ∙ h.1.0),
                h.1.1,
              ),
            )
          ]

  upsert_file_keeps : (node : _) (t : Tree B) → IsDeleted t → IsDeleted (upsert_file B node t).1
  unfolding IsDeleted upsert_file
  upsert_file_keeps node t h = wrote_keeps B IsDeleted _ (λ s. record t { files = s }) t (λ s. h) h

  upsert_folder_keeps : (node : _) (t : Tree B) → IsDeleted t → IsDeleted (upsert_folder B node t).1
  unfolding IsDeleted upsert_folder
  upsert_folder_keeps node t h =
      wrote_keeps B IsDeleted _ (λ s. record t { folders = s }) t (λ s. h) h

  replace_keeps :
      (item : String) (ids : List ℕ) (t : Tree B)
      → IsDeleted t
      → IsDeleted (replace_content_types B item ids t).1
  unfolding IsDeleted
  replace_keeps item ids t h = types_keep B IsDeleted item ids t (λ u s k. k) h

  last_keeps :
      (now : ℕ) (device : String) (c : FileChange) (parent : Option String) (t : Tree B)
      → IsDeleted t
      → IsDeleted (upsert_last B now device c parent t).1
  unfolding upsert_last
  last_keeps now device c parent t h = elim (Bool-cases (c.id == "")) [
    | inl e ↦ rw e h
    | inr e ↦ rw e (
        and_then_keeps (upsert_file B (file_node B device c now) t) _ (upsert_file_keeps _ t h)
          (λ a t k.
            and_then_keeps (upsert_item B (file_item B device c parent) t) _
              (upsert_item_keeps _ t k)
              (λ a t k. if_keeps B IsDeleted (is_nil c.content_types) _ _ k (
                and_then_keeps (replace_content_types B c.id c.content_types t) _
                  (replace_keeps c.id c.content_types t k) (λ a t k. k)))))
  ]

  step_keeps :
      (device folder : String) (name : Text) (parent : Option String) (t : Tree B)
      → IsDeleted t
      → IsDeleted (upsert_step B device folder name parent t).1
  unfolding upsert_step
  step_keeps device folder name parent t h =
      and_then_keeps (upsert_folder B (folder_node B device folder) t) _
        (upsert_folder_keeps (folder_node B device folder) t h)
        (λ a t k.
          and_then_keeps (upsert_item B (folder_item B device folder name parent) t)
            (λ a t. (ok (folder_item B device folder name parent), t))
            (upsert_item_keeps (folder_item B device folder name parent) t k) (λ a t k. k))

  segments_keep :
      (now : ℕ) (device : String) (c : FileChange) (before segments : List Text)
      (parent : Option String) (last : Option Item) (t : Tree B)
      → IsDeleted t
      → IsDeleted (upsert_segments B now device c before segments parent last t).1
  unfolding upsert_segments
  segments_keep now device c before [] parent last t h = h
  segments_keep now device c before (s ∷ ss) parent last t h =
      let id : String = deterministic_id B device (before ++ (s ∷ [])) in
      if_keeps B IsDeleted (is_nil ss && not c.is_dir) _ _ (last_keeps now device c parent t h) (
        and_then_keeps (upsert_step B device id s parent t) _ (step_keeps device id s parent t h)
          (λ item t k.
            segments_keep now device c (before ++ (s ∷ [])) ss (some id) (some item) t k))

  -- For all databases, times, devices and changes: an item that was deleted is still deleted, at the
  -- same time, after an upsert of a path, whether it succeeds or not, and also when the path's own
  -- items have that ID: a file or a folder that is made again stays deleted.
  pub stays-IsDeleted :
      (now : ℕ) (device : String) (c : FileChange) (t : Tree B)
      → IsDeleted t
      → IsDeleted (upsert_path B now device c t).1
  unfolding upsert_path
  stays-IsDeleted now device c t h = segments_keep now device c [] _ none none t h

-- ===== src/Backend/Tree/Deletion.antt =====
-- backend/app/repo/filetree_repo.go and backend/app/services/filetree_service.go: soft deletion, and
-- the changes of an agent that are applied one after another.
use sagiri_guard.Base.{
  ℕ, Bool, true, false, not, ◌&&◌, List, [], ◌∷◌, ◌++◌, Option, none, some, String, ◌==◌,
  if◌then◌else◌, nat_eq, is_nil,
}
use sagiri_guard.Base.Results.{Result, ok, err}
use sagiri_guard.Base.Keyed.{Keyed}
use sagiri_guard.Base.Text.{Text, text_eq, split}
use sagiri_guard.Changes.{FileChange}
use sagiri_guard.Segments.{slash}
use sagiri_guard.Backend.Tree.{
  Database, FileNode, FolderNode, Item, Tree, Run, and_then, wrote, transaction, remove_links,
  is_live, is_item, found_item, deterministic_id, upsert_path,
}
pub mod Laws
pub mod Stays

-- Delete on a model with a time of deletion
unfoldable pub delete_file : ℕ → FileNode → FileNode
delete_file now r = record r { deleted_at = some now }

unfoldable pub delete_folder : ℕ → FolderNode → FolderNode
delete_folder now r = record r { deleted_at = some now }

unfoldable pub delete_row : ℕ → Item → Item
delete_row now r = record r { deleted_at = some now }

-- `strings.Trim(path, "/")`
unfoldable pub trim_left_slashes : Text → Text
trim_left_slashes [] = []
trim_left_slashes (c ∷ s) = let rest = trim_left_slashes s in if nat_eq c slash then rest else c ∷ s

unfoldable pub trim_slashes : Text → Text
trim_slashes [] = []
trim_slashes (c ∷ s) =
    let rest = trim_slashes s in if nat_eq c slash && is_nil rest then [] else c ∷ rest

module _ (B : Database) where
  unfoldable pub delete_file_of : ℕ → String → Option String → Tree B → Run B Bool
  unfolding delete_file
  delete_file_of now device none t = (ok true, t)
  delete_file_of now device (some id) t =
      wrote B
        (B.files.update id (λ r. r.device_uuid == device && is_live r.deleted_at) (delete_file now)
          t.files)
        (λ s. record t { files = s }) t

  unfoldable pub delete_folder_of : ℕ → String → Option String → Tree B → Run B Bool
  unfolding delete_folder
  delete_folder_of now device none t = (ok true, t)
  delete_folder_of now device (some id) t =
      wrote B
        (B.folders.update id (λ r. r.device_uuid == device && is_live r.deleted_at)
          (delete_folder now) t.folders)
        (λ s. record t { folders = s }) t

  unfoldable pub delete_item_row : ℕ → String → String → Tree B → Run B Bool
  unfolding delete_row
  delete_item_row now device id t =
      wrote B (B.items.update id (is_item B device) (delete_row now) t.items)
        (λ s. record t { items = s }) t

  -- `softDeleteItem`
  unfoldable pub soft_delete_item : ℕ → String → String → Item → Tree B → Run B Bool
  unfolding and_then remove_links delete_file_of delete_folder_of delete_item_row
  soft_delete_item now device id item t = and_then B (remove_links B id t) (λ _ t.
      and_then B (delete_file_of now device item.file_id t) (λ _ t.
        and_then B (delete_folder_of now device item.folder_id t)
          (λ _ t. delete_item_row now device id t)))

  -- the item of a query by ID, which has that ID
  unfoldable pub delete_found : ℕ → String → String → Option Item → Tree B → Run B Bool
  unfolding soft_delete_item
  delete_found now device id none t = (ok true, t)
  delete_found now device id (some item) t = soft_delete_item now device id item t

  -- `DeleteItem`
  unfoldable pub delete_item : ℕ → String → String → Tree B → Run B Bool
  unfolding delete_found and_then
  delete_item now device id t =
      if id == ""
      then (ok true, t)
      else transaction B t (
          and_then B (found_item B (B.items.get id (is_item B device) t.items) t)
            (λ o t. delete_found now device id o t))

  -- an item that another column gives, if the query finds one
  unfoldable pub delete_other : ℕ → String → Option (Option Item) → Tree B → Run B Bool
  unfolding soft_delete_item
  delete_other now device none t = (ok true, t)
  delete_other now device (some none) t = (ok true, t)
  delete_other now device (some (some item)) t = soft_delete_item now device item.id item t

  unfoldable pub delete_by_folder : ℕ → String → Option (Option FolderNode) → Tree B → Run B Bool
  unfolding delete_other
  delete_by_folder now device none t = (ok true, t)
  delete_by_folder now device (some none) t = (ok true, t)
  delete_by_folder now device (some (some folder)) t =
      delete_other now device
        (B.items.first (λ i. is_item B device i && same_id folder.id i.folder_id) t.items) t
    where
      same_id : String → Option String → Bool
      same_id id none = false
      same_id id (some x) = x == id

  unfoldable pub delete_by_file :
      ℕ → String → String → Option (Option FileNode) → Tree B → Run B Bool
  unfolding delete_other delete_by_folder
  delete_by_file now device id (some (some node)) t =
      delete_other now device
        (B.items.first (λ i. is_item B device i && same_id node.id i.file_id) t.items) t
    where
      same_id : String → Option String → Bool
      same_id id none = false
      same_id id (some x) = x == id
  delete_by_file now device id _ t =
      delete_by_folder now device
        (B.folders.get id (λ r. r.device_uuid == device && is_live r.deleted_at) t.folders) t

  -- the item of the path's ID, or what the other columns give
  unfoldable pub delete_by_id : ℕ → String → String → Text → Option Item → Tree B → Run B Bool
  unfolding soft_delete_item delete_by_file
  delete_by_id now device id path (some item) t = soft_delete_item now device item.id item t
  delete_by_id now device id path none t =
      delete_by_file now device id
        (B.files.first
          (λ r. r.device_uuid == device && (text_eq r.current_path path && is_live r.deleted_at))
          t.files)
        t

  -- `DeleteItemByLogicalPath`
  unfoldable pub delete_item_by_logical_path : ℕ → String → Text → Tree B → Run B Bool
  unfolding delete_by_id trim_slashes trim_left_slashes deterministic_id and_then
  delete_item_by_logical_path now device path t =
      let id : String =
        deterministic_id B device (split slash (trim_slashes (trim_left_slashes path))) in
      if is_nil path
      then (ok true, t)
      else transaction B t (
          and_then B (found_item B (B.items.get id (is_item B device) t.items) t)
            (λ o t. delete_by_id now device id path o t))

  -- after the deletion by ID: only an error leads to the path
  unfoldable pub or_by_path : ℕ → String → FileChange → Run B Bool → Run B Bool
  unfolding delete_item_by_logical_path
  or_by_path now device c (ok b, t) = (ok b, t)
  or_by_path now device c (err e, t) =
      if is_nil c.current_path
      then (err e, t)
      else delete_item_by_logical_path now device c.current_path t

  -- a round of the loop of `ApplyChanges`
  unfoldable pub apply_change : ℕ → String → FileChange → Tree B → Run B Bool
  unfolding delete_item or_by_path upsert_path and_then
  apply_change now device c t =
      if c.deleted
      then or_by_path now device c (delete_item now device c.id t)
      else and_then B (upsert_path B now device c t) (λ _ t. (ok true, t))

  -- `ApplyChanges`
  unfoldable pub apply_changes : ℕ → String → List FileChange → Tree B → Run B Bool
  unfolding apply_change and_then
  apply_changes now device [] t = (ok true, t)
  apply_changes now device (c ∷ cs) t =
      let rest : Tree B → Run B Bool = apply_changes now device cs in
      and_then B (apply_change now device c t) (λ _ t. rest t)

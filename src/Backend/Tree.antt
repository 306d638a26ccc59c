-- ===== src/Backend/Tree.antt =====
-- backend/app/repo/filetree_repo.go, backend/app/services/filetree_service.go and
-- backend/app/models/filetree.go: the tree of files that the backend keeps for each device. The
-- database's tables are interfaces; the times that gorm fills in are not modelled, but for the time
-- of a soft deletion.
use sagiri_guard.Base.{
  ℕ, zero, suc, Bool, true, false, not, ◌&&◌, List, [], ◌∷◌, ◌++◌, Option, none, some, is_some,
  String, ◌==◌, if◌then◌else◌, is_nil, map,
}
use sagiri_guard.Base.Results.{Result, ok, err}
use sagiri_guard.Base.Keyed.{Keyed}
use sagiri_guard.Base.Text.{Text, lit, trim_space, text_eq, split, join}
use sagiri_guard.Changes.{FileChange}
use sagiri_guard.Segments.{slash, split_path}
pub mod Runs
pub mod Paths
pub mod Deletion
pub mod Pages
pub mod Handler
mod Tests

pub record FileNode : Type 0 where
  pub id : String
  pub device_uuid : String
  pub origin_path : Text
  pub current_path : Text
  pub current_name : Text
  pub extension : Text
  pub size : ℕ
  pub snapshot_number : ℕ
  pub change_pending : Bool
  pub last_event_at : ℕ
  pub deleted_at : Option ℕ

pub record FolderNode : Type 0 where
  pub id : String
  pub device_uuid : String
  pub total_entries : ℕ
  pub ext_children : Text
  pub deleted_at : Option ℕ

pub record Item : Type 0 where
  pub id : String
  pub device_uuid : String
  pub name : Text
  pub parent_id : Option String
  pub file_id : Option String
  pub folder_id : Option String
  pub total_size : ℕ
  pub deleted_at : Option ℕ

-- the links of items to content types, and the content types
pub record Links : Type 1 where
  pub State : Type 0
  pub remove : String → State → Option State
  pub create : List (String × ℕ) → State → Option State
  pub content_type : ℕ → State → Option Bool

-- The tables, and what the service takes from other packages: ToSlash of filepath, and the text of
-- uuid.NewSHA1 in the namespace of URLs.
pub record Database : Type 1 where
  pub files : Keyed FileNode
  pub folders : Keyed FolderNode
  pub items : Keyed Item
  pub links : Links
  pub to_slash : Text → Text
  pub sha1 : Text → String

-- the columns that an upsert overwrites
unfoldable pub update_file : FileNode → FileNode → FileNode
update_file node old = record node { id = old.id; deleted_at = old.deleted_at }

unfoldable pub update_folder : FolderNode → FolderNode → FolderNode
update_folder node old = record node { id = old.id; deleted_at = old.deleted_at }

unfoldable pub update_item : Item → Item → Item
update_item item old = record item { id = old.id; deleted_at = old.deleted_at }

-- `fallback`
unfoldable pub fallback : List Text → Text
fallback [] = []
fallback (v ∷ vs) = if is_nil (trim_space v) then fallback vs else v

-- the time of a deletion, on a row that is not deleted
abbrev pub is_live : Option ℕ → Bool
is_live d = not (is_some d)

module _ (B : Database) where
  pub record Tree : Type 0 where
    pub files : B.files.State
    pub folders : B.folders.State
    pub items : B.items.State
    pub links : B.links.State

  abbrev pub Run : Type 0 → Type 0
  Run A = Result String A × Tree

  -- `if err != nil { return err }`; what was written stays
  unfoldable pub and_then : {A C : Type 0} → Run A → (A → Tree → Run C) → Run C
  and_then (ok a, t) k = k a t
  and_then (err e, t) k = (err e, t)

  -- the result of a write
  abbrev pub wrote : {S : Type 0} → Option S → (S → Tree) → Tree → Run Bool
  wrote none put t = (err "database", t)
  wrote (some s) put t = (ok true, put s)

  unfoldable pub upsert_file : FileNode → Tree → Run Bool
  unfolding update_file
  upsert_file node t =
      wrote (B.files.upsert node.id node (update_file node) t.files) (λ s. record t { files = s }) t

  unfoldable pub upsert_folder : FolderNode → Tree → Run Bool
  unfolding update_folder
  upsert_folder node t =
      wrote (B.folders.upsert node.id node (update_folder node) t.folders)
        (λ s. record t { folders = s }) t

  unfoldable pub upsert_item : Item → Tree → Run Bool
  unfolding update_item
  upsert_item item t =
      wrote (B.items.upsert item.id item (update_item item) t.items) (λ s. record t { items = s }) t

  -- a transaction that fails is rolled back
  abbrev pub transaction : {A : Type 0} → Tree → Run A → Run A
  transaction t (ok a, u) = (ok a, u)
  transaction t (err e, u) = (err e, t)

  unfoldable pub remove_links : String → Tree → Run Bool
  remove_links id t = wrote (B.links.remove id t.links) (λ s. record t { links = s }) t

  unfoldable pub create_links : List (String × ℕ) → Tree → Run Bool
  create_links ls t = wrote (B.links.create ls t.links) (λ s. record t { links = s }) t

  -- `ReplaceContentTypes`
  unfoldable pub replace_content_types : String → List ℕ → Tree → Run Bool
  unfolding remove_links create_links and_then
  replace_content_types id ids t = transaction t (
      and_then (remove_links id t)
        (λ _ u. if is_nil ids then (ok true, u) else create_links (map (λ i. (id, i)) ids) u))

  -- the condition of a query for a live item of a device
  abbrev pub is_item : String → Item → Bool
  is_item device i = i.device_uuid == device && is_live i.deleted_at

  abbrev pub found_item : Option (Option Item) → Tree → Run (Option Item)
  found_item none t = (err "database", t)
  found_item (some o) t = (ok o, t)

  -- `GetItemByID`
  unfoldable pub get_item_by_id : String → String → Tree → Run (Option Item)
  get_item_by_id device id t = found_item (B.items.get id (is_item device) t.items) t

  -- whether all content types exist
  unfoldable pub check_types : List ℕ → Tree → Run Bool
  check_types [] t = (ok true, t)
  check_types (n ∷ ns) t =
      let rest = check_types ns t in
      elim (B.links.content_type n t.links) [
        | none ↦ (err "database", t)
        | some there ↦ if there then rest else (err "record not found", t)
      ]

  abbrev pub assign_to : List ℕ → Option Item → Tree → Run Bool
  assign_to ids none t = (err "record not found", t)
  assign_to ids (some item) t =
      and_then (check_types ids t) (λ _ u. replace_content_types item.id ids u)

  -- `AssignContentTypes`
  unfoldable pub assign_content_types : String → String → List ℕ → Tree → Run Bool
  unfolding get_item_by_id check_types replace_content_types and_then
  assign_content_types device id ids t =
      and_then (get_item_by_id device id t) (λ o u. assign_to ids o u)

  -- `deterministicID`, and `deterministicIDFromSegments`
  unfoldable pub deterministic_id : String → List Text → String
  deterministic_id device segments = B.sha1 (lit device ++ (lit "|" ++ join slash segments))

  abbrev pub file_node : String → FileChange → ℕ → FileNode
  file_node device c now = record {
    id = c.id;
    device_uuid = device;
    origin_path = fallback (c.origin_path ∷ c.current_path ∷ []);
    current_path = c.current_path;
    current_name = c.current_name;
    extension = c.extension;
    size = c.size;
    snapshot_number = c.snapshot_number;
    change_pending = c.change_pending;
    last_event_at = now;
    deleted_at = none;
  }

  abbrev pub file_item : String → FileChange → Option String → Item
  file_item device c parent = record {
    id = c.id;
    device_uuid = device;
    name = c.current_name;
    parent_id = parent;
    file_id = some c.id;
    folder_id = none;
    total_size = c.size;
    deleted_at = none;
  }

  -- the last segment of a change of a file
  unfoldable pub upsert_last : ℕ → String → FileChange → Option String → Tree → Run (Option Item)
  unfolding upsert_file upsert_item replace_content_types and_then fallback
  upsert_last now device c parent t =
      if c.id == ""
      then (err "missing file ID from agent", t)
      else and_then (upsert_file (file_node device c now) t) (λ _ t.
        and_then (upsert_item (file_item device c parent) t) (λ _ t.
          if is_nil c.content_types
          then (ok (some (file_item device c parent)), t)
          else and_then (replace_content_types c.id c.content_types t)
              (λ _ t. (ok (some (file_item device c parent)), t))))

  abbrev pub folder_node : String → String → FolderNode
  folder_node device id = record {
    id = id;
    device_uuid = device;
    total_entries = 0;
    ext_children = [];
    deleted_at = none;
  }

  abbrev pub folder_item : String → String → Text → Option String → Item
  folder_item device id name parent = record {
    id = id;
    device_uuid = device;
    name = name;
    parent_id = parent;
    file_id = none;
    folder_id = some id;
    total_size = 0;
    deleted_at = none;
  }

  -- a segment that is a folder
  unfoldable pub upsert_step : String → String → Text → Option String → Tree → Run Item
  unfolding upsert_folder upsert_item and_then
  upsert_step device id name parent t = and_then (upsert_folder (folder_node device id) t) (λ _ t.
      and_then (upsert_item (folder_item device id name parent) t)
        (λ _ t. (ok (folder_item device id name parent), t)))

  -- the loop of `upsertPath`, with the segments that are done
  unfoldable pub upsert_segments :
      ℕ
      → String
      → FileChange
      → List Text
      → List Text
      → Option String
      → Option Item
      → Tree
      → Run (Option Item)
  unfolding deterministic_id upsert_last upsert_step
  upsert_segments now device c before [] parent last t = (ok last, t)
  upsert_segments now device c before (segment ∷ segments) parent last t =
      let upto : List Text = before ++ (segment ∷ []) in
      let id : String = deterministic_id device upto in
      let rest : Option String → Option Item → Tree → Run (Option Item) =
        upsert_segments now device c upto segments in
      if is_nil segments && not c.is_dir
      then upsert_last now device c parent t
      else and_then (upsert_step device id segment parent t)
          (λ item t. rest (some id) (some item) t)

  -- `upsertPath`
  unfoldable pub upsert_path : ℕ → String → FileChange → Tree → Run (Option Item)
  unfolding upsert_segments split_path
  upsert_path now device c t =
      upsert_segments now device c [] (split_path B.to_slash c.current_path c.current_name).0 none
        none t

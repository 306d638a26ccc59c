-- ===== src/Backend/Tree/Paths.antt =====
-- backend/app/repo/filetree_repo.go: the queries that ignore a soft deletion, and the path that is
-- built from an item by going up to its parents.
use sagiri_guard.Base.{
  ℕ, zero, suc, Bool, true, false, ◌||◌, ◌&&◌, List, [], ◌∷◌, ◌++◌, Option, none, some, String,
  ◌==◌, if◌then◌else◌,
}
use sagiri_guard.Base.Results.{Result, ok, err}
use sagiri_guard.Base.Keyed.{Keyed}
use sagiri_guard.Base.Text.{Text, split, join}
use sagiri_guard.Segments.{slash}
use sagiri_guard.Backend.Tree.{Database, FileNode, Item, Tree, deterministic_id}
use sagiri_guard.Backend.Tree.Deletion.{trim_slashes, trim_left_slashes}
pub mod Chains
pub mod Upward
pub mod Named

module _ (B : Database) where
  -- the answer of a query that may find nothing
  abbrev pub answer : {A : Type 0} → Option (Option A) → Result String (Option A)
  answer none = err "database"
  answer (some o) = ok o

  -- `GetFileNodeByID`
  unfoldable pub get_file_node_by_id : String → String → Tree B → Result String (Option FileNode)
  get_file_node_by_id device id t = answer (B.files.get id (λ r. r.device_uuid == device) t.files)

  abbrev pub Found : Type 0
  Found = Result String (Option FileNode) × Option Item

  -- the file of an item that was found
  unfoldable pub file_of_item : String → Item → Option String → Tree B → Found
  unfolding get_file_node_by_id
  file_of_item device item none t = (ok none, some item)
  file_of_item device item (some id) t = (get_file_node_by_id device id t, some item)

  unfoldable pub file_of_found : String → Option (Option Item) → Tree B → Found
  unfolding file_of_item
  file_of_found device none t = (err "database", none)
  file_of_found device (some none) t = (ok none, none)
  file_of_found device (some (some item)) t = file_of_item device item item.file_id t

  -- `GetFileNodeByLogicalPath`
  unfoldable pub get_file_node_by_logical_path : String → Text → Tree B → Found
  unfolding file_of_found trim_slashes trim_left_slashes deterministic_id
  get_file_node_by_logical_path device path t =
      let segments = split slash (trim_slashes (trim_left_slashes path)) in
      file_of_found device
        (B.items.get (deterministic_id B device segments) (λ i. i.device_uuid == device) t.items) t

  -- the query of a parent
  abbrev pub parent_of : String → String → Tree B → Option (Option Item)
  parent_of device id t = B.items.get id (λ i. i.device_uuid == device) t.items

  -- what a round makes of the query's answer
  abbrev pub upward :
      (Item → Option (Result String (List Text)))
      → List Text
      → Option (Option Item)
      → Option (Result String (List Text))
  upward rest segments none = some (err "query parent")
  upward rest segments (some none) = some (ok segments)
  upward rest segments (some (some parent)) = rest parent

  -- The loop of `BuildLogicalPathFromItem`, on fuel, with the segments below; `none` when the fuel
  -- runs out.
  unfoldable pub build_segments :
      ℕ → String → Item → List Text → Tree B → Option (Result String (List Text))
  build_segments zero device item below t = none
  build_segments (suc fuel) device item below t =
      let segments : List Text = item.name ∷ below in
      let rest : Item → Option (Result String (List Text)) =
        λ parent. build_segments fuel device parent segments t in
      elim item.parent_id [
        | none ↦ some (ok segments)
        | some id ↦
            if id == "" then some (ok segments) else upward rest segments (parent_of device id t)
      ]

  abbrev pub joined : Option (Result String (List Text)) → Option (Result String Text)
  joined none = none
  joined (some (err e)) = some (err e)
  joined (some (ok segments)) = some (ok (join slash segments))

  -- `BuildLogicalPathFromItem`
  unfoldable pub build_logical_path_from_item :
      ℕ → String → Option Item → Tree B → Option (Result String Text)
  unfolding build_segments
  build_logical_path_from_item fuel device none t = some (err "item is nil")
  build_logical_path_from_item fuel device (some item) t =
      joined (build_segments fuel device item [] t)

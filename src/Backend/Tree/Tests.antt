-- ===== src/Backend/Tree/Tests.antt =====
-- Small runs of the tree of files.
use sagiri_guard.Base.{
  ℕ, ◌≤◌, ◌≡◌, refl, Bool, true, false, [], ◌∷◌, none, some, String, length, take, drop,
}
use sagiri_guard.Base.Map.{lookup, insert}
use sagiri_guard.Base.Results.{ok}
use sagiri_guard.Base.Keyed.{map_table}
use sagiri_guard.Base.Table.{eq_of_some-eq}
use sagiri_guard.Base.Text.{Text, lit, join, split, trim_space, trim_left, trim_right}
use sagiri_guard.Changes.{FileChange}
use sagiri_guard.Segments.{slash, split_path, trimmed}
use sagiri_guard.Backend.Tree.{
  FileNode, FolderNode, Item, Links, Database, Tree, upsert_path, upsert_segments, upsert_step,
  upsert_last, upsert_file, upsert_folder, upsert_item, and_then, remove_links, deterministic_id,
  file_item,
}
use sagiri_guard.Backend.Tree.Deletion.{
  delete_item, delete_found, soft_delete_item, delete_file_of, delete_folder_of, delete_item_row,
  delete_row,
}
use sagiri_guard.Backend.Tree.Deletion.Laws.{IsGone, deleted-IsGone}
use sagiri_guard.Backend.Tree.Deletion.Stays.{IsDeleted, stays-IsDeleted}
use sagiri_guard.Backend.Tree.Paths.{build_logical_path_from_item}
use sagiri_guard.Backend.Tree.Paths.Chains.{IsRead}
use sagiri_guard.Backend.Tree.Paths.Upward.{grown, IsApart}
use sagiri_guard.Backend.Tree.Paths.Named.{path_built}
use mathlib.Core.List.Perm
use sagiri_guard.Backend.Tree.Pages.{
  pos, Times, conditions, where_of, Query, list_items, get_nodes, filter_of,
}
use sagiri_guard.Backend.Tree.Pages.Admin.{
  AdminListTreeRequest, Loaded, node_of, handle_admin_list_tree, tree_query, capped_size,
  answer_nodes, never_truncated,
}

abbrev links : Links
links = record {
  State = Bool;
  remove = λ id s. some s;
  create = λ ls s. some s;
  content_type = λ n s. some true;
}

-- a stand-in for the hash, which tells texts of different lengths apart
abbrev by_length : Text → String
by_length [] = "zero"
by_length (a ∷ []) = "one"
by_length (a ∷ b ∷ []) = "two"
by_length (a ∷ b ∷ c ∷ []) = "three"
by_length (a ∷ b ∷ c ∷ d ∷ s) = "more"

abbrev database : Database
database = record {
  files = map_table FileNode;
  folders = map_table FolderNode;
  items = map_table Item;
  links = links;
  to_slash = λ p. p;
  sha1 = by_length;
}

abbrev empty : Tree database
empty = record { files = []; folders = []; items = []; links = true }

abbrev change : FileChange
change = record {
  id = "f";
  origin_path = lit "a/b";
  current_path = lit "a/b";
  current_name = lit "b";
  extension = [];
  size = 3;
  snapshot_number = 0;
  is_dir = false;
  deleted = false;
  change_pending = true;
  content_types = [];
}

abbrev stored : Tree database
stored = (upsert_path database 5 "d" change empty).1

abbrev stored_item : Item
stored_item = file_item database "d" change (some "three")

runs : upsert_path database 5 "d" change empty ≡ (ok (some stored_item), stored)
unfolding upsert_path upsert_segments upsert_step upsert_last upsert_file upsert_folder upsert_item
    and_then split_path trimmed split trim_space trim_left trim_right deterministic_id join
runs = refl

two_parts : split_path (λ p. p) (lit "a/b") (lit "b") ≡ (lit "a" ∷ lit "b" ∷ [], lit "b")
unfolding split_path trimmed split trim_space trim_left trim_right
two_parts = refl

apart :
    IsApart database "d"
      (grown database "d" change [] (split_path (λ p. p) (lit "a/b") (lit "b")).0 [])
unfolding grown split_path trimmed split trim_space trim_left trim_right deterministic_id join
apart = (refl, ((refl, tt), (refl, (tt, tt))))

named : lit "b" ≡ (split_path (λ p. p) (lit "a/b") (lit "b")).1
unfolding split_path trimmed split trim_space trim_left trim_right
named = refl

reads : IsRead database "d"
reads k p s = (_, refl)

path_built_example :
    build_logical_path_from_item database
      (length (split_path (λ p. p) (lit "a/b") (lit "b")).0)
      "d"
      (some stored_item)
      stored
    ≡ some (ok (join slash (split_path (λ p. p) (lit "a/b") (lit "b")).0))
path_built_example =
    path_built database "d" 5 change empty (some stored_item) stored reads runs named apart

abbrev old_item : Item
old_item = record {
  id = "f";
  device_uuid = "d";
  name = lit "b";
  parent_id = none;
  file_id = none;
  folder_id = none;
  total_size = 0;
  deleted_at = none;
}

abbrev one_item : Tree database
one_item = record { files = []; folders = []; items = ("f", old_item) ∷ []; links = true }

abbrev without_item : Tree database
without_item = record {
  files = [];
  folders = [];
  items = ("f", record old_item { deleted_at = some 7 }) ∷ [];
  links = true;
}

deletes : delete_item database 7 "d" "f" one_item ≡ (ok true, without_item)
unfolding delete_item delete_found soft_delete_item delete_file_of delete_folder_of delete_item_row
    delete_row and_then lookup insert remove_links
deletes = refl

deleted-IsGone_example : IsGone database "d" "f" one_item without_item
deleted-IsGone_example = deleted-IsGone database 7 "d" "f" one_item true without_item refl deletes

was-IsDeleted : IsDeleted database "f" 7 without_item
unfolding IsDeleted lookup
was-IsDeleted = (record old_item { deleted_at = some 7 }, (refl, refl))

stays-IsDeleted_example :
    IsDeleted database "f" 7 (upsert_path database 9 "d" change without_item).1
stays-IsDeleted_example = stays-IsDeleted database "f" 7 9 "d" change without_item was-IsDeleted

abbrev times : Times
times = record {
  Time = ℕ;
  Duration = ℕ;
  rfc3339 = λ s. none;
  layout = λ s. none;
  duration = λ s. none;
  days = λ s. none;
  six_hours = 6;
  ago = λ d. d;
}

-- a database that holds one item
abbrev query : Query times
query = record {
  State = Bool;
  all = λ b cs s. old_item ∷ [];
  count = λ b cs s. some 1;
  updated_at = λ s x. 7;
  find = λ b cs order offset limit s. some (take limit (drop offset (old_item ∷ [])));
  count_all = λ b cs s n e. eq_of_some-eq e;
  find_all = λ b cs order offset limit s out e.
      (old_item ∷ [], Perm.refl (old_item ∷ []), tt, eq_of_some-eq e);
}

abbrev loaded : Loaded
loaded = record { file = λ x. none; types = λ x. []; updated_at = λ x. 7; unix = λ t. t }

abbrev wanted : AdminListTreeRequest
wanted = record { device_id = "d"; parent_id = none; page = pos 0; page_size = pos 99 }

whole_tree :
    handle_admin_list_tree times query loaded wanted true ≡ ok (node_of loaded old_item ∷ [], false)
unfolding handle_admin_list_tree get_nodes list_items where_of conditions tree_query filter_of
    capped_size answer_nodes
whole_tree = refl

never_truncated_example : ◌≡◌ {A = Bool} false false × (length (node_of loaded old_item ∷ []) ≤ 30)
never_truncated_example =
    never_truncated times query loaded wanted true (node_of loaded old_item ∷ []) false whole_tree

-- ===== src/Backend/Tree/Pages/Admin.antt =====
-- backend/app/controllers/protocol_device.go: the lists of devices and of a device's tree that an
-- administrator asks for. What gorm loads with an item, and the time of its last update, are
-- parameters, as is what the service of devices lists.
use mathlib.Core.Bool.{false≢true}
use mathlib.Core.Path.{subst}
use sagiri_guard.Base.{
  ℕ, zero, suc, ◌-◌, ◌*◌, ◌≤◌, ◌<◌, ◌≡◌, refl, sym, ap, Bool, true, false, Bool-cases, inl, inr,
  List, [], ◌∷◌, Option, none, some, is_some, String, ◌==◌, if◌then◌else◌, is_nil, length, take,
  drop, map, ltb, arith,
}
use sagiri_guard.Base.Results.{Result, ok, err, ok_eq}
use sagiri_guard.Base.Text.{Text}
use sagiri_guard.Backend.Hub.{Hub, Net, is_online}
use sagiri_guard.Backend.Tree.{FileNode, Item}
use sagiri_guard.Backend.Tree.Pages.{
  ItemFilter, ℤ, pos, negsuc, TreeQuery, filter_of, Times, Condition, or_default, where_of, Query,
  list_page, list_items, get_nodes, page_of, listed_before,
}

-- the columns of a device that the lists use
pub record Device : Type 0 where
  pub uuid : String
  pub name : String

-- `DeviceSummary`
pub record DeviceSummary : Type 0 where
  pub uuid : String
  pub name : String
  pub online : Bool

-- `handleAdminListDevices`, for what the service lists
unfoldable pub handle_admin_list_devices :
    Option Hub → Net → Option (List Device) → Result String (List DeviceSummary)
unfolding is_online
handle_admin_list_devices hub n none = err "database"
handle_admin_list_devices hub n (some ds) =
    ok (map (λ d. record { uuid = d.uuid; name = d.name; online = in_hub d.uuid hub }) ds)
  where
    in_hub : String → Option Hub → Bool
    in_hub uuid none = false
    in_hub uuid (some h) = is_online uuid h n

-- the loop of `handleAdminListOnline`
unfoldable pub online_but : String → Hub → Net → List Device → List String
unfolding is_online
online_but excluded h n [] = []
online_but excluded h n (d ∷ ds) =
    let rest = online_but excluded h n ds in
    if d.uuid == excluded then rest else if is_online d.uuid h n then d.uuid ∷ rest else rest

-- `handleAdminListOnline`; an error of the service gives an empty list
unfoldable pub handle_admin_list_online :
    String → Option Hub → Net → Option (List Device) → List String
unfolding online_but
handle_admin_list_online excluded none n ds = []
handle_admin_list_online excluded (some h) n none = []
handle_admin_list_online excluded (some h) n (some ds) = online_but excluded h n ds

-- `AdminListTreeRequest`
pub record AdminListTreeRequest : Type 0 where
  pub device_id : String
  pub parent_id : Option String
  pub page : ℤ
  pub page_size : ℤ

-- `TreeNodeResponse`
pub record TreeNodeResponse : Type 0 where
  pub id : String
  pub name : Text
  pub type : String
  pub parent_id : Option String
  pub size : ℕ
  pub extension : Text
  pub content_type_ids : List ℕ
  pub updated_at : ℕ
  pub deleted_at : Option ℕ

-- what gorm loads with an item
pub record Loaded : Type 0 where
  pub file : Item → Option FileNode
  pub types : Item → List ℕ
  pub updated_at : Item → ℕ
  pub unix : ℕ → ℕ

-- `nodeType`
unfoldable pub node_type : Item → String
node_type n = if is_some n.folder_id then "dir" else "file"

abbrev pub ext_or : Text → Option FileNode → Text
ext_or name none = name
ext_or name (some f) = if is_nil f.extension then name else f.extension

-- `extFromItem`
unfoldable pub ext_from_item : Loaded → Item → Text
ext_from_item L n = ext_or n.name (L.file n)

-- `deletedAtUnix`
unfoldable pub deleted_at_unix : Loaded → Option ℕ → Option ℕ
deleted_at_unix L none = none
deleted_at_unix L (some t) = some (L.unix t)

unfoldable pub node_of : Loaded → Item → TreeNodeResponse
unfolding node_type ext_from_item deleted_at_unix
node_of L n = record {
  id = n.id;
  name = n.name;
  type = node_type n;
  parent_id = n.parent_id;
  size = n.total_size;
  extension = ext_from_item L n;
  content_type_ids = L.types n;
  updated_at = L.unix (L.updated_at n);
  deleted_at = deleted_at_unix L n.deleted_at;
}

-- the size of a page: 15 when none is asked for, and 30 at most
unfoldable pub capped_size : ℤ → ℕ
capped_size size = let n = or_default size 15 in if ltb 30 n then 30 else n

unfoldable pub tree_query : AdminListTreeRequest → TreeQuery
unfolding capped_size
tree_query r = record {
  device_uuid = r.device_id;
  parent_id = r.parent_id;
  extensions = [];
  content_type_ids = [];
  search = [];
  page = pos (or_default r.page 1);
  page_size = pos (capped_size r.page_size);
  include_deleted = false;
  deleted_since = [];
}

-- the answer for the nodes that were found, and whether some were cut off
unfoldable pub answer_nodes :
    Loaded → ℕ → Result String (List Item × ℕ) → Result String (List TreeNodeResponse × Bool)
unfolding node_of
answer_nodes L size (err e) = err e
answer_nodes L size (ok (nodes, total)) =
    if ltb size (length nodes)
    then ok (map (node_of L) (take size nodes), true)
    else ok (map (node_of L) nodes, false)

module _ (T : Times) (Q : Query T) where
  -- `handleAdminListTree`, for a request that was parsed
  unfoldable pub handle_admin_list_tree :
      Loaded → AdminListTreeRequest → Q.State → Result String (List TreeNodeResponse × Bool)
  unfolding get_nodes tree_query answer_nodes
  handle_admin_list_tree L r s =
      if r.device_id == ""
      then err "missing device_id"
      else answer_nodes L (capped_size r.page_size) (get_nodes T Q (tree_query r) s)

  length-take : (n : ℕ) (xs : List Item) → length (take n xs) ≤ n
  length-take zero xs = omega arith
  length-take (suc n) [] = omega arith
  length-take (suc n) (x ∷ xs) = let ih = length-take n xs in omega arith

  length-map : (L : Loaded) (xs : List Item) → length (map (node_of L) xs) ≡ length xs
  length-map L [] = refl
  length-map L (x ∷ xs) = ap suc (length-map L xs)

  -- the size that a positive number asks for
  asked : (n : ℕ) → 0 < n → or_default (pos n) 50 ≡ n
  asked zero h = absurd (omega arith)
  asked (suc n) h = refl

  page_found :
      (count : Option ℕ) (found : Option (List Item)) (items : List Item) (total : ℕ)
      → page_of T Q count found ≡ ok (items, total)
      → found ≡ some items
  page_found none found items total e = cc
  page_found (some n) none items total e = cc
  page_found (some n) (some xs) items total e =
      let q : (xs, n) ≡ (items, total) = ok_eq e in ap (λ p. some p.0) q

  -- a page has at most the nodes that were asked for
  page_size_bound :
      (size : ℕ) (f : ItemFilter) (s : Q.State) (w : Result String (List (Condition T)))
      (nodes : List Item) (total : ℕ)
      → or_default f.page_size 50 ≡ size
      → list_page T Q f s w ≡ ok (nodes, total)
      → length nodes ≤ size
  page_size_bound size f s (err e) nodes total h q = cc
  page_size_bound size f s (ok cs) nodes total h q =
      let n : ℕ = or_default f.page_size 50 in
      let offset : ℕ = (or_default f.page 1 - 1) * n in
      let order = listed_before (Q.updated_at s) in
      let found = Q.find_all f.include_deleted cs order offset n s nodes (
        page_found (Q.count f.include_deleted cs s) (Q.find f.include_deleted cs order offset n s)
          nodes total q) in
      let bound = length-take n (drop offset found.0) in
      let same : length nodes ≡ length (take n (drop offset found.0)) = ap length found.3 in
      omega (arith, h)

  abbrev is_answer : Result String (List TreeNodeResponse × Bool) → Bool
  is_answer (ok a) = true
  is_answer (err e) = false

  capped_size_positive : (size : ℤ) → (0 < capped_size size) × (capped_size size ≤ 30)
  capped_size_positive (pos zero) = unfold capped_size in ground arith
  capped_size_positive (pos (suc n)) = unfold capped_size in ground arith
  capped_size_positive (negsuc n) = unfold capped_size in ground arith

  answer_whole :
      (L : Loaded) (size : ℕ) (r : Result String (List Item × ℕ)) (out : List TreeNodeResponse)
      (cut : Bool)
      → ((nodes : List Item) (total : ℕ) → r ≡ ok (nodes, total) → length nodes ≤ size)
      → answer_nodes L size r ≡ ok (out, cut)
      → (cut ≡ false) × (length out ≤ size)
  unfolding answer_nodes
  answer_whole L size (err e) out cut h q = cc
  answer_whole L size (ok (nodes, total)) out cut h q =
      let bound : length nodes ≤ size = h nodes total refl in
      let whole : ltb size (length nodes) ≡ false = ground arith in
      let answer : (map (node_of L) nodes, false) ≡ (out, cut) = ok_eq (rw whole at q) in
      (
        sym (ap (λ a. a.1) answer),
        subst (λ l. length l ≤ size) (ap (λ a. a.0) answer)
            (subst (λ n. n ≤ size) (sym (length-map L nodes)) bound),
      )

  -- For all databases, loaded data and requests: an answer with the nodes of a tree holds at most 30
  -- nodes, and never says that nodes were cut off, however many there are.
  pub never_truncated :
      (L : Loaded) (r : AdminListTreeRequest) (s : Q.State) (out : List TreeNodeResponse)
      (cut : Bool)
      → handle_admin_list_tree L r s ≡ ok (out, cut)
      → (cut ≡ false) × (length out ≤ 30)
  unfolding handle_admin_list_tree
  never_truncated L r s out cut e = elim (Bool-cases (r.device_id == "")) [
    | inl q ↦ absurd (false≢true (ap is_answer (rw q at e)))
    | inr q ↦
        let f : ItemFilter = filter_of (tree_query r) in
        let size : ℕ = capped_size r.page_size in
        let cap = capped_size_positive r.page_size in
        let whole =
          answer_whole L size (get_nodes T Q (tree_query r) s) out cut
            (λ nodes total g.
              page_size_bound size f s (where_of T f) nodes total
                (unfold filter_of tree_query in asked size cap.0)
                (unfold get_nodes list_items in g))
            (rw q at e) in
        let small : length out ≤ size = whole.1 in (whole.0, omega (arith, small, cap.1))
  ]

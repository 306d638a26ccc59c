-- ===== src/Backend/Tree/Pages.antt =====
-- backend/app/repo/filetree_repo.go: ListItems and parseDeletedSince, and GetNodes of
-- backend/app/services/filetree_service.go. The database gets a list of conditions; what it finds for
-- them, in the order that the query asks for, is a parameter, as are the functions of package time.
use sagiri_guard.Base.{
  ℕ, zero, suc, ◌+◌, ◌-◌, ◌*◌, ◌≤◌, ◌<◌, ◌≡◌, refl, sym, ap, ◌∙◌, Bool, true, false, not, List, [],
  ◌∷◌, ◌++◌, Option, none, some, is_some, nat_eq, leb, ltb, String, ◌==◌, if◌then◌else◌, is_nil,
  length, take, drop, arith,
}
use sagiri_guard.Base.Results.{Result, ok, err}
use sagiri_guard.Base.Text.{Text, lit, trim_space, has_suffix}
use sagiri_guard.Backend.Tree.{Item}
use mathlib.Core.List.{Perm}
pub mod Admin

-- Go's int, for the page and its size
pub data ℤ : Type 0 where
  pos : ℕ → ℤ
  negsuc : ℕ → ℤ

-- `ItemFilter`
pub record ItemFilter : Type 0 where
  pub device_uuid : String
  pub parent_id : Option String
  pub search : Text
  pub extensions : List Text
  pub content_type_ids : List ℕ
  pub page : ℤ
  pub page_size : ℤ
  pub include_deleted : Bool
  pub deleted_since : Text

-- `TreeQuery`
pub record TreeQuery : Type 0 where
  pub device_uuid : String
  pub parent_id : Option String
  pub extensions : List Text
  pub content_type_ids : List ℕ
  pub search : Text
  pub page : ℤ
  pub page_size : ℤ
  pub include_deleted : Bool
  pub deleted_since : Text

unfoldable pub filter_of : TreeQuery → ItemFilter
filter_of q = record {
  device_uuid = q.device_uuid;
  parent_id = q.parent_id;
  search = q.search;
  extensions = q.extensions;
  content_type_ids = q.content_type_ids;
  page = q.page;
  page_size = q.page_size;
  include_deleted = q.include_deleted;
  deleted_since = q.deleted_since;
}

-- what the code takes from package time; `duration` is ParseDuration, `days` reads a decimal number
-- of days, and `ago` is the time before now
pub record Times : Type 1 where
  pub Time : Type 0
  pub Duration : Type 0
  pub rfc3339 : Text → Option Time
  pub layout : Text → Option Time
  pub duration : Text → Option Duration
  pub days : Text → Option Duration
  pub six_hours : Duration
  pub ago : Duration → Time

abbrev pub without_last : Text → Text
without_last [] = []
without_last (c ∷ []) = []
without_last (c ∷ d ∷ s) = c ∷ without_last (d ∷ s)

-- the end of a query that asks for a value, or for the default
abbrev pub or_default : ℤ → ℕ → ℕ
or_default (pos zero) d = d
or_default (pos (suc n)) d = suc n
or_default (negsuc n) d = d

-- `CASE WHEN folder_id IS NULL THEN 1 ELSE 0 END`
abbrev pub folder_rank : Item → ℕ
folder_rank x = if is_some x.folder_id then 0 else 1

-- the order of the query: folders before the rest, and of either the newest first
unfoldable pub listed_before : (Item → ℕ) → Item → Item → Bool
listed_before updated_at x y =
    if nat_eq (folder_rank x) (folder_rank y)
    then leb (updated_at y) (updated_at x)
    else ltb (folder_rank x) (folder_rank y)

-- every item may stand before the next one
abbrev pub IsArranged : (Item → Item → Bool) → List Item → Type 0
IsArranged order [] = Unit
IsArranged order (x ∷ []) = Unit
IsArranged order (x ∷ y ∷ xs) = (order x y ≡ true) × IsArranged order (y ∷ xs)

module _ (T : Times) where
  abbrev pub time_before : String → Option T.Duration → Result String T.Time
  time_before message none = err message
  time_before message (some d) = ok (T.ago d)

  -- the relative forms, by their last letter
  unfoldable pub parse_relative : Text → Result String T.Time
  parse_relative s =
      if has_suffix s (lit "h")
      then time_before "parse duration" (T.duration (without_last s ++ lit "h"))
      else if has_suffix s (lit "d")
      then time_before "invalid days format" (T.days (without_last s))
      else if has_suffix s (lit "m")
      then time_before "parse duration" (T.duration (without_last s ++ lit "m"))
      else time_before "invalid format" (T.duration (s ++ lit "h"))

  -- `parseDeletedSince`
  unfoldable pub parse_deleted_since : Text → Result String T.Time
  unfolding parse_relative
  parse_deleted_since text =
      let s = trim_space text in
      if is_nil s then err "empty string" else elim (T.rfc3339 s) [
        | some t ↦ ok t
        | none ↦ elim (T.layout s) [ some t ↦ ok t | none ↦ parse_relative s ]
      ]

  -- a condition of the query
  pub data Condition : Type 0 where
    of_device : String → Condition
    deleted_after : T.Time → Condition
    without_parent : Condition
    with_parent : String → Condition
    with_extension : List Text → Condition
    with_content_type : List ℕ → Condition
    name_like : Text → Condition

  abbrev pub if_some : Bool → Condition → List Condition
  if_some empty c = if empty then [] else c ∷ []

  -- the condition on the parent; an empty ID asks for all
  abbrev pub of_parent : Option String → List Condition
  of_parent none = without_parent ∷ []
  of_parent (some id) = if id == "" then [] else with_parent id ∷ []

  abbrev pub since : Text → Result String T.Time
  since text = if is_nil text then ok (T.ago T.six_hours) else parse_deleted_since text

  -- the conditions after the time of deletion
  unfoldable pub conditions : ItemFilter → List Condition
  conditions f =
      of_parent f.parent_id
      ++ (if_some (is_nil f.extensions) (with_extension f.extensions)
          ++ (if_some (is_nil f.content_type_ids) (with_content_type f.content_type_ids)
              ++ if_some (is_nil f.search) (name_like f.search)))

  abbrev pub with_time : ItemFilter → Result String T.Time → Result String (List Condition)
  with_time f (err e) = err e
  with_time f (ok t) = ok (of_device f.device_uuid ∷ deleted_after t ∷ conditions f)

  -- the conditions of a filter; the time is read only when deleted items are asked for
  unfoldable pub where_of : ItemFilter → Result String (List Condition)
  unfolding conditions parse_deleted_since
  where_of f =
      if f.include_deleted
      then with_time f (since f.deleted_since)
      else ok (of_device f.device_uuid ∷ conditions f)

  -- What the database finds: `all` for conditions, with or without the deleted items, in no order.
  -- Counting and finding may fail; when they do not, the count is that of all, and a query gives a
  -- part of them arranged in the order that it asks for. Another query may arrange items that are
  -- equal in that order differently.
  pub record Query : Type 1 where
    pub State : Type 0
    pub all : Bool → List Condition → State → List Item
    pub count : Bool → List Condition → State → Option ℕ
    pub updated_at : State → Item → ℕ
    pub find : Bool → List Condition → (Item → Item → Bool) → ℕ → ℕ → State → Option (List Item)
    pub count_all :
        (b : Bool) (cs : List Condition) (s : State) (n : ℕ)
        → count b cs s ≡ some n
        → n ≡ length (all b cs s)
    pub find_all :
        (b : Bool) (cs : List Condition) (order : Item → Item → Bool) (offset limit : ℕ) (s : State)
        (out : List Item)
        → find b cs order offset limit s ≡ some out
        → (xs : List Item) × Perm xs (all b cs s)
          × IsArranged order xs
          × (out ≡ take limit (drop offset xs))

  module _ (Q : Query) where
    abbrev pub page_of : Option ℕ → Option (List Item) → Result String (List Item × ℕ)
    page_of none items = err "database"
    page_of (some total) none = err "database"
    page_of (some total) (some items) = ok (items, total)

    abbrev pub list_page :
        ItemFilter → Q.State → Result String (List Condition) → Result String (List Item × ℕ)
    list_page f s (err e) = err e
    list_page f s (ok cs) =
        let size = or_default f.page_size 50 in
        page_of (Q.count f.include_deleted cs s) (
          Q.find f.include_deleted cs (listed_before (Q.updated_at s))
            ((or_default f.page 1 - 1) * size) size s)

    -- `ListItems`
    unfoldable pub list_items : ItemFilter → Q.State → Result String (List Item × ℕ)
    unfolding where_of listed_before
    list_items f s = list_page f s (where_of f)

    -- `GetNodes`
    unfoldable pub get_nodes : TreeQuery → Q.State → Result String (List Item × ℕ)
    unfolding list_items filter_of
    get_nodes q s = list_items (filter_of q) s

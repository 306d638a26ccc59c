-- ===== src/Segments.antt =====
-- The logical paths on which the agent and the backend agree: splitSegments and
-- buildLogicalSegments of agent/internal/service/filetree_sync.go, and splitPath of
-- backend/app/services/filetree_service.go. Functions of package filepath are parameters.
use sagiri_guard.Base.{
  ℕ, Bool, true, false, List, [], ◌∷◌, ◌++◌, Option, none, some, if◌then◌else◌, is_nil, ◌||◌,
}
use sagiri_guard.Base.Text.{Text, lit, trim_space, split, join, to_lower, has_prefix, text_eq}
pub mod Laws

abbrev pub slash : ℕ
slash = 47

-- the loop over the parts: those that are not blank, trimmed
unfoldable pub trimmed : List Text → List Text
trimmed [] = []
trimmed (part ∷ parts) =
    let rest = trimmed parts in if is_nil (trim_space part) then rest else trim_space part ∷ rest

-- what the code takes from package filepath; `rel` may fail
pub record Filepath : Type 0 where
  pub to_slash : Text → Text
  pub abs : Text → Option Text
  pub rel : Text → Text → Option Text
  pub base : Text → Text
  pub separator : ℕ

-- `splitSegments`
unfoldable pub split_segments : Filepath → Text → List Text
unfolding trimmed
split_segments F p = if is_nil p then [] else trimmed (split slash (F.to_slash p))

-- the name of a root, and the segments below it
abbrev pub below_root : Filepath → Text → Text → List Text
below_root F root rel =
    let name : List Text = if is_nil (F.base root) then [] else F.base root ∷ [] in
    if text_eq rel (lit ".") then name else name ++ trimmed (split slash (F.to_slash rel))

-- whether a path is a root or stands below it, without regard to case
unfoldable pub is_under : Filepath → Text → Text → Bool
is_under F path root =
    text_eq (to_lower path) (to_lower root)
    || has_prefix (to_lower path) (to_lower root ++ (F.separator ∷ []))

-- the segments of a path below a root; a path that is not relative to it ends the search
abbrev pub from_root : Filepath → Text → Text → Option Text → List Text
from_root F p root none = split_segments F p
from_root F p root (some rel) = below_root F root rel

-- the loop over the roots, for a path and its absolute form
unfoldable pub search_roots : Filepath → List Text → Text → Text → List Text
unfolding split_segments is_under
search_roots F [] p path = split_segments F p
search_roots F (root ∷ roots) p path =
    let rest = search_roots F roots p path in
    if is_nil (trim_space root) then rest else elim (F.abs root) [
      | none ↦ rest
      | some abs_root ↦
          if is_under F path abs_root then from_root F p abs_root (F.rel abs_root path) else rest
    ]

-- `buildLogicalSegments`, with the configured `MonitorPaths`
unfoldable pub build_logical_segments : Filepath → List Text → Text → List Text
unfolding search_roots
build_logical_segments F roots p =
    if is_nil roots || is_nil (trim_space p)
    then split_segments F p
    else elim (F.abs p) [ none ↦ split_segments F p | some path ↦ search_roots F roots p path ]

-- the segments that a change of a path is sent with: all those of the path where none were found
unfoldable pub agent_segments : Filepath → List Text → Text → List Text
unfolding build_logical_segments
agent_segments F roots p =
    let segments = build_logical_segments F roots p in
    if is_nil segments then split_segments F p else segments

-- the last segment, or a name when there is none
abbrev pub last_or : Text → List Text → Text
last_or name [] = name
last_or name (s ∷ []) = s
last_or name (s ∷ t ∷ ts) = last_or name (t ∷ ts)

abbrev pub or_name : Text → List Text → List Text × Text
or_name name [] = (name ∷ [], name)
or_name name (s ∷ ss) = (s ∷ ss, last_or name (s ∷ ss))

-- `splitPath`
unfoldable pub split_path : (Text → Text) → Text → Text → List Text × Text
unfolding trimmed
split_path to_slash path name =
    if is_nil path then (name ∷ [], name) else or_name name (trimmed (split slash (to_slash path)))

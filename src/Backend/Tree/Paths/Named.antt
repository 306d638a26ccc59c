-- ===== src/Backend/Tree/Paths/Named.antt =====
-- backend/app/services/filetree_service.go and backend/app/repo/filetree_repo.go: the path that
-- BuildLogicalPathFromItem builds for an item that upsertPath has stored.
use mathlib.Core.Path.{subst}
use sagiri_guard.Base.{
  ℕ, suc, ◌+◌, ◌≤◌, ◌<◌, ◌≡◌, refl, sym, ap, ◌∙◌, not, Bool-cases, inl, inr, List, [], ◌∷◌, ◌++◌,
  Option, none, some, String, is_nil, length, arith,
}
use sagiri_guard.Base.Results.{ok}
use sagiri_guard.Base.Text.{Text, join, split}
use sagiri_guard.Changes.{FileChange}
use sagiri_guard.Segments.{slash, trimmed, last_or, or_name, split_path}
use sagiri_guard.Backend.Tree.{Database, Item, Tree, upsert_path, deterministic_id}
use sagiri_guard.Backend.Tree.Paths.{build_logical_path_from_item}
use sagiri_guard.Backend.Tree.Paths.Chains.{Entries, names_onto, IsChain, IsRead, build_chain}
use sagiri_guard.Backend.Tree.Paths.Upward.{grown, IsApart, IsEnd, segments-IsChain}

names_onto-append :
    (up : Entries) (xs ys : List Text) → names_onto up (xs ++ ys) ≡ names_onto up xs ++ ys
names_onto-append [] xs ys = refl
names_onto-append ((id, name) ∷ up) xs ys = names_onto-append up (name ∷ xs) ys

-- a path has a segment, and its name is the last
abbrev IsSplit : Text → List Text × Text → Type 0
IsSplit name r = (s : Text) × ((ss : List Text) × ((r.0 ≡ s ∷ ss) × (r.1 ≡ last_or name (s ∷ ss))))

split_path-last :
    (to_slash : Text → Text) (path name : Text) → IsSplit name (split_path to_slash path name)
unfolding split_path
split_path-last to_slash path name = elim (Bool-cases (is_nil path)) [
  | inl e ↦ rw e (name, ([], (refl, refl)))
  | inr e ↦ rw e (named (trimmed (split slash (to_slash path))))
]
  where
    named : (ss : List Text) → IsSplit name (or_name name ss)
    named [] = (name, ([], (refl, refl)))
    named (s ∷ ss) = (s, (ss, (refl, refl)))

module _ (B : Database) (device : String) where
  names-grown :
      (c : FileChange) (name : Text) (before : List Text) (s : Text) (ss : List Text) (up : Entries)
      → c.current_name ≡ last_or name (s ∷ ss)
      → names_onto (grown B device c before (s ∷ ss) up) [] ≡ names_onto up (s ∷ ss)
  unfolding grown
  names-grown c name before s [] up h = elim (Bool-cases (not c.is_dir)) [
    | inl e ↦ rw e (ap (λ n. names_onto up (n ∷ [])) h)
    | inr e ↦ rw e
  ]
  names-grown c name before s (x ∷ ss) up h =
      let id : String = deterministic_id B device (before ++ (s ∷ [])) in
      names-grown c name (before ++ (s ∷ [])) x ss ((id, s) ∷ up) h

  length-grown :
      (c : FileChange) (before ss : List Text) (up : Entries)
      → length (grown B device c before ss up) ≡ length ss + length up
  unfolding grown
  length-grown c before [] up = omega arith
  length-grown c before (s ∷ []) up = elim (Bool-cases (not c.is_dir)) [
    | inl e ↦ rw e (omega arith)
    | inr e ↦ rw e (omega arith)
  ]
  length-grown c before (s ∷ x ∷ ss) up =
      let id : String = deterministic_id B device (before ++ (s ∷ [])) in
      let ih = length-grown c (before ++ (s ∷ [])) (x ∷ ss) ((id, s) ∷ up) in omega arith

  build_end :
      (up : Entries) (fuel : ℕ) (item : Option Item) (t : Tree B)
      → IsRead B device
      → 0 < length up
      → length up ≤ fuel
      → IsChain B device up t.items
      → IsEnd B device up item
      → build_logical_path_from_item B fuel device item t
        ≡ some (ok (join slash (names_onto up [])))
  unfolding build_logical_path_from_item
  build_end [] fuel item t read p l chain end = absurd (omega arith)
  build_end ((id, name) ∷ up) fuel item t read p l chain end =
      let built = build_chain B device up fuel end.0 [] t read (omega arith) end.1.1.1 chain.1.1 in
      rw (end.1.0, built) (ap (λ n. some (ok (join slash (names_onto up (n ∷ []))))) end.1.1.0)

  -- For databases whose queries of items succeed, and changes whose name is the one of their path:
  -- after an upsert that succeeds, when the IDs of the path's items are not empty and differ from each
  -- other, going up from the item that it returns, with as much fuel as the path has segments, gives
  -- the path's segments joined by slashes.
  pub path_built :
      (now : ℕ) (c : FileChange) (t : Tree B) (item : Option Item) (u : Tree B)
      → IsRead B device
      → upsert_path B now device c t ≡ (ok item, u)
      → c.current_name ≡ (split_path B.to_slash c.current_path c.current_name).1
      → IsApart B device
          (grown B device c [] (split_path B.to_slash c.current_path c.current_name).0 [])
      → (let segments = (split_path B.to_slash c.current_path c.current_name).0 in
          build_logical_path_from_item B (length segments) device item u
          ≡ some (ok (join slash segments)))
  unfolding upsert_path
  path_built now c t item u read run named apart =
      let parts = split_path B.to_slash c.current_path c.current_name in
      let form = split_path-last B.to_slash c.current_path c.current_name in
      let g : Entries = grown B device c [] parts.0 [] in
      let done = segments-IsChain B device now c [] parts.0 [] none t item u run apart refl tt in
      let size = length-grown c [] parts.0 [] in
      let some_segment : 0 < length parts.0 =
        subst (λ l. 0 < length l) (sym form.1.1.0)
          (let k : 0 < suc (length form.1.0) = omega arith in k) in
      let names : names_onto g [] ≡ parts.0 =
        subst (λ l. names_onto (grown B device c [] l []) [] ≡ l) (sym form.1.1.0)
          (names-grown c c.current_name [] form.0 form.1.0 [] (named ∙ form.1.1.1)) in
      build_end g (length parts.0) item u read (omega arith) (omega arith) done.0 done.1
      ∙ ap (λ l. some (ok (join slash l))) names

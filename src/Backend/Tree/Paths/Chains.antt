-- ===== src/Backend/Tree/Paths/Chains.antt =====
-- backend/app/repo/filetree_repo.go: going up from an item along a chain of stored items.
use sagiri_guard.Base.{
  ℕ, zero, suc, ◌<◌, ◌≡◌, ap, ◌∙◌, Bool, true, false, List, [], ◌∷◌, Option, none, some, String,
  ◌==◌, if◌then◌else◌, length, All, arith,
}
use sagiri_guard.Base.Results.{ok}
use sagiri_guard.Base.Keyed.{passing}
use sagiri_guard.Base.Text.{Text}
use sagiri_guard.Backend.Tree.{Database, Item, Tree}
use sagiri_guard.Backend.Tree.Paths.{build_segments, parent_of}

-- the IDs and names of an item and those above it, innermost first
abbrev pub Entries : Type 0
Entries = List (String × Text)

abbrev pub top : Entries → Option String
top [] = none
top ((id, name) ∷ up) = some id

-- what an item says of its place in the tree
abbrev pub IsPlaced : String → Text → Option String → Item → Type 0
IsPlaced device name parent i =
    ((i.device_uuid == device) ≡ true) × ((i.name ≡ name) × (i.parent_id ≡ parent))

-- the names from the top down, before those below
abbrev pub names_onto : Entries → List Text → List Text
names_onto [] below = below
names_onto ((id, name) ∷ up) below = names_onto up (name ∷ below)

module _ (B : Database) (device : String) where
  -- the entries are stored, each with the next as its parent
  abbrev pub IsChain : Entries → B.items.State → Type 0
  IsChain [] s = Unit
  IsChain ((id, name) ∷ up) s =
      ((id == "") ≡ false)
      × (((i : Item) × ((B.items.at id s ≡ some i) × IsPlaced device name (top up) i))
          × IsChain up s)

  pub IsChain-keep :
      (up : Entries) (id : String) (s t : B.items.State)
      → All (λ e. (id == e.0) ≡ false) up
      → ((j : String) → (id == j) ≡ false → B.items.at j t ≡ B.items.at j s)
      → IsChain up s
      → IsChain up t
  IsChain-keep [] id s t h k c = tt
  IsChain-keep ((j, name) ∷ up) id s t h k c =
      (c.0, ((c.1.0.0, (k j h.0 ∙ c.1.0.1.0, c.1.0.1.1)), IsChain-keep up id s t h.1 k c.1.1))

  -- a database whose queries succeed
  abbrev pub IsRead : Type 0
  IsRead =
      (k : String) (p : Item → Bool) (s : B.items.State)
      → (o : Option Item) × (B.items.get k p s ≡ some o)

  parent_found :
      (id : String) (i : Item) (t : Tree B)
      → IsRead
      → B.items.at id t.items ≡ some i
      → (i.device_uuid == device) ≡ true
      → parent_of B device id t ≡ some (some i)
  parent_found id i t read e d =
      let p : Item → Bool = λ x. x.device_uuid == device in
      let got = read id p t.items in
      let found = B.items.get_at id p t.items got.0 got.1 in
      got.1 ∙ ap some (found ∙ (ap (passing p) e ∙ ap (λ b. if b then some i else none) d))

  pub build_chain :
      (up : Entries) (fuel : ℕ) (i : Item) (below : List Text) (t : Tree B)
      → IsRead
      → length up < fuel
      → i.parent_id ≡ top up
      → IsChain up t.items
      → build_segments B fuel device i below t ≡ some (ok (names_onto up (i.name ∷ below)))
  unfolding build_segments
  build_chain up zero i below t read l q c = absurd (omega arith)
  build_chain [] (suc fuel) i below t read l q c = rw q
  build_chain ((id, name) ∷ up) (suc fuel) i below t read l q c =
      let parent : Item = c.1.0.0 in
      let found = parent_found id parent t read c.1.0.1.0 c.1.0.1.1.0 in
      rw (q, c.0, found)
        (build_chain up fuel parent (i.name ∷ below) t read (omega arith) c.1.0.1.1.1.1 c.1.1
          ∙ ap (λ n. some (ok (names_onto up (n ∷ i.name ∷ below)))) c.1.0.1.1.1.0)

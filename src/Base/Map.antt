-- ===== src/Base/Map.antt =====
-- Go maps with string keys, as association lists. The order of entries is that of insertion; the
-- program's ranges over a map take the order as a parameter where it can matter.
use sagiri_guard.Base.Tests.{if◌then◌else◌}
use Prim.Native.String.{String}
use mathlib.Core.Path.{◌≡◌, refl, ap, ◌∙◌}
use mathlib.Core.Bool.{false}
use text.Mathlib.TextPositions.{eq_refl}
use mathlib.Core.Option.{Option, none, some}
use mathlib.Core.List.{List, [], ◌∷◌}
use native.Mathlib.Omega.{arith}
use text.Mathlib.Text.{◌==◌}
use text.Mathlib.TextEquality.{eq_iff}

abbrev pub Map {ℓ} : Type ℓ → Type ℓ
Map V = List (String × V)

module _ {ℓ} {V : Type ℓ} where
  -- `v, ok := m[name]`
  unfoldable pub lookup : String → Map V → Option V
  lookup name [] = none
  lookup name ((entry, value) ∷ rest) = if entry == name then some value else lookup name rest

  -- `m[name] = value`
  unfoldable pub insert : String → V → Map V → Map V
  insert name value [] = (name, value) ∷ []
  insert name value ((entry, old) ∷ rest) =
      if entry == name then (name, value) ∷ rest else (entry, old) ∷ insert name value rest

  -- `delete(m, name)`
  unfoldable pub delete : String → Map V → Map V
  delete name [] = []
  delete name ((entry, value) ∷ m) =
      let rest = delete name m in if entry == name then rest else (entry, value) ∷ rest

  pub lookup-insert :
      (name asked : String) (value : V) (m : Map V)
      → lookup asked (insert name value m) ≡ (if name == asked then some value else lookup asked m)
  unfolding lookup insert
  lookup-insert name asked value [] = refl
  lookup-insert name asked value ((entry, old) ∷ rest) =
      let tail = lookup-insert name asked value rest in
      ground (tail, eq_iff entry name, eq_iff entry asked, eq_iff name asked, arith)

  pub lookup-delete :
      (name asked : String) (m : Map V)
      → lookup asked (delete name m) ≡ (if name == asked then none else lookup asked m)
  unfolding lookup delete
  lookup-delete name asked [] = ground arith
  lookup-delete name asked ((entry, value) ∷ rest) =
      let tail = lookup-delete name asked rest in
      ground (tail, eq_iff entry name, eq_iff entry asked, eq_iff name asked, arith)

  pub lookup-insert_same : (k : String) (v : V) (m : Map V) → lookup k (insert k v m) ≡ some v
  lookup-insert_same k v m =
      lookup-insert k k v m ∙ ap (λ b. if b then some v else lookup k m) (eq_refl k)

  pub lookup-insert_other :
      (k j : String) (v : V) (m : Map V) → (k == j) ≡ false → lookup j (insert k v m) ≡ lookup j m
  lookup-insert_other k j v m h =
      lookup-insert k j v m ∙ ap (λ b. if b then some v else lookup j m) h

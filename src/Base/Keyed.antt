-- ===== src/Base/Keyed.antt =====
-- A table of the database with a string for its primary key, as far as the program relies on it. A
-- call may fail, and then changes nothing. A row that was deleted softly is still there.
use sagiri_guard.Base.Tests.{if◌then◌else◌, Bool-cases}
use mathlib.Core.Logic.{inl, inr}
use text.Mathlib.TextEquality.{eq_iff}
use sagiri_guard.Base.Map.{Map, lookup, insert, lookup-insert}
use Prim.Native.String.{String}
use mathlib.Core.Path.{◌≡◌, refl, sym, ap, ◌∙◌}
use mathlib.Core.Bool.{Bool}
use mathlib.Core.Option.{Option, none, some}
use mathlib.Core.List.{[], ◌∷◌}
use text.Mathlib.Text.{◌==◌}
use sagiri_guard.Base.Table.{eq_of_some-eq}

abbrev pub passing : {Row : Type 0} → (Row → Bool) → Option Row → Option Row
passing p none = none
passing p (some r) = if p r then some r else none

abbrev pub updated : {Row : Type 0} → (Row → Row) → Row → Option Row → Row
updated f r none = r
updated f r (some old) = f old

abbrev pub changed : {Row : Type 0} → (Row → Bool) → (Row → Row) → Option Row → Option Row
changed p f none = none
changed p f (some r) = some (if p r then f r else r)

pub record Keyed (Row : Type 0) : Type 1 where
  pub State : Type 0
  -- the row of a key
  pub at : String → State → Option Row
  -- `Clauses(OnConflict{Columns: id, DoUpdates: f}).Create(&r)`
  pub upsert : String → Row → (Row → Row) → State → Option State
  -- `Where("id = ? AND ...").First(&r)`
  pub get : String → (Row → Bool) → State → Option (Option Row)
  -- `Where(...).First(&r)`, by another column
  pub first : (Row → Bool) → State → Option (Option Row)
  -- `Where("id = ? AND ...").Updates(f)`, and Delete, which sets the time of deletion
  pub update : String → (Row → Bool) → (Row → Row) → State → Option State
  pub upsert_at :
      (k : String) (r : Row) (f : Row → Row) (s t : State)
      → upsert k r f s ≡ some t
      → (j : String) → at j t ≡ (if k == j then some (updated f r (at k s)) else at j s)
  pub get_at :
      (k : String) (p : Row → Bool) (s : State) (o : Option Row)
      → get k p s ≡ some o
      → o ≡ passing p (at k s)
  pub update_at :
      (k : String) (p : Row → Bool) (f : Row → Row) (s t : State)
      → update k p f s ≡ some t
      → (j : String) → at j t ≡ (if k == j then changed p f (at k s) else at j s)

module _ {Row : Type 0} where
  -- the first row that passes a test
  abbrev pub first_row : (Row → Bool) → Map Row → Option Row
  first_row p [] = none
  first_row p ((k, r) ∷ m) = let rest = first_row p m in if p r then some r else rest

  abbrev pub put : String → Option Row → Map Row → Map Row
  put k none m = m
  put k (some r) m = insert k r m

pub lookup-put :
    {Row : Type 0} (k : String) (p : Row → Bool) (f : Row → Row) (m : Map Row) (o : Option Row)
    → lookup k m ≡ o
    → (j : String)
    → lookup j (put k (changed p f o) m) ≡ (if k == j then changed p f o else lookup j m)
lookup-put k p f m none e j = elim (Bool-cases (k == j)) [
  | inl q ↦ rw q (ap (λ i. lookup i m) (sym ((eq_iff k j).0 q)) ∙ e)
  | inr q ↦ rw q
]
lookup-put k p f m (some r) e j = lookup-insert k j (if p r then f r else r) m

-- A table that never fails, kept as a map.
abbrev pub map_table : (Row : Type 0) → Keyed Row
map_table Row = record {
  State = Map Row;
  at = λ k m. lookup k m;
  upsert = λ k r f m. some (insert k (updated f r (lookup k m)) m);
  get = λ k p m. some (passing p (lookup k m));
  first = λ p m. some (first_row p m);
  update = λ k p f m. some (put k (changed p f (lookup k m)) m);
  upsert_at = λ k r f s t e j.
      ap (lookup j) (eq_of_some-eq e) ∙ lookup-insert k j (updated f r (lookup k s)) s;
  get_at = λ k p s o e. eq_of_some-eq e;
  update_at =
      λ k p f s t e j. ap (lookup j) (eq_of_some-eq e) ∙ lookup-put k p f s (lookup k s) refl j;
}

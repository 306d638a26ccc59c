-- ===== src/Backend/Tree/Runs.antt =====
-- backend/app/repo/filetree_repo.go: what runs of database calls say of their parts, and keep.
use mathlib.Core.Bool.{false≢true}
use sagiri_guard.Base.{
  ℕ, ◌≡◌, refl, sym, ap, Bool, true, false, List, Option, none, some, String, if◌then◌else◌, is_nil,
}
use sagiri_guard.Base.Results.{Result, ok, err, ok_eq}
use sagiri_guard.Backend.Tree.{
  Database, Item, Tree, Run, and_then, wrote, transaction, found_item, remove_links, create_links,
  replace_content_types,
}

is_ok : {A : Type 0} → Result String A → Bool
is_ok (ok a) = true
is_ok (err e) = false

module _ (B : Database) where
  pub failed_not_ok :
      {A : Type 0} (m : String) (t u : Tree B) (a : A) → ¬ (◌≡◌ {A = Run B A} (err m, t) (ok a, u))
  failed_not_ok m t u a e = false≢true (unfold is_ok in ap (λ r. is_ok r.0) e)

  -- what a run that succeeds says of its parts
  pub and_then-ok :
      {A C : Type 0} (r : Run B A) (k : A → Tree B → Run B C) (c : C) (u : Tree B)
      → and_then B r k ≡ (ok c, u)
      → (a : A) × ((t : Tree B) × ((r ≡ (ok a, t)) × (k a t ≡ (ok c, u))))
  unfolding and_then
  and_then-ok (ok a, t) k c u e = (a, (t, (refl, e)))
  and_then-ok (err m, t) k c u e = absurd (false≢true (unfold is_ok in ap (λ r. is_ok r.0) e))

  pub wrote-ok :
      {S : Type 0} (o : Option S) (put : S → Tree B) (t : Tree B) (b : Bool) (u : Tree B)
      → wrote B o put t ≡ (ok b, u)
      → (s : S) × ((o ≡ some s) × (put s ≡ u))
  wrote-ok none put t b u e = absurd (false≢true (unfold is_ok in ap (λ r. is_ok r.0) e))
  wrote-ok (some s) put t b u e = (s, (refl, ap (λ r. r.1) e))

  pub transaction-ok :
      {A : Type 0} (t : Tree B) (r : Run B A) (a : A) (u : Tree B)
      → transaction B t r ≡ (ok a, u)
      → r ≡ (ok a, u)
  transaction-ok t (ok x, v) a u e = e
  transaction-ok t (err m, v) a u e = absurd (false≢true (unfold is_ok in ap (λ r. is_ok r.0) e))

  pub wrote_keeps :
      {S : Type 0} (P : Tree B → Type 0) (o : Option S) (put : S → Tree B) (t : Tree B)
      → ((s : S) → P (put s))
      → P t
      → P (wrote B o put t).1
  wrote_keeps P none put t h k = k
  wrote_keeps P (some s) put t h k = h s

  -- what each part of a run keeps
  pub run_keeps :
      (P : Tree B → Type 0) {A C : Type 0} (r : Run B A) (k : A → Tree B → Run B C)
      → P r.1
      → ((a : A) (t : Tree B) → P t → P (k a t).1)
      → P (and_then B r k).1
  unfolding and_then
  run_keeps P (ok a, t) k h f = f a t h
  run_keeps P (err e, t) k h f = h

  pub rollback_keeps :
      (P : Tree B → Type 0) {A : Type 0} (t : Tree B) (r : Run B A)
      → P t
      → P r.1
      → P (transaction B t r).1
  rollback_keeps P t (ok a, u) h k = k
  rollback_keeps P t (err e, u) h k = h

  pub if_keeps :
      (P : Tree B → Type 0) {A : Type 0} (b : Bool) (x y : Run B A)
      → P x.1
      → P y.1
      → P (if b then x else y).1
  if_keeps P true x y h k = h
  if_keeps P false x y h k = k

  -- content types are set without a change of what the other tables have
  pub types_keep :
      (P : Tree B → Type 0) (id : String) (ids : List ℕ) (t : Tree B)
      → ((u : Tree B) (s : B.links.State) → P u → P (record u { links = s }))
      → P t
      → P (replace_content_types B id ids t).1
  unfolding replace_content_types remove_links create_links
  types_keep P id ids t f h = rollback_keeps P t _ h (
      run_keeps P (remove_links B id t) _
        (wrote_keeps P _ (λ s. record t { links = s }) t (λ s. f t s h) h)
        (λ a u k.
          if_keeps P (is_nil ids) _ _ k
            (wrote_keeps P _ (λ s. record u { links = s }) u (λ s. f u s k) k)))

  pub found-ok :
      (q : Option (Option Item)) (t : Tree B) (o : Option Item) (u : Tree B)
      → found_item B q t ≡ (ok o, u)
      → (q ≡ some o) × (u ≡ t)
  found-ok none t o u e = absurd (false≢true (unfold is_ok in ap (λ r. is_ok r.0) e))
  found-ok (some x) t o u e = (ap some (ok_eq (ap (λ r. r.0) e)), sym (ap (λ r. r.1) e))

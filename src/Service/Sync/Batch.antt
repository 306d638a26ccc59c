-- ===== src/Service/Sync/Batch.antt =====
-- agent/internal/service/filetree_sync.go: what a synchronization that fails leaves behind.
use mathlib.Core.Bool.{false≢true}
use sagiri_guard.Base.{
  ◌≡◌, refl, ap, ◌∙◌, Bool, true, false, Bool-cases, Option-cases, inl, inr, List, [], ◌∷◌, Option,
  none, some, String, ◌==◌, if◌then◌else◌, nat_eq, map, is_nil,
}
use sagiri_guard.Base.Results.{Result, ok, err}
use sagiri_guard.Local.{LocalDb, MonitoredFile}
use sagiri_guard.Changes.{FileChange}
use sagiri_guard.Service.Sync.{
  Env, is_due, batch, with_item_id, try_update, store_item_id, row_change, sync_rows, after_send,
  sync_batch, sync_file_tree_once,
}

-- what a row says besides its item ID
abbrev pub without_id : MonitoredFile → MonitoredFile
without_id r = record r { item_id = "" }

same_rows :
    (p : MonitoredFile → Bool) (i : String) (rows : List MonitoredFile)
    → map without_id (map (λ r. if p r then with_item_id i r else r) rows) ≡ map without_id rows
unfolding with_item_id
same_rows p i [] = refl
same_rows p i (r ∷ rows) =
    let ih = same_rows p i rows in
    elim (Bool-cases (p r)) [ inl e ↦ rw (e, ih) | inr e ↦ rw (e, ih) ]

module _ (D : LocalDb) where
  abbrev pub seen_rows : D.table.State → List MonitoredFile
  seen_rows s = map without_id (D.table.rows s)

  try_update-same :
      (p : MonitoredFile → Bool) (i : String) (s : D.table.State)
      → seen_rows (try_update D p (with_item_id i) s) ≡ seen_rows s
  unfolding try_update
  try_update-same p i s = elim (Option-cases (D.table.update p (with_item_id i) s)) [
    | inl e ↦ ap (λ o. seen_rows (elim o as (λ _. D.table.State) [ none ↦ s | some u ↦ u ])) e
    | inr (u, e) ↦
        ap (λ o. seen_rows (elim o as (λ _. D.table.State) [ none ↦ s | some u ↦ u ])) e
        ∙ (ap (map without_id) (D.table.update_rows p (with_item_id i) s u e)
            ∙ same_rows p i (D.table.rows s))
  ]

  store_item_id-same :
      (r : MonitoredFile) (c : Option FileChange) (s : D.table.State)
      → seen_rows (store_item_id D r c s) ≡ seen_rows s
  unfolding store_item_id
  store_item_id-same r none s = refl
  store_item_id-same r (some c) s = elim (Bool-cases (r.item_id == "")) [
    | inl e ↦ rw e (try_update-same (λ x. nat_eq x.id r.id) c.id s)
    | inr e ↦ rw e
  ]

  sync_rows-same :
      (E : Env) (rows : List MonitoredFile) (s : D.table.State)
      → seen_rows (sync_rows D E rows s).1 ≡ seen_rows s
  unfolding sync_rows
  sync_rows-same E [] s = refl
  sync_rows-same E (r ∷ rows) s =
      sync_rows-same E rows (store_item_id D r (row_change E r) s)
      ∙ store_item_id-same r (row_change E r) s

  -- whether a result is an error
  abbrev pub failed : Result String Bool → Bool
  failed (ok b) = false
  failed (err e) = true

  after_send-same :
      (o : Option String) (rows : List MonitoredFile) (s : D.table.State)
      → failed (after_send D o rows s).0 ≡ true
      → (after_send D o rows s).1 ≡ s
  after_send-same (some e) rows s h = refl
  after_send-same none rows s h = absurd (false≢true h)

  sync_batch-same :
      (E : Env) (send : List FileChange → Option String) (due : Option (List MonitoredFile))
      (s : D.table.State)
      → failed (sync_batch D E send due s).0 ≡ true
      → seen_rows (sync_batch D E send due s).1 ≡ seen_rows s
  unfolding sync_batch
  sync_batch-same E send none s h = refl
  sync_batch-same E send (some due) s h =
      let done = sync_rows D E (batch due) s in
      elim (Bool-cases (is_nil done.0)) [
        | inl e ↦ rw e (sync_rows-same E (batch due) s)
        | inr e ↦ rw e (
            ap seen_rows (after_send-same (send done.0) (batch due) done.1 (rw e at h))
            ∙ sync_rows-same E (batch due) s)
      ]

  -- For all databases, environments and connections: a synchronization that returns an error leaves
  -- every row as it was but for its item ID, so no change loses its pending mark.
  failed_sync :
      (E : Env) (send : List FileChange → Option String) (s : D.table.State)
      → failed (sync_file_tree_once D E send s).0 ≡ true
      → seen_rows (sync_file_tree_once D E send s).1 ≡ seen_rows s
  unfolding sync_file_tree_once
  failed_sync E send s h = elim (Bool-cases (E.device == "")) [
    | inl e ↦ rw e
    | inr e ↦ rw e (sync_batch-same E send (D.table.find is_due s) s (rw e at h))
  ]

-- ===== src/Service/Sync/Starvation.antt =====
-- agent/internal/service/filetree_sync.go: the rows of files that were deleted or moved out stay due,
-- and enough of them keep newer changes from being sent.
use mathlib.Core.Path.{subst}
use sagiri_guard.Base.{
  ℕ, zero, suc, ◌≤◌, ◌<◌, ◌≡◌, refl, sym, ap, ◌∙◌, Bool, false, ◌&&◌, ◌||◌, Bool-cases,
  Option-cases, inl, inr, List, [], ◌∷◌, Option, none, some, String, ◌==◌, if◌then◌else◌, nat_eq,
  ltb, leb, take, select, map, All, is_nil, arith,
}
use sagiri_guard.Local.{LocalDb, MonitoredFile}
use sagiri_guard.Changes.{FileChange}
use sagiri_guard.Service.Sync.{
  Env, is_removed, is_due, needs_backup, insert_row, oldest_first, batch_limit, batch, with_item_id,
  cleared, collect_ids, among, try_update, store_item_id, row_change, sync_rows, after_send,
  sync_batch, sync_file_tree_once,
}

abbrev pub is_before : ℕ → MonitoredFile → Bool
is_before t r = ltb r.last_event_at t

-- a row of a file that was taken away before a time
abbrev pub is_stuck : ℕ → MonitoredFile → Bool
is_stuck t r = is_removed r && is_before t r

abbrev pub IsBefore : ℕ → MonitoredFile → Type 0
IsBefore t r = r.last_event_at < t

abbrev pub IsSorted : List MonitoredFile → Type 0
IsSorted [] = Unit
IsSorted (r ∷ rows) = All (λ x. r.last_event_at ≤ x.last_event_at) rows × IsSorted rows

All-le :
    (m n : ℕ) (rows : List MonitoredFile)
    → m ≤ n
    → All (λ x. n ≤ x.last_event_at) rows
    → All (λ x. m ≤ x.last_event_at) rows
All-le m n [] h k = tt
All-le m n (r ∷ rows) h k =
    let first : m ≤ r.last_event_at = (let l = k.0 in omega arith) in (first, All-le m n rows h k.1)

insert_row-All :
    (m : ℕ) (r : MonitoredFile) (rows : List MonitoredFile)
    → m ≤ r.last_event_at
    → All (λ x. m ≤ x.last_event_at) rows
    → All (λ x. m ≤ x.last_event_at) (insert_row r rows)
unfolding insert_row
insert_row-All m r [] h k = (h, tt)
insert_row-All m r (x ∷ rows) h k = elim (Bool-cases (leb r.last_event_at x.last_event_at)) [
  | inl e ↦ rw e (h, k)
  | inr e ↦ rw e (k.0, insert_row-All m r rows h k.1)
]

insert_row-IsSorted :
    (r : MonitoredFile) (rows : List MonitoredFile) → IsSorted rows → IsSorted (insert_row r rows)
unfolding insert_row
insert_row-IsSorted r [] h = (tt, tt)
insert_row-IsSorted r (x ∷ rows) h = elim (Bool-cases (leb r.last_event_at x.last_event_at)) [
  | inl e ↦
      let le : r.last_event_at ≤ x.last_event_at = ground arith in
      rw e ((le, All-le r.last_event_at x.last_event_at rows le h.0), h)
  | inr e ↦
      let ge : x.last_event_at ≤ r.last_event_at = ground arith in
      rw e (insert_row-All x.last_event_at r rows ge h.0, insert_row-IsSorted r rows h.1)
]

oldest_first-IsSorted : (rows : List MonitoredFile) → IsSorted (oldest_first rows)
unfolding oldest_first
oldest_first-IsSorted [] = tt
oldest_first-IsSorted (r ∷ rows) =
    insert_row-IsSorted r (oldest_first rows) (oldest_first-IsSorted rows)

-- how many rows pass a test
abbrev pub count : (MonitoredFile → Bool) → List MonitoredFile → ℕ
count p [] = 0
count p (r ∷ rows) = let n = count p rows in if p r then suc n else n

count-insert_row :
    (p : MonitoredFile → Bool) (r : MonitoredFile) (rows : List MonitoredFile)
    → count p (insert_row r rows) ≡ count p (r ∷ rows)
unfolding insert_row
count-insert_row p r [] = refl
count-insert_row p r (x ∷ rows) = ground (arith, count-insert_row p r rows)

count-oldest_first :
    (p : MonitoredFile → Bool) (rows : List MonitoredFile)
    → count p (oldest_first rows) ≡ count p rows
unfolding oldest_first
count-oldest_first p [] = refl
count-oldest_first p (r ∷ rows) =
    count-insert_row p r (oldest_first rows)
    ∙ ap (λ n. if p r then suc n else n) (count-oldest_first p rows)

count_none :
    (t m : ℕ) (rows : List MonitoredFile)
    → t ≤ m
    → All (λ x. m ≤ x.last_event_at) rows
    → count (is_before t) rows ≡ 0
count_none t m [] h k = refl
count_none t m (r ∷ rows) h k =
    let later : ltb r.last_event_at t ≡ false =
      (let l : m ≤ r.last_event_at = k.0 in ground arith) in
    rw later (count_none t m rows h k.1)

take-IsBefore :
    (t n : ℕ) (rows : List MonitoredFile)
    → IsSorted rows
    → n ≤ count (is_before t) rows
    → All (IsBefore t) (take n rows)
take-IsBefore t zero rows h k = tt
take-IsBefore t (suc n) [] h k = tt
take-IsBefore t (suc n) (r ∷ rows) h k = elim (Bool-cases (ltb r.last_event_at t)) [
  | inl e ↦
      let first : r.last_event_at < t = ground arith in
      let rest : suc n ≤ suc (count (is_before t) rows) = rw e at k in
      (first, take-IsBefore t n rows h.1 (omega arith))
  | inr e ↦
      let later : t ≤ r.last_event_at = ground arith in
      let zero_left = count_none t r.last_event_at rows later h.0 in
      let rest : suc n ≤ count (is_before t) rows = rw e at k in absurd (omega arith)
]

-- at least a batch of stuck rows
abbrev pub IsBlocked : ℕ → List MonitoredFile → Type 0
IsBlocked t rows = batch_limit ≤ count (is_stuck t) rows

due_step :
    (p : MonitoredFile → Bool) (r : MonitoredFile) (due : List MonitoredFile) (n : ℕ)
    (removed needs pending : Bool)
    → n ≤ count p due
    → (if removed && p r then suc n else n)
      ≤ count p (if pending || (needs || removed) then r ∷ due else due)
due_step p r due n removed needs pending h = ground arith

count_due :
    (t : ℕ) (rows : List MonitoredFile)
    → count (is_stuck t) rows ≤ count (is_before t) (select is_due rows)
unfolding is_due
count_due t [] = omega arith
count_due t (r ∷ rows) =
    due_step (is_before t) r (select is_due rows) (count (is_stuck t) rows) (is_removed r)
      (needs_backup r.last_backup_at r.last_event_at) r.change_pending (count_due t rows)

batch-IsBefore :
    (t : ℕ) (rows : List MonitoredFile)
    → IsBlocked t rows
    → All (IsBefore t) (batch (select is_due rows))
unfolding batch
batch-IsBefore t rows h =
    let due = count_due t rows in
    let same = count-oldest_first (is_before t) (select is_due rows) in
    take-IsBefore t batch_limit (oldest_first (select is_due rows))
      (oldest_first-IsSorted (select is_due rows)) (omega arith)

count_kept :
    (t : ℕ) (p : MonitoredFile → Bool) (f : MonitoredFile → MonitoredFile)
    → ((r : MonitoredFile) → is_stuck t (f r) ≡ is_stuck t r)
    → (rows : List MonitoredFile)
    → count (is_stuck t) (map (λ r. if p r then f r else r) rows) ≡ count (is_stuck t) rows
count_kept t p f h [] = refl
count_kept t p f h (r ∷ rows) =
    let same : is_stuck t (if p r then f r else r) ≡ is_stuck t r = elim (Bool-cases (p r)) [
      | inl e ↦ rw e (h r)
      | inr e ↦ rw e
    ] in
    let ih = count_kept t p f h rows in rw (same, ih)

module _ (D : LocalDb) (t : ℕ) where
  -- the number of stuck rows of a state
  abbrev stuck : D.table.State → ℕ
  stuck s = count (is_stuck t) (D.table.rows s)

  try_update-stuck :
      (p : MonitoredFile → Bool) (f : MonitoredFile → MonitoredFile) (s : D.table.State)
      → ((r : MonitoredFile) → is_stuck t (f r) ≡ is_stuck t r)
      → stuck (try_update D p f s) ≡ stuck s
  unfolding try_update
  try_update-stuck p f s h = elim (Option-cases (D.table.update p f s)) [
    | inl e ↦ ap (λ o. stuck (elim o as (λ _. D.table.State) [ none ↦ s | some u ↦ u ])) e
    | inr (u, e) ↦
        ap (λ o. stuck (elim o as (λ _. D.table.State) [ none ↦ s | some u ↦ u ])) e
        ∙ (ap (count (is_stuck t)) (D.table.update_rows p f s u e)
            ∙ count_kept t p f h (D.table.rows s))
  ]

  store_item_id-stuck :
      (r : MonitoredFile) (c : Option FileChange) (s : D.table.State)
      → stuck (store_item_id D r c s) ≡ stuck s
  unfolding store_item_id
  store_item_id-stuck r none s = refl
  store_item_id-stuck r (some c) s = elim (Bool-cases (r.item_id == "")) [
    | inl e ↦ rw e (
        try_update-stuck (λ x. nat_eq x.id r.id) (with_item_id c.id) s
          (λ r. unfold with_item_id in refl))
    | inr e ↦ rw e
  ]

  sync_rows-stuck :
      (E : Env) (rows : List MonitoredFile) (s : D.table.State)
      → stuck (sync_rows D E rows s).1 ≡ stuck s
  unfolding sync_rows
  sync_rows-stuck E [] s = refl
  sync_rows-stuck E (r ∷ rows) s =
      sync_rows-stuck E rows (store_item_id D r (row_change E r) s)
      ∙ store_item_id-stuck r (row_change E r) s

  after_send-stuck :
      (o : Option String) (rows : List MonitoredFile) (s : D.table.State)
      → stuck (after_send D o rows s).1 ≡ stuck s
  after_send-stuck (some e) rows s = refl
  after_send-stuck none rows s =
      try_update-stuck (among (collect_ids rows)) cleared s (λ r. unfold cleared in refl)

  sync_batch-stuck :
      (E : Env) (send : List FileChange → Option String) (due : Option (List MonitoredFile))
      (s : D.table.State)
      → stuck (sync_batch D E send due s).1 ≡ stuck s
  unfolding sync_batch
  sync_batch-stuck E send none s = refl
  sync_batch-stuck E send (some due) s =
      let done = sync_rows D E (batch due) s in
      elim (Bool-cases (is_nil done.0)) [
        | inl e ↦ rw e (sync_rows-stuck E (batch due) s)
        | inr e ↦
            rw e
              (after_send-stuck (send done.0) (batch due) done.1 ∙ sync_rows-stuck E (batch due) s)
      ]

  sync_once-stuck :
      (E : Env) (send : List FileChange → Option String) (s : D.table.State)
      → stuck (sync_file_tree_once D E send s).1 ≡ stuck s
  unfolding sync_file_tree_once
  sync_once-stuck E send s = elim (Bool-cases (E.device == "")) [
    | inl e ↦ rw e
    | inr e ↦ rw e (sync_batch-stuck E send (D.table.find is_due s) s)
  ]

  -- a synchronization at each tick, each with what the system and the connection answer then
  abbrev pub sync_all :
      List (Env × (List FileChange → Option String)) → D.table.State → D.table.State
  sync_all [] s = s
  sync_all ((E, send) ∷ ticks) s = sync_all ticks (sync_file_tree_once D E send s).1

  sync_all-stuck :
      (ticks : List (Env × (List FileChange → Option String))) (s : D.table.State)
      → stuck (sync_all ticks s) ≡ stuck s
  sync_all-stuck [] s = refl
  sync_all-stuck ((E, send) ∷ ticks) s =
      sync_all-stuck ticks (sync_file_tree_once D E send s).1 ∙ sync_once-stuck E send s

  -- When the table has 256 rows or more of files that were deleted or moved out before a time, then
  -- after any number of synchronizations, whatever they answer, the rows of the next batch are all
  -- from before that time: a change of that time or later is not sent.
  pub blocked_for_ever :
      (ticks : List (Env × (List FileChange → Option String))) (s : D.table.State)
      (due : List MonitoredFile)
      → IsBlocked t (D.table.rows s)
      → D.table.find is_due (sync_all ticks s) ≡ some due
      → All (IsBefore t) (batch due)
  blocked_for_ever ticks s due h e =
      let now = sync_all ticks s in
      let same = sync_all-stuck ticks s in
      subst (λ l. All (IsBefore t) (batch l)) (sym (D.table.find_rows is_due now due e))
        (batch-IsBefore t (D.table.rows now) (omega arith))

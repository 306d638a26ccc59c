-- ===== src/Monitor/Stored.antt =====
-- agent/internal/monitor: what the table of watched files says of a path after events were emitted.
-- The abstract view is a map from paths to what was last stored for them.
use mathlib.Core.Bool.{false≢true}
use sagiri_guard.Base.{
  ℕ, ◌≡◌, refl, sym, ap, ◌∙◌, Bool, true, false, not, ◌&&◌, Bool-cases, inl, inr, List, [], ◌∷◌,
  ◌++◌, Option, none, some, String, ◌==◌, eq_iff, eq_refl, if◌then◌else◌, nat_eq, any, map, arith,
}
use sagiri_guard.Base.Map.{Map, lookup, insert, lookup-insert}
use sagiri_guard.Local.{MonitoredFile, LocalDb, has_path, upserted, with_key}
use sagiri_guard.Monitor.{
  action_name, FileEvent, Sink, should_mark_pending, new_row, touched, store_row, persist_old_path,
  persist_at, persist_in, persist_monitored_file, emit_event, emit_all,
}

-- what the table says of a path
pub record Standing : Type 0 where
  pub action : String
  pub at : ℕ
  pub pending : Bool

abbrev pub status_of : MonitoredFile → Standing
status_of r = record { action = r.last_action; at = r.last_event_at; pending = r.change_pending }

unfoldable pub status : String → List MonitoredFile → Option Standing
status p [] = none
status p (r ∷ rows) = if r.path == p then some (status_of r) else status p rows

abbrev pub View : Type 0
View = Map Standing

-- what an event means: its path has its action, and its old path has moved out
unfoldable pub seen_at : FileEvent → ℕ → View → View
seen_at evt at v =
    let w : View =
      insert evt.path
        (record {
          action = action_name evt.action;
          at = at;
          pending = should_mark_pending evt.action;
        })
        v in
    if not (evt.old_path == "") && not (evt.old_path == evt.path)
    then insert evt.old_path (record { action = "move_out"; at = at; pending = false }) w
    else w

unfoldable pub seen : ℕ → List FileEvent → View → View
unfolding seen_at
seen now [] v = v
seen now (e ∷ es) v =
    seen now es
      (if e.path == "" then v else seen_at e (if nat_eq e.timestamp 0 then now else e.timestamp) v)

-- a database whose writes succeed
abbrev pub IsUp : LocalDb → Type 0
IsUp D =
    (r : MonitoredFile) (f : MonitoredFile → MonitoredFile) (s : D.table.State)
    → (t : D.table.State) × (D.upsert r f s ≡ some t)

-- the table says what the view says
abbrev pub IsView : (D : LocalDb) → View → Option D.table.State → Type 0
IsView D v none = Unit
IsView D v (some s) = (p : String) → status p (D.table.rows s) ≡ lookup p v

abbrev pub touch : String → String → ℕ → Bool → MonitoredFile → MonitoredFile
touch q action at pending x = if has_path q x then touched action at pending x else x

abbrev pub stored : String → ℕ → Bool → Option Standing
stored action at pending = some (record { action = action; at = at; pending = pending })

differs : (a q p : String) → (a == q) ≡ true → (q == p) ≡ false → (a == p) ≡ false
differs a q p h k = ground (eq_iff a q, eq_iff q p, eq_iff a p, arith)

status_other :
    (q action : String) (at : ℕ) (pending : Bool) (p : String) (rows : List MonitoredFile)
    → (q == p) ≡ false
    → status p (map (touch q action at pending) rows) ≡ status p rows
unfolding status
status_other q action at pending p [] h = refl
status_other q action at pending p (r ∷ rows) h =
    let ih = status_other q action at pending p rows h in
    elim (Bool-cases (r.path == q)) [
      | inl e ↦ rw (e, differs r.path q p e h, ih)
      | inr e ↦ rw (e, ih)
    ]

status_same :
    (q action : String) (at : ℕ) (pending : Bool) (rows : List MonitoredFile)
    → any (has_path q) rows ≡ true
    → status q (map (touch q action at pending) rows) ≡ stored action at pending
unfolding status
status_same q action at pending [] h = absurd (false≢true h)
status_same q action at pending (r ∷ rows) h = elim (Bool-cases (r.path == q)) [
  | inl e ↦ rw (e, e)
  | inr e ↦ rw (e, e) (status_same q action at pending rows (rw e at h))
]

status_absent :
    (q : String) (r : MonitoredFile) (rows : List MonitoredFile)
    → any (has_path q) rows ≡ false
    → status q (rows ++ (r ∷ [])) ≡ status q (r ∷ [])
unfolding status
status_absent q r [] h = refl
status_absent q r (x ∷ rows) h = elim (Bool-cases (x.path == q)) [
  | inl e ↦ absurd (false≢true (sym h ∙ rw e))
  | inr e ↦ rw e (status_absent q r rows (rw e at h))
]

status_before :
    (p : String) (r : MonitoredFile) (rows : List MonitoredFile)
    → (r.path == p) ≡ false
    → status p (rows ++ (r ∷ [])) ≡ status p rows
unfolding status
status_before p r [] h = rw h
status_before p r (x ∷ rows) h =
    ap (λ l. if x.path == p then some (status_of x) else l) (status_before p r rows h)

-- the table after an insert or an update
status-upserted :
    (q action : String) (at : ℕ) (pending : Bool) (n : ℕ) (rows : List MonitoredFile) (p : String)
    → status p (upserted n (new_row q action at pending) (touched action at pending) rows)
      ≡ (if q == p then stored action at pending else status p rows)
unfolding status
status-upserted q action at pending n rows p =
    let row : MonitoredFile = with_key n (new_row q action at pending) in
    elim (Bool-cases (q == p)) [
      | inl e ↦
          let same : q ≡ p = (eq_iff q p).0 e in
          rw (e, sym same)
            (elim (Bool-cases (any (has_path q) rows)) [
              | inl h ↦ rw h (status_same q action at pending rows h)
              | inr h ↦ rw h (status_absent q row rows h ∙ (let i = eq_refl q in rw i))
            ])
      | inr e ↦ rw e (elim (Bool-cases (any (has_path q) rows)) [
        | inl h ↦ rw h (status_other q action at pending p rows e)
        | inr h ↦ rw h (status_before p row rows e)
      ])
    ]

module _ (D : LocalDb) (up : IsUp D) where
  store_row_done :
      (q action : String) (at : ℕ) (pending : Bool) (s t : D.table.State)
      → D.upsert (new_row q action at pending) (touched action at pending) s ≡ some t
      → store_row D q action at pending s ≡ t
  unfolding store_row
  store_row_done q action at pending s t e =
      ap (λ o. elim o as (λ _. D.table.State) [ none ↦ s | some u ↦ u ]) e

  store_row-IsView :
      (q action : String) (at : ℕ) (pending : Bool) (v : View) (s : D.table.State)
      → IsView D v (some s)
      → IsView D
          (insert q (record { action = action; at = at; pending = pending }) v)
          (some (store_row D q action at pending s))
  store_row-IsView q action at pending v s h p =
      let done = up (new_row q action at pending) (touched action at pending) s in
      let e = done.1 in
      let rows =
        D.upsert_rows (new_row q action at pending) (touched action at pending) s done.0 e in
      ap (λ t. status p (D.table.rows t)) (store_row_done q action at pending s done.0 e)
      ∙ (ap (status p) rows.1
          ∙ (status-upserted q action at pending rows.0 (D.table.rows s) p
              ∙ (ap (λ o. if q == p then stored action at pending else o) (h p)
                  ∙ sym (
                      lookup-insert q p (record { action = action; at = at; pending = pending })
                        v))))

  persist_at-IsView :
      (evt : FileEvent) (at : ℕ) (v : View) (s : D.table.State)
      → IsView D v (some s)
      → IsView D (seen_at evt at v) (some (persist_at D evt at s))
  unfolding persist_at seen_at persist_old_path
  persist_at-IsView evt at v s h =
      let one =
        store_row-IsView evt.path (action_name evt.action) at (should_mark_pending evt.action) v s
          h in
      elim (Bool-cases (not (evt.old_path == "") && not (evt.old_path == evt.path))) [
        | inl e ↦ rw e (store_row-IsView evt.old_path "move_out" at false _ _ one)
        | inr e ↦ rw e one
      ]

  persist-IsView :
      (now : ℕ) (e : FileEvent) (v : View) (db : Option D.table.State)
      → IsView D v db
      → IsView D
          (if e.path == ""
            then v
            else seen_at e (if nat_eq e.timestamp 0 then now else e.timestamp) v)
          (persist_monitored_file D now e db)
  unfolding persist_monitored_file persist_in
  persist-IsView now e v none h = elim (Bool-cases (e.path == "")) [
    | inl t ↦ rw t tt
    | inr f ↦ rw f tt
  ]
  persist-IsView now e v (some s) h = elim (Bool-cases (e.path == "")) [
    | inl t ↦ rw t h
    | inr f ↦ rw f (persist_at-IsView e (if nat_eq e.timestamp 0 then now else e.timestamp) v s h)
  ]

  -- When the database's writes succeed and the table says of each path what a view says, then after
  -- events are emitted, at any time and with any channel, the table says of each path what the view
  -- says in which each event (with a path) has set its path to its action and time, pending or not,
  -- and its old path, where it has another one, to a move out.
  pub table_follows :
      (now : ℕ) (es : List FileEvent) (v : View) (k : Sink D.table.State)
      → IsView D v k.db
      → IsView D (seen now es v) (emit_all D now es k).db
  unfolding emit_all emit_event seen
  table_follows now [] v k h = h
  table_follows now (e ∷ es) v k h =
      table_follows now es _ (emit_event D now e k) (persist-IsView now e v k.db h)

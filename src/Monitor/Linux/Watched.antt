-- ===== src/Monitor/Linux/Watched.antt =====
-- agent/internal/monitor/file_monitor_linux.go: which directories are watched after an event.
use mathlib.Core.Bool.{false≢true}
use mathlib.Core.Path.{subst}
use sagiri_guard.Base.{
  ℕ, ◌≡◌, refl, sym, ap, ◌∙◌, Bool, true, false, not, ◌||◌, Bool-cases, Option-cases, inl, inr,
  List, [], ◌∷◌, Option, none, is_some, String, ◌==◌, eq_iff, if◌then◌else◌, All, arith,
}
use sagiri_guard.Base.Map.{Map, lookup, insert, lookup-insert, lookup-delete, lookup-insert_same}
use sagiri_guard.Local.{LocalDb}
use sagiri_guard.Monitor.Linux.{
  Watcher, Visit, Files, Op, Watches, add_watch, watch_visits, remove_watch, LinuxMonitor, on_write,
  on_remove, on_rename, handle_event,
}

module _ (W : Watcher) where
  lookup-remove_watch :
      (path p : String) (f : Watches W)
      → lookup p (remove_watch W path f).watched_dir
        ≡ (if path == p then none else lookup p f.watched_dir)
  unfolding remove_watch
  lookup-remove_watch path p f = elim (Option-cases (lookup path f.watched_dir)) [
    | inl e ↦ rw e (elim (Bool-cases (path == p)) [
      | inl same ↦ rw same (ap (λ x. lookup x f.watched_dir) (sym ((eq_iff path p).0 same)) ∙ e)
      | inr other ↦ rw other
    ])
    | inr (b, e) ↦ rw e (lookup-delete path p f.watched_dir)
  ]

  -- a directory that is watched
  abbrev pub IsWatched : String → Watches W → Type 0
  IsWatched p f = is_some (lookup p f.watched_dir) ≡ true

  insert-IsWatched :
      (p dir : String) (m : Map Bool)
      → is_some (lookup p m) ≡ true
      → is_some (lookup p (insert dir true m)) ≡ true
  insert-IsWatched p dir m h =
      ap is_some (lookup-insert dir p true m)
      ∙ elim (Bool-cases (dir == p)) [ inl e ↦ rw e | inr e ↦ rw e h ]

  add_watch-IsWatched :
      (p dir : String) (f : Watches W) → IsWatched p f → IsWatched p (add_watch W dir f).1
  unfolding add_watch
  add_watch-IsWatched p dir f h = elim (Bool-cases (is_some (lookup dir f.watched_dir))) [
    | inl e ↦ rw e h
    | inr e ↦ rw e (elim (Bool-cases (W.add dir f.watcher).0) [
      | inl a ↦ rw a (insert-IsWatched p dir f.watched_dir h)
      | inr a ↦ rw a h
    ])
  ]

  added-IsWatched :
      (dir : String) (f : Watches W)
      → (add_watch W dir f).0 ≡ true
      → IsWatched dir (add_watch W dir f).1
  unfolding add_watch
  added-IsWatched dir f h = elim (Bool-cases (is_some (lookup dir f.watched_dir))) [
    | inl e ↦ rw e e
    | inr e ↦ rw e (elim (Bool-cases (W.add dir f.watcher).0) [
      | inl a ↦ rw a (ap is_some (lookup-insert_same dir true f.watched_dir))
      | inr a ↦ absurd (false≢true (rw (e, a) at h))
    ])
  ]

  -- what was watched before a walk is watched after it
  visits_keep :
      (p : String) (vs : List Visit) (f : Watches W)
      → IsWatched p f
      → IsWatched p (watch_visits W vs f).1
  unfolding watch_visits
  visits_keep p [] f h = h
  visits_keep p (v ∷ vs) f h =
      let kept = add_watch-IsWatched p v.path f h in
      elim (Bool-cases (v.failed || not v.is_dir)) [
        | inl e ↦ rw e (visits_keep p vs f h)
        | inr e ↦ rw e (elim (Bool-cases (add_watch W v.path f).0) [
          | inl a ↦ rw a (visits_keep p vs (add_watch W v.path f).1 kept)
          | inr a ↦ rw a kept
        ])
      ]

  -- a visit to a directory that could be read asks for a watch
  abbrev pub IsCovered : Watches W → Visit → Type 0
  IsCovered f v = (v.failed || not v.is_dir) ≡ false → IsWatched v.path f

  -- a monitor watches what the visits ask for, and what another one watches
  abbrev pub Covers : Watches W → List Visit → Watches W → Type 0
  Covers f vs g = All (IsCovered g) vs × ((p : String) → IsWatched p f → IsWatched p g)

  visit_skipped :
      (v : Visit) (vs : List Visit) (f : Watches W)
      → (v.failed || not v.is_dir) ≡ true
      → watch_visits W (v ∷ vs) f ≡ watch_visits W vs f
  unfolding watch_visits
  visit_skipped v vs f e = rw e

  visit_added :
      (v : Visit) (vs : List Visit) (f : Watches W)
      → (v.failed || not v.is_dir) ≡ false
      → watch_visits W (v ∷ vs) f ≡ (
          if (add_watch W v.path f).0
          then watch_visits W vs (add_watch W v.path f).1
          else add_watch W v.path f)
  unfolding watch_visits
  visit_added v vs f e = rw e

  -- For all watchers, visits of a walk and monitors: when the walk ends without an error, each
  -- directory that it visited without a failure is watched, and so is what was watched before it.
  walk-Covers :
      (vs : List Visit) (f : Watches W)
      → (watch_visits W vs f).0 ≡ true
      → Covers f vs (watch_visits W vs f).1
  walk-Covers [] f h = unfold watch_visits in (tt, λ p k. k)
  walk-Covers (v ∷ vs) f h = elim (Bool-cases (v.failed || not v.is_dir)) [
    | inl e ↦
        let q = visit_skipped v vs f e in
        let rest = walk-Covers vs f (ap (λ r. r.0) (sym q) ∙ h) in
        subst (λ r. Covers f (v ∷ vs) r.1) (sym q)
          ((λ n. absurd (false≢true (sym n ∙ e)), rest.0), rest.1)
    | inr e ↦ elim (Bool-cases (add_watch W v.path f).0) [
      | inl a ↦
          let q =
            visit_added v vs f e
            ∙ ap
                (λ b.
                  if b then watch_visits W vs (add_watch W v.path f).1 else add_watch W v.path f)
                a in
          let rest = walk-Covers vs (add_watch W v.path f).1 (ap (λ r. r.0) (sym q) ∙ h) in
          subst (λ r. Covers f (v ∷ vs) r.1) (sym q)
            (
              (λ n. rest.1 v.path (added-IsWatched v.path f a), rest.0),
              λ p k. rest.1 p (add_watch-IsWatched p v.path f k),
            )
      | inr a ↦
          let q =
            visit_added v vs f e
            ∙ ap
                (λ b.
                  if b then watch_visits W vs (add_watch W v.path f).1 else add_watch W v.path f)
                a in
          absurd (false≢true (sym a ∙ (ap (λ r. r.0) (sym q) ∙ h)))
    ]
  ]

module _ (D : LocalDb) (W : Watcher) where
  -- the watched directories are those of before without the path
  abbrev pub Forgets : String → Watches W → Watches W → Type 0
  Forgets path f g =
      (p : String) → lookup p g.watched_dir ≡ (if path == p then none else lookup p f.watched_dir)

  twice :
      (path p : String) (o : Option Bool)
      → (if path == p then none else if path == p then none else o)
        ≡ (if path == p then none else o)
  twice path p o = ground arith

  write_keeps :
      (path : String) (now : ℕ) (m : LinuxMonitor D W) (b : Bool)
      → (if b then on_write D W path now m else m).watches ≡ m.watches
  unfolding on_write
  write_keeps path now m true = refl
  write_keeps path now m false = refl

  -- For all databases, watchers, file systems and times: after an event that says that its path was
  -- removed or renamed, and not that it was created, the path is not watched, and every other path
  -- is watched exactly when it was before, those below the path too.
  pub path_forgotten :
      (F : Files) (name : String) (op : Op) (now : ℕ) (m : LinuxMonitor D W)
      → op.create ≡ false
      → (op.remove || op.rename) ≡ true
      → Forgets (F.clean name) m.watches (handle_event D W F name op now m).watches
  unfolding handle_event on_remove on_rename
  path_forgotten F name op now m c h p =
      let path : String = F.clean name in
      let written : LinuxMonitor D W = if op.write then on_write D W path now m else m in
      let same : written.watches ≡ m.watches = write_keeps path now m op.write in
      let once =
        lookup-remove_watch W path p written.watches
        ∙ ap (λ f. if path == p then none else lookup p f.watched_dir) same in
      elim (Bool-cases op.remove) [
        | inl r ↦ elim (Bool-cases op.rename) [
          | inl n ↦
              rw (c, r, n)
                (lookup-remove_watch W path p (remove_watch W path written.watches)
                  ∙ (ap (λ o. if path == p then none else o) once
                      ∙ twice path p (lookup p m.watches.watched_dir)))
          | inr n ↦ rw (c, r, n) once
        ]
        | inr r ↦ rw (c, r, rw r at h) once
      ]

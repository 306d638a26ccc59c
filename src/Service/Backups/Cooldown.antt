-- ===== src/Service/Backups/Cooldown.antt =====
-- agent/internal/service/service.go: no backup of a file starts soon after one has ended.
use mathlib.Core.Bool.{false≢true}
use mathlib.Core.Path.{subst}
use sagiri_guard.Base.{
  ℕ, ◌+◌, ◌-◌, ◌≤◌, ◌<◌, ◌≡◌, refl, sym, ap, ◌∙◌, true, false, not, Bool-cases, inl, inr, List, [],
  ◌∷◌, some, is_some, String, ◌==◌, eq_iff, eq_refl, if◌then◌else◌, ltb, ◌||◌, arith,
}
use sagiri_guard.Base.Map.{lookup, insert, lookup-insert, lookup-insert_same}
use sagiri_guard.Service.Backups.{
  Scheduler, set_backup_enabled, is_recent, schedule_backup, without_one, finish_backup,
  backup_cooldown,
}
use sagiri_guard.Service.Backups.Single.{
  has_worker, Step, switched, event_read, ended, Reach, here, next, IsSingle, not_or,
  has_worker-snoc, has_worker-without_one, on_event-cases,
}

-- a path that has no goroutine and whose last backup ended at a time or later
abbrev pub IsResting : String → ℕ → Scheduler → Type 0
IsResting p at s =
    (has_worker p s.workers ≡ false)
    × ((last : ℕ) × ((lookup p s.recent ≡ some last) × (at ≤ last)))

-- a path that is not recent is not one that rests
recent_other :
    (p : String) (at now : ℕ) (path : String) (s : Scheduler)
    → now < at + backup_cooldown
    → IsResting p at s
    → is_recent now (lookup path s.recent) ≡ false
    → (path == p) ≡ false
recent_other p at now path s l h r = elim (Bool-cases (path == p)) [
  | inl e ↦
      let last : ℕ = h.1.0 in
      let found : lookup path s.recent ≡ some last =
        ap (λ q. lookup q s.recent) ((eq_iff path p).0 e) ∙ h.1.1.0 in
      let late : at ≤ last = h.1.1.1 in
      let soon : ltb (now - last) backup_cooldown ≡ true = ground arith in
      absurd (false≢true (sym r ∙ (ap (is_recent now) found ∙ soon)))
  | inr e ↦ e
]

schedule-IsResting :
    (p : String) (at now : ℕ) (path : String) (s : Scheduler)
    → now < at + backup_cooldown
    → IsResting p at s
    → IsResting p at (schedule_backup now path s)
unfolding schedule_backup
schedule-IsResting p at now path s l h = elim (Bool-cases (not s.enabled)) [
  | inl e ↦ rw e h
  | inr e ↦ rw e (elim (Bool-cases (is_recent now (lookup path s.recent))) [
    | inl r ↦ rw r h
    | inr r ↦ rw r (elim (Bool-cases (is_some (lookup path s.in_flight))) [
      | inl b ↦ rw b h
      | inr b ↦ rw b (
        has_worker-snoc p path s.workers
            ∙ (ap (λ x. (x || (path == p))) h.0 ∙ recent_other p at now path s l h r),
        h.1,
      )
    ])
  ])
]

without_one_less :
    (p w : String) (ws : List String)
    → has_worker p ws ≡ false
    → has_worker p (without_one w ws) ≡ false
unfolding without_one
without_one_less p w [] h = refl
without_one_less p w (x ∷ ws) h =
    let parts = not_or (x == p) (has_worker p ws) h in
    elim (Bool-cases (x == w)) [
      | inl e ↦ rw e parts.1
      | inr e ↦ rw (e, parts.0) (without_one_less p w ws parts.1)
    ]

finish-IsResting :
    (p : String) (at now : ℕ) (path : String) (s : Scheduler)
    → has_worker path s.workers ≡ true
    → IsResting p at s
    → IsResting p at (finish_backup now path s)
unfolding finish_backup
finish-IsResting p at now path s w h = elim (Bool-cases (path == p)) [
  | inl e ↦
      let same : path ≡ p = (eq_iff path p).0 e in
      absurd (false≢true (sym h.0 ∙ (ap (λ q. has_worker q s.workers) (sym same) ∙ w)))
  | inr e ↦ (
    without_one_less p path s.workers h.0,
    (
      h.1.0,
      (
        lookup-insert path p now s.recent
            ∙ (ap (λ b. if b then some now else lookup p s.recent) e ∙ h.1.1.0),
        h.1.1.1,
      ),
    ),
  )
]

Step-IsResting :
    (p : String) (at : ℕ) {s t : Scheduler}
    → Step (at + backup_cooldown) s t
    → IsResting p at s
    → IsResting p at t
Step-IsResting p at (switched s b) h = unfold set_backup_enabled in h
Step-IsResting p at (event_read s now e l) h = elim (on_event-cases now e s) [
  | inl q ↦ subst (IsResting p at) (sym q) h
  | inr q ↦ subst (IsResting p at) (sym q) (schedule-IsResting p at now e.path s l h)
]
Step-IsResting p at (ended s now path l w) h = finish-IsResting p at now path s w h

Reach-IsResting :
    (p : String) (at : ℕ) {s t : Scheduler}
    → Reach (at + backup_cooldown) s t
    → IsResting p at s
    → IsResting p at t
Reach-IsResting p at here h = h
Reach-IsResting p at (next r st) h = Step-IsResting p at st (Reach-IsResting p at r h)

-- When a backup of a file ends at a time, in a state in which no file has two backups that run,
-- then no backup of that file runs in any state that steps before ten seconds later reach.
pub cooldown_kept :
    (p : String) (at : ℕ) (s : Scheduler) {t : Scheduler}
    → IsSingle s
    → Reach (at + backup_cooldown) (finish_backup at p s) t
    → has_worker p t.workers ≡ false
cooldown_kept p at s h r =
    let gone : has_worker p (without_one p s.workers) ≡ false =
      has_worker-without_one p p s.workers h.0
      ∙ ap (λ b. if b then false else has_worker p s.workers) (eq_refl p) in
    let found : lookup p (insert p at s.recent) ≡ some at = lookup-insert_same p at s.recent in
    let now : at ≤ at = omega arith in
    (Reach-IsResting p at r (unfold finish_backup in (gone, (at, (found, now))))).0

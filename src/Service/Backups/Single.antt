-- ===== src/Service/Backups/Single.antt =====
-- agent/internal/service/service.go: the steps of the agent, and that no file has two backups that run.
use mathlib.Core.Path.{subst}
use sagiri_guard.Base.{
  ◌⊎◌, ℕ, ◌<◌, ◌≡◌, refl, sym, ap, ◌∙◌, Bool, true, false, not, Bool-cases, inl, inr, List, [], ◌∷◌,
  ◌++◌, Option, none, some, is_some, String, ◌==◌, eq_iff, if◌then◌else◌, any, any-append, ◌||◌,
  arith,
}
use sagiri_guard.Base.Map.{lookup, lookup-insert, lookup-delete}
use sagiri_guard.Monitor.{FileEvent}
use sagiri_guard.Service.Backups.{
  Scheduler, initial, set_backup_enabled, is_recent, schedule_backup, without_one, finish_backup,
  on_event,
}

abbrev pub has_worker : String → List String → Bool
has_worker p = any (λ w. w == p)

-- The steps of the agent before a time: a command switches backups on or off, an event is read, and
-- a goroutine that runs comes to its end.
pub data Step (limit : ℕ) : Scheduler → Scheduler → Type 0 where
  switched : (s : Scheduler) (b : Bool) → Step limit s (set_backup_enabled b s)
  event_read :
      (s : Scheduler) (now : ℕ) (e : FileEvent) → now < limit → Step limit s (on_event now e s)
  ended :
      (s : Scheduler) (now : ℕ) (p : String)
      → now < limit
      → has_worker p s.workers ≡ true
      → Step limit s (finish_backup now p s)

pub data Reach (limit : ℕ) (s : Scheduler) : Scheduler → Type 0 where
  here : Reach limit s s
  next : {t u : Scheduler} → Reach limit s t → Step limit t u → Reach limit s u

-- no path has two goroutines, and those in flight are the paths that have one
abbrev pub IsDistinct : List String → Type 0
IsDistinct [] = Unit
IsDistinct (w ∷ ws) = (has_worker w ws ≡ false) × IsDistinct ws

abbrev pub IsSingle : Scheduler → Type 0
IsSingle s =
    IsDistinct s.workers × ((p : String) → is_some (lookup p s.in_flight) ≡ has_worker p s.workers)

pub has_worker-snoc :
    (p w : String) (ws : List String)
    → has_worker p (ws ++ (w ∷ [])) ≡ (has_worker p ws || (w == p))
has_worker-snoc p w ws = any-append (λ w. w == p) ws (w ∷ []) ∙ ground arith

apart : (a b : String) → (a == b) ≡ false → (b == a) ≡ false
apart a b h = ground (eq_iff a b, eq_iff b a, arith)

pub not_or : (a b : Bool) → (a || b) ≡ false → (a ≡ false) × (b ≡ false)
not_or a b h = ground arith

IsDistinct-snoc :
    (w : String) (ws : List String)
    → IsDistinct ws
    → has_worker w ws ≡ false
    → IsDistinct (ws ++ (w ∷ []))
IsDistinct-snoc w [] d h = (refl, tt)
IsDistinct-snoc w (x ∷ ws) d h =
    let parts = not_or (x == w) (has_worker w ws) h in
    (has_worker-snoc x w ws ∙ (rw (d.0, apart x w parts.0)), IsDistinct-snoc w ws d.1 parts.1)

branches :
    (a b c : Bool)
    → (b ≡ true → a ≡ false)
    → (a || (if b then false else c)) ≡ (if b then false else a || c)
branches a true c h = rw (h refl)
branches a false c h = refl

ite_same : (b : Bool) → (if b then false else false) ≡ false
ite_same true = refl
ite_same false = refl

pub has_worker-without_one :
    (p w : String) (ws : List String)
    → IsDistinct ws
    → has_worker p (without_one w ws) ≡ (if w == p then false else has_worker p ws)
unfolding without_one
has_worker-without_one p w [] d = ground arith
has_worker-without_one p w (x ∷ ws) d = elim (Bool-cases (x == w)) [
  | inl e ↦ rw e (elim (Bool-cases (w == p)) [
    | inl same ↦
        rw same (ap (λ q. has_worker q ws) (sym ((eq_iff x w).0 e ∙ (eq_iff w p).0 same)) ∙ d.0)
    | inr other ↦ rw (other, ap (λ q. q == p) ((eq_iff x w).0 e) ∙ other)
  ])
  | inr e ↦
      let ih = has_worker-without_one p w ws d.1 in
      rw (e, ih)
        (branches (x == p) (w == p) (has_worker p ws)
          (λ same. ground (eq_iff w p, eq_iff x p, eq_iff x w, arith)))
]

IsDistinct-without_one :
    (w : String) (ws : List String) → IsDistinct ws → IsDistinct (without_one w ws)
unfolding without_one
IsDistinct-without_one w [] d = tt
IsDistinct-without_one w (x ∷ ws) d = elim (Bool-cases (x == w)) [
  | inl e ↦ rw e d.1
  | inr e ↦ rw e (
    has_worker-without_one x w ws d.1 ∙ (rw d.0 (ite_same (w == x))),
    IsDistinct-without_one w ws d.1,
  )
]

is_some-if :
    (b : Bool) (v : Bool) (o : Option Bool) → is_some (if b then some v else o) ≡ (is_some o || b)
is_some-if true v o = ground arith
is_some-if false v o = ground arith

is_some-not :
    (b : Bool) (o : Option Bool)
    → is_some (if b then none else o) ≡ (if b then false else is_some o)
is_some-not true o = refl
is_some-not false o = refl

schedule-IsSingle :
    (now : ℕ) (path : String) (s : Scheduler) → IsSingle s → IsSingle (schedule_backup now path s)
unfolding schedule_backup
schedule-IsSingle now path s h = elim (Bool-cases (not s.enabled)) [
  | inl e ↦ rw e h
  | inr e ↦ rw e (elim (Bool-cases (is_recent now (lookup path s.recent))) [
    | inl r ↦ rw r h
    | inr r ↦ rw r (elim (Bool-cases (is_some (lookup path s.in_flight))) [
      | inl b ↦ rw b h
      | inr b ↦ rw b (
        IsDistinct-snoc path s.workers h.0 (sym (h.1 path) ∙ b),
        λ p.
            ap is_some (lookup-insert path p true s.in_flight)
            ∙ (is_some-if (path == p) true (lookup p s.in_flight)
                ∙ (ap (λ x. (x || (path == p))) (h.1 p) ∙ sym (has_worker-snoc p path s.workers))),
      )
    ])
  ])
]

finish-IsSingle :
    (now : ℕ) (path : String) (s : Scheduler) → IsSingle s → IsSingle (finish_backup now path s)
unfolding finish_backup
finish-IsSingle now path s h = (
  IsDistinct-without_one path s.workers h.0,
  λ p.
      ap is_some (lookup-delete path p s.in_flight)
      ∙ (is_some-not (path == p) (lookup p s.in_flight)
          ∙ (ap (λ x. if path == p then false else x) (h.1 p)
              ∙ sym (has_worker-without_one p path s.workers h.0))),
)

pub on_event-cases :
    (now : ℕ) (e : FileEvent) (s : Scheduler)
    → (on_event now e s ≡ s) ⊎ (on_event now e s ≡ schedule_backup now e.path s)
unfolding on_event
on_event-cases now e s = ground arith

Step-IsSingle : (limit : ℕ) {s t : Scheduler} → Step limit s t → IsSingle s → IsSingle t
Step-IsSingle limit (switched s b) h = unfold set_backup_enabled in h
Step-IsSingle limit (event_read s now e l) h = elim (on_event-cases now e s) [
  | inl q ↦ subst IsSingle (sym q) h
  | inr q ↦ subst IsSingle (sym q) (schedule-IsSingle now e.path s h)
]
Step-IsSingle limit (ended s now p l w) h = finish-IsSingle now p s h

-- In every state that the agent reaches from its start: no file has two backups that run, and a
-- file is marked as in flight exactly when a backup of it runs.
pub one_backup_each : (limit : ℕ) {s : Scheduler} → Reach limit initial s → IsSingle s
one_backup_each limit here = (tt, λ p. unfold lookup in refl)
one_backup_each limit (next r st) = Step-IsSingle limit st (one_backup_each limit r)

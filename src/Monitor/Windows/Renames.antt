-- ===== src/Monitor/Windows/Renames.antt =====
-- agent/internal/monitor/file_monitor.go: no old name of a rename is lost or waits for too long.
use sagiri_guard.Base.{
  ℕ, ◌+◌, ◌-◌, ◌≤◌, ◌≡◌, ◌⊎◌, refl, sym, ap, ◌∙◌, Bool-cases, inl, inr, List, [], ◌∷◌, ◌++◌, String,
  ◌==◌, All-append, if◌then◌else◌, nat_eq, ltb, map, All, arith,
}
use sagiri_guard.Monitor.{Action, rename, move, move_out, FileEvent}
use sagiri_guard.Monitor.Windows.{
  PendingRename, Paths, rename_pair_ttl, Step, flush_expired_renames, pair_rename, dispatch_action,
  handle_notice, file_action_renamed_old,
}
use mathlib.Core.List.{append_assoc, append-nil}

-- a notice, and the time at which it is read
pub record Notice : Type 0 where
  pub action : ℕ
  pub path : String
  pub at : ℕ

-- the notices of a buffer, one after another
unfoldable pub run_notices : Paths → List Notice → List PendingRename → Step
unfolding handle_notice
run_notices P [] queue = ([], queue)
run_notices P (n ∷ ns) queue =
    let step = handle_notice P n.action n.path n.at queue in
    let rest = run_notices P ns step.1 in (step.0 ++ rest.0, rest.1)

-- the old name that an event reports
abbrev pub old_name : Action → String → List String
old_name rename p = p ∷ []
old_name move p = p ∷ []
old_name move_out p = p ∷ []
old_name _ p = []

unfoldable pub reported : List FileEvent → List String
reported [] = []
reported (e ∷ es) = old_name e.action e.old_path ++ reported es

abbrev pub waiting : List PendingRename → List String
waiting = map (λ r. r.path)

-- the old names that notices bring
abbrev pub brought_by : Notice → List String
brought_by n = if nat_eq n.action file_action_renamed_old then n.path ∷ [] else []

unfoldable pub brought : List Notice → List String
brought [] = []
brought (n ∷ ns) = brought_by n ++ brought ns

reported-append : (xs ys : List FileEvent) → reported (xs ++ ys) ≡ reported xs ++ reported ys
unfolding reported
reported-append [] ys = refl
reported-append (e ∷ es) ys =
    ap (λ l. old_name e.action e.old_path ++ l) (reported-append es ys)
    ∙ sym (append_assoc (old_name e.action e.old_path) (reported es) (reported ys))

flush_keeps :
    (q : List PendingRename) (now : ℕ)
    → reported (flush_expired_renames q now).0 ++ waiting (flush_expired_renames q now).1
      ≡ waiting q
unfolding flush_expired_renames reported
flush_keeps [] now = refl
flush_keeps (r ∷ q) now = ground (arith, flush_keeps q now)

pair_keeps :
    (P : Paths) (path : String) (ts : ℕ) (q : List PendingRename)
    → reported (pair_rename P path ts q).0 ++ waiting (pair_rename P path ts q).1 ≡ waiting q
unfolding pair_rename reported
pair_keeps P path ts [] = refl
pair_keeps P path ts (old ∷ q) = elim (Bool-cases (P.dir old.path == P.dir path)) [
  | inl e ↦ rw e
  | inr e ↦ rw e
]

waiting-append : (q r : List PendingRename) → waiting (q ++ r) ≡ waiting q ++ waiting r
waiting-append [] r = refl
waiting-append (x ∷ q) r = ap (λ l. x.path ∷ l) (waiting-append q r)

dispatch_keeps :
    (P : Paths) (a : ℕ) (path : String) (ts : ℕ) (q : List PendingRename)
    → reported (dispatch_action P a path ts q).0 ++ waiting (dispatch_action P a path ts q).1
      ≡ waiting q ++ brought_by (record { action = a; path = path; at = ts })
unfolding dispatch_action reported
dispatch_keeps P a path ts q = ground (
  arith,
  pair_keeps P path ts q,
  append-nil (waiting q),
  waiting-append q (record { path = path; when = ts } ∷ []),
)

handle_keeps :
    (P : Paths) (n : Notice) (q : List PendingRename)
    → (let step = handle_notice P n.action n.path n.at q in reported step.0 ++ waiting step.1)
      ≡ waiting q ++ brought_by n
unfolding handle_notice
handle_keeps P n q =
    let flushed = flush_expired_renames q n.at in
    let done = dispatch_action P n.action n.path n.at flushed.1 in
    ap (λ l. l ++ waiting done.1) (reported-append flushed.0 done.0)
    ∙ (append_assoc (reported flushed.0) (reported done.0) (waiting done.1)
        ∙ (ap (λ l. reported flushed.0 ++ l) (dispatch_keeps P n.action n.path n.at flushed.1)
            ∙ (sym (append_assoc (reported flushed.0) (waiting flushed.1) (brought_by n))
                ∙ ap (λ l. l ++ brought_by n) (flush_keeps q n.at))))

-- For all path functions, notices and queues of old names: the old names that the notices' events
-- report (of renames, moves and moves out), followed by those that still wait, are those that
-- waited before followed by those that the notices brought, each once and in the same order.
pub old_names_kept :
    (P : Paths) (ns : List Notice) (q : List PendingRename)
    → reported (run_notices P ns q).0 ++ waiting (run_notices P ns q).1 ≡ waiting q ++ brought ns
unfolding run_notices brought reported
old_names_kept P [] q = sym (append-nil (waiting q))
old_names_kept P (n ∷ ns) q =
    let step = handle_notice P n.action n.path n.at q in
    let rest = run_notices P ns step.1 in
    ap (λ l. l ++ waiting rest.1) (reported-append step.0 rest.0)
    ∙ (append_assoc (reported step.0) (reported rest.0) (waiting rest.1)
        ∙ (ap (λ l. reported step.0 ++ l) (old_names_kept P ns step.1)
            ∙ (sym (append_assoc (reported step.0) (waiting step.1) (brought ns))
                ∙ (ap (λ l. l ++ brought ns) (handle_keeps P n q)
                    ∙ append_assoc (waiting q) (brought_by n) (brought ns)))))

-- the queue is in the order of time, and nothing in it is newer than `t`
abbrev pub IsQueue : ℕ → List PendingRename → Type 0
IsQueue t [] = Unit
IsQueue t (r ∷ q) = (r.when ≤ t) × (All (λ x. r.when ≤ x.when) q × IsQueue t q)

-- the notices come in the order of time, none before `t`
abbrev pub IsTimed : ℕ → List Notice → Type 0
IsTimed t [] = Unit
IsTimed t (n ∷ ns) = (t ≤ n.at) × IsTimed n.at ns

-- the time of the last notice
abbrev pub last_at : ℕ → List Notice → ℕ
last_at t [] = t
last_at t (n ∷ ns) = last_at n.at ns

abbrev pub IsFresh : ℕ → PendingRename → Type 0
IsFresh now r = now ≤ r.when + rename_pair_ttl

IsFresh-from :
    (q : List PendingRename) (low now : ℕ)
    → now ≤ low + rename_pair_ttl
    → All (λ x. low ≤ x.when) q
    → All (IsFresh now) q
IsFresh-from [] low now h k = tt
IsFresh-from (r ∷ q) low now h k =
    let first : now ≤ r.when + rename_pair_ttl = (let l = k.0 in omega arith) in
    (first, IsFresh-from q low now h k.1)

-- what a flush leaves is a queue, and fresh
flush-IsFresh :
    (q : List PendingRename) (now t : ℕ)
    → IsQueue t q
    → IsQueue t (flush_expired_renames q now).1 × All (IsFresh now) (flush_expired_renames q now).1
unfolding flush_expired_renames
flush-IsFresh [] now t h = (tt, tt)
flush-IsFresh (r ∷ q) now t h = elim (Bool-cases (ltb rename_pair_ttl (now - r.when))) [
  | inl e ↦ rw e (flush-IsFresh q now t h.1.1)
  | inr e ↦ (
    rw e h,
    rw e (
      (let k : now ≤ r.when + rename_pair_ttl = ground arith in k),
      IsFresh-from q r.when now (ground arith) h.1.0,
    ),
  )
]

IsQueue-later : (q : List PendingRename) (t u : ℕ) → t ≤ u → IsQueue t q → IsQueue u q
IsQueue-later [] t u h k = tt
IsQueue-later (r ∷ q) t u h k =
    let first : r.when ≤ u = (let l = k.0 in omega arith) in
    (first, (k.1.0, IsQueue-later q t u h k.1.1))

newer_append :
    (q : List PendingRename) (low : ℕ) (x : PendingRename)
    → All (λ x. low ≤ x.when) q
    → low ≤ x.when
    → All (λ x. low ≤ x.when) (q ++ (x ∷ []))
newer_append q low x h k = All-append (λ x. low ≤ x.when) q (x ∷ []) h (k, tt)

IsQueue-append :
    (q : List PendingRename) (t : ℕ) (path : String)
    → IsQueue t q
    → IsQueue t (q ++ (record { path = path; when = t } ∷ []))
IsQueue-append [] t path h = let l : t ≤ t = omega arith in (l, (tt, tt))
IsQueue-append (r ∷ q) t path h = (
  h.0,
  (
    newer_append q r.when (record { path = path; when = t }) h.1.0 h.0,
    IsQueue-append q t path h.1.1,
  ),
)

-- what a flush and a dispatch at a time keep of the queue
abbrev pub IsKept : ℕ → List PendingRename → Type 0
IsKept t q = IsQueue t q × All (IsFresh t) q

IsKept-append :
    (q : List PendingRename) (t : ℕ) (path : String)
    → IsKept t q
    → IsKept t (q ++ (record { path = path; when = t } ∷ []))
IsKept-append q t path h =
    let new : t ≤ t + rename_pair_ttl = omega arith in
    (
      IsQueue-append q t path h.0,
      All-append (IsFresh t) q (record { path = path; when = t } ∷ []) h.1 (new, tt),
    )

pair_IsKept :
    (P : Paths) (path : String) (t : ℕ) (q : List PendingRename)
    → IsKept t q
    → IsKept t (pair_rename P path t q).1
unfolding pair_rename
pair_IsKept P path t [] h = h
pair_IsKept P path t (r ∷ q) h = (h.0.1.1, h.1.1)

-- what a dispatch does to the queue: nothing, the end of it, or the head of it
dispatch_queue :
    (P : Paths) (a : ℕ) (path : String) (t : ℕ) (q : List PendingRename)
    → let after : List PendingRename = (dispatch_action P a path t q).1 in
      (after ≡ q)
      ⊎ ((after ≡ q ++ (record { path = path; when = t } ∷ []))
          ⊎ (after ≡ (pair_rename P path t q).1))
unfolding dispatch_action
dispatch_queue P a path t q = ground arith

dispatch_IsKept :
    (P : Paths) (a : ℕ) (path : String) (t : ℕ) (q : List PendingRename)
    → IsKept t q
    → IsKept t (dispatch_action P a path t q).1
dispatch_IsKept P a path t q h = elim (dispatch_queue P a path t q) [
  | inl e ↦ rw e h
  | inr (inl e) ↦ rw e (IsKept-append q t path h)
  | inr (inr e) ↦ rw e (pair_IsKept P path t q h)
]

handle_IsKept :
    (P : Paths) (n : Notice) (q : List PendingRename)
    → IsQueue n.at q
    → IsKept n.at (handle_notice P n.action n.path n.at q).1
unfolding handle_notice
handle_IsKept P n q h =
    dispatch_IsKept P n.action n.path n.at (flush_expired_renames q n.at).1
      (flush-IsFresh q n.at n.at h)

-- For all path functions: when the notices come in the order of time, after a time `t` at which
-- the queue is ordered and no old name has waited for longer than the limit, then the same holds
-- after the notices, at the time of the last one.
none_waits_too_long :
    (P : Paths) (ns : List Notice) (q : List PendingRename) (t : ℕ)
    → IsTimed t ns
    → IsKept t q
    → IsKept (last_at t ns) (run_notices P ns q).1
unfolding run_notices
none_waits_too_long P [] q t h k = k
none_waits_too_long P (n ∷ ns) q t h k =
    none_waits_too_long P ns (handle_notice P n.action n.path n.at q).1 n.at h.1
      (handle_IsKept P n q (IsQueue-later q t n.at h.0 k.0))

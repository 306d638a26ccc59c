-- ===== src/Monitor/Windows/Targets.antt =====
-- agent/internal/monitor/file_monitor.go: NewFileMonitor opens a handle for each directory, and
-- Close closes the handles. What the operating system answers is a parameter.
use mathlib.Core.Bool.{false≢true}
use mathlib.Core.Path.{subst}
use sagiri_guard.Monitor.{FileEvent}
use sagiri_guard.Monitor.Windows.{Paths, Round, Watch, ended, stream_directory}
use sagiri_guard.Base.Table.{eq_of_some-eq}
use sagiri_guard.Base.{
  ℕ, ◌≡◌, refl, sym, ap, ◌∙◌, Bool, true, false, not, ◌&&◌, ◌||◌, Bool-cases, inl, inr, List, [],
  ◌∷◌, ◌++◌, Option, none, some, is_some, String, ◌==◌, if◌then◌else◌, nat_eq, is_nil, map, any,
  any-append, eq_iff, arith,
}

-- what Go's library and Windows answer: `stat` says whether a path is a directory, `can_open` whether
-- a directory can be opened, and `open_handle` is openDirectoryHandle
pub record System : Type 0 where
  pub abs : String → Option String
  pub clean : String → String
  pub dir : String → String
  pub stat : String → Option Bool
  pub can_open : String → Bool
  pub open_handle : String → Option ℕ

-- `watchTarget`
pub record WatchTarget : Type 0 where
  pub path : String
  pub handle : ℕ

-- `windows.InvalidHandle`
abbrev pub invalid_handle : ℕ
invalid_handle = 18446744073709551615

abbrev pub is_bad_handle : ℕ → Bool
is_bad_handle h = nat_eq h 0 || nat_eq h invalid_handle

-- the directory that a path asks to watch
unfoldable pub wanted_dir : System → String → Option String
wanted_dir O raw = elim (O.abs raw) [
  | none ↦ none
  | some path ↦ elim (O.stat path) [
    | none ↦ none
    | some d ↦ some (O.clean (if d then path else O.dir path))
  ]
]

-- a handle that was opened, if the directory can be watched
unfoldable pub valid_handle : System → String → Option ℕ → Option ℕ
valid_handle O dir none = none
valid_handle O dir (some h) =
    if is_some (O.stat dir) && (O.can_open dir && not (is_bad_handle h)) then some h else none

-- `seen` holds the directories of the targets
abbrev pub has_target : String → List WatchTarget → Bool
has_target dir = any (λ t. t.path == dir)

unfoldable pub with_target : String → Option ℕ → List WatchTarget → List WatchTarget
with_target dir none targets = targets
with_target dir (some h) targets = targets ++ (record { path = dir; handle = h } ∷ [])

-- a round of the loop of `NewFileMonitor`, for the directory that a path asks for
unfoldable pub open_target : System → Option String → List WatchTarget → List WatchTarget
unfolding valid_handle with_target
open_target O none targets = targets
open_target O (some dir) targets =
    if has_target dir targets
    then targets
    else with_target dir (valid_handle O dir (O.open_handle dir)) targets

unfoldable pub open_targets : System → List String → List WatchTarget → List WatchTarget
unfolding wanted_dir open_target
open_targets O [] targets = targets
open_targets O (raw ∷ raws) targets = open_targets O raws (open_target O (wanted_dir O raw) targets)

-- `NewFileMonitor`
unfoldable pub new_file_monitor : System → List String → Option (List WatchTarget)
unfolding open_targets
new_file_monitor O raws =
    let targets = open_targets O raws [] in if is_nil targets then none else some targets

-- the goroutine of a target: the loop ends at once when the handle is not valid
unfoldable pub watch_target :
    Paths → (ℕ → ℕ → ℕ) → List Round → WatchTarget → List FileEvent × Watch
unfolding stream_directory
watch_target P clock rounds target =
    if is_bad_handle target.handle
    then ([], ended)
    else stream_directory P target.path clock rounds 0 []

-- a monitor, and the handles that it has closed
pub record Closing : Type 0 where
  pub done : Bool
  pub closed : List ℕ

-- the loop of `Close`, with the first error; `fails` tells which handles Windows does not close
unfoldable pub close_handles : (ℕ → Option String) → List WatchTarget → Option String × List ℕ
close_handles fails [] = (none, [])
close_handles fails (t ∷ ts) =
    let rest = close_handles fails ts in
    if nat_eq t.handle 0
    then rest
    else (elim (fails t.handle) [ none ↦ rest.0 | some e ↦ some e ], t.handle ∷ rest.1)

-- `Close`, once
unfoldable pub close : (ℕ → Option String) → List WatchTarget → Closing → Option String × Closing
unfolding close_handles
close fails targets c =
    let all = close_handles fails targets in
    if c.done then (none, c) else (all.0, record { done = true; closed = c.closed ++ all.1 })

-- each target has a directory of its own and a handle that is valid
abbrev pub IsOpen : List WatchTarget → Type 0
IsOpen [] = Unit
IsOpen (t ∷ ts) = (has_target t.path ts ≡ false) × ((is_bad_handle t.handle ≡ false) × IsOpen ts)

no_target :
    (t : WatchTarget) (dir : String) (ts : List WatchTarget)
    → has_target dir (t ∷ ts) ≡ false
    → ((t.path == dir) ≡ false) × (has_target dir ts ≡ false)
no_target t dir ts h = ground arith

-- a target of another directory is none of those that were there
has_target-snoc :
    (dir : String) (ts : List WatchTarget) (t : WatchTarget)
    → has_target dir ts ≡ false
    → (t.path == dir) ≡ false
    → has_target dir (ts ++ (t ∷ [])) ≡ false
has_target-snoc dir ts t h k = any-append (λ t. t.path == dir) ts (t ∷ []) ∙ ground arith

apart : (a b : String) → (a == b) ≡ false → (b == a) ≡ false
apart a b h = ground (eq_iff a b, eq_iff b a, arith)

IsOpen-snoc :
    (ts : List WatchTarget) (t : WatchTarget)
    → IsOpen ts
    → has_target t.path ts ≡ false
    → is_bad_handle t.handle ≡ false
    → IsOpen (ts ++ (t ∷ []))
IsOpen-snoc [] t h n k = (refl, (k, tt))
IsOpen-snoc (x ∷ ts) t h n k =
    let other = no_target x t.path ts n in
    (
      has_target-snoc x.path ts t h.0 (apart x.path t.path other.0),
      (h.1.0, IsOpen-snoc ts t h.1.1 other.1 k),
    )

guarded :
    (a b c : Bool) (h n : ℕ)
    → (if a && (b && not c) then some h else none) ≡ some n
    → (c ≡ false) × (h ≡ n)
guarded true true true h n e = absurd (false≢true (ap is_some e))
guarded true true false h n e = (refl, sym (eq_of_some-eq e))
guarded true false c h n e = absurd (false≢true (ap is_some e))
guarded false b c h n e = absurd (false≢true (ap is_some e))

valid :
    (O : System) (dir : String) (o : Option ℕ) (n : ℕ)
    → valid_handle O dir o ≡ some n
    → is_bad_handle n ≡ false
unfolding valid_handle
valid O dir none n e = absurd (false≢true (ap is_some e))
valid O dir (some h) n e =
    let g = guarded (is_some (O.stat dir)) (O.can_open dir) (is_bad_handle h) h n e in
    ap is_bad_handle (sym g.1) ∙ g.0

with_target-IsOpen :
    (dir : String) (o : Option ℕ) (ts : List WatchTarget)
    → IsOpen ts
    → has_target dir ts ≡ false
    → ((n : ℕ) → o ≡ some n → is_bad_handle n ≡ false)
    → IsOpen (with_target dir o ts)
unfolding with_target
with_target-IsOpen dir none ts h f k = h
with_target-IsOpen dir (some n) ts h f k =
    IsOpen-snoc ts (record { path = dir; handle = n }) h f (k n refl)

open_target-IsOpen :
    (O : System) (o : Option String) (ts : List WatchTarget)
    → IsOpen ts
    → IsOpen (open_target O o ts)
unfolding open_target
open_target-IsOpen O none ts h = h
open_target-IsOpen O (some dir) ts h = elim (Bool-cases (has_target dir ts)) [
  | inl t ↦ rw t h
  | inr f ↦ rw f (
      with_target-IsOpen dir (valid_handle O dir (O.open_handle dir)) ts h f
        (valid O dir (O.open_handle dir)))
]

open_targets-IsOpen :
    (O : System) (raws : List String) (ts : List WatchTarget)
    → IsOpen ts
    → IsOpen (open_targets O raws ts)
unfolding open_targets
open_targets-IsOpen O [] ts h = h
open_targets-IsOpen O (raw ∷ raws) ts h =
    open_targets-IsOpen O raws (open_target O (wanted_dir O raw) ts)
      (open_target-IsOpen O (wanted_dir O raw) ts h)

-- a monitor that is made has a target
made_from :
    (xs ts : List WatchTarget)
    → (if is_nil xs then none else some xs) ≡ some ts
    → (is_nil ts ≡ false) × (ts ≡ xs)
made_from [] ts e = absurd (false≢true (ap is_some e))
made_from (x ∷ xs) ts e = let q = eq_of_some-eq e in (ap is_nil q, q)

handles_closed :
    (fails : ℕ → Option String) (ts : List WatchTarget)
    → IsOpen ts
    → (close_handles fails ts).1 ≡ map (λ t. t.handle) ts
unfolding close_handles
handles_closed fails [] h = refl
handles_closed fails (t ∷ ts) h =
    let k : nat_eq t.handle 0 ≡ false = (let b = h.1.0 in ground arith) in
    rw k (ap (λ l. t.handle ∷ l) (handles_closed fails ts h.1.1))

-- For all answers of the operating system and all paths: when a monitor is made, it has a target at
-- least, its targets have directories of their own and valid handles, and closing it twice closes
-- each handle exactly once, whatever closing a handle answers.
pub handles_closed_once :
    (O : System) (fails : ℕ → Option String) (raws : List String) (ts : List WatchTarget)
    → new_file_monitor O raws ≡ some ts
    → (is_nil ts ≡ false)
      × (IsOpen ts
          × (let fresh : Closing = record { done = false; closed = [] } in
              (close fails ts (close fails ts fresh).1).1.closed ≡ map (λ t. t.handle) ts))
unfolding new_file_monitor close
handles_closed_once O fails raws ts e =
    let made = made_from (open_targets O raws []) ts e in
    let good : IsOpen ts = subst IsOpen (sym made.1) (open_targets-IsOpen O raws [] tt) in
    (made.0, (good, handles_closed fails ts good))

-- ===== src/Monitor/Windows/Retries.antt =====
-- agent/internal/monitor/file_monitor.go: how the loop of streamDirectory stands after errors.
use sagiri_guard.Base.{
  ℕ, suc, ◌+◌, ◌≤◌, ◌≡◌, Bool, Bool-cases, inl, inr, true, false, ◌||◌, List, [], ◌∷◌, ◌++◌, String,
  if◌then◌else◌, ltb, leb, length, map, All, arith,
}
use sagiri_guard.Monitor.Windows.{
  Paths, PendingRename, ReadError, is_terminal_watcher_err, is_invalid_handle, max_retries, Round,
  failed, ended, stream_directory,
}

-- an error after which the loop tries again
abbrev pub IsTransient : ReadError → Type 0
IsTransient e = (is_terminal_watcher_err e || is_invalid_handle e) ≡ false

or_last : (t i b : Bool) → (t || i) ≡ false → (t || (i || b)) ≡ b
or_last t i b h = ground arith

retries_from :
    (P : Paths) (target : String) (clock : ℕ → ℕ → ℕ) (es : List ReadError) (rounds : List Round)
    (n : ℕ) (q : List PendingRename)
    → All IsTransient es
    → n + 1 ≤ max_retries
    → stream_directory P target clock (map failed es ++ rounds) n q ≡ (
        if ltb (n + length es) max_retries
        then stream_directory P target clock rounds (n + length es) q
        else ([], ended))
unfolding stream_directory
retries_from P target clock [] rounds n q h k =
    let e : n + 0 ≡ n = omega arith in let l : ltb n max_retries ≡ true = ground arith in rw (e, l)
retries_from P target clock (x ∷ es) rounds n q h k =
    let e : n + suc (length es) ≡ suc n + length es = omega arith in
    let or =
      or_last (is_terminal_watcher_err x) (is_invalid_handle x) (leb max_retries (suc n)) h.0 in
    elim (Bool-cases (leb max_retries (suc n))) [
      | inl t ↦
          let over : ltb (n + suc (length es)) max_retries ≡ false = ground arith in
          rw (or, t, over)
      | inr f ↦ rw (or, f, e) (retries_from P target clock es rounds (suc n) q h.1 (ground arith))
    ]

-- For all path functions, targets, clocks and queues: after errors that are not terminal, and
-- before the rounds that follow, the loop goes on when the errors are fewer than ten, with its
-- queue as it was and their number counted; when they are ten or more it ends and emits nothing.
pub gives_up :
    (P : Paths) (target : String) (clock : ℕ → ℕ → ℕ) (es : List ReadError) (rounds : List Round)
    (q : List PendingRename)
    → All IsTransient es
    → stream_directory P target clock (map failed es ++ rounds) 0 q ≡ (
        if ltb (length es) max_retries
        then stream_directory P target clock rounds (length es) q
        else ([], ended))
gives_up P target clock es rounds q h =
    let e : 0 + length es ≡ length es = omega arith in
    rw e at (retries_from P target clock es rounds 0 q h (omega arith))

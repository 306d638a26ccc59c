-- ===== src/Service/Settle.antt =====
-- agent/internal/service/service.go: waitForStableFile looks at a file until its size has stayed the
-- same, or until a deadline.
pub mod Ends
use sagiri_guard.Base.{
  ◌⊎◌, ℕ, zero, suc, ◌+◌, ◌*◌, ◌≤◌, ◌<◌, ◌≡◌, refl, ap, ◌∙◌, Bool, true, false, ◌&&◌, Bool-cases,
  List, [], ◌∷◌, inl, inr, Option, none, some, if◌then◌else◌, nat_eq, ltb, leb, arith,
}

-- times are in nanoseconds
abbrev pub file_settle_interval : ℕ
file_settle_interval = 500000000

abbrev pub file_settle_max_wait : ℕ
file_settle_max_wait = 15000000000

abbrev pub file_settle_stable_pass : ℕ
file_settle_stable_pass = 2

-- what a call of os.Stat answers
pub data Stat : Type 0 where
  missing : Stat
  unreadable : Stat
  directory : Stat
  file : ℕ → Stat

-- the file system at each round of the loop, and how long the round's calls (and what a sleep lasts
-- beyond what was asked) take before its test of the time
pub record World : Type 0 where
  pub elapsed : ℕ → ℕ
  pub stat : ℕ → Stat
  pub can_open : ℕ → Bool

-- how the wait ends
pub data Settled : Type 0 where
  ready stat_failed is_directory not_ready : Settled

-- the file is opened and closed after the deadline
abbrev pub late : Bool → Settled
late true = ready
late false = not_ready

-- what the loop knows: the last size, none at first, and how often it was seen again
pub record Seen : Type 0 where
  pub last_size : Option ℕ
  pub stable_passes : ℕ

-- `size == lastSize`
abbrev pub is_same : ℕ → Option ℕ → Bool
is_same size none = false
is_same size (some n) = nat_eq size n

abbrev pub seen_size : ℕ → Seen → Seen
seen_size size s =
    if is_same size s.last_size
    then record s { stable_passes = suc s.stable_passes }
    else record { last_size = some size; stable_passes = 0 }

-- a file is ready when its size was the same often enough and it can be opened
abbrev pub is_ready : Bool → ℕ → Seen → Bool
is_ready can_open size s =
    is_same size s.last_size && (leb file_settle_stable_pass (suc s.stable_passes) && can_open)

-- a round before the deadline: an end, or how long to sleep and what is known in the next round
pub data Round : Type 0 where
  end : Settled → Round
  again : ℕ → Seen → Round

unfoldable pub look : Stat → Bool → Seen → Round
look missing can_open s = again file_settle_interval s
look unreadable can_open s = end stat_failed
look directory can_open s = end is_directory
look (file size) can_open s =
    if is_ready can_open size s then end ready else again file_settle_interval (seen_size size s)

abbrev pub continued : (ℕ → Seen → Option Settled) → Round → Option Settled
continued rest (end r) = some r
continued rest (again slept s) = rest slept s

-- the loop, on fuel; `none` when the fuel runs out. `now` is the time after the last sleep.
unfoldable pub wait_until : ℕ → ℕ → World → ℕ → ℕ → Seen → Option Settled
unfolding look
wait_until zero deadline W k now s = none
wait_until (suc fuel) deadline W k now s =
    let tested = now + W.elapsed k in
    let rest : ℕ → Seen → Option Settled =
      λ slept s'. wait_until fuel deadline W (suc k) (tested + slept) s' in
    if ltb tested deadline
    then continued rest (look (W.stat k) (W.can_open k) s)
    else some (late (W.can_open k))

-- `waitForStableFile`, started at a time
unfoldable pub wait_for_stable_file : ℕ → ℕ → World → Option Settled
unfolding wait_until
wait_for_stable_file fuel start W =
    wait_until fuel (start + file_settle_max_wait) W 0 start
      (record { last_size = none; stable_passes = 0 })

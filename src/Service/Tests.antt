-- ===== src/Service/Tests.antt =====
-- Small runs of the agent's service.
use sagiri_guard.Base.{
  ℕ, zero, suc, ◌+◌, ◌≤◌, ◌<◌, ◌≡◌, inr, refl, true, false, List, [], ◌∷◌, none, some, All, select,
  arith,
}
use sagiri_guard.Base.Text.{
  Text, to_lower, has_prefix, text_eq, lit, join, trim_space, trim_left, trim_right, split,
}
use sagiri_guard.Base.Map.{lookup}
use sagiri_guard.Local.{MonitoredFile, list_db}
use sagiri_guard.Monitor.{create, FileEvent}
use sagiri_guard.Segments.{
  slash, Filepath, split_segments, build_logical_segments, search_roots, is_under, agent_segments,
  split_path, last_or, trimmed,
}
use sagiri_guard.Segments.Laws.{NamesRoots, backend_agrees}
use sagiri_guard.Service.Backups.{Scheduler, initial, backup_cooldown, on_event, finish_backup}
use sagiri_guard.Service.Backups.Single.{
  event_read, here, next, IsSingle, has_worker, one_backup_each,
}
use sagiri_guard.Service.Backups.Cooldown.{cooldown_kept}
use sagiri_guard.Service.Settle.{file, World, wait_for_stable_file}
use sagiri_guard.Service.Settle.Ends.{EndsAt, wait_settles}
use sagiri_guard.Service.Sync.{Env, gone, is_due, batch}
use sagiri_guard.Service.Sync.Starvation.{IsBefore, sync_all, blocked_for_ever}

abbrev made : FileEvent
made = record { action = create; path = "a"; old_path = ""; timestamp = 3 }

one_backup_each_example : IsSingle (on_event 3 made initial)
one_backup_each_example =
    one_backup_each 10 (next here (event_read initial 3 made (let l : 3 < 10 = omega arith in l)))

abbrev running : Scheduler
running = record { enabled = true; in_flight = ("a", true) ∷ []; recent = []; workers = "a" ∷ [] }

running-IsSingle : IsSingle running
unfolding lookup
running-IsSingle = ((refl, tt), λ p. ground arith)

cooldown_kept_example :
    has_worker "a" (on_event 9 made (finish_backup 5 "a" running)).workers ≡ false
cooldown_kept_example = cooldown_kept "a" 5 running running-IsSingle (
    next here (
      event_read (finish_backup 5 "a" running) 9 made
        (let l : 9 < 5 + backup_cooldown = omega arith in l)))

abbrev world : World
world = record { elapsed = λ k. 1000; stat = λ k. file 7; can_open = λ k. true }

wait_settles_example :
    (k : ℕ) × (k ≤ 30) × EndsAt 0 world k (λ fuel. wait_for_stable_file fuel 0 world) k
wait_settles_example = wait_settles 0 world

-- one monitored root, of the name "Demo"
abbrev filepath : Filepath
filepath = record {
  to_slash = λ p. p;
  abs = λ p. some p;
  rel = λ a b. some (lit "a/ b");
  base = λ p. lit "Demo";
  separator = slash;
}

abbrev demo : List Text
demo = lit "/m/Demo" ∷ []

named : NamesRoots filepath demo
unfolding trim_space trim_left trim_right
named = (λ a e. inr (refl, (refl, refl)), tt)

three_segments :
    agent_segments filepath demo (lit "/m/Demo/a/ b") ≡ lit "Demo" ∷ lit "a" ∷ lit "b" ∷ []
unfolding agent_segments build_logical_segments search_roots is_under split_segments trimmed split
    trim_space trim_left trim_right text_eq to_lower has_prefix
three_segments = refl

backend_agrees_example :
    let sent = agent_segments filepath demo (lit "/m/Demo/a/ b") in
    split_path (λ x. x) (join slash sent) (lit "b") ≡ (sent, last_or (lit "b") sent)
backend_agrees_example =
    backend_agrees filepath demo (λ x. x) (lit "/m/Demo/a/ b") (lit "b") (lit "Demo")
      (lit "a" ∷ lit "b" ∷ []) named (λ x. refl) three_segments

-- 256 rows of files that were moved out at time 1
abbrev stuck_row : ℕ → MonitoredFile
stuck_row n = record {
  id = n;
  path = "a";
  item_id = "i";
  last_action = "move_out";
  last_event_at = 1;
  last_backup_at = none;
  change_pending = false;
}

abbrev stuck_rows : ℕ → List MonitoredFile
stuck_rows zero = []
stuck_rows (suc n) = stuck_row n ∷ stuck_rows n

abbrev env : Env
env = record {
  device = "dev";
  roots = [];
  files = filepath;
  ext = λ p. [];
  decimal = λ n. n ∷ [];
  sha1 = λ t. "h";
  now = λ r. 9;
  stat = λ p. gone;
}

blocked_for_ever_example :
    All
      (IsBefore 5)
      (batch (select is_due (sync_all list_db 5 ((env, λ cs. none) ∷ []) (stuck_rows 256))))
blocked_for_ever_example =
    blocked_for_ever list_db 5 ((env, λ cs. none) ∷ []) (stuck_rows 256)
      (select is_due (sync_all list_db 5 ((env, λ cs. none) ∷ []) (stuck_rows 256))) (omega arith)
      refl

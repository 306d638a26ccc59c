-- ===== src/Commands/Tests.antt =====
-- Runs of the dispatcher over a state that counts.
use sagiri_guard.Base.{ℕ, suc, ◌≡◌, refl, true, [], ◌∷◌, none, some, String, ◌==◌, if◌then◌else◌}
use sagiri_guard.Base.Text.{Text}
use sagiri_guard.Base.Map.{Map, lookup}
use sagiri_guard.Base.Results.{ok}
use sagiri_guard.Commands.Dispatcher.{
  Handler, Envelope, Running, StopFn, started, panicked, dispatch, stop,
}
use sagiri_guard.Commands.Dispatcher.Streams.{
  Keeps, dispatch-Keeps, dispatch_twice_panics, stop-removes,
}

abbrev get_logs : Handler Text ℕ
get_logs = record {
  kind = "once";
  decode_arg = λ raw. some raw;
  handle_once = λ arg n. (true, suc n);
  start = λ arg n. (ok none, n);
}

abbrev registry : Map (Handler Text ℕ)
registry = ("get_logs", get_logs) ∷ []

abbrev idle : Running ℕ
idle = record { active = ("backup_auto", some (λ n. 0)) ∷ []; world = 3 }

abbrev of_kind : String → Envelope
of_kind k = record { device_id = "pc"; name = "get_logs"; kind = k; argument = [] }

registered : lookup "get_logs" registry ≡ some get_logs
unfolding lookup
registered = refl

not_running : lookup "get_logs" idle.active ≡ none
unfolding lookup
not_running = refl

dispatch-Keeps_example : Keeps "get_logs" idle.active (dispatch registry (of_kind "stream") idle)
dispatch-Keeps_example = dispatch-Keeps registry (of_kind "stream") idle

dispatch_twice_panics_example :
    ((dispatch registry (of_kind "stream") idle).0 ≡ started)
    × ((dispatch registry (of_kind "stream") (dispatch registry (of_kind "stream") idle).1).0
        ≡ panicked)
dispatch_twice_panics_example =
    dispatch_twice_panics registry (of_kind "stream") get_logs idle registered refl refl not_running
      refl

stop-removes_example :
    ((other : String)
      → lookup other (stop "backup_auto" idle).1.active
        ≡ (if "backup_auto" == other then none else lookup other idle.active))
    × ((f : StopFn ℕ)
        → lookup "backup_auto" idle.active ≡ some (some f)
        → (stop "backup_auto" idle).1.world ≡ f idle.world)
    × (lookup "backup_auto" idle.active ≡ none → (stop "backup_auto" idle).1 ≡ idle)
    × ((stop "backup_auto" (stop "backup_auto" idle).1).1 ≡ (stop "backup_auto" idle).1)
stop-removes_example = stop-removes "backup_auto" idle

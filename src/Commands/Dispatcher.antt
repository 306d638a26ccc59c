-- ===== src/Commands/Dispatcher.antt =====
-- agent/internal/command/dispatcher.go and types.go: which handler a command goes to, and the stream
-- commands that run. The handlers are an interface, `Handler`, over the agent's state; a call of a
-- nil function value is a panic.
pub mod Streams
use sagiri_guard.Base.{
  ℕ, ◌≡◌, Bool, true, false, not, List, [], Option, none, some, String, ◌==◌, if◌then◌else◌, is_nil,
}
use sagiri_guard.Base.Text.{Text}
use sagiri_guard.Base.Map.{Map, lookup, insert, delete}
use sagiri_guard.Base.Results.{Result, ok, err}

abbrev pub kind_once : String
kind_once = "once"

abbrev pub kind_stream : String
kind_stream = "stream"

-- `Envelope`
pub record Envelope : Type 0 where
  pub device_id : String
  pub name : String
  pub kind : String
  pub argument : Text

-- a stop function; its error is ignored by every caller
abbrev pub StopFn : Type 0 → Type 0
StopFn S = S → S

-- `Handler`, over arguments `A` and the agent's state `S`; a nil stop function is `none`
pub record Handler (A S : Type 0) : Type 0 where
  pub kind : String
  pub decode_arg : Text → Option A
  pub handle_once : Option A → S → Bool × S
  pub start : Option A → S → Result Unit (Option (StopFn S)) × S

-- `Manager`, and the state that the handlers and the stop functions act on
pub record Running (S : Type 0) : Type 0 where
  pub active : Map (Option (StopFn S))
  pub world : S

-- How a call ended.
pub data Outcome : Type 0 where
  unknown_command decode_failed completed failed : Outcome
  started start_failed ignored panicked : Outcome

module _ {A S : Type 0} (registry : Map (Handler A S)) where
  abbrev pub kind_or : String → Option (Handler A S) → String
  kind_or kind none = kind
  kind_or kind (some h) = h.kind

  -- `resolveKind`
  unfoldable pub resolve_kind : Envelope → String
  unfolding lookup
  resolve_kind env =
      if not (env.kind == "") then env.kind else kind_or kind_once (lookup env.name registry)

module _ {S : Type 0} where
  -- the end of a one-off command
  abbrev pub after_once : Map (Option (StopFn S)) → Bool × S → Outcome × Running S
  after_once active (true, w) = (completed, record { active = active; world = w })
  after_once active (false, w) = (failed, record { active = active; world = w })

  abbrev pub after_start :
      String → Map (Option (StopFn S)) → Result Unit (Option (StopFn S)) × S → Outcome × Running S
  after_start name active (err e, w) = (start_failed, record { active = active; world = w })
  after_start name active (ok stop, w) =
      (started, record { active = insert name stop active; world = w })

module _ {A S : Type 0} where
  -- The case of a stream command: a stream of the same name is stopped first.
  unfoldable pub run_stream :
      String → Handler A S → Option A → Option (Option (StopFn S)) → Running S → Outcome × Running S
  unfolding insert delete
  run_stream name h arg none m = after_start name m.active (h.start arg m.world)
  run_stream name h arg (some none) m = (panicked, m)
  run_stream name h arg (some (some stop)) m =
      after_start name (delete name m.active) (h.start arg (stop m.world))

  -- the switch on the kind
  unfoldable pub run_kind :
      String → String → Handler A S → Option A → Running S → Outcome × Running S
  unfolding run_stream lookup
  run_kind kind name h arg m =
      if kind == kind_once
      then after_once m.active (h.handle_once arg m.world)
      else if kind == kind_stream
      then run_stream name h arg (lookup name m.active) m
      else (ignored, m)

  unfoldable pub run_decoded :
      String → String → Handler A S → Option A → Running S → Outcome × Running S
  unfolding run_kind
  run_decoded kind name h none m = (decode_failed, m)
  run_decoded kind name h (some a) m = run_kind kind name h (some a) m

  unfoldable pub dispatch_to :
      String → Envelope → Option (Handler A S) → Running S → Outcome × Running S
  unfolding run_decoded run_kind
  dispatch_to kind env none m = (unknown_command, m)
  dispatch_to kind env (some h) m =
      if is_nil env.argument
      then run_kind kind env.name h none m
      else run_decoded kind env.name h (h.decode_arg env.argument) m

  -- `Dispatch`
  unfoldable pub dispatch : Map (Handler A S) → Envelope → Running S → Outcome × Running S
  unfolding dispatch_to resolve_kind lookup
  dispatch registry env m = dispatch_to (resolve_kind registry env) env (lookup env.name registry) m

module _ {S : Type 0} where
  unfoldable pub stop_found : String → Option (Option (StopFn S)) → Running S → Outcome × Running S
  unfolding delete
  stop_found name none m = (ignored, m)
  stop_found name (some none) m = (panicked, record m { active = delete name m.active })
  stop_found name (some (some stop)) m =
      (completed, record { active = delete name m.active; world = stop m.world })

  -- `Stop`
  unfoldable pub stop : String → Running S → Outcome × Running S
  unfolding stop_found lookup
  stop name m = stop_found name (lookup name m.active) m

-- ===== src/Commands/Dispatcher/Streams.antt =====
-- The table of running streams under `Dispatch` and `Stop`.
use sagiri_guard.Base.{
  ◌≡◌, refl, ap, ◌∙◌, Bool, true, false, Option, none, some, String, ◌==◌, if◌then◌else◌, is_nil,
  eq_iff, eq_refl,
}
use sagiri_guard.Base.Map.{Map, lookup, delete, lookup-insert, lookup-insert_same, lookup-delete}
use sagiri_guard.Base.Results.{Result, ok, err}
use sagiri_guard.Commands.Dispatcher.{
  Handler, Envelope, Outcome, started, ignored, panicked, Running, StopFn, dispatch, dispatch_to,
  run_decoded, run_kind, run_stream, after_start, after_once, resolve_kind, kind_stream, kind_once,
  stop, stop_found,
}

-- Every stream but the named one is as it was.
abbrev pub Keeps : {S : Type 0} → String → Map (Option (StopFn S)) → Outcome × Running S → Type 0
Keeps name active r =
    (other : String) → (name == other) ≡ false → lookup other r.1.active ≡ lookup other active

module _ {S : Type 0} where
  Keeps-if :
      (name : String) (active : Map (Option (StopFn S))) (b : Bool) (x y : Outcome × Running S)
      → Keeps name active x
      → Keeps name active y
      → Keeps name active (if b then x else y)
  Keeps-if name active true x y p q = p
  Keeps-if name active false x y p q = q

  after_once-Keeps :
      (name : String) (active : Map (Option (StopFn S))) (r : Bool × S)
      → Keeps name active (after_once active r)
  after_once-Keeps name active (true, w) other d = refl
  after_once-Keeps name active (false, w) other d = refl

  lookup-delete_other :
      (name other : String) (active : Map (Option (StopFn S)))
      → (name == other) ≡ false
      → lookup other (delete name active) ≡ lookup other active
  lookup-delete_other name other active d =
      lookup-delete name other active ∙ ap (λ b. if b then none else lookup other active) d

  after_start-Keeps :
      (name : String) (old active : Map (Option (StopFn S)))
      (r : Result Unit (Option (StopFn S)) × S)
      → ((other : String) → (name == other) ≡ false → lookup other active ≡ lookup other old)
      → Keeps name old (after_start name active r)
  after_start-Keeps name old active (err e, w) k other d = k other d
  after_start-Keeps name old active (ok s, w) k other d =
      lookup-insert name other s active
      ∙ ap (λ b. if b then some s else lookup other active) d
      ∙ k other d

module _ {A S : Type 0} where
  run_stream-Keeps :
      (name : String) (h : Handler A S) (arg : Option A) (o : Option (Option (StopFn S)))
      (m : Running S)
      → Keeps name m.active (run_stream name h arg o m)
  unfolding run_stream
  run_stream-Keeps name h arg none m =
      after_start-Keeps name m.active m.active (h.start arg m.world) (λ other d. refl)
  run_stream-Keeps name h arg (some none) m = λ other d. refl
  run_stream-Keeps name h arg (some (some s)) m =
      after_start-Keeps name m.active (delete name m.active) (h.start arg (s m.world))
        (λ other d. lookup-delete_other name other m.active d)

  run_kind-Keeps :
      (kind name : String) (h : Handler A S) (arg : Option A) (m : Running S)
      → Keeps name m.active (run_kind kind name h arg m)
  unfolding run_kind
  run_kind-Keeps kind name h arg m =
      Keeps-if name m.active (kind == kind_once) _ _
        (after_once-Keeps name m.active (h.handle_once arg m.world))
        (Keeps-if name m.active (kind == kind_stream) _ _
          (run_stream-Keeps name h arg (lookup name m.active) m) (λ other d. refl))

  run_decoded-Keeps :
      (kind name : String) (h : Handler A S) (o : Option A) (m : Running S)
      → Keeps name m.active (run_decoded kind name h o m)
  unfolding run_decoded
  run_decoded-Keeps kind name h none m = λ other d. refl
  run_decoded-Keeps kind name h (some a) m = run_kind-Keeps kind name h (some a) m

  dispatch_to-Keeps :
      (kind : String) (env : Envelope) (o : Option (Handler A S)) (m : Running S)
      → Keeps env.name m.active (dispatch_to kind env o m)
  unfolding dispatch_to
  dispatch_to-Keeps kind env none m = λ other d. refl
  dispatch_to-Keeps kind env (some h) m =
      Keeps-if env.name m.active (is_nil env.argument) _ _ (run_kind-Keeps kind env.name h none m)
        (run_decoded-Keeps kind env.name h (h.decode_arg env.argument) m)

  -- A command, whatever becomes of it, leaves the running streams of all other names.
  pub dispatch-Keeps :
      (registry : Map (Handler A S)) (env : Envelope) (m : Running S)
      → Keeps env.name m.active (dispatch registry env m)
  unfolding dispatch
  dispatch-Keeps registry env m =
      dispatch_to-Keeps (resolve_kind registry env) env (lookup env.name registry) m

  -- Of two commands with the kind "stream", a known name and no argument, when no stream of the
  -- name runs and the handler's `Start` gives a nil stop function and changes nothing, the first
  -- is reported as started and the second panics.
  pub dispatch_twice_panics :
      (registry : Map (Handler A S)) (env : Envelope) (h : Handler A S) (m : Running S)
      → lookup env.name registry ≡ some h
      → is_nil env.argument ≡ true
      → env.kind ≡ "stream"
      → lookup env.name m.active ≡ none
      → h.start none m.world ≡ (ok none, m.world)
      → ((dispatch registry env m).0 ≡ started)
        × ((dispatch registry env (dispatch registry env m).1).0 ≡ panicked)
  unfolding dispatch dispatch_to run_kind run_stream resolve_kind
  dispatch_twice_panics registry env h m e n k a s =
      rw (e, n, k, a) (rw s (refl, rw (lookup-insert_same env.name none m.active) refl))

module _ {S : Type 0} where
  absent_other :
      (name other : String) (active : Map (Option (StopFn S))) (b : Bool)
      → (name == other) ≡ b
      → lookup name active ≡ none
      → lookup other active ≡ (if b then none else lookup other active)
  absent_other name other active true e n = rw⁻¹ ((eq_iff name other).0 e) n
  absent_other name other active false e n = refl

  stop_found-removes :
      (name other : String) (o : Option (Option (StopFn S))) (m : Running S)
      → lookup name m.active ≡ o
      → lookup other (stop_found name o m).1.active
        ≡ (if name == other then none else lookup other m.active)
  unfolding stop_found
  stop_found-removes name other none m e = absent_other name other m.active (name == other) refl e
  stop_found-removes name other (some none) m e = lookup-delete name other m.active
  stop_found-removes name other (some (some s)) m e = lookup-delete name other m.active

stop_found-world :
    {S : Type 0} (name : String) (f : StopFn S) (o : Option (Option (StopFn S))) (m : Running S)
    → o ≡ some (some f)
    → (stop_found name o m).1.world ≡ f m.world
unfolding stop_found
stop_found-world name f o m e = rw e

stop_found_absent :
    {S : Type 0} (name : String) (o : Option (Option (StopFn S))) (m : Running S)
    → o ≡ none
    → stop_found name o m ≡ (ignored, m)
unfolding stop_found
stop_found_absent name o m e = rw e

stop_absent :
    {S : Type 0} (name : String) (m : Running S)
    → lookup name m.active ≡ none
    → stop name m ≡ (ignored, m)
unfolding stop
stop_absent name m e = stop_found_absent name (lookup name m.active) m e

stop_other :
    {S : Type 0} (name other : String) (m : Running S)
    → lookup other (stop name m).1.active ≡ (if name == other then none else lookup other m.active)
unfolding stop stop_found
stop_other name other m = stop_found-removes name other (lookup name m.active) m refl

stop-world :
    {S : Type 0} (name : String) (f : StopFn S) (m : Running S)
    → lookup name m.active ≡ some (some f)
    → (stop name m).1.world ≡ f m.world
unfolding stop
stop-world name f m e = stop_found-world name f (lookup name m.active) m e

-- After `Stop` no stream of the name is in the table, and all others are as they were. If a stream
-- of the name ran and has a stop function, this function has been called, once, on the agent's
-- state; if none ran, nothing has changed. A second `Stop` of the name changes nothing.
pub stop-removes :
    {S : Type 0} (name : String) (m : Running S)
    → ((other : String)
        → lookup other (stop name m).1.active
          ≡ (if name == other then none else lookup other m.active))
      × ((f : StopFn S) → lookup name m.active ≡ some (some f) → (stop name m).1.world ≡ f m.world)
      × (lookup name m.active ≡ none → (stop name m).1 ≡ m)
      × ((stop name (stop name m).1).1 ≡ (stop name m).1)
stop-removes name m = (
  λ other. stop_other name other m,
  λ f e. stop-world name f m e,
  λ e. ap (λ r. r.1) (stop_absent name m e),
  ap (λ r. r.1) (stop_absent name (stop name m).1 (stop_other name name m ∙ rw (eq_refl name))),
)

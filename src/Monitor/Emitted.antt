-- ===== src/Monitor/Emitted.antt =====
-- agent/internal/monitor: what the channel of events holds after events were emitted.
use sagiri_guard.Base.{
  ℕ, zero, suc, ◌≤◌, ◌≡◌, refl, sym, ap, ◌∙◌, Bool-cases, inl, inr, List, [], ◌∷◌, ◌++◌,
  if◌then◌else◌, ltb, length, length-append, take, arith,
}
use sagiri_guard.Local.{LocalDb}
use sagiri_guard.Monitor.{FileEvent, Sink, emit_event, emit_all, event_queue_size}
use mathlib.Core.List.{append_assoc, append-nil}

take_short : (m : ℕ) (xs : List FileEvent) → length xs ≤ m → take m xs ≡ xs
take_short zero [] h = refl
take_short zero (x ∷ xs) h = absurd (omega arith)
take_short (suc m) [] h = refl
take_short (suc m) (x ∷ xs) h = ap (λ l. x ∷ l) (take_short m xs (omega arith))

take-append_full : (m : ℕ) (xs ys : List FileEvent) → length xs ≡ m → take m (xs ++ ys) ≡ xs
take-append_full zero [] ys h = refl
take-append_full zero (x ∷ xs) ys h = absurd (omega arith)
take-append_full (suc m) [] ys h = absurd (omega arith)
take-append_full (suc m) (x ∷ xs) ys h = ap (λ l. x ∷ l) (take-append_full m xs ys (omega arith))

-- one event more, when there is room, and none when there is not
put :
    (out : List FileEvent) (e : FileEvent) (es : List FileEvent)
    → length out ≤ event_queue_size
    → (let after : List FileEvent =
          if ltb (length out) event_queue_size then out ++ (e ∷ []) else out in
        (length after ≤ event_queue_size)
        × (take event_queue_size (after ++ es) ≡ take event_queue_size (out ++ (e ∷ es))))
put out e es h = elim (Bool-cases (ltb (length out) event_queue_size)) [
  | inl t ↦ rw t (
    let l = length-append out (e ∷ []) in ground arith,
    ap (take event_queue_size) (append_assoc out (e ∷ []) es),
  )
  | inr f ↦
      let full : length out ≡ event_queue_size = ground arith in
      rw f (
        h,
        take-append_full event_queue_size out es full
            ∙ sym (take-append_full event_queue_size out (e ∷ es) full),
      )
]

-- For all databases, times, events and sinks whose channel holds at most 128 events: after the
-- events are emitted the channel holds the first 128 of the events that it held and the emitted
-- ones, in order. The others are dropped.
pub channel_bound :
    (D : LocalDb) (now : ℕ) (es : List FileEvent) (k : Sink D.table.State)
    → length k.out ≤ event_queue_size
    → (length (emit_all D now es k).out ≤ event_queue_size)
      × ((emit_all D now es k).out ≡ take event_queue_size (k.out ++ es))
unfolding emit_all emit_event
channel_bound D now [] k h =
    (h, sym (ap (take event_queue_size) (append-nil k.out) ∙ take_short event_queue_size k.out h))
channel_bound D now (e ∷ es) k h =
    let one = put k.out e es h in
    let rest = channel_bound D now es (emit_event D now e k) one.0 in (rest.0, rest.1 ∙ one.1)

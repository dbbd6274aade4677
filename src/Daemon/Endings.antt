-- ===== src/Daemon/Endings.antt =====
-- What ends the loop of the daemon.
use loraterm.Common.{◌≡◌, refl, Bool, true, false, ◌||◌, List, [], ◌∷◌, any}
use loraterm.Sse.{SseEvent}
use loraterm.Daemon.{
  Daemon, Env, Input, reload, event, shutdown, signals_closed, events_closed, run,
}

-- The second list is the first with what comes of the stream in between: its events, and the end of
-- their channel.
pub data Mixed {Value : Type 0} : List (Input Value) → List (Input Value) → Type 0 where
  none_left : Mixed [] []
  next :
      (i : Input Value) {signals all : List (Input Value)}
      → Mixed signals all
      → Mixed (i ∷ signals) (i ∷ all)
  served :
      (env : Env) (e : SseEvent Value) {signals all : List (Input Value)}
      → Mixed signals all
      → Mixed signals (event env e ∷ all)
  stream_over :
      {signals all : List (Input Value)} → Mixed signals all → Mixed signals (events_closed ∷ all)

-- The inputs at which the loop ends.
abbrev pub ends : {Value : Type 0} → Input Value → Bool
ends (reload r) = false
ends (event env e) = false
ends shutdown = true
ends signals_closed = true
ends events_closed = true

abbrev pub is_events_closed : {Value : Type 0} → Input Value → Bool
is_events_closed (reload r) = false
is_events_closed (event env e) = false
is_events_closed shutdown = false
is_events_closed signals_closed = false
is_events_closed events_closed = true

or_true : (b : Bool) → true ≡ (b || true)
or_true true = refl
or_true false = refl

-- Whether the loop ends is up to the inputs that are not events.
pub run-Mixed :
    {Value : Type 0} {signals all : List (Input Value)} (d : Daemon)
    → Mixed signals all
    → (run all d).1 ≡ (any ends signals || any is_events_closed all)
unfolding run
run-Mixed d none_left = refl
run-Mixed d (next (reload r) m) = run-Mixed _ m
run-Mixed d (next (event env e) m) = run-Mixed _ m
run-Mixed d (next shutdown m) = refl
run-Mixed d (next signals_closed m) = refl
run-Mixed d (next events_closed m) = refl
run-Mixed d (served env e m) = run-Mixed _ m
run-Mixed d (stream_over {signals} m) = or_true (any ends signals)

-- ===== src/Signals/Tests.antt =====
-- Signals that arrive at a daemon.
use loraterm.Common.{ℕ, ◌≡◌, true, not, ◌||◌, List, [], ◌∷◌, map, any}
use loraterm.Config.{ok, Result, ConfigError, Whitelist}
use loraterm.Daemon.{Daemon, Input, reload, events_closed, run}
use loraterm.Daemon.Endings.{Mixed, none_left, next, stream_over, is_events_closed}
use loraterm.Text.{Text}
use loraterm.Signals.{SignalKind, hangup, Handlers, spawn_signal_task, forward, on_signal}
use loraterm.Signals.Forward.{stops, installed, received, run-spawn_signal_task, channel_inputs}

abbrev handlers : Handlers
handlers = record { hup = true; term = true; int_sig = true }

abbrev kinds : List SignalKind
kinds = hangup ∷ hangup ∷ []

abbrev nobody : Whitelist
nobody = record { entries = [] }

abbrev loads : ℕ → Result ConfigError Whitelist
loads n = ok nobody

abbrev daemon : Daemon
daemon = record { whitelist = nobody; peers = []; next_session = 0; effects = [] }

abbrev inputs : List (Input Text)
inputs = reload (ok nobody) ∷ reload (ok nobody) ∷ events_closed ∷ []

mixed :
    Mixed
      (channel_inputs loads 0
        (spawn_signal_task handlers (map received kinds)).signals
        (spawn_signal_task handlers (map received kinds)).is_over)
      inputs
unfolding spawn_signal_task forward on_signal
mixed = next (reload (ok nobody)) (next (reload (ok nobody)) (stream_over none_left))

run-spawn_signal_task_example :
    (run inputs daemon).1
    ≡ (not (installed handlers) || any stops kinds) || any is_events_closed inputs
run-spawn_signal_task_example = run-spawn_signal_task handlers kinds loads inputs daemon mixed

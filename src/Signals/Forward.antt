-- ===== src/Signals/Forward.antt =====
-- What of the signals reaches the daemon, and when that ends it.
use loraterm.Common.{
  ℕ, suc, ◌≡◌, refl, ap, ◌∙◌, Bool, true, false, not, ◌&&◌, ◌||◌, List, [], ◌∷◌, ◌++◌, map, any,
  inl, inr, Bool-cases, arith, replicate, if◌then◌else◌,
}
use loraterm.Config.{ConfigError, Result, Whitelist}
use loraterm.Daemon.{Input, signals_closed, Daemon, run}
use loraterm.Daemon.Endings.{Mixed, ends, is_events_closed, run-Mixed}
use loraterm.Signals.{
  Signal, SignalKind, hangup, terminate, interrupt, Handlers, Arrival, on_signal, forward,
  spawn_signal_task,
}

abbrev pub stops : SignalKind → Bool
stops hangup = false
stops terminate = true
stops interrupt = true

-- How many signals come before the first that stops the daemon.
abbrev pub before_stop : List SignalKind → ℕ
before_stop [] = 0
before_stop (k ∷ ks) = if stops k then 0 else suc (before_stop ks)

abbrev pub installed : Handlers → Bool
installed h = h.hup && (h.term && h.int_sig)

abbrev pub received : SignalKind → Arrival
received k = record { kind = k; is_open = true }

forward-received :
    (ks : List SignalKind)
    → ((forward (map received ks)).signals
        ≡ replicate (before_stop ks) Signal.reload
          ++ (if any stops ks then Signal.shutdown ∷ [] else []))
      × ((forward (map received ks)).is_over ≡ any stops ks)
unfolding forward on_signal
forward-received [] = (refl, refl)
forward-received (hangup ∷ ks) =
    let (signals, over) = forward-received ks in (ap (◌∷◌ Signal.reload) signals, over)
forward-received (terminate ∷ ks) = (refl, refl)
forward-received (interrupt ∷ ks) = (refl, refl)

spawn-installed :
    (h : Handlers) (arrivals : List Arrival)
    → installed h ≡ true
    → spawn_signal_task h arrivals ≡ forward arrivals
unfolding spawn_signal_task
spawn-installed h arrivals ready = ground arith

spawn-missing :
    (h : Handlers) (arrivals : List Arrival)
    → installed h ≡ false
    → spawn_signal_task h arrivals ≡ record { signals = []; is_over = true }
unfolding spawn_signal_task
spawn-missing h arrivals missing = ground arith

-- With the handlers installed and a daemon that listens, each hangup before the first signal to
-- terminate or interrupt is passed on as a reload, that signal as one shutdown, and nothing behind it.
pub spawn_signal_task-received :
    (h : Handlers) (ks : List SignalKind)
    → installed h ≡ true
    → ((spawn_signal_task h (map received ks)).signals
        ≡ replicate (before_stop ks) Signal.reload
          ++ (if any stops ks then Signal.shutdown ∷ [] else []))
      × ((spawn_signal_task h (map received ks)).is_over ≡ any stops ks)
spawn_signal_task-received h ks ready =
    rw (spawn-installed h (map received ks) ready) (forward-received ks)

-- What the loop of the daemon receives from the channel: the whitelists that its reloads find, in
-- their order, and the end of the channel.
abbrev pub channel_inputs :
    {Value : Type 0}
    → (ℕ → Result ConfigError Whitelist)
    → ℕ
    → List Signal
    → Bool
    → List (Input Value)
channel_inputs loads n [] is_over = if is_over then signals_closed ∷ [] else []
channel_inputs loads n (Signal.reload ∷ ss) is_over =
    Input.reload (loads n) ∷ channel_inputs loads (suc n) ss is_over
channel_inputs loads n (Signal.shutdown ∷ ss) is_over =
    Input.shutdown ∷ channel_inputs loads n ss is_over

-- The end is among what the channel brings exactly if the task has returned.
ends-forward :
    (Value : Type 0) (loads : ℕ → Result ConfigError Whitelist) (n : ℕ) (ks : List SignalKind)
    → any (ends {Value = Value}) (
        channel_inputs loads n
          (forward (map received ks)).signals
          (forward (map received ks)).is_over)
      ≡ any stops ks
unfolding forward on_signal
ends-forward Value loads n [] = refl
ends-forward Value loads n (hangup ∷ ks) = ends-forward Value loads (suc n) ks
ends-forward Value loads n (terminate ∷ ks) = refl
ends-forward Value loads n (interrupt ∷ ks) = refl

-- Whatever comes of the stream in between, the loop of the daemon ends exactly if a signal to
-- terminate or interrupt arrives, or a handler could not be installed, or the channel of the events
-- closes, which it does when the task of the stream has returned or has panicked.
pub run-spawn_signal_task :
    {Value : Type 0} (h : Handlers) (ks : List SignalKind)
    (loads : ℕ → Result ConfigError Whitelist) (inputs : List (Input Value)) (d : Daemon)
    → Mixed
        (channel_inputs loads 0
          (spawn_signal_task h (map received ks)).signals
          (spawn_signal_task h (map received ks)).is_over)
        inputs
    → (run inputs d).1 ≡ (not (installed h) || any stops ks) || any is_events_closed inputs
run-spawn_signal_task {Value} h ks loads inputs d mixed = elim (Bool-cases (installed h)) [
  | inl ready ↦
      let same = spawn-installed h (map received ks) ready in
      rw ready (
        run-Mixed d (rw same at mixed)
        ∙ ap (λ b. b || any is_events_closed inputs) (ends-forward Value loads 0 ks))
  | inr missing ↦ run-Mixed d mixed ∙ rw (spawn-missing h (map received ks) missing, missing) refl
]

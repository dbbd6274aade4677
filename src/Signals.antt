-- ===== src/Signals.antt =====
-- src/signals.rs: the task that turns the signals of the operating system into those of the daemon.
-- Whether a handler can be installed, and which signals arrive, are its inputs.
pub mod Forward
mod Tests
use loraterm.Common.{Bool, true, false, not, ◌&&◌, List, [], ◌∷◌, if◌then◌else◌}

pub data Signal : Type 0 where
  reload shutdown : Signal

-- SIGHUP, SIGTERM and SIGINT.
pub data SignalKind : Type 0 where
  hangup terminate interrupt : SignalKind

-- Whether `signal` installs the handler of each kind.
pub record Handlers : Type 0 where
  pub hup : Bool
  pub term : Bool
  pub int_sig : Bool

-- A signal, and whether the receiver of the channel is still there when it is passed on.
pub record Arrival : Type 0 where
  pub kind : SignalKind
  pub is_open : Bool

-- What the task sent, and whether it has returned, which closes the channel.
pub record Sent : Type 0 where
  pub signals : List Signal
  pub is_over : Bool

abbrev pub sent_to : Bool → Signal → List Signal
sent_to is_open s = if is_open then s ∷ [] else []

-- A signal with the rest of the loop.
pub on_signal : SignalKind → Bool → Sent → Sent
on_signal hangup is_open rest =
    if is_open
    then record { signals = reload ∷ rest.signals; is_over = rest.is_over }
    else record { signals = []; is_over = true }
on_signal terminate is_open rest = record { signals = sent_to is_open shutdown; is_over = true }
on_signal interrupt is_open rest = record { signals = sent_to is_open shutdown; is_over = true }

pub forward : List Arrival → Sent
unfolding on_signal
forward [] = record { signals = []; is_over = false }
forward (a ∷ rest) = on_signal a.kind a.is_open (forward rest)

pub spawn_signal_task : Handlers → List Arrival → Sent
unfolding forward
spawn_signal_task h arrivals =
    if not h.hup
    then record { signals = []; is_over = true }
    else if not h.term
    then record { signals = []; is_over = true }
    else if not h.int_sig
    then record { signals = []; is_over = true }
    else forward arrivals

-- ===== src/System.antt =====
-- src/daemon.rs with src/peer.rs: the daemon and the sessions that it starts, interleaved in any
-- order. A session has the channel of its input, from the daemon, and a place in its life; what the
-- daemon finds out about a session in a step is read off that.
pub mod Fed
pub mod Effects
pub mod Grown
pub mod Events
pub mod Ends
pub mod Turns
pub mod Isolation
pub mod Origin
pub mod Typed
pub mod Over
pub mod Stopped
pub mod Lost
pub mod Revoked
pub mod Frames
pub mod Shells
pub mod Lines
mod Tests
use loraterm.Common.{
  ℕ, zero, suc, ◌-◌, Bool, true, false, not, ◌&&◌, ◌==◌, ltb, if◌then◌else◌, List, [], ◌∷◌, ◌++◌,
  Option, none, some, Run, ok, panicked, diverged, length, take,
}
use loraterm.Text.{Text, Bytes, to_ascii_lowercase}
use loraterm.Config.{ConfigError, Result, ValidatedPeer, Whitelist, get}
use loraterm.Config.File.{Config}
use loraterm.Sse.{DmEvent, SseEvent, dm_received, sent_echo, other, comment}
use loraterm.Peer.{Session, Round, Step, start, idle_secs, round, on_line, farewell}
use loraterm.Daemon.{
  Effect, spawned, delivered, shut_down, Daemon, Env, find_handle, is_pubkey, handle_sse_event,
  reload_whitelist, finish,
}

-- The loop of the actor runs; it waits with the line that a round took, until the channel of the
-- terminal takes its payload, and polls nothing else meanwhile; it has ended, but the queue is drained and the child ended, while the
-- receiver of the input is still held; the task has returned.
pub data Phase : Type 0 where
  running : Phase
  sending : Text → Phase
  ending gone : Phase

pub record Slot : Type 0 where
  pub key : Text
  pub peer : ValidatedPeer
  pub phase : Phase
  pub session : Session
  pub inbox : List Text
  pub told : Option Text

-- The sessions by their numbers.
abbrev pub Slots : Type 0
Slots = ℕ → Option Slot

abbrev pub update : ℕ → Slot → Slots → Slots
update n s slots m = if m == n then some s else slots m

abbrev pub modify : ℕ → (Slot → Slot) → Slots → Slots
modify n f slots m =
    if m == n then (elim (slots n) [ some s ↦ some (f s) | none ↦ none ]) else slots m

-- `is_over` says that `run` has returned.
pub record System : Type 0 where
  pub daemon : Daemon
  pub is_over : Bool
  pub slots : Slots

abbrev pub is_gone : Phase → Bool
is_gone running = false
is_gone (sending line) = false
is_gone ending = false
is_gone gone = true

module _ (config : Config) where
  -- A line is taken while the task is there and the channel has room; a session that is started in the
  -- step has an empty channel.
  abbrev pub env_of : ℕ → Bool → Slots → Env
  env_of now can_spawn slots = record {
    now = now;
    can_spawn = can_spawn;
    is_closed = λ n. elim (slots n) [ some s ↦ is_gone s.phase | none ↦ false ];
    accepts = λ n. elim (slots n) [
      | some s ↦ not (is_gone s.phase) && ltb (length s.inbox) config.limits.inbound_channel_depth
      | none ↦ ltb 0 config.limits.inbound_channel_depth
    ];
  }

  abbrev pub fresh_slot : ℕ → Text → ValidatedPeer → Slot
  fresh_slot now key peer = record {
    key = key;
    peer = peer;
    phase = running;
    session = start peer config.chunking config.limits now;
    inbox = [];
    told = none;
  }

  -- What an effect of the daemon does to the sessions. Only the first reason is sent.
  abbrev pub apply : ℕ → Effect → Slots → Slots
  apply now (spawned key n peer) slots = update n (fresh_slot now key peer) slots
  apply now (delivered key n line) slots =
      modify n (λ s. record s { inbox = s.inbox ++ line ∷ [] }) slots
  apply now (shut_down key n reason) slots =
      modify n
        (λ s. record s { told = elim s.told [ some first ↦ some first | none ↦ some reason ] })
        slots

  abbrev pub apply_all : ℕ → List Effect → Slots → Slots
  apply_all now [] slots = slots
  apply_all now (e ∷ es) slots = apply now e (apply_all now es slots)

-- The effects that are new, newest first.
abbrev pub new_effects : List Effect → List Effect → List Effect
new_effects old all_effects = take (length all_effects - length old) all_effects

-- The session whose handle a message touched: the cell with the time of the last activity is shared
-- between the handle and the actor.
pub touched : {Value : Type 0} → SseEvent Value → Daemon → Option ℕ
touched (dm_received dm) d =
    let key = to_ascii_lowercase dm.peer_pubkey_hex in
    elim dm.text [
      | none ↦ none
      | some line ↦
          if is_pubkey key
          then (elim (get d.whitelist key) [
            | none ↦ none
            | some peer ↦ elim (find_handle key d.peers) [ some h ↦ some h.session | none ↦ none ]
          ])
          else none
    ]
touched (sent_echo dm) d = none
touched (other kind raw) d = none
touched (comment text) d = none

abbrev pub touch : ℕ → Option ℕ → Slots → Slots
touch now none slots = slots
touch now (some n) slots =
    modify n (λ s. record s { session = record s.session { last_activity = now } }) slots

-- What the round of a session finds ready: the reason, if it was told one, and the first line of its
-- channel. Its channels are not closed while its loop runs, unless it was told: a handle is dropped
-- when its session is told, or is gone. The rest of the round is up to the outside.
abbrev pub polled : Slot → Round → Round
polled s r = record r {
  stop = elim s.told [ some reason ↦ some (some reason) | none ↦ none ];
  line = elim s.inbox [ [] ↦ none | line ∷ lines ↦ some (some line) ];
}

-- The round gets to the channel of lines.
pub takes_line : Round → Bool
takes_line r = elim r.stop [ none ↦ not r.tick && not r.silence | some reason ↦ false ]

-- Behind the loop the rest of the output is offered with the farewell.
pub on_end : Slot → Run Session → Slot
on_end s (ok end) = record s { phase = ending; session = end }
on_end s panicked = record s { phase = gone }
on_end s diverged = record s { phase = gone }

-- The sender is done and the child has ended.
pub leave : Slot → Phase → Slot
leave s running = s
leave s (sending line) = s
leave s ending = record s { phase = gone }
leave s gone = s

-- What happens next: the daemon handles an event, a reload, or its end; or session `n` goes on with
-- its loop, or returns.
pub data Move (Value : Type 0) : Type 0 where
  stream : (now : ℕ) (can_spawn : Bool) → SseEvent Value → Move Value
  reloaded : (now : ℕ) → Result ConfigError Whitelist → Move Value
  stopped : (now : ℕ) → Move Value
  turned : (n : ℕ) → Round → Move Value
  left_behind : (n : ℕ) → Move Value

module _ (config : Config) where
  -- The daemon goes on as `d`.
  abbrev pub proceed : ℕ → Daemon → System → System
  proceed now d s = record s {
    daemon = d;
    slots = apply_all config now (new_effects s.daemon.effects d.effects) s.slots;
  }

module _ (strip : Bytes → Bytes) (config : Config) where
  -- Behind a round; a panic ends the task.
  pub on_round : Slot → Run Step → Slot
  unfolding on_end
  on_round s (ok (next, none)) = record s { session = next }
  on_round s (ok (next, some reason)) =
      on_end s (farewell strip (idle_secs s.peer config.limits) next reason)
  on_round s panicked = record s { phase = gone }
  on_round s diverged = record s { phase = gone }

  -- A round, with the lines that it gets to: the first is taken off the channel, and is then waited
  -- with. A round that gets to none is gone through at once.
  pub begin_round : Round → Slot → List Text → Slot
  unfolding on_round
  begin_round r s [] =
      on_round s (round strip (idle_secs s.peer config.limits) (polled s r) s.session)
  begin_round r s (line ∷ lines) = record s {
    phase = sending line;
    inbox = lines;
    session = record s.session { last_activity = r.now };
  }

  -- What a session does when it is scheduled. One that waits with a line ends its round: `takes_input`
  -- says whether the channel of the terminal takes the payload or is closed. The time of activity was
  -- set when the line was taken.
  pub turn : Round → Slot → Phase → Slot
  unfolding begin_round on_round takes_line
  turn r s running = begin_round r s (if takes_line (polled s r) then s.inbox else [])
  turn r s (sending line) =
      on_round (record s { phase = running })
        (on_line strip (idle_secs s.peer config.limits) (record r { now = s.session.last_activity })
          s.session (some (some line)))
  turn r s ending = s
  turn r s gone = s

  pub step : {Value : Type 0} → Move Value → System → System
  unfolding turn leave touched
  step (stream now can_spawn e) s =
      let d = handle_sse_event (env_of config now can_spawn s.slots) e s.daemon in
      let s' = proceed config now d s in
      if s.is_over then s else record s' { slots = touch now (touched e d) s'.slots }
  step (reloaded now r) s =
      if s.is_over then s else proceed config now (reload_whitelist r s.daemon) s
  step (stopped now) s =
      if s.is_over then s else record (proceed config now (finish s.daemon) s) { is_over = true }
  step (turned n r) s = record s { slots = modify n (λ t. turn r t t.phase) s.slots }
  step (left_behind n) s = record s { slots = modify n (λ t. leave t t.phase) s.slots }

  pub steps : {Value : Type 0} → List (Move Value) → System → System
  unfolding step
  steps [] s = s
  steps (m ∷ ms) s = steps ms (step m s)

-- The start of the loop: no session, and nothing done.
abbrev pub boot : Whitelist → System
boot w = record {
  daemon = record { whitelist = w; peers = []; next_session = 0; effects = [] };
  is_over = false;
  slots = λ n. none;
}

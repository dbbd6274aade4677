-- ===== src/System/Isolation.antt =====
-- The soundness of the sessions along a schedule, move by move.
use loraterm.Common.{
  if◌then◌else◌, ℕ, ◌≡◌, refl, inl, inr, List, [], ◌∷◌, Option, none, some, Run, ok, panicked,
  diverged, Bool-cases,
}
use loraterm.Text.{Bytes}
use loraterm.Config.File.{Config}
use loraterm.Peer.{on_line, Session, Round, Step, round, farewell, idle_secs}
use loraterm.Daemon.{Daemon, handle_sse_event, reload_whitelist, finish}
use loraterm.System.{
  Text, Slot, Phase, running, sending, ending, gone, polled, takes_line, begin_round, on_end,
  on_round, turn, leave, System, Move, stream, reloaded, stopped, turned, left_behind, step, steps,
  touch, touched, env_of, proceed,
}
use loraterm.System.Fed.{IsSound}
use loraterm.System.Effects.{modify-IsSound}
use loraterm.System.Grown.{IsGrown, IsGrown-IsSound, IsGrown-idle}
use loraterm.System.Events.{handle_sse_event-IsGrown}
use loraterm.System.Ends.{reload_whitelist-IsGrown, finish-IsGrown}
use loraterm.System.Turns.{turn-IsFed, leave-IsFed}

module _ (strip : Bytes → Bytes) (config : Config) where
  on_end_key : (s : Slot) (x : Run Session) → (on_end s x).key ≡ s.key
  unfolding on_end
  on_end_key s (ok end) = refl
  on_end_key s panicked = refl
  on_end_key s diverged = refl

  on_round_key : (s : Slot) (x : Run Step) → (on_round strip config s x).key ≡ s.key
  unfolding on_round
  on_round_key s (ok (next, none)) = refl
  on_round_key s (ok (next, some reason)) =
      on_end_key s (farewell strip (idle_secs s.peer config.limits) next reason)
  on_round_key s panicked = refl
  on_round_key s diverged = refl

  begin_round_key :
      (r : Round) (s : Slot) (lines : List Text) → (begin_round strip config r s lines).key ≡ s.key
  unfolding begin_round
  begin_round_key r s [] =
      on_round_key s (round strip (idle_secs s.peer config.limits) (polled s r) s.session)
  begin_round_key r s (line ∷ lines) = refl

  turn_key : (r : Round) (s : Slot) (phase : Phase) → (turn strip config r s phase).key ≡ s.key
  unfolding turn
  turn_key r s running = begin_round_key r s (if takes_line (polled s r) then s.inbox else [])
  turn_key r s (sending line) =
      on_round_key (record s { phase = running })
        (on_line strip (idle_secs s.peer config.limits) (record r { now = s.session.last_activity })
          s.session (some (some line)))
  turn_key r s ending = refl
  turn_key r s gone = refl

  leave_key : (s : Slot) (phase : Phase) → (leave s phase).key ≡ s.key
  unfolding leave
  leave_key s running = refl
  leave_key s (sending line) = refl
  leave_key s ending = refl
  leave_key s gone = refl

  abbrev pub Sound : System → Type 0
  Sound s = IsSound s.daemon.peers s.daemon.next_session s.slots s.daemon.effects

  proceed-Sound :
      (now : ℕ) (d : Daemon) (s : System)
      → (IsGrown config now s.slots s.daemon s.daemon → IsGrown config now s.slots s.daemon d)
      → Sound s
      → Sound (proceed config now d s)
  proceed-Sound now d s handled a =
      IsGrown-IsSound config now s.slots s.daemon d
        (handled (IsGrown-idle config now s.slots s.daemon a))

  touch-Sound :
      (now : ℕ) (o : Option ℕ) (s : System)
      → Sound s
      → Sound (record s { slots = touch now o s.slots })
  touch-Sound now none s a = a
  touch-Sound now (some n) s a =
      modify-IsSound n (λ t. record t { session = record t.session { last_activity = now } })
        (λ t. refl) (λ t lines f. record { more = f.more; split = f.split; waiting = f.waiting })
        s.daemon.peers s.daemon.next_session s.slots s.daemon.effects a

  pub step-Sound :
      {Value : Type 0} (m : Move Value) (s : System) → Sound s → Sound (step strip config m s)
  unfolding step
  step-Sound (stream now can_spawn e) s a = elim (Bool-cases s.is_over) [
    | inl over ↦ simp over a
    | inr going ↦
        let d = handle_sse_event (env_of config now can_spawn s.slots) e s.daemon in
        simp going (
          touch-Sound now (touched e d) (proceed config now d s) (
            proceed-Sound now d s
              (handle_sse_event-IsGrown config now s.slots s.daemon
                (env_of config now can_spawn s.slots) e s.daemon)
              a))
  ]
  step-Sound (reloaded now r) s a = elim (Bool-cases s.is_over) [
    | inl over ↦ simp over a
    | inr going ↦ simp going (
        proceed-Sound now (reload_whitelist r s.daemon) s
          (reload_whitelist-IsGrown config now s.slots s.daemon r s.daemon) a)
  ]
  step-Sound (stopped now) s a = elim (Bool-cases s.is_over) [
    | inl over ↦ simp over a
    | inr going ↦ simp going (
        proceed-Sound now (finish s.daemon) s (finish-IsGrown config now s.slots s.daemon s.daemon)
          a)
  ]
  step-Sound (turned n r) s a =
      modify-IsSound n (λ t. turn strip config r t t.phase) (λ t. turn_key r t t.phase)
        (λ t lines f. turn-IsFed strip config t lines r t.phase refl f) s.daemon.peers
        s.daemon.next_session s.slots s.daemon.effects a
  step-Sound (left_behind n) s a =
      modify-IsSound n (λ t. leave t t.phase) (λ t. leave_key t t.phase)
        (λ t lines f. leave-IsFed strip config t lines t.phase f) s.daemon.peers
        s.daemon.next_session s.slots s.daemon.effects a

  pub steps-Sound :
      {Value : Type 0} (ms : List (Move Value)) (s : System)
      → Sound s
      → Sound (steps strip config ms s)
  unfolding steps
  steps-Sound [] s a = a
  steps-Sound (m ∷ ms) s a = steps-Sound ms (step strip config m s) (step-Sound m s a)

-- ===== src/System/Lost.antt =====
-- A session whose loop has ended, until it returns: what is delivered to it in the meantime.
use loraterm.Common.{
  ℕ, ◌≡◌, ◌<◌, refl, sym, subst, ◌∙◌, Bool, true, false, inl, inr, List, ◌∷◌, none, some, arith,
  Bool-cases, ltb, length,
}
use loraterm.Text.{Text, Bytes}
use loraterm.Config.{Whitelist, ValidatedPeer, get}
use loraterm.Config.File.{Config}
use loraterm.Sse.{DmEvent}
use loraterm.Daemon.{Env, PeerHandle, delivered, Daemon, find_handle, is_pubkey, handle_sse_event}
use loraterm.Daemon.Trust.{sender, inbound}
use loraterm.Daemon.Dispatch.{live, IsAnswered, handle_sse_event-IsAnswered}
use loraterm.System.{Slot, ending, System, Move, stream, step, steps, boot, env_of}
use loraterm.System.Typed.{boot-Sound}
use loraterm.System.Isolation.{Sound, step-Sound, steps-Sound}
use loraterm.System.Over.{Over, step-Over, steps-Over}
use loraterm.System.Stopped.{Stopped, StoppedIn, Stopped-AtMost, Stopped-IsStable}

pub used_number :
    (strip : Bytes → Bytes) (config : Config) (s : System)
    → Sound strip config s
    → (n : ℕ) (t : Slot) → s.slots n ≡ some t
    → n < s.daemon.next_session
used_number strip config s a n t here = elim (Bool-cases (ltb n s.daemon.next_session)) [
  | inl used ↦ ground (arith, used)
  | inr free ↦ absurd (cc (here, (a.unused n (ground (arith, free))).0))
]

module _ (Value : Type 0) (config : Config) (now : ℕ) (can_spawn : Bool) (s : System) (dm : DmEvent)
    (line : Text) (peer : ValidatedPeer) (h : PeerHandle) (t : Slot) (said : dm.text ≡ some line)
    (valid : is_pubkey (sender dm) ≡ true) (listed : get s.daemon.whitelist (sender dm) ≡ some peer)
    (found : find_handle (sender dm) s.daemon.peers ≡ some h) (here : s.slots h.session ≡ some t)
    (closing : t.phase ≡ ending) (room : length t.inbox < config.limits.inbound_channel_depth) where
  abbrev env : Env
  env = env_of config now can_spawn s.slots

  abbrev handled : Daemon
  handled = handle_sse_event env (inbound Value dm) s.daemon

  -- The message is put into the channel of the session, and none is started.
  ending-delivered :
      (handled.effects ≡ delivered (sender dm) h.session line ∷ s.daemon.effects)
      × (handled.next_session ≡ s.daemon.next_session)
  ending-delivered =
      let open_channel : env.is_closed h.session ≡ false = rw (here, closing) refl in
      let fits : env.accepts h.session ≡ true = rw (here, closing) (ground (arith, room)) in
      let is_live : live env (find_handle (sender dm) s.daemon.peers) ≡ some h =
        rw (found, open_channel) refl in
      let (effects, next, handle) =
        subst (λ o. IsAnswered env (sender dm) line peer o s.daemon handled) is_live
          (handle_sse_event-IsAnswered Value env s.daemon dm line peer said valid listed) in
      (effects ∙ rw fits refl, next)

-- Between the end of its loop and its return a session still counts as alive, and what its peer says
-- is lost: while the session drains its queue and ends its child, the handler of a message from its
-- peer puts the text into its channel, if there is room, and starts no session; and whatever happens
-- afterwards, that session never hands anything more to the channel of its terminal.
pub step-stream-lost :
    {Value : Type 0} (strip : Bytes → Bytes) (config : Config) (w : Whitelist)
    (before after : List (Move Value)) (now : ℕ) (can_spawn : Bool) (dm : DmEvent) (line : Text)
    (peer : ValidatedPeer) (h : PeerHandle) (t : Slot)
    → (steps strip config before (boot w)).is_over ≡ false
    → dm.text ≡ some line
    → is_pubkey (sender dm) ≡ true
    → get (steps strip config before (boot w)).daemon.whitelist (sender dm) ≡ some peer
    → find_handle (sender dm) (steps strip config before (boot w)).daemon.peers ≡ some h
    → (steps strip config before (boot w)).slots h.session ≡ some t
    → t.phase ≡ ending
    → length t.inbox < config.limits.inbound_channel_depth
    → ((step strip config
          (stream now can_spawn (inbound Value dm))
          (steps strip config before (boot w))).daemon.effects
        ≡ delivered (sender dm) h.session line
          ∷ (steps strip config before (boot w)).daemon.effects)
      × ((t' : Slot) × ((steps strip config after (
                step strip config
                  (stream now can_spawn (inbound Value dm))
                  (steps strip config before (boot w)))).slots
              h.session
            ≡ some t')
          × (t'.session.typed ≡ t.session.typed))
unfolding step
step-stream-lost {Value} strip config w before after now can_spawn dm line peer h t going said valid
      listed found here closing room =
    let s = steps strip config before (boot w) in
    let m : Move Value = stream now can_spawn (inbound Value dm) in
    let a = steps-Sound strip config before (boot w) (boot-Sound strip config w) in
    let handled =
      ending-delivered Value config now can_spawn s dm line peer h t said valid listed found here
        closing room in
    let P = Stopped none t.session.typed in
    let stable = Stopped-IsStable strip config none t.session.typed in
    let over : Over strip config P stable h.session s = (
      (t, here, subst (StoppedIn none t.session.typed t) (sym closing) (inl refl)),
      used_number strip config s a h.session t here,
    ) in
    let (t', there, stopped) =
      (steps-Over strip config P stable h.session after (step strip config m s)
        (step-Sound strip config m s a) (step-Over strip config P stable h.session m s a over)).0 in
    let same : t'.session.typed ≡ t.session.typed =
      elim (Stopped-AtMost none t.session.typed t' t'.phase stopped) [
        | inl same ↦ same
        | inr (l, waited, more) ↦ absurd (cc waited)
      ] in
    (simp going handled.0, (t', there, same))

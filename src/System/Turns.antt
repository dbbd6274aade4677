-- ===== src/System/Turns.antt =====
-- What a session types into the shell when it is scheduled: the line that it took from its channel.
use mathlib.Core.List.{append_assoc}
use loraterm.Common.{
  >>=-eq-ok, ℕ, ◌≡◌, ◌⊎◌, refl, sym, ap, subst, ◌∙◌, Bool, true, false, inl, inr, List, [], ◌∷◌,
  ◌++◌, Option, none, some, Run, ok, panicked, diverged, ◌>>=◌, Bool-cases, ltb, ◌-◌,
}
use loraterm.Text.{Text, Bytes, chars}
use loraterm.Chunker.{push, maybe_flush, flush_force}
use loraterm.Peer.{
  Session, Round, Step, encode_pty_input, on_output, on_line, on_silence, on_tick, on_stop, round,
  farewell, idle_secs,
}
use loraterm.Config.File.{Config}
use loraterm.System.Fed.{in_order, payloads, Waiting, IsFed}
use loraterm.System.{
  Slot, Phase, running, sending, ending, gone, polled, takes_line, begin_round, on_end, on_round,
  turn, leave,
}

-- A round that goes on took a line and typed it, or took none and typed nothing; one at which the loop
-- ends types nothing.
abbrev pub Typing : Round → Session → Run Step → Type 0
Typing r s (ok (next, none)) =
    ((line : Text) × (takes_line r ≡ true)
      × (r.line ≡ some (some line))
      × (next.typed ≡ encode_pty_input line ∷ s.typed))
    ⊎ ((next.typed ≡ s.typed) × ((takes_line r ≡ false) ⊎ (r.line ≡ none)))
Typing r s (ok (next, some reason)) = next.typed ≡ s.typed
Typing r s panicked = Unit
Typing r s diverged = Unit

bind-Typing :
    {A : Type 0} (r : Round) (s : Session) (x : Run A) (f : A → Step)
    → ((a : A) → Typing r s (ok (f a)))
    → Typing r s (x >>= λ a. ok (f a))
bind-Typing r s (ok a) f h = h a
bind-Typing r s panicked f h = tt
bind-Typing r s diverged f h = tt

module _ (strip : Bytes → Bytes) (idle : ℕ) (r : Round) (s : Session) where
  on_output-Typing :
      (output : Option (Option Bytes))
      → r.line ≡ none
      → Typing r s (on_output strip idle r s output)
  unfolding on_output
  on_output-Typing none e = inr (refl, inr e)
  on_output-Typing (some none) e = refl
  on_output-Typing (some (some bytes)) e =
      bind-Typing r s (push strip s.chunker r.instant bytes) _ (λ a. inr (refl, inr e))

  on_line-Typing :
      (line : Option (Option Text))
      → takes_line r ≡ true
      → r.line ≡ line
      → Typing r s (on_line strip idle r s line)
  unfolding on_line
  on_line-Typing none taken e = on_output-Typing r.output e
  on_line-Typing (some none) taken e = refl
  on_line-Typing (some (some line)) taken e = elim (Bool-cases r.takes_input) [
    | inl took ↦ simp took (inl (line, taken, e, refl))
    | inr refused ↦ simp refused refl
  ]

  on_silence-Typing :
      (b : Bool)
      → r.stop ≡ none
      → r.tick ≡ false
      → r.silence ≡ b
      → Typing r s (on_silence strip idle r s b)
  unfolding on_silence takes_line
  on_silence-Typing true e e' e'' =
      bind-Typing r s (maybe_flush strip s.chunker r.instant) _
        (λ a. inr (refl, inl (rw (e, e', e'') refl)))
  on_silence-Typing false e e' e'' = on_line-Typing r.line (rw (e, e', e'') refl) refl

  on_tick-Typing : (b : Bool) → r.stop ≡ none → r.tick ≡ b → Typing r s (on_tick strip idle r s b)
  unfolding on_tick takes_line
  on_tick-Typing true e e' = elim (Bool-cases (ltb idle (r.now - s.last_activity))) [
    | inl over ↦ simp over refl
    | inr early ↦ simp early (inr (refl, inl (rw (e, e') refl)))
  ]
  on_tick-Typing false e e' = on_silence-Typing r.silence e e' refl

  on_stop-Typing :
      (stop : Option (Option Text)) → r.stop ≡ stop → Typing r s (on_stop strip idle r s stop)
  unfolding on_stop
  on_stop-Typing none e = on_tick-Typing r.tick e refl
  on_stop-Typing (some none) e = refl
  on_stop-Typing (some (some reason)) e = refl

  pub round-Typing : Typing r s (round strip idle r s)
  unfolding round
  round-Typing = on_stop-Typing r.stop refl

-- A round that does not get to a line types nothing.
abbrev Quiet : Session → Run Step → Type 0
Quiet s (ok (next, more)) = next.typed ≡ s.typed
Quiet s panicked = Unit
Quiet s diverged = Unit

lineless-Quiet :
    (r : Round) (s : Session) (x : Run Step)
    → (takes_line r ≡ false) ⊎ (r.line ≡ none)
    → Typing r s x
    → Quiet s x
lineless-Quiet r s (ok (next, none)) (inl idle) (inl (line, taken, found, typed)) =
    absurd (cc (taken, idle))
lineless-Quiet r s (ok (next, none)) (inr empty) (inl (line, taken, found, typed)) =
    absurd (cc (found, empty))
lineless-Quiet r s (ok (next, none)) h (inr (same, idle)) = same
lineless-Quiet r s (ok (next, some reason)) h same = same
lineless-Quiet r s panicked h t = tt
lineless-Quiet r s diverged h t = tt

pub farewell_typed :
    (strip : Bytes → Bytes) (idle : ℕ) (s : Session) (reason : Text) {end : Session}
    → farewell strip idle s reason ≡ ok end
    → end.typed ≡ s.typed
unfolding farewell
farewell_typed strip idle s reason e =
    let ((c, chunks), flushed, e') = >>=-eq-ok (flush_force strip s.chunker) _ e in
    sym (ap (λ x. x.typed) (ok_inj e'))
  where
    ok_inj : {a b : Session} → Path (Run Session) (ok a) (ok b) → a ≡ b
    ok_inj e = cc e

module _ (strip : Bytes → Bytes) (config : Config) (s : Slot) (lines : List Text) where
  -- The loop has ended: nothing more is typed.
  ended-IsFed :
      (s' : Slot)
      → ((more : List Bytes) → Waiting s'.inbox s'.phase more)
      → s'.session.typed ≡ s.session.typed
      → IsFed s lines
      → IsFed s' lines
  ended-IsFed s' idle same f = record {
    more = f.more;
    split = f.split ∙ ap (λ t. in_order t ++ f.more) (sym same);
    waiting = idle f.more;
  }

  on_end-IsFed :
      (s' : Slot) (next : Session) (reason : Text) (x : Run Session)
      → farewell strip (idle_secs s.peer config.limits) next reason ≡ x
      → next.typed ≡ s.session.typed
      → s'.session.typed ≡ s.session.typed
      → IsFed s lines
      → IsFed (on_end s' x) lines
  unfolding on_end
  on_end-IsFed s' next reason (ok end) e same kept f =
      ended-IsFed (on_end s' (ok end)) (λ more. tt)
        (farewell_typed strip (idle_secs s.peer config.limits) next reason e ∙ same) f
  on_end-IsFed s' next reason panicked e same kept f =
      ended-IsFed (on_end s' panicked) (λ more. tt) kept f
  on_end-IsFed s' next reason diverged e same kept f =
      ended-IsFed (on_end s' diverged) (λ more. tt) kept f

  on_round-IsFed :
      (x : Run Step) → Quiet s.session x → IsFed s lines → IsFed (on_round strip config s x) lines
  unfolding on_round
  on_round-IsFed (ok (next, none)) same f = record {
    more = f.more;
    split = f.split ∙ ap (λ t. in_order t ++ f.more) (sym same);
    waiting = f.waiting;
  }
  on_round-IsFed (ok (next, some reason)) same f =
      on_end-IsFed s next reason (farewell strip (idle_secs s.peer config.limits) next reason) refl
        same refl f
  on_round-IsFed panicked same f =
      ended-IsFed (on_round strip config s panicked) (λ more. tt) refl f
  on_round-IsFed diverged same f =
      ended-IsFed (on_round strip config s diverged) (λ more. tt) refl f

  lineless-IsFed :
      (r : Round)
      → (takes_line (polled s r) ≡ false) ⊎ ((polled s r).line ≡ none)
      → IsFed s lines
      → IsFed (begin_round strip config r s []) lines
  unfolding begin_round
  lineless-IsFed r idle f =
      let x = round strip (idle_secs s.peer config.limits) (polled s r) s.session in
      on_round-IsFed x
        (lineless-Quiet (polled s r) s.session x idle
          (round-Typing strip (idle_secs s.peer config.limits) (polled s r) s.session))
        f

  -- A line that is taken is the first that waits.
  begin_round-IsFed :
      (r : Round) (inbox : List Text)
      → s.phase ≡ running
      → s.inbox ≡ inbox
      → IsFed s lines
      → IsFed (begin_round strip config r s inbox) lines
  unfolding begin_round
  begin_round-IsFed r [] here e f = lineless-IsFed r (inr (rw e refl)) f
  begin_round-IsFed r (line ∷ rest) here e f = record {
    more = f.more;
    split = f.split;
    waiting = subst (λ ph. Waiting s.inbox ph f.more) here f.waiting ∙ ap payloads e;
  }

  -- The line that was waited with is typed, or the loop ends.
  sending-IsFed :
      (r : Round) (line : Text)
      → s.phase ≡ sending line
      → IsFed s lines
      → IsFed (turn strip config r s (sending line)) lines
  unfolding turn on_round on_line
  sending-IsFed r line here f = elim (Bool-cases r.takes_input) [
    | inl took ↦
        let waited : f.more ≡ encode_pty_input line ∷ payloads s.inbox =
          subst (λ ph. Waiting s.inbox ph f.more) here f.waiting in
        simp took (record {
          more = payloads s.inbox;
          split =
              f.split
              ∙ ap (λ m. in_order s.session.typed ++ m) waited
              ∙ sym (
                  append_assoc (in_order s.session.typed) (encode_pty_input line ∷ [])
                    (payloads s.inbox));
          waiting = refl;
        })
    | inr refused ↦
        let idle = idle_secs s.peer config.limits in
        let next : Session = record s.session { last_activity = s.session.last_activity } in
        simp refused (
          on_end-IsFed (record s { phase = running }) next (chars "pty_closed")
            (farewell strip idle next (chars "pty_closed")) refl refl refl f)
  ]

  pub turn-IsFed :
      (r : Round) (phase : Phase)
      → s.phase ≡ phase
      → IsFed s lines
      → IsFed (turn strip config r s phase) lines
  unfolding turn
  turn-IsFed r running here f = elim (Bool-cases (takes_line (polled s r))) [
    | inl takes ↦ simp takes (begin_round-IsFed r s.inbox here refl f)
    | inr idle ↦ simp idle (lineless-IsFed r (inl idle) f)
  ]
  turn-IsFed r (sending line) here f = sending-IsFed r line here f
  turn-IsFed r ending here f = f
  turn-IsFed r gone here f = f

  pub leave-IsFed : (phase : Phase) → IsFed s lines → IsFed (leave s phase) lines
  unfolding leave
  leave-IsFed running f = f
  leave-IsFed (sending line) f = f
  leave-IsFed ending f = ended-IsFed (leave s ending) (λ more. tt) refl f
  leave-IsFed gone f = f

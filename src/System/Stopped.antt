-- ===== src/System/Stopped.antt =====
-- A session whose loop is over, or that was told to end.
use loraterm.Common.{
  ap, Bool-cases, [], ◌∷◌, ◌++◌, ℕ, ◌≡◌, ◌⊎◌, refl, sym, subst, ◌∙◌, inl, inr, List, Option, none,
  some, Run, ok, panicked, diverged,
}
use loraterm.Text.{Text, Bytes, chars}
use loraterm.Config.File.{Config}
use loraterm.Peer.{Round, Session, round, on_line, on_stop, encode_pty_input, farewell, idle_secs}
use loraterm.System.{
  Slot, Phase, running, sending, ending, gone, turn, begin_round, takes_line, leave, on_end,
  on_round,
}
use loraterm.System.Turns.{farewell_typed}
use loraterm.System.Over.{IsStable}

-- The loop is over.
abbrev pub Done : Phase → Type 0
Done running = ⊥
Done (sending line) = ⊥
Done ending = Unit
Done gone = Unit

abbrev pub Told : Slot → Type 0
Told t = (reason : Text) × (t.told ≡ some reason)

-- The line with which a session waits.
abbrev pub pending : Phase → Option Text
pending running = none
pending (sending line) = some line
pending ending = none
pending gone = none

-- Nothing more was typed, or the payload of the line that was waited with.
abbrev pub AtMost : Option Text → List Bytes → List Bytes → Type 0
AtMost waited typed after =
    (after ≡ typed)
    ⊎ ((line : Text) × (waited ≡ some line) × (after ≡ encode_pty_input line ∷ typed))

-- The loop is over or was told to be, and of what it types there is only the line that it waits with.
abbrev pub StoppedIn : Option Text → List Bytes → Slot → Phase → Type 0
StoppedIn waited typed t running = Told t × AtMost waited typed t.session.typed
StoppedIn waited typed t (sending line) = Told t × (waited ≡ some line) × (t.session.typed ≡ typed)
StoppedIn waited typed t ending = AtMost waited typed t.session.typed
StoppedIn waited typed t gone = AtMost waited typed t.session.typed

abbrev pub Stopped : Option Text → List Bytes → Slot → Type 0
Stopped waited typed t = StoppedIn waited typed t t.phase

pub Stopped-AtMost :
    (waited : Option Text) (typed : List Bytes) (t : Slot) (phase : Phase)
    → StoppedIn waited typed t phase
    → AtMost waited typed t.session.typed
Stopped-AtMost waited typed t running p = p.1
Stopped-AtMost waited typed t (sending line) (told, waits, same) = inl same
Stopped-AtMost waited typed t ending p = p
Stopped-AtMost waited typed t gone p = p

Done-Stopped :
    (waited : Option Text) (typed : List Bytes) (t : Slot) (phase : Phase)
    → Done phase
    → AtMost waited typed t.session.typed
    → StoppedIn waited typed t phase
Done-Stopped waited typed t running d a = absurd d
Done-Stopped waited typed t (sending line) d a = absurd d
Done-Stopped waited typed t ending d a = a
Done-Stopped waited typed t gone d a = a

-- A session is stopped from the moment at which it is told.
pub Told-Stopped :
    (typed : List Bytes) (t : Slot) (phase : Phase)
    → Told t
    → t.session.typed ≡ typed
    → StoppedIn (pending phase) typed t phase
Told-Stopped typed t running told same = (told, inl same)
Told-Stopped typed t (sending line) told same = (told, refl, same)
Told-Stopped typed t ending told same = inl same
Told-Stopped typed t gone told same = inl same

carry :
    (waited : Option Text) (typed : List Bytes) (t t' : Slot) (phase : Phase)
    → (Told t → Told t')
    → t'.session.typed ≡ t.session.typed
    → StoppedIn waited typed t phase
    → StoppedIn waited typed t' phase
carry waited typed t t' running keeps same (told, a) =
    (keeps told, subst (AtMost waited typed) (sym same) a)
carry waited typed t t' (sending line) keeps same (told, waits, e) = (keeps told, waits, same ∙ e)
carry waited typed t t' ending keeps same a = subst (AtMost waited typed) (sym same) a
carry waited typed t t' gone keeps same a = subst (AtMost waited typed) (sym same) a

pub still_told :
    (o : Option Text) (reason : Text)
    → (first : Text) × Path
        (Option Text)
        (elim o [ some first ↦ some first | none ↦ some reason ])
        (some first)
still_told none reason = (reason, refl)
still_told (some first) reason = (first, refl)

module _ (strip : Bytes → Bytes) (config : Config) where
  on_end-Done :
      (t : Slot) (idle : ℕ) (s : Session) (reason : Text) (x : Run Session)
      → farewell strip idle s reason ≡ x
      → s.typed ≡ t.session.typed
      → Done (on_end t x).phase × ((on_end t x).session.typed ≡ t.session.typed)
  unfolding on_end
  on_end-Done t idle s reason (ok end) e same = (tt, farewell_typed strip idle s reason e ∙ same)
  on_end-Done t idle s reason panicked e same = (tt, refl)
  on_end-Done t idle s reason diverged e same = (tt, refl)

  -- A session that was told ends its loop with its next round, and types nothing in it.
  pub turn-told :
      (r : Round) (t : Slot) (reason : Text)
      → t.told ≡ some reason
      → Done (turn strip config r t running).phase
        × ((turn strip config r t running).session.typed ≡ t.session.typed)
  unfolding turn begin_round takes_line on_round round on_stop
  turn-told r t reason told =
      let idle = idle_secs t.peer config.limits in
      simp told
        (on_end-Done t idle t.session reason (farewell strip idle t.session reason) refl refl)

  -- A session that waits with a line types it and goes on, or its loop ends.
  turn-sending :
      (r : Round) (t : Slot) (line : Text)
      → (((turn strip config r t (sending line)).phase ≡ running)
          × ((turn strip config r t (sending line)).told ≡ t.told)
          × ((turn strip config r t (sending line)).session.typed
              ≡ encode_pty_input line ∷ t.session.typed))
        ⊎ (Done (turn strip config r t (sending line)).phase
            × ((turn strip config r t (sending line)).session.typed ≡ t.session.typed))
  unfolding turn on_round on_line
  turn-sending r t line = elim (Bool-cases r.takes_input) [
    | inl took ↦ simp took (inl (refl, refl, refl))
    | inr refused ↦
        let idle = idle_secs t.peer config.limits in
        let next : Session = record t.session { last_activity = t.session.last_activity } in
        simp refused (
          inr (
            on_end-Done (record t { phase = running }) idle next (chars "pty_closed")
              (farewell strip idle next (chars "pty_closed")) refl refl))
  ]

  turn-Stopped :
      (waited : Option Text) (typed : List Bytes) (r : Round) (t : Slot) (phase : Phase)
      → t.phase ≡ phase
      → Stopped waited typed t
      → Stopped waited typed (turn strip config r t phase)
  unfolding turn
  turn-Stopped waited typed r t running here p =
      let ((reason, told), a) = subst (StoppedIn waited typed t) here p in
      let (done, kept) = turn-told r t reason told in
      let t' = turn strip config r t running in
      Done-Stopped waited typed t' t'.phase done (subst (AtMost waited typed) (sym kept) a)
  turn-Stopped waited typed r t (sending line) here p =
      let ((reason, told), waits, same) = subst (StoppedIn waited typed t) here p in
      let t' = turn strip config r t (sending line) in
      elim (turn-sending r t line) [
        | inl (on, told', typed') ↦ subst (StoppedIn waited typed t') (sym on) (
          (reason, told' ∙ told),
          inr (line, waits, typed' ∙ ap (◌∷◌ (encode_pty_input line)) same),
        )
        | inr (done, kept) ↦ Done-Stopped waited typed t' t'.phase done (inl (kept ∙ same))
      ]
  turn-Stopped waited typed r t ending here p = p
  turn-Stopped waited typed r t gone here p = p

  leave-Stopped :
      (waited : Option Text) (typed : List Bytes) (t : Slot) (phase : Phase)
      → t.phase ≡ phase
      → Stopped waited typed t
      → Stopped waited typed (leave t phase)
  unfolding leave
  leave-Stopped waited typed t running here p = p
  leave-Stopped waited typed t (sending line) here p = p
  leave-Stopped waited typed t ending here p = subst (StoppedIn waited typed t) here p
  leave-Stopped waited typed t gone here p = p

  -- Whatever happens to a stopped session, its shell is typed no more than that.
  pub Stopped-IsStable :
      (waited : Option Text) (typed : List Bytes) → IsStable strip config (Stopped waited typed)
  Stopped-IsStable waited typed = record {
    kept = record {
      queued = λ t line p.
          carry waited typed t (record t { inbox = t.inbox ++ line ∷ [] }) t.phase (λ told. told)
            refl p;
      shut = λ t reason p.
          carry waited typed t
            (record t { told = elim t.told [ some first ↦ some first | none ↦ some reason ] })
            t.phase (λ told. still_told t.told reason) refl p;
    };
    active = λ t now p.
        carry waited typed t (record t { session = record t.session { last_activity = now } })
          t.phase (λ told. told) refl p;
    turns = λ r t p. turn-Stopped waited typed r t t.phase refl p;
    leaves = λ t p. leave-Stopped waited typed t t.phase refl p;
  }

  turn_at-Done :
      (r : Round) (t : Slot) (phase : Phase)
      → Done t.phase
      → t.phase ≡ phase
      → Done (turn strip config r t phase).phase
  unfolding turn
  turn_at-Done r t running done here = absurd (subst Done here done)
  turn_at-Done r t (sending line) done here = absurd (subst Done here done)
  turn_at-Done r t ending done here = done
  turn_at-Done r t gone done here = done

  -- A stopped session is done with what it is scheduled for next, or runs.
  turn_at-phase :
      (waited : Option Text) (typed : List Bytes) (r : Round) (t : Slot) (phase : Phase)
      → t.phase ≡ phase
      → StoppedIn waited typed t phase
      → Done (turn strip config r t phase).phase ⊎ ((turn strip config r t phase).phase ≡ running)
  unfolding turn
  turn_at-phase waited typed r t running here ((reason, told), a) =
      inl (turn-told r t reason told).0
  turn_at-phase waited typed r t (sending line) here p = elim (turn-sending r t line) [
    | inl (on, told, same) ↦ inr on
    | inr (done, same) ↦ inl done
  ]
  turn_at-phase waited typed r t ending here p = inl (subst Done (sym here) tt)
  turn_at-phase waited typed r t gone here p = inl (subst Done (sym here) tt)

  -- The loop of a stopped session is over when it was scheduled twice.
  pub turn-Done :
      (waited : Option Text) (typed : List Bytes) (r r' : Round) (t : Slot)
      → Stopped waited typed t
      → Done
          (turn strip config r'
            (turn strip config r t t.phase)
            (turn strip config r t t.phase).phase).phase
  turn-Done waited typed r r' t p =
      let t' = turn strip config r t t.phase in
      let p' : Stopped waited typed t' = turn-Stopped waited typed r t t.phase refl p in
      elim (turn_at-phase waited typed r t t.phase refl p) [
        | inl done ↦ turn_at-Done r' t' t'.phase done refl
        | inr on ↦
            let ((reason, told), a) = subst (StoppedIn waited typed t') on p' in
            subst (λ ph. Done (turn strip config r' t' ph).phase) (sym on)
              (turn-told r' t' reason told).0
      ]

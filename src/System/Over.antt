-- ===== src/System/Over.antt =====
-- What stays true of a session along a schedule.
use loraterm.Common.{
  ℕ, ◌≡◌, ◌<◌, refl, sym, ap, subst, ◌∙◌, false, ◌==◌, inl, inr, List, [], ◌∷◌, ◌++◌, Option, none,
  some, arith, Bool-cases, All,
}
use loraterm.Text.{Text, Bytes}
use loraterm.Config.File.{Config}
use loraterm.Peer.{Round}
use loraterm.Daemon.{
  Effect, spawned, delivered, shut_down, Daemon, handle_sse_event, reload_whitelist, finish,
}
use loraterm.System.{
  Slot, Slots, modify, apply, apply_all, proceed, turn, leave, touch, touched, System, Move, stream,
  reloaded, stopped, turned, left_behind, step, steps, env_of,
}
use loraterm.System.Fed.{modify_lem}
use loraterm.System.Grown.{IsGrown, IsGrown-new, IsGrown-idle, Numbered}
use loraterm.System.Events.{handle_sse_event-IsGrown}
use loraterm.System.Ends.{reload_whitelist-IsGrown, finish-IsGrown}
use loraterm.System.Isolation.{Sound, step-Sound}

-- A property of a session that the daemon does not undo by what it does to the channels.
pub record IsKept (P : Slot → Type 0) : Type 0 where
  pub queued : (t : Slot) (line : Text) → P t → P (record t { inbox = t.inbox ++ line ∷ [] })
  pub shut :
      (t : Slot) (reason : Text)
      → P t
      → P (record t { told = elim t.told [ some first ↦ some first | none ↦ some reason ] })

-- Session `n` is there and has the property.
abbrev pub Has : (Slot → Type 0) → ℕ → Slots → Type 0
Has P n slots = (t : Slot) × (slots n ≡ some t) × P t

module _ (P : Slot → Type 0) (n : ℕ) where
  pub modify-Has :
      (m : ℕ) (f : Slot → Slot) (slots : Slots)
      → ((t : Slot) → P t → P (f t))
      → Has P n slots
      → Has P n (modify m f slots)
  modify-Has m f slots keeps (t, here, p) = elim (modify_lem m f slots n) [
    | inr (other, e) ↦ (t, e ∙ here, p)
    | inl (at_m, e) ↦
        let here' : slots m ≡ some t = ap slots (sym at_m) ∙ here in
        (f t, e ∙ rw here' refl, keeps t p)
  ]

  module _ (kept : IsKept P) (config : Config) where
    pub apply-Has :
        (now next : ℕ) (e : Effect) (slots : Slots)
        → n < next
        → Numbered next e
        → Has P n slots
        → Has P n (apply config now e slots)
    apply-Has now next (spawned key m peer) slots known fresh (t, here, p) =
        let other : (n == m) ≡ false = ground (arith, known, fresh) in (t, rw other here, p)
    apply-Has now next (delivered key m line) slots known fresh c =
        modify-Has m (λ t. record t { inbox = t.inbox ++ line ∷ [] }) slots
          (λ t p. kept.queued t line p) c
    apply-Has now next (shut_down key m reason) slots known fresh c =
        modify-Has m
          (λ t. record t { told = elim t.told [ some first ↦ some first | none ↦ some reason ] })
          slots (λ t p. kept.shut t reason p) c

    pub apply_all-Has :
        (now next : ℕ) (es : List Effect) (slots : Slots)
        → n < next
        → All (Numbered next) es
        → Has P n slots
        → Has P n (apply_all config now es slots)
    apply_all-Has now next [] slots known a c = c
    apply_all-Has now next (e ∷ es) slots known a c =
        apply-Has now next e (apply_all config now es slots) known a.0
          (apply_all-Has now next es slots known a.1 c)

module _ (strip : Bytes → Bytes) (config : Config) where
  -- A property of a session that nothing undoes: not what the daemon does to its channels, and none
  -- of its own moves.
  pub record IsStable (P : Slot → Type 0) : Type 0 where
    pub kept : IsKept P
    pub active :
        (t : Slot) (now : ℕ)
        → P t
        → P (record t { session = record t.session { last_activity = now } })
    pub turns : (r : Round) (t : Slot) → P t → P (turn strip config r t t.phase)
    pub leaves : (t : Slot) → P t → P (leave t t.phase)

  module _ (P : Slot → Type 0) (stable : IsStable P) (n : ℕ) where
    -- The property holds of session `n`, which was started.
    abbrev pub Over : System → Type 0
    Over s = Has P n s.slots × (n < s.daemon.next_session)

    proceed-Over :
        (now : ℕ) (d : Daemon) (s : System)
        → n < s.daemon.next_session
        → IsGrown config now s.slots s.daemon d
        → Has P n s.slots
        → Over (proceed config now d s)
    proceed-Over now d s known g c = (
      subst (λ es. Has P n (apply_all config now es s.slots))
          (sym (IsGrown-new config now s.slots s.daemon d g))
          (apply_all-Has P n stable.kept config now s.daemon.next_session g.new s.slots known
            g.numbered c),
      omega (arith, known, g.later),
    )

    touch-Has :
        (now : ℕ) (o : Option ℕ) (slots : Slots) → Has P n slots → Has P n (touch now o slots)
    touch-Has now none slots c = c
    touch-Has now (some m) slots c =
        modify-Has P n m (λ t. record t { session = record t.session { last_activity = now } })
          slots (λ t p. stable.active t now p) c

    pub step-Over :
        {Value : Type 0} (m : Move Value) (s : System)
        → Sound strip config s
        → Over s
        → Over (step strip config m s)
    unfolding step
    step-Over (stream now can_spawn e) s a (c, known) =
        let env = env_of config now can_spawn s.slots in
        let d = handle_sse_event env e s.daemon in
        let (c', known') =
          proceed-Over now d s known
            (handle_sse_event-IsGrown config now s.slots s.daemon env e s.daemon
              (IsGrown-idle config now s.slots s.daemon a))
            c in
        let c'' = touch-Has now (touched e d) (proceed config now d s).slots c' in
        elim (Bool-cases s.is_over) [
          | inl over ↦ simp over (c, known)
          | inr going ↦ simp going (c'', known')
        ]
    step-Over (reloaded now r) s a (c, known) =
        let handled =
          proceed-Over now (reload_whitelist r s.daemon) s known
            (reload_whitelist-IsGrown config now s.slots s.daemon r s.daemon
              (IsGrown-idle config now s.slots s.daemon a))
            c in
        elim (Bool-cases s.is_over) [
          | inl over ↦ simp over (c, known)
          | inr going ↦ simp going handled
        ]
    step-Over (stopped now) s a (c, known) =
        let handled =
          proceed-Over now (finish s.daemon) s known
            (finish-IsGrown config now s.slots s.daemon s.daemon
              (IsGrown-idle config now s.slots s.daemon a))
            c in
        elim (Bool-cases s.is_over) [
          | inl over ↦ simp over (c, known)
          | inr going ↦ simp going handled
        ]
    step-Over (turned m r) s a (c, known) =
        (modify-Has P n m (λ t. turn strip config r t t.phase) s.slots (stable.turns r) c, known)
    step-Over (left_behind m) s a (c, known) =
        (modify-Has P n m (λ t. leave t t.phase) s.slots stable.leaves c, known)

    pub steps-Over :
        {Value : Type 0} (ms : List (Move Value)) (s : System)
        → Sound strip config s
        → Over s
        → Over (steps strip config ms s)
    unfolding steps
    steps-Over [] s a o = o
    steps-Over (m ∷ ms) s a o =
        steps-Over ms (step strip config m s) (step-Sound strip config m s a) (step-Over m s a o)

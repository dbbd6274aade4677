-- ===== src/System/Revoked.antt =====
-- A reload that takes a peer off the whitelist, and the shell of its session.
use mathlib.Core.List.{append_assoc}
use loraterm.Common.{
  ℕ, ◌≡◌, ◌<◌, refl, sym, ap, subst, ◌∙◌, true, false, inl, inr, List, [], ◌∷◌, ◌++◌, none, some,
  arith, Bool-cases, All, All-append_left, All-append_right,
}
use loraterm.Text.{Text, Bytes, chars, eq_text}
use loraterm.Text.Equality.{eq_text_iff}
use loraterm.Config.{ok, Whitelist, has, keys, diff_whitelist}
use loraterm.Config.Diff.{diff_whitelist-has}
use loraterm.Config.File.{Config}
use loraterm.Daemon.{
  PeerHandle, find_handle, Effect, shut_down, Daemon, reload_whitelist, revoke, revoke_one,
}
use loraterm.Daemon.Revoke.{told_first, find_handle-revoke_one, effects-revoke_one, effects-revoke}
use loraterm.Config.Keys.{has-nil, has-cons}
use loraterm.System.{
  Slot, Slots, Phase, apply, apply_all, new_effects, proceed, turn, System, Move, reloaded, step,
  steps, boot,
}
use loraterm.System.Fed.{modify_lem}
use loraterm.System.Grown.{Numbered, IsGrown-new, IsGrown-idle, new_effects-append}
use loraterm.System.Ends.{reload_whitelist-IsGrown}
use loraterm.System.Isolation.{Sound, step-Sound, steps-Sound}
use loraterm.System.Typed.{boot-Sound}
use loraterm.System.Lost.{used_number}
use loraterm.System.Over.{IsKept, Has, apply_all-Has, steps-Over}
use loraterm.Peer.{Round}
use loraterm.System.Stopped.{
  turn-Done, Done, still_told, pending, AtMost, StoppedIn, Stopped, Stopped-AtMost, Told-Stopped,
  Stopped-IsStable,
}

-- Of the effects that come on top, one is the end of this session.
pub record Shuts (k : Text) (n : ℕ) (old es : List Effect) : Type 0 where
  pub later : List Effect
  pub earlier : List Effect
  pub split : es ≡ (later ++ shut_down k n (chars "revoked") ∷ earlier) ++ old

revoke-Shuts :
    (k : Text) (h : PeerHandle) (ks : List Text) (d : Daemon)
    → has k ks ≡ true
    → find_handle k d.peers ≡ some h
    → Shuts k h.session d.effects (revoke ks d).effects
unfolding revoke
revoke-Shuts k h [] d listed found = absurd (cc (has-nil k))
revoke-Shuts k h (key ∷ ks) d listed found = elim (Bool-cases (eq_text key k)) [
  | inl same ↦
      let (new, e) = effects-revoke ks (revoke_one key d) in
      let shut = shut_down k h.session (chars "revoked") in
      record {
        later = new;
        earlier = [];
        split =
            e
            ∙ ap (◌++◌ new) (told_first k key h d same found)
            ∙ sym (append_assoc new (shut ∷ []) d.effects);
      }
  | inr differs ↦
      let (first, e) = effects-revoke_one key d in
      let more =
        revoke-Shuts k h ks (revoke_one key d)
          (ground (arith, has-cons k key ks, eq_text_iff key k, eq_text_iff k key))
          (find_handle-revoke_one k key d ∙ rw differs found) in
      let shut = shut_down k h.session (chars "revoked") in
      record {
        later = more.later;
        earlier = more.earlier ++ first;
        split =
            more.split
            ∙ ap (λ l. (more.later ++ shut ∷ more.earlier) ++ l) e
            ∙ sym (append_assoc (more.later ++ shut ∷ more.earlier) first d.effects)
            ∙ ap (λ l. l ++ d.effects) (append_assoc more.later (shut ∷ more.earlier) first);
      }
]

-- Its place in its life, and what its shell was typed.
abbrev There : Phase → List Bytes → Slot → Type 0
There phase typed t = (t.phase ≡ phase) × (t.session.typed ≡ typed)

There-IsKept : (phase : Phase) (typed : List Bytes) → IsKept (There phase typed)
There-IsKept phase typed = record { queued = λ t line p. p; shut = λ t reason p. p }

apply_all-append :
    (config : Config) (now : ℕ) (es fs : List Effect) (slots : Slots)
    → apply_all config now (es ++ fs) slots
      ≡ apply_all config now es (apply_all config now fs slots)
apply_all-append config now [] fs slots = refl
apply_all-append config now (e ∷ es) fs slots =
    ap (apply config now e) (apply_all-append config now es fs slots)

module _ (strip : Bytes → Bytes) (config : Config) (now : ℕ) where
  -- Behind effects among which is its end, a session is stopped.
  apply_all-Stopped :
      (phase : Phase) (typed : List Bytes) (n next : ℕ) (later earlier : List Effect)
      (k reason : Text) (slots : Slots)
      → n < next
      → All (Numbered next) (later ++ shut_down k n reason ∷ earlier)
      → Has (There phase typed) n slots
      → Has
          (Stopped (pending phase) typed)
          n
          (apply_all config now (later ++ shut_down k n reason ∷ earlier) slots)
  apply_all-Stopped phase typed n next later earlier k reason slots known numbered here =
      let shut = shut_down k n reason in
      let P = Stopped (pending phase) typed in
      let (t, found, (at_phase, same)) =
        apply_all-Has (There phase typed) n (There-IsKept phase typed) config now next earlier slots
          known (All-append_right (Numbered next) later (shut ∷ earlier) numbered).1 here in
      let before = apply_all config now earlier slots in
      let told : Has P n (apply config now shut before) =
        elim (modify_lem n
          (λ t. record t { told = elim t.told [ some first ↦ some first | none ↦ some reason ] })
          before n) [
            | inr (other, e) ↦ absurd (ground (arith, other))
            | inl (same_n, e) ↦ (
              record t { told = elim t.told [ some first ↦ some first | none ↦ some reason ] },
              e ∙ rw found refl,
              subst
                  (λ ph.
                    StoppedIn (pending ph) typed
                      (record t {
                        told = elim t.told [ some first ↦ some first | none ↦ some reason ];
                      })
                      t.phase)
                  at_phase
                  (Told-Stopped typed
                    (record t {
                      told = elim t.told [ some first ↦ some first | none ↦ some reason ];
                    })
                    t.phase (still_told t.told reason) same),
            )
          ] in
      subst (Has P n) (sym (apply_all-append config now later (shut ∷ earlier) slots)) (
        apply_all-Has P n (Stopped-IsStable strip config (pending phase) typed).kept config now next
          later (apply config now shut before) known
          (All-append_left (Numbered next) later (shut ∷ earlier) numbered) told)

  reload-Over :
      (s : System) (new : Whitelist) (k : Text) (h : PeerHandle) (t : Slot)
      → Sound strip config s
      → s.is_over ≡ false
      → has k (keys s.daemon.whitelist) ≡ true
      → has k (keys new) ≡ false
      → find_handle k s.daemon.peers ≡ some h
      → s.slots h.session ≡ some t
      → Has
          (Stopped (pending t.phase) t.session.typed)
          h.session
          (proceed config now (reload_whitelist (ok new) s.daemon) s).slots
  unfolding reload_whitelist
  reload-Over s new k h t a going listed dropped found here =
      let d = reload_whitelist (ok new) s.daemon in
      let removed = (diff_whitelist s.daemon.whitelist new).removed in
      let gone : has k removed ≡ true =
        ground (arith, (diff_whitelist-has s.daemon.whitelist new k).1, listed, dropped) in
      let shuts = revoke-Shuts k h removed (record s.daemon { whitelist = new }) gone found in
      let top = shuts.later ++ shut_down k h.session (chars "revoked") ∷ shuts.earlier in
      let g =
        reload_whitelist-IsGrown config now s.slots s.daemon (ok new) s.daemon
          (IsGrown-idle config now s.slots s.daemon a) in
      let e : new_effects s.daemon.effects d.effects ≡ top =
        ap (new_effects s.daemon.effects) shuts.split ∙ new_effects-append top s.daemon.effects in
      let numbered : All (Numbered s.daemon.next_session) top =
        subst (All (Numbered s.daemon.next_session))
          (sym (IsGrown-new config now s.slots s.daemon d g) ∙ e) g.numbered in
      subst
        (λ es.
          Has (Stopped (pending t.phase) t.session.typed) h.session
            (apply_all config now es s.slots))
        (sym e)
        (apply_all-Stopped t.phase t.session.typed h.session s.daemon.next_session shuts.later
          shuts.earlier k (chars "revoked") s.slots (used_number strip config s a h.session t here)
          numbered (t, here, (refl, refl)))

-- When a reload takes a peer off the whitelist, then whatever happens afterwards, the session that
-- the registry had for the peer hands nothing more to the channel of its terminal, not even the lines
-- that wait in its own channel, but for one payload: that of the line with which it waits there at
-- the reload, if it does. When it was scheduled twice more, whatever it meets, its loop is over.
pub step-reloaded-revoked :
    {Value : Type 0} (strip : Bytes → Bytes) (config : Config) (w : Whitelist)
    (before after : List (Move Value)) (now : ℕ) (new : Whitelist) (k : Text) (h : PeerHandle)
    (t : Slot)
    → (steps strip config before (boot w)).is_over ≡ false
    → has k (keys (steps strip config before (boot w)).daemon.whitelist) ≡ true
    → has k (keys new) ≡ false
    → find_handle k (steps strip config before (boot w)).daemon.peers ≡ some h
    → (steps strip config before (boot w)).slots h.session ≡ some t
    → (t' : Slot) × ((steps strip config after (
            step strip config {Value = Value}
              (reloaded now (ok new))
              (steps strip config before (boot w)))).slots
          h.session
        ≡ some t')
      × AtMost (pending t.phase) t.session.typed t'.session.typed
      × ((r r' : Round)
          → Done
              (turn strip config r'
                (turn strip config r t' t'.phase)
                (turn strip config r t' t'.phase).phase).phase)
unfolding step
step-reloaded-revoked {Value} strip config w before after now new k h t going listed dropped found
      here =
    let s = steps strip config before (boot w) in
    let m : Move Value = reloaded now (ok new) in
    let a = steps-Sound strip config before (boot w) (boot-Sound strip config w) in
    let P = Stopped (pending t.phase) t.session.typed in
    let stable = Stopped-IsStable strip config (pending t.phase) t.session.typed in
    let revoked = reload-Over strip config now s new k h t a going listed dropped found here in
    let a' = step-Sound strip config m s a in
    let slots : Has P h.session (step strip config m s).slots = simp going revoked in
    let known : h.session < (step strip config m s).daemon.next_session =
      used_number strip config (step strip config m s) a' h.session slots.0 slots.1 in
    let (t', there, stopped) =
      (steps-Over strip config P stable h.session after (step strip config m s) a'
        (slots, known)).0 in
    (
      t',
      there,
      Stopped-AtMost (pending t.phase) t.session.typed t' t'.phase stopped,
      λ r r'. turn-Done strip config (pending t.phase) t.session.typed r r' t' stopped,
    )

-- ===== src/System/Grown.antt =====
-- The new effects of a handler of the daemon, and the soundness of the sessions behind them.
use loraterm.Common.{
  ℕ, ◌-◌, ◌≤◌, ◌≡◌, refl, sym, ap, subst, ◌∙◌, inl, inr, List, [], ◌∷◌, ◌++◌, Option, some, All,
  Bool-cases, arith, length, length-append, take,
}
use loraterm.Text.{Text, eq_text}
use loraterm.Text.Equality.{eq_text_iff}
use loraterm.Config.File.{Config}
use loraterm.Daemon.{
  PeerHandle, Registry, find_handle, Effect, spawned, delivered, shut_down, Daemon,
}
use loraterm.System.{Slots, apply_all, new_effects}
use loraterm.System.Fed.{Owns, IsSound}
use loraterm.System.Effects.{IsSound-peers}

pub find_handle-All :
    (P : Text × PeerHandle → Type 0) (key : Text) (r : Registry) {h : PeerHandle}
    → All P r
    → find_handle key r ≡ some h
    → P (key, h)
unfolding find_handle
find_handle-All P key [] a e = absurd cc
find_handle-All P key ((j, h) ∷ r) a e = elim (Bool-cases (eq_text j key)) [
  | inl same ↦
      let at_h = (rw same at e) in
      subst P (ap (λ k. (k, h)) ((eq_text_iff j key).0 same) ∙ ap (λ k. (key, k)) (some_inj at_h))
        a.0
  | inr differs ↦ find_handle-All P key r a.1 (rw differs at e)
]
  where
    some_inj : {h h' : PeerHandle} → Path (Option PeerHandle) (some h) (some h') → h ≡ h'
    some_inj e = cc e

-- A session that is started has a number that was not used before.
abbrev pub Numbered : ℕ → Effect → Type 0
Numbered next (spawned key n peer) = next ≤ n
Numbered next (delivered key n line) = Unit
Numbered next (shut_down key n reason) = Unit

-- The registry, the next number, the sessions with the new effects applied, and the effects.
pub record IsGrown (config : Config) (now : ℕ) (slots : Slots) (d d' : Daemon) : Type 0 where
  pub new : List Effect
  pub grown : d'.effects ≡ new ++ d.effects
  pub later : d.next_session ≤ d'.next_session
  pub numbered : All (Numbered d.next_session) new
  pub sound : IsSound d'.peers d'.next_session (apply_all config now new slots) d'.effects

module _ (config : Config) (now : ℕ) (slots : Slots) (start : Daemon) where
  -- Other bindings, with no new effect.
  abbrev pub rebind :
      (d : Daemon) (peers : Registry) (g : IsGrown config now slots start d)
      → All (λ b. Owns (apply_all config now g.new slots) b.0 b.1.session) peers
      → IsGrown config now slots start (record d { peers = peers })
  rebind d peers g owned = record {
    new = g.new;
    grown = g.grown;
    later = g.later;
    numbered = g.numbered;
    sound = IsSound-peers d.peers peers owned g.sound;
  }

take-append : {A : Type 0} (xs ys : List A) → take (length xs) (xs ++ ys) ≡ xs
take-append [] ys = refl
take-append (x ∷ xs) ys = ap (◌∷◌ x) (take-append xs ys)

pub new_effects-append : (new old : List Effect) → new_effects old (new ++ old) ≡ new
new_effects-append new old =
    let e : length (new ++ old) - length old ≡ length new = omega (arith, length-append new old) in
    ap (λ n. take n (new ++ old)) e ∙ take-append new old

-- The new effects are those that were applied.
pub IsGrown-new :
    (config : Config) (now : ℕ) (slots : Slots) (d d' : Daemon) (g : IsGrown config now slots d d')
    → new_effects d.effects d'.effects ≡ g.new
IsGrown-new config now slots d d' g =
    ap (new_effects d.effects) g.grown ∙ new_effects-append g.new d.effects

pub IsGrown-IsSound :
    (config : Config) (now : ℕ) (slots : Slots) (d d' : Daemon)
    → IsGrown config now slots d d'
    → IsSound d'.peers d'.next_session
        (apply_all config now (new_effects d.effects d'.effects) slots)
        d'.effects
IsGrown-IsSound config now slots d d' g =
    subst (λ es. IsSound d'.peers d'.next_session (apply_all config now es slots) d'.effects)
      (sym (IsGrown-new config now slots d d' g)) g.sound

pub IsGrown-idle :
    (config : Config) (now : ℕ) (slots : Slots) (d : Daemon)
    → IsSound d.peers d.next_session slots d.effects
    → IsGrown config now slots d d
IsGrown-idle config now slots d s = record {
  new = [];
  grown = refl;
  later = omega arith;
  numbered = tt;
  sound = s;
}

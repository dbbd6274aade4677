-- ===== src/Daemon/Revoke.antt =====
-- The reload of the whitelist: whose sessions end, and that a removed peer is served no more.
use mathlib.Core.List.{append_assoc}
use loraterm.Common.{
  ◌≡◌, ◌⊎◌, refl, sym, ap, subst, ◌∙◌, inl, inr, true, false, List, [], ◌∷◌, ◌++◌, none, some,
  arith, if◌then◌else◌, Bool-cases, Option-cases,
}
use loraterm.Text.{Text, chars, eq_text}
use loraterm.Text.Equality.{eq_text_iff}
use loraterm.Config.{ok, Whitelist, has, keys, diff_whitelist}
use loraterm.Config.Keys.{has-nil, has-cons}
use loraterm.Config.Diff.{diff_whitelist-has}
use loraterm.Daemon.{
  PeerHandle, find_handle, Effect, shut_down, Daemon, revoke_one, revoke, reload_whitelist,
}
use loraterm.Daemon.Registry.{find_handle-remove}

pub find_handle-revoke_one :
    (k key : Text) (d : Daemon)
    → find_handle k (revoke_one key d).peers
      ≡ (if eq_text key k then none else find_handle k d.peers)
unfolding revoke_one
find_handle-revoke_one k key d = elim (Option-cases (find_handle key d.peers)) [
  | inr (h, found) ↦ rw (found, revoke_one) (find_handle-remove k key d.peers)
  | inl missing ↦ rw (missing, revoke_one) (ground (arith, eq_text_iff key k, missing))
]

find_handle-revoke :
    (k : Text) (ks : List Text) (d : Daemon)
    → find_handle k (revoke ks d).peers ≡ (if has k ks then none else find_handle k d.peers)
unfolding revoke
find_handle-revoke k [] d = rw (has-nil k)
find_handle-revoke k (key ∷ ks) d =
    rw (has-cons k key ks)
      (ground (arith, find_handle-revoke k ks (revoke_one key d), find_handle-revoke_one k key d))

-- The effects of a loop come on top, and among them is the end of each session it was to end.
pub record IsTold (k : Text) (h : PeerHandle) (effects : List Effect) : Type 0 where
  pub later : List Effect
  pub earlier : List Effect
  pub told : effects ≡ later ++ shut_down k h.session (chars "revoked") ∷ earlier

pub effects-revoke_one :
    (key : Text) (d : Daemon)
    → (new : List Effect) × ((revoke_one key d).effects ≡ new ++ d.effects)
unfolding revoke_one
effects-revoke_one key d = elim (Option-cases (find_handle key d.peers)) [
  | inr (h, found) ↦ (shut_down key h.session (chars "revoked") ∷ [], rw (found, revoke_one))
  | inl missing ↦ ([], rw (missing, revoke_one))
]

pub effects-revoke :
    (ks : List Text) (d : Daemon) → (new : List Effect) × ((revoke ks d).effects ≡ new ++ d.effects)
unfolding revoke
effects-revoke [] d = ([], refl)
effects-revoke (key ∷ ks) d =
    let (first, e) = effects-revoke_one key d in
    let (more, e') = effects-revoke ks (revoke_one key d) in
    (more ++ first, e' ∙ ap (◌++◌ more) e ∙ sym (append_assoc more first d.effects))

pub told_first :
    (k key : Text) (h : PeerHandle) (d : Daemon)
    → eq_text key k ≡ true
    → find_handle k d.peers ≡ some h
    → (revoke_one key d).effects ≡ shut_down k h.session (chars "revoked") ∷ d.effects
unfolding revoke_one
told_first k key h d same found =
    subst (λ j. (revoke_one j d).effects ≡ shut_down k h.session (chars "revoked") ∷ d.effects)
      (sym ((eq_text_iff key k).0 same)) (rw (found, revoke_one) refl)

revoke-IsTold :
    (k : Text) (h : PeerHandle) (ks : List Text) (d : Daemon)
    → has k ks ≡ true
    → find_handle k d.peers ≡ some h
    → IsTold k h (revoke ks d).effects
unfolding revoke
revoke-IsTold k h [] d listed found = absurd (cc (has-nil k))
revoke-IsTold k h (key ∷ ks) d listed found = elim (Bool-cases (eq_text key k)) [
  | inl same ↦
      let (new, e) = effects-revoke ks (revoke_one key d) in
      record {
        later = new;
        earlier = d.effects;
        told = e ∙ ap (◌++◌ new) (told_first k key h d same found);
      }
  | inr differs ↦
      revoke-IsTold k h ks (revoke_one key d)
        (ground (arith, has-cons k key ks, eq_text_iff key k, eq_text_iff k key))
        (find_handle-revoke_one k key d ∙ rw differs found)
]

module _ (new : Whitelist) (d : Daemon) (k : Text) (h : PeerHandle)
    (found : find_handle k d.peers ≡ some h) where
  -- A reload that succeeds, with a peer that has a session: if the peer was whitelisted and no
  -- longer is, its session is told that it is revoked and the registry forgets it; otherwise the
  -- registry keeps its handle.
  pub reload_whitelist-IsRevoked :
      ((has k (keys d.whitelist) ≡ true)
        × (has k (keys new) ≡ false)
        × IsTold k h (reload_whitelist (ok new) d).effects
        × (find_handle k (reload_whitelist (ok new) d).peers ≡ none))
      ⊎ (((has k (keys d.whitelist) ≡ false) ⊎ (has k (keys new) ≡ true))
          × (find_handle k (reload_whitelist (ok new) d).peers ≡ some h))
  unfolding reload_whitelist
  reload_whitelist-IsRevoked =
      let removed = (diff_whitelist d.whitelist new).removed in
      let e = record d { whitelist = new } in
      let left = find_handle-revoke k removed e in
      let listed = (diff_whitelist-has d.whitelist new k).1 in
      elim (Bool-cases (has k removed)) [
        | inl gone ↦ inl (
          ground (arith, listed, gone),
          ground (arith, listed, gone),
          revoke-IsTold k h removed e gone found,
          left ∙ rw gone refl,
        )
        | inr kept ↦ inr (ground (arith, listed, kept), left ∙ rw kept found)
      ]

-- ===== src/Daemon/Silence.antt =====
-- Once a peer is off the whitelist, nothing is done for it any more.
use mathlib.Core.List.{append_assoc}
use loraterm.Common.{
  ◌≡◌, ◌∙◌, refl, sym, ap, List, [], ◌∷◌, ◌++◌, true, false, inl, inr, Option-cases, All,
  All-append, All-mono,
}
use loraterm.Text.{Text, chars}
use loraterm.Config.{ok, err, Whitelist, keys, has, diff_whitelist}
use loraterm.Sse.{SseEvent, dm_received, sent_echo, other, comment}
use loraterm.Daemon.{
  Registry, Effect, spawned, delivered, shut_down, Daemon, handle_sse_event, revoke_one, revoke,
  reload_whitelist, Input, reload, event, shutdown, signals_closed, events_closed, run, finish,
  shut_down_all, find_handle,
}
use loraterm.Config.Load.{IsSome-find_peer}
use loraterm.Daemon.Trust.{Allowed, handle_sse_event-IsServed}
use loraterm.Daemon.Invariant.{whitelist-revoke}

-- The effect is not a session or a line for this peer.
abbrev pub Spares : Text → Effect → Type 0
Spares k (spawned key session peer) = ¬ (key ≡ k)
Spares k (delivered key session line) = ¬ (key ≡ k)
Spares k (shut_down key session reason) = Unit

-- The input does not put the peer on the whitelist.
abbrev pub Lacks : {Value : Type 0} → Text → Input Value → Type 0
Lacks k (reload (ok new)) = has k (keys new) ≡ false
Lacks k _ = Unit

-- From one state of the daemon to another, nothing but effects that spare the peer was added.
pub record IsSilent (k : Text) (d d' : Daemon) : Type 0 where
  pub new : List Effect
  pub grown : d'.effects ≡ new ++ d.effects
  pub spared : All (Spares k) new

IsSilent-idle : (k : Text) (d d' : Daemon) → d'.effects ≡ d.effects → IsSilent k d d'
IsSilent-idle k d d' same = record { new = []; grown = same; spared = tt }

IsSilent-trans :
    {k : Text} {d d' d'' : Daemon} → IsSilent k d d' → IsSilent k d' d'' → IsSilent k d d''
IsSilent-trans {k} {d} s t = record {
  new = t.new ++ s.new;
  grown = t.grown ∙ ap (◌++◌ t.new) s.grown ∙ sym (append_assoc t.new s.new d.effects);
  spared = All-append (Spares k) t.new s.new t.spared s.spared;
}

listed_absent :
    (k : Text) (w : Whitelist) (key : Text)
    → key ≡ k
    → has k (keys w) ≡ false
    → has key (keys w) ≡ true
    → ⊥
listed_absent k w key same absent listed = cc (ap (λ j. has j (keys w)) same)

Allowed-Spares :
    {Value : Type 0} (k : Text) (w : Whitelist) (e : SseEvent Value) (x : Effect)
    → has k (keys w) ≡ false
    → Allowed w e x
    → Spares k x
Allowed-Spares k w (dm_received dm) (spawned key session peer) absent a =
    λ same. listed_absent k w key same absent (IsSome-find_peer key w.entries ∙ rw (a.2) refl)
Allowed-Spares k w (dm_received dm) (delivered key session line) absent a =
    λ same. listed_absent k w key same absent a.3
Allowed-Spares k w (dm_received dm) (shut_down key session reason) absent a = tt
Allowed-Spares k w (sent_echo dm) x absent a = absurd a
Allowed-Spares k w (other kind raw) x absent a = absurd a
Allowed-Spares k w (comment text) x absent a = absurd a

revoke_one-IsSilent : (k key : Text) (d : Daemon) → IsSilent k d (revoke_one key d)
unfolding revoke_one
revoke_one-IsSilent k key d = elim (Option-cases (find_handle key d.peers)) [
  | inl missing ↦ rw (missing, revoke_one) (IsSilent-idle k d d refl)
  | inr (h, found) ↦
      rw (found, revoke_one)
        (record {
          new = shut_down key h.session (chars "revoked") ∷ [];
          grown = refl;
          spared = (tt, tt);
        })
]

revoke-IsSilent : (k : Text) (ks : List Text) (d : Daemon) → IsSilent k d (revoke ks d)
unfolding revoke
revoke-IsSilent k [] d = IsSilent-idle k d d refl
revoke-IsSilent k (key ∷ ks) d =
    IsSilent-trans (revoke_one-IsSilent k key d) (revoke-IsSilent k ks (revoke_one key d))

shut_down_all-IsSilent :
    (k : Text) (r : Registry) (effects : List Effect)
    → (new : List Effect) × (shut_down_all r effects ≡ new ++ effects) × All (Spares k) new
unfolding shut_down_all
shut_down_all-IsSilent k [] effects = ([], refl, tt)
shut_down_all-IsSilent k ((key, h) ∷ r) effects =
    let end = shut_down key h.session (chars "shutdown") in
    let (new, grown, spared) = shut_down_all-IsSilent k r (end ∷ effects) in
    (
      new ++ end ∷ [],
      grown ∙ sym (append_assoc new (end ∷ []) effects),
      All-append (Spares k) new (end ∷ []) spared (tt, tt),
    )

finish-IsSilent : (k : Text) (d : Daemon) → IsSilent k d (finish d)
unfolding finish
finish-IsSilent k d =
    let (new, grown, spared) = shut_down_all-IsSilent k d.peers d.effects in
    record { new = new; grown = grown; spared = spared }

-- A run that starts when a peer is not on the whitelist, and whose reloads fail or do not put it
-- there: whatever events arrive, no session is started for that peer and no line is sent to one.
pub run-IsSilent :
    {Value : Type 0} (k : Text) (is : List (Input Value)) (d : Daemon)
    → has k (keys d.whitelist) ≡ false
    → All (Lacks k) is
    → IsSilent k d (run is d).0
unfolding run reload_whitelist
run-IsSilent k [] d absent a = IsSilent-idle k d d refl
run-IsSilent k (reload (err e) ∷ is) d absent a = run-IsSilent k is d absent a.1
run-IsSilent k (reload (ok new) ∷ is) d absent a =
    let removed = (diff_whitelist d.whitelist new).removed in
    let start = record d { whitelist = new } in
    let s = revoke-IsSilent k removed start in
    IsSilent-trans (record { new = s.new; grown = s.grown; spared = s.spared })
      (run-IsSilent k is (revoke removed start) (rw (whitelist-revoke removed start) a.0) a.1)
run-IsSilent k (event env e ∷ is) d absent a =
    let s = handle_sse_event-IsServed env d e in
    IsSilent-trans
      (record {
        new = s.new;
        grown = s.grown;
        spared = All-mono (λ x. Allowed-Spares k d.whitelist e x absent) s.new s.allowed;
      })
      (run-IsSilent k is (handle_sse_event env e d) (rw s.same absent) a.1)
run-IsSilent k (shutdown ∷ is) d absent a = finish-IsSilent k d
run-IsSilent k (signals_closed ∷ is) d absent a = finish-IsSilent k d
run-IsSilent k (events_closed ∷ is) d absent a = finish-IsSilent k d

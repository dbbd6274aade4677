-- ===== src/Daemon/Invariant.antt =====
-- Every session of the registry belongs to a whitelisted peer, whatever the daemon receives.
use loraterm.Common.{
  ◌≡◌, refl, ◌∙◌, inl, inr, true, false, List, [], ◌∷◌, Option, none, some, arith, Bool-cases,
  Option-cases, All, All-mono, All-mono₂,
}
use loraterm.Text.{Text, eq_text, to_ascii_lowercase}
use loraterm.Text.Equality.{eq_text_iff}
use loraterm.Config.{
  ConfigError, Result, ok, err, Whitelist, ValidatedPeer, get, has, keys, diff_whitelist,
}
use loraterm.Config.Keys.{has-nil, has-cons}
use loraterm.Config.Load.{IsSome-find_peer}
use loraterm.Config.Diff.{diff_whitelist-has}
use loraterm.Sse.{SseEvent, dm_received, sent_echo, other, comment}
use loraterm.Daemon.{
  Registry, find_handle, remove, Daemon, Env, ensure_peer, deliver, is_pubkey, handle_text,
  handle_dm, handle_sse_event, revoke_one, revoke, reload_whitelist, Input, reload, event, shutdown,
  signals_closed, events_closed, run, finish,
}
use loraterm.Daemon.Registry.{remove-All, insert-All, remove-ne, find_handle-none}
use loraterm.Daemon.Trust.{handle_text-IsServed}

abbrev pub Keyed : (Text → Type 0) → Registry → Type 0
Keyed P = All (λ b. P b.0)

-- Every key of the registry is on the whitelist.
abbrev pub IsTrusted : Daemon → Type 0
IsTrusted d = Keyed (λ k. has k (keys d.whitelist) ≡ true) d.peers

module _ (P : Text → Type 0) (env : Env) (key : Text) (p : P key) where
  ensure_peer-Keyed :
      (peer : ValidatedPeer) (d : Daemon)
      → Keyed P d.peers
      → Keyed P (ensure_peer env key peer d).0.peers
  unfolding ensure_peer
  ensure_peer-Keyed peer d a = ground (
    arith,
    remove-All (λ b. P b.0) key d.peers a,
    insert-All (λ b. P b.0) key (record { session = d.next_session; last_activity = env.now })
        d.peers p a,
    insert-All (λ b. P b.0) key (record { session = d.next_session; last_activity = env.now })
        (remove key d.peers) p (remove-All (λ b. P b.0) key d.peers a),
  )

  deliver-Keyed :
      (line : Text) (d : Daemon) → Keyed P d.peers → Keyed P (deliver env key line d).peers
  unfolding deliver
  deliver-Keyed line d a = elim (Option-cases (find_handle key d.peers)) [
    | inl missing ↦ rw (missing, deliver) a
    | inr (h, found) ↦
        rw (found, deliver)
          (insert-All (λ b. P b.0) key (record h { last_activity = env.now }) d.peers p a)
  ]

handle_text-Keyed :
    (env : Env) (key : Text) (text : Option Text) (d : Daemon)
    → IsTrusted d
    → Keyed (λ k. has k (keys d.whitelist) ≡ true) (handle_text env key text d).peers
unfolding handle_text
handle_text-Keyed env key none d a = a
handle_text-Keyed env key (some line) d a = elim (Bool-cases (is_pubkey key)) [
  | inr malformed ↦ rw malformed a
  | inl valid ↦ elim (Option-cases (get d.whitelist key)) [
    | inl stranger ↦ rw (valid, stranger) a
    | inr (peer, listed) ↦
        let trusted = IsSome-find_peer key d.whitelist.entries ∙ rw listed in
        let kept =
          ensure_peer-Keyed (λ k. has k (keys d.whitelist) ≡ true) env key trusted peer d a in
        rw (valid, listed)
          (elim (Bool-cases (ensure_peer env key peer d).1) [
            | inr failed ↦ rw failed kept
            | inl alive ↦
                rw alive
                  (deliver-Keyed (λ k. has k (keys d.whitelist) ≡ true) env key trusted line _ kept)
          ])
  ]
]

handle_sse_event-IsTrusted :
    {Value : Type 0} (env : Env) (e : SseEvent Value) (d : Daemon)
    → IsTrusted d
    → IsTrusted (handle_sse_event env e d)
unfolding handle_sse_event handle_dm
handle_sse_event-IsTrusted {Value} env (dm_received dm) d a =
    let same = (handle_text-IsServed Value env d dm dm.text refl).same in
    rw same (handle_text-Keyed env (to_ascii_lowercase dm.peer_pubkey_hex) dm.text d a)
handle_sse_event-IsTrusted env (sent_echo dm) d a = a
handle_sse_event-IsTrusted env (other kind raw) d a = a
handle_sse_event-IsTrusted env (comment text) d a = a

-- Of the bindings, a round leaves those under other keys; the whitelist stays.
revoke_one-Keyed :
    (P : Text → Type 0) (key : Text) (d : Daemon)
    → Keyed P d.peers
    → Keyed (λ k. P k × (eq_text k key ≡ false)) (revoke_one key d).peers
unfolding revoke_one
revoke_one-Keyed P key d a = elim (Option-cases (find_handle key d.peers)) [
  | inl missing ↦
      rw (missing, revoke_one)
        (All-mono₂ d.peers (λ b p n. (p, n)) a (find_handle-none key d.peers missing))
  | inr (h, found) ↦
      rw (found, revoke_one)
        (All-mono₂ (remove key d.peers) (λ b p n. (p, n)) (remove-All (λ b. P b.0) key d.peers a)
          (remove-ne key d.peers))
]

whitelist-revoke_one : (key : Text) (d : Daemon) → (revoke_one key d).whitelist ≡ d.whitelist
unfolding revoke_one
whitelist-revoke_one key d = ground arith

still_absent :
    (k key : Text) (ks : List Text)
    → eq_text k key ≡ false
    → has k ks ≡ false
    → has k (key ∷ ks) ≡ false
still_absent k key ks h h' = ground (arith, has-cons k key ks, eq_text_iff k key, eq_text_iff key k)

-- Of the bindings, `revoke` leaves only some whose key it was not given.
pub revoke-Keyed :
    (P : Text → Type 0) (ks : List Text) (d : Daemon)
    → Keyed P d.peers
    → Keyed (λ k. P k × (has k ks ≡ false)) (revoke ks d).peers
unfolding revoke
revoke-Keyed P [] d a = All-mono (λ b h. (h, has-nil b.0)) d.peers a
revoke-Keyed P (key ∷ ks) d a =
    All-mono (λ b h. (h.0.0, still_absent b.0 key ks h.0.1 h.1))
      (revoke ks (revoke_one key d)).peers
      (revoke-Keyed (λ k. P k × (eq_text k key ≡ false)) ks (revoke_one key d)
        (revoke_one-Keyed P key d a))

pub whitelist-revoke : (ks : List Text) (d : Daemon) → (revoke ks d).whitelist ≡ d.whitelist
unfolding revoke
whitelist-revoke [] d = refl
whitelist-revoke (key ∷ ks) d = whitelist-revoke ks (revoke_one key d) ∙ whitelist-revoke_one key d

reload_whitelist-IsTrusted :
    (r : Result ConfigError Whitelist) (d : Daemon) → IsTrusted d → IsTrusted (reload_whitelist r d)
unfolding reload_whitelist
reload_whitelist-IsTrusted (err e) d a = a
reload_whitelist-IsTrusted (ok new) d a =
    let removed = (diff_whitelist d.whitelist new).removed in
    let kept =
      revoke-Keyed (λ k. has k (keys d.whitelist) ≡ true) removed (record d { whitelist = new })
        a in
    rw (whitelist-revoke removed (record d { whitelist = new })) (
      All-mono (λ b h. still_listed d.whitelist new b.0 h.0 h.1)
        (revoke removed (record d { whitelist = new })).peers kept)
  where
    still_listed :
        (old new : Whitelist) (k : Text)
        → has k (keys old) ≡ true
        → has k (diff_whitelist old new).removed ≡ false
        → has k (keys new) ≡ true
    still_listed old new k h h' = ground (arith, (diff_whitelist-has old new k).1)

-- Whatever the daemon receives and in whatever order, events, reloads that succeed or fail, and the
-- end: every session in its registry belongs to a peer that is on the whitelist in force.
pub run-IsTrusted :
    {Value : Type 0} (is : List (Input Value)) (d : Daemon) → IsTrusted d → IsTrusted (run is d).0
unfolding run finish
run-IsTrusted [] d a = a
run-IsTrusted (reload r ∷ is) d a =
    run-IsTrusted is (reload_whitelist r d) (reload_whitelist-IsTrusted r d a)
run-IsTrusted (event env e ∷ is) d a =
    run-IsTrusted is (handle_sse_event env e d) (handle_sse_event-IsTrusted env e d a)
run-IsTrusted (shutdown ∷ is) d a = tt
run-IsTrusted (signals_closed ∷ is) d a = tt
run-IsTrusted (events_closed ∷ is) d a = tt

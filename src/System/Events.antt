-- ===== src/System/Events.antt =====
-- What an event of the stream does to the sessions.
use loraterm.Common.{
  ℕ, ap, inl, inr, ◌∷◌, Option, none, some, All, All-mono, Bool-cases, Option-cases, arith,
}
use loraterm.Text.{Text, to_ascii_lowercase}
use loraterm.Config.{ValidatedPeer, get}
use loraterm.Config.File.{Config}
use loraterm.Sse.{SseEvent, dm_received, sent_echo, other, comment}
use loraterm.Daemon.{
  PeerHandle, find_handle, insert, spawned, delivered, Daemon, Env, ensure_peer, deliver, is_pubkey,
  handle_text, handle_dm, handle_sse_event,
}
use loraterm.Daemon.Registry.{remove-All, insert-All}
use loraterm.Daemon.Dispatch.{
  live, without_stale, without_stale-none, live-some, ensure_peer-live, ensure_peer-missing,
  deliver_lem,
}
use loraterm.System.{Slots, apply_all}
use loraterm.System.Fed.{Owns}
use loraterm.System.Effects.{delivered-IsSound, spawned-IsSound}
use loraterm.System.Grown.{IsGrown, rebind, find_handle-All}

module _ (config : Config) (now : ℕ) (slots : Slots) (start : Daemon) where
  without_stale-All :
      (env : Env) (key : Text) (d : Daemon) (P : Text × PeerHandle → Type 0)
      → All P d.peers
      → All P (without_stale env key d)
  without_stale-All env key d P a = ground (arith, remove-All P key d.peers a)

  ensure_peer-IsGrown :
      (env : Env) (key : Text) (peer : ValidatedPeer) (d : Daemon)
      → IsGrown config now slots start d
      → IsGrown config now slots start (ensure_peer env key peer d).0
  ensure_peer-IsGrown env key peer d g = elim (Option-cases (live env (find_handle key d.peers))) [
    | inr (h, alive) ↦
        let (found, open_channel) = live-some env (find_handle key d.peers) alive in
        rw (ensure_peer-live env key peer d found open_channel) g
    | inl none_left ↦
        let missing = without_stale-none env key d none_left in
        let rest =
          rebind config now slots start d (without_stale env key d) g
            (without_stale-All env key d _ g.sound.owned) in
        rw (ensure_peer-missing env key peer d missing) (elim (Bool-cases env.can_spawn) [
          | inr failed ↦ simp failed rest
          | inl started ↦ simp started (record {
            new = spawned key d.next_session peer ∷ g.new;
            grown = ap (◌∷◌ (spawned key d.next_session peer)) g.grown;
            later = omega (arith, g.later);
            numbered = (g.later, g.numbered);
            sound =
                spawned-IsSound config now (without_stale env key d) _ d.next_session
                  (apply_all config now g.new slots) d.effects key peer
                  (λ slots' own known.
                    insert-All (λ b. Owns slots' b.0 b.1.session) key
                      (record { session = d.next_session; last_activity = env.now })
                      (without_stale env key d) own
                      (All-mono (λ b. known b.0 b.1.session) (without_stale env key d)
                        rest.sound.owned))
                  rest.sound;
          })
        ])
  ]

  deliver-IsGrown :
      (env : Env) (key line : Text) (d : Daemon)
      → IsGrown config now slots start d
      → IsGrown config now slots start (deliver env key line d)
  unfolding deliver
  deliver-IsGrown env key line d g = elim (Option-cases (find_handle key d.peers)) [
    | inl missing ↦ rw (missing, deliver) g
    | inr (h, found) ↦
        let handle : PeerHandle = record h { last_activity = env.now } in
        let own = find_handle-All _ key d.peers g.sound.owned found in
        let bound =
          rebind config now slots start d (insert key handle d.peers) g
            (insert-All _ key handle d.peers own g.sound.owned) in
        rw (deliver_lem env key line d found) (elim (Bool-cases (env.accepts h.session)) [
          | inr crowded ↦ simp crowded bound
          | inl taken ↦ simp taken (record {
            new = delivered key h.session line ∷ g.new;
            grown = ap (◌∷◌ (delivered key h.session line)) g.grown;
            later = g.later;
            numbered = (tt, g.numbered);
            sound =
                delivered-IsSound config now (insert key handle d.peers) d.next_session
                  (apply_all config now g.new slots) d.effects key line h.session own bound.sound;
          })
        ])
  ]

  handle_text-IsGrown :
      (env : Env) (key : Text) (text : Option Text) (d : Daemon)
      → IsGrown config now slots start d
      → IsGrown config now slots start (handle_text env key text d)
  unfolding handle_text
  handle_text-IsGrown env key none d g = g
  handle_text-IsGrown env key (some line) d g = elim (Bool-cases (is_pubkey key)) [
    | inr malformed ↦ rw malformed g
    | inl valid ↦ elim (Option-cases (get d.whitelist key)) [
      | inl stranger ↦ rw (valid, stranger) g
      | inr (peer, listed) ↦
          let g' = ensure_peer-IsGrown env key peer d g in
          rw (valid, listed)
            (elim (Bool-cases (ensure_peer env key peer d).1) [
              | inr failed ↦ rw failed g'
              | inl alive ↦
                  rw alive (deliver-IsGrown env key line (ensure_peer env key peer d).0 g')
            ])
    ]
  ]

  pub handle_sse_event-IsGrown :
      {Value : Type 0} (env : Env) (e : SseEvent Value) (d : Daemon)
      → IsGrown config now slots start d
      → IsGrown config now slots start (handle_sse_event env e d)
  unfolding handle_sse_event handle_dm
  handle_sse_event-IsGrown env (dm_received dm) d g =
      handle_text-IsGrown env (to_ascii_lowercase dm.peer_pubkey_hex) dm.text d g
  handle_sse_event-IsGrown env (sent_echo dm) d g = g
  handle_sse_event-IsGrown env (other kind raw) d g = g
  handle_sse_event-IsGrown env (comment text) d g = g

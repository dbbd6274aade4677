-- ===== src/Daemon/Sessions/Events.antt =====
-- What an event of the stream does to the sessions that were started.
use loraterm.Common.{
  ℕ, suc, ◌≡◌, ◌⊎◌, refl, ap, subst, ◌∙◌, inl, inr, true, List, [], ◌∷◌, ◌++◌, Option, none, some,
  Bool-cases, Option-cases, All,
}
use loraterm.Text.{Text, eq_text, to_ascii_lowercase}
use loraterm.Text.Equality.{eq_text_iff}
use loraterm.Config.{ValidatedPeer, get}
use loraterm.Sse.{SseEvent, dm_received, sent_echo, other, comment}
use loraterm.Daemon.{
  PeerHandle, Registry, find_handle, insert, Effect, spawned, delivered, Daemon, Env, is_stale,
  ensure_peer, deliver, is_pubkey, handle_text, handle_dm, handle_sse_event,
}
use loraterm.Daemon.Registry.{find_handle-remove, find_handle-insert}
use loraterm.Daemon.Dispatch.{
  live, offered, without_stale, without_stale-none, live-some, ensure_peer-live,
  ensure_peer-missing, deliver_lem, find_handle-insert_same,
}
use loraterm.Daemon.Sessions.{Registered, same_session, Settled, Owed, IsSettled, keep_bindings}

module _ (Closed : ℕ → Type 0) where
  module _ (env : Env) (seen : (n : ℕ) → env.is_closed n ≡ true → Closed n) (key : Text) where
    stale_closed :
        (peers : Registry) {h : PeerHandle}
        → find_handle key peers ≡ some h
        → is_stale env key peers ≡ true
        → Closed h.session
    unfolding is_stale
    stale_closed peers {h} found stale = seen h.session (rw (is_stale, found) at stale)

    without_stale-Registered :
        (d : Daemon) (k : Text) (n : ℕ)
        → Registered k n d.peers
        → Registered k n (without_stale env key d) ⊎ Closed n
    without_stale-Registered d k n (h, found, same) = elim (Bool-cases (is_stale env key d.peers)) [
      | inr fresh ↦ inl (rw fresh (h, found, same))
      | inl stale ↦ elim (Bool-cases (eq_text key k)) [
        | inl here ↦
            let e = (eq_text_iff key k).0 here in
            inr (
              subst Closed same
                (stale_closed d.peers (ap (λ j. find_handle j d.peers) e ∙ found) stale))
        | inr there ↦ inl (rw stale (h, find_handle-remove k key d.peers ∙ rw there found, same))
      ]
    ]

    insert-Registered :
        (handle : PeerHandle) (peers : Registry) (k : Text) (n : ℕ)
        → find_handle key peers ≡ none
        → Registered k n peers
        → Registered k n (insert key handle peers)
    insert-Registered handle peers k n missing (h, found, same) =
        elim (Bool-cases (eq_text key k)) [
          | inl here ↦
              absurd
                (cc (ap (λ j. find_handle j peers) ((eq_text_iff key k).0 here), missing, found))
          | inr there ↦ (h, find_handle-insert k key handle peers ∙ rw there found, same)
        ]

    drop_stale :
        (d d' : Daemon) (k : Text) (n : ℕ)
        → Registered k n d'.peers ⊎ Closed n
        → Settled Closed d' k n
    drop_stale d d' k n (inl r) = inl r
    drop_stale d d' k n (inr c) = inr (inr c)

    ensure_peer-IsSettled :
        (peer : ValidatedPeer) (d : Daemon)
        → IsSettled Closed d
        → IsSettled Closed (ensure_peer env key peer d).0
    ensure_peer-IsSettled peer d a = elim (Option-cases (live env (find_handle key d.peers))) [
      | inr (h, alive) ↦
          let (found, open_channel) = live-some env (find_handle key d.peers) alive in
          rw (ensure_peer-live env key peer d found open_channel) a
      | inl gone ↦
          let missing = without_stale-none env key d gone in
          let rest : Daemon = record d { peers = without_stale env key d } in
          let a' : IsSettled Closed rest =
            keep_bindings Closed d rest [] refl
              (λ k n r. drop_stale d rest k n (without_stale-Registered d k n r)) tt a in
          rw (ensure_peer-missing env key peer d missing) (elim (Bool-cases env.can_spawn) [
            | inr failed ↦ simp failed a'
            | inl started ↦
                let handle : PeerHandle = record {
                  session = d.next_session;
                  last_activity = env.now;
                } in
                let d' : Daemon = record d {
                  peers = insert key handle (without_stale env key d);
                  next_session = suc d.next_session;
                  effects = spawned key d.next_session peer ∷ d.effects;
                } in
                simp started (
                  keep_bindings Closed rest d' (spawned key d.next_session peer ∷ []) refl
                    (λ k n r.
                      inl (insert-Registered handle (without_stale env key d) k n missing r))
                    (
                      inl (
                        handle,
                        find_handle-insert_same key handle (without_stale env key d),
                        refl,
                      ),
                      tt,
                    )
                    a')
          ])
    ]

    deliver-Registered :
        (d : Daemon) (handle : PeerHandle) (k : Text) (n : ℕ)
        → find_handle key d.peers ≡ some handle
        → Registered k n d.peers
        → Registered k n (insert key (record handle { last_activity = env.now }) d.peers)
    deliver-Registered d handle k n known (h, found, same) =
        let touched : PeerHandle = record handle { last_activity = env.now } in
        elim (Bool-cases (eq_text key k)) [
          | inr there ↦ (h, find_handle-insert k key touched d.peers ∙ rw there found, same)
          | inl here ↦
              let session = same_session d.peers ((eq_text_iff key k).0 here) known found ∙ same in
              (touched, find_handle-insert k key touched d.peers ∙ rw here refl, session)
        ]

    offered-append :
        (session : ℕ) (line : Text) (d' : Daemon) (es : List Effect)
        → (new : List Effect) × (offered env key session line es ≡ new ++ es)
          × All (Owed Closed d') new
    offered-append session line d' es = elim (Bool-cases (env.accepts session)) [
      | inl taken ↦ (delivered key session line ∷ [], rw taken refl, (tt, tt))
      | inr crowded ↦ ([], rw crowded refl, tt)
    ]

    deliver-IsSettled :
        (line : Text) (d : Daemon) → IsSettled Closed d → IsSettled Closed (deliver env key line d)
    unfolding deliver
    deliver-IsSettled line d a = elim (Option-cases (find_handle key d.peers)) [
      | inl missing ↦ rw (missing, deliver) a
      | inr (h, found) ↦
          let d' : Daemon = record d {
            peers = insert key (record h { last_activity = env.now }) d.peers;
            effects = offered env key h.session line d.effects;
          } in
          let (new, grown, owed) = offered-append h.session line d' d.effects in
          rw (deliver_lem env key line d found) (
            keep_bindings Closed d d' new grown (λ k n r. inl (deliver-Registered d h k n found r))
              owed a)
    ]

  module _ (env : Env) (seen : (n : ℕ) → env.is_closed n ≡ true → Closed n) where
    handle_text-IsSettled :
        (key : Text) (text : Option Text) (d : Daemon)
        → IsSettled Closed d
        → IsSettled Closed (handle_text env key text d)
    unfolding handle_text
    handle_text-IsSettled key none d a = a
    handle_text-IsSettled key (some line) d a = elim (Bool-cases (is_pubkey key)) [
      | inr malformed ↦ rw malformed a
      | inl valid ↦ elim (Option-cases (get d.whitelist key)) [
        | inl stranger ↦ rw (valid, stranger) a
        | inr (peer, listed) ↦
            let a' = ensure_peer-IsSettled env seen key peer d a in
            rw (valid, listed)
              (elim (Bool-cases (ensure_peer env key peer d).1) [
                | inr failed ↦ rw failed a'
                | inl alive ↦
                    rw alive (deliver-IsSettled env seen key line (ensure_peer env key peer d).0 a')
              ])
      ]
    ]

    pub handle_sse_event-IsSettled :
        {Value : Type 0} (e : SseEvent Value) (d : Daemon)
        → IsSettled Closed d
        → IsSettled Closed (handle_sse_event env e d)
    unfolding handle_sse_event handle_dm
    handle_sse_event-IsSettled (dm_received dm) d a =
        handle_text-IsSettled (to_ascii_lowercase dm.peer_pubkey_hex) dm.text d a
    handle_sse_event-IsSettled (sent_echo dm) d a = a
    handle_sse_event-IsSettled (other kind raw) d a = a
    handle_sse_event-IsSettled (comment text) d a = a

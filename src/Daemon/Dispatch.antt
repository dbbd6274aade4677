-- ===== src/Daemon/Dispatch.antt =====
-- What the message of a whitelisted peer leads to: a line in its session, a new session, or nothing.
use loraterm.Common.{
  ℕ, suc, ◌≡◌, refl, ◌∙◌, inl, inr, true, false, List, ◌∷◌, Option, none, some, arith,
  if◌then◌else◌, Bool-cases, Option-cases,
}
use loraterm.Text.{Text, to_ascii_lowercase, eq_text}
use loraterm.Text.Equality.{eq_text_refl}
use loraterm.Config.{ValidatedPeer, get}
use loraterm.Sse.{DmEvent, dm_received}
use loraterm.Daemon.{
  PeerHandle, find_handle, remove, insert, Effect, spawned, delivered, Daemon, Env, is_stale,
  ensure_peer, deliver, is_pubkey, handle_text, handle_dm, handle_sse_event,
}
use loraterm.Daemon.Registry.{find_handle-remove, find_handle-insert}

-- The handle of a session that still takes input.
abbrev pub live : Env → Option PeerHandle → Option PeerHandle
live env (some h) = if env.is_closed h.session then none else some h
live env none = none

-- The line is sent if the channel of the session takes it.
abbrev pub offered : Env → Text → ℕ → Text → List Effect → List Effect
offered env key session line effects =
    if env.accepts session then delivered key session line ∷ effects else effects

-- What becomes of a line for a peer, by the live session that it has.
abbrev pub IsAnswered :
    Env → Text → Text → ValidatedPeer → Option PeerHandle → Daemon → Daemon → Type 0
IsAnswered env key line peer (some h) d d' =
    (d'.effects ≡ offered env key h.session line d.effects)
    × (d'.next_session ≡ d.next_session)
    × (find_handle key d'.peers ≡ some (record h { last_activity = env.now }))
IsAnswered env key line peer none d d' =
    if env.can_spawn
    then (d'.effects
        ≡ offered env key d.next_session line (spawned key d.next_session peer ∷ d.effects))
      × (d'.next_session ≡ suc d.next_session)
      × (find_handle key d'.peers
          ≡ some (record { session = d.next_session; last_activity = env.now }))
    else (d'.effects ≡ d.effects)
      × (d'.next_session ≡ d.next_session)
      × (find_handle key d'.peers ≡ none)

pub find_handle-insert_same :
    (k : Text) (h : PeerHandle) (r : List (Text × PeerHandle))
    → find_handle k (insert k h r) ≡ some h
find_handle-insert_same k h r = find_handle-insert k k h r ∙ rw (eq_text_refl k)

pub deliver_lem :
    (env : Env) (key line : Text) (d : Daemon) {h : PeerHandle}
    → find_handle key d.peers ≡ some h
    → deliver env key line d ≡ record d {
      peers = insert key (record h { last_activity = env.now }) d.peers;
      effects = offered env key h.session line d.effects;
    }
unfolding deliver
deliver_lem env key line d found = rw (found, deliver)

is_stale-live :
    (env : Env) (key : Text) (d : Daemon) {h : PeerHandle}
    → find_handle key d.peers ≡ some h
    → env.is_closed h.session ≡ false
    → is_stale env key d.peers ≡ false
unfolding is_stale
is_stale-live env key d found alive = rw (is_stale, found) alive

pub ensure_peer-live :
    (env : Env) (key : Text) (peer : ValidatedPeer) (d : Daemon) {h : PeerHandle}
    → find_handle key d.peers ≡ some h
    → env.is_closed h.session ≡ false
    → ensure_peer env key peer d ≡ (d, true)
unfolding ensure_peer
ensure_peer-live env key peer d found alive =
    rw
      (ensure_peer, is_stale-live env key d found alive, found, is_stale-live env key d found alive)

-- What `ensure_peer` leaves when the registry, without a closed handle, has none for the key.
abbrev pub without_stale : Env → Text → Daemon → List (Text × PeerHandle)
without_stale env key d = if is_stale env key d.peers then remove key d.peers else d.peers

pub ensure_peer-missing :
    (env : Env) (key : Text) (peer : ValidatedPeer) (d : Daemon)
    → find_handle key (without_stale env key d) ≡ none
    → ensure_peer env key peer d ≡ (
        if env.can_spawn
        then (
          record d {
            peers =
                insert key
                  (record { session = d.next_session; last_activity = env.now })
                  (without_stale env key d);
            next_session = suc d.next_session;
            effects = spawned key d.next_session peer ∷ d.effects;
          },
          true,
        )
        else (record d { peers = without_stale env key d }, false))
unfolding ensure_peer
ensure_peer-missing env key peer d missing = rw (ensure_peer, missing)

pub without_stale-none :
    (env : Env) (key : Text) (d : Daemon)
    → live env (find_handle key d.peers) ≡ none
    → find_handle key (without_stale env key d) ≡ none
unfolding is_stale
without_stale-none env key d gone =
    ground (arith, find_handle-remove key key d.peers, eq_text_refl key)

pub live-some :
    (env : Env) (o : Option PeerHandle) {h : PeerHandle}
    → live env o ≡ some h
    → (o ≡ some h) × (env.is_closed h.session ≡ false)
live-some env none e = absurd cc
live-some env (some h) e = ground arith

module _ (env : Env) (key line : Text) (peer : ValidatedPeer) where
  -- The two blocks of the handler, after its early returns.
  answer : Daemon → Daemon
  answer d =
      if (ensure_peer env key peer d).1
      then deliver env key line (ensure_peer env key peer d).0
      else (ensure_peer env key peer d).0

  answer-live :
      (d : Daemon) {h : PeerHandle}
      → find_handle key d.peers ≡ some h
      → env.is_closed h.session ≡ false
      → IsAnswered env key line peer (some h) d (answer d)
  unfolding answer
  answer-live d {h} found alive =
      rw (ensure_peer-live env key peer d found alive, deliver_lem env key line d found)
        (refl, refl, find_handle-insert_same key (record h { last_activity = env.now }) d.peers)

  answer-missing :
      (d : Daemon)
      → find_handle key (without_stale env key d) ≡ none
      → IsAnswered env key line peer none d (answer d)
  unfolding answer deliver find_handle insert eq_text is_stale
  answer-missing d missing = elim (Bool-cases env.can_spawn) [
    | inr failed ↦ rw (ensure_peer-missing env key peer d missing, failed) (refl, refl, missing)
    | inl started ↦
        let fresh : PeerHandle = record { session = d.next_session; last_activity = env.now } in
        let d' : Daemon = record d {
          peers = insert key fresh (without_stale env key d);
          next_session = suc d.next_session;
          effects = spawned key d.next_session peer ∷ d.effects;
        } in
        let found = find_handle-insert_same key fresh (without_stale env key d) in
        rw (ensure_peer-missing env key peer d missing, started, deliver_lem env key line d' found)
          (refl, refl, find_handle-insert_same key fresh d'.peers)
  ]

  handle_text-answer :
      (d : Daemon)
      → is_pubkey key ≡ true
      → get d.whitelist key ≡ some peer
      → handle_text env key (some line) d ≡ answer d
  unfolding handle_text answer
  handle_text-answer d valid listed = rw (valid, listed)

-- The message of a whitelisted peer, with a text and a well-formed key, is answered. A live session
-- is offered the line and its handle is touched; without one, a new session under the peer's entry
-- is started and offered the line, or if that fails nothing is done and no handle is left. A line
-- that is offered is delivered exactly when the channel of the session takes it.
pub handle_sse_event-IsAnswered :
    (Value : Type 0) (env : Env) (d : Daemon) (dm : DmEvent) (line : Text) (peer : ValidatedPeer)
    → dm.text ≡ some line
    → is_pubkey (to_ascii_lowercase dm.peer_pubkey_hex) ≡ true
    → get d.whitelist (to_ascii_lowercase dm.peer_pubkey_hex) ≡ some peer
    → IsAnswered env
        (to_ascii_lowercase dm.peer_pubkey_hex)
        line
        peer
        (live env (find_handle (to_ascii_lowercase dm.peer_pubkey_hex) d.peers))
        d
        (handle_sse_event {Value = Value} env (dm_received dm) d)
unfolding handle_sse_event handle_dm
handle_sse_event-IsAnswered Value env d dm line peer said valid listed =
    let key = to_ascii_lowercase dm.peer_pubkey_hex in
    rw (said, handle_text-answer env key line peer d valid listed)
      (elim (Option-cases (live env (find_handle key d.peers))) [
        | inl gone ↦
            rw gone (answer-missing env key line peer d (without_stale-none env key d gone))
        | inr (h, alive) ↦
            let (found, open_channel) = live-some env (find_handle key d.peers) alive in
            rw alive (answer-live env key line peer d found open_channel)
      ])

-- ===== src/Daemon.antt =====
-- src/daemon.rs: dispatch of stream events to the sessions of whitelisted peers, and the reload of
-- the whitelist. The registry of peers is an association list. A handle stands for the session
-- behind it by a number; what the outside decides during a step is its `Env`.
pub mod Registry
pub mod Trust
pub mod Dispatch
pub mod Invariant
pub mod Revoke
pub mod Silence
pub mod Sessions
pub mod Start
pub mod Endings
pub mod Home
mod Tests
use loraterm.Common.{
  ℕ, suc, ◌+◌, Bool, true, false, not, ◌&&◌, ◌||◌, List, [], ◌∷◌, Option, none, some, ◌==◌,
  if◌then◌else◌, all, any,
}
use loraterm.Text.{Text, chars, len, is_ascii_hexdigit, to_ascii_lowercase, eq_text}
use loraterm.Config.{
  ConfigError, Result, ok, err, ValidatedPeer, Whitelist, get, diff_whitelist, WhitelistFile, load,
  WhitelistDiff,
}
use loraterm.Sse.{DmEvent, SseEvent, dm_received, sent_echo, other, comment}

-- `PeerHandle`: its input channel and shutdown sender belong to session `session`.
pub record PeerHandle : Type 0 where
  pub session : ℕ
  pub last_activity : ℕ

-- `HashMap<String, PeerHandle>`, with one binding for a key.
abbrev pub Registry : Type 0
Registry = List (Text × PeerHandle)

unfoldable pub find_handle : Text → Registry → Option PeerHandle
find_handle k [] = none
find_handle k ((j, h) ∷ r) = if eq_text j k then some h else find_handle k r

unfoldable pub remove : Text → Registry → Registry
remove k [] = []
remove k ((j, h) ∷ r) = let rest = remove k r in if eq_text j k then rest else (j, h) ∷ rest

unfoldable pub insert : Text → PeerHandle → Registry → Registry
unfolding remove
insert k h r = (k, h) ∷ remove k r

-- What the daemon does to the sessions, newest first: a session is started for a key with its
-- settings, is sent a line, or is told to shut down.
pub data Effect : Type 0 where
  spawned : (key : Text) (session : ℕ) (peer : ValidatedPeer) → Effect
  delivered : (key : Text) (session : ℕ) (line : Text) → Effect
  shut_down : (key : Text) (session : ℕ) (reason : Text) → Effect

pub record Daemon : Type 0 where
  pub whitelist : Whitelist
  pub peers : Registry
  pub next_session : ℕ
  pub effects : List Effect

-- What a step meets: the time in seconds, whether `spawn_peer`, which is taken to return, succeeds
-- (it starts a shell), which sessions have closed their input channel, and for which `try_send` of a
-- line then succeeds.
pub record Env : Type 0 where
  pub now : ℕ
  pub can_spawn : Bool
  pub is_closed : ℕ → Bool
  pub accepts : ℕ → Bool

-- `guard.get(&pubkey).map_or(false, |h| h.input_tx.is_closed())`
unfoldable pub is_stale : Env → Text → Registry → Bool
is_stale env key peers = elim (find_handle key peers) [
  | some h ↦ env.is_closed h.session
  | none ↦ false
]

-- The first block: a closed handle goes, and a session is started if there is none. `none` means
-- that `spawn_peer` failed, after which the handler returns.
unfoldable pub ensure_peer : Env → Text → ValidatedPeer → Daemon → Daemon × Bool
ensure_peer env key peer d =
    let peers = if is_stale env key d.peers then remove key d.peers else d.peers in
    elim (find_handle key peers) [
      | some h ↦ (record d { peers = peers }, true)
      | none ↦
          if env.can_spawn
          then (
            record d {
              peers =
                  insert key (record { session = d.next_session; last_activity = env.now }) peers;
              next_session = suc d.next_session;
              effects = spawned key d.next_session peer ∷ d.effects;
            },
            true,
          )
          else (record d { peers = peers }, false)
    ]

-- The last block: the handle is touched and the line is offered to its channel.
unfoldable pub deliver : Env → Text → Text → Daemon → Daemon
deliver env key line d = elim (find_handle key d.peers) [
  | some h ↦ record d {
    peers = insert key (record h { last_activity = env.now }) d.peers;
    effects = if env.accepts h.session then delivered key h.session line ∷ d.effects else d.effects;
  }
  | none ↦ d
]

unfoldable pub is_pubkey : Text → Bool
is_pubkey key = len key == 64 && all is_ascii_hexdigit key

-- A message from `key`, behind its two early returns for a message with no text (the argument
-- `none`) and for a malformed key.
unfoldable pub handle_text : Env → Text → Option Text → Daemon → Daemon
handle_text env key none d = d
handle_text env key (some line) d = if not (is_pubkey key) then d else elim (get d.whitelist key) [
  | none ↦ d
  | some peer ↦
      let (d', alive) = ensure_peer env key peer d in if alive then deliver env key line d' else d'
]

unfoldable pub handle_dm : Env → DmEvent → Daemon → Daemon
handle_dm env dm d = handle_text env (to_ascii_lowercase dm.peer_pubkey_hex) dm.text d

unfoldable pub handle_sse_event : {Value : Type 0} → Env → SseEvent Value → Daemon → Daemon
handle_sse_event env (dm_received dm) d = handle_dm env dm d
handle_sse_event env (sent_echo dm) d = d
handle_sse_event env (other kind raw) d = d
handle_sse_event env (comment text) d = d

-- One round of the loop over the removed keys, and the loop.
unfoldable pub revoke_one : Text → Daemon → Daemon
revoke_one key d = elim (find_handle key d.peers) [
  | some h ↦ record d {
    peers = remove key d.peers;
    effects = shut_down key h.session (chars "revoked") ∷ d.effects;
  }
  | none ↦ d
]

unfoldable pub revoke : List Text → Daemon → Daemon
revoke [] d = d
revoke (key ∷ ks) d = revoke ks (revoke_one key d)

-- `reload_whitelist`, with what `Whitelist::load` returned.
unfoldable pub reload_whitelist : Result ConfigError Whitelist → Daemon → Daemon
reload_whitelist (err e) d = d
reload_whitelist (ok new) d =
    let diff = diff_whitelist d.whitelist new in revoke diff.removed (record d { whitelist = new })

-- The end of `run`: every handle is told to shut down, and the registry is cleared.
unfoldable pub shut_down_all : Registry → List Effect → List Effect
shut_down_all [] effects = effects
shut_down_all ((key, h) ∷ r) effects =
    shut_down_all r (shut_down key h.session (chars "shutdown") ∷ effects)

unfoldable pub finish : Daemon → Daemon
finish d = record d { peers = []; effects = shut_down_all d.peers d.effects }

-- What the loop of `run` receives: a signal or an event; the receivers may also be closed.
pub data Input (Value : Type 0) : Type 0 where
  reload : Result ConfigError Whitelist → Input Value
  event : Env → SseEvent Value → Input Value
  shutdown signals_closed events_closed : Input Value

-- The loop of `run` over what it receives; the flag says that it has ended.
unfoldable pub run : {Value : Type 0} → List (Input Value) → Daemon → Daemon × Bool
run [] d = (d, false)
run (reload r ∷ is) d = run is (reload_whitelist r d)
run (event env e ∷ is) d = run is (handle_sse_event env e d)
run (shutdown ∷ is) d = (finish d, true)
run (signals_closed ∷ is) d = (finish d, true)
run (events_closed ∷ is) d = (finish d, true)

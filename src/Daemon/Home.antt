-- ===== src/Daemon/Home.antt =====
-- src/daemon.rs: the home directory of a session, and what `spawn_peer` is called with.
use loraterm.Common.{
  ℕ, ◌≤◌, ◌≡◌, refl, true, inl, inr, List, ◌++◌, Run, ◌>>=◌, length, take, all, All, All-mono,
  arith, Bool-cases,
}
use loraterm.Text.{Text, split_at, is_ascii_hexdigit}
use loraterm.Config.{ValidatedPeer, Whitelist}
use loraterm.Config.Keys.{len-hex, split_at-hex}
use loraterm.Config.File.{Config}
use loraterm.Peer.Spawn.{PeerSpawn}
use loraterm.Sse.{SseEvent, dm_received, sent_echo, other, comment}
use loraterm.Daemon.{
  Effect, spawned, delivered, shut_down, Daemon, Env, is_pubkey, handle_sse_event,
}
use loraterm.Daemon.Trust.{Allowed, handle_sse_event-IsServed}

-- `&pubkey[..16]`
pub home_name : Text → Run Text
home_name key = split_at key 16 >>= λ (name, rest). Run.ok name

-- What `spawn_peer` is called with for a peer; `join` is `Path::join`.
pub peer_spawn : (Text → Text → Text) → Config → Text → ValidatedPeer → Run PeerSpawn
unfolding home_name
peer_spawn join config key peer = do
  name ← home_name key
  Run.ok (record {
    peer = peer;
    peer_home = join config.paths.peer_home_root name;
    limits = config.limits;
    chunking = config.chunking;
  })

-- The name of a home directory: sixteen hexadecimal digits, of the key they begin.
pub record IsHomeName (key name : Text) : Type 0 where
  pub begins : name ≡ take 16 key
  pub size : length name ≡ 16
  pub hex : all is_ascii_hexdigit name ≡ true

-- A session that is started has the settings of its peer, and such a home.
abbrev pub Housed : (Text → Text → Text) → Config → Whitelist → Effect → Type 0
Housed join config w (spawned key session peer) =
    (name : Text) × IsHomeName key name
    × (peer_spawn join config key peer
        ≡ Run.ok (record {
          peer = peer;
          peer_home = join config.paths.peer_home_root name;
          limits = config.limits;
          chunking = config.chunking;
        }))
Housed join config w (delivered key session line) = Unit
Housed join config w (shut_down key session reason) = Unit

is_pubkey-hex :
    (key : Text) → is_pubkey key ≡ true → (16 ≤ length key) × (all is_ascii_hexdigit key ≡ true)
unfolding is_pubkey
is_pubkey-hex key h = elim (Bool-cases (all is_ascii_hexdigit key)) [
  | inl hex ↦ (ground (arith, h, len-hex key hex), hex)
  | inr other_text ↦ absurd (ground (arith, h, other_text))
]

module _ (join : Text → Text → Text) (config : Config) where
  spawned-Housed :
      (w : Whitelist) (key : Text) (session : ℕ) (peer : ValidatedPeer)
      → is_pubkey key ≡ true
      → Housed join config w (spawned key session peer)
  unfolding peer_spawn home_name
  spawned-Housed w key session peer valid =
      let (long, hex) = is_pubkey-hex key valid in
      let (cut, size, digits) = split_at-hex 16 key hex long in
      (take 16 key, record { begins = refl; size = size; hex = digits }, rw cut refl)

  Allowed-Housed :
      {Value : Type 0} (w : Whitelist) (event : SseEvent Value) (e : Effect)
      → Allowed w event e
      → Housed join config w e
  Allowed-Housed w (dm_received dm) (spawned key session peer) (same, valid, listed) =
      spawned-Housed w key session peer valid
  Allowed-Housed w (dm_received dm) (delivered key session line) a = tt
  Allowed-Housed w (dm_received dm) (shut_down key session reason) a = tt
  Allowed-Housed w (sent_echo dm) e a = elim a [ ]
  Allowed-Housed w (other kind raw) e a = elim a [ ]
  Allowed-Housed w (comment text) e a = elim a [ ]

  -- Whatever event arrives: for each session that its handler starts, the call of `spawn_peer` is made
  -- without a panic, with the settings of the peer and with a home directory whose name below the
  -- configured root is made of the first sixteen digits of the key.
  pub handle_sse_event-Housed :
      {Value : Type 0} (env : Env) (d : Daemon) (event : SseEvent Value)
      → (new : List Effect) × ((handle_sse_event env event d).effects ≡ new ++ d.effects)
        × All (Housed join config d.whitelist) new
  handle_sse_event-Housed env d event =
      let s = handle_sse_event-IsServed env d event in
      (s.new, s.grown, All-mono (Allowed-Housed d.whitelist event) s.new s.allowed)

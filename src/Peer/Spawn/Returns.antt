-- ===== src/Peer/Spawn/Returns.antt =====
-- When a session is started.
use loraterm.Common.{ℕ, ◌<◌, ◌≡◌, refl, List, Run, panicked, take, arith}
use loraterm.Config.{Result}
use loraterm.Config.Keys.{IsCanonical, lower_hex-hex, split_at-hex}
use loraterm.Pty.{Setting, PtyError, PtySystem, spawn_bash}
use loraterm.Peer.{start}
use loraterm.Peer.Spawn.{PeerSpawn, Spawned, on_shell, spawn_peer}

-- What is returned for what the shell gave, when all goes well.
abbrev pub started : ℕ → PeerSpawn → Result PtyError (List Setting) → Result PtyError Spawned
started now spawn (Result.err e) = Result.err e
started now spawn (Result.ok command) = Result.ok (record {
  short = take 8 spawn.peer.pubkey;
  command = command;
  session = start spawn.peer spawn.chunking spawn.limits now;
})

-- What the runtime documents of its bounded channels: a depth of 0 is refused with a panic.
abbrev pub IsChannel : (ℕ → Run (Unit {0})) → Type 0
IsChannel channel = ((n : ℕ) → 0 < n → channel n ≡ Run.ok tt) × (channel 0 ≡ panicked)

-- A peer with a canonical key, as a loaded whitelist has them, gets a session exactly if its shell can
-- be started: in its first state, or else with the error of the shell. That is if the channel for
-- input has a depth; with a depth of 0 a shell that was started makes the call panic.
pub spawn_peer-started :
    (pty : PtySystem) (channel : ℕ → Run (Unit {0})) (now : ℕ) (spawn : PeerSpawn)
    → IsChannel channel
    → IsCanonical spawn.peer.pubkey
    → (0 < spawn.limits.inbound_channel_depth
        → spawn_peer pty channel now spawn
          ≡ Run.ok (started now spawn (spawn_bash pty spawn.peer_home)))
      × (spawn.limits.inbound_channel_depth ≡ 0
          → (command : List Setting) → spawn_bash pty spawn.peer_home ≡ Result.ok command
          → spawn_peer pty channel now spawn ≡ panicked)
unfolding spawn_peer
spawn_peer-started pty channel now spawn law canonical =
    let eight =
      (split_at-hex 8 spawn.peer.pubkey (lower_hex-hex spawn.peer.pubkey canonical.hex)
        (omega (arith, canonical.size))).0 in
    (
      (λ deep. rw eight (made (spawn_bash pty spawn.peer_home) deep)),
      (λ flat command spawned. rw (eight, spawned, on_shell, flat, law.1) refl),
    )
  where
    made :
        (shell : Result PtyError (List Setting))
        → 0 < spawn.limits.inbound_channel_depth
        → on_shell channel now spawn (take 8 spawn.peer.pubkey) shell
          ≡ Run.ok (started now spawn shell)
    made (Result.err e) deep = unfold on_shell in refl
    made (Result.ok command) deep =
        rw (on_shell, law.0 spawn.limits.inbound_channel_depth deep) refl

-- ===== src/Peer/Spawn/Tests.antt =====
-- A session that is started, on concrete inputs.
use loraterm.Common.{
  false, ℕ, zero, suc, ◌<◌, ◌≡◌, refl, true, List, none, Run, panicked, replicate, arith,
}
use loraterm.Text.{Text, chars, len, trim, is_ascii_hexdigit, to_ascii_lowercase}
use loraterm.Config.{Result, validate_pubkey, default_limits, default_chunking}
use loraterm.Config.Keys.{IsCanonical, validate_pubkey-IsCanonical}
use loraterm.Pty.{Setting, PtySystem, spawn_bash}
use loraterm.Peer.Spawn.{is_killed, wait_child, PeerSpawn, spawn_peer, running, exited, end_child}
use loraterm.Peer.Spawn.Returns.{started, IsChannel, spawn_peer-started}

abbrev key : Text
key = replicate 64 b'a'

key-IsCanonical : IsCanonical key
unfolding validate_pubkey len trim is_ascii_hexdigit to_ascii_lowercase
key-IsCanonical = (validate_pubkey-IsCanonical key refl).0

abbrev spawn : PeerSpawn
spawn = record {
  peer = record { pubkey = key; nickname = none; idle_timeout = none; dm_max_chars = none };
  peer_home = chars "/srv/peer";
  limits = default_limits;
  chunking = default_chunking;
}

abbrev pty : PtySystem
pty = record {
  create_dir_all = λ path. true;
  openpty = true;
  spawn_command = λ settings. true;
  try_clone_reader = true;
  take_writer = true;
}

abbrev channel : ℕ → Run (Unit {0})
channel zero = panicked
channel (suc n) = Run.ok tt

channel-IsChannel : IsChannel channel
channel-IsChannel = (made, refl)
  where
    made : (n : ℕ) → 0 < n → channel n ≡ Run.ok tt
    made zero h = absurd (omega (arith, h))
    made (suc n) h = refl

spawn_peer-started_example :
    (0 < spawn.limits.inbound_channel_depth
      → spawn_peer pty channel 1000 spawn
        ≡ Run.ok (started 1000 spawn (spawn_bash pty spawn.peer_home)))
    × (spawn.limits.inbound_channel_depth ≡ 0
        → (command : List Setting) → spawn_bash pty spawn.peer_home ≡ Result.ok command
        → spawn_peer pty channel 1000 spawn ≡ panicked)
spawn_peer-started_example =
    spawn_peer-started pty channel 1000 spawn channel-IsChannel key-IsCanonical

-- A child that exits before the third call is not killed.
ends :
    end_child
      (λ i. elim i [ zero ↦ running | suc j ↦ elim j [ zero ↦ running | suc k ↦ exited ] ])
      30
    ≡ (3, false)
unfolding end_child wait_child is_killed
ends = refl

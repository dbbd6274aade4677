-- ===== src/Peer/Spawn.antt =====
-- src/peer.rs: how a session is started (`spawn_peer`), told to shut down (`PeerHandle::shutdown`),
-- and how its shell is ended. The channels of the runtime are a parameter.
pub mod Returns
pub mod Ending
mod Tests
use loraterm.Common.{
  ℕ, zero, suc, ◌+◌, Bool, true, false, List, [], ◌∷◌, Option, none, some, Run, if◌then◌else◌,
  ◌>>=◌,
}
use loraterm.Text.{Text, split_at}
use loraterm.Config.{Result, ValidatedPeer, LimitsConfig, ChunkingConfig}
use loraterm.Pty.{Setting, PtyError, PtySystem, spawn_bash}
use loraterm.Peer.{Session, start}

-- The identity, the client and the shared limiter are only passed on.
pub record PeerSpawn : Type 0 where
  pub peer : ValidatedPeer
  pub peer_home : Text
  pub limits : LimitsConfig
  pub chunking : ChunkingConfig

-- What was started: the label of its log lines, the command of its shell and its first state.
pub record Spawned : Type 0 where
  pub short : Text
  pub command : List Setting
  pub session : Session

-- Behind the shell: the channel for input is made, at the time `now` in seconds.
pub on_shell :
    (ℕ → Run (Unit {0}))
    → ℕ
    → PeerSpawn
    → Text
    → Result PtyError (List Setting)
    → Run (Result PtyError Spawned)
on_shell channel now spawn short (Result.err e) = Run.ok (Result.err e)
on_shell channel now spawn short (Result.ok command) = do
  made ← channel spawn.limits.inbound_channel_depth
  Run.ok (
      Result.ok (record {
        short = short;
        command = command;
        session = start spawn.peer spawn.chunking spawn.limits now;
      }))

-- `spawn_peer`; `channel` makes a bounded channel of a depth.
pub spawn_peer : PtySystem → (ℕ → Run (Unit {0})) → ℕ → PeerSpawn → Run (Result PtyError Spawned)
unfolding on_shell
spawn_peer pty channel now spawn = do
  (short, rest) ← split_at spawn.peer.pubkey 8
  on_shell channel now spawn short (spawn_bash pty spawn.peer_home)

-- `PeerHandle::shutdown`: whether the sender is still there, and the reason that is sent.
pub shutdown : Text → Bool → Bool × Option Text
shutdown reason true = (false, some reason)
shutdown reason false = (false, none)

-- Some calls, with what they send.
pub shutdown_all : List Text → Bool → Bool × List Text
unfolding shutdown
shutdown_all [] tx = (tx, [])
shutdown_all (reason ∷ reasons) tx =
    let (tx', sent) = shutdown reason tx in
    let (tx'', more) = shutdown_all reasons tx' in
    elim sent [ some r ↦ (tx'', r ∷ more) | none ↦ (tx'', more) ]

-- `try_wait`
pub data TryWait : Type 0 where
  exited running failed : TryWait

-- The loop that waits for the child, over what `try_wait` says before the timeout: how many of them
-- were looked at.
pub wait_child : List TryWait → ℕ
wait_child [] = 0
wait_child (running ∷ ws) = suc (wait_child ws)
wait_child (exited ∷ ws) = 1
wait_child (failed ∷ ws) = 1

-- Whether the child is killed, by the last `try_wait`.
pub is_killed : TryWait → Bool
is_killed running = true
is_killed exited = false
is_killed failed = false

-- The end of the child: the polls that were made, and whether it is killed. `says i` is what the call
-- number `i` of `try_wait` says, and `polls` is how many fit in the three seconds.
abbrev pub said : (ℕ → TryWait) → ℕ → ℕ → List TryWait
said says i zero = []
said says i (suc n) = says i ∷ said says (suc i) n

pub end_child : (ℕ → TryWait) → ℕ → ℕ × Bool
unfolding wait_child is_killed
end_child says polls = let n = wait_child (said says 0 polls) in (n, is_killed (says n))

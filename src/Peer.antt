-- ===== src/Peer.antt =====
-- src/peer.rs: the session of one peer. A round of its loop takes the first ready branch of the
-- biased `select!`; what is ready, and whether the shell's input channel takes a line, is the round's
-- input. Times are milliseconds of the clock `Instant` and seconds of the system clock.
pub mod Output
pub mod Typed
pub mod Backlog
pub mod Sender
pub mod Spawn
mod Tests
use loraterm.Common.{
  ℕ, ◌+◌, ◌-◌, ◌/◌, Bool, true, false, List, [], ◌∷◌, ◌++◌, Option, none, some, Run, ok, ltb,
  if◌then◌else◌, ◌>>=◌,
}
use loraterm.Text.{Text, Bytes, chars, trim, to_ascii_lowercase, eq_text, ends_with, as_bytes}
use loraterm.Config.{ValidatedPeer, ChunkingConfig, LimitsConfig}
use loraterm.Chunker.Format.{ChunkerOpts}
use loraterm.Chunker.{new, Chunker, push, maybe_flush, flush_force}

-- `eq_ignore_ascii_case` compares the texts in lower case; `ends_with` on the payload's bytes.
unfoldable pub encode_pty_input : Text → Bytes
encode_pty_input line =
    if eq_text (to_ascii_lowercase (trim line)) (chars "[ctrl-c]")
    then 3 ∷ []
    else (if ends_with b'\n' (as_bytes line) then as_bytes line else as_bytes line ++ b'\n' ∷ [])

-- The actor and what it did: the bytes it read from the shell, the payloads it handed to the channel
-- of the terminal, newest first, and the chunks it offered to the queue of the sender, oldest first.
pub record Session : Type 0 where
  pub chunker : Chunker
  pub last_activity : ℕ
  pub heard : Bytes
  pub typed : List Bytes
  pub offered : List Text

abbrev pub unwrap_or {ℓ} : {A : Type ℓ} → Option A → A → A
unwrap_or (some a) b = a
unwrap_or none b = b

-- The settings of the actor, and its state before the loop; `idle_timeout` is used in seconds.
unfoldable pub chunker_opts : ValidatedPeer → ChunkingConfig → LimitsConfig → ChunkerOpts
chunker_opts peer chunking limits = record {
  max_chars = unwrap_or peer.dm_max_chars chunking.dm_max_chars;
  number_chunks = chunking.number_chunks;
  flush_silence = chunking.flush_silence;
  burst_chunk_cap = limits.burst_chunk_cap;
}

unfoldable pub idle_secs : ValidatedPeer → LimitsConfig → ℕ
idle_secs peer limits = unwrap_or peer.idle_timeout limits.idle_timeout / 1000

unfoldable pub start : ValidatedPeer → ChunkingConfig → LimitsConfig → ℕ → Session
start peer chunking limits now = record {
  chunker = new (chunker_opts peer chunking limits);
  last_activity = now;
  heard = [];
  typed = [];
  offered = [];
}

-- A closed channel yields `none` inside.
pub record Round : Type 0 where
  pub instant : ℕ
  pub now : ℕ
  pub stop : Option (Option Text)
  pub tick : Bool
  pub silence : Bool
  pub line : Option (Option Text)
  pub takes_input : Bool
  pub output : Option (Option Bytes)

-- The state behind a branch, and the reason if the loop ends.
abbrev pub Step : Type 0
Step = Session × Option Text

module _ (strip : Bytes → Bytes) (idle_timeout : ℕ) where
  unfoldable pub on_output : Round → Session → Option (Option Bytes) → Run Step
  on_output r s none = ok (s, none)
  on_output r s (some none) = ok (s, some (chars "pty_eof"))
  on_output r s (some (some bytes)) = do
    (chunker, chunks) ← push strip s.chunker r.instant bytes
    ok (
      record s {
        chunker = chunker;
        last_activity = r.now;
        heard = s.heard ++ bytes;
        offered = s.offered ++ chunks;
      },
      none,
    )

  unfoldable pub on_line : Round → Session → Option (Option Text) → Run Step
  unfolding on_output
  on_line r s none = on_output r s r.output
  on_line r s (some none) = ok (s, some (chars "input_closed"))
  on_line r s (some (some line)) =
      if r.takes_input
      then ok (record s { last_activity = r.now; typed = encode_pty_input line ∷ s.typed }, none)
      else ok (record s { last_activity = r.now }, some (chars "pty_closed"))

  unfoldable pub on_silence : Round → Session → Bool → Run Step
  on_silence r s true = do
    (chunker, chunks) ← maybe_flush strip s.chunker r.instant
    ok (record s { chunker = chunker; offered = s.offered ++ chunks }, none)
  on_silence r s false = on_line r s r.line

  unfoldable pub on_tick : Round → Session → Bool → Run Step
  on_tick r s true =
      if ltb idle_timeout (r.now - s.last_activity)
      then ok (s, some (chars "idle"))
      else ok (s, none)
  on_tick r s false = on_silence r s r.silence

  -- `reason.unwrap_or("shutdown")`
  unfoldable pub on_stop : Round → Session → Option (Option Text) → Run Step
  on_stop r s none = on_tick r s r.tick
  on_stop r s (some none) = ok (s, some (chars "shutdown"))
  on_stop r s (some (some reason)) = ok (s, some reason)

  unfoldable pub round : Round → Session → Run Step
  round r s = on_stop r s r.stop

  -- Behind the loop: the rest of the output is offered, then the farewell.
  unfoldable pub farewell : Session → Text → Run Session
  farewell s reason = do
    (chunker, chunks) ← flush_force strip s.chunker
    ok (record s {
      chunker = chunker;
      offered = s.offered ++ chunks ++ (chars "session closed: " ++ reason) ∷ [];
    })

  -- The loop over the rounds there are; the flag says that it ended.
  pub run : List Round → Session → Run (Session × Bool)
  run [] s = ok (s, false)
  run (r ∷ rs) s = do
    (s', ending) ← round r s
    elim ending [ none ↦ run rs s' | some reason ↦ (farewell s' reason >>= λ end. ok (end, true)) ]

-- What `try_send` says.
pub data TrySend : Type 0 where
  sent full closed : TrySend

abbrev pub backlog : Text
backlog = chars "[output truncated — sender backlog]"

-- The `while` loop that tries to queue the marker, with what each `try_send` says: what it queues
-- and how many were called. It is left when `dropped` is above 5.
pub try_marker : ℕ → List TrySend → List Text × ℕ
try_marker dropped [] = ([], 0)
try_marker dropped (sent ∷ os) = (backlog ∷ [], 1)
try_marker dropped (o ∷ os) =
    let (queued, calls) = try_marker (dropped + 1) os in
    if ltb 5 (dropped + 1) then ([], 1) else (queued, calls + 1)

-- `enqueue_chunk`
pub enqueue_chunk : Text → List TrySend → List Text × ℕ
enqueue_chunk chunk [] = ([], 0)
enqueue_chunk chunk (sent ∷ os) = (chunk ∷ [], 1)
enqueue_chunk chunk (closed ∷ os) = ([], 1)
enqueue_chunk chunk (full ∷ os) = let (queued, calls) = try_marker 1 os in (queued, calls + 1)

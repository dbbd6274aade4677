-- ===== src/Peer/Backlog.antt =====
-- A chunk for a queue that may be full (`enqueue_chunk`).
use loraterm.Common.{
  if◌then◌else◌, zero, suc, Bool, true, false, any, take, false, true, Bool, ℕ, ◌+◌, ◌≤◌, ◌≡◌, refl,
  List, [], ◌∷◌, arith,
}
use loraterm.Text.{Text}
use loraterm.Peer.{TrySend, sent, full, closed, backlog, try_marker, enqueue_chunk}

abbrev pub is_sent : TrySend → Bool
is_sent sent = true
is_sent full = false
is_sent closed = false

-- With some attempts left the marker is queued if one of them succeeds.
try_marker_lem :
    (left dropped : ℕ) (os : List TrySend)
    → left + dropped ≡ 5
    → ((try_marker dropped os).1 ≤ left + 1)
      × ((try_marker dropped os).0
          ≡ (if any is_sent (take (suc left) os) then backlog ∷ [] else []))
unfolding try_marker
try_marker_lem left dropped [] h = (omega arith, refl)
try_marker_lem left dropped (sent ∷ os) h = (omega arith, refl)
try_marker_lem zero dropped (full ∷ os) h = ground (arith, h)
try_marker_lem zero dropped (closed ∷ os) h = ground (arith, h)
try_marker_lem (suc left) dropped (full ∷ os) h =
    ground (arith, try_marker_lem left (dropped + 1) os (omega arith))
try_marker_lem (suc left) dropped (closed ∷ os) h =
    ground (arith, try_marker_lem left (dropped + 1) os (omega arith))

-- What is queued, by what the calls say: the chunk if the first call takes it; nothing if that finds
-- the channel closed; and if that finds it full, the marker if one of the next five calls takes it,
-- and otherwise nothing.
abbrev pub Queued : Text → List TrySend → List Text → Type 0
Queued chunk [] queued = queued ≡ []
Queued chunk (sent ∷ os) queued = queued ≡ chunk ∷ []
Queued chunk (closed ∷ os) queued = queued ≡ []
Queued chunk (full ∷ os) queued = queued ≡ (if any is_sent (take 5 os) then backlog ∷ [] else [])

-- Whatever `try_send` says, `enqueue_chunk` calls it at most six times, so it never waits for the
-- queue. It queues the chunk exactly if the first call takes it; if the first call finds the channel
-- full, it queues in its place the marker that says that output was dropped, if one of the next five
-- calls takes that; otherwise it queues nothing.
pub enqueue_chunk_lem :
    (chunk : Text) (os : List TrySend)
    → ((enqueue_chunk chunk os).1 ≤ 6) × Queued chunk os (enqueue_chunk chunk os).0
unfolding enqueue_chunk
enqueue_chunk_lem chunk [] = (omega arith, refl)
enqueue_chunk_lem chunk (sent ∷ os) = (omega arith, refl)
enqueue_chunk_lem chunk (closed ∷ os) = (omega arith, refl)
enqueue_chunk_lem chunk (full ∷ os) =
    let (calls, queued) = try_marker_lem 4 1 os refl in (omega (arith, calls), queued)

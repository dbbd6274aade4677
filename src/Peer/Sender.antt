-- ===== src/Peer/Sender.antt =====
-- src/peer.rs, `SenderTask`, and the queue of chunks between the session and it. The queue is the
-- bounded channel `chunk_tx`; the sender takes a chunk whenever it is scheduled.
pub mod Task
pub mod Order
pub mod Room
pub mod Farewell
mod Tests
use loraterm.Common.{ℕ, zero, suc, ◌+◌, Bool, List, [], ◌∷◌, ◌++◌, max, ltb, if◌then◌else◌, length}
use loraterm.Text.{Text}
use loraterm.Config.{LimitsConfig}
use loraterm.Peer.{TrySend, sent, full, enqueue_chunk}

-- The limits of the sender's own limiter: milliseconds between messages, at least 100, and how many
-- may go at once, at least one.
pub per_peer_period : LimitsConfig → ℕ
per_peer_period limits = max limits.per_peer_period 100

pub per_peer_burst : LimitsConfig → ℕ
per_peer_burst limits = max limits.per_peer_burst 1

-- The channel: its depth, the chunks in it, and those that the sender took, both oldest first.
pub record Queue : Type 0 where
  pub depth : ℕ
  pub held : List Text
  pub taken : List Text

pub take_from : Queue → List Text → Queue
take_from q [] = q
take_from q (chunk ∷ chunks) = record q { held = chunks; taken = q.taken ++ chunk ∷ [] }

-- The sender is scheduled a number of times.
pub advance : ℕ → Queue → Queue
unfolding take_from
advance zero q = q
advance (suc n) q = advance n (take_from q q.held)

-- What the first calls of `try_send` say, if before call `i` the sender is scheduled `pops i` times.
-- A call that finds no room changes nothing.
pub outcomes : ℕ → ℕ → (ℕ → ℕ) → Queue → List TrySend
outcomes zero i pops q = []
outcomes (suc n) i pops q =
    let rest = outcomes n (suc i) pops (advance (pops i) q) in
    if ltb (length (advance (pops i) q).held) q.depth then sent ∷ [] else full ∷ rest

-- The queue as the sender leaves it before the last of some calls.
pub advance_all : ℕ → ℕ → (ℕ → ℕ) → Queue → Queue
advance_all zero i pops q = q
advance_all (suc n) i pops q = advance_all n (suc i) pops (advance (pops i) q)

abbrev pub put : List Text → Queue → Queue
put queued q = record q { held = q.held ++ queued }

-- `enqueue_chunk` on this channel, which calls `try_send` six times at most.
pub offer : Text → (ℕ → ℕ) → Queue → Queue
offer chunk pops q =
    let (queued, calls) = enqueue_chunk chunk (outcomes 6 0 pops q) in
    put queued (advance_all calls 0 pops q)

pub offer_all : List (Text × (ℕ → ℕ)) → Queue → Queue
unfolding offer
offer_all [] q = q
offer_all ((chunk, pops) ∷ offers) q = offer_all offers (offer chunk pops q)

-- What is left at the end of a session is offered by `try_send` alone: a chunk that finds no room is
-- dropped. The sender is scheduled `pops` times before it.
pub try_offer : Text → ℕ → Queue → Queue
unfolding advance
try_offer chunk pops q =
    let q' = advance pops q in if ltb (length q'.held) q'.depth then put (chunk ∷ []) q' else q'

pub try_offer_all : List (Text × ℕ) → Queue → Queue
unfolding try_offer
try_offer_all [] q = q
try_offer_all ((chunk, pops) ∷ offers) q = try_offer_all offers (try_offer chunk pops q)

-- The session has dropped its end, and the sender takes what is left.
pub drain : Queue → Queue
drain q = advance (length q.held) q

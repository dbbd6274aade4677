-- ===== src/Peer/Sender/Room.antt =====
-- What a queue with room loses: nothing.
use mathlib.Core.List.{append_assoc, append-nil}
use loraterm.Common.{
  ℕ, suc, ◌+◌, ◌≤◌, ◌≡◌, refl, sym, ap, ◌∙◌, List, [], ◌∷◌, ◌++◌, map, length, length-append, ok,
  arith,
}
use loraterm.Text.{Text}
use loraterm.Chunker.Format.{ChunkerOpts, chunks_from_text}
use loraterm.Chunker.Format.Contract.{chunks_from_text-IsNumbered}
use loraterm.Peer.Sender.{Queue, advance, put, offer_all, drain}
use loraterm.Peer.Sender.Order.{
  accepted, accepted-advance, accepted-put, advance_lem, offer_room, taken-drain,
}

-- The chunks of some offers.
abbrev pub chunks_of : List (Text × (ℕ → ℕ)) → List Text
chunks_of offers = map (λ o. o.0) offers

pub accepted-offer_all :
    (offers : List (Text × (ℕ → ℕ))) (q : Queue)
    → length q.held + length offers ≤ q.depth
    → accepted (offer_all offers q) ≡ accepted q ++ chunks_of offers
unfolding offer_all
accepted-offer_all [] q room = sym (append-nil (accepted q))
accepted-offer_all ((chunk, pops) ∷ offers) q room =
    let e = offer_room chunk pops q (omega arith) in
    let q' : Queue = put (chunk ∷ []) (advance (pops 0) q) in
    let held : length q'.held + length offers ≤ q'.depth =
      omega (arith, advance_lem (pops 0) q, length-append (advance (pops 0) q).held (chunk ∷ [])) in
    ap (λ r. accepted (offer_all offers r)) e
    ∙ accepted-offer_all offers q' held
    ∙ ap (λ l. l ++ chunks_of offers)
        (accepted-put (chunk ∷ []) (advance (pops 0) q)
          ∙ ap (λ l. l ++ chunk ∷ []) (accepted-advance (pops 0) q))
    ∙ append_assoc (accepted q) (chunk ∷ []) (chunks_of offers)

-- The chunks of one flush, with the marker for what is above the burst cap, are all posted, in
-- order and behind what the queue held before, however the sender is scheduled: if that with the
-- burst cap and one more is at most the depth of the queue.
pub chunks_from_text-posted :
    (text : Text) (opts : ChunkerOpts) (q : Queue) (offers : List (Text × (ℕ → ℕ)))
    → chunks_from_text text opts ≡ ok (chunks_of offers)
    → length q.held + opts.burst_chunk_cap + 1 ≤ q.depth
    → (drain (offer_all offers q)).taken ≡ q.taken ++ q.held ++ chunks_of offers
chunks_from_text-posted text opts q offers returned room =
    taken-drain (offer_all offers q) ∙ accepted-offer_all offers q few
  where
    length-chunks_of : (os : List (Text × (ℕ → ℕ))) → length (chunks_of os) ≡ length os
    length-chunks_of [] = refl
    length-chunks_of (o ∷ os) = ap suc (length-chunks_of os)

    few : length q.held + length offers ≤ q.depth
    few =
        ground
          (arith, (chunks_from_text-IsNumbered text opts returned).cap, length-chunks_of offers)

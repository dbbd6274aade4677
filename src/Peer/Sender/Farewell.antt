-- ===== src/Peer/Sender/Farewell.antt =====
-- A session and its sender to the end: what the shell printed is posted.
use mathlib.Core.List.{append_assoc, append-nil}
use loraterm.Common.{
  ℕ, ◌+◌, ◌≤◌, ◌<◌, ◌≡◌, refl, sym, ap, ◌∙◌, true, List, [], ◌∷◌, ◌++◌, map, length, length-append,
  ok, arith, ltb, Option,
}
use loraterm.Text.{Text, Bytes}
use loraterm.Config.{ValidatedPeer, ChunkingConfig, LimitsConfig}
use loraterm.Peer.{Session, Round, run, start, idle_secs, chunker_opts}
use loraterm.Peer.Output.{IsComplete, run-IsComplete}
use loraterm.Peer.Sender.{Queue, advance, put, offer_all, try_offer, try_offer_all, drain}
use loraterm.Client.Http.{Request, Response}
use loraterm.Peer.Sender.Task.{SenderTask, send_all, IsSent, send_all-IsSent}
use loraterm.Peer.Sender.Order.{
  accepted, accepted-advance, accepted-put, advance_lem, offer_room, taken-drain,
}
use loraterm.Peer.Sender.Room.{chunks_of, accepted-offer_all}

abbrev pub last_chunks : List (Text × ℕ) → List Text
last_chunks offers = map (λ o. o.0) offers

-- With room, the offers of the loop fill the queue by one chunk at most each.
offer_all-room :
    (offers : List (Text × (ℕ → ℕ))) (q : Queue)
    → length q.held + length offers ≤ q.depth
    → ((offer_all offers q).depth ≡ q.depth)
      × (length (offer_all offers q).held ≤ length q.held + length offers)
unfolding offer_all
offer_all-room [] q room = (refl, omega arith)
offer_all-room ((chunk, pops) ∷ offers) q room =
    let e = offer_room chunk pops q (omega (arith, room)) in
    let q' : Queue = put (chunk ∷ []) (advance (pops 0) q) in
    let (depth, held) = advance_lem (pops 0) q in
    let grown = length-append (advance (pops 0) q).held (chunk ∷ []) in
    let (depth', held') = offer_all-room offers q' (omega (arith, room, depth, held, grown)) in
    rw (offer_all, e) (depth' ∙ depth, omega (arith, held', held, grown))

try_offer_room :
    (chunk : Text) (pops : ℕ) (q : Queue)
    → length q.held < q.depth
    → try_offer chunk pops q ≡ put (chunk ∷ []) (advance pops q)
unfolding try_offer
try_offer_room chunk pops q room =
    let free : ltb (length (advance pops q).held) (advance pops q).depth ≡ true =
      ground (arith, advance_lem pops q, room) in
    rw free refl

accepted-try_offer_all :
    (offers : List (Text × ℕ)) (q : Queue)
    → length q.held + length offers ≤ q.depth
    → accepted (try_offer_all offers q) ≡ accepted q ++ last_chunks offers
unfolding try_offer_all
accepted-try_offer_all [] q room = sym (append-nil (accepted q))
accepted-try_offer_all ((chunk, pops) ∷ offers) q room =
    let q' : Queue = put (chunk ∷ []) (advance pops q) in
    let fits : length q'.held + length offers ≤ q'.depth =
      omega (arith, room, advance_lem pops q, length-append (advance pops q).held (chunk ∷ [])) in
    ap (λ r. accepted (try_offer_all offers r)) (try_offer_room chunk pops q (omega (arith, room)))
    ∙ accepted-try_offer_all offers q' fits
    ∙ ap (λ l. l ++ last_chunks offers)
        (accepted-put (chunk ∷ []) (advance pops q)
          ∙ ap (λ l. l ++ chunk ∷ []) (accepted-advance pops q))
    ∙ append_assoc (accepted q) (chunk ∷ []) (last_chunks offers)

-- A queue with nothing in it.
abbrev pub fresh : ℕ → Queue
fresh depth = record { depth = depth; held = []; taken = [] }

-- From the shell to the messages: of a session that ends the sender tries all that the session
-- offered, each chunk once and in order, the farewell last, behind both limiters; it posts those
-- whose request is answered with a success, and the others are lost. What is offered is complete for
-- what the shell printed. This holds however the sender is scheduled and however the chunks are split
-- between the loop and its end, if the queue is as deep as there are chunks in the session.
pub run-posted :
    (strip : Bytes → Bytes) (peer : ValidatedPeer) (chunking : ChunkingConfig)
    (limits : LimitsConfig) (now : ℕ) (rounds : List Round) {s : Session}
    (offers : List (Text × (ℕ → ℕ))) (at_the_end : List (Text × ℕ)) (t : SenderTask)
    (send : ℕ → Request → Option Response)
    → run strip (idle_secs peer limits) rounds (start peer chunking limits now) ≡ ok (s, true)
    → s.offered ≡ chunks_of offers ++ last_chunks at_the_end
    → length offers + length at_the_end ≤ limits.outbound_channel_depth
    → IsSent t send 0 s.offered (
        send_all t send 0
          (drain (
            try_offer_all at_the_end
              (offer_all offers (fresh limits.outbound_channel_depth)))).taken)
      × IsComplete strip (chunker_opts peer chunking limits) s
run-posted strip peer chunking limits now rounds {s} offers at_the_end t send ran split room =
    let (depth_kept, held) =
      offer_all-room offers (fresh limits.outbound_channel_depth) (omega (arith, room)) in
    let all_taken =
      taken-drain
        (try_offer_all at_the_end (offer_all offers (fresh limits.outbound_channel_depth)))
      ∙ accepted-try_offer_all at_the_end (offer_all offers (fresh limits.outbound_channel_depth))
          (omega (arith, depth_kept, held, room))
      ∙ ap (λ l. l ++ last_chunks at_the_end)
          (accepted-offer_all offers (fresh limits.outbound_channel_depth) (omega (arith, room)))
      ∙ sym split in
    (
      rw all_taken (send_all-IsSent t send 0 s.offered),
      run-IsComplete strip peer chunking limits now rounds ran,
    )

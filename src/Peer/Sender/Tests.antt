-- ===== src/Peer/Sender/Tests.antt =====
-- The queue of a session on concrete inputs.
use loraterm.Common.{ℕ, zero, suc, Option, none, some, ◌≡◌, refl, List, [], ◌∷◌, ◌++◌, arith}
use loraterm.Text.{Text, chars}
use loraterm.Peer.{backlog, enqueue_chunk, try_marker}
use loraterm.Peer.Sender.{Queue, drain, offer_all, offer, outcomes, advance, advance_all, take_from}
use loraterm.Client.Http.{Request, Response, is_success, send_dm}
use loraterm.Peer.Sender.Task.{SenderTask, IsSent, posts, send_one, send_all}
use loraterm.Peer.Sender.Order.{Kept, Fits, offer_all-IsPosted}

abbrev queue : Queue
queue = record { depth = 2; held = chars "a" ∷ []; taken = [] }

-- The sender is not scheduled before the second call of `try_send` for the third chunk.
abbrev offers : List (Text × (ℕ → ℕ))
offers = (chars "b", λ i. 0) ∷ (chars "c", λ i. 1) ∷ (chars "d", λ i. i) ∷ []

offer-offers :
    offer_all offers queue
    ≡ record { depth = 2; held = chars "c" ∷ backlog ∷ []; taken = chars "a" ∷ chars "b" ∷ [] }
unfolding offer_all offer outcomes advance advance_all take_from enqueue_chunk try_marker
offer-offers = refl

abbrev task : SenderTask
task = record {
  client = record { base_url = chars "http://h"; authorization = chars "Bearer s" };
  identity_id = chars "me";
  peer_pubkey = chars "aa";
}

-- The second request is answered with an error, and the third one not at all.
abbrev answers : ℕ → Request → Option Response
answers zero request = some (record { status = 200; text = none; bytes = none })
answers (suc zero) request = some (record { status = 500; text = none; bytes = none })
answers (suc (suc zero)) request = none
answers (suc (suc (suc n))) request = some (record { status = 200; text = none; bytes = none })

send_all-drained :
    posts (send_all task answers 0 (drain (offer_all offers queue)).taken)
    ≡ chars "a" ∷ backlog ∷ []
unfolding send_all send_one send_dm offer_all offer outcomes advance advance_all take_from
    enqueue_chunk try_marker drain is_success
send_all-drained = refl

offer_all-IsPosted_example :
    (kept : List Text) × Kept offers queue kept
    × IsSent task answers 0
        (queue.taken ++ queue.held ++ kept)
        (send_all task answers 0 (drain (offer_all offers queue)).taken)
    × Fits (offer_all offers queue)
offer_all-IsPosted_example = offer_all-IsPosted task answers offers queue (omega arith)

-- ===== src/Peer/Sender/Task.antt =====
-- src/peer.rs, `SenderTask`: what it does with the chunks that it receives. What the network answers
-- is a parameter, and the limiters only wait.
use loraterm.Common.{
  sym, ℕ, suc, ◌≡◌, refl, ap, ◌∙◌, Bool, true, false, inl, inr, List, [], ◌∷◌, ◌++◌, Option, none,
  some, Bool-cases, Option-cases, if◌then◌else◌,
}
use loraterm.Text.{Text}
use loraterm.Config.{ok, err}
use loraterm.Client.Http.{CompanionClient, Request, Response, is_success, dm_request, send_dm}

pub record SenderTask : Type 0 where
  pub client : CompanionClient
  pub identity_id : Text
  pub peer_pubkey : Text

-- What the sender does for a chunk: it waits for the limiter of the peer and for that of all peers,
-- and posts the chunk. A chunk that `send_dm` fails for is dropped.
pub data Act : Type 0 where
  waited_peer waited_global : Act
  posted dropped : Text → Act

unfoldable pub send_one : SenderTask → (Request → Option Response) → Text → List Act
send_one t send chunk =
    waited_peer
    ∷ waited_global
    ∷ (elim (send_dm send t.client t.identity_id t.peer_pubkey chunk) [
      | ok done ↦ posted chunk
      | err e ↦ dropped chunk
    ])
    ∷ []

-- The loop of `SenderTask::run` over the chunks that it receives. `send i` is what the network
-- answers from the `i`-th request on this channel.
unfoldable pub send_all : SenderTask → (ℕ → Request → Option Response) → ℕ → List Text → List Act
unfolding send_one
send_all t send i [] = []
send_all t send i (chunk ∷ chunks) = send_one t (send i) chunk ++ send_all t send (suc i) chunks

-- The chunks that were tried, and those that were posted.
abbrev pub tried : List Act → List Text
tried [] = []
tried (waited_peer ∷ acts) = tried acts
tried (waited_global ∷ acts) = tried acts
tried (posted chunk ∷ acts) = chunk ∷ tried acts
tried (dropped chunk ∷ acts) = chunk ∷ tried acts

abbrev pub posts : List Act → List Text
posts [] = []
posts (waited_peer ∷ acts) = posts acts
posts (waited_global ∷ acts) = posts acts
posts (posted chunk ∷ acts) = chunk ∷ posts acts
posts (dropped chunk ∷ acts) = posts acts

-- A wait for each of the limiters is in front of each attempt, and behind nothing but an attempt.
abbrev pub limited : List Act → Bool
limited (waited_peer ∷ waited_global ∷ posted chunk ∷ acts) = limited acts
limited (waited_peer ∷ waited_global ∷ dropped chunk ∷ acts) = limited acts
limited [] = true
limited acts = false

-- The request was answered with a success.
abbrev pub answered : Option Response → Bool
answered none = false
answered (some resp) = is_success resp.status

-- The chunks that the service takes: those whose request, with the identity, the peer and the chunk,
-- is answered with a success.
abbrev pub delivered : SenderTask → (ℕ → Request → Option Response) → ℕ → List Text → List Text
delivered t send i [] = []
delivered t send i (chunk ∷ chunks) =
    let rest = delivered t send (suc i) chunks in
    if answered (send i (dm_request t.client t.identity_id t.peer_pubkey chunk))
    then chunk ∷ rest
    else rest

-- What the sender made of chunks, behind `i` earlier ones: each was tried once, in order, and behind
-- both limiters; those that the service took are posted, and the others are gone.
pub record IsSent (t : SenderTask) (send : ℕ → Request → Option Response) (i : ℕ)
    (chunks : List Text) (acts : List Act) : Type 0 where
  pub order : tried acts ≡ chunks
  pub waits : limited acts ≡ true
  pub taken : posts acts ≡ delivered t send i chunks

delivered_cons :
    (t : SenderTask) (send : ℕ → Request → Option Response) (i : ℕ) (chunk : Text)
    (chunks : List Text) {b : Bool}
    → answered (send i (dm_request t.client t.identity_id t.peer_pubkey chunk)) ≡ b
    → delivered t send i (chunk ∷ chunks)
      ≡ (if b then chunk ∷ delivered t send (suc i) chunks else delivered t send (suc i) chunks)
delivered_cons t send i chunk chunks e =
    let rest = delivered t send (suc i) chunks in ap (λ b. if b then chunk ∷ rest else rest) e

pub send_all-IsSent :
    (t : SenderTask) (send : ℕ → Request → Option Response) (i : ℕ) (chunks : List Text)
    → IsSent t send i chunks (send_all t send i chunks)
unfolding send_all send_one send_dm
send_all-IsSent t send i [] = record { order = refl; waits = refl; taken = refl }
send_all-IsSent t send i (chunk ∷ chunks) =
    let r = send_all-IsSent t send (suc i) chunks in
    elim (Option-cases (send i (dm_request t.client t.identity_id t.peer_pubkey chunk))) [
      | inl lost ↦
          let gone = r.taken ∙ sym (delivered_cons t send i chunk chunks (ap answered lost)) in
          rw lost (record { order = ap (◌∷◌ chunk) r.order; waits = r.waits; taken = gone })
      | inr (resp, got) ↦ elim (Bool-cases (is_success resp.status)) [
        | inl success ↦
            let kept =
              ap (◌∷◌ chunk) r.taken
              ∙ sym (delivered_cons t send i chunk chunks (ap answered got ∙ success)) in
            rw (got, success)
              (record { order = ap (◌∷◌ chunk) r.order; waits = r.waits; taken = kept })
        | inr failed ↦
            let gone =
              r.taken ∙ sym (delivered_cons t send i chunk chunks (ap answered got ∙ failed)) in
            rw (got, failed)
              (record { order = ap (◌∷◌ chunk) r.order; waits = r.waits; taken = gone })
      ]
    ]

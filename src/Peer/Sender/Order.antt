-- ===== src/Peer/Sender/Order.antt =====
-- The queue keeps the order of the chunks, and drops none while it has room.
use mathlib.Core.List.{append_assoc, append-nil}
use loraterm.Common.{
  Option, Bool, false, ◌||◌, any, take, if◌then◌else◌, ℕ, zero, suc, ◌+◌, ◌≤◌, ◌<◌, ◌≡◌, refl, sym,
  ap, subst, ◌∙◌, inl, inr, true, List, [], ◌∷◌, ◌++◌, length, length-append, ltb, Bool-cases,
  arith,
}
use loraterm.Text.{Text}
use loraterm.Peer.{backlog, try_marker, enqueue_chunk}
use loraterm.Peer.Backlog.{is_sent, enqueue_chunk_lem}
use loraterm.Client.Http.{Request, Response}
use loraterm.Peer.Sender.Task.{SenderTask, send_all, IsSent, send_all-IsSent}
use loraterm.Peer.Sender.{
  Queue, take_from, advance, outcomes, advance_all, put, offer, offer_all, drain,
}

-- All that went into the queue, oldest first.
abbrev pub accepted : Queue → List Text
accepted q = q.taken ++ q.held

accepted-take_from :
    (q : Queue) (held : List Text) → q.held ≡ held → accepted (take_from q held) ≡ accepted q
unfolding take_from
accepted-take_from q [] e = refl
accepted-take_from q (chunk ∷ chunks) e =
    append_assoc q.taken (chunk ∷ []) chunks ∙ ap (◌++◌ q.taken) (sym e)

pub accepted-advance : (n : ℕ) (q : Queue) → accepted (advance n q) ≡ accepted q
unfolding advance
accepted-advance zero q = refl
accepted-advance (suc n) q =
    accepted-advance n (take_from q q.held) ∙ accepted-take_from q q.held refl

accepted-advance_all :
    (n i : ℕ) (pops : ℕ → ℕ) (q : Queue) → accepted (advance_all n i pops q) ≡ accepted q
unfolding advance_all
accepted-advance_all zero i pops q = refl
accepted-advance_all (suc n) i pops q =
    accepted-advance_all n (suc i) pops (advance (pops i) q) ∙ accepted-advance (pops i) q

-- The depth stays, and the sender only makes room.
take_from_lem :
    (q : Queue) (held : List Text)
    → q.held ≡ held
    → ((take_from q held).depth ≡ q.depth) × (length (take_from q held).held ≤ length q.held)
unfolding take_from
take_from_lem q [] e = (refl, omega arith)
take_from_lem q (chunk ∷ chunks) e = (refl, omega (arith, ap length e))

pub advance_lem :
    (n : ℕ) (q : Queue)
    → ((advance n q).depth ≡ q.depth) × (length (advance n q).held ≤ length q.held)
unfolding advance
advance_lem zero q = (refl, omega arith)
advance_lem (suc n) q =
    let (depth, held) = advance_lem n (take_from q q.held) in
    let (depth', held') = take_from_lem q q.held refl in (depth ∙ depth', omega arith)

abbrev pub Fits : Queue → Type 0
Fits q = length q.held ≤ q.depth

advance_all_lem :
    (n i : ℕ) (pops : ℕ → ℕ) (q : Queue)
    → ((advance_all n i pops q).depth ≡ q.depth)
      × (length (advance_all n i pops q).held ≤ length q.held)
unfolding advance_all
advance_all_lem zero i pops q = (refl, omega arith)
advance_all_lem (suc n) i pops q =
    let (depth, held) = advance_all_lem n (suc i) pops (advance (pops i) q) in
    let (depth', held') = advance_lem (pops i) q in (depth ∙ depth', omega arith)

-- With room before the first call the chunk is queued.
pub offer_room :
    (chunk : Text) (pops : ℕ → ℕ) (q : Queue)
    → length q.held < q.depth
    → offer chunk pops q ≡ put (chunk ∷ []) (advance (pops 0) q)
unfolding offer outcomes enqueue_chunk advance_all
offer_room chunk pops q room =
    let free : ltb (length (advance (pops 0) q).held) q.depth ≡ true =
      ground (arith, (advance_lem (pops 0) q).1) in
    rw free refl

advance-Fits : (n : ℕ) (q : Queue) → Fits q → Fits (advance n q)
advance-Fits n q h = omega (arith, advance_lem n q)

put_nothing-Fits : (q : Queue) → Fits q → Fits (put [] q)
put_nothing-Fits q h = omega (arith, length-append q.held [])

put_one-Fits :
    (n : ℕ) (q : Queue) (chunk : Text)
    → ltb (length (advance n q).held) q.depth ≡ true
    → Fits (put (chunk ∷ []) (advance n q))
put_one-Fits n q chunk room =
    ground (arith, advance_lem n q, length-append (advance n q).held (chunk ∷ []))

-- The queue behind calls that queued something and their number.
abbrev behind : List Text × ℕ → ℕ → (ℕ → ℕ) → Queue → Queue
behind (queued, calls) i pops q = put queued (advance_all calls i pops q)

behind_suc :
    (r : List Text × ℕ) (i : ℕ) (pops : ℕ → ℕ) (q : Queue)
    → behind (r.0, r.1 + 1) i pops q ≡ behind r (suc i) pops (advance (pops i) q)
unfolding advance_all
behind_suc (queued, calls) i pops q = let e : calls + 1 ≡ suc calls = omega arith in rw e refl

try_marker-Fits :
    (n dropped i : ℕ) (pops : ℕ → ℕ) (q : Queue)
    → Fits q
    → Fits (behind (try_marker dropped (outcomes n i pops q)) i pops q)
unfolding try_marker outcomes advance_all
try_marker-Fits zero dropped i pops q h = put_nothing-Fits q h
try_marker-Fits (suc n) dropped i pops q h =
    elim (Bool-cases (ltb (length (advance (pops i) q).held) q.depth)) [
      | inl room ↦ rw room (put_one-Fits (pops i) q backlog room)
      | inr crowded ↦ elim (Bool-cases (ltb 5 (dropped + 1))) [
        | inl last ↦
            rw (crowded, last) (put_nothing-Fits (advance (pops i) q) (advance-Fits (pops i) q h))
        | inr more ↦
            rw (crowded, more)
              (subst Fits
                (sym (
                  behind_suc
                    (try_marker (dropped + 1) (outcomes n (suc i) pops (advance (pops i) q))) i pops
                    q))
                (try_marker-Fits n (dropped + 1) (suc i) pops (advance (pops i) q)
                  (advance-Fits (pops i) q h)))
      ]
    ]

enqueue_chunk-Fits :
    (n : ℕ) (chunk : Text) (pops : ℕ → ℕ) (q : Queue)
    → Fits q
    → Fits (behind (enqueue_chunk chunk (outcomes (suc n) 0 pops q)) 0 pops q)
unfolding outcomes enqueue_chunk advance_all
enqueue_chunk-Fits n chunk pops q h =
    elim (Bool-cases (ltb (length (advance (pops 0) q).held) q.depth)) [
      | inl room ↦ rw room (put_one-Fits (pops 0) q chunk room)
      | inr crowded ↦ rw crowded (
          subst Fits
            (sym (behind_suc (try_marker 1 (outcomes n 1 pops (advance (pops 0) q))) 0 pops q))
            (try_marker-Fits n 1 1 pops (advance (pops 0) q) (advance-Fits (pops 0) q h)))
    ]

offer-Fits : (chunk : Text) (pops : ℕ → ℕ) (q : Queue) → Fits q → Fits (offer chunk pops q)
unfolding offer
offer-Fits chunk pops q h = enqueue_chunk-Fits 5 chunk pops q h

-- Whether one of some calls finds room.
abbrev pub any_room : ℕ → ℕ → (ℕ → ℕ) → Queue → Bool
any_room zero i pops q = false
any_room (suc n) i pops q =
    let later = any_room n (suc i) pops (advance (pops i) q) in
    ltb (length (advance (pops i) q).held) q.depth || later

-- What becomes of the chunks that are offered to a queue, in order: each is queued if there is room
-- at the first call; if not, the marker is queued in its place if there is room at one of the next
-- five calls, and otherwise nothing.
abbrev pub Kept : List (Text × (ℕ → ℕ)) → Queue → List Text → Type 0
Kept [] q kept = kept ≡ []
Kept ((chunk, pops) ∷ offers) q kept =
    (more : List Text) × (kept
      ≡ (if ltb (length (advance (pops 0) q).held) q.depth
          then chunk ∷ []
          else (if any_room 5 1 pops (advance (pops 0) q) then backlog ∷ [] else []))
        ++ more)
    × Kept offers (offer chunk pops q) more

any_room-is_sent :
    (n i : ℕ) (pops : ℕ → ℕ) (q : Queue)
    → any is_sent (take n (outcomes n i pops q)) ≡ any_room n i pops q
unfolding outcomes
any_room-is_sent zero i pops q = refl
any_room-is_sent (suc n) i pops q =
    elim (Bool-cases (ltb (length (advance (pops i) q).held) q.depth)) [
      | inl room ↦ rw room refl
      | inr crowded ↦ rw crowded (any_room-is_sent n (suc i) pops (advance (pops i) q))
    ]

-- One offer, by the room that there is.
enqueue_chunk-room :
    (chunk : Text) (pops : ℕ → ℕ) (q : Queue)
    → (enqueue_chunk chunk (outcomes 6 0 pops q)).0 ≡ (
        if ltb (length (advance (pops 0) q).held) q.depth
        then chunk ∷ []
        else (if any_room 5 1 pops (advance (pops 0) q) then backlog ∷ [] else []))
unfolding outcomes
enqueue_chunk-room chunk pops q =
    let queued = (enqueue_chunk_lem chunk (outcomes 6 0 pops q)).1 in
    elim (Bool-cases (ltb (length (advance (pops 0) q).held) q.depth)) [
      | inl room ↦ rw room (rw room at queued)
      | inr crowded ↦ rw crowded (
          rw crowded at queued
          ∙ ap (λ b. if b then backlog ∷ [] else [])
              (any_room-is_sent 5 1 pops (advance (pops 0) q)))
    ]

pub accepted-put : (queued : List Text) (q : Queue) → accepted (put queued q) ≡ accepted q ++ queued
accepted-put queued q = sym (append_assoc q.taken q.held queued)

accepted-offer :
    (chunk : Text) (pops : ℕ → ℕ) (q : Queue)
    → accepted (offer chunk pops q) ≡ accepted q ++ (enqueue_chunk chunk (outcomes 6 0 pops q)).0
unfolding offer
accepted-offer chunk pops q =
    let (queued, calls) = enqueue_chunk chunk (outcomes 6 0 pops q) in
    accepted-put queued (advance_all calls 0 pops q)
    ∙ ap (λ l. l ++ queued) (accepted-advance_all calls 0 pops q)

-- What the queue is like behind some offers.
pub record IsQueued (offers : List (Text × (ℕ → ℕ))) (q q' : Queue) : Type 0 where
  pub fits : Fits q'
  pub kept : List Text
  pub order : accepted q' ≡ accepted q ++ kept
  pub fates : Kept offers q kept

offer_all-IsQueued :
    (offers : List (Text × (ℕ → ℕ))) (q : Queue) → Fits q → IsQueued offers q (offer_all offers q)
unfolding offer_all
offer_all-IsQueued [] q h = record {
  fits = h;
  kept = [];
  order = sym (append-nil (accepted q));
  fates = refl;
}
offer_all-IsQueued ((chunk, pops) ∷ offers) q h =
    let first = (enqueue_chunk chunk (outcomes 6 0 pops q)).0 in
    let i = offer_all-IsQueued offers (offer chunk pops q) (offer-Fits chunk pops q h) in
    record {
      fits = i.fits;
      kept = first ++ i.kept;
      order =
          i.order
          ∙ ap (λ l. l ++ i.kept) (accepted-offer chunk pops q)
          ∙ append_assoc (accepted q) first i.kept;
      fates = (i.kept, ap (λ l. l ++ i.kept) (enqueue_chunk-room chunk pops q), i.fates);
    }

advance-empty : (n : ℕ) (q : Queue) → length q.held ≤ n → (advance n q).held ≡ []
unfolding advance take_from
advance-empty zero q h = no_chunks q.held (omega arith)
  where
    no_chunks : (held : List Text) → length held ≤ 0 → held ≡ []
    no_chunks [] h = refl
    no_chunks (chunk ∷ chunks) h = absurd (omega arith)
advance-empty (suc n) q h = advance-empty n (take_from q q.held) (shorter q.held refl)
  where
    shorter : (held : List Text) → q.held ≡ held → length (take_from q held).held ≤ n
    shorter [] e = omega (arith, ap length e)
    shorter (chunk ∷ chunks) e = omega (arith, ap length e)

pub taken-drain : (q : Queue) → (drain q).taken ≡ accepted q
unfolding drain
taken-drain q =
    sym (append-nil (drain q).taken)
    ∙ ap (◌++◌ (drain q).taken) (sym (advance-empty (length q.held) q (omega arith)))
    ∙ accepted-advance (length q.held) q

module _ (t : SenderTask) (send : ℕ → Request → Option Response) (offers : List (Text × (ℕ → ℕ)))
    (q : Queue) (fits : Fits q) where
  -- What the sender does with chunks that are offered, however it is scheduled and whatever the
  -- service answers. It takes what it took before, what was in the queue, and then, in the order of
  -- the offers: each chunk for which the first call of `try_send` found room; in place of another
  -- chunk the marker, if one of the next five calls found room; otherwise nothing. It tries each of
  -- these texts once, in this order and behind both limiters, and posts those whose request is
  -- answered with a success. Behind the offers the queue holds no more than its depth.
  pub offer_all-IsPosted :
      (kept : List Text) × Kept offers q kept
      × IsSent t send 0
          (q.taken ++ q.held ++ kept)
          (send_all t send 0 (drain (offer_all offers q)).taken)
      × Fits (offer_all offers q)
  offer_all-IsPosted =
      let i = offer_all-IsQueued offers q fits in
      let same = taken-drain (offer_all offers q) ∙ i.order in
      (i.kept, i.fates, rw same (send_all-IsSent t send 0 (q.taken ++ q.held ++ i.kept)), i.fits)

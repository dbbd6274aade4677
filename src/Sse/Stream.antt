-- ===== src/Sse/Stream.antt =====
-- The backoffs of the reconnecting loop, on which its sleeps stand.
use Prim.Native.Nat.{min}
use loraterm.Common.{ℕ, suc, ◌^◌, ◌≡◌, refl, List, [], ◌∷◌, arith}
use loraterm.Sse.{
  Attempt, connect_failed, bad_status, streamed, sleeps, next_backoff, first_backoff,
}

-- Behind `k` failures in a row, each sleep is twice the one before it, up to a minute, and a stream
-- starts the count again.
abbrev pub Doubles : ℕ → List Attempt → List ℕ → Type 0
Doubles k [] [] = Unit
Doubles k (streamed ∷ more) (w ∷ ws) = (w ≡ 1) × Doubles 1 more ws
Doubles k (connect_failed ∷ more) (w ∷ ws) = (w ≡ min (2 ^ k) 60) × Doubles (suc k) more ws
Doubles k (bad_status ∷ more) (w ∷ ws) = (w ≡ min (2 ^ k) 60) × Doubles (suc k) more ws
Doubles k _ _ = ⊥

pub next_backoff-min : (k b : ℕ) → b ≡ min (2 ^ k) 60 → next_backoff b ≡ min (2 ^ suc k) 60
unfolding next_backoff
next_backoff-min k b e = ground arith

sleeps_from : (k b : ℕ) (more : List Attempt) → b ≡ min (2 ^ k) 60 → Doubles k more (sleeps b more)
unfolding sleeps
sleeps_from k b [] e = tt
sleeps_from k b (connect_failed ∷ more) e =
    (e, sleeps_from (suc k) (next_backoff b) more (next_backoff-min k b e))
sleeps_from k b (bad_status ∷ more) e =
    (e, sleeps_from (suc k) (next_backoff b) more (next_backoff-min k b e))
sleeps_from k b (streamed ∷ more) e =
    (refl, sleeps_from 1 (next_backoff first_backoff) more (next_backoff-min 0 first_backoff refl))

-- Without the jitter, a round that failed behind `k` failures in a row backs off 2 ^ k seconds but at
-- most 60, and one that read a stream backs off one second and counts as the first failure for the
-- next.
pub sleeps-Doubles : (more : List Attempt) → Doubles 0 more (sleeps first_backoff more)
sleeps-Doubles more = sleeps_from 0 first_backoff more refl

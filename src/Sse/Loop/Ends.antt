-- ===== src/Sse/Loop/Ends.antt =====
-- The end of the task.
use loraterm.Common.{
  ◌≡◌, ◌⊎◌, refl, ap, Bool, true, false, ℕ, List, [], ◌∷◌, ◌++◌, Option, none, some, Run, ok,
  panicked, diverged, ◌>>=◌, Bool-cases, if◌then◌else◌, inl, inr,
}
use loraterm.Sse.{Json, next_backoff, first_backoff}
use loraterm.Sse.Loop.{
  Round, Trace, Fed, Exit, returned, gave_up, waiting, read_stream, is_success, pause, on_exit,
  nothing, on_status, over, one_round, run, slept_on,
}

module _ (json : Json) (debug raw_log : Bool) where
  abbrev Traces : Type 0
  Traces = Run (Trace json debug raw_log)

  pause-final :
      (fed : Fed json.Value) (backoff : ℕ) (r : Round) (x y : Traces)
      → slept_on r.wake ≡ false
      → pause json debug raw_log fed backoff r x ≡ pause json debug raw_log fed backoff r y
  unfolding pause
  pause-final fed backoff r x y woken = simp woken

  on_exit-final :
      (r : Round) (end : Fed json.Value × Exit) (x y : Traces)
      → slept_on r.wake ≡ false
      → on_exit json debug raw_log r end x ≡ on_exit json debug raw_log r end y
  unfolding on_exit
  on_exit-final r (fed, gave_up) x y woken = pause-final fed first_backoff r x y woken
  on_exit-final r (fed, returned) x y woken = refl
  on_exit-final r (fed, waiting) x y woken = refl

  read-final :
      (r : Round) (m : Run (Fed json.Value × Exit)) (x y : Traces)
      → slept_on r.wake ≡ false
      → (m >>= λ end. on_exit json debug raw_log r end x)
        ≡ (m >>= λ end. on_exit json debug raw_log r end y)
  read-final r (ok end) x y woken = on_exit-final r end x y woken
  read-final r panicked x y woken = refl
  read-final r diverged x y woken = refl

  on_status-final :
      (r : Round) (backoff : ℕ) (status : Option ℕ) (x y x' y' : Traces)
      → slept_on r.wake ≡ false
      → on_status json debug raw_log r backoff status x y
        ≡ on_status json debug raw_log r backoff status x' y'
  unfolding on_status
  on_status-final r backoff none x y x' y' woken =
      pause-final (nothing json debug raw_log) backoff r x x' woken
  on_status-final r backoff (some status) x y x' y' woken = elim (Bool-cases (is_success status)) [
    | inr refused ↦ rw refused (pause-final (nothing json debug raw_log) backoff r x x' woken)
    | inl success ↦ rw success (read-final r (read_stream json debug raw_log r.stream) y y' woken)
  ]

  -- A round that meets the shutdown does not look at the rest of the loop.
  one_round-final :
      (r : Round) (backoff : ℕ) (x y x' y' : Traces)
      → (r.stop ≡ true) ⊎ (slept_on r.wake ≡ false)
      → one_round json debug raw_log r backoff x y ≡ one_round json debug raw_log r backoff x' y'
  unfolding one_round
  one_round-final r backoff x y x' y' (inl stop) = simp stop
  one_round-final r backoff x y x' y' (inr woken) =
      ap (λ t. if r.stop then ok (over json debug raw_log) else t)
        (on_status-final r backoff r.status x y x' y' woken)

  -- The shutdown is final: with a round that starts when the shutdown is signalled, or whose sleep
  -- it interrupts, the run is the same whatever the rounds behind it would bring.
  pub run-final :
      (backoff : ℕ) (before : List Round) (r : Round) (more : List Round)
      → (r.stop ≡ true) ⊎ (slept_on r.wake ≡ false)
      → run json debug raw_log backoff (before ++ r ∷ more)
        ≡ run json debug raw_log backoff (before ++ r ∷ [])
  unfolding run
  run-final backoff [] r more stop =
      one_round-final r backoff (run json debug raw_log (next_backoff backoff) more)
        (run json debug raw_log (next_backoff first_backoff) more)
        (run json debug raw_log (next_backoff backoff) [])
        (run json debug raw_log (next_backoff first_backoff) []) stop
  run-final backoff (b ∷ before) r more stop = rw (
    run-final (next_backoff backoff) before r more stop,
    run-final (next_backoff first_backoff) before r more stop,
  )

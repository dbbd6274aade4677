-- ===== src/Sse/Loop/Sleeps.antt =====
-- How long the reconnecting loop sleeps.
use Prim.Native.Nat.{min}
use loraterm.Common.{
  ◌≡◌, ◌⊎◌, ◌∙◌, refl, ap, subst, Bool, true, false, ℕ, suc, ◌+◌, ◌*◌, ◌^◌, ◌≤◌, ◌<◌, List, [], ◌∷◌,
  Option, none, some, Run, ok, if◌then◌else◌, >>=-eq-ok, Bool-cases, inl, inr, arith,
}
use loraterm.Sse.{Json, next_backoff, first_backoff}
use loraterm.Sse.Stream.{next_backoff-min}
use loraterm.Sse.Loop.{
  Round, Trace, Fed, Exit, returned, gave_up, waiting, read_stream, is_success, pause, on_exit,
  nothing, on_status, one_round, run, slept_on, sleep_time,
}

-- A round reads a stream if it gets an answer that is a success.
abbrev pub reads : Round → Bool
reads r = elim r.status [ some status ↦ is_success status | none ↦ false ]

-- The time in milliseconds is this many seconds, and less than half a second of jitter.
abbrev pub Lasts : ℕ → ℕ → Type 0
Lasts seconds time = (seconds * 1000 ≤ time) × (time < seconds * 1000 + 500)

-- Behind `k` failures in a row: a round that fails sleeps 2 ^ k seconds, at most 60, and one that
-- read a stream a second, which counts as the first failure. No sleep follows one that is
-- interrupted; a round has none if the shutdown is signalled as it starts, or if it reads a stream
-- that it does not give up.
abbrev pub BacksOff : ℕ → List Round → List ℕ → Type 0
BacksOff k [] [] = Unit
BacksOff k (r ∷ rs) [] = (r.stop ≡ true) ⊎ (reads r ≡ true)
BacksOff k [] (w ∷ ws) = ⊥
BacksOff k (r ∷ rs) (w ∷ ws) =
    Lasts (if reads r then 1 else min (2 ^ k) 60) w
    × (((slept_on r.wake ≡ false) × (ws ≡ []))
        ⊎ ((slept_on r.wake ≡ true) × BacksOff (if reads r then 1 else suc k) rs ws))

sleep_time-Lasts : (backoff random : ℕ) → Lasts backoff (sleep_time backoff random)
unfolding sleep_time
sleep_time-Lasts backoff random = (omega arith, omega arith)

module _ (json : Json) (debug raw_log : Bool) where
  abbrev Traces : Type 0
  Traces = Run (Trace json debug raw_log)

  abbrev Backs : ℕ → List Round → Trace json debug raw_log → Type 0
  Backs k rs t = BacksOff k rs t.slept

  ok_inj : {t u : Trace json debug raw_log} → Path Traces (ok t) (ok u) → t ≡ u
  ok_inj e = cc

  -- A sleep with the sleeps of the rest.
  pause-BacksOff :
      (fed : Fed json.Value) (k backoff : ℕ) (r : Round) (rs : List Round) (rest : Traces)
      {t : Trace json debug raw_log}
      → backoff ≡ (if reads r then 1 else min (2 ^ k) 60)
      → ((u : Trace json debug raw_log) → rest ≡ ok u → Backs (if reads r then 1 else suc k) rs u)
      → pause json debug raw_log fed backoff r rest ≡ ok t
      → Backs k (r ∷ rs) t
  unfolding pause
  pause-BacksOff fed k backoff r rs rest {t} same ih e =
      let lasts =
        subst (λ s. Lasts s (sleep_time backoff r.random)) same
          (sleep_time-Lasts backoff r.random) in
      elim (Bool-cases (slept_on r.wake)) [
        | inr woken ↦ subst (Backs k (r ∷ rs)) (ok_inj (rw woken at e)) (lasts, inl (woken, refl))
        | inl slept ↦
            let (u, run_on, e') = >>=-eq-ok rest _ (rw slept at e) in
            subst (Backs k (r ∷ rs)) (ok_inj e') (lasts, inr (slept, ih u run_on))
      ]

  on_exit-BacksOff :
      (k : ℕ) (r : Round) (rs : List Round) (end : Fed json.Value × Exit) (rest : Traces)
      {t : Trace json debug raw_log}
      → reads r ≡ true
      → ((u : Trace json debug raw_log) → rest ≡ ok u → Backs 1 rs u)
      → on_exit json debug raw_log r end rest ≡ ok t
      → Backs k (r ∷ rs) t
  unfolding on_exit
  on_exit-BacksOff k r rs (fed, gave_up) rest read ih e =
      pause-BacksOff fed k first_backoff r rs rest (rw read) (rw read ih) e
  on_exit-BacksOff k r rs (fed, returned) rest read ih e =
      subst (Backs k (r ∷ rs)) (ok_inj e) (inr read)
  on_exit-BacksOff k r rs (fed, waiting) rest read ih e =
      subst (Backs k (r ∷ rs)) (ok_inj e) (inr read)

  on_status-BacksOff :
      (k backoff : ℕ) (r : Round) (rs : List Round) (status : Option ℕ) (again reset : Traces)
      {t : Trace json debug raw_log}
      → backoff ≡ min (2 ^ k) 60
      → r.status ≡ status
      → ((u : Trace json debug raw_log) → again ≡ ok u → Backs (suc k) rs u)
      → ((u : Trace json debug raw_log) → reset ≡ ok u → Backs 1 rs u)
      → on_status json debug raw_log r backoff status again reset ≡ ok t
      → Backs k (r ∷ rs) t
  unfolding on_status
  on_status-BacksOff k backoff r rs none again reset same got ih ih' e =
      let failed : reads r ≡ false =
        ap (λ o. elim o [ some status ↦ is_success status | none ↦ false ]) got in
      pause-BacksOff (nothing json debug raw_log) k backoff r rs again (rw failed same)
        (rw failed ih) e
  on_status-BacksOff k backoff r rs (some status) again reset same got ih ih' e =
      let read : reads r ≡ is_success status =
        ap (λ o. elim o [ some status ↦ is_success status | none ↦ false ]) got in
      elim (Bool-cases (is_success status)) [
        | inr refused ↦
            let failed = read ∙ refused in
            pause-BacksOff (nothing json debug raw_log) k backoff r rs again (rw failed same)
              (rw failed ih) (rw refused at e)
        | inl success ↦
            let (end, got_end, e') =
              >>=-eq-ok (read_stream json debug raw_log r.stream)
                (λ end. on_exit json debug raw_log r end reset) (rw success at e) in
            on_exit-BacksOff k r rs end reset (read ∙ success) ih' e'
      ]

  run_from-BacksOff :
      (k backoff : ℕ) (rs : List Round) (t : Trace json debug raw_log)
      → backoff ≡ min (2 ^ k) 60
      → run json debug raw_log backoff rs ≡ ok t
      → Backs k rs t
  unfolding run one_round
  run_from-BacksOff k backoff [] t same e = subst (Backs k []) (ok_inj e) tt
  run_from-BacksOff k backoff (r ∷ rs) t same e = elim (Bool-cases r.stop) [
    | inl stop ↦ subst (Backs k (r ∷ rs)) (ok_inj (simp stop at e)) (inl stop)
    | inr on ↦
        on_status-BacksOff k backoff r rs r.status
          (run json debug raw_log (next_backoff backoff) rs)
          (run json debug raw_log (next_backoff first_backoff) rs) same refl
          (λ u.
            run_from-BacksOff (suc k) (next_backoff backoff) rs u (next_backoff-min k backoff same))
          (λ u.
            run_from-BacksOff 1 (next_backoff first_backoff) rs u
              (next_backoff-min 0 first_backoff refl))
          (simp on at e)
  ]

  -- The task sleeps once behind each round, in order, up to a sleep that the shutdown interrupts; a
  -- round without a sleep starts when the shutdown is signalled, or reads a stream. A round that
  -- failed behind `k` failures in a row sleeps 2 ^ k seconds but at most 60, one that read a stream
  -- sleeps one second and counts as the first failure for the next; to each sleep less than half a
  -- second is added.
  pub run-BacksOff :
      (rs : List Round) {t : Trace json debug raw_log}
      → run json debug raw_log first_backoff rs ≡ ok t
      → BacksOff 0 rs t.slept
  run-BacksOff rs {t} e = run_from-BacksOff 0 first_backoff rs t refl e

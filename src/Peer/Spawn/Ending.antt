-- ===== src/Peer/Spawn/Ending.antt =====
-- How a session is told to end, and when its shell is killed.
use loraterm.Common.{
  ℕ, zero, suc, ◌+◌, ◌≤◌, ◌≡◌, ◌↔◌, ◌⊎◌, refl, sym, ap, ◌∙◌, true, false, List, [], ◌∷◌, arith, inl,
  inr,
}
use loraterm.Text.{Text}
use loraterm.Peer.Spawn.{
  shutdown, shutdown_all, TryWait, exited, running, failed, wait_child, is_killed, said, end_child,
}

shutdown_all-none : (reasons : List Text) → shutdown_all reasons false ≡ (false, [])
unfolding shutdown_all shutdown
shutdown_all-none [] = refl
shutdown_all-none (reason ∷ reasons) = rw (shutdown_all-none reasons) refl

-- A session is told only the first reason to shut down, however many follow.
pub shutdown_all-first :
    (reason : Text) (reasons : List Text)
    → shutdown_all (reason ∷ reasons) true ≡ (false, reason ∷ [])
unfolding shutdown_all shutdown
shutdown_all-first reason reasons = rw (shutdown_all-none reasons) refl

-- A child whose exit was seen stays exited, and one that cannot be waited for stays so.
abbrev pub Stays : (ℕ → TryWait) → Type 0
Stays says = (i : ℕ) → (says i ≡ running) ⊎ (says (suc i) ≡ says i)

-- All the calls so far found the child running.
abbrev pub Ran : (ℕ → TryWait) → ℕ → ℕ → Type 0
Ran says i p = (j : ℕ) → j ≤ p → says (i + j) ≡ running

exit_lasts :
    (says : ℕ → TryWait) (i : ℕ) {w : TryWait}
    → Stays says
    → says i ≡ w
    → (w ≡ running → ⊥)
    → says (i + 1) ≡ running
    → ⊥
exit_lasts says i stays here other next = elim (stays i) [
  | inl runs ↦ other (sym here ∙ runs)
  | inr same ↦
      let e : i + 1 ≡ suc i = omega arith in other (sym here ∙ sym same ∙ ap says (sym e) ∙ next)
]

exited-ne : exited ≡ running → ⊥
exited-ne e = cc e

failed-ne : failed ≡ running → ⊥
failed-ne e = cc e

killed-Ran :
    (says : ℕ → TryWait) (p i : ℕ)
    → Stays says
    → says (i + wait_child (said says i p)) ≡ running
    → Ran says i p
unfolding wait_child
killed-Ran says zero i stays last j h = let e : j ≡ 0 = omega (arith, h) in rw e last
killed-Ran says (suc p) i stays last j h =
    by_answer (λ l. killed-Ran says p (suc i) stays l) (says i) refl last j h
  where
    by_answer :
        (says (suc i + wait_child (said says (suc i) p)) ≡ running → Ran says (suc i) p)
        → (w : TryWait) → says i ≡ w
        → says (i + wait_child (w ∷ said says (suc i) p)) ≡ running
        → Ran says i (suc p)
    by_answer ih exited here last j h = absurd (exit_lasts says i stays here exited-ne last)
    by_answer ih failed here last j h = absurd (exit_lasts says i stays here failed-ne last)
    by_answer ih running here last zero h = let e : i + 0 ≡ i = omega arith in rw e here
    by_answer ih running here last (suc j) h =
        let e : i + suc (wait_child (said says (suc i) p))
            ≡ suc i + wait_child (said says (suc i) p) =
          omega arith in
        let f : i + suc j ≡ suc i + j = omega arith in
        ap says f ∙ ih (ap says (sym e) ∙ last) j (omega (arith, h))

Ran-wait_child : (says : ℕ → TryWait) (p i : ℕ) → Ran says i p → wait_child (said says i p) ≡ p
unfolding wait_child
Ran-wait_child says zero i ran = refl
Ran-wait_child says (suc p) i ran =
    by_answer (Ran-wait_child says p (suc i) later) (says i)
      (ap says (sym here) ∙ ran 0 (omega arith))
  where
    here : i + 0 ≡ i
    here = omega arith

    later : Ran says (suc i) p
    later j h =
        let e : i + suc j ≡ suc i + j = omega arith in
        ap says (sym e) ∙ ran (suc j) (omega (arith, h))

    by_answer :
        wait_child (said says (suc i) p) ≡ p
        → (w : TryWait) → w ≡ running
        → wait_child (w ∷ said says (suc i) p) ≡ suc p
    by_answer ih running e = ap suc ih
    by_answer ih exited e = absurd (exited-ne e)
    by_answer ih failed e = absurd (failed-ne e)

is_killed-running : (w : TryWait) → (is_killed w ≡ true) ↔ (w ≡ running)
unfolding is_killed
is_killed-running running = ((λ e. refl), (λ e. refl))
is_killed-running exited = ((λ e. absurd (cc e)), (λ e. absurd (exited-ne e)))
is_killed-running failed = ((λ e. absurd (cc e)), (λ e. absurd (failed-ne e)))

-- The child is killed exactly if it runs through all the calls that fit in the three seconds and the
-- last one behind them: one that exits by itself in that time is left alone, one that does not is not
-- left behind.
pub end_child-Ran :
    (says : ℕ → TryWait) (polls : ℕ)
    → Stays says
    → ((end_child says polls).1 ≡ true) ↔ Ran says 0 polls
unfolding end_child
end_child-Ran says polls stays =
    let n = wait_child (said says 0 polls) in
    let zero_add : 0 + n ≡ n = omega arith in
    let add_zero : 0 + polls ≡ polls = omega arith in
    (
      (λ killed.
          killed-Ran says polls 0 stays (ap says zero_add ∙ (is_killed-running (says n)).0 killed)),
      (λ ran. (is_killed-running (says n)).1 (
          rw (Ran-wait_child says polls 0 ran) (ap says (sym add_zero) ∙ ran polls (omega arith)))),
    )

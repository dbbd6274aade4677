-- ===== src/Daemon/Sessions/End.antt =====
-- The sessions behind a run that ended.
use loraterm.Common.{
  ℕ, ◌≡◌, ◌⊎◌, refl, sym, subst, ◌∙◌, inl, inr, true, List, [], ◌∷◌, Bool-cases, All, All-mono,
}
use loraterm.Text.{Text, chars, eq_text}
use loraterm.Text.Equality.{eq_text_iff}
use loraterm.Config.{ConfigError, Result, ok, err, Whitelist, diff_whitelist}
use loraterm.Daemon.{
  Registry, find_handle, Effect, spawned, delivered, shut_down, Daemon, handle_sse_event,
  reload_whitelist, Input, reload, event, shutdown, signals_closed, events_closed, run, finish,
  shut_down_all,
}
use loraterm.Daemon.Sessions.{Told, Registered, Owed, IsSettled, keep_bindings, session_eq}
use loraterm.Daemon.Sessions.Events.{handle_sse_event-IsSettled}
use loraterm.Daemon.Sessions.Revoking.{revoke-IsSettled}

Told-shut_down_all :
    (k : Text) (n : ℕ) (r : Registry) (es : List Effect)
    → Told k n es
    → Told k n (shut_down_all r es)
unfolding shut_down_all
Told-shut_down_all k n [] es t = t
Told-shut_down_all k n ((key, h) ∷ r) es t =
    Told-shut_down_all k n r (shut_down key h.session (chars "shutdown") ∷ es) (inr t)

-- Every session of the registry is told.
shut_down_all-Told :
    (k : Text) (n : ℕ) (r : Registry) (es : List Effect)
    → Registered k n r
    → Told k n (shut_down_all r es)
unfolding shut_down_all find_handle
shut_down_all-Told k n [] es (h, found, same) = absurd (cc found)
shut_down_all-Told k n ((key, handle) ∷ r) es (h, found, same) = elim (Bool-cases (eq_text key k)) [
  | inl here ↦
      let session = session_eq (rw here at found) ∙ same in
      Told-shut_down_all k n r (shut_down key handle.session (chars "shutdown") ∷ es)
        (inl ((eq_text_iff key k).0 here, session))
  | inr there ↦
      shut_down_all-Told k n r (shut_down key handle.session (chars "shutdown") ∷ es)
        (h, rw there at found, same)
]

shut_down_all-All :
    (P : Effect → Type 0) (r : Registry) (es : List Effect)
    → ((key : Text) (session : ℕ) (reason : Text) → P (shut_down key session reason))
    → All P es
    → All P (shut_down_all r es)
unfolding shut_down_all
shut_down_all-All P [] es p a = a
shut_down_all-All P ((key, h) ∷ r) es p a =
    shut_down_all-All P r (shut_down key h.session (chars "shutdown") ∷ es) p
      (p key h.session (chars "shutdown"), a)

-- Some event of the inputs met the session closed.
abbrev pub SeenClosed : {Value : Type 0} → List (Input Value) → ℕ → Type 0
SeenClosed [] n = ⊥
SeenClosed (event env e ∷ is) n = (env.is_closed n ≡ true) ⊎ SeenClosed is n
SeenClosed (reload r ∷ is) n = SeenClosed is n
SeenClosed (shutdown ∷ is) n = SeenClosed is n
SeenClosed (signals_closed ∷ is) n = SeenClosed is n
SeenClosed (events_closed ∷ is) n = SeenClosed is n

module _ (Closed : ℕ → Type 0) where
  -- Behind the end of a run: a session that was started was told to shut down, or is closed.
  abbrev pub Ended : List Effect → Effect → Type 0
  Ended es (spawned key session peer) = Told key session es ⊎ Closed session
  Ended es (delivered key session line) = Unit
  Ended es (shut_down key session reason) = Unit

  Ended-Owed :
      (d : Daemon) (e : Effect) → Owed Closed d e → Ended (shut_down_all d.peers d.effects) e
  Ended-Owed d (spawned key session peer) (inl r) =
      inl (shut_down_all-Told key session d.peers d.effects r)
  Ended-Owed d (spawned key session peer) (inr (inl t)) =
      inl (Told-shut_down_all key session d.peers d.effects t)
  Ended-Owed d (spawned key session peer) (inr (inr c)) = inr c
  Ended-Owed d (delivered key session line) s = tt
  Ended-Owed d (shut_down key session reason) s = tt

  abbrev IsEnded : Daemon → Type 0
  IsEnded d = (d.peers ≡ []) × All (Ended d.effects) d.effects

  finish-IsEnded : (d : Daemon) → IsSettled Closed d → IsEnded (finish d)
  unfolding finish
  finish-IsEnded d a =
      let es = shut_down_all d.peers d.effects in
      (
        refl,
        shut_down_all-All (Ended es) d.peers d.effects (λ key session reason. tt)
            (All-mono (Ended-Owed d) d.effects a),
      )

  reload_whitelist-IsSettled :
      (r : Result ConfigError Whitelist) (d : Daemon)
      → IsSettled Closed d
      → IsSettled Closed (reload_whitelist r d)
  unfolding reload_whitelist
  reload_whitelist-IsSettled (err e) d a = a
  reload_whitelist-IsSettled (ok new) d a =
      let start : Daemon = record d { whitelist = new } in
      revoke-IsSettled Closed (diff_whitelist d.whitelist new).removed start
        (keep_bindings Closed d start [] refl (λ k n r. inl r) tt a)

  run-IsEnded :
      {Value : Type 0} (is : List (Input Value)) (d : Daemon)
      → ((n : ℕ) → SeenClosed is n → Closed n)
      → IsSettled Closed d
      → (run is d).1 ≡ true
      → IsEnded (run is d).0
  unfolding run
  run-IsEnded [] d seen a over = absurd (cc over)
  run-IsEnded (reload r ∷ is) d seen a over =
      run-IsEnded is (reload_whitelist r d) seen (reload_whitelist-IsSettled r d a) over
  run-IsEnded (event env e ∷ is) d seen a over =
      run-IsEnded is (handle_sse_event env e d) (λ n s. seen n (inr s))
        (handle_sse_event-IsSettled Closed env (λ n s. seen n (inl s)) e d a) over
  run-IsEnded (shutdown ∷ is) d seen a over = finish-IsEnded d a
  run-IsEnded (signals_closed ∷ is) d seen a over = finish-IsEnded d a
  run-IsEnded (events_closed ∷ is) d seen a over = finish-IsEnded d a

-- A run that starts with no effects and whose loop ends forgets no session: the registry is empty,
-- and every session that was started was told to shut down, when its peer was revoked or at the end,
-- or some event met it closed.
pub run-Ended :
    {Value : Type 0} (is : List (Input Value)) (d : Daemon)
    → d.effects ≡ []
    → (run is d).1 ≡ true
    → ((run is d).0.peers ≡ [])
      × All (Ended (SeenClosed is) (run is d).0.effects) (run is d).0.effects
run-Ended is d fresh over =
    run-IsEnded (SeenClosed is) is d (λ n s. s)
      (subst (All (Owed (SeenClosed is) d)) (sym fresh) tt) over

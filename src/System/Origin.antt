-- ===== src/System/Origin.antt =====
-- Where the lines come from that are delivered to a session, and so what its shell is typed.
use mathlib.Core.List.{append_assoc, append-nil}
use loraterm.Common.{
  Sublist, nothing, keep, Sublist-append, ℕ, ◌≡◌, refl, sym, ap, ◌∙◌, true, ◌&&◌, if◌then◌else◌,
  inl, inr, List, [], ◌∷◌, ◌++◌, Option, none, some, arith, Bool-cases, Option-cases, ◌==◌,
}
use loraterm.Text.{Text, Bytes, chars, eq_text}
use loraterm.Config.{ConfigError, Result, ok, err, ValidatedPeer, Whitelist, diff_whitelist, get}
use loraterm.Config.File.{Config}
use loraterm.Sse.{SseEvent, dm_received, sent_echo, other, comment}
use loraterm.Daemon.{
  Effect, spawned, delivered, shut_down, Daemon, Env, Registry, find_handle, is_pubkey, ensure_peer,
  deliver, handle_text, handle_dm, handle_sse_event, reload_whitelist, finish, revoke_one, revoke,
  shut_down_all,
}
use loraterm.Daemon.Trust.{sender, ensure_peer-effects, deliver-effects}
use loraterm.System.{
  System, Move, stream, reloaded, stopped, turned, left_behind, step, steps, env_of,
}

-- The text of a message from this peer.
abbrev pub message : {Value : Type 0} → Text → SseEvent Value → List Text
message key (dm_received dm) =
    if eq_text (sender dm) key then (elim dm.text [ none ↦ [] | some line ↦ line ∷ [] ]) else []
message key (sent_echo dm) = []
message key (other kind raw) = []
message key (comment text) = []

-- The messages from this peer that the stream brings in a schedule, in order.
abbrev pub messages : {Value : Type 0} → Text → List (Move Value) → List Text
messages key [] = []
messages key (stream now can_spawn e ∷ ms) = message key e ++ messages key ms
messages key (reloaded now r ∷ ms) = messages key ms
messages key (stopped now ∷ ms) = messages key ms
messages key (turned n r ∷ ms) = messages key ms
messages key (left_behind n ∷ ms) = messages key ms

-- The lines that were delivered to session `n` under a key, oldest first.
abbrev pub lines_from : Text → ℕ → List Effect → List Text
lines_from key n [] = []
lines_from key n (spawned k session peer ∷ es) = lines_from key n es
lines_from key n (delivered k session line ∷ es) =
    if session == n && eq_text k key then lines_from key n es ++ line ∷ [] else lines_from key n es
lines_from key n (shut_down k session reason ∷ es) = lines_from key n es

-- Lines are added, all of them among these texts and in their order.
pub record Adds (key : Text) (n : ℕ) (ts : List Text) (log log' : List Effect) : Type 0 where
  pub added : List Text
  pub grown : lines_from key n log' ≡ lines_from key n log ++ added
  pub among : Sublist added ts

module _ (key : Text) (n : ℕ) where
  Adds-none :
      (ts : List Text) (log log' : List Effect)
      → lines_from key n log' ≡ lines_from key n log
      → Adds key n ts log log'
  Adds-none ts log log' e = record {
    added = [];
    grown = e ∙ sym (append-nil (lines_from key n log));
    among = nothing ts;
  }

  Adds-trans :
      {ss ts : List Text} {log log' log'' : List Effect}
      → Adds key n ss log log'
      → Adds key n ts log' log''
      → Adds key n (ss ++ ts) log log''
  Adds-trans {ts = ts} {log = log} a b = record {
    added = a.added ++ b.added;
    grown =
        b.grown
        ∙ ap (λ l. l ++ b.added) a.grown
        ∙ append_assoc (lines_from key n log) a.added b.added;
    among = Sublist-append b.added ts a.among b.among;
  }

  deliver-Adds :
      (env : Env) (k line : Text) (d : Daemon)
      → Adds key n
          (if eq_text k key then line ∷ [] else [])
          d.effects
          (deliver env k line d).effects
  deliver-Adds env k line d = elim (deliver-effects env k line d).0 [
    | inl quiet ↦ Adds-none _ d.effects _ (ap (lines_from key n) quiet)
    | inr (session, sent) ↦ elim (Bool-cases (session == n && eq_text k key)) [
      | inr elsewhere ↦ Adds-none _ d.effects _ (ap (lines_from key n) sent ∙ rw elsewhere refl)
      | inl here ↦
          let same : eq_text k key ≡ true = ground (arith, here) in
          record {
            added = line ∷ [];
            grown = ap (lines_from key n) sent ∙ rw here refl;
            among = rw same (keep line (nothing []));
          }
    ]
  ]

  ensure_peer-lines :
      (env : Env) (k : Text) (peer : ValidatedPeer) (d : Daemon)
      → lines_from key n (ensure_peer env k peer d).0.effects ≡ lines_from key n d.effects
  ensure_peer-lines env k peer d = elim (ensure_peer-effects env k peer d).0 [
    | inl quiet ↦ ap (lines_from key n) quiet
    | inr started ↦ ap (lines_from key n) started
  ]

  handle_text-Adds :
      (env : Env) (k : Text) (text : Option Text) (d : Daemon)
      → Adds key n
          (if eq_text k key then (elim text [ none ↦ [] | some line ↦ line ∷ [] ]) else [])
          d.effects
          (handle_text env k text d).effects
  unfolding handle_text
  handle_text-Adds env k none d = Adds-none _ d.effects d.effects refl
  handle_text-Adds env k (some line) d = elim (Bool-cases (is_pubkey k)) [
    | inr malformed ↦ rw malformed (Adds-none _ d.effects d.effects refl)
    | inl valid ↦ elim (Option-cases (get d.whitelist k)) [
      | inl stranger ↦ rw (valid, stranger) (Adds-none _ d.effects d.effects refl)
      | inr (peer, listed) ↦
          let d' = (ensure_peer env k peer d).0 in
          let quiet = ensure_peer-lines env k peer d in
          rw (valid, listed)
            (elim (Bool-cases (ensure_peer env k peer d).1) [
              | inr failed ↦ rw failed (Adds-none _ d.effects d'.effects quiet)
              | inl alive ↦ rw alive (
                  Adds-trans (Adds-none [] d.effects d'.effects quiet) (deliver-Adds env k line d'))
            ])
    ]
  ]

  handle_sse_event-Adds :
      {Value : Type 0} (env : Env) (e : SseEvent Value) (d : Daemon)
      → Adds key n (message key e) d.effects (handle_sse_event env e d).effects
  unfolding handle_sse_event handle_dm
  handle_sse_event-Adds env (dm_received dm) d = handle_text-Adds env (sender dm) dm.text d
  handle_sse_event-Adds env (sent_echo dm) d = Adds-none [] d.effects d.effects refl
  handle_sse_event-Adds env (other kind raw) d = Adds-none [] d.effects d.effects refl
  handle_sse_event-Adds env (comment text) d = Adds-none [] d.effects d.effects refl

  revoke_one-lines :
      (k : Text) (d : Daemon)
      → lines_from key n (revoke_one k d).effects ≡ lines_from key n d.effects
  unfolding revoke_one
  revoke_one-lines k d = elim (Option-cases (find_handle k d.peers)) [
    | inl missing ↦ rw (missing, revoke_one) refl
    | inr (h, found) ↦ rw (found, revoke_one) refl
  ]

  revoke-lines :
      (ks : List Text) (d : Daemon)
      → lines_from key n (revoke ks d).effects ≡ lines_from key n d.effects
  unfolding revoke
  revoke-lines [] d = refl
  revoke-lines (k ∷ ks) d = revoke-lines ks (revoke_one k d) ∙ revoke_one-lines k d

  reload_whitelist-lines :
      (r : Result ConfigError Whitelist) (d : Daemon)
      → lines_from key n (reload_whitelist r d).effects ≡ lines_from key n d.effects
  unfolding reload_whitelist
  reload_whitelist-lines (err e) d = refl
  reload_whitelist-lines (ok w) d =
      revoke-lines (diff_whitelist d.whitelist w).removed (record d { whitelist = w })

  shut_down_all-lines :
      (r : Registry) (effects : List Effect)
      → lines_from key n (shut_down_all r effects) ≡ lines_from key n effects
  unfolding shut_down_all
  shut_down_all-lines [] effects = refl
  shut_down_all-lines ((k, h) ∷ r) effects =
      shut_down_all-lines r (shut_down k h.session (chars "shutdown") ∷ effects)

  finish-lines : (d : Daemon) → lines_from key n (finish d).effects ≡ lines_from key n d.effects
  unfolding finish
  finish-lines d = shut_down_all-lines d.peers d.effects

module _ (strip : Bytes → Bytes) (config : Config) {Value : Type 0} (key : Text) (n : ℕ) where
  step-Adds :
      (m : Move Value) (s : System)
      → Adds key n (messages key (m ∷ [])) s.daemon.effects (step strip config m s).daemon.effects
  unfolding step
  step-Adds (stream now can_spawn e) s =
      let adds = handle_sse_event-Adds key n (env_of config now can_spawn s.slots) e s.daemon in
      elim (Bool-cases s.is_over) [
        | inl over ↦ simp over (Adds-none key n _ s.daemon.effects s.daemon.effects refl)
        | inr going ↦ simp going (Adds-trans key n adds (Adds-none key n [] _ _ refl))
      ]
  step-Adds (reloaded now r) s = elim (Bool-cases s.is_over) [
    | inl over ↦ simp over (Adds-none key n _ s.daemon.effects s.daemon.effects refl)
    | inr going ↦
        simp going (Adds-none key n _ s.daemon.effects _ (reload_whitelist-lines key n r s.daemon))
  ]
  step-Adds (stopped now) s = elim (Bool-cases s.is_over) [
    | inl over ↦ simp over (Adds-none key n _ s.daemon.effects s.daemon.effects refl)
    | inr going ↦ simp going (Adds-none key n _ s.daemon.effects _ (finish-lines key n s.daemon))
  ]
  step-Adds (turned i r) s = Adds-none key n [] s.daemon.effects s.daemon.effects refl
  step-Adds (left_behind i) s = Adds-none key n [] s.daemon.effects s.daemon.effects refl

  messages-cons :
      (m : Move Value) (ms : List (Move Value))
      → messages key (m ∷ ms) ≡ messages key (m ∷ []) ++ messages key ms
  messages-cons (stream now can_spawn e) ms =
      ap (λ ts. ts ++ messages key ms) (sym (append-nil (message key e)))
  messages-cons (reloaded now r) ms = refl
  messages-cons (stopped now) ms = refl
  messages-cons (turned i r) ms = refl
  messages-cons (left_behind i) ms = refl

  pub steps-Adds :
      (ms : List (Move Value)) (s : System)
      → Adds key n (messages key ms) s.daemon.effects (steps strip config ms s).daemon.effects
  unfolding steps
  steps-Adds [] s = Adds-none key n [] s.daemon.effects s.daemon.effects refl
  steps-Adds (m ∷ ms) s =
      rw (messages-cons m ms)
        (Adds-trans key n (step-Adds m s) (steps-Adds ms (step strip config m s)))

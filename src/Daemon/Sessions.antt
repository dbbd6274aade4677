-- ===== src/Daemon/Sessions.antt =====
-- What becomes of the sessions that are started: none is forgotten.
pub mod Events
pub mod Revoking
pub mod End
use loraterm.Common.{
  ℕ, suc, ◌≡◌, ◌⊎◌, refl, sym, ap, subst, ◌∙◌, inl, inr, Bool, true, false, List, [], ◌∷◌, ◌++◌,
  Option, none, some, arith, if◌then◌else◌, Bool-cases, Option-cases, All, All-append, All-mono,
}
use loraterm.Text.{Text, chars, eq_text, to_ascii_lowercase}
use loraterm.Text.Equality.{eq_text_iff, eq_text_refl}
use loraterm.Config.{ConfigError, Result, ok, err, ValidatedPeer, Whitelist, get, diff_whitelist}
use loraterm.Sse.{SseEvent, dm_received, sent_echo, other, comment}
use loraterm.Daemon.{
  PeerHandle, Registry, find_handle, remove, insert, Effect, spawned, delivered, shut_down, Daemon,
  Env, is_stale, ensure_peer, deliver, is_pubkey, handle_text, handle_dm, handle_sse_event,
  revoke_one, revoke, reload_whitelist, Input, reload, event, shutdown, signals_closed,
  events_closed, run, finish, shut_down_all,
}
use loraterm.Daemon.Registry.{find_handle-remove, find_handle-insert}
use loraterm.Daemon.Dispatch.{
  live, offered, without_stale, without_stale-none, live-some, ensure_peer-live,
  ensure_peer-missing, deliver_lem, find_handle-insert_same,
}

-- The session was told to shut down.
abbrev pub Told : Text → ℕ → List Effect → Type 0
Told k n [] = ⊥
Told k n (spawned key session peer ∷ es) = Told k n es
Told k n (delivered key session line ∷ es) = Told k n es
Told k n (shut_down key session reason ∷ es) = ((key ≡ k) × (session ≡ n)) ⊎ Told k n es

Told-append : (k : Text) (n : ℕ) (new es : List Effect) → Told k n es → Told k n (new ++ es)
Told-append k n [] es t = t
Told-append k n (spawned key session peer ∷ new) es t = Told-append k n new es t
Told-append k n (delivered key session line ∷ new) es t = Told-append k n new es t
Told-append k n (shut_down key session reason ∷ new) es t = inr (Told-append k n new es t)

-- The session is the one that the registry has for the peer.
abbrev pub Registered : Text → ℕ → Registry → Type 0
Registered k n peers = (h : PeerHandle) × (find_handle k peers ≡ some h) × (h.session ≡ n)

session_eq :
    {h h' : PeerHandle} → Path (Option PeerHandle) (some h) (some h') → h.session ≡ h'.session
session_eq e = ground arith

same_session :
    (peers : Registry) {key k : Text} {h h' : PeerHandle}
    → key ≡ k
    → find_handle key peers ≡ some h
    → find_handle k peers ≡ some h'
    → h.session ≡ h'.session
same_session peers same known found =
    session_eq (sym known ∙ ap (λ j. find_handle j peers) same ∙ found)

module _ (Closed : ℕ → Type 0) where
  -- The session is registered, was told to shut down, or was found closed.
  abbrev pub Settled : Daemon → Text → ℕ → Type 0
  Settled d k n = Registered k n d.peers ⊎ Told k n d.effects ⊎ Closed n

  abbrev pub Owed : Daemon → Effect → Type 0
  Owed d (spawned key session peer) = Settled d key session
  Owed d (delivered key session line) = Unit
  Owed d (shut_down key session reason) = Unit

  -- Every session that was started is settled.
  abbrev pub IsSettled : Daemon → Type 0
  IsSettled d = All (Owed d) d.effects

  -- A change of the registry that loses none of the settled sessions, with new effects.
  IsSettled-step :
      (d d' : Daemon) (new : List Effect)
      → d'.effects ≡ new ++ d.effects
      → ((k : Text) (n : ℕ) → Settled d k n → Settled d' k n)
      → All (Owed d') new
      → IsSettled d
      → IsSettled d'
  IsSettled-step d d' new grown keep owed a =
      subst (All (Owed d')) (sym grown)
        (All-append (Owed d') new d.effects owed (All-mono keep_owed d.effects a))
    where
      keep_owed : (e : Effect) → Owed d e → Owed d' e
      keep_owed (spawned key session peer) s = keep key session s
      keep_owed (delivered key session line) s = tt
      keep_owed (shut_down key session reason) s = tt

  -- If the registered sessions stay settled, all do.
  keep_effects :
      (d d' : Daemon) (new : List Effect)
      → d'.effects ≡ new ++ d.effects
      → ((k : Text) (n : ℕ) → Registered k n d.peers → Settled d' k n)
      → (k : Text) (n : ℕ) → Settled d k n
      → Settled d' k n
  keep_effects d d' new grown keep k n (inl r) = keep k n r
  keep_effects d d' new grown keep k n (inr (inl t)) =
      inr (inl (subst (Told k n) (sym grown) (Told-append k n new d.effects t)))
  keep_effects d d' new grown keep k n (inr (inr c)) = inr (inr c)

  -- The registered sessions stay settled, and new effects are owed nothing.
  keep_bindings :
      (d d' : Daemon) (new : List Effect)
      → d'.effects ≡ new ++ d.effects
      → ((k : Text) (n : ℕ) → Registered k n d.peers → Settled d' k n)
      → All (Owed d') new
      → IsSettled d
      → IsSettled d'
  keep_bindings d d' new grown keep =
      IsSettled-step d d' new grown (keep_effects d d' new grown keep)

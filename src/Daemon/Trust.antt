-- ===== src/Daemon/Trust.antt =====
-- The trust boundary: whom the daemon starts sessions for and sends lines to.
use loraterm.Common.{
  ℕ, ◌≡◌, ◌⊎◌, refl, ap, ◌∙◌, inl, inr, true, List, [], ◌∷◌, ◌++◌, Option, none, some, arith,
  Bool-cases, Option-cases, All,
}
use loraterm.Text.{Text, to_ascii_lowercase}
use loraterm.Config.{ValidatedPeer, Whitelist, get, has, keys}
use loraterm.Config.Load.{IsSome-find_peer}
use loraterm.Sse.{DmEvent, SseEvent, dm_received, sent_echo, other, comment}
use loraterm.Daemon.{
  find_handle, Effect, spawned, delivered, Daemon, Env, ensure_peer, deliver, is_pubkey,
  handle_text, handle_dm, handle_sse_event,
}

-- What an event may make the daemon do, under a whitelist: start a session for its sender, with the
-- sender's entry, and send the sender's session the text of the message. The sender's key is the
-- event's in lower case, is a public key and is whitelisted.
abbrev pub Allowed : {Value : Type 0} → Whitelist → SseEvent Value → Effect → Type 0
Allowed w (dm_received dm) (spawned key session peer) =
    (key ≡ to_ascii_lowercase dm.peer_pubkey_hex) × (is_pubkey key ≡ true) × (get w key ≡ some peer)
Allowed w (dm_received dm) (delivered key session line) =
    (key ≡ to_ascii_lowercase dm.peer_pubkey_hex)
    × (is_pubkey key ≡ true)
    × (dm.text ≡ some line)
    × (has key (keys w) ≡ true)
Allowed w _ _ = ⊥

-- What one event did.
pub record IsServed {Value : Type 0} (e : SseEvent Value) (d d' : Daemon) : Type 0 where
  pub new : List Effect
  pub grown : d'.effects ≡ new ++ d.effects
  pub allowed : All (Allowed d.whitelist e) new
  pub same : d'.whitelist ≡ d.whitelist

IsServed-idle : {Value : Type 0} (e : SseEvent Value) (d : Daemon) → IsServed e d d
IsServed-idle e d = record { new = []; grown = refl; allowed = tt; same = refl }

pub ensure_peer-effects :
    (env : Env) (key : Text) (peer : ValidatedPeer) (d : Daemon)
    → (((ensure_peer env key peer d).0.effects ≡ d.effects)
        ⊎ ((ensure_peer env key peer d).0.effects ≡ spawned key d.next_session peer ∷ d.effects))
      × ((ensure_peer env key peer d).0.whitelist ≡ d.whitelist)
unfolding ensure_peer
ensure_peer-effects env key peer d = ground arith

pub deliver-effects :
    (env : Env) (key line : Text) (d : Daemon)
    → (((deliver env key line d).effects ≡ d.effects)
        ⊎ ((session : ℕ) × ((deliver env key line d).effects
              ≡ delivered key session line ∷ d.effects)))
      × ((deliver env key line d).whitelist ≡ d.whitelist)
unfolding deliver
deliver-effects env key line d = elim (Option-cases (find_handle key d.peers)) [
  | inl missing ↦ rw (missing, deliver) (inl refl, refl)
  | inr (h, found) ↦ elim (Bool-cases (env.accepts h.session)) [
    | inl taken ↦ rw (found, deliver, taken) (inr (h.session, refl), refl)
    | inr full ↦ rw (found, deliver, full) (inl refl, refl)
  ]
]

-- One more effect that the event may have.
IsServed-step :
    {Value : Type 0} {e : SseEvent Value} {d d' : Daemon} (x : Effect) (d'' : Daemon)
    → IsServed e d d'
    → Allowed d.whitelist e x
    → d''.effects ≡ x ∷ d'.effects
    → d''.whitelist ≡ d'.whitelist
    → IsServed e d d''
IsServed-step x d'' s a grown same = record {
  new = x ∷ s.new;
  grown = grown ∙ ap (◌∷◌ x) s.grown;
  allowed = (a, s.allowed);
  same = same ∙ s.same;
}

IsServed-same :
    {Value : Type 0} {e : SseEvent Value} {d d' : Daemon} (d'' : Daemon)
    → IsServed e d d'
    → d''.effects ≡ d'.effects
    → d''.whitelist ≡ d'.whitelist
    → IsServed e d d''
IsServed-same d'' s grown same = record {
  new = s.new;
  grown = grown ∙ s.grown;
  allowed = s.allowed;
  same = same ∙ s.same;
}

abbrev pub sender : DmEvent → Text
sender dm = to_ascii_lowercase dm.peer_pubkey_hex

abbrev pub inbound : (Value : Type 0) → DmEvent → SseEvent Value
inbound Value dm = dm_received dm

module _ (env : Env) (d : Daemon) (Value : Type 0) (dm : DmEvent) (line : Text)
    (said : dm.text ≡ some line) where
  ensure_peer-IsServed :
      (peer : ValidatedPeer)
      → is_pubkey (sender dm) ≡ true
      → get d.whitelist (sender dm) ≡ some peer
      → IsServed (inbound Value dm) d (ensure_peer env (sender dm) peer d).0
  ensure_peer-IsServed peer valid listed =
      let (effects, same) = ensure_peer-effects env (sender dm) peer d in
      let idle = IsServed-idle (inbound Value dm) d in
      elim effects [
        | inl quiet ↦ IsServed-same (ensure_peer env (sender dm) peer d).0 idle quiet same
        | inr started ↦
            IsServed-step (spawned (sender dm) d.next_session peer)
              (ensure_peer env (sender dm) peer d).0 idle (refl, valid, listed) started same
      ]

  deliver-IsServed :
      (peer : ValidatedPeer) (d' : Daemon)
      → is_pubkey (sender dm) ≡ true
      → get d.whitelist (sender dm) ≡ some peer
      → IsServed (inbound Value dm) d d'
      → IsServed (inbound Value dm) d (deliver env (sender dm) line d')
  deliver-IsServed peer d' valid listed s =
      let (effects, same) = deliver-effects env (sender dm) line d' in
      elim effects [
        | inl quiet ↦ IsServed-same (deliver env (sender dm) line d') s quiet same
        | inr (session, sent) ↦
            IsServed-step (delivered (sender dm) session line) (deliver env (sender dm) line d') s
              (refl, valid, said, IsSome-find_peer (sender dm) d.whitelist.entries ∙ rw listed) sent
              same
      ]

pub handle_text-IsServed :
    (Value : Type 0) (env : Env) (d : Daemon) (dm : DmEvent) (text : Option Text)
    → dm.text ≡ text
    → IsServed (inbound Value dm) d (handle_text env (sender dm) text d)
unfolding handle_text
handle_text-IsServed Value env d dm none said = IsServed-idle (inbound Value dm) d
handle_text-IsServed Value env d dm (some line) said =
    let key = sender dm in
    let idle = IsServed-idle (inbound Value dm) d in
    elim (Bool-cases (is_pubkey key)) [
      | inr malformed ↦ rw malformed idle
      | inl valid ↦ elim (Option-cases (get d.whitelist key)) [
        | inl stranger ↦ rw (valid, stranger) idle
        | inr (peer, listed) ↦
            let ensured = ensure_peer-IsServed env d Value dm line said peer valid listed in
            rw (valid, listed)
              (elim (Bool-cases (ensure_peer env key peer d).1) [
                | inr failed ↦ rw failed ensured
                | inl alive ↦ rw alive (
                    deliver-IsServed env d Value dm line said peer (ensure_peer env key peer d).0
                      valid listed ensured)
              ])
      ]
    ]

module _ (env : Env) (d : Daemon) where
  -- Whatever event arrives, its handler does only what the event may make it do: sessions are
  -- started, and lines sent, only for a whitelisted sender with a well-formed public key, with that
  -- sender's entry and the text of that message. The whitelist stays as it is.
  pub handle_sse_event-IsServed :
      {Value : Type 0} (e : SseEvent Value) → IsServed e d (handle_sse_event env e d)
  unfolding handle_sse_event handle_dm
  handle_sse_event-IsServed (dm_received dm) = handle_text-IsServed _ env d dm dm.text refl
  handle_sse_event-IsServed (sent_echo dm) = IsServed-idle (sent_echo dm) d
  handle_sse_event-IsServed (other kind raw) = IsServed-idle (other kind raw) d
  handle_sse_event-IsServed (comment text) = IsServed-idle (comment text) d

-- ===== src/Daemon/Sessions/Revoking.antt =====
-- What a revoked peer does to the sessions that were started.
use loraterm.Common.{ℕ, ◌≡◌, refl, ◌∙◌, inl, inr, List, [], ◌∷◌, some, Bool-cases, Option-cases}
use loraterm.Text.{Text, chars, eq_text}
use loraterm.Text.Equality.{eq_text_iff}
use loraterm.Daemon.{PeerHandle, find_handle, remove, shut_down, Daemon, revoke_one, revoke}
use loraterm.Daemon.Registry.{find_handle-remove}
use loraterm.Daemon.Sessions.{Registered, same_session, Settled, IsSettled, keep_bindings}

module _ (Closed : ℕ → Type 0) where
  -- A session that is told to shut down may leave the registry.
  revoke_one-IsSettled :
      (key : Text) (d : Daemon) → IsSettled Closed d → IsSettled Closed (revoke_one key d)
  unfolding revoke_one
  revoke_one-IsSettled key d a = elim (Option-cases (find_handle key d.peers)) [
    | inl missing ↦ rw (missing, revoke_one) a
    | inr (h, found) ↦
        let end = shut_down key h.session (chars "revoked") in
        let d' : Daemon = record d { peers = remove key d.peers; effects = end ∷ d.effects } in
        rw (found, revoke_one)
          (keep_bindings Closed d d' (end ∷ []) refl (λ k n r. gone d h k n found r) (tt, tt) a)
  ]
    where
      gone :
          (d : Daemon) (h : PeerHandle) (k : Text) (n : ℕ)
          → find_handle key d.peers ≡ some h
          → Registered k n d.peers
          → Settled Closed
              (record d {
                peers = remove key d.peers;
                effects = shut_down key h.session (chars "revoked") ∷ d.effects;
              })
              k
              n
      gone d h k n known (h', found, same) = elim (Bool-cases (eq_text key k)) [
        | inr there ↦ inl (h', find_handle-remove k key d.peers ∙ rw there found, same)
        | inl here ↦
            let key_k = (eq_text_iff key k).0 here in
            inr (inl (inl (key_k, same_session d.peers key_k known found ∙ same)))
      ]

  pub revoke-IsSettled :
      (ks : List Text) (d : Daemon) → IsSettled Closed d → IsSettled Closed (revoke ks d)
  unfolding revoke
  revoke-IsSettled [] d a = a
  revoke-IsSettled (key ∷ ks) d a =
      revoke-IsSettled ks (revoke_one key d) (revoke_one-IsSettled key d a)

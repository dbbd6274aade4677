-- ===== src/System/Ends.antt =====
-- What a reload of the whitelist and the end of the daemon do to the sessions.
use loraterm.Common.{ℕ, refl, ap, inl, inr, List, [], ◌∷◌, none, some, All, Option-cases}
use loraterm.Text.{Text, chars}
use loraterm.Config.{ConfigError, Result, ok, err, Whitelist, diff_whitelist}
use loraterm.Config.File.{Config}
use loraterm.Daemon.{
  Registry, find_handle, remove, shut_down, Daemon, revoke_one, revoke, reload_whitelist, finish,
  shut_down_all,
}
use loraterm.Daemon.Registry.{remove-All}
use loraterm.System.{Slots, apply_all}
use loraterm.System.Fed.{Owns}
use loraterm.System.Effects.{modify-IsSound}
use loraterm.System.Grown.{IsGrown, rebind}

module _ (config : Config) (now : ℕ) (slots : Slots) (start : Daemon) where
  shut_down-IsGrown :
      (key reason : Text) (n : ℕ) (d : Daemon) (peers : Registry)
      (g : IsGrown config now slots start d)
      → All (λ b. Owns (apply_all config now g.new slots) b.0 b.1.session) peers
      → IsGrown config now slots start
          (record d { peers = peers; effects = shut_down key n reason ∷ d.effects })
  shut_down-IsGrown key reason n d peers g owned =
      let told =
        modify-IsSound n
          (λ s. record s { told = elim s.told [ some first ↦ some first | none ↦ some reason ] })
          (λ s. refl) (λ s lines f. record { more = f.more; split = f.split; waiting = f.waiting })
          peers d.next_session (apply_all config now g.new slots) d.effects
          (rebind config now slots start d peers g owned).sound in
      record {
        new = shut_down key n reason ∷ g.new;
        grown = ap (◌∷◌ (shut_down key n reason)) g.grown;
        later = g.later;
        numbered = (tt, g.numbered);
        sound = record {
          unused = told.unused;
          owned = told.owned;
          sent = (tt, told.sent);
          fed = told.fed;
        };
      }

  revoke_one-IsGrown :
      (key : Text) (d : Daemon)
      → IsGrown config now slots start d
      → IsGrown config now slots start (revoke_one key d)
  unfolding revoke_one
  revoke_one-IsGrown key d g = elim (Option-cases (find_handle key d.peers)) [
    | inl missing ↦ rw (missing, revoke_one) g
    | inr (h, found) ↦
        rw (found, revoke_one)
          (shut_down-IsGrown key (chars "revoked") h.session d (remove key d.peers) g
            (remove-All _ key d.peers g.sound.owned))
  ]

  revoke-IsGrown :
      (ks : List Text) (d : Daemon)
      → IsGrown config now slots start d
      → IsGrown config now slots start (revoke ks d)
  unfolding revoke
  revoke-IsGrown [] d g = g
  revoke-IsGrown (key ∷ ks) d g = revoke-IsGrown ks (revoke_one key d) (revoke_one-IsGrown key d g)

  pub reload_whitelist-IsGrown :
      (r : Result ConfigError Whitelist) (d : Daemon)
      → IsGrown config now slots start d
      → IsGrown config now slots start (reload_whitelist r d)
  unfolding reload_whitelist
  reload_whitelist-IsGrown (err e) d g = g
  reload_whitelist-IsGrown (ok w) d g =
      revoke-IsGrown (diff_whitelist d.whitelist w).removed (record d { whitelist = w })
        (record {
          new = g.new;
          grown = g.grown;
          later = g.later;
          numbered = g.numbered;
          sound = g.sound;
        })

  shut_down_all-IsGrown :
      (r : Registry) (d : Daemon)
      → IsGrown config now slots start (record d { peers = [] })
      → IsGrown config now slots start
          (record d { peers = []; effects = shut_down_all r d.effects })
  unfolding shut_down_all
  shut_down_all-IsGrown [] d g = g
  shut_down_all-IsGrown ((key, h) ∷ r) d g =
      shut_down_all-IsGrown r
        (record d { effects = shut_down key h.session (chars "shutdown") ∷ d.effects })
        (shut_down-IsGrown key (chars "shutdown") h.session (record d { peers = [] }) [] g tt)

  pub finish-IsGrown :
      (d : Daemon) → IsGrown config now slots start d → IsGrown config now slots start (finish d)
  unfolding finish
  finish-IsGrown d g = shut_down_all-IsGrown d.peers d (rebind config now slots start d [] g tt)

-- ===== src/System/Typed.antt =====
-- From the stream to the shells: what each shell is typed of the messages that arrive.
use loraterm.Common.{
  Sublist, ℕ, ◌≡◌, refl, sym, ap, subst, ◌∙◌, true, inl, inr, List, [], ◌∷◌, ◌++◌, some, arith,
  Bool-cases, All, ◌==◌,
}
use loraterm.Text.{Bytes, eq_text}
use loraterm.Text.Equality.{eq_text_refl}
use loraterm.Config.{Whitelist}
use loraterm.Config.File.{Config}
use loraterm.Daemon.{Effect, spawned, delivered, shut_down}
use loraterm.System.{Slot, Slots, Move, steps, boot}
use loraterm.System.Fed.{IsFed, lines_to, Sent, some_inj}
use loraterm.System.Isolation.{Sound, steps-Sound}
use loraterm.System.Origin.{messages, lines_from, steps-Adds}

pub boot-Sound :
    (strip : Bytes → Bytes) (config : Config) (w : Whitelist) → Sound strip config (boot w)
boot-Sound strip config w = record {
  unused = λ n h. (refl, refl);
  owned = tt;
  sent = tt;
  fed = λ n s e. absurd cc;
}

-- A session has one key, so all that it is sent is sent under that key.
lines_to-from :
    (slots : Slots) (n : ℕ) (s : Slot) (log : List Effect)
    → slots n ≡ some s
    → All (Sent slots) log
    → lines_to n log ≡ lines_from s.key n log
lines_to-from slots n s [] here sent = refl
lines_to-from slots n s (spawned k m peer ∷ log) here sent = lines_to-from slots n s log here sent.1
lines_to-from slots n s (shut_down k m reason ∷ log) here sent =
    lines_to-from slots n s log here sent.1
lines_to-from slots n s (delivered k m line ∷ log) here ((owner, found, known), rest) =
    let before = lines_to-from slots n s log here rest in
    elim (Bool-cases (m == n)) [
      | inr elsewhere ↦ rw elsewhere before
      | inl same ↦
          let at_n : m ≡ n = ground (arith, same) in
          let one_key : k ≡ s.key =
            sym known ∙ ap (λ x. x.key) (some_inj (sym found ∙ ap slots at_n ∙ here)) in
          let equal : eq_text k s.key ≡ true =
            ap (λ j. eq_text j s.key) one_key ∙ eq_text_refl s.key in
          rw (same, equal) (ap (λ l. l ++ line ∷ []) before)
    ]

-- However the daemon and its sessions are interleaved from the start on, and whoever sends messages:
-- what a session handed to the channel of its terminal are the payloads of the first lines that were
-- delivered to the session, in order and none twice, and while its loop runs the others wait: first
-- the line with which the session waits for its terminal, if it does, and then those in its channel;
-- and the lines that were delivered are messages from the session's peer, in the order of the stream.
pub steps-IsFed :
    {Value : Type 0} (strip : Bytes → Bytes) (config : Config) (w : Whitelist)
    (ms : List (Move Value)) (n : ℕ) (s : Slot)
    → (steps strip config ms (boot w)).slots n ≡ some s
    → IsFed s (lines_to n (steps strip config ms (boot w)).daemon.effects)
      × Sublist (lines_to n (steps strip config ms (boot w)).daemon.effects) (messages s.key ms)
steps-IsFed strip config w ms n s here =
    let end = steps strip config ms (boot w) in
    let sound = steps-Sound strip config ms (boot w) (boot-Sound strip config w) in
    let adds = steps-Adds strip config s.key n ms (boot w) in
    let one_key = lines_to-from end.slots n s end.daemon.effects here sound.sent in
    (
      sound.fed n s here,
      subst (λ l. Sublist l (messages s.key ms)) (sym (one_key ∙ adds.grown)) adds.among,
    )

-- ===== src/System/Effects.antt =====
-- What each effect of the daemon does to the soundness of the sessions.
use mathlib.Core.List.{append_assoc}
use loraterm.Common.{
  ℕ, suc, ◌≡◌, refl, sym, ap, subst, ◌∙◌, true, false, ◌==◌, inl, inr, List, [], ◌∷◌, ◌++◌, none,
  some, All, All-mono, Bool-cases, arith,
}
use loraterm.Text.{Text}
use loraterm.Config.{ValidatedPeer}
use loraterm.Config.File.{Config}
use loraterm.Peer.{start, encode_pty_input}
use loraterm.Daemon.{Effect, spawned, delivered, Registry}
use loraterm.System.{
  Bytes, ℕ, List, Slot, Slots, update, modify, Phase, running, sending, ending, gone, fresh_slot,
  apply,
}
use loraterm.System.Fed.{
  lines_to, in_order, payloads, Waiting, IsFed, Owns, IsSound, Keeps, Sent-Keeps, modify_lem,
  modify-Keeps, modify-inv, some_inj,
}

payloads-append : (xs ys : List Text) → payloads (xs ++ ys) ≡ payloads xs ++ payloads ys
payloads-append [] ys = refl
payloads-append (x ∷ xs) ys = ap (◌∷◌ (encode_pty_input x)) (payloads-append xs ys)

-- A registry with only known sessions.
pub IsSound-peers :
    (peers peers' : Registry) {next : ℕ} {slots : Slots} {log : List Effect}
    → All (λ b. Owns slots b.0 b.1.session) peers'
    → IsSound peers next slots log
    → IsSound peers' next slots log
IsSound-peers peers peers' a s = record { unused = s.unused; owned = a; sent = s.sent; fed = s.fed }

module _ (n : ℕ) (f : Slot → Slot) (same : (s : Slot) → (f s).key ≡ s.key) where
  modify-none : (slots : Slots) (m : ℕ) → slots m ≡ none → modify n f slots m ≡ none
  modify-none slots m missing = elim (modify_lem n f slots m) [
    | inr (other, e) ↦ e ∙ missing
    | inl (at_n, e) ↦
        let missing' : slots n ≡ none = ap slots (sym at_n) ∙ missing in e ∙ rw missing' refl
  ]

  -- A slot is changed so that what it was fed is still right.
  pub modify-IsSound :
      ((s : Slot) (lines : List Text) → IsFed s lines → IsFed (f s) lines)
      → (peers : Registry) (next : ℕ) (slots : Slots) (log : List Effect)
      → IsSound peers next slots log
      → IsSound peers next (modify n f slots) log
  modify-IsSound keeps peers next slots log s =
      let known = modify-Keeps n f slots same in
      record {
        unused = λ m h. (modify-none slots m (s.unused m h).0, (s.unused m h).1);
        owned = All-mono (λ b. known b.0 b.1.session) peers s.owned;
        sent = All-mono (Sent-Keeps slots (modify n f slots) known) log s.sent;
        fed = λ m t here. elim (modify-inv n f slots m t here) [
          | inr (other, there) ↦ s.fed m t there
          | inl (at_n, (t', found, e)) ↦
              subst (λ x. IsFed x (lines_to m log)) (sym e)
                (keeps t' (lines_to m log) (s.fed m t' (ap slots at_n ∙ found)))
        ];
      }

-- A line at the end of the channel.
queue-IsFed :
    (s : Slot) (line : Text) (lines : List Text)
    → IsFed s lines
    → IsFed (record s { inbox = s.inbox ++ line ∷ [] }) (lines ++ line ∷ [])
queue-IsFed s line lines f = record {
  more = f.more ++ encode_pty_input line ∷ [];
  split =
      payloads-append lines (line ∷ [])
      ∙ ap (λ ps. ps ++ encode_pty_input line ∷ []) f.split
      ∙ append_assoc (in_order s.session.typed) f.more (encode_pty_input line ∷ []);
  waiting = wait s.inbox s.phase f.more f.waiting;
}
  where
    wait :
        (inbox : List Text) (phase : Phase) (more : List Bytes)
        → Waiting inbox phase more
        → Waiting (inbox ++ line ∷ []) phase (more ++ encode_pty_input line ∷ [])
    wait inbox running more w =
        ap (λ ps. ps ++ encode_pty_input line ∷ []) w ∙ sym (payloads-append inbox (line ∷ []))
    wait inbox (sending l) more w =
        ap (λ ps. ps ++ encode_pty_input line ∷ []) w
        ∙ ap (◌∷◌ (encode_pty_input l)) (sym (payloads-append inbox (line ∷ [])))
    wait inbox ending more w = tt
    wait inbox gone more w = tt

fresh-IsFed :
    (config : Config) (now : ℕ) (key : Text) (peer : ValidatedPeer)
    → IsFed (fresh_slot config now key peer) []
unfolding start
fresh-IsFed config now key peer = record { more = []; split = refl; waiting = refl }

lines_to-other :
    (n m : ℕ) (key line : Text) (log : List Effect)
    → (m == n) ≡ false
    → lines_to m (delivered key n line ∷ log) ≡ lines_to m log
lines_to-other n m key line log other =
    let other' : (n == m) ≡ false = ground (arith, other) in rw other' refl

lines_to-same :
    (n : ℕ) (key line : Text) (log : List Effect)
    → lines_to n (delivered key n line ∷ log) ≡ lines_to n log ++ line ∷ []
lines_to-same n key line log = let same : (n == n) ≡ true = ground arith in rw same refl

module _ (config : Config) (now : ℕ) where
  pub delivered-IsSound :
      (peers : Registry) (next : ℕ) (slots : Slots) (log : List Effect) (key line : Text) (n : ℕ)
      → Owns slots key n
      → IsSound peers next slots log
      → IsSound peers next
          (apply config now (delivered key n line) slots)
          (delivered key n line ∷ log)
  delivered-IsSound peers next slots log key line n own s =
      let f : Slot → Slot = λ t. record t { inbox = t.inbox ++ line ∷ [] } in
      let known = modify-Keeps n f slots (λ t. refl) in
      record {
        unused = λ m h. (
          modify-none n f (λ t. refl) slots m (s.unused m h).0,
          elim (Bool-cases (m == n)) [
            | inr other ↦ lines_to-other n m key line log other ∙ (s.unused m h).1
            | inl same ↦
                let at_n : m ≡ n = ground (arith, same) in
                absurd (cc (sym (ap slots at_n) ∙ (s.unused m h).0, own.1))
          ],
        );
        owned = All-mono (λ b. known b.0 b.1.session) peers s.owned;
        sent = (known key n own, All-mono (Sent-Keeps slots (modify n f slots) known) log s.sent);
        fed = λ m t here. elim (modify-inv n f slots m t here) [
          | inr (other, there) ↦
              subst (IsFed t) (sym (lines_to-other n m key line log other)) (s.fed m t there)
          | inl (at_n, (t', found, e)) ↦
              let fed_n : IsFed t (lines_to n (delivered key n line ∷ log)) =
                subst (λ x. IsFed x (lines_to n (delivered key n line ∷ log))) (sym e)
                  (subst (IsFed (f t')) (sym (lines_to-same n key line log))
                    (queue-IsFed t' line (lines_to n log) (s.fed n t' found))) in
              subst (λ i. IsFed t (lines_to i (delivered key n line ∷ log))) (sym at_n) fed_n
        ];
      }

  -- A session with a number that is not used yet.
  pub spawned-IsSound :
      (peers peers' : Registry) (next : ℕ) (slots : Slots) (log : List Effect) (key : Text)
      (peer : ValidatedPeer)
      → ((slots' : Slots)
          → Owns slots' key next
          → Keeps slots slots'
          → All (λ b. Owns slots' b.0 b.1.session) peers')
      → IsSound peers next slots log
      → IsSound peers'
          (suc next)
          (apply config now (spawned key next peer) slots)
          (spawned key next peer ∷ log)
  spawned-IsSound peers peers' next slots log key peer bound s =
      let fresh = fresh_slot config now key peer in
      let slots' : Slots = update next fresh slots in
      let (free, no_lines) = s.unused next (omega arith) in
      let here : slots' next ≡ some fresh =
        let e : (next == next) ≡ true = ground arith in rw e refl in
      let there : (m : ℕ) → (m == next) ≡ false → slots' m ≡ slots m = λ m e. rw e refl in
      let own : Owns slots' key next = (fresh, here, refl) in
      let known : Keeps slots slots' = λ k m o. elim (Bool-cases (m == next)) [
        | inr other ↦ (o.0, there m other ∙ o.1, o.2)
        | inl same ↦
            let at_n : m ≡ next = ground (arith, same) in
            absurd (cc (sym (ap slots at_n) ∙ o.1, free))
      ] in
      record {
        unused = λ m h.
            let e : (m == next) ≡ false = ground (arith, h) in
            let (unused, quiet) = s.unused m (omega (arith, h)) in (there m e ∙ unused, quiet);
        owned = bound slots' own known;
        sent = (own, All-mono (Sent-Keeps slots slots' known) log s.sent);
        fed = λ m t found. elim (Bool-cases (m == next)) [
          | inr other ↦ s.fed m t (sym (there m other) ∙ found)
          | inl same ↦
              let at_n : m ≡ next = ground (arith, same) in
              subst (λ x. IsFed x (lines_to m log))
                (some_inj (sym here ∙ sym (ap slots' at_n) ∙ found))
                (subst (IsFed fresh) (sym (ap (λ i. lines_to i log) at_n ∙ no_lines))
                  (fresh-IsFed config now key peer))
        ];
      }

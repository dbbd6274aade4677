-- ===== src/System/Fed.antt =====
-- What the shell of a session is typed, against the lines that the daemon delivered to the session:
-- the invariant, and what keeps it.
use loraterm.Common.{
  ℕ, ◌≤◌, ◌≡◌, ◌⊎◌, refl, sym, ap, ◌∙◌, false, ◌==◌, if◌then◌else◌, inl, inr, List, [], ◌∷◌, ◌++◌,
  map, Option, none, some, All, Bool-cases, Option-cases, arith,
}
use loraterm.Text.{Text, Bytes}
use loraterm.Peer.{encode_pty_input}
use loraterm.Daemon.{Effect, spawned, delivered, shut_down, Registry}
use loraterm.System.{Slot, Slots, modify, Phase, running, sending, ending, gone}

-- The lines that were delivered to session `n`, oldest first, in effects with the newest first.
abbrev pub lines_to : ℕ → List Effect → List Text
lines_to n [] = []
lines_to n (spawned key session peer ∷ es) = lines_to n es
lines_to n (delivered key session line ∷ es) =
    if session == n then lines_to n es ++ line ∷ [] else lines_to n es
lines_to n (shut_down key session reason ∷ es) = lines_to n es

-- What the shell was typed, oldest first.
abbrev pub in_order : List Bytes → List Bytes
in_order [] = []
in_order (payload ∷ typed) = in_order typed ++ payload ∷ []

abbrev pub payloads : List Text → List Bytes
payloads lines = map encode_pty_input lines

-- While the loop of the session runs, the payloads behind those that were typed are that of the line
-- with which it waits, if it does, and those of the lines in its channel.
abbrev pub Waiting : List Text → Phase → List Bytes → Type 0
Waiting inbox running more = more ≡ payloads inbox
Waiting inbox (sending line) more = more ≡ encode_pty_input line ∷ payloads inbox
Waiting inbox ending more = Unit
Waiting inbox gone more = Unit

-- The shell was typed the payloads of the first lines that were delivered, in order.
pub record IsFed (s : Slot) (lines : List Text) : Type 0 where
  pub more : List Bytes
  pub split : payloads lines ≡ in_order s.session.typed ++ more
  pub waiting : Waiting s.inbox s.phase more

-- The session is that of a slot with this key.
abbrev pub Owns : Slots → Text → ℕ → Type 0
Owns slots key n = (s : Slot) × (slots n ≡ some s) × (s.key ≡ key)

abbrev pub Sent : Slots → Effect → Type 0
Sent slots (spawned key n peer) = Owns slots key n
Sent slots (delivered key n line) = Owns slots key n
Sent slots (shut_down key n reason) = Unit

pub record IsSound (peers : Registry) (next : ℕ) (slots : Slots) (log : List Effect) : Type 0 where
  pub unused : (n : ℕ) → next ≤ n → (slots n ≡ none) × (lines_to n log ≡ [])
  pub owned : All (λ b. Owns slots b.0 b.1.session) peers
  pub sent : All (Sent slots) log
  pub fed : (n : ℕ) (s : Slot) → slots n ≡ some s → IsFed s (lines_to n log)

-- Slots that keep their keys.
abbrev pub Keeps : Slots → Slots → Type 0
Keeps slots slots' = (key : Text) (n : ℕ) → Owns slots key n → Owns slots' key n

pub Sent-Keeps :
    (slots slots' : Slots) → Keeps slots slots' → (e : Effect) → Sent slots e → Sent slots' e
Sent-Keeps slots slots' keeps (spawned key n peer) o = keeps key n o
Sent-Keeps slots slots' keeps (delivered key n line) o = keeps key n o
Sent-Keeps slots slots' keeps (shut_down key n reason) o = tt

pub some_inj : {s t : Slot} → Path (Option Slot) (some s) (some t) → s ≡ t
some_inj e = cc e

-- A slot that is changed without its key.
pub modify_lem :
    (n : ℕ) (f : Slot → Slot) (slots : Slots) (m : ℕ)
    → ((m ≡ n) × (modify n f slots m ≡ (elim (slots n) [ some s ↦ some (f s) | none ↦ none ])))
      ⊎ (((m == n) ≡ false) × (modify n f slots m ≡ slots m))
modify_lem n f slots m = elim (Bool-cases (m == n)) [
  | inl same ↦ inl (ground (arith, same), rw same refl)
  | inr other ↦ inr (other, rw other refl)
]

pub modify-Keeps :
    (n : ℕ) (f : Slot → Slot) (slots : Slots)
    → ((s : Slot) → (f s).key ≡ s.key)
    → Keeps slots (modify n f slots)
modify-Keeps n f slots same key m (s, here, known) = elim (modify_lem n f slots m) [
  | inl (at_n, e) ↦
      let here' : slots n ≡ some s = ap slots (sym at_n) ∙ here in
      (f s, e ∙ rw here' refl, same s ∙ known)
  | inr (other, e) ↦ (s, e ∙ here, known)
]

pub modify-inv :
    (n : ℕ) (f : Slot → Slot) (slots : Slots) (m : ℕ) (t : Slot)
    → modify n f slots m ≡ some t
    → ((m ≡ n) × ((s : Slot) × (slots n ≡ some s) × (t ≡ f s)))
      ⊎ (((m == n) ≡ false) × (slots m ≡ some t))
modify-inv n f slots m t here = elim (modify_lem n f slots m) [
  | inr (other, e) ↦ inr (other, sym e ∙ here)
  | inl (at_n, e) ↦ elim (Option-cases (slots n)) [
    | inl missing ↦ absurd (cc (missing, e, here))
    | inr (s, found) ↦ inl (at_n, (s, found, some_inj (sym here ∙ e ∙ rw found refl)))
  ]
]

-- ===== src/Pty/Lines.antt =====
-- The bytes that are written to the terminal, cut at their newlines, against the messages that were
-- typed. What the terminal and the shell make of a byte (a carriage return, an interrupt, an end of
-- input) is not part of this.
use mathlib.Core.List.{append_assoc, append-nil}
use loraterm.Common.{
  ◌≡◌, refl, sym, ap, ◌∙◌, Bool, true, false, inl, inr, List, [], ◌∷◌, ◌++◌, map, all, All, concat,
  not, ◌==◌, if◌then◌else◌, Bool-cases, arith,
}
use loraterm.Text.{Text, Bytes, as_bytes}
use loraterm.Peer.{encode_pty_input}
use loraterm.Peer.Typed.{is_interrupt, encode_pty_input-IsLine}
use loraterm.Pty.{Writing, writer}

-- Bytes cut at their newlines, behind a part of a line: a newline ends each line.
abbrev pub lines_of : Bytes → Bytes → List Bytes
lines_of part [] = []
lines_of part (b ∷ bytes) =
    if b == b'\n' then part ∷ lines_of [] bytes else lines_of (part ++ b ∷ []) bytes

-- A message that is one line: it has no newline in it, and is not the token for an interrupt.
abbrev pub IsPlain : Text → Type 0
IsPlain line = (all (λ b. not (b == b'\n')) (as_bytes line) ≡ true) × (is_interrupt line ≡ false)

lines_of-line :
    (part line more : Bytes)
    → all (λ b. not (b == b'\n')) line ≡ true
    → lines_of part (line ++ b'\n' ∷ more) ≡ (part ++ line) ∷ lines_of [] more
lines_of-line part [] more plain = ap (λ p. p ∷ lines_of [] more) (sym (append-nil part))
lines_of-line part (b ∷ line) more plain = elim (Bool-cases (b == b'\n')) [
  | inl newline ↦ absurd (cc (rw newline at plain))
  | inr other ↦ rw other (
      lines_of-line (part ++ b ∷ []) line more (rw other at plain)
      ∙ ap (λ p. p ∷ lines_of [] more) (append_assoc part (b ∷ []) line))
]

plain-body : (body : Bytes) → all (λ b. not (b == b'\n')) (body ++ b'\n' ∷ []) ≡ false
plain-body [] = refl
plain-body (b ∷ body) = ground (arith, plain-body body)

encode_pty_input-plain :
    (line : Text) → IsPlain line → encode_pty_input line ≡ as_bytes line ++ b'\n' ∷ []
encode_pty_input-plain line (plain, typed) = elim (encode_pty_input-IsLine line).1 [
  | inl interrupt ↦ absurd (cc (typed, interrupt))
  | inr l ↦ elim l.same [
    | inr (same, open_line) ↦ rw same l.ends
    | inl same ↦
        absurd (cc (plain, plain-body l.body, ap (all (λ b. not (b == b'\n'))) (same ∙ l.ends)))
  ]
]

typed_line :
    (line : Text)
    → IsPlain line
    → (more : Bytes)
    → lines_of [] (encode_pty_input line ++ more) ≡ as_bytes line ∷ lines_of [] more
typed_line line p more = rw (encode_pty_input-plain line p) (
    ap (lines_of []) (append_assoc (as_bytes line) (b'\n' ∷ []) more)
    ∙ lines_of-line [] (as_bytes line) more p.0)

-- A message that was typed, and whether it can be written and flushed.
abbrev pub Typing : Type 0
Typing = Text × Bool × Bool

abbrev pub writing : Typing → Writing
writing (line, write_all, flush) = record {
  bytes = encode_pty_input line;
  write_all = write_all;
  flush = flush;
}

pub writer-lines :
    (ts : List Typing)
    → All (λ t. IsPlain t.0) ts
    → (done : List Typing) × (left : List Typing) × (ts ≡ done ++ left)
      × (lines_of [] (concat (writer (map writing ts)).0) ≡ map (λ t. as_bytes t.0) done)
      × ((writer (map writing ts)).1 ≡ false → left ≡ [])
unfolding writer
writer-lines [] plain = ([], [], refl, refl, λ h. refl)
writer-lines ((line, false, flush) ∷ ts) (p, plain) =
    ([], (line, false, flush) ∷ ts, refl, refl, λ h. absurd (cc h))
writer-lines ((line, true, false) ∷ ts) (p, plain) =
    ((line, true, false) ∷ [], ts, refl, typed_line line p [], λ h. absurd (cc h))
writer-lines ((line, true, true) ∷ ts) (p, plain) =
    let (done, left, split, same, whole) = writer-lines ts plain in
    (
      (line, true, true) ∷ done,
      left,
      ap (◌∷◌ (line, true, true)) split,
      typed_line line p (concat (writer (map writing ts)).0) ∙ ap (◌∷◌ (as_bytes line)) same,
      whole,
    )

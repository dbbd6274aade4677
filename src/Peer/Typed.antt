-- ===== src/Peer/Typed.antt =====
-- What the shell is given to read for a message (`encode_pty_input`).
use loraterm.Common.{
  sym, ◌≡◌, ◌≢◌, ◌↔◌, ◌⊎◌, refl, ap, ◌∙◌, inl, inr, ℕ, Bool, true, [], ◌∷◌, ◌++◌, arith, Bool-cases,
}
use loraterm.Text.{Text, Bytes, chars, trim, to_ascii_lowercase, eq_text, ends_with, as_bytes}
use loraterm.Peer.{encode_pty_input}

-- The message is the token for an interrupt, in any case and with whitespace around it.
abbrev pub is_interrupt : Text → Bool
is_interrupt line = eq_text (to_ascii_lowercase (trim line)) (chars "[ctrl-c]")

ends_with-append : (d : ℕ) (s : Text) → ends_with d s ≡ true → (body : Text) × (s ≡ body ++ d ∷ [])
unfolding ends_with
ends_with-append d [] e = absurd cc
ends_with-append d (c ∷ []) e = ([], ground arith)
ends_with-append d (c ∷ c' ∷ s) e =
    let (body, same) = ends_with-append d (c' ∷ s) e in (c ∷ body, ap (◌∷◌ c) same)

-- What a line of input is: the bytes of a message that ends in a newline, as they are, and those of
-- any other message with a newline behind them.
pub record IsLine (line : Text) (payload : Bytes) : Type 0 where
  pub body : Bytes
  pub ends : payload ≡ body ++ b'\n' ∷ []
  pub same :
      (as_bytes line ≡ payload)
      ⊎ ((as_bytes line ≡ body) × ((front : Bytes) → as_bytes line ≢ front ++ b'\n' ∷ []))

append-ends_with : (d : ℕ) (front : Text) → ends_with d (front ++ d ∷ []) ≡ true
unfolding ends_with
append-ends_with d [] = ground arith
append-ends_with d (c ∷ []) = ground arith
append-ends_with d (c ∷ c' ∷ front) = append-ends_with d (c' ∷ front)

-- The payload for a message is the single byte 3 exactly if the message is the token for an
-- interrupt. For any other message it is the bytes of the message if they end in a newline, and
-- otherwise these with one newline behind them.
pub encode_pty_input-IsLine :
    (line : Text)
    → ((encode_pty_input line ≡ 3 ∷ []) ↔ (is_interrupt line ≡ true))
      × ((is_interrupt line ≡ true) ⊎ IsLine line (encode_pty_input line))
unfolding encode_pty_input
encode_pty_input-IsLine line = elim (Bool-cases (is_interrupt line)) [
  | inl interrupt ↦ (((λ e. interrupt), (λ e. rw interrupt)), inl interrupt)
  | inr other ↦
      let l : IsLine line (encode_pty_input line) =
        elim (Bool-cases (ends_with b'\n' (as_bytes line))) [
          | inl ended ↦
              let (body, same) = ends_with-append b'\n' (as_bytes line) ended in
              rw (other, ended) (record { body = body; ends = same; same = inl refl })
          | inr open_line ↦
              rw (other, open_line)
                (record {
                  body = as_bytes line;
                  ends = refl;
                  same = inr (refl, λ front e. cc (append-ends_with b'\n' front, e, open_line));
                })
        ] in
      (((λ e. absurd (newline-ne l.body (sym l.ends ∙ e))), (λ e. absurd cc)), inr l)
]
  where
    newline-ne : (body : Bytes) → body ++ b'\n' ∷ [] ≡ 3 ∷ [] → ⊥
    newline-ne [] e = absurd (cc e)
    newline-ne (b ∷ []) e = absurd (cc e)
    newline-ne (b ∷ c ∷ body) e = absurd (cc e)

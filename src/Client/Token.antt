-- ===== src/Client/Token.antt =====
-- Which texts are tokens.
use loraterm.Common.{
  ◌≤◌, ◌≡◌, ◌↔◌, refl, sym, ap, inl, inr, true, false, [], ◌∷◌, all, length, arith, is_empty, ltb,
  ◌||◌, Bool-cases,
}
use loraterm.Text.{Text, len, trim, is_ascii_graphic}
use loraterm.Config.{ok}
use loraterm.Client.{check_token, new}

len-graphic : (s : Text) → all is_ascii_graphic s ≡ true → len s ≡ length s
unfolding len is_ascii_graphic
len-graphic [] h = refl
len-graphic (c ∷ s) h = ground (arith, len-graphic s)

-- A token has 16 to 128 characters, all of them graphic ASCII: no blank and no line break.
pub record IsToken (t : Text) : Type 0 where
  pub size : (16 ≤ length t) × (length t ≤ 128)
  pub graphic : all is_ascii_graphic t ≡ true

check_token-IsToken : (s t : Text) → check_token s ≡ ok t → (t ≡ s) × IsToken s
unfolding check_token
check_token-IsToken s t e = elim (Bool-cases (is_empty s)) [
  | inl empty ↦ absurd (cc (rw empty at e))
  | inr some_text ↦ elim (Bool-cases (ltb (len s) 16 || ltb 128 (len s))) [
    | inl size ↦ absurd (cc (rw (some_text, size) at e))
    | inr size ↦ elim (Bool-cases (all is_ascii_graphic s)) [
      | inr other ↦ absurd (cc (rw (some_text, size, other) at e))
      | inl graphic ↦ (
        cc (rw (some_text, size, graphic) at e),
        record { size = ground (arith, size, len-graphic s graphic); graphic = graphic },
      )
    ]
  ]
]

IsToken-check_token : (s t : Text) → t ≡ s → IsToken s → check_token s ≡ ok t
unfolding check_token
IsToken-check_token [] t same h = absurd (omega (arith, h.size.0))
IsToken-check_token (c ∷ s) t same h =
    let fits : (ltb (len (c ∷ s)) 16 || ltb 128 (len (c ∷ s))) ≡ false =
      ground (arith, len-graphic (c ∷ s) h.graphic, h.size.0, h.size.1) in
    rw (fits, h.graphic) (ap ok (sym same))

-- A text is accepted exactly if it is a token once the whitespace around it is gone, and it is
-- accepted as that token.
pub new-IsToken : (raw t : Text) → (new raw ≡ ok t) ↔ ((t ≡ trim raw) × IsToken (trim raw))
unfolding new
new-IsToken raw t =
    (check_token-IsToken (trim raw) t, (λ h. IsToken-check_token (trim raw) t h.0 h.1))

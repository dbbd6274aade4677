-- ===== src/Chunker/Split/Panics.antt =====
-- The loop of the split ends on its fuel; it panics only at whitespace of several bytes.
use mathlib.Core.List.{append_assoc}
use loraterm.Common.{
  false, ℕ, zero, suc, ◌+◌, ◌-◌, ◌≤◌, ◌<◌, ◌≡◌, ◌≢◌, ◌⊎◌, refl, subst, ap, inl, inr, true, List, [],
  ◌∷◌, ◌++◌, some, arith, ok, diverged, leb, ◌==◌, ◌>>=◌, Bool-cases, >>=-eq-diverged, ltb,
  Option-cases, All-append_right, All-intro, take-All, take-append-drop, length, length-append,
  take, drop, All, Bool,
}
use loraterm.Text.{
  Text, len, len_utf8, split_at, rfind, is_whitespace, trim_start_matches, trim_end_matches,
}
use loraterm.Text.Laws.{
  trim_start_matches-All, split_at-len, rfind-eq_some, len-append, length-trim_start_matches-le,
}
use loraterm.Chunker.Split.{
  is_newline, is_space_or_tab, window_end, break_at, split_round, split_loop,
  split_into_char_chunks,
}
use loraterm.Chunker.Split.Bounds.{split_round_lem, window_end-len}

split_at-ne-diverged : (s : Text) (n : ℕ) → split_at s n ≢ diverged
unfolding split_at
split_at-ne-diverged s zero e = cc
split_at-ne-diverged [] (suc n) e = cc
split_at-ne-diverged (c ∷ s) (suc n) e = elim (Bool-cases (ltb (suc n) (len_utf8 c))) [
  | inl low ↦ absurd (cc (rw low at e))
  | inr high ↦ elim (>>=-eq-diverged (split_at s (suc n - len_utf8 c)) _ (rw high at e)) [
    | inl stuck ↦ split_at-ne-diverged s (suc n - len_utf8 c) stuck
    | inr ((h, t), _, e') ↦ cc
  ]
]

split_round-ne-diverged : (max_chars : ℕ) (rest : Text) → split_round max_chars rest ≢ diverged
unfolding split_round
split_round-ne-diverged max_chars rest e =
    elim (>>=-eq-diverged (split_at rest (window_end max_chars rest)) _ e) [
      | inl stuck ↦ split_at-ne-diverged rest (window_end max_chars rest) stuck
      | inr ((window, _), _, stuck) ↦ split_at-ne-diverged rest _ stuck
    ]

-- Each round takes at least one character off the rest.
split_round-shorter :
    (max_chars : ℕ) (rest : Text) {head tail : Text}
    → 1 ≤ max_chars
    → max_chars < length rest
    → split_round max_chars rest ≡ ok (head, tail)
    → length (trim_start_matches is_space_or_tab tail) < length rest
split_round-shorter max_chars rest {head} {tail} pos long e =
    let (er, eh, el) = split_round_lem max_chars rest pos long e in
    omega (
      arith,
      length-trim_start_matches-le is_space_or_tab tail,
      ap length er,
      length-append head tail,
    )

split_loop-ne-diverged :
    (fuel max_chars : ℕ) (text : Text)
    → 1 ≤ max_chars
    → length text < fuel
    → split_loop fuel max_chars text ≢ diverged
unfolding split_loop
split_loop-ne-diverged zero max_chars text pos h e = absurd (omega arith)
split_loop-ne-diverged (suc fuel) max_chars [] pos h e = cc
split_loop-ne-diverged (suc fuel) max_chars (c ∷ s) pos h e =
    elim (Bool-cases (leb (length (c ∷ s)) max_chars)) [
      | inl fits ↦ cc (rw fits at e)
      | inr long ↦ elim (>>=-eq-diverged (split_round max_chars (c ∷ s)) _ (rw long at e)) [
        | inl stuck ↦ split_round-ne-diverged max_chars (c ∷ s) stuck
        | inr ((head, tail), er, e') ↦ elim (>>=-eq-diverged (split_loop fuel max_chars _) _ e') [
          | inl stuck ↦
              split_loop-ne-diverged fuel max_chars _ pos
                (omega (arith, split_round-shorter max_chars (c ∷ s) pos (ground arith) er)) stuck
          | inr (rest, _, done) ↦ cc
        ]
      ]
    ]

-- The loop of `split_into_char_chunks` ends, whatever the text and the limit.
pub split_into_char_chunks-ne-diverged :
    (text : Text) (max_chars : ℕ) → split_into_char_chunks text max_chars ≢ diverged
unfolding split_into_char_chunks
split_into_char_chunks-ne-diverged text max_chars e = elim (Bool-cases (max_chars == 0)) [
  | inl zero_max ↦ cc (rw zero_max at e)
  | inr pos ↦
      split_loop-ne-diverged (suc (length text)) max_chars text (ground arith) (omega arith)
        (rw pos at e)
]

-- Every whitespace character of the text is a single byte in UTF-8.
abbrev pub OneByteSpaces : Text → Type 0
OneByteSpaces = All (λ c. (is_whitespace c ≡ false) ⊎ (c < 0x80))

one_byte : (p : ℕ → Bool) (c : ℕ) → (p c ≡ false) ⊎ (c < 0x80) → p c ≡ true → c < 0x80
one_byte p c (inl miss) hit = absurd cc
one_byte p c (inr low) hit = low

-- A split just behind the last match of a test does not panic, if that match is one byte.
split_at-behind :
    (p : ℕ → Bool) (s t : Text) {i : ℕ}
    → All (λ c. (p c ≡ false) ⊎ (c < 0x80)) s
    → rfind p s ≡ some i
    → (h : Text) × (u : Text) × (split_at (s ++ t) (i + 1) ≡ ok (h, u))
split_at-behind p s t {i} narrow e =
    let (a, c, b, es, ea, ec) = rfind-eq_some p s e in
    let one : c < 0x80 =
      one_byte p c (All-append_right _ a (c ∷ b) (subst (All _) es narrow)).0 ec in
    let width : i + 1 ≡ len (a ++ c ∷ []) =
      unfold len len_utf8 in ground (arith, len-append a (c ∷ [])) in
    let parts : s ++ t ≡ (a ++ c ∷ []) ++ (b ++ t) = rw es (simp append_assoc) in
    (a ++ c ∷ [], b ++ t, rw (parts, width) (split_at-len (a ++ c ∷ []) (b ++ t)))

newline_one_byte : (c : ℕ) → (is_newline c ≡ false) ⊎ (c < 0x80)
unfolding is_newline
newline_one_byte c = elim (Bool-cases (c == b'\n')) [
  | inl newline ↦ inr (ground arith)
  | inr other ↦ inl other
]

newline_narrow : (s : Text) → All (λ c. (is_newline c ≡ false) ⊎ (c < 0x80)) s
unfolding is_newline
newline_narrow = All-intro _ newline_one_byte

-- The second slice of a round, given the first.
split_at-break_at :
    (window after : Text)
    → OneByteSpaces window
    → (h : Text) × (u : Text) × (split_at (window ++ after) (break_at window (len window))
        ≡ ok (h, u))
unfolding break_at
split_at-break_at window after narrow = elim (Option-cases (rfind is_newline window)) [
  | inr (i, e) ↦
      rw (e, break_at) (split_at-behind is_newline window after (newline_narrow window) e)
  | inl e ↦
      rw (e, break_at)
        (elim (Option-cases (rfind is_whitespace window)) [
          | inr (i, e') ↦ rw e' (split_at-behind is_whitespace window after narrow e')
          | inl e' ↦ rw e' (window, after, split_at-len window after)
        ])
]

split_round-returns :
    (max_chars : ℕ) (rest : Text)
    → max_chars < length rest
    → OneByteSpaces rest
    → (head : Text) × (tail : Text) × (split_round max_chars rest ≡ ok (head, tail))
unfolding split_round
split_round-returns max_chars rest long narrow =
    let window = take max_chars rest in
    let after = drop max_chars rest in
    let whole : window ++ after ≡ rest = take-append-drop max_chars rest in
    let first : split_at rest (len window) ≡ ok (window, after) =
      rw whole at (split_at-len window after) in
    let second = rw whole at (split_at-break_at window after (take-All _ max_chars rest narrow)) in
    rw (window_end-len max_chars rest long, first, ◌>>=◌) second

split_loop-returns :
    (fuel max_chars : ℕ) (text : Text)
    → 1 ≤ max_chars
    → length text < fuel
    → OneByteSpaces text
    → (chunks : List Text) × (split_loop fuel max_chars text ≡ ok chunks)
unfolding split_loop
split_loop-returns zero max_chars text pos h narrow = absurd (omega arith)
split_loop-returns (suc fuel) max_chars [] pos h narrow = ([], refl)
split_loop-returns (suc fuel) max_chars (c ∷ s) pos h narrow =
    elim (Bool-cases (leb (length (c ∷ s)) max_chars)) [
      | inl fits ↦ (trim_end_matches is_newline (c ∷ s) ∷ [], rw fits)
      | inr long ↦
          let (head, tail, er) = split_round-returns max_chars (c ∷ s) (ground arith) narrow in
          let (parts, _, _) = split_round_lem max_chars (c ∷ s) pos (ground arith) er in
          let shorter = split_round-shorter max_chars (c ∷ s) pos (ground arith) er in
          let narrow' = All-append_right _ head tail (subst OneByteSpaces parts narrow) in
          let (chunks, el) =
            split_loop-returns fuel max_chars (trim_start_matches is_space_or_tab tail) pos
              (omega arith) (trim_start_matches-All _ is_space_or_tab tail narrow') in
          (trim_end_matches is_newline head ∷ chunks, rw (long, er, ◌>>=◌, el))
    ]

-- On a text whose whitespace is all of one byte (ASCII whitespace), the split returns: it does not
-- panic, and its loop ends.
pub split_into_char_chunks-returns :
    (text : Text) (max_chars : ℕ)
    → OneByteSpaces text
    → (chunks : List Text) × (split_into_char_chunks text max_chars ≡ ok chunks)
unfolding split_into_char_chunks
split_into_char_chunks-returns text max_chars narrow = elim (Bool-cases (max_chars == 0)) [
  | inl zero_max ↦ (text ∷ [], rw zero_max)
  | inr pos ↦
      rw pos
        (split_loop-returns (suc (length text)) max_chars text (ground arith) (omega arith) narrow)
]

-- ===== src/Chunker/Split/Bounds.antt =====
-- The rounds of the split shorten the rest, so its loop ends; every chunk is short, and the chunks
-- hold all that the text shows.
use mathlib.Core.List.{append-nil}
use loraterm.Common.{
  ℕ, zero, suc, ◌≤◌, ◌<◌, ◌≡◌, refl, sym, ◌≡⟨◌⟩◌, ◌∎, inl, inr, true, false, List, [], ◌∷◌, ◌++◌,
  some, arith, ok, leb, ◌==◌, Bool-cases, Option-cases, >>=-eq-ok, length, length-append, take,
  concat, All, retain-append,
}
use loraterm.Text.{Text, len, split_at, rfind, is_whitespace, trim_start_matches, trim_end_matches}
use loraterm.Text.Laws.{
  split_at-append, length-le_of_len, nth_index-len, rfind-eq_some, len-append, len_utf8_pos,
  length-trim_start_matches-le, length-trim_end_matches-le, visible, visible-trim_start_matches,
  visible-trim_end_matches,
}
use loraterm.Chunker.Split.{
  is_newline, is_space_or_tab, window_end, break_at, split_round, split_loop,
  split_into_char_chunks,
}

pub window_end-len :
    (max_chars : ℕ) (rest : Text)
    → max_chars < length rest
    → window_end max_chars rest ≡ len (take max_chars rest)
unfolding window_end
window_end-len max_chars rest h = rw (nth_index-len max_chars rest h, window_end)

rfind-lt : (p : ℕ → _) (s : Text) {i : ℕ} → rfind p s ≡ some i → i < len s
unfolding len
rfind-lt p s e =
    let (a, c, b, es, el, ec) = rfind-eq_some p s e in
    rw es (omega (arith, len-append a (c ∷ b), len_utf8_pos c))

-- The break lies in the window, behind its first character.
break_at_bounds :
    (window : Text) (end : ℕ)
    → 1 ≤ end
    → len window ≤ end
    → (1 ≤ break_at window end) × (break_at window end ≤ end)
unfolding break_at
break_at_bounds window end pos fits = elim (Option-cases (rfind is_newline window)) [
  | inr (i, e) ↦ rw (e, break_at) (omega (arith, rfind-lt is_newline window e))
  | inl e ↦
      rw (e, break_at)
        (elim (Option-cases (rfind is_whitespace window)) [
          | inr (i, e') ↦ rw e' (omega (arith, rfind-lt is_whitespace window e'))
          | inl e' ↦ rw e' (omega arith)
        ])
]

len_pos : (k : ℕ) (s : Text) → 1 ≤ k → k ≤ length s → 1 ≤ len (take k s)
unfolding len
len_pos zero s h l = absurd (omega arith)
len_pos (suc k) [] h l = absurd (omega arith)
len_pos (suc k) (c ∷ s) h l = omega (arith, len_utf8_pos c)

length_pos : (s : Text) → 1 ≤ len s → 1 ≤ length s
unfolding len
length_pos [] h = h
length_pos (c ∷ s) h = omega arith

-- A round that does not panic splits the rest behind at least one and at most `max_chars`
-- characters.
pub split_round_lem :
    (max_chars : ℕ) (rest : Text) {head tail : Text}
    → 1 ≤ max_chars
    → max_chars < length rest
    → split_round max_chars rest ≡ ok (head, tail)
    → (rest ≡ head ++ tail) × (1 ≤ length head) × (length head ≤ max_chars)
unfolding split_round
split_round_lem max_chars rest {head} {tail} pos long e =
    let we = window_end-len max_chars rest long in
    let ((window, after), ew, eh) = >>=-eq-ok (split_at rest (window_end max_chars rest)) _ e in
    let parts = split_at-append rest (window_end max_chars rest) ew in
    let bounds =
      break_at_bounds window (window_end max_chars rest)
        (rw we (len_pos max_chars rest pos (omega arith))) (omega (arith, parts.1)) in
    let halves = split_at-append rest (break_at window (window_end max_chars rest)) eh in
    let fits : len head ≤ len (take max_chars rest) = omega (arith, halves.1, bounds.1, we) in
    (
      halves.0,
      length_pos head (omega arith),
      length-le_of_len head tail max_chars (rw halves.0 at fits),
    )

-- What one round does to the whole text, for a text that is longer than a chunk.
pub split_loop-cons-eq-ok :
    (fuel max_chars c : ℕ) (s : Text) {chunks : List Text}
    → max_chars < length (c ∷ s)
    → split_loop (suc fuel) max_chars (c ∷ s) ≡ ok chunks
    → (head : Text) × (tail : Text) × (rest : List Text) × (split_round max_chars (c ∷ s)
        ≡ ok (head, tail))
      × (split_loop fuel max_chars (trim_start_matches is_space_or_tab tail) ≡ ok rest)
      × (chunks ≡ trim_end_matches is_newline head ∷ rest)
unfolding split_loop
split_loop-cons-eq-ok fuel max_chars c s long e =
    let no : leb (length (c ∷ s)) max_chars ≡ false = ground arith in
    let ((head, tail), er, e') = >>=-eq-ok (split_round max_chars (c ∷ s)) _ (rw no at e) in
    let (rest, el, e'') =
      >>=-eq-ok (split_loop fuel max_chars (trim_start_matches is_space_or_tab tail)) _ e' in
    (head, tail, rest, er, el, cc)

newline_blank : (c : ℕ) → is_newline c ≡ true → is_whitespace c ≡ true
unfolding is_newline is_whitespace
newline_blank c h = ground arith

space_or_tab_blank : (c : ℕ) → is_space_or_tab c ≡ true → is_whitespace c ≡ true
unfolding is_space_or_tab is_whitespace
space_or_tab_blank c h = ground arith

-- Of the chunks: short, no more of them than characters, and all that is visible in the text, in
-- order.
pub record IsSplit (max_chars : ℕ) (text : Text) (chunks : List Text) : Type 0 where
  pub short : All (λ c. length c ≤ max_chars) chunks
  pub few : length chunks ≤ length text
  pub complete : visible (concat chunks) ≡ visible text

IsSplit-one :
    (max_chars : ℕ) (text : Text)
    → length text ≤ max_chars
    → 1 ≤ length text
    → IsSplit max_chars text (trim_end_matches is_newline text ∷ [])
IsSplit-one max_chars text h pos = record {
  short = (omega (arith, length-trim_end_matches-le is_newline text), tt);
  few = omega arith;
  complete = rw append-nil (visible-trim_end_matches is_newline newline_blank text);
}

IsSplit-cons :
    (max_chars : ℕ) (head tail : Text) (rest : List Text)
    → length head ≤ max_chars
    → 1 ≤ length head
    → IsSplit max_chars (trim_start_matches is_space_or_tab tail) rest
    → IsSplit max_chars (head ++ tail) (trim_end_matches is_newline head ∷ rest)
IsSplit-cons max_chars head tail rest h pos r = record {
  short = (omega (arith, length-trim_end_matches-le is_newline head), r.short);
  few =
      omega
        (arith, r.few, length-append head tail, length-trim_start_matches-le is_space_or_tab tail);
  complete =
      visible (trim_end_matches is_newline head ++ concat rest)
      ≡⟨ retain-append _ (trim_end_matches is_newline head) (concat rest) ⟩
        visible (trim_end_matches is_newline head) ++ visible (concat rest)
      ≡⟨ (rw (visible-trim_end_matches is_newline newline_blank head, r.complete)) ⟩
        visible head ++ visible (trim_start_matches is_space_or_tab tail)
      ≡⟨ (rw (visible-trim_start_matches is_space_or_tab space_or_tab_blank tail)) ⟩
        visible head ++ visible tail
      ≡⟨ sym (retain-append _ head tail) ⟩ visible (head ++ tail) ∎;
}

split_loop-IsSplit :
    (fuel max_chars : ℕ) (text : Text) {chunks : List Text}
    → 1 ≤ max_chars
    → split_loop fuel max_chars text ≡ ok chunks
    → IsSplit max_chars text chunks
split_loop-IsSplit zero max_chars text pos e = unfold split_loop in cc
split_loop-IsSplit (suc fuel) max_chars [] {chunks} pos e =
    let done : [] ≡ chunks = unfold split_loop in cc in
    rw (← done) (record { short = tt; few = omega arith; complete = refl })
split_loop-IsSplit (suc fuel) max_chars (c ∷ s) {chunks} pos e =
    elim (Bool-cases (leb (length (c ∷ s)) max_chars)) [
      | inl fits ↦
          let done : trim_end_matches is_newline (c ∷ s) ∷ [] ≡ chunks =
            unfold split_loop in ground arith in
          rw (← done) (IsSplit-one max_chars (c ∷ s) (ground arith) (omega arith))
      | inr long ↦
          let (head, tail, rest, er, el, ec) =
            split_loop-cons-eq-ok fuel max_chars c s (ground arith) e in
          let round = split_round_lem max_chars (c ∷ s) pos (ground arith) er in
          rw (ec, round.0)
            (IsSplit-cons max_chars head tail rest round.2 round.1
              (split_loop-IsSplit fuel max_chars (trim_start_matches is_space_or_tab tail) pos el))
    ]

-- A split that returns has cut the text into chunks of at most `max_chars` characters, no more of
-- them than the text has characters, and all that is not whitespace is in them, in order.
pub split_into_char_chunks-IsSplit :
    (text : Text) (max_chars : ℕ) {chunks : List Text}
    → 1 ≤ max_chars
    → split_into_char_chunks text max_chars ≡ ok chunks
    → IsSplit max_chars text chunks
unfolding split_into_char_chunks
split_into_char_chunks-IsSplit text max_chars pos e =
    let positive : (max_chars == 0) ≡ false = ground arith in
    split_loop-IsSplit (suc (length text)) max_chars text pos (rw positive at e)

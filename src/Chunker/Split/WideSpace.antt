-- ===== src/Chunker/Split/WideSpace.antt =====
-- The fallback to the last whitespace takes `i + 1` as the index behind it, also where the
-- whitespace character is longer than one byte: the slice then falls inside it.
use loraterm.Common.{
  ℕ, zero, suc, ◌+◌, ◌-◌, ◌≤◌, ◌<◌, ◌≡◌, refl, subst, Bool, true, false, [], ◌∷◌, ◌++◌, none, some,
  arith, ok, panicked, leb, ◌==◌, ◌>>=◌, length, take, drop, All, All-append, take-All,
  take-append-drop,
}
use loraterm.Text.{Text, len, len_utf8, split_at, rfind, is_whitespace}
use loraterm.Text.Laws.{split_at-inside, split_at-len}
use loraterm.Chunker.Split.{is_newline, break_at, split_round, split_loop, split_into_char_chunks}
use loraterm.Chunker.Split.Bounds.{window_end-len}

rfind-none : (p : ℕ → Bool) (s : Text) → All (λ c. p c ≡ false) s → rfind p s ≡ none
unfolding rfind
rfind-none p [] h = refl
rfind-none p (c ∷ s) h = rw (rfind-none p s h.1, h.0)

rfind-append :
    (p : ℕ → Bool) (a b : Text) (c : ℕ)
    → p c ≡ true
    → All (λ d. p d ≡ false) b
    → rfind p (a ++ c ∷ b) ≡ some (len a)
unfolding rfind len
rfind-append p [] b c hit miss = rw (rfind-none p b miss, hit)
rfind-append p (d ∷ a) b c hit miss = rw (rfind-append p a b c hit miss)

take-append :
    (max : ℕ) (a b : Text) (c : ℕ)
    → length a < max
    → take max (a ++ c ∷ b) ≡ a ++ c ∷ take (max - length a - 1) b
take-append zero a b c h = absurd (omega arith)
take-append (suc max) [] b c h = let e : suc max - 0 - 1 ≡ max = omega arith in rw e
take-append (suc max) (d ∷ a) b c h =
    let e : suc max - suc (length a) - 1 ≡ max - length a - 1 = omega arith in
    rw (e, take-append max a b c (omega arith))

len_utf8_wide : (c : ℕ) → 0x80 ≤ c → 2 ≤ len_utf8 c
unfolding len_utf8
len_utf8_wide c h = ground arith

newline_ne_wide : (c : ℕ) → 0x80 ≤ c → is_newline c ≡ false
unfolding is_newline
newline_ne_wide c h = ground arith

newline_ne_visible :
    (b : Text) → All (λ d. is_whitespace d ≡ false) b → All (λ d. is_newline d ≡ false) b
unfolding is_newline is_whitespace
newline_ne_visible [] h = tt
newline_ne_visible (c ∷ b) h = (ground (arith, h.0), newline_ne_visible b h.1)

break_at-whitespace :
    (window : Text) (end : ℕ) {i : ℕ}
    → rfind is_newline window ≡ none
    → rfind is_whitespace window ≡ some i
    → break_at window end ≡ i + 1
unfolding break_at
break_at-whitespace window end e e' = ground arith

split_round-panics :
    (a b : Text) (c max_chars : ℕ)
    → is_whitespace c ≡ true
    → 0x80 ≤ c
    → All (λ d. is_newline d ≡ false) a
    → All (λ d. is_whitespace d ≡ false) b
    → length a < max_chars
    → max_chars < length (a ++ c ∷ b)
    → split_round max_chars (a ++ c ∷ b) ≡ panicked
unfolding split_round
split_round-panics a b c max_chars blank wide no_newline no_space fits long =
    let rest = a ++ c ∷ b in
    let w = take (max_chars - length a - 1) b in
    let visible_w = take-All _ (max_chars - length a - 1) b no_space in
    let shape : take max_chars rest ≡ a ++ c ∷ w = take-append max_chars a b c fits in
    let first : split_at rest (len (take max_chars rest))
        ≡ ok (take max_chars rest, drop max_chars rest) =
      subst
        (λ t.
          split_at t (len (take max_chars rest)) ≡ ok (take max_chars rest, drop max_chars rest))
        (take-append-drop max_chars rest)
        (split_at-len (take max_chars rest) (drop max_chars rest)) in
    let no_break =
      All-append _ a (c ∷ w) no_newline (newline_ne_wide c wide, newline_ne_visible w visible_w) in
    let break : break_at (take max_chars rest) (len (take max_chars rest)) ≡ len a + 1 = rw shape (
      break_at-whitespace (a ++ c ∷ w) _ (rfind-none is_newline (a ++ c ∷ w) no_break)
        (rfind-append is_whitespace a w c blank visible_w)) in
    rw (window_end-len max_chars rest long, first, ◌>>=◌, break)
      (split_at-inside a b c (len a + 1) (omega arith) (omega (arith, len_utf8_wide c wide)))

split_loop-panics :
    (fuel max_chars : ℕ) (text : Text)
    → max_chars < length text
    → split_round max_chars text ≡ panicked
    → split_loop (suc fuel) max_chars text ≡ panicked
unfolding split_loop
split_loop-panics fuel max_chars [] h e = absurd (omega arith)
split_loop-panics fuel max_chars (c ∷ s) h e =
    let long : leb (length (c ∷ s)) max_chars ≡ false = ground arith in rw (long, e)

-- A line longer than `max_chars` whose last whitespace among the first `max_chars` characters takes
-- more than one byte (such as a no-break space) makes the split panic: `a` has no newline and is
-- shorter than `max_chars`, `c` is that whitespace, and `b` has none.
pub split_into_char_chunks-panics :
    (a b : Text) (c max_chars : ℕ)
    → is_whitespace c ≡ true
    → 0x80 ≤ c
    → All (λ d. is_newline d ≡ false) a
    → All (λ d. is_whitespace d ≡ false) b
    → length a < max_chars
    → max_chars < length (a ++ c ∷ b)
    → split_into_char_chunks (a ++ c ∷ b) max_chars ≡ panicked
unfolding split_into_char_chunks
split_into_char_chunks-panics a b c max_chars blank wide no_newline no_space fits long =
    let positive : (max_chars == 0) ≡ false = ground arith in
    rw positive (
      split_loop-panics (length (a ++ c ∷ b)) max_chars (a ++ c ∷ b) long
        (split_round-panics a b c max_chars blank wide no_newline no_space fits long))

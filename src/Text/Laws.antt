-- ===== src/Text/Laws.antt =====
-- Laws of the text functions: lengths in bytes, splits at byte indices, trimming.
use loraterm.Common.{
  panicked, ℕ, zero, suc, ◌+◌, ◌-◌, ◌≤◌, ◌<◌, ◌≡◌, refl, ap, ◌∙◌, inl, inr, Bool, true, not, [],
  ◌∷◌, ◌++◌, some, arith, ok, ltb, Bool-cases, Option-cases, >>=-eq-ok, length, take, retain, All,
}
use loraterm.Text.{
  Text, len, len_utf8, encode_char, split_at, rfind, nth_index, is_whitespace, trim_start_matches,
  trim_end_matches, trim,
}

pub len_utf8_pos : (c : ℕ) → 1 ≤ len_utf8 c
unfolding len_utf8
len_utf8_pos c = ground arith

pub length-encode_char : (c : ℕ) → length (encode_char c) ≡ len_utf8 c
unfolding len_utf8 encode_char
length-encode_char c = ground arith

pub len-append : (s t : Text) → len (s ++ t) ≡ len s + len t
unfolding len
len-append [] t = omega arith
len-append (c ∷ s) t = omega (arith, len-append s t)

pub length-le-len : (s : Text) → length s ≤ len s
unfolding len
length-le-len [] = omega arith
length-le-len (c ∷ s) = omega (arith, length-le-len s, len_utf8_pos c)

-- A split returns the two parts of the text, the first as long as the index says.
pub split_at-append :
    (s : Text) (n : ℕ) {h t : Text} → split_at s n ≡ ok (h, t) → (s ≡ h ++ t) × (len h ≡ n)
unfolding split_at len
split_at-append s zero e = ground arith
split_at-append [] (suc n) e = cc
split_at-append (c ∷ s) (suc n) {h} {t} e = elim (Bool-cases (ltb (suc n) (len_utf8 c))) [
  | inl low ↦ absurd (cc (rw low at e))
  | inr high ↦
      let ((h', t'), e', e'') = >>=-eq-ok (split_at s (suc n - len_utf8 c)) _ (rw high at e) in
      ground (arith, split_at-append s (suc n - len_utf8 c) e')
]

-- One round of the split, at an index past the first character.
split_at-cons :
    (c : ℕ) (s : Text) (n m : ℕ) {h t : Text}
    → m ≡ len_utf8 c + n
    → split_at s n ≡ ok (h, t)
    → split_at (c ∷ s) m ≡ ok (c ∷ h, t)
unfolding split_at
split_at-cons c s n zero e r = absurd (omega (arith, len_utf8_pos c))
split_at-cons c s n (suc m) e r =
    let rest : suc m - len_utf8 c ≡ n = omega arith in rw rest (ground arith)

-- A split at a character boundary does not panic.
pub split_at-len : (h t : Text) → split_at (h ++ t) (len h) ≡ ok (h, t)
unfolding len
split_at-len [] t = unfold split_at in refl
split_at-len (c ∷ h) t = split_at-cons c (h ++ t) (len h) _ refl (split_at-len h t)

-- What fits in the bytes of the first `k` characters has at most `k` characters.
pub length-le_of_len : (h t : Text) (k : ℕ) → len h ≤ len (take k (h ++ t)) → length h ≤ k
unfolding len
length-le_of_len [] t k e = omega arith
length-le_of_len (c ∷ h) t zero e = omega (arith, len_utf8_pos c)
length-le_of_len (c ∷ h) t (suc k) e = omega (arith, length-le_of_len h t k (omega arith))

pub nth_index-len : (n : ℕ) (s : Text) → n < length s → nth_index n s ≡ some (len (take n s))
unfolding nth_index len
nth_index-len n [] h = elim h [ ]
nth_index-len zero (c ∷ s) h = refl
nth_index-len (suc n) (c ∷ s) h = rw (nth_index-len n s (omega arith))

-- The last match: the text splits around it, at its byte index.
pub rfind-eq_some :
    (p : ℕ → Bool) (s : Text) {i : ℕ}
    → rfind p s ≡ some i
    → (a : Text) × (c : ℕ) × (b : Text) × (s ≡ a ++ c ∷ b) × (len a ≡ i) × (p c ≡ true)
unfolding rfind len
rfind-eq_some p [] e = absurd cc
rfind-eq_some p (c ∷ s) e = elim (Option-cases (rfind p s)) [
  | inl miss ↦ ([], c, s, refl, ground arith, ground arith)
  | inr (j, hit) ↦
      let (a, d, b, es, el, ed) = rfind-eq_some p s hit in
      (c ∷ a, d, b, ap (◌∷◌ c) es, ground arith, ed)
]

pub length-trim_start_matches-le :
    (p : ℕ → Bool) (s : Text) → length (trim_start_matches p s) ≤ length s
unfolding trim_start_matches
length-trim_start_matches-le p [] = omega arith
length-trim_start_matches-le p (c ∷ s) = ground (arith, length-trim_start_matches-le p s)

pub length-trim_end_matches-le :
    (p : ℕ → Bool) (s : Text) → length (trim_end_matches p s) ≤ length s
unfolding trim_end_matches
length-trim_end_matches-le p [] = omega arith
length-trim_end_matches-le p (c ∷ s) = ground (arith, length-trim_end_matches-le p s)

-- The characters that are not whitespace, in order.
abbrev pub visible : Text → Text
visible = retain (λ c. not (is_whitespace c))

-- Trimming characters that are all whitespace keeps the visible ones.
module _ (p : ℕ → Bool) (blank : (c : ℕ) → p c ≡ true → is_whitespace c ≡ true) where
  pub visible-trim_start_matches : (s : Text) → visible (trim_start_matches p s) ≡ visible s
  unfolding trim_start_matches
  visible-trim_start_matches [] = refl
  visible-trim_start_matches (c ∷ s) = ground (arith, visible-trim_start_matches s, blank c)

  pub visible-trim_end_matches : (s : Text) → visible (trim_end_matches p s) ≡ visible s
  unfolding trim_end_matches
  visible-trim_end_matches [] = refl
  visible-trim_end_matches (c ∷ s) = ground (arith, visible-trim_end_matches s, blank c)

pub visible-trim : (s : Text) → visible (trim s) ≡ visible s
unfolding trim
visible-trim s =
    visible-trim_end_matches is_whitespace (λ c h. h) (trim_start_matches is_whitespace s)
    ∙ visible-trim_start_matches is_whitespace (λ c h. h) s

pub trim_start_matches-All {κ} :
    (P : ℕ → Type κ) (p : ℕ → Bool) (s : Text) → All P s → All P (trim_start_matches p s)
unfolding trim_start_matches
trim_start_matches-All P p [] h = tt
trim_start_matches-All P p (c ∷ s) h = ground (arith, trim_start_matches-All P p s h.1)

-- An index inside a character panics.
pub split_at-inside :
    (a b : Text) (c m : ℕ) → len a < m → m < len a + len_utf8 c → split_at (a ++ c ∷ b) m ≡ panicked
unfolding split_at len
split_at-inside a b c zero behind before = absurd (omega arith)
split_at-inside [] b c (suc m) behind before = ground arith
split_at-inside (d ∷ a) b c (suc m) behind before = ground (
  arith,
  split_at-inside a b c (suc m - len_utf8 d) (omega (arith, len_utf8_pos d))
      (omega (arith, len_utf8_pos d)),
)

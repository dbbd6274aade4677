-- ===== src/Chunker/Split.antt =====
-- src/chunker.rs, `split_into_char_chunks`: text into pieces of at most `max_chars` characters.
-- Indices are bytes, as in the source, so a slice may panic; the `while` loop runs on fuel.
pub mod Bounds
pub mod Panics
pub mod WideSpace
use loraterm.Common.{
  ℕ, zero, suc, ◌+◌, Bool, ◌||◌, List, [], ◌∷◌, Option, none, some, Run, ok, diverged, leb, ◌==◌,
  if◌then◌else◌, ◌>>=◌, length,
}
use loraterm.Text.{
  Text, len, split_at, rfind, nth_index, is_whitespace, trim_start_matches, trim_end_matches,
}

unfoldable pub is_newline : ℕ → Bool
is_newline c = c == b'\n'

unfoldable pub is_space_or_tab : ℕ → Bool
is_space_or_tab c = c == b' ' || c == b'\t'

-- `window_end_byte`
pub window_end : ℕ → Text → ℕ
window_end max_chars rest = elim (nth_index max_chars rest) [ some b ↦ b | none ↦ len rest ]

-- `break_at_byte`
pub break_at : Text → ℕ → ℕ
unfolding is_newline
break_at window window_end_byte = elim (rfind is_newline window) [
  | some i ↦ i + 1
  | none ↦ elim (rfind is_whitespace window) [ some i ↦ i + 1 | none ↦ window_end_byte ]
]

-- The split of one round, into `head` and `tail`.
pub split_round : ℕ → Text → Run (Text × Text)
unfolding window_end break_at
split_round max_chars rest = do
  (window, _) ← split_at rest (window_end max_chars rest)
  split_at rest (break_at window (window_end max_chars rest))

pub split_loop : ℕ → ℕ → Text → Run (List Text)
unfolding is_newline is_space_or_tab split_round
split_loop zero max_chars rest = diverged
split_loop (suc fuel) max_chars [] = ok []
split_loop (suc fuel) max_chars (c ∷ s) =
    if leb (length (c ∷ s)) max_chars then ok (trim_end_matches is_newline (c ∷ s) ∷ []) else do
      (head, tail) ← split_round max_chars (c ∷ s)
      chunks ← split_loop fuel max_chars (trim_start_matches is_space_or_tab tail)
      ok (trim_end_matches is_newline head ∷ chunks)

-- One round more than the text has characters is enough.
unfoldable pub split_into_char_chunks : Text → ℕ → Run (List Text)
unfolding split_loop
split_into_char_chunks text max_chars =
    if max_chars == 0 then ok (text ∷ []) else split_loop (suc (length text)) max_chars text

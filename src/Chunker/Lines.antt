-- ===== src/Chunker/Lines.antt =====
-- src/chunker.rs, `collapse_blank_lines` and `cap_lines`: the lines of an output burst.
pub mod Collapse
pub mod Cap
use loraterm.Common.{
  ℕ, zero, suc, ◌+◌, Bool, true, false, not, ◌&&◌, List, [], ◌∷◌, ◌++◌, Option, none, some, Run, ok,
  ltb, leb, ◌==◌, if◌then◌else◌, ◌>>=◌, is_empty,
}
use loraterm.Text.{Text, Bytes, chars, len, as_bytes, split_at, trim, ends_with}

-- `str::split_inclusive('\n')`: each line with its newline; no empty last line.
abbrev put_front : ℕ → List Text → List Text
put_front c [] = (c ∷ []) ∷ []
put_front c (line ∷ lines) = (c ∷ line) ∷ lines

unfoldable pub split_inclusive : Text → List Text
split_inclusive [] = []
split_inclusive (c ∷ s) =
    if c == b'\n' then (c ∷ []) ∷ split_inclusive s else put_front c (split_inclusive s)

-- `line.trim().is_empty()`
unfoldable pub is_blank : Text → Bool
unfolding trim
is_blank line = is_empty (trim line)

-- The loop of `collapse_blank_lines`, over the lines, with `blank_run`; it yields what is pushed.
unfoldable pub collapse_lines : ℕ → List Text → Text
collapse_lines blank_run [] = []
collapse_lines blank_run (line ∷ lines) =
    let blank = is_blank line in
    let rest = collapse_lines (if blank then blank_run + 1 else 0) lines in
    if blank then (if leb (blank_run + 1) 2 then line ++ rest else rest) else line ++ rest

unfoldable pub collapse_blank_lines : Text → Text
collapse_blank_lines text = collapse_lines 0 (split_inclusive text)

-- `bytes().filter(|&b| b == b'\n').count()`
unfoldable pub count_newlines : Bytes → ℕ
count_newlines [] = 0
count_newlines (b ∷ bs) = (if b == b'\n' then 1 else 0) + count_newlines bs

-- `total`: the lines, with a last one that has no newline.
unfoldable pub count_lines : Text → ℕ
unfolding as_bytes count_newlines ends_with
count_lines text =
    count_newlines (as_bytes text)
    + (if not (is_empty text) && not (ends_with b'\n' text) then 1 else 0)

-- The loop over `text.bytes().enumerate()`: `cut_at`, which starts as the length of the text.
unfoldable pub find_cut : ℕ → ℕ → ℕ → ℕ → Bytes → ℕ
find_cut cut_at max_lines i seen [] = cut_at
find_cut cut_at max_lines i seen (b ∷ bs) =
    let seen' = if b == b'\n' then seen + 1 else seen in
    let rest = find_cut cut_at max_lines (i + 1) seen' bs in
    if b == b'\n' && (seen + 1) == max_lines then i + 1 else rest

unfoldable pub cap_lines : Text → ℕ → Run Text
cap_lines text max_lines = if leb (count_lines text) max_lines then ok text else do
  (kept, _) ← split_at text (find_cut (len text) max_lines 0 0 (as_bytes text))
  ok (kept ++ chars "[...]\n")

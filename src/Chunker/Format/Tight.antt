-- ===== src/Chunker/Format/Tight.antt =====
-- The room for a chunk's text is never below 20 characters, so with numbering on a chunk limit
-- below 26 characters is not kept.
use loraterm.Common.{
  ℕ, ◌≤◌, ◌≡◌, refl, ap, true, false, length-append, [], ◌∷◌, ◌++◌, arith, ok, length, replicate,
}
use loraterm.Text.{
  Text, chars, is_whitespace, len, split_at, rfind, nth_index, trim_start_matches, trim_end_matches,
  decimal,
}
use loraterm.Chunker.Split.{split_into_char_chunks}
use loraterm.Chunker.Lines.{
  is_blank, split_inclusive, collapse_lines, collapse_blank_lines, count_lines, cap_lines,
}
use loraterm.Chunker.Format.{
  max_lines_per_flush, ChunkerOpts, inner_max, prefixed, number_from, finish_chunks,
  chunks_from_text,
}

abbrev pub line : ℕ → Text
line n = replicate n b'a'

line-shown : is_blank (line 40) ≡ false
unfolding is_blank
line-shown = refl

line-capped : cap_lines (collapse_blank_lines (line 40)) max_lines_per_flush ≡ ok (line 40)
unfolding cap_lines collapse_blank_lines collapse_lines split_inclusive is_blank count_lines
line-capped = refl

line-split : split_into_char_chunks (line 40) 20 ≡ ok (line 20 ∷ line 20 ∷ [])
unfolding split_into_char_chunks split_at rfind nth_index is_whitespace len trim_end_matches
    trim_start_matches
line-split = refl

line_20-shown : is_blank (line 20) ≡ false
unfolding is_blank
line_20-shown = refl

length-prefixed_two : (i : ℕ) → length (decimal i) ≡ 1 → length (prefixed i 2 (line 20)) ≡ 26
unfolding prefixed decimal
length-prefixed_two i e = omega (arith, length-append (decimal i) (chars "/2] " ++ line 20))

finish_chunks-two :
    (opts : ChunkerOpts) (a b : Text)
    → opts.number_chunks ≡ true
    → 2 ≤ opts.burst_chunk_cap
    → finish_chunks opts (a ∷ b ∷ []) ≡ prefixed 1 2 a ∷ prefixed 2 2 b ∷ []
unfolding finish_chunks number_from
finish_chunks-two opts a b numbered burst = ground arith

-- With numbering on, a limit of at most 30 characters and a burst cap of at least 2, a line of 40
-- letters comes out as two chunks of 26 characters each: longer than any limit below 26.
pub chunks_from_text-over :
    (opts : ChunkerOpts)
    → opts.number_chunks ≡ true
    → opts.max_chars ≤ 30
    → 2 ≤ opts.burst_chunk_cap
    → (chunks_from_text (line 40) opts ≡ ok (prefixed 1 2 (line 20) ∷ prefixed 2 2 (line 20) ∷ []))
      × (length (prefixed 1 2 (line 20)) ≡ 26)
      × (length (prefixed 2 2 (line 20)) ≡ 26)
unfolding chunks_from_text decimal
chunks_from_text-over opts numbered small burst =
    let floor : inner_max opts ≡ 20 = unfold inner_max in ground arith in
    (
      rw (line-shown, line-capped, floor, line-split)
          (rw (line_20-shown) (ap ok (finish_chunks-two opts (line 20) (line 20) numbered burst))),
      length-prefixed_two 1 refl,
      length-prefixed_two 2 refl,
    )

-- ===== src/Chunker/Tests.antt =====
-- Runs of the code of src/chunker.rs on concrete inputs.
use loraterm.Text.{decimal}
use loraterm.Text.Laws.{visible}
use loraterm.Text.Lossy.{from_utf8_lossy}
use loraterm.Common.{
  inl, concat, ltb, all, ◌≡◌, ◌≢◌, refl, true, false, [], ◌∷◌, ◌++◌, List, some, none, inr, ok,
  panicked, diverged, All, length, arith, ◌≤◌, ◌+◌, ◌>>=◌, if◌then◌else◌,
}
use loraterm.Text.{
  as_bytes, encode_char, Text, chars, Bytes, is_whitespace, split_at, nth_index, rfind,
  trim_start_matches, trim_end_matches,
}
use loraterm.Chunker.{
  ℕ, Option, replace_cr, from_utf8_lossy, chunks_from_bytes, last_newline, ChunkerOpts,
  chunks_from_text, Chunker, push, maybe_flush, next_deadline,
}
use loraterm.Chunker.Split.{is_newline, split_into_char_chunks}
use loraterm.Chunker.Split.Bounds.{IsSplit, split_into_char_chunks-IsSplit}
use loraterm.Chunker.Split.Panics.{split_into_char_chunks-ne-diverged, OneByteSpaces}
use loraterm.Chunker.Split.WideSpace.{split_into_char_chunks-panics}
use loraterm.Chunker.Lines.{
  is_blank, cap_lines, count_lines, find_cut, collapse_blank_lines, collapse_lines, split_inclusive,
}
use loraterm.Chunker.Format.{
  marker, ChunkerOpts, chunks_from_text, inner_max, finish_chunks, prefixed, number_from,
}
use loraterm.Chunker.Format.Stages.{chunks_from_text-returns}
use loraterm.Chunker.Format.Contract.{
  chunks_from_text-short, chunks_from_text-IsNumbered, chunks_from_text_complete, IsNumbered,
}
use loraterm.Chunker.Format.Tight.{line, chunks_from_text-over}
use loraterm.Chunker.Unicode.{push-as_bytes}
use loraterm.Chunker.Flush.{drained, push-IsPushed, IsPushed, IsReady, maybe_flush_deadline}

abbrev words : Text
words = chars "hello big world"

abbrev pieces : List Text
pieces = chars "hello " ∷ chars "big " ∷ chars "world" ∷ []

split-words : split_into_char_chunks words 8 ≡ ok pieces
unfolding split_into_char_chunks split_at nth_index rfind is_whitespace trim_start_matches
    trim_end_matches
split-words = refl

-- The test of the source for a limit on characters that are longer than one byte.
split-umlauts : split_into_char_chunks (chars "äöüäöü") 4 ≡ ok (chars "äöüä" ∷ chars "öü" ∷ [])
unfolding split_into_char_chunks split_at nth_index rfind is_whitespace trim_start_matches
    trim_end_matches
split-umlauts = refl

split_into_char_chunks-IsSplit_example : IsSplit 8 words pieces
split_into_char_chunks-IsSplit_example =
    split_into_char_chunks-IsSplit words 8 (omega arith) split-words

split_into_char_chunks-ne-diverged_example : split_into_char_chunks words 8 ≢ diverged
split_into_char_chunks-ne-diverged_example = split_into_char_chunks-ne-diverged words 8

ascii_spaces : (s : Text) → all (λ c. ltb c 0x80) s ≡ true → OneByteSpaces s
ascii_spaces [] h = tt
ascii_spaces (c ∷ s) h = (inr (ground arith), ascii_spaces s (ground arith))

-- `a`, a no-break space, `bcd`, at a limit of three characters.
split_into_char_chunks-panics_example :
    split_into_char_chunks (chars "a" ++ 0xa0 ∷ chars "bcd") 3 ≡ panicked
unfolding is_whitespace is_newline
split_into_char_chunks-panics_example =
    split_into_char_chunks-panics (chars "a") (chars "bcd") 0xa0 3 refl (omega arith) (refl, tt)
      (refl, (refl, (refl, tt))) (omega arith) (omega arith)

abbrev script : Text
script = chars "one\n\n\n\n\ntwo\nthree"

cap_lines-script : cap_lines script 6 ≡ ok (chars "one\n\n\n\n\ntwo\n[...]\n")
unfolding split_at find_cut is_blank cap_lines count_lines collapse_blank_lines collapse_lines
    split_inclusive
cap_lines-script = refl

collapse-script : collapse_blank_lines script ≡ chars "one\n\n\ntwo\nthree"
unfolding is_blank cap_lines count_lines collapse_blank_lines collapse_lines split_inclusive
collapse-script = refl

abbrev letters : Text
letters = chars "alpha beta gamma delta epsilon zeta eta theta iota kappa lambda mu nu xi omicron"

abbrev lettered : List Text
lettered =
    chars "[1/2] alpha beta gamma delta epsilon zeta eta theta iota kappa "
    ∷ chars "[2/2] lambda mu nu xi omicron"
    ∷ []

abbrev narrow : ChunkerOpts
narrow = record { max_chars = 30; number_chunks = true; flush_silence = 600; burst_chunk_cap = 2 }

abbrev plain : ChunkerOpts
plain = record { max_chars = 80; number_chunks = false; flush_silence = 600; burst_chunk_cap = 4 }

abbrev numbered : ChunkerOpts
numbered = record {
  max_chars = 71;
  number_chunks = true;
  flush_silence = 600;
  burst_chunk_cap = 50;
}

chunks-plain : chunks_from_text script plain ≡ ok (chars "one\n\n\ntwo\nthree" ∷ [])
unfolding chunks_from_text is_blank cap_lines count_lines collapse_blank_lines collapse_lines
    split_inclusive split_into_char_chunks inner_max finish_chunks split_at nth_index rfind
    is_whitespace trim_start_matches trim_end_matches
chunks-plain = refl

chunks-numbered : chunks_from_text letters numbered ≡ ok lettered
unfolding chunks_from_text is_blank cap_lines count_lines collapse_blank_lines collapse_lines
    split_inclusive split_into_char_chunks inner_max finish_chunks split_at nth_index rfind
    is_whitespace trim_start_matches trim_end_matches number_from prefixed decimal
chunks-numbered = refl

chunks-words : chunks_from_text words plain ≡ ok (words ∷ [])
unfolding chunks_from_text is_blank cap_lines count_lines collapse_blank_lines collapse_lines
    split_inclusive split_into_char_chunks inner_max finish_chunks split_at nth_index rfind
    is_whitespace trim_start_matches trim_end_matches
chunks-words = refl

chunks_from_text-returns_example : (out : List Text) × (chunks_from_text script plain ≡ ok out)
chunks_from_text-returns_example = chunks_from_text-returns script plain (ascii_spaces script refl)

chunks_from_text-short_example : All (λ c. length c ≤ 71) lettered
chunks_from_text-short_example =
    chunks_from_text-short letters numbered chunks-numbered (omega arith) (omega arith)
      (omega arith)

-- Room for one chunk, and the marker for the other one.
abbrev one_chunk : ChunkerOpts
one_chunk = record numbered { burst_chunk_cap = 1 }

abbrev first_lettered : List Text
first_lettered =
    chars "[1/2] alpha beta gamma delta epsilon zeta eta theta iota kappa "
    ∷ chars "[2/2] [output truncated — 1 more chunks dropped]"
    ∷ []

chunks-one_chunk : chunks_from_text letters one_chunk ≡ ok first_lettered
unfolding chunks_from_text is_blank cap_lines count_lines collapse_blank_lines collapse_lines
    split_inclusive split_into_char_chunks inner_max finish_chunks split_at nth_index rfind
    is_whitespace trim_start_matches trim_end_matches number_from prefixed decimal marker
chunks-one_chunk = refl

chunks_from_text-IsNumbered_example : IsNumbered letters one_chunk first_lettered
chunks_from_text-IsNumbered_example = chunks_from_text-IsNumbered letters one_chunk chunks-one_chunk

chunks_from_text_complete_example : visible (concat (words ∷ [])) ≡ visible words
unfolding split_inclusive collapse_blank_lines collapse_lines is_blank
chunks_from_text_complete_example =
    chunks_from_text_complete words plain chunks-words refl (omega arith) (omega arith)

chunks_from_text-over_example :
    (chunks_from_text (line 40) narrow ≡ ok (prefixed 1 2 (line 20) ∷ prefixed 2 2 (line 20) ∷ []))
    × (length (prefixed 1 2 (line 20)) ≡ 26)
    × (length (prefixed 2 2 (line 20)) ≡ 26)
chunks_from_text-over_example = chunks_from_text-over narrow refl (omega arith) (omega arith)

-- `strip` for output with no escape sequences in it.
abbrev strip : Bytes → Bytes
strip bytes = bytes

abbrev waiting : Chunker
waiting = record { opts = numbered; buf = chars "$ "; last_push = some 100 }

push-waiting :
    push strip waiting 200 (chars "ls\na.txt\nb")
    ≡ ok (
      record { opts = numbered; buf = chars "b"; last_push = some 200 },
      chars "$ ls\na.txt" ∷ [],
    )
unfolding push last_newline chunks_from_bytes from_utf8_lossy replace_cr chunks_from_text is_blank
    cap_lines count_lines collapse_blank_lines collapse_lines split_inclusive split_into_char_chunks
    inner_max finish_chunks split_at nth_index rfind is_whitespace trim_start_matches
    trim_end_matches
push-waiting = refl

push-IsPushed_example :
    IsPushed strip waiting 200
      (chars "ls\na.txt\nb")
      (record { opts = numbered; buf = chars "b"; last_push = some 200 })
      (chars "$ ls\na.txt" ∷ [])
push-IsPushed_example = push-IsPushed strip waiting 200 (chars "ls\na.txt\nb") push-waiting

bytes_wait : waiting.buf ≢ []
bytes_wait e = cc e

maybe_flush_deadline_example :
    (next_deadline waiting ≡ some (100 + 600))
    × (maybe_flush strip waiting 700 ≡ (
        if ltb 700 (100 + 600)
        then ok (waiting, [])
        else (chunks_from_bytes strip (chars "$ ") numbered >>= λ chunks.
            ok (drained waiting, chunks))))
    × (next_deadline (drained waiting) ≡ none)
    × IsReady (drained waiting)
    × ((last : Option ℕ) → next_deadline (record waiting { buf = []; last_push = last }) ≡ none)
maybe_flush_deadline_example =
    maybe_flush_deadline strip waiting 700 100 bytes_wait refl (omega arith)

-- The first byte of a character of two bytes has been read, the second one comes with the newline.
abbrev half_read : Chunker
half_read = record { opts = numbered; buf = 0xC3 ∷ []; last_push = some 5 }

push-as_bytes_example : push (λ bytes. bytes) half_read 9 (0xA4 ∷ b'\n' ∷ []) ≡ (
    chunks_from_text (0xE4 ∷ b'\n' ∷ []) half_read.opts >>= λ chunks.
    ok (record half_read { buf = []; last_push = some 9 }, chunks))
unfolding as_bytes encode_char
push-as_bytes_example =
    push-as_bytes (λ bytes. bytes) half_read 9 (0xA4 ∷ b'\n' ∷ []) (0xE4 ∷ []) refl
      ((inl (omega arith), refl, refl), ((inl (omega arith), refl, refl), tt)) refl

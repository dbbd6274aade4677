-- ===== src/Chunker/Lines/Cap.antt =====
-- `cap_lines` against a reference by lines; its slice never panics.
use Prim.Native.Nat.add
use mathlib.Core.List.{append_assoc}
use loraterm.Common.{
  ℕ, zero, suc, ◌+◌, ◌≤◌, ◌≡◌, refl, sym, ap, subst, ◌∙◌, inl, inr, true, false, List, [], ◌∷◌,
  ◌++◌, arith, ok, leb, ◌==◌, if◌then◌else◌, Bool-cases, length, take, drop, max, take-append-drop,
  concat, All, All-append, All-append_left, length-append,
}
use loraterm.Text.{Text, Bytes, chars, len, len_utf8, as_bytes, encode_char, split_at}
use loraterm.Text.Laws.{length-encode_char, split_at-len, len-append}
use loraterm.Chunker.Lines.{
  split_inclusive, count_newlines, count_lines, find_cut, cap_lines, put_front,
}

-- The bytes of a character other than the newline are no newlines.
encode_char-ne-newline :
    (c : ℕ) → (c == b'\n') ≡ false → All (λ b. (b == b'\n') ≡ false) (encode_char c)
unfolding encode_char
encode_char-ne-newline c h = ground arith

find_cut-skip :
    (cut_at max_lines i seen : ℕ) (bs rest : Bytes)
    → All (λ b. (b == b'\n') ≡ false) bs
    → find_cut cut_at max_lines i seen (bs ++ rest)
      ≡ find_cut cut_at max_lines (i + length bs) seen rest
unfolding find_cut
find_cut-skip cut_at max_lines i seen [] rest h = let e : i + 0 ≡ i = omega arith in rw e
find_cut-skip cut_at max_lines i seen (b ∷ bs) rest h =
    let e : i + 1 + length bs ≡ i + suc (length bs) = omega arith in
    rw (h.0) (find_cut-skip cut_at max_lines (i + 1) seen bs rest h.1 ∙ rw e)

count_newlines-skip :
    (bs rest : Bytes)
    → All (λ b. (b == b'\n') ≡ false) bs
    → count_newlines (bs ++ rest) ≡ count_newlines rest
unfolding count_newlines
count_newlines-skip [] rest h = refl
count_newlines-skip (b ∷ bs) rest h = rw (h.0) (omega (arith, count_newlines-skip bs rest h.1))

-- One more line at the front costs its bytes.
len-take-put_front :
    (c d : ℕ) (lines : List Text)
    → len (concat (take (suc d) (put_front c lines)))
      ≡ len_utf8 c + len (concat (take (suc d) lines))
unfolding len
len-take-put_front c zero [] = refl
len-take-put_front c (suc d) [] = refl
len-take-put_front c d (l ∷ ls) = omega (arith, len-append l (concat (take d ls)))

newline_bytes : (c : ℕ) → (c == b'\n') ≡ true → encode_char c ≡ b'\n' ∷ []
unfolding encode_char
newline_bytes c h = ground arith

newline_width : (c : ℕ) → (c == b'\n') ≡ true → len_utf8 c ≡ 1
unfolding len_utf8
newline_width c h = ground arith

count_newlines-cons :
    (c : ℕ) (s : Text)
    → count_newlines (as_bytes (c ∷ s))
      ≡ (if c == b'\n' then 1 else 0) + count_newlines (as_bytes s)
unfolding as_bytes
count_newlines-cons c s = elim (Bool-cases (c == b'\n')) [
  | inl newline ↦ rw (newline_bytes c newline, newline) (unfold count_newlines in refl)
  | inr other ↦ rw other (
      count_newlines-skip (encode_char c) (as_bytes s) (encode_char-ne-newline c other)
      ∙ omega arith)
]

-- The loop at a newline: it stops at the last line asked for, and goes on before that.
find_cut-last :
    (cut_at max_lines i seen : ℕ) (bs : Bytes)
    → max_lines ≡ seen + 1
    → find_cut cut_at max_lines i seen (b'\n' ∷ bs) ≡ i + 1
unfolding find_cut
find_cut-last cut_at max_lines i seen bs e = ground arith

find_cut-newline :
    (cut_at max_lines i seen d : ℕ) (bs : Bytes)
    → max_lines ≡ seen + suc (suc d)
    → find_cut cut_at max_lines i seen (b'\n' ∷ bs)
      ≡ find_cut cut_at max_lines (i + 1) (seen + 1) bs
unfolding find_cut
find_cut-newline cut_at max_lines i seen d bs e = ground arith

-- The loop at another character: it goes on behind its bytes.
find_cut-other :
    (c : ℕ) (s : Text) (cut_at max_lines i seen d : ℕ)
    → (c == b'\n') ≡ false
    → find_cut cut_at max_lines (i + len_utf8 c) seen (as_bytes s)
      ≡ i + len_utf8 c + len (concat (take (suc d) (split_inclusive s)))
    → find_cut cut_at max_lines i seen (encode_char c ++ as_bytes s)
      ≡ i + len (concat (take (suc d) (put_front c (split_inclusive s))))
find_cut-other c s cut_at max_lines i seen d other rest =
    rw
      (
        find_cut-skip cut_at max_lines i seen (encode_char c) (as_bytes s)
            (encode_char-ne-newline c other),
        length-encode_char c,
        rest,
        len-take-put_front c d (split_inclusive s),
      )
      (omega arith)

-- The loop finds the end of line `d + 1` from here.
find_cut-lines :
    (s : Text) (cut_at max_lines i seen d : ℕ)
    → max_lines ≡ seen + suc d
    → suc d ≤ count_newlines (as_bytes s)
    → find_cut cut_at max_lines i seen (as_bytes s)
      ≡ i + len (concat (take (suc d) (split_inclusive s)))
unfolding as_bytes split_inclusive
find_cut-lines [] cut_at max_lines i seen d e h = unfold count_newlines in absurd (omega arith)
find_cut-lines (c ∷ s) cut_at max_lines i seen zero e h = elim (Bool-cases (c == b'\n')) [
  | inl newline ↦
      rw (newline, newline_bytes c newline, find_cut-last cut_at max_lines i seen (as_bytes s) e)
        (unfold len in omega (arith, newline_width c newline))
  | inr other ↦ rw other (
      find_cut-other c s cut_at max_lines i seen 0 other (
        find_cut-lines s cut_at max_lines (i + len_utf8 c) seen 0 e
          (omega (arith, rw other at (count_newlines-cons c s)))))
]
find_cut-lines (c ∷ s) cut_at max_lines i seen (suc d) e h = elim (Bool-cases (c == b'\n')) [
  | inl newline ↦
      let ih =
        find_cut-lines s cut_at max_lines (i + 1) (seen + 1) d (omega arith)
          (omega (arith, rw newline at (count_newlines-cons c s))) in
      rw
        (
          newline,
          newline_bytes c newline,
          find_cut-newline cut_at max_lines i seen d (as_bytes s) e,
          ih,
        )
        (unfold len in omega (arith, newline_width c newline))
  | inr other ↦ rw other (
      find_cut-other c s cut_at max_lines i seen (suc d) other (
        find_cut-lines s cut_at max_lines (i + len_utf8 c) seen (suc d) e
          (omega (arith, rw other at (count_newlines-cons c s)))))
]

length-put_front : (c : ℕ) (lines : List Text) → length (put_front c lines) ≡ max 1 (length lines)
length-put_front c [] = omega arith
length-put_front c (l ∷ ls) = omega arith

length-split_inclusive-pos : (c : ℕ) (s : Text) → 1 ≤ length (split_inclusive (c ∷ s))
unfolding split_inclusive
length-split_inclusive-pos c s = ground (arith, length-put_front c (split_inclusive s))

count_lines-cons :
    (c c' : ℕ) (s : Text)
    → count_lines (c ∷ c' ∷ s) ≡ (if c == b'\n' then 1 else 0) + count_lines (c' ∷ s)
unfolding count_lines
count_lines-cons c c' s = omega (arith, count_newlines-cons c (c' ∷ s))

-- The lines counted by the source are the lines of `split_inclusive`.
pub count_lines-length : (s : Text) → count_lines s ≡ length (split_inclusive s)
unfolding split_inclusive
count_lines-length [] = unfold count_lines in refl
count_lines-length (c ∷ []) = unfold count_lines in ground arith
count_lines-length (c ∷ c' ∷ s) =
    let ih = count_lines-length (c' ∷ s) in
    let pos = length-split_inclusive-pos c' s in
    let step = count_lines-cons c c' s in
    elim (Bool-cases (c == b'\n')) [
      | inl newline ↦ rw newline (omega (arith, rw newline at step))
      | inr other ↦
          rw other (omega (arith, rw other at step, length-put_front c (split_inclusive (c' ∷ s))))
    ]

concat-append : (xs ys : List Text) → concat (xs ++ ys) ≡ concat xs ++ concat ys
concat-append [] ys = refl
concat-append (x ∷ xs) ys = rw (concat-append xs ys) (sym (append_assoc x (concat xs) (concat ys)))

concat-put_front : (c : ℕ) (lines : List Text) → concat (put_front c lines) ≡ c ∷ concat lines
concat-put_front c [] = refl
concat-put_front c (l ∷ ls) = refl

-- The lines of a text make it up.
pub concat-split_inclusive : (s : Text) → concat (split_inclusive s) ≡ s
unfolding split_inclusive
concat-split_inclusive [] = refl
concat-split_inclusive (c ∷ s) = elim (Bool-cases (c == b'\n')) [
  | inl newline ↦ rw (newline, concat-split_inclusive s)
  | inr other ↦ rw (other, concat-put_front c (split_inclusive s), concat-split_inclusive s)
]

count_lines-le : (s : Text) → count_lines s ≤ count_newlines (as_bytes s) + 1
unfolding count_lines
count_lines-le s = ground arith

-- `cap_lines` never panics. It keeps a text of at most `max_lines` lines as it is, and of a longer
-- one the first `max_lines` lines, then the marker line; `max_lines` is at least 1.
pub cap_lines-take :
    (text : Text) (max_lines : ℕ)
    → 1 ≤ max_lines
    → cap_lines text max_lines
      ≡ ok (
          if leb (length (split_inclusive text)) max_lines
          then text
          else concat (take max_lines (split_inclusive text)) ++ chars "[...]\n")
unfolding cap_lines
cap_lines-take text zero h = absurd (omega arith)
cap_lines-take text (suc m) h = elim (Bool-cases (leb (length (split_inclusive text)) (suc m))) [
  | inl few ↦ rw (count_lines-length text, few)
  | inr many ↦
      let lines = split_inclusive text in
      let kept = concat (take (suc m) lines) in
      let enough : suc m ≤ count_newlines (as_bytes text) =
        ground (arith, count_lines-length text, count_lines-le text) in
      let cut = find_cut-lines text (len text) (suc m) 0 0 m (omega arith) enough in
      let whole : kept ++ concat (drop (suc m) lines) ≡ text =
        sym (concat-append (take (suc m) lines) (drop (suc m) lines))
        ∙ ap concat (take-append-drop (suc m) lines)
        ∙ concat-split_inclusive text in
      let slice =
        subst (λ t. split_at t (len kept) ≡ ok (kept, concat (drop (suc m) lines))) whole
          (split_at-len kept (concat (drop (suc m) lines))) in
      rw (count_lines-length text, many, cut, add.zero (len kept), slice)
]

-- The text behind `cap_lines`.
abbrev pub capped : Text → ℕ → Text
capped text max_lines =
    if leb (length (split_inclusive text)) max_lines
    then text
    else concat (take max_lines (split_inclusive text)) ++ chars "[...]\n"

capped_lines :
    (text : Text) (max_lines : ℕ)
    → (rest : Text) × (concat (take max_lines (split_inclusive text)) ++ rest ≡ text)
capped_lines text max_lines =
    let lines = split_inclusive text in
    (
      concat (drop max_lines lines),
      sym (concat-append (take max_lines lines) (drop max_lines lines))
          ∙ ap concat (take-append-drop max_lines lines)
          ∙ concat-split_inclusive text,
    )

pub length-capped-le :
    (text : Text) (max_lines : ℕ) → length (capped text max_lines) ≤ length text + 6
length-capped-le text max_lines =
    let (rest, whole) = capped_lines text max_lines in
    let kept = concat (take max_lines (split_inclusive text)) in
    let sizes = length-append kept rest in
    let marked = length-append kept (chars "[...]\n") in
    let total : length (kept ++ rest) ≡ length text = ap length whole in
    elim (Bool-cases (leb (length (split_inclusive text)) max_lines)) [
      | inl few ↦ rw few (omega arith)
      | inr many ↦ rw many (omega arith)
    ]

pub capped-All {κ} :
    (P : ℕ → Type κ) (text : Text) (max_lines : ℕ)
    → All P text
    → All P (chars "[...]\n")
    → All P (capped text max_lines)
capped-All P text max_lines h hm =
    let (rest, whole) = capped_lines text max_lines in
    let kept = concat (take max_lines (split_inclusive text)) in
    elim (Bool-cases (leb (length (split_inclusive text)) max_lines)) [
      | inl few ↦ rw few h
      | inr many ↦ rw many (
          All-append P kept (chars "[...]\n")
            (All-append_left P kept rest (subst (All P) (sym whole) h)) hm)
    ]

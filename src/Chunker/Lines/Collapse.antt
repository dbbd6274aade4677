-- ===== src/Chunker/Lines/Collapse.antt =====
-- `collapse_blank_lines`: which lines it keeps, and how the result reads.
use mathlib.Core.List.{append-nil}
use Prim.Native.Nat.{min}
use loraterm.Common.{
  ℕ, ◌+◌, ◌≤◌, ◌≡◌, refl, sym, ap, ◌∙◌, inl, inr, true, false, List, [], ◌∷◌, ◌++◌, arith, leb,
  ◌==◌, if◌then◌else◌, Bool-cases, concat, All, is_empty, ==_iff, retain-append, All-append,
  All-append_left, All-append_right, length, length-append, subst,
}
use loraterm.Text.{Text, trim}
use loraterm.Text.Laws.{visible, visible-trim}
use loraterm.Chunker.Lines.Cap.{concat-split_inclusive}
use loraterm.Chunker.Lines.{
  split_inclusive, put_front, is_blank, collapse_lines, collapse_blank_lines,
}

-- The lines kept: every visible line, and of each run of blank lines the first two.
abbrev pub keep_lines : ℕ → List Text → List Text
keep_lines blank_run [] = []
keep_lines blank_run (l ∷ ls) =
    if is_blank l
    then (if leb (blank_run + 1) 2
        then l ∷ keep_lines (blank_run + 1) ls
        else keep_lines (blank_run + 1) ls)
    else l ∷ keep_lines 0 ls

collapse_lines-keep_lines :
    (run : ℕ) (lines : List Text) → collapse_lines run lines ≡ concat (keep_lines run lines)
unfolding collapse_lines
collapse_lines-keep_lines run [] = refl
collapse_lines-keep_lines run (l ∷ ls) = elim (Bool-cases (is_blank l)) [
  | inl blank ↦ rw (blank, collapse_lines-keep_lines (run + 1) ls) (ground arith)
  | inr shown ↦ rw (shown, collapse_lines-keep_lines 0 ls)
]

abbrev NoNewline : Text → Type 0
NoNewline = All (λ c. (c == b'\n') ≡ false)

-- Lines as they come out of a text: each ends in its only newline, but for the last.
data IsLines : List Text → Type 0 where
  nil : IsLines []
  last : (c : ℕ) (b : Text) → NoNewline (c ∷ b) → IsLines ((c ∷ b) ∷ [])
  line : {ls : List Text} (b : Text) → NoNewline b → IsLines ls → IsLines ((b ++ b'\n' ∷ []) ∷ ls)

put_front-IsLines :
    (c : ℕ) {ls : List Text} → (c == b'\n') ≡ false → IsLines ls → IsLines (put_front c ls)
put_front-IsLines c h nil = last c [] (h, tt)
put_front-IsLines c h (last d b n) = last c (d ∷ b) (h, n)
put_front-IsLines c h (line b n ls) = line (c ∷ b) (h, n) ls

split_inclusive-IsLines : (s : Text) → IsLines (split_inclusive s)
unfolding split_inclusive
split_inclusive-IsLines [] = nil
split_inclusive-IsLines (c ∷ s) = elim (Bool-cases (c == b'\n')) [
  | inl newline ↦
      rw newline (rw ((==_iff c b'\n').0 newline) (line [] tt (split_inclusive-IsLines s)))
  | inr other ↦ rw other (put_front-IsLines c other (split_inclusive-IsLines s))
]

keep_lines-IsLines : {ls : List Text} (run : ℕ) → IsLines ls → IsLines (keep_lines run ls)
keep_lines-IsLines run nil = nil
keep_lines-IsLines run (last c b n) = elim (Bool-cases (is_blank (c ∷ b))) [
  | inr shown ↦ rw shown (last c b n)
  | inl blank ↦ elim (Bool-cases (leb (run + 1) 2)) [
    | inl early ↦ rw (blank, early) (last c b n)
    | inr late ↦ rw (blank, late) nil
  ]
]
keep_lines-IsLines run (line b n ls) = elim (Bool-cases (is_blank (b ++ b'\n' ∷ []))) [
  | inr shown ↦ rw shown (line b n (keep_lines-IsLines 0 ls))
  | inl blank ↦ elim (Bool-cases (leb (run + 1) 2)) [
    | inl early ↦ rw (blank, early) (line b n (keep_lines-IsLines (run + 1) ls))
    | inr late ↦ rw (blank, late) (keep_lines-IsLines (run + 1) ls)
  ]
]

split_inclusive-line :
    (b rest : Text)
    → NoNewline b
    → split_inclusive ((b ++ b'\n' ∷ []) ++ rest) ≡ (b ++ b'\n' ∷ []) ∷ split_inclusive rest
unfolding split_inclusive
split_inclusive-line [] rest n = refl
split_inclusive-line (c ∷ b) rest n = rw (n.0, split_inclusive-line b rest n.1)

split_inclusive-last :
    (c : ℕ) (b : Text) → NoNewline (c ∷ b) → split_inclusive (c ∷ b) ≡ (c ∷ b) ∷ []
unfolding split_inclusive
split_inclusive-last c [] n = rw (n.0)
split_inclusive-last c (d ∷ b) n = rw (n.0, split_inclusive-last d b n.1)

split_inclusive-concat : {ls : List Text} → IsLines ls → split_inclusive (concat ls) ≡ ls
split_inclusive-concat nil = unfold split_inclusive in refl
split_inclusive-concat (last c b n) = rw append-nil (split_inclusive-last c b n)
split_inclusive-concat (line {ls} b n rest) =
    split_inclusive-line b (concat ls) n ∙ ap (◌∷◌ (b ++ b'\n' ∷ [])) (split_inclusive-concat rest)

-- Behind `run` blank lines, no run of blank lines is longer than two.
abbrev pub ShortRuns : ℕ → List Text → Type 0
ShortRuns run [] = Unit
ShortRuns run (l ∷ ls) =
    if is_blank l then (run + 1 ≤ 2) × ShortRuns (run + 1) ls else ShortRuns 0 ls

keep_lines-ShortRuns :
    (ls : List Text) (run short : ℕ) → short ≡ min run 2 → ShortRuns short (keep_lines run ls)
keep_lines-ShortRuns [] run short e = tt
keep_lines-ShortRuns (l ∷ ls) run short e = elim (Bool-cases (is_blank l)) [
  | inr shown ↦ rw (shown, shown) (keep_lines-ShortRuns ls 0 0 (omega arith))
  | inl blank ↦ elim (Bool-cases (leb (run + 1) 2)) [
    | inl early ↦
        rw (blank, early, blank)
          (ground arith, keep_lines-ShortRuns ls (run + 1) (short + 1) (ground arith))
    | inr late ↦ rw (blank, late) (keep_lines-ShortRuns ls (run + 1) short (ground arith))
  ]
]

-- A blank line shows nothing.
pub is_blank-visible : (l : Text) → is_blank l ≡ true → visible l ≡ []
unfolding is_blank
is_blank-visible l h = sym (visible-trim l) ∙ nothing (trim l) h
  where
    nothing : (s : Text) → is_empty s ≡ true → visible s ≡ []
    nothing [] e = refl
    nothing (c ∷ s) e = cc

visible-keep_lines :
    (run : ℕ) (ls : List Text) → visible (concat (keep_lines run ls)) ≡ visible (concat ls)
visible-keep_lines run [] = refl
visible-keep_lines run (l ∷ ls) = elim (Bool-cases (is_blank l)) [
  | inr shown ↦ rw shown (append_visible l _ _ (visible-keep_lines 0 ls))
  | inl blank ↦ elim (Bool-cases (leb (run + 1) 2)) [
    | inl early ↦ rw (blank, early) (append_visible l _ _ (visible-keep_lines (run + 1) ls))
    | inr late ↦
        rw (blank, late)
          (visible-keep_lines (run + 1) ls
            ∙ sym (
                retain-append _ l (concat ls)
                ∙ ap (λ v. v ++ visible (concat ls)) (is_blank-visible l blank)))
  ]
]
  where
    append_visible : (a s t : Text) → visible s ≡ visible t → visible (a ++ s) ≡ visible (a ++ t)
    append_visible a s t e =
        retain-append _ a s ∙ ap (◌++◌ (visible a)) e ∙ sym (retain-append _ a t)

-- What holds of every character of the text holds of every character that is kept.
pub keep_lines-All {κ} :
    (P : ℕ → Type κ) (run : ℕ) (ls : List Text)
    → All P (concat ls)
    → All P (concat (keep_lines run ls))
keep_lines-All P run [] h = tt
keep_lines-All P run (l ∷ ls) h =
    let here = All-append_left P l (concat ls) h in
    let there = All-append_right P l (concat ls) h in
    elim (Bool-cases (is_blank l)) [
      | inr shown ↦ rw shown (All-append P l _ here (keep_lines-All P 0 ls there))
      | inl blank ↦ elim (Bool-cases (leb (run + 1) 2)) [
        | inl early ↦
            rw (blank, early) (All-append P l _ here (keep_lines-All P (run + 1) ls there))
        | inr late ↦ rw (blank, late) (keep_lines-All P (run + 1) ls there)
      ]
    ]

length-keep_lines-le :
    (run : ℕ) (ls : List Text) → length (concat (keep_lines run ls)) ≤ length (concat ls)
length-keep_lines-le run [] = omega arith
length-keep_lines-le run (l ∷ ls) =
    let size = length-append l (concat ls) in
    let first = length-append l (concat (keep_lines 0 ls)) in
    let second = length-append l (concat (keep_lines (run + 1) ls)) in
    let ih0 = length-keep_lines-le 0 ls in
    let ih1 = length-keep_lines-le (run + 1) ls in
    elim (Bool-cases (is_blank l)) [
      | inr shown ↦ rw shown (omega arith)
      | inl blank ↦ elim (Bool-cases (leb (run + 1) 2)) [
        | inl early ↦ rw (blank, early) (omega arith)
        | inr late ↦ rw (blank, late) (omega arith)
      ]
    ]

pub collapse_blank_lines-All {κ} :
    (P : ℕ → Type κ) (text : Text) → All P text → All P (collapse_blank_lines text)
unfolding collapse_blank_lines
collapse_blank_lines-All P text h = rw (collapse_lines-keep_lines 0 (split_inclusive text)) (
    keep_lines-All P 0 (split_inclusive text) (subst (All P) (sym (concat-split_inclusive text)) h))

pub length-collapse_blank_lines-le :
    (text : Text) → length (collapse_blank_lines text) ≤ length text
unfolding collapse_blank_lines
length-collapse_blank_lines-le text = rw (collapse_lines-keep_lines 0 (split_inclusive text)) (
    omega (
      arith,
      length-keep_lines-le 0 (split_inclusive text),
      ap length (concat-split_inclusive text),
    ))

-- What the collapsed text is: its lines are those of the text but for blank lines behind two blank
-- ones; no run of its blank lines is longer than two; and all that is visible stays, in order.
pub record IsCollapsed (text collapsed : Text) : Type 0 where
  pub lines : split_inclusive collapsed ≡ keep_lines 0 (split_inclusive text)
  pub runs : ShortRuns 0 (split_inclusive collapsed)
  pub shown : visible collapsed ≡ visible text

-- `collapse_blank_lines` collapses: it keeps every line but the blank lines behind two blank ones,
-- so no run of blank lines in the result is longer than two, and nothing visible is lost.
pub collapse_blank_lines-IsCollapsed : (text : Text) → IsCollapsed text (collapse_blank_lines text)
unfolding collapse_blank_lines
collapse_blank_lines-IsCollapsed text =
    let ls = split_inclusive text in
    let kept = collapse_lines-keep_lines 0 ls in
    let lines : split_inclusive (collapse_lines 0 ls) ≡ keep_lines 0 ls =
      rw kept (split_inclusive-concat (keep_lines-IsLines 0 (split_inclusive-IsLines text))) in
    record {
      lines = lines;
      runs = rw lines (keep_lines-ShortRuns ls 0 0 (omega arith));
      shown = rw kept (visible-keep_lines 0 ls ∙ ap visible (concat-split_inclusive text));
    }

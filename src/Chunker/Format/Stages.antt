-- ===== src/Chunker/Format/Stages.antt =====
-- The stages of `chunks_from_text`, for texts on which it returns.
use loraterm.Common.{
  ℕ, ◌+◌, ◌≤◌, ◌≡◌, refl, sym, ap, ◌∙◌, inl, inr, true, false, not, List, [], ◌∷◌, ◌++◌, arith, ok,
  >>=-eq-ok, leb, Bool-cases, length, retain, length-retain-le, retain-All, retain-append, concat,
  All,
}
use loraterm.Text.{Text, chars}
use loraterm.Text.Laws.{visible}
use loraterm.Chunker.Split.{split_into_char_chunks}
use loraterm.Chunker.Split.Bounds.{IsSplit, split_into_char_chunks-IsSplit}
use loraterm.Chunker.Split.Panics.{OneByteSpaces, split_into_char_chunks-returns}
use loraterm.Chunker.Lines.{is_blank, split_inclusive, collapse_blank_lines}
use loraterm.Chunker.Lines.Cap.{cap_lines-take, capped, length-capped-le, capped-All}
use loraterm.Chunker.Lines.Collapse.{
  collapse_blank_lines-IsCollapsed, is_blank-visible, length-collapse_blank_lines-le,
  collapse_blank_lines-All,
}
use loraterm.Chunker.Format.{
  ChunkerOpts, max_lines_per_flush, inner_max, finish_chunks, chunks_from_text,
}

-- The chunks that reach the burst cap: short, not blank, not too many, and with all that the text
-- shows if it has no more lines than the cap once its blank lines are collapsed.
pub record IsCut (text : Text) (inner : ℕ) (raw : List Text) : Type 0 where
  pub short : All (λ c. length c ≤ inner) raw
  pub shown : All (λ c. is_blank c ≡ false) raw
  pub few : length raw ≤ length text + 6
  pub complete :
      length (split_inclusive (collapse_blank_lines text)) ≤ max_lines_per_flush
      → visible (concat raw) ≡ visible text

inner_max_pos : (opts : ChunkerOpts) → 1 ≤ inner_max opts
unfolding inner_max
inner_max_pos opts = omega arith

not_blank-All : (cs : List Text) → All (λ c. is_blank c ≡ false) (retain (λ c. not (is_blank c)) cs)
not_blank-All [] = tt
not_blank-All (c ∷ cs) = ground (arith, not_blank-All cs)

visible-retain :
    (cs : List Text) → visible (concat (retain (λ c. not (is_blank c)) cs)) ≡ visible (concat cs)
visible-retain [] = refl
visible-retain (c ∷ cs) = elim (Bool-cases (is_blank c)) [
  | inr shown ↦ rw shown (
      retain-append _ c _
      ∙ ap (◌++◌ (visible c)) (visible-retain cs)
      ∙ sym (retain-append _ c (concat cs)))
  | inl blank ↦ rw blank (
      visible-retain cs
      ∙ sym (
          retain-append _ c (concat cs)
          ∙ ap (λ v. v ++ visible (concat cs)) (is_blank-visible c blank)))
]

IsCut-retain :
    (text : Text) (inner : ℕ) {chunks : List Text}
    → IsSplit inner (capped (collapse_blank_lines text) max_lines_per_flush) chunks
    → IsCut text inner (retain (λ c. not (is_blank c)) chunks)
IsCut-retain text inner {chunks} s =
    let collapsed = collapse_blank_lines text in
    record {
      short = retain-All _ (λ c. not (is_blank c)) chunks s.short;
      shown = not_blank-All chunks;
      few = omega (
        arith,
        s.few,
        length-retain-le (λ c. not (is_blank c)) chunks,
        length-capped-le collapsed max_lines_per_flush,
        length-collapse_blank_lines-le text,
      );
      complete = λ h.
          let all_lines : leb (length (split_inclusive collapsed)) max_lines_per_flush ≡ true =
            ground arith in
          visible-retain chunks
          ∙ rw all_lines at s.complete
          ∙ (collapse_blank_lines-IsCollapsed text).shown;
    }

finish_chunks-nil : (opts : ChunkerOpts) → finish_chunks opts [] ≡ []
unfolding finish_chunks
finish_chunks-nil opts = ground arith

-- Chunks that are returned are the numbered and capped form of a cut of the text.
pub chunks_from_text-IsCut :
    (text : Text) (opts : ChunkerOpts) {out : List Text}
    → chunks_from_text text opts ≡ ok out
    → (raw : List Text) × (out ≡ finish_chunks opts raw) × IsCut text (inner_max opts) raw
unfolding chunks_from_text
chunks_from_text-IsCut text opts {out} e = elim (Bool-cases (is_blank text)) [
  | inl blank ↦ (
    [],
    ground (arith, finish_chunks-nil opts),
    record {
      short = tt;
      shown = tt;
      few = omega arith;
      complete = λ _. sym (is_blank-visible text blank);
    },
  )
  | inr shown ↦
      let line_capped = capped (collapse_blank_lines text) max_lines_per_flush in
      let step = cap_lines-take (collapse_blank_lines text) max_lines_per_flush (omega arith) in
      let (chunks, split, e') =
        >>=-eq-ok (split_into_char_chunks line_capped (inner_max opts)) _
          (rw step at (rw shown at e)) in
      (
        retain (λ c. not (is_blank c)) chunks,
        cc,
        IsCut-retain text (inner_max opts) (
            split_into_char_chunks-IsSplit line_capped (inner_max opts) (inner_max_pos opts) split),
      )
]

abbrev pub with_cap : ChunkerOpts → ℕ → ChunkerOpts
with_cap opts cap = record opts { burst_chunk_cap = cap }

-- The cut does not depend on the burst cap: one cut gives what is returned for each of them.
pub chunks_from_text-with_cap :
    (text : Text) (opts : ChunkerOpts) {out : List Text}
    → chunks_from_text text opts ≡ ok out
    → (raw : List Text) × (out ≡ finish_chunks opts raw)
      × ((cap : ℕ)
          → chunks_from_text text (with_cap opts cap) ≡ ok (finish_chunks (with_cap opts cap) raw))
unfolding chunks_from_text inner_max
chunks_from_text-with_cap text opts {out} e = elim (Bool-cases (is_blank text)) [
  | inl blank ↦ (
    [],
    ground (arith, finish_chunks-nil opts),
    λ cap. rw (blank, finish_chunks-nil (with_cap opts cap)) refl,
  )
  | inr shown ↦
      let line_capped = capped (collapse_blank_lines text) max_lines_per_flush in
      let step = cap_lines-take (collapse_blank_lines text) max_lines_per_flush (omega arith) in
      let (chunks, split, e') =
        >>=-eq-ok (split_into_char_chunks line_capped (inner_max opts)) _
          (rw step at (rw shown at e)) in
      (retain (λ c. not (is_blank c)) chunks, cc, λ cap. rw (shown, step, split) refl)
]

marker_line-OneByteSpaces : OneByteSpaces (chars "[...]\n")
marker_line-OneByteSpaces = omega arith

-- On a text whose whitespace is all of one byte `chunks_from_text` returns, with no panic.
pub chunks_from_text-returns :
    (text : Text) (opts : ChunkerOpts)
    → OneByteSpaces text
    → (out : List Text) × (chunks_from_text text opts ≡ ok out)
unfolding chunks_from_text
chunks_from_text-returns text opts narrow = elim (Bool-cases (is_blank text)) [
  | inl blank ↦ ([], rw blank)
  | inr shown ↦
      let collapsed = collapse_blank_lines text in
      let line_capped = capped collapsed max_lines_per_flush in
      let narrow' =
        capped-All _ collapsed max_lines_per_flush (collapse_blank_lines-All _ text narrow)
          marker_line-OneByteSpaces in
      let (chunks, split) = split_into_char_chunks-returns line_capped (inner_max opts) narrow' in
      (
        finish_chunks opts (retain (λ c. not (is_blank c)) chunks),
        rw (shown, cap_lines-take collapsed max_lines_per_flush (omega arith), split),
      )
]

-- ===== src/Chunker/Format/Contract.antt =====
-- What `chunks_from_text` promises of its result, stated over the text that it is given.
use loraterm.Common.{
  ap, ◌∙◌, ◌⊎◌, ◌+◌, ◌-◌, ◌^◌, ◌≤◌, ◌<◌, ◌≡◌, inl, inr, false, ◌&&◌, List, [], ◌∷◌, ◌++◌, arith, ok,
  ltb, if◌then◌else◌, Bool-cases, length, length-append, take, length-take, All, concat,
}
use loraterm.Text.{Text}
use loraterm.Text.Laws.{visible}
use loraterm.Chunker.Lines.{split_inclusive, collapse_blank_lines}
use loraterm.Chunker.Format.{
  ChunkerOpts, max_lines_per_flush, number_from, marker, finish_chunks, chunks_from_text,
}
use loraterm.Chunker.Format.Sizes
use loraterm.Chunker.Format.Sizes.{finish_chunks-bodies, finish_chunks-short, length-finish_chunks}
use loraterm.Chunker.Format.Stages.{with_cap, chunks_from_text-IsCut, chunks_from_text-with_cap}

-- Bodies that are chunks as they are, or each behind its prefix if there are several.
abbrev pub in_form : ChunkerOpts → List Text → List Text
in_form opts bodies =
    if opts.number_chunks && ltb 1 (length bodies)
    then number_from 0 (length bodies) bodies
    else bodies

-- `whole` are the chunks of the text when none is dropped: under a burst cap as large as their
-- number.
pub record IsNumbered (text : Text) (opts : ChunkerOpts) (out : List Text) : Type 0 where
  pub whole : List Text
  pub uncapped : chunks_from_text text (with_cap opts (length whole)) ≡ ok (in_form opts whole)
  pub bodies : List Text
  pub form : out ≡ in_form opts bodies
  pub count : length out ≡ length bodies
  pub cap :
      ((length out ≤ opts.burst_chunk_cap) × (bodies ≡ whole))
      ⊎ ((length out ≡ opts.burst_chunk_cap + 1)
          × (opts.burst_chunk_cap < length whole)
          × (bodies
              ≡ take opts.burst_chunk_cap whole
                ++ marker (length whole - opts.burst_chunk_cap) ∷ []))

bodies_cap :
    (opts : ChunkerOpts) (raw : List Text)
    → ((length (Sizes.bodies opts raw) ≤ opts.burst_chunk_cap) × (Sizes.bodies opts raw ≡ raw))
      ⊎ ((length (Sizes.bodies opts raw) ≡ opts.burst_chunk_cap + 1)
          × (opts.burst_chunk_cap < length raw)
          × (Sizes.bodies opts raw
              ≡ take opts.burst_chunk_cap raw ++ marker (length raw - opts.burst_chunk_cap) ∷ []))
bodies_cap opts raw =
    let cap = opts.burst_chunk_cap in
    elim (Bool-cases (ltb cap (length raw))) [
      | inl capped ↦
          let size = length-append (take cap raw) (marker (length raw - cap) ∷ []) in
          inr (rw capped (ground (arith, length-take cap raw)), ground arith, rw capped)
      | inr whole ↦ inl (rw whole (ground arith), rw whole)
    ]

finish_chunks-whole :
    (opts : ChunkerOpts) (raw : List Text)
    → finish_chunks (with_cap opts (length raw)) raw ≡ in_form opts raw
finish_chunks-whole opts raw =
    let all_fit : ltb (length raw) (length raw) ≡ false = ground arith in
    let same : Sizes.bodies (with_cap opts (length raw)) raw ≡ raw =
      ap (λ b. if b then take (length raw) raw ++ marker (length raw - length raw) ∷ [] else raw)
        all_fit in
    finish_chunks-bodies (with_cap opts (length raw)) raw ∙ ap (in_form opts) same

-- Chunks that do not pass the cap, without numbers, are the cut itself.
finish_chunks-few :
    (opts : ChunkerOpts) (raw : List Text)
    → opts.number_chunks ≡ false
    → length (finish_chunks opts raw) ≤ opts.burst_chunk_cap
    → finish_chunks opts raw ≡ raw
finish_chunks-few opts raw plain few =
    let cap = opts.burst_chunk_cap in
    let last = marker (length raw - cap) in
    let count = length-finish_chunks opts raw in
    elim (Bool-cases (ltb cap (length raw))) [
      | inr whole ↦ rw (finish_chunks-bodies opts raw, plain, whole)
      | inl capped ↦
          let over = length-append (take cap raw) (last ∷ []) in
          absurd (ground (arith, rw capped at count, length-take cap raw))
    ]

module _ (text : Text) (opts : ChunkerOpts) {out : List Text}
    (returned : chunks_from_text text opts ≡ ok out) where
  -- Every chunk that is returned, prefix and marker included, has at most `max_chars` characters:
  -- where `max_chars` is at least 71, the burst cap is at most 998 and the text has fewer than
  -- 2 ^ 64 characters.
  pub chunks_from_text-short :
      71 ≤ opts.max_chars
      → opts.burst_chunk_cap ≤ 998
      → length text < 2 ^ 64
      → All (λ c. length c ≤ opts.max_chars) out
  chunks_from_text-short room cap size =
      let (raw, shape, cut) = chunks_from_text-IsCut text opts returned in
      rw shape (finish_chunks-short opts raw room cap (omega (arith, cut.few)) cut.short)

  -- The number in the prefixes is the number of chunks: with numbering on and more than one chunk,
  -- chunk `i` of `n` is its body behind `[i/n] `, and otherwise the chunks are the bodies. The
  -- bodies are those that are returned under a burst cap that drops none, if there are no more of
  -- them than the burst cap. If there are more, they are the first of these, as many as the burst
  -- cap, and behind them the marker that says how many the others are.
  pub chunks_from_text-IsNumbered : IsNumbered text opts out
  chunks_from_text-IsNumbered =
      let (raw, shape, caps) = chunks_from_text-with_cap text opts returned in
      let n = length-finish_chunks opts raw in
      rw shape (record {
        whole = raw;
        uncapped = caps (length raw) ∙ ap ok (finish_chunks-whole opts raw);
        bodies = Sizes.bodies opts raw;
        form = finish_chunks-bodies opts raw;
        count = n;
        cap = rw n (bodies_cap opts raw);
      })

  -- Nothing visible is lost of a text of few lines: with numbering off, no more chunks than the
  -- burst cap, and at most ten lines after its blank lines are collapsed, the chunks show exactly
  -- what the text shows, in order.
  pub chunks_from_text_complete :
      opts.number_chunks ≡ false
      → length out ≤ opts.burst_chunk_cap
      → length (split_inclusive (collapse_blank_lines text)) ≤ max_lines_per_flush
      → visible (concat out) ≡ visible text
  chunks_from_text_complete plain few lines =
      let (raw, shape, cut) = chunks_from_text-IsCut text opts returned in
      rw (shape, finish_chunks-few opts raw plain (rw shape at few)) (cut.complete lines)

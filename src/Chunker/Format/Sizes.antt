-- ===== src/Chunker/Format/Sizes.antt =====
-- How many chunks come out, how they are numbered, and how long each is.
use mathlib.Core.List.{append-nil}
use loraterm.Common.{
  ℕ, suc, ◌+◌, ◌-◌, ◌^◌, ◌≤◌, ◌<◌, ◌≡◌, refl, sym, ap, ◌∙◌, inl, inr, Bool, ◌&&◌, List, [], ◌∷◌,
  ◌++◌, arith, ltb, if◌then◌else◌, Bool-cases, length, length-append, length-take, take, All,
  All-append, take-All, All-mono,
}
use loraterm.Text.{Text, chars, decimal}
use loraterm.Text.Decimal.{length-decimal-le}
use loraterm.Chunker.Format.{ChunkerOpts, inner_max, prefixed, number_from, marker, finish_chunks}

length-number_from :
    (i n : ℕ) (bodies : List Text) → length (number_from i n bodies) ≡ length bodies
unfolding number_from
length-number_from i n [] = refl
length-number_from i n (b ∷ bs) = ap suc (length-number_from (i + 1) n bs)

number_from-append :
    (i n : ℕ) (xs : List Text) (y : Text)
    → number_from i n (xs ++ y ∷ []) ≡ number_from i n xs ++ prefixed (i + length xs + 1) n y ∷ []
unfolding number_from
number_from-append i n [] y = let e : i + 0 + 1 ≡ i + 1 = omega arith in rw e
number_from-append i n (x ∷ xs) y =
    let e : i + 1 + length xs + 1 ≡ i + suc (length xs) + 1 = omega arith in
    rw (number_from-append (i + 1) n xs y, e)

-- The bodies of the chunks that are sent, the marker included.
abbrev pub bodies : ChunkerOpts → List Text → List Text
bodies opts raw =
    if ltb opts.burst_chunk_cap (length raw)
    then take opts.burst_chunk_cap raw ++ marker (length raw - opts.burst_chunk_cap) ∷ []
    else raw

finish_capped :
    (number : Bool) (kept : List Text) (last : Text)
    → (if number && ltb 1 (length kept + 1) then number_from 0 (length kept + 1) kept else kept)
        ++ (if number && ltb 1 (length kept + 1)
            then prefixed (length kept + 1) (length kept + 1) last
            else last)
          ∷ []
      ≡ (if number && ltb 1 (length kept + 1)
          then number_from 0 (length kept + 1) (kept ++ last ∷ [])
          else kept ++ last ∷ [])
finish_capped number kept last = elim (Bool-cases (number && ltb 1 (length kept + 1))) [
  | inl numbered ↦
      let i : 0 + length kept + 1 ≡ length kept + 1 = omega arith in
      rw numbered (sym (number_from-append 0 (length kept + 1) kept last ∙ rw i))
  | inr plain ↦ rw plain
]

-- `N` in the prefixes is the number of chunks, and the chunk at position `i` bears `i + 1`: with
-- numbering on and more than one chunk each body gets its prefix, otherwise none does.
pub finish_chunks-bodies :
    (opts : ChunkerOpts) (raw : List Text)
    → finish_chunks opts raw ≡ (
        if opts.number_chunks && ltb 1 (length (bodies opts raw))
        then number_from 0 (length (bodies opts raw)) (bodies opts raw)
        else bodies opts raw)
unfolding finish_chunks
finish_chunks-bodies opts raw = elim (Bool-cases (ltb opts.burst_chunk_cap (length raw))) [
  | inl capped ↦
      let cap = opts.burst_chunk_cap in
      let kept = take cap raw in
      let last = marker (length raw - cap) in
      let n : length (kept ++ last ∷ []) ≡ length kept + 1 = length-append kept (last ∷ []) in
      rw (capped, n) (finish_capped opts.number_chunks kept last)
  | inr whole ↦ let n : length raw + 0 ≡ length raw = omega arith in rw (whole, n, append-nil)
]

length-prefixed :
    (i n : ℕ) (body : Text)
    → length (prefixed i n body) ≡ length (decimal i) + length (decimal n) + 4 + length body
unfolding prefixed
length-prefixed i n body = omega (
  arith,
  length-append (decimal i) (chars "/" ++ (decimal n ++ (chars "] " ++ body))),
  length-append (decimal n) (chars "] " ++ body),
)

length-marker : (dropped : ℕ) → length (marker dropped) ≡ length (decimal dropped) + 41
unfolding marker
length-marker dropped =
    omega (arith, length-append (decimal dropped) (chars " more chunks dropped]"))

number_from-short :
    (i n m : ℕ) (bs : List Text)
    → n ≤ 999
    → i + length bs ≤ n
    → All (λ b. length b ≤ m) bs
    → All (λ c. length c ≤ m + 10) (number_from i n bs)
unfolding number_from
number_from-short i n m [] small fits h = tt
number_from-short i n m (b ∷ bs) small fits h = (
  omega (
    arith,
    length-prefixed (i + 1) n b,
    length-decimal-le 2 (i + 1) (omega arith),
    length-decimal-le 2 n (omega arith),
    h.0,
  ),
  number_from-short (i + 1) n m bs small (omega arith) h.1,
)

bodies-short :
    (opts : ChunkerOpts) (raw : List Text) (m : ℕ)
    → 61 ≤ m
    → length raw < 10 ^ 20
    → All (λ c. length c ≤ m) raw
    → All (λ c. length c ≤ m) (bodies opts raw)
bodies-short opts raw m room few h =
    let dropped = length raw - opts.burst_chunk_cap in
    elim (Bool-cases (ltb opts.burst_chunk_cap (length raw))) [
      | inr whole ↦ rw whole h
      | inl capped ↦ rw capped (
          All-append _ (take opts.burst_chunk_cap raw) (marker dropped ∷ [])
            (take-All _ opts.burst_chunk_cap raw h)
            (omega (arith, length-marker dropped, length-decimal-le 19 dropped (omega arith)), tt))
    ]

-- The bodies are at most one more than the burst cap: the marker.
pub length-bodies-le :
    (opts : ChunkerOpts) (raw : List Text) → length (bodies opts raw) ≤ opts.burst_chunk_cap + 1
length-bodies-le opts raw =
    let cap = opts.burst_chunk_cap in
    elim (Bool-cases (ltb cap (length raw))) [
      | inr whole ↦ rw whole (ground arith)
      | inl capped ↦ rw capped (
          omega (
            arith,
            length-append (take cap raw) (marker (length raw - cap) ∷ []),
            length-take cap raw,
          ))
    ]

numbered-short :
    (opts : ChunkerOpts) (raw : List Text) (m : ℕ)
    → 61 ≤ m
    → opts.burst_chunk_cap ≤ 998
    → length raw < 10 ^ 20
    → All (λ c. length c ≤ m) raw
    → All (λ c. length c ≤ m + 10) (finish_chunks opts raw)
numbered-short opts raw m room cap few h =
    let short = bodies-short opts raw m room few h in
    let n = length (bodies opts raw) in
    let count = length-bodies-le opts raw in
    rw (finish_chunks-bodies opts raw) (elim (Bool-cases (opts.number_chunks && ltb 1 n)) [
      | inl numbered ↦
          rw numbered (number_from-short 0 n m (bodies opts raw) (omega arith) (omega arith) short)
      | inr plain ↦ rw plain (All-mono (λ c h. omega arith) (bodies opts raw) short)
    ])

pub finish_chunks-short :
    (opts : ChunkerOpts) (raw : List Text)
    → 71 ≤ opts.max_chars
    → opts.burst_chunk_cap ≤ 998
    → length raw < 10 ^ 20
    → All (λ c. length c ≤ inner_max opts) raw
    → All (λ c. length c ≤ opts.max_chars) (finish_chunks opts raw)
unfolding inner_max
finish_chunks-short opts raw room cap few h = elim (Bool-cases opts.number_chunks) [
  | inl numbered ↦
      All-mono (λ c hc. omega arith) (finish_chunks opts raw)
        (numbered-short opts raw (opts.max_chars - 10) (omega arith) cap few
          (All-mono (λ c hc. omega (arith, rw numbered at hc)) raw h))
  | inr plain ↦
      rw (finish_chunks-bodies opts raw, plain)
        (bodies-short opts raw opts.max_chars (omega arith) few
          (All-mono (λ c hc. omega (arith, rw plain at hc)) raw h))
]

-- Numbered or not, as many chunks as bodies.
pub length-finish_chunks :
    (opts : ChunkerOpts) (raw : List Text)
    → length (finish_chunks opts raw) ≡ length (bodies opts raw)
length-finish_chunks opts raw =
    let n = length (bodies opts raw) in
    rw (finish_chunks-bodies opts raw) (elim (Bool-cases (opts.number_chunks && ltb 1 n)) [
      | inl numbered ↦ rw numbered (length-number_from 0 n (bodies opts raw))
      | inr plain ↦ rw plain
    ])

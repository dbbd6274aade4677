-- ===== src/Chunker/Format.antt =====
-- src/chunker.rs, `chunks_from_text`: from normalised text to the chunks that are sent.
pub mod Sizes
pub mod Stages
pub mod Contract
pub mod Tight
use loraterm.Common.{
  ℕ, ◌+◌, ◌-◌, Bool, true, not, ◌&&◌, List, [], ◌∷◌, ◌++◌, Run, ok, max, ltb, if◌then◌else◌, ◌>>=◌,
  length, take, retain,
}
use loraterm.Text.{Text, chars, decimal}
use loraterm.Chunker.Split.{split_into_char_chunks}
use loraterm.Chunker.Lines.{is_blank, collapse_blank_lines, cap_lines}

abbrev pub max_lines_per_flush : ℕ
max_lines_per_flush = 10

-- Times are in milliseconds.
pub record ChunkerOpts : Type 0 where
  pub max_chars : ℕ
  pub number_chunks : Bool
  pub flush_silence : ℕ
  pub burst_chunk_cap : ℕ

abbrev pub default_opts : ChunkerOpts
default_opts = record {
  max_chars = 120;
  number_chunks = true;
  flush_silence = 600;
  burst_chunk_cap = 50;
}

-- The room for the text of a chunk, `inner_max`.
unfoldable pub inner_max : ChunkerOpts → ℕ
inner_max opts = max (opts.max_chars - (if opts.number_chunks then 10 else 0)) 20

-- `[i/N] ` before a body.
unfoldable pub prefixed : ℕ → ℕ → Text → Text
prefixed i n body = chars "[" ++ (decimal i ++ (chars "/" ++ (decimal n ++ (chars "] " ++ body))))

-- The bodies from position `i` on, each with its prefix.
unfoldable pub number_from : ℕ → ℕ → List Text → List Text
number_from i n [] = []
number_from i n (body ∷ bodies) = prefixed (i + 1) n body ∷ number_from (i + 1) n bodies

unfoldable pub marker : ℕ → Text
marker dropped = chars "[output truncated — " ++ (decimal dropped ++ chars " more chunks dropped]")

-- From the burst cap on: cap, number, and say what was dropped.
unfoldable pub finish_chunks : ChunkerOpts → List Text → List Text
finish_chunks opts raw_chunks =
    let capped = ltb opts.burst_chunk_cap (length raw_chunks) in
    let dropped = length raw_chunks - opts.burst_chunk_cap in
    let kept = if capped then take opts.burst_chunk_cap raw_chunks else raw_chunks in
    let n = length kept + (if capped then 1 else 0) in
    let numbered = opts.number_chunks && ltb 1 n in
    (if numbered then number_from 0 n kept else kept)
    ++ (if capped
        then (if numbered then prefixed n n (marker dropped) else marker dropped) ∷ []
        else [])

unfoldable pub chunks_from_text : Text → ChunkerOpts → Run (List Text)
chunks_from_text text opts = if is_blank text then ok [] else do
  line_capped ← cap_lines (collapse_blank_lines text) max_lines_per_flush
  raw_chunks ← split_into_char_chunks line_capped (inner_max opts)
  ok (finish_chunks opts (retain (λ c. not (is_blank c)) raw_chunks))

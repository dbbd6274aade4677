-- ===== src/Chunker.antt =====
-- src/chunker.rs, the stateful `Chunker`: PTY bytes are buffered and flushed as chunks at a newline
-- or after a silence. Times are milliseconds. `strip` is `strip_ansi_escapes::strip`.
pub mod Split
pub mod Lines
pub mod Format
pub mod Flush
pub mod Unicode
mod Tests
use loraterm.Common.{
  ℕ, zero, suc, ◌+◌, ◌-◌, Bool, true, false, List, [], ◌∷◌, ◌++◌, map, Option, none, some, Run, ok,
  leb, ◌==◌, if◌then◌else◌, ◌>>=◌, is_empty, any, take, drop,
}
use loraterm.Text.{Text, Bytes, chars}
use loraterm.Text.Lossy.{from_utf8_lossy, replacement_character}
use Format.{ChunkerOpts, chunks_from_text}

pub record Chunker : Type 0 where
  pub opts : ChunkerOpts
  pub buf : Bytes
  pub last_push : Option ℕ

unfoldable pub new : ChunkerOpts → Chunker
new opts = record { opts = opts; buf = []; last_push = none }

abbrev pub is_lf : ℕ → Bool
is_lf b = b == b'\n'

-- The loop of `normalize_text`: CRLF and a bare CR become LF.
unfoldable pub replace_cr : Bytes → Bytes
replace_cr [] = []
replace_cr (b ∷ []) = (if b == b'\r' then b'\n' else b) ∷ []
replace_cr (b ∷ c ∷ bs) =
    let skipped = replace_cr bs in
    let kept = replace_cr (c ∷ bs) in
    if b == b'\r' then b'\n' ∷ (if c == b'\n' then skipped else kept) else b ∷ kept

-- `rposition(|b| *b == b'\n')`
unfoldable pub last_newline : Bytes → Option ℕ
last_newline [] = none
last_newline (b ∷ bs) = elim (last_newline bs) [
  | some i ↦ some (suc i)
  | none ↦ if is_lf b then some 0 else none
]

pub next_deadline : Chunker → Option ℕ
next_deadline c =
    if is_empty c.buf
    then none
    else elim c.last_push [ some t ↦ some (t + c.opts.flush_silence) | none ↦ none ]

module _ (strip : Bytes → Bytes) where
  pub normalize_text : Bytes → Bytes
  normalize_text bytes = replace_cr (strip bytes)

  -- The chunks of bytes taken off the buffer: normalised, decoded, U+FFFD shown as `?`.
  unfoldable pub chunks_from_bytes : Bytes → ChunkerOpts → Run (List Text)
  unfolding normalize_text
  chunks_from_bytes bytes = chunks_from_text (
      map (λ c. if c == replacement_character then b'?' else c)
        (from_utf8_lossy (normalize_text bytes)))

  pub flush_committed : Chunker → Run (Chunker × List Text)
  flush_committed c = elim (last_newline c.buf) [
    | none ↦ ok (c, [])
    | some last_nl ↦ do
      chunks ← chunks_from_bytes (take (suc last_nl) c.buf) c.opts
      ok (record c { buf = drop (suc last_nl) c.buf }, chunks)
  ]

  unfoldable pub drain_all : Chunker → Run (Chunker × List Text)
  drain_all c = do
    chunks ← chunks_from_bytes c.buf c.opts
    ok (record c { buf = []; last_push = none }, chunks)

  unfoldable pub push : Chunker → ℕ → Bytes → Run (Chunker × List Text)
  unfolding flush_committed
  push c now bytes =
      let c' = record c { buf = c.buf ++ bytes; last_push = some now } in
      if any is_lf c'.buf then flush_committed c' else ok (c', [])

  -- `duration_since` is 0 for an earlier time.
  unfoldable pub maybe_flush : Chunker → ℕ → Run (Chunker × List Text)
  unfolding drain_all
  maybe_flush c now = if is_empty c.buf then ok (c, []) else elim c.last_push [
    | some t ↦ if leb c.opts.flush_silence (now - t) then drain_all c else ok (c, [])
    | none ↦ ok (c, [])
  ]

  unfoldable pub flush_force : Chunker → Run (Chunker × List Text)
  flush_force c = drain_all c

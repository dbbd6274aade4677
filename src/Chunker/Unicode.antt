-- ===== src/Chunker/Unicode.antt =====
-- What the text that the shell prints becomes: itself, however its bytes are read.
use mathlib.Core.List.{append_assoc}
use loraterm.Common.{
  All-mono, All-append, ℕ, suc, ◌≡◌, refl, sym, ap, ◌∙◌, true, false, [], ◌∷◌, ◌++◌, map, Option,
  some, ok, ◌>>=◌, any, All, length, take, drop, ◌==◌, if◌then◌else◌, arith,
}
use loraterm.Text.{Text, Bytes, encode_char, as_bytes}
use loraterm.Text.Lossy.{replacement_character, from_utf8_lossy}
use loraterm.Text.Lossy.Utf8.{IsScalar, from_utf8_lossy-as_bytes}
use loraterm.Chunker.Format.{chunks_from_text}
use loraterm.Chunker.{
  Chunker, ChunkerOpts, normalize_text, flush_committed, is_lf, replace_cr, last_newline,
  chunks_from_bytes, push,
}

-- A character that is shown as it is.
abbrev pub IsShown : ℕ → Type 0
IsShown c = IsScalar c × ((c == b'\r') ≡ false) × ((c == replacement_character) ≡ false)

replace_cr-id : (bytes : Bytes) → All (λ b. (b == b'\r') ≡ false) bytes → replace_cr bytes ≡ bytes
unfolding replace_cr
replace_cr-id [] h = refl
replace_cr-id (b ∷ []) h = rw h.0 refl
replace_cr-id (b ∷ c ∷ bytes) h = rw h.0 (ap (◌∷◌ b) (replace_cr-id (c ∷ bytes) h.1))

encode_char-no_cr : (c : ℕ) → (c == b'\r') ≡ false → All (λ b. (b == b'\r') ≡ false) (encode_char c)
unfolding encode_char
encode_char-no_cr c h = ground (arith, h)

as_bytes-no_cr : (s : Text) → All IsShown s → All (λ b. (b == b'\r') ≡ false) (as_bytes s)
unfolding as_bytes
as_bytes-no_cr [] h = tt
as_bytes-no_cr (c ∷ s) (h, hs) =
    All-append (λ b. (b == b'\r') ≡ false) (encode_char c) (as_bytes s) (encode_char-no_cr c h.1)
      (as_bytes-no_cr s hs)

map_shown :
    (s : Text) → All IsShown s → map (λ c. if c == replacement_character then b'?' else c) s ≡ s
map_shown [] h = refl
map_shown (c ∷ s) h = rw h.0.2 (ap (◌∷◌ c) (map_shown s h.1))

last_newline-append : (bytes : Bytes) → last_newline (bytes ++ b'\n' ∷ []) ≡ some (length bytes)
unfolding last_newline
last_newline-append [] = refl
last_newline-append (b ∷ bytes) = rw (last_newline-append bytes) refl

take_all : (bytes : Bytes) (b : ℕ) → take (suc (length bytes)) (bytes ++ b ∷ []) ≡ bytes ++ b ∷ []
take_all [] b = refl
take_all (c ∷ bytes) b = ap (◌∷◌ c) (take_all bytes b)

drop_all : (bytes : Bytes) (b : ℕ) → drop (suc (length bytes)) (bytes ++ b ∷ []) ≡ []
drop_all [] b = refl
drop_all (c ∷ bytes) b = drop_all bytes b

any-is_lf : (bytes : Bytes) → any is_lf (bytes ++ b'\n' ∷ []) ≡ true
any-is_lf [] = refl
any-is_lf (b ∷ bytes) = ground (arith, any-is_lf bytes)

as_bytes-append : (s t : Text) → as_bytes (s ++ t) ≡ as_bytes s ++ as_bytes t
unfolding as_bytes
as_bytes-append [] t = refl
as_bytes-append (c ∷ s) t =
    ap (◌++◌ (encode_char c)) (as_bytes-append s t)
    ∙ sym (append_assoc (encode_char c) (as_bytes s) (as_bytes t))

as_bytes-line : (s : Text) → as_bytes (s ++ b'\n' ∷ []) ≡ as_bytes s ++ b'\n' ∷ []
unfolding as_bytes encode_char
as_bytes-line s = as_bytes-append s (b'\n' ∷ [])

module _ (strip : Bytes → Bytes) where
  -- Text in which nothing is stripped gives the chunks of that text.
  chunks_from_bytes-as_bytes :
      (opts : ChunkerOpts) (s : Text)
      → All IsShown s
      → strip (as_bytes s) ≡ as_bytes s
      → chunks_from_bytes strip (as_bytes s) opts ≡ chunks_from_text s opts
  unfolding chunks_from_bytes normalize_text
  chunks_from_bytes-as_bytes opts s shown law =
      let decoded : from_utf8_lossy (replace_cr (strip (as_bytes s))) ≡ s = rw law (
        ap from_utf8_lossy (replace_cr-id (as_bytes s) (as_bytes-no_cr s shown))
        ∙ from_utf8_lossy-as_bytes s (All-mono (λ c h. h.0) s shown)) in
      rw decoded (ap (λ t. chunks_from_text t opts) (map_shown s shown))

  flush_committed-line :
      (opts : ChunkerOpts) (last_push : Option ℕ) (s : Text)
      → All IsShown (s ++ b'\n' ∷ [])
      → strip (as_bytes (s ++ b'\n' ∷ [])) ≡ as_bytes (s ++ b'\n' ∷ [])
      → flush_committed strip
          (record { opts = opts; buf = as_bytes s ++ b'\n' ∷ []; last_push = last_push })
        ≡ (chunks_from_text (s ++ b'\n' ∷ []) opts >>= λ chunks.
            ok (record { opts = opts; buf = []; last_push = last_push }, chunks))
  unfolding flush_committed
  flush_committed-line opts last_push s shown law =
      let line = as_bytes s in
      rw
        (
          flush_committed,
          last_newline-append line,
          take_all line b'\n',
          drop_all line b'\n',
          ← (as_bytes-line s),
          chunks_from_bytes-as_bytes opts (s ++ b'\n' ∷ []) shown law,
        )
        refl

  -- Whole lines of text that the shell prints are sent as the chunks of that text, with every
  -- character intact, even one whose bytes come in two reads: if what is buffered, with the bytes that
  -- are read now, is the UTF-8 form of the lines, which hold nothing that is stripped or replaced.
  pub push-as_bytes :
      (c : Chunker) (now : ℕ) (bytes : Bytes) (s : Text)
      → c.buf ++ bytes ≡ as_bytes (s ++ b'\n' ∷ [])
      → All IsShown (s ++ b'\n' ∷ [])
      → strip (as_bytes (s ++ b'\n' ∷ [])) ≡ as_bytes (s ++ b'\n' ∷ [])
      → push strip c now bytes ≡ (
          chunks_from_text (s ++ b'\n' ∷ []) c.opts >>= λ chunks.
          ok (record c { buf = []; last_push = some now }, chunks))
  unfolding push
  push-as_bytes c now bytes s read shown law =
      rw (read, as_bytes-line s, any-is_lf (as_bytes s))
        (flush_committed-line c.opts (some now) s shown law)

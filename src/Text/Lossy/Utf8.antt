-- ===== src/Text/Lossy/Utf8.antt =====
-- UTF-8: what is encoded is decoded to the same text.
use loraterm.Common.{
  ℕ, suc, ◌+◌, ◌*◌, ◌/◌, ◌%◌, ◌≤◌, ◌<◌, ◌≡◌, ◌⊎◌, refl, ap, ◌∙◌, inl, inr, ◌&&◌, [], ◌∷◌, ◌++◌, leb,
  ltb, if◌then◌else◌, Bool-cases, All, arith,
}
use loraterm.Text.{Text, Bytes, encode_char, as_bytes}
use loraterm.Text.Lossy.{start, inside, begin, continue, decode_from, from_utf8_lossy}

-- The code points that are characters: those that are no surrogates.
abbrev pub IsScalar : ℕ → Type 0
IsScalar c = (c < 0xD800) ⊎ ((0xE000 ≤ c) × (c < 0x110000))

decode_continue :
    (missing bits low high b : ℕ) (bs : Bytes)
    → low ≤ b
    → b ≤ high
    → decode_from (inside missing bits low high) (b ∷ bs)
      ≡ (continue missing bits b).0 ++ decode_from (continue missing bits b).1 bs
unfolding decode_from
decode_continue missing bits low high b bs l h = ground (arith, l, h)

begin_two : (q : ℕ) → 2 ≤ q → q < 32 → begin (0xC0 + q) ≡ ([], inside 0 q 0x80 0xBF)
begin_two q l h = ground (arith, l, h)

begin_three :
    (q : ℕ)
    → q < 16
    → begin (0xE0 + q) ≡ (
      [],
      inside 1 q
          (if leb (0xE0 + q) 0xE0 then 0xA0 else 0x80)
          (if leb 0xED (0xE0 + q) && leb (0xE0 + q) 0xED then 0x9F else 0xBF),
    )
begin_three q h = ground (arith, h)

begin_four :
    (q : ℕ)
    → q < 5
    → begin (0xF0 + q) ≡ (
      [],
      inside 2 q
          (if leb (0xF0 + q) 0xF0 then 0x90 else 0x80)
          (if leb 0xF4 (0xF0 + q) then 0x8F else 0xBF),
    )
begin_four q h = ground (arith, h)

decode_start :
    (b : ℕ) (bs : Bytes) → decode_from start (b ∷ bs) ≡ (begin b).0 ++ decode_from (begin b).1 bs
unfolding decode_from
decode_start b bs = refl

-- The last byte of a character.
decode_last :
    (bits low high r : ℕ) (bs : Bytes)
    → r < 64
    → low ≤ 0x80 + r
    → 0x80 + r ≤ high
    → decode_from (inside 0 bits low high) ((0x80 + r) ∷ bs)
      ≡ (bits * 64 + r) ∷ decode_from start bs
decode_last bits low high r bs small l h =
    let bits_of : (0x80 + r) % 64 ≡ r = omega (arith, small) in
    decode_continue 0 bits low high (0x80 + r) bs l h ∙ rw bits_of refl

-- One more byte with others to come.
decode_more :
    (missing bits low high r : ℕ) (bs : Bytes)
    → r < 64
    → low ≤ 0x80 + r
    → 0x80 + r ≤ high
    → decode_from (inside (suc missing) bits low high) ((0x80 + r) ∷ bs)
      ≡ decode_from (inside missing (bits * 64 + r) 0x80 0xBF) bs
decode_more missing bits low high r bs small l h =
    let bits_of : (0x80 + r) % 64 ≡ r = omega (arith, small) in
    decode_continue (suc missing) bits low high (0x80 + r) bs l h ∙ rw bits_of refl

decode_two :
    (q r : ℕ) (bs : Bytes)
    → 2 ≤ q
    → q < 32
    → r < 64
    → decode_from start ((0xC0 + q) ∷ (0x80 + r) ∷ bs) ≡ (q * 64 + r) ∷ decode_from start bs
decode_two q r bs l h small =
    decode_start (0xC0 + q) ((0x80 + r) ∷ bs)
    ∙ rw (begin_two q l h) (decode_last q 0x80 0xBF r bs small (omega arith) (omega (arith, small)))

decode_three :
    (q r t : ℕ) (bs : Bytes)
    → q < 16
    → r < 64
    → t < 64
    → (1 ≤ q) ⊎ (32 ≤ r)
    → ((q < 13) ⊎ (14 ≤ q)) ⊎ (r < 32)
    → decode_from start ((0xE0 + q) ∷ (0x80 + r) ∷ (0x80 + t) ∷ bs)
      ≡ ((q * 64 + r) * 64 + t) ∷ decode_from start bs
decode_three q r t bs h small small' long scalar =
    decode_start (0xE0 + q) ((0x80 + r) ∷ (0x80 + t) ∷ bs)
    ∙ rw (begin_three q h) (
        decode_more 0 q _ _ r ((0x80 + t) ∷ bs) small (ground (arith, long, small))
          (ground (arith, scalar, small))
        ∙ decode_last (q * 64 + r) 0x80 0xBF t bs small' (omega arith) (omega (arith, small')))

decode_four :
    (q r t u : ℕ) (bs : Bytes)
    → q < 5
    → r < 64
    → t < 64
    → u < 64
    → (1 ≤ q) ⊎ (16 ≤ r)
    → (q < 4) ⊎ (r < 16)
    → decode_from start ((0xF0 + q) ∷ (0x80 + r) ∷ (0x80 + t) ∷ (0x80 + u) ∷ bs)
      ≡ (((q * 64 + r) * 64 + t) * 64 + u) ∷ decode_from start bs
decode_four q r t u bs h small small' small'' long scalar =
    decode_start (0xF0 + q) ((0x80 + r) ∷ (0x80 + t) ∷ (0x80 + u) ∷ bs)
    ∙ rw (begin_four q h) (
        decode_more 1 q _ _ r ((0x80 + t) ∷ (0x80 + u) ∷ bs) small (ground (arith, long, small))
          (ground (arith, scalar, small))
        ∙ decode_more 0 (q * 64 + r) 0x80 0xBF t ((0x80 + u) ∷ bs) small' (omega arith)
            (omega (arith, small'))
        ∙ decode_last ((q * 64 + r) * 64 + t) 0x80 0xBF u bs small'' (omega arith)
            (omega (arith, small'')))

decode-encode_char :
    (c : ℕ) (bs : Bytes)
    → IsScalar c
    → decode_from start (encode_char c ++ bs) ≡ c ∷ decode_from start bs
unfolding encode_char
decode-encode_char c bs scalar = elim (Bool-cases (ltb c 0x80)) [
  | inl one ↦ rw one (decode_start c bs ∙ rw one refl)
  | inr above ↦ elim (Bool-cases (ltb c 0x800)) [
    | inl two ↦
        let value : c / 64 * 64 + c % 64 ≡ c = omega arith in
        rw (above, two)
          (decode_two (c / 64) (c % 64) bs (ground (arith, above)) (ground (arith, two))
              (omega arith)
            ∙ rw value refl)
    | inr above' ↦ elim (Bool-cases (ltb c 0x10000)) [
      | inl three ↦
          let value : (c / 4096 * 64 + c / 64 % 64) * 64 + c % 64 ≡ c = omega arith in
          rw (above, above', three)
            (decode_three (c / 4096) (c / 64 % 64) (c % 64) bs (ground (arith, three)) (omega arith)
                (omega arith) (ground (arith, above')) (ground (arith, scalar))
              ∙ rw value refl)
      | inr above'' ↦
          let value : ((c / 262144 * 64 + c / 4096 % 64) * 64 + c / 64 % 64) * 64 + c % 64 ≡ c =
            omega arith in
          rw (above, above', above'')
            (decode_four (c / 262144) (c / 4096 % 64) (c / 64 % 64) (c % 64) bs
                (ground (arith, scalar)) (omega arith) (omega arith) (omega arith)
                (ground (arith, above'')) (ground (arith, scalar))
              ∙ rw value refl)
    ]
  ]
]

-- A text of characters is decoded to itself.
pub from_utf8_lossy-as_bytes : (s : Text) → All IsScalar s → from_utf8_lossy (as_bytes s) ≡ s
unfolding from_utf8_lossy as_bytes decode_from
from_utf8_lossy-as_bytes [] h = refl
from_utf8_lossy-as_bytes (c ∷ s) (h, hs) =
    decode-encode_char c (as_bytes s) h ∙ ap (◌∷◌ c) (from_utf8_lossy-as_bytes s hs)

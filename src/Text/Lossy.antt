-- ===== src/Text/Lossy.antt =====
-- `String::from_utf8_lossy`: each maximal piece of bytes that begins no character, or does not
-- finish one, becomes U+FFFD. A machine over the bytes, with the character under way as its state.
pub mod Utf8
use loraterm.Common.{ℕ, zero, suc, ◌+◌, ◌-◌, ◌*◌, ◌%◌, ◌&&◌, [], ◌∷◌, ◌++◌, leb, ltb, if◌then◌else◌}
use loraterm.Text.{Text, Bytes}

abbrev pub replacement_character : ℕ
replacement_character = 0xFFFD

-- `missing` bytes are still to come for the bits `bits`, the next one from `low` to `high`.
pub data Decoder : Type 0 where
  start : Decoder
  inside : (missing bits low high : ℕ) → Decoder

-- The first byte of a character, or a byte that can be none.
abbrev begin : ℕ → Text × Decoder
begin b =
    if ltb b 0x80
    then (b ∷ [], start)
    else if ltb b 0xC2
    then (replacement_character ∷ [], start)
    else if ltb b 0xE0
    then ([], inside 0 (b - 0xC0) 0x80 0xBF)
    else if ltb b 0xF0
    then (
      [],
      inside 1 (b - 0xE0) (if leb b 0xE0 then 0xA0 else 0x80)
          (if leb 0xED b && leb b 0xED then 0x9F else 0xBF),
    )
    else if ltb b 0xF5
    then (
      [],
      inside 2 (b - 0xF0) (if leb b 0xF0 then 0x90 else 0x80) (if leb 0xF4 b then 0x8F else 0xBF),
    )
    else (replacement_character ∷ [], start)

-- A byte that goes on with the character.
abbrev continue : ℕ → ℕ → ℕ → Text × Decoder
continue zero bits b = ((bits * 64 + b % 64) ∷ [], start)
continue (suc missing) bits b = ([], inside missing (bits * 64 + b % 64) 0x80 0xBF)

abbrev decode_byte : Decoder → ℕ → Text × Decoder
decode_byte start b = begin b
decode_byte (inside missing bits low high) b =
    if leb low b && leb b high
    then continue missing bits b
    else (replacement_character ∷ (begin b).0, (begin b).1)

pub decode_from : Decoder → Bytes → Text
decode_from start [] = []
decode_from (inside missing bits low high) [] = replacement_character ∷ []
decode_from d (b ∷ bs) = (decode_byte d b).0 ++ decode_from (decode_byte d b).1 bs

unfoldable pub from_utf8_lossy : Bytes → Text
unfolding decode_from
from_utf8_lossy = decode_from start

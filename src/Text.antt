-- ===== src/Text.antt =====
-- Rust's `str` as the list of its characters (Unicode scalar values), and `Vec<u8>` as a list of
-- numbers. The methods of `str` and `char` that the program calls, with indices in UTF-8 bytes as
-- in Rust; `split_at` off a character boundary panics.
use Prim.Native.Char.{code}
use Prim.Native.String.{String}
use loraterm.Common.{
  ℕ, zero, suc, ◌+◌, ◌-◌, ◌*◌, ◌/◌, ◌%◌, ◌^◌, ◌≡◌, Bool, true, false, ◌&&◌, ◌||◌, List, [], ◌∷◌,
  ◌++◌, map, Option, none, some, Run, ok, panicked, ltb, leb, ◌==◌, if◌then◌else◌, ◌>>=◌, length,
  any, all,
}
pub mod Laws
pub mod Decimal
pub mod Lossy
pub mod Equality

abbrev pub Text : Type 0
Text = List ℕ

abbrev pub Bytes : Type 0
Bytes = List ℕ

-- A literal of the source.
abbrev pub chars : String → Text
chars String.[] = []
chars (String.◌∷◌ c s) = code c ∷ chars s

-- The UTF-8 encoding of one character.
unfoldable pub encode_char : ℕ → Bytes
encode_char c =
    if ltb c 0x80
    then c ∷ []
    else if ltb c 0x800
    then (0xC0 + c / 64) ∷ (0x80 + c % 64) ∷ []
    else if ltb c 0x10000
    then (0xE0 + c / 4096) ∷ (0x80 + (c / 64) % 64) ∷ (0x80 + c % 64) ∷ []
    else (0xF0 + c / 262144)
      ∷ (0x80 + (c / 4096) % 64)
      ∷ (0x80 + (c / 64) % 64)
      ∷ (0x80 + c % 64)
      ∷ []

-- `char::len_utf8`
unfoldable pub len_utf8 : ℕ → ℕ
len_utf8 c = if ltb c 0x80 then 1 else if ltb c 0x800 then 2 else if ltb c 0x10000 then 3 else 4

-- `str::as_bytes`
unfoldable pub as_bytes : Text → Bytes
unfolding encode_char
as_bytes [] = []
as_bytes (c ∷ s) = encode_char c ++ as_bytes s

-- `str::len`, in bytes.
unfoldable pub len : Text → ℕ
unfolding len_utf8
len [] = 0
len (c ∷ s) = len_utf8 c + len s

-- `char::is_whitespace`, the Unicode property White_Space.
unfoldable pub is_whitespace : ℕ → Bool
is_whitespace c =
    (leb 0x09 c && leb c 0x0D)
    || c == 0x20
    || c == 0x85
    || c == 0xA0
    || c == 0x1680
    || (leb 0x2000 c && leb c 0x200A)
    || c == 0x2028
    || c == 0x2029
    || c == 0x202F
    || c == 0x205F
    || c == 0x3000

-- `trim_start_matches` and `trim_end_matches` with a test of one character.
unfoldable pub trim_start_matches : (ℕ → Bool) → Text → Text
trim_start_matches p [] = []
trim_start_matches p (c ∷ s) = if p c then trim_start_matches p s else c ∷ s

abbrev pub push_front_unless : Bool → ℕ → Text → Text
push_front_unless drop c [] = if drop then [] else c ∷ []
push_front_unless drop c (d ∷ s) = c ∷ d ∷ s

unfoldable pub trim_end_matches : (ℕ → Bool) → Text → Text
trim_end_matches p [] = []
trim_end_matches p (c ∷ s) = push_front_unless (p c) c (trim_end_matches p s)

unfoldable pub trim : Text → Text
unfolding trim_start_matches trim_end_matches is_whitespace
trim s = trim_end_matches is_whitespace (trim_start_matches is_whitespace s)

-- `rfind`: the byte index at which the last match begins.
unfoldable pub rfind : (ℕ → Bool) → Text → Option ℕ
unfolding len_utf8
rfind p [] = none
rfind p (c ∷ s) = elim (rfind p s) [
  | some i ↦ some (len_utf8 c + i)
  | none ↦ if p c then some 0 else none
]

-- `char_indices().nth(n)`, the byte index only.
unfoldable pub nth_index : ℕ → Text → Option ℕ
unfolding len_utf8
nth_index n [] = none
nth_index zero (c ∷ s) = some 0
nth_index (suc n) (c ∷ s) = elim (nth_index n s) [ some i ↦ some (len_utf8 c + i) | none ↦ none ]

-- `split_at(i)`, with `&s[..i]` its first part: a panic past the end or inside a character.
unfoldable pub split_at : Text → ℕ → Run (Text × Text)
unfolding len_utf8
split_at s zero = ok ([], s)
split_at [] (suc n) = panicked
split_at (c ∷ s) (suc n) =
    let rest = split_at s (suc n - len_utf8 c) in
    if ltb (suc n) (len_utf8 c) then panicked else (rest >>= λ (h, t). ok (c ∷ h, t))

-- `char::to_ascii_lowercase`, and on a `str`.
unfoldable pub lower_char : ℕ → ℕ
lower_char c = if leb b'A' c && leb c b'Z' then c + 32 else c

unfoldable pub to_ascii_lowercase : Text → Text
unfolding lower_char
to_ascii_lowercase = map lower_char

-- `char::is_ascii_hexdigit`
unfoldable pub is_ascii_hexdigit : ℕ → Bool
is_ascii_hexdigit c =
    (leb b'0' c && leb c b'9') || (leb b'a' c && leb c b'f') || (leb b'A' c && leb c b'F')

-- `char::is_ascii_graphic`
unfoldable pub is_ascii_graphic : ℕ → Bool
is_ascii_graphic c = leb 0x21 c && leb c 0x7E

-- `==` on texts.
unfoldable pub eq_text : Text → Text → Bool
eq_text [] [] = true
eq_text (c ∷ s) (d ∷ t) = c == d && eq_text s t
eq_text _ _ = false

-- `starts_with`, `ends_with(c)` for one character.
unfoldable pub starts_with : Text → Text → Bool
starts_with s [] = true
starts_with [] (d ∷ t) = false
starts_with (c ∷ s) (d ∷ t) = c == d && starts_with s t

unfoldable pub ends_with : ℕ → Text → Bool
ends_with d [] = false
ends_with d (c ∷ []) = c == d
ends_with d (c ∷ c' ∷ s) = ends_with d (c' ∷ s)

-- `{}` of an unsigned integer, in decimal; `n + 1` rounds are enough.
decimal_from : ℕ → ℕ → Text
decimal_from zero n = []
decimal_from (suc fuel) n =
    let more = decimal_from fuel (n / 10) ++ ((b'0' + n % 10) ∷ []) in
    if ltb n 10 then (b'0' + n) ∷ [] else more

unfoldable pub decimal : ℕ → Text
unfolding decimal_from
decimal n = decimal_from (suc n) n

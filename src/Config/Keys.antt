-- ===== src/Config/Keys.antt =====
-- Keys: what `validate_pubkey` accepts and returns, and membership in sets of keys.
use loraterm.Common.{
  ◌∙◌, zero, suc, ◌≤◌, ◌++◌, take, drop, length-take, take-append-drop, Run, take, ℕ, suc, ◌≡◌,
  refl, sym, ap, inl, inr, Bool, true, false, not, ◌&&◌, ◌||◌, List, [], ◌∷◌, arith, leb, ◌==◌,
  Bool-cases, length, all,
}
use loraterm.Text.Laws.{split_at-len}
use loraterm.Text.{
  split_at, Text, len, trim, trim_start_matches, trim_end_matches, is_whitespace, is_ascii_hexdigit,
  to_ascii_lowercase, lower_char, eq_text, push_front_unless,
}
use loraterm.Text.Equality.{eq_text_iff}
use loraterm.Config.{ok, validate_pubkey, has, collect_set, difference}

unfoldable pub is_lower_hex : ℕ → Bool
is_lower_hex c = (leb b'0' c && leb c b'9') || (leb b'a' c && leb c b'f')

-- 64 characters, each a digit or a letter from `a` to `f`.
pub record IsCanonical (key : Text) : Type 0 where
  pub size : length key ≡ 64
  pub hex : all is_lower_hex key ≡ true

pub len-hex : (s : Text) → all is_ascii_hexdigit s ≡ true → len s ≡ length s
unfolding len is_ascii_hexdigit
len-hex [] h = refl
len-hex (c ∷ s) h = ground (arith, len-hex s)

length-to_ascii_lowercase : (s : Text) → length (to_ascii_lowercase s) ≡ length s
unfolding to_ascii_lowercase
length-to_ascii_lowercase [] = refl
length-to_ascii_lowercase (c ∷ s) = ap suc (length-to_ascii_lowercase s)

lower_char-hex : (c : ℕ) → is_ascii_hexdigit c ≡ true → is_lower_hex (lower_char c) ≡ true
unfolding is_ascii_hexdigit is_lower_hex lower_char
lower_char-hex c h = ground arith

to_ascii_lowercase-hex :
    (s : Text) → all is_ascii_hexdigit s ≡ true → all is_lower_hex (to_ascii_lowercase s) ≡ true
unfolding to_ascii_lowercase
to_ascii_lowercase-hex [] h = refl
to_ascii_lowercase-hex (c ∷ s) h = ground (arith, lower_char-hex c, to_ascii_lowercase-hex s)

-- An accepted key is canonical, and is the trimmed text in lower case.
pub validate_pubkey-IsCanonical :
    (raw : Text) {key : Text}
    → validate_pubkey raw ≡ ok key
    → IsCanonical key × (key ≡ to_ascii_lowercase (trim raw))
unfolding validate_pubkey
validate_pubkey-IsCanonical raw {key} e = elim (Bool-cases (len (trim raw) == 64)) [
  | inr bad ↦ absurd (cc (rw bad at e))
  | inl size ↦ elim (Bool-cases (all is_ascii_hexdigit (trim raw))) [
    | inr bad ↦ absurd (cc (rw (size, bad) at e))
    | inl hex ↦
        let lower : to_ascii_lowercase (trim raw) ≡ key = cc (rw (size, hex) at e) in
        (
          rw (← lower) (record {
            size = ground (arith, length-to_ascii_lowercase (trim raw), len-hex (trim raw) hex);
            hex = to_ascii_lowercase-hex (trim raw) hex;
          }),
          sym lower,
        )
  ]
]

hex-visible : (c : ℕ) → is_lower_hex c ≡ true → is_whitespace c ≡ false
unfolding is_lower_hex is_whitespace
hex-visible c h = ground arith

trim_start-hex : (s : Text) → all is_lower_hex s ≡ true → trim_start_matches is_whitespace s ≡ s
unfolding trim_start_matches
trim_start-hex [] h = refl
trim_start-hex (c ∷ s) h = ground (arith, hex-visible c)

put_back : (c : ℕ) (s : Text) → push_front_unless false c s ≡ c ∷ s
put_back c [] = refl
put_back c (d ∷ s) = refl

trim_end-hex : (s : Text) → all is_lower_hex s ≡ true → trim_end_matches is_whitespace s ≡ s
unfolding trim_end_matches
trim_end-hex [] h = refl
trim_end-hex (c ∷ s) h =
    let here : is_lower_hex c ≡ true = ground arith in
    let there : all is_lower_hex s ≡ true = ground arith in
    rw (trim_end-hex s there, hex-visible c here) (put_back c s)

pub lower_hex-hex : (s : Text) → all is_lower_hex s ≡ true → all is_ascii_hexdigit s ≡ true
unfolding is_lower_hex is_ascii_hexdigit
lower_hex-hex [] h = refl
lower_hex-hex (c ∷ s) h = ground (arith, lower_hex-hex s)

lower_char-lower_hex : (c : ℕ) → is_lower_hex c ≡ true → lower_char c ≡ c
unfolding is_lower_hex lower_char
lower_char-lower_hex c h = ground arith

pub to_ascii_lowercase-lower_hex : (s : Text) → all is_lower_hex s ≡ true → to_ascii_lowercase s ≡ s
unfolding to_ascii_lowercase
to_ascii_lowercase-lower_hex [] h = refl
to_ascii_lowercase-lower_hex (c ∷ s) h =
    ground (arith, lower_char-lower_hex c, to_ascii_lowercase-lower_hex s)

-- A canonical key is accepted as it is.
pub validate_pubkey_canonical : (key : Text) → IsCanonical key → validate_pubkey key ≡ ok key
unfolding validate_pubkey trim
validate_pubkey_canonical key h =
    let hex = lower_hex-hex key h.hex in
    let size : (len key == 64) ≡ true = ground (arith, len-hex key hex, h.size) in
    rw (trim_start-hex key h.hex, trim_end-hex key h.hex, size, hex)
      (ap ok (to_ascii_lowercase-lower_hex key h.hex))

pub has-nil : (k : Text) → has k [] ≡ false
unfolding has
has-nil k = refl

pub has-cons : (k j : Text) (ks : List Text) → has k (j ∷ ks) ≡ (eq_text j k || has k ks)
unfolding has
has-cons k j ks = refl

pub has-collect_set : (k : Text) (ks : List Text) → has k (collect_set ks) ≡ has k ks
unfolding collect_set
has-collect_set k [] = refl
has-collect_set k (j ∷ ks) =
    let ih = has-collect_set k ks in
    elim (Bool-cases (has j (collect_set ks))) [
      | inl old ↦ rw (old, has-cons k j ks) (ground (arith, eq_text_iff j k, ih, old))
      | inr new ↦ rw (new, has-cons k j ks, has-cons k j (collect_set ks), ih)
    ]

pub has-difference :
    (k : Text) (xs ys : List Text) → has k (difference xs ys) ≡ (has k xs && not (has k ys))
unfolding difference
has-difference k [] ys = rw (has-nil k)
has-difference k (x ∷ xs) ys =
    let ih = has-difference k xs ys in
    elim (Bool-cases (has x ys)) [
      | inl gone ↦ rw (gone, has-cons k x xs) (ground (arith, eq_text_iff x k, ih, gone))
      | inr kept ↦
          rw (kept, has-cons k x xs, has-cons k x (difference xs ys))
            (ground (arith, eq_text_iff x k, ih, kept))
    ]

take-hex :
    (n : ℕ) (s : Text) → all is_ascii_hexdigit s ≡ true → all is_ascii_hexdigit (take n s) ≡ true
unfolding is_ascii_hexdigit
take-hex zero s hex = refl
take-hex (suc n) [] hex = refl
take-hex (suc n) (c ∷ s) hex = ground (arith, take-hex n s, hex)

-- A slice of hexadecimal digits never panics: every byte is a character.
pub split_at-hex :
    (n : ℕ) (s : Text)
    → all is_ascii_hexdigit s ≡ true
    → n ≤ length s
    → (split_at s n ≡ Run.ok (take n s, drop n s))
      × (length (take n s) ≡ n)
      × (all is_ascii_hexdigit (take n s) ≡ true)
split_at-hex n s hex h =
    let head = take-hex n s hex in
    let size : length (take n s) ≡ n = omega (arith, length-take n s, h) in
    let bytes : len (take n s) ≡ n = len-hex (take n s) head ∙ size in
    (
      ap (λ t. split_at t n) (sym (take-append-drop n s))
          ∙ ap (split_at (take n s ++ drop n s)) (sym bytes)
          ∙ split_at-len (take n s) (drop n s),
      size,
      head,
    )

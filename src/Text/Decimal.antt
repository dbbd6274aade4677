-- ===== src/Text/Decimal.antt =====
-- The decimal digits of a number: how many there are, and that they read back.
use native.Mathlib.Nat.{pow-suc}
use loraterm.Common.{
  ℕ, zero, suc, ◌+◌, ◌*◌, ◌/◌, ◌%◌, ◌-◌, ◌^◌, ◌≤◌, ◌<◌, ◌≡◌, refl, inl, inr, [], ◌∷◌, ◌++◌, arith,
  ltb, Bool-cases, length, length-append,
}
use loraterm.Text.{Text, decimal_from, decimal}

length-decimal_from : (fuel k n : ℕ) → n < 10 ^ suc k → length (decimal_from fuel n) ≤ suc k
unfolding decimal_from
length-decimal_from zero k n h = omega arith
length-decimal_from (suc fuel) zero n h = ground arith
length-decimal_from (suc fuel) (suc k) n h =
    let h' : n / 10 < 10 ^ suc k = omega (arith, rw (pow-suc 10 (suc k)) at h) in
    ground (
      arith,
      length-append (decimal_from fuel (n / 10)) ((b'0' + n % 10) ∷ []),
      length-decimal_from fuel k (n / 10) h',
    )

-- A number below 10 ^ k takes at most k digits.
pub length-decimal-le : (k n : ℕ) → n < 10 ^ suc k → length (decimal n) ≤ suc k
unfolding decimal
length-decimal-le k n h = length-decimal_from (suc n) k n h

-- The value of digits behind those of `acc`.
abbrev pub digits_value : ℕ → Text → ℕ
digits_value acc [] = acc
digits_value acc (c ∷ s) = digits_value (10 * acc + (c - b'0')) s

digits_value-append :
    (acc : ℕ) (s t : Text) → digits_value acc (s ++ t) ≡ digits_value (digits_value acc s) t
digits_value-append acc [] t = refl
digits_value-append acc (c ∷ s) t = digits_value-append (10 * acc + (c - b'0')) s t

digits_value-decimal_from : (fuel n : ℕ) → n < fuel → digits_value 0 (decimal_from fuel n) ≡ n
unfolding decimal_from
digits_value-decimal_from zero n h = absurd (omega arith)
digits_value-decimal_from (suc fuel) n h = elim (Bool-cases (ltb n 10)) [
  | inl small ↦ rw small (ground arith)
  | inr large ↦
      rw
        (
          large,
          digits_value-append 0 (decimal_from fuel (n / 10)) ((b'0' + n % 10) ∷ []),
          digits_value-decimal_from fuel (n / 10) (ground arith),
        )
        (omega arith)
]

-- The printed digits of a number read back as that number, so the fuel of `decimal` is enough.
pub digits_value-decimal : (n : ℕ) → digits_value 0 (decimal n) ≡ n
unfolding decimal
digits_value-decimal n = digits_value-decimal_from (suc n) n (omega arith)

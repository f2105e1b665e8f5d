-- ===== src/Strings/Print.antt =====
-- `itoa` and `int_to_ascii` of lib/string.c write the decimal digits of their number, and `atoi`
-- reads them back.
use amit_x.Prelude.{ℕ, ◌+◌, ◌-◌, ◌/◌, ◌≤◌, ◌<◌, ◌≡◌, if◌then◌else◌, ◌⊎◌}
use amit_x.Strings.{Bytes, store, ℤ}
use amit_x.Strings.Decimal.{swap_from, is_negative}
use amit_x.Strings.Numbers.{digit}

-- The string for a number with the magnitude `n`: the sign, `s` characters, then the `c` digits, and
-- the byte 0.
record Printed (s n str c : ℕ) (m m' : Bytes) : Type 0 where
  digits : (j : ℕ) → j < c → m' (str + s + j) ≡ digit (c - 1 - j) n
  ended : m' (str + s + c) ≡ 0
  sign : s ≡ 1 → m' str ≡ 45
  outside : (b : ℕ) → (b < str) ⊎ (str + s + c < b) → m' b ≡ m b

-- The same from the right, before the byte 0 is stored and the string is turned around.
record Reversed (s n str c : ℕ) (m m' : Bytes) : Type 0 where
  digits : (k : ℕ) → k < c → m' (str + k) ≡ digit k n
  sign : s ≡ 1 → m' (str + c) ≡ 45
  outside : (b : ℕ) → (b < str) ⊎ (str + s + c ≤ b) → m' b ≡ m b

abbrev turned : ℕ → ℕ → Bytes → Bytes
turned i str m = swap_from (i / 2) 0 i str (store (str + i) 0 m)

-- The length of the sign.
abbrev pub sign_length : ℤ → ℕ
sign_length n = if is_negative n then 1 else 0

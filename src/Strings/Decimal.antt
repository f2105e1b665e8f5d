-- ===== src/Strings/Decimal.antt =====
-- `atoi`, `itoa` and `int_to_ascii` of lib/string.c.
use amit_x.Prelude.{
  ℕ, zero, suc, ◌+◌, ◌-◌, ◌*◌, ◌/◌, ◌%◌, ◌^◌, Bool, true, false, ◌&&◌, Option, none, some, ltb, leb,
  if◌then◌else◌,
}
use amit_x.Strings.{Bytes, store, ℤ, pos, negsuc}

abbrev pub is_digit : ℕ → Bool
is_digit c = leb 48 c && leb c 57

-- The loop of `atoi`, from the result so far.
unfoldable pub atoi_from : ℕ → ℕ → ℕ → Bytes → Option ℕ
atoi_from zero result str m = none
atoi_from (suc fuel) result str m =
    let rest = atoi_from fuel ((result * 10 + (m str - 48)) % 2 ^ 32) (str + 1) m in
    if is_digit (m str) then rest else some result

unfoldable pub atoi : ℕ → ℕ → Bytes → Option ℕ
unfolding atoi_from
atoi fuel str m = atoi_from fuel 0 str m

-- The `do` loop of `itoa` and `int_to_ascii`: where `i` ends, and the memory.
unfoldable pub put_digits : ℕ → ℕ → ℕ → ℕ → Bytes → Option (ℕ × Bytes)
unfolding store
put_digits zero n i str m = none
put_digits (suc fuel) n i str m =
    let m' = store (str + i) (n % 10 + 48) m in
    let rest = put_digits fuel (n / 10) (i + 1) str m' in
    if ltb 0 (n / 10) then rest else some (i + 1, m')

-- Their last loop, with `n` rounds left from `j` on.
unfoldable pub swap_from : ℕ → ℕ → ℕ → ℕ → Bytes → Bytes
unfolding store
swap_from zero j i str m = m
swap_from (suc n) j i str m =
    let t = m (str + j) in
    let m' = store (str + j) (m (str + (i - 1 - j))) m in
    swap_from n (j + 1) i str (store (str + (i - 1 - j)) t m')

-- An `int` has ten digits at most.
abbrev pub max_digits : ℕ
max_digits = 10

-- The value of `-n` for a negative `n`, which is no `int` for the least of them.
abbrev pub magnitude : ℤ → ℕ
magnitude (pos n) = n
magnitude (negsuc n) = n + 1

abbrev pub is_negative : ℤ → Bool
is_negative (pos n) = false
is_negative (negsuc n) = true

-- The sign is written, the string ended and turned around.
unfoldable pub signed_reverse : Bool → ℕ → ℕ → Bytes → Bytes
unfolding store swap_from
signed_reverse neg i str m =
    let m' = if neg then store (str + i) 45 m else m in
    let i' = if neg then i + 1 else i in swap_from (i' / 2) 0 i' str (store (str + i') 0 m')

unfoldable pub itoa : ℤ → ℕ → Bytes → Option Bytes
unfolding put_digits signed_reverse
itoa n str m = elim (put_digits max_digits (magnitude n) 0 str m) [
  | none ↦ none
  | some (i, m') ↦ some (signed_reverse (is_negative n) i str m')
]

unfoldable pub int_to_ascii : ℤ → ℕ → Bytes → Option Bytes
unfolding put_digits signed_reverse
int_to_ascii n str m = elim (put_digits max_digits (magnitude n) 0 str m) [
  | none ↦ none
  | some (i, m') ↦ some (signed_reverse (is_negative n) i str m')
]

-- ===== src/Bitmap/Align.antt =====
-- Rounding by masks: `x & ~(a - 1)` for a power of two `a`, on 64-bit values, and the test
-- `a & (a - 1)` by which the code recognises a power of two.
use native.Mathlib.Nat.{pow-suc, one-le-pow, mod-lt, div-add-mod, div-div-eq-div-mul, mul-mod_right}
use mathlib.Core.WellFounded
use amit_x.Prelude.{
  ℕ, zero, suc, ◌+◌, ◌-◌, ◌*◌, ◌/◌, ◌%◌, ◌^◌, ◌≤◌, ◌<◌, bit_and, ◌≡◌, refl, ap, sym, ◌∙◌, arith,
  ℕ_discrete,
}
use amit_x.Prelude.Word.{u64}
use amit_x.Prelude.Order.{lt_wf}
use amit_x.Bitmap.Bits.{bit_and_step, bit_and-zero}

-- `x & ~(PFN_T)(a - 1)`
unfoldable pub align_down : ℕ → ℕ → ℕ
align_down x a = bit_and x (2 ^ 64 - 1 - (a - 1))

bit_and_self : (a : ℕ) → bit_and a a ≡ a
bit_and_self a = WellFounded.induction lt_wf {C = λ k. bit_and k k ≡ k} a step
  where
    step : (n : ℕ) → ((m : ℕ) → m < n → bit_and m m ≡ m) → bit_and n n ≡ n
    step zero ih = refl
    step (suc n) ih = omega (arith, bit_and_step (suc n) (suc n), ih (suc n / 2) (omega arith))

-- The code's test accepts the powers of two only.
pub power_of_two : (a : ℕ) → 0 < a → bit_and a (a - 1) ≡ 0 → (k : ℕ) × (a ≡ 2 ^ k)
power_of_two a =
    WellFounded.induction lt_wf {C = λ n. 0 < n → bit_and n (n - 1) ≡ 0 → (k : ℕ) × (n ≡ 2 ^ k)} a
      step
  where
    step :
        (n : ℕ)
        → ((m : ℕ) → m < n → 0 < m → bit_and m (m - 1) ≡ 0 → (k : ℕ) × (m ≡ 2 ^ k))
        → 0 < n
        → bit_and n (n - 1) ≡ 0
        → (k : ℕ) × (n ≡ 2 ^ k)
    step n ih pos e = elim (ℕ_discrete n 1) [
      | yes one ↦ (0, one)
      | no many ↦ elim (ℕ_discrete (n % 2) 0) [
        | yes even ↦
            let h : (n - 1) / 2 ≡ n / 2 - 1 = omega arith in
            let (k, q) =
              ih (n / 2) (omega arith) (omega arith)
                (omega (arith, bit_and_step n (n - 1), ap (bit_and (n / 2)) h)) in
            (suc k, omega (arith, pow-suc 2 k))
        | no odd ↦
            let h : (n - 1) / 2 ≡ n / 2 = omega arith in
            absurd
              (omega (arith, bit_and_step n (n - 1), ap (bit_and (n / 2)) h, bit_and_self (n / 2)))
      ]
    ]

bit_and-ones : (w x : ℕ) → x < 2 ^ w → bit_and x (2 ^ w - 1) ≡ x
bit_and-ones zero x h = let e : x ≡ 0 = omega arith in rw e
bit_and-ones (suc w) x h =
    let p = pow-suc 2 w in
    let e : (2 ^ suc w - 1) / 2 ≡ 2 ^ w - 1 = omega (arith, p, one-le-pow w 2) in
    omega (
      arith,
      p,
      one-le-pow w 2,
      bit_and_step x (2 ^ suc w - 1),
      ap (bit_and (x / 2)) e,
      bit_and-ones w (x / 2) (omega (arith, p)),
    )

half-mod : (k x : ℕ) → x % 2 ^ suc k ≡ 2 * ((x / 2) % 2 ^ k) + x % 2
half-mod k x =
    let d : 2 ^ suc k ≡ 2 * 2 ^ k = omega (arith, pow-suc 2 k) in
    let q : x / 2 ^ suc k ≡ x / 2 / 2 ^ k =
      ap (λ t. x / t) d ∙ sym (div-div-eq-div-mul x 2 (2 ^ k)) in
    omega (
      arith,
      d,
      div-add-mod x (2 ^ suc k),
      div-add-mod (x / 2) (2 ^ k),
      ap (λ t. 2 ^ suc k * t) q,
      ap (λ t. t * (x / 2 / 2 ^ k)) d,
    )

-- A mask of `w - k` high ones clears the low `k` bits.
pub bit_and-high : (k w x : ℕ) → k ≤ w → x < 2 ^ w → bit_and x (2 ^ w - 2 ^ k) + x % 2 ^ k ≡ x
bit_and-high zero w x le h = omega (arith, bit_and-ones w x h)
bit_and-high (suc k) zero x le h = absurd (omega arith)
bit_and-high (suc k) (suc w) x le h =
    let p = pow-suc 2 w in
    let q = pow-suc 2 k in
    let e : (2 ^ suc w - 2 ^ suc k) / 2 ≡ 2 ^ w - 2 ^ k = omega (arith, p, q) in
    let r : x % 2 ^ suc k ≡ 2 * ((x / 2) % 2 ^ k) + x % 2 = half-mod k x in
    omega (
      arith,
      p,
      q,
      bit_and_step x (2 ^ suc w - 2 ^ suc k),
      ap (bit_and (x / 2)) e,
      bit_and-high k w (x / 2) (omega arith) (omega (arith, p)),
      r,
    )

cut_multiple : (k x y : ℕ) → y + x % 2 ^ k ≡ x → y % 2 ^ k ≡ 0
cut_multiple k x y e =
    let q : y ≡ 2 ^ k * (x / 2 ^ k) = omega (arith, div-add-mod x (2 ^ k)) in
    rw q (mul-mod_right (2 ^ k) (x / 2 ^ k))

-- Rounding up to a multiple of the power of two `a`, as the code does, gives the least multiple
-- that is not below `x`, if nothing overflows.
pub align_up_lem :
    (x k : ℕ)
    → k < 64
    → x + 2 ^ k ≤ 2 ^ 64
    → let y = align_down (u64 (x + 2 ^ k - 1)) (2 ^ k) in
      (x ≤ y) × (y < x + 2 ^ k) × (y % 2 ^ k ≡ 0)
unfolding align_down
align_up_lem x k hk h =
    let one : 0 < 2 ^ k = one-le-pow k 2 (omega arith) in
    let top = x + 2 ^ k - 1 in
    let wrap : u64 top ≡ top = omega arith in
    let mask : 2 ^ 64 - 1 - (2 ^ k - 1) ≡ 2 ^ 64 - 2 ^ k = omega arith in
    let cut = bit_and-high k 64 top (omega arith) (omega arith) in
    rw (wrap, mask)
      (omega (arith, cut, mod-lt top {m = 2 ^ k} one), omega (arith, cut), cut_multiple k top _ cut)

-- It accepts every power of two.
pub bit_and-pow_pred : (k : ℕ) → bit_and (2 ^ k) (2 ^ k - 1) ≡ 0
bit_and-pow_pred zero = refl
bit_and-pow_pred (suc k) =
    let p = pow-suc 2 k in
    let h : 2 ^ suc k / 2 ≡ 2 ^ k = omega arith in
    let l : (2 ^ suc k - 1) / 2 ≡ 2 ^ k - 1 = omega (arith, one-le-pow k 2) in
    omega (
      arith,
      bit_and_step (2 ^ suc k) (2 ^ suc k - 1),
      ap (bit_and (2 ^ suc k / 2)) l,
      ap (λ t. bit_and t (2 ^ k - 1)) h,
      bit_and-pow_pred k,
    )

-- A mask of `w` low ones leaves the remainder.
pub bit_and-low : (w x : ℕ) → bit_and x (2 ^ w - 1) ≡ x % 2 ^ w
bit_and-low zero x = bit_and-zero x ∙ omega arith
bit_and-low (suc w) x =
    let p = pow-suc 2 w in
    let e : (2 ^ suc w - 1) / 2 ≡ 2 ^ w - 1 = omega (arith, p, one-le-pow w 2) in
    omega (
      arith,
      p,
      one-le-pow w 2,
      bit_and_step x (2 ^ suc w - 1),
      ap (bit_and (x / 2)) e,
      bit_and-low w (x / 2),
      half-mod w x,
    )

-- Rounding down to a page.
pub align_down_page : (x : ℕ) → x < 2 ^ 64 → align_down x 4096 + x % 4096 ≡ x
unfolding align_down
align_down_page x h = bit_and-high 12 64 x (omega arith) (omega arith)

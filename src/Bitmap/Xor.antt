-- ===== src/Bitmap/Xor.antt =====
-- Exclusive or, bit by bit: the facts behind the checksum of fs/smkfs/checksum.c.
use amit_x.Prelude.{
  ℕ, zero, suc, ◌+◌, ◌*◌, ◌/◌, ◌%◌, ◌^◌, ◌≤◌, ◌<◌, bit_xor, ◌≡◌, refl, ap, ◌∙◌, sym, arith,
  ℕ_discrete,
}
use Prim.Native.Nat.{bit_xor-bitwise, differ}
use native.Mathlib.Nat.{pow-suc}
use amit_x.Prelude.Order.{lt_wf}
use mathlib.Core.WellFounded
use amit_x.Bitmap.Bits.{bit, lowest, bit-zero, bit-le-one}

differ_lem : (a b : ℕ) → a ≤ 1 → b ≤ 1 → differ a b ≡ (a + b) % 2
differ_lem zero zero p q = refl
differ_lem zero (suc zero) p q = refl
differ_lem zero (suc (suc b)) p q = absurd (omega arith)
differ_lem (suc zero) zero p q = refl
differ_lem (suc zero) (suc zero) p q = refl
differ_lem (suc zero) (suc (suc b)) p q = absurd (omega arith)
differ_lem (suc (suc a)) b p q = absurd (omega arith)

pub bit_xor_step : (x y : ℕ) → bit_xor x y ≡ bit_xor (x / 2) (y / 2) * 2 + (x % 2 + y % 2) % 2
bit_xor_step zero y = simp bit_xor-bitwise (omega arith)
bit_xor_step (suc x) y =
    rw (← differ_lem (suc x % 2) (y % 2) (omega arith) (omega arith))
      (simp bit_xor-bitwise (lowest (λ y. y) differ x y))

pub bit_xor-half : (x y : ℕ) → bit_xor x y / 2 ≡ bit_xor (x / 2) (y / 2)
bit_xor-half x y = omega (arith, bit_xor_step x y)

pub bit-bit_xor : (j a b : ℕ) → bit (bit_xor a b) j ≡ (bit a j + bit b j) % 2
bit-bit_xor zero a b = omega (arith, bit_xor_step a b)
bit-bit_xor (suc j) a b = rw (bit_xor-half a b) (bit-bit_xor j (a / 2) (b / 2))

-- Two numbers with the same bits are equal.
pub bit_ext : (a b : ℕ) → ((j : ℕ) → bit a j ≡ bit b j) → a ≡ b
bit_ext a =
    WellFounded.induction lt_wf {C = λ n. (b : ℕ) → ((j : ℕ) → bit n j ≡ bit b j) → n ≡ b} a step
  where
    zeros : (b : ℕ) → ((j : ℕ) → bit 0 j ≡ bit b j) → 0 ≡ b
    zeros b =
        WellFounded.induction lt_wf {C = λ m. ((j : ℕ) → bit 0 j ≡ bit m j) → 0 ≡ m} b λ m ih h.
          elim (ℕ_discrete m 0) [
            | yes e ↦ sym e
            | no ne ↦ omega (arith, h 0, ih (m / 2) (omega arith) (λ j. h (suc j)))
          ]

    step :
        (n : ℕ)
        → ((m : ℕ) → m < n → (b : ℕ) → ((j : ℕ) → bit m j ≡ bit b j) → m ≡ b)
        → (b : ℕ) → ((j : ℕ) → bit n j ≡ bit b j)
        → n ≡ b
    step zero ih b h = zeros b h
    step (suc n) ih b h = omega (arith, h 0, ih (suc n / 2) (omega arith) (b / 2) (λ j. h (suc j)))

pub bit_xor-zero : (a : ℕ) → bit_xor a 0 ≡ a
bit_xor-zero a =
    bit_ext _ _ (λ j. rw (bit-bit_xor j a 0, bit-zero j) (omega (arith, bit-le-one j a)))

-- A low part under `2 ^ k` is joined to a high part by exclusive or.
pub bit_xor-join : (k a b : ℕ) → b < 2 ^ k → bit_xor (a * 2 ^ k) b ≡ a * 2 ^ k + b
bit_xor-join zero a b h = let e : b ≡ 0 = omega arith in rw e (bit_xor-zero (a * 1) ∙ omega arith)
bit_xor-join (suc k) a b h =
    let e : a * 2 ^ suc k ≡ a * 2 ^ k * 2 = rw (pow-suc 2 k) (grind arith) in
    let q : a * 2 ^ suc k / 2 ≡ a * 2 ^ k = omega (arith, e) in
    omega (
      arith,
      e,
      q,
      bit_xor_step (a * 2 ^ suc k) b,
      ap (λ t. bit_xor t (b / 2)) q,
      pow-suc 2 k,
      bit_xor-join k a (b / 2) (omega (arith, pow-suc 2 k)),
    )

pub bit_xor-byte : (a b : ℕ) → b < 256 → bit_xor a b / 256 ≡ a / 256
bit_xor-byte a b h =
    let halve = λ (x y : ℕ). bit_xor-half x y in
    omega (
      arith,
      halve a b,
      halve (a / 2) (b / 2),
      halve (a / 2 / 2) (b / 2 / 2),
      halve (a / 2 / 2 / 2) (b / 2 / 2 / 2),
      halve (a / 2 / 2 / 2 / 2) (b / 2 / 2 / 2 / 2),
      halve (a / 2 / 2 / 2 / 2 / 2) (b / 2 / 2 / 2 / 2 / 2),
      halve (a / 2 / 2 / 2 / 2 / 2 / 2) (b / 2 / 2 / 2 / 2 / 2 / 2),
      halve (a / 2 / 2 / 2 / 2 / 2 / 2 / 2) (b / 2 / 2 / 2 / 2 / 2 / 2 / 2),
      bit_xor-zero (a / 2 / 2 / 2 / 2 / 2 / 2 / 2 / 2),
      ap (bit_xor (a / 2 / 2 / 2 / 2 / 2 / 2 / 2 / 2)) (low),
    )
  where
    low : b / 2 / 2 / 2 / 2 / 2 / 2 / 2 / 2 ≡ 0
    low = omega arith

-- ===== src/Bitmap/Bits.antt =====
-- Single bits of a number under the C operators, at every width: the facts behind the byte
-- bitmaps of mm/pmm.c, mm/vmm.c and fs/smkfs/bitmap.c, and the checksum of fs/smkfs/checksum.c.
use Prim.Native.Nat.{digits, bitwise, bit_and-bitwise, bit_or-bitwise}
use native.Mathlib.Nat.{pow-suc}
use amit_x.Prelude.{
  ℕ, zero, suc, ◌+◌, ◌*◌, ◌/◌, ◌%◌, ◌^◌, ◌≤◌, ◌<◌, min, max, bit_and, bit_or, ◌≡◌, refl, ap, ◌∙◌,
  ◌-◌, arith, ◌==◌, if◌then◌else◌,
}
use amit_x.Prelude.Word.{u8}
use amit_x.Prelude.Order.{lt_wf}
use mathlib.Core.WellFounded
use amit_x.Prelude.{ℕ_discrete}

-- Bit `j` of `a`, 0 or 1.
abbrev pub bit : ℕ → ℕ → ℕ
bit a zero = a % 2
bit a (suc j) = bit (a / 2) j

-- The library states the native operations by a digit recursion on fuel, `digits`. One more unit
-- of fuel than is needed changes nothing, so the lowest digit can be split off.
module _ (g : ℕ → ℕ) (op : ℕ → ℕ → ℕ) where
  spare : (n x y : ℕ) → x ≤ n → digits g op (suc n) x y ≡ digits g op n x y
  spare zero zero y le = refl
  spare zero (suc x) y le = absurd (omega arith)
  spare (suc n) zero y le = refl
  spare (suc n) (suc x) y le =
      ap (λ d. d * 2 + op (suc x % 2) (y % 2)) (spare n (suc x / 2) (y / 2) (omega arith))

  exact : (extra n x y : ℕ) → n ≡ x + extra → digits g op n x y ≡ bitwise g op x y
  exact zero n x y e = let same : n ≡ x = omega arith in ap (λ k. digits g op k x y) same
  exact (suc extra) zero x y e = absurd (omega arith)
  exact (suc extra) (suc n) x y e = spare n x y (omega arith) ∙ exact extra n x y (omega arith)

  pub lowest :
      (x y : ℕ)
      → bitwise g op (suc x) y ≡ bitwise g op (suc x / 2) (y / 2) * 2 + op (suc x % 2) (y % 2)
  lowest x y =
      ap (λ d. d * 2 + op (suc x % 2) (y % 2))
        (exact (x - suc x / 2) x (suc x / 2) (y / 2) (omega arith))

pub bit_and_step : (x y : ℕ) → bit_and x y ≡ bit_and (x / 2) (y / 2) * 2 + min (x % 2) (y % 2)
bit_and_step zero y = simp bit_and-bitwise (omega arith)
bit_and_step (suc x) y = simp bit_and-bitwise (lowest (λ y. 0) min x y)

pub bit_or_step : (x y : ℕ) → bit_or x y ≡ bit_or (x / 2) (y / 2) * 2 + max (x % 2) (y % 2)
bit_or_step zero y = simp bit_or-bitwise (omega arith)
bit_or_step (suc x) y = simp bit_or-bitwise (lowest (λ y. y) max x y)

pub bit-bit_or : (j a b : ℕ) → bit (bit_or a b) j ≡ max (bit a j) (bit b j)
bit-bit_or zero a b = omega (arith, bit_or_step a b)
bit-bit_or (suc j) a b =
    let e : bit_or a b / 2 ≡ bit_or (a / 2) (b / 2) = omega (arith, bit_or_step a b) in
    rw e (bit-bit_or j (a / 2) (b / 2))

pub bit-bit_and : (j a b : ℕ) → bit (bit_and a b) j ≡ min (bit a j) (bit b j)
bit-bit_and zero a b = omega (arith, bit_and_step a b)
bit-bit_and (suc j) a b =
    let e : bit_and a b / 2 ≡ bit_and (a / 2) (b / 2) = omega (arith, bit_and_step a b) in
    rw e (bit-bit_and j (a / 2) (b / 2))

pub bit-le-one : (j a : ℕ) → bit a j ≤ 1
bit-le-one zero a = omega arith
bit-le-one (suc j) a = bit-le-one j (a / 2)

pub bit-zero : (j : ℕ) → bit 0 j ≡ 0
bit-zero zero = refl
bit-zero (suc j) = bit-zero j

half-pow : (k : ℕ) → (2 ^ suc k / 2 ≡ 2 ^ k) × (2 ^ suc k % 2 ≡ 0)
half-pow k = omega (arith, pow-suc 2 k)

-- A power of two has one bit.
pub bit-pow : (j k : ℕ) → bit (2 ^ k) j ≡ (if k == j then 1 else 0)
bit-pow zero zero = refl
bit-pow zero (suc k) = ground (arith, half-pow k)
bit-pow (suc j) zero = rw (bit-zero j) (ground arith)
bit-pow (suc j) (suc k) = rw ((half-pow k).0, bit-pow j k) (ground arith)

pub bit_and-zero : (a : ℕ) → bit_and a 0 ≡ 0
bit_and-zero a = WellFounded.induction lt_wf {C = λ n. bit_and n 0 ≡ 0} a λ n ih.
    elim (ℕ_discrete n 0) [
      | yes e ↦ rw e
      | no ne ↦ omega (arith, bit_and_step n 0, ih (n / 2) (omega arith))
    ]

-- The test `a & (1 << k)` isolates bit `k`.
pub bit_and-pow : (k a : ℕ) → bit_and a (2 ^ k) ≡ bit a k * 2 ^ k
bit_and-pow zero a = omega (arith, bit_and_step a 1, bit_and-zero (a / 2))
bit_and-pow (suc k) a =
    let (h, r) = half-pow k in
    let e : bit_and a (2 ^ suc k)
        ≡ bit_and (a / 2) (2 ^ suc k / 2) * 2 + min (a % 2) (2 ^ suc k % 2) =
      bit_and_step a (2 ^ suc k) in
    omega (
      arith,
      e,
      (rw h at e),
      bit_and-pow k (a / 2),
      pow-suc 2 k,
      ap (λ (t : ℕ). bit (a / 2) k * t) (pow-suc 2 k),
    )

pub bit-u8 : (j a : ℕ) → j < 8 → bit (u8 a) j ≡ bit a j
bit-u8 zero a h = omega arith
bit-u8 (suc zero) a h = omega arith
bit-u8 (suc (suc zero)) a h = omega arith
bit-u8 (suc (suc (suc zero))) a h = omega arith
bit-u8 (suc (suc (suc (suc zero)))) a h = omega arith
bit-u8 (suc (suc (suc (suc (suc zero))))) a h = omega arith
bit-u8 (suc (suc (suc (suc (suc (suc zero)))))) a h = omega arith
bit-u8 (suc (suc (suc (suc (suc (suc (suc zero))))))) a h = omega arith
bit-u8 (suc (suc (suc (suc (suc (suc (suc (suc j)))))))) a h = absurd (omega arith)

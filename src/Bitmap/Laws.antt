-- ===== src/Bitmap/Laws.antt =====
-- What the bitmap operations do to every bit: the written bit changes, and no other.
use native.Mathlib.Nat.{one-le-pow}
use amit_x.Prelude.{
  ℕ, zero, suc, ◌-◌, ◌*◌, ◌/◌, ◌%◌, ◌^◌, ◌≤◌, ◌<◌, min, max, bit_and, bit_or, ◌≡◌, refl, arith,
  true, not, ◌&&◌, ◌||◌, List, length, set, ◌==◌, if◌then◌else◌, ==_iff, length-set,
  get_or-set_self, get_or-set_ne, ℕ_discrete,
}
use amit_x.Prelude.Word.{u8}
use amit_x.Prelude.Order.{table_holds, table_holds_entry}
use amit_x.Bitmap.{set_bit, clear_bit, test_bit, byte_at, set_in, clear_in, test_in}
use amit_x.Bitmap.Bits.{bit, bit-bit_or, bit-bit_and, bit-le-one, bit-pow, bit_and-pow, bit-u8}

-- The test reads the bit.
pub test_bit-bit : (b k : ℕ) → test_bit b k ≡ (bit b k == 1)
unfolding test_bit
test_bit-bit b k = rw (bit_and-pow k b) (split (bit b k) (bit-le-one k b))
  where
    split : (c : ℕ) → c ≤ 1 → not (c * 2 ^ k == 0) ≡ (c == 1)
    split zero h = ground arith
    split (suc zero) h = ground (arith, one-le-pow k 2)
    split (suc (suc c)) h = absurd (omega arith)

bit-set_bit :
    (b k j : ℕ) → j < 8 → k < 8 → bit (set_bit b k) j ≡ max (bit b j) (if k == j then 1 else 0)
unfolding set_bit
bit-set_bit b k j h p = rw (
  bit-u8 j (bit_or b (u8 (2 ^ k))) h,
  bit-bit_or j b (u8 (2 ^ k)),
  bit-u8 j (2 ^ k) h,
  bit-pow j k,
)

mask_table :
    table_holds
      (λ k. table_holds (λ j. bit (u8 (2 ^ 32 - 1 - 2 ^ k)) j == (if k == j then 0 else 1)) 0 8)
      0
      8
    ≡ true
unfolding table_holds
mask_table = refl

bit_mask : (k j : ℕ) → j < 8 → k < 8 → bit (u8 (2 ^ 32 - 1 - 2 ^ k)) j ≡ (if k == j then 0 else 1)
bit_mask k j h p = (==_iff _ _).0 (
    table_holds_entry _ 0 8 j (table_holds_entry _ 0 8 k mask_table (omega arith) p) (omega arith)
      h)

bit-clear_bit :
    (b k j : ℕ) → j < 8 → k < 8 → bit (clear_bit b k) j ≡ min (bit b j) (if k == j then 0 else 1)
unfolding clear_bit
bit-clear_bit b k j h p = rw (
  bit-u8 j (bit_and b (u8 (2 ^ 32 - 1 - 2 ^ k))) h,
  bit-bit_and j b (u8 (2 ^ 32 - 1 - 2 ^ k)),
  bit_mask k j h p,
)

pub test_bit-set_bit :
    (b k j : ℕ) → j < 8 → k < 8 → test_bit (set_bit b k) j ≡ ((k == j) || test_bit b j)
test_bit-set_bit b k j h p =
    rw (test_bit-bit (set_bit b k) j, test_bit-bit b j, bit-set_bit b k j h p)
      (ground (arith, bit-le-one j b))

pub test_bit-clear_bit :
    (b k j : ℕ) → j < 8 → k < 8 → test_bit (clear_bit b k) j ≡ (not (k == j) && test_bit b j)
test_bit-clear_bit b k j h p =
    rw (test_bit-bit (clear_bit b k) j, test_bit-bit b j, bit-clear_bit b k j h p)
      (ground (arith, bit-le-one j b))

-- A write through byte `i / 8` shows at bit `j` if the bytes are the same one.
module _ (bm : List ℕ) (i j : ℕ) (h : i < 8 * length bm) where
  test_in-set :
      (v : ℕ)
      → test_in (set bm (i / 8) v) j ≡ (if i / 8 == j / 8 then test_bit v (j % 8) else test_in bm j)
  unfolding test_in
  test_in-set v = elim (ℕ_discrete (i / 8) (j / 8)) [
    | yes e ↦ rw (← e, get_or-set_self bm (i / 8) v 0 (omega arith)) (ground arith)
    | no ne ↦ rw (get_or-set_ne bm (i / 8) (j / 8) v 0 ne) (ground arith)
  ]

  pub test_in-set_in : test_in (set_in bm i) j ≡ ((i == j) || test_in bm j)
  unfolding set_in
  test_in-set_in =
      rw
        (
          test_in-set (set_bit (byte_at bm (i / 8)) (i % 8)),
          test_bit-set_bit (byte_at bm (i / 8)) (i % 8) (j % 8) (omega arith) (omega arith),
        )
        (unfold test_in in ground arith)

  pub test_in-clear_in : test_in (clear_in bm i) j ≡ (not (i == j) && test_in bm j)
  unfolding clear_in
  test_in-clear_in =
      rw
        (
          test_in-set (clear_bit (byte_at bm (i / 8)) (i % 8)),
          test_bit-clear_bit (byte_at bm (i / 8)) (i % 8) (j % 8) (omega arith) (omega arith),
        )
        (unfold test_in in ground arith)

pub length-set_in : (bm : List ℕ) (i : ℕ) → length (set_in bm i) ≡ length bm
unfolding set_in
length-set_in bm i = length-set bm (i / 8) _

pub length-clear_in : (bm : List ℕ) (i : ℕ) → length (clear_in bm i) ≡ length bm
unfolding clear_in
length-clear_in bm i = length-set bm (i / 8) _

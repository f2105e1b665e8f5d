-- ===== src/Checksum/Crc.antt =====
-- `checksum_compute` of fs/smkfs/checksum.c against the bitwise definition of CRC32C: a shift
-- register over the reversed Castagnoli polynomial, one bit at a time.
use amit_x.Prelude.{
  ℕ, zero, suc, ◌+◌, ◌-◌, ◌*◌, ◌/◌, ◌%◌, ◌^◌, ◌≤◌, ◌<◌, bit_and, bit_xor, ◌≡◌, refl, ap, ◌∙◌, arith,
  Bool, true, List, [], ◌∷◌, get_or, ◌==◌, if◌then◌else◌, ==_iff, ℕ_discrete,
}
use amit_x.Prelude.Order.{table_holds, table_holds_entry}
use amit_x.Bitmap.Bits.{bit, bit-le-one}
use amit_x.Bitmap.Align.{bit_and-low}
use amit_x.Bitmap.Xor.{bit-bit_xor, bit_ext, bit_xor-join, bit_xor-byte, bit_xor_step}
use amit_x.Checksum.{crc32c_table, crc_step, crc_loop, checksum_compute}

abbrev polynomial : ℕ
polynomial = 0x82F63B78

-- One bit through the register.
unfoldable pub shift_bit : ℕ → ℕ
shift_bit x = if x % 2 == 1 then bit_xor (x / 2) polynomial else x / 2

unfoldable pub shift_bits : ℕ → ℕ → ℕ
unfolding shift_bit
shift_bits zero x = x
shift_bits (suc n) x = shift_bits n (shift_bit x)

-- The message bytes, lowest bit first.
unfoldable pub crc32c_register : ℕ → List ℕ → ℕ
unfolding shift_bits
crc32c_register r [] = r
crc32c_register r (byte ∷ bytes) = crc32c_register (shift_bits 8 (bit_xor r byte)) bytes

unfoldable pub crc32c : List ℕ → ℕ
unfolding crc32c_register
crc32c bytes = 2 ^ 32 - 1 - crc32c_register 0xFFFFFFFF bytes

abbrev pub AreBytes : List ℕ → Type 0
AreBytes [] = Unit {0}
AreBytes (b ∷ bs) = (b < 256) × AreBytes bs

bit-shift_bit : (j x : ℕ) → bit (shift_bit x) j ≡ (bit x (suc j) + (x % 2) * bit polynomial j) % 2
unfolding shift_bit
bit-shift_bit j x = elim (ℕ_discrete (x % 2) 1) [
  | yes one ↦ rw (one, bit-bit_xor j (x / 2) polynomial) (omega arith)
  | no other ↦ let even : x % 2 ≡ 0 = omega arith in rw even (omega (arith, bit-le-one j (x / 2)))
]

shift_bit-bit_xor : (x y : ℕ) → shift_bit (bit_xor x y) ≡ bit_xor (shift_bit x) (shift_bit y)
shift_bit-bit_xor x y = bit_ext _ _ λ j.
    rw
      (
        bit-bit_xor j (shift_bit x) (shift_bit y),
        bit-shift_bit j x,
        bit-shift_bit j y,
        bit-shift_bit j (bit_xor x y),
        bit-bit_xor (suc j) x y,
      )
      (parity j (bit polynomial j) (bit-le-one j polynomial))
  where
    parity :
        (j p : ℕ)
        → p ≤ 1
        → ((bit x (suc j) + bit y (suc j)) % 2 + bit_xor x y % 2 * p) % 2
          ≡ ((bit x (suc j) + x % 2 * p) % 2 + (bit y (suc j) + y % 2 * p) % 2) % 2
    parity j zero le = omega arith
    parity j (suc zero) le = omega (arith, bit_xor_step x y)
    parity j (suc (suc p)) le = absurd (omega arith)

shift_bits-bit_xor :
    (n x y : ℕ) → shift_bits n (bit_xor x y) ≡ bit_xor (shift_bits n x) (shift_bits n y)
unfolding shift_bits
shift_bits-bit_xor zero x y = refl
shift_bits-bit_xor (suc n) x y =
    ap (shift_bits n) (shift_bit-bit_xor x y) ∙ shift_bits-bit_xor n (shift_bit x) (shift_bit y)

shift_bit_even : (x : ℕ) → x % 2 ≡ 0 → shift_bit x ≡ x / 2
unfolding shift_bit
shift_bit_even x e = rw e

-- The bits above a byte pass through unchanged.
shift_bits_high : (a : ℕ) → shift_bits 8 (a * 256) ≡ a
shift_bits_high a =
    unfold shift_bits in
    rw
      (
        shift_bit_even (a * 256) (omega arith),
        shift_bit_even (a * 256 / 2) (omega arith),
        shift_bit_even (a * 256 / 2 / 2) (omega arith),
        shift_bit_even (a * 256 / 2 / 2 / 2) (omega arith),
        shift_bit_even (a * 256 / 2 / 2 / 2 / 2) (omega arith),
        shift_bit_even (a * 256 / 2 / 2 / 2 / 2 / 2) (omega arith),
        shift_bit_even (a * 256 / 2 / 2 / 2 / 2 / 2 / 2) (omega arith),
        shift_bit_even (a * 256 / 2 / 2 / 2 / 2 / 2 / 2 / 2) (omega arith),
      )
      (omega arith)

table_test : ℕ → Bool
table_test i = get_or crc32c_table i 0 == shift_bits 8 i

table_right : table_holds table_test 0 256 ≡ true
unfolding table_holds table_test crc32c_table shift_bits
table_right = refl

-- Entry `i` of the table is the register after the eight bits of `i`.
table_entry : (i : ℕ) → i < 256 → get_or crc32c_table i 0 ≡ shift_bits 8 i
unfolding table_test
table_entry i h = (==_iff _ _).0 (table_holds_entry table_test 0 256 i table_right (omega arith) h)

low_byte : (x : ℕ) → bit_and x 0xFF ≡ x % 256
low_byte x = bit_and-low 8 x

crc_step-shift_bits :
    (crc byte : ℕ) → byte < 256 → crc_step crc byte ≡ shift_bits 8 (bit_xor crc byte)
crc_step-shift_bits crc byte h =
    let x = bit_xor crc byte in
    let split : x ≡ bit_xor (x / 256 * 256) (x % 256) =
      omega (arith, bit_xor-join 8 (x / 256) (x % 256) (omega arith)) in
    let whole : shift_bits 8 x ≡ bit_xor (shift_bits 8 (x / 256 * 256)) (shift_bits 8 (x % 256)) =
      ap (shift_bits 8) split ∙ shift_bits-bit_xor 8 (x / 256 * 256) (x % 256) in
    unfold crc_step in
    rw (
      whole,
      shift_bits_high (x / 256),
      low_byte x,
      table_entry (x % 256) (omega arith),
      bit_xor-byte crc byte h,
    )

crc_loop-crc32c_register :
    (r : ℕ) (bytes : List ℕ) → AreBytes bytes → crc_loop r bytes ≡ crc32c_register r bytes
unfolding crc_loop crc32c_register
crc_loop-crc32c_register r [] b = refl
crc_loop-crc32c_register r (byte ∷ bytes) (h, b) =
    ap (λ s. crc_loop s bytes) (crc_step-shift_bits r byte h)
    ∙ crc_loop-crc32c_register (shift_bits 8 (bit_xor r byte)) bytes b

-- On bytes the table-driven checksum is the bitwise CRC32C.
pub checksum_compute-crc32c :
    (bytes : List ℕ) → AreBytes bytes → checksum_compute bytes ≡ crc32c bytes
unfolding checksum_compute crc32c
checksum_compute-crc32c bytes b =
    ap (λ r. 2 ^ 32 - 1 - r) (crc_loop-crc32c_register 0xFFFFFFFF bytes b)

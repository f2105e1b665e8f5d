-- ===== src/Bitmap.antt =====
-- A bitmap over an array of bytes, as mm/pmm.c and mm/vmm.c keep it: bit `i` is bit `i & 7` of byte
-- `i >> 3`. Each of the two files has its own copies of the three operations; they are stated here
-- once, and the two modules name them as their source does.
pub mod Bits
pub mod Laws
pub mod Count
pub mod Align
pub mod Xor
use amit_x.Prelude.{ℕ, ◌+◌, ◌-◌, ◌/◌, ◌%◌, ◌^◌, bit_and, bit_or, Bool, not, List, get_or, set, ◌==◌}
use amit_x.Prelude.Word.{u8}

-- `b |= (UCHAR)(1u << k)`
unfoldable pub set_bit : ℕ → ℕ → ℕ
set_bit b k = u8 (bit_or b (u8 (2 ^ k)))

-- `b &= (UCHAR)~(1u << k)`
unfoldable pub clear_bit : ℕ → ℕ → ℕ
clear_bit b k = u8 (bit_and b (u8 (2 ^ 32 - 1 - 2 ^ k)))

-- `b & (1u << k)`, as a condition
unfoldable pub test_bit : ℕ → ℕ → Bool
test_bit b k = not (bit_and b (2 ^ k) == 0)

abbrev pub byte_at : List ℕ → ℕ → ℕ
byte_at bm i = get_or bm i 0

unfoldable pub set_in : List ℕ → ℕ → List ℕ
set_in bm i = set bm (i / 8) (set_bit (byte_at bm (i / 8)) (i % 8))

unfoldable pub clear_in : List ℕ → ℕ → List ℕ
clear_in bm i = set bm (i / 8) (clear_bit (byte_at bm (i / 8)) (i % 8))

unfoldable pub test_in : List ℕ → ℕ → Bool
test_in bm i = test_bit (byte_at bm (i / 8)) (i % 8)

-- ===== src/Prelude/Word.antt =====
-- The unsigned types of internal/phonon_types.h: a value is a number, a cast is a remainder.
use Prim.Native.Nat.{ℕ, ◌+◌, ◌-◌, ◌%◌, ◌^◌}

-- UCHAR, ULONG, and the 64-bit types (ULONGLONG, SIZE_T, PFN_T, PHYS_ADDR_T).
abbrev pub u8 : ℕ → ℕ
u8 n = n % 2 ^ 8

abbrev pub u32 : ℕ → ℕ
u32 n = n % 2 ^ 32

abbrev pub u64 : ℕ → ℕ
u64 n = n % 2 ^ 64

-- Subtraction of 64-bit values wraps.
abbrev pub sub64 : ℕ → ℕ → ℕ
sub64 a b = u64 (a + 2 ^ 64 - b)

-- ===== src/Checksum/Tests.antt =====
-- The test vectors of fs/smkfs/checksum.c, a header in a small block, and the theorems at them.
use amit_x.Prelude.{
  ℕ, ◌^◌, ◌%◌, ◌≡◌, ◌≤◌, ◌<◌, refl, arith, true, List, [], ◌∷◌, length, get_or, replicate, ◌==◌,
  ◌⊎◌,
}
use amit_x.Checksum.{
  crc32c_table, crc_step, checksum_compute, get32, header_init, header_validate,
  header_checksum_update, header_checksum_verify,
}
use amit_x.Checksum.Crc.{crc32c, checksum_compute-crc32c}
use amit_x.Checksum.Header.{header_init_lem, header_checksum_verify-update}

-- "abc" and "123456789"
abbrev abc : List ℕ
abc = 0x61 ∷ 0x62 ∷ 0x63 ∷ []

abbrev digits : List ℕ
digits = 0x31 ∷ 0x32 ∷ 0x33 ∷ 0x34 ∷ 0x35 ∷ 0x36 ∷ 0x37 ∷ 0x38 ∷ 0x39 ∷ []

vector_abc : checksum_compute abc ≡ 0x364B3FB7
unfolding checksum_compute crc32c_table crc_step
vector_abc = refl

vector_digits : checksum_compute digits ≡ 0xE3069283
unfolding checksum_compute crc32c_table crc_step
vector_digits = refl

checksum_compute-crc32c_example : checksum_compute abc ≡ crc32c abc
checksum_compute-crc32c_example =
    checksum_compute-crc32c abc (omega arith, (omega arith, (omega arith, tt)))

abbrev block : List ℕ
block = replicate 32 7

header_init_lem_example :
    let h = header_init block 3 64 1 in
    (header_validate h 3 ≡ (3 == 3))
    × (get32 h 8 ≡ 64 % 2 ^ 32)
    × (get32 h 12 ≡ 1 % 2 ^ 32)
    × (get32 h 16 ≡ 0)
header_init_lem_example = header_init_lem block 3 3 64 1 (omega arith) (omega arith)

header_checksum_verify-update_example :
    let c = header_checksum_update block in
    (header_checksum_verify c ≡ true)
    × (length c ≡ length block)
    × ((i : ℕ) → (i < 16) ⊎ (20 ≤ i) → get_or c i 0 ≡ get_or block i 0)
header_checksum_verify-update_example =
    header_checksum_verify-update block (omega arith) (omega arith)

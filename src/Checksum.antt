-- ===== src/Checksum.antt =====
-- fs/smkfs/checksum.c: CRC32C by table, and the header that every structure of SmKFS starts with.
-- A block is the list of its bytes, with the header in its first 32; the callers pass the header's
-- own block as the data that is summed.
mod Table
pub mod Crc
pub mod Fields
pub mod Header
mod Tests
unfoldable pub use Table.*
use amit_x.Prelude.{
  ℕ, zero, suc, ◌+◌, ◌-◌, ◌*◌, ◌/◌, ◌%◌, ◌^◌, bit_and, bit_xor, Bool, true, false, List, [], ◌∷◌,
  length, get_or, set, ltb, ◌==◌, if◌then◌else◌,
}

-- One round of the loop of `checksum_compute`.
unfoldable pub crc_step : ℕ → ℕ → ℕ
unfolding crc32c_table
crc_step crc byte = bit_xor (crc / 2 ^ 8) (get_or crc32c_table (bit_and (bit_xor crc byte) 0xFF) 0)

unfoldable pub crc_loop : ℕ → List ℕ → ℕ
crc_loop crc [] = crc
crc_loop crc (byte ∷ bytes) = crc_loop (crc_step crc byte) bytes

unfoldable pub checksum_compute : List ℕ → ℕ
unfolding crc_loop
checksum_compute bytes = 2 ^ 32 - 1 - crc_loop 0xFFFFFFFF bytes

-- Little-endian fields of a packed struct.
unfoldable pub get16 : List ℕ → ℕ → ℕ
get16 b at = get_or b at 0 + get_or b (at + 1) 0 * 2 ^ 8

unfoldable pub put16 : List ℕ → ℕ → ℕ → List ℕ
put16 b at v = set (set b at (v % 2 ^ 8)) (at + 1) (v / 2 ^ 8 % 2 ^ 8)

unfoldable pub get32 : List ℕ → ℕ → ℕ
get32 b at =
    get_or b at 0
    + get_or b (at + 1) 0 * 2 ^ 8
    + get_or b (at + 2) 0 * 2 ^ 16
    + get_or b (at + 3) 0 * 2 ^ 24

unfoldable pub put32 : List ℕ → ℕ → ℕ → List ℕ
put32 b at v =
    set
      (set (set (set b at (v % 2 ^ 8)) (at + 1) (v / 2 ^ 8 % 2 ^ 8)) (at + 2) (v / 2 ^ 16 % 2 ^ 8))
      (at + 3) (v / 2 ^ 24 % 2 ^ 8)

-- `memcpy(h->magic, SMKFS_MAGIC, 4)`, with "SmKF" in ASCII.
unfoldable pub put_magic : List ℕ → List ℕ
put_magic b = set (set (set (set b 0 0x53) 1 0x6D) 2 0x4B) 3 0x46

unfoldable pub has_magic : List ℕ → Bool
has_magic b =
    if get_or b 0 0 == 0x53
    then if get_or b 1 0 == 0x6D
      then if get_or b 2 0 == 0x4B then get_or b 3 0 == 0x46 else false
      else false
    else false

-- SMKFS_VERSION and SMKFS_BLOCK_SIZE
abbrev pub smkfs_version : ℕ
smkfs_version = 2

abbrev pub smkfs_block_size : ℕ
smkfs_block_size = 4096

unfoldable pub header_init : List ℕ → (type length flags : ℕ) → List ℕ
unfolding put_magic put16 put32
header_init b type length flags =
    put32 (put32 (put32 (put16 (put16 (put_magic b) 4 smkfs_version) 6 type) 8 length) 12 flags) 16
      0

-- `true` for SMKFS_OK, `false` for SMKFS_ERR_CORRUPT. The types are small positive numbers, on
-- which the comparison of signed fields is that of the words.
unfoldable pub header_validate : List ℕ → ℕ → Bool
unfolding has_magic get16
header_validate b expected_type =
    if has_magic b
    then if get16 b 4 == smkfs_version then get16 b 6 == expected_type else false
    else false

unfoldable pub header_checksum_update : List ℕ → List ℕ
unfolding checksum_compute put32
header_checksum_update b = let cleared = put32 b 16 0 in put32 cleared 16 (checksum_compute cleared)

unfoldable pub header_checksum_verify : List ℕ → Bool
unfolding checksum_compute put32 get32
header_checksum_verify b =
    if ltb smkfs_block_size (length b) then false else checksum_compute (put32 b 16 0) == get32 b 16

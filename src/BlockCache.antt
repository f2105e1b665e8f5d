-- ===== src/BlockCache.antt =====
-- fs/smkfs/bcache.c and `read_block` and `write_block` of fs/smkfs/block.c: the cache of blocks
-- between SmKFS and the disk. The block I/O below it, `disk_read_block` and `disk_write_block`, is
-- an interface, `Disk`, on a state `D`. A pointer to a slot is its index in the cache, and the only
-- failure left is SMKFS_ERR_IO.
pub mod Inv
pub mod Load
pub mod Refine
pub mod Sectors
pub mod Platter
mod Tests
use amit_x.Prelude.{
  ℕ, zero, suc, ◌+◌, Bool, true, false, not, ◌&&◌, List, [], ◌∷◌, map, Option, none, some, length,
  get_or, set, ◌==◌, if◌then◌else◌,
}

-- `_SMKFS_BLOCK_BUF`
pub record Slot : Type 0 where
  pub block : ℕ
  pub bytes : List ℕ
  pub dirty : Bool
  pub valid : Bool

-- `disk_read_block` with the buffer that it fills, and `disk_write_block`; `true` for SMKFS_OK.
pub record Disk (D : Type 0) : Type 0 where
  pub read : ℕ → List ℕ → D → Bool × List ℕ × D
  pub write : ℕ → List ℕ → D → Bool × D

-- The part of the mount that the cache uses.
pub record Mount (D : Type 0) : Type 0 where
  pub slots : List Slot
  pub disk : D

abbrev pub slot_at : List Slot → ℕ → Slot
slot_at slots i = get_or slots i (record { block = 0; bytes = []; dirty = false; valid = false })

-- The loops over the slots that stop at the first one that fits.
unfoldable pub find_slot : (Slot → Bool) → List Slot → Option ℕ
find_slot p [] = none
find_slot p (s ∷ slots) =
    let rest = find_slot p slots in
    if p s then some 0 else elim rest [ none ↦ none | some i ↦ some (suc i) ]

abbrev pub holds : ℕ → Slot → Bool
holds block s = s.valid && s.block == block

abbrev pub clear_slot : Slot → Slot
clear_slot s = record s { valid = false; dirty = false; block = 0 }

module _ {D : Type 0} (disk : Disk D) where
  -- The read from the disk into slot `i`, at the end of `block_cache_read`.
  unfoldable pub load : Mount D → ℕ → ℕ → Mount D × Option ℕ
  load m block i =
      let s = slot_at m.slots i in
      let (ok, bytes, d) = disk.read block s.bytes m.disk in
      if ok
      then (
        record {
          slots =
              set m.slots i (record { block = block; bytes = bytes; dirty = false; valid = true });
          disk = d;
        },
        some i,
      )
      else (
        record { slots = set m.slots i (record s { valid = false; bytes = bytes }); disk = d },
        none,
      )

  -- Slot 0, written back first if it is dirty.
  unfoldable pub evict : Mount D → ℕ → Mount D × Option ℕ
  unfolding load
  evict m block =
      let s = slot_at m.slots 0 in
      let (ok, d) = disk.write s.block s.bytes m.disk in
      if s.valid && s.dirty
      then if ok
        then load (record { slots = set m.slots 0 (record s { dirty = false }); disk = d }) block 0
        else (record m { disk = d }, none)
      else load m block 0

  unfoldable pub block_cache_read : Mount D → ℕ → Mount D × Option ℕ
  unfolding find_slot load evict
  block_cache_read m block = elim (find_slot (holds block) m.slots) [
    | some i ↦ (m, some i)
    | none ↦ elim (find_slot (λ s. not s.valid) m.slots) [
      | some i ↦ load m block i
      | none ↦ elim (find_slot (λ s. not s.dirty) m.slots) [
        | some i ↦ load m block i
        | none ↦ evict m block
      ]
    ]
  ]

  -- One round of `block_cache_flush`, with the status so far.
  unfoldable pub flush_slot : ℕ → Mount D × Bool → Mount D × Bool
  flush_slot i (m, status) =
      let s = slot_at m.slots i in
      let (ok, d) = disk.write s.block s.bytes m.disk in
      if s.valid && s.dirty
      then if ok
        then (record { slots = set m.slots i (record s { dirty = false }); disk = d }, status)
        else (record m { disk = d }, false)
      else (m, status)

  unfoldable pub flush_from : ℕ → ℕ → Mount D × Bool → Mount D × Bool
  unfolding flush_slot
  flush_from zero i r = r
  flush_from (suc n) i r = flush_from n (i + 1) (flush_slot i r)

  unfoldable pub block_cache_flush : Mount D → Mount D × Bool
  unfolding flush_from
  block_cache_flush m = flush_from (length m.slots) 0 (m, true)

  unfoldable pub read_block : Mount D → ℕ → Mount D × Option (List ℕ)
  unfolding block_cache_read
  read_block m block =
      let (m', o) = block_cache_read m block in
      elim o [ none ↦ (m', none) | some i ↦ (m', some ((slot_at m'.slots i).bytes)) ]

module _ {D : Type 0} where
  unfoldable pub block_cache_init : Mount D → Mount D
  block_cache_init m = record m { slots = map clear_slot m.slots }

  -- `false` for SMKFS_ERR_INVAL.
  unfoldable pub block_cache_write : Mount D → ℕ → Mount D × Bool
  block_cache_write m i =
      let s = slot_at m.slots i in
      if s.valid
      then (record m { slots = set m.slots i (record s { dirty = true }) }, true)
      else (m, false)

  -- The `memcpy` into the slot and the call that marks it.
  unfoldable pub overwrite : List ℕ → Mount D × Option ℕ → Mount D × Bool
  unfolding block_cache_write
  overwrite bytes (m, none) = (m, false)
  overwrite bytes (m, some i) =
      block_cache_write
        (record m { slots = set m.slots i (record (slot_at m.slots i) { bytes = bytes }) }) i

module _ {D : Type 0} (disk : Disk D) where
  unfoldable pub write_block : Mount D → ℕ → List ℕ → Mount D × Bool
  unfolding block_cache_read overwrite
  write_block m block bytes = overwrite bytes (block_cache_read disk m block)

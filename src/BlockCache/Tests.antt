-- ===== src/BlockCache/Tests.antt =====
-- A cache of two slots over a drive that never fails, and the theorems at it.
use amit_x.Prelude.{
  ℕ, zero, suc, ◌%◌, ◌^◌, ◌<◌, ◌≢◌, replicate, length, ◌≡◌, refl, ap, sym, arith, true, false, List,
  [], ◌∷◌, ◌==◌, if◌then◌else◌,
}
use amit_x.BlockCache.{Slot, Mount, slot_at, read_block, write_block, block_cache_flush}
use amit_x.BlockCache.Inv.{Shows}
use amit_x.BlockCache.Refine.{
  update, ReadSays, WriteSays, read_block-ReadSays, write_block-WriteSays, block_cache_flush_lem,
}
use amit_x.Checksum.{smkfs_block_size}
use amit_x.BlockCache.Sectors.{
  disk_read_block, disk_write_block, block_of, sector_laws, disk_read_block-write_block,
}
use amit_x.BlockCache.Platter.{Platter, drive, drive_laws, disk, laws}

abbrev zeros : List ℕ
zeros = replicate 4096 0

abbrev eights : List ℕ
eights = replicate 4096 8

abbrev blank_disk : Platter
blank_disk a k = 0

abbrev on_disk : ℕ → List ℕ
on_disk = block_of drive_laws blank_disk

abbrev unused : Slot
unused = record { block = 0; bytes = zeros; dirty = false; valid = false }

-- Block 5 is cached and dirty.
abbrev dirty_mount : Mount Platter
dirty_mount = record {
  slots = record { block = 5; bytes = eights; dirty = true; valid = true } ∷ unused ∷ [];
  disk = blank_disk;
}

abbrev shown : ℕ → List ℕ
shown = update on_disk 5 eights

dirty-Shows : Shows laws dirty_mount shown
unfolding sector_laws
dirty-Shows = record {
  some_slot = omega arith;
  size = size;
  below = below;
  cached = cached;
  clean = clean;
  once = once;
  rest = λ b free.
      let ne : ◌≢◌ {A = ℕ} 5 b = free 0 (omega arith) refl in
      let z : (b == 5) ≡ false = ground arith in ap (λ c. if c then eights else on_disk b) (sym z);
}
  where
    size : (i : ℕ) → i < 2 → length (slot_at dirty_mount.slots i).bytes ≡ smkfs_block_size
    size zero h = refl
    size (suc zero) h = refl
    size (suc (suc i)) h = absurd (omega arith)

    below :
        (i : ℕ)
        → i < 2
        → (slot_at dirty_mount.slots i).valid ≡ true
        → (slot_at dirty_mount.slots i).block < 2 ^ 29
    below zero h v = omega arith
    below (suc i) h v = absurd (off i v)
      where
        off : (i : ℕ) → (slot_at dirty_mount.slots (suc i)).valid ≡ true → ⊥
        off zero v = let q : false ≡ true = v in cc
        off (suc i) v = let q : false ≡ true = v in cc

    cached :
        (i : ℕ)
        → i < 2
        → (slot_at dirty_mount.slots i).valid ≡ true
        → (slot_at dirty_mount.slots i).bytes ≡ shown (slot_at dirty_mount.slots i).block
    cached zero h v = refl
    cached (suc zero) h v = absurd (let q : false ≡ true = v in cc)
    cached (suc (suc i)) h v = absurd (omega arith)

    clean :
        (i : ℕ)
        → i < 2
        → (slot_at dirty_mount.slots i).valid ≡ true
        → (slot_at dirty_mount.slots i).dirty ≡ false
        → on_disk (slot_at dirty_mount.slots i).block ≡ shown (slot_at dirty_mount.slots i).block
    clean zero h v c = absurd (let q : true ≡ false = c in cc)
    clean (suc zero) h v c = absurd (let q : false ≡ true = v in cc)
    clean (suc (suc i)) h v c = absurd (omega arith)

    once :
        (i j : ℕ)
        → i < 2
        → j < 2
        → (slot_at dirty_mount.slots i).valid ≡ true
        → (slot_at dirty_mount.slots j).valid ≡ true
        → (slot_at dirty_mount.slots i).block ≡ (slot_at dirty_mount.slots j).block
        → i ≡ j
    once zero zero li lj v w e = refl
    once zero (suc zero) li lj v w e = absurd (let q : false ≡ true = w in cc)
    once zero (suc (suc j)) li lj v w e = absurd (omega arith)
    once (suc zero) j li lj v w e = absurd (let q : false ≡ true = v in cc)
    once (suc (suc i)) j li lj v w e = absurd (omega arith)

below_limit : (b : ℕ) → b < 2 ^ 29 → b < laws.limit
unfolding sector_laws
below_limit b h = h

read_block-ReadSays_example : ReadSays laws shown 7 (read_block disk dirty_mount 7)
read_block-ReadSays_example =
    read_block-ReadSays laws dirty_mount shown 7 (below_limit 7 (omega arith)) dirty-Shows

write_block-WriteSays_example : WriteSays laws shown 7 zeros (write_block disk dirty_mount 7 zeros)
write_block-WriteSays_example =
    write_block-WriteSays laws dirty_mount shown 7 zeros (below_limit 7 (omega arith)) refl
      dirty-Shows

block_cache_flush_lem_example :
    let (m', ok) = block_cache_flush disk dirty_mount in
    Shows laws m' shown × (ok ≡ true → (b : ℕ) → laws.contents m'.disk b ≡ shown b)
block_cache_flush_lem_example = block_cache_flush_lem laws dirty_mount shown dirty-Shows

disk_read_block-write_block_example :
    (let r = disk_read_block drive 512 5 eights blank_disk in
      ((k : ℕ) → drive_laws.sector r.2 k ≡ drive_laws.sector blank_disk k)
      × (length r.1 ≡ smkfs_block_size)
      × (r.0 ≡ true → r.1 ≡ block_of drive_laws blank_disk 5))
    × (let r = disk_write_block drive 512 5 eights blank_disk in
        (r.0 ≡ true → block_of drive_laws r.1 5 ≡ eights)
        × (◌≢◌ {A = ℕ} 6 5 → block_of drive_laws r.1 6 ≡ block_of drive_laws blank_disk 6))
    × (smkfs_block_size % 3 ≢ 0
        → (disk_read_block drive 3 5 eights blank_disk ≡ (false, eights, blank_disk))
          × (disk_write_block drive 3 5 eights blank_disk ≡ (false, blank_disk)))
disk_read_block-write_block_example =
    disk_read_block-write_block drive_laws 5 6 3 eights blank_disk (omega arith) refl (omega arith)

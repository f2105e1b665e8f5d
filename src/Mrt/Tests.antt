-- ===== src/Mrt/Tests.antt =====
-- A table of two blocks on a drive in memory, behind the block cache, in which the record 1 is
-- allocated, and the theorems at it.
use amit_x.Prelude.{
  ℕ, zero, suc, ◌+◌, ◌/◌, ◌%◌, ◌<◌, ◌≡◌, ◌≢◌, refl, ap, arith, true, false, List, [], ◌∷◌, length,
  replicate, bit_or, ◌==◌, ◌&&◌, if◌then◌else◌, ◌⊎◌,
}
use amit_x.Checksum.{smkfs_block_size}
use amit_x.BlockCache.{Mount, slot_at, block_cache_init}
use amit_x.BlockCache.Inv.{Shows}
use amit_x.BlockCache.Refine.{block_cache_init-Shows}
use amit_x.BlockCache.Sectors.{sector_laws, run_of}
use amit_x.BlockCache.Platter.{Platter, laws}
use amit_x.Mrt.{
  Calls, Mrt, ok, err_io, err_notfound, entries_per_block, mrt_alloc_entry, mrt_update_entry,
  mrt_free_entry, mrt_resolve,
}
use amit_x.Mrt.Blocks.{Shown, block_calls, block_laws, entries}
use amit_x.Mrt.Bytes.{decode, to_entry, unle, skip, next}
use amit_x.Mrt.Laws.{CallsLaws, entry_of, Sized, FailedRead}
use amit_x.Mrt.Entries.{ChangeOutcome, FreeOutcome, rebound, update_entry-free_entry}
use amit_x.Mrt.Resolve.{mrt_resolve-update_entry}
use amit_x.Mrt.Alloc.{AllocOutcome, mrt_alloc_entry_lem}

-- The flags of the record 1 are at byte 24 of the first sector of block 8.
abbrev platter : Platter
platter a k = if (a == 64) && (k == 24) then 1 else 0

abbrev mount : Mount Platter
mount = record {
  slots = record { block = 0; bytes = replicate 4096 0; dirty = false; valid = false } ∷ [];
  disk = platter;
}

mount-Shows : Shows laws (block_cache_init mount) (laws.contents platter)
mount-Shows = block_cache_init-Shows laws mount (omega arith) size
  where
    size : (i : ℕ) → i < 1 → length (slot_at mount.slots i).bytes ≡ smkfs_block_size
    size zero h = refl
    size (suc i) h = absurd (omega arith)

abbrev shown : Shown laws
shown = record {
  mount = block_cache_init mount;
  blocks = laws.contents platter;
  shows = mount-Shows;
}

-- A log that writes nothing.
abbrev table_calls : Calls (Shown laws)
table_calls = block_calls laws (λ id e s. (true, s))

abbrev table_laws : CallsLaws table_calls 8 2
table_laws = block_laws laws (λ id e s. (true, s)) 8 2 (λ id e s x l l'. refl)

abbrev table : Mrt (Shown laws)
table = record {
  start = 8;
  blocks = 2;
  capacity = 512;
  free_count = 510;
  in_transaction = true;
  env = shown;
}

length-decode : (n : ℕ) (bytes : List ℕ) → length (decode n bytes) ≡ n
unfolding decode
length-decode zero bytes = refl
length-decode (suc n) bytes = ap suc (length-decode n (next bytes))

table-Sized : Sized table_laws table.env
unfolding entries
table-Sized x l l' = length-decode entries_per_block (shown.blocks x)

first_allocated : (entry_of table_laws table.env 1).flags % 2 ≡ 1
unfolding entries decode to_entry unle skip next sector_laws run_of
first_allocated = refl

mrt_alloc_entry_lem_example :
    AllocOutcome table table_laws
      (mrt_alloc_entry table_calls table).0
      (mrt_alloc_entry table_calls table).1
mrt_alloc_entry_lem_example = mrt_alloc_entry_lem table table_laws table-Sized

update_entry-free_entry_example :
    (let r = mrt_update_entry table_calls 1 77 0 table in
      ChangeOutcome table table_laws (rebound 77 0) 1 r.0 r.1)
    × (let r = mrt_free_entry table_calls 1 table in FreeOutcome table table_laws 1 r.0 r.1)
update_entry-free_entry_example =
    update_entry-free_entry table table_laws (omega arith) table-Sized 1 77 0 (omega arith)
      (omega arith)

mrt_resolve-update_entry_example :
    ((entry_of table_laws table.env 1).flags % 2 ≡ 1
      → ◌≢◌ {A = ℕ} 77 0
      → ◌≢◌ {A = ℕ} 77 0xFFFFFFFFFFFFFFFF
      → (mrt_update_entry table_calls 1 77 0 table).0 ≡ ok
      → let r = mrt_resolve table_calls 1 (mrt_update_entry table_calls 1 77 0 table).1 in
        let e = entry_of table_laws table.env 1 in
        ((r.0 ≡ err_io) × FailedRead table_laws (8 + 1 / entries_per_block))
        ⊎ ((r.0 ≡ ok)
            × (r.1 ≡ record {
              physical_block = 77;
              flags = bit_or e.flags 0;
              generation = e.generation;
            })))
    × ((mrt_free_entry table_calls 1 table).0 ≡ ok
        → let r = mrt_resolve table_calls 1 (mrt_free_entry table_calls 1 table).1 in
          ((r.0 ≡ err_io) × FailedRead table_laws (8 + 1 / entries_per_block))
          ⊎ (r.0 ≡ err_notfound))
mrt_resolve-update_entry_example =
    mrt_resolve-update_entry table table_laws (omega arith) table-Sized 1 77 0 (omega arith)
      (omega arith)

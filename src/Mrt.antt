-- ===== src/Mrt.antt =====
-- fs/smkfs/mrt.c: the table that gives a record of SmKFS its block. A block of the table is the list
-- of entries that the cast of its bytes reads. `read_block` and `write_block` of fs/smkfs/block.c
-- and `journal_log_mrt_update` of fs/smkfs/journal.c are an interface, `Calls`, on a state `S`;
-- Mrt.Blocks has an instance over the block cache. The
-- assertions are left out: they concern constants, and a length of 0 at the start.
pub mod Flags
pub mod Laws
pub mod Bytes
pub mod Blocks
pub mod Write
pub mod Entries
pub mod Resolve
pub mod Alloc
pub mod Format
mod Tests
use amit_x.Prelude.{
  ℕ, zero, suc, ◌+◌, ◌-◌, ◌*◌, ◌/◌, ◌%◌, ◌^◌, bit_and, bit_or, Bool, true, false, not, ◌&&◌, ◌||◌,
  List, [], ◌∷◌, Option, none, some, get_or, set, replicate, leb, ◌==◌, if◌then◌else◌,
}

-- `_SMKFS_MRT_ENTRY`
pub record Entry : Type 0 where
  pub physical_block : ℕ
  pub flags : ℕ
  pub reserved : ℕ
  pub generation : ℕ

pub data Status : Type 0 where
  ok : Status
  err_io : Status
  err_inval : Status
  err_nospc : Status
  err_journal : Status
  err_notfound : Status
  err_not_yet_bound : Status

-- A read gives the entries of a block; `true` stands for SMKFS_OK.
pub record Calls (S : Type 0) : Type 0 where
  pub read_block : ℕ → S → Bool × List Entry × S
  pub write_block : ℕ → List Entry → S → Bool × S
  pub log_update : ℕ → Entry → S → Bool × S

-- The part of the mount that the table uses: `sb.mrt_start`, `sb.mrt_length`, `sb.mrt_capacity`,
-- `sb.mrt_free_count` and `journal_in_transaction`.
pub record Mrt (S : Type 0) : Type 0 where
  pub start : ℕ
  pub blocks : ℕ
  pub capacity : ℕ
  pub free_count : ℕ
  pub in_transaction : Bool
  pub env : S

-- UINT64_MAX
abbrev pub unbound : ℕ
unbound = 2 ^ 64 - 1

-- SMKFS_BLOCK_SIZE / sizeof(_SMKFS_MRT_ENTRY)
abbrev pub entries_per_block : ℕ
entries_per_block = 4096 / 16

-- The test of SMKFS_MRTF_ALLOCATED.
unfoldable pub is_allocated : Entry → Bool
is_allocated e = not (bit_and e.flags 1 == 0)

abbrev pub blank : Entry
blank = record { physical_block = unbound; flags = 0; reserved = 0; generation = 0 }

abbrev pub entry_at : List Entry → ℕ → Entry
entry_at es j = get_or es j blank

-- `mrt_alloc_entry` on the entry that it takes.
abbrev pub taken : Entry → Entry
taken e = record e {
  physical_block = unbound;
  flags = bit_or e.flags 1;
  generation = (e.generation + 1) % 2 ^ 32;
}

-- `mrt_update_entry` and `mrt_free_entry` on theirs.
abbrev pub bound : ℕ → ℕ → Entry → Entry
bound new_block flags e = record e { physical_block = new_block; flags = bit_or e.flags flags }

abbrev pub released : Entry → Entry
released e = record e { physical_block = unbound; flags = 0 }

-- The loop over the entries of block `i` from index `j` on.
unfoldable pub free_slot : ℕ → ℕ → List Entry → Option ℕ
unfolding is_allocated
free_slot i j [] = none
free_slot i j (e ∷ es) =
    let rest = free_slot i (j + 1) es in
    if i * entries_per_block + j == 0 then rest else if is_allocated e then rest else some j

-- What `mrt_alloc_entry` gives back.
pub data Allocated : Type 0 where
  entry : ℕ → ℕ → Allocated
  fails : Status → Allocated

pub record Resolved : Type 0 where
  pub physical_block : ℕ
  pub flags : ℕ
  pub generation : ℕ

module _ {S : Type 0} (calls : Calls S) where
  -- The loop of `mrt_format`, over `n` blocks from index `i` on.
  unfoldable pub format_from : ℕ → ℕ → ℕ → Mrt S → Status × Mrt S
  format_from zero start i m = (ok, m)
  format_from (suc n) start i m =
      let (done, s) = calls.write_block (start + i) (replicate entries_per_block blank) m.env in
      let rest = format_from n start (i + 1) (record m { env = s }) in
      if done then rest else (err_io, record m { env = s })

  unfoldable pub mrt_format : ℕ → ℕ → Mrt S → Status × Mrt S
  unfolding format_from
  mrt_format start length m = format_from length start 0 m

  -- The end of the calls that change an entry: index `j` of a block that was read becomes `e` and the
  -- block is written; in a transaction that is logged, and written back if it cannot be.
  unfoldable pub write_entry : ℕ → ℕ → ℕ → List Entry → Entry → Mrt S → Status × Mrt S
  write_entry block j id es e m =
      let (done, s) = calls.write_block block (set es j e) m.env in
      let (logged, s') = calls.log_update id e s in
      let (back, s'') = calls.write_block block (set (set es j e) j (entry_at es j)) s' in
      if not done
      then (err_io, record m { env = s })
      else if not m.in_transaction
      then (ok, record m { env = s })
      else if logged
      then (ok, record m { env = s' })
      else (err_journal, record m { env = s'' })

  abbrev pub counted : ℕ → ℕ → Status × Mrt S → Allocated × Mrt S
  counted id generation (ok, m) =
      (entry id generation, record m { free_count = (m.free_count + 2 ^ 64 - 1) % 2 ^ 64 })
  counted id generation (st, m) = (fails st, m)

  -- The loop of `mrt_alloc_entry`, over `n` blocks from index `i` on.
  unfoldable pub alloc_from : ℕ → ℕ → Mrt S → Allocated × Mrt S
  unfolding free_slot write_entry
  alloc_from zero i m = (fails err_nospc, m)
  alloc_from (suc n) i m =
      let (done, es, s) = calls.read_block (m.start + i) m.env in
      let m' : Mrt S = record m { env = s } in
      let rest = alloc_from n (i + 1) m' in
      if not done then (fails err_io, m') else elim (free_slot i 0 es) [
        | none ↦ rest
        | some j ↦
            let e = taken (entry_at es j) in
            counted (i * entries_per_block + j) e.generation
              (write_entry (m.start + i) j (i * entries_per_block + j) es e m')
      ]

  unfoldable pub mrt_alloc_entry : Mrt S → Allocated × Mrt S
  unfolding alloc_from
  mrt_alloc_entry m = alloc_from m.blocks 0 m

  -- The entry of a record is read, changed and written.
  unfoldable pub change_entry : (Entry → Entry) → ℕ → Mrt S → Status × Mrt S
  unfolding write_entry
  change_entry f id m =
      let block = m.start + id / entries_per_block in
      let j = id % entries_per_block in
      let (done, es, s) = calls.read_block block m.env in
      if leb m.capacity id
      then (err_inval, m)
      else if not done
      then (err_io, record m { env = s })
      else write_entry block j id es (f (entry_at es j)) (record m { env = s })

  unfoldable pub mrt_update_entry : ℕ → ℕ → ℕ → Mrt S → Status × Mrt S
  unfolding change_entry
  mrt_update_entry id new_block flags m = change_entry (bound new_block flags) id m

  abbrev pub freed : Status × Mrt S → Status × Mrt S
  freed (ok, m) = (ok, record m { free_count = (m.free_count + 1) % 2 ^ 64 })
  freed (st, m) = (st, m)

  unfoldable pub mrt_free_entry : ℕ → Mrt S → Status × Mrt S
  unfolding change_entry
  mrt_free_entry id m = freed (change_entry released id m)

  unfoldable pub mrt_resolve : ℕ → Mrt S → Status × Resolved × Mrt S
  unfolding is_allocated
  mrt_resolve id m =
      let nothing : Resolved = record { physical_block = 0; flags = 0; generation = 0 } in
      let (done, es, s) = calls.read_block (m.start + id / entries_per_block) m.env in
      let e = entry_at es (id % entries_per_block) in
      let m' : Mrt S = record m { env = s } in
      if leb m.capacity id
      then (err_inval, nothing, m)
      else if not done
      then (err_io, nothing, m')
      else if not (is_allocated e)
      then (err_notfound, nothing, m')
      else if (e.physical_block == 0) || (e.physical_block == unbound)
      then (err_not_yet_bound, nothing, m')
      else (
        ok,
        record { physical_block = e.physical_block; flags = e.flags; generation = e.generation },
        m',
      )

abbrev pub mrt_init : {S : Type 0} → ℕ → ℕ → Mrt S → Mrt S
mrt_init start length m = record m {
  start = start;
  blocks = length;
  capacity = length * entries_per_block % 2 ^ 64;
}

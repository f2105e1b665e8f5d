-- ===== src/Heap.antt =====
-- mm/heap.c: the kernel heap, first fit over a list of blocks, on the 64-bit build. The list holds
-- the blocks in the order of their `next` pointers, each with the address of its header. A call
-- runs under `heap_lock`, so one call is one step. The frames behind the arena come from an
-- interface, `Frames`, with the calls that mm/heap.c makes of mm/pmm.c and mm/paging.c.
pub mod Calls
pub mod Inv
pub mod Join
pub mod Free
pub mod Fit
pub mod Sbrk
pub mod Malloc
pub mod Apart
pub mod Calloc
mod Tests
use amit_x.Prelude.{
  ℕ, zero, suc, ◌+◌, ◌-◌, ◌*◌, ◌/◌, ◌%◌, ◌^◌, Bool, true, false, not, ◌&&◌, ◌||◌, List, [], ◌∷◌,
  Option, none, some, ltb, leb, ◌==◌, if◌then◌else◌,
}
use amit_x.Prelude.Word.{u64}
use amit_x.Bitmap.Align.{align_down}

pub record Block : Type 0 where
  pub addr : ℕ
  pub size : ℕ
  pub free : Bool

-- sizeof(Block), HEAP_VIRT_BASE, HEAP_SIZE and PAGE_SIZE
abbrev pub block_size : ℕ
block_size = 32

abbrev pub heap_base : ℕ
heap_base = 0xFFFF910000000000

abbrev pub heap_size : ℕ
heap_size = 32 * 1024 * 1024

abbrev pub page_size : ℕ
page_size = 4096

-- `pmm_alloc_frame`, `map_page` (`true` for the result 0) and `pmm_free_frame`, on a state `E`.
pub record Frames (E : Type 0) : Type 0 where
  pub alloc_frame : E → ℕ × E
  pub map_page : ℕ → ℕ → E → Bool × E
  pub free_frame : ℕ → E → E

-- `mem` is the memory as the owners of blocks write it, by address. The headers are `blocks`: the bytes
-- that a header leaves in the arena, also those in the payload of a free block, are not in `mem`.
pub record Heap (E : Type 0) : Type 0 where
  pub blocks : List Block
  pub heap_break : ℕ
  pub heap_end : ℕ
  pub mem : ℕ → ℕ
  pub env : E

-- ALIGN16
abbrev pub align16 : ℕ → ℕ
align16 x = align_down (u64 (x + 15)) 16

-- A fitting block in use, and what is left of it as a free block if that is worth a header.
unfoldable pub carve : ℕ → Block → List Block → List Block
carve size b bs =
    let leftover = b.size - size in
    if ltb (block_size + 8) leftover
    then record b { size = size; free = false }
      ∷ record { addr = b.addr + block_size + size; size = leftover - block_size; free = true }
      ∷ bs
    else record b { free = false } ∷ bs

unfoldable pub fits : ℕ → Block → Bool
fits size b = b.free && leb size b.size

-- The walk of `malloc`: the list after the first fit is carved, and the pointer to return.
unfoldable pub first_fit : ℕ → List Block → Option (List Block × ℕ)
unfolding carve fits
first_fit size [] = none
first_fit size (b ∷ bs) =
    let rest = first_fit size bs in
    if fits size b
    then some (carve size b bs, b.addr + block_size)
    else elim rest [ none ↦ none | some (bs', p) ↦ some (b ∷ bs', p) ]

-- The address after the last block of a list that starts with `b`, where the walk stops.
unfoldable pub next_addr : Block → List Block → ℕ
next_addr b [] = b.addr + block_size + b.size
next_addr b (c ∷ bs) = next_addr c bs

unfoldable pub append_block : List Block → Block → List Block
append_block [] n = n ∷ []
append_block (b ∷ bs) n = b ∷ append_block bs n

unfoldable pub find_block : ℕ → List Block → Option Block
find_block a [] = none
find_block a (b ∷ bs) = let rest = find_block a bs in if b.addr == a then some b else rest

-- `b` takes in the block after it, if that is free.
unfoldable pub merge_next : Block → List Block → List Block
merge_next b [] = b ∷ []
merge_next b (n ∷ bs) =
    if n.free then record b { size = b.size + (block_size + n.size) } ∷ bs else b ∷ n ∷ bs

unfoldable pub free_block : ℕ → List Block → List Block
unfolding merge_next
free_block a [] = []
free_block a (b ∷ bs) =
    let rest = free_block a bs in
    if b.addr == a then merge_next (record b { free = true }) bs else b ∷ rest

-- The block before the one at `a` takes it in, if that is free.
unfoldable pub merge_prev : ℕ → List Block → List Block
merge_prev a [] = []
merge_prev a (p ∷ []) = p ∷ []
merge_prev a (p ∷ b ∷ bs) =
    let rest = merge_prev a (b ∷ bs) in
    if b.addr == a
    then if p.free then record p { size = p.size + (block_size + b.size) } ∷ bs else p ∷ b ∷ bs
    else p ∷ rest

-- `memset(p, 0, n)` and `memcpy(to, from, n)`.
abbrev pub zero_fill : ℕ → ℕ → (ℕ → ℕ) → ℕ → ℕ
zero_fill p n mem a = if leb p a && ltb a (p + n) then 0 else mem a

abbrev pub copy : ℕ → ℕ → ℕ → (ℕ → ℕ) → ℕ → ℕ
copy to from n mem a = if leb to a && ltb a (to + n) then mem (from + (a - to)) else mem a

module _ {E : Type 0} where
  -- `free` for the header at `a`; `none` where it reads a header that is not there.
  unfoldable pub free_at : Heap E → ℕ → Option (Heap E)
  unfolding find_block free_block merge_prev
  free_at h a =
      if ltb a heap_base || leb h.heap_end a then some h else elim (find_block a h.blocks) [
        | none ↦ none
        | some b ↦
            if b.free
            then some h
            else some (record h { blocks = merge_prev a (free_block a h.blocks) })
      ]

  unfoldable pub free : Heap E → ℕ → Option (Heap E)
  free h ptr =
      if ptr == 0
      then some h
      else if not (ptr % 16 == 0)
      then some h
      else free_at h (u64 (ptr + 2 ^ 64 - block_size))

  -- What `sbrk_locked` does with the answer of `heap_commit_to`.
  unfoldable pub grown : Heap E → ℕ → Heap E × Bool → Heap E × Option ℕ
  grown h new_break (h', true) = (record h' { heap_break = new_break }, some h.heap_break)
  grown h new_break (h', false) = (h', none)

module _ {E : Type 0} (frames : Frames E) where
  -- The loop of `heap_commit_to`, `n` pages before its end.
  unfoldable pub commit_pages : ℕ → Heap E → Heap E × Bool
  commit_pages zero h = (h, true)
  commit_pages (suc n) h =
      let (frame, e) = frames.alloc_frame h.env in
      let (mapped, e') = frames.map_page frame h.heap_end e in
      let next = commit_pages n (record h { heap_end = h.heap_end + page_size; env = e' }) in
      if frame == 0
      then (record h { env = e }, false)
      else if mapped
      then next
      else (record h { env = frames.free_frame frame e' }, false)

  unfoldable pub commit_to : Heap E → ℕ → Heap E × Bool
  unfolding commit_pages
  commit_to h target = commit_pages ((target - h.heap_end + (page_size - 1)) / page_size) h

  -- The increment is a 64-bit word, as the cast to SSIZE_T leaves it; `none` is (PVOID)-1.
  unfoldable pub sbrk : Heap E → ℕ → Heap E × Option ℕ
  unfolding commit_to grown
  sbrk h increment =
      if increment == 0
      then (h, some h.heap_break)
      else let new_break = u64 (h.heap_break + increment) in
        if ltb new_break heap_base
        then (h, none)
        else if ltb (heap_base + heap_size) new_break
        then (h, none)
        else if ltb h.heap_end new_break
        then grown h new_break
            (commit_to h (align_down (u64 (new_break + page_size - 1)) page_size))
        else (record h { heap_break = new_break }, some h.heap_break)

-- ===== src/Heap/Calls.antt =====
-- `malloc`, `calloc` and `realloc` of mm/heap.c. A pointer is its address; NULL is 0.
use amit_x.Prelude.{
  ℕ, ◌+◌, ◌-◌, ◌*◌, ◌/◌, ◌^◌, true, false, ◌&&◌, ◌||◌, List, [], ◌∷◌, Option, none, some, ltb, leb,
  ◌==◌, if◌then◌else◌,
}
use amit_x.Prelude.Word.{u64}
use mathlib.Core.Option
use amit_x.Heap.{
  Block, block_size, heap_base, Frames, Heap, align16, first_fit, next_addr, append_block,
  find_block, merge_next, zero_fill, copy, free, sbrk,
}

abbrev pub used_block : ℕ → ℕ → Block
used_block a size = record { addr = a; size = size; free = false }

-- A block made `size` bytes long: its rest becomes a free block if that is worth a header, and
-- takes in a free block after it.
unfoldable pub shrink : ℕ → Block → List Block → List Block
unfolding merge_next
shrink size b bs =
    let leftover = b.size - size in
    if ltb (block_size + 16) leftover
    then record b { size = size }
      ∷ merge_next
          (record { addr = b.addr + block_size + size; size = leftover - block_size; free = true })
          bs
    else b ∷ bs

unfoldable pub shrink_at : ℕ → ℕ → List Block → List Block
unfolding shrink
shrink_at a size [] = []
shrink_at a size (b ∷ bs) =
    let rest = shrink_at a size bs in if b.addr == a then shrink size b bs else b ∷ rest

-- A block grown over a free block after it, if the two are large enough.
unfoldable pub grow : ℕ → Block → List Block → Option (List Block)
grow size b [] = none
grow size b (n ∷ bs) =
    let combined = b.size + block_size + n.size in
    if n.free && leb size combined then some (record b { size = combined } ∷ bs) else none

unfoldable pub grow_at : ℕ → ℕ → List Block → Option (List Block)
unfolding grow
grow_at a size [] = none
grow_at a size (b ∷ bs) =
    let rest = Option.map (λ bs'. b ∷ bs') (grow_at a size bs) in
    if b.addr == a then grow size b bs else rest

module _ {E : Type 0} where
  -- The first block of all goes to the base of the arena.
  unfoldable pub first_block : ℕ → Heap E × Option ℕ → Heap E × ℕ
  first_block size (h, none) = (h, 0)
  first_block size (h, some old) =
      (record h { blocks = used_block heap_base size ∷ [] }, heap_base + block_size)

  -- A block past the last one, if that is where the new memory lies.
  unfoldable pub last_block : ℕ → ℕ → Heap E × Option ℕ → Heap E × ℕ
  last_block size a (h, none) = (h, 0)
  last_block size a (h, some old) =
      if old == a
      then (record h { blocks = append_block h.blocks (used_block a size) }, a + block_size)
      else (h, 0)

  unfoldable pub zeroed : ℕ → Heap E × ℕ → Heap E × ℕ
  zeroed total (h, p) = if p == 0 then (h, p) else (record h { mem = zero_fill p total h.mem }, p)

  -- The copy into a new block, and the release of the old one.
  unfoldable pub moved : ℕ → ℕ → Heap E × ℕ → Option (Heap E × ℕ)
  moved ptr old_size (h, p) =
      if p == 0
      then some (h, 0)
      else Option.map (λ h'. (h', p)) (free (record h { mem = copy p ptr old_size h.mem }) ptr)

module _ {E : Type 0} (frames : Frames E) where
  -- `malloc` on a size that is rounded up.
  unfoldable pub alloc_rounded : Heap E → ℕ → List Block → Heap E × ℕ
  unfolding first_block last_block sbrk first_fit next_addr append_block
  alloc_rounded h size [] = first_block size (sbrk frames h (u64 (block_size + size)))
  alloc_rounded h size (b ∷ bs) = elim (first_fit size (b ∷ bs)) [
    | some (bs', p) ↦ (record h { blocks = bs' }, p)
    | none ↦ last_block size (next_addr b bs) (sbrk frames h (u64 (block_size + size)))
  ]

  unfoldable pub malloc : Heap E → ℕ → Heap E × ℕ
  unfolding alloc_rounded
  malloc h size = if size == 0 then (h, 0) else alloc_rounded h (align16 size) h.blocks

  unfoldable pub calloc : Heap E → ℕ → ℕ → Heap E × ℕ
  unfolding malloc zeroed
  calloc h num size =
      if num == 0 || size == 0
      then (h, 0)
      else if ltb ((2 ^ 64 - 1) / num) size
      then (h, 0)
      else zeroed (u64 (num * size)) (malloc h (u64 (num * size)))

  -- `realloc` on a size that is rounded up, for the block at `a`.
  unfoldable pub resized : Heap E → ℕ → ℕ → ℕ → Block → Option (Heap E × ℕ)
  unfolding shrink_at grow_at moved malloc
  resized h ptr a size b =
      if leb size b.size
      then some (record h { blocks = shrink_at a size h.blocks }, ptr)
      else elim (grow_at a size h.blocks) [
        | some bs ↦ some (record h { blocks = bs }, ptr)
        | none ↦ moved ptr b.size (malloc h size)
      ]

  -- `none` where it reads a header that is not there.
  unfoldable pub realloc : Heap E → ℕ → ℕ → Option (Heap E × ℕ)
  unfolding malloc resized free find_block
  realloc h ptr new_size =
      if ptr == 0
      then some (malloc h new_size)
      else if new_size == 0
      then Option.map (λ h'. (h', 0)) (free h ptr)
      else let a = u64 (ptr + 2 ^ 64 - block_size) in
        if ltb a heap_base || leb h.heap_end a then some (h, 0) else elim (find_block a h.blocks) [
          | none ↦ none
          | some b ↦ resized h ptr a (align16 new_size) b
        ]

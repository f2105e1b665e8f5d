-- ===== src/Heap/Calloc.antt =====
-- `calloc` of mm/heap.c: the block that it returns is zeroed, and nothing is asked of `malloc` where
-- the product does not fit a word.
use amit_x.Prelude.{ℕ, ◌+◌, ◌≤◌, ◌<◌, ◌≡◌, ◌⊎◌}
use amit_x.Heap.{Block, block_size, Heap, align16}
use amit_x.Heap.Inv.{live, IsValid, Inserted}
use amit_x.Heap.Fit.{NoFit}

-- What `calloc` did, by the pointer that it returns: a zeroed block put into use and the other
-- memory as it was, or no block large enough.
abbrev pub Zeroed : {E : Type 0} → Heap E → ℕ → Heap E × ℕ → Type 0
Zeroed h total (h', p) =
    IsValid h'
    × (((x : Block) × (p ≡ x.addr + block_size)
          × (total ≤ x.size)
          × Inserted x (live h.blocks) (live h'.blocks)
          × ((i : ℕ) → i < total → h'.mem (p + i) ≡ 0)
          × ((a : ℕ) → (a < p) ⊎ (p + total ≤ a) → h'.mem a ≡ h.mem a))
        ⊎ ((p ≡ 0) × (h'.blocks ≡ h.blocks) × (h'.mem ≡ h.mem) × NoFit (align16 total) h.blocks))

-- ===== src/Heap/Tests.antt =====
-- A heap with one page committed, and the theorems at it.
use amit_x.Prelude.{
  ℕ, ◌+◌, ◌-◌, ◌*◌, ◌%◌, ◌≤◌, ◌≡◌, refl, arith, true, false, [], ◌∷◌, some, inl, inr, ltb,
  if◌then◌else◌,
}
use amit_x.Bitmap.Align.{align_down}
use amit_x.Heap.{Block, Frames, Heap, heap_base, block_size, free, sbrk}
use amit_x.Heap.Inv.{IsValid, live}
use amit_x.Heap.Free.{free_lem}
use amit_x.Heap.Sbrk.{Sbrk, sbrk-Sbrk}
use amit_x.Heap.Calls.{malloc}
use amit_x.Heap.Apart.{Apart, malloc-Apart}

-- The frames come in order, up to 100 of them.
abbrev counter : Frames ℕ
counter = record {
  alloc_frame = λ n. if ltb n 100 then (n * 4096, n + 1) else (0, n);
  map_page = λ frame virt n. (true, n);
  free_frame = λ frame n. n;
}

abbrev front : Block
front = record { addr = heap_base; size = 64; free = false }

abbrev middle : Block
middle = record { addr = heap_base + 96; size = 128; free = true }

abbrev back : Block
back = record { addr = heap_base + 256; size = 32; free = false }

abbrev sample : Heap ℕ
sample = record {
  blocks = front ∷ middle ∷ back ∷ [];
  heap_break = heap_base + 320;
  heap_end = heap_base + 4096;
  mem = λ a. 7;
  env = 1;
}

sample-IsValid : IsValid sample
sample-IsValid = record {
  tiles = (refl, refl, (refl, refl, (refl, refl, tt)));
  coalesced = (refl, (refl, (refl, tt)));
  at_break = refl;
  committed = omega arith;
  arena = omega arith;
  pages = refl;
}

malloc_runs : (malloc counter sample 50).1 ≡ heap_base + 128
unfolding malloc align_down
malloc_runs = refl

malloc_runs_large : (malloc counter sample 5000).1 ≡ heap_base + 352
unfolding malloc align_down
malloc_runs_large = refl

free_lem_example :
    (h' : Heap ℕ) × (free sample (heap_base + 256 + block_size) ≡ some h')
    × IsValid h'
    × (live h'.blocks ≡ front ∷ [])
    × (h'.mem ≡ sample.mem)
    × (h'.heap_break ≡ sample.heap_break)
free_lem_example =
    free_lem sample back (front ∷ []) sample-IsValid (inr ([], refl, inl (refl, refl)))

malloc-Apart_example :
    let (h', p) = malloc counter sample 50 in
    (p % 16 ≡ 0)
    × (heap_base + block_size ≤ p)
    × (p + 50 ≤ h'.heap_end)
    × Apart (record { addr = p - block_size; size = 50; free = false }) (live sample.blocks)
malloc-Apart_example =
    malloc-Apart counter sample sample-IsValid 50 (omega arith) (omega arith)
      (λ e. absurd (omega (arith, malloc_runs, e)))

sbrk-Sbrk_example : Sbrk sample 5032 (sbrk counter sample 5032)
sbrk-Sbrk_example =
    sbrk-Sbrk counter sample 5032 (omega arith) (omega arith) (omega arith) refl (omega arith)
      (omega arith)

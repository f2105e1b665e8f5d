-- ===== src/Heap/Apart.antt =====
-- The blocks in use of mm/heap.c do not overlap, and what follows for `malloc`.
use amit_x.Prelude.{
  ℕ, ◌+◌, ◌-◌, ◌%◌, ◌^◌, ◌≤◌, ◌<◌, ◌≡◌, refl, sym, subst, arith, ◌≢◌, false, List, [], ◌∷◌,
  Bool-cases, ◌⊎◌, inl, inr,
}
use amit_x.Heap.{Block, block_size, Frames, Heap, heap_base}
use amit_x.Heap.Inv.{
  Tiles, live, IsValid, Inserted, Owned-of_Inserted, live-cons_free, live-cons_used,
}
use amit_x.Heap.Malloc.{Allocated, malloc_lem}
use amit_x.Heap.Calls.{malloc}

-- Block `x`, header included, overlaps no block of the list.
abbrev pub Apart : Block → List Block → Type 0
Apart x [] = Unit {0}
Apart x (y ∷ ys) =
    ((x.addr + block_size + x.size ≤ y.addr) ⊎ (y.addr + block_size + y.size ≤ x.addr)) × Apart x ys

Apart-below :
    (a : ℕ) (x : Block) (bs : List Block)
    → Tiles a bs
    → x.addr + block_size + x.size ≤ a
    → Apart x (live bs)
Apart-below a x [] t h = tt
Apart-below a x (b ∷ bs) (e, m, t) h =
    let rest = Apart-below (a + block_size + b.size) x bs t (omega arith) in
    elim (Bool-cases b.free) [
      | inl f ↦ rw (live-cons_free b bs f) rest
      | inr u ↦ rw (live-cons_used b bs u) (inl (omega arith), rest)
    ]

-- A block in use overlaps no other.
pub Inserted-Apart :
    (a : ℕ) (x : Block) (xs bs : List Block) → Tiles a bs → Inserted x xs (live bs) → Apart x xs
Inserted-Apart a x xs [] t i = absurd i
Inserted-Apart a x xs (b ∷ bs) (e, m, t) i =
    let rec = λ (zs : List Block) (j : Inserted x zs (live bs)).
      Inserted-Apart (a + block_size + b.size) x zs bs t j in
    elim (Bool-cases b.free) [
      | inl f ↦ rec xs (subst (Inserted x xs) (live-cons_free b bs f) i)
      | inr u ↦ elim (subst (Inserted x xs) (live-cons_used b bs u) i) [
        | inl (same, rest) ↦ subst (Apart x) (sym rest) (
            Apart-below (a + block_size + b.size) x bs t (
              subst (λ k. k.addr + block_size + k.size ≤ a + block_size + b.size) (sym same)
                (omega arith)))
        | inr (zs, q, j) ↦ subst (Apart x) (sym q) (
          inr (omega (arith, (Owned-of_Inserted (a + block_size + b.size) x zs bs t j).from)),
          rec zs j,
        )
      ]
    ]

module _ {E : Type 0} (frames : Frames E) (h : Heap E) (v : IsValid h) (size : ℕ) where
  -- A pointer that `malloc` returns on a valid heap, for a size from 1 to 2^46, is a multiple of 16,
  -- and the bytes asked for lie in committed memory, outside every block that was in use before,
  -- its header included.
  pub malloc-Apart :
      0 < size
      → size ≤ 2 ^ 46
      → let (h', p) = malloc frames h size in
        p ≢ 0
        → (p % 16 ≡ 0)
          × (heap_base + block_size ≤ p)
          × (p + size ≤ h'.heap_end)
          × Apart (record { addr = p - block_size; size = size; free = false }) (live h.blocks)
  malloc-Apart pos small nz = placed _ (malloc_lem frames h v size pos small) nz
    where
      shorter :
          (x : Block) (p : ℕ) (ys : List Block)
          → p ≡ x.addr + block_size
          → size ≤ x.size
          → Apart x ys
          → Apart (record { addr = p - block_size; size = size; free = false }) ys
      shorter x p [] e le s = tt
      shorter x p (y ∷ ys) e le (inl s, t) = (inl (omega arith), shorter x p ys e le t)
      shorter x p (y ∷ ys) e le (inr s, t) = (inr (omega arith), shorter x p ys e le t)

      placed :
          (r : Heap E × ℕ)
          → Allocated h size r
          → r.1 ≢ 0
          → (r.1 % 16 ≡ 0)
            × (heap_base + block_size ≤ r.1)
            × (r.1 + size ≤ (r.0).heap_end)
            × Apart (record { addr = r.1 - block_size; size = size; free = false }) (live h.blocks)
      placed (h', p) (w, m, inr (z, e, n)) nz = absurd (nz z)
      placed (h', p) (w, m, inl (x, e, le, i)) nz =
          let o = Owned-of_Inserted heap_base x (live h.blocks) h'.blocks w.tiles i in
          (
            let q : x.addr % 16 ≡ 0 = o.aligned refl in omega (arith, q),
            omega (arith, o.from),
            omega (arith, o.upto, w.at_break, w.committed),
            shorter x p (live h.blocks) e le
                (Inserted-Apart heap_base x (live h.blocks) h'.blocks w.tiles i),
          )

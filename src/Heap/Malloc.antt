-- ===== src/Heap/Malloc.antt =====
-- `malloc` of mm/heap.c: it puts one block into use, large enough, at a place that no block in use
-- holds, and leaves the others alone; or it returns NULL and changes none.
use amit_x.Prelude.{
  ℕ, ◌+◌, ◌-◌, ◌%◌, ◌^◌, ◌≤◌, ◌<◌, ◌≡◌, refl, ap, sym, ◌∙◌, subst, arith, true, false, List, [],
  ◌∷◌, Option, none, some, ◌==◌, ◌⊎◌, inl, inr,
}
use amit_x.Prelude.Word.{u64}
use amit_x.Bitmap.Align.{align_up_lem}
use amit_x.Heap.{
  Block, block_size, Frames, Heap, heap_base, heap_size, align16, fits, next_addr, append_block,
  sbrk,
}
use amit_x.Heap.Inv.{Tiles, span, live, Coalesced, IsValid, Inserted}
use amit_x.Heap.Fit.{
  NoFit, Found, Searched, first_fit-Searched, next_addr-eq, Tiles-append_block,
  Coalesced-append_block, Inserted-append_block, span-append_block,
}
use amit_x.Heap.Sbrk.{Committed, Sbrk, sbrk-Sbrk}
use amit_x.Heap.Calls.{used_block, first_block, last_block, alloc_rounded, malloc}

-- What `malloc` did, by the pointer that it returns.
abbrev pub Allocated : {E : Type 0} → Heap E → ℕ → Heap E × ℕ → Type 0
Allocated h size (h', p) =
    IsValid h'
    × (h'.mem ≡ h.mem)
    × (((x : Block) × (p ≡ x.addr + block_size)
          × (size ≤ x.size)
          × Inserted x (live h.blocks) (live h'.blocks))
        ⊎ ((p ≡ 0) × (h'.blocks ≡ h.blocks) × NoFit (align16 size) h.blocks))

Allocated-Found :
    {E : Type 0} (h : Heap E) (size : ℕ) (bs : List Block) (p : ℕ)
    → IsValid h
    → size ≤ align16 size
    → Found heap_base false (align16 size) h.blocks bs p
    → Allocated h size (record h { blocks = bs }, p)
Allocated-Found h size bs p v le r = (
  record {
    tiles = r.tiles;
    coalesced = r.coalesced;
    at_break = omega (arith, r.same_span, v.at_break);
    committed = v.committed;
    arena = v.arena;
    pages = v.pages;
  },
  refl,
  inl (r.block, r.at, omega (arith, r.large), r.owned),
)

-- The arena could not grow.
Allocated-none :
    {E : Type 0} (h h' : Heap E) (size : ℕ)
    → IsValid h
    → Committed h h'
    → h'.heap_break ≡ h.heap_break
    → h'.heap_end ≤ heap_base + heap_size
    → NoFit (align16 size) h.blocks
    → Allocated h size (h', 0)
Allocated-none h h' size v c b hi no_fit = (
  record {
    tiles = rw c.blocks v.tiles;
    coalesced = rw c.blocks v.coalesced;
    at_break = rw (b, c.blocks) v.at_break;
    committed = omega (arith, c.not_less, v.committed);
    arena = hi;
    pages = c.pages;
  },
  c.mem,
  inr (refl, c.blocks, no_fit),
)

-- The arena grew by a new block, after those that there were.
Allocated-new :
    {E : Type 0} (h h' : Heap E) (size : ℕ)
    → IsValid h
    → size ≤ align16 size
    → align16 size % 16 ≡ 0
    → Committed h h'
    → h'.heap_break ≡ h.heap_break + (block_size + align16 size)
    → h'.heap_break ≤ h'.heap_end
    → h'.heap_end ≤ heap_base + heap_size
    → let n = used_block (heap_base + span h.blocks) (align16 size) in
      Allocated h size
        (record h' { blocks = append_block h.blocks n }, heap_base + span h.blocks + block_size)
Allocated-new h h' size v le m c b fits hi =
    let n = used_block (heap_base + span h.blocks) (align16 size) in
    (
      record {
        tiles = Tiles-append_block n refl m heap_base h.blocks v.tiles refl;
        coalesced = Coalesced-append_block n refl m false h.blocks v.coalesced;
        at_break = omega (arith, b, v.at_break, span-append_block h.blocks n);
        committed = fits;
        arena = hi;
        pages = c.pages;
      },
      c.mem,
      inl (n, refl, le, Inserted-append_block n refl m h.blocks),
    )

module _ {E : Type 0} (frames : Frames E) (h : Heap E) (v : IsValid h) (size : ℕ) (pos : 0 < size)
    (small : size ≤ 2 ^ 46) where
  rounded : (size ≤ align16 size) × (align16 size < size + 16) × (align16 size % 16 ≡ 0)
  rounded =
      let e : size + 15 ≡ size + 16 - 1 = omega arith in
      rw e (align_up_lem size 4 (omega arith) (omega arith))

  grows : Sbrk h (block_size + align16 size) (sbrk frames h (u64 (block_size + align16 size)))
  grows =
      let w : u64 (block_size + align16 size) ≡ block_size + align16 size =
        omega (arith, rounded) in
      rw w (
        sbrk-Sbrk frames h (block_size + align16 size) (omega (arith, v.at_break)) v.committed
          v.arena v.pages (omega arith) (omega (arith, rounded, v.committed, v.arena)))

  Allocated-first :
      (r : Heap E × Option ℕ)
      → Sbrk h (block_size + align16 size) r
      → h.blocks ≡ []
      → Allocated h size (first_block (align16 size) r)
  unfolding first_block append_block
  Allocated-first (h', none) (c, b, hi) e = Allocated-none h h' size v c b hi (rw e tt)
  Allocated-first (h', some old) (c, o, b, le, hi) e =
      subst
        (λ bs. Allocated h size (
          record h' { blocks = append_block bs (used_block (heap_base + span bs) (align16 size)) },
          heap_base + span bs + block_size,
        ))
        e (Allocated-new h h' size v rounded.0 rounded.2 c b le hi)

  Allocated-last :
      (r : Heap E × Option ℕ)
      → Sbrk h (block_size + align16 size) r
      → NoFit (align16 size) h.blocks
      → Allocated h size (last_block (align16 size) (heap_base + span h.blocks) r)
  unfolding last_block
  Allocated-last (h', none) (c, b, hi) n = Allocated-none h h' size v c b hi n
  Allocated-last (h', some old) (c, o, b, le, hi) n =
      let e : (old == heap_base + span h.blocks) ≡ true = ground (arith, v.at_break) in
      rw (e, c.blocks) (Allocated-new h h' size v rounded.0 rounded.2 c b le hi)

  Allocated-Searched :
      (b : Block) (bs : List Block) (o : Option (List Block × ℕ))
      → h.blocks ≡ b ∷ bs
      → Searched heap_base false (align16 size) (b ∷ bs) o
      → Allocated h size (elim o [
        | some (bs', p) ↦ (record h { blocks = bs' }, p)
        | none ↦
            last_block
              (align16 size)
              (next_addr b bs)
              (sbrk frames h (u64 (block_size + align16 size)))
      ])
  Allocated-Searched b bs none e s =
      let t = next_addr-eq heap_base b bs (subst (Tiles heap_base) e v.tiles) in
      rw (t ∙ ap (λ l. heap_base + span l) (sym e))
        (Allocated-last _ grows (subst (NoFit (align16 size)) (sym e) s))
  Allocated-Searched b bs (some (bs', p)) e s =
      Allocated-Found h size bs' p v rounded.0
        (subst (λ l. Found heap_base false (align16 size) l bs' p) (sym e) s)

  Allocated-rounded :
      (bs : List Block)
      → h.blocks ≡ bs
      → Allocated h size (alloc_rounded frames h (align16 size) bs)
  unfolding alloc_rounded
  Allocated-rounded [] e = Allocated-first _ grows e
  Allocated-rounded (b ∷ bs) e = Allocated-Searched b bs _ e (
      first_fit-Searched heap_base false (align16 size) (b ∷ bs) rounded.2
        (subst (Tiles heap_base) e v.tiles) (subst (Coalesced false) e v.coalesced))

  pub malloc_lem : Allocated h size (malloc frames h size)
  unfolding malloc
  malloc_lem = let z : (size == 0) ≡ false = ground arith in rw z (Allocated-rounded h.blocks refl)

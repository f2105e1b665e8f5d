-- ===== src/Heap/Inv.antt =====
-- The layout of the heap: its blocks tile the arena up to the break, and the blocks in use are what
-- the callers of mm/heap.c own.
use amit_x.Prelude.{
  ℕ, ◌+◌, ◌%◌, ◌≤◌, ◌≡◌, subst, arith, Bool, true, false, ◌&&◌, List, [], ◌∷◌, some, ◌==◌,
  if◌then◌else◌, Bool-cases, ◌⊎◌, inl, inr,
}
use amit_x.Heap.{Block, block_size, heap_base, heap_size, page_size, Heap, find_block}

-- The blocks from address `a` on lie one after the other, at multiples of 16.
abbrev pub Tiles : ℕ → List Block → Type 0
Tiles a [] = Unit {0}
Tiles a (b ∷ bs) = (b.addr ≡ a) × (b.size % 16 ≡ 0) × Tiles (a + block_size + b.size) bs

-- The bytes that the blocks take, headers included.
abbrev pub span : List Block → ℕ
span [] = 0
span (b ∷ bs) = block_size + b.size + span bs

-- The blocks in use, in the order of their addresses.
abbrev pub live : List Block → List Block
live [] = []
live (b ∷ bs) = if b.free then live bs else b ∷ live bs

pub live-cons_free : (b : Block) (bs : List Block) → b.free ≡ true → live (b ∷ bs) ≡ live bs
live-cons_free b bs f = ground arith

pub live-cons_used : (b : Block) (bs : List Block) → b.free ≡ false → live (b ∷ bs) ≡ b ∷ live bs
live-cons_used b bs u = ground arith

-- No two free blocks are neighbours; the flag says that the block before is free.
abbrev pub Coalesced : Bool → List Block → Type 0
Coalesced f [] = Unit {0}
Coalesced f (b ∷ bs) = (f && b.free ≡ false) × Coalesced b.free bs

pub record IsValid {E : Type 0} (h : Heap E) : Type 0 where
  pub tiles : Tiles heap_base h.blocks
  pub coalesced : Coalesced false h.blocks
  pub at_break : h.heap_break ≡ heap_base + span h.blocks
  pub committed : h.heap_break ≤ h.heap_end
  pub arena : h.heap_end ≤ heap_base + heap_size
  pub pages : h.heap_end % page_size ≡ 0

-- The list is `xs` with `x` put in at one place.
abbrev pub Inserted : Block → List Block → List Block → Type 0
Inserted x xs [] = ⊥
Inserted x xs (y ∷ ys) =
    ((x ≡ y) × (xs ≡ ys)) ⊎ ((zs : List Block) × (xs ≡ y ∷ zs) × Inserted x zs ys)

-- A block in use lies inside the span, at a multiple of 16, and is not free.
pub record Owned (a : ℕ) (bs : List Block) (x : Block) : Type 0 where
  pub from : a ≤ x.addr
  pub upto : x.addr + block_size + x.size ≤ a + span bs
  pub aligned : a % 16 ≡ 0 → x.addr % 16 ≡ 0
  pub used : x.free ≡ false
  pub at_addr : find_block x.addr bs ≡ some x

-- A block in use that does not stand first lies past the first one.
Owned-cons :
    (a : ℕ) (b x : Block) (bs : List Block)
    → b.addr ≡ a
    → b.size % 16 ≡ 0
    → Owned (a + block_size + b.size) bs x
    → Owned a (b ∷ bs) x
Owned-cons a b x bs e m o = record {
  from = omega (arith, o.from);
  upto = omega (arith, o.upto);
  aligned = λ p. o.aligned (omega arith);
  used = o.used;
  at_addr =
      let f : (b.addr == x.addr) ≡ false = ground (arith, o.from) in
      unfold find_block in rw f o.at_addr;
}

Owned-head :
    (a : ℕ) (b : Block) (bs : List Block) → b.addr ≡ a → b.free ≡ false → Owned a (b ∷ bs) b
Owned-head a b bs e u = record {
  from = omega arith;
  upto = omega arith;
  aligned = λ p. omega arith;
  used = u;
  at_addr = let f : (b.addr == b.addr) ≡ true = ground arith in unfold find_block in rw f;
}

Owned-split :
    (a : ℕ) (b x : Block) (xs bs : List Block)
    → b.addr ≡ a
    → b.size % 16 ≡ 0
    → b.free ≡ false
    → ((zs : List Block) → Inserted x zs (live bs) → Owned (a + block_size + b.size) bs x)
    → Inserted x xs (b ∷ live bs)
    → Owned a (b ∷ bs) x
Owned-split a b x xs bs e m u rec (inl (same, rest)) = rw same (Owned-head a b bs e u)
Owned-split a b x xs bs e m u rec (inr (zs, q, j)) = Owned-cons a b x bs e m (rec zs j)

-- A block in use is where its address says, inside the span.
pub Owned-of_Inserted :
    (a : ℕ) (x : Block) (xs bs : List Block) → Tiles a bs → Inserted x xs (live bs) → Owned a bs x
Owned-of_Inserted a x xs [] t i = absurd i
Owned-of_Inserted a x xs (b ∷ bs) (e, m, t) i =
    let rec = λ (zs : List Block) (j : Inserted x zs (live bs)).
      Owned-of_Inserted (a + block_size + b.size) x zs bs t j in
    elim (Bool-cases b.free) [
      | inl f ↦ Owned-cons a b x bs e m (rec xs (subst (Inserted x xs) (live-cons_free b bs f) i))
      | inr u ↦ Owned-split a b x xs bs e m u rec (subst (Inserted x xs) (live-cons_used b bs u) i)
    ]

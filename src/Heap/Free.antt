-- ===== src/Heap/Free.antt =====
-- `free` of mm/heap.c: the block goes out of use, no other does, and free neighbours are joined.
use amit_x.Prelude.{
  ℕ, ◌+◌, ◌-◌, ◌%◌, ◌^◌, ◌<◌, ◌≡◌, refl, ap, sym, ◌∙◌, subst, arith, Bool, true, false, ◌&&◌, List,
  [], ◌∷◌, some, ltb, leb, ◌==◌, Bool-cases, inl, inr,
}
use amit_x.Prelude.Word.{u64}
use amit_x.Heap.{
  Block, block_size, heap_base, Heap, merge_next, free_block, merge_prev, free, free_at,
}
use amit_x.Heap.Inv.{Tiles, live, Coalesced, IsValid, Inserted, Owned, Owned-of_Inserted}
use amit_x.Heap.Join.{
  merge_next_free, merge_next_used, merge_prev_free, merge_prev_used, merge_prev_miss,
  live-free_block, Tiles-free_block, span-free_block, Tiles-merge_prev, span-merge_prev,
}

-- Every block at address `p` is free.
abbrev FreeAt : ℕ → List Block → Type 0
FreeAt p [] = Unit {0}
FreeAt p (b ∷ bs) = (b.addr ≡ p → b.free ≡ true) × FreeAt p bs

FreeAt-above : (a p : ℕ) (bs : List Block) → Tiles a bs → p < a → FreeAt p bs
FreeAt-above a p [] t h = tt
FreeAt-above a p (b ∷ bs) (e, m, t) h =
    (λ q. absurd (omega arith), FreeAt-above (a + block_size + b.size) p bs t (omega arith))

FreeAt-merge_next :
    (a p : ℕ) (b : Block) (bs : List Block)
    → b.free ≡ true
    → Tiles (a + block_size + b.size) bs
    → p ≡ a
    → FreeAt p (merge_next b bs)
FreeAt-merge_next a p b [] f t e = unfold merge_next in (λ q. f, tt)
FreeAt-merge_next a p b (n ∷ bs) f (en, mn, t) e = elim (Bool-cases n.free) [
  | inl y ↦
      rw (merge_next_free b n bs y)
        (λ q. f, FreeAt-above (a + block_size + b.size + block_size + n.size) p bs t (omega arith))
  | inr u ↦
      rw (merge_next_used b n bs u)
        (λ q. f, FreeAt-above (a + block_size + b.size) p (n ∷ bs) (en, mn, t) (omega arith))
]

FreeAt-free_block : (a p : ℕ) (bs : List Block) → Tiles a bs → FreeAt p (free_block p bs)
unfolding free_block
FreeAt-free_block a p [] t = tt
FreeAt-free_block a p (b ∷ bs) (e, m, t) = elim (Bool-cases (b.addr == p)) [
  | inl y ↦ rw y (FreeAt-merge_next a p (record b { free = true }) bs refl t (ground arith))
  | inr n ↦ rw n (λ q. absurd (ground arith), FreeAt-free_block (a + block_size + b.size) p bs t)
]

live-merge_prev : (p : ℕ) (bs : List Block) → FreeAt p bs → live (merge_prev p bs) ≡ live bs
unfolding merge_prev
live-merge_prev p [] h = refl
live-merge_prev p (b ∷ []) h = refl
live-merge_prev p (b ∷ c ∷ bs) (g, h) = elim (Bool-cases (c.addr == p)) [
  | inl y ↦ ground (arith, h.0)
  | inr n ↦ ground (arith, live-merge_prev p (c ∷ bs) h)
]

-- Above `p` there is nothing to join.
merge_prev_above :
    (a p : ℕ) (b : Block) (bs : List Block) → Tiles a bs → p < a → merge_prev p (b ∷ bs) ≡ b ∷ bs
unfolding merge_prev
merge_prev_above a p b [] t h = refl
merge_prev_above a p b (c ∷ bs) (e, m, t) h =
    let n : (c.addr == p) ≡ false = ground arith in
    rw n (ap (λ l. b ∷ l) (merge_prev_above (a + block_size + c.size) p c bs t (omega arith)))

Coalesced-merge_next :
    (f : Bool) (b : Block) (bs : List Block)
    → f ≡ false
    → Coalesced b.free bs
    → Coalesced f (merge_next (record b { free = true }) bs)
Coalesced-merge_next f b [] e h = unfold merge_next in ground arith
Coalesced-merge_next f b (n ∷ bs) e (g, h) = elim (Bool-cases n.free) [
  | inl y ↦
      rw (merge_next_free (record b { free = true }) n bs y)
        (ground arith, subst (λ k. Coalesced k bs) y h)
  | inr u ↦ rw (merge_next_used (record b { free = true }) n bs u) (ground arith, (u, h))
]

-- The released block `c` joins the free block before it, or stays.
Coalesced-join :
    (f : Bool) (p : ℕ) (b c : Block) (cs : List Block)
    → (c.addr == p) ≡ true
    → c.free ≡ true
    → f && b.free ≡ false
    → Coalesced true cs
    → Coalesced f (merge_prev p (b ∷ c ∷ cs))
Coalesced-join f p b c cs y z g h = elim (Bool-cases b.free) [
  | inl t ↦ rw (merge_prev_free p b c cs y t) (g, subst (λ k. Coalesced k cs) (sym t) h)
  | inr u ↦
      rw (merge_prev_used p b c cs y u) (g, (ground arith, subst (λ k. Coalesced k cs) (sym z) h))
]

Coalesced-joined :
    (f : Bool) (p : ℕ) (b c : Block) (bs : List Block)
    → (c.addr == p) ≡ true
    → f && b.free ≡ false
    → Coalesced c.free bs
    → Coalesced f (merge_prev p (b ∷ merge_next (record c { free = true }) bs))
Coalesced-joined f p b c [] y g h =
    unfold merge_next in Coalesced-join f p b (record c { free = true }) [] y refl g tt
Coalesced-joined f p b c (n ∷ bs) y g (k, h) = elim (Bool-cases n.free) [
  | inl z ↦
      rw (merge_next_free (record c { free = true }) n bs z)
        (Coalesced-join f p b _ bs y refl g (subst (λ k. Coalesced k bs) z h))
  | inr u ↦
      rw (merge_next_used (record c { free = true }) n bs u)
        (Coalesced-join f p b _ (n ∷ bs) y refl g (u, h))
]

-- Releasing a block at `p` leaves no two free neighbours.
Coalesced-release :
    (f : Bool) (p : ℕ) (b : Block) (bs : List Block)
    → Coalesced f (b ∷ bs)
    → Coalesced f (merge_prev p (b ∷ free_block p bs))
unfolding free_block
Coalesced-release f p b [] h = unfold merge_prev in h
Coalesced-release f p b (c ∷ bs) (g, h) = elim (Bool-cases (c.addr == p)) [
  | inl y ↦ rw y (Coalesced-joined f p b c bs y g h.1)
  | inr n ↦ rw (n, merge_prev_miss p b c (free_block p bs) n) (g, Coalesced-release b.free p c bs h)
]

Coalesced-free_block :
    (a p : ℕ) (bs : List Block)
    → Tiles a bs
    → Coalesced false bs
    → Coalesced false (merge_prev p (free_block p bs))
unfolding free_block
Coalesced-free_block a p [] t h = unfold merge_prev in tt
Coalesced-free_block a p (b ∷ bs) (e, m, t) h = elim (Bool-cases (b.addr == p)) [
  | inl y ↦ rw y (head y bs t h.1)
  | inr n ↦ rw n (Coalesced-release false p b bs h)
]
  where
    head :
        (b.addr == p) ≡ true
        → (cs : List Block) → Tiles (a + block_size + b.size) cs
        → Coalesced b.free cs
        → Coalesced false (merge_prev p (merge_next (record b { free = true }) cs))
    head y [] s k = unfold merge_next merge_prev in (refl, tt)
    head z (c ∷ cs) (ec, mc, s) k = elim (Bool-cases c.free) [
      | inl y ↦
          rw
            (
              merge_next_free (record b { free = true }) c cs y,
              merge_prev_above _ p _ cs s (ground arith),
            )
            (refl, subst (λ f. Coalesced f cs) y k.1)
      | inr u ↦
          rw
            (
              merge_next_used (record b { free = true }) c cs u,
              merge_prev_above _ p _ (c ∷ cs) (ec, mc, s) (ground arith),
            )
            (refl, (u, k.1))
    ]

-- `free` on the pointer to a block `x` in use takes exactly `x` out of the blocks in use, leaves
-- the arena and the memory alone, and keeps the layout valid, free neighbours joined included.
pub free_lem :
    {E : Type 0} (h : Heap E) (x : Block) (xs : List Block)
    → IsValid h
    → Inserted x xs (live h.blocks)
    → (h' : Heap E) × (free h (x.addr + block_size) ≡ some h')
      × IsValid h'
      × (live h'.blocks ≡ xs)
      × (h'.mem ≡ h.mem)
      × (h'.heap_break ≡ h.heap_break)
free_lem h x xs v i = (record h { blocks = bs }, run, valid, out, refl, refl)
  where
    o : Owned heap_base h.blocks x
    o = Owned-of_Inserted heap_base x xs h.blocks v.tiles i

    bs : List Block
    bs = merge_prev x.addr (free_block x.addr h.blocks)

    word : u64 (x.addr + block_size + 2 ^ 64 - block_size) ≡ x.addr
    word = omega (arith, o.upto, v.at_break, v.committed, v.arena)

    at_header : free_at h x.addr ≡ some (record h { blocks = bs })
    at_header =
        let lo : ltb x.addr heap_base ≡ false = ground (arith, o.from) in
        let hi : leb h.heap_end x.addr ≡ false = ground (arith, o.upto, v.at_break, v.committed) in
        unfold free_at in rw (lo, hi, o.at_addr, o.used)

    run : free h (x.addr + block_size) ≡ some (record h { blocks = bs })
    run =
        let p : (x.addr + block_size == 0) ≡ false = ground arith in
        let q : ((x.addr + block_size) % 16 == 0) ≡ true = ground (arith, o.aligned) in
        unfold free in rw (p, q, word) at_header

    valid : IsValid (record h { blocks = bs })
    valid = record {
      tiles =
          Tiles-merge_prev heap_base x.addr _ (Tiles-free_block heap_base x.addr h.blocks v.tiles);
      coalesced = Coalesced-free_block heap_base x.addr h.blocks v.tiles v.coalesced;
      at_break = omega (
        arith,
        v.at_break,
        span-merge_prev x.addr (free_block x.addr h.blocks),
        span-free_block x.addr h.blocks,
      );
      committed = v.committed;
      arena = v.arena;
      pages = v.pages;
    }

    out : live bs ≡ xs
    out =
        live-merge_prev x.addr _ (FreeAt-free_block heap_base x.addr h.blocks v.tiles)
        ∙ live-free_block heap_base x xs h.blocks v.tiles i

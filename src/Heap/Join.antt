-- ===== src/Heap/Join.antt =====
-- The joins of neighbours in mm/heap.c: they keep the layout and the blocks in use.
use amit_x.Prelude.{
  ℕ, ◌+◌, ◌≡◌, refl, ap, sym, ◌∙◌, subst, arith, true, false, List, [], ◌∷◌, ◌==◌, Bool-cases, inl,
  inr,
}
use amit_x.Heap.{Block, block_size, merge_next, free_block, merge_prev}
use amit_x.Heap.Inv.{Tiles, span, live, Inserted, Owned-of_Inserted, live-cons_free, live-cons_used}

-- What the two joins come to, case by case.
pub merge_next_free :
    (b n : Block) (bs : List Block)
    → n.free ≡ true
    → merge_next b (n ∷ bs) ≡ record b { size = b.size + (block_size + n.size) } ∷ bs
unfolding merge_next
merge_next_free b n bs y = ground arith

pub merge_next_used :
    (b n : Block) (bs : List Block) → n.free ≡ false → merge_next b (n ∷ bs) ≡ b ∷ n ∷ bs
unfolding merge_next
merge_next_used b n bs u = ground arith

pub merge_prev_free :
    (p : ℕ) (b c : Block) (bs : List Block)
    → (c.addr == p) ≡ true
    → b.free ≡ true
    → merge_prev p (b ∷ c ∷ bs) ≡ record b { size = b.size + (block_size + c.size) } ∷ bs
unfolding merge_prev
merge_prev_free p b c bs y f = ground arith

pub merge_prev_used :
    (p : ℕ) (b c : Block) (bs : List Block)
    → (c.addr == p) ≡ true
    → b.free ≡ false
    → merge_prev p (b ∷ c ∷ bs) ≡ b ∷ c ∷ bs
unfolding merge_prev
merge_prev_used p b c bs y u = ground arith

pub merge_prev_miss :
    (p : ℕ) (b c : Block) (bs : List Block)
    → (c.addr == p) ≡ false
    → merge_prev p (b ∷ c ∷ bs) ≡ b ∷ merge_prev p (c ∷ bs)
unfolding merge_prev
merge_prev_miss p b c bs n = rw n

-- Joining a free block to the next one changes no block in use, and not the layout.
pub live-merge_next :
    (b : Block) (bs : List Block) → b.free ≡ true → live (merge_next b bs) ≡ live bs
unfolding merge_next
live-merge_next b [] f = rw f
live-merge_next b (n ∷ bs) f = ground arith

pub Tiles-merge_next :
    (a : ℕ) (b : Block) (bs : List Block) → Tiles a (b ∷ bs) → Tiles a (merge_next b bs)
unfolding merge_next
Tiles-merge_next a b [] t = t
Tiles-merge_next a b (n ∷ bs) (e, m, (en, mn, t)) = elim (Bool-cases n.free) [
  | inl f ↦ rw f (e, omega arith, subst (λ k. Tiles k bs) (omega arith) t)
  | inr u ↦ rw u (e, m, (en, mn, t))
]

pub span-merge_next : (b : Block) (bs : List Block) → span (merge_next b bs) ≡ span (b ∷ bs)
unfolding merge_next
span-merge_next b [] = refl
span-merge_next b (n ∷ bs) = ground arith

-- A block in use past the first one has another address.
pub past_head :
    (a : ℕ) (b x : Block) (xs bs : List Block)
    → b.addr ≡ a
    → Tiles (a + block_size + b.size) bs
    → Inserted x xs (live bs)
    → (b.addr == x.addr) ≡ false
past_head a b x xs bs e t i =
    ground (arith, (Owned-of_Inserted (a + block_size + b.size) x xs bs t i).from)

pub live-free_used :
    (a : ℕ) (b x : Block) (xs bs : List Block)
    → b.addr ≡ a
    → b.free ≡ false
    → Tiles (a + block_size + b.size) bs
    → ((zs : List Block) → Inserted x zs (live bs) → live (free_block x.addr bs) ≡ zs)
    → Inserted x xs (b ∷ live bs)
    → live (free_block x.addr (b ∷ bs)) ≡ xs
unfolding free_block
live-free_used a b x xs bs e u t rec (inl (same, rest)) =
    let y : (b.addr == x.addr) ≡ true = ground arith in
    rw y (live-merge_next (record b { free = true }) bs refl ∙ sym rest)
live-free_used a b x xs bs e u t rec (inr (zs, q, j)) =
    rw (past_head a b x zs bs e t j)
      (live-cons_used b (free_block x.addr bs) u ∙ ap (λ l. b ∷ l) (rec zs j) ∙ sym q)

-- Freeing the block `x` in use takes exactly it out of the blocks in use.
pub live-free_block :
    (a : ℕ) (x : Block) (xs bs : List Block)
    → Tiles a bs
    → Inserted x xs (live bs)
    → live (free_block x.addr bs) ≡ xs
unfolding free_block
live-free_block a x xs [] t i = absurd i
live-free_block a x xs (b ∷ bs) (e, m, t) i =
    let rec = λ (zs : List Block) (j : Inserted x zs (live bs)).
      live-free_block (a + block_size + b.size) x zs bs t j in
    elim (Bool-cases b.free) [
      | inl f ↦
          let j = subst (Inserted x xs) (live-cons_free b bs f) i in
          rw (past_head a b x xs bs e t j) (live-cons_free b (free_block x.addr bs) f ∙ rec xs j)
      | inr u ↦
          live-free_used a b x xs bs e u t rec (subst (Inserted x xs) (live-cons_used b bs u) i)
    ]

pub Tiles-free_block : (a p : ℕ) (bs : List Block) → Tiles a bs → Tiles a (free_block p bs)
unfolding free_block
Tiles-free_block a p [] t = t
Tiles-free_block a p (b ∷ bs) (e, m, t) = elim (Bool-cases (b.addr == p)) [
  | inl y ↦ rw y (Tiles-merge_next a (record b { free = true }) bs (e, m, t))
  | inr n ↦ rw n (e, m, Tiles-free_block (a + block_size + b.size) p bs t)
]

pub span-free_block : (p : ℕ) (bs : List Block) → span (free_block p bs) ≡ span bs
unfolding free_block
span-free_block p [] = refl
span-free_block p (b ∷ bs) =
    ground (arith, span-merge_next (record b { free = true }) bs, span-free_block p bs)

pub Tiles-merge_prev : (a p : ℕ) (bs : List Block) → Tiles a bs → Tiles a (merge_prev p bs)
unfolding merge_prev
Tiles-merge_prev a p [] t = t
Tiles-merge_prev a p (b ∷ []) t = t
Tiles-merge_prev a p (b ∷ c ∷ bs) (e, m, (ec, mc, t)) = elim (Bool-cases (c.addr == p)) [
  | inl y ↦ rw y (elim (Bool-cases b.free) [
    | inl f ↦ rw f (e, omega arith, subst (λ k. Tiles k bs) (omega arith) t)
    | inr u ↦ rw u (e, m, (ec, mc, t))
  ])
  | inr n ↦ rw n (e, m, Tiles-merge_prev (a + block_size + b.size) p (c ∷ bs) (ec, mc, t))
]

pub span-merge_prev : (p : ℕ) (bs : List Block) → span (merge_prev p bs) ≡ span bs
unfolding merge_prev
span-merge_prev p [] = refl
span-merge_prev p (b ∷ []) = refl
span-merge_prev p (b ∷ c ∷ bs) = ground (arith, span-merge_prev p (c ∷ bs))

-- ===== src/Heap/Fit.antt =====
-- The search of `malloc` in mm/heap.c: the first fit, carved, and a new block at the end.
use amit_x.Prelude.{
  ℕ, ◌+◌, ◌-◌, ◌%◌, ◌≤◌, ◌≡◌, refl, subst, arith, Bool, true, false, ◌&&◌, List, [], ◌∷◌, Option,
  none, some, ltb, Bool-cases, inl, inr,
}
use amit_x.Heap.{Block, block_size, carve, fits, first_fit, next_addr, append_block}
use amit_x.Heap.Inv.{Tiles, span, live, Coalesced, Inserted, live-cons_free, live-cons_used}

-- No block of the list is free and at least `size` bytes long.
abbrev pub NoFit : ℕ → List Block → Type 0
NoFit size [] = Unit {0}
NoFit size (b ∷ bs) = (fits size b ≡ false) × NoFit size bs

-- What the search makes of a list: one block more in use, at least `size` bytes long, and the same
-- layout.
pub record Found (a : ℕ) (f : Bool) (size : ℕ) (bs bs' : List Block) (p : ℕ) : Type 0 where
  pub block : Block
  pub at : p ≡ block.addr + block_size
  pub large : size ≤ block.size
  pub tiles : Tiles a bs'
  pub same_span : span bs' ≡ span bs
  pub coalesced : Coalesced f bs'
  pub owned : Inserted block (live bs) (live bs')

pub Coalesced-weaken : (f : Bool) (bs : List Block) → Coalesced f bs → Coalesced false bs
Coalesced-weaken f [] h = tt
Coalesced-weaken f (b ∷ bs) (g, h) = (refl, h)

carve-Found :
    (a : ℕ) (f : Bool) (size : ℕ) (b : Block) (bs : List Block)
    → size % 16 ≡ 0
    → Tiles a (b ∷ bs)
    → Coalesced f (b ∷ bs)
    → fits size b ≡ true
    → Found a f size (b ∷ bs) (carve size b bs) (b.addr + block_size)
unfolding carve fits
carve-Found a f size b bs m (e, mb, t) (g, h) fit =
    let free : b.free ≡ true = ground arith in
    let le : size ≤ b.size = ground arith in
    let after : Coalesced true bs = subst (λ k. Coalesced k bs) free h in
    elim (Bool-cases (ltb (block_size + 8) (b.size - size))) [
      | inl big ↦ rw big (record {
        block = record b { size = size; free = false };
        at = refl;
        large = omega arith;
        tiles = (e, m, (omega arith, ground arith, subst (λ k. Tiles k bs) (ground arith) t));
        same_span = ground arith;
        coalesced = (ground arith, (refl, after));
        owned = inl (refl, live-cons_free b bs free);
      })
      | inr small ↦ rw small (record {
        block = record b { free = false };
        at = refl;
        large = le;
        tiles = (e, mb, t);
        same_span = refl;
        coalesced = (ground arith, Coalesced-weaken true bs after);
        owned = inl (refl, live-cons_free b bs free);
      })
    ]

-- A block before the search's place stays as it is.
Found-cons :
    (a : ℕ) (f : Bool) (size : ℕ) (b : Block) (bs bs' : List Block) (p : ℕ)
    → Tiles a (b ∷ bs)
    → f && b.free ≡ false
    → Found (a + block_size + b.size) b.free size bs bs' p
    → Found a f size (b ∷ bs) (b ∷ bs') p
Found-cons a f size b bs bs' p (e, m, t) g r = record {
  block = r.block;
  at = r.at;
  large = r.large;
  tiles = (e, m, r.tiles);
  same_span = omega (arith, r.same_span);
  coalesced = (g, r.coalesced);
  owned = elim (Bool-cases b.free) [
    | inl y ↦ rw (live-cons_free b bs y, live-cons_free b bs' y) r.owned
    | inr u ↦ rw (live-cons_used b bs u, live-cons_used b bs' u) (inr (live bs, refl, r.owned))
  ];
}

-- The search carves a block that fits, or says that none does.
abbrev pub Searched : ℕ → Bool → ℕ → List Block → Option (List Block × ℕ) → Type 0
Searched a f size bs none = NoFit size bs
Searched a f size bs (some (bs', p)) = Found a f size bs bs' p

Searched-cons :
    (a : ℕ) (f : Bool) (size : ℕ) (b : Block) (bs : List Block) (o : Option (List Block × ℕ))
    → Tiles a (b ∷ bs)
    → f && b.free ≡ false
    → fits size b ≡ false
    → Searched (a + block_size + b.size) b.free size bs o
    → Searched a f size (b ∷ bs) (elim o [ none ↦ none | some (bs', p) ↦ some (b ∷ bs', p) ])
Searched-cons a f size b bs none t g no_fit s = (no_fit, s)
Searched-cons a f size b bs (some (bs', p)) t g no_fit s = Found-cons a f size b bs bs' p t g s

pub first_fit-Searched :
    (a : ℕ) (f : Bool) (size : ℕ) (bs : List Block)
    → size % 16 ≡ 0
    → Tiles a bs
    → Coalesced f bs
    → Searched a f size bs (first_fit size bs)
unfolding first_fit
first_fit-Searched a f size [] m t h = tt
first_fit-Searched a f size (b ∷ bs) m t h = elim (Bool-cases (fits size b)) [
  | inl y ↦ rw y (carve-Found a f size b bs m t h y)
  | inr n ↦ rw n (
      Searched-cons a f size b bs (first_fit size bs) t h.0 n
        (first_fit-Searched (a + block_size + b.size) b.free size bs m t.2 h.1))
]

-- The walk stops at the end of the span, and a block put there is one block more in use.
pub next_addr-eq :
    (a : ℕ) (b : Block) (bs : List Block) → Tiles a (b ∷ bs) → next_addr b bs ≡ a + span (b ∷ bs)
unfolding next_addr
next_addr-eq a b [] t = omega (arith, t.0)
next_addr-eq a b (c ∷ bs) t = omega (arith, next_addr-eq (a + block_size + b.size) c bs t.2)

module _ (n : Block) (u : n.free ≡ false) (m : n.size % 16 ≡ 0) where
  pub Tiles-append_block :
      (a : ℕ) (bs : List Block) → Tiles a bs → n.addr ≡ a + span bs → Tiles a (append_block bs n)
  unfolding append_block
  Tiles-append_block a [] t e = (omega arith, m, tt)
  Tiles-append_block a (b ∷ bs) (eb, mb, t) e =
      (eb, mb, Tiles-append_block (a + block_size + b.size) bs t (omega arith))

  pub Coalesced-append_block :
      (f : Bool) (bs : List Block) → Coalesced f bs → Coalesced f (append_block bs n)
  unfolding append_block
  Coalesced-append_block f [] h = (rw u (ground arith), tt)
  Coalesced-append_block f (b ∷ bs) (g, h) = (g, Coalesced-append_block b.free bs h)

  pub Inserted-append_block : (bs : List Block) → Inserted n (live bs) (live (append_block bs n))
  unfolding append_block
  Inserted-append_block [] = rw (live-cons_used n [] u) (inl (refl, refl))
  Inserted-append_block (b ∷ bs) =
      let rest = Inserted-append_block bs in
      elim (Bool-cases b.free) [
        | inl y ↦ rw (live-cons_free b bs y, live-cons_free b (append_block bs n) y) rest
        | inr z ↦
            rw (live-cons_used b bs z, live-cons_used b (append_block bs n) z)
              (inr (live bs, refl, rest))
      ]

pub span-append_block :
    (bs : List Block) (n : Block) → span (append_block bs n) ≡ span bs + block_size + n.size
unfolding append_block
span-append_block [] n = omega arith
span-append_block (b ∷ bs) n = omega (arith, span-append_block bs n)

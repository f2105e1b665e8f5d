-- ===== src/BlockCache/Inv.antt =====
-- What the cache of fs/smkfs/bcache.c shows: the contents of every block, cached or not. The disk
-- is an interface with the laws of a block device.
use amit_x.Prelude.{
  ℕ, zero, suc, ◌<◌, ◌≡◌, ap, sym, ◌∙◌, subst, arith, ◌≢◌, Bool, true, false, List, [], ◌∷◌, Option,
  none, some, length, set, Bool-cases, ◌⊎◌, inl, inr, ℕ_discrete, length-set, get_or-set_self,
  get_or-set_ne,
}
use amit_x.Checksum.{smkfs_block_size}
use amit_x.BlockCache.{Slot, Disk, Mount, slot_at, find_slot}

-- For the blocks below `limit` and buffers of the size of a block: `contents d b` is what a read of
-- block `b` gives, and a buffer keeps its size. A read changes nothing; a write changes at most its
-- own block, to the new bytes if it succeeds.
pub record DiskLaws {D : Type 0} (disk : Disk D) : Type 0 where
  pub limit : ℕ
  pub contents : D → ℕ → List ℕ
  pub read_size :
      (b : ℕ) (buf : List ℕ) (d : D)
      → b < limit
      → length buf ≡ smkfs_block_size
      → length (disk.read b buf d).1 ≡ smkfs_block_size
  pub read_ok :
      (b : ℕ) (buf : List ℕ) (d : D)
      → b < limit
      → length buf ≡ smkfs_block_size
      → (disk.read b buf d).0 ≡ true
      → (disk.read b buf d).1 ≡ contents d b
  pub read_same :
      (b : ℕ) (buf : List ℕ) (d : D)
      → b < limit
      → length buf ≡ smkfs_block_size
      → (k : ℕ) → contents (disk.read b buf d).2 k ≡ contents d k
  pub write_ok :
      (b : ℕ) (v : List ℕ) (d : D)
      → b < limit
      → length v ≡ smkfs_block_size
      → (disk.write b v d).0 ≡ true
      → contents (disk.write b v d).1 b ≡ v
  pub write_other :
      (b : ℕ) (v : List ℕ) (d : D)
      → b < limit
      → length v ≡ smkfs_block_size
      → (k : ℕ) → k ≢ b
      → contents (disk.write b v d).1 k ≡ contents d k

-- The mount shows the blocks `f`: a cached block is as `f` says, and so is the disk at a block that
-- is cached clean or not at all; no block is cached twice, none from the limit on is, and the buffers
-- have the size of a block.
pub record Shows {D : Type 0} {disk : Disk D} (laws : DiskLaws disk) (m : Mount D) (f : ℕ → List ℕ)
    : Type 0 where
  pub some_slot : 0 < length m.slots
  pub size : (i : ℕ) → i < length m.slots → length (slot_at m.slots i).bytes ≡ smkfs_block_size
  pub below :
      (i : ℕ)
      → i < length m.slots
      → (slot_at m.slots i).valid ≡ true
      → (slot_at m.slots i).block < laws.limit
  pub cached :
      (i : ℕ)
      → i < length m.slots
      → (slot_at m.slots i).valid ≡ true
      → (slot_at m.slots i).bytes ≡ f (slot_at m.slots i).block
  pub clean :
      (i : ℕ)
      → i < length m.slots
      → (slot_at m.slots i).valid ≡ true
      → (slot_at m.slots i).dirty ≡ false
      → laws.contents m.disk (slot_at m.slots i).block ≡ f (slot_at m.slots i).block
  pub once :
      (i j : ℕ)
      → i < length m.slots
      → j < length m.slots
      → (slot_at m.slots i).valid ≡ true
      → (slot_at m.slots j).valid ≡ true
      → (slot_at m.slots i).block ≡ (slot_at m.slots j).block
      → i ≡ j
  pub rest :
      (b : ℕ)
      → ((i : ℕ)
          → i < length m.slots
          → (slot_at m.slots i).valid ≡ true
          → (slot_at m.slots i).block ≢ b)
      → laws.contents m.disk b ≡ f b

-- The slot that a search finds fits, and if it finds none then none does.
abbrev pub Finds : (Slot → Bool) → List Slot → Option ℕ → Type 0
Finds p slots none = (i : ℕ) → i < length slots → p (slot_at slots i) ≡ false
Finds p slots (some i) = (i < length slots) × (p (slot_at slots i) ≡ true)

pub find_slot-Finds : (p : Slot → Bool) (slots : List Slot) → Finds p slots (find_slot p slots)
unfolding find_slot
find_slot-Finds p [] = λ i h. absurd (omega arith)
find_slot-Finds p (s ∷ slots) = elim (Bool-cases (p s)) [
  | inl y ↦ rw y (omega arith, y)
  | inr n ↦ rw n (later (find_slot p slots) (find_slot-Finds p slots) n)
]
  where
    deeper :
        ((i : ℕ) → i < length slots → p (slot_at slots i) ≡ false)
        → p s ≡ false
        → (i : ℕ) → i < suc (length slots)
        → p (slot_at (s ∷ slots) i) ≡ false
    deeper h n zero lt = n
    deeper h n (suc i) lt = h i (omega arith)

    later :
        (o : Option ℕ)
        → Finds p slots o
        → p s ≡ false
        → Finds p (s ∷ slots) (elim o [ none ↦ none | some i ↦ some (suc i) ])
    later none h n = deeper h n
    later (some i) h n = (omega (arith, h.0), h.1)

-- Slot `i` replaced by `s`: each slot is then `s` or as before.
module _ (slots : List Slot) (i : ℕ) (s : Slot) (h : i < length slots) where
  pub slot_at-set :
      (j : ℕ)
      → ((j ≡ i) × (slot_at (set slots i s) j ≡ s))
        ⊎ ((j ≢ i) × (slot_at (set slots i s) j ≡ slot_at slots j))
  slot_at-set j = elim (ℕ_discrete j i) [
    | yes e ↦ inl (e, ap (slot_at (set slots i s)) e ∙ get_or-set_self slots i s _ h)
    | no ne ↦ inr (ne, get_or-set_ne slots i j s _ (λ e. ne (sym e)))
  ]

  pub slot_at-set_self : slot_at (set slots i s) i ≡ s
  slot_at-set_self = get_or-set_self slots i s _ h

-- What must hold for a mount to show `g` once slot `i` is replaced by `s` and the disk by `d`.
module _ {D : Type 0} {disk : Disk D} (laws : DiskLaws disk) (m : Mount D) (f g : ℕ → List ℕ)
    (i : ℕ) (s : Slot) (d : D) where
  pub Shows-set :
      Shows laws m f
      → i < length m.slots
      → length s.bytes ≡ smkfs_block_size
      → (s.valid ≡ true → s.block < laws.limit)
      → (s.valid ≡ true → s.bytes ≡ g s.block)
      → (s.valid ≡ true → s.dirty ≡ false → laws.contents d s.block ≡ g s.block)
      → (s.valid ≡ true
          → (j : ℕ) → j < length m.slots
          → j ≢ i
          → (slot_at m.slots j).valid ≡ true
          → (slot_at m.slots j).block ≢ s.block)
      → ((j : ℕ)
          → j < length m.slots
          → j ≢ i
          → (slot_at m.slots j).valid ≡ true
          → (f (slot_at m.slots j).block ≡ g (slot_at m.slots j).block)
            × (laws.contents d (slot_at m.slots j).block
                ≡ laws.contents m.disk (slot_at m.slots j).block))
      → ((b : ℕ)
          → ((j : ℕ)
              → j < length m.slots
              → j ≢ i
              → (slot_at m.slots j).valid ≡ true
              → (slot_at m.slots j).block ≢ b)
          → (s.valid ≡ true → s.block ≢ b)
          → laws.contents d b ≡ g b)
      → Shows laws (record { slots = set m.slots i s; disk = d }) g
  Shows-set sh h new_size new_below new new_clean apart others rest = record {
    some_slot = omega (arith, sh.some_slot, size);
    size = λ j lt. elim (slot_at-set m.slots i s h j) [
      | inl (e, q) ↦ ap (λ (t : Slot). length t.bytes) q ∙ new_size
      | inr (ne, q) ↦ ap (λ (t : Slot). length t.bytes) q ∙ sh.size j (omega (arith, lt, size))
    ];
    below = λ j lt v. elim (slot_at-set m.slots i s h j) [
      | inl (e, q) ↦ subst (λ t. t.valid ≡ true → t.block < laws.limit) (sym q) new_below v
      | inr (ne, q) ↦
          subst (λ t. t.valid ≡ true → t.block < laws.limit) (sym q)
            (λ w. sh.below j (omega (arith, lt, size)) w) v
    ];
    cached = λ j lt v. elim (slot_at-set m.slots i s h j) [
      | inl (e, q) ↦ subst (λ t. t.valid ≡ true → t.bytes ≡ g t.block) (sym q) new v
      | inr (ne, q) ↦
          subst (λ t. t.valid ≡ true → t.bytes ≡ g t.block) (sym q)
            (λ w. sh.cached j (omega (arith, size)) w ∙ (others j (omega (arith, size)) ne w).0) v
    ];
    clean = λ j lt v c. elim (slot_at-set m.slots i s h j) [
      | inl (e, q) ↦
          subst (λ t. t.valid ≡ true → t.dirty ≡ false → laws.contents d t.block ≡ g t.block)
            (sym q) new_clean v c
      | inr (ne, q) ↦
          subst (λ t. t.valid ≡ true → t.dirty ≡ false → laws.contents d t.block ≡ g t.block)
            (sym q)
            (λ w k.
              (others j (omega (arith, size)) ne w).1
              ∙ sh.clean j (omega (arith, size)) w k
              ∙ (others j (omega (arith, size)) ne w).0)
            v c
    ];
    once = λ j k lj lk.
        two j k (omega (arith, size)) (omega (arith, size)) (slot_at-set m.slots i s h j)
          (slot_at-set m.slots i s h k);
    rest = λ b free.
        rest b
          (λ j lt ne v e. elim (slot_at-set m.slots i s h j) [
            | inl (same, q) ↦ ne same
            | inr (other, q) ↦
                free j (omega (arith, size)) (ap (λ (t : Slot). t.valid) q ∙ v)
                  (ap (λ (t : Slot). t.block) q ∙ e)
          ])
          (λ v e.
            free i (omega (arith, size, h))
              (ap (λ (t : Slot). t.valid) (slot_at-set_self m.slots i s h) ∙ v)
              (ap (λ (t : Slot). t.block) (slot_at-set_self m.slots i s h) ∙ e));
  }
    where
      size : length (set m.slots i s) ≡ length m.slots
      size = length-set m.slots i s

      two :
          (j k : ℕ)
          → j < length m.slots
          → k < length m.slots
          → {a b : Slot} → ((j ≡ i) × (a ≡ s)) ⊎ ((j ≢ i) × (a ≡ slot_at m.slots j))
          → ((k ≡ i) × (b ≡ s)) ⊎ ((k ≢ i) × (b ≡ slot_at m.slots k))
          → a.valid ≡ true
          → b.valid ≡ true
          → a.block ≡ b.block
          → j ≡ k
      two j k lj lk (inl (e, q)) (inl (e', q')) va vb eq = e ∙ sym e'
      two j k lj lk (inl (e, q)) (inr (ne', q')) va vb eq = absurd (
          apart (sym (ap (λ (t : Slot). t.valid) q) ∙ va) k lk ne'
            (sym (ap (λ (t : Slot). t.valid) q') ∙ vb)
            (sym (ap (λ (t : Slot). t.block) q') ∙ sym eq ∙ ap (λ (t : Slot). t.block) q))
      two j k lj lk (inr (ne, q)) (inl (e', q')) va vb eq = absurd (
          apart (sym (ap (λ (t : Slot). t.valid) q') ∙ vb) j lj ne
            (sym (ap (λ (t : Slot). t.valid) q) ∙ va)
            (sym (ap (λ (t : Slot). t.block) q) ∙ eq ∙ ap (λ (t : Slot). t.block) q'))
      two j k lj lk (inr (ne, q)) (inr (ne', q')) va vb eq =
          sh.once j k lj lk (sym (ap (λ (t : Slot). t.valid) q) ∙ va)
            (sym (ap (λ (t : Slot). t.valid) q') ∙ vb)
            (sym (ap (λ (t : Slot). t.block) q) ∙ eq ∙ ap (λ (t : Slot). t.block) q')

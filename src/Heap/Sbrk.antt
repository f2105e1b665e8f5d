-- ===== src/Heap/Sbrk.antt =====
-- `sbrk_locked` and `heap_commit_to` of mm/heap.c: whether or not the frames suffice, the arena
-- stays inside its bounds and whole pages are committed; the break moves only if all of them are.
use amit_x.Prelude.{
  ℕ, zero, suc, ◌+◌, ◌*◌, ◌%◌, ◌^◌, ◌≤◌, ◌<◌, ◌≡◌, refl, arith, Bool, true, false, Option, none,
  some, ltb, ◌==◌, Bool-cases, inl, inr, ltb→lt,
}
use amit_x.Prelude.Word.{u64}
use amit_x.Bitmap.Align.{align_up_lem}
use amit_x.Heap.{Frames, Heap, heap_base, heap_size, page_size, commit_pages, grown, sbrk}

-- From `h` to `h'` only pages were committed.
pub record Committed {E : Type 0} (h h' : Heap E) : Type 0 where
  pub blocks : h'.blocks ≡ h.blocks
  pub mem : h'.mem ≡ h.mem
  pub not_less : h.heap_end ≤ h'.heap_end
  pub pages : h'.heap_end % page_size ≡ 0

-- What `sbrk_locked` did, by its answer.
abbrev pub Sbrk : {E : Type 0} → Heap E → ℕ → Heap E × Option ℕ → Type 0
Sbrk h inc (h', none) =
    Committed h h' × (h'.heap_break ≡ h.heap_break) × (h'.heap_end ≤ heap_base + heap_size)
Sbrk h inc (h', some old) =
    Committed h h'
    × (old ≡ h.heap_break)
    × (h'.heap_break ≡ h.heap_break + inc)
    × (h'.heap_break ≤ h'.heap_end)
    × (h'.heap_end ≤ heap_base + heap_size)

-- The pages that the loop commits, all of them if it succeeds.
abbrev Pages : {E : Type 0} → ℕ → Heap E → Heap E × Bool → Type 0
Pages n h (h', done) =
    Committed h h'
    × (h'.heap_break ≡ h.heap_break)
    × (h'.heap_end ≤ h.heap_end + n * page_size)
    × (done ≡ true → h'.heap_end ≡ h.heap_end + n * page_size)

grown-Sbrk :
    {E : Type 0} (h : Heap E) (inc n : ℕ) (r : Heap E × Bool)
    → Pages n h r
    → 0 < inc
    → h.heap_break + inc ≤ h.heap_end + n * page_size
    → h.heap_end + n * page_size ≤ heap_base + heap_size
    → Sbrk h inc (grown h (h.heap_break + inc) r)
unfolding grown
grown-Sbrk h inc n (h', true) (c, b, le, eq) pos up hi = (
  record { blocks = c.blocks; mem = c.mem; not_less = c.not_less; pages = c.pages },
  refl,
  refl,
  omega (arith, eq refl),
  omega arith,
)
grown-Sbrk h inc n (h', false) (c, b, le, eq) pos up hi = (c, b, omega arith)

module _ {E : Type 0} (frames : Frames E) where
  Pages-suc :
      (n : ℕ) (h : Heap E) (e : E) (r : Heap E × Bool)
      → Pages n (record h { heap_end = h.heap_end + page_size; env = e }) r
      → Pages (suc n) h r
  Pages-suc n h e (h', done) (c, b, le, eq) = (
    record {
      blocks = c.blocks;
      mem = c.mem;
      not_less = omega (arith, c.not_less);
      pages = c.pages;
    },
    b,
    omega arith,
    λ d. omega (arith, eq d),
  )

  commit_pages-Pages :
      (n : ℕ) (h : Heap E) → h.heap_end % page_size ≡ 0 → Pages n h (commit_pages frames n h)
  unfolding commit_pages
  commit_pages-Pages zero h p = (
    record { blocks = refl; mem = refl; not_less = omega arith; pages = p },
    refl,
    omega arith,
    λ d. omega arith,
  )
  commit_pages-Pages (suc n) h p =
      let r = frames.alloc_frame h.env in
      let q = frames.map_page r.0 h.heap_end r.1 in
      elim (Bool-cases (r.0 == 0)) [
        | inl out ↦ rw out (
          record { blocks = refl; mem = refl; not_less = omega arith; pages = p },
          refl,
          omega arith,
          λ d. cc,
        )
        | inr frame ↦ rw frame (elim (Bool-cases q.0) [
          | inl mapped ↦ rw mapped (
              Pages-suc n h q.1 _ (
                commit_pages-Pages n (record h { heap_end = h.heap_end + page_size; env = q.1 })
                  (omega arith)))
          | inr failed ↦ rw failed (
            record { blocks = refl; mem = refl; not_less = omega arith; pages = p },
            refl,
            omega arith,
            λ d. cc,
          )
        ])
      ]

  -- `sbrk_locked` with an increment that keeps the break below 2^64 less a page.
  pub sbrk-Sbrk :
      (h : Heap E) (inc : ℕ)
      → heap_base ≤ h.heap_break
      → h.heap_break ≤ h.heap_end
      → h.heap_end ≤ heap_base + heap_size
      → h.heap_end % page_size ≡ 0
      → 0 < inc
      → h.heap_break + inc < 2 ^ 64
      → Sbrk h inc (sbrk frames h inc)
  unfolding sbrk
  sbrk-Sbrk h inc lo le hi p pos fits =
      let new = h.heap_break + inc in
      let z : (inc == 0) ≡ false = ground arith in
      let w : u64 new ≡ new = omega arith in
      let b : ltb new heap_base ≡ false = ground arith in
      let same : Committed h h = record {
        blocks = refl;
        mem = refl;
        not_less = omega arith;
        pages = p;
      } in
      rw (z, w, b)
        (elim (Bool-cases (ltb (heap_base + heap_size) new)) [
          | inl over ↦ rw over (same, refl, hi)
          | inr room ↦ rw room (elim (Bool-cases (ltb h.heap_end new)) [
            | inr inside ↦ rw inside (
              record { blocks = refl; mem = refl; not_less = omega arith; pages = p },
              refl,
              refl,
              ground arith,
              hi,
            )
            | inl beyond ↦
                let lim : new ≤ heap_base + heap_size = ground arith in
                let past = ltb→lt h.heap_end new beyond in
                let up = align_up_lem new 12 (omega arith) (omega arith) in
                rw beyond (
                  grown-Sbrk h inc _ _ (commit_pages-Pages _ h p) pos (omega (arith, up))
                    (omega (arith, up)))
          ])
        ])

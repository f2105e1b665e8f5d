-- ===== src/BlockCache/Load.antt =====
-- `block_cache_read` of fs/smkfs/bcache.c: whichever slot it takes, the mount shows the same blocks
-- before and after, also where the disk fails.
use amit_x.Prelude.{
  ℕ, ◌<◌, ◌≡◌, refl, ap, sym, ◌∙◌, subst, arith, ◌≢◌, Bool, true, false, not, ◌&&◌, List, Option,
  none, some, length, set, Bool-cases, inl, inr, ℕ_discrete, length-set,
}
use amit_x.BlockCache.{Slot, Disk, Mount, slot_at, find_slot, holds, load, evict, block_cache_read}
use amit_x.BlockCache.Inv.{
  DiskLaws, Shows, Shows-set, Finds, find_slot-Finds, slot_at-set, slot_at-set_self,
}

module _ {D : Type 0} {disk : Disk D} (laws : DiskLaws disk) where
  -- What the call leaves: the same blocks shown, and on success a valid slot that holds the block.
  abbrev pub Got : (ℕ → List ℕ) → ℕ → Mount D × Option ℕ → Type 0
  Got f b (m, none) = Shows laws m f
  Got f b (m, some i) =
      Shows laws m f
      × (i < length m.slots)
      × ((slot_at m.slots i).valid ≡ true)
      × ((slot_at m.slots i).block ≡ b)

  -- Block `b` is in no slot.
  abbrev pub Absent : Mount D → ℕ → Type 0
  Absent m b =
      (i : ℕ)
      → i < length m.slots
      → (slot_at m.slots i).valid ≡ true
      → (slot_at m.slots i).block ≢ b

  -- Without slot `i`, which may go since it is not dirty, the other slots and the disk show all.
  rest_without :
      (m : Mount D) (f : ℕ → List ℕ) (i : ℕ)
      → Shows laws m f
      → i < length m.slots
      → ((slot_at m.slots i).valid ≡ true → (slot_at m.slots i).dirty ≡ false)
      → (b : ℕ)
      → ((j : ℕ)
          → j < length m.slots
          → j ≢ i
          → (slot_at m.slots j).valid ≡ true
          → (slot_at m.slots j).block ≢ b)
      → laws.contents m.disk b ≡ f b
  rest_without m f i sh h spare b others = elim (Bool-cases ((slot_at m.slots i).valid)) [
    | inr free ↦ sh.rest b (elsewhere (λ v. absurd (absurd_of free v)))
    | inl held ↦ elim (ℕ_discrete ((slot_at m.slots i).block) b) [
      | yes same ↦ subst (λ k. laws.contents m.disk k ≡ f k) same (sh.clean i h held (spare held))
      | no differ ↦ sh.rest b (elsewhere (λ v. differ))
    ]
  ]
    where
      absurd_of : {x : Bool} → x ≡ false → x ≡ true → ⊥
      absurd_of p q = cc

      elsewhere : ((slot_at m.slots i).valid ≡ true → (slot_at m.slots i).block ≢ b) → Absent m b
      elsewhere own j lt v = elim (ℕ_discrete j i) [
        | yes e ↦
            subst (λ k. (slot_at m.slots k).valid ≡ true → (slot_at m.slots k).block ≢ b) (sym e)
              own v
        | no ne ↦ others j lt ne v
      ]

  load-Got :
      (m : Mount D) (f : ℕ → List ℕ) (b i : ℕ)
      → b < laws.limit
      → Shows laws m f
      → Absent m b
      → i < length m.slots
      → ((slot_at m.slots i).valid ≡ true → (slot_at m.slots i).dirty ≡ false)
      → Got f b (load disk m b i)
  unfolding load
  load-Got m f b i fits sh absent h spare =
      let old = slot_at m.slots i in
      let r = disk.read b old.bytes m.disk in
      let full = sh.size i h in
      let full' = laws.read_size b old.bytes m.disk fits full in
      let same = λ (k : ℕ). laws.read_same b old.bytes m.disk fits full k in
      let there : laws.contents m.disk b ≡ f b = sh.rest b absent in
      let fresh : Slot = record { block = b; bytes = r.1; dirty = false; valid = true } in
      let torn : Slot = record old { valid = false; bytes = r.1 } in
      let rest =
        λ (k : ℕ)
            (o : (j : ℕ)
              → j < length m.slots
              → j ≢ i
              → (slot_at m.slots j).valid ≡ true
              → (slot_at m.slots j).block ≢ k).
          same k ∙ rest_without m f i sh h spare k o in
      elim (Bool-cases r.0) [
        | inl ok ↦ rw ok (
          Shows-set laws m f f i fresh r.2 sh h full' (λ v. fits)
              (λ v. laws.read_ok b old.bytes m.disk fits full ok ∙ there) (λ v c. same b ∙ there)
              (λ v j lt ne w. absent j lt w) (λ j lt ne v. (refl, same _)) (λ k o own. rest k o),
          omega (arith, h, length-set m.slots i fresh),
          ap (λ (t : Slot). t.valid) (slot_at-set_self m.slots i fresh h),
          ap (λ (t : Slot). t.block) (slot_at-set_self m.slots i fresh h),
        )
        | inr failed ↦ rw failed (
            Shows-set laws m f f i torn r.2 sh h full'
              (λ v. absurd (let q : false ≡ true = v in cc)) (λ v. cc) (λ v c. cc)
              (λ v j lt ne w e. cc) (λ j lt ne v. (refl, same _)) (λ k o own. rest k o))
      ]

  -- A slot written back to the disk shows the same blocks, now clean.
  pub written-Shows :
      (m : Mount D) (f : ℕ → List ℕ) (i : ℕ)
      → Shows laws m f
      → i < length m.slots
      → (slot_at m.slots i).valid ≡ true
      → let s = slot_at m.slots i in
        let (ok, d) = disk.write s.block s.bytes m.disk in
        ok ≡ true
        → Shows laws (record { slots = set m.slots i (record s { dirty = false }); disk = d }) f
  written-Shows m f i sh h v ok =
      let s = slot_at m.slots i in
      let low = sh.below i h v in
      let full = sh.size i h in
      let other =
        λ (k : ℕ) (ne : k ≢ s.block). laws.write_other s.block s.bytes m.disk low full k ne in
      Shows-set laws m f f i (record s { dirty = false }) (disk.write s.block s.bytes m.disk).1 sh h
        full (λ w. low) (λ w. sh.cached i h v)
        (λ w c. laws.write_ok s.block s.bytes m.disk low full ok ∙ sh.cached i h v)
        (λ w j lt ne u e. ne (sh.once j i lt h u v e))
        (λ j lt ne u. (refl, other _ (λ e. ne (sh.once j i lt h u v e))))
        (λ k o own.
          other k (λ e. own v (sym e))
          ∙ sh.rest k (λ j lt u e. elim (ℕ_discrete j i) [
            | yes p ↦ own v (ap (λ (t : ℕ). (slot_at m.slots t).block) (sym p) ∙ e)
            | no ne ↦ o j lt ne u e
          ]))

  -- A failed write of a dirty slot leaves the blocks as shown, since the slot still holds its own.
  pub torn-Shows :
      (m : Mount D) (f : ℕ → List ℕ) (i : ℕ)
      → Shows laws m f
      → i < length m.slots
      → (slot_at m.slots i).valid ≡ true
      → (slot_at m.slots i).dirty ≡ true
      → let s = slot_at m.slots i in
        Shows laws (record m { disk = (disk.write s.block s.bytes m.disk).1 }) f
  torn-Shows m f i sh h v dirty =
      let s = slot_at m.slots i in
      let low = sh.below i h v in
      let full = sh.size i h in
      let other =
        λ (k : ℕ) (ne : k ≢ s.block). laws.write_other s.block s.bytes m.disk low full k ne in
      record {
        some_slot = sh.some_slot;
        size = sh.size;
        below = sh.below;
        cached = sh.cached;
        clean = λ j lt u c.
            other _ (λ e. dirty_and_clean (sh.once j i lt h u v e) c) ∙ sh.clean j lt u c;
        once = sh.once;
        rest = λ k o. other k (λ e. o i h v (sym e)) ∙ sh.rest k o;
      }
    where
      dirty_and_clean : {j : ℕ} → j ≡ i → (slot_at m.slots j).dirty ≡ false → ⊥
      dirty_and_clean {j} e c =
          let q : (slot_at m.slots i).dirty ≡ false =
            subst (λ k. (slot_at m.slots k).dirty ≡ false) e c in
          cc

  Absent-written :
      (m : Mount D) (b i : ℕ) (d : D)
      → i < length m.slots
      → (slot_at m.slots i).valid ≡ true
      → Absent m b
      → Absent
          (record {
            slots = set m.slots i (record (slot_at m.slots i) { dirty = false });
            disk = d;
          })
          b
  Absent-written m b i d h v absent j lt w e =
      let s : Slot = record (slot_at m.slots i) { dirty = false } in
      elim (slot_at-set m.slots i s h j) [
        | inl (same, q) ↦ absent i h v (sym (ap (λ (t : Slot). t.block) q) ∙ e)
        | inr (other, q) ↦
            absent j (omega (arith, length-set m.slots i s))
              (sym (ap (λ (t : Slot). t.valid) q) ∙ w) (sym (ap (λ (t : Slot). t.block) q) ∙ e)
      ]

  evict-Got :
      (m : Mount D) (f : ℕ → List ℕ) (b : ℕ)
      → b < laws.limit
      → Shows laws m f
      → Absent m b
      → Got f b (evict disk m b)
  unfolding evict
  evict-Got m f b fits sh absent =
      let s = slot_at m.slots 0 in
      let w = disk.write s.block s.bytes m.disk in
      let clean : Slot = record s { dirty = false } in
      elim (Bool-cases (s.valid && s.dirty)) [
        | inr spare ↦ rw spare (load-Got m f b 0 fits sh absent sh.some_slot (λ v. ground arith))
        | inl held ↦
            let v : s.valid ≡ true = ground arith in
            let y : s.dirty ≡ true = ground arith in
            rw held (elim (Bool-cases w.0) [
              | inr failed ↦ rw failed (torn-Shows m f 0 sh sh.some_slot v y)
              | inl ok ↦ rw ok (
                  load-Got (record { slots = set m.slots 0 clean; disk = w.1 }) f b 0 fits
                    (written-Shows m f 0 sh sh.some_slot v ok)
                    (Absent-written m b 0 w.1 sh.some_slot v absent)
                    (omega (arith, sh.some_slot, length-set m.slots 0 clean))
                    (λ u.
                      ap (λ (t : Slot). t.dirty) (slot_at-set_self m.slots 0 clean sh.some_slot)))
            ])
      ]

  pub block_cache_read-Got :
      (m : Mount D) (f : ℕ → List ℕ) (b : ℕ)
      → b < laws.limit
      → Shows laws m f
      → Got f b (block_cache_read disk m b)
  unfolding block_cache_read
  block_cache_read-Got m f b fits sh =
      hit (find_slot (holds b) m.slots) (find_slot-Finds (holds b) m.slots)
    where
      unused :
          Absent m b
          → (o : Option ℕ) → Finds (λ s. not s.dirty) m.slots o
          → Got f b (elim o [ some i ↦ load disk m b i | none ↦ evict disk m b ])
      unused absent none h = evict-Got m f b fits sh absent
      unused absent (some i) h =
          load-Got m f b i fits sh absent h.0 (λ v. let c = h.1 in ground arith)

      miss :
          Absent m b
          → (o : Option ℕ) → Finds (λ s. not s.valid) m.slots o
          → Got f b (elim o [
            | some i ↦ load disk m b i
            | none ↦ elim (find_slot (λ s. not s.dirty) m.slots) [
              | some i ↦ load disk m b i
              | none ↦ evict disk m b
            ]
          ])
      miss absent none h = unused absent _ (find_slot-Finds (λ s. not s.dirty) m.slots)
      miss absent (some i) h =
          load-Got m f b i fits sh absent h.0 (λ v. let c = h.1 in ground arith)

      hit :
          (o : Option ℕ)
          → Finds (holds b) m.slots o
          → Got f b (elim o [
            | some i ↦ (m, some i)
            | none ↦ elim (find_slot (λ s. not s.valid) m.slots) [
              | some i ↦ load disk m b i
              | none ↦ elim (find_slot (λ s. not s.dirty) m.slots) [
                | some i ↦ load disk m b i
                | none ↦ evict disk m b
              ]
            ]
          ])
      hit none h =
          miss (λ i lt v e. let n = h i lt in ground arith) _
            (find_slot-Finds (λ s. not s.valid) m.slots)
      hit (some i) h = let c = h.1 in (sh, h.0, ground arith, ground arith)

-- ===== src/BlockCache/Refine.antt =====
-- The cache of fs/smkfs/bcache.c against its contract, a map from block numbers to bytes:
-- `read_block` looks a block up, `write_block` updates one, and a flush brings the disk up to date.
use amit_x.Prelude.{
  ℕ, zero, suc, ◌+◌, ◌≤◌, ◌<◌, ◌≡◌, refl, ap, sym, ◌∙◌, subst, arith, ◌≢◌, Bool, true, false, ◌&&◌,
  List, [], ◌∷◌, map, Option, none, some, length, set, ◌==◌, if◌then◌else◌, Bool-cases, inl, inr,
  ℕ_discrete, length-set, ==_iff,
}
use amit_x.BlockCache.{
  Slot, Disk, Mount, slot_at, clear_slot, block_cache_write, block_cache_init, block_cache_flush,
  flush_slot, flush_from, read_block, write_block, overwrite,
}
use amit_x.Checksum.{smkfs_block_size}
use amit_x.BlockCache.Inv.{DiskLaws, Shows, Shows-set, slot_at-set, slot_at-set_self}
use amit_x.BlockCache.Load.{Got, written-Shows, torn-Shows, block_cache_read-Got}

-- The map after a write.
abbrev pub update : (ℕ → List ℕ) → ℕ → List ℕ → ℕ → List ℕ
update f b v k = if k == b then v else f k

set_twice : (slots : List Slot) (i : ℕ) (s t : Slot) → set (set slots i s) i t ≡ set slots i t
set_twice [] i s t = refl
set_twice (x ∷ slots) zero s t = refl
set_twice (x ∷ slots) (suc i) s t = ap (λ l. x ∷ l) (set_twice slots i s t)

module _ {D : Type 0} {disk : Disk D} (laws : DiskLaws disk) where
  -- The answers of the two calls, against the map.
  abbrev pub ReadSays : (ℕ → List ℕ) → ℕ → Mount D × Option (List ℕ) → Type 0
  ReadSays f b (m, none) = Shows laws m f
  ReadSays f b (m, some v) = Shows laws m f × (v ≡ f b)

  abbrev pub WriteSays : (ℕ → List ℕ) → ℕ → List ℕ → Mount D × Bool → Type 0
  WriteSays f b v (m, false) = Shows laws m f
  WriteSays f b v (m, true) = Shows laws m (update f b v)

  -- `read_block` on a mount that shows the map `f` gives the block's bytes by `f`, or fails; the
  -- mount shows `f` afterwards in both cases.
  pub read_block-ReadSays :
      (m : Mount D) (f : ℕ → List ℕ) (b : ℕ)
      → b < laws.limit
      → Shows laws m f
      → ReadSays f b (read_block disk m b)
  unfolding read_block
  read_block-ReadSays m f b fits sh = from _ (block_cache_read-Got laws m f b fits sh)
    where
      from :
          (r : Mount D × Option ℕ)
          → Got laws f b r
          → ReadSays f b (elim r.1 [
            | none ↦ (r.0, none)
            | some i ↦ (r.0, some ((slot_at (r.0).slots i).bytes))
          ])
      from (m', none) g = g
      from (m', some i) (g, lt, v, e) = (g, g.cached i lt v ∙ ap f e)

  overwrite-WriteSays :
      (f : ℕ → List ℕ) (b : ℕ) (v : List ℕ) (r : Mount D × Option ℕ)
      → b < laws.limit
      → length v ≡ smkfs_block_size
      → Got laws f b r
      → WriteSays f b v (overwrite v r)
  unfolding overwrite block_cache_write
  overwrite-WriteSays f b v (m, none) fits full g = g
  overwrite-WriteSays f b v (m, some i) fits full (g, lt, held, e) =
      let s : Slot = record (slot_at m.slots i) { bytes = v } in
      let t : Slot = record (slot_at m.slots i) { bytes = v; dirty = true; valid = true } in
      let at_i = slot_at-set_self m.slots i s lt in
      rw (at_i, held, set_twice m.slots i (record s { valid = true }) t)
        (Shows-set laws m f (update f b v) i t m.disk g lt full (λ w. omega (arith, e, fits))
          (λ w. ground arith) (λ w c. cc) (λ w j lj ne u q. ne (g.once j i lj lt u held q))
          (λ j lj ne u.
            let away : ((slot_at m.slots j).block == b) ≡ false = other j lj ne u in
            (rw away, refl))
          (λ k o own.
            let away : (k == b) ≡ false = ground (arith, own refl) in
            rw away (
              g.rest k (λ j lj u q. elim (ℕ_discrete j i) [
                | yes p ↦ own refl (ap (λ (x : ℕ). (slot_at m.slots x).block) (sym p) ∙ q)
                | no ne ↦ o j lj ne u q
              ]))))
    where
      other :
          (j : ℕ)
          → j < length m.slots
          → j ≢ i
          → (slot_at m.slots j).valid ≡ true
          → ((slot_at m.slots j).block == b) ≡ false
      other j lj ne u = elim (Bool-cases ((slot_at m.slots j).block == b)) [
        | inr n ↦ n
        | inl y ↦ absurd (ne (g.once j i lj lt u held ((==_iff _ _).0 y ∙ sym e)))
      ]

  -- `write_block` on a mount that shows the map `f` makes it show `f` with the block changed to the
  -- new bytes, or fails, and then the mount still shows `f`.
  pub write_block-WriteSays :
      (m : Mount D) (f : ℕ → List ℕ) (b : ℕ) (v : List ℕ)
      → b < laws.limit
      → length v ≡ smkfs_block_size
      → Shows laws m f
      → WriteSays f b v (write_block disk m b v)
  unfolding write_block
  write_block-WriteSays m f b v fits full sh =
      overwrite-WriteSays f b v _ fits full (block_cache_read-Got laws m f b fits sh)

  -- A slot that is not dirty.
  abbrev pub IsClean : Mount D → ℕ → Type 0
  IsClean m i = (slot_at m.slots i).valid ≡ true → (slot_at m.slots i).dirty ≡ false

  -- What the flush leaves after the first `i` slots.
  record Flushed (f : ℕ → List ℕ) (n i : ℕ) (r : Mount D × Bool) : Type 0 where
    shows : Shows laws r.0 f
    size : length (r.0).slots ≡ n
    done : r.1 ≡ true → (j : ℕ) → j < i → IsClean r.0 j

  flush_slot-Flushed :
      (f : ℕ → List ℕ) (n i : ℕ) (r : Mount D × Bool)
      → i < n
      → Flushed f n i r
      → Flushed f n (i + 1) (flush_slot disk i r)
  unfolding flush_slot
  flush_slot-Flushed f n i (m, status) lt fl =
      let s = slot_at m.slots i in
      let w = disk.write s.block s.bytes m.disk in
      let clean : Slot = record s { dirty = false } in
      let h : i < length m.slots = omega (arith, fl.size) in
      elim (Bool-cases (s.valid && s.dirty)) [
        | inr spare ↦ rw spare (record {
          shows = fl.shows;
          size = fl.size;
          done = λ e j l. elim (ℕ_discrete j i) [
            | yes p ↦ subst (IsClean m) (sym p) (λ v. ground arith)
            | no ne ↦ fl.done e j (omega arith)
          ];
        })
        | inl held ↦
            let v : s.valid ≡ true = ground arith in
            let y : s.dirty ≡ true = ground arith in
            rw held (elim (Bool-cases w.0) [
              | inr failed ↦ rw failed (record {
                shows = torn-Shows laws m f i fl.shows h v y;
                size = fl.size;
                done = λ e j l. cc;
              })
              | inl ok ↦ rw ok (record {
                shows = written-Shows laws m f i fl.shows h v ok;
                size = length-set m.slots i clean ∙ fl.size;
                done = λ e j l. elim (slot_at-set m.slots i clean h j) [
                  | inl (p, q) ↦ λ u. ap (λ (t : Slot). t.dirty) q
                  | inr (ne, q) ↦
                      subst (λ (t : Slot). t.valid ≡ true → t.dirty ≡ false) (sym q)
                        (fl.done e j (omega arith))
                ];
              })
            ])
      ]

  flush_from-Flushed :
      (f : ℕ → List ℕ) (n k i : ℕ) (r : Mount D × Bool)
      → i + k ≡ n
      → Flushed f n i r
      → Flushed f n n (flush_from disk k i r)
  unfolding flush_from
  flush_from-Flushed f n zero i r e fl =
      let q : i ≡ n = omega arith in subst (λ j. Flushed f n j r) q fl
  flush_from-Flushed f n (suc k) i r e fl =
      flush_from-Flushed f n k (i + 1) (flush_slot disk i r) (omega arith)
        (flush_slot-Flushed f n i r (omega arith) fl)

  -- `block_cache_flush` on a mount that shows the map `f` leaves one that shows `f`, also where the
  -- disk fails; if it succeeds, the disk itself holds `f` at every block.
  pub block_cache_flush_lem :
      (m : Mount D) (f : ℕ → List ℕ)
      → Shows laws m f
      → let (m', ok) = block_cache_flush disk m in
        Shows laws m' f × (ok ≡ true → (b : ℕ) → laws.contents m'.disk b ≡ f b)
  unfolding block_cache_flush
  block_cache_flush_lem m f sh = ends _ (
      flush_from-Flushed f (length m.slots) (length m.slots) 0 (m, true) (omega arith)
        (record { shows = sh; size = refl; done = λ e j l. absurd (omega arith) }))
    where
      found :
          (m' : Mount D)
          → Shows laws m' f
          → ((j : ℕ) → j < length m'.slots → IsClean m' j)
          → (b n : ℕ) → n ≤ length m'.slots
          → ((j : ℕ)
              → n ≤ j
              → j < length m'.slots
              → (slot_at m'.slots j).valid ≡ true
              → (slot_at m'.slots j).block ≢ b)
          → laws.contents m'.disk b ≡ f b
      found m' g clean b zero le o = g.rest b (λ j lt v. o j (omega arith) lt v)
      found m' g clean b (suc n) le o =
          elim (Bool-cases ((slot_at m'.slots n).valid && (slot_at m'.slots n).block == b)) [
            | inl y ↦
                let v : (slot_at m'.slots n).valid ≡ true = ground arith in
                let e : (slot_at m'.slots n).block ≡ b = ground arith in
                subst (λ k. laws.contents m'.disk k ≡ f k) e
                  (g.clean n (omega arith) v (clean n (omega arith) v))
            | inr z ↦ found m' g clean b n (omega arith) (λ j l lt v q. elim (ℕ_discrete j n) [
              | yes p ↦
                  let v' : (slot_at m'.slots n).valid ≡ true =
                    subst (λ k. (slot_at m'.slots k).valid ≡ true) p v in
                  let q' : (slot_at m'.slots n).block ≡ b =
                    subst (λ k. (slot_at m'.slots k).block ≡ b) p q in
                  ground arith
              | no ne ↦ o j (omega arith) lt v q
            ])
          ]

      ends :
          (r : Mount D × Bool)
          → Flushed f (length m.slots) (length m.slots) r
          → Shows laws r.0 f × (r.1 ≡ true → (b : ℕ) → laws.contents (r.0).disk b ≡ f b)
      ends r fl = (
        fl.shows,
        λ ok b.
            found r.0 fl.shows (λ j lt. fl.done ok j (omega (arith, fl.size))) b
              (length (r.0).slots) (omega arith) (λ j l lt. absurd (omega arith)),
      )

  length-map_clear : (slots : List Slot) → length (map clear_slot slots) ≡ length slots
  length-map_clear [] = refl
  length-map_clear (s ∷ slots) = ap suc (length-map_clear slots)

  cleared : (slots : List Slot) (i : ℕ) → (slot_at (map clear_slot slots) i).valid ≡ false
  cleared [] i = refl
  cleared (s ∷ slots) zero = refl
  cleared (s ∷ slots) (suc i) = cleared slots i

  kept :
      (slots : List Slot) (i : ℕ)
      → length (slot_at (map clear_slot slots) i).bytes ≡ length (slot_at slots i).bytes
  kept [] i = refl
  kept (s ∷ slots) zero = refl
  kept (s ∷ slots) (suc i) = kept slots i

  -- After `block_cache_init` a mount with at least one slot shows what is on the disk.
  pub block_cache_init-Shows :
      (m : Mount D)
      → 0 < length m.slots
      → ((i : ℕ) → i < length m.slots → length (slot_at m.slots i).bytes ≡ smkfs_block_size)
      → Shows laws (block_cache_init m) (laws.contents m.disk)
  unfolding block_cache_init
  block_cache_init-Shows m h full = record {
    some_slot = omega (arith, length-map_clear m.slots);
    size = λ i lt. kept m.slots i ∙ full i (omega (arith, lt, length-map_clear m.slots));
    below = λ i lt v. absurd (let n = cleared m.slots i in cc);
    cached = λ i lt v. let n = cleared m.slots i in cc;
    clean = λ i lt v. let n = cleared m.slots i in cc;
    once = λ i j li lj v. let n = cleared m.slots i in cc;
    rest = λ b o. refl;
  }

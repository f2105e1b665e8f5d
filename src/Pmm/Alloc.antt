-- ===== src/Pmm/Alloc.antt =====
-- Allocation and release in mm/pmm.c: what each call takes, gives back and leaves alone.
use amit_x.Prelude.{
  ℕ, zero, suc, ◌+◌, ◌*◌, ◌≤◌, ◌<◌, ◌≡◌, refl, subst, arith, true, false, ◌||◌, Option-cases, ◌⊎◌,
  inl, inr, none, some,
}
use amit_x.Bitmap.Count.{count-le}
use amit_x.Pmm.{
  Pmm, bitmap_test, mark, mark_from, reserve_from, find_first_free, find_first_free_n, alloc_frame,
  alloc_frames, frame_address,
}
use amit_x.Pmm.Inv.{
  IsValid, in_range, mark-IsValid, total-mark, test-mark, reserve_from-IsValid, test-reserve_from,
  total-reserve_from, mark_from-eq-reserve_from,
}
use amit_x.Pmm.Search.{
  AllUsed, AllFree, IsRun, LowestFree, LowestRun, find_first_free-LowestFree,
  find_first_free_n-LowestRun,
}

-- From `s` to `t` the `n` frames from `f`, all free, were taken, and nothing else changed.
pub record Took (s t : Pmm) (f n : ℕ) : Type 0 where
  pub free : AllFree s f (f + n)
  pub inside : f + n ≤ s.total_frames
  pub valid : IsValid t
  pub total : t.total_frames ≡ s.total_frames
  pub test : (j : ℕ) → bitmap_test t j ≡ (in_range f n j || bitmap_test s j)
  pub used : t.used_frames ≡ s.used_frames + n

used-mark :
    (s : Pmm) (f : ℕ) → IsValid s → f < s.total_frames → (mark s f).used_frames ≡ s.used_frames + 1
unfolding mark
used-mark s f v h = omega (arith, count-le s.bitmap s.total_frames)

used-mark_from :
    (n i : ℕ) (s : Pmm)
    → IsValid s
    → i + n ≤ s.total_frames
    → AllFree s i (i + n)
    → (mark_from n i s).used_frames ≡ s.used_frames + n
unfolding mark_from
used-mark_from zero i s v h free = omega arith
used-mark_from (suc n) i s v h free =
    let clear : bitmap_test s i ≡ false = free i (omega arith) (omega arith) in
    omega (
      arith,
      used-mark s i v (omega arith),
      used-mark_from n (i + 1) (mark s i) (mark-IsValid s i v (omega arith) clear)
          (omega (arith, total-mark s i))
          (λ j p q.
            rw (test-mark s i j v (omega arith))
              (ground (arith, free j (omega arith) (omega arith)))),
    )

-- Marking a free range inside the memory takes exactly that range.
pub mark_from-Took :
    (n i : ℕ) (s : Pmm)
    → IsValid s
    → i + n ≤ s.total_frames
    → AllFree s i (i + n)
    → Took s (mark_from n i s) i n
mark_from-Took n i s v h free = record {
  free = free;
  inside = h;
  valid = rw e (reserve_from-IsValid n i s v h);
  total = rw e (total-reserve_from n i s);
  test = λ j. rw e (test-reserve_from n i j s v h);
  used = used-mark_from n i s v h free;
}
  where
    e : mark_from n i s ≡ reserve_from n i s
    e = mark_from-eq-reserve_from n i s v h free

frame_address-eq : (s : Pmm) (f : ℕ) → IsValid s → f < s.total_frames → frame_address f ≡ f * 4096
frame_address-eq s f v h = omega arith

-- `pmm_alloc_frame`, on a state in which frame 0 is in use: either it takes the lowest free frame
-- and returns its address, which is not 0; or no frame is free, it returns 0 and changes nothing.
pub alloc_frame_lem :
    (s : Pmm)
    → IsValid s
    → bitmap_test s 0 ≡ true
    → let (t, a) = alloc_frame s in
      ((f : ℕ) × (a ≡ f * 4096) × (0 < f) × LowestFree s 0 (some f) × Took s t f 1)
      ⊎ ((a ≡ 0) × (t ≡ s) × AllUsed s 0 s.total_frames)
unfolding alloc_frame mark_from
alloc_frame_lem s v zero_used = elim (Option-cases (find_first_free s)) [
  | inl e ↦
      rw (e, alloc_frame)
        (inr (refl, refl, subst (LowestFree s 0) e (find_first_free-LowestFree s v)))
  | inr (f, e) ↦
      let low : LowestFree s 0 (some f) =
        subst (LowestFree s 0) e (find_first_free-LowestFree s v) in
      rw (e, alloc_frame)
        (inl (
          f,
          frame_address-eq s f v low.1,
          positive f low.2,
          low,
          mark_from-Took 1 f s v (omega arith)
              (λ j p q. let same : j ≡ f = omega arith in rw same low.2),
        ))
]
  where
    positive : (f : ℕ) → bitmap_test s f ≡ false → 0 < f
    positive zero h = cc
    positive (suc f) h = omega arith

-- `pmm_alloc_frames`, on a state in which frame 0 is in use: either it takes the lowest run of
-- `count` free frames and returns its address, which is not 0; or `count` is 0 or there is no such
-- run, it returns 0 and changes nothing.
pub alloc_frames_lem :
    (s : Pmm) (count : ℕ)
    → IsValid s
    → bitmap_test s 0 ≡ true
    → let (t, a) = alloc_frames s count in
      ((f : ℕ) × (a ≡ f * 4096)
        × (0 < f)
        × (0 < count)
        × LowestRun s 0 count (some f)
        × Took s t f count)
      ⊎ ((a ≡ 0) × (t ≡ s) × ((count ≡ 0) ⊎ ((f : ℕ) → ¬ IsRun s count f)))
unfolding alloc_frames
alloc_frames_lem s zero v zero_used = unfold find_first_free_n in inr (refl, refl, inl refl)
alloc_frames_lem s (suc n) v zero_used = elim (Option-cases (find_first_free_n s (suc n))) [
  | inl e ↦
      let low : LowestRun s 0 (suc n) none =
        subst (LowestRun s 0 (suc n)) e (find_first_free_n-LowestRun s (suc n) v (omega arith)) in
      rw (e, alloc_frames) (inr (refl, refl, inr (λ f. low f (omega arith))))
  | inr (f, e) ↦
      let low : LowestRun s 0 (suc n) (some f) =
        subst (LowestRun s 0 (suc n)) e (find_first_free_n-LowestRun s (suc n) v (omega arith)) in
      rw (e, alloc_frames)
        (inl (
          f,
          frame_address-eq s f v (omega arith),
          positive f (low.1.1 f (omega arith) (omega arith)),
          omega arith,
          low,
          mark_from-Took (suc n) f s v low.1.0 low.1.1,
        ))
]
  where
    positive : (f : ℕ) → bitmap_test s f ≡ false → 0 < f
    positive zero h = cc
    positive (suc f) h = omega arith

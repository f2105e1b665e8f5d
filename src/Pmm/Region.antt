-- ===== src/Pmm/Region.antt =====
-- The calls of mm/pmm.c on byte regions and on a fixed address.
use amit_x.Prelude.{
  ℕ, ◌+◌, ◌-◌, ◌*◌, ◌/◌, ◌^◌, ◌≤◌, ◌<◌, ◌≡◌, refl, arith, Bool, true, false, ◌&&◌, ◌||◌, ltb, ◌==◌,
  Bool-cases, ◌⊎◌, inl, inr, dec_lt, dec_le, ◌↔◌,
}
use amit_x.Prelude.Word.{u64}
use amit_x.Bitmap.Count.{count, count-le}
use amit_x.Pmm.{
  Pmm, bitmap_test, reserve_from, release_from, all_free, alloc_at, start_frame, end_frame, clip,
  reserve_region, unreserve_region, is_region_free, get_stats,
}
use amit_x.Pmm.Inv.{
  IsValid, in_range, reserve_from-IsValid, test-reserve_from, total-reserve_from, all_free_sound,
  all_free_complete,
}
use amit_x.Pmm.Search.{AllFree}
use amit_x.Pmm.Alloc.{Took, mark_from-Took}
use amit_x.Pmm.Release.{Freed, release_from-Freed}

-- The 4 KiB frame `j` shares a byte with the region of `len` bytes at `start`.
abbrev pub touches : ℕ → ℕ → ℕ → Bool
touches start len j = ltb start ((j + 1) * 4096) && ltb (j * 4096) (start + len)

-- `s` and `t` agree but for the frames that `chosen` picks, which are in use in `t`.
pub record Reserved (s t : Pmm) (chosen : ℕ → Bool) : Type 0 where
  pub valid : IsValid t
  pub total : t.total_frames ≡ s.total_frames
  pub test : (j : ℕ) → bitmap_test t j ≡ (chosen j || bitmap_test s j)

module _ (s : Pmm) (start len : ℕ) where
  rounds : ℕ
  rounds = clip (end_frame start len) s.total_frames - start_frame start

  -- The frames that the loops walk are those that the region touches, below the last frame.
  in_range-touches :
      (j : ℕ)
      → start + len + 4095 < 2 ^ 64
      → 0 < len
      → in_range (start_frame start) rounds j ≡ (touches start len j && ltb j s.total_frames)
  unfolding rounds
  in_range-touches j h p = ground arith

  module _ (v : IsValid s) where
    reserved :
        Reserved s (reserve_from rounds (start_frame start) s) (in_range (start_frame start) rounds)
    unfolding rounds
    reserved = elim (dec_le (start_frame start) (clip (end_frame start len) s.total_frames)) [
      | yes le ↦ inside (ground arith)
      | no gt ↦
          let e : rounds ≡ 0 = ground arith in
          rw e (unfold reserve_from in record { valid = v; total = refl; test = λ j. ground arith })
    ]
      where
        inside :
            start_frame start + rounds ≤ s.total_frames
            → Reserved s
                (reserve_from rounds (start_frame start) s)
                (in_range (start_frame start) rounds)
        inside h = record {
          valid = reserve_from-IsValid rounds (start_frame start) s v h;
          total = total-reserve_from rounds (start_frame start) s;
          test = λ j. test-reserve_from rounds (start_frame start) j s v h;
        }

    released :
        Freed s (release_from rounds (start_frame start) s) (in_range (start_frame start) rounds)
    unfolding rounds
    released = elim (dec_le (start_frame start) (clip (end_frame start len) s.total_frames)) [
      | yes le ↦ release_from-Freed rounds (start_frame start) s v (ground arith)
      | no gt ↦
          let e : rounds ≡ 0 = ground arith in
          rw e (unfold release_from in record { valid = v; total = refl; test = λ j. ground arith })
    ]

    pub reserve_region-IsValid : IsValid (reserve_region s start len)
    unfolding reserve_region rounds
    reserve_region-IsValid = elim (Bool-cases (len == 0)) [
      | inl e ↦ rw e v
      | inr e ↦ rw e reserved.valid
    ]

    pub unreserve_region-IsValid : IsValid (unreserve_region s start len)
    unfolding unreserve_region rounds
    unreserve_region-IsValid = elim (Bool-cases (len == 0)) [
      | inl e ↦ rw e v
      | inr e ↦ rw e released.valid
    ]

-- `pmm_reserve_region` puts into use exactly the frames of the memory that the region touches,
-- for a region that is not empty and ends a frame below 2^64.
pub reserve_region_lem :
    (s : Pmm) (start len : ℕ)
    → IsValid s
    → 0 < len
    → start + len + 4095 < 2 ^ 64
    → Reserved s (reserve_region s start len) (λ j. touches start len j && ltb j s.total_frames)
unfolding reserve_region rounds
reserve_region_lem s start len v pos h =
    let e : (len == 0) ≡ false = ground arith in
    let r = reserved s start len v in
    rw e (record {
      valid = r.valid;
      total = r.total;
      test = λ j. rw (← in_range-touches s start len j h pos) (r.test j);
    })

-- `pmm_unreserve_region` frees exactly the frames of the memory that the region touches, for a
-- region that is not empty and ends a frame below 2^64.
pub unreserve_region_lem :
    (s : Pmm) (start len : ℕ)
    → IsValid s
    → 0 < len
    → start + len + 4095 < 2 ^ 64
    → Freed s (unreserve_region s start len) (λ j. touches start len j && ltb j s.total_frames)
unfolding unreserve_region rounds
unreserve_region_lem s start len v pos h =
    let e : (len == 0) ≡ false = ground arith in
    let r = released s start len v in
    rw e (record {
      valid = r.valid;
      total = r.total;
      test = λ j. rw (← in_range-touches s start len j h pos) (r.test j);
    })

-- `pmm_is_region_free` answers 0 exactly when the region is not empty, lies inside the memory, and
-- every frame that it touches is free, for a region that ends a frame below 2^64.
pub is_region_free_iff :
    (s : Pmm) (start len : ℕ)
    → start + len + 4095 < 2 ^ 64
    → (is_region_free s start len ≡ true) ↔ (
        (0 < len)
        × (start + len ≤ s.total_frames * 4096)
        × ((j : ℕ) → touches start len j ≡ true → bitmap_test s j ≡ false))
unfolding is_region_free
is_region_free_iff s start len h = (there, back)
  where
    n : ℕ
    n = end_frame start len - start_frame start

    there :
        is_region_free s start len ≡ true
        → (0 < len)
          × (start + len ≤ s.total_frames * 4096)
          × ((j : ℕ) → touches start len j ≡ true → bitmap_test s j ≡ false)
    there e =
        let free : all_free n (start_frame start) s ≡ true = ground arith in
        (
          ground arith,
          ground arith,
          λ j t. all_free_sound n (start_frame start) j s free (ground arith) (ground arith),
        )

    back :
        (0 < len)
          × (start + len ≤ s.total_frames * 4096)
          × ((j : ℕ) → touches start len j ≡ true → bitmap_test s j ≡ false)
        → is_region_free s start len ≡ true
    back (pos, inside, free) =
        let e : (len == 0) ≡ false = ground arith in
        let f : ltb s.total_frames (end_frame start len) ≡ false = ground arith in
        rw (e, f) (all_free_complete n (start_frame start) s (λ j p q. free j (ground arith)))

-- `pmm_alloc_at`, on an address below 2^64 and a 32-bit count: it succeeds exactly when the frames
-- lie inside the memory and are all free, and then takes exactly those; if it fails, nothing changes.
pub alloc_at_lem :
    (s : Pmm) (addr n : ℕ)
    → IsValid s
    → addr < 2 ^ 64
    → n < 2 ^ 32
    → let (t, r) = alloc_at s addr n in
      let f = start_frame addr in
      ((r ≡ true) × Took s t f n)
      ⊎ ((r ≡ false) × (t ≡ s) × ¬ ((f + n ≤ s.total_frames) × AllFree s f (f + n)))
unfolding alloc_at
alloc_at_lem s addr n v ha hn = elim (dec_lt s.total_frames (addr / 4096 + n)) [
  | yes over ↦
      let e : ltb s.total_frames (u64 (addr / 4096 + n)) ≡ true = ground arith in
      rw e (inr (refl, refl, λ (p, q). omega arith))
  | no fits ↦
      let e : ltb s.total_frames (u64 (addr / 4096 + n)) ≡ false = ground arith in
      rw e (elim (Bool-cases (all_free n (addr / 4096) s)) [
        | inl free ↦ rw free (
            inl (
              refl,
              mark_from-Took n (addr / 4096) s v (omega arith)
                  (λ j p q. all_free_sound n (addr / 4096) j s free p q),
            ))
        | inr taken ↦
            rw taken
              (inr (refl, refl, λ (p, q). let f = all_free_complete n (addr / 4096) s q in cc))
      ])
]

-- `pmm_get_stats`: the free frames are those whose bit is clear, and the numbers add up.
pub get_stats_lem :
    (s : Pmm)
    → IsValid s
    → let st = get_stats s in
      (st.used_frames ≡ count s.bitmap st.total_frames)
      × (st.free_frames + st.used_frames ≡ st.total_frames)
unfolding get_stats
get_stats_lem s v = (v.counted, omega (arith, count-le s.bitmap s.total_frames))

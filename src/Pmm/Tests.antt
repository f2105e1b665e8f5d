-- ===== src/Pmm/Tests.antt =====
-- A memory of 16 frames, three of them in use, and the theorems at it.
use amit_x.Prelude.{
  ℕ, ◌+◌, ◌*◌, ◌^◌, ◌≤◌, ◌<◌, ◌≡◌, refl, arith, ◌≢◌, ◌⊎◌, ◌↔◌, true, false, ◌&&◌, [], ◌∷◌, some,
  ltb,
}
use amit_x.Bitmap.{test_in, test_bit}
use amit_x.Bitmap.Count.{count}
use amit_x.Pmm.{
  Pmm, bitmap_test, find_first_free_n, alloc_frame, alloc_frames, free_frames, alloc_at,
  reserve_region, unreserve_region, is_region_free, get_stats,
}
use amit_x.Pmm.Aligned.{alloc_aligned}
use amit_x.Pmm.Inv.{IsValid, in_range}
use amit_x.Pmm.Search.{AllUsed, AllFree, IsRun, LowestFree, LowestRun, find_first_free_n-LowestRun}
use amit_x.Pmm.Alloc.{Took, alloc_frame_lem, alloc_frames_lem}
use amit_x.Pmm.Release.{Freed, free_frames_lem, free_frames-alloc_frames}
use amit_x.Pmm.Region.{
  Reserved, touches, reserve_region_lem, unreserve_region_lem, is_region_free_iff, alloc_at_lem,
  get_stats_lem,
}
use amit_x.Pmm.Aligned.Correct.{AlignedResult, alloc_aligned_lem}
use amit_x.Pmm.History.{IsSafe, run, run-IsSafe, alloc_one, alloc_run, free_run, reserve}

-- Frames 0, 1 and 3 are in use.
abbrev small : Pmm
small = record { bitmap = 0x0b ∷ 0 ∷ []; bitmap_size = 2; total_frames = 16; used_frames = 3 }

small-IsValid : IsValid small
unfolding count test_in test_bit
small-IsValid = record { sized = refl; covers = omega arith; small = omega arith; counted = refl }

small_zero : bitmap_test small 0 ≡ true
unfolding test_in test_bit
small_zero = refl

alloc_frame_runs : (alloc_frame small).1 ≡ 2 * 4096
unfolding alloc_frame test_in test_bit
alloc_frame_runs = refl

alloc_frames_runs : (alloc_frames small 2).1 ≡ 4 * 4096
unfolding alloc_frames test_in test_bit
alloc_frames_runs = refl

alloc_aligned_runs : (alloc_aligned small 2 8).1 ≡ 8 * 4096
unfolding alloc_aligned test_in test_bit
alloc_aligned_runs = refl

find_first_free_n-LowestRun_example : LowestRun small 0 3 (find_first_free_n small 3)
find_first_free_n-LowestRun_example =
    find_first_free_n-LowestRun small 3 small-IsValid (omega arith)

alloc_frame_lem_example :
    let (t, a) = alloc_frame small in
    ((f : ℕ) × (a ≡ f * 4096) × (0 < f) × LowestFree small 0 (some f) × Took small t f 1)
    ⊎ ((a ≡ 0) × (t ≡ small) × AllUsed small 0 16)
alloc_frame_lem_example = alloc_frame_lem small small-IsValid small_zero

alloc_frames_lem_example :
    let (t, a) = alloc_frames small 2 in
    ((f : ℕ) × (a ≡ f * 4096) × (0 < f) × (0 < 2) × LowestRun small 0 2 (some f) × Took small t f 2)
    ⊎ ((a ≡ 0) × (t ≡ small) × ((◌≡◌ {A = ℕ} 2 0) ⊎ ((f : ℕ) → ¬ IsRun small 2 f)))
alloc_frames_lem_example = alloc_frames_lem small 2 small-IsValid small_zero

free_frames_lem_example :
    let t = free_frames small 12288 1 in
    ((◌≢◌ {A = ℕ} 12288 0) × (◌≢◌ {A = ℕ} 1 0) × (3 + 1 ≤ 16) × Freed small t (in_range 3 1))
    ⊎ ((t ≡ small) × ((◌≡◌ {A = ℕ} 12288 0) ⊎ (◌≡◌ {A = ℕ} 1 0) ⊎ (16 < 3 + 1)))
free_frames_lem_example = free_frames_lem small 12288 1 small-IsValid (omega arith) (omega arith)

two_allocated : (alloc_frames small 2).1 ≢ 0
two_allocated = omega (arith, alloc_frames_runs)

free_frames-alloc_frames_example :
    let (t, a) = alloc_frames small 2 in
    let u = free_frames t a 2 in
    IsValid u × ((j : ℕ) → bitmap_test u j ≡ bitmap_test small j) × (u.used_frames ≡ 3)
free_frames-alloc_frames_example =
    free_frames-alloc_frames small 2 small-IsValid small_zero (omega arith) two_allocated

reserve_region_lem_example :
    Reserved small (reserve_region small 20000 5000) (λ j. touches 20000 5000 j && ltb j 16)
reserve_region_lem_example =
    reserve_region_lem small 20000 5000 small-IsValid (omega arith) (omega arith)

unreserve_region_lem_example :
    Freed small (unreserve_region small 4096 1) (λ j. touches 4096 1 j && ltb j 16)
unreserve_region_lem_example =
    unreserve_region_lem small 4096 1 small-IsValid (omega arith) (omega arith)

is_region_free_iff_example : (is_region_free small 16384 8192 ≡ true) ↔ (
    (0 < 8192)
    × (16384 + 8192 ≤ 16 * 4096)
    × ((j : ℕ) → touches 16384 8192 j ≡ true → bitmap_test small j ≡ false))
is_region_free_iff_example = is_region_free_iff small 16384 8192 (omega arith)

alloc_at_lem_example :
    let (t, r) = alloc_at small 16384 2 in
    ((r ≡ true) × Took small t 4 2)
    ⊎ ((r ≡ false) × (t ≡ small) × ¬ ((4 + 2 ≤ 16) × AllFree small 4 (4 + 2)))
alloc_at_lem_example = alloc_at_lem small 16384 2 small-IsValid (omega arith) (omega arith)

get_stats_lem_example :
    let st = get_stats small in
    (st.used_frames ≡ count small.bitmap st.total_frames)
    × (st.free_frames + st.used_frames ≡ st.total_frames)
get_stats_lem_example = get_stats_lem small small-IsValid

alloc_aligned_lem_example :
    ((k : ℕ) × (8 ≡ 2 ^ k) × AlignedResult small 2 8 (alloc_aligned small 2 8))
    ⊎ (((k : ℕ) → 8 ≢ 2 ^ k) × (alloc_aligned small 2 8 ≡ (small, 0)))
alloc_aligned_lem_example =
    alloc_aligned_lem small 2 8 small-IsValid small_zero (omega arith) (omega arith) (omega arith)
      (omega arith)

run-IsSafe_example :
    IsSafe (run small (alloc_run 3 ∷ reserve 4096 100 ∷ free_run 16384 2 ∷ alloc_one ∷ []))
run-IsSafe_example =
    run-IsSafe small (alloc_run 3 ∷ reserve 4096 100 ∷ free_run 16384 2 ∷ alloc_one ∷ [])
      (small-IsValid, small_zero) (omega arith)

-- ===== src/Pmm/Aligned.antt =====
-- `pmm_alloc_aligned` of mm/pmm.c: a run of frames at a multiple of a power of two. The outer loop
-- runs on fuel; each round moves `i` past at least one frame, so `total_frames + 1` rounds suffice.
pub mod Correct
use amit_x.Prelude.{
  ℕ, zero, suc, ◌+◌, ◌-◌, bit_and, Bool, true, false, ◌||◌, not, Option, none, some, ltb, leb, ◌==◌,
  if◌then◌else◌,
}
use amit_x.Prelude.Word.{u64}
use amit_x.Bitmap.Align.{align_down}
use amit_x.Pmm.{Pmm, bitmap_test, mark_from, alloc_frames, frame_address}

-- `while (i < total_frames && bitmap_test(i)) i++;`, `n` rounds before the last frame.
unfoldable pub skip_used : ℕ → ℕ → Pmm → ℕ
skip_used zero i s = i
skip_used (suc n) i s = let rest = skip_used n (i + 1) s in if bitmap_test s i then rest else i

-- The first `j < n` for which frame `aligned + j` is in use.
unfoldable pub first_used : ℕ → ℕ → ℕ → Pmm → Option ℕ
first_used zero j aligned s = none
first_used (suc n) j aligned s =
    let rest = first_used n (j + 1) aligned s in
    if bitmap_test s (aligned + j) then some j else rest

abbrev pub align_up : ℕ → ℕ → ℕ
align_up i align_frames = align_down (u64 (i + align_frames - 1)) align_frames

-- The outer loop: the frame that it stops at, if it finds one.
unfoldable pub find_aligned : ℕ → ℕ → ℕ → ℕ → Pmm → Option ℕ
unfolding skip_used first_used align_down
find_aligned zero i count align_frames s = none
find_aligned (suc fuel) i count align_frames s =
    let i' = skip_used (s.total_frames - i) i s in
    let aligned = align_up i' align_frames in
    if leb s.total_frames i'
    then none
    else if ltb s.total_frames (u64 (aligned + count))
    then none
    else elim (first_used count 0 aligned s) [
      | none ↦ some aligned
      | some j ↦ find_aligned fuel (aligned + j + 1) count align_frames s
    ]

unfoldable pub alloc_aligned : Pmm → ℕ → ℕ → Pmm × ℕ
unfolding find_aligned mark_from
alloc_aligned s count align_frames =
    if count == 0 || align_frames == 0
    then (s, 0)
    else if not (bit_and align_frames (align_frames - 1) == 0)
    then (s, 0)
    else if align_frames == 1
    then alloc_frames s count
    else elim (find_aligned (s.total_frames + 1) 0 count align_frames s) [
      | none ↦ (s, 0)
      | some aligned ↦ (mark_from count aligned s, frame_address aligned)
    ]

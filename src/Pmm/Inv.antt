-- ===== src/Pmm/Inv.antt =====
-- The invariant of mm/pmm.c's static variables, and what the loops over a range of frames do.
use amit_x.Prelude.{
  ℕ, zero, suc, ◌+◌, ◌*◌, ◌^◌, ◌≤◌, ◌<◌, ◌≡◌, refl, ap, ◌∙◌, arith, Bool, true, false, not, ◌&&◌,
  ◌||◌, length, ltb, leb, ◌==◌, if◌then◌else◌, Bool-cases, inl, inr,
}
use amit_x.Bitmap.{test_in}
use amit_x.Bitmap.Laws.{test_in-set_in, test_in-clear_in, length-set_in, length-clear_in}
use amit_x.Bitmap.Count.{count, count-le, count-set_in, count-clear_in, count_lt}
use amit_x.Pmm.{Pmm, bitmap_test, mark, unmark, reserve_from, release_from, mark_from, all_free}

-- The bitmap covers every frame, and `used_frames` counts the bits that are set.
pub record IsValid (s : Pmm) : Type 0 where
  pub sized : s.bitmap_size ≡ length s.bitmap
  pub covers : s.total_frames ≤ 8 * s.bitmap_size
  pub small : s.total_frames ≤ 2 ^ 52
  pub counted : s.used_frames ≡ count s.bitmap s.total_frames

pub test-mark :
    (s : Pmm) (f j : ℕ)
    → IsValid s
    → f < s.total_frames
    → bitmap_test (mark s f) j ≡ ((f == j) || bitmap_test s j)
unfolding mark
test-mark s f j v h = test_in-set_in s.bitmap f j (omega arith)

pub test-unmark :
    (s : Pmm) (f j : ℕ)
    → IsValid s
    → f < s.total_frames
    → bitmap_test (unmark s f) j ≡ (not (f == j) && bitmap_test s j)
unfolding unmark
test-unmark s f j v h = test_in-clear_in s.bitmap f j (omega arith)

pub mark-IsValid :
    (s : Pmm) (f : ℕ)
    → IsValid s
    → f < s.total_frames
    → bitmap_test s f ≡ false
    → IsValid (mark s f)
unfolding mark
mark-IsValid s f v h c = record {
  sized = omega (arith, length-set_in s.bitmap f);
  covers = omega arith;
  small = omega arith;
  counted = omega (
    arith,
    count-set_in s.bitmap f (omega arith) s.total_frames h c,
    count_lt s.bitmap s.total_frames f h c,
  );
}

pub unmark-IsValid :
    (s : Pmm) (f : ℕ)
    → IsValid s
    → f < s.total_frames
    → bitmap_test s f ≡ true
    → IsValid (unmark s f)
unfolding unmark
unmark-IsValid s f v h c = record {
  sized = omega (arith, length-clear_in s.bitmap f);
  covers = omega arith;
  small = omega arith;
  counted = omega (
    arith,
    count-clear_in s.bitmap f (omega arith) s.total_frames h c,
    count-le s.bitmap s.total_frames,
  );
}

pub total-mark : (s : Pmm) (f : ℕ) → (mark s f).total_frames ≡ s.total_frames
unfolding mark
total-mark s f = refl

pub total-unmark : (s : Pmm) (f : ℕ) → (unmark s f).total_frames ≡ s.total_frames
unfolding unmark
total-unmark s f = refl

-- Frame `j` is one of the `n` frames from `i`.
abbrev pub in_range : ℕ → ℕ → ℕ → Bool
in_range i n j = leb i j && ltb j (i + n)

-- One round of the reserving loop.
abbrev reserve_one : Pmm → ℕ → Pmm
reserve_one s i = if bitmap_test s i then s else mark s i

abbrev release_one : Pmm → ℕ → Pmm
release_one s i = if bitmap_test s i then unmark s i else s

module _ (s : Pmm) (i : ℕ) (v : IsValid s) (h : i < s.total_frames) where
  reserve_one-IsValid : IsValid (reserve_one s i)
  reserve_one-IsValid = elim (Bool-cases (bitmap_test s i)) [
    | inl e ↦ rw e v
    | inr e ↦ rw e (mark-IsValid s i v h e)
  ]

  release_one-IsValid : IsValid (release_one s i)
  release_one-IsValid = elim (Bool-cases (bitmap_test s i)) [
    | inl e ↦ rw e (unmark-IsValid s i v h e)
    | inr e ↦ rw e v
  ]

  test-reserve_one : (j : ℕ) → bitmap_test (reserve_one s i) j ≡ ((i == j) || bitmap_test s j)
  test-reserve_one j = elim (Bool-cases (bitmap_test s i)) [
    | inl e ↦ rw e (ground (arith, ap (test_in s.bitmap) {x = i} {y = j}))
    | inr e ↦ rw e (test-mark s i j v h)
  ]

  test-release_one : (j : ℕ) → bitmap_test (release_one s i) j ≡ (not (i == j) && bitmap_test s j)
  test-release_one j = elim (Bool-cases (bitmap_test s i)) [
    | inl e ↦ rw e (test-unmark s i j v h)
    | inr e ↦ rw e (ground (arith, ap (test_in s.bitmap) {x = i} {y = j}))
  ]

total-reserve_one : (s : Pmm) (i : ℕ) → (reserve_one s i).total_frames ≡ s.total_frames
total-reserve_one s i = ground (arith, total-mark s i)

total-release_one : (s : Pmm) (i : ℕ) → (release_one s i).total_frames ≡ s.total_frames
total-release_one s i = ground (arith, total-unmark s i)

pub total-reserve_from : (n i : ℕ) (s : Pmm) → (reserve_from n i s).total_frames ≡ s.total_frames
unfolding reserve_from
total-reserve_from zero i s = refl
total-reserve_from (suc n) i s =
    total-reserve_from n (i + 1) (reserve_one s i) ∙ total-reserve_one s i

pub total-release_from : (n i : ℕ) (s : Pmm) → (release_from n i s).total_frames ≡ s.total_frames
unfolding release_from
total-release_from zero i s = refl
total-release_from (suc n) i s =
    total-release_from n (i + 1) (release_one s i) ∙ total-release_one s i

pub reserve_from-IsValid :
    (n i : ℕ) (s : Pmm) → IsValid s → i + n ≤ s.total_frames → IsValid (reserve_from n i s)
unfolding reserve_from
reserve_from-IsValid zero i s v h = v
reserve_from-IsValid (suc n) i s v h =
    reserve_from-IsValid n (i + 1) (reserve_one s i) (reserve_one-IsValid s i v (omega arith))
      (omega (arith, total-reserve_one s i))

pub release_from-IsValid :
    (n i : ℕ) (s : Pmm) → IsValid s → i + n ≤ s.total_frames → IsValid (release_from n i s)
unfolding release_from
release_from-IsValid zero i s v h = v
release_from-IsValid (suc n) i s v h =
    release_from-IsValid n (i + 1) (release_one s i) (release_one-IsValid s i v (omega arith))
      (omega (arith, total-release_one s i))

-- The reserving loop sets the range and leaves every other frame.
pub test-reserve_from :
    (n i j : ℕ) (s : Pmm)
    → IsValid s
    → i + n ≤ s.total_frames
    → bitmap_test (reserve_from n i s) j ≡ (in_range i n j || bitmap_test s j)
unfolding reserve_from
test-reserve_from zero i j s v h = ground arith
test-reserve_from (suc n) i j s v h =
    rw
      (
        test-reserve_from n (i + 1) j (reserve_one s i) (reserve_one-IsValid s i v (omega arith))
            (omega (arith, total-reserve_one s i)),
        test-reserve_one s i v (omega arith) j,
      )
      (ground arith)

-- The releasing loop clears the range and leaves every other frame.
pub test-release_from :
    (n i j : ℕ) (s : Pmm)
    → IsValid s
    → i + n ≤ s.total_frames
    → bitmap_test (release_from n i s) j ≡ (not (in_range i n j) && bitmap_test s j)
unfolding release_from
test-release_from zero i j s v h = ground arith
test-release_from (suc n) i j s v h =
    rw
      (
        test-release_from n (i + 1) j (release_one s i) (release_one-IsValid s i v (omega arith))
            (omega (arith, total-release_one s i)),
        test-release_one s i v (omega arith) j,
      )
      (ground arith)

-- On free frames the unconditional loop does what the reserving loop does.
pub mark_from-eq-reserve_from :
    (n i : ℕ) (s : Pmm)
    → IsValid s
    → i + n ≤ s.total_frames
    → ((j : ℕ) → i ≤ j → j < i + n → bitmap_test s j ≡ false)
    → mark_from n i s ≡ reserve_from n i s
unfolding mark_from reserve_from
mark_from-eq-reserve_from zero i s v h free = refl
mark_from-eq-reserve_from (suc n) i s v h free = rw (free i (omega arith) (omega arith)) (
    mark_from-eq-reserve_from n (i + 1) (mark s i)
      (mark-IsValid s i v (omega arith) (free i (omega arith) (omega arith)))
      (omega (arith, total-mark s i))
      (λ j p q.
        rw (test-mark s i j v (omega arith)) (ground (arith, free j (omega arith) (omega arith)))))

-- The test loop says whether the whole range is free.
pub all_free_sound :
    (n i j : ℕ) (s : Pmm) → all_free n i s ≡ true → i ≤ j → j < i + n → bitmap_test s j ≡ false
unfolding all_free
all_free_sound zero i j s e p q = absurd (omega arith)
all_free_sound (suc n) i j s e p q =
    ground (arith, ap (test_in s.bitmap) {x = i} {y = j}, all_free_sound n (i + 1) j s)

pub all_free_complete :
    (n i : ℕ) (s : Pmm)
    → ((j : ℕ) → i ≤ j → j < i + n → bitmap_test s j ≡ false)
    → all_free n i s ≡ true
unfolding all_free
all_free_complete zero i s free = refl
all_free_complete (suc n) i s free = ground (
  arith,
  free i (omega arith) (omega arith),
  all_free_complete n (i + 1) s (λ j p q. free j (omega arith) (omega arith)),
)

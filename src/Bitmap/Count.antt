-- ===== src/Bitmap/Count.antt =====
-- The number of bits set below a bound, and how one write changes it.
use amit_x.Prelude.{
  ℕ, zero, suc, ◌+◌, ◌*◌, ◌≤◌, ◌<◌, ◌≡◌, refl, ap, arith, true, false, List, length, if◌then◌else◌,
  ℕ_discrete,
}
use amit_x.Bitmap.{set_in, clear_in, test_in}
use amit_x.Bitmap.Laws.{test_in-set_in, test_in-clear_in}

unfoldable pub count : List ℕ → ℕ → ℕ
count bm zero = 0
count bm (suc n) = (if test_in bm n then 1 else 0) + count bm n

pub count-le : (bm : List ℕ) (n : ℕ) → count bm n ≤ n
unfolding count
count-le bm zero = omega arith
count-le bm (suc n) = ground (arith, count-le bm n)

module _ (bm : List ℕ) (i : ℕ) (h : i < 8 * length bm) where
  count-set_in_above : (n : ℕ) → n ≤ i → count (set_in bm i) n ≡ count bm n
  unfolding count
  count-set_in_above zero p = refl
  count-set_in_above (suc n) p = ground (arith, test_in-set_in bm i n h, count-set_in_above n)

  -- Setting a clear bit adds one to the count.
  pub count-set_in : (n : ℕ) → i < n → test_in bm i ≡ false → count (set_in bm i) n ≡ count bm n + 1
  unfolding count
  count-set_in zero p c = absurd (omega arith)
  count-set_in (suc n) p c = elim (ℕ_discrete i n) [
    | yes e ↦
        ground
          (arith, test_in-set_in bm i n h, count-set_in_above n (omega arith), ap (test_in bm) e)
    | no ne ↦ ground (arith, test_in-set_in bm i n h, count-set_in n (omega arith) c)
  ]

  count-clear_in_above : (n : ℕ) → n ≤ i → count (clear_in bm i) n ≡ count bm n
  unfolding count
  count-clear_in_above zero p = refl
  count-clear_in_above (suc n) p = ground (arith, test_in-clear_in bm i n h, count-clear_in_above n)

  -- Clearing a set bit takes one from the count.
  pub count-clear_in :
      (n : ℕ) → i < n → test_in bm i ≡ true → count (clear_in bm i) n + 1 ≡ count bm n
  unfolding count
  count-clear_in zero p c = absurd (omega arith)
  count-clear_in (suc n) p c = elim (ℕ_discrete i n) [
    | yes e ↦
        ground (
          arith,
          test_in-clear_in bm i n h,
          count-clear_in_above n (omega arith),
          ap (test_in bm) e,
        )
    | no ne ↦ ground (arith, test_in-clear_in bm i n h, count-clear_in n (omega arith) c)
  ]

-- If not all bits below `n` are set, one of them is clear.
pub count_full : (bm : List ℕ) (n : ℕ) → ((j : ℕ) → j < n → test_in bm j ≡ true) → count bm n ≡ n
unfolding count
count_full bm zero all = refl
count_full bm (suc n) all =
    ground (arith, all n (omega arith), count_full bm n (λ j p. all j (omega arith)))

-- A clear bit below `n` keeps the count under `n`.
pub count_lt : (bm : List ℕ) (n j : ℕ) → j < n → test_in bm j ≡ false → count bm n < n
unfolding count
count_lt bm zero j p c = absurd (omega arith)
count_lt bm (suc n) j p c = elim (ℕ_discrete j n) [
  | yes e ↦ ground (arith, count-le bm n, ap (test_in bm) e)
  | no ne ↦ ground (arith, count_lt bm n j (omega arith) c)
]

-- The count depends on the bits only.
pub count_ext :
    (bm bm' : List ℕ) (n : ℕ)
    → ((j : ℕ) → j < n → test_in bm j ≡ test_in bm' j)
    → count bm n ≡ count bm' n
unfolding count
count_ext bm bm' zero same = refl
count_ext bm bm' (suc n) same =
    rw (same n (omega arith), count_ext bm bm' n (λ j p. same j (omega arith)))

-- ===== src/Pmm/History.antt =====
-- Any history of calls of mm/pmm.c: the bookkeeping stays right and frame 0 stays reserved.
use amit_x.Prelude.{
  ℕ, ◌+◌, ◌/◌, ◌%◌, ◌^◌, ◌≤◌, ◌<◌, ◌≡◌, ap, arith, Bool, true, false, Bool-cases, inl, inr, List,
  [], ◌∷◌, ℕ_discrete, dec_lt,
}
use amit_x.Pmm.{
  Pmm, bitmap_test, unmark, start_frame, reserve_region, unreserve_region, alloc_frame,
  alloc_frames, free_frame, free_frames, alloc_at,
}
use amit_x.Pmm.Inv.{IsValid, in_range, test-unmark, unmark-IsValid}
use amit_x.Pmm.Alloc.{Took, alloc_frame_lem, alloc_frames_lem}
use amit_x.Pmm.Release.{Freed, free_frames_lem}
use amit_x.Pmm.Region.{reserve_region_lem, unreserve_region_lem, alloc_at_lem}
use amit_x.Pmm.Aligned.{alloc_aligned}
use amit_x.Pmm.Aligned.Correct.{alloc_aligned_lem}

pub data Call : Type 0 where
  alloc_one : Call
  alloc_run : ℕ → Call
  alloc_multiple : ℕ → ℕ → Call
  alloc_fixed : ℕ → ℕ → Call
  free_one : ℕ → Call
  free_run : ℕ → ℕ → Call
  reserve : ℕ → ℕ → Call
  unreserve : ℕ → ℕ → Call

unfoldable pub step : Pmm → Call → Pmm
step s alloc_one = (alloc_frame s).0
step s (alloc_run n) = (alloc_frames s n).0
step s (alloc_multiple n a) = (alloc_aligned s n a).0
step s (alloc_fixed a n) = (alloc_at s a n).0
step s (free_one a) = free_frame s a
step s (free_run a n) = free_frames s a n
step s (reserve a n) = reserve_region s a n
step s (unreserve a n) = unreserve_region s a n

unfoldable pub run : Pmm → List Call → Pmm
unfolding step
run s [] = s
run s (c ∷ cs) = run (step s c) cs

-- The arguments fit their C types, freed addresses are multiples of the frame size, and no region
-- that is given back reaches into frame 0.
abbrev pub IsProper : Call → Type 0
IsProper alloc_one = Unit {0}
IsProper (alloc_run n) = n < 2 ^ 32
IsProper (alloc_multiple n a) = (0 < n) × (n < 2 ^ 32) × (0 < a) × (a < 2 ^ 32)
IsProper (alloc_fixed a n) = (a < 2 ^ 64) × (n < 2 ^ 32)
IsProper (free_one a) = (a < 2 ^ 64) × (a % 4096 ≡ 0)
IsProper (free_run a n) = (a < 2 ^ 64) × (n < 2 ^ 32) × (a % 4096 ≡ 0)
IsProper (reserve a n) = (0 < n) × (a + n + 4095 < 2 ^ 64)
IsProper (unreserve a n) = (0 < n) × (a + n + 4095 < 2 ^ 64) × (4096 ≤ a)

abbrev pub AllProper : List Call → Type 0
AllProper [] = Unit {0}
AllProper (c ∷ cs) = IsProper c × AllProper cs

-- The bookkeeping is right and frame 0 is in use.
abbrev pub IsSafe : Pmm → Type 0
IsSafe s = IsValid s × (bitmap_test s 0 ≡ true)

Took-IsSafe : {s t : Pmm} (f n : ℕ) → bitmap_test s 0 ≡ true → Took s t f n → IsSafe t
Took-IsSafe f n z took = (took.valid, rw (took.test 0, z) (ground arith))

same-IsSafe : {s t : Pmm} → IsSafe s → t ≡ s → IsSafe t
same-IsSafe h e = rw e h

Freed-IsSafe :
    {s t : Pmm} (chosen : ℕ → Bool)
    → bitmap_test s 0 ≡ true
    → chosen 0 ≡ false
    → Freed s t chosen
    → IsSafe t
Freed-IsSafe chosen z e freed = (freed.valid, rw (freed.test 0, z, e))

free_one-IsSafe : (s : Pmm) (a : ℕ) → IsSafe s → a % 4096 ≡ 0 → IsSafe (free_frame s a)
unfolding free_frame
free_one-IsSafe s a (v, z) m = elim (ℕ_discrete a 0) [
  | yes e ↦ rw e (v, z)
  | no ne ↦ elim (dec_lt (a / 4096) s.total_frames) [
    | no out ↦ let e : free_frame s a ≡ s = unfold free_frame in ground arith in rw e (v, z)
    | yes h ↦ elim (Bool-cases (bitmap_test s (a / 4096))) [
      | inr clear ↦ let e : free_frame s a ≡ s = unfold free_frame in ground arith in rw e (v, z)
      | inl used ↦
          let e : free_frame s a ≡ unmark s (a / 4096) = unfold free_frame in ground arith in
          rw e (
            unmark-IsValid s (a / 4096) v h used,
            rw (test-unmark s (a / 4096) 0 v h, z) (ground arith),
          )
    ]
  ]
]

-- One proper call keeps the state safe.
step-IsSafe : (s : Pmm) (c : Call) → IsSafe s → IsProper c → IsSafe (step s c)
unfolding step
step-IsSafe s alloc_one (v, z) p = elim (alloc_frame_lem s v z) [
  | inl (f, e, pos, low, took) ↦ Took-IsSafe f 1 z took
  | inr (e, same, full) ↦ same-IsSafe (v, z) same
]
step-IsSafe s (alloc_run n) (v, z) p = elim (alloc_frames_lem s n v z) [
  | inl (f, e, pos, q, low, took) ↦ Took-IsSafe f n z took
  | inr (e, same, why) ↦ same-IsSafe (v, z) same
]
step-IsSafe s (alloc_multiple n a) (v, z) (p, q, r, t) =
    elim (alloc_aligned_lem s n a v z p q r t) [
      | inl (k, e, inl (f, x, y, low, took)) ↦ Took-IsSafe f n z took
      | inl (k, e, inr (x, same, why)) ↦ same-IsSafe (v, z) same
      | inr (odd, e) ↦ same-IsSafe (v, z) (ap (λ r. r.0) e)
    ]
step-IsSafe s (alloc_fixed a n) (v, z) (p, q) = elim (alloc_at_lem s a n v p q) [
  | inl (e, took) ↦ Took-IsSafe (start_frame a) n z took
  | inr (e, same, why) ↦ same-IsSafe (v, z) same
]
step-IsSafe s (free_one a) h (p, q) = free_one-IsSafe s a h q
step-IsSafe s (free_run a n) (v, z) (p, q, r) = elim (free_frames_lem s a n v p q) [
  | inl (x, y, fits, freed) ↦ Freed-IsSafe (in_range (start_frame a) n) z (ground arith) freed
  | inr (same, why) ↦ same-IsSafe (v, z) same
]
step-IsSafe s (reserve a n) (v, z) (p, q) =
    let r = reserve_region_lem s a n v p q in (r.valid, rw (r.test 0, z) (ground arith))
step-IsSafe s (unreserve a n) (v, z) (p, q, r) =
    Freed-IsSafe _ z (ground arith) (unreserve_region_lem s a n v p q)

-- After any history of proper calls from a state in which frame 0 is in use and the count is right,
-- `used_frames` still counts the bits that are set and frame 0 is still in use.
pub run-IsSafe : (s : Pmm) (cs : List Call) → IsSafe s → AllProper cs → IsSafe (run s cs)
unfolding run
run-IsSafe s [] h p = h
run-IsSafe s (c ∷ cs) h p = run-IsSafe (step s c) cs (step-IsSafe s c h p.0) p.1

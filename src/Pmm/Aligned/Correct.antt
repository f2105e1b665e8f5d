-- ===== src/Pmm/Aligned/Correct.antt =====
-- `pmm_alloc_aligned` finds the lowest aligned run of free frames, and fails only if there is none.
use native.Mathlib.Nat.{mod-one, pow-le-pow_right, one-le-pow, div-add-mod}
use amit_x.Prelude.{
  ℕ, zero, suc, ◌+◌, ◌-◌, ◌*◌, ◌/◌, ◌%◌, ◌^◌, ◌≤◌, ◌<◌, bit_and, ◌≡◌, refl, arith, ◌≢◌, true, false,
  ltb, leb, ◌==◌, Bool-cases, ◌⊎◌, inl, inr, Option, none, some, ℕ_discrete, dec_lt,
}
use amit_x.Prelude.Word.{u64}
use amit_x.Bitmap.Align.{align_up_lem, power_of_two, bit_and-pow_pred}
use amit_x.Pmm.{Pmm, bitmap_test, mark_from, alloc_frames, frame_address}
use amit_x.Pmm.Inv.{IsValid}
use amit_x.Pmm.Search.{AllUsed, AllFree, IsRun, IsRun-avoids}
use amit_x.Pmm.Alloc.{Took, mark_from-Took, alloc_frames_lem}
use amit_x.Pmm.Aligned.{skip_used, first_used, align_up, find_aligned, alloc_aligned}

-- Frames `f` to `f + count` are free, and `f` is a multiple of `a`.
abbrev pub IsAlignedRun : Pmm → ℕ → ℕ → ℕ → Type 0
IsAlignedRun s count a f = IsRun s count f × (f % a ≡ 0)

abbrev pub LowestAligned : Pmm → ℕ → ℕ → ℕ → Option ℕ → Type 0
LowestAligned s lo count a none = (g : ℕ) → lo ≤ g → ¬ IsAlignedRun s count a g
LowestAligned s lo count a (some f) =
    (lo ≤ f) × IsAlignedRun s count a f × ((g : ℕ) → lo ≤ g → g < f → ¬ IsAlignedRun s count a g)

skip_used_lem :
    (n i : ℕ) (s : Pmm)
    → let k = skip_used n i s in
      (i ≤ k) × (k ≤ i + n) × AllUsed s i k × (k < i + n → bitmap_test s k ≡ false)
unfolding skip_used
skip_used_lem zero i s =
    (omega arith, omega arith, λ j p q. absurd (omega arith), λ p. absurd (omega arith))
skip_used_lem (suc n) i s = elim (Bool-cases (bitmap_test s i)) [
  | inl used ↦
      let (a, b, c, d) = skip_used_lem n (i + 1) s in
      rw used (
        omega arith,
        omega arith,
        λ j p q. elim (ℕ_discrete j i) [ yes e ↦ rw e used | no ne ↦ c j (omega arith) q ],
        λ p. d (omega arith),
      )
  | inr free ↦ rw free (omega arith, omega arith, λ j p q. absurd (omega arith), λ p. free)
]

FirstUsed : Pmm → ℕ → ℕ → ℕ → Option ℕ → Type 0
FirstUsed s al j n none = AllFree s (al + j) (al + j + n)
FirstUsed s al j n (some k) = (j ≤ k) × (k < j + n) × (bitmap_test s (al + k) ≡ true)

first_used_lem : (n j al : ℕ) (s : Pmm) → FirstUsed s al j n (first_used n j al s)
unfolding first_used FirstUsed
first_used_lem zero j al s = λ k p q. absurd (omega arith)
first_used_lem (suc n) j al s = elim (Bool-cases (bitmap_test s (al + j))) [
  | inl used ↦ rw used (omega arith, omega arith, used)
  | inr free ↦ rw free (widen (first_used n (j + 1) al s) (first_used_lem n (j + 1) al s) free)
]
  where
    widen :
        (o : Option ℕ)
        → FirstUsed s al (j + 1) n o
        → bitmap_test s (al + j) ≡ false
        → FirstUsed s al j (suc n) o
    widen none h free = λ k p q. elim (ℕ_discrete k (al + j)) [
      | yes e ↦ rw e free
      | no ne ↦ h k (omega arith) (omega arith)
    ]
    widen (some m) h free = (omega arith, omega arith, h.2)

-- Multiples of `a` below `x + a` that are at least `x` are one.
multiple_gap : (a y g : ℕ) → 0 < a → y % a ≡ 0 → g % a ≡ 0 → g < y → g + a ≤ y
multiple_gap a y g pos p q lt = elim (dec_lt (g / a) (y / a)) [
  | yes l ↦ grind (arith, div-add-mod y a, div-add-mod g a)
  | no n ↦ absurd (grind (arith, div-add-mod y a, div-add-mod g a))
]

LowestAligned-skip :
    (s : Pmm) (lo mid count a : ℕ) (o : Option ℕ)
    → lo ≤ mid
    → ((g : ℕ) → lo ≤ g → g < mid → ¬ IsAlignedRun s count a g)
    → LowestAligned s mid count a o
    → LowestAligned s lo count a o
LowestAligned-skip s lo mid count a none h p q =
    λ g b r. elim (dec_lt g mid) [ yes l ↦ p g b l r | no n ↦ q g (omega arith) r ]
LowestAligned-skip s lo mid count a (some f) h p (b, r, q) = (
  omega arith,
  r,
  λ g c d r'. elim (dec_lt g mid) [ yes l ↦ p g c l r' | no n ↦ q g (omega arith) d r' ],
)

module _ (s : Pmm) (v : IsValid s) (count k : ℕ) (pos : 0 < count) (hc : count < 2 ^ 32)
    (hk : k < 64) (ha : 2 ^ k < 2 ^ 32) where
  -- No aligned run starts between `i` and the aligned frame that the loop tries from `i`.
  none_before :
      (i m g : ℕ)
      → AllUsed s i m
      → m ≤ s.total_frames
      → i ≤ g
      → g < align_up m (2 ^ k)
      → ¬ IsAlignedRun s count (2 ^ k) g
  none_before i m g used le p q (run, mult) =
      let (x, y, z) = align_up_lem m k hk (omega arith) in
      elim (dec_lt g m) [
        | yes l ↦ IsRun-avoids s count g g (used g p l) (omega arith) (omega arith) run
        | no n ↦ omega (
          arith,
          multiple_gap (2 ^ k) (align_up m (2 ^ k)) g (one-le-pow k 2 (omega arith)) z mult q,
        )
      ]

  -- The test of the `count` frames, over the answer `o` of the rounds after a used one.
  tried :
      (al : ℕ) (r : Option ℕ) (o : ℕ → Option ℕ)
      → al % 2 ^ k ≡ 0
      → al + count ≤ s.total_frames
      → FirstUsed s al 0 count r
      → ((j : ℕ) → j < count → LowestAligned s (al + j + 1) count (2 ^ k) (o j))
      → LowestAligned s al count (2 ^ k) (elim r [ none ↦ some al | some j ↦ o j ])
  unfolding FirstUsed
  tried al none o mult fits h rest = (
    omega arith,
    ((fits, λ j p q. h j (omega arith) (omega arith)), mult),
    λ g p q. absurd (omega arith),
  )
  tried al (some j) o mult fits (x, y, z) rest =
      LowestAligned-skip s al (al + j + 1) count (2 ^ k) (o j) (omega arith)
        (λ g p q (run, m). IsRun-avoids s count g (al + j) z (omega arith) (omega arith) run)
        (rest j (omega arith))

  find_aligned_lem :
      (fuel i : ℕ)
      → s.total_frames < fuel + i
      → i ≤ s.total_frames
      → LowestAligned s i count (2 ^ k) (find_aligned fuel i count (2 ^ k) s)
  unfolding find_aligned
  find_aligned_lem zero i h b = λ g p ((q, free), r). absurd (omega arith)
  find_aligned_lem (suc fuel) i h b =
      let m = skip_used (s.total_frames - i) i s in
      let al = align_up m (2 ^ k) in
      let (x, y, used, free) = skip_used_lem (s.total_frames - i) i s in
      let le : m ≤ s.total_frames = omega arith in
      let (lo, hi, mult) = align_up_lem m k hk (omega arith) in
      elim (Bool-cases (leb s.total_frames m)) [
        | inl over ↦ rw over (λ g p (run, q).
            IsRun-avoids s count g g (used g p (ground arith)) (omega arith) (omega arith) run)
        | inr within ↦ rw within (
            LowestAligned-skip s i al count (2 ^ k) _ (omega arith)
              (λ g p q. none_before i m g used le p q)
              (elim (Bool-cases (ltb s.total_frames (u64 (al + count)))) [
                | inl over ↦ rw over (λ g p (run, q). absurd (ground arith))
                | inr fits ↦ rw fits (
                    tried al (first_used count 0 al s)
                      (λ j. find_aligned fuel (al + j + 1) count (2 ^ k) s) mult (ground arith)
                      (first_used_lem count 0 al s)
                      (λ j p. find_aligned_lem fuel (al + j + 1) (omega arith) (ground arith)))
              ]))
      ]

small_power : (k : ℕ) → 2 ^ k < 2 ^ 32 → k < 64
small_power k h = elim (dec_lt k 64) [
  | yes l ↦ l
  | no n ↦
      absurd (omega (arith, pow-le-pow_right {n = 2} (omega arith) {i = 64} {j = k} (omega arith)))
]

-- What `pmm_alloc_aligned` answers for the alignment `a`.
abbrev pub AlignedResult : Pmm → ℕ → ℕ → Pmm × ℕ → Type 0
AlignedResult s count a (t, addr) =
    ((f : ℕ) × (addr ≡ f * 4096) × (0 < f) × LowestAligned s 0 count a (some f) × Took s t f count)
    ⊎ ((addr ≡ 0) × (t ≡ s) × ((f : ℕ) → ¬ IsAlignedRun s count a f))

AlignedResult-one :
    (s : Pmm) (count : ℕ)
    → IsValid s
    → bitmap_test s 0 ≡ true
    → 0 < count
    → AlignedResult s count 1 (alloc_frames s count)
AlignedResult-one s count v z pos = elim (alloc_frames_lem s count v z) [
  | inl (f, e, p, q, low, took) ↦
      inl (f, e, p, (omega arith, (low.1, mod-one f), λ g x y (r, m). low.2 g x y r), took)
  | inr (e, same, inl none_asked) ↦ absurd (omega arith)
  | inr (e, same, inr no_run) ↦ inr (e, same, λ f (r, m). no_run f r)
]

AlignedResult-find :
    (s : Pmm) (count a : ℕ) (o : Option ℕ)
    → IsValid s
    → bitmap_test s 0 ≡ true
    → 0 < count
    → LowestAligned s 0 count a o
    → AlignedResult s count a (elim o [
      | none ↦ (s, 0)
      | some aligned ↦ (mark_from count aligned s, frame_address aligned)
    ])
AlignedResult-find s count a none v z pos low = inr (refl, refl, λ f. low f (omega arith))
AlignedResult-find s count a (some zero) v z pos low =
    let e : bitmap_test s 0 ≡ false = low.1.0.1 0 (omega arith) (omega arith) in cc
AlignedResult-find s count a (some (suc f)) v z pos low = inl (
  suc f,
  omega (arith, low.1.0.0, v.small),
  omega arith,
  low,
  mark_from-Took count (suc f) s v low.1.0.0 low.1.0.1,
)

-- `pmm_alloc_aligned`, for a count and an alignment that are 32-bit and not 0, on a state in which
-- frame 0 is in use: if the alignment is not a power of two it fails; otherwise it takes the lowest
-- run of `count` free frames that starts at a multiple of the alignment, or fails since there is
-- none. On failure it returns 0 and changes nothing.
pub alloc_aligned_lem :
    (s : Pmm) (count a : ℕ)
    → IsValid s
    → bitmap_test s 0 ≡ true
    → 0 < count
    → count < 2 ^ 32
    → 0 < a
    → a < 2 ^ 32
    → ((k : ℕ) × (a ≡ 2 ^ k) × AlignedResult s count a (alloc_aligned s count a))
      ⊎ (((k : ℕ) → a ≢ 2 ^ k) × (alloc_aligned s count a ≡ (s, 0)))
unfolding alloc_aligned
alloc_aligned_lem s count a v z pos hc ha hb =
    let e : (count == 0) ≡ false = ground arith in
    let f : (a == 0) ≡ false = ground arith in
    elim (ℕ_discrete (bit_and a (a - 1)) 0) [
      | yes pow ↦
          let (k, q) = power_of_two a ha pow in
          let g : (bit_and a (a - 1) == 0) ≡ true = ground arith in
          inl (
            k,
            q,
            rw (e, f, g)
                (elim (ℕ_discrete a 1) [
                  | yes one ↦ rw one (AlignedResult-one s count v z pos)
                  | no many ↦
                      let h : (a == 1) ≡ false = ground arith in
                      rw h (
                        AlignedResult-find s count a _ v z pos (
                          rw q (
                            find_aligned_lem s v count k pos hc (small_power k (omega arith))
                              (omega arith) (s.total_frames + 1) 0 (omega arith) (omega arith))))
                ]),
          )
      | no other ↦
          let g : (bit_and a (a - 1) == 0) ≡ false = ground arith in
          inr (λ k q. other (rw q (bit_and-pow_pred k)), rw (e, f, g))
    ]

-- ===== src/Pmm/Release.antt =====
-- Releasing frames in mm/pmm.c, allocation at a fixed address, and the region calls.
use amit_x.Prelude.{
  ℕ, ◌+◌, ◌*◌, ◌/◌, ◌^◌, ◌≤◌, ◌<◌, ◌≡◌, refl, ap, ◌∙◌, subst, arith, ◌≢◌, Bool, true, not, ◌&&◌,
  Bool-cases, ◌⊎◌, inl, inr, ℕ_discrete, dec_lt,
}
use amit_x.Bitmap.Count.{count, count_ext}
use amit_x.Pmm.{Pmm, bitmap_test, release_from, alloc_frames, free_frames, start_frame}
use amit_x.Pmm.Inv.{IsValid, in_range, release_from-IsValid, test-release_from, total-release_from}
use amit_x.Pmm.Alloc.{Took, alloc_frames_lem}

-- From `s` to `t` the frames that `chosen` picks became free, and nothing else changed.
pub record Freed (s t : Pmm) (chosen : ℕ → Bool) : Type 0 where
  pub valid : IsValid t
  pub total : t.total_frames ≡ s.total_frames
  pub test : (j : ℕ) → bitmap_test t j ≡ (not (chosen j) && bitmap_test s j)

pub release_from-Freed :
    (n i : ℕ) (s : Pmm)
    → IsValid s
    → i + n ≤ s.total_frames
    → Freed s (release_from n i s) (in_range i n)
release_from-Freed n i s v h = record {
  valid = release_from-IsValid n i s v h;
  total = total-release_from n i s;
  test = λ j. test-release_from n i j s v h;
}

-- `pmm_free_frames` on an address below 2^64 and a 32-bit count: it ignores address 0, the count 0
-- and a range past the last frame, and otherwise frees exactly the `count` frames.
pub free_frames_lem :
    (s : Pmm) (a n : ℕ)
    → IsValid s
    → a < 2 ^ 64
    → n < 2 ^ 32
    → let t = free_frames s a n in
      let f = start_frame a in
      ((a ≢ 0) × (n ≢ 0) × (f + n ≤ s.total_frames) × Freed s t (in_range f n))
      ⊎ ((t ≡ s) × ((a ≡ 0) ⊎ (n ≡ 0) ⊎ (s.total_frames < f + n)))
unfolding free_frames
free_frames_lem s a n v ha hn = elim (ℕ_discrete a 0) [
  | yes e ↦ inr (rw e refl, inl e)
  | no ne ↦ elim (ℕ_discrete n 0) [
    | yes e ↦ inr (ground arith, inr (inl e))
    | no pos ↦ elim (dec_lt s.total_frames (a / 4096 + n)) [
      | yes over ↦ inr (ground arith, inr (inr over))
      | no fits ↦
          let e : free_frames s a n ≡ release_from n (a / 4096) s =
            unfold free_frames in ground arith in
          inl (ne, pos, omega arith, rw e (release_from-Freed n (a / 4096) s v (omega arith)))
    ]
  ]
]

-- Freeing what `pmm_alloc_frames` returned restores every frame's state and the used count.
pub free_frames-alloc_frames :
    (s : Pmm) (n : ℕ)
    → IsValid s
    → bitmap_test s 0 ≡ true
    → n < 2 ^ 32
    → (alloc_frames s n).1 ≢ 0
    → let (t, a) = alloc_frames s n in
      let u = free_frames t a n in
      IsValid u × ((j : ℕ) → bitmap_test u j ≡ bitmap_test s j) × (u.used_frames ≡ s.used_frames)
free_frames-alloc_frames s n v zero_used hn ne = elim (alloc_frames_lem s n v zero_used) [
  | inl (f, e, pos, npos, low, took) ↦ restore f e npos took
  | inr (e, same, rest) ↦ absurd (ne e)
]
  where
    t : Pmm
    t = (alloc_frames s n).0

    a : ℕ
    a = (alloc_frames s n).1

    back :
        (f : ℕ)
        → Took s t f n
        → (u : Pmm) → Freed t u (in_range f n)
        → (j : ℕ) → bitmap_test u j ≡ bitmap_test s j
    back f took u freed j =
        rw (freed.test j, took.test j)
          (elim (Bool-cases (in_range f n j)) [
            | inl e ↦ rw (e, took.free j (ground arith) (ground arith))
            | inr e ↦ rw e
          ])

    finish :
        (f : ℕ)
        → Took s t f n
        → (u : Pmm) → Freed t u (in_range f n)
        → IsValid u
          × ((j : ℕ) → bitmap_test u j ≡ bitmap_test s j)
          × (u.used_frames ≡ s.used_frames)
    finish f took u freed = (
      freed.valid,
      back f took u freed,
      omega (
        arith,
        freed.valid.counted,
        v.counted,
        freed.total,
        took.total,
        count_ext u.bitmap s.bitmap s.total_frames (λ j p. back f took u freed j),
        ap (count u.bitmap) (freed.total ∙ took.total),
      ),
    )

    restore :
        (f : ℕ)
        → a ≡ f * 4096
        → 0 < n
        → Took s t f n
        → IsValid (free_frames t a n)
          × ((j : ℕ) → bitmap_test (free_frames t a n) j ≡ bitmap_test s j)
          × ((free_frames t a n).used_frames ≡ s.used_frames)
    restore f e pos took =
        elim (free_frames_lem t a n took.valid (omega (arith, took.inside, v.small)) hn) [
          | inl (x, y, z, freed) ↦
              let q : start_frame a ≡ f = omega arith in
              finish f took _ (subst (λ g. Freed t (free_frames t a n) (in_range g n)) q freed)
          | inr (x, inl y) ↦ absurd (ne y)
          | inr (x, inr (inl y)) ↦ absurd (omega arith)
          | inr (x, inr (inr y)) ↦ absurd (omega (arith, took.inside, took.total))
        ]

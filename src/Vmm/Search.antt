-- ===== src/Vmm/Search.antt =====
-- The search of mm/vmm.c for free pages, and its loops over a range of bits.
use amit_x.Prelude.{
  ℕ, zero, suc, ◌+◌, ◌*◌, ◌≤◌, ◌<◌, ◌≡◌, refl, ◌∙◌, arith, Bool, true, false, not, ◌&&◌, ◌||◌, List,
  length, ltb, leb, ◌==◌, if◌then◌else◌, Bool-cases, inl, inr, Option, none, some, dec_lt,
}
use amit_x.Bitmap.{test_in, set_in, clear_in}
use amit_x.Bitmap.Laws.{test_in-set_in, test_in-clear_in, length-set_in, length-clear_in}
use amit_x.Vmm.{free_run, find_free_run, set_run, clear_run, window_pages}

-- The pages from `lo` up to `hi` are free.
abbrev pub PagesFree : List ℕ → ℕ → ℕ → Type 0
PagesFree bm lo hi = (j : ℕ) → lo ≤ j → j < hi → test_in bm j ≡ false

-- `count` pages from `g` on are free and lie in the window of `total` pages.
abbrev pub FreeRun : List ℕ → ℕ → ℕ → ℕ → Type 0
FreeRun bm total count g = (g + count ≤ total) × PagesFree bm g (g + count)

-- The answer is the lowest such run from `lo` on, or there is none.
abbrev pub Lowest : List ℕ → ℕ → ℕ → ℕ → Option ℕ → Type 0
Lowest bm total lo count none = (g : ℕ) → lo ≤ g → ¬ FreeRun bm total count g
Lowest bm total lo count (some g) =
    (lo ≤ g) × FreeRun bm total count g × ((k : ℕ) → lo ≤ k → k < g → ¬ FreeRun bm total count k)

Lowest-past :
    (bm : List ℕ) (total lo i count : ℕ) (o : Option ℕ)
    → test_in bm i ≡ true
    → lo ≤ i
    → i < lo + count
    → Lowest bm total (i + 1) count o
    → Lowest bm total lo count o
Lowest-past bm total lo i count none used p q h = λ g a (r, free). elim (dec_lt i g) [
  | yes l ↦ h g (omega arith) (r, free)
  | no n ↦ let f : test_in bm i ≡ false = free i (omega arith) (omega arith) in cc
]
Lowest-past bm total lo i count (some g) used p q (a, r, h) = (
  omega arith,
  r,
  λ k b c (s, free). elim (dec_lt i k) [
    | yes l ↦ h k (omega arith) c (s, free)
    | no n ↦ let f : test_in bm i ≡ false = free i (omega arith) (omega arith) in cc
  ],
)

-- In the loop the `len` pages from `lo` up to `i` are free, and fewer than `count`.
free_run-Lowest :
    (n i start len lo count total : ℕ) (bm : List ℕ)
    → i + n ≡ total
    → (if len == 0 then i else start) ≡ lo
    → lo + len ≡ i
    → len < count
    → PagesFree bm lo i
    → Lowest bm total lo count (free_run n i start len count bm)
unfolding free_run
free_run-Lowest zero i start len lo count total bm e at le lt free = λ g p (r, f). omega arith
free_run-Lowest (suc n) i start len lo count total bm e at le lt free =
    elim (Bool-cases (test_in bm i)) [
      | inl used ↦ rw used (
          Lowest-past bm total lo i count _ used (omega arith) (omega arith) (
            free_run-Lowest n (i + 1) start 0 (i + 1) count total bm (omega arith) (ground arith)
              (omega arith) (omega arith) (λ j p q. absurd (omega arith))))
      | inr clear ↦
          rw (clear, at)
            (elim (Bool-cases (leb count (len + 1))) [
              | inl enough ↦ rw enough (
                omega arith,
                (ground arith, λ j p q. wider clear j p (ground arith)),
                λ k p q. absurd (omega arith),
              )
              | inr short ↦ rw short (
                  free_run-Lowest n (i + 1) lo (len + 1) lo count total bm (omega arith)
                    (ground arith) (omega arith) (ground arith) (wider clear))
            ])
    ]
  where
    wider : test_in bm i ≡ false → PagesFree bm lo (i + 1)
    wider clear j p q = elim (dec_lt j i) [
      | yes l ↦ free j p l
      | no g ↦ let same : j ≡ i = omega arith in rw same clear
    ]

pub find_free_run-Lowest :
    (bm : List ℕ) (count : ℕ) → 0 < count → Lowest bm window_pages 0 count (find_free_run bm count)
unfolding find_free_run
find_free_run-Lowest bm count pos =
    free_run-Lowest window_pages 0 0 0 0 count window_pages bm (omega arith) refl (omega arith) pos
      (λ j p q. absurd (omega arith))

abbrev pub in_run : ℕ → ℕ → ℕ → Bool
in_run i n j = leb i j && ltb j (i + n)

pub test_in-set_run :
    (n i j : ℕ) (bm : List ℕ)
    → i + n ≤ 8 * length bm
    → test_in (set_run n i bm) j ≡ (in_run i n j || test_in bm j)
unfolding set_run
test_in-set_run zero i j bm h = ground arith
test_in-set_run (suc n) i j bm h =
    rw
      (
        test_in-set_run n (i + 1) j (set_in bm i) (omega (arith, length-set_in bm i)),
        test_in-set_in bm i j (omega arith),
      )
      (ground arith)

pub test_in-clear_run :
    (n i j : ℕ) (bm : List ℕ)
    → i + n ≤ 8 * length bm
    → test_in (clear_run n i bm) j ≡ (not (in_run i n j) && test_in bm j)
unfolding clear_run
test_in-clear_run zero i j bm h = ground arith
test_in-clear_run (suc n) i j bm h =
    rw
      (
        test_in-clear_run n (i + 1) j (clear_in bm i) (omega (arith, length-clear_in bm i)),
        test_in-clear_in bm i j (omega arith),
      )
      (ground arith)

pub length-set_run : (n i : ℕ) (bm : List ℕ) → length (set_run n i bm) ≡ length bm
unfolding set_run
length-set_run zero i bm = refl
length-set_run (suc n) i bm = length-set_run n (i + 1) (set_in bm i) ∙ length-set_in bm i

pub length-clear_run : (n i : ℕ) (bm : List ℕ) → length (clear_run n i bm) ≡ length bm
unfolding clear_run
length-clear_run zero i bm = refl
length-clear_run (suc n) i bm = length-clear_run n (i + 1) (clear_in bm i) ∙ length-clear_in bm i

-- ===== src/Pmm/Search.antt =====
-- The two searches of mm/pmm.c: `find_first_free` finds the lowest free frame, and
-- `find_first_free_n` the lowest run of free frames.
use amit_x.Prelude.{
  ℕ, zero, suc, ◌+◌, ◌-◌, ◌*◌, ◌/◌, ◌%◌, ◌≤◌, ◌<◌, ◌≡◌, refl, arith, Bool, true, false, get_or, leb,
  ◌==◌, if◌then◌else◌, Bool-cases, inl, inr, Option, none, some, ==_iff, ℕ_discrete, dec_lt,
}
use amit_x.Prelude.Order.{table_holds, table_holds_entry}
use amit_x.Bitmap.{test_in, test_bit}
use amit_x.Pmm.{
  Pmm, bitmap_test, Scan, found, past_end, byte_done, scan_byte, scan_bytes, find_first_free,
  find_run, find_first_free_n,
}
use amit_x.Pmm.Inv.{IsValid}

-- All frames from `lo` up to `hi` are in use.
abbrev pub AllUsed : Pmm → ℕ → ℕ → Type 0
AllUsed s lo hi = (j : ℕ) → lo ≤ j → j < hi → bitmap_test s j ≡ true

abbrev pub AllFree : Pmm → ℕ → ℕ → Type 0
AllFree s lo hi = (j : ℕ) → lo ≤ j → j < hi → bitmap_test s j ≡ false

-- The answer is the lowest free frame from `lo` on, or there is none.
abbrev pub LowestFree : Pmm → ℕ → Option ℕ → Type 0
LowestFree s lo none = AllUsed s lo s.total_frames
LowestFree s lo (some f) =
    (lo ≤ f) × (f < s.total_frames) × (bitmap_test s f ≡ false) × AllUsed s lo f

AllUsed-join : (s : Pmm) (lo mid hi : ℕ) → AllUsed s lo mid → AllUsed s mid hi → AllUsed s lo hi
AllUsed-join s lo mid hi p q j h k = elim (dec_lt j mid) [
  | yes l ↦ p j h l
  | no g ↦ q j (omega arith) k
]

LowestFree-join :
    (s : Pmm) (lo mid : ℕ) (o : Option ℕ)
    → lo ≤ mid
    → AllUsed s lo mid
    → LowestFree s mid o
    → LowestFree s lo o
LowestFree-join s lo mid none h p q = AllUsed-join s lo mid s.total_frames p q
LowestFree-join s lo mid (some f) h p q =
    (omega (arith, q.0), q.1, q.2, AllUsed-join s lo mid f p q.3)

full_byte_table : table_holds (λ j. test_bit 0xFF j) 0 8 ≡ true
unfolding table_holds test_bit
full_byte_table = refl

frame_bit :
    (s : Pmm) (i j : ℕ) → j < 8 → bitmap_test s (i * 8 + j) ≡ test_bit (get_or s.bitmap i 0) j
unfolding test_in
frame_bit s i j h =
    let q : (i * 8 + j) / 8 ≡ i = omega arith in
    let r : (i * 8 + j) % 8 ≡ j = omega arith in rw (q, r)

full_byte : (s : Pmm) (i : ℕ) → get_or s.bitmap i 0 ≡ 0xFF → AllUsed s (i * 8) ((i + 1) * 8)
full_byte s i e j p q =
    let k : j ≡ i * 8 + (j - i * 8) = omega arith in
    rw (k, frame_bit s i (j - i * 8) (omega arith), e)
      (table_holds_entry test_bit' 0 8 (j - i * 8) full_byte_table (omega arith) (omega arith))
  where
    test_bit' : ℕ → Bool
    test_bit' j = test_bit 0xFF j

-- What the inner loop's end says of the frames from `i * 8 + j` on.
abbrev ScanSays : Pmm → ℕ → ℕ → Scan → Type 0
ScanSays s i j (found f) = LowestFree s (i * 8 + j) (some f)
ScanSays s i j past_end = AllUsed s (i * 8 + j) s.total_frames
ScanSays s i j byte_done = AllUsed s (i * 8 + j) ((i + 1) * 8)

ScanSays-step :
    (s : Pmm) (i j : ℕ) (r : Scan)
    → AllUsed s (i * 8 + j) (i * 8 + j + 1)
    → ScanSays s i (j + 1) r
    → ScanSays s i j r
ScanSays-step s i j (found f) u h =
    LowestFree-join s (i * 8 + j) (i * 8 + (j + 1)) (some f) (omega arith)
      (λ k p q. u k p (omega arith)) h
ScanSays-step s i j past_end u h =
    AllUsed-join s _ (i * 8 + (j + 1)) _ (λ k p q. u k p (omega arith)) h
ScanSays-step s i j byte_done u h =
    AllUsed-join s _ (i * 8 + (j + 1)) _ (λ k p q. u k p (omega arith)) h

scan_byte-ScanSays :
    (n j i : ℕ) (s : Pmm)
    → j + n ≡ 8
    → ScanSays s i j (scan_byte n j (get_or s.bitmap i 0) i s.total_frames)
unfolding scan_byte
scan_byte-ScanSays zero j i s e = λ k p q. absurd (omega arith)
scan_byte-ScanSays (suc n) j i s e = elim (Bool-cases (leb s.total_frames (i * 8 + j))) [
  | inl out ↦ rw out (λ k p q. absurd (ground arith))
  | inr within ↦ rw within (elim (Bool-cases (test_bit (get_or s.bitmap i 0) j)) [
    | inl used ↦ rw used (
        ScanSays-step s i j _
          (λ k p q.
            let e' : k ≡ i * 8 + j = omega arith in rw (e', frame_bit s i j (omega arith)) used)
          (scan_byte-ScanSays n (j + 1) i s (omega arith)))
    | inr free ↦ rw free (
      omega arith,
      ground arith,
      rw (frame_bit s i j (omega arith)) free,
      λ k p q. absurd (omega arith),
    )
  ])
]

ScanSays-LowestFree :
    (s : Pmm) (i : ℕ) (o : Option ℕ) (r : Scan)
    → LowestFree s ((i + 1) * 8) o
    → ScanSays s i 0 r
    → LowestFree s (i * 8) (elim r [ found f ↦ some f | past_end ↦ none | byte_done ↦ o ])
ScanSays-LowestFree s i o (found f) rest h =
    LowestFree-join s (i * 8) (i * 8 + 0) (some f) (omega arith) (λ k p q. absurd (omega arith)) h
ScanSays-LowestFree s i o past_end rest h = λ k p q. h k (omega arith) q
ScanSays-LowestFree s i o byte_done rest h =
    LowestFree-join s (i * 8) ((i + 1) * 8) o (omega arith) (λ k p q. h k (omega arith) q) rest

scan_bytes-LowestFree :
    (n i : ℕ) (s : Pmm)
    → i + n ≡ s.bitmap_size
    → IsValid s
    → LowestFree s (i * 8) (scan_bytes n i s)
unfolding scan_bytes
scan_bytes-LowestFree zero i s e v = λ k p q. absurd (omega arith)
scan_bytes-LowestFree (suc n) i s e v =
    let rest = scan_bytes-LowestFree n (i + 1) s (omega arith) v in
    elim (Bool-cases (get_or s.bitmap i 0 == 0xFF)) [
      | inl full ↦ rw full (
          LowestFree-join s (i * 8) ((i + 1) * 8) _ (omega arith)
            (full_byte s i ((==_iff _ _).0 full)) rest)
      | inr part ↦ rw part (ScanSays-LowestFree s i _ _ rest (scan_byte-ScanSays 8 0 i s refl))
    ]

-- `find_first_free` finds the lowest free frame, and fails only if every frame is in use.
pub find_first_free-LowestFree : (s : Pmm) → IsValid s → LowestFree s 0 (find_first_free s)
unfolding find_first_free
find_first_free-LowestFree s v = scan_bytes-LowestFree s.bitmap_size 0 s (omega arith) v

-- Frames `f` to `f + count` are free, and no such run starts lower, from `lo` on.
abbrev pub IsRun : Pmm → ℕ → ℕ → Type 0
IsRun s count f = (f + count ≤ s.total_frames) × AllFree s f (f + count)

abbrev pub LowestRun : Pmm → ℕ → ℕ → Option ℕ → Type 0
LowestRun s lo count none = (g : ℕ) → lo ≤ g → ¬ IsRun s count g
LowestRun s lo count (some f) =
    (lo ≤ f) × IsRun s count f × ((g : ℕ) → lo ≤ g → g < f → ¬ IsRun s count g)

-- A run cannot hold a used frame.
pub IsRun-avoids :
    (s : Pmm) (count g i : ℕ) → bitmap_test s i ≡ true → g ≤ i → i < g + count → ¬ IsRun s count g
IsRun-avoids s count g i used p q (h, free) = let f : bitmap_test s i ≡ false = free i p q in cc

LowestRun-skip :
    (s : Pmm) (lo mid count : ℕ) (o : Option ℕ)
    → lo ≤ mid
    → ((g : ℕ) → lo ≤ g → g < mid → ¬ IsRun s count g)
    → LowestRun s mid count o
    → LowestRun s lo count o
LowestRun-skip s lo mid count none h p q =
    λ g a r. elim (dec_lt g mid) [ yes l ↦ p g a l r | no n ↦ q g (omega arith) r ]
LowestRun-skip s lo mid count (some f) h p (a, r, q) = (
  omega arith,
  r,
  λ g b c r'. elim (dec_lt g mid) [ yes l ↦ p g b l r' | no n ↦ q g (omega arith) c r' ],
)

-- The loop's state: the `len` frames from `lo` up to `i` are free, and fewer than `count`.
find_run-LowestRun :
    (n i start len lo count : ℕ) (s : Pmm)
    → i + n ≡ s.total_frames
    → (if len == 0 then i else start) ≡ lo
    → lo + len ≡ i
    → len < count
    → AllFree s lo i
    → LowestRun s lo count (find_run n i start len count s)
unfolding find_run
find_run-LowestRun zero i start len lo count s e at le lt free = λ g p (h, r). omega arith
find_run-LowestRun (suc n) i start len lo count s e at le lt free =
    elim (Bool-cases (bitmap_test s i)) [
      | inl used ↦ rw used (
          LowestRun-skip s lo (i + 1) count _ (omega arith)
            (λ g p q. IsRun-avoids s count g i used (omega arith) (omega arith))
            (find_run-LowestRun n (i + 1) start 0 (i + 1) count s (omega arith) (ground arith)
              (omega arith) (omega arith) (λ j p q. absurd (omega arith))))
      | inr clear ↦
          rw (clear, at)
            (elim (Bool-cases (leb count (len + 1))) [
              | inl enough ↦ rw enough (
                omega arith,
                (ground arith, λ j p q. grown clear j p (ground arith)),
                λ g p q. absurd (omega arith),
              )
              | inr short ↦ rw short (
                  find_run-LowestRun n (i + 1) lo (len + 1) lo count s (omega arith) (ground arith)
                    (omega arith) (ground arith) (grown clear))
            ])
    ]
  where
    grown : bitmap_test s i ≡ false → AllFree s lo (i + 1)
    grown clear j p q = elim (dec_lt j i) [
      | yes l ↦ free j p l
      | no g ↦ let same : j ≡ i = omega arith in rw same clear
    ]

-- `find_first_free_n` finds the lowest run of `count` free frames, and fails only if there is none.
pub find_first_free_n-LowestRun :
    (s : Pmm) (count : ℕ) → IsValid s → 0 < count → LowestRun s 0 count (find_first_free_n s count)
unfolding find_first_free_n
find_first_free_n-LowestRun s count v pos = elim (ℕ_discrete count 1) [
  | yes one ↦ rw one (single (find_first_free s) (find_first_free-LowestFree s v))
  | no many ↦
      let e : (count == 0) ≡ false = ground arith in
      let f : (count == 1) ≡ false = ground arith in
      rw (e, f)
        (find_run-LowestRun s.total_frames 0 0 0 0 count s (omega arith) refl (omega arith) pos
          (λ j p q. absurd (omega arith)))
]
  where
    single : (o : Option ℕ) → LowestFree s 0 o → LowestRun s 0 1 o
    single none h = λ g p (q, free).
        let u = h g (omega arith) (omega arith) in let w = free g (omega arith) (omega arith) in cc
    single (some f) (a, b, c, d) = (
      a,
      (omega arith, λ j p q. let same : j ≡ f = omega arith in rw same c),
      λ g p q (r, free). let u = d g p q in let w = free g (omega arith) (omega arith) in cc,
    )

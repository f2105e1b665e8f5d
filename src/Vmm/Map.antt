-- ===== src/Vmm/Map.antt =====
-- `vmm_map_physical` of mm/vmm.c, on every branch: success, no room in the window, and a page that
-- cannot be mapped.
use amit_x.Prelude.{
  ℕ, zero, suc, ◌+◌, ◌-◌, ◌*◌, ◌/◌, ◌%◌, ◌^◌, ◌≤◌, ◌<◌, ◌≡◌, refl, ap, sym, subst, arith, false,
  ◌||◌, length, ◌==◌, Bool-cases, ◌⊎◌, inl, inr, Option, none, some,
}
use amit_x.Prelude.Word.{u64}
use amit_x.Bitmap.{test_in, clear_in}
use amit_x.Bitmap.Laws.{test_in-clear_in}
use amit_x.Bitmap.Align.{align_down_page}
use amit_x.Vmm.{
  Vmm, Paging, window_base, window_pages, set_run, clear_run, phys_start, phys_pages, virt_start,
  map_pages, mapped, map_run, map_physical,
}
use amit_x.Vmm.Search.{
  FreeRun, Lowest, find_free_run-Lowest, in_run, test_in-set_run, test_in-clear_run, length-set_run,
  length-clear_run,
}

-- The pages that `length` bytes from address `phys` on touch.
abbrev pub page_count : ℕ → ℕ → ℕ
page_count phys length = (phys % 4096 + length + 4095) / 4096

phys_pages_eq :
    (phys length : ℕ)
    → length ≤ 2 ^ 40
    → phys + length + 4095 < 2 ^ 64
    → phys_pages phys length ≡ page_count phys length
phys_pages_eq phys length small fits =
    let w : u64 (phys + length + 4095) ≡ phys + length + 4095 = omega arith in
    rw w (
      omega
        (arith, align_down_page phys (omega arith), align_down_page (phys + length + 4095) fits))

-- The page tables refuse page `i` from the addresses `phys` and `virt` on, in some state.
abbrev pub Refused : {E : Type 0} → Paging E → (phys virt flags i : ℕ) → Type 0
Refused {E} paging phys virt flags i =
    (e : E) × ((paging.map_page (u64 (phys + i * 4096)) (u64 (virt + i * 4096)) flags e).0 ≡ false)

-- A page that cannot be mapped is one of those asked for.
abbrev FailsIn : {E : Type 0} → Paging E → (phys virt flags : ℕ) → ℕ → ℕ → E × Option ℕ → Type 0
FailsIn paging phys virt flags i n (e, none) = Unit {0}
FailsIn paging phys virt flags i n (e, some k) =
    (i ≤ k) × (k < i + n) × Refused paging phys virt flags k

-- How the call can end, with the window before and after it.
abbrev pub Mapped :
    {E : Type 0} → Paging E → (flags : ℕ) → Vmm E → (phys n : ℕ) → Vmm E × ℕ → Type 0
Mapped paging flags s phys n (t, p) =
    ((start : ℕ) × (p ≡ window_base + start * 4096 + phys % 4096)
      × FreeRun s.window_bitmap window_pages n start
      × ((k : ℕ) → k < start → ¬ FreeRun s.window_bitmap window_pages n k)
      × ((j : ℕ) → test_in t.window_bitmap j ≡ (in_run start n j || test_in s.window_bitmap j))
      × (length t.window_bitmap ≡ length s.window_bitmap))
    ⊎ ((p ≡ 0) × (t ≡ s) × ((start : ℕ) → ¬ FreeRun s.window_bitmap window_pages n start))
    ⊎ ((p ≡ 0)
        × ((start i : ℕ) × (i < n)
            × FreeRun s.window_bitmap window_pages n start
            × ((k : ℕ) → k < start → ¬ FreeRun s.window_bitmap window_pages n k)
            × Refused paging (phys / 4096 * 4096) (window_base + start * 4096) flags i
            × ((j : ℕ)
                → test_in t.window_bitmap j
                  ≡ (in_run (start + i + 1) (n - i - 1) j || test_in s.window_bitmap j))))

module _ {E : Type 0} (paging : Paging E) where
  map_pages-FailsIn :
      (n i phys virt flags : ℕ) (e : E)
      → FailsIn paging phys virt flags i n (map_pages paging n i phys virt flags e)
  unfolding map_pages
  map_pages-FailsIn zero i phys virt flags e = tt
  map_pages-FailsIn (suc n) i phys virt flags e =
      let r = paging.map_page (u64 (phys + i * 4096)) (u64 (virt + i * 4096)) flags e in
      elim (Bool-cases r.0) [
        | inl ok ↦ rw ok (
            wider (map_pages paging n (i + 1) phys virt flags r.1)
              (map_pages-FailsIn n (i + 1) phys virt flags r.1))
        | inr failed ↦ rw failed (omega arith, omega arith, (e, failed))
      ]
    where
      wider :
          (o : E × Option ℕ)
          → FailsIn paging phys virt flags (i + 1) n o
          → FailsIn paging phys virt flags i (suc n) o
      wider (e, none) h = tt
      wider (e, some k) (l, l', r) = (omega arith, omega arith, r)

  module _ (s : Vmm E) (phys n start : ℕ) (room : window_pages ≤ 8 * length s.window_bitmap)
      (run : FreeRun s.window_bitmap window_pages n start)
      (low : (k : ℕ) → k < start → ¬ FreeRun s.window_bitmap window_pages n k) where
    taken :
        (j : ℕ)
        → test_in (set_run n start s.window_bitmap) j
          ≡ (in_run start n j || test_in s.window_bitmap j)
    taken j = test_in-set_run n start j s.window_bitmap (omega (arith, run.0))

    kept :
        (i j : ℕ)
        → i < n
        → test_in (clear_in (clear_run i start (set_run n start s.window_bitmap)) (start + i)) j
          ≡ (in_run (start + i + 1) (n - i - 1) j || test_in s.window_bitmap j)
    kept i j h =
        let bm = set_run n start s.window_bitmap in
        let size : length bm ≡ length s.window_bitmap = length-set_run n start s.window_bitmap in
        rw
          (
            test_in-clear_in (clear_run i start bm) (start + i) j
                (omega (arith, size, length-clear_run i start bm, run.0)),
            test_in-clear_run i start j bm (omega (arith, size, run.0)),
            taken j,
          )
          (ground (arith, run.1 j))

    Mapped-mapped :
        (flags : ℕ)
        → phys < 2 ^ 64
        → (o : E × Option ℕ) → FailsIn paging (phys_start phys) (virt_start start) flags 0 n o
        → Mapped paging flags s phys n
            (mapped paging (set_run n start s.window_bitmap) start phys o)
    unfolding mapped
    Mapped-mapped flags wide (e, none) h = inl (
      start,
      omega (arith, align_down_page phys wide, run.0),
      run,
      low,
      taken,
      length-set_run n start s.window_bitmap,
    )
    Mapped-mapped flags wide (e, some i) (l, l', r) =
        let from : phys_start phys ≡ phys / 4096 * 4096 =
          omega (arith, align_down_page phys wide) in
        let at : virt_start start ≡ window_base + start * 4096 = omega (arith, run.0) in
        let refused =
          subst (λ x. Refused paging x (window_base + start * 4096) flags i) from
            (subst (λ x. Refused paging (phys_start phys) x flags i) at r) in
        inr (inr (refl, (start, i, omega arith, run, low, refused, λ j. kept i j (omega arith))))

  opened :
      (s : Vmm E) (phys len flags : ℕ)
      → 0 < len
      → len ≤ 2 ^ 40
      → phys + len + 4095 < 2 ^ 64
      → map_physical paging s phys len flags ≡ map_run paging s phys flags (page_count phys len)
  unfolding map_physical
  opened s phys len flags pos small fits =
      let z : (len == 0) ≡ false = ground arith in
      rw z (ap (map_run paging s phys flags) (phys_pages_eq phys len small fits))

  -- `vmm_map_physical` of 1 to 2^40 bytes below the end of the address space, in a window whose
  -- bitmap covers it. Either it returns a pointer into the lowest run of free pages that is large
  -- enough, at the offset of `phys` in its page, and takes exactly these pages; or there is no such
  -- run and nothing changes; or a page cannot be mapped: then it returns NULL, and the pages of the
  -- run after that one stay taken, while the bits before it are as they were.
  pub map_physical_lem :
      (s : Vmm E) (phys len flags : ℕ)
      → window_pages ≤ 8 * length s.window_bitmap
      → 0 < len
      → len ≤ 2 ^ 40
      → phys + len + 4095 < 2 ^ 64
      → Mapped paging flags s phys (page_count phys len) (map_physical paging s phys len flags)
  map_physical_lem s phys len flags room pos small fits =
      subst (Mapped paging flags s phys (page_count phys len))
        (sym (opened s phys len flags pos small fits))
        (unfold map_run in
          answer _ (find_free_run-Lowest s.window_bitmap (page_count phys len) (omega arith)))
    where
      answer :
          (o : Option ℕ)
          → Lowest s.window_bitmap window_pages 0 (page_count phys len) o
          → Mapped paging flags s phys (page_count phys len) (elim o [
            | none ↦ (s, 0)
            | some start ↦
                mapped paging (set_run (page_count phys len) start s.window_bitmap) start phys (
                  map_pages paging
                    (page_count phys len)
                    0
                    (phys_start phys)
                    (virt_start start)
                    flags
                    s.env)
          ])
      answer none h = inr (inl (refl, refl, λ g. h g (omega arith)))
      answer (some start) (lo, run, low) =
          Mapped-mapped s phys (page_count phys len) start room run (λ k l. low k (omega arith) l)
            flags (omega arith) _
            (map_pages-FailsIn (page_count phys len) 0 (phys_start phys) (virt_start start) flags
              s.env)

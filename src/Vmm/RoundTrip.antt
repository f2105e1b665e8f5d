-- ===== src/Vmm/RoundTrip.antt =====
-- `vmm_unmap_physical` after `vmm_map_physical` in mm/vmm.c.
use amit_x.Prelude.{
  ℕ, ◌+◌, ◌*◌, ◌/◌, ◌%◌, ◌^◌, ◌≤◌, ◌<◌, ◌≡◌, ◌≢◌, ap, ◌∙◌, arith, false, not, ◌&&◌, ◌||◌, length,
  ltb, ◌==◌, inl, inr,
}
use amit_x.Prelude.Word.{u32, u64, sub64}
use amit_x.Bitmap.{test_in}
use amit_x.Bitmap.Align.{align_down, align_down_page}
use amit_x.Vmm.{
  Vmm, Paging, window_base, window_size, window_pages, clear_run, map_physical, unmap_window,
  unmap_physical,
}
use amit_x.Vmm.Search.{FreeRun, in_run, test_in-clear_run}
use amit_x.Vmm.Map.{Mapped, page_count, map_physical_lem}

module _ {E : Type 0} (paging : Paging E) where
  unmap_window_bits :
      (t : Vmm E) (start n : ℕ)
      → start + n ≤ window_pages
      → (unmap_window paging t
          (window_base + start * 4096)
          (window_base + start * 4096 + n * 4096)).window_bitmap
        ≡ clear_run n start t.window_bitmap
  unfolding unmap_window
  unmap_window_bits t start n inside =
      let v = window_base + start * 4096 in
      let v_end = v + n * 4096 in
      let guard : (ltb v window_base || ltb (window_base + window_size) v_end) ≡ false =
        ground arith in
      let first : u32 (sub64 v window_base / 4096) ≡ start = omega arith in
      let pages : u32 (sub64 v_end v / 4096) ≡ n = omega arith in rw (guard, first, pages)

  -- On a pointer into the window the call clears the bits of the pages that the bytes touch.
  unmap_physical_bits :
      (t : Vmm E) (start off len : ℕ)
      → off < 4096
      → 0 < len
      → len ≤ 2 ^ 40
      → start + (off + len + 4095) / 4096 ≤ window_pages
      → (unmap_physical paging t (window_base + start * 4096 + off) len).window_bitmap
        ≡ clear_run ((off + len + 4095) / 4096) start t.window_bitmap
  unfolding unmap_physical
  unmap_physical_bits t start off len small pos short inside =
      let p = window_base + start * 4096 + off in
      let n = (off + len + 4095) / 4096 in
      let z : (p == 0 || len == 0) ≡ false = ground arith in
      let low : align_down p 4096 ≡ window_base + start * 4096 =
        omega (arith, align_down_page p (omega arith)) in
      let word : u64 (p + len + 4095) ≡ p + len + 4095 = omega arith in
      let high : align_down (u64 (p + len + 4095)) 4096 ≡ window_base + start * 4096 + n * 4096 =
        ap (λ x. align_down x 4096) word
        ∙ omega (arith, align_down_page (p + len + 4095) (omega arith)) in
      rw (z, low, high) (unmap_window_bits t start n inside)

  -- If `vmm_map_physical` of 1 to 2^40 bytes below the end of the address space returns a pointer,
  -- then `vmm_unmap_physical` of that pointer and length gives every page of the window the state
  -- that it had before, in a window whose bitmap covers it.
  pub unmap_physical-map_physical :
      (s : Vmm E) (phys len flags : ℕ)
      → window_pages ≤ 8 * length s.window_bitmap
      → 0 < len
      → len ≤ 2 ^ 40
      → phys + len + 4095 < 2 ^ 64
      → let (t, p) = map_physical paging s phys len flags in
        p ≢ 0
        → (j : ℕ)
        → test_in (unmap_physical paging t p len).window_bitmap j ≡ test_in s.window_bitmap j
  unmap_physical-map_physical s phys len flags room pos short fits nz =
      back _ (map_physical_lem paging s phys len flags room pos short fits) nz
    where
      back :
          (r : Vmm E × ℕ)
          → Mapped paging flags s phys (page_count phys len) r
          → r.1 ≢ 0
          → (j : ℕ)
          → test_in (unmap_physical paging r.0 r.1 len).window_bitmap j ≡ test_in s.window_bitmap j
      back (t, p) (inr (inl (z, e, h))) nz = absurd (nz z)
      back (t, p) (inr (inr (z, h))) nz = absurd (nz z)
      back (t, p) (inl (start, at, run, low, bits, size)) nz = λ j.
          let cleared =
            unmap_physical_bits t start (phys % 4096) len (omega arith) pos short run.0 in
          ap (λ q. test_in (unmap_physical paging t q len).window_bitmap j) at
          ∙ ap (λ bm. test_in bm j) cleared
          ∙ test_in-clear_run (page_count phys len) start j t.window_bitmap
              (omega (arith, run.0, size))
          ∙ restored j start run (bits j)
        where
          restored :
              (j start : ℕ)
              → FreeRun s.window_bitmap window_pages (page_count phys len) start
              → test_in t.window_bitmap j
                ≡ (in_run start (page_count phys len) j || test_in s.window_bitmap j)
              → (not (in_run start (page_count phys len) j) && test_in t.window_bitmap j)
                ≡ test_in s.window_bitmap j
          restored j start run e = rw e (ground (arith, run.1 j))

-- ===== src/Vmm/Tests.antt =====
-- A window with its first three pages taken, and the theorem at it.
use amit_x.Bitmap.Align.{align_down}
use amit_x.Prelude.{ℕ, ◌+◌, ◌≡◌, refl, arith, ◌∷◌, replicate, length-replicate, leb, not}
use amit_x.Vmm.{Vmm, Paging, map_physical, map_run, unmap_physical}
use amit_x.Bitmap.{test_in, test_bit}
use amit_x.Vmm.RoundTrip.{unmap_physical-map_physical}
use amit_x.Vmm.Map.{Mapped, page_count, map_physical_lem}

-- The state counts the pages mapped; the third one fails.
abbrev two_pages : Paging ℕ
two_pages = record {
  map_page = λ phys virt flags n. (not (leb 2 n), n + 1);
  unmap_page = λ virt n. n;
}

abbrev sample : Vmm ℕ
sample = record { window_bitmap = 7 ∷ replicate 1023 0; env = 0 }

map_physical_lem_example :
    Mapped two_pages 1 sample 0x1010
      (page_count 0x1010 0x5000)
      (map_physical two_pages sample 0x1010 0x5000 1)
map_physical_lem_example =
    map_physical_lem two_pages sample 0x1010 0x5000 1
      (omega (arith, length-replicate {A = ℕ} 1023 0)) (omega arith) (omega arith) (omega arith)

map_physical_runs : (map_physical two_pages sample 0x1010 0x1500 1).1 ≡ 0xFFFF900000003010
unfolding map_physical test_in test_bit map_run align_down
map_physical_runs = refl

unmap_physical-map_physical_example :
    let (t, p) = map_physical two_pages sample 0x1010 0x1500 1 in
    test_in (unmap_physical two_pages t p 0x1500).window_bitmap 4 ≡ test_in sample.window_bitmap 4
unmap_physical-map_physical_example =
    unmap_physical-map_physical two_pages sample 0x1010 0x1500 1
      (omega (arith, length-replicate {A = ℕ} 1023 0)) (omega arith) (omega arith) (omega arith)
      (λ e. absurd (omega (arith, map_physical_runs, e))) 4

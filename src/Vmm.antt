-- ===== src/Vmm.antt =====
-- mm/vmm.c: the window of virtual pages for mappings of physical memory, on the 64-bit build. Bit
-- `i` of `window_bitmap` says that page `i` of the window is taken. The page tables behind it come
-- from an interface, `Paging`, with the calls that mm/vmm.c makes of mm/paging.c.
pub mod Search
pub mod Map
pub mod RoundTrip
mod Tests
use amit_x.Prelude.{
  ℕ, zero, suc, ◌+◌, ◌-◌, ◌*◌, ◌/◌, ◌%◌, ◌^◌, Bool, true, false, not, ◌&&◌, ◌||◌, List, Option,
  none, some, ltb, leb, ◌==◌, if◌then◌else◌,
}
use amit_x.Prelude.Word.{u32, u64, sub64}
use amit_x.Bitmap.{set_in, clear_in, test_in}
use amit_x.Bitmap.Align.{align_down}

-- VMM_WINDOW_BASE, VMM_WINDOW_SIZE and VMM_WINDOW_PAGES
abbrev pub window_base : ℕ
window_base = 0xFFFF900000000000

abbrev pub window_size : ℕ
window_size = 0x2000000

abbrev pub window_pages : ℕ
window_pages = 8192

-- `map_page` (`true` for the result 0) and `unmap_page`, on a state `E`.
pub record Paging (E : Type 0) : Type 0 where
  pub map_page : (phys virt flags : ℕ) → E → Bool × E
  pub unmap_page : ℕ → E → E

pub record Vmm (E : Type 0) : Type 0 where
  pub window_bitmap : List ℕ
  pub env : E

-- The loop of `find_free_run`, `n` rounds before its end.
unfoldable pub free_run : ℕ → ℕ → ℕ → ℕ → ℕ → List ℕ → Option ℕ
free_run zero i run_start run_len count bm = none
free_run (suc n) i run_start run_len count bm =
    let start = if run_len == 0 then i else run_start in
    let longer = free_run n (i + 1) start (run_len + 1) count bm in
    let reset = free_run n (i + 1) run_start 0 count bm in
    if not (test_in bm i) then if leb count (run_len + 1) then some start else longer else reset

unfoldable pub find_free_run : List ℕ → ℕ → Option ℕ
unfolding free_run
find_free_run bm count = free_run window_pages 0 0 0 count bm

-- `bit_set` and `bit_clear` over `n` pages from `i`.
unfoldable pub set_run : ℕ → ℕ → List ℕ → List ℕ
set_run zero i bm = bm
set_run (suc n) i bm = set_run n (i + 1) (set_in bm i)

unfoldable pub clear_run : ℕ → ℕ → List ℕ → List ℕ
clear_run zero i bm = bm
clear_run (suc n) i bm = clear_run n (i + 1) (clear_in bm i)

abbrev pub phys_start : ℕ → ℕ
phys_start phys = align_down phys 4096

abbrev pub phys_pages : ℕ → ℕ → ℕ
phys_pages phys length =
    u32 (sub64 (align_down (u64 (phys + length + 4095)) 4096) (phys_start phys) / 4096)

abbrev pub virt_start : ℕ → ℕ
virt_start start = u64 (window_base + start * 4096)

module _ {E : Type 0} (paging : Paging E) where
  -- The loop over the pages, from page `i` on; the page at which `map_page` failed, if any.
  unfoldable pub map_pages : ℕ → ℕ → (phys virt flags : ℕ) → E → E × Option ℕ
  map_pages zero i phys virt flags e = (e, none)
  map_pages (suc n) i phys virt flags e =
      let (ok, e') = paging.map_page (u64 (phys + i * 4096)) (u64 (virt + i * 4096)) flags e in
      let rest = map_pages n (i + 1) phys virt flags e' in if ok then rest else (e', some i)

  unfoldable pub unmap_pages : ℕ → ℕ → ℕ → E → E
  unmap_pages zero j virt e = e
  unmap_pages (suc n) j virt e =
      unmap_pages n (j + 1) virt (paging.unmap_page (u64 (virt + j * 4096)) e)

  -- What `vmm_map_physical` does with the end of that loop: it returns the pointer, or it takes back
  -- the pages before the one that failed, and the bit of that one.
  unfoldable pub mapped : List ℕ → ℕ → ℕ → E × Option ℕ → Vmm E × ℕ
  unfolding clear_run unmap_pages
  mapped bm start phys (e, none) =
      (record { window_bitmap = bm; env = e }, u64 (virt_start start + (phys - phys_start phys)))
  mapped bm start phys (e, some i) = (
    record {
      window_bitmap = clear_in (clear_run i start bm) (start + i);
      env = unmap_pages i 0 (virt_start start) e;
    },
    0,
  )

  -- `vmm_map_physical` for that many pages.
  unfoldable pub map_run : Vmm E → (phys flags pages : ℕ) → Vmm E × ℕ
  unfolding find_free_run set_run map_pages mapped
  map_run s phys flags pages = elim (find_free_run s.window_bitmap pages) [
    | none ↦ (s, 0)
    | some start ↦
        mapped (set_run pages start s.window_bitmap) start phys
          (map_pages pages 0 (phys_start phys) (virt_start start) flags s.env)
  ]

  unfoldable pub map_physical : Vmm E → (phys length flags : ℕ) → Vmm E × ℕ
  map_physical s phys length flags =
      if length == 0 then (s, 0) else map_run s phys flags (phys_pages phys length)

  -- `vmm_unmap_physical` from page address `v` up to `v_end`.
  unfoldable pub unmap_window : Vmm E → ℕ → ℕ → Vmm E
  unfolding clear_run unmap_pages
  unmap_window s v v_end =
      let start = u32 (sub64 v window_base / 4096) in
      let pages = u32 (sub64 v_end v / 4096) in
      if ltb v window_base || ltb (window_base + window_size) v_end then s else record {
        window_bitmap = clear_run pages start s.window_bitmap;
        env = unmap_pages pages 0 v s.env;
      }

  unfoldable pub unmap_physical : Vmm E → ℕ → ℕ → Vmm E
  unmap_physical s virt length =
      if virt == 0 || length == 0
      then s
      else unmap_window s (align_down virt 4096) (align_down (u64 (virt + length + 4095)) 4096)

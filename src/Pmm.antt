-- ===== src/Pmm.antt =====
-- mm/pmm.c: the physical frame allocator. The static variables are the record `Pmm`; a function
-- that changes them returns the new record beside its result. Every function runs under `pmm_lock`,
-- so one call is one step. `PFN_T` -1 is `none`, and `PHYS_ADDR_INVALID` is the address 0.
pub mod Inv
pub mod Search
pub mod Alloc
pub mod Release
pub mod Region
pub mod Aligned
pub mod History
mod Tests
use amit_x.Prelude.{
  ℕ, zero, suc, ◌+◌, ◌-◌, ◌*◌, ◌/◌, ◌%◌, ◌^◌, bit_and, Bool, true, false, not, ◌&&◌, ◌||◌, List,
  Option, none, some, length, get_or, ltb, leb, ◌==◌, if◌then◌else◌,
}
use amit_x.Prelude.Word.{u64, sub64}
use amit_x.Bitmap.{set_in, clear_in, test_in, test_bit}

pub record Pmm : Type 0 where
  pub bitmap : List ℕ
  pub bitmap_size : ℕ
  pub total_frames : ℕ
  pub used_frames : ℕ

unfoldable pub bitmap_set : Pmm → ℕ → Pmm
bitmap_set s frame = record s { bitmap = set_in s.bitmap frame }

unfoldable pub bitmap_clear : Pmm → ℕ → Pmm
bitmap_clear s frame = record s { bitmap = clear_in s.bitmap frame }

abbrev pub bitmap_test : Pmm → ℕ → Bool
bitmap_test s frame = test_in s.bitmap frame

-- `bitmap_set(f); used_frames++;` and `bitmap_clear(f); used_frames--;`
unfoldable pub mark : Pmm → ℕ → Pmm
unfolding bitmap_set
mark s f = let t = bitmap_set s f in record t { used_frames = u64 (t.used_frames + 1) }

unfoldable pub unmark : Pmm → ℕ → Pmm
unfolding bitmap_clear
unmark s f = let t = bitmap_clear s f in record t { used_frames = sub64 t.used_frames 1 }

-- How the inner loop of `find_first_free` ends: a free frame, past the last frame, or byte done.
pub data Scan : Type 0 where
  found : ℕ → Scan
  past_end : Scan
  byte_done : Scan

unfoldable pub scan_byte : ℕ → ℕ → ℕ → ℕ → ℕ → Scan
scan_byte zero j byte i total = byte_done
scan_byte (suc n) j byte i total =
    let rest = scan_byte n (j + 1) byte i total in
    if leb total (i * 8 + j)
    then past_end
    else if not (test_bit byte j)
    then found (i * 8 + j)
    else rest

unfoldable pub scan_bytes : ℕ → ℕ → Pmm → Option ℕ
unfolding scan_byte
scan_bytes zero i s = none
scan_bytes (suc n) i s =
    let rest = scan_bytes n (i + 1) s in
    let byte = get_or s.bitmap i 0 in
    if byte == 0xFF then rest else elim (scan_byte 8 0 byte i s.total_frames) [
      | found frame ↦ some frame
      | past_end ↦ none
      | byte_done ↦ rest
    ]

unfoldable pub find_first_free : Pmm → Option ℕ
unfolding scan_bytes
find_first_free s = scan_bytes s.bitmap_size 0 s

-- The loop of `find_first_free_n`, `n` rounds before its end.
unfoldable pub find_run : ℕ → ℕ → ℕ → ℕ → ℕ → Pmm → Option ℕ
find_run zero i run_start run_len count s = none
find_run (suc n) i run_start run_len count s =
    let start = if run_len == 0 then i else run_start in
    let longer = find_run n (i + 1) start (run_len + 1) count s in
    let reset = find_run n (i + 1) run_start 0 count s in
    if not (bitmap_test s i) then if leb count (run_len + 1) then some start else longer else reset

unfoldable pub find_first_free_n : Pmm → ℕ → Option ℕ
unfolding find_run find_first_free
find_first_free_n s count =
    if count == 0
    then none
    else if count == 1
    then find_first_free s
    else find_run s.total_frames 0 0 0 count s

-- `for (i = start; i < end; i++)` over the frames to use, to release, and to test.
unfoldable pub reserve_from : ℕ → ℕ → Pmm → Pmm
unfolding mark
reserve_from zero i s = s
reserve_from (suc n) i s = reserve_from n (i + 1) (if bitmap_test s i then s else mark s i)

unfoldable pub release_from : ℕ → ℕ → Pmm → Pmm
unfolding unmark
release_from zero i s = s
release_from (suc n) i s = release_from n (i + 1) (if bitmap_test s i then unmark s i else s)

unfoldable pub all_free : ℕ → ℕ → Pmm → Bool
all_free zero i s = true
all_free (suc n) i s = let rest = all_free n (i + 1) s in if bitmap_test s i then false else rest

unfoldable pub mark_from : ℕ → ℕ → Pmm → Pmm
unfolding mark
mark_from zero i s = s
mark_from (suc n) i s = mark_from n (i + 1) (mark s i)

abbrev pub start_frame : ℕ → ℕ
start_frame start = start / 4096

abbrev pub end_frame : ℕ → ℕ → ℕ
end_frame start len = u64 (start + len + 4095) / 4096

abbrev pub clip : ℕ → ℕ → ℕ
clip end total = if ltb total end then total else end

unfoldable pub reserve_region : Pmm → ℕ → ℕ → Pmm
unfolding reserve_from
reserve_region s start len =
    if len == 0
    then s
    else reserve_from (clip (end_frame start len) s.total_frames - start_frame start)
        (start_frame start) s

unfoldable pub unreserve_region : Pmm → ℕ → ℕ → Pmm
unfolding release_from
unreserve_region s start len =
    if len == 0
    then s
    else release_from (clip (end_frame start len) s.total_frames - start_frame start)
        (start_frame start) s

-- `true` for the result 0, `false` for -1.
unfoldable pub is_region_free : Pmm → ℕ → ℕ → Bool
unfolding all_free
is_region_free s start len =
    if len == 0
    then false
    else if ltb s.total_frames (end_frame start len)
    then false
    else all_free (end_frame start len - start_frame start) (start_frame start) s

abbrev pub frame_address : ℕ → ℕ
frame_address frame = u64 (frame * 4096)

unfoldable pub alloc_frame : Pmm → Pmm × ℕ
unfolding find_first_free mark
alloc_frame s = elim (find_first_free s) [
  | none ↦ (s, 0)
  | some frame ↦ (mark s frame, frame_address frame)
]

unfoldable pub alloc_frames : Pmm → ℕ → Pmm × ℕ
unfolding find_first_free_n mark_from
alloc_frames s count = elim (find_first_free_n s count) [
  | none ↦ (s, 0)
  | some frame ↦ (mark_from count frame s, frame_address frame)
]

unfoldable pub free_frame : Pmm → ℕ → Pmm
unfolding unmark
free_frame s frame =
    if frame == 0
    then s
    else let f = start_frame frame in
      if leb s.total_frames f then s else if bitmap_test s f then unmark s f else s

unfoldable pub free_frames : Pmm → ℕ → ℕ → Pmm
unfolding release_from
free_frames s frame count =
    if frame == 0 || count == 0
    then s
    else let f = start_frame frame in
      if ltb s.total_frames (u64 (f + count)) then s else release_from count f s

-- `true` for the result 0, `false` for -1.
unfoldable pub alloc_at : Pmm → ℕ → ℕ → Pmm × Bool
unfolding all_free mark_from
alloc_at s addr count =
    let f = start_frame addr in
    if ltb s.total_frames (u64 (f + count))
    then (s, false)
    else if all_free count f s
    then (mark_from count f s, true)
    else (s, false)

pub record Stats : Type 0 where
  pub total_frames : ℕ
  pub used_frames : ℕ
  pub free_frames : ℕ
  pub reserved_frames : ℕ

unfoldable pub get_stats : Pmm → Stats
get_stats s = record {
  total_frames = s.total_frames;
  used_frames = s.used_frames;
  free_frames = sub64 s.total_frames s.used_frames;
  reserved_frames = s.used_frames;
}

-- ===== src/BlockCache/Platter.antt =====
-- A drive in memory that never fails, and the disk of fs/smkfs/block.c over it.
use amit_x.Prelude.{
  ℕ, zero, suc, ◌+◌, ◌≤◌, ◌≡◌, ◌≢◌, refl, ap, ◌∙◌, arith, true, false, List, [], ◌∷◌, length, take,
  get_or, ◌==◌, if◌then◌else◌,
}
use amit_x.BlockCache.{Disk}
use amit_x.BlockCache.Inv.{DiskLaws}
use amit_x.BlockCache.Sectors.{Drive, DriveLaws, sector_disk, sector_laws}

-- A byte by its sector and its place in it.
abbrev pub Platter : Type 0
Platter = ℕ → ℕ → ℕ

abbrev pub listed : ℕ → ℕ → (ℕ → ℕ) → List ℕ
listed zero i f = []
listed (suc n) i f = f i ∷ listed n (i + 1) f

pub length-listed : (n i : ℕ) (f : ℕ → ℕ) → length (listed n i f) ≡ n
length-listed zero i f = refl
length-listed (suc n) i f = ap suc (length-listed n (i + 1) f)

-- A list is read from index `i` on where `f` reads it there.
pub listed-take :
    (n i : ℕ) (v : List ℕ) (f : ℕ → ℕ)
    → n ≤ length v
    → ((k : ℕ) → f (i + k) ≡ get_or v k 0)
    → listed n i f ≡ take n v
listed-take zero i v f h e = refl
listed-take (suc n) i [] f h e = absurd (omega arith)
listed-take (suc n) i (x ∷ v) f h e =
    let here : f i ≡ x = ap f (omega arith) ∙ e 0 in
    ap (λ y. y ∷ listed n (i + 1) f) here
    ∙ ap (λ l. x ∷ l)
        (listed-take n (i + 1) v f (omega arith) (λ k. ap f (omega arith) ∙ e (suc k)))

pub self : (a : ℕ) → (a == a) ≡ true
self a = ground arith

pub apart : (k a : ℕ) → k ≢ a → (k == a) ≡ false
apart k a ne = ground arith

abbrev pub drive : Drive Platter
drive = record {
  read_sector = λ a d. (true, listed 512 0 (d a), d);
  write_sector = λ a v d. (true, λ b k. if b == a then get_or v k 0 else d b k);
}

abbrev pub drive_laws : DriveLaws drive
drive_laws = record {
  sector = λ d a. listed 512 0 (d a);
  read_ok = λ a d y. refl;
  read_full = λ a d y. length-listed 512 0 (d a);
  read_size = λ a d. omega (arith, length-listed 512 0 (d a));
  read_same = λ a d k. refl;
  write_ok = λ a v d h y.
      ap (λ b. listed 512 0 (λ k. if b then get_or v k 0 else d a k)) (self a)
      ∙ listed-take 512 0 v (λ k. get_or v k 0) h (λ k. ap (λ j. get_or v j 0) (omega arith));
  write_other =
      λ a v d k ne. ap (λ b. listed 512 0 (λ j. if b then get_or v j 0 else d k j)) (apart k a ne);
}

abbrev pub disk : Disk Platter
disk = sector_disk drive

abbrev pub laws : DiskLaws disk
laws = sector_laws drive_laws

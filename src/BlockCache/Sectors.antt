-- ===== src/BlockCache/Sectors.antt =====
-- `disk_read_block` and `disk_write_block` of fs/smkfs/block.c: a block as a run of sectors. The drive
-- (`ide_read_sectors` and `ide_write_sectors` of hw/ide.c, for one sector) is an interface, `Drive`.
use amit_x.Prelude.{
  ℕ, length-append, subst, zero, suc, ◌+◌, ◌-◌, ◌*◌, ◌/◌, ◌%◌, ◌^◌, ◌≤◌, ◌<◌, ◌≡◌, ◌≢◌, refl, ap,
  sym, ◌∙◌, arith, Bool, true, false, not, List, [], ◌∷◌, ◌++◌, length, take, drop, ltb, ◌==◌,
  if◌then◌else◌, Bool-cases, inl, inr, ◌⊎◌,
}
use amit_x.Checksum.{smkfs_block_size}
use amit_x.BlockCache.{Disk}
use amit_x.BlockCache.Inv.{DiskLaws}

-- A read gives what it has put at the pointer, also where it fails; a write is given the bytes from the
-- pointer on. The answer 0 is `true`.
pub record Drive (D : Type 0) : Type 0 where
  pub read_sector : ℕ → D → Bool × List ℕ × D
  pub write_sector : ℕ → List ℕ → D → Bool × D

-- `sectors`, an 8-bit number, and `lba`, a 32-bit number.
abbrev pub sectors_of : ℕ → ℕ
sectors_of sector_size = smkfs_block_size / sector_size % 2 ^ 8

abbrev pub lba_of : ℕ → ℕ → ℕ
lba_of sector_size block = block * sectors_of sector_size % 2 ^ 32

module _ {D : Type 0} (drive : Drive D) (sector_size : ℕ) where
  -- The two loops, with `n` sectors left from `i` on, and the buffer from `ptr + i * sector_size` on.
  unfoldable pub read_from : ℕ → ℕ → ℕ → List ℕ → D → Bool × List ℕ × D
  read_from zero i lba buf d = (true, buf, d)
  read_from (suc n) i lba buf d =
      let (done, bytes, d') = drive.read_sector ((lba + i) % 2 ^ 32) d in
      let buf' = bytes ++ drop (length bytes) buf in
      let (rest_done, rest, d'') = read_from n (i + 1) lba (drop sector_size buf') d' in
      if done then (rest_done, take sector_size buf' ++ rest, d'') else (false, buf', d')

  unfoldable pub write_from : ℕ → ℕ → ℕ → List ℕ → D → Bool × D
  write_from zero i lba buf d = (true, d)
  write_from (suc n) i lba buf d =
      let (done, d') = drive.write_sector ((lba + i) % 2 ^ 32) buf d in
      let rest = write_from n (i + 1) lba (drop sector_size buf) d' in
      if done then rest else (false, d')

  -- For a sector size above 0: C divides by 0 otherwise.
  unfoldable pub disk_read_block : ℕ → List ℕ → D → Bool × List ℕ × D
  unfolding read_from
  disk_read_block block buf d =
      if not (smkfs_block_size % sector_size == 0)
      then (false, buf, d)
      else read_from (sectors_of sector_size) 0 (lba_of sector_size block) buf d

  unfoldable pub disk_write_block : ℕ → List ℕ → D → Bool × D
  unfolding write_from
  disk_write_block block buf d =
      if not (smkfs_block_size % sector_size == 0)
      then (false, d)
      else write_from (sectors_of sector_size) 0 (lba_of sector_size block) buf d

-- The disk that the cache of fs/smkfs/bcache.c reads and writes.
abbrev pub sector_disk : {D : Type 0} → Drive D → Disk D
sector_disk drive = record { read = disk_read_block drive 512; write = disk_write_block drive 512 }

-- The sectors of a drive, of 512 bytes: a read changes nothing, and a write changes at most its own sector.
pub record DriveLaws {D : Type 0} (drive : Drive D) : Type 0 where
  pub sector : D → ℕ → List ℕ
  pub read_ok :
      (a : ℕ) (d : D) → (drive.read_sector a d).0 ≡ true → (drive.read_sector a d).1 ≡ sector d a
  pub read_full :
      (a : ℕ) (d : D) → (drive.read_sector a d).0 ≡ true → length (drive.read_sector a d).1 ≡ 512
  pub read_size : (a : ℕ) (d : D) → length (drive.read_sector a d).1 ≤ 512
  pub read_same : (a : ℕ) (d : D) (k : ℕ) → sector (drive.read_sector a d).2 k ≡ sector d k
  pub write_ok :
      (a : ℕ) (v : List ℕ) (d : D)
      → 512 ≤ length v
      → (drive.write_sector a v d).0 ≡ true
      → sector (drive.write_sector a v d).1 a ≡ take 512 v
  pub write_other :
      (a : ℕ) (v : List ℕ) (d : D) (k : ℕ)
      → k ≢ a
      → sector (drive.write_sector a v d).1 k ≡ sector d k

take-append : (n : ℕ) (xs ys : List ℕ) → length xs ≡ n → take n (xs ++ ys) ≡ xs
take-append zero [] ys h = refl
take-append zero (x ∷ xs) ys h = absurd (omega arith)
take-append (suc n) [] ys h = absurd (omega arith)
take-append (suc n) (x ∷ xs) ys h = ap (λ l. x ∷ l) (take-append n xs ys (omega arith))

take-drop : (n : ℕ) (xs : List ℕ) → take n xs ++ drop n xs ≡ xs
take-drop zero xs = refl
take-drop (suc n) [] = refl
take-drop (suc n) (x ∷ xs) = ap (λ l. x ∷ l) (take-drop n xs)

length-drop : (n : ℕ) (xs : List ℕ) → length (drop n xs) ≡ length xs - n
length-drop zero xs = omega arith
length-drop (suc n) [] = omega arith
length-drop (suc n) (x ∷ xs) = length-drop n xs ∙ omega arith

length_zero : (xs : List ℕ) → length xs ≡ 0 → xs ≡ []
length_zero [] h = refl
length_zero (x ∷ xs) h = absurd (omega arith)

module _ {D : Type 0} {drive : Drive D} (laws : DriveLaws drive) where
  -- The `n` sectors from `a` on, one after the other.
  unfoldable pub run_of : ℕ → ℕ → D → List ℕ
  run_of zero a d = []
  run_of (suc n) a d = laws.sector d a ++ run_of n (a + 1) d

  pub run_of-same :
      (n a : ℕ) (d d' : D)
      → ((k : ℕ) → a ≤ k → k < a + n → laws.sector d' k ≡ laws.sector d k)
      → run_of n a d' ≡ run_of n a d
  unfolding run_of
  run_of-same zero a d d' h = refl
  run_of-same (suc n) a d d' h =
      ap (λ x. x ++ run_of n (a + 1) d') (h a (omega arith) (omega arith))
      ∙ ap (λ x. laws.sector d a ++ x)
          (run_of-same n (a + 1) d d' (λ k l l'. h k (omega arith) (omega arith)))

  -- What a read of `n` sectors leaves.
  abbrev ReadRun : ℕ → ℕ → D → Bool × List ℕ × D → Type 0
  ReadRun n a d r =
      ((k : ℕ) → laws.sector r.2 k ≡ laws.sector d k)
      × (length r.1 ≡ n * 512)
      × (r.0 ≡ true → r.1 ≡ run_of n a d)

  read_from-ReadRun :
      (n i lba : ℕ) (buf : List ℕ) (d : D)
      → lba + i + n ≤ 2 ^ 32
      → length buf ≡ n * 512
      → ReadRun n (lba + i) d (read_from drive 512 n i lba buf d)
  unfolding read_from run_of
  read_from-ReadRun zero i lba buf d h len = (λ k. refl, len, λ t. length_zero buf (omega arith))
  read_from-ReadRun (suc n) i lba buf d h len = elim (Bool-cases got.0) [
    | inr z ↦ rw z (laws.read_same a d, size, λ t. absurd (let q : false ≡ true = t in cc))
    | inl y ↦ rw y (
        joined y (
          read_from-ReadRun n (i + 1) lba (drop 512 buf') got.2 (omega arith)
            (length-drop 512 buf' ∙ omega (arith, size))))
  ]
    where
      a : ℕ
      a = (lba + i) % 2 ^ 32

      got : Bool × List ℕ × D
      got = drive.read_sector a d

      buf' : List ℕ
      buf' = got.1 ++ drop (length got.1) buf

      at : a ≡ lba + i
      at = omega arith

      size : length buf' ≡ suc n * 512
      size =
          let s = laws.read_size a d in
          length-append got.1 (drop (length got.1) buf)
          ∙ omega (arith, s, length-drop (length got.1) buf, len)

      joined :
          got.0 ≡ true
          → {r : Bool × List ℕ × D} → ReadRun n (lba + (i + 1)) got.2 r
          → ((k : ℕ) → laws.sector r.2 k ≡ laws.sector d k)
            × (length (take 512 buf' ++ r.1) ≡ suc n * 512)
            × (r.0 ≡ true
                → take 512 buf' ++ r.1 ≡ laws.sector d (lba + i) ++ run_of n (lba + i + 1) d)
      joined y {r} (same, len', bytes) = (λ k. same k ∙ laws.read_same a d k, long, all)
        where
          first : take 512 buf' ≡ got.1
          first = take-append 512 got.1 (drop (length got.1) buf) (laws.read_full a d y)

          long : length (take 512 buf' ++ r.1) ≡ suc n * 512
          long =
              ap (λ x. length (x ++ r.1)) first
              ∙ length-append got.1 r.1
              ∙ omega (arith, len', laws.read_full a d y)

          all :
              r.0 ≡ true
              → take 512 buf' ++ r.1 ≡ laws.sector d (lba + i) ++ run_of n (lba + i + 1) d
          all t =
              let e1 : lba + (i + 1) ≡ lba + i + 1 = omega arith in
              ap (λ x. x ++ r.1) (first ∙ laws.read_ok a d y ∙ ap (laws.sector d) at)
              ∙ ap (λ x. laws.sector d (lba + i) ++ x)
                  (bytes t
                    ∙ ap (λ x. run_of n x got.2) e1
                    ∙ run_of-same n (lba + i + 1) d got.2 (λ k l l'. laws.read_same a d k))

  -- What a write of `n` sectors leaves.
  abbrev WroteRun : ℕ → ℕ → List ℕ → D → Bool × D → Type 0
  WroteRun n a buf d r =
      ((k : ℕ) → (k < a) ⊎ (a + n ≤ k) → laws.sector r.1 k ≡ laws.sector d k)
      × (r.0 ≡ true → run_of n a r.1 ≡ buf)

  write_from-WroteRun :
      (n i lba : ℕ) (buf : List ℕ) (d : D)
      → lba + i + n ≤ 2 ^ 32
      → length buf ≡ n * 512
      → WroteRun n (lba + i) buf d (write_from drive 512 n i lba buf d)
  unfolding write_from run_of
  write_from-WroteRun zero i lba buf d h len =
      (λ k o. refl, λ t. sym (length_zero buf (omega arith)))
  write_from-WroteRun (suc n) i lba buf d h len = elim (Bool-cases put.0) [
    | inr z ↦ rw z (
      λ k o. away k (λ q. elim o [ inl l ↦ omega arith | inr l ↦ omega arith ]),
      λ t. absurd (let q : false ≡ true = t in cc),
    )
    | inl y ↦ rw y (
        joined y (
          write_from-WroteRun n (i + 1) lba (drop 512 buf) put.1 (omega arith)
            (length-drop 512 buf ∙ omega (arith, len))))
  ]
    where
      a : ℕ
      a = (lba + i) % 2 ^ 32

      put : Bool × D
      put = drive.write_sector a buf d

      at : a ≡ lba + i
      at = omega arith

      away : (k : ℕ) → k ≢ lba + i → laws.sector put.1 k ≡ laws.sector d k
      away k ne = laws.write_other a buf d k (λ q. ne (q ∙ at))

      joined :
          put.0 ≡ true
          → {r : Bool × D} → WroteRun n (lba + (i + 1)) (drop 512 buf) put.1 r
          → ((k : ℕ) → (k < lba + i) ⊎ (lba + i + suc n ≤ k) → laws.sector r.1 k ≡ laws.sector d k)
            × (r.0 ≡ true → laws.sector r.1 (lba + i) ++ run_of n (lba + i + 1) r.1 ≡ buf)
      joined y {r} (others, bytes) = (outside, all)
        where
          outside :
              (k : ℕ) → (k < lba + i) ⊎ (lba + i + suc n ≤ k) → laws.sector r.1 k ≡ laws.sector d k
          outside k o =
              others k (elim o [ inl l ↦ inl (omega arith) | inr l ↦ inr (omega arith) ])
              ∙ away k (λ q. elim o [ inl l ↦ omega arith | inr l ↦ omega arith ])

          all : r.0 ≡ true → laws.sector r.1 (lba + i) ++ run_of n (lba + i + 1) r.1 ≡ buf
          all t =
              let e1 : lba + i + 1 ≡ lba + (i + 1) = omega arith in
              ap (λ x. x ++ run_of n (lba + i + 1) r.1)
                (others (lba + i) (inl (omega arith))
                  ∙ ap (laws.sector put.1) (sym at)
                  ∙ laws.write_ok a buf d (omega (arith, len)) y)
              ∙ ap (λ x. take 512 buf ++ x) (ap (λ x. run_of n x r.1) e1 ∙ bytes t)
              ∙ take-drop 512 buf

  -- A block, as the eight sectors that hold it.
  abbrev pub block_of : D → ℕ → List ℕ
  block_of d block = run_of 8 (block * 8) d

  pub read_block-ReadRun :
      (block : ℕ) (buf : List ℕ) (d : D)
      → block < 2 ^ 29
      → length buf ≡ smkfs_block_size
      → ReadRun 8 (block * 8) d (disk_read_block drive 512 block buf d)
  unfolding disk_read_block
  read_block-ReadRun block buf d h len =
      let at : block * 8 % 2 ^ 32 + 0 ≡ block * 8 = omega arith in
      subst (λ x. ReadRun 8 x d (read_from drive 512 8 0 (block * 8 % 2 ^ 32) buf d)) at
        (read_from-ReadRun 8 0 (block * 8 % 2 ^ 32) buf d (omega arith) len)

  pub write_block-WroteRun :
      (block : ℕ) (buf : List ℕ) (d : D)
      → block < 2 ^ 29
      → length buf ≡ smkfs_block_size
      → WroteRun 8 (block * 8) buf d (disk_write_block drive 512 block buf d)
  unfolding disk_write_block
  write_block-WroteRun block buf d h len =
      let at : block * 8 % 2 ^ 32 + 0 ≡ block * 8 = omega arith in
      subst (λ x. WroteRun 8 x buf d (write_from drive 512 8 0 (block * 8 % 2 ^ 32) buf d)) at
        (write_from-WroteRun 8 0 (block * 8 % 2 ^ 32) buf d (omega arith) len)

  pub other_block :
      (block other : ℕ) (buf : List ℕ) (d : D)
      → block < 2 ^ 29
      → length buf ≡ smkfs_block_size
      → other ≢ block
      → block_of (disk_write_block drive 512 block buf d).1 other ≡ block_of d other
  other_block block other buf d h len ne =
      run_of-same 8 (other * 8) d _
        (λ k l l'. (write_block-WroteRun block buf d h len).0 k (away k l l'))
    where
      away : (k : ℕ) → other * 8 ≤ k → k < other * 8 + 8 → (k < block * 8) ⊎ (block * 8 + 8 ≤ k)
      away k l l' = elim (Bool-cases (ltb k (block * 8))) [
        | inl y ↦ inl (ground arith)
        | inr z ↦ inr (ground arith)
      ]

  -- The disk of the cache, over sectors of 512 bytes, keeps the laws that the cache relies on, for the
  -- blocks whose sectors have 32-bit addresses.
  unfoldable pub sector_laws : DiskLaws (sector_disk drive)
  sector_laws = record {
    limit = 2 ^ 29;
    contents = block_of;
    read_size = λ b buf d h len. (read_block-ReadRun b buf d h len).1;
    read_ok = λ b buf d h len y. (read_block-ReadRun b buf d h len).2 y;
    read_same = λ b buf d h len k.
        run_of-same 8 (k * 8) d _ (λ x l l'. (read_block-ReadRun b buf d h len).0 x);
    write_ok = λ b v d h len y. (write_block-WroteRun b v d h len).1 y;
    write_other = λ b v d h len k ne. other_block b k v d h len ne;
  }

  -- With sectors of 512 bytes, on a block below 2^29, whose sectors have 32-bit addresses, and with a
  -- buffer of 4096 bytes: `disk_read_block` changes no sector and keeps the size of the buffer, and a success
  -- leaves in it the eight sectors of the block; a successful `disk_write_block` leaves the buffer in
  -- these sectors, and no other block changes even where it fails. With a sector size above 0 that
  -- does not divide 4096 both fail and change nothing.
  pub disk_read_block-write_block :
      (block other sector_size : ℕ) (buf : List ℕ) (d : D)
      → block < 2 ^ 29
      → length buf ≡ smkfs_block_size
      → 0 < sector_size
      → (let r = disk_read_block drive 512 block buf d in
          ((k : ℕ) → laws.sector r.2 k ≡ laws.sector d k)
          × (length r.1 ≡ smkfs_block_size)
          × (r.0 ≡ true → r.1 ≡ block_of d block))
        × (let r = disk_write_block drive 512 block buf d in
            (r.0 ≡ true → block_of r.1 block ≡ buf)
            × (other ≢ block → block_of r.1 other ≡ block_of d other))
        × (smkfs_block_size % sector_size ≢ 0
            → (disk_read_block drive sector_size block buf d ≡ (false, buf, d))
              × (disk_write_block drive sector_size block buf d ≡ (false, d)))
  unfolding disk_read_block disk_write_block
  disk_read_block-write_block block other sector_size buf d h len some = (
    read_block-ReadRun block buf d h len,
    ((write_block-WroteRun block buf d h len).1, other_block block other buf d h len),
    λ ne.
        let z : (smkfs_block_size % sector_size == 0) ≡ false = ground arith in
        (rw z refl, rw z refl),
  )

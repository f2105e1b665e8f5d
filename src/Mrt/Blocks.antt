-- ===== src/Mrt/Blocks.antt =====
-- `read_block` and `write_block` of fs/smkfs/block.c, over the block cache, below fs/smkfs/mrt.c. The
-- states are mounts that show their blocks; the log of the journal is a parameter. A block from the
-- limit of the disk on is not asked for: the calls fail there.
use amit_x.Prelude.{
  ℕ, ◌+◌, ◌≤◌, ◌<◌, ◌≡◌, refl, ap, ◌∙◌, arith, Bool, true, false, List, [], Option, none, some,
  length, ltb, ◌==◌, if◌then◌else◌, Bool-cases, inl, inr, ◌⊎◌,
}
use amit_x.Checksum.{smkfs_block_size}
use amit_x.BlockCache.{Disk, Mount, read_block, write_block}
use amit_x.BlockCache.Inv.{DiskLaws, Shows}
use amit_x.BlockCache.Refine.{
  update, ReadSays, WriteSays, read_block-ReadSays, write_block-WriteSays,
}
use amit_x.Mrt.{Entry, Calls, entries_per_block}
use amit_x.Mrt.Bytes.{decode, encode, decode-AllFit, decode-encode, length-encode}
use amit_x.Mrt.Flags.{AllFit}
use amit_x.Mrt.Laws.{CallsLaws}

module _ {D : Type 0} {disk : Disk D} (laws : DiskLaws disk) where
  -- A mount with the blocks that it shows.
  pub record Shown : Type 0 where
    pub mount : Mount D
    pub blocks : ℕ → List ℕ
    pub shows : Shows laws mount blocks

  unfoldable pub entries : Shown → ℕ → List Entry
  entries s x = decode entries_per_block (s.blocks x)

  unfoldable pub read_at :
      (b : ℕ) (s : Shown) (r : Mount D × Option (List ℕ))
      → ReadSays laws s.blocks b r
      → Bool × List Entry × Shown
  read_at b s (m, none) says = (false, [], record { mount = m; blocks = s.blocks; shows = says })
  read_at b s (m, some v) says =
      (true, decode entries_per_block v, record { mount = m; blocks = s.blocks; shows = says.0 })

  unfoldable pub write_at :
      (b : ℕ) (v : List ℕ) (s : Shown) (r : Mount D × Bool)
      → WriteSays laws s.blocks b v r
      → Bool × Shown
  write_at b v s (m, false) says = (false, record { mount = m; blocks = s.blocks; shows = says })
  write_at b v s (m, true) says =
      (true, record { mount = m; blocks = update s.blocks b v; shows = says })

  pub below : (b : ℕ) → ltb b laws.limit ≡ true → b < laws.limit
  below b y = ground arith

  pub encoded : (es : List Entry) → length (encode entries_per_block es) ≡ smkfs_block_size
  encoded es = length-encode entries_per_block es ∙ omega arith

  unfoldable pub read_by :
      (b : ℕ) (s : Shown)
      → (ltb b laws.limit ≡ true) ⊎ (ltb b laws.limit ≡ false)
      → Bool × List Entry × Shown
  unfolding read_at
  read_by b s (inl y) =
      read_at b s (read_block disk s.mount b)
        (read_block-ReadSays laws s.mount s.blocks b (below b y) s.shows)
  read_by b s (inr z) = (false, [], s)

  unfoldable pub write_by :
      (b : ℕ) (es : List Entry) (s : Shown)
      → (ltb b laws.limit ≡ true) ⊎ (ltb b laws.limit ≡ false)
      → Bool × Shown
  unfolding write_at
  write_by b es s (inl y) =
      let v = encode entries_per_block es in
      write_at b v s (write_block disk s.mount b v)
        (write_block-WriteSays laws s.mount s.blocks b v (below b y) (encoded es) s.shows)
  write_by b es s (inr z) = (false, s)

  -- The calls of the table on these mounts, with the log of the journal.
  abbrev pub block_calls : (ℕ → Entry → Shown → Bool × Shown) → Calls Shown
  block_calls log = record {
    read_block = λ b s. read_by b s (Bool-cases (ltb b laws.limit));
    write_block = λ b es s. write_by b es s (Bool-cases (ltb b laws.limit));
    log_update = log;
  }

  read_at-same :
      (b : ℕ) (s : Shown) (r : Mount D × Option (List ℕ)) (says : ReadSays laws s.blocks b r)
      (x : ℕ)
      → entries (read_at b s r says).2 x ≡ entries s x
  unfolding entries read_at
  read_at-same b s (m, none) says x = refl
  read_at-same b s (m, some v) says x = refl

  read_at-gives :
      (b : ℕ) (s : Shown) (r : Mount D × Option (List ℕ)) (says : ReadSays laws s.blocks b r)
      → (read_at b s r says).0 ≡ true
      → (read_at b s r says).1 ≡ entries s b
  unfolding entries read_at
  read_at-gives b s (m, none) says h = absurd (let q : false ≡ true = h in cc)
  read_at-gives b s (m, some v) says h = ap (decode entries_per_block) says.1

  pub read_by-same :
      (b : ℕ) (s : Shown) (c : (ltb b laws.limit ≡ true) ⊎ (ltb b laws.limit ≡ false)) (x : ℕ)
      → entries (read_by b s c).2 x ≡ entries s x
  unfolding read_by
  read_by-same b s (inl y) x =
      read_at-same b s (read_block disk s.mount b)
        (read_block-ReadSays laws s.mount s.blocks b (below b y) s.shows) x
  read_by-same b s (inr z) x = refl

  pub read_by-gives :
      (b : ℕ) (s : Shown) (c : (ltb b laws.limit ≡ true) ⊎ (ltb b laws.limit ≡ false))
      → (read_by b s c).0 ≡ true
      → (read_by b s c).1 ≡ entries s b
  unfolding read_by
  read_by-gives b s (inl y) h = read_at-gives b s _ _ h
  read_by-gives b s (inr z) h = absurd (let q : false ≡ true = h in cc)

  write_at-done :
      (b : ℕ) (v : List ℕ) (s : Shown) (r : Mount D × Bool) (says : WriteSays laws s.blocks b v r)
      → (write_at b v s r says).0 ≡ true
      → (x : ℕ)
      → entries (write_at b v s r says).1 x
        ≡ (if x == b then decode entries_per_block v else entries s x)
  unfolding entries write_at
  write_at-done b v s (m, false) says h x = absurd (let q : false ≡ true = h in cc)
  write_at-done b v s (m, true) says h x = elim (Bool-cases (x == b)) [
    | inl y ↦ rw y refl
    | inr z ↦ rw z refl
  ]

  write_at-failed :
      (b : ℕ) (v : List ℕ) (s : Shown) (r : Mount D × Bool) (says : WriteSays laws s.blocks b v r)
      → (write_at b v s r says).0 ≡ false
      → (x : ℕ) → entries (write_at b v s r says).1 x ≡ entries s x
  unfolding entries write_at
  write_at-failed b v s (m, false) says h x = refl
  write_at-failed b v s (m, true) says h x = absurd (let q : true ≡ false = h in cc)

  pub write_by-done :
      (b : ℕ) (es : List Entry) (s : Shown)
      (c : (ltb b laws.limit ≡ true) ⊎ (ltb b laws.limit ≡ false))
      → length es ≡ entries_per_block
      → AllFit es
      → (write_by b es s c).0 ≡ true
      → (x : ℕ) → entries (write_by b es s c).1 x ≡ (if x == b then es else entries s x)
  unfolding write_by
  write_by-done b es s (inl y) n f h x =
      write_at-done b (encode entries_per_block es) s _ _ h x
      ∙ ap (λ l. if x == b then l else entries s x) (decode-encode entries_per_block es n f)
  write_by-done b es s (inr z) n f h x = absurd (let q : false ≡ true = h in cc)

  pub write_by-failed :
      (b : ℕ) (es : List Entry) (s : Shown)
      (c : (ltb b laws.limit ≡ true) ⊎ (ltb b laws.limit ≡ false))
      → (write_by b es s c).0 ≡ false
      → (x : ℕ) → entries (write_by b es s c).1 x ≡ entries s x
  unfolding write_by
  write_by-failed b es s (inl y) h x = write_at-failed b (encode entries_per_block es) s _ _ h x
  write_by-failed b es s (inr z) h x = refl

  pub entries-AllFit : (s : Shown) (x : ℕ) → AllFit (entries s x)
  unfolding entries
  entries-AllFit s x = decode-AllFit entries_per_block (s.blocks x)

  -- The block cache has the laws of the table, if the log leaves the blocks of the table as they are.
  abbrev pub block_laws :
      (log : ℕ → Entry → Shown → Bool × Shown) (start blocks : ℕ)
      → ((id : ℕ) (e : Entry) (s : Shown) (x : ℕ)
          → start ≤ x
          → x < start + blocks
          → entries (log id e s).1 x ≡ entries s x)
      → CallsLaws (block_calls log) start blocks
  block_laws log start blocks outside = record {
    view = entries;
    view_fits = entries-AllFit;
    read_same = λ b s x. read_by-same b s _ x;
    read_gives = λ b s h. read_by-gives b s _ h;
    write_done = λ b es s n f h x. write_by-done b es s _ n f h x;
    write_failed = λ b es s h x. write_by-failed b es s _ h x;
    log_same = outside;
  }

-- ===== src/Checksum/Header.antt =====
-- The header of fs/smkfs/checksum.c: what `header_init` writes is accepted and read back, and a
-- checksum that was just written is verified.
use amit_x.Prelude.{
  ℕ, ◌+◌, ◌*◌, ◌%◌, ◌^◌, ◌≤◌, ◌<◌, ◌≡◌, refl, ◌∙◌, arith, true, false, List, [], ◌∷◌, length,
  get_or, ltb, ◌==◌, ==_iff, ◌⊎◌, inl,
}
use amit_x.Checksum.{
  checksum_compute, get16, put16, get32, put32, put_magic, has_magic, smkfs_version,
  smkfs_block_size, header_init, header_validate, header_checksum_update, header_checksum_verify,
}
use amit_x.Checksum.Fields.{
  length-put16, length-put32, get_or-put16, get_or-put32, get_or-put16_low, get_or-put16_high,
  get16-put16, get32-put32, get32_apart, get16_apart, put32_over,
}

has_magic_apart32 : (b : List ℕ) (at v : ℕ) → 4 ≤ at → has_magic (put32 b at v) ≡ has_magic b
unfolding has_magic
has_magic_apart32 b at v h = rw (
  get_or-put32 b at v 0 (inl (omega arith)),
  get_or-put32 b at v 1 (inl (omega arith)),
  get_or-put32 b at v 2 (inl (omega arith)),
  get_or-put32 b at v 3 (inl (omega arith)),
)

has_magic_apart16 : (b : List ℕ) (at v : ℕ) → 4 ≤ at → has_magic (put16 b at v) ≡ has_magic b
unfolding has_magic
has_magic_apart16 b at v h = rw (
  get_or-put16 b at v 0 (inl (omega arith)),
  get_or-put16 b at v 1 (inl (omega arith)),
  get_or-put16 b at v 2 (inl (omega arith)),
  get_or-put16 b at v 3 (inl (omega arith)),
)

has_magic-put_magic :
    (b : List ℕ)
    → 4 ≤ length b
    → (has_magic (put_magic b) ≡ true) × (length (put_magic b) ≡ length b)
unfolding has_magic put_magic
has_magic-put_magic [] h = absurd (omega arith)
has_magic-put_magic (a ∷ []) h = absurd (omega arith)
has_magic-put_magic (a ∷ b ∷ []) h = absurd (omega arith)
has_magic-put_magic (a ∷ b ∷ c ∷ []) h = absurd (omega arith)
has_magic-put_magic (a ∷ b ∷ c ∷ d ∷ bs) h = (refl, refl)

-- A header that `header_init` wrote into a block of at least 20 bytes passes `header_validate` for
-- its own type and for no other, with types below 2^15; its length and flags are read back as
-- 32-bit words, its checksum as 0.
pub header_init_lem :
    (b : List ℕ) (type expected len flags : ℕ)
    → 20 ≤ length b
    → type < 2 ^ 15
    → let h = header_init b type len flags in
      (header_validate h expected ≡ (type == expected))
      × (get32 h 8 ≡ len % 2 ^ 32)
      × (get32 h 12 ≡ flags % 2 ^ 32)
      × (get32 h 16 ≡ 0)
unfolding header_init
header_init_lem b type expected len flags big small = (
  unfold header_validate in rw (magic, version, kind) refl,
  get32_apart four 16 0 8 (inl (omega arith))
      ∙ get32_apart three 12 flags 8 (inl (omega arith))
      ∙ get32-put32 two 8 len (omega (arith, sizes)),
  get32_apart four 16 0 12 (inl (omega arith)) ∙ get32-put32 three 12 flags (omega (arith, sizes)),
  get32-put32 four 16 0 (omega (arith, sizes)),
)
  where
    zeroth : List ℕ
    zeroth = put_magic b

    one : List ℕ
    one = put16 zeroth 4 smkfs_version

    two : List ℕ
    two = put16 one 6 type

    three : List ℕ
    three = put32 two 8 len

    four : List ℕ
    four = put32 three 12 flags

    sizes :
        (20 ≤ length zeroth)
        × (20 ≤ length one)
        × (20 ≤ length two)
        × (20 ≤ length three)
        × (20 ≤ length four)
    sizes = omega (
      arith,
      (has_magic-put_magic b (omega arith)).1,
      length-put16 zeroth 4 smkfs_version,
      length-put16 one 6 type,
      length-put32 two 8 len,
      length-put32 three 12 flags,
    )

    magic : has_magic (put32 four 16 0) ≡ true
    magic =
        has_magic_apart32 four 16 0 (omega arith)
        ∙ has_magic_apart32 three 12 flags (omega arith)
        ∙ has_magic_apart32 two 8 len (omega arith)
        ∙ has_magic_apart16 one 6 type (omega arith)
        ∙ has_magic_apart16 zeroth 4 smkfs_version (omega arith)
        ∙ (has_magic-put_magic b (omega arith)).0

    past : (at : ℕ) → at + 2 ≤ 8 → get16 (put32 four 16 0) at ≡ get16 two at
    past at h =
        get16_apart four 16 0 at (omega arith)
        ∙ get16_apart three 12 flags at (omega arith)
        ∙ get16_apart two 8 len at h

    version : get16 (put32 four 16 0) 4 ≡ smkfs_version
    version =
        past 4 (omega arith)
        ∙ (unfold get16 in
            rw
              (
                get_or-put16 one 6 type 4 (inl (omega arith)),
                get_or-put16 one 6 type 5 (inl (omega arith)),
              )
              (get_or_version))
      where
        get_or_version : get_or one 4 0 + get_or one 5 0 * 2 ^ 8 ≡ smkfs_version
        get_or_version = omega (
          arith,
          get_or-put16_low zeroth 4 smkfs_version (omega (arith, sizes)),
          get_or-put16_high zeroth 4 smkfs_version (omega (arith, sizes)),
        )

    kind : get16 (put32 four 16 0) 6 ≡ type
    kind = omega (arith, past 6 (omega arith), get16-put16 one 6 type (omega (arith, sizes)))

-- `header_checksum_verify` accepts a block of 20 to 4096 bytes whose checksum
-- `header_checksum_update` has just written, and only the checksum's four bytes were changed.
pub header_checksum_verify-update :
    (b : List ℕ)
    → 20 ≤ length b
    → length b ≤ smkfs_block_size
    → let c = header_checksum_update b in
      (header_checksum_verify c ≡ true)
      × (length c ≡ length b)
      × ((i : ℕ) → (i < 16) ⊎ (20 ≤ i) → get_or c i 0 ≡ get_or b i 0)
unfolding header_checksum_update
header_checksum_verify-update b big small =
    let c = put32 (put32 b 16 0) 16 (checksum_compute (put32 b 16 0)) in
    let fits : ltb smkfs_block_size (length c) ≡ false = ground (arith, size) in
    (
      unfold header_checksum_verify in
          rw
            (
              fits,
              put32_over (put32 b 16 0) 16 (checksum_compute (put32 b 16 0)) 0
                  (omega (arith, length-put32 b 16 0)),
              put32_over b 16 0 0 big,
            )
            (rw stored ((==_iff _ _).1 refl)),
      size,
      λ i h. get_or-put32 (put32 b 16 0) 16 _ i h ∙ get_or-put32 b 16 0 i h,
    )
  where
    size : length (put32 (put32 b 16 0) 16 (checksum_compute (put32 b 16 0))) ≡ length b
    size = length-put32 _ 16 _ ∙ length-put32 b 16 0

    word : checksum_compute (put32 b 16 0) < 2 ^ 32
    word = unfold checksum_compute in omega arith

    stored :
        get32 (put32 (put32 b 16 0) 16 (checksum_compute (put32 b 16 0))) 16
        ≡ checksum_compute (put32 b 16 0)
    stored = omega (
      arith,
      word,
      get32-put32 (put32 b 16 0) 16 (checksum_compute (put32 b 16 0))
          (omega (arith, length-put32 b 16 0)),
    )

-- ===== src/Mrt/Alloc.antt =====
-- `mrt_alloc_entry` of fs/smkfs/mrt.c takes the lowest free entry.
use amit_x.Prelude.{
  ℕ, bit_or, zero, suc, ◌+◌, ◌-◌, ◌*◌, ◌/◌, ◌%◌, ◌^◌, ◌≤◌, ◌<◌, ◌≡◌, ◌≢◌, refl, ap, sym, ◌∙◌, subst,
  arith, Bool, true, false, List, [], ◌∷◌, Option, none, some, length, leb, ◌==◌, Bool-cases, inl,
  inr, ◌⊎◌,
}
use amit_x.Mrt.{
  Entry, Calls, Mrt, Allocated, entry, fails, Status, ok, err_io, err_inval, err_nospc, err_journal,
  err_notfound, err_not_yet_bound, entry_at, entries_per_block, is_allocated, taken, free_slot,
  write_entry, counted, alloc_from, mrt_alloc_entry,
}
use amit_x.Mrt.Flags.{AllFit, flag_set, flag_clear, taken-Fits}
use amit_x.Mrt.Laws.{
  FailedRead, FailedWrite, FailedLog, CallsLaws, entry_of, Sized, Same, Changed, Outcome,
}
use amit_x.Mrt.Write.{OnlyEnv, write_entry-Outcome}
use amit_x.Mrt.Entries.{Outcome-after, read-Same}

-- The answer is the first index from `j` on of a free entry that is not that of the record 0, or
-- there is none.
abbrev Slot : ℕ → ℕ → List Entry → Option ℕ → Type 0
Slot i j es none =
    (k : ℕ)
    → k < length es
    → i * entries_per_block + (j + k) ≢ 0
    → is_allocated (entry_at es k) ≡ true
Slot i j es (some p) =
    (k : ℕ) × (k < length es)
    × (p ≡ j + k)
    × (i * entries_per_block + p ≢ 0)
    × (is_allocated (entry_at es k) ≡ false)
    × ((k' : ℕ)
        → k' < k
        → i * entries_per_block + (j + k') ≢ 0
        → is_allocated (entry_at es k') ≡ true)

-- An entry that is passed over.
Slot-next :
    (i j : ℕ) (e : Entry) (es : List Entry) (r : Option ℕ)
    → (i * entries_per_block + j ≢ 0 → is_allocated e ≡ true)
    → Slot i (j + 1) es r
    → Slot i j (e ∷ es) r
Slot-next i j e es none here h = away
  where
    away :
        (k : ℕ)
        → k < suc (length es)
        → i * entries_per_block + (j + k) ≢ 0
        → is_allocated (entry_at (e ∷ es) k) ≡ true
    away zero l ne = here (λ q. ne (omega arith))
    away (suc k) l ne = h k (omega arith) (λ q. ne (omega arith))
Slot-next i j e es (some p) here (k, l, at, ne, free, before) =
    (suc k, omega arith, omega arith, ne, free, away)
  where
    away :
        (k' : ℕ)
        → k' < suc k
        → i * entries_per_block + (j + k') ≢ 0
        → is_allocated (entry_at (e ∷ es) k') ≡ true
    away zero l' ne' = here (λ q. ne' (omega arith))
    away (suc k') l' ne' = before k' (omega arith) (λ q. ne' (omega arith))

free_slot-Slot : (i j : ℕ) (es : List Entry) → Slot i j es (free_slot i j es)
unfolding free_slot
free_slot-Slot i j [] = λ k l ne. absurd (omega arith)
free_slot-Slot i j (e ∷ es) = elim (Bool-cases (i * entries_per_block + j == 0)) [
  | inl first ↦
      rw first
        (Slot-next i j e es _ (λ ne. absurd (ne (ground arith))) (free_slot-Slot i (j + 1) es))
  | inr other ↦ rw other (elim (Bool-cases (is_allocated e)) [
    | inl held ↦ rw held (Slot-next i j e es _ (λ ne. held) (free_slot-Slot i (j + 1) es))
    | inr free ↦
        rw free
          (0, omega arith, omega arith, λ q. ground arith, free, λ k' l ne. absurd (omega arith))
  ])
]

-- What must become of an entry that is allocated.
abbrev pub allotted : Entry → Entry
allotted e = record {
  physical_block = 0xFFFFFFFFFFFFFFFF;
  flags = bit_or e.flags 1;
  reserved = e.reserved;
  generation = (e.generation + 1) % 2 ^ 32;
}

module _ {S : Type 0} {calls : Calls S} (m : Mrt S) (laws : CallsLaws calls m.start m.blocks) where
  -- All records below a bound but the record 0 have allocated entries.
  abbrev pub FullBelow : ℕ → Type 0
  FullBelow n = (k : ℕ) → k < n → k ≢ 0 → (entry_of laws m.env k).flags % 2 ≡ 1

  -- The lowest free entry.
  abbrev pub LowestEntry : ℕ → Type 0
  LowestEntry id =
      (id < m.blocks * entries_per_block)
      × (id ≢ 0)
      × ((entry_of laws m.env id).flags % 2 ≡ 0)
      × FullBelow id

  -- What `mrt_alloc_entry` leaves by its answer.
  abbrev pub AllocOutcome : Allocated → Mrt S → Type 0
  AllocOutcome (entry id generation) m' =
      LowestEntry id
      × (generation ≡ ((entry_of laws m.env id).generation + 1) % 2 ^ 32)
      × Changed laws id (allotted (entry_of laws m.env id)) m.env m'.env
      × (m' ≡ record m { env = m'.env; free_count = (m.free_count + 2 ^ 64 - 1) % 2 ^ 64 })
  AllocOutcome (fails err_nospc) m' =
      FullBelow (m.blocks * entries_per_block) × Same laws m.env m'.env × OnlyEnv laws m m'
  AllocOutcome (fails err_io) m' =
      Same laws m.env m'.env
      × ((b : ℕ) × (m.start ≤ b)
          × (b < m.start + m.blocks)
          × (FailedRead laws b ⊎ FailedWrite laws b))
      × OnlyEnv laws m m'
  AllocOutcome (fails err_journal) m' =
      ((id : ℕ) × LowestEntry id
        × FailedLog laws id (allotted (entry_of laws m.env id))
        × (Same laws m.env m'.env
            ⊎ (Changed laws id (allotted (entry_of laws m.env id)) m.env m'.env
                × FailedWrite laws (m.start + id / entries_per_block))))
      × OnlyEnv laws m m'
  AllocOutcome (fails ok) m' = ⊥
  AllocOutcome (fails err_inval) m' = ⊥
  AllocOutcome (fails err_notfound) m' = ⊥
  AllocOutcome (fails err_not_yet_bound) m' = ⊥

  counted-AllocOutcome :
      (id generation : ℕ) (r : Status × Mrt S)
      → LowestEntry id
      → generation ≡ ((entry_of laws m.env id).generation + 1) % 2 ^ 32
      → Outcome laws id (taken (entry_of laws m.env id)) m.env r.0 (r.1).env
      → OnlyEnv laws m r.1
      → AllocOutcome (counted calls id generation r).0 (counted calls id generation r).1
  counted-AllocOutcome id g (ok, m') low e o env_only = (
    low,
    e,
    o,
    ap (λ (x : Mrt S). record x { free_count = (x.free_count + 2 ^ 64 - 1) % 2 ^ 64 }) env_only,
  )
  counted-AllocOutcome id g (err_io, m') low e o env_only = (
    o.0,
    (m.start + id / entries_per_block, omega (arith, low.0), omega (arith, low.0), o.1),
    env_only,
  )
  counted-AllocOutcome id g (err_journal, m') low e o env_only = ((id, low, o.0, o.1), env_only)
  counted-AllocOutcome id g (err_inval, m') low e o env_only = absurd o
  counted-AllocOutcome id g (err_nospc, m') low e o env_only = absurd o
  counted-AllocOutcome id g (err_notfound, m') low e o env_only = absurd o
  counted-AllocOutcome id g (err_not_yet_bound, m') low e o env_only = absurd o

  module _ (sz : Sized laws m.env) where
    alloc_from-AllocOutcome :
        (n i : ℕ) (s : S)
        → i + n ≡ m.blocks
        → ((x : ℕ) → laws.view s x ≡ laws.view m.env x)
        → FullBelow (i * entries_per_block)
        → let r = alloc_from calls n i (record m { env = s }) in AllocOutcome r.0 r.1
    unfolding alloc_from
    alloc_from-AllocOutcome zero i s e same full =
        (λ k l ne. full k (omega arith) ne, read-Same laws m.env s sz same, refl)
    alloc_from-AllocOutcome (suc n) i s e same full = elim (Bool-cases got.0) [
      | inr z ↦
          rw z
            (read-Same laws m.env got.2 sz same', (b, omega arith, omega arith, inl (s, z)), refl)
      | inl y ↦ rw y (
          scanned y (free_slot i 0 got.1) (free_slot-Slot i 0 got.1)
            (alloc_from-AllocOutcome n (i + 1) got.2 (omega arith) same'))
    ]
      where
        b : ℕ
        b = m.start + i

        got : Bool × List Entry × S
        got = calls.read_block b s

        same' : (x : ℕ) → laws.view got.2 x ≡ laws.view m.env x
        same' x = laws.read_same b s x ∙ same x

        next : Option ℕ → Allocated × Mrt S
        next r = elim r [
          | none ↦ alloc_from calls n (i + 1) (record m { env = got.2 })
          | some j ↦
              counted calls (i * entries_per_block + j) (taken (entry_at got.1 j)).generation (
                write_entry calls b j (i * entries_per_block + j) got.1 (taken (entry_at got.1 j))
                  (record m { env = got.2 }))
        ]

        given : got.0 ≡ true → got.1 ≡ laws.view m.env b
        given y = laws.read_gives b s y ∙ same b

        size : got.0 ≡ true → length got.1 ≡ entries_per_block
        size y = ap length (given y) ∙ sz b (omega arith) (omega arith)

        -- The record at index `k` of the block.
        own :
            got.0 ≡ true
            → (k : ℕ) → k < entries_per_block
            → entry_of laws m.env (i * entries_per_block + k) ≡ entry_at got.1 k
        own y k l =
            let e1 : m.start + (i * entries_per_block + k) / entries_per_block ≡ b = omega arith in
            let e2 : (i * entries_per_block + k) % entries_per_block ≡ k = omega arith in
            ap (λ x. entry_at (laws.view m.env x) ((i * entries_per_block + k) % entries_per_block))
              e1
            ∙ ap (entry_at (laws.view m.env b)) e2
            ∙ ap (λ es. entry_at es k) (sym (given y))

        -- The blocks before and the entries of this one before index `j` are full.
        full_to :
            got.0 ≡ true
            → (j : ℕ) → j ≤ entries_per_block
            → ((k : ℕ)
                → k < j
                → i * entries_per_block + (0 + k) ≢ 0
                → is_allocated (entry_at got.1 k) ≡ true)
            → FullBelow (i * entries_per_block + j)
        full_to y j le h k l ne = elim (Bool-cases (leb (i * entries_per_block) k)) [
          | inr before ↦ full k (ground arith) ne
          | inl inside ↦
              let d : ℕ = k - i * entries_per_block in
              let e1 : k ≡ i * entries_per_block + d = ground arith in
              let e2 = own y d (omega arith) in
              flag_set (entry_of laws m.env k) (
                ap (λ x. is_allocated (entry_of laws m.env x)) e1
                ∙ ap is_allocated e2
                ∙ h d (omega arith) (λ q. ne (omega arith)))
        ]

        lowest :
            got.0 ≡ true
            → (j : ℕ) → Slot i 0 got.1 (some j)
            → LowestEntry (i * entries_per_block + j)
        lowest y j (k, l, at, ne, free, before) =
            let sized = size y in
            let same_index : j ≡ k = omega arith in
            (
              omega arith,
              ne,
              flag_clear (entry_of laws m.env (i * entries_per_block + j)) (
                  ap is_allocated (own y j (omega arith))
                  ∙ ap (λ x. is_allocated (entry_at got.1 x)) same_index
                  ∙ free),
              full_to y j (omega arith) (λ k' l' ne'. before k' (omega arith) ne'),
            )

        written :
            got.0 ≡ true
            → (j : ℕ) → j < entries_per_block
            → let e = taken (entry_at got.1 j) in
              let id = i * entries_per_block + j in
              let r = write_entry calls b j id got.1 e (record m { env = got.2 }) in
              Outcome laws id e m.env r.0 (r.1).env × OnlyEnv laws m r.1
        written y j l =
            let id : ℕ = i * entries_per_block + j in
            let ent = taken (entry_at got.1 j) in
            let e1 : m.start + id / entries_per_block ≡ b = omega arith in
            let e2 : id % entries_per_block ≡ j = omega arith in
            let at : got.1 ≡ laws.view got.2 (m.start + id / entries_per_block) =
              given y ∙ sym (same' b) ∙ ap (laws.view got.2) (sym e1) in
            let w =
              write_entry-Outcome laws id got.1 ent (record m { env = got.2 }) at
                (λ x l1 l2. ap length (same' x) ∙ sz x l1 l2)
                (taken-Fits _ (subst AllFit (sym (given y)) (laws.view_fits m.env b) j))
                (omega arith) in
            let w1 =
              subst
                (λ x.
                  let r =
                    write_entry calls x (id % entries_per_block) id got.1 ent
                      (record m { env = got.2 }) in
                  Outcome laws id ent got.2 r.0 (r.1).env
                  × OnlyEnv laws (record m { env = got.2 }) r.1)
                e1 w in
            let w2 =
              subst
                (λ x.
                  let r = write_entry calls b x id got.1 ent (record m { env = got.2 }) in
                  Outcome laws id ent got.2 r.0 (r.1).env
                  × OnlyEnv laws (record m { env = got.2 }) r.1)
                e2 w1 in
            (Outcome-after laws id ent m.env got.2 _ _ same' w2.0, w2.1)

        scanned :
            got.0 ≡ true
            → (r : Option ℕ) → Slot i 0 got.1 r
            → (FullBelow ((i + 1) * entries_per_block)
                → let q = alloc_from calls n (i + 1) (record m { env = got.2 }) in
                  AllocOutcome q.0 q.1)
            → AllocOutcome (next r).0 (next r).1
        scanned y none none_free go =
            let sized = size y in
            go (
              subst FullBelow (omega arith) (
                full_to y entries_per_block (omega arith) (λ k l ne. none_free k (omega arith) ne)))
        scanned y (some j) slot go =
            let sized = size y in
            let inside : j < entries_per_block = omega (arith, slot.1, slot.2) in
            let o = own y j inside in
            let w = written y j inside in
            counted-AllocOutcome (i * entries_per_block + j) (taken (entry_at got.1 j)).generation _
              (lowest y j slot) (ap (λ e'. (e'.generation + 1) % 2 ^ 32) (sym o))
              (subst
                (λ e'.
                  let r =
                    write_entry calls b j (i * entries_per_block + j) got.1
                      (taken (entry_at got.1 j)) (record m { env = got.2 }) in
                  Outcome laws (i * entries_per_block + j) (taken e') m.env r.0 (r.1).env)
                (sym o) w.0)
              w.1

    -- On a table whose blocks are full, `mrt_alloc_entry` takes the lowest entry, but that of the record 0,
    -- whose flag 1 is not set: it gets the flag, the block UINT64_MAX and the next 32-bit generation, which is
    -- answered, no other entry changes, and the count of free entries falls by one. Or it fails and
    -- keeps the count: with SMKFS_ERR_NOSPC, every entry but that one has the flag, and the table is as it was; with
    -- SMKFS_ERR_IO, a read or write of a block of the table failed, and the table is as it was; with
    -- SMKFS_ERR_JOURNAL, the log of that change failed, and the table is as it was, or has the change and a
    -- write of its block failed too.
    pub mrt_alloc_entry_lem : AllocOutcome (mrt_alloc_entry calls m).0 (mrt_alloc_entry calls m).1
    unfolding mrt_alloc_entry
    mrt_alloc_entry_lem =
        alloc_from-AllocOutcome m.blocks 0 m.env (omega arith) (λ x. refl)
          (λ k l ne. absurd (omega arith))

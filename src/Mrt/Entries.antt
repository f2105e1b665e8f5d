-- ===== src/Mrt/Entries.antt =====
-- `mrt_update_entry` and `mrt_free_entry` of fs/smkfs/mrt.c.
use amit_x.Prelude.{
  ℕ, bit_or, subst, ◌<◌, ◌+◌, ◌*◌, ◌/◌, ◌%◌, ◌^◌, ◌≤◌, ◌<◌, ◌≡◌, ◌≢◌, refl, ap, sym, ◌∙◌, subst,
  arith, Bool, true, false, List, length, leb, if◌then◌else◌, Bool-cases, inl, inr, ◌⊎◌,
}
use amit_x.Mrt.{
  Entry, Calls, Mrt, Status, ok, err_io, err_inval, err_nospc, err_journal, err_notfound,
  err_not_yet_bound, entry_at, entries_per_block, bound, released, write_entry, change_entry,
  mrt_update_entry, mrt_free_entry, freed,
}
use amit_x.Mrt.Flags.{Fits, AllFit, bound-Fits, released-Fits}
use amit_x.Mrt.Laws.{CallsLaws, entry_of, Sized, Same, Changed, Outcome}
use amit_x.Mrt.Write.{OnlyEnv, write_entry-Outcome}

module _ {S : Type 0} {calls : Calls S} {start blocks : ℕ}
    (laws : CallsLaws calls start blocks) where
  entry_of-same :
      (s s' : S) (id : ℕ)
      → ((x : ℕ) → laws.view s' x ≡ laws.view s x)
      → entry_of laws s' id ≡ entry_of laws s id
  entry_of-same s s' id h =
      ap (λ es. entry_at es (id % entries_per_block)) (h (start + id / entries_per_block))

  Same-after :
      (s0 s s' : S) → ((x : ℕ) → laws.view s x ≡ laws.view s0 x) → Same laws s s' → Same laws s0 s'
  Same-after s0 s s' h a = record {
    all = λ id l. a.all id l ∙ entry_of-same s0 s id h;
    sized = a.sized;
  }

  Changed-after :
      (id : ℕ) (e : Entry) (s0 s s' : S)
      → ((x : ℕ) → laws.view s x ≡ laws.view s0 x)
      → Changed laws id e s s'
      → Changed laws id e s0 s'
  Changed-after id e s0 s s' h c = record {
    here = c.here;
    others = λ k l ne. c.others k l ne ∙ entry_of-same s0 s k h;
    sized = c.sized;
  }

  -- A read before the change does not matter.
  pub Outcome-after :
      (id : ℕ) (e : Entry) (s0 s : S) (st : Status) (s' : S)
      → ((x : ℕ) → laws.view s x ≡ laws.view s0 x)
      → Outcome laws id e s st s'
      → Outcome laws id e s0 st s'
  Outcome-after id e s0 s ok s' h o = Changed-after id e s0 s s' h o
  Outcome-after id e s0 s err_io s' h o = (Same-after s0 s s' h o.0, o.1)
  Outcome-after id e s0 s err_journal s' h (lost, inl a) = (lost, inl (Same-after s0 s s' h a))
  Outcome-after id e s0 s err_journal s' h (lost, inr (c, torn)) =
      (lost, inr (Changed-after id e s0 s s' h c, torn))
  Outcome-after id e s0 s err_inval s' h o = o
  Outcome-after id e s0 s err_nospc s' h o = o
  Outcome-after id e s0 s err_notfound s' h o = o
  Outcome-after id e s0 s err_not_yet_bound s' h o = o

  pub read-Same :
      (s s' : S) → Sized laws s → ((x : ℕ) → laws.view s' x ≡ laws.view s x) → Same laws s s'
  read-Same s s' sz h = record {
    all = λ id l. entry_of-same s s' id h;
    sized = λ x l l'. ap length (h x) ∙ sz x l l';
  }

abbrev pub is_ok : Status → Bool
is_ok ok = true
is_ok err_io = false
is_ok err_inval = false
is_ok err_nospc = false
is_ok err_journal = false
is_ok err_notfound = false
is_ok err_not_yet_bound = false

pub ok_ne : ok ≢ err_inval
ok_ne e = let b : true ≡ false = ap is_ok e in cc

-- What must become of an entry: with an update, it has the block, and the flags are added; with a
-- release, it has neither block (UINT64_MAX) nor flags.
abbrev pub rebound : ℕ → ℕ → Entry → Entry
rebound new_block flags e = record {
  physical_block = new_block;
  flags = bit_or e.flags flags;
  reserved = e.reserved;
  generation = e.generation;
}

abbrev pub vacated : Entry → Entry
vacated e = record {
  physical_block = 0xFFFFFFFFFFFFFFFF;
  flags = 0;
  reserved = e.reserved;
  generation = e.generation;
}

module _ {S : Type 0} {calls : Calls S} (m : Mrt S) (laws : CallsLaws calls m.start m.blocks) where
  -- What a call that changes the entry of `id` by `f` leaves: an identifier out of range is refused.
  abbrev pub ChangeOutcome : (Entry → Entry) → ℕ → Status → Mrt S → Type 0
  ChangeOutcome f id st m' =
      ((st ≡ err_inval) × (m.capacity ≤ id) × (m' ≡ m))
      ⊎ ((id < m.capacity)
          × Outcome laws id (f (entry_of laws m.env id)) m.env st m'.env
          × OnlyEnv laws m m')

  -- What `mrt_free_entry` leaves: the count of free entries grows with success only.
  abbrev pub FreeOutcome : ℕ → Status → Mrt S → Type 0
  FreeOutcome id st m' =
      ((st ≡ err_inval) × (m.capacity ≤ id) × (m' ≡ m))
      ⊎ ((id < m.capacity)
          × Outcome laws id (vacated (entry_of laws m.env id)) m.env st m'.env
          × (m' ≡ record m {
            env = m'.env;
            free_count = if is_ok st then (m.free_count + 1) % 2 ^ 64 else m.free_count;
          }))

  module _ (fits : m.capacity ≤ m.blocks * entries_per_block) (sz : Sized laws m.env) where
    change_entry-ChangeOutcome :
        (f : Entry → Entry) (id : ℕ)
        → ((e : Entry) → Fits e → Fits (f e))
        → let r = change_entry calls f id m in ChangeOutcome f id r.0 r.1
    unfolding change_entry
    change_entry-ChangeOutcome f id keeps = elim (Bool-cases (leb m.capacity id)) [
      | inl out ↦ rw out (inl (refl, ground arith, refl))
      | inr lt ↦ rw lt (elim (Bool-cases got.0) [
        | inr z ↦ rw z (
            inr (
              ground arith,
              (read-Same laws m.env got.2 sz (laws.read_same b m.env), inl (m.env, z)),
              refl,
            ))
        | inl y ↦ rw y (let a = after (ground arith) y in inr (ground arith, a.0, a.1))
      ])
    ]
      where
        b : ℕ
        b = m.start + id / entries_per_block

        got : Bool × List Entry × S
        got = calls.read_block b m.env

        m1 : Mrt S
        m1 = record m { env = got.2 }

        e : Entry
        e = f (entry_at got.1 (id % entries_per_block))

        after :
            id < m.capacity
            → got.0 ≡ true
            → let r = write_entry calls b (id % entries_per_block) id got.1 e m1 in
              Outcome laws id (f (entry_of laws m.env id)) m.env r.0 (r.1).env × OnlyEnv laws m r.1
        after lt y =
            let given : got.1 ≡ laws.view m.env b = laws.read_gives b m.env y in
            let r =
              write_entry-Outcome laws id got.1 e m1 (given ∙ sym (laws.read_same b m.env b))
                (λ x l l'. ap length (laws.read_same b m.env x) ∙ sz x l l')
                (keeps _
                  (subst AllFit (sym given) (laws.view_fits m.env b) (id % entries_per_block)))
                (omega arith) in
            (
              subst
                  (λ es.
                    Outcome laws id (f (entry_at es (id % entries_per_block))) m.env
                      (write_entry calls b (id % entries_per_block) id got.1 e m1).0
                      ((write_entry calls b (id % entries_per_block) id got.1 e m1).1).env)
                  given (Outcome-after laws id e m.env got.2 _ _ (laws.read_same b m.env) r.0),
              r.1,
            )

    freed-FreeOutcome :
        (id : ℕ) (r : Status × Mrt S)
        → ChangeOutcome released id r.0 r.1
        → FreeOutcome id (freed calls r).0 (freed calls r).1
    freed-FreeOutcome id (ok, m') (inl (e, le, h)) = absurd (ok_ne e)
    freed-FreeOutcome id (ok, m') (inr (lt, o, e)) =
        inr (lt, o, ap (λ (x : Mrt S). record x { free_count = (x.free_count + 1) % 2 ^ 64 }) e)
    freed-FreeOutcome id (err_io, m') (inl (e, le, h)) = inl (e, le, h)
    freed-FreeOutcome id (err_io, m') (inr (lt, o, e)) = inr (lt, o, e)
    freed-FreeOutcome id (err_inval, m') (inl (e, le, h)) = inl (e, le, h)
    freed-FreeOutcome id (err_inval, m') (inr (lt, o, e)) = absurd o
    freed-FreeOutcome id (err_nospc, m') (inl (e, le, h)) = inl (e, le, h)
    freed-FreeOutcome id (err_nospc, m') (inr (lt, o, e)) = absurd o
    freed-FreeOutcome id (err_journal, m') (inl (e, le, h)) = inl (e, le, h)
    freed-FreeOutcome id (err_journal, m') (inr (lt, o, e)) = inr (lt, o, e)
    freed-FreeOutcome id (err_notfound, m') (inl (e, le, h)) = inl (e, le, h)
    freed-FreeOutcome id (err_notfound, m') (inr (lt, o, e)) = absurd o
    freed-FreeOutcome id (err_not_yet_bound, m') (inl (e, le, h)) = inl (e, le, h)
    freed-FreeOutcome id (err_not_yet_bound, m') (inr (lt, o, e)) = absurd o

    -- On a table whose blocks are full and hold the capacity, for a 64-bit block number and 16-bit flags:
    -- `mrt_update_entry` and `mrt_free_entry` refuse an identifier out of range and change nothing. Else,
    -- a success changes the entry of the record alone: to the given block and with the flags added, or to the block
    -- UINT64_MAX and no flags, and its generation is kept. SMKFS_ERR_IO means that a read or write of the
    -- block of the entry failed, and the table is as it was. SMKFS_ERR_JOURNAL means that the log failed, and
    -- the table is as it was, or has that one change and a write of the block failed too. The count of
    -- free entries grows by one with a successful release only.
    pub update_entry-free_entry :
        (id new_block flags : ℕ)
        → new_block < 2 ^ 64
        → flags < 2 ^ 16
        → (let r = mrt_update_entry calls id new_block flags m in
            ChangeOutcome (rebound new_block flags) id r.0 r.1)
          × (let r = mrt_free_entry calls id m in FreeOutcome id r.0 r.1)
    unfolding mrt_update_entry mrt_free_entry
    update_entry-free_entry id new_block flags wide wide' = (
      change_entry-ChangeOutcome (bound new_block flags) id
          (λ e f. bound-Fits new_block flags e wide wide' f),
      freed-FreeOutcome id (change_entry calls released id m)
          (change_entry-ChangeOutcome released id released-Fits),
    )

-- ===== src/Mrt/Resolve.antt =====
-- `mrt_resolve` of fs/smkfs/mrt.c, and what it answers after `mrt_update_entry` and `mrt_free_entry`.
use amit_x.Prelude.{
  ℕ, bit_or, ◌+◌, ◌*◌, ◌/◌, ◌%◌, ◌^◌, ◌≤◌, ◌<◌, ◌≡◌, ◌≢◌, refl, sym, ◌∙◌, subst, arith, Bool, true,
  false, List, leb, ◌==◌, if◌then◌else◌, Bool-cases, inl, inr, ◌⊎◌,
}
use amit_x.Mrt.{
  Entry, Calls, Mrt, Resolved, Status, ok, err_io, err_inval, err_nospc, err_journal, err_notfound,
  err_not_yet_bound, unbound, entries_per_block, is_allocated, bound, released, mrt_update_entry,
  mrt_free_entry, mrt_resolve,
}
use amit_x.Mrt.Flags.{is_allocated-bound, is_allocated-released}
use amit_x.Mrt.Laws.{FailedRead, CallsLaws, entry_of, Sized, Outcome}
use amit_x.Mrt.Entries.{rebound, ChangeOutcome, FreeOutcome, is_ok, ok_ne, update_entry-free_entry}

module _ {S : Type 0} {calls : Calls S} (m : Mrt S) (laws : CallsLaws calls m.start m.blocks) where
  -- The answers that `mrt_resolve` gives for an entry.
  abbrev pub Answer : ℕ → Entry → Status → Resolved → Type 0
  Answer id e ok r =
      (is_allocated e ≡ true)
      × (e.physical_block ≢ 0)
      × (e.physical_block ≢ unbound)
      × (r ≡ record {
        physical_block = e.physical_block;
        flags = e.flags;
        generation = e.generation;
      })
  Answer id e err_notfound r = is_allocated e ≡ false
  Answer id e err_not_yet_bound r =
      (is_allocated e ≡ true) × ((e.physical_block ≡ 0) ⊎ (e.physical_block ≡ unbound))
  Answer id e err_inval r = m.capacity ≤ id
  Answer id e err_io r = FailedRead laws (m.start + id / entries_per_block)
  Answer id e err_nospc r = ⊥
  Answer id e err_journal r = ⊥

  mrt_resolve-Answer :
      (id : ℕ) (s : S) (count : ℕ)
      → let r = mrt_resolve calls id (record m { env = s; free_count = count }) in
        Answer id (entry_of laws s id) r.0 r.1
  unfolding mrt_resolve
  mrt_resolve-Answer id s count = elim (Bool-cases (leb m.capacity id)) [
    | inl out ↦ rw out (ground arith)
    | inr lt ↦ rw lt (elim (Bool-cases got.0) [
      | inr z ↦ rw z (s, z)
      | inl y ↦
          rw (y, laws.read_gives b s y)
            (elim (Bool-cases (is_allocated e)) [
              | inr free ↦ rw free free
              | inl held ↦ rw held (elim (Bool-cases (e.physical_block == 0)) [
                | inl none_yet ↦ rw none_yet (held, inl (ground arith))
                | inr some_block ↦ rw some_block (elim (Bool-cases (e.physical_block == unbound)) [
                  | inl none_yet ↦ rw none_yet (held, inr (ground arith))
                  | inr there ↦ rw there (held, λ q. ground arith, λ q. ground arith, refl)
                ])
              ])
            ])
    ])
  ]
    where
      b : ℕ
      b = m.start + id / entries_per_block

      got : Bool × List Entry × S
      got = calls.read_block b s

      e : Entry
      e = entry_of laws s id

  -- The answers for an entry with a block, and for a free one.
  bound-Answer :
      (id : ℕ) (e : Entry) (st : Status) (r : Resolved)
      → id < m.capacity
      → is_allocated e ≡ true
      → e.physical_block ≢ 0
      → e.physical_block ≢ unbound
      → Answer id e st r
      → ((st ≡ err_io) × FailedRead laws (m.start + id / entries_per_block))
        ⊎ ((st ≡ ok)
            × (r ≡ record {
              physical_block = e.physical_block;
              flags = e.flags;
              generation = e.generation;
            }))
  bound-Answer id e ok r lt a z u h = inr (refl, h.3)
  bound-Answer id e err_io r lt a z u h = inl (refl, h)
  bound-Answer id e err_inval r lt a z u h = absurd (omega arith)
  bound-Answer id e err_nospc r lt a z u h = absurd h
  bound-Answer id e err_journal r lt a z u h = absurd h
  bound-Answer id e err_notfound r lt a z u h = absurd (let q : true ≡ false = sym a ∙ h in cc)
  bound-Answer id e err_not_yet_bound r lt a z u h = absurd (elim h.1 [ inl x ↦ z x | inr x ↦ u x ])

  free-Answer :
      (id : ℕ) (e : Entry) (st : Status) (r : Resolved)
      → id < m.capacity
      → is_allocated e ≡ false
      → Answer id e st r
      → ((st ≡ err_io) × FailedRead laws (m.start + id / entries_per_block)) ⊎ (st ≡ err_notfound)
  free-Answer id e ok r lt a h = absurd (let q : true ≡ false = sym h.0 ∙ a in cc)
  free-Answer id e err_io r lt a h = inl (refl, h)
  free-Answer id e err_inval r lt a h = absurd (omega arith)
  free-Answer id e err_nospc r lt a h = absurd h
  free-Answer id e err_journal r lt a h = absurd h
  free-Answer id e err_notfound r lt a h = inr refl
  free-Answer id e err_not_yet_bound r lt a h = absurd (let q : true ≡ false = sym h.0 ∙ a in cc)

  module _ (fits : m.capacity ≤ m.blocks * entries_per_block) (sz : Sized laws m.env) where
    -- On a table whose blocks are full and hold the capacity, for a 64-bit block number and 16-bit flags:
    -- after a successful `mrt_update_entry` of an entry whose flag 1 is set, to a block other than 0 and
    -- UINT64_MAX, `mrt_resolve` answers this block, the flags with the new ones and the generation; and
    -- after a successful `mrt_free_entry` of any entry it answers SMKFS_ERR_NOTFOUND. Or, in both cases,
    -- it answers SMKFS_ERR_IO, and a read of the block of the entry failed.
    pub mrt_resolve-update_entry :
        (id new_block flags : ℕ)
        → new_block < 2 ^ 64
        → flags < 2 ^ 16
        → ((entry_of laws m.env id).flags % 2 ≡ 1
            → new_block ≢ 0
            → new_block ≢ 0xFFFFFFFFFFFFFFFF
            → (mrt_update_entry calls id new_block flags m).0 ≡ ok
            → let r = mrt_resolve calls id (mrt_update_entry calls id new_block flags m).1 in
              let e = entry_of laws m.env id in
              ((r.0 ≡ err_io) × FailedRead laws (m.start + id / entries_per_block))
              ⊎ ((r.0 ≡ ok)
                  × (r.1 ≡ record {
                    physical_block = new_block;
                    flags = bit_or e.flags flags;
                    generation = e.generation;
                  })))
          × ((mrt_free_entry calls id m).0 ≡ ok
              → let r = mrt_resolve calls id (mrt_free_entry calls id m).1 in
                ((r.0 ≡ err_io) × FailedRead laws (m.start + id / entries_per_block))
                ⊎ (r.0 ≡ err_notfound))
    mrt_resolve-update_entry id new_block flags wide wide' = (
      λ held z u done. elim both.0 [
        | inl (e, le, same) ↦ absurd (ok_ne (sym done ∙ e))
        | inr (lt, o, env_only) ↦
            let c = subst (λ st. Outcome laws id e1 m.env st (updated.1).env) done o in
            subst
              (λ x.
                let r = mrt_resolve calls id x in
                ((r.0 ≡ err_io) × FailedRead laws (m.start + id / entries_per_block))
                ⊎ ((r.0 ≡ ok)
                    × (r.1 ≡ record {
                      physical_block = e1.physical_block;
                      flags = e1.flags;
                      generation = e1.generation;
                    })))
              (sym env_only)
              (bound-Answer id e1 _ _ lt
                (is_allocated-bound new_block flags (entry_of laws m.env id) held) z u
                (subst
                  (λ e.
                    let r = mrt_resolve calls id (record m { env = (updated.1).env }) in
                    Answer id e r.0 r.1)
                  c.here (mrt_resolve-Answer id (updated.1).env m.free_count)))
      ],
      λ done. elim both.1 [
        | inl (e, le, same) ↦ absurd (ok_ne (sym done ∙ e))
        | inr (lt, o, env_only) ↦
            let c = subst (λ st. Outcome laws id e2 m.env st (released_to.1).env) done o in
            subst
              (λ x.
                let r = mrt_resolve calls id x in
                ((r.0 ≡ err_io) × FailedRead laws (m.start + id / entries_per_block))
                ⊎ (r.0 ≡ err_notfound))
              (sym env_only)
              (free-Answer id e2 _ _ lt (is_allocated-released (entry_of laws m.env id)) (
                subst
                  (λ e.
                    let r =
                      mrt_resolve calls id
                        (record m { env = (released_to.1).env; free_count = count }) in
                    Answer id e r.0 r.1)
                  c.here (mrt_resolve-Answer id (released_to.1).env count)))
      ],
    )
      where
        both :
            (let r = mrt_update_entry calls id new_block flags m in
              ChangeOutcome m laws (rebound new_block flags) id r.0 r.1)
            × (let r = mrt_free_entry calls id m in FreeOutcome m laws id r.0 r.1)
        both = update_entry-free_entry m laws fits sz id new_block flags wide wide'

        updated : Status × Mrt S
        updated = mrt_update_entry calls id new_block flags m

        released_to : Status × Mrt S
        released_to = mrt_free_entry calls id m

        e1 : Entry
        e1 = bound new_block flags (entry_of laws m.env id)

        e2 : Entry
        e2 = released (entry_of laws m.env id)

        count : ℕ
        count = if is_ok released_to.0 then (m.free_count + 1) % 2 ^ 64 else m.free_count

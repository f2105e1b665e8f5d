-- ===== src/Mrt/Laws.antt =====
-- What fs/smkfs/mrt.c relies on below it, and the table as records see it.
use amit_x.Prelude.{
  ℕ, ◌+◌, ◌*◌, ◌/◌, ◌%◌, ◌≤◌, ◌<◌, ◌≡◌, ◌≢◌, refl, ap, sym, ◌∙◌, arith, true, false, List, length,
  set, ◌==◌, if◌then◌else◌, Bool-cases, inl, inr, length-set, get_or-set_self, get_or-set_ne, ◌⊎◌,
}
use amit_x.Mrt.{
  Entry, Calls, Status, ok, err_io, err_inval, err_nospc, err_journal, err_notfound,
  err_not_yet_bound, entry_at, entries_per_block,
}
use amit_x.Mrt.Flags.{AllFit}

-- There is a map `view` from blocks to their entries: a read gives a block by the map or fails, a write
-- changes one block of it or fails, and the journal lies outside the table, the `blocks` blocks from
-- `start` on.
pub record CallsLaws {S : Type 0} (calls : Calls S) (start blocks : ℕ) : Type 0 where
  pub view : S → ℕ → List Entry
  pub view_fits : (s : S) (x : ℕ) → AllFit (view s x)
  pub read_same : (b : ℕ) (s : S) (x : ℕ) → view (calls.read_block b s).2 x ≡ view s x
  pub read_gives :
      (b : ℕ) (s : S) → (calls.read_block b s).0 ≡ true → (calls.read_block b s).1 ≡ view s b
  pub write_done :
      (b : ℕ) (es : List Entry) (s : S)
      → length es ≡ entries_per_block
      → AllFit es
      → (calls.write_block b es s).0 ≡ true
      → (x : ℕ) → view (calls.write_block b es s).1 x ≡ (if x == b then es else view s x)
  pub write_failed :
      (b : ℕ) (es : List Entry) (s : S)
      → (calls.write_block b es s).0 ≡ false
      → (x : ℕ) → view (calls.write_block b es s).1 x ≡ view s x
  pub log_same :
      (id : ℕ) (e : Entry) (s : S) (x : ℕ)
      → start ≤ x
      → x < start + blocks
      → view (calls.log_update id e s).1 x ≡ view s x

module _ {S : Type 0} {calls : Calls S} {start blocks : ℕ}
    (laws : CallsLaws calls start blocks) where
  -- The entry of a record.
  abbrev pub entry_of : S → ℕ → Entry
  entry_of s id = entry_at (laws.view s (start + id / entries_per_block)) (id % entries_per_block)

  -- The blocks of the table hold as many entries as they have room for.
  abbrev pub Sized : S → Type 0
  Sized s = (x : ℕ) → start ≤ x → x < start + blocks → length (laws.view s x) ≡ entries_per_block

  -- The table is as it was.
  pub record Same (s s' : S) : Type 0 where
    pub all : (id : ℕ) → id < blocks * entries_per_block → entry_of s' id ≡ entry_of s id
    pub sized : Sized s'

  -- The entry of `id` has become `e`, and no other has changed.
  pub record Changed (id : ℕ) (e : Entry) (s s' : S) : Type 0 where
    pub here : entry_of s' id ≡ e
    pub others : (k : ℕ) → k < blocks * entries_per_block → k ≢ id → entry_of s' k ≡ entry_of s k
    pub sized : Sized s'

  pub view-Same :
      (s s' : S)
      → Sized s
      → ((x : ℕ) → start ≤ x → x < start + blocks → laws.view s' x ≡ laws.view s x)
      → Same s s'
  view-Same s s' sz h = record {
    all = λ id l.
        ap (λ es. entry_at es (id % entries_per_block))
          (h (start + id / entries_per_block) (omega arith) (omega arith));
    sized = λ x l l'. ap length (h x l l') ∙ sz x l l';
  }

  pub view-Changed :
      (id : ℕ) (e : Entry) (s s' : S)
      → Sized s
      → id < blocks * entries_per_block
      → (let b = start + id / entries_per_block in
          (x : ℕ)
          → start ≤ x
          → x < start + blocks
          → laws.view s' x
            ≡ (if x == b then set (laws.view s b) (id % entries_per_block) e else laws.view s x))
      → Changed id e s s'
  view-Changed id e s s' sz lt h = record { here = here; others = others; sized = sized }
    where
      b : ℕ
      b = start + id / entries_per_block

      j : ℕ
      j = id % entries_per_block

      full : length (laws.view s b) ≡ entries_per_block
      full = sz b (omega arith) (omega arith)

      at_b : laws.view s' b ≡ set (laws.view s b) j e
      at_b = h b (omega arith) (omega arith) ∙ (let y : (b == b) ≡ true = ground arith in rw y refl)

      here : entry_of s' id ≡ e
      here =
          ap (λ es. entry_at es j) at_b
          ∙ get_or-set_self (laws.view s b) j e _ (omega (arith, full))

      others : (k : ℕ) → k < blocks * entries_per_block → k ≢ id → entry_of s' k ≡ entry_of s k
      others k l ne = elim (Bool-cases (start + k / entries_per_block == b)) [
        | inl y ↦
            let e1 : start + k / entries_per_block ≡ b = ground arith in
            let away : j ≢ k % entries_per_block = λ q. ne (omega arith) in
            ap (λ x. entry_at (laws.view s' x) (k % entries_per_block)) e1
            ∙ ap (λ es. entry_at es (k % entries_per_block)) at_b
            ∙ get_or-set_ne (laws.view s b) j (k % entries_per_block) e _ away
            ∙ ap (λ x. entry_at (laws.view s x) (k % entries_per_block)) (sym e1)
        | inr z ↦
            ap (λ es. entry_at es (k % entries_per_block))
              (h (start + k / entries_per_block) (omega arith) (omega arith) ∙ rw z refl)
      ]

      sized : Sized s'
      sized x l l' = elim (Bool-cases (x == b)) [
        | inl y ↦
            let e1 : x ≡ b = ground arith in
            ap (λ y'. length (laws.view s' y')) e1
            ∙ ap length at_b
            ∙ length-set (laws.view s b) j e
            ∙ full
        | inr z ↦ ap length (h x l l' ∙ rw z refl) ∙ sz x l l'
      ]

  -- A call below has failed: a read or a write of block `b`, or the log of `e`.
  abbrev pub FailedRead : ℕ → Type 0
  FailedRead b = (s : S) × ((calls.read_block b s).0 ≡ false)

  abbrev pub FailedWrite : ℕ → Type 0
  FailedWrite b = (es : List Entry) × (s : S) × ((calls.write_block b es s).0 ≡ false)

  abbrev pub FailedLog : ℕ → Entry → Type 0
  FailedLog id e = (s : S) × ((calls.log_update id e s).0 ≡ false)

  -- What a call that changes the entry of `id` to `e` leaves by its status.
  abbrev pub Outcome : ℕ → Entry → S → Status → S → Type 0
  Outcome id e s ok s' = Changed id e s s'
  Outcome id e s err_io s' =
      Same s s'
      × (FailedRead (start + id / entries_per_block) ⊎ FailedWrite (start + id / entries_per_block))
  Outcome id e s err_journal s' =
      FailedLog id e
      × (Same s s' ⊎ (Changed id e s s' × FailedWrite (start + id / entries_per_block)))
  Outcome id e s err_inval s' = ⊥
  Outcome id e s err_nospc s' = ⊥
  Outcome id e s err_notfound s' = ⊥
  Outcome id e s err_not_yet_bound s' = ⊥

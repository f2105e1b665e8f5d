-- ===== src/Mrt/Write.antt =====
-- The end of the calls of fs/smkfs/mrt.c that change an entry, the way back from a failed log
-- included, and the calls that change an entry that they are given.
use amit_x.Prelude.{
  ℕ, zero, suc, ◌+◌, ◌*◌, ◌/◌, ◌%◌, ◌≤◌, ◌<◌, ◌≡◌, refl, ap, ◌∙◌, arith, sym, subst, length-set,
  length, Bool, true, List, [], ◌∷◌, set, ◌==◌, if◌then◌else◌, Bool-cases, inl, inr,
}
use amit_x.Mrt.{Entry, Calls, Mrt, entry_at, entries_per_block, write_entry}
use amit_x.Mrt.Flags.{Fits, AllFit, AllFit-set}
use amit_x.Mrt.Laws.{CallsLaws, Sized, Changed, view-Same, view-Changed, Outcome}

-- An entry is put back.
set_back : (es : List Entry) (j : ℕ) (e : Entry) → set (set es j e) j (entry_at es j) ≡ es
set_back [] j e = refl
set_back (x ∷ es) zero e = refl
set_back (x ∷ es) (suc j) e = ap (λ l. x ∷ l) (set_back es j e)

module _ {S : Type 0} {calls : Calls S} {start blocks : ℕ}
    (laws : CallsLaws calls start blocks) where
  -- The state of the blocks is all of the mount that has changed.
  abbrev pub OnlyEnv : Mrt S → Mrt S → Type 0
  OnlyEnv m m' = m' ≡ record m { env = m'.env }

  pub write_entry-Outcome :
      (id : ℕ) (es : List Entry) (e : Entry) (m : Mrt S)
      → es ≡ laws.view m.env (start + id / entries_per_block)
      → Sized laws m.env
      → Fits e
      → id < blocks * entries_per_block
      → let r =
          write_entry calls (start + id / entries_per_block) (id % entries_per_block) id es e m in
        Outcome laws id e m.env r.0 (r.1).env × OnlyEnv m r.1
  unfolding write_entry
  write_entry-Outcome id es e m given sz fe lt = elim (Bool-cases wrote.0) [
    | inr z ↦ rw z (
      (
        view-Same laws m.env wrote.1 sz (λ x l l'. laws.write_failed b (set es j e) m.env z x),
        inr (set es j e, m.env, z),
      ),
      refl,
    )
    | inl y ↦ rw y (elim (Bool-cases m.in_transaction) [
      | inr quiet ↦
          rw quiet
            (changed wrote.1 (λ x l l'. laws.write_done b (set es j e) m.env len1 fit1 y x), refl)
      | inl inside ↦ rw inside (elim (Bool-cases logged.0) [
        | inl noted ↦ rw noted (changed logged.1 (after_log y), refl)
        | inr lost ↦ rw lost (elim (Bool-cases back.0) [
          | inr torn ↦ (
            (
              (wrote.1, lost),
              inr (
                changed back.1
                    (λ x l l'. laws.write_failed b old logged.1 torn x ∙ after_log y x l l'),
                (old, logged.1, torn),
              ),
            ),
            refl,
          )
          | inl undone ↦
              (((wrote.1, lost), inl (view-Same laws m.env back.1 sz (restored y undone))), refl)
        ])
      ])
    ])
  ]
    where
      b : ℕ
      b = start + id / entries_per_block

      j : ℕ
      j = id % entries_per_block

      wrote : Bool × S
      wrote = calls.write_block b (set es j e) m.env

      logged : Bool × S
      logged = calls.log_update id e wrote.1

      old : List Entry
      old = set (set es j e) j (entry_at es j)

      back : Bool × S
      back = calls.write_block b old logged.1

      size : length es ≡ entries_per_block
      size = ap length given ∙ sz b (omega arith) (omega arith)

      fit : AllFit es
      fit = subst AllFit (sym given) (laws.view_fits m.env b)

      len1 : length (set es j e) ≡ entries_per_block
      len1 = length-set es j e ∙ size

      fit1 : AllFit (set es j e)
      fit1 = AllFit-set es j e fit fe

      len2 : length old ≡ entries_per_block
      len2 = ap length (set_back es j e) ∙ size

      fit2 : AllFit old
      fit2 = subst AllFit (sym (set_back es j e)) fit

      changed :
          (s' : S)
          → ((x : ℕ)
              → start ≤ x
              → x < start + blocks
              → laws.view s' x ≡ (if x == b then set es j e else laws.view m.env x))
          → Changed laws id e m.env s'
      changed s' h =
          view-Changed laws id e m.env s' sz lt
            (λ x l l'. h x l l' ∙ ap (λ v. if x == b then set v j e else laws.view m.env x) given)

      after_log :
          wrote.0 ≡ true
          → (x : ℕ) → start ≤ x
          → x < start + blocks
          → laws.view logged.1 x ≡ (if x == b then set es j e else laws.view m.env x)
      after_log y x l l' =
          laws.log_same id e wrote.1 x l l' ∙ laws.write_done b (set es j e) m.env len1 fit1 y x

      restored :
          wrote.0 ≡ true
          → back.0 ≡ true
          → (x : ℕ) → start ≤ x
          → x < start + blocks
          → laws.view back.1 x ≡ laws.view m.env x
      restored y undone x l l' =
          laws.write_done b old logged.1 len2 fit2 undone x ∙ (elim (Bool-cases (x == b)) [
            | inl here ↦
                rw here (
                  set_back es j e
                  ∙ given
                  ∙ ap (laws.view m.env) (let q : b ≡ x = ground arith in q))
            | inr away ↦ rw away (after_log y x l l' ∙ rw away refl)
          ])

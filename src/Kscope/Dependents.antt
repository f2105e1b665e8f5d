-- ===== src/Kscope/Dependents.antt =====
-- `kscope_mark_failed` of kernel/kscope.c: the nodes that it reaches.
use amit_x.Prelude.{
  ℕ, zero, suc, ◌≡◌, refl, sym, ◌∙◌, subst, arith, true, ◌&&◌, List, [], ◌∷◌, length, ◌==◌,
  if◌then◌else◌, Bool-cases, ◌⊎◌, inl, inr,
}
use amit_x.Kscope.{
  failed, is_registered, Node, Kscope, requires_node, set_state, fail_dependents, fail_within,
  mark_failed,
}

-- The nodes that depend on `p`: itself, and those that require one of them.
pub data Depends (nodes : ℕ → Node) (p : ℕ) : ℕ → Type 0 where
  base : Depends nodes p p
  step :
      (q r : ℕ) → requires_node r (nodes q).requires ≡ true → Depends nodes p r → Depends nodes p q

module _ {E : Type 0} (nodes : ℕ → Node) (p : ℕ) (s : Kscope E) where
  -- The nodes that have failed had done so in `s`, or depend on `p`.
  pub record OnlyDependents (t : Kscope E) : Type 0 where
    pub all : (q : ℕ) → t.states q ≡ failed → (s.states q ≡ failed) ⊎ Depends nodes p q

  set_state-OnlyDependents :
      (r : ℕ) (t : Kscope E)
      → Depends nodes p r
      → OnlyDependents t
      → OnlyDependents (set_state r failed t)
  unfolding set_state
  set_state-OnlyDependents r t d i = record { all = at }
    where
      at :
          (q : ℕ)
          → (if q == r then failed else t.states q) ≡ failed
          → (s.states q ≡ failed) ⊎ Depends nodes p q
      at q fq = elim (Bool-cases (q == r)) [
        | inl y ↦ inr (let e : q ≡ r = ground arith in subst (λ k. Depends nodes p k) (sym e) d)
        | inr z ↦
            let e : t.states q ≡ (if q == r then failed else t.states q) = rw z refl in
            i.all q (e ∙ fq)
      ]

  fail_dependents-OnlyDependents :
      (mark : ℕ → Kscope E → Kscope E)
      → ((q : ℕ) (t : Kscope E) → Depends nodes p q → OnlyDependents t → OnlyDependents (mark q t))
      → (r : ℕ) → Depends nodes p r
      → (qs : List ℕ) (t : Kscope E) → OnlyDependents t
      → OnlyDependents (fail_dependents nodes mark r qs t)
  unfolding fail_dependents
  fail_dependents-OnlyDependents mark h r d [] t i = i
  fail_dependents-OnlyDependents mark h r d (q ∷ qs) t i =
      elim (Bool-cases (is_registered (t.states q) && requires_node r (nodes q).requires)) [
        | inl y ↦ rw y (
            fail_dependents-OnlyDependents mark h r d qs (mark q t)
              (h q t (step q r (ground arith) d) i))
        | inr z ↦ rw z (fail_dependents-OnlyDependents mark h r d qs t i)
      ]

  fail_within-OnlyDependents :
      (n r : ℕ) (t : Kscope E)
      → Depends nodes p r
      → OnlyDependents t
      → OnlyDependents (fail_within nodes n r t)
  unfolding fail_within
  fail_within-OnlyDependents zero r t d i = i
  fail_within-OnlyDependents (suc n) r t d i =
      fail_dependents-OnlyDependents (fail_within nodes n)
        (λ q u d' i'. fail_within-OnlyDependents n q u d' i') r d t.registry (set_state r failed t)
        (set_state-OnlyDependents r t d i)

  pub mark_failed-OnlyDependents : OnlyDependents (mark_failed nodes p s)
  unfolding mark_failed
  mark_failed-OnlyDependents =
      fail_within-OnlyDependents (suc (length s.registry)) p s base (record { all = λ q e. inl e })

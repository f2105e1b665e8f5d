-- ===== src/Kscope/Order.antt =====
-- `kscope_topo_sort` of kernel/kscope.c succeeds only on nodes that were registered after all that
-- they require.
use amit_x.Prelude.{
  ℕ, suc, ◌+◌, ◌<◌, ◌≡◌, refl, ap, sym, ◌∙◌, subst, arith, true, false, List, [], ◌∷◌, ◌++◌, length,
  get_or, ◌==◌, ◌⊎◌, inl, inr, length-append,
}
use amit_x.Kscope.{running, Node, Kscope}
use amit_x.Kscope.Sort.{Quiet}
use amit_x.Kscope.Search.{
  Earlier, AllFound, InOrder, NotSorted, At, append_assoc, get_or-append, one_node,
}
use amit_x.Kscope.Steps.{
  Sorting, Sorted, sorted, cycle, overflow, halted, out_of_fuel, rounds, registered_at, visit,
  finish, search_stack, sort_from, topo_sort,
}

-- The sort of the nodes `rest` from index `i` on: it fails where they are not in order, and else it
-- appends them as they stand and changes no state.
abbrev pub Outcome : {E : Type 0} → (ℕ → Node) → List ℕ → ℕ → List ℕ → Sorting E → Sorted E → Type 0
Outcome {E} nodes reg i rest st r =
    (NotSorted r × ¬ (InOrder nodes reg i rest))
    ⊎ (InOrder nodes reg i rest
        × ((st' : Sorting E) × (r ≡ sorted st')
            × (st'.order ≡ st.order ++ rest)
            × (st'.sys ≡ st.sys)))

append_nil : (xs : List ℕ) → xs ++ [] ≡ xs
append_nil [] = refl
append_nil (x ∷ xs) = ap (λ t. x ∷ t) (append_nil xs)

append_one : (xs : List ℕ) (y : ℕ) (ys : List ℕ) → xs ++ y ∷ ys ≡ (xs ++ y ∷ []) ++ ys
append_one xs y ys = append_assoc xs (y ∷ []) ys

module _ {E : Type 0} (nodes : ℕ → Node) (reg : List ℕ) where
  -- What a search from the index `i` of the node `p` ends with.
  abbrev Round : ℕ → Sorting E → ℕ → Sorted E → Type 0
  Round i st p r =
      (NotSorted r × ¬ (Earlier reg i (nodes p).requires × ((nodes p).in_kernel ≡ true)))
      ⊎ ((r ≡ sorted (finish i p (visit i 1 st)))
          × Earlier reg i (nodes p).requires
          × ((nodes p).in_kernel ≡ true))

  abbrev continued : (Sorting E → Sorted E) → Sorted E → Sorted E
  continued go r = elim r [
    | sorted st' ↦ go st'
    | cycle st' ↦ cycle st'
    | overflow ↦ overflow
    | halted ↦ halted
    | out_of_fuel ↦ out_of_fuel
  ]

  NotSorted-continued :
      (go : Sorting E → Sorted E) (r : Sorted E) → NotSorted r → NotSorted (continued go r)
  NotSorted-continued go (sorted st) h = absurd h
  NotSorted-continued go (cycle st) h = tt
  NotSorted-continued go overflow h = tt
  NotSorted-continued go halted h = tt
  NotSorted-continued go out_of_fuel h = tt

  Round-Outcome :
      (i p : ℕ) (ps : List ℕ) (st : Sorting E) (go : Sorting E → Sorted E) (r : Sorted E)
      → Round i st p r
      → Outcome nodes reg (i + 1) ps (finish i p (visit i 1 st)) (go (finish i p (visit i 1 st)))
      → Outcome nodes reg i (p ∷ ps) st (continued go r)
  Round-Outcome i p ps st go r (inl (bad, not_all)) h =
      inl (NotSorted-continued go r bad, λ o. not_all (o.0, o.1))
  Round-Outcome i p ps st go r (inr (eq, early, inside)) (inl (bad, not_all)) =
      inl (subst NotSorted (sym (ap (continued go) eq)) bad, λ o. not_all o.2)
  Round-Outcome i p ps st go r (inr (eq, early, inside)) (inr (ord, (st', e, o, s))) = inr (
    (early, inside, ord),
    (
      st',
      ap (continued go) eq ∙ e,
      unfold visit in (o ∙ sym (append_one st.order p ps)),
      unfold visit in s,
    ),
  )

  module _ (found : AllFound nodes reg) where
    sort_from-Outcome :
        (rest done : List ℕ) (i : ℕ) (st : Sorting E)
        → length done ≡ i
        → reg ≡ done ++ rest
        → Quiet reg st.sys
        → At nodes reg i st
        → Outcome nodes reg i rest st (sort_from nodes (length rest) i st)
    unfolding sort_from
    sort_from-Outcome [] done i st len e q at =
        inr (tt, (st, refl, sym (append_nil st.order), refl))
    sort_from-Outcome (p ∷ ps) done i st len e q at =
        let z : (st.visited i == 2) ≡ false = ground (arith, at.1 i (omega arith)) in
        let one =
          subst (λ p'. Round i st p' (search_stack nodes rounds (i ∷ []) st)) here
            (one_node nodes reg found i st q inside at 1120) in
        rw (z, sort_from)
          (Round-Outcome i p ps st (sort_from nodes (length ps) (i + 1))
            (search_stack nodes rounds (i ∷ []) st) one
            (sort_from-Outcome ps (done ++ p ∷ []) (i + 1) (finish i p (visit i 1 st))
              (omega (arith, length-append done (p ∷ []), len)) (e ∙ append_one done p ps)
              (unfold visit in q)
              (unfold visit in (λ j h. ground (arith, at.0 j), λ j h. ground (arith, at.1 j)))))
      where
        here : registered_at st.sys i ≡ p
        here =
            ap (λ l. get_or l i 0) (q.0 ∙ e)
            ∙ subst (λ j. get_or (done ++ p ∷ ps) j 0 ≡ p) len (get_or-append done p ps)

        inside : i < length reg
        inside =
            let l : length reg ≡ length done + suc (length ps) =
              ap length e ∙ length-append done (p ∷ ps) in
            omega (arith, l, len)

-- `kscope_topo_sort` on a registry of which no node runs and whose nodes require registered nodes
-- only (or NULL) succeeds exactly if each node is registered after all that it requires, or requires itself, and the
-- address of its `requires` is accepted; the order is then that of the registry, and no state of a
-- node has changed.
pub topo_sort-InOrder :
    {E : Type 0} (nodes : ℕ → Node) (s : Kscope E)
    → ((p : ℕ) → ¬ (s.states p ≡ running))
    → AllFound nodes s.registry
    → (NotSorted (topo_sort nodes s) × ¬ (InOrder nodes s.registry 0 s.registry))
      ⊎ (InOrder nodes s.registry 0 s.registry
          × ((st : Sorting E) × (topo_sort nodes s ≡ sorted st)
              × (st.order ≡ s.registry)
              × (st.sys ≡ s)))
unfolding topo_sort
topo_sort-InOrder nodes s quiet found =
    sort_from-Outcome nodes s.registry found s.registry [] 0 _ refl refl (refl, quiet)
      (λ j h. omega arith, λ j h. refl)

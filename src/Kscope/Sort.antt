-- ===== src/Kscope/Sort.antt =====
-- `kscope_topo_sort` of kernel/kscope.c ends within its rounds, and starts no node.
use amit_x.Prelude.{
  ℕ, zero, suc, ◌+◌, ◌*◌, ◌≤◌, ◌<◌, ◌≡◌, refl, ap, sym, ◌∙◌, subst, arith, Bool, true, false, List,
  [], ◌∷◌, Option, none, some, length, ltb, ◌==◌, if◌then◌else◌, Bool-cases, inl, inr, ℕ_discrete,
}
use amit_x.Kscope.{
  running, failed, Node, Kscope, max_nodes, index_of, set_state, mark_failed, probe_list,
}
use amit_x.Kscope.Fail.{mark_failed_lem}
use amit_x.Kscope.Probe.{Sound, failed_not_running, set_state_at, probe_list-Sound}
use amit_x.Kscope.Steps.{
  Sorting, Sorted, sorted, cycle, overflow, halted, out_of_fuel, Scanned, registered_at, drop_top,
  rounds, visit, fail_stack, scan_deps, visit_node, finish, search_stack, sort_from, topo_sort,
  probe_all,
}

-- No node runs.
abbrev pub Quiet : {E : Type 0} → List ℕ → Kscope E → Type 0
Quiet reg s = (s.registry ≡ reg) × ((p : ℕ) → ¬ (s.states p ≡ running))

-- How the sort can end; of a write past the end of the stack (`overflow`) and of a halt nothing is said.
abbrev pub Ends : {E : Type 0} → List ℕ → Sorted E → Type 0
Ends reg (sorted st) = Quiet reg st.sys × ((j : ℕ) → st.visited j ≤ 2)
Ends reg (cycle st) = Quiet reg st.sys
Ends reg overflow = Unit {0}
Ends reg halted = Unit {0}
Ends reg out_of_fuel = ⊥

-- The indices on the stack lie in the registry.
abbrev pub Below : ℕ → List ℕ → Type 0
Below n [] = Unit {0}
Below n (i ∷ is) = (i < n) × Below n is

-- The indices below `n` that are not visited yet.
abbrev left : (ℕ → ℕ) → ℕ → ℕ
left vis zero = 0
left vis (suc n) = (if vis n == 0 then 1 else 0) + left vis n

left_le : (vis : ℕ → ℕ) (n : ℕ) → left vis n ≤ n
left_le vis zero = omega arith
left_le vis (suc n) = ground (arith, left_le vis n)

left-ext :
    (vis vis' : ℕ → ℕ) (n : ℕ) → ((j : ℕ) → (vis' j == 0) ≡ (vis j == 0)) → left vis' n ≡ left vis n
left-ext vis vis' zero h = refl
left-ext vis vis' (suc n) h =
    rw (h n) (ap (λ k. (if vis n == 0 then 1 else 0) + k) (left-ext vis vis' n h))

abbrev pub put : ℕ → ℕ → (ℕ → ℕ) → ℕ → ℕ
put i v vis j = if j == i then v else vis j

left-put_above : (vis : ℕ → ℕ) (i n : ℕ) → n ≤ i → left (put i 1 vis) n ≡ left vis n
left-put_above vis i zero h = refl
left-put_above vis i (suc n) h =
    let z : (n == i) ≡ false = ground arith in rw (z, left-put_above vis i n (omega arith)) refl

left-put :
    (vis : ℕ → ℕ) (i n : ℕ) → i < n → (vis i == 0) ≡ true → left (put i 1 vis) n + 1 ≡ left vis n
left-put vis i zero h e = absurd (omega arith)
left-put vis i (suc n) h e = elim (ℕ_discrete n i) [
  | yes q ↦
      let y : (n == i) ≡ true = ground arith in
      let e' : (vis n == 0) ≡ true = subst (λ k. (vis k == 0) ≡ true) (sym q) e in
      rw (y, e', left-put_above vis i n (omega arith)) (omega arith)
  | no ne ↦
      let z : (n == i) ≡ false = ground arith in
      rw z (omega (arith, left-put vis i n (omega arith) e))
]

abbrev Inside : Option ℕ → ℕ → Type 0
Inside none n = Unit {0}
Inside (some k) n = k < n

index_of-Inside : (p : ℕ) (qs : List ℕ) → Inside (index_of p qs) (length qs)
unfolding index_of
index_of-Inside p [] = tt
index_of-Inside p (q ∷ qs) = elim (Bool-cases (q == p)) [
  | inl y ↦ rw y (omega arith)
  | inr z ↦ rw z (later (index_of p qs) (index_of-Inside p qs))
]
  where
    later :
        (o : Option ℕ)
        → Inside o (length qs)
        → Inside (elim o [ none ↦ none | some k ↦ some (suc k) ]) (suc (length qs))
    later none h = tt
    later (some k) h = omega arith

-- The rounds that the loop still needs, from the indices not visited and the stack.
abbrev needed : ℕ → (ℕ → ℕ) → List ℕ → ℕ
needed n vis stack = left vis n * (max_nodes + 1) + length stack + 1

Below-drop_top : (n : ℕ) (is : List ℕ) → Below n is → Below n (drop_top is)
Below-drop_top n [] b = tt
Below-drop_top n (i ∷ is) b = b.1

length-drop_top : (is : List ℕ) → length (drop_top is) ≤ length is
length-drop_top [] = omega arith
length-drop_top (i ∷ is) = omega arith

left-finish :
    {E : Type 0} (n i p : ℕ) (st st' : Sorting E)
    → st'.visited ≡ put i 1 st.visited
    → left (finish i p st').visited n ≡ left (put i 1 st.visited) n
left-finish n i p st st' e = left-ext _ _ n λ j. elim (Bool-cases (j == i)) [
  | inl y ↦ rw y refl
  | inr z ↦ rw z (ap (λ (f : ℕ → ℕ). f j == 0) e ∙ rw z refl)
]

module _ {E : Type 0} (nodes : ℕ → Node) (reg : List ℕ) where
  mark_failed-Quiet : (p : ℕ) (s : Kscope E) → Quiet reg s → Quiet reg (mark_failed nodes p s)
  mark_failed-Quiet p s (e, quiet) =
      let f = (mark_failed_lem nodes p s).0 in
      (
        f.registry ∙ e,
        λ q r. elim (f.states q) [
          | inl same ↦ quiet q (sym same ∙ r)
          | inr (gone, c) ↦ failed_not_running _ gone r
        ],
      )

  fail_stack-Quiet : (is : List ℕ) (s : Kscope E) → Quiet reg s → Quiet reg (fail_stack is s)
  unfolding fail_stack
  fail_stack-Quiet [] s h = h
  fail_stack-Quiet (i ∷ is) s (e, quiet) =
      fail_stack-Quiet is (set_state (registered_at s i) failed s) (
        unfold set_state in e,
        λ q r. elim (Bool-cases (q == registered_at s i)) [
          | inl y ↦ failed_not_running _ (set_state_at (registered_at s i) q failed s ∙ rw y refl) r
          | inr z ↦ quiet q (sym (set_state_at (registered_at s i) q failed s ∙ rw z refl) ∙ r)
        ],
      )

  -- What a scan keeps.
  pub record Scan (vis : ℕ → ℕ) (r : Scanned E) : Type 0 where
    pub visited : (r.sorting).visited ≡ vis
    pub quiet : Quiet reg (r.sorting).sys
    pub below : Below (length reg) r.stack

  scan_deps-Scan :
      (p : ℕ) (vis : ℕ → ℕ) (rs : List (Option ℕ)) (r : Scanned E)
      → Scan vis r
      → Scan vis (scan_deps nodes p rs r)
  unfolding scan_deps
  scan_deps-Scan p vis [] r h = h
  scan_deps-Scan p vis (none ∷ rs) r h = scan_deps-Scan p vis rs r h
  scan_deps-Scan p vis (some q ∷ rs) r h =
      found (λ r' h'. scan_deps-Scan p vis rs r' h') (index_of q (r.sorting).sys.registry)
        (subst (λ l. Inside (index_of q l) (length reg)) (sym h.quiet.0) (index_of-Inside q reg))
    where
      pushed :
          (k : ℕ)
          → k < length reg
          → Scan vis (
              if (r.sorting).visited k == 0
              then record r { unvisited = true; stack = k ∷ r.stack }
              else r)
      pushed k lt = elim (Bool-cases ((r.sorting).visited k == 0)) [
        | inl y ↦ rw y (record { visited = h.visited; quiet = h.quiet; below = (lt, h.below) })
        | inr z ↦ rw z h
      ]

      found :
          ((r' : Scanned E) → Scan vis r' → Scan vis (scan_deps nodes p rs r'))
          → (o : Option ℕ) → Inside o (length reg)
          → Scan vis (elim o [
            | none ↦ record r {
              unvisited = false;
              sorting = record r.sorting { sys = mark_failed nodes p (r.sorting).sys };
            }
            | some k ↦ scan_deps nodes p rs (
                if (r.sorting).visited k == 0
                then record r { unvisited = true; stack = k ∷ r.stack }
                else r)
          ])
      found recur none b = record {
        visited = h.visited;
        quiet = mark_failed-Quiet p (r.sorting).sys h.quiet;
        below = h.below;
      }
      found recur (some k) b = recur _ (pushed k b)

  pub visit_node-Scan :
      (i : ℕ) (stack : List ℕ) (st : Sorting E)
      → Quiet reg st.sys
      → Below (length reg) (i ∷ stack)
      → Scan (put i 1 st.visited) (visit_node nodes i stack st)
  unfolding visit_node visit
  visit_node-Scan i stack st q b =
      scan_deps-Scan (registered_at st.sys i) (put i 1 st.visited)
        (nodes (registered_at st.sys i)).requires _
        (record { visited = refl; quiet = q; below = b })

  search_stack-Ends :
      (n : ℕ) (stack : List ℕ) (st : Sorting E)
      → Quiet reg st.sys
      → Below (length reg) stack
      → ((j : ℕ) → st.visited j ≤ 2)
      → needed (length reg) st.visited stack ≤ n
      → Ends reg (search_stack nodes n stack st)
  unfolding search_stack
  search_stack-Ends zero stack st q b small h = omega arith
  search_stack-Ends (suc n) [] st q b small h = (q, small)
  search_stack-Ends (suc n) (i ∷ stack) st q b small h = elim (Bool-cases (st.visited i == 2)) [
    | inl done ↦ rw (done, Ends) (search_stack-Ends n stack st q b.1 small (omega arith))
    | inr z ↦
        rw (z, Ends)
          (elim (Bool-cases (st.visited i == 1)) [
            | inl again ↦ rw (again, Ends) (fail_stack-Quiet (i ∷ stack) st.sys q)
            | inr w ↦
                let fresh : (st.visited i == 0) ≡ true = ground (arith, small i) in
                rw (w, Ends)
                  (elim (Bool-cases (nodes p).in_kernel) [
                    | inr out ↦ rw (out, Ends) tt
                    | inl inside ↦
                        rw (inside, Ends)
                          (elim (Bool-cases (ltb max_nodes (length r.stack))) [
                            | inl over ↦ rw (over, Ends) tt
                            | inr fits ↦
                                rw (fits, Ends)
                                  (elim (Bool-cases r.unvisited) [
                                    | inl more ↦
                                        rw (more, Ends)
                                          (search_stack-Ends n r.stack r.sorting sc.quiet sc.below
                                            (λ j. after j)
                                            (omega (
                                              arith,
                                              counts fresh,
                                              ap (λ (v : ℕ → ℕ). left v (length reg)) sc.visited,
                                              ground_le fits,
                                            )))
                                    | inr last ↦
                                        rw (last, Ends)
                                          (search_stack-Ends n (drop_top r.stack)
                                            (finish i p r.sorting) sc.quiet
                                            (Below-drop_top _ r.stack sc.below) (λ j. after_last j)
                                            (omega (
                                              arith,
                                              counts fresh,
                                              left-finish (length reg) i p st r.sorting sc.visited,
                                              ground_le fits,
                                              length-drop_top r.stack,
                                            )))
                                  ])
                          ])
                  ])
          ])
  ]
    where
      p : ℕ
      p = registered_at st.sys i

      r : Scanned E
      r = visit_node nodes i stack st

      sc : Scan (put i 1 st.visited) r
      sc = visit_node-Scan i stack st q b

      ground_le : ltb max_nodes (length r.stack) ≡ false → length r.stack ≤ max_nodes
      ground_le f = ground arith

      counts :
          (st.visited i == 0) ≡ true
          → left (put i 1 st.visited) (length reg) + 1 ≡ left st.visited (length reg)
      counts fresh = left-put st.visited i (length reg) b.0 fresh

      after : (j : ℕ) → (r.sorting).visited j ≤ 2
      after j =
          let e : (r.sorting).visited j ≡ put i 1 st.visited j =
            ap (λ (f : ℕ → ℕ). f j) sc.visited in
          ground (arith, small j)

      after_last : (j : ℕ) → (finish i p r.sorting).visited j ≤ 2
      after_last j = ground (arith, after j)

  sort_from-Ends :
      (n i : ℕ) (st : Sorting E)
      → Quiet reg st.sys
      → length reg ≤ max_nodes
      → i + n ≤ length reg
      → ((j : ℕ) → st.visited j ≤ 2)
      → Ends reg (sort_from nodes n i st)
  unfolding sort_from
  sort_from-Ends zero i st q few inside small = (q, small)
  sort_from-Ends (suc n) i st q few inside small = elim (Bool-cases (st.visited i == 2)) [
    | inl done ↦ rw (done, Ends) (sort_from-Ends n (i + 1) st q few (omega arith) small)
    | inr z ↦
        rw (z, Ends)
          (next (λ st' q' small'. sort_from-Ends n (i + 1) st' q' few (omega arith) small')
            (search_stack nodes rounds (i ∷ []) st)
            (search_stack-Ends rounds (i ∷ []) st q (omega arith, tt) small
              (omega (arith, left_le st.visited (length reg)))))
  ]
    where
      next :
          ((st' : Sorting E)
            → Quiet reg st'.sys
            → ((j : ℕ) → st'.visited j ≤ 2)
            → Ends reg (sort_from nodes n (i + 1) st'))
          → (r : Sorted E) → Ends reg r
          → Ends reg (elim r [
            | sorted st' ↦ sort_from nodes n (i + 1) st'
            | cycle st' ↦ cycle st'
            | overflow ↦ overflow
            | halted ↦ halted
            | out_of_fuel ↦ out_of_fuel
          ])
      next go (sorted st') h = go st' h.0 h.1
      next go (cycle st') h = h
      next go overflow h = h
      next go halted h = h
      next go out_of_fuel h = h

-- `kscope_topo_sort` on a registry of at most KSCOPE_MAX_NODES nodes of which none runs does not use
-- up the rounds that its loop over the stack is given. It writes past the end of its stack array, or
-- halts over a `requires` that lies outside the kernel, and of these two nothing more is said; or it
-- returns 0 or -1, and then the registry is as it was and no node runs.
pub topo_sort-Ends :
    {E : Type 0} (nodes : ℕ → Node) (s : Kscope E)
    → length s.registry ≤ max_nodes
    → ((p : ℕ) → ¬ (s.states p ≡ running))
    → Ends s.registry (topo_sort nodes s)
unfolding topo_sort
topo_sort-Ends nodes s few quiet =
    sort_from-Ends nodes s.registry (length s.registry) 0 _ (refl, quiet) few (omega arith)
      (λ j. omega arith)

-- What the probe leaves, if the sort returns.
abbrev pub Probed : {E : Type 0} → (ℕ → Node) → Option (Kscope E) → Type 0
Probed nodes none = Unit {0}
Probed nodes (some t) = Sound nodes t

-- `kscope_probe_all` on a registry of at most KSCOPE_MAX_NODES nodes of which none runs: where it
-- returns, each node that runs then has all its required nodes running.
pub probe_all-Sound :
    {E : Type 0} (nodes : ℕ → Node) (init : ℕ → E → Bool × E) (s : Kscope E)
    → length s.registry ≤ max_nodes
    → ((p : ℕ) → ¬ (s.states p ≡ running))
    → Probed nodes (probe_all nodes init s)
unfolding probe_all
probe_all-Sound {E} nodes init s few quiet =
    after (topo_sort nodes s) (topo_sort-Ends nodes s few quiet)
  where
    after :
        (r : Sorted E)
        → Ends s.registry r
        → Probed nodes (elim r [
          | sorted st ↦ some (probe_list nodes init st.order st.sys)
          | cycle st ↦ some st.sys
          | overflow ↦ none
          | halted ↦ none
          | out_of_fuel ↦ none
        ])
    after (sorted st) h = probe_list-Sound nodes init st.order st.sys (λ p r. absurd (h.0.1 p r))
    after (cycle st) h = λ p r. absurd (h.1 p r)
    after overflow h = tt
    after halted h = tt
    after out_of_fuel h = tt

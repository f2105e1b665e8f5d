-- ===== src/Kscope/Search.antt =====
-- A search of `kscope_topo_sort` of kernel/kscope.c from one node, where all nodes before it are done:
-- a node that waits for a later one comes back to the top of the stack as visited, and is taken for
-- a cycle.
use amit_x.Prelude.{
  ℕ, zero, suc, ◌+◌, ◌≤◌, ◌<◌, ◌≡◌, refl, ap, sym, ◌∙◌, subst, arith, true, false, List, [], ◌∷◌,
  ◌++◌, Option, none, some, length, get_or, ltb, ◌==◌, Bool-cases, ◌⊎◌, inl, inr, ◌↔◌,
}
use amit_x.Kscope.{Node, max_nodes, index_of}
use amit_x.Kscope.Sort.{Quiet, Below, Scan, put, visit_node-Scan}
use amit_x.Kscope.Steps.{
  Sorting, Sorted, sorted, cycle, overflow, halted, out_of_fuel, Scanned, registered_at, drop_top,
  visit, scan_deps, visit_node, finish, search_stack,
}

-- All that is required is registered.
abbrev pub Found : List ℕ → List (Option ℕ) → Type 0
Found reg [] = Unit {0}
Found reg (none ∷ rs) = Found reg rs
Found reg (some q ∷ rs) = ((k : ℕ) × (index_of q reg ≡ some k)) × Found reg rs

-- It is registered at index `i` at the latest.
abbrev pub Earlier : List ℕ → ℕ → List (Option ℕ) → Type 0
Earlier reg i [] = Unit {0}
Earlier reg i (none ∷ rs) = Earlier reg i rs
Earlier reg i (some q ∷ rs) = ((k : ℕ) × (index_of q reg ≡ some k) × (k ≤ i)) × Earlier reg i rs

-- The nodes of the registry require registered nodes only.
abbrev pub AllFound : (ℕ → Node) → List ℕ → Type 0
AllFound nodes reg = (i : ℕ) → i < length reg → Found reg (nodes (get_or reg i 0)).requires

-- The nodes from index `i` on come after what they require, and `kscope_topo_sort` accepts the
-- address of their `requires`.
abbrev pub InOrder : (ℕ → Node) → List ℕ → ℕ → List ℕ → Type 0
InOrder nodes reg i [] = Unit {0}
InOrder nodes reg i (p ∷ ps) =
    Earlier reg i (nodes p).requires × ((nodes p).in_kernel ≡ true) × InOrder nodes reg (i + 1) ps

pub append_assoc : (xs ys zs : List ℕ) → xs ++ (ys ++ zs) ≡ (xs ++ ys) ++ zs
append_assoc [] ys zs = refl
append_assoc (x ∷ xs) ys zs = ap (λ t. x ∷ t) (append_assoc xs ys zs)

pub get_or-append : (xs : List ℕ) (p : ℕ) (ys : List ℕ) → get_or (xs ++ p ∷ ys) (length xs) 0 ≡ p
get_or-append [] p ys = refl
get_or-append (x ∷ xs) p ys = get_or-append xs p ys

abbrev pub NotSorted : {E : Type 0} → Sorted E → Type 0
NotSorted (sorted st) = ⊥
NotSorted (cycle st) = Unit {0}
NotSorted overflow = Unit {0}
NotSorted halted = Unit {0}
NotSorted out_of_fuel = Unit {0}

module _ {E : Type 0} (nodes : ℕ → Node) (reg : List ℕ) where
  -- Where all is registered, a scan only pushes indices.
  record Pushed (r r' : Scanned E) : Type 0 where
    keys : List ℕ
    stack : r'.stack ≡ keys ++ r.stack
    sorting : r'.sorting ≡ r.sorting
    quiet : r'.unvisited ≡ false → (keys ≡ []) × (r.unvisited ≡ false)

  scan_deps-Pushed :
      (p : ℕ) (rs : List (Option ℕ)) (r : Scanned E)
      → (r.sorting).sys.registry ≡ reg
      → Found reg rs
      → Pushed r (scan_deps nodes p rs r)
  unfolding scan_deps
  scan_deps-Pushed p [] r e f = record {
    keys = [];
    stack = refl;
    sorting = refl;
    quiet = λ u. (refl, u);
  }
  scan_deps-Pushed p (none ∷ rs) r e f = scan_deps-Pushed p rs r e f
  scan_deps-Pushed p (some q ∷ rs) r e ((k, at), f) =
      let here : index_of q (r.sorting).sys.registry ≡ some k = ap (index_of q) e ∙ at in
      rw (here, scan_deps)
        (elim (Bool-cases ((r.sorting).visited k == 0)) [
          | inr z ↦ rw z (scan_deps-Pushed p rs r e f)
          | inl y ↦ rw y (
              pushed k
                (scan_deps-Pushed p rs (record r { unvisited = true; stack = k ∷ r.stack }) e f))
        ])
    where
      snoc : (ks : List ℕ) (k : ℕ) (l : List ℕ) → ks ++ k ∷ l ≡ (ks ++ k ∷ []) ++ l
      snoc [] k l = refl
      snoc (x ∷ ks) k l = ap (λ t. x ∷ t) (snoc ks k l)

      pushed :
          (k : ℕ) {r' : Scanned E}
          → Pushed (record r { unvisited = true; stack = k ∷ r.stack }) r'
          → Pushed r r'
      pushed k h = record {
        keys = h.keys ++ k ∷ [];
        stack = h.stack ∙ snoc h.keys k r.stack;
        sorting = h.sorting;
        quiet = λ u. let x = (h.quiet u).1 in cc;
      }

  -- What the scan finds, as its flag tells.
  scan_deps-Earlier :
      (p i : ℕ) (rs : List (Option ℕ)) (r : Scanned E)
      → (r.sorting).sys.registry ≡ reg
      → ((j : ℕ) → j ≤ i → ((r.sorting).visited j == 0) ≡ false)
      → ((j : ℕ) → i < j → ((r.sorting).visited j == 0) ≡ true)
      → r.unvisited ≡ false
      → Found reg rs
      → ((scan_deps nodes p rs r).unvisited ≡ false) ↔ Earlier reg i rs
  unfolding scan_deps
  scan_deps-Earlier p i [] r e low high u f = (λ h. tt, λ h. u)
  scan_deps-Earlier p i (none ∷ rs) r e low high u f = scan_deps-Earlier p i rs r e low high u f
  scan_deps-Earlier p i (some q ∷ rs) r e low high u ((k, at), f) =
      let here : index_of q (r.sorting).sys.registry ≡ some k = ap (index_of q) e ∙ at in
      rw (here, scan_deps)
        (elim (Bool-cases ((r.sorting).visited k == 0)) [
          | inr z ↦ rw z (
              let rest = scan_deps-Earlier p i rs r e low high u f in
              let le : k ≤ i = not_above k z in (λ h. ((k, at, le), rest.0 h), λ h. rest.1 h.1))
          | inl y ↦ rw y (
              let push =
                scan_deps-Pushed p rs (record r { unvisited = true; stack = k ∷ r.stack }) e f in
              (λ h. let x = (push.quiet h).1 in cc, λ h. absurd (later k y at h.0)))
        ])
    where
      not_above : (k : ℕ) → ((r.sorting).visited k == 0) ≡ false → k ≤ i
      not_above k z = ground (arith, high k)

      later :
          (k : ℕ)
          → ((r.sorting).visited k == 0) ≡ true
          → index_of q reg ≡ some k
          → ¬ ((k' : ℕ) × (index_of q reg ≡ some k') × (k' ≤ i))
      later k y at (k', at', le) =
          let same : k ≡ k' = some_inj (sym at ∙ at') in let l = low k (omega arith) in cc
        where
          some_inj : some k ≡ some k' → k ≡ k'
          some_inj h = cc

  visit_node-Pushed :
      (i : ℕ) (stack : List ℕ) (st : Sorting E)
      → st.sys.registry ≡ reg
      → Found reg (nodes (registered_at st.sys i)).requires
      → Pushed
          (record { unvisited = false; stack = i ∷ stack; sorting = visit i 1 st })
          (visit_node nodes i stack st)
  unfolding visit_node visit
  visit_node-Pushed i stack st e f =
      scan_deps-Pushed (registered_at st.sys i) (nodes (registered_at st.sys i)).requires _ e f

  module _ (found : AllFound nodes reg) (i : ℕ) where
    -- With a node at the bottom of the stack that is being visited, the search does not succeed.
    stuck :
        (n : ℕ) (pre : List ℕ) (st : Sorting E)
        → Quiet reg st.sys
        → Below (length reg) (pre ++ i ∷ [])
        → st.visited i ≡ 1
        → NotSorted (search_stack nodes n (pre ++ i ∷ []) st)
    unfolding search_stack
    stuck zero pre st q b v = tt
    stuck (suc n) [] st q b v =
        let not_done : (st.visited i == 2) ≡ false = ground arith in
        let again : (st.visited i == 1) ≡ true = ground arith in
        rw (not_done, NotSorted) (rw (again, NotSorted) tt)
    stuck (suc n) (x ∷ pre) st q b v = elim (Bool-cases (st.visited x == 2)) [
      | inl done ↦ rw (done, NotSorted) (stuck n pre st q b.1 v)
      | inr z ↦
          rw (z, NotSorted)
            (elim (Bool-cases (st.visited x == 1)) [
              | inl again ↦ rw (again, NotSorted) tt
              | inr w ↦
                  rw (w, NotSorted)
                    (elim (Bool-cases (nodes p).in_kernel) [
                      | inr out ↦ rw (out, NotSorted) tt
                      | inl inside ↦
                          rw (inside, NotSorted)
                            (elim (Bool-cases (ltb max_nodes (length r.stack))) [
                              | inl over ↦ rw (over, NotSorted) tt
                              | inr fits ↦
                                  rw (fits, NotSorted)
                                    (elim (Bool-cases r.unvisited) [
                                      | inl more ↦
                                          rw (more, NotSorted)
                                            (subst
                                              (λ l. NotSorted (search_stack nodes n l r.sorting))
                                              (sym shape)
                                              (stuck n (push.keys ++ x ∷ pre) r.sorting sc.quiet
                                                (subst (Below (length reg)) shape sc.below)
                                                (still w)))
                                      | inr last ↦
                                          rw (last, NotSorted)
                                            (subst
                                              (λ l. NotSorted (
                                                search_stack nodes n (drop_top l)
                                                  (finish x p r.sorting)))
                                              (sym (short last))
                                              (stuck n pre (finish x p r.sorting) sc.quiet b.1
                                                (done_still w)))
                                    ])
                            ])
                    ])
            ])
    ]
      where
        p : ℕ
        p = registered_at st.sys x

        r : Scanned E
        r = visit_node nodes x (pre ++ i ∷ []) st

        sc : Scan nodes reg (put x 1 st.visited) r
        sc = visit_node-Scan nodes reg x (pre ++ i ∷ []) st q b

        push :
            Pushed
              (record { unvisited = false; stack = x ∷ pre ++ i ∷ []; sorting = visit x 1 st })
              r
        push =
            visit_node-Pushed x (pre ++ i ∷ []) st q.0
              (subst (λ l. Found reg (nodes (get_or l x 0)).requires) (sym q.0) (found x b.0))

        shape : r.stack ≡ (push.keys ++ x ∷ pre) ++ i ∷ []
        shape = push.stack ∙ append_assoc push.keys (x ∷ pre) (i ∷ [])

        short : r.unvisited ≡ false → r.stack ≡ x ∷ pre ++ i ∷ []
        short last = push.stack ∙ ap (λ ks. ks ++ (x ∷ pre ++ i ∷ [])) (push.quiet last).0

        other : (st.visited x == 1) ≡ false → (i == x) ≡ false
        other w = elim (Bool-cases (i == x)) [
          | inr n ↦ n
          | inl y ↦
              let e : st.visited i ≡ st.visited x = ap st.visited (ground arith) in
              absurd (ground arith)
        ]

        still : (st.visited x == 1) ≡ false → (r.sorting).visited i ≡ 1
        still w = ap (λ (f : ℕ → ℕ). f i) sc.visited ∙ rw (other w) v

        done_still : (st.visited x == 1) ≡ false → (finish x p r.sorting).visited i ≡ 1
        done_still w = rw (other w) (still w)

  -- Before index `i` all is done, and from it on nothing is visited.
  abbrev pub At : ℕ → Sorting E → Type 0
  At i st = ((j : ℕ) → j < i → st.visited j ≡ 2) × ((j : ℕ) → i ≤ j → st.visited j ≡ 0)

  module _ (found : AllFound nodes reg) (i : ℕ) (st : Sorting E) (q : Quiet reg st.sys)
      (inside : i < length reg) (at : At i st) where
    abbrev here : ℕ
    here = registered_at st.sys i

    abbrev alone : Scanned E
    alone = record { unvisited = false; stack = i ∷ []; sorting = visit i 1 st }

    Found-here : Found reg (nodes (registered_at st.sys i)).requires
    Found-here = subst (λ l. Found reg (nodes (get_or l i 0)).requires) (sym q.0) (found i inside)

    flag :
        ((visit_node nodes i [] st).unvisited ≡ false)
        ↔ Earlier reg i (nodes (registered_at st.sys i)).requires
    flag =
        unfold visit_node in
        scan_deps-Earlier (registered_at st.sys i) i (nodes (registered_at st.sys i)).requires alone
          (unfold visit in q.0) (λ j h. unfold visit in ground (arith, at.0 j))
          (λ j h. unfold visit in ground (arith, at.1 j)) refl Found-here

    -- One round of the outer loop.
    pub one_node :
        (m : ℕ)
        → (NotSorted (search_stack nodes (suc (suc m)) (i ∷ []) st)
            × ¬ (
                Earlier reg i (nodes (registered_at st.sys i)).requires
                × ((nodes (registered_at st.sys i)).in_kernel ≡ true)))
          ⊎ ((search_stack nodes (suc (suc m)) (i ∷ []) st
                ≡ sorted (finish i (registered_at st.sys i) (visit i 1 st)))
              × Earlier reg i (nodes (registered_at st.sys i)).requires
              × ((nodes (registered_at st.sys i)).in_kernel ≡ true))
    unfolding search_stack
    one_node m = elim (Bool-cases (nodes here).in_kernel) [
      | inr out ↦
          inl
            (rw (a, NotSorted) (rw (b, NotSorted) (rw (out, NotSorted) tt)), λ h. let x = h.1 in cc)
      | inl ok ↦ elim (Bool-cases (visit_node nodes i [] st).unvisited) [
        | inl more ↦ inl (
          rw (a, NotSorted)
              (rw (b, NotSorted)
                (rw (ok, NotSorted)
                  (elim (Bool-cases (ltb max_nodes (length (visit_node nodes i [] st).stack))) [
                    | inl over ↦ rw (over, NotSorted) tt
                    | inr fits ↦
                        rw (fits, NotSorted)
                          (rw (more, NotSorted)
                            (subst
                              (λ l.
                                NotSorted
                                  (search_stack nodes (suc m) l (visit_node nodes i [] st).sorting))
                              (sym push.stack)
                              (stuck found i (suc m) push.keys (visit_node nodes i [] st).sorting
                                sc.quiet (subst (Below (length reg)) push.stack sc.below) being)))
                  ]))),
          λ h. let x = flag.1 h.0 in cc,
        )
        | inr last ↦ inr (
          rw (a, search_stack)
              (rw (b, search_stack)
                (rw (ok, search_stack)
                  (rw (fits last, search_stack) (rw (last, search_stack) (ends last))))),
          flag.0 last,
          ok,
        )
      ]
    ]
      where
        zero_here : st.visited i ≡ 0
        zero_here = at.1 i (omega arith)

        a : (st.visited i == 2) ≡ false
        a = ground (arith, zero_here)

        b : (st.visited i == 1) ≡ false
        b = ground (arith, zero_here)

        push : Pushed alone (visit_node nodes i [] st)
        push = visit_node-Pushed i [] st q.0 Found-here

        sc : Scan nodes reg (put i 1 st.visited) (visit_node nodes i [] st)
        sc = visit_node-Scan nodes reg i [] st q (inside, tt)

        being : ((visit_node nodes i [] st).sorting).visited i ≡ 1
        being =
            ap (λ (f : ℕ → ℕ). f i) sc.visited
            ∙ (let y : (i == i) ≡ true = ground arith in rw y refl)

        single :
            (visit_node nodes i [] st).unvisited ≡ false → (visit_node nodes i [] st).stack ≡ i ∷ []
        single last = push.stack ∙ ap (λ ks. ks ++ i ∷ []) (push.quiet last).0

        fits :
            (visit_node nodes i [] st).unvisited ≡ false
            → ltb max_nodes (length (visit_node nodes i [] st).stack) ≡ false
        fits last = ap (λ (l : List ℕ). ltb max_nodes (length l)) (single last)

        ends :
            (visit_node nodes i [] st).unvisited ≡ false
            → search_stack nodes
                (suc m)
                (drop_top (visit_node nodes i [] st).stack)
                (finish i here (visit_node nodes i [] st).sorting)
              ≡ sorted (finish i here (visit i 1 st))
        ends last =
            ap
              (λ l.
                search_stack nodes (suc m) (drop_top l)
                  (finish i here (visit_node nodes i [] st).sorting))
              (single last)
            ∙ ap (λ s. sorted (finish i here s)) push.sorting

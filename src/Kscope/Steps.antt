-- ===== src/Kscope/Steps.antt =====
-- `kscope_topo_sort`, `kscope_probe_all` and `kscope_shutdown_all` of kernel/kscope.c.
use amit_x.Prelude.{
  ℕ, zero, suc, ◌+◌, ◌*◌, Bool, true, false, List, [], ◌∷◌, ◌++◌, Option, none, some, length,
  get_or, ltb, ◌==◌, if◌then◌else◌,
}
use amit_x.Kscope.{
  Node, Kscope, failed, max_nodes, index_of, set_state, mark_failed, probe_list, stop_list,
}

-- The array `visited` by index (0, 1 or 2), `out_order`, and the nodes' states.
pub record Sorting (E : Type 0) : Type 0 where
  pub visited : ℕ → ℕ
  pub order : List ℕ
  pub sys : Kscope E

-- How the sort ends: result 0, result -1, a write past the end of `stack`, or the processor halted
-- over a `requires` outside the kernel.
pub data Sorted (E : Type 0) : Type 0 where
  sorted : Sorting E → Sorted E
  cycle : Sorting E → Sorted E
  overflow : Sorted E
  halted : Sorted E
  out_of_fuel : Sorted E

-- The result of the loop over `requires`: `has_unvisited_deps`, the stack from its top, the state.
pub record Scanned (E : Type 0) : Type 0 where
  pub unvisited : Bool
  pub stack : List ℕ
  pub sorting : Sorting E

abbrev pub drop_top : List ℕ → List ℕ
drop_top [] = []
drop_top (i ∷ is) = is

-- The rounds that the loop over the stack is given.
abbrev pub rounds : ℕ
rounds = (max_nodes + 1) * (max_nodes + 2)

abbrev pub registered_at : {E : Type 0} → Kscope E → ℕ → ℕ
registered_at s i = get_or s.registry i 0

module _ {E : Type 0} where
  unfoldable pub visit : ℕ → ℕ → Sorting E → Sorting E
  visit i v st = record st { visited = λ j. if j == i then v else st.visited j }

  -- The nodes on the stack are marked, without their dependents.
  unfoldable pub fail_stack : List ℕ → Kscope E → Kscope E
  unfolding set_state
  fail_stack [] s = s
  fail_stack (i ∷ is) s = fail_stack is (set_state (registered_at s i) failed s)

abbrev pub finish : {E : Type 0} → ℕ → ℕ → Sorting E → Sorting E
finish i p st = record st {
  visited = λ j. if j == i then 2 else st.visited j;
  order = st.order ++ p ∷ [];
}

module _ {E : Type 0} (nodes : ℕ → Node) where
  unfoldable pub scan_deps : ℕ → List (Option ℕ) → Scanned E → Scanned E
  unfolding index_of mark_failed
  scan_deps p [] r = r
  scan_deps p (none ∷ rs) r = scan_deps p rs r
  scan_deps p (some q ∷ rs) r =
      let st = r.sorting in
      elim (index_of q st.sys.registry) [
        | none ↦ record r {
          unvisited = false;
          sorting = record st { sys = mark_failed nodes p st.sys };
        }
        | some k ↦
            scan_deps p rs
              (if st.visited k == 0 then record r { unvisited = true; stack = k ∷ r.stack } else r)
      ]

  -- A node is visited: what lies on the stack then, and the state.
  unfoldable pub visit_node : ℕ → List ℕ → Sorting E → Scanned E
  unfolding scan_deps visit
  visit_node i stack st =
      let p = registered_at st.sys i in
      scan_deps p (nodes p).requires
        (record { unvisited = false; stack = i ∷ stack; sorting = visit i 1 st })

  -- The loop over the stack, `n` rounds at most.
  unfoldable pub search_stack : ℕ → List ℕ → Sorting E → Sorted E
  unfolding fail_stack visit_node
  search_stack zero stack st = out_of_fuel
  search_stack (suc n) [] st = sorted st
  search_stack (suc n) (i ∷ stack) st =
      let r = visit_node i stack st in
      let p = registered_at st.sys i in
      elim (st.visited i == 2) [
        | true ↦ search_stack n stack st
        | false ↦ elim (st.visited i == 1) [
          | true ↦ cycle (record st { sys = fail_stack (i ∷ stack) st.sys })
          | false ↦ elim (nodes p).in_kernel [
            | false ↦ halted
            | true ↦ elim (ltb max_nodes (length r.stack)) [
              | true ↦ overflow
              | false ↦ elim r.unvisited [
                | true ↦ search_stack n r.stack r.sorting
                | false ↦ search_stack n (drop_top r.stack) (finish i p r.sorting)
              ]
            ]
          ]
        ]
      ]

  -- The outer loop, over `n` indices from `i` on.
  unfoldable pub sort_from : ℕ → ℕ → Sorting E → Sorted E
  unfolding search_stack
  sort_from zero i st = sorted st
  sort_from (suc n) i st = elim (st.visited i == 2) [
    | true ↦ sort_from n (i + 1) st
    | false ↦ elim (search_stack rounds (i ∷ []) st) [
      | sorted st' ↦ sort_from n (i + 1) st'
      | cycle st' ↦ cycle st'
      | overflow ↦ overflow
      | halted ↦ halted
      | out_of_fuel ↦ out_of_fuel
    ]
  ]

  unfoldable pub topo_sort : Kscope E → Sorted E
  unfolding sort_from
  topo_sort s = sort_from (length s.registry) 0 (record { visited = λ i. 0; order = []; sys = s })

-- `none` where the sort does not return.
unfoldable pub probe_all :
    {E : Type 0} (nodes : ℕ → Node) (init : ℕ → E → Bool × E) → Kscope E → Option (Kscope E)
unfolding topo_sort probe_list
probe_all nodes init s = elim (topo_sort nodes s) [
  | sorted st ↦ some (probe_list nodes init st.order st.sys)
  | cycle st ↦ some st.sys
  | overflow ↦ none
  | halted ↦ none
  | out_of_fuel ↦ none
]

unfoldable pub reversed : List ℕ → List ℕ
reversed [] = []
reversed (p ∷ ps) = reversed ps ++ p ∷ []

unfoldable pub shutdown_all :
    {E : Type 0} (nodes : ℕ → Node) (shutdown : ℕ → E → E) → Kscope E → Option (Kscope E)
unfolding topo_sort stop_list reversed
shutdown_all nodes shutdown s = elim (topo_sort nodes s) [
  | sorted st ↦ some (stop_list nodes shutdown (reversed st.order) st.sys)
  | cycle st ↦ some st.sys
  | overflow ↦ none
  | halted ↦ none
  | out_of_fuel ↦ none
]

-- ===== src/Kscope/Tests.antt =====
-- A registry of three nodes, each of which requires the one before it, and the theorems at it.
use amit_x.Prelude.{
  ℕ, replicate, zero, suc, ◌≡◌, refl, ap, arith, if◌then◌else◌, Bool, true, false, List, [], ◌∷◌,
  Option, none, some, ◌⊎◌, ◌==◌,
}
use amit_x.Kscope.{is_ok, registered, running, Node, Kscope, index_of}
use amit_x.Kscope.Steps.{Sorting, Sorted, sorted, overflow, cycle, topo_sort, probe_all}
use amit_x.Kscope.Sort.{Ends, topo_sort-Ends, Probed, probe_all-Sound}
use amit_x.Kscope.Search.{AllFound, InOrder, NotSorted}
use amit_x.Kscope.Order.{topo_sort-InOrder}

abbrev node : ℕ → List (Option ℕ) → Node
node i rs = record {
  named = true;
  id = i;
  requires = rs;
  in_kernel = true;
  has_init = true;
  has_shutdown = true;
}

-- Node 0 requires nothing, 1 requires 0, 2 requires 1, and 3 requires itself.
abbrev nodes : ℕ → Node
nodes zero = node 10 []
nodes (suc zero) = node 11 (some 0 ∷ [])
nodes (suc (suc zero)) = node 12 (some 1 ∷ none ∷ [])
nodes (suc (suc (suc zero))) = node 13 (some 3 ∷ [])
nodes (suc (suc (suc (suc p)))) = node p []

-- The environment is the list of the nodes that started, the last one first; node 2 does not start.
abbrev init : ℕ → List ℕ → Bool × List ℕ
init p e = if p == 2 then (false, e) else (true, p ∷ e)

abbrev system : List ℕ → Kscope (List ℕ)
system reg = record { registry = reg; states = λ p. registered; env = [] }

abbrev three : List ℕ
three = 0 ∷ 1 ∷ 2 ∷ []

abbrev env_of : Option (Kscope (List ℕ)) → List ℕ
env_of none = 99 ∷ []
env_of (some s) = s.env

abbrev order_of : Sorted (List ℕ) → List ℕ
order_of (sorted st) = st.order
order_of r = 99 ∷ []

abbrev is_cycle : Sorted (List ℕ) → Bool
is_cycle (cycle st) = true
is_cycle r = false

-- Node 0 requires node 1 and says so 33 times, more than the stack of the sort can hold.
abbrev repeated : ℕ → Node
repeated zero = node 10 (replicate 33 (some 1))
repeated (suc p) = node p []

abbrev is_overflow : Sorted (List ℕ) → Bool
is_overflow overflow = true
is_overflow r = false

overflow_runs : is_overflow (topo_sort repeated (system (0 ∷ 1 ∷ []))) ≡ true
unfolding topo_sort
overflow_runs = refl

in_order_runs : order_of (topo_sort nodes (system three)) ≡ three
unfolding topo_sort
in_order_runs = refl

-- Registered before what it requires, a node is taken for a cycle.
late_runs : is_cycle (topo_sort nodes (system (1 ∷ 0 ∷ []))) ≡ true
unfolding topo_sort
late_runs = refl

-- A node that requires itself is not.
self_runs : order_of (topo_sort nodes (system (3 ∷ []))) ≡ 3 ∷ []
unfolding topo_sort
self_runs = refl

probe_runs : env_of (probe_all nodes init (system three)) ≡ 1 ∷ 0 ∷ []
unfolding probe_all
probe_runs = refl

contrary : ¬ (registered ≡ running)
contrary e = let b : false ≡ true = ap is_ok e in cc

quiet : (p : ℕ) → ¬ ((system three).states p ≡ running)
quiet p = contrary

found : AllFound nodes three
unfolding index_of
found zero h = tt
found (suc zero) h = ((0, refl), tt)
found (suc (suc zero)) h = ((1, refl), tt)
found (suc (suc (suc i))) h = absurd (omega arith)

topo_sort-Ends_example : Ends three (topo_sort nodes (system three))
topo_sort-Ends_example = topo_sort-Ends nodes (system three) (omega arith) quiet

probe_all-Sound_example : Probed nodes (probe_all nodes init (system three))
probe_all-Sound_example = probe_all-Sound nodes init (system three) (omega arith) quiet

topo_sort-InOrder_example :
    (NotSorted (topo_sort nodes (system three)) × ¬ (InOrder nodes three 0 three))
    ⊎ (InOrder nodes three 0 three
        × ((st : Sorting (List ℕ)) × (topo_sort nodes (system three) ≡ sorted st)
            × (st.order ≡ three)
            × (st.sys ≡ system three)))
topo_sort-InOrder_example = topo_sort-InOrder nodes (system three) quiet found

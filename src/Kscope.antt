-- ===== src/Kscope.antt =====
-- kernel/kscope.c: the registry of subsystems. A pointer to a node is a number; what a node is made
-- of stands in `nodes`, and the one field that the code changes, `state`, in the record `Kscope`.
-- `init` and `shutdown` of the nodes are parameters, on a state `E` of everything else.
pub mod Dependents
pub mod Fail
pub mod Probe
pub mod Sort
pub mod Register
pub mod Search
pub mod Order
pub mod Steps
mod Tests
use amit_x.Prelude.{
  ℕ, zero, suc, ◌+◌, ◌*◌, Bool, true, false, not, ◌&&◌, List, [], ◌∷◌, ◌++◌, Option, none, some,
  length, get_or, ltb, leb, ◌==◌, if◌then◌else◌,
}

pub data NodeState : Type 0 where
  registered : NodeState
  probing : NodeState
  running : NodeState
  failed : NodeState

abbrev pub is_registered : NodeState → Bool
is_registered registered = true
is_registered probing = false
is_registered running = false
is_registered failed = false

-- KSCOPE_STATE_OK is `running`.
abbrev pub is_ok : NodeState → Bool
is_ok running = true
is_ok registered = false
is_ok probing = false
is_ok failed = false

-- `requires` may hold NULL; `in_kernel` is the test of its address in `kscope_topo_sort`.
pub record Node : Type 0 where
  pub named : Bool
  pub id : ℕ
  pub requires : List (Option ℕ)
  pub in_kernel : Bool
  pub has_init : Bool
  pub has_shutdown : Bool

pub record Kscope (E : Type 0) : Type 0 where
  pub registry : List ℕ
  pub states : ℕ → NodeState
  pub env : E

-- KSCOPE_MAX_NODES
abbrev pub max_nodes : ℕ
max_nodes = 32

unfoldable pub requires_node : ℕ → List (Option ℕ) → Bool
requires_node p [] = false
requires_node p (none ∷ rs) = requires_node p rs
requires_node p (some r ∷ rs) = if r == p then true else requires_node p rs

unfoldable pub index_of : ℕ → List ℕ → Option ℕ
index_of p [] = none
index_of p (q ∷ qs) =
    let rest = index_of p qs in
    if q == p then some 0 else elim rest [ none ↦ none | some k ↦ some (suc k) ]

module _ {E : Type 0} where
  unfoldable pub set_state : ℕ → NodeState → Kscope E → Kscope E
  set_state p st s = record s { states = λ q. if q == p then st else s.states q }

  -- `kscope_check_deps`, from a place in `requires` on.
  unfoldable pub deps_ok : List (Option ℕ) → Kscope E → Bool
  deps_ok [] s = true
  deps_ok (none ∷ rs) s = false
  deps_ok (some r ∷ rs) s = let rest = deps_ok rs s in if is_ok (s.states r) then rest else false

module _ (nodes : ℕ → Node) where
  unfoldable pub id_taken : ℕ → List ℕ → Bool
  id_taken i [] = false
  id_taken i (q ∷ qs) = let rest = id_taken i qs in if (nodes q).id == i then true else rest

  unfoldable pub find_by_id : ℕ → List ℕ → Option ℕ
  find_by_id i [] = none
  find_by_id i (q ∷ qs) = let rest = find_by_id i qs in if (nodes q).id == i then some q else rest

module _ {E : Type 0} (nodes : ℕ → Node) where
  unfoldable pub register : Option ℕ → Kscope E → Kscope E
  unfolding id_taken set_state
  register none s = s
  register (some p) s =
      if not (nodes p).named
      then s
      else if leb max_nodes (length s.registry)
      then s
      else if id_taken nodes (nodes p).id s.registry
      then s
      else let t = set_state p registered s in record t { registry = t.registry ++ p ∷ [] }

  -- The loop of `kscope_mark_failed` over the registry, with `mark` for its own call.
  unfoldable pub fail_dependents : (ℕ → Kscope E → Kscope E) → ℕ → List ℕ → Kscope E → Kscope E
  unfolding requires_node
  fail_dependents mark p [] s = s
  fail_dependents mark p (q ∷ qs) s =
      fail_dependents mark p qs
        (if is_registered (s.states q) && requires_node p (nodes q).requires then mark q s else s)

  -- The recursion of `kscope_mark_failed`, `n` calls deep at most.
  unfoldable pub fail_within : ℕ → ℕ → Kscope E → Kscope E
  unfolding fail_dependents set_state
  fail_within zero p s = s
  fail_within (suc n) p s = fail_dependents (fail_within n) p s.registry (set_state p failed s)

  unfoldable pub mark_failed : ℕ → Kscope E → Kscope E
  unfolding fail_within
  mark_failed p s = fail_within (suc (length s.registry)) p s

module _ {E : Type 0} (nodes : ℕ → Node) (init : ℕ → E → Bool × E) where
  -- `init` answers `true` for the result 0.
  unfoldable pub started : ℕ → Kscope E → Kscope E
  unfolding mark_failed set_state
  started p s =
      let t = set_state p probing s in
      let (done, e) = init p t.env in
      let u : Kscope E = record t { env = e } in
      if done then set_state p running u else mark_failed nodes p u

  -- The body of the loop of `kscope_probe_all`.
  unfoldable pub probe_node : ℕ → Kscope E → Kscope E
  unfolding mark_failed set_state deps_ok started
  probe_node p s =
      if not (is_registered (s.states p))
      then s
      else if not (deps_ok (nodes p).requires s)
      then mark_failed nodes p s
      else if not (nodes p).has_init
      then set_state p running s
      else started p s

  unfoldable pub probe_list : List ℕ → Kscope E → Kscope E
  unfolding probe_node
  probe_list [] s = s
  probe_list (p ∷ ps) s = probe_list ps (probe_node p s)

module _ {E : Type 0} (nodes : ℕ → Node) (shutdown : ℕ → E → E) where
  -- The body of the loop of `kscope_shutdown_all`.
  unfoldable pub stop_node : ℕ → Kscope E → Kscope E
  unfolding set_state
  stop_node p s =
      if not (is_ok (s.states p))
      then s
      else set_state p registered
          (if (nodes p).has_shutdown then record s { env = shutdown p s.env } else s)

  unfoldable pub stop_list : List ℕ → Kscope E → Kscope E
  unfolding stop_node
  stop_list [] s = s
  stop_list (p ∷ ps) s = stop_list ps (stop_node p s)

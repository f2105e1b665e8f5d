-- ===== src/Kscope/Register.antt =====
-- `kscope_register` and `kscope_find_by_id` of kernel/kscope.c.
use amit_x.Prelude.{ℕ, ◌≤◌, ◌≡◌, ◌≢◌, true, false, [], ◌∷◌, ◌++◌, some, length, ◌⊎◌}
use amit_x.Kscope.{registered, Node, Kscope, max_nodes, id_taken, find_by_id}
use amit_x.Kscope.Fail.{Mem}

module _ {E : Type 0} (nodes : ℕ → Node) where
  -- No more nodes than the array has room for, and each is the one that is found by its identifier.
  pub record IsValid (s : Kscope E) : Type 0 where
    pub room : length s.registry ≤ max_nodes
    pub own : (q : ℕ) → Mem q s.registry → find_by_id nodes (nodes q).id s.registry ≡ some q

module _ {E : Type 0} (nodes : ℕ → Node) where
  -- What `kscope_register` of a node `p` does.
  abbrev pub Registered : ℕ → Kscope E → Kscope E → Type 0
  Registered p s t =
      (t ≡ s
        × ((((nodes p).named ≡ false) ⊎ (max_nodes ≤ length s.registry))
            ⊎ (id_taken nodes (nodes p).id s.registry ≡ true)))
      ⊎ ((t.registry ≡ s.registry ++ p ∷ [])
          × (t.states p ≡ registered)
          × ((q : ℕ) → q ≢ p → t.states q ≡ s.states q)
          × (find_by_id nodes (nodes p).id t.registry ≡ some p))

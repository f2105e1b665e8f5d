-- ===== src/Kscope/Fail.antt =====
-- `kscope_mark_failed` of kernel/kscope.c: how failure spreads from a node to those that depend on it.
use amit_x.Prelude.{
  ℕ, zero, suc, ◌+◌, ◌≤◌, ◌<◌, ◌≡◌, ◌≢◌, refl, ap, sym, ◌∙◌, subst, arith, Bool, true, false, ◌&&◌,
  List, [], ◌∷◌, length, ◌==◌, if◌then◌else◌, Bool-cases, ◌⊎◌, inl, inr,
}
use amit_x.Kscope.{
  NodeState, registered, probing, running, failed, is_registered, Node, Kscope, requires_node,
  set_state, fail_dependents, fail_within, mark_failed,
}
use amit_x.Kscope.Dependents.{Depends, mark_failed-OnlyDependents}

abbrev pub Mem : ℕ → List ℕ → Type 0
Mem p [] = ⊥
Mem p (q ∷ qs) = (p ≡ q) ⊎ Mem p qs

abbrev Subset : List ℕ → List ℕ → Type 0
Subset [] reg = Unit {0}
Subset (q ∷ qs) reg = Mem q reg × Subset qs reg

Subset-refl : (reg : List ℕ) → Subset reg reg
Subset-refl reg = widen reg reg (λ q m. m)
  where
    widen : (qs reg : List ℕ) → ((q : ℕ) → Mem q qs → Mem q reg) → Subset qs reg
    widen [] reg h = tt
    widen (q ∷ qs) reg h = (h q (inl refl), widen qs reg (λ k m. h k (inr m)))

-- From `s` to `t` some registered nodes failed, and node `p` may have, whatever its state.
pub record Failing {E : Type 0} (p : ℕ) (s t : Kscope E) : Type 0 where
  pub registry : t.registry ≡ s.registry
  pub env : t.env ≡ s.env
  pub states :
      (q : ℕ)
      → (t.states q ≡ s.states q) ⊎ ((t.states q ≡ failed) × ((q ≡ p) ⊎ (s.states q ≡ registered)))

-- The nodes of the list whose state is `registered`.
abbrev pub pending : {E : Type 0} → Kscope E → List ℕ → ℕ
pending s [] = 0
pending s (q ∷ qs) = (if is_registered (s.states q) then 1 else 0) + pending s qs

pub state_cases : (st : NodeState) → (is_registered st ≡ true) → st ≡ registered
state_cases registered e = refl
state_cases probing e = cc
state_cases running e = cc
state_cases failed e = cc

module _ {E : Type 0} where
  pending-set_le :
      (p : ℕ) (s : Kscope E) (qs : List ℕ) → pending (set_state p failed s) qs ≤ pending s qs
  unfolding set_state
  pending-set_le p s [] = omega arith
  pending-set_le p s (q ∷ qs) = ground (arith, pending-set_le p s qs)

  pending-set_lt :
      (p : ℕ) (s : Kscope E) (qs : List ℕ)
      → Mem p qs
      → is_registered (s.states p) ≡ true
      → pending (set_state p failed s) qs < pending s qs
  unfolding set_state
  pending-set_lt p s [] m r = absurd m
  pending-set_lt p s (q ∷ qs) (inl e) r = elim (Bool-cases (q == p)) [
    | inl y ↦ subst (λ k. pending (set_state p failed s) (k ∷ qs) < pending s (k ∷ qs)) e (first r)
    | inr n ↦ absurd (ground arith)
  ]
    where
      first :
          is_registered (s.states p) ≡ true
          → pending (set_state p failed s) (p ∷ qs) < pending s (p ∷ qs)
      first r = let y : (p == p) ≡ true = ground arith in ground (arith, pending-set_le p s qs)
  pending-set_lt p s (q ∷ qs) (inr m) r = ground (arith, pending-set_lt p s qs m r)

  pending-Failing :
      (p : ℕ) (s t : Kscope E) (qs : List ℕ) → Failing p s t → pending t qs ≤ pending s qs
  pending-Failing p s t [] f = omega arith
  pending-Failing p s t (q ∷ qs) f = elim (f.states q) [
    | inl e ↦ let h = ap is_registered e in ground (arith, pending-Failing p s t qs f)
    | inr (e, c) ↦ let h = ap is_registered e in ground (arith, pending-Failing p s t qs f)
  ]

  Failing-refl : (p : ℕ) (s : Kscope E) → Failing p s s
  Failing-refl p s = record { registry = refl; env = refl; states = λ q. inl refl }

  -- A call for another node, itself registered, in the middle.
  Failing-trans :
      (p q : ℕ) (s t u : Kscope E)
      → Failing p s t
      → t.states q ≡ registered
      → Failing q t u
      → Failing p s u
  Failing-trans p q s t u f r g = record {
    registry = g.registry ∙ f.registry;
    env = g.env ∙ f.env;
    states = λ k. both k (f.states k) (g.states k);
  }
    where
      was :
          (k : ℕ)
          → (t.states k ≡ s.states k)
            ⊎ ((t.states k ≡ failed) × ((k ≡ p) ⊎ (s.states k ≡ registered)))
          → t.states k ≡ registered
          → s.states k ≡ registered
      was k (inl e) r = sym e ∙ r
      was k (inr (e, c)) r =
          absurd (let h : is_registered failed ≡ true = ap is_registered (sym e ∙ r) in cc)

      both :
          (k : ℕ)
          → (t.states k ≡ s.states k)
            ⊎ ((t.states k ≡ failed) × ((k ≡ p) ⊎ (s.states k ≡ registered)))
          → (u.states k ≡ t.states k)
            ⊎ ((u.states k ≡ failed) × ((k ≡ q) ⊎ (t.states k ≡ registered)))
          → (u.states k ≡ s.states k)
            ⊎ ((u.states k ≡ failed) × ((k ≡ p) ⊎ (s.states k ≡ registered)))
      both k (inl e) (inl e') = inl (e' ∙ e)
      both k (inr (e, c)) (inl e') = inr (e' ∙ e, c)
      both k a (inr (e', inl same)) = inr (e', inr (was k a (ap t.states same ∙ r)))
      both k a (inr (e', inr c')) = inr (e', inr (was k a c'))

-- Registered nodes that require a failed one do so of a node that had failed before, or of `p`.
abbrev pub Closed : {E : Type 0} → (ℕ → Node) → List ℕ → ℕ → Kscope E → Kscope E → Type 0
Closed nodes reg p s t =
    (q r : ℕ)
    → Mem q reg
    → t.states q ≡ registered
    → requires_node r (nodes q).requires ≡ true
    → t.states r ≡ failed
    → (s.states r ≡ failed) ⊎ (r ≡ p)

-- No registered node of the list requires `p`.
abbrev pub NoneRequires : {E : Type 0} → (ℕ → Node) → ℕ → List ℕ → Kscope E → Type 0
NoneRequires nodes p [] t = Unit {0}
NoneRequires nodes p (q ∷ qs) t =
    (t.states q ≡ registered → requires_node p (nodes q).requires ≡ false)
    × NoneRequires nodes p qs t

module _ {E : Type 0} (nodes : ℕ → Node) where
  registered_before :
      (q k : ℕ) (s t : Kscope E) → Failing q s t → t.states k ≡ registered → s.states k ≡ registered
  registered_before q k s t f r = elim (f.states k) [
    | inl e ↦ sym e ∙ r
    | inr (e, c) ↦ impossible (ap is_registered (sym e ∙ r))
  ]
    where
      impossible : is_registered failed ≡ true → s.states k ≡ registered
      impossible h = cc

  Failing-join : (p : ℕ) (s t u : Kscope E) → Failing p s t → Failing p t u → Failing p s u
  Failing-join p s t u f g = record {
    registry = g.registry ∙ f.registry;
    env = g.env ∙ f.env;
    states = λ k. elim (g.states k) [
      | inr (e, inl same) ↦ inr (e, inl same)
      | inr (e, inr r) ↦ inr (e, inr (registered_before p k s t f r))
      | inl e ↦ elim (f.states k) [ inl e' ↦ inl (e ∙ e') | inr (e', c) ↦ inr (e ∙ e', c) ]
    ];
  }

  NoneRequires-Failing :
      (p q : ℕ) (s t : Kscope E) (qs : List ℕ)
      → Failing q s t
      → NoneRequires nodes p qs s
      → NoneRequires nodes p qs t
  NoneRequires-Failing p q s t [] f h = tt
  NoneRequires-Failing p q s t (k ∷ qs) f (h, hs) =
      (λ r. h (registered_before q k s t f r), NoneRequires-Failing p q s t qs f hs)

  NoneRequires-Mem :
      (p k : ℕ) (t : Kscope E) (qs : List ℕ)
      → NoneRequires nodes p qs t
      → Mem k qs
      → t.states k ≡ registered
      → requires_node p (nodes k).requires ≡ false
  NoneRequires-Mem p k t [] h m r = absurd m
  NoneRequires-Mem p k t (q ∷ qs) (h, hs) (inl e) r =
      subst (λ x. t.states x ≡ registered → requires_node p (nodes x).requires ≡ false) (sym e) h r
  NoneRequires-Mem p k t (q ∷ qs) (h, hs) (inr m) r = NoneRequires-Mem p k t qs hs m r

  -- What the failure of `p` comes to, for the dependents in `qs`.
  record Spread (reg : List ℕ) (p : ℕ) (qs : List ℕ) (s t : Kscope E) : Type 0 where
    failing : Failing p s t
    gone : t.states p ≡ failed
    closed : Closed nodes reg p s t
    none_left : NoneRequires nodes p qs t

  -- What the code's own call for a registered node `q` does.
  abbrev Marks : List ℕ → ℕ → (ℕ → Kscope E → Kscope E) → Type 0
  Marks reg n mark =
      (q : ℕ) (s : Kscope E)
      → s.registry ≡ reg
      → Mem q reg
      → s.states q ≡ registered
      → pending s reg ≤ n
      → Spread reg q reg s (mark q s)

  Spread-step :
      (reg : List ℕ) (p q : ℕ) (qs : List ℕ) (s s' t : Kscope E)
      → s.states p ≡ failed
      → s.states q ≡ registered
      → Spread reg q reg s s'
      → Spread reg p qs s' t
      → Spread reg p (q ∷ qs) s t
  Spread-step reg p q qs s s' t gone r a b = record {
    failing = Failing-join p s s' t through b.failing;
    gone = b.gone;
    closed = λ k x m rk req fx. elim (b.closed k x m rk req fx) [
      | inr e ↦ inr e
      | inl fx' ↦
          let rk' = registered_before p k s' t b.failing rk in
          elim (a.closed k x m rk' req fx') [
            | inl old ↦ inl old
            | inr e ↦
                let no_q = NoneRequires-Mem q k s' reg a.none_left m rk' in
                let req' : requires_node q (nodes k).requires ≡ true =
                  subst (λ y. requires_node y (nodes k).requires ≡ true) e req in
                cc
          ]
    ];
    none_left = (
      λ rq.
          let was = registered_before p q s' t b.failing rq in
          let bad : is_registered failed ≡ true = ap is_registered (sym a.gone ∙ was) in cc,
      b.none_left,
    );
  }
    where
      through : Failing p s s'
      through = record {
        registry = (a.failing).registry;
        env = (a.failing).env;
        states = λ k. elim ((a.failing).states k) [
          | inl e ↦ inl e
          | inr (e, inl same) ↦ inr (e, inr (ap s.states same ∙ r))
          | inr (e, inr c) ↦ inr (e, inr c)
        ];
      }

  fail_dependents-Spread :
      (n : ℕ) (mark : ℕ → Kscope E → Kscope E) (reg : List ℕ) (p : ℕ) (qs : List ℕ) (s : Kscope E)
      → Marks reg n mark
      → Subset qs reg
      → s.registry ≡ reg
      → s.states p ≡ failed
      → pending s reg ≤ n
      → Spread reg p qs s (fail_dependents nodes mark p qs s)
  unfolding fail_dependents
  fail_dependents-Spread n mark reg p [] s marks sub e gone few = record {
    failing = Failing-refl p s;
    gone = gone;
    closed = λ k x m rk req fx. inl fx;
    none_left = tt;
  }
  fail_dependents-Spread n mark reg p (q ∷ qs) s marks (m, sub) e gone few =
      elim (Bool-cases (is_registered (s.states q) && requires_node p (nodes q).requires)) [
        | inl y ↦ rw y (
            let r : s.states q ≡ registered = state_cases (s.states q) (ground arith) in
            let a = marks q s e m r few in
            let gone' : (mark q s).states p ≡ failed = still a.failing in
            Spread-step reg p q qs s (mark q s) _ gone r a (
              fail_dependents-Spread n mark reg p qs (mark q s) marks sub ((a.failing).registry ∙ e)
                gone' (omega (arith, few, pending-Failing q s (mark q s) reg a.failing))))
        | inr z ↦ rw z (
            let rest = fail_dependents-Spread n mark reg p qs s marks sub e gone few in
            record {
              failing = rest.failing;
              gone = rest.gone;
              closed = rest.closed;
              none_left = (
                λ rq.
                    let was = ap is_registered (registered_before p q s _ rest.failing rq) in
                    ground arith,
                rest.none_left,
              );
            })
      ]
    where
      still : Failing q s (mark q s) → (mark q s).states p ≡ failed
      still f = elim (f.states p) [ inl e ↦ e ∙ gone | inr (e, c) ↦ e ]

  -- The first change of the call.
  failed-Failing : (p : ℕ) (s : Kscope E) → Failing p s (set_state p failed s)
  unfolding set_state
  failed-Failing p s = record {
    registry = refl;
    env = refl;
    states = λ q. elim (Bool-cases (q == p)) [
      | inl y ↦ rw y (inr (refl, inl (ground arith)))
      | inr n ↦ rw n (inl refl)
    ];
  }

  failed_at :
      (p q : ℕ) (s : Kscope E)
      → (set_state p failed s).states q ≡ (if q == p then failed else s.states q)
  unfolding set_state
  failed_at p q s = refl

  one_call :
      (n : ℕ) (reg : List ℕ) (p : ℕ) (s : Kscope E)
      → Marks reg n (fail_within nodes n)
      → s.registry ≡ reg
      → pending (set_state p failed s) reg ≤ n
      → Spread reg p reg s (fail_within nodes (suc n) p s)
  one_call n reg p s marks e few = first (
      unfold fail_within in
      subst
        (λ l.
          Spread reg p reg (set_state p failed s)
            (fail_dependents nodes (fail_within nodes n) p l (set_state p failed s)))
        (sym e)
        (fail_dependents-Spread n (fail_within nodes n) reg p reg (set_state p failed s) marks
          (Subset-refl reg) ((failed-Failing p s).registry ∙ e) at_p few))
    where
      at_p : (set_state p failed s).states p ≡ failed
      at_p = let y : (p == p) ≡ true = ground arith in failed_at p p s ∙ rw y refl

      first :
          Spread reg p reg (set_state p failed s) (fail_within nodes (suc n) p s)
          → Spread reg p reg s (fail_within nodes (suc n) p s)
      first a = record {
        failing = Failing-join p s (set_state p failed s) _ (failed-Failing p s) a.failing;
        gone = a.gone;
        closed = λ k x m rk req fx. elim (a.closed k x m rk req fx) [
          | inr same ↦ inr same
          | inl fx' ↦ elim (Bool-cases (x == p)) [
            | inl y ↦ inr (ground arith)
            | inr other ↦ inl (sym (failed_at p x s ∙ rw other refl) ∙ fx')
          ]
        ];
        none_left = a.none_left;
      }

  fail_within-Spread :
      (n : ℕ) (reg : List ℕ) (p : ℕ) (s : Kscope E)
      → s.registry ≡ reg
      → pending (set_state p failed s) reg ≤ n
      → Spread reg p reg s (fail_within nodes (suc n) p s)
  fail_within-Spread zero reg p s e few =
      one_call zero reg p s
        (λ q t e' m r few'.
          absurd (omega (arith, few', pending-set_lt q t reg m (ap is_registered r))))
        e few
  fail_within-Spread (suc n) reg p s e few =
      one_call (suc n) reg p s
        (λ q t e' m r few'.
          fail_within-Spread n reg q t e'
            (omega (arith, few', pending-set_lt q t reg m (ap is_registered r))))
        e few

  pending_le : (s : Kscope E) (qs : List ℕ) → pending s qs ≤ length qs
  pending_le s [] = omega arith
  pending_le s (q ∷ qs) = ground (arith, pending_le s qs)

  pub mark_failed_lem :
      (p : ℕ) (s : Kscope E)
      → let t = mark_failed nodes p s in
        Failing p s t
        × (t.states p ≡ failed)
        × ((q r : ℕ)
            → Mem q s.registry
            → t.states q ≡ registered
            → requires_node r (nodes q).requires ≡ true
            → t.states r ≡ failed
            → (s.states r ≡ failed) × (r ≢ p))
        × ((q : ℕ) → t.states q ≡ failed → (s.states q ≡ failed) ⊎ Depends nodes p q)
  unfolding mark_failed
  mark_failed_lem p s =
      let reg = s.registry in
      let a =
        fail_within-Spread (length reg) reg p s refl
          (omega (arith, pending_le (set_state p failed s) reg)) in
      (
        a.failing,
        a.gone,
        λ q r m rq req fr.
            let away = λ (e : r ≡ p).
              let no_p = NoneRequires-Mem p q _ reg a.none_left m rq in
              let req' : requires_node p (nodes q).requires ≡ true =
                subst (λ y. requires_node y (nodes q).requires ≡ true) e req in
              contrary no_p req' in
            elim (a.closed q r m rq req fr) [ inl old ↦ (old, away) | inr e ↦ absurd (away e) ],
        (mark_failed-OnlyDependents nodes p s).all,
      )
    where
      contrary : {b : Bool} → b ≡ false → b ≡ true → ⊥
      contrary x y = cc

-- ===== src/Kscope/Probe.antt =====
-- `kscope_probe_all` of kernel/kscope.c: a node runs only if all that it requires runs.
use amit_x.Prelude.{
  ℕ, ◌≡◌, ◌≢◌, refl, ap, sym, ◌∙◌, subst, arith, Bool, true, false, List, [], ◌∷◌, Option, none,
  some, ◌==◌, if◌then◌else◌, Bool-cases, ◌⊎◌, inl, inr,
}
use amit_x.Kscope.{
  NodeState, registered, probing, running, failed, is_registered, is_ok, Node, Kscope, set_state,
  deps_ok, mark_failed, started, probe_node, probe_list,
}
use amit_x.Kscope.Fail.{Failing, mark_failed_lem, state_cases}

-- The entry names a node that runs.
abbrev pub Ready : {E : Type 0} → Kscope E → Option ℕ → Type 0
Ready s none = ⊥
Ready s (some r) = s.states r ≡ running

abbrev pub AllReady : {E : Type 0} → Kscope E → List (Option ℕ) → Type 0
AllReady s [] = Unit {0}
AllReady s (r ∷ rs) = Ready s r × AllReady s rs

-- Every node that runs has all that it requires running.
abbrev pub Sound : {E : Type 0} → (ℕ → Node) → Kscope E → Type 0
Sound nodes s = (p : ℕ) → s.states p ≡ running → AllReady s (nodes p).requires

-- What runs stays running.
abbrev pub Keeps : {E : Type 0} → Kscope E → Kscope E → Type 0
Keeps s t = (p : ℕ) → s.states p ≡ running → t.states p ≡ running

not_running : (st : NodeState) → st ≡ registered → ¬ (st ≡ running)
not_running st e r = let h : is_registered running ≡ true = ap is_registered (sym r ∙ e) in cc

pub failed_not_running : (st : NodeState) → st ≡ failed → ¬ (st ≡ running)
failed_not_running st e r = let h : is_ok failed ≡ true = ap is_ok (sym e ∙ r) in cc

ok_cases : (st : NodeState) → is_ok st ≡ true → st ≡ running
ok_cases running e = refl
ok_cases registered e = cc
ok_cases probing e = cc
ok_cases failed e = cc

module _ {E : Type 0} where
  AllReady-Keeps :
      (s t : Kscope E) (rs : List (Option ℕ)) → Keeps s t → AllReady s rs → AllReady t rs
  AllReady-Keeps s t [] k h = tt
  AllReady-Keeps s t (none ∷ rs) k h = absurd h.0
  AllReady-Keeps s t (some r ∷ rs) k (h, hs) = (k r h, AllReady-Keeps s t rs k hs)

  deps_ok-AllReady : (rs : List (Option ℕ)) (s : Kscope E) → deps_ok rs s ≡ true → AllReady s rs
  unfolding deps_ok
  deps_ok-AllReady [] s h = tt
  deps_ok-AllReady (none ∷ rs) s h = cc
  deps_ok-AllReady (some r ∷ rs) s h = elim (Bool-cases (is_ok (s.states r))) [
    | inl y ↦ (ok_cases (s.states r) y, deps_ok-AllReady rs s (ground arith))
    | inr z ↦ absurd (ground arith)
  ]

  -- A step that lets `p` alone start, when all that it requires runs, keeps soundness.
  Sound-step :
      (nodes : ℕ → Node) (p : ℕ) (s t : Kscope E)
      → Sound nodes s
      → Keeps s t
      → ((q : ℕ) → q ≢ p → t.states q ≡ running → s.states q ≡ running)
      → (t.states p ≡ running → (s.states p ≡ running) ⊎ AllReady s (nodes p).requires)
      → Sound nodes t
  Sound-step nodes p s t sound keep others own q r = elim (Bool-cases (q == p)) [
    | inr z ↦ AllReady-Keeps s t (nodes q).requires keep (sound q (others q (ground arith) r))
    | inl y ↦
        let e : q ≡ p = ground arith in
        subst (λ x. AllReady t (nodes x).requires) (sym e)
          (AllReady-Keeps s t (nodes p).requires keep
            (elim (own (ap t.states (sym e) ∙ r)) [ inl old ↦ sound p old | inr a ↦ a ]))
  ]

  -- The change of one state, of a node that does not run.
  pub set_state_at :
      (p q : ℕ) (st : NodeState) (s : Kscope E)
      → (set_state p st s).states q ≡ (if q == p then st else s.states q)
  unfolding set_state
  set_state_at p q st s = refl

  Keeps-set :
      (p : ℕ) (st : NodeState) (s : Kscope E)
      → ¬ (s.states p ≡ running)
      → Keeps s (set_state p st s)
  Keeps-set p st s idle q r = set_state_at p q st s ∙ elim (Bool-cases (q == p)) [
    | inl y ↦ let e : q ≡ p = ground arith in absurd (idle (ap s.states (sym e) ∙ r))
    | inr z ↦ rw z r
  ]

  -- `t` has the states of `s`, but `p` may have started, or nodes that did not run may have failed.
  record Advance (nodes : ℕ → Node) (p : ℕ) (s t : Kscope E) : Type 0 where
    keeps : Keeps s t
    others : (q : ℕ) → q ≢ p → t.states q ≡ running → s.states q ≡ running
    own : t.states p ≡ running → (s.states p ≡ running) ⊎ AllReady s (nodes p).requires

module _ {E : Type 0} (nodes : ℕ → Node) (p : ℕ) (s u : Kscope E) (idle : ¬ (s.states p ≡ running))
    (same : (q : ℕ) → q ≢ p → u.states q ≡ s.states q) where
  keeps_other : (q : ℕ) → s.states q ≡ running → (u.states q ≡ running) × (q ≢ p)
  keeps_other q r =
      let away : q ≢ p = λ e. idle (ap s.states (sym e) ∙ r) in (same q away ∙ r, away)

  Advance-run : AllReady s (nodes p).requires → Advance nodes p s (set_state p running u)
  Advance-run ready = record {
    keeps = λ q r.
        let z : (q == p) ≡ false = ground (arith, (keeps_other q r).1) in
        set_state_at p q running u ∙ rw z (keeps_other q r).0;
    others = λ q ne r.
        let z : (q == p) ≡ false = ground arith in
        let e : (set_state p running u).states q ≡ u.states q =
          set_state_at p q running u ∙ rw z refl in
        sym (same q ne) ∙ sym e ∙ r;
    own = λ r. inr ready;
  }

  Advance-fail : ¬ (u.states p ≡ running) → Advance nodes p s (mark_failed nodes p u)
  Advance-fail still = record {
    keeps = λ q r. elim (f.states q) [
      | inl e ↦ e ∙ (keeps_other q r).0
      | inr (e, inl at) ↦ absurd ((keeps_other q r).1 at)
      | inr (e, inr reg) ↦ absurd (not_running (u.states q) reg (keeps_other q r).0)
    ];
    others = λ q ne r. elim (f.states q) [
      | inl e ↦ sym (same q ne) ∙ sym e ∙ r
      | inr (e, c) ↦ absurd (failed_not_running _ e r)
    ];
    own = λ r. absurd (failed_not_running _ gone r);
  }
    where
      f : Failing p u (mark_failed nodes p u)
      f = (mark_failed_lem nodes p u).0

      gone : (mark_failed nodes p u).states p ≡ failed
      gone = (mark_failed_lem nodes p u).1

module _ {E : Type 0} (nodes : ℕ → Node) (init : ℕ → E → Bool × E) where
  started-Advance :
      (p : ℕ) (s : Kscope E)
      → s.states p ≡ registered
      → AllReady s (nodes p).requires
      → Advance nodes p s (started nodes init p s)
  unfolding started
  started-Advance p s reg ready =
      let t = set_state p probing s in
      let r = init p t.env in
      let u : Kscope E = record t { env = r.1 } in
      let idle = not_running (s.states p) reg in
      let same = λ (q : ℕ) (ne : q ≢ p).
        let z : (q == p) ≡ false = ground arith in
        let e : u.states q ≡ s.states q = set_state_at p q probing s ∙ rw z refl in e in
      elim (Bool-cases r.0) [
        | inl done ↦ rw done (Advance-run nodes p s u idle same ready)
        | inr bad ↦ rw bad (
            Advance-fail nodes p s u idle same (λ run.
              let y : (p == p) ≡ true = ground arith in
              let e : u.states p ≡ probing = set_state_at p p probing s ∙ rw y refl in
              let h : is_ok probing ≡ true = ap is_ok (sym e ∙ run) in cc))
      ]

  probe_node-Advance : (p : ℕ) (s : Kscope E) → Advance nodes p s (probe_node nodes init p s)
  unfolding probe_node
  probe_node-Advance p s = elim (Bool-cases (is_registered (s.states p))) [
    | inr other ↦ rw other (record { keeps = λ q r. r; others = λ q ne r. r; own = λ r. inl r })
    | inl y ↦
        let reg = state_cases (s.states p) y in
        let idle = not_running (s.states p) reg in
        rw y (elim (Bool-cases (deps_ok (nodes p).requires s)) [
          | inr missing ↦ rw missing (Advance-fail nodes p s s idle (λ q ne. refl) idle)
          | inl met ↦
              let ready = deps_ok-AllReady (nodes p).requires s met in
              rw met (elim (Bool-cases (nodes p).has_init) [
                | inr none_given ↦ rw none_given (Advance-run nodes p s s idle (λ q ne. refl) ready)
                | inl given ↦ rw given (started-Advance p s reg ready)
              ])
        ])
  ]

  pub probe_list-Sound :
      (ps : List ℕ) (s : Kscope E) → Sound nodes s → Sound nodes (probe_list nodes init ps s)
  unfolding probe_list
  probe_list-Sound [] s h = h
  probe_list-Sound (p ∷ ps) s h =
      let a = probe_node-Advance p s in
      probe_list-Sound ps (probe_node nodes init p s)
        (Sound-step nodes p s (probe_node nodes init p s) h a.keeps a.others a.own)

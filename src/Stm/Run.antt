-- ===== src/Stm/Run.antt =====
-- What lies behind an event that the engine of src/stm/stm.c has handled.
use pdc_20221c.Prelude.{
  ℕ, ◌≤◌, ◌≡◌, refl, sym, ap, ◌∙◌, Option, none, some, get_elem?, arith, Option-cases, inl, inr,
  >>=-eq-some,
}
use mathlib.Core.Option.{some-injective}
use pdc_20221c.Stm.{StateDefinition, StateMachine, call_if, handle_first, jump, handler}
use pdc_20221c.Stm.Laws.{SameTable, handle_first-current, jump-current}

module _ {K : Type 0} where
  -- The index of the state that an event finds.
  abbrev pub start_of : StateMachine K → ℕ
  start_of stm = elim stm.current [ none ↦ stm.initial | some c ↦ c ]

  pub start_of-current : (stm : StateMachine K) (c : ℕ) → stm.current ≡ some c → start_of stm ≡ c
  start_of-current stm c e = rw e refl

  pub start_of-initial : (stm : StateMachine K) → stm.current ≡ none → start_of stm ≡ stm.initial
  start_of-initial stm e = ap (λ o. elim o [ none ↦ stm.initial | some c ↦ c ]) e

  pub handle_first-start :
      (stm stm' : StateMachine K) (k k' : K)
      → handle_first stm k ≡ some (stm', k')
      → stm'.current ≡ some (start_of stm)
  unfolding handle_first
  handle_first-start stm stm' k k' h = elim (Option-cases stm.current) [
    | inr (c, e) ↦ let same : stm' ≡ stm = ground arith in rw same (rw e refl)
    | inl e ↦
        let (d, ed, h1) =
          >>=-eq-some (get_elem? stm.states stm.initial) _ (rw (e, handle_first) at h) in
        let (k1, ek, h2) = >>=-eq-some (call_if d.on_arrival d.state k) _ h1 in
        let same : stm' ≡ record stm { current = some stm.initial } = ground arith in
        rw same (rw e refl)
  ]

  -- The callback that was called, and where the machine is then.
  pub record Handled (select : StateDefinition K → Option (K → Option (ℕ × K)))
      (stm stm' : StateMachine K) (ret : ℕ) : Type 0 where
    pub definition : StateDefinition K
    pub found : get_elem? stm.states (start_of stm) ≡ some definition
    pub ready : K → Option (ℕ × K)
    pub selected : select definition ≡ some ready
    pub before : K
    pub after : K
    pub ran : ready before ≡ some (ret, after)
    pub same : SameTable stm stm'
    pub at : stm'.current ≡ some ret
    pub le : ret ≤ stm.max_state

  pub handler-Handled :
      (select : StateDefinition K → Option (K → Option (ℕ × K))) (stm stm' : StateMachine K)
      (k k' : K) (ret : ℕ)
      → handler select stm k ≡ some (ret, stm', k')
      → Handled select stm stm' ret
  unfolding handler
  handler-Handled select stm stm' k k' ret h =
      let ((stm1, k1), e1, h1) = >>=-eq-some (handle_first stm k) _ h in
      let (c, e2, h2) = >>=-eq-some stm1.current _ h1 in
      let (d, e3, h3) = >>=-eq-some (get_elem? stm1.states c) _ h2 in
      let (ready, e4, h4) = >>=-eq-some (select d) _ h3 in
      let ((next, k2), e5, h5) = >>=-eq-some (ready k1) _ h4 in
      let ((stm2, k3), e6, h6) = >>=-eq-some (jump stm1 next k2) _ h5 in
      let (same1, _) = handle_first-current stm stm1 k k1 e1 in
      let (same2, at, le) = jump-current stm1 stm2 next k2 k3 e6 in
      let start : c ≡ start_of stm =
        some-injective c (start_of stm) (sym e2 ∙ handle_first-start stm stm1 k k1 e1) in
      let en : next ≡ ret = ground arith in
      let es : stm2 ≡ stm' = ground arith in
      record {
        definition = d;
        found =
            ap (λ i. get_elem? stm.states i) (sym start)
            ∙ ap (λ l. get_elem? l c) (sym same1.states_eq)
            ∙ e3;
        ready = ready;
        selected = e4;
        before = k1;
        after = k2;
        ran = e5 ∙ ap (λ n. some (n, k2)) en;
        same = record {
          states_eq = ap (λ m. m.states) (sym es) ∙ same2.states_eq ∙ same1.states_eq;
          max_state_eq = ap (λ m. m.max_state) (sym es) ∙ same2.max_state_eq ∙ same1.max_state_eq;
          initial_eq = ap (λ m. m.initial) (sym es) ∙ same2.initial_eq ∙ same1.initial_eq;
        };
        at = ap (λ m. m.current) (sym es) ∙ at ∙ ap some en;
        le = omega (arith, same1.max_state_eq, en, le);
      }

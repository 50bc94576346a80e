-- ===== src/Stm/Laws.antt =====
-- What the engine of src/stm/stm.c promises to the state tables.
use pdc_20221c.Prelude.{
  lt→ltb, ℕ, zero, suc, ◌+◌, ◌≤◌, ◌<◌, ◌≡◌, refl, Option, none, some, true, List, ltb, ◌==◌,
  get_elem?, arith, Option-cases, Bool-cases, inl, inr, >>=-eq-some, ap,
}
use pdc_20221c.Stm.{
  StateDefinition, StateMachine, call_if, check_states, stm_init, stm_state, handle_first, jump,
  handler, leave, stays,
}

stays-some : (o : Option ℕ) (n : ℕ) → stays o n ≡ true → o ≡ some n
stays-some o n h = ground arith

module _ {K : Type 0} where
  -- The table has a state for each number up to `max_state`, and each carries its own number.
  pub record IsTable (stm : StateMachine K) : Type 0 where
    pub entry :
        (i : ℕ)
        → i ≤ stm.max_state
        → (d : StateDefinition K) × (get_elem? stm.states i ≡ some d) × (d.state ≡ i)

  check_states_sound :
      (n i j : ℕ) (states : List (StateDefinition K))
      → check_states n i states ≡ true
      → i ≤ j
      → j < i + n
      → (d : StateDefinition K) × (get_elem? states j ≡ some d) × (d.state ≡ j)
  unfolding check_states
  check_states_sound zero i j states h lo hi = absurd (omega arith)
  check_states_sound (suc n) i j states h lo hi = elim (Bool-cases (i == j)) [
    | inl e ↦ here n i j states (get_elem? states i) refl h (ground arith)
    | inr e ↦ check_states_sound n (suc i) j states (ground arith) (ground arith) (omega arith)
  ]
    where
      here :
          (n i j : ℕ) (states : List (StateDefinition K)) (o : Option (StateDefinition K))
          → get_elem? states i ≡ o
          → check_states (suc n) i states ≡ true
          → i ≡ j
          → (d : StateDefinition K) × (get_elem? states j ≡ some d) × (d.state ≡ j)
      here n i j states none e h ij = absurd (ground arith)
      here n i j states (some d) e h ij = (d, rw (← ij) e, ground arith)

  -- What `stm_init` accepts is a table whose initial state is below the last, and it starts with no
  -- current state; everything else aborts.
  pub stm_init-IsTable :
      (stm stm' : StateMachine K)
      → stm_init stm ≡ some stm'
      → IsTable stm' × (stm'.initial < stm'.max_state) × (stm' ≡ record stm { current = none })
  unfolding stm_init
  stm_init-IsTable stm stm' h = elim (Bool-cases (check_states (suc stm.max_state) 0 stm.states)) [
    | inr e ↦ absurd (ground arith)
    | inl e ↦
        let same : stm' ≡ record stm { current = none } = ground arith in
        (
          rw same (record {
            entry = λ i le.
                check_states_sound (suc stm.max_state) 0 i stm.states e (omega arith) (omega arith);
          }),
          ground arith,
          same,
        )
  ]

  -- Two machines over one table.
  pub record SameTable (stm stm' : StateMachine K) : Type 0 where
    pub states_eq : stm'.states ≡ stm.states
    pub max_state_eq : stm'.max_state ≡ stm.max_state
    pub initial_eq : stm'.initial ≡ stm.initial

  pub handle_first-current :
      (stm stm' : StateMachine K) (k k' : K)
      → handle_first stm k ≡ some (stm', k')
      → SameTable stm stm' × ((c : ℕ) × (stm'.current ≡ some c))
  unfolding handle_first
  handle_first-current stm stm' k k' h = elim (Option-cases stm.current) [
    | inr (c, e) ↦
        let same : stm' ≡ stm = ground arith in
        (
          rw same (record { states_eq = refl; max_state_eq = refl; initial_eq = refl }),
          (c, rw same e),
        )
    | inl e ↦
        let (d, ed, h1) =
          >>=-eq-some (get_elem? stm.states stm.initial) _ (rw (e, handle_first) at h) in
        let (k1, ek, h2) = >>=-eq-some (call_if d.on_arrival d.state k) _ h1 in
        let same : stm' ≡ record stm { current = some stm.initial } = ground arith in
        (
          rw same (record { states_eq = refl; max_state_eq = refl; initial_eq = refl }),
          (stm.initial, rw same refl),
        )
  ]

  pub jump-current :
      (stm stm' : StateMachine K) (next : ℕ) (k k' : K)
      → jump stm next k ≡ some (stm', k')
      → SameTable stm stm' × (stm'.current ≡ some next) × (next ≤ stm.max_state)
  unfolding jump
  jump-current stm stm' next k k' h = elim (Bool-cases (ltb stm.max_state next)) [
    | inl e ↦ absurd (ground arith)
    | inr e ↦ elim (Bool-cases (stays stm.current next)) [
      | inl s ↦
          let same : stm' ≡ stm = ground arith in
          (
            rw same (record { states_eq = refl; max_state_eq = refl; initial_eq = refl }),
            rw same (stays-some stm.current next s),
            ground arith,
          )
      | inr s ↦
          let (k1, e1, h1) = >>=-eq-some (leave stm k) _ (rw (e, s, jump) at h) in
          let (d, e2, h2) = >>=-eq-some (get_elem? stm.states next) _ h1 in
          let (k2, e3, h3) = >>=-eq-some (call_if d.on_arrival d.state k1) _ h2 in
          let same : stm' ≡ record stm { current = some next } = ground arith in
          (
            rw same (record { states_eq = refl; max_state_eq = refl; initial_eq = refl }),
            rw same refl,
            ground arith,
          )
    ]
  ]

  lands :
      (stm stm1 stm2 stm' : StateMachine K) (next ret : ℕ)
      → IsTable stm
      → SameTable stm stm1
      → SameTable stm1 stm2
      → stm2.current ≡ some next
      → next ≤ stm1.max_state
      → next ≡ ret
      → stm2 ≡ stm'
      → (stm_state stm' ≡ some ret) × (ret ≤ stm.max_state)
  unfolding stm_state
  lands stm stm1 stm2 stm' next ret t same1 same2 at le en es =
      let le' : next ≤ stm.max_state = omega (arith, same1.max_state_eq) in
      let (dn, look, sn) = t.entry next le' in
      let look2 : get_elem? stm2.states next ≡ some dn =
        rw (same2.states_eq, same1.states_eq) look in
      rw (← en, ← es) (rw (at, stm_state, look2) (ap some sn), le')

  -- An event that a machine over a well-formed table has handled leaves the machine in the state that
  -- the callback returned, which is one of the table's.
  handler-state :
      (select : StateDefinition K → Option (K → Option (ℕ × K))) (stm stm' : StateMachine K)
      (k k' : K) (ret : ℕ)
      → IsTable stm
      → handler select stm k ≡ some (ret, stm', k')
      → (stm_state stm' ≡ some ret) × (ret ≤ stm.max_state)
  unfolding handler stm_state
  handler-state select stm stm' k k' ret t h =
      let ((stm1, k1), e1, h1) = >>=-eq-some (handle_first stm k) _ h in
      let (c, e2, h2) = >>=-eq-some stm1.current _ h1 in
      let (d, e3, h3) = >>=-eq-some (get_elem? stm1.states c) _ h2 in
      let (ready, e4, h4) = >>=-eq-some (select d) _ h3 in
      let ((next, k2), e5, h5) = >>=-eq-some (ready k1) _ h4 in
      let ((stm2, k3), e6, h6) = >>=-eq-some (jump stm1 next k2) _ h5 in
      let (same1, live) = handle_first-current stm stm1 k k1 e1 in
      let (same2, at, le) = jump-current stm1 stm2 next k2 k3 e6 in
      lands stm stm1 stm2 stm' next ret t same1 same2 at le (ground arith) (ground arith)

  -- A callback that returns a number above `max_state`, in a machine that is in a state, makes the
  -- engine abort.
  handler-abort :
      (select : StateDefinition K → Option (K → Option (ℕ × K))) (stm : StateMachine K) (k k' : K)
      (c ret : ℕ) (d : StateDefinition K) (ready : K → Option (ℕ × K))
      → stm.current ≡ some c
      → get_elem? stm.states c ≡ some d
      → select d ≡ some ready
      → ready k ≡ some (ret, k')
      → stm.max_state < ret
      → handler select stm k ≡ none
  unfolding handler handle_first jump
  handler-abort select stm k k' c ret d ready at found is run beyond =
      rw (at, found, is, run, lt→ltb stm.max_state ret beyond) refl

-- ===== src/Stm/Keeps.antt =====
-- What stays true of a program that the engine of src/stm/stm.c runs, whatever events come.
use pdc_20221c.Prelude.{
  ℕ, ◌≡◌, sym, ◌∙◌, Option, some, ltb, List, get_elem?, arith, Option-cases, Bool-cases, inl, inr,
  >>=-eq-some,
}
use mathlib.Core.Option.{some-injective}
use pdc_20221c.Stm.{
  StateDefinition, StateMachine, call_if, stays, handle_first, leave, jump, handler,
}
use pdc_20221c.Stm.Run.{start_of, start_of-initial, handle_first-start}
use pdc_20221c.Stm.Laws.{handle_first-current}

-- `I` holds of a state and what the callbacks change: every callback of the table keeps it.
pub record Keeps {K : Type 0} (table : List (StateDefinition K)) (I : ℕ → K → Type 0) : Type 0 where
  pub arrives :
      (n : ℕ) (d : StateDefinition K) (k k' : K)
      → get_elem? table n ≡ some d
      → call_if d.on_arrival d.state k ≡ some k'
      → I n k
      → I n k'
  pub departs :
      (c n : ℕ) (d : StateDefinition K) (k k' : K)
      → get_elem? table c ≡ some d
      → call_if d.on_departure d.state k ≡ some k'
      → I n k
      → I n k'

module _ {K : Type 0} (I : ℕ → K → Type 0) where
  moved : (n n' : ℕ) (k k' : K) → n ≡ n' → k ≡ k' → I n k → I n' k'
  moved n n' k k' en ek i = rw (← en, ← ek) i

  handle_first-keeps :
      (stm stm' : StateMachine K) (k k' : K)
      → Keeps stm.states I
      → handle_first stm k ≡ some (stm', k')
      → I (start_of stm) k
      → I (start_of stm) k'
  unfolding handle_first
  handle_first-keeps stm stm' k k' keeps h i = elim (Option-cases stm.current) [
    | inr (c, e) ↦ let same : k ≡ k' = ground arith in rw (← same) i
    | inl e ↦
        let (d, ed, h1) =
          >>=-eq-some (get_elem? stm.states stm.initial) _ (rw (e, handle_first) at h) in
        let (k1, ek, h2) = >>=-eq-some (call_if d.on_arrival d.state k) _ h1 in
        let same : k1 ≡ k' = ground arith in
        let start = start_of-initial stm e in
        rw (← same) (rw start (keeps.arrives stm.initial d k k1 ed ek (rw start at i)))
  ]

  leave-keeps :
      (stm : StateMachine K) (n : ℕ) (k k' : K)
      → Keeps stm.states I
      → leave stm k ≡ some k'
      → I n k
      → I n k'
  unfolding leave
  leave-keeps stm n k k' keeps h i = elim (Option-cases stm.current) [
    | inl e ↦ let same : k ≡ k' = ground arith in rw (← same) i
    | inr (c, e) ↦
        let (d, ed, h1) = >>=-eq-some (get_elem? stm.states c) _ (rw (e, leave) at h) in
        keeps.departs c n d k k' ed h1 i
  ]

  jump-keeps :
      (stm stm' : StateMachine K) (n : ℕ) (k k' : K)
      → Keeps stm.states I
      → jump stm n k ≡ some (stm', k')
      → I n k
      → I n k'
  unfolding jump
  jump-keeps stm stm' n k k' keeps h i = elim (Bool-cases (ltb stm.max_state n)) [
    | inl e ↦ absurd (ground arith)
    | inr e ↦ elim (Bool-cases (stays stm.current n)) [
      | inl s ↦ let same : k ≡ k' = ground arith in rw (← same) i
      | inr s ↦
          let (k1, e1, h1) = >>=-eq-some (leave stm k) _ (rw (e, s, jump) at h) in
          let (d, e2, h2) = >>=-eq-some (get_elem? stm.states n) _ h1 in
          let (k2, e3, h3) = >>=-eq-some (call_if d.on_arrival d.state k1) _ h2 in
          let same : k2 ≡ k' = ground arith in
          rw (← same) (keeps.arrives n d k1 k2 e2 e3 (leave-keeps stm n k k1 keeps e1 i))
    ]
  ]

  -- If the callbacks that an event can call keep `I` and take it from their state to the one that they
  -- return, then a handled event takes it from the state of the machine before to that after.
  pub handler-keeps :
      (select : StateDefinition K → Option (K → Option (ℕ × K))) (stm stm' : StateMachine K)
      (k k' : K) (ret : ℕ)
      → Keeps stm.states I
      → ((c n : ℕ) (d : StateDefinition K) (ready : K → Option (ℕ × K)) (a b : K)
          → get_elem? stm.states c ≡ some d
          → select d ≡ some ready
          → ready a ≡ some (n, b)
          → I c a
          → I n b)
      → handler select stm k ≡ some (ret, stm', k')
      → I (start_of stm) k
      → I ret k'
  unfolding handler
  handler-keeps select stm stm' k k' ret keeps event h i =
      let ((stm1, k1), e1, h1) = >>=-eq-some (handle_first stm k) _ h in
      let (c, e2, h2) = >>=-eq-some stm1.current _ h1 in
      let (d, e3, h3) = >>=-eq-some (get_elem? stm1.states c) _ h2 in
      let (ready, e4, h4) = >>=-eq-some (select d) _ h3 in
      let ((next, k2), e5, h5) = >>=-eq-some (ready k1) _ h4 in
      let ((stm2, k3), e6, h6) = >>=-eq-some (jump stm1 next k2) _ h5 in
      let (same1, _) = handle_first-current stm stm1 k k1 e1 in
      let start : c ≡ start_of stm =
        some-injective c (start_of stm) (sym e2 ∙ handle_first-start stm stm1 k k1 e1) in
      let en : next ≡ ret = ground arith in
      let ek : k3 ≡ k' = ground arith in
      let here : I c k1 = rw start (handle_first-keeps stm stm1 k k1 keeps e1 i) in
      let there : I next k2 = event c next d ready k1 k2 (rw same1.states_eq at e3) e4 e5 here in
      let left : I next k3 =
        jump-keeps stm1 stm2 next k2 k3 (rw (← same1.states_eq) at keeps) e6 there in
      moved next ret k3 k' en ek left

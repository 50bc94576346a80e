-- ===== src/Stm.antt =====
-- src/stm/stm.c and include/stm.h: the engine that runs a table of states.
-- `K` is what the callbacks see and change through the `selector_key`: the machine is not part of
-- it, since no callback touches the machine. `none` is a call of `abort`, or a fault inside a
-- callback. `current` is an index into the table, and no index for the null pointer.
pub mod Laws
pub mod Run
pub mod Keeps
use pdc_20221c.Prelude.{
  ℕ, zero, suc, ◌+◌, Option, none, some, Bool, true, false, ◌&&◌, List, ltb, ◌==◌, if◌then◌else◌,
  ◌>>=◌, get_elem?,
}

-- `state_definition`
pub record StateDefinition (K : Type 0) : Type 0 where
  pub state : ℕ
  pub on_arrival : Option (ℕ → K → Option K)
  pub on_departure : Option (ℕ → K → Option K)
  pub on_read_ready : Option (K → Option (ℕ × K))
  pub on_write_ready : Option (K → Option (ℕ × K))
  pub on_block_ready : Option (K → Option (ℕ × K))

-- `state_machine`
pub record StateMachine (K : Type 0) : Type 0 where
  pub initial : ℕ
  pub states : List (StateDefinition K)
  pub max_state : ℕ
  pub current : Option ℕ

-- `stm->current == stm->states + next`
abbrev pub stays : Option ℕ → ℕ → Bool
stays none next = false
stays (some c) next = c == next

module _ {K : Type 0} where
  -- A callback that is called only if it is there.
  abbrev pub call_if : Option (ℕ → K → Option K) → ℕ → K → Option K
  call_if none state k = some k
  call_if (some f) state k = f state k

  -- The loop of `stm_init` from index `i` on, with `n` rounds left.
  unfoldable pub check_states : ℕ → ℕ → List (StateDefinition K) → Bool
  check_states zero i states = true
  check_states (suc n) i states =
      let here : Bool = elim (get_elem? states i) [ none ↦ false | some d ↦ i == d.state ] in
      here && check_states n (suc i) states

  unfoldable pub stm_init : StateMachine K → Option (StateMachine K)
  unfolding check_states
  stm_init stm =
      if check_states (suc stm.max_state) 0 stm.states
      then (if ltb stm.initial stm.max_state then some (record stm { current = none }) else none)
      else none

  pub handle_first : StateMachine K → K → Option (StateMachine K × K)
  handle_first stm k = elim stm.current [
    | some _ ↦ some (stm, k)
    | none ↦ do
      d ← get_elem? stm.states stm.initial
      k' ← call_if d.on_arrival d.state k
      some (record stm { current = some stm.initial }, k')
  ]

  pub leave : StateMachine K → K → Option K
  leave stm k = elim stm.current [
    | none ↦ some k
    | some c ↦ do d ← get_elem? stm.states c; call_if d.on_departure d.state k
  ]

  pub jump : StateMachine K → ℕ → K → Option (StateMachine K × K)
  unfolding leave
  jump stm next k =
      if ltb stm.max_state next then none else if stays stm.current next then some (stm, k) else (do
        k1 ← leave stm k
        d ← get_elem? stm.states next
        k2 ← call_if d.on_arrival d.state k1
        some (record stm { current = some next }, k2))

  -- The three `stm_handler_*` of an event differ in the callback that they select.
  unfoldable pub handler :
      (StateDefinition K → Option (K → Option (ℕ × K)))
      → StateMachine K
      → K
      → Option (ℕ × StateMachine K × K)
  unfolding handle_first jump
  handler select stm k = do
    (stm1, k1) ← handle_first stm k
    c ← stm1.current
    d ← get_elem? stm1.states c
    ready ← select d
    (ret, k2) ← ready k1
    (stm2, k3) ← jump stm1 ret k2
    some (ret, stm2, k3)

  unfoldable pub stm_handler_read : StateMachine K → K → Option (ℕ × StateMachine K × K)
  unfolding handler
  stm_handler_read = handler (λ d. d.on_read_ready)

  unfoldable pub stm_handler_write : StateMachine K → K → Option (ℕ × StateMachine K × K)
  unfolding handler
  stm_handler_write = handler (λ d. d.on_write_ready)

  unfoldable pub stm_handler_block : StateMachine K → K → Option (ℕ × StateMachine K × K)
  unfolding handler
  stm_handler_block = handler (λ d. d.on_block_ready)

  unfoldable pub stm_handler_close : StateMachine K → K → Option K
  unfolding leave
  stm_handler_close = leave

  unfoldable pub stm_state : StateMachine K → Option ℕ
  stm_state stm = elim stm.current [
    | none ↦ some stm.initial
    | some c ↦ do d ← get_elem? stm.states c; some d.state
  ]

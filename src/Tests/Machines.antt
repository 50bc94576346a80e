-- ===== src/Tests/Machines.antt =====
-- The engine of src/stm/stm.c on a table of two states.
use pdc_20221c.Prelude.{ℕ, ◌+◌, ◌≡◌, refl, Option, none, some, [], ◌∷◌}
use pdc_20221c.Stm.{StateDefinition, StateMachine, handler}

-- The first state counts what it reads and then goes to the second.
abbrev pub counting : StateDefinition ℕ
counting = record {
  state = 0;
  on_arrival = none;
  on_departure = none;
  on_read_ready = some (λ k. some (1, k + 1));
  on_write_ready = none;
  on_block_ready = none;
}

abbrev pub finished : StateDefinition ℕ
finished = record {
  state = 1;
  on_arrival = none;
  on_departure = none;
  on_read_ready = none;
  on_write_ready = none;
  on_block_ready = none;
}

abbrev pub machine : Option ℕ → StateMachine ℕ
machine current = record {
  initial = 0;
  states = counting ∷ finished ∷ [];
  max_state = 1;
  current = current;
}

-- A first state that goes to the state 8.
abbrev pub astray : StateDefinition ℕ
astray = record counting { on_read_ready = some (λ k. some (8, k)) }

counting_runs : handler (λ d. d.on_read_ready) (machine none) 4 ≡ some (1, machine (some 1), 5)
unfolding handler
counting_runs = refl

astray_aborts :
    handler (λ d. d.on_read_ready) (record (machine (some 0)) { states = astray ∷ finished ∷ [] }) 4
    ≡ none
unfolding handler
astray_aborts = refl

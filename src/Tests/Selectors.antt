-- ===== src/Tests/Selectors.antt =====
-- The table of src/selector.c with room for two descriptors.
use pdc_20221c.Prelude.{
  ℕ, zero, suc, ◌+◌, ◌≤◌, ◌<◌, ◌≡◌, refl, Option, none, some, [], ◌∷◌, pos, arith, Bool, true,
  false, get_elem?,
}
use pdc_20221c.Selector.{
  FdSelector, Item, selector_success, blank_item, item_used, next_capacity, selector_register,
  selector_unregister_fd, op_read, wants_read, wants_write,
}
use pdc_20221c.Selector.Invariant.{IsValid, watched, replaced, replaced-IsValid}
use pdc_20221c.Selector.Capacity.{next_capacity_lem}
use pdc_20221c.Selector.Operations.{
  Leaves, RegisterPost, selector_register_lem, selector_register-past_end,
}
use pdc_20221c.Selector.Unregister.{closing, Unregistered, selector_unregister_fd_lem}

-- `selector_new(0)`
abbrev pub empty_table : FdSelector ℕ ℕ
empty_table = record {
  fds = blank_item ∷ blank_item ∷ [];
  fd_size = 2;
  max_fd = 0;
  master_r = λ _. false;
  master_w = λ _. false;
  resolution_jobs = [];
}

blank_unused :
    (item : Item ℕ ℕ) → some (blank_item {H = ℕ} {D = ℕ}) ≡ some item → item_used item ≡ true → ⊥
blank_unused item e used = ground arith

empty_unused :
    (i : ℕ) (item : Item ℕ ℕ) → get_elem? empty_table.fds i ≡ some item → item_used item ≡ true → ⊥
empty_unused zero item e used = blank_unused item e used
empty_unused (suc zero) item e used = blank_unused item e used
empty_unused (suc (suc i)) item e used = ground arith

empty_IsValid : IsValid empty_table
empty_IsValid = record {
  size = refl;
  max_lt = omega arith;
  filed = λ i item e used. absurd (empty_unused i item e used);
  reads = λ i. unwatched wants_read i;
  writes = λ i. unwatched wants_write i;
}
  where
    unwatched : (wants : ℕ → Bool) (i : ℕ) → false ≡ watched wants empty_table.fds i
    unwatched wants zero = refl
    unwatched wants (suc zero) = refl
    unwatched wants (suc (suc i)) = refl

-- Descriptor 1 is read.
abbrev pub one_item : Item ℕ ℕ
one_item = record { fd = pos 1; interest = op_read; handler = some 7; attached = none }

abbrev pub one_table : FdSelector ℕ ℕ
one_table = replaced empty_table 1 one_item 1

pub one_IsValid : IsValid one_table
one_IsValid =
    replaced-IsValid empty_table 1 one_item 1 empty_IsValid (omega arith) (omega arith)
      (λ _. (refl, omega arith, (7, refl))) (λ i item _ e used. absurd (empty_unused i item e used))

next_capacity_example : (m : ℕ) × ((next_capacity 100 ≡ some m) × (100 < m) × (m ≤ 1025))
next_capacity_example = next_capacity_lem 100 (omega arith)

selector_register_example :
    Leaves
      (selector_register empty_table (pos 7) (some 9) op_read none true)
      (RegisterPost empty_table 7 9 op_read none true)
selector_register_example =
    selector_register_lem empty_table 7 9 op_read none true empty_IsValid (omega arith)
      (λ e. ground arith)

past_end_example : selector_register empty_table (pos 2) (some 9) op_read none true ≡ none
past_end_example =
    selector_register-past_end empty_table 9 op_read none true empty_IsValid (omega arith)

-- The callback counts its calls.
abbrev pub counted : ℕ → Option (ℕ → Option ℕ → ℕ → Option ℕ)
counted h = some (λ fd d calls. some (calls + 1))

selector_unregister_fd_example :
    (s' : FdSelector ℕ ℕ) × (selector_unregister_fd counted one_table (pos 1) 0
      ≡ some (selector_success, s', 1))
    × IsValid s'
    × Unregistered one_table s' 1 true
unfolding closing
selector_unregister_fd_example =
    selector_unregister_fd_lem counted one_table 1 0 1 one_item one_IsValid (omega arith) refl refl

-- ===== src/Selector/Life/Fresh.antt =====
-- A new selector of src/selector.c.
use pdc_20221c.Prelude.{
  ℕ, ◌-◌, ◌≤◌, ◌<◌, ◌≡◌, refl, sym, none, some, [], true, false, length-replicate, arith,
}
use pdc_20221c.Selector.{FdSelector, blank_item, wants_read, wants_write, grow}
use pdc_20221c.Selector.Capacity.{ensure_capacity-grow, ensure_capacity-same}
use pdc_20221c.Selector.Growth.{blank_unused, watched_before, clash}
use pdc_20221c.Selector.Invariant.{IsValid}
use pdc_20221c.Selector.Life.{blank_selector, selector_new}

module _ {H D : Type 0} where
  pub blank-IsValid : (m : ℕ) → 0 < m → IsValid (grow (blank_selector {H = H} {D = D}) m)
  blank-IsValid m h = record {
    size = omega (arith, length-replicate (m - 0) (blank_item {H = H} {D = D}));
    max_lt = h;
    filed = λ i item e used. absurd (clash _ used (blank_unused (m - 0) i item e));
    reads = λ i. sym (watched_before wants_read [] (m - 0) i);
    writes = λ i. sym (watched_before wants_write [] (m - 0) i);
  }

  -- A selector for up to 1024 descriptors, with memory: the assertions hold and the new table is well
  -- formed, with room past the number asked for and nothing watched. For more, and without the memory
  -- for the table, the result is the null pointer.
  pub selector_new_lem :
      (n : ℕ)
      → (n ≤ 1024
          → (s : FdSelector H D) × (selector_new n true true ≡ some (some s))
            × IsValid s
            × (n < s.fd_size)
            × ((fd : ℕ) → (s.master_r fd ≡ false) × (s.master_w fd ≡ false))
            × (selector_new {H = H} {D = D} n true false ≡ some none))
        × (1024 < n → selector_new {H = H} {D = D} n true true ≡ some none)
  unfolding selector_new
  selector_new_lem n = (
    λ h.
        let (m, (above, _, run)) =
          ensure_capacity-grow (blank_selector {H = H} {D = D}) n true (omega arith) h in
        let (_, (_, _, run')) =
          ensure_capacity-grow (blank_selector {H = H} {D = D}) n false (omega arith) h in
        (
          grow blank_selector m,
          rw run refl,
          blank-IsValid m (omega arith),
          above,
          λ fd. (refl, refl),
          rw run' refl,
        ),
    λ far.
        let (_, full) = ensure_capacity-same (blank_selector {H = H} {D = D}) n true in
        rw (full (omega arith) far) refl,
  )

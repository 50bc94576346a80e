-- ===== src/Selector/Capacity.antt =====
-- The growth of the table of src/selector.c: `next_capacity` and `ensure_capacity`.
use pdc_20221c.Prelude.{
  ℕ, zero, suc, ◌+◌, ◌/◌, ◌^◌, ◌<◌, ◌≤◌, some, Bool, true, false, ltb, if◌then◌else◌, ◌≡◌, ap, ◌∙◌,
  arith,
}
use pdc_20221c.Selector.{
  selector_success, selector_maxfd, selector_enomem, FdSelector, count_bits, next_capacity,
  ensure_capacity, grow,
}

one_le_pow : (j : ℕ) → 1 ≤ 2 ^ j
one_le_pow zero = omega arith
one_le_pow (suc j) = omega (arith, one_le_pow j)

count_bits-suc :
    (fuel tmp bits : ℕ)
    → count_bits (suc fuel) (suc tmp) bits ≡ count_bits fuel (suc tmp / 2) (bits + 1)
unfolding count_bits
count_bits-suc fuel tmp bits = ground arith

-- The loop ends, with the first power of 2 above `tmp`.
count_bits_lem :
    (fuel tmp bits j : ℕ)
    → tmp < fuel
    → tmp < 2 ^ j
    → (k : ℕ) × ((count_bits fuel tmp bits ≡ some (bits + k)) × (tmp < 2 ^ k) × (2 ^ k ≤ 2 ^ j))
unfolding count_bits
count_bits_lem zero tmp bits j f p = absurd (omega arith)
count_bits_lem (suc fuel) zero bits j f p = (0, (ap some (omega arith), omega arith, one_le_pow j))
count_bits_lem (suc fuel) (suc tmp) bits zero f p = absurd (omega arith)
count_bits_lem (suc fuel) (suc tmp) bits (suc j) f p =
    let (k, (eq, above, below)) =
      count_bits_lem fuel (suc tmp / 2) (bits + 1) j (omega arith) (omega arith) in
    (suc k, (count_bits-suc fuel tmp bits ∙ eq ∙ ap some (omega arith), omega arith, omega arith))

power_lem :
    (n k : ℕ)
    → n < 2 ^ k
    → 2 ^ k ≤ 2048
    → count_bits (suc n) n 0 ≡ some (0 + k)
    → next_capacity n ≡ some ((if ltb 1024 (2 ^ k) then 1024 else 2 ^ k) + 1)
unfolding next_capacity
power_lem n k above below eq = rw eq (ground arith)

capped_lem :
    (n p : ℕ)
    → n ≤ 1024
    → n < p
    → (n < (if ltb 1024 p then 1024 else p) + 1) × ((if ltb 1024 p then 1024 else p) + 1 ≤ 1025)
capped_lem n p h above = ground arith

-- Up to the limit of the platform the loop ends, the assertion holds, and there is room above `n`.
pub next_capacity_lem :
    (n : ℕ) → n ≤ 1024 → (m : ℕ) × ((next_capacity n ≡ some m) × (n < m) × (m ≤ 1025))
unfolding next_capacity
next_capacity_lem n h =
    let (k, (eq, above, below)) = count_bits_lem (suc n) n 0 11 (omega arith) (omega arith) in
    let (room, limit) = capped_lem n (2 ^ k) h above in
    ((if ltb 1024 (2 ^ k) then 1024 else 2 ^ k) + 1, (power_lem n k above below eq, room, limit))

module _ {H D : Type 0} where
  -- For a descriptor up to 1024 that the table has no room for, the loop of `next_capacity` ends, its
  -- assertion holds, and the table grows past the descriptor, to at most 1025 items, or the memory is
  -- missing and nothing changes.
  pub ensure_capacity-grow :
      (s : FdSelector H D) (n : ℕ) (got_memory : Bool)
      → s.fd_size ≤ n
      → n ≤ 1024
      → (m : ℕ) × ((n < m)
          × (m ≤ 1025)
          × (ensure_capacity s n got_memory
              ≡ some (if got_memory then (selector_success, grow s m) else (selector_enomem, s))))
  unfolding ensure_capacity
  ensure_capacity-grow s n got_memory full h =
      let (m, (eq, above, below)) = next_capacity_lem n h in
      (m, (above, below, step s n m got_memory full h below eq))
    where
      step :
          (s : FdSelector H D) (n m : ℕ) (got_memory : Bool)
          → s.fd_size ≤ n
          → n ≤ 1024
          → m ≤ 1025
          → next_capacity n ≡ some m
          → ensure_capacity s n got_memory
            ≡ some (if got_memory then (selector_success, grow s m) else (selector_enomem, s))
      step s n m true full h below eq = rw eq (ground arith)
      step s n m false full h below eq = rw eq (ground arith)

  -- With room, or beyond the limit, nothing changes.
  pub ensure_capacity-same :
      (s : FdSelector H D) (n : ℕ) (got_memory : Bool)
      → (n < s.fd_size → ensure_capacity s n got_memory ≡ some (selector_success, s))
        × (s.fd_size ≤ n → 1024 < n → ensure_capacity s n got_memory ≡ some (selector_maxfd, s))
  unfolding ensure_capacity
  ensure_capacity-same s n got_memory = (λ h. ground arith, λ h far. ground arith)

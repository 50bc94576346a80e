-- ===== src/Prelude/Blocks.antt =====
-- What a block written into an array leaves of the slices of it, and what a copy of a part has.
use Prim.Native.Nat.{ℕ, zero, suc, ◌+◌, ◌≤◌}
use mathlib.Core.Path.{◌≡◌, refl, ap}
use mathlib.Core.List.{List, [], ◌∷◌}
use native.Mathlib.Omega.{arith}
use pdc_20221c.Prelude.Lists.{length, take, write_at, slice}

module _ {ℓ} {A : Type ℓ} where
  -- In front of the block.
  pub slice-write_at_before :
      (i n m : ℕ) (xs ys : List A) → i + n ≤ m → slice i n (write_at xs m ys) ≡ slice i n xs
  unfolding write_at
  slice-write_at_before i n m xs [] h = refl
  slice-write_at_before i n m [] (y ∷ ys) h = refl
  slice-write_at_before zero zero zero (x ∷ xs) (y ∷ ys) h = refl
  slice-write_at_before zero (suc n) zero (x ∷ xs) (y ∷ ys) h = absurd (omega arith)
  slice-write_at_before (suc i) n zero (x ∷ xs) (y ∷ ys) h = absurd (omega arith)
  slice-write_at_before zero zero (suc m) (x ∷ xs) (y ∷ ys) h = refl
  slice-write_at_before zero (suc n) (suc m) (x ∷ xs) (y ∷ ys) h =
      ap (λ t. x ∷ t) (slice-write_at_before zero n m xs (y ∷ ys) (omega arith))
  slice-write_at_before (suc i) n (suc m) (x ∷ xs) (y ∷ ys) h =
      slice-write_at_before i n m xs (y ∷ ys) (omega arith)

  -- Behind the block.
  pub slice-write_at_behind :
      (i n m : ℕ) (xs ys : List A) → m + length ys ≤ i → slice i n (write_at xs m ys) ≡ slice i n xs
  unfolding write_at
  slice-write_at_behind i n m xs [] h = refl
  slice-write_at_behind i n m [] (y ∷ ys) h = refl
  slice-write_at_behind zero n m (x ∷ xs) (y ∷ ys) h = absurd (omega arith)
  slice-write_at_behind (suc i) n zero (x ∷ xs) (y ∷ ys) h =
      slice-write_at_behind i n zero xs ys (omega arith)
  slice-write_at_behind (suc i) n (suc m) (x ∷ xs) (y ∷ ys) h =
      slice-write_at_behind i n m xs (y ∷ ys) (omega arith)

  -- The first `k` elements copied to the front of another array.
  pub slice-write_at-take :
      (i n k : ℕ) (xs ys : List A)
      → i + n ≤ k
      → k ≤ length xs
      → k ≤ length ys
      → slice i n (write_at xs 0 (take k ys)) ≡ slice i n ys
  unfolding write_at
  slice-write_at-take zero zero k xs ys h hx hy = refl
  slice-write_at-take zero (suc n) zero xs ys h hx hy = absurd (omega arith)
  slice-write_at-take (suc i) n zero xs ys h hx hy = absurd (omega arith)
  slice-write_at-take i n (suc k) [] ys h hx hy = absurd (omega arith)
  slice-write_at-take i n (suc k) (x ∷ xs) [] h hx hy = absurd (omega arith)
  slice-write_at-take zero (suc n) (suc k) (x ∷ xs) (y ∷ ys) h hx hy =
      ap (λ t. y ∷ t) (slice-write_at-take zero n k xs ys (omega arith) (omega arith) (omega arith))
  slice-write_at-take (suc i) n (suc k) (x ∷ xs) (y ∷ ys) h hx hy =
      slice-write_at-take i n k xs ys (omega arith) (omega arith) (omega arith)

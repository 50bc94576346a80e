-- ===== src/Parser/Field.antt =====
-- Byte arrays of fixed size inside the structs of include/parser/: a store at an index is `none`
-- where the C code would write outside the array.
pub mod Read
use pdc_20221c.Prelude.{
  ℕ, zero, suc, ◌+◌, ◌<◌, ◌≤◌, ◌≡◌, refl, ap, Option, none, some, List, [], ◌∷◌, ◌++◌, arith, ltb,
  length, set, write_at, set-eq-write_at, length-set, length-write_at, if◌then◌else◌, lt→ltb,
}

abbrev pub max_len : ℕ
max_len = 0xFF

unfoldable pub store : List ℕ → ℕ → ℕ → Option (List ℕ)
store xs i v = if ltb i (length xs) then some (set xs i v) else none

pub store_lem : (xs : List ℕ) (i v : ℕ) → i < length xs → store xs i v ≡ some (set xs i v)
unfolding store
store_lem xs i v h = rw (lt→ltb _ _ h)

pub store-overflow : (xs : List ℕ) (i v : ℕ) → length xs ≤ i → store xs i v ≡ none
unfolding store
store-overflow xs i v h = ground arith

write_at-set-suc :
    (xs : List ℕ) (i v : ℕ) (ys : List ℕ)
    → write_at (set xs i v) (suc i) ys ≡ write_at xs i (v ∷ ys)
unfolding write_at
write_at-set-suc [] i v [] = refl
write_at-set-suc [] i v (y ∷ ys) = refl
write_at-set-suc (x ∷ xs) zero v [] = refl
write_at-set-suc (x ∷ xs) zero v (y ∷ ys) = refl
write_at-set-suc (x ∷ xs) (suc i) v [] = ap (λ t. x ∷ t) (set-eq-write_at xs i v)
write_at-set-suc (x ∷ xs) (suc i) v (y ∷ ys) = ap (λ t. x ∷ t) (write_at-set-suc xs i v (y ∷ ys))

-- The bytes of a field go one behind the other.
pub write_at-set :
    (xs : List ℕ) (i j v : ℕ) (ys : List ℕ)
    → j ≡ suc i
    → write_at (set xs i v) j ys ≡ write_at xs i (v ∷ ys)
write_at-set xs i j v ys e = rw e (write_at-set-suc xs i v ys)

-- The last byte of a field and the terminator behind it.
pub set-set :
    (xs : List ℕ) (i j v w : ℕ) → j ≡ suc i → set (set xs i v) j w ≡ write_at xs i (v ∷ w ∷ [])
set-set xs i j v w e = rw (set-eq-write_at (set xs i v) j w) (write_at-set xs i j v (w ∷ []) e)

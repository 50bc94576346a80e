-- ===== src/Prelude/Lists.antt =====
-- Arrays of bytes as lists that are measured and indexed by native numbers, and the slices of them
-- that the buffers and the parsers speak of.
use Prim.Native.Nat.{ℕ, zero, suc, ◌+◌, ◌≤◌, ◌<◌}
use mathlib.Core.Path.{◌≡◌, refl, ap}
use mathlib.Core.List.{List, [], ◌∷◌, ◌++◌, append-nil}
use mathlib.Core.Option.{Option, none, some}
use native.Mathlib.Omega.{arith}
use pdc_20221c.Prelude.Tests.{◌==◌, if◌then◌else◌}

module _ {ℓ} {A : Type ℓ} where
  abbrev pub length : List A → ℕ
  length [] = 0
  length (x ∷ xs) = suc (length xs)

  abbrev pub get_elem? : List A → ℕ → Option A
  get_elem? [] i = none
  get_elem? (x ∷ xs) zero = some x
  get_elem? (x ∷ xs) (suc i) = get_elem? xs i

  abbrev pub get_or : List A → ℕ → A → A
  get_or [] i d = d
  get_or (x ∷ xs) zero d = x
  get_or (x ∷ xs) (suc i) d = get_or xs i d

  -- A write out of bounds changes nothing.
  abbrev pub set : List A → ℕ → A → List A
  set [] i v = []
  set (x ∷ xs) zero v = v ∷ xs
  set (x ∷ xs) (suc i) v = x ∷ set xs i v

  abbrev pub take : ℕ → List A → List A
  take zero xs = []
  take (suc n) [] = []
  take (suc n) (x ∷ xs) = x ∷ take n xs

  abbrev pub drop : ℕ → List A → List A
  drop zero xs = xs
  drop (suc n) [] = []
  drop (suc n) (x ∷ xs) = drop n xs

  abbrev pub replicate : ℕ → A → List A
  replicate zero a = []
  replicate (suc n) a = a ∷ replicate n a

  -- `memcpy (xs + i, ys, length ys)`. What would lie past the end is not written.
  unfoldable pub write_at : List A → ℕ → List A → List A
  write_at xs i [] = xs
  write_at [] i (y ∷ ys) = []
  write_at (x ∷ xs) zero (y ∷ ys) = y ∷ write_at xs zero ys
  write_at (x ∷ xs) (suc i) (y ∷ ys) = x ∷ write_at xs i (y ∷ ys)

  -- The `n` elements from index `i` on.
  abbrev pub slice : ℕ → ℕ → List A → List A
  slice i n xs = take n (drop i xs)

module _ {ℓ} {A : Type ℓ} where
  pub length-append : (xs ys : List A) → length (xs ++ ys) ≡ length xs + length ys
  length-append [] ys = omega arith
  length-append (x ∷ xs) ys = omega (arith, length-append xs ys)

  pub length-set : (xs : List A) (i : ℕ) (v : A) → length (set xs i v) ≡ length xs
  length-set [] i v = refl
  length-set (x ∷ xs) zero v = refl
  length-set (x ∷ xs) (suc i) v = ap suc (length-set xs i v)

  pub length-write_at : (xs : List A) (i : ℕ) (ys : List A) → length (write_at xs i ys) ≡ length xs
  unfolding write_at
  length-write_at xs i [] = refl
  length-write_at [] i (y ∷ ys) = refl
  length-write_at (x ∷ xs) zero (y ∷ ys) = ap suc (length-write_at xs zero ys)
  length-write_at (x ∷ xs) (suc i) (y ∷ ys) = ap suc (length-write_at xs i (y ∷ ys))

  pub take-length-append : (xs ys : List A) → take (length xs) (xs ++ ys) ≡ xs
  take-length-append [] ys = refl
  take-length-append (x ∷ xs) ys = ap (λ t. x ∷ t) (take-length-append xs ys)

  pub length-slice : (i n : ℕ) (xs : List A) → i + n ≤ length xs → length (slice i n xs) ≡ n
  length-slice zero zero xs h = refl
  length-slice zero (suc n) [] h = absurd (omega arith)
  length-slice zero (suc n) (x ∷ xs) h = ap suc (length-slice zero n xs (omega arith))
  length-slice (suc i) n [] h = absurd (omega arith)
  length-slice (suc i) n (x ∷ xs) h = length-slice i n xs (omega arith)

  -- A block moved to the front is found there.
  pub slice-write_at_zero :
      (xs ys : List A) → length ys ≤ length xs → slice 0 (length ys) (write_at xs 0 ys) ≡ ys
  unfolding write_at
  slice-write_at_zero xs [] h = refl
  slice-write_at_zero [] (y ∷ ys) h = absurd (omega arith)
  slice-write_at_zero (x ∷ xs) (y ∷ ys) h =
      ap (λ t. y ∷ t) (slice-write_at_zero xs ys (omega arith))

  -- `ys` written behind a prefix of length `i + n` extends the slice of it.
  pub slice-write_at :
      (i n m k : ℕ) (xs ys : List A)
      → m ≡ i + n
      → k ≡ n + length ys
      → m + length ys ≤ length xs
      → slice i k (write_at xs m ys) ≡ slice i n xs ++ ys
  unfolding write_at
  slice-write_at i n m k xs [] e f h = rw (append-nil) (ap (λ (t : ℕ). slice i t xs) (omega arith))
  slice-write_at i n m k [] (y ∷ ys) e f h = absurd (omega arith)
  slice-write_at zero zero m k (x ∷ xs) (y ∷ ys) e f h =
      let em : m ≡ 0 = omega arith in
      let ek : k ≡ length (y ∷ ys) = omega arith in
      rw (em, ek) (slice-write_at_zero (x ∷ xs) (y ∷ ys) (omega arith))
  slice-write_at zero (suc n) zero k (x ∷ xs) (y ∷ ys) e f h = absurd (omega arith)
  slice-write_at zero (suc n) (suc m) zero (x ∷ xs) (y ∷ ys) e f h = absurd (omega arith)
  slice-write_at zero (suc n) (suc m) (suc k) (x ∷ xs) (y ∷ ys) e f h =
      ap (λ t. x ∷ t)
        (slice-write_at zero n m k xs (y ∷ ys) (omega arith) (omega arith) (omega arith))
  slice-write_at (suc i) n zero k (x ∷ xs) (y ∷ ys) e f h = absurd (omega arith)
  slice-write_at (suc i) n (suc m) k (x ∷ xs) (y ∷ ys) e f h =
      slice-write_at i n m k xs (y ∷ ys) (omega arith) f (omega arith)

  pub cons-tail : (x y : A) (xs ys : List A) → x ∷ xs ≡ y ∷ ys → xs ≡ ys
  cons-tail x y xs ys e = ground arith

  -- Behind the first part of a slice stands the second.
  pub slice-suffix :
      (i n m k : ℕ) (zs xs ys : List A)
      → m ≡ i + length xs
      → n ≡ k + length xs
      → slice i n zs ≡ xs ++ ys
      → slice m k zs ≡ ys
  slice-suffix i n m k zs [] ys e f h =
      let em : m ≡ i = omega arith in let ek : k ≡ n = omega arith in rw (em, ek) h
  slice-suffix (suc i) n zero k zs (x ∷ xs) ys e f h = absurd (omega arith)
  slice-suffix (suc i) zero (suc m) k [] (x ∷ xs) ys e f h = absurd (omega arith)
  slice-suffix (suc i) (suc n) (suc m) k [] (x ∷ xs) ys e f h = ground arith
  slice-suffix (suc i) n (suc m) k (z ∷ zs) (x ∷ xs) ys e f h =
      slice-suffix i n m k zs (x ∷ xs) ys (omega arith) f h
  slice-suffix zero zero m k zs (x ∷ xs) ys e f h = absurd (omega arith)
  slice-suffix zero (suc n) m k [] (x ∷ xs) ys e f h = ground arith
  slice-suffix zero (suc n) zero k (z ∷ zs) (x ∷ xs) ys e f h = absurd (omega arith)
  slice-suffix zero (suc n) (suc m) k (z ∷ zs) (x ∷ xs) ys e f h =
      slice-suffix zero n m k zs xs ys (omega arith) (omega arith)
        (cons-tail z x (take n zs) (xs ++ ys) h)

  pub slice-head :
      (i n : ℕ) (zs : List A) (d c : A) (cs : List A) → slice i n zs ≡ c ∷ cs → get_or zs i d ≡ c
  slice-head zero zero zs d c cs h = ground arith
  slice-head zero (suc n) [] d c cs h = ground arith
  slice-head zero (suc n) (z ∷ zs) d c cs h = ground arith
  slice-head (suc i) zero [] d c cs h = ground arith
  slice-head (suc i) (suc n) [] d c cs h = ground arith
  slice-head (suc i) n (z ∷ zs) d c cs h = slice-head i n zs d c cs h

  pub set-eq-write_at : (xs : List A) (i : ℕ) (v : A) → set xs i v ≡ write_at xs i (v ∷ [])
  unfolding write_at
  set-eq-write_at [] i v = refl
  set-eq-write_at (x ∷ xs) zero v = refl
  set-eq-write_at (x ∷ xs) (suc i) v = ap (λ t. x ∷ t) (set-eq-write_at xs i v)

  -- Reading after a write: the new value at its index, the old ones elsewhere.
  pub get_elem?-set :
      (xs : List A) (i j : ℕ) (v : A)
      → i < length xs
      → get_elem? (set xs i v) j ≡ (if i == j then some v else get_elem? xs j)
  get_elem?-set [] i j v h = absurd (omega arith)
  get_elem?-set (x ∷ xs) zero zero v h = refl
  get_elem?-set (x ∷ xs) zero (suc j) v h = ground arith
  get_elem?-set (x ∷ xs) (suc i) zero v h = ground arith
  get_elem?-set (x ∷ xs) (suc i) (suc j) v h = ground (arith, get_elem?-set xs i j v)

  pub get_elem?-length : (xs : List A) (i : ℕ) (x : A) → get_elem? xs i ≡ some x → i < length xs
  get_elem?-length [] i x h = cc
  get_elem?-length (y ∷ xs) zero x h = omega arith
  get_elem?-length (y ∷ xs) (suc i) x h = omega (arith, get_elem?-length xs i x h)

  pub get_elem?-some : (xs : List A) (i : ℕ) → i < length xs → (x : A) × (get_elem? xs i ≡ some x)
  get_elem?-some [] i h = absurd (omega arith)
  get_elem?-some (x ∷ xs) zero h = (x, refl)
  get_elem?-some (x ∷ xs) (suc i) h = get_elem?-some xs i (omega arith)

  pub length-replicate : (n : ℕ) (x : A) → length (replicate n x) ≡ n
  length-replicate zero x = refl
  length-replicate (suc n) x = ap suc (length-replicate n x)

  pub take-take : (n m : ℕ) (xs : List A) → n ≤ m → take n (take m xs) ≡ take n xs
  take-take zero m xs h = refl
  take-take (suc n) zero xs h = absurd (omega arith)
  take-take (suc n) (suc m) [] h = refl
  take-take (suc n) (suc m) (x ∷ xs) h = ap (λ t. x ∷ t) (take-take n m xs (omega arith))

  pub append-take-drop : (n : ℕ) (xs : List A) → take n xs ++ drop n xs ≡ xs
  append-take-drop zero xs = refl
  append-take-drop (suc n) [] = refl
  append-take-drop (suc n) (x ∷ xs) = ap (λ t. x ∷ t) (append-take-drop n xs)

  pub length-take : (n : ℕ) (xs : List A) → n ≤ length xs → length (take n xs) ≡ n
  length-take zero xs h = refl
  length-take (suc n) [] h = absurd (omega arith)
  length-take (suc n) (x ∷ xs) h = ap suc (length-take n xs (omega arith))

-- ===== src/Parser/Field/Read.antt =====
-- Reading a counted field into an array and terminating it: the pattern that `uname` and `passwd`
-- of src/parser/auth_parser.c and src/parser/prawtos_parser.c share.
use pdc_20221c.Prelude.{
  ℕ, ◌+◌, ◌<◌, ◌≡◌, ap, Option, some, List, [], ◌∷◌, ◌++◌, Bool, false, length, length-set, arith,
  ◌∙◌, set, write_at,
}
use pdc_20221c.Consume.{consume_bytes}
use pdc_20221c.Consume.Bytes.{consume_bytes-more}
use pdc_20221c.Parser.Field.{max_len, write_at-set}

-- `inside arr i` is the parser that has filled the array up to `i`; `n` is the field's length, and
-- `out` the result once the array holds the field and its terminator.
module _ {S P : Type 0} (feed : P → ℕ → Option (S × P))
    (is_done : S → Option Bool → Bool × Option Bool) where
  pub field_lem :
      (inside : List ℕ → ℕ → P) (within : S) (n : ℕ)
      (out : List ℕ → Option (S × P × Option Bool × List ℕ)) (tail : List ℕ) (error : Option Bool)
      → is_done within error ≡ (false, error)
      → ((c i : ℕ) (arr : List ℕ)
          → length arr ≡ max_len
          → i + 1 < n
          → feed (inside arr i) c ≡ some (within, inside (set arr i c) (i + 1)))
      → ((c i : ℕ) (arr : List ℕ) (st : S)
          → length arr ≡ max_len
          → i + 1 ≡ n
          → consume_bytes feed is_done (c ∷ tail) (inside arr i) st error
            ≡ out (write_at arr i (c ∷ 0 ∷ [])))
      → (c : ℕ) (cs : List ℕ) (i : ℕ) (arr : List ℕ) (st : S) → length arr ≡ max_len
      → i + length (c ∷ cs) ≡ n
      → consume_bytes feed is_done (c ∷ cs ++ tail) (inside arr i) st error
        ≡ out (write_at arr i (c ∷ cs ++ 0 ∷ []))
  field_lem inside within n out tail error undone more last c [] i arr st len sum =
      last c i arr st len (omega arith)
  field_lem inside within n out tail error undone more last c (c' ∷ cs) i arr st len sum =
      consume_bytes-more feed is_done c (c' ∷ cs ++ tail) (inside arr i)
        (inside (set arr i c) (i + 1)) st within error error (more c i arr len (omega arith)) undone
      ∙ field_lem inside within n out tail error undone more last c' cs (i + 1) (set arr i c) within
          (length-set arr i c ∙ len) (omega arith)
      ∙ ap out (write_at-set arr i (i + 1) c (c' ∷ cs ++ 0 ∷ []) (omega arith))

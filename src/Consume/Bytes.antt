-- ===== src/Consume/Bytes.antt =====
-- The description of the consume loop over a list of bytes: one byte at a time, and a message that
-- arrives in pieces.
use pdc_20221c.Prelude.{
  ℕ, ◌≡◌, Option, none, some, List, [], ◌∷◌, ◌++◌, Bool, true, false, arith, inl, inr, Bool-cases,
  Option-cases,
}
use pdc_20221c.Consume.{consume_bytes}

module _ {S P : Type 0} (feed : P → ℕ → Option (S × P))
    (is_done : S → Option Bool → Bool × Option Bool) where
  pub consume_bytes-more :
      (c : ℕ) (cs : List ℕ) (p p' : P) (st st' : S) (error error' : Option Bool)
      → feed p c ≡ some (st', p')
      → is_done st' error ≡ (false, error')
      → consume_bytes feed is_done (c ∷ cs) p st error ≡ consume_bytes feed is_done cs p' st' error'
  unfolding consume_bytes
  consume_bytes-more c cs p p' st st' error error' f d = rw (consume_bytes, f, d)

  pub consume_bytes-done :
      (c : ℕ) (cs : List ℕ) (p p' : P) (st st' : S) (error error' : Option Bool)
      → feed p c ≡ some (st', p')
      → is_done st' error ≡ (true, error')
      → consume_bytes feed is_done (c ∷ cs) p st error ≡ some (st', p', error', cs)
  unfolding consume_bytes
  consume_bytes-done c cs p p' st st' error error' f d = rw (consume_bytes, f, d)

  module _ (is_done_flag : (s : S) (e : Option Bool) → (is_done s e).0 ≡ (is_done s none).0) where
    -- A parser that is not done after some bytes goes on with the next ones as if all had arrived
    -- together.
    pub consume_bytes-append :
        (xs ys : List ℕ) (p p' : P) (st st' : S) (error error' : Option Bool) (rest : List ℕ)
        → consume_bytes feed is_done xs p st error ≡ some (st', p', error', rest)
        → (is_done st' none).0 ≡ false
        → consume_bytes feed is_done (xs ++ ys) p st error
          ≡ consume_bytes feed is_done ys p' st' error'
    unfolding consume_bytes
    consume_bytes-append [] ys p p' st st' error error' rest h d = cc
    consume_bytes-append (x ∷ xs) ys p p' st st' error error' rest h d =
        elim (Option-cases (feed p x)) [
          | inl e ↦ absurd (ground arith)
          | inr ((st1, p1), e) ↦ elim (Bool-cases (is_done st1 error).0) [
            | inl t ↦ absurd (ground (arith, is_done_flag st1 error))
            | inr t ↦
                rw (e, t)
                  (consume_bytes-append xs ys p1 p' st1 st' (is_done st1 error).1 error' rest
                    (rw (e, consume_bytes, t) at h) d)
          ]
        ]

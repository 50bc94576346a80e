-- ===== src/Consume/Refine.antt =====
-- The loop of src/parser/*_parser.c against its description over a list of bytes.
use pdc_20221c.Prelude.{
  ℕ, zero, suc, ◌-◌, ◌<◌, ◌≡◌, refl, Option, none, some, List, [], ◌∷◌, Bool, true, false, ◌>>=◌,
  arith, length, Bool-cases, if◌then◌else◌, inl, inr,
}
use pdc_20221c.Buffer.{Buffer, buffer_can_read}
use pdc_20221c.Buffer.Contents.{
  Holds, length-Holds, buffer_can_read-cons, buffer_can_read-nil, buffer_read_lem,
}
use pdc_20221c.Consume.{consume_loop, consume, consume_bytes}

module _ {S P : Type 0} where
  -- The buffer's loop has the result of the description, and leaves the bytes that it leaves.
  abbrev pub Agrees :
      ℕ → Option (S × P × Option Bool × List ℕ) → Option (S × P × Buffer × Option Bool) → Type 0
  Agrees limit none r = r ≡ none
  Agrees limit (some (st, p, error, rest)) r =
      (b : Buffer) × (r ≡ some (st, p, b, error)) × Holds b rest × (b.limit ≡ limit)

module _ {S P : Type 0} (feed : P → ℕ → Option (S × P))
    (is_done : S → Option Bool → Bool × Option Bool) where
  consume_loop-finished :
      (fuel : ℕ) (b : Buffer) (p : P) (st : S) (error : Option Bool)
      → consume_loop feed is_done (suc fuel) b p st true error ≡ some (st, p, b, error)
  unfolding consume_loop
  consume_loop-finished fuel b p st error = elim (Bool-cases (buffer_can_read b)) [
    | inl e ↦ rw (e, consume_loop)
    | inr e ↦ rw (e, consume_loop)
  ]

  -- One round, once the byte has been read: the parser faults, is done, or goes on.
  round-Agrees :
      (fed : Option (S × P)) (cs : List ℕ) (fuel : ℕ) (b : Buffer) (error : Option Bool)
      → 0 < fuel
      → Holds b cs
      → ((st : S) (p : P) (error' : Option Bool)
          → Agrees b.limit
              (consume_bytes feed is_done cs p st error')
              (consume_loop feed is_done fuel b p st false error'))
      → Agrees b.limit
          (elim fed [
            | none ↦ none
            | some (st', p') ↦
                let (done, error') = is_done st' error in
                let more = consume_bytes feed is_done cs p' st' error' in
                if done then some (st', p', error', cs) else more
          ])
          (fed >>= λ (st', p').
            let (done, error') = is_done st' error in
            consume_loop feed is_done fuel b p' st' (if done then true else false) error')
  round-Agrees none cs fuel b error pos h ih = refl
  round-Agrees (some (st, p)) cs zero b error pos h ih = absurd (omega arith)
  round-Agrees (some (st, p)) cs (suc fuel) b error pos h ih =
      elim (Bool-cases (is_done st error).0) [
        | inl e ↦ rw e (b, consume_loop-finished fuel b p st (is_done st error).1, h, refl)
        | inr e ↦ rw e (ih st p (is_done st error).1)
      ]

  consume_loop-Agrees :
      (bytes : List ℕ) (fuel : ℕ) (b : Buffer) (p : P) (st : S) (error : Option Bool)
      → length bytes < fuel
      → Holds b bytes
      → Agrees b.limit
          (consume_bytes feed is_done bytes p st error)
          (consume_loop feed is_done fuel b p st false error)
  unfolding consume_loop consume_bytes
  consume_loop-Agrees bytes zero b p st error lt h = absurd (omega arith)
  consume_loop-Agrees [] (suc fuel) b p st error lt h =
      (b, rw (buffer_can_read-nil b h, consume_loop), h, refl)
  consume_loop-Agrees (c ∷ cs) (suc fuel) b p st error lt h =
      let (b', eb, hb, lb, z) = buffer_read_lem b c cs h in
      rw (buffer_can_read-cons b c cs h, eb, consume_loop, ← lb)
        (round-Agrees (feed p c) cs fuel b' error (omega arith) hb
          (λ st' p' error'. consume_loop-Agrees cs fuel b' p' st' error' (omega arith) hb))

  -- On a well-formed buffer the loop ends, no assertion of the buffer fails, and its result is that
  -- of the description over the bytes held: the same state, parser and flag, the unread bytes left
  -- in the buffer, or the same fault.
  pub consume-Agrees :
      (bytes : List ℕ) (b : Buffer) (p : P) (st : S) (error : Option Bool)
      → Holds b bytes
      → Agrees b.limit
          (consume_bytes feed is_done bytes p st error)
          (consume feed is_done b p st error)
  unfolding consume
  consume-Agrees bytes b p st error h =
      consume_loop-Agrees bytes (suc (b.write - b.read)) b p st error
        (omega (arith, length-Holds b bytes h)) h

-- ===== src/Consume/Pieces.antt =====
-- A message of src/parser/*_parser.c that arrives in pieces, as `recv` delivers it.
use pdc_20221c.Prelude.{ℕ, ◌≡◌, Option, none, some, List, ◌++◌, Bool, false, arith}
use pdc_20221c.Buffer.{Buffer}
use pdc_20221c.Buffer.Contents.{Holds}
use pdc_20221c.Consume.{consume, consume_bytes}
use pdc_20221c.Consume.Refine.{Agrees, consume-Agrees}
use pdc_20221c.Consume.Bytes.{consume_bytes-append}

module _ {S P : Type 0} where
  -- What the description says, where the loop has returned.
  returned :
      (limit : ℕ) (o : Option (S × P × Option Bool × List ℕ)) (st : S) (p : P) (b : Buffer)
      (error : Option Bool)
      → Agrees limit o (some (st, p, b, error))
      → (rest : List ℕ) × (o ≡ some (st, p, error, rest))
  returned limit none st p b error a = absurd (ground arith)
  returned limit (some (st', p', error', rest)) st p b error (b', e, h, l) = (rest, ground arith)

module _ {S P : Type 0} (feed : P → ℕ → Option (S × P))
    (is_done : S → Option Bool → Bool × Option Bool)
    (is_done_flag : (s : S) (e : Option Bool) → (is_done s e).0 ≡ (is_done s none).0) where
  -- If the loop runs out of bytes before the parser is done, then going on with the next bytes has
  -- the result of all the bytes at once: the same state, parser and flag with the same bytes left
  -- over, or the same fault.
  pub consume-append :
      (xs ys : List ℕ) (b b' next whole : Buffer) (p p' : P) (st st' : S)
      (error error' : Option Bool)
      → Holds b xs
      → Holds next ys
      → Holds whole (xs ++ ys)
      → consume feed is_done b p st error ≡ some (st', p', b', error')
      → (is_done st' none).0 ≡ false
      → (result : Option (S × P × Option Bool × List ℕ)) × Agrees next.limit result
          (consume feed is_done next p' st' error')
        × Agrees whole.limit result (consume feed is_done whole p st error)
  consume-append xs ys b b' next whole p p' st st' error error' hb hn hw run undone =
      let (rest, first) =
        returned b.limit (consume_bytes feed is_done xs p st error) st' p' b' error'
          (rw run at (consume-Agrees feed is_done xs b p st error hb)) in
      (
        consume_bytes feed is_done ys p' st' error',
        consume-Agrees feed is_done ys next p' st' error' hn,
        rw
            (consume_bytes-append feed is_done is_done_flag xs ys p p' st st' error error' rest
              first undone)
            at (consume-Agrees feed is_done (xs ++ ys) whole p st error hw),
      )

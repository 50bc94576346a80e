-- ===== src/Consume.antt =====
-- The loop that the four `*_consume` functions of src/parser/ share: bytes are taken from the
-- buffer and given to the parser, one by one, until the parser is done or the buffer is empty.
-- `feed` is the parser's step; `none` is an access outside an array. `is_done` is given the flag
-- behind `bool *error`, where `none` stands for a null pointer.
pub mod Refine
pub mod Bytes
pub mod Pieces
use pdc_20221c.Prelude.{
  ℕ, zero, suc, ◌-◌, Option, none, some, List, [], ◌∷◌, Bool, true, false, ◌&&◌, not, if◌then◌else◌,
  ◌>>=◌,
}
use pdc_20221c.Buffer.{Buffer, buffer_can_read, buffer_read}

module _ {S P : Type 0} (feed : P → ℕ → Option (S × P))
    (is_done : S → Option Bool → Bool × Option Bool) where
  -- `st`, `finished` and `error` are the C function's variables; `none` for fuel that ran out.
  unfoldable pub consume_loop :
      ℕ → Buffer → P → S → Bool → Option Bool → Option (S × P × Buffer × Option Bool)
  consume_loop zero b p st finished error = none
  consume_loop (suc fuel) b p st finished error = elim (buffer_can_read b && not finished) [
    | false ↦ some (st, p, b, error)
    | true ↦ do
      (byte, b') ← buffer_read b
      (st', p') ← feed p byte
      let (done, error') = is_done st' error
      consume_loop fuel b' p' st' (if done then true else finished) error'
  ]

  -- A round takes one byte, so a round for each unread byte and one more are enough.
  unfoldable pub consume : Buffer → P → S → Option Bool → Option (S × P × Buffer × Option Bool)
  unfolding consume_loop
  consume b p st error = consume_loop (suc (b.write - b.read)) b p st false error

  -- The same over a list of bytes: the state, the parser, the flag, and the bytes left over.
  unfoldable pub consume_bytes :
      List ℕ → P → S → Option Bool → Option (S × P × Option Bool × List ℕ)
  consume_bytes [] p st error = some (st, p, error, [])
  consume_bytes (c ∷ cs) p st error = elim (feed p c) [
    | none ↦ none
    | some (st', p') ↦
        let (done, error') = is_done st' error in
        let more = consume_bytes cs p' st' error' in
        if done then some (st', p', error', cs) else more
  ]

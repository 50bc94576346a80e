-- ===== src/Prawtos/Commands/Counters.antt =====
-- The requests of src/prawtos/cmd_prawtos.c for a counter of src/stadistics.c.
use pdc_20221c.Prelude.{
  ℕ, zero, suc, ◌+◌, ◌*◌, ◌-◌, ◌≤◌, ◌<◌, ◌≡◌, refl, ◌∙◌, some, Bool, true, false, List, [], ◌∷◌,
  pos, length, arith, ltb, ◌==◌,
}
use pdc_20221c.Buffer.{Buffer}
use pdc_20221c.Buffer.Contents.{Holds}
use pdc_20221c.Parser.Prawtos.{PrawtosParser, prawtos_parser_done, prawtos_is_done}
use pdc_20221c.Parser.Prawtos.Answer.{get_marshal, get_marshal_lem}
use pdc_20221c.Parser.Prawtos.Message.{get_lem}
use pdc_20221c.Prawtos.{
  PrawtosWorld, get_handlers, bytes_sent, total_connections, concurrent_connections, with_args,
  cmd_process, cmd_read, cmd_write_prawtos, success,
}
use pdc_20221c.Prawtos.Commands.{IsIdle, at_request, cmd_read-processed}
use pdc_20221c.Selector.{FdSelector}
use pdc_20221c.Stadistics.{Stadistics}
use pdc_20221c.Stadistics.Counts.{InRange}

-- The number that bytes stand for, the highest first.
abbrev pub value : ℕ → List ℕ → ℕ
value acc [] = acc
value acc (c ∷ cs) = value (acc * 256 + c) cs

-- The counters by their commands, and the bytes of an answer.
abbrev pub counter_at : ℕ → Stadistics → ℕ
counter_at zero s = s.bytes_sent
counter_at (suc zero) s = s.total_connections
counter_at (suc (suc _)) s = s.concurrent_connections

abbrev pub width : ℕ → ℕ
width zero = 4
width (suc _) = 2

width_le : (c : ℕ) → width c ≤ 4
width_le zero = omega arith
width_le (suc c) = omega arith

-- The parser after a GET request.
abbrev pub asked_get : PrawtosParser → ℕ → PrawtosParser
asked_get p c = record p { type_byte = 0x00; get_cmd = c; state = prawtos_parser_done }

module _ {H D : Type 0} where
  handler_lem :
      (w : PrawtosWorld H D) (c : ℕ) (got_memory : Bool)
      → c < 3
      → InRange w.stadistics
      → (digits : List ℕ) × (get_handlers c w got_memory
          ≡ some (suc (width c), with_args w (width c ∷ digits)))
        × (length digits ≡ width c)
        × (value 0 digits ≡ counter_at c w.stadistics)
  unfolding get_handlers bytes_sent total_connections concurrent_connections
  handler_lem w zero got_memory lt r = (_, refl, refl, omega (arith, r.sent_le))
  handler_lem w (suc zero) got_memory lt r = (_, refl, refl, omega (arith, r.total_le))
  handler_lem w (suc (suc zero)) got_memory lt r =
      (_, refl, refl, omega (arith, r.total_le, r.concurrent_le))
  handler_lem w (suc (suc (suc c))) got_memory lt r = absurd (omega arith)

  get_process :
      (w : PrawtosWorld H D) (p : PrawtosParser) (c : ℕ) (digits : List ℕ) (b out : Buffer)
      (n len : ℕ) (s : FdSelector H D) (got_memory : Bool)
      → get_handlers c (at_request w (asked_get p c) b s) got_memory
        ≡ some (suc len, with_args (at_request w (asked_get p c) b s) digits)
      → get_marshal w.write_buffer success c 1 digits ≡ some (pos n, out)
      → cmd_process (at_request w (asked_get p c) b s) got_memory
        ≡ some (
          cmd_write_prawtos,
          record (with_args (at_request w (asked_get p c) b s) digits) { write_buffer = out },
        )
  unfolding cmd_process
  get_process w p c digits b out n len s got_memory handled answer =
      let some_args : (suc len == 0) ≡ false = ground arith in rw (handled, some_args, answer) refl

  -- A session that waits for a request and has room in its buffers gets a GET request for the bytes
  -- sent, the connections so far or the connections now: the answer is the status, the command, the
  -- number 1, the number of digits and the digits, four or two bytes that stand for the counter,
  -- which fits its C type. Bytes behind the request are kept, and the session waits to write.
  pub cmd_read-counter :
      (w : PrawtosWorld H D) (k c : ℕ) (rest : List ℕ) (got_memory : Bool)
      → IsIdle w k
      → c < 3
      → InRange w.stadistics
      → 2 + length rest ≤ w.read_buffer.limit - w.read_buffer.write
      → 8 ≤ w.write_buffer.limit - w.write_buffer.write
      → (w' : PrawtosWorld H D) × ((digits : List ℕ) × (cmd_read w
              (pos k)
              (some (0x00 ∷ c ∷ rest))
              got_memory
            ≡ some (cmd_write_prawtos, w'))
          × Holds w'.write_buffer (success ∷ c ∷ 1 ∷ width c ∷ digits)
          × (length digits ≡ width c)
          × (value 0 digits ≡ counter_at c w.stadistics)
          × Holds w'.read_buffer rest
          × (w'.stadistics ≡ w.stadistics)
          × (w'.selector.master_w k ≡ true))
  unfolding prawtos_is_done
  cmd_read-counter w k c rest got_memory idle lt range room answer_room =
      let known : ltb c 4 ≡ true = ground arith in
      let p = asked_get w.parser c in
      let (b', (s, run, hrest, changed)) =
        cmd_read-processed w k (0x00 ∷ c ∷ rest) rest got_memory false prawtos_parser_done p idle
          (omega (arith, room))
          (get_lem rest (some false) w.parser w.parser.state idle.start c ∙ rw known refl) refl in
      let w1 = at_request w p b' s in
      let (digits, handled, long, right) = handler_lem w1 c got_memory lt range in
      let (out, answer, ho) =
        get_marshal_lem w.write_buffer [] digits success c 1 (width c) idle.output
          (omega (arith, long, width_le c, answer_room)) (omega (arith, width_le c, answer_room)) in
      (
        record (with_args w1 (width c ∷ digits)) { write_buffer = out },
        (
          digits,
          run
              ∙ rw
                  (get_process w w.parser c (width c ∷ digits) b' out _ _ s got_memory handled
                    answer)
                  refl,
          ho,
          long,
          right,
          hrest,
          refl,
          changed.writes_it,
        ),
      )

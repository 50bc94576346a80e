-- ===== src/Prawtos/Commands.antt =====
-- What a request of src/prawtos/cmd_prawtos.c is given for an answer.
pub mod Accounts
pub mod Create
pub mod Counters
pub mod Listed
use pdc_20221c.Prelude.{
  ℕ, zero, suc, ◌+◌, ◌*◌, ◌-◌, ◌≤◌, ◌<◌, ◌≡◌, refl, ap, ◌∙◌, Option, none, some, Bool, true, false,
  List, [], ◌∷◌, ◌++◌, ◌==◌, if◌then◌else◌, ◌>>=◌, ℤ, pos, length, arith,
}
use pdc_20221c.Buffer.{Buffer, buffer_write_ptr, buffer_write_adv, fill}
use pdc_20221c.Buffer.Contents.{Holds, buffer_write_ptr_lem, buffer_write_adv_lem}
use pdc_20221c.Consume.Refine.{consume-Agrees}
use pdc_20221c.Parser.Prawtos.{
  PrawtosParser, PrawtosParserState, prawtos_type, prawtos_parser_done, prawtos_parser_feed,
  prawtos_is_done, prawtos_consume,
}
use pdc_20221c.Parser.Prawtos.Fields.{parse}
use pdc_20221c.Parser.Prawtos.Parts.{IsSized}
use pdc_20221c.Prawtos.{PrawtosWorld, cmd_process, cmd_finished, cmd_read, error_prawtos}
use pdc_20221c.Selector.{FdSelector, selector_success, selector_set_interest_key, op_write}
use pdc_20221c.Selector.Invariant.{IsValid}
use pdc_20221c.Session.Copy.Interest.{IsUsed, Changed, set_interest_key_run}

module _ {H D : Type 0} where
  -- A session that waits for a request: its descriptor is registered, its buffers are empty.
  pub record IsIdle (w : PrawtosWorld H D) (k : ℕ) : Type 0 where
    pub start : w.parser.state ≡ prawtos_type
    pub sized : IsSized w.parser
    pub input : Holds w.read_buffer []
    pub output : Holds w.write_buffer []
    pub valid : IsValid w.selector
    pub small : k < 1024
    pub used : IsUsed w.selector k

  -- What `cmd_read` returns of the result of `cmd_process`, with the flag of the parser.
  abbrev pub flagged : Bool → Option (ℕ × PrawtosWorld H D) → Option (ℕ × PrawtosWorld H D)
  flagged error r = r >>= λ (ret, w). some (if error then error_prawtos else ret, w)

  -- The session when a request is processed.
  abbrev pub at_request :
      PrawtosWorld H D → PrawtosParser → Buffer → FdSelector H D → PrawtosWorld H D
  at_request w p b s = record w { parser = p; read_buffer = b; selector = s }

  read_run :
      (w : PrawtosWorld H D) (fd : ℤ) (bytes : List ℕ) (got_memory error : Bool) (b b' : Buffer)
      (st : PrawtosParserState) (p : PrawtosParser) (s : FdSelector H D)
      → buffer_write_ptr w.read_buffer
        ≡ some (w.read_buffer.write, w.read_buffer.limit - w.read_buffer.write)
      → buffer_write_adv (fill w.read_buffer bytes) (pos (length bytes)) ≡ some b
      → prawtos_consume b w.parser (some false) ≡ some (st, p, b', some error)
      → (prawtos_is_done st none).0 ≡ true
      → selector_set_interest_key w.selector fd op_write ≡ some (selector_success, s)
      → cmd_read w fd (some bytes) got_memory
        ≡ flagged error (cmd_process (at_request w p b' s) got_memory)
  unfolding cmd_read cmd_finished
  read_run w fd bytes got_memory error b b' st p s ptr adv parsed done interest =
      rw (cmd_read, ptr, adv, parsed, done, interest) refl

  -- A request that comes at once and ends the parser, with an error or without: the session is
  -- watched for writing and the request is processed.
  pub cmd_read-processed :
      (w : PrawtosWorld H D) (k : ℕ) (bytes rest : List ℕ) (got_memory error : Bool)
      (st : PrawtosParserState) (p : PrawtosParser)
      → IsIdle w k
      → length bytes ≤ w.read_buffer.limit - w.read_buffer.write
      → parse bytes w.parser w.parser.state (some false) ≡ some (st, p, some error, rest)
      → (prawtos_is_done st none).0 ≡ true
      → (b' : Buffer) × ((s : FdSelector H D) × (cmd_read w (pos k) (some bytes) got_memory
            ≡ flagged error (cmd_process (at_request w p b' s) got_memory))
          × Holds b' rest
          × Changed w.selector s k op_write)
  unfolding prawtos_consume
  cmd_read-processed w k bytes rest got_memory error st p idle room parsed done =
      let (b, adv, hb, lb) = buffer_write_adv_lem w.read_buffer [] bytes idle.input room in
      let (s, interest, changed) =
        set_interest_key_run w.selector k op_write idle.valid idle.small idle.used in
      let (b', consumed, hrest, lb') = rw parsed at (
        consume-Agrees prawtos_parser_feed prawtos_is_done bytes b w.parser w.parser.state
          (some false) hb) in
      (
        b',
        (
          s,
          read_run w (pos k) bytes got_memory error b b' st p s
              (buffer_write_ptr_lem w.read_buffer idle.input.valid) adv consumed done interest,
          hrest,
          changed,
        ),
      )

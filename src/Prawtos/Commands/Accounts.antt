-- ===== src/Prawtos/Commands/Accounts.antt =====
-- The requests of src/prawtos/cmd_prawtos.c about the users.
use pdc_20221c.Prelude.{
  ℕ, zero, suc, ◌+◌, ◌-◌, ◌≤◌, ◌<◌, ◌≡◌, refl, ap, ◌∙◌, Option, none, some, Bool, true, false, List,
  [], ◌∷◌, if◌then◌else◌, pos, length, arith, ltb, if_false,
}
use pdc_20221c.Buffer.{Buffer}
use pdc_20221c.Buffer.Contents.{Holds}
use pdc_20221c.Consume.{consume_bytes}
use pdc_20221c.Parser.Hello.{raise_flag}
use pdc_20221c.Parser.Prawtos.{
  PrawtosParser, PrawtosParserState, prawtos_type, prawtos_parser_done,
  prawtos_error_unsupported_cmd, prawtos_is_done, prawtos_parser_feed, user_delete,
}
use pdc_20221c.Parser.Prawtos.Answer.{user_marshal, user_marshal_lem}
use pdc_20221c.Parser.Prawtos.Fields.{parse}
use pdc_20221c.Parser.Prawtos.Message.{delete_lem, delete_request}
use pdc_20221c.Parser.Prawtos.Parts.{user_read, with_name}
use pdc_20221c.Parser.Field.{max_len}
use pdc_20221c.Prawtos.{
  PrawtosWorld, user_handlers, del_user, with_users, cmd_process, cmd_read, cmd_write_prawtos,
  success, user_credentia,
}
use pdc_20221c.Prawtos.Access.{is_plain, write_at-HasText}
use pdc_20221c.Prawtos.Commands.{IsIdle, at_request, cmd_read-processed, flagged}
use pdc_20221c.Selector.{FdSelector}
use pdc_20221c.Users.{UserList, delete_user}
use pdc_20221c.Users.Lookup.{Entry, Refines, has, erase}
use pdc_20221c.Users.Table.{delete_user_lem}

-- The parser after a user request with an unknown command.
abbrev pub refused : PrawtosParser → ℕ → PrawtosParser
refused p c = record p {
  type_byte = 0x01;
  user = record p.user { cmd = c };
  state = prawtos_error_unsupported_cmd;
}

refused_lem :
    (c : ℕ) (rest : List ℕ) (errored : Option Bool) (p : PrawtosParser) (st : PrawtosParserState)
    → p.state ≡ prawtos_type
    → 3 ≤ c
    → parse (0x01 ∷ c ∷ rest) p st errored
      ≡ some (prawtos_error_unsupported_cmd, refused p c, raise_flag errored, rest)
unfolding prawtos_is_done prawtos_parser_feed consume_bytes
refused_lem c rest errored p st e h = ground arith

module _ {H D : Type 0} where
  no_handler :
      (c : ℕ) (w : PrawtosWorld H D) (got_memory : Bool)
      → 3 ≤ c
      → user_handlers c w got_memory ≡ none
  unfolding user_handlers
  no_handler zero w got_memory h = absurd (omega arith)
  no_handler (suc zero) w got_memory h = absurd (omega arith)
  no_handler (suc (suc zero)) w got_memory h = absurd (omega arith)
  no_handler (suc (suc (suc c))) w got_memory h = refl

  process_refused :
      (w : PrawtosWorld H D) (p : PrawtosParser) (c : ℕ) (b : Buffer) (s : FdSelector H D)
      (got_memory : Bool)
      → 3 ≤ c
      → cmd_process (at_request w (refused p c) b s) got_memory ≡ none
  unfolding cmd_process
  process_refused w p c b s got_memory h =
      rw (no_handler c (at_request w (refused p c) b s) got_memory h) refl

  -- A user request whose command is none of the three makes the server call past the end of its
  -- table of handlers, since it processes a request that the parser refused.
  pub cmd_read-unsupported :
      (w : PrawtosWorld H D) (k c : ℕ) (rest : List ℕ) (got_memory : Bool)
      → IsIdle w k
      → 3 ≤ c
      → 2 + length rest ≤ w.read_buffer.limit - w.read_buffer.write
      → cmd_read w (pos k) (some (0x01 ∷ c ∷ rest)) got_memory ≡ none
  unfolding prawtos_is_done
  cmd_read-unsupported w k c rest got_memory idle high room =
      let (b', (s, run, hrest, changed)) =
        cmd_read-processed w k (0x01 ∷ c ∷ rest) rest got_memory true prawtos_error_unsupported_cmd
          (refused w.parser c) idle (omega (arith, room))
          (refused_lem c rest (some false) w.parser w.parser.state idle.start high) refl in
      run ∙ ap (flagged true) (process_refused w w.parser c b' s got_memory high)

  delete_process :
      (w : PrawtosWorld H D) (p : PrawtosParser) (us : List ℕ) (b out : Buffer) (n : ℕ)
      (s : FdSelector H D) (found got_memory : Bool) (users : UserList)
      → delete_user w.users (with_name (record p.user { cmd = user_delete }) us).uname
        ≡ some (found, users)
      → user_marshal w.write_buffer (if found then success else user_credentia) ≡ some (pos n, out)
      → cmd_process
          (at_request w
            (user_read p (with_name (record p.user { cmd = user_delete }) us) (length us))
            b
            s)
          got_memory
        ≡ some (
          cmd_write_prawtos,
          record (with_users
              (at_request w
                (user_read p (with_name (record p.user { cmd = user_delete }) us) (length us))
                b
                s)
              found
              users) { write_buffer = out },
        )
  unfolding cmd_process user_handlers del_user
  delete_process w p us b out n s found got_memory users deleted answer = rw (deleted, answer) refl

  -- A session that waits for a request and has room in its buffers gets a request to delete a user,
  -- whose name has 1 to 254 bytes without a zero byte: the user is gone from the table, and no other,
  -- and the answer tells whether there was one. Bytes behind the request are kept, and the session
  -- waits to write.
  pub cmd_read-delete :
      (w : PrawtosWorld H D) (k : ℕ) (es : List Entry) (us rest : List ℕ) (got_memory : Bool)
      → IsIdle w k
      → 0 < length us
      → length us < max_len
      → is_plain us ≡ true
      → Refines w.users es
      → length (delete_request us rest) ≤ w.read_buffer.limit - w.read_buffer.write
      → 1 ≤ w.write_buffer.limit - w.write_buffer.write
      → (w' : PrawtosWorld H D) × (cmd_read w (pos k) (some (delete_request us rest)) got_memory
          ≡ some (cmd_write_prawtos, w'))
        × Refines w'.users (erase es us)
        × Holds w'.write_buffer ((if has es us then success else user_credentia) ∷ [])
        × Holds w'.read_buffer rest
        × (w'.selector.master_w k ≡ true)
  unfolding prawtos_is_done
  cmd_read-delete w k es us rest got_memory idle nu su plain refines room answer_room =
      let user = with_name (record w.parser.user { cmd = user_delete }) us in
      let p = user_read w.parser user (length us) in
      let (b', (s, run, hrest, changed)) =
        cmd_read-processed w k (delete_request us rest) rest got_memory false prawtos_parser_done p
          idle room
          (delete_lem rest (some false) w.parser w.parser.state idle.start idle.sized us nu su)
          refl in
      let (users, deleted, refines') =
        delete_user_lem w.users es user.uname us refines (
          write_at-HasText w.parser.user.uname us [] plain
            (omega (arith, idle.sized.uname_size))) in
      let status = if has es us then success else user_credentia in
      let fits : ltb (w.write_buffer.limit - w.write_buffer.write) 1 ≡ false = ground arith in
      let (out, answer, same, ho) = user_marshal_lem w.write_buffer [] status idle.output in
      (
        record (with_users (at_request w p b' s) (has es us) users) { write_buffer = out },
        run
            ∙ ap (flagged false) (
                delete_process w w.parser us b' out 1 s (has es us) got_memory users deleted
                  (answer ∙ ap (λ t. some (t, out)) (if_false _ _ _ fits))),
        refines',
        rw fits at ho,
        hrest,
        changed.writes_it,
      )

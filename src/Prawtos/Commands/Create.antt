-- ===== src/Prawtos/Commands/Create.antt =====
-- Requests to create a user as client/client.c sends them, whose sizes count the terminators.
use pdc_20221c.Prelude.{
  ℕ, ◌-◌, ◌≤◌, ◌<◌, ◌≡◌, refl, ap, ◌∙◌, some, Bool, true, false, not, List, [], ◌∷◌, ◌++◌,
  if◌then◌else◌, ◌==◌, pos, length, length-append, length-write_at, write_at, arith, ltb, if_false,
}
use mathlib.Core.List.{append_assoc}
use pdc_20221c.Buffer.{Buffer}
use pdc_20221c.Buffer.Contents.{Holds}
use pdc_20221c.Parser.Prawtos.{
  PrawtosParser, UserSt, prawtos_parser_done, prawtos_is_done, user_create,
}
use pdc_20221c.Parser.Prawtos.Answer.{user_marshal, user_marshal_lem}
use pdc_20221c.Parser.Prawtos.Message.{create_lem, create_request}
use pdc_20221c.Parser.Prawtos.Parts.{user_read, with_credentials}
use pdc_20221c.Parser.Field.{max_len}
use pdc_20221c.Prawtos.{
  PrawtosWorld, user_handlers, create_user, with_users, cmd_process, cmd_read, cmd_write_prawtos,
  success, user_credentia,
}
use pdc_20221c.Prawtos.Access.{is_plain, write_at-HasText}
use pdc_20221c.Prawtos.Commands.{IsIdle, at_request, cmd_read-processed, flagged}
use pdc_20221c.Selector.{FdSelector}
use pdc_20221c.Users.{UserList, add_user}
use pdc_20221c.Users.Lookup.{Entry, Refines, has}
use pdc_20221c.Users.Table.{IsArgument, add_user_lem}

-- A text with its terminator, which `add_new_user` of the client counts.
abbrev pub ended : List ℕ → List ℕ
ended text = text ++ (0 ∷ [])

-- The parser's user after such a request.
abbrev pub created : PrawtosParser → ℕ → List ℕ → List ℕ → UserSt
created p admin us ps =
    with_credentials (record p.user { cmd = user_create; admin = admin }) (ended us) (ended ps)

stored-IsArgument :
    (block text : List ℕ)
    → is_plain text ≡ true
    → length block ≡ max_len
    → length (ended text) < max_len
    → IsArgument (write_at block 0 (ended (ended text))) text (length (ended text))
stored-IsArgument block text plain size small = record {
  text_at = rw (append_assoc text (0 ∷ []) (0 ∷ [])) (
      write_at-HasText block text (0 ∷ []) plain
        (omega (arith, size, small, length-append text (0 ∷ []))));
  counts_end = omega (arith, length-append text (0 ∷ []));
  inside = omega (arith, length-write_at block 0 (ended (ended text)), size, small);
}

module _ {H D : Type 0} where
  create_process :
      (w : PrawtosWorld H D) (p : PrawtosParser) (admin : ℕ) (us ps : List ℕ) (b out : Buffer)
      (n : ℕ) (s : FdSelector H D) (added : Bool) (users : UserList)
      → add_user w.users
          (created p admin us ps).uname
          (length (ended us))
          (created p admin us ps).passwd
          (length (ended ps))
          (not (admin == 0))
          true
        ≡ some (added, users)
      → user_marshal w.write_buffer (if added then success else user_credentia) ≡ some (pos n, out)
      → cmd_process
          (at_request w (user_read p (created p admin us ps) (length (ended ps))) b s)
          true
        ≡ some (
          cmd_write_prawtos,
          record (with_users
              (at_request w (user_read p (created p admin us ps) (length (ended ps))) b s)
              added
              users) { write_buffer = out },
        )
  unfolding cmd_process user_handlers create_user
  create_process w p admin us ps b out n s added users stored answer = rw (stored, answer) refl

  -- A session that waits for a request and has room in its buffers gets a request to create a user,
  -- whose name and password have at most 253 bytes, none of them zero, and are sent with their
  -- terminators: with memory, the user is added at the end of the table if its name is new, as an
  -- administrator if the flag is 1, and else the table keeps its entries; the answer tells which.
  -- Bytes behind the request are kept, and the session waits to write.
  pub cmd_read-create :
      (w : PrawtosWorld H D) (k admin : ℕ) (es : List Entry) (us ps rest : List ℕ)
      → IsIdle w k
      → admin < 2
      → length (ended us) < max_len
      → length (ended ps) < max_len
      → is_plain us ≡ true
      → is_plain ps ≡ true
      → Refines w.users es
      → length (create_request admin (ended us) (ended ps) rest)
        ≤ w.read_buffer.limit - w.read_buffer.write
      → 1 ≤ w.write_buffer.limit - w.write_buffer.write
      → (w' : PrawtosWorld H D) × (cmd_read w
            (pos k)
            (some (create_request admin (ended us) (ended ps) rest))
            true
          ≡ some (cmd_write_prawtos, w'))
        × Refines w'.users (
            if has es us
            then es
            else es ++ (record { name = us; pass = ps; admin = not (admin == 0) } ∷ []))
        × Holds w'.write_buffer ((if not (has es us) then success else user_credentia) ∷ [])
        × Holds w'.read_buffer rest
        × (w'.selector.master_w k ≡ true)
  unfolding prawtos_is_done
  cmd_read-create w k admin es us ps rest idle flag su sp plain plain' refines room answer_room =
      let user = created w.parser admin us ps in
      let p = user_read w.parser user (length (ended ps)) in
      let (b', (s, run, hrest, changed)) =
        cmd_read-processed w k (create_request admin (ended us) (ended ps) rest) rest true false
          prawtos_parser_done p idle room
          (create_lem rest (some false) w.parser w.parser.state idle.start idle.sized (ended us)
            (omega (arith, length-append us (0 ∷ []))) su (ended ps)
            (omega (arith, length-append ps (0 ∷ []))) sp admin flag)
          refl in
      let (users, stored, refines') =
        add_user_lem w.users es user.uname user.passwd
          (record { name = us; pass = ps; admin = not (admin == 0) }) (length (ended us))
          (length (ended ps)) refines
          (stored-IsArgument w.parser.user.uname us plain idle.sized.uname_size su)
          (stored-IsArgument w.parser.user.passwd ps plain' idle.sized.passwd_size sp) in
      let fits : ltb (w.write_buffer.limit - w.write_buffer.write) 1 ≡ false = ground arith in
      let (out, answer, same, ho) =
        user_marshal_lem w.write_buffer [] (if not (has es us) then success else user_credentia)
          idle.output in
      (
        record (with_users (at_request w p b' s) (not (has es us)) users) { write_buffer = out },
        run
            ∙ ap (flagged false) (
                create_process w w.parser admin us ps b' out 1 s (not (has es us)) users stored
                  (answer ∙ ap (λ t. some (t, out)) (if_false _ _ _ fits))),
        refines',
        rw fits at ho,
        hrest,
        changed.writes_it,
      )

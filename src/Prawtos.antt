-- ===== src/Prawtos.antt =====
-- src/prawtos/auth_prawtos.c and src/prawtos/cmd_prawtos.c: the sessions of the configuration
-- protocol. The results of `recv` and `send` are arguments, and allocations succeed where no result
-- is tested; `none` is a failed assertion, an access out of bounds, or a call through a pointer that is
-- none of the table.
pub mod Access
pub mod Commands
pub mod Server
pub mod Gate
use pdc_20221c.Prelude.{
  ℕ, zero, suc, ◌+◌, ◌*◌, ◌/◌, ◌%◌, ◌^◌, Option, none, some, Bool, true, false, List, [], ◌∷◌, ◌==◌,
  not, if◌then◌else◌, ◌>>=◌, ℤ, pos, negsuc, length,
}
use pdc_20221c.Buffer.{
  Buffer, buffer_can_read, buffer_write_ptr, buffer_read_ptr, buffer_write_adv, buffer_read_adv,
  fill,
}
use pdc_20221c.Parser.Auth.{
  AuthParser, AuthState, auth_parser_init, auth_consume, auth_is_done, auth_marshal, auth_success,
  auth_bad_credentials,
}
use pdc_20221c.Parser.Prawtos.{
  PrawtosParser, PrawtosParserState, prawtos_parser_init, prawtos_consume, prawtos_is_done,
}
use pdc_20221c.Parser.Prawtos.Answer.{get_marshal, get_marshal_empty, user_marshal, quit_marshal}
use pdc_20221c.Selector.{
  FdSelector, SelectorStatus, selector_success, selector_set_interest_key, op_read, op_write,
}
use pdc_20221c.Stadistics.{
  Stadistics, get_bytes_sent, get_total_connections, get_concurrent_connections,
}
use pdc_20221c.Users.{
  UserList, user_check_credentials, add_user, delete_user, edit_user, get_all_users, get_nusers,
}

-- `enum prawtos_state`
abbrev pub auth_read_prawtos : ℕ
auth_read_prawtos = 0

abbrev pub auth_write_prawtos : ℕ
auth_write_prawtos = 1

abbrev pub cmd_read_prawtos : ℕ
cmd_read_prawtos = 2

abbrev pub cmd_write_prawtos : ℕ
cmd_write_prawtos = 3

abbrev pub done_prawtos : ℕ
done_prawtos = 4

abbrev pub error_prawtos : ℕ
error_prawtos = 5

-- `struct prawtos` with the members of its union as fields of their own, `auth_st` and
-- `cmd_prawtos_st`, and what the handlers touch: the selector, the counters and the users.
pub record PrawtosWorld (H D : Type 0) : Type 0 where
  pub auth : AuthParser
  pub auth_status : ℕ
  pub parser : PrawtosParser
  pub status : ℕ
  pub args : List ℕ
  pub nargs : ℕ
  pub client_fd : ℤ
  pub read_buffer : Buffer
  pub write_buffer : Buffer
  pub selector : FdSelector H D
  pub stadistics : Stadistics
  pub users : UserList

-- `enum prawtos_response_status`
abbrev pub success : ℕ
success = 0

abbrev pub cmd_not_supported : ℕ
cmd_not_supported = 2

abbrev pub user_credentia : ℕ
user_credentia = 5

-- The bytes of a `uint16_t` and of a `uint32_t`, the highest first; an argument is a `uint8_t`.
abbrev pub two_bytes : ℕ → List ℕ
two_bytes v = v / 2 ^ 8 % 256 ∷ v % 256 ∷ []

abbrev pub four_bytes : ℕ → List ℕ
four_bytes v = v / 2 ^ 24 % 256 ∷ v / 2 ^ 16 % 256 ∷ v / 2 ^ 8 % 256 ∷ v % 256 ∷ []

module _ {H D : Type 0} where
  unfoldable pub auth_prawtos_init : PrawtosWorld H D → PrawtosWorld H D
  unfolding auth_parser_init
  auth_prawtos_init w = record w { auth = auth_parser_init w.auth }

  unfoldable pub check_credentials : PrawtosWorld H D → Option ℕ
  unfolding user_check_credentials
  check_credentials w = user_check_credentials w.users w.auth.auth.uname w.auth.auth.passwd >>= λ r.
      some (if r == 0 then auth_success else auth_bad_credentials)

  unfoldable pub auth_prawtos_process : PrawtosWorld H D → Option (ℕ × PrawtosWorld H D)
  auth_prawtos_process w = check_credentials w >>= λ status.
      auth_marshal w.write_buffer status >>= λ (n, b). some (
        elim n [ negsuc _ ↦ error_prawtos | pos _ ↦ auth_write_prawtos ],
        record w { write_buffer = b; auth_status = status },
      )

  unfoldable pub auth_finished : PrawtosWorld H D → ℤ → Option (ℕ × PrawtosWorld H D)
  auth_finished w fd = selector_set_interest_key w.selector fd op_write >>= λ (st, s). elim st [
    | selector_success ↦ auth_prawtos_process (record w { selector = s })
    | _ ↦ some (error_prawtos, record w { selector = s })
  ]

  -- `received` is none where `recv` returned 0 or -1.
  unfoldable pub auth_prawtos_read :
      PrawtosWorld H D → ℤ → Option (List ℕ) → Option (ℕ × PrawtosWorld H D)
  auth_prawtos_read w fd none = buffer_write_ptr w.read_buffer >>= λ _. some (error_prawtos, w)
  auth_prawtos_read w fd (some bytes) = buffer_write_ptr w.read_buffer >>= λ _.
      buffer_write_adv (fill w.read_buffer bytes) (pos (length bytes)) >>= λ b.
      auth_consume b w.auth (some false) >>= λ (st, p, b', error).
      (if (auth_is_done st none).0
        then auth_finished (record w { auth = p; read_buffer = b' }) fd
        else some (auth_read_prawtos, record w { auth = p; read_buffer = b' }))
      >>= λ (ret, w').
          some (elim error [ none ↦ ret | some e ↦ if e then error_prawtos else ret ], w')

  -- Both handlers for writing, once `n` bytes are sent: with nothing left the next request is
  -- awaited.
  unfoldable pub give_out : PrawtosWorld H D → ℤ → ℕ → ℕ → Option (ℕ × PrawtosWorld H D)
  give_out w fd stay n = buffer_read_adv w.write_buffer (pos n) >>= λ b.
      if buffer_can_read b
      then some (stay, record w { write_buffer = b })
      else (selector_set_interest_key w.selector fd op_read >>= λ (st, s). some (
        elim st [ selector_success ↦ cmd_read_prawtos | _ ↦ error_prawtos ],
        record w { write_buffer = b; selector = s },
      ))

  -- `sent` is none where `send` returned -1. Without the right credentials the session ends,
  -- whatever was sent.
  unfoldable pub auth_prawtos_write :
      PrawtosWorld H D → ℤ → Option ℕ → Option (ℕ × PrawtosWorld H D)
  auth_prawtos_write w fd sent = buffer_read_ptr w.write_buffer >>= λ _.
      if w.auth_status == auth_success
      then elim sent [
        | none ↦ some (auth_write_prawtos, w)
        | some n ↦
            if n == 0 then some (auth_write_prawtos, w) else give_out w fd auth_write_prawtos n
      ]
      else some (error_prawtos, w)

  -- The first argument is the number of the others.
  abbrev pub with_args : PrawtosWorld H D → List ℕ → PrawtosWorld H D
  with_args w args = record w { args = args; nargs = 1; status = success }

  unfoldable pub bytes_sent : PrawtosWorld H D → PrawtosWorld H D
  unfolding get_bytes_sent
  bytes_sent w = with_args w (4 ∷ four_bytes (get_bytes_sent w.stadistics))

  unfoldable pub total_connections : PrawtosWorld H D → PrawtosWorld H D
  unfolding get_total_connections
  total_connections w = with_args w (2 ∷ two_bytes (get_total_connections w.stadistics))

  unfoldable pub concurrent_connections : PrawtosWorld H D → PrawtosWorld H D
  unfolding get_concurrent_connections
  concurrent_connections w = with_args w (2 ∷ two_bytes (get_concurrent_connections w.stadistics))

  -- `args_len`, and the session. `got_memory` is whether the allocations of `get_all_users` have
  -- memory; if one has not, its result is the null pointer, and the status and the arguments of the
  -- request before stay.
  unfoldable pub get_users_func : PrawtosWorld H D → Bool → Option (ℕ × PrawtosWorld H D)
  unfolding get_nusers
  get_users_func w got_memory = get_all_users w.users got_memory (λ _. got_memory) >>= λ users.
      elim users [
        | none ↦ some (0, w)
        | some listed ↦ some (
          length listed,
          record w { nargs = get_nusers w.users % 256; args = listed; status = success },
        )
      ]

  -- `get_handlers`, which has four entries, with the `args_len` that each returns
  unfoldable pub get_handlers : ℕ → PrawtosWorld H D → Bool → Option (ℕ × PrawtosWorld H D)
  unfolding bytes_sent total_connections concurrent_connections get_users_func
  get_handlers zero w got_memory = some (5, bytes_sent w)
  get_handlers (suc zero) w got_memory = some (3, total_connections w)
  get_handlers (suc (suc zero)) w got_memory = some (3, concurrent_connections w)
  get_handlers (suc (suc (suc zero))) w got_memory = get_users_func w got_memory
  get_handlers _ w got_memory = none

  -- The result of an operation on the users.
  abbrev pub with_users : PrawtosWorld H D → Bool → UserList → PrawtosWorld H D
  with_users w ans users = record w {
    users = users;
    status = if ans then success else user_credentia;
  }

  unfoldable pub create_user : PrawtosWorld H D → Bool → Option (PrawtosWorld H D)
  create_user w got_memory =
      let user = w.parser.user in
      add_user w.users user.uname user.ulen user.passwd user.plen (not (user.admin == 0)) got_memory
      >>= λ (ans, users). some (with_users w ans users)

  unfoldable pub del_user : PrawtosWorld H D → Option (PrawtosWorld H D)
  del_user w =
      delete_user w.users w.parser.user.uname >>= λ (ans, users). some (with_users w ans users)

  unfoldable pub modify_user : PrawtosWorld H D → Bool → Option (PrawtosWorld H D)
  modify_user w got_memory =
      let user = w.parser.user in
      edit_user w.users user.uname user.passwd user.plen got_memory >>= λ (ans, users).
      some (with_users w ans users)

  -- `user_handlers`, which has three entries
  unfoldable pub user_handlers : ℕ → PrawtosWorld H D → Bool → Option (PrawtosWorld H D)
  user_handlers zero w got_memory = create_user w got_memory
  user_handlers (suc zero) w got_memory = del_user w
  user_handlers (suc (suc zero)) w got_memory = modify_user w got_memory
  user_handlers _ w got_memory = none

  unfoldable pub cmd_init : PrawtosWorld H D → PrawtosWorld H D
  unfolding prawtos_parser_init
  cmd_init w = record w { parser = prawtos_parser_init w.parser }

  -- What follows an answer: -1 is a full buffer.
  abbrev pub answered : PrawtosWorld H D → ℤ × Buffer → ℕ × PrawtosWorld H D
  answered w (n, b) = (
    elim n [ negsuc _ ↦ error_prawtos | pos _ ↦ cmd_write_prawtos ],
    record w { write_buffer = b },
  )

  -- `type` of the parser selects the branch, whether the parser ended well or not.
  unfoldable pub cmd_process : PrawtosWorld H D → Bool → Option (ℕ × PrawtosWorld H D)
  cmd_process w got_memory =
      let kind = w.parser.type_byte in
      if kind == 0
      then (get_handlers w.parser.get_cmd w got_memory >>= λ (args_len, w1).
          (if args_len == 0
            then get_marshal_empty w1.write_buffer w1.status w1.parser.get_cmd w1.nargs w1.args
            else get_marshal w1.write_buffer w1.status w1.parser.get_cmd w1.nargs w1.args)
          >>= λ r. some (answered w1 r))
      else if kind == 1
      then (user_handlers w.parser.user.cmd w got_memory >>= λ w1.
          user_marshal w1.write_buffer w1.status >>= λ r. some (answered w1 r))
      else if kind == 3
      then (quit_marshal w.write_buffer success >>= λ r.
          some (answered (record w { status = success }) r))
      else some (error_prawtos, w)

  unfoldable pub cmd_finished : PrawtosWorld H D → ℤ → Bool → Option (ℕ × PrawtosWorld H D)
  cmd_finished w fd got_memory = selector_set_interest_key w.selector fd op_write >>= λ (st, s).
      elim st [
        | selector_success ↦ cmd_process (record w { selector = s }) got_memory
        | _ ↦ some (error_prawtos, record w { selector = s })
      ]

  -- `received` is none where `recv` returned 0 or -1.
  unfoldable pub cmd_read :
      PrawtosWorld H D → ℤ → Option (List ℕ) → Bool → Option (ℕ × PrawtosWorld H D)
  cmd_read w fd none got_memory = buffer_write_ptr w.read_buffer >>= λ _. some (error_prawtos, w)
  cmd_read w fd (some bytes) got_memory = buffer_write_ptr w.read_buffer >>= λ _.
      buffer_write_adv (fill w.read_buffer bytes) (pos (length bytes)) >>= λ b.
      prawtos_consume b w.parser (some false) >>= λ (st, p, b', error).
      (if (prawtos_is_done st none).0
        then cmd_finished (record w { parser = p; read_buffer = b' }) fd got_memory
        else some (cmd_read_prawtos, record w { parser = p; read_buffer = b' }))
      >>= λ (ret, w').
          some (elim error [ none ↦ ret | some e ↦ if e then error_prawtos else ret ], w')

  -- `sent` is none where `send` returned -1.
  unfoldable pub cmd_write : PrawtosWorld H D → ℤ → Option ℕ → Option (ℕ × PrawtosWorld H D)
  cmd_write w fd sent = buffer_read_ptr w.write_buffer >>= λ _.
      if w.status == cmd_not_supported then some (error_prawtos, w) else elim sent [
        | none ↦ some (cmd_write_prawtos, w)
        | some n ↦
            if n == 0
            then some (cmd_write_prawtos, w)
            else if w.parser.type_byte == 3
            then some (done_prawtos, w)
            else give_out w fd cmd_write_prawtos n
      ]

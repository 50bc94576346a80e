-- ===== src/Parser/Prawtos.antt =====
-- src/parser/prawtos_parser.c and include/parser/prawtos_parser.h: the requests of the
-- configuration protocol. A step is `none` where it would write outside `uname` or `passwd`.
pub mod Fields
pub mod Parts
pub mod Message
pub mod Answer
use pdc_20221c.Prelude.{
  ℕ, ◌+◌, ◌%◌, Option, none, some, Bool, true, false, List, [], ◌∷◌, ltb, leb, ◌==◌, if◌then◌else◌,
  ◌>>=◌, replicate,
}
use pdc_20221c.Buffer.{Buffer}
use pdc_20221c.Consume.{consume}
use pdc_20221c.Parser.Field.{max_len, store}
use pdc_20221c.Parser.Hello.{raise_flag}

-- `enum user_cmd`
abbrev pub user_create : ℕ
user_create = 0x00

abbrev pub user_delete : ℕ
user_delete = 0x01

abbrev pub user_edit : ℕ
user_edit = 0x02

-- `enum prawtos_parser_state`
pub data PrawtosParserState : Type 0 where
  prawtos_type prawtos_cmd_get prawtos_cmd_user prawtos_cmd_sniff prawtos_admin : PrawtosParserState
  prawtos_ulen prawtos_uname prawtos_plen prawtos_passwd prawtos_parser_done : PrawtosParserState
  prawtos_error prawtos_error_unsupported_type : PrawtosParserState
  prawtos_error_unsupported_cmd prawtos_error_unsupported_admin : PrawtosParserState

-- `struct user_st`
pub record UserSt : Type 0 where
  pub cmd : ℕ
  pub admin : ℕ
  pub ulen : ℕ
  pub uname : List ℕ
  pub plen : ℕ
  pub passwd : List ℕ

-- `struct prawtos_parser` with what its pointers lead to: `get_cmd` is `get->cmd`. The pointer
-- `sniff` is never followed.
pub record PrawtosParser : Type 0 where
  pub get_cmd : ℕ
  pub user : UserSt
  pub type_byte : ℕ
  pub state : PrawtosParserState
  pub n : ℕ
  pub i : ℕ

-- `type`, `n` and `i` keep what they had.
unfoldable pub prawtos_parser_init : PrawtosParser → PrawtosParser
prawtos_parser_init p = record p {
  get_cmd = 0;
  user = record {
    cmd = 0;
    admin = 0;
    ulen = 0;
    uname = replicate max_len 0;
    plen = 0;
    passwd = replicate max_len 0;
  };
  state = prawtos_type;
}

remaining_set : PrawtosParser → ℕ → PrawtosParser
remaining_set p n = record p { i = 0; n = n % 256 }

remaining_is_done : PrawtosParser → Bool
remaining_is_done p = leb p.n p.i

type : ℕ → PrawtosParser → PrawtosParser
type c p = record p {
  state =
      if c == 0x00
      then prawtos_cmd_get
      else if c == 0x01
      then prawtos_cmd_user
      else if c == 0x02
      then prawtos_cmd_sniff
      else if c == 0x03
      then prawtos_parser_done
      else prawtos_error_unsupported_type;
  type_byte = c;
}

cmd_get : ℕ → PrawtosParser → PrawtosParser
cmd_get c p =
    if leb 4 c
    then record p { state = prawtos_error_unsupported_cmd }
    else record p { get_cmd = c; state = prawtos_parser_done }

cmd_user : ℕ → PrawtosParser → PrawtosParser
cmd_user c p = record p {
  state =
      if c == user_create
      then prawtos_admin
      else if c == user_delete
      then prawtos_ulen
      else if c == user_edit
      then prawtos_ulen
      else prawtos_error_unsupported_cmd;
  user = record p.user { cmd = c };
}

-- The command is stored behind `get`, as the source does.
cmd_sniff : ℕ → PrawtosParser → PrawtosParser
cmd_sniff c p =
    if leb 2 c
    then record p { state = prawtos_error_unsupported_cmd }
    else record p { get_cmd = c; state = prawtos_parser_done }

is_admin : ℕ → PrawtosParser → PrawtosParser
is_admin c p = record p {
  state =
      if c == 0x00
      then prawtos_ulen
      else if c == 0x01
      then prawtos_ulen
      else prawtos_error_unsupported_admin;
  user = record p.user { admin = c };
}

ulen : ℕ → PrawtosParser → PrawtosParser
unfolding remaining_set
ulen c p =
    if c == 0
    then record p { state = prawtos_error }
    else record (remaining_set p c) { user = record p.user { ulen = c }; state = prawtos_uname }

uname : ℕ → PrawtosParser → Option PrawtosParser
unfolding remaining_is_done
uname c p = do
  stored ← store p.user.uname p.i c
  let p' = record p { user = record p.user { uname = stored }; i = (p.i + 1) % 256 }
  if remaining_is_done p'
      then (do
        ended ← store stored p'.i 0
        some (record p' {
          user = record p.user { uname = ended };
          state = if p.user.cmd == 0x01 then prawtos_parser_done else prawtos_plen;
        }))
      else some (record p' { state = prawtos_uname })

plen : ℕ → PrawtosParser → PrawtosParser
unfolding remaining_set
plen c p =
    if c == 0
    then record p { state = prawtos_error }
    else record (remaining_set p c) { user = record p.user { plen = c }; state = prawtos_passwd }

passwd : ℕ → PrawtosParser → Option PrawtosParser
unfolding remaining_is_done
passwd c p = do
  stored ← store p.user.passwd p.i c
  let p' = record p { user = record p.user { passwd = stored }; i = (p.i + 1) % 256 }
  if remaining_is_done p'
      then (do
        ended ← store stored p'.i 0
        some (record p' { user = record p.user { passwd = ended }; state = prawtos_parser_done }))
      else some (record p' { state = prawtos_passwd })

-- The last clause is the `default` branch, which `prawtos_error_unsupported_admin` falls into.
dispatch : PrawtosParserState → PrawtosParser → ℕ → Option PrawtosParser
unfolding type cmd_get cmd_user cmd_sniff is_admin ulen uname plen passwd
dispatch prawtos_type p c = some (type c p)
dispatch prawtos_cmd_get p c = some (cmd_get c p)
dispatch prawtos_cmd_user p c = some (cmd_user c p)
dispatch prawtos_cmd_sniff p c = some (cmd_sniff c p)
dispatch prawtos_admin p c = some (is_admin c p)
dispatch prawtos_ulen p c = some (ulen c p)
dispatch prawtos_uname p c = uname c p
dispatch prawtos_plen p c = some (plen c p)
dispatch prawtos_passwd p c = passwd c p
dispatch prawtos_parser_done p c = some p
dispatch prawtos_error p c = some p
dispatch prawtos_error_unsupported_type p c = some p
dispatch prawtos_error_unsupported_cmd p c = some p
dispatch prawtos_error_unsupported_admin p c = some (record p { state = prawtos_error })

unfoldable pub prawtos_parser_feed : PrawtosParser → ℕ → Option (PrawtosParserState × PrawtosParser)
unfolding dispatch
prawtos_parser_feed p c = do p' ← dispatch p.state p c; some (p'.state, p')

unfoldable pub prawtos_is_done : PrawtosParserState → Option Bool → Bool × Option Bool
prawtos_is_done prawtos_error errored = (true, raise_flag errored)
prawtos_is_done prawtos_error_unsupported_type errored = (true, raise_flag errored)
prawtos_is_done prawtos_error_unsupported_cmd errored = (true, raise_flag errored)
prawtos_is_done prawtos_error_unsupported_admin errored = (true, raise_flag errored)
prawtos_is_done prawtos_parser_done errored = (true, errored)
prawtos_is_done _ errored = (false, errored)

unfoldable pub prawtos_consume :
    Buffer
    → PrawtosParser
    → Option Bool
    → Option (PrawtosParserState × PrawtosParser × Buffer × Option Bool)
unfolding consume
prawtos_consume b p errored = consume prawtos_parser_feed prawtos_is_done b p p.state errored

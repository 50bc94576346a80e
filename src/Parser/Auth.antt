-- ===== src/Parser/Auth.antt =====
-- src/parser/auth_parser.c and include/parser/auth_parser.h: the user name and password request.
-- A step is `none` where it would write outside `uname` or `passwd`.
pub mod Fields
pub mod Message
pub mod Answer
use pdc_20221c.Prelude.{
  ℕ, ◌+◌, ◌%◌, Option, none, some, Bool, true, false, List, [], ◌∷◌, ltb, leb, ◌==◌, if◌then◌else◌,
  ◌>>=◌, ℤ, pos, negsuc, replicate,
}
use pdc_20221c.Buffer.{Buffer, buffer_write_ptr, buffer_write_adv, fill}
use pdc_20221c.Consume.{consume}
use pdc_20221c.Parser.Field.{max_len, store}
use pdc_20221c.Parser.Hello.{raise_flag}

abbrev pub auth_success : ℕ
auth_success = 0x00

abbrev pub auth_bad_credentials : ℕ
auth_bad_credentials = 0x03

-- `struct auth`
pub record Auth : Type 0 where
  pub ulen : ℕ
  pub uname : List ℕ
  pub plen : ℕ
  pub passwd : List ℕ

-- `enum auth_state`
pub data AuthState : Type 0 where
  auth_version auth_ulen auth_uname auth_plen auth_passwd : AuthState
  auth_done auth_error auth_error_unsupported_version : AuthState

-- `struct auth_parser`; `n` and `i` are `uint8_t`.
pub record AuthParser : Type 0 where
  pub auth : Auth
  pub state : AuthState
  pub n : ℕ
  pub i : ℕ

unfoldable pub auth_parser_init : AuthParser → AuthParser
auth_parser_init p = record {
  auth = record { ulen = 0; uname = replicate max_len 0; plen = 0; passwd = replicate max_len 0 };
  state = auth_version;
  n = 0;
  i = 0;
}

remaining_set : AuthParser → ℕ → AuthParser
remaining_set p n = record p { i = 0; n = n % 256 }

remaining_is_done : AuthParser → Bool
remaining_is_done p = leb p.n p.i

version : ℕ → AuthState
version c = if c == 0x01 then auth_ulen else auth_error_unsupported_version

ulen : ℕ → AuthParser → AuthParser
unfolding remaining_set
ulen c p =
    if c == 0
    then record p { state = auth_error }
    else record (remaining_set p c) { auth = record p.auth { ulen = c }; state = auth_uname }

uname : ℕ → AuthParser → Option AuthParser
unfolding remaining_is_done
uname c p = do
  stored ← store p.auth.uname p.i c
  let p' = record p { auth = record p.auth { uname = stored }; i = (p.i + 1) % 256 }
  if remaining_is_done p'
      then (do
        ended ← store stored p'.i 0
        some (record p' { auth = record p.auth { uname = ended }; state = auth_plen }))
      else some (record p' { state = auth_uname })

plen : ℕ → AuthParser → AuthParser
unfolding remaining_set
plen c p =
    if c == 0
    then record p { state = auth_error }
    else record (remaining_set p c) { auth = record p.auth { plen = c }; state = auth_passwd }

passwd : ℕ → AuthParser → Option AuthParser
unfolding remaining_is_done
passwd c p = do
  stored ← store p.auth.passwd p.i c
  let p' = record p { auth = record p.auth { passwd = stored }; i = (p.i + 1) % 256 }
  if remaining_is_done p'
      then (do
        ended ← store stored p'.i 0
        some (record p' { auth = record p.auth { passwd = ended }; state = auth_done }))
      else some (record p' { state = auth_passwd })

dispatch : AuthState → AuthParser → ℕ → Option AuthParser
unfolding version ulen uname plen passwd
dispatch auth_version p c = some (record p { state = version c })
dispatch auth_ulen p c = some (ulen c p)
dispatch auth_uname p c = uname c p
dispatch auth_plen p c = some (plen c p)
dispatch auth_passwd p c = passwd c p
dispatch _ p c = some (record p { state = auth_error })

unfoldable pub auth_parser_feed : AuthParser → ℕ → Option (AuthState × AuthParser)
unfolding dispatch
auth_parser_feed p c = do p' ← dispatch p.state p c; some (p'.state, p')

unfoldable pub auth_is_done : AuthState → Option Bool → Bool × Option Bool
auth_is_done auth_error error = (true, raise_flag error)
auth_is_done auth_error_unsupported_version error = (true, raise_flag error)
auth_is_done auth_done error = (true, error)
auth_is_done _ error = (false, error)

unfoldable pub auth_consume :
    Buffer → AuthParser → Option Bool → Option (AuthState × AuthParser × Buffer × Option Bool)
unfolding consume
auth_consume b p error = consume auth_parser_feed auth_is_done b p p.state error

unfoldable pub auth_marshal : Buffer → ℕ → Option (ℤ × Buffer)
unfolding buffer_write_ptr buffer_write_adv fill
auth_marshal b status = do
  (buff, n) ← buffer_write_ptr b
  if ltb n 2
      then some (negsuc 0, b)
      else do b' ← buffer_write_adv (fill b (0x01 ∷ status ∷ [])) (pos 2); some (pos 2, b')

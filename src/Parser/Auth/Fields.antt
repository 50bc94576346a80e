-- ===== src/Parser/Auth/Fields.antt =====
-- The two fields of src/parser/auth_parser.c, byte by byte.
use pdc_20221c.Prelude.{
  ℕ, ◌+◌, ◌<◌, ◌≡◌, refl, Option, none, some, Bool, List, [], ◌∷◌, ◌++◌, length, length-set, arith,
  set, write_at,
}
use pdc_20221c.Consume.{consume_bytes}
use pdc_20221c.Consume.Bytes.{consume_bytes-more, consume_bytes-done}
use pdc_20221c.Parser.Field.{max_len, store_lem, store-overflow, set-set}
use pdc_20221c.Parser.Field.Read.{field_lem}
use pdc_20221c.Parser.Auth.{
  AuthState, auth_uname, auth_plen, auth_passwd, auth_done, AuthParser, auth_parser_feed,
  auth_is_done,
}

abbrev pub parse :
    List ℕ
    → AuthParser
    → AuthState
    → Option Bool
    → Option (AuthState × AuthParser × Option Bool × List ℕ)
parse = consume_bytes auth_parser_feed auth_is_done

-- The parser with a new `uname`, and with a new `passwd`.
abbrev pub with_uname : AuthParser → List ℕ → AuthParser
with_uname p xs = record p { auth = record p.auth { uname = xs } }

abbrev pub with_passwd : AuthParser → List ℕ → AuthParser
with_passwd p xs = record p { auth = record p.auth { passwd = xs } }

uname_more :
    (c : ℕ) (p : AuthParser)
    → p.state ≡ auth_uname
    → length p.auth.uname ≡ max_len
    → p.i + 1 < p.n
    → p.n < 256
    → auth_parser_feed p c
      ≡ some (auth_uname, record (with_uname p (set p.auth.uname p.i c)) { i = p.i + 1 })
unfolding auth_parser_feed
uname_more c p e len lt small = ground (arith, store_lem p.auth.uname p.i c)

uname_last :
    (c : ℕ) (p : AuthParser)
    → p.state ≡ auth_uname
    → length p.auth.uname ≡ max_len
    → p.i + 1 ≡ p.n
    → p.n < max_len
    → auth_parser_feed p c
      ≡ some (
        auth_plen,
        record (with_uname p (write_at p.auth.uname p.i (c ∷ 0 ∷ []))) {
          i = p.n;
          state = auth_plen;
        },
      )
unfolding auth_parser_feed
uname_last c p e len lt small = ground (
  arith,
  store_lem p.auth.uname p.i c,
  store_lem (set p.auth.uname p.i c) p.n 0,
  length-set p.auth.uname p.i c,
  set-set p.auth.uname p.i p.n c 0,
)

-- The terminator of a name of 255 bytes would lie behind the array.
uname_overflow :
    (c : ℕ) (p : AuthParser)
    → p.state ≡ auth_uname
    → length p.auth.uname ≡ max_len
    → p.i + 1 ≡ p.n
    → p.n ≡ max_len
    → auth_parser_feed p c ≡ none
unfolding auth_parser_feed
uname_overflow c p e len lt full = ground (
  arith,
  store_lem p.auth.uname p.i c,
  store-overflow (set p.auth.uname p.i c) p.n 0,
  length-set p.auth.uname p.i c,
)

-- The bytes of UNAME.
pub uname_lem :
    (tail : List ℕ) (error : Option Bool) (c : ℕ) (cs : List ℕ) (p : AuthParser) (st : AuthState)
    → p.state ≡ auth_uname
    → length p.auth.uname ≡ max_len
    → p.i + length (c ∷ cs) ≡ p.n
    → p.n < max_len
    → parse (c ∷ cs ++ tail) p st error
      ≡ parse tail
          (record (with_uname p (write_at p.auth.uname p.i (c ∷ cs ++ 0 ∷ []))) {
            i = p.n;
            state = auth_plen;
          })
          auth_plen
          error
unfolding auth_is_done
uname_lem tail error c cs p st e len sum small =
    field_lem auth_parser_feed auth_is_done (λ arr i. record (with_uname p arr) { i = i })
      auth_uname p.n
      (λ arr. parse tail (record (with_uname p arr) { i = p.n; state = auth_plen }) auth_plen error)
      tail error refl
      (λ c i arr l lt. uname_more c (record (with_uname p arr) { i = i }) e l lt (omega arith))
      (λ c i arr st l eq.
        consume_bytes-more auth_parser_feed auth_is_done c tail _ _ st auth_plen error error
          (uname_last c (record (with_uname p arr) { i = i }) e l eq small) refl)
      c cs p.i p.auth.uname st len sum

-- A name of 255 bytes: its terminator would be written behind the array.
pub uname_overflow_lem :
    (tail : List ℕ) (error : Option Bool) (c : ℕ) (cs : List ℕ) (p : AuthParser) (st : AuthState)
    → p.state ≡ auth_uname
    → length p.auth.uname ≡ max_len
    → p.i + length (c ∷ cs) ≡ p.n
    → p.n ≡ max_len
    → parse (c ∷ cs ++ tail) p st error ≡ none
unfolding auth_is_done consume_bytes
uname_overflow_lem tail error c cs p st e len sum full =
    field_lem auth_parser_feed auth_is_done (λ arr i. record (with_uname p arr) { i = i })
      auth_uname p.n (λ arr. none) tail error refl
      (λ c i arr l lt. uname_more c (record (with_uname p arr) { i = i }) e l lt (omega arith))
      (λ c i arr st l eq.
        rw (uname_overflow c (record (with_uname p arr) { i = i }) e l eq full, consume_bytes))
      c cs p.i p.auth.uname st len sum

passwd_more :
    (c : ℕ) (p : AuthParser)
    → p.state ≡ auth_passwd
    → length p.auth.passwd ≡ max_len
    → p.i + 1 < p.n
    → p.n < 256
    → auth_parser_feed p c
      ≡ some (auth_passwd, record (with_passwd p (set p.auth.passwd p.i c)) { i = p.i + 1 })
unfolding auth_parser_feed
passwd_more c p e len lt small = ground (arith, store_lem p.auth.passwd p.i c)

passwd_last :
    (c : ℕ) (p : AuthParser)
    → p.state ≡ auth_passwd
    → length p.auth.passwd ≡ max_len
    → p.i + 1 ≡ p.n
    → p.n < max_len
    → auth_parser_feed p c
      ≡ some (
        auth_done,
        record (with_passwd p (write_at p.auth.passwd p.i (c ∷ 0 ∷ []))) {
          i = p.n;
          state = auth_done;
        },
      )
unfolding auth_parser_feed
passwd_last c p e len lt small = ground (
  arith,
  store_lem p.auth.passwd p.i c,
  store_lem (set p.auth.passwd p.i c) p.n 0,
  length-set p.auth.passwd p.i c,
  set-set p.auth.passwd p.i p.n c 0,
)

-- The bytes of PASSWD, and the end of the message.
pub passwd_lem :
    (tail : List ℕ) (error : Option Bool) (c : ℕ) (cs : List ℕ) (p : AuthParser) (st : AuthState)
    → p.state ≡ auth_passwd
    → length p.auth.passwd ≡ max_len
    → p.i + length (c ∷ cs) ≡ p.n
    → p.n < max_len
    → parse (c ∷ cs ++ tail) p st error
      ≡ some (
        auth_done,
        record (with_passwd p (write_at p.auth.passwd p.i (c ∷ cs ++ 0 ∷ []))) {
          i = p.n;
          state = auth_done;
        },
        error,
        tail,
      )
unfolding auth_is_done
passwd_lem tail error c cs p st e len sum small =
    field_lem auth_parser_feed auth_is_done (λ arr i. record (with_passwd p arr) { i = i })
      auth_passwd p.n
      (λ arr.
        some (auth_done, record (with_passwd p arr) { i = p.n; state = auth_done }, error, tail))
      tail error refl
      (λ c i arr l lt. passwd_more c (record (with_passwd p arr) { i = i }) e l lt (omega arith))
      (λ c i arr st l eq.
        consume_bytes-done auth_parser_feed auth_is_done c tail _ _ st auth_done error error
          (passwd_last c (record (with_passwd p arr) { i = i }) e l eq small) refl)
      c cs p.i p.auth.passwd st len sum

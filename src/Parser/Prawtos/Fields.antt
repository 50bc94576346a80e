-- ===== src/Parser/Prawtos/Fields.antt =====
-- The two text fields of src/parser/prawtos_parser.c.
use pdc_20221c.Prelude.{
  ℕ, ◌+◌, ◌<◌, ◌≡◌, refl, Option, some, Bool, List, [], ◌∷◌, ◌++◌, ◌==◌, if◌then◌else◌, length,
  length-set, arith, set, write_at,
}
use pdc_20221c.Consume.{consume_bytes}
use pdc_20221c.Consume.Bytes.{consume_bytes-more, consume_bytes-done}
use pdc_20221c.Parser.Field.{max_len, store_lem, set-set}
use pdc_20221c.Parser.Field.Read.{field_lem}
use pdc_20221c.Parser.Prawtos.{
  PrawtosParserState, PrawtosParser, prawtos_uname, prawtos_plen, prawtos_passwd,
  prawtos_parser_done, prawtos_parser_feed, prawtos_is_done, user_delete,
}

abbrev pub parse :
    List ℕ
    → PrawtosParser
    → PrawtosParserState
    → Option Bool
    → Option (PrawtosParserState × PrawtosParser × Option Bool × List ℕ)
parse = consume_bytes prawtos_parser_feed prawtos_is_done

-- The parser with a new `uname`, and with a new `passwd`.
abbrev pub with_uname : PrawtosParser → List ℕ → PrawtosParser
with_uname p xs = record p { user = record p.user { uname = xs } }

abbrev pub with_passwd : PrawtosParser → List ℕ → PrawtosParser
with_passwd p xs = record p { user = record p.user { passwd = xs } }

uname_more :
    (c : ℕ) (p : PrawtosParser)
    → p.state ≡ prawtos_uname
    → length p.user.uname ≡ max_len
    → p.i + 1 < p.n
    → p.n < 256
    → prawtos_parser_feed p c
      ≡ some (prawtos_uname, record (with_uname p (set p.user.uname p.i c)) { i = p.i + 1 })
unfolding prawtos_parser_feed
uname_more c p e len lt small = ground (arith, store_lem p.user.uname p.i c)

-- Where the parser goes behind a name.
abbrev pub after_name : ℕ → PrawtosParserState
after_name cmd = if cmd == user_delete then prawtos_parser_done else prawtos_plen

uname_last :
    (c : ℕ) (p : PrawtosParser)
    → p.state ≡ prawtos_uname
    → length p.user.uname ≡ max_len
    → p.i + 1 ≡ p.n
    → p.n < max_len
    → prawtos_parser_feed p c
      ≡ some (
        after_name p.user.cmd,
        record (with_uname p (write_at p.user.uname p.i (c ∷ 0 ∷ []))) {
          i = p.n;
          state = after_name p.user.cmd;
        },
      )
unfolding prawtos_parser_feed
uname_last c p e len lt small = ground (
  arith,
  store_lem p.user.uname p.i c,
  store_lem (set p.user.uname p.i c) p.n 0,
  length-set p.user.uname p.i c,
  set-set p.user.uname p.i p.n c 0,
)

passwd_more :
    (c : ℕ) (p : PrawtosParser)
    → p.state ≡ prawtos_passwd
    → length p.user.passwd ≡ max_len
    → p.i + 1 < p.n
    → p.n < 256
    → prawtos_parser_feed p c
      ≡ some (prawtos_passwd, record (with_passwd p (set p.user.passwd p.i c)) { i = p.i + 1 })
unfolding prawtos_parser_feed
passwd_more c p e len lt small = ground (arith, store_lem p.user.passwd p.i c)

passwd_last :
    (c : ℕ) (p : PrawtosParser)
    → p.state ≡ prawtos_passwd
    → length p.user.passwd ≡ max_len
    → p.i + 1 ≡ p.n
    → p.n < max_len
    → prawtos_parser_feed p c
      ≡ some (
        prawtos_parser_done,
        record (with_passwd p (write_at p.user.passwd p.i (c ∷ 0 ∷ []))) {
          i = p.n;
          state = prawtos_parser_done;
        },
      )
unfolding prawtos_parser_feed
passwd_last c p e len lt small = ground (
  arith,
  store_lem p.user.passwd p.i c,
  store_lem (set p.user.passwd p.i c) p.n 0,
  length-set p.user.passwd p.i c,
  set-set p.user.passwd p.i p.n c 0,
)

module _ (tail : List ℕ) (errored : Option Bool) where
  -- A name that is not the end of the request.
  pub uname_lem :
      (c : ℕ) (cs : List ℕ) (p : PrawtosParser) (st : PrawtosParserState)
      → p.state ≡ prawtos_uname
      → length p.user.uname ≡ max_len
      → p.i + length (c ∷ cs) ≡ p.n
      → p.n < max_len
      → after_name p.user.cmd ≡ prawtos_plen
      → parse (c ∷ cs ++ tail) p st errored
        ≡ parse tail
            (record (with_uname p (write_at p.user.uname p.i (c ∷ cs ++ 0 ∷ []))) {
              i = p.n;
              state = prawtos_plen;
            })
            prawtos_plen
            errored
  unfolding prawtos_is_done
  uname_lem c cs p st e len sum small k =
      field_lem prawtos_parser_feed prawtos_is_done (λ arr i. record (with_uname p arr) { i = i })
        prawtos_uname p.n
        (λ arr.
          parse tail (record (with_uname p arr) { i = p.n; state = prawtos_plen }) prawtos_plen
            errored)
        tail errored refl
        (λ c i arr l lt. uname_more c (record (with_uname p arr) { i = i }) e l lt (omega arith))
        (λ c i arr st l eq.
          consume_bytes-more prawtos_parser_feed prawtos_is_done c tail _ _ st prawtos_plen errored
            errored (rw k at (uname_last c (record (with_uname p arr) { i = i }) e l eq small))
            refl)
        c cs p.i p.user.uname st len sum

  -- The name of a delete request ends it.
  pub uname_done_lem :
      (c : ℕ) (cs : List ℕ) (p : PrawtosParser) (st : PrawtosParserState)
      → p.state ≡ prawtos_uname
      → length p.user.uname ≡ max_len
      → p.i + length (c ∷ cs) ≡ p.n
      → p.n < max_len
      → after_name p.user.cmd ≡ prawtos_parser_done
      → parse (c ∷ cs ++ tail) p st errored
        ≡ some (
          prawtos_parser_done,
          record (with_uname p (write_at p.user.uname p.i (c ∷ cs ++ 0 ∷ []))) {
            i = p.n;
            state = prawtos_parser_done;
          },
          errored,
          tail,
        )
  unfolding prawtos_is_done
  uname_done_lem c cs p st e len sum small k =
      field_lem prawtos_parser_feed prawtos_is_done (λ arr i. record (with_uname p arr) { i = i })
        prawtos_uname p.n
        (λ arr. some (
          prawtos_parser_done,
          record (with_uname p arr) { i = p.n; state = prawtos_parser_done },
          errored,
          tail,
        ))
        tail errored refl
        (λ c i arr l lt. uname_more c (record (with_uname p arr) { i = i }) e l lt (omega arith))
        (λ c i arr st l eq.
          consume_bytes-done prawtos_parser_feed prawtos_is_done c tail _ _ st prawtos_parser_done
            errored errored
            (rw k at (uname_last c (record (with_uname p arr) { i = i }) e l eq small)) refl)
        c cs p.i p.user.uname st len sum

  -- The password ends the request.
  pub passwd_lem :
      (c : ℕ) (cs : List ℕ) (p : PrawtosParser) (st : PrawtosParserState)
      → p.state ≡ prawtos_passwd
      → length p.user.passwd ≡ max_len
      → p.i + length (c ∷ cs) ≡ p.n
      → p.n < max_len
      → parse (c ∷ cs ++ tail) p st errored
        ≡ some (
          prawtos_parser_done,
          record (with_passwd p (write_at p.user.passwd p.i (c ∷ cs ++ 0 ∷ []))) {
            i = p.n;
            state = prawtos_parser_done;
          },
          errored,
          tail,
        )
  unfolding prawtos_is_done
  passwd_lem c cs p st e len sum small =
      field_lem prawtos_parser_feed prawtos_is_done (λ arr i. record (with_passwd p arr) { i = i })
        prawtos_passwd p.n
        (λ arr. some (
          prawtos_parser_done,
          record (with_passwd p arr) { i = p.n; state = prawtos_parser_done },
          errored,
          tail,
        ))
        tail errored refl
        (λ c i arr l lt. passwd_more c (record (with_passwd p arr) { i = i }) e l lt (omega arith))
        (λ c i arr st l eq.
          consume_bytes-done prawtos_parser_feed prawtos_is_done c tail _ _ st prawtos_parser_done
            errored errored (passwd_last c (record (with_passwd p arr) { i = i }) e l eq small)
            refl)
        c cs p.i p.user.passwd st len sum

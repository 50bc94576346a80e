-- ===== src/Parser/Prawtos/Parts.antt =====
-- The parts that the user requests of src/parser/prawtos_parser.c share.
use pdc_20221c.Prelude.{
  ℕ, suc, ◌<◌, ◌≡◌, refl, Option, some, Bool, List, [], ◌∷◌, ◌++◌, length, arith, ◌∙◌, write_at,
  if◌then◌else◌, ◌==◌,
}
use pdc_20221c.Consume.Bytes.{consume_bytes-more}
use pdc_20221c.Parser.Field.{max_len}
use pdc_20221c.Parser.Prawtos.{
  UserSt, PrawtosParserState, PrawtosParser, prawtos_type, prawtos_cmd_user, prawtos_admin,
  prawtos_ulen, prawtos_uname, prawtos_plen, prawtos_passwd, prawtos_parser_done,
  prawtos_parser_feed, prawtos_is_done, user_create,
}
use pdc_20221c.Parser.Prawtos.Fields.{parse, after_name, uname_lem, uname_done_lem, passwd_lem}

-- The arrays have their declared size.
pub record IsSized (p : PrawtosParser) : Type 0 where
  pub uname_size : length p.user.uname ≡ max_len
  pub passwd_size : length p.user.passwd ≡ max_len

ulen_lem :
    (k : ℕ) (p : PrawtosParser)
    → p.state ≡ prawtos_ulen
    → suc k < 256
    → prawtos_parser_feed p (suc k)
      ≡ some (
        prawtos_uname,
        record p { user = record p.user { ulen = suc k }; state = prawtos_uname; n = suc k; i = 0 },
      )
unfolding prawtos_parser_feed
ulen_lem k p e lt = ground arith

plen_lem :
    (k : ℕ) (p : PrawtosParser)
    → p.state ≡ prawtos_plen
    → suc k < 256
    → prawtos_parser_feed p (suc k)
      ≡ some (
        prawtos_passwd,
        record p {
          user = record p.user { plen = suc k };
          state = prawtos_passwd;
          n = suc k;
          i = 0;
        },
      )
unfolding prawtos_parser_feed
plen_lem k p e lt = ground arith

type_user_lem :
    (p : PrawtosParser)
    → p.state ≡ prawtos_type
    → prawtos_parser_feed p 0x01
      ≡ some (prawtos_cmd_user, record p { type_byte = 0x01; state = prawtos_cmd_user })
unfolding prawtos_parser_feed
type_user_lem p e = ground arith

-- Where the parser goes behind the command of a user request.
abbrev pub after_cmd : ℕ → PrawtosParserState
after_cmd c = if c == user_create then prawtos_admin else prawtos_ulen

cmd_user_lem :
    (c : ℕ) (p : PrawtosParser)
    → p.state ≡ prawtos_cmd_user
    → c < 3
    → prawtos_parser_feed p c
      ≡ some (after_cmd c, record p { user = record p.user { cmd = c }; state = after_cmd c })
unfolding prawtos_parser_feed
cmd_user_lem c p e lt = ground arith

pub admin_lem :
    (a : ℕ) (p : PrawtosParser)
    → p.state ≡ prawtos_admin
    → a < 2
    → prawtos_parser_feed p a
      ≡ some (prawtos_ulen, record p { user = record p.user { admin = a }; state = prawtos_ulen })
unfolding prawtos_parser_feed
admin_lem a p e lt = ground arith

-- The user that a request describes, stored over the one before.
abbrev pub with_name : UserSt → List ℕ → UserSt
with_name u us = record u { ulen = length us; uname = write_at u.uname 0 (us ++ 0 ∷ []) }

abbrev pub with_credentials : UserSt → List ℕ → List ℕ → UserSt
with_credentials u us ps = record u {
  ulen = length us;
  uname = write_at u.uname 0 (us ++ 0 ∷ []);
  plen = length ps;
  passwd = write_at u.passwd 0 (ps ++ 0 ∷ []);
}

-- The parser that has read a user request whose last field has `k` bytes.
abbrev pub user_read : PrawtosParser → UserSt → ℕ → PrawtosParser
user_read p u k = record p { user = u; type_byte = 0x01; state = prawtos_parser_done; n = k; i = k }

module _ (rest : List ℕ) (errored : Option Bool) where
  pub credentials_lem :
      (us ps : List ℕ) (p : PrawtosParser) (st : PrawtosParserState)
      → p.state ≡ prawtos_ulen
      → p.type_byte ≡ 0x01
      → IsSized p
      → after_name p.user.cmd ≡ prawtos_plen
      → 0 < length us
      → length us < max_len
      → 0 < length ps
      → length ps < max_len
      → parse ((length us ∷ us) ++ ((length ps ∷ ps) ++ rest)) p st errored
        ≡ some (
          prawtos_parser_done,
          record (user_read p (with_credentials p.user us ps) (length ps)) {
            type_byte = p.type_byte;
          },
          errored,
          rest,
        )
  unfolding prawtos_is_done
  credentials_lem [] ps p st e t z k u0 u1 p0 p1 = absurd (omega arith)
  credentials_lem (u ∷ us) [] p st e t z k u0 u1 p0 p1 = absurd (omega arith)
  credentials_lem (u ∷ us) (c ∷ cs) p st e t z k u0 u1 p0 p1 =
      let tail = (length (c ∷ cs) ∷ c ∷ cs) ++ rest in
      consume_bytes-more prawtos_parser_feed prawtos_is_done (length (u ∷ us)) (u ∷ us ++ tail) p _
        st prawtos_uname errored errored (ulen_lem (length us) p e (omega arith)) refl
      ∙ uname_lem tail errored u us _ prawtos_uname refl z.uname_size (omega arith) u1 k
      ∙ consume_bytes-more prawtos_parser_feed prawtos_is_done (length (c ∷ cs)) (c ∷ cs ++ rest) _
          _ prawtos_plen prawtos_passwd errored errored (plen_lem (length cs) _ refl (omega arith))
          refl
      ∙ passwd_lem rest errored c cs _ prawtos_passwd refl z.passwd_size (omega arith) p1

  pub name_lem :
      (us : List ℕ) (p : PrawtosParser) (st : PrawtosParserState)
      → p.state ≡ prawtos_ulen
      → IsSized p
      → after_name p.user.cmd ≡ prawtos_parser_done
      → 0 < length us
      → length us < max_len
      → parse ((length us ∷ us) ++ rest) p st errored
        ≡ some (
          prawtos_parser_done,
          record (user_read p (with_name p.user us) (length us)) { type_byte = p.type_byte },
          errored,
          rest,
        )
  unfolding prawtos_is_done
  name_lem [] p st e z k u0 u1 = absurd (omega arith)
  name_lem (u ∷ us) p st e z k u0 u1 =
      consume_bytes-more prawtos_parser_feed prawtos_is_done (length (u ∷ us)) (u ∷ us ++ rest) p _
        st prawtos_uname errored errored (ulen_lem (length us) p e (omega arith)) refl
      ∙ uname_done_lem rest errored u us _ prawtos_uname refl z.uname_size (omega arith) u1 k

  -- The first two bytes of a user request.
  pub user_header_lem :
      (c : ℕ) (tail : List ℕ) (p : PrawtosParser) (st : PrawtosParserState)
      → p.state ≡ prawtos_type
      → c < 3
      → parse (0x01 ∷ c ∷ tail) p st errored
        ≡ parse tail
            (record p { type_byte = 0x01; user = record p.user { cmd = c }; state = after_cmd c })
            (after_cmd c)
            errored
  unfolding prawtos_is_done
  user_header_lem c tail p st e lt =
      consume_bytes-more prawtos_parser_feed prawtos_is_done 0x01 (c ∷ tail) p _ st prawtos_cmd_user
        errored errored (type_user_lem p e) refl
      ∙ consume_bytes-more prawtos_parser_feed prawtos_is_done c tail _ _ prawtos_cmd_user
          (after_cmd c) errored errored (cmd_user_lem c _ refl lt) (ground arith)

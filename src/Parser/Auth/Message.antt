-- ===== src/Parser/Auth/Message.antt =====
-- What src/parser/auth_parser.c makes of a user name and password request.
use pdc_20221c.Prelude.{
  ℕ, suc, ◌<◌, ◌≡◌, refl, Option, none, some, Bool, List, [], ◌∷◌, ◌++◌, length, arith, ◌∙◌,
  write_at,
}
use pdc_20221c.Buffer.{Buffer}
use pdc_20221c.Buffer.Contents.{Holds}
use pdc_20221c.Consume.{consume_bytes}
use pdc_20221c.Consume.Bytes.{consume_bytes-more}
use pdc_20221c.Consume.Refine.{consume-Agrees}
use pdc_20221c.Parser.Field.{max_len}
use pdc_20221c.Parser.Hello.{raise_flag}
use pdc_20221c.Parser.Auth.{
  AuthState, auth_version, auth_ulen, auth_uname, auth_plen, auth_passwd, auth_done, auth_error,
  AuthParser, auth_parser_feed, auth_is_done, auth_consume,
}
use pdc_20221c.Parser.Auth.Fields.{parse, uname_lem, passwd_lem, uname_overflow_lem}

version_lem :
    (p : AuthParser)
    → p.state ≡ auth_version
    → auth_parser_feed p 0x01 ≡ some (auth_ulen, record p { state = auth_ulen })
unfolding auth_parser_feed
version_lem p e = ground arith

ulen_lem :
    (k : ℕ) (p : AuthParser)
    → p.state ≡ auth_ulen
    → suc k < 256
    → auth_parser_feed p (suc k)
      ≡ some (
        auth_uname,
        record p { auth = record p.auth { ulen = suc k }; state = auth_uname; n = suc k; i = 0 },
      )
unfolding auth_parser_feed
ulen_lem k p e lt = ground arith

plen_lem :
    (k : ℕ) (p : AuthParser)
    → p.state ≡ auth_plen
    → suc k < 256
    → auth_parser_feed p (suc k)
      ≡ some (
        auth_passwd,
        record p { auth = record p.auth { plen = suc k }; state = auth_passwd; n = suc k; i = 0 },
      )
unfolding auth_parser_feed
plen_lem k p e lt = ground arith

-- The arrays have their declared size.
pub record IsSized (p : AuthParser) : Type 0 where
  pub uname_size : length p.auth.uname ≡ max_len
  pub passwd_size : length p.auth.passwd ≡ max_len

-- VER ULEN UNAME PLEN PASSWD, and what follows
abbrev pub auth_message : List ℕ → List ℕ → List ℕ → List ℕ
auth_message us ps rest = (0x01 ∷ length us ∷ us) ++ ((length ps ∷ ps) ++ rest)

-- The parser that has read a message.
abbrev pub after_message : AuthParser → List ℕ → List ℕ → AuthParser
after_message p us ps = record p {
  auth = record {
    ulen = length us;
    uname = write_at p.auth.uname 0 (us ++ 0 ∷ []);
    plen = length ps;
    passwd = write_at p.auth.passwd 0 (ps ++ 0 ∷ []);
  };
  state = auth_done;
  n = length ps;
  i = length ps;
}

-- A request whose fields have 1 to 254 bytes ends the parser in `auth_done`, whatever follows it:
-- both fields are stored with a terminator, their lengths are set, and the flag is not raised.
pub message_lem :
    (us ps rest : List ℕ) (p : AuthParser) (st : AuthState) (error : Option Bool)
    → p.state ≡ auth_version
    → IsSized p
    → 0 < length us
    → length us < max_len
    → 0 < length ps
    → length ps < max_len
    → parse (auth_message us ps rest) p st error
      ≡ some (auth_done, after_message p us ps, error, rest)
unfolding auth_is_done
message_lem [] ps rest p st error e z u0 u1 p0 p1 = absurd (omega arith)
message_lem (u ∷ us) [] rest p st error e z u0 u1 p0 p1 = absurd (omega arith)
message_lem (u ∷ us) (c ∷ cs) rest p st error e z u0 u1 p0 p1 =
    let tail = (length (c ∷ cs) ∷ c ∷ cs) ++ rest in
    consume_bytes-more auth_parser_feed auth_is_done 0x01 (length (u ∷ us) ∷ (u ∷ us ++ tail)) p _
      st auth_ulen error error (version_lem p e) refl
    ∙ consume_bytes-more auth_parser_feed auth_is_done (length (u ∷ us)) (u ∷ us ++ tail) _ _
        auth_ulen auth_uname error error (ulen_lem (length us) _ refl (omega arith)) refl
    ∙ uname_lem tail error u us _ auth_uname refl z.uname_size (omega arith) u1
    ∙ consume_bytes-more auth_parser_feed auth_is_done (length (c ∷ cs)) (c ∷ cs ++ rest) _ _
        auth_plen auth_passwd error error (plen_lem (length cs) _ refl (omega arith)) refl
    ∙ passwd_lem rest error c cs _ auth_passwd refl z.passwd_size (omega arith) p1

-- A name of 255 bytes, which the protocol allows, makes the parser write outside `uname`.
pub message_overflow :
    (us rest : List ℕ) (p : AuthParser) (st : AuthState) (error : Option Bool)
    → p.state ≡ auth_version
    → IsSized p
    → length us ≡ max_len
    → parse ((0x01 ∷ length us ∷ us) ++ rest) p st error ≡ none
unfolding auth_is_done
message_overflow [] rest p st error e z full = absurd (omega arith)
message_overflow (u ∷ us) rest p st error e z full =
    consume_bytes-more auth_parser_feed auth_is_done 0x01 (length (u ∷ us) ∷ (u ∷ us ++ rest)) p _
      st auth_ulen error error (version_lem p e) refl
    ∙ consume_bytes-more auth_parser_feed auth_is_done (length (u ∷ us)) (u ∷ us ++ rest) _ _
        auth_ulen auth_uname error error (ulen_lem (length us) _ refl (omega arith)) refl
    ∙ uname_overflow_lem rest error u us _ auth_uname refl z.uname_size (omega arith) full

-- `auth_consume` over a buffer that holds a request whose two fields have 1 to 254 bytes, and perhaps
-- more bytes: no assertion fails, both fields are stored with a terminator, their lengths are set,
-- the flag is not raised, and the buffer holds what follows the request.
pub auth_consume-message :
    (b : Buffer) (p : AuthParser) (us ps rest : List ℕ) (error : Option Bool)
    → p.state ≡ auth_version
    → IsSized p
    → 0 < length us
    → length us < max_len
    → 0 < length ps
    → length ps < max_len
    → Holds b (auth_message us ps rest)
    → (b' : Buffer) × (auth_consume b p error ≡ some (auth_done, after_message p us ps, b', error))
      × Holds b' rest
      × (b'.limit ≡ b.limit)
unfolding auth_consume
auth_consume-message b p us ps rest error e z u0 u1 p0 p1 h =
    rw (message_lem us ps rest p p.state error e z u0 u1 p0 p1) at
      (consume-Agrees auth_parser_feed auth_is_done _ b p p.state error h)

-- A request with a name of 255 bytes, which the protocol allows, makes `auth_consume` write outside
-- the array `uname`.
pub auth_consume-overflow :
    (b : Buffer) (p : AuthParser) (us rest : List ℕ) (error : Option Bool)
    → p.state ≡ auth_version
    → IsSized p
    → length us ≡ max_len
    → Holds b ((0x01 ∷ length us ∷ us) ++ rest)
    → auth_consume b p error ≡ none
unfolding auth_consume
auth_consume-overflow b p us rest error e z full h =
    rw (message_overflow us rest p p.state error e z full) at
      (consume-Agrees auth_parser_feed auth_is_done _ b p p.state error h)

-- A length of 0 ends the parser in the error state and raises the flag, and so does every further
-- byte.
pub ulen_zero :
    (cs : List ℕ) (p : AuthParser) (st : AuthState) (error : Option Bool)
    → p.state ≡ auth_ulen
    → parse (0 ∷ cs) p st error
      ≡ some (auth_error, record p { state = auth_error }, raise_flag error, cs)
unfolding auth_is_done auth_parser_feed consume_bytes
ulen_zero cs p st error e = ground arith

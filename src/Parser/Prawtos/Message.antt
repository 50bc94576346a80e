-- ===== src/Parser/Prawtos/Message.antt =====
-- What src/parser/prawtos_parser.c makes of the requests of the configuration protocol.
use pdc_20221c.Prelude.{
  ℕ, ◌<◌, ◌≡◌, refl, Option, some, Bool, List, ◌∷◌, ◌++◌, length, arith, ◌∙◌, if◌then◌else◌, ltb,
}
use pdc_20221c.Buffer.{Buffer}
use pdc_20221c.Buffer.Contents.{Holds}
use pdc_20221c.Consume.{consume_bytes}
use pdc_20221c.Consume.Bytes.{consume_bytes-more}
use pdc_20221c.Consume.Refine.{consume-Agrees}
use pdc_20221c.Parser.Field.{max_len}
use pdc_20221c.Parser.Hello.{raise_flag}
use pdc_20221c.Parser.Prawtos.{
  PrawtosParserState, PrawtosParser, prawtos_type, prawtos_admin, prawtos_ulen, prawtos_parser_done,
  prawtos_parser_feed, prawtos_is_done, prawtos_consume, user_create, user_delete, user_edit,
  prawtos_error_unsupported_cmd, prawtos_error_unsupported_type,
}
use pdc_20221c.Parser.Prawtos.Fields.{parse}
use pdc_20221c.Parser.Prawtos.Parts.{
  IsSized, with_name, with_credentials, user_read, credentials_lem, name_lem, user_header_lem,
  admin_lem,
}

-- TYP CMD ADMIN ULEN UNAME PLEN PASSWD, and what follows
abbrev pub create_request : ℕ → List ℕ → List ℕ → List ℕ → List ℕ
create_request admin us ps rest =
    0x01 ∷ user_create ∷ admin ∷ ((length us ∷ us) ++ ((length ps ∷ ps) ++ rest))

-- TYP CMD ULEN UNAME PLEN PASSWD
abbrev pub edit_request : List ℕ → List ℕ → List ℕ → List ℕ
edit_request us ps rest = 0x01 ∷ user_edit ∷ ((length us ∷ us) ++ ((length ps ∷ ps) ++ rest))

-- TYP CMD ULEN UNAME
abbrev pub delete_request : List ℕ → List ℕ → List ℕ
delete_request us rest = 0x01 ∷ user_delete ∷ ((length us ∷ us) ++ rest)

module _ (rest : List ℕ) (errored : Option Bool) (p : PrawtosParser) (st : PrawtosParserState)
    (e : p.state ≡ prawtos_type) where
  -- A GET request is accepted for the commands 0 to 3, and refused for any other.
  pub get_lem :
      (c : ℕ)
      → parse (0x00 ∷ c ∷ rest) p st errored ≡ (
          if ltb c 4
          then some (
            prawtos_parser_done,
            record p { type_byte = 0x00; get_cmd = c; state = prawtos_parser_done },
            errored,
            rest,
          )
          else some (
            prawtos_error_unsupported_cmd,
            record p { type_byte = 0x00; state = prawtos_error_unsupported_cmd },
            raise_flag errored,
            rest,
          ))
  unfolding prawtos_is_done prawtos_parser_feed consume_bytes
  get_lem c = ground arith

  -- QUIT is a message of one byte.
  pub quit_lem :
      parse (0x03 ∷ rest) p st errored
      ≡ some (
        prawtos_parser_done,
        record p { type_byte = 0x03; state = prawtos_parser_done },
        errored,
        rest,
      )
  unfolding prawtos_is_done prawtos_parser_feed consume_bytes
  quit_lem = ground arith

  -- An unknown type is refused.
  pub type_error :
      (t : ℕ)
      → 3 < t
      → parse (t ∷ rest) p st errored
        ≡ some (
          prawtos_error_unsupported_type,
          record p { type_byte = t; state = prawtos_error_unsupported_type },
          raise_flag errored,
          rest,
        )
  unfolding prawtos_is_done prawtos_parser_feed consume_bytes
  type_error t lt = ground arith

  module _ (z : IsSized p) (us : List ℕ) (u0 : 0 < length us) (u1 : length us < max_len) where
    pub delete_lem :
        parse (delete_request us rest) p st errored
        ≡ some (
          prawtos_parser_done,
          user_read p (with_name (record p.user { cmd = user_delete }) us) (length us),
          errored,
          rest,
        )
    delete_lem =
        user_header_lem rest errored user_delete ((length us ∷ us) ++ rest) p st e (omega arith)
        ∙ name_lem rest errored us _ prawtos_ulen refl
            (record { uname_size = z.uname_size; passwd_size = z.passwd_size }) refl u0 u1

    module _ (ps : List ℕ) (p0 : 0 < length ps) (p1 : length ps < max_len) where
      pub edit_lem :
          parse (edit_request us ps rest) p st errored
          ≡ some (
            prawtos_parser_done,
            user_read p (with_credentials (record p.user { cmd = user_edit }) us ps) (length ps),
            errored,
            rest,
          )
      edit_lem =
          user_header_lem rest errored user_edit ((length us ∷ us) ++ ((length ps ∷ ps) ++ rest)) p
            st e (omega arith)
          ∙ credentials_lem rest errored us ps _ prawtos_ulen refl refl
              (record { uname_size = z.uname_size; passwd_size = z.passwd_size }) refl u0 u1 p0 p1

      pub create_lem :
          (admin : ℕ)
          → admin < 2
          → parse (create_request admin us ps rest) p st errored
            ≡ some (
              prawtos_parser_done,
              user_read p
                  (with_credentials (record p.user { cmd = user_create; admin = admin }) us ps)
                  (length ps),
              errored,
              rest,
            )
      unfolding prawtos_is_done
      create_lem admin lt =
          let tail = (length us ∷ us) ++ ((length ps ∷ ps) ++ rest) in
          user_header_lem rest errored user_create (admin ∷ tail) p st e (omega arith)
          ∙ consume_bytes-more prawtos_parser_feed prawtos_is_done admin tail _ _ prawtos_admin
              prawtos_ulen errored errored (admin_lem admin _ refl lt) refl
          ∙ credentials_lem rest errored us ps _ prawtos_ulen refl refl
              (record { uname_size = z.uname_size; passwd_size = z.passwd_size }) refl u0 u1 p0 p1

-- `prawtos_consume` over a buffer that holds a request to create a user, with fields of 1 to 254
-- bytes, and perhaps more: no assertion fails, the user is stored with the admin flag, and the
-- buffer holds what follows the request.
pub prawtos_consume-create :
    (b : Buffer) (p : PrawtosParser) (admin : ℕ) (us ps rest : List ℕ) (errored : Option Bool)
    → p.state ≡ prawtos_type
    → IsSized p
    → 0 < length us
    → length us < max_len
    → 0 < length ps
    → length ps < max_len
    → admin < 2
    → Holds b (create_request admin us ps rest)
    → (b' : Buffer) × (prawtos_consume b p errored
        ≡ some (
          prawtos_parser_done,
          user_read p
              (with_credentials (record p.user { cmd = user_create; admin = admin }) us ps)
              (length ps),
          b',
          errored,
        ))
      × Holds b' rest
      × (b'.limit ≡ b.limit)
unfolding prawtos_consume
prawtos_consume-create b p admin us ps rest errored e z u0 u1 p0 p1 lt h =
    rw (create_lem rest errored p p.state e z us u0 u1 ps p0 p1 admin lt) at
      (consume-Agrees prawtos_parser_feed prawtos_is_done _ b p p.state errored h)

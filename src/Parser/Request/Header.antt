-- ===== src/Parser/Request/Header.antt =====
-- The steps of src/parser/request_parser.c up to the address.
use pdc_20221c.Prelude.{
  ℕ, suc, ◌<◌, ◌≡◌, ◌≢◌, refl, Option, none, some, Bool, List, ◌∷◌, arith, ◌∙◌, set,
}
use pdc_20221c.Consume.Bytes.{consume_bytes-more}
use pdc_20221c.Parser.Request.{
  RequestState, RequestParser, request_version, request_cmd, request_rvs, request_atype,
  request_dstaddr_fqdn, request_dstaddr, request_parser_feed, request_is_done, addr_slot, prepared,
  request_error_unsupported_atype, socks_addr_type_domain,
}
use pdc_20221c.Parser.Request.Address.{parse, with_addr}

-- The parser behind VER, CMD and RSV.
abbrev pub at_type : RequestParser → ℕ → RequestParser
at_type p c = record p { request = record p.request { cmd = c }; state = request_atype }

-- The same behind ATYP.
abbrev pub with_type : RequestParser → ℕ → ℕ → RequestParser
with_type p c t = record p {
  request = record p.request {
    cmd = c;
    dest_addr_type = t;
    dest_addr = prepared t p.request.dest_addr;
  };
}

version_lem :
    (p : RequestParser)
    → p.state ≡ request_version
    → request_parser_feed p 0x05 ≡ some (request_cmd, record p { state = request_cmd })
unfolding request_parser_feed
version_lem p e = ground arith

cmd_lem :
    (c : ℕ) (p : RequestParser)
    → p.state ≡ request_cmd
    → request_parser_feed p c
      ≡ some (request_rvs, record p { request = record p.request { cmd = c }; state = request_rvs })
unfolding request_parser_feed
cmd_lem c p e = ground arith

rsv_lem :
    (c : ℕ) (p : RequestParser)
    → p.state ≡ request_rvs
    → request_parser_feed p c ≡ some (request_atype, record p { state = request_atype })
unfolding request_parser_feed
rsv_lem c p e = ground arith

module _ (tail : List ℕ) (errored : Option Bool) where
  pub header_lem :
      (c r : ℕ) (p : RequestParser) (st : RequestState)
      → p.state ≡ request_version
      → parse (0x05 ∷ c ∷ r ∷ tail) p st errored ≡ parse tail (at_type p c) request_atype errored
  unfolding request_is_done
  header_lem c r p st e =
      consume_bytes-more request_parser_feed request_is_done 0x05 (c ∷ r ∷ tail) p _ st request_cmd
        errored errored (version_lem p e) refl
      ∙ consume_bytes-more request_parser_feed request_is_done c (r ∷ tail) _ _ request_cmd
          request_rvs errored errored (cmd_lem c _ refl) refl
      ∙ consume_bytes-more request_parser_feed request_is_done r tail _ _ request_rvs request_atype
          errored errored (rsv_lem r _ refl) refl

pub fixed_type_lem :
    (t base size : ℕ) (p : RequestParser)
    → p.state ≡ request_atype
    → addr_slot t ≡ some (base, size)
    → t ≢ socks_addr_type_domain
    → request_parser_feed p t
      ≡ some (
        request_dstaddr,
        record (with_type p p.request.cmd t) { state = request_dstaddr; n = size; i = 0 },
      )
unfolding request_parser_feed
fixed_type_lem t base size p e slot ne = ground arith

pub domain_type_lem :
    (p : RequestParser)
    → p.state ≡ request_atype
    → request_parser_feed p socks_addr_type_domain
      ≡ some (
        request_dstaddr_fqdn,
        record (with_type p p.request.cmd socks_addr_type_domain) { state = request_dstaddr_fqdn },
      )
unfolding request_parser_feed
domain_type_lem p e = ground arith

pub name_length_lem :
    (n : ℕ) (p : RequestParser)
    → p.state ≡ request_dstaddr_fqdn
    → suc n < 256
    → request_parser_feed p (suc n)
      ≡ some (
        request_dstaddr,
        record (with_addr p (set p.request.dest_addr n 0)) {
          state = request_dstaddr;
          n = suc n;
          i = 0;
        },
      )
unfolding request_parser_feed
name_length_lem n p e lt = ground arith

pub bad_type_lem :
    (t : ℕ) (p : RequestParser)
    → p.state ≡ request_atype
    → addr_slot t ≡ none
    → request_parser_feed p t
      ≡ some (
        request_error_unsupported_atype,
        record (with_type p p.request.cmd t) { state = request_error_unsupported_atype },
      )
unfolding request_parser_feed
bad_type_lem t p e slot = ground arith

pub slot_sizes : (t base size : ℕ) → addr_slot t ≡ some (base, size) → (0 < size) × (size < 256)
slot_sizes t base size slot = ground arith

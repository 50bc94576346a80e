-- ===== src/Parser/Request/Message.antt =====
-- What src/parser/request_parser.c makes of a SOCKS5 request.
use pdc_20221c.Prelude.{
  ℕ, ◌-◌, ◌<◌, ◌≡◌, ◌≢◌, refl, ap, Option, none, some, Bool, List, [], ◌∷◌, ◌++◌, length, arith,
  ◌∙◌, set, write_at,
}
use pdc_20221c.Buffer.{Buffer}
use pdc_20221c.Buffer.Contents.{Holds}
use pdc_20221c.Consume.{consume_bytes}
use pdc_20221c.Consume.Bytes.{consume_bytes-more, consume_bytes-done}
use pdc_20221c.Consume.Refine.{consume-Agrees}
use pdc_20221c.Parser.Hello.{raise_flag}
use pdc_20221c.Parser.Request.{
  RequestState, RequestParser, request_version, request_atype, request_dstaddr_fqdn,
  request_dstaddr, request_dstport, request_done, request_parser_feed, request_is_done, addr_slot,
  prepared, request_error_unsupported_atype, request_consume, socks_addr_type_domain,
}
use pdc_20221c.Parser.Request.Address.{parse, addr_lem, port_lem}
use pdc_20221c.Parser.Request.Header.{
  at_type, with_type, header_lem, fixed_type_lem, domain_type_lem, name_length_lem, bad_type_lem,
  slot_sizes,
}

-- The parser that has read a request.
abbrev pub after_request : RequestParser → ℕ → ℕ → List ℕ → ℕ → ℕ → RequestParser
after_request p c t addr h l = record p {
  request = record { cmd = c; dest_addr_type = t; dest_addr = addr; dest_port = h ∷ l ∷ [] };
  state = request_done;
  n = 2;
  i = 2;
}

-- VER CMD RSV ATYP DST.ADDR DST.PORT, and what follows, for an address of fixed size and for a name.
abbrev pub fixed_request : ℕ → ℕ → ℕ → List ℕ → ℕ → ℕ → List ℕ → List ℕ
fixed_request c r t addr h l rest = 0x05 ∷ c ∷ r ∷ t ∷ (addr ++ (h ∷ l ∷ rest))

abbrev pub domain_request : ℕ → ℕ → List ℕ → ℕ → ℕ → List ℕ → List ℕ
domain_request c r name h l rest =
    0x05 ∷ c ∷ r ∷ socks_addr_type_domain ∷ length name ∷ (name ++ (h ∷ l ∷ rest))

module _ (c r h l : ℕ) (rest : List ℕ) (p : RequestParser) (st : RequestState)
    (errored : Option Bool) (e : p.state ≡ request_version) where
  -- A request for an IPv4 or an IPv6 address: the address lies in its slot of the cleared union.
  pub fixed_request_lem :
      (t base size : ℕ) (addr : List ℕ)
      → addr_slot t ≡ some (base, size)
      → t ≢ socks_addr_type_domain
      → 0 < size
      → size < 256
      → length addr ≡ size
      → parse (fixed_request c r t addr h l rest) p st errored
        ≡ some (
          request_done,
          after_request p c t (write_at (prepared t p.request.dest_addr) base addr) h l,
          errored,
          rest,
        )
  unfolding request_is_done
  fixed_request_lem t base size [] slot ne pos small len = absurd (omega arith)
  fixed_request_lem t base size (a ∷ addr) slot ne pos small len =
      let tail = h ∷ l ∷ rest in
      header_lem (t ∷ (a ∷ addr ++ tail)) errored c r p st e
      ∙ consume_bytes-more request_parser_feed request_is_done t (a ∷ addr ++ tail) _ _
          request_atype request_dstaddr errored errored (fixed_type_lem t base size _ refl slot ne)
          refl
      ∙ addr_lem base size tail errored a addr
          (record (with_type p c t) { state = request_dstaddr; n = size; i = 0 }) request_dstaddr
          refl slot (omega arith) (omega arith) small
      ∙ port_lem h l rest _ request_dstport errored refl refl refl refl
      ∙ ap
          (λ (k : ℕ). some (
            request_done,
            after_request p c t (write_at (prepared t p.request.dest_addr) k (a ∷ addr)) h l,
            errored,
            rest,
          ))
          (omega arith)

  -- A request for a name of 1 to 255 bytes.
  pub domain_request_lem :
      (name : List ℕ)
      → 0 < length name
      → length name < 256
      → parse (domain_request c r name h l rest) p st errored
        ≡ some (
          request_done,
          after_request p c socks_addr_type_domain
              (write_at (set p.request.dest_addr (length name - 1) 0) 0 name)
              h
              l,
          errored,
          rest,
        )
  unfolding request_is_done
  domain_request_lem [] pos small = absurd (omega arith)
  domain_request_lem (a ∷ name) pos small =
      let tail = h ∷ l ∷ rest in
      let t = socks_addr_type_domain in
      header_lem (t ∷ length (a ∷ name) ∷ (a ∷ name ++ tail)) errored c r p st e
      ∙ consume_bytes-more request_parser_feed request_is_done t
          (length (a ∷ name) ∷ (a ∷ name ++ tail)) _ _ request_atype request_dstaddr_fqdn errored
          errored (domain_type_lem _ refl) refl
      ∙ consume_bytes-more request_parser_feed request_is_done (length (a ∷ name))
          (a ∷ name ++ tail) _ _ request_dstaddr_fqdn request_dstaddr errored errored
          (name_length_lem (length name) _ refl small) refl
      ∙ addr_lem 0 255 tail errored a name _ request_dstaddr refl refl (omega arith) (omega arith)
          small
      ∙ port_lem h l rest _ request_dstport errored refl refl refl refl
      ∙ ap
          (λ (k : ℕ). some (
            request_done,
            after_request p c t (write_at (set p.request.dest_addr k 0) 0 (a ∷ name)) h l,
            errored,
            rest,
          ))
          (omega arith)

  -- An empty name makes the parser write in front of `fdqn`.
  pub empty_name_lem : parse (0x05 ∷ c ∷ r ∷ socks_addr_type_domain ∷ 0 ∷ rest) p st errored ≡ none
  unfolding request_is_done
  empty_name_lem =
      header_lem (socks_addr_type_domain ∷ 0 ∷ rest) errored c r p st e
      ∙ consume_bytes-more request_parser_feed request_is_done socks_addr_type_domain (0 ∷ rest) _ _
          request_atype request_dstaddr_fqdn errored errored (domain_type_lem _ refl) refl
      ∙ unfold consume_bytes request_parser_feed in refl

  -- An address type that is not one of the three ends the parser in the error state.
  pub atype_error :
      (t : ℕ)
      → addr_slot t ≡ none
      → (p' : RequestParser) × (parse (0x05 ∷ c ∷ r ∷ t ∷ rest) p st errored
          ≡ some (request_error_unsupported_atype, p', raise_flag errored, rest))
        × (p'.request.dest_addr_type ≡ t)
  unfolding request_is_done
  atype_error t slot = (
    record (with_type p c t) { state = request_error_unsupported_atype },
    header_lem (t ∷ rest) errored c r p st e
        ∙ consume_bytes-done request_parser_feed request_is_done t rest _ _ request_atype
            request_error_unsupported_atype errored (raise_flag errored)
            (bad_type_lem t (at_type p c) refl slot) refl,
    refl,
  )

-- `request_consume` over a buffer that holds a request for an address of 4 or 16 bytes, and perhaps
-- more: no assertion fails, the address and the port are stored, and the rest stays in the buffer.
pub request_consume-fixed :
    (b : Buffer) (p : RequestParser) (c r t base size h l : ℕ) (addr rest : List ℕ)
    (errored : Option Bool)
    → p.state ≡ request_version
    → addr_slot t ≡ some (base, size)
    → t ≢ socks_addr_type_domain
    → length addr ≡ size
    → Holds b (fixed_request c r t addr h l rest)
    → (b' : Buffer) × (request_consume b p errored
        ≡ some (
          request_done,
          after_request p c t (write_at (prepared t p.request.dest_addr) base addr) h l,
          b',
          errored,
        ))
      × Holds b' rest
      × (b'.limit ≡ b.limit)
unfolding request_consume
request_consume-fixed b p c r t base size h l addr rest errored e slot ne len held =
    let sizes : (0 < size) × (size < 256) = slot_sizes t base size slot in
    rw
      (fixed_request_lem c r h l rest p p.state errored e t base size addr slot ne sizes.0 sizes.1
        len)
      at (consume-Agrees request_parser_feed request_is_done _ b p p.state errored held)

-- `request_consume` over a buffer that holds a request for a name of 1 to 255 bytes, and perhaps
-- more: no assertion fails, the name is stored from the start of the array, with a zero put at its
-- last place before, the port is stored, and the rest stays in the buffer.
pub request_consume-domain :
    (b : Buffer) (p : RequestParser) (c r h l : ℕ) (name rest : List ℕ) (errored : Option Bool)
    → p.state ≡ request_version
    → 0 < length name
    → length name < 256
    → Holds b (domain_request c r name h l rest)
    → (b' : Buffer) × (request_consume b p errored
        ≡ some (
          request_done,
          after_request p c socks_addr_type_domain
              (write_at (set p.request.dest_addr (length name - 1) 0) 0 name)
              h
              l,
          b',
          errored,
        ))
      × Holds b' rest
      × (b'.limit ≡ b.limit)
unfolding request_consume
request_consume-domain b p c r h l name rest errored e pos small held =
    rw (domain_request_lem c r h l rest p p.state errored e name pos small) at
      (consume-Agrees request_parser_feed request_is_done _ b p p.state errored held)

-- ===== src/Parser/Request/Address.antt =====
-- The steps of src/parser/request_parser.c, and the bytes of an address and a port.
use pdc_20221c.Prelude.{
  ℕ, ◌+◌, ◌<◌, ◌≤◌, ◌≡◌, refl, ap, Option, some, Bool, List, [], ◌∷◌, ◌++◌, length, arith, ◌∙◌, set,
  write_at, replicate, set-eq-write_at,
}
use pdc_20221c.Consume.{consume_bytes}
use pdc_20221c.Consume.Bytes.{consume_bytes-more, consume_bytes-done}
use pdc_20221c.Parser.Field.{store_lem, write_at-set}
use pdc_20221c.Parser.Request.{
  RequestState, RequestParser, request_dstaddr, request_dstport, request_done, request_parser_feed,
  request_is_done, addr_slot,
}

abbrev pub parse :
    List ℕ
    → RequestParser
    → RequestState
    → Option Bool
    → Option (RequestState × RequestParser × Option Bool × List ℕ)
parse = consume_bytes request_parser_feed request_is_done

abbrev pub with_addr : RequestParser → List ℕ → RequestParser
with_addr p xs = record p { request = record p.request { dest_addr = xs } }

-- The parser behind the address, ready for the port.
abbrev pub at_port : RequestParser → List ℕ → RequestParser
at_port p xs = record p {
  request = record p.request { dest_addr = xs; dest_port = replicate 2 0 };
  state = request_dstport;
  n = 2;
  i = 0;
}

module _ (base size : ℕ) where
  addr_more :
      (c : ℕ) (p : RequestParser)
      → p.state ≡ request_dstaddr
      → addr_slot p.request.dest_addr_type ≡ some (base, size)
      → p.i + 1 < p.n
      → p.n ≤ size
      → p.n < 256
      → request_parser_feed p c
        ≡ some (
          request_dstaddr,
          record (with_addr p (set p.request.dest_addr (base + p.i) c)) {
            state = request_dstaddr;
            i = p.i + 1;
          },
        )
  unfolding request_parser_feed
  addr_more c p e slot lt fits small = ground arith

  addr_last :
      (c : ℕ) (p : RequestParser)
      → p.state ≡ request_dstaddr
      → addr_slot p.request.dest_addr_type ≡ some (base, size)
      → p.i + 1 ≡ p.n
      → p.n ≤ size
      → p.n < 256
      → request_parser_feed p c
        ≡ some (request_dstport, at_port p (set p.request.dest_addr (base + p.i) c))
  unfolding request_parser_feed
  addr_last c p e slot lt fits small = ground arith

module _ (base size : ℕ) (tail : List ℕ) (errored : Option Bool) where
  -- The bytes of an address land in its slot of the union.
  pub addr_lem :
      (c : ℕ) (cs : List ℕ) (p : RequestParser) (st : RequestState)
      → p.state ≡ request_dstaddr
      → addr_slot p.request.dest_addr_type ≡ some (base, size)
      → p.i + length (c ∷ cs) ≡ p.n
      → p.n ≤ size
      → p.n < 256
      → parse (c ∷ cs ++ tail) p st errored
        ≡ parse tail
            (at_port p (write_at p.request.dest_addr (base + p.i) (c ∷ cs)))
            request_dstport
            errored
  unfolding request_is_done
  addr_lem c [] p st e slot sum fits small =
      consume_bytes-more request_parser_feed request_is_done c tail p _ st request_dstport errored
        errored (addr_last base size c p e slot (omega arith) fits small) refl
      ∙ ap (λ t. parse tail (at_port p t) request_dstport errored)
          (set-eq-write_at p.request.dest_addr (base + p.i) c)
  addr_lem c (c' ∷ cs) p st e slot sum fits small =
      let p' = record (with_addr p (set p.request.dest_addr (base + p.i) c)) {
        state = request_dstaddr;
        i = p.i + 1;
      } in
      consume_bytes-more request_parser_feed request_is_done c (c' ∷ cs ++ tail) p p' st
        request_dstaddr errored errored (addr_more base size c p e slot (omega arith) fits small)
        refl
      ∙ addr_lem c' cs p' request_dstaddr refl slot (omega arith) fits small
      ∙ ap (λ t. parse tail (at_port p t) request_dstport errored)
          (write_at-set p.request.dest_addr (base + p.i) (base + (p.i + 1)) c (c' ∷ cs)
            (omega arith))

port_first :
    (h : ℕ) (p : RequestParser)
    → p.state ≡ request_dstport
    → p.request.dest_port ≡ 0 ∷ 0 ∷ []
    → p.n ≡ 2
    → p.i ≡ 0
    → request_parser_feed p h
      ≡ some (
        request_dstport,
        record p { request = record p.request { dest_port = h ∷ 0 ∷ [] }; i = 1 },
      )
unfolding request_parser_feed
port_first h p e d n i = ground (arith, store_lem p.request.dest_port 0 h)

port_last :
    (h l : ℕ) (p : RequestParser)
    → p.state ≡ request_dstport
    → p.request.dest_port ≡ h ∷ 0 ∷ []
    → p.n ≡ 2
    → p.i ≡ 1
    → request_parser_feed p l
      ≡ some (
        request_done,
        record p {
          request = record p.request { dest_port = h ∷ l ∷ [] };
          i = 2;
          state = request_done;
        },
      )
unfolding request_parser_feed
port_last h l p e d n i = ground (arith, store_lem p.request.dest_port 1 l)

-- The two bytes of the port end the request.
pub port_lem :
    (h l : ℕ) (rest : List ℕ) (p : RequestParser) (st : RequestState) (errored : Option Bool)
    → p.state ≡ request_dstport
    → p.request.dest_port ≡ 0 ∷ 0 ∷ []
    → p.n ≡ 2
    → p.i ≡ 0
    → parse (h ∷ l ∷ rest) p st errored
      ≡ some (
        request_done,
        record p {
          request = record p.request { dest_port = h ∷ l ∷ [] };
          i = 2;
          state = request_done;
        },
        errored,
        rest,
      )
unfolding request_is_done
port_lem h l rest p st errored e d n i =
    consume_bytes-more request_parser_feed request_is_done h (l ∷ rest) p _ st request_dstport
      errored errored (port_first h p e d n i) refl
    ∙ consume_bytes-done request_parser_feed request_is_done l rest _ _ request_dstport request_done
        errored errored (port_last h l _ e refl n refl) refl

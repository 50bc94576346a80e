-- ===== src/Parser/Request.antt =====
-- src/parser/request_parser.c and include/parser/request_parser.h: the SOCKS5 request.
-- `union socks_addr` is its 256 bytes with the layout of Linux: `sin_family` at 0, `sin_port` at 2,
-- `sin_addr` at 4, `sin6_addr` at 8, and `fdqn` at 0. A step is `none` where it would write outside
-- the array that it names.
pub mod Address
pub mod Header
pub mod Message
use pdc_20221c.Prelude.{
  ℕ, ◌+◌, ◌-◌, ◌%◌, Option, none, some, Bool, true, false, List, [], ◌∷◌, ◌++◌, ltb, leb, ◌==◌,
  if◌then◌else◌, ◌>>=◌, ℤ, pos, negsuc, replicate, set, write_at, slice, take, length,
}
use pdc_20221c.Buffer.{Buffer, buffer_write_ptr, buffer_write_adv, fill}
use pdc_20221c.Consume.{consume}
use pdc_20221c.Parser.Field.{store}
use pdc_20221c.Parser.Hello.{raise_flag}

abbrev pub socks_req_cmd_connect : ℕ
socks_req_cmd_connect = 0x01

abbrev pub socks_addr_type_ipv4 : ℕ
socks_addr_type_ipv4 = 0x01

abbrev pub socks_addr_type_domain : ℕ
socks_addr_type_domain = 0x03

abbrev pub socks_addr_type_ipv6 : ℕ
socks_addr_type_ipv6 = 0x04

-- `AF_INET` and `AF_INET6`
abbrev pub af_inet : ℕ
af_inet = 2

abbrev pub af_inet6 : ℕ
af_inet6 = 10

-- `struct request`. The two bytes of `dest_port` are in network order.
pub record Request : Type 0 where
  pub cmd : ℕ
  pub dest_addr_type : ℕ
  pub dest_addr : List ℕ
  pub dest_port : List ℕ

-- `enum request_state`
pub data RequestState : Type 0 where
  request_version request_cmd request_rvs request_atype request_dstaddr_fqdn : RequestState
  request_dstaddr request_dstport request_done request_error : RequestState
  request_error_unsupported_version request_error_unsupported_atype : RequestState

-- `struct request_parser`; `n` and `i` are `uint8_t`.
pub record RequestParser : Type 0 where
  pub request : Request
  pub state : RequestState
  pub n : ℕ
  pub i : ℕ

abbrev pub addr_bytes : ℕ
addr_bytes = 256

-- `n` and `i` keep what they had.
unfoldable pub request_parser_init : RequestParser → RequestParser
request_parser_init p = record p {
  request = record {
    cmd = 0;
    dest_addr_type = 0;
    dest_addr = replicate addr_bytes 0;
    dest_port = replicate 2 0;
  };
  state = request_version;
}

remaining_set : RequestParser → ℕ → RequestParser
remaining_set p n = record p { i = 0; n = n % 256 }

remaining_is_done : RequestParser → Bool
remaining_is_done p = leb p.n p.i

version : ℕ → RequestState
version c = if c == 0x05 then request_cmd else request_error_unsupported_version

cmd : ℕ → RequestParser → RequestParser
cmd c p = record p { request = record p.request { cmd = c }; state = request_rvs }

rsv : RequestParser → RequestParser
rsv p = record p { state = request_atype }

-- The union cleared for an address family: `memset`, and then `sin_family` or `sin6_family`.
abbrev pub prepared : ℕ → List ℕ → List ℕ
prepared t addr =
    if t == socks_addr_type_ipv4
    then write_at (write_at addr 0 (replicate 16 0)) 0 (af_inet ∷ 0 ∷ [])
    else if t == socks_addr_type_ipv6
    then write_at (write_at addr 0 (replicate 28 0)) 0 (af_inet6 ∷ 0 ∷ [])
    else addr

atype : ℕ → RequestParser → RequestParser
unfolding remaining_set
atype c p =
    let req = record p.request { dest_addr_type = c; dest_addr = prepared c p.request.dest_addr } in
    if c == socks_addr_type_ipv4
    then record (remaining_set p 4) { request = req; state = request_dstaddr }
    else if c == socks_addr_type_ipv6
    then record (remaining_set p 16) { request = req; state = request_dstaddr }
    else if c == socks_addr_type_domain
    then record p { request = req; state = request_dstaddr_fqdn }
    else record p { request = req; state = request_error_unsupported_atype }

-- `fdqn[n - 1] = 0`, where `n - 1` is -1 for an empty name.
dstaddr_fqdn : ℕ → RequestParser → Option RequestParser
unfolding remaining_set
dstaddr_fqdn c p =
    let p' = remaining_set p c in
    if p'.n == 0
    then none
    else some (record p' {
      request = record p.request { dest_addr = set p.request.dest_addr (p'.n - 1) 0 };
      state = request_dstaddr;
    })

-- Where the address of each type lies in the union, and its size.
abbrev pub addr_slot : ℕ → Option (ℕ × ℕ)
addr_slot t =
    if t == socks_addr_type_ipv4
    then some (4, 4)
    else if t == socks_addr_type_ipv6
    then some (8, 16)
    else if t == socks_addr_type_domain
    then some (0, 255)
    else none

address_done : RequestParser → RequestParser
unfolding remaining_set remaining_is_done
address_done p =
    if remaining_is_done p
    then record (remaining_set p 2) {
      request = record p.request { dest_port = replicate 2 0 };
      state = request_dstport;
    }
    else record p { state = request_dstaddr }

dstaddr : ℕ → RequestParser → Option RequestParser
unfolding address_done
dstaddr c p = elim (addr_slot p.request.dest_addr_type) [
  | none ↦ some (address_done p)
  | some (base, size) ↦
      if ltb p.i size
      then some (
          address_done (record p {
            request = record p.request { dest_addr = set p.request.dest_addr (base + p.i) c };
            i = (p.i + 1) % 256;
          }))
      else none
]

dstport : ℕ → RequestParser → Option RequestParser
unfolding remaining_is_done
dstport c p = do
  port ← store p.request.dest_port p.i c
  let p' = record p { request = record p.request { dest_port = port }; i = (p.i + 1) % 256 }
  some (record p' { state = if remaining_is_done p' then request_done else request_dstport })

dispatch : RequestState → RequestParser → ℕ → Option RequestParser
unfolding version cmd rsv atype dstaddr_fqdn dstaddr dstport
dispatch request_version p c = some (record p { state = version c })
dispatch request_cmd p c = some (cmd c p)
dispatch request_rvs p c = some (rsv p)
dispatch request_atype p c = some (atype c p)
dispatch request_dstaddr_fqdn p c = dstaddr_fqdn c p
dispatch request_dstaddr p c = dstaddr c p
dispatch request_dstport p c = dstport c p
dispatch _ p c = some p

unfoldable pub request_parser_feed : RequestParser → ℕ → Option (RequestState × RequestParser)
unfolding dispatch
request_parser_feed p c = do p' ← dispatch p.state p c; some (p'.state, p')

unfoldable pub request_is_done : RequestState → Option Bool → Bool × Option Bool
request_is_done request_error errored = (true, raise_flag errored)
request_is_done request_error_unsupported_version errored = (true, raise_flag errored)
request_is_done request_error_unsupported_atype errored = (true, raise_flag errored)
request_is_done request_done errored = (true, errored)
request_is_done _ errored = (false, errored)

unfoldable pub request_consume :
    Buffer
    → RequestParser
    → Option Bool
    → Option (RequestState × RequestParser × Buffer × Option Bool)
unfolding consume
request_consume b p errored = consume request_parser_feed request_is_done b p p.state errored

-- ===== src/Parser/Reply.antt =====
-- src/parser/request_parser.c, the server's side: `request_marshal` and `errno_to_socks`.
pub mod RoundTrip
use pdc_20221c.Prelude.{
  ℕ, zero, suc, ◌+◌, ◌%◌, Option, none, some, Bool, true, false, List, [], ◌∷◌, ◌++◌, ltb, ◌==◌,
  if◌then◌else◌, ◌>>=◌, ℤ, pos, negsuc, slice, take, length,
}
use pdc_20221c.Buffer.{Buffer, buffer_write_ptr, buffer_write_adv, fill}
use pdc_20221c.Parser.Request.{
  socks_addr_type_ipv4, socks_addr_type_ipv6, socks_addr_type_domain, addr_slot,
}

-- `enum socks_response_status`
abbrev pub status_succeeded : ℕ
status_succeeded = 0x00

abbrev pub status_general_failure : ℕ
status_general_failure = 0x01

abbrev pub status_network_unreachable : ℕ
status_network_unreachable = 0x03

abbrev pub status_host_unreachable : ℕ
status_host_unreachable = 0x04

abbrev pub status_connection_refused : ℕ
status_connection_refused = 0x05

abbrev pub status_ttl_expired : ℕ
status_ttl_expired = 0x06

abbrev pub status_command_not_supported : ℕ
status_command_not_supported = 0x07

abbrev pub status_address_type_not_supported : ℕ
status_address_type_not_supported = 0x08

-- The length of the text at the start of an array; `none` if no terminator is in it.
unfoldable pub strlen : List ℕ → Option ℕ
strlen [] = none
strlen (zero ∷ cs) = some 0
strlen (suc c ∷ cs) = do k ← strlen cs; some (suc k)

-- What `aux` points to: the address as it is sent.
unfoldable pub address_bytes : ℕ → List ℕ → Option (List ℕ)
unfolding strlen
address_bytes atyp addr =
    if atyp == socks_addr_type_ipv4
    then some (slice 4 4 addr)
    else if atyp == socks_addr_type_ipv6
    then some (slice 8 16 addr)
    else if atyp == socks_addr_type_domain
    then (do k ← strlen (take 255 addr); some (k % 256 ∷ take k addr))
    else some []

abbrev pub reply : ℕ → ℕ → List ℕ → List ℕ → List ℕ
reply status atyp aux port = 0x05 ∷ status ∷ 0x00 ∷ atyp ∷ (aux ++ port)

unfoldable pub request_marshal : Buffer → ℕ → ℕ → List ℕ → List ℕ → Option (ℤ × Buffer)
unfolding buffer_write_ptr buffer_write_adv fill address_bytes
request_marshal b status atyp addr dest_port = do
  (buff, n) ← buffer_write_ptr b
  aux ← address_bytes atyp addr
  let len = 6 + length aux
  if ltb n len then some (negsuc 0, b) else do
    b' ← buffer_write_adv (fill b (reply status atyp aux dest_port)) (pos len)
    some (pos len, b')

-- The values of <errno.h> on Linux.
abbrev pub enetunreach : ℕ
enetunreach = 101

abbrev pub etimedout : ℕ
etimedout = 110

abbrev pub econnrefused : ℕ
econnrefused = 111

abbrev pub ehostunreach : ℕ
ehostunreach = 113

unfoldable pub errno_to_socks : ℕ → ℕ
errno_to_socks e =
    if e == 0
    then status_succeeded
    else if e == econnrefused
    then status_connection_refused
    else if e == ehostunreach
    then status_host_unreachable
    else if e == enetunreach
    then status_network_unreachable
    else if e == etimedout
    then status_ttl_expired
    else status_general_failure

-- ===== src/Parser/Reply/RoundTrip.antt =====
-- A reply of src/parser/request_parser.c has the form of a request: its parser reads it back.
use pdc_20221c.Prelude.{
  ℕ, ◌+◌, ◌-◌, ◌≤◌, ◌≡◌, ◌≢◌, refl, Option, some, Bool, false, List, [], ◌∷◌, ◌++◌, length,
  length-append, length-slice, arith, write_at, slice, ltb, if◌then◌else◌, pos, negsuc, Bool-cases,
  inl, inr,
}
use pdc_20221c.Buffer.{Buffer}
use pdc_20221c.Buffer.Contents.{Holds, buffer_write_adv-count, buffer_write_ptr_lem}
use pdc_20221c.Parser.Request.{
  RequestParser, request_version, request_done, addr_slot, prepared, request_consume, addr_bytes,
  socks_addr_type_domain,
}
use pdc_20221c.Parser.Request.Message.{after_request, fixed_request, request_consume-fixed}
use pdc_20221c.Parser.Reply.{address_bytes, reply, request_marshal}

-- On a well-formed buffer, for an address that can be encoded: with room for it the whole reply is
-- appended and its length returned; otherwise -1 is returned and the buffer stays as it was.
pub request_marshal_lem :
    (b : Buffer) (bytes aux addr port : List ℕ) (status atyp : ℕ)
    → Holds b bytes
    → address_bytes atyp addr ≡ some aux
    → length port ≡ 2
    → let room = b.limit - b.write in
      let len = 6 + length aux in
      (b' : Buffer) × (request_marshal b status atyp addr port
        ≡ some (if ltb room len then negsuc 0 else pos len, b'))
      × Holds b' (if ltb room len then bytes else bytes ++ reply status atyp aux port)
      × (b'.limit ≡ b.limit)
unfolding request_marshal
request_marshal_lem b bytes aux addr port status atyp h enc two =
    elim (Bool-cases (ltb (b.limit - b.write) (6 + length aux))) [
      | inl t ↦ (b, rw (buffer_write_ptr_lem b h.valid, enc, t), rw t h, refl)
      | inr t ↦
          let (b', adv, h', l) =
            buffer_write_adv-count b bytes (reply status atyp aux port) (6 + length aux) h
              (omega (arith, length-append aux port)) (ground arith) in
          (b', rw (buffer_write_ptr_lem b h.valid, enc, t, adv), rw t h', l)
    ]

slot_fits : (t base size : ℕ) → addr_slot t ≡ some (base, size) → base + size ≤ addr_bytes
slot_fits t base size slot = ground arith

fixed_address_bytes :
    (t base size : ℕ) (addr : List ℕ)
    → addr_slot t ≡ some (base, size)
    → t ≢ socks_addr_type_domain
    → address_bytes t addr ≡ some (slice base size addr)
unfolding address_bytes
fixed_address_bytes t base size addr slot ne = ground arith

-- A reply with an IPv4 or an IPv6 address, put into an empty buffer that has room for it, is read
-- back by the request parser: it ends without an error, with the status in the place of the
-- command, with the same address type, address bytes and port, and with nothing left over.
pub request_consume-request_marshal :
    (b : Buffer) (p : RequestParser) (status t base size h l : ℕ) (addr : List ℕ)
    (errored : Option Bool)
    → Holds b []
    → p.state ≡ request_version
    → addr_slot t ≡ some (base, size)
    → t ≢ socks_addr_type_domain
    → length addr ≡ addr_bytes
    → 6 + size ≤ b.limit - b.write
    → (b1 : Buffer) × (request_marshal b status t addr (h ∷ l ∷ []) ≡ some (pos (6 + size), b1))
      × (b2 : Buffer) × (request_consume b1 p errored
          ≡ some (
            request_done,
            after_request p status t
                (write_at (prepared t p.request.dest_addr) base (slice base size addr))
                h
                l,
            b2,
            errored,
          ))
      × Holds b2 []
request_consume-request_marshal b p status t base size h l addr errored held e slot ne len room =
    let size_eq : length (slice base size addr) ≡ size =
      length-slice base size addr (omega (arith, slot_fits t base size slot)) in
    let (b1, m, h1, l1) =
      request_marshal_lem b [] (slice base size addr) addr (h ∷ l ∷ []) status t held
        (fixed_address_bytes t base size addr slot ne) refl in
    let wide : ltb (b.limit - b.write) (6 + size) ≡ false = ground arith in
    let h1' : Holds b1 (fixed_request status 0 t (slice base size addr) h l []) =
      rw (size_eq, wide) at h1 in
    let (b2, c, h2, l2) =
      request_consume-fixed b1 p status 0 t base size h l (slice base size addr) [] errored e slot
        ne size_eq h1' in
    (b1, rw (size_eq, wide) at m, b2, c, h2)

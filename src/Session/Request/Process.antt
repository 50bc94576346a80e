-- ===== src/Session/Request/Process.antt =====
-- What src/stm/request.c does with a request.
use pdc_20221c.Prelude.{
  if_false, set, ◌<◌, Option, ℕ, ◌-◌, ◌≤◌, ◌≡◌, ◌≢◌, refl, ◌∙◌, none, some, false, List, [], ◌∷◌,
  ◌==◌, if◌then◌else◌, ◌>>=◌, ℤ, pos, length, write_at, arith,
}
use pdc_20221c.Buffer.{Buffer, buffer_write_ptr, buffer_write_adv, fill}
use pdc_20221c.Buffer.Contents.{Holds, buffer_write_ptr_lem, buffer_write_adv_lem}
use pdc_20221c.Parser.Request.{
  RequestParser, request_version, request_done, request_consume, request_is_done, addr_slot,
  prepared, af_inet, af_inet6, socks_addr_type_ipv4, socks_addr_type_domain,
}
use pdc_20221c.Parser.Request.Message.{
  after_request, fixed_request, domain_request, request_consume-fixed, request_consume-domain,
}
use pdc_20221c.Parser.Reply.{status_command_not_supported}
use pdc_20221c.Session.Request.{
  RequestWorld, Attempt, request_read, request_process, sockaddr_in_size, sockaddr_in6_size,
  request_connecting_state, request_write_state,
}

-- The family and the size of the address of a type with a slot.
abbrev pub family_of : ℕ → ℕ
family_of t = if t == socks_addr_type_ipv4 then af_inet else af_inet6

abbrev pub size_of : ℕ → ℕ
size_of t = if t == socks_addr_type_ipv4 then sockaddr_in_size else sockaddr_in6_size

-- The address that `connect` gets: the family, the port, and the address of the request.
abbrev pub filled : ℕ → ℕ → List ℕ → List ℕ → ℕ → ℕ → List ℕ
filled t base old addr h l = write_at (write_at (prepared t old) base addr) 2 (h ∷ l ∷ [])

module _ {H D : Type 0} (handler : H) (attached : Option D) where
  >>=-some : (run : Option (ℕ × RequestWorld H D)) → (run >>= λ (ret, w'). some (ret, w')) ≡ run
  >>=-some none = refl
  >>=-some (some (ret, w')) = refl

  read_run :
      (w : RequestWorld H D) (fd : ℤ) (bytes : List ℕ) (os : Attempt) (ptr : ℕ × ℕ) (b b' : Buffer)
      (p : RequestParser)
      → buffer_write_ptr w.input ≡ some ptr
      → buffer_write_adv (fill w.input bytes) (pos (length bytes)) ≡ some b
      → request_consume b w.parser (some false) ≡ some (request_done, p, b', some false)
      → request_read handler attached w fd (some bytes) os
        ≡ request_process handler attached (record w { parser = p; input = b' }) fd os
  unfolding request_read request_is_done
  read_run w fd bytes os ptr b b' p at adv parsed = rw (request_read, at, adv, parsed) (>>=-some _)

  -- The session that has read a request to connect.
  abbrev asked : RequestWorld H D → Buffer → ℕ → List ℕ → ℕ → ℕ → RequestWorld H D
  asked w b t addr h l = record w { parser = after_request w.parser 1 t addr h l; input = b }

  -- A whole request to connect to a name, received at once by a session that waits for it with an
  -- empty input that has room for it: the handler returns REQUEST_CONNECTING, but it has not
  -- resolved the name, has no descriptor for the server and does not touch the selector.
  pub request_read-domain :
      (w : RequestWorld H D) (fd : ℤ) (os : Attempt) (r h l : ℕ) (name rest : List ℕ)
      → w.parser.state ≡ request_version
      → Holds w.input []
      → 0 < length name
      → length name < 256
      → length (domain_request 1 r name h l rest) ≤ w.input.limit - w.input.write
      → (w1 : RequestWorld H D) × (request_read handler attached w fd
            (some (domain_request 1 r name h l rest))
            os
          ≡ some (request_connecting_state, w1))
        × Holds w1.input rest
        × (w1.server ≡ w.server)
        × (w1.selector ≡ w.selector)
        × (w1.output ≡ w.output)
  unfolding request_process
  request_read-domain w fd os r h l name rest start held some_name short room =
      let bytes = domain_request 1 r name h l rest in
      let (b, adv, hb, lb) = buffer_write_adv_lem w.input [] bytes held room in
      let (b', parsed, hrest, lb') =
        request_consume-domain b w.parser 1 r h l name rest (some false) start some_name short hb in
      (
        record w {
          parser =
              after_request w.parser 1 socks_addr_type_domain
                (write_at (set w.parser.request.dest_addr (length name - 1) 0) 0 name) h l;
          input = b';
        },
        read_run w fd bytes os _ b b' _ (buffer_write_ptr_lem w.input held.valid) adv parsed,
        hrest,
        refl,
        refl,
        refl,
      )

  -- A whole request for an IPv4 or an IPv6 address with another command than CONNECT, received at
  -- once by a session that waits for it with an empty input that has room for it: the handler returns
  -- REQUEST_WRITE with the status for this, but it writes no answer and does not touch the selector.
  pub request_read-unsupported :
      (w : RequestWorld H D) (fd : ℤ) (os : Attempt) (c r t base size h l : ℕ) (addr rest : List ℕ)
      → w.parser.state ≡ request_version
      → Holds w.input []
      → c ≢ 1
      → addr_slot t ≡ some (base, size)
      → t ≢ socks_addr_type_domain
      → length addr ≡ size
      → length (fixed_request c r t addr h l rest) ≤ w.input.limit - w.input.write
      → (w1 : RequestWorld H D) × (request_read handler attached w fd
            (some (fixed_request c r t addr h l rest))
            os
          ≡ some (request_write_state, w1))
        × Holds w1.input rest
        × (w1.status ≡ status_command_not_supported)
        × (w1.selector ≡ w.selector)
        × (w1.output ≡ w.output)
  unfolding request_process
  request_read-unsupported w fd os c r t base size h l addr rest start held other slot ne len room =
      let bytes = fixed_request c r t addr h l rest in
      let (b, adv, hb, lb) = buffer_write_adv_lem w.input [] bytes held room in
      let (b', parsed, hrest, lb') =
        request_consume-fixed b w.parser c r t base size h l addr rest (some false) start slot ne
          len hb in
      let stored = write_at (prepared t w.parser.request.dest_addr) base addr in
      let test : (c == 1) ≡ false = ground arith in
      (
        record w {
          parser = after_request w.parser c t stored h l;
          input = b';
          status = status_command_not_supported;
        },
        read_run w fd bytes os _ b b' _ (buffer_write_ptr_lem w.input held.valid) adv parsed
            ∙ if_false (c == 1) _ _ test,
        hrest,
        refl,
        refl,
        refl,
      )

-- ===== src/Session/Request.antt =====
-- src/stm/request.c: the states in which a session reads a request, connects, and answers.
-- The results of the system calls are arguments; `none` is a failed assertion, an access out of
-- bounds, or the use of a pointer that is not set.
pub mod Connect
pub mod Process
pub mod Answer
use pdc_20221c.Prelude.{
  ℕ, ◌+◌, Option, none, some, Bool, true, false, not, List, ◌==◌, if◌then◌else◌, ◌>>=◌, ◌&&◌, ℤ,
  pos, negsuc, length, take, write_at,
}
use pdc_20221c.Buffer.{
  Buffer, buffer_can_read, buffer_write_ptr, buffer_read_ptr, buffer_write_adv, buffer_read_adv,
  fill,
}
use pdc_20221c.Parser.Request.{
  Request, RequestParser, RequestState, request_parser_init, request_consume, request_is_done,
  socks_req_cmd_connect, socks_addr_type_ipv4, socks_addr_type_ipv6, socks_addr_type_domain,
  af_inet, af_inet6,
}
use pdc_20221c.Parser.Reply.{
  request_marshal, errno_to_socks, status_succeeded, status_general_failure,
  status_command_not_supported, status_address_type_not_supported,
}
use pdc_20221c.Selector.{
  FdSelector, SelectorStatus, selector_success, selector_set_interest, selector_set_interest_key,
  selector_register, selector_fd_set_nio, op_noop, op_read, op_write,
}
use pdc_20221c.Session.Copy.{same_fd, state_copy}
use pdc_20221c.Session.Hello.{request_read_state, error_state}

-- `enum session_state`
abbrev pub request_connecting_state : ℕ
request_connecting_state = 3

abbrev pub request_write_state : ℕ
request_write_state = 4

-- `EINPROGRESS`
abbrev pub einprogress : ℕ
einprogress = 115

-- `sizeof(struct sockaddr_in)` and `sizeof(struct sockaddr_in6)`
abbrev pub sockaddr_in_size : ℕ
sockaddr_in_size = 16

abbrev pub sockaddr_in6_size : ℕ
sockaddr_in6_size = 28

-- The `Connection` of the origin server in the session.
pub record Connection : Type 0 where
  pub fd : ℤ
  pub address : List ℕ
  pub domain : ℕ
  pub address_len : ℕ

-- What the handlers see of the session. `state_fd` is `server.fd` of `request_st`, and `arrived` is
-- whether the pointers of `connect_st` are set, which are the session's two descriptors, the status
-- and `output`.
pub record RequestWorld (H D : Type 0) : Type 0 where
  pub parser : RequestParser
  pub status : ℕ
  pub state_fd : ℤ
  pub client_fd : ℤ
  pub server : Connection
  pub arrived : Bool
  pub input : Buffer
  pub output : Buffer
  pub selector : FdSelector H D

-- The results of the system calls for one attempt to connect. `connected` is none for 0, and else
-- `errno`.
pub record Attempt : Type 0 where
  pub closed : Bool
  pub socket_fd : ℤ
  pub getfd : Option ℕ
  pub setfl : ℕ → Bool
  pub connected : Option ℕ
  pub got_memory : Bool

module _ {H D : Type 0} where
  unfoldable pub request_arrival : RequestWorld H D → RequestWorld H D
  unfolding request_parser_init
  request_arrival w = record w {
    parser = request_parser_init w.parser;
    status = status_general_failure;
    state_fd = w.server.fd;
  }

  -- The answer with the status and the address of the request, into `output`.
  unfoldable pub answer : RequestWorld H D → Option (ℤ × Buffer)
  answer w =
      request_marshal w.output w.status w.parser.request.dest_addr_type w.parser.request.dest_addr
        w.parser.request.dest_port

  -- `socket` returned: both records get the descriptor.
  unfoldable pub open_socket : RequestWorld H D → ℤ → RequestWorld H D
  open_socket w fd = record w { state_fd = fd; server = record w.server { fd = fd } }

  -- The port goes into the address, and the address into the session.
  unfoldable pub with_address : RequestWorld H D → ℕ → ℕ → RequestWorld H D
  with_address w domain size =
      let addr = write_at w.parser.request.dest_addr 2 w.parser.request.dest_port in
      record w {
        parser = record w.parser { request = record w.parser.request { dest_addr = addr } };
        server = record w.server {
          domain = domain;
          address_len = size;
          address = write_at w.server.address 0 (take size addr);
        };
      }

  -- An event of descriptor `fd` with the data `attached`.
  module _ (client_handler_request : H) (attached : Option D) where
    -- The descriptor is put into the table, or, if the session had one before, its interest is set.
    unfoldable pub watch_origin :
        FdSelector H D → Bool → ℤ → Bool → Option (SelectorStatus × FdSelector H D)
    watch_origin s fd_registered fd got_memory =
        if fd_registered
        then selector_set_interest s fd op_write
        else selector_register s fd (some client_handler_request) op_write attached got_memory

    -- `connect` is under way.
    unfoldable pub connect_pending :
        RequestWorld H D → ℤ → Bool → Attempt → Option (ℕ × RequestWorld H D)
    unfolding watch_origin
    connect_pending w fd fd_registered os =
        selector_set_interest_key w.selector fd op_noop >>= λ (st, s). elim st [
          | selector_success ↦
              watch_origin s fd_registered w.server.fd os.got_memory >>= λ (st2, s2). some (
                elim st2 [ selector_success ↦ request_connecting_state | _ ↦ error_state ],
                record w { selector = s2 },
              )
          | _ ↦ some (error_state, record w { selector = s })
        ]

    -- `connect` failed: the answer tells why.
    unfoldable pub connect_failed : RequestWorld H D → ℕ → Attempt → Option (ℕ × RequestWorld H D)
    unfolding answer
    connect_failed w errno os =
        let w1 = record w { status = errno_to_socks errno } in
        answer w1 >>= λ (n, b). elim n [
          | negsuc _ ↦ some (error_state, record w1 { output = b })
          | pos _ ↦ selector_set_interest w1.selector w1.client_fd op_write >>= λ (_, s).
              selector_register s w1.server.fd (some client_handler_request) op_noop attached
                os.got_memory
              >>= λ (st, s2). some (
                elim st [ selector_success ↦ request_write_state | _ ↦ error_state ],
                record w1 { output = b; selector = s2 },
              )
        ]

    -- The socket is there: it is made not to block, and connected.
    unfoldable pub connect_socket :
        RequestWorld H D → ℤ → Bool → Attempt → Option (ℕ × RequestWorld H D)
    connect_socket w fd fd_registered os =
        if selector_fd_set_nio os.getfd os.setfl
        then elim os.connected [
          | none ↦ some (request_connecting_state, w)
          | some errno ↦
              if errno == einprogress
              then connect_pending w fd fd_registered os
              else connect_failed w errno os
        ]
        else some (request_connecting_state, w)

    -- `fd_registered` is whether the session had a descriptor before, which is closed, and `new_fd`
    -- the result of `socket`.
    unfoldable pub connect_with :
        RequestWorld H D → ℤ → Bool → ℤ → Attempt → Option (ℕ × RequestWorld H D)
    unfolding open_socket same_fd
    connect_with w fd fd_registered new_fd os =
        if fd_registered && not os.closed
        then some (error_state, w)
        else if same_fd new_fd (negsuc 0)
        then some (error_state, open_socket w new_fd)
        else connect_socket (open_socket w new_fd) fd fd_registered os

    unfoldable pub request_connect : RequestWorld H D → ℤ → Attempt → Option (ℕ × RequestWorld H D)
    unfolding connect_with same_fd
    request_connect w fd os =
        connect_with w fd (not (same_fd w.state_fd (negsuc 0))) os.socket_fd os

    -- `cmd` and `dest_addr_type` select the branch; a name is not resolved.
    unfoldable pub request_process : RequestWorld H D → ℤ → Attempt → Option (ℕ × RequestWorld H D)
    unfolding with_address
    request_process w fd os =
        let atyp = w.parser.request.dest_addr_type in
        if w.parser.request.cmd == socks_req_cmd_connect
        then if atyp == socks_addr_type_ipv4
          then request_connect (with_address w af_inet sockaddr_in_size) fd os
          else if atyp == socks_addr_type_ipv6
          then request_connect (with_address w af_inet6 sockaddr_in6_size) fd os
          else if atyp == socks_addr_type_domain
          then some (request_connecting_state, w)
          else (selector_set_interest_key w.selector fd op_write >>= λ (_, s). some (
            request_write_state,
            record w { status = status_address_type_not_supported; selector = s },
          ))
        else some (request_write_state, record w { status = status_command_not_supported })

    -- `received` is none where `recv` returned 0 or -1.
    unfoldable pub request_read :
        RequestWorld H D → ℤ → Option (List ℕ) → Attempt → Option (ℕ × RequestWorld H D)
    request_read w fd none os = buffer_write_ptr w.input >>= λ _. some (error_state, w)
    request_read w fd (some bytes) os = buffer_write_ptr w.input >>= λ _.
        buffer_write_adv (fill w.input bytes) (pos (length bytes)) >>= λ b.
        request_consume b w.parser (some false) >>= λ (st, p, b', error).
        (if (request_is_done st none).0
          then request_process (record w { parser = p; input = b' }) fd os
          else some (request_read_state, record w { parser = p; input = b' }))
        >>= λ (ret, w').
            some (elim error [ none ↦ ret | some e ↦ if e then error_state else ret ], w')

  -- `sent` is none where `send` returned -1.
  unfoldable pub request_write : RequestWorld H D → ℤ → Option ℕ → Option (ℕ × RequestWorld H D)
  request_write w fd none = buffer_read_ptr w.output >>= λ _. some (error_state, w)
  request_write w fd (some n) = buffer_read_ptr w.output >>= λ _.
      buffer_read_adv w.output (pos n) >>= λ b.
      if buffer_can_read b
      then some (request_write_state, record w { output = b })
      else (selector_set_interest_key w.selector fd op_read >>= λ (st, s). some (
        elim st [ selector_success ↦ state_copy | _ ↦ error_state ],
        record w { output = b; selector = s },
      ))

  unfoldable pub request_connecting_arrival : RequestWorld H D → RequestWorld H D
  request_connecting_arrival w = record w { arrived = true }

  -- `getsockopt` returned the error of the socket.
  unfoldable pub connect_ended : RequestWorld H D → ℕ → Option (ℕ × RequestWorld H D)
  connect_ended w so_error = selector_set_interest w.selector w.client_fd op_write >>= λ (_, s).
      let w1 = record w {
        selector = s;
        status = if so_error == 0 then status_succeeded else w.status;
      } in
      answer w1 >>= λ (n, b). elim n [
        | negsuc _ ↦ some (error_state, record w1 { output = b })
        | pos _ ↦ selector_set_interest w1.selector w1.server.fd op_read >>= λ (_, s2).
            some (request_write_state, record w1 { output = b; selector = s2 })
      ]

  -- `so_error` is none where `getsockopt` failed. Both descriptors are read through the pointers of
  -- `connect_st`.
  unfoldable pub request_connecting : RequestWorld H D → Option ℕ → Option (ℕ × RequestWorld H D)
  request_connecting w none = some (request_connecting_state, w)
  request_connecting w (some so_error) = if w.arrived then connect_ended w so_error else none

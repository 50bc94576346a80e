-- ===== src/Session/Machine/Order/Requests.antt =====
-- What the callbacks of src/stm/request.c return.
use pdc_20221c.Prelude.{
  ℕ, ◌≡◌, refl, Option, none, some, Bool, false, not, ◌&&◌, List, ◌==◌, if◌then◌else◌, ℤ, pos,
  negsuc, length,
}
use pdc_20221c.Buffer.{
  buffer_write_ptr, buffer_write_adv, buffer_read_ptr, buffer_read_adv, buffer_can_read, fill,
}
use pdc_20221c.Parser.Request.{request_consume, request_is_done}
use pdc_20221c.Parser.Reply.{errno_to_socks, status_succeeded}
use pdc_20221c.Selector.{
  selector_set_interest, selector_set_interest_key, selector_register, selector_fd_set_nio, op_noop,
  op_read, op_write,
}
use pdc_20221c.Session.Copy.{same_fd}
use pdc_20221c.Session.Request.{
  RequestWorld, Attempt, answer, request_read, request_write, request_process, request_connect,
  connect_socket, connect_pending, connect_failed, watch_origin, request_connecting, connect_ended,
  einprogress,
}
use pdc_20221c.Session.Machine.Order.{
  Follows, reading_request, to_connecting, answering_request, connecting, connected,
  writing_request, to_copy, lost_request, lost_connection, lost_reply, Returns, ReturnsIn, by_test,
  by_status, by_sign, by_flag, Returns-some, Returns-none, Returns-bind, Returns-then,
}

module _ {H D : Type 0} where
  module _ (handler : H) (attached : Option D) where
    pub connect_pending-Follows :
        (w : RequestWorld H D) (fd : ℤ) (registered : Bool) (os : Attempt)
        → Returns (connect_pending handler attached w fd registered os) (Follows 2)
    unfolding connect_pending
    connect_pending-Follows w fd registered os =
        Returns-bind (Follows 2) (selector_set_interest_key w.selector fd op_noop) _ (λ (st, s).
          by_status (ReturnsIn (Follows 2)) st _ _
            (Returns-bind (Follows 2)
              (watch_origin handler attached s registered w.server.fd os.got_memory) _
              (λ (st2, s2).
                Returns-some (Follows 2) _ _
                  (by_status (Follows 2) st2 _ _ to_connecting lost_request)))
            (Returns-some (Follows 2) _ _ lost_request))

    pub connect_failed-Follows :
        (w : RequestWorld H D) (errno : ℕ) (os : Attempt)
        → Returns (connect_failed handler attached w errno os) (Follows 2)
    unfolding connect_failed
    connect_failed-Follows w errno os =
        let w1 : RequestWorld H D = record w { status = errno_to_socks errno } in
        Returns-bind (Follows 2) (answer w1) _ (λ (n, b).
          by_sign (ReturnsIn (Follows 2)) n _ _ (Returns-some (Follows 2) _ _ lost_request) (
            Returns-bind (Follows 2) (selector_set_interest w1.selector w1.client_fd op_write) _
              (λ (_, s).
                Returns-bind (Follows 2)
                  (selector_register s w1.server.fd (some handler) op_noop attached os.got_memory) _
                  (λ (st, s2).
                    Returns-some (Follows 2) _ _
                      (by_status (Follows 2) st _ _ answering_request lost_request)))))

    pub connect_socket-Follows :
        (w : RequestWorld H D) (fd : ℤ) (registered : Bool) (os : Attempt) (o : Option ℕ)
        → os.connected ≡ o
        → Returns (connect_socket handler attached w fd registered os) (Follows 2)
    unfolding connect_socket
    connect_socket-Follows w fd registered os none e =
        by_test (ReturnsIn (Follows 2)) (selector_fd_set_nio os.getfd os.setfl) _ _
          (rw e (Returns-some (Follows 2) _ _ to_connecting))
          (Returns-some (Follows 2) _ _ to_connecting)
    connect_socket-Follows w fd registered os (some errno) e =
        by_test (ReturnsIn (Follows 2)) (selector_fd_set_nio os.getfd os.setfl) _ _
          (rw e (
            by_test (ReturnsIn (Follows 2)) (errno == einprogress) _ _
              (connect_pending-Follows w fd registered os) (connect_failed-Follows w errno os)))
          (Returns-some (Follows 2) _ _ to_connecting)

    pub request_connect-Follows :
        (w : RequestWorld H D) (fd : ℤ) (os : Attempt)
        → Returns (request_connect handler attached w fd os) (Follows 2)
    unfolding request_connect
    request_connect-Follows w fd os =
        by_test (ReturnsIn (Follows 2)) (not (same_fd w.state_fd (negsuc 0)) && not os.closed) _ _
          (Returns-some (Follows 2) _ _ lost_request)
          (by_test (ReturnsIn (Follows 2)) (same_fd os.socket_fd (negsuc 0)) _ _
            (Returns-some (Follows 2) _ _ lost_request)
            (connect_socket-Follows _ fd _ os os.connected refl))

    pub request_process-Follows :
        (w : RequestWorld H D) (fd : ℤ) (os : Attempt)
        → Returns (request_process handler attached w fd os) (Follows 2)
    unfolding request_process
    request_process-Follows w fd os =
        let atyp = w.parser.request.dest_addr_type in
        by_test (ReturnsIn (Follows 2)) (w.parser.request.cmd == 1) _ _
          (by_test (ReturnsIn (Follows 2)) (atyp == 1) _ _ (request_connect-Follows _ fd os) (
            by_test (ReturnsIn (Follows 2)) (atyp == 4) _ _ (request_connect-Follows _ fd os) (
              by_test (ReturnsIn (Follows 2)) (atyp == 3) _ _
                (Returns-some (Follows 2) _ _ to_connecting)
                (Returns-bind (Follows 2) (selector_set_interest_key w.selector fd op_write) _
                  (λ (_, s). Returns-some (Follows 2) _ _ answering_request)))))
          (Returns-some (Follows 2) _ _ answering_request)

    pub request_read-Follows :
        (w : RequestWorld H D) (fd : ℤ) (received : Option (List ℕ)) (os : Attempt)
        → Returns (request_read handler attached w fd received os) (Follows 2)
    unfolding request_read
    request_read-Follows w fd none os =
        Returns-bind (Follows 2) (buffer_write_ptr w.input) _
          (λ _. Returns-some (Follows 2) _ _ lost_request)
    request_read-Follows w fd (some bytes) os =
        Returns-bind (Follows 2) (buffer_write_ptr w.input) _ (λ _.
          Returns-bind (Follows 2) (buffer_write_adv (fill w.input bytes) (pos (length bytes))) _
            (λ b.
              Returns-bind (Follows 2) (request_consume b w.parser (some false)) _
                (λ (st, p, b', error).
                  let w1 : RequestWorld H D = record w { parser = p; input = b' } in
                  Returns-then (Follows 2)
                    (if (request_is_done st none).0
                      then request_process handler attached w1 fd os
                      else some (2, w1))
                    (λ (ret, w').
                      some (elim error [ none ↦ ret | some e ↦ if e then 6 else ret ], w'))
                    (by_test (ReturnsIn (Follows 2)) (request_is_done st none).0
                      (request_process handler attached w1 fd os) (some (2, w1))
                      (request_process-Follows w1 fd os)
                      (Returns-some (Follows 2) 2 w1 reading_request))
                    (λ ret w' h.
                      Returns-some (Follows 2) _ w'
                        (by_flag (Follows 2) error 6 ret lost_request h)))))

  pub request_write-Follows :
      (w : RequestWorld H D) (fd : ℤ) (sent : Option ℕ)
      → Returns (request_write w fd sent) (Follows 4)
  unfolding request_write
  request_write-Follows w fd none =
      Returns-bind (Follows 4) (buffer_read_ptr w.output) _
        (λ _. Returns-some (Follows 4) _ _ lost_reply)
  request_write-Follows w fd (some n) = Returns-bind (Follows 4) (buffer_read_ptr w.output) _ (λ _.
      Returns-bind (Follows 4) (buffer_read_adv w.output (pos n)) _ (λ b.
        by_test (ReturnsIn (Follows 4)) (buffer_can_read b) _ _
          (Returns-some (Follows 4) _ _ writing_request)
          (Returns-bind (Follows 4) (selector_set_interest_key w.selector fd op_read) _ (λ (st, s).
            Returns-some (Follows 4) _ _ (by_status (Follows 4) st _ _ to_copy lost_reply)))))

  pub connect_ended-Follows :
      (w : RequestWorld H D) (so_error : ℕ) → Returns (connect_ended w so_error) (Follows 3)
  unfolding connect_ended
  connect_ended-Follows w so_error =
      Returns-bind (Follows 3) (selector_set_interest w.selector w.client_fd op_write) _ (λ (_, s).
        let w1 : RequestWorld H D = record w {
          selector = s;
          status = if so_error == 0 then status_succeeded else w.status;
        } in
        Returns-bind (Follows 3) (answer w1) _ (λ (n, b).
          by_sign (ReturnsIn (Follows 3)) n _ _ (Returns-some (Follows 3) _ _ lost_connection) (
            Returns-bind (Follows 3) (selector_set_interest w1.selector w1.server.fd op_read) _
              (λ (_, s2). Returns-some (Follows 3) _ _ connected))))

  pub request_connecting-Follows :
      (w : RequestWorld H D) (so_error : Option ℕ)
      → Returns (request_connecting w so_error) (Follows 3)
  unfolding request_connecting
  request_connecting-Follows w none = Returns-some (Follows 3) _ _ connecting
  request_connecting-Follows w (some so_error) =
      by_test (ReturnsIn (Follows 3)) w.arrived _ _ (connect_ended-Follows w so_error)
        (Returns-none (Follows 3))

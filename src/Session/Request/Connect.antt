-- ===== src/Session/Request/Connect.antt =====
-- How src/stm/request.c connects to the origin server, and what it answers.
use pdc_20221c.Prelude.{
  ap, not, ◌&&◌, ◌||◌, Bool, if_true, Option, none, ℕ, ◌+◌, ◌-◌, ◌≤◌, ◌<◌, ◌≡◌, ◌≢◌, ◌⊎◌, inl, inr,
  refl, sym, ◌∙◌, some, true, false, List, [], ◌∷◌, ◌==◌, if◌then◌else◌, ℤ, pos, negsuc, length,
  ltb, arith,
}
use pdc_20221c.Buffer.{Buffer}
use pdc_20221c.Buffer.Contents.{Holds}
use pdc_20221c.Parser.Reply.{address_bytes, reply, errno_to_socks, status_succeeded}
use pdc_20221c.Parser.Reply.RoundTrip.{request_marshal_lem}
use pdc_20221c.Selector.{
  FdSelector, SelectorStatus, selector_success, selector_enomem, selector_maxfd, selector_iargs,
  selector_fdinuse, selector_io, selector_set_interest, selector_set_interest_key,
  selector_register, selector_fd_set_nio, op_noop, op_read, op_write,
}
use pdc_20221c.Selector.Invariant.{IsValid, taken}
use pdc_20221c.Selector.Operations.{
  IsRegistered, RegisterPost, RegisterPost-refused, accepts, selector_register_lem,
}
use pdc_20221c.Session.Copy.{same_fd}
use pdc_20221c.Session.Copy.Interest.{IsUsed, Changed, set_interest_run, set_interest_key_run}
use pdc_20221c.Session.Hello.{error_state}
use pdc_20221c.Session.Request.{
  RequestWorld, Attempt, answer, open_socket, connect_socket, connect_with, connect_ended,
  connect_pending, connect_failed, request_connect, request_connecting, request_connecting_state,
  request_write_state, einprogress,
}

-- The codes of RFC 1928 for the errors that it tells apart, by the numbers of the errors in Linux:
-- ECONNREFUSED is connection refused, EHOSTUNREACH host unreachable, ENETUNREACH network unreachable,
-- and ETIMEDOUT is told as an expired TTL. Any other error is a general failure, code 1.
abbrev pub reply_codes : List (ℕ × ℕ)
reply_codes = (0, 0) ∷ (111, 5) ∷ (113, 4) ∷ (101, 3) ∷ (110, 6) ∷ []

abbrev pub reply_code : List (ℕ × ℕ) → ℕ → ℕ
reply_code [] errno = 1
reply_code ((n, code) ∷ codes) errno =
    let later = reply_code codes errno in if errno == n then code else later

errno_to_socks-code : (errno : ℕ) → errno_to_socks errno ≡ reply_code reply_codes errno
unfolding errno_to_socks
errno_to_socks-code errno = refl

module _ {H D : Type 0} where
  -- A change of interest makes no difference to what can be registered.
  accepts-Changed :
      (s s' : FdSelector H D) (k i m : ℕ) (got_memory : Bool)
      → Changed s s' k i
      → accepts s' m got_memory ≡ accepts s m got_memory
  accepts-Changed s s' k i m got_memory c =
      ap (λ b. not b && (got_memory || not (ltb s'.fd_size m))) (c.keeps_taken m)
      ∙ ap (λ n. not (taken s m) && (got_memory || not (ltb n m))) c.keeps_size

  -- The answer to the request: `reply` with the status, into the empty output.
  pub answer_lem :
      (w : RequestWorld H D) (aux : List ℕ)
      → Holds w.output []
      → address_bytes w.parser.request.dest_addr_type w.parser.request.dest_addr ≡ some aux
      → length w.parser.request.dest_port ≡ 2
      → 6 + length aux ≤ w.output.limit - w.output.write
      → (b : Buffer) × (answer w ≡ some (pos (6 + length aux), b))
        × Holds b (reply w.status w.parser.request.dest_addr_type aux w.parser.request.dest_port)
  unfolding answer
  answer_lem w aux held enc two room =
      let (b, run, h, l) =
        request_marshal_lem w.output [] aux w.parser.request.dest_addr w.parser.request.dest_port
          w.status w.parser.request.dest_addr_type held enc two in
      let wide : ltb (w.output.limit - w.output.write) (6 + length aux) ≡ false = ground arith in
      (b, rw wide at run, rw wide at h)

  pub IsAnswered : RequestWorld H D → RequestWorld H D → List ℕ → Type 0
  IsAnswered w w' aux =
      Holds w'.output
        (reply w'.status w.parser.request.dest_addr_type aux w.parser.request.dest_port)

  -- The session has no socket yet, and the new one can be watched.
  pub record IsOpening (w : RequestWorld H D) (k m : ℕ) (os : Attempt) : Type 0 where
    pub valid : IsValid w.selector
    pub small : k < 1024
    pub used : IsUsed w.selector k
    pub fresh : w.state_fd ≡ negsuc 0
    pub socket_eq : os.socket_fd ≡ pos m
    pub socket_small : m < 1024
    pub not_size : m ≢ w.selector.fd_size
    pub other : m ≢ k
    pub nio : selector_fd_set_nio os.getfd os.setfl ≡ true

  module _ (handler : H) (attached : Option D) where
    -- The first attempt reaches `connect` with the new socket.
    opened :
        (w : RequestWorld H D) (fd : ℤ) (m : ℕ) (os : Attempt)
        → w.state_fd ≡ negsuc 0
        → os.socket_fd ≡ pos m
        → request_connect handler attached w fd os
          ≡ connect_socket handler attached (open_socket w (pos m)) fd false os
    unfolding request_connect
    opened w fd m os fresh socket =
        ap (λ c. connect_with handler attached w fd (not (same_fd c (negsuc 0))) os.socket_fd os)
          fresh
        ∙ ap (λ c. connect_with handler attached w fd false c os) socket

    pending_run :
        (w : RequestWorld H D) (fd : ℤ) (m : ℕ) (os : Attempt) (s s2 : FdSelector H D)
        (st : SelectorStatus)
        → selector_fd_set_nio os.getfd os.setfl ≡ true
        → os.connected ≡ some einprogress
        → selector_set_interest_key w.selector fd op_noop ≡ some (selector_success, s)
        → selector_register s (pos m) (some handler) op_write attached os.got_memory ≡ some (st, s2)
        → connect_socket handler attached (open_socket w (pos m)) fd false os
          ≡ some (
            elim st [ selector_success ↦ request_connecting_state | _ ↦ error_state ],
            record (open_socket w (pos m)) { selector = s2 },
          )
    unfolding connect_socket connect_pending open_socket
    pending_run w fd m os s s2 st nio progress interest registered =
        rw (connect_socket, nio, progress, connect_pending, interest, registered) refl

    -- What an attempt that is under way leaves behind, or a registration that failed.
    abbrev pub Pending : RequestWorld H D → RequestWorld H D → Attempt → ℕ → ℕ → ℕ → Type 0
    Pending w w' os k m ret =
        ((ret ≡ request_connecting_state)
          × (accepts w.selector m os.got_memory ≡ true)
          × IsRegistered w'.selector m handler op_write attached
          × (w'.selector.master_r k ≡ false)
          × (w'.selector.master_w k ≡ false))
        ⊎ ((ret ≡ error_state) × (accepts w.selector m os.got_memory ≡ false))

    -- The first attempt to connect, with the client's descriptor registered and a new socket that
    -- the table has a place for, and with `connect` under way: no step leaves the table, which stays
    -- well formed; the session has the new descriptor. Either the session goes to
    -- REQUEST_CONNECTING, with the new socket watched for writing and the client's for nothing, and
    -- this exactly if the new descriptor is not in use and there is memory where the table has to
    -- grow; or else the session fails.
    pub request_connect-Pending :
        (w : RequestWorld H D) (k m : ℕ) (os : Attempt)
        → IsOpening w k m os
        → os.connected ≡ some einprogress
        → (ret : ℕ) × ((w' : RequestWorld H D) × (request_connect handler attached w (pos k) os
              ≡ some (ret, w'))
            × IsValid w'.selector
            × (w'.server.fd ≡ pos m)
            × (w'.output ≡ w.output)
            × Pending w w' os k m ret)
    unfolding open_socket
    request_connect-Pending w k m os v progress =
        let (s, interest, changed) =
          set_interest_key_run w.selector k op_noop v.valid v.small v.used in
        let (st, (s2, (run, valid, post))) =
          selector_register_lem s m handler op_write attached os.got_memory changed.valid
            v.socket_small (λ e. v.not_size (e ∙ changed.keeps_size)) in
        (
          _,
          (
            record (open_socket w (pos m)) { selector = s2 },
            opened w (pos k) m os v.fresh v.socket_eq
                ∙ pending_run w (pos k) m os s s2 st v.nio progress interest run,
            valid,
            refl,
            refl,
            after s s2 st (accepts-Changed w.selector s k op_noop m os.got_memory changed)
                changed.reads_it changed.writes_it post,
          ),
        )
      where
        after :
            (s s2 : FdSelector H D) (st : SelectorStatus)
            → accepts s m os.got_memory ≡ accepts w.selector m os.got_memory
            → s.master_r k ≡ false
            → s.master_w k ≡ false
            → RegisterPost s m handler op_write attached os.got_memory st s2
            → Pending w
                (record (open_socket w (pos m)) { selector = s2 })
                os
                k
                m
                (elim st [ selector_success ↦ request_connecting_state | _ ↦ error_state ])
        after s s2 selector_success same er ew (inl (ok, free, stored, keeps)) =
            let (kr, kw) = keeps k v.other in inl (refl, sym same ∙ free, stored, kr ∙ er, kw ∙ ew)
        after s s2 selector_success same er ew (inr (inl (bad, _, _))) = absurd (ground arith)
        after s s2 selector_success same er ew (inr (inr (bad, _, _, _))) = absurd (ground arith)
        after s s2 selector_enomem same er ew post = inr (
          refl,
          sym same
              ∙ RegisterPost-refused s s2 m handler op_write attached os.got_memory selector_enomem
                  post (λ e. ground arith),
        )
        after s s2 selector_maxfd same er ew post = inr (
          refl,
          sym same
              ∙ RegisterPost-refused s s2 m handler op_write attached os.got_memory selector_maxfd
                  post (λ e. ground arith),
        )
        after s s2 selector_iargs same er ew post = inr (
          refl,
          sym same
              ∙ RegisterPost-refused s s2 m handler op_write attached os.got_memory selector_iargs
                  post (λ e. ground arith),
        )
        after s s2 selector_fdinuse same er ew post = inr (
          refl,
          sym same
              ∙ RegisterPost-refused s s2 m handler op_write attached os.got_memory selector_fdinuse
                  post (λ e. ground arith),
        )
        after s s2 selector_io same er ew post = inr (
          refl,
          sym same
              ∙ RegisterPost-refused s s2 m handler op_write attached os.got_memory selector_io post
                  (λ e. ground arith),
        )

    failed_run :
        (w : RequestWorld H D) (fd : ℤ) (m errno n : ℕ) (os : Attempt) (b : Buffer)
        (s s2 : FdSelector H D) (st0 st : SelectorStatus)
        → selector_fd_set_nio os.getfd os.setfl ≡ true
        → os.connected ≡ some errno
        → (errno == einprogress) ≡ false
        → answer (record (open_socket w (pos m)) { status = errno_to_socks errno })
          ≡ some (pos n, b)
        → selector_set_interest w.selector w.client_fd op_write ≡ some (st0, s)
        → selector_register s (pos m) (some handler) op_noop attached os.got_memory ≡ some (st, s2)
        → connect_socket handler attached (open_socket w (pos m)) fd false os
          ≡ some (
            elim st [ selector_success ↦ request_write_state | _ ↦ error_state ],
            record (open_socket w (pos m)) {
              status = errno_to_socks errno;
              output = b;
              selector = s2;
            },
          )
    unfolding connect_socket connect_failed open_socket
    failed_run w fd m errno n os b s s2 st0 st nio failed other answered interest registered =
        rw (connect_socket, nio, failed, other, connect_failed, answered, interest, registered) refl

    abbrev pub Refused : RequestWorld H D → RequestWorld H D → Attempt → ℕ → ℕ → ℕ → Type 0
    Refused w w' os k m ret =
        ((ret ≡ request_write_state)
          × (accepts w.selector m os.got_memory ≡ true)
          × IsRegistered w'.selector m handler op_noop attached
          × (w'.selector.master_w k ≡ true)
          × (w'.selector.master_r k ≡ false))
        ⊎ ((ret ≡ error_state) × (accepts w.selector m os.got_memory ≡ false))

    -- The first attempt to connect, with the client's descriptor registered and a new socket that
    -- the table has a place for, an empty output with room for the answer, and `connect` failing at
    -- once with an error other than EINPROGRESS: the output holds the answer whose status is the reply
    -- code of RFC 1928 for that error. Either the session goes to REQUEST_WRITE, with the client's
    -- descriptor watched for writing only, and this exactly if the new descriptor is not in use and
    -- there is memory where the table has to grow; or else the session fails.
    pub request_connect-failed :
        (w : RequestWorld H D) (k m errno : ℕ) (os : Attempt) (aux : List ℕ)
        → IsOpening w k m os
        → w.client_fd ≡ pos k
        → os.connected ≡ some errno
        → errno ≢ einprogress
        → Holds w.output []
        → address_bytes w.parser.request.dest_addr_type w.parser.request.dest_addr ≡ some aux
        → length w.parser.request.dest_port ≡ 2
        → 6 + length aux ≤ w.output.limit - w.output.write
        → (ret : ℕ) × ((w' : RequestWorld H D) × (request_connect handler attached w (pos k) os
              ≡ some (ret, w'))
            × IsValid w'.selector
            × (w'.status ≡ reply_code reply_codes errno)
            × IsAnswered w w' aux
            × Refused w w' os k m ret)
    unfolding open_socket IsAnswered
    request_connect-failed w k m errno os aux v client failed other held enc two room =
        let w1 : RequestWorld H D = record (open_socket w (pos m)) {
          status = errno_to_socks errno;
        } in
        let (b, answered, h) = answer_lem w1 aux held enc two room in
        let (s, interest, changed) =
          set_interest_run w.selector k op_write v.valid v.small v.used in
        let (st, (s2, (run, valid, post))) =
          selector_register_lem s m handler op_noop attached os.got_memory changed.valid
            v.socket_small (λ e. v.not_size (e ∙ changed.keeps_size)) in
        (
          _,
          (
            record w1 { output = b; selector = s2 },
            opened w (pos k) m os v.fresh v.socket_eq
                ∙ failed_run w (pos k) m errno (6 + length aux) os b s s2 selector_success st v.nio
                    failed (ground arith) answered (rw client interest) run,
            valid,
            errno_to_socks-code errno,
            h,
            after s s2 st b (accepts-Changed w.selector s k op_write m os.got_memory changed)
                changed.reads_it changed.writes_it post,
          ),
        )
      where
        after :
            (s s2 : FdSelector H D) (st : SelectorStatus) (b : Buffer)
            → accepts s m os.got_memory ≡ accepts w.selector m os.got_memory
            → s.master_r k ≡ false
            → s.master_w k ≡ true
            → RegisterPost s m handler op_noop attached os.got_memory st s2
            → Refused w
                (record (open_socket w (pos m)) {
                  status = errno_to_socks errno;
                  output = b;
                  selector = s2;
                })
                os
                k
                m
                (elim st [ selector_success ↦ request_write_state | _ ↦ error_state ])
        after s s2 selector_success b same er ew (inl (ok, free, stored, keeps)) =
            let (kr, kw) = keeps k v.other in inl (refl, sym same ∙ free, stored, kw ∙ ew, kr ∙ er)
        after s s2 selector_success b same er ew (inr (inl (bad, _, _))) = absurd (ground arith)
        after s s2 selector_success b same er ew (inr (inr (bad, _, _, _))) = absurd (ground arith)
        after s s2 selector_enomem b same er ew post = inr (
          refl,
          sym same
              ∙ RegisterPost-refused s s2 m handler op_noop attached os.got_memory selector_enomem
                  post (λ e. ground arith),
        )
        after s s2 selector_maxfd b same er ew post = inr (
          refl,
          sym same
              ∙ RegisterPost-refused s s2 m handler op_noop attached os.got_memory selector_maxfd
                  post (λ e. ground arith),
        )
        after s s2 selector_iargs b same er ew post = inr (
          refl,
          sym same
              ∙ RegisterPost-refused s s2 m handler op_noop attached os.got_memory selector_iargs
                  post (λ e. ground arith),
        )
        after s s2 selector_fdinuse b same er ew post = inr (
          refl,
          sym same
              ∙ RegisterPost-refused s s2 m handler op_noop attached os.got_memory selector_fdinuse
                  post (λ e. ground arith),
        )
        after s s2 selector_io b same er ew post = inr (
          refl,
          sym same
              ∙ RegisterPost-refused s s2 m handler op_noop attached os.got_memory selector_io post
                  (λ e. ground arith),
        )

  connecting_run :
      (w : RequestWorld H D) (so_error n : ℕ) (b : Buffer) (s s2 : FdSelector H D)
      (st st2 : SelectorStatus)
      → w.arrived ≡ true
      → selector_set_interest w.selector w.client_fd op_write ≡ some (st, s)
      → answer
          (record w { selector = s; status = if so_error == 0 then status_succeeded else w.status })
        ≡ some (pos n, b)
      → selector_set_interest s w.server.fd op_read ≡ some (st2, s2)
      → request_connecting w (some so_error)
        ≡ some (
          request_write_state,
          record w {
            selector = s2;
            status = if so_error == 0 then status_succeeded else w.status;
            output = b;
          },
        )
  unfolding request_connecting connect_ended
  connecting_run w so_error n b s s2 st st2 arrived interest answered interest2 =
      if_true w.arrived _ none arrived ∙ rw (connect_ended, interest, answered, interest2) refl

  -- The end of an attempt, with both descriptors registered and an empty output with room for the
  -- answer: the output holds the answer, with the status for success if the socket has no error and
  -- else with the status from before, which is not that of the error; the session goes to
  -- REQUEST_WRITE, with the client's descriptor watched for writing only and the server's for reading
  -- only, whatever the error.
  pub request_connecting_lem :
      (w : RequestWorld H D) (k m so_error : ℕ) (aux : List ℕ)
      → w.arrived ≡ true
      → w.client_fd ≡ pos k
      → w.server.fd ≡ pos m
      → k ≢ m
      → k < 1024
      → m < 1024
      → IsValid w.selector
      → IsUsed w.selector k
      → IsUsed w.selector m
      → Holds w.output []
      → address_bytes w.parser.request.dest_addr_type w.parser.request.dest_addr ≡ some aux
      → length w.parser.request.dest_port ≡ 2
      → 6 + length aux ≤ w.output.limit - w.output.write
      → (w' : RequestWorld H D) × (request_connecting w (some so_error)
          ≡ some (request_write_state, w'))
        × IsValid w'.selector
        × (w'.status ≡ (if so_error == 0 then status_succeeded else w.status))
        × IsAnswered w w' aux
        × (w'.selector.master_w k ≡ true)
        × (w'.selector.master_r k ≡ false)
        × (w'.selector.master_r m ≡ true)
        × (w'.selector.master_w m ≡ false)
  unfolding IsAnswered
  request_connecting_lem w k m so_error aux arrived client server apart small small' valid used
        used' held enc two room =
      let (s, interest, c) = set_interest_run w.selector k op_write valid small used in
      let (s2, interest2, c2) =
        set_interest_run s m op_read c.valid small' (c.keeps_used m used') in
      let w1 : RequestWorld H D = record w {
        selector = s;
        status = if so_error == 0 then status_succeeded else w.status;
      } in
      let (b, answered, h) = answer_lem w1 aux held enc two room in
      (
        record w1 { output = b; selector = s2 },
        connecting_run w so_error (6 + length aux) b s s2 selector_success selector_success arrived
            (rw client interest) answered (rw server interest2),
        c2.valid,
        refl,
        h,
        c2.keeps_w k (λ e. apart (sym e)) ∙ c.writes_it,
        c2.keeps_r k (λ e. apart (sym e)) ∙ c.reads_it,
        c2.reads_it,
        c2.writes_it,
      )

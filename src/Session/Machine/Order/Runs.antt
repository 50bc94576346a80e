-- ===== src/Session/Machine/Order/Runs.antt =====
-- The order of the states in any run of a session.
use pdc_20221c.Prelude.{
  ℕ, zero, suc, ◌≤◌, ◌≡◌, refl, sym, ap, ◌∙◌, Option, none, some, List, ◌>>=◌, >>=-eq-some,
  get_elem?, arith,
}
use mathlib.Core.Option.{some-injective}
use pdc_20221c.Stm.{StateDefinition, StateMachine, stm_handler_read, stm_handler_write}
use pdc_20221c.Stm.Laws.{IsTable, stm_init-IsTable}
use pdc_20221c.Stm.Run.{start_of, Handled, handler-Handled}
use pdc_20221c.Session.Machine.{
  Session, Event, Key, Ready, for_read, for_write, lifted, with_hello, with_request, with_copies,
  stm_map, stm_create, handle,
}
use pdc_20221c.Session.Machine.Order.{Follows, Returns}
use pdc_20221c.Session.Machine.Order.Handlers.{
  hello_read-Follows, hello_write-Follows, copy_read-Follows, copy_write-Follows,
}
use pdc_20221c.Session.Machine.Order.Requests.{
  request_read-Follows, request_write-Follows, request_connecting-Follows,
}

module _ {H D W : Type 0} where
  Returns-lifted :
      {V : Type 0} (P : ℕ → Type 0) (put : Session H D W → V → Session H D W) (k : Key H D W)
      (run : Option (ℕ × V))
      → Returns run P
      → Returns (lifted put k run) P
  Returns-lifted P put k run h ret k' e =
      let ((r, v), e1, e2) = >>=-eq-some run _ e in
      let same : r ≡ ret = ground arith in rw (← same) (h r v e1)

  module _ (handler : H) (sniffer : W → List ℕ → Option W) where
    -- The machine of a session, in any state.
    pub record IsSessionMachine (stm : StateMachine (Key H D W)) : Type 0 where
      pub initial_eq : stm.initial ≡ 0
      pub max_state_eq : stm.max_state ≡ 7
      pub states_eq : stm.states ≡ stm_map handler sniffer

    -- Whatever the memory of a machine had, `stm_create` does not abort; the machine that it makes
    -- has the table of the session, where each state has its own number up to DONE, starts in
    -- HELLO_READ, and is in no state yet.
    pub stm_create_lem :
        (stm : StateMachine (Key H D W))
        → (stm' : StateMachine (Key H D W)) × (stm_create handler sniffer stm ≡ some stm')
          × IsSessionMachine stm'
          × IsTable stm'
          × (stm'.current ≡ none)
    unfolding stm_create
    stm_create_lem stm =
        let stm' : StateMachine (Key H D W) = record stm {
          initial = 0;
          max_state = 7;
          states = stm_map handler sniffer;
          current = none;
        } in
        (
          stm',
          refl,
          record { initial_eq = refl; max_state_eq = refl; states_eq = refl },
          (stm_init-IsTable stm' stm' refl).0,
          refl,
        )

    -- The callback of a state of the table, for reading or for writing.
    callback : Ready → ℕ → Option (Key H D W → Option (ℕ × Key H D W))
    callback for_read c = get_elem? (stm_map handler sniffer) c >>= λ d. d.on_read_ready
    callback for_write c = get_elem? (stm_map handler sniffer) c >>= λ d. d.on_write_ready

    from_table :
        (c : ℕ) (own ready : Key H D W → Option (ℕ × Key H D W)) (k : Key H D W)
        → some own ≡ some ready
        → Returns (own k) (Follows c)
        → Returns (ready k) (Follows c)
    from_table c own ready k e h = rw (← some-injective own ready e) h

    callback-Follows :
        (kind : Ready) (c : ℕ) (ready : Key H D W → Option (ℕ × Key H D W)) (k : Key H D W)
        → callback kind c ≡ some ready
        → Returns (ready k) (Follows c)
    unfolding stm_map callback
    callback-Follows for_read zero ready k e = from_table 0 _ ready k e (
        Returns-lifted (Follows 0) with_hello k _
          (hello_read-Follows _ k.event.fd k.event.received))
    callback-Follows for_read (suc zero) ready k e = absurd (ground arith)
    callback-Follows for_read (suc (suc zero)) ready k e = from_table 2 _ ready k e (
        Returns-lifted (Follows 2) with_request k _ (
          request_read-Follows handler k.event.attached _ k.event.fd k.event.received
            k.event.attempt))
    callback-Follows for_read (suc (suc (suc zero))) ready k e = absurd (ground arith)
    callback-Follows for_read (suc (suc (suc (suc zero)))) ready k e = absurd (ground arith)
    callback-Follows for_read (suc (suc (suc (suc (suc zero))))) ready k e =
        from_table 5 _ ready k e (
          Returns-lifted (Follows 5) with_copies k _
            (copy_read-Follows sniffer _ k.event.fd k.event.received))
    callback-Follows for_read (suc (suc (suc (suc (suc (suc zero)))))) ready k e =
        absurd (ground arith)
    callback-Follows for_read (suc (suc (suc (suc (suc (suc (suc zero))))))) ready k e =
        absurd (ground arith)
    callback-Follows for_read (suc (suc (suc (suc (suc (suc (suc (suc c)))))))) ready k e =
        absurd (ground arith)
    callback-Follows for_write zero ready k e = absurd (ground arith)
    callback-Follows for_write (suc zero) ready k e =
        from_table 1 _ ready k e (
          Returns-lifted (Follows 1) with_hello k _ (hello_write-Follows _ k.event.fd k.event.sent))
    callback-Follows for_write (suc (suc zero)) ready k e = absurd (ground arith)
    callback-Follows for_write (suc (suc (suc zero))) ready k e = from_table 3 _ ready k e (
        Returns-lifted (Follows 3) with_request k _ (request_connecting-Follows _ k.event.so_error))
    callback-Follows for_write (suc (suc (suc (suc zero)))) ready k e = from_table 4 _ ready k e (
        Returns-lifted (Follows 4) with_request k _
          (request_write-Follows _ k.event.fd k.event.sent))
    callback-Follows for_write (suc (suc (suc (suc (suc zero))))) ready k e =
        from_table 5 _ ready k e (
          Returns-lifted (Follows 5) with_copies k _
            (copy_write-Follows sniffer _ k.event.fd k.event.sent))
    callback-Follows for_write (suc (suc (suc (suc (suc (suc zero)))))) ready k e =
        absurd (ground arith)
    callback-Follows for_write (suc (suc (suc (suc (suc (suc (suc zero))))))) ready k e =
        absurd (ground arith)
    callback-Follows for_write (suc (suc (suc (suc (suc (suc (suc (suc c)))))))) ready k e =
        absurd (ground arith)

    pub on : Ready → StateDefinition (Key H D W) → Option (Key H D W → Option (ℕ × Key H D W))
    on for_read d = d.on_read_ready
    on for_write d = d.on_write_ready

    callback-on :
        (kind : Ready) (c : ℕ) (d : StateDefinition (Key H D W))
        (ready : Key H D W → Option (ℕ × Key H D W))
        → get_elem? (stm_map handler sniffer) c ≡ some d
        → on kind d ≡ some ready
        → callback kind c ≡ some ready
    unfolding callback on
    callback-on for_read c d ready e r = rw e r
    callback-on for_write c d ready e r = rw e r

    handle-Handled :
        (kind : Ready) (stm stm' : StateMachine (Key H D W)) (s s' : Session H D W) (e : Event D)
        (ret : ℕ)
        → handle stm s kind e ≡ some (ret, stm', s')
        → Handled (on kind) stm stm' ret
    unfolding handle on stm_handler_read stm_handler_write
    handle-Handled for_read stm stm' s s' e ret h =
        let ((r, m, k), e1, e2) =
          >>=-eq-some (stm_handler_read stm (record { session = s; event = e })) _ h in
        let er : r ≡ ret = ground arith in
        let em : m ≡ stm' = ground arith in
        rw (← er, ← em) (handler-Handled (λ d. d.on_read_ready) stm m _ k r e1)
    handle-Handled for_write stm stm' s s' e ret h =
        let ((r, m, k), e1, e2) =
          >>=-eq-some (stm_handler_write stm (record { session = s; event = e })) _ h in
        let er : r ≡ ret = ground arith in
        let em : m ≡ stm' = ground arith in
        rw (← er, ← em) (handler-Handled (λ d. d.on_write_ready) stm m _ k r e1)

    -- An event that a session has handled takes its machine to a state that may follow the one it
    -- was in, and that is a state of the table: so never to one of the two of the authentication.
    pub handle-Follows :
        (kind : Ready) (stm stm' : StateMachine (Key H D W)) (s s' : Session H D W) (e : Event D)
        (ret : ℕ)
        → IsSessionMachine stm
        → handle stm s kind e ≡ some (ret, stm', s')
        → Follows (start_of stm) ret × (ret ≤ 7) × IsSessionMachine stm' × (stm'.current ≡ some ret)
    handle-Follows kind stm stm' s s' e ret v h =
        let run = handle-Handled kind stm stm' s s' e ret h in
        (
          callback-Follows kind (start_of stm) run.ready run.before
              (callback-on kind (start_of stm) run.definition run.ready
                (ap (λ l. get_elem? l (start_of stm)) (sym v.states_eq) ∙ run.found) run.selected)
              ret run.after run.ran,
          omega (arith, v.max_state_eq, run.le),
          record {
            initial_eq = run.same.initial_eq ∙ v.initial_eq;
            max_state_eq = run.same.max_state_eq ∙ v.max_state_eq;
            states_eq = run.same.states_eq ∙ v.states_eq;
          },
          run.at,
        )

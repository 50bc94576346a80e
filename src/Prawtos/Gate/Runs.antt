-- ===== src/Prawtos/Gate/Runs.antt =====
-- Runs of a session of src/prawtos/prawtos.c among others, which may change the users.
use pdc_20221c.Prelude.{
  ℕ, zero, suc, ◌≡◌, refl, Option, none, some, Bool, true, ◌||◌, ◌&&◌, List, [], ◌∷◌, ◌==◌, ◌>>=◌,
  >>=-eq-some, arith, ap, sym, ◌∙◌, get_elem?,
}
use mathlib.Core.Option.{some-injective}
use pdc_20221c.Prawtos.{PrawtosWorld, auth_prawtos_init}
use pdc_20221c.Prawtos.Gate.{
  Closed, Locked, reading, turned_away, failed, Outside, read-Leaves, write-Leaves,
}
use pdc_20221c.Prawtos.Server.{
  PrawtosKey, PrawtosEvent, prawtos_init_states, prawtos_handle, put_world,
}
use pdc_20221c.Selector.{FdSelector}
use pdc_20221c.Session.Machine.{Ready, for_read, for_write}
use pdc_20221c.Stadistics.{Stadistics}
use pdc_20221c.Stm.{
  StateDefinition, StateMachine, call_if, handler, stm_handler_read, stm_handler_write,
}
use pdc_20221c.Stm.Keeps.{Keeps, handler-keeps}
use pdc_20221c.Stm.Run.{start_of, start_of-initial, start_of-current, handler-Handled}
use pdc_20221c.Users.{UserList}

-- An event of the session, and what the rest of the server has left for it.
pub record Step (H D : Type 0) : Type 0 where
  pub ready : Ready
  pub event : PrawtosEvent
  pub selector : FdSelector H D
  pub stadistics : Stadistics
  pub users : UserList

-- No state in which commands are read, or carried out, or answered.
abbrev pub outside : List ℕ → Bool
outside [] = true
outside (r ∷ rs) = (r == 0 || r == 1 || r == 5) && outside rs

module _ {H D : Type 0} where
  abbrev pub before_step : Step H D → PrawtosWorld H D → PrawtosWorld H D
  before_step st w = record w {
    selector = st.selector;
    stadistics = st.stadistics;
    users = st.users;
  }

  -- The states that the handlers return.
  unfoldable pub prawtos_run :
      List (Step H D)
      → StateMachine (PrawtosKey H D)
      → PrawtosWorld H D
      → Option (List ℕ × StateMachine (PrawtosKey H D) × PrawtosWorld H D)
  prawtos_run [] stm w = some ([], stm, w)
  prawtos_run (st ∷ steps) stm w =
      prawtos_handle stm (before_step st w) st.ready st.event >>= λ (ret, stm1, w1).
      prawtos_run steps stm1 w1 >>= λ (rets, stm2, w2). some (ret ∷ rets, stm2, w2)

  -- At every event, no name and password make an administrator.
  pub data AllClosed : List (Step H D) → Type 0 where
    no_steps : AllClosed []
    one_step :
        (st : Step H D) (steps : List (Step H D))
        → Closed st.users
        → AllClosed steps
        → AllClosed (st ∷ steps)

  Locked-copy :
      (w w' : PrawtosWorld H D) (n : ℕ) → w'.auth_status ≡ w.auth_status → Locked w n → Locked w' n
  Locked-copy w w' _ e reading = reading
  Locked-copy w w' _ e (turned_away r) = turned_away (rw e r)
  Locked-copy w w' _ e failed = failed

  abbrev Out : ℕ → PrawtosKey H D → Type 0
  Out n k = Outside n k.world

  no_departure :
      (c : ℕ) (d : StateDefinition (PrawtosKey H D))
      → get_elem? prawtos_init_states c ≡ some d
      → d.on_departure ≡ none
  unfolding prawtos_init_states
  no_departure zero d e = ap (λ x. x.on_departure) (sym (some-injective _ d e))
  no_departure (suc zero) d e = ap (λ x. x.on_departure) (sym (some-injective _ d e))
  no_departure (suc (suc zero)) d e = ap (λ x. x.on_departure) (sym (some-injective _ d e))
  no_departure (suc (suc (suc zero))) d e = ap (λ x. x.on_departure) (sym (some-injective _ d e))
  no_departure (suc (suc (suc (suc zero)))) d e =
      ap (λ x. x.on_departure) (sym (some-injective _ d e))
  no_departure (suc (suc (suc (suc (suc zero))))) d e =
      ap (λ x. x.on_departure) (sym (some-injective _ d e))
  no_departure (suc (suc (suc (suc (suc (suc c)))))) d e = absurd (ground arith)

  departs :
      (n : ℕ) (departure : Option (ℕ → PrawtosKey H D → Option (PrawtosKey H D))) (state : ℕ)
      (k k' : PrawtosKey H D)
      → departure ≡ none
      → call_if departure state k ≡ some k'
      → Out n k
      → Out n k'
  departs n departure state k k' e h o =
      let same : k ≡ k' = some-injective k k' (rw e at h) in rw (← same) o

  -- The callback of a state of the table when it is entered.
  arrival : ℕ → PrawtosKey H D → Option (PrawtosKey H D)
  arrival n k = get_elem? prawtos_init_states n >>= λ d. call_if d.on_arrival d.state k

  arrival-Out :
      (n : ℕ) (k k' : PrawtosKey H D)
      → Locked k.world n
      → Closed k.world.users
      → arrival n k ≡ some k'
      → Out n k'
  unfolding arrival prawtos_init_states auth_prawtos_init
  arrival-Out _ k k' reading closed h =
      rw (← some-injective _ k' h) (record { locked = reading; closed = closed })
  arrival-Out _ k k' (turned_away r) closed h =
      rw (← some-injective _ k' h) (record { locked = turned_away r; closed = closed })
  arrival-Out _ k k' failed closed h =
      rw (← some-injective _ k' h) (record { locked = failed; closed = closed })

  table-Keeps : Keeps prawtos_init_states Out
  unfolding arrival
  table-Keeps = record {
    arrives = λ n d k k' at h o. arrival-Out n k k' o.locked o.closed (rw at h);
    departs = λ c n d k k' at h o. departs n d.on_departure d.state k k' (no_departure c d at) h o;
  }

  on :
      Ready
      → StateDefinition (PrawtosKey H D)
      → Option (PrawtosKey H D → Option (ℕ × PrawtosKey H D))
  on for_read d = d.on_read_ready
  on for_write d = d.on_write_ready

  -- The callback of a state of the table for an event.
  callback : Ready → ℕ → Option (PrawtosKey H D → Option (ℕ × PrawtosKey H D))
  callback kind c = get_elem? prawtos_init_states c >>= on kind

  put-Out :
      (k k' : PrawtosKey H D) (run : Option (ℕ × PrawtosWorld H D)) (ret : ℕ)
      → ((r : ℕ) (w : PrawtosWorld H D) → run ≡ some (r, w) → Outside r w)
      → put_world k run ≡ some (ret, k')
      → Out ret k'
  put-Out k k' run ret leaves e =
      let ((r, w), e1, e2) = >>=-eq-some run _ e in
      let same : r ≡ ret = ground arith in
      let here : w ≡ k'.world = ground arith in rw (← same, ← here) (leaves r w e1)

  callback-Out :
      (kind : Ready) (c ret : ℕ) (ready : PrawtosKey H D → Option (ℕ × PrawtosKey H D))
      (k k' : PrawtosKey H D)
      → Locked k.world c
      → Closed k.world.users
      → callback kind c ≡ some ready
      → ready k ≡ some (ret, k')
      → Out ret k'
  unfolding callback on prawtos_init_states
  callback-Out for_read _ ret ready k k' reading closed e ran =
      put-Out k k' _ ret (read-Leaves k.world k.event.fd k.event.received closed)
        (rw (← some-injective _ ready e) at ran)
  callback-Out for_read _ ret ready k k' (turned_away r) closed e ran = absurd (ground arith)
  callback-Out for_read _ ret ready k k' failed closed e ran = absurd (ground arith)
  callback-Out for_write _ ret ready k k' reading closed e ran = absurd (ground arith)
  callback-Out for_write _ ret ready k k' (turned_away r) closed e ran =
      put-Out k k' _ ret (write-Leaves k.world k.event.fd k.event.sent closed r)
        (rw (← some-injective _ ready e) at ran)
  callback-Out for_write _ ret ready k k' failed closed e ran = absurd (ground arith)

  -- The machine of a session.
  pub record IsPrawtosMachine (stm : StateMachine (PrawtosKey H D)) : Type 0 where
    pub initial_eq : stm.initial ≡ 0
    pub states_eq : stm.states ≡ prawtos_init_states

  handled :
      (kind : Ready) (stm stm' : StateMachine (PrawtosKey H D)) (k k' : PrawtosKey H D) (ret : ℕ)
      → IsPrawtosMachine stm
      → handler (on kind) stm k ≡ some (ret, stm', k')
      → Out (start_of stm) k
      → Out ret k' × IsPrawtosMachine stm' × (start_of stm' ≡ ret)
  unfolding callback
  handled kind stm stm' k k' ret v h o =
      let ran = handler-Handled (on kind) stm stm' k k' ret h in
      (
        handler-keeps Out (on kind) stm stm' k k' ret (rw v.states_eq table-Keeps)
            (λ c n d ready a b at selected done here.
              callback-Out kind c n ready a b here.locked here.closed
                (rw (ap (λ l. get_elem? l c) (sym v.states_eq) ∙ at, selected) refl) done)
            h o,
        record {
          initial_eq = ran.same.initial_eq ∙ v.initial_eq;
          states_eq = ran.same.states_eq ∙ v.states_eq;
        },
        start_of-current stm' ret ran.at,
      )

  handle_lem :
      (kind : Ready) (stm stm' : StateMachine (PrawtosKey H D)) (w w' : PrawtosWorld H D)
      (e : PrawtosEvent) (ret : ℕ)
      → IsPrawtosMachine stm
      → prawtos_handle stm w kind e ≡ some (ret, stm', w')
      → Outside (start_of stm) w
      → Outside ret w' × IsPrawtosMachine stm' × (start_of stm' ≡ ret)
  unfolding prawtos_handle on stm_handler_read stm_handler_write
  handle_lem for_read stm stm' w w' e ret v h o =
      let ((r, m, k), e1, e2) =
        >>=-eq-some (stm_handler_read stm (record { world = w; event = e })) _ h in
      let er : r ≡ ret = ground arith in
      let em : m ≡ stm' = ground arith in
      let ew : k.world ≡ w' = ground arith in
      rw (← er, ← em, ← ew) (handled for_read stm m (record { world = w; event = e }) k r v e1 o)
  handle_lem for_write stm stm' w w' e ret v h o =
      let ((r, m, k), e1, e2) =
        >>=-eq-some (stm_handler_write stm (record { world = w; event = e })) _ h in
      let er : r ≡ ret = ground arith in
      let em : m ≡ stm' = ground arith in
      let ew : k.world ≡ w' = ground arith in
      rw (← er, ← em, ← ew) (handled for_write stm m (record { world = w; event = e }) k r v e1 o)

  Locked-outside : (w : PrawtosWorld H D) (n : ℕ) → Locked w n → (n == 0 || n == 1 || n == 5) ≡ true
  Locked-outside w _ reading = refl
  Locked-outside w _ (turned_away r) = refl
  Locked-outside w _ failed = refl

  run-outside :
      (steps : List (Step H D)) (stm stm' : StateMachine (PrawtosKey H D)) (w w' : PrawtosWorld H D)
      (rets : List ℕ)
      → IsPrawtosMachine stm
      → Locked w (start_of stm)
      → AllClosed steps
      → prawtos_run steps stm w ≡ some (rets, stm', w')
      → outside rets ≡ true
  unfolding prawtos_run
  run-outside [] stm stm' w w' rets v locked no_steps h =
      let none_left : [] ≡ rets = ground arith in rw (← none_left) refl
  run-outside (st ∷ steps) stm stm' w w' rets v locked (one_step _ _ closed others) h =
      let ((ret, stm1, w1), e1, h1) =
        >>=-eq-some (prawtos_handle stm (before_step st w) st.ready st.event) _ h in
      let ((later, stm2, w2), e2, h2) = >>=-eq-some (prawtos_run steps stm1 w1) _ h1 in
      let (o, v1, at) =
        handle_lem st.ready stm stm1 (before_step st w) w1 st.event ret v e1 (record {
          locked = Locked-copy w (before_step st w) (start_of stm) refl locked;
          closed = closed;
        }) in
      let all : ret ∷ later ≡ rets = ground arith in
      let rest = run-outside steps stm1 stm2 w1 w2 later v1 (rw at o.locked) others e2 in
      rw (← all, Locked-outside w1 ret o.locked) rest

  -- Any run of a session whose machine has not started, over any events and whatever other sessions
  -- do between them, as long as nothing aborts: while the table of users makes no name and password
  -- an administrator, the session is never in a state in which commands are read, carried out or
  -- answered.
  pub prawtos_run-locked :
      (steps : List (Step H D)) (stm stm' : StateMachine (PrawtosKey H D)) (w w' : PrawtosWorld H D)
      (rets : List ℕ)
      → IsPrawtosMachine stm
      → stm.current ≡ none
      → AllClosed steps
      → prawtos_run steps stm w ≡ some (rets, stm', w')
      → outside rets ≡ true
  prawtos_run-locked steps stm stm' w w' rets v fresh closed h =
      run-outside steps stm stm' w w' rets v
        (rw (start_of-initial stm fresh ∙ v.initial_eq) reading) closed h

-- ===== src/Prawtos/Server/Accept.antt =====
-- New sessions in src/prawtos/prawtos.c.
use pdc_20221c.Prelude.{
  ℕ, zero, ◌<◌, ◌≡◌, ◌≢◌, refl, ◌∙◌, Option, none, some, Bool, true, false, List, [], ◌∷◌, ℤ, pos,
  replicate, length-replicate, arith, ◌&&◌, Bool-cases, inl, inr, ◌⊎◌, if◌then◌else◌,
}
use pdc_20221c.Buffer.{buffer_init}
use pdc_20221c.Buffer.Contents.{Holds, buffer_init-Holds}
use pdc_20221c.Prawtos.Server.{
  PrawtosHandler, prawtos_handler, Administrator, PrawtosServer, prawtos_arrival,
  prawtos_passive_accept, accept_failed, prawtos_close, is_open, prawtos_init_states, zero_session,
  put_session, buffer_size,
}
use pdc_20221c.Prawtos.Server.Close.{without_one, counters_lem, put_session-here}
use pdc_20221c.Selector.{
  FdSelector, SelectorStatus, selector_success, selector_enomem, selector_maxfd, selector_iargs,
  selector_fdinuse, selector_io, selector_register, selector_fd_set_nio, op_read,
}
use pdc_20221c.Selector.Invariant.{IsValid}
use pdc_20221c.Selector.Operations.{RegisterPost, selector_register_lem}
use pdc_20221c.Stadistics.{stadistics_increase_concurrent}

-- A session that has not started: empty buffers of 4096 bytes, and the machine of its table.
pub record IsNew (cell : Administrator) (fd : ℤ) : Type 0 where
  pub fd_eq : cell.world.client_fd ≡ fd
  pub states_eq : cell.stm.states ≡ prawtos_init_states
  pub initial_eq : cell.stm.initial ≡ 0
  pub not_started : cell.stm.current ≡ none
  pub read_held : Holds cell.world.read_buffer []
  pub read_limit : cell.world.read_buffer.limit ≡ buffer_size
  pub write_held : Holds cell.world.write_buffer []
  pub write_limit : cell.world.write_buffer.limit ≡ buffer_size

-- The session that `prawtos_arrival` makes.
abbrev new_session : PrawtosServer → ℤ → Administrator
new_session p fd = record {
  stm = record { initial = 0; states = prawtos_init_states; max_state = 5; current = none };
  world = zero_session fd p;
}

new_session-IsNew : (p : PrawtosServer) (fd : ℤ) → IsNew (new_session p fd) fd
unfolding buffer_init
new_session-IsNew p fd = record {
  fd_eq = refl;
  states_eq = refl;
  initial_eq = refl;
  not_started = refl;
  read_held = buffer_init-Holds 4096 (replicate 4096 0) (omega (arith, length-replicate 4096 zero));
  read_limit = refl;
  write_held =
      buffer_init-Holds 4096 (replicate 4096 0) (omega (arith, length-replicate 4096 zero));
  write_limit = refl;
}

-- What a registration leaves behind, before its result is looked at.
abbrev entered_as : PrawtosServer → ℕ → ℤ → FdSelector PrawtosHandler ℕ → PrawtosServer
entered_as p address client s = record p {
  heap = record p.heap { cells = put_session p.heap.cells address (some (new_session p client)) };
  selector = s;
}

accept_run :
    (p : PrawtosServer) (passive : ℕ) (attached : Option ℕ) (client : ℤ) (getfd : Option ℕ)
    (setfl : ℕ → Bool) (address : ℕ) (got_memory : Bool) (st : SelectorStatus)
    (s : FdSelector PrawtosHandler ℕ)
    → selector_fd_set_nio getfd setfl ≡ true
    → selector_register p.selector client (some prawtos_handler) op_read (some address) got_memory
      ≡ some (st, s)
    → prawtos_passive_accept p passive attached client getfd setfl address (true, got_memory)
      ≡ elim st [
        | selector_success ↦ some (record (entered_as p address client s) {
          heap = record (entered_as p address client s).heap {
            stadistics = stadistics_increase_concurrent p.heap.stadistics;
          };
        })
        | _ ↦ accept_failed (entered_as p address client s) passive attached client
      ]
unfolding prawtos_passive_accept prawtos_arrival
accept_run p passive attached client getfd setfl address got_memory st s nio registered =
    rw (prawtos_passive_accept, nio, registered) refl

failed_run :
    (p : PrawtosServer) (passive : ℕ) (client : ℤ) (closes : List ℤ)
    → (if is_open client then client ∷ p.heap.closes else p.heap.closes) ≡ closes
    → accept_failed p passive none client
      ≡ some (record p {
        heap = record p.heap { closes = closes; stadistics = without_one p.heap.stadistics };
      })
unfolding accept_failed prawtos_close
failed_run p passive client closes e = rw (e, counters_lem p.heap.stadistics) refl

-- Where the new descriptor cannot be made non-blocking, as for the -1 of a failed `accept`, or there
-- is no memory for the session, while the listening socket has no data: no session and no
-- descriptor is added, a valid descriptor is closed, but one connection less is counted than before,
-- if there were any.
pub prawtos_passive_accept-failed :
    (p : PrawtosServer) (passive : ℕ) (client : ℤ) (getfd : Option ℕ) (setfl : ℕ → Bool)
    (address : ℕ) (got_session got_memory : Bool)
    → (selector_fd_set_nio getfd setfl && got_session) ≡ false
    → prawtos_passive_accept p passive none client getfd setfl address (got_session, got_memory)
      ≡ some (record p {
        heap = record p.heap {
          closes = if is_open client then client ∷ p.heap.closes else p.heap.closes;
          stadistics = without_one p.heap.stadistics;
        };
      })
unfolding prawtos_passive_accept prawtos_arrival
prawtos_passive_accept-failed p passive client getfd setfl address got_session got_memory failed =
    elim (Bool-cases (selector_fd_set_nio getfd setfl)) [
      | inr blocking ↦ rw (prawtos_passive_accept, blocking) (failed_run p passive client _ refl)
      | inl nio ↦
          let no_memory : got_session ≡ false = ground arith in
          rw (prawtos_passive_accept, nio, no_memory, prawtos_arrival)
            (failed_run p passive client _ refl)
    ]

-- A new session that is registered, or one whose registration failed: then its memory is kept, its
-- descriptor is closed, and one connection less is counted.
pub record Entered (p p' : PrawtosServer) (address k : ℕ) (ret : SelectorStatus) : Type 0 where
  pub cell : Administrator
  pub stored : p'.heap.cells address ≡ some cell
  pub is_new : IsNew cell (pos k)
  pub outcome :
      ((ret ≡ selector_success)
        × (p'.heap.stadistics ≡ stadistics_increase_concurrent p.heap.stadistics)
        × (p'.heap.closes ≡ p.heap.closes))
      ⊎ ((ret ≢ selector_success)
          × (p'.heap.stadistics ≡ without_one p.heap.stadistics)
          × (p'.heap.closes ≡ pos k ∷ p.heap.closes))

registration_failed :
    (p : PrawtosServer) (address k passive : ℕ) (s : FdSelector PrawtosHandler ℕ)
    (st : SelectorStatus) (r : Option PrawtosServer)
    → r ≡ accept_failed (entered_as p address (pos k) s) passive none (pos k)
    → st ≢ selector_success
    → (p' : PrawtosServer) × (r ≡ some p') × (p'.selector ≡ s) × Entered p p' address k st
registration_failed p address k passive s st r e other = (
  _,
  e ∙ failed_run (entered_as p address (pos k) s) passive (pos k) _ refl,
  refl,
  record {
    cell = new_session p (pos k);
    stored = put_session-here p.heap.cells address _;
    is_new = new_session-IsNew p (pos k);
    outcome = inr (other, refl, refl);
  },
)

registration_outcome :
    (p : PrawtosServer) (address k passive : ℕ) (s : FdSelector PrawtosHandler ℕ)
    (st : SelectorStatus) (r : Option PrawtosServer)
    → r ≡ elim st [
      | selector_success ↦ some (record (entered_as p address (pos k) s) {
        heap = record (entered_as p address (pos k) s).heap {
          stadistics = stadistics_increase_concurrent p.heap.stadistics;
        };
      })
      | _ ↦ accept_failed (entered_as p address (pos k) s) passive none (pos k)
    ]
    → (p' : PrawtosServer) × (r ≡ some p') × (p'.selector ≡ s) × Entered p p' address k st
registration_outcome p address k passive s selector_success r e = (
  _,
  e,
  refl,
  record {
    cell = new_session p (pos k);
    stored = put_session-here p.heap.cells address _;
    is_new = new_session-IsNew p (pos k);
    outcome = inl (refl, refl, refl);
  },
)
registration_outcome p address k passive s selector_enomem r e =
    registration_failed p address k passive s selector_enomem r e (λ same. ground arith)
registration_outcome p address k passive s selector_maxfd r e =
    registration_failed p address k passive s selector_maxfd r e (λ same. ground arith)
registration_outcome p address k passive s selector_iargs r e =
    registration_failed p address k passive s selector_iargs r e (λ same. ground arith)
registration_outcome p address k passive s selector_fdinuse r e =
    registration_failed p address k passive s selector_fdinuse r e (λ same. ground arith)
registration_outcome p address k passive s selector_io r e =
    registration_failed p address k passive s selector_io r e (λ same. ground arith)

-- A connection whose descriptor the table has a place for, made non-blocking, and with memory for
-- the session, on a listening socket without data: the new session has empty buffers and the
-- machine of its table, and the table of descriptors is well formed. If the descriptor is free, and
-- there is memory where the table has to grow, the session is registered for reading and counted, and
-- nothing is closed; otherwise the table of descriptors stays as it is, the descriptor is closed, the
-- memory of the session is not freed, and one connection less is counted.
pub prawtos_passive_accept_lem :
    (p : PrawtosServer) (passive k : ℕ) (getfd : Option ℕ) (setfl : ℕ → Bool) (address : ℕ)
    (got_memory : Bool)
    → IsValid p.selector
    → k < 1024
    → k ≢ p.selector.fd_size
    → selector_fd_set_nio getfd setfl ≡ true
    → (p' : PrawtosServer) × (prawtos_passive_accept p passive none
          (pos k)
          getfd
          setfl
          address
          (true, got_memory)
        ≡ some p')
      × IsValid p'.selector
      × ((ret : SelectorStatus) × RegisterPost p.selector k prawtos_handler op_read
            (some address)
            got_memory
            ret
            p'.selector
          × Entered p p' address k ret)
prawtos_passive_accept_lem p passive k getfd setfl address got_memory valid small apart nio =
    let (ret, (s, (run, valid', post))) =
      selector_register_lem p.selector k prawtos_handler op_read (some address) got_memory valid
        small apart in
    let (p', ran, same, entered) =
      registration_outcome p address k passive s ret _
        (accept_run p passive none (pos k) getfd setfl address got_memory ret s nio run) in
    (p', ran, rw same valid', (ret, rw same post, entered))

-- ===== src/Session/Machine.antt =====
-- src/stm/stm_initialize.c: the table of the states of a session, over the engine of src/stm/stm.c.
-- `H` names the handlers of the selector and `D` is the data attached to a descriptor. The members
-- of the two unions of the session are fields of their own here: a state reads of them what its own
-- arrival or an earlier state of the same member wrote, and `hello_arrival` and `request_arrival`
-- leave alone what they do not set.
pub mod Order
pub mod Aborts
use pdc_20221c.Prelude.{ℕ, Option, none, some, Bool, List, [], ◌∷◌, ◌>>=◌, ℤ}
use pdc_20221c.Buffer.{Buffer}
use pdc_20221c.Parser.Hello.{HelloParser}
use pdc_20221c.Parser.Request.{RequestParser}
use pdc_20221c.Selector.{FdSelector}
use pdc_20221c.Stadistics.{Stadistics}
use pdc_20221c.Stm.{StateDefinition, StateMachine, stm_init, stm_handler_read, stm_handler_write}
use pdc_20221c.Session.Copy.{
  CopySt, World, Shut, copy_arrival, copy_read, copy_write, state_copy, state_done,
}
use pdc_20221c.Session.Hello.{
  HelloWorld, hello_arrival, hello_read, hello_write, hello_read_state, hello_write_state,
  request_read_state, error_state,
}
use pdc_20221c.Session.Request.{
  RequestWorld, Connection, Attempt, request_arrival, request_read, request_write,
  request_connecting_arrival, request_connecting, request_connecting_state, request_write_state,
}

-- `Session`, with the selector, the counters, the sniffer and the calls of `shutdown`.
pub record Session (H D W : Type 0) : Type 0 where
  pub hello : HelloParser
  pub request : RequestParser
  pub status : ℕ
  pub state_fd : ℤ
  pub client_fd : ℤ
  pub server : Connection
  pub arrived : Bool
  pub client_copy : CopySt
  pub server_copy : CopySt
  pub input : Buffer
  pub output : Buffer
  pub selector : FdSelector H D
  pub stadistics : Stadistics
  pub sniff : W
  pub shutdowns : List (ℤ × Shut)

-- An event of a descriptor: the key, and the results of the system calls that its handler makes.
pub record Event (D : Type 0) : Type 0 where
  pub fd : ℤ
  pub attached : Option D
  pub received : Option (List ℕ)
  pub sent : Option ℕ
  pub attempt : Attempt
  pub so_error : Option ℕ

-- What the callbacks are given.
pub record Key (H D W : Type 0) : Type 0 where
  pub session : Session H D W
  pub event : Event D

-- Ready to read or to write.
pub data Ready : Type 0 where
  for_read for_write : Ready

module _ {H D W : Type 0} where
  unfoldable pub hello_world : Session H D W → HelloWorld H D
  hello_world s = record {
    parser = s.hello;
    input = s.input;
    output = s.output;
    selector = s.selector;
  }

  unfoldable pub with_hello : Session H D W → HelloWorld H D → Session H D W
  with_hello s w = record s {
    hello = w.parser;
    input = w.input;
    output = w.output;
    selector = w.selector;
  }

  unfoldable pub request_world : Session H D W → RequestWorld H D
  request_world s = record {
    parser = s.request;
    status = s.status;
    state_fd = s.state_fd;
    client_fd = s.client_fd;
    server = s.server;
    arrived = s.arrived;
    input = s.input;
    output = s.output;
    selector = s.selector;
  }

  unfoldable pub with_request : Session H D W → RequestWorld H D → Session H D W
  with_request s w = record s {
    request = w.parser;
    status = w.status;
    state_fd = w.state_fd;
    client_fd = w.client_fd;
    server = w.server;
    arrived = w.arrived;
    input = w.input;
    output = w.output;
    selector = w.selector;
  }

  unfoldable pub copy_world : Session H D W → World H D W
  copy_world s = record {
    client_copy = s.client_copy;
    server_copy = s.server_copy;
    input = s.input;
    output = s.output;
    selector = s.selector;
    stadistics = s.stadistics;
    sniff = s.sniff;
    shutdowns = s.shutdowns;
  }

  unfoldable pub with_copies : Session H D W → World H D W → Session H D W
  with_copies s w = record s {
    client_copy = w.client_copy;
    server_copy = w.server_copy;
    input = w.input;
    output = w.output;
    selector = w.selector;
    stadistics = w.stadistics;
    sniff = w.sniff;
    shutdowns = w.shutdowns;
  }

  -- A callback on the part of the session that its state uses.
  abbrev pub lifted :
      {V : Type 0}
      → (Session H D W → V → Session H D W)
      → Key H D W
      → Option (ℕ × V)
      → Option (ℕ × Key H D W)
  lifted put k run = run >>= λ (ret, v). some (ret, record k { session = put k.session v })

  abbrev pub arrived_with : Key H D W → Session H D W → Option (Key H D W)
  arrived_with k s = some (record k { session = s })

  -- A state without callbacks.
  abbrev pub bare_state : ℕ → StateDefinition (Key H D W)
  bare_state n = record {
    state = n;
    on_arrival = none;
    on_departure = none;
    on_read_ready = none;
    on_write_ready = none;
    on_block_ready = none;
  }

  abbrev pub hello_state_def : StateDefinition (Key H D W)
  hello_state_def = record (bare_state hello_read_state) {
    on_arrival =
        some
          (λ st k. arrived_with k (with_hello k.session (hello_arrival (hello_world k.session))));
    on_read_ready =
        some (λ k.
          lifted with_hello k (hello_read (hello_world k.session) k.event.fd k.event.received));
  }

  abbrev pub hello_write_state_def : StateDefinition (Key H D W)
  hello_write_state_def = record (bare_state hello_write_state) {
    on_write_ready =
        some
          (λ k. lifted with_hello k (hello_write (hello_world k.session) k.event.fd k.event.sent));
  }

  abbrev pub request_read_state_def : H → StateDefinition (Key H D W)
  request_read_state_def client_handler_request = record (bare_state request_read_state) {
    on_arrival = some (λ st k.
        arrived_with k (with_request k.session (request_arrival (request_world k.session))));
    on_read_ready = some (λ k. lifted with_request k (
        request_read client_handler_request k.event.attached (request_world k.session) k.event.fd
          k.event.received k.event.attempt));
  }

  abbrev pub request_connecting_state_def : StateDefinition (Key H D W)
  request_connecting_state_def = record (bare_state request_connecting_state) {
    on_arrival = some (λ st k.
        arrived_with k
          (with_request k.session (request_connecting_arrival (request_world k.session))));
    on_write_ready = some (λ k.
        lifted with_request k (request_connecting (request_world k.session) k.event.so_error));
  }

  abbrev pub request_write_state_def : StateDefinition (Key H D W)
  request_write_state_def = record (bare_state request_write_state) {
    on_write_ready = some (λ k.
        lifted with_request k (request_write (request_world k.session) k.event.fd k.event.sent));
  }

  abbrev pub copy_state_def : (W → List ℕ → Option W) → StateDefinition (Key H D W)
  copy_state_def pop3sniff = record (bare_state state_copy) {
    on_arrival = some (λ st k. arrived_with k (
        with_copies k.session
          (copy_arrival (copy_world k.session) k.session.client_fd k.session.server.fd)));
    on_read_ready = some (λ k.
        lifted with_copies k
          (copy_read pop3sniff (copy_world k.session) k.event.fd k.event.received));
    on_write_ready = some (λ k.
        lifted with_copies k (copy_write pop3sniff (copy_world k.session) k.event.fd k.event.sent));
  }

  abbrev pub error_state_def : StateDefinition (Key H D W)
  error_state_def = bare_state error_state

  abbrev pub done_state_def : StateDefinition (Key H D W)
  done_state_def = bare_state state_done

  module _ (client_handler_request : H) (pop3sniff : W → List ℕ → Option W) where
    -- `session_state_def`
    unfoldable pub stm_map : List (StateDefinition (Key H D W))
    stm_map =
        hello_state_def
        ∷ hello_write_state_def
        ∷ request_read_state_def client_handler_request
        ∷ request_connecting_state_def
        ∷ request_write_state_def
        ∷ copy_state_def pop3sniff
        ∷ error_state_def
        ∷ done_state_def
        ∷ []

    unfoldable pub stm_create : StateMachine (Key H D W) → Option (StateMachine (Key H D W))
    unfolding stm_map stm_init
    stm_create stm =
        stm_init
          (record stm { initial = hello_read_state; max_state = state_done; states = stm_map })

  -- An event of a session, through the engine.
  unfoldable pub handle :
      StateMachine (Key H D W)
      → Session H D W
      → Ready
      → Event D
      → Option (ℕ × StateMachine (Key H D W) × Session H D W)
  handle stm s for_read e =
      stm_handler_read stm (record { session = s; event = e }) >>= λ (ret, stm', k).
      some (ret, stm', k.session)
  handle stm s for_write e =
      stm_handler_write stm (record { session = s; event = e }) >>= λ (ret, stm', k).
      some (ret, stm', k.session)

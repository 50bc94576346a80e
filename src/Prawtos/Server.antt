-- ===== src/Prawtos/Server.antt =====
-- src/prawtos/prawtos.c: how the sessions of the configuration protocol come and go.
-- An address of a `struct prawtos` is a number and the data attached to its descriptor. A cell of the
-- heap is `none` if its session was freed or never allocated, and then its use is `none`, as is a
-- failed assertion, a call of abort, or a fault. The client's address, which nothing reads, is left
-- out.
pub mod Close
pub mod Accept
use pdc_20221c.Prelude.{
  ℕ, zero, suc, Option, none, some, Bool, true, false, ◌&&◌, ◌||◌, not, List, [], ◌∷◌, ◌==◌, ltb,
  if◌then◌else◌, ◌>>=◌, ℤ, pos, negsuc, replicate,
}
use pdc_20221c.Buffer.{buffer_init}
use pdc_20221c.Parser.Auth.{auth_version}
use pdc_20221c.Parser.Field.{max_len}
use pdc_20221c.Parser.Prawtos.{prawtos_type}
use pdc_20221c.Prawtos.{
  PrawtosWorld, auth_prawtos_init, auth_prawtos_read, auth_prawtos_write, cmd_init, cmd_read,
  cmd_write, auth_read_prawtos, auth_write_prawtos, cmd_read_prawtos, cmd_write_prawtos,
  done_prawtos, error_prawtos,
}
use pdc_20221c.Selector.{
  FdSelector, SelectorStatus, selector_success, selector_register, selector_unregister_fd,
  selector_fd_set_nio, op_read,
}
use pdc_20221c.Session.Machine.{Ready, for_read, for_write}
use pdc_20221c.Stadistics.{
  Stadistics, stadistics_increase_concurrent, stadistics_decrease_concurrent,
  get_concurrent_connections,
}
use pdc_20221c.Stm.{StateDefinition, StateMachine, stm_init, stm_handler_read, stm_handler_write}
use pdc_20221c.Users.{UserList}

-- An event of a descriptor: the key, and the results of the calls that its handler makes.
pub record PrawtosEvent : Type 0 where
  pub fd : ℤ
  pub received : Option (List ℕ)
  pub sent : Option ℕ
  pub got_memory : Bool

-- What the callbacks are given.
pub record PrawtosKey (H D : Type 0) : Type 0 where
  pub world : PrawtosWorld H D
  pub event : PrawtosEvent

-- `BUFFER_SIZE`
abbrev pub buffer_size : ℕ
buffer_size = 4096

module _ {H D : Type 0} where
  abbrev pub put_world :
      PrawtosKey H D → Option (ℕ × PrawtosWorld H D) → Option (ℕ × PrawtosKey H D)
  put_world k ran = ran >>= λ (ret, w). some (ret, record k { world = w })

  -- A state without callbacks.
  abbrev pub bare_prawtos : ℕ → StateDefinition (PrawtosKey H D)
  bare_prawtos n = record {
    state = n;
    on_arrival = none;
    on_departure = none;
    on_read_ready = none;
    on_write_ready = none;
    on_block_ready = none;
  }

  unfoldable pub prawtos_init_states : List (StateDefinition (PrawtosKey H D))
  prawtos_init_states =
      record (bare_prawtos auth_read_prawtos) {
        on_arrival = some (λ st k. some (record k { world = auth_prawtos_init k.world }));
        on_read_ready =
            some (λ k. put_world k (auth_prawtos_read k.world k.event.fd k.event.received));
      }
      ∷ record (bare_prawtos auth_write_prawtos) {
        on_write_ready =
            some (λ k. put_world k (auth_prawtos_write k.world k.event.fd k.event.sent));
      }
      ∷ record (bare_prawtos cmd_read_prawtos) {
        on_arrival = some (λ st k. some (record k { world = cmd_init k.world }));
        on_read_ready =
            some
              (λ k. put_world k (cmd_read k.world k.event.fd k.event.received k.event.got_memory));
      }
      ∷ record (bare_prawtos cmd_write_prawtos) {
        on_write_ready = some (λ k. put_world k (cmd_write k.world k.event.fd k.event.sent));
      }
      ∷ bare_prawtos done_prawtos
      ∷ bare_prawtos error_prawtos
      ∷ []

  -- An event of a session, through the engine.
  unfoldable pub prawtos_handle :
      StateMachine (PrawtosKey H D)
      → PrawtosWorld H D
      → Ready
      → PrawtosEvent
      → Option (ℕ × StateMachine (PrawtosKey H D) × PrawtosWorld H D)
  prawtos_handle stm w for_read e =
      stm_handler_read stm (record { world = w; event = e }) >>= λ (ret, stm', k).
      some (ret, stm', k.world)
  prawtos_handle stm w for_write e =
      stm_handler_write stm (record { world = w; event = e }) >>= λ (ret, stm', k).
      some (ret, stm', k.world)

-- The tables of handlers: that of a session, and the one of the socket that listens, which has only a
-- handler for reading.
pub data PrawtosHandler : Type 0 where
  prawtos_handler passive_handler : PrawtosHandler

-- `struct prawtos`
pub record Administrator : Type 0 where
  pub stm : StateMachine (PrawtosKey PrawtosHandler ℕ)
  pub world : PrawtosWorld PrawtosHandler ℕ

-- The sessions by their addresses, the calls of `close`, the last one first, and the counters.
pub record PrawtosHeap : Type 0 where
  pub cells : ℕ → Option Administrator
  pub closes : List ℤ
  pub stadistics : Stadistics

pub record PrawtosServer : Type 0 where
  pub heap : PrawtosHeap
  pub selector : FdSelector PrawtosHandler ℕ
  pub users : UserList

unfoldable pub put_session :
    (ℕ → Option Administrator) → ℕ → Option Administrator → ℕ → Option Administrator
put_session cells address cell i = if address == i then cell else cells i

-- The memory of a session, all zero but for the descriptor and the two buffers.
abbrev pub zero_session : ℤ → PrawtosServer → PrawtosWorld PrawtosHandler ℕ
zero_session fd p = record {
  auth = record {
    auth = record { ulen = 0; uname = replicate max_len 0; plen = 0; passwd = replicate max_len 0 };
    state = auth_version;
    n = 0;
    i = 0;
  };
  auth_status = 0;
  parser = record {
    get_cmd = 0;
    user = record {
      cmd = 0;
      admin = 0;
      ulen = 0;
      uname = replicate max_len 0;
      plen = 0;
      passwd = replicate max_len 0;
    };
    type_byte = 0;
    state = prawtos_type;
    n = 0;
    i = 0;
  };
  status = 0;
  args = [];
  nargs = 0;
  client_fd = fd;
  read_buffer = buffer_init buffer_size (replicate buffer_size 0);
  write_buffer = buffer_init buffer_size (replicate buffer_size 0);
  selector = p.selector;
  stadistics = p.heap.stadistics;
  users = p.users;
}

-- The inner `none` is the null pointer.
unfoldable pub prawtos_arrival : PrawtosServer → ℤ → Bool → Option (Option Administrator)
unfolding stm_init prawtos_init_states buffer_init
prawtos_arrival p fd got_memory =
    if got_memory
    then (stm_init (record {
      initial = auth_read_prawtos;
      states = prawtos_init_states;
      max_state = error_prawtos;
      current = none;
    })
        >>= λ stm. some (some (record { stm = stm; world = zero_session fd p })))
    else some none

-- `key->data` may be the null pointer.
unfoldable pub prawtos_close : ℕ → Option ℕ → PrawtosHeap → Option PrawtosHeap
unfolding put_session
prawtos_close fd attached heap =
    let counters =
      if ltb 0 (get_concurrent_connections heap.stadistics)
      then stadistics_decrease_concurrent heap.stadistics
      else heap.stadistics in
    elim attached [
      | none ↦ some (record heap { stadistics = counters })
      | some address ↦ heap.cells address >>= λ _.
          some (record heap { cells = put_session heap.cells address none; stadistics = counters })
    ]

unfoldable pub prawtos_handle_close :
    PrawtosHandler → Option (ℕ → Option ℕ → PrawtosHeap → Option PrawtosHeap)
unfolding prawtos_close
prawtos_handle_close prawtos_handler = some prawtos_close
prawtos_handle_close passive_handler = none

-- The descriptor is not -1.
abbrev pub is_open : ℤ → Bool
is_open (pos _) = true
is_open (negsuc n) = not (n == 0)

-- The descriptor is read before the session is freed.
unfoldable pub prawtos_done : PrawtosServer → ℕ → Option PrawtosServer
unfolding prawtos_handle_close
prawtos_done p address = p.heap.cells address >>= λ cell.
    let fd = cell.world.client_fd in
    if is_open fd
    then (selector_unregister_fd prawtos_handle_close p.selector fd p.heap >>= λ (st, s, heap).
        elim st [
          | selector_success ↦
              some (record p { heap = record heap { closes = fd ∷ heap.closes }; selector = s })
          | _ ↦ none
        ])
    else some p

-- The selector, the counters and the users as the handlers of a session see them, and back.
abbrev pub entered : PrawtosServer → PrawtosWorld PrawtosHandler ℕ → PrawtosWorld PrawtosHandler ℕ
entered p w = record w { selector = p.selector; stadistics = p.heap.stadistics; users = p.users }

abbrev pub left_with :
    PrawtosServer
    → ℕ
    → StateMachine (PrawtosKey PrawtosHandler ℕ)
    → PrawtosWorld PrawtosHandler ℕ
    → PrawtosServer
left_with p address stm w = record {
  heap = record p.heap {
    cells = put_session p.heap.cells address (some (record { stm = stm; world = w }));
    stadistics = w.stadistics;
  };
  selector = w.selector;
  users = w.users;
}

-- `prawtos_read` and `prawtos_write`
unfoldable pub prawtos_event : Ready → PrawtosServer → ℕ → PrawtosEvent → Option PrawtosServer
unfolding put_session prawtos_done
prawtos_event kind p address e = p.heap.cells address >>= λ cell.
    prawtos_handle cell.stm (entered p cell.world) kind e >>= λ (st, stm, w).
    let p1 = left_with p address stm w in
    if st == error_prawtos || st == done_prawtos then prawtos_done p1 address else some p1

unfoldable pub prawtos_read : PrawtosServer → ℕ → PrawtosEvent → Option PrawtosServer
unfolding prawtos_event
prawtos_read = prawtos_event for_read

unfoldable pub prawtos_write : PrawtosServer → ℕ → PrawtosEvent → Option PrawtosServer
unfolding prawtos_event
prawtos_write = prawtos_event for_write

-- The end of `prawtos_passive_accept` after an error: the new descriptor is closed, and then the
-- listening socket's key is handed to `prawtos_close`.
unfoldable pub accept_failed : PrawtosServer → ℕ → Option ℕ → ℤ → Option PrawtosServer
unfolding prawtos_close
accept_failed p passive attached client =
    let closes = if is_open client then client ∷ p.heap.closes else p.heap.closes in
    prawtos_close passive attached (record p.heap { closes = closes }) >>= λ heap.
    some (record p { heap = heap })

-- `client` is what `accept` returned, `getfd` and `setfl` are the two calls of `fcntl`, `address` is
-- where the new session lies, and the two flags are whether its allocation and that of the table
-- succeed.
unfoldable pub prawtos_passive_accept :
    PrawtosServer
    → ℕ
    → Option ℕ
    → ℤ
    → Option ℕ
    → (ℕ → Bool)
    → ℕ
    → Bool × Bool
    → Option PrawtosServer
unfolding accept_failed prawtos_arrival put_session
prawtos_passive_accept p passive attached client getfd setfl address (got_session, got_memory) =
    if selector_fd_set_nio getfd setfl
    then (prawtos_arrival p client got_session >>= λ made. elim made [
      | none ↦ accept_failed p passive attached client
      | some cell ↦
          selector_register p.selector client (some prawtos_handler) op_read (some address)
            got_memory
          >>= λ (st, s).
              let p1 : PrawtosServer = record p {
                heap = record p.heap { cells = put_session p.heap.cells address (some cell) };
                selector = s;
              } in
              elim st [
                | selector_success ↦ some (record p1 {
                  heap = record p1.heap {
                    stadistics = stadistics_increase_concurrent p1.heap.stadistics;
                  };
                })
                | _ ↦ accept_failed p1 passive attached client
              ]
    ])
    else accept_failed p passive attached client

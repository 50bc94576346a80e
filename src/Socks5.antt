-- ===== src/Socks5.antt =====
-- src/socks5.c: how connections come and go, and how the events of the selector reach a session.
-- An address of a `Session` is a number and the data attached to a descriptor. A cell of the heap is
-- `none` if its session was freed or never allocated, and then its use is `none`, as is a failed
-- assertion, a call of abort, or a fault.
pub mod Close
pub mod Accept
use pdc_20221c.Prelude.{
  ℕ, ◌+◌, ◌-◌, ◌^◌, Option, none, some, Bool, true, false, ◌&&◌, ◌||◌, not, List, [], ◌∷◌, ◌==◌,
  ltb, if◌then◌else◌, ◌>>=◌, ℤ, pos, negsuc, length,
}
use pdc_20221c.Buffer.{
  Buffer, buffer_init, buffer_can_read, buffer_can_write, buffer_write_ptr, buffer_read_ptr,
  buffer_write_adv, buffer_read_adv, fill,
}
use pdc_20221c.Selector.{
  FdSelector, SelectorStatus, selector_register, selector_unregister_fd, op_read,
}
use pdc_20221c.Session.Copy.{state_done}
use pdc_20221c.Session.Hello.{error_state}
use pdc_20221c.Session.Machine.{Session, Event, Key, Ready, for_read, for_write, handle, stm_create}
use pdc_20221c.Stadistics.{
  Stadistics, stadistics_increase_concurrent, stadistics_decrease_concurrent,
  stadistics_increase_bytes_sent, get_concurrent_connections,
}
use pdc_20221c.Stm.{StateMachine}

-- The tables of handlers: `client_handler`, `client_handler_request` of request.c, which has the same
-- functions, and `server_handler`, which is never registered.
pub data FdHandler : Type 0 where
  client_handler client_handler_request server_handler : FdHandler

abbrev pub input_buffer_size : ℕ
input_buffer_size = 100

abbrev pub output_buffer_size : ℕ
output_buffer_size = 100

-- `EINTR`
abbrev pub eintr : ℕ
eintr = 4

-- A `Session` with its machine.
pub record Live (W : Type 0) : Type 0 where
  pub machine : StateMachine (Key FdHandler ℕ W)
  pub session : Session FdHandler ℕ W

-- The sessions by their addresses, and the calls of `close`, the last one first.
pub record Heap (W : Type 0) : Type 0 where
  pub cells : ℕ → Option (Live W)
  pub closes : List ℤ

pub record Proxy (W : Type 0) : Type 0 where
  pub heap : Heap W
  pub selector : FdSelector FdHandler ℕ
  pub stadistics : Stadistics

-- What `accept` returns.
pub data Accepted : Type 0 where
  connection : ℤ → Accepted
  refused : ℕ → Accepted

-- The loop that accepts, over the results of the calls: again after a signal, and -1 after any other
-- error; `none` while the calls go on.
unfoldable pub accept_loop : List Accepted → Option ℤ
accept_loop [] = none
accept_loop (connection fd ∷ calls) = some fd
accept_loop (refused errno ∷ calls) =
    let again = accept_loop calls in if errno == eintr then again else some (negsuc 0)

module _ {W : Type 0} where
  unfoldable pub put_cell : (ℕ → Option (Live W)) → ℕ → Option (Live W) → ℕ → Option (Live W)
  put_cell cells address cell i = if address == i then cell else cells i

  -- `raw` is the memory of the session, filled with the byte 5, and the two lists are that of the
  -- buffers. The last field is whether each of the three calls of `malloc` succeeds.
  unfoldable pub initialize_session :
      (W → List ℕ → Option W)
      → Live W
      → List ℕ
      → List ℕ
      → Bool × Bool × Bool
      → Option (Option (Live W))
  initialize_session pop3sniff raw input output (got_session, got_input, got_output) =
      if got_session && got_input && got_output
      then (stm_create client_handler_request pop3sniff raw.machine >>= λ machine. some (
          some (record {
            machine = machine;
            session = record raw.session {
              input = buffer_init input_buffer_size input;
              output = buffer_init output_buffer_size output;
            };
          })))
      else some none

  -- The session gets its descriptors.
  abbrev pub connected : Live W → ℤ → Live W
  connected cell fd = record cell {
    session = record cell.session {
      client_fd = fd;
      server = record cell.session.server { fd = negsuc 0 };
    };
  }

  -- `new_connection_ipv4`; `address` is where the new session lies.
  unfoldable pub new_connection :
      (W → List ℕ → Option W)
      → Proxy W
      → List Accepted
      → ℕ
      → Live W
      → List ℕ
      → List ℕ
      → Bool × Bool × Bool
      → Bool
      → Option (Proxy W)
  new_connection pop3sniff p calls address raw input output memory got_memory =
      accept_loop calls >>= λ fd. initialize_session pop3sniff raw input output memory >>= λ made.
      elim made [
        | none ↦ some (record p { heap = record p.heap { closes = fd ∷ p.heap.closes } })
        | some cell ↦
            selector_register p.selector fd (some client_handler) op_read (some address) got_memory
            >>= λ (_, s). some (record p {
              heap = record p.heap {
                cells = put_cell p.heap.cells address (some (connected cell fd));
              };
              selector = s;
              stadistics = stadistics_increase_concurrent p.stadistics;
            })
      ]

  -- The two differ in the type of the address of the client, which is only copied.
  unfoldable pub new_connection_ipv6 :
      (W → List ℕ → Option W)
      → Proxy W
      → List Accepted
      → ℕ
      → Live W
      → List ℕ
      → List ℕ
      → Bool × Bool × Bool
      → Bool
      → Option (Proxy W)
  unfolding new_connection
  new_connection_ipv6 = new_connection

  -- The memory of the session and of its buffers is freed.
  unfoldable pub client_close : ℕ → Option ℕ → Heap W → Option (Heap W)
  unfolding put_cell
  client_close fd none heap = none
  client_close fd (some address) heap = heap.cells address >>= λ cell. some (record heap {
    closes = cell.session.client_fd ∷ heap.closes;
    cells = put_cell heap.cells address none;
  })

  unfoldable pub server_close : ℕ → Option ℕ → Heap W → Option (Heap W)
  server_close fd attached heap = some (record heap { closes = pos fd ∷ heap.closes })

  -- `handle_close` of each table of handlers.
  unfoldable pub handle_close : FdHandler → Option (ℕ → Option ℕ → Heap W → Option (Heap W))
  unfolding client_close server_close
  handle_close client_handler = some client_close
  handle_close client_handler_request = some client_close
  handle_close server_handler = some server_close

  -- After the call of `selector_unregister_fd` the session is read once more.
  unfoldable pub close_session : Proxy W → ℕ → Option (Proxy W)
  unfolding handle_close
  close_session p address = p.heap.cells address >>= λ cell.
      selector_unregister_fd handle_close p.selector cell.session.client_fd p.heap
      >>= λ (_, s, heap).
          let counters =
            if ltb 0 (get_concurrent_connections p.stadistics)
            then stadistics_decrease_concurrent p.stadistics
            else p.stadistics in
          heap.cells address >>= λ left. some (record {
            heap = record heap { closes = left.session.client_fd ∷ heap.closes };
            selector = s;
            stadistics = counters;
          })

  -- The selector and the counters as the handlers of a session see them, and back.
  abbrev pub entered : Proxy W → Session FdHandler ℕ W → Session FdHandler ℕ W
  entered p s = record s { selector = p.selector; stadistics = p.stadistics }

  abbrev pub left_with :
      Proxy W → ℕ → StateMachine (Key FdHandler ℕ W) → Session FdHandler ℕ W → Proxy W
  left_with p address stm s = record {
    heap = record p.heap {
      cells = put_cell p.heap.cells address (some (record { machine = stm; session = s }));
    };
    selector = s.selector;
    stadistics = s.stadistics;
  }

  -- `client_read` and `client_write`
  unfoldable pub client_event : Ready → Proxy W → ℕ → Event ℕ → Option (Proxy W)
  unfolding put_cell
  client_event kind p address e = p.heap.cells address >>= λ cell.
      handle cell.machine (entered p cell.session) kind e >>= λ (st, stm, s).
      let p1 = left_with p address stm s in
      if st == error_state || st == state_done then close_session p1 address else some p1

  unfoldable pub client_read : Proxy W → ℕ → Event ℕ → Option (Proxy W)
  unfolding client_event
  client_read = client_event for_read

  unfoldable pub client_write : Proxy W → ℕ → Event ℕ → Option (Proxy W)
  unfolding client_event
  client_write = client_event for_write

  -- The buffer from the server to the client.
  abbrev pub with_output : Proxy W → ℕ → Live W → Buffer → Proxy W
  with_output p address cell b = record p {
    heap = record p.heap {
      cells =
          put_cell p.heap.cells address
            (some (record cell { session = record cell.session { output = b } }));
    };
  }

  -- What `recv` brings, or `errno`.
  unfoldable pub server_read : Proxy W → ℕ → List ℕ → Option ℕ → Option (Proxy W)
  server_read p address bytes failed = p.heap.cells address >>= λ cell.
      if buffer_can_write cell.session.output
      then (buffer_write_ptr cell.session.output >>= λ _. elim failed [
        | none ↦ buffer_write_adv (fill cell.session.output bytes) (pos (length bytes)) >>= λ b.
            some (with_output p address cell b)
        | some errno ↦ if errno == eintr then some p else close_session p address
      ])
      else some p

  -- `sent` is the result of `send`, kept in an unsigned variable: -1 passes the test, and leaves
  -- the buffer as it is. The bytes that were offered are counted.
  unfoldable pub server_write : Proxy W → ℕ → ℤ → ℕ → Option (Proxy W)
  server_write p address sent errno = p.heap.cells address >>= λ cell.
      if buffer_can_read cell.session.output
      then (buffer_read_ptr cell.session.output >>= λ (_, bytes).
          let nothing : Bool = elim sent [ pos n ↦ n == 0 | negsuc _ ↦ false ] in
          if nothing
          then (if errno == eintr then some p else close_session p address)
          else (buffer_read_adv cell.session.output sent >>= λ b.
              some (record (with_output p address cell b) {
                stadistics = stadistics_increase_bytes_sent bytes p.stadistics;
              })))
      else some p

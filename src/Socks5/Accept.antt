-- ===== src/Socks5/Accept.antt =====
-- New connections in src/socks5.c.
use pdc_20221c.Prelude.{
  ℕ, zero, suc, ◌≤◌, ◌<◌, ◌≡◌, ◌≢◌, refl, Option, none, some, Bool, true, List, [], ◌∷◌, ◌++◌, ℤ,
  pos, negsuc, length, replicate, arith,
}
use pdc_20221c.Buffer.{buffer_init}
use pdc_20221c.Buffer.Contents.{Holds, buffer_init-Holds}
use pdc_20221c.Selector.{FdSelector, SelectorStatus, selector_register, selector_iargs, op_read}
use pdc_20221c.Selector.Invariant.{IsValid}
use pdc_20221c.Selector.Operations.{RegisterPost, selector_register_lem}
use pdc_20221c.Session.Machine.Order.Runs.{IsSessionMachine, stm_create_lem}
use pdc_20221c.Stadistics.{stadistics_increase_concurrent}
use pdc_20221c.Socks5.{
  FdHandler, client_handler, client_handler_request, Live, Proxy, Accepted, connection, refused,
  eintr, accept_loop, initialize_session, connected, new_connection, put_cell, input_buffer_size,
  output_buffer_size,
}
use pdc_20221c.Socks5.Close.{put_cell-here}

-- Signals do not matter to the loop.
accept_loop_lem :
    (n fd : ℕ) (calls : List Accepted)
    → accept_loop (replicate n (refused eintr) ++ (connection (pos fd) ∷ calls)) ≡ some (pos fd)
unfolding accept_loop
accept_loop_lem zero fd calls = refl
accept_loop_lem (suc n) fd calls = accept_loop_lem n fd calls

accept_loop-refused :
    (n errno : ℕ) (calls : List Accepted)
    → errno ≢ eintr
    → accept_loop (replicate n (refused eintr) ++ (refused errno ∷ calls)) ≡ some (negsuc 0)
unfolding accept_loop
accept_loop-refused zero errno calls other = ground arith
accept_loop-refused (suc n) errno calls other = accept_loop-refused n errno calls other

module _ {W : Type 0} (sniffer : W → List ℕ → Option W) where
  -- A new session: empty buffers, and a machine that has not started.
  pub record IsNew (cell : Live W) : Type 0 where
    pub machine : IsSessionMachine client_handler_request sniffer cell.machine
    pub not_started : cell.machine.current ≡ none
    pub input_held : Holds cell.session.input []
    pub input_limit : cell.session.input.limit ≡ input_buffer_size
    pub output_held : Holds cell.session.output []
    pub output_limit : cell.session.output.limit ≡ output_buffer_size

  initialize_session_lem :
      (raw : Live W) (input output : List ℕ)
      → 100 ≤ length input
      → 100 ≤ length output
      → (cell : Live W) × (initialize_session sniffer raw input output (true, true, true)
          ≡ some (some cell))
        × IsNew cell
  unfolding initialize_session buffer_init
  initialize_session_lem raw input output wide wide' =
      let (stm, made, machine, _, fresh) =
        stm_create_lem client_handler_request sniffer raw.machine in
      (
        record {
          machine = stm;
          session = record raw.session {
            input = buffer_init 100 input;
            output = buffer_init 100 output;
          };
        },
        rw made refl,
        record {
          machine = machine;
          not_started = fresh;
          input_held = buffer_init-Holds 100 input wide;
          input_limit = refl;
          output_held = buffer_init-Holds 100 output wide';
          output_limit = refl;
        },
      )

  connection_run :
      (p : Proxy W) (calls : List Accepted) (address : ℕ) (raw cell : Live W)
      (input output : List ℕ) (got_memory : Bool) (fd : ℤ) (st : SelectorStatus)
      (s : FdSelector FdHandler ℕ)
      → accept_loop calls ≡ some fd
      → initialize_session sniffer raw input output (true, true, true) ≡ some (some cell)
      → selector_register p.selector fd (some client_handler) op_read (some address) got_memory
        ≡ some (st, s)
      → new_connection sniffer p calls address raw input output (true, true, true) got_memory
        ≡ some (record p {
          heap = record p.heap { cells = put_cell p.heap.cells address (some (connected cell fd)) };
          selector = s;
          stadistics = stadistics_increase_concurrent p.stadistics;
        })
  unfolding new_connection
  connection_run p calls address raw cell input output got_memory fd st s accepted made registered =
      rw (new_connection, accepted, made, registered) refl

  -- What a new connection leaves: its session, new and with the client's descriptor.
  pub record IsConnected (p p' : Proxy W) (address : ℕ) (fd : ℤ) : Type 0 where
    pub cell : Live W
    pub stored : p'.heap.cells address ≡ some cell
    pub is_new : IsNew cell
    pub client_eq : cell.session.client_fd ≡ fd
    pub server_eq : cell.session.server.fd ≡ negsuc 0
    pub counted : p'.stadistics ≡ stadistics_increase_concurrent p.stadistics

  -- A new connection whose descriptor the table has a place for, after any number of signals, with
  -- memory for the session: nothing fails; the session is new, with the two descriptors, and counted,
  -- and the table of descriptors is well formed. If the descriptor is free, and there is memory where
  -- the table has to grow, it is registered for reading with the session; otherwise the table of
  -- descriptors stays as it is, and nobody looks at the failure.
  pub new_connection_lem :
      (p : Proxy W) (n k : ℕ) (calls : List Accepted) (address : ℕ) (raw : Live W)
      (input output : List ℕ) (got_memory : Bool)
      → 100 ≤ length input
      → 100 ≤ length output
      → IsValid p.selector
      → k < 1024
      → k ≢ p.selector.fd_size
      → (p' : Proxy W) × (new_connection sniffer p
            (replicate n (refused eintr) ++ (connection (pos k) ∷ calls))
            address
            raw
            input
            output
            (true, true, true)
            got_memory
          ≡ some p')
        × IsConnected p p' address (pos k)
        × IsValid p'.selector
        × ((ret : SelectorStatus) × RegisterPost p.selector k client_handler op_read
              (some address)
              got_memory
              ret
              p'.selector)
  new_connection_lem p n k calls address raw input output got_memory wide wide' valid small apart =
      let (cell, made, new) = initialize_session_lem raw input output wide wide' in
      let (ret, (s, (run, valid', post))) =
        selector_register_lem p.selector k client_handler op_read (some address) got_memory valid
          small apart in
      (
        _,
        connection_run p _ address raw cell input output got_memory (pos k) ret s
            (accept_loop_lem n k calls) made run,
        record {
          cell = connected cell (pos k);
          stored = put_cell-here p.heap.cells address (some (connected cell (pos k)));
          is_new = record {
            machine = new.machine;
            not_started = new.not_started;
            input_held = new.input_held;
            input_limit = new.input_limit;
            output_held = new.output_held;
            output_limit = new.output_limit;
          };
          client_eq = refl;
          server_eq = refl;
          counted = refl;
        },
        valid',
        (ret, post),
      )

  -- A connection that `accept` refuses with another error than a signal: with memory a session is
  -- allocated and counted all the same, but no descriptor is registered, so that it is never closed.
  pub new_connection-refused :
      (p : Proxy W) (n errno : ℕ) (calls : List Accepted) (address : ℕ) (raw : Live W)
      (input output : List ℕ) (got_memory : Bool)
      → 100 ≤ length input
      → 100 ≤ length output
      → errno ≢ eintr
      → (p' : Proxy W) × (new_connection sniffer p
            (replicate n (refused eintr) ++ (refused errno ∷ calls))
            address
            raw
            input
            output
            (true, true, true)
            got_memory
          ≡ some p')
        × IsConnected p p' address (negsuc 0)
        × (p'.selector ≡ p.selector)
  unfolding selector_register
  new_connection-refused p n errno calls address raw input output got_memory wide wide' other =
      let (cell, made, new) = initialize_session_lem raw input output wide wide' in
      (
        _,
        connection_run p _ address raw cell input output got_memory (negsuc 0) selector_iargs
            p.selector (accept_loop-refused n errno calls other) made refl,
        record {
          cell = connected cell (negsuc 0);
          stored = put_cell-here p.heap.cells address (some (connected cell (negsuc 0)));
          is_new = record {
            machine = new.machine;
            not_started = new.not_started;
            input_held = new.input_held;
            input_limit = new.input_limit;
            output_held = new.output_held;
            output_limit = new.output_limit;
          };
          client_eq = refl;
          server_eq = refl;
          counted = refl;
        },
        refl,
      )

-- ===== src/Tests/Proxies.antt =====
-- Connections of src/socks5.c.
use pdc_20221c.Prelude.{
  ℕ, ◌≤◌, ◌<◌, ◌≡◌, refl, none, some, true, false, [], ◌∷◌, ℤ, pos, negsuc, replicate, arith,
}
use pdc_20221c.Buffer.{buffer_write_ptr}
use pdc_20221c.Selector.{FdSelector, Item, SelectorStatus, op_read, grow}
use pdc_20221c.Selector.Growth.{blank_unused, clash}
use pdc_20221c.Selector.Invariant.{IsValid, replaced, replaced-IsValid}
use pdc_20221c.Selector.Life.{blank_selector, selector_new}
use pdc_20221c.Selector.Life.Fresh.{blank-IsValid, selector_new_lem}
use pdc_20221c.Selector.Operations.{RegisterPost}
use pdc_20221c.Session.Hello.{hello_read}
use pdc_20221c.Session.Machine.{Session, Key, for_read, handle, hello_world, with_hello, stm_map}
use pdc_20221c.Socks5.{
  FdHandler, client_handler, client_handler_request, handle_close, Live, Proxy, connection, refused,
  eintr, new_connection, client_event,
}
use pdc_20221c.Socks5.Accept.{IsConnected, new_connection_lem, new_connection-refused}
use pdc_20221c.Socks5.Close.{client_event-freed}
use pdc_20221c.Stm.{StateMachine, stm_handler_read}
use pdc_20221c.Tests.Greetings.{waiting}
use pdc_20221c.Tests.Parsers.{room_for, request_start}
use pdc_20221c.Tests.Requests.{asking}
use pdc_20221c.Tests.Runs.{quiet}
use pdc_20221c.Tests.Sessions.{counting}

-- A table of four items with the client of the session at address 40 at descriptor 1.
abbrev pub client_item : Item FdHandler ℕ
client_item = record {
  fd = pos 1;
  interest = op_read;
  handler = some client_handler;
  attached = some 40;
}

abbrev pub client_table : FdSelector FdHandler ℕ
client_table = replaced (grow blank_selector 4) 1 client_item 1

client_table-IsValid : IsValid client_table
client_table-IsValid =
    replaced-IsValid (grow blank_selector 4) 1 client_item 1 (blank-IsValid 4 (omega arith))
      (omega arith) (omega arith) (λ _. (refl, omega arith, (client_handler, refl)))
      (λ i item _ e used. absurd (clash _ used (blank_unused 4 i item e)))

abbrev pub session_at : ℤ → Session FdHandler ℕ ℕ
session_at fd = record {
  hello = waiting.parser;
  request = request_start;
  status = 0;
  state_fd = negsuc 0;
  client_fd = fd;
  server = asking.server;
  arrived = false;
  client_copy = record { fd = pos 5; reading = true; writing = true };
  server_copy = record { fd = pos 5; reading = true; writing = true };
  input = room_for 16;
  output = room_for 16;
  selector = client_table;
  stadistics = record { total_connections = 1; concurrent_connections = 1; bytes_sent = 0 };
  sniff = 0;
  shutdowns = [];
}

abbrev pub machine_at : ℕ → StateMachine (Key FdHandler ℕ ℕ)
machine_at c = record {
  initial = 0;
  states = stm_map client_handler_request counting;
  max_state = 7;
  current = some c;
}

abbrev pub live : Live ℕ
live = record { machine = machine_at 0; session = session_at (pos 1) }

abbrev pub proxy : Proxy ℕ
proxy = record {
  heap = record { cells = λ _. some live; closes = [] };
  selector = client_table;
  stadistics = record { total_connections = 1; concurrent_connections = 1; bytes_sent = 0 };
}

-- The client goes away before its greeting.
client_event_example : client_event for_read proxy 40 quiet ≡ none
unfolding handle stm_handler_read hello_read hello_world with_hello buffer_write_ptr handle_close
    stm_map
client_event_example =
    client_event-freed for_read proxy 40 1 6 quiet live (machine_at 6) (session_at (pos 1)) refl
      refl refl
      (record {
        valid = client_table-IsValid;
        fd_eq = refl;
        small = omega arith;
        item = client_item;
        at = refl;
        used = refl;
        handler = client_handler;
        handled = refl;
        closes = refl;
        attached = refl;
      })

-- A signal, and then a connection with descriptor 9.
new_connection_example :
    (p' : Proxy ℕ) × (new_connection counting proxy
        (refused eintr ∷ connection (pos 9) ∷ [])
        41
        live
        (replicate 100 5)
        (replicate 100 5)
        (true, true, true)
        true
      ≡ some p')
    × IsConnected counting proxy p' 41 (pos 9)
    × IsValid p'.selector
    × ((ret : SelectorStatus) × RegisterPost client_table 9 client_handler op_read
          (some 41)
          true
          ret
          p'.selector)
new_connection_example =
    new_connection_lem counting proxy 1 9 [] 41 live (replicate 100 5) (replicate 100 5) true
      (omega arith) (omega arith) client_table-IsValid (omega arith) (λ e. ground arith)

-- `EMFILE`
refused_connection :
    (p' : Proxy ℕ) × (new_connection counting proxy
        (refused 24 ∷ [])
        41
        live
        (replicate 100 5)
        (replicate 100 5)
        (true, true, true)
        true
      ≡ some p')
    × IsConnected counting proxy p' 41 (negsuc 0)
    × (p'.selector ≡ client_table)
refused_connection =
    new_connection-refused counting proxy 0 24 [] 41 live (replicate 100 5) (replicate 100 5) true
      (omega arith) (omega arith) (λ e. ground arith)

selector_new_example :
    ((1024 ≤ 1024
        → (s : FdSelector ℕ ℕ) × (selector_new 1024 true true ≡ some (some s))
          × IsValid s
          × (1024 < s.fd_size)
          × ((fd : ℕ) → (s.master_r fd ≡ false) × (s.master_w fd ≡ false))
          × (selector_new {H = ℕ} {D = ℕ} 1024 true false ≡ some none))
      × (1024 < 1024 → selector_new {H = ℕ} {D = ℕ} 1024 true true ≡ some none))
selector_new_example = selector_new_lem 1024

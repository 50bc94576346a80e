-- ===== src/Tests/Runs.antt =====
-- Runs of whole sessions, and events that end the server.
use pdc_20221c.Prelude.{
  ℕ, ◌≤◌, ◌≡◌, refl, none, some, true, false, List, [], ◌∷◌, pos, negsuc, write_at, arith,
}
use pdc_20221c.Parser.Request.Message.{fixed_request}
use pdc_20221c.Parser.Field.{store}
use pdc_20221c.Session.Machine.{
  hello_world, with_hello, request_world, with_request, Session, Event, Key, Ready, for_read,
  for_write, handle, stm_map, stm_create,
}
use pdc_20221c.Session.Machine.Aborts.{machine_in, password-abort}
use pdc_20221c.Session.Machine.Order.Trace.{run, visits, changes, ordered, Chain, run_order}
use pdc_20221c.Stm.{StateMachine}
use pdc_20221c.Buffer.{
  buffer_write_ptr, buffer_read_ptr, buffer_write_adv, buffer_read_adv, buffer_can_read,
  buffer_read, fill,
}
use pdc_20221c.Parser.Hello.{hello_parser_feed, hello_consume, hello_is_done, hello_marshall}
use pdc_20221c.Parser.Request.{request_parser_feed, request_consume, request_is_done}
use pdc_20221c.Session.Hello.{hello_read, hello_write, hello_finished, hello_process, hello_arrival}
use pdc_20221c.Session.Request.{
  request_arrival, request_read, request_process, request_connect, connect_socket, connect_pending,
  request_connecting_arrival, einprogress,
}
use pdc_20221c.Selector.{
  selector_set_interest, selector_set_interest_key, selector_register, selector_fd_set_nio,
}
use pdc_20221c.Stm.{stm_handler_read, stm_handler_write}
use pdc_20221c.Tests.Parsers.{room_for, request_start, holding, holding-Holds}
use pdc_20221c.Tests.Greetings.{waiting}
use pdc_20221c.Tests.Selectors.{one_table, one_item, one_IsValid}
use pdc_20221c.Tests.Sessions.{counting}
use pdc_20221c.Tests.Requests.{asking, attempt}

-- A new session, with the client at descriptor 1.
abbrev pub newcomer : Session ℕ ℕ ℕ
newcomer = record {
  hello = waiting.parser;
  request = request_start;
  status = 0;
  state_fd = negsuc 0;
  client_fd = pos 1;
  server = asking.server;
  arrived = false;
  client_copy = record { fd = pos 5; reading = true; writing = true };
  server_copy = record { fd = pos 5; reading = true; writing = true };
  input = room_for 16;
  output = room_for 16;
  selector = one_table;
  stadistics = record { total_connections = 1; concurrent_connections = 1; bytes_sent = 0 };
  sniff = 0;
  shutdowns = [];
}

abbrev pub memory : StateMachine (Key ℕ ℕ ℕ)
memory = record { initial = 5; states = []; max_state = 5; current = some 5 }

-- Nothing is ready yet.
abbrev pub quiet : Event ℕ
quiet = record {
  fd = pos 1;
  attached = none;
  received = none;
  sent = none;
  attempt = attempt einprogress;
  so_error = none;
}

-- A greeting, its answer, and a request to connect.
abbrev pub opening : List (Ready × Event ℕ)
opening =
    (for_read, record quiet { received = some (0x05 ∷ 1 ∷ 0 ∷ []) })
    ∷ (for_write, record quiet { sent = some 2 })
    ∷ (
      for_read,
      record quiet { received = some (fixed_request 1 0 1 (10 ∷ 0 ∷ 0 ∷ 1 ∷ []) 0 80 []) },
    )
    ∷ []

abbrev pub created : StateMachine (Key ℕ ℕ ℕ)
created = record { initial = 0; states = stm_map 9 counting; max_state = 7; current = none }

abbrev pub outcome : List ℕ × StateMachine (Key ℕ ℕ ℕ) × Session ℕ ℕ ℕ
outcome = elim (run opening created newcomer) [ none ↦ ([], created, newcomer) | some r ↦ r ]

abbrev pub answering : Session ℕ ℕ ℕ
answering = record newcomer {
  hello = record waiting.parser { data_byte = 2 };
  output = holding (0x05 ∷ 2 ∷ []);
}

password_example :
    handle
      (machine_in 9 counting memory 1)
      answering
      for_write
      (record quiet { fd = pos 1; sent = some 2 })
    ≡ none
password_example =
    password-abort 9 counting memory answering quiet 1 (0x05 ∷ 2 ∷ []) refl
      (holding-Holds (0x05 ∷ 2 ∷ [])) one_IsValid (omega arith) (one_item, refl, refl)

run_example :
    Chain 0 (1 ∷ 2 ∷ 3 ∷ [])
    × (ordered 0 (1 ∷ 2 ∷ 3 ∷ []) ≡ true)
    × (changes 0 (1 ∷ 2 ∷ 3 ∷ []) ≤ 7)
    × (visits (1 ∷ 2 ∷ 3 ∷ []) 5 ≡ true
        → (visits (1 ∷ 2 ∷ 3 ∷ []) 2 ≡ true) × (visits (1 ∷ 2 ∷ 3 ∷ []) 4 ≡ true))
unfolding run stm_create handle stm_handler_read stm_handler_write hello_read hello_write
    hello_finished hello_process hello_arrival request_arrival request_read request_process
    request_connect connect_socket connect_pending hello_world with_hello request_world with_request
    request_connecting_arrival hello_consume hello_is_done hello_marshall request_consume
    request_is_done buffer_write_ptr buffer_read_ptr buffer_write_adv buffer_read_adv
    buffer_can_read fill selector_set_interest selector_set_interest_key selector_register
    selector_fd_set_nio buffer_read hello_parser_feed write_at request_parser_feed store
run_example =
    run_order 9 counting opening memory created outcome.1 newcomer outcome.2 (1 ∷ 2 ∷ 3 ∷ []) refl
      refl

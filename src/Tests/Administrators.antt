-- ===== src/Tests/Administrators.antt =====
-- Sessions of the configuration protocol in src/prawtos/.
use pdc_20221c.Prelude.{
  ℕ, ◌≡◌, ◌≢◌, refl, none, some, true, false, List, [], ◌∷◌, pos, length, arith, if◌then◌else◌,
  ◌++◌, not, Option,
}
use pdc_20221c.Buffer.{buffer_write_ptr}
use pdc_20221c.Buffer.Contents.{Holds}
use pdc_20221c.Parser.Auth.Message.{auth_message}
use pdc_20221c.Parser.Prawtos.Message.{delete_request, create_request}
use pdc_20221c.Prawtos.Commands.Create.{ended, cmd_read-create}
use pdc_20221c.Prawtos.{
  PrawtosWorld, auth_prawtos_read, auth_write_prawtos, cmd_read, cmd_write_prawtos, success,
  user_credentia,
}
use pdc_20221c.Prawtos.Access.{is_plain, status_of, auth_prawtos_read_lem}
use pdc_20221c.Prawtos.Commands.{IsIdle}
use pdc_20221c.Prawtos.Commands.Accounts.{cmd_read-unsupported, cmd_read-delete}
use pdc_20221c.Prawtos.Commands.Counters.{value, counter_at, width, cmd_read-counter}
use pdc_20221c.Prawtos.Server.{
  PrawtosHandler, prawtos_handler, PrawtosKey, PrawtosEvent, PrawtosServer, Administrator,
  prawtos_init_states, prawtos_handle, prawtos_event, prawtos_passive_accept, left_with,
}
use pdc_20221c.Prawtos.Server.Accept.{Entered, prawtos_passive_accept_lem}
use pdc_20221c.Prawtos.Server.Close.{IsGone, prawtos_event-over}
use pdc_20221c.Selector.{FdSelector, Item, SelectorStatus, op_read, grow, selector_fd_set_nio}
use pdc_20221c.Selector.Growth.{blank_unused, clash}
use pdc_20221c.Selector.Invariant.{IsValid, replaced, replaced-IsValid}
use pdc_20221c.Selector.Life.{blank_selector}
use pdc_20221c.Selector.Life.Fresh.{blank-IsValid}
use pdc_20221c.Selector.Operations.{RegisterPost}
use pdc_20221c.Prawtos.Gate.Runs.{prawtos_run}
use pdc_20221c.Prawtos.{
  auth_prawtos_init, auth_prawtos_write, auth_finished, auth_prawtos_process, check_credentials,
}
use pdc_20221c.Buffer.{buffer_write_adv, buffer_read_ptr, buffer_read, buffer_can_read, fill}
use pdc_20221c.Prelude.{write_at}
use pdc_20221c.Parser.Field.{store}
use pdc_20221c.Parser.Auth.{
  auth_consume, auth_parser_feed, auth_is_done, auth_marshal, auth_parser_init,
}
use pdc_20221c.Selector.{
  selector_set_interest_key, selector_set_interest, valid_fd, items_update_fdset_for_fd,
}
use pdc_20221c.Stm.{stm_handler_write}
use pdc_20221c.Consume.{consume, consume_loop}
use mathlib.Core.Option.{some-injective}
use pdc_20221c.Prawtos.Gate.{Closed}
use pdc_20221c.Prawtos.Gate.Runs.{Step, no_steps, one_step, outside, prawtos_run-locked}
use pdc_20221c.Users.{UserList, user_check_credentials, check_first}
use pdc_20221c.Session.Machine.{Ready, for_read, for_write}
use pdc_20221c.Stadistics.{stadistics_init}
use pdc_20221c.Stm.{StateMachine, stm_handler_read}
use pdc_20221c.Users.Listing.{no_more, one_more, listing}
use pdc_20221c.Users.Lookup.{Refines, has, erase}
use pdc_20221c.Prawtos.Commands.Listed.{cmd_read-users}
use pdc_20221c.Tests.Accounts.{one_list, one_entry, one_list-Refines, init-InRange}
use pdc_20221c.Tests.Parsers.{
  auth_start, auth_start-IsSized, prawtos_start, room_for, room_for-Holds,
}

-- A table of four items with the administrator's session at address 40 at descriptor 1.
abbrev pub admin_item : Item PrawtosHandler ℕ
admin_item = record {
  fd = pos 1;
  interest = op_read;
  handler = some prawtos_handler;
  attached = some 40;
}

abbrev pub admin_table : FdSelector PrawtosHandler ℕ
admin_table = replaced (grow blank_selector 4) 1 admin_item 1

admin_table-IsValid : IsValid admin_table
admin_table-IsValid =
    replaced-IsValid (grow blank_selector 4) 1 admin_item 1 (blank-IsValid 4 (omega arith))
      (omega arith) (omega arith) (λ _. (refl, omega arith, (prawtos_handler, refl)))
      (λ i item _ e used. absurd (clash _ used (blank_unused 4 i item e)))

abbrev pub admin_world : PrawtosWorld PrawtosHandler ℕ
admin_world = record {
  auth = auth_start;
  auth_status = 0;
  parser = prawtos_start;
  status = 0;
  args = [];
  nargs = 0;
  client_fd = pos 1;
  read_buffer = room_for 16;
  write_buffer = room_for 16;
  selector = admin_table;
  stadistics = stadistics_init;
  users = one_list;
}

admin_world-IsIdle : IsIdle admin_world 1
admin_world-IsIdle = record {
  start = refl;
  sized = record { uname_size = refl; passwd_size = refl };
  input = room_for-Holds;
  output = room_for-Holds;
  valid = admin_table-IsValid;
  small = omega arith;
  used = (admin_item, refl, refl);
}

-- The administrator "a" with the password "b".
auth_prawtos_read_example :
    (w' : PrawtosWorld PrawtosHandler ℕ) × (auth_prawtos_read admin_world
        (pos 1)
        (some (auth_message (97 ∷ []) (98 ∷ []) []))
      ≡ some (auth_write_prawtos, w'))
    × (w'.auth_status ≡ status_of (one_entry ∷ []) (97 ∷ []) (98 ∷ []))
    × Holds w'.write_buffer (0x01 ∷ status_of (one_entry ∷ []) (97 ∷ []) (98 ∷ []) ∷ [])
    × Holds w'.read_buffer []
    × (w'.users ≡ one_list)
    × (w'.selector.master_w 1 ≡ true)
unfolding is_plain
auth_prawtos_read_example =
    auth_prawtos_read_lem admin_world 1 (one_entry ∷ []) (97 ∷ []) (98 ∷ []) [] refl
      auth_start-IsSized (omega arith) (omega arith) (omega arith) (omega arith) refl refl
      one_list-Refines room_for-Holds room_for-Holds (omega arith) (omega arith) admin_table-IsValid
      (omega arith) (admin_item, refl, refl)

-- GET for all connections.
cmd_read_counter_example :
    (w' : PrawtosWorld PrawtosHandler ℕ) × ((digits : List ℕ) × (cmd_read admin_world
          (pos 1)
          (some (0x00 ∷ 1 ∷ []))
          true
        ≡ some (cmd_write_prawtos, w'))
      × Holds w'.write_buffer (success ∷ 1 ∷ 1 ∷ width 1 ∷ digits)
      × (length digits ≡ width 1)
      × (value 0 digits ≡ counter_at 1 admin_world.stadistics)
      × Holds w'.read_buffer []
      × (w'.stadistics ≡ admin_world.stadistics)
      × (w'.selector.master_w 1 ≡ true))
cmd_read_counter_example =
    cmd_read-counter admin_world 1 1 [] true admin_world-IsIdle (omega arith) init-InRange
      (omega arith) (omega arith)

-- GET for the users.
cmd_read_users_example :
    (w' : PrawtosWorld PrawtosHandler ℕ) × (cmd_read admin_world (pos 1) (some (0x00 ∷ 3 ∷ [])) true
      ≡ some (cmd_write_prawtos, w'))
    × Holds w'.write_buffer (success ∷ 3 ∷ 1 ∷ listing (one_entry ∷ []))
    × (w'.users ≡ admin_world.users)
    × Holds w'.read_buffer []
    × (w'.selector.master_w 1 ≡ true)
unfolding listing
cmd_read_users_example =
    cmd_read-users admin_world 1 [] one_entry [] admin_world-IsIdle one_list-Refines
      (one_more refl (omega arith) no_more) (omega arith) (omega arith)

-- The commands of user requests end with 2.
cmd_read_unsupported_example : cmd_read admin_world (pos 1) (some (0x01 ∷ 3 ∷ [])) true ≡ none
cmd_read_unsupported_example =
    cmd_read-unsupported admin_world 1 3 [] true admin_world-IsIdle (omega arith) (omega arith)

cmd_read_delete_example :
    (w' : PrawtosWorld PrawtosHandler ℕ) × (cmd_read admin_world
        (pos 1)
        (some (delete_request (97 ∷ []) []))
        true
      ≡ some (cmd_write_prawtos, w'))
    × Refines w'.users (erase (one_entry ∷ []) (97 ∷ []))
    × Holds w'.write_buffer
        ((if has (one_entry ∷ []) (97 ∷ []) then success else user_credentia) ∷ [])
    × Holds w'.read_buffer []
    × (w'.selector.master_w 1 ≡ true)
unfolding is_plain
cmd_read_delete_example =
    cmd_read-delete admin_world 1 (one_entry ∷ []) (97 ∷ []) [] true admin_world-IsIdle
      (omega arith) (omega arith) refl one_list-Refines (omega arith) (omega arith)

abbrev pub admin_machine : ℕ → StateMachine (PrawtosKey PrawtosHandler ℕ)
admin_machine c = record {
  initial = 0;
  states = prawtos_init_states;
  max_state = 5;
  current = some c;
}

abbrev pub administrator : Administrator
administrator = record { stm = admin_machine 2; world = admin_world }

abbrev pub admin_server : PrawtosServer
admin_server = record {
  heap = record { cells = λ _. some administrator; closes = []; stadistics = stadistics_init };
  selector = admin_table;
  users = one_list;
}

-- The administrator's side of the connection is closed.
abbrev pub hang_up : PrawtosEvent
hang_up = record { fd = pos 1; received = none; sent = none; got_memory = true }

prawtos_event_example :
    (p' : PrawtosServer) × (prawtos_event for_read admin_server 40 hang_up ≡ some p')
    × IsGone (left_with admin_server 40 (admin_machine 5) admin_world) p' 40 1
    × ((a : ℕ) → 40 ≢ a → p'.heap.cells a ≡ some administrator)
unfolding prawtos_handle stm_handler_read prawtos_init_states cmd_read buffer_write_ptr
prawtos_event_example =
    prawtos_event-over for_read admin_server 40 1 5 hang_up administrator (admin_machine 5)
      admin_world refl refl refl
      (record {
        valid = admin_table-IsValid;
        fd_eq = refl;
        small = omega arith;
        item = admin_item;
        at = refl;
        used = refl;
        handled = refl;
        attached = refl;
      })

prawtos_passive_accept_example :
    (p' : PrawtosServer) × (prawtos_passive_accept admin_server 3 none
        (pos 2)
        (some 0)
        (λ _. true)
        41
        (true, true)
      ≡ some p')
    × IsValid p'.selector
    × ((ret : SelectorStatus) × RegisterPost admin_table 2 prawtos_handler op_read
          (some 41)
          true
          ret
          p'.selector
        × Entered admin_server p' 41 2 ret)
unfolding selector_fd_set_nio
prawtos_passive_accept_example =
    prawtos_passive_accept_lem admin_server 3 2 (some 0) (λ _. true) 41 true admin_table-IsValid
      (omega arith) (λ e. ground arith) refl

-- Without users the right message is answered with a refusal, and then the session ends.
abbrev pub no_users : UserList
no_users = record { first = []; size = 0 }

no_users-Closed : Closed no_users
unfolding user_check_credentials check_first
no_users-Closed name pass r e = ground (arith, some-injective 1 r e)

abbrev pub step_with : Ready → Option (List ℕ) → Option ℕ → Step PrawtosHandler ℕ
step_with kind received sent = record {
  ready = kind;
  event = record { fd = pos 1; received = received; sent = sent; got_memory = true };
  selector = admin_table;
  stadistics = stadistics_init;
  users = no_users;
}

abbrev pub two_steps : List (Step PrawtosHandler ℕ)
two_steps =
    step_with for_read (some (auth_message (97 ∷ []) (98 ∷ []) [])) none
    ∷ step_with for_write none (some 2)
    ∷ []

prawtos_run_example : outside (1 ∷ 5 ∷ []) ≡ true
unfolding prawtos_handle stm_handler_read prawtos_init_states auth_prawtos_read buffer_write_ptr
    user_check_credentials check_first prawtos_run auth_prawtos_init auth_prawtos_write
    auth_finished auth_prawtos_process check_credentials buffer_write_adv buffer_read_ptr
    buffer_read buffer_can_read fill write_at store auth_consume auth_parser_feed auth_is_done
    auth_marshal auth_parser_init selector_set_interest_key selector_set_interest valid_fd
    items_update_fdset_for_fd stm_handler_write consume consume_loop
prawtos_run_example =
    prawtos_run-locked two_steps (record (admin_machine 0) { current = none }) _ admin_world _
      (1 ∷ 5 ∷ []) (record { initial_eq = refl; states_eq = refl }) refl
      (one_step _ _ no_users-Closed (one_step _ _ no_users-Closed no_steps)) refl

-- The user "b" with the password "c".
cmd_read_create_example :
    (w' : PrawtosWorld PrawtosHandler ℕ) × (cmd_read admin_world
        (pos 1)
        (some (create_request 0 (ended (98 ∷ [])) (ended (99 ∷ [])) []))
        true
      ≡ some (cmd_write_prawtos, w'))
    × Refines w'.users (
        if has (one_entry ∷ []) (98 ∷ [])
        then one_entry ∷ []
        else (one_entry ∷ []) ++ (record { name = 98 ∷ []; pass = 99 ∷ []; admin = false } ∷ []))
    × Holds w'.write_buffer
        ((if not (has (one_entry ∷ []) (98 ∷ [])) then success else user_credentia) ∷ [])
    × Holds w'.read_buffer []
    × (w'.selector.master_w 1 ≡ true)
unfolding is_plain
cmd_read_create_example =
    cmd_read-create admin_world 1 0 (one_entry ∷ []) (98 ∷ []) (99 ∷ []) [] admin_world-IsIdle
      (omega arith) (omega arith) (omega arith) refl refl one_list-Refines (omega arith)
      (omega arith)

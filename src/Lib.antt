-- ===== src/Lib.antt =====
-- A model of a SOCKS5 proxy server in C (pdc-20221c), with its theorems.
--
-- The program's parts, from the bottom up:
--   * src/buffer.c is the byte buffer that sockets are read into and written from: Buffer models it
--     function by function (a pointer is its offset), and Buffer/Contents says what each function
--     does to the bytes that are held.
--   * src/parser/ has four parsers that are fed byte by byte from such a buffer. Their common loop is
--     Consume (Consume/Refine compares it with a description over a list of bytes, Consume/Pieces is
--     about messages that arrive in pieces). Parser/Hello, Parser/Auth, Parser/Request and
--     Parser/Prawtos are hello_parser.c, auth_parser.c, request_parser.c and prawtos_parser.c;
--     Parser/Reply is the reply that request_parser.c writes, and Parser/Prawtos/Answer the answers of
--     prawtos_parser.c. Parser/Field is what their counted fields share. The module Message below each
--     of them says what a whole message does.
--   * src/parser/parser.c and parser_utils.c, the parser over a table of transitions and the table
--     that compares texts: Automaton, with Automaton/Steps and Automaton/Compare.
--   * src/stm/stm.c runs a table of states with callbacks: Stm, with Stm/Laws; Stm/Run and Stm/Keeps
--     say what lies behind a handled event, and what callbacks keep over it.
--   * src/selector.c keeps the table of descriptors behind pselect: Selector, with its invariant in
--     Selector/Invariant, the growth of the table in Selector/Capacity and Selector/Growth, and the
--     operations in Selector/Operations and Selector/Unregister. Selector/Life is its beginning and
--     its end, Selector/Dispatch the round over the descriptors that are ready.
--   * src/stm/hello.c negotiates the method of authentication: Session/Hello, with
--     Session/Hello/Negotiation for the first state and Session/Hello/Answer for the second.
--   * src/stm/request.c reads a request, connects and answers: Session/Request, with Process for what
--     is read, Connect for the two steps of a connection and Answer for the reply.
--   * src/stm/copy.c is the state in which a session copies bytes between its two connections:
--     Session/Copy, over the buffers, the selector and the counters. Session/Copy/Interest is about
--     what it asks of the selector, Session/Copy/Flow and the modules below it about the bytes: an
--     event takes bytes in or gives them out (Handlers), and a run is a sequence of events (Trace).
--     The handlers take any function for the sniffer that is shown bytes, and nothing is assumed of
--     it; Session/Copy/Sniffer is the one of copy.c.
--   * src/stm/stm_initialize.c is the table of a session's states: Session/Machine puts the handlers
--     above into the engine, each with its part of the session. Session/Machine/Order is what may
--     follow a state, handler by handler (Handlers, Requests), for one event (Runs) and for any run
--     (Trace); Session/Machine/Aborts has the requests that abort the server.
--   * src/socks5.c lets sessions come and go: Socks5, over a heap of sessions, the selector and the
--     counters, with Socks5/Accept and Socks5/Close.
--   * src/user_utils.c is the table of users: Users, with the view as a list of entries with distinct
--     names in Users/Lookup, the operations in Users/Table, Users/Credentials and Users/Listing, and
--     what a size without the terminator does in Users/Unterminated.
--   * src/stadistics.c counts connections and bytes: Stadistics, with Stadistics/Counts.
--   * src/prawtos/ is the server of the configuration protocol, over the parsers, the users and the
--     counters. Prawtos is auth_prawtos.c and cmd_prawtos.c, with Prawtos/Access for the
--     authentication and Prawtos/Commands for the requests (Counters, Listed, Accounts, Create);
--     Prawtos/Server is prawtos.c, with Accept and Close; Prawtos/Gate is about who gets past the
--     authentication, over any run.
--   * Tests runs the model on small inputs.
--
-- A C function that changes an object is a function from the object to its new value. A failed
-- assertion, a call of abort, an access outside an array or a table, and a use of memory that was
-- freed are none. An unsigned integer of w bits keeps its wrap-around where the code can reach it; a
-- byte is a number. The results of system calls are arguments of the handlers that make them. The
-- members of a union are fields of their own, since each state reads what it wrote itself. Sessions
-- lie in a heap, a function from addresses to cells, and a freed cell is empty. Prelude has the lists,
-- options and tests that all modules share.
--
-- Loops: the consume loop runs on fuel, a round for each unread byte and one more; a round takes a
-- byte, and Consume/Refine shows that the fuel never runs out. The loop of next_capacity runs on
-- fuel n + 1, and halves n in each round; Selector/Capacity shows that it ends. The loop of
-- new_connection_ipv4 runs over the list of what its calls of accept return. The test of common bits
-- in parser.c looks at 32 of them. Every other loop is recursion on a list or on what is left of a
-- count.
--
-- Not modelled: the system calls, the threads, the log and the text of usage messages; src/server.c,
-- which sets up sockets and calls the selector; the options of src/args.c; src/netutils.c, which
-- prints addresses; src/stm/auth.c, whose states stand in no table of the program; pop3_consume of
-- src/pop3sniff.c, which does not compile, so that it is a parameter of Session/Copy/Sniffer; the
-- client in client/.
pub mod Prelude
pub mod Buffer
pub mod Consume
pub mod Parser
pub mod Stm
pub mod Selector
pub mod Users
pub mod Stadistics
pub mod Session
pub mod Socks5
pub mod Automaton
pub mod Prawtos
pub mod Tests

-- ===== src/Lib.antt =====
-- A SOCKS5 proxy server (src/) with a management protocol: its parts, modelled and verified.
--
-- The server waits for sockets in a selector and gives each event to the state machine of the
-- session (src/shared/stm.c). The callbacks of a session move bytes between sockets and buffers
-- (src/shared/buffer.c), and read the client's greeting, credentials and request from a buffer with
-- three parsers (src/shared/hello.c, auth.c and request.c), each of which also writes a reply. The
-- credentials are checked against the table of users (src/shared/users.c), which the management
-- protocol changes, as it changes the configuration (src/shared/config.c) and reads the counters
-- (src/shared/metrics.c).
--
-- Files:
-- - Base and its children: Boolean tests, lists over the native numbers, 8-bit words, C strings, and
--   the `|` of two bytes;
-- - Buffer: `struct buffer`, with pointers as offsets into a store; Buffer/Queue describes each
--   operation by the bytes inside, Buffer/Traffic any sequence of calls;
-- - Parsers/Consume: the loop that the three parsers share. Its fuel is the number of bytes in the
--   buffer, and each round reads one, so that it never runs out (consume-feed);
-- - Parsers/Hello, Parsers/Auth, Parsers/Request: the parsers, their switch as `step_in`; their Wire
--   modules read the same bytes as a message, with no parser;
-- - Users, Config, Metrics: the tables and counters of the server;
-- - Args: the values of the command line; Args/Options has parse_args on what getopt_long returns;
-- - Netutils: the loop that writes a buffer to a socket, and the reply code for an errno;
-- - Selector: the table of the descriptors (capacity, registration, interests); Selector/Table sees it
--   as a finite map, Selector/Dispatch has the calls of the handlers and selector_select. A handler
--   is a function on the selector and on what else it may change, found by its pointer;
-- - Mng: the management protocol; its commands as functions on the World (the globals of mng.c), its
--   session with the bytes that are pending and queued, and the same as a function on the stream;
-- - Stm: the engine of the state machines, its callbacks being functions on what they may change;
-- - Dns, Access: the queue of the name resolver, and the lines of the access log;
-- - Socks5: the proxy's session. Types has the session and the system around it, whose answers it
--   reads one by one; Hello, Auth, Request, Connecting and Copy have the callbacks of the states, and
--   Engine the table and the handlers; Release, Active and Lifecycle say how sessions end, are listed
--   and begin. Wiring has the interests in the selector, and Flow and Relay prove what COPY delivers.
--   Rules has what holds of every result of a callback, Frame what the callbacks leave alone, Gate
--   who comes past the login, and Answers what a greeting and a login get.
--   Pumping compares socksv5_pump with its loop, and Active/Changes the links with a list;
-- - Tests: runs of all this on small inputs.
--
-- A failed `assert`, an `abort` and an access outside an array are `none` where the model can see
-- them. The bytes of a message are numbers below 256 (`AllBytes`). A `uint8_t` wraps (`pred8`,
-- `suc8`), and so do the counters of 64 bits.
--
-- What send, recv, pselect and the allocator return is an argument of the function that calls them,
-- or in Socks5 a field of its context.
-- The loops run on the bytes at hand or on the rounds that are left, so that no fuel runs out; the
-- loop of next_capacity has 64 rounds for its 64 bits, the printing of a number 20 digits, and
-- socksv5_pump 12 rounds for its eleven states (Socks5/Pumping).
--
-- Not modelled: the two main programs, and what is the system's: threads, signals, sockets and files.
pub mod Access
pub mod Args
pub mod Base
pub mod Buffer
pub mod Parsers
pub mod Users
pub mod Config
pub mod Metrics
pub mod Netutils
pub mod Stm
pub mod Selector
pub mod Mng
pub mod Dns
pub mod Socks5
pub mod Tests

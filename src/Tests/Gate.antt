-- ===== src/Tests/Gate.antt =====
-- Who comes past the login of a session (src/shared/socks5.c), on a small input.
use tpe_protos_g.Base.{
  ℕ, ◌≡◌, refl, arith, Option, some, [], ◌∷◌, Bytes, ◌>>=◌, Every, replicate, str_eq,
}
use tpe_protos_g.Buffer.{
  buffer_init, buffer_reset, buffer_write_adv, buffer_read_adv, buffer_compact, buffer_read,
}
use tpe_protos_g.Parsers.Auth.{auth_consume, auth_is_done, auth_marshall}
use tpe_protos_g.Parsers.Auth as AuthParse
use tpe_protos_g.Parsers.Consume.{consume, consume_loop}
use tpe_protos_g.Parsers.Hello.{hello_consume, hello_is_done, hello_marshall}
use tpe_protos_g.Parsers.Hello as HelloParse
use tpe_protos_g.Selector.{selector_set_interest, items_update_fdset_for_fd}
use tpe_protos_g.Socks5.Auth.{
  auth_read_init, auth_read, auth_write, auth_parse, auth_process, auth_sent,
}
use tpe_protos_g.Socks5.Engine.{
  Machine, new_machine, socksv5_read, socksv5_write, settle, socksv5_pump, socksv5_done, give_back,
}
use tpe_protos_g.Socks5.Gate.Runs.{readable, writable, resolved, run, Guarded, run-Guarded}
use tpe_protos_g.Socks5.Hello.{
  hello_read_init, hello_read, hello_write, hello_parse, hello_process, hello_sent, choose_method,
  on_hello_method,
}
use tpe_protos_g.Socks5.Request.{request_read_init, request_read, request_parse}
use tpe_protos_g.Socks5.States
use tpe_protos_g.Socks5.System.{
  with_input, with_output, recv_into, store_received, send_from, drop_sent, sys_recv, sys_send,
  set_interest,
}
use tpe_protos_g.Socks5.Types.{Context}
use tpe_protos_g.Stm.{stm_state, stm_handler, handle_first, react, jump, jump_from}
use tpe_protos_g.Tests.Session.{context}
use tpe_protos_g.Users.{Users, blank, users_check, find_user, find_loop}

-- one user, of the name "a" and the password "b"
abbrev pub table : Users
table = record {
  entries = record { name = 97 ∷ []; pass = 98 ∷ [] } ∷ replicate 9 blank;
  count = 1;
}

-- a greeting that offers the login, and the login
abbrev login : Bytes
login = 5 ∷ 1 ∷ 2 ∷ 1 ∷ 1 ∷ 97 ∷ 1 ∷ 98 ∷ []

abbrev client : Context
client = let c = context login in record c { world = record c.world { users = some table } }

abbrev seen : Machine × Context → Option ℕ × Bytes × Bytes
seen r = (stm_state r.0, r.1.session.authenticated_user, r.1.system.given 5)

-- The first event brings the session into REQUEST_READ, with the user noted and both replies sent.
login_end :
    (run (readable 5 ∷ []) (new_machine, client) >>= λ r. some (seen r))
    ≡ some (some States.request_read, 97 ∷ [], 5 ∷ 2 ∷ 1 ∷ 0 ∷ [])
unfolding run socksv5_read socksv5_write settle socksv5_pump socksv5_done give_back stm_handler
    handle_first react jump jump_from stm_state hello_read_init hello_read hello_write hello_parse
    hello_process hello_sent choose_method on_hello_method auth_read_init auth_read auth_write
    auth_parse auth_process auth_sent request_read_init request_read request_parse with_input
    with_output recv_into store_received send_from drop_sent sys_recv sys_send set_interest
    buffer_init buffer_reset buffer_write_adv buffer_read_adv buffer_compact buffer_read
    hello_consume hello_is_done hello_marshall auth_consume auth_is_done auth_marshall consume
    consume_loop selector_set_interest items_update_fdset_for_fd AuthParse.step_in
    HelloParse.step_in users_check find_user find_loop str_eq
login_end = refl

run-Guarded_example :
    Every (Guarded table) (run (readable 5 ∷ writable 5 ∷ resolved 5 [] ∷ []) (new_machine, client))
run-Guarded_example =
    run-Guarded table (omega arith) (readable 5 ∷ writable 5 ∷ resolved 5 [] ∷ []) client refl

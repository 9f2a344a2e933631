-- ===== src/Tests/Session.antt =====
-- A session of the SOCKS5 proxy (src/shared/socks5.c) on small inputs.
use tpe_protos_g.Base.{
  ℕ, ◌≡◌, refl, true, false, some, none, Option, [], ◌∷◌, Bytes, ◌==◌, replicate, set, codes, ◌>>=◌,
}
use tpe_protos_g.Mng.Session.{received, end_of_stream}
use tpe_protos_g.Netutils.{took, einprogress}
use tpe_protos_g.Selector.{
  Selector, Item, blank, op_read, selector_set_interest, items_update_fdset_for_fd,
  selector_register, take_item, ensure_capacity,
}
use tpe_protos_g.Socks5.States
use tpe_protos_g.Socks5.Types.{Context, System, World, Handler, Socket}
use tpe_protos_g.Socks5.Engine.{
  Machine, new_machine, socksv5_read, socksv5_write, settle, socksv5_pump, socksv5_done, give_back,
}
use tpe_protos_g.Socks5.Lifecycle.{started}
use tpe_protos_g.Stm.{stm_state, stm_handler, handle_first, react, jump, jump_from}
use tpe_protos_g.Socks5.Hello.{
  hello_read_init, hello_read, hello_write, hello_parse, hello_process, hello_sent, choose_method,
  on_hello_method,
}
use tpe_protos_g.Socks5.Request.{
  request_read_init, request_read, request_write, request_parse, request_process, destination_given,
  answer, request_sent,
}
use tpe_protos_g.Socks5.Connecting.{
  connecting_init, try_literal, connecting_try_one, try_socket, connected, connect_begun,
  connecting_register_origin, connecting_write, connect_succeeded,
}
use tpe_protos_g.Socks5.Copy.{
  copy_init, copy_write, copy_write_state, copy_write_side, copy_send, copy_sent, finish,
  copy_shutdown_write, go_on, copy_update_interests,
}
use tpe_protos_g.Socks5.Log.{socks5_log_event, socks5_log_open, socks5_store_destination}
use tpe_protos_g.Socks5.System.{
  with_input, with_output, recv_into, store_received, send_from, drop_sent, sys_recv, sys_send,
  set_interest,
}
use tpe_protos_g.Buffer.{
  buffer_init, buffer_reset, buffer_write_adv, buffer_read_adv, buffer_compact, buffer_read,
}
use tpe_protos_g.Parsers.Hello.{hello_consume, hello_is_done, hello_marshall}
use tpe_protos_g.Parsers.Request.{
  request_consume, request_is_done, request_marshall, read_atyp, read_addr, read_port,
}
use tpe_protos_g.Parsers.Consume.{consume, consume_loop}
use tpe_protos_g.Access.{access_log_open}
use tpe_protos_g.Mng.Text.{digits}
use tpe_protos_g.Parsers.Hello as HelloParse
use tpe_protos_g.Parsers.Request as RequestParse

abbrev item_5 : Item Handler ℕ
item_5 = record {
  fd = some 5;
  interest = op_read;
  handler = some Handler.socks5_handler;
  user_data = some 5;
}

abbrev selector : Selector Handler ℕ
selector = record {
  fds = some (set (replicate 12 blank) 5 item_5);
  fd_size = 12;
  max_fd = 5;
  master_r = λ n. n == 5;
  master_w = λ n. false;
  slave_r = λ n. false;
  slave_w = λ n. false;
  resolution_jobs = [];
}

-- a system whose recv always gives `bytes`
abbrev system : Bytes → System
system bytes = record {
  calls = 0;
  recv = λ n. (elim bytes [ [] ↦ end_of_stream | c ∷ cs ↦ received c cs ]);
  send = λ n. took 100;
  shutdown = λ n. none;
  socket = λ n. Socket.opened 6;
  set_nio = λ n. none;
  connect = λ n. some einprogress;
  sock_error = λ n. none;
  time = λ n. 1000;
  malloc = λ n. true;
  allocator = λ n. record { malloc = true; calloc = λ k. true; realloc = λ k. none };
  inet_ntop = λ f b. some (codes "1.2.3.4");
  taken = λ n. [];
  given = λ n. [];
  ended = [];
  dialled = [];
}

abbrev world : World
world = record {
  users = none;
  metrics = none;
  config = none;
  dns_worker = none;
  access_log = some [];
  active_sessions = 1;
  pool_size = 0;
}

abbrev pub context : Bytes → Context
context bytes = record {
  fd = 5;
  selector = selector;
  session = started 5 none 1000;
  world = world;
  system = system bytes;
}

-- a greeting and a request for 1.2.3.4:80, in one piece, with two bytes behind them
abbrev pipelined : Bytes
pipelined = 5 ∷ 1 ∷ 0 ∷ 5 ∷ 1 ∷ 0 ∷ 1 ∷ 1 ∷ 2 ∷ 3 ∷ 4 ∷ 0 ∷ 80 ∷ 104 ∷ 105 ∷ []

-- what a readable client and then a writable origin, twice, leave
abbrev opened_run : Option (Machine × Context)
opened_run = socksv5_read new_machine (context pipelined) >>= λ r.
    socksv5_write r.0 (record r.1 { fd = 6 }) >>= λ q. socksv5_write q.0 (record q.1 { fd = 6 })

abbrev seen : Machine × Context → Option ℕ × Bytes × Bytes
seen r = (stm_state r.0, r.1.system.given 5, r.1.system.given 6)

-- The relay is open, both replies were sent, and so were the two bytes behind the request.
opened_end :
    (opened_run >>= λ r. some (seen r))
    ≡ some (some States.copy, 5 ∷ 0 ∷ 5 ∷ 0 ∷ 0 ∷ 1 ∷ 0 ∷ 0 ∷ 0 ∷ 0 ∷ 0 ∷ 0 ∷ [], 104 ∷ 105 ∷ [])
unfolding socksv5_read socksv5_write settle socksv5_pump socksv5_done give_back stm_handler
    handle_first react jump jump_from stm_state hello_read_init hello_read hello_write hello_parse
    hello_process hello_sent choose_method on_hello_method request_read_init request_read
    request_write request_parse request_process destination_given answer request_sent
    connecting_init try_literal connecting_try_one try_socket connected connect_begun
    connecting_register_origin connecting_write connect_succeeded copy_init copy_write
    copy_write_state copy_write_side copy_send copy_sent finish copy_shutdown_write go_on
    copy_update_interests socks5_log_event socks5_log_open socks5_store_destination with_input
    with_output recv_into store_received send_from drop_sent sys_recv sys_send set_interest
    buffer_init buffer_reset buffer_write_adv buffer_read_adv buffer_compact buffer_read
    hello_consume hello_is_done hello_marshall request_consume request_is_done request_marshall
    read_atyp read_addr read_port consume consume_loop selector_set_interest
    items_update_fdset_for_fd selector_register take_item ensure_capacity access_log_open digits
    HelloParse.step_in RequestParse.step_in
opened_end = refl

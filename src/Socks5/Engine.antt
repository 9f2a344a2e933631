-- ===== src/Socks5/Engine.antt =====
-- The state table of a session (src/shared/socks5.c), what its handlers do with an event, and how a
-- session ends.
--
-- The links of the list of live sessions are in Socks5/Active. The machine is beside the context.
use tpe_protos_g.Base.{
  ℕ, zero, suc, ◌-◌, Bool, ◌&&◌, ◌||◌, Option, none, some, List, [], ◌∷◌, ltb, ◌==◌, if◌then◌else◌,
  ◌>>=◌, codes, Bytes, ℤ, pos, negsuc,
}
use tpe_protos_g.Buffer.{buffer_can_read}
use tpe_protos_g.Metrics.{metrics_conn_closed}
use tpe_protos_g.Socks5.Auth.{auth_read_init, auth_read, auth_write, count_metric}
use tpe_protos_g.Socks5.Connecting.{connecting_init, connecting_write}
use tpe_protos_g.Socks5.Copy.{copy_init, copy_read, copy_write}
use tpe_protos_g.Socks5.Hello.{hello_read_init, hello_read, hello_write}
use tpe_protos_g.Socks5.Log.{socks5_log_event, socks5_set_failure}
use tpe_protos_g.Socks5.Release.{unregister}
use tpe_protos_g.Socks5.Request.{
  request_read_init, request_read, request_resolv_done, request_write,
}
use tpe_protos_g.Socks5.States
use tpe_protos_g.Socks5.System.{on_world}
use tpe_protos_g.Socks5.Types.{Context}
use tpe_protos_g.Stm.{
  StateDefinition, StateMachine, stm_handler_read, stm_handler_write, stm_handler_block,
}

-- an entry of the table of which no callback is set
abbrev pub bare : ℕ → StateDefinition Context
bare state = record {
  state = state;
  on_arrival = none;
  on_departure = none;
  on_read_ready = none;
  on_write_ready = none;
  on_block_ready = none;
}

abbrev pub client_statbl : List (StateDefinition Context)
client_statbl =
    record (bare States.hello_read) {
      on_arrival = some hello_read_init;
      on_read_ready = some hello_read;
    }
    ∷ record (bare States.hello_write) { on_write_ready = some hello_write }
    ∷ record (bare States.auth_read) {
      on_arrival = some auth_read_init;
      on_read_ready = some auth_read;
    }
    ∷ record (bare States.auth_write) { on_write_ready = some auth_write }
    ∷ record (bare States.request_read) {
      on_arrival = some request_read_init;
      on_read_ready = some request_read;
    }
    ∷ record (bare States.request_resolv) { on_block_ready = some request_resolv_done }
    ∷ record (bare States.connecting) {
      on_arrival = some connecting_init;
      on_write_ready = some connecting_write;
    }
    ∷ record (bare States.request_write) { on_write_ready = some request_write }
    ∷ record (bare States.copy) {
      on_arrival = some copy_init;
      on_read_ready = some copy_read;
      on_write_ready = some copy_write;
    }
    ∷ bare States.done
    ∷ bare States.error
    ∷ []

abbrev pub Machine : Type 0
Machine = StateMachine Context

abbrev pub new_machine : Machine
new_machine = record {
  initial = States.hello_read;
  states = client_statbl;
  max_state = States.error;
  current = none;
}

-- the round of the `for` loop of socksv5_done
unfoldable pub give_back : ℤ → Context → Option Context
give_back (negsuc n) c = some c
give_back (pos n) c = unregister (pos n) c >>= λ r. if r.0 then some r.1 else none

abbrev pub fewer : ℕ → ℕ
fewer n = if ltb 0 n then n - 1 else 0

-- The two descriptors are read before the first is given back.
unfoldable pub socksv5_done : Context → Option Context
socksv5_done c =
    let c' = count_metric metrics_conn_closed (
      on_world (λ w. record w { active_sessions = fewer w.active_sessions })
        (socks5_log_event c)) in
    let origin = c'.session.origin_fd in
    give_back (pos c'.session.client_fd) c' >>= λ c''. give_back origin c''

abbrev pub is_reading : ℕ → Bool
is_reading st = st == States.hello_read || st == States.auth_read || st == States.request_read

abbrev pub is_writing : ℕ → Bool
is_writing st = st == States.hello_write || st == States.auth_write || st == States.request_write

-- The call of a handler with another key, whose descriptor is `fd`.
abbrev pub with_key :
    ℕ → (Context → Option (ℕ × Machine × Context)) → Context → Option (ℕ × Machine × Context)
with_key fd handler c =
    handler (record c { fd = fd }) >>= λ r. some (r.0, r.1, record r.2 { fd = c.fd })

-- The `while` loop of socksv5_pump; `none` is also a loop that takes more rounds than there are.
unfoldable pub socksv5_pump : ℕ → ℕ → Machine → Context → Option (ℕ × Machine × Context)
socksv5_pump zero st m c = none
socksv5_pump (suc rounds) st m c =
    if is_reading st && buffer_can_read c.session.read_buffer
    then (stm_handler_read m c >>= λ r. socksv5_pump rounds r.0 r.1 r.2)
    else if is_writing st
    then (with_key c.session.client_fd (stm_handler_write m) c >>= λ r.
        if r.0 == st then some r else socksv5_pump rounds r.0 r.1 r.2)
    else some (st, m, c)

-- The states only go on, and there are eleven.
abbrev pub pump_rounds : ℕ
pump_rounds = 12

-- The end of the three handlers: a session in DONE or ERROR is closed.
unfoldable pub settle : Bytes → ℕ × Machine × Context → Option (Machine × Context)
settle reason (st, m, c) =
    if st == States.error
    then (socksv5_done (socks5_set_failure reason c) >>= λ c'. some (m, c'))
    else if st == States.done
    then (socksv5_done c >>= λ c'. some (m, c'))
    else some (m, c)

unfoldable pub socksv5_read : Machine → Context → Option (Machine × Context)
socksv5_read m c = stm_handler_read m c >>= λ r.
    socksv5_pump pump_rounds r.0 r.1 r.2 >>= λ r'. settle (codes "read error") r'

unfoldable pub socksv5_write : Machine → Context → Option (Machine × Context)
socksv5_write m c = stm_handler_write m c >>= λ r.
    socksv5_pump pump_rounds r.0 r.1 r.2 >>= λ r'. settle (codes "write error") r'

unfoldable pub socksv5_block : Machine → Context → Option (Machine × Context)
socksv5_block m c = stm_handler_block m c >>= λ r. settle (codes "block error") r

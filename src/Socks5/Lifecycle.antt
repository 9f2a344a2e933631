-- ===== src/Socks5/Lifecycle.antt =====
-- How sessions of src/shared/socks5.c begin, and the sweep of the timeouts over those that live.
use tpe_protos_g.Base.{
  ℕ, ◌+◌, ◌-◌, Bool, true, false, not, ◌&&◌, Option, none, some, List, [], ◌∷◌, ltb, leb, ◌==◌,
  if◌then◌else◌, ◌>>=◌, codes, Bytes, pos, negsuc, replicate,
}
use tpe_protos_g.Buffer.{Buffer, buffer_init}
use tpe_protos_g.Config.{Config}
use tpe_protos_g.Metrics.{Metrics, metrics_conn_accepted, metrics_conn_rejected}
use tpe_protos_g.Parsers.Auth.{AuthState}
use tpe_protos_g.Parsers.Hello.{HelloState}
use tpe_protos_g.Parsers.Request.{RequestState}
use tpe_protos_g.Selector.{Selector, op_read, is_success, selector_register}
use tpe_protos_g.Socks5.Connecting.{deadline, connecting_timeout}
use tpe_protos_g.Socks5.Copy.{new_copy}
use tpe_protos_g.Socks5.Engine.{Machine, new_machine, socksv5_done}
use tpe_protos_g.Socks5.Log.{socks5_set_failure}
use tpe_protos_g.Socks5.States
use tpe_protos_g.Socks5.System.{tick}
use tpe_protos_g.Socks5.Types.{Session, World, System, Handler, Context, Socket}
use tpe_protos_g.Stm.{stm_init, stm_state}

abbrev pub buffer_size : ℕ
buffer_size = 4096

abbrev pub no_buffer : Buffer
no_buffer = record { store = []; limit = 0; read = 0; write = 0 }

-- `memset` to 0, `client_fd`, `origin_fd`, `references`, and the two buffers
abbrev pub blank_session : ℕ → Session
blank_session fd = record {
  client_fd = fd;
  origin_fd = negsuc 0;
  origin_resolution = [];
  read_buffer = buffer_init no_buffer buffer_size (replicate buffer_size 0);
  write_buffer = buffer_init no_buffer buffer_size (replicate buffer_size 0);
  hello = record {
    parser = record {
      on_authentication_method = none;
      user_data = record { no_auth_offered = false; user_pass_offered = false };
      state = HelloState.version;
      remaining = 0;
    };
    method = 0;
  };
  auth = record {
    parser = record {
      state = AuthState.ver;
      remaining = 0;
      ulen = 0;
      plen = 0;
      uname = replicate 256 0;
      passwd = replicate 256 0;
    };
    status = 0;
  };
  request = record {
    parser = record {
      request = record {
        cmd = 0;
        dest_addr = record { type = 0; bytes = replicate 256 0 };
        dest_port = 0;
      };
      state = RequestState.version;
      remaining = 0;
      read = 0;
    };
    reply = 0;
  };
  client_copy = new_copy (pos 0) (pos 0);
  orig_copy = new_copy (pos 0) (pos 0);
  conn = record { current = []; reply = 0 };
  references = 1;
  negotiation_deadline = 0;
  connect_deadline = 0;
  last_activity = 0;
  authenticated_user = [];
  destination = [];
  destination_port = 0;
  destination_set = false;
  tunnel_opened = false;
  log_emitted = false;
  failure_reason = none;
  released = false;
}

-- A server: what its sessions share.
pub record Server : Type 0 where
  pub selector : Selector Handler ℕ
  pub world : World
  pub system : System

-- Whether there is memory for a session: one of the pool, or what malloc gives.
abbrev pub take_memory : Server → Bool × Server
take_memory v =
    if ltb 0 v.world.pool_size
    then (true, record v { world = record v.world { pool_size = v.world.pool_size - 1 } })
    else (v.system.malloc v.system.calls, record v { system = tick v.system })

abbrev pub started : ℕ → Option Config → ℕ → Session
started fd config now = record (blank_session fd) {
  last_activity = now;
  negotiation_deadline = deadline (λ g. g.negotiation_timeout) config now;
}

-- The inner `none` is NULL; the outer one is an abort of stm_init.
unfoldable pub socks5_new : ℕ → Server → Option (Option (Machine × Session) × Server)
socks5_new fd v =
    let r = take_memory v in
    if r.0
    then (stm_init new_machine >>= λ m. some (
      some (m, started fd r.1.world.config (r.1.system.time r.1.system.calls)),
      record r.1 { system = tick r.1.system },
    ))
    else some (none, r.1)

abbrev pub count_server : (Metrics → Metrics) → Server → Server
count_server f v = record v {
  world = record v.world { metrics = elim v.world.metrics [ none ↦ none | some m ↦ some (f m) ] };
}

-- `g_config != NULL && g_config->max_connections > 0 && g_active_sessions >= max_connections`
abbrev pub is_full : Option Config → ℕ → Bool
is_full none active = false
is_full (some g) active = elim g.max_connections [
  | pos n ↦ ltb 0 n && leb n active
  | negsuc n ↦ false
]

-- A connection that is not taken is counted. (A session that was made for it goes back to the pool,
-- where its memory came from or that has room, and the socket is closed.)
abbrev pub turn_away : Server → Server
turn_away v = count_server metrics_conn_rejected v

-- the `fail` label with a session, of one reference
abbrev pub give_up : Server → Server
give_up v = turn_away (
    if ltb v.world.pool_size 50
    then record v { world = record v.world { pool_size = v.world.pool_size + 1 } }
    else v)

-- behind selector_register
abbrev pub admitted :
    Bool → Machine × Session → Server → Option (Option (Machine × Session) × Server)
admitted true s v = some (
  some s,
  count_server metrics_conn_accepted
      (record v { world = record v.world { active_sessions = v.world.active_sessions + 1 } }),
)
admitted false s v = some (none, give_up v)

-- a client that is not refused for the limit
unfoldable pub welcome : ℕ → Server → Option (Option (Machine × Session) × Server)
welcome fd v = socks5_new fd v >>= λ r. elim r.0 [
  | none ↦ some (none, turn_away r.1)
  | some s ↦
      selector_register (r.1.system.allocator r.1.system.calls) r.1.selector (pos fd)
        (some Handler.socks5_handler) op_read (some fd)
      >>= λ q. admitted (is_success q.0) s (record r.1 { selector = q.1; system = tick r.1.system })
]

abbrev pub nonblocking : ℕ → Server → Option (Option (Machine × Session) × Server)
nonblocking fd v = elim (v.system.set_nio v.system.calls) [
  | some e ↦ some (none, turn_away (record v { system = tick v.system }))
  | none ↦
      let v' : Server = record v { system = tick v.system } in
      if is_full v'.world.config v'.world.active_sessions
      then some (none, turn_away v')
      else welcome fd v'
]

-- What accept returns is the argument. The session that begins, if one does; active_list_add then
-- puts it into the list.
unfoldable pub socksv5_passive_accept :
    Socket → Server → Option (Option (Machine × Session) × Server)
socksv5_passive_accept (Socket.not_opened e) v = some (none, turn_away v)
socksv5_passive_accept (Socket.opened fd) v = nonblocking fd v

-- `now - last_activity >= idle_timeout`, a timeout that is set
abbrev pub is_idle : Option Config → ℕ → ℕ → Bool
is_idle none now last = false
is_idle (some g) now last = elim g.idle_timeout [
  | pos n ↦ ltb 0 n && leb (last + n) now
  | negsuc n ↦ false
]

abbrev pub is_past : ℕ → ℕ → Bool
is_past limit now = not (limit == 0) && leb limit now

-- socksv5_done, for a reason and with the key of the client's socket
abbrev pub expire : Bytes → Context → Option Context
expire reason c = socksv5_done (record (socks5_set_failure reason c) { fd = c.session.client_fd })

-- one round of the sweep, for a session in state `st`
unfoldable pub check_session : ℕ → ℕ → Context → Option Context
check_session now st c =
    if st == States.connecting
    then (if is_past c.session.connect_deadline now then connecting_timeout c else some c)
    else if st == States.copy
    then (if is_idle c.world.config now c.session.last_activity
        then expire (codes "idle timeout") c
        else some c)
    else if not (st == States.done) && not (st == States.error) && not (st == States.request_resolv)
    then (if is_past c.session.negotiation_deadline now
        then expire (codes "negotiation timeout") c
        else some c)
    else some c

-- a session in the context of the server
abbrev pub inside : Session → Server → Context
inside s v = record {
  fd = s.client_fd;
  selector = v.selector;
  session = s;
  world = v.world;
  system = v.system;
}

abbrev pub server_of : Context → Server
server_of c = record { selector = c.selector; world = c.world; system = c.system }

-- the `while` loop over the live sessions; those that expired are released in what it leaves
unfoldable pub sweep :
    ℕ → List (Machine × Session) → Server → Option (List (Machine × Session) × Server)
sweep now [] v = some ([], v)
sweep now ((m, s) ∷ rest) v = stm_state m >>= λ st. check_session now st (inside s v) >>= λ c.
    sweep now rest (server_of c) >>= λ r. some ((m, c.session) ∷ r.0, r.1)

unfoldable pub socksv5_check_timeouts :
    List (Machine × Session) → Server → Option (List (Machine × Session) × Server)
socksv5_check_timeouts sessions v =
    sweep (v.system.time v.system.calls) sessions (record v { system = tick v.system })

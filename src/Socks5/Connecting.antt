-- ===== src/Socks5/Connecting.antt =====
-- The connection to the origin server (src/shared/socks5.c): CONNECTING.
--
-- `close` leaves errno as it is.
use tpe_protos_g.Base.{
  ℕ, ◌+◌, ◌-◌, Bool, true, false, Option, none, some, List, [], ◌∷◌, ◌==◌, ltb, if◌then◌else◌,
  ◌>>=◌, codes, ℤ, pos, negsuc, take,
}
use tpe_protos_g.Config.{Config}
use tpe_protos_g.Metrics.{metrics_origin_ok, metrics_origin_fail}
use tpe_protos_g.Netutils.{
  Errno, einprogress, errno_to_socks_reply, socks_reply_succeeded, socks_reply_general_failure,
  socks_reply_ttl_expired,
}
use tpe_protos_g.Parsers.Request.{Socks5Request, socks_atyp_ipv4, socks_atyp_ipv6, request_marshall}
use tpe_protos_g.Selector.{op_noop, op_write, is_success, selector_register}
use tpe_protos_g.Socks5.Auth.{count_metric}
use tpe_protos_g.Socks5.Log.{socks5_set_failure}
use tpe_protos_g.Socks5.Release.{unregister}
use tpe_protos_g.Socks5.Request.{with_request}
use tpe_protos_g.Socks5.States
use tpe_protos_g.Socks5.System.{
  on_session, with_system, tick, set_interest, set_interest_key, or_error, marshalled,
}
use tpe_protos_g.Socks5.Types.{Address, Connecting, Socket, System, Handler, Context}

abbrev pub with_conn : Connecting → Context → Context
with_conn k c = on_session (λ s. record s { conn = k }) c

abbrev pub with_origin : ℤ → Context → Context
with_origin fd c = on_session (λ s. record s { origin_fd = fd }) c

-- connect has begun, or ended
abbrev pub is_under_way : Errno → Bool
is_under_way einprogress = true
is_under_way _ = false

-- behind the call of connect, for a new socket `fd`; `none` is 0, and an errno is -1
unfoldable pub connected : ℕ → Option Errno → Context → Option Errno × Context
connected fd none c = (none, with_origin (pos fd) c)
connected fd (some e) c = if is_under_way e then (none, with_origin (pos fd) c) else (some e, c)

abbrev pub dial : Address → System → System
dial addr y = record (tick y) { dialled = addr ∷ y.dialled }

-- behind the call of socket
unfoldable pub try_socket : Socket → Address → Context → Option Errno × Context
try_socket (Socket.not_opened e) addr c = (some e, c)
try_socket (Socket.opened fd) addr c = elim (c.system.set_nio c.system.calls) [
  | some e ↦ (some e, with_system (tick c.system) c)
  | none ↦ let y = tick c.system in connected fd (y.connect y.calls) (with_system (dial addr y) c)
]

unfoldable pub connecting_try_one : Address → Context → Option Errno × Context
connecting_try_one addr c =
    try_socket (c.system.socket c.system.calls) addr (with_system (tick c.system) c)

-- behind the call of selector_register
abbrev pub registered_origin : Bool → Context → Bool × Context
registered_origin true c = (true, c)
registered_origin false c =
    (false, with_origin (negsuc 0) (on_session (λ s. record s { references = s.references - 1 }) c))

unfoldable pub connecting_register_origin : Context → Option (Bool × Context)
connecting_register_origin c =
    selector_register (c.system.allocator c.system.calls) c.selector c.session.origin_fd
      (some Handler.socks5_handler) op_write (some c.session.client_fd)
    >>= λ r. some (
        registered_origin (is_success r.0)
          (with_system (tick c.system) (record c { selector = r.1 })))

-- what follows a connect that failed for good
unfoldable pub connect_failed : Context → Option Context
connect_failed c =
    set_interest (pos c.session.client_fd) op_write (socks5_set_failure (codes "connect failed") c)
    >>= λ r. some r.1

-- a socket that connects: one more reference, and the selector
unfoldable pub connect_begun : Context → Option Context
connect_begun c =
    connecting_register_origin (on_session (λ s. record s { references = s.references + 1 }) c)
    >>= λ r.
        if r.0
        then some r.1
        else connect_failed
            (with_conn (record r.1.session.conn { reply = socks_reply_general_failure }) r.1)

-- the `while` loop, over what is left of the list
unfoldable pub try_addresses : List Address → Context → Option Context
try_addresses [] c = connect_failed c
try_addresses (addr ∷ rest) c =
    let r = connecting_try_one addr (with_conn (record c.session.conn { current = rest }) c) in
    elim r.0 [
      | none ↦ connect_begun r.1
      | some e ↦
          try_addresses rest
            (with_conn (record r.1.session.conn { reply = errno_to_socks_reply e }) r.1)
    ]

abbrev pub connecting_try_addrinfo : Context → Option Context
connecting_try_addrinfo c = try_addresses c.session.conn.current c

-- the address of a request that has one
abbrev pub address_of : Socks5Request → Address
address_of request =
    if request.dest_addr.type == socks_atyp_ipv4
    then record {
      family = socks_atyp_ipv4;
      bytes = take 4 request.dest_addr.bytes;
      port = request.dest_port;
    }
    else record {
      family = socks_atyp_ipv6;
      bytes = take 16 request.dest_addr.bytes;
      port = request.dest_port;
    }

-- IPv4 and IPv6
unfoldable pub try_literal : Context → Option Context
try_literal c =
    let r = connecting_try_one (address_of c.session.request.parser.request) c in
    elim r.0 [
      | none ↦ connect_begun r.1
      | some e ↦
          connect_failed
            (with_conn (record r.1.session.conn { reply = errno_to_socks_reply e }) r.1)
    ]

-- `now + timeout`, or 0 if there is no configuration or no timeout
abbrev pub deadline : (Config → ℤ) → Option Config → ℕ → ℕ
deadline timeout none now = 0
deadline timeout (some g) now = elim (timeout g) [
  | pos n ↦ if ltb 0 n then now + n else 0
  | negsuc n ↦ 0
]

unfoldable pub connecting_init : ℕ → Context → Option Context
connecting_init state c =
    let c' =
      on_session
        (λ s. record s {
          conn = record s.conn { reply = socks_reply_general_failure };
          connect_deadline =
              deadline (λ g. g.connect_timeout) c.world.config (c.system.time c.system.calls);
        })
        (with_system (tick c.system) c) in
    elim c'.session.conn.current [ [] ↦ try_literal c' | a ∷ rest ↦ connecting_try_addrinfo c' ]

-- the reply, written to the buffer
abbrev pub reply_with : ℕ → Context → (Context → Option (ℕ × Context)) → Option (ℕ × Context)
reply_with reply c k =
    let c' = with_request (record c.session.request { reply = reply }) c in
    marshalled (request_marshall c'.session.write_buffer reply) c' k

-- the client's socket is writable: the connection failed
unfoldable pub report_failure : Context → Option (ℕ × Context)
report_failure c =
    let c' = count_metric metrics_origin_fail (socks5_set_failure (codes "connect failed") c) in
    reply_with c'.session.conn.reply c' (λ c''. some (States.request_write, c''))

unfoldable pub connect_succeeded : Context → Option (ℕ × Context)
connect_succeeded c = reply_with socks_reply_succeeded (count_metric metrics_origin_ok c) (λ c'.
    or_error (set_interest (pos c'.session.client_fd) op_write c')
      (λ c''. or_error (set_interest_key op_noop c'') (λ c'''. some (States.request_write, c'''))))

unfoldable pub no_more_addresses : Context → Option (ℕ × Context)
no_more_addresses c =
    let c' = count_metric metrics_origin_fail (socks5_set_failure (codes "connect failed") c) in
    reply_with c'.session.conn.reply c' (λ c''.
      or_error (set_interest (pos c''.session.client_fd) op_write c'')
        (λ c'''. some (States.request_write, c''')))

-- the connect to this address failed with `e`
unfoldable pub next_address : Errno → Context → Option (ℕ × Context)
next_address e c =
    let c' = with_conn (record c.session.conn { reply = errno_to_socks_reply e }) c in
    unregister c'.session.origin_fd c' >>= λ r.
    let c'' = with_origin (negsuc 0) r.1 in
    elim c''.session.conn.current [
      | [] ↦ no_more_addresses c''
      | a ∷ rest ↦ connecting_try_addrinfo c'' >>= λ c'''. some (States.connecting, c''')
    ]

unfoldable pub connecting_write : Context → Option (ℕ × Context)
connecting_write c =
    if c.fd == c.session.client_fd
    then report_failure c
    else (let c' = with_system (tick c.system) c in
        elim (c.system.sock_error c.system.calls) [
          | none ↦ connect_succeeded c'
          | some e ↦ next_address e c'
        ])

-- of the sweep of the timeouts
unfoldable pub drop_origin : ℤ → Context → Option Context
drop_origin (negsuc n) c = some c
drop_origin (pos n) c = unregister (pos n) c >>= λ r. some (with_origin (negsuc 0) r.1)

unfoldable pub connecting_timeout : Context → Option Context
connecting_timeout c = drop_origin c.session.origin_fd c >>= λ c'.
    set_interest (pos c'.session.client_fd) op_write
      (with_conn (record { current = []; reply = socks_reply_ttl_expired }) c')
    >>= λ r. some r.1

-- ===== src/Socks5/Request.antt =====
-- The request of a session (src/shared/socks5.c): REQUEST_READ, REQUEST_RESOLV and REQUEST_WRITE.
use tpe_protos_g.Base.{
  ℕ, ◌+◌, ◌-◌, Bool, true, false, Option, none, some, [], ◌∷◌, ◌==◌, if◌then◌else◌, ◌>>=◌, codes,
  c_string,
}
use tpe_protos_g.Dns.{DnsWorker, dns_worker_submit}
use tpe_protos_g.Netutils.{
  socks_reply_succeeded, socks_reply_general_failure, socks_reply_host_unreachable,
  socks_reply_cmd_not_supported, socks_reply_atyp_not_supported,
}
use tpe_protos_g.Parsers.Request.{
  RequestState, Socks5Request, socks_atyp_fqdn, request_parser_init, request_consume,
  request_is_done, request_marshall,
}
use tpe_protos_g.Selector.{op_noop, op_read, op_write}
use tpe_protos_g.Socks5.Log.{socks5_set_failure, socks5_store_destination}
use tpe_protos_g.Socks5.States
use tpe_protos_g.Socks5.System.{
  on_session, on_world, with_system, tick, with_read_buffer, set_interest_key, or_error, marshalled,
  with_input, with_output,
}
use tpe_protos_g.Socks5.Types.{RequestSt, Context}

abbrev pub with_request : RequestSt → Context → Context
with_request r c = on_session (λ s. record s { request = r }) c

unfoldable pub request_read_init : ℕ → Context → Option Context
request_read_init state c = some (
    with_request
      (record {
        parser = request_parser_init c.session.request.parser;
        reply = socks_reply_general_failure;
      })
      c)

-- A reply is written to the buffer, the client's socket is asked for OP_WRITE, and it is sent. In
-- `request_process` the client's socket is the key's.
unfoldable pub answer : ℕ → Context → Option (ℕ × Context)
answer reply c =
    let c' = with_request (record c.session.request { reply = reply }) c in
    marshalled (request_marshall c'.session.write_buffer reply) c'
      (λ c''. or_error (set_interest_key op_write c'') (λ c'''. some (States.request_write, c''')))

-- the call of dns_worker_submit: whether the job is taken
abbrev pub submitted : Bool × DnsWorker → Context → Bool × Context
submitted r c =
    (r.0, on_world (λ w. record w { dns_worker = some r.1 }) (with_system (tick c.system) c))

unfoldable pub submit : Socks5Request → Context → Bool × Context
submit request c = elim c.world.dns_worker [
  | none ↦ (false, c)
  | some w ↦
      submitted
        (dns_worker_submit (c.system.malloc c.system.calls) w c.fd
          (c_string request.dest_addr.bytes) request.dest_port c.session.client_fd)
        c
]

-- a name goes to the resolver, which holds a reference to the session
unfoldable pub resolve : Socks5Request → Context → Option (ℕ × Context)
resolve request c =
    let r = submit request c in
    if r.0
    then some
        (States.request_resolv, on_session (λ s. record s { references = s.references + 1 }) r.1)
    else answer socks_reply_general_failure (socks5_set_failure (codes "dns submit failed") r.1)

-- `request_done`
unfoldable pub destination_given : Socks5Request → Context → Option (ℕ × Context)
destination_given request c =
    let r = socks5_store_destination request c in
    if r.0
    then or_error (set_interest_key op_noop r.1) (λ c'.
      if request.dest_addr.type == socks_atyp_fqdn
      then resolve request c'
      else some (States.connecting, c'))
    else some (States.error, r.1)

abbrev pub process_state : RequestState → Context → Option (ℕ × Context)
process_state RequestState.error_unsupported_cmd c =
    answer socks_reply_cmd_not_supported (socks5_set_failure (codes "unsupported command") c)
process_state RequestState.error_unsupported_atyp c =
    answer socks_reply_atyp_not_supported (socks5_set_failure (codes "unsupported address type") c)
process_state _ c = destination_given c.session.request.parser.request c

unfoldable pub request_process : Context → Option (ℕ × Context)
request_process c = process_state c.session.request.parser.state c

unfoldable pub request_resolv_done : Context → Option (ℕ × Context)
request_resolv_done c =
    let c' = on_session (λ s. record s { references = s.references - 1 }) c in
    elim c'.session.origin_resolution [
      | [] ↦
          answer socks_reply_host_unreachable
            (socks5_set_failure (codes "dns resolution failed") c')
      | a ∷ rest ↦ some (
        States.connecting,
        on_session (λ s. record s { conn = record s.conn { current = a ∷ rest } }) c',
      )
    ]

-- request_read, behind the call of recv
unfoldable pub request_parse : Context → Option (ℕ × Context)
request_parse c =
    request_consume c.session.read_buffer c.session.request.parser (some false) >>= λ r.
    let c' = with_read_buffer r.0 (with_request (record c.session.request { parser = r.1.0 }) c) in
    elim r.1.1 [
      | some true ↦ some (States.error, socks5_set_failure (codes "invalid request") c')
      | _ ↦
          if (request_is_done r.1.0.state none).0
          then request_process c'
          else some (States.request_read, c')
    ]

unfoldable pub request_read : Context → Option (ℕ × Context)
request_read c = with_input States.request_read request_parse c

-- request_write, when all is sent
unfoldable pub request_sent : Context → Option (ℕ × Context)
request_sent c =
    if c.session.request.reply == socks_reply_succeeded
    then or_error (set_interest_key op_read c) (λ c'. some (States.copy, c'))
    else some (States.done, c)

unfoldable pub request_write : Context → Option (ℕ × Context)
request_write c = with_output States.request_write request_sent c

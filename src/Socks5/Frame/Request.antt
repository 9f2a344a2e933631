-- ===== src/Socks5/Frame/Request.antt =====
-- The callbacks of the request (src/shared/socks5.c) keep the users and the user who logged in.
use tpe_protos_g.Base.{
  ℕ, ◌-◌, refl, arith, Bool, true, false, Option, none, some, List, [], ◌∷◌, ◌==◌, if◌then◌else◌,
  any-Every, pos, Bool-cases, Option-cases, inl, inr, codes,
}
use tpe_protos_g.Buffer.{Buffer}
use tpe_protos_g.Netutils.{
  socks_reply_general_failure, socks_reply_host_unreachable, socks_reply_cmd_not_supported,
  socks_reply_atyp_not_supported, socks_reply_succeeded,
}
use tpe_protos_g.Parsers.Request.{
  RequestState, RequestParser, Socks5Request, socks_atyp_fqdn, request_consume, request_is_done,
  request_marshall,
}
use tpe_protos_g.Selector.{op_noop, op_read, op_write}
use tpe_protos_g.Socks5.Frame.{
  Keeps, KeepsIt, KeepsOn, Late, Keeps-refl, set_interest-KeepsFlag, then-KeepsOn, or_error-KeepsOn,
  marshalled-KeepsOn, with_input-KeepsOn, with_output-KeepsOn,
}
use tpe_protos_g.Socks5.Log.{stored, socks5_set_failure, socks5_store_destination}
use tpe_protos_g.Socks5.Request.{
  with_request, request_read_init, answer, submit, resolve, destination_given, process_state,
  request_process, request_resolv_done, request_parse, request_read, request_sent, request_write,
}
use tpe_protos_g.Socks5.States
use tpe_protos_g.Socks5.System.{on_session, with_read_buffer, set_interest_key}
use tpe_protos_g.Socks5.Types.{Context, Address}

pub request_read_init-KeepsIt : (state : ℕ) (c : Context) → KeepsIt c (request_read_init state c)
unfolding request_read_init
request_read_init-KeepsIt state c = record { users = refl; user = refl }

pub answer-KeepsOn : (reply : ℕ) (c : Context) → KeepsOn c (answer reply c)
unfolding answer
answer-KeepsOn reply c =
    let c' = with_request (record c.session.request { reply = reply }) c in
    then-KeepsOn c c' _ (record { users = refl; user = refl })
      (marshalled-KeepsOn (request_marshall c'.session.write_buffer reply) c' _ (λ c''.
        or_error-KeepsOn c'' (set_interest_key op_write c'') (λ d. some (States.request_write, d))
          (set_interest-KeepsFlag (pos c''.fd) op_write c'') (λ d. (omega arith, Keeps-refl d))))

submit-Keeps : (request : Socks5Request) (c : Context) → Keeps c (submit request c).1
unfolding submit
submit-Keeps request c = elim (Option-cases c.world.dns_worker) [
  | inl off ↦ rw off (record { users = refl; user = refl })
  | inr (w, on) ↦ rw on (record { users = refl; user = refl })
]

resolve-KeepsOn : (request : Socks5Request) (c : Context) → KeepsOn c (resolve request c)
unfolding resolve
resolve-KeepsOn request c =
    let kept = submit-Keeps request c in
    elim (Bool-cases (submit request c).0) [
      | inl taken ↦ rw taken (omega arith, record { users = kept.users; user = kept.user })
      | inr refused ↦ rw refused (
          then-KeepsOn c (socks5_set_failure (codes "dns submit failed") (submit request c).1) _
            (record { users = kept.users; user = kept.user })
            (answer-KeepsOn socks_reply_general_failure
              (socks5_set_failure (codes "dns submit failed") (submit request c).1)))
    ]

store_destination-Keeps :
    (request : Socks5Request) (c : Context) → Keeps c (socks5_store_destination request c).1
unfolding socks5_store_destination
store_destination-Keeps request c = elim (Option-cases (stored c.system request)) [
  | inl unknown ↦ rw unknown (record { users = refl; user = refl })
  | inr (text, known) ↦ rw known (record { users = refl; user = refl })
]

destination_given-KeepsOn :
    (request : Socks5Request) (c : Context) → KeepsOn c (destination_given request c)
unfolding destination_given
destination_given-KeepsOn request c =
    let kept = store_destination-Keeps request c in
    let c' = (socks5_store_destination request c).1 in
    elim (Bool-cases (socks5_store_destination request c).0) [
      | inl known ↦ rw known (
          then-KeepsOn c c' _ kept (
            or_error-KeepsOn c' (set_interest_key op_noop c') _
              (set_interest-KeepsFlag (pos c'.fd) op_noop c')
              (λ d. by_name (request.dest_addr.type == socks_atyp_fqdn) d)))
      | inr unknown ↦ rw unknown (omega arith, kept)
    ]
  where
    by_name :
        (b : Bool) (d : Context)
        → KeepsOn d (if b then resolve request d else some (States.connecting, d))
    by_name true d = resolve-KeepsOn request d
    by_name false d = (omega arith, Keeps-refl d)

process_state-KeepsOn : (st : RequestState) (c : Context) → KeepsOn c (process_state st c)
process_state-KeepsOn RequestState.error_unsupported_cmd c =
    then-KeepsOn c (socks5_set_failure (codes "unsupported command") c) _
      (record { users = refl; user = refl }) (answer-KeepsOn socks_reply_cmd_not_supported _)
process_state-KeepsOn RequestState.error_unsupported_atyp c =
    then-KeepsOn c (socks5_set_failure (codes "unsupported address type") c) _
      (record { users = refl; user = refl }) (answer-KeepsOn socks_reply_atyp_not_supported _)
process_state-KeepsOn _ c = destination_given-KeepsOn c.session.request.parser.request c

request_process-KeepsOn : (c : Context) → KeepsOn c (request_process c)
unfolding request_process
request_process-KeepsOn c = process_state-KeepsOn c.session.request.parser.state c

pub request_resolv_done-KeepsOn : (c : Context) → KeepsOn c (request_resolv_done c)
unfolding request_resolv_done
request_resolv_done-KeepsOn c = by c.session.origin_resolution
  where
    by :
        (found : List Address)
        → KeepsOn c (elim found [
          | [] ↦ answer socks_reply_host_unreachable (
              socks5_set_failure
                (codes "dns resolution failed")
                (on_session (λ s. record s { references = s.references - 1 }) c))
          | a ∷ rest ↦ some (
            States.connecting,
            on_session
                (λ s. record s { conn = record s.conn { current = a ∷ rest } })
                (on_session (λ s. record s { references = s.references - 1 }) c),
          )
        ])
    by [] =
        then-KeepsOn c
          (socks5_set_failure (codes "dns resolution failed")
            (on_session (λ s. record s { references = s.references - 1 }) c))
          _ (record { users = refl; user = refl }) (answer-KeepsOn socks_reply_host_unreachable _)
    by (a ∷ rest) = (omega arith, record { users = refl; user = refl })

request_parse-KeepsOn : (c : Context) → KeepsOn c (request_parse c)
unfolding request_parse
request_parse-KeepsOn c =
    any-Every (Late c) (request_consume c.session.read_buffer c.session.request.parser (some false))
      _ (λ r. by r.0 r.1.0 r.1.1)
  where
    parsed : Buffer → RequestParser → Context
    parsed b p = with_read_buffer b (with_request (record c.session.request { parser = p }) c)

    goes :
        (b : Bool) (c' : Context)
        → Keeps c c'
        → KeepsOn c (if b then request_process c' else some (States.request_read, c'))
    goes true c' kept = then-KeepsOn c c' (request_process c') kept (request_process-KeepsOn c')
    goes false c' kept = (omega arith, kept)

    by :
        (b : Buffer) (p : RequestParser) (failed : Option Bool)
        → KeepsOn c (elim failed [
          | some true ↦
              some (States.error, socks5_set_failure (codes "invalid request") (parsed b p))
          | _ ↦
              if (request_is_done p.state none).0
              then request_process (parsed b p)
              else some (States.request_read, parsed b p)
        ])
    by b p none =
        goes (request_is_done p.state none).0 (parsed b p) (record { users = refl; user = refl })
    by b p (some false) =
        goes (request_is_done p.state none).0 (parsed b p) (record { users = refl; user = refl })
    by b p (some true) = (omega arith, record { users = refl; user = refl })

pub request_read-KeepsOn : (c : Context) → KeepsOn c (request_read c)
unfolding request_read
request_read-KeepsOn c =
    with_input-KeepsOn States.request_read request_parse c (omega arith) request_parse-KeepsOn

request_sent-KeepsOn : (c : Context) → KeepsOn c (request_sent c)
unfolding request_sent
request_sent-KeepsOn c = elim (Bool-cases (c.session.request.reply == socks_reply_succeeded)) [
  | inl ok ↦ rw ok (
      or_error-KeepsOn c (set_interest_key op_read c) (λ c'. some (States.copy, c'))
        (set_interest-KeepsFlag (pos c.fd) op_read c) (λ d. (omega arith, Keeps-refl d)))
  | inr no_luck ↦ rw no_luck (omega arith, Keeps-refl c)
]

pub request_write-KeepsOn : (c : Context) → KeepsOn c (request_write c)
unfolding request_write
request_write-KeepsOn c =
    with_output-KeepsOn States.request_write request_sent c (omega arith) request_sent-KeepsOn

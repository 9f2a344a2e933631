-- ===== src/Socks5/Pumping.antt =====
-- How far a round of the pump of src/shared/socks5.c comes: to a later state, or else all that came in
-- is read, or a reply is not sent yet.
pub mod Parsing
pub mod Rounds
pub mod Ends
use tpe_protos_g.Base.{
  ℕ, zero, suc, ◌≤◌, ◌<◌, ◌≡◌, ◌⊎◌, refl, sym, ap, ◌∙◌, arith, Bool, true, false, Option, none,
  some, ◌>>=◌, ◌==◌, if◌then◌else◌, Every, bind-Every, any-Every, imp-Every, Bool-cases,
  Option-cases, inl, inr, codes, ℤ, ◌+◌,
}
use tpe_protos_g.Buffer.{Buffer, buffer_can_read}
use tpe_protos_g.Parsers.Auth.{
  AuthState, AuthParser, auth_step, auth_final, auth_consume, auth_is_done, auth_marshall,
}
use tpe_protos_g.Parsers.Draining.{Drained, consume-Drained}
use tpe_protos_g.Parsers.Hello.{
  HelloState, HelloParser, hello_step, hello_final, hello_consume, hello_is_done, hello_marshall,
}
use tpe_protos_g.Parsers.Request.{
  RequestState, RequestParser, request_step, request_final, request_consume, request_is_done,
  request_marshall, socks_atyp_fqdn, Socks5Request,
}
use tpe_protos_g.Netutils.{
  socks_reply_general_failure, socks_reply_cmd_not_supported, socks_reply_atyp_not_supported,
  socks_reply_succeeded,
}
use tpe_protos_g.Selector.{op_noop, op_read, op_write}
use tpe_protos_g.Socks5.Auth.{
  with_auth, accepts, admit, refuse, auth_process, auth_parse, auth_read, auth_sent, auth_write,
}
use tpe_protos_g.Socks5.Hello.{
  with_hello, username_password, no_acceptable_methods, auth_required, choose_method, hello_process,
  hello_parse, hello_read, hello_sent, hello_write,
}
use tpe_protos_g.Socks5.Log.{socks5_set_failure, socks5_store_destination}
use tpe_protos_g.Socks5.Request.{
  with_request, answer, submit, resolve, destination_given, process_state, request_process,
  request_parse, request_read, request_sent, request_write,
}
use tpe_protos_g.Socks5.Rules.{marshalled-Every, with_output-Every}
use tpe_protos_g.Socks5.States
use tpe_protos_g.Socks5.System.{
  or_error, marshalled, on_session, set_interest_key, with_read_buffer, with_write_buffer,
  with_input,
}
use tpe_protos_g.Socks5.Types.{Context, Offered}

-- A later state; one that is not earlier; and a later one, or the same with nothing left to read.
abbrev pub Beyond : ℕ → ℕ × Context → Type 0
Beyond i r = i < r.0

abbrev pub NotBefore : ℕ → ℕ × Context → Type 0
NotBefore i r = i ≤ r.0

abbrev pub Advances : ℕ → ℕ × Context → Type 0
Advances i r = (i < r.0) ⊎ ((r.0 ≡ i) × (buffer_can_read r.1.session.read_buffer ≡ false))

pub or_error-any :
    (Q : ℕ × Context → Type 0) (m : Option (Bool × Context)) (k : Context → Option (ℕ × Context))
    → ((c : Context) → Q (States.error, c))
    → ((c : Context) → Every Q (k c))
    → Every Q (or_error m k)
or_error-any Q m k broke goes =
    any-Every Q m (λ r. if r.0 then k r.1 else some (States.error, r.1)) (λ r. by r.0 r.1)
  where
    by : (b : Bool) (c : Context) → Every Q (if b then k c else some (States.error, c))
    by true c = goes c
    by false c = broke c

marshalled-Beyond :
    (i : ℕ) (m : Option (ℤ × Buffer)) (c : Context) (k : Context → Option (ℕ × Context))
    → i < States.error
    → ((c : Context) → Every (Beyond i) (k c))
    → Every (Beyond i) (marshalled m c k)
marshalled-Beyond i m c k below goes =
    marshalled-Every (Beyond i) m c k (λ w. below) (λ w. goes (with_write_buffer w c))

pub or_error-Beyond :
    (i : ℕ) (m : Option (Bool × Context)) (k : Context → Option (ℕ × Context))
    → i < States.error
    → ((c : Context) → Every (Beyond i) (k c))
    → Every (Beyond i) (or_error m k)
or_error-Beyond i m k below goes = or_error-any (Beyond i) m k (λ c. below) goes

pub hello_process-Beyond : (c : Context) → Every (Beyond States.hello_read) (hello_process c)
unfolding hello_process
hello_process-Beyond c =
    marshalled-Beyond States.hello_read _
      (with_hello
        (record c.session.hello {
          method = choose_method (auth_required c.world.users) c.session.hello.parser.user_data;
        })
        c)
      (λ c''. some (States.hello_write, c'')) (omega arith) (λ d. omega arith)

pub auth_process-Beyond : (c : Context) → Every (Beyond States.auth_read) (auth_process c)
unfolding auth_process
auth_process-Beyond c =
    marshalled-Beyond States.auth_read _
      (if accepts c.world.users c.session.auth.parser then admit c else refuse c)
      (λ c''. some (States.auth_write, c'')) (omega arith) (λ d. omega arith)

answer-Beyond : (reply : ℕ) (c : Context) → Every (Beyond States.request_read) (answer reply c)
unfolding answer
answer-Beyond reply c =
    marshalled-Beyond States.request_read _
      (with_request (record c.session.request { reply = reply }) c) _ (omega arith)
      (λ d.
        or_error-Beyond States.request_read (set_interest_key op_write d)
          (λ d'. some (States.request_write, d')) (omega arith) (λ d'. omega arith))

resolve-Beyond :
    (request : Socks5Request) (c : Context) → Every (Beyond States.request_read) (resolve request c)
unfolding resolve
resolve-Beyond request c = by (submit request c).0 (submit request c).1
  where
    by :
        (ok : Bool) (d : Context)
        → Every (Beyond States.request_read) (
            if ok
            then some (
              States.request_resolv,
              on_session (λ s. record s { references = s.references + 1 }) d,
            )
            else answer socks_reply_general_failure
                (socks5_set_failure (codes "dns submit failed") d))
    by true d = omega arith
    by false d = answer-Beyond socks_reply_general_failure _

destination_given-Beyond :
    (request : Socks5Request) (c : Context)
    → Every (Beyond States.request_read) (destination_given request c)
unfolding destination_given
destination_given-Beyond request c =
    by (socks5_store_destination request c).0 (socks5_store_destination request c).1
  where
    by_name :
        (b : Bool) (d : Context)
        → Every
            (Beyond States.request_read)
            (if b then resolve request d else some (States.connecting, d))
    by_name true d = resolve-Beyond request d
    by_name false d = omega arith

    by :
        (ok : Bool) (d : Context)
        → Every (Beyond States.request_read) (
            if ok
            then or_error (set_interest_key op_noop d) (λ c'.
              if request.dest_addr.type == socks_atyp_fqdn
              then resolve request c'
              else some (States.connecting, c'))
            else some (States.error, d))
    by true d =
        or_error-Beyond States.request_read (set_interest_key op_noop d) _ (omega arith)
          (by_name (request.dest_addr.type == socks_atyp_fqdn))
    by false d = omega arith

process_state-Beyond :
    (st : RequestState) (c : Context) → Every (Beyond States.request_read) (process_state st c)
process_state-Beyond RequestState.error_unsupported_cmd c =
    answer-Beyond socks_reply_cmd_not_supported _
process_state-Beyond RequestState.error_unsupported_atyp c =
    answer-Beyond socks_reply_atyp_not_supported _
process_state-Beyond _ c = destination_given-Beyond c.session.request.parser.request c

pub request_process-Beyond : (c : Context) → Every (Beyond States.request_read) (request_process c)
unfolding request_process
request_process-Beyond c = process_state-Beyond c.session.request.parser.state c

-- ===== src/Socks5/Auth.antt =====
-- The login of a session (src/shared/socks5.c): AUTH_READ and AUTH_WRITE.
use tpe_protos_g.Base.{
  ℕ, Bool, true, false, Option, none, some, ◌==◌, if◌then◌else◌, ◌>>=◌, c_string, take,
}
use tpe_protos_g.Metrics.{Metrics, metrics_auth_fail}
use tpe_protos_g.Parsers.Auth.{
  AuthParser, auth_parser_init, auth_consume, auth_is_done, auth_marshall,
}
use tpe_protos_g.Selector.{op_read, op_write}
use tpe_protos_g.Socks5.States
use tpe_protos_g.Socks5.System.{
  on_session, on_world, with_read_buffer, set_interest_key, or_error, marshalled, with_input,
  with_output,
}
use tpe_protos_g.Socks5.Types.{AuthSt, Context}
use tpe_protos_g.Users.{Users, users_check}

abbrev pub with_auth : AuthSt → Context → Context
with_auth a c = on_session (λ s. record s { auth = a }) c

unfoldable pub auth_read_init : ℕ → Context → Option Context
auth_read_init state c =
    some (with_auth (record { parser = auth_parser_init c.session.auth.parser; status = 0x01 }) c)

-- `g_users == NULL || users_check(g_users, uname, passwd)`
abbrev pub accepts : Option Users → AuthParser → Bool
accepts none p = true
accepts (some u) p = users_check u (c_string p.uname) (c_string p.passwd)

abbrev pub count_metric : (Metrics → Metrics) → Context → Context
count_metric f c =
    on_world (λ w. record w { metrics = elim w.metrics [ none ↦ none | some m ↦ some (f m) ] }) c

-- the two branches: a user who is known, and one who is counted as a failure
abbrev pub admit : Context → Context
admit c =
    let a = c.session.auth in
    on_session (λ s. record s { authenticated_user = take 255 (c_string a.parser.uname) })
      (with_auth (record a { status = 0x00 }) c)

abbrev pub refuse : Context → Context
refuse c = count_metric metrics_auth_fail (with_auth (record c.session.auth { status = 0x01 }) c)

unfoldable pub auth_process : Context → Option (ℕ × Context)
auth_process c =
    let c' = if accepts c.world.users c.session.auth.parser then admit c else refuse c in
    marshalled (auth_marshall c'.session.write_buffer c'.session.auth.status) c'
      (λ c''. some (States.auth_write, c''))

-- auth_read, behind the call of recv
unfoldable pub auth_parse : Context → Option (ℕ × Context)
auth_parse c = auth_consume c.session.read_buffer c.session.auth.parser false >>= λ r.
    let c' = with_read_buffer r.0 (with_auth (record c.session.auth { parser = r.1.0 }) c) in
    if r.1.1
    then some (States.error, c')
    else if (auth_is_done r.1.0.state none).0
    then or_error (set_interest_key op_write c') auth_process
    else some (States.auth_read, c')

unfoldable pub auth_read : Context → Option (ℕ × Context)
auth_read c = with_input States.auth_read auth_parse c

-- auth_write, when all is sent
unfoldable pub auth_sent : Context → Option (ℕ × Context)
auth_sent c =
    or_error (set_interest_key op_read c)
      (λ c'. some (if c'.session.auth.status == 0x00 then States.request_read else States.done, c'))

unfoldable pub auth_write : Context → Option (ℕ × Context)
auth_write c = with_output States.auth_write auth_sent c

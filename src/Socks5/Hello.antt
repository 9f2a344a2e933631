-- ===== src/Socks5/Hello.antt =====
-- The greeting of a session (src/shared/socks5.c): HELLO_READ and HELLO_WRITE.
use tpe_protos_g.Base.{
  ℕ, Bool, true, false, not, ◌&&◌, Option, none, some, ltb, ◌==◌, if◌then◌else◌, ◌>>=◌,
}
use tpe_protos_g.Parsers.Hello.{
  HelloParser, hello_parser_init, hello_consume, hello_is_done, hello_marshall,
}
use tpe_protos_g.Selector.{op_read, op_write}
use tpe_protos_g.Socks5.States
use tpe_protos_g.Socks5.System.{
  on_session, with_read_buffer, set_interest_key, or_error, marshalled, with_input, with_output,
}
use tpe_protos_g.Socks5.Types.{Offered, HelloSt, Context}
use tpe_protos_g.Users.{Users, users_count}

abbrev pub no_authentication_required : ℕ
no_authentication_required = 0x00

abbrev pub username_password : ℕ
username_password = 0x02

abbrev pub no_acceptable_methods : ℕ
no_acceptable_methods = 0xff

unfoldable pub on_hello_method : Offered → ℕ → Offered
on_hello_method offered method =
    if method == no_authentication_required
    then record offered { no_auth_offered = true }
    else if method == username_password
    then record offered { user_pass_offered = true }
    else offered

abbrev pub with_hello : HelloSt → Context → Context
with_hello h c = on_session (λ s. record s { hello = h }) c

unfoldable pub hello_read_init : ℕ → Context → Option Context
hello_read_init state c =
    let parser : HelloParser Offered = record c.session.hello.parser {
      user_data = record { no_auth_offered = false; user_pass_offered = false };
      on_authentication_method = some on_hello_method;
    } in
    some
      (with_hello (record { parser = hello_parser_init parser; method = no_acceptable_methods }) c)

-- `g_users != NULL && users_count(g_users) > 0`
abbrev pub auth_required : Option Users → Bool
auth_required none = false
auth_required (some u) = ltb 0 (users_count u)

unfoldable pub choose_method : Bool → Offered → ℕ
choose_method required offered =
    if required && offered.user_pass_offered
    then username_password
    else if not required && offered.no_auth_offered
    then no_authentication_required
    else no_acceptable_methods

unfoldable pub hello_process : Context → Option (ℕ × Context)
hello_process c =
    let h = c.session.hello in
    let method = choose_method (auth_required c.world.users) h.parser.user_data in
    let c' = with_hello (record h { method = method }) c in
    marshalled (hello_marshall c'.session.write_buffer method) c'
      (λ c''. some (States.hello_write, c''))

-- hello_read, behind the call of recv
unfoldable pub hello_parse : Context → Option (ℕ × Context)
hello_parse c = hello_consume c.session.read_buffer c.session.hello.parser false >>= λ r.
    let c' = with_read_buffer r.0 (with_hello (record c.session.hello { parser = r.1.0 }) c) in
    if r.1.1
    then some (States.error, c')
    else if (hello_is_done r.1.0.state none).0
    then or_error (set_interest_key op_write c') hello_process
    else some (States.hello_read, c')

unfoldable pub hello_read : Context → Option (ℕ × Context)
hello_read c = with_input States.hello_read hello_parse c

-- hello_write, when all is sent
unfoldable pub hello_sent : Context → Option (ℕ × Context)
hello_sent c =
    let method = c.session.hello.method in
    if method == no_acceptable_methods
    then some (States.done, c)
    else or_error (set_interest_key op_read c) (λ c'.
      some (if method == username_password then States.auth_read else States.request_read, c'))

unfoldable pub hello_write : Context → Option (ℕ × Context)
hello_write c = with_output States.hello_write hello_sent c

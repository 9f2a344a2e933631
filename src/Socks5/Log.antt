-- ===== src/Socks5/Log.antt =====
-- The access log of a session, and what it notes for it (src/shared/socks5.c).
use tpe_protos_g.Access.{Line, access_log_open, access_log_close, access_log_fail}
use tpe_protos_g.Base.{
  ℕ, Bool, true, false, not, ◌||◌, Option, none, some, [], ◌∷◌, ◌++◌, ◌==◌, if◌then◌else◌, Bytes,
  codes, c_string, take,
}
use tpe_protos_g.Parsers.Request.{
  Socks5Request, socks_atyp_ipv4, socks_atyp_fqdn, socks_atyp_ipv6, max_fqdn_len,
}
use tpe_protos_g.Socks5.System.{on_session, on_world}
use tpe_protos_g.Socks5.Types.{Session, World, System, Context}

-- NULL for the empty string
abbrev named : Bytes → Option Bytes
named [] = none
named (c ∷ cs) = some (c ∷ cs)

abbrev pub socks5_log_user : Session → Option Bytes
socks5_log_user s = named s.authenticated_user

abbrev pub written : Line → World → World
written line w = record w {
  access_log = elim w.access_log [ none ↦ none | some lines ↦ some (lines ++ line ∷ []) ];
}

abbrev pub has_log : World → Bool
has_log w = elim w.access_log [ none ↦ false | some lines ↦ true ]

abbrev pub last_line : Session → Line
last_line s =
    if s.tunnel_opened
    then access_log_close (socks5_log_user s) s.destination s.destination_port
        s.client_copy.transferred s.orig_copy.transferred
    else access_log_fail (socks5_log_user s) s.destination s.destination_port s.failure_reason

unfoldable pub socks5_log_event : Context → Context
socks5_log_event c =
    let s = c.session in
    if not (has_log c.world) || s.log_emitted || not s.destination_set
    then c
    else on_session (λ s'. record s' { log_emitted = true }) (on_world (written (last_line s)) c)

unfoldable pub socks5_log_open : Context → Context
socks5_log_open c =
    let s = c.session in
    if not (has_log c.world) || not s.destination_set || s.tunnel_opened
    then c
    else on_session (λ s'. record s' { tunnel_opened = true })
        (on_world (written (access_log_open (socks5_log_user s) s.destination s.destination_port))
          c)

-- The first reason stays.
abbrev first_reason : Option Bytes → Bytes → Option Bytes
first_reason none reason = some reason
first_reason (some old) reason = some old

abbrev pub socks5_set_failure : Bytes → Context → Context
socks5_set_failure reason c =
    on_session (λ s. record s { failure_reason = first_reason s.failure_reason reason }) c

-- the text that is stored, NULL being `none`
abbrev pub stored : System → Socks5Request → Option Bytes
stored y request =
    let type = request.dest_addr.type in
    if type == socks_atyp_fqdn
    then some (take max_fqdn_len (c_string request.dest_addr.bytes))
    else if type == socks_atyp_ipv4
    then y.inet_ntop type (take 4 request.dest_addr.bytes)
    else if type == socks_atyp_ipv6
    then y.inet_ntop type (take 16 request.dest_addr.bytes)
    else none

abbrev store : Option Bytes → ℕ → Context → Bool × Context
store none port c = (false, socks5_set_failure (codes "invalid destination") c)
store (some text) port c = (
  true,
  on_session (λ s. record s { destination = text; destination_port = port; destination_set = true })
      c,
)

unfoldable pub socks5_store_destination : Socks5Request → Context → Bool × Context
socks5_store_destination request c = store (stored c.system request) request.dest_port c

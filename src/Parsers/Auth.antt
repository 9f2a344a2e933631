-- ===== src/Parsers/Auth.antt =====
-- src/shared/auth.c and auth.h: the parser of the user name and password (RFC 1929), and the reply.
--
-- `uname` and `passwd` are the arrays of 256 bytes; what they hold as C strings is `c_string`. The
-- out parameter `*error` is the pair's second part.
mod Arrays
pub mod Wire
use tpe_protos_g.Base.{
  ℕ, ◌+◌, ◌-◌, Bool, true, false, Option, none, some, ltb, ◌==◌, not, if◌then◌else◌, ◌>>=◌, ◌>>◌, ℤ,
  pos, negsuc, Bytes, pred8, set,
}
use tpe_protos_g.Buffer.{Buffer, buffer_write_ptr, buffer_write_adv}
use tpe_protos_g.Parsers.Consume.{consume}

abbrev pub auth_version : ℕ
auth_version = 0x01

pub data AuthState : Type 0 where
  ver ulen uname plen passwd done error : AuthState

pub record AuthParser : Type 0 where
  pub state : AuthState
  pub remaining : ℕ
  pub ulen : ℕ
  pub plen : ℕ
  pub uname : Bytes
  pub passwd : Bytes

abbrev pub auth_parser_init : AuthParser → AuthParser
auth_parser_init p = record p { state = AuthState.ver; remaining = 0; ulen = 0; plen = 0 }

-- the `switch` of the loop
unfoldable pub step_in : AuthState → AuthParser × Bool → ℕ → AuthParser × Bool
step_in AuthState.ver (p, failed) byte =
    if not (byte == auth_version)
    then (record p { state = AuthState.error }, true)
    else (record p { state = AuthState.ulen }, failed)
step_in AuthState.ulen (p, failed) byte =
    if byte == 0
    then (record p { state = AuthState.error }, true)
    else (record p { ulen = byte; remaining = byte; state = AuthState.uname }, failed)
step_in AuthState.uname (p, failed) byte =
    let p' = record p {
      uname = set p.uname (p.ulen - p.remaining) byte;
      remaining = pred8 p.remaining;
    } in
    (
      if p'.remaining == 0
          then record p' { uname = set p'.uname p'.ulen 0; state = AuthState.plen }
          else p',
      failed,
    )
step_in AuthState.plen (p, failed) byte =
    if byte == 0
    then (record p { state = AuthState.error }, true)
    else (record p { plen = byte; remaining = byte; state = AuthState.passwd }, failed)
step_in AuthState.passwd (p, failed) byte =
    let p' = record p {
      passwd = set p.passwd (p.plen - p.remaining) byte;
      remaining = pred8 p.remaining;
    } in
    (
      if p'.remaining == 0
          then record p' { passwd = set p'.passwd p'.plen 0; state = AuthState.done }
          else p',
      failed,
    )
step_in AuthState.done r byte = r
step_in AuthState.error r byte = r

abbrev pub auth_step : AuthParser × Bool → ℕ → AuthParser × Bool
auth_step r byte = step_in r.0.state r byte

abbrev pub final_state : AuthState → Bool
final_state AuthState.done = true
final_state AuthState.error = true
final_state _ = false

abbrev pub auth_final : AuthParser × Bool → Bool
auth_final r = final_state r.0.state

unfoldable pub auth_consume : Buffer → AuthParser → Bool → Option (Buffer × (AuthParser × Bool))
auth_consume b p failed = consume auth_step auth_final b (p, failed)

-- the result, and what is left in `*error` if that is not NULL
unfoldable pub auth_is_done : AuthState → Option Bool → Bool × Option Bool
auth_is_done AuthState.error none = (true, none)
auth_is_done AuthState.error (some _) = (true, some true)
auth_is_done AuthState.done failed = (true, failed)
auth_is_done _ failed = (false, failed)

-- The result and the buffer; -1 is `negsuc 0`.
unfoldable pub auth_marshall : Buffer → ℕ → Option (ℤ × Buffer)
auth_marshall b status = buffer_write_ptr b >>= λ w.
    if ltb w.1 2
    then some (negsuc 0, b)
    else let st = set (set b.store w.0 auth_version) (w.0 + 1) status in
      buffer_write_adv (record b { store = st }) (pos 2) >>= λ b'. some (pos 0, b')

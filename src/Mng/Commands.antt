-- ===== src/Mng/Commands.antt =====
-- The commands of the management protocol (src/server/mng.c).
--
-- Each handler queues one response at the end of each branch; here it returns the text that it gives
-- to queue_response. The globals are the World, NULL being `none`.
use tpe_protos_g.Base.{
  ℕ, zero, suc, ◌+◌, ◌%◌, ◌^◌, Bool, true, Option, none, some, [], ◌∷◌, ◌++◌, leb, ◌==◌,
  if◌then◌else◌, pos, Bytes, codes, str_eq, c_string, length,
}
use tpe_protos_g.Config.{Config, config_set_key}
use tpe_protos_g.Metrics.{Metrics, metrics_snapshot}
use tpe_protos_g.Mng.Text.{next_token, trim_right, parse_nonnegative, decimal, decimal_int, line_of}
use tpe_protos_g.Users.{Users, users_add, users_del, users_get_name}

pub record World : Type 0 where
  pub admin_secret : Option Bytes
  pub users : Option Users
  pub metrics : Option Metrics
  pub config : Option Config
  pub active_sessions : ℕ

-- the part of `struct mng_session` that says what a client may do
pub record Rights : Type 0 where
  pub authenticated : Bool
  pub locked : Bool
  pub closing : Bool
  pub auth_failures : ℕ

abbrev pub max_auth_failures : ℕ
max_auth_failures = 3

abbrev pub mng_write_size : ℕ
mng_write_size = 4096

-- `auth_failures` is an unsigned of 32 bits.
unfoldable pub wrong_secret : Rights → Rights × Bytes
wrong_secret a =
    let n = (a.auth_failures + 1) % 2 ^ 32 in
    if leb max_auth_failures n
    then (record a { auth_failures = n; locked = true; closing = true }, line_of "-ERR locked")
    else (record a { auth_failures = n }, line_of "-ERR invalid credentials")

abbrev pub check_secret : Option Bytes → Rights → Bytes → Rights × Bytes
check_secret none a secret = (a, line_of "-ERR auth required")
check_secret (some []) a secret = (a, line_of "-ERR auth required")
check_secret (some (c ∷ s)) a secret =
    if str_eq secret (c ∷ s)
    then (record a { authenticated = true; auth_failures = 0 }, line_of "+OK authenticated")
    else wrong_secret a

abbrev pub auth_with : Option Bytes → Rights → Option Bytes → Option Bytes → Rights × Bytes
auth_with admin a none extra = (a, line_of "-ERR usage AUTH <secret>")
auth_with admin a (some secret) (some extra) = (a, line_of "-ERR usage AUTH <secret>")
auth_with admin a (some secret) none = check_secret admin a secret

unfoldable pub handle_auth : World → Rights → Bytes → Rights × Bytes
handle_auth w a cursor =
    let t = next_token cursor in auth_with w.admin_secret a t.0 (next_token t.1).0

abbrev counter : Bytes → ℕ → Bytes
counter name n = name ++ decimal n

unfoldable pub handle_stats : World → Bytes
handle_stats w = elim w.metrics [
  | none ↦ line_of "-ERR metrics unavailable"
  | some m ↦
      let s = metrics_snapshot m in
      counter (codes "+OK conn-accepted=") s.conn_accepted
      ++ counter (codes " conn-active=") s.conn_active
      ++ counter (codes " conn-rejected=") s.conn_rejected
      ++ counter (codes " auth-fail=") s.auth_fail
      ++ counter (codes " origin-ok=") s.origin_ok
      ++ counter (codes " origin-fail=") s.origin_fail
      ++ counter (codes " bytes-c2o=") s.bytes_c2o
      ++ counter (codes " bytes-o2c=") s.bytes_o2c
      ++ counter (codes " admin-sessions=") s.admin_sessions
      ++ 10 ∷ []
]

abbrev pub name_at : Users → ℕ → Bytes
name_at u i = elim (users_get_name u i) [ none ↦ [] | some name ↦ name ]

-- the `for` loop over the names from index `i`, behind what is written; `none` if it gets too large
unfoldable pub list_names : Users → ℕ → ℕ → Bytes → Option Bytes
list_names u zero i out = some out
list_names u (suc rounds) i out =
    let out' = out ++ (if i == 0 then [] else codes ",") ++ name_at u i in
    let rest = list_names u rounds (i + 1) out' in
    if leb mng_write_size (length out') then none else rest

abbrev pub users_line : Option Bytes → Bytes
users_line none = line_of "-ERR response too large"
users_line (some out) =
    if leb mng_write_size (length out + 1)
    then line_of "-ERR response too large"
    else out ++ 10 ∷ []

unfoldable pub handle_users : World → Bytes
handle_users w = elim w.users [
  | none ↦ line_of "-ERR users unavailable"
  | some u ↦
      if u.count == 0
      then line_of "+OK users=-"
      else users_line (list_names u u.count 0 (codes "+OK users="))
]

abbrev pub with_users : World → Users → World
with_users w u = record w { users = some u }

abbrev pub user_set : World → Users → Option Bytes → Option Bytes → Option Bytes → World × Bytes
user_set w u (some name) (some pass) none =
    let r = users_add u name pass in
    (with_users w r.1, if r.0 then line_of "+OK user set" else line_of "-ERR user limit reached")
user_set w u _ _ _ = (w, line_of "-ERR usage USER SET <name> <pass>")

abbrev pub user_delete : World → Users → Option Bytes → Option Bytes → World × Bytes
user_delete w u (some name) none =
    let r = users_del u name in
    (with_users w r.1, if r.0 then line_of "+OK user deleted" else line_of "-ERR user not found")
user_delete w u _ _ = (w, line_of "-ERR usage USER DELETE <name>")

abbrev pub user_action : World → Users → Bytes → Bytes → World × Bytes
user_action w u action cursor =
    let t = next_token cursor in
    let t' = next_token t.1 in
    let t'' = next_token t'.1 in
    if str_eq action (codes "SET")
    then user_set w u t.0 t'.0 t''.0
    else if str_eq action (codes "DELETE")
    then user_delete w u t.0 t'.0
    else (w, line_of "-ERR unknown USER command")

unfoldable pub handle_user : World → Bytes → World × Bytes
handle_user w cursor =
    let t = next_token cursor in
    elim w.users [
      | none ↦ (w, line_of "-ERR users unavailable")
      | some u ↦ elim t.0 [
        | none ↦ (w, line_of "-ERR usage USER SET <name> <pass> | USER DELETE <name>")
        | some action ↦ user_action w u action t.1
      ]
    ]

unfoldable pub handle_config_get : World → Bytes
handle_config_get w = elim w.config [
  | none ↦ line_of "-ERR config unavailable"
  | some c ↦
      codes "+OK negotiation-timeout="
      ++ decimal_int c.negotiation_timeout
      ++ codes " connect-timeout="
      ++ decimal_int c.connect_timeout
      ++ codes " idle-timeout="
      ++ decimal_int c.idle_timeout
      ++ codes " max-connections="
      ++ decimal_int c.max_connections
      ++ 10 ∷ []
]

abbrev pub config_set : World → Config → Option Bytes → Option Bytes → Option Bytes → World × Bytes
config_set w c (some name) (some raw) none = elim (parse_nonnegative (some raw)) [
  | none ↦ (w, line_of "-ERR invalid value")
  | some value ↦
      let r = config_set_key c (some name) (pos value) in
      (
        record w { config = some r.1 },
        if r.0 then line_of "+OK config set" else line_of "-ERR unknown config key",
      )
]
config_set w c _ _ _ = (w, line_of "-ERR usage CONFIG SET <key> <value>")

abbrev pub config_get : World → Option Bytes → World × Bytes
config_get w none = (w, handle_config_get w)
config_get w (some extra) = (w, line_of "-ERR usage CONFIG GET")

abbrev pub config_action : World → Config → Bytes → Bytes → World × Bytes
config_action w c action cursor =
    let t = next_token cursor in
    let t' = next_token t.1 in
    let t'' = next_token t'.1 in
    if str_eq action (codes "GET")
    then config_get w t.0
    else if str_eq action (codes "SET")
    then config_set w c t.0 t'.0 t''.0
    else (w, line_of "-ERR unknown CONFIG command")

unfoldable pub handle_config : World → Bytes → World × Bytes
handle_config w cursor =
    let t = next_token cursor in
    elim w.config [
      | none ↦ (w, line_of "-ERR config unavailable")
      | some c ↦ elim t.0 [
        | none ↦ (w, line_of "-ERR usage CONFIG GET | CONFIG SET <key> <value>")
        | some action ↦ config_action w c action t.1
      ]
    ]

-- What require_auth answers, if it does not let the command pass.
unfoldable pub require_auth : Rights → Option Bytes
require_auth a =
    if a.locked
    then some (line_of "-ERR locked")
    else if a.authenticated
    then none
    else some (line_of "-ERR auth required")

-- the commands behind require_auth
unfoldable pub run_command : World → Bytes → Bytes → World × Bytes
run_command w cmd cursor =
    if str_eq cmd (codes "STATS")
    then (w, handle_stats w)
    else if str_eq cmd (codes "USERS")
    then (w, handle_users w)
    else if str_eq cmd (codes "USER")
    then handle_user w cursor
    else if str_eq cmd (codes "CONFIG")
    then handle_config w cursor
    else (w, line_of "-ERR unknown command")

abbrev pub quit_with : Rights → Option Bytes → Rights × Bytes
quit_with a none = (record a { closing = true }, line_of "+OK bye")
quit_with a (some extra) = (a, line_of "-ERR usage QUIT")

unfoldable pub command : World → Rights → Bytes → Bytes → World × (Rights × Bytes)
command w a cmd cursor =
    if str_eq cmd (codes "AUTH")
    then (w, handle_auth w a cursor)
    else if str_eq cmd (codes "QUIT")
    then (w, quit_with a (next_token cursor).0)
    else elim (require_auth a) [
      | some refusal ↦ (w, (a, refusal))
      | none ↦ let r = run_command w cmd cursor in (r.0, (a, r.1))
    ]

-- The line is the C string in the array.
unfoldable pub handle_line : World → Rights → Bytes → World × (Rights × Bytes)
handle_line w a line =
    let t = next_token (trim_right (c_string line)) in
    elim t.0 [ none ↦ (w, (a, line_of "-ERR empty command")) | some cmd ↦ command w a cmd t.1 ]

-- ===== src/Config.antt =====
-- src/shared/config.c and config.h: the parameters that can change while the server runs.
--
-- A pointer that may be NULL is an `Option`. A getter returns its result and what `value` points to.
pub mod Laws
use tpe_protos_g.Base.{
  ℕ, Bool, true, false, Option, none, some, if◌then◌else◌, ℤ, pos, negsuc, Bytes, codes, str_eq,
}

pub record Config : Type 0 where
  pub negotiation_timeout : ℤ
  pub connect_timeout : ℤ
  pub idle_timeout : ℤ
  pub max_connections : ℤ

abbrev pub config_init : Config
config_init = record {
  negotiation_timeout = pos 0;
  connect_timeout = pos 0;
  idle_timeout = pos 0;
  max_connections = pos 0;
}

abbrev pub config_set_defaults : Config → ℤ → ℤ → ℤ → ℤ → Config
config_set_defaults c negotiation connect idle connections = record {
  negotiation_timeout = negotiation;
  connect_timeout = connect;
  idle_timeout = idle;
  max_connections = connections;
}

-- the chain of `strcmp`, for a value that is not negative
unfoldable pub set_known : Config → Bytes → ℤ → Bool × Config
set_known c key value =
    if str_eq key (codes "negotiation-timeout")
    then (true, record c { negotiation_timeout = value })
    else if str_eq key (codes "connect-timeout")
    then (true, record c { connect_timeout = value })
    else if str_eq key (codes "idle-timeout")
    then (true, record c { idle_timeout = value })
    else if str_eq key (codes "max-connections")
    then (true, record c { max_connections = value })
    else (false, c)

unfoldable pub config_set_key : Config → Option Bytes → ℤ → Bool × Config
config_set_key c key (negsuc _) = (false, c)
config_set_key c none (pos _) = (false, c)
config_set_key c (some key) (pos n) = set_known c key (pos n)

unfoldable pub get_known : Config → Bytes → ℤ → Bool × Option ℤ
get_known c key value =
    if str_eq key (codes "negotiation-timeout")
    then (true, some c.negotiation_timeout)
    else if str_eq key (codes "connect-timeout")
    then (true, some c.connect_timeout)
    else if str_eq key (codes "idle-timeout")
    then (true, some c.idle_timeout)
    else if str_eq key (codes "max-connections")
    then (true, some c.max_connections)
    else (false, some value)

unfoldable pub config_get_key : Option Config → Option Bytes → Option ℤ → Bool × Option ℤ
config_get_key none key value = (false, value)
config_get_key (some c) none value = (false, value)
config_get_key (some c) (some key) none = (false, none)
config_get_key (some c) (some key) (some value) = get_known c key value

-- What `ignored` holds is not read.
unfoldable pub config_is_key : Option Bytes → Bool
config_is_key key = (config_get_key (some config_init) key (some (pos 0))).0

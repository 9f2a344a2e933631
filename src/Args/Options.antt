-- ===== src/Args/Options.antt =====
-- The loop of parse_args (src/shared/args.c) over what getopt_long returns. `none` is `exit`.
use tpe_protos_g.Args.{port, nonneg_int, user}
use tpe_protos_g.Args.Ranges.{port-Every, nonneg_int-Every}
use tpe_protos_g.Base.{
  Every, bind-Every, ℕ, ◌≤◌, ◌<◌, ◌^◌, Bool, Option, none, some, List, [], ◌∷◌, ◌++◌, leb,
  if◌then◌else◌, Bytes, codes, length, length-append, Bool-cases, inl, inr, arith, true, false,
  ◌>>=◌,
}

-- A character that getopt_long returns, with optarg where the option has one; `unknown` is any other.
pub data Opt : Type 0 where
  opt_h opt_v unknown : Opt
  opt_l opt_L opt_p opt_P opt_u opt_a opt_m opt_t opt_c opt_i opt_o : Bytes → Opt

-- NULL is `none`; the users are those that were given.
pub record Args : Type 0 where
  pub socks_addr : Bytes
  pub socks_port : ℕ
  pub mng_addr : Bytes
  pub mng_port : ℕ
  pub admin_secret : Option Bytes
  pub max_connections : ℕ
  pub negotiation_timeout : ℕ
  pub connect_timeout : ℕ
  pub idle_timeout : ℕ
  pub access_log : Option Bytes
  pub users : List (Bytes × Bytes)

abbrev pub defaults : Args
defaults = record {
  socks_addr = codes "0.0.0.0";
  socks_port = 1080;
  mng_addr = codes "127.0.0.1";
  mng_port = 8080;
  admin_secret = none;
  max_connections = 0;
  negotiation_timeout = 0;
  connect_timeout = 0;
  idle_timeout = 0;
  access_log = none;
  users = [];
}

-- the case 'u', with MAX_USERS = 10
abbrev add_user : Args → Option (Bytes × Bytes) → Option Args
add_user a parsed =
    if leb 10 (length a.users)
    then none
    else parsed >>= λ u. some (record a { users = a.users ++ u ∷ [] })

unfoldable pub set_option : Opt → Args → Option Args
set_option opt_h a = none
set_option opt_v a = none
set_option unknown a = none
set_option (opt_l s) a = some (record a { socks_addr = s })
set_option (opt_L s) a = some (record a { mng_addr = s })
set_option (opt_p s) a = port s >>= λ n. some (record a { socks_port = n })
set_option (opt_P s) a = port s >>= λ n. some (record a { mng_port = n })
set_option (opt_u s) a = add_user a (user s)
set_option (opt_a s) a = some (record a { admin_secret = some s })
set_option (opt_m s) a = nonneg_int s >>= λ n. some (record a { max_connections = n })
set_option (opt_t s) a = nonneg_int s >>= λ n. some (record a { negotiation_timeout = n })
set_option (opt_c s) a = nonneg_int s >>= λ n. some (record a { connect_timeout = n })
set_option (opt_i s) a = nonneg_int s >>= λ n. some (record a { idle_timeout = n })
set_option (opt_o s) a = some (record a { access_log = some s })

unfoldable pub set_options : List Opt → Args → Option Args
set_options [] a = some a
set_options (o ∷ os) a = set_option o a >>= set_options os

-- The options that getopt_long finds, and whether it leaves arguments (`optind < argc`).
unfoldable pub parse_args : List Opt → Bool → Option Args
parse_args os left = set_options os defaults >>= λ a. if left then none else some a

pub record IsValid (a : Args) : Type 0 where
  pub socks : a.socks_port ≤ 65535
  pub mng : a.mng_port ≤ 65535
  pub most : a.max_connections < 2 ^ 31
  pub negotiation : a.negotiation_timeout < 2 ^ 31
  pub connect : a.connect_timeout < 2 ^ 31
  pub idle : a.idle_timeout < 2 ^ 31
  pub fit : length a.users ≤ 10

kept : (left : Bool) (a : Args) → IsValid a → Every IsValid (if left then none else some a)
kept true a v = tt
kept false a v = v

defaults-IsValid : IsValid defaults
defaults-IsValid = record {
  socks = omega arith;
  mng = omega arith;
  most = omega arith;
  negotiation = omega arith;
  connect = omega arith;
  idle = omega arith;
  fit = omega arith;
}

append_user :
    (a : Args) (parsed : Option (Bytes × Bytes))
    → IsValid a
    → length a.users < 10
    → Every IsValid (parsed >>= λ u. some (record a { users = a.users ++ u ∷ [] }))
append_user a none v room = tt
append_user a (some u) v room = record {
  socks = v.socks;
  mng = v.mng;
  most = v.most;
  negotiation = v.negotiation;
  connect = v.connect;
  idle = v.idle;
  fit = omega (arith, length-append a.users (u ∷ []));
}

add_user-IsValid :
    (a : Args) (parsed : Option (Bytes × Bytes)) → IsValid a → Every IsValid (add_user a parsed)
add_user-IsValid a parsed v = elim (Bool-cases (leb 10 (length a.users))) [
  | inl full ↦ rw full tt
  | inr room ↦ rw room (append_user a parsed v (ground (arith, room)))
]

set_option-IsValid : (o : Opt) (a : Args) → IsValid a → Every IsValid (set_option o a)
unfolding set_option
set_option-IsValid opt_h a v = tt
set_option-IsValid opt_v a v = tt
set_option-IsValid unknown a v = tt
set_option-IsValid (opt_l s) a v = record {
  socks = v.socks;
  mng = v.mng;
  most = v.most;
  negotiation = v.negotiation;
  connect = v.connect;
  idle = v.idle;
  fit = v.fit;
}
set_option-IsValid (opt_L s) a v = record {
  socks = v.socks;
  mng = v.mng;
  most = v.most;
  negotiation = v.negotiation;
  connect = v.connect;
  idle = v.idle;
  fit = v.fit;
}
set_option-IsValid (opt_p s) a v =
    bind-Every _ IsValid (port s) (λ n. some (record a { socks_port = n })) (port-Every s)
      (λ n h. record {
        socks = h;
        mng = v.mng;
        most = v.most;
        negotiation = v.negotiation;
        connect = v.connect;
        idle = v.idle;
        fit = v.fit;
      })
set_option-IsValid (opt_P s) a v =
    bind-Every _ IsValid (port s) (λ n. some (record a { mng_port = n })) (port-Every s)
      (λ n h. record {
        socks = v.socks;
        mng = h;
        most = v.most;
        negotiation = v.negotiation;
        connect = v.connect;
        idle = v.idle;
        fit = v.fit;
      })
set_option-IsValid (opt_u s) a v = add_user-IsValid a (user s) v
set_option-IsValid (opt_a s) a v = record {
  socks = v.socks;
  mng = v.mng;
  most = v.most;
  negotiation = v.negotiation;
  connect = v.connect;
  idle = v.idle;
  fit = v.fit;
}
set_option-IsValid (opt_m s) a v =
    bind-Every _ IsValid (nonneg_int s) (λ n. some (record a { max_connections = n }))
      (nonneg_int-Every s)
      (λ n h. record {
        socks = v.socks;
        mng = v.mng;
        most = omega arith;
        negotiation = v.negotiation;
        connect = v.connect;
        idle = v.idle;
        fit = v.fit;
      })
set_option-IsValid (opt_t s) a v =
    bind-Every _ IsValid (nonneg_int s) (λ n. some (record a { negotiation_timeout = n }))
      (nonneg_int-Every s)
      (λ n h. record {
        socks = v.socks;
        mng = v.mng;
        most = v.most;
        negotiation = omega arith;
        connect = v.connect;
        idle = v.idle;
        fit = v.fit;
      })
set_option-IsValid (opt_c s) a v =
    bind-Every _ IsValid (nonneg_int s) (λ n. some (record a { connect_timeout = n }))
      (nonneg_int-Every s)
      (λ n h. record {
        socks = v.socks;
        mng = v.mng;
        most = v.most;
        negotiation = v.negotiation;
        connect = omega arith;
        idle = v.idle;
        fit = v.fit;
      })
set_option-IsValid (opt_i s) a v =
    bind-Every _ IsValid (nonneg_int s) (λ n. some (record a { idle_timeout = n }))
      (nonneg_int-Every s)
      (λ n h. record {
        socks = v.socks;
        mng = v.mng;
        most = v.most;
        negotiation = v.negotiation;
        connect = v.connect;
        idle = omega arith;
        fit = v.fit;
      })
set_option-IsValid (opt_o s) a v = record {
  socks = v.socks;
  mng = v.mng;
  most = v.most;
  negotiation = v.negotiation;
  connect = v.connect;
  idle = v.idle;
  fit = v.fit;
}

set_options-IsValid : (os : List Opt) (a : Args) → IsValid a → Every IsValid (set_options os a)
unfolding set_options
set_options-IsValid [] a v = v
set_options-IsValid (o ∷ os) a v =
    bind-Every IsValid IsValid (set_option o a) (set_options os) (set_option-IsValid o a v)
      (set_options-IsValid os)

-- Whatever the options are, if the program goes on: both ports are at most 65535, the limit and the
-- three timeouts are below 2^31, and there are at most 10 users.
pub parse_args-IsValid : (os : List Opt) (left : Bool) → Every IsValid (parse_args os left)
unfolding parse_args
parse_args-IsValid os left =
    bind-Every IsValid IsValid (set_options os defaults) (λ a. if left then none else some a)
      (set_options-IsValid os defaults defaults-IsValid) (λ a v. kept left a v)

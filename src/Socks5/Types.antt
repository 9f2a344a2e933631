-- ===== src/Socks5/Types.antt =====
-- The session of src/shared/socks5.c, the globals of that file, and the system around them.
--
-- `rb` and `wb` of a state point at the two buffers of the session, and have no field of their own;
-- nor has `stm`, which the handlers of Socks5/Engine keep beside the session, nor have the links of
-- the session's lists. The members of the two unions are fields: the code reads none before it wrote
-- it. A pointer to a session is its client_fd. A descriptor is a number, or a ℤ where it may be -1; a string that may be NULL is an `Option`.
use tpe_protos_g.Base.{ℕ, Bool, Option, List, ℤ, Bytes}
use tpe_protos_g.Access.{Line}
use tpe_protos_g.Buffer.{Buffer}
use tpe_protos_g.Config.{Config}
use tpe_protos_g.Dns.{DnsWorker}
use tpe_protos_g.Metrics.{Metrics}
use tpe_protos_g.Mng.Session.{Received}
use tpe_protos_g.Netutils.{Errno, Sent}
use tpe_protos_g.Parsers.Auth.{AuthParser}
use tpe_protos_g.Parsers.Hello.{HelloParser}
use tpe_protos_g.Parsers.Request.{RequestParser}
use tpe_protos_g.Selector.{Selector, Allocator}
use tpe_protos_g.Users.{Users}

-- what the callback of the greeting sets
pub record Offered : Type 0 where
  pub no_auth_offered : Bool
  pub user_pass_offered : Bool

pub record HelloSt : Type 0 where
  pub parser : HelloParser Offered
  pub method : ℕ

pub record AuthSt : Type 0 where
  pub parser : AuthParser
  pub status : ℕ

pub record RequestSt : Type 0 where
  pub parser : RequestParser
  pub reply : ℕ

pub record Copy : Type 0 where
  pub read_fd : ℤ
  pub write_fd : ℤ
  pub eof : Bool
  pub write_closed : Bool
  pub transferred : ℕ

-- a socket address: its family by the code of SOCKS5, its bytes and its port
pub record Address : Type 0 where
  pub family : ℕ
  pub bytes : Bytes
  pub port : ℕ

-- `current` is what is left of the list of getaddrinfo.
pub record Connecting : Type 0 where
  pub current : List Address
  pub reply : ℕ

-- `released` rises when the session goes to the pool or is freed.
pub record Session : Type 0 where
  pub client_fd : ℕ
  pub origin_fd : ℤ
  pub origin_resolution : List Address
  pub read_buffer : Buffer
  pub write_buffer : Buffer
  pub hello : HelloSt
  pub auth : AuthSt
  pub request : RequestSt
  pub client_copy : Copy
  pub orig_copy : Copy
  pub conn : Connecting
  pub references : ℕ
  pub negotiation_deadline : ℕ
  pub connect_deadline : ℕ
  pub last_activity : ℕ
  pub authenticated_user : Bytes
  pub destination : Bytes
  pub destination_port : ℕ
  pub destination_set : Bool
  pub tunnel_opened : Bool
  pub log_emitted : Bool
  pub failure_reason : Option Bytes
  pub released : Bool

-- the globals of socks5.c that a session uses; the log is what was written to it
pub record World : Type 0 where
  pub users : Option Users
  pub metrics : Option Metrics
  pub config : Option Config
  pub dns_worker : Option DnsWorker
  pub access_log : Option (List Line)
  pub active_sessions : ℕ
  pub pool_size : ℕ

-- The handlers that the server registers; the second stands for those of other sockets.
pub data Handler : Type 0 where
  socks5_handler other_handler : Handler

-- What `socket` returns.
pub data Socket : Type 0 where
  opened : ℕ → Socket
  not_opened : Errno → Socket

-- What the system answers: each call is the `calls`-th of its kind or another. A call that returns no
-- value is `none` if it succeeds. `taken` and `given` are the bytes that recv and send have moved
-- from and to each descriptor, `ended` the descriptors that shutdown closed for writing, and
-- `dialled` the addresses that connect was called with, the latest first.
pub record System : Type 0 where
  pub calls : ℕ
  pub recv : ℕ → Received
  pub send : ℕ → Sent
  pub shutdown : ℕ → Option Errno
  pub socket : ℕ → Socket
  pub set_nio : ℕ → Option Errno
  pub connect : ℕ → Option Errno
  pub sock_error : ℕ → Option Errno
  pub time : ℕ → ℕ
  pub malloc : ℕ → Bool
  pub allocator : ℕ → Allocator Handler ℕ
  pub inet_ntop : ℕ → Bytes → Option Bytes
  pub taken : ℕ → Bytes
  pub given : ℕ → Bytes
  pub ended : List ℤ
  pub dialled : List Address

-- What a callback may change through its key: `fd` and the selector are the key's, and the session is
-- what its `data` points to.
pub record Context : Type 0 where
  pub fd : ℕ
  pub selector : Selector Handler ℕ
  pub session : Session
  pub world : World
  pub system : System

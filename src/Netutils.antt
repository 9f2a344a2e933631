-- ===== src/Netutils.antt =====
-- src/shared/netutils.c: the reply code for a failed connect, and the loop that writes a buffer out.
--
-- The names of errno are a type; what send returns is the argument of each round. The printing of
-- addresses and the copy between two sockets are not modelled.
pub mod Writing
use tpe_protos_g.Base.{
  ℕ, zero, suc, ◌+◌, ◌-◌, Bool, true, false, Option, none, some, List, [], ◌∷◌, ◌++◌, ltb,
  if◌then◌else◌, ◌>>=◌, pos, negsuc, ℤ, Bytes, length, take,
}
use tpe_protos_g.Buffer.{Buffer, buffer_read_ptr, buffer_read_adv, buffer_can_read}
use tpe_protos_g.Buffer.Slices.{slice}

-- The values of errno that the program looks at, and any other.
pub data Errno : Type 0 where
  econnrefused enetunreach ehostunreach etimedout : Errno
  eagain ewouldblock eintr einprogress enotconn epipe : Errno
  other_errno : ℕ → Errno

abbrev pub socks_reply_succeeded : ℕ
socks_reply_succeeded = 0x00

abbrev pub socks_reply_general_failure : ℕ
socks_reply_general_failure = 0x01

abbrev pub socks_reply_net_unreachable : ℕ
socks_reply_net_unreachable = 0x03

abbrev pub socks_reply_host_unreachable : ℕ
socks_reply_host_unreachable = 0x04

abbrev pub socks_reply_conn_refused : ℕ
socks_reply_conn_refused = 0x05

abbrev pub socks_reply_ttl_expired : ℕ
socks_reply_ttl_expired = 0x06

abbrev pub socks_reply_cmd_not_supported : ℕ
socks_reply_cmd_not_supported = 0x07

abbrev pub socks_reply_atyp_not_supported : ℕ
socks_reply_atyp_not_supported = 0x08

unfoldable pub errno_to_socks_reply : Errno → ℕ
errno_to_socks_reply econnrefused = socks_reply_conn_refused
errno_to_socks_reply enetunreach = socks_reply_net_unreachable
errno_to_socks_reply ehostunreach = socks_reply_host_unreachable
errno_to_socks_reply etimedout = socks_reply_ttl_expired
errno_to_socks_reply _ = socks_reply_general_failure

-- What one call of send does: it takes some bytes (at most those that are offered), or fails.
pub data Sent : Type 0 where
  took : ℕ → Sent
  failed : Errno → Sent

-- What a call of sock_blocking_write leaves: its result (`none` is 0), the buffer, and the bytes that
-- the peer has. `out_of_sends` is a run of which the calls of send are not all given.
pub data Written : Type 0 where
  returned : Option Errno → Buffer → Bytes → Written
  out_of_sends : Buffer → Bytes → Written
  aborted : Written

-- The do-while loop. A send that returns 0, as one of no bytes does, leaves errno as it was before the
-- call, and the loop ends with that: `errno`, of which `none` is 0 too.
unfoldable pub sock_blocking_write : List Sent → Option Errno → Buffer → Bytes → Written
sock_blocking_write [] errno b peer = out_of_sends b peer
sock_blocking_write (failed e ∷ sends) errno b peer = returned (some e) b peer
sock_blocking_write (took n ∷ sends) errno b peer =
    let got = take n (slice b.store b.read (b.write - b.read)) in
    elim (ltb 0 (length got)) [
      | false ↦ returned errno b peer
      | true ↦ elim (buffer_read_adv b (pos (length got))) [
        | none ↦ aborted
        | some b' ↦ elim (buffer_can_read b') [
          | true ↦ sock_blocking_write sends errno b' (peer ++ got)
          | false ↦ returned none b' (peer ++ got)
        ]
      ]
    ]

-- ===== src/Socks5/Copy.antt =====
-- The relay of a session (src/shared/socks5.c): COPY.
--
-- `&s->client.copy` and `&s->orig.copy` are the two sides: what comes from the client, in
-- `read_buffer`, and what comes from the origin, in `write_buffer`.
use tpe_protos_g.Base.{
  ℕ, ◌+◌, Bool, true, false, not, ◌&&◌, Option, none, some, ◌∷◌, ◌==◌, if◌then◌else◌, ◌>>=◌, ℤ, pos,
  negsuc, length,
}
use tpe_protos_g.Buffer.{
  Buffer, buffer_can_read, buffer_can_write, buffer_compact, buffer_write_ptr, buffer_read_ptr,
  buffer_write_adv, buffer_read_adv, blit,
}
use tpe_protos_g.Buffer.Slices.{slice}
use tpe_protos_g.Metrics.{add64, metrics_add_bytes_c2o, metrics_add_bytes_o2c}
use tpe_protos_g.Mng.Session.{Received, received, end_of_stream, recv_failed, try_again}
use tpe_protos_g.Netutils.{Errno, enotconn, epipe, Sent, took, failed}
use tpe_protos_g.Selector.{op_noop, op_read, op_write}
use tpe_protos_g.Socks5.Auth.{count_metric}
use tpe_protos_g.Socks5.Log.{socks5_log_open}
use tpe_protos_g.Socks5.States
use tpe_protos_g.Socks5.System.{on_session, with_system, tick, sys_recv, sys_send, set_interest}
use tpe_protos_g.Socks5.Types.{Copy, Session, System, Context}

pub data Side : Type 0 where
  from_client from_origin : Side

abbrev pub copy_of : Side → Session → Copy
copy_of from_client s = s.client_copy
copy_of from_origin s = s.orig_copy

abbrev pub with_copy : Side → Copy → Context → Context
with_copy from_client k c = on_session (λ s. record s { client_copy = k }) c
with_copy from_origin k c = on_session (λ s. record s { orig_copy = k }) c

-- `copy->rb`
abbrev pub rb_of : Side → Session → Buffer
rb_of from_client s = s.read_buffer
rb_of from_origin s = s.write_buffer

abbrev pub with_rb : Side → Buffer → Context → Context
with_rb from_client b c = on_session (λ s. record s { read_buffer = b }) c
with_rb from_origin b c = on_session (λ s. record s { write_buffer = b }) c

abbrev pub copy_is_done : Session → Bool
copy_is_done s = s.client_copy.write_closed && s.orig_copy.write_closed

-- the errnos of shutdown that are no failure
abbrev pub is_gone : Errno → Bool
is_gone enotconn = true
is_gone epipe = true
is_gone _ = false

-- behind the call of shutdown; the flag tells whether the result is 0
abbrev pub closed_write : Option Errno → Side → Context → Bool × Context
closed_write none side c =
    (true, with_copy side (record (copy_of side c.session) { write_closed = true }) c)
closed_write (some e) side c =
    if is_gone e
    then (true, with_copy side (record (copy_of side c.session) { write_closed = true }) c)
    else (false, c)

abbrev pub ending : ℤ → System → System
ending fd y = record (tick y) { ended = fd ∷ y.ended }

unfoldable pub copy_shutdown_write : Side → Context → Bool × Context
copy_shutdown_write side c =
    let k = copy_of side c.session in
    if k.eof && not (buffer_can_read (rb_of side c.session)) && not k.write_closed
    then closed_write (c.system.shutdown c.system.calls) side
        (with_system (ending k.write_fd c.system) c)
    else (true, c)

-- `interest |= op`, for an operation that is not in it yet
abbrev pub or_op : Bool → ℕ → ℕ
or_op wanted op = if wanted then op else op_noop

-- what to ask of a socket that reads for `side` and that the side `back` writes to
abbrev pub interest_of : Side → Side → Session → ℕ
interest_of side back s =
    or_op (not (copy_of side s).eof && buffer_can_write (rb_of side s)) op_read
    + or_op (not (copy_of back s).write_closed && buffer_can_read (rb_of back s)) op_write

abbrev pub copy_client_interest : Session → ℕ
copy_client_interest s = interest_of from_client from_origin s

abbrev pub copy_origin_interest : Session → ℕ
copy_origin_interest s = interest_of from_origin from_client s

-- the flag tells whether the result is 0
unfoldable pub copy_update_interests : Context → Option (Bool × Context)
copy_update_interests c =
    set_interest (pos c.session.client_fd) (copy_client_interest c.session) c >>= λ r.
    if r.0
    then set_interest r.1.session.origin_fd (copy_origin_interest r.1.session) r.1
    else some (false, r.1)

-- `fd == other`, for one that may be -1
abbrev pub is_fd : ℕ → ℤ → Bool
is_fd fd (pos n) = fd == n
is_fd fd (negsuc n) = false

unfoldable pub copy_read_state : Session → ℕ → Option Side
copy_read_state s fd =
    if fd == s.client_fd
    then some from_client
    else if is_fd fd s.origin_fd
    then some from_origin
    else none

unfoldable pub copy_write_state : Session → ℕ → Option Side
copy_write_state s fd =
    if fd == s.client_fd
    then some from_origin
    else if is_fd fd s.origin_fd
    then some from_client
    else none

abbrev pub new_copy : ℤ → ℤ → Copy
new_copy from to = record {
  read_fd = from;
  write_fd = to;
  eof = false;
  write_closed = false;
  transferred = 0;
}

unfoldable pub copy_init : ℕ → Context → Option Context
copy_init state c =
    let c' =
      on_session
        (λ s. record s {
          client_copy = new_copy (pos s.client_fd) s.origin_fd;
          orig_copy = new_copy s.origin_fd (pos s.client_fd);
        })
        c in
    copy_update_interests (socks5_log_open c') >>= λ r. some r.1

-- `return copy_update_interests(key) == 0 ? COPY : ERROR;`
unfoldable pub go_on : Context → Option (ℕ × Context)
go_on c = copy_update_interests c >>= λ r. some (if r.0 then States.copy else States.error, r.1)

-- the end of copy_read and copy_write: shutdown, and done or not
abbrev pub finished : Bool × Context → Option (ℕ × Context)
finished r =
    if r.0
    then (if copy_is_done r.1.session then some (States.done, r.1) else go_on r.1)
    else some (States.error, r.1)

unfoldable pub finish : Side → Context → Option (ℕ × Context)
unfolding copy_shutdown_write
finish side c = finished (copy_shutdown_write side c)

-- behind the call of recv
unfoldable pub copy_received : Side → ℕ → Received → Context → Option (ℕ × Context)
copy_received side at (recv_failed e) c = if try_again e then go_on c else some (States.error, c)
copy_received side at end_of_stream c =
    finish side (with_copy side (record (copy_of side c.session) { eof = true }) c)
copy_received side at (received x xs) c =
    let b = rb_of side c.session in
    buffer_write_adv (record b { store = blit b.store at (x ∷ xs) }) (pos (length (x ∷ xs)))
    >>= λ b'. finish side (
        on_session (λ s. record s { last_activity = c.system.time c.system.calls })
          (with_system (tick c.system) (with_rb side b' c)))

unfoldable pub copy_recv : Side → Context → Option (ℕ × Context)
copy_recv side c = buffer_write_ptr (rb_of side c.session) >>= λ w.
    let r = sys_recv (copy_of side c.session).read_fd w.1 c.system in
    copy_received side w.0 r.0 (with_system r.1 c)

-- `if (!buffer_can_write(rb)) buffer_compact(rb);`
abbrev pub room_made : Buffer → Buffer
room_made b = if buffer_can_write b then b else buffer_compact b

unfoldable pub copy_read_side : Side → Context → Option (ℕ × Context)
copy_read_side side c =
    let b = room_made (rb_of side c.session) in
    let c' = with_rb side b c in if buffer_can_write b then copy_recv side c' else go_on c'

unfoldable pub copy_read : Context → Option (ℕ × Context)
copy_read c = elim (copy_read_state c.session c.fd) [
  | none ↦ some (States.error, c)
  | some side ↦ copy_read_side side c
]

abbrev pub count_bytes : Side → ℕ → Context → Context
count_bytes from_client n c = count_metric (λ m. metrics_add_bytes_c2o m n) c
count_bytes from_origin n c = count_metric (λ m. metrics_add_bytes_o2c m n) c

-- behind the call of send
unfoldable pub copy_sent : Side → Sent → Context → Option (ℕ × Context)
copy_sent side (failed e) c = if try_again e then go_on c else some (States.error, c)
copy_sent side (took n) c =
    if n == 0
    then go_on c
    else (buffer_read_adv (rb_of side c.session) (pos n) >>= λ b.
        let k = copy_of side c.session in
        finish side (
          count_bytes side n
            (with_copy side (record k { transferred = add64 k.transferred n }) (with_rb side b c))))

unfoldable pub copy_send : Side → Context → Option (ℕ × Context)
copy_send side c = buffer_read_ptr (rb_of side c.session) >>= λ p.
    let b = rb_of side c.session in
    let r = sys_send (copy_of side c.session).write_fd (slice b.store p.0 p.1) c.system in
    copy_sent side r.0 (with_system r.1 c)

unfoldable pub copy_write_side : Side → Context → Option (ℕ × Context)
copy_write_side side c =
    if buffer_can_read (rb_of side c.session) then copy_send side c else finish side c

unfoldable pub copy_write : Context → Option (ℕ × Context)
copy_write c = elim (copy_write_state c.session c.fd) [
  | none ↦ some (States.error, c)
  | some side ↦ copy_write_side side c
]

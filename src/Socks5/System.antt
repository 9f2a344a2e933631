-- ===== src/Socks5/System.antt =====
-- What the callbacks of src/shared/socks5.c have in common: the calls of the system, the buffers they
-- read into and write from, and the interests they set.
use tpe_protos_g.Base.{
  ℕ, ◌+◌, Bool, true, false, Option, some, [], ◌∷◌, ◌++◌, ◌==◌, if◌then◌else◌, ◌>>=◌, ℤ, pos,
  negsuc, Bytes, length, take,
}
use tpe_protos_g.Buffer.{
  Buffer, buffer_write_ptr, buffer_read_ptr, buffer_write_adv, buffer_read_adv, buffer_can_read,
  blit,
}
use tpe_protos_g.Buffer.Slices.{slice}
use tpe_protos_g.Mng.Session.{Received, received, end_of_stream, recv_failed, try_again}
use tpe_protos_g.Netutils.{Sent, took, failed, other_errno}
use tpe_protos_g.Selector.{is_success, selector_set_interest}
use tpe_protos_g.Socks5.States
use tpe_protos_g.Socks5.Types.{Session, World, System, Context}

-- EBADF, for a descriptor of -1
abbrev pub ebadf : ℕ
ebadf = 9

abbrev pub tick : System → System
tick y = record y { calls = y.calls + 1 }

-- `bytes` behind what is noted for descriptor `fd`
abbrev pub noted : ℕ → Bytes → (ℕ → Bytes) → ℕ → Bytes
noted fd bytes notes j = if fd == j then notes j ++ bytes else notes j

-- what recv can leave in `len` bytes
abbrev pub fitting : Bytes → Received
fitting [] = end_of_stream
fitting (c ∷ cs) = received c cs

abbrev pub clip : ℕ → Received → Received
clip len (received c cs) = fitting (take len (c ∷ cs))
clip len r = r

abbrev pub bytes_of : Received → Bytes
bytes_of (received c cs) = c ∷ cs
bytes_of _ = []

unfoldable pub sys_recv : ℤ → ℕ → System → Received × System
sys_recv (negsuc n) len y = (recv_failed (other_errno ebadf), tick y)
sys_recv (pos n) len y =
    let r = clip len (y.recv y.calls) in
    (r, record (tick y) { taken = noted n (bytes_of r) y.taken })

-- what send takes of `bytes`
abbrev pub taken_of : Bytes → Sent → Bytes
taken_of bytes (took n) = take n bytes
taken_of bytes (failed e) = []

abbrev pub outcome : Bytes → Sent → Sent
outcome bytes (took n) = took (length (take n bytes))
outcome bytes (failed e) = failed e

unfoldable pub sys_send : ℤ → Bytes → System → Sent × System
sys_send (negsuc n) bytes y = (failed (other_errno ebadf), tick y)
sys_send (pos n) bytes y =
    let r = y.send y.calls in
    (outcome bytes r, record (tick y) { given = noted n (taken_of bytes r) y.given })

-- A step into a buffer or out of it: nothing moved yet, the socket is of no use, or a new buffer.
pub data Moved : Type 0 where
  later broken : Moved
  moved : Buffer → Moved

-- behind the call of recv: what is written to the pointer of buffer_write_ptr
unfoldable pub store_received : Received → Buffer → ℕ → Option Moved
store_received (received c cs) b at =
    buffer_write_adv (record b { store = blit b.store at (c ∷ cs) }) (pos (length (c ∷ cs)))
    >>= λ b'. some (moved b')
store_received end_of_stream b at = some broken
store_received (recv_failed e) b at = some (if try_again e then later else broken)

unfoldable pub recv_into : ℕ → Buffer → System → Option (Moved × System)
recv_into fd b y = buffer_write_ptr b >>= λ w.
    let r = sys_recv (pos fd) w.1 y in store_received r.0 b w.0 >>= λ m. some (m, r.1)

-- behind the call of send
unfoldable pub drop_sent : Sent → Buffer → Option Moved
drop_sent (took n) b = buffer_read_adv b (pos n) >>= λ b'. some (moved b')
drop_sent (failed e) b = some (if try_again e then later else broken)

unfoldable pub send_from : ℕ → Buffer → System → Option (Moved × System)
send_from fd b y = buffer_read_ptr b >>= λ p.
    let r = sys_send (pos fd) (slice b.store p.0 p.1) y in drop_sent r.0 b >>= λ m. some (m, r.1)

abbrev pub on_session : (Session → Session) → Context → Context
on_session f c = record c { session = f c.session }

abbrev pub on_world : (World → World) → Context → Context
on_world f c = record c { world = f c.world }

abbrev pub with_system : System → Context → Context
with_system y c = record c { system = y }

abbrev pub with_read_buffer : Buffer → Context → Context
with_read_buffer b c = on_session (λ s. record s { read_buffer = b }) c

abbrev pub with_write_buffer : Buffer → Context → Context
with_write_buffer b c = on_session (λ s. record s { write_buffer = b }) c

-- whether it succeeds, and the selector that it leaves
unfoldable pub set_interest : ℤ → ℕ → Context → Option (Bool × Context)
set_interest fd interest c = selector_set_interest c.selector fd interest >>= λ r.
    some (is_success r.0, record c { selector = r.1 })

-- selector_set_interest_key
abbrev pub set_interest_key : ℕ → Context → Option (Bool × Context)
set_interest_key interest c = set_interest (pos c.fd) interest c

-- `if (... != SELECTOR_SUCCESS) return ERROR;` and what follows
abbrev pub or_error :
    Option (Bool × Context) → (Context → Option (ℕ × Context)) → Option (ℕ × Context)
or_error m k = m >>= λ r. if r.0 then k r.1 else some (States.error, r.1)

abbrev pub is_negative : ℤ → Bool
is_negative (pos n) = false
is_negative (negsuc n) = true

-- `if (..._marshall(wb, ...) < 0) return ERROR;` and what follows
abbrev pub marshalled :
    Option (ℤ × Buffer) → Context → (Context → Option (ℕ × Context)) → Option (ℕ × Context)
marshalled m c k = m >>= λ r.
    let c' = with_write_buffer r.1 c in if is_negative r.0 then some (States.error, c') else k c'

-- The first half of the three callbacks that read a message: bytes are taken from the socket if the
-- buffer has none, and `parse` goes on with them.
unfoldable pub with_input : ℕ → (Context → Option (ℕ × Context)) → Context → Option (ℕ × Context)
with_input state parse c =
    if buffer_can_read c.session.read_buffer
    then parse c
    else (recv_into c.fd c.session.read_buffer c.system >>= λ r. elim r.0 [
      | later ↦ some (state, with_system r.1 c)
      | broken ↦ some (States.error, with_system r.1 c)
      | moved b ↦ parse (with_read_buffer b (with_system r.1 c))
    ])

-- The three callbacks that write a reply: some of it is sent, and `next` follows when all is sent.
unfoldable pub with_output : ℕ → (Context → Option (ℕ × Context)) → Context → Option (ℕ × Context)
with_output state next c = send_from c.fd c.session.write_buffer c.system >>= λ r. elim r.0 [
  | later ↦ some (state, with_system r.1 c)
  | broken ↦ some (States.error, with_system r.1 c)
  | moved b ↦
      let c' = with_write_buffer b (with_system r.1 c) in
      if buffer_can_read b then some (state, c') else next c'
]

-- ===== src/Mng/Session.antt =====
-- A session of the management protocol (src/server/mng.c): its lines, its responses, its sockets.
--
-- `line` is what stands in the array of that name up to `line_len`, `pending` what stands in `in_buf`
-- from `in_pos` to `in_len`, and `out` what stands in the array up to `out_len`. `interest` is what
-- the session last asked of the selector, and `alive` falls when it unregisters itself.
use tpe_protos_g.Base.{
  ℕ, zero, suc, ◌+◌, ◌-◌, ◌%◌, ◌^◌, Bool, true, false, not, ◌&&◌, Option, none, some, List, [], ◌∷◌,
  ◌++◌, ltb, leb, ◌==◌, if◌then◌else◌, Bytes, length, take, drop,
}
use tpe_protos_g.Metrics.{Metrics, metrics_admin_session_open, metrics_admin_session_close}
use tpe_protos_g.Mng.Commands.{World, Rights, handle_line, mng_write_size}
use tpe_protos_g.Mng.Text.{line_of}
use tpe_protos_g.Netutils.{Errno, eagain, ewouldblock, eintr, Sent, took, failed}
use tpe_protos_g.Selector.{op_read, op_write}

abbrev pub mng_line_size : ℕ
mng_line_size = 1024

pub record MngSession : Type 0 where
  pub line : Bytes
  pub pending : Bytes
  pub out : Bytes
  pub out_sent : ℕ
  pub rights : Rights
  pub interest : ℕ
  pub alive : Bool

-- What recv returns: some bytes, 0 at the end of the stream, or a failure.
pub data Received : Type 0 where
  received : ℕ → Bytes → Received
  end_of_stream : Received
  recv_failed : Errno → Received

-- the errnos on which the session waits
abbrev pub try_again : Errno → Bool
try_again eagain = true
try_again ewouldblock = true
try_again eintr = true
try_again _ = false

unfoldable pub fitted : Bytes → Bytes
fitted text = if leb mng_write_size (length text) then line_of "-ERR response too large" else text

abbrev pub queue_response : MngSession → Bytes → MngSession
queue_response s text = record s { out = fitted text; out_sent = 0; interest = op_write }

-- one round of the loop of mng_process_input
unfoldable pub take_char : World → MngSession → ℕ → World × MngSession
take_char w s c =
    if c == 13
    then (w, s)
    else if c == 10
    then (let r = handle_line w s.rights s.line in
        (r.0, queue_response (record s { line = []; rights = r.1.0 }) r.1.1))
    else if leb mng_line_size (length s.line + 1)
    then (w, queue_response (record s { line = [] }) (line_of "-ERR line too long"))
    else (w, record s { line = s.line ++ c ∷ [] })

-- the loop over the bytes that are pending; it stops once a response is queued
unfoldable pub process : Bytes → World → MngSession → World × MngSession
process [] w s = (w, record s { pending = [] })
process (c ∷ cs) w s = elim s.out [
  | [] ↦ let r = take_char w s c in process cs r.0 r.1
  | x ∷ xs ↦ (w, record s { pending = c ∷ cs })
]

abbrev pub mng_process_input : World → MngSession → World × MngSession
mng_process_input w s = process s.pending w s

abbrev fewer : ℕ → ℕ
fewer n = if ltb 0 n then n - 1 else 0

abbrev session_closed : Option Metrics → Option Metrics
session_closed none = none
session_closed (some m) = some (metrics_admin_session_close m)

-- mng_close, as selector_unregister_fd calls it
unfoldable pub mng_close : World → MngSession → World × MngSession
mng_close w s = (
  record w { active_sessions = fewer w.active_sessions; metrics = session_closed w.metrics },
  record s { alive = false },
)

-- behind the call of recv
unfoldable pub mng_received : Received → World → MngSession → World × MngSession
mng_received (received c cs) w s = mng_process_input w (record s { pending = c ∷ cs })
mng_received end_of_stream w s = mng_close w s
mng_received (recv_failed e) w s = if try_again e then (w, s) else mng_close w s

unfoldable pub mng_read : Received → World → MngSession → World × MngSession
mng_read r w s = elim s.pending [ [] ↦ mng_received r w s | c ∷ cs ↦ mng_process_input w s ]

-- How the loop of mng_write ends, with how much is sent, and what the peer got in it.
pub data Sending : Type 0 where
  blocked : ℕ → Bytes → Sending
  broken : ℕ → Bytes → Sending
  stopped : ℕ → Bytes → Sending

abbrev pub also : Bytes → Sending → Sending
also got (blocked n more) = blocked n (got ++ more)
also got (broken n more) = broken n (got ++ more)
also got (stopped n more) = stopped n (got ++ more)

-- The loop, over what send returns; behind the list it returns EAGAIN. A send takes no more than it
-- is given.
unfoldable pub send_loop : List Sent → Bytes → ℕ → Sending
send_loop [] out sent = if ltb sent (length out) then blocked sent [] else stopped sent []
send_loop (x ∷ sends) out sent = if not (ltb sent (length out)) then stopped sent [] else elim x [
  | failed e ↦ if try_again e then blocked sent [] else broken sent []
  | took zero ↦ stopped sent []
  | took (suc n) ↦
      let got = take (suc n) (drop sent out) in also got (send_loop sends out (sent + length got))
]

-- behind a response: the interest in reading, if nothing else is queued
abbrev pub read_again : World × MngSession → World × MngSession
read_again r = (r.0, elim r.1.out [ [] ↦ record r.1 { interest = op_read } | x ∷ xs ↦ r.1 ])

-- what mng_write does once everything is sent
unfoldable pub response_sent : World → MngSession → World × MngSession
response_sent w s =
    let s' = record s { out = []; out_sent = 0 } in
    if s.rights.closing then mng_close w s' else read_again (mng_process_input w s')

-- what it does by how the loop ends
abbrev pub after_loop : World → MngSession → Sending → (World × MngSession) × Bytes
after_loop w s (blocked n got) = ((w, record s { out_sent = n }), got)
after_loop w s (broken n got) = (mng_close w (record s { out_sent = n }), got)
after_loop w s (stopped n got) = (
  if n == length s.out
      then response_sent w (record s { out_sent = n })
      else (w, record s { out_sent = n }),
  got,
)

-- The world, the session, and the bytes that the peer got.
unfoldable pub mng_write : List Sent → World → MngSession → (World × MngSession) × Bytes
mng_write sends w s = after_loop w s (send_loop sends s.out s.out_sent)

abbrev pub new_session : MngSession
new_session = record {
  line = [];
  pending = [];
  out = [];
  out_sent = 0;
  rights = record { authenticated = false; locked = false; closing = false; auth_failures = 0 };
  interest = op_read;
  alive = true;
}

abbrev session_opened : Option Metrics → Option Metrics
session_opened none = none
session_opened (some m) = some (metrics_admin_session_open m)

-- mng_passive_accept, by whether accept, selector_fd_set_nio, calloc and selector_register succeed
unfoldable pub mng_passive_accept : Bool → Bool → Bool → Bool → World → World × Option MngSession
mng_passive_accept accepted nio memory registered w =
    if accepted && nio && memory && registered
    then (
      record w {
        active_sessions = (w.active_sessions + 1) % 2 ^ 32;
        metrics = session_opened w.metrics;
      },
      some new_session,
    )
    else (w, none)

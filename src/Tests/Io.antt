-- ===== src/Tests/Io.antt =====
-- Buffers (src/shared/buffer.c) and the write loop (src/shared/netutils.c) on small inputs.
use tpe_protos_g.Base.{◌≡◌, refl, arith, some, none, List, [], ◌∷◌, ◌++◌, Bytes}
use tpe_protos_g.Buffer.{
  Buffer, buffer_compact, buffer_write_adv, buffer_read_adv, buffer_read, buffer_write,
}
use tpe_protos_g.Buffer.Queue.{Holds}
use tpe_protos_g.Buffer.Traffic.{
  Call, receive, send, read_byte, write_byte, compact, Flow, call, calls, calls_fifo,
}
use tpe_protos_g.Netutils.{eagain, took, returned, sock_blocking_write}
use tpe_protos_g.Netutils.Writing.{write_enough}

abbrev small : Buffer
small = record { store = 0 ∷ 0 ∷ 0 ∷ 0 ∷ []; limit = 4; read = 0; write = 0 }

abbrev three : Buffer
three = record { store = 7 ∷ 8 ∷ 9 ∷ 0 ∷ []; limit = 4; read = 0; write = 3 }

small-Holds : Holds small 4 []
small-Holds = ground arith

three-Holds : Holds three 4 (7 ∷ 8 ∷ 9 ∷ [])
three-Holds = ground arith

-- five bytes offered, of which four fit
abbrev script : List Call
script =
    receive (1 ∷ 2 ∷ 3 ∷ 4 ∷ 5 ∷ [])
    ∷ write_byte 6
    ∷ send 2
    ∷ compact
    ∷ write_byte 7
    ∷ read_byte
    ∷ []

calls-script :
    calls script (record { buffer = small; taken = []; given = [] })
    ≡ some (record {
      buffer = record { store = 3 ∷ 4 ∷ 7 ∷ 4 ∷ []; limit = 4; read = 1; write = 3 };
      taken = 1 ∷ 2 ∷ 3 ∷ 4 ∷ 7 ∷ [];
      given = 1 ∷ 2 ∷ 3 ∷ [];
    })
unfolding calls call buffer_compact buffer_write_adv buffer_read_adv buffer_read buffer_write
calls-script = refl

calls_fifo_example :
    (t : Flow) × (inside : Bytes) × (calls script
        (record { buffer = small; taken = []; given = [] })
      ≡ some t)
    × Holds t.buffer 4 inside
    × ([] ++ t.taken ≡ t.given ++ inside)
calls_fifo_example = calls_fifo 4 small [] script small-Holds

write_enough_example :
    (b' : Buffer) × (sock_blocking_write (took 2 ∷ took 1 ∷ took 1 ∷ []) (some eagain) three []
      ≡ returned none b' ([] ++ (7 ∷ 8 ∷ 9 ∷ [])))
write_enough_example =
    write_enough 4 (took 2 ∷ took 1 ∷ took 1 ∷ []) (some eagain) three [] (7 ∷ 8 ∷ 9 ∷ [])
      three-Holds tt (omega arith) (omega arith)

-- A send that takes nothing, with errno 0: the result is 0, and the bytes are still there.
nothing_sent : sock_blocking_write (took 0 ∷ []) none three [] ≡ returned none three []
unfolding sock_blocking_write
nothing_sent = refl

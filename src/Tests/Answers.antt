-- ===== src/Tests/Answers.antt =====
-- The answers to a greeting and to a login (src/shared/socks5.c) on small inputs.
use tpe_protos_g.Base.{
  ℕ, ◌≤◌, ◌≡◌, refl, arith, some, ◌>>=◌, [], ◌∷◌, ◌+◌, Bytes, replicate, length, length-replicate,
  AllBytes,
}
use tpe_protos_g.Buffer.{Buffer, buffer_init}
use tpe_protos_g.Buffer.Queue.{Holds, init-Holds, filled, filled-Holds}
use tpe_protos_g.Parsers.Auth.Wire.{credentials}
use tpe_protos_g.Parsers.Hello.Wire.{greeting}
use tpe_protos_g.Socks5.Answers.{Ready}
use tpe_protos_g.Socks5.Answers.Greeting as Greet
use tpe_protos_g.Socks5.Answers.Greeting.{hello_answers}
use tpe_protos_g.Socks5.Answers.Login as Log
use tpe_protos_g.Socks5.Answers.Login.{auth_answers}
use tpe_protos_g.Socks5.Auth.{auth_read_init, auth_parse}
use tpe_protos_g.Socks5.Engine.{socksv5_pump, pump_rounds}
use tpe_protos_g.Socks5.Gate.Handlers.{standing}
use tpe_protos_g.Socks5.Pumping.Ends.{Pumps, pump-Pumps}
use tpe_protos_g.Socks5.Hello.{hello_read_init, hello_parse}
use tpe_protos_g.Socks5.Lifecycle.{no_buffer}
use tpe_protos_g.Socks5.States
use tpe_protos_g.Socks5.Types.{Context}
use tpe_protos_g.Tests.Gate.{table}
use tpe_protos_g.Tests.Relay.{connected, registration_of, wired-IsValid}

-- a session of a server with one user, with `xs` in its read buffer
abbrev fresh : Buffer
fresh = buffer_init no_buffer 4096 (replicate 4096 0)

abbrev holding : Bytes → Context
holding xs = record connected {
  session = record connected.session { read_buffer = filled fresh xs };
  world = record connected.world { users = some table };
}

fresh-Holds : Holds fresh 4096 []
fresh-Holds =
    init-Holds no_buffer 4096 (replicate 4096 0) (omega (arith, length-replicate {A = ℕ} 4096 0))

holding-Ready :
    (xs : Bytes) → AllBytes xs → fresh.write + length xs ≤ fresh.limit → Ready xs (holding xs)
holding-Ready xs a room = record {
  watched = record { valid = wired-IsValid; held = registration_of 1; found = refl };
  are_bytes = a;
  came = filled-Holds fresh xs fresh-Holds room;
  answered = fresh-Holds;
}

abbrev hello : Bytes
hello = 5 ∷ 2 ∷ 0 ∷ 2 ∷ 9 ∷ []

hello_answers_example :
    (r : ℕ × Context) × (hello_read_init States.hello_read (holding hello) >>= hello_parse ≡ some r)
    × Greet.Answers (holding hello) (greeting hello) r
unfolding buffer_init
hello_answers_example =
    hello_answers hello (holding hello) (holding-Ready hello (omega arith) (omega arith))

abbrev login : Bytes
login = 1 ∷ 1 ∷ 97 ∷ 1 ∷ 98 ∷ []

auth_answers_example :
    (r : ℕ × Context) × (auth_read_init States.auth_read (holding login) >>= auth_parse ≡ some r)
    × Log.Answers table (holding login) (credentials login) r
unfolding buffer_init
auth_answers_example =
    auth_answers table login (holding login) refl (holding-Ready login (omega arith) (omega arith))
      (length-replicate {A = ℕ} 256 0) (length-replicate {A = ℕ} 256 0)

pump-Pumps_example :
    Pumps States.hello_read
      (holding hello)
      (socksv5_pump pump_rounds States.hello_read (standing States.hello_read) (holding hello))
pump-Pumps_example = pump-Pumps States.hello_read (holding hello) (omega arith)

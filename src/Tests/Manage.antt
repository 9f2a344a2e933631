-- ===== src/Tests/Manage.antt =====
-- The management protocol (src/server/mng.c) on small inputs.
use tpe_protos_g.Base.{
  ℕ, zero, suc, replicate, length-replicate, ◌++◌, Bytes, ◌≡◌, ◌⊎◌, inl, refl, arith, some, none,
  false, List, [], ◌∷◌, codes,
}
use tpe_protos_g.Mng.Access.{IsSound, line-IsSound, unauthenticated_line, Authenticates}
use tpe_protos_g.Mng.Commands.{World, Rights, handle_line}
use tpe_protos_g.Mng.Delivery.{events-Waits}
use tpe_protos_g.Mng.LongLines.{Plain, long_line_restarts}
use tpe_protos_g.Mng.Numbers.{parse-decimal}
use tpe_protos_g.Mng.Session.{process, queue_response, received, end_of_stream, new_session}
use tpe_protos_g.Mng.Talk.{Event, readable, writable, events, opened, Waits}
use tpe_protos_g.Mng.Text.{line_of, parse_nonnegative, decimal}
use tpe_protos_g.Netutils.{took}

abbrev server : World
server = record {
  admin_secret = some (codes "abc");
  users = none;
  metrics = none;
  config = none;
  active_sessions = 1;
}

abbrev rights : Rights
rights = new_session.rights

rights-IsSound : IsSound rights
rights-IsSound = record { counted = omega arith; lock = refl; leaves = inl refl }

line-IsSound_example : IsSound (handle_line server rights (codes "AUTH nope")).1.0
line-IsSound_example = line-IsSound server rights (codes "AUTH nope") rights-IsSound refl

unauthenticated_line_example :
    ((handle_line server rights (codes "USERS")).0 ≡ server)
    × (((handle_line server rights (codes "USERS")).1.0.authenticated ≡ false)
        ⊎ Authenticates server (codes "USERS"))
unauthenticated_line_example = unauthenticated_line server rights (codes "USERS") refl

parse-decimal_example : parse_nonnegative (some (decimal 1080)) ≡ some 1080
parse-decimal_example = parse-decimal 1080 (omega arith)

-- `QUIT`, cut in two by recv, and its answer, of which the peer takes three bytes
abbrev script : List Event
script =
    readable (received 81 (codes "UI"))
    ∷ readable (received 84 (10 ∷ 81 ∷ []))
    ∷ writable (took 3 ∷ [])
    ∷ writable (took 9 ∷ [])
    ∷ readable end_of_stream
    ∷ []

events-Waits_example : Waits server (events script (opened server))
events-Waits_example = events-Waits server script

abbrev letters : Bytes
letters = replicate 1023 97

letters-Plain : (n : ℕ) → Plain (replicate n 97)
letters-Plain zero = tt
letters-Plain (suc n) = (omega arith, omega arith, letters-Plain n)

long_line_restarts_example : process (letters ++ 97 ∷ codes "QUIT") server new_session ≡ (
  server,
  record (queue_response (record new_session { line = [] }) (line_of "-ERR line too long")) {
    pending = codes "QUIT";
  },
)
long_line_restarts_example =
    long_line_restarts server new_session letters (codes "QUIT") 97 refl refl (letters-Plain 1023)
      (length-replicate {A = ℕ} 1023 97) (omega arith) (omega arith)

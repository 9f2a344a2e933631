-- ===== src/Tests/Relay.antt =====
-- The relay of a SOCKS5 session (src/shared/socks5.c) on small inputs.
use tpe_protos_g.Base.{
  ℕ, zero, suc, ◌≤◌, ◌<◌, ◌≡◌, ◌⊎◌, inr, refl, sym, arith, true, false, some, none, [], ◌∷◌, ◌==◌,
  ◌||◌, replicate, length-replicate, pos, List,
}
use tpe_protos_g.Buffer.Queue.{init-Holds}
use tpe_protos_g.Mng.Session.{received}
use tpe_protos_g.Netutils.{took, econnrefused}
use tpe_protos_g.Selector.{Selector, Item, blank, op_read, op_write, wants}
use tpe_protos_g.Selector.Table.{IsValid, Registration, registered, asks}
use tpe_protos_g.Socks5.Copy.{from_client, from_origin, copy_init}
use tpe_protos_g.Socks5.Lifecycle.{started, no_buffer}
use tpe_protos_g.Socks5.Relay.{Outcome}
use tpe_protos_g.Socks5.Relay.Events.{Event, readable, writable, relay}
use tpe_protos_g.Socks5.Relay.Progress.{Watchful, relay-Watchful}
use tpe_protos_g.Socks5.Relay.Whole.{Connected, start_of, relay_delivers}
use tpe_protos_g.Socks5.States
use tpe_protos_g.Socks5.Types.{Context, System, World, Handler, Socket}

-- Two items: the client's socket is 1 and the origin's 2.
abbrev item_of : ℕ → Item Handler ℕ
item_of n = record {
  fd = some n;
  interest = 5;
  handler = some Handler.socks5_handler;
  user_data = some 1;
}

abbrev wired : Selector Handler ℕ
wired = record {
  fds = some (blank ∷ item_of 1 ∷ item_of 2 ∷ []);
  fd_size = 3;
  max_fd = 2;
  master_r = λ i. 1 == i || 2 == i;
  master_w = λ i. 1 == i || 2 == i;
  slave_r = λ i. false;
  slave_w = λ i. false;
  resolution_jobs = [];
}

abbrev pub registration_of : ℕ → Registration Handler ℕ
registration_of n = record {
  fd = n;
  interest = 5;
  handler = some Handler.socks5_handler;
  user_data = some 1;
}

wired-placed :
    (i : ℕ) (r : Registration Handler ℕ)
    → registered wired i ≡ some r
    → (r.fd ≡ i) × (i ≤ 2) × (i < 1024)
wired-placed zero r e = absurd (ground (arith, e))
wired-placed (suc zero) r e = ground (arith, e)
wired-placed (suc (suc zero)) r e = ground (arith, e)
wired-placed (suc (suc (suc i))) r e = absurd (ground (arith, e))

wired-asks :
    (op : ℕ) → wants 5 op ≡ true → (i : ℕ) → (1 == i || 2 == i) ≡ asks op (registered wired i)
wired-asks op w zero = refl
wired-asks op w (suc zero) = sym w
wired-asks op w (suc (suc zero)) = sym w
wired-asks op w (suc (suc (suc i))) = ground arith

pub wired-IsValid : IsValid wired
wired-IsValid = record {
  stored = refl;
  sized = refl;
  bounded = omega arith;
  max_inside = omega arith;
  placed = wired-placed;
  highest = inr (registration_of 2, refl);
  reads = wired-asks op_read refl;
  writes = wired-asks op_write refl;
}

-- recv finds two bytes, send takes one, and shutdown succeeds.
abbrev system : System
system = record {
  calls = 0;
  recv = λ n. received 7 (8 ∷ []);
  send = λ n. took 1;
  shutdown = λ n. none;
  socket = λ n. Socket.not_opened econnrefused;
  set_nio = λ n. none;
  connect = λ n. none;
  sock_error = λ n. none;
  time = λ n. 0;
  malloc = λ n. true;
  allocator = λ n. record { malloc = true; calloc = λ k. true; realloc = λ k. none };
  inet_ntop = λ f b. none;
  taken = λ n. [];
  given = λ n. [];
  ended = [];
  dialled = [];
}

abbrev world : World
world = record {
  users = none;
  metrics = none;
  config = none;
  dns_worker = none;
  access_log = none;
  active_sessions = 1;
  pool_size = 0;
}

abbrev pub connected : Context
connected = record {
  fd = 1;
  selector = wired;
  session = record (started 1 none 0) { origin_fd = pos 2 };
  world = world;
  system = system;
}

connected-Connected : Connected 1 2 [] [] connected
connected-Connected = record {
  client_is = refl;
  origin_is = refl;
  forth_held =
      init-Holds no_buffer 4096 (replicate 4096 0) (omega (arith, length-replicate {A = ℕ} 4096 0));
  back_held =
      init-Holds no_buffer 4096 (replicate 4096 0) (omega (arith, length-replicate {A = ℕ} 4096 0));
  client_watched = record { valid = wired-IsValid; held = registration_of 1; found = refl };
  origin_watched = record { valid = wired-IsValid; held = registration_of 2; found = refl };
}

abbrev traffic : List Event
traffic = readable from_client ∷ writable from_client ∷ readable from_origin ∷ []

relay_delivers_example :
    (c₀ : Context) × (p : ℕ × Context) × (copy_init States.copy connected ≡ some c₀)
    × (relay 1 2 traffic (States.copy, c₀) ≡ some p)
    × Outcome (start_of 1 2 [] [] connected) 1 2 p
relay_delivers_example =
    relay_delivers 1 2 [] [] connected (omega arith) connected-Connected traffic

relay-Watchful_example :
    (c₀ : Context) × (p : ℕ × Context) × (copy_init States.copy connected ≡ some c₀)
    × (relay 1 2 traffic (States.copy, c₀) ≡ some p)
    × ((p.0 ≡ States.done) ⊎ (p.0 ≡ States.error) ⊎ ((p.0 ≡ States.copy) × Watchful 1 2 p.1))
relay-Watchful_example =
    relay-Watchful 1 2 [] [] connected (omega arith) connected-Connected traffic

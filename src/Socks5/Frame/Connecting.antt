-- ===== src/Socks5/Frame/Connecting.antt =====
-- What a session does on arrival in CONNECTING (src/shared/socks5.c) keeps the users and who logged in.
use tpe_protos_g.Base.{
  ℕ, ◌+◌, refl, Bool, true, false, Option, none, some, List, [], ◌∷◌, if◌then◌else◌, imp-Every,
  bind-Every, any-Every, Bool-cases, inl, inr, codes, pos,
}
use tpe_protos_g.Netutils.{Errno, errno_to_socks_reply, socks_reply_general_failure}
use tpe_protos_g.Selector.{op_write, is_success, selector_register}
use tpe_protos_g.Socks5.Connecting.{
  dial, with_conn, is_under_way, connected, try_socket, connecting_try_one, registered_origin,
  connecting_register_origin, connect_failed, connect_begun, try_addresses, connecting_try_addrinfo,
  address_of, try_literal, deadline, connecting_init,
}
use tpe_protos_g.Socks5.Frame.{
  Keeps, KeepsIt, KeepsFlag, Keeps-refl, Keeps-trans, set_interest-KeepsFlag,
}
use tpe_protos_g.Socks5.Log.{socks5_set_failure}
use tpe_protos_g.Socks5.System.{on_session, with_system, tick, set_interest}
use tpe_protos_g.Socks5.Types.{Handler, Address, Socket, Context}

pub then-KeepsIt : (a b : Context) (m : Option Context) → Keeps a b → KeepsIt b m → KeepsIt a m
then-KeepsIt a b m h k = imp-Every (Keeps b) (Keeps a) m k (λ c l. Keeps-trans h l)

connected-Keeps : (fd : ℕ) (e : Option Errno) (c : Context) → Keeps c (connected fd e c).1
unfolding connected
connected-Keeps fd none c = record { users = refl; user = refl }
connected-Keeps fd (some e) c = elim (Bool-cases (is_under_way e)) [
  | inl begun ↦ rw begun (record { users = refl; user = refl })
  | inr refused ↦ rw refused (Keeps-refl c)
]

try_socket-Keeps : (s : Socket) (a : Address) (c : Context) → Keeps c (try_socket s a c).1
unfolding try_socket
try_socket-Keeps (Socket.not_opened e) a c = Keeps-refl c
try_socket-Keeps (Socket.opened fd) a c = by (c.system.set_nio c.system.calls)
  where
    by :
        (e : Option Errno)
        → Keeps c
            (elim e as (λ x. Option Errno × Context) [
              | some e ↦ (some e, with_system (tick c.system) c)
              | none ↦
                  let y = tick c.system in
                  connected fd (y.connect y.calls) (with_system (dial a y) c)
            ]).1
    by none =
        let y = tick c.system in
        let kept = connected-Keeps fd (y.connect y.calls) (with_system (dial a y) c) in
        record { users = kept.users; user = kept.user }
    by (some e) = record { users = refl; user = refl }

try_one-Keeps : (a : Address) (c : Context) → Keeps c (connecting_try_one a c).1
unfolding connecting_try_one
try_one-Keeps a c =
    let kept =
      try_socket-Keeps (c.system.socket c.system.calls) a (with_system (tick c.system) c) in
    record { users = kept.users; user = kept.user }

registered_origin-Keeps : (b : Bool) (c : Context) → Keeps c (registered_origin b c).1
registered_origin-Keeps true c = Keeps-refl c
registered_origin-Keeps false c = record { users = refl; user = refl }

register_origin-KeepsFlag : (c : Context) → KeepsFlag c (connecting_register_origin c)
unfolding connecting_register_origin
register_origin-KeepsFlag c =
    any-Every (λ (r : Bool × Context). Keeps c r.1)
      (selector_register (c.system.allocator c.system.calls) c.selector c.session.origin_fd
        (some Handler.socks5_handler) op_write (some c.session.client_fd))
      (λ r. some (
        registered_origin (is_success r.0)
          (with_system (tick c.system) (record c { selector = r.1 }))))
      (λ r.
        let kept =
          registered_origin-Keeps (is_success r.0)
            (with_system (tick c.system) (record c { selector = r.1 })) in
        record { users = kept.users; user = kept.user })

connect_failed-KeepsIt : (c : Context) → KeepsIt c (connect_failed c)
unfolding connect_failed
connect_failed-KeepsIt c =
    let c' = socks5_set_failure (codes "connect failed") c in
    bind-Every (λ (r : Bool × Context). Keeps c' r.1) (Keeps c)
      (set_interest (pos c.session.client_fd) op_write c') (λ r. some r.1)
      (set_interest-KeepsFlag (pos c.session.client_fd) op_write c')
      (λ r kept. record { users = kept.users; user = kept.user })

connect_begun-KeepsIt : (c : Context) → KeepsIt c (connect_begun c)
unfolding connect_begun
connect_begun-KeepsIt c =
    let c' = on_session (λ s. record s { references = s.references + 1 }) c in
    bind-Every (λ (r : Bool × Context). Keeps c' r.1) (Keeps c) (connecting_register_origin c')
      (λ r. if r.0 then some r.1 else connect_failed (refused r.1)) (register_origin-KeepsFlag c')
      (λ r kept. by r.0 r.1 (record { users = kept.users; user = kept.user }))
  where
    refused : Context → Context
    refused d = with_conn (record d.session.conn { reply = socks_reply_general_failure }) d

    by :
        (b : Bool) (d : Context)
        → Keeps c d
        → KeepsIt c (if b then some d else connect_failed (refused d))
    by true d kept = kept
    by false d kept =
        then-KeepsIt c (refused d) (connect_failed (refused d))
          (record { users = kept.users; user = kept.user }) (connect_failed-KeepsIt (refused d))

pub try_addresses-KeepsIt : (left : List Address) (c : Context) → KeepsIt c (try_addresses left c)
unfolding try_addresses
try_addresses-KeepsIt [] c = connect_failed-KeepsIt c
try_addresses-KeepsIt (a ∷ rest) c =
    let kept = try_one-Keeps a c' in
    let r = connecting_try_one a c' in
    by r.0 r.1 (record { users = kept.users; user = kept.user }) (λ d. try_addresses-KeepsIt rest d)
  where
    c' : Context
    c' = with_conn (record c.session.conn { current = rest }) c

    by :
        (e : Option Errno) (d : Context)
        → Keeps c d
        → ((d' : Context) → KeepsIt d' (try_addresses rest d'))
        → KeepsIt c (elim e [
          | none ↦ connect_begun d
          | some e ↦
              try_addresses rest
                (with_conn (record d.session.conn { reply = errno_to_socks_reply e }) d)
        ])
    by none d kept g = then-KeepsIt c d (connect_begun d) kept (connect_begun-KeepsIt d)
    by (some e) d kept g =
        let d' = with_conn (record d.session.conn { reply = errno_to_socks_reply e }) d in
        then-KeepsIt c d' (try_addresses rest d') (record { users = kept.users; user = kept.user })
          (g d')

try_literal-KeepsIt : (c : Context) → KeepsIt c (try_literal c)
unfolding try_literal
try_literal-KeepsIt c =
    let a = address_of c.session.request.parser.request in
    by (connecting_try_one a c).0 (connecting_try_one a c).1 (try_one-Keeps a c)
  where
    by :
        (e : Option Errno) (d : Context)
        → Keeps c d
        → KeepsIt c (elim e [
          | none ↦ connect_begun d
          | some e ↦
              connect_failed
                (with_conn (record d.session.conn { reply = errno_to_socks_reply e }) d)
        ])
    by none d kept = then-KeepsIt c d (connect_begun d) kept (connect_begun-KeepsIt d)
    by (some e) d kept =
        let d' = with_conn (record d.session.conn { reply = errno_to_socks_reply e }) d in
        then-KeepsIt c d' (connect_failed d') (record { users = kept.users; user = kept.user })
          (connect_failed-KeepsIt d')

pub connecting_init-KeepsIt : (state : ℕ) (c : Context) → KeepsIt c (connecting_init state c)
unfolding connecting_init
connecting_init-KeepsIt state c =
    let c' =
      on_session
        (λ s. record s {
          conn = record s.conn { reply = socks_reply_general_failure };
          connect_deadline =
              deadline (λ g. g.connect_timeout) c.world.config (c.system.time c.system.calls);
        })
        (with_system (tick c.system) c) in
    then-KeepsIt c c' _ (record { users = refl; user = refl }) (by c' c'.session.conn.current)
  where
    by :
        (d : Context) (left : List Address)
        → KeepsIt d (elim left [ [] ↦ try_literal d | a ∷ rest ↦ connecting_try_addrinfo d ])
    by d [] = try_literal-KeepsIt d
    by d (a ∷ rest) = try_addresses-KeepsIt d.session.conn.current d

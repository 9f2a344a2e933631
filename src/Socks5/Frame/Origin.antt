-- ===== src/Socks5/Frame/Origin.antt =====
-- The callback of CONNECTING (src/shared/socks5.c), with its replies, keeps the users and the user who
-- logged in.
use tpe_protos_g.Base.{
  ℕ, refl, arith, Bool, Option, none, some, List, [], ◌∷◌, ◌>>=◌, ◌==◌, bind-Every, Bool-cases, inl,
  inr, codes, pos, negsuc,
}
use tpe_protos_g.Metrics.{metrics_origin_ok, metrics_origin_fail}
use tpe_protos_g.Netutils.{Errno, errno_to_socks_reply, socks_reply_succeeded}
use tpe_protos_g.Parsers.Request.{request_marshall}
use tpe_protos_g.Selector.{op_noop, op_write}
use tpe_protos_g.Socks5.Auth.{count_metric}
use tpe_protos_g.Socks5.Connecting.{
  with_conn, with_origin, connecting_try_addrinfo, reply_with, report_failure, connect_succeeded,
  no_more_addresses, next_address, connecting_write,
}
use tpe_protos_g.Socks5.Frame.{
  Keeps, KeepsOn, Late, Keeps-refl, set_interest-KeepsFlag, unregister-KeepsFlag, then-KeepsOn,
  or_error-KeepsOn, marshalled-KeepsOn,
}
use tpe_protos_g.Socks5.Frame.Connecting.{try_addresses-KeepsIt}
use tpe_protos_g.Socks5.Log.{socks5_set_failure}
use tpe_protos_g.Socks5.Release.{unregister}
use tpe_protos_g.Socks5.Request.{with_request}
use tpe_protos_g.Socks5.States
use tpe_protos_g.Socks5.System.{or_error, with_system, tick, set_interest, set_interest_key}
use tpe_protos_g.Socks5.Types.{Address, Context}

reply_with-KeepsOn :
    (reply : ℕ) (c : Context) (k : Context → Option (ℕ × Context))
    → ((c' : Context) → KeepsOn c' (k c'))
    → KeepsOn c (reply_with reply c k)
reply_with-KeepsOn reply c k g =
    let c' = with_request (record c.session.request { reply = reply }) c in
    then-KeepsOn c c' (reply_with reply c k) (record { users = refl; user = refl })
      (marshalled-KeepsOn (request_marshall c'.session.write_buffer reply) c' k g)

wrote : (c : Context) → KeepsOn c (some (States.request_write, c))
wrote c = (omega arith, Keeps-refl c)

report_failure-KeepsOn : (c : Context) → KeepsOn c (report_failure c)
unfolding report_failure
report_failure-KeepsOn c =
    let c' = count_metric metrics_origin_fail (socks5_set_failure (codes "connect failed") c) in
    then-KeepsOn c c' (report_failure c) (record { users = refl; user = refl })
      (reply_with-KeepsOn c'.session.conn.reply c' (λ d. some (States.request_write, d)) wrote)

connect_succeeded-KeepsOn : (c : Context) → KeepsOn c (connect_succeeded c)
unfolding connect_succeeded
connect_succeeded-KeepsOn c =
    let c' = count_metric metrics_origin_ok c in
    then-KeepsOn c c' (connect_succeeded c) (record { users = refl; user = refl })
      (reply_with-KeepsOn socks_reply_succeeded c' _ (λ d.
        or_error-KeepsOn d (set_interest (pos d.session.client_fd) op_write d)
          (λ d'. or_error (set_interest_key op_noop d') (λ x. some (States.request_write, x)))
          (set_interest-KeepsFlag (pos d.session.client_fd) op_write d)
          (λ d'.
            or_error-KeepsOn d' (set_interest_key op_noop d') (λ x. some (States.request_write, x))
              (set_interest-KeepsFlag (pos d'.fd) op_noop d') wrote)))

no_more_addresses-KeepsOn : (c : Context) → KeepsOn c (no_more_addresses c)
unfolding no_more_addresses
no_more_addresses-KeepsOn c =
    let c' = count_metric metrics_origin_fail (socks5_set_failure (codes "connect failed") c) in
    then-KeepsOn c c' (no_more_addresses c) (record { users = refl; user = refl })
      (reply_with-KeepsOn c'.session.conn.reply c' _ (λ d.
        or_error-KeepsOn d (set_interest (pos d.session.client_fd) op_write d)
          (λ x. some (States.request_write, x))
          (set_interest-KeepsFlag (pos d.session.client_fd) op_write d) wrote))

next_address-KeepsOn : (e : Errno) (c : Context) → KeepsOn c (next_address e c)
unfolding next_address
next_address-KeepsOn e c =
    let c' = with_conn (record c.session.conn { reply = errno_to_socks_reply e }) c in
    bind-Every (λ (r : Bool × Context). Keeps c' r.1) (Late c) (unregister c'.session.origin_fd c')
      (λ r. go (with_origin (negsuc 0) r.1) (with_origin (negsuc 0) r.1).session.conn.current)
      (unregister-KeepsFlag c'.session.origin_fd c')
      (λ r kept.
        then-KeepsOn c (with_origin (negsuc 0) r.1) _
          (record { users = kept.users; user = kept.user })
          (by (with_origin (negsuc 0) r.1) (with_origin (negsuc 0) r.1).session.conn.current))
  where
    go : Context → List Address → Option (ℕ × Context)
    go d left = elim left [
      | [] ↦ no_more_addresses d
      | a ∷ rest ↦ connecting_try_addrinfo d >>= λ d'. some (States.connecting, d')
    ]

    by : (d : Context) (left : List Address) → KeepsOn d (go d left)
    by d [] = no_more_addresses-KeepsOn d
    by d (a ∷ rest) =
        bind-Every (Keeps d) (Late d) (connecting_try_addrinfo d)
          (λ d'. some (States.connecting, d')) (try_addresses-KeepsIt d.session.conn.current d)
          (λ d' kept. (omega arith, kept))

pub connecting_write-KeepsOn : (c : Context) → KeepsOn c (connecting_write c)
unfolding connecting_write
connecting_write-KeepsOn c = elim (Bool-cases (c.fd == c.session.client_fd)) [
  | inl client ↦ rw client (report_failure-KeepsOn c)
  | inr origin ↦ rw origin (by (c.system.sock_error c.system.calls))
]
  where
    by :
        (e : Option Errno)
        → KeepsOn c (elim e [
          | none ↦ connect_succeeded (with_system (tick c.system) c)
          | some e ↦ next_address e (with_system (tick c.system) c)
        ])
    by none =
        then-KeepsOn c (with_system (tick c.system) c) _ (record { users = refl; user = refl })
          (connect_succeeded-KeepsOn (with_system (tick c.system) c))
    by (some e) =
        then-KeepsOn c (with_system (tick c.system) c) _ (record { users = refl; user = refl })
          (next_address-KeepsOn e (with_system (tick c.system) c))

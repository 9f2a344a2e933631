-- ===== src/Socks5/Frame/Copy.antt =====
-- The callbacks of COPY (src/shared/socks5.c) keep the users and the user who logged in.
use tpe_protos_g.Base.{
  ℕ, ◌≤◌, ◌≡◌, refl, arith, Bool, true, false, not, ◌&&◌, ◌||◌, Option, none, some, ◌∷◌, ◌==◌,
  if◌then◌else◌, imp-Every, bind-Every, any-Every, Bool-cases, inl, inr, pos, length, Bytes,
}
use tpe_protos_g.Buffer.{
  Buffer, buffer_can_read, buffer_can_write, buffer_write_ptr, buffer_read_ptr, buffer_write_adv,
  buffer_read_adv, blit,
}
use tpe_protos_g.Buffer.Slices.{slice}
use tpe_protos_g.Metrics.{add64}
use tpe_protos_g.Mng.Session.{Received, received, end_of_stream, recv_failed, try_again}
use tpe_protos_g.Netutils.{Errno, Sent, took, failed}
use tpe_protos_g.Socks5.Copy.{
  Side, from_client, from_origin, copy_of, with_copy, rb_of, with_rb, copy_is_done, is_gone,
  closed_write, ending, copy_shutdown_write, copy_client_interest, copy_origin_interest,
  copy_update_interests, copy_read_state, copy_write_state, new_copy, copy_init, go_on, finished,
  finish, copy_received, copy_recv, room_made, copy_read_side, copy_read, count_bytes, copy_sent,
  copy_send, copy_write_side, copy_write,
}
use tpe_protos_g.Socks5.Frame.{
  Keeps, KeepsIt, KeepsFlag, KeepsOn, Late, Keeps-refl, Keeps-trans, set_interest-KeepsFlag,
  then-KeepsOn,
}
use tpe_protos_g.Socks5.Log.{has_log, socks5_log_open}
use tpe_protos_g.Socks5.States
use tpe_protos_g.Socks5.System.{on_session, with_system, tick, set_interest, sys_recv, sys_send}
use tpe_protos_g.Socks5.Types.{Copy, Context}

same_session :
    {c c' : Context}
    → c'.world.users ≡ c.world.users
    → c'.session.authenticated_user ≡ c.session.authenticated_user
    → Keeps c c'
same_session u a = record { users = u; user = a }

with_copy-Keeps : (side : Side) (k : Copy) (c : Context) → Keeps c (with_copy side k c)
with_copy-Keeps from_client k c = same_session refl refl
with_copy-Keeps from_origin k c = same_session refl refl

with_rb-Keeps : (side : Side) (b : Buffer) (c : Context) → Keeps c (with_rb side b c)
with_rb-Keeps from_client b c = same_session refl refl
with_rb-Keeps from_origin b c = same_session refl refl

count_bytes-Keeps : (side : Side) (n : ℕ) (c : Context) → Keeps c (count_bytes side n c)
count_bytes-Keeps from_client n c = same_session refl refl
count_bytes-Keeps from_origin n c = same_session refl refl

update_interests-KeepsFlag : (c : Context) → KeepsFlag c (copy_update_interests c)
unfolding copy_update_interests
update_interests-KeepsFlag c =
    bind-Every (λ (r : Bool × Context). Keeps c r.1) (λ (r : Bool × Context). Keeps c r.1)
      (set_interest (pos c.session.client_fd) (copy_client_interest c.session) c)
      (λ r.
        if r.0
        then set_interest r.1.session.origin_fd (copy_origin_interest r.1.session) r.1
        else some (false, r.1))
      (set_interest-KeepsFlag (pos c.session.client_fd) (copy_client_interest c.session) c)
      (λ r kept. by r.0 r.1 kept)
  where
    by :
        (b : Bool) (d : Context)
        → Keeps c d
        → KeepsFlag c (
            if b
            then set_interest d.session.origin_fd (copy_origin_interest d.session) d
            else some (false, d))
    by true d kept =
        imp-Every (λ (r : Bool × Context). Keeps d r.1) (λ (r : Bool × Context). Keeps c r.1)
          (set_interest d.session.origin_fd (copy_origin_interest d.session) d)
          (set_interest-KeepsFlag d.session.origin_fd (copy_origin_interest d.session) d)
          (λ r k. Keeps-trans kept k)
    by false d kept = kept

log_open-Keeps : (c : Context) → Keeps c (socks5_log_open c)
unfolding socks5_log_open
log_open-Keeps c =
    elim (Bool-cases
      (not (has_log c.world) || not c.session.destination_set || c.session.tunnel_opened)) [
        | inl quiet ↦ rw quiet (Keeps-refl c)
        | inr notes ↦ rw notes (same_session refl refl)
      ]

pub copy_init-KeepsIt : (state : ℕ) (c : Context) → KeepsIt c (copy_init state c)
unfolding copy_init
copy_init-KeepsIt state c =
    let c' =
      on_session
        (λ s. record s {
          client_copy = new_copy (pos s.client_fd) s.origin_fd;
          orig_copy = new_copy s.origin_fd (pos s.client_fd);
        })
        c in
    let opened = log_open-Keeps c' in
    bind-Every (λ (r : Bool × Context). Keeps (socks5_log_open c') r.1) (Keeps c)
      (copy_update_interests (socks5_log_open c')) (λ r. some r.1)
      (update_interests-KeepsFlag (socks5_log_open c'))
      (λ r kept. Keeps-trans (same_session opened.users opened.user) kept)

go_on-KeepsOn : (c : Context) → KeepsOn c (go_on c)
unfolding go_on
go_on-KeepsOn c =
    bind-Every (λ (r : Bool × Context). Keeps c r.1) (Late c) (copy_update_interests c)
      (λ r. some (if r.0 then States.copy else States.error, r.1)) (update_interests-KeepsFlag c)
      (λ r kept. (late r.0, kept))
  where
    late : (b : Bool) → States.request_read ≤ (if b then States.copy else States.error)
    late true = omega arith
    late false = omega arith

closed_write-Keeps :
    (e : Option Errno) (side : Side) (c : Context) → Keeps c (closed_write e side c).1
closed_write-Keeps none side c = with_copy-Keeps side _ c
closed_write-Keeps (some e) side c = elim (Bool-cases (is_gone e)) [
  | inl gone ↦ rw gone (with_copy-Keeps side _ c)
  | inr broke ↦ rw broke (Keeps-refl c)
]

shutdown-Keeps : (side : Side) (c : Context) → Keeps c (copy_shutdown_write side c).1
unfolding copy_shutdown_write
shutdown-Keeps side c =
    let k = copy_of side c.session in
    elim (Bool-cases
      (k.eof && not (buffer_can_read (rb_of side c.session)) && not k.write_closed)) [
        | inl due ↦ rw due (
            let y = ending k.write_fd c.system in
            let kept =
              closed_write-Keeps (c.system.shutdown c.system.calls) side (with_system y c) in
            same_session kept.users kept.user)
        | inr settled ↦ rw settled (Keeps-refl c)
      ]

finish-KeepsOn : (side : Side) (c : Context) → KeepsOn c (finish side c)
unfolding finish
finish-KeepsOn side c =
    by (copy_shutdown_write side c).0 (copy_shutdown_write side c).1 (shutdown-Keeps side c)
  where
    over :
        (b : Bool) (d : Context)
        → Keeps c d
        → KeepsOn c (if b then some (States.done, d) else go_on d)
    over true d kept = (omega arith, kept)
    over false d kept = then-KeepsOn c d (go_on d) kept (go_on-KeepsOn d)

    by : (ok : Bool) (d : Context) → Keeps c d → KeepsOn c (finished (ok, d))
    by true d kept = over (copy_is_done d.session) d kept
    by false d kept = (omega arith, kept)

wait_or_fail :
    (again : Bool) (c : Context) → KeepsOn c (if again then go_on c else some (States.error, c))
wait_or_fail true c = go_on-KeepsOn c
wait_or_fail false c = (omega arith, Keeps-refl c)

received-KeepsOn :
    (side : Side) (at : ℕ) (r : Received) (c : Context) → KeepsOn c (copy_received side at r c)
unfolding copy_received
received-KeepsOn side at (recv_failed e) c = wait_or_fail (try_again e) c
received-KeepsOn side at end_of_stream c =
    let d = with_copy side (record (copy_of side c.session) { eof = true }) c in
    then-KeepsOn c d (finish side d) (with_copy-Keeps side _ c) (finish-KeepsOn side d)
received-KeepsOn side at (received x xs) c =
    let b = rb_of side c.session in
    any-Every (Late c)
      (buffer_write_adv (record b { store = blit b.store at (x ∷ xs) }) (pos (length (x ∷ xs))))
      (λ b'. finish side (touched (with_rb side b' c)))
      (λ b'.
        let kept = with_rb-Keeps side b' c in
        then-KeepsOn c (touched (with_rb side b' c)) (finish side (touched (with_rb side b' c)))
          (same_session kept.users kept.user) (finish-KeepsOn side (touched (with_rb side b' c))))
  where
    touched : Context → Context
    touched d =
        on_session (λ s. record s { last_activity = c.system.time c.system.calls })
          (with_system (tick c.system) d)

recv-KeepsOn : (side : Side) (c : Context) → KeepsOn c (copy_recv side c)
unfolding copy_recv
recv-KeepsOn side c =
    any-Every (Late c) (buffer_write_ptr (rb_of side c.session))
      (λ w.
        let r = sys_recv (copy_of side c.session).read_fd w.1 c.system in
        copy_received side w.0 r.0 (with_system r.1 c))
      (λ w.
        let r = sys_recv (copy_of side c.session).read_fd w.1 c.system in
        then-KeepsOn c (with_system r.1 c) (copy_received side w.0 r.0 (with_system r.1 c))
          (same_session refl refl) (received-KeepsOn side w.0 r.0 (with_system r.1 c)))

read_side-KeepsOn : (side : Side) (c : Context) → KeepsOn c (copy_read_side side c)
unfolding copy_read_side
read_side-KeepsOn side c =
    let b = room_made (rb_of side c.session) in
    let d = with_rb side b c in
    then-KeepsOn c d (copy_read_side side c) (with_rb-Keeps side b c) (by (buffer_can_write b) d)
  where
    by : (b : Bool) (d : Context) → KeepsOn d (if b then copy_recv side d else go_on d)
    by true d = recv-KeepsOn side d
    by false d = go_on-KeepsOn d

pub copy_read-KeepsOn : (c : Context) → KeepsOn c (copy_read c)
unfolding copy_read
copy_read-KeepsOn c = by (copy_read_state c.session c.fd)
  where
    by :
        (s : Option Side)
        → KeepsOn c (elim s [ none ↦ some (States.error, c) | some side ↦ copy_read_side side c ])
    by none = (omega arith, Keeps-refl c)
    by (some side) = read_side-KeepsOn side c

sent-KeepsOn : (side : Side) (r : Sent) (c : Context) → KeepsOn c (copy_sent side r c)
unfolding copy_sent
sent-KeepsOn side (failed e) c = wait_or_fail (try_again e) c
sent-KeepsOn side (took n) c = elim (Bool-cases (n == 0)) [
  | inl nothing ↦ rw nothing (go_on-KeepsOn c)
  | inr bytes ↦ rw bytes (
      any-Every (Late c) (buffer_read_adv (rb_of side c.session) (pos n))
        (λ b. finish side (counted b))
        (λ b.
          then-KeepsOn c (counted b) (finish side (counted b)) (kept b)
            (finish-KeepsOn side (counted b))))
]
  where
    counted : Buffer → Context
    counted b =
        let k = copy_of side c.session in
        count_bytes side n
          (with_copy side (record k { transferred = add64 k.transferred n }) (with_rb side b c))

    kept : (b : Buffer) → Keeps c (counted b)
    kept b = Keeps-trans (with_rb-Keeps side b c) (
        Keeps-trans
          (with_copy-Keeps side
            (record (copy_of side c.session) {
              transferred = add64 (copy_of side c.session).transferred n;
            })
            (with_rb side b c))
          (count_bytes-Keeps side n _))

send-KeepsOn : (side : Side) (c : Context) → KeepsOn c (copy_send side c)
unfolding copy_send
send-KeepsOn side c =
    any-Every (Late c) (buffer_read_ptr (rb_of side c.session))
      (λ p. by (slice (rb_of side c.session).store p.0 p.1))
      (λ p.
        let bytes = slice (rb_of side c.session).store p.0 p.1 in
        let r = sys_send (copy_of side c.session).write_fd bytes c.system in
        then-KeepsOn c (with_system r.1 c) (by bytes) (same_session refl refl)
          (sent-KeepsOn side r.0 (with_system r.1 c)))
  where
    by : Bytes → Option (ℕ × Context)
    by bytes =
        let r = sys_send (copy_of side c.session).write_fd bytes c.system in
        copy_sent side r.0 (with_system r.1 c)

pub copy_write-KeepsOn : (c : Context) → KeepsOn c (copy_write c)
unfolding copy_write copy_write_side
copy_write-KeepsOn c = by (copy_write_state c.session c.fd)
  where
    go : (side : Side) (b : Bool) → KeepsOn c (if b then copy_send side c else finish side c)
    go side true = send-KeepsOn side c
    go side false = finish-KeepsOn side c

    by :
        (s : Option Side)
        → KeepsOn c (elim s [ none ↦ some (States.error, c) | some side ↦ copy_write_side side c ])
    by none = (omega arith, Keeps-refl c)
    by (some side) = go side (buffer_can_read (rb_of side c.session))

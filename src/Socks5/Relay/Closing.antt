-- ===== src/Socks5/Relay/Closing.antt =====
-- The end of copy_read and copy_write (src/shared/socks5.c): a side that has come to its end is shut
-- down, and the relay is done, fails or goes on.
use tpe_protos_g.Base.{
  ℕ, ◌≡◌, ◌≢◌, refl, arith, Bool, true, false, not, ◌&&◌, Option, some, none, inl, inr, Bool-cases,
}
use tpe_protos_g.Buffer.{buffer_can_read}
use tpe_protos_g.Netutils.{Errno}
use tpe_protos_g.Socks5.Copy.{
  Side, from_client, from_origin, copy_of, rb_of, is_gone, copy_is_done, closed_write, ending,
  copy_shutdown_write, finished, finish, go_on,
}
use tpe_protos_g.Socks5.Flow.{closed-Flow}
use tpe_protos_g.Socks5.Relay.{Start, Relays, Settled, Ends, forth-Relays, back-Relays, go_on-Ends}
use tpe_protos_g.Socks5.States
use tpe_protos_g.Socks5.System.{with_system}
use tpe_protos_g.Socks5.Types.{Session, Context}

abbrev pub SideSettled : Side → Session → Type 0
SideSettled side s = Settled (copy_of side s) (rb_of side s)

abbrev pub back_of : Side → Side
back_of from_client = from_origin
back_of from_origin = from_client

-- What a shutdown of one side leaves: both flows, the other side as it was, and this one settled
-- unless the shutdown failed.
abbrev Shut : Start → ℕ → ℕ → Side → Context → Bool × Context → Type 0
Shut q client origin side c (ok, c') =
    Relays q client origin c'
    × (ok ≡ true → SideSettled side c'.session)
    × (SideSettled (back_of side) c.session → SideSettled (back_of side) c'.session)

closed_settles : (a b : Bool) → (a && b && not true) ≡ false
closed_settles true true = refl
closed_settles true false = refl
closed_settles false b = refl

both : (a b c : Bool) → (a && b && c) ≡ true → (a ≡ true) × (b ≡ true)
both true true c e = (refl, refl)
both true false c e = absurd (cc)
both false b c e = absurd (cc)

module _ {q : Start} {client origin : ℕ} where
  closed-Shut :
      (side : Side) (c : Context)
      → Relays q client origin c
      → (copy_of side c.session).eof ≡ true
      → buffer_can_read (rb_of side c.session) ≡ false
      → Shut q client origin side c (closed_write none side c)
  closed-Shut from_client c r ended drained =
      let k = c.session.client_copy in
      (
        forth-Relays c (record k { write_closed = true }) c.session.read_buffer
            c.session.last_activity c.system c.world r refl refl refl refl
            (closed-Flow k c.session.read_buffer (c.system.taken client) (c.system.given origin)
              r.forth ended drained),
        λ e. closed_settles k.eof (not (buffer_can_read c.session.read_buffer)),
        λ h. h,
      )
  closed-Shut from_origin c r ended drained =
      let k = c.session.orig_copy in
      (
        back-Relays c (record k { write_closed = true }) c.session.write_buffer
            c.session.last_activity c.system c.world r refl refl refl refl
            (closed-Flow k c.session.write_buffer (c.system.taken origin) (c.system.given client)
              r.back ended drained),
        λ e. closed_settles k.eof (not (buffer_can_read c.session.write_buffer)),
        λ h. h,
      )

  closed_write-Shut :
      (done : Option Errno) (side : Side) (c : Context)
      → Relays q client origin c
      → (copy_of side c.session).eof ≡ true
      → buffer_can_read (rb_of side c.session) ≡ false
      → Shut q client origin side c (closed_write done side c)
  closed_write-Shut none side c r ended drained = closed-Shut side c r ended drained
  closed_write-Shut (some e) side c r ended drained = elim (Bool-cases (is_gone e)) [
    | inl gone ↦ rw gone (closed-Shut side c r ended drained)
    | inr broke ↦ rw broke (r, λ e'. absurd (cc), λ h. h)
  ]

  ending-Shut :
      (done : Option Errno) (side : Side) (c : Context)
      → Relays q client origin c
      → (copy_of side c.session).eof ≡ true
      → buffer_can_read (rb_of side c.session) ≡ false
      → Shut q client origin side c (
          closed_write done side
            (with_system (ending (copy_of side c.session).write_fd c.system) c))
  ending-Shut done side c r ended drained =
      let y = ending (copy_of side c.session).write_fd c.system in
      closed_write-Shut done side (with_system y c)
        (forth-Relays c c.session.client_copy c.session.read_buffer c.session.last_activity y
          c.world r refl refl refl refl r.forth)
        ended drained

  shutdown-Shut :
      (side : Side) (c : Context)
      → Relays q client origin c
      → Shut q client origin side c (copy_shutdown_write side c)
  unfolding copy_shutdown_write
  shutdown-Shut side c r =
      let k = copy_of side c.session in
      let drained = not (buffer_can_read (rb_of side c.session)) in
      elim (Bool-cases (k.eof && drained && not k.write_closed)) [
        | inl due ↦
            let (ended, empty) = both k.eof drained (not k.write_closed) due in
            rw due (
              ending-Shut (c.system.shutdown c.system.calls) side c r ended (ground (arith, empty)))
        | inr settled ↦ rw settled (r, λ e. settled, λ h. h)
      ]

  finished-Ends :
      (side : Side) (p : Bool × Context)
      → client ≢ origin
      → Relays q client origin p.1
      → (p.0 ≡ true → SideSettled side p.1.session)
      → SideSettled (back_of side) p.1.session
      → Ends q client origin (finished p)
  finished-Ends side (false, c) apart r here there = ((States.error, c), refl, inr (inr (refl, r)))
  finished-Ends side (true, c) apart r here there = elim (Bool-cases (copy_is_done c.session)) [
    | inl over ↦ rw over ((States.done, c), refl, inr (inl (refl, r, over)))
    | inr undone ↦ rw undone (goes_on side undone (here refl) there)
  ]
    where
      goes_on :
          (side' : Side)
          → copy_is_done c.session ≡ false
          → SideSettled side' c.session
          → SideSettled (back_of side') c.session
          → Ends q client origin (go_on c)
      goes_on from_client undone a b = go_on-Ends c apart r a b undone
      goes_on from_origin undone a b = go_on-Ends c apart r b a undone

  pub finish-Ends :
      (side : Side) (c : Context)
      → client ≢ origin
      → Relays q client origin c
      → SideSettled (back_of side) c.session
      → Ends q client origin (finish side c)
  unfolding finish
  finish-Ends side c apart r there =
      let (r', here, kept) = shutdown-Shut side c r in
      finished-Ends side (copy_shutdown_write side c) apart r' here (kept there)

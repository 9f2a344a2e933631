-- ===== src/Socks5/Relay/Reading.antt =====
-- copy_read (src/shared/socks5.c) on whatever recv returns.
use tpe_protos_g.Base.{
  ℕ, ◌+◌, ◌-◌, ◌≤◌, ◌≡◌, ◌≢◌, refl, ap, ◌∙◌, arith, true, some, [], ◌∷◌, inl, inr, pos, ◌>>=◌, ◌>>◌,
  check, Bool-cases, leb, Bytes, length, take, length-take,
}
use tpe_protos_g.Buffer.{buffer_can_write}
use tpe_protos_g.Buffer.Queue.{Holds, filled, write_adv-Holds}
use tpe_protos_g.Mng.Session.{Received, received, end_of_stream, recv_failed, try_again}
use tpe_protos_g.Socks5.Copy.{
  Side, from_client, from_origin, copy_of, rb_of, with_rb, finish, copy_received, copy_recv,
  room_made, copy_read_side,
}
use tpe_protos_g.Socks5.Relay.{Start, Relays, Ends}
use tpe_protos_g.Socks5.Relay.Closing.{finish-Ends}
use tpe_protos_g.Socks5.Relay.Receiving.{
  Ready, source, heard, heard_nothing, in-Ready, touch-Ready, room-Ready, Ready-Ends, ended-Ends,
}
use tpe_protos_g.Socks5.States
use tpe_protos_g.Socks5.System.{with_system, on_session, tick, clip, fitting, bytes_of, sys_recv}
use tpe_protos_g.Socks5.Types.{Context}

fitting-le : (xs : Bytes) → length (bytes_of (fitting xs)) ≤ length xs
fitting-le [] = omega arith
fitting-le (x ∷ xs) = omega arith

-- recv leaves no more than it was offered.
pub clip-le : (len : ℕ) (r : Received) → length (bytes_of (clip len r)) ≤ len
clip-le len (received c cs) =
    omega (arith, fitting-le (take len (c ∷ cs)), length-take len (c ∷ cs))
clip-le len end_of_stream = omega arith
clip-le len (recv_failed e) = omega arith

-- the buffer of a side, and the descriptor that it reads from
holds_side :
    {q : Start} {client origin : ℕ} (side : Side) (c : Context)
    → Relays q client origin c
    → (xs : Bytes) × Holds (rb_of side c.session) 4096 xs
holds_side from_client c r = (r.forth.inside, r.forth.buffer)
holds_side from_origin c r = (r.back.inside, r.back.buffer)

reads_from :
    {q : Start} {client origin : ℕ} (side : Side) (c : Context)
    → Relays q client origin c
    → (copy_of side c.session).read_fd ≡ pos (source side client origin)
reads_from from_client c r = r.forth_from
reads_from from_origin c r = r.back_from

module _ {q : Start} {client origin : ℕ} (apart : client ≢ origin) where
  quiet_Ready :
      (side : Side) (c : Context)
      → Ready q client origin side c
      → Ready q client origin side (with_system (heard (source side client origin) [] c.system) c)
  quiet_Ready side c r =
      touch-Ready apart side c c.session.last_activity
        (heard (source side client origin) [] c.system) r
        (λ j. heard_nothing (source side client origin) j c.system) (λ j. refl)

  stored-Ends :
      (side : Side) (c : Context) (ys : Bytes) (now : ℕ)
      → Ready q client origin side c
      → (rb_of side c.session).write + length ys ≤ (rb_of side c.session).limit
      → let y = heard (source side client origin) ys c.system in
        Ends q client origin (
          finish side (
            on_session
              (λ s. record s { last_activity = now })
              (with_system
                (tick y)
                (with_rb side (filled (rb_of side c.session) ys) (with_system y c)))))
  stored-Ends from_client c ys now r room =
      let y = heard client ys c.system in
      let c' = with_rb from_client (filled c.session.read_buffer ys) (with_system y c) in
      let r' =
        touch-Ready apart from_client c' now (tick y) (in-Ready apart from_client c ys r room)
          (λ j. refl) (λ j. refl) in
      finish-Ends from_client
        (record c' { session = record c'.session { last_activity = now }; system = tick y }) apart
        r'.relays r'.there
  stored-Ends from_origin c ys now r room =
      let y = heard origin ys c.system in
      let c' = with_rb from_origin (filled c.session.write_buffer ys) (with_system y c) in
      let r' =
        touch-Ready apart from_origin c' now (tick y) (in-Ready apart from_origin c ys r room)
          (λ j. refl) (λ j. refl) in
      finish-Ends from_origin
        (record c' { session = record c'.session { last_activity = now }; system = tick y }) apart
        r'.relays r'.there

  received-Ends :
      (side : Side) (c : Context) (r : Received)
      → Ready q client origin side c
      → (rb_of side c.session).write + length (bytes_of r) ≤ (rb_of side c.session).limit
      → Ends q client origin (
          copy_received side
            (rb_of side c.session).write
            r
            (with_system (heard (source side client origin) (bytes_of r) c.system) c))
  unfolding copy_received
  received-Ends side c (received x xs) r room =
      let b = rb_of side c.session in
      let y = heard (source side client origin) (x ∷ xs) c.system in
      let now = y.time y.calls in
      let (inside, held) = holds_side side c r.relays in
      let (e, _) = write_adv-Holds b (x ∷ xs) held room in
      let (p, same, out) = stored-Ends side c (x ∷ xs) now r room in
      (
        p,
        ap
              (λ m. m >>= λ b'. finish side (
                on_session (λ s. record s { last_activity = now })
                  (with_system (tick y) (with_rb side b' (with_system y c)))))
              e
            ∙ same,
        out,
      )
  received-Ends side c end_of_stream r room =
      ended-Ends apart side (with_system (heard (source side client origin) [] c.system) c)
        (quiet_Ready side c r)
  received-Ends side c (recv_failed e) r room =
      let c' = with_system (heard (source side client origin) [] c.system) c in
      let r' = quiet_Ready side c r in
      elim (Bool-cases (try_again e)) [
        | inl again ↦ rw again (Ready-Ends apart side c' r')
        | inr broke ↦ rw broke ((States.error, c'), refl, inr (inr (refl, r'.relays)))
      ]

  recv-Ends :
      (side : Side) (c : Context)
      → Ready q client origin side c
      → Ends q client origin (copy_recv side c)
  unfolding copy_recv sys_recv
  recv-Ends side c r =
      let b = rb_of side c.session in
      let (inside, held) = holds_side side c r.relays in
      let len = b.limit - b.write in
      let got = clip len (c.system.recv c.system.calls) in
      let at : ℕ × ℕ = (b.write, len) in
      let ordered : leb b.write b.limit ≡ true = ground (arith, held.valid.bounded) in
      let fits : b.write + length (bytes_of got) ≤ b.limit =
        omega (arith, clip-le len (c.system.recv c.system.calls), held.valid.bounded) in
      let (p, same, out) = received-Ends side c got r fits in
      (
        p,
        ap
              (λ t. check t >> some at >>= λ w.
                let r = sys_recv (copy_of side c.session).read_fd w.1 c.system in
                copy_received side w.0 r.0 (with_system r.1 c))
              ordered
            ∙ ap
                (λ fd.
                  let r = sys_recv fd len c.system in
                  copy_received side b.write r.0 (with_system r.1 c))
                (reads_from side c r.relays)
            ∙ same,
        out,
      )

  -- A readable socket of a side that has not ended: no assert fails, and the relay goes on, is done or
  -- fails, with both flows kept.
  pub read_side-Ends :
      (side : Side) (c : Context)
      → Ready q client origin side c
      → Ends q client origin (copy_read_side side c)
  unfolding copy_read_side
  read_side-Ends side c r =
      let b = room_made (rb_of side c.session) in
      let c' = with_rb side b c in
      let r' = room-Ready apart side c r in
      elim (Bool-cases (buffer_can_write b)) [
        | inl room ↦ rw room (recv-Ends side c' r')
        | inr full ↦ rw full (Ready-Ends apart side c' r')
      ]

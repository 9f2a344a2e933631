-- ===== src/Socks5/Relay/Receiving.antt =====
-- copy_read (src/shared/socks5.c): bytes from a socket go into the flow of their side.
use tpe_protos_g.Base.{
  ℕ, ◌+◌, ◌≤◌, ◌≡◌, ◌≢◌, refl, sym, subst, subst₂, arith, true, false, [], ◌++◌, append-nil, inl,
  inr, Bool-cases, Bytes, length,
}
use tpe_protos_g.Buffer.{Buffer, buffer_can_write, buffer_compact}
use tpe_protos_g.Buffer.Queue.{filled}
use tpe_protos_g.Socks5.Copy.{
  Side, from_client, from_origin, copy_of, rb_of, with_copy, with_rb, copy_is_done, finish, go_on,
  room_made,
}
use tpe_protos_g.Socks5.Flow.{Flow, compact-Flow, received-Flow, eof-Flow}
use tpe_protos_g.Socks5.Relay.{Start, Relays, Settled, Ends, forth-Relays, back-Relays, go_on-Ends}
use tpe_protos_g.Socks5.Relay.Closing.{SideSettled, back_of, finish-Ends}
use tpe_protos_g.Socks5.System.{with_system, noted, tick}
use tpe_protos_g.Socks5.Types.{Copy, System, Context}

pub noted_self : (n : ℕ) (bs : Bytes) (notes : ℕ → Bytes) → noted n bs notes n ≡ notes n ++ bs
noted_self n bs notes = ground arith

pub noted_ne : (n j : ℕ) (bs : Bytes) (notes : ℕ → Bytes) → n ≢ j → noted n bs notes j ≡ notes j
noted_ne n j bs notes h = ground (arith, h)

-- A side that reads on, while the other is settled.
pub record Ready (q : Start) (client origin : ℕ) (side : Side) (c : Context) : Type 0 where
  pub relays : Relays q client origin c
  pub goes_on : (copy_of side c.session).eof ≡ false
  pub there : SideSettled (back_of side) c.session
  pub undone : copy_is_done c.session ≡ false

-- the descriptor that a side reads from
abbrev pub source : Side → ℕ → ℕ → ℕ
source from_client client origin = client
source from_origin client origin = origin

abbrev pub heard : ℕ → Bytes → System → System
heard fd bs y = record (tick y) { taken = noted fd bs y.taken }

pub heard_nothing : (fd j : ℕ) (y : System) → (heard fd [] y).taken j ≡ y.taken j
heard_nothing fd j y = ground (arith, append-nil (y.taken j))

going : (k : Copy) (b : Buffer) → k.eof ≡ false → Settled k b
going k b e = rw e

module _ {q : Start} {client origin : ℕ} (apart : client ≢ origin) where
  pub in-Ready :
      (side : Side) (c : Context) (ys : Bytes)
      → Ready q client origin side c
      → (rb_of side c.session).write + length ys ≤ (rb_of side c.session).limit
      → Ready q client origin side (
          with_rb side
            (filled (rb_of side c.session) ys)
            (with_system (heard (source side client origin) ys c.system) c))
  in-Ready from_client c ys r room =
      let s = c.session in
      let y = heard client ys c.system in
      record {
        relays =
            forth-Relays c s.client_copy (filled s.read_buffer ys) s.last_activity y c.world
              r.relays refl refl (noted_ne client origin ys c.system.taken apart) refl
              (subst
                (λ t.
                  Flow q.held_forth q.took_client q.gave_origin s.client_copy
                    (filled s.read_buffer ys) t (c.system.given origin))
                (sym (noted_self client ys c.system.taken))
                (received-Flow s.client_copy s.read_buffer (c.system.taken client)
                  (c.system.given origin) r.relays.forth ys r.goes_on room));
        goes_on = r.goes_on;
        there = r.there;
        undone = r.undone;
      }
  in-Ready from_origin c ys r room =
      let s = c.session in
      let y = heard origin ys c.system in
      record {
        relays =
            back-Relays c s.orig_copy (filled s.write_buffer ys) s.last_activity y c.world r.relays
              refl refl (noted_ne origin client ys c.system.taken (λ e. apart (sym e))) refl
              (subst
                (λ t.
                  Flow q.held_back q.took_origin q.gave_client s.orig_copy
                    (filled s.write_buffer ys) t (c.system.given client))
                (sym (noted_self origin ys c.system.taken))
                (received-Flow s.orig_copy s.write_buffer (c.system.taken origin)
                  (c.system.given client) r.relays.back ys r.goes_on room));
        goes_on = r.goes_on;
        there = r.there;
        undone = r.undone;
      }

  pub touch-Relays :
      (c : Context) (now : ℕ) (y : System)
      → Relays q client origin c
      → ((j : ℕ) → y.taken j ≡ c.system.taken j)
      → ((j : ℕ) → y.given j ≡ c.system.given j)
      → Relays q client origin
          (record c { session = record c.session { last_activity = now }; system = y })
  touch-Relays c now y r t g =
      forth-Relays c c.session.client_copy c.session.read_buffer now y c.world r refl refl
        (t origin) (g client)
        (subst₂
          (λ t g.
            Flow q.held_forth q.took_client q.gave_origin c.session.client_copy
              c.session.read_buffer t g)
          (sym (t client)) (sym (g origin)) r.forth)

  pub touch-Ready :
      (side : Side) (c : Context) (now : ℕ) (y : System)
      → Ready q client origin side c
      → ((j : ℕ) → y.taken j ≡ c.system.taken j)
      → ((j : ℕ) → y.given j ≡ c.system.given j)
      → Ready q client origin side
          (record c { session = record c.session { last_activity = now }; system = y })
  touch-Ready from_client c now y r t g = record {
    relays = touch-Relays c now y r.relays t g;
    goes_on = r.goes_on;
    there = r.there;
    undone = r.undone;
  }
  touch-Ready from_origin c now y r t g = record {
    relays = touch-Relays c now y r.relays t g;
    goes_on = r.goes_on;
    there = r.there;
    undone = r.undone;
  }

  pub room-Ready :
      (side : Side) (c : Context)
      → Ready q client origin side c
      → Ready q client origin side (with_rb side (room_made (rb_of side c.session)) c)
  room-Ready from_client c r =
      let s = c.session in
      elim (Bool-cases (buffer_can_write s.read_buffer)) [
        | inl room ↦ rw room r
        | inr full ↦ rw full (record {
          relays =
              forth-Relays c s.client_copy (buffer_compact s.read_buffer) s.last_activity c.system
                c.world r.relays refl refl refl refl
                (compact-Flow s.client_copy s.read_buffer (c.system.taken client)
                  (c.system.given origin) r.relays.forth);
          goes_on = r.goes_on;
          there = r.there;
          undone = r.undone;
        })
      ]
  room-Ready from_origin c r =
      let s = c.session in
      elim (Bool-cases (buffer_can_write s.write_buffer)) [
        | inl room ↦ rw room r
        | inr full ↦ rw full (record {
          relays =
              back-Relays c s.orig_copy (buffer_compact s.write_buffer) s.last_activity c.system
                c.world r.relays refl refl refl refl
                (compact-Flow s.orig_copy s.write_buffer (c.system.taken origin)
                  (c.system.given client) r.relays.back);
          goes_on = r.goes_on;
          there = r.there;
          undone = r.undone;
        })
      ]

  pub Ready-Ends :
      (side : Side) (c : Context) → Ready q client origin side c → Ends q client origin (go_on c)
  Ready-Ends from_client c r =
      go_on-Ends c apart r.relays (going c.session.client_copy c.session.read_buffer r.goes_on)
        r.there r.undone
  Ready-Ends from_origin c r =
      go_on-Ends c apart r.relays r.there
        (going c.session.orig_copy c.session.write_buffer r.goes_on) r.undone

  pub ended-Ends :
      (side : Side) (c : Context)
      → Ready q client origin side c
      → Ends q client origin
          (finish side (with_copy side (record (copy_of side c.session) { eof = true }) c))
  ended-Ends from_client c r =
      let s = c.session in
      finish-Ends from_client (with_copy from_client (record s.client_copy { eof = true }) c) apart
        (forth-Relays c (record s.client_copy { eof = true }) s.read_buffer s.last_activity c.system
          c.world r.relays refl refl refl refl
          (eof-Flow s.client_copy s.read_buffer (c.system.taken client) (c.system.given origin)
            r.relays.forth))
        r.there
  ended-Ends from_origin c r =
      let s = c.session in
      finish-Ends from_origin (with_copy from_origin (record s.orig_copy { eof = true }) c) apart
        (back-Relays c (record s.orig_copy { eof = true }) s.write_buffer s.last_activity c.system
          c.world r.relays refl refl refl refl
          (eof-Flow s.orig_copy s.write_buffer (c.system.taken origin) (c.system.given client)
            r.relays.back))
        r.there

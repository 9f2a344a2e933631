-- ===== src/Socks5/Relay/Progress.antt =====
-- What the relay of src/shared/socks5.c waits for, between two events.
use tpe_protos_g.Base.{
  ◌≢◌, List, ℕ, ◌<◌, ◌≡◌, refl, sym, ap, ap₂, ◌∙◌, ltb, arith, Bool, true, false, not, ◌&&◌, some,
  [], ◌∷◌, ◌⊎◌, inl, inr, Bool-cases, Bytes,
}
use tpe_protos_g.Buffer.{Buffer, buffer_can_read, buffer_can_write}
use tpe_protos_g.Buffer.Queue.{Holds, can_read-Holds, write_empty}
use tpe_protos_g.Selector.{op_read, op_write}
use tpe_protos_g.Selector.Table.{asks, registered}
use tpe_protos_g.Socks5.Copy.{Side, from_client, from_origin, copy_of, rb_of}
use tpe_protos_g.Socks5.Flow.{Flow}
use tpe_protos_g.Socks5.Relay.{Start, Standing, Settled}
use tpe_protos_g.Socks5.Relay.Whole.{Connected, relay_delivers}
use tpe_protos_g.Socks5.States
use tpe_protos_g.Socks5.Copy.{copy_init}
use tpe_protos_g.Socks5.Relay.Events.{Event, relay, asks_interest, wants_read, wants_write}
use tpe_protos_g.Socks5.Relay.Receiving.{source}
use tpe_protos_g.Socks5.Relay.Writing.{target}
use tpe_protos_g.Socks5.Types.{Copy, Context}

empty_room :
    (b : Buffer) (xs : Bytes)
    → Holds b 4096 xs
    → buffer_can_read b ≡ false
    → buffer_can_write b ≡ true
empty_room b [] h e = ground (arith, write_empty b h, h.capacity)
empty_room b (x ∷ xs) h e = absurd (cc (can_read-Holds b x xs h))

undelivered : (a b c : Bool) → (a && not b && not c) ≡ false → b ≡ false → c ≡ false → a ≡ false
undelivered true true c e f g = absurd (cc)
undelivered true false true e f g = absurd (cc)
undelivered true false false e f g = absurd (cc)
undelivered false b c e f g = refl

-- A side that may still write has bytes to write, or room to read.
side_waits :
    {held took gave : Bytes} (k : Copy) (b : Buffer) (taken given : Bytes)
    → Flow held took gave k b taken given
    → Settled k b
    → k.write_closed ≡ false
    → (buffer_can_read b ≡ true) ⊎ ((k.eof ≡ false) × (buffer_can_write b ≡ true))
side_waits k b taken given f settled opened = elim (Bool-cases (buffer_can_read b)) [
  | inl more ↦ inl more
  | inr drained ↦ inr (
    undelivered k.eof (buffer_can_read b) k.write_closed settled drained opened,
    empty_room b f.inside f.buffer drained,
  )
]

one_open : (a b : Bool) → (a && b) ≡ false → (a ≡ false) ⊎ (b ≡ false)
one_open true b e = inr e
one_open false b e = inl refl

abbrev pub reads_from : ℕ → ℕ → Side → Context → Bool
reads_from client origin side c = asks op_read (registered c.selector (source side client origin))

abbrev pub writes_to : ℕ → ℕ → Side → Context → Bool
writes_to client origin side c = asks op_write (registered c.selector (target side client origin))

-- The socket that a side reads from is registered for reading just when it has not ended and there is
-- room, and the one that it writes to for writing just when it is open and there are bytes for it.
pub record Registers (client origin : ℕ) (side : Side) (c : Context) : Type 0 where
  pub for_reading : reads_from client origin side c ≡ (
      not (copy_of side c.session).eof
      && ltb (rb_of side c.session).write (rb_of side c.session).limit)
  pub for_writing : writes_to client origin side c ≡ (
      not (copy_of side c.session).write_closed
      && ltb (rb_of side c.session).read (rb_of side c.session).write)

-- A side that is open waits to write the bytes that it holds, or to read into the room that it has.
abbrev pub Waits : ℕ → ℕ → Side → Context → Type 0
Waits client origin side c =
    ((copy_of side c.session).write_closed ≡ false)
    × (((rb_of side c.session).read < (rb_of side c.session).write)
          × (writes_to client origin side c ≡ true)
        ⊎ ((copy_of side c.session).eof ≡ false)
          × ((rb_of side c.session).write < (rb_of side c.session).limit)
          × (reads_from client origin side c ≡ true))

abbrev pub ClosedOrWaits : ℕ → ℕ → Side → Context → Type 0
ClosedOrWaits client origin side c =
    ((copy_of side c.session).write_closed ≡ true) ⊎ Waits client origin side c

-- a relay that goes on
abbrev pub Watchful : ℕ → ℕ → Context → Type 0
Watchful client origin c =
    Registers client origin from_client c
    × Registers client origin from_origin c
    × ClosedOrWaits client origin from_client c
    × ClosedOrWaits client origin from_origin c
    × (Waits client origin from_client c ⊎ Waits client origin from_origin c)

can_write_ltb : (b : Buffer) → buffer_can_write b ≡ ltb b.write b.limit
can_write_ltb b = ground arith

can_read_ltb : (b : Buffer) → buffer_can_read b ≡ ltb b.read b.write
can_read_ltb b = ground arith

module _ {q : Start} {client origin : ℕ} where
  side_Registers :
      (side : Side) (c : Context) → Standing q client origin c → Registers client origin side c
  side_Registers from_client c s = record {
    for_reading =
        asks_interest op_read _ (registered c.selector client) s.asks_client
        ∙ wants_read _ _
        ∙ ap (λ t. not c.session.client_copy.eof && t) (can_write_ltb c.session.read_buffer);
    for_writing =
        asks_interest op_write _ (registered c.selector origin) s.asks_origin
        ∙ wants_write _ _
        ∙ ap (λ t. not c.session.client_copy.write_closed && t)
            (can_read_ltb c.session.read_buffer);
  }
  side_Registers from_origin c s = record {
    for_reading =
        asks_interest op_read _ (registered c.selector origin) s.asks_origin
        ∙ wants_read _ _
        ∙ ap (λ t. not c.session.orig_copy.eof && t) (can_write_ltb c.session.write_buffer);
    for_writing =
        asks_interest op_write _ (registered c.selector client) s.asks_client
        ∙ wants_write _ _
        ∙ ap (λ t. not c.session.orig_copy.write_closed && t) (can_read_ltb c.session.write_buffer);
  }

  needs :
      (side : Side) (c : Context)
      → Standing q client origin c
      → (copy_of side c.session).write_closed ≡ false
      → (buffer_can_read (rb_of side c.session) ≡ true)
        ⊎ (((copy_of side c.session).eof ≡ false)
            × (buffer_can_write (rb_of side c.session) ≡ true))
  needs from_client c s opened =
      side_waits c.session.client_copy c.session.read_buffer (c.system.taken client)
        (c.system.given origin) s.relays.forth s.forth_settled opened
  needs from_origin c s opened =
      side_waits c.session.orig_copy c.session.write_buffer (c.system.taken origin)
        (c.system.given client) s.relays.back s.back_settled opened

  open_Waits :
      (side : Side) (c : Context)
      → Standing q client origin c
      → (copy_of side c.session).write_closed ≡ false
      → Waits client origin side c
  open_Waits side c s opened =
      let r = side_Registers side c s in
      (
        opened,
        elim (needs side c s opened) [
          | inl more ↦
              let bytes = sym (can_read_ltb (rb_of side c.session)) ∙ more in
              inl (ground (arith, more), r.for_writing ∙ ap₂ (λ x y. not x && y) opened bytes)
          | inr (going, room) ↦
              let free = sym (can_write_ltb (rb_of side c.session)) ∙ room in
              inr (going, ground (arith, room), r.for_reading ∙ ap₂ (λ x y. not x && y) going free)
        ],
      )

  side_ClosedOrWaits :
      (side : Side) (c : Context) → Standing q client origin c → ClosedOrWaits client origin side c
  side_ClosedOrWaits side c s = elim (Bool-cases (copy_of side c.session).write_closed) [
    | inl closed ↦ inl closed
    | inr opened ↦ inr (open_Waits side c s opened)
  ]

  Standing-Watchful : (c : Context) → Standing q client origin c → Watchful client origin c
  Standing-Watchful c s = (
    side_Registers from_client c s,
    side_Registers from_origin c s,
    side_ClosedOrWaits from_client c s,
    side_ClosedOrWaits from_origin c s,
    elim (one_open c.session.client_copy.write_closed c.session.orig_copy.write_closed s.undone) [
      | inl opened ↦ inl (open_Waits from_client c s opened)
      | inr opened ↦ inr (open_Waits from_origin c s opened)
    ],
  )

-- For a session that is connected to two different sockets, both registered in a valid selector: over
-- any events, whatever the system answers, the relay is done or has failed, or it goes on and waits for
-- what it needs, and for nothing else. A socket is registered for reading just when it has not ended
-- and there is room for its bytes, and for writing just when it is open and there are bytes for it.
-- Each side is closed, or is registered to write the bytes that it holds or to read more; and at least
-- one is not closed.
pub relay-Watchful :
    (client origin : ℕ) (forth back : Bytes) (c : Context)
    → client ≢ origin
    → Connected client origin forth back c
    → (es : List Event)
    → (c₀ : Context) × (p : ℕ × Context) × (copy_init States.copy c ≡ some c₀)
      × (relay client origin es (States.copy, c₀) ≡ some p)
      × ((p.0 ≡ States.done)
          ⊎ (p.0 ≡ States.error)
          ⊎ ((p.0 ≡ States.copy) × Watchful client origin p.1))
relay-Watchful client origin forth back c apart h es =
    let (c₀, p, e, e', out) = relay_delivers client origin forth back c apart h es in
    (
      c₀,
      p,
      e,
      e',
      elim out [
        | inl (at, s) ↦ inr (inr (at, Standing-Watchful p.1 s))
        | inr (inl (at, r, over)) ↦ inl at
        | inr (inr (at, r)) ↦ inr (inl at)
      ],
    )

-- ===== src/Socks5/Relay/Whole.antt =====
-- The relay of src/shared/socks5.c from its beginning, copy_init, on.
use tpe_protos_g.Base.{
  ℕ, ◌≡◌, ◌≢◌, refl, sym, ap, false, not, ◌&&◌, ◌||◌, some, List, [], inl, inr, pos, ◌>>=◌,
  Bool-cases, Bytes, append-nil,
}
use tpe_protos_g.Buffer.{Buffer, buffer_can_read}
use tpe_protos_g.Buffer.Queue.{Holds}
use tpe_protos_g.Socks5.Copy.{copy_init, new_copy}
use tpe_protos_g.Socks5.Flow.{Flow}
use tpe_protos_g.Socks5.Log.{socks5_log_open, has_log}
use tpe_protos_g.Socks5.Relay.{Start, Relays, Standing, Outcome, update-Relays}
use tpe_protos_g.Socks5.Relay.Events.{Event, relay, relay-Ends}
use tpe_protos_g.Socks5.States
use tpe_protos_g.Socks5.Types.{Copy, Context}
use tpe_protos_g.Socks5.Wiring.{Watches}

-- A session that is connected, with bytes of the client and for the client in its buffers.
pub record Connected (client origin : ℕ) (forth back : Bytes) (c : Context) : Type 0 where
  pub client_is : c.session.client_fd ≡ client
  pub origin_is : c.session.origin_fd ≡ pos origin
  pub forth_held : Holds c.session.read_buffer 4096 forth
  pub back_held : Holds c.session.write_buffer 4096 back
  pub client_watched : Watches c.selector client
  pub origin_watched : Watches c.selector origin

abbrev pub start_of : ℕ → ℕ → Bytes → Bytes → Context → Start
start_of client origin forth back c = record {
  held_forth = forth;
  took_client = c.system.taken client;
  gave_origin = c.system.given origin;
  held_back = back;
  took_origin = c.system.taken origin;
  gave_client = c.system.given client;
}

new-Flow :
    (held took gave : Bytes) (k : Copy) (b : Buffer)
    → Holds b 4096 held
    → k.write_closed ≡ false
    → k.transferred ≡ 0
    → Flow held took gave k b took gave
new-Flow held took gave k b h opened none_yet = record {
  came = [];
  went = [];
  inside = held;
  all_taken = sym (append-nil took);
  all_given = sym (append-nil gave);
  whole = append-nil held;
  buffer = h;
  counted = none_yet;
  closed = λ e. absurd (cc);
}

module _ {q : Start} {client origin : ℕ} where
  log_open-Relays :
      (c : Context)
      → Relays q client origin c
      → Relays q client origin (socks5_log_open c)
        × ((socks5_log_open c).session.client_copy ≡ c.session.client_copy)
        × ((socks5_log_open c).session.orig_copy ≡ c.session.orig_copy)
  unfolding socks5_log_open
  log_open-Relays c r =
      elim (Bool-cases
        (not (has_log c.world) || not c.session.destination_set || c.session.tunnel_opened)) [
          | inl quiet ↦ rw quiet (r, refl, refl)
          | inr notes ↦ rw notes (
            record {
              client_is = r.client_is;
              origin_is = r.origin_is;
              forth_from = r.forth_from;
              forth_to = r.forth_to;
              back_from = r.back_from;
              back_to = r.back_to;
              forth = r.forth;
              back = r.back;
              client_watched = r.client_watched;
              origin_watched = r.origin_watched;
            },
            refl,
            refl,
          )
        ]

new_settled :
    (k : Copy) (b : Buffer)
    → k.eof ≡ false
    → (k.eof && not (buffer_can_read b) && not k.write_closed) ≡ false
new_settled k b e = rw e

init-Standing :
    (client origin : ℕ) (forth back : Bytes) (state : ℕ) (c : Context)
    → client ≢ origin
    → Connected client origin forth back c
    → (c₀ : Context) × (copy_init state c ≡ some c₀)
      × Standing (start_of client origin forth back c) client origin c₀
unfolding copy_init
init-Standing client origin forth back state c apart h =
    let s = c.session in
    let k : Copy = new_copy (pos s.client_fd) s.origin_fd in
    let k' : Copy = new_copy s.origin_fd (pos s.client_fd) in
    let c₁ : Context = record c { session = record s { client_copy = k; orig_copy = k' } } in
    let r : Relays (start_of client origin forth back c) client origin c₁ = record {
      client_is = h.client_is;
      origin_is = h.origin_is;
      forth_from = ap (λ n. pos n) h.client_is;
      forth_to = h.origin_is;
      back_from = h.origin_is;
      back_to = ap (λ n. pos n) h.client_is;
      forth =
          new-Flow forth (c.system.taken client) (c.system.given origin) k s.read_buffer
            h.forth_held refl refl;
      back =
          new-Flow back (c.system.taken origin) (c.system.given client) k' s.write_buffer
            h.back_held refl refl;
      client_watched = h.client_watched;
      origin_watched = h.origin_watched;
    } in
    let (r', same, same') = log_open-Relays c₁ r in
    let c₂ = socks5_log_open c₁ in
    let (s', e, r'', asks_c, asks_o) = update-Relays c₂ apart r' in
    (
      record c₂ { selector = s' },
      ap (λ m. m >>= λ x. some x.1) e,
      record {
        relays = r'';
        asks_client = asks_c;
        asks_origin = asks_o;
        forth_settled =
            new_settled c₂.session.client_copy c₂.session.read_buffer
              (ap (λ (x : Copy). x.eof) same);
        back_settled =
            new_settled c₂.session.orig_copy c₂.session.write_buffer
              (ap (λ (x : Copy). x.eof) same');
        undone = ap (λ (x : Copy). x.write_closed && c₂.session.orig_copy.write_closed) same;
      },
    )

-- For a session that is connected to two different sockets, both registered in a valid selector, with
-- some bytes in each of its buffers: over any events of the two sockets, whatever recv, send and
-- shutdown do, the relay fails no assert. In both directions the bytes that were held and came in are
-- those that went out and those still inside, in order, and those that went out are counted. While it
-- goes on, the registered interests are those of the session; it is done only when both sides have
-- ended and all of their bytes have gone out.
pub relay_delivers :
    (client origin : ℕ) (forth back : Bytes) (c : Context)
    → client ≢ origin
    → Connected client origin forth back c
    → (es : List Event)
    → (c₀ : Context) × (p : ℕ × Context) × (copy_init States.copy c ≡ some c₀)
      × (relay client origin es (States.copy, c₀) ≡ some p)
      × Outcome (start_of client origin forth back c) client origin p
relay_delivers client origin forth back c apart h es =
    let (c₀, e, s) = init-Standing client origin forth back States.copy c apart h in
    let (p, e', out) = relay-Ends apart es (States.copy, c₀) (inl (refl, s)) in (c₀, p, e, e', out)

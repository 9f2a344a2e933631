-- ===== src/Socks5/Relay/Writing.antt =====
-- copy_write (src/shared/socks5.c): bytes of a flow go out to its other socket.
use tpe_protos_g.Base.{
  ℕ, ◌-◌, ◌≡◌, ◌≢◌, refl, sym, ap, ap₂, subst, subst₂, ◌∙◌, arith, true, false, some, [], ◌∷◌, ◌++◌,
  append-nil, inl, inr, pos, ◌>>=◌, ◌>>◌, check, if◌then◌else◌, Bool-cases, leb, ◌==◌, Bytes,
  length, take, drop, take-append-drop,
}
use tpe_protos_g.Buffer.{Buffer, buffer_can_read, buffer_read_adv}
use tpe_protos_g.Buffer.Queue.{Holds, read_adv-Holds}
use tpe_protos_g.Buffer.Slices.{slice}
use tpe_protos_g.Metrics.{add64}
use tpe_protos_g.Mng.Session.{try_again}
use tpe_protos_g.Netutils.{Sent, took, failed}
use tpe_protos_g.Socks5.Copy.{
  Side, from_client, from_origin, copy_of, rb_of, with_copy, with_rb, copy_is_done, count_bytes,
  finish, go_on, copy_sent, copy_send, copy_write_side,
}
use tpe_protos_g.Socks5.Flow.{Flow, sent-Flow}
use tpe_protos_g.Socks5.Relay.{Start, Relays, Ends, forth-Relays, back-Relays, go_on-Ends}
use tpe_protos_g.Socks5.Relay.Closing.{SideSettled, back_of, finish-Ends}
use tpe_protos_g.Socks5.Relay.Receiving.{noted_self, noted_ne}
use tpe_protos_g.Socks5.States
use tpe_protos_g.Socks5.System.{with_system, noted, tick, taken_of, outcome, sys_send}
use tpe_protos_g.Socks5.Types.{Copy, System, Context}

-- A side that may still write, and two sides that are settled.
pub record Open (q : Start) (client origin : ℕ) (side : Side) (c : Context) : Type 0 where
  pub relays : Relays q client origin c
  pub open_yet : (copy_of side c.session).write_closed ≡ false
  pub here : SideSettled side c.session
  pub there : SideSettled (back_of side) c.session
  pub undone : copy_is_done c.session ≡ false

-- the descriptor that a side writes to
abbrev pub target : Side → ℕ → ℕ → ℕ
target from_client client origin = origin
target from_origin client origin = client

abbrev told : ℕ → Bytes → System → System
told fd bs y = record (tick y) { given = noted fd bs y.given }

told_nothing : (fd j : ℕ) (y : System) → (told fd [] y).given j ≡ y.given j
told_nothing fd j y = ground (arith, append-nil (y.given j))

-- what is inside a side's buffer
abbrev inside_of :
    {q : Start} {client origin : ℕ} (side : Side) (c : Context)
    → Relays q client origin c
    → (xs : Bytes) × Holds (rb_of side c.session) 4096 xs
inside_of from_client c r = (r.forth.inside, r.forth.buffer)
inside_of from_origin c r = (r.back.inside, r.back.buffer)

writes_to :
    {q : Start} {client origin : ℕ} (side : Side) (c : Context)
    → Relays q client origin c
    → (copy_of side c.session).write_fd ≡ pos (target side client origin)
writes_to from_client c r = r.forth_to
writes_to from_origin c r = r.back_to

-- The context behind a send that took `ys` and left `b`.
abbrev sent_context : Side → ℕ → Bytes → Buffer → Context → Context
sent_context side fd ys b c =
    let k = copy_of side c.session in
    count_bytes side (length ys) (
      with_copy side (record k { transferred = add64 k.transferred (length ys) })
        (with_rb side b (with_system (told fd ys c.system) c)))

module _ {q : Start} {client origin : ℕ} (apart : client ≢ origin) where
  sent-Ends :
      (side : Side) (c : Context) (o : Open q client origin side c) (ys zs : Bytes) (b : Buffer)
      → (inside_of side c o.relays).0 ≡ ys ++ zs
      → Holds b 4096 zs
      → Ends q client origin (finish side (sent_context side (target side client origin) ys b c))
  sent-Ends from_client c o ys zs b parts h =
      let s = c.session in
      let k : Copy = record s.client_copy {
        transferred = add64 s.client_copy.transferred (length ys);
      } in
      let y = told origin ys c.system in
      let c' = sent_context from_client origin ys b c in
      finish-Ends from_client c' apart
        (forth-Relays c k b s.last_activity y c'.world o.relays refl refl refl
          (noted_ne origin client ys c.system.given (λ e. apart (sym e)))
          (subst (λ g. Flow q.held_forth q.took_client q.gave_origin k b (c.system.taken client) g)
            (sym (noted_self origin ys c.system.given))
            (sent-Flow s.client_copy s.read_buffer (c.system.taken client) (c.system.given origin)
              o.relays.forth ys zs b parts o.open_yet h)))
        o.there
  sent-Ends from_origin c o ys zs b parts h =
      let s = c.session in
      let k : Copy = record s.orig_copy {
        transferred = add64 s.orig_copy.transferred (length ys);
      } in
      let y = told client ys c.system in
      let c' = sent_context from_origin client ys b c in
      finish-Ends from_origin c' apart
        (back-Relays c k b s.last_activity y c'.world o.relays refl refl refl
          (noted_ne client origin ys c.system.given apart)
          (subst (λ g. Flow q.held_back q.took_origin q.gave_client k b (c.system.taken origin) g)
            (sym (noted_self client ys c.system.given))
            (sent-Flow s.orig_copy s.write_buffer (c.system.taken origin) (c.system.given client)
              o.relays.back ys zs b parts o.open_yet h)))
        o.there

  waiting-Relays :
      (c : Context) (y : System)
      → Relays q client origin c
      → ((j : ℕ) → y.taken j ≡ c.system.taken j)
      → ((j : ℕ) → y.given j ≡ c.system.given j)
      → Relays q client origin (with_system y c)
  waiting-Relays c y r t g =
      forth-Relays c c.session.client_copy c.session.read_buffer c.session.last_activity y c.world r
        refl refl (t origin) (g client)
        (subst₂
          (λ t g.
            Flow q.held_forth q.took_client q.gave_origin c.session.client_copy
              c.session.read_buffer t g)
          (sym (t client)) (sym (g origin)) r.forth)

  -- nothing was sent
  unsent-Relays :
      (side : Side) (c : Context)
      → Open q client origin side c
      → Relays q client origin (with_system (told (target side client origin) [] c.system) c)
  unsent-Relays side c o =
      waiting-Relays c (told (target side client origin) [] c.system) o.relays (λ j. refl)
        (λ j. told_nothing (target side client origin) j c.system)

  unsent-Ends :
      (side : Side) (c : Context)
      → Open q client origin side c
      → Ends q client origin (go_on (with_system (told (target side client origin) [] c.system) c))
  unsent-Ends from_client c o =
      go_on-Ends (with_system (told origin [] c.system) c) apart (unsent-Relays from_client c o)
        o.here o.there o.undone
  unsent-Ends from_origin c o =
      go_on-Ends (with_system (told client [] c.system) c) apart (unsent-Relays from_origin c o)
        o.there o.here o.undone

  -- send took `ys` of what is inside
  took-Ends :
      (side : Side) (c : Context) (o : Open q client origin side c) (ys zs : Bytes)
      → (inside_of side c o.relays).0 ≡ ys ++ zs
      → Ends q client origin (
          copy_sent side
            (took (length ys))
            (with_system (told (target side client origin) ys c.system) c))
  unfolding copy_sent
  took-Ends side c o [] zs parts = unsent-Ends side c o
  took-Ends side c o (x ∷ ys) zs parts =
      let fd = target side client origin in
      let c₁ = with_system (told fd (x ∷ ys) c.system) c in
      let k = copy_of side c.session in
      let (xs, held) = inside_of side c o.relays in
      let (b', e, h) =
        read_adv-Holds (rb_of side c.session) (x ∷ ys) zs
          (subst (λ t. Holds (rb_of side c.session) 4096 t) parts held) in
      let (p, same, out) = sent-Ends side c o (x ∷ ys) zs b' parts h in
      let m : ℕ = length (x ∷ ys) in
      let some_bytes : (m == 0) ≡ false = ground arith in
      (
        p,
        ap
              (λ t.
                if t
                then go_on c₁
                else (buffer_read_adv (rb_of side c.session) (pos m) >>= λ b. finish side (
                    count_bytes side m (
                      with_copy side (record k { transferred = add64 k.transferred m })
                        (with_rb side b c₁)))))
              some_bytes
            ∙ ap
                (λ r. r >>= λ b. finish side (
                  count_bytes side m (
                    with_copy side (record k { transferred = add64 k.transferred m })
                      (with_rb side b c₁))))
                e
            ∙ same,
        out,
      )

  answered-Ends :
      (side : Side) (c : Context) (o : Open q client origin side c) (r : Sent)
      → let xs = (inside_of side c o.relays).0 in
        Ends q client origin (
          copy_sent side
            (outcome xs r)
            (with_system (told (target side client origin) (taken_of xs r) c.system) c))
  unfolding copy_sent
  answered-Ends side c o (took n) =
      let xs = (inside_of side c o.relays).0 in
      took-Ends side c o (take n xs) (drop n xs) (sym (take-append-drop n xs))
  answered-Ends side c o (failed e) =
      let c' = with_system (told (target side client origin) [] c.system) c in
      elim (Bool-cases (try_again e)) [
        | inl again ↦ rw again (unsent-Ends side c o)
        | inr broke ↦ rw broke ((States.error, c'), refl, inr (inr (refl, unsent-Relays side c o)))
      ]

  send-Ends :
      (side : Side) (c : Context)
      → Open q client origin side c
      → Ends q client origin (copy_send side c)
  unfolding copy_send sys_send
  send-Ends side c o =
      let b = rb_of side c.session in
      let (xs, held) = inside_of side c o.relays in
      let at : ℕ × ℕ = (b.read, b.write - b.read) in
      let ordered : leb b.read b.write ≡ true = ground (arith, held.valid.ordered) in
      let (p, same, out) = answered-Ends side c o (c.system.send c.system.calls) in
      (
        p,
        ap
              (λ t. check t >> some at >>= λ w.
                let r =
                  sys_send (copy_of side c.session).write_fd (slice b.store w.0 w.1) c.system in
                copy_sent side r.0 (with_system r.1 c))
              ordered
            ∙ ap₂
                (λ fd bytes.
                  let r = sys_send fd bytes c.system in copy_sent side r.0 (with_system r.1 c))
                (writes_to side c o.relays) held.holds
            ∙ same,
        out,
      )

  -- A writable socket of a side that may still write: no assert fails, and the relay goes on, is done
  -- or fails, with both flows kept.
  pub write_side-Ends :
      (side : Side) (c : Context)
      → Open q client origin side c
      → Ends q client origin (copy_write_side side c)
  unfolding copy_write_side
  write_side-Ends side c o = elim (Bool-cases (buffer_can_read (rb_of side c.session))) [
    | inl more ↦ rw more (send-Ends side c o)
    | inr none_left ↦ rw none_left (finish-Ends side c apart o.relays o.there)
  ]

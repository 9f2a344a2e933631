-- ===== src/Socks5/Relay/Events.antt =====
-- The relay of src/shared/socks5.c over the events of the selector: copy_init, copy_read, copy_write.
use tpe_protos_g.Base.{
  ℕ, ◌+◌, ◌≡◌, ◌≢◌, refl, sym, ap, ◌∙◌, arith, Bool, true, false, not, ◌&&◌, Option, some, none,
  List, [], ◌∷◌, inl, inr, ◌>>=◌, if◌then◌else◌, Bool-cases, ◌==◌,
}
use tpe_protos_g.Selector.{op_read, op_write, wants}
use tpe_protos_g.Selector.Table.{asks, registered, Registration}
use tpe_protos_g.Socks5.Copy.{
  Side, from_client, from_origin, is_fd, or_op, copy_read_state, copy_write_state, copy_read_side,
  copy_write_side, copy_read, copy_write,
}
use tpe_protos_g.Socks5.Relay.{Start, Relays, Standing, Outcome, Ends}
use tpe_protos_g.Socks5.Relay.Receiving.{Ready, source}
use tpe_protos_g.Socks5.Relay.Reading.{read_side-Ends}
use tpe_protos_g.Socks5.Relay.Writing.{Open, target, write_side-Ends}
use tpe_protos_g.Socks5.States
use tpe_protos_g.Socks5.Types.{Handler, Context}
use tpe_protos_g.Socks5.Wiring.{interest}

-- The socket that a side reads from, or the one that it writes to, is ready.
pub data Event : Type 0 where
  readable writable : Side → Event

module _ (client origin : ℕ) where
  -- The selector calls a handler only for an interest that is registered.
  abbrev pub ready : Event → Context → Option (ℕ × Context)
  ready (readable side) c =
      let fd = source side client origin in
      if asks op_read (registered c.selector fd)
      then copy_read (record c { fd = fd })
      else some (States.copy, c)
  ready (writable side) c =
      let fd = target side client origin in
      if asks op_write (registered c.selector fd)
      then copy_write (record c { fd = fd })
      else some (States.copy, c)

  unfoldable pub relay : List Event → ℕ × Context → Option (ℕ × Context)
  relay [] p = some p
  relay (e ∷ es) p = (if p.0 == States.copy then ready e p.1 else some p) >>= λ p'. relay es p'

pub asks_interest :
    (op i : ℕ) (r : Option (Registration Handler ℕ)) → interest r ≡ some i → asks op r ≡ wants i op
asks_interest op i none e = absurd (cc)
asks_interest op i (some r) e = ap (λ k. wants k op) (ground (arith, e))

pub wants_read : (x y : Bool) → wants (or_op x op_read + or_op y op_write) op_read ≡ x
wants_read true true = refl
wants_read true false = refl
wants_read false true = refl
wants_read false false = refl

pub wants_write : (x y : Bool) → wants (or_op x op_read + or_op y op_write) op_write ≡ y
wants_write true true = refl
wants_write true false = refl
wants_write false true = refl
wants_write false false = refl

first_no : (a b : Bool) → (not a && b) ≡ true → a ≡ false
first_no true b e = absurd (cc)
first_no false b e = refl

module _ {q : Start} {client origin : ℕ} (apart : client ≢ origin) where
  key-Relays :
      (c : Context) (fd : ℕ)
      → Relays q client origin c
      → Relays q client origin (record c { fd = fd })
  key-Relays c fd r = record {
    client_is = r.client_is;
    origin_is = r.origin_is;
    forth_from = r.forth_from;
    forth_to = r.forth_to;
    back_from = r.back_from;
    back_to = r.back_to;
    forth = r.forth;
    back = r.back;
    client_watched = r.client_watched;
    origin_watched = r.origin_watched;
  }

  is_origin : (c : Context) → Relays q client origin c → is_fd origin c.session.origin_fd ≡ true
  is_origin c r =
      let same : (origin == origin) ≡ true = ground arith in
      ap (λ fd. is_fd origin fd) r.origin_is ∙ same

  read_state_is :
      (side : Side) (c : Context)
      → Relays q client origin c
      → copy_read_state c.session (source side client origin) ≡ some side
  unfolding copy_read_state
  read_state_is from_client c r =
      let same : (client == c.session.client_fd) ≡ true = ground (arith, r.client_is) in rw same
  read_state_is from_origin c r =
      let other : (origin == c.session.client_fd) ≡ false = ground (arith, r.client_is, apart) in
      rw other (rw (is_origin c r))

  write_state_is :
      (side : Side) (c : Context)
      → Relays q client origin c
      → copy_write_state c.session (target side client origin) ≡ some side
  unfolding copy_write_state
  write_state_is from_origin c r =
      let same : (client == c.session.client_fd) ≡ true = ground (arith, r.client_is) in rw same
  write_state_is from_client c r =
      let other : (origin == c.session.client_fd) ≡ false = ground (arith, r.client_is, apart) in
      rw other (rw (is_origin c r))

  -- A side whose socket is asked to read has not ended.
  asked-Ready :
      (side : Side) (c : Context)
      → Standing q client origin c
      → asks op_read (registered c.selector (source side client origin)) ≡ true
      → Ready q client origin side (record c { fd = source side client origin })
  asked-Ready from_client c s asked = record {
    relays = key-Relays c client s.relays;
    goes_on = first_no _ _ (
        sym (wants_read _ _)
        ∙ sym (asks_interest op_read _ (registered c.selector client) s.asks_client)
        ∙ asked);
    there = s.back_settled;
    undone = s.undone;
  }
  asked-Ready from_origin c s asked = record {
    relays = key-Relays c origin s.relays;
    goes_on = first_no _ _ (
        sym (wants_read _ _)
        ∙ sym (asks_interest op_read _ (registered c.selector origin) s.asks_origin)
        ∙ asked);
    there = s.forth_settled;
    undone = s.undone;
  }

  asked-Open :
      (side : Side) (c : Context)
      → Standing q client origin c
      → asks op_write (registered c.selector (target side client origin)) ≡ true
      → Open q client origin side (record c { fd = target side client origin })
  asked-Open from_client c s asked = record {
    relays = key-Relays c origin s.relays;
    open_yet = first_no _ _ (
        sym (wants_write _ _)
        ∙ sym (asks_interest op_write _ (registered c.selector origin) s.asks_origin)
        ∙ asked);
    here = s.forth_settled;
    there = s.back_settled;
    undone = s.undone;
  }
  asked-Open from_origin c s asked = record {
    relays = key-Relays c client s.relays;
    open_yet = first_no _ _ (
        sym (wants_write _ _)
        ∙ sym (asks_interest op_write _ (registered c.selector client) s.asks_client)
        ∙ asked);
    here = s.back_settled;
    there = s.forth_settled;
    undone = s.undone;
  }

  copy_read-Ends :
      (side : Side) (c : Context)
      → Ready q client origin side c
      → c.fd ≡ source side client origin
      → Ends q client origin (copy_read c)
  unfolding copy_read
  copy_read-Ends side c r at =
      let (p, same, out) = read_side-Ends apart side c r in
      (
        p,
        ap
              (λ (o : Option Side). elim o as (λ x. Option (ℕ × Context)) [
                | none ↦ some (States.error, c)
                | some side' ↦ copy_read_side side' c
              ])
              (ap (λ n. copy_read_state c.session n) at ∙ read_state_is side c r.relays)
            ∙ same,
        out,
      )

  copy_write-Ends :
      (side : Side) (c : Context)
      → Open q client origin side c
      → c.fd ≡ target side client origin
      → Ends q client origin (copy_write c)
  unfolding copy_write
  copy_write-Ends side c o at =
      let (p, same, out) = write_side-Ends apart side c o in
      (
        p,
        ap
              (λ (o : Option Side). elim o as (λ x. Option (ℕ × Context)) [
                | none ↦ some (States.error, c)
                | some side' ↦ copy_write_side side' c
              ])
              (ap (λ n. copy_write_state c.session n) at ∙ write_state_is side c o.relays)
            ∙ same,
        out,
      )

  ready-Ends :
      (e : Event) (c : Context)
      → Standing q client origin c
      → Ends q client origin (ready client origin e c)
  ready-Ends (readable side) c s =
      let fd = source side client origin in
      elim (Bool-cases (asks op_read (registered c.selector fd))) [
        | inl asked ↦
            let c' : Context = record c { fd = fd } in
            rw asked (copy_read-Ends side c' (asked-Ready side c s asked) refl)
        | inr idle ↦ rw idle ((States.copy, c), refl, inl (refl, s))
      ]
  ready-Ends (writable side) c s =
      let fd = target side client origin in
      elim (Bool-cases (asks op_write (registered c.selector fd))) [
        | inl asked ↦
            let c' : Context = record c { fd = fd } in
            rw asked (copy_write-Ends side c' (asked-Open side c s asked) refl)
        | inr idle ↦ rw idle ((States.copy, c), refl, inl (refl, s))
      ]

  -- one event, whatever the state
  round-Ends :
      (e : Event) (p : ℕ × Context)
      → Outcome q client origin p
      → Ends q client origin (if p.0 == States.copy then ready client origin e p.1 else some p)
  round-Ends e (st, c) (inl (at, s)) =
      let here : (st == States.copy) ≡ true = ground arith in rw here (ready-Ends e c s)
  round-Ends e (st, c) (inr (inl (at, r, over))) =
      let past : (st == States.copy) ≡ false = ground arith in
      rw past ((st, c), refl, inr (inl (at, r, over)))
  round-Ends e (st, c) (inr (inr (at, r))) =
      let past : (st == States.copy) ≡ false = ground arith in
      rw past ((st, c), refl, inr (inr (at, r)))

  pub relay-Ends :
      (es : List Event) (p : ℕ × Context)
      → Outcome q client origin p
      → Ends q client origin (relay client origin es p)
  unfolding relay
  relay-Ends [] p out = (p, refl, out)
  relay-Ends (e ∷ es) p out =
      let (p₁, e₁, out₁) = round-Ends e p out in
      let (p₂, e₂, out₂) = relay-Ends es p₁ out₁ in
      (p₂, ap (λ m. m >>= λ p'. relay client origin es p') e₁ ∙ e₂, out₂)

-- ===== src/Socks5/Relay.antt =====
-- The relay of src/shared/socks5.c as two flows between the sockets of a session.

pub mod Closing
pub mod Receiving
pub mod Reading
pub mod Writing
pub mod Events
pub mod Whole
pub mod Progress
use tpe_protos_g.Base.{
  ℕ, ◌+◌, ◌-◌, ◌≡◌, ◌≢◌, refl, sym, ap, subst₂, ◌∙◌, arith, Bool, true, false, not, ◌&&◌, Option,
  some, none, ◌⊎◌, inl, inr, Bytes, pos, ◌>>=◌, if◌then◌else◌,
}
use tpe_protos_g.Buffer.{Buffer, buffer_can_read}
use tpe_protos_g.Selector.{Selector}
use tpe_protos_g.Socks5.Copy.{
  Side, from_client, from_origin, copy_of, rb_of, copy_is_done, copy_client_interest,
  copy_origin_interest, copy_update_interests, go_on,
}
use tpe_protos_g.Socks5.Flow.{Flow}
use tpe_protos_g.Socks5.States
use tpe_protos_g.Socks5.System.{set_interest}
use tpe_protos_g.Socks5.Types.{Copy, Session, System, World, Handler, Context}
use tpe_protos_g.Socks5.Wiring.{Watches, interest_at, interest, set_interest-Sets}

-- What the relay found when it began: what its buffers held, and what the sockets had moved.
pub record Start : Type 0 where
  pub held_forth : Bytes
  pub took_client : Bytes
  pub gave_origin : Bytes
  pub held_back : Bytes
  pub took_origin : Bytes
  pub gave_client : Bytes

-- Between the client's descriptor and the origin's the session carries a flow in each direction.
pub record Relays (q : Start) (client origin : ℕ) (c : Context) : Type 0 where
  pub client_is : c.session.client_fd ≡ client
  pub origin_is : c.session.origin_fd ≡ pos origin
  pub forth_from : c.session.client_copy.read_fd ≡ pos client
  pub forth_to : c.session.client_copy.write_fd ≡ pos origin
  pub back_from : c.session.orig_copy.read_fd ≡ pos origin
  pub back_to : c.session.orig_copy.write_fd ≡ pos client
  pub forth :
      Flow q.held_forth q.took_client q.gave_origin c.session.client_copy c.session.read_buffer
        (c.system.taken client)
        (c.system.given origin)
  pub back :
      Flow q.held_back q.took_origin q.gave_client c.session.orig_copy c.session.write_buffer
        (c.system.taken origin)
        (c.system.given client)
  pub client_watched : Watches c.selector client
  pub origin_watched : Watches c.selector origin

-- There is nothing to shut down: the other socket knows of the end once all is delivered.
abbrev pub Settled : Copy → Buffer → Type 0
Settled k b = (k.eof && not (buffer_can_read b) && not k.write_closed) ≡ false

-- The relay between two events: its interests are registered, and it is not done.
pub record Standing (q : Start) (client origin : ℕ) (c : Context) : Type 0 where
  pub relays : Relays q client origin c
  pub asks_client : interest_at c.selector client ≡ some (copy_client_interest c.session)
  pub asks_origin : interest_at c.selector origin ≡ some (copy_origin_interest c.session)
  pub forth_settled : Settled c.session.client_copy c.session.read_buffer
  pub back_settled : Settled c.session.orig_copy c.session.write_buffer
  pub undone : copy_is_done c.session ≡ false

-- What an event leaves: a relay that goes on, one that is done in both directions, or one that failed.
abbrev pub Outcome : Start → ℕ → ℕ → ℕ × Context → Type 0
Outcome q client origin (st, c) =
    ((st ≡ States.copy) × Standing q client origin c)
    ⊎ ((st ≡ States.done) × Relays q client origin c × (copy_is_done c.session ≡ true))
    ⊎ ((st ≡ States.error) × Relays q client origin c)

abbrev pub Ends : Start → ℕ → ℕ → Option (ℕ × Context) → Type 0
Ends q client origin m = (p : ℕ × Context) × (m ≡ some p) × Outcome q client origin p

module _ {q : Start} {client origin : ℕ} where
  pub forth-Relays :
      (c : Context) (k : Copy) (b : Buffer) (now : ℕ) (y : System) (w : World)
      → Relays q client origin c
      → k.read_fd ≡ c.session.client_copy.read_fd
      → k.write_fd ≡ c.session.client_copy.write_fd
      → y.taken origin ≡ c.system.taken origin
      → y.given client ≡ c.system.given client
      → Flow q.held_forth q.took_client q.gave_origin k b (y.taken client) (y.given origin)
      → Relays q client origin (record c {
        session = record c.session { client_copy = k; read_buffer = b; last_activity = now };
        system = y;
        world = w;
      })
  forth-Relays c k b now y w r from to taken given f = record {
    client_is = r.client_is;
    origin_is = r.origin_is;
    forth_from = from ∙ r.forth_from;
    forth_to = to ∙ r.forth_to;
    back_from = r.back_from;
    back_to = r.back_to;
    forth = f;
    back =
        subst₂
          (λ t g.
            Flow q.held_back q.took_origin q.gave_client c.session.orig_copy c.session.write_buffer
              t g)
          (sym taken) (sym given) r.back;
    client_watched = r.client_watched;
    origin_watched = r.origin_watched;
  }

  pub back-Relays :
      (c : Context) (k : Copy) (b : Buffer) (now : ℕ) (y : System) (w : World)
      → Relays q client origin c
      → k.read_fd ≡ c.session.orig_copy.read_fd
      → k.write_fd ≡ c.session.orig_copy.write_fd
      → y.taken client ≡ c.system.taken client
      → y.given origin ≡ c.system.given origin
      → Flow q.held_back q.took_origin q.gave_client k b (y.taken origin) (y.given client)
      → Relays q client origin (record c {
        session = record c.session { orig_copy = k; write_buffer = b; last_activity = now };
        system = y;
        world = w;
      })
  back-Relays c k b now y w r from to taken given f = record {
    client_is = r.client_is;
    origin_is = r.origin_is;
    forth_from = r.forth_from;
    forth_to = r.forth_to;
    back_from = from ∙ r.back_from;
    back_to = to ∙ r.back_to;
    forth =
        subst₂
          (λ t g.
            Flow q.held_forth q.took_client q.gave_origin c.session.client_copy
              c.session.read_buffer t g)
          (sym taken) (sym given) r.forth;
    back = f;
    client_watched = r.client_watched;
    origin_watched = r.origin_watched;
  }

  pub selector-Relays :
      (c : Context) (s' : Selector Handler ℕ)
      → Relays q client origin c
      → Watches s' client
      → Watches s' origin
      → Relays q client origin (record c { selector = s' })
  selector-Relays c s' r wc wo = record {
    client_is = r.client_is;
    origin_is = r.origin_is;
    forth_from = r.forth_from;
    forth_to = r.forth_to;
    back_from = r.back_from;
    back_to = r.back_to;
    forth = r.forth;
    back = r.back;
    client_watched = wc;
    origin_watched = wo;
  }

  -- Both interests are set anew.
  pub update-Relays :
      (c : Context)
      → client ≢ origin
      → Relays q client origin c
      → (s' : Selector Handler ℕ) × (copy_update_interests c
          ≡ some (true, record c { selector = s' }))
        × Relays q client origin (record c { selector = s' })
        × (interest_at s' client ≡ some (copy_client_interest c.session))
        × (interest_at s' origin ≡ some (copy_origin_interest c.session))
  unfolding copy_update_interests
  update-Relays c apart r =
      let ask_c = copy_client_interest c.session in
      let ask_o = copy_origin_interest c.session in
      let (s₁, e₁, sets₁) = set_interest-Sets c client ask_c r.client_watched in
      let c₁ : Context = record c { selector = s₁ } in
      let (s₂, e₂, sets₂) =
        set_interest-Sets c₁ origin ask_o (sets₁.kept origin r.origin_watched) in
      (
        s₂,
        ap
              (λ n. set_interest (pos n) ask_c c >>= λ r.
                if r.0
                then set_interest r.1.session.origin_fd (copy_origin_interest r.1.session) r.1
                else some (false, r.1))
              r.client_is
            ∙ ap
                (λ m. m >>= λ r.
                  if r.0
                  then set_interest r.1.session.origin_fd (copy_origin_interest r.1.session) r.1
                  else some (false, r.1))
                e₁
            ∙ ap (λ fd. set_interest fd ask_o c₁) r.origin_is
            ∙ e₂,
        selector-Relays c s₂ r (sets₂.kept client (sets₁.kept client r.client_watched))
            (sets₂.kept origin (sets₁.kept origin r.origin_watched)),
        ap interest (sets₂.elsewhere client (λ e. apart (sym e))) ∙ sets₁.here,
        sets₂.here,
      )

  pub go_on-Ends :
      (c : Context)
      → client ≢ origin
      → Relays q client origin c
      → Settled c.session.client_copy c.session.read_buffer
      → Settled c.session.orig_copy c.session.write_buffer
      → copy_is_done c.session ≡ false
      → Ends q client origin (go_on c)
  unfolding go_on
  go_on-Ends c apart r settled_c settled_o undone =
      let (s', e, r', asks_c, asks_o) = update-Relays c apart r in
      (
        (States.copy, record c { selector = s' }),
        ap (λ m. m >>= λ x. some (if x.0 then States.copy else States.error, x.1)) e,
        inl (
          refl,
          record {
            relays = r';
            asks_client = asks_c;
            asks_origin = asks_o;
            forth_settled = settled_c;
            back_settled = settled_o;
            undone = undone;
          },
        ),
      )

-- ===== src/Socks5/Gate/Runs.antt =====
-- Who comes past the login of a session (src/shared/socks5.c), over any events of its handlers.
use tpe_protos_g.Base.{
  ℕ, zero, suc, ◌<◌, ◌≡◌, ◌⊎◌, inl, inr, refl, sym, ap, subst, ◌∙◌, arith, Option, none, some, List,
  [], ◌∷◌, ◌>>=◌, Every, imp-Every, bind-Every, Bytes, codes,
}
use tpe_protos_g.Socks5.Engine.{
  Machine, new_machine, socksv5_pump, pump_rounds, settle, socksv5_read, socksv5_write,
  socksv5_block,
}
use tpe_protos_g.Socks5.Gate.{Verified, Stage, Gate}
use tpe_protos_g.Socks5.Gate.Handlers.{standing, Placed}
use tpe_protos_g.Socks5.Gate.Pump.{
  Inside, settle-Inside, pump-Every, handled-Every, read-Fires, write-Fires, block-Fires,
}
use tpe_protos_g.Socks5.States
use tpe_protos_g.Socks5.System.{on_session}
use tpe_protos_g.Socks5.Types.{Session, Context, Address}
use tpe_protos_g.Stm.{stm_handler}
use tpe_protos_g.Users.{Users, users_count}

-- What a session may see: one of its descriptors that is ready, or an answer of the resolver.
pub data Event : Type 0 where
  readable writable : ℕ → Event
  resolved : ℕ → List Address → Event

abbrev pub happen : Event → Machine × Context → Option (Machine × Context)
happen (readable fd) r = socksv5_read r.0 (record r.1 { fd = fd })
happen (writable fd) r = socksv5_write r.0 (record r.1 { fd = fd })
happen (resolved fd found) r =
    socksv5_block r.0
      (record (on_session (λ s. record s { origin_resolution = found }) r.1) { fd = fd })

-- the events that come, as long as none aborts
unfoldable pub run : List Event → Machine × Context → Option (Machine × Context)
run [] r = some r
run (e ∷ es) r = happen e r >>= λ r'. run es r'

-- The table of users is as before, and the session has not begun, or is in a state before REQUEST_READ
-- or behind COPY, or it belongs to a user of whom the table accepts a password.
pub record Guarded (u : Users) (r : Machine × Context) : Type 0 where
  pub users : r.1.world.users ≡ some u
  pub passed :
      (r.0.current ≡ none)
      ⊎ ((st : ℕ) × (r.0.current ≡ some st)
          × ((st < States.request_read) ⊎ (States.copy < st) ⊎ Verified u r.1.session))

module _ (u : Users) where
  -- what the place of a session says of its state
  stands-Guarded : (i : ℕ) (c : Context) → Gate u i c → Guarded u (standing i, c)
  stands-Guarded i c g = record { users = g.users; passed = inr (i, refl, passed i g.stage) }
    where
      passed :
          (i : ℕ)
          → Stage u i c.session
          → (i < States.request_read) ⊎ (States.copy < i) ⊎ Verified u c.session
      passed zero h = inl (omega arith)
      passed (suc zero) h = inl (omega arith)
      passed (suc (suc zero)) h = inl (omega arith)
      passed (suc (suc (suc zero))) h = inl (omega arith)
      passed (suc (suc (suc (suc n)))) (inl over) = inr (inl (omega arith))
      passed (suc (suc (suc (suc n)))) (inr v) = inr (inr v)

  Inside-Guarded : (r : Machine × Context) → Inside u r → Guarded u r
  Inside-Guarded r (inl (e, h)) = record { users = h; passed = inl (ap (λ m. m.current) e) }
  Inside-Guarded (m, c) (inr (i, e, g)) =
      subst (λ m. Guarded u (m, c)) (sym e) (stands-Guarded i c g)

  module _ (some_users : 0 < users_count u) where
    -- the pump and the end behind a handler
    pumped-Inside :
        (reason : Bytes) (m : Option (ℕ × Machine × Context))
        → Every (Placed u) m
        → Every
            (Inside u)
            (m >>= λ r. socksv5_pump pump_rounds r.0 r.1 r.2 >>= λ r'. settle reason r')
    pumped-Inside reason m h = bind-Every (Placed u) (Inside u) m _ h (λ r p.
        bind-Every (Placed u) (Inside u) (socksv5_pump pump_rounds r.0 r.1 r.2)
          (λ r'. settle reason r')
          (subst (λ x. Every (Placed u) (socksv5_pump pump_rounds r.0 x r.2)) (sym p.0)
            (pump-Every u some_users pump_rounds r.0 r.2 p.1))
          (settle-Inside u some_users reason))

    -- the same session, with another descriptor and what the resolver found
    same-Inside :
        (m : Machine) (c c' : Context)
        → c'.world.users ≡ c.world.users
        → ((i : ℕ) → Stage u i c.session → Stage u i c'.session)
        → Inside u (m, c)
        → Inside u (m, c')
    same-Inside m c c' e stages (inl (f, h)) = inl (f, e ∙ h)
    same-Inside m c c' e stages (inr (i, f, g)) =
        inr (i, f, record { users = e ∙ g.users; stage = stages i g.stage })

    found-Stage :
        (i : ℕ) (s : Session) (found : List Address)
        → Stage u i s
        → Stage u i (record s { origin_resolution = found })
    found-Stage zero s found h = tt
    found-Stage (suc zero) s found h = h
    found-Stage (suc (suc zero)) s found h = tt
    found-Stage (suc (suc (suc zero))) s found (inl e) = inl e
    found-Stage (suc (suc (suc zero))) s found (inr v) =
        inr (record { name = v.name; pass = v.pass; known = v.known; user = v.user })
    found-Stage (suc (suc (suc (suc n)))) s found (inl e) = inl e
    found-Stage (suc (suc (suc (suc n)))) s found (inr v) =
        inr (record { name = v.name; pass = v.pass; known = v.known; user = v.user })

    happen-Inside : (e : Event) (r : Machine × Context) → Inside u r → Every (Inside u) (happen e r)
    unfolding socksv5_read socksv5_write socksv5_block
    happen-Inside (readable fd) (m, c) h =
        let c' : Context = record c { fd = fd } in
        pumped-Inside (codes "read error") (stm_handler (λ d. d.on_read_ready) m c') (
          handled-Every u some_users (λ d. d.on_read_ready) (read-Fires u some_users) m c'
            (same-Inside m c c' refl (λ i s. s) h))
    happen-Inside (writable fd) (m, c) h =
        let c' : Context = record c { fd = fd } in
        pumped-Inside (codes "write error") (stm_handler (λ d. d.on_write_ready) m c') (
          handled-Every u some_users (λ d. d.on_write_ready) (write-Fires u some_users) m c'
            (same-Inside m c c' refl (λ i s. s) h))
    happen-Inside (resolved fd found) (m, c) h =
        let c' : Context = record (on_session (λ s. record s { origin_resolution = found }) c) {
          fd = fd;
        } in
        bind-Every (Placed u) (Inside u) (stm_handler (λ d. d.on_block_ready) m c')
          (λ r. settle (codes "block error") r)
          (handled-Every u some_users (λ d. d.on_block_ready) (block-Fires u some_users) m c'
            (same-Inside m c c' refl (λ i s. found-Stage i c.session found s) h))
          (settle-Inside u some_users (codes "block error"))

    run-Inside :
        (es : List Event) (r : Machine × Context) → Inside u r → Every (Inside u) (run es r)
    unfolding run
    run-Inside [] r h = h
    run-Inside (e ∷ es) r h =
        bind-Every (Inside u) (Inside u) (happen e r) (λ r'. run es r') (happen-Inside e r h)
          (run-Inside es)

    -- For a server whose table has users, and a session that has not begun: whatever events of its
    -- descriptors and answers of the resolver come, and whatever the system answers, the table stays,
    -- and if nothing aborts the session is in a state from REQUEST_READ to COPY only if users_check
    -- accepts a name and a password, and the user noted in the session has this name.
    pub run-Guarded :
        (es : List Event) (c : Context)
        → c.world.users ≡ some u
        → Every (Guarded u) (run es (new_machine, c))
    run-Guarded es c h =
        imp-Every (Inside u) (Guarded u) (run es (new_machine, c))
          (run-Inside es (new_machine, c) (inl (refl, h))) Inside-Guarded

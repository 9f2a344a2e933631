-- ===== src/Socks5/Gate/Handlers.antt =====
-- What the handlers of the machine leave of who may come past the login (src/shared/socks5.c).
use tpe_protos_g.Base.{
  ℕ, ◌<◌, ◌≡◌, refl, sym, ap, subst, Bool, true, false, Option, none, some, ◌>>=◌, ◌==◌, ==_iff,
  ltb, if◌then◌else◌, get_elem?, Every, bind-Every,
}
use tpe_protos_g.Socks5.Engine.{Machine, client_statbl, new_machine}
use tpe_protos_g.Socks5.Gate.{Gate, GatedOn}
use tpe_protos_g.Socks5.Gate.Table.{Sound, table-Sound}
use tpe_protos_g.Socks5.Hello.{hello_read_init}
use tpe_protos_g.Socks5.States
use tpe_protos_g.Socks5.Types.{Context}
use tpe_protos_g.Stm.{
  StateDefinition, handle_first, arrive, depart, notify, fire, jump_from, jump, react, stm_handler,
}
use tpe_protos_g.Users.{Users, users_count}

-- the machine of a session in state `i`
abbrev pub standing : ℕ → Machine
standing i = record new_machine { current = some i }

-- What a handler of the machine leaves: the machine in the state it returns, with what that asks for.
abbrev pub Placed : Users → ℕ × Machine × Context → Type 0
Placed u r = (r.1 ≡ standing r.0) × Gate u r.0 r.2

abbrev pub Callback : Type 0
Callback = StateDefinition Context → Option (Context → Option (ℕ × Context))

module _ (u : Users) (some_users : 0 < users_count u) where
  depart-Every :
      (i st : ℕ) (c : Context) → Gate u st c → Every (Gate u st) (depart (standing i) i c)
  depart-Every i st c g =
      bind-Every (Sound u i) (Gate u st) (get_elem? client_statbl i)
        (λ d. notify d.on_departure d.state c) (table-Sound u some_users i)
        (λ d sound. subst (λ f. Every (Gate u st) (notify f d.state c)) (sym sound.leaves) g)

  arrive-Every :
      (m : Machine) (i : ℕ) (c : Context)
      → m.states ≡ client_statbl
      → Gate u i c
      → Every (Gate u i) (arrive m i c)
  arrive-Every m i c e g =
      subst (λ t. Every (Gate u i) (get_elem? t i >>= λ d. notify d.on_arrival d.state c)) (sym e)
        (bind-Every (Sound u i) (Gate u i) (get_elem? client_statbl i)
          (λ d. notify d.on_arrival d.state c) (table-Sound u some_users i)
          (λ d sound.
            subst (λ s. Every (Gate u i) (notify d.on_arrival s c)) (sym sound.state)
              (sound.arrives c g)))

  jump-Every :
      (i next : ℕ) (c : Context)
      → Gate u next c
      → Every
          (λ (s : Machine × Context). (s.0 ≡ standing next) × Gate u next s.1)
          (jump (some i) (standing i) next c)
  unfolding jump jump_from
  jump-Every i next c g = outside (ltb States.error next)
    where
      Q : Machine × Context → Type 0
      Q s = (s.0 ≡ standing next) × Gate u next s.1

      moved : Option (Machine × Context)
      moved = depart (standing i) i c >>= λ k'.
          arrive (standing i) next k' >>= λ k''. some (standing next, k'')

      goes : Every Q moved
      goes =
          bind-Every (Gate u next) Q (depart (standing i) i c)
            (λ k'. arrive (standing i) next k' >>= λ k''. some (standing next, k''))
            (depart-Every i next c g)
            (λ k' h.
              bind-Every (Gate u next) Q (arrive (standing i) next k')
                (λ k''. some (standing next, k'')) (arrive-Every (standing i) next k' refl h)
                (λ k'' h'. (refl, h')))

      stays : (b : Bool) → (i == next) ≡ b → Every Q (if b then some (standing i, c) else moved)
      stays true e = (ap standing ((==_iff i next).0 e), g)
      stays false e = goes

      outside :
          (b : Bool)
          → Every Q (if b then none else if i == next then some (standing i, c) else moved)
      outside true = tt
      outside false = stays (i == next) refl

  abbrev pub Fires : Callback → Type 0
  Fires event =
      (i : ℕ) (d : StateDefinition Context)
      → Sound u i d
      → (c : Context) → Gate u i c
      → GatedOn u (fire (event d) c)

  module _ (event : Callback) (fired : Fires event) where
    react-Every : (i : ℕ) (c : Context) → Gate u i c → Every (Placed u) (react event (standing i) c)
    unfolding react
    react-Every i c g =
        bind-Every (Sound u i) (Placed u) (get_elem? client_statbl i) _ (table-Sound u some_users i)
          (λ d sound.
            bind-Every (λ (r : ℕ × Context). Gate u r.0 r.1) (Placed u) (fire (event d) c) _
              (fired i d sound c g)
              (λ r h.
                bind-Every (λ (s : Machine × Context). (s.0 ≡ standing r.0) × Gate u r.0 s.1)
                  (Placed u) (jump (some i) (standing i) r.0 r.1) (λ s. some (r.0, s.0, s.1))
                  (jump-Every i r.0 r.1 h) (λ s p. p)))

    pub handler-Every :
        (i : ℕ) (c : Context) → Gate u i c → Every (Placed u) (stm_handler event (standing i) c)
    unfolding stm_handler handle_first
    handler-Every i c g = react-Every i c g

    pub first-Every :
        (c : Context) → c.world.users ≡ some u → Every (Placed u) (stm_handler event new_machine c)
    unfolding stm_handler handle_first react hello_read_init
    first-Every c e =
        bind-Every (Gate u 0) (Placed u) (arrive new_machine 0 c) (λ k. react event (standing 0) k)
          (arrive-Every new_machine 0 c refl (record { users = e; stage = tt }))
          (λ k g. react-Every 0 k g)

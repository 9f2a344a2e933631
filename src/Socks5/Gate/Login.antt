-- ===== src/Socks5/Gate/Login.antt =====
-- What AUTH_READ and AUTH_WRITE (src/shared/socks5.c) leave, for a server with users.
use tpe_protos_g.Base.{
  ℕ, ◌≡◌, ◌⊎◌, inl, inr, refl, sym, ap, ◌∙◌, arith, Bool, true, false, none, some, if◌then◌else◌,
  ◌==◌, any-Every, Bool-cases, pos, c_string,
}
use tpe_protos_g.Parsers.Auth.{auth_consume, auth_is_done, auth_marshall}
use tpe_protos_g.Selector.{op_read, op_write}
use tpe_protos_g.Socks5.Auth.{
  with_auth, accepts, admit, refuse, auth_process, auth_parse, auth_read, auth_sent, auth_write,
}
use tpe_protos_g.Socks5.Gate.{
  Verified, Stage, Gate, GatedOn, failed-Gate, done-Gate, interest-GatedOn,
}
use tpe_protos_g.Socks5.Rules.{marshalled-Every, with_input-Every, with_output-Every}
use tpe_protos_g.Socks5.States
use tpe_protos_g.Socks5.System.{set_interest_key, with_read_buffer, or_error}
use tpe_protos_g.Socks5.Types.{Session, Context}
use tpe_protos_g.Users.{Users}

module _ (u : Users) where
  judged :
      (c : Context)
      → c.world.users ≡ some u
      → Gate u States.auth_write
          (if accepts c.world.users c.session.auth.parser then admit c else refuse c)
  judged c h = elim (Bool-cases (accepts c.world.users c.session.auth.parser)) [
    | inl right ↦ rw right (record {
      users = h;
      stage = inr (record {
        name = c_string c.session.auth.parser.uname;
        pass = c_string c.session.auth.parser.passwd;
        known = ap (λ t. accepts t c.session.auth.parser) (sym h) ∙ right;
        user = refl;
      });
    })
    | inr wrong ↦ rw wrong (record { users = h; stage = inl refl })
  ]

  auth_process-GatedOn : (c : Context) → c.world.users ≡ some u → GatedOn u (auth_process c)
  unfolding auth_process
  auth_process-GatedOn c h =
      let c' = if accepts c.world.users c.session.auth.parser then admit c else refuse c in
      let g = judged c h in
      marshalled-Every (λ (r : ℕ × Context). Gate u r.0 r.1)
        (auth_marshall c'.session.write_buffer c'.session.auth.status) c'
        (λ c''. some (States.auth_write, c''))
        (λ w. record { users = g.users; stage = inl (omega arith) })
        (λ w. record {
          users = g.users;
          stage = elim g.stage [
            | inl refused ↦ inl refused
            | inr v ↦ inr (record { name = v.name; pass = v.pass; known = v.known; user = v.user })
          ];
        })

  auth_parse-GatedOn : (c : Context) → c.world.users ≡ some u → GatedOn u (auth_parse c)
  unfolding auth_parse
  auth_parse-GatedOn c h =
      any-Every (λ (r : ℕ × Context). Gate u r.0 r.1)
        (auth_consume c.session.read_buffer c.session.auth.parser false) _
        (λ r.
          by r.1.1 (auth_is_done r.1.0.state none).0
            (with_read_buffer r.0 (with_auth (record c.session.auth { parser = r.1.0 }) c)) h)
    where
      by :
          (errored is_done : Bool) (d : Context)
          → d.world.users ≡ some u
          → GatedOn u (
              if errored
              then some (States.error, d)
              else if is_done
              then or_error (set_interest_key op_write d) auth_process
              else some (States.auth_read, d))
      by true is_done d h = failed-Gate u d h
      by false true d h =
          interest-GatedOn u (λ w s. w.users ≡ some u) (pos d.fd) op_write d auth_process h
            (λ w s p. p) auth_process-GatedOn
      by false false d h = record { users = h; stage = tt }

  pub auth_read-GatedOn : (c : Context) → c.world.users ≡ some u → GatedOn u (auth_read c)
  unfolding auth_read
  auth_read-GatedOn c h =
      with_input-Every (λ (r : ℕ × Context). Gate u r.0 r.1) States.auth_read auth_parse c
        (λ y. record { users = h; stage = tt })
        (λ y. record { users = h; stage = inl (omega arith) }) (auth_parse-GatedOn c h)
        (λ b y. auth_parse-GatedOn _ h)

  auth_sent-GatedOn : (c : Context) → Gate u States.auth_write c → GatedOn u (auth_sent c)
  unfolding auth_sent
  auth_sent-GatedOn c g =
      interest-GatedOn u (λ w s. (w.users ≡ some u) × Stage u States.auth_write s) (pos c.fd)
        op_read c _ (g.users, g.stage) (λ w s p. p.0)
        (λ d p.
          by (d.session.auth.status == 0x00) d p.0
            (elim p.1 [ inl refused ↦ inl (ap (λ m. m == 0x00) refused) | inr v ↦ inr v ]))
    where
      by :
          (ok : Bool) (d : Context)
          → d.world.users ≡ some u
          → (ok ≡ false) ⊎ Verified u d.session
          → Gate u (if ok then States.request_read else States.done) d
      by true d h (inl e) = absurd (cc)
      by true d h (inr v) = record { users = h; stage = inr v }
      by false d h v = done-Gate u d h

  -- a session with other buffers
  keeps-Stage :
      (s s' : Session)
      → s'.auth.status ≡ s.auth.status
      → s'.authenticated_user ≡ s.authenticated_user
      → Stage u States.auth_write s
      → Stage u States.auth_write s'
  keeps-Stage s s' e f (inl refused) = inl (e ∙ refused)
  keeps-Stage s s' e f (inr v) =
      inr (record { name = v.name; pass = v.pass; known = v.known; user = f ∙ v.user })

  pub auth_write-GatedOn : (c : Context) → Gate u States.auth_write c → GatedOn u (auth_write c)
  unfolding auth_write
  auth_write-GatedOn c g =
      with_output-Every (λ (r : ℕ × Context). Gate u r.0 r.1) States.auth_write auth_sent c
        (λ y. record { users = g.users; stage = g.stage })
        (λ y. record { users = g.users; stage = inl (omega arith) })
        (λ b y. record { users = g.users; stage = keeps-Stage c.session _ refl refl g.stage })
        (λ b y.
          auth_sent-GatedOn _
            (record { users = g.users; stage = keeps-Stage c.session _ refl refl g.stage }))

-- ===== src/Socks5/Gate/Greeting.antt =====
-- What HELLO_READ and HELLO_WRITE (src/shared/socks5.c) leave, for a server with users.
use tpe_protos_g.Base.{
  ℕ, ◌<◌, ◌≡◌, ◌⊎◌, inl, inr, refl, ap, arith, Bool, true, false, none, some, if◌then◌else◌, ◌==◌,
  ltb, any-Every, Bool-cases, pos,
}
use tpe_protos_g.Parsers.Hello.{hello_consume, hello_is_done, hello_marshall}
use tpe_protos_g.Selector.{op_read, op_write}
use tpe_protos_g.Socks5.Gate.{Gate, GatedOn, failed-Gate, done-Gate, interest-GatedOn}
use tpe_protos_g.Socks5.Hello.{
  with_hello, username_password, no_acceptable_methods, auth_required, choose_method, hello_process,
  hello_parse, hello_read, hello_sent, hello_write,
}
use tpe_protos_g.Socks5.Rules.{marshalled-Every, with_input-Every, with_output-Every}
use tpe_protos_g.Socks5.States
use tpe_protos_g.Socks5.System.{set_interest_key, with_read_buffer, or_error}
use tpe_protos_g.Socks5.Types.{Context, Offered}
use tpe_protos_g.Users.{Users, users_count}

module _ (u : Users) where
  module _ (some_users : 0 < users_count u) where
    chosen :
        (o : Offered)
        → (choose_method (auth_required (some u)) o ≡ username_password)
          ⊎ (choose_method (auth_required (some u)) o ≡ no_acceptable_methods)
    unfolding choose_method
    chosen o =
        let required : ltb 0 (users_count u) ≡ true = ground (arith, some_users) in
        elim (Bool-cases o.user_pass_offered) [
          | inl offered ↦ inl (rw (required, offered) refl)
          | inr not_offered ↦ inr (rw (required, not_offered) refl)
        ]

    hello_process-GatedOn : (c : Context) → c.world.users ≡ some u → GatedOn u (hello_process c)
    unfolding hello_process
    hello_process-GatedOn c h =
        let h' = c.session.hello in
        let method = choose_method (auth_required c.world.users) h'.parser.user_data in
        let c' = with_hello (record h' { method = method }) c in
        marshalled-Every (λ (r : ℕ × Context). Gate u r.0 r.1)
          (hello_marshall c'.session.write_buffer method) c' (λ c''. some (States.hello_write, c''))
          (λ w. record { users = h; stage = inl (omega arith) })
          (λ w. record { users = h; stage = rw h (chosen h'.parser.user_data) })

    hello_parse-GatedOn : (c : Context) → c.world.users ≡ some u → GatedOn u (hello_parse c)
    unfolding hello_parse
    hello_parse-GatedOn c h =
        any-Every (λ (r : ℕ × Context). Gate u r.0 r.1)
          (hello_consume c.session.read_buffer c.session.hello.parser false) _
          (λ r.
            by r.1.1 (hello_is_done r.1.0.state none).0
              (with_read_buffer r.0 (with_hello (record c.session.hello { parser = r.1.0 }) c)) h)
      where
        by :
            (errored is_done : Bool) (d : Context)
            → d.world.users ≡ some u
            → GatedOn u (
                if errored
                then some (States.error, d)
                else if is_done
                then or_error (set_interest_key op_write d) hello_process
                else some (States.hello_read, d))
        by true is_done d h = failed-Gate u d h
        by false true d h =
            interest-GatedOn u (λ w s. w.users ≡ some u) (pos d.fd) op_write d hello_process h
              (λ w s p. p) hello_process-GatedOn
        by false false d h = record { users = h; stage = tt }

    pub hello_read-GatedOn : (c : Context) → c.world.users ≡ some u → GatedOn u (hello_read c)
    unfolding hello_read
    hello_read-GatedOn c h =
        with_input-Every (λ (r : ℕ × Context). Gate u r.0 r.1) States.hello_read hello_parse c
          (λ y. record { users = h; stage = tt })
          (λ y. record { users = h; stage = inl (omega arith) }) (hello_parse-GatedOn c h)
          (λ b y. hello_parse-GatedOn _ h)

  hello_sent-GatedOn : (c : Context) → Gate u States.hello_write c → GatedOn u (hello_sent c)
  unfolding hello_sent
  hello_sent-GatedOn c g = by (c.session.hello.method == no_acceptable_methods) (elim g.stage [
    | inl login ↦ inl login
    | inr refused ↦ inr (ap (λ m. m == no_acceptable_methods) refused)
  ])
    where
      after :
          (login : Bool)
          → login ≡ true
          → (d : Context) → d.world.users ≡ some u
          → Gate u (if login then States.auth_read else States.request_read) d
      after true e d h = record { users = h; stage = tt }
      after false e d h = absurd (cc)

      by :
          (refused : Bool)
          → (c.session.hello.method ≡ username_password) ⊎ (refused ≡ true)
          → GatedOn u (
              if refused
              then some (States.done, c)
              else or_error (set_interest_key op_read c) (λ c'. some (
                if c.session.hello.method == username_password
                    then States.auth_read
                    else States.request_read,
                c',
              )))
      by true h = done-Gate u c g.users
      by false (inl login) =
          interest-GatedOn u (λ w s. w.users ≡ some u) (pos c.fd) op_read c _ g.users (λ w s p. p)
            (after (c.session.hello.method == username_password)
              (ap (λ m. m == username_password) login))
      by false (inr e) = absurd (cc)

  pub hello_write-GatedOn : (c : Context) → Gate u States.hello_write c → GatedOn u (hello_write c)
  unfolding hello_write
  hello_write-GatedOn c g =
      with_output-Every (λ (r : ℕ × Context). Gate u r.0 r.1) States.hello_write hello_sent c
        (λ y. record { users = g.users; stage = g.stage })
        (λ y. record { users = g.users; stage = inl (omega arith) })
        (λ b y. record { users = g.users; stage = g.stage })
        (λ b y. hello_sent-GatedOn _ (record { users = g.users; stage = g.stage }))

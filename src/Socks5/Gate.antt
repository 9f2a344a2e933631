-- ===== src/Socks5/Gate.antt =====
-- Who may come past the login of a session (src/shared/socks5.c), for a server with users: what each
-- state asks for.
pub mod Greeting
pub mod Login
pub mod Table
pub mod Handlers
pub mod Pump
pub mod Runs
use tpe_protos_g.Base.{
  ℕ, zero, suc, ◌≤◌, ◌<◌, ◌≡◌, ◌⊎◌, inl, inr, refl, sym, ap, ◌∙◌, arith, Bool, true, false, ◌&&◌,
  Option, none, some, if◌then◌else◌, ◌==◌, ltb, ◌>>=◌, Every, any-Every, Bool-cases, ℤ, pos, negsuc,
  Bytes, c_string, take,
}
use tpe_protos_g.Buffer.{Buffer}
use tpe_protos_g.Parsers.Hello.{HelloParser, hello_consume, hello_is_done, hello_marshall}
use tpe_protos_g.Parsers.Auth.{AuthParser, auth_consume, auth_is_done, auth_marshall}
use tpe_protos_g.Selector.{op_read, op_write, is_success, selector_set_interest}
use tpe_protos_g.Socks5.Auth.{
  with_auth, accepts, admit, refuse, auth_process, auth_parse, auth_read, auth_sent, auth_write,
}
use tpe_protos_g.Socks5.Hello.{
  with_hello, username_password, no_acceptable_methods, auth_required, choose_method, hello_process,
  hello_parse, hello_read, hello_sent, hello_write,
}
use tpe_protos_g.Socks5.Rules.{
  or_error-Every, marshalled-Every, with_input-Every, with_output-Every,
}
use tpe_protos_g.Socks5.States
use tpe_protos_g.Socks5.System.{
  set_interest, set_interest_key, with_read_buffer, or_error, marshalled,
}
use tpe_protos_g.Socks5.Types.{Session, World, Context, Offered}
use tpe_protos_g.Users.{Users, users_check, users_count}

-- The user noted in a session, with a name and a password that the table accepts.
pub record Verified (u : Users) (s : Session) : Type 0 where
  pub name : Bytes
  pub pass : Bytes
  pub known : users_check u name pass ≡ true
  pub user : s.authenticated_user ≡ take 255 name

-- What a session in a state has behind it: in HELLO_WRITE the method of the login or the refusal, in
-- AUTH_WRITE a refusal or a user, from REQUEST_READ to COPY a user.
abbrev pub Stage : Users → ℕ → Session → Type 0
Stage u zero s = Unit
Stage u (suc zero) s =
    (s.hello.method ≡ username_password) ⊎ (s.hello.method ≡ no_acceptable_methods)
Stage u (suc (suc zero)) s = Unit
Stage u (suc (suc (suc zero))) s = (s.auth.status ≡ 1) ⊎ Verified u s
Stage u (suc (suc (suc (suc n)))) s = (5 ≤ n) ⊎ Verified u s

pub record Gate (u : Users) (st : ℕ) (c : Context) : Type 0 where
  pub users : c.world.users ≡ some u
  pub stage : Stage u st c.session

abbrev pub GatedOn : Users → Option (ℕ × Context) → Type 0
GatedOn u m = Every (λ (r : ℕ × Context). Gate u r.0 r.1) m

-- What holds of the session and the globals holds behind selector_set_interest.
set_interest-Every :
    (P : World → Session → Type 0) (fd : ℤ) (op : ℕ) (c : Context)
    → P c.world c.session
    → Every (λ (r : Bool × Context). P r.1.world r.1.session) (set_interest fd op c)
unfolding set_interest
set_interest-Every P fd op c h =
    any-Every (λ (r : Bool × Context). P r.1.world r.1.session)
      (selector_set_interest c.selector fd op)
      (λ r. some (is_success r.0, record c { selector = r.1 })) (λ r. h)

module _ (u : Users) where
  -- ERROR and DONE ask for nothing.
  pub over-Gate : (st : ℕ) (c : Context) → States.done ≤ st → c.world.users ≡ some u → Gate u st c
  over-Gate zero c h e = absurd (omega arith)
  over-Gate (suc zero) c h e = absurd (omega arith)
  over-Gate (suc (suc zero)) c h e = absurd (omega arith)
  over-Gate (suc (suc (suc zero))) c h e = absurd (omega arith)
  over-Gate (suc (suc (suc (suc n)))) c h e = record { users = e; stage = inl (omega arith) }

  pub failed-Gate : (c : Context) → c.world.users ≡ some u → Gate u States.error c
  failed-Gate c h = record { users = h; stage = inl (omega arith) }

  pub done-Gate : (c : Context) → c.world.users ≡ some u → Gate u States.done c
  done-Gate c h = record { users = h; stage = inl (omega arith) }

  -- selector_set_interest, and what follows
  pub interest-GatedOn :
      (P : World → Session → Type 0) (fd : ℤ) (op : ℕ) (c : Context)
      (k : Context → Option (ℕ × Context))
      → P c.world c.session
      → ((w : World) (s : Session) → P w s → w.users ≡ some u)
      → ((c : Context) → P c.world c.session → GatedOn u (k c))
      → GatedOn u (or_error (set_interest fd op c) k)
  interest-GatedOn P fd op c k h users g =
      or_error-Every (λ (r : ℕ × Context). Gate u r.0 r.1) (λ d. P d.world d.session)
        (set_interest fd op c) k (set_interest-Every P fd op c h)
        (λ d p. failed-Gate d (users d.world d.session p)) g

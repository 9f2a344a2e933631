-- ===== src/Socks5/Pumping/Rounds.antt =====
-- The handlers of the machine in the states that the pump of src/shared/socks5.c runs them in.
use tpe_protos_g.Base.{
  ℕ, zero, suc, ◌≤◌, ◌≡◌, ◌≢◌, refl, sym, ap, subst, arith, Bool, true, false, Option, none, some,
  ◌>>=◌, ◌==◌, ==_iff, ltb, if◌then◌else◌, get_elem?, Every, bind-Every, any-Every, inl, inr,
}
use tpe_protos_g.Buffer.{buffer_can_read}
use tpe_protos_g.Netutils.{socks_reply_succeeded}
use tpe_protos_g.Selector.{op_read}
use tpe_protos_g.Socks5.Auth.{auth_parse, auth_read, auth_sent, auth_write}
use tpe_protos_g.Socks5.Engine.{Machine, client_statbl, is_reading, is_writing}
use tpe_protos_g.Socks5.Gate.Handlers.{standing, Callback}
use tpe_protos_g.Socks5.Hello.{
  username_password, no_acceptable_methods, hello_parse, hello_read, hello_sent, hello_write,
}
use tpe_protos_g.Socks5.Pumping.{NotBefore, Advances, or_error-any}
use tpe_protos_g.Socks5.Pumping.Parsing.{
  hello_parse-Advances, auth_parse-Advances, request_parse-Advances,
}
use tpe_protos_g.Socks5.Request.{request_parse, request_read, request_sent, request_write}
use tpe_protos_g.Socks5.Rules.{with_output-Every}
use tpe_protos_g.Socks5.States
use tpe_protos_g.Socks5.System.{or_error, set_interest_key, with_input, with_output}
use tpe_protos_g.Socks5.Types.{Context}
use tpe_protos_g.Stm.{
  StateDefinition, handle_first, arrive, depart, fire, jump_from, jump, react, stm_handler,
}

with_input-Advances :
    (i : ℕ) (parse : Context → Option (ℕ × Context)) (c : Context)
    → buffer_can_read c.session.read_buffer ≡ true
    → Every (Advances i) (parse c)
    → Every (Advances i) (with_input i parse c)
unfolding with_input
with_input-Advances i parse c e h = rw e h

with_output-NotBefore :
    (i : ℕ) (next : Context → Option (ℕ × Context)) (c : Context)
    → i ≤ States.error
    → ((c' : Context) → Every (NotBefore i) (next c'))
    → Every (NotBefore i) (with_output i next c)
with_output-NotBefore i next c low h =
    with_output-Every (NotBefore i) i next c (λ y. omega arith) (λ y. low) (λ b y. omega arith)
      (λ b y. h _)

hello_sent-NotBefore : (c : Context) → Every (NotBefore States.hello_write) (hello_sent c)
unfolding hello_sent
hello_sent-NotBefore c =
    by (c.session.hello.method == no_acceptable_methods)
      (c.session.hello.method == username_password)
  where
    after :
        (login : Bool)
        → States.hello_write ≤ (if login then States.auth_read else States.request_read)
    after true = omega arith
    after false = omega arith

    by :
        (refused login : Bool)
        → Every (NotBefore States.hello_write) (
            if refused
            then some (States.done, c)
            else or_error
                (set_interest_key op_read c)
                (λ c'. some (if login then States.auth_read else States.request_read, c')))
    by true login = omega arith
    by false login =
        or_error-any (NotBefore States.hello_write) (set_interest_key op_read c) _
          (λ d. omega arith) (λ d. after login)

auth_sent-NotBefore : (c : Context) → Every (NotBefore States.auth_write) (auth_sent c)
unfolding auth_sent
auth_sent-NotBefore c =
    or_error-any (NotBefore States.auth_write) (set_interest_key op_read c) _ (λ d. omega arith)
      (λ d. after (d.session.auth.status == 0x00))
  where
    after : (ok : Bool) → States.auth_write ≤ (if ok then States.request_read else States.done)
    after true = omega arith
    after false = omega arith

request_sent-NotBefore : (c : Context) → Every (NotBefore States.request_write) (request_sent c)
unfolding request_sent
request_sent-NotBefore c = by (c.session.request.reply == socks_reply_succeeded)
  where
    by :
        (ok : Bool)
        → Every (NotBefore States.request_write) (
            if ok
            then or_error (set_interest_key op_read c) (λ c'. some (States.copy, c'))
            else some (States.done, c))
    by true =
        or_error-any (NotBefore States.request_write) (set_interest_key op_read c) _
          (λ d. omega arith) (λ d. omega arith)
    by false = omega arith

-- What a handler of the machine in state `i` leaves, with what its callback owes.
abbrev pub Left : (ℕ × Context → Type 0) → ℕ × Machine × Context → Type 0
Left P r = (r.1 ≡ standing r.0) × (r.0 ≤ States.error) × P (r.0, r.2)

module _ (i : ℕ) (P : ℕ × Context → Type 0)
    (moves : (n : ℕ) (c c' : Context) → i ≢ n → P (n, c) → P (n, c')) where
  jump-Left :
      (next : ℕ) (c : Context)
      → P (next, c)
      → Every
          (λ (s : Machine × Context). Left P (next, s.0, s.1))
          (jump (some i) (standing i) next c)
  unfolding jump jump_from
  jump-Left next c h = outside (ltb States.error next) refl
    where
      Q : Machine × Context → Type 0
      Q s = Left P (next, s.0, s.1)

      moved : Option (Machine × Context)
      moved = depart (standing i) i c >>= λ k'.
          arrive (standing i) next k' >>= λ k''. some (standing next, k'')

      stays :
          (b : Bool)
          → (i == next) ≡ b
          → next ≤ States.error
          → Every Q (if b then some (standing i, c) else moved)
      stays true e low = (ap standing ((==_iff i next).0 e), low, h)
      stays false e low =
          let apart : i ≢ next = ground (arith, e) in
          any-Every Q (depart (standing i) i c) _ (λ k'.
            any-Every Q (arrive (standing i) next k') _
              (λ k''. (refl, low, moves next c k'' apart h)))

      outside :
          (b : Bool)
          → ltb States.error next ≡ b
          → Every Q (if b then none else if i == next then some (standing i, c) else moved)
      outside true e = tt
      outside false e = stays (i == next) refl (ground (arith, e))

  handler-Left :
      (event : Callback) (d : StateDefinition Context) (c : Context)
      → get_elem? client_statbl i ≡ some d
      → Every P (fire (event d) c)
      → Every (Left P) (stm_handler event (standing i) c)
  unfolding stm_handler handle_first react
  handler-Left event d c e h =
      subst
        (λ x. Every (Left P) (
          x >>= λ d. fire (event d) c >>= λ r.
          jump (some i) (standing i) r.0 r.1 >>= λ s. some (r.0, s.0, s.1)))
        (sym e)
        (bind-Every P (Left P) (fire (event d) c) _ h (λ r p.
          bind-Every (λ (s : Machine × Context). Left P (r.0, s.0, s.1)) (Left P)
            (jump (some i) (standing i) r.0 r.1) (λ s. some (r.0, s.0, s.1)) (jump-Left r.0 r.1 p)
            (λ s l. l)))

apart-Advances : (i n : ℕ) (c c' : Context) → i ≢ n → Advances i (n, c) → Advances i (n, c')
apart-Advances i n c c' apart (inl later) = inl later
apart-Advances i n c c' apart (inr (e, empty)) = absurd (apart (sym e))

pub read_handler-Left :
    (st : ℕ) (c : Context)
    → is_reading st ≡ true
    → buffer_can_read c.session.read_buffer ≡ true
    → Every (Left (Advances st)) (stm_handler (λ d. d.on_read_ready) (standing st) c)
unfolding hello_read auth_read request_read
read_handler-Left zero c r e =
    handler-Left 0 (Advances 0) (apart-Advances 0) (λ d. d.on_read_ready) _ c refl
      (with_input-Advances 0 hello_parse c e (hello_parse-Advances c))
read_handler-Left (suc (suc zero)) c r e =
    handler-Left 2 (Advances 2) (apart-Advances 2) (λ d. d.on_read_ready) _ c refl
      (with_input-Advances 2 auth_parse c e (auth_parse-Advances c))
read_handler-Left (suc (suc (suc (suc zero)))) c r e =
    handler-Left 4 (Advances 4) (apart-Advances 4) (λ d. d.on_read_ready) _ c refl
      (with_input-Advances 4 request_parse c e (request_parse-Advances c))
read_handler-Left (suc zero) c r e = absurd (ground (arith, r))
read_handler-Left (suc (suc (suc zero))) c r e = absurd (ground (arith, r))
read_handler-Left (suc (suc (suc (suc (suc n))))) c r e = absurd (ground (arith, r))

pub write_handler-Left :
    (st : ℕ) (c : Context)
    → is_writing st ≡ true
    → Every (Left (NotBefore st)) (stm_handler (λ d. d.on_write_ready) (standing st) c)
unfolding hello_write auth_write request_write
write_handler-Left (suc zero) c w =
    handler-Left 1 (NotBefore 1) (λ n c c' a h. h) (λ d. d.on_write_ready) _ c refl
      (with_output-NotBefore 1 hello_sent c (omega arith) hello_sent-NotBefore)
write_handler-Left (suc (suc (suc zero))) c w =
    handler-Left 3 (NotBefore 3) (λ n c c' a h. h) (λ d. d.on_write_ready) _ c refl
      (with_output-NotBefore 3 auth_sent c (omega arith) auth_sent-NotBefore)
write_handler-Left (suc (suc (suc (suc (suc (suc (suc zero))))))) c w =
    handler-Left 7 (NotBefore 7) (λ n c c' a h. h) (λ d. d.on_write_ready) _ c refl
      (with_output-NotBefore 7 request_sent c (omega arith) request_sent-NotBefore)
write_handler-Left zero c w = absurd (ground (arith, w))
write_handler-Left (suc (suc zero)) c w = absurd (ground (arith, w))
write_handler-Left (suc (suc (suc (suc zero)))) c w = absurd (ground (arith, w))
write_handler-Left (suc (suc (suc (suc (suc zero))))) c w = absurd (ground (arith, w))
write_handler-Left (suc (suc (suc (suc (suc (suc zero)))))) c w = absurd (ground (arith, w))
write_handler-Left (suc (suc (suc (suc (suc (suc (suc (suc n)))))))) c w =
    absurd (ground (arith, w))

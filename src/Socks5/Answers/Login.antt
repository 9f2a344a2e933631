-- ===== src/Socks5/Answers/Login.antt =====
-- What AUTH_READ of src/shared/socks5.c makes of the bytes of a login.
use tpe_protos_g.Base.{
  ℕ, ◌≡◌, refl, sym, ap, ap₂, subst, ◌∙◌, arith, Option, some, none, Bool, true, false, [], ◌∷◌,
  Bytes, if◌then◌else◌, ◌>>=◌, c_string, take, length,
}
use tpe_protos_g.Buffer.{Buffer}
use tpe_protos_g.Buffer.Queue.{Holds}
use tpe_protos_g.Metrics.{Metrics, metrics_auth_fail}
use tpe_protos_g.Parsers.Auth.{AuthState, AuthParser, auth_is_done, auth_marshall, final_state}
use tpe_protos_g.Parsers.Auth.Wire.{
  Credentials, refused, partial, given, credentials, Reads, auth_consume-Reads, auth_marshall_lem,
}
use tpe_protos_g.Selector.{Selector, op_write}
use tpe_protos_g.Socks5.Answers.{Ready, interest_set, reply_fits}
use tpe_protos_g.Socks5.Auth.{
  with_auth, auth_read_init, accepts, admit, refuse, auth_process, auth_parse,
}
use tpe_protos_g.Socks5.Lifecycle.{buffer_size}
use tpe_protos_g.Socks5.States
use tpe_protos_g.Socks5.System.{with_read_buffer, with_write_buffer, or_error, set_interest_key}
use tpe_protos_g.Socks5.Types.{Context, Handler}
use tpe_protos_g.Users.{Users, users_check}

-- The session that leaves a login which the table accepts, or not.
abbrev pub Judged : Context → Bool → Bytes → Context → Type 0
Judged c true name c' =
    Holds c'.session.write_buffer buffer_size (1 ∷ 0 ∷ [])
    × (c'.session.auth.status ≡ 0)
    × (c'.session.authenticated_user ≡ take 255 name)
    × (c'.world ≡ c.world)
Judged c false name c' =
    Holds c'.session.write_buffer buffer_size (1 ∷ 1 ∷ [])
    × (c'.session.auth.status ≡ 1)
    × (c'.session.authenticated_user ≡ c.session.authenticated_user)
    × (c'.world.metrics ≡ elim c.world.metrics as (λ x. Option Metrics) [
      | none ↦ none
      | some m ↦ some (metrics_auth_fail m)
    ])

-- What is owed to credentials: the state that follows, and the session in it.
abbrev pub Answers : Users → Context → Credentials → ℕ × Context → Type 0
Answers u c (refused rest) (st, c') =
    (st ≡ States.error)
    × Holds c'.session.read_buffer buffer_size rest
    × Holds c'.session.write_buffer buffer_size []
Answers u c partial (st, c') =
    (st ≡ States.auth_read)
    × Holds c'.session.read_buffer buffer_size []
    × Holds c'.session.write_buffer buffer_size []
Answers u c (given name pass rest) (st, c') =
    (st ≡ States.auth_write)
    × Holds c'.session.read_buffer buffer_size rest
    × Judged c (users_check u (c_string name) (c_string pass)) (c_string name) c'

-- behind the parser, with the interest set
module _ (u : Users) (c : Context) (known : c.world.users ≡ some u)
    (empty : Holds c.session.write_buffer buffer_size []) where
  judge :
      (b : Bool)
      → accepts c.world.users c.session.auth.parser ≡ b
      → (c' : Context) × (auth_process c ≡ some (States.auth_write, c'))
        × (c'.session.read_buffer ≡ c.session.read_buffer)
        × Judged c b (c_string c.session.auth.parser.uname) c'
  unfolding auth_process
  judge true e =
      let d = admit c in
      let (b, same, h) =
        reply_fits (auth_marshall d.session.write_buffer d.session.auth.status) d
          (λ c''. some (States.auth_write, c'')) (1 ∷ 0 ∷ []) empty
          (auth_marshall_lem buffer_size d.session.write_buffer [] 0 empty) in
      (with_write_buffer b d, rw e same, refl, (h, refl, refl, refl))
  judge false e =
      let d = refuse c in
      let (b, same, h) =
        reply_fits (auth_marshall d.session.write_buffer d.session.auth.status) d
          (λ c''. some (States.auth_write, c'')) (1 ∷ 1 ∷ []) empty
          (auth_marshall_lem buffer_size d.session.write_buffer [] 1 empty) in
      (with_write_buffer b d, rw e same, refl, (h, refl, refl, refl))

done_when_final : (st : AuthState) → (auth_is_done st none).0 ≡ final_state st
unfolding auth_is_done
done_when_final st = ground arith

-- behind auth_consume, by its flag and by what auth_is_done says
abbrev goes_on : Context → Bool → Bool → Option (ℕ × Context)
goes_on d flag is_done =
    if flag
    then some (States.error, d)
    else if is_done
    then or_error (set_interest_key op_write d) auth_process
    else some (States.auth_read, d)

abbrev parsed : Context → Buffer → AuthParser → Context
parsed c b q = with_read_buffer b (with_auth (record { parser = q; status = 1 }) c)

-- What the parser and the selector changed is not compared.
as_before :
    (c : Context) (b : Buffer) (q : AuthParser) (sel : Selector Handler ℕ) (verdict : Bool)
    (name : Bytes) (c' : Context)
    → Judged (record (parsed c b q) { selector = sel }) verdict name c'
    → Judged c verdict name c'
as_before c b q sel true name c' j = j
as_before c b q sel false name c' j = j

module _ (u : Users) (xs : Bytes) (c : Context) (known : c.world.users ≡ some u)
    (ready : Ready xs c) where
  answer :
      (said : Credentials) (b : Buffer) (q : AuthParser) (flag : Bool) (left : Bytes)
      → Holds b buffer_size left
      → Reads false said ((q, flag), left)
      → (r : ℕ × Context) × (goes_on (parsed c b q) flag (auth_is_done q.state none).0 ≡ some r)
        × Answers u c said r
  answer (refused rest) b q flag left h (s, f, l) = (
    (States.error, parsed c b q),
    ap (λ t. goes_on (parsed c b q) t (auth_is_done q.state none).0) f,
    (refl, subst (λ t. Holds b buffer_size t) l h, ready.answered),
  )
  answer partial b q flag left h (s, f, l) = (
    (States.auth_read, parsed c b q),
    ap₂ (goes_on (parsed c b q)) f (done_when_final q.state ∙ s),
    (refl, subst (λ t. Holds b buffer_size t) l h, ready.answered),
  )
  answer (given name pass rest) b q flag left h (s, f, l, n, p) =
      let d = parsed c b q in
      let (sel, run) = interest_set op_write d auth_process ready.watched in
      let d' : Context = record d { selector = sel } in
      let verdict = users_check u (c_string name) (c_string pass) in
      let same : accepts c.world.users q ≡ verdict =
        ap (λ t. accepts t q) known ∙ ap₂ (users_check u) n p in
      let (c', e, kept, judged) = judge u d' known ready.answered verdict same in
      (
        (States.auth_write, c'),
        ap₂ (goes_on d) f (done_when_final q.state ∙ ap final_state s) ∙ run ∙ e,
        (
          refl,
          subst (λ t. Holds t buffer_size rest) (sym kept) (subst (λ t. Holds b buffer_size t) l h),
          subst (λ t. Judged c verdict t c') n (as_before c b q sel verdict _ c' judged),
        ),
      )

  -- For a server with a table of users, and a session that arrives in AUTH_READ with its descriptor
  -- registered in a valid selector, any bytes in its read buffer and nothing to send: auth_parse fails
  -- no assert, and does what the credentials of RFC 1929 ask for. It fails for a refusal and waits for
  -- more if they are cut short. Else it goes to AUTH_WRITE with the rest unread: if users_check accepts
  -- the name and the password, status 0 and its reply, with the first 255 bytes of the name noted and
  -- the globals unchanged; if not, status 1 and its reply, with nobody noted and a failure counted.
  pub auth_answers :
      length c.session.auth.parser.uname ≡ 256
      → length c.session.auth.parser.passwd ≡ 256
      → (r : ℕ × Context) × (auth_read_init States.auth_read c >>= auth_parse ≡ some r)
        × Answers u c (credentials xs) r
  unfolding auth_read_init auth_parse
  auth_answers k l =
      let (b, (q, flag), left, e, h, reads) =
        auth_consume-Reads buffer_size c.session.read_buffer c.session.auth.parser false xs
          ready.are_bytes ready.came k l in
      let (r, run, good) = answer (credentials xs) b q flag left h reads in
      (
        r,
        ap (λ m. m >>= λ r. goes_on (parsed c r.0 r.1.0) r.1.1 (auth_is_done r.1.0.state none).0) e
            ∙ run,
        good,
      )

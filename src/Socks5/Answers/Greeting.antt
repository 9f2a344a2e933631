-- ===== src/Socks5/Answers/Greeting.antt =====
-- What HELLO_READ of src/shared/socks5.c makes of the bytes of a greeting.
use tpe_protos_g.Base.{
  ℕ, ◌≡◌, refl, sym, ap, ap₂, subst, ◌∙◌, arith, Option, some, none, Bool, true, false, ◌||◌, ◌==◌,
  [], ◌∷◌, Bytes, if◌then◌else◌, ◌>>=◌,
}
use tpe_protos_g.Buffer.{Buffer}
use tpe_protos_g.Buffer.Queue.{Holds}
use tpe_protos_g.Parsers.Hello.{HelloState, HelloParser, hello_is_done, hello_marshall, final_state}
use tpe_protos_g.Parsers.Hello.Wire.{
  Greeting, refused, partial, offers, greeting, notify_all, Reads, hello_consume-Reads,
  hello_marshall_lem,
}
use tpe_protos_g.Selector.{op_write}
use tpe_protos_g.Socks5.Answers.{Ready, interest_set, reply_fits}
use tpe_protos_g.Socks5.Hello.{
  with_hello, hello_read_init, on_hello_method, auth_required, choose_method, hello_process,
  hello_parse, no_acceptable_methods,
}
use tpe_protos_g.Socks5.Lifecycle.{buffer_size}
use tpe_protos_g.Socks5.States
use tpe_protos_g.Socks5.System.{with_read_buffer, with_write_buffer, or_error, set_interest_key}
use tpe_protos_g.Socks5.Types.{Context, Offered}

abbrev pub is_among : ℕ → Bytes → Bool
is_among m [] = false
is_among m (x ∷ xs) = (x == m) || is_among m xs

-- The method of RFC 1928 that a server takes: the login if it has users, no login if it has none, and
-- else 0xff.
abbrev pub agreed : Bool → Bytes → ℕ
agreed true ms = if is_among 2 ms then 2 else 255
agreed false ms = if is_among 0 ms then 0 else 255

seen :
    (o : Offered) (ms : Bytes)
    → notify_all (some on_hello_method) o ms ≡ record {
      no_auth_offered = o.no_auth_offered || is_among 0 ms;
      user_pass_offered = o.user_pass_offered || is_among 2 ms;
    }
unfolding on_hello_method
seen o [] = ground arith
seen o (m ∷ ms) = ground (arith, seen (on_hello_method o m) ms)

chosen-agreed :
    (required : Bool) (ms : Bytes)
    → choose_method required
        (record { no_auth_offered = is_among 0 ms; user_pass_offered = is_among 2 ms })
      ≡ agreed required ms
unfolding choose_method
chosen-agreed true ms = ground arith
chosen-agreed false ms = ground arith

-- What is owed to a greeting: the state that follows, and the session in it.
abbrev pub Answers : Context → Greeting → ℕ × Context → Type 0
Answers c (refused rest) (st, c') =
    (st ≡ States.error)
    × Holds c'.session.read_buffer buffer_size rest
    × Holds c'.session.write_buffer buffer_size []
Answers c (partial ms) (st, c') =
    (st ≡ States.hello_read)
    × Holds c'.session.read_buffer buffer_size []
    × Holds c'.session.write_buffer buffer_size []
Answers c (offers ms rest) (st, c') =
    (st ≡ States.hello_write)
    × Holds c'.session.read_buffer buffer_size rest
    × Holds c'.session.write_buffer buffer_size (5 ∷ agreed (auth_required c.world.users) ms ∷ [])
    × (c'.session.hello.method ≡ agreed (auth_required c.world.users) ms)

done_when_final : (st : HelloState) → (hello_is_done st none).0 ≡ final_state st
unfolding hello_is_done
done_when_final st = ground arith

-- behind hello_consume, by its flag and by what hello_is_done says
abbrev goes_on : Context → Bool → Bool → Option (ℕ × Context)
goes_on d flag is_done =
    if flag
    then some (States.error, d)
    else if is_done
    then or_error (set_interest_key op_write d) hello_process
    else some (States.hello_read, d)

abbrev parsed : Context → Buffer → HelloParser Offered → Context
parsed c b q =
    with_read_buffer b (with_hello (record { parser = q; method = no_acceptable_methods }) c)

abbrev unseen : Offered
unseen = record { no_auth_offered = false; user_pass_offered = false }

module _ (c : Context) (empty : Holds c.session.write_buffer buffer_size []) where
  choose :
      (m : ℕ)
      → choose_method (auth_required c.world.users) c.session.hello.parser.user_data ≡ m
      → (c' : Context) × (hello_process c ≡ some (States.hello_write, c'))
        × (c'.session.read_buffer ≡ c.session.read_buffer)
        × Holds c'.session.write_buffer buffer_size (5 ∷ m ∷ [])
        × (c'.session.hello.method ≡ m)
  unfolding hello_process
  choose m e =
      let method = choose_method (auth_required c.world.users) c.session.hello.parser.user_data in
      let d = with_hello (record c.session.hello { method = method }) c in
      let (b, same, h) =
        reply_fits (hello_marshall d.session.write_buffer method) d
          (λ c''. some (States.hello_write, c'')) (5 ∷ method ∷ []) empty
          (hello_marshall_lem buffer_size d.session.write_buffer [] method empty) in
      (with_write_buffer b d, same, refl, subst (λ t. Holds b buffer_size (5 ∷ t ∷ [])) e h, e)

module _ (xs : Bytes) (c : Context) (ready : Ready xs c) where
  answer :
      (p : HelloParser Offered) (said : Greeting) (b : Buffer) (q : HelloParser Offered)
      (flag : Bool) (left : Bytes)
      → p.on_authentication_method ≡ some on_hello_method
      → p.user_data ≡ unseen
      → Holds b buffer_size left
      → Reads p false said ((q, flag), left)
      → (r : ℕ × Context) × (goes_on (parsed c b q) flag (hello_is_done q.state none).0 ≡ some r)
        × Answers c said r
  answer p (refused rest) b q flag left m o h (s, f, l) = (
    (States.error, parsed c b q),
    ap (λ t. goes_on (parsed c b q) t (hello_is_done q.state none).0) f,
    (refl, subst (λ t. Holds b buffer_size t) l h, ready.answered),
  )
  answer p (partial ms) b q flag left m o h (s, f, l, n) = (
    (States.hello_read, parsed c b q),
    ap₂ (goes_on (parsed c b q)) f (done_when_final q.state ∙ s),
    (refl, subst (λ t. Holds b buffer_size t) l h, ready.answered),
  )
  answer p (offers ms rest) b q flag left m o h (s, f, l, n) =
      let d = parsed c b q in
      let (sel, run) = interest_set op_write d hello_process ready.watched in
      let d' : Context = record d { selector = sel } in
      let required = auth_required c.world.users in
      let offered : q.user_data
          ≡ record { no_auth_offered = is_among 0 ms; user_pass_offered = is_among 2 ms } =
        n ∙ ap₂ (λ g t. notify_all g t ms) m o ∙ seen unseen ms in
      let picked : choose_method required q.user_data ≡ agreed required ms =
        ap (choose_method required) offered ∙ chosen-agreed required ms in
      let (c', e, kept, sent, method) = choose d' ready.answered (agreed required ms) picked in
      (
        (States.hello_write, c'),
        ap₂ (goes_on d) f (done_when_final q.state ∙ ap final_state s) ∙ run ∙ e,
        (
          refl,
          subst (λ t. Holds t buffer_size rest) (sym kept) (subst (λ t. Holds b buffer_size t) l h),
          sent,
          method,
        ),
      )

  -- For a session that arrives in HELLO_READ with its descriptor registered in a valid selector, any
  -- bytes in its read buffer and nothing to send: hello_parse fails no assert, and does what the
  -- greeting of RFC 1928 asks for. It fails for a refusal and waits for more if it is cut short. Else
  -- it goes to HELLO_WRITE with the rest unread and the reply of the method to send: the login if the
  -- server has users and the client offers it, no login if it has none and the client offers that, and
  -- 0xff otherwise.
  pub hello_answers :
      (r : ℕ × Context) × (hello_read_init States.hello_read c >>= hello_parse ≡ some r)
      × Answers c (greeting xs) r
  unfolding hello_read_init hello_parse
  hello_answers =
      let p : HelloParser Offered = record c.session.hello.parser {
        user_data = unseen;
        on_authentication_method = some on_hello_method;
      } in
      let (b, (q, flag), left, e, h, reads) =
        hello_consume-Reads buffer_size c.session.read_buffer p false xs ready.are_bytes
          ready.came in
      let (r, run, good) = answer p (greeting xs) b q flag left refl refl h reads in
      (
        r,
        ap (λ m. m >>= λ r. goes_on (parsed c r.0 r.1.0) r.1.1 (hello_is_done r.1.0.state none).0) e
            ∙ run,
        good,
      )

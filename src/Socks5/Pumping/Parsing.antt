-- ===== src/Socks5/Pumping/Parsing.antt =====
-- The callbacks that read (src/shared/socks5.c) come to a later state, or have read all that came in.
use tpe_protos_g.Base.{
  ℕ, ◌<◌, ◌≡◌, ◌⊎◌, refl, arith, Bool, true, false, Option, none, some, if◌then◌else◌, Every,
  bind-Every, imp-Every, inl, inr, codes,
}
use tpe_protos_g.Buffer.{Buffer, buffer_can_read}
use tpe_protos_g.Parsers.Auth.{
  AuthState, AuthParser, auth_step, auth_final, auth_consume, auth_is_done,
}
use tpe_protos_g.Parsers.Draining.{Drained, consume-Drained}
use tpe_protos_g.Parsers.Hello.{
  HelloState, HelloParser, hello_step, hello_final, hello_consume, hello_is_done,
}
use tpe_protos_g.Parsers.Request.{
  RequestState, RequestParser, request_step, request_final, request_consume, request_is_done,
}
use tpe_protos_g.Selector.{op_write}
use tpe_protos_g.Socks5.Auth.{with_auth, auth_process, auth_parse}
use tpe_protos_g.Socks5.Hello.{with_hello, hello_process, hello_parse}
use tpe_protos_g.Socks5.Log.{socks5_set_failure}
use tpe_protos_g.Socks5.Request.{with_request, request_process, request_parse}
use tpe_protos_g.Socks5.Pumping.{
  Beyond, Advances, or_error-Beyond, hello_process-Beyond, auth_process-Beyond,
  request_process-Beyond,
}
use tpe_protos_g.Socks5.States
use tpe_protos_g.Socks5.System.{or_error, set_interest_key, with_read_buffer}
use tpe_protos_g.Socks5.Types.{Context, Offered}

-- The three callbacks that read go on alike: a failure, the message that is complete, or more to come.
parsed-Advances :
    (i : ℕ) (errored is_done : Bool) (c : Context) (k : Context → Option (ℕ × Context))
    → i < States.error
    → ((c' : Context) → Every (Beyond i) (k c'))
    → (is_done ≡ true) ⊎ (buffer_can_read c.session.read_buffer ≡ false)
    → Every
        (Advances i)
        (if errored then some (States.error, c) else if is_done then k c else some (i, c))
parsed-Advances i true is_done c k below beyond h = inl below
parsed-Advances i false true c k below beyond h =
    imp-Every (Beyond i) (Advances i) (k c) (beyond c) (λ r l. inl l)
parsed-Advances i false false c k below beyond (inl e) = absurd (cc)
parsed-Advances i false false c k below beyond (inr e) = inr (refl, e)

hello_final_done :
    (st : HelloState) (p : HelloParser Offered) (failed : Bool)
    → p.state ≡ st
    → hello_final (p, failed) ≡ true
    → (hello_is_done st none).0 ≡ true
unfolding hello_is_done
hello_final_done st p failed s e = ground (arith, s, e)

pub hello_parse-Advances : (c : Context) → Every (Advances States.hello_read) (hello_parse c)
unfolding hello_parse hello_consume
hello_parse-Advances c =
    bind-Every (Drained hello_step hello_final) (Advances States.hello_read)
      (hello_consume c.session.read_buffer c.session.hello.parser false) _
      (consume-Drained hello_step hello_final c.session.read_buffer (c.session.hello.parser, false))
      (λ r drained.
        parsed-Advances States.hello_read r.1.1 (hello_is_done r.1.0.state none).0
          (with_read_buffer r.0 (with_hello (record c.session.hello { parser = r.1.0 }) c))
          (λ c'. or_error (set_interest_key op_write c') hello_process) (omega arith)
          (λ c'.
            or_error-Beyond States.hello_read (set_interest_key op_write c') hello_process
              (omega arith) hello_process-Beyond)
          (elim drained [
            | inl e ↦ inl (hello_final_done r.1.0.state r.1.0 r.1.1 refl e)
            | inr e ↦ inr e
          ]))

auth_final_done :
    (st : AuthState) (p : AuthParser) (failed : Bool)
    → p.state ≡ st
    → auth_final (p, failed) ≡ true
    → (auth_is_done st none).0 ≡ true
unfolding auth_is_done
auth_final_done st p failed s e = ground (arith, s, e)

pub auth_parse-Advances : (c : Context) → Every (Advances States.auth_read) (auth_parse c)
unfolding auth_parse auth_consume
auth_parse-Advances c =
    bind-Every (Drained auth_step auth_final) (Advances States.auth_read)
      (auth_consume c.session.read_buffer c.session.auth.parser false) _
      (consume-Drained auth_step auth_final c.session.read_buffer (c.session.auth.parser, false))
      (λ r drained.
        parsed-Advances States.auth_read r.1.1 (auth_is_done r.1.0.state none).0
          (with_read_buffer r.0 (with_auth (record c.session.auth { parser = r.1.0 }) c))
          (λ c'. or_error (set_interest_key op_write c') auth_process) (omega arith)
          (λ c'.
            or_error-Beyond States.auth_read (set_interest_key op_write c') auth_process
              (omega arith) auth_process-Beyond)
          (elim drained [
            | inl e ↦ inl (auth_final_done r.1.0.state r.1.0 r.1.1 refl e)
            | inr e ↦ inr e
          ]))

request_final_done :
    (st : RequestState) (p : RequestParser) (failed : Option Bool)
    → p.state ≡ st
    → request_final (p, failed) ≡ true
    → (request_is_done st none).0 ≡ true
unfolding request_is_done
request_final_done st p failed s e = ground (arith, s, e)

pub request_parse-Advances : (c : Context) → Every (Advances States.request_read) (request_parse c)
unfolding request_parse request_consume
request_parse-Advances c =
    bind-Every (Drained request_step request_final) (Advances States.request_read)
      (request_consume c.session.read_buffer c.session.request.parser (some false)) _
      (consume-Drained request_step request_final c.session.read_buffer
        (c.session.request.parser, some false))
      (λ r drained. by r.1.1 r.0 r.1.0 (elim drained [
        | inl e ↦ inl (request_final_done r.1.0.state r.1.0 r.1.1 refl e)
        | inr e ↦ inr e
      ]))
  where
    parsed : Buffer → RequestParser → Context
    parsed b p = with_read_buffer b (with_request (record c.session.request { parser = p }) c)

    by :
        (failed : Option Bool) (b : Buffer) (p : RequestParser)
        → ((request_is_done p.state none).0 ≡ true) ⊎ (buffer_can_read b ≡ false)
        → Every (Advances States.request_read) (elim failed [
          | some true ↦
              some (States.error, socks5_set_failure (codes "invalid request") (parsed b p))
          | _ ↦
              if (request_is_done p.state none).0
              then request_process (parsed b p)
              else some (States.request_read, parsed b p)
        ])
    by none b p h =
        parsed-Advances States.request_read false (request_is_done p.state none).0 (parsed b p)
          request_process (omega arith) request_process-Beyond h
    by (some false) b p h =
        parsed-Advances States.request_read false (request_is_done p.state none).0 (parsed b p)
          request_process (omega arith) request_process-Beyond h
    by (some true) b p h = inl (omega arith)

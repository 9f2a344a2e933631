-- ===== src/Socks5/Answers.antt =====
-- What the server answers to a greeting and to a login (src/shared/socks5.c): the session before the
-- bytes are parsed, and the steps behind the parser.
pub mod Greeting
pub mod Login
use tpe_protos_g.Base.{
  ℕ, ◌-◌, ◌≡◌, ap, subst, ◌∙◌, arith, Option, some, Bool, true, false, [], ◌∷◌, ◌++◌, ltb, pos,
  negsuc, ℤ, Bytes, AllBytes, if◌then◌else◌, ◌>>=◌,
}
use tpe_protos_g.Buffer.{Buffer}
use tpe_protos_g.Buffer.Queue.{Holds, write_empty}
use tpe_protos_g.Selector.{Selector}
use tpe_protos_g.Socks5.Lifecycle.{buffer_size}
use tpe_protos_g.Socks5.States
use tpe_protos_g.Socks5.System.{
  or_error, marshalled, set_interest_key, with_write_buffer, is_negative,
}
use tpe_protos_g.Socks5.Types.{Context, Handler}
use tpe_protos_g.Socks5.Wiring.{Watches, set_interest-Sets}

-- A registered descriptor, some bytes that came in, and nothing to send.
pub record Ready (xs : Bytes) (c : Context) : Type 0 where
  pub watched : Watches c.selector c.fd
  pub are_bytes : AllBytes xs
  pub came : Holds c.session.read_buffer buffer_size xs
  pub answered : Holds c.session.write_buffer buffer_size []

-- The interest is set, and what follows runs.
pub interest_set :
    (op : ℕ) (c : Context) (k : Context → Option (ℕ × Context))
    → Watches c.selector c.fd
    → (s : Selector Handler ℕ) × (or_error (set_interest_key op c) k
        ≡ k (record c { selector = s }))
interest_set op c k w =
    let (s, e, sets) = set_interest-Sets c c.fd op w in (s, ap (λ m. or_error m k) e)

-- A reply of two bytes fits into an empty buffer.
pub reply_fits :
    (m : Option (ℤ × Buffer)) (c : Context) (k : Context → Option (ℕ × Context)) (reply : Bytes)
    → Holds c.session.write_buffer buffer_size []
    → ((b : Buffer) × (m
          ≡ some (
            if ltb (c.session.write_buffer.limit - c.session.write_buffer.write) 2
                then negsuc 0
                else pos 0,
            b,
          ))
        × Holds b buffer_size (
            if ltb (c.session.write_buffer.limit - c.session.write_buffer.write) 2
            then []
            else reply))
    → (b : Buffer) × (marshalled m c k ≡ k (with_write_buffer b c)) × Holds b buffer_size reply
reply_fits m c k reply h (b, e, h') =
    let room : ltb (c.session.write_buffer.limit - c.session.write_buffer.write) 2 ≡ false =
      ground (arith, write_empty c.session.write_buffer h, h.capacity) in
    (
      b,
      ap (λ m. marshalled m c k) (e ∙ ap (λ t. some (if t then negsuc 0 else pos 0, b)) room),
      subst (λ t. Holds b buffer_size (if t then [] else reply)) room h',
    )

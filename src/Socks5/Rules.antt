-- ===== src/Socks5/Rules.antt =====
-- What holds of every result of the steps that the callbacks of src/shared/socks5.c share.
use tpe_protos_g.Base.{
  ℕ, Bool, true, false, Option, some, if◌then◌else◌, Every, bind-Every, any-Every, Bool-cases, inl,
  inr, ℤ,
}
use tpe_protos_g.Buffer.{Buffer, buffer_can_read}
use tpe_protos_g.Socks5.States
use tpe_protos_g.Socks5.System.{
  or_error, marshalled, with_write_buffer, with_read_buffer, with_system, is_negative, with_input,
  with_output, recv_into, send_from, Moved, later, broken, moved,
}
use tpe_protos_g.Socks5.Types.{Context, System}

module _ (Q : ℕ × Context → Type 0) where
  pub or_error-Every :
      (P : Context → Type 0) (m : Option (Bool × Context)) (k : Context → Option (ℕ × Context))
      → Every (λ (r : Bool × Context). P r.1) m
      → ((c : Context) → P c → Q (States.error, c))
      → ((c : Context) → P c → Every Q (k c))
      → Every Q (or_error m k)
  or_error-Every P m k h broke goes =
      bind-Every (λ (r : Bool × Context). P r.1) Q m
        (λ r. if r.0 then k r.1 else some (States.error, r.1)) h (λ r p. chosen r.0 r.1 p)
    where
      chosen : (b : Bool) (c : Context) → P c → Every Q (if b then k c else some (States.error, c))
      chosen true c p = goes c p
      chosen false c p = broke c p

  pub marshalled-Every :
      (m : Option (ℤ × Buffer)) (c : Context) (k : Context → Option (ℕ × Context))
      → ((w : Buffer) → Q (States.error, with_write_buffer w c))
      → ((w : Buffer) → Every Q (k (with_write_buffer w c)))
      → Every Q (marshalled m c k)
  marshalled-Every m c k broke goes =
      any-Every Q m
        (λ r.
          let c' = with_write_buffer r.1 c in
          if is_negative r.0 then some (States.error, c') else k c')
        (λ r. chosen (is_negative r.0) r.1)
    where
      chosen :
          (b : Bool) (w : Buffer)
          → Every Q
              (if b then some (States.error, with_write_buffer w c) else k (with_write_buffer w c))
      chosen true w = broke w
      chosen false w = goes w

  pub with_input-Every :
      (state : ℕ) (parse : Context → Option (ℕ × Context)) (c : Context)
      → ((y : System) → Q (state, with_system y c))
      → ((y : System) → Q (States.error, with_system y c))
      → Every Q (parse c)
      → ((b : Buffer) (y : System) → Every Q (parse (with_read_buffer b (with_system y c))))
      → Every Q (with_input state parse c)
  unfolding with_input
  with_input-Every state parse c stays broke here there =
      elim (Bool-cases (buffer_can_read c.session.read_buffer)) [
        | inl some_left ↦ rw some_left here
        | inr empty ↦ rw empty (
            any-Every Q (recv_into c.fd c.session.read_buffer c.system)
              (λ r. elim r.0 [
                | later ↦ some (state, with_system r.1 c)
                | broken ↦ some (States.error, with_system r.1 c)
                | moved b ↦ parse (with_read_buffer b (with_system r.1 c))
              ])
              (λ r. by r.0 r.1))
      ]
    where
      by :
          (m : Moved) (y : System)
          → Every Q (elim m [
            | later ↦ some (state, with_system y c)
            | broken ↦ some (States.error, with_system y c)
            | moved b ↦ parse (with_read_buffer b (with_system y c))
          ])
      by later y = stays y
      by broken y = broke y
      by (moved b) y = there b y

  pub with_output-Every :
      (state : ℕ) (next : Context → Option (ℕ × Context)) (c : Context)
      → ((y : System) → Q (state, with_system y c))
      → ((y : System) → Q (States.error, with_system y c))
      → ((b : Buffer) (y : System) → Q (state, with_write_buffer b (with_system y c)))
      → ((b : Buffer) (y : System) → Every Q (next (with_write_buffer b (with_system y c))))
      → Every Q (with_output state next c)
  unfolding with_output
  with_output-Every state next c stays broke partly all =
      any-Every Q (send_from c.fd c.session.write_buffer c.system)
        (λ r. elim r.0 [
          | later ↦ some (state, with_system r.1 c)
          | broken ↦ some (States.error, with_system r.1 c)
          | moved b ↦
              let c' = with_write_buffer b (with_system r.1 c) in
              if buffer_can_read b then some (state, c') else next c'
        ])
        (λ r. by r.0 r.1)
    where
      rest :
          (more : Bool) (b : Buffer) (y : System)
          → Every Q (
              if more
              then some (state, with_write_buffer b (with_system y c))
              else next (with_write_buffer b (with_system y c)))
      rest true b y = partly b y
      rest false b y = all b y

      by :
          (m : Moved) (y : System)
          → Every Q (elim m [
            | later ↦ some (state, with_system y c)
            | broken ↦ some (States.error, with_system y c)
            | moved b ↦
                let c' = with_write_buffer b (with_system y c) in
                if buffer_can_read b then some (state, c') else next c'
          ])
      by later y = stays y
      by broken y = broke y
      by (moved b) y = rest (buffer_can_read b) b y

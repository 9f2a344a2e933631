-- ===== src/Parsers/Hello.antt =====
-- src/shared/hello.c and hello.h: the parser of the client's greeting, and the reply.
--
-- The callback `on_authentication_method` and its `data` are fields, as in the struct; the callback
-- returns the new value of what `data` points to. The out parameter `*error` is the pair's second
-- part.
pub mod Wire
use tpe_protos_g.Base.{
  ℕ, ◌+◌, ◌-◌, Bool, true, false, Option, none, some, [], ◌∷◌, ltb, ◌==◌, not, ◌||◌, if◌then◌else◌,
  ◌>>=◌, ◌>>◌, ℤ, pos, negsuc, Bytes, pred8, set,
}
use tpe_protos_g.Buffer.{Buffer, buffer_write_ptr, buffer_write_adv}
use tpe_protos_g.Parsers.Consume.{consume}

abbrev pub socks_version : ℕ
socks_version = 0x05

pub data HelloState : Type 0 where
  version nmethods methods done error : HelloState

pub record HelloParser (D : Type 0) : Type 0 where
  pub on_authentication_method : Option (D → ℕ → D)
  pub user_data : D
  pub state : HelloState
  pub remaining : ℕ

abbrev pub hello_parser_init : {D : Type 0} → HelloParser D → HelloParser D
hello_parser_init p = record p { state = HelloState.version; remaining = 0 }

abbrev pub final_state : HelloState → Bool
final_state HelloState.done = true
final_state HelloState.error = true
final_state _ = false

module _ {D : Type 0} where
  -- the call of the callback, if there is one
  abbrev pub notify : Option (D → ℕ → D) → D → ℕ → D
  notify none d byte = d
  notify (some f) d byte = f d byte

  -- the `switch` of the loop
  unfoldable pub step_in : HelloState → HelloParser D × Bool → ℕ → HelloParser D × Bool
  step_in HelloState.version (p, failed) byte =
      if not (byte == socks_version)
      then (record p { state = HelloState.error }, true)
      else (record p { state = HelloState.nmethods }, failed)
  step_in HelloState.nmethods (p, failed) byte =
      if byte == 0
      then (record p { state = HelloState.error }, true)
      else (record p { remaining = byte; state = HelloState.methods }, failed)
  step_in HelloState.methods (p, failed) byte =
      let p' = record p {
        user_data = notify p.on_authentication_method p.user_data byte;
        remaining = pred8 p.remaining;
      } in
      (if p'.remaining == 0 then record p' { state = HelloState.done } else p', failed)
  step_in HelloState.done r byte = r
  step_in HelloState.error r byte = r

  abbrev pub hello_step : HelloParser D × Bool → ℕ → HelloParser D × Bool
  hello_step r byte = step_in r.0.state r byte

  abbrev pub hello_final : HelloParser D × Bool → Bool
  hello_final r = final_state r.0.state

  unfoldable pub hello_consume :
      Buffer → HelloParser D → Bool → Option (Buffer × (HelloParser D × Bool))
  hello_consume b p failed = consume hello_step hello_final b (p, failed)

-- the result, and what is left in `*error` if that is not NULL
unfoldable pub hello_is_done : HelloState → Option Bool → Bool × Option Bool
hello_is_done HelloState.error none = (true, none)
hello_is_done HelloState.error (some _) = (true, some true)
hello_is_done HelloState.done failed = (true, failed)
hello_is_done _ failed = (false, failed)

-- The status and the buffer; -1 is `negsuc 0`.
unfoldable pub hello_marshall : Buffer → ℕ → Option (ℤ × Buffer)
hello_marshall b method = buffer_write_ptr b >>= λ w.
    if ltb w.1 2
    then some (negsuc 0, b)
    else let st = set (set b.store w.0 socks_version) (w.0 + 1) method in
      buffer_write_adv (record b { store = st }) (pos 2) >>= λ b'. some (pos 0, b')

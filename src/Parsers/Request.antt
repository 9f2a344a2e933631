-- ===== src/Parsers/Request.antt =====
-- src/shared/request.c, request.h and socks5.h: the parser of the SOCKS5 request, and the reply.
--
-- The struct behind the parser's pointer `request` is a field of the parser. The union of the three
-- addresses is its memory, 256 bytes. The out parameter `error` is NULL (`none`) or points to a flag.
mod Address
pub mod Wire
pub mod Reading
use tpe_protos_g.Base.{
  ℕ, ◌+◌, ◌-◌, ◌*◌, ◌%◌, ◌^◌, Bool, true, false, Option, none, some, List, [], ◌∷◌, ltb, leb, ◌==◌,
  not, ◌&&◌, if◌then◌else◌, ◌>>=◌, ◌>>◌, ℤ, pos, negsuc, Bytes, pred8, suc8, set, bit_or,
}
use tpe_protos_g.Buffer.{Buffer, buffer_write_ptr, buffer_write_adv, blit}
use tpe_protos_g.Parsers.Consume.{consume}

abbrev pub socks_cmd_connect : ℕ
socks_cmd_connect = 0x01

abbrev pub socks_atyp_ipv4 : ℕ
socks_atyp_ipv4 = 0x01

abbrev pub socks_atyp_fqdn : ℕ
socks_atyp_fqdn = 0x03

abbrev pub socks_atyp_ipv6 : ℕ
socks_atyp_ipv6 = 0x04

abbrev pub max_fqdn_len : ℕ
max_fqdn_len = 255

pub data RequestState : Type 0 where
  version cmd rsv atyp dst_addr dst_port done error : RequestState
  error_unsupported_atyp error_unsupported_cmd : RequestState

pub record RequestAddr : Type 0 where
  pub type : ℕ
  pub bytes : Bytes

pub record Socks5Request : Type 0 where
  pub cmd : ℕ
  pub dest_addr : RequestAddr
  pub dest_port : ℕ

pub record RequestParser : Type 0 where
  pub request : Socks5Request
  pub state : RequestState
  pub remaining : ℕ
  pub read : ℕ

abbrev pub request_parser_init : RequestParser → RequestParser
request_parser_init p = record p { state = RequestState.version; remaining = 0; read = 0 }

-- `if (error != NULL) *error = true;`
abbrev pub raise : Option Bool → Option Bool
raise none = none
raise (some _) = some true

abbrev with_addr : RequestParser → RequestAddr → RequestParser
with_addr p a = record p { request = record p.request { dest_addr = a } }

-- `case request_atyp`
unfoldable pub read_atyp : RequestParser → ℕ → RequestParser
read_atyp p byte =
    let p' = record (with_addr p (record p.request.dest_addr { type = byte })) { read = 0 } in
    if byte == socks_atyp_ipv4
    then record p' { remaining = 4; state = RequestState.dst_addr }
    else if byte == socks_atyp_ipv6
    then record p' { remaining = 16; state = RequestState.dst_addr }
    else if byte == socks_atyp_fqdn
    then record p' { remaining = 0; state = RequestState.dst_addr }
    else record p' { state = RequestState.error_unsupported_atyp }

-- a byte of the address goes to `[p->read++]` of the union
abbrev pub store_byte : RequestParser → ℕ → RequestParser
store_byte p byte =
    let a = p.request.dest_addr in
    record (with_addr p (record a { bytes = set a.bytes p.read byte })) { read = suc8 p.read }

-- `if (--p->remaining == 0)`, for an address of fixed length
abbrev pub count_down : RequestParser → RequestParser
count_down p =
    let p' = record p { remaining = pred8 p.remaining } in
    if p'.remaining == 0 then record p' { state = RequestState.dst_port; read = 0 } else p'

-- the same for a name, which gets a NUL behind its last byte
abbrev pub count_down_name : RequestParser → RequestParser
count_down_name p =
    let p' = record p { remaining = pred8 p.remaining } in
    let a = p'.request.dest_addr in
    if p'.remaining == 0
    then record (with_addr p' (record a { bytes = set a.bytes p'.read 0 })) {
      state = RequestState.dst_port;
      read = 0;
    }
    else p'

-- `case request_dst_addr`
unfoldable pub read_addr : RequestParser × Option Bool → ℕ → RequestParser × Option Bool
read_addr (p, failed) byte =
    let type = p.request.dest_addr.type in
    if type == socks_atyp_fqdn && p.remaining == 0
    then (if byte == 0
        then (record p { state = RequestState.error }, raise failed)
        else (record p { remaining = byte; read = 0 }, failed))
    else if type == socks_atyp_ipv4
    then (count_down (store_byte p byte), failed)
    else if type == socks_atyp_ipv6
    then (count_down (store_byte p byte), failed)
    else if leb max_fqdn_len p.read
    then (record p { state = RequestState.error }, raise failed)
    else (count_down_name (store_byte p byte), failed)

-- `case request_dst_port`; the port is a `uint16_t`.
unfoldable pub read_port : RequestParser → ℕ → RequestParser
read_port p byte =
    if p.read == 0
    then record p {
      request = record p.request { dest_port = byte * 2 ^ 8 % 2 ^ 16 };
      read = suc8 p.read;
    }
    else record p {
      request = record p.request { dest_port = bit_or p.request.dest_port byte };
      state = RequestState.done;
      read = 0;
    }

-- the `switch` of the loop
unfoldable pub step_in :
    RequestState → RequestParser × Option Bool → ℕ → RequestParser × Option Bool
unfolding read_atyp read_addr read_port
step_in RequestState.version (p, failed) byte =
    if not (byte == 0x05)
    then (record p { state = RequestState.error }, raise failed)
    else (record p { state = RequestState.cmd }, failed)
step_in RequestState.cmd (p, failed) byte =
    let p' = record p { request = record p.request { cmd = byte } } in
    (
      if not (byte == socks_cmd_connect)
          then record p' { state = RequestState.error_unsupported_cmd }
          else record p' { state = RequestState.rsv },
      failed,
    )
step_in RequestState.rsv (p, failed) byte = (record p { state = RequestState.atyp }, failed)
step_in RequestState.atyp (p, failed) byte = (read_atyp p byte, failed)
step_in RequestState.dst_addr r byte = read_addr r byte
step_in RequestState.dst_port (p, failed) byte = (read_port p byte, failed)
step_in _ r byte = r

abbrev pub request_step : RequestParser × Option Bool → ℕ → RequestParser × Option Bool
request_step r byte = step_in r.0.state r byte

abbrev pub final_state : RequestState → Bool
final_state RequestState.done = true
final_state RequestState.error = true
final_state RequestState.error_unsupported_atyp = true
final_state RequestState.error_unsupported_cmd = true
final_state _ = false

abbrev pub request_final : RequestParser × Option Bool → Bool
request_final r = final_state r.0.state

unfoldable pub request_consume :
    Buffer → RequestParser → Option Bool → Option (Buffer × (RequestParser × Option Bool))
request_consume b p failed = consume request_step request_final b (p, failed)

-- the result, and what is left in `*error` if that is not NULL
unfoldable pub request_is_done : RequestState → Option Bool → Bool × Option Bool
request_is_done RequestState.done failed = (true, failed)
request_is_done RequestState.error failed = (true, raise failed)
request_is_done RequestState.error_unsupported_atyp failed = (true, failed)
request_is_done RequestState.error_unsupported_cmd failed = (true, failed)
request_is_done _ failed = (false, failed)

-- the ten bytes of the reply: BND.ADDR is 0.0.0.0 and BND.PORT is 0
abbrev pub reply_bytes : ℕ → Bytes
reply_bytes reply = 0x05 ∷ reply ∷ 0x00 ∷ socks_atyp_ipv4 ∷ 0 ∷ 0 ∷ 0 ∷ 0 ∷ 0 ∷ 0 ∷ []

-- The result and the buffer; -1 is `negsuc 0`.
unfoldable pub request_marshall : Buffer → ℕ → Option (ℤ × Buffer)
request_marshall b reply = buffer_write_ptr b >>= λ w.
    if ltb w.1 10
    then some (negsuc 0, b)
    else buffer_write_adv (record b { store = blit b.store w.0 (reply_bytes reply) }) (pos 10)
      >>= λ b'. some (pos 0, b')

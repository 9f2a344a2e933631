-- ===== src/Parsers/Request/Wire.antt =====
-- The request on the wire (RFC 1928, sections 4 and 5), as src/shared/request.c reads it.
use tpe_protos_g.Base.{
  ◌≢◌, ◌⊎◌, ℕ, ◌+◌, ◌*◌, ◌≡◌, Option, false, Bool, [], ◌∷◌, ltb, ◌==◌, if◌then◌else◌, take, drop,
  Bytes, length, c_string,
}
use tpe_protos_g.Parsers.Request.{RequestState, RequestAddr, RequestParser, final_state, raise}

-- What the bytes ask for.
pub data Request : Type 0 where
  refused : Bytes → Request
  bad_cmd : ℕ → Bytes → Request
  bad_atyp : ℕ → Bytes → Request
  partial : Request
  asks : ℕ → Bytes → ℕ → Bytes → Request

abbrev pub port_of : ℕ → Bytes → Bytes → Request
port_of type addr [] = partial
port_of type addr (hi ∷ []) = partial
port_of type addr (hi ∷ lo ∷ rest) = asks type addr (hi * 256 + lo) rest

abbrev pub address_of : ℕ → ℕ → Bytes → Request
address_of type n xs = if ltb (length xs) n then partial else port_of type (take n xs) (drop n xs)

-- a name, behind its length
abbrev pub name_of : Bytes → Request
name_of [] = partial
name_of (n ∷ xs) = if n == 0 then refused xs else address_of 0x03 n xs

abbrev pub typed : Bytes → Request
typed [] = partial
typed (t ∷ xs) =
    if t == 0x01
    then address_of t 4 xs
    else if t == 0x04
    then address_of t 16 xs
    else if t == 0x03
    then name_of xs
    else bad_atyp t xs

-- The reserved byte may be anything.
abbrev pub commanded : Bytes → Request
commanded [] = partial
commanded (c ∷ []) = if c == 0x01 then partial else bad_cmd c []
commanded (c ∷ rsv ∷ xs) = if c == 0x01 then typed xs else bad_cmd c (rsv ∷ xs)

abbrev pub request_of : Bytes → Request
request_of [] = partial
request_of (v ∷ xs) = if v == 0x05 then commanded xs else refused xs

-- The address in the union: its bytes, and for a name also the C string.
pub record Stored (a : RequestAddr) (type : ℕ) (addr : Bytes) : Type 0 where
  pub same_type : a.type ≡ type
  pub same_bytes : take (length addr) a.bytes ≡ addr
  pub same_name : (type ≢ 0x03) ⊎ (c_string a.bytes ≡ c_string addr)

-- What the parser owes to a request: its state, its flag, the fields, and what it leaves unread.
abbrev pub Reads : Option Bool → Request → (RequestParser × Option Bool) × Bytes → Type 0
Reads failed (refused rest) ((q, flag), left) =
    (q.state ≡ RequestState.error) × (flag ≡ raise failed) × (left ≡ rest)
Reads failed (bad_cmd c rest) ((q, flag), left) =
    (q.state ≡ RequestState.error_unsupported_cmd)
    × (q.request.cmd ≡ c)
    × (flag ≡ failed)
    × (left ≡ rest)
Reads failed (bad_atyp t rest) ((q, flag), left) =
    (q.state ≡ RequestState.error_unsupported_atyp) × (flag ≡ failed) × (left ≡ rest)
Reads failed partial ((q, flag), left) =
    (final_state q.state ≡ false) × (flag ≡ failed) × (left ≡ [])
Reads failed (asks type addr port rest) ((q, flag), left) =
    (q.state ≡ RequestState.done)
    × (q.request.cmd ≡ 0x01)
    × Stored q.request.dest_addr type addr
    × (q.request.dest_port ≡ port)
    × (flag ≡ failed)
    × (left ≡ rest)

-- ===== src/Parsers/Request/Reading.antt =====
-- request_consume and request_marshall (src/shared/request.c) against the request on the wire.
use tpe_protos_g.Base.{
  ℕ, zero, suc, ◌-◌, ◌≡◌, refl, arith, Option, some, Bool, [], ◌∷◌, ◌++◌, ltb, ◌==◌, if◌then◌else◌,
  Bool-cases, append_assoc, ◌⊎◌, inl, inr, pred8, take, drop, pos, negsuc, Bytes, AllBytes, length,
  set, join_bytes,
}
use tpe_protos_g.Buffer.{Buffer}
use tpe_protos_g.Buffer.Queue.{Holds, filled, write_adv-Holds}
use tpe_protos_g.Parsers.Consume.{feed, consume-feed}
use tpe_protos_g.Parsers.Request.{
  RequestState, RequestAddr, RequestParser, request_parser_init, step_in, request_step,
  request_final, request_consume, request_marshall, reply_bytes, store_byte,
}
use tpe_protos_g.Parsers.Request.Address.{
  Copying, Copying-start, Copying-next, Copying-last, Copying-name,
}
use tpe_protos_g.Parsers.Request.Wire.{
  partial, port_of, name_of, typed, commanded, request_of, Stored, Reads,
}

abbrev run : Option Bool → RequestParser → Bytes → (RequestParser × Option Bool) × Bytes
run failed p xs = feed request_step request_final (p, failed) xs

feed_port :
    (failed : Option Bool) (p : RequestParser) (type : ℕ) (addr xs : Bytes)
    → AllBytes xs
    → p.state ≡ RequestState.dst_port
    → p.read ≡ 0
    → p.request.cmd ≡ 0x01
    → Stored p.request.dest_addr type addr
    → Reads failed (port_of type addr xs) (run failed p xs)
unfolding step_in
feed_port failed p type addr [] a s z c k = ground arith
feed_port failed p type addr (hi ∷ []) a s z c k = ground arith
feed_port failed p type addr (hi ∷ lo ∷ rest) a s z c k = ground (arith, join_bytes hi lo a.1.0)

-- an IPv4 or IPv6 address
feed_fixed :
    (failed : Option Bool) (p : RequestParser) (type : ℕ) (acc : Bytes) (r : ℕ) (xs : Bytes)
    → AllBytes xs
    → p.state ≡ RequestState.dst_addr
    → p.request.cmd ≡ 0x01
    → p.request.dest_addr.type ≡ type
    → (type ≡ 0x01) ⊎ (type ≡ 0x04)
    → Copying p.request.dest_addr.bytes p.read p.remaining r acc
    → Reads failed
        (if ltb (length xs) (suc r)
          then partial
          else port_of type (acc ++ take (suc r) xs) (drop (suc r) xs))
        (run failed p xs)
unfolding step_in
feed_fixed failed p type acc r [] a s c e t f = ground arith
feed_fixed failed p type acc zero (x ∷ xs) a s c e t f =
    let q : RequestParser = store_byte p x in
    let p' : RequestParser = record q {
      remaining = pred8 p.remaining;
      state = RequestState.dst_port;
      read = 0;
    } in
    let stored : Stored p'.request.dest_addr type (acc ++ x ∷ []) = record {
      same_type = e;
      same_bytes = Copying-last p.request.dest_addr.bytes p.read p.remaining acc x f;
      same_name = inl (λ n. ground arith);
    } in
    ground (arith, feed_port failed p' type (acc ++ x ∷ []) xs a.1 refl refl c stored)
feed_fixed failed p type acc (suc r) (x ∷ xs) a s c e t f =
    let q : RequestParser = store_byte p x in
    let p' : RequestParser = record q { remaining = pred8 p.remaining } in
    ground (
      arith,
      feed_fixed failed p' type (acc ++ x ∷ []) r xs a.1 s c e t
          (Copying-next p.request.dest_addr.bytes p.read p.remaining r acc x f),
      append_assoc acc (x ∷ []) (take (suc r) xs),
    )

-- the bytes of a name, behind the length byte
feed_name :
    (failed : Option Bool) (p : RequestParser) (acc : Bytes) (r : ℕ) (xs : Bytes)
    → AllBytes xs
    → p.state ≡ RequestState.dst_addr
    → p.request.cmd ≡ 0x01
    → p.request.dest_addr.type ≡ 0x03
    → Copying p.request.dest_addr.bytes p.read p.remaining r acc
    → Reads failed
        (if ltb (length xs) (suc r)
          then partial
          else port_of 0x03 (acc ++ take (suc r) xs) (drop (suc r) xs))
        (run failed p xs)
unfolding step_in
feed_name failed p acc r [] a s c e f = ground arith
feed_name failed p acc zero (x ∷ xs) a s c e f =
    let q : RequestParser = store_byte p x in
    let addr : RequestAddr = record q.request.dest_addr {
      bytes = set q.request.dest_addr.bytes q.read 0;
    } in
    let p' : RequestParser = record q {
      request = record q.request { dest_addr = addr };
      remaining = pred8 p.remaining;
      state = RequestState.dst_port;
      read = 0;
    } in
    let (bytes, text) = Copying-name p.request.dest_addr.bytes p.read p.remaining acc x f in
    let stored : Stored addr 0x03 (acc ++ x ∷ []) = record {
      same_type = e;
      same_bytes = bytes;
      same_name = inr text;
    } in
    ground (arith, feed_port failed p' 0x03 (acc ++ x ∷ []) xs a.1 refl refl c stored)
feed_name failed p acc (suc r) (x ∷ xs) a s c e f =
    let q : RequestParser = store_byte p x in
    let p' : RequestParser = record q { remaining = pred8 p.remaining } in
    ground (
      arith,
      feed_name failed p' (acc ++ x ∷ []) r xs a.1 s c e
          (Copying-next p.request.dest_addr.bytes p.read p.remaining r acc x f),
      append_assoc acc (x ∷ []) (take (suc r) xs),
    )

abbrev addressed : RequestParser → ℕ → ℕ → RequestParser
addressed p t n = record p {
  request = record p.request { dest_addr = record p.request.dest_addr { type = t } };
  read = 0;
  remaining = n;
  state = RequestState.dst_addr;
}

feed_name_of :
    (failed : Option Bool) (p : RequestParser) (xs : Bytes)
    → AllBytes xs
    → p.state ≡ RequestState.dst_addr
    → p.remaining ≡ 0
    → p.request.cmd ≡ 0x01
    → p.request.dest_addr.type ≡ 0x03
    → length p.request.dest_addr.bytes ≡ 256
    → Reads failed (name_of xs) (run failed p xs)
unfolding step_in
feed_name_of failed p [] a s z c e l = ground arith
feed_name_of failed p (zero ∷ xs) a s z c e l = ground arith
feed_name_of failed p (suc n ∷ xs) a s z c e l =
    let p' : RequestParser = record p { remaining = suc n; read = 0 } in
    ground (
      arith,
      feed_name failed p' [] n xs a.1 s c e
          (Copying-start p.request.dest_addr.bytes n l (omega arith)),
    )

feed_typed :
    (failed : Option Bool) (p : RequestParser) (xs : Bytes)
    → AllBytes xs
    → p.state ≡ RequestState.atyp
    → p.request.cmd ≡ 0x01
    → length p.request.dest_addr.bytes ≡ 256
    → Reads failed (typed xs) (run failed p xs)
unfolding step_in
feed_typed failed p [] a s c l = ground arith
feed_typed failed p (t ∷ xs) a s c l =
    let union : Bytes = p.request.dest_addr.bytes in
    let four = λ (e : t ≡ 0x01).
      feed_fixed failed (addressed p t 4) t [] 3 xs a.1 refl c refl (inl e)
        (Copying-start union 3 l (omega arith)) in
    let sixteen = λ (e : t ≡ 0x04).
      feed_fixed failed (addressed p t 16) t [] 15 xs a.1 refl c refl (inr e)
        (Copying-start union 15 l (omega arith)) in
    let name = λ (e : t ≡ 0x03). feed_name_of failed (addressed p t 0) xs a.1 refl refl c e l in
    elim (Bool-cases (t == 0x01)) [
      | inl e ↦ ground (arith, e, four (ground arith))
      | inr n ↦ elim (Bool-cases (t == 0x04)) [
        | inl e ↦ ground (arith, n, e, sixteen (ground arith))
        | inr m ↦ elim (Bool-cases (t == 0x03)) [
          | inl e ↦ ground (arith, n, m, e, name (ground arith))
          | inr k ↦ ground (arith, n, m, k)
        ]
      ]
    ]

feed_commanded :
    (failed : Option Bool) (p : RequestParser) (xs : Bytes)
    → AllBytes xs
    → p.state ≡ RequestState.cmd
    → length p.request.dest_addr.bytes ≡ 256
    → Reads failed (commanded xs) (run failed p xs)
unfolding step_in
feed_commanded failed p [] a s l = ground arith
feed_commanded failed p (c ∷ []) a s l = ground arith
feed_commanded failed p (c ∷ rsv ∷ xs) a s l =
    let p' : RequestParser = record p {
      request = record p.request { cmd = c };
      state = RequestState.atyp;
    } in
    elim (Bool-cases (c == 0x01)) [
      | inl e ↦ ground (arith, e, feed_typed failed p' xs a.1.1 refl (ground arith) l)
      | inr n ↦ ground (arith, n)
    ]

feed_request :
    (failed : Option Bool) (p : RequestParser) (xs : Bytes)
    → AllBytes xs
    → length p.request.dest_addr.bytes ≡ 256
    → Reads failed (request_of xs) (run failed (request_parser_init p) xs)
unfolding step_in
feed_request failed p [] a l = ground arith
feed_request failed p (v ∷ xs) a l =
    let p' : RequestParser = record p { state = RequestState.cmd; remaining = 0; read = 0 } in
    ground (arith, feed_commanded failed p' xs a.1 refl l)

-- Whatever bytes a buffer holds, request_consume on a fresh parser ends without a failed assert, and
-- reads from them what the request says: a wrong version or an empty name is refused, a command
-- other than CONNECT and an unknown address type end in the two states that name them, a request
-- that is cut short waits for more, and else the parser is done and holds the address type, the
-- address (for a name also as a C string), and the port with its high byte first. It leaves the
-- bytes behind the request. The union starts with any contents.
pub request_consume-Reads :
    (limit : ℕ) (b : Buffer) (p : RequestParser) (failed : Option Bool) (xs : Bytes)
    → AllBytes xs
    → Holds b limit xs
    → length p.request.dest_addr.bytes ≡ 256
    → (b' : Buffer) × (r : RequestParser × Option Bool) × (left : Bytes) × (request_consume b
          (request_parser_init p)
          failed
        ≡ some (b', r))
      × Holds b' limit left
      × Reads failed (request_of xs) (r, left)
unfolding request_consume
request_consume-Reads limit b p failed xs a h l =
    let start : RequestParser × Option Bool = (request_parser_init p, failed) in
    let (b', e, h') = consume-feed request_step request_final limit b start xs h in
    let (r, left) = feed request_step request_final start xs in
    (b', r, left, e, h', feed_request failed p xs a l)

-- The reply: ten bytes, if they fit, and else -1 and nothing written.
pub request_marshall_lem :
    (limit : ℕ) (b : Buffer) (xs : Bytes) (reply : ℕ)
    → Holds b limit xs
    → (b' : Buffer) × (request_marshall b reply
        ≡ some (if ltb (b.limit - b.write) 10 then negsuc 0 else pos 0, b'))
      × Holds b' limit (if ltb (b.limit - b.write) 10 then xs else xs ++ reply_bytes reply)
unfolding request_marshall
request_marshall_lem limit b xs reply h = elim (Bool-cases (ltb (b.limit - b.write) 10)) [
  | inl tight ↦ (b, ground (arith, h.valid), rw tight h)
  | inr room ↦
      let (e, h') = write_adv-Holds b (reply_bytes reply) h (ground (arith, h.valid)) in
      (filled b (reply_bytes reply), ground (arith, h.valid, e), rw room h')
]

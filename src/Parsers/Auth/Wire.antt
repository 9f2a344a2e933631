-- ===== src/Parsers/Auth/Wire.antt =====
-- Credentials on the wire (RFC 1929, section 2), and that the parser reads exactly that.
use tpe_protos_g.Base.{
  ℕ, zero, suc, ◌-◌, ◌≡◌, refl, arith, some, true, false, Bool, [], ◌∷◌, ◌++◌, ltb, ◌==◌,
  if◌then◌else◌, Bool-cases, append_assoc, inl, inr, pred8, take, drop, pos, negsuc, Bytes,
  AllBytes, length, set, c_string,
}
use tpe_protos_g.Buffer.{Buffer}
use tpe_protos_g.Buffer.Queue.{Holds, filled, write_adv-Holds}
use tpe_protos_g.Parsers.Consume.{feed, consume-feed}
use tpe_protos_g.Parsers.Auth.Arrays.{Filling, Filling-start, Filling-next, Filling-last}
use tpe_protos_g.Parsers.Auth.{
  AuthState, AuthParser, auth_parser_init, final_state, step_in, auth_step, auth_final,
  auth_consume, auth_marshall,
}

-- What the bytes say: a version byte, and two texts with a length byte each.
pub data Credentials : Type 0 where
  refused : Bytes → Credentials
  partial : Credentials
  given : Bytes → Bytes → Bytes → Credentials

-- behind the name: the password
abbrev pub secret : Bytes → Bytes → Credentials
secret name [] = partial
secret name (n ∷ xs) =
    if n == 0
    then refused xs
    else if ltb (length xs) n
    then partial
    else given name (take n xs) (drop n xs)

abbrev pub named : Bytes → Credentials
named [] = partial
named (n ∷ xs) =
    if n == 0
    then refused xs
    else if ltb (length xs) n
    then partial
    else secret (take n xs) (drop n xs)

abbrev pub credentials : Bytes → Credentials
credentials [] = partial
credentials (v ∷ xs) = if v == 0x01 then named xs else refused xs

-- What the parser owes to credentials: its state, its flag, the two C strings, and what it leaves.
abbrev pub Reads : Bool → Credentials → (AuthParser × Bool) × Bytes → Type 0
Reads failed (refused rest) ((q, flag), left) =
    (q.state ≡ AuthState.error) × (flag ≡ true) × (left ≡ rest)
Reads failed partial ((q, flag), left) =
    (final_state q.state ≡ false) × (flag ≡ failed) × (left ≡ [])
Reads failed (given name pass rest) ((q, flag), left) =
    (q.state ≡ AuthState.done)
    × (flag ≡ failed)
    × (left ≡ rest)
    × (c_string q.uname ≡ c_string name)
    × (c_string q.passwd ≡ c_string pass)

abbrev passed : Bool → AuthParser → Bytes → (AuthParser × Bool) × Bytes
passed failed p xs = feed auth_step auth_final (p, failed) xs

feed_passwd :
    (failed : Bool) (p : AuthParser) (name acc : Bytes) (r : ℕ) (xs : Bytes)
    → p.state ≡ AuthState.passwd
    → Filling p.passwd p.plen p.remaining r acc
    → c_string p.uname ≡ c_string name
    → Reads failed
        (if ltb (length xs) (suc r)
          then partial
          else given name (acc ++ take (suc r) xs) (drop (suc r) xs))
        (passed failed p xs)
unfolding step_in
feed_passwd failed p name acc r [] s f u = ground arith
feed_passwd failed p name acc zero (x ∷ xs) s f u =
    ground (arith, Filling-last p.passwd p.plen p.remaining acc x f)
feed_passwd failed p name acc (suc r) (x ∷ xs) s f u =
    let p' : AuthParser = record p {
      passwd = set p.passwd (p.plen - p.remaining) x;
      remaining = pred8 p.remaining;
    } in
    ground (
      arith,
      feed_passwd failed p' name (acc ++ x ∷ []) r xs s
          (Filling-next p.passwd p.plen p.remaining r acc x f) u,
      append_assoc acc (x ∷ []) (take (suc r) xs),
    )

feed_secret :
    (failed : Bool) (p : AuthParser) (name : Bytes) (xs : Bytes)
    → AllBytes xs
    → p.state ≡ AuthState.plen
    → length p.passwd ≡ 256
    → c_string p.uname ≡ c_string name
    → Reads failed (secret name xs) (passed failed p xs)
unfolding step_in
feed_secret failed p name [] a s l u = ground arith
feed_secret failed p name (zero ∷ xs) a s l u = ground arith
feed_secret failed p name (suc n ∷ xs) a s l u =
    let p' : AuthParser = record p { plen = suc n; remaining = suc n; state = AuthState.passwd } in
    ground
      (arith, feed_passwd failed p' name [] n xs refl (Filling-start p.passwd n l (omega arith)) u)

feed_uname :
    (failed : Bool) (p : AuthParser) (acc : Bytes) (r : ℕ) (xs : Bytes)
    → AllBytes xs
    → p.state ≡ AuthState.uname
    → length p.passwd ≡ 256
    → Filling p.uname p.ulen p.remaining r acc
    → Reads failed
        (if ltb (length xs) (suc r)
          then partial
          else secret (acc ++ take (suc r) xs) (drop (suc r) xs))
        (passed failed p xs)
unfolding step_in
feed_uname failed p acc r [] a s l f = ground arith
feed_uname failed p acc zero (x ∷ xs) a s l f =
    let p' : AuthParser = record p {
      uname = set (set p.uname (p.ulen - p.remaining) x) p.ulen 0;
      remaining = pred8 p.remaining;
      state = AuthState.plen;
    } in
    ground (
      arith,
      feed_secret failed p' (acc ++ x ∷ []) xs a.1 refl l
          (Filling-last p.uname p.ulen p.remaining acc x f),
    )
feed_uname failed p acc (suc r) (x ∷ xs) a s l f =
    let p' : AuthParser = record p {
      uname = set p.uname (p.ulen - p.remaining) x;
      remaining = pred8 p.remaining;
    } in
    ground (
      arith,
      feed_uname failed p' (acc ++ x ∷ []) r xs a.1 s l
          (Filling-next p.uname p.ulen p.remaining r acc x f),
      append_assoc acc (x ∷ []) (take (suc r) xs),
    )

feed_named :
    (failed : Bool) (p : AuthParser) (xs : Bytes)
    → AllBytes xs
    → p.state ≡ AuthState.ulen
    → length p.uname ≡ 256
    → length p.passwd ≡ 256
    → Reads failed (named xs) (passed failed p xs)
unfolding step_in
feed_named failed p [] a s k l = ground arith
feed_named failed p (zero ∷ xs) a s k l = ground arith
feed_named failed p (suc n ∷ xs) a s k l =
    let p' : AuthParser = record p { ulen = suc n; remaining = suc n; state = AuthState.uname } in
    ground
      (arith, feed_uname failed p' [] n xs a.1 refl l (Filling-start p.uname n k (omega arith)))

feed_credentials :
    (failed : Bool) (p : AuthParser) (xs : Bytes)
    → AllBytes xs
    → length p.uname ≡ 256
    → length p.passwd ≡ 256
    → Reads failed (credentials xs) (passed failed (auth_parser_init p) xs)
unfolding step_in
feed_credentials failed p [] a k l = ground arith
feed_credentials failed p (v ∷ xs) a k l =
    let p' : AuthParser = record p { state = AuthState.ulen; remaining = 0; ulen = 0; plen = 0 } in
    ground (arith, feed_named failed p' xs a.1 refl k l)

-- Whatever bytes a buffer holds, auth_consume on a fresh parser ends without a failed assert, and
-- reads from them what the credentials say: it refuses a wrong version or an empty text, it waits
-- for more if they are cut short, and else it is done, holds the name and the password that were
-- given as C strings, and leaves what follows. The two arrays start with any contents.
pub auth_consume-Reads :
    (limit : ℕ) (b : Buffer) (p : AuthParser) (failed : Bool) (xs : Bytes)
    → AllBytes xs
    → Holds b limit xs
    → length p.uname ≡ 256
    → length p.passwd ≡ 256
    → (b' : Buffer) × (r : AuthParser × Bool) × (left : Bytes) × (auth_consume b
          (auth_parser_init p)
          failed
        ≡ some (b', r))
      × Holds b' limit left
      × Reads failed (credentials xs) (r, left)
unfolding auth_consume
auth_consume-Reads limit b p failed xs a h k l =
    let start : AuthParser × Bool = (auth_parser_init p, failed) in
    let (b', e, h') = consume-feed auth_step auth_final limit b start xs h in
    let (r, left) = feed auth_step auth_final start xs in
    (b', r, left, e, h', feed_credentials failed p xs a k l)

-- The reply: two bytes, if they fit, and else -1 and nothing written.
pub auth_marshall_lem :
    (limit : ℕ) (b : Buffer) (xs : Bytes) (status : ℕ)
    → Holds b limit xs
    → (b' : Buffer) × (auth_marshall b status
        ≡ some (if ltb (b.limit - b.write) 2 then negsuc 0 else pos 0, b'))
      × Holds b' limit (if ltb (b.limit - b.write) 2 then xs else xs ++ (0x01 ∷ status ∷ []))
unfolding auth_marshall
auth_marshall_lem limit b xs status h = elim (Bool-cases (ltb (b.limit - b.write) 2)) [
  | inl tight ↦ (b, ground (arith, h.valid), rw tight h)
  | inr room ↦
      let (e, h') = write_adv-Holds b (0x01 ∷ status ∷ []) h (ground (arith, h.valid)) in
      (filled b (0x01 ∷ status ∷ []), ground (arith, h.valid, e), rw room h')
]

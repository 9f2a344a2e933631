-- ===== src/Parsers/Hello/Wire.antt =====
-- The greeting on the wire (RFC 1928, section 3), and that the parser reads exactly that.
use tpe_protos_g.Base.{
  ℕ, zero, suc, ◌-◌, ◌<◌, ◌≡◌, refl, ◌∙◌, arith, Option, some, true, false, Bool, [], ◌∷◌, ◌++◌,
  ltb, ◌==◌, if◌then◌else◌, Bool-cases, inl, inr, pred8, take, drop, pos, negsuc, Bytes, AllBytes,
  length,
}
use tpe_protos_g.Buffer.{Buffer}
use tpe_protos_g.Buffer.Queue.{Holds, filled, write_adv-Holds}
use tpe_protos_g.Parsers.Consume.{feed, consume-feed, feed-append}
use tpe_protos_g.Parsers.Hello.{
  HelloState, HelloParser, hello_parser_init, final_state, notify, step_in, hello_step, hello_final,
  hello_consume, hello_marshall,
}

-- What the client offers, in the order of its bytes.
abbrev pub notify_all : {D : Type 0} → Option (D → ℕ → D) → D → Bytes → D
notify_all f d [] = d
notify_all f d (m ∷ ms) = notify_all f (notify f d m) ms

-- What the bytes of a greeting say: a version byte, a count, and that many methods.
pub data Greeting : Type 0 where
  refused : Bytes → Greeting
  partial : Bytes → Greeting
  offers : Bytes → Bytes → Greeting

abbrev pub methods_of : ℕ → Bytes → Greeting
methods_of n ms = if ltb (length ms) n then partial ms else offers (take n ms) (drop n ms)

abbrev pub counted : Bytes → Greeting
counted [] = partial []
counted (n ∷ ms) = if n == 0 then refused ms else methods_of n ms

abbrev pub greeting : Bytes → Greeting
greeting [] = partial []
greeting (v ∷ xs) = if v == 0x05 then counted xs else refused xs

-- What a parser that started as `p` owes to a greeting: its state, its flag, the methods that the
-- callback has seen, and the bytes that it leaves unread.
abbrev pub Reads :
    {D : Type 0} → HelloParser D → Bool → Greeting → (HelloParser D × Bool) × Bytes → Type 0
Reads p failed (refused rest) ((q, flag), left) =
    (q.state ≡ HelloState.error) × (flag ≡ true) × (left ≡ rest)
Reads p failed (partial ms) ((q, flag), left) =
    (final_state q.state ≡ false)
    × (flag ≡ failed)
    × (left ≡ [])
    × (q.user_data ≡ notify_all p.on_authentication_method p.user_data ms)
Reads p failed (offers ms rest) ((q, flag), left) =
    (q.state ≡ HelloState.done)
    × (flag ≡ failed)
    × (left ≡ rest)
    × (q.user_data ≡ notify_all p.on_authentication_method p.user_data ms)

module _ {D : Type 0} where
  feed_methods :
      (p : HelloParser D) (e : Bool) (r : ℕ) (xs : Bytes)
      → p.state ≡ HelloState.methods
      → p.remaining ≡ suc r
      → r < 255
      → Reads p e (methods_of (suc r) xs) (feed hello_step hello_final (p, e) xs)
  unfolding step_in
  feed_methods p e r [] s q h = ground arith
  feed_methods p e zero (x ∷ xs) s q h = ground arith
  feed_methods p e (suc r) (x ∷ xs) s q h =
      let p' : HelloParser D = record p {
        user_data = notify p.on_authentication_method p.user_data x;
        remaining = pred8 p.remaining;
      } in
      ground (arith, feed_methods p' e r xs s (omega arith) (omega arith))

  feed_counted :
      (p : HelloParser D) (e : Bool) (xs : Bytes)
      → AllBytes xs
      → p.state ≡ HelloState.nmethods
      → Reads p e (counted xs) (feed hello_step hello_final (p, e) xs)
  unfolding step_in
  feed_counted p e [] a s = ground arith
  feed_counted p e (zero ∷ xs) a s = ground arith
  feed_counted p e (suc n ∷ xs) a s =
      let p' : HelloParser D = record p { remaining = suc n; state = HelloState.methods } in
      ground (arith, feed_methods p' e n xs refl refl (omega arith))

  feed-greeting :
      (p : HelloParser D) (e : Bool) (xs : Bytes)
      → AllBytes xs
      → Reads p e (greeting xs) (feed hello_step hello_final (hello_parser_init p, e) xs)
  unfolding step_in
  feed-greeting p e [] a = ground arith
  feed-greeting p e (v ∷ xs) a =
      let p' : HelloParser D = record p { remaining = 0; state = HelloState.nmethods } in
      ground (arith, feed_counted p' e xs a.1 refl)

  -- Whatever bytes a buffer holds, hello_consume on a fresh parser ends without a failed assert, and
  -- reads from them what the greeting says: it refuses a wrong version or an empty list of methods
  -- (state, flag and the unread bytes), it waits for more if the greeting is cut short, and else it
  -- is done, has shown the callback exactly the methods offered, in order, and leaves what follows.
  pub hello_consume-Reads :
      (limit : ℕ) (b : Buffer) (p : HelloParser D) (failed : Bool) (xs : Bytes)
      → AllBytes xs
      → Holds b limit xs
      → (b' : Buffer) × (r : HelloParser D × Bool) × (left : Bytes) × (hello_consume b
            (hello_parser_init p)
            failed
          ≡ some (b', r))
        × Holds b' limit left
        × Reads p failed (greeting xs) (r, left)
  unfolding hello_consume
  hello_consume-Reads limit b p failed xs a h =
      let start : HelloParser D × Bool = (hello_parser_init p, failed) in
      let (b', e, h') = consume-feed hello_step hello_final limit b start xs h in
      let (r, left) = feed hello_step hello_final start xs in
      (b', r, left, e, h', feed-greeting p failed xs a)

  -- A greeting that arrives in pieces: if the first piece is cut short, going on with the second
  -- gives what the whole would have given.
  pub hello_pieces :
      (p : HelloParser D) (failed : Bool) (xs ys : Bytes)
      → final_state (feed hello_step hello_final (hello_parser_init p, failed) xs).0.0.state ≡ false
      → feed hello_step hello_final (hello_parser_init p, failed) (xs ++ ys)
        ≡ feed hello_step hello_final
            (feed hello_step hello_final (hello_parser_init p, failed) xs).0
            ys
  hello_pieces p failed xs ys h =
      feed-append hello_step hello_final (hello_parser_init p, failed) xs ys refl ∙ rw h

-- The reply: two bytes, if they fit, and else -1 and nothing written.
pub hello_marshall_lem :
    (limit : ℕ) (b : Buffer) (xs : Bytes) (method : ℕ)
    → Holds b limit xs
    → (b' : Buffer) × (hello_marshall b method
        ≡ some (if ltb (b.limit - b.write) 2 then negsuc 0 else pos 0, b'))
      × Holds b' limit (if ltb (b.limit - b.write) 2 then xs else xs ++ (0x05 ∷ method ∷ []))
unfolding hello_marshall
hello_marshall_lem limit b xs method h = elim (Bool-cases (ltb (b.limit - b.write) 2)) [
  | inl tight ↦ (b, ground (arith, h.valid), rw tight h)
  | inr room ↦
      let (e, h') = write_adv-Holds b (0x05 ∷ method ∷ []) h (ground (arith, h.valid)) in
      (filled b (0x05 ∷ method ∷ []), ground (arith, h.valid, e), rw room h')
]

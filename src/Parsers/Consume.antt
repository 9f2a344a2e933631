-- ===== src/Parsers/Consume.antt =====
-- The loop that hello_consume, auth_consume and request_consume (src/shared/hello.c, auth.c and
-- request.c) are written with: while the buffer has bytes, read one, switch on the state, and
-- leave if the state is final.
--
-- The fuel is the number of bytes that the buffer holds at the start; each round reads one.
use tpe_protos_g.Base.{
  ℕ, zero, suc, ◌-◌, ◌≤◌, ◌≡◌, refl, ap, arith, Option, some, true, false, Bool, [], ◌∷◌, ◌++◌,
  if◌then◌else◌, Bool-cases, inl, inr, ◌>>=◌, Bytes, length,
}
use tpe_protos_g.Buffer.{Buffer, buffer_can_read, buffer_read}
use tpe_protos_g.Buffer.Queue.{Holds, read-Holds, can_read-Holds, can_read_empty, length-contents}

module _ {P : Type 0} (step : P → ℕ → P) (final : P → Bool) where
  unfoldable pub consume_loop : ℕ → Buffer → P → Option (Buffer × P)
  consume_loop zero b p = some (b, p)
  consume_loop (suc fuel) b p = elim (buffer_can_read b) [
    | true ↦ buffer_read b >>= λ r.
        let p' = step p r.0 in
        elim (final p') [ true ↦ some (r.1, p') | false ↦ consume_loop fuel r.1 p' ]
    | false ↦ some (b, p)
  ]

  unfoldable pub consume : Buffer → P → Option (Buffer × P)
  consume b p = consume_loop (b.write - b.read) b p

  -- The same run over the bytes themselves: the final state, and the bytes that are left.
  abbrev pub feed : P → Bytes → P × Bytes
  feed p [] = (p, [])
  feed p (x ∷ xs) = elim (final (step p x)) [ true ↦ (step p x, xs) | false ↦ feed (step p x) xs ]

  consume_loop-feed :
      (fuel limit : ℕ) (b : Buffer) (p : P) (xs : Bytes)
      → Holds b limit xs
      → length xs ≤ fuel
      → (b' : Buffer) × (consume_loop fuel b p ≡ some (b', (feed p xs).0))
        × Holds b' limit (feed p xs).1
  unfolding consume_loop
  consume_loop-feed zero limit b p [] h room = (b, refl, h)
  consume_loop-feed zero limit b p (x ∷ xs) h room = absurd (omega arith)
  consume_loop-feed (suc fuel) limit b p [] h room = (b, ground (arith, can_read_empty b h), h)
  consume_loop-feed (suc fuel) limit b p (x ∷ xs) h room =
      let (b', e, h') = read-Holds b x xs h in
      elim (Bool-cases (final (step p x))) [
        | inl done ↦
            (b', ground (arith, e, done, can_read-Holds b x xs h), ground (arith, done, h'))
        | inr more ↦
            let (b'', e', h'') = consume_loop-feed fuel limit b' (step p x) xs h' (omega arith) in
            (b'', ground (arith, e, more, e', can_read-Holds b x xs h), ground (arith, more, h''))
      ]

  -- From any valid buffer the loop ends without a failed `assert`. It leaves the parser as the bytes
  -- of the buffer, taken one by one, leave it, and the buffer with the bytes behind the final one.
  pub consume-feed :
      (limit : ℕ) (b : Buffer) (p : P) (xs : Bytes)
      → Holds b limit xs
      → (b' : Buffer) × (consume b p ≡ some (b', (feed p xs).0)) × Holds b' limit (feed p xs).1
  unfolding consume
  consume-feed limit b p xs h =
      consume_loop-feed (b.write - b.read) limit b p xs h
        (omega (arith, length-contents b h.valid, ap length h.holds))

  -- Bytes that arrive in two pieces: the second piece is read only if the first is not final.
  pub feed-append :
      (p : P) (xs ys : Bytes)
      → final p ≡ false
      → feed p (xs ++ ys) ≡ (
          if final (feed p xs).0
          then ((feed p xs).0, (feed p xs).1 ++ ys)
          else feed (feed p xs).0 ys)
  feed-append p [] ys h = rw h
  feed-append p (x ∷ xs) ys h = elim (Bool-cases (final (step p x))) [
    | inl done ↦ ground (arith, done)
    | inr more ↦ ground (arith, more, feed-append (step p x) xs ys more)
  ]

  -- A run that does not reach a final state has read everything.
  pub feed_not_final :
      (p : P) (xs : Bytes) → final p ≡ false → final (feed p xs).0 ≡ false → (feed p xs).1 ≡ []
  feed_not_final p [] h e = refl
  feed_not_final p (x ∷ xs) h e = elim (Bool-cases (final (step p x))) [
    | inl done ↦ ground (arith, done)
    | inr more ↦ ground (arith, more, feed_not_final (step p x) xs more)
  ]

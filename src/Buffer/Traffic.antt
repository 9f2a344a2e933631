-- ===== src/Buffer/Traffic.antt =====
-- What the callers of src/shared/buffer.c do with a buffer, call by call: recv behind
-- buffer_write_ptr, send behind buffer_read_ptr, buffer_read, buffer_write and buffer_compact.
use tpe_protos_g.Base.{
  ℕ, ◌-◌, ◌≡◌, refl, ap, subst, ◌∙◌, sym, arith, Option, some, List, [], ◌∷◌, ◌++◌, ltb,
  if◌then◌else◌, append-nil, append_assoc, pos, Bytes, length, take, drop, length-take,
  take-append-drop, ◌>>=◌,
}
use tpe_protos_g.Buffer.{
  Buffer, buffer_compact, buffer_can_read, buffer_can_write, buffer_read_adv, buffer_write_adv,
  buffer_read, buffer_write, buffer_write_ptr, buffer_read_ptr, blit,
}
use tpe_protos_g.Buffer.Queue.{
  Holds, contents, filled, write_adv-Holds, read_adv-Holds, read-Holds, write-Holds, compact-Holds,
  can_read-Holds, can_read_empty,
}
use tpe_protos_g.Buffer.Slices.{slice}

-- `receive ys`: the peer has sent `ys`, and recv takes what fits. `send n`: the peer takes up to `n`.
pub data Call : Type 0 where
  receive : Bytes → Call
  send : ℕ → Call
  read_byte : Call
  write_byte : ℕ → Call
  compact : Call

-- The buffer, the bytes that it has taken, and the bytes that it has given, in order.
pub record Flow : Type 0 where
  pub buffer : Buffer
  pub taken : Bytes
  pub given : Bytes

unfoldable pub call : Call → Flow → Option Flow
call (receive ys) t = do
  w ← buffer_write_ptr t.buffer
  let got = take w.1 ys
  b ← buffer_write_adv (record t.buffer { store = blit t.buffer.store w.0 got }) (pos (length got))
  some (record t { buffer = b; taken = t.taken ++ got })
call (send n) t = do
  r ← buffer_read_ptr t.buffer
  let sent = take n (slice t.buffer.store r.0 r.1)
  b ← buffer_read_adv t.buffer (pos (length sent))
  some (record t { buffer = b; given = t.given ++ sent })
call read_byte t =
    if buffer_can_read t.buffer
    then (buffer_read t.buffer >>= λ r.
        some (record t { buffer = r.1; given = t.given ++ r.0 ∷ [] }))
    else some t
call (write_byte c) t = buffer_write t.buffer c >>= λ b. some (record t {
  buffer = b;
  taken = if buffer_can_write t.buffer then t.taken ++ c ∷ [] else t.taken;
})
call compact t = some (record t { buffer = buffer_compact t.buffer })

unfoldable pub calls : List Call → Flow → Option Flow
calls [] t = some t
calls (c ∷ cs) t = call c t >>= λ t'. calls cs t'

-- What was there at the start and what came in is what went out and what is still there.
record Balanced (limit : ℕ) (start : Bytes) (t : Flow) : Type 0 where
  inside : Bytes
  held : Holds t.buffer limit inside
  balance : start ++ t.taken ≡ t.given ++ inside

abbrev Returns : ℕ → Bytes → Option Flow → Type 0
Returns limit start r = (t' : Flow) × (r ≡ some t') × Balanced limit start t'

module _ (limit : ℕ) (start : Bytes) (t : Flow) where
  receive-Balanced :
      (ys : Bytes) → Balanced limit start t → Returns limit start (call (receive ys) t)
  unfolding call
  receive-Balanced ys k =
      let b = t.buffer in
      let got = take (b.limit - b.write) ys in
      let (e, h) =
        write_adv-Holds b got k.held
          (omega (arith, k.held.valid, length-take (b.limit - b.write) ys)) in
      (
        record t { buffer = filled b got; taken = t.taken ++ got },
        ground (arith, k.held.valid, e),
        record {
          inside = k.inside ++ got;
          held = h;
          balance =
              sym (append_assoc start t.taken got)
              ∙ ap (λ u. u ++ got) k.balance
              ∙ append_assoc t.given k.inside got;
        },
      )

  given_more :
      (ys zs : Bytes) {b : Buffer}
      → start ++ t.taken ≡ t.given ++ (ys ++ zs)
      → Holds b limit zs
      → Balanced limit start (record t { buffer = b; given = t.given ++ ys })
  given_more ys zs e h = record {
    inside = zs;
    held = h;
    balance = e ∙ sym (append_assoc t.given ys zs);
  }

  send-Balanced : (n : ℕ) → Balanced limit start t → Returns limit start (call (send n) t)
  unfolding call
  send-Balanced n k =
      let b = t.buffer in
      let all = contents b in
      let whole =
        subst (λ u. Holds b limit u) (sym k.held.holds ∙ sym (take-append-drop n all)) k.held in
      let (b', e, h) = read_adv-Holds b (take n all) (drop n all) whole in
      (
        record t { buffer = b'; given = t.given ++ take n all },
        ground (arith, k.held.valid, e),
        given_more (take n all) (drop n all)
            (k.balance ∙ ap (λ u. t.given ++ u) (sym k.held.holds ∙ sym (take-append-drop n all)))
            h,
      )

  read-Balanced :
      (inside : Bytes)
      → Holds t.buffer limit inside
      → start ++ t.taken ≡ t.given ++ inside
      → Returns limit start (call read_byte t)
  unfolding call
  read-Balanced [] h e =
      (t, ground (arith, can_read_empty t.buffer h), record { inside = []; held = h; balance = e })
  read-Balanced (x ∷ xs) h e =
      let (b', r, h') = read-Holds t.buffer x xs h in
      (
        record t { buffer = b'; given = t.given ++ x ∷ [] },
        ground (arith, r, can_read-Holds t.buffer x xs h),
        given_more (x ∷ []) xs e h',
      )

  write-Balanced : (c : ℕ) → Balanced limit start t → Returns limit start (call (write_byte c) t)
  unfolding call
  write-Balanced c k =
      let b = t.buffer in
      let (b', e, h) = write-Holds b c k.held in
      (
        record t { buffer = b'; taken = if buffer_can_write b then t.taken ++ c ∷ [] else t.taken },
        ground (arith, e),
        record {
          inside = if ltb b.write b.limit then k.inside ++ c ∷ [] else k.inside;
          held = h;
          balance = ground (
            arith,
            k.balance,
            append_assoc start t.taken (c ∷ []),
            append_assoc t.given k.inside (c ∷ []),
          );
        },
      )

  call-Balanced : (c : Call) → Balanced limit start t → Returns limit start (call c t)
  unfolding call
  call-Balanced (receive ys) k = receive-Balanced ys k
  call-Balanced (send n) k = send-Balanced n k
  call-Balanced read_byte k = read-Balanced k.inside k.held k.balance
  call-Balanced (write_byte c) k = write-Balanced c k
  call-Balanced compact k = (
    record t { buffer = buffer_compact t.buffer },
    refl,
    record { inside = k.inside; held = (compact-Holds t.buffer k.held).0; balance = k.balance },
  )

calls-Balanced :
    (limit : ℕ) (start : Bytes) (cs : List Call) (t : Flow)
    → Balanced limit start t
    → Returns limit start (calls cs t)
unfolding calls
calls-Balanced limit start [] t k = (t, refl, k)
calls-Balanced limit start (c ∷ cs) t k =
    let (t', e, k') = call-Balanced limit start t c k in
    let (t'', e', k'') = calls-Balanced limit start cs t' k' in (t'', ground (arith, e, e'), k'')

-- Whatever calls are made on a buffer, in any order and at any sizes, no assert fails, and no byte
-- is lost, doubled or moved: what it held at the start and what came in afterwards is what went out
-- and what it holds in the end, in that order. The pointers stay ordered, within the same limit.
pub calls_fifo :
    (limit : ℕ) (b : Buffer) (xs : Bytes) (cs : List Call)
    → Holds b limit xs
    → (t : Flow) × (inside : Bytes) × (calls cs (record { buffer = b; taken = []; given = [] })
        ≡ some t)
      × Holds t.buffer limit inside
      × (xs ++ t.taken ≡ t.given ++ inside)
calls_fifo limit b xs cs h =
    let (t, e, k) =
      calls-Balanced limit xs cs (record { buffer = b; taken = []; given = [] })
        (record { inside = xs; held = h; balance = append-nil xs }) in
    (t, k.inside, e, k.held, k.balance)

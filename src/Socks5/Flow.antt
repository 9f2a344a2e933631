-- ===== src/Socks5/Flow.antt =====
-- One direction of the relay of src/shared/socks5.c: a `struct copy`, its buffer, and the bytes that
-- its two sockets have moved.
use tpe_protos_g.Base.{
  ◌+◌, ◌%◌, ◌^◌, ◌≤◌, ◌≡◌, refl, sym, ap, ◌∙◌, arith, true, false, [], ◌∷◌, ◌++◌, append_assoc,
  Bytes, length, length-append,
}
use tpe_protos_g.Buffer.{Buffer, buffer_compact, buffer_can_read}
use tpe_protos_g.Buffer.Queue.{Holds, compact-Holds, filled, filled-Holds, can_read-Holds}
use tpe_protos_g.Metrics.{add64}
use tpe_protos_g.Socks5.Types.{Copy}

-- Since the relay began with `held` in its buffer, with `took` already taken from the one socket and
-- `gave` given to the other: what came in, and what went out, which is counted.
pub record Flow (held took gave : Bytes) (k : Copy) (b : Buffer) (taken given : Bytes)
    : Type 0 where
  pub came : Bytes
  pub went : Bytes
  pub inside : Bytes
  pub all_taken : taken ≡ took ++ came
  pub all_given : given ≡ gave ++ went
  pub whole : held ++ came ≡ went ++ inside
  pub buffer : Holds b 4096 inside
  pub counted : k.transferred ≡ length went % 2 ^ 64
  pub closed : k.write_closed ≡ true → (k.eof ≡ true) × (inside ≡ [])

nothing_inside : (b : Buffer) (xs : Bytes) → Holds b 4096 xs → buffer_can_read b ≡ false → xs ≡ []
nothing_inside b [] h e = refl
nothing_inside b (x ∷ xs) h e = absurd (cc (can_read-Holds b x xs h))

module _ {held took gave : Bytes} (k : Copy) (b : Buffer) (taken given : Bytes)
    (f : Flow held took gave k b taken given) where
  pub compact-Flow : Flow held took gave k (buffer_compact b) taken given
  compact-Flow = record {
    came = f.came;
    went = f.went;
    inside = f.inside;
    all_taken = f.all_taken;
    all_given = f.all_given;
    whole = f.whole;
    buffer = (compact-Holds b f.buffer).0;
    counted = f.counted;
    closed = f.closed;
  }

  pub received-Flow :
      (ys : Bytes)
      → k.eof ≡ false
      → b.write + length ys ≤ b.limit
      → Flow held took gave k (filled b ys) (taken ++ ys) given
  received-Flow ys going room = record {
    came = f.came ++ ys;
    went = f.went;
    inside = f.inside ++ ys;
    all_taken = ap (λ t. t ++ ys) f.all_taken ∙ append_assoc took f.came ys;
    all_given = f.all_given;
    whole =
        sym (append_assoc held f.came ys)
        ∙ ap (λ t. t ++ ys) f.whole
        ∙ append_assoc f.went f.inside ys;
    buffer = filled-Holds b ys f.buffer room;
    counted = f.counted;
    closed = λ e. absurd (cc (f.closed e).0);
  }

  pub eof-Flow : Flow held took gave (record k { eof = true }) b taken given
  eof-Flow = record {
    came = f.came;
    went = f.went;
    inside = f.inside;
    all_taken = f.all_taken;
    all_given = f.all_given;
    whole = f.whole;
    buffer = f.buffer;
    counted = f.counted;
    closed = λ e. (refl, (f.closed e).1);
  }

  pub sent-Flow :
      (ys zs : Bytes) (b' : Buffer)
      → f.inside ≡ ys ++ zs
      → k.write_closed ≡ false
      → Holds b' 4096 zs
      → Flow held took gave
          (record k { transferred = add64 k.transferred (length ys) })
          b'
          taken
          (given ++ ys)
  sent-Flow ys zs b' parts open_yet h = record {
    came = f.came;
    went = f.went ++ ys;
    inside = zs;
    all_taken = f.all_taken;
    all_given = ap (λ t. t ++ ys) f.all_given ∙ append_assoc gave f.went ys;
    whole = f.whole ∙ ap (λ t. f.went ++ t) parts ∙ sym (append_assoc f.went ys zs);
    buffer = h;
    counted = omega (arith, f.counted, length-append f.went ys);
    closed = λ e. absurd (cc);
  }

  pub closed-Flow :
      k.eof ≡ true
      → buffer_can_read b ≡ false
      → Flow held took gave (record k { write_closed = true }) b taken given
  closed-Flow ended drained = record {
    came = f.came;
    went = f.went;
    inside = f.inside;
    all_taken = f.all_taken;
    all_given = f.all_given;
    whole = f.whole;
    buffer = f.buffer;
    counted = f.counted;
    closed = λ e. (ended, nothing_inside b f.inside f.buffer drained);
  }

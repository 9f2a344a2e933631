-- ===== src/Buffer/Queue.antt =====
-- The buffer as a queue of bytes: what each operation of src/shared/buffer.c does to its contents.
use tpe_protos_g.Base.{
  ℕ, suc, ◌+◌, ◌-◌, ◌≤◌, ◌<◌, ◌≡◌, refl, ap, ap₂, subst₂, ◌∙◌, sym, arith, some, true, false, [],
  ◌∷◌, ◌++◌, ◌==◌, ltb, if◌then◌else◌, append-nil, append_assoc, pos, Bytes, length, set, drop,
  length-append, length-set, length-drop,
}
use tpe_protos_g.Buffer.{
  Buffer, buffer_init, buffer_can_read, buffer_compact, buffer_read_adv, buffer_write_adv,
  buffer_read, buffer_write, blit,
}
use tpe_protos_g.Buffer.Slices.{slice, length-slice, slice-set, slice_head, slice_rest, slice_front}

-- The order of the pointers, which buffer.h states, and a store that reaches the limit.
pub record IsValid (b : Buffer) : Type 0 where
  pub ordered : b.read ≤ b.write
  pub bounded : b.write ≤ b.limit
  pub stored : b.limit ≤ length b.store

-- the bytes that wait to be read
abbrev pub contents : Buffer → Bytes
contents b = slice b.store b.read (b.write - b.read)

-- A valid buffer of capacity `cap` between whose pointers stands `xs`.
record Spans (b : Buffer) (cap : ℕ) (xs : Bytes) : Type 0 where
  valid : IsValid b
  capacity : b.limit ≡ cap
  holds : contents b ≡ xs

-- A buffer of capacity `cap` that holds `xs`, as the operations leave it: an empty one is reset.
pub record Holds (b : Buffer) (cap : ℕ) (xs : Bytes) : Type 0 where
  pub valid : IsValid b
  pub capacity : b.limit ≡ cap
  pub holds : contents b ≡ xs
  pub reset : b.read ≡ b.write → b.write ≡ 0

Holds-Spans : {b : Buffer} {cap : ℕ} {xs : Bytes} → Holds b cap xs → Spans b cap xs
Holds-Spans h = record { valid = h.valid; capacity = h.capacity; holds = h.holds }

pub length-contents : (b : Buffer) → IsValid b → length (contents b) ≡ b.write - b.read
length-contents b v = length-slice b.store b.read (b.write - b.read) (omega arith)

pub init-Holds : (b : Buffer) (n : ℕ) (st : Bytes) → n ≤ length st → Holds (buffer_init b n st) n []
unfolding buffer_init
init-Holds b n st h = record {
  valid = omega arith;
  capacity = refl;
  holds = refl;
  reset = λ e. refl;
}

module _ (b : Buffer) {cap : ℕ} {xs : Bytes} (h : Spans b cap xs) where
  length-held : length xs ≡ b.write - b.read
  length-held = ap length (sym h.holds) ∙ length-contents b h.valid

  moved : Buffer
  moved = record b {
    store = slice b.store b.read (b.write - b.read) ++ drop (b.write - b.read) b.store;
    read = 0;
    write = b.write - b.read;
  }

  moved-Spans : Spans moved cap xs
  unfolding moved
  moved-Spans = record {
    valid = record {
      ordered = omega arith;
      bounded = omega (arith, h.valid.ordered, h.valid.bounded);
      stored = omega (
        arith,
        h.valid,
        length-append (slice b.store b.read (b.write - b.read)) (drop (b.write - b.read) b.store),
        length-drop (b.write - b.read) b.store,
        length-contents b h.valid,
      );
    };
    capacity = h.capacity;
    holds =
        slice_front (contents b) (drop (b.write - b.read) b.store) (b.write - b.read - 0)
          (omega (arith, length-contents b h.valid))
        ∙ h.holds;
  }

  -- Compaction loses nothing, and frees what was read.
  compact-Spans : Holds (buffer_compact b) cap xs × ((buffer_compact b).write ≡ length xs)
  unfolding buffer_compact moved
  compact-Spans = ground (arith, h, moved-Spans, length-held)

-- the buffer after `buffer_read_adv(b, n)`
abbrev advanced : Buffer → ℕ → Buffer
advanced b n =
    let b' = record b { read = b.read + n } in if b'.read == b'.write then buffer_compact b' else b'

skipped-Spans :
    (b : Buffer) {cap : ℕ} (ys zs : Bytes)
    → Spans b cap (ys ++ zs)
    → Spans (record b { read = b.read + length ys }) cap zs
skipped-Spans b ys zs h = record {
  valid = omega (arith, h.valid, length-held b h, length-append ys zs);
  capacity = h.capacity;
  holds =
      ap (λ k. slice b.store (b.read + length ys) k) (omega arith)
      ∙ slice_rest b.store b.read (b.write - b.read) ys zs h.holds;
}

-- `buffer_compact` keeps the contents and makes all the free room writable.
pub compact-Holds :
    (b : Buffer) {cap : ℕ} {xs : Bytes}
    → Holds b cap xs
    → Holds (buffer_compact b) cap xs × ((buffer_compact b).write ≡ length xs)
compact-Holds b h = compact-Spans b (Holds-Spans h)

-- Advancing the read pointer over the first bytes consumes exactly these, and no `assert` fails.
pub read_adv-Holds :
    (b : Buffer) {cap : ℕ} (ys zs : Bytes)
    → Holds b cap (ys ++ zs)
    → (b' : Buffer) × (buffer_read_adv b (pos (length ys)) ≡ some b') × Holds b' cap zs
unfolding buffer_read_adv
read_adv-Holds b ys zs h =
    let skipped = skipped-Spans b ys zs (Holds-Spans h) in
    (
      advanced b (length ys),
      ground (arith, h, length-held b (Holds-Spans h), length-append ys zs),
      ground (arith, skipped, compact-Spans (record b { read = b.read + length ys }) skipped),
    )

-- Reading from a buffer that holds `x ∷ xs` returns `x` and leaves `xs`.
pub read-Holds :
    (b : Buffer) {cap : ℕ} (x : ℕ) (xs : Bytes)
    → Holds b cap (x ∷ xs)
    → (b' : Buffer) × (buffer_read b ≡ some (x, b')) × Holds b' cap xs
unfolding buffer_read
read-Holds b x xs h =
    let (b', e, h') = read_adv-Holds b (x ∷ []) xs h in
    (b', ground (arith, e, slice_head b.store b.read (b.write - b.read) x xs h.holds), h')

module _ (b : Buffer) {cap : ℕ} where
  pub read_empty : Holds b cap [] → buffer_read b ≡ some (0, b)
  unfolding buffer_read
  read_empty h = ground (arith, length-held b (Holds-Spans h))

  pub can_read-Holds : (x : ℕ) (xs : Bytes) → Holds b cap (x ∷ xs) → buffer_can_read b ≡ true
  can_read-Holds x xs h = ground (arith, length-held b (Holds-Spans h))

  pub can_read_empty : Holds b cap [] → buffer_can_read b ≡ false
  can_read_empty h = ground (arith, length-held b (Holds-Spans h))

  -- Of a buffer that is empty all the capacity is writable.
  pub write_empty : Holds b cap [] → b.write ≡ 0
  write_empty h = h.reset (omega (arith, h.valid, length-held b (Holds-Spans h)))

-- What a caller writes through `buffer_write_ptr`, and the adjustment of the write pointer.
abbrev pub filled : Buffer → Bytes → Buffer
filled b ys = record b { store = blit b.store b.write ys; write = b.write + length ys }

filled_one :
    (b : Buffer) {cap : ℕ} {xs : Bytes} (y : ℕ)
    → Holds b cap xs
    → b.write < b.limit
    → Holds (record b { store = set b.store b.write y; write = b.write + 1 }) cap (xs ++ (y ∷ []))
filled_one b {xs = xs} y h room = record {
  valid = omega (arith, h.valid, length-set b.store b.write y);
  capacity = h.capacity;
  holds =
      ap₂ (λ k n. slice (set b.store k y) b.read n) at_write grown
      ∙ slice-set b.store b.read (b.write - b.read) y (omega (arith, h.valid))
      ∙ ap (λ t. t ++ (y ∷ [])) h.holds;
  reset = λ e. absurd (omega (arith, h.valid));
}
  where
    at_write : b.write ≡ b.read + (b.write - b.read)
    at_write = omega (arith, h.valid)

    grown : b.write + 1 - b.read ≡ suc (b.write - b.read)
    grown = omega (arith, h.valid)

pub filled-Holds :
    (b : Buffer) {cap : ℕ} {xs : Bytes} (ys : Bytes)
    → Holds b cap xs
    → b.write + length ys ≤ b.limit
    → Holds (filled b ys) cap (xs ++ ys)
filled-Holds b {cap} {xs} [] h room =
    subst₂ (λ k zs. Holds (record b { write = k }) cap zs) (omega arith) (sym (append-nil xs)) h
filled-Holds b {cap} {xs} (y ∷ ys) h room =
    let b' : Buffer = record b { store = set b.store b.write y; write = b.write + 1 } in
    let rest = filled-Holds b' ys (filled_one b y h (omega arith)) (omega arith) in
    subst₂
      (λ k zs.
        Holds (record b { store = blit (set b.store b.write y) (b.write + 1) ys; write = k }) cap
          zs)
      (omega arith) (append_assoc xs (y ∷ []) ys) rest

-- `buffer_write_adv` after the bytes `ys` were written there.
pub write_adv-Holds :
    (b : Buffer) {cap : ℕ} {xs : Bytes} (ys : Bytes)
    → Holds b cap xs
    → b.write + length ys ≤ b.limit
    → (buffer_write_adv (record b { store = blit b.store b.write ys }) (pos (length ys))
        ≡ some (filled b ys))
      × Holds (filled b ys) cap (xs ++ ys)
unfolding buffer_write_adv
write_adv-Holds b ys h room = (ground arith, filled-Holds b ys h room)

-- `buffer_write` appends the byte if there is room, and else changes nothing.
pub write-Holds :
    (b : Buffer) {cap : ℕ} {xs : Bytes} (c : ℕ)
    → Holds b cap xs
    → (b' : Buffer) × (buffer_write b c ≡ some b')
      × Holds b' cap (if ltb b.write b.limit then xs ++ (c ∷ []) else xs)
unfolding buffer_write buffer_write_adv
write-Holds b c h = (
  if ltb b.write b.limit
      then record b { store = set b.store b.write c; write = b.write + 1 }
      else b,
  ground arith,
  ground (arith, filled_one b c h),
)

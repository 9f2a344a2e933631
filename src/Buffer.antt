-- ===== src/Buffer.antt =====
-- src/shared/buffer.c and buffer.h: a byte buffer with a read and a write pointer.
--
-- A pointer is its offset from `data`, and `store` is the memory behind `data`. A failed `assert`
-- is `none`, and so is a read outside the store; that neither happens is proved in Buffer/Queue.
pub mod Slices
pub mod Queue
pub mod Traffic
use tpe_protos_g.Base.{
  ℕ, ◌+◌, ◌-◌, Bool, Option, none, some, [], ◌∷◌, ◌++◌, ltb, leb, ◌==◌, if◌then◌else◌, ◌>>=◌, ◌>>◌,
  check, ℤ, pos, negsuc, Bytes, get_elem?, set, take, drop,
}

pub record Buffer : Type 0 where
  pub store : Bytes
  pub limit : ℕ
  pub read : ℕ
  pub write : ℕ

-- What a caller that writes through a pointer does to the store, from offset `i` on.
abbrev pub blit : Bytes → ℕ → Bytes → Bytes
blit st i [] = st
blit st i (x ∷ xs) = blit (set st i x) (i + 1) xs

unfoldable pub buffer_reset : Buffer → Buffer
buffer_reset b = record b { read = 0; write = 0 }

unfoldable pub buffer_init : Buffer → ℕ → Bytes → Buffer
unfolding buffer_reset
buffer_init b n store = record (buffer_reset (record b { store = store })) { limit = n }

-- The pointer difference is positive.
abbrev pub buffer_can_write : Buffer → Bool
buffer_can_write b = ltb 0 (b.limit - b.write)

abbrev pub buffer_can_read : Buffer → Bool
buffer_can_read b = ltb 0 (b.write - b.read)

-- The offset to write at, and how many bytes fit there.
abbrev pub buffer_write_ptr : Buffer → Option (ℕ × ℕ)
buffer_write_ptr b = do check (leb b.write b.limit); some (b.write, b.limit - b.write)

abbrev pub buffer_read_ptr : Buffer → Option (ℕ × ℕ)
buffer_read_ptr b = do check (leb b.read b.write); some (b.read, b.write - b.read)

-- `memmove(b->data, b->read, n)` in the last case
unfoldable pub buffer_compact : Buffer → Buffer
buffer_compact b =
    if 0 == b.read
    then b
    else if b.read == b.write
    then record b { read = 0; write = 0 }
    else let n = b.write - b.read in
      record b { store = take n (drop b.read b.store) ++ drop n b.store; read = 0; write = n }

unfoldable pub buffer_write_adv : Buffer → ℤ → Option Buffer
buffer_write_adv b (negsuc _) = some b
buffer_write_adv b (pos n) = do
  check (leb (b.write + n) b.limit)
  some (record b { write = b.write + n })

unfoldable pub buffer_read_adv : Buffer → ℤ → Option Buffer
buffer_read_adv b (negsuc _) = some b
buffer_read_adv b (pos n) = do
  check (leb (b.read + n) b.write)
  let b' = record b { read = b.read + n }
  some (if b'.read == b'.write then buffer_compact b' else b')

unfoldable pub buffer_read : Buffer → Option (ℕ × Buffer)
buffer_read b =
    if buffer_can_read b
    then (do ret ← get_elem? b.store b.read; b' ← buffer_read_adv b (pos 1); some (ret, b'))
    else some (0, b)

unfoldable pub buffer_write : Buffer → ℕ → Option Buffer
buffer_write b c =
    if buffer_can_write b
    then buffer_write_adv (record b { store = set b.store b.write c }) (pos 1)
    else some b

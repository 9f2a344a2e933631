-- ===== src/Buffer/Slices.antt =====
-- Windows of a store, and what writing and moving bytes does to them.
use tpe_protos_g.Base.{
  ℕ, zero, suc, ◌+◌, ◌-◌, ◌≤◌, ◌<◌, ◌≡◌, refl, ap, ap₂, ◌∙◌, arith, some, [], ◌∷◌, ◌++◌, Bytes,
  length, get_elem?, set, take, drop, length-take, take-append,
}

-- the `n` bytes from offset `r` on
abbrev pub slice : Bytes → ℕ → ℕ → Bytes
slice st r n = take n (drop r st)

pub length-slice : (st : Bytes) (r n : ℕ) → r + n ≤ length st → length (slice st r n) ≡ n
length-slice [] zero zero h = refl
length-slice [] zero (suc n) h = absurd (omega arith)
length-slice [] (suc r) n h = absurd (omega arith)
length-slice (x ∷ st) (suc r) n h = length-slice st r n (omega arith)
length-slice (x ∷ st) zero n h = omega (arith, length-take n (x ∷ st))

-- The window grows by the byte that is written just behind it.
pub slice-set :
    (st : Bytes) (r n : ℕ) (x : ℕ)
    → r + n < length st
    → slice (set st (r + n) x) r (suc n) ≡ slice st r n ++ (x ∷ [])
slice-set st r n x h = go st r n (r + n) refl h
  where
    go :
        (st : Bytes) (r n k : ℕ)
        → k ≡ r + n
        → k < length st
        → slice (set st k x) r (suc n) ≡ slice st r n ++ (x ∷ [])
    go [] r n k e h = absurd (omega arith)
    go (y ∷ st) zero zero zero e h = refl
    go (y ∷ st) zero zero (suc k) e h = absurd (omega arith)
    go (y ∷ st) zero (suc n) zero e h = absurd (omega arith)
    go (y ∷ st) zero (suc n) (suc k) e h =
        ap (λ t. y ∷ t) (go st zero n k (omega arith) (omega arith))
    go (y ∷ st) (suc r) n zero e h = absurd (omega arith)
    go (y ∷ st) (suc r) n (suc k) e h = go st r n k (omega arith) (omega arith)

-- A window that is not empty: its first byte, and the rest.
pub slice_head :
    (st : Bytes) (r n : ℕ) (x : ℕ) (xs : Bytes)
    → slice st r n ≡ x ∷ xs
    → (get_elem? st r ≡ some x) × (slice st (r + 1) (n - 1) ≡ xs) × (0 < n)
slice_head st r zero x xs h = cc
slice_head [] zero (suc n) x xs h = cc
slice_head [] (suc r) (suc n) x xs h = cc
slice_head (y ∷ st) zero (suc n) x xs h = ground arith
slice_head (y ∷ st) (suc r) (suc n) x xs h =
    let (a, b, c) = slice_head st r (suc n) x xs h in
    (a, ap (λ k. slice (y ∷ st) k (suc n - 1)) shift ∙ b, c)
  where
    shift : suc r + 1 ≡ suc (r + 1)
    shift = omega arith

-- A window without its first bytes.
pub slice_rest :
    (st : Bytes) (r n : ℕ) (ys zs : Bytes)
    → slice st r n ≡ ys ++ zs
    → slice st (r + length ys) (n - length ys) ≡ zs
slice_rest st r n [] zs h = ap₂ (λ k m. slice st k m) (omega arith) (omega arith) ∙ h
slice_rest st r n (y ∷ ys) zs h =
    ap₂ (λ k m. slice st k m) (omega arith) (omega arith)
    ∙ slice_rest st (r + 1) (n - 1) ys zs (slice_head st r n y (ys ++ zs) h).1

-- Moving a window to the front keeps it.
pub slice_front : (xs ys : Bytes) (n : ℕ) → n ≡ length xs → slice (xs ++ ys) 0 n ≡ xs
slice_front xs ys n e = ap (λ k. take k (xs ++ ys)) e ∙ take-append xs ys

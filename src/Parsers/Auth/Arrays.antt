-- ===== src/Parsers/Auth/Arrays.antt =====
-- The copy of a text into `uname` or `passwd` of `struct auth_parser`.
use tpe_protos_g.Base.{
  ℕ, suc, ◌-◌, ◌≤◌, ◌<◌, ◌≡◌, refl, ap, ap₂, ◌∙◌, arith, some, [], ◌∷◌, ◌++◌, pred8, take, Bytes,
  length, set, get_elem?, take-set, take-suc-set, length-set, c_string, c_string-take,
  get_elem?-eq-get_or, get_or-set_self,
}

-- An array of 256 bytes in which the last byte of a text and its NUL are written.
terminated :
    (a : Bytes) (n : ℕ) (acc : Bytes) (x : ℕ)
    → length a ≡ 256
    → suc n < 256
    → take n a ≡ acc
    → c_string (set (set a n x) (suc n) 0) ≡ c_string (acc ++ x ∷ [])
terminated a n acc x l h t = c_string-take _ (suc n) ended ∙ ap c_string kept
  where
    ended : get_elem? (set (set a n x) (suc n) 0) (suc n) ≡ some 0
    ended =
        get_elem?-eq-get_or (set (set a n x) (suc n) 0) (suc n) 1
          (omega (arith, length-set (set a n x) (suc n) 0, length-set a n x))
        ∙ ap some (get_or-set_self (set a n x) (suc n) 0 1 (omega (arith, length-set a n x)))

    kept : take (suc n) (set (set a n x) (suc n) 0) ≡ acc ++ x ∷ []
    kept =
        take-set (set a n x) (suc n) 0 ∙ take-suc-set a n x (omega arith) ∙ ap (λ t. t ++ x ∷ []) t

-- `acc` stands at the front of the array of 256 bytes, and `suc r` bytes are to come.
pub record Filling (a : Bytes) (len left r : ℕ) (acc : Bytes) : Type 0 where
  pub size : length a ≡ 256
  pub short : len < 256
  pub fits : suc r ≤ len
  pub remains : left ≡ suc r
  pub filled_so_far : take (len - suc r) a ≡ acc

pub Filling-next :
    (a : Bytes) (len left r : ℕ) (acc : Bytes) (x : ℕ)
    → Filling a len left (suc r) acc
    → Filling (set a (len - left) x) len (pred8 left) r (acc ++ x ∷ [])
Filling-next a len left r acc x f = record {
  size = omega (arith, length-set a (len - left) x);
  short = f.short;
  fits = omega arith;
  remains = omega arith;
  filled_so_far =
      ap₂ (λ k j. take k (set a j x)) next here
      ∙ take-suc-set a (len - suc (suc r)) x (omega arith)
      ∙ ap (λ t. t ++ x ∷ []) f.filled_so_far;
}
  where
    next : len - suc r ≡ suc (len - suc (suc r))
    next = omega arith

    here : len - left ≡ len - suc (suc r)
    here = omega arith

pub Filling-last :
    (a : Bytes) (len left : ℕ) (acc : Bytes) (x : ℕ)
    → Filling a len left 0 acc
    → c_string (set (set a (len - left) x) len 0) ≡ c_string (acc ++ x ∷ [])
Filling-last a len left acc x f =
    ap₂ (λ i j. c_string (set (set a i x) j 0)) here next
    ∙ terminated a (len - 1) acc x f.size (omega arith) f.filled_so_far
  where
    next : len ≡ suc (len - 1)
    next = omega arith

    here : len - left ≡ len - 1
    here = omega arith

pub Filling-start :
    (a : Bytes) (n : ℕ) → length a ≡ 256 → suc n < 256 → Filling a (suc n) (suc n) n []
Filling-start a n l h = record {
  size = l;
  short = h;
  fits = omega arith;
  remains = refl;
  filled_so_far = ap (λ k. take k a) nothing;
}
  where
    nothing : suc n - suc n ≡ 0
    nothing = omega arith

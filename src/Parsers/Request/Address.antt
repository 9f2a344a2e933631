-- ===== src/Parsers/Request/Address.antt =====
-- The copy of an address into the union of `struct request_addr`.
use tpe_protos_g.Base.{
  ℕ, suc, ◌+◌, ◌≤◌, ◌≡◌, refl, ap, ◌∙◌, sym, arith, some, [], ◌∷◌, ◌++◌, pred8, suc8, take, Bytes,
  length, length-append, set, get_elem?, take-set, take-suc-set, length-set, c_string,
  c_string-take, get_elem?-eq-get_or, get_or-set_self,
}

-- `acc` is copied to the front of the union's 256 bytes, and `suc r` bytes are to come.
pub record Copying (a : Bytes) (read left r : ℕ) (acc : Bytes) : Type 0 where
  pub size : length a ≡ 256
  pub fits : read + suc r ≤ 255
  pub remains : left ≡ suc r
  pub copied : take read a ≡ acc
  pub counted : length acc ≡ read

pub Copying-start : (a : Bytes) (r : ℕ) → length a ≡ 256 → suc r ≤ 255 → Copying a 0 (suc r) r []
Copying-start a r l h = record {
  size = l;
  fits = omega arith;
  remains = refl;
  copied = refl;
  counted = refl;
}

pub Copying-next :
    (a : Bytes) (read left r : ℕ) (acc : Bytes) (x : ℕ)
    → Copying a read left (suc r) acc
    → Copying (set a read x) (suc8 read) (pred8 left) r (acc ++ x ∷ [])
Copying-next a read left r acc x f = record {
  size = omega (arith, length-set a read x);
  fits = omega arith;
  remains = omega arith;
  copied =
      ap (λ k. take k (set a read x)) next
      ∙ take-suc-set a read x (omega arith)
      ∙ ap (λ t. t ++ x ∷ []) f.copied;
  counted = omega (arith, length-append acc (x ∷ []));
}
  where
    next : suc8 read ≡ suc read
    next = omega arith

-- the last byte
pub Copying-last :
    (a : Bytes) (read left : ℕ) (acc : Bytes) (x : ℕ)
    → Copying a read left 0 acc
    → take (length (acc ++ x ∷ [])) (set a read x) ≡ acc ++ x ∷ []
Copying-last a read left acc x f =
    ap (λ k. take k (set a read x)) all
    ∙ take-suc-set a read x (omega arith)
    ∙ ap (λ t. t ++ x ∷ []) f.copied
  where
    all : length (acc ++ x ∷ []) ≡ suc read
    all = omega (arith, length-append acc (x ∷ []))

-- the last byte of a name, and its NUL
pub Copying-name :
    (a : Bytes) (read left : ℕ) (acc : Bytes) (x : ℕ)
    → Copying a read left 0 acc
    → (take (length (acc ++ x ∷ [])) (set (set a read x) (suc8 read) 0) ≡ acc ++ x ∷ [])
      × (c_string (set (set a read x) (suc8 read) 0) ≡ c_string (acc ++ x ∷ []))
Copying-name a read left acc x f =
    (kept, c_string-take _ (suc8 read) ended ∙ ap c_string (ap (λ k. take k whole) at_end ∙ kept))
  where
    whole : Bytes
    whole = set (set a read x) (suc8 read) 0

    at_end : suc8 read ≡ length (acc ++ x ∷ [])
    at_end = omega (arith, length-append acc (x ∷ []))

    ended : get_elem? whole (suc8 read) ≡ some 0
    ended =
        get_elem?-eq-get_or whole (suc8 read) 1
          (omega (arith, length-set (set a read x) (suc8 read) 0, length-set a read x))
        ∙ ap some
            (get_or-set_self (set a read x) (suc8 read) 0 1 (omega (arith, length-set a read x)))

    kept : take (length (acc ++ x ∷ [])) whole ≡ acc ++ x ∷ []
    kept =
        ap (λ k. take k whole) (sym at_end)
        ∙ take-set (set a read x) (suc8 read) 0
        ∙ ap (λ k. take k (set a read x)) at_end
        ∙ Copying-last a read left acc x f

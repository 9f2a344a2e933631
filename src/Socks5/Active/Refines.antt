-- ===== src/Socks5/Active/Refines.antt =====
-- The links of the live sessions (src/shared/socks5.c) stand for a list, and adding and removing a
-- session are those of the list.
use tpe_protos_g.Base.{
  ℕ, ◌≡◌, refl, sym, ap, subst, ◌∙◌, arith, Option, none, some, List, [], ◌∷◌, ◌==◌, false,
}
use tpe_protos_g.Socks5.Active.{Heap, active_list_add, active_list_remove}

abbrev pub Fresh : ℕ → List ℕ → Type 0
Fresh s [] = Unit {0}
Fresh s (x ∷ xs) = ((s == x) ≡ false) × ((x == s) ≡ false) × Fresh s xs

abbrev pub Distinct : List ℕ → Type 0
Distinct [] = Unit {0}
Distinct (x ∷ xs) = Fresh x xs × Distinct xs

-- From `start` on, behind `prev`, the links go through the list and back.
abbrev pub Linked : Heap → Option ℕ → Option ℕ → List ℕ → Type 0
Linked h prev start [] = start ≡ none
Linked h prev start (x ∷ xs) =
    (start ≡ some x)
    × ((h.links x).active_prev ≡ prev)
    × Linked h (some x) (h.links x).active_next xs

pub record Stands (h : Heap) (xs : List ℕ) : Type 0 where
  pub linked : Linked h none h.head xs
  pub distinct : Distinct xs

-- The links of the members are all that matters.
abbrev pub Agree : Heap → Heap → List ℕ → Type 0
Agree h h' [] = Unit {0}
Agree h h' (x ∷ xs) = (h'.links x ≡ h.links x) × Agree h h' xs

pub Agree-Linked :
    (h h' : Heap) (prev start : Option ℕ) (xs : List ℕ)
    → Agree h h' xs
    → Linked h prev start xs
    → Linked h' prev start xs
Agree-Linked h h' prev start [] a l = l
Agree-Linked h h' prev start (x ∷ xs) (a, rest) (s, p, l) = (
  s,
  ap (λ k. k.active_prev) a ∙ p,
  subst (λ k. Linked h' (some x) k.active_next xs) (sym a)
      (Agree-Linked h h' (some x) (h.links x).active_next xs rest l),
)

-- Where active_list_add leaves the links of a session alone.
add_elsewhere :
    (h : Heap) (s x t : ℕ)
    → h.head ≡ some x
    → (s == t) ≡ false
    → (x == t) ≡ false
    → (active_list_add s h).links t ≡ h.links t
unfolding active_list_add
add_elsewhere h s x t e f g = ground (arith, e, f, g)

add-Agree :
    (h : Heap) (s x : ℕ) (xs : List ℕ)
    → h.head ≡ some x
    → Fresh s xs
    → Fresh x xs
    → Agree h (active_list_add s h) xs
add-Agree h s x [] e f g = tt
add-Agree h s x (y ∷ ys) e (f, f', fs) (g, g', gs) =
    (add_elsewhere h s x y e f g, add-Agree h s x ys e fs gs)

add_first :
    (h : Heap) (s x : ℕ)
    → h.head ≡ some x
    → (s == x) ≡ false
    → (x == s) ≡ false
    → (((active_list_add s h).links s).active_prev ≡ none)
      × (((active_list_add s h).links s).active_next ≡ some x)
      × (((active_list_add s h).links x).active_prev ≡ some s)
      × (((active_list_add s h).links x).active_next ≡ (h.links x).active_next)
unfolding active_list_add
add_first h s x e f g = (
  ground (arith, e, f, g),
  ground (arith, e, f, g),
  ground (arith, e, f, g),
  ground (arith, e, f, g),
)

add_to_none :
    (h : Heap) (s : ℕ)
    → h.head ≡ none
    → (((active_list_add s h).links s).active_prev ≡ none)
      × (((active_list_add s h).links s).active_next ≡ none)
unfolding active_list_add
add_to_none h s e = (ground (arith, e), ground (arith, e))

-- Adding a session that is not in the list puts it in front.
pub add-Stands :
    (h : Heap) (s : ℕ) (xs : List ℕ)
    → Stands h xs
    → Fresh s xs
    → Stands (active_list_add s h) (s ∷ xs)
unfolding active_list_add
add-Stands h s [] v f =
    let (p, n) = add_to_none h s v.linked in record { linked = (refl, p, n); distinct = (tt, tt) }
add-Stands h s (x ∷ xs) v (f, f', fs) =
    let (e, p, l) = v.linked in
    let (p', n', q, m) = add_first h s x e f f' in
    record {
      linked = (
        refl,
        p',
        (
          n',
          q,
          subst (λ t. Linked (active_list_add s h) (some x) t xs) (sym m)
              (Agree-Linked h (active_list_add s h) (some x) (h.links x).active_next xs
                (add-Agree h s x xs e fs v.distinct.0) l),
        ),
      );
      distinct = ((f, f', fs), v.distinct);
    }

-- The session that goes is behind `left` and before `right`.
abbrev pub next_of : ℕ → Heap → Option ℕ
next_of s h = (h.links s).active_next

abbrev pub prev_of : ℕ → Heap → Option ℕ
prev_of s h = (h.links s).active_prev

-- a link that is not the one to a session
abbrev pub Not : Option ℕ → ℕ → Type 0
Not none t = Unit {0}
Not (some x) t = ((x == t) ≡ false) × ((t == x) ≡ false)

module _ (h : Heap) (s : ℕ) where
  abbrev pub after : Heap
  after = active_list_remove s h

  pub remove_elsewhere :
      (p n : Option ℕ) (t : ℕ)
      → prev_of s h ≡ p
      → next_of s h ≡ n
      → Not p s
      → (s == t) ≡ false
      → Not p t
      → Not n t
      → after.links t ≡ h.links t
  unfolding active_list_remove
  remove_elsewhere none none t e f a b c d = ground (arith, e, f, a, b, c, d)
  remove_elsewhere none (some y) t e f a b c d = ground (arith, e, f, a, b, c, d)
  remove_elsewhere (some x) none t e f a b c d = ground (arith, e, f, a, b, c, d)
  remove_elsewhere (some x) (some y) t e f a b c d = ground (arith, e, f, a, b, c, d)

  -- the session before it
  pub remove_before :
      (p : ℕ) (n : Option ℕ)
      → prev_of s h ≡ some p
      → next_of s h ≡ n
      → Not (some p) s
      → Not n p
      → (prev_of p after ≡ prev_of p h) × (next_of p after ≡ n) × (after.head ≡ h.head)
  unfolding active_list_remove
  remove_before p none e f a b = ground (arith, e, f, a, b)
  remove_before p (some y) e f a b = ground (arith, e, f, a, b)

  -- the session behind it
  pub remove_behind :
      (p : Option ℕ) (n : ℕ)
      → prev_of s h ≡ p
      → next_of s h ≡ some n
      → Not p s
      → Not (some n) s
      → Not p n
      → (prev_of n after ≡ p) × (next_of n after ≡ next_of n h)
  unfolding active_list_remove
  remove_behind none n e f a b c = ground (arith, e, f, a, b, c)
  remove_behind (some x) n e f a b c = ground (arith, e, f, a, b, c)

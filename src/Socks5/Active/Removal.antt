-- ===== src/Socks5/Active/Removal.antt =====
-- Taking a live session out of the links (src/shared/socks5.c, socksv5_done) takes it out of the list.
use tpe_protos_g.Base.{
  ℕ, ◌≡◌, refl, sym, ap, subst, subst₂, ◌∙◌, arith, Option, none, some, List, [], ◌∷◌, ◌==◌, ==_iff,
  ◌||◌, if◌then◌else◌, Bool, true, false, Bool-cases, inl, inr,
}
use tpe_protos_g.Socks5.Active.{Links, Heap, update_if, bypass, active_list_remove}
use tpe_protos_g.Socks5.Active.Refines.{
  Fresh, Distinct, Linked, Stands, Agree, Agree-Linked, Not, next_of, prev_of, after,
  remove_elsewhere, remove_before, remove_behind,
}

abbrev pub removed : ℕ → List ℕ → List ℕ
removed s [] = []
removed s (x ∷ xs) = if x == s then xs else x ∷ removed s xs

abbrev pub is_in : ℕ → List ℕ → Bool
is_in s [] = false
is_in s (x ∷ xs) = (x == s) || is_in s xs

-- a link to none of the list
abbrev Outside : Option ℕ → List ℕ → Type 0
Outside none xs = Unit {0}
Outside (some p) xs = Fresh p xs

first-Not : (p : Option ℕ) (x : ℕ) (xs : List ℕ) → Outside p (x ∷ xs) → Not p x
first-Not none x xs o = tt
first-Not (some p) x xs (f, f', o) = (f, f')

rest-Outside : (p : Option ℕ) (x : ℕ) (xs : List ℕ) → Outside p (x ∷ xs) → Outside p xs
rest-Outside none x xs o = tt
rest-Outside (some p) x xs (f, f', o) = o

update_if-head : (o : Option ℕ) (f : Links → Links) (h : Heap) → (update_if o f h).head ≡ h.head
update_if-head none f h = refl
update_if-head (some t) f h = refl

module _ (h : Heap) (s : ℕ) where
  -- where a list begins that a session other than `x` may be in
  start-Not :
      (p start : Option ℕ) (x : ℕ) (xs : List ℕ) → Linked h p start xs → Fresh x xs → Not start x
  start-Not p start x [] l f = subst (λ t. Not t x) (sym l) tt
  start-Not p start x (y ∷ ys) (e, q, l) (f, f', fs) = subst (λ t. Not t x) (sym e) (f', f)

  -- The links of the session that goes lead into the list, or to what was before it.
  links-Not :
      (p start : Option ℕ) (x : ℕ) (xs : List ℕ)
      → Linked h p start xs
      → is_in s xs ≡ true
      → Fresh x xs
      → Not p x
      → Not (prev_of s h) x × Not (next_of s h) x
  links-Not p start x [] l m f n = absurd (cc)
  links-Not p start x (y ∷ ys) (e, q, l) m (f, f', fs) n = elim (Bool-cases (y == s)) [
    | inl here ↦
        let at : y ≡ s = (==_iff y s).0 here in
        subst (λ t. Not (prev_of t h) x × Not (next_of t h) x) at
          (subst (λ t. Not t x) (sym q) n, start-Not (some y) (next_of y h) x ys l fs)
    | inr there ↦ links-Not (some y) (next_of y h) x ys l (ground (arith, m, there)) fs (f', f)
  ]

  prev-Not :
      (p start : Option ℕ) (xs : List ℕ)
      → Linked h p start xs
      → is_in s xs ≡ true
      → Distinct xs
      → Outside p xs
      → Not (prev_of s h) s
  prev-Not p start [] l m d o = absurd (cc)
  prev-Not p start (y ∷ ys) (e, q, l) m d o = elim (Bool-cases (y == s)) [
    | inl here ↦
        let at : y ≡ s = (==_iff y s).0 here in
        subst (λ t. Not (prev_of t h) t) at (subst (λ t. Not t y) (sym q) (first-Not p y ys o))
    | inr there ↦ prev-Not (some y) (next_of y h) ys l (ground (arith, m, there)) d.1 d.0
  ]

  remove-Agree :
      (p n : Option ℕ) (xs : List ℕ)
      → prev_of s h ≡ p
      → next_of s h ≡ n
      → Not p s
      → Fresh s xs
      → Outside p xs
      → Outside n xs
      → Agree h (after h s) xs
  remove-Agree p n [] e f a b c d = tt
  remove-Agree p n (x ∷ xs) e f a (b, b', bs) c d = (
    remove_elsewhere h s p n x e f a b (first-Not p x xs c) (first-Not n x xs d),
    remove-Agree p n xs e f a bs (rest-Outside p x xs c) (rest-Outside n x xs d),
  )

  -- where the list of a link goes on without the session
  abbrev skip : Option ℕ → Option ℕ
  skip none = none
  skip (some x) = if x == s then next_of s h else some x

  -- The session is the first of what is left.
  first_gone :
      (p : Option ℕ) (xs : List ℕ)
      → prev_of s h ≡ p
      → Linked h (some s) (next_of s h) xs
      → Fresh s xs
      → Distinct xs
      → Outside p xs
      → Not p s
      → Linked (after h s) p (next_of s h) xs
  first_gone p [] e l f d o a = l
  first_gone p (y ∷ ys) e (n, q, l) (f, f', fs) d o a =
      let (back, on) = remove_behind h s p y e n a (f', f) (first-Not p y ys o) in
      (
        n,
        back,
        subst (λ t. Linked (after h s) (some y) t ys) (sym on)
            (Agree-Linked h (after h s) (some y) (next_of y h) ys
              (remove-Agree p (some y) ys e n a fs (rest-Outside p y ys o) d.0) l),
      )

  -- A session before the one that goes.
  near :
      (p start : Option ℕ) (x : ℕ) (xs : List ℕ)
      → Linked h p start (x ∷ xs)
      → (x == s) ≡ false
      → is_in s xs ≡ true
      → Distinct (x ∷ xs)
      → Outside p (x ∷ xs)
      → (prev_of x (after h s) ≡ prev_of x h) × (next_of x (after h s) ≡ skip (next_of x h))
  near p start x [] l b m d o = absurd (cc)
  near p start x (y ∷ ys) (e, q, (n, r, l)) b m d o = elim (Bool-cases (y == s)) [
    | inl here ↦
        let at : y ≡ s = (==_iff y s).0 here in
        let behind : Not (next_of s h) x =
          subst (λ t. Not (next_of t h) x) at (start-Not (some y) (next_of y h) x ys l d.0.2) in
        let back : prev_of s h ≡ some x = subst (λ t. prev_of t h ≡ some x) at r in
        let (same, on, top) =
          remove_before h s x (next_of s h) back refl (b, ground (arith, b)) behind in
        (same, on ∙ sym (ap skip n ∙ ap (λ t. if t then next_of s h else some y) here))
    | inr there ↦
        let m' : is_in s ys ≡ true = ground (arith, m, there) in
        let (before, behind) = links-Not (some y) (next_of y h) x ys l m' d.0.2 (d.0.1, d.0.0) in
        let self = prev-Not p start (x ∷ y ∷ ys) (e, q, (n, r, l)) (ground (arith, m)) d o in
        let same =
          remove_elsewhere h s (prev_of s h) (next_of s h) x refl refl self (ground (arith, b))
            before behind in
        (
          ap (λ k. k.active_prev) same,
          ap (λ k. k.active_next) same
              ∙ n
              ∙ sym (ap skip n ∙ ap (λ t. if t then next_of s h else some y) there),
        )
  ]

  gone-Linked :
      (p start : Option ℕ) (xs : List ℕ)
      → Linked h p start xs
      → Distinct xs
      → Outside p xs
      → is_in s xs ≡ true
      → Linked (after h s) p (skip start) (removed s xs)
  gone-Linked p start [] l d o m = absurd (cc)
  gone-Linked p start (x ∷ xs) (e, q, l) d o m = elim (Bool-cases (x == s)) [
    | inl here ↦
        let at : x ≡ s = (==_iff x s).0 here in
        let step : skip start ≡ next_of s h =
          ap skip e ∙ ap (λ t. if t then next_of s h else some x) here in
        subst₂ (Linked (after h s) p) (sym step)
          (sym (ap (λ t. if t then xs else x ∷ removed s xs) here))
          (first_gone p xs (subst (λ t. prev_of t h ≡ p) at q)
            (subst (λ t. Linked h (some t) (next_of t h) xs) at l) (subst (λ t. Fresh t xs) at d.0)
            d.1 (rest-Outside p x xs o) (subst (Not p) at (first-Not p x xs o)))
    | inr there ↦
        let m' : is_in s xs ≡ true = ground (arith, m, there) in
        let step : skip start ≡ some x =
          ap skip e ∙ ap (λ t. if t then next_of s h else some x) there in
        let (same, on) = near p start x xs (e, q, l) there m' d o in
        subst₂ (Linked (after h s) p) (sym step)
          (sym (ap (λ t. if t then xs else x ∷ removed s xs) there))
          (
            refl,
            same ∙ q,
            subst (λ t. Linked (after h s) (some x) t (removed s xs)) (sym on)
                (gone-Linked (some x) (next_of x h) xs l d.1 d.0 m'),
          )
  ]

  removed-Fresh : (x : ℕ) (xs : List ℕ) → Fresh x xs → Fresh x (removed s xs)
  removed-Fresh x [] f = tt
  removed-Fresh x (y ∷ ys) (f, f', fs) = by (y == s) (removed-Fresh x ys fs)
    where
      by : (b : Bool) → Fresh x (removed s ys) → Fresh x (if b then ys else y ∷ removed s ys)
      by true rest = fs
      by false rest = (f, f', rest)

  removed-Distinct : (xs : List ℕ) → Distinct xs → Distinct (removed s xs)
  removed-Distinct [] d = tt
  removed-Distinct (x ∷ xs) (f, d) = by (x == s) (removed-Distinct xs d)
    where
      by : (b : Bool) → Distinct (removed s xs) → Distinct (if b then xs else x ∷ removed s xs)
      by true rest = d
      by false rest = (removed-Fresh x xs f, rest)

  -- the head behind it
  abbrev head_without : Option ℕ → Option ℕ
  head_without none = next_of s h
  head_without (some p) = h.head

  bypass-head : (p : Option ℕ) → (bypass p (next_of s h) h).head ≡ head_without p
  bypass-head none = refl
  bypass-head (some p) = refl

  -- Only the first session has none before it.
  inner :
      (y : ℕ) (start : Option ℕ) (xs : List ℕ)
      → Linked h (some y) start xs
      → is_in s xs ≡ true
      → (p : ℕ) × (prev_of s h ≡ some p)
  inner y start [] l m = absurd (cc)
  inner y start (x ∷ xs) (e, q, l) m = elim (Bool-cases (x == s)) [
    | inl here ↦ (y, subst (λ t. prev_of t h ≡ some y) ((==_iff x s).0 here) q)
    | inr there ↦ inner x (next_of x h) xs l (ground (arith, m, there))
  ]

  remove_head : (p : Option ℕ) → prev_of s h ≡ p → (after h s).head ≡ head_without p
  unfolding active_list_remove
  remove_head p e =
      update_if-head _ _ (bypass (prev_of s h) (next_of s h) h)
      ∙ bypass-head (prev_of s h)
      ∙ ap head_without e

  after-Linked :
      (xs : List ℕ)
      → Linked h none h.head xs
      → Distinct xs
      → is_in s xs ≡ true
      → Linked (after h s) none (after h s).head (removed s xs)
  after-Linked xs l d m =
      subst (λ t. Linked (after h s) none t (removed s xs)) (sym (top xs l m))
        (gone-Linked none h.head xs l d tt m)
    where
      top :
          (xs : List ℕ)
          → Linked h none h.head xs
          → is_in s xs ≡ true
          → (after h s).head ≡ skip h.head
      top [] l m = absurd (cc)
      top (x ∷ xs) (e, q, l) m = elim (Bool-cases (x == s)) [
        | inl here ↦
            remove_head none (subst (λ t. prev_of t h ≡ none) ((==_iff x s).0 here) q)
            ∙ sym (ap skip e ∙ ap (λ t. if t then next_of s h else some x) here)
        | inr there ↦
            let (p, back) = inner x (next_of x h) xs l (ground (arith, m, there)) in
            remove_head (some p) back
            ∙ e
            ∙ sym (ap skip e ∙ ap (λ t. if t then next_of s h else some x) there)
      ]

-- For links that stand for a list of different sessions, in which the session is: socksv5_done leaves
-- links that stand for the list without it, in the same order, and clears the two of the session.
pub remove-Stands :
    (h : Heap) (s : ℕ) (xs : List ℕ)
    → Stands h xs
    → is_in s xs ≡ true
    → Stands (active_list_remove s h) (removed s xs)
      × ((active_list_remove s h).links s ≡ record { active_prev = none; active_next = none })
unfolding active_list_remove
remove-Stands h s xs v m = (
  record {
    linked = after-Linked h s xs v.linked v.distinct m;
    distinct = removed-Distinct h s xs v.distinct;
  },
  ground arith,
)

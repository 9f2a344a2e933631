-- ===== src/Selector/Interest.antt =====
-- selector_set_interest (src/shared/selector.c) on the map of registrations.
use tpe_protos_g.Base.{
  ℕ, ◌<◌, ◌≡◌, inl, inr, refl, arith, some, none, Option, false, ltb, leb, if◌then◌else◌, ◌==◌,
  Option-cases, Bool-cases, get_or, ap, ◌∙◌, pos,
}
use native.Mathlib.Decide.{ℕ_discrete}
use tpe_protos_g.Selector.{success, iargs, Item, Selector, blank, selector_set_interest}
use tpe_protos_g.Selector.Registration.{updated, registered-updated, updated-IsValid, update_lem}
use tpe_protos_g.Selector.Table.{
  IsValid, Registration, registration, registered, items_of, access_inside, access_outside,
  unused_fd, used_fd,
}

module _ {H D : Type 0} where
  abbrev pub with_interest : ℕ → Option (Registration H D) → Option (Registration H D)
  with_interest interest none = none
  with_interest interest (some r) = some (record r { interest = interest })

  registration-interest :
      (interest : ℕ) (item : Item H D)
      → registration (record item { interest = interest })
        ≡ with_interest interest (registration item)
  registration-interest interest item = elim (Option-cases item.fd) [
    | inl unused ↦ ground (arith, unused)
    | inr (n, used) ↦ ground (arith, used)
  ]

  module _ (s : Selector H D) (v : IsValid s) (n interest : ℕ) where
    abbrev item' : Item H D
    item' = record (get_or (items_of s) n blank) { interest = interest }

    set_used :
        (r : Registration H D)
        → n < s.fd_size
        → n < 1024
        → registered s n ≡ some r
        → selector_set_interest s (pos n) interest ≡ some (success, updated s n item' s.max_fd)
    unfolding selector_set_interest
    set_used r h small taken =
        let fits : leb 1024 n ≡ false = ground arith in
        let used : (get_or (items_of s) n blank).fd ≡ some n =
          used_fd (get_or (items_of s) n blank) r taken ∙ ap some (v.placed n r taken).0 in
        rw fits (access_inside s v n _ h ∙ ground (arith, used, update_lem s n s.max_fd item' used))

    set_unused :
        n < s.fd_size
        → n < 1024
        → registered s n ≡ none
        → selector_set_interest s (pos n) interest ≡ some (iargs, s)
    unfolding selector_set_interest
    set_unused h small free =
        let fits : leb 1024 n ≡ false = ground arith in
        rw fits (access_inside s v n _ h ∙ rw (unused_fd (get_or (items_of s) n blank) free))

    changed :
        (j : ℕ)
        → (if n == j then registration item' else registered s j)
          ≡ (if n == j then with_interest interest (registered s j) else registered s j)
    changed j = elim (ℕ_discrete n j) [
      | yes same ↦ ground (
        arith,
        same,
        registration-interest interest (get_or (items_of s) n blank),
        ap (λ k. registered s k) same,
      )
      | no other ↦ ground (arith, other)
    ]

    set_inside :
        n < s.fd_size
        → n < 1024
        → (s' : Selector H D) × (selector_set_interest s (pos n) interest
            ≡ some (elim (registered s n) [ none ↦ iargs | some r ↦ success ], s'))
          × IsValid s'
          × ((j : ℕ)
              → registered s' j
                ≡ (if n == j then with_interest interest (registered s j) else registered s j))
    set_inside h small = elim (Option-cases (registered s n)) [
      | inl free ↦ (s, set_unused h small free ∙ rw free, v, λ j. ground (arith, free))
      | inr (r, taken) ↦
          let used : item'.fd ≡ some n =
            used_fd (get_or (items_of s) n blank) r taken ∙ ap some (v.placed n r taken).0 in
          let (here, below, _) = v.placed n r taken in
          (
            updated s n item' s.max_fd,
            set_used r h small taken ∙ rw taken,
            updated-IsValid s v n s.max_fd item' h used small (omega arith) below (inr refl),
            λ j. registered-updated s v n s.max_fd item' h j ∙ changed j,
          )
    ]

  -- For a valid selector and a descriptor inside its table: selector_set_interest leaves a valid
  -- selector with the new interest for that descriptor, and no other change; if nothing is registered
  -- for it, that is SELECTOR_IARGS. Past the table it accesses memory out of bounds.
  pub set_interest-IsValid :
      (s : Selector H D) (n interest : ℕ)
      → IsValid s
      → n < 1024
      → (if ltb n s.fd_size
          then ((s' : Selector H D) × (selector_set_interest s (pos n) interest
                ≡ some (elim (registered s n) [ none ↦ iargs | some r ↦ success ], s'))
              × IsValid s'
              × ((j : ℕ)
                  → registered s' j
                    ≡ (if n == j then with_interest interest (registered s j) else registered s j)))
          else (selector_set_interest s (pos n) interest ≡ none))
  unfolding selector_set_interest
  set_interest-IsValid s n interest v small = elim (Bool-cases (ltb n s.fd_size)) [
    | inl inside ↦ rw inside (set_inside s v n interest (ground arith) small)
    | inr past ↦
        let fits : leb 1024 n ≡ false = ground arith in
        rw past (rw fits (access_outside s v n _ (ground arith)))
  ]

-- ===== src/Selector/Registration.antt =====
-- selector_register and selector_set_interest (src/shared/selector.c) on the map of registrations.
use tpe_protos_g.Base.{
  ℕ, ◌≤◌, ◌<◌, ◌≡◌, ◌≢◌, ◌⊎◌, ◌↔◌, inl, inr, refl, arith, some, none, Option, ltb, ◌&&◌,
  if◌then◌else◌, ◌==◌, Option-cases, length-set, get_or, set, ap, ◌∙◌, pos,
}
use native.Mathlib.Decide.{ℕ_discrete, dec_lt}
use tpe_protos_g.Selector.{
  Status, success, fdinuse, is_success, Item, Selector, Allocator, blank, wants, op_read, op_write,
  fd_set, fd_clr, items_update_fdset_for_fd, take_item, selector_register,
}
use tpe_protos_g.Selector.Growth.{ensure_grows, with_grown, with_grown-IsValid}
use tpe_protos_g.Selector.Table.{
  IsValid, Registration, registration, registered, items_of, registered-set, access_inside,
  access_outside, unused_fd, used_fd,
}

module _ {H D : Type 0} where
  -- the selector with another item at `n`, and the sets of it
  abbrev pub updated : Selector H D → ℕ → Item H D → ℕ → Selector H D
  updated s n item max_fd = record s {
    fds = some (set (items_of s) n item);
    max_fd = max_fd;
    master_r =
        if wants item.interest op_read then fd_set n (fd_clr n s.master_r) else fd_clr n s.master_r;
    master_w =
        if wants item.interest op_write
        then fd_set n (fd_clr n s.master_w)
        else fd_clr n s.master_w;
  }

  pub update_lem :
      (s : Selector H D) (n max_fd : ℕ) (item : Item H D)
      → item.fd ≡ some n
      → items_update_fdset_for_fd
          (record s { fds = some (set (items_of s) n item); max_fd = max_fd })
          item
        ≡ some (updated s n item max_fd)
  unfolding items_update_fdset_for_fd
  update_lem s n max_fd item used = rw used

  module _ (s : Selector H D) (v : IsValid s) (n max_fd : ℕ) (item : Item H D)
      (h : n < s.fd_size) where
    pub registered-updated :
        (j : ℕ)
        → registered (updated s n item max_fd) j
          ≡ (if n == j then registration item else registered s j)
    registered-updated j = registered-set (items_of s) n j item (omega (arith, v.sized))

    updated_at : registered (updated s n item max_fd) n ≡ registration item
    updated_at = ground (arith, registered-updated n)

    abbrev entered : Registration H D
    entered = record {
      fd = n;
      interest = item.interest;
      handler = item.handler;
      user_data = item.user_data;
    }

    updated_top :
        item.fd ≡ some n
        → (max_fd ≡ n) ⊎ (max_fd ≡ s.max_fd)
        → (max_fd ≡ 0)
          ⊎ ((r : Registration H D) × (registered (updated s n item max_fd) max_fd ≡ some r))
    updated_top used max_is = elim (ℕ_discrete n max_fd) [
      | yes top ↦ inr (entered, ground (arith, used, top, registered-updated max_fd))
      | no below ↦ elim v.highest [
        | inl none_yet ↦ inl (omega (arith, max_is))
        | inr (r, e) ↦
            let old : s.max_fd ≡ max_fd = omega (arith, max_is) in
            inr
              (r, ground (arith, below, registered-updated max_fd, ap (λ k. registered s k) old, e))
      ]
    ]

    -- The item is in use, under its own descriptor: the sets stay those of the interests.
    pub updated-IsValid :
        item.fd ≡ some n
        → n < 1024
        → s.max_fd ≤ max_fd
        → n ≤ max_fd
        → (max_fd ≡ n) ⊎ (max_fd ≡ s.max_fd)
        → IsValid (updated s n item max_fd)
    updated-IsValid used small lo here max_is = record {
      stored = refl;
      sized = omega (arith, v.sized, length-set (items_of s) n item);
      bounded = v.bounded;
      max_inside = omega (arith, v.max_inside);
      placed = λ i r e. ground (arith, used, registered-updated i, v.placed i r, e);
      highest = updated_top used max_is;
      reads = λ i. ground (arith, used, registered-updated i, v.reads i);
      writes = λ i. ground (arith, used, registered-updated i, v.writes i);
    }

  -- Step 2 of selector_register, inside the table: a new registration, or the descriptor is taken.
  module _ (s : Selector H D) (v : IsValid s) (n : ℕ) (handler : H) (interest : ℕ)
      (user_data : Option D) where
    abbrev new_item : Item H D
    new_item = record {
      fd = some n;
      interest = interest;
      handler = some handler;
      user_data = user_data;
    }

    abbrev new_max : ℕ
    new_max = if ltb s.max_fd n then n else s.max_fd

    take_free :
        n < s.fd_size
        → registered s n ≡ none
        → take_item s n handler interest user_data ≡ some (success, updated s n new_item new_max)
    unfolding take_item items_update_fdset_for_fd
    take_free h free = access_inside s v n _ h ∙ rw (unused_fd (get_or (items_of s) n blank) free)

    take_used :
        (r : Registration H D)
        → n < s.fd_size
        → registered s n ≡ some r
        → take_item s n handler interest user_data ≡ some (fdinuse, s)
    unfolding take_item
    take_used r h taken =
        access_inside s v n _ h ∙ rw (used_fd (get_or (items_of s) n blank) r taken)

    take_outside : s.fd_size ≤ n → take_item s n handler interest user_data ≡ none
    unfolding take_item
    take_outside h = access_outside s v n _ h

    -- What a registration owes: a valid selector, with the new registration if the descriptor was
    -- free, and else with SELECTOR_FDINUSE and the registrations that were there.
    abbrev pub Registers : Option (Status × Selector H D) → Type 0
    Registers result =
        (status : Status) × (s' : Selector H D) × (result ≡ some (status, s'))
        × IsValid s'
        × (status ≡ elim (registered s n) [ none ↦ success | some r ↦ fdinuse ])
        × ((j : ℕ)
            → registered s' j ≡ (
                if is_success status && (n == j)
                then some (record {
                  fd = n;
                  interest = interest;
                  handler = some handler;
                  user_data = user_data;
                })
                else registered s j))

    take-Registers : n < s.fd_size → n < 1024 → Registers (take_item s n handler interest user_data)
    take-Registers h small = elim (Option-cases (registered s n)) [
      | inl free ↦ (
        success,
        updated s n new_item new_max,
        take_free h free,
        updated-IsValid s v n new_max new_item h refl small (ground arith) (ground arith)
            (ground arith),
        rw free,
        λ j. registered-updated s v n new_max new_item h j ∙ ground arith,
      )
      | inr (r, taken) ↦ (fdinuse, s, take_used r h taken, v, rw taken, λ j. ground arith)
    ]

  -- For a valid selector and a descriptor below FD_SETSIZE, with memory: selector_register leaves a
  -- valid selector. If the descriptor was free it has the new registration, and else
  -- SELECTOR_FDINUSE is returned; every other registration stays. The one descriptor that is left
  -- out is the one that equals the size of the table.
  pub register-Registers :
      (a : Allocator H D) (s : Selector H D) (n : ℕ) (handler : H) (interest : ℕ)
      (user_data : Option D)
      → (v : IsValid s) → ((c : ℕ) → (junk : ℕ → Item H D) × (a.realloc c ≡ some junk))
      → n < 1024
      → n ≢ s.fd_size
      → Registers s v n handler interest user_data
          (selector_register a s (pos n) (some handler) interest user_data)
  unfolding selector_register
  register-Registers a s n handler interest user_data v memory small other =
      elim (dec_lt n s.fd_size) [
        | yes inside ↦
            let (status, s', e, w, is, all) =
              take-Registers s v n handler interest user_data inside small in
            (status, s', ground (arith, small, inside, e), w, is, all)
        | no past ↦
            let (c, above, below, e) = ensure_grows a s n v (omega arith) (omega arith) in
            let (junk, given) = memory c in
            let (w, same) = with_grown-IsValid junk c s v (omega arith) below in
            let (status, s', taken, w', is, all) =
              take-Registers (with_grown junk c s) w n handler interest user_data above small in
            (
              status,
              s',
              ground (arith, small, past, other, e, given, taken),
              w',
              is ∙ ap (λ r. elim r [ none ↦ success | some x ↦ fdinuse ]) (same n),
              λ j. ground (arith, all j, same j),
            )
      ]

  -- For a valid selector, a descriptor below FD_SETSIZE and memory: selector_register accesses the
  -- table out of its bounds exactly when the descriptor equals the size of the table.
  pub register_outside_iff :
      (a : Allocator H D) (s : Selector H D) (n : ℕ) (handler : H) (interest : ℕ)
      (user_data : Option D)
      → IsValid s
      → ((c : ℕ) → (junk : ℕ → Item H D) × (a.realloc c ≡ some junk))
      → n < 1024
      → (selector_register a s (pos n) (some handler) interest user_data ≡ none) ↔ (n ≡ s.fd_size)
  unfolding selector_register
  register_outside_iff a s n handler interest user_data v memory small = (
    λ fails. elim (ℕ_discrete n s.fd_size) [
      | yes same ↦ same
      | no other ↦
          let (status, s', e, w, is, all) =
            register-Registers a s n handler interest user_data v memory small other in
          absurd (ground (arith, fails, e))
    ],
    λ same.
        let outside : take_item s n handler interest user_data ≡ none =
          take_outside s v n handler interest user_data (omega arith) in
        ground (arith, small, same, outside),
  )

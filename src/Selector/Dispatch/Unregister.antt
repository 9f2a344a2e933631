-- ===== src/Selector/Dispatch/Unregister.antt =====
-- selector_unregister_fd (src/shared/selector.c) on the map of registrations, and its `max_fd`.
use tpe_protos_g.Base.{
  ℕ, zero, suc, ◌+◌, ◌≤◌, ◌<◌, ◌≡◌, ◌⊎◌, inl, inr, refl, arith, some, none, Option, false, List,
  ltb, leb, ◌==◌, if◌then◌else◌, Bool-cases, Option-cases, ap, ap₂, subst, ◌∙◌, get_or,
  get_elem?-eq-get_or, set, length, length-set, pos,
}
use native.Mathlib.Decide.{ℕ_discrete}
use tpe_protos_g.Selector.{success, Item, Selector, blank, op_noop, max_loop, items_max_fd}
use tpe_protos_g.Selector.Dispatch.{FdHandler, Key, clear_item, close_item, selector_unregister_fd}
use tpe_protos_g.Selector.Registration.{updated, update_lem}
use tpe_protos_g.Selector.Table.{
  IsValid, Registration, registered, registered_in, items_of, registered-set, access_inside,
  unused_fd, used_fd, registration_fields,
}

module _ {H D : Type 0} where
  -- The largest descriptor in use from index `i` on, or `low` if none is larger.
  record MaxOf (items : List (Item H D)) (i rounds low m : ℕ) : Type 0 where
    least : low ≤ m
    over :
        (j : ℕ) (r : Registration H D)
        → registered_in items j ≡ some r
        → i ≤ j
        → j < i + rounds
        → j ≤ m
    reached : (m ≡ low) ⊎ ((r : Registration H D) × (registered_in items m ≡ some r))

  module _ (items : List (Item H D))
      (placed : (i : ℕ) (r : Registration H D) → registered_in items i ≡ some r → r.fd ≡ i) where
    max_round :
        (rounds i low : ℕ)
        → i < length items
        → max_loop (suc rounds) i low items
          ≡ max_loop rounds
              (i + 1)
              (elim (registered_in items i) [ none ↦ low | some r ↦ if ltb low i then i else low ])
              items
    unfolding max_loop
    max_round rounds i low h =
        let found = get_elem?-eq-get_or items i blank h in
        elim (Option-cases (registered_in items i)) [
          | inl free ↦ let unused = unused_fd (get_or items i blank) free in rw found (rw unused)
          | inr (q, e) ↦
              let used = used_fd (get_or items i blank) q e ∙ ap some (placed i q e) in
              rw found (rw used)
        ]

    reached_with :
        (i low m : ℕ) (q : Registration H D)
        → registered_in items i ≡ some q
        → (m ≡ (if ltb low i then i else low))
          ⊎ ((r : Registration H D) × (registered_in items m ≡ some r))
        → (m ≡ low) ⊎ ((r : Registration H D) × (registered_in items m ≡ some r))
    reached_with i low m q used (inl e) = elim (Bool-cases (ltb low i)) [
      | inl above ↦
          let here : i ≡ m = ground (arith, above, e) in
          inr (q, subst (λ k. registered_in items k ≡ some q) here used)
      | inr below ↦ inl (ground (arith, below, e))
    ]
    reached_with i low m q used (inr found) = inr found

    max_loop-MaxOf :
        (rounds i low : ℕ)
        → i + rounds ≤ length items
        → (m : ℕ) × (max_loop rounds i low items ≡ some m) × MaxOf items i rounds low m
    unfolding max_loop
    max_loop-MaxOf zero i low h = (
      low,
      refl,
      record {
        least = omega arith;
        over = λ j r e lo hi. absurd (omega arith);
        reached = inl refl;
      },
    )
    max_loop-MaxOf (suc rounds) i low h = elim (Option-cases (registered_in items i)) [
      | inl free ↦
          let (m, e, o) = max_loop-MaxOf rounds (i + 1) low (omega arith) in
          (
            m,
            max_round rounds i low (omega arith) ∙ rw free e,
            record {
              least = o.least;
              over = λ j r t lo hi. elim (ℕ_discrete i j) [
                | yes same ↦ absurd (ground (arith, free, t, ap (λ k. registered_in items k) same))
                | no other ↦ o.over j r t (omega arith) (omega arith)
              ];
              reached = o.reached;
            },
          )
      | inr (q, used) ↦
          let (m, e, o) =
            max_loop-MaxOf rounds (i + 1) (if ltb low i then i else low) (omega arith) in
          (
            m,
            max_round rounds i low (omega arith) ∙ rw used e,
            record {
              least = ground (arith, o.least);
              over = λ j r t lo hi. elim (ℕ_discrete i j) [
                | yes same ↦ ground (arith, o.least)
                | no other ↦ o.over j r t (omega arith) (omega arith)
              ];
              reached = reached_with i low m q used o.reached;
            },
          )
    ]

  -- A registration taken out of a valid selector.
  module _ (s : Selector H D) (v : IsValid s) (n : ℕ) (q : Registration H D)
      (taken : registered s n ≡ some q) where
    abbrev idle : Item H D
    idle = record (get_or (items_of s) n blank) { interest = op_noop }

    abbrev emptied : List (Item H D)
    emptied = set (set (items_of s) n idle) n blank

    abbrev cleared : ℕ → Selector H D
    cleared m = record (updated s n idle s.max_fd) { fds = some emptied; max_fd = m }

    inside : n < s.fd_size
    inside = omega (arith, v.max_inside, (v.placed n q taken).1)

    idle_fd : idle.fd ≡ some n
    idle_fd = used_fd (get_or (items_of s) n blank) q taken ∙ ap some (v.placed n q taken).0

    length-emptied : length emptied ≡ s.fd_size
    length-emptied = omega (
      arith,
      length-set (set (items_of s) n idle) n blank,
      length-set (items_of s) n idle,
      v.sized,
    )

    registered-emptied :
        (j : ℕ) → registered_in emptied j ≡ (if n == j then none else registered s j)
    registered-emptied j =
        let room : n < length (set (items_of s) n idle) =
          omega (arith, inside, length-set (items_of s) n idle, v.sized) in
        let room' : n < length (items_of s) = omega (arith, inside, v.sized) in
        ground (
          arith,
          registered-set (set (items_of s) n idle) n j blank room,
          registered-set (items_of s) n j idle room',
        )

    still_there :
        (i : ℕ) (r : Registration H D) → registered_in emptied i ≡ some r → registered s i ≡ some r
    still_there i r e = ground (arith, registered-emptied i, e)

    emptied_placed : (i : ℕ) (r : Registration H D) → registered_in emptied i ≡ some r → r.fd ≡ i
    emptied_placed i r e = (v.placed i r (still_there i r e)).0

    emptied_top :
        (m : ℕ)
        → (m ≡ 0) ⊎ ((r : Registration H D) × (registered_in emptied m ≡ some r))
        → m < s.fd_size
    emptied_top m (inl e) = omega (arith, v.max_inside)
    emptied_top m (inr (r, e)) = omega (arith, v.max_inside, (v.placed m r (still_there m r e)).1)

    cleared-IsValid : (m : ℕ) → MaxOf emptied 0 (s.max_fd + 1) 0 m → IsValid (cleared m)
    cleared-IsValid m o = record {
      stored = refl;
      sized = length-emptied;
      bounded = v.bounded;
      max_inside = emptied_top m o.reached;
      placed = λ i r e. (
        emptied_placed i r e,
        o.over i r e (omega arith) (omega (arith, (v.placed i r (still_there i r e)).1)),
        (v.placed i r (still_there i r e)).2,
      );
      highest = o.reached;
      reads = λ i. ground (arith, registered-emptied i, v.reads i);
      writes = λ i. ground (arith, registered-emptied i, v.writes i);
    }

    clear_item_lem :
        (s' : Selector H D) × (clear_item n s ≡ some s')
        × IsValid s'
        × ((j : ℕ) → registered s' j ≡ (if n == j then none else registered s j))
    unfolding clear_item items_max_fd
    clear_item_lem =
        let (m, e, o) =
          max_loop-MaxOf emptied emptied_placed (s.max_fd + 1) 0 0
            (omega (arith, length-emptied, v.max_inside)) in
        (
          cleared m,
          access_inside s v n _ inside ∙ rw (update_lem s n s.max_fd idle idle_fd) (rw e),
          cleared-IsValid m o,
          registered-emptied,
        )

module _ {H D W : Type 0} (handlers : H → FdHandler H D W) where
  -- For a valid selector with something registered for a descriptor, whose handle_close is NULL or
  -- keeps the selector valid, without taking that registration away itself: selector_unregister_fd
  -- returns SELECTOR_SUCCESS with a valid selector (with `max_fd` computed anew, and the sets for
  -- select) that lacks this registration and has every other one that handle_close left.
  pub unregister-IsValid :
      (st closed : Selector H D × W) (n : ℕ) (r q : Registration H D)
      → IsValid st.0
      → registered st.0 n ≡ some r
      → close_item handlers r.handler (record { fd = n; user_data = r.user_data }) st ≡ some closed
      → IsValid closed.0
      → registered closed.0 n ≡ some q
      → (s' : Selector H D) × (selector_unregister_fd handlers st (pos n)
          ≡ some (success, (s', closed.1)))
        × IsValid s'
        × ((j : ℕ) → registered s' j ≡ (if n == j then none else registered closed.0 j))
  unfolding selector_unregister_fd
  unregister-IsValid st closed n r q v taken closes w still =
      let (here, below, small) = v.placed n r taken in
      let (used, _, handler, own) = registration_fields (get_or (items_of st.0) n blank) r taken in
      let (s', e, w', all) = clear_item_lem closed.0 w n q still in
      let fits : leb 1024 n ≡ false = ground arith in
      let item : Item H D = get_or (items_of st.0) n blank in
      let same : close_item handlers item.handler (record { fd = r.fd; user_data = item.user_data })
            st
          ≡ some closed =
        ap₂ (λ h (k : Key D). close_item handlers h k st) handler
          (ap₂ (λ (f : ℕ) (d : Option D). record { fd = f; user_data = d }) here own)
        ∙ closes in
      (
        s',
        rw fits (access_inside st.0 v n _ (omega (arith, v.max_inside)) ∙ rw used (rw same (rw e))),
        w',
        all,
      )

-- ===== src/Selector/Growth.antt =====
-- ensure_capacity and selector_new (src/shared/selector.c): more room, the same registrations.
use tpe_protos_g.Base.{
  ℕ, zero, suc, ◌+◌, ◌-◌, ◌≤◌, ◌<◌, ◌≡◌, inl, inr, refl, arith, some, none, Option, List, [], ◌∷◌,
  ◌++◌, true, Option-cases, length, length-append, length-replicate, ap, sym, ◌∙◌, take_all,
  replicate,
}
use tpe_protos_g.Selector.{
  Status, success, enomem, Item, Selector, Allocator, zeroed, init_from, fill, resized, items_init,
  grow_table, first_table, ensure_capacity, next_capacity, selector_new, empty_selector, op_read,
  op_write,
}
use tpe_protos_g.Selector.Capacity.{next_capacity_lem, small_enough}
use tpe_protos_g.Selector.Table.{IsValid, registered, registered_in, items_of, asks}

module _ {H D : Type 0} where
  length-init_from : (last : ℕ) (xs : List (Item H D)) → length (init_from last xs) ≡ length xs
  length-init_from last [] = refl
  length-init_from zero (x ∷ xs) = ap suc (length-init_from 0 xs)
  length-init_from (suc last) (x ∷ xs) = ap suc (length-init_from last xs)

  length-fill : (junk : ℕ → Item H D) (i n : ℕ) → length (fill junk i n) ≡ n
  length-fill junk i zero = refl
  length-fill junk i (suc n) = ap suc (length-fill junk (i + 1) n)

  init_from-append :
      (xs ys : List (Item H D)) → init_from (length xs) (xs ++ ys) ≡ xs ++ init_from 0 ys
  init_from-append [] ys = refl
  init_from-append (x ∷ xs) ys = ap (λ t. x ∷ t) (init_from-append xs ys)

  init_from_free : (ys : List (Item H D)) (j : ℕ) → registered_in (init_from 0 ys) j ≡ none
  init_from_free [] j = refl
  init_from_free (y ∷ ys) zero = refl
  init_from_free (y ∷ ys) (suc j) = init_from_free ys j

  append_free :
      (xs ys : List (Item H D)) (j : ℕ)
      → registered_in (xs ++ init_from 0 ys) j ≡ registered_in xs j
  append_free [] ys j = init_from_free ys j
  append_free (x ∷ xs) ys zero = refl
  append_free (x ∷ xs) ys (suc j) = append_free xs ys j

  -- The table behind realloc and items_init.
  abbrev grown : (ℕ → Item H D) → ℕ → List (Item H D) → List (Item H D)
  grown junk n items = init_from (length items) (resized junk n items)

  grown-append :
      (junk : ℕ → Item H D) (n : ℕ) (items : List (Item H D))
      → length items ≤ n
      → grown junk n items ≡ items ++ init_from 0 (fill junk (length items) (n - length items))
  grown-append junk n items h =
      ap (λ t. init_from (length items) (t ++ fill junk (length items) (n - length items)))
        (take_all n items h)
      ∙ init_from-append items (fill junk (length items) (n - length items))

  length-grown :
      (junk : ℕ → Item H D) (n : ℕ) (items : List (Item H D))
      → length items ≤ n
      → length (grown junk n items) ≡ n
  length-grown junk n items h = omega (
    arith,
    ap length (grown-append junk n items h),
    length-append items (init_from 0 (fill junk (length items) (n - length items))),
    length-init_from 0 (fill junk (length items) (n - length items)),
    length-fill junk (length items) (n - length items),
  )

  registered-grown :
      (junk : ℕ → Item H D) (n : ℕ) (items : List (Item H D)) (j : ℕ)
      → length items ≤ n
      → registered_in (grown junk n items) j ≡ registered_in items j
  registered-grown junk n items j h =
      ap (λ t. registered_in t j) (grown-append junk n items h)
      ∙ append_free items (fill junk (length items) (n - length items)) j

  -- a valid selector whose table grew to `n` items
  abbrev pub with_grown : (ℕ → Item H D) → ℕ → Selector H D → Selector H D
  with_grown junk n s = record s { fds = some (grown junk n (items_of s)); fd_size = n }

  pub with_grown-IsValid :
      (junk : ℕ → Item H D) (n : ℕ) (s : Selector H D)
      → IsValid s
      → s.fd_size ≤ n
      → n ≤ 1025
      → IsValid (with_grown junk n s)
        × ((j : ℕ) → registered (with_grown junk n s) j ≡ registered s j)
  with_grown-IsValid junk n s v h hn =
      let room : length (items_of s) ≤ n = omega (arith, v.sized) in
      let same : (j : ℕ) → registered (with_grown junk n s) j ≡ registered s j =
        λ j. registered-grown junk n (items_of s) j room in
      (
        record {
          stored = refl;
          sized = length-grown junk n (items_of s) room;
          bounded = hn;
          max_inside = omega (arith, v.max_inside);
          placed = λ i r e. v.placed i r (sym (same i) ∙ e);
          highest = elim v.highest [
            | inl none_yet ↦ inl none_yet
            | inr (r, e) ↦ inr (r, same s.max_fd ∙ e)
          ];
          reads = λ i. v.reads i ∙ ap (λ r. asks op_read r) (sym (same i));
          writes = λ i. v.writes i ∙ ap (λ r. asks op_write r) (sym (same i));
        },
        same,
      )

  abbrev growth : Allocator H D → Selector H D → ℕ → Option (Status × Selector H D)
  growth a s c = elim (a.realloc c) [
    | none ↦ some (enomem, s)
    | some junk ↦ some (success, with_grown junk c s)
  ]

  grow_table_lem :
      (a : Allocator H D) (s : Selector H D) (c : ℕ)
      → length (items_of s) ≡ s.fd_size
      → s.fd_size ≤ c
      → c ≤ 1025
      → grow_table a s (items_of s) c ≡ growth a s c
  unfolding grow_table items_init
  grow_table_lem a s c sized h hc = elim (Option-cases (a.realloc c)) [
    | inl full ↦ rw (small_enough c hc) (ground (arith, full))
    | inr (junk, e) ↦ rw (small_enough c hc, e, sized) (ground (arith, h))
  ]

  ensure_past :
      (a : Allocator H D) (s : Selector H D) (items : List (Item H D)) (n c : ℕ)
      → s.fds ≡ some items
      → s.fd_size ≤ n
      → n ≤ 1024
      → next_capacity n ≡ some c
      → ensure_capacity a s n ≡ grow_table a s items c
  unfolding ensure_capacity
  ensure_past a s items n c e hn h full = ground (arith, e, full, hn, h)

  -- The call for a valid selector: room for `n` items or none needed, or no memory and no change.
  pub ensure_grows :
      (a : Allocator H D) (s : Selector H D) (n : ℕ)
      → IsValid s
      → s.fd_size ≤ n
      → n ≤ 1024
      → (c : ℕ) × (n < c) × (c ≤ 1025) × (ensure_capacity a s n ≡ growth a s c)
  ensure_grows a s n v hn h =
      let (c, e, small, above, _) = next_capacity_lem n (omega arith) in
      let more : n < c = omega arith in
      (
        c,
        more,
        small,
        ensure_past a s (items_of s) n c v.stored hn h e
            ∙ grow_table_lem a s c v.sized (omega arith) small,
      )

  abbrev fresh : ℕ → Selector H D
  fresh c = record empty_selector { fds = some (init_from 0 (replicate c zeroed)); fd_size = c }

  first_table_lem :
      (a : Allocator H D) (c : ℕ)
      → a.calloc c ≡ true
      → first_table a empty_selector c ≡ some (success, fresh c)
  unfolding first_table items_init
  first_table_lem a c e = rw e (ground arith)

  fresh-IsValid : (c : ℕ) → 0 < c → c ≤ 1025 → IsValid (fresh c)
  fresh-IsValid c some_room small =
      let free : (j : ℕ) → registered (fresh c) j ≡ none = init_from_free (replicate c zeroed) in
      record {
        stored = refl;
        sized = length-init_from 0 (replicate c zeroed) ∙ length-replicate c zeroed;
        bounded = small;
        max_inside = some_room;
        placed = λ i r e. absurd (ground (arith, free i, e));
        highest = inl refl;
        reads = λ i. sym (ap (λ r. asks op_read r) (free i));
        writes = λ i. sym (ap (λ r. asks op_write r) (free i));
      }

  -- With memory, and for up to 1024 elements, selector_new gives a valid selector with room for
  -- them, in which nothing is registered.
  pub selector_new-IsValid :
      (a : Allocator H D) (n : ℕ)
      → n ≤ 1024
      → a.malloc ≡ true
      → ((c : ℕ) → a.calloc c ≡ true)
      → (s : Selector H D) × (selector_new a n ≡ some (some s))
        × IsValid s
        × (n < s.fd_size)
        × ((j : ℕ) → registered s j ≡ none)
  unfolding selector_new ensure_capacity
  selector_new-IsValid a n h m given =
      let (c, e, small, above, _) = next_capacity_lem n (omega arith) in
      let more : n < c = omega arith in
      (
        fresh c,
        ground (arith, m, h, e, first_table_lem a c (given c)),
        fresh-IsValid c (omega arith) small,
        more,
        init_from_free (replicate c zeroed),
      )

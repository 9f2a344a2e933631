-- ===== src/Selector/Table.antt =====
-- The selector (src/shared/selector.c) as a finite map from file descriptors to registrations.
use tpe_protos_g.Base.{
  ℕ, ◌≤◌, ◌<◌, ◌≡◌, ◌⊎◌, inl, inr, arith, some, none, Option, List, [], Bool, false, ◌>>=◌,
  get_elem?_past, Option-cases, if◌then◌else◌, ◌==◌, length, get_or, get_elem?, set,
  get_or-set_self, get_or-set_ne, get_elem?-eq-get_or, ap, sym, ◌∙◌,
}
use native.Mathlib.Decide.{ℕ_discrete}
use tpe_protos_g.Selector.{Item, Selector, blank, wants, op_read, op_write}

-- What is registered for a descriptor.
pub record Registration (H D : Type 0) : Type 0 where
  pub fd : ℕ
  pub interest : ℕ
  pub handler : Option H
  pub user_data : Option D

module _ {H D : Type 0} where
  abbrev pub items_of : Selector H D → List (Item H D)
  items_of s = elim s.fds [ none ↦ [] | some items ↦ items ]

  abbrev pub registration : Item H D → Option (Registration H D)
  registration item = elim item.fd [
    | none ↦ none
    | some n ↦ some (record {
      fd = n;
      interest = item.interest;
      handler = item.handler;
      user_data = item.user_data;
    })
  ]

  -- the abstract map
  abbrev pub registered_in : List (Item H D) → ℕ → Option (Registration H D)
  registered_in items i = registration (get_or items i blank)

  abbrev pub registered : Selector H D → ℕ → Option (Registration H D)
  registered s i = registered_in (items_of s) i

  -- whether a registration asks for an operation
  abbrev pub asks : ℕ → Option (Registration H D) → Bool
  asks op none = false
  asks op (some r) = wants r.interest op

  -- Every registration stands at its own descriptor, which is below FD_SETSIZE and not above
  -- `max_fd`; `max_fd` is 0 or registered; and the sets for select are exactly the interests.
  pub record IsValid (s : Selector H D) : Type 0 where
    pub stored : s.fds ≡ some (items_of s)
    pub sized : length (items_of s) ≡ s.fd_size
    pub bounded : s.fd_size ≤ 1025
    pub max_inside : s.max_fd < s.fd_size
    pub placed :
        (i : ℕ) (r : Registration H D)
        → registered s i ≡ some r
        → (r.fd ≡ i) × (i ≤ s.max_fd) × (i < 1024)
    pub highest : (s.max_fd ≡ 0) ⊎ ((r : Registration H D) × (registered s s.max_fd ≡ some r))
    pub reads : (i : ℕ) → s.master_r i ≡ asks op_read (registered s i)
    pub writes : (i : ℕ) → s.master_w i ≡ asks op_write (registered s i)

  pub slot-set :
      (items : List (Item H D)) (i j : ℕ) (item : Item H D)
      → i < length items
      → get_or (set items i item) j blank ≡ (if i == j then item else get_or items j blank)
  slot-set items i j item h = elim (ℕ_discrete i j) [
    | yes same ↦ ground (
      arith,
      same,
      ap (λ k. get_or (set items i item) k blank) (sym same),
      get_or-set_self items i item blank h,
    )
    | no other ↦ ground (arith, get_or-set_ne items i j item blank other)
  ]

  -- One entry replaced: the table, `max_fd`, and the sets that items_update_fdset_for_fd leaves.
  pub registered-set :
      (items : List (Item H D)) (i j : ℕ) (item : Item H D)
      → i < length items
      → registered_in (set items i item) j
        ≡ (if i == j then registration item else registered_in items j)
  registered-set items i j item h =
      ap (λ (x : Item H D). registration x) (slot-set items i j item h) ∙ ground arith

  pub unused_fd : (item : Item H D) → registration item ≡ none → item.fd ≡ none
  unused_fd item e = elim (Option-cases item.fd) [
    | inl unused ↦ unused
    | inr (n, used) ↦ absurd (ground (arith, used, e))
  ]

  pub used_fd :
      (item : Item H D) (r : Registration H D) → registration item ≡ some r → item.fd ≡ some r.fd
  used_fd item r e = elim (Option-cases item.fd) [
    | inl unused ↦ absurd (ground (arith, unused, e))
    | inr (n, used) ↦ ground (arith, used, e)
  ]

  -- an item, read off its registration
  pub registration_fields :
      (item : Item H D) (r : Registration H D)
      → registration item ≡ some r
      → (item.fd ≡ some r.fd)
        × (item.interest ≡ r.interest)
        × (item.handler ≡ r.handler)
        × (item.user_data ≡ r.user_data)
  registration_fields item r e = elim (Option-cases item.fd) [
    | inl unused ↦ absurd (ground (arith, unused, e))
    | inr (n, used) ↦ ground (arith, used, e)
  ]

  -- The access `s->fds + n` of a valid selector, inside the table and outside.
  module _ {X : Type 0} (s : Selector H D) (v : IsValid s) (n : ℕ)
      (f : List (Item H D) → Item H D → Option X) where
    abbrev access : Option X
    access = s.fds >>= λ items. get_elem? items n >>= λ item. f items item

    access_stored : access ≡ (get_elem? (items_of s) n >>= λ item. f (items_of s) item)
    access_stored = ap (λ o. o >>= λ items. get_elem? items n >>= λ item. f items item) v.stored

    pub access_inside : n < s.fd_size → access ≡ f (items_of s) (get_or (items_of s) n blank)
    access_inside h =
        access_stored
        ∙ ap (λ o. o >>= λ item. f (items_of s) item)
            (get_elem?-eq-get_or (items_of s) n blank (omega (arith, v.sized)))

    pub access_outside : s.fd_size ≤ n → access ≡ none
    access_outside h =
        access_stored
        ∙ ap (λ o. o >>= λ item. f (items_of s) item)
            (get_elem?_past (items_of s) n (omega (arith, v.sized)))

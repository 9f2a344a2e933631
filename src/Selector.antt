-- ===== src/Selector.antt =====
-- src/shared/selector.c and selector.h: the table of the file descriptors that the server waits for.
--
-- `H` is what a `const fd_handler *` points at and `D` what an item's `data` points at; NULL is
-- `none`. The fd of an unused item, FD_UNUSED, is `none` too. The selector is never NULL here (each
-- function answers a NULL with SELECTOR_IARGS). A failed assert and an access outside the table or
-- outside a set is `none`. What malloc, calloc and realloc return is an argument, the Allocator.
-- Timeouts, signals and the mutex are not modelled.
pub mod Capacity
pub mod Table
pub mod Growth
pub mod Registration
pub mod Interest
pub mod Dispatch
use tpe_protos_g.Base.{
  ℕ, zero, suc, ◌+◌, ◌-◌, ◌/◌, ◌%◌, ◌^◌, Bool, true, false, not, Option, none, some, List, [], ◌∷◌,
  ◌++◌, ltb, leb, ◌==◌, if◌then◌else◌, ◌>>=◌, ◌>>◌, check, ℤ, pos, negsuc, length, get_elem?,
  get_or, set, take, replicate,
}

pub data Status : Type 0 where
  success enomem maxfd iargs fdinuse io : Status

abbrev pub is_success : Status → Bool
is_success success = true
is_success _ = false

abbrev pub op_noop : ℕ
op_noop = 0

abbrev pub op_read : ℕ
op_read = 2 ^ 0

abbrev pub op_write : ℕ
op_write = 2 ^ 2

-- `interest & op`, where `op` is a power of two
abbrev pub wants : ℕ → ℕ → Bool
wants interest op = (interest / op) % 2 == 1

-- FD_SETSIZE
abbrev pub items_max_size : ℕ
items_max_size = 1024

-- an `fd_set`
abbrev pub FdSet : Type 0
FdSet = ℕ → Bool

abbrev pub fd_clr : ℕ → FdSet → FdSet
fd_clr n fds i = if n == i then false else fds i

abbrev pub fd_set : ℕ → FdSet → FdSet
fd_set n fds i = if n == i then true else fds i

pub record Item (H D : Type 0) : Type 0 where
  pub fd : Option ℕ
  pub interest : ℕ
  pub handler : Option H
  pub user_data : Option D

-- `resolution_jobs` holds the fd of each job.
pub record Selector (H D : Type 0) : Type 0 where
  pub fds : Option (List (Item H D))
  pub fd_size : ℕ
  pub max_fd : ℕ
  pub master_r : FdSet
  pub master_w : FdSet
  pub slave_r : FdSet
  pub slave_w : FdSet
  pub resolution_jobs : List ℕ

-- Whether malloc and calloc succeed, and what realloc leaves in the places behind the old ones.
pub record Allocator (H D : Type 0) : Type 0 where
  pub malloc : Bool
  pub calloc : ℕ → Bool
  pub realloc : ℕ → Option (ℕ → Item H D)

-- the `while` loop: the bits of `tmp`, of which there are no more than `fuel`
unfoldable pub bit_count : ℕ → ℕ → ℕ
bit_count zero tmp = 0
bit_count (suc fuel) tmp = let more = bit_count fuel (tmp / 2) in if tmp == 0 then 0 else more + 1

-- `size_t` has 64 bits.
unfoldable pub next_capacity : ℕ → Option ℕ
next_capacity n =
    let tmp = 2 ^ bit_count 64 n % 2 ^ 64 in
    check (leb n tmp) >> some ((if ltb items_max_size tmp then items_max_size else tmp) + 1)

-- `new_size > SIZE_MAX/element_size`, with 24 bytes to an item
unfoldable pub too_many : ℕ → Bool
too_many new_size = ltb ((2 ^ 64 - 1) / 24) new_size

module _ {H D : Type 0} where
  -- an item of zeros, with the mark of an unused one
  abbrev pub blank : Item H D
  blank = record { fd = none; interest = 0; handler = none; user_data = none }

  -- `calloc` leaves 0 for the fd
  abbrev pub zeroed : Item H D
  zeroed = record { fd = some 0; interest = 0; handler = none; user_data = none }

  abbrev pub item_init : Item H D → Item H D
  item_init item = record item { fd = none }

  -- the `for` loop, from index `last` on
  abbrev pub init_from : ℕ → List (Item H D) → List (Item H D)
  init_from last [] = []
  init_from zero (x ∷ xs) = item_init x ∷ init_from zero xs
  init_from (suc last) (x ∷ xs) = x ∷ init_from last xs

  unfoldable pub items_init : Selector H D → ℕ → Option (Selector H D)
  items_init s last =
      check (leb last s.fd_size)
      >> (s.fds >>= λ items. some (record s { fds = some (init_from last items) }))

  -- the `for` loop from index `i`, with the rounds that are left
  pub max_loop : ℕ → ℕ → ℕ → List (Item H D) → Option ℕ
  max_loop zero i max items = some max
  max_loop (suc rounds) i max items = get_elem? items i >>= λ item.
      max_loop rounds (i + 1) (elim item.fd [ none ↦ max | some n ↦ if ltb max n then n else max ])
        items

  unfoldable pub items_max_fd : Selector H D → Option ℕ
  items_max_fd s = s.fds >>= λ items. max_loop (s.max_fd + 1) 0 0 items

  -- FD_CLR of FD_UNUSED would write before the set.
  unfoldable pub items_update_fdset_for_fd : Selector H D → Item H D → Option (Selector H D)
  items_update_fdset_for_fd s item = item.fd >>= λ n. some (record s {
    master_r =
        if wants item.interest op_read then fd_set n (fd_clr n s.master_r) else fd_clr n s.master_r;
    master_w =
        if wants item.interest op_write
        then fd_set n (fd_clr n s.master_w)
        else fd_clr n s.master_w;
  })

  -- the items that realloc leaves: the old ones, and then whatever it finds
  abbrev pub fill : (ℕ → Item H D) → ℕ → ℕ → List (Item H D)
  fill junk i zero = []
  fill junk i (suc n) = junk i ∷ fill junk (i + 1) n

  abbrev pub resized : (ℕ → Item H D) → ℕ → List (Item H D) → List (Item H D)
  resized junk n items = take n items ++ fill junk (length items) (n - length items)

  -- the two branches of ensure_capacity that take memory
  unfoldable pub first_table : Allocator H D → Selector H D → ℕ → Option (Status × Selector H D)
  first_table a s new_size =
      if not (a.calloc new_size)
      then some (enomem, s)
      else (items_init (record s { fds = some (replicate new_size zeroed); fd_size = new_size }) 0
          >>= λ s'. some (success, s'))

  unfoldable pub grow_table :
      Allocator H D → Selector H D → List (Item H D) → ℕ → Option (Status × Selector H D)
  grow_table a s items new_size =
      if too_many new_size then some (enomem, s) else elim (a.realloc new_size) [
        | none ↦ some (enomem, s)
        | some junk ↦
            items_init (record s { fds = some (resized junk new_size items); fd_size = new_size })
              s.fd_size
            >>= λ s'. some (success, s')
      ]

  unfoldable pub ensure_capacity : Allocator H D → Selector H D → ℕ → Option (Status × Selector H D)
  ensure_capacity a s n =
      if ltb n s.fd_size
      then some (success, s)
      else if ltb items_max_size n
      then some (maxfd, s)
      else elim s.fds [
        | none ↦ next_capacity n >>= λ new_size. first_table a s new_size
        | some items ↦ next_capacity n >>= λ new_size. grow_table a s items new_size
      ]

  -- memset to 0
  abbrev pub empty_selector : Selector H D
  empty_selector = record {
    fds = none;
    fd_size = 0;
    max_fd = 0;
    master_r = λ i. false;
    master_w = λ i. false;
    slave_r = λ i. false;
    slave_w = λ i. false;
    resolution_jobs = [];
  }

  -- The inner `none` is NULL.
  unfoldable pub selector_new : Allocator H D → ℕ → Option (Option (Selector H D))
  selector_new a n =
      if not a.malloc
      then some none
      else (ensure_capacity a empty_selector n >>= λ r.
          some (if is_success r.0 then some r.1 else none))

  -- step 2 of selector_register
  unfoldable pub take_item : Selector H D → ℕ → H → ℕ → Option D → Option (Status × Selector H D)
  take_item s n handler interest user_data = s.fds >>= λ items. get_elem? items n >>= λ item.
      elim item.fd [
        | some m ↦ some (fdinuse, s)
        | none ↦
            let item' : Item H D = record {
              fd = some n;
              interest = interest;
              handler = some handler;
              user_data = user_data;
            } in
            items_update_fdset_for_fd
              (record s {
                fds = some (set items n item');
                max_fd = if ltb s.max_fd n then n else s.max_fd;
              })
              item'
            >>= λ s'. some (success, s')
      ]

  unfoldable pub selector_register :
      Allocator H D → Selector H D → ℤ → Option H → ℕ → Option D → Option (Status × Selector H D)
  selector_register a s (negsuc n) handler interest user_data = some (iargs, s)
  selector_register a s (pos n) none interest user_data = some (iargs, s)
  selector_register a s (pos n) (some handler) interest user_data =
      if leb items_max_size n
      then some (iargs, s)
      else ((if ltb s.fd_size n then ensure_capacity a s n else some (success, s)) >>= λ r.
          if is_success r.0 then take_item r.1 n handler interest user_data else some (r.0, r.1))

  unfoldable pub selector_set_interest : Selector H D → ℤ → ℕ → Option (Status × Selector H D)
  selector_set_interest s (negsuc n) interest = some (iargs, s)
  selector_set_interest s (pos n) interest =
      if leb items_max_size n
      then some (iargs, s)
      else (s.fds >>= λ items. get_elem? items n >>= λ item. elim item.fd [
        | none ↦ some (iargs, s)
        | some m ↦
            let item' = record item { interest = interest } in
            items_update_fdset_for_fd (record s { fds = some (set items n item') }) item' >>= λ s'.
            some (success, s')
      ])

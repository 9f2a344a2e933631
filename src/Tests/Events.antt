-- ===== src/Tests/Events.antt =====
-- The selector (src/shared/selector.c) on small tables.
use tpe_protos_g.Base.{
  ℕ, zero, suc, ◌+◌, ◌<◌, ◌≡◌, ◌↔◌, inr, refl, arith, some, none, true, [], ◌∷◌, ◌++◌, pos,
  if◌then◌else◌, ◌==◌, ltb, sym,
}
use tpe_protos_g.Selector.{
  Allocator, Item, Selector, success, iargs, blank, selector_new, selector_register,
  selector_set_interest, op_read, op_write, wants,
}
use tpe_protos_g.Selector.Dispatch.{
  selector_unregister_fd, handle_iteration, handle_block_notifications,
}
use tpe_protos_g.Selector.Dispatch.Coverage.{
  read_call, write_call, loggers, due_from, due_jobs, iteration_due,
}
use tpe_protos_g.Selector.Dispatch.Unregister.{unregister-IsValid}
use tpe_protos_g.Selector.Growth.{selector_new-IsValid}
use tpe_protos_g.Selector.Interest.{set_interest-IsValid, with_interest}
use tpe_protos_g.Selector.Registration.{Registers, register-Registers, register_outside_iff}
use tpe_protos_g.Selector.Table.{IsValid, Registration, registered, asks}

-- memory without end, and zeros behind what realloc moves
abbrev plenty : Allocator ℕ ℕ
plenty = record { malloc = true; calloc = λ n. true; realloc = λ n. some (λ i. blank) }

selector_new-IsValid_example :
    (s : Selector ℕ ℕ) × (selector_new plenty 8 ≡ some (some s))
    × IsValid s
    × (8 < s.fd_size)
    × ((j : ℕ) → registered s j ≡ none)
selector_new-IsValid_example = selector_new-IsValid plenty 8 (omega arith) refl (λ c. refl)

-- Two items, with descriptor 1 registered for reading and writing.
abbrev one_item : Item ℕ ℕ
one_item = record { fd = some 1; interest = 5; handler = some 3; user_data = some 9 }

abbrev pair : Selector ℕ ℕ
pair = record {
  fds = some (blank ∷ one_item ∷ []);
  fd_size = 2;
  max_fd = 1;
  master_r = λ i. 1 == i;
  master_w = λ i. 1 == i;
  slave_r = λ i. true;
  slave_w = λ i. 1 == i;
  resolution_jobs = [];
}

pair-reads :
    (i : ℕ) (r : Registration ℕ ℕ)
    → registered pair i ≡ some r
    → (i ≡ 1) × (r ≡ record { fd = 1; interest = 5; handler = some 3; user_data = some 9 })
pair-reads zero r e = absurd (ground (arith, e))
pair-reads (suc zero) r e = ground (arith, e)
pair-reads (suc (suc i)) r e = absurd (ground (arith, e))

pair-asks : (op : ℕ) → wants 5 op ≡ true → (i : ℕ) → (1 == i) ≡ asks op (registered pair i)
pair-asks op w zero = refl
pair-asks op w (suc zero) = sym w
pair-asks op w (suc (suc i)) = ground arith

pair-IsValid : IsValid pair
pair-IsValid = record {
  stored = refl;
  sized = refl;
  bounded = omega arith;
  max_inside = omega arith;
  placed = λ i r e. ground (arith, pair-reads i r e);
  highest = inr (record { fd = 1; interest = 5; handler = some 3; user_data = some 9 }, refl);
  reads = pair-asks op_read refl;
  writes = pair-asks op_write refl;
}

register-Registers_example :
    Registers pair pair-IsValid 9 4 1 none (selector_register plenty pair (pos 9) (some 4) 1 none)
register-Registers_example =
    register-Registers plenty pair 9 4 1 none pair-IsValid (λ c. ((λ i. blank), refl)) (omega arith)
      (omega arith)

register_outside_iff_example :
    (selector_register plenty pair (pos 2) (some 4) 1 none ≡ none) ↔ (2 ≡ pair.fd_size)
register_outside_iff_example =
    register_outside_iff plenty pair 2 4 1 none pair-IsValid (λ c. ((λ i. blank), refl))
      (omega arith)

set_interest-IsValid_example :
    if ltb 1 pair.fd_size
    then ((s' : Selector ℕ ℕ) × (selector_set_interest pair (pos 1) 4
          ≡ some (elim (registered pair 1) [ none ↦ iargs | some r ↦ success ], s'))
        × IsValid s'
        × ((j : ℕ)
            → registered s' j
              ≡ (if 1 == j then with_interest 4 (registered pair j) else registered pair j)))
    else (selector_set_interest pair (pos 1) 4 ≡ none)
set_interest-IsValid_example = set_interest-IsValid pair 1 4 pair-IsValid (omega arith)

unregister-IsValid_example :
    (s' : Selector ℕ ℕ) × (selector_unregister_fd loggers (pair, []) (pos 1)
      ≡ some (success, (s', [])))
    × IsValid s'
    × ((j : ℕ) → registered s' j ≡ (if 1 == j then none else registered pair j))
unregister-IsValid_example =
    unregister-IsValid loggers (pair, []) (pair, []) 1
      (record { fd = 1; interest = 5; handler = some 3; user_data = some 9 })
      (record { fd = 1; interest = 5; handler = some 3; user_data = some 9 }) pair-IsValid refl refl
      pair-IsValid refl

pair_equipped :
    (i : ℕ) (r : Registration ℕ ℕ) → registered pair i ≡ some r → (h : ℕ) × (r.handler ≡ some h)
pair_equipped i r e = (3, ground (arith, pair-reads i r e))

iteration_due_example :
    (handle_iteration loggers (pair, []) ≡ some (pair, [] ++ due_from pair (pair.max_fd + 1) 0))
    × (handle_block_notifications loggers (pair, [])
        ≡ some (record pair { resolution_jobs = [] }, [] ++ due_jobs pair pair.resolution_jobs))
iteration_due_example = iteration_due pair pair-IsValid pair_equipped [] tt

due-pair : due_from pair (pair.max_fd + 1) 0 ≡ read_call 1 ∷ write_call 1 ∷ []
due-pair = refl

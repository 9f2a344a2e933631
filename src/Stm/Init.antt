-- ===== src/Stm/Init.antt =====
-- What stm_init (src/shared/stm.c) accepts.
use tpe_protos_g.Base.{
  ℕ, zero, suc, ◌+◌, ◌≤◌, ◌<◌, ◌≡◌, inl, inr, refl, arith, none, some, List, Option-cases,
  get_elem?, subst, ◌↔◌,
}
use native.Mathlib.Decide.{ℕ_discrete}
use tpe_protos_g.Stm.{StateDefinition, StateMachine, check_states, stm_init}

-- A table in which every identifier up to `max_state` stands at its own index, with an initial state
-- below the last one.
pub record IsWellFormed {K : Type 0} (m : StateMachine K) : Type 0 where
  pub initial_below : m.initial < m.max_state
  pub indexed :
      (i : ℕ)
      → i ≤ m.max_state
      → (d : StateDefinition K) × (get_elem? m.states i ≡ some d) × (d.state ≡ i)

module _ {K : Type 0} where
  abbrev Indexed : List (StateDefinition K) → ℕ → Type 0
  Indexed defs j = (d : StateDefinition K) × (get_elem? defs j ≡ some d) × (d.state ≡ j)

  check_states_head :
      (rounds i : ℕ) (defs : List (StateDefinition K))
      → check_states (suc rounds) i defs ≡ some tt
      → Indexed defs i × (check_states rounds (i + 1) defs ≡ some tt)
  unfolding check_states
  check_states_head rounds i defs e = elim (Option-cases (get_elem? defs i)) [
    | inl missing ↦ absurd (ground (arith, missing, e))
    | inr (d, found) ↦ ((d, found, ground (arith, found, e)), ground (arith, found, e))
  ]

  check_states-Indexed :
      (rounds i : ℕ) (defs : List (StateDefinition K))
      → check_states rounds i defs ≡ some tt
      → (j : ℕ) → i ≤ j
      → j < i + rounds
      → Indexed defs j
  check_states-Indexed zero i defs e j lo hi = absurd (omega arith)
  check_states-Indexed (suc rounds) i defs e j lo hi =
      let (here, there) = check_states_head rounds i defs e in
      elim (ℕ_discrete i j) [
        | yes same ↦ subst (λ k. Indexed defs k) same here
        | no other ↦ check_states-Indexed rounds (i + 1) defs there j (omega arith) (omega arith)
      ]

  check_states_ok :
      (rounds i : ℕ) (defs : List (StateDefinition K))
      → ((j : ℕ) → i ≤ j → j < i + rounds → Indexed defs j)
      → check_states rounds i defs ≡ some tt
  unfolding check_states
  check_states_ok zero i defs all = refl
  check_states_ok (suc rounds) i defs all =
      let (d, found, id) = all i (omega arith) (omega arith) in
      let rest =
        check_states_ok rounds (i + 1) defs (λ j lo hi. all j (omega arith) (omega arith)) in
      ground (arith, found, id, rest)

  -- stm_init goes on exactly for a well-formed machine, and aborts for any other; the machine then has
  -- no current state and is otherwise as given.
  pub stm_init_iff :
      (m m' : StateMachine K)
      → (stm_init m ≡ some m') ↔ (IsWellFormed m × (m' ≡ record m { current = none }))
  unfolding stm_init
  stm_init_iff m m' = (
    λ e. elim (Option-cases (check_states (m.max_state + 1) 0 m.states)) [
      | inl bad ↦ absurd (ground (arith, bad, e))
      | inr (u, good) ↦ (
        record {
          initial_below = ground (arith, good, e);
          indexed = λ i h.
              check_states-Indexed (m.max_state + 1) 0 m.states good i (omega arith) (omega arith);
        },
        ground (arith, good, e),
      )
    ],
    λ w.
        let good =
          check_states_ok (m.max_state + 1) 0 m.states (λ j lo hi. w.0.indexed j (omega arith)) in
        ground (arith, good, w.0.initial_below, w.1),
  )

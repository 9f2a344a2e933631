-- ===== src/Stm/Events.antt =====
-- Where an event leaves the state machine (src/shared/stm.c).
use tpe_protos_g.Base.{
  ℕ, ◌≤◌, ◌≡◌, ◌⊎◌, inl, inr, refl, ap, arith, Option, none, some, Bool-cases, Option-cases,
  get_elem?, ◌==◌, ◌>>=◌,
}
use tpe_protos_g.Stm.{
  StateDefinition, StateMachine, handle_first, jump, fire, react, stm_handler, stm_state, arrive,
  depart,
}
use tpe_protos_g.Stm.Init.{IsWellFormed}

-- What a run of `f` behind `m` gives is what `f` gives for some value of `m`.
pub bind-eq-some :
    {A B : Type 0} (m : Option A) (f : A → Option B) {b : B}
    → m >>= f ≡ some b
    → (a : A) × (m ≡ some a) × (f a ≡ some b)
bind-eq-some none f e = cc
bind-eq-some (some a) f e = (a, refl, e)

module _ {K : Type 0} where
  pub jump_lands :
      (m m' : StateMachine K) (i next : ℕ) (k k' : K)
      → m.current ≡ some i
      → jump (some i) m next k ≡ some (m', k')
      → (m' ≡ record m { current = some next }) × (next ≤ m.max_state)
  unfolding jump
  jump_lands m m' i next k k' at e = elim (Bool-cases (i == next)) [
    | inl stays ↦ ground (arith, stays)
    | inr goes ↦ elim (Option-cases (depart m i k)) [
      | inl a ↦ absurd (ground (arith, goes, a))
      | inr (k₁, a) ↦ elim (Option-cases (arrive m next k₁)) [
        | inl b ↦ absurd (ground (arith, goes, a, b))
        | inr (k₂, b) ↦ ground (arith, goes, a, b)
      ]
    ]
  ]

  pub first_lands :
      (m m' : StateMachine K) (k k' : K)
      → handle_first m.current m k ≡ some (m', k')
      → (i : ℕ) × (m' ≡ record m { current = some i })
        × ((m.current ≡ some i) ⊎ (m.current ≡ none) × (i ≡ m.initial))
  unfolding handle_first
  first_lands m m' k k' e = elim (Option-cases m.current) [
    | inl c ↦ elim (Option-cases (arrive m m.initial k)) [
      | inl a ↦ absurd (ground (arith, c, a))
      | inr (k₁, a) ↦ (m.initial, ground (arith, c, a), inr (c, refl))
    ]
    | inr (i, c) ↦ (i, ground (arith, c), inl c)
  ]

  pub react_lands :
      (event : StateDefinition K → Option (K → Option (ℕ × K))) (m m' : StateMachine K) (i ret : ℕ)
      (k k' : K)
      → m.current ≡ some i
      → react event m k ≡ some (ret, m', k')
      → (m' ≡ record m { current = some ret }) × (ret ≤ m.max_state)
  unfolding react
  react_lands event m m' i ret k k' at e =
      let (j, at', e₁) = bind-eq-some m.current _ e in
      let (d, found, e₂) = bind-eq-some (get_elem? m.states j) _ e₁ in
      let (r, fired, e₃) = bind-eq-some (fire (event d) k) _ e₂ in
      let (s, jumped, e₄) = bind-eq-some (jump (some j) m r.0 r.1) _ e₃ in
      let (lands, below) = jump_lands m s.0 j r.0 r.1 s.1 at' jumped in
      ground (arith, lands, below, e₄)

  -- Whatever event comes, if nothing aborts the machine is left in the state whose identifier the
  -- callback returned, which is the value of the handler and of stm_state, and is one of the table;
  -- nothing else of the machine changes.
  pub stm_handler_lands :
      (event : StateDefinition K → Option (K → Option (ℕ × K))) (m m' : StateMachine K) (ret : ℕ)
      (k k' : K)
      → IsWellFormed m
      → stm_handler event m k ≡ some (ret, m', k')
      → (m' ≡ record m { current = some ret }) × (ret ≤ m.max_state) × (stm_state m' ≡ some ret)
  unfolding stm_handler stm_state
  stm_handler_lands event m m' ret k k' w e =
      let (s, first, e₁) = bind-eq-some (handle_first m.current m k) _ e in
      let (i, same, _) = first_lands m s.0 k s.1 first in
      let (lands, below) =
        react_lands event s.0 m' i ret s.1 k' (ap (λ (x : StateMachine K). x.current) same) e₁ in
      let max_kept : s.0.max_state ≡ m.max_state = ap (λ (x : StateMachine K). x.max_state) same in
      let ok : ret ≤ m.max_state = omega (arith, below, max_kept) in
      let (d, found, id) = w.indexed ret ok in
      (ground (arith, lands, same), ok, ground (arith, lands, same, found, id))
